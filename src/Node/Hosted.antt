-- ===== src/Node/Hosted.antt =====
-- What the disk utilities of driver/diskutils.go rely on of the operating system and of cryptsetup:
-- the mount table is the one that the kernel writes, a mount joins it, and a device that is opened
-- is there and active.
pub mod Mounting
pub mod Looking
pub mod Opening
pub mod Staged
pub mod Unstaged
pub mod Binding
pub mod Published
pub mod Republished
pub mod Spared
use scaleway_csi.Base.{
  String, ◌≡◌, Bool, true, false, ◌||◌, List, [], ◌∷◌, ◌++◌, All, ok, err, none, some,
}
use scaleway_csi.Base.Text.{split, same_text}
use scaleway_csi.Base.Words.{IsWord}
use scaleway_csi.Disk.{Host, FileMode, MountInfo, not_exist}
use scaleway_csi.Disk.Paths.{mapper_name, mapper_path}
use scaleway_csi.Disk.Mounts.{is_shared}
use scaleway_csi.Disk.Mounts.Written.{Mount, table_of, IsWritten, first_on, escaped}
use scaleway_csi.Disk.Luks.{luks_format, luks_open, luks_close, luks_status, luks_is_luks}
use scaleway_csi.Disk.Devices.{
  get_device_path, get_mapped_device_path, is_block_device, is_block_mode, says_active,
}
use scaleway_csi.Node.Publish.{is_read_only}

-- The word with which the kernel begins the options of a mount.
abbrev pub mode_word : (read_only : Bool) → String
mode_word true = "ro"
mode_word false = "rw"

-- One of the options of a mount.
abbrev pub has_option : String → List String → Bool
has_option name [] = false
has_option name (o ∷ os) = same_text o name || has_option name os

module _ (host : Host) where
  open host use {
    State, read_mounts, eval_symlinks, stat, format_and_mount, mount, mkdir_all,
    cleanup_mount_point,
  }

  -- The mount table, and the looks, which change nothing.
  pub record IsTelling : Type 0 where
    pub mounts : State → List Mount
    pub table_is : (w : State) → read_mounts w ≡ (ok (table_of (mounts w)), w)
    pub all_written : (w : State) → All IsWritten (mounts w)
    -- The mount on which a path lies.
    pub holder : (path : String) → State → Mount
    pub symlinks_state : (path : String) (w : State) → (eval_symlinks path w).1 ≡ w
    pub stat_state : (path : String) (w : State) → (stat path w).1 ≡ w
    pub status_state : (mapper : String) (w : State) → (luks_status host mapper w).1 ≡ w
    pub header_state : (device : String) (w : State) → (luks_is_luks host device w).1 ≡ w

  module _ (T : IsTelling) where
    -- A path that is there under no other name, that the kernel writes as it is, and on which a new
    -- mount is shared, since the mount on which it lies is.
    pub record IsPlain (path : String) (w : State) : Type 0 where
      pub resolved : (eval_symlinks path w).0 ≡ ok path
      pub written : escaped path ≡ path

    pub record InPlace (path : String) (w : State) : Type 0 where
      pub plain : IsPlain path w
      pub under_shared : is_shared (T.holder path w).optional ≡ true

    -- A mount that succeeds stands last in the table, on the path to which its target leads, and on a
    -- directory. It is shared just if the mount on which that path lies is. Its source has the name
    -- that `mount` gives it. It leaves the links and the mapped devices alone.
    pub record IsMounting : Type 0 where
      pub named : (source : String) → String
      pub mounts-mount :
          (source target fs_type : String) (options : List String) (w : State) {real : String}
          → (eval_symlinks target w).0 ≡ ok real
          → (format_and_mount source target fs_type options w).0 ≡ ok tt
          → (m : Mount) × (m.point ≡ escaped real)
            × (m.source ≡ named source)
            × (is_shared m.optional ≡ is_shared (T.holder real w).optional)
            × (T.mounts ((format_and_mount source target fs_type options w).1)
                ≡ T.mounts w ++ m ∷ [])
      pub directory-mount :
          (source target fs_type : String) (options : List String) (w : State)
          → (format_and_mount source target fs_type options w).0 ≡ ok tt
          → let w' = (format_and_mount source target fs_type options w).1 in
            (real : String) × (mode : FileMode) × ((eval_symlinks target w').0 ≡ ok real)
            × ((stat real w').0 ≡ ok mode)
            × (is_block_mode mode ≡ false)
      pub link-mount :
          (id source target fs_type : String) (options : List String) (w : State)
          → (get_device_path host id ((format_and_mount source target fs_type options w).1)).0
            ≡ (get_device_path host id w).0
      pub mapped-mount :
          (id source target fs_type : String) (options : List String) (w : State)
          → (get_mapped_device_path host id
              ((format_and_mount source target fs_type options w).1)).0
            ≡ (get_mapped_device_path host id w).0

    -- A mapped device that was opened is there, and its status is active. Cryptsetup leaves the links
    -- of the devices alone, and the paths and mounts that are there.
    pub record IsOpening : Type 0 where
      pub stat-open :
          (id device passphrase : String) (w : State)
          → (luks_open host device (mapper_name id) passphrase w).0 ≡ ok tt
          → (mode : FileMode) × ((stat
                (mapper_path id)
                ((luks_open host device (mapper_name id) passphrase w).1)).0
              ≡ ok mode)
      pub status-open :
          (id device passphrase : String) (w : State)
          → (luks_open host device (mapper_name id) passphrase w).0 ≡ ok tt
          → (status : String) × ((luks_status host
                (mapper_name id)
                ((luks_open host device (mapper_name id) passphrase w).1)).0
              ≡ ok status)
            × (says_active (split b'\n' status) ≡ true)
      pub link-open :
          (id device mapper passphrase : String) (w : State)
          → (get_device_path host id ((luks_open host device mapper passphrase w).1)).0
            ≡ (get_device_path host id w).0
      pub link-format :
          (id device passphrase : String) (w : State)
          → (get_device_path host id ((luks_format host device passphrase w).1)).0
            ≡ (get_device_path host id w).0
      pub place-open :
          (path device mapper passphrase : String) (w : State)
          → InPlace path w
          → InPlace path ((luks_open host device mapper passphrase w).1)
      pub place-format :
          (path device passphrase : String) (w : State)
          → InPlace path w
          → InPlace path ((luks_format host device passphrase w).1)

    -- What is unmounted is in the table no more, under the path to which it led, and a mapped device
    -- that was closed is not there. Closing leaves the mounts alone.
    pub record IsClosing : Type 0 where
      pub mounts-cleanup :
          (target : String) (w : State) {real : String}
          → (eval_symlinks target w).0 ≡ ok real
          → (cleanup_mount_point target w).0 ≡ ok tt
          → first_on (escaped real) (T.mounts ((cleanup_mount_point target w).1)) ≡ none
      pub mounts-close :
          (mapper : String) (w : State) → T.mounts ((luks_close host mapper w).1) ≡ T.mounts w
      pub stat-close :
          (id : String) (w : State)
          → (luks_close host (mapper_name id) w).0 ≡ ok tt
          → (text : String) × ((stat (mapper_path id) ((luks_close host (mapper_name id) w).1)).0
              ≡ err (not_exist text))

    -- A bind mount that succeeds stands last in the table, on the path to which its target leads, with
    -- the source and the peers of the mount it was made of. Its own options begin with whether it is
    -- for reading, which the options asked for. Its target is a device just if what is bound is one. Mounts and new directories leave the links alone, and new
    -- directories leave alone the mounts and the files that are there.
    pub record IsBinding : Type 0 where
      pub mounts-bind :
          (source target fs_type : String) (options : List String) (w : State) {info : MountInfo}
          {real : String}
          → IsPlain source w
          → (eval_symlinks target w).0 ≡ ok real
          → has_option "bind" options ≡ true
          → first_on source (T.mounts w) ≡ some info
          → (mount source target fs_type options w).0 ≡ ok tt
          → (m : Mount) × (rest : List String) × (m.point ≡ escaped real)
            × (m.source ≡ info.source)
            × (m.optional ≡ info.optional_fields)
            × (split b',' m.options ≡ mode_word (has_option "ro" options) ∷ rest)
            × (T.mounts ((mount source target fs_type options w).1) ≡ T.mounts w ++ m ∷ [])
      pub file-bind :
          (source target fs_type : String) (options : List String) (w : State)
          → has_option "bind" options ≡ true
          → (mount source target fs_type options w).0 ≡ ok tt
          → (is_block_device host target ((mount source target fs_type options w).1)).0
            ≡ (is_block_device host source w).0
      pub link-bind :
          (id source target fs_type : String) (options : List String) (w : State)
          → (get_device_path host id ((mount source target fs_type options w).1)).0
            ≡ (get_device_path host id w).0
      pub mounts-mkdir : (path : String) (w : State) → T.mounts ((mkdir_all path w).1) ≡ T.mounts w
      pub plain-mkdir :
          (path there : String) (w : State) → IsPlain there w → IsPlain there ((mkdir_all path w).1)
      pub link-mkdir :
          (id path : String) (w : State)
          → (get_device_path host id ((mkdir_all path w).1)).0 ≡ (get_device_path host id w).0
      pub file-mkdir :
          (path there : String) (w : State) {b : Bool}
          → (is_block_device host there w).0 ≡ ok b
          → (is_block_device host there ((mkdir_all path w).1)).0 ≡ ok b
