-- ===== src/Disk/Devices.antt =====
-- driver/diskutils.go: `diskUtils`, the disk utilities over the operating system.
use scaleway_csi.Base.{
  String, ◌<>◌, Bool, true, false, ◌&&◌, ◌||◌, not, Option, none, some, List, [], ◌∷◌,
  if◌then◌else◌, Call, ◌>>=◌, ◌>>◌, return, fail, lift, or_fail, refuse_if, attempt,
}
use scaleway_csi.Base.Text.{same_text, split, has_suffix}
use scaleway_csi.Errors.{error_text, target_path_empty, device_path_is_not_device}
use scaleway_csi.Disk.{
  DiskError, not_exist, failed, crashed, exited, wrapped, FileMode, Host, MountInfo, DiskUtils,
}
use scaleway_csi.Disk.Paths.{device_link, mapper_name, mapper_path, default_fs_type}
use scaleway_csi.Disk.Mounts.{mount_info_in, shared_mount}
use scaleway_csi.Disk.Luks.{
  luks_format, luks_open, luks_close, luks_resize, luks_status, luks_is_luks, ended,
}

-- A device that is no character device.
abbrev pub is_block_mode : FileMode → Bool
is_block_mode mode = mode.device && not mode.char_device

abbrev pub or_default : String → String
or_default fs_type = if same_text fs_type "" then default_fs_type else fs_type

-- The test on the first line of the status. A text always splits into at least one line, so the
-- code's error for no line is never met.
abbrev pub says_active : List String → Bool
says_active [] = false
says_active (line ∷ _) = has_suffix line "is active." || has_suffix line "is active and is in use."

module _ (host : Host) where
  open host use {State}

  unfoldable pub is_block_device : (path : String) → Call State DiskError Bool
  is_block_device path = do
    real ← host.eval_symlinks path
    mode ← host.stat real
    return (is_block_mode mode)

  unfoldable pub get_device_path : (volume_id : String) → Call State DiskError String
  get_device_path volume_id = do
    real ← host.eval_symlinks (device_link volume_id)
    mode ← host.stat real
    refuse_if (not (is_block_mode mode)) (failed (error_text device_path_is_not_device))
    return (device_link volume_id)

  unfoldable pub get_mount_info : (target : String) → Call State DiskError (Option MountInfo)
  get_mount_info target = host.read_mounts >>= λ content. lift (mount_info_in content target)

  unfoldable pub is_shared_mounted : (target device : String) → Call State DiskError Bool
  is_shared_mounted target device = do
    refuse_if (same_text target "") (failed (error_text target_path_empty))
    info ← get_mount_info target
    lift (shared_mount device info)

  -- The mapper does not exist, or cannot be looked at.
  abbrev pub no_mapper : String → DiskError → Call State DiskError String
  no_mapper path (not_exist _) = return ""
  no_mapper path (failed text) =
      fail (wrapped ("error checking stat on " <> (path <> ": ")) (failed text))
  no_mapper path (crashed text) = fail (crashed text)
  no_mapper path (exited code text) =
      fail (wrapped ("error checking stat on " <> (path <> ": ")) (exited code text))

  unfoldable pub get_mapped_device_path : (volume_id : String) → Call State DiskError String
  get_mapped_device_path volume_id =
      attempt (host.stat (mapper_path volume_id)) (no_mapper (mapper_path volume_id)) λ _. do
        status ←
            or_fail (luks_status host (mapper_name volume_id))
              (wrapped ("error checking luks status on " <> (mapper_name volume_id <> ": ")))
        refuse_if (not (says_active (split b'\n' status))) (
            failed (
              "luksStatus returned ok, but device " <> (mapper_name volume_id <> " is not active")))
        return (mapper_path volume_id)

  -- The format of a device that has no LUKS header yet.
  abbrev pub format_unless : Bool → String → String → Call State DiskError (Unit {0})
  format_unless true device passphrase = return tt
  format_unless false device passphrase =
      or_fail (luks_format host device passphrase)
        (wrapped ("error formating device " <> (device <> ": ")))

  -- What follows when no mapped device is open.
  unfoldable pub open_encrypted : (volume_id passphrase : String) → Call State DiskError String
  open_encrypted volume_id passphrase = do
    device ←
        or_fail (get_device_path volume_id)
          (wrapped ("error getting device path for volume " <> (volume_id <> ": ")))
    luks ←
        or_fail (luks_is_luks host device)
          (wrapped ("error checking if device " <> (device <> " is a luks device: ")))
    _ ← format_unless luks device passphrase
    _ ←
        or_fail (luks_open host device (mapper_name volume_id) passphrase)
          (wrapped ("error luks opening device " <> (device <> ": ")))
    return (mapper_path volume_id)

  unfoldable pub encrypt_and_open_device :
      (volume_id passphrase : String) → Call State DiskError String
  encrypt_and_open_device volume_id passphrase = do
    mapped ← get_mapped_device_path volume_id
    if not (same_text mapped "") then return mapped else open_encrypted volume_id passphrase

  unfoldable pub close_device : (volume_id : String) → Call State DiskError (Unit {0})
  close_device volume_id = do
    mapped ← get_mapped_device_path volume_id
    (if not (same_text mapped "")
        then or_fail (luks_close host (mapper_name volume_id))
            (wrapped ("error luks closing " <> (mapped <> ": ")))
        else return tt)

  unfoldable pub format_and_mount :
      (target device fs_type : String) → (options : List String) → Call State DiskError (Unit {0})
  format_and_mount target device fs_type options =
      or_fail (host.format_and_mount device target (or_default fs_type) options)
        (wrapped "failed to optionnaly format and mount: ")

  unfoldable pub mount_to_target :
      (source target fs_type : String) → (options : List String) → Call State DiskError (Unit {0})
  mount_to_target source target fs_type options =
      host.mount source target (or_default fs_type) options

  abbrev command : String → List String → Call State DiskError (Unit {0})
  command name args w = ended (host.run name args none w)

  -- The command for the file system, which is looked up first.
  unfoldable pub grow : (target device fs_type : String) → Call State DiskError (Unit {0})
  grow target device fs_type =
      if same_text fs_type "ext3" || same_text fs_type "ext4"
      then (host.look_path "resize2fs" >>= λ path. command path (device ∷ []))
      else if same_text fs_type "xfs"
      then (host.look_path "xfs_growfs" >>= λ path. command path ("-d" ∷ target ∷ []))
      else fail (failed ("filesystem " <> (fs_type <> " does not support resizing")))

  -- `mountInfo.fsType`, which dereferences the pointer.
  abbrev grow_mounted :
      (target device : String) → Option MountInfo → Call State DiskError (Unit {0})
  grow_mounted target device none =
      fail (crashed "invalid memory address or nil pointer dereference")
  grow_mounted target device (some info) = grow target device info.fs_type

  unfoldable pub resize : (target device passphrase : String) → Call State DiskError (Unit {0})
  unfolding grow
  resize target device passphrase = do
    info ← get_mount_info target
    _ ← (if not (same_text passphrase "") then luks_resize host device passphrase else return tt)
    grow_mounted target device info

  -- The interface filled.
  unfoldable pub disk_utils : DiskUtils State
  disk_utils = record {
    format_and_mount = format_and_mount;
    unmount = host.cleanup_mount_point;
    mount_to_target = mount_to_target;
    is_block_device = is_block_device;
    get_device_path = get_device_path;
    is_shared_mounted = is_shared_mounted;
    get_mount_info = get_mount_info;
    get_statfs = host.statfs;
    resize = resize;
    is_encrypted = luks_is_luks host;
    encrypt_and_open_device = encrypt_and_open_device;
    close_device = close_device;
    get_mapped_device_path = get_mapped_device_path;
  }
