-- ===== src/Disk.antt =====
-- driver/diskutils.go and driver/luks_utils.go: what the node service asks of its disks. `Host` is
-- the operating system, the commands and the mounter of k8s.io/mount-utils, all parameters with an
-- unknown state.
pub mod Paths
pub mod Mounts
pub mod Luks
pub mod Devices
use scaleway_csi.Base.{ℕ, String, ◌<>◌, Bool, Option, none, some, List, Call, Failure, panic}
use scaleway_csi.Base.Int.{ℤ}

-- Errors: those for which `os.IsNotExist` holds, those of a command that ended with an exit code,
-- and others; and the panic of a call that dereferences nil.
pub data DiskError : Type 0 where
  not_exist failed crashed : String → DiskError
  exited : ℕ → String → DiskError

-- `err.Error()`
abbrev pub disk_text : DiskError → String
disk_text (not_exist text) = text
disk_text (failed text) = text
disk_text (crashed text) = text
disk_text (exited code text) = text

-- `fmt.Errorf("...%w", err)`, for which `os.IsNotExist` does not hold.
abbrev pub wrapped : String → DiskError → DiskError
wrapped prefix (crashed text) = crashed text
wrapped prefix e = failed (prefix <> disk_text e)

-- The two bits of a file's mode that are read.
pub record FileMode : Type 0 where
  pub device : Bool
  pub char_device : Bool

-- `unix.Statfs_t`, the fields that are read.
pub record Statfs : Type 0 where
  pub blocks : ℕ
  pub bfree : ℕ
  pub bsize : ℤ
  pub files : ℕ
  pub ffree : ℕ

-- How a command ended, and what it wrote.
pub record Ran : Type 0 where
  pub failure : Option DiskError
  pub stdout : String
  pub stderr : String

pub record Host : Type 1 where
  pub State : Type 0
  -- The content of /proc/self/mountinfo.
  pub read_mounts : Call State DiskError String
  pub eval_symlinks : (path : String) → Call State DiskError String
  pub stat : (path : String) → Call State DiskError FileMode
  pub statfs : (path : String) → Call State DiskError Statfs
  pub look_path : (command : String) → Call State DiskError String
  pub run :
      (command : String) → (args : List String) → (stdin : Option String) → State → Ran × State
  -- `SafeFormatAndMount`: `FormatAndMount`, `Mount`, and `CleanupMountPoint` for the mounter.
  pub format_and_mount :
      (source target fs_type : String) → (options : List String) → Call State DiskError (Unit {0})
  pub mount :
      (source target fs_type : String) → (options : List String) → Call State DiskError (Unit {0})
  pub cleanup_mount_point : (target : String) → Call State DiskError (Unit {0})
  -- `os.MkdirAll` of the path and of its `filepath.Dir`, and `os.OpenFile` with `os.O_CREATE`.
  pub mkdir_all : (path : String) → Call State DiskError (Unit {0})
  pub mkdir_parent : (path : String) → Call State DiskError (Unit {0})
  pub create_file : (path : String) → Call State DiskError (Unit {0})
  -- `unix.Openat` for reading, the two calls of ioctl, and `unix.Close`.
  pub open_device : (path : String) → Call State DiskError ℕ
  pub get_read_only : (fd : ℕ) → Call State DiskError ℤ
  pub set_read_only : (fd : ℕ) → Call State DiskError (Unit {0})
  pub close : (fd : ℕ) → State → State

-- `DiskUtils`, the interface that the node service takes. The mount information is what
-- `GetMountInfo` reads.
pub record MountInfo : Type 0 where
  pub id : ℤ
  pub parent_id : ℤ
  pub major_minor : String
  pub root : String
  pub source : String
  pub mount_point : String
  pub optional_fields : List String
  pub fs_type : String
  pub mount_options : List String
  pub super_options : List String

pub record DiskUtils (State : Type 0) : Type 1 where
  pub format_and_mount :
      (target device fs_type : String) → (options : List String) → Call State DiskError (Unit {0})
  pub unmount : (target : String) → Call State DiskError (Unit {0})
  pub mount_to_target :
      (source target fs_type : String) → (options : List String) → Call State DiskError (Unit {0})
  pub is_block_device : (path : String) → Call State DiskError Bool
  pub get_device_path : (volume_id : String) → Call State DiskError String
  pub is_shared_mounted : (target device : String) → Call State DiskError Bool
  pub get_mount_info : (target : String) → Call State DiskError (Option MountInfo)
  pub get_statfs : (path : String) → Call State DiskError Statfs
  pub resize : (target device passphrase : String) → Call State DiskError (Unit {0})
  pub is_encrypted : (device : String) → Call State DiskError Bool
  pub encrypt_and_open_device : (volume_id passphrase : String) → Call State DiskError String
  pub close_device : (volume_id : String) → Call State DiskError (Unit {0})
  pub get_mapped_device_path : (volume_id : String) → Call State DiskError String
