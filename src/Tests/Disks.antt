-- ===== src/Tests/Disks.antt =====
-- Disk utilities over one device, and a machine that logs the commands it runs.
use scaleway_csi.Base.{
  String, ◌<>◌, ◌≡◌, refl, Bool, ◌&&◌, true, false, Option, none, some, List, [], ◌∷◌, ◌++◌, Call,
  ok, return, fail,
}
use scaleway_csi.Base.Int.{pos}
use scaleway_csi.Base.Text.{same_text}
use scaleway_csi.Disk.{FileMode, DiskError, not_exist, Statfs, Ran, Host, DiskUtils}
use scaleway_csi.Node.Laws.{IsLooking}
use scaleway_csi.Node.Filled.{IsReading}

-- Whether the device is open, and the path and the device that are mounted.
pub record Disks : Type 0 where
  pub is_open : Bool
  pub mounted : Option (String × String)

abbrev mounted_on : Option (String × String) → String → String → Bool
mounted_on none target device = false
mounted_on (some (t, d)) target device = same_text t target && same_text d device

abbrev pub some_statfs : Statfs
some_statfs = record { blocks = 100; bfree = 40; bsize = pos 4096; files = 50; ffree = 20 }

abbrev pub disks : DiskUtils Disks
disks = record {
  format_and_mount =
      λ target device fs_type options w. (ok tt, record w { mounted = some (target, device) });
  unmount = λ target w. (ok tt, record w { mounted = none });
  mount_to_target = λ source target fs_type options w. (ok tt, w);
  is_block_device = λ path. return false;
  get_device_path = λ id. return ("/dev/disk/by-id/scsi-0SCW_b_ssd_volume-" <> id);
  is_shared_mounted = λ target device w. (ok (mounted_on w.mounted target device), w);
  get_mount_info = λ target. return none;
  get_statfs = λ path. return some_statfs;
  resize = λ target device passphrase. return tt;
  is_encrypted = λ device. return false;
  encrypt_and_open_device =
      λ id passphrase w. (ok ("/dev/mapper/scw-luks-" <> id), record w { is_open = true });
  close_device = λ id w. (ok tt, record w { is_open = false });
  get_mapped_device_path = λ id. return "";
}

pub disks-IsLooking : IsLooking disks
disks-IsLooking = record {
  device_path_state = λ id w. refl;
  shared_mounted_state = λ target device w. refl;
  block_device_state = λ path w. refl;
}

-- A machine whose device has a LUKS header and is not open, and whose state is the log.
abbrev mapper : String
mapper = "/dev/mapper/scw-luks-v1"

abbrev done : Ran
done = record { failure = none; stdout = ""; stderr = "" }

abbrev stat_answer : Bool → Call (List (List String)) DiskError FileMode
stat_answer true = fail (not_exist "no such file")
stat_answer false = return (record { device = true; char_device = false })

abbrev pub machine : Host
machine = record {
  State = List (List String);
  read_mounts = return "";
  eval_symlinks = λ path. return "/dev/sda";
  stat = λ path. stat_answer (same_text path mapper);
  statfs = λ path. return some_statfs;
  look_path = λ command. return command;
  run = λ command args stdin log. (done, log ++ (command ∷ args) ∷ []);
  format_and_mount = λ source target fs_type options. return tt;
  mount = λ source target fs_type options. return tt;
  cleanup_mount_point = λ target. return tt;
  mkdir_all = λ path. return tt;
  mkdir_parent = λ path. return tt;
  create_file = λ path. return tt;
  open_device = λ path. return 3;
  get_read_only = λ fd. return (pos 0);
  set_read_only = λ fd. return tt;
  close = λ fd w. w;
}

answer-keeps : (b : Bool) (w : List (List String)) → (stat_answer b w).1 ≡ w
answer-keeps true w = refl
answer-keeps false w = refl

pub machine-IsReading : IsReading machine
machine-IsReading = record {
  mounts_state = λ w. refl;
  symlinks_state = λ path w. refl;
  stat_state = λ path w. answer-keeps (same_text path mapper) w;
}
