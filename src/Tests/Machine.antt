-- ===== src/Tests/Machine.antt =====
-- A machine that keeps the laws of an operating system: one device may be mounted on one directory,
-- any number of times, and the mapped devices are open or not.
pub mod Laws
use text.Mathlib.TextEquality.{eq_iff}
use scaleway_csi.Base.{
  ℕ, zero, suc, String, ◌<>◌, ◌≡◌, refl, ap, sym, ◌∙◌, Bool, true, false, ◌&&◌, none, some, List,
  [], ◌∷◌, ◌++◌, All, arith, Result, ok, err, return, inl, inr, Bool-cases, ok-injective,
}
use scaleway_csi.Base.Int.{pos}
use scaleway_csi.Base.Text.{same_text, split, has_suffix}
use scaleway_csi.Disk.{Host, DiskError, not_exist, failed, FileMode, Ran}
use scaleway_csi.Disk.Mounts.{is_shared}
use scaleway_csi.Disk.Paths.{device_link, mapper_name, disk_luks_mapper_path}
use scaleway_csi.Disk.Mounts.Written.{Mount, first_on, info_of, table_of, IsWritten, escaped}
use scaleway_csi.Disk.Luks.{luks_open, luks_close, luks_status, luks_is_luks, luks_format}
use scaleway_csi.Disk.Devices.{get_device_path, get_mapped_device_path, says_active}
use scaleway_csi.Node.Hosted.{IsTelling, IsMounting, IsOpening, IsClosing, InPlace}
use scaleway_csi.Tests.Disks.{some_statfs}

pub record Machine : Type 0 where
  pub times : ℕ
  pub is_open : Bool

abbrev mapped_v1 : String
mapped_v1 = "/dev/mapper/scw-luks-v1"

abbrev pub staging : String
staging = "/staging"

abbrev pub the_mount : Mount
the_mount = record {
  id = 36;
  parent = 20;
  major_minor = "253:0";
  root = "/";
  point = staging;
  options = "rw";
  optional = "shared:1" ∷ [];
  fs_type = "ext4";
  source = mapped_v1;
  supers = "rw";
}

the_mount-IsWritten : IsWritten the_mount
the_mount-IsWritten = record {
  id_fits = omega arith;
  parent_fits = omega arith;
  major_minor_word = ground arith;
  root_word = ground arith;
  point_word = ground arith;
  options_word = ground arith;
  optional_tags = ((ground arith, refl), tt);
  fs_type_word = ground arith;
  source_word = ground arith;
  supers_word = ground arith;
}

abbrev copies : ℕ → List Mount
copies zero = []
copies (suc n) = the_mount ∷ copies n

copies-All : (n : ℕ) → All IsWritten (copies n)
copies-All zero = tt
copies-All (suc n) = (the_mount-IsWritten, copies-All n)

copies-append : (n : ℕ) → copies (suc n) ≡ copies n ++ the_mount ∷ []
copies-append zero = refl
copies-append (suc n) = ap (◌∷◌ the_mount) (copies-append n)

abbrev mode_of : Bool → FileMode
mode_of device = record { device = device; char_device = false }

abbrev stat_answer : (staged device open_now : Bool) → Result DiskError FileMode
stat_answer true device open_now = ok (mode_of false)
stat_answer false true open_now = ok (mode_of true)
stat_answer false false true = ok (mode_of true)
stat_answer false false false = err (not_exist "no such file")

abbrev ran : Ran
ran = record { failure = none; stdout = "scw-luks is active."; stderr = "" }

abbrev command_of : List String → String
command_of [] = ""
command_of (name ∷ args) = name

abbrev mapper_of : List String → String
mapper_of (name ∷ mapper ∷ args) = mapper
mapper_of args = ""

-- A mapper is closed if it is that of the volume.
abbrev ran_of : (closing mine : Bool) → Ran
ran_of true false = record { failure = some (failed "no such device"); stdout = ""; stderr = "" }
ran_of closing mine = ran

abbrev open_after : (opening closing mine before : Bool) → Bool
open_after true closing mine before = true
open_after false true true before = false
open_after false closing mine before = before

abbrev mount_answer : Bool → Result DiskError (Unit {0})
mount_answer true = ok tt
mount_answer false = err (failed "wrong device or target")

abbrev counted : Bool → ℕ → ℕ
counted true n = suc n
counted false n = n

abbrev the_pair : (source target : String) → Bool
the_pair source target = same_text source mapped_v1 && same_text target staging

abbrev real_path : (staged : Bool) → String
real_path true = staging
real_path false = "/dev/sda"

abbrev pub machine : Host
machine = record {
  State = Machine;
  read_mounts = λ w. (ok (table_of (copies w.times)), w);
  eval_symlinks = λ path w. (ok (real_path (same_text path staging)), w);
  stat = λ path w. (stat_answer (same_text path staging) (same_text path "/dev/sda") w.is_open, w);
  statfs = λ path. return some_statfs;
  look_path = λ command. return command;
  run = λ command args stdin w.
      let closing = same_text (command_of args) "luksClose" in
      let mine = same_text (mapper_of args) "scw-luks-v1" in
      (
        ran_of closing mine,
        record w {
          is_open = open_after (same_text (command_of args) "luksOpen") closing mine w.is_open;
        },
      );
  format_and_mount = λ source target fs_type options w. (
    mount_answer (the_pair source target),
    record w { times = counted (the_pair source target) w.times },
  );
  mount = λ source target fs_type options. return tt;
  cleanup_mount_point = λ target w. (ok tt, record w { times = 0 });
  mkdir_all = λ path. return tt;
  mkdir_parent = λ path. return tt;
  create_file = λ path. return tt;
  open_device = λ path. return 3;
  get_read_only = λ fd. return (pos 0);
  set_read_only = λ fd. return tt;
  close = λ fd w. w;
}

pub machine-IsTelling : IsTelling machine
unfolding luks_status luks_is_luks
machine-IsTelling = record {
  mounts = λ w. copies w.times;
  table_is = λ w. refl;
  all_written = λ w. copies-All w.times;
  holder = λ path w. the_mount;
  symlinks_state = λ path w. refl;
  stat_state = λ path w. refl;
  status_state = λ mapper w. refl;
  header_state = λ device w. refl;
}

-- What is mounted on the staging path once the device was mounted.
pub machine-first_on :
    (n : ℕ) (is_open : Bool)
    → first_on staging (machine-IsTelling.mounts (record { times = suc n; is_open = is_open }))
      ≡ some (info_of the_mount)
unfolding machine-IsTelling
machine-first_on n is_open = refl
