-- ===== src/Tests/Machine/Laws.antt =====
-- The machine keeps the laws of mounting, opening and closing.
use text.Mathlib.TextEquality.{eq_iff}
use scaleway_csi.Base.{
  String, ◌<>◌, ◌≡◌, refl, ap, sym, ◌∙◌, Bool, true, false, arith, Result, ok, err, inl, inr,
  Bool-cases, ok-injective,
}
use scaleway_csi.Base.Text.{same_text, split, has_suffix}
use scaleway_csi.Disk.{DiskError, not_exist, FileMode}
use scaleway_csi.Disk.Mounts.{is_shared}
use scaleway_csi.Disk.Paths.{device_link, mapper_name, disk_luks_mapper_path}
use scaleway_csi.Disk.Mounts.Written.{escaped}
use scaleway_csi.Disk.Luks.{luks_open, luks_close, luks_status, luks_format}
use scaleway_csi.Disk.Devices.{get_device_path, get_mapped_device_path, says_active}
use scaleway_csi.Node.Hosted.{IsMounting, IsOpening, IsClosing, InPlace}
use scaleway_csi.Tests.Machine.{
  Machine, mapped_v1, staging, the_mount, copies, copies-append, mode_of, stat_answer, ran,
  mount_answer, counted, the_pair, real_path, machine, machine-IsTelling,
}

pair_true :
    (source target : String)
    → mount_answer (the_pair source target) ≡ ok tt
    → (source ≡ mapped_v1) × (target ≡ staging) × (the_pair source target ≡ true)
pair_true source target e =
    (ground (arith, eq_iff source mapped_v1), ground (arith, eq_iff target staging), ground arith)

-- The link of a volume and its mapped device do not depend on the mounts.
link_same :
    (id : String) (w u : Machine)
    → (get_device_path machine id w).0 ≡ (get_device_path machine id u).0
unfolding get_device_path
link_same id w u = elim (Bool-cases (same_text (device_link id) staging)) [
  | inl e ↦ rw e refl
  | inr e ↦ rw e refl
]

mapped_same :
    (id : String) (w u : Machine)
    → w.is_open ≡ u.is_open
    → (get_mapped_device_path machine id w).0 ≡ (get_mapped_device_path machine id u).0
unfolding get_mapped_device_path luks_status
mapped_same id w u e = ground arith

-- What leads to itself and is written as it is.
pub staging_path :
    (target real : String)
    → target ≡ staging
    → ◌≡◌ {A = Result DiskError String} (ok (real_path (same_text target staging))) (ok real)
    → escaped real ≡ staging
unfolding escaped
staging_path target real e followed =
    ap escaped (ok-injective (sym followed) ∙ ap (λ t. real_path (same_text t staging)) e)

pub machine-IsMounting : IsMounting machine machine-IsTelling
unfolding machine-IsTelling
machine-IsMounting = record {
  named = λ source. source;
  mounts-mount = λ source target fs_type options w followed e.
      let (source_is, target_is, same) = pair_true source target e in
      (
        the_mount,
        sym (staging_path target _ target_is followed),
        sym source_is,
        refl,
        ap (λ b. copies (counted b w.times)) same ∙ copies-append w.times,
      );
  directory-mount = λ source target fs_type options w e.
      let (_, target_is, _) = pair_true source target e in
      (
        staging,
        mode_of false,
        ap (λ t. ok (real_path (same_text t staging))) target_is,
        refl,
        refl,
      );
  link-mount = λ id source target fs_type options w. link_same id _ w;
  mapped-mount = λ id source target fs_type options w. mapped_same id _ w refl;
}

stat_open : (staged device : Bool) → (mode : FileMode) × (stat_answer staged device true ≡ ok mode)
stat_open true device = (_, refl)
stat_open false true = (_, refl)
stat_open false false = (_, refl)

active : says_active (split b'\n' ran.stdout) ≡ true
unfolding split has_suffix
active = refl

-- Whether a path is in its place does not depend on what is open.
still-InPlace :
    (path : String) (w u : Machine)
    → InPlace machine machine-IsTelling path w
    → InPlace machine machine-IsTelling path u
unfolding machine-IsTelling
still-InPlace path w u p = record {
  plain = record { resolved = p.plain.resolved; written = p.plain.written };
  under_shared = p.under_shared;
}

pub machine-IsOpening : IsOpening machine machine-IsTelling
unfolding luks_open luks_status luks_format
machine-IsOpening = record {
  stat-open = λ id device passphrase w e. stat_open _ _;
  status-open = λ id device passphrase w e. (ran.stdout, refl, active);
  link-open = λ id device mapper passphrase w. link_same id _ w;
  link-format = λ id device passphrase w. link_same id _ w;
  place-open = λ path device mapper passphrase w p. still-InPlace path w _ p;
  place-format = λ path device passphrase w p. still-InPlace path w _ p;
}

luks_close_v1 :
    (id : String) (w : Machine)
    → (luks_close machine (mapper_name id) w).0 ≡ ok tt
    → mapper_name id ≡ "scw-luks-v1"
unfolding luks_close
luks_close_v1 id w e = ground (arith, eq_iff (mapper_name id) "scw-luks-v1")

stat_closed :
    (mapper : String) (w : Machine)
    → mapper ≡ "scw-luks-v1"
    → (text : String) × ((machine.stat
          (disk_luks_mapper_path <> mapper)
          ((luks_close machine mapper w).1)).0
        ≡ err (not_exist text))
unfolding luks_close
stat_closed mapper w e = rw e ("no such file", refl)

pub machine-IsClosing : IsClosing machine machine-IsTelling
unfolding machine-IsTelling luks_close
machine-IsClosing = record {
  mounts-cleanup = λ target w followed e. refl;
  mounts-close = λ mapper w. ap copies (ground arith);
  stat-close = λ id w e. stat_closed (mapper_name id) w (luks_close_v1 id w e);
}

-- The staging path is in its place.
pub staging-InPlace : (w : Machine) → InPlace machine machine-IsTelling staging w
unfolding machine-IsTelling escaped is_shared split
staging-InPlace w = record {
  plain = record { resolved = refl; written = refl };
  under_shared = refl;
}

-- The machine keeps the names of what is mounted.
pub named_same : (source : String) → machine-IsMounting.named source ≡ source
unfolding machine-IsMounting
named_same source = refl
