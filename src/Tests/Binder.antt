-- ===== src/Tests/Binder.antt =====
-- A machine on which one volume is staged, and may be bound to one target any number of times.
use scaleway_csi.Base.{
  String, ◌≡◌, refl, ap, sym, ◌∙◌, Bool, true, false, ◌&&◌, none, some, List, [], ◌∷◌, ◌++◌, All,
  arith, Result, ok, err, return, inl, inr, Bool-cases, ok-injective,
}
use scaleway_csi.Base.Int.{pos}
use scaleway_csi.Base.Words.{IsWord}
use scaleway_csi.Base.Text.{same_text, split}
use text.Mathlib.TextEquality.{eq_iff}
use scaleway_csi.Disk.{Host, DiskError, failed, MountInfo, Ran}
use scaleway_csi.Disk.Paths.{device_link}
use scaleway_csi.Disk.Mounts.Written.{Mount, table_of, IsWritten, first_on, info_of, escaped}
use scaleway_csi.Disk.Luks.{luks_status, luks_is_luks}
use scaleway_csi.Disk.Devices.{get_device_path, is_block_device}
use scaleway_csi.Node.Hosted.{IsTelling, IsBinding, IsPlain, has_option, mode_word}
use scaleway_csi.Tests.Disks.{some_statfs}

abbrev link_v1 : String
link_v1 = "/dev/disk/by-id/scsi-0SCW_b_ssd_volume-v1"

abbrev pub mount_on : (point options : String) → Mount
mount_on point options = record {
  id = 36;
  parent = 20;
  major_minor = "8:0";
  root = "/";
  point = point;
  options = options;
  optional = "shared:1" ∷ [];
  fs_type = "ext4";
  source = link_v1;
  supers = "rw";
}

abbrev mode_text : Bool → String
mode_text true = "ro"
mode_text false = "rw"

abbrev bindings : List Bool → List Mount
bindings [] = []
bindings (read_only ∷ more) = mount_on "/target" (mode_text read_only) ∷ bindings more

abbrev table : List Bool → List Mount
table bound = mount_on "/staging" "rw" ∷ bindings bound

bindings-append :
    (bound : List Bool) (b : Bool)
    → bindings (bound ++ b ∷ []) ≡ bindings bound ++ mount_on "/target" (mode_text b) ∷ []
bindings-append [] b = refl
bindings-append (c ∷ bound) b =
    ap (◌∷◌ (mount_on "/target" (mode_text c))) (bindings-append bound b)

mount_on-IsWritten :
    (point options : String) → IsWord point → IsWord options → IsWritten (mount_on point options)
mount_on-IsWritten point options at_point with_options = record {
  id_fits = omega arith;
  parent_fits = omega arith;
  major_minor_word = ground arith;
  root_word = ground arith;
  point_word = at_point;
  options_word = with_options;
  optional_tags = ((ground arith, refl), tt);
  fs_type_word = ground arith;
  source_word = ground arith;
  supers_word = ground arith;
}

mode_text-IsWord : (b : Bool) → IsWord (mode_text b)
mode_text-IsWord true = ground arith
mode_text-IsWord false = ground arith

bindings-All : (bound : List Bool) → All IsWritten (bindings bound)
bindings-All [] = tt
bindings-All (b ∷ bound) = (
  mount_on-IsWritten "/target" (mode_text b) (ground arith) (mode_text-IsWord b),
  bindings-All bound,
)

abbrev bind_answer : Bool → Result DiskError (Unit {0})
bind_answer true = ok tt
bind_answer false = err (failed "wrong source or target")

abbrev bind_after : Bool → Bool → List Bool → List Bool
bind_after true read_only bound = bound ++ read_only ∷ []
bind_after false read_only bound = bound

abbrev binds : (source target : String) → Bool
binds source target = same_text source "/staging" && same_text target "/target"

abbrev ran : Ran
ran = record { failure = none; stdout = ""; stderr = "" }

abbrev pub binder : Host
binder = record {
  State = List Bool;
  read_mounts = λ w. (ok (table_of (table w)), w);
  eval_symlinks = λ path. return path;
  stat = λ path. return (record { device = same_text path link_v1; char_device = false });
  statfs = λ path. return some_statfs;
  look_path = λ command. return command;
  run = λ command args stdin w. (ran, w);
  format_and_mount = λ source target fs_type options. return tt;
  mount = λ source target fs_type options w. (
    bind_answer (binds source target),
    bind_after (binds source target) (has_option "ro" options) w,
  );
  cleanup_mount_point = λ target. return tt;
  mkdir_all = λ path. return tt;
  mkdir_parent = λ path. return tt;
  create_file = λ path. return tt;
  open_device = λ path. return 3;
  get_read_only = λ fd. return (pos 0);
  set_read_only = λ fd. return tt;
  close = λ fd w. w;
}

pub binder-IsTelling : IsTelling binder
unfolding luks_status luks_is_luks
binder-IsTelling = record {
  mounts = table;
  table_is = λ w. refl;
  holder = λ path w. mount_on "/" "rw";
  all_written =
      λ w. (mount_on-IsWritten "/staging" "rw" (ground arith) (ground arith), bindings-All w);
  symlinks_state = λ path w. refl;
  stat_state = λ path w. refl;
  status_state = λ mapper w. refl;
  header_state = λ device w. refl;
}

-- Before anything is bound, the volume is on the staging path and nothing on the target.
pub binder-first_on :
    (first_on "/staging" (binder-IsTelling.mounts []) ≡ some (info_of (mount_on "/staging" "rw")))
    × (first_on "/target" (binder-IsTelling.mounts []) ≡ none)
unfolding binder-IsTelling
binder-first_on = (refl, refl)

bound_pair :
    (source target : String)
    → bind_answer (binds source target) ≡ ok tt
    → (source ≡ "/staging") × (target ≡ "/target") × (binds source target ≡ true)
bound_pair source target e = (
  ground (arith, eq_iff source "/staging"),
  ground (arith, eq_iff target "/target"),
  ground arith,
)

split-mode_text : (b : Bool) → split b',' (mode_text b) ≡ mode_word b ∷ []
unfolding split
split-mode_text true = refl
split-mode_text false = refl

bound_path :
    (target real : String)
    → target ≡ "/target"
    → ◌≡◌ {A = Result DiskError String} (ok target) (ok real)
    → "/target" ≡ escaped real
unfolding escaped
bound_path target real e followed = ap escaped (sym e ∙ ok-injective followed)

-- The link of a volume does not depend on the mounts.
binder_link :
    (id : String) (w u : List Bool)
    → (get_device_path binder id w).0 ≡ (get_device_path binder id u).0
unfolding get_device_path
binder_link id w u = elim (Bool-cases (same_text (device_link id) link_v1)) [
  | inl e ↦ rw e refl
  | inr e ↦ rw e refl
]

-- What is on the staging path.
staged_info :
    (source : String) (w : List Bool) {info : MountInfo}
    → source ≡ "/staging"
    → first_on source (table w) ≡ some info
    → info_of (mount_on "/staging" "rw") ≡ info
staged_info source w {info} here found = same (ap (λ s. first_on s (table w)) (sym here) ∙ found)
  where
    same : {a : MountInfo} → some a ≡ some info → a ≡ info
    same e = cc

pub binder-IsBinding : IsBinding binder binder-IsTelling
unfolding binder-IsTelling is_block_device
binder-IsBinding = record {
  mounts-bind = λ source target fs_type options w plain followed bind staged e.
      let (source_is, target_is, same) = bound_pair source target e in
      let info_is = staged_info source w source_is staged in
      let read_only = has_option "ro" options in
      (
        mount_on "/target" (mode_text read_only),
        [],
        bound_path target _ target_is followed,
        ap (λ i. i.source) info_is,
        ap (λ i. i.optional_fields) info_is,
        split-mode_text read_only,
        ap (λ b. table (bind_after b read_only w)) same
            ∙ ap (◌∷◌ (mount_on "/staging" "rw")) (bindings-append w read_only),
      );
  file-bind = λ source target fs_type options w bind e.
      let (source_is, target_is, same) = bound_pair source target e in
      ap (λ t. ok (same_text t link_v1 && true)) target_is
      ∙ sym (ap (λ t. ok (same_text t link_v1 && true)) source_is);
  link-bind = λ id source target fs_type options w. binder_link id _ w;
  mounts-mkdir = λ path w. refl;
  plain-mkdir = λ path there w p. record { resolved = p.resolved; written = p.written };
  link-mkdir = λ id path w. refl;
  file-mkdir = λ path there w e. e;
}

-- The paths of the volume lead to themselves.
pub paths-IsPlain :
    (w : List Bool)
    → IsPlain binder binder-IsTelling "/staging" w × IsPlain binder binder-IsTelling "/target" w
unfolding escaped
paths-IsPlain w =
    (record { resolved = refl; written = refl }, record { resolved = refl; written = refl })

-- What is first on the target once the volume is bound there for reading.
pub binder-first_on_target :
    first_on "/target" (binder-IsTelling.mounts (true ∷ []))
    ≡ some (info_of (mount_on "/target" "ro"))
unfolding binder-IsTelling
binder-first_on_target = refl
