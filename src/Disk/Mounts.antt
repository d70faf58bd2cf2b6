-- ===== src/Disk/Mounts.antt =====
-- driver/diskutils.go: `GetMountInfo` and `IsSharedMounted`, on the content of the mount table.
pub mod Table
pub mod Written
pub mod RoundTrip
pub mod Spaced
use scaleway_csi.Base.{
  ℕ, String, ◌<>◌, Bool, true, false, ◌&&◌, ◌||◌, not, Option, none, some, List, [], ◌∷◌, length,
  if◌then◌else◌, Result, ok, err,
}
use scaleway_csi.Base.Int.{ℤ, pos, negsuc}
use scaleway_csi.Base.Text.{same_text, split, fields}
use scaleway_csi.Base.Decimal.{atoi, itoa, itoa_int, atoi_text}
use scaleway_csi.Errors.{
  error_text, target_path_empty, target_not_shared_mounter, target_not_mounter_on_right_device,
}
use scaleway_csi.Disk.{DiskError, failed, MountInfo}

-- The optional fields, up to the dash, and what follows the dash if there is one.
unfoldable pub to_dash : List String → List String × Option (List String)
to_dash [] = ([], none)
to_dash (f ∷ fs) =
    let (before, after) = to_dash fs in
    if same_text f "-" then ([], some fs) else (f ∷ before, after)

abbrev wrong_fields : String → ℕ → DiskError
wrong_fields line n =
    failed ("wrong number of fields in (expected at least 10, got " <> (itoa n <> ("): " <> line)))

abbrev missing_fields : String → ℤ → DiskError
missing_fields line n = failed ("expect 3 fields in " <> (line <> (", got " <> itoa_int n)))

-- The last three fields, given the first of the line and the optional ones.
unfoldable pub last_fields : String → MountInfo → Option (List String) → Result DiskError MountInfo
last_fields line info none = err (missing_fields line (negsuc 0))
last_fields line info (some (fs_type ∷ source ∷ supers ∷ _)) =
    ok (record info { fs_type = fs_type; source = source; super_options = split b',' supers })
last_fields line info (some rest) = err (missing_fields line (pos (length rest)))

abbrev number : String → Result DiskError ℤ
number s = elim (atoi s) [ some n ↦ ok n | none ↦ err (failed (atoi_text s)) ]

-- The first fields of a line and the optional ones.
abbrev pub first_fields :
    ℤ × ℤ → (major_minor root point options : String) → (optional : List String) → MountInfo
first_fields (id, parent) major_minor root point options optional = record {
  id = id;
  parent_id = parent;
  major_minor = major_minor;
  root = root;
  source = "";
  mount_point = point;
  optional_fields = optional;
  fs_type = "";
  mount_options = split b',' options;
  super_options = [];
}

-- The fields of the line of the target.
unfoldable pub read_mount :
    (line major_minor root point options : String)
    → (ids : Result DiskError (ℤ × ℤ)) → List String
    → Result DiskError MountInfo
unfolding to_dash last_fields
read_mount line major_minor root point options (err e) rest = err e
read_mount line major_minor root point options (ok ids) rest =
    let (optional, after) = to_dash rest in
    last_fields line (first_fields ids major_minor root point options optional) after

abbrev pub both_numbers : String → String → Result DiskError (ℤ × ℤ)
both_numbers a b = elim (number a) [
  | err e ↦ err e
  | ok m ↦ elim (number b) [ err e ↦ err e | ok n ↦ ok (m, n) ]
]

-- A line with its fields: `none` if it is of another target.
unfoldable pub target_line :
    (target line f0 f1 f2 f3 f4 f5 : String) → List String → Result DiskError (Option MountInfo)
unfolding read_mount
target_line target line f0 f1 f2 f3 f4 f5 rest =
    if not (same_text f4 target)
    then ok none
    else elim (read_mount line f2 f3 f4 f5 (both_numbers f0 f1) rest) [
      | ok info ↦ ok (some info)
      | err e ↦ err e
    ]

-- One line that is not empty, which has at least ten fields.
unfoldable pub mount_line :
    (target line : String) → List String → Result DiskError (Option MountInfo)
unfolding target_line
mount_line target line (f0 ∷ f1 ∷ f2 ∷ f3 ∷ f4 ∷ f5 ∷ f6 ∷ f7 ∷ f8 ∷ f9 ∷ more) =
    target_line target line f0 f1 f2 f3 f4 f5 (f6 ∷ f7 ∷ f8 ∷ f9 ∷ more)
mount_line target line few = err (wrong_fields line (length few))

-- The loop over the lines.
unfoldable pub mount_lines : (target : String) → List String → Result DiskError (Option MountInfo)
mount_lines target [] = ok none
mount_lines target (line ∷ lines) =
    let rest = mount_lines target lines in
    if same_text line "" then rest else elim (mount_line target line (fields line)) [
      | err e ↦ err e
      | ok (some info) ↦ ok (some info)
      | ok none ↦ rest
    ]

unfoldable pub mount_info_in : (content target : String) → Result DiskError (Option MountInfo)
mount_info_in content target = mount_lines target (split b'\n' content)

-- `strings.Split(field, ":")[0] == "shared"`
abbrev pub begins_shared : List String → Bool
begins_shared [] = false
begins_shared (tag ∷ _) = same_text tag "shared"

-- The loop over the optional fields.
unfoldable pub is_shared : List String → Bool
is_shared [] = false
is_shared (f ∷ fs) = begins_shared (split b':' f) || is_shared fs

-- The tests of `IsSharedMounted` on the mount information.
unfoldable pub shared_mount : (device : String) → Option MountInfo → Result DiskError Bool
unfolding is_shared
shared_mount device none = ok false
shared_mount device (some info) =
    if not (is_shared info.optional_fields)
    then err (failed (error_text target_not_shared_mounter))
    else if not (same_text device "") && not (same_text info.source device)
    then err (failed (error_text target_not_mounter_on_right_device))
    else ok true
