-- ===== src/Disk/Mounts/Table.antt =====
-- What the mount table says of a target.
use text.Mathlib.TextEquality.{eq_iff}
use scaleway_csi.Base.{
  String, ◌≡◌, refl, ap, ◌∙◌, sym, ◌↔◌, ◌⊎◌, inl, inr, true, Option, none, some, List, [], ◌∷◌,
  arith, Result, ok, err, Result-cases, Bool-cases,
}
use scaleway_csi.Base.Int.{ℤ}
use scaleway_csi.Base.Text.{same_text, split, fields}
use scaleway_csi.Disk.{DiskError, MountInfo}
use scaleway_csi.Disk.Mounts.{
  to_dash, last_fields, first_fields, read_mount, mount_line, mount_lines, target_line,
  mount_info_in, is_shared, shared_mount, both_numbers,
}

last_fields-mount_point :
    (line : String) (info : MountInfo) (after : Option (List String)) {m : MountInfo}
    → last_fields line info after ≡ ok m
    → m.mount_point ≡ info.mount_point
unfolding last_fields
last_fields-mount_point line info after e = ground arith

read_mount-mount_point :
    (line a b c d : String) (ids : Result DiskError (ℤ × ℤ)) (rest : List String) {m : MountInfo}
    → read_mount line a b c d ids rest ≡ ok m
    → m.mount_point ≡ c
unfolding read_mount
read_mount-mount_point line a b c d (err x) rest e = cc
read_mount-mount_point line a b c d (ok ids) rest e =
    last_fields-mount_point line (first_fields ids a b c d ((to_dash rest).0)) ((to_dash rest).1) e

target_line-mount_point :
    (target line f0 f1 f2 f3 f4 f5 : String) (rest : List String) {m : MountInfo}
    → target_line target line f0 f1 f2 f3 f4 f5 rest ≡ ok (some m)
    → m.mount_point ≡ target
unfolding target_line
target_line-mount_point target line f0 f1 f2 f3 f4 f5 rest {m} e =
    elim (Bool-cases (same_text f4 target)) [
      | inr other ↦ absurd (ground arith)
      | inl mine ↦ elim (Result-cases (read_mount line f2 f3 f4 f5 (both_numbers f0 f1) rest)) [
        | inr (_, failed) ↦ absurd (ground arith)
        | inl (info, read) ↦
            let same : info ≡ m = ground arith in
            ap (λ i. i.mount_point) (sym same)
            ∙ read_mount-mount_point line f2 f3 f4 f5 (both_numbers f0 f1) rest read
            ∙ (eq_iff f4 target).0 mine
      ]
    ]

mount_line-mount_point :
    (target line : String) (fs : List String) {m : MountInfo}
    → mount_line target line fs ≡ ok (some m)
    → m.mount_point ≡ target
unfolding mount_line
mount_line-mount_point target line (f0 ∷ f1 ∷ f2 ∷ f3 ∷ f4 ∷ f5 ∷ f6 ∷ f7 ∷ f8 ∷ f9 ∷ more) e =
    target_line-mount_point target line f0 f1 f2 f3 f4 f5 (f6 ∷ f7 ∷ f8 ∷ f9 ∷ more) e
mount_line-mount_point target line few e = cc

mount_lines-mount_point :
    (target : String) (lines : List String) {m : MountInfo}
    → mount_lines target lines ≡ ok (some m)
    → m.mount_point ≡ target
unfolding mount_lines
mount_lines-mount_point target [] e = cc
mount_lines-mount_point target (line ∷ lines) {m} e = elim (Bool-cases (same_text line "")) [
  | inl empty ↦ mount_lines-mount_point target lines {m = m} (ground arith)
  | inr full ↦ elim (Result-cases (mount_line target line (fields line))) [
    | inr (_, bad) ↦ absurd (ground arith)
    | inl (none, other) ↦ mount_lines-mount_point target lines {m = m} (ground arith)
    | inl (some info, here) ↦
        mount_line-mount_point target line (fields line) {m = m} (ground arith)
  ]
]

-- The mount information that is read from a mount table for a target has the target as its mount
-- point.
pub mount_info_in-mount_point :
    (content target : String) {m : MountInfo}
    → mount_info_in content target ≡ ok (some m)
    → m.mount_point ≡ target
unfolding mount_info_in
mount_info_in-mount_point content target e = mount_lines-mount_point target (split b'\n' content) e

-- What `IsSharedMounted` asks of the mount information.
pub record IsSharedOn (device : String) (info : Option MountInfo) : Type 0 where
  pub mount : MountInfo
  pub mounted : info ≡ some mount
  pub shared : is_shared mount.optional_fields ≡ true
  pub right_device : (device ≡ "") ⊎ (mount.source ≡ device)

-- The test for a shared mount succeeds just if there is mount information, one of its optional
-- fields is the tag `shared`, and its source is the device if one is given.
pub shared_mount_iff :
    (device : String) (info : Option MountInfo)
    → (shared_mount device info ≡ ok true) ↔ IsSharedOn device info
unfolding shared_mount
shared_mount_iff device none = (λ e. absurd (ground arith), λ h. cc (h.mounted))
shared_mount_iff device (some info) = (
  λ e. record {
    mount = info;
    mounted = refl;
    shared = ground arith;
    right_device = ground (arith, eq_iff device "", eq_iff info.source device);
  },
  λ h.
      ground
        (arith, eq_iff device "", eq_iff info.source device, h.mounted, h.shared, h.right_device),
)
