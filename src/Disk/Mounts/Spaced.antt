-- ===== src/Disk/Mounts/Spaced.antt =====
-- A target that holds white space is never found: the kernel writes it with an octal escape, which
-- `GetMountInfo` does not read.
use Prim.Native.Char.{Char, code}
use Prim.Native.String.{[] as empty, ◌∷◌ as ◌∷ˢ◌}
use text.Mathlib.TextEquality.{eq_iff}
use scaleway_csi.Base.{
  String, ◌≡◌, subst, Bool, true, false, none, some, List, [], ◌∷◌, All, arith, ok, Bool-cases,
  Result-cases, inl, inr,
}
use scaleway_csi.Base.Text.{same_text, split, fields, is_space, open_field, begins_field}
use scaleway_csi.Base.Words.{IsWord, IsWord-IsSolid}
use scaleway_csi.Disk.{MountInfo}
use scaleway_csi.Disk.Mounts.{target_line, mount_line, mount_lines, mount_info_in}

open_field-All :
    (b : Bool) (c : Char) (ws : List String)
    → is_space (code c) ≡ false
    → All IsWord ws
    → All IsWord (open_field b c ws)
open_field-All true c [] h k = ((h, tt), tt)
open_field-All true c (w ∷ ws) h (word, k) = ((h, IsWord-IsSolid w word), k)
open_field-All false c ws h k = ((h, tt), k)

fields-All : (s : String) → All IsWord (fields s)
unfolding fields
fields-All empty = tt
fields-All (c ∷ˢ s) = elim (Bool-cases (is_space (code c))) [
  | inl space ↦ rw space (fields-All s)
  | inr solid ↦ rw solid (open_field-All (begins_field s) c (fields s) solid (fields-All s))
]

target_line-same :
    (target line f0 f1 f2 f3 f4 f5 : String) (rest : List String) {m : MountInfo}
    → target_line target line f0 f1 f2 f3 f4 f5 rest ≡ ok (some m)
    → f4 ≡ target
unfolding target_line
target_line-same target line f0 f1 f2 f3 f4 f5 rest e = ground (arith, eq_iff f4 target)

mount_line-IsWord :
    (target line : String) (fs : List String) {m : MountInfo}
    → All IsWord fs
    → mount_line target line fs ≡ ok (some m)
    → IsWord target
unfolding mount_line
mount_line-IsWord target line (f0 ∷ f1 ∷ f2 ∷ f3 ∷ f4 ∷ f5 ∷ f6 ∷ f7 ∷ f8 ∷ f9 ∷ more)
      (_, (_, (_, (_, (word, _))))) e =
    subst IsWord (target_line-same target line f0 f1 f2 f3 f4 f5 (f6 ∷ f7 ∷ f8 ∷ f9 ∷ more) e) word
mount_line-IsWord target line few h e = cc

mount_lines-IsWord :
    (target : String) (lines : List String) {m : MountInfo}
    → mount_lines target lines ≡ ok (some m)
    → IsWord target
unfolding mount_lines
mount_lines-IsWord target [] e = cc
mount_lines-IsWord target (line ∷ lines) {m} e = elim (Bool-cases (same_text line "")) [
  | inl blank ↦ mount_lines-IsWord target lines {m = m} (ground arith)
  | inr full ↦ elim (Result-cases (mount_line target line (fields line))) [
    | inr (_, bad) ↦ absurd (ground arith)
    | inl (none, other) ↦ mount_lines-IsWord target lines {m = m} (ground arith)
    | inl (some info, here) ↦
        mount_line-IsWord target line (fields line) {m = info} (fields-All line) here
  ]
]

-- A target for which a mount table, whatever its content, gives mount information is not empty and
-- holds no white space.
pub mount_info_in-IsWord :
    (content target : String) {m : MountInfo}
    → mount_info_in content target ≡ ok (some m)
    → IsWord target
unfolding mount_info_in
mount_info_in-IsWord content target e = mount_lines-IsWord target (split b'\n' content) e
