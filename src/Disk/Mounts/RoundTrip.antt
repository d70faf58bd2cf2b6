-- ===== src/Disk/Mounts/RoundTrip.antt =====
-- `GetMountInfo` reads back the mount table that the kernel writes.
use text.Mathlib.TextLemmas.{nil-append, cons-append}
use scaleway_csi.Base.{
  ◌≤◌, String, ◌<>◌, ◌≡◌, refl, ap, ◌∙◌, none, some, false, List, [], ◌∷◌, ◌++◌, All, All-append,
  length, if◌then◌else◌, arith, ok,
}
use scaleway_csi.Base.Int.{pos}
use scaleway_csi.Base.Text.{same_text, split, fields, join, Lacks, split-append}
use scaleway_csi.Base.Words.{
  apart, append-ne-nil, IsWord, IsWord-IsSolid, IsWord-ne-nil, IsSolid-Lacks, Lacks-append,
  fields-join,
}
use scaleway_csi.Base.Decimal.{itoa, atoi-itoa, itoa-IsWord}
use scaleway_csi.Disk.Mounts.{
  to_dash, last_fields, read_mount, both_numbers, target_line, mount_line, mount_lines,
  mount_info_in,
}
use scaleway_csi.Disk.Mounts.Written.{
  Mount, tail_of, words_of, line_of, table_of, IsTag, IsWritten, info_of, first_on,
}

to_dash-append :
    (tags rest : List String) → All IsTag tags → to_dash (tags ++ "-" ∷ rest) ≡ (tags, some rest)
unfolding to_dash
to_dash-append [] rest h = refl
to_dash-append (t ∷ tags) rest ((_, ne), h) = rw (to_dash-append tags rest h, ne) refl

tags-All : (tags : List String) → All IsTag tags → All IsWord tags
tags-All [] h = tt
tags-All (t ∷ tags) ((w, _), h) = (w, tags-All tags h)

mount_line-tail :
    (target line f0 f1 f2 f3 f4 f5 : String) (rest : List String)
    → 4 ≤ length rest
    → mount_line target line (f0 ∷ f1 ∷ f2 ∷ f3 ∷ f4 ∷ f5 ∷ rest)
      ≡ target_line target line f0 f1 f2 f3 f4 f5 rest
unfolding mount_line
mount_line-tail target line f0 f1 f2 f3 f4 f5 (a ∷ b ∷ c ∷ d ∷ rest) h = refl
mount_line-tail target line f0 f1 f2 f3 f4 f5 (a ∷ b ∷ c ∷ []) h = absurd (omega arith)
mount_line-tail target line f0 f1 f2 f3 f4 f5 (a ∷ b ∷ []) h = absurd (omega arith)
mount_line-tail target line f0 f1 f2 f3 f4 f5 (a ∷ []) h = absurd (omega arith)
mount_line-tail target line f0 f1 f2 f3 f4 f5 [] h = absurd (omega arith)

length-tail : (tags : List String) (a b c d : String) → 4 ≤ length (tags ++ a ∷ b ∷ c ∷ d ∷ [])
length-tail [] a b c d = omega arith
length-tail (t ∷ tags) a b c d = omega (arith, length-tail tags a b c d)

Lacks-join : (words : List String) → All IsWord words → Lacks b'\n' (join words " ")
unfolding join
Lacks-join [] h = tt
Lacks-join (w ∷ []) (h, _) = IsSolid-Lacks b'\n' refl w (IsWord-IsSolid w h)
Lacks-join (w ∷ v ∷ ws) (h, k) =
    Lacks-append b'\n' w (" " <> join (v ∷ ws) " ")
      (IsSolid-Lacks b'\n' refl w (IsWord-IsSolid w h))
      (rw (cons-append, nil-append) (omega arith, Lacks-join (v ∷ ws) k))

module _ (m : Mount) (h : IsWritten m) where
  words-IsWord : All IsWord (words_of m)
  words-IsWord = (
    itoa-IsWord m.id,
    (
      itoa-IsWord m.parent,
      (
        h.major_minor_word,
        (
          h.root_word,
          (
            h.point_word,
            (
              h.options_word,
              All-append IsWord m.optional ("-" ∷ m.fs_type ∷ m.source ∷ m.supers ∷ [])
                  (tags-All m.optional h.optional_tags)
                  ((refl, tt), (h.fs_type_word, (h.source_word, (h.supers_word, tt)))),
            ),
          ),
        ),
      ),
    ),
  )

  fields-line_of : fields (line_of m) ≡ words_of m
  unfolding line_of
  fields-line_of = fields-join (words_of m) words-IsWord

  both_numbers-itoa : both_numbers (itoa m.id) (itoa m.parent) ≡ ok (pos m.id, pos m.parent)
  both_numbers-itoa = ground (arith, atoi-itoa m.id h.id_fits, atoi-itoa m.parent h.parent_fits)

  read_mount-written :
      (line : String)
      → read_mount line m.major_minor m.root m.point m.options
          (both_numbers (itoa m.id) (itoa m.parent))
          (tail_of m)
        ≡ ok (info_of m)
  unfolding read_mount last_fields
  read_mount-written line =
      rw
        (
          both_numbers-itoa,
          to_dash-append m.optional (m.fs_type ∷ m.source ∷ m.supers ∷ []) h.optional_tags,
        )
        refl

  mount_line-written :
      (target line : String)
      → mount_line target line (words_of m)
        ≡ ok (if same_text m.point target then some (info_of m) else none)
  unfolding target_line
  mount_line-written target line =
      mount_line-tail target line (itoa m.id) (itoa m.parent) m.major_minor m.root m.point m.options
        (tail_of m) (length-tail m.optional "-" m.fs_type m.source m.supers)
      ∙ ground (arith, read_mount-written line)

  Lacks-line_of : Lacks b'\n' (line_of m)
  unfolding line_of
  Lacks-line_of = Lacks-join (words_of m) words-IsWord

  line_of-ne-nil : same_text (line_of m) "" ≡ false
  unfolding line_of join
  line_of-ne-nil =
      apart (append-ne-nil (itoa m.id) _ (IsWord-ne-nil (itoa m.id) (itoa-IsWord m.id)))

mount_lines-written :
    (target : String) (m : Mount) (lines : List String)
    → IsWritten m
    → mount_lines target (line_of m ∷ lines)
      ≡ (if same_text m.point target then ok (some (info_of m)) else mount_lines target lines)
unfolding mount_lines
mount_lines-written target m lines w = ground (
  arith,
  line_of-ne-nil m w,
  ap (mount_line target (line_of m)) (fields-line_of m w),
  mount_line-written m w target (line_of m),
)

mount_lines-table_of :
    (target : String) (mounts : List Mount)
    → All IsWritten mounts
    → mount_lines target (split b'\n' (table_of mounts)) ≡ ok (first_on target mounts)
unfolding table_of mount_lines split
mount_lines-table_of target [] h = refl
mount_lines-table_of target (m ∷ mounts) (w, h) =
    rw (cons-append, nil-append)
      (ap (mount_lines target)
          (split-append b'\n' "\n" (line_of m) (table_of mounts) (Lacks-line_of m w) refl)
        ∙ mount_lines-written target m (split b'\n' (table_of mounts)) w
        ∙ ground (arith, mount_lines-table_of target mounts h))

-- Reading the table that the kernel writes for a list of mounts gives the first mount on the target
-- with its own fields, or nothing if none is on it, when the numbers fit a signed 64-bit integer,
-- no field is empty or holds white space, and no optional field is a dash.
pub mount_info_in-table_of :
    (target : String) (mounts : List Mount)
    → All IsWritten mounts
    → mount_info_in (table_of mounts) target ≡ ok (first_on target mounts)
unfolding mount_info_in
mount_info_in-table_of target mounts h = mount_lines-table_of target mounts h
