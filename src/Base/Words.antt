-- ===== src/Base/Words.antt =====
-- Words, which `strings.Fields` tells apart: texts that are not empty and hold no white space.
use Prim.Native.Char.{Char, code}
use Prim.Native.String.{String, [], ◌∷◌, ◌++◌ as ◌<>◌}
use Prim.Native.Nat.{ℕ}
use mathlib.Core.Path.{refl, ◌≡◌, ap, ◌∙◌}
use mathlib.Core.Logic.{◌≢◌, inl, inr}
use mathlib.Core.Bool.{true, false}
use mathlib.Core.List.{List}
use native.Mathlib.Omega.{arith}
use text.Mathlib.TextEquality.{eq_iff}
use text.Mathlib.TextLemmas.{nil-append, cons-append}
use scaleway_csi.Base.Tests.{◌==◌, Bool-cases}
use scaleway_csi.Base.Lists.{All}
use scaleway_csi.Base.Text.{same_text, is_space, fields, join, Lacks, split, onto_first}

-- No character is white space.
abbrev pub IsSolid : String → Type 0
IsSolid [] = Unit
IsSolid (c ∷ s) = (is_space (code c) ≡ false) × IsSolid s

abbrev pub IsWord : String → Type 0
IsWord [] = ⊥
IsWord (c ∷ s) = (is_space (code c) ≡ false) × IsSolid s

pub IsWord-IsSolid : (s : String) → IsWord s → IsSolid s
IsWord-IsSolid [] h = absurd h
IsWord-IsSolid (c ∷ s) h = h

pub IsWord-ne-nil : (s : String) → IsWord s → s ≢ ""
IsWord-ne-nil [] h = absurd h
IsWord-ne-nil (c ∷ s) h = cc

-- A text with no white space lacks each character that is white space.
pub IsSolid-Lacks : (sep : ℕ) → is_space sep ≡ true → (s : String) → IsSolid s → Lacks sep s
IsSolid-Lacks sep space [] h = tt
IsSolid-Lacks sep space (c ∷ s) (solid, h) =
    (λ e. cc (ap is_space e, space, solid), IsSolid-Lacks sep space s h)

pub Lacks-append : (sep : ℕ) (s t : String) → Lacks sep s → Lacks sep t → Lacks sep (s <> t)
Lacks-append sep [] t h k = rw nil-append k
Lacks-append sep (c ∷ s) t (ne, h) k = rw cons-append (ne, Lacks-append sep s t h k)

fields_nil : fields "" ≡ List.[]
unfolding fields
fields_nil = refl

fields_of_IsWord : (s : String) → IsWord s → fields s ≡ List.◌∷◌ s List.[]
unfolding fields
fields_of_IsWord [] h = absurd h
fields_of_IsWord (c ∷ []) h = ground arith
fields_of_IsWord (c ∷ d ∷ s) (h, k) = ground (arith, fields_of_IsWord (d ∷ s) k)

-- A word before a space is the first field.
fields-append : (s t : String) → IsWord s → fields (s <> (" " ∷ t)) ≡ List.◌∷◌ s (fields t)
unfolding fields
fields-append [] t h = absurd h
fields-append (c ∷ []) t h = rw (cons-append, nil-append) (ground arith)
fields-append (c ∷ d ∷ s) t (h, k) =
    rw cons-append (ground (arith, fields-append (d ∷ s) t k, cons-append d s (" " ∷ t)))

-- Words joined by spaces are the fields of what they are joined to.
pub fields-join : (words : List String) → All IsWord words → fields (join words " ") ≡ words
unfolding join
fields-join List.[] h = fields_nil
fields-join (List.◌∷◌ w List.[]) (h, _) = fields_of_IsWord w h
fields-join (List.◌∷◌ w (List.◌∷◌ v ws)) (h, k) =
    rw (cons-append, nil-append)
      (fields-append w (join (List.◌∷◌ v ws) " ") h
        ∙ ap (List.◌∷◌ w) (fields-join (List.◌∷◌ v ws) k))

-- Texts that differ are told apart by the test.
pub apart : {s t : String} → s ≢ t → same_text s t ≡ false
apart {s} {t} ne = ground (arith, eq_iff s t)

pub append-ne-nil : (s t : String) → s ≢ "" → s <> t ≢ ""
append-ne-nil [] t h = absurd (h refl)
append-ne-nil (c ∷ s) t h = rw cons-append (cc)

pub append-IsSolid : (s t : String) → IsSolid s → IsSolid t → IsSolid (s <> t)
append-IsSolid [] t h k = rw nil-append k
append-IsSolid (c ∷ s) t (solid, h) k = rw cons-append (solid, append-IsSolid s t h k)

onto_first-All :
    (c : Char) (ps : List String)
    → is_space (code c) ≡ false
    → All IsSolid ps
    → All IsSolid (onto_first c ps)
onto_first-All c List.[] solid h = ((solid, tt), tt)
onto_first-All c (List.◌∷◌ p ps) solid (k, h) = ((solid, k), h)

-- The parts of a text with no white space have none.
pub split-All : (sep : ℕ) (s : String) → IsSolid s → All IsSolid (split sep s)
unfolding split
split-All sep [] h = (tt, tt)
split-All sep (c ∷ s) (solid, h) = elim (Bool-cases (code c == sep)) [
  | inl here ↦ rw here (tt, split-All sep s h)
  | inr other ↦ rw other (onto_first-All c (split sep s) solid (split-All sep s h))
]

pub join-IsSolid :
    (ps : List String) (sep : String) → IsSolid sep → All IsSolid ps → IsSolid (join ps sep)
unfolding join
join-IsSolid List.[] sep k h = tt
join-IsSolid (List.◌∷◌ p List.[]) sep k (h, _) = h
join-IsSolid (List.◌∷◌ p (List.◌∷◌ q ps)) sep k (h, hs) =
    append-IsSolid p (sep <> join (List.◌∷◌ q ps) sep) h
      (append-IsSolid sep (join (List.◌∷◌ q ps) sep) k (join-IsSolid (List.◌∷◌ q ps) sep k hs))
