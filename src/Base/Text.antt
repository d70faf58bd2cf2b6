-- ===== src/Base/Text.antt =====
-- The parts of Go's `strings` that the driver calls, over native strings.
use Prim.Native.Char.{Char, code}
use Prim.Native.String.{String, [], ◌∷◌, ◌++◌ as ◌<>◌}
use Prim.Native.Nat.{ℕ, ◌+◌}
use mathlib.Core.Path.{◌≡◌, refl}
use mathlib.Core.Logic.{◌≢◌, inl, inr}
use mathlib.Core.Bool.{Bool, true, false, not, ◌&&◌, ◌||◌}
use mathlib.Core.Option.{Option, none, some}
use mathlib.Core.List.{List}
use native.Mathlib.Omega.{arith}
use text.Mathlib.Text.{◌==◌ as str_eq}
use text.Mathlib.TextEquality.{eq_iff}
use text.Mathlib.TextLemmas.{nil-append, cons-append}
use scaleway_csi.Base.Tests.{leb, ◌==◌, if◌then◌else◌, Bool-cases}

abbrev pub same_text : String → String → Bool
same_text s t = str_eq s t

-- Texts that the test tells apart differ.
pub differ : {s t : String} → same_text s t ≡ false → s ≢ t
differ {s} {t} e same = ground (arith, eq_iff s t)

-- A character put in front of the first part.
abbrev pub onto_first : Char → List String → List String
onto_first c List.[] = List.◌∷◌ (c ∷ []) List.[]
onto_first c (List.◌∷◌ p ps) = List.◌∷◌ (c ∷ p) ps

-- `strings.Split(s, sep)` for a separator of one character, given by its code point.
unfoldable pub split : ℕ → String → List String
split sep [] = List.◌∷◌ "" List.[]
split sep (c ∷ s) =
    let rest = split sep s in if code c == sep then List.◌∷◌ "" rest else onto_first c rest

-- No character of the text has the code point.
abbrev pub Lacks : ℕ → String → Type 0
Lacks sep [] = Unit
Lacks sep (c ∷ s) = (code c ≢ sep) × Lacks sep s

-- `unicode.IsSpace`
abbrev pub is_space : ℕ → Bool
is_space c =
    (leb 9 c && leb c 13)
    || c == 32
    || c == 0x85
    || c == 0xa0
    || c == 0x1680
    || (leb 0x2000 c && leb c 0x200a)
    || c == 0x2028
    || c == 0x2029
    || c == 0x202f
    || c == 0x205f
    || c == 0x3000

abbrev pub begins_field : String → Bool
begins_field [] = false
begins_field (c ∷ s) = not (is_space (code c))

abbrev pub open_field : Bool → Char → List String → List String
open_field true c parts = onto_first c parts
open_field false c parts = List.◌∷◌ (c ∷ []) parts

-- `strings.Fields(s)`
unfoldable pub fields : String → List String
fields [] = List.[]
fields (c ∷ s) =
    let rest = fields s in if is_space (code c) then rest else open_field (begins_field s) c rest

-- `strings.HasSuffix(s, t)`
unfoldable pub has_suffix : String → String → Bool
has_suffix [] t = same_text [] t
has_suffix (c ∷ s) t = same_text (c ∷ s) t || has_suffix s t

-- `strings.Join(parts, sep)`
unfoldable pub join : List String → String → String
join List.[] sep = ""
join (List.◌∷◌ p List.[]) sep = p
join (List.◌∷◌ p (List.◌∷◌ q ps)) sep = p <> (sep <> join (List.◌∷◌ q ps) sep)

abbrev pub to_lower : ℕ → ℕ
to_lower c = if leb b'A' c && leb c b'Z' then c + 32 else c

-- `strings.ToLower(key) == word`. The words compared with hold only letters that no character
-- outside ASCII has as its lower case.
unfoldable pub lowered_is : String → String → Bool
lowered_is [] [] = true
lowered_is [] (d ∷ t) = false
lowered_is (c ∷ s) [] = false
lowered_is (c ∷ s) (d ∷ t) = to_lower (code c) == code d && lowered_is s t

-- `strconv.ParseBool(s)`; the error is `none`.
unfoldable pub parse_bool : String → Option Bool
parse_bool s =
    if same_text s "1"
      || same_text s "t"
      || same_text s "T"
      || same_text s "true"
      || same_text s "TRUE"
      || same_text s "True"
    then some true
    else if same_text s "0"
        || same_text s "f"
        || same_text s "F"
        || same_text s "false"
        || same_text s "FALSE"
        || same_text s "False"
    then some false
    else none

-- `strconv.FormatBool(b)`
abbrev pub format_bool : Bool → String
format_bool true = "true"
format_bool false = "false"

pub parse_bool-format_bool : (b : Bool) → parse_bool (format_bool b) ≡ some b
unfolding parse_bool
parse_bool-format_bool true = refl
parse_bool-format_bool false = refl

onto_first-ne-nil : (c : Char) (ps : List String) → onto_first c ps ≢ List.[]
onto_first-ne-nil c List.[] = cc
onto_first-ne-nil c (List.◌∷◌ p ps) = cc

pub split-ne-nil : (sep : ℕ) (s : String) → split sep s ≢ List.[]
unfolding split
split-ne-nil sep [] = cc
split-ne-nil sep (c ∷ s) = elim (Bool-cases (code c == sep)) [
  | inl e ↦ rw e (cc)
  | inr e ↦ rw e (onto_first-ne-nil c (split sep s))
]

-- Splitting a text with no separator gives the text.
pub split_of_Lacks : (sep : ℕ) (s : String) → Lacks sep s → split sep s ≡ List.◌∷◌ s List.[]
unfolding split
split_of_Lacks sep [] h = refl
split_of_Lacks sep (c ∷ s) (ne, h) = ground (arith, split_of_Lacks sep s h)

-- A text before the first separator is the first part.
pub split-append :
    (sep : ℕ) (d : Char) (s t : String)
    → Lacks sep s
    → code d ≡ sep
    → split sep (s <> (d ∷ t)) ≡ List.◌∷◌ s (split sep t)
unfolding split
split-append sep d [] t h e = rw nil-append (ground arith)
split-append sep d (c ∷ s) t (ne, h) e = rw cons-append (ground (arith, split-append sep d s t h e))
