-- ===== src/Base/Decimal.antt =====
-- Go's `strconv.Atoi` and `strconv.Itoa` on 64-bit `int`.
use Prim.Native.Char.{Char, code}
use Prim.Native.String.{String, [], ◌∷◌, ◌++◌ as ◌<>◌}
use Prim.Native.Nat.{ℕ, zero, suc, ◌+◌, ◌-◌, ◌*◌, ◌/◌, ◌%◌, ◌^◌, ◌≤◌, ◌<◌}
use mathlib.Core.Path.{◌≡◌, refl, ◌∙◌, ap, subst}
use mathlib.Core.Bool.{◌&&◌, ◌||◌}
use mathlib.Core.Logic.{inl, inr, ◌≢◌}
use mathlib.Core.Option.{Option, none, some}
use native.Mathlib.Omega.{arith}
use scaleway_csi.Base.Tests.{ltb, leb, ◌==◌, if◌then◌else◌, Bool-cases}
use scaleway_csi.Base.Text.{is_space}
use scaleway_csi.Base.Words.{IsSolid, IsWord}
use mathlib.Core.Bool.{false}
use scaleway_csi.Base.Int.{ℤ, pos, negsuc}

-- The value of a run of decimal digits behind those read so far.
digits_value : ℕ → String → Option ℕ
digits_value acc [] = some acc
digits_value acc (c ∷ s) =
    let rest = digits_value (acc * 10 + (code c - b'0')) s in
    if leb b'0' (code c) && leb (code c) b'9' then rest else none

unsigned : String → Option ℕ
unsigned [] = none
unsigned (c ∷ s) = digits_value 0 (c ∷ s)

-- The range check, with the sign.
abbrev positive : Option ℕ → Option ℤ
positive none = none
positive (some n) = if ltb n (2 ^ 63) then some (pos n) else none

abbrev negative : Option ℕ → Option ℤ
negative none = none
negative (some zero) = some (pos 0)
negative (some (suc n)) = if ltb n (2 ^ 63) then some (negsuc n) else none

-- The digits behind the sign.
unsigned_part : String → Option ℕ
unfolding unsigned digits_value
unsigned_part [] = none
unsigned_part (c ∷ s) = if code c == b'-' || code c == b'+' then unsigned s else unsigned (c ∷ s)

unfoldable pub atoi : String → Option ℤ
unfolding digits_value unsigned
atoi [] = none
atoi (c ∷ s) =
    if code c == b'-'
    then negative (unsigned s)
    else if code c == b'+'
    then positive (unsigned s)
    else positive (unsigned (c ∷ s))

-- The text of `strconv.Atoi`'s error, for a text that Go quotes as it is.
abbrev atoi_reason : Option ℕ → String
atoi_reason none = "invalid syntax"
atoi_reason (some _) = "value out of range"

unfoldable pub atoi_text : String → String
unfolding unsigned_part digits_value unsigned
atoi_text s = "strconv.Atoi: parsing \"" <> (s <> ("\": " <> atoi_reason (unsigned_part s)))

digit : ℕ → Char
digit zero = "0"
digit (suc zero) = "1"
digit (suc (suc zero)) = "2"
digit (suc (suc (suc zero))) = "3"
digit (suc (suc (suc (suc zero)))) = "4"
digit (suc (suc (suc (suc (suc zero))))) = "5"
digit (suc (suc (suc (suc (suc (suc zero)))))) = "6"
digit (suc (suc (suc (suc (suc (suc (suc zero))))))) = "7"
digit (suc (suc (suc (suc (suc (suc (suc (suc zero)))))))) = "8"
digit _ = "9"

-- The digits of `n` before a text, on fuel.
itoa_from : ℕ → ℕ → String → String
itoa_from zero n acc = acc
itoa_from (suc f) n acc =
    let more = itoa_from f (n / 10) (digit (n % 10) ∷ acc) in
    if ltb n 10 then digit n ∷ acc else more

unfoldable pub itoa : ℕ → String
unfolding itoa_from digit
itoa n = itoa_from (suc n) n []

-- `strconv.Itoa` of an `int`.
unfoldable pub itoa_int : ℤ → String
itoa_int (pos n) = itoa n
itoa_int (negsuc n) = "-" ∷ itoa (suc n)

code-digit : (d : ℕ) → d < 10 → code (digit d) ≡ b'0' + d
unfolding digit
code-digit zero h = refl
code-digit (suc zero) h = refl
code-digit (suc (suc zero)) h = refl
code-digit (suc (suc (suc zero))) h = refl
code-digit (suc (suc (suc (suc zero)))) h = refl
code-digit (suc (suc (suc (suc (suc zero))))) h = refl
code-digit (suc (suc (suc (suc (suc (suc zero)))))) h = refl
code-digit (suc (suc (suc (suc (suc (suc (suc zero))))))) h = refl
code-digit (suc (suc (suc (suc (suc (suc (suc (suc zero)))))))) h = refl
code-digit (suc (suc (suc (suc (suc (suc (suc (suc (suc zero))))))))) h = refl
code-digit (suc (suc (suc (suc (suc (suc (suc (suc (suc (suc d)))))))))) h = absurd (omega arith)

digits_value-digit :
    (acc d : ℕ) (s : String)
    → d < 10
    → digits_value acc (digit d ∷ s) ≡ digits_value (acc * 10 + d) s
unfolding digits_value
digits_value-digit acc d s h = ground (arith, code-digit d h)

digits_value-itoa_from :
    (f n : ℕ) (acc : String) → n < f → digits_value 0 (itoa_from f n acc) ≡ digits_value n acc
unfolding itoa_from
digits_value-itoa_from zero n acc h = elim h [ ]
digits_value-itoa_from (suc f) n acc h = elim (Bool-cases (ltb n 10)) [
  | inl small ↦
      rw small
        (digits_value-digit 0 n acc (ground arith) ∙ ap (λ k. digits_value k acc) (omega arith))
  | inr large ↦ rw large (
      digits_value-itoa_from f (n / 10) (digit (n % 10) ∷ acc) (ground arith)
      ∙ digits_value-digit (n / 10) (n % 10) acc (omega arith)
      ∙ ap (λ k. digits_value k acc) (omega arith))
]

-- The text begins with a digit, so it has no sign.
abbrev BeginsDigit : String → Type 0
BeginsDigit [] = ⊥
BeginsDigit (c ∷ s) = (b'0' ≤ code c) × (code c ≤ b'9')

BeginsDigit-digit : (d : ℕ) (acc : String) → d < 10 → BeginsDigit (digit d ∷ acc)
BeginsDigit-digit d acc h = (omega (arith, code-digit d h), omega (arith, code-digit d h))

itoa_from-BeginsDigit : (f n : ℕ) (acc : String) → n < f → BeginsDigit (itoa_from f n acc)
unfolding itoa_from
itoa_from-BeginsDigit zero n acc h = elim h [ ]
itoa_from-BeginsDigit (suc f) n acc h = elim (Bool-cases (ltb n 10)) [
  | inl small ↦ rw small (BeginsDigit-digit n acc (ground arith))
  | inr large ↦ rw large (itoa_from-BeginsDigit f (n / 10) (digit (n % 10) ∷ acc) (ground arith))
]

atoi_of_BeginsDigit :
    (s : String) (n : ℕ)
    → BeginsDigit s
    → digits_value 0 s ≡ some n
    → n < 2 ^ 63
    → atoi s ≡ some (pos n)
unfolding atoi digits_value
atoi_of_BeginsDigit (c ∷ s) n d e h = ground arith
atoi_of_BeginsDigit [] n d e h = absurd d

-- A number of `int`'s range is read back from its decimal text.
pub atoi-itoa : (n : ℕ) → n < 2 ^ 63 → atoi (itoa n) ≡ some (pos n)
unfolding itoa digits_value
atoi-itoa n h =
    atoi_of_BeginsDigit (itoa_from (suc n) n []) n
      (itoa_from-BeginsDigit (suc n) n [] (omega arith))
      (digits_value-itoa_from (suc n) n [] (omega arith)) h

-- No number is written as the empty text.
pub itoa-ne-nil : (n : ℕ) → itoa n ≢ ""
unfolding itoa
itoa-ne-nil n e = subst BeginsDigit e (itoa_from-BeginsDigit (suc n) n [] (omega arith))

solid_digit : (d : ℕ) → d < 10 → is_space (code (digit d)) ≡ false
solid_digit d h = ground (arith, code-digit d h)

itoa_from-IsWord : (f n : ℕ) (acc : String) → n < f → IsSolid acc → IsWord (itoa_from f n acc)
unfolding itoa_from
itoa_from-IsWord zero n acc h k = elim h [ ]
itoa_from-IsWord (suc f) n acc h k = elim (Bool-cases (ltb n 10)) [
  | inl small ↦ rw small (solid_digit n (ground arith), k)
  | inr large ↦ rw large (
      itoa_from-IsWord f (n / 10) (digit (n % 10) ∷ acc) (ground arith)
        (solid_digit (n % 10) (omega arith), k))
]

-- A number is written as a word.
pub itoa-IsWord : (n : ℕ) → IsWord (itoa n)
unfolding itoa
itoa-IsWord n = itoa_from-IsWord (suc n) n [] (omega arith) tt
