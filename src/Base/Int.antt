-- ===== src/Base/Int.antt =====
-- Go's signed and unsigned 64-bit integers: values in ℤ and ℕ, conversions with their wrap-around.
use Prim.Native.Nat.{ℕ, suc, ◌+◌, ◌-◌, ◌%◌, ◌^◌, ◌≤◌, ◌<◌}
use mathlib.Core.Path.{◌≡◌}
use mathlib.Core.Logic.{◌↔◌}
use mathlib.Core.Bool.{Bool, true}
use native.Mathlib.Omega.{arith}
use scaleway_csi.Base.Tests.{ltb, ◌==◌, if◌then◌else◌}

-- `negsuc n` is -(n + 1).
pub data ℤ : Type 0 where
  pos : ℕ → ℤ
  negsuc : ℕ → ℤ

abbrev pub pos_part : ℤ → ℕ
pos_part (pos n) = n
pos_part (negsuc n) = 0

abbrev pub neg_part : ℤ → ℕ
neg_part (pos n) = 0
neg_part (negsuc n) = suc n

infix 50 ◌≤ℤ◌ ◌<ℤ◌
abbrev pub ◌≤ℤ◌ : ℤ → ℤ → Type 0
a ≤ℤ b = pos_part a + neg_part b ≤ pos_part b + neg_part a

abbrev pub ◌<ℤ◌ : ℤ → ℤ → Type 0
a <ℤ b = pos_part a + neg_part b < pos_part b + neg_part a

-- Go's `<` and `==` on `int64`.
abbrev pub less : ℤ → ℤ → Bool
less a b = ltb (pos_part a + neg_part b) (pos_part b + neg_part a)

abbrev pub same : ℤ → ℤ → Bool
same a b = pos_part a + neg_part b == pos_part b + neg_part a

pub less_iff : (a b : ℤ) → (less a b ≡ true) ↔ (a <ℤ b)
less_iff a b = ground arith

pub same→eq : (a b : ℤ) → same a b ≡ true → a ≡ b
same→eq (pos a) (pos b) h = ground arith
same→eq (pos a) (negsuc b) h = ground arith
same→eq (negsuc a) (pos b) h = ground arith
same→eq (negsuc a) (negsuc b) h = ground arith

-- `int64(u)` of a `uint64`.
unfoldable pub to_int64 : ℕ → ℤ
to_int64 u =
    if ltb (u % 2 ^ 64) (2 ^ 63) then pos (u % 2 ^ 64) else negsuc (2 ^ 64 - 1 - u % 2 ^ 64)

-- `uint64(i)` of an `int64`.
unfoldable pub to_uint64 : ℤ → ℕ
to_uint64 (pos n) = n % 2 ^ 64
to_uint64 (negsuc n) = 2 ^ 64 - 1 - n % 2 ^ 64

-- m - n in ℤ.
abbrev pub sub_ℕ : ℕ → ℕ → ℤ
sub_ℕ m n = if ltb m n then negsuc (n - m - 1) else pos (m - n)

-- a - b and a + b of two `int64` values: the result in ℤ, wrapped around.
unfoldable pub sub64 : ℤ → ℤ → ℤ
unfolding to_int64 to_uint64
sub64 a b = to_int64 (to_uint64 (sub_ℕ (pos_part a + neg_part b) (pos_part b + neg_part a)))

unfoldable pub add64 : ℤ → ℤ → ℤ
unfolding to_int64 to_uint64
add64 a b = to_int64 (to_uint64 (sub_ℕ (pos_part a + pos_part b) (neg_part a + neg_part b)))

-- A size that fits `int64` keeps its value, and is read back as it was.
pub to_int64_small : (u : ℕ) → u < 2 ^ 63 → to_int64 u ≡ pos u
unfolding to_int64
to_int64_small u h = ground arith

pub to_uint64-to_int64 : (u : ℕ) → u < 2 ^ 64 → to_uint64 (to_int64 u) ≡ u
unfolding to_int64 to_uint64
to_uint64-to_int64 u h = ground arith

pub sub64_small : (a b : ℕ) → a < 2 ^ 63 → b < 2 ^ 63 → sub64 (pos a) (pos b) ≡ sub_ℕ a b
unfolding sub64
sub64_small a b h k = ground arith

pub add64_small : (a b : ℕ) → a + b < 2 ^ 63 → add64 (pos a) (pos b) ≡ pos (a + b)
unfolding add64
add64_small a b h = ground arith
