-- ===== src/Base/Outcomes.antt =====
-- Go's `(value, error)` pairs, gRPC statuses and panics, and calls that change a state.
use Prim.Native.String.{String}
use mathlib.Core.Path.{◌≡◌, refl, sym, ap, ◌∙◌}
use mathlib.Core.Logic.{◌⊎◌, inl, inr}
use mathlib.Core.Bool.{Bool, true, false}
use mathlib.Core.Option.{Option, none, some}

pub data Result {ℓ κ} (E : Type ℓ) (A : Type κ) : Type (ℓ ⊔ κ) where
  ok : A → Result E A
  err : E → Result E A

-- The status codes of google.golang.org/grpc/codes that the driver returns.
pub data Code : Type 0 where
  invalid_argument not_found already_exists failed_precondition out_of_range resource_exhausted :
      Code
  internal aborted unimplemented unknown : Code

-- How a handler ends when it has no response: a gRPC status, or a panic.
pub data Failure : Type 0 where
  status : Code → String → Failure
  panic : String → Failure

-- A call that may fail with an error of the type `E` and that changes the state `W` of what it
-- talks to.
abbrev pub Call {ℓ κ} : Type ℓ → Type 0 → Type κ → Type (ℓ ⊔ κ)
Call W E A = W → Result E A × W

-- A handler.
abbrev pub Action {ℓ κ} : Type ℓ → Type κ → Type (ℓ ⊔ κ)
Action W A = Call W Failure A

infixl 5 ◌>>=◌ ◌>>◌
abbrev pub ◌>>=◌ {ℓ κ μ} :
    {W : Type ℓ} {E : Type 0} {A : Type κ} {B : Type μ} → Call W E A → (A → Call W E B) → Call W E B
◌>>=◌ m k w = elim ((m w).0) [ ok a ↦ k a ((m w).1) | err f ↦ (err f, (m w).1) ]

abbrev pub ◌>>◌ {ℓ κ μ} :
    {W : Type ℓ} {E : Type 0} {A : Type κ} {B : Type μ} → Call W E A → Call W E B → Call W E B
m >> k = m >>= λ _. k

module _ {ℓ κ} {W : Type ℓ} {E : Type 0} {A : Type κ} where
  abbrev pub return : A → Call W E A
  return a w = (ok a, w)

  abbrev pub fail : E → Call W E A
  fail e w = (err e, w)

  -- A result that needs no state.
  abbrev pub lift : Result E A → Call W E A
  lift r w = (r, w)

  abbrev pub require : Option A → E → Call W E A
  require none e w = (err e, w)
  require (some a) e w = (ok a, w)

-- `if test { return nil, err }`
abbrev pub refuse_if {ℓ} : {W : Type ℓ} {E : Type 0} → Bool → E → Call W E (Unit {0})
refuse_if true e w = (err e, w)
refuse_if false e w = (ok tt, w)

-- A result with its error renamed, beside the state.
module _ {ℓ κ} {W : Type ℓ} {E F : Type 0} {A : Type κ} (h : E → F) where
  abbrev pub renamed : Result E A → W → Result F A × W
  renamed (ok a) w = (ok a, w)
  renamed (err e) w = (err (h e), w)

module _ {ℓ κ} {W : Type ℓ} {E F : Type 0} {A : Type κ} where
  -- `if err != nil { return nil, h(err) }`
  abbrev pub or_fail : Call W E A → (E → F) → Call W F A
  or_fail m h w = renamed h (m w).0 (m w).1

  -- The same for what needs no state.
  abbrev pub checked : Result E A → (E → F) → Call W F A
  checked (ok a) h w = (ok a, w)
  checked (err e) h w = (err (h e), w)

-- A call whose error may also end in a response.
abbrev pub attempt {ℓ κ μ} :
    {W : Type ℓ} {E F : Type 0} {A : Type κ} {B : Type μ}
    → Call W E A
    → (E → Call W F B)
    → (A → Call W F B)
    → Call W F B
attempt m h k w = elim ((m w).0) [ ok a ↦ k a ((m w).1) | err e ↦ h e ((m w).1) ]

pub ok-injective {ℓ κ} :
    {E : Type ℓ} {A : Type κ} {a b : A} → ◌≡◌ {A = Result E A} (ok a) (ok b) → a ≡ b
ok-injective e = cc

-- Inversion of a chain of two results that ends well.
pub then-eq-ok {ℓ κ μ} :
    {E : Type ℓ} {A : Type κ} {B : Type μ} (r : Result E A) (k : A → Result E B) {b : B}
    → elim r [ ok a ↦ k a | err f ↦ err f ] ≡ ok b
    → (a : A) × (r ≡ ok a) × (k a ≡ ok b)
then-eq-ok (ok a) k e = (a, refl, e)
then-eq-ok (err f) k e = cc

pub Result-cases {ℓ κ} :
    {E : Type ℓ} {A : Type κ} (r : Result E A) → ((a : A) × (r ≡ ok a)) ⊎ ((e : E) × (r ≡ err e))
Result-cases (ok a) = inl (a, refl)
Result-cases (err e) = inr (e, refl)

-- A chain whose first call ends well goes on with the second, and one whose first call fails ends.
module _ {ℓ κ μ} {W : Type ℓ} {E : Type 0} {A : Type κ} {B : Type μ} (m : Call W E A)
    (k : A → Call W E B) {w w' : W} where
  pub bind_ok : {a : A} → m w ≡ (ok a, w') → (m >>= k) w ≡ k a w'
  bind_ok e = λ i. elim ((e i).0) [ ok a ↦ k a ((e i).1) | err f ↦ (err f, (e i).1) ]

  pub bind_err : {e : E} → m w ≡ (err e, w') → (m >>= k) w ≡ (err e, w')
  bind_err e = λ i. elim ((e i).0) [ ok a ↦ k a ((e i).1) | err f ↦ (err f, (e i).1) ]

module _ {ℓ κ μ} {W : Type ℓ} {E F : Type 0} {A : Type κ} {B : Type μ} (m : Call W E A)
    (h : E → Call W F B) (k : A → Call W F B) {w w' : W} where
  pub attempt_ok : {a : A} → m w ≡ (ok a, w') → attempt m h k w ≡ k a w'
  attempt_ok e = λ i. elim ((e i).0) [ ok a ↦ k a ((e i).1) | err f ↦ h f ((e i).1) ]

  pub attempt_err : {f : E} → m w ≡ (err f, w') → attempt m h k w ≡ h f w'
  attempt_err e = λ i. elim ((e i).0) [ ok a ↦ k a ((e i).1) | err f ↦ h f ((e i).1) ]

-- An answer and the state after it, put together.
pub answers {ℓ κ} :
    {W : Type ℓ} {E : Type 0} {A : Type κ} (m : Call W E A) {w w' : W} {r : Result E A}
    → (m w).0 ≡ r
    → (m w).1 ≡ w'
    → m w ≡ (r, w')
answers m p q = λ i. (p i, q i)

module _ {ℓ κ} {W : Type ℓ} {E F : Type 0} {A : Type κ} (h : E → F) where
  renamed_state : (r : Result E A) (w : W) → (renamed h r w).1 ≡ w
  renamed_state (ok a) w = refl
  renamed_state (err e) w = refl

  renamed-eq-ok : (r : Result E A) (w : W) {a : A} → (renamed h r w).0 ≡ ok a → r ≡ ok a
  renamed-eq-ok (ok b) w e = cc
  renamed-eq-ok (err x) w e = cc

-- `or_fail` renames the error alone.
module _ {ℓ κ} {W : Type ℓ} {E F : Type 0} {A : Type κ} (m : Call W E A) (h : E → F) (w : W) where
  pub or_fail_state : (or_fail m h w).1 ≡ (m w).1
  or_fail_state = renamed_state h (m w).0 (m w).1

  pub or_fail-eq-ok : {a : A} → (or_fail m h w).0 ≡ ok a → (m w).0 ≡ ok a
  or_fail-eq-ok e = renamed-eq-ok h (m w).0 (m w).1 e

-- A chain that ends well, taken apart.
module _ {ℓ κ μ} {W : Type ℓ} {E : Type 0} {A : Type κ} {B : Type μ} (m : Call W E A)
    (k : A → Call W E B) (w : W) where
  pub bind-eq-ok :
      {b : B}
      → ((m >>= k) w).0 ≡ ok b
      → (a : A) × ((m w).0 ≡ ok a) × ((k a (m w).1).0 ≡ ok b) × ((m >>= k) w ≡ k a (m w).1)
  bind-eq-ok {b} e = elim (Result-cases (m w).0) [
    | inl (a, done) ↦
        let same = bind_ok m k (answers m done refl) in
        (a, done, ap (λ r. r.0) (sym same) ∙ e, same)
    | inr (x, failed) ↦ cc (ap (λ r. r.0) (sym (bind_err m k (answers m failed refl))) ∙ e)
  ]
