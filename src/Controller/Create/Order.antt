-- ===== src/Controller/Create/Order.antt =====
-- The order in which the parameters of a creation are read.
use mathlib.Core.List.{Permᴰ}
use scaleway_csi.Base.{
  ℕ, ◌+◌, ◌≤◌, String, ◌≡◌, refl, ap, ◌∙◌, subst, Bool, true, false, inl, inr, some, [], ◌∷◌, arith,
  ok, ok-injective, then-eq-ok, Bool-cases, Option-cases, if◌then◌else◌,
}
use scaleway_csi.Base.Text.{lowered_is, parse_bool}
use scaleway_csi.Base.Table.{Table}
use scaleway_csi.Controller.Create.{
  Settings, Request, read_parameter, read_parameters, check_request, default_settings,
}

-- How many of the keys are a name, but for the case of their letters.
abbrev pub times : String → Table String → ℕ
times name [] = 0
times name ((key, value) ∷ ps) = (if lowered_is key name then 1 else 0) + times name ps

times-Permᴰ : (name : String) {ps qs : Table String} → Permᴰ ps qs → times name ps ≡ times name qs
times-Permᴰ name Permᴰ.nil = refl
times-Permᴰ name (Permᴰ.cons e p) = omega (
  arith,
  ap {B = ℕ} (λ (a : String × String). if lowered_is a.0 name then 1 else 0) e,
  times-Permᴰ name p,
)
times-Permᴰ name (Permᴰ.swap e f) = omega (
  arith,
  ap {B = ℕ} (λ (a : String × String). if lowered_is a.0 name then 1 else 0) e,
  ap {B = ℕ} (λ (a : String × String). if lowered_is a.0 name then 1 else 0) f,
)
times-Permᴰ name (Permᴰ.trans p q) = times-Permᴰ name p ∙ times-Permᴰ name q

-- What one parameter that is read well sets.
data Set (key value : String) (s t : Settings) : Type 0 where
  type_set : lowered_is key "type" ≡ true → record s { volume_type = value } ≡ t → Set key value s t
  encrypted_set :
      (b : Bool)
      → lowered_is key "type" ≡ false
      → lowered_is key "encrypted" ≡ true
      → parse_bool value ≡ some b
      → record s { encrypted = b } ≡ t
      → Set key value s t

read_parameter-Set :
    (key value : String) (s : Settings) {t : Settings}
    → read_parameter (key, value) s ≡ ok t
    → Set key value s t
unfolding read_parameter
read_parameter-Set key value s {t} e = elim (Bool-cases (lowered_is key "type")) [
  | inl kind ↦ type_set kind (ok-injective (rw kind at e))
  | inr other ↦ elim (Bool-cases (lowered_is key "encrypted")) [
    | inr neither ↦ absurd (ground arith)
    | inl kind ↦ elim (Option-cases (parse_bool value)) [
      | inl bad ↦ absurd (ground arith)
      | inr (b, good) ↦ encrypted_set b other kind good (ok-injective (rw (other, kind, good) at e))
    ]
  ]
]

Set-read :
    (key value : String) (s : Settings) {t : Settings}
    → Set key value s t
    → read_parameter (key, value) s ≡ ok t
unfolding read_parameter
Set-read key value s (type_set kind e) = rw kind (ap ok e)
Set-read key value s (encrypted_set b other kind good e) = rw (other, kind, good) (ap ok e)

-- Two parameters of different names may be read in either order.
exchange :
    (key value key' value' : String) (ps : Table String) (s : Settings) {t u : Settings}
    → times "type" ((key, value) ∷ (key', value') ∷ ps) ≤ 1
    → times "encrypted" ((key, value) ∷ (key', value') ∷ ps) ≤ 1
    → Set key value s t
    → Set key' value' t u
    → (r : Settings) × Set key' value' s r × Set key value r u
exchange key value key' value' ps s one one' (type_set k e) (type_set k' e') = absurd (ground arith)
exchange key value key' value' ps s one one' (encrypted_set b o k g e)
      (encrypted_set b' o' k' g' e') =
    absurd (ground arith)
exchange key value key' value' ps s one one' (type_set k e) (encrypted_set b o k' g e') = (
  record s { encrypted = b },
  encrypted_set b o k' g refl,
  type_set k (ap (λ (x : Settings). record x { encrypted = b }) e ∙ e'),
)
exchange key value key' value' ps s one one' (encrypted_set b o k g e) (type_set k' e') = (
  record s { volume_type = value' },
  type_set k' refl,
  encrypted_set b o k g (ap (λ (x : Settings). record x { volume_type = value' }) e ∙ e'),
)

read_parameters-cons :
    (p : String × String) (ps : Table String) (s : Settings) {t u : Settings}
    → read_parameter p s ≡ ok t
    → read_parameters ps t ≡ ok u
    → read_parameters (p ∷ ps) s ≡ ok u
unfolding read_parameters
read_parameters-cons p ps s first rest = ground arith

read_parameters_swap :
    (key value key' value' : String) (ps : Table String) (s : Settings) {t : Settings}
    → times "type" ((key, value) ∷ (key', value') ∷ ps) ≤ 1
    → times "encrypted" ((key, value) ∷ (key', value') ∷ ps) ≤ 1
    → read_parameters ((key, value) ∷ (key', value') ∷ ps) s ≡ ok t
    → read_parameters ((key', value') ∷ (key, value) ∷ ps) s ≡ ok t
unfolding read_parameters
read_parameters_swap key value key' value' ps s one one' e =
    let (s1, first, more) =
      then-eq-ok (read_parameter (key, value) s) (read_parameters ((key', value') ∷ ps)) e in
    let (s2, second, rest) =
      then-eq-ok (read_parameter (key', value') s1) (read_parameters ps) more in
    let (r, a, b) =
      exchange key value key' value' ps s one one' (read_parameter-Set key value s first)
        (read_parameter-Set key' value' s1 second) in
    read_parameters-cons (key', value') ((key, value) ∷ ps) s (Set-read key' value' s a)
      (read_parameters-cons (key, value) ps r (Set-read key value r b) rest)

-- If no two keys are the same but for the case of their letters, the order matters not.
read_parameters_permuted :
    {ps qs : Table String} (s : Settings) {t : Settings}
    → Permᴰ ps qs
    → times "type" ps ≤ 1
    → times "encrypted" ps ≤ 1
    → read_parameters ps s ≡ ok t
    → read_parameters qs s ≡ ok t
unfolding read_parameters
read_parameters_permuted s Permᴰ.nil one one' e = e
read_parameters_permuted s {t} (Permᴰ.cons {a} {b} {l₁} {l₂} q p) one one' e =
    let (s1, first, rest) = then-eq-ok (read_parameter a s) (read_parameters l₁) e in
    subst (λ x. read_parameters (x ∷ l₂) s ≡ ok t) q
      (read_parameters-cons a l₂ s first
        (read_parameters_permuted s1 p (omega arith) (omega arith) rest))
read_parameters_permuted s {t} (Permᴰ.swap {a} {b} {a'} {b'} {l} q r) one one' e =
    subst (λ x. read_parameters (x ∷ b' ∷ l) s ≡ ok t) r
      (subst (λ x. read_parameters (b ∷ x ∷ l) s ≡ ok t) q
        (read_parameters_swap (a.0) (a.1) (b.0) (b.1) l s one one' e))
read_parameters_permuted s (Permᴰ.trans p q) one one' e =
    read_parameters_permuted s q (subst (λ n. n ≤ 1) (times-Permᴰ "type" p) one)
      (subst (λ n. n ≤ 1) (times-Permᴰ "encrypted" p) one')
      (read_parameters_permuted s p one one' e)

-- For parameters of which at most one key is the type and at most one asks for encryption, but for
-- the case of their letters: a creation whose checks pass with its parameters visited in one order
-- passes them with the same settings in every order.
pub check_request_order :
    (req : Request) (ps : Table String) {t : Settings}
    → Permᴰ req.parameters ps
    → times "type" req.parameters ≤ 1
    → times "encrypted" req.parameters ≤ 1
    → check_request req ≡ ok t
    → check_request (record req { parameters = ps }) ≡ ok t
unfolding check_request
check_request_order req ps {t} p one one' e =
    let reads : read_parameters req.parameters default_settings ≡ ok t = ground arith in
    let permuted = read_parameters_permuted default_settings p one one' reads in ground arith
