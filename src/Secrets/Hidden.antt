-- ===== src/Secrets/Hidden.antt =====
-- The log of a request does not depend on the values of its secrets.
use mathlib.Core.List.{Permᴰ}
use scaleway_csi.Base.{
  ℕ, zero, suc, ◌+◌, ◌<◌, String, ◌≡◌, refl, ap, ◌⊎◌, inl, inr, some, List, [], ◌∷◌, length,
  get_elem?, arith, Result, ok, err,
}
use scaleway_csi.Base.Table.{Table, Permᴰ-length}
use scaleway_csi.Secrets.{
  secrets_field, Value, text_map, other_value, Field, Reflected, structure, other_kind, keys_of,
  redacted_entries, value_to_print, printed_fields, strip_secret_from_req, in_brackets, in_braces,
}

-- Two fields that may differ in the values of the secrets alone.
pub record DifferInSecrets (f g : Field) : Type 0 where
  pub mine : Table String
  pub theirs : Table String
  pub is_secret : f.name ≡ secrets_field
  pub my_value : f.value ≡ text_map mine
  pub their_value : g.value ≡ text_map theirs
  pub same_keys : keys_of mine ≡ keys_of theirs

abbrev pub Alike : Field → Field → Type 0
Alike f g = (f.name ≡ g.name) × ((f.value ≡ g.value) ⊎ DifferInSecrets f g)

abbrev pub AllAlike : List Field → List Field → Type 0
AllAlike [] [] = Unit
AllAlike [] (g ∷ gs) = ⊥
AllAlike (f ∷ fs) [] = ⊥
AllAlike (f ∷ fs) (g ∷ gs) = Alike f g × AllAlike fs gs

abbrev pub AlikeRequests : Reflected → Reflected → Type 0
AlikeRequests (structure fs) (structure gs) = AllAlike fs gs
AlikeRequests (structure fs) other_kind = ⊥
AlikeRequests other_kind (structure gs) = ⊥
AlikeRequests other_kind other_kind = Unit

-- A text comes out, and no panic.
abbrev pub Succeeds : Result String String → Type 0
Succeeds (ok text) = Unit
Succeeds (err e) = ⊥

get_elem-of_lt :
    (xs : List String) (i : ℕ) → i < length xs → (x : String) × (get_elem? xs i ≡ some x)
get_elem-of_lt [] i h = absurd (omega arith)
get_elem-of_lt (x ∷ xs) zero h = (x, refl)
get_elem-of_lt (x ∷ xs) (suc i) h = get_elem-of_lt xs i (omega arith)

AllAlike-length : (fs gs : List Field) → AllAlike fs gs → length fs ≡ length gs
AllAlike-length [] [] h = refl
AllAlike-length [] (g ∷ gs) h = absurd h
AllAlike-length (f ∷ fs) [] h = absurd h
AllAlike-length (f ∷ fs) (g ∷ gs) (_, h) = ap suc (AllAlike-length fs gs h)

module _ (print : Value → String) (visit : ℕ → List String → List String) where
  value_to_print-same_keys :
      (m n : Table String)
      → keys_of m ≡ keys_of n
      → value_to_print print visit secrets_field (text_map m)
        ≡ value_to_print print visit secrets_field (text_map n)
  unfolding value_to_print
  value_to_print-same_keys m n e =
      ap (λ keys. in_brackets (redacted_entries print visit keys (length keys) 0)) e

  value_to_print-Alike :
      (f g : Field)
      → Alike f g
      → value_to_print print visit f.name f.value ≡ value_to_print print visit g.name g.value
  value_to_print-Alike f g (n, inl v) = rw (n, v) refl
  value_to_print-Alike f g (n, inr d) =
      rw (← n, d.is_secret, d.my_value, d.their_value)
        (value_to_print-same_keys d.mine d.theirs d.same_keys)

  printed_fields-AllAlike :
      (fs gs : List Field)
      → AllAlike fs gs
      → printed_fields print visit fs ≡ printed_fields print visit gs
  unfolding printed_fields
  printed_fields-AllAlike [] [] h = refl
  printed_fields-AllAlike [] (g ∷ gs) h = absurd h
  printed_fields-AllAlike (f ∷ fs) [] h = absurd h
  printed_fields-AllAlike (f ∷ fs) (g ∷ gs) (a, h) =
      rw (value_to_print-Alike f g a, a.0, printed_fields-AllAlike fs gs h, AllAlike-length fs gs h)
        refl

  strip-AlikeRequests :
      (r s : Reflected)
      → AlikeRequests r s
      → strip_secret_from_req print visit r ≡ strip_secret_from_req print visit s
  unfolding strip_secret_from_req
  strip-AlikeRequests (structure fs) (structure gs) h =
      ap in_braces (printed_fields-AllAlike fs gs h)
  strip-AlikeRequests (structure fs) other_kind h = absurd h
  strip-AlikeRequests other_kind (structure gs) h = absurd h
  strip-AlikeRequests other_kind other_kind h = refl

  module _ (permutes : (j : ℕ) (keys : List String) → Permᴰ (visit j keys) keys) where
    redacted_entries-Succeeds :
        (keys : List String) (left j : ℕ)
        → j + left ≡ length keys
        → Succeeds (redacted_entries print visit keys left j)
    unfolding redacted_entries
    redacted_entries-Succeeds keys zero j e = tt
    redacted_entries-Succeeds keys (suc left) j e =
        let (key, found) =
          get_elem-of_lt (visit j keys) j (omega (arith, Permᴰ-length (permutes j keys))) in
        ground (arith, found, redacted_entries-Succeeds keys left (suc j) (omega arith))

    value_to_print-Succeeds :
        (name : String) (v : Value) → Succeeds (value_to_print print visit name v)
    unfolding value_to_print
    value_to_print-Succeeds name (other_value text) = tt
    value_to_print-Succeeds name (text_map m) =
        ground (arith, redacted_entries-Succeeds (keys_of m) (length (keys_of m)) 0 (omega arith))

    printed_fields-Succeeds : (fs : List Field) → Succeeds (printed_fields print visit fs)
    unfolding printed_fields
    printed_fields-Succeeds [] = tt
    printed_fields-Succeeds (f ∷ fs) =
        ground (arith, value_to_print-Succeeds f.name f.value, printed_fields-Succeeds fs)

    strip-Succeeds : (r : Reflected) → Succeeds (strip_secret_from_req print visit r)
    unfolding strip_secret_from_req
    strip-Succeeds (structure fs) = ground (arith, printed_fields-Succeeds fs)
    strip-Succeeds other_kind = tt

    -- If each call of `MapKeys` gives the keys of the map in some order, the log of a request is
    -- written without a panic, and two requests that differ in the values of their secrets alone
    -- are logged alike.
    pub strip_secret_from_req-Hidden :
        (r s : Reflected)
        → AlikeRequests r s
        → Succeeds (strip_secret_from_req print visit r)
          × (strip_secret_from_req print visit r ≡ strip_secret_from_req print visit s)
    strip_secret_from_req-Hidden r s h = (strip-Succeeds r, strip-AlikeRequests r s h)
