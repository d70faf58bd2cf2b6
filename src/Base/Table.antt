-- ===== src/Base/Table.antt =====
-- Go maps with string keys, as the list of their entries.
use mathlib.Core.List.{Permᴰ, Memᴰ}
use text.Mathlib.TextEquality.{eq_iff}
use Prim.Native.String.{String}
use mathlib.Core.Path.{◌≡◌, refl, ap, ◌∙◌, subst, sym}
use mathlib.Core.Logic.{◌≢◌, inl, inr}
use mathlib.Core.Option.{Option, none, some}
use mathlib.Core.List.{List, [], ◌∷◌}
use native.Mathlib.Omega.{arith}
use scaleway_csi.Base.Tests.{if◌then◌else◌, Bool-cases}
use scaleway_csi.Base.Lists.{All, length}
use scaleway_csi.Base.Text.{same_text}

abbrev pub Table {ℓ} : Type ℓ → Type ℓ
Table V = List (String × V)

module _ {ℓ} {V : Type ℓ} where
  -- `v, ok := m[k]`
  unfoldable pub lookup : String → Table V → Option V
  lookup k [] = none
  lookup k ((j, v) ∷ m) = if same_text j k then some v else lookup k m

  -- `m[k] = v`
  unfoldable pub insert : String → V → Table V → Table V
  insert k v [] = (k, v) ∷ []
  insert k v ((j, w) ∷ m) = if same_text j k then (k, v) ∷ m else (j, w) ∷ insert k v m

  -- `delete(m, k)`
  unfoldable pub erase : String → Table V → Table V
  erase k [] = []
  erase k ((j, w) ∷ m) = let rest = erase k m in if same_text j k then rest else (j, w) ∷ rest

module _ {ℓ κ} {V : Type ℓ} (P : String × V → Type κ) where
  pub insert-All : (k : String) (v : V) (m : Table V) → P (k, v) → All P m → All P (insert k v m)
  unfolding insert
  insert-All k v [] p h = (p, tt)
  insert-All k v ((j, w) ∷ m) p (q, h) = ground (arith, insert-All k v m p h)

  pub erase-All : (k : String) (m : Table V) → All P m → All P (erase k m)
  unfolding erase
  erase-All k [] h = tt
  erase-All k ((j, w) ∷ m) (q, h) = ground (arith, erase-All k m h)

  -- What is found under a key has the property that all entries have.
  pub lookup-All : (k : String) (m : Table V) {v : V} → All P m → lookup k m ≡ some v → P (k, v)
  unfolding lookup
  lookup-All k [] h e = cc
  lookup-All k ((j, w) ∷ m) {v} (q, h) e = ground (arith, eq_iff j k, lookup-All k m {v = v} h)

module _ {ℓ} {A : Type ℓ} where
  pub Permᴰ-All {κ} : (P : A → Type κ) {xs ys : List A} → Permᴰ xs ys → All P ys → All P xs
  Permᴰ-All P Permᴰ.nil h = h
  Permᴰ-All P (Permᴰ.cons e p) (h, hs) = (subst P (sym e) h, Permᴰ-All P p hs)
  Permᴰ-All P (Permᴰ.swap e f) (h, (k, hs)) = (subst P (sym e) k, (subst P (sym f) h, hs))
  Permᴰ-All P (Permᴰ.trans p q) h = Permᴰ-All P p (Permᴰ-All P q h)

  pub Permᴰ-length : {xs ys : List A} → Permᴰ xs ys → length xs ≡ length ys
  Permᴰ-length Permᴰ.nil = refl
  Permᴰ-length (Permᴰ.cons e p) = omega (arith, Permᴰ-length p)
  Permᴰ-length (Permᴰ.swap e f) = refl
  Permᴰ-length (Permᴰ.trans p q) = omega (arith, Permᴰ-length p, Permᴰ-length q)

  -- What is in a list is in each list that it permutes.
  pub Permᴰ-Memᴰ : {xs ys : List A} {x : A} → Permᴰ xs ys → Memᴰ x ys → Memᴰ x xs
  Permᴰ-Memᴰ Permᴰ.nil d = d
  Permᴰ-Memᴰ (Permᴰ.cons e p) (Memᴰ.head q) = Memᴰ.head (q ∙ sym e)
  Permᴰ-Memᴰ (Permᴰ.cons e p) (Memᴰ.tail d) = Memᴰ.tail (Permᴰ-Memᴰ p d)
  Permᴰ-Memᴰ (Permᴰ.swap e f) (Memᴰ.head q) = Memᴰ.tail (Memᴰ.head (q ∙ sym f))
  Permᴰ-Memᴰ (Permᴰ.swap e f) (Memᴰ.tail (Memᴰ.head q)) = Memᴰ.head (q ∙ sym e)
  Permᴰ-Memᴰ (Permᴰ.swap e f) (Memᴰ.tail (Memᴰ.tail d)) = Memᴰ.tail (Memᴰ.tail d)
  Permᴰ-Memᴰ (Permᴰ.trans p q) d = Permᴰ-Memᴰ p (Permᴰ-Memᴰ q d)

module _ {ℓ} {V : Type ℓ} where
  pub insert-new : (k : String) (v : V) (m : Table V) → Memᴰ (k, v) (insert k v m)
  unfolding insert
  insert-new k v [] = Memᴰ.head refl
  insert-new k v ((j, w) ∷ m) = elim (Bool-cases (same_text j k)) [
    | inl e ↦ rw e (Memᴰ.head refl)
    | inr e ↦ rw e (Memᴰ.tail (insert-new k v m))
  ]

  -- An entry stays when its key is given the value it has.
  pub insert-keeps :
      (k : String) (u : V) (j : String) (w : V) (m : Table V)
      → (j ≡ k → w ≡ u)
      → Memᴰ (j, w) m
      → Memᴰ (j, w) (insert k u m)
  unfolding insert
  insert-keeps k u j w [] same d = elim d [ ]
  insert-keeps k u j w ((i, x) ∷ m) same (Memᴰ.head q) = elim (Bool-cases (same_text i k)) [
    | inl e ↦
        let j_is = ap (λ p. p.0) q ∙ (eq_iff i k).0 e in
        rw e (Memᴰ.head (λ t. (j_is t, same j_is t)))
    | inr e ↦ rw e (Memᴰ.head q)
  ]
  insert-keeps k u j w ((i, x) ∷ m) same (Memᴰ.tail d) = elim (Bool-cases (same_text i k)) [
    | inl e ↦ rw e (Memᴰ.tail d)
    | inr e ↦ rw e (Memᴰ.tail (insert-keeps k u j w m same d))
  ]

  pub erase-keeps :
      (k j : String) (w : V) (m : Table V) → j ≢ k → Memᴰ (j, w) m → Memᴰ (j, w) (erase k m)
  unfolding erase
  erase-keeps k j w [] other d = elim d [ ]
  erase-keeps k j w ((i, x) ∷ m) other (Memᴰ.head q) = elim (Bool-cases (same_text i k)) [
    | inl e ↦ absurd (other (ap (λ p. p.0) q ∙ (eq_iff i k).0 e))
    | inr e ↦ rw e (Memᴰ.head q)
  ]
  erase-keeps k j w ((i, x) ∷ m) other (Memᴰ.tail d) = elim (Bool-cases (same_text i k)) [
    | inl e ↦ rw e (erase-keeps k j w m other d)
    | inr e ↦ rw e (Memᴰ.tail (erase-keeps k j w m other d))
  ]

  pub lookup-insert_other :
      (k : String) (u : V) (j : String) (m : Table V) → j ≢ k → lookup j (insert k u m) ≡ lookup j m
  unfolding lookup insert
  lookup-insert_other k u j [] other = ground (arith, eq_iff k j)
  lookup-insert_other k u j ((i, x) ∷ m) other =
      ground (arith, eq_iff k j, eq_iff i k, lookup-insert_other k u j m other)
