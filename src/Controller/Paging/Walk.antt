-- ===== src/Controller/Paging/Walk.antt =====
-- Following the tokens from page to page.
use text.Mathlib.TextEquality.{eq_iff}
use scaleway_csi.Base.{
  ℕ, zero, suc, ◌+◌, ◌-◌, ◌^◌, ◌<◌, ◌≤◌, ◌≡◌, ◌∙◌, refl, sym, ap, String, Bool-cases, inl, inr,
  false, List, ◌++◌, take, drop, length, drop-drop, take-append-drop, arith, Result, ok, err,
  Failure, if◌then◌else◌, ltb, panic,
}
use scaleway_csi.Base.Int.{pos, sub64_small, add64_small}
use scaleway_csi.Base.Text.{same_text}
use scaleway_csi.Base.Decimal.{itoa, itoa_int, atoi-itoa, itoa-ne-nil}
use scaleway_csi.Controller.Paging.{start_at, page}

-- The three cases of a page whose start and size are in range.
module _ {A : Type 0} (xs : List A) (max : ℕ) (positive : 0 < max)
    (fits : length xs + max < 2 ^ 63) where
  page_last :
      (n : ℕ) → n ≤ length xs → length xs < n + max → page (pos n) (pos max) xs ≡ ok (drop n xs, "")
  unfolding page
  page_last n h k = rw (sub64_small (length xs) n (omega arith) (omega arith)) (ground arith)

  page_full :
      (n : ℕ)
      → n + max ≤ length xs
      → page (pos n) (pos max) xs ≡ ok (take max (drop n xs), itoa (n + max))
  unfolding page itoa_int
  page_full n h =
      rw (sub64_small (length xs) n (omega arith) (omega arith), add64_small n max (omega arith))
        (ground arith)

abbrev pub prepend {ℓ} : {A : Type ℓ} → List A → Result Failure (List A) → Result Failure (List A)
prepend xs (ok ys) = ok (xs ++ ys)
prepend xs (err f) = err f

-- A client that follows the tokens: it asks for the first page, then for each next page until
-- there is no token, for at most `fuel` pages.
module _ {A : Type 0} (xs : List A) (max : ℕ) where
  unfoldable pub walk : ℕ → String → Result Failure (List A)
  walk zero token = err (panic "no page is left to ask for")
  walk (suc fuel) token = elim (start_at token) [
    | err f ↦ err f
    | ok n ↦ elim (page n (pos max) xs) [
      | err f ↦ err f
      | ok (entries, next) ↦
          let rest = prepend entries (walk fuel next) in
          if same_text next "" then ok entries else rest
    ]
  ]

-- One step of the walk, where it ends and where it goes on.
module _ {A : Type 0} (xs : List A) (max fuel : ℕ) (token : String) (n : ℕ) (entries : List A) where
  walk-last :
      start_at token ≡ ok (pos n)
      → page (pos n) (pos max) xs ≡ ok (entries, "")
      → walk xs max (suc fuel) token ≡ ok entries
  unfolding walk
  walk-last e p = rw (e, walk) (rw p)

  walk-more :
      (others : List A) (next : String)
      → start_at token ≡ ok (pos n)
      → page (pos n) (pos max) xs ≡ ok (entries, next)
      → same_text next "" ≡ false
      → walk xs max fuel next ≡ ok others
      → walk xs max (suc fuel) token ≡ ok (entries ++ others)
  unfolding walk
  walk-more others next e p more ih = rw (e, walk) (rw p (rw (more, ih)))

itoa-not-empty : (n : ℕ) → same_text (itoa n) "" ≡ false
itoa-not-empty n = elim (Bool-cases (same_text (itoa n) "")) [
  | inl e ↦ absurd (itoa-ne-nil n ((eq_iff _ _).0 e))
  | inr e ↦ e
]

start_at-itoa : (n : ℕ) → n < 2 ^ 63 → start_at (itoa n) ≡ ok (pos n)
unfolding start_at
start_at-itoa n h = rw (itoa-not-empty n, atoi-itoa n h)

module _ {A : Type 0} (xs : List A) (max : ℕ) (positive : 0 < max)
    (fits : length xs + max < 2 ^ 63) where
  walk_from :
      (fuel n : ℕ) (token : String)
      → n ≤ length xs
      → length xs - n < fuel
      → start_at token ≡ ok (pos n)
      → walk xs max fuel token ≡ ok (drop n xs)
  walk_from zero n token h lt e = elim lt [ ]
  walk_from (suc fuel) n token h lt e = elim (Bool-cases (ltb (length xs) (n + max))) [
    | inl last ↦
        walk-last xs max fuel token n (drop n xs) e
          (page_last xs max positive fits n h (ground arith))
    | inr full ↦
        walk-more xs max fuel token n (take max (drop n xs)) (drop (n + max) xs) (itoa (n + max)) e
          (page_full xs max positive fits n (ground arith)) (itoa-not-empty (n + max))
          (walk_from fuel (n + max) (itoa (n + max)) (ground arith) (ground arith)
            (start_at-itoa (n + max) (ground arith)))
        ∙ ap ok (
            ap (λ r. take max (drop n xs) ++ r) (sym (drop-drop max n xs))
            ∙ take-append-drop max (drop n xs))
  ]

  -- With pages of any positive size, following the tokens from the first page gives every entry of
  -- an unchanged list once and in order, and ends after at most one page more than there are
  -- entries, if the length of the list and a page together fit a signed 64-bit integer.
  pub walk_all : walk xs max (suc (length xs)) "" ≡ ok xs
  unfolding start_at
  walk_all = walk_from (suc (length xs)) 0 "" (omega arith) (omega arith) refl

-- A start behind the end of the list, less than 2^63, panics whatever the size of the page, less
-- than 2^31.
pub page_behind :
    {A : Type 0} (xs : List A) (n max : ℕ)
    → length xs < n
    → n < 2 ^ 63
    → max < 2 ^ 31
    → page (pos n) (pos max) xs ≡ err (panic "slice bounds out of range")
unfolding page
page_behind xs n max h k m = rw (sub64_small (length xs) n (omega arith) k) (ground arith)
