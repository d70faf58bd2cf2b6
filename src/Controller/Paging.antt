-- ===== src/Controller/Paging.antt =====
-- driver/controller.go: the pages of `ListVolumes` and `ListSnapshots`, which hold the same code.
pub mod Walk
use scaleway_csi.Base.{
  ℕ, String, ◌<>◌, Bool, ◌&&◌, not, Option, none, some, List, [], ◌∷◌, take, drop, length, ◌-◌,
  if◌then◌else◌, Result, ok, err, Failure, status, panic, aborted, leb,
}
use scaleway_csi.Base.Int.{ℤ, pos, negsuc, less, same, sub64, add64}
use scaleway_csi.Base.Text.{same_text}
use scaleway_csi.Base.Decimal.{atoi, itoa_int}

-- The starting token.
unfoldable pub start_at : String → Result Failure ℤ
start_at token =
    if same_text token ""
    then ok (pos 0)
    else elim (atoi token) [ some n ↦ ok n | none ↦ err (status aborted "invalid startingToken") ]

module _ {ℓ} {A : Type ℓ} where
  -- `xs[lo:]`
  unfoldable pub slice_from : ℤ → List A → Result Failure (List A)
  slice_from (negsuc lo) xs = err (panic "slice bounds out of range")
  slice_from (pos lo) xs =
      if leb lo (length xs) then ok (drop lo xs) else err (panic "slice bounds out of range")

  -- `xs[lo:hi]`. Go allows `hi` up to the capacity; here it is at most the length, as it is
  -- wherever the code reaches this slice with bounds that are not negative.
  unfoldable pub slice : ℤ → ℤ → List A → Result Failure (List A)
  slice (pos lo) (pos hi) xs =
      if leb lo hi && leb hi (length xs)
      then ok (take (hi - lo) (drop lo xs))
      else err (panic "slice bounds out of range")
  slice _ _ xs = err (panic "slice bounds out of range")

  abbrev with_token : String → Result Failure (List A) → Result Failure (List A × String)
  with_token token (ok xs) = ok (xs, token)
  with_token token (err f) = err f

  -- The page of at most `max` entries from `n` on, all of them for 0, and the token of the next.
  unfoldable pub page : (n max : ℤ) → List A → Result Failure (List A × String)
  unfolding slice_from slice
  page n max xs =
      if same max (pos 0)
      then (if not (same n (pos 0)) then with_token "" (slice_from n xs) else ok (xs, ""))
      else if less (sub64 (pos (length xs)) n) max
      then with_token "" (slice_from n xs)
      else with_token (itoa_int (add64 n max)) (slice n (add64 n max) xs)
