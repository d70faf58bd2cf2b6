-- ===== src/Controller/Snapshots/Listing.antt =====
-- Following the tokens of `ListVolumes` from page to page.
use scaleway_csi.Base.{
  ℕ, zero, suc, ◌+◌, ◌^◌, ◌<◌, String, ◌≡◌, refl, ap, ◌∙◌, sym, true, false, none, List, [], ◌∷◌,
  ◌++◌, map, length, arith, ok, panic, Action, Result-cases, Bool-cases, inl, inr, if◌then◌else◌,
  ◌>>=◌, return, fail,
}
use scaleway_csi.Base.Int.{ℤ, pos}
use scaleway_csi.Base.Text.{same_text}
use scaleway_csi.Cloud.{InstanceApi, Volume}
use scaleway_csi.Cloud.Laws.{IsReadOnly}
use scaleway_csi.Controller.Paging.{start_at, page}
use scaleway_csi.Controller.Paging.Walk.{walk, walk_all}
use scaleway_csi.Controller.Volumes.{Entry, volume_entry}
use scaleway_csi.Controller.Snapshots.{list_volumes}

map-append {ℓ κ} :
    {A : Type ℓ} {B : Type κ} (f : A → B) (xs ys : List A) → map f (xs ++ ys) ≡ map f xs ++ map f ys
map-append f [] ys = refl
map-append f (x ∷ xs) ys = ap (λ r. f x ∷ r) (map-append f xs ys)

module _ (api : InstanceApi) (max : ℕ) where
  open api use {State}

  -- A client that asks for the first page, then for each next page until there is no token, for at
  -- most `fuel` pages.
  pub list_from : ℕ → String → Action State (List Entry)
  list_from zero token = fail (panic "no page is left to ask for")
  list_from (suc fuel) token = list_volumes api (pos max) token >>= λ r.
      let rest = list_from fuel (r.1) >>= λ others. return (r.0 ++ others) in
      if same_text (r.1) "" then return (r.0) else rest

module _ (api : InstanceApi) (R : IsReadOnly api) (max : ℕ) (w : api.State) (volumes : List Volume)
    (listed : (api.list_volumes none none w).0 ≡ ok volumes) where
  one_page :
      (token next : String) (n : ℤ) (entries : List Volume)
      → start_at token ≡ ok n
      → page n (pos max) volumes ≡ ok (entries, next)
      → list_volumes api (pos max) token w ≡ (ok (map volume_entry entries, next), w)
  unfolding list_volumes
  one_page token next n entries s p = ground (arith, R.list_volumes_state none none w)

  list_from-last :
      (fuel : ℕ) (token next : String) (entries : List Entry)
      → list_volumes api (pos max) token w ≡ (ok (entries, next), w)
      → same_text next "" ≡ true
      → list_from api max (suc fuel) token w ≡ (ok entries, w)
  unfolding list_from
  list_from-last fuel token next entries e last = ground arith

  list_from-more :
      (fuel : ℕ) (token next : String) (entries others : List Entry)
      → list_volumes api (pos max) token w ≡ (ok (entries, next), w)
      → same_text next "" ≡ false
      → list_from api max fuel next w ≡ (ok others, w)
      → list_from api max (suc fuel) token w ≡ (ok (entries ++ others), w)
  unfolding list_from
  list_from-more fuel token next entries others e more rest = ground arith

  list_from-walk :
      (fuel : ℕ) (token : String) {vs : List Volume}
      → walk volumes max fuel token ≡ ok vs
      → list_from api max fuel token w ≡ (ok (map volume_entry vs), w)
  unfolding walk
  list_from-walk zero token e = cc
  list_from-walk (suc fuel) token {vs} e = elim (Result-cases (start_at token)) [
    | inr (x, bad) ↦ absurd (ground arith)
    | inl (n, start) ↦ elim (Result-cases (page n (pos max) volumes)) [
      | inr (x, bad) ↦ absurd (ground arith)
      | inl ((entries, next), paged) ↦
          let asked = one_page token next n entries start paged in
          elim (Bool-cases (same_text next "")) [
            | inl last ↦
                let same : entries ≡ vs = ground arith in
                list_from-last fuel token next (map volume_entry entries) asked last
                ∙ ap (λ (v : List Volume). (ok (map volume_entry v), w)) same
            | inr more ↦ elim (Result-cases (walk volumes max fuel next)) [
              | inr (x, bad) ↦ absurd (ground arith)
              | inl (others, walked) ↦
                  let same : entries ++ others ≡ vs = ground arith in
                  list_from-more fuel token next (map volume_entry entries)
                    (map volume_entry others) asked more
                    (list_from-walk fuel next {vs = others} walked)
                  ∙ ap (λ r. (ok r, w))
                      (sym (map-append volume_entry entries others) ∙ ap (map volume_entry) same)
            ]
          ]
    ]
  ]

  -- Over an API whose reads change nothing: a client that follows the tokens of `ListVolumes` from
  -- the first page gets the entry of every volume that the API lists, once and in order, with pages of
  -- any positive size, after at most one page more than there are volumes, and nothing is changed, if
  -- the number of volumes and the size of a page together fit a signed 64-bit integer.
  pub list_volumes-all :
      0 < max
      → length volumes + max < 2 ^ 63
      → list_from api max (suc (length volumes)) "" w ≡ (ok (map volume_entry volumes), w)
  list_volumes-all positive fits =
      list_from-walk (suc (length volumes)) "" {vs = volumes} (walk_all volumes max positive fits)
