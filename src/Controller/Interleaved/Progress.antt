-- ===== src/Controller/Interleaved/Progress.antt =====
-- Every request ends, whatever the order of the steps.
use scaleway_csi.Base.{
  ℕ, ◌+◌, ◌*◌, ◌≤◌, ◌<◌, ◌≡◌, ◌⊎◌, inl, inr, refl, subst, Bool, true, false, Option, some, List, [],
  ◌∷◌, ◌++◌, arith, length, Bool-cases, ltb,
}
use scaleway_csi.Ids.{Zone}
use scaleway_csi.Base.{String}
use scaleway_csi.Cloud.{InstanceApi}
use scaleway_csi.Controller.Interleaved.Totals.{total, total-append, total-Placed}
use scaleway_csi.Controller.Interleaved.{
  publishing, unpublishing, publish, unpublish, Request, Phase, begin, ask_volume, ask_server, wait,
  hold, leave, ended, advance, System, Step, move, Reach, here, then_step, all_begin,
}
use scaleway_csi.Controller.Interleaved.Exclusion.{holding, holders, taken, Reach-holders}

-- The steps that a request has left at most.
abbrev pub left : Phase → ℕ
left (begin _) = 6
left (ask_volume _ _) = 5
left (ask_server _ _ _) = 4
left (wait _ _ _) = 3
left (hold _ _ _) = 2
left (leave _) = 1
left (ended _) = 0

abbrev pub all_left : List Phase → ℕ
all_left = total left

all_left-all_begin : (rs : List Request) → all_left (all_begin rs) ≡ 6 * length rs
all_left-all_begin [] = refl
all_left-all_begin (r ∷ rs) = omega (arith, all_left-all_begin rs)

module _ (api : InstanceApi) (parse_zone : String → Option Zone) where
  advance-left :
      (p : Phase) (locked : Bool) (w : api.State) {q : Phase} {locked' : Bool} {w' : api.State}
      → advance api parse_zone p locked w ≡ some (q, locked', w')
      → left q < left p
  unfolding advance
  advance-left p locked w e = ground arith

  Step-left :
      {s t : System api parse_zone}
      → Step api parse_zone s t
      → all_left t.requests < all_left s.requests
  Step-left (move before p after locked w q locked' w' e) = omega (
    arith,
    advance-left p locked w {q = q} {locked' = locked'} {w' = w'} e,
    total-append left before (p ∷ after),
    total-append left before (q ∷ after),
  )

  Reach-left :
      (start : System api parse_zone) {n : ℕ} {t : System api parse_zone}
      → Reach api parse_zone start n t
      → n + all_left t.requests ≤ all_left start.requests
  Reach-left start here = omega arith
  Reach-left start (then_step r s) = omega (arith, Reach-left start r, Step-left s)

  -- What a request does next.
  abbrev Moves : Bool → api.State → Phase → Type 0
  Moves locked w p =
      (q : Phase) × (locked' : Bool) × (w' : api.State) × (advance api parse_zone p locked w
        ≡ some (q, locked', w'))

  free-Moves : (p : Phase) (w : api.State) → 0 < left p → Moves false w p
  unfolding advance
  free-Moves (begin (publish req)) w h = (_, _, _, refl)
  free-Moves (begin (unpublish req)) w h = (_, _, _, refl)
  free-Moves (ask_volume job t) w h = (_, _, _, refl)
  free-Moves (ask_server job t v) w h = (_, _, _, refl)
  free-Moves (wait job t v) w h = (_, _, _, refl)
  free-Moves (hold publishing t v) w h = (_, _, _, refl)
  free-Moves (hold unpublishing t v) w h = (_, _, _, refl)
  free-Moves (leave a) w h = (_, _, _, refl)
  free-Moves (ended a) w h = absurd (omega arith)

  holder-Moves : (p : Phase) (locked : Bool) (w : api.State) → 0 < holding p → Moves locked w p
  unfolding advance
  holder-Moves (hold publishing t v) locked w h = (_, _, _, refl)
  holder-Moves (hold unpublishing t v) locked w h = (_, _, _, refl)
  holder-Moves (leave a) locked w h = (_, _, _, refl)
  holder-Moves (begin _) locked w h = absurd (omega arith)
  holder-Moves (ask_volume _ _) locked w h = absurd (omega arith)
  holder-Moves (ask_server _ _ _) locked w h = absurd (omega arith)
  holder-Moves (wait _ _ _) locked w h = absurd (omega arith)
  holder-Moves (ended _) locked w h = absurd (omega arith)

  -- A request in its place that moves is a step of the system.
  placed-Step :
      (ps before after : List Phase) (p : Phase) (locked : Bool) (w : api.State)
      → before ++ p ∷ after ≡ ps
      → Moves locked w p
      → (t : System api parse_zone) × Step api parse_zone
          (record { requests = ps; locked = locked; state = w })
          t
  placed-Step ps before after p locked w same (q, locked', w', e) = (
    record { requests = before ++ q ∷ after; locked = locked'; state = w' },
    subst
        (λ l.
          Step api parse_zone (record { requests = l; locked = locked; state = w })
            (record { requests = before ++ q ∷ after; locked = locked'; state = w' }))
        same (move before p after locked w q locked' w' e),
  )

  -- With steps left there is a next one: of any request if the lock is free, and of the one that
  -- holds it if not.
  next-Step :
      (ps : List Phase) (locked : Bool) (w : api.State)
      → holders ps ≡ taken locked
      → 0 < all_left ps
      → (t : System api parse_zone) × Step api parse_zone
          (record { requests = ps; locked = locked; state = w })
          t
  next-Step ps false w h k =
      let l = total-Placed left ps k in
      placed-Step ps l.before l.after l.phase false w l.list_is (free-Moves l.phase w l.positive)
  next-Step ps true w h k =
      let l = total-Placed holding ps (omega (arith, h)) in
      placed-Step ps l.before l.after l.phase true w l.list_is
        (holder-Moves l.phase true w l.positive)

  -- Requests that run at the same time, in any order of their steps: after `n` steps, of which there
  -- are at most six for each request, either all requests have ended or one of them goes on. So the
  -- lock is never waited for in vain.
  pub Reach-goes_on :
      (rs : List Request) (w : api.State) (n : ℕ) (t : System api parse_zone)
      → Reach api parse_zone (record { requests = all_begin rs; locked = false; state = w }) n t
      → (n ≤ 6 * length rs)
        × ((all_left t.requests ≡ 0) ⊎ ((u : System api parse_zone) × Step api parse_zone t u))
  Reach-goes_on rs w n t r = (
    omega (arith, Reach-left _ r, all_left-all_begin rs),
    elim (Bool-cases (ltb 0 (all_left t.requests))) [
      | inl more ↦ inr (
          next-Step t.requests t.locked t.state (Reach-holders api parse_zone rs w r)
            (ground arith))
      | inr done ↦ inl (ground arith)
    ],
  )
