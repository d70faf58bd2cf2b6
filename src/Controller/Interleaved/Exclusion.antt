-- ===== src/Controller/Interleaved/Exclusion.antt =====
-- The lock keeps the attachments and the detachments apart.
use scaleway_csi.Base.{
  ℕ, ◌+◌, ◌≤◌, ◌≡◌, refl, String, Bool, true, false, Option, some, List, [], ◌∷◌, arith,
}
use scaleway_csi.Ids.{Zone}
use scaleway_csi.Cloud.{InstanceApi}
use scaleway_csi.Controller.Interleaved.Totals.{total, total-append}
use scaleway_csi.Controller.Interleaved.{
  Request, Phase, begin, ask_volume, ask_server, wait, hold, leave, ended, advance, System, Step,
  move, Reach, here, then_step, all_begin,
}

-- Whether a request holds the lock.
abbrev pub holding : Phase → ℕ
holding (begin _) = 0
holding (ask_volume _ _) = 0
holding (ask_server _ _ _) = 0
holding (wait _ _ _) = 0
holding (hold _ _ _) = 1
holding (leave _) = 1
holding (ended _) = 0

abbrev pub holders : List Phase → ℕ
holders = total holding

abbrev pub taken : Bool → ℕ
taken true = 1
taken false = 0

holders-all_begin : (rs : List Request) → holders (all_begin rs) ≡ 0
holders-all_begin [] = refl
holders-all_begin (r ∷ rs) = omega (arith, holders-all_begin rs)

module _ (api : InstanceApi) (parse_zone : String → Option Zone) where
  -- A step takes the lock as often as the request holds it more than before.
  advance-holding :
      (p : Phase) (locked : Bool) (w : api.State) {q : Phase} {locked' : Bool} {w' : api.State}
      → advance api parse_zone p locked w ≡ some (q, locked', w')
      → holding p ≤ taken locked
      → taken locked' + holding p ≡ taken locked + holding q
  unfolding advance
  advance-holding p locked w e h = ground arith

  pub Step-holders :
      {s t : System api parse_zone}
      → Step api parse_zone s t
      → holders s.requests ≡ taken s.locked
      → holders t.requests ≡ taken t.locked
  Step-holders (move before p after locked w q locked' w' e) h = omega (
    arith,
    h,
    advance-holding p locked w {q = q} {locked' = locked'} {w' = w'} e
        (omega (arith, h, total-append holding before (p ∷ after))),
    total-append holding before (p ∷ after),
    total-append holding before (q ∷ after),
  )

  -- In every order of steps that requests may take from their beginning, the lock is taken just if
  -- one request holds it, and no more than one does: so no two attachments or detachments by one
  -- process overlap.
  pub Reach-holders :
      (rs : List Request) (w : api.State) {n : ℕ} {t : System api parse_zone}
      → Reach api parse_zone (record { requests = all_begin rs; locked = false; state = w }) n t
      → holders t.requests ≡ taken t.locked
  Reach-holders rs w here = holders-all_begin rs
  Reach-holders rs w (then_step r s) = Step-holders s (Reach-holders rs w r)
