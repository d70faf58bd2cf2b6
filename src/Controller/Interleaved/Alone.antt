-- ===== src/Controller/Interleaved/Alone.antt =====
-- A request that runs alone takes its steps to the answer and the state that its handler gives.
use scaleway_csi.Base.{
  ℕ, zero, suc, String, ◌≡◌, Bool, false, Option, none, some, arith, Result, ok, err, Failure,
}
use scaleway_csi.Base.Table.{Table}
use scaleway_csi.Ids.{Zone}
use scaleway_csi.Cloud.{InstanceApi}
use scaleway_csi.Controller.Attach.{
  look_up, attach, publish_to, controller_publish_volume, detach, controller_unpublish_volume,
}
use scaleway_csi.Controller.Interleaved.{
  publish, unpublish, Reply, published, unpublished, Phase, Request, begin, ended, advance,
}

abbrev pub as_published : Result Failure (Table String) → Result Failure Reply
as_published (ok context) = ok (published context)
as_published (err f) = err f

abbrev pub as_unpublished : Result Failure (Unit {0}) → Result Failure Reply
as_unpublished (ok _) = ok unpublished
as_unpublished (err f) = err f

module _ (api : InstanceApi) (parse_zone : String → Option Zone) where
  -- The steps of one request while it can go on, `n` of them at most.
  unfoldable pub run_alone : ℕ → Phase → (locked : Bool) → api.State → Phase × Bool × api.State
  run_alone zero p locked w = (p, locked, w)
  run_alone (suc n) p locked w = elim (advance api parse_zone p locked w) [
    | none ↦ (p, locked, w)
    | some (q, locked', w') ↦ run_alone n q locked' w'
  ]

  -- The handler of a request.
  unfoldable pub handled : Request → api.State → Result Failure Reply × api.State
  handled (publish req) w =
      let (answer, w') = controller_publish_volume api parse_zone req w in (as_published answer, w')
  handled (unpublish req) w =
      let (answer, w') = controller_unpublish_volume api parse_zone req w in
      (as_unpublished answer, w')

  -- A request that runs alone, with the lock free, ends after at most six steps with the answer of
  -- its handler, in the state that its handler leaves, and with the lock free.
  pub run_alone-handled :
      (req : Request) (w : api.State)
      → run_alone 6 (begin req) false w ≡ (ended (handled req w).0, false, (handled req w).1)
  unfolding run_alone advance handled controller_publish_volume look_up publish_to attach
      controller_unpublish_volume detach
  run_alone-handled (publish req) w = ground arith
  run_alone-handled (unpublish req) w = ground arith
