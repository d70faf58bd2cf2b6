-- ===== src/Tests/Racing.antt =====
-- Two publications at the same time, on an API with one server, which has fifteen volumes already
-- and takes any number of them.
use scaleway_csi.Controller.Attach.{attach}
use scaleway_csi.Controller.Attach.{publish_to}
use scaleway_csi.Controller.Attach.{look_up}
use scaleway_csi.Controller.Attach.{controller_publish_volume}
use scaleway_csi.Base.{
  ℕ, zero, suc, String, ◌≡◌, ◌⊎◌, ◌≤◌, ◌*◌, refl, Bool, true, false, Option, none, some, List, [],
  ◌∷◌, ◌++◌, Result, ok, err, map, length,
}
use scaleway_csi.Base.Text.{split}
use scaleway_csi.Base.Table.{Table}
use scaleway_csi.Ids.{get_volume_id_and_zone, get_node_id_and_zone, extract_id_and_zone}
use scaleway_csi.Capability.{validate_volume_capabilities}
use scaleway_csi.Cloud.{InstanceApi, Volume, Server, ApiError, other_error}
use scaleway_csi.Controller.Attach.{Target, check_publish, publish_context}
use scaleway_csi.Controller.Interleaved.{
  Request, publish, published, publishing, Phase, begin, ask_volume, ask_server, wait, hold, ended,
  advance, System, Step, move, Reach, here, then_step, all_begin,
}
use scaleway_csi.Controller.Interleaved.Alone.{run_alone, handled, run_alone-handled}
use scaleway_csi.Controller.Interleaved.Exclusion.{holders, taken, Reach-holders}
use scaleway_csi.Controller.Interleaved.Progress.{all_left, Reach-goes_on}
use scaleway_csi.Tests.Memory.{parse_zone}
use scaleway_csi.Tests.Data.{mounted}

abbrev volume_named : String → Volume
volume_named id = record {
  id = id;
  name = id;
  zone = "fr-par-1";
  size = 2000000000;
  volume_type = "b_ssd";
  state = "available";
  server = none;
}

abbrev fifteen : Table String
fifteen =
    map (λ slot. (slot, slot))
      ("0" ∷ "1" ∷ "2" ∷ "3" ∷ "4" ∷ "5" ∷ "6" ∷ "7" ∷ "8" ∷ "9" ∷ "10" ∷ "11" ∷ "12" ∷ "13" ∷ "14"
        ∷ [])

abbrev server_with : List String → Server
server_with more = record {
  id = "n1";
  zone = "fr-par-1";
  volumes = map (λ id. (id, id)) more ++ fifteen;
}

abbrev no_call {ℓ} : {A : Type ℓ} → List String → Result ApiError A × List String
no_call w = (err (other_error "not called"), w)

abbrev crowded : InstanceApi
crowded = record {
  State = List String;
  list_volumes = λ name type. no_call;
  create_volume = λ r. no_call;
  get_volume = λ id zone w. (ok (volume_named id), w);
  delete_volume = λ id zone. no_call;
  get_server = λ id zone w. (ok (server_with w), w);
  update_volume = λ id zone n. no_call;
  attach_volume = λ server id zone w. (ok (server_with (id ∷ w)), id ∷ w);
  detach_volume = λ id zone. no_call;
  wait_for_volume = λ id zone. no_call;
  get_snapshot = λ id zone. no_call;
  list_snapshots = λ name base zone. no_call;
  create_snapshot = λ volume name zone. no_call;
  delete_snapshot = λ id zone. no_call;
  list_volumes_types = no_call;
}

abbrev publication : String → Request
publication volume =
    publish
      (record { volume_id = volume; node_id = "fr-par-1/n1"; volume_capability = some mounted })

abbrev two : List Request
two = publication "fr-par-1/v1" ∷ publication "fr-par-1/v2" ∷ []

abbrev start : System crowded parse_zone
start = record { requests = all_begin two; locked = false; state = [] }

-- One step of the request at a place, if it can go on.
abbrev moved_to :
    List Phase
    → Option (Phase × Bool × List String)
    → List Phase
    → System crowded parse_zone
    → System crowded parse_zone
moved_to before none after s = s
moved_to before (some (q, locked, w)) after s = record {
  requests = before ++ q ∷ after;
  locked = locked;
  state = w;
}

step_at :
    ℕ → (before : List Phase) → List Phase → System crowded parse_zone → System crowded parse_zone
step_at n before [] s = s
step_at zero before (p ∷ ps) s =
    moved_to before (advance crowded parse_zone p s.locked s.state) ps s
step_at (suc n) before (p ∷ ps) s = step_at n (before ++ p ∷ []) ps s

scheduled : List ℕ → System crowded parse_zone → System crowded parse_zone
unfolding step_at
scheduled [] s = s
scheduled (n ∷ ns) s = scheduled ns (step_at n [] s.requests s)

-- In turns, both requests see fifteen volumes, and the server gets seventeen; the second waits for
-- the lock once.
in_turns : scheduled (0 ∷ 1 ∷ 0 ∷ 1 ∷ 0 ∷ 1 ∷ 0 ∷ 1 ∷ 0 ∷ 0 ∷ 1 ∷ 1 ∷ 1 ∷ []) start ≡ record {
  requests =
      ended (ok (published (publish_context (volume_named "v1"))))
      ∷ ended (ok (published (publish_context (volume_named "v2"))))
      ∷ [];
  locked = false;
  state = "v2" ∷ "v1" ∷ [];
}
unfolding scheduled advance check_publish get_volume_id_and_zone extract_id_and_zone split
    get_node_id_and_zone validate_volume_capabilities
in_turns = refl

-- A request on a server with seventeen volumes is not refused.
over_full :
    handled crowded parse_zone (publication "fr-par-1/v3") ("v2" ∷ "v1" ∷ [])
    ≡ (ok (published (publish_context (volume_named "v3"))), "v3" ∷ "v2" ∷ "v1" ∷ [])
unfolding handled controller_publish_volume check_publish get_volume_id_and_zone extract_id_and_zone
    split get_node_id_and_zone validate_volume_capabilities look_up publish_to attach
over_full = refl

run_alone-handled_example :
    run_alone crowded parse_zone 6 (begin (publication "fr-par-1/v1")) false [] ≡ (
      ended (handled crowded parse_zone (publication "fr-par-1/v1") []).0,
      false,
      (handled crowded parse_zone (publication "fr-par-1/v1") []).1,
    )
run_alone-handled_example = run_alone-handled crowded parse_zone (publication "fr-par-1/v1") []

abbrev target_v1 : Target
target_v1 = record {
  volume_id = "v1";
  volume_zone = "fr-par-1";
  node_id = "n1";
  node_zone = "fr-par-1";
}

-- The first request has the lock before the second has begun.
abbrev with_lock : System crowded parse_zone
with_lock = record {
  requests = hold publishing target_v1 (volume_named "v1") ∷ begin (publication "fr-par-1/v2") ∷ [];
  locked = true;
  state = [];
}

begun :
    advance crowded parse_zone (begin (publication "fr-par-1/v1")) false []
    ≡ some (ask_volume publishing target_v1, false, [])
unfolding advance check_publish get_volume_id_and_zone extract_id_and_zone split
    get_node_id_and_zone validate_volume_capabilities
begun = refl

asked :
    advance crowded parse_zone (ask_volume publishing target_v1) false []
    ≡ some (ask_server publishing target_v1 (volume_named "v1"), false, [])
unfolding advance
asked = refl

looked :
    advance crowded parse_zone (ask_server publishing target_v1 (volume_named "v1")) false []
    ≡ some (wait publishing target_v1 (volume_named "v1"), false, [])
unfolding advance
looked = refl

took :
    advance crowded parse_zone (wait publishing target_v1 (volume_named "v1")) false []
    ≡ some (hold publishing target_v1 (volume_named "v1"), true, [])
unfolding advance
took = refl

abbrev others : List Phase
others = begin (publication "fr-par-1/v2") ∷ []

reached : Reach crowded parse_zone start 4 with_lock
reached =
    then_step
      (then_step
        (then_step (then_step here (move [] _ others false [] _ false [] begun))
          (move [] _ others false [] _ false [] asked))
        (move [] _ others false [] _ false [] looked))
      (move [] _ others false [] _ true [] took)

Reach-holders_example : holders with_lock.requests ≡ taken with_lock.locked
Reach-holders_example = Reach-holders crowded parse_zone two [] reached

Reach-goes_on_example :
    (4 ≤ 6 * length two)
    × ((all_left with_lock.requests ≡ 0)
        ⊎ ((u : System crowded parse_zone) × Step crowded parse_zone with_lock u))
Reach-goes_on_example = Reach-goes_on crowded parse_zone two [] 4 with_lock reached
