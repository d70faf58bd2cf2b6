-- ===== src/Tests/Lived.antt =====
-- A volume created, attached and staged, on an API whose one volume has a fixed id, zone and name.
use scaleway_csi.Controller.Attach.{attach}
use scaleway_csi.Controller.Attach.{publish_to}
use scaleway_csi.Controller.Attach.{look_up}
use scaleway_csi.Capability.{validate_volume_capabilities}
use scaleway_csi.Ids.{get_node_id_and_zone}
use scaleway_csi.Base.Text.{split}
use scaleway_csi.Ids.{extract_id_and_zone}
use scaleway_csi.Ids.{get_volume_id_and_zone}
use scaleway_csi.Controller.Attach.{check_publish}
use text.Mathlib.TextEquality.{eq_iff}
use scaleway_csi.Base.{
  String, ◌≡◌, ◌≢◌, refl, ap, Bool, true, false, Option, none, some, List, [], ◌∷◌, All, arith,
  Result, ok, err, subst, ok-injective, sym, ◌∙◌,
}
use scaleway_csi.Base.Text.{same_text, differ}
use scaleway_csi.Base.Int.{pos}
use scaleway_csi.Topology.{zone_topology_key}
use scaleway_csi.Ids.{expand_id}
use scaleway_csi.Cloud.{InstanceApi, Volume, ApiError, resource_not_found, other_error}
use scaleway_csi.Base.Table.{lookup, insert, erase}
use scaleway_csi.Base.Text.{lowered_is, parse_bool, split}
use scaleway_csi.Base.Int.{to_int64, to_uint64}
use scaleway_csi.Controller.Sizing.{size_for}
use scaleway_csi.Controller.Create.{
  find_or_create, after_lookup, provision, read_source, place, create_in, try_zones,
  read_parameters,
}
use scaleway_csi.Cloud.{get_volume_limits, get_volume_by_name}
use scaleway_csi.Topology.{choose_zones}
use scaleway_csi.Capability.{validate_volume_capabilities}
use scaleway_csi.Capacity.{get_volume_request_capacity}
use scaleway_csi.Controller.Create
use scaleway_csi.Controller.Create.{create_volume, check_request}
use scaleway_csi.Controller.Attach.{controller_publish_volume, publish_context}
use scaleway_csi.Node.Stage.{check_stage}
use scaleway_csi.Lifecycle.{IsKnown, IsNaming}
use scaleway_csi.Lifecycle.Handed.{check_stage-create_volume, publish_of, stage_of, staging_of}
use scaleway_csi.Tests.Memory.{parse_zone, server_of}
use scaleway_csi.Tests.Data.{mounted, new_data, volume_on}

-- Whether the volume is there, and its server.
abbrev State : Type 0
State = Option (Option String)

abbrev listed_in : State → List Volume
listed_in none = []
listed_in (some server) = volume_on server ∷ []

abbrev found_in : Bool → State → Result ApiError Volume
found_in true (some server) = ok (volume_on server)
found_in true none = err (resource_not_found "no such volume")
found_in false w = err (resource_not_found "no such volume")

abbrev no_call {ℓ} : {A : Type ℓ} → State → Result ApiError A × State
no_call w = (err (other_error "not called"), w)

abbrev single : InstanceApi
single = record {
  State = State;
  list_volumes = λ name type w. (ok (listed_in w), w);
  create_volume = λ r w. (ok (volume_on none), some none);
  get_volume = λ id zone w. (found_in (same_text id "v1") w, w);
  delete_volume = λ id zone. no_call;
  get_server = λ id zone w. (ok (server_of id zone), w);
  update_volume = λ id zone n. no_call;
  attach_volume = λ server id zone w. (ok (server_of server zone), some (some server));
  detach_volume = λ id zone. no_call;
  wait_for_volume = λ id zone. no_call;
  get_snapshot = λ id zone. no_call;
  list_snapshots = λ name base zone. no_call;
  create_snapshot = λ volume name zone. no_call;
  delete_snapshot = λ id zone. no_call;
  list_volumes_types = λ w. (ok (("b_ssd", some (1000000000, 10000000000000)) ∷ []), w);
}

volume_on-IsKnown : (server : Option String) → IsKnown parse_zone (volume_on server)
volume_on-IsKnown server = record {
  zone_plain = ground arith;
  id_plain = ground arith;
  zone_known = refl;
}

listed_in-All : (w : State) → All (IsKnown parse_zone) (listed_in w)
listed_in-All none = tt
listed_in-All (some server) = (volume_on-IsKnown server, tt)

found_in-named :
    (b : Bool) (w : State) (v : Volume)
    → found_in b w ≡ ok v
    → (b ≡ true) × (v.id ≡ "v1") × (v.name ≡ "data")
found_in-named true (some server) v e =
    (refl, ap (λ v. v.id) (sym (ok-injective e)), ap (λ v. v.name) (sym (ok-injective e)))
found_in-named true none v e = cc
found_in-named false w v e = cc

found_in-id :
    (id : String) (w : State) (v : Volume)
    → found_in (same_text id "v1") w ≡ ok v
    → (v.id ≡ id) × (v.name ≢ "")
found_in-id id w v e =
    let (same, id_is, name_is) = found_in-named (same_text id "v1") w v e in
    (id_is ∙ sym ((eq_iff id "v1").0 same), subst (λ n. n ≢ "") (sym name_is) (differ refl))

single-IsNaming : IsNaming parse_zone single
single-IsNaming = record {
  listed_known =
      λ name type w vs e. subst (All (IsKnown parse_zone)) (ok-injective e) (listed_in-All w);
  created_known = λ r w v e. subst (IsKnown parse_zone) (ok-injective e) (volume_on-IsKnown none);
  found_id = λ id zone w v e. found_in-id id w v e;
}

abbrev made : Create.Response
made = record {
  volume_id = "fr-par-1/v1";
  content_source = none;
  capacity_bytes = pos 2000000000;
  accessible_topology = ((zone_topology_key, "fr-par-1") ∷ []) ∷ [];
  volume_context = ("encrypted", "true") ∷ [];
}

create_volume-single :
    create_volume parse_zone (λ m. m) single "csi-" new_data none ≡ (ok made, some none)
unfolding create_volume check_request size_for find_or_create after_lookup provision read_source
    place create_in try_zones get_volume_limits get_volume_by_name choose_zones
    validate_volume_capabilities get_volume_request_capacity read_parameters lowered_is parse_bool
    lookup to_int64 insert erase to_uint64
create_volume-single = refl

controller_publish_volume-single :
    controller_publish_volume single parse_zone (publish_of made "fr-par-1/n1" mounted) (some none)
    ≡ (ok (publish_context (volume_on none)), some (some "n1"))
unfolding controller_publish_volume check_publish get_volume_id_and_zone extract_id_and_zone split
    get_node_id_and_zone validate_volume_capabilities look_up publish_to attach
controller_publish_volume-single = refl

check_stage-create_volume_example :
    (s : Create.Settings) × (v : Volume) × (check_request new_data ≡ ok s)
    × ("fr-par-1/v1" ≡ expand_id v.zone v.id)
    × (check_stage parse_zone
          (stage_of made (publish_context (volume_on none)) [] "/staging" mounted)
        ≡ ok (staging_of v s mounted))
check_stage-create_volume_example =
    check_stage-create_volume parse_zone (λ m. m) single single-IsNaming "csi-" new_data none
      (ap (λ r. r.0) create_volume-single) "fr-par-1/n1" mounted (some none)
      (publish_context (volume_on none)) (ap (λ r. r.0) controller_publish_volume-single) []
      "/staging" (differ refl)
