-- ===== src/Tests/Handlers.antt =====
-- The handlers on concrete requests, over the memory.
use scaleway_csi.Base.{
  String, ◌≡◌, refl, ap, none, some, [], ◌∷◌, ok, err, status, failed_precondition,
}
use scaleway_csi.Cloud.{Volume}
use scaleway_csi.Ids.{get_volume_id_and_zone, get_node_id_and_zone, extract_id_and_zone}
use scaleway_csi.Controller.Create
use scaleway_csi.Controller.Create.{
  create_volume, check_request, find_or_create, after_lookup, provision, read_source, place,
  create_in, try_zones, read_parameters,
}
use scaleway_csi.Controller.Sizing.{size_for}
use scaleway_csi.Cloud.{get_volume_limits, get_volume_by_name}
use scaleway_csi.Topology.{zone_topology_key, choose_zones}
use scaleway_csi.Capability.{validate_volume_capabilities}
use scaleway_csi.Capacity.{get_volume_request_capacity}
use scaleway_csi.Base.Int.{ℤ, pos, to_int64, to_uint64}
use scaleway_csi.Base.Text.{lowered_is, parse_bool, split, differ}
use scaleway_csi.Base.Table.{lookup, insert, erase}
use scaleway_csi.Controller.Create.Size.{create_volume-size}
use scaleway_csi.Controller.Create.Repeat.{create_volume_idempotent}
use scaleway_csi.Controller.Attach.{
  Target, controller_publish_volume, controller_unpublish_volume, check_publish, read_target,
  publish_context, publish_to, attach, look_up, detach,
}
use scaleway_csi.Controller.Attach.Refusals.{controller_publish_volume_elsewhere}
use scaleway_csi.Controller.Attach.Laws.{
  Attached, controller_publish_volume-Attached, controller_publish_volume_idempotent,
}
use scaleway_csi.Controller.Attach.Release.{
  Released, controller_unpublish_volume-Released, controller_unpublish_volume_idempotent,
  unpublish_other_node,
}
use scaleway_csi.Tests.Memory.{
  parse_zone, server_of, api, api-IsReadOnly, api-IsAttaching, api-IsCreating,
}
use scaleway_csi.Tests.Data.{
  new_data, volume_on, with_volume, empty_memory, publish_on, unpublish_from, target_on,
}

-- The volume that is made, and what the response says of it.
abbrev made_data : Create.Response
made_data = record {
  volume_id = "fr-par-2/11111111-1111-1111-1111-111111111111";
  content_source = none;
  capacity_bytes = pos 2000000000;
  accessible_topology = ((zone_topology_key, "fr-par-2") ∷ []) ∷ [];
  volume_context = ("encrypted", "true") ∷ [];
}

create_volume_run :
    (create_volume parse_zone (λ m. m) api "csi-" new_data empty_memory).0 ≡ ok made_data
unfolding create_volume check_request size_for find_or_create after_lookup provision read_source
    place create_in try_zones get_volume_limits get_volume_by_name choose_zones
    validate_volume_capabilities get_volume_request_capacity read_parameters lowered_is parse_bool
    lookup to_int64 insert erase to_uint64
create_volume_run = refl

create_volume-size_example :
    (s : Create.Settings) × (lo hi size : ℤ) × (check_request new_data ≡ ok s)
    × ((get_volume_limits api s.volume_type empty_memory).0 ≡ ok (lo, hi))
    × (get_volume_request_capacity lo hi new_data.capacity_range ≡ ok size)
    × (pos 2000000000 ≡ to_int64 (to_uint64 size))
create_volume-size_example =
    create_volume-size api api-IsReadOnly "fr-par-2" api-IsCreating parse_zone (λ m. m) "csi-"
      new_data empty_memory refl create_volume_run

create_volume_idempotent_example :
    create_volume parse_zone
      (λ m. m)
      api
      "csi-"
      new_data
      ((create_volume parse_zone (λ m. m) api "csi-" new_data empty_memory).1)
    ≡ (ok made_data, (create_volume parse_zone (λ m. m) api "csi-" new_data empty_memory).1)
create_volume_idempotent_example =
    create_volume_idempotent api api-IsReadOnly "fr-par-2" api-IsCreating parse_zone (λ m. m) "csi-"
      new_data empty_memory refl create_volume_run refl

publish_run :
    controller_publish_volume api parse_zone (publish_on "fr-par-1/n1") (with_volume none)
    ≡ (ok (publish_context (volume_on none)), with_volume (some "n1"))
unfolding controller_publish_volume check_publish look_up publish_to attach
    validate_volume_capabilities get_volume_id_and_zone get_node_id_and_zone extract_id_and_zone
    split
publish_run = refl

controller_publish_volume-Attached_example :
    (t : Target) × (v : Volume) × (check_publish parse_zone (publish_on "fr-par-1/n1") ≡ ok t)
    × (publish_context (volume_on none) ≡ publish_context v)
    × Attached api api-IsReadOnly api-IsAttaching t v
        ((controller_publish_volume api parse_zone (publish_on "fr-par-1/n1") (with_volume none)).1)
controller_publish_volume-Attached_example =
    controller_publish_volume-Attached api api-IsReadOnly api-IsAttaching parse_zone
      (publish_on "fr-par-1/n1") (with_volume none) (ap (λ r. r.0) publish_run)

controller_publish_volume_idempotent_example :
    controller_publish_volume api parse_zone
      (publish_on "fr-par-1/n1")
      ((controller_publish_volume api parse_zone (publish_on "fr-par-1/n1") (with_volume none)).1)
    ≡ (
      ok (publish_context (volume_on none)),
      (controller_publish_volume api parse_zone (publish_on "fr-par-1/n1") (with_volume none)).1,
    )
controller_publish_volume_idempotent_example =
    controller_publish_volume_idempotent api api-IsReadOnly api-IsAttaching parse_zone
      (publish_on "fr-par-1/n1") (with_volume none) (ap (λ r. r.0) publish_run)

checked_n1 : check_publish parse_zone (publish_on "fr-par-1/n1") ≡ ok (target_on "n1")
unfolding check_publish validate_volume_capabilities get_volume_id_and_zone get_node_id_and_zone
    extract_id_and_zone split
checked_n1 = refl

checked_full : check_publish parse_zone (publish_on "fr-par-1/full") ≡ ok (target_on "full")
unfolding check_publish validate_volume_capabilities get_volume_id_and_zone get_node_id_and_zone
    extract_id_and_zone split
checked_full = refl

target_n1 : read_target parse_zone "fr-par-1/v1" "fr-par-1/n1" ≡ ok (target_on "n1")
unfolding read_target get_volume_id_and_zone get_node_id_and_zone extract_id_and_zone split
target_n1 = refl

controller_publish_volume_elsewhere_example :
    (text : String) × (controller_publish_volume api parse_zone
        (publish_on "fr-par-1/n1")
        (with_volume (some "n2"))
      ≡ (err (status failed_precondition text), with_volume (some "n2")))
controller_publish_volume_elsewhere_example =
    controller_publish_volume_elsewhere api api-IsReadOnly api-IsAttaching parse_zone
      (publish_on "fr-par-1/n1") (with_volume (some "n2")) (target_on "n1") (volume_on (some "n2"))
      (server_of "n1" "fr-par-1") "n2" checked_n1 refl refl refl (differ refl)

unpublish_run :
    controller_unpublish_volume api parse_zone
      (unpublish_from "fr-par-1/n1")
      (with_volume (some "n1"))
    ≡ (ok tt, with_volume none)
unfolding controller_unpublish_volume read_target detach get_volume_id_and_zone get_node_id_and_zone
    extract_id_and_zone split
unpublish_run = refl

controller_unpublish_volume-Released_example :
    (t : Target) × (read_target parse_zone "fr-par-1/v1" "fr-par-1/n1" ≡ ok t)
    × Released api api-IsReadOnly api-IsAttaching t (with_volume (some "n1")) (
        (controller_unpublish_volume api parse_zone
          (unpublish_from "fr-par-1/n1")
          (with_volume (some "n1"))).1)
controller_unpublish_volume-Released_example =
    controller_unpublish_volume-Released api api-IsReadOnly api-IsAttaching parse_zone
      (unpublish_from "fr-par-1/n1") (with_volume (some "n1")) (ap (λ r. r.0) unpublish_run)

controller_unpublish_volume_idempotent_example :
    controller_unpublish_volume api parse_zone (unpublish_from "fr-par-1/n1") (
      (controller_unpublish_volume api parse_zone
        (unpublish_from "fr-par-1/n1")
        (with_volume (some "n1"))).1)
    ≡ (
      ok tt,
      (controller_unpublish_volume api parse_zone
          (unpublish_from "fr-par-1/n1")
          (with_volume (some "n1"))).1,
    )
controller_unpublish_volume_idempotent_example =
    controller_unpublish_volume_idempotent api api-IsReadOnly api-IsAttaching parse_zone
      (unpublish_from "fr-par-1/n1") (with_volume (some "n1")) (ap (λ r. r.0) unpublish_run)

unpublish_other_node_example :
    ((controller_unpublish_volume api parse_zone
        (unpublish_from "fr-par-1/n1")
        (with_volume (some "n2"))).0
      ≡ ok tt)
    × ((api.get_volume "v1" "fr-par-1" (
          (controller_unpublish_volume api parse_zone
            (unpublish_from "fr-par-1/n1")
            (with_volume (some "n2"))).1)).0
        ≡ ok (volume_on none))
unpublish_other_node_example =
    unpublish_other_node api api-IsReadOnly api-IsAttaching parse_zone
      (unpublish_from "fr-par-1/n1") (with_volume (some "n2")) (target_on "n1")
      (volume_on (some "n2")) (server_of "n1" "fr-par-1") (server_of "s" "fr-par-1") "n2" target_n1
      refl refl refl (differ refl) refl
