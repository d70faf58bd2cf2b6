-- ===== src/Tests/Services.antt =====
-- Deletion, expansion and snapshots over the memory.
use scaleway_csi.Controller.Volumes.{volume_entry}
use scaleway_csi.Controller.Snapshots.Listing.{list_from, list_volumes-all}
use scaleway_csi.Base.{
  arith, map, ◌≡◌, refl, true, none, some, [], ◌∷◌, ok, err, status, invalid_argument,
}
use scaleway_csi.Base.Int.{pos, to_int64}
use scaleway_csi.Base.Text.{split}
use scaleway_csi.Base.Table.{lookup}
use scaleway_csi.Ids.{get_volume_id_and_zone, get_source_volume_id_and_zone, extract_id_and_zone}
use scaleway_csi.Capability.{validate_volume_capability}
use scaleway_csi.Capacity.{get_volume_request_capacity}
use scaleway_csi.Cloud.{Snapshot, get_volume_limits, get_snapshot_by_name}
use scaleway_csi.Controller.Sizing.{size_for}
use scaleway_csi.Controller.Create
use scaleway_csi.Controller.Create.{create_volume, check_request}
use scaleway_csi.Controller.Volumes
use scaleway_csi.Controller.Volumes.{delete_volume, delete_found, controller_expand_volume}
use scaleway_csi.Controller.Volumes.Deletion.{delete_volume_idempotent}
use scaleway_csi.Controller.Volumes.Growth.{Grown, controller_expand_volume-Grown}
use scaleway_csi.Controller.Snapshots
use scaleway_csi.Controller.Snapshots.{create_snapshot, snapshot_response}
use scaleway_csi.Ids.{Zone}
use scaleway_csi.Base.{false}
use scaleway_csi.Controller.Snapshots.Again.{SameButReady, create_snapshot_idempotent}
use scaleway_csi.Tests.Memory.{parse_zone, api, api-IsReadOnly, api-IsDeleting, api-IsSnapshotting}
use scaleway_csi.Tests.Data.{mounted, new_data, volume_on, with_volume}

read_v1 : get_volume_id_and_zone parse_zone "fr-par-1/v1" ≡ ok ("v1", "fr-par-1")
unfolding get_volume_id_and_zone extract_id_and_zone split
read_v1 = refl

delete_run : (delete_volume parse_zone api "fr-par-1/v1" (with_volume none)).0 ≡ ok tt
unfolding delete_volume get_volume_id_and_zone extract_id_and_zone split
delete_run = refl

delete_volume_idempotent_example :
    delete_volume parse_zone api "fr-par-1/v1"
      ((delete_volume parse_zone api "fr-par-1/v1" (with_volume none)).1)
    ≡ (ok tt, (delete_volume parse_zone api "fr-par-1/v1" (with_volume none)).1)
delete_volume_idempotent_example =
    delete_volume_idempotent api api-IsReadOnly parse_zone api-IsDeleting "fr-par-1/v1"
      (with_volume none) delete_run

abbrev to_three : Volumes.ExpandRequest
to_three = record {
  volume_id = "fr-par-1/v1";
  capacity_range = some (record { required_bytes = pos 3000000000; limit_bytes = pos 0 });
  volume_capability = some mounted;
}

expand_run :
    (controller_expand_volume parse_zone api to_three (with_volume none)).0
    ≡ ok (record { capacity_bytes = pos 3000000000; node_expansion_required = true })
unfolding controller_expand_volume get_volume_id_and_zone extract_id_and_zone split
    validate_volume_capability size_for get_volume_limits lookup get_volume_request_capacity
    to_int64
expand_run = refl

controller_expand_volume-Grown_example :
    Grown api api-IsReadOnly parse_zone to_three
      (with_volume none)
      (record { capacity_bytes = pos 3000000000; node_expansion_required = true })
controller_expand_volume-Grown_example =
    controller_expand_volume-Grown api api-IsReadOnly parse_zone to_three (with_volume none)
      expand_run

abbrev nameless : Create.Request
nameless = record new_data { name = "" }

nameless_check : check_request nameless ≡ err (status invalid_argument "name not provided")
unfolding check_request
nameless_check = refl

abbrev backup : Snapshot
backup = record {
  id = "s1";
  name = "backup";
  zone = "fr-par-1";
  size = 2000000000;
  state = "available";
  base_volume = some "v1";
  creation_date = none;
}

abbrev backup_of_v1 : Snapshots.CreateRequest
backup_of_v1 = record { source_volume_id = "fr-par-1/v1"; name = "backup" }

abbrev backup_made : Snapshots.Response
backup_made = record {
  size_bytes = pos 1000000000;
  snapshot_id = "fr-par-1/22222222-2222-2222-2222-222222222222";
  source_volume_id = "fr-par-1/v1";
  ready_to_use = false;
  creation_time = some 0;
}

snapshot_run : (create_snapshot parse_zone api backup_of_v1 (with_volume none)).0 ≡ ok backup_made
unfolding create_snapshot get_source_volume_id_and_zone extract_id_and_zone split
    get_snapshot_by_name to_int64
snapshot_run = refl

-- The snapshot is not ready in the first answer, and is when it was listed.
create_snapshot_idempotent_example :
    let w' = (create_snapshot parse_zone api backup_of_v1 (with_volume none)).1 in
    (zone : Zone) × (again : Snapshots.Response) × SameButReady backup_made again
    × (create_snapshot parse_zone api backup_of_v1 w'
        ≡ (ok again, (api.list_snapshots (some backup_of_v1.name) none zone w').1))
create_snapshot_idempotent_example =
    create_snapshot_idempotent api api-IsSnapshotting parse_zone backup_of_v1 (with_volume none)
      snapshot_run

list_volumes-all_example :
    list_from api 1 2 "" (with_volume none)
    ≡ (ok (map volume_entry (volume_on none ∷ [])), with_volume none)
list_volumes-all_example =
    list_volumes-all api api-IsReadOnly 1 (with_volume none) (volume_on none ∷ []) refl
      (omega arith) (omega arith)
