-- ===== src/Controller/Volumes.antt =====
-- driver/controller.go: `DeleteVolume`, `ValidateVolumeCapabilities`, `ControllerExpandVolume`,
-- `ControllerGetVolume`, `GetCapacity` and `ControllerGetCapabilities`.
pub mod Deletion
pub mod Growth
use scaleway_csi.Base.{
  String, ◌<>◌, Bool, true, not, Option, none, some, List, [], ◌∷◌, map, Action, Result, ok, err,
  Failure, status, invalid_argument, internal, failed_precondition, unimplemented, ◌>>=◌, ◌>>◌,
  return, fail, lift, or_fail, refuse_if, require, attempt,
}
use scaleway_csi.Base.Int.{ℤ, less, to_int64, to_uint64}
use scaleway_csi.Base.Text.{same_text}
use scaleway_csi.Errors.{error_text}
use scaleway_csi.Csi.{AccessMode, VolumeCapability, CapacityRange, is_block}
use scaleway_csi.Ids.{Zone, expand_id, get_volume_id_and_zone}
use scaleway_csi.Capability.{validate_volume_capability}
use scaleway_csi.Controller.Sizing.{size_for}
use scaleway_csi.Cloud.{InstanceApi, Volume, api_text}
use scaleway_csi.Controller.Attach.{missing, gone_is_done}

pub record ExpandRequest : Type 0 where
  pub volume_id : String
  pub capacity_range : Option CapacityRange
  pub volume_capability : Option VolumeCapability

pub record ExpandResponse : Type 0 where
  pub capacity_bytes : ℤ
  pub node_expansion_required : Bool

-- A volume with the nodes on which it is published.
pub record Entry : Type 0 where
  pub volume_id : String
  pub capacity_bytes : ℤ
  pub published_node_ids : List String

abbrev published_on : Volume → Option String → List String
published_on v none = []
published_on v (some server) = expand_id v.zone server ∷ []

-- The entry of `ListVolumes` and of `ControllerGetVolume`.
abbrev pub volume_entry : Volume → Entry
volume_entry v = record {
  volume_id = expand_id v.zone v.id;
  capacity_bytes = to_int64 v.size;
  published_node_ids = published_on v v.server;
}

pub data ControllerCapability : Type 0 where
  create_delete_volume publish_unpublish_volume list_volumes : ControllerCapability
  create_delete_snapshot list_snapshots expand_volume : ControllerCapability
  list_volumes_published_nodes get_volume single_node_multi_writer : ControllerCapability

abbrev pub controller_capabilities : List ControllerCapability
controller_capabilities =
    create_delete_volume ∷ publish_unpublish_volume ∷ list_volumes ∷ create_delete_snapshot
    ∷ list_snapshots ∷ expand_volume ∷ list_volumes_published_nodes ∷ get_volume
    ∷ single_node_multi_writer ∷ []

module _ (parse_zone : String → Option Zone) (api : InstanceApi) where
  open api use {State}

  -- What follows when the volume was found.
  unfoldable pub delete_found : Volume → Action State (Unit {0})
  delete_found volume = elim (volume.server) [
    | some _ ↦ fail (status failed_precondition "volume is still atached to a server")
    | none ↦ attempt (api.delete_volume volume.id volume.zone) gone_is_done (λ _. return tt)
  ]

  unfoldable pub delete_volume : (volume_id : String) → Action State (Unit {0})
  unfolding delete_found
  delete_volume given = do
    (volume_id, volume_zone) ← lift (get_volume_id_and_zone parse_zone given)
    attempt (api.get_volume volume_id volume_zone) gone_is_done delete_found

  -- The one capability of the response is its access mode. `none` is the nil slice.
  unfoldable pub validate_capabilities :
      (volume_id : String)
      → Option (List (Option VolumeCapability))
      → Action State (List AccessMode)
  validate_capabilities given capabilities = do
    (volume_id, volume_zone) ← lift (get_volume_id_and_zone parse_zone given)
    _ ← require capabilities (status invalid_argument "volumeCapabilities is not provided")
    _ ←
        or_fail (api.get_volume volume_id volume_zone)
          (missing ("volume " <> (volume_id <> " not found")))
    return (AccessMode.single_node_writer ∷ [])

  -- Whether the node has to expand the file system: not for a block volume.
  unfoldable pub check_capability : Option VolumeCapability → Result Failure Bool
  check_capability none = ok true
  check_capability (some c) = elim (validate_volume_capability (some c)) [
    | err e ↦ err (status invalid_argument ("volumeCapabilities not supported: " <> error_text e))
    | ok _ ↦ ok (not (is_block c.access_type))
  ]

  unfoldable pub controller_expand_volume : ExpandRequest → Action State ExpandResponse
  unfolding check_capability
  controller_expand_volume req = do
    (volume_id, volume_zone) ← lift (get_volume_id_and_zone parse_zone req.volume_id)
    on_node ← lift (check_capability req.volume_capability)
    volume ←
        or_fail (api.get_volume volume_id volume_zone)
          (missing ("volume " <> (volume_id <> " not found")))
    size ← size_for api volume.volume_type req.capacity_range
    refuse_if (less size (to_int64 volume.size))
        (status invalid_argument "the new size of the volume will be less than the actual size")
    _ ←
        or_fail (api.update_volume volume_id volume_zone (to_uint64 size))
          (λ e. status internal (api_text e))
    grown ← or_fail (api.wait_for_volume volume_id volume_zone) (λ e. status internal (api_text e))
    refuse_if (not (same_text grown.state "available"))
        (status internal ("volume " <> (volume_id <> (" is in state " <> grown.state))))
    return (record { capacity_bytes = size; node_expansion_required = on_node })

  unfoldable pub controller_get_volume : (volume_id : String) → Action State Entry
  controller_get_volume given = do
    (volume_id, volume_zone) ← lift (get_volume_id_and_zone parse_zone given)
    volume ←
        or_fail (api.get_volume volume_id volume_zone)
          (missing ("volume " <> (volume_id <> " not found")))
    return (volume_entry volume)

  unfoldable pub get_capacity : Action State (Unit {0})
  get_capacity = fail (status unimplemented "GetCapacity is not yet implemented")

  unfoldable pub controller_get_capabilities : Action State (List ControllerCapability)
  controller_get_capabilities =
      return (map (λ (c : ControllerCapability). c) controller_capabilities)
