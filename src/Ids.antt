-- ===== src/Ids.antt =====
-- driver/helpers.go: the identifiers `zone/id` of volumes, snapshots and nodes; scaleway/utils.go:
-- how they are written.
pub mod Format
use scaleway_csi.Base.{String, ◌<>◌, Option, none, some, List, [], ◌∷◌, if◌then◌else◌}
use scaleway_csi.Base.{Result, ok, err, Failure, status, panic, invalid_argument}
use scaleway_csi.Base.Text.{split, same_text}

-- `scw.Zone`, a named string type.
abbrev pub Zone : Type 0
Zone = String

-- `zone.String() + "/" + id`
abbrev pub expand_id : Zone → String → String
expand_id zone id = zone <> ("/" <> id)

-- `scw.ParseZone` is the SDK's; its error is not read.
module _ (parse_zone : String → Option Zone) where
  -- The branches on the parts of the identifier.
  unfoldable pub zone_and_id : String → List String → Result Failure (String × Zone)
  zone_and_id name [] = err (panic "index out of range")
  zone_and_id name (id ∷ []) = ok (id, "")
  zone_and_id name (zone ∷ id ∷ []) = elim (parse_zone zone) [
    | none ↦ ok (id, "")
    | some z ↦ ok (id, z)
  ]
  zone_and_id name (_ ∷ _ ∷ _ ∷ _) = err (status invalid_argument ("wrong format for " <> name))

  unfoldable pub extract_id_and_zone : String → String → Result Failure (String × Zone)
  unfolding zone_and_id
  extract_id_and_zone id name =
      if same_text id ""
      then err (status invalid_argument (name <> " is not provided"))
      else zone_and_id name (split b'/' id)

  unfoldable pub get_snapshot_id_and_zone : String → Result Failure (String × Zone)
  get_snapshot_id_and_zone id = extract_id_and_zone id "snapshotID"

  unfoldable pub get_source_volume_id_and_zone : String → Result Failure (String × Zone)
  get_source_volume_id_and_zone id = extract_id_and_zone id "sourceVolumeID"

  unfoldable pub get_volume_id_and_zone : String → Result Failure (String × Zone)
  get_volume_id_and_zone id = extract_id_and_zone id "volumeID"

  unfoldable pub get_node_id_and_zone : String → Result Failure (String × Zone)
  get_node_id_and_zone id = extract_id_and_zone id "nodeID"
