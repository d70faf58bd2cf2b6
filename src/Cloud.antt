-- ===== src/Cloud.antt =====
-- scaleway/scaleway.go: the interface of the SDK's instance API, and the lookups over it.
-- The API is a parameter, with an unknown state that each call may change.
pub mod Laws
pub mod Lookup
use scaleway_csi.Base.{
  ℕ, String, ◌<>◌, Bool, true, false, ◌&&◌, ◌||◌, not, Option, none, some, List, [], ◌∷◌, ◌==◌,
  if◌then◌else◌, Call, Result, ok, err, ◌>>=◌, return, fail, attempt, lift,
}
use scaleway_csi.Base.Int.{ℤ, to_int64, to_uint64}
use scaleway_csi.Base.Text.{same_text}
use scaleway_csi.Base.Table.{Table, lookup}
use scaleway_csi.Ids.{Zone, expand_id}

-- The SDK's values, as far as the driver reads them. A server is named by its id.
pub record Volume : Type 0 where
  pub id : String
  pub name : String
  pub zone : Zone
  pub size : ℕ
  pub volume_type : String
  pub state : String
  pub server : Option String

-- The creation date is an instant that is only passed on.
pub record Snapshot : Type 0 where
  pub id : String
  pub name : String
  pub zone : Zone
  pub size : ℕ
  pub state : String
  pub base_volume : Option String
  pub creation_date : Option ℕ

-- The volumes of a server are a map from a slot to a volume's id.
pub record Server : Type 0 where
  pub id : String
  pub zone : Zone
  pub volumes : Table String

pub record CreateVolumeRequest : Type 0 where
  pub name : String
  pub volume_type : String
  pub size : Option ℕ
  pub base_snapshot : Option String
  pub zone : Zone

-- `*scw.ResourceNotFoundError` and all other errors, with their texts.
pub data ApiError : Type 0 where
  resource_not_found other_error : String → ApiError

abbrev pub api_text : ApiError → String
api_text (resource_not_found text) = text
api_text (other_error text) = text

-- `InstanceAPI`. The lists are those of all pages. `list_volumes` is asked without a zone, for which
-- the client takes its default zone. A call gives an error, or a response with what was asked for:
-- a response or an element that is nil is not modelled.
pub record InstanceApi : Type 1 where
  pub State : Type 0
  pub list_volumes :
      (name : Option String) → (volume_type : Option String) → Call State ApiError (List Volume)
  pub create_volume : CreateVolumeRequest → Call State ApiError Volume
  pub get_volume : (volume_id : String) → Zone → Call State ApiError Volume
  pub delete_volume : (volume_id : String) → Zone → Call State ApiError (Unit {0})
  pub get_server : (server_id : String) → Zone → Call State ApiError Server
  pub update_volume : (volume_id : String) → Zone → (size : ℕ) → Call State ApiError Volume
  pub attach_volume : (server_id volume_id : String) → Zone → Call State ApiError Server
  pub detach_volume : (volume_id : String) → Zone → Call State ApiError Server
  pub wait_for_volume : (volume_id : String) → Zone → Call State ApiError Volume
  pub get_snapshot : (snapshot_id : String) → Zone → Call State ApiError Snapshot
  pub list_snapshots :
      (name base_volume_id : Option String) → Zone → Call State ApiError (List Snapshot)
  pub create_snapshot : (volume_id name : String) → Zone → Call State ApiError Snapshot
  pub delete_snapshot : (snapshot_id : String) → Zone → Call State ApiError (Unit {0})
  -- The constraints of each volume type, its least and its greatest size.
  pub list_volumes_types : Call State ApiError (Table (Option (ℕ × ℕ)))

abbrev pub default_volume_type : String
default_volume_type = "b_ssd"

-- scaleway/utils.go
abbrev pub expand_snapshot_id : Snapshot → String
expand_snapshot_id s = expand_id s.zone s.id

abbrev pub expand_volume_id : Volume → String
expand_volume_id v = expand_id v.zone v.id

abbrev pub expand_server_id : Server → String
expand_server_id s = expand_id s.zone s.id

-- The errors of the lookups by name.
pub data VolumeLookupError : Type 0 where
  multiple_volumes different_size volume_not_found : VolumeLookupError
  volumes_failed : ApiError → VolumeLookupError

abbrev pub volume_lookup_text : VolumeLookupError → String
volume_lookup_text multiple_volumes = "multiple volumes exists with the same name"
volume_lookup_text different_size = "volume exists with a different size"
volume_lookup_text volume_not_found = "volume not found"
volume_lookup_text (volumes_failed e) = api_text e

pub data SnapshotLookupError : Type 0 where
  snapshot_not_found snapshot_same_name : SnapshotLookupError
  snapshots_failed : ApiError → SnapshotLookupError

-- What `GetVolumeByName` makes of the list of volumes.
unfoldable pub pick_volume : ℤ → List Volume → Result VolumeLookupError Volume
pick_volume size [] = err volume_not_found
pick_volume size (v ∷ []) = if not (v.size == to_uint64 size) then err different_size else ok v
pick_volume size (_ ∷ _ ∷ _) = err multiple_volumes

-- The test on the base volume of a snapshot.
abbrev pub from_volume : String → Option String → Bool
from_volume source none = true
from_volume source (some base) = same_text base source

-- The loop of `GetSnapshotByName`.
unfoldable pub pick_snapshot : String → String → List Snapshot → Result SnapshotLookupError Snapshot
pick_snapshot name source [] = err snapshot_not_found
pick_snapshot name source (s ∷ ss) =
    let rest = pick_snapshot name source ss in
    if same_text s.name name
    then (if from_volume source s.base_volume then ok s else err snapshot_same_name)
    else rest

-- `spec, ok := volumeTypes.Volumes[volumeType]; ok && spec.Constraints != nil`
unfoldable pub limits_of : String → Table (Option (ℕ × ℕ)) → Result ApiError (ℤ × ℤ)
limits_of volume_type types = elim (lookup volume_type types) [
  | some (some (least, greatest)) ↦ ok (to_int64 least, to_int64 greatest)
  | some none ↦ err (other_error ("volume type " <> (volume_type <> " not found")))
  | none ↦ err (other_error ("volume type " <> (volume_type <> " not found")))
]

module _ (api : InstanceApi) where
  open api use {State, list_volumes, list_snapshots, list_volumes_types}

  unfoldable pub get_volume_limits : String → Call State ApiError (ℤ × ℤ)
  unfolding limits_of
  get_volume_limits volume_type = do types ← list_volumes_types; lift (limits_of volume_type types)

  unfoldable pub get_volume_by_name : String → ℤ → String → Call State VolumeLookupError Volume
  unfolding pick_volume
  get_volume_by_name name size volume_type =
      attempt (list_volumes (some name) (some volume_type)) (λ e. fail (volumes_failed e))
        (λ volumes. lift (pick_volume size volumes))

  unfoldable pub get_snapshot_by_name :
      String → String → Zone → Call State SnapshotLookupError Snapshot
  unfolding pick_snapshot
  get_snapshot_by_name name source zone =
      attempt (list_snapshots (some name) none zone) (λ e. fail (snapshots_failed e))
        (λ snapshots. lift (pick_snapshot name source snapshots))
