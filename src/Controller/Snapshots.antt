-- ===== src/Controller/Snapshots.antt =====
-- driver/controller.go: `CreateSnapshot`, `DeleteSnapshot`, `ListSnapshots` and `ListVolumes`.
pub mod Again
pub mod Listing
use scaleway_csi.Base.{
  ℕ, String, ◌<>◌, Bool, not, Option, none, some, List, [], ◌∷◌, if◌then◌else◌, map, Action, Result,
  ok, err, Failure, status, invalid_argument, internal, already_exists, ◌>>=◌, ◌>>◌, return, fail,
  lift, or_fail, refuse_if, attempt,
}
use scaleway_csi.Base.Int.{ℤ, to_int64}
use scaleway_csi.Base.Text.{same_text}
use scaleway_csi.Ids.{Zone, expand_id, get_snapshot_id_and_zone, get_source_volume_id_and_zone}
use scaleway_csi.Cloud.{
  InstanceApi, Snapshot, ApiError, resource_not_found, other_error, api_text, SnapshotLookupError,
  snapshot_not_found, snapshot_same_name, snapshots_failed, get_snapshot_by_name,
  expand_snapshot_id,
}
use scaleway_csi.Controller.Attach.{gone_is_done}
use scaleway_csi.Controller.Volumes.{Entry, volume_entry}
use scaleway_csi.Controller.Paging.{start_at, page}

pub record CreateRequest : Type 0 where
  pub source_volume_id : String
  pub name : String

-- `csi.Snapshot`
pub record Response : Type 0 where
  pub size_bytes : ℤ
  pub snapshot_id : String
  pub source_volume_id : String
  pub ready_to_use : Bool
  pub creation_time : Option ℕ

abbrev pub snapshot_response : (source_volume_id : String) → Snapshot → Response
snapshot_response source s = record {
  size_bytes = to_int64 s.size;
  snapshot_id = expand_snapshot_id s;
  source_volume_id = source;
  ready_to_use = same_text s.state "available";
  creation_time = s.creation_date;
}

-- The source volume of a listed snapshot.
abbrev source_of : Snapshot → Option String → String
source_of s none = ""
source_of s (some base) = expand_id s.zone base

abbrev pub listed_response : Snapshot → Response
listed_response s = snapshot_response (source_of s s.base_volume) s

pub record ListSnapshotsRequest : Type 0 where
  pub max_entries : ℤ
  pub starting_token : String
  pub snapshot_id : String
  pub source_volume_id : String

abbrev internally : ApiError → Failure
internally e = status internal (api_text e)

-- A snapshot that is not found is an empty list.
abbrev one_missing {ℓ} : {W : Type ℓ} → ApiError → Action W (List Response × String)
one_missing (resource_not_found _) = return ([], "")
one_missing (other_error text) = fail (status internal text)

-- An identifier whose error is ignored: both parts are empty then.
abbrev ignoring : Result Failure (String × Zone) → String × Zone
ignoring (ok r) = r
ignoring (err f) = ("", "")

module _ (parse_zone : String → Option Zone) (api : InstanceApi) where
  open api use {State}

  -- The error of the lookup by name: no such snapshot means that one is made.
  unfoldable pub snapshot_from :
      String → String → Zone → SnapshotLookupError → Action State Response
  snapshot_from name volume_id zone snapshot_not_found = do
    made ← or_fail (api.create_snapshot volume_id name zone) (λ e. status internal (api_text e))
    return (snapshot_response (expand_id zone volume_id) made)
  snapshot_from name volume_id zone snapshot_same_name =
      fail (status already_exists ("a snapshot with the name " <> (name <> " already exists")))
  snapshot_from name volume_id zone (snapshots_failed e) = fail (status internal (api_text e))

  unfoldable pub create_snapshot : CreateRequest → Action State Response
  unfolding snapshot_from
  create_snapshot req = do
    (volume_id, zone) ← lift (get_source_volume_id_and_zone parse_zone req.source_volume_id)
    refuse_if (same_text req.name "") (status invalid_argument "name not provided")
    attempt (get_snapshot_by_name api req.name volume_id zone)
        (snapshot_from req.name volume_id zone)
        (λ s. return (snapshot_response (expand_id zone volume_id) s))

  unfoldable pub delete_snapshot : (snapshot_id : String) → Action State (Unit {0})
  delete_snapshot given = do
    (snapshot_id, zone) ← lift (get_snapshot_id_and_zone parse_zone given)
    attempt (api.delete_snapshot snapshot_id zone) gone_is_done (λ _. return tt)

  -- The page of a list of snapshots.
  unfoldable pub snapshots_page : ℤ → ℤ → List Snapshot → Action State (List Response × String)
  snapshots_page n max snapshots = do
    (entries, next) ← lift (page n max snapshots)
    return (map listed_response entries, next)

  -- The three ways to list: one snapshot, those of a volume, or all.
  unfoldable pub listed : ListSnapshotsRequest → ℤ → Action State (List Response × String)
  unfolding snapshots_page
  listed req n =
      let (snapshot_id, snapshot_zone) =
        ignoring (get_snapshot_id_and_zone parse_zone req.snapshot_id) in
      let (volume_id, volume_zone) =
        ignoring (get_source_volume_id_and_zone parse_zone req.source_volume_id) in
      if not (same_text req.snapshot_id "")
      then attempt (api.get_snapshot snapshot_id snapshot_zone) one_missing
          (λ s. snapshots_page n req.max_entries (s ∷ []))
      else if not (same_text volume_id "")
      then (do
        snapshots ← or_fail (api.list_snapshots none (some volume_id) volume_zone) internally
        snapshots_page n req.max_entries snapshots)
      else (do
        snapshots ← or_fail (api.list_snapshots none none "") internally
        snapshots_page n req.max_entries snapshots)

  unfoldable pub list_snapshots : ListSnapshotsRequest → Action State (List Response × String)
  unfolding listed
  list_snapshots req = do n ← lift (start_at req.starting_token); listed req n

-- `ListVolumes`
module _ (api : InstanceApi) where
  open api use {State}

  unfoldable pub list_volumes :
      (max_entries : ℤ) → (starting_token : String) → Action State (List Entry × String)
  list_volumes max token = do
    n ← lift (start_at token)
    volumes ← or_fail (api.list_volumes none none) (λ e. status internal (api_text e))
    (entries, next) ← lift (page n max volumes)
    return (map volume_entry entries, next)
