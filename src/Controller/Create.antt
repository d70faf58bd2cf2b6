-- ===== src/Controller/Create.antt =====
-- driver/controller.go: `CreateVolume`.
pub mod Made
pub mod Repeat
pub mod Refusal
pub mod Size
pub mod Order
use scaleway_csi.Base.{
  ℕ, String, ◌<>◌, Bool, true, false, ◌&&◌, ◌||◌, Option, none, some, List, [], ◌∷◌, ◌++◌,
  if◌then◌else◌, Action, Result, ok, err, Failure, status, invalid_argument, internal,
  already_exists, not_found, out_of_range, ◌>>=◌, ◌>>◌, return, fail, lift, or_fail, checked,
  refuse_if, attempt,
}
use scaleway_csi.Base.Int.{ℤ, to_int64, to_uint64}
use scaleway_csi.Base.Text.{same_text, lowered_is, parse_bool, format_bool, join}
use scaleway_csi.Base.Table.{Table}
use scaleway_csi.Errors.{error_text}
use scaleway_csi.Csi.{VolumeCapability, CapacityRange, Segments, TopologyRequirement}
use scaleway_csi.Ids.{Zone, expand_id, get_snapshot_id_and_zone}
use scaleway_csi.Capability.{validate_volume_capabilities}
use scaleway_csi.Controller.Sizing.{size_for}
use scaleway_csi.Topology.{choose_zones, zone_topology_key, new_accessible_topology}
use scaleway_csi.Cloud.{
  InstanceApi, Volume, Snapshot, CreateVolumeRequest, ApiError, resource_not_found, other_error,
  api_text, VolumeLookupError, multiple_volumes, different_size, volume_not_found, volumes_failed,
  volume_lookup_text, get_volume_limits, get_volume_by_name, default_volume_type,
  expand_snapshot_id,
}

-- The type of a `volume_content_source`: a snapshot, whose message may be nil, or another.
pub data Source : Type 0 where
  snapshot_source : (snapshot : Option String) → Source
  other_source : Source

pub record Request : Type 0 where
  pub name : String
  pub volume_capabilities : List (Option VolumeCapability)
  pub parameters : Table String
  pub capacity_range : Option CapacityRange
  pub volume_content_source : Option Source
  pub accessibility_requirements : Option TopologyRequirement

-- The volume of the response; the content source is the id of a snapshot.
pub record Response : Type 0 where
  pub volume_id : String
  pub content_source : Option String
  pub capacity_bytes : ℤ
  pub accessible_topology : List Segments
  pub volume_context : Table String

abbrev pub encrypted_key : String
encrypted_key = "encrypted"

-- What the parameters set: the volume type and whether the volume is encrypted.
pub record Settings : Type 0 where
  pub volume_type : String
  pub encrypted : Bool

abbrev pub default_settings : Settings
default_settings = record { volume_type = default_volume_type; encrypted = false }

-- The text of `strconv.ParseBool`'s error, for a value that Go quotes as it is.
abbrev pub parse_bool_text : String → String
parse_bool_text value = "strconv.ParseBool: parsing \"" <> (value <> "\": invalid syntax")

-- One parameter.
unfoldable pub read_parameter : String × String → Settings → Result Failure Settings
read_parameter (key, value) s =
    if lowered_is key "type"
    then ok (record s { volume_type = value })
    else if lowered_is key "encrypted"
    then elim (parse_bool value) [
      | some b ↦ ok (record s { encrypted = b })
      | none ↦ err (
          status invalid_argument (
            "invalid bool value ("
            <> (value <> (") for parameter " <> (key <> (": " <> parse_bool_text value))))))
    ]
    else err (status invalid_argument ("invalid parameter key " <> key))

-- The loop over the parameters, in the order in which `range` visits them.
unfoldable pub read_parameters : Table String → Settings → Result Failure Settings
read_parameters [] s = ok s
read_parameters (p ∷ ps) s = elim (read_parameter p s) [
  | ok s' ↦ read_parameters ps s'
  | err f ↦ err f
]

-- `len(volumeCapabilities) == 0`
abbrev is_empty {ℓ} : {A : Type ℓ} → List A → Bool
is_empty [] = true
is_empty (_ ∷ _) = false

-- The nil slice is the empty list of a message.
abbrev pub slice_of {ℓ} : {A : Type ℓ} → List A → Option (List A)
slice_of [] = none
slice_of (x ∷ xs) = some (x ∷ xs)

-- The snapshot to start from: the id as given, the snapshot's zone and its expanded id.
pub record BaseSnapshot : Type 0 where
  pub id : String
  pub zone : Zone
  pub expanded : String

abbrev pub snapshot_zone : Option BaseSnapshot → Zone
snapshot_zone none = ""
snapshot_zone (some b) = b.zone

abbrev source_id : Option BaseSnapshot → Option String
source_id none = none
source_id (some b) = some b.expanded

abbrev pub context_of : Bool → Table String
context_of encrypted = (encrypted_key, format_bool encrypted) ∷ []

-- The response for a volume that is there already.
abbrev pub existing : Bool → Volume → Response
existing encrypted v = record {
  volume_id = expand_id v.zone v.id;
  content_source = none;
  capacity_bytes = to_int64 v.size;
  accessible_topology = new_accessible_topology v.zone;
  volume_context = context_of encrypted;
}

-- The response for a volume that was just created.
abbrev pub created : Bool → Option BaseSnapshot → Volume → Response
created encrypted base v = record {
  volume_id = expand_id v.zone v.id;
  content_source = source_id base;
  capacity_bytes = to_int64 v.size;
  accessible_topology = ((zone_topology_key, v.zone) ∷ []) ∷ [];
  volume_context = context_of encrypted;
}

-- The request to the API: the base snapshot if there is one, or else the size.
abbrev pub volume_request : String → String → ℤ → Option BaseSnapshot → Zone → CreateVolumeRequest
volume_request name volume_type size none zone = record {
  name = name;
  volume_type = volume_type;
  size = some (to_uint64 size);
  base_snapshot = none;
  zone = zone;
}
volume_request name volume_type size (some b) zone = record {
  name = name;
  volume_type = volume_type;
  size = none;
  base_snapshot = some b.id;
  zone = zone;
}

abbrev pub api_failure : ApiError → Failure
api_failure (resource_not_found text) = status not_found text
api_failure (other_error text) = status internal text

-- The checks of the request that need no call of the API.
unfoldable pub check_request : Request → Result Failure Settings
unfolding read_parameters read_parameter
check_request req =
    if same_text req.name ""
    then err (status invalid_argument "name not provided")
    else if is_empty req.volume_capabilities
    then err (status invalid_argument "volumeCapabilities not provided")
    else elim (validate_volume_capabilities (slice_of req.volume_capabilities)) [
      | err e ↦ err (status invalid_argument ("volumeCapabilities not supported: " <> error_text e))
      | ok _ ↦ read_parameters req.parameters default_settings
    ]

module _ (api : InstanceApi) where
  open api use {State}

  -- The loop over several zones, with the texts of the errors so far.
  unfoldable pub try_zones :
      (Zone → CreateVolumeRequest) → List Zone → List String → Action State Volume
  try_zones request [] errors =
      fail (status internal ("multiple error while trying different zones: " <> join errors "; "))
  try_zones request (zone ∷ zones) errors =
      attempt (api.create_volume (request zone))
        (λ e. try_zones request zones (errors ++ api_text e ∷ [])) (λ v. return v)

  -- One zone, the default zone of the client if none is chosen, or several.
  unfoldable pub create_in : (Zone → CreateVolumeRequest) → List Zone → Action State Volume
  create_in request [] = or_fail (api.create_volume (request "")) api_failure
  create_in request (zone ∷ []) = or_fail (api.create_volume (request zone)) api_failure
  create_in request (zone ∷ more ∷ zones) = try_zones request (zone ∷ more ∷ zones) []

module _ (parse_zone : String → Option Zone) (order : Table Zone → Table Zone)
    (api : InstanceApi) where
  open api use {State, get_snapshot}

  abbrev snapshot_failure : String → ApiError → Failure
  snapshot_failure id (resource_not_found _) =
      status not_found ("snapshot " <> (id <> " not found"))
  snapshot_failure id (other_error text) = status internal text

  -- The content source of the request.
  unfoldable pub read_source : Option Source → Action State (Option BaseSnapshot)
  read_source none = return none
  read_source (some other_source) =
      fail (status invalid_argument "unsupported volumeContentSource type")
  read_source (some (snapshot_source none)) =
      fail (status internal "error retrieving snapshot from the volumeContentSource")
  read_source (some (snapshot_source (some given))) = do
    (id, zone) ← lift (get_snapshot_id_and_zone parse_zone given)
    found ← or_fail (get_snapshot id zone) (snapshot_failure id)
    return (some (record { id = id; zone = found.zone; expanded = expand_snapshot_id found }))

  -- The zones, and the creation in one of them.
  unfoldable pub place :
      String → ℤ → Settings → Request → Option BaseSnapshot → Action State Response
  place name size s req base = do
    zones ← lift (choose_zones parse_zone order req.accessibility_requirements (snapshot_zone base))
    v ← create_in api (volume_request name s.volume_type size base) zones
    return (created s.encrypted base v)

  -- What follows when no volume of the name exists.
  unfoldable pub provision : String → ℤ → Settings → Request → Action State Response
  provision name size s req = read_source req.volume_content_source >>= place name size s req

  -- The switch on the error of the lookup.
  unfoldable pub after_lookup :
      String → ℤ → Settings → Request → VolumeLookupError → Action State Response
  after_lookup name size s req volume_not_found = provision name size s req
  after_lookup name size s req different_size =
      fail (status already_exists (volume_lookup_text different_size))
  after_lookup name size s req multiple_volumes =
      fail (status internal (volume_lookup_text multiple_volumes))
  after_lookup name size s req (volumes_failed e) = fail (status internal (api_text e))

  -- The lookup by name, and the response for a volume that exists.
  unfoldable pub find_or_create : String → ℤ → Settings → Request → Action State Response
  find_or_create name size s req =
      attempt (get_volume_by_name api name size s.volume_type) (after_lookup name size s req)
        (λ v. return (existing s.encrypted v))

  unfoldable pub create_volume : (prefix : String) → Request → Action State Response
  create_volume prefix req = do
    s ← lift (check_request req)
    size ← size_for api s.volume_type req.capacity_range
    find_or_create (prefix <> req.name) size s req
