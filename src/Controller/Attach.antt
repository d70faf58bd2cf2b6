-- ===== src/Controller/Attach.antt =====
-- driver/controller.go: `ControllerPublishVolume` and `ControllerUnpublishVolume`.
-- A handler runs alone here, so `d.mux`, which keeps the attachments and detachments of one process
-- apart, has no part; Controller.Interleaved has it.
pub mod Laws
pub mod Refusals
pub mod Limit
pub mod Release
use scaleway_csi.Base.{
  ℕ, String, ◌<>◌, Bool, true, false, not, Option, none, some, List, [], ◌∷◌, ◌==◌, length,
  if◌then◌else◌, Action, Result, ok, err, Failure, status, invalid_argument, internal, not_found,
  failed_precondition, resource_exhausted, ◌>>=◌, ◌>>◌, return, fail, lift, or_fail, checked,
  refuse_if, require, attempt,
}
use scaleway_csi.Base.Text.{same_text}
use scaleway_csi.Base.Table.{Table}
use scaleway_csi.Errors.{error_text}
use scaleway_csi.Csi.{VolumeCapability}
use scaleway_csi.Ids.{Zone, get_volume_id_and_zone, get_node_id_and_zone}
use scaleway_csi.Capability.{validate_volume_capabilities}
use scaleway_csi.Limits.{max_volumes_per_node}
use scaleway_csi.Cloud.{
  InstanceApi, Volume, Server, ApiError, resource_not_found, other_error, api_text,
}

pub record PublishRequest : Type 0 where
  pub volume_id : String
  pub node_id : String
  pub volume_capability : Option VolumeCapability

pub record UnpublishRequest : Type 0 where
  pub volume_id : String
  pub node_id : String

abbrev pub scw_volume_id : String
scw_volume_id = "csi.scaleway.com/volume-id"

abbrev pub scw_volume_name : String
scw_volume_name = "csi.scaleway.com/volume-name"

abbrev pub scw_volume_zone : String
scw_volume_zone = "csi.scaleway.com/volume-zone"

-- The publish context of a volume.
abbrev pub publish_context : Volume → Table String
publish_context v =
    (scw_volume_name, v.name) ∷ (scw_volume_id, v.id) ∷ (scw_volume_zone, v.zone) ∷ []

-- `NotFound` with the text given, or `Internal` with the API's.
abbrev pub missing : String → ApiError → Failure
missing text (resource_not_found _) = status not_found text
missing text (other_error e) = status internal e

-- An error of the API is success if it says that nothing is there, and `Internal` if not.
abbrev pub gone_is_done {ℓ} : {W : Type ℓ} → ApiError → Action W (Unit {0})
gone_is_done (resource_not_found _) = return tt
gone_is_done (other_error text) = fail (status internal text)

-- The two identifiers of a request, read.
pub record Target : Type 0 where
  pub volume_id : String
  pub volume_zone : Zone
  pub node_id : String
  pub node_zone : Zone

-- What the API says of the two.
pub record Found : Type 0 where
  pub volume : Volume
  pub server : Server

-- The check of the capability, which may be nil.
abbrev check_published : Option VolumeCapability → Result Failure (Unit {0})
check_published none = err (status invalid_argument "volumeCapability is not provided")
check_published (some c) = elim (validate_volume_capabilities (some (some c ∷ []))) [
  | ok _ ↦ ok tt
  | err e ↦ err (status invalid_argument ("volumeCapability not supported: " <> error_text e))
]

module _ (parse_zone : String → Option Zone) where
  -- The volume's identifier is read first.
  unfoldable pub read_target : (volume node : String) → Result Failure Target
  read_target volume node = elim (get_volume_id_and_zone parse_zone volume) [
    | err f ↦ err f
    | ok (v, vz) ↦ elim (get_node_id_and_zone parse_zone node) [
      | err f ↦ err f
      | ok (n, nz) ↦ ok (record { volume_id = v; volume_zone = vz; node_id = n; node_zone = nz })
    ]
  ]

  -- The checks that need no call of the API.
  unfoldable pub check_publish : PublishRequest → Result Failure Target
  unfolding read_target
  check_publish req = elim (read_target req.volume_id req.node_id) [
    | err f ↦ err f
    | ok t ↦ elim (check_published req.volume_capability) [ err f ↦ err f | ok _ ↦ ok t ]
  ]

module _ (api : InstanceApi) where
  open api use {State, get_volume, get_server, attach_volume, detach_volume}

  -- The volume, then the node.
  unfoldable pub look_up : Target → Action State Found
  look_up t = do
    volume ←
        or_fail (get_volume t.volume_id t.volume_zone)
          (missing ("volume " <> (t.volume_id <> " not found")))
    server ←
        or_fail (get_server t.node_id t.node_zone)
          (missing ("instance " <> (t.volume_id <> " not found")))
    return (record { volume = volume; server = server })

  -- The tests before an attachment, and the attachment.
  unfoldable pub attach : Target → Found → Action State (Table String)
  attach t f = do
    refuse_if (length f.server.volumes == max_volumes_per_node)
        (status resource_exhausted "max number of volumes for this instance")
    refuse_if (not (same_text f.volume.zone f.server.zone))
        (status invalid_argument "volume and node are not in the same zone")
    _ ←
        or_fail (attach_volume t.node_id t.volume_id f.volume.zone)
          (λ e. status internal (api_text e))
    return (publish_context f.volume)

  -- The test on the server that the volume is attached to.
  unfoldable pub publish_to : Target → Found → Action State (Table String)
  publish_to t f = elim (f.volume.server) [
    | none ↦ attach t f
    | some holder ↦
        if same_text holder f.server.id
        then return (publish_context f.volume)
        else fail (
            status failed_precondition
              ("volume " <> (t.volume_id <> (" already attached to another node " <> holder))))
  ]

  unfoldable pub controller_publish_volume :
      (String → Option Zone) → PublishRequest → Action State (Table String)
  controller_publish_volume parse_zone req = do
    t ← lift (check_publish parse_zone req)
    f ← look_up t
    publish_to t f

  -- The test on the volume's server, the look at the node, and the detachment.
  unfoldable pub detach : Target → Volume → Action State (Unit {0})
  detach t volume = elim (volume.server) [
    | none ↦ return tt
    | some _ ↦ attempt (get_server t.node_id t.node_zone) gone_is_done λ _. do
      _ ← or_fail (detach_volume t.volume_id volume.zone) (λ e. status internal (api_text e))
      return tt
  ]

  unfoldable pub controller_unpublish_volume :
      (String → Option Zone) → UnpublishRequest → Action State (Unit {0})
  controller_unpublish_volume parse_zone req = do
    t ← lift (read_target parse_zone req.volume_id req.node_id)
    attempt (get_volume t.volume_id t.volume_zone) gone_is_done (detach t)
