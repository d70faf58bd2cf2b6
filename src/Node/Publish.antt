-- ===== src/Node/Publish.antt =====
-- driver/node.go: `NodePublishVolume` and `NodeUnpublishVolume`; driver/helpers.go:
-- `createMountPoint`.
pub mod Mode
use scaleway_csi.Base.{
  String, ◌<>◌, Bool, true, false, ◌&&◌, ◌||◌, not, Option, none, some, List, [], ◌∷◌, ◌++◌,
  if◌then◌else◌, Call, Action, Result, ok, err, Failure, status, invalid_argument, internal,
  not_found, already_exists, failed_precondition, ◌>>=◌, ◌>>◌, return, fail, lift, or_fail,
  refuse_if, attempt, ℕ,
}
use scaleway_csi.Base.Int.{ℤ, pos, same}
use scaleway_csi.Base.Text.{same_text}
use scaleway_csi.Base.Table.{Table, lookup}
use scaleway_csi.Csi.{
  VolumeCapability, AccessType, block_access, unset_access, mount_access, is_block, is_mount,
}
use scaleway_csi.Ids.{Zone, get_volume_id_and_zone}
use scaleway_csi.Controller.Attach.{scw_volume_id, scw_volume_name}
use scaleway_csi.Disk.{
  DiskError, not_exist, failed, crashed, exited, disk_text, DiskUtils, MountInfo, Host,
}
use scaleway_csi.Node.Requests.{PublishRequest, internally, is_encrypted_volume, given_capability}

-- What the checks of a publish request give.
pub record Publishing : Type 0 where
  pub volume_id : String
  pub capability : VolumeCapability
  pub scw_id : String

-- The two names of the publish context, with the texts of the errors as the code prints them.
unfoldable pub publish_names : (volume_id : String) → Table String → Result Failure String
publish_names volume_id context = elim (lookup scw_volume_id context) [
  | none ↦ err (status invalid_argument (" not found for volume with ID " <> volume_id))
  | some id ↦ elim (lookup scw_volume_name context) [
    | none ↦ err (status invalid_argument (scw_volume_name <> " not provided in publishContext"))
    | some _ ↦ ok id
  ]
]

module _ (parse_zone : String → Option Zone) where
  unfoldable pub check_publish : PublishRequest → Result Failure Publishing
  unfolding publish_names
  check_publish req = elim (get_volume_id_and_zone parse_zone req.volume_id) [
    | err f ↦ err f
    | ok (id, _) ↦
        if same_text req.target_path ""
        then err (status invalid_argument "targetPath not provided")
        else elim (given_capability req.volume_capability) [
          | err f ↦ err f
          | ok c ↦
              if same_text req.staging_target_path ""
              then err (status failed_precondition "stagingTargetPath not provided")
              else elim (publish_names id req.publish_context) [
                | err f ↦ err f
                | ok scw_id ↦ ok (record { volume_id = id; capability = c; scw_id = scw_id })
              ]
        ]
  ]

-- The loop over the options of a mount.
unfoldable pub is_read_only : List String → Bool
is_read_only [] = false
is_read_only (opt ∷ opts) =
    let rest = is_read_only opts in
    if same_text opt "rw" then false else if same_text opt "ro" then true else rest

abbrev pub read_only_info : Option MountInfo → Bool
read_only_info none = false
read_only_info (some info) = is_read_only info.mount_options

-- The device's flag or the mount's is not the one that is asked for.
abbrev other_mode : String → Failure
other_mode volume_id =
    status already_exists
      ("volume with ID " <> (volume_id <> " does not match the given mount mode for the request"))

abbrev same_bool : Bool → Bool → Bool
same_bool true b = b
same_bool false b = not b

-- The type and the options of a mount.
abbrev pub fs_type_of : AccessType → String
fs_type_of (mount_access fs_type options) = fs_type
fs_type_of block_access = ""
fs_type_of unset_access = ""

abbrev pub flags_of : AccessType → List String
flags_of (mount_access fs_type options) = options
flags_of block_access = []
flags_of unset_access = []

abbrev pub publish_options : AccessType → Bool → List String
publish_options access readonly =
    (flags_of access ++ "bind" ∷ []) ++ (if readonly then "ro" ∷ [] else [])

module _ (host : Host) (disk : DiskUtils host.State) where
  open host use {State}

  -- `createMountPoint`
  abbrev only_missing : DiskError → Call State DiskError (Unit {0})
  only_missing (not_exist _) = return tt
  only_missing (failed text) = fail (failed text)
  only_missing (crashed text) = fail (crashed text)
  only_missing (exited code text) = fail (exited code text)

  unfoldable pub create_mount_point :
      (path : String) → (file : Bool) → Call State DiskError (Unit {0})
  create_mount_point path file = do
    _ ← attempt (host.stat path) only_missing (λ _. return tt)
    (if file then (host.mkdir_parent path >>= λ _. host.create_file path) else host.mkdir_all path)

  -- The mapped path of an encrypted device.
  unfoldable pub mapped_if : Bool → Publishing → (device before : String) → Action State String
  mapped_if encrypted p device before =
      if encrypted
      then or_fail (disk.get_mapped_device_path p.scw_id) (internally before)
      else return device

  -- The read-only flag of a block device, and the file descriptor closed on each path.
  abbrev closing : ℕ → Result Failure ℤ × State → Result Failure ℤ × State
  closing fd (r, w) = (r, host.close fd w)

  unfoldable pub device_flag : (device : String) → Action State ℤ
  device_flag device = do
    fd ←
        or_fail (host.open_device device)
          (internally ("error opening block device " <> (device <> ": ")))
    (λ w. closing fd (
        or_fail (host.get_read_only fd)
          (internally ("error getting BLKROGET for block device " <> (device <> ": "))) w))

  -- A block volume that is on the target already.
  unfoldable pub published_block :
      Publishing → Bool → (device : String) → Bool → Action State (Unit {0})
  published_block p encrypted device readonly = do
    path ← mapped_if encrypted p device "error getting mapped device for encrypted device : "
    ro ← device_flag path
    (if same_bool (same ro (pos 1)) readonly then return tt else fail (other_mode p.volume_id))

  -- A mounted volume that is on the target already.
  unfoldable pub published_mount : Publishing → (target : String) → Bool → Action State (Unit {0})
  published_mount p target readonly = do
    info ←
        or_fail (disk.get_mount_info target)
          (internally ("error getting mount information of path " <> (target <> ": ")))
    (if same_bool (read_only_info info) readonly then return tt else fail (other_mode p.volume_id))

  unfoldable pub already_published :
      Publishing → Bool → (device : String) → PublishRequest → Action State (Unit {0})
  already_published p encrypted device req = do
    block ←
        or_fail (disk.is_block_device req.target_path)
          (internally ("error checking stat for " <> (req.target_path <> ": ")))
    refuse_if
        ((block && is_mount p.capability.access_type)
          || (not block && is_block p.capability.access_type))
        (status already_exists "cannot change volumeCapability type")
    (if is_block p.capability.access_type
        then published_block p encrypted device req.readonly
        else published_mount p req.target_path req.readonly)

  abbrev closing_unit : ℕ → Result Failure (Unit {0}) × State → Result Failure (Unit {0}) × State
  closing_unit fd (r, w) = (r, host.close fd w)

  -- The flag set for a block volume that is published for reading.
  unfoldable pub make_read_only : Bool → (device : String) → Action State (Unit {0})
  make_read_only false device = return tt
  make_read_only true device = do
    fd ←
        or_fail (host.open_device device)
          (internally ("error opening block device " <> (device <> ": ")))
    (λ w. closing_unit fd (
        or_fail (host.set_read_only fd)
          (internally ("error setting BLKROSET for block device " <> (device <> ": "))) w))

  -- The source of the mount: the staging path, the device, or nothing for a capability of no type.
  unfoldable pub source_path :
      AccessType → Publishing → Bool → (device : String) → PublishRequest → Action State String
  source_path (mount_access fs_type options) p encrypted device req = return req.staging_target_path
  source_path unset_access p encrypted device req = return ""
  source_path block_access p encrypted device req = do
    _ ← make_read_only req.readonly device
    mapped_if encrypted p device
        ("error getting mapped device for encrypted device with ID " <> (p.scw_id <> ": "))

  unfoldable pub publish_new :
      Publishing → Bool → (device : String) → PublishRequest → Action State (Unit {0})
  publish_new p encrypted device req =
      let access = p.capability.access_type in
      source_path access p encrypted device req >>= λ source. do
        _ ← or_fail (create_mount_point req.target_path (is_block access)) (λ e. status internal (
            "error creating mount point "
            <> (req.target_path <> (" for volume with ID " <> p.volume_id))))
        or_fail
            (disk.mount_to_target source req.target_path (fs_type_of access)
              (publish_options access req.readonly))
            (internally (
              "error mounting source "
              <> (source
                  <> (" to target "
                      <> (req.target_path
                          <> (" with fs of type " <> (fs_type_of access <> " : ")))))))

  -- What follows the checks of the request.
  unfoldable pub publish : Publishing → PublishRequest → Action State (Unit {0})
  publish p req = do
    device ←
        or_fail (disk.get_device_path p.scw_id)
          (λ e. status not_found ("volume " <> (p.volume_id <> (" not found: " <> disk_text e))))
    encrypted ← lift (is_encrypted_volume req.volume_context)
    mounted ← or_fail (disk.is_shared_mounted req.target_path device) (
        internally (
          "error checking mount point of volume "
          <> (p.volume_id <> (" on path " <> (req.staging_target_path <> ": ")))))
    (if mounted
        then already_published p encrypted device req
        else publish_new p encrypted device req)

  unfoldable pub node_publish_volume :
      (String → Option Zone) → PublishRequest → Action State (Unit {0})
  node_publish_volume parse_zone req = lift (check_publish parse_zone req) >>= λ p. publish p req

  unfoldable pub node_unpublish_volume : (target_path : String) → Action State (Unit {0})
  node_unpublish_volume target = do
    refuse_if (same_text target "") (status invalid_argument "targetPath not provided")
    or_fail (disk.unmount target) (internally "error unmounting target path: ")
