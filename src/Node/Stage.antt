-- ===== src/Node/Stage.antt =====
-- driver/node.go: `NodeStageVolume` and `NodeUnstageVolume`.
pub mod Steps
pub mod Again
pub mod Undone
use scaleway_csi.Base.{
  String, ◌<>◌, Bool, true, false, not, Option, none, some, List, [], ◌∷◌, if◌then◌else◌, map,
  Action, Result, ok, err, Failure, status, panic, invalid_argument, internal, not_found, unknown,
  ◌>>=◌, ◌>>◌, return, fail, lift, or_fail, refuse_if, require, attempt,
}
use scaleway_csi.Base.Text.{same_text, join}
use scaleway_csi.Base.Table.{Table, lookup}
use scaleway_csi.Csi.{
  VolumeCapability, AccessType, block_access, unset_access, mount_access, is_block,
}
use scaleway_csi.Ids.{Zone, get_volume_id_and_zone}
use scaleway_csi.Controller.Attach.{scw_volume_id, scw_volume_name}
use scaleway_csi.Disk.{
  DiskError, not_exist, failed, crashed, exited, disk_text, DiskUtils, FileMode, Host,
}
use scaleway_csi.Node.Requests.{
  StageRequest, UnstageRequest, encryption_passphrase_key, internally, found_or,
  is_encrypted_volume, given_capability,
}

-- What the checks of a stage request give.
pub record Staging : Type 0 where
  pub volume_id : String
  pub encrypted : Bool
  pub capability : VolumeCapability
  pub scw_id : String

-- The two names of the publish context. The text of the second error prints the variable that
-- was just set, which is empty.
unfoldable pub stage_context : (volume_id : String) → Table String → Result Failure String
stage_context volume_id context = elim (lookup scw_volume_name context) [
  | none ↦ err (
      status invalid_argument
        (scw_volume_name <> (" not found in publish context of volume " <> volume_id)))
  | some name ↦
      if same_text name ""
      then err (
          status invalid_argument
            (scw_volume_name <> (" not found in publish context of volume " <> volume_id)))
      else elim (lookup scw_volume_id context) [
        | none ↦
            err (status invalid_argument (" not found in publish context of volume " <> volume_id))
        | some id ↦ ok id
      ]
]

module _ (parse_zone : String → Option Zone) where
  -- The checks that need no disk.
  unfoldable pub check_stage : StageRequest → Result Failure Staging
  unfolding stage_context
  check_stage req = elim (get_volume_id_and_zone parse_zone req.volume_id) [
    | err f ↦ err f
    | ok (id, _) ↦ elim (is_encrypted_volume req.volume_context) [
      | err f ↦ err f
      | ok encrypted ↦
          if same_text req.staging_target_path ""
          then err (status invalid_argument "stagingTargetPath not provided")
          else elim (given_capability req.volume_capability) [
            | err f ↦ err f
            | ok c ↦ elim (stage_context id req.publish_context) [
              | err f ↦ err f
              | ok scw_id ↦ ok (record {
                volume_id = id;
                encrypted = encrypted;
                capability = c;
                scw_id = scw_id;
              })
            ]
          ]
    ]
  ]

-- `%q` of a text and of a list, for texts that Go quotes as they are.
abbrev quoted : String → String
quoted s = "\"" <> (s <> "\"")

abbrev quoted_list : List String → String
quoted_list options = "[" <> (join (map quoted options) " " <> "]")

abbrev not_mounted_text : String → String → String → List String → String
not_mounted_text device target fs_type options =
    "failed to format and mount device from ("
    <> (quoted device
        <> (") to ("
            <> (quoted target
                <> (") with fstype ("
                    <> (quoted fs_type <> (") and options (" <> (quoted_list options <> "): ")))))))

module _ {State : Type 0} (disk : DiskUtils State) where
  -- The device of an encrypted volume is opened with the passphrase of the secrets.
  unfoldable pub open_device :
      Staging → (device : String) → (secrets : Table String) → Action State String
  open_device s device secrets =
      if s.encrypted
      then elim (lookup encryption_passphrase_key secrets) [
        | none ↦ fail (
            status invalid_argument
              ("missing passphrase secret for key " <> encryption_passphrase_key))
        | some passphrase ↦
            or_fail (disk.encrypt_and_open_device s.scw_id passphrase)
              (internally ("error encrypting/opening volume with ID " <> (s.volume_id <> ": ")))
      ]
      else return device

  -- What is mounted on the path already must not be a block device.
  unfoldable pub check_staged : Staging → (target : String) → Action State (Unit {0})
  check_staged s target = do
    block ←
        or_fail (disk.is_block_device target)
          (internally ("error checking stat for " <> (target <> ": ")))
    refuse_if block (
        status unknown (
          "block device mounted as stagingTargetPath "
          <> (target <> (" for volume with ID " <> s.volume_id))))

  -- The mount, for a capability with a file system.
  unfoldable pub mount_staged : (device target : String) → AccessType → Action State (Unit {0})
  mount_staged device target unset_access =
      fail (status invalid_argument "mount volume capability is nil")
  mount_staged device target block_access =
      fail (status invalid_argument "mount volume capability is nil")
  mount_staged device target (mount_access fs_type options) =
      or_fail (disk.format_and_mount target device fs_type options)
        (internally (not_mounted_text device target fs_type options))

  unfoldable pub stage_on : Staging → (device target : String) → Action State (Unit {0})
  stage_on s device target = if is_block s.capability.access_type then return tt else (do
    mounted ← or_fail (disk.is_shared_mounted target device) (
        internally (
          "error checking mount point of volume "
          <> (s.volume_id <> (" on path " <> (target <> ": ")))))
    (if mounted
        then check_staged s target
        else mount_staged device target s.capability.access_type))

  -- What follows the checks.
  unfoldable pub stage : Staging → StageRequest → Action State (Unit {0})
  stage s req = do
    link ← or_fail (disk.get_device_path s.scw_id) (
        found_or ("volume " <> (s.volume_id <> " is not mounted on node yet"))
          ("error getting device path for volume with ID " <> (s.volume_id <> ": ")))
    device ← open_device s link req.secrets
    stage_on s device req.staging_target_path

  unfoldable pub node_stage_volume : (String → Option Zone) → StageRequest → Action State (Unit {0})
  node_stage_volume parse_zone req = lift (check_stage parse_zone req) >>= λ s. stage s req

-- `NodeUnstageVolume` calls `os.Stat` itself; only an error that says the path does not exist counts.
module _ {State : Type 0} (disk : DiskUtils State)
    (stat : String → State → Result DiskError FileMode × State) where
  abbrev stat_counts : String → DiskError → Action State (Unit {0})
  stat_counts volume_id (not_exist _) =
      fail (status not_found ("volume with ID " <> (volume_id <> " not found on node")))
  stat_counts volume_id (failed _) = return tt
  stat_counts volume_id (crashed _) = return tt
  stat_counts volume_id (exited _ _) = return tt

  unfoldable pub unmount_staged : (target : String) → Action State (Unit {0})
  unmount_staged target = do
    mounted ←
        or_fail (disk.is_shared_mounted target "")
          (internally "error checking if target is mounted: ")
    (if mounted
        then or_fail (disk.unmount target) (internally "error unmounting target path: ")
        else return tt)

  -- What follows the checks of the request.
  unfoldable pub unstage : (volume_id target : String) → Action State (Unit {0})
  unstage id target = do
    _ ← or_fail (disk.get_device_path id) (
        found_or ("volume with ID " <> (id <> " not found"))
          ("error getting device path for volume with ID " <> (id <> ": ")))
    _ ← attempt (stat target) (stat_counts id) (λ _. return tt)
    _ ← unmount_staged target
    or_fail (disk.close_device id) (internally ("error closing device with ID " <> (id <> ": ")))

  unfoldable pub node_unstage_volume :
      (String → Option Zone) → UnstageRequest → Action State (Unit {0})
  node_unstage_volume parse_zone req = do
    (id, _) ← lift (get_volume_id_and_zone parse_zone req.volume_id)
    refuse_if (same_text req.staging_target_path "")
        (status invalid_argument "stagingTargetPath not provided")
    unstage id req.staging_target_path
