-- ===== src/Node/Status.antt =====
-- driver/node.go: `NodeGetVolumeStats`, `NodeGetCapabilities`, `NodeGetInfo` and
-- `NodeExpandVolume`.
pub mod Numbers
pub mod Stats
use scaleway_csi.Base.{
  ℕ, ◌+◌, ◌-◌, ◌*◌, ◌%◌, ◌^◌, String, ◌<>◌, Bool, true, false, ◌||◌, not, Option, none, some, List,
  [], ◌∷◌, if◌then◌else◌, Action, Result, ok, err, Failure, status, invalid_argument, internal,
  not_found, ◌>>=◌, ◌>>◌, return, fail, lift, or_fail, refuse_if,
}
use scaleway_csi.Base.Int.{ℤ, to_int64, to_uint64}
use scaleway_csi.Base.Text.{same_text}
use scaleway_csi.Base.Table.{Table, lookup}
use scaleway_csi.Errors.{error_text}
use scaleway_csi.Csi.{VolumeCapability, Segments, is_block}
use scaleway_csi.Limits.{max_volumes_per_node}
use scaleway_csi.Ids.{Zone, expand_id, get_volume_id_and_zone}
use scaleway_csi.Capability.{validate_volume_capabilities}
use scaleway_csi.Topology.{zone_topology_key}
use scaleway_csi.Disk.{DiskError, disk_text, Statfs, DiskUtils}
use scaleway_csi.Node.Requests.{
  StatsRequest, ExpandRequest, encryption_passphrase_key, internally, found_or,
}

pub record Usage : Type 0 where
  pub total : ℤ
  pub available : ℤ
  pub used : ℤ

-- The products and the differences of `uint64`.
abbrev pub mul_uint64 : ℕ → ℕ → ℕ
mul_uint64 a b = (a * b) % 2 ^ 64

abbrev pub sub_uint64 : ℕ → ℕ → ℕ
sub_uint64 a b = ((a + 2 ^ 64) - b) % 2 ^ 64

-- The usage in bytes, and that in inodes.
unfoldable pub bytes_usage : Statfs → Usage
bytes_usage fs =
    let total = mul_uint64 fs.blocks (to_uint64 fs.bsize) in
    let available = mul_uint64 fs.bfree (to_uint64 fs.bsize) in
    record {
      total = to_int64 total;
      available = to_int64 available;
      used = to_int64 (sub_uint64 total available);
    }

unfoldable pub inodes_usage : Statfs → Usage
inodes_usage fs = record {
  total = to_int64 fs.files;
  available = to_int64 fs.ffree;
  used = to_int64 (sub_uint64 fs.files fs.ffree);
}

pub data NodeCapability : Type 0 where
  stage_unstage_volume get_volume_stats expand_volume single_node_multi_writer : NodeCapability

unfoldable pub node_get_capabilities : List NodeCapability
node_get_capabilities =
    stage_unstage_volume ∷ get_volume_stats ∷ expand_volume ∷ single_node_multi_writer ∷ []

pub record NodeInfo : Type 0 where
  pub node_id : String
  pub max_volumes_per_node : ℕ
  pub accessible_topology : Segments

-- One volume is the root volume.
unfoldable pub node_get_info : (node_zone : Zone) → (node_id : String) → NodeInfo
node_get_info zone id = record {
  node_id = expand_id zone id;
  max_volumes_per_node = max_volumes_per_node - 1;
  accessible_topology = (zone_topology_key, zone) ∷ [];
}

module _ {State : Type 0} (parse_zone : String → Option Zone) (disk : DiskUtils State) where
  abbrev pub stats_path : StatsRequest → String
  stats_path req =
      if not (same_text req.staging_target_path "")
      then req.staging_target_path
      else req.volume_path

  abbrev volume_missing : String → String
  volume_missing id = "volume with ID " <> (id <> " not found")

  unfoldable pub stats_of : (volume_id path : String) → Action State (Usage × Usage)
  stats_of id path = do
    mounted ← or_fail (disk.is_shared_mounted path "") (
        internally
          ("error checking mount point of path " <> (path <> (" for volume " <> (id <> ": ")))))
    refuse_if (not mounted) (status not_found (volume_missing id))
    _ ← or_fail (disk.get_device_path id) (
        found_or (volume_missing id)
          ("error getting device path for volume with ID " <> (id <> ": ")))
    fs ← or_fail (disk.get_statfs path) (internally ("error doing stat on " <> (path <> ": ")))
    return (bytes_usage fs, inodes_usage fs)

  unfoldable pub node_get_volume_stats : StatsRequest → Action State (Usage × Usage)
  node_get_volume_stats req = do
    (id, _) ← lift (get_volume_id_and_zone parse_zone req.volume_id)
    refuse_if (same_text req.volume_path "") (status invalid_argument "volumePath not provided")
    stats_of id (stats_path req)

  -- Whether the volume is a block volume, by its device or by the capability.
  unfoldable pub is_block_volume : Bool → Option VolumeCapability → Result Failure Bool
  is_block_volume block none = ok block
  is_block_volume block (some c) = elim (validate_volume_capabilities (some (some c ∷ []))) [
    | err e ↦ err (status invalid_argument ("volumeCapability not supported: " <> error_text e))
    | ok _ ↦ ok (is_block c.access_type || block)
  ]

  -- `req.GetSecrets()[encryptionPassphraseKey]`
  abbrev passphrase_of : Option String → String
  passphrase_of none = ""
  passphrase_of (some p) = p

  -- The device that is resized: the mapped one if the volume is encrypted, which needs the
  -- passphrase.
  unfoldable pub resized_device :
      Bool → (volume_id device passphrase : String) → Action State String
  resized_device false id device passphrase = return device
  resized_device true id device passphrase = do
    mapped ←
        or_fail (disk.get_mapped_device_path id)
          (internally ("error retrieving mapped device path for volume with ID " <> (id <> ": ")))
    refuse_if (same_text passphrase "") (
        status invalid_argument
          ("device " <> (mapped <> " is LUKS encrypted, but no passphrase was provided")))
    return mapped

  -- The resize of a volume that is no block volume.
  unfoldable pub expand_mounted :
      (volume_id path device passphrase : String) → Action State (Unit {0})
  expand_mounted id path device passphrase = do
    encrypted ←
        or_fail (disk.is_encrypted device)
          (internally ("error checking if volume " <> (id <> " is encrypted: ")))
    resized ← resized_device encrypted id device passphrase
    or_fail (disk.resize path resized passphrase)
        (internally ("failed to resize volume " <> (id <> (" mounted on " <> (path <> ": ")))))

  -- What follows the checks of the request.
  unfoldable pub expand_on : (volume_id : String) → ExpandRequest → Action State (Unit {0})
  expand_on id req = do
    device ← or_fail (disk.get_device_path id) (
        found_or ("volume " <> (id <> " is not mounted on node"))
          ("failed to get device path for volume " <> (id <> ": ")))
    block ←
        or_fail (disk.is_block_device req.volume_path)
          (internally ("error checking stat for " <> (device <> ": ")))
    is_block ← lift (is_block_volume block req.volume_capability)
    (if is_block
        then return tt
        else expand_mounted id req.volume_path device
            (passphrase_of (lookup encryption_passphrase_key req.secrets)))

  unfoldable pub node_expand_volume : ExpandRequest → Action State (Unit {0})
  node_expand_volume req = do
    (id, _) ← lift (get_volume_id_and_zone parse_zone req.volume_id)
    refuse_if (same_text req.volume_path "") (status invalid_argument "volumePath not provided")
    expand_on id req
