-- ===== src/Tests/Binding.antt =====
-- A staged volume that is published twice.
use scaleway_csi.Base.{
  String, ◌≡◌, ◌≢◌, refl, ap, true, false, some, [], ◌∷◌, ok, err, status, already_exists,
}
use scaleway_csi.Base.Text.{split, join, fields}
use scaleway_csi.Base.Decimal.{itoa, atoi}
use scaleway_csi.Base.Table.{lookup}
use scaleway_csi.Ids.{get_volume_id_and_zone, extract_id_and_zone}
use scaleway_csi.Capability.{validate_volume_capabilities}
use scaleway_csi.Disk.Paths.{device_link, clean_rooted, clean_parts}
use scaleway_csi.Disk.Mounts.{is_shared, mount_info_in, mount_lines, mount_line, shared_mount}
use scaleway_csi.Disk.Mounts.Written.{table_of, line_of, info_of}
use scaleway_csi.Disk.Devices.{
  disk_utils, get_device_path, is_block_device, is_shared_mounted, get_mount_info, mount_to_target,
}
use scaleway_csi.Node.Requests
use scaleway_csi.Node.Requests.{PublishRequest}
use scaleway_csi.Node.Publish.{
  publish, publish_names, publish_new, source_path, create_mount_point, check_publish,
  node_publish_volume,
}
use scaleway_csi.Node.Hosted.Published.{Staged, node_publish_volume_hosted}
use scaleway_csi.Node.Hosted.Republished.{node_publish_volume_mode}
use scaleway_csi.Controller.Attach.{scw_volume_id, scw_volume_name}
use scaleway_csi.Tests.Memory.{parse_zone}
use scaleway_csi.Tests.Data.{mounted}
use scaleway_csi.Tests.Binder.{
  mount_on, binder, binder-IsTelling, binder-first_on, binder-IsBinding, paths-IsPlain,
  binder-first_on_target,
}

-- The volume is published for reading where nothing is bound.
abbrev publish_v1 : PublishRequest
publish_v1 = record {
  volume_id = "fr-par-1/v1";
  volume_context = [];
  publish_context = (scw_volume_name, "data") ∷ (scw_volume_id, "v1") ∷ [];
  staging_target_path = "/staging";
  target_path = "/target";
  readonly = true;
  volume_capability = some mounted;
}

publish_v1-Staged : Staged binder binder-IsTelling binder-IsBinding parse_zone publish_v1 []
unfolding check_publish get_volume_id_and_zone extract_id_and_zone split Requests.given_capability
    validate_volume_capabilities lookup device_link clean_rooted join is_shared is_block_device
publish_v1-Staged = record {
  checks = record { volume_id = "v1"; capability = mounted; scw_id = "v1" };
  fs_type = "ext4";
  flags = [];
  info = info_of (mount_on "/staging" "rw");
  checked_ok = refl;
  mount_type = refl;
  clear = refl;
  staged = binder-first_on.0;
  from_link = refl;
  peers = refl;
  directory = refl;
  free = binder-first_on.1;
  staging_plain = (paths-IsPlain []).0;
  target_plain = (paths-IsPlain []).1;
}

publish_v1_run :
    node_publish_volume binder (disk_utils binder) parse_zone publish_v1 [] ≡ (ok tt, true ∷ [])
unfolding node_publish_volume check_publish publish_names get_volume_id_and_zone extract_id_and_zone
    split Requests.given_capability validate_volume_capabilities lookup publish disk_utils
    get_device_path device_link clean_rooted clean_parts join Requests.is_encrypted_volume
    is_shared_mounted get_mount_info mount_info_in mount_lines mount_line table_of line_of fields
    itoa atoi shared_mount publish_new source_path create_mount_point mount_to_target
publish_v1_run = refl

node_publish_volume_hosted_example :
    let w' = (node_publish_volume binder (disk_utils binder) parse_zone publish_v1 []).1 in
    node_publish_volume binder (disk_utils binder) parse_zone publish_v1 w' ≡ (ok tt, w')
node_publish_volume_hosted_example =
    node_publish_volume_hosted binder binder-IsTelling binder-IsBinding parse_zone publish_v1 []
      publish_v1-Staged (ap (λ r. r.0) publish_v1_run)

-- Published again, for writing.
abbrev write_v1 : PublishRequest
write_v1 = record publish_v1 { readonly = false }

node_publish_volume_mode_example :
    (true ≡ write_v1.readonly
      → node_publish_volume binder (disk_utils binder) parse_zone write_v1 (true ∷ [])
        ≡ (ok tt, true ∷ []))
    × (true ≢ write_v1.readonly
        → (text : String) × (node_publish_volume binder
              (disk_utils binder)
              parse_zone
              write_v1
              (true ∷ [])
            ≡ (err (status already_exists text), true ∷ [])))
unfolding check_publish publish_names get_volume_id_and_zone extract_id_and_zone split
    Requests.given_capability validate_volume_capabilities lookup Requests.is_encrypted_volume
    get_device_path device_link clean_rooted clean_parts join is_shared is_block_device
node_publish_volume_mode_example =
    node_publish_volume_mode binder binder-IsTelling parse_zone write_v1 (true ∷ [])
      (record { volume_id = "v1"; capability = mounted; scw_id = "v1" }) (device_link "v1") "ext4"
      [] [] false true (info_of (mount_on "/target" "ro")) refl refl refl refl
      binder-first_on_target refl refl refl refl
