-- ===== src/Tests/Hosting.antt =====
-- Volumes that are staged, unstaged and published on the machine.
use scaleway_csi.Base.Decimal.{atoi}
use scaleway_csi.Base.Text.{fields}
use scaleway_csi.Disk.Mounts.{mount_line}
use scaleway_csi.Base.Decimal.{itoa}
use scaleway_csi.Disk.Mounts.Written.{first_on, line_of}
use scaleway_csi.Capability.{validate_volume_capabilities}
use scaleway_csi.Base.Text.{parse_bool}
use scaleway_csi.Base.Table.{lookup}
use scaleway_csi.Ids.{extract_id_and_zone}
use scaleway_csi.Ids.{get_volume_id_and_zone}
use scaleway_csi.Base.{String, ◌≡◌, refl, ap, true, false, none, some, [], ◌∷◌, ok, err}
use scaleway_csi.Base.Text.{split, has_suffix}
use scaleway_csi.Disk.Paths.{device_link}
use scaleway_csi.Node.Publish.{check_publish, publish_names, node_publish_volume}
use scaleway_csi.Base.{status, internal}
use scaleway_csi.Node.Hosted.Republished.{node_publish_volume_other_source}
use scaleway_csi.Disk.Mounts.Written.{info_of, table_of}
use scaleway_csi.Disk.Luks.{luks_open, luks_close, luks_status, luks_is_luks, luks_format}
use scaleway_csi.Disk.Devices.{disk_utils, get_device_path, get_mapped_device_path}
use scaleway_csi.Node.Requests.{PublishRequest, StageRequest, UnstageRequest}
use scaleway_csi.Node.Requests
use scaleway_csi.Node.Stage.{Staging, check_stage, node_stage_volume}
use scaleway_csi.Node.Hosted.Unstaged.{node_unstage_volume_hosted}
use scaleway_csi.Node.Hosted.Staged.{node_stage_volume_hosted}
use scaleway_csi.Node.Stage.{
  stage, open_device, stage_context, stage_on, mount_staged, node_unstage_volume, unstage,
  unmount_staged,
}
use scaleway_csi.Disk.Devices.{
  encrypt_and_open_device, open_encrypted, is_shared_mounted, get_mount_info, format_and_mount,
  close_device,
}
use scaleway_csi.Disk.Mounts.{mount_info_in, mount_lines, shared_mount}
use scaleway_csi.Disk.Paths.{clean_rooted, clean_parts}
use scaleway_csi.Base.Text.{join}
use scaleway_csi.Controller.Attach.{scw_volume_id, scw_volume_name}
use scaleway_csi.Tests.Memory.{parse_zone}
use scaleway_csi.Tests.Data.{mounted}
use scaleway_csi.Tests.Machine.{
  Machine, staging, the_mount, machine, machine-IsTelling, machine-first_on,
}
use scaleway_csi.Tests.Machine.Laws.{
  machine-IsMounting, staging-InPlace, named_same, machine-IsOpening, machine-IsClosing,
}

-- An encrypted volume, which is opened and mounted.
abbrev encrypted_v1 : StageRequest
encrypted_v1 = record {
  volume_id = "fr-par-1/v1";
  volume_context = ("encrypted", "true") ∷ [];
  publish_context = (scw_volume_name, "data") ∷ (scw_volume_id, "v1") ∷ [];
  secrets = ("encryptionPassphrase", "hunter2") ∷ [];
  staging_target_path = staging;
  volume_capability = some mounted;
}

abbrev idle : Machine
idle = record { times = 0; is_open = false }

abbrev staging_v1 : Staging
staging_v1 = record { volume_id = "v1"; encrypted = true; capability = mounted; scw_id = "v1" }

check_v1 : check_stage parse_zone encrypted_v1 ≡ ok staging_v1
unfolding check_stage get_volume_id_and_zone extract_id_and_zone split Requests.is_encrypted_volume
    lookup parse_bool Requests.given_capability validate_volume_capabilities
check_v1 = refl

stage_v1 :
    node_stage_volume (disk_utils machine) parse_zone encrypted_v1 idle
    ≡ (ok tt, record { times = 1; is_open = true })
unfolding node_stage_volume check_stage get_volume_id_and_zone extract_id_and_zone split
    Requests.is_encrypted_volume lookup parse_bool Requests.given_capability
    validate_volume_capabilities stage disk_utils get_device_path device_link clean_rooted join
    open_device encrypt_and_open_device open_encrypted get_mapped_device_path luks_open luks_is_luks
    luks_status luks_format has_suffix is_shared_mounted get_mount_info mount_info_in mount_lines
    shared_mount format_and_mount stage_context stage_on mount_staged clean_parts table_of
stage_v1 = refl

node_stage_volume_hosted_example :
    let w' = (node_stage_volume (disk_utils machine) parse_zone encrypted_v1 idle).1 in
    node_stage_volume (disk_utils machine) parse_zone encrypted_v1 w' ≡ (ok tt, w')
node_stage_volume_hosted_example =
    node_stage_volume_hosted machine machine-IsTelling machine-IsMounting machine-IsOpening
      parse_zone encrypted_v1 idle (staging-InPlace idle)
      (λ s e. record { link_named = named_same _; mapper_named = named_same _ })
      (ap (λ r. r.0) stage_v1)

-- The volume is unstaged while it is mounted twice and open.
abbrev unstage_v1 : UnstageRequest
unstage_v1 = record { volume_id = "fr-par-1/v1"; staging_target_path = staging }

abbrev busy : Machine
busy = record { times = 2; is_open = true }

node_unstage_volume_hosted_example :
    let w' = (node_unstage_volume (disk_utils machine) machine.stat parse_zone unstage_v1 busy).1 in
    (first_on staging (machine-IsTelling.mounts w') ≡ none)
    × ((get_mapped_device_path machine "v1" w').0 ≡ ok "")
unfolding node_unstage_volume get_volume_id_and_zone extract_id_and_zone split unstage
    unmount_staged disk_utils is_shared_mounted get_mount_info mount_info_in mount_lines
    shared_mount get_device_path device_link clean_rooted join clean_parts table_of close_device
    get_mapped_device_path luks_close luks_status has_suffix luks_is_luks line_of itoa mount_line
    fields atoi
node_unstage_volume_hosted_example =
    node_unstage_volume_hosted machine machine-IsTelling machine-IsClosing parse_zone unstage_v1
      busy "v1" "fr-par-1" refl ((staging-InPlace busy).plain) refl

-- The encrypted volume is published again: its mount is of the mapped device.
abbrev publish_v1 : PublishRequest
publish_v1 = record {
  volume_id = "fr-par-1/v1";
  volume_context = ("encrypted", "true") ∷ [];
  publish_context = (scw_volume_name, "data") ∷ (scw_volume_id, "v1") ∷ [];
  staging_target_path = "/elsewhere";
  target_path = staging;
  readonly = false;
  volume_capability = some mounted;
}

node_publish_volume_other_source_example :
    (text : String) × (node_publish_volume machine (disk_utils machine) parse_zone publish_v1 busy
      ≡ (err (status internal text), busy))
unfolding check_publish publish_names get_volume_id_and_zone extract_id_and_zone split
    Requests.is_encrypted_volume lookup parse_bool Requests.given_capability
    validate_volume_capabilities get_device_path device_link clean_rooted join clean_parts
node_publish_volume_other_source_example =
    node_publish_volume_other_source machine machine-IsTelling parse_zone publish_v1 busy
      (record { volume_id = "v1"; capability = mounted; scw_id = "v1" }) (device_link "v1") true
      (info_of the_mount) refl refl refl (machine-first_on 1 true) refl
