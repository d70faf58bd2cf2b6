-- ===== src/Tests/Staging.antt =====
-- The node service and the disk utilities, over the disks and the machine.
use scaleway_csi.Base.Text.{parse_bool}
use scaleway_csi.Disk.Mounts.{mount_line}
use scaleway_csi.Disk.Mounts.{mount_lines}
use scaleway_csi.Base.{String, ◌≡◌, refl, true, false, none, some, List, [], ◌∷◌, Result, ok, arith}
use scaleway_csi.Base.Int.{pos}
use scaleway_csi.Base.Text.{split, fields}
use scaleway_csi.Base.Decimal.{atoi}
use scaleway_csi.Base.Table.{lookup}
use scaleway_csi.Ids.{get_volume_id_and_zone, extract_id_and_zone}
use scaleway_csi.Capability.{validate_volume_capabilities}
use scaleway_csi.Disk.{MountInfo}
use scaleway_csi.Disk.Mounts.{mount_info_in}
use scaleway_csi.Disk.Mounts.Written.{Mount, line_of, table_of, IsWritten, info_of}
use scaleway_csi.Disk.Mounts.RoundTrip.{mount_info_in-table_of}
use scaleway_csi.Disk.Mounts.Spaced.{mount_info_in-IsWord}
use scaleway_csi.Base.Words.{IsWord}
use scaleway_csi.Base.Text.{join}
use scaleway_csi.Base.Decimal.{itoa}
use scaleway_csi.Disk.Paths.{device_link}
use scaleway_csi.Node.Requests
use scaleway_csi.Node.Stage.{
  node_stage_volume, check_stage, stage, open_device, stage_on, mount_staged,
}
use scaleway_csi.Disk.{DiskError, FileMode}
use scaleway_csi.Controller.Attach.{scw_volume_id, scw_volume_name}
use scaleway_csi.Tests.Memory.{parse_zone}
use scaleway_csi.Tests.Data.{mounted}
use scaleway_csi.Tests.Disks.{Disks, disks}

node_v1 : get_volume_id_and_zone parse_zone "fr-par-1/v1" ≡ ok ("v1", "fr-par-1")
unfolding get_volume_id_and_zone extract_id_and_zone split
node_v1 = refl

abbrev pub staged_data : Requests.StageRequest
staged_data = record {
  volume_id = "fr-par-1/v1";
  volume_context = ("encrypted", "true") ∷ [];
  publish_context = (scw_volume_name, "data") ∷ (scw_volume_id, "v1") ∷ [];
  secrets = ("encryptionPassphrase", "secret") ∷ [];
  staging_target_path = "/staging";
  volume_capability = some mounted;
}

abbrev fresh : Disks
fresh = record { is_open = false; mounted = none }

stage_run :
    node_stage_volume disks parse_zone staged_data fresh
    ≡ (ok tt, record { is_open = true; mounted = some ("/staging", "/dev/mapper/scw-luks-v1") })
unfolding node_stage_volume check_stage get_volume_id_and_zone extract_id_and_zone split
    Requests.is_encrypted_volume lookup parse_bool Requests.given_capability
    validate_volume_capabilities stage open_device stage_on mount_staged
stage_run = refl

abbrev mount_table : String
mount_table = "36 35 98:0 / /staging rw,noatime shared:1 - ext4 /dev/sda rw"

abbrev staging_mount : MountInfo
staging_mount = record {
  id = pos 36;
  parent_id = pos 35;
  major_minor = "98:0";
  root = "/";
  source = "/dev/sda";
  mount_point = "/staging";
  optional_fields = "shared:1" ∷ [];
  fs_type = "ext4";
  mount_options = "rw" ∷ "noatime" ∷ [];
  super_options = "rw" ∷ [];
}

read_staging : mount_info_in mount_table "/staging" ≡ ok (some staging_mount)
unfolding mount_info_in mount_lines split mount_line fields atoi
read_staging = refl

mount_info_in-IsWord_example : IsWord "/staging"
mount_info_in-IsWord_example = mount_info_in-IsWord mount_table "/staging" read_staging

abbrev proc_mount : Mount
proc_mount = record {
  id = 20;
  parent = 1;
  major_minor = "0:18";
  root = "/";
  point = "/proc";
  options = "rw,nosuid";
  optional = [];
  fs_type = "proc";
  source = "proc";
  supers = "rw";
}

abbrev data_mount : Mount
data_mount = record {
  id = 36;
  parent = 20;
  major_minor = "98:0";
  root = "/";
  point = "/staging";
  options = "rw,noatime";
  optional = "shared:1" ∷ [];
  fs_type = "ext4";
  source = "/dev/sda";
  supers = "rw";
}

proc_mount-IsWritten : IsWritten proc_mount
proc_mount-IsWritten = record {
  id_fits = omega arith;
  parent_fits = omega arith;
  major_minor_word = ground arith;
  root_word = ground arith;
  point_word = ground arith;
  options_word = ground arith;
  optional_tags = tt;
  fs_type_word = ground arith;
  source_word = ground arith;
  supers_word = ground arith;
}

data_mount-IsWritten : IsWritten data_mount
data_mount-IsWritten = record {
  id_fits = omega arith;
  parent_fits = omega arith;
  major_minor_word = ground arith;
  root_word = ground arith;
  point_word = ground arith;
  options_word = ground arith;
  optional_tags = ((ground arith, refl), tt);
  fs_type_word = ground arith;
  source_word = ground arith;
  supers_word = ground arith;
}

line_of_data : line_of data_mount ≡ "36 20 98:0 / /staging rw,noatime shared:1 - ext4 /dev/sda rw"
unfolding line_of join itoa
line_of_data = refl

mount_info_in-table_of_example :
    mount_info_in (table_of (proc_mount ∷ data_mount ∷ [])) "/staging"
    ≡ ok (some (info_of data_mount))
mount_info_in-table_of_example =
    mount_info_in-table_of "/staging" (proc_mount ∷ data_mount ∷ [])
      (proc_mount-IsWritten, (data_mount-IsWritten, tt))

abbrev header_read : List (List String)
header_read = ("cryptsetup" ∷ "isLuks" ∷ device_link "v1" ∷ []) ∷ []

abbrev unstaged_v1 : Requests.UnstageRequest
unstaged_v1 = record { volume_id = "fr-par-1/v1"; staging_target_path = "/staging" }

abbrev staged_disks : Disks
staged_disks = record { is_open = true; mounted = some ("/staging", "/dev/sda") }

abbrev stat_of : String → Disks → Result DiskError FileMode × Disks
stat_of path w = (ok (record { device = false; char_device = false }), w)
