-- ===== src/Tests/Publishing.antt =====
-- The statistics of a volume, over disks on which everything is mounted.
use scaleway_csi.Base.Text.{split}
use scaleway_csi.Ids.{extract_id_and_zone}
use scaleway_csi.Ids.{get_volume_id_and_zone}
use scaleway_csi.Base.{
  String, ◌≡◌, refl, true, false, none, List, [], ok, return, ap, subst, ok-injective, arith,
}
use scaleway_csi.Disk.{DiskUtils}
use scaleway_csi.Node.Requests
use scaleway_csi.Node.Status.{node_get_volume_stats, stats_of, bytes_usage, inodes_usage}
use scaleway_csi.Node.Status.Numbers.{AddsUp}
use scaleway_csi.Node.Status.Stats.{IsSound, node_get_volume_stats-AddsUp}
use scaleway_csi.Tests.Memory.{parse_zone}
use scaleway_csi.Tests.Disks.{some_statfs}

-- Disks on which everything is mounted as asked for.
abbrev ready : DiskUtils (List (List String))
ready = record {
  format_and_mount = λ target device fs_type options. return tt;
  unmount = λ target. return tt;
  mount_to_target = λ source target fs_type options. return tt;
  is_block_device = λ path. return false;
  get_device_path = λ id. return "/dev/sda";
  is_shared_mounted = λ target device. return true;
  get_mount_info = λ target. return none;
  get_statfs = λ path. return some_statfs;
  resize = λ target device passphrase. return tt;
  is_encrypted = λ device. return false;
  encrypt_and_open_device = λ id passphrase. return "/dev/mapper/scw-luks-v1";
  close_device = λ id. return tt;
  get_mapped_device_path = λ id. return "";
}

abbrev stats_data : Requests.StatsRequest
stats_data = record { volume_id = "fr-par-1/v1"; volume_path = "/target"; staging_target_path = "" }

some_statfs-IsSound : IsSound some_statfs
some_statfs-IsSound = record {
  block = 4096;
  block_is = refl;
  block_fits = omega arith;
  free_blocks = omega arith;
  bytes_fit = omega arith;
  free_inodes = omega arith;
  inodes_fit = omega arith;
}

stats_example :
    node_get_volume_stats parse_zone ready stats_data []
    ≡ (ok (bytes_usage some_statfs, inodes_usage some_statfs), [])
unfolding node_get_volume_stats get_volume_id_and_zone extract_id_and_zone split stats_of
stats_example = refl

node_get_volume_stats-AddsUp_example :
    AddsUp (bytes_usage some_statfs) × AddsUp (inodes_usage some_statfs)
node_get_volume_stats-AddsUp_example =
    node_get_volume_stats-AddsUp parse_zone ready
      (λ path w fs e. subst IsSound (ok-injective e) some_statfs-IsSound) stats_data []
      (ap (λ r. r.0) stats_example)
