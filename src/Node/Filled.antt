-- ===== src/Node/Filled.antt =====
-- The disk utilities of driver/diskutils.go keep the first of the laws that the node service relies
-- on, over an operating system whose reads change nothing.
use scaleway_csi.Base.{String, ◌≡◌, arith, Result-cases, inl, inr}
use scaleway_csi.Disk.{Host}
use scaleway_csi.Disk.Paths.{device_link}
use scaleway_csi.Disk.Devices.{
  disk_utils, get_device_path, is_block_device, is_shared_mounted, get_mount_info,
}
use scaleway_csi.Node.Laws.{IsLooking}

module _ (host : Host) where
  open host use {State}

  pub record IsReading : Type 0 where
    pub mounts_state : (w : State) → (host.read_mounts w).1 ≡ w
    pub symlinks_state : (path : String) (w : State) → (host.eval_symlinks path w).1 ≡ w
    pub stat_state : (path : String) (w : State) → (host.stat path w).1 ≡ w

  module _ (H : IsReading) where
    pub get_device_path_state : (id : String) (w : State) → (get_device_path host id w).1 ≡ w
    unfolding get_device_path
    get_device_path_state id w = elim (Result-cases (host.eval_symlinks (device_link id) w).0) [
      | inl (real, followed) ↦
          ground (arith, H.symlinks_state (device_link id) w, H.stat_state real w)
      | inr (x, failed) ↦ ground (arith, H.symlinks_state (device_link id) w)
    ]

    is_block_device_state : (path : String) (w : State) → (is_block_device host path w).1 ≡ w
    unfolding is_block_device
    is_block_device_state path w = elim (Result-cases (host.eval_symlinks path w).0) [
      | inl (real, followed) ↦ ground (arith, H.symlinks_state path w, H.stat_state real w)
      | inr (x, failed) ↦ ground (arith, H.symlinks_state path w)
    ]

    is_shared_mounted_state :
        (target device : String) (w : State) → (is_shared_mounted host target device w).1 ≡ w
    unfolding is_shared_mounted get_mount_info
    is_shared_mounted_state target device w = ground (arith, H.mounts_state w)

    -- Over an operating system whose reads change nothing, the disk utilities look for a device,
    -- for a block device and for a mount without changing anything.
    pub disk_utils-IsLooking : IsLooking (disk_utils host)
    unfolding disk_utils
    disk_utils-IsLooking = record {
      device_path_state = get_device_path_state;
      shared_mounted_state = is_shared_mounted_state;
      block_device_state = is_block_device_state;
    }
