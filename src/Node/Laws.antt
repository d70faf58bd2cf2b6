-- ===== src/Node/Laws.antt =====
-- What the node service relies on of the disk utilities: that looking changes nothing, and that
-- opening and mounting show in later looks.
use scaleway_csi.Base.{String, ◌≡◌, true, false, List, ok}
use scaleway_csi.Disk.{DiskUtils}

module _ {State : Type 0} (disk : DiskUtils State) where
  open disk use {
    get_device_path, is_shared_mounted, is_block_device, format_and_mount, encrypt_and_open_device,
    unmount, close_device, get_mapped_device_path,
  }

  pub record IsLooking : Type 0 where
    pub device_path_state : (id : String) (w : State) → (get_device_path id w).1 ≡ w
    pub shared_mounted_state :
        (target device : String) (w : State) → (is_shared_mounted target device w).1 ≡ w
    pub block_device_state : (path : String) (w : State) → (is_block_device path w).1 ≡ w

  -- `Fit` tells the paths and the devices that the mount table would name as they are given.
  module _ (Fit : (target device : String) → State → Type 0) where
    -- A device that was mounted where nothing was is found mounted, on a path that is no block
    -- device. A device that is open stays open under the same path, also when it is mounted. Both
    -- leave the links of the volumes to their devices alone.
    pub record IsStaging : Type 0 where
      pub mounted-mount :
          (target device fs_type : String) (options : List String) (w : State)
          → Fit target device w
          → (is_shared_mounted target device w).0 ≡ ok false
          → (format_and_mount target device fs_type options w).0 ≡ ok tt
          → (is_shared_mounted target device
              ((format_and_mount target device fs_type options w).1)).0
            ≡ ok true
      pub block_device-mount :
          (target device fs_type : String) (options : List String) (w : State)
          → (format_and_mount target device fs_type options w).0 ≡ ok tt
          → (is_block_device target ((format_and_mount target device fs_type options w).1)).0
            ≡ ok false
      pub device_path-mount :
          (id target device fs_type : String) (options : List String) (w : State)
          → (get_device_path id ((format_and_mount target device fs_type options w).1)).0
            ≡ (get_device_path id w).0
      pub device_path-open :
          (id passphrase : String) (w : State)
          → (get_device_path id ((encrypt_and_open_device id passphrase w).1)).0
            ≡ (get_device_path id w).0
      pub open-open :
          (id passphrase : String) (w : State) {device : String}
          → (encrypt_and_open_device id passphrase w).0 ≡ ok device
          → encrypt_and_open_device id passphrase ((encrypt_and_open_device id passphrase w).1)
            ≡ (ok device, (encrypt_and_open_device id passphrase w).1)
      pub open-mount :
          (id passphrase target device fs_type : String) (options : List String) (w : State)
          {opened : String}
          → encrypt_and_open_device id passphrase w ≡ (ok opened, w)
          → encrypt_and_open_device id passphrase
              ((format_and_mount target device fs_type options w).1)
            ≡ (ok opened, (format_and_mount target device fs_type options w).1)

  -- What is left by an unmount of what is mounted that succeeds, and by a close that succeeds.
  -- `Plain` tells the paths of which the look is to be believed.
  pub record IsUnstaging (Plain : (target : String) → State → Type 0) : Type 0 where
    pub mounted-unmount :
        (target : String) (w : State)
        → Plain target w
        → (is_shared_mounted target "" w).0 ≡ ok true
        → (unmount target w).0 ≡ ok tt
        → (is_shared_mounted target "" ((unmount target w).1)).0 ≡ ok false
    pub mounted-close :
        (id target device : String) (w : State)
        → (is_shared_mounted target device ((close_device id w).1)).0
          ≡ (is_shared_mounted target device w).0
    pub mapped-close :
        (id : String) (w : State)
        → (close_device id w).0 ≡ ok tt
        → (get_mapped_device_path id ((close_device id w).1)).0 ≡ ok ""

  -- The devices of a volume fit a target: its link, and the mapped device once it is opened.
  pub record IsFitting (Fit : (target device : String) → State → Type 0) (id target : String)
      (w : State) : Type 0 where
    pub link_fits : (link : String) → (get_device_path id w).0 ≡ ok link → Fit target link w
    pub opened_fits :
        (passphrase : String) (device : String)
        → (encrypt_and_open_device id passphrase w).0 ≡ ok device
        → Fit target device ((encrypt_and_open_device id passphrase w).1)
