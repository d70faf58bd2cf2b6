-- ===== src/Node/Publish/Mode.antt =====
-- `NodePublishVolume` of a volume that is mounted on the target already.
use scaleway_csi.Base.{
  String, ◌<>◌, ◌≡◌, ◌≢◌, ap, ◌∙◌, Bool, true, false, Option, List, arith, ok, err, status,
  internal, already_exists, bind_ok, lift, if◌then◌else◌,
}
use scaleway_csi.Csi.{mount_access}
use scaleway_csi.Ids.{Zone}
use scaleway_csi.Base.Text.{same_text}
use scaleway_csi.Disk.{DiskUtils, failed, MountInfo, Host}
use scaleway_csi.Node.Requests.{PublishRequest, is_encrypted_volume}
use scaleway_csi.Node.Laws.{IsLooking}
use scaleway_csi.Node.Publish.{
  Publishing, check_publish, read_only_info, other_mode, same_bool, already_published,
  published_mount, publish, publish_new, node_publish_volume,
}

same_when : (a b : Bool) → a ≡ b → same_bool a b ≡ true
same_when a b e = ground arith

differ_when : (a b : Bool) → a ≢ b → same_bool a b ≡ false
differ_when a b ne = ground arith

pub check_publish-target :
    (parse_zone : String → Option Zone) (req : PublishRequest) {p : Publishing}
    → check_publish parse_zone req ≡ ok p
    → same_text req.target_path "" ≡ false
unfolding check_publish
check_publish-target parse_zone req e = ground arith

module _ (host : Host) (disk : DiskUtils host.State) (K : IsLooking disk) where
  open host use {State}
  open disk use {get_device_path, is_shared_mounted, is_block_device, get_mount_info}

  pub node_publish_volume-checked :
      (parse_zone : String → Option Zone) (req : PublishRequest) (w : State) {p : Publishing}
      → check_publish parse_zone req ≡ ok p
      → node_publish_volume host disk parse_zone req w ≡ publish host disk p req w
  unfolding node_publish_volume
  node_publish_volume-checked parse_zone req w e = ground arith

  -- What is found of the request: the device, mounted on the target as a directory.
  pub record Mounted (parse_zone : String → Option Zone) (req : PublishRequest) (w : State)
      : Type 0 where
    pub checks : Publishing
    pub device : String
    pub encrypted : Bool
    pub info : Option MountInfo
    pub fs_type : String
    pub flags : List String
    pub checked_ok : check_publish parse_zone req ≡ ok checks
    pub mount_type : checks.capability.access_type ≡ mount_access fs_type flags
    pub encrypted_ok : is_encrypted_volume req.volume_context ≡ ok encrypted
    pub device_found : (get_device_path checks.scw_id w).0 ≡ ok device
    pub mounted : (is_shared_mounted req.target_path device w).0 ≡ ok true
    pub directory : (is_block_device req.target_path w).0 ≡ ok false
    pub info_found : get_mount_info req.target_path w ≡ (ok info, w)

  published_mount_of :
      (p : Publishing) (target : String) (readonly : Bool) (w : State) {info : Option MountInfo}
      → get_mount_info target w ≡ (ok info, w)
      → published_mount host disk p target readonly w ≡ (
        if same_bool (read_only_info info) readonly then ok tt else err (other_mode p.volume_id),
        w,
      )
  unfolding published_mount
  published_mount_of p target readonly w found = ground arith

  already_published_of :
      (p : Publishing) (encrypted : Bool) (device : String) (req : PublishRequest) (w : State)
      {fs_type : String} {flags : List String}
      → p.capability.access_type ≡ mount_access fs_type flags
      → (is_block_device req.target_path w).0 ≡ ok false
      → already_published host disk p encrypted device req w
        ≡ published_mount host disk p req.target_path req.readonly w
  unfolding already_published
  already_published_of p encrypted device req w kind directory =
      ground (arith, K.block_device_state req.target_path w)

  publish_of :
      (p : Publishing) (encrypted : Bool) (device : String) (req : PublishRequest) (w : State)
      → is_encrypted_volume req.volume_context ≡ ok encrypted
      → (get_device_path p.scw_id w).0 ≡ ok device
      → (is_shared_mounted req.target_path device w).0 ≡ ok true
      → publish host disk p req w ≡ already_published host disk p encrypted device req w
  unfolding publish
  publish_of p encrypted device req w enc found mounted =
      ground
        (arith, K.device_path_state p.scw_id w, K.shared_mounted_state req.target_path device w)

  pub publish_of_new :
      (p : Publishing) (encrypted : Bool) (device : String) (req : PublishRequest) (w : State)
      → is_encrypted_volume req.volume_context ≡ ok encrypted
      → (get_device_path p.scw_id w).0 ≡ ok device
      → (is_shared_mounted req.target_path device w).0 ≡ ok false
      → publish host disk p req w ≡ publish_new host disk p encrypted device req w
  unfolding publish
  publish_of_new p encrypted device req w enc found free =
      ground
        (arith, K.device_path_state p.scw_id w, K.shared_mounted_state req.target_path device w)

  -- A target that cannot be checked, for a reason that is no panic.
  pub publish_unchecked :
      (p : Publishing) (encrypted : Bool) (device text : String) (req : PublishRequest) (w : State)
      → is_encrypted_volume req.volume_context ≡ ok encrypted
      → (get_device_path p.scw_id w).0 ≡ ok device
      → (is_shared_mounted req.target_path device w).0 ≡ err (failed text)
      → publish host disk p req w ≡ (
        err (
            status internal (
              ("error checking mount point of volume "
                <> (p.volume_id <> (" on path " <> (req.staging_target_path <> ": "))))
              <> text)),
        w,
      )
  unfolding publish
  publish_unchecked p encrypted device text req w enc found unchecked =
      ground
        (arith, K.device_path_state p.scw_id w, K.shared_mounted_state req.target_path device w)

  -- A request with a mount capability whose volume is mounted on the target already, as a
  -- directory and from its device, mounts and changes nothing: it succeeds if the mount is
  -- read-only just as the request asks, and fails with AlreadyExists if not.
  pub node_publish_volume-Mounted :
      (parse_zone : String → Option Zone) (req : PublishRequest) (w : State)
      (m : Mounted parse_zone req w)
      → (read_only_info m.info ≡ req.readonly
          → node_publish_volume host disk parse_zone req w ≡ (ok tt, w))
        × (read_only_info m.info ≢ req.readonly
            → (text : String) × (node_publish_volume host disk parse_zone req w
                ≡ (err (status already_exists text), w)))
  unfolding node_publish_volume
  node_publish_volume-Mounted parse_zone req w m =
      let p = m.checks in
      let same =
        bind_ok (lift (check_publish parse_zone req)) (λ p. publish host disk p req)
          (ap (λ r. (r, w)) m.checked_ok)
        ∙ publish_of p m.encrypted m.device req w m.encrypted_ok m.device_found m.mounted
        ∙ already_published_of p m.encrypted m.device req w m.mount_type m.directory
        ∙ published_mount_of p req.target_path req.readonly w m.info_found in
      (
        λ e.
            same
            ∙ ap (λ (t : Bool). (if t then ok tt else err (other_mode p.volume_id), w))
                (same_when (read_only_info m.info) req.readonly e),
        λ ne. (
          "volume with ID "
              <> (p.volume_id <> " does not match the given mount mode for the request"),
          same
              ∙ ap (λ (t : Bool). (if t then ok tt else err (other_mode p.volume_id), w))
                  (differ_when (read_only_info m.info) req.readonly ne),
        ),
      )
