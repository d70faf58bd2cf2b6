-- ===== src/Node/Hosted/Republished.antt =====
-- `NodePublishVolume` over `diskUtils` where a mount is on the target.
use text.Mathlib.TextEquality.{eq_iff}
use scaleway_csi.Base.{
  String, ◌<>◌, ◌≡◌, ◌≢◌, refl, ap, sym, ◌∙◌, subst, Bool, false, Option, some, arith, ok, err,
  status, internal, Bool-cases, true, List, ◌∷◌, already_exists, inl, inr,
}
use scaleway_csi.Errors.{error_text, target_not_mounter_on_right_device, target_not_shared_mounter}
use scaleway_csi.Base.Text.{same_text, differ}
use scaleway_csi.Base.Words.{append-ne-nil}
use scaleway_csi.Csi.{mount_access}
use scaleway_csi.Ids.{Zone}
use scaleway_csi.Disk.{failed, Host, MountInfo}
use scaleway_csi.Disk.Paths.{device_link, clean_rooted}
use scaleway_csi.Disk.Mounts.{shared_mount, is_shared}
use scaleway_csi.Disk.Mounts.Written.{first_on}
use scaleway_csi.Disk.Devices.{disk_utils, get_device_path, is_block_device}
use scaleway_csi.Node.Filled.{disk_utils-IsLooking}
use scaleway_csi.Node.Requests.{PublishRequest, is_encrypted_volume}
use scaleway_csi.Node.Publish.{Publishing, check_publish, node_publish_volume, is_read_only}
use scaleway_csi.Node.Publish.Mode.{
  publish_unchecked, check_publish-target, node_publish_volume-Mounted, node_publish_volume-checked,
}
use scaleway_csi.Node.Hosted.{IsTelling, mode_word}
use scaleway_csi.Node.Hosted.Mounting.{
  is_shared_mounted_of_table, get_mount_info_of, is_read_only-mode_word,
}
use scaleway_csi.Node.Hosted.Looking.{telling-IsReading, get_device_path-link}

starts : (s : String) → same_text ("/" <> s) "" ≡ false
starts s = elim (Bool-cases (same_text ("/" <> s) "")) [
  | inr e ↦ e
  | inl e ↦ absurd (append-ne-nil "/" s (differ refl) ((eq_iff _ _).0 e))
]

device_link_given : (id : String) → same_text (device_link id) "" ≡ false
unfolding device_link clean_rooted
device_link_given id = starts _

-- A mount that is not shared, or of another source, is refused.
shared_mount_other :
    (device : String) (info : MountInfo)
    → same_text device "" ≡ false
    → same_text info.source device ≡ false
    → (text : String) × (shared_mount device (some info) ≡ err (failed text))
unfolding shared_mount
shared_mount_other device info given other = elim (Bool-cases (is_shared info.optional_fields)) [
  | inl shared ↦ (error_text target_not_mounter_on_right_device, ground arith)
  | inr alone ↦ (error_text target_not_shared_mounter, ground arith)
]

shared_mount_of :
    (device : String) (info : MountInfo)
    → is_shared info.optional_fields ≡ true
    → info.source ≡ device
    → shared_mount device (some info) ≡ ok true
unfolding shared_mount
shared_mount_of device info shared same = ground (arith, eq_iff info.source device)

module _ (host : Host) (T : IsTelling host) where
  open host use {State}

  -- Over an operating system that tells the kernel's mount table: with `diskUtils`, a request that
  -- passes its checks, for a volume whose device is found, and on whose target stands a mount of
  -- another source than the link of the volume, fails with Internal and changes nothing.
  pub node_publish_volume_other_source :
      (parse_zone : String → Option Zone) (req : PublishRequest) (w : State) (p : Publishing)
      (device : String) (encrypted : Bool) (info : MountInfo)
      → check_publish parse_zone req ≡ ok p
      → (get_device_path host p.scw_id w).0 ≡ ok device
      → is_encrypted_volume req.volume_context ≡ ok encrypted
      → first_on req.target_path (T.mounts w) ≡ some info
      → same_text info.source (device_link p.scw_id) ≡ false
      → (text : String) × (node_publish_volume host (disk_utils host) parse_zone req w
          ≡ (err (status internal text), w))
  unfolding disk_utils
  node_publish_volume_other_source parse_zone req w p device encrypted info good found enc there
        other =
      let link = get_device_path-link host T p.scw_id w found in
      let (text, refused) =
        shared_mount_other device info
          (subst (λ d. same_text d "" ≡ false) (sym link) (device_link_given p.scw_id))
          (subst (λ d. same_text info.source d ≡ false) (sym link) other) in
      let unchecked =
        is_shared_mounted_of_table host T req.target_path device w
          (check_publish-target parse_zone req good)
        ∙ ap (shared_mount device) there
        ∙ refused in
      (
        _,
        node_publish_volume-checked host (disk_utils host)
              (disk_utils-IsLooking host (telling-IsReading host T)) parse_zone req w good
            ∙ publish_unchecked host (disk_utils host)
                (disk_utils-IsLooking host (telling-IsReading host T)) p encrypted device text req w
                enc found unchecked,
      )

  -- Over an operating system that tells the kernel's mount table: with `diskUtils`, a request with a
  -- mount capability that passes its checks, for a volume whose device is found, and on whose target,
  -- no block device, stands a shared mount of the link of the volume. When the kernel's options of
  -- that mount begin with "ro", the request succeeds if it asks for reading only, and else fails
  -- with AlreadyExists; when they begin with "rw", it is the other way around. It changes nothing.
  pub node_publish_volume_mode :
      (parse_zone : String → Option Zone) (req : PublishRequest) (w : State) (p : Publishing)
      (device fs_type : String) (flags rest : List String) (encrypted read_only : Bool)
      (info : MountInfo)
      → check_publish parse_zone req ≡ ok p
      → p.capability.access_type ≡ mount_access fs_type flags
      → (get_device_path host p.scw_id w).0 ≡ ok device
      → is_encrypted_volume req.volume_context ≡ ok encrypted
      → first_on req.target_path (T.mounts w) ≡ some info
      → info.source ≡ device_link p.scw_id
      → is_shared info.optional_fields ≡ true
      → info.mount_options ≡ mode_word read_only ∷ rest
      → (is_block_device host req.target_path w).0 ≡ ok false
      → (read_only ≡ req.readonly
          → node_publish_volume host (disk_utils host) parse_zone req w ≡ (ok tt, w))
        × (read_only ≢ req.readonly
            → (text : String) × (node_publish_volume host (disk_utils host) parse_zone req w
                ≡ (err (status already_exists text), w)))
  unfolding disk_utils
  node_publish_volume_mode parse_zone req w p device fs_type flags rest encrypted read_only info
        good access found enc there from shared options directory =
      let link = get_device_path-link host T p.scw_id w found in
      let reads = ap is_read_only options ∙ is_read_only-mode_word read_only rest in
      let (same, other) =
        node_publish_volume-Mounted host (disk_utils host)
          (disk_utils-IsLooking host (telling-IsReading host T)) parse_zone req w
          (record {
            checks = p;
            device = device;
            encrypted = encrypted;
            info = some info;
            fs_type = fs_type;
            flags = flags;
            checked_ok = good;
            mount_type = access;
            encrypted_ok = enc;
            device_found = found;
            mounted =
                is_shared_mounted_of_table host T req.target_path device w
                  (check_publish-target parse_zone req good)
                ∙ ap (shared_mount device) there
                ∙ shared_mount_of device info shared (from ∙ sym link);
            directory = directory;
            info_found = get_mount_info_of host T req.target_path w there;
          }) in
      (λ e. same (reads ∙ e), λ ne. other (λ e. ne (sym reads ∙ e)))
