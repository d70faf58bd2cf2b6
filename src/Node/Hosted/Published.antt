-- ===== src/Node/Hosted/Published.antt =====
-- `NodePublishVolume` over `diskUtils`: a staged volume that is published twice.
use scaleway_csi.Base.{
  String, ◌≡◌, ap, sym, ◌∙◌, subst, Bool, true, false, Option, none, some, List, [], ◌∷◌, ◌++◌, ok,
}
use scaleway_csi.Csi.{mount_access}
use scaleway_csi.Ids.{Zone}
use scaleway_csi.Disk.{Host, MountInfo}
use scaleway_csi.Disk.Paths.{device_link}
use scaleway_csi.Disk.Mounts.{shared_mount, is_shared}
use scaleway_csi.Disk.Mounts.Written.{info_of, first_on}
use scaleway_csi.Disk.Devices.{disk_utils, is_block_device, get_device_path, or_default}
use scaleway_csi.Node.Filled.{disk_utils-IsLooking}
use scaleway_csi.Node.Requests.{PublishRequest, is_encrypted_volume}
use scaleway_csi.Node.Publish.{
  Publishing, check_publish, publish_options, publish_new, node_publish_volume, read_only_info,
}
use scaleway_csi.Node.Publish.Mode.{
  Mounted, node_publish_volume-Mounted, check_publish-target, node_publish_volume-checked,
}
use scaleway_csi.Node.Hosted.{IsTelling, IsPlain, IsBinding, has_option}
use scaleway_csi.Node.Publish.{is_read_only}
use scaleway_csi.Node.Hosted.Mounting.{
  get_mount_info_of, is_read_only-mode_word, is_shared_mounted_of_table, shared_mount-here,
  first_on-append,
}
use scaleway_csi.Node.Hosted.Looking.{telling-IsReading, get_device_path-link}
use scaleway_csi.Node.Hosted.Binding.{
  options-bind, options-ro, Ran, publish-Ran, publish_new_done, with_mount_same,
}

module _ (host : Host) (T : IsTelling host) (B : IsBinding host T) where
  open host use {State, mkdir_all, mount}

  -- A request to publish for the first time, with a mount capability, a volume that is staged: its
  -- link is mounted on the staging path, a directory, among peers, nothing is on the target, both
  -- paths lead to themselves once the target is made and are written as they are, and the flags of
  -- the capability do not ask for reading only.
  pub record Staged (parse_zone : String → Option Zone) (req : PublishRequest) (w : State)
      : Type 0 where
    pub checks : Publishing
    pub fs_type : String
    pub flags : List String
    pub info : MountInfo
    pub checked_ok : check_publish parse_zone req ≡ ok checks
    pub mount_type : checks.capability.access_type ≡ mount_access fs_type flags
    pub clear : has_option "ro" flags ≡ false
    pub staged : first_on req.staging_target_path (T.mounts w) ≡ some info
    pub from_link : info.source ≡ device_link checks.scw_id
    pub peers : is_shared info.optional_fields ≡ true
    pub directory : (is_block_device host req.staging_target_path w).0 ≡ ok false
    pub free : first_on req.target_path (T.mounts w) ≡ none
    pub staging_plain : IsPlain host T req.staging_target_path w
    pub target_plain : IsPlain host T req.target_path ((mkdir_all req.target_path w).1)

  -- After the bind mount, the volume is mounted on the target as the request asks.
  module _ (parse_zone : String → Option Zone) (req : PublishRequest) (w : State)
      (S : Staged parse_zone req w) where
    abbrev options : List String
    options = publish_options (mount_access S.fs_type S.flags) req.readonly

    abbrev made : State
    made = (mkdir_all req.target_path w).1

    abbrev bound : State
    bound = (mount req.staging_target_path req.target_path (or_default S.fs_type) options made).1

    bound-Mounted :
        (encrypted : Bool) (device : String)
        → is_encrypted_volume req.volume_context ≡ ok encrypted
        → (get_device_path host S.checks.scw_id w).0 ≡ ok device
        → (mount req.staging_target_path req.target_path (or_default S.fs_type) options made).0
          ≡ ok tt
        → (M : Mounted host
            (disk_utils host)
            (disk_utils-IsLooking host (telling-IsReading host T))
            parse_zone
            req
            bound)
          × (read_only_info M.info ≡ req.readonly)
    unfolding disk_utils
    bound-Mounted encrypted device enc found done =
        let binds = options-bind S.fs_type S.flags req.readonly in
        let same = B.mounts-mkdir req.target_path w in
        let (m, rest, point, source, peers, mode, joined) =
          B.mounts-bind req.staging_target_path req.target_path (or_default S.fs_type) options made
            (B.plain-mkdir req.target_path req.staging_target_path w S.staging_plain)
            S.target_plain.resolved binds (ap (first_on req.staging_target_path) same ∙ S.staged)
            done in
        let here =
          ap (first_on req.target_path) (joined ∙ ap (λ ms. ms ++ m ∷ []) same)
          ∙ first_on-append req.target_path (T.mounts w) m S.free
              (point ∙ S.target_plain.written) in
        let from =
          source ∙ S.from_link ∙ sym (get_device_path-link host T S.checks.scw_id w found) in
        (
          record {
            checks = S.checks;
            device = device;
            encrypted = encrypted;
            info = some (info_of m);
            fs_type = S.fs_type;
            flags = S.flags;
            checked_ok = S.checked_ok;
            mount_type = S.mount_type;
            encrypted_ok = enc;
            device_found =
                B.link-bind S.checks.scw_id req.staging_target_path req.target_path
                  (or_default S.fs_type) options made
                ∙ B.link-mkdir S.checks.scw_id req.target_path w
                ∙ found;
            mounted =
                is_shared_mounted_of_table host T req.target_path device bound
                  (check_publish-target parse_zone req S.checked_ok)
                ∙ ap (shared_mount device) here
                ∙ shared_mount-here m device (ap is_shared peers ∙ S.peers) from;
            directory =
                B.file-bind req.staging_target_path req.target_path (or_default S.fs_type) options
                  made binds done
                ∙ B.file-mkdir req.target_path req.staging_target_path w S.directory;
            info_found = get_mount_info_of host T req.target_path bound here;
          },
          ap is_read_only mode
              ∙ is_read_only-mode_word _ rest
              ∙ options-ro S.fs_type S.flags req.readonly S.clear,
        )

    -- The first publication leaves the bind mount.
    Ran-bound :
        {w' : State}
        → (R : Ran host T B S.checks req w w')
        → ((mount req.staging_target_path req.target_path (or_default S.fs_type) options made).0
            ≡ ok tt)
          × (w' ≡ bound)
    Ran-bound R =
        let eq = with_mount_same host T B S.checks S.mount_type in
        let (done, left) =
          publish_new_done host T B S.checks R.encrypted R.device req w S.fs_type S.flags (
            subst (λ q. (publish_new host (disk_utils host) q R.encrypted R.device req w).0 ≡ ok tt)
              eq R.is_done) in
        (
          done,
          R.after
              ∙ ap (λ q. (publish_new host (disk_utils host) q R.encrypted R.device req w).1) eq
              ∙ left,
        )

    again_of :
        {w' : State}
        → Ran host T B S.checks req w w'
        → node_publish_volume host (disk_utils host) parse_zone req w' ≡ (ok tt, w')
    again_of R =
        let (done, left) = Ran-bound R in
        let (M, mode) = bound-Mounted R.encrypted R.device R.encrypted_ok R.found done in
        subst (λ u. node_publish_volume host (disk_utils host) parse_zone req u ≡ (ok tt, u))
          (sym left)
          ((node_publish_volume-Mounted host (disk_utils host)
              (disk_utils-IsLooking host (telling-IsReading host T)) parse_zone req bound M).0
            mode)

  -- Over an operating system that tells the kernel's mount table, and whose bind mounts stand in it:
  -- with `diskUtils`, a volume whose link is mounted on the staging path, a directory, among peers,
  -- and which is published with a mount capability on a target where nothing is mounted, with flags
  -- that do not ask for reading only: when that succeeded and is repeated, it succeeds again and
  -- changes nothing, if the staging path and, once it is made, the target lead to themselves, and
  -- the kernel writes them as they are.
  pub node_publish_volume_hosted :
      (parse_zone : String → Option Zone) (req : PublishRequest) (w : State)
      → Staged parse_zone req w
      → (node_publish_volume host (disk_utils host) parse_zone req w).0 ≡ ok tt
      → let w' = (node_publish_volume host (disk_utils host) parse_zone req w).1 in
        node_publish_volume host (disk_utils host) parse_zone req w' ≡ (ok tt, w')
  node_publish_volume_hosted parse_zone req w S e =
      let checked =
        node_publish_volume-checked host (disk_utils host)
          (disk_utils-IsLooking host (telling-IsReading host T)) parse_zone req w S.checked_ok in
      let R =
        publish-Ran host T B S.checks req w (check_publish-target parse_zone req S.checked_ok)
          S.free (ap (λ r. r.0) (sym checked) ∙ e) in
      again_of parse_zone req w S (subst (λ r. Ran host T B S.checks req w r.1) (sym checked) R)
