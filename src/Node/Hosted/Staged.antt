-- ===== src/Node/Hosted/Staged.antt =====
-- `diskUtils` keeps the laws that the node service relies on, and staging over it.
use scaleway_csi.Base.{
  String, ◌≡◌, ap, sym, ◌∙◌, subst, Option, List, ok, or_fail_state, or_fail-eq-ok,
}
use scaleway_csi.Ids.{Zone}
use scaleway_csi.Disk.Paths.{device_link, mapper_path}
use scaleway_csi.Disk.{Host, wrapped}
use scaleway_csi.Disk.Devices.{
  disk_utils, format_and_mount, or_default, is_shared_mounted, is_block_device, get_device_path,
  encrypt_and_open_device,
}
use scaleway_csi.Node.Laws.{IsStaging, IsFitting}
use scaleway_csi.Node.Filled.{disk_utils-IsLooking}
use scaleway_csi.Node.Requests.{StageRequest}
use scaleway_csi.Node.Stage.{Staging, check_stage, node_stage_volume}
use scaleway_csi.Node.Stage.Again.{node_stage_volume_idempotent}
use scaleway_csi.Node.Hosted.{IsTelling, InPlace, IsMounting, IsOpening}
use scaleway_csi.Node.Hosted.Mounting.{is_shared_mounted-mount, is_block_device-mount}
use scaleway_csi.Node.Hosted.Looking.{telling-IsReading, get_device_path-link}
use scaleway_csi.Node.Hosted.Opening.{
  encrypt_and_open_device_again, encrypt_and_open_device-InPlace, encrypt_and_open_device_link,
  encrypt_and_open_device_mounted, encrypt_and_open_device-path,
}

module _ (host : Host) (T : IsTelling host) (M : IsMounting host T) (O : IsOpening host T) where
  open host use {State}

  -- The table names the path and the device as they are given, and a mount on the path is shared.
  abbrev pub AsGiven : (target device : String) → State → Type 0
  AsGiven target device w = InPlace host T target w × (M.named device ≡ device)

  -- The mount of `diskUtils` leaves what the host's leaves.
  format_and_mount_state :
      (target device fs_type : String) (options : List String) (w : State)
      → (format_and_mount host target device fs_type options w).1
        ≡ (host.format_and_mount device target (or_default fs_type) options w).1
  unfolding format_and_mount
  format_and_mount_state target device fs_type options w =
      or_fail_state (host.format_and_mount device target (or_default fs_type) options)
        (wrapped "failed to optionnaly format and mount: ") w

  format_and_mount-done :
      (target device fs_type : String) (options : List String) (w : State)
      → (format_and_mount host target device fs_type options w).0 ≡ ok tt
      → (host.format_and_mount device target (or_default fs_type) options w).0 ≡ ok tt
  unfolding format_and_mount
  format_and_mount-done target device fs_type options w e =
      or_fail-eq-ok (host.format_and_mount device target (or_default fs_type) options)
        (wrapped "failed to optionnaly format and mount: ") w e

  pub disk_utils-IsStaging : IsStaging (disk_utils host) AsGiven
  unfolding disk_utils
  disk_utils-IsStaging = record {
    mounted-mount = λ target device fs_type options w fit free e.
        ap (λ u. (is_shared_mounted host target device u).0)
          (format_and_mount_state target device fs_type options w)
        ∙ is_shared_mounted-mount host T M target device (or_default fs_type) options w (fit.0)
            (fit.1) free (format_and_mount-done target device fs_type options w e);
    block_device-mount = λ target device fs_type options w e.
        ap (λ u. (is_block_device host target u).0)
          (format_and_mount_state target device fs_type options w)
        ∙ is_block_device-mount host T M target device (or_default fs_type) options w
            (format_and_mount-done target device fs_type options w e);
    device_path-mount = λ id target device fs_type options w.
        ap (λ u. (get_device_path host id u).0)
          (format_and_mount_state target device fs_type options w)
        ∙ M.link-mount id device target (or_default fs_type) options w;
    device_path-open = λ id passphrase w. encrypt_and_open_device_link host T O id passphrase w;
    open-open = λ id passphrase w e. (encrypt_and_open_device_again host T O id passphrase w e).0;
    open-mount = λ id passphrase target device fs_type options w {opened} e.
        subst (λ u. encrypt_and_open_device host id passphrase u ≡ (ok opened, u))
          (sym (format_and_mount_state target device fs_type options w))
          (encrypt_and_open_device_mounted host T O M id passphrase device target
            (or_default fs_type) options w e);
  }

  -- The names of the link of a volume and of its mapped device are kept by `mount`.
  pub record IsNamed (id : String) : Type 0 where
    pub link_named : M.named (device_link id) ≡ device_link id
    pub mapper_named : M.named (mapper_path id) ≡ mapper_path id

  disk_utils-IsFitting :
      (id target : String) (w : State)
      → IsNamed id
      → InPlace host T target w
      → IsFitting (disk_utils host) AsGiven id target w
  unfolding disk_utils
  disk_utils-IsFitting id target w named place = record {
    link_fits = λ link e. (
      place,
      subst (λ d. M.named d ≡ d) (sym (get_device_path-link host T id w e)) named.link_named,
    );
    opened_fits = λ passphrase device e. (
      encrypt_and_open_device-InPlace host T O id passphrase target w place e,
      subst (λ d. M.named d ≡ d) (sym (encrypt_and_open_device-path host T O id passphrase w e))
          named.mapper_named,
    );
  }

  -- Over an operating system that tells the kernel's mount table, adds a mount to it that succeeds,
  -- and finds a device open that was opened, and where `mount` keeps the names of the link and of
  -- the mapped device of the volume: with `diskUtils`, a stage request that succeeded and is repeated
  -- succeeds again and changes nothing, if at first its path led to itself, the kernel writes the
  -- path as it is, and the mount on which the path lay was shared.
  pub node_stage_volume_hosted :
      (parse_zone : String → Option Zone) (req : StageRequest) (w : State)
      → InPlace host T req.staging_target_path w
      → ((s : Staging) → check_stage parse_zone req ≡ ok s → IsNamed s.scw_id)
      → (node_stage_volume (disk_utils host) parse_zone req w).0 ≡ ok tt
      → let w' = (node_stage_volume (disk_utils host) parse_zone req w).1 in
        node_stage_volume (disk_utils host) parse_zone req w' ≡ (ok tt, w')
  node_stage_volume_hosted parse_zone req w place named e =
      node_stage_volume_idempotent (disk_utils host)
        (disk_utils-IsLooking host (telling-IsReading host T)) AsGiven disk_utils-IsStaging
        parse_zone req w
        (λ s checked.
          disk_utils-IsFitting s.scw_id req.staging_target_path w (named s checked) place)
        e
