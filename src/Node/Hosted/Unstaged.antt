-- ===== src/Node/Hosted/Unstaged.antt =====
-- `diskUtils` keeps the laws of unstaging, and unstaging over it.
use text.Mathlib.TextEquality.{eq_iff}
use scaleway_csi.Base.{none}
use scaleway_csi.Base.{
  String, ◌≡◌, ap, sym, ◌∙◌, Option, true, false, ok, err, arith, Result-cases, Bool-cases, inl,
  inr,
}
use scaleway_csi.Base.Text.{same_text}
use scaleway_csi.Ids.{Zone, get_volume_id_and_zone}
use scaleway_csi.Disk.{Host, not_exist}
use scaleway_csi.Disk.Paths.{mapper_name, mapper_path}
use scaleway_csi.Disk.Mounts.{shared_mount}
use scaleway_csi.Disk.Mounts.Written.{first_on}
use scaleway_csi.Disk.Luks.{luks_close}
use scaleway_csi.Disk.Devices.{disk_utils, is_shared_mounted, get_mapped_device_path, close_device}
use scaleway_csi.Node.Laws.{IsUnstaging}
use scaleway_csi.Node.Filled.{disk_utils-IsLooking}
use scaleway_csi.Node.Requests.{UnstageRequest}
use scaleway_csi.Node.Stage.{node_unstage_volume}
use scaleway_csi.Node.Stage.Undone.{node_unstage_volume-Gone}
use scaleway_csi.Node.Hosted.{IsTelling, IsPlain, IsClosing}
use scaleway_csi.Node.Hosted.Mounting.{
  is_shared_mounted_of_table, is_shared_mounted-target, shared_mount-none,
}
use scaleway_csi.Node.Hosted.Looking.{telling-IsReading, mapped_state}

module _ (host : Host) (T : IsTelling host) (C : IsClosing host T) where
  open host use {State, cleanup_mount_point}

  unmounted :
      (target : String) (w : State)
      → IsPlain host T target w
      → (is_shared_mounted host target "" w).0 ≡ ok true
      → (cleanup_mount_point target w).0 ≡ ok tt
      → (is_shared_mounted host target "" ((cleanup_mount_point target w).1)).0 ≡ ok false
  unfolding shared_mount
  unmounted target w plain there done =
      is_shared_mounted_of_table host T target "" _
        (is_shared_mounted-target host T target "" w there)
      ∙ ap (shared_mount "") (
          ap (λ t. first_on t (T.mounts ((cleanup_mount_point target w).1))) (sym plain.written)
          ∙ C.mounts-cleanup target w plain.resolved done)

  -- A close ends without a change, or with that of cryptsetup.
  data Closed (id : String) (w : State) : Type 0 where
    was_closed :
        (get_mapped_device_path host id w).0 ≡ ok "" → (close_device host id w).1 ≡ w → Closed id w
    now_closed :
        (luks_close host (mapper_name id) w).0 ≡ ok tt
        → (close_device host id w).1 ≡ (luks_close host (mapper_name id) w).1
        → Closed id w

  close_device-Closed : (id : String) (w : State) → (close_device host id w).0 ≡ ok tt → Closed id w
  unfolding close_device
  close_device-Closed id w e = elim (Result-cases (get_mapped_device_path host id w).0) [
    | inr (x, bad) ↦ absurd (ground (arith, mapped_state host T id w))
    | inl (d, found) ↦ elim (Bool-cases (same_text d "")) [
      | inl closed ↦
          was_closed (found ∙ ap ok ((eq_iff d "").0 closed))
            (ground (arith, mapped_state host T id w))
      | inr there ↦
          now_closed (ground (arith, mapped_state host T id w))
            (ground (arith, mapped_state host T id w))
    ]
  ]

  -- Whether it succeeds or not, a close leaves the mounts alone.
  mounts-close_device :
      (id : String) (w : State) → T.mounts ((close_device host id w).1) ≡ T.mounts w
  unfolding close_device
  mounts-close_device id w =
      ground (arith, mapped_state host T id w, C.mounts-close (mapper_name id) w)

  no_mapper_left :
      (id text : String) (w : State)
      → (host.stat (mapper_path id) w).0 ≡ err (not_exist text)
      → (get_mapped_device_path host id w).0 ≡ ok ""
  unfolding get_mapped_device_path
  no_mapper_left id text w e = ground arith

  mapped-close_device :
      (id : String) (w : State)
      → (close_device host id w).0 ≡ ok tt
      → (get_mapped_device_path host id ((close_device host id w).1)).0 ≡ ok ""
  mapped-close_device id w e = elim (close_device-Closed id w e) [
    | was_closed found still ↦ ap (λ u. (get_mapped_device_path host id u).0) still ∙ found
    | now_closed done after ↦
        let (text, missing) = C.stat-close id w done in
        ap (λ u. (get_mapped_device_path host id u).0) after ∙ no_mapper_left id text _ missing
  ]

  -- What is mounted where depends on the mount table alone.
  is_shared_mounted_same :
      (target device : String) (w u : State)
      → T.mounts w ≡ T.mounts u
      → (is_shared_mounted host target device w).0 ≡ (is_shared_mounted host target device u).0
  unfolding is_shared_mounted
  is_shared_mounted_same target device w u e = elim (Bool-cases (same_text target "")) [
    | inl none_given ↦ ground arith
    | inr given ↦
        is_shared_mounted_of_table host T target device w given
        ∙ ap (λ ms. shared_mount device (first_on target ms)) e
        ∙ sym (is_shared_mounted_of_table host T target device u given)
  ]

  pub disk_utils-IsUnstaging : IsUnstaging (disk_utils host) (IsPlain host T)
  unfolding disk_utils
  disk_utils-IsUnstaging = record {
    mounted-unmount = unmounted;
    mounted-close =
        λ id target device w. is_shared_mounted_same target device _ w (mounts-close_device id w);
    mapped-close = mapped-close_device;
  }

  -- Over an operating system that tells the kernel's mount table, and takes away what it unmounts
  -- and closes: with `diskUtils`, after an unstaging that succeeds, of a path that led to itself and
  -- that the kernel writes as it is, no mount in the kernel's table is on that path, and the mapped
  -- device of the volume is not open.
  pub node_unstage_volume_hosted :
      (parse_zone : String → Option Zone) (req : UnstageRequest) (w : State) (id : String)
      (zone : Zone)
      → get_volume_id_and_zone parse_zone req.volume_id ≡ ok (id, zone)
      → IsPlain host T req.staging_target_path w
      → (node_unstage_volume (disk_utils host) host.stat parse_zone req w).0 ≡ ok tt
      → let w' = (node_unstage_volume (disk_utils host) host.stat parse_zone req w).1 in
        (first_on req.staging_target_path (T.mounts w') ≡ none)
        × ((get_mapped_device_path host id w').0 ≡ ok "")
  unfolding disk_utils
  node_unstage_volume_hosted parse_zone req w id zone good plain e =
      let w' = (node_unstage_volume (disk_utils host) host.stat parse_zone req w).1 in
      let (off, closed) =
        node_unstage_volume-Gone (disk_utils host) host.stat T.stat_state
          (disk_utils-IsLooking host (telling-IsReading host T)) (IsPlain host T)
          disk_utils-IsUnstaging parse_zone req w id zone good plain e in
      let target = req.staging_target_path in
      let given = is_shared_mounted-target host T target "" w' off in
      (
        shared_mount-none "" (first_on target (T.mounts w'))
            (sym (is_shared_mounted_of_table host T target "" w' given) ∙ off),
        closed,
      )
