-- ===== src/Node/Hosted/Spared.antt =====
-- An encrypted volume that has a LUKS header keeps what is on it: `NodeStageVolume` over `diskUtils`
-- never formats it.
use scaleway_csi.Base.{
  String, ◌≡◌, ◌≢◌, Bool, true, false, Option, List, arith, ok, Call, Result-cases, inl, inr, ap,
  ◌∙◌, subst, sym, refl, Option-cases, or_fail_state,
}
use scaleway_csi.Ids.{Zone}
use scaleway_csi.Csi.{AccessType, unset_access, block_access, mount_access}
use scaleway_csi.Base.Table.{Table, lookup}
use scaleway_csi.Disk.{Host, wrapped}
use scaleway_csi.Disk.Paths.{device_link, mapper_name, mapper_path}
use scaleway_csi.Disk.Luks.{luks_status, luks_is_luks, luks_open}
use scaleway_csi.Disk.Devices.{
  disk_utils, get_device_path, get_mapped_device_path, get_mount_info, is_shared_mounted,
  is_block_device, format_and_mount, open_encrypted, encrypt_and_open_device, or_default,
}
use scaleway_csi.Node.Requests.{StageRequest, encryption_passphrase_key}
use scaleway_csi.Node.Stage.{
  Staging, check_stage, open_device, check_staged, mount_staged, stage_on, stage, node_stage_volume,
}

-- Whether the call succeeds or fails, what the test tells of the state stays true.
abbrev Keeps {ℓ} : {W : Type 0} {E : Type 0} {A : Type ℓ} → (W → Bool) → Call W E A → Type 0
Keeps {W = W} keep m = (w : W) → keep w ≡ true → keep ((m w).1) ≡ true

module _ (host : Host) where
  open host use {State, read_mounts, eval_symlinks, stat}

  -- A fact about the machine that a look, an opening of a mapped device and a mount leave true, and
  -- that tells that `isLuks` does not deny the header of the volume.
  pub record IsSparing (keep : State → Bool) (id : String) : Type 0 where
    pub read_keeps : Keeps keep read_mounts
    pub follow_keeps : (path : String) → Keeps keep (eval_symlinks path)
    pub stat_keeps : (path : String) → Keeps keep (stat path)
    pub status_keeps : (mapper : String) → Keeps keep (luks_status host mapper)
    pub header_keeps : (device : String) → Keeps keep (luks_is_luks host device)
    pub open_keeps :
        (device mapper passphrase : String) → Keeps keep (luks_open host device mapper passphrase)
    pub mount_keeps :
        (source target fs_type : String) (options : List String)
        → Keeps keep (host.format_and_mount source target fs_type options)
    pub header_seen :
        (w : State) → keep w ≡ true → (luks_is_luks host (device_link id) w).0 ≢ ok false

  module _ (keep : State → Bool) (id : String) (S : IsSparing keep id) where
    get_device_path-Keeps : Keeps keep (get_device_path host id)
    unfolding get_device_path
    get_device_path-Keeps w h =
        let followed = S.follow_keeps (device_link id) w h in
        elim (Result-cases (eval_symlinks (device_link id) w).0) [
          | inr (x, e) ↦ ground arith
          | inl (real, e) ↦ let seen = S.stat_keeps real _ followed in ground arith
        ]

    get_mapped_device_path-Keeps : Keeps keep (get_mapped_device_path host id)
    unfolding get_mapped_device_path
    get_mapped_device_path-Keeps w h =
        let seen = S.stat_keeps (mapper_path id) w h in
        let told = S.status_keeps (mapper_name id) _ seen in ground arith

    is_shared_mounted-Keeps :
        (target device : String) → Keeps keep (is_shared_mounted host target device)
    unfolding is_shared_mounted get_mount_info
    is_shared_mounted-Keeps target device w h = let seen = S.read_keeps w h in ground arith

    is_block_device-Keeps : (path : String) → Keeps keep (is_block_device host path)
    unfolding is_block_device
    is_block_device-Keeps path w h =
        let followed = S.follow_keeps path w h in
        elim (Result-cases (eval_symlinks path w).0) [
          | inr (x, e) ↦ ground arith
          | inl (real, e) ↦ let seen = S.stat_keeps real _ followed in ground arith
        ]

    format_and_mount-Keeps :
        (target device fs_type : String) (options : List String)
        → Keeps keep (format_and_mount host target device fs_type options)
    unfolding format_and_mount
    format_and_mount-Keeps target device fs_type options w h =
        ap keep (
          or_fail_state (host.format_and_mount device target (or_default fs_type) options)
            (wrapped "failed to optionnaly format and mount: ") w)
        ∙ S.mount_keeps device target (or_default fs_type) options w h

    get_device_path-gives :
        (device : String) (w : State)
        → (get_device_path host id w).0 ≡ ok device
        → device ≡ device_link id
    unfolding get_device_path
    get_device_path-gives device w e = ground arith

    -- The device is not formatted, since its header is seen.
    open_encrypted-Keeps : (passphrase : String) → Keeps keep (open_encrypted host id passphrase)
    unfolding open_encrypted
    open_encrypted-Keeps passphrase w h =
        let w1 = (get_device_path host id w).1 in
        let looked : keep w1 ≡ true = get_device_path-Keeps w h in
        elim (Result-cases (get_device_path host id w).0) [
          | inr (x, e) ↦ ground arith
          | inl (device, e) ↦
              let seen = S.header_keeps device w1 looked in
              elim (Result-cases (luks_is_luks host device w1).0) [
                | inr (x, bad) ↦ ground arith
                | inl (false, plain) ↦ absurd (
                    subst (λ d. (luks_is_luks host d w1).0 ≢ ok false)
                      (sym (get_device_path-gives device w e)) (S.header_seen w1 looked) plain)
                | inl (true, luks) ↦
                    let opened = S.open_keeps device (mapper_name id) passphrase _ seen in
                    ground arith
              ]
        ]

    encrypt_and_open_device-Keeps :
        (passphrase : String) → Keeps keep (encrypt_and_open_device host id passphrase)
    unfolding encrypt_and_open_device
    encrypt_and_open_device-Keeps passphrase w h =
        let looked = get_mapped_device_path-Keeps w h in
        let opened = open_encrypted-Keeps passphrase _ looked in ground arith

    open_device-Keeps :
        (s : Staging) (device : String) (secrets : Table String)
        → s.scw_id ≡ id
        → Keeps keep (open_device (disk_utils host) s device secrets)
    unfolding open_device disk_utils
    open_device-Keeps s device secrets same w h =
        elim (Option-cases (lookup encryption_passphrase_key secrets)) [
          | inl e ↦ ground arith
          | inr (passphrase, e) ↦
              let kept =
                subst (λ i. keep ((encrypt_and_open_device host i passphrase w).1) ≡ true)
                  (sym same) (encrypt_and_open_device-Keeps passphrase w h) in
              ground arith
        ]

    check_staged-Keeps :
        (s : Staging) (target : String) → Keeps keep (check_staged (disk_utils host) s target)
    unfolding check_staged disk_utils
    check_staged-Keeps s target w h = let looked = is_block_device-Keeps target w h in ground arith

    mount_staged-Keeps :
        (device target : String) (access : AccessType)
        → Keeps keep (mount_staged (disk_utils host) device target access)
    unfolding mount_staged disk_utils
    mount_staged-Keeps device target unset_access w h = h
    mount_staged-Keeps device target block_access w h = h
    mount_staged-Keeps device target (mount_access fs_type options) w h =
        let done = format_and_mount-Keeps target device fs_type options w h in ground arith

    stage_on-Keeps :
        (s : Staging) (device target : String)
        → Keeps keep (stage_on (disk_utils host) s device target)
    unfolding stage_on disk_utils
    stage_on-Keeps s device target w h =
        let looked = is_shared_mounted-Keeps target device w h in
        let checked = check_staged-Keeps s target _ looked in
        let done = mount_staged-Keeps device target s.capability.access_type _ looked in
        ground arith

    stage-Keeps :
        (s : Staging) (req : StageRequest)
        → s.scw_id ≡ id
        → Keeps keep (stage (disk_utils host) s req)
    unfolding stage disk_utils
    stage-Keeps s req same w h =
        let looked =
          subst (λ i. keep ((get_device_path host i w).1) ≡ true) (sym same)
            (get_device_path-Keeps w h) in
        let w1 = (get_device_path host s.scw_id w).1 in
        elim (Result-cases (get_device_path host s.scw_id w).0) [
          | inr (x, e) ↦ ground arith
          | inl (link, e) ↦
              let opened = open_device-Keeps s link req.secrets same w1 looked in
              elim (Result-cases (open_device (disk_utils host) s link req.secrets w1).0) [
                | inr (x, bad) ↦ ground arith
                | inl (device, good) ↦
                    let done = stage_on-Keeps s device req.staging_target_path _ opened in
                    ground arith
              ]
        ]

  -- For a test of the machine that stays true under looks, the opening of a mapped device and the
  -- mounts of the operating system, and under which `isLuks` does not deny the header of the volume:
  -- if it is true before a staging with `diskUtils`, it is true after it, on every path, errors
  -- included. So a volume that has a header is not formatted.
  pub node_stage_volume_keeps :
      (parse_zone : String → Option Zone) (req : StageRequest) (keep : State → Bool) (w : State)
      → ((s : Staging) → check_stage parse_zone req ≡ ok s → IsSparing keep s.scw_id)
      → keep w ≡ true
      → keep ((node_stage_volume (disk_utils host) parse_zone req w).1) ≡ true
  unfolding node_stage_volume
  node_stage_volume_keeps parse_zone req keep w spares h =
      elim (Result-cases (check_stage parse_zone req)) [
        | inr (x, e) ↦ ground arith
        | inl (s, e) ↦
            let done = stage-Keeps keep s.scw_id (spares s e) s req refl w h in ground arith
      ]
