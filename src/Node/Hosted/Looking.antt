-- ===== src/Node/Hosted/Looking.antt =====
-- The looks of `diskUtils` at the devices of a volume.
use scaleway_csi.Base.{String, ◌≡◌, ap, true, false, arith, ok, err, inl, inr, Result-cases}
use scaleway_csi.Base.Text.{same_text, split}
use scaleway_csi.Base.Words.{apart, append-ne-nil}
use scaleway_csi.Disk.{Host, DiskError, FileMode, not_exist, failed, crashed, exited}
use scaleway_csi.Disk.Paths.{device_link, mapper_name, mapper_path, disk_luks_mapper_path}
use scaleway_csi.Disk.Luks.{luks_status}
use scaleway_csi.Disk.Devices.{
  get_device_path, get_mapped_device_path, open_encrypted, encrypt_and_open_device, says_active,
}
use scaleway_csi.Node.Filled.{IsReading}
use scaleway_csi.Node.Hosted.{IsTelling}

pub mapper_path-named : (id : String) → same_text (mapper_path id) "" ≡ false
mapper_path-named id = apart (append-ne-nil disk_luks_mapper_path (mapper_name id) cc)

module _ (host : Host) (T : IsTelling host) where
  open host use {State, format_and_mount}

  pub telling-IsReading : IsReading host
  telling-IsReading = record {
    mounts_state = λ w. ap (λ r. r.1) (T.table_is w);
    symlinks_state = T.symlinks_state;
    stat_state = T.stat_state;
  }

  pub get_device_path-link :
      (id : String) (w : State) {link : String}
      → (get_device_path host id w).0 ≡ ok link
      → link ≡ device_link id
  unfolding get_device_path
  get_device_path-link id w e = ground arith

  pub mapped_state : (id : String) (w : State) → (get_mapped_device_path host id w).1 ≡ w
  unfolding get_mapped_device_path
  mapped_state id w =
      ground (arith, T.stat_state (mapper_path id) w, T.status_state (mapper_name id) w)

  -- A device that is there and active is found under its own path.
  pub mapped_of_active :
      (id status : String) (mode : FileMode) (w : State)
      → (host.stat (mapper_path id) w).0 ≡ ok mode
      → (luks_status host (mapper_name id) w).0 ≡ ok status
      → says_active (split b'\n' status) ≡ true
      → get_mapped_device_path host id w ≡ (ok (mapper_path id), w)
  unfolding get_mapped_device_path
  mapped_of_active id status mode w there told active =
      ground (arith, T.stat_state (mapper_path id) w, T.status_state (mapper_name id) w)

  pub encrypt_of_mapped :
      (id passphrase : String) (w : State) {device : String}
      → (get_mapped_device_path host id w).0 ≡ ok device
      → same_text device "" ≡ false
      → encrypt_and_open_device host id passphrase w ≡ (ok device, w)
  unfolding encrypt_and_open_device
  encrypt_of_mapped id passphrase w found there = ground (arith, mapped_state id w)

  pub encrypt_of_closed :
      (id passphrase : String) (w : State) {device : String}
      → (get_mapped_device_path host id w).0 ≡ ok device
      → same_text device "" ≡ true
      → encrypt_and_open_device host id passphrase w ≡ open_encrypted host id passphrase w
  unfolding encrypt_and_open_device
  encrypt_of_closed id passphrase w found closed = ground (arith, mapped_state id w)

  pub encrypt_of_error :
      (id passphrase : String) (w : State) {e : DiskError}
      → (get_mapped_device_path host id w).0 ≡ err e
      → encrypt_and_open_device host id passphrase w ≡ (err e, w)
  unfolding encrypt_and_open_device
  encrypt_of_error id passphrase w bad = ground (arith, mapped_state id w)

  -- A mapped device is found under its own path.
  pub mapped-path :
      (id : String) (w : State) {device : String}
      → (get_mapped_device_path host id w).0 ≡ ok device
      → same_text device "" ≡ false
      → device ≡ mapper_path id
  unfolding get_mapped_device_path
  mapped-path id w {device} e named = elim (Result-cases (host.stat (mapper_path id) w).0) [
    | inl (mode, there) ↦
        ground (arith, T.stat_state (mapper_path id) w, T.status_state (mapper_name id) w)
    | inr (not_exist text, bad) ↦
        let nameless : "" ≡ device = ground (arith, T.stat_state (mapper_path id) w) in
        cc (ap (λ d. same_text d "") nameless, named)
    | inr (failed text, bad) ↦ absurd (ground (arith, T.stat_state (mapper_path id) w))
    | inr (crashed text, bad) ↦ absurd (ground (arith, T.stat_state (mapper_path id) w))
    | inr (exited code text, bad) ↦ absurd (ground (arith, T.stat_state (mapper_path id) w))
  ]
