-- ===== src/Node/Hosted/Opening.antt =====
-- A device that was opened is found open.
use scaleway_csi.Base.{
  String, ◌≡◌, ◌⊎◌, refl, ap, sym, ◌∙◌, subst, true, false, List, arith, ok, inl, inr, Bool-cases,
  Result-cases, ok-injective,
}
use scaleway_csi.Base.Text.{same_text}
use scaleway_csi.Disk.{Host}
use scaleway_csi.Disk.Paths.{mapper_name, mapper_path}
use scaleway_csi.Disk.Luks.{luks_format, luks_open, luks_is_luks}
use scaleway_csi.Disk.Devices.{
  get_device_path, get_mapped_device_path, open_encrypted, encrypt_and_open_device,
}
use scaleway_csi.Node.Filled.{get_device_path_state}
use scaleway_csi.Node.Hosted.{IsTelling, InPlace, IsOpening, IsMounting}
use scaleway_csi.Node.Hosted.Looking.{
  mapper_path-named, telling-IsReading, mapped_of_active, encrypt_of_mapped, encrypt_of_closed,
  encrypt_of_error, mapped-path,
}

module _ (host : Host) (T : IsTelling host) where
  open host use {State, format_and_mount}

  -- What an opening that ends well went through.
  record Opened (id passphrase : String) (w : State) (device : String) : Type 0 where
    link : String
    before : State
    before_is : (before ≡ w) ⊎ (before ≡ (luks_format host link passphrase w).1)
    device_is : device ≡ mapper_path id
    done : (luks_open host link (mapper_name id) passphrase before).0 ≡ ok tt
    after_is :
        (open_encrypted host id passphrase w).1
        ≡ (luks_open host link (mapper_name id) passphrase before).1

  link_state : (id : String) (w : State) → (get_device_path host id w).1 ≡ w
  link_state = get_device_path_state host (telling-IsReading host T)

  open_encrypted-Opened :
      (id passphrase : String) (w : State) {device : String}
      → (open_encrypted host id passphrase w).0 ≡ ok device
      → Opened id passphrase w device
  unfolding open_encrypted
  open_encrypted-Opened id passphrase w {device} e =
      elim (Result-cases (get_device_path host id w).0) [
        | inr (x, bad) ↦ absurd (ground (arith, link_state id w))
        | inl (link, found) ↦ elim (Result-cases (luks_is_luks host link w).0) [
          | inr (x, bad) ↦ absurd (ground (arith, link_state id w, T.header_state link w))
          | inl (true, luks) ↦ record {
            link = link;
            before = w;
            before_is = inl refl;
            device_is = ground (arith, link_state id w, T.header_state link w);
            done = ground (arith, link_state id w, T.header_state link w);
            after_is = ground (arith, link_state id w, T.header_state link w);
          }
          | inl (false, plain) ↦
              let w1 = (luks_format host link passphrase w).1 in
              record {
                link = link;
                before = w1;
                before_is = inr refl;
                device_is = ground (arith, link_state id w, T.header_state link w);
                done = ground (arith, link_state id w, T.header_state link w);
                after_is = ground (arith, link_state id w, T.header_state link w);
              }
        ]
      ]

  module _ (O : IsOpening host T) where
    -- After an opening that ends well the device is there, under its own path.
    opened-mapped :
        (id passphrase : String) (w : State) {device : String}
        → (open_encrypted host id passphrase w).0 ≡ ok device
        → let w' = (open_encrypted host id passphrase w).1 in
          (device ≡ mapper_path id)
          × (get_mapped_device_path host id w' ≡ (ok (mapper_path id), w'))
    opened-mapped id passphrase w e =
        let o = open_encrypted-Opened id passphrase w e in
        let (mode, there) = O.stat-open id o.link passphrase o.before o.done in
        let (status, told, active) = O.status-open id o.link passphrase o.before o.done in
        (
          o.device_is,
          subst (λ u. get_mapped_device_path host id u ≡ (ok (mapper_path id), u)) (sym o.after_is)
              (mapped_of_active host T id status mode _ there told active),
        )

    -- The device is open, and opening it again changes nothing.
    abbrev pub StaysOpen : (id passphrase device : String) → State → Type 0
    StaysOpen id passphrase device w =
        (encrypt_and_open_device host id passphrase w ≡ (ok device, w))
        × ((get_mapped_device_path host id w).0 ≡ ok device)
        × (same_text device "" ≡ false)

    -- An opening that ends well is a look that changes nothing when it is repeated.
    pub encrypt_and_open_device_again :
        (id passphrase : String) (w : State) {device : String}
        → (encrypt_and_open_device host id passphrase w).0 ≡ ok device
        → let w' = (encrypt_and_open_device host id passphrase w).1 in
          StaysOpen id passphrase device w'
    encrypt_and_open_device_again id passphrase w {device} e =
        elim (Result-cases (get_mapped_device_path host id w).0) [
          | inr (x, bad) ↦ absurd (cc (e, encrypt_of_error host T id passphrase w bad))
          | inl (d, found) ↦ elim (Bool-cases (same_text d "")) [
            | inr there ↦
                let same = encrypt_of_mapped host T id passphrase w found there in
                let d_is = ok-injective (sym (ap (λ r. r.0) same) ∙ e) in
                let still = ap (λ r. r.1) same in
                subst (StaysOpen id passphrase device) (sym still) (
                  same ∙ ap (λ d. (ok d, w)) d_is,
                  found ∙ ap ok d_is,
                  ap (λ d. same_text d "") (sym d_is) ∙ there,
                )
            | inl closed ↦
                let same = encrypt_of_closed host T id passphrase w found closed in
                let (d_is, mapped) = opened-mapped id passphrase w (ap (λ r. r.0) (sym same) ∙ e) in
                let w' = (open_encrypted host id passphrase w).1 in
                subst (StaysOpen id passphrase device) (sym (ap (λ r. r.1) same)) (
                  encrypt_of_mapped host T id passphrase w' (ap (λ r. r.0) mapped)
                        (mapper_path-named id)
                      ∙ ap (λ d. (ok d, w')) (sym d_is),
                  ap (λ r. r.0) mapped ∙ ap ok (sym d_is),
                  ap (λ d. same_text d "") d_is ∙ mapper_path-named id,
                )
          ]
        ]

    open_encrypted_link :
        (id passphrase : String) (w : State)
        → (get_device_path host id ((open_encrypted host id passphrase w).1)).0
          ≡ (get_device_path host id w).0
    unfolding open_encrypted
    open_encrypted_link id passphrase w = elim (Result-cases (get_device_path host id w).0) [
      | inr (x, bad) ↦ ground (arith, link_state id w)
      | inl (link, found) ↦
          let w1 = (luks_format host link passphrase w).1 in
          elim (Result-cases (luks_is_luks host link w).0) [
            | inr (x, bad) ↦ ground (arith, link_state id w, T.header_state link w)
            | inl (true, luks) ↦ ground (
              arith,
              link_state id w,
              T.header_state link w,
              O.link-open id link (mapper_name id) passphrase w,
            )
            | inl (false, plain) ↦ ground (
              arith,
              link_state id w,
              T.header_state link w,
              O.link-open id link (mapper_name id) passphrase w1,
              O.link-format id link passphrase w,
            )
          ]
    ]

    -- A path stays in place when a device is opened.
    open_encrypted-InPlace :
        (id passphrase path : String) (w : State) {device : String}
        → InPlace host T path w
        → (open_encrypted host id passphrase w).0 ≡ ok device
        → InPlace host T path ((open_encrypted host id passphrase w).1)
    open_encrypted-InPlace id passphrase path w place e =
        let o = open_encrypted-Opened id passphrase w e in
        let before : InPlace host T path o.before = elim o.before_is [
          | inl same ↦ subst (InPlace host T path) (sym same) place
          | inr formatted ↦
              subst (InPlace host T path) (sym formatted)
                (O.place-format path o.link passphrase w place)
        ] in
        subst (InPlace host T path) (sym o.after_is)
          (O.place-open path o.link (mapper_name id) passphrase o.before before)

    pub encrypt_and_open_device-InPlace :
        (id passphrase path : String) (w : State) {device : String}
        → InPlace host T path w
        → (encrypt_and_open_device host id passphrase w).0 ≡ ok device
        → InPlace host T path ((encrypt_and_open_device host id passphrase w).1)
    encrypt_and_open_device-InPlace id passphrase path w place e =
        elim (Result-cases (get_mapped_device_path host id w).0) [
          | inr (x, bad) ↦ absurd (cc (e, encrypt_of_error host T id passphrase w bad))
          | inl (d, found) ↦ elim (Bool-cases (same_text d "")) [
            | inr there ↦
                subst (InPlace host T path)
                  (ap (λ r. r.1) (sym (encrypt_of_mapped host T id passphrase w found there))) place
            | inl closed ↦
                let same = encrypt_of_closed host T id passphrase w found closed in
                subst (λ r. InPlace host T path (r.1)) (sym same)
                  (open_encrypted-InPlace id passphrase path w place (ap (λ r. r.0) (sym same) ∙ e))
          ]
        ]

    pub encrypt_and_open_device_link :
        (id passphrase : String) (w : State)
        → (get_device_path host id ((encrypt_and_open_device host id passphrase w).1)).0
          ≡ (get_device_path host id w).0
    encrypt_and_open_device_link id passphrase w =
        elim (Result-cases (get_mapped_device_path host id w).0) [
          | inr (x, bad) ↦
              ap (λ r. (get_device_path host id (r.1)).0)
                (encrypt_of_error host T id passphrase w bad)
          | inl (d, found) ↦ elim (Bool-cases (same_text d "")) [
            | inr there ↦
                ap (λ r. (get_device_path host id (r.1)).0)
                  (encrypt_of_mapped host T id passphrase w found there)
            | inl closed ↦
                ap (λ r. (get_device_path host id (r.1)).0)
                  (encrypt_of_closed host T id passphrase w found closed)
                ∙ open_encrypted_link id passphrase w
          ]
        ]

    -- A device that is found open is found so after a mount.
    pub encrypt_and_open_device_mounted :
        (M : IsMounting host T) (id passphrase source target fs_type : String)
        (options : List String) (w : State) {opened : String}
        → encrypt_and_open_device host id passphrase w ≡ (ok opened, w)
        → let w' = (format_and_mount source target fs_type options w).1 in
          encrypt_and_open_device host id passphrase w' ≡ (ok opened, w')
    encrypt_and_open_device_mounted M id passphrase source target fs_type options w {opened} e =
        let (_, mapped, named) = encrypt_and_open_device_again id passphrase w (ap (λ r. r.0) e) in
        let here =
          subst (λ u. (get_mapped_device_path host id u).0 ≡ ok opened) (ap (λ r. r.1) e) mapped in
        encrypt_of_mapped host T id passphrase _
          (M.mapped-mount id source target fs_type options w ∙ here) named

    -- What an opening that ends well answers with.
    pub encrypt_and_open_device-path :
        (id passphrase : String) (w : State) {device : String}
        → (encrypt_and_open_device host id passphrase w).0 ≡ ok device
        → device ≡ mapper_path id
    encrypt_and_open_device-path id passphrase w e =
        let (_, mapped, named) = encrypt_and_open_device_again id passphrase w e in
        mapped-path host T id _ mapped named
