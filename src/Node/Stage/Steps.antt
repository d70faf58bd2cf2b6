-- ===== src/Node/Stage/Steps.antt =====
-- The steps of `NodeStageVolume`, and what each leaves, over disk utilities that keep their laws.
use scaleway_csi.Base.{
  String, ◌<>◌, ◌≡◌, refl, ap, ◌∙◌, sym, subst, true, false, some, List, ◌⊎◌, inl, inr, arith, ok,
  err, Failure, ok-injective, Result-cases, Bool-cases, Option-cases, answers,
}
use scaleway_csi.Base.Table.{Table, lookup}
use scaleway_csi.Csi.{AccessType, block_access, unset_access, mount_access, is_block}
use scaleway_csi.Disk.{DiskUtils, DiskError}
use scaleway_csi.Node.Requests.{StageRequest, internally, encryption_passphrase_key}
use scaleway_csi.Node.Laws.{IsLooking, IsStaging, IsFitting}
use scaleway_csi.Node.Stage.{Staging, open_device, check_staged, mount_staged, stage_on, stage}

module _ {State : Type 0} (disk : DiskUtils State) (K : IsLooking disk)
    (Fit : (target device : String) → State → Type 0) (L : IsStaging disk Fit) where
  open disk use {
    get_device_path, is_shared_mounted, is_block_device, format_and_mount, encrypt_and_open_device,
  }

  -- How a mount or a look leaves the disks: as they were, or with one more mount.
  pub record Staged (device target : String) (w w' : State) : Type 0 where
    pub fs_type : String
    pub options : List String
    pub free : (is_shared_mounted target device w).0 ≡ ok false
    pub mounted : (format_and_mount target device fs_type options w).0 ≡ ok tt
    pub after : (format_and_mount target device fs_type options w).1 ≡ w'

  -- The branches of the staging on a device.
  module _ (s : Staging) (device target : String) (w : State) where
    pub stage_on_block :
        is_block s.capability.access_type ≡ true → stage_on disk s device target w ≡ (ok tt, w)
    unfolding stage_on
    stage_on_block block = ground arith

    pub stage_on_mounted :
        is_block s.capability.access_type ≡ false
        → (is_shared_mounted target device w).0 ≡ ok true
        → stage_on disk s device target w ≡ check_staged disk s target w
    unfolding stage_on
    stage_on_mounted no_block there = ground (arith, K.shared_mounted_state target device w)

    pub stage_on_new :
        is_block s.capability.access_type ≡ false
        → (is_shared_mounted target device w).0 ≡ ok false
        → stage_on disk s device target w
          ≡ mount_staged disk device target s.capability.access_type w
    unfolding stage_on
    stage_on_new no_block there = ground (arith, K.shared_mounted_state target device w)

    pub stage_on_failed :
        {e : DiskError}
        → is_block s.capability.access_type ≡ false
        → (is_shared_mounted target device w).0 ≡ err e
        → (f : Failure) × ((stage_on disk s device target w).0 ≡ err f)
    unfolding stage_on
    stage_on_failed {e} no_block there = (
      internally
          ("error checking mount point of volume "
            <> (s.volume_id <> (" on path " <> (target <> ": "))))
          e,
      ground (arith, K.shared_mounted_state target device w),
    )

    pub check_staged_state : (check_staged disk s target w).1 ≡ w
    unfolding check_staged
    check_staged_state = ground (arith, K.block_device_state target w)

    pub check_staged_of_file :
        (is_block_device target w).0 ≡ ok false → check_staged disk s target w ≡ (ok tt, w)
    unfolding check_staged
    check_staged_of_file file = ground (arith, K.block_device_state target w)

  pub mount_staged-Staged :
      (device target : String) (access : AccessType) (w : State)
      → (is_shared_mounted target device w).0 ≡ ok false
      → (mount_staged disk device target access w).0 ≡ ok tt
      → Staged device target w ((mount_staged disk device target access w).1)
  unfolding mount_staged
  mount_staged-Staged device target unset_access w free e = absurd (ground arith)
  mount_staged-Staged device target block_access w free e = absurd (ground arith)
  mount_staged-Staged device target (mount_access fs_type options) w free e = record {
    fs_type = fs_type;
    options = options;
    free = free;
    mounted = ground arith;
    after = ground arith;
  }

  -- A staging that ends well leaves the disks as they were, or mounts the device on the path.
  pub stage_on-cases :
      (s : Staging) (device target : String) (w : State)
      → (stage_on disk s device target w).0 ≡ ok tt
      → ((stage_on disk s device target w).1 ≡ w)
        ⊎ ((is_block s.capability.access_type ≡ false)
            × Staged device target w ((stage_on disk s device target w).1))
  stage_on-cases s device target w e = elim (Bool-cases (is_block s.capability.access_type)) [
    | inl block ↦ inl (ap (λ r. r.1) (stage_on_block s device target w block))
    | inr no_block ↦ elim (Result-cases (is_shared_mounted target device w).0) [
      | inl (true, there) ↦ inl (
          ap (λ r. r.1) (stage_on_mounted s device target w no_block there)
          ∙ check_staged_state s device target w)
      | inl (false, there) ↦
          let same = stage_on_new s device target w no_block there in
          inr (
            no_block,
            subst (λ r. Staged device target w (r.1)) (sym same)
                (mount_staged-Staged device target s.capability.access_type w there
                  (ap (λ r. r.0) (sym same) ∙ e)),
          )
      | inr (x, failed) ↦ absurd (cc (e, (stage_on_failed s device target w no_block failed).1))
    ]
  ]

  -- The same staging again finds what the first has left.
  pub stage_on_again :
      (s : Staging) (device target : String) (w : State)
      → Fit target device w
      → (stage_on disk s device target w).0 ≡ ok tt
      → let w' = (stage_on disk s device target w).1 in
        stage_on disk s device target w' ≡ (ok tt, w')
  stage_on_again s device target w fit e = elim (stage_on-cases s device target w e) [
    | inl same ↦
        ap (stage_on disk s device target) same ∙ answers (stage_on disk s device target) e refl
    | inr (no_block, m) ↦
        let w' = (stage_on disk s device target w).1 in
        let there =
          ap (λ u. (is_shared_mounted target device u).0) (sym m.after)
          ∙ L.mounted-mount target device m.fs_type m.options w fit m.free m.mounted in
        let file =
          ap (λ u. (is_block_device target u).0) (sym m.after)
          ∙ L.block_device-mount target device m.fs_type m.options w m.mounted in
        stage_on_mounted s device target w' no_block there
        ∙ check_staged_of_file s device target w' file
  ]

  -- A device that was opened is open, and stays so when it is mounted.
  module _ (s : Staging) (link : String) (secrets : Table String) where
    pub open_device_plain :
        (w : State) → s.encrypted ≡ false → open_device disk s link secrets w ≡ (ok link, w)
    unfolding open_device
    open_device_plain w plain = ground arith

    pub open_device_encrypted :
        (w : State) {device : String}
        → s.encrypted ≡ true
        → (open_device disk s link secrets w).0 ≡ ok device
        → (passphrase : String) × (lookup encryption_passphrase_key secrets ≡ some passphrase)
          × ((encrypt_and_open_device s.scw_id passphrase w).0 ≡ ok device)
    unfolding open_device
    open_device_encrypted w {device} enc e =
        elim (Option-cases (lookup encryption_passphrase_key secrets)) [
          | inl missing ↦ absurd (ground arith)
          | inr (passphrase, given) ↦ (passphrase, given, ground arith)
        ]

    pub open_device_with :
        (w w' : State) {device passphrase : String}
        → s.encrypted ≡ true
        → lookup encryption_passphrase_key secrets ≡ some passphrase
        → encrypt_and_open_device s.scw_id passphrase w ≡ (ok device, w')
        → open_device disk s link secrets w ≡ (ok device, w')
    unfolding open_device
    open_device_with w w' enc given e = ground arith

    -- What opening leaves: the same device is opened again without a change, also after a mount.
    pub record Opened (device : String) (w : State) : Type 0 where
      pub again : open_device disk s link secrets w ≡ (ok device, w)
      pub again_mounted :
          (target device' fs_type : String) (options : List String)
          → let w' = (format_and_mount target device' fs_type options w).1 in
            open_device disk s link secrets w' ≡ (ok device, w')

    pub open_device-Opened :
        (w : State) {device : String}
        → (open_device disk s link secrets w).0 ≡ ok device
        → Opened device ((open_device disk s link secrets w).1)
          × ((get_device_path s.scw_id ((open_device disk s link secrets w).1)).0
              ≡ (get_device_path s.scw_id w).0)
    open_device-Opened w {device} e = elim (Bool-cases s.encrypted) [
      | inr plain ↦
          let same = open_device_plain w plain in
          let named = ok-injective (ap (λ r. r.0) (sym same) ∙ e) in
          let answer = λ (u : State). open_device_plain u plain ∙ ap (λ d. (ok d, u)) named in
          (
            record {
              again = answer ((open_device disk s link secrets w).1);
              again_mounted = λ target device' fs_type options. answer _;
            },
            ap (λ r. (get_device_path s.scw_id (r.1)).0) same,
          )
      | inl enc ↦
          let (p, given, opened) = open_device_encrypted w enc e in
          let w1 = (encrypt_and_open_device s.scw_id p w).1 in
          let same =
            open_device_with w w1 enc given
              (answers (encrypt_and_open_device s.scw_id p) opened refl) in
          let twice = L.open-open s.scw_id p w opened in
          (
            subst (Opened device) (ap (λ r. r.1) (sym same)) (record {
              again = open_device_with w1 w1 enc given twice;
              again_mounted = λ target device' fs_type options.
                  open_device_with _ _ enc given
                    (L.open-mount s.scw_id p target device' fs_type options w1 twice);
            }),
            ap (λ r. (get_device_path s.scw_id (r.1)).0) same ∙ L.device_path-open s.scw_id p w,
          )
    ]

  -- The parts of a staging, put together.
  pub stage_of :
      (s : Staging) (req : StageRequest) (w w1 : State) {link device : String}
      → (get_device_path s.scw_id w).0 ≡ ok link
      → open_device disk s link req.secrets w ≡ (ok device, w1)
      → stage disk s req w ≡ stage_on disk s device req.staging_target_path w1
  unfolding stage
  stage_of s req w w1 {link} {device} found opened = ground (arith, K.device_path_state s.scw_id w)

  pub record Parts (s : Staging) (req : StageRequest) (w : State) : Type 0 where
    pub link : String
    pub device : String
    pub link_found : (get_device_path s.scw_id w).0 ≡ ok link
    pub opened : (open_device disk s link req.secrets w).0 ≡ ok device

  pub stage-Parts :
      (s : Staging) (req : StageRequest) (w : State)
      → (stage disk s req w).0 ≡ ok tt
      → Parts s req w
  unfolding stage
  stage-Parts s req w e = elim (Result-cases (get_device_path s.scw_id w).0) [
    | inr (x, failed) ↦ absurd (ground (arith, K.device_path_state s.scw_id w))
    | inl (link, found) ↦ elim (Result-cases (open_device disk s link req.secrets w).0) [
      | inr (x, failed) ↦ absurd (ground (arith, K.device_path_state s.scw_id w))
      | inl (device, opened) ↦ record {
        link = link;
        device = device;
        link_found = found;
        opened = opened;
      }
    ]
  ]

  -- The device that was opened fits the target.
  pub open_device-Fit :
      (s : Staging) (target link : String) (secrets : Table String) (w : State) {device : String}
      → IsFitting disk Fit s.scw_id target w
      → (get_device_path s.scw_id w).0 ≡ ok link
      → (open_device disk s link secrets w).0 ≡ ok device
      → Fit target device ((open_device disk s link secrets w).1)
  open_device-Fit s target link secrets w {device} F found e = elim (Bool-cases s.encrypted) [
    | inr plain ↦
        let same = open_device_plain s link secrets w plain in
        subst (λ u. Fit target device u) (ap (λ r. r.1) (sym same))
          (subst (λ d. Fit target d w) (ok-injective (ap (λ r. r.0) (sym same) ∙ e))
            (F.link_fits link found))
    | inl enc ↦
        let (p, given, opened) = open_device_encrypted s link secrets w enc e in
        let w1 = (encrypt_and_open_device s.scw_id p w).1 in
        let same =
          open_device_with s link secrets w w1 enc given
            (answers (encrypt_and_open_device s.scw_id p) opened refl) in
        subst (λ u. Fit target device u) (ap (λ r. r.1) (sym same)) (F.opened_fits p device opened)
  ]
