-- ===== src/Node/Hosted/Binding.antt =====
-- What a first publication with a mount capability does over `diskUtils`.
use scaleway_csi.Base.{
  String, ◌≡◌, refl, ap, sym, ◌∙◌, Bool, true, false, ◌||◌, none, List, [], ◌∷◌, ◌++◌, arith, ok,
  Result-cases, inl, inr, if◌then◌else◌,
}
use scaleway_csi.Base.Text.{same_text}
use scaleway_csi.Csi.{mount_access}
use scaleway_csi.Disk.{Host}
use scaleway_csi.Disk.Mounts.{shared_mount}
use scaleway_csi.Disk.Mounts.Written.{first_on}
use scaleway_csi.Disk.Devices.{
  disk_utils, is_shared_mounted, get_device_path, or_default, mount_to_target,
}
use scaleway_csi.Node.Filled.{disk_utils-IsLooking}
use scaleway_csi.Node.Requests.{PublishRequest, is_encrypted_volume}
use scaleway_csi.Node.Publish.{
  Publishing, create_mount_point, source_path, publish_options, publish_new, publish,
}
use scaleway_csi.Node.Publish.Mode.{publish_of_new}
use scaleway_csi.Node.Hosted.{IsTelling, IsBinding, has_option}
use scaleway_csi.Node.Hosted.Mounting.{is_shared_mounted_of_table}
use scaleway_csi.Node.Hosted.Looking.{telling-IsReading}

has_option-append :
    (name : String) (xs ys : List String)
    → has_option name (xs ++ ys) ≡ (has_option name xs || has_option name ys)
has_option-append name [] ys = refl
has_option-append name (x ∷ xs) ys = ground (arith, has_option-append name xs ys)

-- The options of a publication ask for a bind mount, for reading just if the request does.
pub options-bind :
    (fs_type : String) (flags : List String) (readonly : Bool)
    → has_option "bind" (publish_options (mount_access fs_type flags) readonly) ≡ true
options-bind fs_type flags readonly = ground (
  arith,
  has_option-append "bind" flags ("bind" ∷ []),
  has_option-append "bind" (flags ++ "bind" ∷ []) (if readonly then "ro" ∷ [] else []),
)

pub options-ro :
    (fs_type : String) (flags : List String) (readonly : Bool)
    → has_option "ro" flags ≡ false
    → has_option "ro" (publish_options (mount_access fs_type flags) readonly) ≡ readonly
options-ro fs_type flags true clear = ground (
  arith,
  has_option-append "ro" flags ("bind" ∷ []),
  has_option-append "ro" (flags ++ "bind" ∷ []) ("ro" ∷ []),
)
options-ro fs_type flags false clear = ground (
  arith,
  has_option-append "ro" flags ("bind" ∷ []),
  has_option-append "ro" (flags ++ "bind" ∷ []) [],
)

module _ (host : Host) (T : IsTelling host) (B : IsBinding host T) where
  open host use {State, mkdir_all, mount}

  create_mount_point_dir :
      (path : String) (w : State)
      → (create_mount_point host (disk_utils host) path false w).0 ≡ ok tt
      → (create_mount_point host (disk_utils host) path false w).1 ≡ (mkdir_all path w).1
  unfolding create_mount_point
  create_mount_point_dir path w e = ground (arith, T.stat_state path w)

  -- The request with its mount capability written out.
  abbrev pub with_mount : Publishing → String → List String → Publishing
  with_mount p fs_type flags = record p {
    capability = record {
      access_mode = p.capability.access_mode;
      access_type = mount_access fs_type flags;
    };
  }

  pub with_mount_same :
      (p : Publishing) {fs_type : String} {flags : List String}
      → p.capability.access_type ≡ mount_access fs_type flags
      → p ≡ with_mount p fs_type flags
  with_mount_same p kind = λ i. record p {
    capability = record { access_mode = p.capability.access_mode; access_type = kind i };
  }

  -- The directory is made, and the staging path mounted on it.
  pub publish_new_done :
      (p : Publishing) (encrypted : Bool) (device : String) (req : PublishRequest) (w : State)
      (fs_type : String) (flags : List String)
      → (publish_new host (disk_utils host) (with_mount p fs_type flags) encrypted device req w).0
        ≡ ok tt
      → let w' = (mkdir_all req.target_path w).1 in
        let options = publish_options (mount_access fs_type flags) req.readonly in
        ((mount req.staging_target_path req.target_path (or_default fs_type) options w').0 ≡ ok tt)
        × ((publish_new host
              (disk_utils host)
              (with_mount p fs_type flags)
              encrypted
              device
              req
              w).1
            ≡ (mount req.staging_target_path req.target_path (or_default fs_type) options w').1)
  unfolding publish_new source_path mount_to_target disk_utils
  publish_new_done p encrypted device req w fs_type flags e =
      elim (Result-cases (create_mount_point host (disk_utils host) req.target_path false w).0) [
        | inr (x, bad) ↦ absurd (ground arith)
        | inl (_, made) ↦
            let dir = create_mount_point_dir req.target_path w made in
            elim (Result-cases
              (mount req.staging_target_path req.target_path (or_default fs_type)
                (publish_options (mount_access fs_type flags) req.readonly)
                ((mkdir_all req.target_path w).1)).0) [
                  | inr (x, bad) ↦ absurd (ground arith)
                  | inl (_, done) ↦ (done, ground arith)
                ]
      ]

  -- What a first publication that succeeded found.
  pub record Ran (p : Publishing) (req : PublishRequest) (w w' : State) : Type 0 where
    pub encrypted : Bool
    pub device : String
    pub encrypted_ok : is_encrypted_volume req.volume_context ≡ ok encrypted
    pub found : (get_device_path host p.scw_id w).0 ≡ ok device
    pub is_done : (publish_new host (disk_utils host) p encrypted device req w).0 ≡ ok tt
    pub after : w' ≡ (publish_new host (disk_utils host) p encrypted device req w).1

  free_target :
      (target device : String) (w : State)
      → same_text target "" ≡ false
      → first_on target (T.mounts w) ≡ none
      → (is_shared_mounted host target device w).0 ≡ ok false
  unfolding shared_mount
  free_target target device w given free =
      is_shared_mounted_of_table host T target device w given ∙ ap (shared_mount device) free

  pub publish-Ran :
      (p : Publishing) (req : PublishRequest) (w : State)
      → same_text req.target_path "" ≡ false
      → first_on req.target_path (T.mounts w) ≡ none
      → (publish host (disk_utils host) p req w).0 ≡ ok tt
      → Ran p req w ((publish host (disk_utils host) p req w).1)
  unfolding publish disk_utils
  publish-Ran p req w given free e = elim (Result-cases (get_device_path host p.scw_id w).0) [
    | inr (x, bad) ↦ absurd (ground arith)
    | inl (device, found) ↦ elim (Result-cases (is_encrypted_volume req.volume_context)) [
      | inr (x, bad) ↦ absurd (ground arith)
      | inl (encrypted, enc) ↦
          let off = free_target req.target_path device w given free in
          let same =
            publish_of_new host (disk_utils host)
              (disk_utils-IsLooking host (telling-IsReading host T)) p encrypted device req w enc
              found off in
          record {
            encrypted = encrypted;
            device = device;
            encrypted_ok = enc;
            found = found;
            is_done = ap (λ r. r.0) (sym same) ∙ e;
            after = ap (λ r. r.1) same;
          }
    ]
  ]
