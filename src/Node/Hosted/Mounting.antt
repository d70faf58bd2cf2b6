-- ===== src/Node/Hosted/Mounting.antt =====
-- A mount is found in the mount table.
use text.Mathlib.TextEquality.{eq_iff}
use scaleway_csi.Base.{
  String, ◌≡◌, refl, ap, sym, ◌∙◌, Bool, true, false, Option, none, some, List, [], ◌∷◌, ◌++◌,
  arith, ok, inl, inr, Bool-cases,
}
use scaleway_csi.Base.Text.{same_text}
use scaleway_csi.Disk.{Host, MountInfo}
use scaleway_csi.Disk.Mounts.{shared_mount, is_shared}
use scaleway_csi.Disk.Mounts.Written.{Mount, info_of, first_on}
use scaleway_csi.Disk.Mounts.RoundTrip.{mount_info_in-table_of}
use scaleway_csi.Disk.Devices.{is_shared_mounted, get_mount_info, is_block_device}
use scaleway_csi.Node.Hosted.{IsTelling, IsMounting, InPlace, mode_word}
use scaleway_csi.Node.Publish.{is_read_only}

-- What is not mounted has no line.
pub shared_mount-none :
    (device : String) (info : Option MountInfo) → shared_mount device info ≡ ok false → info ≡ none
unfolding shared_mount
shared_mount-none device none e = refl
shared_mount-none device (some info) e = absurd (ground arith)

pub shared_mount-here :
    (m : Mount) (device : String)
    → is_shared m.optional ≡ true
    → m.source ≡ device
    → shared_mount device (some (info_of m)) ≡ ok true
unfolding shared_mount
shared_mount-here m device shared same = ground (arith, eq_iff m.source device)

pub first_on-append :
    (target : String) (ms : List Mount) (m : Mount)
    → first_on target ms ≡ none
    → m.point ≡ target
    → first_on target (ms ++ m ∷ []) ≡ some (info_of m)
first_on-append target [] m free same = ground (arith, eq_iff m.point target)
first_on-append target (n ∷ ms) m free same = elim (Bool-cases (same_text n.point target)) [
  | inl mine ↦ absurd (ground arith)
  | inr other ↦ rw other (first_on-append target ms m (ground arith) same)
]

-- The word with which the options begin is the one that is read.
pub is_read_only-mode_word : (b : Bool) (rest : List String) → is_read_only (mode_word b ∷ rest) ≡ b
unfolding is_read_only
is_read_only-mode_word true rest = refl
is_read_only-mode_word false rest = refl

module _ (host : Host) (T : IsTelling host) where
  open host use {State, format_and_mount}

  pub is_shared_mounted_of_table :
      (target device : String) (w : State)
      → same_text target "" ≡ false
      → (is_shared_mounted host target device w).0
        ≡ shared_mount device (first_on target (T.mounts w))
  unfolding is_shared_mounted get_mount_info
  is_shared_mounted_of_table target device w given =
      ground (arith, T.table_is w, mount_info_in-table_of target (T.mounts w) (T.all_written w))

  pub is_shared_mounted-target :
      (target device : String) (w : State) {b : Bool}
      → (is_shared_mounted host target device w).0 ≡ ok b
      → same_text target "" ≡ false
  unfolding is_shared_mounted
  is_shared_mounted-target target device w e = ground arith

  pub get_mount_info_of :
      (target : String) (w : State) {info : MountInfo}
      → first_on target (T.mounts w) ≡ some info
      → get_mount_info host target w ≡ (ok (some info), w)
  unfolding get_mount_info
  get_mount_info_of target w found =
      ground (arith, T.table_is w, mount_info_in-table_of target (T.mounts w) (T.all_written w))

  module _ (M : IsMounting host T) where
    pub is_shared_mounted-mount :
        (target device fs_type : String) (options : List String) (w : State)
        → InPlace host T target w
        → M.named device ≡ device
        → (is_shared_mounted host target device w).0 ≡ ok false
        → (format_and_mount device target fs_type options w).0 ≡ ok tt
        → (is_shared_mounted host target device
            ((format_and_mount device target fs_type options w).1)).0
          ≡ ok true
    is_shared_mounted-mount target device fs_type options w place as_given free done =
        let given = is_shared_mounted-target target device w free in
        let (m, point, source, shared, joined) =
          M.mounts-mount device target fs_type options w place.plain.resolved done in
        let none_before =
          shared_mount-none device (first_on target (T.mounts w))
            (sym (is_shared_mounted_of_table target device w given) ∙ free) in
        is_shared_mounted_of_table target device _ given
        ∙ ap (λ ms. shared_mount device (first_on target ms)) joined
        ∙ ap (shared_mount device)
            (first_on-append target (T.mounts w) m none_before (point ∙ place.plain.written))
        ∙ shared_mount-here m device (shared ∙ place.under_shared) (source ∙ as_given)

    pub is_block_device-mount :
        (target device fs_type : String) (options : List String) (w : State)
        → (format_and_mount device target fs_type options w).0 ≡ ok tt
        → (is_block_device host target ((format_and_mount device target fs_type options w).1)).0
          ≡ ok false
    unfolding is_block_device
    is_block_device-mount target device fs_type options w done =
        let (real, mode, followed, seen, file) =
          M.directory-mount device target fs_type options w done in
        let w' = (format_and_mount device target fs_type options w).1 in
        ground (arith, followed, seen, file, T.symlinks_state target w', T.stat_state real w')
