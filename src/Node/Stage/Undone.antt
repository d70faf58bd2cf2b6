-- ===== src/Node/Stage/Undone.antt =====
-- What `NodeUnstageVolume` undoes, over disk utilities that keep their laws.
use scaleway_csi.Base.{
  String, ◌<>◌, ◌≡◌, ap, ◌∙◌, sym, subst, true, false, Option, arith, Result, ok, Result-cases,
  Bool-cases, inl, inr, or_fail, attempt, bind-eq-ok, return, ◌>>=◌, or_fail-eq-ok, or_fail_state,
}
use scaleway_csi.Base.Text.{same_text}
use scaleway_csi.Ids.{Zone, get_volume_id_and_zone}
use scaleway_csi.Disk.{DiskUtils, DiskError, FileMode}
use scaleway_csi.Node.Requests.{UnstageRequest, internally, found_or}
use scaleway_csi.Node.Laws.{IsLooking, IsUnstaging}
use scaleway_csi.Node.Stage.{stat_counts, unmount_staged, unstage, node_unstage_volume}

module _ {State : Type 0} (disk : DiskUtils State)
    (stat : String → State → Result DiskError FileMode × State)
    (stat_state : (path : String) (w : State) → (stat path w).1 ≡ w) (K : IsLooking disk)
    (Plain : (target : String) → State → Type 0) (U : IsUnstaging disk Plain) where
  open disk use {get_device_path, is_shared_mounted, unmount, close_device, get_mapped_device_path}

  -- Nothing is found mounted on the target, nor the mapped device of the volume open.
  abbrev pub Gone : (id target : String) → State → Type 0
  Gone id target w =
      ((is_shared_mounted target "" w).0 ≡ ok false) × ((get_mapped_device_path id w).0 ≡ ok "")

  unmount_staged-done :
      (target : String) (w : State)
      → Plain target w
      → (unmount_staged disk stat target w).0 ≡ ok tt
      → (is_shared_mounted target "" ((unmount_staged disk stat target w).1)).0 ≡ ok false
  unfolding unmount_staged
  unmount_staged-done target w plain e = elim (Result-cases (is_shared_mounted target "" w).0) [
    | inr (x, bad) ↦ absurd (ground arith)
    | inl (false, unmounted) ↦ ground (arith, K.shared_mounted_state target "" w)
    | inl (true, there) ↦ elim (Result-cases (unmount target w).0) [
      | inl (t, done) ↦
          ground
            (arith, K.shared_mounted_state target "" w, U.mounted-unmount target w plain there done)
      | inr (x, bad) ↦ absurd (ground (arith, K.shared_mounted_state target "" w))
    ]
  ]

  looked_state :
      (id target : String) (w : State)
      → (attempt (stat target) (stat_counts disk stat id) (λ _. return tt) w).1 ≡ w
  looked_state id target w = ground (arith, stat_state target w)

  -- The two last steps.
  unmount-close :
      (id target : String) (w : State)
      → Plain target w
      → (unmount_staged disk stat target w).0 ≡ ok tt
      → let w1 = (unmount_staged disk stat target w).1 in
        (close_device id w1).0 ≡ ok tt → Gone id target ((close_device id w1).1)
  unmount-close id target w plain e d =
      let w1 = (unmount_staged disk stat target w).1 in
      (
        U.mounted-close id target "" w1 ∙ unmount_staged-done target w plain e,
        U.mapped-close id w1 d,
      )

  unstage-done :
      (id target : String) (w : State)
      → Plain target w
      → (unstage disk stat id target w).0 ≡ ok tt
      → Gone id target ((unstage disk stat id target w).1)
  unfolding unstage
  unstage-done id target w plain e =
      let Gone = Gone id target in
      let close =
        or_fail (close_device id) (internally ("error closing device with ID " <> (id <> ": "))) in
      let looked = attempt (stat target) (stat_counts disk stat id) (λ _. return tt) in
      let device = or_fail (get_device_path id) (
        found_or ("volume with ID " <> (id <> " not found"))
          ("error getting device path for volume with ID " <> (id <> ": "))) in
      let (_, _, e₁, same₁) =
        bind-eq-ok device (λ _. looked >>= λ _. unmount_staged disk stat target >>= λ _. close) w
          e in
      let (_, _, e₂, same₂) =
        bind-eq-ok looked (λ _. unmount_staged disk stat target >>= λ _. close) _ e₁ in
      let (_, unmounted, e₃, same₃) =
        bind-eq-ok (unmount_staged disk stat target) (λ _. close) _ e₂ in
      let u = (looked ((device w).1)).1 in
      let still =
        looked_state id target ((device w).1)
        ∙ or_fail_state (get_device_path id) _ w
        ∙ K.device_path_state id w in
      let w1 = (unmount_staged disk stat target u).1 in
      let text = internally ("error closing device with ID " <> (id <> ": ")) in
      subst Gone
        (sym (ap (λ r. r.1) (same₁ ∙ same₂ ∙ same₃) ∙ or_fail_state (close_device id) text w1))
        (unmount-close id target u (subst (Plain target) (sym still) plain) unmounted
          (or_fail-eq-ok (close_device id) text w1 e₃))

  unstage_of :
      (parse_zone : String → Option Zone) (req : UnstageRequest) (w : State) {id : String}
      {zone : Zone}
      → get_volume_id_and_zone parse_zone req.volume_id ≡ ok (id, zone)
      → same_text req.staging_target_path "" ≡ false
      → node_unstage_volume disk stat parse_zone req w
        ≡ unstage disk stat id req.staging_target_path w
  unfolding node_unstage_volume
  unstage_of parse_zone req w good given = ground arith

  -- Over disk utilities whose looks change nothing and whose unmounts and closes show in later
  -- looks: after an unstaging that succeeds, of a path of which the looks are to be believed, nothing
  -- is found mounted on the path, and the mapped device of the volume is not found open.
  pub node_unstage_volume-Gone :
      (parse_zone : String → Option Zone) (req : UnstageRequest) (w : State) (id : String)
      (zone : Zone)
      → get_volume_id_and_zone parse_zone req.volume_id ≡ ok (id, zone)
      → Plain req.staging_target_path w
      → (node_unstage_volume disk stat parse_zone req w).0 ≡ ok tt
      → Gone id req.staging_target_path ((node_unstage_volume disk stat parse_zone req w).1)
  unfolding node_unstage_volume
  node_unstage_volume-Gone parse_zone req w id zone good plain e =
      elim (Bool-cases (same_text req.staging_target_path "")) [
        | inl empty ↦ absurd (ground arith)
        | inr given ↦
            let same = unstage_of parse_zone req w good given in
            subst (λ r. Gone id req.staging_target_path (r.1)) (sym same)
              (unstage-done id req.staging_target_path w plain (ap (λ r. r.0) (sym same) ∙ e))
      ]
