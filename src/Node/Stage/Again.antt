-- ===== src/Node/Stage/Again.antt =====
-- `NodeStageVolume` asked twice, over disk utilities that keep their laws.
use scaleway_csi.Base.{
  String, ◌≡◌, refl, ap, ◌∙◌, sym, subst, Option, inl, inr, ok, answers, bind_ok, bind-eq-ok, lift,
}
use scaleway_csi.Ids.{Zone}
use scaleway_csi.Disk.{DiskUtils}
use scaleway_csi.Node.Requests.{StageRequest}
use scaleway_csi.Node.Laws.{IsLooking, IsStaging, IsFitting}
use scaleway_csi.Node.Stage.{Staging, check_stage, open_device, stage_on, stage, node_stage_volume}
use scaleway_csi.Node.Stage.Steps.{
  stage_on-cases, stage_on_again, open_device-Fit, open_device-Opened, stage_of, stage-Parts,
}

module _ {State : Type 0} (disk : DiskUtils State) (K : IsLooking disk)
    (Fit : (target device : String) → State → Type 0) (L : IsStaging disk Fit) where
  open disk use {get_device_path}

  stage_again :
      (s : Staging) (req : StageRequest) (w : State)
      → IsFitting disk Fit s.scw_id req.staging_target_path w
      → (stage disk s req w).0 ≡ ok tt
      → let w' = (stage disk s req w).1 in stage disk s req w' ≡ (ok tt, w')
  stage_again s req w F e =
      let p = stage-Parts disk K Fit L s req w e in
      let target = req.staging_target_path in
      let w1 = (open_device disk s p.link req.secrets w).1 in
      let (o, link_kept) = open_device-Opened disk K Fit L s p.link req.secrets w p.opened in
      let same =
        stage_of disk K Fit L s req w w1 p.link_found
          (answers (open_device disk s p.link req.secrets) p.opened refl) in
      let on = ap (λ r. r.0) (sym same) ∙ e in
      let w2 = (stage_on disk s p.device target w1).1 in
      let w2_is = ap (λ r. r.1) (sym same) in
      let again =
        stage_on_again disk K Fit L s p.device target w1
          (open_device-Fit disk K Fit L s target p.link req.secrets w F p.link_found p.opened) on in
      let (found2, open2) =
        elim (stage_on-cases disk K Fit L s p.device target w1 on)
          as (λ _.
            ((get_device_path s.scw_id w2).0 ≡ ok p.link)
            × (open_device disk s p.link req.secrets w2 ≡ (ok p.device, w2))) [
              | inl still ↦ (
                ap (λ u. (get_device_path s.scw_id u).0) still ∙ link_kept ∙ p.link_found,
                subst (λ u. open_device disk s p.link req.secrets u ≡ (ok p.device, u)) (sym still)
                    o.again,
              )
              | inr (_, m) ↦ (
                ap (λ u. (get_device_path s.scw_id u).0) (sym m.after)
                    ∙ L.device_path-mount s.scw_id target p.device m.fs_type m.options w1
                    ∙ link_kept
                    ∙ p.link_found,
                subst (λ u. open_device disk s p.link req.secrets u ≡ (ok p.device, u)) m.after
                    (o.again_mounted target p.device m.fs_type m.options),
              )
            ] in
      subst (λ u. stage disk s req u ≡ (ok tt, u)) w2_is
        (stage_of disk K Fit L s req w2 w2 found2 open2 ∙ again)

  -- Over disk utilities whose looks change nothing and whose opened and mounted devices are found
  -- again, where the mount table names the path of the request and the devices of its volume as they
  -- are given: a stage request that succeeded and is repeated succeeds again and changes nothing.
  pub node_stage_volume_idempotent :
      (parse_zone : String → Option Zone) (req : StageRequest) (w : State)
      → ((s : Staging)
          → check_stage parse_zone req ≡ ok s
          → IsFitting disk Fit s.scw_id req.staging_target_path w)
      → (node_stage_volume disk parse_zone req w).0 ≡ ok tt
      → let w' = (node_stage_volume disk parse_zone req w).1 in
        node_stage_volume disk parse_zone req w' ≡ (ok tt, w')
  unfolding node_stage_volume
  node_stage_volume_idempotent parse_zone req w F e =
      let (s, good, staged, same) =
        bind-eq-ok (lift (check_stage parse_zone req)) (λ s. stage disk s req) w e in
      let checked_again = λ (u : State).
        bind_ok (lift (check_stage parse_zone req)) (λ s. stage disk s req)
          (ap (λ r. (r, u)) good) in
      subst (λ u. node_stage_volume disk parse_zone req u ≡ (ok tt, u)) (ap (λ r. r.1) (sym same))
        (checked_again _ ∙ stage_again s req w (F s good) staged)
