-- ===== src/Controller/Attach/Limit.antt =====
-- The number of volumes on a node, which `ControllerPublishVolume` keeps within the limit that
-- `NodeGetInfo` reports.
use scaleway_csi.Base.{
  String, ◌≡◌, ap, sym, subst, Option, none, some, arith, ok, ◌>>=◌, bind_ok, bind_err, lift,
  Result-cases, Option-cases, Bool-cases, ◌==◌, true, false, answers, inl, inr, ◌⊎◌, Result, err,
  length, ◌≤◌,
}
use scaleway_csi.Ids.{Zone}
use scaleway_csi.Limits.{max_volumes_per_node}
use scaleway_csi.Cloud.{InstanceApi, Server, ApiError}
use scaleway_csi.Cloud.Laws.{IsReadOnly, IsCounting}
use scaleway_csi.Controller.Attach.{
  PublishRequest, Target, Found, check_publish, look_up, attach, publish_to,
  controller_publish_volume,
}

-- A server that is found has no more volumes than the limit.
abbrev pub Fits : Result ApiError Server → Type 0
Fits (ok s) = length s.volumes ≤ max_volumes_per_node
Fits (err e) = Unit

module _ (api : InstanceApi) (R : IsReadOnly api) (L : IsCounting api) where
  open api use {State, get_volume, get_server, attach_volume}

  abbrev pub IsLimited : Target → State → Type 0
  IsLimited t w = Fits (get_server t.node_id t.node_zone w).0

  -- One volume more is within the limit, unless there were as many as the limit.
  attached-Fits :
      (t : Target) (f : Found) (w : State)
      → (get_server t.node_id t.node_zone w).0 ≡ ok f.server
      → length f.server.volumes ≤ max_volumes_per_node
      → (length f.server.volumes == max_volumes_per_node) ≡ false
      → IsLimited t ((attach_volume t.node_id t.volume_id f.volume.zone w).1)
  attached-Fits t f w there limited room =
      let w' = (attach_volume t.node_id t.volume_id f.volume.zone w).1 in
      elim (Result-cases (get_server t.node_id t.node_zone w').0) [
        | inl (s, e) ↦
            let more = L.volumes-attach t.node_id t.volume_id f.volume.zone t.node_zone w there e in
            subst Fits (sym e) (ground arith)
        | inr (x, e) ↦ subst Fits (sym e) tt
      ]

  attach_full :
      (t : Target) (f : Found) (w : State)
      → (length f.server.volumes == max_volumes_per_node) ≡ true
      → (attach api t f w).1 ≡ w
  unfolding attach
  attach_full t f w full = ground arith

  -- An attachment goes no further than its tests, or is one call of the API.
  attach_free :
      (t : Target) (f : Found) (w : State)
      → ((attach api t f w).1 ≡ w)
        ⊎ ((attach api t f w).1 ≡ (attach_volume t.node_id t.volume_id f.volume.zone w).1)
  unfolding attach
  attach_free t f w = ground arith

  attach-IsLimited :
      (t : Target) (f : Found) (w : State)
      → (get_server t.node_id t.node_zone w).0 ≡ ok f.server
      → IsLimited t w
      → IsLimited t ((attach api t f w).1)
  attach-IsLimited t f w there limited =
      elim (Bool-cases (length f.server.volumes == max_volumes_per_node)) [
        | inl full ↦ subst (IsLimited t) (sym (attach_full t f w full)) limited
        | inr room ↦ elim (attach_free t f w) [
          | inl still ↦ subst (IsLimited t) (sym still) limited
          | inr called ↦
              subst (IsLimited t) (sym called)
                (attached-Fits t f w there (subst Fits there limited) room)
        ]
      ]

  publish_to-free :
      (t : Target) (f : Found) (w : State)
      → f.volume.server ≡ none
      → publish_to api t f w ≡ attach api t f w
  unfolding publish_to
  publish_to-free t f w free = ground arith

  publish_to_still :
      (t : Target) (f : Found) (w : State) {holder : String}
      → f.volume.server ≡ some holder
      → (publish_to api t f w).1 ≡ w
  unfolding publish_to
  publish_to_still t f w held = ground arith

  publish_to-IsLimited :
      (t : Target) (f : Found) (w : State)
      → (get_server t.node_id t.node_zone w).0 ≡ ok f.server
      → IsLimited t w
      → IsLimited t ((publish_to api t f w).1)
  publish_to-IsLimited t f w there limited = elim (Option-cases f.volume.server) [
    | inl free ↦
        subst (λ r. IsLimited t r.1) (sym (publish_to-free t f w free))
          (attach-IsLimited t f w there limited)
    | inr (holder, held) ↦ subst (IsLimited t) (sym (publish_to_still t f w held)) limited
  ]

  -- The look-up changes nothing, and finds the server of the target.
  look_up-server :
      (t : Target) (w : State) {f : Found}
      → (look_up api t w).0 ≡ ok f
      → (get_server t.node_id t.node_zone w).0 ≡ ok f.server
  unfolding look_up
  look_up-server t w e = ground (
    arith,
    R.get_volume_state t.volume_id t.volume_zone w,
    R.get_server_state t.node_id t.node_zone w,
  )

  look_up_still : (t : Target) (w : State) → (look_up api t w).1 ≡ w
  unfolding look_up
  look_up_still t w = ground (
    arith,
    R.get_volume_state t.volume_id t.volume_zone w,
    R.get_server_state t.node_id t.node_zone w,
  )

  -- Over an API whose reads change nothing, and whose attachments give a server at most one volume
  -- more: whether a publication succeeds or fails, when the node of the request had no more volumes
  -- before it than the limit, it has no more after it.
  pub controller_publish_volume-IsLimited :
      (parse_zone : String → Option Zone) (req : PublishRequest) (w : State) (t : Target)
      → check_publish parse_zone req ≡ ok t
      → IsLimited t w
      → IsLimited t ((controller_publish_volume api parse_zone req w).1)
  unfolding controller_publish_volume
  controller_publish_volume-IsLimited parse_zone req w t good limited =
      let checked =
        bind_ok (lift (check_publish parse_zone req)) (λ t'. look_up api t' >>= publish_to api t')
          (ap (λ r. (r, w)) good) in
      subst (λ r. IsLimited t r.1) (sym checked)
        (elim (Result-cases (look_up api t w).0) [
          | inl (f, e) ↦
              subst (λ r. IsLimited t r.1)
                (sym (
                  bind_ok (look_up api t) (publish_to api t)
                    (answers (look_up api t) e (look_up_still t w))))
                (publish_to-IsLimited t f w (look_up-server t w e) limited)
          | inr (x, e) ↦
              subst (λ r. IsLimited t r.1)
                (sym (
                  bind_err (look_up api t) (publish_to api t)
                    (answers (look_up api t) e (look_up_still t w))))
                limited
        ])
