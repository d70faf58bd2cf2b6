-- ===== src/Controller/Attach/Release.antt =====
-- Unpublishing over an API that keeps its laws.
use scaleway_csi.Base.{
  String, ◌≡◌, refl, ap, subst, ◌∙◌, sym, ◌≢◌, ◌⊎◌, Option, none, some, arith, ok, err,
  Result-cases, Option-cases, inl, inr, bind_ok, lift, attempt, attempt_ok, attempt_err, answers,
}
use scaleway_csi.Ids.{Zone}
use scaleway_csi.Cloud.{InstanceApi, Volume, Server, resource_not_found, other_error}
use scaleway_csi.Cloud.Laws.{IsReadOnly, IsAttaching}
use scaleway_csi.Controller.Attach.{
  UnpublishRequest, Target, read_target, detach, controller_unpublish_volume, gone_is_done,
}

module _ (api : InstanceApi) (R : IsReadOnly api) (L : IsAttaching api) where
  open api use {State, get_volume, get_server, detach_volume}

  -- How the volume stands after an unpublication: it is not known, it is attached to no server, or
  -- the node is not known and nothing was changed.
  abbrev pub Released : Target → (before after : State) → Type 0
  Released t w w' =
      ((text : String) × ((get_volume t.volume_id t.volume_zone w').0
          ≡ err (resource_not_found text)))
      ⊎ ((v : Volume) × ((get_volume t.volume_id t.volume_zone w').0 ≡ ok v) × (v.server ≡ none))
      ⊎ ((text : String) × ((get_server t.node_id t.node_zone w').0 ≡ err (resource_not_found text))
          × (w' ≡ w))

  -- A detachment is made only of a volume that a server holds, and its node is looked at first.
  detach_held :
      (t : Target) (v : Volume) (w : State) {holder : String} {s s' : Server}
      → v.server ≡ some holder
      → (get_server t.node_id t.node_zone w).0 ≡ ok s
      → (detach_volume t.volume_id v.zone w).0 ≡ ok s'
      → detach api t v w ≡ (ok tt, (detach_volume t.volume_id v.zone w).1)
  unfolding detach
  detach_held t v w held hs done =
      rw (held, detach) (ground (arith, R.get_server_state t.node_id t.node_zone w))

  detach_free :
      (t : Target) (v : Volume) (w : State) → v.server ≡ none → detach api t v w ≡ (ok tt, w)
  unfolding detach
  detach_free t v w free = rw (free, detach)

  detach_no_node :
      (t : Target) (v : Volume) (w : State) {holder text : String}
      → v.server ≡ some holder
      → (get_server t.node_id t.node_zone w).0 ≡ err (resource_not_found text)
      → detach api t v w ≡ (ok tt, w)
  unfolding detach
  detach_no_node t v w held hs =
      rw (held, detach) (ground (arith, R.get_server_state t.node_id t.node_zone w))

  detach-ok :
      (t : Target) (v : Volume) (w : State) {holder : String}
      → v.server ≡ some holder
      → (detach api t v w).0 ≡ ok tt
      → ((text : String) × ((get_server t.node_id t.node_zone w).0 ≡ err (resource_not_found text)))
        ⊎ ((s s' : Server) × ((get_server t.node_id t.node_zone w).0 ≡ ok s)
            × ((detach_volume t.volume_id v.zone w).0 ≡ ok s'))
  unfolding detach
  detach-ok t v w held e = elim (Result-cases (get_server t.node_id t.node_zone w).0) [
    | inr (resource_not_found text, no_node) ↦ inl (text, no_node)
    | inr (other_error text, failed) ↦
        absurd (ground (arith, R.get_server_state t.node_id t.node_zone w))
    | inl (s, there) ↦ elim (Result-cases (detach_volume t.volume_id v.zone w).0) [
      | inl (s', done) ↦ inr (s, s', there, done)
      | inr (_, failed) ↦ absurd (ground (arith, R.get_server_state t.node_id t.node_zone w))
    ]
  ]

  -- An unpublication whose volume and node are known.
  unpublish_of_volume :
      (parse_zone : String → Option Zone) (req : UnpublishRequest) (w : State) (t : Target)
      (v : Volume)
      → read_target parse_zone req.volume_id req.node_id ≡ ok t
      → (get_volume t.volume_id t.volume_zone w).0 ≡ ok v
      → controller_unpublish_volume api parse_zone req w ≡ detach api t v w
  unfolding controller_unpublish_volume
  unpublish_of_volume parse_zone req w t v good hv =
      bind_ok (lift (read_target parse_zone req.volume_id req.node_id))
        (λ t'. attempt (get_volume t'.volume_id t'.volume_zone) gone_is_done (detach api t'))
        (ap (λ r. (r, w)) good)
      ∙ attempt_ok (get_volume t.volume_id t.volume_zone) gone_is_done (detach api t) (
          answers (get_volume t.volume_id t.volume_zone) hv
            (R.get_volume_state t.volume_id t.volume_zone w))

  detach-Released :
      (t : Target) (v : Volume) (w : State)
      → (get_volume t.volume_id t.volume_zone w).0 ≡ ok v
      → (detach api t v w).0 ≡ ok tt
      → Released t w ((detach api t v w).1)
  detach-Released t v w hv e = elim (Option-cases v.server) [
    | inl free ↦
        subst (λ r. Released t w (r.1)) (sym (detach_free t v w free)) (inr (inl (v, hv, free)))
    | inr (holder, held) ↦ elim (detach-ok t v w held e) [
      | inl (text, no_node) ↦
          subst (λ r. Released t w (r.1)) (sym (detach_no_node t v w held no_node))
            (inr (inr (text, no_node, refl)))
      | inr (s, s', there, done) ↦
          subst (λ r. Released t w (r.1)) (sym (detach_held t v w held there done))
            (inr (
              inl (
                record v { server = none },
                L.volume-detach t.volume_id v.zone t.volume_zone w hv done,
                refl,
              )))
    ]
  ]

  -- An unpublication of a volume that is not known succeeds and changes nothing.
  unpublish_of_missing :
      (parse_zone : String → Option Zone) (req : UnpublishRequest) (w : State) (t : Target)
      {text : String}
      → read_target parse_zone req.volume_id req.node_id ≡ ok t
      → (get_volume t.volume_id t.volume_zone w).0 ≡ err (resource_not_found text)
      → controller_unpublish_volume api parse_zone req w ≡ (ok tt, w)
  unfolding controller_unpublish_volume
  unpublish_of_missing parse_zone req w t good hv =
      bind_ok (lift (read_target parse_zone req.volume_id req.node_id))
        (λ t'. attempt (get_volume t'.volume_id t'.volume_zone) gone_is_done (detach api t'))
        (ap (λ r. (r, w)) good)
      ∙ attempt_err (get_volume t.volume_id t.volume_zone) gone_is_done (detach api t) (
          answers (get_volume t.volume_id t.volume_zone) hv
            (R.get_volume_state t.volume_id t.volume_zone w))

  -- Over an API whose reads change nothing and whose detachments show in later reads: after an
  -- unpublication that succeeds the volume is not known, or is attached to no server, or else the
  -- node is not known and nothing was changed.
  pub controller_unpublish_volume-Released :
      (parse_zone : String → Option Zone) (req : UnpublishRequest) (w : State)
      → (controller_unpublish_volume api parse_zone req w).0 ≡ ok tt
      → (t : Target) × (read_target parse_zone req.volume_id req.node_id ≡ ok t)
        × Released t w ((controller_unpublish_volume api parse_zone req w).1)
  unfolding controller_unpublish_volume
  controller_unpublish_volume-Released parse_zone req w e =
      elim (Result-cases (read_target parse_zone req.volume_id req.node_id)) [
        | inr (_, bad) ↦ absurd (ground arith)
        | inl (t, good) ↦ elim (Result-cases (get_volume t.volume_id t.volume_zone w).0) [
          | inl (v, hv) ↦
              let same = unpublish_of_volume parse_zone req w t v good hv in
              (
                t,
                good,
                subst (λ r. Released t w (r.1)) (sym same)
                    (detach-Released t v w hv (ap (λ r. r.0) (sym same) ∙ e)),
              )
          | inr (resource_not_found text, none_there) ↦
              let same = unpublish_of_missing parse_zone req w t good none_there in
              (t, good, subst (λ r. Released t w (r.1)) (sym same) (inl (text, none_there)))
          | inr (other_error text, failed) ↦ absurd (ground arith)
        ]
      ]

  -- Over an API whose reads change nothing and whose detachments show in later reads: an
  -- unpublication that succeeded and is repeated succeeds again and changes nothing.
  pub controller_unpublish_volume_idempotent :
      (parse_zone : String → Option Zone) (req : UnpublishRequest) (w : State)
      → (controller_unpublish_volume api parse_zone req w).0 ≡ ok tt
      → let w' = (controller_unpublish_volume api parse_zone req w).1 in
        controller_unpublish_volume api parse_zone req w' ≡ (ok tt, w')
  controller_unpublish_volume_idempotent parse_zone req w e =
      let (t, good, released) = controller_unpublish_volume-Released parse_zone req w e in
      let w' = (controller_unpublish_volume api parse_zone req w).1 in
      elim released [
        | inl (text, gone) ↦ unpublish_of_missing parse_zone req w' t good gone
        | inr (inl (v, hv, free)) ↦
            unpublish_of_volume parse_zone req w' t v good hv ∙ detach_free t v w' free
        | inr (inr (text, no_node, same)) ↦
            ap (controller_unpublish_volume api parse_zone req) same
            ∙ answers (controller_unpublish_volume api parse_zone req) e refl
      ]

  -- Over an API whose reads change nothing and whose detachments show in later reads: where the
  -- volume and the node are found, the volume is held by a server that is not the node of the
  -- request, and the API detaches it, the unpublication succeeds and the volume is attached to no
  -- server afterwards.
  pub unpublish_other_node :
      (parse_zone : String → Option Zone) (req : UnpublishRequest) (w : State) (t : Target)
      (v : Volume) (s s' : Server) (holder : String)
      → read_target parse_zone req.volume_id req.node_id ≡ ok t
      → (get_volume t.volume_id t.volume_zone w).0 ≡ ok v
      → (get_server t.node_id t.node_zone w).0 ≡ ok s
      → v.server ≡ some holder
      → holder ≢ t.node_id
      → (detach_volume t.volume_id v.zone w).0 ≡ ok s'
      → let r = controller_unpublish_volume api parse_zone req w in
        (r.0 ≡ ok tt)
        × ((get_volume t.volume_id t.volume_zone (r.1)).0 ≡ ok (record v { server = none }))
  unpublish_other_node parse_zone req w t v s s' holder good hv hs held other done =
      let same =
        unpublish_of_volume parse_zone req w t v good hv ∙ detach_held t v w held hs done in
      (
        ap (λ r. r.0) same,
        ap (λ r. (get_volume t.volume_id t.volume_zone (r.1)).0) same
            ∙ L.volume-detach t.volume_id v.zone t.volume_zone w hv done,
      )
