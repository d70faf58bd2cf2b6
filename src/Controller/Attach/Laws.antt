-- ===== src/Controller/Attach/Laws.antt =====
-- Publishing and unpublishing over an API that keeps its laws.
use text.Mathlib.TextEquality.{eq_iff}
use text.Mathlib.TextPositions.{eq_refl}
use scaleway_csi.Base.{
  String, ◌≡◌, ap, ◌∙◌, sym, subst, ok-injective, Option, none, some, arith, ok, ◌>>=◌, bind_ok,
  lift, Result-cases, Option-cases, inl, inr,
}
use scaleway_csi.Base.Table.{Table}
use scaleway_csi.Ids.{Zone}
use scaleway_csi.Cloud.{InstanceApi, Volume, Server}
use scaleway_csi.Cloud.Laws.{IsReadOnly, IsAttaching}
use scaleway_csi.Controller.Attach.{
  PublishRequest, Target, Found, check_publish, look_up, attach, publish_to,
  controller_publish_volume, publish_context,
}

with_server : (v : Volume) {o : Option String} → v.server ≡ o → v ≡ record v { server = o }
with_server v e = λ i. record v { server = e i }

module _ (api : InstanceApi) (R : IsReadOnly api) (L : IsAttaching api) where
  open api use {State, get_volume, get_server, attach_volume}

  -- Both the volume and the node are found.
  pub record Sees (t : Target) (f : Found) (w : State) : Type 0 where
    pub volume_found : (get_volume t.volume_id t.volume_zone w).0 ≡ ok f.volume
    pub server_found : (get_server t.node_id t.node_zone w).0 ≡ ok f.server

  look_up_state : (t : Target) (w : State) → (look_up api t w).1 ≡ w
  unfolding look_up
  look_up_state t w = ground (
    arith,
    R.get_volume_state t.volume_id t.volume_zone w,
    R.get_server_state t.node_id t.node_zone w,
  )

  look_up-Sees : (t : Target) (w : State) {f : Found} → (look_up api t w).0 ≡ ok f → Sees t f w
  unfolding look_up
  look_up-Sees t w e = record {
    volume_found = ground (
      arith,
      R.get_volume_state t.volume_id t.volume_zone w,
      R.get_server_state t.node_id t.node_zone w,
    );
    server_found = ground (
      arith,
      R.get_volume_state t.volume_id t.volume_zone w,
      R.get_server_state t.node_id t.node_zone w,
    );
  }

  look_up_of_Sees : (t : Target) (f : Found) (w : State) → Sees t f w → look_up api t w ≡ (ok f, w)
  unfolding look_up
  look_up_of_Sees t f w h = ground (
    arith,
    R.get_volume_state t.volume_id t.volume_zone w,
    R.get_server_state t.node_id t.node_zone w,
  )

  -- The volume is attached to the target's node, and else as it was.
  pub record Attached (t : Target) (volume : Volume) (w : State) : Type 0 where
    pub server : Server
    pub volume_attached :
        (get_volume t.volume_id t.volume_zone w).0 ≡ ok (record volume { server = some t.node_id })
    pub server_there : (get_server t.node_id t.node_zone w).0 ≡ ok server

  -- An attachment that succeeds is one call of the API.
  attach-eq-ok :
      (t : Target) (f : Found) (w : State) {c : Table String}
      → (attach api t f w).0 ≡ ok c
      → (s : Server) × ((attach_volume t.node_id t.volume_id f.volume.zone w).0 ≡ ok s)
        × (attach api t f w ≡ (
          ok (publish_context f.volume),
          (attach_volume t.node_id t.volume_id f.volume.zone w).1,
        ))
  unfolding attach
  attach-eq-ok t f w e =
      elim (Result-cases (attach_volume t.node_id t.volume_id f.volume.zone w).0) [
        | inl (s, done) ↦ (s, done, ground arith)
        | inr (_, failed) ↦ absurd (ground arith)
      ]

  attach-Attached :
      (t : Target) (f : Found) (w : State) {c : Table String}
      → Sees t f w
      → (attach api t f w).0 ≡ ok c
      → (c ≡ publish_context f.volume) × Attached t f.volume ((attach api t f w).1)
  attach-Attached t f w {c} h e =
      let (s, done, same) = attach-eq-ok t f w e in
      let (found, there) =
        L.server-attach t.node_id t.volume_id f.volume.zone t.node_zone w h.server_found done in
      (
        cc,
        rw same (record {
          server = found;
          volume_attached =
              L.volume-attach t.node_id t.volume_id f.volume.zone t.volume_zone w h.volume_found
                done;
          server_there = there;
        }),
      )

  publish_to_free :
      (t : Target) (f : Found) (w : State)
      → f.volume.server ≡ none
      → publish_to api t f w ≡ attach api t f w
  unfolding publish_to
  publish_to_free t f w free = ground arith

  publish_to_held :
      (t : Target) (f : Found) (w : State)
      → f.volume.server ≡ some f.server.id
      → publish_to api t f w ≡ (ok (publish_context f.volume), w)
  unfolding publish_to
  publish_to_held t f w held = ground (arith, eq_refl f.server.id)

  publish_to-ok_held :
      (t : Target) (f : Found) (w : State) {holder : String} {c : Table String}
      → f.volume.server ≡ some holder
      → (publish_to api t f w).0 ≡ ok c
      → holder ≡ f.server.id
  unfolding publish_to
  publish_to-ok_held t f w {holder} held e = ground (arith, eq_iff holder f.server.id)

  publish_to-Attached :
      (t : Target) (f : Found) (w : State) {c : Table String}
      → Sees t f w
      → (publish_to api t f w).0 ≡ ok c
      → (c ≡ publish_context f.volume) × Attached t f.volume ((publish_to api t f w).1)
  publish_to-Attached t f w {c} h e = elim (Option-cases f.volume.server) [
    | inl free ↦
        let same = publish_to_free t f w free in
        subst (λ r. (c ≡ publish_context f.volume) × Attached t f.volume (r.1)) (sym same)
          (attach-Attached t f w h (ap (λ r. r.0) (sym same) ∙ e))
    | inr (holder, held) ↦
        let mine = held ∙ ap some (publish_to-ok_held t f w held e) in
        let same = publish_to_held t f w mine in
        subst (λ r. (c ≡ publish_context f.volume) × Attached t f.volume (r.1)) (sym same)
          (
            ok-injective (sym e ∙ ap (λ r. r.0) same),
            record {
              server = f.server;
              volume_attached =
                  h.volume_found
                  ∙ ap ok
                      (with_server f.volume (mine ∙ ap some (L.server_named _ _ w h.server_found)));
              server_there = h.server_found;
            },
          )
  ]

  -- What a publication that succeeds went through.
  record Went (parse_zone : String → Option Zone) (req : PublishRequest) (w : State) : Type 0 where
    target : Target
    found : Found
    checked_ok : check_publish parse_zone req ≡ ok target
    sees : Sees target found w
    same : controller_publish_volume api parse_zone req w ≡ publish_to api target found w

  pub publish_of_look_up :
      (parse_zone : String → Option Zone) (req : PublishRequest) (w : State) (t : Target)
      (f : Found)
      → check_publish parse_zone req ≡ ok t
      → Sees t f w
      → controller_publish_volume api parse_zone req w ≡ publish_to api t f w
  unfolding controller_publish_volume
  publish_of_look_up parse_zone req w t f e h =
      bind_ok (lift (check_publish parse_zone req)) (λ t'. look_up api t' >>= publish_to api t')
        (ap (λ r. (r, w)) e)
      ∙ bind_ok (look_up api t) (publish_to api t) (look_up_of_Sees t f w h)

  publish-Went :
      (parse_zone : String → Option Zone) (req : PublishRequest) (w : State) {c : Table String}
      → (controller_publish_volume api parse_zone req w).0 ≡ ok c
      → Went parse_zone req w
  unfolding controller_publish_volume
  publish-Went parse_zone req w e = elim (Result-cases (check_publish parse_zone req)) [
    | inr (_, bad) ↦ absurd (ground arith)
    | inl (t, good) ↦ elim (Result-cases (look_up api t w).0) [
      | inr (_, failed) ↦ absurd (ground arith)
      | inl (f, seen) ↦
          let sees = look_up-Sees t w seen in
          record {
            target = t;
            found = f;
            checked_ok = good;
            sees = sees;
            same = publish_of_look_up parse_zone req w t f good sees;
          }
    ]
  ]

  -- Over an API whose reads change nothing and whose attachments show in later reads: after a
  -- publication that succeeds the API answers that the volume is attached to the node of the
  -- request and that the node is there, and the publish context names that volume.
  pub controller_publish_volume-Attached :
      (parse_zone : String → Option Zone) (req : PublishRequest) (w : State) {c : Table String}
      → (controller_publish_volume api parse_zone req w).0 ≡ ok c
      → (t : Target) × (v : Volume) × (check_publish parse_zone req ≡ ok t)
        × (c ≡ publish_context v)
        × Attached t v ((controller_publish_volume api parse_zone req w).1)
  controller_publish_volume-Attached parse_zone req w {c} e =
      let g = publish-Went parse_zone req w e in
      let (named, there) =
        publish_to-Attached g.target g.found w g.sees (ap (λ r. r.0) (sym g.same) ∙ e) in
      (
        g.target,
        g.found.volume,
        g.checked_ok,
        named,
        subst (λ r. Attached g.target g.found.volume (r.1)) (sym g.same) there,
      )

  -- Over an API whose reads change nothing and whose attachments show in later reads: a
  -- publication that succeeded and is repeated gives the same response and changes nothing.
  pub controller_publish_volume_idempotent :
      (parse_zone : String → Option Zone) (req : PublishRequest) (w : State) {c : Table String}
      → (controller_publish_volume api parse_zone req w).0 ≡ ok c
      → let w' = (controller_publish_volume api parse_zone req w).1 in
        controller_publish_volume api parse_zone req w' ≡ (ok c, w')
  controller_publish_volume_idempotent parse_zone req w {c} e =
      let (t, v, good, named, there) = controller_publish_volume-Attached parse_zone req w e in
      let w' = (controller_publish_volume api parse_zone req w).1 in
      let f : Found = record {
        volume = record v { server = some t.node_id };
        server = there.server;
      } in
      publish_of_look_up parse_zone req w' t f good
        (record { volume_found = there.volume_attached; server_found = there.server_there })
      ∙ publish_to_held t f w'
          (ap some (sym (L.server_named t.node_id t.node_zone w' there.server_there)))
      ∙ ap (λ r. (ok r, w')) (sym named)
