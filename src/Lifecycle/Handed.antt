-- ===== src/Lifecycle/Handed.antt =====
-- A volume is created, attached, and staged, each call with what the calls before it answered.
use text.Mathlib.TextEquality.{eq_iff}
use scaleway_csi.Base.{
  Bool, String, ◌≡◌, ◌≢◌, refl, ap, ◌∙◌, Option, some, arith, ok, bind-eq-ok, lift, ◌>>=◌, true,
  false,
}
use scaleway_csi.Base.Text.{parse_bool}
use scaleway_csi.Base.Table.{Table, lookup}
use scaleway_csi.Csi.{VolumeCapability}
use scaleway_csi.Ids.{Zone, expand_id, get_volume_id_and_zone}
use scaleway_csi.Ids.Format.{extract_id_and_zone-expand_id}
use scaleway_csi.Cloud.{InstanceApi, Volume}
use scaleway_csi.Controller.Create.{
  Request, Response, Settings, check_request, create_volume, context_of,
}
use scaleway_csi.Controller.Attach.{
  PublishRequest, Target, Found, check_publish, read_target, look_up, publish_to, attach,
  controller_publish_volume, publish_context,
}
use scaleway_csi.Node.Requests.{StageRequest, is_encrypted_volume, given_capability}
use scaleway_csi.Node.Stage.{Staging, check_stage, stage_context}
use scaleway_csi.Lifecycle.{IsKnown, IsNaming}
use scaleway_csi.Lifecycle.Created.{create_volume-Carries}

-- The flag comes through the volume context.
is_encrypted_volume-context_of : (b : Bool) → is_encrypted_volume (context_of b) ≡ ok b
unfolding is_encrypted_volume lookup parse_bool
is_encrypted_volume-context_of true = refl
is_encrypted_volume-context_of false = refl

-- The id comes through the publish context of a volume that has a name.
stage_context-publish_context :
    (id : String) (v : Volume) → v.name ≢ "" → stage_context id (publish_context v) ≡ ok v.id
unfolding stage_context lookup
stage_context-publish_context id v named = ground (arith, eq_iff v.name "")

module _ (parse_zone : String → Option Zone) where
  get_volume_id_and_zone-IsKnown :
      (v : Volume)
      → IsKnown parse_zone v
      → get_volume_id_and_zone parse_zone (expand_id v.zone v.id) ≡ ok (v.id, v.zone)
  unfolding get_volume_id_and_zone
  get_volume_id_and_zone-IsKnown v k =
      extract_id_and_zone-expand_id parse_zone "volumeID" v.zone v.id k.zone_plain k.id_plain
      ∙ ground (arith, k.zone_known)

  -- A publication that passes its checks has a capability that the node accepts too, and the id of
  -- its volume.
  check_publish-passed :
      (req : PublishRequest) (cap : VolumeCapability) (id : String) (zone : Zone) {t : Target}
      → req.volume_capability ≡ some cap
      → get_volume_id_and_zone parse_zone req.volume_id ≡ ok (id, zone)
      → check_publish parse_zone req ≡ ok t
      → (t.volume_id ≡ id) × (given_capability (some cap) ≡ ok cap)
  unfolding check_publish read_target given_capability
  check_publish-passed req cap id zone given read e = (ground arith, ground arith)

  check_stage-passed :
      (req : StageRequest) (cap : VolumeCapability) (id scw_id : String) (zone : Zone)
      (encrypted : Bool)
      → get_volume_id_and_zone parse_zone req.volume_id ≡ ok (id, zone)
      → is_encrypted_volume req.volume_context ≡ ok encrypted
      → req.staging_target_path ≢ ""
      → req.volume_capability ≡ some cap
      → given_capability (some cap) ≡ ok cap
      → stage_context id req.publish_context ≡ ok scw_id
      → check_stage parse_zone req
        ≡ ok (record { volume_id = id; encrypted = encrypted; capability = cap; scw_id = scw_id })
  unfolding check_stage
  check_stage-passed req cap id scw_id zone encrypted read flag path given valid named =
      ground (arith, eq_iff req.staging_target_path "")

  module _ (api : InstanceApi) where
    -- The volume that a publication answers with.
    record Published (t : Target) (c : Table String) : Type 0 where
      volume : Volume
      state : api.State
      found : (api.get_volume t.volume_id t.volume_zone state).0 ≡ ok volume
      context_is : c ≡ publish_context volume

    look_up-found :
        (t : Target) (w : api.State) {f : Found}
        → (look_up api t w).0 ≡ ok f
        → (api.get_volume t.volume_id t.volume_zone w).0 ≡ ok f.volume
    unfolding look_up
    look_up-found t w e = ground arith

    publish_to-context :
        (t : Target) (f : Found) (w : api.State) {c : Table String}
        → (publish_to api t f w).0 ≡ ok c
        → c ≡ publish_context f.volume
    unfolding publish_to attach
    publish_to-context t f w e = ground arith

    controller_publish_volume-Published :
        (req : PublishRequest) (w : api.State) {c : Table String}
        → (controller_publish_volume api parse_zone req w).0 ≡ ok c
        → (t : Target) × (check_publish parse_zone req ≡ ok t) × Published t c
    unfolding controller_publish_volume
    controller_publish_volume-Published req w e =
        let (t, good, later, _) =
          bind-eq-ok (lift (check_publish parse_zone req))
            (λ t. look_up api t >>= λ f. publish_to api t f) w e in
        let (f, seen, last, _) = bind-eq-ok (look_up api t) (λ f. publish_to api t f) w later in
        (
          t,
          good,
          record {
            volume = f.volume;
            state = w;
            found = look_up-found t w seen;
            context_is = publish_to-context t f _ last;
          },
        )

-- The request that attaches the volume of a response, and the one that stages it.
abbrev pub publish_of : Response → (node : String) → VolumeCapability → PublishRequest
publish_of r node cap = record {
  volume_id = r.volume_id;
  node_id = node;
  volume_capability = some cap;
}

abbrev pub stage_of :
    Response → (context secrets : Table String) → (path : String) → VolumeCapability → StageRequest
stage_of r context secrets path cap = record {
  volume_id = r.volume_id;
  volume_context = r.volume_context;
  publish_context = context;
  secrets = secrets;
  staging_target_path = path;
  volume_capability = some cap;
}

-- What the node makes of it: the volume's own id, twice, and the flag of the settings.
abbrev pub staging_of : Volume → Settings → VolumeCapability → Staging
staging_of v s cap = record {
  volume_id = v.id;
  encrypted = s.encrypted;
  capability = cap;
  scw_id = v.id;
}

module _ (parse_zone : String → Option Zone) (order : Table Zone → Table Zone) (api : InstanceApi)
    (N : IsNaming parse_zone api) where
  -- Over an API whose volumes have names, and zones and ids without a slash, in zones that the SDK
  -- knows, and which finds a volume under its own id: if a creation and then an attachment of the
  -- volume it answered with succeed, the node accepts the staging of that volume with the contexts
  -- of both answers on a path that is not empty, and looks for the device of just that volume,
  -- encrypted just if the parameters of the creation set it.
  pub check_stage-create_volume :
      (prefix : String) (req : Request) (w : api.State) {r : Response}
      → (create_volume parse_zone order api prefix req w).0 ≡ ok r
      → (node : String) (cap : VolumeCapability) (w' : api.State) (c : Table String)
      → (controller_publish_volume api parse_zone (publish_of r node cap) w').0 ≡ ok c
      → (secrets : Table String) (path : String) → path ≢ ""
      → (s : Settings) × (v : Volume) × (check_request req ≡ ok s)
        × (r.volume_id ≡ expand_id v.zone v.id)
        × (check_stage parse_zone (stage_of r c secrets path cap) ≡ ok (staging_of v s cap))
  check_stage-create_volume prefix req w {r} made node cap w' c attached secrets path there =
      let (s, checks, k) = create_volume-Carries parse_zone order api N prefix req w made in
      let v = k.volume in
      let (t, good, p) =
        controller_publish_volume-Published parse_zone api (publish_of r node cap) w' attached in
      let read =
        ap (get_volume_id_and_zone parse_zone) k.id_is
        ∙ get_volume_id_and_zone-IsKnown parse_zone v k.known in
      let (same_id, valid) =
        check_publish-passed parse_zone (publish_of r node cap) cap v.id v.zone refl read good in
      let (found_id, named) = N.found_id t.volume_id t.volume_zone p.state p.volume p.found in
      (
        s,
        v,
        checks,
        k.id_is,
        check_stage-passed parse_zone (stage_of r c secrets path cap) cap v.id v.id v.zone
            s.encrypted read
            (ap is_encrypted_volume k.context_is ∙ is_encrypted_volume-context_of s.encrypted) there
            refl valid
            (ap (stage_context v.id) p.context_is
              ∙ stage_context-publish_context v.id p.volume named
              ∙ ap ok (found_id ∙ same_id)),
      )
