-- ===== src/Lifecycle/Created.antt =====
-- What an answer of `CreateVolume` carries.
use scaleway_csi.Base.{
  Bool, String, ◌<>◌, ◌≡◌, refl, ap, ◌∙◌, sym, subst, Option, some, List, [], ◌∷◌, ◌++◌, All, arith,
  ok, Result-cases, inl, inr, bind-eq-ok, or_fail-eq-ok, lift, return, ◌>>=◌, answers, attempt_err,
}
use scaleway_csi.Base.Int.{ℤ}
use scaleway_csi.Base.Table.{Table}
use scaleway_csi.Ids.{Zone, expand_id}
use scaleway_csi.Topology.{choose_zones}
use scaleway_csi.Cloud.{
  InstanceApi, Volume, CreateVolumeRequest, api_text, get_volume_by_name, pick_volume,
  VolumeLookupError, volume_not_found, different_size, multiple_volumes, volumes_failed,
}
use scaleway_csi.Controller.Sizing.{size_for}
use scaleway_csi.Controller.Create.{
  Request, Response, Settings, BaseSnapshot, context_of, existing, created, check_request,
  try_zones, create_in, api_failure, volume_request, snapshot_zone, read_source, place, provision,
  after_lookup, find_or_create, create_volume,
}
use scaleway_csi.Lifecycle.{IsKnown, IsNaming}

pick_volume-All :
    (P : Volume → Type 0) (size : ℤ) (vs : List Volume) {v : Volume}
    → All P vs
    → pick_volume size vs ≡ ok v
    → P v
unfolding pick_volume
pick_volume-All P size [] h e = cc
pick_volume-All P size (x ∷ []) {v} (h, _) e = subst P (ground arith) h
pick_volume-All P size (x ∷ y ∷ vs) h e = cc

module _ (parse_zone : String → Option Zone) (order : Table Zone → Table Zone) (api : InstanceApi)
    (N : IsNaming parse_zone api) where
  -- The volume of a response, and the flag that its context carries.
  pub record Carries (encrypted : Bool) (r : Response) : Type 0 where
    pub volume : Volume
    pub known : IsKnown parse_zone volume
    pub id_is : r.volume_id ≡ expand_id volume.zone volume.id
    pub context_is : r.volume_context ≡ context_of encrypted

  try_zones-IsKnown :
      (request : Zone → CreateVolumeRequest) (zones : List Zone) (errors : List String)
      (w : api.State) {v : Volume}
      → (try_zones api request zones errors w).0 ≡ ok v
      → IsKnown parse_zone v
  unfolding try_zones
  try_zones-IsKnown request [] errors w e = absurd (ground arith)
  try_zones-IsKnown request (z ∷ zones) errors w {v} e =
      elim (Result-cases (api.create_volume (request z) w).0) [
        | inl (u, done) ↦ N.created_known (request z) w v (ground arith)
        | inr (x, failed) ↦
            try_zones-IsKnown request zones (errors ++ api_text x ∷ [])
              ((api.create_volume (request z) w).1) {v = v} (ground arith)
      ]

  create_in-IsKnown :
      (request : Zone → CreateVolumeRequest) (zones : List Zone) (w : api.State) {v : Volume}
      → (create_in api request zones w).0 ≡ ok v
      → IsKnown parse_zone v
  unfolding create_in
  create_in-IsKnown request [] w {v} e =
      N.created_known (request "") w v
        (or_fail-eq-ok (api.create_volume (request "")) api_failure w e)
  create_in-IsKnown request (z ∷ []) w {v} e =
      N.created_known (request z) w v
        (or_fail-eq-ok (api.create_volume (request z)) api_failure w e)
  create_in-IsKnown request (z ∷ y ∷ zones) w e = try_zones-IsKnown request (z ∷ y ∷ zones) [] w e

  place-Carries :
      (name : String) (size : ℤ) (s : Settings) (req : Request) (base : Option BaseSnapshot)
      (w : api.State) {r : Response}
      → (place parse_zone order api name size s req base w).0 ≡ ok r
      → Carries s.encrypted r
  unfolding place
  place-Carries name size s req base w {r} e =
      elim (Result-cases
        (choose_zones parse_zone order req.accessibility_requirements (snapshot_zone base))) [
          | inr (x, bad) ↦ absurd (ground arith)
          | inl (zones, chosen) ↦
              let request = volume_request name s.volume_type size base in
              elim (Result-cases (create_in api request zones w).0) [
                | inr (x, failed) ↦ absurd (ground arith)
                | inl (v, done) ↦
                    let r_is : created s.encrypted base v ≡ r = ground arith in
                    record {
                      volume = v;
                      known = create_in-IsKnown request zones w done;
                      id_is = ap (λ r. r.volume_id) (sym r_is);
                      context_is = ap (λ r. r.volume_context) (sym r_is);
                    }
              ]
        ]

  provision-Carries :
      (name : String) (size : ℤ) (s : Settings) (req : Request) (w : api.State) {r : Response}
      → (provision parse_zone order api name size s req w).0 ≡ ok r
      → Carries s.encrypted r
  unfolding provision
  provision-Carries name size s req w e =
      let (base, _, later, _) =
        bind-eq-ok (read_source parse_zone order api req.volume_content_source)
          (place parse_zone order api name size s req) w e in
      place-Carries name size s req base _ later

  -- The volume of a lookup that finds one.
  looked_up-IsKnown :
      (name : String) (size : ℤ) (volume_type : String) (w : api.State) {v : Volume}
      → (get_volume_by_name api name size volume_type w).0 ≡ ok v
      → IsKnown parse_zone v
  unfolding get_volume_by_name
  looked_up-IsKnown name size volume_type w {v} e =
      elim (Result-cases (api.list_volumes (some name) (some volume_type) w).0) [
        | inr (x, failed) ↦ absurd (ground arith)
        | inl (vs, listed) ↦
            pick_volume-All (IsKnown parse_zone) size vs {v = v}
              (N.listed_known (some name) (some volume_type) w vs listed) (ground arith)
      ]

  after_lookup-Carries :
      (name : String) (size : ℤ) (s : Settings) (req : Request) (x : VolumeLookupError)
      (w : api.State) {r : Response}
      → (after_lookup parse_zone order api name size s req x w).0 ≡ ok r
      → Carries s.encrypted r
  unfolding after_lookup
  after_lookup-Carries name size s req volume_not_found w e = provision-Carries name size s req w e
  after_lookup-Carries name size s req different_size w e = cc
  after_lookup-Carries name size s req multiple_volumes w e = cc
  after_lookup-Carries name size s req (volumes_failed x) w e = cc

  find_or_create-Carries :
      (name : String) (size : ℤ) (s : Settings) (req : Request) (w : api.State) {r : Response}
      → (find_or_create parse_zone order api name size s req w).0 ≡ ok r
      → Carries s.encrypted r
  unfolding find_or_create
  find_or_create-Carries name size s req w {r} e =
      let found_or = get_volume_by_name api name size s.volume_type in
      elim (Result-cases (found_or w).0) [
        | inl (v, found) ↦
            let r_is : existing s.encrypted v ≡ r = ground arith in
            record {
              volume = v;
              known = looked_up-IsKnown name size s.volume_type w found;
              id_is = ap (λ r. r.volume_id) (sym r_is);
              context_is = ap (λ r. r.volume_context) (sym r_is);
            }
        | inr (x, failed) ↦ after_lookup-Carries name size s req x ((found_or w).1) {r = r} (
            ap (λ r. r.0)
              (sym (
                attempt_err found_or (after_lookup parse_zone order api name size s req)
                  (λ v. return (existing s.encrypted v)) (answers found_or failed refl)))
            ∙ e)
      ]

  -- Over an API whose volumes have zones and ids without a slash, in zones that the SDK knows: a
  -- creation that succeeds passed the checks, and its response carries the zone and the id of such a
  -- volume, and in its context the flag that the parameters set.
  pub create_volume-Carries :
      (prefix : String) (req : Request) (w : api.State) {r : Response}
      → (create_volume parse_zone order api prefix req w).0 ≡ ok r
      → (s : Settings) × (check_request req ≡ ok s) × Carries s.encrypted r
  unfolding create_volume
  create_volume-Carries prefix req w e =
      let (s, good, later, _) =
        bind-eq-ok (lift (check_request req))
          (λ s. size_for api s.volume_type req.capacity_range >>= λ size.
            find_or_create parse_zone order api (prefix <> req.name) size s req)
          w e in
      let (size, _, last, _) =
        bind-eq-ok (size_for api s.volume_type req.capacity_range)
          (λ size. find_or_create parse_zone order api (prefix <> req.name) size s req) w later in
      (s, good, find_or_create-Carries (prefix <> req.name) size s req _ last)
