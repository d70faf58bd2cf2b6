-- ===== src/Controller/Create/Repeat.antt =====
-- `CreateVolume` asked twice, over an API that keeps its laws.
use scaleway_csi.Base.{
  String, ◌<>◌, ◌≡◌, refl, ap, ◌∙◌, sym, subst, Option, none, some, List, [], arith, ok, err,
  Failure, Result-cases, inl, inr, bind_ok, bind-eq-ok, attempt_ok, attempt_err, answers, lift,
  return, ok-injective, ◌>>=◌,
}
use scaleway_csi.Base.Int.{ℤ}
use scaleway_csi.Base.Table.{Table}
use scaleway_csi.Ids.{Zone}
use scaleway_csi.Topology.{choose_zones, new_accessible_topology}
use scaleway_csi.Cloud.{
  InstanceApi, Volume, VolumeLookupError, volume_not_found, get_volume_by_name,
}
use scaleway_csi.Cloud.Laws.{IsReadOnly, IsCreating}
use scaleway_csi.Controller.Sizing.{size_for, size_for_state, size_for-types}
use scaleway_csi.Controller.Create.{
  Request, Response, Settings, check_request, read_source, create_in, place, provision,
  after_lookup, find_or_create, create_volume, existing, created, volume_request,
}
use scaleway_csi.Controller.Create.Made.{
  Made, create_in-Made, look_up-Made, look_up_state, look_up-not_found,
}

-- The zone can be read off the topology of a response.
same_zone : {y z : Zone} → new_accessible_topology y ≡ new_accessible_topology z → y ≡ z
same_zone e = cc

module _ (api : InstanceApi) (R : IsReadOnly api) (home : Zone) (L : IsCreating api home)
    (parse_zone : String → Option Zone) (order : Table Zone → Table Zone) where
  open api use {State}

  pub provision_of_no_source :
      (name : String) (size : ℤ) (s : Settings) (req : Request) (w : State)
      → req.volume_content_source ≡ none
      → provision parse_zone order api name size s req w
        ≡ place parse_zone order api name size s req none w
  unfolding provision read_source
  provision_of_no_source name size s req w no_source =
      bind_ok (read_source parse_zone order api req.volume_content_source)
        (place parse_zone order api name size s req)
        (λ i. read_source parse_zone order api (no_source i) w)

  pub place-Made :
      (name : String) (size : ℤ) (s : Settings) (req : Request) (w : State) {r : Response}
      → (api.list_volumes (some name) (some s.volume_type) w).0 ≡ ok []
      → (place parse_zone order api name size s req none w).0 ≡ ok r
      → (v : Volume) × (r ≡ existing s.encrypted v)
        × Made api R home L name s.volume_type size v w
            ((place parse_zone order api name size s req none w).1)
  unfolding place
  place-Made name size s req w none_listed e =
      let make =
        λ (zones : List Zone). create_in api (volume_request name s.volume_type size none) zones in
      let answer = λ (v : Volume). return {W = State} {E = Failure} (created s.encrypted none v) in
      let (zones, _, e₁, same₁) =
        bind-eq-ok (lift (choose_zones parse_zone order req.accessibility_requirements ""))
          (λ zones. make zones >>= answer) w e in
      let (v, made, e₂, same₂) = bind-eq-ok (make zones) answer w e₁ in
      (
        v,
        sym (ok-injective e₂),
        subst (λ r. Made api R home L name s.volume_type size v w (r.1)) (sym (same₁ ∙ same₂))
            (create_in-Made api R home L name s.volume_type size zones w none_listed made),
      )

  -- A lookup that finds the volume ends the work; so does every error but that nothing is found.
  pub find_or_create-existing :
      (name : String) (size : ℤ) (s : Settings) (req : Request) (w w' : State) {v : Volume}
      → get_volume_by_name api name size s.volume_type w ≡ (ok v, w')
      → find_or_create parse_zone order api name size s req w ≡ (ok (existing s.encrypted v), w')
  unfolding find_or_create
  find_or_create-existing name size s req w w' found =
      attempt_ok (get_volume_by_name api name size s.volume_type)
        (after_lookup parse_zone order api name size s req) (λ v. return (existing s.encrypted v))
        found

  pub find_or_create_missing :
      (name : String) (size : ℤ) (s : Settings) (req : Request) (w : State)
      → (get_volume_by_name api name size s.volume_type w).0 ≡ err volume_not_found
      → find_or_create parse_zone order api name size s req w
        ≡ provision parse_zone order api name size s req w
  unfolding find_or_create after_lookup
  find_or_create_missing name size s req w missing =
      attempt_err (get_volume_by_name api name size s.volume_type)
        (after_lookup parse_zone order api name size s req) (λ v. return (existing s.encrypted v))
        (answers (get_volume_by_name api name size s.volume_type) missing
          (look_up_state api R home L name s.volume_type size w))

  pub find_or_create_failed :
      (name : String) (size : ℤ) (s : Settings) (req : Request) (w : State) {x : VolumeLookupError}
      {r : Response}
      → (get_volume_by_name api name size s.volume_type w).0 ≡ err x
      → (find_or_create parse_zone order api name size s req w).0 ≡ ok r
      → x ≡ volume_not_found
  unfolding find_or_create after_lookup
  find_or_create_failed name size s req w {x} failed e = ground arith

  find_or_create_again :
      (name : String) (size : ℤ) (s : Settings) (req : Request) (w : State) {r : Response}
      → req.volume_content_source ≡ none
      → (find_or_create parse_zone order api name size s req w).0 ≡ ok r
      → r.accessible_topology ≡ new_accessible_topology home
      → let w' = (find_or_create parse_zone order api name size s req w).1 in
        (find_or_create parse_zone order api name size s req w' ≡ (ok r, w'))
        × ((api.list_volumes_types w').0 ≡ (api.list_volumes_types w).0)
  find_or_create_again name size s req w {r} no_source e at_home =
      elim (Result-cases (get_volume_by_name api name size s.volume_type w).0) [
        | inl (v, found) ↦
            let same = find_or_create-existing name size s req w w (
              answers (get_volume_by_name api name size s.volume_type) found
                (look_up_state api R home L name s.volume_type size w)) in
            let still = ap (λ r. r.1) same in
            (
              ap (find_or_create parse_zone order api name size s req) still
                  ∙ answers (find_or_create parse_zone order api name size s req) e refl,
              ap (λ u. (api.list_volumes_types u).0) still,
            )
        | inr (x, failed) ↦
            let missing = failed ∙ ap err (find_or_create_failed name size s req w failed e) in
            let same =
              find_or_create_missing name size s req w missing
              ∙ provision_of_no_source name size s req w no_source in
            let (v, named, made) =
              place-Made name size s req w
                (look_up-not_found api R home L name s.volume_type size w missing)
                (ap (λ r. r.0) (sym same) ∙ e) in
            let there =
              subst (λ r. Made api R home L name s.volume_type size v w (r.1)) (sym same) made in
            let w' = (find_or_create parse_zone order api name size s req w).1 in
            (
              find_or_create-existing name size s req w' w' (
                    look_up-Made api R home L name s.volume_type size v w w' there
                      (same_zone (ap (λ r. r.accessible_topology) (sym named) ∙ at_home)))
                  ∙ ap (λ r. (ok r, w')) (sym named),
              there.made_types,
            )
      ]

  -- A creation that ends well goes through the checks, the size and the lookup by name.
  pub create_volume-eq-ok :
      (prefix : String) (req : Request) (w : State) {r : Response}
      → (create_volume parse_zone order api prefix req w).0 ≡ ok r
      → (s : Settings) × (size : ℤ) × (check_request req ≡ ok s)
        × ((size_for api s.volume_type req.capacity_range w).0 ≡ ok size)
        × (create_volume parse_zone order api prefix req w
            ≡ find_or_create parse_zone order api (prefix <> req.name) size s req w)
  unfolding create_volume
  create_volume-eq-ok prefix req w e =
      let rest = λ (s : Settings) (size : ℤ).
        find_or_create parse_zone order api (prefix <> req.name) size s req in
      let sizes = λ (s : Settings). size_for api s.volume_type req.capacity_range in
      let (s, good, e₁, same₁) =
        bind-eq-ok (lift (check_request req)) (λ s. sizes s >>= rest s) w e in
      let (size, granted, _, same₂) = bind-eq-ok (sizes s) (rest s) w e₁ in
      (
        s,
        size,
        good,
        granted,
        same₁ ∙ same₂ ∙ ap (rest s size) (size_for_state api R s.volume_type req.capacity_range w),
      )

  create_volume_of :
      (prefix : String) (req : Request) (w : State) (s : Settings) (size : ℤ)
      → check_request req ≡ ok s
      → (size_for api s.volume_type req.capacity_range w).0 ≡ ok size
      → create_volume parse_zone order api prefix req w
        ≡ find_or_create parse_zone order api (prefix <> req.name) size s req w
  unfolding create_volume
  create_volume_of prefix req w s size good granted =
      let rest = λ (s : Settings) (size : ℤ).
        find_or_create parse_zone order api (prefix <> req.name) size s req in
      let sizes = λ (s : Settings). size_for api s.volume_type req.capacity_range in
      bind_ok (lift (check_request req)) (λ s. sizes s >>= rest s) (ap (λ r. (r, w)) good)
      ∙ bind_ok (sizes s) (rest s)
          (answers (sizes s) granted (size_for_state api R s.volume_type req.capacity_range w))

  -- Over an API whose reads change nothing and whose creations in the client's default zone show in
  -- the lists of volumes: a creation without a content source that answered with a volume in that
  -- zone and is repeated gives the same response and changes nothing, so no second volume is made.
  pub create_volume_idempotent :
      (prefix : String) (req : Request) (w : State) {r : Response}
      → req.volume_content_source ≡ none
      → (create_volume parse_zone order api prefix req w).0 ≡ ok r
      → r.accessible_topology ≡ new_accessible_topology home
      → let w' = (create_volume parse_zone order api prefix req w).1 in
        create_volume parse_zone order api prefix req w' ≡ (ok r, w')
  create_volume_idempotent prefix req w {r} no_source e at_home =
      let (s, size, good, granted, same) = create_volume-eq-ok prefix req w e in
      let name = prefix <> req.name in
      let (again, types) =
        find_or_create_again name size s req w no_source (ap (λ r. r.0) (sym same) ∙ e) at_home in
      let w' = (find_or_create parse_zone order api name size s req w).1 in
      let granted' = size_for-types api R s.volume_type req.capacity_range w' w types ∙ granted in
      subst (λ u. create_volume parse_zone order api prefix req u ≡ (ok r, u))
        (ap (λ r. r.1) (sym same)) (create_volume_of prefix req w' s size good granted' ∙ again)
