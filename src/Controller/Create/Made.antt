-- ===== src/Controller/Create/Made.antt =====
-- What the creation of a volume leaves behind, over an API that keeps its laws.
use scaleway_csi.Base.{
  String, ◌≡◌, refl, ap, ◌∙◌, sym, subst, none, some, List, [], ◌∷◌, ◌++◌, arith, Result, ok, err,
  Result-cases, inl, inr, attempt_ok, attempt_err, answers, lift, return, fail, or_fail,
  or_fail_state, or_fail-eq-ok, ok-injective,
}
use scaleway_csi.Base.Int.{ℤ, to_uint64}
use scaleway_csi.Ids.{Zone}
use scaleway_csi.Cloud.{
  InstanceApi, ApiError, Volume, CreateVolumeRequest, volume_not_found, volumes_failed,
  get_volume_by_name, pick_volume, api_text,
}
use scaleway_csi.Cloud.Laws.{IsReadOnly, IsCreating}
use scaleway_csi.Controller.Create.{api_failure, try_zones, create_in, volume_request}

pick_volume-not_found :
    (size : ℤ) (volumes : List Volume)
    → pick_volume size volumes ≡ err volume_not_found
    → volumes ≡ []
unfolding pick_volume
pick_volume-not_found size [] e = refl
pick_volume-not_found size (v ∷ []) e = absurd (ground arith)
pick_volume-not_found size (v ∷ u ∷ vs) e = cc

module _ (api : InstanceApi) (R : IsReadOnly api) (home : Zone) (L : IsCreating api home)
    (name volume_type : String) (size : ℤ) where
  open api use {State, list_volumes, list_volumes_types}

  abbrev pub request : Zone → CreateVolumeRequest
  request = volume_request name volume_type size none

  abbrev pub listing : State → Result ApiError (List Volume)
  listing w = (list_volumes (some name) (some volume_type) w).0

  -- A volume has been made of the name, the type and the size, and is listed alone under the name
  -- if it is in the default zone.
  pub record Made (v : Volume) (w w' : State) : Type 0 where
    pub made_listed : v.zone ≡ home → listing w' ≡ ok (v ∷ [])
    pub made_size : v.size ≡ to_uint64 size
    pub made_types : (list_volumes_types w').0 ≡ (list_volumes_types w).0

  create-Made :
      (z : Zone) (w : State) {v : Volume}
      → listing w ≡ ok []
      → (api.create_volume (request z) w).0 ≡ ok v
      → Made v w ((api.create_volume (request z) w).1)
  create-Made z w none_listed e = record {
    made_listed = L.list-create (request z) w none_listed e;
    made_size = L.size-create (request z) w e refl;
    made_types = L.types-create (request z) w;
  }

  first_zone :
      (z : Zone) (zones : List Zone) (errors : List String) (w : State) {v : Volume}
      → (api.create_volume (request z) w).0 ≡ ok v
      → try_zones api request (z ∷ zones) errors w ≡ (ok v, (api.create_volume (request z) w).1)
  unfolding try_zones
  first_zone z zones errors w done =
      attempt_ok (api.create_volume (request z))
        (λ x. try_zones api request zones (errors ++ api_text x ∷ [])) return
        (answers (api.create_volume (request z)) done refl)

  next_zone :
      (z : Zone) (zones : List Zone) (errors : List String) (w : State) {x : ApiError}
      → (api.create_volume (request z) w).0 ≡ err x
      → try_zones api request (z ∷ zones) errors w
        ≡ try_zones api request zones (errors ++ api_text x ∷ []) w
  unfolding try_zones
  next_zone z zones errors w failed =
      attempt_err (api.create_volume (request z))
        (λ x. try_zones api request zones (errors ++ api_text x ∷ [])) return
        (answers (api.create_volume (request z)) failed (L.create_failed (request z) w failed))

  try_zones-Made :
      (zones : List Zone) (errors : List String) (w : State) {v : Volume}
      → listing w ≡ ok []
      → (try_zones api request zones errors w).0 ≡ ok v
      → Made v w ((try_zones api request zones errors w).1)
  try_zones-Made [] errors w none_listed e = absurd (unfold try_zones in (ground arith))
  try_zones-Made (z ∷ zones) errors w {v} none_listed e =
      elim (Result-cases (api.create_volume (request z) w).0) [
        | inl (v', done) ↦
            let same = first_zone z zones errors w done in
            let made =
              subst (λ u. Made u w ((api.create_volume (request z) w).1))
                (ok-injective (ap (λ r. r.0) (sym same) ∙ e)) (create-Made z w none_listed done) in
            subst (λ r. Made v w (r.1)) (sym same) made
        | inr (x, failed) ↦
            let same = next_zone z zones errors w failed in
            subst (λ r. Made v w (r.1)) (sym same)
              (try_zones-Made zones (errors ++ api_text x ∷ []) w none_listed
                (ap (λ r. r.0) (sym same) ∙ e))
      ]

  one_zone-Made :
      (z : Zone) (w : State) {v : Volume}
      → listing w ≡ ok []
      → (or_fail (api.create_volume (request z)) api_failure w).0 ≡ ok v
      → Made v w ((or_fail (api.create_volume (request z)) api_failure w).1)
  one_zone-Made z w {v} none_listed e =
      let m = api.create_volume (request z) in
      subst (Made v w) (sym (or_fail_state m api_failure w))
        (create-Made z w none_listed (or_fail-eq-ok m api_failure w e))

  pub create_in-Made :
      (zones : List Zone) (w : State) {v : Volume}
      → listing w ≡ ok []
      → (create_in api request zones w).0 ≡ ok v
      → Made v w ((create_in api request zones w).1)
  unfolding create_in
  create_in-Made [] w none_listed e = one_zone-Made "" w none_listed e
  create_in-Made (z ∷ []) w none_listed e = one_zone-Made z w none_listed e
  create_in-Made (z ∷ y ∷ zones) w none_listed e = try_zones-Made (z ∷ y ∷ zones) [] w none_listed e

  -- Once made, the volume is what the lookup by name finds.
  pub look_up-Made :
      (v : Volume) (w w' : State)
      → Made v w w'
      → v.zone ≡ home
      → get_volume_by_name api name size volume_type w' ≡ (ok v, w')
  unfolding get_volume_by_name pick_volume
  look_up-Made v w w' made at_home =
      attempt_ok (list_volumes (some name) (some volume_type)) (λ e. fail (volumes_failed e))
        (λ volumes. lift (pick_volume size volumes))
        (answers (list_volumes (some name) (some volume_type)) (made.made_listed at_home)
          (R.list_volumes_state (some name) (some volume_type) w'))
      ∙ ground (arith, made.made_size)

  -- The lookup changes nothing; that it finds nothing means that nothing is listed.
  pub look_up_state : (w : State) → (get_volume_by_name api name size volume_type w).1 ≡ w
  unfolding get_volume_by_name
  look_up_state w = ground (arith, R.list_volumes_state (some name) (some volume_type) w)

  pub look_up-not_found :
      (w : State)
      → (get_volume_by_name api name size volume_type w).0 ≡ err volume_not_found
      → listing w ≡ ok []
  unfolding get_volume_by_name
  look_up-not_found w e = elim (Result-cases (listing w)) [
    | inr (x, failed) ↦ absurd (ground arith)
    | inl (volumes, found) ↦ found ∙ ap ok (pick_volume-not_found size volumes (ground arith))
  ]
