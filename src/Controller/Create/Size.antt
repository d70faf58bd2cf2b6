-- ===== src/Controller/Create/Size.antt =====
-- The size of the volume that `CreateVolume` answers with.
use scaleway_csi.Base.{
  String, ◌<>◌, ◌≡◌, ap, ◌∙◌, sym, none, some, Option, List, [], ◌∷◌, arith, ok, err, Result-cases,
  Bool-cases, inl, inr, answers, ok-injective, ◌==◌, ==_iff,
}
use scaleway_csi.Base.Int.{ℤ, to_int64, to_uint64}
use scaleway_csi.Base.Table.{Table}
use scaleway_csi.Ids.{Zone}
use scaleway_csi.Capacity.{get_volume_request_capacity}
use scaleway_csi.Cloud.{InstanceApi, Volume, get_volume_limits, get_volume_by_name, pick_volume}
use scaleway_csi.Cloud.Laws.{IsReadOnly, IsCreating}
use scaleway_csi.Controller.Sizing.{size_for-ok}
use scaleway_csi.Controller.Create.{
  Request, Response, Settings, check_request, find_or_create, create_volume,
}
use scaleway_csi.Controller.Create.Made.{look_up_state, look_up-not_found}
use scaleway_csi.Controller.Create.Repeat.{
  provision_of_no_source, place-Made, find_or_create-existing, find_or_create_missing,
  find_or_create_failed, create_volume-eq-ok,
}

pick_volume-size :
    (size : ℤ) (volumes : List Volume) {v : Volume}
    → pick_volume size volumes ≡ ok v
    → v.size ≡ to_uint64 size
unfolding pick_volume
pick_volume-size size [] e = cc
pick_volume-size size (x ∷ []) {v} e = elim (Bool-cases (x.size == to_uint64 size)) [
  | inl same ↦
      let named : x ≡ v = ground arith in
      ap (λ x. x.size) (sym named) ∙ (==_iff x.size (to_uint64 size)).0 same
  | inr other ↦ absurd (ground arith)
]
pick_volume-size size (v ∷ u ∷ vs) e = cc

module _ (api : InstanceApi) (R : IsReadOnly api) (home : Zone) (L : IsCreating api home)
    (parse_zone : String → Option Zone) (order : Table Zone → Table Zone) where
  open api use {State, list_volumes}

  look_up-size :
      (name : String) (size : ℤ) (volume_type : String) (w : State) {v : Volume}
      → (get_volume_by_name api name size volume_type w).0 ≡ ok v
      → v.size ≡ to_uint64 size
  unfolding get_volume_by_name
  look_up-size name size volume_type w {v} e =
      elim (Result-cases (list_volumes (some name) (some volume_type) w).0) [
        | inl (volumes, listed) ↦ pick_volume-size size volumes {v = v} (ground arith)
        | inr (x, failed) ↦ absurd (ground arith)
      ]

  find_or_create-size :
      (name : String) (size : ℤ) (s : Settings) (req : Request) (w : State) {r : Response}
      → req.volume_content_source ≡ none
      → (find_or_create parse_zone order api name size s req w).0 ≡ ok r
      → r.capacity_bytes ≡ to_int64 (to_uint64 size)
  find_or_create-size name size s req w {r} no_source e =
      elim (Result-cases (get_volume_by_name api name size s.volume_type w).0) [
        | inl (v, found) ↦
            let same = find_or_create-existing api R home L parse_zone order name size s req w w (
              answers (get_volume_by_name api name size s.volume_type) found
                (look_up_state api R home L name s.volume_type size w)) in
            let named = ok-injective (sym e ∙ ap (λ r. r.0) same) in
            ap (λ r. r.capacity_bytes) named
            ∙ ap to_int64 (look_up-size name size s.volume_type w found)
        | inr (x, failed) ↦
            let missing =
              failed
              ∙ ap err (
                  find_or_create_failed api R home L parse_zone order name size s req w failed e) in
            let same =
              find_or_create_missing api R home L parse_zone order name size s req w missing
              ∙ provision_of_no_source api R home L parse_zone order name size s req w no_source in
            let (v, named, made) =
              place-Made api R home L parse_zone order name size s req w
                (look_up-not_found api R home L name s.volume_type size w missing)
                (ap (λ r. r.0) (sym same) ∙ e) in
            ap (λ r. r.capacity_bytes) named ∙ ap to_int64 made.made_size
      ]

  -- Over an API whose reads change nothing, and whose creations give volumes the size asked for, show
  -- in the lists of the client's default zone, change nothing when they fail, and leave the volume
  -- types alone: a creation without a content source that succeeds passed the checks, and answers
  -- with the size that is granted for its range within the limits of the volume type it asks for,
  -- converted to 64 bits without sign and back.
  pub create_volume-size :
      (prefix : String) (req : Request) (w : State) {r : Response}
      → req.volume_content_source ≡ none
      → (create_volume parse_zone order api prefix req w).0 ≡ ok r
      → (s : Settings) × (lo hi size : ℤ) × (check_request req ≡ ok s)
        × ((get_volume_limits api s.volume_type w).0 ≡ ok (lo, hi))
        × (get_volume_request_capacity lo hi req.capacity_range ≡ ok size)
        × (r.capacity_bytes ≡ to_int64 (to_uint64 size))
  create_volume-size prefix req w no_source e =
      let (s, size, good, sized, same) =
        create_volume-eq-ok api R home L parse_zone order prefix req w e in
      let (lo, hi, limits, granted) = size_for-ok api R s.volume_type req.capacity_range w sized in
      (
        s,
        lo,
        hi,
        size,
        good,
        limits,
        granted,
        find_or_create-size (prefix <> req.name) size s req w no_source
            (ap (λ r. r.0) (sym same) ∙ e),
      )
