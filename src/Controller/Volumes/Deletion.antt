-- ===== src/Controller/Volumes/Deletion.antt =====
-- What `DeleteVolume` deletes, over an API that keeps its laws.
use scaleway_csi.Base.{
  String, ◌≡◌, ◌⊎◌, subst, refl, ap, ◌∙◌, sym, Option, none, some, arith, ok, err, status,
  failed_precondition, Result-cases, inl, inr, answers,
}
use scaleway_csi.Ids.{Zone, get_volume_id_and_zone}
use scaleway_csi.Cloud.{InstanceApi, Volume, resource_not_found, other_error}
use scaleway_csi.Cloud.Laws.{IsReadOnly, IsDeleting}
use scaleway_csi.Controller.Volumes.{delete_found, delete_volume}

module _ (api : InstanceApi) (R : IsReadOnly api) (parse_zone : String → Option Zone) where
  open api use {State, get_volume}

  delete_of_found :
      (given : String) (w : State) {id : String} {zone : Zone} {v : Volume}
      → get_volume_id_and_zone parse_zone given ≡ ok (id, zone)
      → (get_volume id zone w).0 ≡ ok v
      → delete_volume parse_zone api given w ≡ delete_found parse_zone api v w
  unfolding delete_volume
  delete_of_found given w {id} {zone} {v} good hv = ground (arith, R.get_volume_state id zone w)

  delete_of_missing :
      (given : String) (w : State) {id : String} {zone : Zone} {text : String}
      → get_volume_id_and_zone parse_zone given ≡ ok (id, zone)
      → (get_volume id zone w).0 ≡ err (resource_not_found text)
      → delete_volume parse_zone api given w ≡ (ok tt, w)
  unfolding delete_volume
  delete_of_missing given w {id} {zone} good hv = ground (arith, R.get_volume_state id zone w)

  -- Over an API whose reads change nothing: the deletion of a volume that is found and that a
  -- server holds fails with FailedPrecondition and changes nothing.
  pub delete_volume_attached :
      (given : String) (w : State) (id : String) (zone : Zone) (v : Volume) (server : String)
      → get_volume_id_and_zone parse_zone given ≡ ok (id, zone)
      → (get_volume id zone w).0 ≡ ok v
      → v.server ≡ some server
      → (text : String) × (delete_volume parse_zone api given w
          ≡ (err (status failed_precondition text), w))
  unfolding delete_found
  delete_volume_attached given w id zone v server good hv held =
      ("volume is still atached to a server", delete_of_found given w good hv ∙ ground arith)

  module _ (D : IsDeleting api) where
    delete_found-gone :
        (id : String) (zone : Zone) (w : State) {v : Volume}
        → (get_volume id zone w).0 ≡ ok v
        → (delete_found parse_zone api v w).0 ≡ ok tt
        → (v.server ≡ none)
          × (((text : String) × ((get_volume id zone ((delete_found parse_zone api v w).1)).0
                  ≡ err (resource_not_found text)))
              ⊎ ((delete_found parse_zone api v w).1 ≡ w))
    unfolding delete_found
    delete_found-gone id zone w {v} hv e = elim (Result-cases (api.delete_volume v.id v.zone w).0) [
      | inl (t, done) ↦
          let (text, gone) = D.get-delete id zone w hv done in
          (ground arith, inl (text, ground arith))
      | inr (resource_not_found text, missing) ↦
          (ground arith, inr (ground (arith, D.delete_missing v.id v.zone w missing)))
      | inr (other_error text, failed) ↦ absurd (ground arith)
    ]

    -- Over an API whose reads change nothing and that does not find a deleted volume: a deletion
    -- that succeeded and is repeated succeeds again and changes nothing.
    pub delete_volume_idempotent :
        (given : String) (w : State)
        → (delete_volume parse_zone api given w).0 ≡ ok tt
        → let w' = (delete_volume parse_zone api given w).1 in
          delete_volume parse_zone api given w' ≡ (ok tt, w')
    unfolding delete_volume
    delete_volume_idempotent given w e =
        elim (Result-cases (get_volume_id_and_zone parse_zone given)) [
          | inr (_, bad) ↦ absurd (ground arith)
          | inl ((id, zone), good) ↦ elim (Result-cases (get_volume id zone w).0) [
            | inr (other_error text, failed) ↦ absurd (ground arith)
            | inr (resource_not_found text, missing) ↦
                let same = delete_of_missing given w good missing in
                subst (λ u. delete_volume parse_zone api given u ≡ (ok tt, u))
                  (ap (λ r. r.1) (sym same)) same
            | inl (v, hv) ↦
                let same = delete_of_found given w good hv in
                let w' = (delete_volume parse_zone api given w).1 in
                let still = ap (λ r. r.1) same in
                let (_, either) = delete_found-gone id zone w hv (ap (λ r. r.0) (sym same) ∙ e) in
                elim either [
                  | inl (text, gone) ↦
                      delete_of_missing given w' good
                        (ap (λ u. (get_volume id zone u).0) still ∙ gone)
                  | inr unchanged ↦
                      ap (delete_volume parse_zone api given) (still ∙ unchanged)
                      ∙ answers (delete_volume parse_zone api given) e refl
                ]
          ]
        ]
