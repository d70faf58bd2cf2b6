-- ===== src/Controller/Snapshots/Again.antt =====
-- `CreateSnapshot` asked twice, over an API that keeps its laws.
use text.Mathlib.TextPositions.{eq_refl}
use scaleway_csi.Base.{
  String, ◌≡◌, ap, ◌∙◌, sym, subst, false, Option, none, some, List, [], ◌∷◌, ◌⊎◌, inl, inr, arith,
  All, All-front, ok, err, Result-cases, Bool-cases, ok-injective,
}
use scaleway_csi.Base.Text.{same_text}
use scaleway_csi.Ids.{Zone, expand_id, get_source_volume_id_and_zone}
use scaleway_csi.Cloud.{
  InstanceApi, Snapshot, pick_snapshot, from_volume, snapshot_not_found, snapshot_same_name,
  snapshots_failed, get_snapshot_by_name,
}
use scaleway_csi.Cloud.Laws.{SameButState, Later, IsSnapshotting}
use scaleway_csi.Cloud.Lookup.{IsOther, pick_snapshot_none, pick_snapshot_first}
use scaleway_csi.Controller.Snapshots.{CreateRequest, Response, create_snapshot, snapshot_response}

-- The same answer, but for whether the snapshot is ready.
abbrev pub SameButReady : Response → Response → Type 0
SameButReady r r' = r' ≡ record r { ready_to_use = r'.ready_to_use }

snapshot_response-SameButReady :
    (source : String) (s s' : Snapshot)
    → SameButState s s'
    → SameButReady (snapshot_response source s) (snapshot_response source s')
snapshot_response-SameButReady source s s' e = λ i. snapshot_response source (e i)

-- The lookup by name finds the same snapshot later.
pick_snapshot-Later :
    (name source : String) (ss ts : List Snapshot) {s : Snapshot}
    → Later ss ts
    → pick_snapshot name source ss ≡ ok s
    → (t : Snapshot) × SameButState s t × (pick_snapshot name source ts ≡ ok t)
unfolding pick_snapshot
pick_snapshot-Later name source [] ts h e = cc
pick_snapshot-Later name source (x ∷ ss) [] h e = absurd h
pick_snapshot-Later name source (x ∷ ss) (t ∷ ts) {s} (same, h) e =
    elim (Bool-cases (same_text x.name name)) [
      | inl mine ↦
          let named = ap (λ y. same_text y.name name) same in
          let base = ap (λ y. from_volume source y.base_volume) same in
          elim (Bool-cases (from_volume source x.base_volume)) [
            | inr other ↦ absurd (ground arith)
            | inl taken ↦
                let picked : x ≡ s = ground arith in
                (t, subst (λ y. SameButState y t) picked same, ground (arith, named, base))
          ]
      | inr other ↦
          let (t', kept, found) = pick_snapshot-Later name source ss ts {s = s} h (ground arith) in
          let named = ap (λ y. same_text y.name name) same in (t', kept, ground (arith, named))
    ]

IsOther_later :
    (name source : String) (ss ts : List Snapshot)
    → Later ss ts
    → All (IsOther name source) ss
    → All (IsOther name source) ts
IsOther_later name source [] [] h k = tt
IsOther_later name source [] (t ∷ ts) h k = absurd h
IsOther_later name source (s ∷ ss) [] h k = absurd h
IsOther_later name source (s ∷ ss) (t ∷ ts) (same, h) (other, k) =
    (ap (λ x. same_text x.name name) same ∙ other, IsOther_later name source ss ts h k)

module _ (api : InstanceApi) (L : IsSnapshotting api) where
  open api use {State, list_snapshots}

  look_up_listed :
      (name source : String) (zone : Zone) (w : State) {ss : List Snapshot}
      → (list_snapshots (some name) none zone w).0 ≡ ok ss
      → (get_snapshot_by_name api name source zone w).0 ≡ pick_snapshot name source ss
  unfolding get_snapshot_by_name
  look_up_listed name source zone w e = ground arith

  -- The lookup asks for the list, and no more.
  look_up_state :
      (name source : String) (zone : Zone) (w : State)
      → (get_snapshot_by_name api name source zone w).1 ≡ (list_snapshots (some name) none zone w).1
  unfolding get_snapshot_by_name
  look_up_state name source zone w = ground arith

  look_up-found :
      (name source : String) (zone : Zone) (w : State) {s : Snapshot}
      → (get_snapshot_by_name api name source zone w).0 ≡ ok s
      → (ss : List Snapshot) × ((list_snapshots (some name) none zone w).0 ≡ ok ss)
        × (pick_snapshot name source ss ≡ ok s)
  unfolding get_snapshot_by_name
  look_up-found name source zone w e =
      elim (Result-cases (list_snapshots (some name) none zone w).0) [
        | inl (ss, listed) ↦ (ss, listed, ground arith)
        | inr (x, failed) ↦ absurd (ground arith)
      ]

  look_up-not_found :
      (name source : String) (zone : Zone) (w : State)
      → (get_snapshot_by_name api name source zone w).0 ≡ err snapshot_not_found
      → (ss : List Snapshot) × ((list_snapshots (some name) none zone w).0 ≡ ok ss)
        × All (IsOther name source) ss
  unfolding get_snapshot_by_name
  look_up-not_found name source zone w e =
      elim (Result-cases (list_snapshots (some name) none zone w).0) [
        | inl (ss, listed) ↦ (ss, listed, pick_snapshot_none name source ss (ground arith))
        | inr (x, failed) ↦ absurd (ground arith)
      ]

  -- A snapshot that was found is found again.
  look_up_again :
      (name source : String) (zone : Zone) (w : State) {s : Snapshot}
      → (get_snapshot_by_name api name source zone w).0 ≡ ok s
      → (t : Snapshot) × SameButState s t
        × ((get_snapshot_by_name api name source zone
              ((list_snapshots (some name) none zone w).1)).0
            ≡ ok t)
  look_up_again name source zone w found =
      let (ss, listed, picked) = look_up-found name source zone w found in
      let (ts, later, there) = L.list-list name zone w listed in
      let (t, same, again) = pick_snapshot-Later name source ss ts later picked in
      (t, same, look_up_listed name source zone _ there ∙ again)

  -- A snapshot that was just made is found by its name.
  look_up_made :
      (name source : String) (zone : Zone) (w : State) {s : Snapshot}
      → let w' = (list_snapshots (some name) none zone w).1 in
        (get_snapshot_by_name api name source zone w).0 ≡ err snapshot_not_found
        → (api.create_snapshot source name zone w').0 ≡ ok s
        → (t : Snapshot) × SameButState s t
          × ((get_snapshot_by_name api name source zone
                ((api.create_snapshot source name zone w').1)).0
              ≡ ok t)
  look_up_made name source zone w {s} missing made =
      let w' = (list_snapshots (some name) none zone w).1 in
      let (ss, listed, others) = look_up-not_found name source zone w missing in
      let (before, after, front, back, now, split, later, same, there) =
        L.list-create_snapshot source name zone w listed made in
      let (named, taken) = L.created_as source name zone w' made in
      let in_front = IsOther_later name source before front later (
        All-front (IsOther name source) before after
          (subst (All (IsOther name source)) (sym split) others)) in
      (
        now,
        same,
        look_up_listed name source zone _ there
            ∙ pick_snapshot_first name source front back now in_front
                (ap (λ x. x.name) same ∙ named)
                (ap (λ x. from_volume source x.base_volume) same
                  ∙ ap (from_volume source) taken
                  ∙ eq_refl source),
      )

  -- A request that names a volume and a snapshot is a lookup by the name.
  after_look_up :
      (parse_zone : String → Option Zone) (req : CreateRequest) (w : State) {id : String}
      {zone : Zone} {s : Snapshot}
      → get_source_volume_id_and_zone parse_zone req.source_volume_id ≡ ok (id, zone)
      → same_text req.name "" ≡ false
      → (get_snapshot_by_name api req.name id zone w).0 ≡ ok s
      → create_snapshot parse_zone api req w ≡ (
        ok (snapshot_response (expand_id zone id) s),
        (list_snapshots (some req.name) none zone w).1,
      )
  unfolding create_snapshot
  after_look_up parse_zone req w {id} {zone} good named found =
      ground (arith, look_up_state req.name id zone w)

  after_missing :
      (parse_zone : String → Option Zone) (req : CreateRequest) (w : State) {id : String}
      {zone : Zone} {s : Snapshot}
      → let w' = (list_snapshots (some req.name) none zone w).1 in
        get_source_volume_id_and_zone parse_zone req.source_volume_id ≡ ok (id, zone)
        → same_text req.name "" ≡ false
        → (get_snapshot_by_name api req.name id zone w).0 ≡ err snapshot_not_found
        → (api.create_snapshot id req.name zone w').0 ≡ ok s
        → create_snapshot parse_zone api req w ≡ (
          ok (snapshot_response (expand_id zone id) s),
          (api.create_snapshot id req.name zone w').1,
        )
  unfolding create_snapshot
  after_missing parse_zone req w {id} {zone} good named missing made =
      ground (arith, look_up_state req.name id zone w)

  -- The answer of a request whose snapshot is found in the state that the first one left.
  answered_again :
      (parse_zone : String → Option Zone) (req : CreateRequest) (w : State) {r : Response}
      (id : String) (zone : Zone) (s t : Snapshot) {u : State}
      → get_source_volume_id_and_zone parse_zone req.source_volume_id ≡ ok (id, zone)
      → same_text req.name "" ≡ false
      → SameButState s t
      → create_snapshot parse_zone api req w ≡ (ok (snapshot_response (expand_id zone id) s), u)
      → (create_snapshot parse_zone api req w).0 ≡ ok r
      → (get_snapshot_by_name api req.name id zone u).0 ≡ ok t
      → let w' = (create_snapshot parse_zone api req w).1 in
        (zone : Zone) × (again : Response) × SameButReady r again
        × (create_snapshot parse_zone api req w'
            ≡ (ok again, (list_snapshots (some req.name) none zone w').1))
  answered_again parse_zone req w id zone s t good named kept same e found =
      let left = ap (λ r. r.1) same in
      (
        zone,
        snapshot_response (expand_id zone id) t,
        subst (λ r. SameButReady r (snapshot_response (expand_id zone id) t))
            (ok-injective (sym (ap (λ r. r.0) same) ∙ e))
            (snapshot_response-SameButReady (expand_id zone id) s t kept),
        after_look_up parse_zone req _ good named
            (ap (λ u. (get_snapshot_by_name api req.name id zone u).0) left ∙ found),
      )

  -- What a creation that succeeds went through.
  snapshot-cases :
      (parse_zone : String → Option Zone) (req : CreateRequest) (w : State) {r : Response}
      (id : String) (zone : Zone)
      → let w' = (list_snapshots (some req.name) none zone w).1 in
        get_source_volume_id_and_zone parse_zone req.source_volume_id ≡ ok (id, zone)
        → (create_snapshot parse_zone api req w).0 ≡ ok r
        → (same_text req.name "" ≡ false)
          × (((s : Snapshot) × ((get_snapshot_by_name api req.name id zone w).0 ≡ ok s))
              ⊎ ((s : Snapshot) × ((get_snapshot_by_name api req.name id zone w).0
                    ≡ err snapshot_not_found)
                  × ((api.create_snapshot id req.name zone w').0 ≡ ok s)))
  unfolding create_snapshot
  snapshot-cases parse_zone req w id zone good e =
      let still = look_up_state req.name id zone w in
      let w' = (list_snapshots (some req.name) none zone w).1 in
      elim (Result-cases (get_snapshot_by_name api req.name id zone w).0) [
        | inl (s, found) ↦ (ground arith, inl (s, found))
        | inr (snapshot_same_name, same) ↦ absurd (ground (arith, still))
        | inr (snapshots_failed x, failed) ↦ absurd (ground (arith, still))
        | inr (snapshot_not_found, missing) ↦
            elim (Result-cases (api.create_snapshot id req.name zone w').0) [
              | inl (s, made) ↦ (ground arith, inr (s, missing, made))
              | inr (x, failed) ↦ absurd (ground (arith, still))
            ]
      ]

  -- Over an API whose new snapshots join the list of their name, which stays the same when it is
  -- asked for again, but for the states of the snapshots: a snapshot request that succeeded and is
  -- repeated gives the same response, but for whether the snapshot is ready, and asks the API for
  -- that list alone, so no second snapshot is made.
  pub create_snapshot_idempotent :
      (parse_zone : String → Option Zone) (req : CreateRequest) (w : State) {r : Response}
      → (create_snapshot parse_zone api req w).0 ≡ ok r
      → let w' = (create_snapshot parse_zone api req w).1 in
        (zone : Zone) × (again : Response) × SameButReady r again
        × (create_snapshot parse_zone api req w'
            ≡ (ok again, (list_snapshots (some req.name) none zone w').1))
  unfolding create_snapshot
  create_snapshot_idempotent parse_zone req w {r} e =
      elim (Result-cases (get_source_volume_id_and_zone parse_zone req.source_volume_id)) [
        | inr (_, bad) ↦ absurd (ground arith)
        | inl ((id, zone), good) ↦
            let (named, either) = snapshot-cases parse_zone req w id zone good e in
            elim either [
              | inl (s, found) ↦
                  let same = after_look_up parse_zone req w good named found in
                  let (t, kept, again) = look_up_again req.name id zone w found in
                  answered_again parse_zone req w id zone s t good named kept same e again
              | inr (s, missing, made) ↦
                  let same = after_missing parse_zone req w good named missing made in
                  let (t, kept, again) = look_up_made req.name id zone w missing made in
                  answered_again parse_zone req w id zone s t good named kept same e again
            ]
      ]
