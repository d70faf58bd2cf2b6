-- ===== src/Topology/Loops.antt =====
-- The loops of `chooseZones`: what holds of the variables they build.
use text.Mathlib.TextEquality.{eq_iff}
use scaleway_csi.Base.{
  String, ◌≡◌, refl, inl, inr, Bool, true, false, Option, some, List, [], ◌∷◌, All, All-append, ok,
  ok-injective, then-eq-ok, subst, Bool-cases, Option-cases,
}
use scaleway_csi.Base.Text.{same_text}
use scaleway_csi.Base.Table.{Table, lookup, insert-All, erase-All, lookup-All}
use scaleway_csi.Csi.{Segments}
use scaleway_csi.Ids.{Zone}
use scaleway_csi.Topology.{
  zone_topology_key, fits, Choice, requisite_segment, requisite_segments, requisites, prefer,
  preferred_segment, preferred_segments, preferences, values,
}

-- A property of every zone value that the topologies name.
abbrev pub AllNamed : (String → Type 0) → List Segments → Type 0
AllNamed P = All (All (λ (s : String × String). s.0 ≡ zone_topology_key → P s.1))

module _ (parse_zone : String → Option Zone) (snapshot : Zone) (P : String → Type 0) where
  -- A zone that the SDK reads from a named value, and that the snapshot allows.
  abbrev pub Offered : Zone → Type 0
  Offered z = (v : String) × (parse_zone v ≡ some z) × P v × (fits snapshot z ≡ true)

  abbrev pub Entry : String × Zone → Type 0
  Entry e = (parse_zone e.0 ≡ some e.1) × P e.0 × (fits snapshot e.1 ≡ true)

  requisite_segment-Entry :
      (s : String × String) (m : Table Zone)
      → (s.0 ≡ zone_topology_key → P s.1)
      → All Entry m
      → All Entry (requisite_segment parse_zone snapshot s m)
  unfolding requisite_segment
  requisite_segment-Entry (key, value) m p h = elim (Bool-cases (same_text key zone_topology_key)) [
    | inr e ↦ rw e h
    | inl e ↦ rw e (elim (Option-cases (parse_zone value)) [
      | inl bad ↦ rw bad h
      | inr (z, good) ↦ rw good (elim (Bool-cases (fits snapshot z)) [
        | inr out ↦ rw out h
        | inl fit ↦ rw fit (insert-All Entry value z m (good, p ((eq_iff _ _).0 e), fit) h)
      ])
    ])
  ]

  requisite_segments-Entry :
      (t : Segments) (m : Table Zone)
      → All (λ (s : String × String). s.0 ≡ zone_topology_key → P s.1) t
      → All Entry m
      → All Entry (requisite_segments parse_zone snapshot t m)
  unfolding requisite_segments
  requisite_segments-Entry [] m p h = h
  requisite_segments-Entry (s ∷ t) m (p, ps) h =
      requisite_segments-Entry t _ ps (requisite_segment-Entry s m p h)

  pub requisites-Entry :
      (ts : List Segments) (m : Table Zone)
      → AllNamed P ts
      → All Entry m
      → All Entry (requisites parse_zone snapshot ts m)
  unfolding requisites
  requisites-Entry [] m p h = h
  requisites-Entry (t ∷ ts) m (p, ps) h =
      requisites-Entry ts _ ps (requisite_segments-Entry t m p h)

  pub record IsSound (c : Choice) : Type 0 where
    pub entries : All Entry c.requested
    pub offered : All Offered c.preferred

  prefer-IsSound :
      (given : Bool) (v : String) (z : Zone) (c : Choice) {c' : Choice}
      → parse_zone v ≡ some z
      → fits snapshot z ≡ true
      → (given ≡ false → P v)
      → IsSound c
      → prefer parse_zone snapshot given v z c ≡ ok c'
      → IsSound c'
  unfolding prefer
  prefer-IsSound true v z c good fit p h e = elim (Option-cases (lookup v c.requested)) [
    | inl missing ↦ cc (rw (missing, prefer) at e)
    | inr (z', found) ↦
        let (_, pv, _) = lookup-All Entry v c.requested h.entries found in
        subst IsSound (ok-injective (rw (found, prefer) at e)) (record {
          entries = erase-All Entry v c.requested h.entries;
          offered = All-append Offered c.preferred (z ∷ []) h.offered ((v, good, pv, fit), tt);
        })
  ]
  prefer-IsSound false v z c good fit p h e = subst IsSound (ok-injective e) (record {
    entries = h.entries;
    offered = All-append Offered c.preferred (z ∷ []) h.offered ((v, good, p refl, fit), tt);
  })

  preferred_segment-IsSound :
      (given : Bool) (s : String × String) (c : Choice) {c' : Choice}
      → (given ≡ false → s.0 ≡ zone_topology_key → P s.1)
      → IsSound c
      → preferred_segment parse_zone snapshot given s c ≡ ok c'
      → IsSound c'
  unfolding preferred_segment
  preferred_segment-IsSound given (key, v) c {c'} p h e =
      elim (Bool-cases (same_text key zone_topology_key)) [
        | inr no_key ↦ subst IsSound (ok-injective (rw no_key at e)) h
        | inl is_key ↦ elim (Option-cases (parse_zone v)) [
          | inl bad ↦ subst IsSound (ok-injective (rw (is_key, bad) at e)) h
          | inr (z, good) ↦ elim (Bool-cases (fits snapshot z)) [
            | inr out ↦ subst IsSound (ok-injective (rw (is_key, good, out) at e)) h
            | inl fit ↦ elim (Option-cases (lookup v c.preferred_map)) [
              | inr (_, seen) ↦ subst IsSound (ok-injective (rw (is_key, good, fit, seen) at e)) h
              | inl fresh ↦
                  prefer-IsSound given v z c good fit (λ g. p g ((eq_iff _ _).0 is_key)) h
                    (rw (is_key, good, fit, fresh) at e)
            ]
          ]
        ]
      ]

  preferred_segments-IsSound :
      (given : Bool) (t : Segments) (c : Choice) {c' : Choice}
      → All (λ (s : String × String). given ≡ false → s.0 ≡ zone_topology_key → P s.1) t
      → IsSound c
      → preferred_segments parse_zone snapshot given t c ≡ ok c'
      → IsSound c'
  unfolding preferred_segments
  preferred_segments-IsSound given [] c p h e = subst IsSound (ok-injective e) h
  preferred_segments-IsSound given (s ∷ t) c (p, ps) h e =
      let (c₁, first, rest) = then-eq-ok (preferred_segment parse_zone snapshot given s c) _ e in
      preferred_segments-IsSound given t c₁ ps (preferred_segment-IsSound given s c p h first) rest

  pub preferences-IsSound :
      (given : Bool) (ts : List Segments) (c : Choice) {c' : Choice}
      → All (All (λ (s : String × String). given ≡ false → s.0 ≡ zone_topology_key → P s.1)) ts
      → IsSound c
      → preferences parse_zone snapshot given ts c ≡ ok c'
      → IsSound c'
  unfolding preferences
  preferences-IsSound given [] c p h e = subst IsSound (ok-injective e) h
  preferences-IsSound given (t ∷ ts) c (p, ps) h e =
      let (c₁, first, rest) = then-eq-ok (preferred_segments parse_zone snapshot given t c) _ e in
      preferences-IsSound given ts c₁ ps (preferred_segments-IsSound given t c p h first) rest

  pub values-Offered : (m : Table Zone) → All Entry m → All Offered (values m)
  values-Offered [] h = tt
  values-Offered ((v, z) ∷ m) ((good, p, fit), h) = ((v, good, p, fit), values-Offered m h)
