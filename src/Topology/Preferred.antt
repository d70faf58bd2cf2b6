-- ===== src/Topology/Preferred.antt =====
-- One zone that `chooseZones` prefers, and what the loops over the preferred topologies keep.
use scaleway_csi.Base.{
  String, ◌≡◌, ◌⊎◌, inl, inr, refl, Bool, true, false, Option, some, List, [], ◌∷◌, ◌++◌, arith, ok,
  ok-injective, then-eq-ok, subst, Bool-cases, Option-cases,
}
use scaleway_csi.Base.Text.{same_text}
use scaleway_csi.Base.Table.{lookup, insert, erase}
use scaleway_csi.Csi.{Segments}
use scaleway_csi.Ids.{Zone}
use scaleway_csi.Topology.{
  zone_topology_key, fits, Choice, prefer, preferred_segment, preferred_segments, preferences,
}

-- What a zone that is preferred changes.
pub record Preferred (v : String) (z : Zone) (c c' : Choice) : Type 0 where
  pub joined : c'.preferred ≡ c.preferred ++ z ∷ []
  pub noted : c'.preferred_map ≡ insert v z c.preferred_map
  pub left : (c'.requested ≡ c.requested) ⊎ (c'.requested ≡ erase v c.requested)

module _ (parse_zone : String → Option Zone) (snapshot : Zone) where
  pub prefer-Preferred :
      (given : Bool) (v : String) (z : Zone) (c : Choice) {c' : Choice}
      → prefer parse_zone snapshot given v z c ≡ ok c'
      → Preferred v z c c'
  unfolding prefer
  prefer-Preferred false v z c e =
      subst (Preferred v z c) (ok-injective e)
        (record { joined = refl; noted = refl; left = inl refl })
  prefer-Preferred true v z c {c'} e = elim (Option-cases (lookup v c.requested)) [
    | inl missing ↦ absurd (ground arith)
    | inr (x, found) ↦ record {
      joined = ground arith;
      noted = ground arith;
      left = inr (ground arith);
    }
  ]

  -- One entry changes nothing, or its zone is preferred.
  preferred_segment-eq-ok :
      (given : Bool) (key value : String) (c : Choice) {c' : Choice}
      → preferred_segment parse_zone snapshot given (key, value) c ≡ ok c'
      → (c ≡ c') ⊎ ((z : Zone) × (parse_zone value ≡ some z) × Preferred value z c c')
  unfolding preferred_segment
  preferred_segment-eq-ok given key value c {c'} e =
      elim (Bool-cases (same_text key zone_topology_key)) [
        | inr no_key ↦ inl (ok-injective (rw no_key at e))
        | inl is_key ↦ elim (Option-cases (parse_zone value)) [
          | inl bad ↦ inl (ok-injective (rw (is_key, bad) at e))
          | inr (z, good) ↦ elim (Bool-cases (fits snapshot z)) [
            | inr out ↦ inl (ok-injective (rw (is_key, good, out) at e))
            | inl fit ↦ elim (Option-cases (lookup value c.preferred_map)) [
              | inr (_, seen) ↦ inl (ok-injective (rw (is_key, good, fit, seen) at e))
              | inl fresh ↦
                  inr
                    (z, good, prefer-Preferred given value z c (rw (is_key, good, fit, fresh) at e))
            ]
          ]
        ]
      ]

  -- What each zone that is preferred keeps, the loops keep.
  module _ (Q : Choice → Type 0)
      (keeps : (value : String) (z : Zone) (c c' : Choice)
        → parse_zone value ≡ some z
        → Preferred value z c c'
        → Q c
        → Q c') where
    pub preferred_segment-keeps :
        (given : Bool) (s : String × String) (c : Choice) {c' : Choice}
        → preferred_segment parse_zone snapshot given s c ≡ ok c'
        → Q c
        → Q c'
    preferred_segment-keeps given (key, value) c e q =
        elim (preferred_segment-eq-ok given key value c e) [
          | inl same ↦ subst Q same q
          | inr (z, good, p) ↦ keeps value z c _ good p q
        ]

    pub preferred_segments-keeps :
        (given : Bool) (t : Segments) (c : Choice) {c' : Choice}
        → preferred_segments parse_zone snapshot given t c ≡ ok c'
        → Q c
        → Q c'
    unfolding preferred_segments
    preferred_segments-keeps given [] c e q = subst Q (ok-injective e) q
    preferred_segments-keeps given (s ∷ t) c e q =
        let (c1, one, rest) =
          then-eq-ok (preferred_segment parse_zone snapshot given s c)
            (preferred_segments parse_zone snapshot given t) e in
        preferred_segments-keeps given t c1 rest (preferred_segment-keeps given s c one q)

    pub preferences-keeps :
        (given : Bool) (ts : List Segments) (c : Choice) {c' : Choice}
        → preferences parse_zone snapshot given ts c ≡ ok c'
        → Q c
        → Q c'
    unfolding preferences
    preferences-keeps given [] c e q = subst Q (ok-injective e) q
    preferences-keeps given (t ∷ ts) c e q =
        let (c1, one, rest) =
          then-eq-ok (preferred_segments parse_zone snapshot given t c)
            (preferences parse_zone snapshot given ts) e in
        preferences-keeps given ts c1 rest (preferred_segments-keeps given t c one q)
