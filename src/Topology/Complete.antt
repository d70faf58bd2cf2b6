-- ===== src/Topology/Complete.antt =====
-- Every zone that is offered is chosen by `chooseZones`.
use text.Mathlib.TextEquality.{eq_iff}
use mathlib.Core.List.{Permᴰ, Memᴰ}
use mathlib.Core.List.Memᴰ
use scaleway_csi.Base.{
  String, ◌≡◌, ◌⊎◌, inl, inr, refl, ap, sym, ◌∙◌, Bool, true, false, Option, none, some, List, [],
  ◌∷◌, ◌++◌, arith, ok, ok-injective, then-eq-ok, subst, Bool-cases, Option-cases,
}
use scaleway_csi.Base.Text.{same_text}
use scaleway_csi.Base.Table.{Table, lookup, Permᴰ-Memᴰ, erase-keeps, lookup-insert_other}
use scaleway_csi.Csi.{Segments, TopologyRequirement}
use scaleway_csi.Ids.{Zone}
use scaleway_csi.Topology.{
  zone_topology_key, fits, Choice, preferred_segment, preferred_segments, preferences, values,
  given_requisite, begin_choice, choose_zones,
}
use scaleway_csi.Topology.Loops.{Offered}
use scaleway_csi.Topology.Preferred.{
  Preferred, prefer-Preferred, preferred_segment-keeps, preferred_segments-keeps, preferences-keeps,
}
use scaleway_csi.Topology.Requested.{Requested, same_zone, requisites-adds}
use scaleway_csi.Topology.Sound.{Names, wanted, choose_zones-eq-ok, finish_choice-eq-ok}

-- A zone value that the SDK reads, and whose zone the snapshot allows.
module _ (parse_zone : String → Option Zone) (snapshot : Zone) (v : String) (z : Zone)
    (good : parse_zone v ≡ some z) (fit : fits snapshot z ≡ true) where
  -- The zone is preferred already, or its entry is still there.
  abbrev Held : Choice → Type 0
  Held c = Memᴰ z c.preferred ⊎ Requested parse_zone snapshot v z good fit c.requested

  -- A value that was noted has its zone among the preferred ones.
  abbrev Noted : Choice → Type 0
  Noted c = (lookup v c.preferred_map ≡ none) ⊎ Memᴰ z c.preferred

  abbrev Kept : Choice → Type 0
  Kept c = Memᴰ z c.preferred

  Kept-Preferred :
      (value : String) (x : Zone) (c c' : Choice)
      → parse_zone value ≡ some x
      → Preferred value x c c'
      → Kept c
      → Kept c'
  Kept-Preferred value x c c' reads p d =
      subst (Memᴰ z) (sym p.joined) (Memᴰ.append_left (x ∷ []) d)

  -- The zone itself is preferred.
  Kept-same :
      (value : String) (x : Zone) (c c' : Choice)
      → parse_zone value ≡ some x
      → Preferred value x c c'
      → v ≡ value
      → Kept c'
  Kept-same value x c c' reads p same = subst (Memᴰ z) (sym p.joined) (
      Memᴰ.append_right c.preferred
        (Memᴰ.head (same_zone parse_zone snapshot v z good fit value x reads same)))

  Held-Preferred :
      (value : String) (x : Zone) (c c' : Choice)
      → parse_zone value ≡ some x
      → Preferred value x c c'
      → Held c
      → Held c'
  Held-Preferred value x c c' reads p (inl d) = inl (Kept-Preferred value x c c' reads p d)
  Held-Preferred value x c c' reads p (inr d) = elim (Bool-cases (same_text v value)) [
    | inl same ↦ inl (Kept-same value x c c' reads p ((eq_iff v value).0 same))
    | inr other ↦ inr (elim (p.left) [
      | inl e ↦ subst (Requested parse_zone snapshot v z good fit) (sym e) d
      | inr e ↦
          subst (Requested parse_zone snapshot v z good fit) (sym e)
            (erase-keeps value v z c.requested (λ q. ground (arith, eq_iff v value)) d)
    ])
  ]

  Noted-Preferred :
      (value : String) (x : Zone) (c c' : Choice)
      → parse_zone value ≡ some x
      → Preferred value x c c'
      → Noted c
      → Noted c'
  Noted-Preferred value x c c' reads p (inr d) = inr (Kept-Preferred value x c c' reads p d)
  Noted-Preferred value x c c' reads p (inl fresh) = elim (Bool-cases (same_text v value)) [
    | inl same ↦ inr (Kept-same value x c c' reads p ((eq_iff v value).0 same))
    | inr other ↦ inl (
        ap (lookup v) p.noted
        ∙ lookup-insert_other value x v c.preferred_map (λ q. ground (arith, eq_iff v value))
        ∙ fresh)
  ]

  preferred_segment-adds :
      (given : Bool) (c : Choice) {c' : Choice}
      → preferred_segment parse_zone snapshot given (zone_topology_key, v) c ≡ ok c'
      → Noted c
      → Kept c'
  unfolding preferred_segment
  preferred_segment-adds given c e noted = elim (Option-cases (lookup v c.preferred_map)) [
    | inl fresh ↦
        Kept-same v z c _ good
          (prefer-Preferred parse_zone snapshot given v z c (rw (good, fit, fresh) at e)) refl
    | inr (x, seen) ↦ elim noted [
      | inl fresh ↦ absurd (ground arith)
      | inr d ↦ subst Kept (ok-injective (rw (good, fit, seen) at e)) d
    ]
  ]

  preferred_segments-adds :
      (given : Bool) (t : Segments) (c : Choice) {c' : Choice}
      → Memᴰ (zone_topology_key, v) t
      → preferred_segments parse_zone snapshot given t c ≡ ok c'
      → Noted c
      → Kept c'
  unfolding preferred_segments
  preferred_segments-adds given [] c d e noted = elim d [ ]
  preferred_segments-adds given (s ∷ t) c {c'} d e noted =
      let (c1, one, rest) =
        then-eq-ok (preferred_segment parse_zone snapshot given s c)
          (preferred_segments parse_zone snapshot given t) e in
      elim (Memᴰ.cases_cons d) [
        | inl same ↦
            preferred_segments-keeps parse_zone snapshot Kept Kept-Preferred given t c1 rest (
              preferred_segment-adds given c
                (subst (λ x. preferred_segment parse_zone snapshot given x c ≡ ok c1) (sym same)
                  one)
                noted)
        | inr later ↦
            preferred_segments-adds given t c1 later rest (
              preferred_segment-keeps parse_zone snapshot Noted Noted-Preferred given s c one noted)
      ]

  preferences-adds :
      (given : Bool) (ts : List Segments) (c : Choice) (t : Segments) {c' : Choice}
      → Memᴰ t ts
      → Memᴰ (zone_topology_key, v) t
      → preferences parse_zone snapshot given ts c ≡ ok c'
      → Noted c
      → Kept c'
  unfolding preferences
  preferences-adds given [] c t in_ts in_t e noted = elim in_ts [ ]
  preferences-adds given (u ∷ ts) c t in_ts in_t e noted =
      let (c1, one, rest) =
        then-eq-ok (preferred_segments parse_zone snapshot given u c)
          (preferences parse_zone snapshot given ts) e in
      elim (Memᴰ.cases_cons in_ts) [
        | inl same ↦ preferences-keeps parse_zone snapshot Kept Kept-Preferred given ts c1 rest (
            preferred_segments-adds given u c (subst (Memᴰ (zone_topology_key, v)) same in_t) one
              noted)
        | inr later ↦
            preferences-adds given ts c1 t later in_t rest (
              preferred_segments-keeps parse_zone snapshot Noted Noted-Preferred given u c one
                noted)
      ]

  -- After the loops, a zone that is named in the topologies that matter is preferred or requested.
  preferences-Held :
      (requisite : Option (List Segments)) (preferred : List Segments) {c : Choice}
      → Names (wanted (record { requisite = requisite; preferred = preferred })) v
      → preferences parse_zone snapshot (given_requisite requisite) preferred (
          begin_choice parse_zone snapshot
            (record { requisite = requisite; preferred = preferred }))
        ≡ ok c
      → Held c
  unfolding lookup
  preferences-Held none preferred (t, in_ts, in_t) e =
      inl (preferences-adds false preferred _ t in_ts in_t e (inl refl))
  preferences-Held (some ts) preferred (t, in_ts, in_t) e =
      preferences-keeps parse_zone snapshot Held Held-Preferred true preferred _ e
        (inr (requisites-adds parse_zone snapshot v z good fit ts [] t in_ts in_t))

module _ (parse_zone : String → Option Zone) (order : Table Zone → Table Zone) (snapshot : Zone)
    (order-Permᴰ : (m : Table Zone) → Permᴰ (order m) m) where
  Held-Memᴰ :
      (v : String) (z : Zone) (good : parse_zone v ≡ some z) (fit : fits snapshot z ≡ true)
      (c : Choice)
      → Held parse_zone snapshot v z good fit c
      → Memᴰ z (c.preferred ++ values (order c.requested))
  Held-Memᴰ v z good fit c (inl d) = Memᴰ.append_left (values (order c.requested)) d
  Held-Memᴰ v z good fit c (inr d) =
      Memᴰ.append_right c.preferred
        (Memᴰ.map (λ (e : String × Zone). e.1) (Permᴰ-Memᴰ (order-Permᴰ c.requested) d))

  -- For an order of visits that permutes the map of the zones, a choice that succeeds has every
  -- zone that the SDK reads from a zone value of the requisite topologies (of the preferred ones,
  -- if the requirement has no requisite) and that is the snapshot's if there is one.
  pub choose_zones-all :
      (r : TopologyRequirement) (z : Zone) {zones : List Zone}
      → choose_zones parse_zone order (some r) snapshot ≡ ok zones
      → Offered parse_zone snapshot (Names (wanted r)) z
      → Memᴰ z zones
  choose_zones-all r z e (v, good, named, fit) =
      let (c, loops, finish) = choose_zones-eq-ok parse_zone order snapshot r e in
      subst (Memᴰ z) ((finish_choice-eq-ok parse_zone order snapshot c finish).0) (
        Held-Memᴰ v z good fit c
          (preferences-Held parse_zone snapshot v z good fit r.requisite r.preferred named loops))
