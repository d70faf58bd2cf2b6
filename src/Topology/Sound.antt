-- ===== src/Topology/Sound.antt =====
-- Where the zones that `chooseZones` returns come from.
use text.Mathlib.TextEquality.{eq_iff}
use mathlib.Core.List.{Permᴰ, Memᴰ}
use scaleway_csi.Base.{
  String, ◌≡◌, ◌≢◌, ◌⊎◌, inl, inr, false, Option, none, some, List, [], ◌∷◌, ◌++◌, length, arith,
  All, All-append, All-weaken, All-of_mem, ok, then-eq-ok, subst,
}
use scaleway_csi.Base.Table.{Table, Permᴰ-All}
use scaleway_csi.Csi.{Segments, TopologyRequirement}
use scaleway_csi.Ids.{Zone}
use scaleway_csi.Topology.{
  zone_topology_key, Choice, requisites, preferences, given_requisite, requisite_list, values,
  begin_choice, finish_choice, choose_zones,
}
use scaleway_csi.Topology.Loops.{
  AllNamed, Offered, Entry, requisites-Entry, preferences-IsSound, values-Offered, IsSound,
}

-- The topologies that matter: the requisite ones if the requirement has any, or else the
-- preferred ones.
abbrev wanted_of : Option (List Segments) → List Segments → List Segments
wanted_of none preferred = preferred
wanted_of (some ts) preferred = ts

abbrev pub wanted : TopologyRequirement → List Segments
wanted r = wanted_of r.requisite r.preferred

-- One of the topologies has the zone value.
abbrev pub Names : List Segments → String → Type 0
Names ts v = (t : Segments) × Memᴰ t ts × Memᴰ (zone_topology_key, v) t

AllNamed-Names : (ts : List Segments) → AllNamed (Names ts) ts
AllNamed-Names ts =
    All-of_mem ts
      λ t in_ts. All-of_mem t λ s in_t key. (t, in_ts, subst (λ s'. Memᴰ s' t) (pair key) in_t)
  where
    pair : {s : String × String} → s.0 ≡ zone_topology_key → s ≡ (zone_topology_key, s.1)
    pair {s} e = λ i. (e i, s.1)

-- The preferred topologies matter only where there are no requisite ones.
preferred_named :
    (requisite : Option (List Segments)) (preferred : List Segments)
    → All
        (All (λ (s : String × String).
          given_requisite requisite ≡ false
          → s.0 ≡ zone_topology_key
          → Names (wanted_of requisite preferred) s.1))
        preferred
preferred_named none preferred =
    All-weaken (λ t. All-weaken (λ s p _. p) t) preferred (AllNamed-Names preferred)
preferred_named (some ts) preferred = All-of_mem preferred λ t _. All-of_mem t λ s _ e. cc

start-IsSound :
    (parse_zone : String → Option Zone) (snapshot : Zone) (requisite : Option (List Segments))
    (preferred : List Segments)
    → IsSound parse_zone snapshot (Names (wanted_of requisite preferred)) (record {
      requested = requisites parse_zone snapshot (requisite_list requisite) [];
      preferred_map = [];
      preferred = [];
    })
unfolding requisites
start-IsSound parse_zone snapshot none preferred = record { entries = tt; offered = tt }
start-IsSound parse_zone snapshot (some ts) preferred = record {
  entries = requisites-Entry parse_zone snapshot (Names ts) ts [] (AllNamed-Names ts) tt;
  offered = tt;
}

pub finish_choice-eq-ok :
    (parse_zone : String → Option Zone) (order : Table Zone → Table Zone) (snapshot : Zone)
    (c : Choice) {zones : List Zone}
    → finish_choice parse_zone order snapshot c ≡ ok zones
    → (c.preferred ++ values (order c.requested) ≡ zones) × ((snapshot ≡ "") ⊎ (length zones ≡ 1))
unfolding finish_choice
finish_choice-eq-ok parse_zone order snapshot c {zones} e = ground (arith, eq_iff snapshot "")

pub choose_zones-eq-ok :
    (parse_zone : String → Option Zone) (order : Table Zone → Table Zone) (snapshot : Zone)
    (r : TopologyRequirement) {zones : List Zone}
    → choose_zones parse_zone order (some r) snapshot ≡ ok zones
    → (c : Choice) × (preferences parse_zone snapshot
          (given_requisite r.requisite)
          r.preferred
          (begin_choice parse_zone snapshot r)
        ≡ ok c)
      × (finish_choice parse_zone order snapshot c ≡ ok zones)
unfolding choose_zones
choose_zones-eq-ok parse_zone order snapshot r e =
    then-eq-ok
      (preferences parse_zone snapshot (given_requisite r.requisite) r.preferred
        (begin_choice parse_zone snapshot r))
      (finish_choice parse_zone order snapshot) e

module _ (parse_zone : String → Option Zone) (order : Table Zone → Table Zone) (snapshot : Zone)
    (order-Permᴰ : (m : Table Zone) → Permᴰ (order m) m) where
  finish_choice-Offered :
      (P : String → Type 0) (c : Choice) {zones : List Zone}
      → IsSound parse_zone snapshot P c
      → finish_choice parse_zone order snapshot c ≡ ok zones
      → All (Offered parse_zone snapshot P) zones
  finish_choice-Offered P c h e =
      subst (All (Offered parse_zone snapshot P))
        ((finish_choice-eq-ok parse_zone order snapshot c e).0)
        (All-append (Offered parse_zone snapshot P) c.preferred _ h.offered (
          values-Offered parse_zone snapshot P (order c.requested)
            (Permᴰ-All (Entry parse_zone snapshot P) (order-Permᴰ c.requested) h.entries)))

  -- For an order of visits that permutes the map of the zones, every zone that is chosen is one
  -- that the SDK reads from a zone value of the requisite topologies (of the preferred ones, if
  -- the requirement has no requisite), and it is the snapshot's zone if there is one.
  pub choose_zones-Offered :
      (r : TopologyRequirement) {zones : List Zone}
      → choose_zones parse_zone order (some r) snapshot ≡ ok zones
      → All (Offered parse_zone snapshot (Names (wanted r))) zones
  choose_zones-Offered r e =
      let (c, loops, finish) = choose_zones-eq-ok parse_zone order snapshot r e in
      finish_choice-Offered (Names (wanted r)) c
        (preferences-IsSound parse_zone snapshot (Names (wanted r)) (given_requisite r.requisite)
          r.preferred (begin_choice parse_zone snapshot r) (preferred_named r.requisite r.preferred)
          (start-IsSound parse_zone snapshot r.requisite r.preferred) loops)
        finish

  singleton_of_fits :
      (P : String → Type 0) (zones : List Zone)
      → snapshot ≢ ""
      → length zones ≡ 1
      → All (Offered parse_zone snapshot P) zones
      → zones ≡ snapshot ∷ []
  singleton_of_fits P [] ne l h = absurd (omega arith)
  singleton_of_fits P (z ∷ []) ne l ((v, _, _, fit), _) =
      ground (arith, eq_iff snapshot "", eq_iff snapshot z)
  singleton_of_fits P (x ∷ y ∷ zs) ne l h = absurd (omega arith)

  -- With the zone of a snapshot that is not empty, whatever the requirement and the order in which
  -- the map of the zones is visited, a choice that succeeds is the snapshot's zone alone.
  pub choose_zones_of_snapshot :
      (r : Option TopologyRequirement) {zones : List Zone}
      → snapshot ≢ ""
      → choose_zones parse_zone order r snapshot ≡ ok zones
      → zones ≡ snapshot ∷ []
  unfolding choose_zones
  choose_zones_of_snapshot none ne e = ground (arith, eq_iff snapshot "")
  choose_zones_of_snapshot (some r) {zones} ne e =
      let (c, loops, finish) = choose_zones-eq-ok parse_zone order snapshot r e in
      let (_, single) = finish_choice-eq-ok parse_zone order snapshot c finish in
      elim single [
        | inl empty ↦ absurd (ne empty)
        | inr one ↦ singleton_of_fits (Names (wanted r)) zones ne one (choose_zones-Offered r e)
      ]
