-- ===== src/Topology.antt =====
-- driver/helpers.go: `chooseZones` and `newAccessibleTopology`.
pub mod Loops
pub mod Sound
pub mod Preferred
pub mod Requested
pub mod Complete
use scaleway_csi.Base.{
  String, ◌<>◌, Bool, true, false, ◌&&◌, ◌||◌, not, Option, none, some, List, [], ◌∷◌, ◌++◌, map,
  length, ◌==◌, if◌then◌else◌, Result, ok, err, Failure, status, invalid_argument,
  resource_exhausted,
}
use scaleway_csi.Base.Text.{same_text}
use scaleway_csi.Base.Table.{Table, lookup, insert, erase}
use scaleway_csi.Csi.{Segments, TopologyRequirement}
use scaleway_csi.Ids.{Zone}

-- `ZoneTopologyKey` of driver/driver.go
abbrev pub zone_topology_key : String
zone_topology_key = "topology.csi.scaleway.com/zone"

-- `snapshotZone == scw.Zone("") || snapshotZone == zone`
abbrev fits : Zone → Zone → Bool
fits snapshot zone = same_text snapshot "" || same_text snapshot zone

-- The variables of the loop over the preferred topologies.
pub record Choice : Type 0 where
  pub requested : Table Zone
  pub preferred_map : Table Zone
  pub preferred : List Zone

module _ (parse_zone : String → Option Zone) (snapshot : Zone) where
  -- One entry of a requisite topology.
  requisite_segment : String × String → Table Zone → Table Zone
  requisite_segment (key, value) requested =
      if same_text key zone_topology_key
      then elim (parse_zone value) [
        | none ↦ requested
        | some z ↦ if fits snapshot z then insert value z requested else requested
      ]
      else requested

  requisite_segments : Segments → Table Zone → Table Zone
  requisite_segments [] requested = requested
  requisite_segments (s ∷ ss) requested = requisite_segments ss (requisite_segment s requested)

  pub requisites : List Segments → Table Zone → Table Zone
  requisites [] requested = requested
  requisites (t ∷ ts) requested = requisites ts (requisite_segments t requested)

  -- A zone that is preferred for the first time. `given` is `GetRequisite() != nil`.
  unfoldable pub prefer : Bool → String → Zone → Choice → Result Failure Choice
  prefer true value z c = elim (lookup value c.requested) [
    | none ↦ err (
        status invalid_argument (
          zone_topology_key
          <> (": " <> (value <> " is specified in preferred but not in requisite"))))
    | some _ ↦ ok (record {
      requested = erase value c.requested;
      preferred_map = insert value z c.preferred_map;
      preferred = c.preferred ++ z ∷ [];
    })
  ]
  prefer false value z c = ok (record c {
    preferred_map = insert value z c.preferred_map;
    preferred = c.preferred ++ z ∷ [];
  })

  -- One entry of a preferred topology.
  unfoldable pub preferred_segment : Bool → String × String → Choice → Result Failure Choice
  preferred_segment given (key, value) c =
      if same_text key zone_topology_key
      then elim (parse_zone value) [
        | none ↦ ok c
        | some z ↦
            if fits snapshot z
            then elim (lookup value c.preferred_map) [
              | none ↦ prefer given value z c
              | some _ ↦ ok c
            ]
            else ok c
      ]
      else ok c

  unfoldable pub preferred_segments : Bool → Segments → Choice → Result Failure Choice
  preferred_segments given [] c = ok c
  preferred_segments given (s ∷ ss) c = elim (preferred_segment given s c) [
    | ok c' ↦ preferred_segments given ss c'
    | err f ↦ err f
  ]

  unfoldable pub preferences : Bool → List Segments → Choice → Result Failure Choice
  preferences given [] c = ok c
  preferences given (t ∷ ts) c = elim (preferred_segments given t c) [
    | ok c' ↦ preferences given ts c'
    | err f ↦ err f
  ]

abbrev pub given_requisite : Option (List Segments) → Bool
given_requisite none = false
given_requisite (some ts) = true

abbrev requisite_list : Option (List Segments) → List Segments
requisite_list none = []
requisite_list (some ts) = ts

abbrev values : Table Zone → List Zone
values = map (λ (e : String × Zone). e.1)

-- The variables before the loop over the preferred topologies.
abbrev pub begin_choice : (String → Option Zone) → Zone → TopologyRequirement → Choice
begin_choice parse_zone snapshot r = record {
  requested = requisites parse_zone snapshot (requisite_list r.requisite) [];
  preferred_map = [];
  preferred = [];
}

-- `order` is the order in which a `range` visits the map of the requested zones.
module _ (parse_zone : String → Option Zone) (order : Table Zone → Table Zone) where
  -- What follows the loops.
  unfoldable pub finish_choice : Zone → Choice → Result Failure (List Zone)
  finish_choice snapshot c =
      let zones = c.preferred ++ values (order c.requested) in
      if not (same_text snapshot "") && not (length zones == 1)
      then err (
          status resource_exhausted
            "desired volume content source and desired topology are not compatible, different zones")
      else ok zones

  unfoldable pub choose_zones : Option TopologyRequirement → Zone → Result Failure (List Zone)
  unfolding finish_choice requisites requisite_segments requisite_segment preferences
      preferred_segments preferred_segment prefer
  choose_zones none snapshot = if not (same_text snapshot "") then ok (snapshot ∷ []) else ok []
  choose_zones (some r) snapshot =
      elim (preferences parse_zone snapshot (given_requisite r.requisite) r.preferred
        (begin_choice parse_zone snapshot r)) [ ok c ↦ finish_choice snapshot c | err f ↦ err f ]

abbrev pub new_accessible_topology : Zone → List Segments
new_accessible_topology zone = ((zone_topology_key, zone) ∷ []) ∷ []
