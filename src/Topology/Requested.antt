-- ===== src/Topology/Requested.antt =====
-- The requisite topologies that name a zone request it.
use mathlib.Core.List.{Memᴰ}
use scaleway_csi.Base.{
  String, ◌≡◌, inl, inr, true, Option, some, List, [], ◌∷◌, subst, Bool-cases, Option-cases,
}
use scaleway_csi.Base.Text.{same_text}
use scaleway_csi.Base.Table.{Table, insert-new, insert-keeps}
use scaleway_csi.Csi.{Segments}
use scaleway_csi.Ids.{Zone}
use scaleway_csi.Topology.{
  zone_topology_key, fits, requisite_segment, requisite_segments, requisites,
}

-- A zone value that the SDK reads, and whose zone the snapshot allows.
module _ (parse_zone : String → Option Zone) (snapshot : Zone) (v : String) (z : Zone)
    (good : parse_zone v ≡ some z) (fit : fits snapshot z ≡ true) where
  pub same_zone : (value : String) (x : Zone) → parse_zone value ≡ some x → v ≡ value → z ≡ x
  same_zone value x reads same = cc

  -- Its entry is in a map.
  abbrev pub Requested : Table Zone → Type 0
  Requested = Memᴰ (v, z)

  requisite_segment-keeps :
      (s : String × String) (m : Table Zone)
      → Requested m
      → Requested (requisite_segment parse_zone snapshot s m)
  unfolding requisite_segment
  requisite_segment-keeps (key, value) m d = elim (Bool-cases (same_text key zone_topology_key)) [
    | inr e ↦ rw e d
    | inl e ↦ rw e (elim (Option-cases (parse_zone value)) [
      | inl bad ↦ rw bad d
      | inr (x, reads) ↦ rw reads (elim (Bool-cases (fits snapshot x)) [
        | inr out ↦ rw out d
        | inl within ↦ rw within (insert-keeps value x v z m (same_zone value x reads) d)
      ])
    ])
  ]

  requisite_segment-adds :
      (m : Table Zone) → Requested (requisite_segment parse_zone snapshot (zone_topology_key, v) m)
  unfolding requisite_segment
  requisite_segment-adds m = rw (good, fit) (insert-new v z m)

  requisite_segments-keeps :
      (t : Segments) (m : Table Zone)
      → Requested m
      → Requested (requisite_segments parse_zone snapshot t m)
  unfolding requisite_segments
  requisite_segments-keeps [] m d = d
  requisite_segments-keeps (s ∷ t) m d =
      requisite_segments-keeps t _ (requisite_segment-keeps s m d)

  requisite_segments-adds :
      (t : Segments) (m : Table Zone)
      → Memᴰ (zone_topology_key, v) t
      → Requested (requisite_segments parse_zone snapshot t m)
  unfolding requisite_segments
  requisite_segments-adds [] m d = elim d [ ]
  requisite_segments-adds (s ∷ t) m (Memᴰ.head e) = requisite_segments-keeps t _ (
      subst (λ x. Requested (requisite_segment parse_zone snapshot x m)) e
        (requisite_segment-adds m))
  requisite_segments-adds (s ∷ t) m (Memᴰ.tail d) = requisite_segments-adds t _ d

  requisites-keeps :
      (ts : List Segments) (m : Table Zone)
      → Requested m
      → Requested (requisites parse_zone snapshot ts m)
  unfolding requisites
  requisites-keeps [] m d = d
  requisites-keeps (t ∷ ts) m d = requisites-keeps ts _ (requisite_segments-keeps t m d)

  pub requisites-adds :
      (ts : List Segments) (m : Table Zone) (t : Segments)
      → Memᴰ t ts
      → Memᴰ (zone_topology_key, v) t
      → Requested (requisites parse_zone snapshot ts m)
  unfolding requisites
  requisites-adds [] m t in_ts in_t = elim in_ts [ ]
  requisites-adds (u ∷ ts) m t (Memᴰ.head e) in_t =
      requisites-keeps ts _
        (requisite_segments-adds u m (subst (Memᴰ (zone_topology_key, v)) e in_t))
  requisites-adds (u ∷ ts) m t (Memᴰ.tail d) in_t = requisites-adds ts _ t d in_t
