-- ===== src/Tests/Pure.antt =====
-- The helpers on concrete arguments.
use mathlib.Core.List.Permᴰ
use scaleway_csi.Base.{
  ℕ, String, ◌≡◌, refl, ◌≤◌, ◌≢◌, ◌↔◌, ◌⊎◌, none, some, List, [], ◌∷◌, arith, ok, err, All, panic,
}
use scaleway_csi.Base.Int.{pos, ◌≤ℤ◌, ◌<ℤ◌}
use scaleway_csi.Base.Table.{lookup, insert, erase}
use scaleway_csi.Csi.{CapacityRange}
use scaleway_csi.Ids.{Zone, extract_id_and_zone, expand_id}
use scaleway_csi.Ids.Format.{extract_id_and_zone-expand_id, extract_id_and_zone-ok_iff, occurrences}
use scaleway_csi.Capability.{validate_volume_capabilities}
use scaleway_csi.Capability.Supported.{validate_volume_capabilities_iff, Passes}
use scaleway_csi.Capacity.{get_volume_request_capacity}
use scaleway_csi.Capacity.Bounds.{
  Meets, get_volume_request_capacity-Meets, get_volume_request_capacity_required_iff,
}
use scaleway_csi.Topology.{choose_zones}
use scaleway_csi.Topology.Loops.{Offered}
use mathlib.Core.List.{Memᴰ}
use scaleway_csi.Topology.Complete.{choose_zones-all}
use scaleway_csi.Topology.{zone_topology_key}
use scaleway_csi.Ids.{Zone}
use scaleway_csi.Controller.Create.{check_request}
use scaleway_csi.Controller.Create.Order.{check_request_order}
use scaleway_csi.Tests.Data.{new_data}
use scaleway_csi.Topology.Sound.{Names, wanted, choose_zones-Offered}
use scaleway_csi.Controller.Paging.{page}
use scaleway_csi.Controller.Paging.Walk.{walk, walk_all, page_behind}
use scaleway_csi.Tests.Memory.{parse_zone}
use scaleway_csi.Base.{true}
use scaleway_csi.Base.Text.{lowered_is, parse_bool}
use scaleway_csi.Capability.{validate_volume_capabilities}
use scaleway_csi.Tests.Data.{mounted, two_zones}

abbrev two_slashes : String
two_slashes = "fr-par-1/a/b"

abbrev three : List ℕ
three = 1 ∷ 2 ∷ 3 ∷ []

extract_id_and_zone-expand_id_example :
    extract_id_and_zone parse_zone (expand_id "fr-par-2" "1234") "volumeID"
    ≡ ok ("1234", "fr-par-2")
extract_id_and_zone-expand_id_example =
    extract_id_and_zone-expand_id parse_zone "volumeID" "fr-par-2" "1234" (ground arith)
      (ground arith)

extract_id_and_zone-ok_iff_example :
    ((r : String × Zone) × (extract_id_and_zone parse_zone two_slashes "volumeID" ≡ ok r))
    ↔ ((two_slashes ≢ "") × (occurrences b'/' two_slashes ≤ 1))
extract_id_and_zone-ok_iff_example = extract_id_and_zone-ok_iff parse_zone "volumeID" two_slashes

validate_volume_capabilities_iff_example :
    (validate_volume_capabilities (some (some mounted ∷ none ∷ [])) ≡ ok tt)
    ↔ Passes (some (some mounted ∷ none ∷ []))
validate_volume_capabilities_iff_example =
    validate_volume_capabilities_iff (some (some mounted ∷ none ∷ []))

abbrev at_most : ℕ → ℕ → CapacityRange
at_most required limit = record { required_bytes = pos required; limit_bytes = pos limit }

get_volume_request_capacity-Meets_example :
    Meets (pos 10) (pos 100) (at_most 20 50) (pos 20) × (pos 20 ≤ℤ pos 100)
unfolding get_volume_request_capacity
get_volume_request_capacity-Meets_example =
    get_volume_request_capacity-Meets (pos 10) (pos 100) (at_most 20 50) (omega arith) refl

get_volume_request_capacity_required_iff_example :
    (get_volume_request_capacity (pos 10) (pos 100) (some (at_most 20 0)) ≡ ok (pos 20)) ↔ (
      (pos 20 ≡ pos 20)
      × (pos 20 ≤ℤ pos 100)
      × ((pos 0 ≤ℤ pos 0) × (pos 10 ≤ℤ pos 20)
          ⊎ (pos 0 <ℤ pos 0) × (pos 20 ≤ℤ pos 0) × (pos 10 ≤ℤ pos 0)))
get_volume_request_capacity_required_iff_example =
    get_volume_request_capacity_required_iff (pos 10) (pos 100) (at_most 20 0) (pos 20)
      (omega arith)

choose_zones-Offered_example :
    All (Offered parse_zone "" (Names (wanted two_zones))) ("fr-par-2" ∷ "fr-par-1" ∷ [])
unfolding choose_zones lookup insert erase
choose_zones-Offered_example = choose_zones-Offered parse_zone (λ m. m) "" Permᴰ.refl two_zones refl

-- The first zone of the requirement is chosen, after the second, which is preferred.
choose_zones-all_example : Memᴰ {A = Zone} "fr-par-1" ("fr-par-2" ∷ "fr-par-1" ∷ [])
unfolding choose_zones lookup insert erase
choose_zones-all_example =
    choose_zones-all parse_zone (λ m. m) "" Permᴰ.refl two_zones "fr-par-1" refl
      (
        "fr-par-1",
        refl,
        ((zone_topology_key, "fr-par-1") ∷ [], Memᴰ.head refl, Memᴰ.head refl),
        refl,
      )

walk_all_example : walk three 2 4 "" ≡ ok three
walk_all_example = walk_all three 2 (omega arith) (omega arith)

page_behind_example : page (pos 5) (pos 2) three ≡ err (panic "slice bounds out of range")
page_behind_example = page_behind three 5 2 (omega arith) (omega arith) (omega arith)

-- The type is read before the encryption, or after it.
check_request_order_example :
    check_request (record new_data { parameters = ("encrypted", "true") ∷ ("Type", "b_ssd") ∷ [] })
    ≡ ok (record { volume_type = "b_ssd"; encrypted = true })
unfolding check_request lowered_is validate_volume_capabilities parse_bool
check_request_order_example =
    check_request_order new_data (("encrypted", "true") ∷ ("Type", "b_ssd") ∷ [])
      (Permᴰ.swap refl refl) (omega arith) (omega arith) refl
