-- ===== src/Capacity/Bounds.antt =====
-- Which size `getVolumeRequestCapacity` grants.
use scaleway_csi.Base.{◌≡◌, ◌↔◌, ◌⊎◌, some, arith, ok}
use scaleway_csi.Base.Int.{ℤ, pos, ◌≤ℤ◌, ◌<ℤ◌}
use scaleway_csi.Csi.{CapacityRange}
use scaleway_csi.Capacity.{get_volume_request_capacity}

module _ (lo hi : ℤ) where
  -- What a range asks of a size: a bound that is not positive is not set.
  abbrev pub Meets : CapacityRange → ℤ → Type 0
  Meets r size =
      (pos 0 <ℤ r.required_bytes → r.required_bytes ≤ℤ size)
      × (pos 0 <ℤ r.limit_bytes → size ≤ℤ r.limit_bytes)

  -- Where the minimum of the volume type is at most its maximum, a size that is granted for a
  -- range meets the bounds that are set, and it is not over the maximum.
  pub get_volume_request_capacity-Meets :
      (r : CapacityRange) {size : ℤ}
      → lo ≤ℤ hi
      → get_volume_request_capacity lo hi (some r) ≡ ok size
      → Meets r size × (size ≤ℤ hi)
  unfolding get_volume_request_capacity
  get_volume_request_capacity-Meets r h e = ground arith

  -- Where the minimum of the volume type is at most its maximum, a size that is granted for a
  -- range is at least the minimum, or the range has both bounds, its required size is positive and
  -- lies under the minimum, and its limit does not.
  pub get_volume_request_capacity_floor :
      (r : CapacityRange) {size : ℤ}
      → lo ≤ℤ hi
      → get_volume_request_capacity lo hi (some r) ≡ ok size
      → (lo ≤ℤ size)
        ⊎ ((pos 0 <ℤ r.required_bytes) × (r.required_bytes <ℤ lo) × (lo ≤ℤ r.limit_bytes))
  unfolding get_volume_request_capacity
  get_volume_request_capacity_floor r h e = ground arith

  -- With a required size, the request is granted just if that size is at most the maximum and
  -- either no limit is set and it is at least the minimum, or the limit is at least both; what is
  -- granted is the required size.
  pub get_volume_request_capacity_required_iff :
      (r : CapacityRange) (size : ℤ)
      → pos 0 <ℤ r.required_bytes
      → (get_volume_request_capacity lo hi (some r) ≡ ok size) ↔ (
          (r.required_bytes ≡ size)
          × (r.required_bytes ≤ℤ hi)
          × ((r.limit_bytes ≤ℤ pos 0) × (lo ≤ℤ r.required_bytes)
              ⊎ (pos 0 <ℤ r.limit_bytes)
                × (r.required_bytes ≤ℤ r.limit_bytes)
                × (lo ≤ℤ r.limit_bytes)))
  unfolding get_volume_request_capacity
  get_volume_request_capacity_required_iff r size h = ground arith

  -- Where the minimum of the volume type is at most its maximum, a range with both bounds whose
  -- required size is positive and under the minimum, and whose limit is not under it, is granted a
  -- size under the minimum.
  pub get_volume_request_capacity_under_minimum :
      (r : CapacityRange)
      → lo ≤ℤ hi
      → pos 0 <ℤ r.required_bytes
      → r.required_bytes <ℤ lo
      → lo ≤ℤ r.limit_bytes
      → (size : ℤ) × (get_volume_request_capacity lo hi (some r) ≡ ok size) × (size <ℤ lo)
  unfolding get_volume_request_capacity
  get_volume_request_capacity_under_minimum r h p q l = (r.required_bytes, ground arith, q)
