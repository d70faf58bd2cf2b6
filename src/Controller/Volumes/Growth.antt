-- ===== src/Controller/Volumes/Growth.antt =====
-- To which sizes `ControllerExpandVolume` expands a volume.
use scaleway_csi.Base.{String, ◌≡◌, subst, sym, true, Option, arith, ok, Result-cases, inl, inr}
use scaleway_csi.Base.Text.{same_text}
use scaleway_csi.Base.Int.{ℤ, ◌≤ℤ◌, to_int64, to_uint64}
use scaleway_csi.Capacity.{get_volume_request_capacity}
use scaleway_csi.Ids.{Zone, get_volume_id_and_zone}
use scaleway_csi.Cloud.{InstanceApi, Volume, get_volume_limits}
use scaleway_csi.Cloud.Laws.{IsReadOnly}
use scaleway_csi.Controller.Sizing.{size_for, size_for_state, size_for-ok}
use scaleway_csi.Controller.Volumes.{ExpandRequest, ExpandResponse, controller_expand_volume}

module _ (api : InstanceApi) (R : IsReadOnly api) (parse_zone : String → Option Zone) where
  open api use {State, get_volume, update_volume, wait_for_volume}

  -- The new size is granted within the limits of the volume's type and is not less than the size the
  -- volume has; the volume was updated to that size, and it is available afterwards.
  pub record Grown (req : ExpandRequest) (w : State) (r : ExpandResponse) : Type 0 where
    pub id : String
    pub zone : Zone
    pub volume : Volume
    pub updated : Volume
    pub waited : Volume
    pub lo : ℤ
    pub hi : ℤ
    pub named : get_volume_id_and_zone parse_zone req.volume_id ≡ ok (id, zone)
    pub found : (get_volume id zone w).0 ≡ ok volume
    pub limits : (get_volume_limits api volume.volume_type w).0 ≡ ok (lo, hi)
    pub granted : get_volume_request_capacity lo hi req.capacity_range ≡ ok r.capacity_bytes
    pub no_less : to_int64 volume.size ≤ℤ r.capacity_bytes
    pub update_done : (update_volume id zone (to_uint64 r.capacity_bytes) w).0 ≡ ok updated
    pub wait_done :
        (wait_for_volume id zone ((update_volume id zone (to_uint64 r.capacity_bytes) w).1)).0
        ≡ ok waited
    pub available : same_text waited.state "available" ≡ true

  -- What follows once the size is known.
  module _ (req : ExpandRequest) (w : State) {r : ExpandResponse} (id : String) (zone : Zone)
      (v : Volume) (size : ℤ)
      (named : get_volume_id_and_zone parse_zone req.volume_id ≡ ok (id, zone))
      (found : (get_volume id zone w).0 ≡ ok v)
      (sized : (size_for api v.volume_type req.capacity_range w).0 ≡ ok size)
      (e : (controller_expand_volume parse_zone api req w).0 ≡ ok r) where
    expand-steps :
        (updated waited : Volume) × (to_int64 v.size ≤ℤ size)
        × (size ≡ r.capacity_bytes)
        × ((update_volume id zone (to_uint64 size) w).0 ≡ ok updated)
        × ((wait_for_volume id zone ((update_volume id zone (to_uint64 size) w).1)).0 ≡ ok waited)
        × (same_text waited.state "available" ≡ true)
    unfolding controller_expand_volume
    expand-steps =
        let still = R.get_volume_state id zone w in
        let sized_still = size_for_state api R v.volume_type req.capacity_range w in
        elim (Result-cases (update_volume id zone (to_uint64 size) w).0) [
          | inr (_, failed) ↦ absurd (ground (arith, still, sized_still))
          | inl (updated, done) ↦
              elim (Result-cases
                (wait_for_volume id zone ((update_volume id zone (to_uint64 size) w).1)).0) [
                  | inr (_, failed) ↦ absurd (ground (arith, still, sized_still))
                  | inl (waited, there) ↦ (
                    updated,
                    waited,
                    ground (arith, still, sized_still),
                    ground (arith, still, sized_still),
                    done,
                    there,
                    ground (arith, still, sized_still),
                  )
                ]
        ]

  -- Over an API whose reads change nothing: an expansion that succeeds grants a size that is
  -- granted for the request within the limits of the volume's type and that is not less than the
  -- size the volume has; the volume was updated to that size, and the wait for it found it
  -- available.
  pub controller_expand_volume-Grown :
      (req : ExpandRequest) (w : State) {r : ExpandResponse}
      → (controller_expand_volume parse_zone api req w).0 ≡ ok r
      → Grown req w r
  unfolding controller_expand_volume
  controller_expand_volume-Grown req w {r} e =
      elim (Result-cases (get_volume_id_and_zone parse_zone req.volume_id)) [
        | inr (_, bad) ↦ absurd (ground arith)
        | inl ((id, zone), named) ↦ elim (Result-cases (get_volume id zone w).0) [
          | inr (_, failed) ↦ absurd (ground arith)
          | inl (v, found) ↦
              elim (Result-cases (size_for api v.volume_type req.capacity_range w).0) [
                | inr (_, failed) ↦ absurd (ground (arith, R.get_volume_state id zone w))
                | inl (size, sized) ↦
                    let (lo, hi, limits, granted) =
                      size_for-ok api R v.volume_type req.capacity_range w sized in
                    let (updated, waited, no_less, same, update_done, wait_done, available) =
                      expand-steps req w id zone v size named found sized e in
                    subst
                      (λ size.
                        (get_volume_request_capacity lo hi req.capacity_range ≡ ok size)
                        → (to_int64 v.size ≤ℤ size)
                        → ((update_volume id zone (to_uint64 size) w).0 ≡ ok updated)
                        → ((wait_for_volume id zone
                              ((update_volume id zone (to_uint64 size) w).1)).0
                            ≡ ok waited)
                        → Grown req w r)
                      (sym same)
                      (λ granted no_less update_done wait_done. record {
                        id = id;
                        zone = zone;
                        volume = v;
                        updated = updated;
                        waited = waited;
                        lo = lo;
                        hi = hi;
                        named = named;
                        found = found;
                        limits = limits;
                        granted = granted;
                        no_less = no_less;
                        update_done = update_done;
                        wait_done = wait_done;
                        available = available;
                      })
                      granted no_less update_done wait_done
              ]
        ]
      ]
