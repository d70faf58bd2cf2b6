-- ===== src/Controller/Sizing.antt =====
-- driver/controller.go: the limits of a volume type and the size granted within them, which
-- `CreateVolume` and `ControllerExpandVolume` work out alike.
use scaleway_csi.Base.{
  String, ◌<>◌, ◌≡◌, Option, Action, ok, status, internal, out_of_range, ◌>>=◌, or_fail, checked,
  arith, Result-cases, inl, inr,
}
use scaleway_csi.Base.Int.{ℤ}
use scaleway_csi.Errors.{error_text}
use scaleway_csi.Csi.{CapacityRange}
use scaleway_csi.Capacity.{get_volume_request_capacity}
use scaleway_csi.Cloud.{InstanceApi, api_text, get_volume_limits}
use scaleway_csi.Cloud.Laws.{IsReadOnly}

module _ (api : InstanceApi) where
  open api use {State, list_volumes_types}

  unfoldable pub size_for : String → Option CapacityRange → Action State ℤ
  size_for volume_type range = do
    (lo, hi) ← or_fail (get_volume_limits api volume_type) (λ e. status internal (api_text e))
    checked (get_volume_request_capacity lo hi range)
        (λ e. status out_of_range ("capacityRange invalid: " <> error_text e))

  module _ (R : IsReadOnly api) (volume_type : String) (range : Option CapacityRange) where
    pub size_for_state : (w : State) → (size_for volume_type range w).1 ≡ w
    unfolding size_for get_volume_limits
    size_for_state w = ground (arith, R.list_types_state w)

    -- The size depends on the volume types alone.
    pub size_for-types :
        (w w' : State)
        → (list_volumes_types w).0 ≡ (list_volumes_types w').0
        → (size_for volume_type range w).0 ≡ (size_for volume_type range w').0
    unfolding size_for get_volume_limits
    size_for-types w w' e = ground (arith, R.list_types_state w, R.list_types_state w')

    -- A granted size is one that `getVolumeRequestCapacity` grants within the type's limits.
    pub size_for-ok :
        (w : State) {size : ℤ}
        → (size_for volume_type range w).0 ≡ ok size
        → (lo hi : ℤ) × ((get_volume_limits api volume_type w).0 ≡ ok (lo, hi))
          × (get_volume_request_capacity lo hi range ≡ ok size)
    unfolding size_for
    size_for-ok w e = elim (Result-cases (get_volume_limits api volume_type w).0) [
      | inr (_, failed) ↦ absurd (ground arith)
      | inl (limits, found) ↦ (limits.0, limits.1, found, ground arith)
    ]
