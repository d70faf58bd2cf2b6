-- ===== src/Capacity.antt =====
-- driver/helpers.go: `getVolumeRequestCapacity`.
pub mod Bounds
use scaleway_csi.Base.{Bool, ◌&&◌, not, Option, none, some, if◌then◌else◌, Result, ok, err}
use scaleway_csi.Base.Int.{ℤ, pos, less, same}
use scaleway_csi.Errors.{
  DriverError, limit_bytes_less_than_required_bytes, required_bytes_less_than_minimum,
  limit_bytes_less_than_minimum, required_bytes_greater_than_maximum,
  limit_bytes_greater_than_maximum,
}
use scaleway_csi.Csi.{CapacityRange}

-- The tests, in the code's order, on the two bounds of a given range.
range_capacity : ℤ → ℤ → ℤ → ℤ → Result DriverError ℤ
range_capacity min_size max_size required limit =
    let required_set = less (pos 0) required in
    let limit_set = less (pos 0) limit in
    if not required_set && not limit_set
    then ok min_size
    else if required_set && limit_set && less limit required
    then err limit_bytes_less_than_required_bytes
    else if required_set && not limit_set && less required min_size
    then err required_bytes_less_than_minimum
    else if limit_set && less limit min_size
    then err limit_bytes_less_than_minimum
    else if required_set && less max_size required
    then err required_bytes_greater_than_maximum
    else if not required_set && limit_set && less max_size limit
    then err limit_bytes_greater_than_maximum
    else if required_set && limit_set && same required limit
    then ok required
    else if required_set
    then ok required
    else if limit_set
    then ok limit
    else ok min_size

unfoldable pub get_volume_request_capacity : ℤ → ℤ → Option CapacityRange → Result DriverError ℤ
unfolding range_capacity
get_volume_request_capacity min_size max_size none = ok min_size
get_volume_request_capacity min_size max_size (some r) =
    range_capacity min_size max_size r.required_bytes r.limit_bytes
