-- ===== src/Errors.antt =====
-- driver/errors.go: the errors that the driver's own checks return.
use scaleway_csi.Base.{String}

pub data DriverError : Type 0 where
  scheme_not_supported removing_socket project_id_not_set : DriverError
  target_path_empty target_not_shared_mounter target_not_mounter_on_right_device : DriverError
  fs_type_empty device_path_is_not_device : DriverError
  volume_capabilities_is_nil volume_capability_is_nil : DriverError
  both_mount_block_volumes access_mode_not_supported : DriverError
  limit_bytes_less_than_required_bytes required_bytes_less_than_minimum : DriverError
  limit_bytes_less_than_minimum required_bytes_greater_than_maximum : DriverError
  limit_bytes_greater_than_maximum : DriverError

-- `err.Error()`
abbrev pub error_text : DriverError → String
error_text scheme_not_supported = "scheme not supported for endpoint"
error_text removing_socket = "error removing existing socket"
error_text project_id_not_set = "projectID must be set"
error_text target_path_empty = "target path empty"
error_text target_not_shared_mounter = "target is not shared mounter"
error_text target_not_mounter_on_right_device = "target is not mounted on the right device"
error_text fs_type_empty = "filesystem type is empty"
error_text device_path_is_not_device = "device path does not point on a block device"
error_text volume_capabilities_is_nil = "volume capabilites is nil"
error_text volume_capability_is_nil = "volume capability is nil"
error_text both_mount_block_volumes = "both mount and block volume type specified"
error_text access_mode_not_supported = "access mode not supported"
error_text limit_bytes_less_than_required_bytes = "limit size is less than required size"
error_text required_bytes_less_than_minimum = "required size is less than the minimun size"
error_text limit_bytes_less_than_minimum = "limit size is less than the minimun size"
error_text required_bytes_greater_than_maximum = "required size is greater than the maximum size"
error_text limit_bytes_greater_than_maximum = "limit size is greater than the maximum size"
