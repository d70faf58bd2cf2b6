-- ===== src/Capability.antt =====
-- driver/helpers.go: `validateVolumeCapability` and `validateVolumeCapabilities`.
pub mod Supported
use scaleway_csi.Base.{
  Bool, true, false, ◌||◌, ◌&&◌, Option, none, some, List, [], ◌∷◌, if◌then◌else◌,
}
use scaleway_csi.Base.{Result, ok, err}
use scaleway_csi.Errors.{DriverError, volume_capabilities_is_nil, volume_capability_is_nil}
use scaleway_csi.Errors.{both_mount_block_volumes, access_mode_not_supported}
use scaleway_csi.Csi.{AccessMode, VolumeCapability, is_block, is_mount}

-- The modes of `supportedAccessModes` in driver/controller.go.
abbrev pub supported_access_modes : List AccessMode
supported_access_modes = AccessMode.single_node_writer ∷ AccessMode.single_node_multi_writer ∷ []

-- Go's `==` on access modes.
abbrev pub same_mode : AccessMode → AccessMode → Bool
same_mode AccessMode.unknown_mode AccessMode.unknown_mode = true
same_mode AccessMode.single_node_writer AccessMode.single_node_writer = true
same_mode AccessMode.single_node_reader_only AccessMode.single_node_reader_only = true
same_mode AccessMode.multi_node_reader_only AccessMode.multi_node_reader_only = true
same_mode AccessMode.multi_node_single_writer AccessMode.multi_node_single_writer = true
same_mode AccessMode.multi_node_multi_writer AccessMode.multi_node_multi_writer = true
same_mode AccessMode.single_node_single_writer AccessMode.single_node_single_writer = true
same_mode AccessMode.single_node_multi_writer AccessMode.single_node_multi_writer = true
same_mode _ _ = false

-- `volumeCapability.GetAccessMode().GetMode()`, which is UNKNOWN on nil.
abbrev pub mode_of : Option AccessMode → AccessMode
mode_of none = AccessMode.unknown_mode
mode_of (some mode) = mode

-- The loop over the supported modes.
find_mode : AccessMode → List AccessMode → Result DriverError (Unit {0})
find_mode mode [] = err access_mode_not_supported
find_mode mode (supported ∷ modes) =
    let rest = find_mode mode modes in if same_mode supported mode then ok tt else rest

unfoldable pub validate_volume_capability : Option VolumeCapability → Result DriverError (Unit {0})
unfolding find_mode
validate_volume_capability none = err volume_capability_is_nil
validate_volume_capability (some c) = find_mode (mode_of c.access_mode) supported_access_modes

abbrev has_block : Option VolumeCapability → Bool
has_block none = false
has_block (some c) = is_block c.access_type

abbrev has_mount : Option VolumeCapability → Bool
has_mount none = false
has_mount (some c) = is_mount c.access_type

-- The loop over the capabilities, with the variables `block` and `mount`.
validate_from : List (Option VolumeCapability) → Bool → Bool → Result DriverError (Unit {0})
validate_from [] block mount = if mount && block then err both_mount_block_volumes else ok tt
validate_from (c ∷ cs) block mount = elim (validate_volume_capability c) [
  | ok _ ↦ validate_from cs (block || has_block c) (mount || has_mount c)
  | err e ↦ err e
]

-- `none` is the nil slice.
unfoldable pub validate_volume_capabilities :
    Option (List (Option VolumeCapability)) → Result DriverError (Unit {0})
unfolding validate_from validate_volume_capability
validate_volume_capabilities none = err volume_capabilities_is_nil
validate_volume_capabilities (some cs) = validate_from cs false false
