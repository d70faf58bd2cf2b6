-- ===== src/Csi.antt =====
-- The CSI messages that the driver's requests and responses share. A pointer that may be nil is
-- an `Option`; a Go map is the list of its entries in the order in which a `range` visits them.
use scaleway_csi.Base.{String, Bool, true, false, Option, List}
use scaleway_csi.Base.Int.{ℤ}

pub data AccessMode : Type 0 where
  unknown_mode single_node_writer single_node_reader_only multi_node_reader_only : AccessMode
  multi_node_single_writer multi_node_multi_writer : AccessMode
  single_node_single_writer single_node_multi_writer : AccessMode

-- The `access_type` of a capability.
pub data AccessType : Type 0 where
  unset_access block_access : AccessType
  mount_access : (fs_type : String) → (mount_flags : List String) → AccessType

pub record VolumeCapability : Type 0 where
  pub access_mode : Option AccessMode
  pub access_type : AccessType

-- `GetBlock() != nil` and `GetMount() != nil`
abbrev pub is_block : AccessType → Bool
is_block block_access = true
is_block _ = false

abbrev pub is_mount : AccessType → Bool
is_mount (mount_access fs_type flags) = true
is_mount _ = false

pub record CapacityRange : Type 0 where
  pub required_bytes : ℤ
  pub limit_bytes : ℤ

-- The entries of one topology.
abbrev pub Segments : Type 0
Segments = List (String × String)

pub record TopologyRequirement : Type 0 where
  pub requisite : Option (List Segments)
  pub preferred : List Segments
