-- ===== src/Capability/Supported.antt =====
-- Which capabilities are accepted.
use scaleway_csi.Base.{
  ◌≡◌, ◌↔◌, ◌⊎◌, Bool, false, ◌||◌, Option, none, some, List, [], ◌∷◌, arith, All, ok,
}
use scaleway_csi.Csi.{AccessMode, VolumeCapability}
use scaleway_csi.Capability.{
  validate_volume_capability, has_block, has_mount, validate_from, validate_volume_capabilities,
}

-- A capability that is given, in one of the two modes for a single node.
abbrev pub IsSupported : Option VolumeCapability → Type 0
IsSupported none = ⊥
IsSupported (some c) =
    (c.access_mode ≡ some AccessMode.single_node_writer)
    ⊎ (c.access_mode ≡ some AccessMode.single_node_multi_writer)

abbrev pub IsNoBlock : Option VolumeCapability → Type 0
IsNoBlock c = has_block c ≡ false

abbrev pub IsNoMount : Option VolumeCapability → Type 0
IsNoMount c = has_mount c ≡ false

validate_volume_capability_iff :
    (c : Option VolumeCapability) → (validate_volume_capability c ≡ ok tt) ↔ IsSupported c
unfolding validate_volume_capability
validate_volume_capability_iff none = ground arith
validate_volume_capability_iff (some c) = ground arith

validate_from_iff :
    (cs : List (Option VolumeCapability)) (block mount : Bool)
    → (validate_from cs block mount ≡ ok tt) ↔ (
        All IsSupported cs
        × ((block ≡ false) × All IsNoBlock cs ⊎ (mount ≡ false) × All IsNoMount cs))
unfolding validate_from
validate_from_iff [] block mount = ground arith
validate_from_iff (c ∷ cs) block mount = grind (
  arith,
  validate_volume_capability_iff c,
  validate_from_iff cs (block || has_block c) (mount || has_mount c),
)

-- Given, each with a mode for a single node, and not with a block and a mount capability together.
abbrev pub Passes : Option (List (Option VolumeCapability)) → Type 0
Passes none = ⊥
Passes (some cs) = All IsSupported cs × (All IsNoBlock cs ⊎ All IsNoMount cs)

-- A list of capabilities passes just if it is not nil, every one of them is given with one of the
-- two modes for a single node, and it does not hold a block and a mount capability together.
pub validate_volume_capabilities_iff :
    (cs : Option (List (Option VolumeCapability)))
    → (validate_volume_capabilities cs ≡ ok tt) ↔ Passes cs
unfolding validate_volume_capabilities
validate_volume_capabilities_iff none = ground arith
validate_volume_capabilities_iff (some cs) = ground (arith, validate_from_iff cs false false)
