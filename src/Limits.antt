-- ===== src/Limits.antt =====
-- driver/node.go: the number of volumes of a node, which both services read.
use scaleway_csi.Base.{ℕ}

-- `maxVolumesPerNode`
abbrev pub max_volumes_per_node : ℕ
max_volumes_per_node = 16
