-- ===== src/Tests/Data.antt =====
-- Requests and states for the runs.
use scaleway_csi.Base.{String, Option, none, some, [], ◌∷◌}
use scaleway_csi.Base.Int.{pos}
use scaleway_csi.Csi.{AccessMode, VolumeCapability, mount_access, TopologyRequirement}
use scaleway_csi.Topology.{zone_topology_key}
use scaleway_csi.Cloud.{Volume}
use scaleway_csi.Controller.Create
use scaleway_csi.Controller.Attach
use scaleway_csi.Tests.Memory.{Memory}

abbrev pub mounted : VolumeCapability
mounted = record {
  access_mode = some AccessMode.single_node_writer;
  access_type = mount_access "ext4" [];
}

-- Two zones that the SDK knows, the second preferred.
abbrev pub two_zones : TopologyRequirement
two_zones = record {
  requisite =
      some (((zone_topology_key, "fr-par-1") ∷ []) ∷ ((zone_topology_key, "fr-par-2") ∷ []) ∷ []);
  preferred = ((zone_topology_key, "fr-par-2") ∷ []) ∷ [];
}

abbrev pub new_data : Create.Request
new_data = record {
  name = "data";
  volume_capabilities = some mounted ∷ [];
  parameters = ("Type", "b_ssd") ∷ ("encrypted", "true") ∷ [];
  capacity_range = some (record { required_bytes = pos 2000000000; limit_bytes = pos 0 });
  volume_content_source = none;
  accessibility_requirements = some two_zones;
}

abbrev pub volume_on : Option String → Volume
volume_on server = record {
  id = "v1";
  name = "data";
  zone = "fr-par-1";
  size = 2000000000;
  volume_type = "b_ssd";
  state = "available";
  server = server;
}

-- A memory with the one volume, on the given server.
abbrev pub with_volume : Option String → Memory
with_volume server = record { volume = some (volume_on server); snapshot = none }

abbrev pub empty_memory : Memory
empty_memory = record { volume = none; snapshot = none }

abbrev pub publish_on : String → Attach.PublishRequest
publish_on node = record {
  volume_id = "fr-par-1/v1";
  node_id = node;
  volume_capability = some mounted;
}

abbrev pub unpublish_from : String → Attach.UnpublishRequest
unpublish_from node = record { volume_id = "fr-par-1/v1"; node_id = node }

abbrev pub target_on : String → Attach.Target
target_on node = record {
  volume_id = "v1";
  volume_zone = "fr-par-1";
  node_id = node;
  node_zone = "fr-par-1";
}
