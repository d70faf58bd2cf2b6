-- ===== src/Lib.antt =====
-- A model of the Scaleway CSI driver: the controller service, the node service, and the helpers
-- they are made of.
--
-- The driver serves the CSI calls of a container orchestrator by calls of Scaleway's instance API.
-- Each handler of the controller service reads identifiers and options, asks the API, and answers
-- with a message or a gRPC status. The node service stages and publishes on a node the volumes that
-- the controller attached, by calls of disk utilities, which call the operating system. The files:
--   Base         results, calls that change a state, Go's integers, texts and maps
--   Errors       driver/errors.go
--   Limits       driver/node.go (maxVolumesPerNode, which the controller reads too)
--   Csi          the messages of the CSI specification that the handlers read
--   Ids          driver/helpers.go (extractIDAndZone and its callers), scaleway/utils.go
--   Capability   driver/helpers.go (validateVolumeCapability, validateVolumeCapabilities)
--   Capacity     driver/helpers.go (getVolumeRequestCapacity)
--   Topology     driver/helpers.go (chooseZones, newAccessibleTopology)
--   Cloud        scaleway/scaleway.go (InstanceAPI, GetVolumeLimits, GetVolumeByName,
--                GetSnapshotByName)
--   Controller   driver/controller.go: Sizing and Create (CreateVolume), Attach
--                (ControllerPublishVolume, ControllerUnpublishVolume), Volumes (DeleteVolume,
--                ValidateVolumeCapabilities, ControllerExpandVolume, ControllerGetVolume,
--                GetCapacity, ControllerGetCapabilities), Snapshots (CreateSnapshot,
--                DeleteSnapshot, ListSnapshots, ListVolumes), Paging (the pages of the two lists)
--   Disk         driver/diskutils.go and driver/luks_utils.go: the interface DiskUtils, Paths,
--                Mounts (GetMountInfo, IsSharedMounted), Luks (luks_utils.go), Devices (diskUtils)
--   Node         driver/node.go: Requests, Stage (NodeStageVolume, NodeUnstageVolume), Publish
--                (NodePublishVolume, NodeUnpublishVolume, createMountPoint of driver/helpers.go),
--                Status (NodeGetVolumeStats, NodeGetCapabilities, NodeGetInfo, NodeExpandVolume)
--   Driver       driver/driver.go (NewDriver, Run) and driver/identity.go: Address (the path of the
--                socket), Version (driver/version.go), Services (the constructors of the services),
--                Main (cmd/scaleway-csi/main.go)
--   Secrets      driver/helpers.go (stripSecretFromReq)
--   Lifecycle    a volume passed on from CreateVolume to ControllerPublishVolume and to the node
--   Tests        an instance API in memory, disks, a machine, and runs of the handlers on them
-- Child modules hold the proofs.
--
-- Controller.Interleaved cuts the two handlers that attach and detach at their calls of the API and
-- at their lock, and lets any number of requests take their steps in any order.
--
-- The instance API is a record of calls over a state of unknown type (Cloud.InstanceApi): a call
-- gives a value or an error, and a new state. What the theorems assume of it stands in Cloud.Laws:
-- reads change nothing, a creation in the default zone of the client shows in the lists, which are
-- asked without a zone, and attachment and detachment show in later reads. A handler is a function
-- from the state to a result and a state; it ends in a value, a gRPC status with its text, or a
-- panic. The operating system, the commands and the mounter are a record of the same shape
-- (Disk.Host); the disk utilities are defined over it and fill the interface that the node service
-- takes (Disk.DiskUtils), whose laws stand in Node.Laws. They are shown of the disk utilities in
-- Node.Filled and Node.Hosted, from what they rely on of the operating system. `scw.ParseZone` is a
-- parameter without laws, and the order in which Go visits a map is a parameter that permutes the
-- entries, or the order of a list.
--
-- A 64-bit integer is an integer with its range written where the code converts or adds. Loops are
-- recursions on the lists they run over. A walk over the pages of a list has the number of pages as
-- fuel, and one page more than there are entries is shown to be enough.
--
-- Responses of the API that are nil, and lists that hold nil, are not modelled: what is found is
-- there. The laws of the operating system are those of a path that leads to itself and that the
-- kernel writes as it is (Node.Hosted.IsPlain), since its mount table has the path to which a
-- target leads.
--
-- Not modelled: the gRPC server with the interceptor that logs errors and the shutdown on a signal,
-- and what is written to the log, which are I/O. Of a publication with a block capability, only the
-- handler is modelled; what it leaves is not proved. The start of the driver takes the parsing of
-- its URL and of its flags, the environment, the client of the SDK and the metadata service as
-- parameters (Driver.Net, Driver.Services.Sdk). A handler is modelled running alone, but for the
-- two that attach and detach, which Controller.Interleaved also runs at the same time.
pub mod Base
pub mod Errors
pub mod Limits
pub mod Csi
pub mod Ids
pub mod Capability
pub mod Capacity
pub mod Topology
pub mod Cloud
pub mod Controller
pub mod Disk
pub mod Node
pub mod Driver
pub mod Secrets
pub mod Lifecycle
pub mod Tests
