-- ===== src/Driver.antt =====
-- driver/driver.go and driver/identity.go: the modes of the driver, its start, and the identity
-- service.
pub mod Modes
pub mod Address
pub mod Version
pub mod Services
pub mod Main
pub mod Serves
use scaleway_csi.Base.{
  String, ◌<>◌, Bool, true, not, List, [], ◌∷◌, if◌then◌else◌, Call, Result, ok, err, ◌>>=◌, ◌>>◌,
  return, fail, lift, or_fail, refuse_if, attempt,
}
use scaleway_csi.Base.Text.{same_text, split, join}
use scaleway_csi.Errors.{error_text, scheme_not_supported, removing_socket}
use scaleway_csi.Driver.Address.{join_path, dir}
use scaleway_csi.Disk.{DiskError, not_exist, failed, crashed, exited, disk_text}

abbrev pub driver_name : String
driver_name = "csi.scaleway.com"

-- The services that a driver is made of.
pub data Service : Type 0 where
  identity_service controller_service node_service : Service

pub record DriverConfig : Type 0 where
  pub endpoint : String
  pub prefix : String
  pub mode : String

abbrev pub controller_mode : String
controller_mode = "controller"

abbrev pub node_mode : String
node_mode = "node"

abbrev pub all_mode : String
all_mode = "all"

abbrev unknown_mode : String → String
unknown_mode mode = "unknown mode for driver: " <> mode

-- `NewDriver`: the services that are built, or the text of the error.
unfoldable pub new_driver : DriverConfig → Result String (List Service)
new_driver config =
    if same_text config.mode controller_mode
    then ok (controller_service ∷ [])
    else if same_text config.mode node_mode
    then ok (node_service ∷ [])
    else if same_text config.mode all_mode
    then ok (controller_service ∷ node_service ∷ [])
    else err (unknown_mode config.mode)

-- The services that `Run` registers.
unfoldable pub registered : String → Result String (List Service)
registered mode =
    if same_text mode controller_mode
    then ok (identity_service ∷ controller_service ∷ [])
    else if same_text mode node_mode
    then ok (identity_service ∷ node_service ∷ [])
    else if same_text mode all_mode
    then ok (identity_service ∷ controller_service ∷ node_service ∷ [])
    else err (unknown_mode mode)

pub record Url : Type 0 where
  pub scheme : String
  pub host : String
  pub path : String

-- The system that the driver starts on: `url.Parse`, the calls on files, `net.Listen`, and `Serve`
-- with the services registered.
pub record Net : Type 1 where
  pub State : Type 0
  pub parse_url : (endpoint : String) → Result String Url
  pub remove : (path : String) → Call State DiskError (Unit {0})
  pub stat : (path : String) → Call State DiskError (Unit {0})
  pub mkdir_all : (path : String) → Call State DiskError (Unit {0})
  pub listen : (scheme address : String) → Call State DiskError (Unit {0})
  pub serve : List Service → Call State String (Unit {0})

module _ (net : Net) where
  open net use {State}

  -- A socket that is not there need not be removed.
  abbrev may_be_gone : DiskError → Call State String (Unit {0})
  may_be_gone (not_exist _) = return tt
  may_be_gone (failed _) = fail (error_text removing_socket)
  may_be_gone (crashed _) = fail (error_text removing_socket)
  may_be_gone (exited _ _) = fail (error_text removing_socket)

  -- A directory that is not there is made; other errors of the look are not read.
  abbrev made_if_missing : String → DiskError → Call State String (Unit {0})
  made_if_missing path (not_exist _) = or_fail (net.mkdir_all path) disk_text
  made_if_missing path (failed _) = return tt
  made_if_missing path (crashed _) = return tt
  made_if_missing path (exited _ _) = return tt

  -- The socket, up to the listener.
  unfoldable pub listen_on : Url → Call State String (Unit {0})
  listen_on url = do
    refuse_if (not (same_text url.scheme "unix")) (error_text scheme_not_supported)
    let address = join_path url.host url.path in
        do
          _ ← attempt (net.remove address) may_be_gone (λ _. return tt)
          _ ← attempt (net.stat (dir address)) (made_if_missing (dir address)) (λ _. return tt)
          or_fail (net.listen url.scheme address) disk_text

  unfoldable pub run : DriverConfig → Call State String (Unit {0})
  run config = do
    url ← lift (net.parse_url config.endpoint)
    _ ← listen_on url
    services ← lift (registered config.mode)
    net.serve services

-- driver/identity.go
pub data PluginCapability : Type 0 where
  controller_capability volume_accessibility_constraints online_expansion : PluginCapability

unfoldable pub get_plugin_info : (driver_version : String) → String × String
get_plugin_info driver_version = (driver_name, driver_version)

unfoldable pub get_plugin_capabilities : List PluginCapability
get_plugin_capabilities =
    controller_capability ∷ volume_accessibility_constraints ∷ online_expansion ∷ []

unfoldable pub probe : Bool
probe = true
