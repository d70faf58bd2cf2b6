-- ===== src/Driver/Services.antt =====
-- driver/driver.go (`NewDriver`) with the constructors of the services: `newControllerService` of
-- driver/controller.go, `newNodeService` of driver/node.go, `NewScaleway` of scaleway/scaleway.go.
use scaleway_csi.Base.{
  String, ◌<>◌, not, Option, none, some, List, [], ◌∷◌, if◌then◌else◌, Call, Result, ◌>>=◌, return,
  fail, or_fail, checked,
}
use scaleway_csi.Base.Text.{same_text}
use scaleway_csi.Ids.{Zone}
use scaleway_csi.Driver.{
  driver_name, DriverConfig, Service, controller_service, node_service, controller_mode, node_mode,
  all_mode, unknown_mode,
}
use scaleway_csi.Driver.Version.{Build}

abbrev pub extra_user_agent_env : String
extra_user_agent_env = "EXTRA_USER_AGENT"

-- The metadata of an instance, the fields that are read.
pub record Metadata : Type 0 where
  pub id : String
  pub zone_id : String

-- What the constructors call: the environment, and the SDK, whose errors are texts here.
pub record Sdk (State : Type 0) : Type 1 where
  pub getenv : (name : String) → String
  pub new_client : (user_agent : String) → Call State String (Unit {0})
  pub get_metadata : Call State String Metadata
  pub parse_zone : String → Result String Zone

-- Why there is no driver: an error, or a panic.
pub data StartError : Type 0 where
  refused panicked : String → StartError

pub record ControllerService : Type 0 where
  pub config : DriverConfig
  pub user_agent : String

pub record NodeService : Type 0 where
  pub node_id : String
  pub node_zone : Zone

-- A service that the mode does not ask for is left at its zero value, `none` here.
pub record Driver : Type 0 where
  pub config : DriverConfig
  pub controller : Option ControllerService
  pub node : Option NodeService

unfoldable pub user_agent : Build → (extra : String) → String
user_agent build extra =
    let agent =
      driver_name <> (" " <> (build.driver_version <> (" (" <> (build.git_commit <> ")")))) in
    if not (same_text extra "") then agent <> (" " <> extra) else agent

module _ {State : Type 0} (sdk : Sdk State) (build : Build) where
  unfoldable pub new_scaleway : (agent : String) → Call State StartError (Unit {0})
  new_scaleway agent = or_fail (sdk.new_client agent) panicked

  unfoldable pub new_controller_service : DriverConfig → Call State StartError ControllerService
  unfolding new_scaleway user_agent
  new_controller_service config =
      let agent = user_agent build (sdk.getenv extra_user_agent_env) in
      new_scaleway agent >>= λ _. return (record { config = config; user_agent = agent })

  unfoldable pub new_node_service : Call State StartError NodeService
  new_node_service = do
    metadata ← or_fail sdk.get_metadata panicked
    zone ← checked (sdk.parse_zone metadata.zone_id) panicked
    return (record { node_id = metadata.id; node_zone = zone })

  -- `NewDriver`
  unfoldable pub start_driver : DriverConfig → Call State StartError Driver
  start_driver config =
      if same_text config.mode controller_mode
      then (do
        controller ← new_controller_service config
        return (record { config = config; controller = some controller; node = none }))
      else if same_text config.mode node_mode
      then (do
        node ← new_node_service
        return (record { config = config; controller = none; node = some node }))
      else if same_text config.mode all_mode
      then (do
        controller ← new_controller_service config
        node ← new_node_service
        return (record { config = config; controller = some controller; node = some node }))
      else fail (refused (unknown_mode config.mode))

abbrev pub controller_of : Option ControllerService → List Service
controller_of none = []
controller_of (some _) = controller_service ∷ []

abbrev pub node_of : Option NodeService → List Service
node_of none = []
node_of (some _) = node_service ∷ []
