-- ===== src/Driver/Serves.antt =====
-- What the command serves.
use scaleway_csi.Base.{ℕ, String, ◌≡◌, false, List, ◌∷◌, ◌++◌, arith, Result, ok, lift, ◌>>=◌, Call}
use scaleway_csi.Driver.{DriverConfig, Service, identity_service, new_driver, Net, listen_on}
use scaleway_csi.Driver.Modes.{run-new_driver}
use scaleway_csi.Driver.Version.{Build, Runtime}
use scaleway_csi.Driver.Services.{Sdk, Driver, start_driver, controller_of, node_of}
use scaleway_csi.Driver.Main.{Flags, default_flags, config_of, after_run, main}

abbrev pub services_of : Driver → List Service
services_of driver = controller_of driver.controller ++ node_of driver.node

-- The services of a driver are those that its mode asks for.
abbrev Fits : DriverConfig → Driver → Type 0
Fits config driver = (driver.config ≡ config) × (new_driver config ≡ ok (services_of driver))

module _ {State : Type 0} (sdk : Sdk State) (build : Build) where
  start_driver-Fits :
      (config : DriverConfig) (w w1 : State) {driver : Driver}
      → start_driver sdk build config w ≡ (ok driver, w1)
      → Fits config driver
  unfolding start_driver new_driver
  start_driver-Fits config w w1 e = ground arith

module _ (net : Net) (sdk : Sdk net.State) (build : Build) (go : Runtime)
    (parse : (defaults : Flags) → (args : List String) → Result ℕ Flags) where
  -- Listening on the endpoint, and serving the identity service and these.
  abbrev pub serving : (endpoint : String) → List Service → Call net.State String (Unit {0})
  serving endpoint services = lift (net.parse_url endpoint) >>= λ url.
      listen_on net url >>= λ _. net.serve (identity_service ∷ services)

  -- The command whose flags do not ask for the version, and whose driver is built for its mode,
  -- listens on the endpoint of its flags and serves the identity service and just the services that
  -- were built; an error of these ends it as a fatal one.
  pub main_of_built :
      (args : List String) (flags : Flags) (driver : Driver) (w w1 : net.State)
      → parse default_flags args ≡ ok flags
      → flags.version ≡ false
      → start_driver sdk build (config_of flags) w ≡ (ok driver, w1)
      → main net sdk build go parse args w
        ≡ after_run (serving flags.endpoint (services_of driver) w1)
  unfolding main
  main_of_built args flags driver w w1 parsed plain built =
      let (same, services) = start_driver-Fits sdk build (config_of flags) w w1 built in
      ground (arith, same, run-new_driver net (config_of flags) (services_of driver) services w1)
