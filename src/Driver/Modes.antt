-- ===== src/Driver/Modes.antt =====
-- Which services a driver serves.
use scaleway_csi.Base.{◌≡◌, List, ◌∷◌, arith, ok, lift, ◌>>=◌}
use scaleway_csi.Driver.{
  DriverConfig, Service, identity_service, new_driver, registered, Net, listen_on, run,
}

registered_of_built :
    (config : DriverConfig) (services : List Service)
    → new_driver config ≡ ok services
    → registered config.mode ≡ ok (identity_service ∷ services)
unfolding new_driver registered
registered_of_built config services e = ground arith

-- A driver that was built listens on its endpoint and then serves the identity service and just the
-- services that were built for its mode.
pub run-new_driver :
    (net : Net) (config : DriverConfig) (services : List Service)
    → new_driver config ≡ ok services
    → (w : net.State)
    → run net config w
      ≡ (lift (net.parse_url config.endpoint) >>= λ url.
            listen_on net url >>= λ _. net.serve (identity_service ∷ services))
          w
unfolding run
run-new_driver net config services e w = ground (arith, registered_of_built config services e)
