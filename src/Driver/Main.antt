-- ===== src/Driver/Main.antt =====
-- cmd/scaleway-csi/main.go: the command. `flag.Parse` is a parameter, since other packages add flags
-- of their own.
use scaleway_csi.Base.{ℕ, String, Bool, false, List, Result, ok, err, if◌then◌else◌}
use scaleway_csi.Driver.{DriverConfig, all_mode, Net, run}
use scaleway_csi.Driver.Version.{Build, Runtime, get_version, version_text}
use scaleway_csi.Driver.Services.{Sdk, StartError, refused, panicked, Driver, start_driver}

-- The values of the flags.
pub record Flags : Type 0 where
  pub endpoint : String
  pub prefix : String
  pub version : Bool
  pub mode : String

abbrev pub default_flags : Flags
default_flags = record {
  endpoint = "unix:/tmp/csi.sock";
  prefix = "";
  version = false;
  mode = all_mode;
}

-- How the command ends: with a status, what it prints before; with a fatal error, whose text is
-- logged; with a panic; or at the end of `main`.
pub data Exit : Type 0 where
  exited : (status : ℕ) → (output : String) → Exit
  fatal crash : String → Exit
  returned : Exit

abbrev pub config_of : Flags → DriverConfig
config_of flags = record { endpoint = flags.endpoint; prefix = flags.prefix; mode = flags.mode }

abbrev pub no_driver : StartError → Exit
no_driver (refused text) = fatal text
no_driver (panicked text) = crash text

abbrev pub after_run {ℓ} : {W : Type ℓ} → Result String (Unit {0}) × W → Exit × W
after_run (ok _, w) = (returned, w)
after_run (err text, w) = (fatal text, w)

-- `parse` gives the flags that the arguments set over their defaults, or the status with which
-- `flag.Parse` ends the program.
module _ (net : Net) (sdk : Sdk net.State) (build : Build) (go : Runtime)
    (parse : (defaults : Flags) → (args : List String) → Result ℕ Flags) where
  abbrev pub after_driver : Result StartError Driver × net.State → Exit × net.State
  after_driver (err e, w) = (no_driver e, w)
  after_driver (ok driver, w) = after_run (run net driver.config w)

  abbrev pub with_flags : Flags → net.State → Exit × net.State
  with_flags flags w =
      if flags.version
      then (exited 0 (version_text (get_version build go)), w)
      else after_driver (start_driver sdk build (config_of flags) w)

  unfoldable pub main : (args : List String) → net.State → Exit × net.State
  main args w = elim (parse default_flags args) [
    | err status ↦ (exited status "", w)
    | ok flags ↦ with_flags flags w
  ]
