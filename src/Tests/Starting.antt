-- ===== src/Tests/Starting.antt =====
-- The start of the driver, its version, and the logging of requests.
use scaleway_csi.Secrets.{redacted_entries}
use scaleway_csi.Secrets.{value_to_print}
use scaleway_csi.Driver.Services.{new_node_service}
use scaleway_csi.Driver.Services.{new_controller_service}
use scaleway_csi.Base.Text.{join}
use mathlib.Core.List.Permᴰ
use scaleway_csi.Base.{
  ℕ, String, ◌≡◌, refl, true, some, List, [], ◌∷◌, Result, ok, err, return, inl, inr, if◌then◌else◌,
}
use scaleway_csi.Base.Text.{split, same_text}
use scaleway_csi.Driver.{
  Net, Service, identity_service, controller_service, node_service, run, listen_on, registered,
}
use scaleway_csi.Driver.Address.{join_path, dir}
use scaleway_csi.Driver.Version.{
  Build, Runtime, get_version, get_version_json, version_text, json_text, json_char,
}
use scaleway_csi.Driver.Services.{Sdk, Driver, start_driver}
use scaleway_csi.Driver.Main.{Flags, default_flags, fatal, returned, main}
use scaleway_csi.Driver.Serves.{main_of_built}
use scaleway_csi.Secrets.{
  Value, text_map, other_value, structure, Reflected, strip_secret_from_req, printed_fields,
}
use scaleway_csi.Secrets.Hidden.{strip_secret_from_req-Hidden, Succeeds}

join_path_rooted : join_path "" "/tmp/csi.sock" ≡ "/tmp/csi.sock"
unfolding join_path join split
join_path_rooted = refl

join_path_parent : join_path "run" "/../../csi//./a.sock" ≡ "../csi/a.sock"
unfolding join_path split join
join_path_parent = refl

join_path_empty : join_path "" "" ≡ ""
unfolding join_path
join_path_empty = refl

dir_root : dir "/csi.sock" ≡ "/"
unfolding dir join split
dir_root = refl

dir_here : dir "csi.sock" ≡ "."
unfolding dir split
dir_here = refl

dir_deep : dir "/var/lib/csi.sock" ≡ "/var/lib"
unfolding dir join split
dir_deep = refl

abbrev built : Build
built = record { driver_version = "v1"; git_commit = "<a>"; build_date = "today" }

abbrev go : Runtime
go = record { version = "go1.20"; compiler = "gc"; goos = "linux"; goarch = "amd64" }

version_text-built :
    version_text (get_version built go)
    ≡ "{DriverVersion:v1 GitCommit:<a> BuildDate:today GoVersion:go1.20 Compiler:gc Platform:linux/amd64}"
unfolding version_text get_version
version_text-built = refl

get_version_json-built :
    get_version_json built go
    ≡ ok
        "{\n  \"driverVersion\": \"v1\",\n  \"gitCommit\": \"\\u003ca\\u003e\",\n  \"buildDate\": \"today\",\n  \"goVersion\": \"go1.20\",\n  \"compiler\": \"gc\",\n  \"platform\": \"linux/amd64\"\n}"
unfolding get_version_json join json_text json_char
get_version_json-built = refl

-- A system on which every call succeeds, and whose state is what is served.
abbrev quiet : Net
quiet = record {
  State = List Service;
  parse_url = λ endpoint. ok (record { scheme = "unix"; host = ""; path = "/csi.sock" });
  remove = λ path. return tt;
  stat = λ path. return tt;
  mkdir_all = λ path. return tt;
  listen = λ scheme address. return tt;
  serve = λ services w. (ok tt, services);
}

abbrev sdk : Sdk (List Service)
sdk = record {
  getenv = λ name. "tester";
  new_client = λ agent. return tt;
  get_metadata = return (record { id = "n1"; zone_id = "fr-par-1" });
  parse_zone = λ zone. ok zone;
}

-- The flags that no argument changes, and those of one argument for the mode.
abbrev parse : Flags → List String → Result ℕ Flags
parse defaults [] = ok defaults
parse defaults (mode ∷ []) =
    if same_text mode "-version"
    then ok (record defaults { version = true })
    else ok (record defaults { mode = mode })
parse defaults args = err 2

abbrev all_driver : Driver
all_driver = record {
  config = record { endpoint = "unix:/tmp/csi.sock"; prefix = ""; mode = "all" };
  controller = some (record {
    config = record { endpoint = "unix:/tmp/csi.sock"; prefix = ""; mode = "all" };
    user_agent = "csi.scaleway.com v1 (<a>) tester";
  });
  node = some (record { node_id = "n1"; node_zone = "fr-par-1" });
}

start_driver_all : start_driver sdk built all_driver.config [] ≡ (ok all_driver, [])
unfolding start_driver new_controller_service new_node_service
start_driver_all = refl

main_mode :
    main quiet sdk built go parse ("other" ∷ []) [] ≡ (fatal "unknown mode for driver: other", [])
unfolding main start_driver
main_mode = refl

main_all :
    main quiet sdk built go parse [] []
    ≡ (returned, identity_service ∷ controller_service ∷ node_service ∷ [])
unfolding main start_driver new_controller_service new_node_service run listen_on registered
main_all = refl

main_of_built_example :
    main quiet sdk built go parse [] []
    ≡ (returned, identity_service ∷ controller_service ∷ node_service ∷ [])
unfolding listen_on
main_of_built_example =
    main_of_built quiet sdk built go parse [] default_flags all_driver [] [] refl refl
      start_driver_all

abbrev staging_request : String → Reflected
staging_request passphrase = structure (
    record { name = "VolumeId"; value = other_value "v1" }
    ∷ record { name = "Secrets"; value = text_map (("encryptionPassphrase", passphrase) ∷ []) }
    ∷ [])

abbrev print : Value → String
print (text_map m) = "map[...]"
print (other_value text) = text

strip_staging_request :
    strip_secret_from_req print (λ j keys. keys) (staging_request "hunter2")
    ≡ ok "{VolumeId:v1 Secrets:[encryptionPassphrase:<redacted>]}"
unfolding strip_secret_from_req printed_fields value_to_print redacted_entries
strip_staging_request = refl

strip_secret_from_req-Hidden_example :
    Succeeds (strip_secret_from_req print (λ j keys. keys) (staging_request "hunter2"))
    × (strip_secret_from_req print (λ j keys. keys) (staging_request "hunter2")
        ≡ strip_secret_from_req print (λ j keys. keys) (staging_request "12345678"))
strip_secret_from_req-Hidden_example =
    strip_secret_from_req-Hidden print (λ j keys. keys) (λ j keys. Permᴰ.refl keys)
      (staging_request "hunter2") (staging_request "12345678")
      (
        (refl, inl refl),
        (
          (
            refl,
            inr (record {
              mine = _;
              theirs = _;
              is_secret = refl;
              my_value = refl;
              their_value = refl;
              same_keys = refl;
            }),
          ),
          tt,
        ),
      )
