-- ===== src/Node/Requests.antt =====
-- driver/node.go: the requests, and the checks that several handlers share.
use scaleway_csi.Base.{
  String, ◌<>◌, Bool, false, Option, none, some, [], ◌∷◌, Result, ok, err, Failure, status, panic,
  invalid_argument, internal, not_found,
}
use scaleway_csi.Base.Text.{parse_bool}
use scaleway_csi.Base.Table.{Table, lookup}
use scaleway_csi.Errors.{error_text}
use scaleway_csi.Csi.{VolumeCapability}
use scaleway_csi.Capability.{validate_volume_capabilities}
use scaleway_csi.Controller.Create.{encrypted_key, parse_bool_text}
use scaleway_csi.Disk.{DiskError, not_exist, failed, crashed, exited, disk_text}

abbrev pub encryption_passphrase_key : String
encryption_passphrase_key = "encryptionPassphrase"

pub record StageRequest : Type 0 where
  pub volume_id : String
  pub volume_context : Table String
  pub publish_context : Table String
  pub secrets : Table String
  pub staging_target_path : String
  pub volume_capability : Option VolumeCapability

pub record UnstageRequest : Type 0 where
  pub volume_id : String
  pub staging_target_path : String

pub record PublishRequest : Type 0 where
  pub volume_id : String
  pub volume_context : Table String
  pub publish_context : Table String
  pub staging_target_path : String
  pub target_path : String
  pub readonly : Bool
  pub volume_capability : Option VolumeCapability

pub record StatsRequest : Type 0 where
  pub volume_id : String
  pub volume_path : String
  pub staging_target_path : String

pub record ExpandRequest : Type 0 where
  pub volume_id : String
  pub volume_path : String
  pub volume_capability : Option VolumeCapability
  pub secrets : Table String

-- A status that tells of an error, with the text before it; a panic stays one.
abbrev pub internally : String → DiskError → Failure
internally before (crashed text) = panic text
internally before e = status internal (before <> disk_text e)

-- An error for which `os.IsNotExist` holds is `NotFound` with the first text.
abbrev pub found_or : (missing before : String) → DiskError → Failure
found_or missing before (not_exist _) = status not_found missing
found_or missing before (failed text) = status internal (before <> text)
found_or missing before (crashed text) = panic text
found_or missing before (exited code text) = status internal (before <> text)

-- The flag of the volume context; a value that is no boolean panics.
unfoldable pub is_encrypted_volume : Table String → Result Failure Bool
is_encrypted_volume context = elim (lookup encrypted_key context) [
  | none ↦ ok false
  | some value ↦ elim (parse_bool value) [
    | some b ↦ ok b
    | none ↦ err (panic (parse_bool_text value))
  ]
]

-- A capability that has to be given.
unfoldable pub given_capability : Option VolumeCapability → Result Failure VolumeCapability
given_capability none = err (status invalid_argument "volumeCapability not provided")
given_capability (some c) = elim (validate_volume_capabilities (some (some c ∷ []))) [
  | ok _ ↦ ok c
  | err e ↦ err (status invalid_argument ("volumeCapability not supported: " <> error_text e))
]
