-- ===== src/Disk/Luks.antt =====
-- driver/luks_utils.go: the calls of cryptsetup.
use scaleway_csi.Base.{
  String, ◌<>◌, Bool, true, false, none, some, [], ◌∷◌, ◌==◌, if◌then◌else◌, Call, Result, ok, err,
}
use scaleway_csi.Disk.{DiskError, failed, exited, disk_text, Ran, Host}

abbrev pub cryptsetup_cmd : String
cryptsetup_cmd = "cryptsetup"

abbrev pub default_luks_hash : String
default_luks_hash = "sha256"

abbrev pub default_luks_cipher : String
default_luks_cipher = "aes-xts-plain64"

abbrev pub default_luks_key_size : String
default_luks_key_size = "256"

-- `cmd.Run()`
abbrev pub ended {ℓ} : {W : Type ℓ} → Ran × W → Result DiskError (Unit {0}) × W
ended (ran, w) = elim (ran.failure) [ none ↦ (ok tt, w) | some e ↦ (err e, w) ]

abbrev pub with_stdout {ℓ} : {W : Type ℓ} → Ran × W → Result DiskError String × W
with_stdout (ran, w) = elim (ran.failure) [ none ↦ (ok ran.stdout, w) | some e ↦ (err e, w) ]

-- The error of `luksResize`, with what the command wrote.
abbrev with_output {ℓ} : {W : Type ℓ} → Ran × W → Result DiskError (Unit {0}) × W
with_output (ran, w) = elim (ran.failure) [
  | none ↦ (ok tt, w)
  | some e ↦ (
    err (
        failed (
          "luks resize failed: "
          <> (disk_text e <> (", stdout: " <> (ran.stdout <> (", stderr: " <> ran.stderr)))))),
    w,
  )
]

-- The exit code 1 says that the device has no LUKS header.
abbrev is_luks_of : DiskError → Result DiskError Bool
is_luks_of (exited code text) = if code == 1 then ok false else err (exited code text)
is_luks_of e = err e

abbrev pub answered {ℓ} : {W : Type ℓ} → Ran × W → Result DiskError Bool × W
answered (ran, w) = elim (ran.failure) [ none ↦ (ok true, w) | some e ↦ (is_luks_of e, w) ]

module _ (host : Host) where
  open host use {State, run}

  unfoldable pub luks_format : (device passphrase : String) → Call State DiskError (Unit {0})
  luks_format device passphrase w = ended (
      run cryptsetup_cmd
        ("-q" ∷ "luksFormat" ∷ "--hash" ∷ default_luks_hash ∷ "--cipher" ∷ default_luks_cipher
          ∷ "--key-size" ∷ default_luks_key_size ∷ device ∷ "--key-file" ∷ "/dev/stdin" ∷ [])
        (some passphrase) w)

  unfoldable pub luks_open : (device mapper passphrase : String) → Call State DiskError (Unit {0})
  luks_open device mapper passphrase w = ended (
      run cryptsetup_cmd ("luksOpen" ∷ device ∷ mapper ∷ "--key-file" ∷ "/dev/stdin" ∷ [])
        (some passphrase) w)

  unfoldable pub luks_close : (mapper : String) → Call State DiskError (Unit {0})
  luks_close mapper w = ended (run cryptsetup_cmd ("luksClose" ∷ mapper ∷ []) none w)

  unfoldable pub luks_resize : (mapper passphrase : String) → Call State DiskError (Unit {0})
  luks_resize mapper passphrase w = with_output (
      run cryptsetup_cmd ("resize" ∷ mapper ∷ "--key-file" ∷ "/dev/stdin" ∷ []) (some passphrase) w)

  unfoldable pub luks_status : (mapper : String) → Call State DiskError String
  luks_status mapper w = with_stdout (run cryptsetup_cmd ("status" ∷ mapper ∷ []) none w)

  unfoldable pub luks_is_luks : (device : String) → Call State DiskError Bool
  luks_is_luks device w = answered (run cryptsetup_cmd ("isLuks" ∷ device ∷ []) none w)
