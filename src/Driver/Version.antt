-- ===== src/Driver/Version.antt =====
-- driver/version.go: the version of the driver, and its text in JSON.
use Prim.Native.Char.{Char, code}
use Prim.Native.String.{[] as empty, ◌∷◌ as ◌∷ˢ◌}
use Prim.Native.Nat.{ℕ, ◌/◌, ◌%◌, zero, suc}
use scaleway_csi.Base.{String, ◌<>◌, ◌||◌, ltb, ◌==◌, if◌then◌else◌, [], ◌∷◌, Result, ok}
use scaleway_csi.Base.Text.{join}

-- What the build sets by the flags of the linker.
pub record Build : Type 0 where
  pub driver_version : String
  pub git_commit : String
  pub build_date : String

-- What the package `runtime` says of the program.
pub record Runtime : Type 0 where
  pub version : String
  pub compiler : String
  pub goos : String
  pub goarch : String

pub record VersionInfo : Type 0 where
  pub driver_version : String
  pub git_commit : String
  pub build_date : String
  pub go_version : String
  pub compiler : String
  pub platform : String

unfoldable pub get_version : Build → Runtime → VersionInfo
get_version build go = record {
  driver_version = build.driver_version;
  git_commit = build.git_commit;
  build_date = build.build_date;
  go_version = go.version;
  compiler = go.compiler;
  platform = go.goos <> ("/" <> go.goarch);
}

-- `fmt.Printf("%+v", info)`
unfoldable pub version_text : VersionInfo → String
version_text info =
    "{DriverVersion:"
    <> (info.driver_version
        <> (" GitCommit:"
            <> (info.git_commit
                <> (" BuildDate:"
                    <> (info.build_date
                        <> (" GoVersion:"
                            <> (info.go_version
                                <> (" Compiler:"
                                    <> (info.compiler
                                        <> (" Platform:" <> (info.platform <> "}")))))))))))

-- A digit of base 16, below 16.
abbrev pub hex_digit : ℕ → Char
hex_digit zero = "0"
hex_digit (suc zero) = "1"
hex_digit (suc (suc zero)) = "2"
hex_digit (suc (suc (suc zero))) = "3"
hex_digit (suc (suc (suc (suc zero)))) = "4"
hex_digit (suc (suc (suc (suc (suc zero))))) = "5"
hex_digit (suc (suc (suc (suc (suc (suc zero)))))) = "6"
hex_digit (suc (suc (suc (suc (suc (suc (suc zero))))))) = "7"
hex_digit (suc (suc (suc (suc (suc (suc (suc (suc zero)))))))) = "8"
hex_digit (suc (suc (suc (suc (suc (suc (suc (suc (suc zero))))))))) = "9"
hex_digit (suc (suc (suc (suc (suc (suc (suc (suc (suc (suc zero)))))))))) = "a"
hex_digit (suc (suc (suc (suc (suc (suc (suc (suc (suc (suc (suc zero))))))))))) = "b"
hex_digit (suc (suc (suc (suc (suc (suc (suc (suc (suc (suc (suc (suc zero)))))))))))) = "c"
hex_digit (suc (suc (suc (suc (suc (suc (suc (suc (suc (suc (suc (suc (suc zero))))))))))))) = "d"
hex_digit (suc (suc (suc (suc (suc (suc (suc (suc (suc (suc (suc (suc (suc (suc zero)))))))))))))) =
    "e"
hex_digit _ = "f"

-- Four digits of base 16 before a text.
abbrev hex4 : ℕ → String → String
hex4 n s =
    hex_digit (n / 4096 % 16)
    ∷ˢ (hex_digit (n / 256 % 16) ∷ˢ (hex_digit (n / 16 % 16) ∷ˢ (hex_digit (n % 16) ∷ˢ s)))

-- One character as `encoding/json` writes it, before a text. Those that end a text, that control a
-- terminal, and that HTML and JavaScript read are escaped.
unfoldable pub json_char : Char → String → String
json_char c s =
    if code c == b'"' || code c == b'\\'
    then "\\" ∷ˢ (c ∷ˢ s)
    else if code c == 10
    then "\\" ∷ˢ ("n" ∷ˢ s)
    else if code c == 13
    then "\\" ∷ˢ ("r" ∷ˢ s)
    else if code c == 9
    then "\\" ∷ˢ ("t" ∷ˢ s)
    else if ltb (code c) 32
        || code c == b'<'
        || code c == b'>'
        || code c == b'&'
        || code c == 0x2028
        || code c == 0x2029
    then "\\" ∷ˢ ("u" ∷ˢ hex4 (code c) s)
    else c ∷ˢ s

-- A text, before what follows it.
unfoldable pub json_text : String → String → String
json_text empty s = s
json_text (c ∷ˢ t) s = json_char c (json_text t s)

abbrev json_field : (name value : String) → String
json_field name value = "  \"" <> (name <> ("\": \"" <> json_text value "\""))

-- `json.MarshalIndent(&info, "", "  ")`, which does not fail on a struct of texts.
unfoldable pub get_version_json : Build → Runtime → Result String String
unfolding get_version
get_version_json build go =
    let info = get_version build go in
    ok (
      "{\n"
      <> (join
            (json_field "driverVersion" info.driver_version
              ∷ json_field "gitCommit" info.git_commit
              ∷ json_field "buildDate" info.build_date
              ∷ json_field "goVersion" info.go_version
              ∷ json_field "compiler" info.compiler
              ∷ json_field "platform" info.platform
              ∷ [])
            ",\n"
          <> "\n}"))
