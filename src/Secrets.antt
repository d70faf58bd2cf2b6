-- ===== src/Secrets.antt =====
-- driver/helpers.go: `stripSecretFromReq`, which the handlers log their requests with.
pub mod Hidden
use scaleway_csi.Base.{
  ℕ, zero, suc, String, ◌<>◌, Bool, ◌&&◌, true, false, none, some, List, [], ◌∷◌, map, length,
  get_elem?, if◌then◌else◌, Result, ok, err,
}
use scaleway_csi.Base.Text.{same_text}
use scaleway_csi.Base.Table.{Table}

abbrev pub secrets_field : String
secrets_field = "Secrets"

-- A value as the package `reflect` gives it: a map of texts, or any other value, told by a text. The
-- fields of the messages are exported, and the only maps that they hold are maps of texts.
pub data Value : Type 0 where
  text_map : Table String → Value
  other_value : String → Value

pub record Field : Type 0 where
  pub name : String
  pub value : Value

pub data Reflected : Type 0 where
  structure : List Field → Reflected
  other_kind : Reflected

-- The keys of a map.
abbrev pub keys_of : Table String → List String
keys_of = map (λ entry. entry.0)

-- The space between two entries, and none behind the last.
abbrev between : ℕ → String
between zero = ""
between (suc n) = " "

abbrev pub before_rest : String → Result String String → Result String String
before_rest text (ok rest) = ok (text <> rest)
before_rest text (err e) = err e

abbrev pub in_brackets : Result String String → Result String String
in_brackets (ok text) = ok ("[" <> (text <> "]"))
in_brackets (err e) = err e

abbrev pub with_name : (name : String) → Result String String → Result String String
with_name name (ok text) = ok (name <> (":" <> text))
with_name name (err e) = err e

abbrev pub field_before :
    (left : ℕ) → Result String String → Result String String → Result String String
field_before left (ok text) rest = before_rest (text <> between left) rest
field_before left (err e) rest = err e

abbrev pub in_braces : Result String String → Result String String
in_braces (ok text) = ok ("{" <> (text <> "}"))
in_braces (err e) = err e

abbrev index_text : String
index_text = "index out of range"

-- `print` is `fmt.Sprintf("%+v", value)`. Each call of `MapKeys` visits the map in an order of its
-- own: `visit j keys` is the order of the call that the entry `j` is taken from. The error is the
-- panic of an index that is out of range.
module _ (print : Value → String) (visit : ℕ → List String → List String) where
  -- The loop over the entries of the secrets, with the number of entries that are left.
  unfoldable pub redacted_entries : List String → (left j : ℕ) → Result String String
  redacted_entries keys zero j = ok ""
  redacted_entries keys (suc left) j =
      let rest = redacted_entries keys left (suc j) in
      elim (get_elem? (visit j keys) j) [
        | none ↦ err index_text
        | some key ↦ before_rest (key <> (":<redacted>" <> between left)) rest
      ]

  -- What is printed of the value of a field.
  unfoldable pub value_to_print : (name : String) → Value → Result String String
  value_to_print name (text_map m) =
      if same_text name secrets_field
      then in_brackets (redacted_entries (keys_of m) (length (keys_of m)) 0)
      else ok (print (text_map m))
  value_to_print name (other_value text) = ok (print (other_value text))

  -- The loop over the fields.
  unfoldable pub printed_fields : List Field → Result String String
  printed_fields [] = ok ""
  printed_fields (f ∷ fs) =
      field_before (length fs) (with_name f.name (value_to_print f.name f.value))
        (printed_fields fs)

  unfoldable pub strip_secret_from_req : Reflected → Result String String
  strip_secret_from_req (structure fs) = in_braces (printed_fields fs)
  strip_secret_from_req other_kind = ok "{}"
