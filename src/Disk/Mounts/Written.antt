-- ===== src/Disk/Mounts/Written.antt =====
-- The mount table as the kernel writes it, and that `GetMountInfo` reads it back. A line is
--   id parent major:minor root point options optional... - type source supers
use scaleway_csi.Base.{
  ℕ, ◌<◌, ◌^◌, String, ◌<>◌, ◌≡◌, Option, none, some, false, List, [], ◌∷◌, ◌++◌, All,
  if◌then◌else◌, ◌==◌,
}
use Prim.Native.Char.{code}
use scaleway_csi.Base.Int.{pos}
use scaleway_csi.Base.Text.{same_text, split, join}
use scaleway_csi.Base.Words.{IsWord}
use scaleway_csi.Base.Decimal.{itoa}
use scaleway_csi.Disk.{MountInfo}

-- A mount, as the kernel tells it.
pub record Mount : Type 0 where
  pub id : ℕ
  pub parent : ℕ
  pub major_minor : String
  pub root : String
  pub point : String
  pub options : String
  pub optional : List String
  pub fs_type : String
  pub source : String
  pub supers : String

-- A path as the kernel writes it: white space and backslashes as octal codes.
unfoldable pub escaped : String → String
escaped String.[] = ""
escaped (String.◌∷◌ c path) =
    let rest = escaped path in
    if code c == b' '
    then "\\040" <> rest
    else if code c == b'\t'
    then "\\011" <> rest
    else if code c == b'\n'
    then "\\012" <> rest
    else if code c == b'\\'
    then "\\134" <> rest
    else String.◌∷◌ c rest

abbrev pub tail_of : Mount → List String
tail_of m = m.optional ++ "-" ∷ m.fs_type ∷ m.source ∷ m.supers ∷ []

abbrev pub words_of : Mount → List String
words_of m = itoa m.id ∷ itoa m.parent ∷ m.major_minor ∷ m.root ∷ m.point ∷ m.options ∷ tail_of m

unfoldable pub line_of : Mount → String
line_of m = join (words_of m) " "

-- The table: each line ends with a newline.
unfoldable pub table_of : List Mount → String
table_of [] = ""
table_of (m ∷ ms) = line_of m <> ("\n" <> table_of ms)

-- An optional field is a word that is not the dash which ends the optional fields.
abbrev pub IsTag : String → Type 0
IsTag s = IsWord s × (same_text s "-" ≡ false)

-- What the kernel writes: the numbers fit, and no field is empty or holds white space.
pub record IsWritten (m : Mount) : Type 0 where
  pub id_fits : m.id < 2 ^ 63
  pub parent_fits : m.parent < 2 ^ 63
  pub major_minor_word : IsWord m.major_minor
  pub root_word : IsWord m.root
  pub point_word : IsWord m.point
  pub options_word : IsWord m.options
  pub optional_tags : All IsTag m.optional
  pub fs_type_word : IsWord m.fs_type
  pub source_word : IsWord m.source
  pub supers_word : IsWord m.supers

-- The mount information of a mount: its own fields, the options as lists.
abbrev pub info_of : Mount → MountInfo
info_of m = record {
  id = pos m.id;
  parent_id = pos m.parent;
  major_minor = m.major_minor;
  root = m.root;
  source = m.source;
  mount_point = m.point;
  optional_fields = m.optional;
  fs_type = m.fs_type;
  mount_options = split b',' m.options;
  super_options = split b',' m.supers;
}

-- The first mount on a target.
abbrev pub first_on : String → List Mount → Option MountInfo
first_on target [] = none
first_on target (m ∷ ms) = if same_text m.point target then some (info_of m) else first_on target ms
