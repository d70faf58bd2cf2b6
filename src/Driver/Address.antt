-- ===== src/Driver/Address.antt =====
-- driver/driver.go: the address of the socket, with `path.Join` and `filepath.Dir` as `Run` uses
-- them. On the systems that the driver runs on `filepath.FromSlash` changes nothing.
use Prim.Native.Char.{code}
use Prim.Native.String.{[] as empty, ◌∷◌ as ◌∷ˢ◌}
use scaleway_csi.Base.{
  String, ◌<>◌, Bool, true, false, List, [], ◌∷◌, ◌++◌, ◌==◌, if◌then◌else◌, not, ◌&&◌,
}
use scaleway_csi.Base.Text.{same_text, split, join}

abbrev pub is_rooted : String → Bool
is_rooted empty = false
is_rooted (c ∷ˢ s) = code c == b'/'

-- A step to the parent behind the parts that are kept: a path that is not rooted keeps the steps
-- that lead above its start.
abbrev pub up : (rooted : Bool) → List String → List String
up true [] = []
up false [] = ".." ∷ []
up rooted (p ∷ []) = if not rooted && same_text p ".." then p ∷ ".." ∷ [] else []
up rooted (p ∷ q ∷ ps) = p ∷ up rooted (q ∷ ps)

-- The parts of a path, behind those that are kept so far.
unfoldable pub cleaned_parts : (rooted : Bool) → (kept parts : List String) → List String
cleaned_parts rooted kept [] = kept
cleaned_parts rooted kept (p ∷ ps) =
    if same_text p ""
    then cleaned_parts rooted kept ps
    else if same_text p "."
    then cleaned_parts rooted kept ps
    else if same_text p ".."
    then cleaned_parts rooted (up rooted kept) ps
    else cleaned_parts rooted (kept ++ p ∷ []) ps

abbrev written : (rooted : Bool) → List String → String
written true parts = "/" <> join parts "/"
written false [] = "."
written false (p ∷ ps) = join (p ∷ ps) "/"

-- `path.Clean`
unfoldable pub clean : String → String
unfolding cleaned_parts
clean path = written (is_rooted path) (cleaned_parts (is_rooted path) [] (split b'/' path))

-- `path.Join` of two elements: an empty one is left out.
unfoldable pub join_path : (host path : String) → String
unfolding clean
join_path host path =
    if same_text host ""
    then (if same_text path "" then "" else clean path)
    else if same_text path ""
    then clean host
    else clean (host <> ("/" <> path))

-- The parts of a path but the last.
abbrev pub without_base : List String → List String
without_base [] = []
without_base (p ∷ []) = []
without_base (p ∷ q ∷ ps) = p ∷ without_base (q ∷ ps)

-- `filepath.Dir`: the path up to its last slash, cleaned.
unfoldable pub dir : String → String
unfolding cleaned_parts
dir path =
    written (is_rooted path) (cleaned_parts (is_rooted path) [] (without_base (split b'/' path)))
