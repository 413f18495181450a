-- ===== src/FilePath.antt =====
-- What the program uses of the package path/filepath, on Unix, and the tests of containment:
-- `pathWithin` of internal/dstore/paths.go and `contains` of internal/nodeconfig/config.go.
pub mod Within
use peertopeer.Prelude.{Bool, true, false, ◌&&◌, ◌||◌, not, Option, none, some, ◌==◌, if◌then◌else◌}
use peertopeer.Prelude.{ℕ, List, [], ◌∷◌, ◌++◌, is_nil, length, take, drop, ◌-◌}
use peertopeer.Prelude.Text.{Bytes, text, equal, is_empty, has_prefix}
use peertopeer.Prelude.Split.{split, join}
use peertopeer.Manifest.Path.{to_slash}
use mathlib.Core.List.{reverse}

-- `filepath.IsAbs`.
unfoldable pub is_abs : Bytes → Bool
is_abs path = has_prefix path (text "/")

-- An element of a path, on those before it, the last one first: `..` takes the last one back, unless
-- there is none to take, and goes nowhere above the root.
unfoldable pub push_element : Bool → List Bytes → Bytes → List Bytes
push_element rooted [] element =
    if is_empty element || equal element (text ".") || (equal element (text "..") && rooted)
    then []
    else element ∷ []
push_element rooted (last ∷ before) element =
    if is_empty element || equal element (text ".")
    then last ∷ before
    else if not (equal element (text "..")) || equal last (text "..")
    then element ∷ last ∷ before
    else before

unfoldable pub push_elements : Bool → List Bytes → List Bytes → List Bytes
push_elements rooted before [] = before
push_elements rooted before (element ∷ elements) =
    push_elements rooted (push_element rooted before element) elements

-- The elements of the cleaned path.
unfoldable pub elements : Bytes → List Bytes
elements path = reverse (push_elements (is_abs path) [] (split b'/' path))

-- `filepath.Clean`.
unfoldable pub clean : Bytes → Bytes
clean path =
    if is_abs path
    then b'/' ∷ join b'/' (elements path)
    else if is_nil (elements path)
    then text "."
    else join b'/' (elements path)

-- `filepath.Join` of two elements.
unfoldable pub join_path : Bytes → Bytes → Bytes
join_path a b =
    if not (is_empty a) then clean (a ++ b'/' ∷ b) else if not (is_empty b) then clean b else []

-- `filepath.Dir`: what stands before the last slash, with the slash.
unfoldable pub dir : Bytes → Bytes
dir path = clean (take (length path - length (to_slash (reverse path))) path)

-- What two lists leave of each other after their common elements.
unfoldable pub strip : List Bytes → List Bytes → List Bytes × List Bytes
strip [] targ = ([], targ)
strip (b ∷ base) [] = (b ∷ base, [])
strip (b ∷ base) (t ∷ targ) =
    let rest = strip base targ in if equal b t then rest else (b ∷ base, t ∷ targ)

abbrev pub goes_up : List Bytes → Bool
goes_up [] = false
goes_up (element ∷ _) = equal element (text "..")

-- One `..` for each element.
abbrev pub ups : List Bytes → List Bytes
ups [] = []
ups (_ ∷ elements) = text ".." ∷ ups elements

-- The elements that a relative path goes down. The text of an empty relative path is a dot, which
-- `filepath.Rel` does not take away.
abbrev pub downs : Bool → List Bytes → List Bytes → List Bytes
downs rooted targ rest = if is_nil targ && not rooted then text "." ∷ [] else rest

-- What is left of two paths after their common elements, as a relative path. There is none from a
-- path that goes up where the other does not, and between an absolute path and another.
unfoldable pub rel_rest : Bool → Bool → List Bytes → List Bytes → List Bytes → Option Bytes
rel_rest base_abs targ_abs targ up down =
    if (base_abs && not targ_abs) || (not base_abs && targ_abs)
    then none
    else if is_nil up && is_nil down
    then some (text ".")
    else if goes_up up
    then none
    else some (join b'/' (ups up ++ downs targ_abs targ down))

-- `filepath.Rel`.
unfoldable pub rel : Bytes → Bytes → Option Bytes
rel base targ =
    let (up, down) = strip (elements base) (elements targ) in
    rel_rest (is_abs base) (is_abs targ) (elements targ) up down

-- Whether a relative path stays below its base.
unfoldable pub stays_below : Bytes → Bool
stays_below path = not (equal path (text "..")) && not (has_prefix path (text "../"))

abbrev pub below : Option Bytes → Bool
below none = false
below (some path) = stays_below path

-- `pathWithin`.
unfoldable pub path_within : Bytes → Bytes → Bool
path_within parent child = below (rel parent child)

-- `contains`.
unfoldable pub contains : Bytes → Bytes → Bool
contains parent child = path_within (clean parent) (clean child)
