-- ===== src/Manifest/Path.antt =====
-- The test of a manifest's file name, and what it uses of path/filepath.
use peertopeer.Prelude.{Bool, ◌||◌, not, [], ◌∷◌}
use peertopeer.Prelude.{◌==◌, if◌then◌else◌}
use peertopeer.Prelude.Text.{Bytes, text, equal, is_empty, contains_any}
use mathlib.Core.List.{reverse}

-- The last element of a path that is read backwards: up to the first slash.
unfoldable pub to_slash : Bytes → Bytes
to_slash [] = []
to_slash (c ∷ s) = let rest = to_slash s in if c == b'/' then [] else c ∷ rest

unfoldable pub drop_slashes : Bytes → Bytes
drop_slashes [] = []
drop_slashes (c ∷ s) = let rest = drop_slashes s in if c == b'/' then rest else c ∷ s

-- `filepath.Base`.
unfoldable pub base : Bytes → Bytes
unfolding to_slash drop_slashes
base [] = text "."
base (c ∷ s) =
    let name = reverse (to_slash (drop_slashes (reverse (c ∷ s)))) in
    if is_empty name then text "/" else name

-- Slash, backslash and the zero byte.
abbrev pub separators : Bytes
separators = b'/' ∷ b'\\' ∷ 0 ∷ []

-- The file name that `Unmarshal` takes: one name within a directory.
unfoldable pub valid_file_name : Bytes → Bool
unfolding base contains_any equal
valid_file_name name = not (
    is_empty name
    || equal name (text ".")
    || equal name (text "..")
    || not (equal (base name) name)
    || contains_any name separators)
