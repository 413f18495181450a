-- ===== src/AtomicFile/Keeping.antt =====
-- Directories that lose no file: what every operation of internal/atomicfile/atomicfile.go and of
-- the store, but a deletion, makes of a directory.
use peertopeer.Prelude.{◌≡◌, some}
use peertopeer.Prelude.Text.{Bytes}
use peertopeer.Prelude.Dict.{lookup}
use peertopeer.AtomicFile.{Dir}

-- The second directory has all that the first one has.
pub record Keeps (d d' : Dir) : Type 0 where
  pub at_name : (k v : Bytes) → lookup k d ≡ some v → lookup k d' ≡ some v

pub Keeps-refl : (d : Dir) → Keeps d d
Keeps-refl d = record { at_name = λ k v h. h }

pub Keeps-trans : {d₁ d₂ d₃ : Dir} → Keeps d₁ d₂ → Keeps d₂ d₃ → Keeps d₁ d₃
Keeps-trans a b = record { at_name = λ k v h. b.at_name k v (a.at_name k v h) }
