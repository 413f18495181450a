-- ===== src/NodeConfig/RoundTrip.antt =====
-- A configuration that was saved is read back.
use peertopeer.Prelude.{
  arith, ◌∙◌, Result-cases, ◌≡◌, refl, true, false, Bool-cases, ◌⊎◌, inl, inr, some, ◌∷◌, [], ◌++◌,
  Result, Status, ok, err, ◌>>◌,
}
use peertopeer.Prelude.Text.{Bytes}
use peertopeer.Prelude.Dict.{lookup}
use peertopeer.AtomicFile.{Dir, Faults, write_new}
use peertopeer.AtomicFile.Publish.{Attempted-found, write_new-Attempted}
use peertopeer.FilePath.{dir, is_abs, join_path}
use peertopeer.NodeConfig.{
  Config, Json, single, absolute, anchor, anchored, validate, load, save_new,
}

-- What a save that succeeds leaves: the text of the configuration, under its name.
save_new-found :
    (json : Json) (f : Faults) (tmp path : Bytes) (c : Config) (files : Dir)
    → (save_new json f tmp path c files).0 ≡ ok tt
    → lookup path (save_new json f tmp path c files).1 ≡ some (json.marshal_indent c ++ 10 ∷ [])
unfolding save_new
save_new-found json f tmp path c files h = go (validate c) h
  where
    s : Bytes
    s = json.marshal_indent c ++ 10 ∷ []

    go :
        (r : Status)
        → let o : Status × Dir = elim r [
          | err e ↦ (err e, files)
          | ok _ ↦ write_new f tmp path s files
        ] in
          o.0 ≡ ok tt → lookup path o.1 ≡ some s
    go (err e) k = cc
    go (ok _) k = (Attempted-found (write_new-Attempted f tmp path s files) k).0

-- Where a directory of the configuration is found: an absolute one as it is named, a relative one
-- beside the file; one without a name stays so.
abbrev pub IsBeside : Bytes → Bytes → Bytes → Type 0
IsBeside base [] found = found ≡ []
IsBeside base (b ∷ path) found =
    ((is_abs (b ∷ path) ≡ true) × (found ≡ b ∷ path))
    ⊎ ((is_abs (b ∷ path) ≡ false) × (found ≡ join_path base (b ∷ path)))

-- The configuration but for its directories, which are found beside the file's own.
pub record Relocated (base : Bytes) (c found : Config) : Type 0 where
  pub same :
      record found {
        origin_dir = c.origin_dir;
        shard_dir = c.shard_dir;
        library_dir = c.library_dir;
      }
      ≡ c
  pub origin : IsBeside base c.origin_dir found.origin_dir
  pub shards : IsBeside base c.shard_dir found.shard_dir
  pub library : IsBeside base c.library_dir found.library_dir

anchor-IsBeside : (base path : Bytes) → IsBeside base path (anchor base path)
unfolding anchor
anchor-IsBeside base [] = refl
anchor-IsBeside base (b ∷ path) = elim (Bool-cases (is_abs (b ∷ path))) [
  | inl e ↦ inl (e, simp e refl)
  | inr e ↦ inr (e, simp e refl)
]

anchored-Relocated : (base : Bytes) (c : Config) → Relocated base c (anchored base c)
unfolding anchored
anchored-Relocated base c = record {
  same = refl;
  origin = anchor-IsBeside base c.origin_dir;
  shards = anchor-IsBeside base c.shard_dir;
  library = anchor-IsBeside base c.library_dir;
}

-- What is read back, as `load` computes it.
pub load_saved :
    (json : Json) (f : Faults) (tmp path : Bytes) (c : Config) (files : Dir)
    (working_dir : Result Bytes) (full : Bytes)
    → (save_new json f tmp path c files).0 ≡ ok tt
    → json.decode (json.marshal_indent c ++ 10 ∷ []) ≡ single c
    → absolute working_dir path ≡ ok full
    → load json working_dir path (save_new json f tmp path c files).1
      ≡ (validate (anchored (dir full) c) >> ok (anchored (dir full) c))
unfolding load
load_saved json f tmp path c files working_dir full saved law found =
    simp (save_new-found json f tmp path c files saved, law, found)

-- A configuration that was saved is read back with its directories found beside the file: an absolute
-- one as it is named, a relative one joined to the file's directory, all else as it was saved. `load`
-- returns it where it is valid, and else the error that `validate` has for it. The decoder is taken to
-- read back what was written, and the file's absolute path is found.
pub load-save_new :
    (json : Json) (f : Faults) (tmp path : Bytes) (c : Config) (files : Dir)
    (working_dir : Result Bytes) (full : Bytes)
    → (save_new json f tmp path c files).0 ≡ ok tt
    → json.decode (json.marshal_indent c ++ 10 ∷ []) ≡ single c
    → absolute working_dir path ≡ ok full
    → (found : Config) × Relocated (dir full) c found
      × (load json working_dir path (save_new json f tmp path c files).1
          ≡ (validate found >> ok found))
load-save_new json f tmp path c files working_dir full saved law found = (
  anchored (dir full) c,
  anchored-Relocated (dir full) c,
  load_saved json f tmp path c files working_dir full saved law found,
)

anchor-absolute : (base path : Bytes) → is_abs path ≡ true → anchor base path ≡ path
unfolding anchor
anchor-absolute base [] h = refl
anchor-absolute base (b ∷ path) h = simp h refl

-- The directories of the configuration are named by absolute paths.
pub record IsAnchored (c : Config) : Type 0 where
  pub origin : is_abs c.origin_dir ≡ true
  pub shards : is_abs c.shard_dir ≡ true
  pub library : is_abs c.library_dir ≡ true

anchored-IsAnchored : (base : Bytes) (c : Config) → IsAnchored c → anchored base c ≡ c
unfolding anchored
anchored-IsAnchored base c a =
    simp
      (
        anchor-absolute base c.origin_dir a.origin,
        anchor-absolute base c.shard_dir a.shards,
        anchor-absolute base c.library_dir a.library,
      )
      refl

save_new-valid :
    (json : Json) (f : Faults) (tmp path : Bytes) (c : Config) (files : Dir)
    → (save_new json f tmp path c files).0 ≡ ok tt
    → validate c ≡ ok tt
unfolding save_new
save_new-valid json f tmp path c files h = elim (Result-cases (validate c)) [
  | inl (_, good) ↦ good
  | inr (e, bad) ↦ ground arith
]

-- A configuration whose directories are absolute and that was saved is read back as it is. The decoder
-- is taken to read back what was written, and the file's absolute path is found.
pub load-save_new_same :
    (json : Json) (f : Faults) (tmp path : Bytes) (c : Config) (files : Dir)
    (working_dir : Result Bytes) (full : Bytes)
    → IsAnchored c
    → (save_new json f tmp path c files).0 ≡ ok tt
    → json.decode (json.marshal_indent c ++ 10 ∷ []) ≡ single c
    → absolute working_dir path ≡ ok full
    → load json working_dir path (save_new json f tmp path c files).1 ≡ ok c
load-save_new_same json f tmp path c files working_dir full a saved law found =
    load_saved json f tmp path c files working_dir full saved law found
    ∙ rw (anchored-IsAnchored (dir full) c a, save_new-valid json f tmp path c files saved) refl
