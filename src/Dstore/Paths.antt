-- ===== src/Dstore/Paths.antt =====
-- `AddPath` and `RestoreDirectory` of internal/dstore/paths.go: a tree is added to a library of
-- manifests, and a tree of manifests is restored. The paths are those that `filepath.Abs` and
-- `filepath.EvalSymlinks` return.
pub mod Laws
use peertopeer.Prelude.{
  ℕ, Bool, true, false, ◌||◌, not, if◌then◌else◌, Option, none, some, List, [], ◌∷◌, ◌++◌,
}
use peertopeer.Prelude.{Error, Result, ok, err, failed}
use peertopeer.Prelude.Text.{Bytes, has_suffix}
use peertopeer.Prelude.Split.{trim_suffix}
use peertopeer.FilePath.{join_path, rel, path_within}
use peertopeer.Manifest.Path.{base}
use peertopeer.AtomicFile.{Dir}
use peertopeer.Digest.{Sha256}
use peertopeer.Erasure.{ReedSolomon}
use peertopeer.CryptoFile.{Aead}
use peertopeer.Manifest.{Manifest, Json}
use peertopeer.Dstore.Placement.{Mesh}
use peertopeer.Dstore.Transfer.{Net}
use peertopeer.Dstore.Process.{Config, Inputs, Run}
use peertopeer.Dstore.Pipeline.{process_file, stub_extension}
use peertopeer.Dstore.Restore.{RestoreInputs, restore_file}
use peertopeer.Dstore.Walk.{
  FileInfo, Tree, file, folder, unreadable, Visit, at_file, at_folder, at_error, Verdict, proceed,
  stop, walk_dir,
}

-- What a walk over a tree meets, apart from the runs of the files: where the context has ended and
-- where a directory cannot be made.
pub record Surroundings : Type 0 where
  pub cancelled : Bytes → Visit → Bool
  pub mkdir_fails : Bytes → Bool

pub record ProcessResult : Type 0 where
  pub original_path : Bytes
  pub stub_path : Bytes
  pub manifest : Manifest

pub record Added (W : Type 0) : Type 0 where
  pub run : Run W
  pub files : Dir
  pub results : List ProcessResult

abbrev pub is_dir : Tree → Bool
is_dir (file _) = false
is_dir (folder _) = true
is_dir (unreadable _) = true

module _ {S : Type 0} (y : Surroundings) (root target : Bytes)
    (at : Bytes → Bytes → FileInfo → S → Verdict × S) where
  -- What both callbacks begin with: the error, the end of the context, the relative path, and the
  -- making of a directory. `at` has the path of a file and its relative path.
  unfoldable pub visit_entry : Visit → Bytes → Option Bytes → S → Verdict × S
  visit_entry (at_error e) path r s = (stop e, s)
  visit_entry v path none s = (stop (failed (if y.cancelled path v then "context" else "rel")), s)
  visit_entry at_folder path (some r) s =
      if y.cancelled path at_folder
      then (stop (failed "context"), s)
      else if y.mkdir_fails (join_path target r)
      then (stop (failed "mkdir"), s)
      else (proceed, s)
  visit_entry (at_file info) path (some r) s =
      if y.cancelled path (at_file info) then (stop (failed "context"), s) else at path r info s

  unfoldable pub visit : Bytes → Bytes → Visit → S → Verdict × S
  visit path name v s = visit_entry v path (rel root path) s

module _ (sha : Sha256) (c : Config) {W : Type 0} (net : Net W) (a : Aead) (rs : ReedSolomon)
    (json : Json) (inputs : Bytes → Inputs) (mesh : Bytes → Mesh) (y : Surroundings) where
  abbrev pub keeping : Config
  keeping = record c { keep_original = true }

  unfoldable pub added :
      Bytes → Bytes → Added W → Result Manifest × Run W × Dir → Option Error × Added W
  added path stub s (err e, run, files) = (some e, record s { run = run; files = files })
  added path stub s (ok m, run, files) = (
    none,
    record {
      run = run;
      files = files;
      results = s.results ++ record { original_path = path; stub_path = stub; manifest = m } ∷ [];
    },
  )

  -- `processFile` with the original kept.
  unfoldable pub add_file : Bytes → Bytes → Added W → Option Error × Added W
  add_file path stub s =
      added path stub s
        (process_file sha keeping net a rs (inputs path) json (mesh path) path stub s.run s.files)

  abbrev pub as_verdict : Option Error → Verdict
  as_verdict none = proceed
  as_verdict (some e) = stop e

  unfoldable pub add_entry : Bytes → Bytes → Bytes → FileInfo → Added W → Verdict × Added W
  add_entry target path r info s =
      if not info.regular
      then (stop (failed "unsupported entry"), s)
      else (let (e, s') = add_file path (join_path target r ++ stub_extension) s in
          (as_verdict e, s'))

  -- The part of `AddPath` for a directory, whose target must be new.
  unfoldable pub add_tree : Bytes → Bytes → Bytes → Tree → Added W → Option Error × Added W
  add_tree source name target tree s =
      if y.mkdir_fails target
      then (some (failed "create new manifest directory"), s)
      else walk_dir (visit y source target (add_entry target)) source name (ok tree) s

  -- `AddPath`, for the paths that the system calls have resolved.
  unfoldable pub add_resolved : Bytes → Bytes → Result Tree → Added W → Option Error × Added W
  add_resolved source library (err e) s = (
    some (
        if path_within source library || path_within library source
        then failed "source and manifest library must not overlap"
        else e),
    s,
  )
  add_resolved source library (ok tree) s =
      let target = join_path library (base source) in
      if path_within source library || path_within library source
      then (some (failed "source and manifest library must not overlap"), s)
      else if not (is_dir tree)
      then add_file source (target ++ stub_extension) s
      else add_tree source (base source) target tree s

  -- `AddPath`.
  unfoldable pub add_path :
      Result Bytes → Result Bytes → Result Tree → Run W → Dir → Option Error × Added W
  add_path source library tree run files =
      let s : Added W = record { run = run; files = files; results = [] } in
      elim source [
        | err e ↦ (some e, s)
        | ok source ↦ elim library [
          | err e ↦ (some e, s)
          | ok library ↦ add_resolved source library tree s
        ]
      ]

pub record Restored : Type 0 where
  pub files : Dir
  pub restored : List Bytes

module _ (sha : Sha256) {W : Type 0} (net : Net W) (a : Aead) (rs : ReedSolomon) (json : Json)
    (x : Bytes → RestoreInputs) (world : Bytes → W) (allow_local : Bool) (d : Dir)
    (y : Surroundings) where
  abbrev pub restored_one : Restored → Result Bytes × Dir → Verdict × Restored
  restored_one s (err e, files) = (stop e, record s { files = files })
  restored_one s (ok out, files) =
      (proceed, record { files = files; restored = s.restored ++ out ∷ [] })

  unfoldable pub restore_entry : Bytes → Bytes → Bytes → FileInfo → Restored → Verdict × Restored
  restore_entry output path r info s =
      if not info.regular
      then (stop (failed "unsupported manifest entry"), s)
      else if not (has_suffix path stub_extension)
      then (proceed, s)
      else restored_one s (
          restore_file sha net a rs (x path) allow_local d json path
            (join_path output (trim_suffix r stub_extension)) (world path) s.files)

  -- `RestoreDirectory`, whose output must be new.
  unfoldable pub restore_directory : Bytes → Bytes → Result Tree → Dir → Option Error × Restored
  restore_directory source output (err e) files = (
    some (
        if path_within source output || path_within output source
        then failed "restore source and output must not overlap"
        else e),
    record { files = files; restored = [] },
  )
  restore_directory source output (ok tree) files =
      let s : Restored = record { files = files; restored = [] } in
      if path_within source output || path_within output source
      then (some (failed "restore source and output must not overlap"), s)
      else if not (is_dir tree)
      then (some (failed "restore source must be a directory"), s)
      else if y.mkdir_fails output
      then (some (failed "restore output must be a new directory"), s)
      else walk_dir (visit y source output (restore_entry output)) source (base source) (ok tree) s
