-- ===== src/Dstore/Directory.antt =====
-- `ProcessDirectory` and `Watch` of internal/dstore/dstore.go: the files of the origin directory go
-- through the pipeline, one after the other, and a watch goes over the directory again and again.
pub mod Laws
pub mod Steady
use peertopeer.Prelude.{ℕ, Bool, true, false, ◌&&◌, ◌||◌, not, ◌==◌, if◌then◌else◌}
use peertopeer.Prelude.{Option, none, some, List, [], ◌∷◌, ◌++◌, is_nil}
use peertopeer.Prelude.{Error, Result, ok, err, failed}
use peertopeer.Prelude.Text.{Bytes, text, equal, is_empty, has_prefix, has_suffix}
use peertopeer.Prelude.Dict.{Dict, lookup}
use peertopeer.AtomicFile.{Dir, exists}
use peertopeer.Digest.{Sha256}
use peertopeer.Erasure.{ReedSolomon}
use peertopeer.CryptoFile.{Aead}
use peertopeer.Manifest.{Manifest, Json}
use peertopeer.Dstore.Placement.{Mesh}
use peertopeer.Dstore.Transfer.{Net}
use peertopeer.Dstore.Process.{Config, Inputs, Run}
use peertopeer.Dstore.Pipeline.{process_file, stub_extension}
use peertopeer.Dstore.Walk.{
  FileInfo, Tree, Visit, at_file, at_folder, at_error, Verdict, proceed, skip, stop, walk_dir,
}

-- What a scan meets: where the context has ended and where the system calls fail, and what the run of
-- each file meets.
pub record Around : Type 0 where
  pub cancelled : Bytes → Visit → Bool
  pub info_fails : Bytes → Bool
  pub lstat_fails : Bytes → Bool
  pub inputs : Bytes → Inputs
  pub mesh : Bytes → Mesh

-- The state of a scan: that of the pipeline and the files, with the results, the failures and the
-- files that were observed so far; the last observation of a file is the first one in the list.
pub record Scan (W : Type 0) : Type 0 where
  pub run : Run W
  pub files : Dir
  pub results : List (Bytes × Manifest)
  pub failures : List Error
  pub observed : Dict FileInfo

-- The comparison of a file with what the last scan observed of it.
unfoldable pub same_file : FileInfo → FileInfo → Bool
same_file old info =
    (old.id == info.id) && (old.size == info.size) && (old.mod_time == info.mod_time)

abbrev pub unchanged : Option FileInfo → FileInfo → Bool
unchanged none info = false
unchanged (some old) info = same_file old info

-- The result of one file's run.
abbrev pub add_result : {W : Type 0} → Bytes → Scan W → Result Manifest × Run W × Dir → Scan W
add_result path s (err e, run, files) = record s {
  run = run;
  files = files;
  failures = s.failures ++ e ∷ [];
}
add_result path s (ok m, run, files) = record s {
  run = run;
  files = files;
  results = s.results ++ (path, m) ∷ [];
}

module _ (sha : Sha256) (c : Config) {W : Type 0} (net : Net W) (a : Aead) (rs : ReedSolomon)
    (json : Json) (x : Around) (origin : Bytes) where
  -- `ProcessFileWithConfig`, in a scan.
  unfoldable pub process_path : Bytes → Scan W → Scan W
  process_path path s = add_result path s (
      process_file sha c net a rs (x.inputs path) json (x.mesh path) path (path ++ stub_extension)
        s.run s.files)

  -- `cfg.ready` of a watch: the file is observed, and ready if the last scan observed the same. There
  -- is none in a scan that is no watch's.
  unfoldable pub when_ready : Option (Dict FileInfo) → Bytes → FileInfo → Scan W → Scan W
  when_ready none path info s = process_path path s
  when_ready (some previous) path info s =
      let s' : Scan W = record s { observed = (path, info) ∷ s.observed } in
      if unchanged (lookup path previous) info then process_path path s' else s'

  abbrev pub hidden : Bytes → Bytes → Bool
  hidden path name = not (equal path origin) && has_prefix name (text ".")

  -- What the callback does with a file.
  unfoldable pub visit_file :
      Option (Dict FileInfo) → Bytes → Bytes → FileInfo → Scan W → Verdict × Scan W
  visit_file previous path name info s =
      if hidden path name || has_suffix name stub_extension
      then (proceed, s)
      else if x.info_fails path
      then (stop (failed "stat"), s)
      else if not info.regular
      then (proceed, s)
      else if exists (path ++ stub_extension) s.files
      then (proceed, s)
      else if x.lstat_fails path
      then (stop (failed "lstat"), s)
      else (proceed, when_ready previous path info s)

  -- The callback.
  unfoldable pub visit : Option (Dict FileInfo) → Bytes → Bytes → Visit → Scan W → Verdict × Scan W
  visit previous path name v s =
      if x.cancelled path v then (stop (failed "context"), s) else elim v [
        | at_error e ↦ (stop e, s)
        | at_folder ↦ (if hidden path name then skip else proceed, s)
        | at_file info ↦ visit_file previous path name info s
      ]

  abbrev pub fresh : Run W → Dir → Scan W
  fresh run files = record { run = run; files = files; results = []; failures = []; observed = [] }

  -- What ends a scan is one more failure.
  abbrev pub closed : Option Error × Scan W → Scan W
  closed (none, s) = s
  closed (some e, s) = record s { failures = s.failures ++ e ∷ [] }

  -- `ProcessDirectory`; `name` is the last element of the path of the origin directory.
  unfoldable pub process_directory :
      Option (Dict FileInfo) → Bytes → Result Tree → Run W → Dir → Scan W
  process_directory previous name tree run files =
      if is_empty origin
      then record (fresh run files) { failures = failed "origin directory is required" ∷ [] }
      else closed (walk_dir (visit previous) origin name tree (fresh run files))

-- One round of a watch: whether the context has ended before it and after its scan, what others did to
-- the files before it, the tree, and what the scan meets.
pub record Round : Type 0 where
  pub ended_before : Bool
  pub ended_after : Bool
  pub change : Dir → Dir
  pub tree : Result Tree
  pub around : Around

-- What a round tells its caller, and what it observed.
pub record Report : Type 0 where
  pub processed : List (Bytes × Manifest)
  pub errors : List Error
  pub observed : Dict FileInfo

module _ (sha : Sha256) (c : Config) {W : Type 0} (net : Net W) (a : Aead) (rs : ReedSolomon)
    (json : Json) (is_not_exist : Error → Bool) (origin name : Bytes) where
  -- `errors.Is` of the joined failures; the errors of the model do not keep their causes.
  abbrev pub any_not_exist : List Error → Bool
  any_not_exist [] = false
  any_not_exist (e ∷ es) = is_not_exist e || any_not_exist es

  abbrev pub pending : List Error → Bool
  pending es = not (is_nil es) && not (any_not_exist es)

  abbrev pub report : Scan W → Report
  report s = record {
    processed = s.results;
    errors = if pending s.failures then s.failures else [];
    observed = s.observed;
  }

  -- The loop of `Watch`, for as many rounds as the context lives: the reports, the state and the files.
  -- A round whose scan has failed when the context ends does not report.
  unfoldable pub watch : Dict FileInfo → List Round → Run W → Dir → List Report × Run W × Dir
  watch previous [] run files = ([], run, files)
  watch previous (round ∷ rounds) run files =
      let s =
        process_directory sha c net a rs json round.around origin (some previous) name round.tree
          run (round.change files) in
      let (reports, run', files') = watch s.observed rounds s.run s.files in
      if round.ended_before
      then ([], run, files)
      else if pending s.failures && round.ended_after
      then ([], s.run, s.files)
      else if round.ended_after
      then (report s ∷ [], s.run, s.files)
      else (report s ∷ reports, run', files')
