-- ===== src/AtomicFile.antt =====
-- internal/atomicfile/atomicfile.go: a directory is a map from file names to contents, and each
-- system call may fail. Mode bits are not modelled.
pub mod Publish
pub mod Keeping
use peertopeer.Prelude.{
  ◌||◌, Bool, true, false, List, [], Option, none, some, ◌∷◌, ◌++◌, if◌then◌else◌,
}
use peertopeer.Prelude.{Result, Status, ok, err, failed}
use peertopeer.Prelude.Text.{Bytes, text}
use peertopeer.Prelude.Dict.{Dict, lookup, erase}

-- The name of a temporary file in its directory: `os.CreateTemp` puts a random text of its own in the
-- place of the star of `.dstore-write-*`.
abbrev pub temp_name : Bytes → Bytes
temp_name random = text ".dstore-write-" ++ random

-- The contents of the files of one directory, by name.
abbrev pub Dir : Type 0
Dir = Dict Bytes

-- Which of the system calls of one write fail, and what has reached the temporary file when the write
-- or the callback fails.
pub record Faults : Type 0 where
  pub create : Bool
  pub chmod : Bool
  pub write : Bool
  pub sync : Bool
  pub close : Bool
  pub link : Bool
  pub open_dir : Bool
  pub sync_dir : Bool
  pub remove : Bool
  pub partial : Bytes

unfoldable pub exists : Bytes → Dir → Bool
exists name d = elim (lookup name d) [ none ↦ false | some _ ↦ true ]

-- `os.Link(tmpPath, path)` and the synchronisation of the directory after it.
unfoldable pub publish : Faults → Bytes → Bytes → Dir → Status × Dir
unfolding exists
publish f path content d =
    if f.link || exists path d
    then (err (failed "publish"), d)
    else if f.open_dir
    then (err (failed "open directory"), (path, content) ∷ d)
    else if f.sync_dir
    then (err (failed "sync directory"), (path, content) ∷ d)
    else (ok tt, (path, content) ∷ d)

-- The temporary file is there; `output` is what the callback writes, or its error.
unfoldable pub fill : Faults → Bytes → Bytes → Result Bytes → Dir → Status × Dir
unfolding publish
fill f tmp path (err e) d =
    if f.chmod then (err (failed "chmod"), (tmp, f.partial) ∷ d) else (err e, (tmp, f.partial) ∷ d)
fill f tmp path (ok content) d =
    if f.chmod
    then (err (failed "chmod"), (tmp, f.partial) ∷ d)
    else if f.write
    then (err (failed "write"), (tmp, f.partial) ∷ d)
    else if f.sync
    then (err (failed "sync"), (tmp, content) ∷ d)
    else if f.close
    then (err (failed "close"), (tmp, content) ∷ d)
    else publish f path content ((tmp, content) ∷ d)

-- The deferred `os.Remove(tmpPath)`, whose error is discarded.
unfoldable pub clean_up : Faults → Bytes → Dir → Dir
clean_up f tmp d = if f.remove then d else erase tmp d

-- `WriteNewFrom`: `tmp` is the name that `os.CreateTemp` picks, which removes no file; the deferred
-- removal runs on every path out.
unfoldable pub write_new_from : Faults → Bytes → Bytes → Result Bytes → Dir → Status × Dir
unfolding fill exists clean_up
write_new_from f tmp path output d =
    if f.create || exists tmp d
    then (err (failed "create temporary file"), d)
    else (let (r, d') = fill f tmp path output d in (r, clean_up f tmp d'))

-- `WriteNew`.
unfoldable pub write_new : Faults → Bytes → Bytes → Bytes → Dir → Status × Dir
unfolding write_new_from
write_new f tmp path content d = write_new_from f tmp path (ok content) d

abbrev pub no_faults : Faults
no_faults = record {
  create = false;
  chmod = false;
  write = false;
  sync = false;
  close = false;
  link = false;
  open_dir = false;
  sync_dir = false;
  remove = false;
  partial = [];
}
