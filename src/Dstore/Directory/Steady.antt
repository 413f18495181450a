-- ===== src/Dstore/Directory/Steady.antt =====
-- What a watch processes has stood unchanged from one scan to the next.
use mathlib.Core.List.{Memᴰ}
use mathlib.Core.List.Memᴰ
use peertopeer.Prelude.{◌≡◌, Bool, true}
use peertopeer.Prelude.{some, List, [], ◌∷◌, ◌++◌}
use peertopeer.Prelude.{Error, Result}
use peertopeer.Prelude.Text.{Bytes}
use peertopeer.Prelude.Dict.{Dict, lookup}
use peertopeer.AtomicFile.{Dir}
use peertopeer.Digest.{Sha256}
use peertopeer.Erasure.{ReedSolomon}
use peertopeer.CryptoFile.{Aead}
use peertopeer.Manifest.{Manifest, Json}
use peertopeer.Dstore.Transfer.{Net}
use peertopeer.Dstore.Process.{Config, Run}
use peertopeer.Dstore.Pipeline.{process_file, stub_extension}
use peertopeer.Dstore.Walk.{FileInfo}
use peertopeer.Dstore.Directory.{Around, Scan, same_file, process_directory, Round, Report}
use peertopeer.Dstore.Directory.Laws.{observed, processed}

-- The file was observed twice, with the same identity, size and time.
abbrev pub Seen : Dict FileInfo → Dict FileInfo → Bytes → Type 0
Seen previous now path =
    (old info : FileInfo) × (lookup path previous ≡ some old)
    × Memᴰ (path, info) now
    × (same_file old info ≡ true)

-- Each report names files only that the report before it observed and this one found unchanged.
abbrev pub Steady : Dict FileInfo → List Report → Type 0
Steady previous [] = Unit
Steady previous (r ∷ reports) =
    ((q : Bytes × Manifest) → Memᴰ q r.processed → Seen previous r.observed q.0)
    × Steady r.observed reports

module _ (sha : Sha256) (c : Config) {W : Type 0} (net : Net W) (a : Aead) (rs : ReedSolomon)
    (json : Json) where
  abbrev Found : Dict FileInfo → Scan W → Type 0
  Found previous s = (q : Bytes × Manifest) → Memᴰ q s.results → Seen previous s.observed q.0

  -- One file's run of the pipeline, from a state of it and of the files.
  abbrev pub processing : Around → Bytes → Run W → Dir → Result Manifest × Run W × Dir
  processing x path run files =
      process_file sha c net a rs (x.inputs path) json (x.mesh path) path (path ++ stub_extension)
        run files

  -- Files are processed, one after the other, and each of them was observed by the last scan and is
  -- found the same by this one.
  pub data Processing (x : Around) (previous now : Dict FileInfo) (run : Run W) (files : Dir)
      : Run W → Dir → Type 0 where
    nothing : Processing x previous now run files run files
    one_more :
        {run' : Run W} {files' : Dir} (path : Bytes)
        → Processing x previous now run files run' files'
        → Seen previous now path
        → Processing x previous now run files
            (processing x path run' files').1
            (processing x path run' files').2

  -- What a scan has done from the state that it began with.
  record Scanned (x : Around) (previous : Dict FileInfo) (run : Run W) (files : Dir) (s : Scan W)
      : Type 0 where
    found : Found previous s
    steps : Processing x previous s.observed run files s.run s.files

  module _ (is_not_exist : Error → Bool) (origin name : Bytes) where
    abbrev pub scan : Dict FileInfo → Round → Run W → Dir → Scan W
    scan previous round run files =
        process_directory sha c net a rs json round.around origin (some previous) name round.tree
          run (round.change files)

    -- What a watch may do to the state and the files, round by round: it ends, or others change the
    -- files, and then the scan processes files that stood unchanged since the scan before.
    pub data Watched : Dict FileInfo → List Round → Run W → Dir → Run W → Dir → Type 0 where
      ended :
          {previous : Dict FileInfo} {rounds : List Round} {run : Run W} {files : Dir}
          → Watched previous rounds run files run files
      scanned :
          {previous : Dict FileInfo} {rounds : List Round} {run run' : Run W} {files files' : Dir}
          (round : Round)
          → Processing round.around previous
              (scan previous round run files).observed
              run
              (round.change files)
              (scan previous round run files).run
              (scan previous round run files).files
          → Watched
              (scan previous round run files).observed
              rounds
              (scan previous round run files).run
              (scan previous round run files).files
              run'
              files'
          → Watched previous (round ∷ rounds) run files run' files'
