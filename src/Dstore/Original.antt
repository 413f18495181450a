-- ===== src/Dstore/Original.antt =====
-- What `processFile` does to the files beside the store: no content is lost.
use peertopeer.Prelude.{
  ◌≡◌, ◌≢◌, refl, subst, Bool, true, false, ◌⊎◌, inl, inr, some, none, arith, if◌then◌else◌, ℕ,
  List, Bool-cases,
}
use peertopeer.Prelude.{Result, Status, ok, err, failed, Error, reject_if, ◌>>=◌, ◌>>◌}
use peertopeer.Prelude.Text.{Bytes, equal_iff, has_suffix}
use peertopeer.Prelude.Dict.{lookup, erase, lookup-erase}
use peertopeer.AtomicFile.{Dir}
use peertopeer.AtomicFile.Publish.{
  write_new-Attempted, Attempted, Attempted-found, lookup-Attempted,
}
use peertopeer.Digest.{Sha256}
use peertopeer.Erasure.{ReedSolomon}
use peertopeer.CryptoFile.{Aead}
use peertopeer.Manifest.{Manifest, Chunk, Json, marshal}
use peertopeer.Dstore.Placement.{Mesh}
use peertopeer.Dstore.Transfer.{Net}
use peertopeer.Dstore.Process.{Config, Inputs, Run}
use peertopeer.Dstore.Pipeline.{
  Prepared, prepare, conclude, replace_file, after_chunks, run_prepared, process_file, limited,
  stub_extension,
}

module _ (sha : Sha256) (c : Config) {W : Type 0} (net : Net W) (a : Aead) (rs : ReedSolomon)
    (x : Inputs) (json : Json) (path stub_path : Bytes) where
  -- What happens to the files: those that were there stay, and the original goes only where it is
  -- not to be kept. With a result, the stub has been published.
  data Outcome (files : Dir) : Result Manifest → Dir → Type 0 where
    untouched : {e : Error} → Outcome files (err e) files
    written :
        {r : Result Manifest} {files' : Dir}
        → ((k v : Bytes) → lookup k files ≡ some v → lookup k files' ≡ some v)
        → ((m : Manifest) → r ≡ ok m → lookup stub_path files' ≡ some (marshal json m))
        → Outcome files r files'
    replaced :
        (m : Manifest) (files' : Dir)
        → c.keep_original ≡ false
        → ((k v : Bytes) → lookup k files ≡ some v → lookup k files' ≡ some v)
        → lookup stub_path files' ≡ some (marshal json m)
        → lookup stub_path files ≡ none
        → Outcome files (ok m) (erase path files')

  ok-inj : {m m' : Manifest} → ok m ≡ ok m' → m ≡ m'
  ok-inj h = cc

  replace_file-Outcome :
      (m : Manifest) (files : Dir)
      → let o = replace_file sha c net a rs x json path stub_path m files in Outcome files o.0 o.1
  unfolding replace_file
  replace_file-Outcome m files =
      go _ _ (write_new-Attempted x.stub_faults x.stub_tmp stub_path (marshal json m) files)
    where
      go :
          (r : Status) (files' : Dir)
          → Attempted x.stub_faults x.stub_tmp stub_path (ok (marshal json m)) files r files'
          → let o : Result Manifest × Dir = elim r [
            | err _ ↦ (err (failed "write stub"), files')
            | ok _ ↦
                if c.keep_original
                then (ok m, files')
                else if x.remove_fails
                then (err (failed "remove original after stub write"), files')
                else (ok m, erase path files')
          ] in
            Outcome files o.0 o.1
      go (err e) files' w = written (lookup-Attempted w) (λ m h. cc)
      go (ok _) files' w =
          let (found, fresh) = Attempted-found w refl in
          elim (Bool-cases c.keep_original) [
            | inl e ↦ simp e (
                written (lookup-Attempted w) (λ m' h.
                  subst (λ n. lookup stub_path files' ≡ some (marshal json n)) (ok-inj h) found))
            | inr e ↦ elim (Bool-cases x.remove_fails) [
              | inl f ↦ simp (e, f) (written (lookup-Attempted w) (λ m h. cc))
              | inr f ↦ simp (e, f) (replaced m files' e (lookup-Attempted w) found fresh)
            ]
          ]

  -- What a run of the pipeline returns.
  record Ended (files : Dir) (o : Result Manifest × Run W × Dir) : Type 0 where
    outcome : Outcome files o.0 o.2

  after_chunks-Ended :
      (files : Dir) (p : Prepared sha c net a rs x) (r : Result (List Chunk × ℕ)) (s : Run W)
      → Ended files (after_chunks sha c net a rs x json path stub_path files p r s)
  unfolding after_chunks
  after_chunks-Ended files p r s =
      go (r >>= λ (chunks, total). conclude sha c net a rs x p path chunks total)
    where
      go :
          (q : Result Manifest)
          → let o : Result Manifest × Run W × Dir = elim q [
            | err e ↦ (err e, s, files)
            | ok m ↦
                let (r', files') = replace_file sha c net a rs x json path stub_path m files in
                (r', s, files')
          ] in
            Ended files o
      go (err e) = record { outcome = untouched }
      go (ok m) = record { outcome = replace_file-Outcome m files }

  process_file-Ended :
      (mesh : Mesh) (s : Run W) (files : Dir)
      → Ended files (process_file sha c net a rs x json mesh path stub_path s files)
  unfolding process_file run_prepared
  process_file-Ended mesh s files = go (prepare sha c net a rs x mesh path stub_path files)
    where
      go :
          (r : Result (Prepared sha c net a rs x))
          → let o : Result Manifest × Run W × Dir = elim r [
            | err e ↦ (err e, s, files)
            | ok p ↦
                run_prepared sha c net a rs x json path stub_path s files p
                  (limited p.limit x.source)
          ] in
            Ended files o
      go (err e) = record { outcome = untouched }
      go (ok p) = after_chunks-Ended files p _ _

  prepare-stub :
      (mesh : Mesh) (files : Dir)
      → has_suffix path stub_extension ≡ true
      → (e : Error) × (prepare sha c net a rs x mesh path stub_path files ≡ err e)
  unfolding prepare
  prepare-stub mesh files h = go x.cancelled_at_start _ h _
    where
      go :
          (cancelled is_stub : Bool)
          → is_stub ≡ true
          → (rest : Result (Prepared sha c net a rs x))
          → (e : Error) × ((reject_if cancelled (failed "context")
                >> (reject_if is_stub (failed "refusing to process stub file") >> rest))
              ≡ err e)
      go true is_stub h rest = (_, refl)
      go false true h rest = (_, refl)
      go false false h rest = cc

  -- No run touches a file on a stub's path.
  pub process_file-stub :
      (mesh : Mesh) (s : Run W) (files : Dir)
      → has_suffix path stub_extension ≡ true
      → (process_file sha c net a rs x json mesh path stub_path s files).2 ≡ files
  unfolding process_file
  process_file-stub mesh s files h =
      let (e, refused) = prepare-stub mesh files h in
      go (prepare sha c net a rs x mesh path stub_path files) e refused
    where
      go :
          (r : Result (Prepared sha c net a rs x)) (e : Error)
          → r ≡ err e
          → let o : Result Manifest × Run W × Dir = elim r [
            | err e ↦ (err e, s, files)
            | ok p ↦
                run_prepared sha c net a rs x json path stub_path s files p
                  (limited p.limit x.source)
          ] in
            o.2 ≡ files
      go (err e) _ refused = refl
      go (ok p) e refused = cc

  -- A run keeps every file but, where the original is not to be kept, the original.
  pub process_file-keeps :
      (mesh : Mesh) (s : Run W) (files : Dir) (k v : Bytes)
      → (c.keep_original ≡ true) ⊎ (k ≢ path)
      → lookup k files ≡ some v
      → lookup k (process_file sha c net a rs x json mesh path stub_path s files).2 ≡ some v
  process_file-keeps mesh s files k v other h = go (process_file-Ended mesh s files).outcome
    where
      go : {r : Result Manifest} {files' : Dir} → Outcome files r files' → lookup k files' ≡ some v
      go untouched = h
      go (written kept _) = kept k v h
      go (replaced m files' gone kept _ _) =
          rw lookup-erase (ground (arith, kept k v h, other, equal_iff path k))

  -- No run loses the content of the original: it stays in place, or the run has succeeded and the
  -- stub stands under its name, which was free.
  pub process_file-original :
      (mesh : Mesh) (s : Run W) (files : Dir) (v : Bytes)
      → lookup path files ≡ some v
      → let o = process_file sha c net a rs x json mesh path stub_path s files in
        (lookup path o.2 ≡ some v)
        ⊎ ((m : Manifest) × (o.0 ≡ ok m)
            × (lookup stub_path o.2 ≡ some (marshal json m))
            × (lookup stub_path files ≡ none))
  process_file-original mesh s files v h = go (process_file-Ended mesh s files).outcome
    where
      go :
          {r : Result Manifest} {files' : Dir}
          → Outcome files r files'
          → (lookup path files' ≡ some v)
            ⊎ ((m : Manifest) × (r ≡ ok m)
                × (lookup stub_path files' ≡ some (marshal json m))
                × (lookup stub_path files ≡ none))
      go untouched = inl h
      go (written kept _) = inl (kept path v h)
      go (replaced m files' gone kept stub free) =
          inr (
            m,
            refl,
            rw lookup-erase (ground (arith, stub, free, h, equal_iff path stub_path)),
            free,
          )

  -- A run that keeps the original and has a result leaves the stub under its name.
  pub process_file-stub_found :
      (mesh : Mesh) (s : Run W) (files : Dir) (m : Manifest)
      → c.keep_original ≡ true
      → (process_file sha c net a rs x json mesh path stub_path s files).0 ≡ ok m
      → lookup stub_path (process_file sha c net a rs x json mesh path stub_path s files).2
        ≡ some (marshal json m)
  process_file-stub_found mesh s files m keep h = go (process_file-Ended mesh s files).outcome h
    where
      go :
          {r : Result Manifest} {files' : Dir}
          → Outcome files r files'
          → r ≡ ok m
          → lookup stub_path files' ≡ some (marshal json m)
      go untouched e = cc
      go (written kept found) e = found m e
      go (replaced m' files' gone kept _ _) e = cc
