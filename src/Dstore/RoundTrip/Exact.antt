-- ===== src/Dstore/RoundTrip/Exact.antt =====
-- The restores of files that were processed, and how many shards they find.
use peertopeer.Prelude.{ℕ, ◌≡◌, ◌≢◌, ◌↔◌, refl, sym, ap, ◌∙◌, Bool, false, none}
use peertopeer.Prelude.{◌∷◌, Result, Status, ok, err, Error, ◌>>=◌, Result-cases, inl, inr}
use peertopeer.Prelude.Text.{Bytes, equal}
use peertopeer.Prelude.Dict.{lookup}
use peertopeer.Prelude.Int.{pos}
use peertopeer.AtomicFile.{Dir, no_faults, write_new_from}
use peertopeer.AtomicFile.Publish.{Left, write_new_from_refused}
use peertopeer.Digest.{Sha256}
use peertopeer.Erasure.{Layout, ReedSolomon, new_layout}
use peertopeer.Erasure.Layouts.{layout, IsGeometry, new_layout-layout}
use peertopeer.Erasure.Recovery.{IsErasureCode}
use peertopeer.CryptoFile.{Aead, IsAead}
use peertopeer.Manifest.{Manifest, Json}
use peertopeer.ShardServer.{full}
use peertopeer.Dstore.Placement.{Mesh}
use peertopeer.Dstore.Transfer.{Net}
use peertopeer.Dstore.Process.{Config, Inputs, Run}
use peertopeer.Dstore.Pipeline.{process_file}
use peertopeer.Dstore.Restore.{RestoreInputs, restore_chunks, restore_chunked}
use peertopeer.Dstore.RoundTrip.Fetched.{Unique}
use peertopeer.Dstore.RoundTrip.Missing.{
  IsStrict, Enough, restore_chunks-Enough, restore_chunks_needs,
}
use peertopeer.Dstore.RoundTrip.Whole.{Processed, process_file-Processed}
use peertopeer.Dstore.RoundTrip.Output.{restore_chunked-output}

module _ (sha : Sha256) (c : Config) {W : Type 0} (net : Net W) (a : Aead) (rs : ReedSolomon)
    (x : Inputs) (k p : ℕ) (content : Bytes) (geometry : IsGeometry k p)
    (code : IsErasureCode rs k p) (strict : IsStrict rs k p) (law : IsAead a)
    (read : x.source ≡ full content) (dk : c.data_shards ≡ pos k) (dp : c.parity_shards ≡ pos p)
    {V : Type 0} (net' : Net V) (w : V) (y : RestoreInputs) (allow_local : Bool) (store : Dir)
    (output_path : Bytes) (files' : Dir) (goes_on : (i : ℕ) → y.cancelled_at i ≡ false) where
  Write : Result Bytes → Result Bytes × Dir
  Write output =
      let (r, files'') = write_new_from y.faults y.tmp output_path output files' in
      (r >>= (λ _. ok output_path), files'')

  abbrev restored : Manifest → Result Bytes × V
  restored m =
      restore_chunks sha net' a rs y allow_local store m.share_id (layout k p) m.key 0 m.chunks w

  run :
      (m : Manifest) (d : Dir)
      → Processed sha c net a rs x k p content d m
      → restore_chunked sha net' a rs y allow_local store m output_path w files'
        ≡ Write (restored m).0
  unfolding restore_chunked Write
  run m d q =
      let made : new_layout m.data_shards m.parity_shards ≡ ok (layout k p) =
        rw (q.data_shards, q.parity_shards) (new_layout-layout k p geometry) in
      ap After made
    where
      After : Result Layout → Result Bytes × Dir
      After r = elim r [
        | err e ↦ (err e, files')
        | ok layout ↦
            let (output, _) =
              restore_chunks sha net' a rs y allow_local store m.share_id layout m.key 0 m.chunks
                w in
            let (r, files'') = write_new_from y.faults y.tmp output_path output files' in
            (r >>= (λ _. ok output_path), files'')
      ]

  refused :
      (e : Error)
      → ((Write (err e)).0 ≢ ok output_path) × Left y.faults y.tmp files' (Write (err e)).1
  unfolding Write
  refused e =
      let (bad, same) = write_new_from_refused y.faults y.tmp output_path e files' in
      (λ h. bad (done _ h), same)
    where
      done : (r : Status) → (r >>= (λ _. ok output_path)) ≡ ok output_path → r ≡ ok tt
      done (ok _) h = refl
      done (err e) h = cc

  module _ (json : Json) (mesh : Mesh) (path stub_path : Bytes) (s : Run W) (files : Dir)
      (m : Manifest)
      (made : (process_file sha c net a rs x json mesh path stub_path s files).0 ≡ ok m)
      (unique : Unique sha
        (process_file sha c net a rs x json mesh path stub_path s files).1.dir) where
    abbrev pub IsFound : Type 0
    IsFound = Enough sha net' a rs y allow_local store m.share_id k p m.chunks w

    q :
        Processed sha c net a rs x k p content
          (process_file sha c net a rs x json mesh path stub_path s files).1.dir
          m
    q =
        process_file-Processed sha c net a rs x k p content geometry code law read dk dp json mesh
          path stub_path s files m made

    found_if : (output : Bytes) → (restored m).0 ≡ ok output → IsFound
    found_if output h =
        restore_chunks_needs sha net' a rs y allow_local store m.share_id k p m.key _ unique
          geometry code goes_on strict 0 m.chunks content output w q.stands h

    -- A restore of a file that was processed, for which of some chunk fewer shards than the layout has
    -- data shards are found on the network or in the local store, fails, and changes no file, but that
    -- the write's temporary file is left where its removal fails. The conditions: the file was read in full; the layout is valid, the cipher and the Reed-Solomon
    -- library keep their laws, and the library refuses too few shards; no other data has the hash of a
    -- shard that was stored; and the context goes on.
    pub restore_chunked_too_few :
        ¬ IsFound
        → let o = restore_chunked sha net' a rs y allow_local store m output_path w files' in
          (o.0 ≢ ok output_path) × Left y.faults y.tmp files' o.1
    restore_chunked_too_few few = elim (Result-cases (restored m).0) [
      | inl (output, good) ↦ absurd (few (found_if output good))
      | inr (e, bad) ↦ rw (run m _ q, bad) (refused e)
    ]

    -- A file that was processed is restored, to the content that was read and as a new file, exactly if
    -- of each chunk as many shards are found, on the devices or in the local store, as the layout has
    -- data shards; the other answers, and the local store of the restore, may be anything. The
    -- conditions: the file was read in full; the layout is valid, the cipher and the Reed-Solomon
    -- library keep their laws, and the library refuses too few shards; no other data has the hash of a
    -- shard that was stored; the context goes on, no system call of the write fails, and the output and
    -- the temporary name are free and differ.
    pub restore_chunked_iff :
        y.faults ≡ no_faults
        → lookup y.tmp files' ≡ none
        → lookup output_path files' ≡ none
        → equal y.tmp output_path ≡ false
        → let o = restore_chunked sha net' a rs y allow_local store m output_path w files' in
          IsFound ↔ ((o.0 ≡ ok output_path) × (o.1 ≡ (output_path, content) ∷ files'))
    restore_chunked_iff f t free differs = (there, back)
      where
        o : Result Bytes × Dir
        o = restore_chunked sha net' a rs y allow_local store m output_path w files'

        there : IsFound → (o.0 ≡ ok output_path) × (o.1 ≡ (output_path, content) ∷ files')
        there enough =
            let output =
              restore_chunks-Enough sha net' a rs y allow_local store m.share_id k p m.key _ unique
                geometry code goes_on 0 m.chunks content w q.stands enough in
            restore_chunked-output sha c net a rs x k p content geometry code law read dk dp m _
              net' w y allow_local output_path files' q store output f t free differs

        back : (o.0 ≡ ok output_path) × (o.1 ≡ (output_path, content) ∷ files') → IsFound
        back (r, d) = elim (Result-cases (restored m).0) [
          | inl (output, good) ↦ found_if output good
          | inr (e, bad) ↦ absurd (
              (refused e).0
                (sym (ap (λ (u : Result Bytes × Dir). u.0) (run m _ q ∙ ap Write bad)) ∙ r))
        ]
