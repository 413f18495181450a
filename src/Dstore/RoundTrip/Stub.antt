-- ===== src/Dstore/RoundTrip/Stub.antt =====
-- A file that was processed is restored from its stub.
use peertopeer.Prelude.{
  ℕ, ◌≡◌, refl, Bool, true, false, some, none, inl, inr, sym, subst, ◌∷◌, arith, ap,
}
use peertopeer.Prelude.{
  List, if◌then◌else◌, Result, Status, ok, err, failed, ◌>>=◌, Result-cases, Bool-cases, ◌∙◌,
}
use peertopeer.Prelude.Text.{Bytes, equal}
use peertopeer.Prelude.Dict.{lookup, erase, lookup-erase}
use peertopeer.Prelude.Int.{ℤ, pos}
use peertopeer.AtomicFile.{Dir, no_faults}
use peertopeer.AtomicFile.Publish.{write_new-Attempted, Attempted, Attempted-found}
use peertopeer.Digest.{Sha256}
use peertopeer.Erasure.{Layout, ReedSolomon}
use peertopeer.Erasure.Layouts.{IsGeometry}
use peertopeer.Erasure.Recovery.{IsErasureCode}
use peertopeer.CryptoFile.{Aead, IsAead}
use peertopeer.Manifest.{Manifest, Chunk, Json, marshal, unmarshal, new_chunked}
use peertopeer.Manifest.Path.{base}
use peertopeer.Manifest.RoundTrip.{within_bounds, unmarshal-new_chunked, new_chunked-Made}
use peertopeer.ShardServer.{full}
use peertopeer.Dstore.Placement.{Mesh}
use peertopeer.Dstore.Transfer.{Net}
use peertopeer.Dstore.Process.{Config, Inputs, Run}
use peertopeer.Dstore.Pipeline.{
  Prepared, prepare, conclude, replace_file, after_chunks, run_prepared, process_file, limited,
}
use peertopeer.Dstore.Restore.{
  RestoreInputs, restore_chunked, restore_file, restore_manifest, read_stub, output_for,
}
use peertopeer.Dstore.RoundTrip.Fetched.{Unique}
use peertopeer.Dstore.RoundTrip.Output.{restore_chunked-process_file}

module _ (sha : Sha256) (c : Config) {W : Type 0} (net : Net W) (a : Aead) (rs : ReedSolomon)
    (x : Inputs) (json : Json) (path stub_path : Bytes) where
  -- A manifest that `NewChunked` made, with the sharing group of the configuration.
  record IsMade (m : Manifest) : Type 0 where
    layout : Layout
    id : Bytes
    plain_size : ℤ
    chunk_size : ℤ
    key : Bytes
    chunks : List Chunk
    bare : Manifest
    made : new_chunked layout id (base path) plain_size chunk_size key chunks ≡ ok bare
    shared : m ≡ record bare { share_id = c.policy.share_id }

  conclude-IsMade :
      (pr : Prepared sha c net a rs x) (chunks : List Chunk) (total : ℕ) (m : Manifest)
      → conclude sha c net a rs x pr path chunks total ≡ ok m
      → IsMade m
  unfolding conclude
  conclude-IsMade pr chunks total m e = elim (Result-cases x.file_id) [
    | inr (y, bad) ↦ ground arith
    | inl (id, known) ↦
        elim (Result-cases
          (new_chunked pr.layout id (base path) (pos total) (pos pr.chunk_size) pr.key chunks)) [
            | inr (y, bad) ↦ ground arith
            | inl (m₀, good) ↦ record {
              layout = pr.layout;
              id = id;
              plain_size = pos total;
              chunk_size = pos pr.chunk_size;
              key = pr.key;
              chunks = chunks;
              bare = m₀;
              made = good;
              shared = ground arith;
            }
          ]
  ]

  -- The stub of a manifest is in the directory.
  record Stored (m : Manifest) (files : Dir) : Type 0 where
    made : IsMade m
    stub : lookup stub_path files ≡ some (marshal json m)

  replace_file-stub :
      (m m' : Manifest) (files : Dir)
      → equal path stub_path ≡ false
      → (replace_file sha c net a rs x json path stub_path m files).0 ≡ ok m'
      → (m ≡ m')
        × (lookup stub_path (replace_file sha c net a rs x json path stub_path m files).1
            ≡ some (marshal json m))
  unfolding replace_file
  replace_file-stub m m' files apart e =
      go _ _ (write_new-Attempted x.stub_faults x.stub_tmp stub_path (marshal json m) files) e
    where
      After : Status → Dir → Result Manifest × Dir
      After r files' = elim r [
        | err _ ↦ (err (failed "write stub"), files')
        | ok _ ↦
            if c.keep_original
            then (ok m, files')
            else if x.remove_fails
            then (err (failed "remove original after stub write"), files')
            else (ok m, erase path files')
      ]

      go :
          (r : Status) (files' : Dir)
          → Attempted x.stub_faults x.stub_tmp stub_path (ok (marshal json m)) files r files'
          → (After r files').0 ≡ ok m'
          → (m ≡ m') × (lookup stub_path (After r files').1 ≡ some (marshal json m))
      go (err y) files' w h = cc
      go (ok _) files' w h =
          let (found, _) = Attempted-found w refl in
          elim (Bool-cases c.keep_original) [
            | inl k ↦ simp k (ground arith, found)
            | inr k ↦ ground (arith, found, lookup-erase stub_path path files')
          ]

  after_chunks-Stored :
      (files : Dir) (pr : Prepared sha c net a rs x) (r : Result (List Chunk × ℕ)) (s : Run W)
      (m : Manifest)
      → equal path stub_path ≡ false
      → (after_chunks sha c net a rs x json path stub_path files pr r s).0 ≡ ok m
      → Stored m (after_chunks sha c net a rs x json path stub_path files pr r s).2
  unfolding after_chunks
  after_chunks-Stored files pr r s m apart h = go r h
    where
      Concluded : Result (List Chunk × ℕ) → Result Manifest
      Concluded r = r >>= λ (chunks, total). conclude sha c net a rs x pr path chunks total

      After : Result Manifest → Result Manifest × Run W × Dir
      After q = elim q [
        | err e ↦ (err e, s, files)
        | ok m ↦
            let (r', files') = replace_file sha c net a rs x json path stub_path m files in
            (r', s, files')
      ]

      done :
          (q : Result Manifest) (chunks : List Chunk) (total : ℕ)
          → conclude sha c net a rs x pr path chunks total ≡ q
          → (After q).0 ≡ ok m
          → Stored m (After q).2
      done (err e) chunks total f k = cc
      done (ok n) chunks total f k =
          let (same, stub) = replace_file-stub n m files apart k in
          record {
            made = subst IsMade same (conclude-IsMade pr chunks total n f);
            stub = stub ∙ ap (λ n. some (marshal json n)) same;
          }

      go :
          (r : Result (List Chunk × ℕ))
          → (After (Concluded r)).0 ≡ ok m
          → Stored m (After (Concluded r)).2
      go (err e) k = cc
      go (ok (chunks, total)) k = done _ chunks total refl k

  process_file-Stored :
      (mesh : Mesh) (s : Run W) (files : Dir) (m : Manifest)
      → equal path stub_path ≡ false
      → (process_file sha c net a rs x json mesh path stub_path s files).0 ≡ ok m
      → Stored m (process_file sha c net a rs x json mesh path stub_path s files).2
  unfolding process_file run_prepared
  process_file-Stored mesh s files m apart h =
      go (prepare sha c net a rs x mesh path stub_path files) h
    where
      After : Result (Prepared sha c net a rs x) → Result Manifest × Run W × Dir
      After r = elim r [
        | err e ↦ (err e, s, files)
        | ok p ↦
            run_prepared sha c net a rs x json path stub_path s files p (limited p.limit x.source)
      ]

      go : (r : Result (Prepared sha c net a rs x)) → (After r).0 ≡ ok m → Stored m (After r).2
      go (err e) k = cc
      go (ok p) k = after_chunks-Stored files p _ _ m apart k

  unmarshal-IsMade :
      (m : Manifest)
      → IsMade m
      → json.unmarshal (marshal json m) ≡ some m
      → within_bounds m ≡ true
      → (unmarshal json (marshal json m) ≡ ok m) × (m.version ≡ pos 2)
  unmarshal-IsMade m i law bounds =
      let read =
        unmarshal-new_chunked json i.layout i.id (base path) i.plain_size i.chunk_size i.key
          i.chunks c.policy.share_id i.bare i.made in
      let v =
        new_chunked-Made i.layout i.id (base path) i.plain_size i.chunk_size i.key i.chunks i.bare
          i.made in
      (
        subst (λ (n : Manifest). unmarshal json (marshal json n) ≡ ok n) (sym i.shared)
            ((read
                (subst (λ (n : Manifest). json.unmarshal (marshal json n) ≡ some n) i.shared law)).1
              (subst (λ (n : Manifest). within_bounds n ≡ true) i.shared bounds)),
        ground (arith, i.shared, v.result),
      )

restore_file-chunked :
    (sha : Sha256) {V : Type 0} (net : Net V) (a : Aead) (rs : ReedSolomon) (y : RestoreInputs)
    (local_ : Bool) (d : Dir) (json : Json) (stub_path output_path stub : Bytes) (w : V)
    (files : Dir) (m : Manifest)
    → lookup stub_path files ≡ some stub
    → unmarshal json stub ≡ ok m
    → m.version ≡ pos 2
    → restore_file sha net a rs y local_ d json stub_path output_path w files
      ≡ restore_chunked sha net a rs y local_ d m
          (output_for sha net a rs y local_ d stub_path m.file_name output_path)
          w
          files
unfolding restore_file restore_manifest
restore_file-chunked sha net a rs y local_ d json stub_path output_path stub w files m found read
      v =
    let known : (read_stub (lookup stub_path files) >>= unmarshal json) ≡ ok m = rw found read in
    ap (restore_manifest sha net a rs y local_ d stub_path output_path w files) known ∙ rw v refl

module _ (sha : Sha256) (c : Config) {W : Type 0} (net : Net W) (a : Aead) (rs : ReedSolomon)
    (x : Inputs) (k p : ℕ) (content : Bytes) (geometry : IsGeometry k p)
    (code : IsErasureCode rs k p) (law : IsAead a) (read : x.source ≡ full content)
    (dk : c.data_shards ≡ pos k) (dp : c.parity_shards ≡ pos p) where
  -- `RestoreFile` on the stub of a run that succeeded gives the content that was read, as a new file,
  -- whatever the network then answers. The conditions: the file was read in full; the layout is
  -- valid, and the cipher and the Reed-Solomon library keep their laws; the JSON decoder reads the
  -- manifest back, which is within the reader's bounds; the local store is readable, and no other
  -- data has the hash of a file in it; the context goes on, no system call of the write fails, and
  -- the output and the temporary name are free and differ.
  pub restore_file-process_file :
      (json : Json) (mesh : Mesh) (path stub_path : Bytes) (s : Run W) (files : Dir) (m : Manifest)
      {V : Type 0} (net' : Net V) (w : V) (y : RestoreInputs) (output_path : Bytes)
      → (process_file sha c net a rs x json mesh path stub_path s files).0 ≡ ok m
      → equal path stub_path ≡ false
      → json.unmarshal (marshal json m) ≡ some m
      → within_bounds m ≡ true
      → let d = (process_file sha c net a rs x json mesh path stub_path s files).1.dir in
        let files' = (process_file sha c net a rs x json mesh path stub_path s files).2 in
        let out = output_for sha net' a rs y true d stub_path m.file_name output_path in
        let o = restore_file sha net' a rs y true d json stub_path output_path w files' in
        Unique sha d
        → y.read_fails ≡ false
        → ((i : ℕ) → y.cancelled_at i ≡ false)
        → y.faults ≡ no_faults
        → lookup y.tmp files' ≡ none
        → lookup out files' ≡ none
        → equal y.tmp out ≡ false
        → (o.0 ≡ ok out) × (o.1 ≡ (out, content) ∷ files')
  restore_file-process_file json mesh path stub_path s files m net' w y output_path e apart decodes
        bounds u r g f t fresh differs =
      let stored =
        process_file-Stored sha c net a rs x json path stub_path mesh s files m apart e in
      let (accepted, version) =
        unmarshal-IsMade sha c net a rs x json path stub_path m stored.made decodes bounds in
      let restored =
        restore_chunked-process_file sha c net a rs x k p content geometry code law read dk dp json
          mesh path stub_path s files m net' w y _ _ e u r g f t fresh differs in
      let same =
        restore_file-chunked sha net' a rs y true
          (process_file sha c net a rs x json mesh path stub_path s files).1.dir json stub_path
          output_path (marshal json m) w
          (process_file sha c net a rs x json mesh path stub_path s files).2 m stored.stub accepted
          version in
      rw same restored
