-- ===== src/Dstore/RoundTrip/Output.antt =====
-- The restore of a file that was processed, from the local store.
use peertopeer.Prelude.{ℕ, ◌≡◌, refl, Bool, true, false, none}
use peertopeer.Prelude.{◌∷◌, arith, sym, subst}
use peertopeer.Prelude.{Result, Status, ok, err, ◌>>=◌}
use peertopeer.Prelude.Text.{Bytes, equal}
use peertopeer.Prelude.Dict.{lookup}
use peertopeer.Prelude.Int.{pos}
use peertopeer.AtomicFile.{Dir, Faults, no_faults, write_new_from, write_new}
use peertopeer.AtomicFile.Publish.{Left-removed, write_new-clean, write_new_from-ok}
use peertopeer.Digest.{Sha256}
use peertopeer.Erasure.{Layout, ReedSolomon, new_layout}
use peertopeer.Erasure.Layouts.{layout, IsGeometry, new_layout-layout}
use peertopeer.Erasure.Recovery.{IsErasureCode}
use peertopeer.CryptoFile.{Aead, IsAead}
use peertopeer.Manifest.{Manifest, Json}
use peertopeer.ShardServer.{full}
use peertopeer.Dstore.Placement.{Mesh}
use peertopeer.Dstore.Transfer.{Net}
use peertopeer.Dstore.Process.{Config, Inputs, Run}
use peertopeer.Dstore.Pipeline.{process_file}
use peertopeer.Dstore.Restore.{RestoreInputs, restore_chunks, restore_chunked}
use peertopeer.Dstore.RoundTrip.Fetched.{Unique}
use peertopeer.Dstore.RoundTrip.Chunks.{restore_chunks-Stands}
use peertopeer.Dstore.RoundTrip.Whole.{Processed, process_file-Processed}

module _ (sha : Sha256) (c : Config) {W : Type 0} (net : Net W) (a : Aead) (rs : ReedSolomon)
    (x : Inputs) (k p : ℕ) where
  module _ (content : Bytes) (geometry : IsGeometry k p) (code : IsErasureCode rs k p)
      (law : IsAead a) (read : x.source ≡ full content) (dk : c.data_shards ≡ pos k)
      (dp : c.parity_shards ≡ pos p) where
    -- Where the output and the temporary name are free, the write of the content succeeds.
    written :
        (f : Faults) (tmp path : Bytes) (d : Dir)
        → f ≡ no_faults
        → lookup tmp d ≡ none
        → lookup path d ≡ none
        → equal tmp path ≡ false
        → let o = write_new_from f tmp path (ok content) d in
          (o.0 ≡ ok tt) × (o.1 ≡ (path, content) ∷ d)
    written f tmp path d e free fresh differs = rw e (clean, result)
      where
        clean : (write_new_from no_faults tmp path (ok content) d).0 ≡ ok tt
        clean = unfold write_new in write_new-clean tmp path content d free fresh differs

        result : (write_new_from no_faults tmp path (ok content) d).1 ≡ (path, content) ∷ d
        result =
            let (base, left, p) = write_new_from-ok no_faults tmp path (ok content) d clean in
            ground (arith, p.written, p.result, Left-removed left refl)

    -- A manifest whose chunks are restored to the content is written as it.
    pub restore_chunked-output :
        (m : Manifest) (d : Dir) {V : Type 0} (net' : Net V) (w : V) (y : RestoreInputs)
        (allow_local : Bool) (output_path : Bytes) (files : Dir)
        → Processed sha c net a rs x k p content d m
        → (store : Dir)
        → (restore_chunks sha net' a rs y allow_local store m.share_id
            (layout k p)
            m.key
            0
            m.chunks
            w).0
          ≡ ok content
        → y.faults ≡ no_faults
        → lookup y.tmp files ≡ none
        → lookup output_path files ≡ none
        → equal y.tmp output_path ≡ false
        → let o = restore_chunked sha net' a rs y allow_local store m output_path w files in
          (o.0 ≡ ok output_path) × (o.1 ≡ (output_path, content) ∷ files)
    unfolding restore_chunked
    restore_chunked-output m d net' w y allow_local output_path files q store output f t fresh
          differs =
        let made : new_layout m.data_shards m.parity_shards ≡ ok (layout k p) =
          rw (q.data_shards, q.parity_shards) (new_layout-layout k p geometry) in
        let w₂ = written y.faults y.tmp output_path files f t fresh differs in
        subst (λ r. Restores (After r)) (sym made)
          (subst (λ r. Restores (Write (write_new_from y.faults y.tmp output_path r files)))
            (sym output) (rw (w₂.0, w₂.1) (refl, refl)))
      where
        Write : Status × Dir → Result Bytes × Dir
        Write (r, files') = (r >>= (λ _. ok output_path), files')

        After : Result Layout → Result Bytes × Dir
        After r = elim r [
          | err e ↦ (err e, files)
          | ok layout ↦
              let (output, _) =
                restore_chunks sha net' a rs y allow_local store m.share_id layout m.key 0 m.chunks
                  w in
              Write (write_new_from y.faults y.tmp output_path output files)
        ]

        Restores : Result Bytes × Dir → Type 0
        Restores o = (o.0 ≡ ok output_path) × (o.1 ≡ (output_path, content) ∷ files)

    -- A manifest that `processFile` returned is restored to the content that was read, as a new file,
    -- whatever the network then answers. The conditions: the file was read in full; the layout is
    -- valid, and the cipher and the Reed-Solomon library keep their laws; the local store, as
    -- `processFile` left it, is readable, and no other data has the hash of a file in it; the context
    -- goes on, no system call of the write fails, and the output and the temporary name are free and
    -- differ.
    pub restore_chunked-process_file :
        (json : Json) (mesh : Mesh) (path stub_path : Bytes) (s : Run W) (files : Dir)
        (m : Manifest) {V : Type 0} (net' : Net V) (w : V) (y : RestoreInputs) (output_path : Bytes)
        (files' : Dir)
        → (process_file sha c net a rs x json mesh path stub_path s files).0 ≡ ok m
        → let d = (process_file sha c net a rs x json mesh path stub_path s files).1.dir in
          let o = restore_chunked sha net' a rs y true d m output_path w files' in
          Unique sha d
          → y.read_fails ≡ false
          → ((i : ℕ) → y.cancelled_at i ≡ false)
          → y.faults ≡ no_faults
          → lookup y.tmp files' ≡ none
          → lookup output_path files' ≡ none
          → equal y.tmp output_path ≡ false
          → (o.0 ≡ ok output_path) × (o.1 ≡ (output_path, content) ∷ files')
    restore_chunked-process_file json mesh path stub_path s files m net' w y output_path files' e u
          r g f t fresh differs =
        let q =
          process_file-Processed sha c net a rs x k p content geometry code law read dk dp json mesh
            path stub_path s files m e in
        restore_chunked-output m _ net' w y true output_path files' q _
          (restore_chunks-Stands sha a rs k p m.key net' y _ m.share_id geometry code u r g 0
            m.chunks content w q.stands)
          f t fresh differs
