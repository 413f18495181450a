-- ===== src/Dstore/RoundTrip/Whole.antt =====
-- What `processFile` leaves in the local store, as a whole.
use peertopeer.Prelude.{ℕ, zero, suc, ◌+◌, ◌≤◌, ◌≡◌, refl, false}
use peertopeer.Prelude.{List, [], ◌∷◌, length, take, length-take, arith, sym, ap, subst}
use peertopeer.Prelude.{Result, ok, err, ◌>>=◌, Result-cases, inl, inr, ◌∙◌}
use peertopeer.Prelude.Text.{Bytes}
use peertopeer.Prelude.Int.{pos}
use peertopeer.AtomicFile.{Dir}
use peertopeer.Digest.{Sha256}
use peertopeer.Erasure.{ReedSolomon, new_layout}
use peertopeer.Erasure.Layouts.{layout, IsGeometry, new_layout-layout}
use peertopeer.Erasure.Recovery.{IsErasureCode}
use peertopeer.CryptoFile.{Aead, IsAead}
use peertopeer.Manifest.{Manifest, Chunk, Json, new_chunked}
use peertopeer.Manifest.Path.{base}
use peertopeer.Manifest.RoundTrip.{new_chunked-Made}
use peertopeer.ShardServer.{full}
use peertopeer.Dstore.Placement.{Mesh}
use peertopeer.Dstore.Transfer.{Net}
use peertopeer.Dstore.Process.{Config, Inputs, Run}
use peertopeer.Dstore.Pipeline.{
  Prepared, prepare, conclude, process_chunks, process_file, replace_file, limited, piece_size,
  after_chunks, run_prepared,
}
use peertopeer.Dstore.RoundTrip.Chunks.{Stands}
use peertopeer.Dstore.RoundTrip.Loop.{Chunked, process_chunks-Chunked}

module _ (sha : Sha256) (c : Config) {W : Type 0} (net : Net W) (a : Aead) (rs : ReedSolomon)
    (x : Inputs) (k p : ℕ) where
  -- What a run that succeeded leaves: chunks that stand for the content.
  pub record Processed (content : Bytes) (d : Dir) (m : Manifest) : Type 0 where
    pub data_shards : m.data_shards ≡ pos k
    pub parity_shards : m.parity_shards ≡ pos p
    pub stands : Stands sha a rs k p m.key d m.chunks content

  piece_size_pos : 1 ≤ piece_size sha c net a rs x
  unfolding piece_size
  piece_size_pos = ground arith

  -- What the checks before the loop have found.
  record Checked (pr : Prepared sha c net a rs x) : Type 0 where
    layout_of : pr.layout ≡ layout k p
    positive : 1 ≤ pr.chunk_size
    fits : pr.size ≤ pr.limit

  prepare-Checked :
      (mesh : Mesh) (path stub_path : Bytes) (files : Dir) (pr : Prepared sha c net a rs x)
      → IsGeometry k p
      → c.data_shards ≡ pos k
      → c.parity_shards ≡ pos p
      → prepare sha c net a rs x mesh path stub_path files ≡ ok pr
      → Checked pr
  unfolding prepare
  prepare-Checked mesh path stub_path files pr g dk dp e =
      let made : new_layout c.data_shards c.parity_shards ≡ ok (layout k p) =
        rw (dk, dp) (new_layout-layout k p g) in
      record {
        layout_of = ground (arith, made);
        positive = ground (arith, piece_size_pos);
        fits = ground arith;
      }

  conclude-Made :
      (pr : Prepared sha c net a rs x) (path : Bytes) (chunks : List Chunk) (total : ℕ)
      (m : Manifest)
      → Checked pr
      → conclude sha c net a rs x pr path chunks total ≡ ok m
      → (total ≡ pr.size)
        × (m.data_shards ≡ pos k)
        × (m.parity_shards ≡ pos p)
        × (m.key ≡ pr.key)
        × (m.chunks ≡ chunks)
  unfolding conclude
  conclude-Made pr path chunks total m ch e = elim (Result-cases x.file_id) [
    | inr (y, bad) ↦ ground arith
    | inl (id, known) ↦
        elim (Result-cases
          (new_chunked pr.layout id (base path) (pos total) (pos pr.chunk_size) pr.key chunks)) [
            | inr (y, bad) ↦ ground arith
            | inl (m₀, good) ↦
                let v =
                  new_chunked-Made pr.layout id (base path) (pos total) (pos pr.chunk_size) pr.key
                    chunks m₀ good in
                (
                  ground arith,
                  ground (arith, v.result, ch.layout_of),
                  ground (arith, v.result, ch.layout_of),
                  ground (arith, v.result),
                  ground (arith, v.result),
                )
          ]
  ]

  limited_whole :
      (limit n : ℕ) (s : Bytes)
      → n ≤ limit
      → n ≡ length (take (limit + 1) s)
      → take (limit + 1) s ≡ s
  limited_whole limit n s h e = short (limit + 1) s (omega (arith, length-take (limit + 1) s))
    where
      short : (n : ℕ) (s : Bytes) → length s ≤ n → take n s ≡ s
      short zero [] h = refl
      short zero (b ∷ s) h = elim h [ ]
      short (suc n) [] h = refl
      short (suc n) (b ∷ s) h = rw (short n s (omega arith))

  module _ (content : Bytes) (geometry : IsGeometry k p) (code : IsErasureCode rs k p)
      (law : IsAead a) (read : x.source ≡ full content) (dk : c.data_shards ≡ pos k)
      (dp : c.parity_shards ≡ pos p) where
    concluded :
        (pr : Prepared sha c net a rs x) (path : Bytes) (m : Manifest) (s : Run W)
        (r : Result (List Chunk × ℕ)) (s' : Run W)
        → (ch : Checked pr)
        → Chunked sha a rs k p pr.key c net x pr.peers geometry code law pr.limit pr.chunk_size
            false ch.positive
            (take (pr.limit + 1) content)
            s.dir
            0
            r
            s'.dir
        → (r >>= λ (chunks, total). conclude sha c net a rs x pr path chunks total) ≡ ok m
        → Processed content s'.dir m
    concluded pr path m s (err e) s' ch l h = cc
    concluded pr path m s (ok (chunks, total)) s' ch l h =
        let (size, kd, pd, key, same) = conclude-Made pr path chunks total m ch h in
        let whole =
          limited_whole pr.limit pr.size content ch.fits
            (omega (arith, size, l.sums chunks total refl)) in
        record {
          data_shards = kd;
          parity_shards = pd;
          stands =
              rw (key, same)
                (subst (λ t. Stands sha a rs k p pr.key s'.dir chunks t) whole
                  (l.stands chunks total refl));
        }

    replace_file-ok :
        (json : Json) (path stub_path : Bytes) (m m' : Manifest) (files : Dir)
        → (replace_file sha c net a rs x json path stub_path m files).0 ≡ ok m'
        → m ≡ m'
    unfolding replace_file
    replace_file-ok json path stub_path m m' files e = ground arith

    after_chunks-Processed :
        (json : Json) (path stub_path : Bytes) (files : Dir) (pr : Prepared sha c net a rs x)
        (s : Run W) (m : Manifest) (r : Result (List Chunk × ℕ)) (s' : Run W)
        → (ch : Checked pr)
        → Chunked sha a rs k p pr.key c net x pr.peers geometry code law pr.limit pr.chunk_size
            false ch.positive
            (take (pr.limit + 1) content)
            s.dir
            0
            r
            s'.dir
        → (after_chunks sha c net a rs x json path stub_path files pr r s').0 ≡ ok m
        → Processed content
            (after_chunks sha c net a rs x json path stub_path files pr r s').1.dir
            m
    unfolding after_chunks
    after_chunks-Processed json path stub_path files pr s m r s' ch l h =
        go (r >>= λ (chunks, total). conclude sha c net a rs x pr path chunks total) refl h
      where
        After : Result Manifest → Result Manifest × Run W × Dir
        After q = elim q [
          | err e ↦ (err e, s', files)
          | ok n ↦
              let (r', files') = replace_file sha c net a rs x json path stub_path n files in
              (r', s', files')
        ]

        go :
            (q : Result Manifest)
            → (r >>= λ (chunks, total). conclude sha c net a rs x pr path chunks total) ≡ q
            → (After q).0 ≡ ok m
            → Processed content (After q).1.dir m
        go (err y) f h = cc
        go (ok n) f h =
            concluded pr path m s r s' ch l
              (f ∙ ap ok (replace_file-ok json path stub_path n m files h))

    run_prepared-Processed :
        (json : Json) (path stub_path : Bytes) (s : Run W) (files : Dir)
        (pr : Prepared sha c net a rs x) (m : Manifest)
        → Checked pr
        → let o =
            run_prepared sha c net a rs x json path stub_path s files pr
              (take (pr.limit + 1) content, false) in
          o.0 ≡ ok m → Processed content o.1.dir m
    unfolding run_prepared
    run_prepared-Processed json path stub_path s files pr m ch h =
        let piece = take (pr.limit + 1) content in
        after_chunks-Processed json path stub_path files pr s m _ _ ch
          (subst
            (λ l.
              let o =
                process_chunks sha c net a rs x l pr.key pr.peers pr.limit pr.chunk_size false
                  (length piece + 1) 0 piece 0 s in
              Chunked sha a rs k p pr.key c net x pr.peers geometry code law pr.limit pr.chunk_size
                false ch.positive piece s.dir 0 o.0 o.1.dir)
            (sym ch.layout_of)
            (process_chunks-Chunked sha a rs k p pr.key c net x pr.peers geometry code law pr.limit
              pr.chunk_size false ch.positive (length piece + 1) 0 piece 0 s))
          h

    read_whole : (limit : ℕ) → limited limit x.source ≡ (take (limit + 1) content, false)
    unfolding limited
    read_whole limit = rw read refl

    -- When `processFile` succeeds, the chunks of its manifest stand for the file's content in the
    -- local store.
    pub process_file-Processed :
        (json : Json) (mesh : Mesh) (path stub_path : Bytes) (s : Run W) (files : Dir)
        (m : Manifest)
        → (process_file sha c net a rs x json mesh path stub_path s files).0 ≡ ok m
        → Processed content (process_file sha c net a rs x json mesh path stub_path s files).1.dir m
    unfolding process_file
    process_file-Processed json mesh path stub_path s files m h =
        go (prepare sha c net a rs x mesh path stub_path files) refl h
      where
        After : Result (Prepared sha c net a rs x) → Result Manifest × Run W × Dir
        After r = elim r [
          | err e ↦ (err e, s, files)
          | ok pr ↦
              run_prepared sha c net a rs x json path stub_path s files pr
                (limited pr.limit x.source)
        ]

        go :
            (r : Result (Prepared sha c net a rs x))
            → prepare sha c net a rs x mesh path stub_path files ≡ r
            → (After r).0 ≡ ok m
            → Processed content (After r).1.dir m
        go (err y) f h = cc
        go (ok pr) f h =
            let ch = prepare-Checked mesh path stub_path files pr geometry dk dp f in
            let run = run_prepared-Processed json path stub_path s files pr m ch in
            subst
              (λ l.
                let o = run_prepared sha c net a rs x json path stub_path s files pr l in
                o.0 ≡ ok m → Processed content o.1.dir m)
              (sym (read_whole pr.limit)) run h
