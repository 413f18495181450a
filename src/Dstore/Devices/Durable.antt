-- ===== src/Dstore/Devices/Durable.antt =====
-- What `processFile` of internal/dstore/dstore.go leaves at the peers.
use peertopeer.Prelude.{ℕ, zero, suc, ◌+◌, ◌≡◌, refl, Bool, true, false, not, ◌&&◌, ◌==◌, ltb}
use peertopeer.Prelude.{List, [], ◌∷◌, length, take, drop, All, arith, inl, inr}
use peertopeer.Prelude.{Result, ok, err, ◌>>=◌, Result-cases, Bool-cases, subst, ap}
use peertopeer.Prelude.{◌∙◌}
use peertopeer.Prelude.Int.{pos}
use peertopeer.Prelude.Text.{Bytes}
use peertopeer.AtomicFile.{Dir}
use peertopeer.CryptoFile.{Aead}
use peertopeer.Digest.{Sha256}
use peertopeer.Erasure.{Layout, ReedSolomon}
use peertopeer.Manifest.{Manifest, Chunk, ShardRef, Json, new_chunked}
use peertopeer.Manifest.Path.{base}
use peertopeer.Manifest.RoundTrip.{new_chunked-Made}
use peertopeer.Peer.{Peer}
use peertopeer.Dstore.Placement.{Mesh}
use peertopeer.Dstore.Transfer.{Net}
use peertopeer.Dstore.Process.{Config, Inputs, Run, place_shards}
use peertopeer.Dstore.Pipeline.{
  Prepared, prepare, conclude, seal_chunk, make_chunk, process_chunk, process_chunks, add_chunk,
  process_file, replace_file, limited, after_chunks, run_prepared,
}
use peertopeer.Dstore.Devices.{IsMesh, Safe}
use peertopeer.Dstore.Devices.Push.{Grows-refl, Grows-trans}
use peertopeer.Dstore.Devices.Placing.{
  AllThere, AllThere-Grows, Leaves, failing, place_shards-Leaves,
}

module _ (sha : Sha256) (c : Config) {W : Type 0} (net : Net W) (m : IsMesh sha net) (a : Aead)
    (rs : ReedSolomon) (x : Inputs) where
  -- The shards of a chunk are where its references say.
  abbrev There : W → Chunk → Type 0
  There w chunk = All (Safe sha net m w) chunk.shards

  abbrev Summed : W → List Chunk × ℕ → Type 0
  Summed w (chunks, total) = AllThere sha net m w chunks

  module _ (layout : Layout) (key : Bytes) (peers : List Peer) where
    made_chunk :
        (w : W) (piece ct n : Bytes) (r : Result (List ShardRef)) (s : Run W)
        → Leaves sha net m (λ w'. All (Safe sha net m w')) w r s.world
        → Leaves sha net m There w
            (r >>= (λ refs. ok (make_chunk sha c net a rs x layout key peers piece ct n refs)))
            s.world
    made_chunk w piece ct n (err e) s l = record { grows = l.grows; holds = λ chunk f. cc }
    made_chunk w piece ct n (ok refs) s l = record {
      grows = l.grows;
      holds = λ chunk f.
          let same : make_chunk sha c net a rs x layout key peers piece ct n refs ≡ chunk =
            ground arith in
          subst (There s.world) same (l.holds refs refl);
    }

    process_chunk-Leaves :
        (i : ℕ) (piece : Bytes) (s : Run W)
        → let o = process_chunk sha c net a rs x layout key peers i piece s in
          Leaves sha net m There s.world o.0 o.1.world
    unfolding process_chunk
    process_chunk-Leaves i piece s = go (seal_chunk sha c net a rs x layout key peers i piece)
      where
        go :
            (r : Result (Bytes × Bytes × List Bytes))
            → let o : Result Chunk × Run W = elim r [
              | err e ↦ (err e, s)
              | ok (ct, n, shards) ↦
                  let (r, s') = place_shards sha c net x shards peers s in
                  (
                    r >>= (λ refs.
                        ok (make_chunk sha c net a rs x layout key peers piece ct n refs)),
                    s',
                  )
            ] in
              Leaves sha net m There s.world o.0 o.1.world
        go (err y) = failing sha net m There s.world y
        go (ok (ct, n, shards)) =
            made_chunk s.world piece ct n _ (place_shards sha c net x shards peers s).1
              (place_shards-Leaves sha c net m x shards peers s)

    add_chunk-Leaves :
        (w : W) (sum : ℕ) (made : Result Chunk) (s₁ : Run W) (last : Bool)
        (more : Result (List Chunk × ℕ) × Run W)
        → Leaves sha net m There w made s₁.world
        → Leaves sha net m Summed s₁.world more.0 more.1.world
        → let o = add_chunk made s₁ last sum more in Leaves sha net m Summed w o.0 o.1.world
    add_chunk-Leaves w sum (err e) s₁ last more st l = record {
      grows = st.grows;
      holds = λ q f. cc;
    }
    add_chunk-Leaves w sum (ok chunk) s₁ true more st l = record {
      grows = st.grows;
      holds = λ q f.
          let one : (chunk ∷ [], sum) ≡ q = ground arith in
          subst (Summed s₁.world) one (st.holds chunk refl, tt);
    }
    add_chunk-Leaves w sum (ok chunk) s₁ false (err e, s₂) st l = record {
      grows = Grows-trans sha net m st.grows l.grows;
      holds = λ q f. cc;
    }
    add_chunk-Leaves w sum (ok chunk) s₁ false (ok (others, t), s₂) st l = record {
      grows = Grows-trans sha net m st.grows l.grows;
      holds = λ q f.
          let all : (chunk ∷ others, t) ≡ q = ground arith in
          let first = AllThere-Grows sha net m (chunk ∷ []) l.grows (st.holds chunk refl, tt) in
          subst (Summed s₂.world) all (first.0, l.holds (others, t) refl);
    }

    module _ (limit chunk_size : ℕ) (fails : Bool) where
      process_chunks-Leaves :
          (fuel i : ℕ) (rest : Bytes) (total : ℕ) (s : Run W)
          → let o =
              process_chunks sha c net a rs x layout key peers limit chunk_size fails fuel i rest
                total s in
            Leaves sha net m Summed s.world o.0 o.1.world
      unfolding process_chunks
      process_chunks-Leaves zero i rest total s = failing sha net m Summed s.world _
      process_chunks-Leaves (suc fuel) i rest total s =
          let piece = take chunk_size rest in
          let n = length piece in
          let s₁ = (process_chunk sha c net a rs x layout key peers i piece s).1 in
          let more = process_chunks-Leaves fuel (i + 1) (drop chunk_size rest) (total + n) s₁ in
          elim (Bool-cases (x.cancelled_at i)) [
            | inl e ↦ simp e (failing sha net m Summed s.world _)
            | inr e₁ ↦ elim (Bool-cases (ltb n chunk_size && fails)) [
              | inl e ↦ simp (e₁, e) (failing sha net m Summed s.world _)
              | inr e₂ ↦ elim (Bool-cases ((n == 0) && not (total == 0))) [
                | inl e ↦ simp (e₁, e₂, e) (ended s total)
                | inr e₃ ↦ elim (Bool-cases (ltb limit (total + n))) [
                  | inl e ↦ simp (e₁, e₂, e₃, e) (failing sha net m Summed s.world _)
                  | inr e₄ ↦
                      simp (e₁, e₂, e₃, e₄)
                        (add_chunk-Leaves s.world (total + n) _ s₁ (ltb n chunk_size) _
                          (process_chunk-Leaves i piece s) more)
                ]
              ]
            ]
          ]
        where
          ended : (s : Run W) (total : ℕ) → Leaves sha net m Summed s.world (ok ([], total)) s.world
          ended s total = record {
            grows = Grows-refl sha net m s.world;
            holds = λ q f.
                let none_left : ([], total) ≡ q = ground arith in
                subst (Summed s.world) none_left tt;
          }

  conclude-chunks :
      (pr : Prepared sha c net a rs x) (path : Bytes) (chunks : List Chunk) (total : ℕ)
      (man : Manifest)
      → conclude sha c net a rs x pr path chunks total ≡ ok man
      → man.chunks ≡ chunks
  unfolding conclude
  conclude-chunks pr path chunks total man e = elim (Result-cases x.file_id) [
    | inr (y, bad) ↦ ground arith
    | inl (id, known) ↦
        elim (Result-cases
          (new_chunked pr.layout id (base path) (pos total) (pos pr.chunk_size) pr.key chunks)) [
            | inr (y, bad) ↦ ground arith
            | inl (m₀, good) ↦
                let v =
                  new_chunked-Made pr.layout id (base path) (pos total) (pos pr.chunk_size) pr.key
                    chunks m₀ good in
                ground (arith, v.result)
          ]
  ]

  module _ (json : Json) (path stub_path : Bytes) where
    replace_file-same :
        (man man' : Manifest) (files : Dir)
        → (replace_file sha c net a rs x json path stub_path man files).0 ≡ ok man'
        → man ≡ man'
    unfolding replace_file
    replace_file-same man man' files e = ground arith

    -- The state and the manifest of a run that has come to its end.
    abbrev Kept : Manifest → Result Manifest × Run W × Dir → Type 0
    Kept man o = o.0 ≡ ok man → AllThere sha net m o.1.world man.chunks

    after_chunks-Kept :
        (files : Dir) (pr : Prepared sha c net a rs x) (w : W) (man : Manifest)
        (r : Result (List Chunk × ℕ)) (s' : Run W)
        → Leaves sha net m Summed w r s'.world
        → Kept man (after_chunks sha c net a rs x json path stub_path files pr r s')
    unfolding after_chunks
    after_chunks-Kept files pr w man (err e) s' l f = cc
    after_chunks-Kept files pr w man (ok (chunks, total)) s' l f =
        go (conclude sha c net a rs x pr path chunks total) refl f
      where
        After : Result Manifest → Result Manifest × Run W × Dir
        After q = elim q [
          | err e ↦ (err e, s', files)
          | ok n ↦
              let (r', files') = replace_file sha c net a rs x json path stub_path n files in
              (r', s', files')
        ]

        go :
            (q : Result Manifest)
            → conclude sha c net a rs x pr path chunks total ≡ q
            → Kept man (After q)
        go (err y) e f = cc
        go (ok n) e f =
            let same =
              conclude-chunks pr path chunks total man
                (e ∙ ap ok (replace_file-same n man files f)) in
            rw same (l.holds (chunks, total) refl)

    -- When `processFile` succeeds, after which the original may be gone, each reference of the
    -- manifest is one to the local store, or the device that its URL leads to has a file of the
    -- reference's hash under that hash. The conditions: the network leads to devices that run the
    -- shard server; a request may be lost or handled, a body that arrives in full is the one that was
    -- sent, and other callers upload meanwhile, but delete nothing.
    pub process_file-Durable :
        (mesh : Mesh) (s : Run W) (files : Dir) (man : Manifest)
        → (process_file sha c net a rs x json mesh path stub_path s files).0 ≡ ok man
        → AllThere sha net m
            (process_file sha c net a rs x json mesh path stub_path s files).1.world
            man.chunks
    unfolding process_file run_prepared
    process_file-Durable mesh s files man = go (prepare sha c net a rs x mesh path stub_path files)
      where
        After : Result (Prepared sha c net a rs x) → Result Manifest × Run W × Dir
        After r = elim r [
          | err e ↦ (err e, s, files)
          | ok pr ↦
              run_prepared sha c net a rs x json path stub_path s files pr
                (limited pr.limit x.source)
        ]

        go : (r : Result (Prepared sha c net a rs x)) → Kept man (After r)
        go (err y) f = cc
        go (ok pr) f =
            let content = (limited pr.limit x.source).0 in
            after_chunks-Kept files pr s.world man _ _
              (process_chunks-Leaves pr.layout pr.key pr.peers pr.limit pr.chunk_size
                (limited pr.limit x.source).1 (length content + 1) 0 content 0 s)
              f
