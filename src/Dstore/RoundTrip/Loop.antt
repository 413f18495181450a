-- ===== src/Dstore/RoundTrip/Loop.antt =====
-- What the loop of `processFile` over the chunks leaves.
use peertopeer.Prelude.{ℕ, zero, suc, ◌+◌, ◌≤◌, ◌<◌, ◌≡◌, ◌≢◌, refl, Bool, true, false, not}
use peertopeer.Prelude.{List, [], ◌∷◌, length, take, drop, arith, ltb, ◌==◌, ◌&&◌}
use peertopeer.Prelude.{take-append-drop, length-take, length-drop, sym, ap, append-nil, subst}
use peertopeer.Prelude.{Result, ok, err, ◌>>=◌, Result-cases, Bool-cases, inl, inr}
use peertopeer.Prelude.Text.{Bytes}
use peertopeer.AtomicFile.{Dir}
use peertopeer.AtomicFile.Keeping.{Keeps, Keeps-refl, Keeps-trans}
use peertopeer.Digest.{Sha256}
use peertopeer.Erasure
use peertopeer.Erasure.{ReedSolomon}
use peertopeer.Erasure.Layouts.{layout, IsGeometry}
use peertopeer.Erasure.Recovery.{IsErasureCode, encode-Coded}
use peertopeer.CryptoFile.{Aead, IsAead, encrypt_chunk, decrypt-encrypt_chunk}
use peertopeer.Manifest.{Chunk, ShardRef}
use peertopeer.Peer.{Peer}
use peertopeer.Dstore.Transfer.{Net}
use peertopeer.Dstore.Process.{Config, Inputs, Run, place_shards}
use peertopeer.Dstore.Pipeline.{seal_chunk, make_chunk, process_chunk, process_chunks, add_chunk}
use peertopeer.Dstore.RoundTrip.Placed.{Placed, place_shards-Loop, Loop}
use peertopeer.Dstore.RoundTrip.Chunks.{Sealed, Sealed-Keeps, Stands, nil, cons}

module _ (sha : Sha256) (a : Aead) (rs : ReedSolomon) (k p : ℕ) (key : Bytes) where
  module _ (c : Config) {W : Type 0} (net : Net W) (x : Inputs) (peers : List Peer)
      (geometry : IsGeometry k p) (code : IsErasureCode rs k p) (law : IsAead a) where
    -- What a step of the loop does to the store, and what the chunk that it returns says.
    record ChunkStep (piece : Bytes) (d : Dir) (r : Result Chunk) (d' : Dir) : Type 0 where
      keeps : Keeps d d'
      sealed : (chunk : Chunk) → r ≡ ok chunk → Sealed sha a rs k p key d' chunk piece

    not_nil : (s : Bytes) → 1 ≤ length s → s ≢ []
    not_nil [] h = λ e. omega arith
    not_nil (b ∷ s) h = λ e. cc

    seal_chunk-parts :
        (i : ℕ) (piece ciphertext nonce : Bytes) (shards : List Bytes)
        → seal_chunk sha c net a rs x (layout k p) key peers i piece
          ≡ ok (ciphertext, nonce, shards)
        → (encrypt_chunk a (x.nonce_at i) piece key ≡ ok (ciphertext, nonce))
          × (Erasure.encode rs (layout k p) ciphertext ≡ ok shards)
    unfolding seal_chunk
    seal_chunk-parts i piece ciphertext nonce shards e =
        go (encrypt_chunk a (x.nonce_at i) piece key) refl
      where
        go :
            (r : Result (Bytes × Bytes))
            → encrypt_chunk a (x.nonce_at i) piece key ≡ r
            → (encrypt_chunk a (x.nonce_at i) piece key ≡ ok (ciphertext, nonce))
              × (Erasure.encode rs (layout k p) ciphertext ≡ ok shards)
        go (err y) h = ground arith
        go (ok (ct, n)) h = elim (Result-cases (Erasure.encode rs (layout k p) ct)) [
          | inr (y, bad) ↦ ground arith
          | inl (ss, good) ↦ ground arith
        ]

    sealed_chunk :
        (d d' : Dir) (i : ℕ) (piece ct n : Bytes) (shards : List Bytes)
        → seal_chunk sha c net a rs x (layout k p) key peers i piece ≡ ok (ct, n, shards)
        → (r : Result (List ShardRef)) → Loop sha c net x shards d r d'
        → (chunk : Chunk)
        → (r >>= (λ refs. ok (make_chunk sha c net a rs x (layout k p) key peers piece ct n refs)))
          ≡ ok chunk
        → Sealed sha a rs k p key d' chunk piece
    sealed_chunk d d' i piece ct n shards e (err y) l chunk f = cc
    sealed_chunk d d' i piece ct n shards e (ok refs) l chunk f =
        let (enc, parts) = seal_chunk-parts i piece ct n shards e in
        let (opens, size, _) = decrypt-encrypt_chunk a (x.nonce_at i) piece key ct n law enc in
        let coded = code.coded ct (not_nil ct (omega arith)) in
        let same : shards ≡ coded.shards =
          ground (arith, encode-Coded rs k p geometry code ct coded) in
        let made : make_chunk sha c net a rs x (layout k p) key peers piece ct n refs ≡ chunk =
          ground arith in
        subst (λ chunk. Sealed sha a rs k p key d' chunk piece) made
          (record {
            ciphertext = ct;
            opens = opens;
            filled = omega arith;
            coded = coded;
            placed = subst (λ ss. Placed sha d' refs ss) same (l.placed refs refl);
            plain_size = refl;
            cipher_size = refl;
          })

    process_chunk-ChunkStep :
        (i : ℕ) (piece : Bytes) (s : Run W)
        → let o = process_chunk sha c net a rs x (layout k p) key peers i piece s in
          ChunkStep piece s.dir o.0 o.1.dir
    unfolding process_chunk
    process_chunk-ChunkStep i piece s =
        go (seal_chunk sha c net a rs x (layout k p) key peers i piece) refl
      where
        Reply : Type 0
        Reply = Result (Bytes × Bytes × List Bytes)

        placed : Bytes → Bytes → List Bytes → Result Chunk × Run W
        placed ct n shards =
            let (r, s') = place_shards sha c net x shards peers s in
            (
              r >>= (λ refs.
                  ok (make_chunk sha c net a rs x (layout k p) key peers piece ct n refs)),
              s',
            )

        sealed :
            (ct n : Bytes) (shards : List Bytes)
            → seal_chunk sha c net a rs x (layout k p) key peers i piece ≡ ok (ct, n, shards)
            → Loop sha c net x shards s.dir
                (place_shards sha c net x shards peers s).0
                (place_shards sha c net x shards peers s).1.dir
            → (chunk : Chunk) → (placed ct n shards).0 ≡ ok chunk
            → Sealed sha a rs k p key (placed ct n shards).1.dir chunk piece
        sealed ct n shards e l chunk f =
            sealed_chunk s.dir (place_shards sha c net x shards peers s).1.dir i piece ct n shards e
              (place_shards sha c net x shards peers s).0 l chunk f

        go :
            (r : Reply)
            → seal_chunk sha c net a rs x (layout k p) key peers i piece ≡ r
            → let o : Result Chunk × Run W = elim r [
              | err e ↦ (err e, s)
              | ok (ct, n, shards) ↦ placed ct n shards
            ] in
              ChunkStep piece s.dir o.0 o.1.dir
        go (err y) e = record { keeps = Keeps-refl s.dir; sealed = λ chunk f. cc }
        go (ok (ct, n, shards)) e =
            let l = place_shards-Loop sha c net x shards peers s in
            record { keeps = l.keeps; sealed = sealed ct n shards e l }

    module _ (limit chunk_size : ℕ) (fails : Bool) (positive : 1 ≤ chunk_size) where
      -- The chunks of a loop that succeeds stand for all that was left to read.
      pub record Chunked (rest : Bytes) (d : Dir) (total : ℕ) (r : Result (List Chunk × ℕ))
          (d' : Dir) : Type 0 where
        pub keeps : Keeps d d'
        pub stands :
            (chunks : List Chunk) (sum : ℕ)
            → r ≡ ok (chunks, sum)
            → Stands sha a rs k p key d' chunks rest
        pub sums :
            (chunks : List Chunk) (sum : ℕ) → r ≡ ok (chunks, sum) → sum ≡ total + length rest

      stopped : (rest : Bytes) (d : Dir) (total : ℕ) (e : _) → Chunked rest d total (err e) d
      stopped rest d total e = record {
        keeps = Keeps-refl d;
        stands = λ chunks sum h. cc;
        sums = λ chunks sum h. cc;
      }

      take-all :
          (rest : Bytes)
          → ltb (length (take chunk_size rest)) chunk_size ≡ true
          → take chunk_size rest ≡ rest
      take-all rest h = short chunk_size rest (ground (arith, length-take chunk_size rest))
        where
          short : (n : ℕ) (s : Bytes) → length s < n → take n s ≡ s
          short zero s h = elim h [ ]
          short (suc n) [] h = refl
          short (suc n) (b ∷ s) h = rw (short n s (omega arith))

      length-nil : (s : Bytes) → length s ≡ 0 → s ≡ []
      length-nil [] h = refl
      length-nil (b ∷ s) h = absurd (omega arith)

      add_chunk-Chunked :
          (rest : Bytes) (total sum : ℕ) {d : Dir} (made : Result Chunk) (s₁ : Run W) (last : Bool)
          (more : Result (List Chunk × ℕ) × Run W)
          → sum ≡ total + length (take chunk_size rest)
          → ltb (length (take chunk_size rest)) chunk_size ≡ last
          → ChunkStep (take chunk_size rest) d made s₁.dir
          → Chunked (drop chunk_size rest) s₁.dir sum more.0 more.1.dir
          → let o = add_chunk made s₁ last sum more in Chunked rest d total o.0 o.1.dir
      add_chunk-Chunked rest total sum (err e) s₁ last more q h st m = record {
        keeps = st.keeps;
        stands = λ chunks n f. cc;
        sums = λ chunks n f. cc;
      }
      add_chunk-Chunked rest total sum (ok chunk) s₁ true more q h st m = record {
        keeps = st.keeps;
        stands = λ chunks n f.
            let one : chunk ∷ [] ≡ chunks = ground arith in
            subst (λ cs. Stands sha a rs k p key s₁.dir cs rest) one
              (cons rest [] (sym (append-nil rest))
                (subst (λ piece. Sealed sha a rs k p key s₁.dir chunk piece) (take-all rest h)
                  (st.sealed chunk refl))
                nil);
        sums = λ chunks n f.
            let whole : length (take chunk_size rest) ≡ length rest = ap length (take-all rest h) in
            ground (arith, q, whole);
      }
      add_chunk-Chunked rest total sum (ok chunk) s₁ false (err e, s₂) q h st m = record {
        keeps = Keeps-trans st.keeps m.keeps;
        stands = λ chunks n f. cc;
        sums = λ chunks n f. cc;
      }
      add_chunk-Chunked rest total sum (ok chunk) s₁ false (ok (others, t), s₂) q h st m = record {
        keeps = Keeps-trans st.keeps m.keeps;
        stands = λ chunks n f.
            let all : chunk ∷ others ≡ chunks = ground arith in
            subst (λ cs. Stands sha a rs k p key s₂.dir cs rest) all
              (cons (take chunk_size rest) (drop chunk_size rest)
                (sym (take-append-drop chunk_size rest))
                (Sealed-Keeps sha a rs k p key m.keeps (st.sealed chunk refl))
                (m.stands others t refl));
        sums = λ chunks n f. ground (
          arith,
          q,
          m.sums others t refl,
          length-take chunk_size rest,
          length-drop chunk_size rest,
        );
      }

      pub process_chunks-Chunked :
          (fuel i : ℕ) (rest : Bytes) (total : ℕ) (s : Run W)
          → let o =
              process_chunks sha c net a rs x
                (layout k p)
                key
                peers
                limit
                chunk_size
                fails
                fuel
                i
                rest
                total
                s in
            Chunked rest s.dir total o.0 o.1.dir
      unfolding process_chunks
      process_chunks-Chunked zero i rest total s = record {
        keeps = Keeps-refl s.dir;
        stands = λ chunks sum e. cc;
        sums = λ chunks sum e. cc;
      }
      process_chunks-Chunked (suc fuel) i rest total s =
          let piece = take chunk_size rest in
          let n = length piece in
          let st = process_chunk-ChunkStep i piece s in
          let s₁ = (process_chunk sha c net a rs x (layout k p) key peers i piece s).1 in
          let more = process_chunks-Chunked fuel (i + 1) (drop chunk_size rest) (total + n) s₁ in
          elim (Bool-cases (x.cancelled_at i)) [
            | inl e ↦ simp e (stopped rest s.dir total _)
            | inr e₁ ↦ elim (Bool-cases (ltb n chunk_size && fails)) [
              | inl e ↦ simp (e₁, e) (stopped rest s.dir total _)
              | inr e₂ ↦ elim (Bool-cases ((n == 0) && not (total == 0))) [
                | inl e ↦
                    simp (e₁, e₂, e)
                      (at_end rest s.dir total (ground (arith, length-take chunk_size rest)))
                | inr e₃ ↦ elim (Bool-cases (ltb limit (total + n))) [
                  | inl e ↦ simp (e₁, e₂, e₃, e) (stopped rest s.dir total _)
                  | inr e₄ ↦
                      simp (e₁, e₂, e₃, e₄)
                        (add_chunk-Chunked rest total (total + n) _ s₁ (ltb n chunk_size) _ refl
                          refl st more)
                ]
              ]
            ]
          ]
        where
          at_end :
              (rest : Bytes) (d : Dir) (total : ℕ)
              → length rest ≡ 0
              → Chunked rest d total (ok ([], total)) d
          at_end rest d total h = record {
            keeps = Keeps-refl d;
            stands = λ chunks n f.
                let none_left : rest ≡ [] = length-nil rest h in
                let no_chunk : [] ≡ chunks = ground arith in
                rw none_left (subst (λ cs. Stands sha a rs k p key d cs []) no_chunk nil);
            sums = λ chunks n f. ground (arith, h);
          }
