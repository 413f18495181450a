-- ===== src/Dstore/RoundTrip/Missing.antt =====
-- Restores of `restoreChunked` of internal/dstore/dstore.go with some of the shards missing.
use peertopeer.Prelude.{ℕ, ◌+◌, ◌≤◌, ◌<◌, ◌≡◌, refl, ◌∙◌, Bool, false, arith, leb}
use peertopeer.Prelude.{
  List, [], ◌∷◌, length, Result, ok, err, Error, Result-cases, Bool-cases, inl, inr, ◌⊎◌,
}
use peertopeer.Prelude.Text.{Bytes, equal_iff, is_empty}
use peertopeer.Prelude.Int.{pos_part}
use peertopeer.AtomicFile.{Dir}
use peertopeer.Digest.{Sha256, hash}
use peertopeer.LocalStore.Integrity.{get-hash}
use peertopeer.Erasure
use peertopeer.Erasure.{ReedSolomon}
use peertopeer.Erasure.Layouts.{layout, IsGeometry, validate-layout, total_shards-layout}
use peertopeer.Erasure.Recovery.{Survives, Survives-length, present, IsErasureCode, decode-Coded}
use peertopeer.CryptoFile.{Aead}
use peertopeer.Manifest.{Chunk, ShardRef}
use peertopeer.Dstore.Transfer.{Net, download_shard, fetch_local, fetch_shard}
use peertopeer.Dstore.Restore.{
  RestoreInputs, fetch_one, fetch_all, shard_bound, open_chunk, restore_chunks,
}
use peertopeer.Dstore.RoundTrip.Placed.{Placed, Held}
use peertopeer.Dstore.RoundTrip.Fetched.{Unique, Held-unique}
use peertopeer.Dstore.RoundTrip.Chunks.{Sealed, Stands, nil, cons}

-- The library documents that it cannot make the shards of a layout from too few of them.
pub record IsStrict (rs : ReedSolomon) (k p : ℕ) : Type 0 where
  pub too_few :
      (got : List Bytes)
      → length got ≡ k + p
      → present got < k
      → (e : Error) × (rs.reconstruct k p got ≡ err e)

module _ (sha : Sha256) {W : Type 0} (net : Net W) (a : Aead) (rs : ReedSolomon) (x : RestoreInputs)
    (allow_local : Bool) (store : Dir) (share_id : Bytes) where
  -- What is fetched has the hash that was asked for, from wherever it comes.
  pub fetch_shard-hash :
      (max_bytes : ℕ) (ref : ShardRef) (w : W) (s : Bytes)
      → (fetch_shard sha net allow_local x.read_fails store w ref share_id max_bytes).0 ≡ ok s
      → hash sha s ≡ ref.hash
  unfolding fetch_shard fetch_local
  fetch_shard-hash max_bytes ref w s e =
      elim (Result-cases (download_shard net w ref.url share_id max_bytes).0) [
        | inr (y, bad) ↦ ground (arith, get-hash sha x.read_fails ref.hash s store)
        | inl (got, good) ↦
            ground
              (arith, get-hash sha x.read_fails ref.hash s store, equal_iff (hash sha got) ref.hash)
      ]

  module _ (d : Dir) (unique : Unique sha d) where
    fetch_one-Survives :
        (max_bytes : ℕ) (ref : ShardRef) (s : Bytes) (w : W)
        → ref.hash ≡ hash sha s
        → Held sha d s
        → let g = (fetch_one sha net a rs x allow_local store share_id max_bytes ref w).0 in
          (g ≡ []) ⊎ (g ≡ s)
    unfolding fetch_one
    fetch_one-Survives max_bytes ref s w name held = elim (Bool-cases (is_empty ref.hash)) [
      | inl e ↦ simp e (inl refl)
      | inr e ↦ simp e (go _ refl)
    ]
      where
        fetched : Result Bytes × W
        fetched = fetch_shard sha net allow_local x.read_fails store w ref share_id max_bytes

        go :
            (r : Result Bytes)
            → fetched.0 ≡ r
            → let o : Bytes × W = elim r [
              | err _ ↦ ([], fetched.1)
              | ok shard ↦ (shard, fetched.1)
            ] in
              (o.0 ≡ []) ⊎ (o.0 ≡ s)
        go (err y) f = inl refl
        go (ok g) f =
            inr (Held-unique sha d unique g held (fetch_shard-hash max_bytes ref w g f ∙ name))

    -- What is found of some shards is these shards, each at its place.
    pub fetch_all-Survives :
        (max_bytes : ℕ) (refs : List ShardRef) (shards : List Bytes) (w : W)
        → Placed sha d refs shards
        → Survives (fetch_all sha net a rs x allow_local store share_id max_bytes refs w).0 shards
    unfolding fetch_all
    fetch_all-Survives max_bytes [] [] w p = tt
    fetch_all-Survives max_bytes [] (s ∷ shards) w p = absurd p
    fetch_all-Survives max_bytes (ref ∷ refs) [] w p = absurd p
    fetch_all-Survives max_bytes (ref ∷ refs) (s ∷ shards) w (name, held, p) = (
      fetch_one-Survives max_bytes ref s w name held,
      fetch_all-Survives max_bytes refs shards _ p,
    )

  module _ (k p : ℕ) where
    abbrev pub fetched : Chunk → W → List Bytes × W
    fetched chunk =
        fetch_all sha net a rs x allow_local store share_id
          (shard_bound sha net a rs x allow_local store share_id (layout k p) chunk.ciphertext_size)
          chunk.shards

    -- Of each chunk as many shards are found as the layout has data shards.
    abbrev pub Enough : List Chunk → W → Type 0
    Enough [] w = Unit
    Enough (chunk ∷ chunks) w =
        (k ≤ present (fetched chunk w).0) × Enough chunks (fetched chunk w).1

    module _ (key : Bytes) (d : Dir) (unique : Unique sha d) (geometry : IsGeometry k p)
        (code : IsErasureCode rs k p) (goes_on : (i : ℕ) → x.cancelled_at i ≡ false) where
      open_chunk-Enough :
          (chunk : Chunk) (piece : Bytes) (w : W) (s : Sealed sha a rs k p key d chunk piece)
          → k ≤ present (fetched chunk w).0
          → open_chunk sha net a rs x allow_local store share_id
              (layout k p)
              key
              chunk
              (fetched chunk w).0
            ≡ ok piece
      unfolding open_chunk
      open_chunk-Enough chunk piece w s enough =
          let found = fetch_all-Survives d unique _ chunk.shards s.coded.shards w s.placed in
          let decoded =
            decode-Coded rs k p geometry code s.ciphertext s.coded (fetched chunk w).0 found
              enough in
          ground (arith, s.cipher_size, decoded, s.opens, s.plain_size)

      -- The chunks are restored if enough is found of each, whatever else the network answers.
      pub restore_chunks-Enough :
          (i : ℕ) (chunks : List Chunk) (content : Bytes) (w : W)
          → Stands sha a rs k p key d chunks content
          → Enough chunks w
          → (restore_chunks sha net a rs x allow_local store share_id (layout k p) key i chunks w).0
            ≡ ok content
      unfolding restore_chunks
      restore_chunks-Enough i [] content w nil h = refl
      restore_chunks-Enough i (chunk ∷ chunks) content w (cons piece rest e s more) (enough, h) =
          ground (
            arith,
            goes_on i,
            open_chunk-Enough chunk piece w s enough,
            restore_chunks-Enough (i + 1) chunks rest (fetched chunk w).1 more h,
          )

      module _ (strict : IsStrict rs k p) where
        decode_needs :
            (got : List Bytes) (n : ℕ) (content : Bytes)
            → length got ≡ k + p
            → Erasure.decode rs (layout k p) got n ≡ ok content
            → k ≤ present got
        unfolding Erasure.decode
        decode_needs got n content count e = elim (Bool-cases (leb k (present got))) [
          | inl enough ↦ ground arith
          | inr few ↦
              let (y, bad) = strict.too_few got count (ground arith) in
              ground (
                arith,
                validate-layout k p geometry,
                total_shards-layout k p geometry,
                code.new-ok,
                count,
                bad,
              )
        ]

        open_chunk_needs :
            (chunk : Chunk) (got : List Bytes) (piece : Bytes)
            → length got ≡ k + p
            → open_chunk sha net a rs x allow_local store share_id (layout k p) key chunk got
              ≡ ok piece
            → k ≤ present got
        unfolding open_chunk
        open_chunk_needs chunk got piece count e =
            elim (Result-cases
              (Erasure.decode rs (layout k p) got (pos_part chunk.ciphertext_size))) [
                | inr (y, bad) ↦ ground arith
                | inl (c, good) ↦ decode_needs got _ c count good
              ]

        pub restore_chunks_needs :
            (i : ℕ) (chunks : List Chunk) (content out : Bytes) (w : W)
            → Stands sha a rs k p key d chunks content
            → (restore_chunks sha net a rs x allow_local store share_id
                (layout k p)
                key
                i
                chunks
                w).0
              ≡ ok out
            → Enough chunks w
        unfolding restore_chunks
        restore_chunks_needs i [] content out w nil h = tt
        restore_chunks_needs i (chunk ∷ chunks) content out w (cons piece rest e s more) h =
            let found = fetch_all-Survives d unique _ chunk.shards s.coded.shards w s.placed in
            let count = Survives-length (fetched chunk w).0 s.coded.shards found ∙ s.coded.count in
            elim (Result-cases (
              open_chunk sha net a rs x allow_local store share_id (layout k p) key chunk
                (fetched chunk w).0)) [
                  | inr (y, bad) ↦ absurd (ground (arith, goes_on i))
                  | inl (piece', opened) ↦
                      elim (Result-cases
                        (restore_chunks sha net a rs x allow_local store share_id (layout k p) key
                          (i + 1) chunks (fetched chunk w).1).0) [
                            | inr (y, bad) ↦ absurd (ground (arith, goes_on i))
                            | inl (more', rests) ↦ (
                              open_chunk_needs chunk (fetched chunk w).0 piece' count opened,
                              restore_chunks_needs (i + 1) chunks rest more' (fetched chunk w).1
                                  more rests,
                            )
                          ]
                ]
