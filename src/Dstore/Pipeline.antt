-- ===== src/Dstore/Pipeline.antt =====
-- The rest of `processFile`: the loop over the chunks, the checks before it and the stub after it.
use peertopeer.Prelude.{ℕ, zero, suc, ◌+◌, ◌-◌, ◌*◌, ◌/◌, ◌^◌, Bool, true, false, ◌&&◌, ◌||◌, not}
use peertopeer.Prelude.{Option, none, some, List, [], ◌∷◌, length, take, drop, ltb, ◌==◌}
use peertopeer.Prelude.{if◌then◌else◌, Result, ok, err, failed, ◌>>=◌, ◌>>◌, reject_if}
use peertopeer.Prelude.Text.{Bytes, text, is_empty, has_suffix}
use peertopeer.Prelude.Dict.{lookup, erase}
use peertopeer.Prelude.Int.{ℤ, pos, ltb_ℤ, pos_part}
use peertopeer.AtomicFile.{Dir, write_new, exists}
use peertopeer.Digest.{Sha256}
use peertopeer.Erasure
use peertopeer.Erasure.{Layout, ReedSolomon, new_layout, total_shards}
use peertopeer.CryptoFile.{Aead, encrypt_chunk}
use peertopeer.Manifest.{Manifest, Chunk, ShardRef, Json, marshal, new_chunked}
use peertopeer.Manifest.Path.{base}
use peertopeer.Peer.{Peer}
use peertopeer.ShardServer.{Body, full, broken}
use peertopeer.Dstore.Placement.{Mesh, shard_peers}
use peertopeer.Dstore.Transfer.{Net}
use peertopeer.Dstore.Process.{Config, Inputs, Run, place_shards}

abbrev pub stub_extension : Bytes
stub_extension = text ".dstore"

-- `io.LimitReader(f, limit+1)`: the bytes, and whether the reading ends in an error.
unfoldable pub limited : ℕ → Body → Bytes × Bool
limited limit (full s) = (take (limit + 1) s, false)
limited limit (broken s) = (take (limit + 1) s, ltb (length s) (limit + 1))

-- The loop goes on after a chunk that was made from a full piece.
abbrev pub add_chunk {ℓ} :
    {S : Type ℓ}
    → Result Chunk
    → S
    → Bool
    → ℕ
    → Result (List Chunk × ℕ) × S
    → Result (List Chunk × ℕ) × S
add_chunk (err e) s last total rest = (err e, s)
add_chunk (ok chunk) s true total rest = (ok (chunk ∷ [], total), s)
add_chunk (ok chunk) s false total rest =
    (rest.0 >>= (λ (chunks, sum). ok (chunk ∷ chunks, sum)), rest.1)

module _ (sha : Sha256) (c : Config) {W : Type 0} (net : Net W) (a : Aead) (rs : ReedSolomon)
    (x : Inputs) where
  module _ (layout : Layout) (key : Bytes) (peers : List Peer) where
    -- A chunk's ciphertext, its nonce and its shards.
    unfoldable pub seal_chunk : ℕ → Bytes → Result (Bytes × Bytes × List Bytes)
    seal_chunk i piece = encrypt_chunk a (x.nonce_at i) piece key >>= λ (ciphertext, nonce).
        Erasure.encode rs layout ciphertext >>= λ shards. ok (ciphertext, nonce, shards)

    abbrev pub make_chunk : Bytes → Bytes → Bytes → List ShardRef → Chunk
    make_chunk piece ciphertext nonce refs = record {
      plaintext_size = pos (length piece);
      ciphertext_size = pos (length ciphertext);
      nonce = nonce;
      shards = refs;
    }

    -- The body of the loop, for the piece that was read.
    unfoldable pub process_chunk : ℕ → Bytes → Run W → Result Chunk × Run W
    process_chunk i piece s = elim (seal_chunk i piece) [
      | err e ↦ (err e, s)
      | ok (ciphertext, nonce, shards) ↦
          let (r, s') = place_shards sha c net x shards peers s in
          (r >>= (λ refs. ok (make_chunk piece ciphertext nonce refs)), s')
    ]

    module _ (limit chunk_size : ℕ) (fails : Bool) where
      -- The loop. Each round reads a piece; one that is not full ends the loop.
      unfoldable pub process_chunks : ℕ → ℕ → Bytes → ℕ → Run W → Result (List Chunk × ℕ) × Run W
      process_chunks zero i rest total s = (err (failed "out of fuel"), s)
      process_chunks (suc fuel) i rest total s =
          let piece = take chunk_size rest in
          let n = length piece in
          let last = ltb n chunk_size in
          let (made, s') = process_chunk i piece s in
          let (more, s'') = process_chunks fuel (i + 1) (drop chunk_size rest) (total + n) s' in
          if x.cancelled_at i
          then (err (failed "context"), s)
          else if last && fails
          then (err (failed "read original"), s)
          else if (n == 0) && not (total == 0)
          then (ok ([], total), s)
          else if ltb limit (total + n)
          then (err (failed "file exceeds limit"), s)
          else add_chunk made s' last (total + n) (more, s'')

  -- What the checks before the loop find.
  pub record Prepared : Type 0 where
    pub layout : Layout
    pub limit : ℕ
    pub chunk_size : ℕ
    pub size : ℕ
    pub key : Bytes
    pub peers : List Peer

  or_default : ℤ → ℕ → ℕ
  or_default n d = if ltb_ℤ (pos 0) n then pos_part n else d

  unfoldable pub file_limit : ℕ
  unfolding or_default
  file_limit = or_default c.max_file_bytes (64 * 2 ^ 20)

  unfoldable pub piece_size : ℕ
  unfolding or_default
  piece_size = or_default c.chunk_size (16 * 2 ^ 20)

  found : Option Bytes → Result Bytes
  found none = err (failed "stat original")
  found (some content) = ok content

  -- `maxShardBytes` of a file of this size.
  unfoldable pub max_shard_bytes : Layout → ℕ → ℕ
  max_shard_bytes layout size =
      let k = pos_part layout.data_shards in
      let piece = if ltb size piece_size then size else piece_size in (piece + 16 + k - 1) / k

  -- The checks before the loop, in their order.
  unfoldable pub prepare : Mesh → Bytes → Bytes → Dir → Result Prepared
  unfolding found
  prepare mesh path stub_path files = do
    reject_if x.cancelled_at_start (failed "context")
    reject_if (has_suffix path stub_extension) (failed "refusing to process stub file")
    reject_if (is_empty c.shard_dir) (failed "shard directory is required")
    layout ← new_layout c.data_shards c.parity_shards
    reject_if (exists stub_path files) (failed "manifest already exists")
    info ← found (lookup path files)
    reject_if (ltb (2 ^ 40) file_limit) (failed "file limit is too large")
    reject_if (ltb file_limit (length info)) (failed "file exceeds limit")
    reject_if (ltb (2 ^ 30) piece_size) (failed "chunk size is too large")
    reject_if x.open_fails (failed "open")
    reject_if (not x.same_at_open) (failed "source changed before reading")
    key ← x.key
    peers ←
        shard_peers c.policy mesh (pos_part (total_shards layout))
          (max_shard_bytes layout (length info))
    ok (record {
      layout = layout;
      limit = file_limit;
      chunk_size = piece_size;
      size = length info;
      key = key;
      peers = peers;
    })

  -- The manifest, and the checks between the loop and the stub.
  unfoldable pub conclude : Prepared → Bytes → List Chunk → ℕ → Result Manifest
  conclude p path chunks total = do
    id ← x.file_id
    m ← new_chunked p.layout id (base path) (pos total) (pos p.chunk_size) p.key chunks
    reject_if (not x.same_at_end || not (total == p.size))
        (failed "source changed during upload; original retained")
    reject_if x.cancelled_at_end (failed "context")
    ok (record m { share_id = c.policy.share_id })

  -- The stub is published before the original is removed.
  unfoldable pub replace_file : Json → Bytes → Bytes → Manifest → Dir → Result Manifest × Dir
  replace_file json path stub_path m files =
      let (r, files') = write_new x.stub_faults x.stub_tmp stub_path (marshal json m) files in
      elim r [
        | err _ ↦ (err (failed "write stub"), files')
        | ok _ ↦
            if c.keep_original
            then (ok m, files')
            else if x.remove_fails
            then (err (failed "remove original after stub write"), files')
            else (ok m, erase path files')
      ]

  -- What follows the loop.
  unfoldable pub after_chunks :
      Json
      → Bytes
      → Bytes
      → Dir
      → Prepared
      → Result (List Chunk × ℕ)
      → Run W
      → Result Manifest × Run W × Dir
  after_chunks json path stub_path files p r s =
      elim (r >>= λ (chunks, total). conclude p path chunks total) [
        | err e ↦ (err e, s, files)
        | ok m ↦ let (r', files') = replace_file json path stub_path m files in (r', s, files')
      ]

  -- What follows the checks: the loop over what is read, and its rest.
  unfoldable pub run_prepared :
      Json → Bytes → Bytes → Run W → Dir → Prepared → Bytes × Bool → Result Manifest × Run W × Dir
  run_prepared json path stub_path s files p (content, fails) =
      let (r, s') =
        process_chunks p.layout p.key p.peers p.limit p.chunk_size fails (length content + 1) 0
          content 0 s in
      after_chunks json path stub_path files p r s'

  -- `processFile`. The result is the manifest of the stub; `ProcessResult` repeats in it the
  -- references of the first chunk.
  unfoldable pub process_file :
      Json → Mesh → Bytes → Bytes → Run W → Dir → Result Manifest × Run W × Dir
  process_file json mesh path stub_path s files = elim (prepare mesh path stub_path files) [
    | err e ↦ (err e, s, files)
    | ok p ↦ run_prepared json path stub_path s files p (limited p.limit x.source)
  ]
