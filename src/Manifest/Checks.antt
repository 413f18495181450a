-- ===== src/Manifest/Checks.antt =====
-- `NewWithLayout`, `NewChunked`, `Unmarshal` and the checks that they share.
use peertopeer.Prelude.{◌+◌, ◌^◌, ◌&&◌, ◌||◌, not, List, [], ◌∷◌}
use peertopeer.Prelude.{Option, none, some, length, ◌==◌, if◌then◌else◌, ◌++◌}
use peertopeer.Prelude.{Result, Status, ok, err, failed, ◌>>=◌, ◌>>◌, reject_if, is_nil}
use peertopeer.Prelude.Text.{Bytes, is_empty}
use peertopeer.Prelude.Int.{ℤ, pos, ltb_ℤ, eq_ℤ, add64}
use peertopeer.Digest.{Sha256, hash, valid_hash}
use peertopeer.Erasure
use peertopeer.Erasure.{
  Layout, new_layout, total_shards, default_data_shards, default_parity_shards,
}
use peertopeer.Manifest.Types.{Manifest, Chunk, ShardRef}
use peertopeer.Manifest.Path.{valid_file_name}

-- `validateShardRef`.
unfoldable pub validate_shard_ref : ShardRef → Status
validate_shard_ref ref = reject_if (not (valid_hash ref.hash)) (failed "invalid shard hash")

-- The loops over references.
unfoldable pub validate_shard_refs : List ShardRef → Status
validate_shard_refs [] = ok tt
validate_shard_refs (ref ∷ refs) = do validate_shard_ref ref; validate_shard_refs refs

-- `validateChunk`.
unfoldable pub validate_chunk : Layout → Chunk → Status
validate_chunk layout chunk = do
  reject_if
      (ltb_ℤ chunk.plaintext_size (pos 0)
        || ltb_ℤ chunk.ciphertext_size (pos 16)
        || not (length chunk.nonce == 12))
      (failed "invalid chunk encryption parameters")
  reject_if (not (eq_ℤ (pos (length chunk.shards)) (total_shards layout)))
      (failed "invalid shard count")
  validate_shard_refs chunk.shards

-- The loop over the chunks of `NewChunked` and of `Unmarshal`, with the two running totals.
unfoldable pub check_chunks : Layout → ℤ → List Chunk → ℤ → ℤ → Result (ℤ × ℤ)
check_chunks layout chunk_size [] plain cipher = ok (plain, cipher)
check_chunks layout chunk_size (chunk ∷ chunks) plain cipher = do
  reject_if
      (ltb_ℤ chunk_size chunk.plaintext_size
        || ltb_ℤ (add64 chunk_size (pos 16)) chunk.ciphertext_size)
      (failed "chunk exceeds configured chunk size")
  validate_chunk layout chunk
  check_chunks layout chunk_size chunks (add64 plain chunk.plaintext_size)
      (add64 cipher chunk.ciphertext_size)

-- `NewChunked`.
unfoldable pub new_chunked : Layout → Bytes → Bytes → ℤ → ℤ → Bytes → List Chunk → Result Manifest
new_chunked layout file_id file_name plaintext_size chunk_size key chunks = do
  Erasure.validate layout
  reject_if (ltb_ℤ plaintext_size (pos 0) || not (ltb_ℤ (pos 0) chunk_size))
      (failed "invalid plaintext or chunk size")
  reject_if (not (length key == 32)) (failed "invalid key size")
  reject_if (is_nil chunks) (failed "chunked manifest requires at least one chunk")
  totals ← check_chunks layout chunk_size chunks (pos 0) (pos 0)
  reject_if (not (eq_ℤ totals.0 plaintext_size))
      (failed "chunk plaintext sizes do not match manifest total")
  ok (record {
    version = pos 2;
    data_shards = layout.data_shards;
    parity_shards = layout.parity_shards;
    share_id = [];
    file_id = file_id;
    file_name = file_name;
    ciphertext_size = totals.1;
    plaintext_size = plaintext_size;
    chunk_size = chunk_size;
    key = key;
    nonce = [];
    shards = [];
    chunks = chunks;
  })

module _ (sha : Sha256) where
  -- The references of `NewWithLayout`; the counts have been compared.
  unfoldable pub make_refs : List Bytes → List Bytes → List ShardRef
  make_refs (shard ∷ shards) (peer ∷ peers) =
      record { hash = hash sha shard; peer = peer; url = [] } ∷ make_refs shards peers
  make_refs _ _ = []

  -- `NewWithLayout`.
  unfoldable pub new_with_layout :
      Layout → Bytes → Bytes → ℤ → Bytes → Bytes → List Bytes → List Bytes → Result Manifest
  new_with_layout layout file_id file_name ciphertext_size key nonce shards peers = do
    Erasure.validate layout
    reject_if (not (eq_ℤ (pos (length shards)) (total_shards layout)))
        (failed "invalid shard count")
    reject_if (not (eq_ℤ (pos (length peers)) (total_shards layout))) (failed "invalid peer count")
    ok (record {
      version = pos 1;
      data_shards = layout.data_shards;
      parity_shards = layout.parity_shards;
      share_id = [];
      file_id = file_id;
      file_name = file_name;
      ciphertext_size = ciphertext_size;
      plaintext_size = pos 0;
      chunk_size = pos 0;
      key = key;
      nonce = nonce;
      shards = make_refs shards peers;
      chunks = [];
    })

-- The part of `Unmarshal` on a manifest of version 2.
unfoldable pub check_chunked : Layout → Manifest → Result Manifest
check_chunked layout m = do
  reject_if
      (not (is_nil m.shards)
        || not (is_empty m.nonce)
        || not (ltb_ℤ (pos 0) m.chunk_size)
        || ltb_ℤ (pos (2 ^ 30)) m.chunk_size
        || is_nil m.chunks
        || ltb_ℤ m.plaintext_size (pos 0)
        || ltb_ℤ (pos (2 ^ 40)) m.plaintext_size
        || ltb_ℤ m.ciphertext_size (pos 16)
        || ltb_ℤ (pos (2 ^ 40)) m.ciphertext_size)
      (failed "invalid chunked manifest parameters")
  totals ← check_chunks layout m.chunk_size m.chunks (pos 0) (pos 0)
  reject_if (not (eq_ℤ totals.1 m.ciphertext_size) || not (eq_ℤ totals.0 m.plaintext_size))
      (failed "chunk sizes do not match manifest totals")
  ok m

-- The part of `Unmarshal` on a manifest of version 0 or 1.
unfoldable pub check_whole : Layout → Manifest → Result Manifest
check_whole layout m = do
  reject_if (not (eq_ℤ (pos (length m.shards)) (total_shards layout)))
      (failed "unsupported shard layout")
  reject_if
      (not (length m.nonce == 12)
        || ltb_ℤ m.ciphertext_size (pos 16)
        || ltb_ℤ (pos (2 ^ 30 + 16)) m.ciphertext_size)
      (failed "invalid manifest encryption parameters or size")
  validate_shard_refs m.shards
  ok m

-- A manifest of version 0 has the default layout.
unfoldable pub with_defaults : Manifest → Manifest
with_defaults m =
    if eq_ℤ m.version (pos 0)
    then record m { data_shards = default_data_shards; parity_shards = default_parity_shards }
    else m

-- `Unmarshal` after the JSON decoder.
unfoldable pub check : Manifest → Result Manifest
check decoded = do
  reject_if
      (not (eq_ℤ decoded.version (pos 0))
        && not (eq_ℤ decoded.version (pos 1))
        && not (eq_ℤ decoded.version (pos 2)))
      (failed "unsupported manifest version")
  let m = with_defaults decoded
  layout ← new_layout m.data_shards m.parity_shards
  reject_if (not (valid_file_name m.file_name)) (failed "invalid manifest filename")
  reject_if (not (length m.key == 32)) (failed "invalid manifest key")
  if eq_ℤ m.version (pos 2) then check_chunked layout m else check_whole layout m

-- encoding/json on this record: the indented text of a manifest, and the decoder.
pub record Json : Type 0 where
  pub marshal_indent : Manifest → Bytes
  pub unmarshal : Bytes → Option Manifest

-- `Marshal`.
unfoldable pub marshal : Json → Manifest → Bytes
marshal json m = json.marshal_indent m ++ (10 ∷ [])

-- `Unmarshal`.
unfoldable pub unmarshal : Json → Bytes → Result Manifest
unmarshal json s = elim (json.unmarshal s) [
  | none ↦ err (failed "unmarshal manifest")
  | some m ↦ check m
]
