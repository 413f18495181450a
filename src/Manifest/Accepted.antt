-- ===== src/Manifest/Accepted.antt =====
-- What a manifest that was read satisfies.
use peertopeer.Prelude.{◌≡◌, ◌≢◌, true, false, ◌||◌, arith}
use peertopeer.Prelude.{List, [], ◌∷◌, ok, All, length, map}
use peertopeer.Prelude.{◌⊎◌, is_nil}
use peertopeer.Prelude.Text.{Bytes, text}
use peertopeer.Prelude.Int.{ℤ, pos, ltb_ℤ, eq_ℤ, add64}
use peertopeer.Digest.{valid_hash}
use peertopeer.Erasure.{Layout, new_layout, total_shards}
use peertopeer.Manifest.Types.{Manifest, Chunk, ShardRef}
use peertopeer.Manifest.Checks.{
  validate_shard_ref, validate_shard_refs, validate_chunk, check_chunks,
}

-- Every reference names a hash, and there is one for each shard of the layout.
pub record RefsFit (layout : Layout) (refs : List ShardRef) : Type 0 where
  pub count : eq_ℤ (pos (length refs)) (total_shards layout) ≡ true
  pub hashes : All (λ (ref : ShardRef). valid_hash ref.hash ≡ true) refs

-- A chunk lies within the chunk size and the tag of 16 bytes.
pub record ChunkFits (layout : Layout) (chunk_size : ℤ) (chunk : Chunk) : Type 0 where
  pub refs : RefsFit layout chunk.shards
  pub nonce : length chunk.nonce ≡ 12
  pub not_negative : ltb_ℤ chunk.plaintext_size (pos 0) ≡ false
  pub plain_bound : ltb_ℤ chunk_size chunk.plaintext_size ≡ false
  pub tagged : ltb_ℤ chunk.ciphertext_size (pos 16) ≡ false
  pub cipher_bound : ltb_ℤ (add64 chunk_size (pos 16)) chunk.ciphertext_size ≡ false

validate_shard_refs-All :
    (refs : List ShardRef)
    → validate_shard_refs refs ≡ ok tt
    → All (λ (ref : ShardRef). valid_hash ref.hash ≡ true) refs
unfolding validate_shard_refs validate_shard_ref
validate_shard_refs-All [] h = tt
validate_shard_refs-All (ref ∷ refs) h = (ground arith, validate_shard_refs-All refs (ground arith))

validate_chunk-ChunkFits :
    (layout : Layout) (chunk_size : ℤ) (chunk : Chunk)
    → (ltb_ℤ chunk_size chunk.plaintext_size
        || ltb_ℤ (add64 chunk_size (pos 16)) chunk.ciphertext_size)
      ≡ false
    → validate_chunk layout chunk ≡ ok tt
    → ChunkFits layout chunk_size chunk
unfolding validate_chunk
validate_chunk-ChunkFits layout chunk_size chunk b h = record {
  refs = record {
    count = ground arith;
    hashes = validate_shard_refs-All chunk.shards (ground arith);
  };
  nonce = ground arith;
  not_negative = ground arith;
  plain_bound = ground arith;
  tagged = ground arith;
  cipher_bound = ground arith;
}

pub check_chunks-ChunkFits :
    (layout : Layout) (chunk_size plain cipher : ℤ) (chunks : List Chunk) (totals : ℤ × ℤ)
    → check_chunks layout chunk_size chunks plain cipher ≡ ok totals
    → All (ChunkFits layout chunk_size) chunks
unfolding check_chunks
check_chunks-ChunkFits layout chunk_size plain cipher [] totals h = tt
check_chunks-ChunkFits layout chunk_size plain cipher (chunk ∷ chunks) totals h = (
  validate_chunk-ChunkFits layout chunk_size chunk (ground arith) (ground arith),
  check_chunks-ChunkFits layout chunk_size (add64 plain chunk.plaintext_size)
      (add64 cipher chunk.ciphertext_size) chunks totals (ground arith),
)

-- A sum of sizes on 64 bits, from left to right.
abbrev pub sum64 : ℤ → List ℤ → ℤ
sum64 total [] = total
sum64 total (n ∷ sizes) = sum64 (add64 total n) sizes

-- A file name that is one name within a directory: it cannot lead out of it.
pub record IsPlainName (name : Bytes) : Type 0 where
  pub not_empty : name ≢ []
  pub not_dot : name ≢ text "."
  pub not_dots : name ≢ text ".."
  pub no_separator : All (λ c. (c ≢ b'/') × (c ≢ b'\\') × (c ≢ 0)) name

-- What a manifest of version 2 says of its chunks.
pub record IsChunked (layout : Layout) (m : Manifest) : Type 0 where
  pub filled : is_nil m.chunks ≡ false
  pub fit : All (ChunkFits layout m.chunk_size) m.chunks
  pub plain_total :
      m.plaintext_size ≡ sum64 (pos 0) (map (λ (c : Chunk). c.plaintext_size) m.chunks)
  pub cipher_total :
      m.ciphertext_size ≡ sum64 (pos 0) (map (λ (c : Chunk). c.ciphertext_size) m.chunks)

-- What a manifest of version 0 or 1 says of its shards.
pub record IsWhole (layout : Layout) (m : Manifest) : Type 0 where
  pub refs : RefsFit layout m.shards
  pub nonce : length m.nonce ≡ 12

pub record IsSound (m : Manifest) : Type 0 where
  pub layout : Layout
  pub made : new_layout m.data_shards m.parity_shards ≡ ok layout
  pub name : IsPlainName m.file_name
  pub key : length m.key ≡ 32
  pub body :
      ((m.version ≡ pos 2) × IsChunked layout m)
      ⊎ ((m.version ≡ pos 0) ⊎ (m.version ≡ pos 1)) × IsWhole layout m
