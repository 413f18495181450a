-- ===== src/Manifest/Types.antt =====
-- The manifest of a file.
use peertopeer.Prelude.{List}
use peertopeer.Prelude.Text.{Bytes}
use peertopeer.Prelude.Int.{ℤ}

pub record ShardRef : Type 0 where
  pub hash : Bytes
  pub peer : Bytes
  pub url : Bytes

pub record Chunk : Type 0 where
  pub plaintext_size : ℤ
  pub ciphertext_size : ℤ
  pub nonce : Bytes
  pub shards : List ShardRef

pub record Manifest : Type 0 where
  pub version : ℤ
  pub data_shards : ℤ
  pub parity_shards : ℤ
  pub share_id : Bytes
  pub file_id : Bytes
  pub file_name : Bytes
  pub ciphertext_size : ℤ
  pub plaintext_size : ℤ
  pub chunk_size : ℤ
  pub key : Bytes
  pub nonce : Bytes
  pub shards : List ShardRef
  pub chunks : List Chunk
