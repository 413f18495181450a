-- ===== src/Tests/Files.antt =====
-- Runs of the codecs of a file: the cipher, the shards and the manifest.
use peertopeer.Prelude.{ℕ, inl, inr, All, ◌+◌, ◌^◌, ◌≡◌, refl, true, arith, ◌↔◌}
use peertopeer.Prelude.{some, List, [], ◌∷◌, length, ok}
use peertopeer.Prelude.Text.{Bytes, text, equal}
use peertopeer.Prelude.Int.{pos, ltb_ℤ, add64}
use peertopeer.Digest.{hash, hex_encode, hex_decode, valid_hash}
use peertopeer.Erasure.{validate, total_shards, encode, decode}
use peertopeer.Erasure.Layouts.{layout, IsGeometry, validate_iff, validate_overflow}
use peertopeer.Erasure.Recovery.{shard_size, encode-succeeds, decode-encode}
use peertopeer.CryptoFile.{encrypt_chunk, decrypt, decrypt-encrypt_chunk}
use peertopeer.Manifest.{
  Manifest, Chunk, ShardRef, Json, marshal, unmarshal, new_chunked, check_chunks, validate_chunk,
  validate_shard_refs, validate_shard_ref,
}
use peertopeer.Manifest.RoundTrip.{within_bounds, unmarshal-new_chunked}
use peertopeer.Tests.Params.{repeat, content, sealed, name, rs, code, aead, aead_law}

abbrev key : Bytes
key = repeat 32 5

abbrev nonce : Bytes
nonce = repeat 12 3

validate_iff_example :
    (validate (layout 2 1) ≡ ok tt) ↔ ((k p : ℕ) × (layout 2 1 ≡ layout k p) × IsGeometry k p)
validate_iff_example = validate_iff (layout 2 1) (omega arith)

validate_overflow_example :
    (validate (layout (2 ^ 62) (2 ^ 62)) ≡ ok tt)
    × (ltb_ℤ (total_shards (layout (2 ^ 62) (2 ^ 62))) (pos 0) ≡ true)
validate_overflow_example =
    validate_overflow (2 ^ 62) (2 ^ 62) (omega arith) (omega arith) (omega arith) (omega arith)
      (omega arith)

encode-succeeds-run :
    (shards : List Bytes) × (encode rs (layout 1 1) content ≡ ok shards)
    × (length shards ≡ 2)
    × All (λ s. length s ≡ shard_size (length content) 1) shards
encode-succeeds-run =
    encode-succeeds rs 1 1 (omega arith, omega arith, omega arith) code content (λ e. cc)

-- The second copy is there, the first is lost.
decode-encode_example : decode rs (layout 1 1) ([] ∷ content ∷ []) 2 ≡ ok content
unfolding encode validate add64
decode-encode_example =
    decode-encode rs 1 1 (omega arith, omega arith, omega arith) code content
      (content ∷ content ∷ []) ([] ∷ content ∷ []) (λ e. cc) refl (inl refl, (inr refl, tt))
      (omega arith)

decrypt-encrypt_chunk_example :
    (decrypt aead sealed key nonce ≡ ok content)
    × (length sealed ≡ length content + 16)
    × (length nonce ≡ 12)
unfolding encrypt_chunk
decrypt-encrypt_chunk_example =
    decrypt-encrypt_chunk aead (ok nonce) content key sealed nonce aead_law refl

abbrev ref : ShardRef
ref = record { hash = name; peer = text "local"; url = text "local" }

abbrev chunk : Chunk
chunk = record {
  plaintext_size = pos 2;
  ciphertext_size = pos 18;
  nonce = nonce;
  shards = ref ∷ ref ∷ [];
}

abbrev stub : Manifest
stub = record {
  version = pos 2;
  data_shards = pos 1;
  parity_shards = pos 1;
  share_id = [];
  file_id = text "id";
  file_name = text "note";
  ciphertext_size = pos 18;
  plaintext_size = pos 2;
  chunk_size = pos 64;
  key = key;
  nonce = [];
  shards = [];
  chunks = chunk ∷ [];
}

-- A codec that knows one manifest.
abbrev json : Json
json = record { marshal_indent = λ m. text "{}"; unmarshal = λ s. some stub }

unmarshal-new_chunked_example :
    (unmarshal json (marshal json stub) ≡ ok stub) ↔ (within_bounds stub ≡ true)
unfolding new_chunked validate check_chunks validate_chunk validate_shard_refs validate_shard_ref
    total_shards add64 hash hex_encode hex_decode valid_hash equal
unmarshal-new_chunked_example =
    unmarshal-new_chunked json (layout 1 1) (text "id") (text "note") (pos 2) (pos 64) key
      (chunk ∷ []) [] stub refl refl
