-- ===== src/Manifest/RoundTrip.antt =====
-- Which manifests of the pipeline can be read back.
use peertopeer.Prelude.{◌^◌, ◌≡◌, ◌↔◌, Bool, true, false, ◌&&◌, ◌||◌, not, arith, is_nil}
use peertopeer.Prelude.{List, [], some, ok}
use peertopeer.Prelude.{length, ◌==◌, subst, sym, Result-cases, inl, inr}
use peertopeer.Prelude.Text.{Bytes}
use peertopeer.Prelude.Int.{ℤ, pos, ltb_ℤ}
use peertopeer.Erasure.{Layout, validate}
use peertopeer.Erasure.Layouts.{new_layout-valid}
use peertopeer.Manifest.Types.{Manifest, Chunk}
use peertopeer.Manifest.Path.{valid_file_name}
use peertopeer.Manifest.Checks.{new_chunked, check_chunks, check_chunked, with_defaults, check}
use peertopeer.Manifest.Checks.{Json, marshal, unmarshal}

-- The bounds that a reader sets and `NewChunked` does not.
abbrev pub within_bounds : Manifest → Bool
within_bounds m =
    valid_file_name m.file_name
    && not (ltb_ℤ (pos (2 ^ 30)) m.chunk_size)
    && not (ltb_ℤ (pos (2 ^ 40)) m.plaintext_size)
    && not (ltb_ℤ m.ciphertext_size (pos 16))
    && not (ltb_ℤ (pos (2 ^ 40)) m.ciphertext_size)

module _ (l : Layout) (file_id file_name : Bytes) (plaintext_size chunk_size : ℤ) (key : Bytes)
    (chunks : List Chunk) where
  abbrev pub made : ℤ → Bytes → Manifest
  made cipher share_id = record {
    version = pos 2;
    data_shards = l.data_shards;
    parity_shards = l.parity_shards;
    share_id = share_id;
    file_id = file_id;
    file_name = file_name;
    ciphertext_size = cipher;
    plaintext_size = plaintext_size;
    chunk_size = chunk_size;
    key = key;
    nonce = [];
    shards = [];
    chunks = chunks;
  }

  -- What `NewChunked` has checked when it succeeds.
  pub record Made (m : Manifest) : Type 0 where
    pub valid : validate l ≡ ok tt
    pub cipher_total : ℤ
    pub totals :
        check_chunks l chunk_size chunks (pos 0) (pos 0) ≡ ok (plaintext_size, cipher_total)
    pub sizes : (ltb_ℤ plaintext_size (pos 0) || not (ltb_ℤ (pos 0) chunk_size)) ≡ false
    pub key_size : (length key == 32) ≡ true
    pub filled : is_nil chunks ≡ false
    pub result : m ≡ made cipher_total []

  pub new_chunked-Made :
      (m : Manifest)
      → new_chunked l file_id file_name plaintext_size chunk_size key chunks ≡ ok m
      → Made m
  unfolding new_chunked
  new_chunked-Made m h = elim (Result-cases (check_chunks l chunk_size chunks (pos 0) (pos 0))) [
    | inr (e, bad) ↦ ground arith
    | inl ((plain, cipher), good) ↦ record {
      valid = ground arith;
      cipher_total = cipher;
      totals = ground arith;
      sizes = ground arith;
      key_size = ground arith;
      filled = ground arith;
      result = ground arith;
    }
  ]

  pub check-made :
      (share_id : Bytes) (m : Manifest) (h : Made m)
      → (check (made h.cipher_total share_id) ≡ ok (made h.cipher_total share_id))
        ↔ (within_bounds (made h.cipher_total share_id) ≡ true)
  unfolding check check_chunked with_defaults
  check-made share_id m h = (
    λ e. ground (arith, new_layout-valid l h.valid, h.sizes, h.key_size, h.filled, h.totals),
    λ e. ground (arith, new_layout-valid l h.valid, h.sizes, h.key_size, h.filled, h.totals),
  )

-- A stub that the pipeline makes, with any share id, is read back as the manifest that was written
-- exactly when it is within the reader's bounds: a file name with no separator, a chunk size of at
-- most 2^30, and at most 2^40 bytes of plaintext and of ciphertext, of the latter at least 16. The
-- JSON decoder is taken to read back what the encoder wrote of this manifest.
pub unmarshal-new_chunked :
    (json : Json) (l : Layout) (file_id file_name : Bytes) (plaintext_size chunk_size : ℤ)
    (key : Bytes) (chunks : List Chunk) (share_id : Bytes) (m : Manifest)
    → new_chunked l file_id file_name plaintext_size chunk_size key chunks ≡ ok m
    → let stub : Manifest = record m { share_id = share_id } in
      json.unmarshal (marshal json stub) ≡ some stub
      → (unmarshal json (marshal json stub) ≡ ok stub) ↔ (within_bounds stub ≡ true)
unfolding unmarshal
unmarshal-new_chunked json l file_id file_name plaintext_size chunk_size key chunks share_id m h
      law =
    let v = new_chunked-Made l file_id file_name plaintext_size chunk_size key chunks m h in
    rw (law, unmarshal)
      (subst
        (λ (x : Manifest).
          (check (record x { share_id = share_id }) ≡ ok (record x { share_id = share_id }))
          ↔ (within_bounds (record x { share_id = share_id }) ≡ true))
        (sym v.result)
        (check-made l file_id file_name plaintext_size chunk_size key chunks share_id m v))
