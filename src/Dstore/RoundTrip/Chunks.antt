-- ===== src/Dstore/RoundTrip/Chunks.antt =====
-- Chunks of a manifest that stand for the pieces of the content, in order.
use peertopeer.Prelude.{ℕ, suc, ◌+◌, ◌≤◌, ◌≡◌, refl, true, false}
use peertopeer.Prelude.{List, [], ◌∷◌, ◌++◌, length, arith, All}
use peertopeer.Prelude.{ap}
use peertopeer.Prelude.{ok, inr}
use peertopeer.Prelude.Text.{Bytes}
use peertopeer.Prelude.Int.{pos}
use peertopeer.AtomicFile.{Dir}
use peertopeer.AtomicFile.Keeping.{Keeps}
use peertopeer.Digest.{Sha256}
use peertopeer.Erasure
use peertopeer.Erasure.{ReedSolomon}
use peertopeer.Erasure.Layouts.{layout, IsGeometry}
use peertopeer.Erasure.Recovery.{Survives, present, shard_size, Coded, IsErasureCode, decode-Coded}
use peertopeer.CryptoFile.{Aead, decrypt}
use peertopeer.Manifest.{Chunk}
use peertopeer.Dstore.Transfer.{Net}
use peertopeer.Dstore.Restore.{RestoreInputs, open_chunk, restore_chunks, shard_bound, fetch_all}
use peertopeer.Dstore.RoundTrip.Placed.{Placed, Placed-Keeps}
use peertopeer.Dstore.RoundTrip.Fetched.{Unique, fetch_all-Placed}

Survives-refl : (shards : List Bytes) → Survives shards shards
Survives-refl [] = tt
Survives-refl (s ∷ shards) = (inr refl, Survives-refl shards)

pub shard_size_pos : (n k : ℕ) → 1 ≤ n → 1 ≤ k → 1 ≤ shard_size n k
shard_size_pos n k h h' = grind arith

pub present_full :
    (shards : List Bytes) (n : ℕ)
    → 1 ≤ n
    → All (λ s. length s ≡ n) shards
    → present shards ≡ length shards
present_full [] n h a = refl
present_full ([] ∷ shards) n h a = absurd (omega arith)
present_full ((b ∷ s) ∷ shards) n h a = ap suc (present_full shards n h a.1)

module _ (sha : Sha256) (a : Aead) (rs : ReedSolomon) (k p : ℕ) (key : Bytes) where
  -- A chunk that stands for a piece of the content: its shards are in the store.
  pub record Sealed (d : Dir) (chunk : Chunk) (piece : Bytes) : Type 0 where
    pub ciphertext : Bytes
    pub opens : decrypt a ciphertext key chunk.nonce ≡ ok piece
    pub filled : 1 ≤ length ciphertext
    pub coded : Coded rs k p ciphertext
    pub placed : Placed sha d chunk.shards coded.shards
    pub plain_size : chunk.plaintext_size ≡ pos (length piece)
    pub cipher_size : chunk.ciphertext_size ≡ pos (length ciphertext)

  -- Chunks that stand for the content, piece by piece.
  pub data Stands (d : Dir) : List Chunk → Bytes → Type 0 where
    nil : Stands d [] []
    cons :
        {chunk : Chunk} {chunks : List Chunk} {content : Bytes} (piece rest : Bytes)
        → content ≡ piece ++ rest
        → Sealed d chunk piece
        → Stands d chunks rest
        → Stands d (chunk ∷ chunks) content

  pub Sealed-Keeps :
      {d d' : Dir} {chunk : Chunk} {piece : Bytes}
      → Keeps d d'
      → Sealed d chunk piece
      → Sealed d' chunk piece
  Sealed-Keeps {chunk} e s = record {
    ciphertext = s.ciphertext;
    opens = s.opens;
    filled = s.filled;
    coded = s.coded;
    placed = Placed-Keeps sha chunk.shards s.coded.shards e s.placed;
    plain_size = s.plain_size;
    cipher_size = s.cipher_size;
  }

  module _ {W : Type 0} (net : Net W) (x : RestoreInputs) (d : Dir) (share_id : Bytes)
      (geometry : IsGeometry k p) (code : IsErasureCode rs k p) (unique : Unique sha d)
      (reads : x.read_fails ≡ false) (goes_on : (i : ℕ) → x.cancelled_at i ≡ false) where
    open_chunk-Sealed :
        (chunk : Chunk) (piece : Bytes) (s : Sealed d chunk piece)
        → open_chunk sha net a rs x true d share_id (layout k p) key chunk s.coded.shards ≡ ok piece
    unfolding open_chunk
    open_chunk-Sealed chunk piece s =
        simp (s.cipher_size, decoded, s.opens, s.plain_size) (ground arith)
      where
        all_there : present s.coded.shards ≡ length s.coded.shards
        all_there =
            present_full s.coded.shards (shard_size (length s.ciphertext) k)
              (shard_size_pos _ k s.filled geometry.0) s.coded.sizes

        decoded :
            Erasure.decode rs (layout k p) s.coded.shards (length s.ciphertext) ≡ ok s.ciphertext
        decoded =
            decode-Coded rs k p geometry code s.ciphertext s.coded s.coded.shards
              (Survives-refl s.coded.shards) (omega (arith, all_there, s.coded.count))

    -- Whatever the network answers, the chunks are restored to the content.
    pub restore_chunks-Stands :
        (i : ℕ) (chunks : List Chunk) (content : Bytes) (w : W)
        → Stands d chunks content
        → (restore_chunks sha net a rs x true d share_id (layout k p) key i chunks w).0 ≡ ok content
    unfolding restore_chunks
    restore_chunks-Stands i [] content w nil = refl
    restore_chunks-Stands i (chunk ∷ chunks) content w (cons piece rest e s more) =
        let fetched =
          fetch_all sha net a rs x true d share_id
            (shard_bound sha net a rs x true d share_id (layout k p) chunk.ciphertext_size)
            chunk.shards w in
        ground (
          arith,
          goes_on i,
          fetch_all-Placed sha net a rs x d share_id unique reads
              (shard_bound sha net a rs x true d share_id (layout k p) chunk.ciphertext_size)
              chunk.shards s.coded.shards w s.placed,
          open_chunk-Sealed chunk piece s,
          restore_chunks-Stands (i + 1) chunks rest fetched.1 more,
        )

  pub Stands-Keeps :
      {d d' : Dir} {chunks : List Chunk} {content : Bytes}
      → Keeps d d'
      → Stands d chunks content
      → Stands d' chunks content
  Stands-Keeps e nil = nil
  Stands-Keeps e (cons piece rest q s more) =
      cons piece rest q (Sealed-Keeps e s) (Stands-Keeps e more)
