-- ===== src/Dstore/Progress/Loop.antt =====
-- The loop over the chunks succeeds, and its chunks pass the checks of the manifest.
use peertopeer.Prelude.{
  ℕ, zero, suc, ◌+◌, ◌≤◌, ◌<◌, ◌≡◌, ◌≢◌, refl, sym, ap, ◌∙◌, subst, Bool, true, false, ◌&&◌, not,
  arith,
}
use peertopeer.Prelude.{
  List, [], ◌∷◌, length, take, drop, length-take, length-drop, ltb, ◌==◌, is_nil,
}
use Prim.Native.Nat.{min}
use peertopeer.Prelude.{Result, ok, err, ◌>>=◌, Bool-cases, inl, inr}
use peertopeer.Prelude.Text.{Bytes}
use peertopeer.Prelude.Int.{pos}
use peertopeer.Digest.{Sha256}
use peertopeer.Erasure
use peertopeer.Erasure.{ReedSolomon, total_shards}
use peertopeer.Erasure.Layouts.{layout, IsGeometry, total_shards-layout}
use peertopeer.Erasure.Recovery.{IsErasureCode, encode-succeeds}
use peertopeer.CryptoFile.{Aead, IsAead, encrypt_chunk}
use peertopeer.Manifest.{Chunk, ShardRef, validate_chunk, validate_shard_refs}
use peertopeer.Peer.{Peer}
use peertopeer.Dstore.Transfer.{Net}
use peertopeer.Dstore.Process.{Config, Inputs, Run, place_shards}
use peertopeer.Dstore.Pipeline.{seal_chunk, make_chunk, process_chunk, process_chunks, add_chunk}
use peertopeer.Dstore.Progress.{IsCalm, IsReliable, Ready, place_shards-ok}

-- The devices, the store, the cipher, the library and the random source all do their part.
pub record IsFair (sha : Sha256) (c : Config) {W : Type 0} (net : Net W) (a : Aead)
    (rs : ReedSolomon) (x : Inputs) (k p : ℕ) : Type 0 where
  pub calm : (i : ℕ) → IsCalm (x.env_at i)
  pub unlimited : c.quota_bytes ≡ 0
  pub reliable : IsReliable net
  pub geometry : IsGeometry k p
  pub code : IsErasureCode rs k p
  pub law : IsAead a
  pub nonces : (i : ℕ) → (n : Bytes) × (x.nonce_at i ≡ ok n) × (length n ≡ 12)
  pub goes_on : (i : ℕ) → x.cancelled_at i ≡ false

module _ (sha : Sha256) (c : Config) {W : Type 0} (net : Net W) (a : Aead) (rs : ReedSolomon)
    (x : Inputs) (k p : ℕ) (fair : IsFair sha c net a rs x k p) (key : Bytes) (peers : List Peer)
    (key_ok : length key ≡ 32) where
  -- A chunk of a piece of this size that the manifest's checks accept.
  pub record Fine (n : ℕ) (chunk : Chunk) : Type 0 where
    pub plain : chunk.plaintext_size ≡ pos n
    pub cipher : chunk.ciphertext_size ≡ pos (n + 16)
    pub valid : validate_chunk (layout k p) chunk ≡ ok tt

  encrypt_chunk-ok :
      (i : ℕ) (piece : Bytes)
      → (ciphertext nonce : Bytes) × (encrypt_chunk a (x.nonce_at i) piece key
          ≡ ok (ciphertext, nonce))
        × (length ciphertext ≡ length piece + 16)
        × (length nonce ≡ 12)
  unfolding encrypt_chunk
  encrypt_chunk-ok i piece =
      let (n, drawn, size) = fair.nonces i in
      (a.seal key n piece, n, rw (drawn, key_ok, size) refl, fair.law.length-seal key n piece, size)

  record Made (n : ℕ) (o : Result Chunk × Run W) : Type 0 where
    chunk : Chunk
    made : o.0 ≡ ok chunk
    fine : Fine n chunk
    ready : Ready sha x o.1.dir

  filled : (s : Bytes) (n : ℕ) → length s ≡ n + 16 → s ≢ []
  filled [] n h = λ e. omega (arith, h)
  filled (b ∷ s) n h = λ e. cc

  make_chunk-Fine :
      (piece ciphertext nonce : Bytes) (refs : List ShardRef)
      → length ciphertext ≡ length piece + 16
      → length nonce ≡ 12
      → length refs ≡ k + p
      → validate_shard_refs refs ≡ ok tt
      → Fine
          (length piece)
          (make_chunk sha c net a rs x (layout k p) key peers piece ciphertext nonce refs)
  unfolding validate_chunk
  make_chunk-Fine piece ciphertext nonce refs s n count v = record {
    plain = refl;
    cipher = ap pos s;
    valid = ground (arith, s, n, count, v, total_shards-layout k p fair.geometry);
  }

  process_chunk-Made :
      (i : ℕ) (piece : Bytes) (s : Run W)
      → Ready sha x s.dir
      → Made (length piece) (process_chunk sha c net a rs x (layout k p) key peers i piece s)
  unfolding process_chunk seal_chunk
  process_chunk-Made i piece s r =
      let (ciphertext, nonce, encrypted, size, nonce_size) = encrypt_chunk-ok i piece in
      let (shards, encoded, count, _) =
        encode-succeeds rs k p fair.geometry fair.code ciphertext
          (filled ciphertext (length piece) size) in
      let (refs, placed, refs_count, valid, ready) =
        place_shards-ok sha c net x fair.calm fair.unlimited fair.reliable shards peers s r in
      let sealed : (encrypt_chunk a (x.nonce_at i) piece key >>= λ (ciphertext, nonce).
      Erasure.encode rs (layout k p) ciphertext >>= λ shards. ok (ciphertext, nonce, shards))
          ≡ ok (ciphertext, nonce, shards) =
        rw (encrypted, encoded) refl in
      subst (λ r. Made (length piece) (after r)) (sym sealed)
        (record {
          chunk = make_chunk sha c net a rs x (layout k p) key peers piece ciphertext nonce refs;
          made = rw placed refl;
          fine =
              make_chunk-Fine piece ciphertext nonce refs size nonce_size (refs_count ∙ count)
                valid;
          ready = ready;
        })
    where
      after : Result (Bytes × Bytes × List Bytes) → Result Chunk × Run W
      after (err e) = (err e, s)
      after (ok (ciphertext, nonce, shards)) =
          let (r, s') = place_shards sha c net x shards peers s in
          (
            r >>= (λ refs.
                ok
                  (make_chunk sha c net a rs x (layout k p) key peers piece ciphertext nonce refs)),
            s',
          )

  -- The pieces of some bytes, none longer than a chunk.
  pub data Pieces (chunk_size : ℕ) : List Chunk → ℕ → Type 0 where
    end : Pieces chunk_size [] 0
    piece :
        {chunk : Chunk} {chunks : List Chunk} (n m : ℕ)
        → Fine n chunk
        → n ≤ chunk_size
        → Pieces chunk_size chunks m
        → Pieces chunk_size (chunk ∷ chunks) (n + m)

  -- The loop has made chunks of all that was left.
  pub record Looped (chunk_size total left : ℕ) (o : Result (List Chunk × ℕ) × Run W) : Type 0 where
    pub chunks : List Chunk
    pub made : o.0 ≡ ok (chunks, total + left)
    pub pieces : Pieces chunk_size chunks left
    pub count : length chunks ≤ left + 1
    pub some_ : total ≡ 0 → is_nil chunks ≡ false
    pub ready : Ready sha x o.1.dir

  module _ (limit chunk_size : ℕ) (positive : 1 ≤ chunk_size) where
    abbrev loop : ℕ → ℕ → Bytes → ℕ → Run W → Result (List Chunk × ℕ) × Run W
    loop = process_chunks sha c net a rs x (layout k p) key peers limit chunk_size false

    nothing_left :
        (rest : Bytes) (total : ℕ) (s : Run W)
        → length rest ≡ 0
        → (total == 0) ≡ false
        → Ready sha x s.dir
        → Looped chunk_size total (length rest) (ok ([], total), s)
    nothing_left rest total s z t r = record {
      chunks = [];
      made = ap (λ n. ok ([], n)) (omega (arith, z));
      pieces = subst (Pieces chunk_size []) (sym z) end;
      count = omega arith;
      some_ = λ e. ground arith;
      ready = r;
    }

    Made-Fine : {n : ℕ} {chunk : Chunk} {s : Run W} → Made n (ok chunk, s) → Fine n chunk
    Made-Fine {n} {chunk} q = subst (Fine n) (sym (ok-inj q.made)) q.fine
      where
        ok-inj : {b d : Chunk} → ok b ≡ ok d → b ≡ d
        ok-inj h = cc

    -- One more chunk, and the rest of the loop where there is one.
    next_piece :
        (n left total : ℕ) (made : Result Chunk) (s : Run W) (last : Bool)
        (more : Result (List Chunk × ℕ) × Run W)
        → n ≤ chunk_size
        → Made n (made, s)
        → (last ≡ true → n ≡ left)
        → (last ≡ false → (m : ℕ) × (n + m ≡ left) × (1 ≤ n) × Looped chunk_size (total + n) m more)
        → Looped chunk_size total left (add_chunk made s last (total + n) more)
    next_piece n left total (err e) s last more le q whole rest = absurd (no q.made)
      where
        no : {ch : Chunk} → err e ≡ ok ch → ⊥
        no h = cc
    next_piece n left total (ok chunk) s true more le q whole rest = record {
      chunks = chunk ∷ [];
      made = ap (λ m. ok (chunk ∷ [], total + m)) (whole refl);
      pieces =
          subst (Pieces chunk_size (chunk ∷ [])) (omega (arith, whole refl))
            (piece n 0 (Made-Fine q) le end);
      count = omega arith;
      some_ = λ e. refl;
      ready = q.ready;
    }
    next_piece n left total (ok chunk) s false more le q whole rest =
        let (m, sum, some_bytes, g) = rest refl in
        record {
          chunks = chunk ∷ g.chunks;
          made = rw g.made (ap (λ t. ok (chunk ∷ g.chunks, t)) (omega (arith, sum)));
          pieces =
              subst (Pieces chunk_size (chunk ∷ g.chunks)) sum
                (piece n m (Made-Fine q) le g.pieces);
          count = let count = g.count in omega (arith, count, sum, some_bytes);
          some_ = λ e. refl;
          ready = g.ready;
        }

    pub process_chunks-Looped :
        (fuel i : ℕ) (rest : Bytes) (total : ℕ) (s : Run W)
        → length rest < fuel
        → total + length rest ≤ limit
        → Ready sha x s.dir
        → Looped chunk_size total (length rest) (loop fuel i rest total s)
    unfolding process_chunks
    process_chunks-Looped zero i rest total s h l r = absurd (omega (arith, h))
    process_chunks-Looped (suc fuel) i rest total s h l r =
        elim (Bool-cases ((length (take chunk_size rest) == 0) && not (total == 0))) [
          | inl e ↦
              simp (fair.goes_on i, no_fault (ltb n chunk_size), e)
                (nothing_left rest total s (ground (arith, length-take chunk_size rest))
                  (ground arith) r)
          | inr e ↦
              let taken = length-take chunk_size rest in
              let dropped = length-drop chunk_size rest in
              simp (fair.goes_on i, no_fault (ltb n chunk_size), e, within taken)
                (next_piece n (length rest) total _ _ (ltb n chunk_size) _ (ground (arith, taken))
                  (process_chunk-Made i (take chunk_size rest) s r) (λ b. ground (arith, taken, b))
                  (λ b. (
                    length (drop chunk_size rest),
                    ground (arith, taken, dropped, b),
                    ground (arith, taken, b),
                    process_chunks-Looped fuel (i + 1) (drop chunk_size rest) (total + n) _
                        (ground (arith, taken, dropped, b, h))
                        (ground (arith, taken, dropped, b, l))
                        (process_chunk-Made i (take chunk_size rest) s r).ready,
                  )))
        ]
      where
        n : ℕ
        n = length (take chunk_size rest)

        within : n ≡ min chunk_size (length rest) → ltb limit (total + n) ≡ false
        within t = ground (arith, t, l)

        no_fault : (b : Bool) → (b && false) ≡ false
        no_fault true = refl
        no_fault false = refl
