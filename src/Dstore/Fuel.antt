-- ===== src/Dstore/Fuel.antt =====
-- The loop of `processFile` over the chunks has fuel enough.
use peertopeer.Prelude.{
  ℕ, zero, suc, ◌+◌, ◌≤◌, ◌<◌, ◌≡◌, refl, Bool, true, false, ◌&&◌, not, ap, ltb, ◌==◌,
}
use peertopeer.Prelude.{
  List, [], take, drop, length, length-take, length-drop, arith, if◌then◌else◌,
}
use peertopeer.Prelude.{Result, ok, err, failed}
use peertopeer.Prelude.Text.{Bytes}
use peertopeer.Digest.{Sha256}
use peertopeer.Erasure.{Layout, ReedSolomon}
use peertopeer.CryptoFile.{Aead}
use peertopeer.Manifest.{Chunk}
use peertopeer.Peer.{Peer}
use peertopeer.Dstore.Transfer.{Net}
use peertopeer.Dstore.Process.{Config, Inputs, Run}
use peertopeer.Dstore.Pipeline.{process_chunk, process_chunks, add_chunk}

-- The rest of the loop matters only after a chunk made from a full piece.
add_chunk_rest {ℓ} :
    {S : Type ℓ} (made : Result Chunk) (s : S) (last : Bool) (total : ℕ)
    (more more' : Result (List Chunk × ℕ) × S)
    → (last ≡ false → more ≡ more')
    → add_chunk made s last total more ≡ add_chunk made s last total more'
add_chunk_rest (err e) s last total more more' h = refl
add_chunk_rest (ok chunk) s true total more more' h = refl
add_chunk_rest (ok chunk) s false total more more' h = rw (h refl) refl

module _ (sha : Sha256) (c : Config) {W : Type 0} (net : Net W) (a : Aead) (rs : ReedSolomon)
    (x : Inputs) (layout : Layout) (key : Bytes) (peers : List Peer) (limit chunk_size : ℕ)
    (fails : Bool) where
  -- With chunks of at least one byte, the loop does the same on any two amounts of fuel above the
  -- number of bytes that are left to read: it never runs out of fuel.
  pub process_chunks_fuel :
      (fuel fuel' i : ℕ) (rest : Bytes) (total : ℕ) (s : Run W)
      → 1 ≤ chunk_size
      → length rest < fuel
      → length rest < fuel'
      → process_chunks sha c net a rs x layout key peers limit chunk_size fails fuel i rest total s
        ≡ process_chunks sha c net a rs x layout key peers limit chunk_size fails fuel' i rest total
            s
  unfolding process_chunks
  process_chunks_fuel zero fuel' i rest total s p h h' = elim h [ ]
  process_chunks_fuel (suc fuel) zero i rest total s p h h' = elim h' [ ]
  process_chunks_fuel (suc fuel) (suc fuel') i rest total s p h h' = ap Round (
      add_chunk_rest step.0 step.1 (ltb n chunk_size) (total + n) _ _ (λ full.
        process_chunks_fuel fuel fuel' (i + 1) (drop chunk_size rest) (total + n) step.1 p
          (ground (arith, length-take chunk_size rest, length-drop chunk_size rest))
          (ground (arith, length-take chunk_size rest, length-drop chunk_size rest))))
    where
      n : ℕ
      n = length (take chunk_size rest)

      step : Result Chunk × Run W
      step = process_chunk sha c net a rs x layout key peers i (take chunk_size rest) s

      Round : Result (List Chunk × ℕ) × Run W → Result (List Chunk × ℕ) × Run W
      Round o =
          if x.cancelled_at i
          then (err (failed "context"), s)
          else if ltb n chunk_size && fails
          then (err (failed "read original"), s)
          else if (n == 0) && not (total == 0)
          then (ok ([], total), s)
          else if ltb limit (total + n)
          then (err (failed "file exceeds limit"), s)
          else o
