-- ===== src/Dstore/RoundTrip/Fetched.antt =====
-- A shard that the local store holds is fetched, whatever the network answers.
use peertopeer.Prelude.{ℕ, ◌≡◌, refl, true, false, some, List, [], ◌∷◌, arith}
use peertopeer.Prelude.{ok, sym, ◌∙◌, Result-cases, inl, inr}
use peertopeer.Prelude.Text.{Bytes, equal_iff, equal_refl, is_empty}
use peertopeer.Prelude.Dict.{lookup}
use peertopeer.AtomicFile.{Dir}
use peertopeer.Digest.{Sha256, hash, valid_hash, hash-valid}
use peertopeer.LocalStore
use peertopeer.CryptoFile.{Aead}
use peertopeer.Erasure.{ReedSolomon}
use peertopeer.Manifest.{ShardRef}
use peertopeer.Dstore.Transfer.{Net, download_shard, fetch_local, fetch_shard}
use peertopeer.Dstore.Restore.{RestoreInputs, fetch_one, fetch_all}
use peertopeer.Dstore.RoundTrip.Placed.{Held, Placed}

-- No other data has the hash of a shard in the store.
abbrev pub Unique : Sha256 → Dir → Type 0
Unique sha d = (h s t : Bytes) → lookup h d ≡ some s → hash sha t ≡ hash sha s → t ≡ s

module _ (sha : Sha256) (d : Dir) (unique : Unique sha d) where
  pub Held-unique : {s : Bytes} (t : Bytes) → Held sha d s → hash sha t ≡ hash sha s → t ≡ s
  Held-unique {s} t h e =
      unique (hash sha s) h.content t h.found (e ∙ sym h.same)
      ∙ sym (unique (hash sha s) h.content s h.found (sym h.same))

  Held-get : (s : Bytes) → Held sha d s → LocalStore.get sha false (hash sha s) d ≡ ok s
  unfolding LocalStore.get
  Held-get s h =
      let e : h.content ≡ s = Held-unique h.content h h.same in
      rw (hash-valid, h.found, e, equal_refl)

pub hash-not_empty : (sha : Sha256) (s : Bytes) → is_empty (hash sha s) ≡ false
hash-not_empty sha s = go (hash sha s) (hash-valid sha s)
  where
    go : (h : Bytes) → valid_hash h ≡ true → is_empty h ≡ false
    go [] v = unfold valid_hash in ground arith
    go (c ∷ h) v = refl

module _ (sha : Sha256) {W : Type 0} (net : Net W) (a : Aead) (rs : ReedSolomon) (x : RestoreInputs)
    (d : Dir) (share_id : Bytes) (unique : Unique sha d) (reads : x.read_fails ≡ false) where
  fetch_local-Held :
      (s : Bytes) → Held sha d s → fetch_local sha net true x.read_fails (hash sha s) d ≡ ok s
  unfolding fetch_local
  fetch_local-Held s h = rw reads (Held-get sha d unique s h)

  fetch_shard-Held :
      (max_bytes : ℕ) (ref : ShardRef) (s : Bytes) (w : W)
      → ref.hash ≡ hash sha s
      → Held sha d s
      → (fetch_shard sha net true x.read_fails d w ref share_id max_bytes).0 ≡ ok s
  unfolding fetch_shard
  fetch_shard-Held max_bytes ref s w name h =
      elim (Result-cases (download_shard net w ref.url share_id max_bytes).0) [
        | inr (y, bad) ↦ ground (arith, name, fetch_local-Held s h)
        | inl (got, good) ↦ ground (
          arith,
          name,
          fetch_local-Held s h,
          equal_iff (hash sha got) (hash sha s),
          Held-unique sha d unique got h,
        )
      ]

  fetch_one-Held :
      (max_bytes : ℕ) (ref : ShardRef) (s : Bytes) (w : W)
      → ref.hash ≡ hash sha s
      → Held sha d s
      → (fetch_one sha net a rs x true d share_id max_bytes ref w).0 ≡ s
  unfolding fetch_one
  fetch_one-Held max_bytes ref s w name h =
      ground (arith, name, hash-not_empty sha s, fetch_shard-Held max_bytes ref s w name h)

  pub fetch_all-Placed :
      (max_bytes : ℕ) (refs : List ShardRef) (shards : List Bytes) (w : W)
      → Placed sha d refs shards
      → (fetch_all sha net a rs x true d share_id max_bytes refs w).0 ≡ shards
  unfolding fetch_all
  fetch_all-Placed max_bytes [] [] w p = refl
  fetch_all-Placed max_bytes [] (s ∷ shards) w p = absurd p
  fetch_all-Placed max_bytes (ref ∷ refs) [] w p = absurd p
  fetch_all-Placed max_bytes (ref ∷ refs) (s ∷ shards) w (name, held, p) = cc (
    fetch_one-Held max_bytes ref s w name held,
    fetch_all-Placed max_bytes refs shards
        (fetch_one sha net a rs x true d share_id max_bytes ref w).1 p,
  )
