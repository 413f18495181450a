-- ===== src/Dstore/RoundTrip/Placed.antt =====
-- After the loop over the shards of a chunk every shard is in the local store, under its reference.
use peertopeer.Prelude.{◌≡◌, refl, Option, none, some, List, [], ◌∷◌, arith}
use peertopeer.Prelude.{Result, Status, ok, err, Result-cases, inl, inr}
use peertopeer.Prelude.Text.{Bytes}
use peertopeer.Prelude.Dict.{lookup}
use peertopeer.AtomicFile.{Dir}
use peertopeer.AtomicFile.Keeping.{Keeps, Keeps-refl, Keeps-trans}
use peertopeer.Digest.{Sha256, hash}
use peertopeer.LocalStore
use peertopeer.LocalStore.Integrity.{put_owned-keeps, put_owned-Holds}
use peertopeer.LocalStore.Cases.{put_owned-PutOwned}
use peertopeer.LocalStore.{put_owned}
use peertopeer.Manifest.{ShardRef}
use peertopeer.Peer.{Peer}
use peertopeer.Dstore.Transfer.{Net}
use peertopeer.Dstore.Process.{
  Config, Inputs, Run, store_shard, store_ref, after_push, place_shard, place_shards, make_ref,
  first_peer, other_peers, add_ref,
}

module _ (sha : Sha256) where
  -- A file with the shard's hash is there under that hash.
  pub record Held (d : Dir) (shard : Bytes) : Type 0 where
    pub content : Bytes
    pub same : hash sha content ≡ hash sha shard
    pub found : lookup (hash sha shard) d ≡ some content

  abbrev pub Placed : Dir → List ShardRef → List Bytes → Type 0
  Placed d [] [] = Unit
  Placed d [] (s ∷ shards) = ⊥
  Placed d (ref ∷ refs) [] = ⊥
  Placed d (ref ∷ refs) (s ∷ shards) = (ref.hash ≡ hash sha s) × Held d s × Placed d refs shards

  pub Held-Keeps : {d d' : Dir} {shard : Bytes} → Keeps d d' → Held d shard → Held d' shard
  Held-Keeps k h = record { content = h.content; same = h.same; found = k.at_name _ _ h.found }

  pub Placed-Keeps :
      {d d' : Dir} (refs : List ShardRef) (shards : List Bytes)
      → Keeps d d'
      → Placed d refs shards
      → Placed d' refs shards
  Placed-Keeps [] [] k p = tt
  Placed-Keeps [] (s ∷ shards) k p = absurd p
  Placed-Keeps (ref ∷ refs) [] k p = absurd p
  Placed-Keeps (ref ∷ refs) (s ∷ shards) k p =
      (p.0, Held-Keeps k p.1, Placed-Keeps refs shards k p.2)

module _ (sha : Sha256) (c : Config) {W : Type 0} (net : Net W) (x : Inputs) where
  store_shard-Keeps :
      (shard : Bytes) (s : Run W) → Keeps s.dir (store_shard sha c net x shard s).1.dir
  unfolding store_shard LocalStore.put
  store_shard-Keeps shard s = record {
    at_name = λ k v h. put_owned-keeps sha c.quota_bytes (x.env_at s.puts) shard [] s.dir k v h;
  }

  store_shard-Held :
      (shard : Bytes) (s : Run W)
      → (store_shard sha c net x shard s).0 ≡ ok tt
      → Held sha (store_shard sha c net x shard s).1.dir shard
  unfolding store_shard LocalStore.put
  store_shard-Held shard s e =
      elim (Result-cases (put_owned sha c.quota_bytes (x.env_at s.puts) shard [] s.dir).0) [
        | inr (y, bad) ↦ ground arith
        | inl (h, good) ↦
            let holds =
              (put_owned-Holds sha c.quota_bytes (x.env_at s.puts) shard [] s.dir h
                (put_owned-PutOwned sha c.quota_bytes (x.env_at s.puts) shard [] s.dir) good).1 in
            record { content = holds.content; same = holds.same; found = holds.found }
      ]

  -- What a step of placing does to the store, and what a reference that it returns says.
  record Step (shard : Bytes) (d : Dir) (r : Result ShardRef) (d' : Dir) : Type 0 where
    keeps : Keeps d d'
    held : (ref : ShardRef) → r ≡ ok ref → (ref.hash ≡ hash sha shard) × Held sha d' shard

  store_ref-Step :
      (url name shard : Bytes) (s : Run W)
      → let o = store_ref sha c net x url name shard s in Step shard s.dir o.0 o.1.dir
  unfolding store_ref make_ref
  store_ref-Step url name shard s = record {
    keeps = store_shard-Keeps shard s;
    held = λ ref e. elim (Result-cases (store_shard sha c net x shard s).0) [
      | inr (y, bad) ↦ ground arith
      | inl (_, good) ↦ (ground arith, store_shard-Held shard s good)
    ];
  }

  after_push-Step :
      (p : Peer) (shard : Bytes) (r : Status) (s : Run W)
      → let o = after_push sha c net x p shard r s in Step shard s.dir o.0 o.1.dir
  unfolding after_push
  after_push-Step p shard (err e) s = record { keeps = Keeps-refl s.dir; held = λ ref e. cc }
  after_push-Step p shard (ok _) s = store_ref-Step _ _ shard s

  place_shard-Step :
      (p : Option Peer) (shard : Bytes) (s : Run W)
      → let o = place_shard sha c net x p shard s in Step shard s.dir o.0 o.1.dir
  unfolding place_shard
  place_shard-Step none shard s = store_ref-Step _ _ shard s
  place_shard-Step (some p) shard s = after_push-Step p shard _ (record s { world = _ })

  -- What the loop does to the store, and what the references that it returns say.
  pub record Loop (shards : List Bytes) (d : Dir) (r : Result (List ShardRef)) (d' : Dir)
      : Type 0 where
    pub keeps : Keeps d d'
    pub placed : (refs : List ShardRef) → r ≡ ok refs → Placed sha d' refs shards

  Placed-cons :
      (refs : List ShardRef) {d' : Dir} (ref : ShardRef) (more : List ShardRef) (shard : Bytes)
      (shards : List Bytes)
      → refs ≡ ref ∷ more
      → ref.hash ≡ hash sha shard
      → Held sha d' shard
      → Placed sha d' more shards
      → Placed sha d' refs (shard ∷ shards)
  Placed-cons refs ref more shard shards e h held p = rw e (h, held, p)

  add_ref-Loop :
      {d : Dir} (shard : Bytes) (shards : List Bytes) (r : Result ShardRef) (s₁ : Run W)
      (rest : Result (List ShardRef) × Run W)
      → Step shard d r s₁.dir
      → Loop shards s₁.dir rest.0 rest.1.dir
      → let o = add_ref r s₁ rest in Loop (shard ∷ shards) d o.0 o.1.dir
  add_ref-Loop shard shards (err e) s₁ rest st l = record {
    keeps = st.keeps;
    placed = λ refs h. cc;
  }
  add_ref-Loop shard shards (ok ref) s₁ (err e, s₂) st l = record {
    keeps = Keeps-trans st.keeps l.keeps;
    placed = λ refs h. cc;
  }
  add_ref-Loop shard shards (ok ref) s₁ (ok more, s₂) st l = record {
    keeps = Keeps-trans st.keeps l.keeps;
    placed = λ refs h.
        let (name, held) = st.held ref refl in
        Placed-cons refs ref more shard shards (ground arith) name (Held-Keeps sha l.keeps held)
          (l.placed more refl);
  }

  -- If the loop succeeds every shard is held under its reference.
  pub place_shards-Loop :
      (shards : List Bytes) (peers : List Peer) (s : Run W)
      → let o = place_shards sha c net x shards peers s in Loop shards s.dir o.0 o.1.dir
  unfolding place_shards
  place_shards-Loop [] peers s = record {
    keeps = Keeps-refl s.dir;
    placed = λ refs e. nil_placed refs (ground arith);
  }
    where
      nil_placed : (refs : List ShardRef) → refs ≡ [] → Placed sha s.dir refs []
      nil_placed [] e = tt
      nil_placed (ref ∷ refs) e = cc
  place_shards-Loop (shard ∷ shards) peers s =
      let s₁ = (place_shard sha c net x (first_peer peers) shard s).1 in
      add_ref-Loop shard shards _ s₁ _ (place_shard-Step (first_peer peers) shard s)
        (place_shards-Loop shards (other_peers peers) s₁)
