-- ===== src/Dstore/Devices/Placing.antt =====
-- What the loop of `processFile` over the shards of a chunk leaves at the peers.
use peertopeer.Prelude.{◌≡◌, refl}
use peertopeer.Prelude.{Option, none, some, List, [], ◌∷◌, All, arith, inl, inr}
use peertopeer.Prelude.{Result, Error, Status, ok, err, subst}
use peertopeer.Prelude.Text.{Bytes, text}
use peertopeer.Digest.{Sha256, hash}
use peertopeer.Manifest.{Chunk, ShardRef}
use peertopeer.Peer.{Peer}
use peertopeer.Dstore.Transfer.{Net, shard_url}
use peertopeer.Dstore.Process.{
  Config, Inputs, Run, push_port, store_shard, store_ref, after_push, place_shard, place_shards,
  make_ref, first_peer, other_peers, add_ref,
}
use peertopeer.Dstore.Devices.{IsMesh, OnDevice, Safe, Grows}
use peertopeer.Dstore.Devices.Push.{
  Grows-refl, Grows-trans, Landed, Pushed, push_shard-Pushed, base_of, shard_url-base,
}

module _ (sha : Sha256) {W : Type 0} (net : Net W) (m : IsMesh sha net) where
  pub OnDevice-Grows :
      {w w' : W} (ref : ShardRef)
      → Grows sha net m w w'
      → OnDevice sha net m w ref
      → OnDevice sha net m w' ref
  OnDevice-Grows ref g o = record {
    base = o.base;
    content = o.content;
    url = o.url;
    found = (g.keeps (m.device o.base)).at_name ref.hash o.content o.found;
    same = o.same;
  }

  Safe-Grows :
      {w w' : W} (ref : ShardRef)
      → Grows sha net m w w'
      → Safe sha net m w ref
      → Safe sha net m w' ref
  Safe-Grows ref g (inl e) = inl e
  Safe-Grows ref g (inr o) = inr (OnDevice-Grows ref g o)

  AllSafe-Grows :
      {w w' : W} (refs : List ShardRef)
      → Grows sha net m w w'
      → All (Safe sha net m w) refs
      → All (Safe sha net m w') refs
  AllSafe-Grows [] g a = tt
  AllSafe-Grows (ref ∷ refs) g (s, a) = (Safe-Grows ref g s, AllSafe-Grows refs g a)

  -- Every shard of the chunks is at the device that its reference names.
  abbrev pub AllThere : W → List Chunk → Type 0
  AllThere w chunks = All (λ (chunk : Chunk). All (Safe sha net m w) chunk.shards) chunks

  pub AllThere-Grows :
      {w w' : W} (chunks : List Chunk)
      → Grows sha net m w w'
      → AllThere w chunks
      → AllThere w' chunks
  AllThere-Grows [] g a = tt
  AllThere-Grows (chunk ∷ chunks) g (s, a) =
      (AllSafe-Grows chunk.shards g s, AllThere-Grows chunks g a)

  -- A step that loses no file at any device, and what holds of what it returns.
  pub record Leaves {A : Type 0} (P : W → A → Type 0) (w : W) (r : Result A) (w' : W) : Type 0 where
    pub grows : Grows sha net m w w'
    pub holds : (a : A) → r ≡ ok a → P w' a

  pub failing : {A : Type 0} (P : W → A → Type 0) (w : W) (e : Error) → Leaves P w (err e) w
  failing P w e = record { grows = Grows-refl sha net m w; holds = λ a f. cc }

module _ (sha : Sha256) (c : Config) {W : Type 0} (net : Net W) (m : IsMesh sha net)
    (x : Inputs) where
  store_ref-world :
      (url name shard : Bytes) (s : Run W)
      → (store_ref sha c net x url name shard s).1.world ≡ s.world
  unfolding store_ref store_shard
  store_ref-world url name shard s = refl

  -- A reference that is made without a peer is one to the local store.
  local_ref-Leaves :
      (shard : Bytes) (s : Run W)
      → let o = store_ref sha c net x [] (text "local") shard s in
        Leaves sha net m (Safe sha net m) s.world o.0 o.1.world
  unfolding store_ref store_shard make_ref
  local_ref-Leaves shard s = record {
    grows = Grows-refl sha net m s.world;
    holds = λ ref e. inl (ground arith);
  }

  peer_ref-Leaves :
      (p : Peer) (shard : Bytes) (w : W) (s : Run W)
      → Grows sha net m w s.world
      → Landed sha net m s.world (base_of p (push_port sha c net p)) shard
      → let url = shard_url p (push_port sha c net p) (hash sha shard) in
        let o = store_ref sha c net x url p.host_name shard s in
        Leaves sha net m (Safe sha net m) w o.0 o.1.world
  unfolding store_ref store_shard make_ref shard_url
  peer_ref-Leaves p shard w s g l = record {
    grows = g;
    holds = λ ref e.
        let made : make_ref sha c net (shard_url p (push_port sha c net p) (hash sha shard))
              p.host_name (hash sha shard)
            ≡ ref =
          ground arith in
        subst (Safe sha net m s.world) made (
          inr (record {
            base = base_of p (push_port sha c net p);
            content = l.content;
            url = shard_url-base p (push_port sha c net p) (hash sha shard);
            found = l.found;
            same = l.same;
          }));
  }

  after_push-Leaves :
      (p : Peer) (shard : Bytes) (w : W) (r : Status) (s : Run W)
      → Pushed sha net m w (base_of p (push_port sha c net p)) shard r s.world
      → let o = after_push sha c net x p shard r s in
        Leaves sha net m (Safe sha net m) w o.0 o.1.world
  unfolding after_push
  after_push-Leaves p shard w (err e) s l = record { grows = l.grows; holds = λ ref f. cc }
  after_push-Leaves p shard w (ok _) s l = peer_ref-Leaves p shard w s l.grows (l.landed refl)

  place_shard-Leaves :
      (p : Option Peer) (shard : Bytes) (s : Run W)
      → let o = place_shard sha c net x p shard s in
        Leaves sha net m (Safe sha net m) s.world o.0 o.1.world
  unfolding place_shard
  place_shard-Leaves none shard s = local_ref-Leaves shard s
  place_shard-Leaves (some p) shard s =
      after_push-Leaves p shard s.world _ _
        (push_shard-Pushed sha net m s.world p shard (push_port sha c net p) c.policy.share_id)

  add_ref-Leaves :
      (w : W) (r : Result ShardRef) (s₁ : Run W) (rest : Result (List ShardRef) × Run W)
      → Leaves sha net m (Safe sha net m) w r s₁.world
      → Leaves sha net m (λ w'. All (Safe sha net m w')) s₁.world rest.0 rest.1.world
      → let o = add_ref r s₁ rest in
        Leaves sha net m (λ w'. All (Safe sha net m w')) w o.0 o.1.world
  add_ref-Leaves w (err e) s₁ rest st l = record { grows = st.grows; holds = λ refs f. cc }
  add_ref-Leaves w (ok ref) s₁ (err e, s₂) st l = record {
    grows = Grows-trans sha net m st.grows l.grows;
    holds = λ refs f. cc;
  }
  add_ref-Leaves w (ok ref) s₁ (ok more, s₂) st l = record {
    grows = Grows-trans sha net m st.grows l.grows;
    holds = λ refs f.
        let all : ref ∷ more ≡ refs = ground arith in
        subst (λ refs. All (Safe sha net m s₂.world) refs) all
          (Safe-Grows sha net m ref l.grows (st.holds ref refl), l.holds more refl);
  }

  pub place_shards-Leaves :
      (shards : List Bytes) (peers : List Peer) (s : Run W)
      → let o = place_shards sha c net x shards peers s in
        Leaves sha net m (λ w'. All (Safe sha net m w')) s.world o.0 o.1.world
  unfolding place_shards
  place_shards-Leaves [] peers s = record {
    grows = Grows-refl sha net m s.world;
    holds = λ refs e.
        let none_left : [] ≡ refs = ground arith in
        subst (λ refs. All (Safe sha net m s.world) refs) none_left tt;
  }
  place_shards-Leaves (shard ∷ shards) peers s =
      let s₁ = (place_shard sha c net x (first_peer peers) shard s).1 in
      add_ref-Leaves s.world _ s₁ _ (place_shard-Leaves (first_peer peers) shard s)
        (place_shards-Leaves shards (other_peers peers) s₁)
