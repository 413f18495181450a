-- ===== src/Dstore/Process.antt =====
-- `processFile` of internal/dstore/dstore.go: a file is cut into chunks, each is encrypted, encoded
-- and stored, and a stub takes the file's place.
use mathlib.Core.List.{reverse}
use peertopeer.Prelude.{ℕ, ◌+◌, Bool, not}
use peertopeer.Prelude.{Option, none, some, List, [], ◌∷◌, ◌++◌}
use peertopeer.Prelude.{if◌then◌else◌, Result, Status, ok, err, failed, ◌>>=◌}
use peertopeer.Prelude.Text.{Bytes, text, is_empty}
use peertopeer.Prelude.Dict.{lookup}
use peertopeer.Prelude.Int.{ℤ}
use peertopeer.AtomicFile.{Dir, Faults}
use peertopeer.Digest.{Sha256, hash}
use peertopeer.LocalStore
use peertopeer.LocalStore.{Env}
use peertopeer.Manifest.{ShardRef}
use peertopeer.Manifest.Path.{drop_slashes}
use peertopeer.Peer.{Peer}
use peertopeer.ShardServer.{Body}
use peertopeer.Dstore.Placement.{Policy}
use peertopeer.Dstore.Transfer.{Net, push_shard, shard_url}

pub record Config : Type 0 where
  pub policy : Policy
  pub shard_dir : Bytes
  pub base_url : Bytes
  pub data_shards : ℤ
  pub parity_shards : ℤ
  pub keep_original : Bool
  pub max_file_bytes : ℤ
  pub chunk_size : ℤ
  pub quota_bytes : ℕ

-- What one run meets: the random source, the bytes that the opened file yields, whether it is still
-- the file that was looked at, the ends of the context, and the faults of the system calls.
pub record Inputs : Type 0 where
  pub source : Body
  pub open_fails : Bool
  pub same_at_open : Bool
  pub same_at_end : Bool
  pub cancelled_at_start : Bool
  pub cancelled_at : ℕ → Bool
  pub cancelled_at_end : Bool
  pub key : Result Bytes
  pub nonce_at : ℕ → Result Bytes
  pub file_id : Result Bytes
  pub env_at : ℕ → Env
  pub stub_faults : Faults
  pub stub_tmp : Bytes
  pub remove_fails : Bool

-- The state of a run: the network, the directory of the store, and the operations on the store so far.
pub record Run (W : Type 0) : Type 0 where
  pub world : W
  pub dir : Dir
  pub puts : ℕ

-- `strings.TrimRight(s, "/")`.
unfoldable pub trim_right_slashes : Bytes → Bytes
trim_right_slashes s = reverse (drop_slashes (reverse s))

abbrev pub first_peer : List Peer → Option Peer
first_peer [] = none
first_peer (p ∷ _) = some p

abbrev pub other_peers : List Peer → List Peer
other_peers [] = []
other_peers (_ ∷ peers) = peers

-- The loop over the shards goes on only after a reference.
abbrev pub add_ref {ℓ} :
    {S : Type ℓ} → Result ShardRef → S → Result (List ShardRef) × S → Result (List ShardRef) × S
add_ref (err e) s rest = (err e, s)
add_ref (ok ref) s rest = (rest.0 >>= (λ refs. ok (ref ∷ refs)), rest.1)

module _ (sha : Sha256) (c : Config) {W : Type 0} (net : Net W) where
  -- The port of a peer, as `processFile` finds it.
  unfoldable pub push_port : Peer → Bytes
  push_port p = elim (lookup p.host_name c.policy.peer_ports) [
    | some custom ↦ custom
    | none ↦ if is_empty c.policy.listen_port then text "8080" else c.policy.listen_port
  ]

  -- The reference to a shard; `url` is empty where there is no peer.
  unfoldable pub make_ref : Bytes → Bytes → Bytes → ShardRef
  make_ref url peer_name h = record {
    hash = h;
    peer = peer_name;
    url =
        if not (is_empty url)
        then url
        else let base_url = trim_right_slashes c.base_url in
          if not (is_empty base_url) then base_url ++ (text "/shards/" ++ h) else text "local";
  }

  -- `store.Put` in a run.
  unfoldable pub store_shard : Inputs → Bytes → Run W → Status × Run W
  store_shard x shard s =
      let (r, d) = LocalStore.put sha c.quota_bytes (x.env_at s.puts) shard s.dir in
      (
        elim r [ err _ ↦ err (failed "store shard") | ok _ ↦ ok tt ],
        record { world = s.world; dir = d; puts = s.puts + 1 },
      )

  -- The local store of a shard, and its reference.
  unfoldable pub store_ref : Inputs → Bytes → Bytes → Bytes → Run W → Result ShardRef × Run W
  store_ref x url peer_name shard s =
      let (r, s') = store_shard x shard s in
      (r >>= (λ _. ok (make_ref url peer_name (hash sha shard))), s')

  -- What follows the upload to a peer.
  unfoldable pub after_push : Inputs → Peer → Bytes → Status → Run W → Result ShardRef × Run W
  after_push x p shard (err _) s = (err (failed "peer unavailable for shard"), s)
  after_push x p shard (ok _) s =
      store_ref x (shard_url p (push_port p) (hash sha shard)) p.host_name shard s

  -- One shard: to its peer, if it has one, and to the local store.
  unfoldable pub place_shard : Inputs → Option Peer → Bytes → Run W → Result ShardRef × Run W
  place_shard x none shard s = store_ref x [] (text "local") shard s
  place_shard x (some p) shard s =
      let (pushed, w) = push_shard sha net s.world p shard (push_port p) c.policy.share_id in
      after_push x p shard pushed (record s { world = w })

  -- The loop over the shards of a chunk.
  unfoldable pub place_shards :
      Inputs → List Bytes → List Peer → Run W → Result (List ShardRef) × Run W
  place_shards x [] peers s = (ok [], s)
  place_shards x (shard ∷ shards) peers s =
      let (r, s₁) = place_shard x (first_peer peers) shard s in
      let rest = place_shards x shards (other_peers peers) s₁ in add_ref r s₁ rest
