-- ===== src/Dstore/Chosen/Assigned.antt =====
-- The devices that `shardPeers` of internal/dstore/dstore.go assigns to the shards of a file.
use mathlib.Core.List.{Memᴰ}
use mathlib.Core.List.Memᴰ
use peertopeer.Prelude.{ℕ, ◌≡◌, ◌≢◌, true, false, ◌||◌, ◌⊎◌, List, [], is_nil, ok, if◌then◌else◌}
use peertopeer.Prelude.Text.{Bytes, equal, equal_fold}
use peertopeer.Prelude.Dict.{Dict}
use peertopeer.Prelude.Int.{pos, ltb_ℤ, eq_ℤ, ◌+ℤ◌}
use peertopeer.Protocol.{Info}
use peertopeer.Peer.{Peer, answered, port}
use peertopeer.Dstore.Placement.{Policy, Mesh, assign, eligible_peers}
use peertopeer.Dstore.Chosen.{Distinct}

-- The agent of a device has answered for the same sharing group, and says that it stores shards, takes
-- ones of this size, and has the space for one more, or no limit.
pub record HasRoom (c : Policy) (mesh : Mesh) (shard_bytes : ℕ) (p : Peer) : Type 0 where
  pub info : Info
  pub answer : mesh.reply p (port p c.listen_port c.peer_ports) ≡ answered info
  pub group : equal info.share_id c.share_id ≡ true
  pub storage : info.storage ≡ true
  pub takes : ltb_ℤ info.max_shard_bytes (pos shard_bytes) ≡ false
  pub space :
      (eq_ℤ info.quota_bytes (pos 0) ≡ true)
      ⊎ (ltb_ℤ info.quota_bytes (◌+ℤ◌ info.used_bytes (pos shard_bytes)) ≡ false)

-- A device is online, no excluded name is its own in either case, and it is a member where members are
-- listed.
pub record IsAllowed (c : Policy) (p : Peer) : Type 0 where
  pub online : p.online ≡ true
  pub not_excluded :
      (name : Bytes) → Memᴰ name c.exclude_peers → equal_fold name p.host_name ≡ false
  pub member :
      (c.members ≡ [])
      ⊎ ((name : Bytes) × Memᴰ name c.members × (equal_fold name p.host_name ≡ true))

-- The order that a shuffle leaves has no device that was not there, as `rand.Shuffle` only swaps.
pub record IsShuffle (mesh : Mesh) : Type 0 where
  pub members : (peers : List Peer) (p : Peer) → Memᴰ p (mesh.shuffle peers) → Memᴰ p peers

-- What a device is that shards are assigned to: a configured one, or where none is configured a
-- discovered one; allowed; and with room, where capabilities are required or no device is configured.
pub record IsAssigned (c : Policy) (mesh : Mesh) (shard_bytes : ℕ) (p : Peer) : Type 0 where
  pub candidate :
      Memᴰ p c.peers
      ⊎ ((c.peers ≡ []) × (found : List Peer) × (mesh.discover ≡ ok found) × Memᴰ p found)
  pub allowed : IsAllowed c p
  pub room : ((c.require_capabilities ≡ false) × (c.peers ≢ [])) ⊎ HasRoom c mesh shard_bytes p

-- The devices that are asked, or taken as they are.
record Eligible (c : Policy) (mesh : Mesh) (n : ℕ) (candidates peers : List Peer) : Type 0 where
  each :
      (p : Peer)
      → Memᴰ p peers
      → Memᴰ p candidates
        × IsAllowed c p
        × (((c.require_capabilities || is_nil c.peers) ≡ false) ⊎ HasRoom c mesh n p)
  distinct : Distinct c peers

-- Where `shardPeers` succeeds.
record Succeeded (c : Policy) (mesh : Mesh) (count n : ℕ) (peers : List Peer) : Type 0 where
  candidates : List Peer
  source : (if is_nil c.peers then mesh.discover else ok c.peers) ≡ ok candidates
  result :
      assign
        (if is_nil c.peers
          then mesh.shuffle (eligible_peers c mesh n candidates)
          else eligible_peers c mesh n candidates)
        0
        count
      ≡ peers
