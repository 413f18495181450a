-- ===== src/Dstore/Placement.antt =====
-- `shardPeers` of internal/dstore/dstore.go: the devices that the shards of a file go to.
use Prim.Native.Nat.{◌%◌}
use peertopeer.Prelude.{ℕ, zero, suc, ◌+◌, Bool, false, ◌&&◌, ◌||◌, not, none, some}
use peertopeer.Prelude.{List, [], ◌∷◌, is_nil, length, get_elem?, ltb, ◌==◌, if◌then◌else◌}
use peertopeer.Prelude.{Result, ok, failed, ◌>>=◌, ◌>>◌, reject_if}
use peertopeer.Prelude.Text.{Bytes, equal, equal_fold}
use peertopeer.Prelude.Dict.{Dict}
use peertopeer.HostPort.{join_host_port}
use peertopeer.Prelude.Int.{pos, ltb_ℤ, eq_ℤ, ◌+ℤ◌}
use peertopeer.Peer
use peertopeer.Peer.{Peer, InfoReply, Status, inspect}

-- The fields of `Config` that placement reads.
pub record Policy : Type 0 where
  pub peers : List Peer
  pub exclude_peers : List Bytes
  pub members : List Bytes
  pub min_peers : ℕ
  pub require_capabilities : Bool
  pub listen_port : Bytes
  pub peer_ports : Dict Bytes
  pub share_id : Bytes

-- What the network gives: the discovered peers, the agents' answers, and the order that the
-- random shuffle leaves.
pub record Mesh : Type 0 where
  pub discover : Result (List Peer)
  pub reply : Peer → Bytes → InfoReply
  pub shuffle : List Peer → List Peer

-- `containsName`.
unfoldable pub contains_name : List Bytes → Bytes → Bool
contains_name [] name = false
contains_name (candidate ∷ names) name = equal_fold candidate name || contains_name names name

-- The tests on one candidate.
unfoldable pub may_hold : Policy → Peer → Bool
may_hold c p =
    p.online
    && not (contains_name c.exclude_peers p.host_name)
    && (is_nil c.members || contains_name c.members p.host_name)

-- The failure domain of a device: its address, or also its port for configured peers.
unfoldable pub domain : Policy → Peer → Bytes
domain c p =
    if (c.min_peers == 0) && not (is_nil c.peers)
    then join_host_port p.tail_ip (Peer.port p c.listen_port c.peer_ports)
    else p.tail_ip

unfoldable pub seen_before : Bytes → List Bytes → Bool
seen_before id [] = false
seen_before id (x ∷ seen) = equal x id || seen_before id seen

-- The loop over the candidates, with the map of the domains seen.
unfoldable pub select : Policy → List Bytes → List Peer → List Peer
select c seen [] = []
select c seen (p ∷ candidates) =
    let skip = not (may_hold c p) || seen_before (domain c p) seen in
    let rest = select c (if skip then seen else domain c p ∷ seen) candidates in
    if skip then rest else p ∷ rest

-- Whether an agent has room: `quota - used >= shardBytes` with `used` added on both sides.
unfoldable pub has_room : ℕ → Status → Bool
has_room shard_bytes s = elim s.info [
  | none ↦ false
  | some info ↦
      s.ready
      && not (ltb_ℤ info.max_shard_bytes (pos shard_bytes))
      && (eq_ℤ info.quota_bytes (pos 0)
          || not (ltb_ℤ info.quota_bytes (◌+ℤ◌ info.used_bytes (pos shard_bytes))))
]

unfoldable pub with_room : ℕ → List Status → List Peer
with_room shard_bytes [] = []
with_room shard_bytes (s ∷ statuses) =
    let rest = with_room shard_bytes statuses in
    if has_room shard_bytes s then s.peer ∷ rest else rest

unfoldable pub required_peers : Policy → ℕ → ℕ
required_peers c count =
    if c.min_peers == 0 then (if is_nil c.peers then count else 1) else c.min_peers

-- `assigned[i] = eligible[i%len(eligible)]`; the list is not empty.
unfoldable pub assign : List Peer → ℕ → ℕ → List Peer
assign eligible i zero = []
assign eligible i (suc n) =
    let rest = assign eligible (i + 1) n in
    elim (get_elem? eligible (i % length eligible)) [ none ↦ rest | some p ↦ p ∷ rest ]

unfoldable pub eligible_peers : Policy → Mesh → ℕ → List Peer → List Peer
eligible_peers c mesh shard_bytes candidates =
    let chosen = select c [] candidates in
    if c.require_capabilities || is_nil c.peers
    then with_room shard_bytes (inspect mesh.reply chosen c.listen_port c.peer_ports c.share_id)
    else chosen

-- `shardPeers`.
unfoldable pub shard_peers : Policy → Mesh → ℕ → ℕ → Result (List Peer)
shard_peers c mesh count shard_bytes = do
  candidates ← (if is_nil c.peers then mesh.discover else ok c.peers)
  let eligible = eligible_peers c mesh shard_bytes candidates
  reject_if (ltb (length eligible) (required_peers c count)) (failed "ready storage devices")
  ok (assign (if is_nil c.peers then mesh.shuffle eligible else eligible) 0 count)
