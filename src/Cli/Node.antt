-- ===== src/Cli/Node.antt =====
-- `configuredPipeline`, `runInit`, `runNode` and the checks of `runPeers` of cmd/dstore/node.go.
pub mod Laws
use peertopeer.Prelude.{
  Bool, true, false, ◌&&◌, ◌||◌, not, List, [], ◌∷◌, ◌++◌, is_nil, if◌then◌else◌, Option, none,
  some,
}
use peertopeer.Prelude.{Result, Status, ok, err, failed, ◌>>=◌, ◌>>◌, reject_if}
use peertopeer.Prelude.Text.{Bytes, text, equal, is_empty}
use peertopeer.Prelude.Dict.{Dict}
use peertopeer.Prelude.Int.{ℤ, pos, pos_part}
use peertopeer.AtomicFile.{Dir, Faults}
use peertopeer.NodeConfig
use peertopeer.NodeConfig.{Json, save_new}
use peertopeer.Peer
use peertopeer.Peer.{Peer, InfoReply, inspect}
use peertopeer.ShardServer.{Options}
use peertopeer.Dstore.Placement.{contains_name}
use peertopeer.Dstore.Process
use peertopeer.Cli.{parse_peers, parse_peer_ports, merge_peer_ports, parse_exclude_list}

-- `configuredPipeline`; the layout's zeros stand for the default one, whose 3 shards want as many
-- devices. `Load` has checked that the quota is positive.
unfoldable pub configured_pipeline : NodeConfig.Config → Result Process.Config
configured_pipeline c = parse_peers c.peers >>= λ (peers, ports). ok (record {
  policy = record {
    peers = peers;
    exclude_peers = [];
    members = if c.allow_mesh then [] else c.members;
    min_peers = 3;
    require_capabilities = true;
    listen_port = c.port;
    peer_ports = merge_peer_ports (parse_peer_ports c.peer_ports) ports;
    share_id = c.share_id;
  };
  shard_dir = c.shard_dir;
  base_url = [];
  data_shards = pos 0;
  parity_shards = pos 0;
  keep_original = true;
  max_file_bytes = c.max_file_bytes;
  chunk_size = c.chunk_size;
  quota_bytes = pos_part c.quota_bytes;
})

-- The configuration that `runInit` saves: the members of the flag, and this device.
unfoldable pub with_members : NodeConfig.Config → List Bytes → NodeConfig.Config
with_members c members = record c { members = members ++ c.name ∷ [] }

-- `runInit`, behind its flags: `c` is the default configuration with what they set.
unfoldable pub run_init :
    Json → Faults → Bytes → Bytes → NodeConfig.Config → Bytes → Bool → Dir → Status × Dir
run_init json f tmp path c members extra_arguments files =
    if extra_arguments
    then (err (failed "unexpected init arguments"), files)
    else if not c.allow_mesh && is_nil (parse_exclude_list members)
    then (err (failed "-members is required"), files)
    else elim (parse_peers c.peers) [
      | err e ↦ (err e, files)
      | ok _ ↦ save_new json f tmp path (with_members c (parse_exclude_list members)) files
    ]

-- The options that `runNode` serves with.
unfoldable pub server_options : (Bytes → Result Bytes) → NodeConfig.Config → Options
server_options who_is c = record {
  identify = some who_is;
  members = c.members;
  restrict_members = not c.allow_mesh;
  share_id = c.share_id;
  name = c.name;
  read_only = equal c.role (text "client");
  max_shard_bytes = c.max_shard_bytes;
}

-- The peers that `runPeers` shows.
unfoldable pub visible : Bool → List Peer → List Peer
visible online_only [] = []
visible online_only (p ∷ peers) =
    let rest = visible online_only peers in if not online_only || p.online then p ∷ rest else rest

-- The loop of `runPeers` over the statuses: a device that is no member is not ready.
unfoldable pub mark_members : List Bytes → List Peer.Status → List Peer.Status
mark_members members [] = []
mark_members members (s ∷ statuses) =
    (if contains_name members s.peer.host_name then s else record s { ready = false })
    ∷ mark_members members statuses

-- `runPeers -config`, from the peers in their order.
unfoldable pub checked_peers :
    (Peer → Bytes → InfoReply)
    → NodeConfig.Config
    → Bool
    → List Peer
    → Bytes
    → Dict Bytes
    → List Peer.Status
checked_peers reply c online_only peers port ports =
    let statuses = inspect reply (visible online_only peers) port ports c.share_id in
    if c.allow_mesh then statuses else mark_members c.members statuses
