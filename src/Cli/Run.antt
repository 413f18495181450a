-- ===== src/Cli/Run.antt =====
-- The dispatch of `run` in cmd/dstore/main.go, and the commands of cmd/dstore from the flags that were
-- parsed to what they hand on: `runNode`, `runAdd`, `runRestoreTree`, `runPeers` and the listing of
-- peers. Alignment by `tabwriter`, JSON output and the order of a sort are not modelled.
use peertopeer.Prelude.{
  Bool, true, false, not, List, [], ◌∷◌, is_nil, if◌then◌else◌, Option, none, some, map,
}
use peertopeer.Prelude.{Result, ok, failed, ◌>>=◌, ◌>>◌, reject_if, ltb, ◌==◌}
use peertopeer.Prelude.Text.{Bytes, text, equal, is_empty}
use peertopeer.Prelude.Dict.{Dict}
use peertopeer.AtomicFile.{Dir}
use peertopeer.NodeConfig
use peertopeer.NodeConfig.{Json, load, listen_addr}
use peertopeer.Peer
use peertopeer.Peer.{Peer, InfoReply, inspect}
use peertopeer.ShardServer.{Options, identity_options}
use peertopeer.Tailnet.{Device, online_peers, local_ipv4}
use peertopeer.Dstore.Process
use peertopeer.Cli.{parse_peer_ports, mesh_listen_addr}
use peertopeer.Cli.Node.{configured_pipeline, server_options, visible, mark_members}

-- The commands, each with the arguments behind its name.
pub record Commands (R : Type 0) : Type 0 where
  pub init : List Bytes → R
  pub node : List Bytes → R
  pub add : List Bytes → R
  pub restore_tree : List Bytes → R
  pub peers : List Bytes → R
  pub agent : List Bytes → R
  pub process : List Bytes → R
  pub watch : List Bytes → R
  pub restore : List Bytes → R
  pub serve_shards : List Bytes → R
  pub usage : R
  pub unknown : Bytes → R

-- `run`.
unfoldable pub run : {R : Type 0} → Commands R → List Bytes → R
run c [] = c.usage
run c (name ∷ args) =
    if equal name (text "init")
    then c.init args
    else if equal name (text "node")
    then c.node args
    else if equal name (text "add")
    then c.add args
    else if equal name (text "restore-tree")
    then c.restore_tree args
    else if equal name (text "peers")
    then c.peers args
    else if equal name (text "agent")
    then c.agent args
    else if equal name (text "process")
    then c.process args
    else if equal name (text "watch")
    then c.watch args
    else if equal name (text "restore")
    then c.restore args
    else if equal name (text "serve-shards")
    then c.serve_shards args
    else c.unknown name

-- What a server is started with, and the pipeline that watches beside it, where there is one.
pub record Started : Type 0 where
  pub addr : Bytes
  pub options : Options
  pub config : Process.Config

module _ (json : Json) (working_dir : Result Bytes) (is_ipv4 : Bytes → Bool) (output : Result Bytes)
    (who_is : Bytes → Result Bytes) where
  -- `runNode`, up to `serveAndWatch`.
  unfoldable pub run_node : Bytes → Bool → Dir → Result Started
  run_node path extra_arguments files = do
    reject_if extra_arguments (failed "unexpected node arguments")
    c ← load json working_dir path files
    config ← configured_pipeline c
    ip ← local_ipv4 is_ipv4 output
    ok (record { addr = listen_addr c ip; options = server_options who_is c; config = config })

  -- `serve-shards`, up to the server.
  unfoldable pub serve_shards : Bytes → Result (Bytes × Options)
  serve_shards addr = do
    bound ← mesh_listen_addr is_ipv4 output addr
    ok (bound, identity_options (some who_is))

module _ (json : Json) (working_dir : Result Bytes) where
  -- `runAdd`, up to its loop: the pipeline and the library.
  unfoldable pub run_add : Bytes → Bytes → List Bytes → Dir → Result (Process.Config × Bytes)
  run_add path to sources files = do
    reject_if (is_nil sources) (failed "provide at least one file or directory after the flags")
    c ← load json working_dir path files
    config ← configured_pipeline c
    ok (config, if is_empty to then c.library_dir else to)

-- What `runPeers` shows.
pub data Shown : Type 0 where
  shown_peers : List Peer → Shown
  shown_statuses : List Peer.Status → Shown

pub record PeersFlags : Type 0 where
  pub config : Bytes
  pub check : Bool
  pub online_only : Bool
  pub port : Bytes
  pub peer_ports : Bytes
  pub extra_arguments : Bool

-- What `runPeers` works with: from the flags, or from the configuration.
pub record PeersPlan : Type 0 where
  pub node : Option NodeConfig.Config
  pub listed : List Peer
  pub check_all : Bool
  pub port : Bytes
  pub ports : Dict Bytes
  pub share_id : Bytes

-- The sort of the standard library, by a test of what comes first.
abbrev pub Sort : Type 0
Sort = (Peer → Peer → Bool) → List Peer → List Peer

-- `<` on strings.
unfoldable pub less : Bytes → Bytes → Bool
less [] [] = false
less [] (_ ∷ _) = true
less (_ ∷ _) [] = false
less (a ∷ s) (b ∷ t) = let rest = less s t in if a == b then rest else ltb a b

module _ (json : Json) (working_dir : Result Bytes) (is_ipv4 : Bytes → Bool)
    (devices : Result (List Device)) (sort : Sort) (reply : Peer → Bytes → InfoReply) where
  unfoldable pub peers_plan : PeersFlags → Dir → Result PeersPlan
  peers_plan f files =
      if is_empty f.config
      then ok (record {
        node = none;
        listed = [];
        check_all = f.check;
        port = f.port;
        ports = parse_peer_ports f.peer_ports;
        share_id = [];
      })
      else do
        c ← load json working_dir f.config files
        cfg ← configured_pipeline c
        ok (record {
          node = some c;
          listed = cfg.policy.peers;
          check_all = true;
          port = cfg.policy.listen_port;
          ports = cfg.policy.peer_ports;
          share_id = cfg.policy.share_id;
        })

  abbrev pub marked : Option NodeConfig.Config → List Peer.Status → List Peer.Status
  marked none statuses = statuses
  marked (some c) statuses = if c.allow_mesh then statuses else mark_members c.members statuses

  -- What `runPeers` shows of the peers that were found.
  unfoldable pub show_peers : Bool → PeersPlan → List Peer → Shown
  show_peers online_only plan peers =
      let seen = visible online_only (sort (λ p q. less p.host_name q.host_name) peers) in
      if not plan.check_all
      then shown_peers seen
      else shown_statuses (marked plan.node (inspect reply seen plan.port plan.ports plan.share_id))

  -- `runPeers`.
  unfoldable pub run_peers : PeersFlags → Dir → Result Shown
  run_peers f files = do
    reject_if f.extra_arguments (failed "unexpected peers arguments")
    plan ← peers_plan f files
    peers ← if is_nil plan.listed then online_peers is_ipv4 devices else ok plan.listed
    ok (show_peers f.online_only plan peers)

-- The order of `printPeers`.
abbrev pub before : Peer → Peer → Bool
before p q =
    if equal p.host_name q.host_name then less p.tail_ip q.tail_ip else less p.host_name q.host_name

abbrev pub peer_row : Peer → List Bytes
peer_row p = p.host_name ∷ p.tail_ip ∷ (if p.online then text "online" else text "offline") ∷ []

-- `printPeers`: the cells of each line.
unfoldable pub print_peers : Sort → List Peer → Bool → List (List Bytes)
print_peers sort peers online_only =
    (text "HOSTNAME" ∷ text "TAILSCALE_IP" ∷ text "STATUS" ∷ [])
    ∷ map peer_row (visible online_only (sort before peers))
