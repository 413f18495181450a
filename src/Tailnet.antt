-- ===== src/Tailnet.antt =====
-- What internal/peer/peer.go and internal/tailnet/tailnet.go make of the output of the tailscale
-- command. The output, decoded, is an argument; so is the test for an IPv4 address, which
-- `net.ParseIP` and `To4` make, and the order that a random shuffle leaves.
pub mod Choice
use peertopeer.Prelude.{
  ℕ, Bool, true, false, ◌&&◌, ◌||◌, not, List, [], ◌∷◌, ◌++◌, length, take, ltb, if◌then◌else◌,
}
use peertopeer.Prelude.{Result, ok, err, failed, ◌>>=◌, ◌>>◌, reject_if, Option, none, some}
use peertopeer.Prelude.Text.{Bytes, text, equal, is_empty, to_lower, trim_space}
use peertopeer.Prelude.Split.{split, trim_suffix}
use peertopeer.HostPort.{join_host_port, split_host_port}
use peertopeer.Peer.{Peer}

-- `tailscalePeer`.
pub record Device : Type 0 where
  pub tailscale_ips : List Bytes
  pub host_name : Bytes
  pub online : Bool
  pub os : Bytes

-- `tailscaleWhoisNode`.
pub record WhoisNode : Type 0 where
  pub host_name : Bytes
  pub name : Bytes
  pub computed_name : Bytes

-- `excludeSet[strings.ToLower(name)]`.
unfoldable pub excluded : List Bytes → Bytes → Bool
excluded [] name = false
excluded (x ∷ exclude) name = equal (to_lower x) (to_lower name) || excluded exclude name

abbrev pub is_candidate : List Bytes → Peer → Bool
is_candidate exclude p = p.online && not (excluded exclude p.host_name)

unfoldable pub candidates : List Bytes → List Peer → List Peer
candidates exclude [] = []
candidates exclude (p ∷ peers) =
    let rest = candidates exclude peers in if is_candidate exclude p then p ∷ rest else rest

module _ (is_ipv4 : Bytes → Bool) where
  -- The body of the loop of `OnlinePeers`: only the first address counts.
  unfoldable pub peer_of : Device → Option Peer
  peer_of d = elim d.tailscale_ips [
    | [] ↦ none
    | ip ∷ ips ↦
        if not (is_ipv4 ip)
        then none
        else some (record { host_name = d.host_name; tail_ip = ip; online = d.online; os = d.os })
  ]

  abbrev pub add_peer : Option Peer → List Peer → List Peer
  add_peer none peers = peers
  add_peer (some p) peers = p ∷ peers

  unfoldable pub peers_of : List Device → List Peer
  peers_of [] = []
  peers_of (d ∷ devices) = add_peer (peer_of d) (peers_of devices)

  -- `OnlinePeers`: all devices with an IPv4 address, in the order of the range over the map.
  unfoldable pub online_peers : Result (List Device) → Result (List Peer)
  online_peers status = do devices ← status; ok (peers_of devices)

  -- `RandomOnlinePeers`.
  unfoldable pub random_online_peers :
      Result (List Device) → (List Peer → List Peer) → ℕ → List Bytes → Result (List Peer)
  random_online_peers status shuffle count exclude = do
    all ← online_peers status
    let online = candidates exclude all
    reject_if (ltb (length online) count) (failed "not enough online peers")
    ok (take count (shuffle online))

  -- The loop over the lines of `tailscale ip -4`.
  unfoldable pub first_ipv4 : List Bytes → Result Bytes
  first_ipv4 [] = err (failed "no tailscale IPv4 address found")
  first_ipv4 (line ∷ lines) =
      let rest = first_ipv4 lines in
      let ip = trim_space line in if is_empty ip || not (is_ipv4 ip) then rest else ok ip

  -- `LocalIPv4`.
  unfoldable pub local_ipv4 : Result Bytes → Result Bytes
  local_ipv4 output = do out ← output; first_ipv4 (split 10 out)

  -- `LocalBaseURL`.
  unfoldable pub local_base_url : Result Bytes → Bytes → Result Bytes
  local_base_url output port = do
    ip ← local_ipv4 output
    ok (text "http://" ++ join_host_port ip (if is_empty port then text "8080" else port))

-- The address that `WhoIs` asks about.
unfoldable pub whois_address : Bytes → Bytes
whois_address addr = elim (split_host_port addr) [ none ↦ addr | some (ip, _) ↦ ip ]

-- The name that `WhoIs` finds in an answer.
unfoldable pub whois_name : WhoisNode → Result Bytes
whois_name node =
    let computed = trim_space node.computed_name in
    let host = trim_space node.host_name in
    let full = trim_suffix (trim_space node.name) (text ".") in
    if not (is_empty computed)
    then ok computed
    else if not (is_empty host)
    then ok host
    else if not (is_empty full)
    then ok full
    else err (failed "no hostname in whois response")

-- `WhoIs`, with the command's answer for an address.
unfoldable pub whois : (Bytes → Result WhoisNode) → Bytes → Result Bytes
whois answer addr = do node ← answer (whois_address addr); whois_name node
