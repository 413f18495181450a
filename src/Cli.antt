-- ===== src/Cli.antt =====
-- cmd/dstore: the parsers of the command line, and what the commands make of a configuration. The
-- flags that were parsed are arguments; printing and the HTTP server are not modelled.
pub mod Lists
pub mod Node
pub mod Commands
pub mod Serve
pub mod Run
use peertopeer.Prelude.{
  Bool, true, false, ◌&&◌, ◌||◌, not, List, [], ◌∷◌, ◌++◌, map, is_nil, if◌then◌else◌, ltb, length,
  drop,
}
use peertopeer.Prelude.{
  Result, Status, ok, err, failed, ◌>>=◌, ◌>>◌, reject_if, Option, none, some, ◌==◌,
}
use peertopeer.Prelude.Text.{
  Bytes, text, equal, is_empty, trim_space, has_prefix, trim_prefix, contains_byte,
}
use peertopeer.Prelude.Split.{split, cut}
use peertopeer.Prelude.Dict.{Dict, lookup}
use peertopeer.HostPort.{join_host_port, split_host_port}
use peertopeer.Peer.{Peer}
use peertopeer.Tailnet.{local_ipv4, local_base_url}
use peertopeer.Dstore.Process.{trim_right_slashes}
use mathlib.Core.List.{reverse}

-- The loop of `parseExcludeList`.
unfoldable pub keep_names : List Bytes → List Bytes
keep_names [] = []
keep_names (name ∷ names) =
    let rest = keep_names names in
    if is_empty (trim_space name) then rest else trim_space name ∷ rest

-- `parseExcludeList`.
unfoldable pub parse_exclude_list : Bytes → List Bytes
parse_exclude_list s =
    if is_empty (trim_space s) then [] else keep_names (split b',' (trim_space s))

-- `m[k] = v`: the entry that was written last is found first.
abbrev pub add_pair : Option (Bytes × Bytes) → Dict Bytes → Dict Bytes
add_pair none ports = ports
add_pair (some (host, port)) ports = (host, port) ∷ ports

-- The loop of `parsePeerPorts`, with the map so far.
unfoldable pub add_ports : List Bytes → Dict Bytes → Dict Bytes
add_ports [] ports = ports
add_ports (pair ∷ pairs) ports = add_ports pairs (add_pair (cut b':' (trim_space pair)) ports)

-- `parsePeerPorts`.
unfoldable pub parse_peer_ports : Bytes → Dict Bytes
parse_peer_ports s = if is_empty s then [] else add_ports (split b',' s) []

-- `mergePeerPorts`: the entries of `src` are written over those of `dst`.
unfoldable pub merge_peer_ports : Dict Bytes → Dict Bytes → Dict Bytes
merge_peer_ports dst src = src ++ dst

abbrev pub trimmed_parts : Bytes × Bytes → Bytes × Bytes
trimmed_parts (before, after) = (trim_space before, trim_space after)

-- `splitPeerSpec`.
unfoldable pub split_peer_spec : Bytes → Bytes × Bytes
split_peer_spec spec = elim (cut b'=' spec) [
  | some parts ↦ trimmed_parts parts
  | none ↦ elim (cut b'@' spec) [ some parts ↦ trimmed_parts parts | none ↦ (spec, spec) ]
]

-- `strings.Trim(host, "[]")`.
unfoldable pub drop_brackets : Bytes → Bytes
drop_brackets [] = []
drop_brackets (c ∷ s) =
    let rest = drop_brackets s in if (c == b'[') || (c == b']') then rest else c ∷ s

unfoldable pub trim_brackets : Bytes → Bytes
trim_brackets s = reverse (drop_brackets (reverse (drop_brackets s)))

abbrev pub host_of : Bytes → Option (Bytes × Bytes) → Bytes
host_of addr none = addr
host_of addr (some (host, port)) = host

abbrev pub with_port : Bytes → Option (Bytes × Bytes) → Dict Bytes → Dict Bytes
with_port name none ports = ports
with_port name (some (host, port)) ports = (name, port) ∷ ports

-- The loop of `parsePeers`, with the map of ports so far.
unfoldable pub parse_specs : List Bytes → Dict Bytes → Result (List Peer × Dict Bytes)
parse_specs [] ports = ok ([], ports)
parse_specs (spec ∷ specs) ports =
    let (name, addr) = split_peer_spec (trim_space spec) in
    let found = split_host_port addr in
    let host = trim_brackets (host_of addr found) in
    let skip = is_empty (trim_space spec) in
    let rest = parse_specs specs (if skip then ports else with_port name found ports) in
    if skip
    then rest
    else if is_empty name || is_empty host
    then err (failed "invalid peer")
    else (rest >>= λ (peers, ports').
        ok (record { host_name = name; tail_ip = host; online = true; os = [] } ∷ peers, ports'))

-- `parsePeers`.
unfoldable pub parse_peers : Bytes → Result (List Peer × Dict Bytes)
parse_peers s = if is_empty (trim_space s) then ok ([], []) else parse_specs (split b',' s) []

-- `listenPort`.
unfoldable pub listen_port : Bytes → Result Bytes
listen_port addr = elim (split_host_port addr) [
  | some (_, port) ↦ ok port
  | none ↦
      if has_prefix addr (text ":") && ltb 1 (length addr)
      then ok (trim_prefix addr (text ":"))
      else err (failed "listen address must include a port")
]

-- `displayAddr`.
unfoldable pub display_addr : Bytes → Bytes
display_addr addr = elim (split_host_port addr) [
  | none ↦ addr
  | some (host, port) ↦ join_host_port (if is_empty host then text "0.0.0.0" else host) port
]

module _ (is_ipv4 : Bytes → Bool) (output : Result Bytes) where
  -- `resolveBaseURL`, with the output of `tailscale ip -4`.
  unfoldable pub resolve_base_url : Bytes → Bytes → Result Bytes
  resolve_base_url base_url port =
      if not (is_empty (trim_space base_url))
      then ok (trim_right_slashes base_url)
      else local_base_url is_ipv4 output port

  -- `meshListenAddr`: an address of all interfaces becomes the one on the mesh.
  unfoldable pub mesh_listen_addr : Bytes → Result Bytes
  mesh_listen_addr addr = elim (split_host_port addr) [
    | none ↦ err (failed "listen address")
    | some (host, port) ↦
        if is_empty host || equal host (text "0.0.0.0") || equal host (text "::")
        then (local_ipv4 is_ipv4 output >>= λ ip. ok (join_host_port ip port))
        else ok (join_host_port host port)
  ]
