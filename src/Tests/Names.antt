-- ===== src/Tests/Names.antt =====
-- Runs on the texts that the command line and the mesh give: lists, paths and choices of devices.
use peertopeer.Prelude.{◌≡◌, ◌↔◌, refl, true, List, [], ◌∷◌, ok}
use peertopeer.Prelude.Text.{
  Bytes, text, is_space, contains_byte, trim_space, trim_left, equal, has_prefix,
}
use peertopeer.Prelude.Split.{split, cut, cut_last, join}
use peertopeer.FilePath.{path_within}
use peertopeer.FilePath.Within.{IsWithin, path_within_iff}
use peertopeer.HostPort.{split_host_port}
use peertopeer.Peer.{Peer}
use peertopeer.Tailnet.{Device}
use peertopeer.Cli.{
  parse_exclude_list, parse_peers, parse_specs, split_peer_spec, trim_brackets, drop_brackets,
}
use peertopeer.Cli.Lists.{IsName, parse_exclude_list-join}

path_within_iff_example :
    (path_within (text "/srv/share") (text "/srv/shared") ≡ true)
    ↔ IsWithin (text "/srv/share") (text "/srv/shared")
path_within_iff_example = path_within_iff (text "/srv/share") (text "/srv/shared")

bob : IsName (text "bob")
unfolding contains_byte is_space
bob = record { start = refl; end_ = refl; no_comma = refl }

eve : IsName (text "eve")
unfolding contains_byte is_space
eve = record { start = refl; end_ = refl; no_comma = refl }

exclude_list-run :
    parse_exclude_list (join b',' (text "bob" ∷ text "eve" ∷ [])) ≡ text "bob" ∷ text "eve" ∷ []
exclude_list-run = parse_exclude_list-join (text "bob" ∷ text "eve" ∷ []) (bob, (eve, tt))

abbrev peer : Bytes → Bytes → Bytes → Peer
peer name ip os = record { host_name = name; tail_ip = ip; online = true; os = os }

abbrev named : List Peer
named = peer (text "bob") (text "fd7a::1") [] ∷ peer (text "eve") (text "eve") [] ∷ []

parse_peers-run :
    parse_peers (text " bob=[fd7a::1]:9000,,eve") ≡ ok (named, (text "bob", text "9000") ∷ [])
unfolding parse_peers parse_specs split cut split_peer_spec trim_space trim_left split_host_port
    trim_brackets drop_brackets contains_byte equal has_prefix cut_last
parse_peers-run = refl

abbrev device : Bytes → Bytes → Device
device name ip = record {
  tailscale_ips = ip ∷ [];
  host_name = name;
  online = true;
  os = text "linux";
}
