-- ===== src/NodeConfig.antt =====
-- internal/nodeconfig/config.go: the configuration of a device, its checks, and its file.
pub mod Valid
pub mod RoundTrip
use peertopeer.Prelude.{
  ℕ, zero, suc, ◌+◌, ◌-◌, ◌*◌, ◌^◌, Bool, true, false, ◌&&◌, ◌||◌, not, Option, none, some, leb,
  ltb, ◌==◌,
}
use peertopeer.Prelude.{
  List, [], ◌∷◌, ◌++◌, is_nil, if◌then◌else◌, Result, Status, ok, err, failed, ◌>>=◌, ◌>>◌,
  reject_if,
}
use peertopeer.Prelude.Text.{Bytes, text, equal, is_empty, trim_space, contains_any}
use peertopeer.Prelude.Int.{ℤ, pos, negsuc, ltb_ℤ, eq_ℤ}
use peertopeer.Prelude.Dict.{lookup}
use peertopeer.AtomicFile.{Dir, Faults, write_new}
use peertopeer.FilePath.{is_abs, clean, join_path, dir, contains}
use peertopeer.HostPort.{join_host_port}
use peertopeer.Protocol

pub record Config : Type 0 where
  pub version : ℤ
  pub name : Bytes
  pub share_id : Bytes
  pub role : Bytes
  pub members : List Bytes
  pub allow_mesh : Bool
  pub port : Bytes
  pub origin_dir : Bytes
  pub shard_dir : Bytes
  pub library_dir : Bytes
  pub quota_bytes : ℤ
  pub max_file_bytes : ℤ
  pub chunk_size : ℤ
  pub max_shard_bytes : ℤ
  pub peers : Bytes
  pub peer_ports : Bytes

-- `Default`.
unfoldable pub default : Bytes → Config
default name = record {
  version = pos 1;
  name = name;
  share_id = text "personal";
  role = text "storage";
  members = [];
  allow_mesh = false;
  port = text "8080";
  origin_dir = text "outfiles";
  shard_dir = text ".dstore-shards";
  library_dir = text "library";
  quota_bytes = pos (10 * 2 ^ 30);
  max_file_bytes = pos (64 * 2 ^ 20);
  chunk_size = pos (16 * 2 ^ 20);
  max_shard_bytes = Protocol.default_max_shard_bytes;
  peers = [];
  peer_ports = [];
}

-- The number that decimal digits write, behind the digits that were read.
unfoldable pub digits : ℕ → Bytes → Option ℕ
digits n [] = some n
digits n (c ∷ s) =
    let rest = digits (n * 10 + (c - b'0')) s in if leb b'0' c && leb c b'9' then rest else none

abbrev pub unsigned : Bytes → Option ℕ
unsigned [] = none
unsigned (c ∷ s) = digits 0 (c ∷ s)

abbrev pub to_int : Bool → Option ℕ → Option ℤ
to_int negative none = none
to_int true (some zero) = some (pos 0)
to_int true (some (suc n)) = if ltb n (2 ^ 63) then some (negsuc n) else none
to_int false (some n) = if ltb n (2 ^ 63) then some (pos n) else none

-- `strconv.Atoi`: an optional sign and digits, within 64 bits.
unfoldable pub atoi : Bytes → Option ℤ
atoi [] = none
atoi (c ∷ s) =
    if c == b'-'
    then to_int true (unsigned s)
    else if c == b'+'
    then to_int false (unsigned s)
    else to_int false (unsigned (c ∷ s))

abbrev pub in_port_range : Option ℤ → Bool
in_port_range none = false
in_port_range (some port) = not (ltb_ℤ port (pos 1) || ltb_ℤ (pos 65535) port)

abbrev pub is_blank : Bytes → Bool
is_blank s = is_empty (trim_space s)

-- `Validate` up to the port.
unfoldable pub check_identity : Config → Status
check_identity c = do
  reject_if (not (eq_ℤ c.version (pos 1))) (failed "unsupported configuration version")
  reject_if (is_blank c.name || is_blank c.share_id) (failed "name and share_id are required")
  reject_if (not (equal c.role (text "storage")) && not (equal c.role (text "client")))
      (failed "role must be storage or client")
  reject_if (not (in_port_range (atoi c.port))) (failed "port must be between 1 and 65535")

-- The limits.
unfoldable pub check_limits : Config → Status
check_limits c =
    reject_if
      (not (ltb_ℤ (pos 0) c.quota_bytes)
        || not (ltb_ℤ (pos 0) c.max_file_bytes)
        || not (ltb_ℤ (pos 0) c.max_shard_bytes)
        || ltb_ℤ (pos (2 ^ 40)) c.max_file_bytes
        || ltb_ℤ (pos (2 ^ 30)) c.max_shard_bytes
        || ltb_ℤ c.chunk_size (pos 0)
        || ltb_ℤ (pos (2 ^ 30)) c.chunk_size)
      (failed "quota must be positive")

abbrev pub bad_member : Bytes → Bool
bad_member member = is_blank member || contains_any member (13 ∷ 10 ∷ 9 ∷ [])

unfoldable pub check_members : List Bytes → Status
check_members [] = ok tt
check_members (member ∷ members) = do
  reject_if (bad_member member) (failed "invalid member identity")
  check_members members

-- A directory against those before it.
unfoldable pub check_apart : Bytes → List Bytes → Status
check_apart path [] = ok tt
check_apart path (other ∷ others) = do
  reject_if (contains path other || contains other path) (failed "directories must not overlap")
  check_apart path others

-- The loop over the directories; `earlier` are those before, in their order.
unfoldable pub check_dirs : List Bytes → List Bytes → Status
check_dirs earlier [] = ok tt
check_dirs earlier (path ∷ paths) = do
  reject_if (is_blank path) (failed "directories are required")
  check_apart path earlier
  check_dirs (earlier ++ path ∷ []) paths

-- `Validate`.
unfoldable pub validate : Config → Status
validate c = do
  check_identity c
  check_limits c
  reject_if (not c.allow_mesh && is_nil c.members) (failed "list at least one member")
  check_members c.members
  check_dirs [] (c.origin_dir ∷ c.shard_dir ∷ c.library_dir ∷ [])

-- encoding/json on this record: its indented text, and the decoder that refuses unknown fields.
pub data Decoded : Type 0 where
  undecodable : Decoded
  trailing : Config → Decoded
  single : Config → Decoded

pub record Json : Type 0 where
  pub marshal_indent : Config → Bytes
  pub decode : Bytes → Decoded

-- `filepath.Abs`, with the working directory or the error of looking it up.
unfoldable pub absolute : Result Bytes → Bytes → Result Bytes
absolute working_dir path =
    if is_abs path then ok (clean path) else working_dir >>= λ d. ok (join_path d path)

-- A relative directory is one beside the file.
unfoldable pub anchor : Bytes → Bytes → Bytes
anchor beside path =
    if not (is_empty path) && not (is_abs path) then join_path beside path else path

unfoldable pub anchored : Bytes → Config → Config
anchored beside c = record c {
  origin_dir = anchor beside c.origin_dir;
  shard_dir = anchor beside c.shard_dir;
  library_dir = anchor beside c.library_dir;
}

abbrev pub decoded : Decoded → Result Config
decoded undecodable = err (failed "decode config")
decoded (trailing c) = err (failed "config must contain one JSON object")
decoded (single c) = ok c

abbrev pub read_file : Option Bytes → Result Bytes
read_file none = err (failed "read config")
read_file (some s) = ok s

-- `Load`.
unfoldable pub load : Json → Result Bytes → Bytes → Dir → Result Config
load json working_dir path files = do
  stored ← read_file (lookup path files)
  c ← decoded (json.decode stored)
  full ← absolute working_dir path
  validate (anchored (dir full) c)
  ok (anchored (dir full) c)

-- `SaveNew`.
unfoldable pub save_new : Json → Faults → Bytes → Bytes → Config → Dir → Status × Dir
save_new json f tmp path c files = elim (validate c) [
  | err e ↦ (err e, files)
  | ok _ ↦ write_new f tmp path (json.marshal_indent c ++ 10 ∷ []) files
]

-- `ListenAddr`.
unfoldable pub listen_addr : Config → Bytes → Bytes
listen_addr c ip = join_host_port ip c.port
