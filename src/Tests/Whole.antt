-- ===== src/Tests/Whole.antt =====
-- A run of a file through the pipeline and back.
use peertopeer.Prelude.{◌*◌, ◌^◌, ◌≡◌, refl, true, false, arith, if◌then◌else◌, ap, sym, subst}
use peertopeer.Prelude.{◌↔◌, ◌≢◌, some, [], ◌∷◌, ◌++◌, Result, ok}
use peertopeer.Prelude.Text.{text, equal, is_empty, has_prefix, has_suffix, contains_byte}
use peertopeer.Prelude.Dict.{lookup, erase}
use peertopeer.Prelude.Int.{pos, add64}
use peertopeer.AtomicFile.{Dir, no_faults, write_new, exists}
use peertopeer.AtomicFile.Publish.{Left}
use peertopeer.Digest.{hash, hex_encode, hex_decode, valid_hash}
use peertopeer.LocalStore.{put, usage}
use peertopeer.Erasure
use peertopeer.Erasure.{new_layout, validate, total_shards}
use peertopeer.CryptoFile.{encrypt_chunk}
use peertopeer.Manifest.{
  Manifest, ShardRef, Json, marshal, new_chunked, check_chunks, validate_chunk, validate_shard_refs,
  validate_shard_ref,
}
use peertopeer.Manifest.Path.{base, valid_file_name}
use peertopeer.Peer
use peertopeer.Peer.{Peer, InfoReply}
use peertopeer.HostPort.{join_host_port}
use peertopeer.ShardServer.{full}
use peertopeer.Dstore.Placement.{
  Mesh, shard_peers, may_hold, domain, contains_name, seen_before, select, required_peers, assign,
  eligible_peers, Policy,
}
use peertopeer.Dstore.Transfer.{
  Net, HttpReply, reply, shard_url, read_limited, downloaded, download_shard, verify_remote,
  push_shard, fetch_shard, fetch_local,
}
use peertopeer.Dstore.Process.{
  Config, Inputs, Run, push_port, make_ref, store_shard, store_ref, after_push, place_shard,
  place_shards,
}
use peertopeer.Dstore.Pipeline.{
  process_file, prepare, limited, run_prepared, after_chunks, process_chunks, process_chunk,
  seal_chunk, file_limit, piece_size, max_shard_bytes, conclude, replace_file,
}
use peertopeer.Dstore.Restore.{RestoreInputs, restore_chunked, fetch_all, fetch_one, shard_bound}
use peertopeer.Dstore.RoundTrip.Fetched.{Unique}
use peertopeer.Protocol
use peertopeer.Protocol.{Info}
use peertopeer.Dstore.Fuel.{process_chunks_fuel}
use peertopeer.Erasure.Layouts.{layout}
use peertopeer.Erasure.Recovery.{present}
use peertopeer.Dstore.RoundTrip.Output.{restore_chunked-process_file}
use peertopeer.Dstore.RoundTrip.Missing.{Enough}
use peertopeer.Dstore.RoundTrip.Exact.{restore_chunked_iff, restore_chunked_too_few}
use peertopeer.Dstore.RoundTrip.Stub.{restore_file-process_file}
use peertopeer.Dstore.Restore.{restore_file, output_for}
use peertopeer.Tests.Params.{
  repeat, content, sealed, sha, name, rs, code, aead, aead_law, env, unique_name, strict,
}

abbrev pub box : Peer
box = record {
  host_name = text "box";
  tail_ip = text "100.1.2.3";
  online = true;
  os = text "linux";
}

abbrev pub config : Config
config = record {
  policy = record {
    peers = box ∷ [];
    exclude_peers = [];
    members = [];
    min_peers = 0;
    require_capabilities = false;
    listen_port = [];
    peer_ports = [];
    share_id = text "family";
  };
  shard_dir = text "shards";
  base_url = [];
  data_shards = pos 1;
  parity_shards = pos 1;
  keep_original = false;
  max_file_bytes = pos 0;
  chunk_size = pos 0;
  quota_bytes = 0;
}

-- A network that accepts each upload, and gives back the one shard there is.
abbrev pub net : Net Unit
net = record {
  exchange = λ w method url share body.
      (if is_empty body then reply 200 (full sealed) else reply 201 (full []), w);
}

-- A network that answers nothing.
abbrev pub dead : Net Unit
dead = record { exchange = λ w method url share body. (HttpReply.no_reply, w) }

abbrev pub mesh : Mesh
mesh = record {
  discover = ok [];
  reply = λ p port. InfoReply.unreachable;
  shuffle = λ peers. peers;
}

abbrev pub inputs : Inputs
inputs = record {
  source = full content;
  open_fails = false;
  same_at_open = true;
  same_at_end = true;
  cancelled_at_start = false;
  cancelled_at = λ i. false;
  cancelled_at_end = false;
  key = ok (repeat 32 5);
  nonce_at = λ i. ok (repeat 12 3);
  file_id = ok (text "id");
  env_at = λ i. env;
  stub_faults = no_faults;
  stub_tmp = text ".stub-1";
  remove_fails = false;
}

abbrev pub files : Dir
files = (text "note", content) ∷ []

abbrev pub start : Run Unit
start = record { world = tt; dir = []; puts = 0 }

abbrev ref : ShardRef
ref = record { hash = name; peer = text "box"; url = text "http://100.1.2.3:8080/shards/" ++ name }

abbrev pub stub : Manifest
stub = record {
  version = pos 2;
  data_shards = pos 1;
  parity_shards = pos 1;
  share_id = text "family";
  file_id = text "id";
  file_name = text "note";
  ciphertext_size = pos 18;
  plaintext_size = pos 2;
  chunk_size = pos (16 * 2 ^ 20);
  key = repeat 32 5;
  nonce = [];
  shards = [];
  chunks =
      record {
        plaintext_size = pos 2;
        ciphertext_size = pos 18;
        nonce = repeat 12 3;
        shards = ref ∷ ref ∷ [];
      }
      ∷ [];
}

-- A codec that reads this one manifest.
abbrev pub json : Json
json = record { marshal_indent = λ m. text "{}"; unmarshal = λ s. some stub }

abbrev pub processed : Result Manifest × Run Unit × Dir
processed =
    process_file sha config net aead rs inputs json mesh (text "note") (text "note.dstore") start
      files

-- The stub takes the place of the original; both shards are one file of the store.
pub processed-run : processed ≡ (
  ok stub,
  record { world = tt; dir = (name, sealed) ∷ []; puts = 2 },
  (text "note.dstore", text "{}" ++ (10 ∷ [])) ∷ [],
)
unfolding process_file prepare has_suffix new_layout validate total_shards exists lookup erase equal
    file_limit piece_size max_shard_bytes shard_peers eligible_peers select may_hold contains_name
    seen_before domain join_host_port contains_byte Peer.port required_peers assign limited
    run_prepared process_chunks process_chunk seal_chunk encrypt_chunk Erasure.encode place_shards
    place_shard push_port push_shard shard_url verify_remote download_shard downloaded read_limited
    after_push store_ref make_ref store_shard put usage hash hex_encode hex_decode valid_hash
    write_new after_chunks conclude new_chunked check_chunks validate_chunk validate_shard_refs
    validate_shard_ref add64 base replace_file marshal has_prefix
processed-run = refl

pub processed-Unique : Unique sha processed.1.dir
processed-Unique =
    subst (Unique sha) (ap (λ (o : Result Manifest × Run Unit × Dir). o.1.dir) (sym processed-run))
      unique_name

abbrev pub restore : RestoreInputs
restore = record {
  cancelled_at = λ i. false;
  read_fails = false;
  faults = no_faults;
  tmp = text ".out-1";
}

restore_chunked-process_file-run :
    let o =
      restore_chunked sha dead aead rs restore true processed.1.dir stub (text "copy") tt [] in
    (o.0 ≡ ok (text "copy")) × (o.1 ≡ (text "copy", content) ∷ [])
unfolding lookup equal
restore_chunked-process_file-run =
    restore_chunked-process_file sha config net aead rs inputs 1 1 content
      (omega arith, omega arith, omega arith) code aead_law refl refl refl json mesh (text "note")
      (text "note.dstore") start files stub dead tt restore (text "copy") []
      (ap (λ (o : Result Manifest × Run Unit × Dir). o.0) processed-run) processed-Unique refl
      (λ i. refl) refl refl refl refl

restore_chunked_iff_example :
    let o =
      restore_chunked sha dead aead rs restore true processed.1.dir stub (text "copy") tt [] in
    Enough sha dead aead rs restore true processed.1.dir stub.share_id 1 1 stub.chunks tt
    ↔ ((o.0 ≡ ok (text "copy")) × (o.1 ≡ (text "copy", content) ∷ []))
unfolding lookup equal
restore_chunked_iff_example =
    restore_chunked_iff sha config net aead rs inputs 1 1 content
      (omega arith, omega arith, omega arith) code strict aead_law refl refl refl dead tt restore
      true processed.1.dir (text "copy") [] (λ i. refl) json mesh (text "note") (text "note.dstore")
      start files stub (ap (λ (o : Result Manifest × Run Unit × Dir). o.0) processed-run)
      processed-Unique refl refl refl refl

-- No device answers, and there is no local store.
none_present :
    present (fetch_all sha dead aead rs restore false [] (text "family") 18 (ref ∷ ref ∷ []) tt).0
    ≡ 0
unfolding fetch_all fetch_one fetch_shard download_shard downloaded fetch_local hash hex_encode
none_present = refl

nothing_found : ¬ Enough sha dead aead rs restore false [] stub.share_id 1 1 stub.chunks tt
unfolding shard_bound
nothing_found h = omega (arith, h.0, none_present)

restore_chunked_too_few_example :
    let o = restore_chunked sha dead aead rs restore false [] stub (text "copy") tt [] in
    (o.0 ≢ ok (text "copy")) × Left restore.faults restore.tmp [] o.1
unfolding lookup equal
restore_chunked_too_few_example =
    restore_chunked_too_few sha config net aead rs inputs 1 1 content
      (omega arith, omega arith, omega arith) code strict aead_law refl refl refl dead tt restore
      false [] (text "copy") [] (λ i. refl) json mesh (text "note") (text "note.dstore") start files
      stub (ap (λ (o : Result Manifest × Run Unit × Dir). o.0) processed-run) processed-Unique
      nothing_found

restore_file-process_file_example :
    let files' = processed.2 in
    let o =
      restore_file sha dead aead rs restore true processed.1.dir json
        (text "note.dstore")
        (text "copy")
        tt
        files' in
    (o.0 ≡ ok (text "copy")) × (o.1 ≡ (text "copy", content) ∷ files')
unfolding lookup equal output_for valid_file_name
restore_file-process_file_example =
    restore_file-process_file sha config net aead rs inputs 1 1 content
      (omega arith, omega arith, omega arith) code aead_law refl refl refl json mesh (text "note")
      (text "note.dstore") start files stub dead tt restore (text "copy")
      (ap (λ (o : Result Manifest × Run Unit × Dir). o.0) processed-run) refl refl refl
      processed-Unique refl (λ i. refl) refl
      (ap (λ (o : Result Manifest × Run Unit × Dir). lookup (text ".out-1") o.2) processed-run)
      (ap (λ (o : Result Manifest × Run Unit × Dir). lookup (text "copy") o.2) processed-run) refl

process_chunks_fuel_example :
    process_chunks sha config net aead rs inputs
      (layout 1 1)
      (repeat 32 5)
      (box ∷ box ∷ [])
      100
      1
      false
      3
      0
      content
      0
      start
    ≡ process_chunks sha config net aead rs inputs
        (layout 1 1)
        (repeat 32 5)
        (box ∷ box ∷ [])
        100
        1
        false
        9
        0
        content
        0
        start
process_chunks_fuel_example =
    process_chunks_fuel sha config net aead rs inputs (layout 1 1) (repeat 32 5) (box ∷ box ∷ [])
      100 1 false 3 9 0 content 0 start (omega arith) (omega arith) (omega arith)

-- The agent of the device answers that it has room.
abbrev roomy : Info
roomy = record {
  service = text "dstore";
  protocol_version = Protocol.version;
  name = text "box";
  os = text "linux";
  arch = text "amd64";
  share_id = text "family";
  storage = true;
  used_bytes = pos 0;
  quota_bytes = pos 100;
  max_shard_bytes = pos 50;
}

abbrev asked : Policy
asked = record config.policy {
  require_capabilities = true;
  exclude_peers = text "old" ∷ [];
  members = text "box" ∷ [];
}

abbrev answering : Mesh
answering = record mesh { reply = λ p port. InfoReply.answered roomy }
