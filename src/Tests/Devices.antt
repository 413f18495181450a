-- ===== src/Tests/Devices.antt =====
-- A run of a file through the pipeline to a device that runs the shard server.
use peertopeer.Prelude.{
  ℕ, zero, suc, ◌-◌, ◌≡◌, ◌≢◌, refl, true, arith, some, [], ◌∷◌, ◌++◌, length, length-append,
}
use peertopeer.Prelude.{drop, Result, ok, inr, sym, ap, ◌∙◌, append_assoc}
use peertopeer.Prelude.Text.{
  Bytes, text, equal, has_prefix, has_suffix, trim_prefix, contains_any, contains_byte,
}
use peertopeer.Prelude.Dict.{lookup, erase}
use peertopeer.Prelude.Int.{add64}
use peertopeer.AtomicFile.{Dir, write_new, exists}
use peertopeer.AtomicFile.Keeping.{Keeps, Keeps-refl}
use peertopeer.Digest.{hash, hex_encode, hex_decode, valid_hash}
use peertopeer.LocalStore.{put, put_owned, get, usage}
use peertopeer.Erasure
use peertopeer.Erasure.{new_layout, validate, total_shards}
use peertopeer.CryptoFile.{encrypt_chunk}
use peertopeer.Manifest.{
  Manifest, marshal, new_chunked, check_chunks, validate_chunk, validate_shard_refs,
  validate_shard_ref,
}
use peertopeer.Manifest.Path.{base}
use peertopeer.Peer
use peertopeer.HostPort.{join_host_port}
use peertopeer.ShardServer.{
  Answer, Body, full, nothing, message, shard, info, identity_options, handle, admit, caller_of,
  route, handle_shard, handle_get, handle_put, store_body, read_body, shard_limit, shards_prefix,
}
use peertopeer.Dstore.Placement.{
  shard_peers, may_hold, domain, contains_name, seen_before, select, required_peers, assign,
  eligible_peers,
}
use peertopeer.Dstore.Transfer.{
  Net, HttpReply, reply, shard_url, read_limited, downloaded, download_shard, verify_remote,
  push_shard,
}
use peertopeer.Dstore.Process.{
  Run, push_port, make_ref, store_shard, store_ref, after_push, place_shard, place_shards,
}
use peertopeer.Dstore.Pipeline.{
  process_file, prepare, limited, run_prepared, after_chunks, process_chunks, process_chunk,
  seal_chunk, file_limit, piece_size, max_shard_bytes, conclude, replace_file,
}
use peertopeer.Dstore.Devices.{Site, request, serve_at, handled, IsMesh, IsReachable}
use peertopeer.ShardServer.{Response}
use peertopeer.Dstore.Devices.Push.{Grows-refl}
use peertopeer.Dstore.Restore.{restore_chunked}
use peertopeer.Dstore.RoundTrip.Fetched.{Unique}
use peertopeer.Dstore.RoundTrip.Remote.{restore_chunked-devices}
use peertopeer.Prelude.{subst, false}
use peertopeer.Dstore.Devices.Placing.{AllThere}
use peertopeer.Dstore.Devices.Durable.{process_file-Durable}
use peertopeer.Tests.Params.{sha, rs, aead, env, code, aead_law, content, sealed, name, unique_name}
use peertopeer.Tests.Whole.{config, inputs, files, json, mesh, stub, restore}

abbrev site : Site
site = record {
  options = identity_options (some (λ address. ok address));
  quota = 0;
  os = text "linux";
  arch = text "amd64";
  client = text "me";
}

abbrev body_of : Answer → Body
body_of nothing = full []
body_of (message m) = full m
body_of (shard s) = full s
body_of (info i) = full []

body_of-shard : (a : Answer) (s t : Bytes) → a ≡ shard s → body_of a ≡ full t → t ≡ s
body_of-shard a s t e f = let same : full s ≡ full t = sym (ap body_of e) ∙ f in ground arith

-- The hash that ends an URL.
abbrev last_64 : Bytes → Bytes
last_64 url = drop (length url - 64) url

drop-append : (s t : Bytes) → drop (length s) (s ++ t) ≡ t
drop-append [] t = refl
drop-append (c ∷ s) t = drop-append s t

last_64-url : (base h : Bytes) → valid_hash h ≡ true → last_64 (base ++ (shards_prefix ++ h)) ≡ h
unfolding valid_hash
last_64-url base h valid =
    let front = base ++ shards_prefix in
    let size : length h ≡ 64 = ground arith in
    let cut : length (front ++ h) - 64 ≡ length front =
      omega (arith, size, length-append front h) in
    ap last_64 (sym (append_assoc base shards_prefix h))
    ∙ ap (λ n. drop n (front ++ h)) cut
    ∙ drop-append front h

-- A network that leads to one device, whose store is its state.
abbrev device_net : Net Dir
device_net = record {
  exchange = λ w method url share body.
      let o = serve_at sha site env (request site method (last_64 url) share body) w in
      (reply o.0.status (body_of o.0.answer), o.1);
}

abbrev store : Dir → ℕ → Dir
store w zero = w
store w (suc n) = []

abbrev device_mesh : IsMesh sha device_net
device_mesh = record {
  device = λ base. 0;
  site = λ n. site;
  store = store;
  delivers = λ w base h method share body valid.
      rw (last_64-url base h valid)
        (handled env w (Keeps-refl w) (Keeps-refl _) (inr (_, refl, body_of-shard _)));
  others = λ w base h method share body n other. elsewhere n w _ other;
}
  where
    elsewhere : (n : ℕ) (w w' : Dir) → n ≢ 0 → Keeps (store w n) (store w' n)
    elsewhere zero w w' other = absurd (other refl)
    elsewhere (suc n) w w' other = Keeps-refl []

abbrev begin : Run Dir
begin = record { world = []; dir = []; puts = 0 }

abbrev sent : Result Manifest × Run Dir × Dir
sent =
    process_file sha config device_net aead rs inputs json mesh (text "note") (text "note.dstore")
      begin files

sent-run : (sent.0 ≡ ok stub) × (sent.1.dir ≡ (name, sealed) ∷ [])
unfolding process_file prepare has_suffix new_layout validate total_shards exists lookup erase equal
    file_limit piece_size max_shard_bytes shard_peers eligible_peers select may_hold contains_name
    seen_before domain join_host_port contains_byte Peer.port required_peers assign limited
    run_prepared process_chunks process_chunk seal_chunk encrypt_chunk Erasure.encode place_shards
    place_shard push_port push_shard shard_url verify_remote download_shard downloaded read_limited
    after_push store_ref make_ref store_shard put put_owned usage hash hex_encode hex_decode
    valid_hash write_new after_chunks conclude new_chunked check_chunks validate_chunk
    validate_shard_refs validate_shard_ref add64 base replace_file marshal has_prefix handle admit
    caller_of route handle_shard handle_get handle_put store_body read_body shard_limit trim_prefix
    contains_any get
sent-run = (refl, refl)

process_file-Durable_example : AllThere sha device_net device_mesh sent.1.world stub.chunks
process_file-Durable_example =
    process_file-Durable sha config device_net device_mesh aead rs inputs json (text "note")
      (text "note.dstore") mesh begin files stub sent-run.0

-- The device lets everyone in whom the mesh knows.
reachable : IsReachable sha device_net device_mesh (text "family")
unfolding admit caller_of
reachable = record {
  admits = λ n h. (text "me", refl);
  answers = λ w base h valid. (env, refl, λ s e. rw (last_64-url base h valid) (arrives _ s e));
}
  where
    arrives :
        (r : Response) (s : Bytes)
        → r ≡ record { status = 200; answer = shard s }
        → ◌≡◌ {A = HttpReply} (reply r.status (body_of r.answer)) (reply 200 (full s))
    arrives r s e = rw e refl

-- The local store of the restore is empty.
restore_chunked-devices_example :
    let o =
      restore_chunked sha device_net aead rs restore false [] stub (text "copy") sent.1.world [] in
    (o.0 ≡ ok (text "copy")) × (o.1 ≡ (text "copy", content) ∷ [])
unfolding lookup equal
restore_chunked-devices_example =
    restore_chunked-devices sha config device_net device_mesh aead rs inputs 1 1 content
      (omega arith, omega arith, omega arith) code aead_law refl refl refl json mesh (text "note")
      (text "note.dstore") begin files stub sent.1.world restore false [] (text "copy") []
      sent-run.0 (subst (Unique sha) (sym sent-run.1) unique_name)
      (Grows-refl sha device_net device_mesh sent.1.world) ((apart, (apart, tt)), tt) reachable
      (λ i. refl) refl refl refl refl
  where
    apart : text "box" ≢ text "local"
    apart e = cc
