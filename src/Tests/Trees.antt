-- ===== src/Tests/Trees.antt =====
-- Runs over directories: a scan, a watch, and a tree that is added and restored.
use peertopeer.Prelude.{◌≡◌, refl, true, false, [], ◌∷◌, none, ok}
use peertopeer.Prelude.Text.{Bytes}
use peertopeer.Prelude.Text.{text, equal, has_prefix, has_suffix, contains_byte}
use peertopeer.Prelude.Dict.{erase}
use peertopeer.Prelude.Int.{add64}
use peertopeer.AtomicFile.{write_new, exists}
use peertopeer.Digest.{hash, hex_encode, hex_decode, valid_hash}
use peertopeer.LocalStore.{put, usage}
use peertopeer.Erasure
use peertopeer.Erasure.{new_layout, validate, total_shards}
use peertopeer.CryptoFile.{encrypt_chunk}
use peertopeer.Manifest.{
  marshal, new_chunked, check_chunks, validate_chunk, validate_shard_refs, validate_shard_ref,
}
use peertopeer.Manifest.Path.{base}
use peertopeer.Peer
use peertopeer.Peer.{Peer, InfoReply}
use peertopeer.HostPort.{join_host_port}
use peertopeer.Dstore.Placement.{
  shard_peers, may_hold, domain, contains_name, seen_before, select, required_peers, assign,
  eligible_peers,
}
use peertopeer.Dstore.Transfer.{
  shard_url, read_limited, downloaded, download_shard, verify_remote, push_shard,
}
use peertopeer.Dstore.Process.{
  push_port, make_ref, store_shard, store_ref, after_push, place_shard, place_shards,
}
use peertopeer.Dstore.Pipeline.{
  process_file, prepare, limited, run_prepared, after_chunks, process_chunks, process_chunk,
  seal_chunk, file_limit, piece_size, max_shard_bytes, conclude, replace_file,
}
use peertopeer.Prelude.Dict.{lookup}
use peertopeer.AtomicFile.{Dir}
use peertopeer.Prelude.{map}
use peertopeer.Prelude.Split.{split, join}
use peertopeer.Manifest.{Manifest}
use peertopeer.FilePath.{
  join_path, clean, elements, push_elements, push_element, is_abs, path_within, rel, rel_rest,
  strip, stays_below,
}
use peertopeer.Prelude.{Option, some, none, ◌++◌, Error}
use peertopeer.Prelude.Split.{trim_suffix}
use peertopeer.Dstore.Transfer.{fetch_shard, fetch_local}
use peertopeer.Erasure
use peertopeer.CryptoFile.{decrypt}
use peertopeer.Tests.Params.{name, sealed}
use peertopeer.Tests.Whole.{dead}
use peertopeer.Manifest.{unmarshal, check, with_defaults, check_chunked}
use peertopeer.Manifest.Path.{valid_file_name}
use peertopeer.LocalStore.{get}
use peertopeer.Dstore.Restore.{
  restore_file, restore_manifest, restore_chunked, restore_chunks, fetch_all, fetch_one,
  shard_bound, open_chunk, output_for,
}
use peertopeer.Dstore.Paths.{restore_entry, Restored}
use peertopeer.Dstore.Walk.{walk, walk_entries, walk_dir}
use peertopeer.Dstore.Directory.{visit, visit_file, when_ready, process_path, same_file, Report}
use peertopeer.Dstore.Paths
use peertopeer.Dstore.Paths.{
  add_resolved, add_tree, add_file, added, add_entry, visit_entry, ProcessResult,
}
use peertopeer.Dstore.Walk.{FileInfo, Tree, file, folder, end, entry}
use peertopeer.Dstore.Directory.{Around, Round, process_directory, watch}
use peertopeer.Dstore.Directory.Laws.{Safe, process_directory-Safe}
use peertopeer.Dstore.Directory.Steady.{Steady}
use peertopeer.Dstore.Paths.{Surroundings, add_path, restore_directory}
use peertopeer.Dstore.Paths.Laws.{Kept, add_path-Kept, restore_directory-keeps}
use peertopeer.Tests.Params.{sha, rs, aead, content}
use peertopeer.Tests.Whole.{config, net, mesh, inputs, json, start, restore}

abbrev info : FileInfo
info = record { regular = true; id = 7; size = 2; mod_time = 1000 }

-- The file `note` in the directory `in`.
abbrev tree : Tree
tree = folder (entry (text "note") (file info) end)

abbrev around : Around
around = record {
  cancelled = λ path v. false;
  info_fails = λ path. false;
  lstat_fails = λ path. false;
  inputs = λ path. inputs;
  mesh = λ path. mesh;
}

abbrev source : Bytes
source = text "/in"

abbrev note : Bytes
note = text "/in/note"

abbrev beside : Dir
beside = (note, content) ∷ []

process_directory-Safe_example :
    let s =
      process_directory sha config net aead rs json around source none
        (text "in")
        (ok tree)
        start
        beside in
    Safe sha config net aead rs json around source note content s.files s.results
unfolding lookup equal
process_directory-Safe_example =
    process_directory-Safe sha config net aead rs json around source none (text "in") (ok tree)
      start beside note content refl

abbrev round : Round
round = record {
  ended_before = false;
  ended_after = false;
  change = λ files. files;
  tree = ok tree;
  around = around;
}

abbrev surroundings : Surroundings
surroundings = record { cancelled = λ path v. false; mkdir_fails = λ path. false }

add_path-Kept_example :
    Kept sha config net aead rs json
      (λ path. inputs)
      (λ path. mesh)
      surroundings
      beside
      (add_path sha config net aead rs json
        (λ path. inputs)
        (λ path. mesh)
        surroundings
        (ok source)
        (ok (text "/library"))
        (ok tree)
        start
        beside).1
add_path-Kept_example =
    add_path-Kept sha config net aead rs json (λ path. inputs) (λ path. mesh) surroundings
      (ok source) (ok (text "/library")) (ok tree) start beside

-- The files with a stub in the library, whose shard is in the local store.
abbrev with_stub : Dir
with_stub = (text "/library/note.dstore", text "{}" ++ (10 ∷ [])) ∷ beside

abbrev stubs : Tree
stubs = folder (entry (text "note.dstore") (file info) end)

abbrev restored_tree : Option Error × Restored
restored_tree =
    restore_directory sha dead aead rs json (λ path. restore) (λ path. tt) true
      ((name, sealed) ∷ []) surroundings (text "/library") (text "/out") (ok stubs) with_stub

restore_directory-keeps_example : lookup note restored_tree.1.files ≡ some content
unfolding lookup equal
restore_directory-keeps_example =
    restore_directory-keeps sha dead aead rs json (λ path. restore) (λ path. tt) true
      ((name, sealed) ∷ []) surroundings (text "/library") (text "/out") (ok stubs) with_stub note
      content refl

restore_directory-run : restored_tree ≡ (
  none,
  record { files = (text "/out/note", content) ∷ with_stub; restored = text "/out/note" ∷ [] },
)
unfolding restore_directory restore_entry restore_file restore_manifest restore_chunked
    restore_chunks fetch_all fetch_one fetch_shard shard_bound open_chunk output_for trim_suffix
    watch process_directory walk walk_entries walk_dir visit visit_file when_ready process_path
    same_file join_path clean elements push_elements push_element is_abs split join process_file
    prepare has_suffix new_layout validate total_shards exists lookup erase equal file_limit
    piece_size max_shard_bytes shard_peers eligible_peers select may_hold contains_name seen_before
    domain join_host_port contains_byte Peer.port required_peers assign limited run_prepared
    process_chunks process_chunk seal_chunk encrypt_chunk Erasure.encode place_shards place_shard
    push_port push_shard shard_url verify_remote download_shard downloaded read_limited after_push
    store_ref make_ref store_shard put usage hash hex_encode hex_decode valid_hash write_new
    after_chunks conclude new_chunked check_chunks validate_chunk validate_shard_refs
    validate_shard_ref add64 base replace_file marshal has_prefix path_within rel rel_rest strip
    stays_below Paths.visit visit_entry unmarshal check with_defaults valid_file_name check_chunked
    Erasure.decode fetch_local get decrypt
restore_directory-run = refl

watch-run :
    map
      (λ (r : Report). map (λ (q : Bytes × Manifest). q.0) r.processed)
      (watch sha config net aead rs json
        (λ e. false)
        source
        (text "in")
        []
        (round ∷ round ∷ [])
        start
        beside).0
    ≡ [] ∷ (note ∷ []) ∷ []
unfolding watch process_directory walk walk_entries walk_dir visit visit_file when_ready
    process_path same_file join_path clean elements push_elements push_element is_abs split join
    process_file prepare has_suffix new_layout validate total_shards exists lookup erase equal
    file_limit piece_size max_shard_bytes shard_peers eligible_peers select may_hold contains_name
    seen_before domain join_host_port contains_byte Peer.port required_peers assign limited
    run_prepared process_chunks process_chunk seal_chunk encrypt_chunk Erasure.encode place_shards
    place_shard push_port push_shard shard_url verify_remote download_shard downloaded read_limited
    after_push store_ref make_ref store_shard put usage hash hex_encode hex_decode valid_hash
    write_new after_chunks conclude new_chunked check_chunks validate_chunk validate_shard_refs
    validate_shard_ref add64 base replace_file marshal has_prefix
watch-run = refl

add_path-run :
    map
      (λ (r : ProcessResult). r.stub_path)
      (add_path sha config net aead rs json
        (λ path. inputs)
        (λ path. mesh)
        surroundings
        (ok source)
        (ok (text "/library"))
        (ok tree)
        start
        beside).1.results
    ≡ text "/library/in/note.dstore" ∷ []
unfolding add_path add_resolved add_tree add_file added add_entry Paths.visit visit_entry
    path_within rel rel_rest strip stays_below walk walk_entries walk_dir join_path clean elements
    push_elements push_element is_abs split join process_file prepare has_suffix new_layout validate
    total_shards exists lookup erase equal file_limit piece_size max_shard_bytes shard_peers
    eligible_peers select may_hold contains_name seen_before domain join_host_port contains_byte
    Peer.port required_peers assign limited run_prepared process_chunks process_chunk seal_chunk
    encrypt_chunk Erasure.encode place_shards place_shard push_port push_shard shard_url
    verify_remote download_shard downloaded read_limited after_push store_ref make_ref store_shard
    put usage hash hex_encode hex_decode valid_hash write_new after_chunks conclude new_chunked
    check_chunks validate_chunk validate_shard_refs validate_shard_ref add64 base replace_file
    marshal has_prefix
add_path-run = refl
