-- ===== src/Cli/Commands.antt =====
-- The commands of cmd/dstore that work on files: `restore`, `process`, `watch` and `agent` of `run` in
-- main.go, and `runAdd` and `runRestoreTree` in node.go. The flags that were parsed are arguments.
use peertopeer.Prelude.{
  Bool, true, false, ◌||◌, not, List, [], ◌∷◌, ◌++◌, if◌then◌else◌, is_nil, Option, none, some,
}
use peertopeer.Prelude.{Error, Result, ok, err, failed, ◌>>=◌, ◌>>◌, reject_if, ◌≡◌}
use peertopeer.Prelude.Text.{Bytes, is_empty}
use peertopeer.Prelude.Dict.{Dict, lookup}
use peertopeer.Prelude.Int.{ℤ}
use peertopeer.AtomicFile.{Dir}
use peertopeer.Digest.{Sha256}
use peertopeer.Erasure.{ReedSolomon, new_layout}
use peertopeer.CryptoFile.{Aead}
use peertopeer.FilePath.{join_path}
use peertopeer.Manifest.{Manifest, Json, unmarshal}
use peertopeer.Peer.{Peer}
use peertopeer.Dstore.Placement.{Mesh}
use peertopeer.Dstore.Transfer.{Net}
use peertopeer.Dstore.Process
use peertopeer.Dstore.Process.{Inputs, Run}
use peertopeer.Dstore.Restore.{RestoreInputs, read_stub, restore_file}
use peertopeer.Dstore.Kept.{restore_file-keeps}
use peertopeer.Dstore.Directory.{Around, Round, Report, process_directory, watch}
use peertopeer.Dstore.Walk.{Tree}
use peertopeer.Dstore.Paths.{
  Surroundings, ProcessResult, Added, add_path, Restored, restore_directory,
}
use peertopeer.Dstore.Paths.Laws.{add_path-Kept}
use peertopeer.Cli.{
  parse_peers, parse_peer_ports, merge_peer_ports, parse_exclude_list, resolve_base_url,
  listen_port, mesh_listen_addr,
}

-- The flags of `process` and `watch`, and those that `agent` has beside them.
pub record Flags : Type 0 where
  pub shards : Bytes
  pub base_url : Bytes
  pub port : Bytes
  pub peers : Bytes
  pub share_id : Bytes
  pub data_shards : ℤ
  pub parity_shards : ℤ
  pub max_file_bytes : ℤ
  pub chunk_size : ℤ

pub record AgentFlags : Type 0 where
  pub flags : Flags
  pub addr : Bytes
  pub peer_ports : Bytes
  pub exclude_peers : Bytes

abbrev pub pipeline :
    Flags → Bytes → Bytes → List Peer → Dict Bytes → List Bytes → ℤ → ℤ → Process.Config
pipeline f base_url port peers ports exclude data_shards parity_shards = record {
  policy = record {
    peers = peers;
    exclude_peers = exclude;
    members = [];
    min_peers = 0;
    require_capabilities = false;
    listen_port = port;
    peer_ports = ports;
    share_id = f.share_id;
  };
  shard_dir = f.shards;
  base_url = base_url;
  data_shards = data_shards;
  parity_shards = parity_shards;
  keep_original = false;
  max_file_bytes = f.max_file_bytes;
  chunk_size = f.chunk_size;
  quota_bytes = 0;
}

module _ (is_ipv4 : Bytes → Bool) (output : Result Bytes) where
  -- The configuration of `process` and of `watch`.
  unfoldable pub flag_pipeline : Flags → Result Process.Config
  flag_pipeline f = do
    layout ← new_layout f.data_shards f.parity_shards
    base_url ← resolve_base_url is_ipv4 output f.base_url f.port
    (peers, ports) ← parse_peers f.peers
    ok (pipeline f base_url f.port peers ports [] layout.data_shards layout.parity_shards)

  -- The configuration of `agent`, and the address that it listens on.
  unfoldable pub agent_pipeline : AgentFlags → Result (Bytes × Process.Config)
  agent_pipeline g = do
    let f = g.flags
    layout ← new_layout f.data_shards f.parity_shards
    port ← listen_port g.addr
    addr ← mesh_listen_addr is_ipv4 output g.addr
    base_url ← resolve_base_url is_ipv4 output f.base_url port
    (peers, ports) ← parse_peers f.peers
    ok (
      addr,
      pipeline f base_url port peers (merge_peer_ports (parse_peer_ports g.peer_ports) ports)
          (parse_exclude_list g.exclude_peers) layout.data_shards layout.parity_shards,
    )

module _ (is_ipv4 : Bytes → Bool) (output : Result Bytes) (sha : Sha256) {W : Type 0} (net : Net W)
    (a : Aead) (rs : ReedSolomon) (json : Json) (origin name : Bytes) where
  -- The command `process`: its errors, and what it has printed; it prints nothing where there are
  -- errors.
  unfoldable pub process_command :
      Around
      → Flags
      → Result Tree
      → Run W
      → Dir
      → List Error × List (Bytes × Manifest) × Run W × Dir
  process_command x f tree run files = elim (flag_pipeline is_ipv4 output f) [
    | err e ↦ (e ∷ [], [], run, files)
    | ok c ↦
        let s = process_directory sha c net a rs json x origin none name tree run files in
        (s.failures, if is_nil s.failures then s.results else [], s.run, s.files)
  ]

  -- The command `watch`, for the rounds that its context lives.
  unfoldable pub watch_command :
      (Error → Bool) → Flags → List Round → Run W → Dir → Result (List Report) × Run W × Dir
  watch_command is_not_exist f rounds run files = elim (flag_pipeline is_ipv4 output f) [
    | err e ↦ (err e, run, files)
    | ok c ↦
        let (reports, run', files') =
          watch sha c net a rs json is_not_exist origin name [] rounds run files in
        (ok reports, run', files')
  ]

module _ (sha : Sha256) {W : Type 0} (net : Net W) (a : Aead) (rs : ReedSolomon) (x : RestoreInputs)
    (json : Json) (d : Dir) where
  -- The output path: with a directory for the output, the manifest's name in it.
  unfoldable pub restore_output : Bool → Bytes → Bytes → Bytes → Dir → Result Bytes
  restore_output mkdir_fails stub output output_dir files =
      if is_empty output_dir || not (is_empty output) then ok output else do
        reject_if mkdir_fails (failed "create output dir")
        m ← read_stub (lookup stub files) >>= unmarshal json
        ok (join_path output_dir m.file_name)

  -- The command `restore`.
  unfoldable pub restore_command :
      Bool → Bytes → Bytes → Bytes → Bytes → W → Dir → Result Bytes × Dir
  restore_command mkdir_fails stub shards output output_dir w files =
      if is_empty stub
      then (err (failed "-stub is required"), files)
      else elim (restore_output mkdir_fails stub output output_dir files) [
        | err e ↦ (err e, files)
        | ok path ↦ restore_file sha net a rs x (not (is_empty shards)) d json stub path w files
      ]

  -- The command keeps every file that is there.
  restore_command-keeps :
      (mkdir_fails : Bool) (stub shards output output_dir : Bytes) (w : W) (files : Dir)
      (k v : Bytes)
      → lookup k files ≡ some v
      → lookup k (restore_command mkdir_fails stub shards output output_dir w files).1 ≡ some v
  unfolding restore_command
  restore_command-keeps mkdir_fails stub shards output output_dir w files k v h =
      go (is_empty stub) (restore_output mkdir_fails stub output output_dir files)
    where
      go :
          (b : Bool) (r : Result Bytes)
          → let o : Result Bytes × Dir =
              if b then (err (failed "-stub is required"), files) else elim r [
                | err e ↦ (err e, files)
                | ok path ↦
                    restore_file sha net a rs x (not (is_empty shards)) d json stub path w files
              ] in
            lookup k o.1 ≡ some v
      go true r = h
      go false (err e) = h
      go false (ok path) =
          restore_file-keeps sha net a rs x (not (is_empty shards)) d k v json stub path w files h

module _ (sha : Sha256) {W : Type 0} (net : Net W) (a : Aead) (rs : ReedSolomon) (json : Json)
    (x : Bytes → RestoreInputs) (world : Bytes → W) (d : Dir) (y : Surroundings) where
  -- `runRestoreTree`; the paths are those that `RestoreDirectory` makes absolute.
  unfoldable pub run_restore_tree :
      Bool → Bytes → Bytes → Bytes → Result Tree → Dir → Option Error × Restored
  run_restore_tree extra_arguments source output shards tree files =
      if extra_arguments || is_empty source || is_empty output
      then (
        some (failed "-source and -output are required"),
        record { files = files; restored = [] },
      )
      else restore_directory sha net a rs json x world (not (is_empty shards)) d y source output
          tree files

-- One source of `add`: what the system calls say of it.
pub record Source : Type 0 where
  pub path : Result Bytes
  pub library : Result Bytes
  pub tree : Result Tree

module _ (sha : Sha256) (c : Process.Config) {W : Type 0} (net : Net W) (a : Aead)
    (rs : ReedSolomon) (json : Json) (inputs : Bytes → Inputs) (mesh : Bytes → Mesh)
    (y : Surroundings) where
  -- The loop of `runAdd`: all that was added, up to the first error.
  unfoldable pub add_sources : List Source → Run W → Dir → Option Error × List ProcessResult × Dir
  add_sources [] run files = (none, [], files)
  add_sources (source ∷ sources) run files =
      let (e, s) =
        add_path sha c net a rs json inputs mesh y source.path source.library source.tree run
          files in
      let rest = add_sources sources s.run s.files in
      elim e [
        | none ↦ (rest.0, s.results ++ rest.1, rest.2)
        | some e ↦ (some e, s.results, s.files)
      ]

  -- All sources, and every other file, are kept.
  pub add_sources-keeps :
      (sources : List Source) (run : Run W) (files : Dir) (k v : Bytes)
      → lookup k files ≡ some v
      → lookup k (add_sources sources run files).2 ≡ some v
  unfolding add_sources
  add_sources-keeps [] run files k v h = h
  add_sources-keeps (source ∷ sources) run files k v h =
      let added =
        add_path sha c net a rs json inputs mesh y source.path source.library source.tree run
          files in
      let kept =
        (add_path-Kept sha c net a rs json inputs mesh y source.path source.library source.tree run
            files).stays
          k v h in
      go added.0 added.1 _ kept (add_sources-keeps sources added.1.run added.1.files k v kept)
    where
      go :
          (e : Option Error) (s : Added W) (rest : Option Error × List ProcessResult × Dir)
          → lookup k s.files ≡ some v
          → lookup k rest.2 ≡ some v
          → let o : Option Error × List ProcessResult × Dir = elim e [
            | none ↦ (rest.0, s.results ++ rest.1, rest.2)
            | some e ↦ (some e, s.results, s.files)
          ] in
            lookup k o.2 ≡ some v
      go none s rest kept later = later
      go (some e) s rest kept later = kept
