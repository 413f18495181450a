-- ===== src/Tests/Progress.antt =====
-- A run with everything around it in order.
use peertopeer.Prelude.{◌*◌, ◌^◌, ◌≡◌, refl, arith, if◌then◌else◌}
use peertopeer.Prelude.{[], ◌∷◌, ok}
use peertopeer.Prelude.Text.{Bytes, text, equal, has_prefix, has_suffix, contains_byte}
use peertopeer.Prelude.Dict.{lookup, erase}
use peertopeer.AtomicFile.{exists}
use peertopeer.Digest.{hex_decode, valid_hash}
use peertopeer.Erasure.{new_layout, validate, total_shards}
use peertopeer.Erasure.Layouts.{layout}
use peertopeer.Manifest.{Manifest}
use peertopeer.Peer
use peertopeer.HostPort.{join_host_port}
use peertopeer.ShardServer.{full}
use peertopeer.Dstore.Placement.{
  shard_peers, may_hold, domain, contains_name, seen_before, select, required_peers, assign,
  eligible_peers,
}
use peertopeer.Dstore.Transfer.{Net, reply}
use peertopeer.Dstore.Process.{Run}
use peertopeer.Dstore.Pipeline.{
  Prepared, process_file, prepare, file_limit, piece_size, max_shard_bytes,
}
use peertopeer.Dstore.Progress.{IsCalm, IsReliable, Ready}
use peertopeer.Dstore.Progress.Loop.{IsFair}
use peertopeer.Dstore.Progress.Success.{EndsWell, process_file-succeeds}
use peertopeer.Tests.Params.{repeat, content, sha, rs, code, aead, aead_law, env}
use peertopeer.Tests.Whole.{box, config, mesh, inputs, json, files}

-- A device that keeps what it was sent last.
abbrev keeper : Net Bytes
keeper = record {
  exchange = λ w method url share body.
      if equal method (text "PUT") then (reply 201 (full []), body) else (reply 200 (full w), w);
}

abbrev start : Run Bytes
start = record { world = []; dir = []; puts = 0 }

reliable : IsReliable keeper
unfolding equal
reliable = record { takes = λ w url share body. (full [], refl); gives = λ w url share body. refl }

calm : IsCalm env
unfolding valid_hash hex_decode
calm = record { lock = refl; mkdir = refl; read = refl; read_dir = refl; faults = refl }

fair : IsFair sha config keeper aead rs inputs 1 1
fair = record {
  calm = λ i. calm;
  unlimited = refl;
  reliable = reliable;
  geometry = (omega arith, omega arith, omega arith);
  code = code;
  law = aead_law;
  nonces = λ i. (repeat 12 3, refl, refl);
  goes_on = λ i. refl;
}

ends_well : EndsWell inputs (text "note.dstore") files
unfolding lookup equal
ends_well = record {
  id = text "id";
  named = refl;
  same = refl;
  goes_on = refl;
  faults = refl;
  tmp = refl;
  differs = refl;
  removes = refl;
}

ready : Ready sha inputs []
unfolding lookup
ready = record { intact = record { at_name = λ h c v e. cc }; free = λ i. refl }

abbrev prepared : Prepared sha config keeper aead rs inputs
prepared = record {
  layout = layout 1 1;
  limit = 64 * 2 ^ 20;
  chunk_size = 16 * 2 ^ 20;
  size = 2;
  key = repeat 32 5;
  peers = box ∷ box ∷ [];
}

prepared-run :
    prepare sha config keeper aead rs inputs mesh (text "note") (text "note.dstore") files
    ≡ ok prepared
unfolding prepare has_suffix new_layout validate total_shards exists lookup erase equal file_limit
    piece_size max_shard_bytes shard_peers eligible_peers select may_hold contains_name seen_before
    domain join_host_port contains_byte Peer.port required_peers assign has_prefix
prepared-run = refl

process_file-succeeds_example :
    (m : Manifest) × ((process_file sha config keeper aead rs inputs json mesh
        (text "note")
        (text "note.dstore")
        start
        files).0
      ≡ ok m)
unfolding lookup equal
process_file-succeeds_example =
    process_file-succeeds sha config keeper aead rs inputs 1 1 fair content refl json (text "note")
      (text "note.dstore") start files mesh prepared refl refl refl prepared-run refl ends_well
      ready
