-- ===== src/Dstore/RoundTrip/Remote.antt =====
-- `restoreChunked` of internal/dstore/dstore.go, from the devices alone.
use peertopeer.Prelude.{ℕ, ◌≤◌, ◌≡◌, ◌≢◌, refl, Bool, false, none, List, [], ◌∷◌, length}
use peertopeer.Prelude.{All, arith, inl, inr, ap, ◌∙◌, Result, ok, err}
use peertopeer.Prelude.Text.{Bytes, text, equal, is_empty}
use peertopeer.Prelude.Dict.{lookup}
use peertopeer.Prelude.Int.{pos}
use peertopeer.AtomicFile.{Dir, no_faults}
use peertopeer.CryptoFile.{Aead, IsAead}
use peertopeer.Digest.{Sha256}
use peertopeer.Erasure.{ReedSolomon}
use peertopeer.Erasure.Layouts.{layout, IsGeometry}
use peertopeer.Erasure.Recovery.{IsErasureCode, present, shard_size}
use peertopeer.Manifest.{Manifest, Chunk, ShardRef, Json}
use peertopeer.ShardServer.{full}
use peertopeer.Dstore.Placement.{Mesh}
use peertopeer.Dstore.Transfer.{Net}
use peertopeer.Dstore.Process.{Config, Inputs, Run}
use peertopeer.Dstore.Pipeline.{process_file}
use peertopeer.Dstore.Restore.{RestoreInputs, fetch_one, fetch_all, shard_bound, restore_chunked}
use peertopeer.Dstore.Devices.{IsMesh, IsReachable, OnDevice, Safe, Grows}
use peertopeer.Dstore.Devices.Push.{Grows-refl, Grows-trans}
use peertopeer.Dstore.Devices.Placing.{OnDevice-Grows, AllThere, AllThere-Grows}
use peertopeer.Dstore.Devices.Fetch.{Got, fetch_shard-Got}
use peertopeer.Dstore.Devices.Durable.{process_file-Durable}
use peertopeer.Dstore.RoundTrip.Placed.{Placed}
use peertopeer.Dstore.RoundTrip.Fetched.{Unique, Held-unique, hash-not_empty}
use peertopeer.Dstore.RoundTrip.Chunks.{Stands, nil, cons, present_full, shard_size_pos}
use peertopeer.Dstore.RoundTrip.Missing.{Enough, restore_chunks-Enough}
use peertopeer.Dstore.RoundTrip.Whole.{process_file-Processed}
use peertopeer.Dstore.RoundTrip.Output.{restore_chunked-output}

module _ (sha : Sha256) {W : Type 0} (net : Net W) (m : IsMesh sha net) (a : Aead)
    (rs : ReedSolomon) (y : RestoreInputs) (allow_local : Bool) (store : Dir) (share : Bytes)
    (reachable : IsReachable sha net m share) where
  fetch_one-Got :
      (max_bytes : ℕ) (ref : ShardRef) (w : W) (o : OnDevice sha net m w ref)
      → is_empty ref.hash ≡ false
      → length o.content ≤ max_bytes
      → let f = fetch_one sha net a rs y allow_local store share max_bytes ref w in
        (f.0 ≡ o.content) × Grows sha net m w f.1
  unfolding fetch_one
  fetch_one-Got max_bytes ref w o named fits = rw named (
      go _ _ (
        fetch_shard-Got sha net m share reachable w ref o max_bytes allow_local y.read_fails store
          fits))
    where
      go :
          (r : Result Bytes) (w' : W)
          → Got sha net m share reachable w o.content r w'
          → let f : Bytes × W = elim r [ err _ ↦ ([], w') | ok shard ↦ (shard, w') ] in
            (f.0 ≡ o.content) × Grows sha net m w f.1
      go r w' g = rw g.whole (refl, g.grows)

  abbrev On : W → List ShardRef → Type 0
  On w refs = All (OnDevice sha net m w) refs

  On-Grows : {w w' : W} (refs : List ShardRef) → Grows sha net m w w' → On w refs → On w' refs
  On-Grows [] g o = tt
  On-Grows (ref ∷ refs) g (o, more) = (OnDevice-Grows sha net m ref g o, On-Grows refs g more)

  module _ (d : Dir) (unique : Unique sha d) where
    -- Shards that are at their devices are all fetched.
    fetch_all-On :
        (max_bytes n : ℕ) (refs : List ShardRef) (shards : List Bytes) (w : W)
        → Placed sha d refs shards
        → All (λ s. length s ≡ n) shards
        → n ≤ max_bytes
        → On w refs
        → let f = fetch_all sha net a rs y allow_local store share max_bytes refs w in
          (f.0 ≡ shards) × Grows sha net m w f.1
    unfolding fetch_all
    fetch_all-On max_bytes n [] [] w p z h o = (refl, Grows-refl sha net m w)
    fetch_all-On max_bytes n [] (s ∷ shards) w p z h o = absurd p
    fetch_all-On max_bytes n (ref ∷ refs) [] w p z h o = absurd p
    fetch_all-On max_bytes n (ref ∷ refs) (s ∷ shards) w (name, held, p) (size, z) h (o, more) =
        let same : o.content ≡ s = Held-unique sha d unique o.content held (o.same ∙ name) in
        let fits : length o.content ≤ max_bytes = omega (arith, ap length same, size) in
        let named = ap is_empty name ∙ hash-not_empty sha s in
        let (one, g) = fetch_one-Got max_bytes ref w o named fits in
        let w₁ = (fetch_one sha net a rs y allow_local store share max_bytes ref w).1 in
        let (rest, g') = fetch_all-On max_bytes n refs shards w₁ p z h (On-Grows refs g more) in
        (cc (one, same, rest), Grows-trans sha net m g g')

    module _ (k p : ℕ) (geometry : IsGeometry k p) (key : Bytes) where
      abbrev AllOn : W → List Chunk → Type 0
      AllOn w chunks = All (λ (chunk : Chunk). On w chunk.shards) chunks

      AllOn-Grows :
          {w w' : W} (chunks : List Chunk) → Grows sha net m w w' → AllOn w chunks → AllOn w' chunks
      AllOn-Grows [] g o = tt
      AllOn-Grows (chunk ∷ chunks) g (o, more) =
          (On-Grows chunk.shards g o, AllOn-Grows chunks g more)

      pub Enough-On :
          (chunks : List Chunk) (content : Bytes) (w : W)
          → Stands sha a rs k p key d chunks content
          → AllOn w chunks
          → Enough sha net a rs y allow_local store share k p chunks w
      unfolding shard_bound
      Enough-On [] content w nil o = tt
      Enough-On (chunk ∷ chunks) content w (cons piece rest e s more) (o, others) =
          let size = shard_size (length s.ciphertext) k in
          let bound =
            shard_bound sha net a rs y allow_local store share (layout k p) chunk.ciphertext_size in
          let fits : size ≤ bound = rw s.cipher_size (omega arith) in
          let (all, g) =
            fetch_all-On bound size chunk.shards s.coded.shards w s.placed s.coded.sizes fits o in
          let full_ =
            present_full s.coded.shards size (shard_size_pos _ k s.filled geometry.0)
              s.coded.sizes in
          (
            omega (arith, ap present all, full_, s.coded.count),
            Enough-On chunks rest _ more (AllOn-Grows chunks g others),
          )

-- No shard is in the local store only.
abbrev pub AllPlaced : List Chunk → Type 0
AllPlaced chunks =
    All (λ (chunk : Chunk). All (λ (ref : ShardRef). ref.peer ≢ text "local") chunk.shards) chunks

module _ (sha : Sha256) {W : Type 0} (net : Net W) (m : IsMesh sha net) (w : W) where
  away :
      (refs : List ShardRef)
      → All (Safe sha net m w) refs
      → All (λ (ref : ShardRef). ref.peer ≢ text "local") refs
      → All (OnDevice sha net m w) refs
  away [] s n = tt
  away (ref ∷ refs) (inl e, s) (n, more) = absurd (n e)
  away (ref ∷ refs) (inr o, s) (n, more) = (o, away refs s more)

  chunks_away :
      (chunks : List Chunk)
      → AllThere sha net m w chunks
      → AllPlaced chunks
      → All (λ (chunk : Chunk). All (OnDevice sha net m w) chunk.shards) chunks
  chunks_away [] s n = tt
  chunks_away (chunk ∷ chunks) (s, ss) (n, ns) = (away chunk.shards s n, chunks_away chunks ss ns)

module _ (sha : Sha256) (c : Config) {W : Type 0} (net : Net W) (devices : IsMesh sha net)
    (a : Aead) (rs : ReedSolomon) (x : Inputs) (k p : ℕ) (content : Bytes)
    (geometry : IsGeometry k p) (code : IsErasureCode rs k p) (law : IsAead a)
    (read : x.source ≡ full content) (dk : c.data_shards ≡ pos k)
    (dp : c.parity_shards ≡ pos p) where
  -- A file whose shards `processFile` placed at peers is restored from the peers to its content, as a
  -- new file, whatever the local store of the restore has, and also if there is none: at the end of
  -- the run, and at any time after it at which no device has lost a file. The conditions: the network
  -- leads to devices that run the shard server; during the restore it loses nothing, every device
  -- lets the client in and no read fails there; no other data has the hash of a shard; and those of
  -- a restore from the local store on the layout, the cipher, the library, the context and the write.
  pub restore_chunked-devices :
      (json : Json) (mesh : Mesh) (path stub_path : Bytes) (s : Run W) (files : Dir) (m : Manifest)
      (w : W) (y : RestoreInputs) (allow_local : Bool) (store : Dir) (output_path : Bytes)
      (files' : Dir)
      → (process_file sha c net a rs x json mesh path stub_path s files).0 ≡ ok m
      → Unique sha (process_file sha c net a rs x json mesh path stub_path s files).1.dir
      → Grows sha net devices
          (process_file sha c net a rs x json mesh path stub_path s files).1.world
          w
      → AllPlaced m.chunks
      → IsReachable sha net devices m.share_id
      → ((i : ℕ) → y.cancelled_at i ≡ false)
      → y.faults ≡ no_faults
      → lookup y.tmp files' ≡ none
      → lookup output_path files' ≡ none
      → equal y.tmp output_path ≡ false
      → let o = restore_chunked sha net a rs y allow_local store m output_path w files' in
        (o.0 ≡ ok output_path) × (o.1 ≡ (output_path, content) ∷ files')
  restore_chunked-devices json mesh path stub_path s files m w y allow_local store output_path
        files' made unique later placed reachable goes_on f t free differs =
      let q =
        process_file-Processed sha c net a rs x k p content geometry code law read dk dp json mesh
          path stub_path s files m made in
      let there =
        process_file-Durable sha c net devices a rs x json path stub_path mesh s files m made in
      let on =
        chunks_away sha net devices w m.chunks (AllThere-Grows sha net devices m.chunks later there)
          placed in
      let enough =
        Enough-On sha net devices a rs y allow_local store m.share_id reachable _ unique k p
          geometry m.key m.chunks content w q.stands on in
      let output =
        restore_chunks-Enough sha net a rs y allow_local store m.share_id k p m.key _ unique
          geometry code goes_on 0 m.chunks content w q.stands enough in
      restore_chunked-output sha c net a rs x k p content geometry code law read dk dp m _ net w y
        allow_local output_path files' q store output f t free differs
