-- ===== src/Dstore/Restore.antt =====
-- `RestoreFile` and `restoreChunked` of internal/dstore/dstore.go.
use peertopeer.Prelude.{ℕ, ◌+◌, ◌-◌, ◌/◌, Bool, not, Option, none, some}
use peertopeer.Prelude.{List, [], ◌∷◌, ◌++◌, length, if◌then◌else◌}
use peertopeer.Prelude.{Result, ok, err, failed, ◌>>=◌, ◌>>◌, reject_if}
use peertopeer.Prelude.Text.{Bytes, is_empty, equal}
use peertopeer.Prelude.Split.{trim_suffix}
use peertopeer.FilePath.{dir, join_path}
use peertopeer.Prelude.Dict.{lookup}
use peertopeer.Prelude.Int.{ℤ, pos, eq_ℤ, pos_part}
use peertopeer.AtomicFile.{Dir, Faults, write_new, write_new_from}
use peertopeer.Digest.{Sha256}
use peertopeer.Erasure
use peertopeer.Erasure.{Layout, ReedSolomon, new_layout}
use peertopeer.CryptoFile.{Aead, decrypt}
use peertopeer.Manifest.{Manifest, Chunk, ShardRef, Json, unmarshal}
use peertopeer.Dstore.Transfer.{Net, fetch_shard}
use peertopeer.Dstore.Pipeline.{stub_extension}

abbrev pub read_stub : Option Bytes → Result Bytes
read_stub none = err (failed "read stub")
read_stub (some stub) = ok stub

-- What one restore meets: the ends of the context and the faults of the system calls.
pub record RestoreInputs : Type 0 where
  pub cancelled_at : ℕ → Bool
  pub read_fails : Bool
  pub faults : Faults
  pub tmp : Bytes

module _ (sha : Sha256) {W : Type 0} (net : Net W) (a : Aead) (rs : ReedSolomon) (x : RestoreInputs)
    (allow_local : Bool) (d : Dir) (share_id : Bytes) where
  -- One place of the list of shards: the shard, or the empty one where it is not found.
  unfoldable pub fetch_one : ℕ → ShardRef → W → Bytes × W
  fetch_one max_bytes ref w =
      if is_empty ref.hash
      then ([], w)
      else (let (r, w') = fetch_shard sha net allow_local x.read_fails d w ref share_id max_bytes in
          elim r [ err _ ↦ ([], w') | ok shard ↦ (shard, w') ])

  unfoldable pub fetch_all : ℕ → List ShardRef → W → List Bytes × W
  fetch_all max_bytes [] w = ([], w)
  fetch_all max_bytes (ref ∷ refs) w =
      let (shard, w₁) = fetch_one max_bytes ref w in
      let (shards, w₂) = fetch_all max_bytes refs w₁ in (shard ∷ shards, w₂)

  -- The largest shard that a ciphertext can have.
  unfoldable pub shard_bound : Layout → ℤ → ℕ
  shard_bound layout ciphertext_size =
      let k = pos_part layout.data_shards in (pos_part ciphertext_size + k - 1) / k

  module _ (layout : Layout) (key : Bytes) where
    -- The plaintext of a chunk from its shards.
    unfoldable pub open_chunk : Chunk → List Bytes → Result Bytes
    open_chunk chunk shards = do
      ciphertext ← Erasure.decode rs layout shards (pos_part chunk.ciphertext_size)
      plaintext ← decrypt a ciphertext key chunk.nonce
      reject_if (not (eq_ℤ (pos (length plaintext)) chunk.plaintext_size))
          (failed "chunk plaintext size mismatch")
      ok plaintext

    -- The callback that writes the chunks.
    unfoldable pub restore_chunks : ℕ → List Chunk → W → Result Bytes × W
    restore_chunks i [] w = (ok [], w)
    restore_chunks i (chunk ∷ chunks) w =
        let (shards, w₁) = fetch_all (shard_bound layout chunk.ciphertext_size) chunk.shards w in
        let (rest, w₂) = restore_chunks (i + 1) chunks w₁ in
        if x.cancelled_at i then (err (failed "context"), w) else elim (open_chunk chunk shards) [
          | err e ↦ (err e, w₁)
          | ok plaintext ↦ (rest >>= (λ more. ok (plaintext ++ more)), w₂)
        ]

module _ (sha : Sha256) {W : Type 0} (net : Net W) (a : Aead) (rs : ReedSolomon) (x : RestoreInputs)
    (allow_local : Bool) (d : Dir) where
  -- `restoreChunked`.
  unfoldable pub restore_chunked : Manifest → Bytes → W → Dir → Result Bytes × Dir
  restore_chunked m output_path w files = elim (new_layout m.data_shards m.parity_shards) [
    | err e ↦ (err e, files)
    | ok layout ↦
        let (output, _) =
          restore_chunks sha net a rs x allow_local d m.share_id layout m.key 0 m.chunks w in
        let (r, files') = write_new_from x.faults x.tmp output_path output files in
        (r >>= (λ _. ok output_path), files')
  ]

  -- The part of `RestoreFile` for the manifests of versions 0 and 1.
  unfoldable pub restore_whole : Manifest → Bytes → W → Dir → Result Bytes × Dir
  restore_whole m output_path w files = elim (new_layout m.data_shards m.parity_shards) [
    | err e ↦ (err e, files)
    | ok layout ↦
        let (shards, _) =
          fetch_all sha net a rs x allow_local d m.share_id
            (shard_bound sha net a rs x allow_local d m.share_id layout m.ciphertext_size) m.shards
            w in
        elim (Erasure.decode rs layout shards (pos_part m.ciphertext_size) >>= λ ciphertext.
        decrypt a ciphertext m.key m.nonce) [
          | err e ↦ (err e, files)
          | ok plaintext ↦
              let (r, files') = write_new x.faults x.tmp output_path plaintext files in
              (r >>= (λ _. ok output_path), files')
        ]
  ]

  -- The output path: the one that was asked for, the stub's without its extension, or the manifest's
  -- name beside the stub.
  unfoldable pub output_for : Bytes → Bytes → Bytes → Bytes
  output_for stub_path file_name output_path =
      if not (is_empty output_path)
      then output_path
      else if equal (trim_suffix stub_path stub_extension) stub_path
      then join_path (dir stub_path) file_name
      else trim_suffix stub_path stub_extension

  -- What `RestoreFile` does with the manifest of a stub.
  unfoldable pub restore_manifest : Bytes → Bytes → W → Dir → Result Manifest → Result Bytes × Dir
  restore_manifest stub_path output_path w files (err e) = (err e, files)
  restore_manifest stub_path output_path w files (ok m) =
      let output = output_for stub_path m.file_name output_path in
      if eq_ℤ m.version (pos 2)
      then restore_chunked m output w files
      else restore_whole m output w files

  -- `RestoreFile`.
  unfoldable pub restore_file : Json → Bytes → Bytes → W → Dir → Result Bytes × Dir
  restore_file json stub_path output_path w files =
      restore_manifest stub_path output_path w files
        (read_stub (lookup stub_path files) >>= unmarshal json)
