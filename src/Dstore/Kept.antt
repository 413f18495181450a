-- ===== src/Dstore/Kept.antt =====
-- What a restore does to the files that are there.
use peertopeer.Prelude.{◌≡◌, Bool, some, Bool-cases, inl, inr}
use peertopeer.Prelude.{Result, ok, err, ◌>>=◌}
use peertopeer.Prelude.Text.{Bytes}
use peertopeer.Prelude.Dict.{lookup}
use peertopeer.Prelude.Int.{eq_ℤ, pos, pos_part}
use peertopeer.AtomicFile.{Dir, write_new, write_new_from}
use peertopeer.AtomicFile.Publish.{write_new_from-keeps, write_new-Attempted, lookup-Attempted}
use peertopeer.Digest.{Sha256}
use peertopeer.Erasure
use peertopeer.Erasure.{Layout, ReedSolomon, new_layout}
use peertopeer.CryptoFile.{Aead, decrypt}
use peertopeer.Manifest.{Manifest, Json}
use peertopeer.Dstore.Transfer.{Net}
use peertopeer.Dstore.Restore.{
  RestoreInputs, restore_chunks, fetch_all, shard_bound, restore_chunked, restore_whole,
  restore_manifest, restore_file,
}

module _ (sha : Sha256) {W : Type 0} (net : Net W) (a : Aead) (rs : ReedSolomon) (x : RestoreInputs)
    (allow_local : Bool) (d : Dir) (k v : Bytes) where
  restore_chunked-keeps :
      (m : Manifest) (output : Bytes) (w : W) (files : Dir)
      → lookup k files ≡ some v
      → lookup k (restore_chunked sha net a rs x allow_local d m output w files).1 ≡ some v
  unfolding restore_chunked
  restore_chunked-keeps m output w files h = go (new_layout m.data_shards m.parity_shards)
    where
      go :
          (r : Result Layout)
          → let o : Result Bytes × Dir = elim r [
            | err e ↦ (err e, files)
            | ok layout ↦
                let (content, _) =
                  restore_chunks sha net a rs x allow_local d m.share_id layout m.key 0 m.chunks
                    w in
                let (r, files') = write_new_from x.faults x.tmp output content files in
                (r >>= (λ _. ok output), files')
          ] in
            lookup k o.1 ≡ some v
      go (err e) = h
      go (ok layout) = write_new_from-keeps x.faults x.tmp output _ files k v h

  restore_whole-keeps :
      (m : Manifest) (output : Bytes) (w : W) (files : Dir)
      → lookup k files ≡ some v
      → lookup k (restore_whole sha net a rs x allow_local d m output w files).1 ≡ some v
  unfolding restore_whole
  restore_whole-keeps m output w files h = go (new_layout m.data_shards m.parity_shards)
    where
      written : Result Bytes → Result Bytes × Dir
      written (err e) = (err e, files)
      written (ok plaintext) =
          let (r, files') = write_new x.faults x.tmp output plaintext files in
          (r >>= (λ _. ok output), files')

      after : (r : Result Bytes) → lookup k (written r).1 ≡ some v
      after (err e) = h
      after (ok plaintext) =
          lookup-Attempted (write_new-Attempted x.faults x.tmp output plaintext files) k v h

      go :
          (r : Result Layout)
          → let o : Result Bytes × Dir = elim r [
            | err e ↦ (err e, files)
            | ok layout ↦
                let (shards, _) =
                  fetch_all sha net a rs x allow_local d m.share_id
                    (shard_bound sha net a rs x allow_local d m.share_id layout m.ciphertext_size)
                    m.shards
                    w in
                elim (Erasure.decode rs layout shards (pos_part m.ciphertext_size) >>= λ ciphertext.
                decrypt a ciphertext m.key m.nonce) [
                  | err e ↦ (err e, files)
                  | ok plaintext ↦
                      let (r, files') = write_new x.faults x.tmp output plaintext files in
                      (r >>= (λ _. ok output), files')
                ]
          ] in
            lookup k o.1 ≡ some v
      go (err e) = h
      go (ok layout) = after _

  restore_manifest-keeps :
      (stub output : Bytes) (w : W) (files : Dir) (r : Result Manifest)
      → lookup k files ≡ some v
      → lookup k (restore_manifest sha net a rs x allow_local d stub output w files r).1 ≡ some v
  unfolding restore_manifest
  restore_manifest-keeps stub output w files (err e) h = h
  restore_manifest-keeps stub output w files (ok m) h = elim (Bool-cases (eq_ℤ m.version (pos 2))) [
    | inl e ↦ simp e (restore_chunked-keeps m _ w files h)
    | inr e ↦ simp e (restore_whole-keeps m _ w files h)
  ]

  -- A restore replaces no file and removes none, whatever the stub says and whatever fails.
  pub restore_file-keeps :
      (json : Json) (stub output : Bytes) (w : W) (files : Dir)
      → lookup k files ≡ some v
      → lookup k (restore_file sha net a rs x allow_local d json stub output w files).1 ≡ some v
  unfolding restore_file
  restore_file-keeps json stub output w files h = restore_manifest-keeps stub output w files _ h
