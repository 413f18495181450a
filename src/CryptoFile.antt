-- ===== src/CryptoFile.antt =====
-- internal/cryptofile/cryptofile.go: AES-256-GCM, the cipher itself a parameter, and the bytes of
-- the system's random source an argument.
use peertopeer.Prelude.{ℕ, ◌+◌, ◌≡◌, arith, Option, none, some, length, not, ◌==◌}
use peertopeer.Prelude.{Error, Result, Status, ok, err, failed, ◌>>=◌, ◌>>◌, reject_if}
use peertopeer.Prelude.Text.{Bytes}

abbrev pub key_size : ℕ
key_size = 32

-- `gcm.NonceSize()`
abbrev pub nonce_size : ℕ
nonce_size = 12

-- `Seal` and `Open` of the cipher, at a key, a nonce and a text.
pub record Aead : Type 0 where
  pub seal : Bytes → Bytes → Bytes → Bytes
  pub open_ : Bytes → Bytes → Bytes → Option Bytes

-- What the cipher documents: opening what was sealed, and a tag of 16 bytes.
pub record IsAead (a : Aead) : Type 0 where
  pub open-seal :
      (key nonce plaintext : Bytes)
      → a.open_ key nonce (a.seal key nonce plaintext) ≡ some plaintext
  pub length-seal :
      (key nonce plaintext : Bytes) → length (a.seal key nonce plaintext) ≡ length plaintext + 16

-- `newGCM`: only the size of the key can be wrong.
unfoldable pub new_gcm : Bytes → Status
new_gcm key = reject_if (not (length key == key_size)) (failed "invalid key size")

-- The error of a read is wrapped.
abbrev pub or_failed : Error → Result Bytes → Result Bytes
or_failed e (ok s) = ok s
or_failed e (err _) = err e

-- `RandomNonce`: a cipher of a key of 32 bytes is always made, and is asked for the nonce's size only.
unfoldable pub random_nonce : Result Bytes → Result Bytes
random_nonce read = or_failed (failed "generate nonce") read

module _ (a : Aead) where
  -- `EncryptWithKey`.
  unfoldable pub encrypt_with_key : Bytes → Bytes → Bytes → Result Bytes
  unfolding new_gcm
  encrypt_with_key plaintext key nonce = do
    new_gcm key
    reject_if (not (length nonce == nonce_size)) (failed "invalid nonce size")
    ok (a.seal key nonce plaintext)

  -- `EncryptChunk`: a fresh nonce, or the error of the random source.
  unfoldable pub encrypt_chunk : Result Bytes → Bytes → Bytes → Result (Bytes × Bytes)
  unfolding encrypt_with_key
  encrypt_chunk random plaintext key = do
    nonce ← random
    ciphertext ← encrypt_with_key plaintext key nonce
    ok (ciphertext, nonce)

  -- `Encrypt`: the random source is read for the key, and then for the nonce.
  unfoldable pub encrypt : Result Bytes → Result Bytes → Bytes → Result (Bytes × Bytes × Bytes)
  unfolding encrypt_with_key
  encrypt key_read nonce_read plaintext = do
    key ← or_failed (failed "generate key") key_read
    nonce ← random_nonce nonce_read
    ciphertext ← encrypt_with_key plaintext key nonce
    ok (ciphertext, key, nonce)

  -- `Decrypt`.
  unfoldable pub decrypt : Bytes → Bytes → Bytes → Result Bytes
  unfolding new_gcm
  decrypt ciphertext key nonce = do
    new_gcm key
    reject_if (not (length nonce == nonce_size)) (failed "invalid nonce size")
    elim (a.open_ key nonce ciphertext) [
      | none ↦ err (failed "decrypt")
      | some plaintext ↦ ok plaintext
    ]

-- Where the cipher keeps its laws, a chunk that was encrypted is decrypted by its key and nonce, and
-- grows by the tag of 16 bytes; the nonce has 12 bytes.
pub decrypt-encrypt_chunk :
    (a : Aead) (random : Result Bytes) (plaintext key ciphertext nonce : Bytes)
    → IsAead a
    → encrypt_chunk a random plaintext key ≡ ok (ciphertext, nonce)
    → (decrypt a ciphertext key nonce ≡ ok plaintext)
      × (length ciphertext ≡ length plaintext + 16)
      × (length nonce ≡ 12)
unfolding encrypt_chunk decrypt
decrypt-encrypt_chunk a (err e) plaintext key ciphertext nonce law h = ground arith
decrypt-encrypt_chunk a (ok n) plaintext key ciphertext nonce law h =
    ground (arith, law.open-seal key n plaintext, law.length-seal key n plaintext)

-- Where the cipher keeps its laws, `Encrypt` gives the key and the nonce that `Decrypt` opens its
-- ciphertext with, if the random
-- source gave 32 bytes for the key and 12 for the nonce.
pub decrypt-encrypt :
    (a : Aead) (key nonce plaintext : Bytes)
    → IsAead a
    → length key ≡ 32
    → length nonce ≡ 12
    → (ciphertext : Bytes) × (encrypt a (ok key) (ok nonce) plaintext ≡ ok (ciphertext, key, nonce))
      × (decrypt a ciphertext key nonce ≡ ok plaintext)
unfolding encrypt decrypt random_nonce encrypt_with_key new_gcm
decrypt-encrypt a key nonce plaintext law k n = (
  a.seal key nonce plaintext,
  ground (arith, k, n),
  ground (arith, k, n, law.open-seal key nonce plaintext),
)
