-- ===== src/Digest.antt =====
-- `Hash` of internal/manifest/manifest.go, `validateHash` of internal/localstore/localstore.go and
-- what they use of encoding/hex. SHA-256 is a parameter with the shape of its result.
use peertopeer.Prelude.{ℕ, ◌+◌, ◌-◌, ◌*◌, ◌/◌, ◌%◌, ◌<◌, ◌≡◌, refl, Bool, true, false, ◌&&◌, arith}
use peertopeer.Prelude.{Option, none, some, [], ◌∷◌, length, All, ltb, leb, ◌==◌, if◌then◌else◌}
use peertopeer.Prelude.Text.{Bytes, contains_any}

-- `sha256.Sum256`: 32 bytes.
pub record Sha256 : Type 0 where
  pub sum : Bytes → Bytes
  pub length-sum : (s : Bytes) → length (sum s) ≡ 32
  pub sum-bytes : (s : Bytes) → All (λ b. b < 256) (sum s)

hex_char : ℕ → ℕ
hex_char n = if ltb n 10 then 48 + n else 87 + n

hex_digit : ℕ → Option ℕ
hex_digit c =
    if leb 48 c && leb c 57
    then some (c - 48)
    else if leb 97 c && leb c 102
    then some (c - 87)
    else if leb 65 c && leb c 70
    then some (c - 55)
    else none

-- `hex.EncodeToString`.
unfoldable pub hex_encode : Bytes → Bytes
unfolding hex_char
hex_encode [] = []
hex_encode (b ∷ s) = hex_char (b / 16) ∷ hex_char (b % 16) ∷ hex_encode s

abbrev push_byte : Option ℕ → Option ℕ → Option Bytes → Option Bytes
push_byte (some x) (some y) (some s) = some ((x * 16 + y) ∷ s)
push_byte _ _ _ = none

-- `hex.DecodeString`, which takes digits of either case.
unfoldable pub hex_decode : Bytes → Option Bytes
unfolding hex_digit
hex_decode [] = some []
hex_decode (a ∷ []) = none
hex_decode (a ∷ b ∷ s) = push_byte (hex_digit a) (hex_digit b) (hex_decode s)

hex_digit-hex_char : (n : ℕ) → n < 16 → hex_digit (hex_char n) ≡ some n
unfolding hex_digit hex_char
hex_digit-hex_char n h = ground arith

-- Decoding what was encoded gives the bytes back.
pub hex_decode-hex_encode : (s : Bytes) → All (λ b. b < 256) s → hex_decode (hex_encode s) ≡ some s
unfolding hex_encode hex_decode
hex_decode-hex_encode [] h = refl
hex_decode-hex_encode (b ∷ s) (h, hs) =
    ground
      (arith, hex_digit-hex_char (b / 16), hex_digit-hex_char (b % 16), hex_decode-hex_encode s hs)

pub length-hex_encode : (s : Bytes) → length (hex_encode s) ≡ 2 * length s
unfolding hex_encode
length-hex_encode [] = omega arith
length-hex_encode (b ∷ s) = omega (arith, length-hex_encode s)

-- `validateHash`: 64 hexadecimal digits.
unfoldable pub valid_hash : Bytes → Bool
valid_hash h = (length h == 64) && (elim (hex_decode h) [ none ↦ false | some _ ↦ true ])

module _ (sha : Sha256) where
  -- `Hash` of the package manifest.
  unfoldable pub hash : Bytes → Bytes
  hash s = hex_encode (sha.sum s)

  -- The name of a shard is always a valid hash, so that no write is refused for its name.
  pub hash-valid : (s : Bytes) → valid_hash (hash s) ≡ true
  unfolding valid_hash hash
  hash-valid s =
      simp (length-hex_encode, sha.length-sum, hex_decode-hex_encode (sha.sum s) (sha.sum-bytes s))

-- A hash holds no separator of paths.
pub no_separator-hex_encode :
    (s : Bytes) → All (λ b. b < 256) s → contains_any (hex_encode s) (b'/' ∷ b'\\' ∷ []) ≡ false
unfolding hex_encode hex_char contains_any
no_separator-hex_encode [] h = refl
no_separator-hex_encode (b ∷ s) (h, hs) = ground (arith, no_separator-hex_encode s hs)
