-- ===== src/Erasure.antt =====
-- internal/erasure/erasure.go: layouts, and encoding by a Reed-Solomon library. The library is a
-- parameter. A missing shard is the empty one, as the library takes it.
pub mod Layouts
pub mod Recovery
use peertopeer.Prelude.{ℕ, Bool, ◌&&◌, ◌||◌, not, List, length, ◌==◌, if◌then◌else◌}
use peertopeer.Prelude.{Result, Status, ok, err, failed, ◌>>=◌, ◌>>◌, reject_if}
use peertopeer.Prelude.Text.{Bytes}
use peertopeer.Prelude.Int.{ℤ, pos, ltb_ℤ, eq_ℤ, add64, pos_part}

abbrev pub default_data_shards : ℤ
default_data_shards = pos 2

abbrev pub default_parity_shards : ℤ
default_parity_shards = pos 1

abbrev pub max_shards : ℤ
max_shards = pos 64

pub record Layout : Type 0 where
  pub data_shards : ℤ
  pub parity_shards : ℤ

-- `TotalShards`.
unfoldable pub total_shards : Layout → ℤ
unfolding add64
total_shards l = add64 l.data_shards l.parity_shards

-- `Validate`.
unfoldable pub validate : Layout → Status
unfolding add64
validate l =
    if ltb_ℤ l.data_shards (pos 1) || ltb_ℤ l.parity_shards (pos 1)
    then err (failed "data and parity shards must be positive")
    else if ltb_ℤ max_shards (add64 l.data_shards l.parity_shards)
    then err (failed "total shards must not exceed 64")
    else ok tt

-- `NewLayout`.
unfoldable pub new_layout : ℤ → ℤ → Result Layout
new_layout data_shards parity_shards =
    let absent = eq_ℤ data_shards (pos 0) && eq_ℤ parity_shards (pos 0) in
    let l : Layout = record {
      data_shards = if absent then default_data_shards else data_shards;
      parity_shards = if absent then default_parity_shards else parity_shards;
    } in
    do validate l; ok l

-- `DefaultLayout`.
abbrev pub default_layout : Layout
default_layout = record { data_shards = default_data_shards; parity_shards = default_parity_shards }

-- The library: `New`, and an encoder's `Split`, `Encode`, `Reconstruct` and `Join`.
pub record ReedSolomon : Type 0 where
  pub new : ℕ → ℕ → Status
  pub split : ℕ → ℕ → Bytes → Result (List Bytes)
  pub encode : ℕ → ℕ → List Bytes → Result (List Bytes)
  pub reconstruct : ℕ → ℕ → List Bytes → Result (List Bytes)
  pub join : ℕ → ℕ → List Bytes → ℕ → Result Bytes

module _ (rs : ReedSolomon) where
  -- `Layout.Encode`.
  unfoldable pub encode : Layout → Bytes → Result (List Bytes)
  encode l content = do
    validate l
    let k = pos_part l.data_shards
    let p = pos_part l.parity_shards
    rs.new k p
    shards ← rs.split k p content
    rs.encode k p shards

  -- `Layout.Decode`.
  unfoldable pub decode : Layout → List Bytes → ℕ → Result Bytes
  decode l shards output_size = do
    validate l
    reject_if (not (eq_ℤ (pos (length shards)) (total_shards l))) (failed "invalid shard count")
    let k = pos_part l.data_shards
    let p = pos_part l.parity_shards
    rs.new k p
    whole ← rs.reconstruct k p shards
    rs.join k p whole output_size

  -- `Encode` and `Decode` of the package, at the default layout.
  unfoldable pub encode_default : Bytes → Result (List Bytes)
  unfolding encode
  encode_default content = encode default_layout content

  unfoldable pub decode_default : List Bytes → ℕ → Result Bytes
  unfolding decode
  decode_default shards output_size = decode default_layout shards output_size
