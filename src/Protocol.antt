-- ===== src/Protocol.antt =====
-- internal/protocol/protocol.go: what an agent tells of itself.
use peertopeer.Prelude.{◌*◌, ◌^◌, Bool}
use peertopeer.Prelude.Text.{Bytes}
use peertopeer.Prelude.Int.{ℤ, pos}

abbrev pub version : ℤ
version = pos 1

-- 64 << 20
abbrev pub default_max_shard_bytes : ℤ
default_max_shard_bytes = pos (64 * 2 ^ 20)

pub record Info : Type 0 where
  pub service : Bytes
  pub protocol_version : ℤ
  pub name : Bytes
  pub os : Bytes
  pub arch : Bytes
  pub share_id : Bytes
  pub storage : Bool
  pub used_bytes : ℤ
  pub quota_bytes : ℤ
  pub max_shard_bytes : ℤ
