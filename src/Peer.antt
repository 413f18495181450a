-- ===== src/Peer.antt =====
-- internal/peer: the devices of the mesh, and what an agent's answer says of one. The answers of the
-- network are an argument; the probes, which run at once in the source, do not depend on each other.
use peertopeer.Prelude.{Bool, false, ◌&&◌, ◌||◌, not, Option, none, some, List, map, ℕ}
use peertopeer.Prelude.{if◌then◌else◌, Result, ok, err, failed, ◌>>◌, reject_if}
use peertopeer.Prelude.Text.{Bytes, text, equal, is_empty}
use peertopeer.Prelude.Dict.{Dict, lookup}
use peertopeer.Prelude.Int.{pos, ltb_ℤ, eq_ℤ}
use peertopeer.Protocol
use peertopeer.Protocol.{Info}

pub record Peer : Type 0 where
  pub host_name : Bytes
  pub tail_ip : Bytes
  pub online : Bool
  pub os : Bytes

-- What the request for `/v1/info` meets: the context's end, no answer, a status, or an answer of
-- status 200 that is no JSON, or is.
pub data InfoReply : Type 0 where
  cancelled unreachable garbled : InfoReply
  refused : ℕ → InfoReply
  answered : Info → InfoReply

-- `Port`.
unfoldable pub port : Peer → Bytes → Dict Bytes → Bytes
port p default_port ports =
    let fallback = if is_empty default_port then text "8080" else default_port in
    elim (lookup p.host_name ports) [
      | none ↦ fallback
      | some own ↦ if is_empty own then fallback else own
    ]

-- The tests of `Probe` on an answer.
unfoldable pub check_info : Bytes → Info → Result Info
check_info share_id info = do
  reject_if
      (not (equal info.service (text "dstore"))
        || not (eq_ℤ info.protocol_version Protocol.version))
      (failed "incompatible agent protocol")
  reject_if (not (equal info.share_id share_id)) (failed "sharing group mismatch")
  reject_if
      (not (ltb_ℤ (pos 0) info.max_shard_bytes)
        || ltb_ℤ info.quota_bytes (pos 0)
        || ltb_ℤ info.used_bytes (pos 0))
      (failed "invalid storage capabilities")
  ok info

-- `Probe`.
unfoldable pub probe : Bytes → InfoReply → Result Info
probe share_id cancelled = err (failed "context")
probe share_id unreachable = err (failed "agent unreachable")
probe share_id garbled = err (failed "invalid agent response")
probe share_id (refused code) = err (failed "agent returned")
probe share_id (answered info) = check_info share_id info

pub record Status : Type 0 where
  pub peer : Peer
  pub info : Option Info
  pub ready : Bool

-- The body of the goroutines of `Inspect`.
unfoldable pub status_of : Peer → Result Info → Status
status_of p (err e) = record { peer = p; info = none; ready = false }
status_of p (ok info) =
    let full = ltb_ℤ (pos 0) info.quota_bytes && not (ltb_ℤ info.used_bytes info.quota_bytes) in
    record { peer = p; info = some info; ready = info.storage && not full }

unfoldable pub inspect_one : (Peer → Bytes → InfoReply) → Bytes → Dict Bytes → Bytes → Peer → Status
inspect_one reply default_port ports share_id p =
    if p.online
    then status_of p (probe share_id (reply p (port p default_port ports)))
    else record { peer = p; info = none; ready = false }

-- `Inspect`: one status for each peer, in their order.
unfoldable pub inspect :
    (Peer → Bytes → InfoReply) → List Peer → Bytes → Dict Bytes → Bytes → List Status
inspect reply peers default_port ports share_id =
    map (inspect_one reply default_port ports share_id) peers
