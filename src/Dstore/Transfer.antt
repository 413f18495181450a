-- ===== src/Dstore/Transfer.antt =====
-- `pushShard`, `downloadShard`, `fetchShard` and `shardURL` of internal/dstore/dstore.go. The
-- network is a state `W` with an answer for each request.
use peertopeer.Prelude.{ℕ, Bool, ◌&&◌, not, [], ◌++◌}
use peertopeer.Prelude.{length, ltb, ◌==◌, if◌then◌else◌, Result, Status, ok, err, failed}
use peertopeer.Prelude.Text.{Bytes, text, equal, is_empty}
use peertopeer.AtomicFile.{Dir}
use peertopeer.Digest.{Sha256, hash}
use peertopeer.LocalStore
use peertopeer.Manifest.{ShardRef}
use peertopeer.Peer.{Peer}
use peertopeer.HostPort.{join_host_port}
use peertopeer.ShardServer.{Body, full, broken}

pub data HttpReply : Type 0 where
  no_reply : HttpReply
  reply : ℕ → Body → HttpReply

-- One exchange: method, URL, the header `X-Dstore-Share`, and the body that is sent.
pub record Net (W : Type 0) : Type 0 where
  pub exchange : W → Bytes → Bytes → Bytes → Bytes → HttpReply × W

-- `shardURL`.
unfoldable pub shard_url : Peer → Bytes → Bytes → Bytes
shard_url p port h = text "http://" ++ (join_host_port p.tail_ip port ++ (text "/shards/" ++ h))

-- The reading of a download, with one byte more than the limit.
unfoldable pub read_limited : ℕ → Body → Result Bytes
read_limited max_bytes (full s) =
    if ltb max_bytes (length s) then err (failed "shard exceeds expected size") else ok s
read_limited max_bytes (broken s) =
    if ltb max_bytes (length s)
    then err (failed "shard exceeds expected size")
    else err (failed "read response")

unfoldable pub downloaded : Bytes → ℕ → HttpReply → Result Bytes
downloaded url max_bytes no_reply = err (failed "download")
downloaded url max_bytes (reply code body) =
    if not (code == 200) then err (failed "download") else read_limited max_bytes body

module _ {W : Type 0} (net : Net W) where
  -- `downloadShard`.
  unfoldable pub download_shard : W → Bytes → Bytes → ℕ → Result Bytes × W
  download_shard w url share_id max_bytes =
      let (r, w') = net.exchange w (text "GET") url share_id [] in (downloaded url max_bytes r, w')

module _ (sha : Sha256) {W : Type 0} (net : Net W) where
  -- The download that follows an upload.
  unfoldable pub verify_remote : W → Bytes → Bytes → Bytes → Status × W
  verify_remote w url share_id shard =
      let (r, w') = download_shard net w url share_id (length shard) in
      elim r [
        | err _ ↦ (err (failed "verify remote shard"), w')
        | ok got ↦
            if equal (hash sha got) (hash sha shard)
            then (ok tt, w')
            else (err (failed "verify remote shard: hash mismatch"), w')
      ]

  -- `pushShard`.
  unfoldable pub push_shard : W → Peer → Bytes → Bytes → Bytes → Status × W
  push_shard w p shard port share_id =
      let url = shard_url p port (hash sha shard) in
      let (r, w') = net.exchange w (text "PUT") url share_id shard in
      elim r [
        | no_reply ↦ (err (failed "put"), w')
        | reply code _ ↦
            if not (code == 201) && not (code == 200)
            then (err (failed "put"), w')
            else verify_remote w' url share_id shard
      ]

  -- The local fallback.
  unfoldable pub fetch_local : Bool → Bool → Bytes → Dir → Result Bytes
  fetch_local allow_local read_fails h d =
      if allow_local then LocalStore.get sha read_fails h d else err (failed "shard unavailable")

  -- `fetchShard`.
  unfoldable pub fetch_shard : Bool → Bool → Dir → W → ShardRef → Bytes → ℕ → Result Bytes × W
  fetch_shard allow_local read_fails d w ref share_id max_bytes =
      if is_empty ref.url
      then (fetch_local allow_local read_fails ref.hash d, w)
      else (let (r, w') = download_shard net w ref.url share_id max_bytes in
          elim r [
            | err _ ↦ (fetch_local allow_local read_fails ref.hash d, w')
            | ok got ↦
                if equal (hash sha got) ref.hash
                then (ok got, w')
                else (fetch_local allow_local read_fails ref.hash d, w')
          ])
