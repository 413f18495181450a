-- ===== src/Dstore/Devices/Push.antt =====
-- What `pushShard` of internal/dstore/dstore.go leaves in the store of a device.
use peertopeer.Prelude.{
  ℕ, [], ◌≡◌, refl, ◌≢◌, ◌++◌, append_assoc, arith, some, ok, err, ◌==◌, not, ◌&&◌, ap,
}
use peertopeer.Prelude.{
  length, if◌then◌else◌, failed, Status, Result, Bool-cases, inl, inr, subst, sym,
}
use peertopeer.Prelude.Text.{Bytes, text, equal}
use peertopeer.Prelude.Dict.{lookup}
use peertopeer.AtomicFile.{Dir}
use peertopeer.Digest.{Sha256, hash, hash-valid}
use peertopeer.HostPort.{join_host_port}
use peertopeer.Peer.{Peer}
use peertopeer.ShardServer.{Request, Body, full, broken, shards_prefix}
use peertopeer.ShardServer.Content.{handle-keeps, handle-Found}
use peertopeer.Dstore.Transfer.{
  Net, HttpReply, no_reply, reply, shard_url, downloaded, download_shard, read_limited,
  verify_remote, push_shard,
}
use peertopeer.AtomicFile.Keeping.{Keeps, Keeps-refl, Keeps-trans}
use peertopeer.Dstore.Devices.{Site, request, Served, lost, handled, IsMesh, Grows}

-- The URL that an upload goes to, without its path.
abbrev pub base_of : Peer → Bytes → Bytes
base_of p port = text "http://" ++ join_host_port p.tail_ip port

pub shard_url-base :
    (p : Peer) (port h : Bytes) → shard_url p port h ≡ base_of p port ++ (shards_prefix ++ h)
unfolding shard_url
shard_url-base p port h =
    sym (append_assoc (text "http://") (join_host_port p.tail_ip port) (shards_prefix ++ h))

module _ (sha : Sha256) {W : Type 0} (net : Net W) (mesh : IsMesh sha net) where
  Served-Keeps :
      {site : Site} {h share body : Bytes} {d d' : Dir} {r : HttpReply} (method : Bytes)
      → method ≢ text "DELETE"
      → Served sha site (request site method h share body) d r d'
      → Keeps d d'
  Served-Keeps method n (lost _ k) = k
  Served-Keeps {site} {h} {share} {body} method n (handled env before k k' _) = Keeps-trans k (
      Keeps-trans
        (record {
          at_name = λ key v.
              handle-keeps sha site.options site.quota site.os site.arch env
                (request site method h share body) before key v n;
        })
        k')

  -- A request that is not a deletion takes no file from any device.
  exchange-Grows :
      (w : W) (base method share body shard : Bytes)
      → method ≢ text "DELETE"
      → let url = base ++ (shards_prefix ++ hash sha shard) in
        Grows sha net mesh w (net.exchange w method url share body).1
  exchange-Grows w base method share body shard n = record {
    keeps = λ m. elim (Bool-cases (m == mesh.device base)) [
      | inl e ↦
          let same : m ≡ mesh.device base = ground arith in
          rw same (
            Served-Keeps method n
              (mesh.delivers w base (hash sha shard) method share body (hash-valid sha shard)))
      | inr e ↦ mesh.others w base (hash sha shard) method share body m (λ q. ground (arith, q))
    ];
  }

  pub Grows-refl : (w : W) → Grows sha net mesh w w
  Grows-refl w = record { keeps = λ n. Keeps-refl (mesh.store w n) }

  pub Grows-trans :
      {w₁ w₂ w₃ : W}
      → Grows sha net mesh w₁ w₂
      → Grows sha net mesh w₂ w₃
      → Grows sha net mesh w₁ w₃
  Grows-trans a b = record { keeps = λ n. Keeps-trans (a.keeps n) (b.keeps n) }

  downloaded-full :
      (url : Bytes) (max_bytes code : ℕ) (b : Body) (got : Bytes)
      → downloaded url max_bytes (reply code b) ≡ ok got
      → (code ≡ 200) × (b ≡ full got)
  unfolding downloaded read_limited
  downloaded-full url max_bytes code (full s) got e = (ground arith, ground arith)
  downloaded-full url max_bytes code (broken s) got e = ground arith

  -- The file that the device at the base has under the shard's hash.
  pub record Landed (w : W) (base shard : Bytes) : Type 0 where
    pub content : Bytes
    pub found : lookup (hash sha shard) (mesh.store w (mesh.device base)) ≡ some content
    pub same : hash sha content ≡ hash sha shard

  -- A download that succeeds shows that the device has the shard.
  download_shard-Landed :
      (w : W) (base share shard got : Bytes) (max_bytes : ℕ)
      → let o = download_shard net w (base ++ (shards_prefix ++ hash sha shard)) share max_bytes in
        o.0 ≡ ok got → Landed o.1 base shard
  unfolding download_shard
  download_shard-Landed w base share shard got max_bytes e =
      go _ e (mesh.delivers w base h (text "GET") share [] (hash-valid sha shard))
    where
      h : Bytes
      h = hash sha shard

      url : Bytes
      url = base ++ (shards_prefix ++ h)

      d' : Dir
      d' = mesh.store (net.exchange w (text "GET") url share []).1 (mesh.device base)

      site : Site
      site = mesh.site (mesh.device base)

      no_download : downloaded url max_bytes no_reply ≢ ok got
      no_download n = unfold downloaded in cc n

      q : Request
      q = request (mesh.site (mesh.device base)) (text "GET") h share []

      go :
          (r : HttpReply)
          → downloaded url max_bytes r ≡ ok got
          → Served sha (mesh.site (mesh.device base)) q (mesh.store w (mesh.device base)) r d'
          → Landed (net.exchange w (text "GET") url share []).1 base shard
      go r e (lost n _) =
          absurd (no_download (subst (λ r. downloaded url max_bytes r ≡ ok got) n e))
      go r e (handled env before _ k (inl n)) =
          absurd (no_download (subst (λ r. downloaded url max_bytes r ≡ ok got) n e))
      go r e (handled env before _ k (inr (b, answered, _))) =
          let full_ =
            downloaded-full url max_bytes _ b got
              (subst (λ r. downloaded url max_bytes r ≡ ok got) answered e) in
          let seen =
            handle-Found sha site.options site.quota site.os site.arch env q before shard refl refl
              full_.0 in
          record {
            content = seen.content;
            found = k.at_name h seen.content (
                handle-keeps sha site.options site.quota site.os site.arch env q before h
                  seen.content (λ m. cc) seen.found);
            same = seen.same;
          }

  pub download_shard-Grows :
      (w : W) (base share shard : Bytes) (max_bytes : ℕ)
      → let url = base ++ (shards_prefix ++ hash sha shard) in
        Grows sha net mesh w (download_shard net w url share max_bytes).1
  unfolding download_shard
  download_shard-Grows w base share shard max_bytes =
      exchange-Grows w base (text "GET") share [] shard (λ m. cc)

  -- What an upload, or the check after it, does to the devices.
  pub record Pushed (w : W) (base shard : Bytes) (r : Status) (w' : W) : Type 0 where
    pub grows : Grows sha net mesh w w'
    pub landed : r ≡ ok tt → Landed w' base shard

  verify_remote-Pushed :
      (w : W) (base share shard : Bytes)
      → let o = verify_remote sha net w (base ++ (shards_prefix ++ hash sha shard)) share shard in
        Pushed w base shard o.0 o.1
  unfolding verify_remote
  verify_remote-Pushed w base share shard = go (download_shard net w url share (length shard)) refl
    where
      url : Bytes
      url = base ++ (shards_prefix ++ hash sha shard)

      After : Result Bytes × W → Status × W
      After (r, w') = elim r [
        | err _ ↦ (err (failed "verify remote shard"), w')
        | ok got ↦
            if equal (hash sha got) (hash sha shard)
            then (ok tt, w')
            else (err (failed "verify remote shard: hash mismatch"), w')
      ]

      checked :
          (got : Bytes) (w' : W)
          → Grows sha net mesh w w'
          → Landed w' base shard
          → Pushed w base shard (After (ok got, w')).0 (After (ok got, w')).1
      checked got w' g l = elim (Bool-cases (equal (hash sha got) (hash sha shard))) [
        | inl e ↦ simp e (record { grows = g; landed = λ _. l })
        | inr e ↦ simp e (record { grows = g; landed = λ n. cc })
      ]

      go :
          (o : Result Bytes × W)
          → download_shard net w url share (length shard) ≡ o
          → Pushed w base shard (After o).0 (After o).1
      go (err y, w') e = record {
        grows = rw (← ap (λ o. o.1) e) (download_shard-Grows w base share shard (length shard));
        landed = λ n. cc;
      }
      go (ok got, w') e =
          checked got w'
            (rw (← ap (λ o. o.1) e) (download_shard-Grows w base share shard (length shard)))
            (rw (← ap (λ o. o.1) e)
              (download_shard-Landed w base share shard got (length shard) (ap (λ o. o.0) e)))

  -- An upload that succeeds has put the shard into the store of the peer that it went to, and no
  -- store has lost a file by an upload, whether it succeeds or fails.
  pub push_shard-Pushed :
      (w : W) (p : Peer) (shard port share : Bytes)
      → let o = push_shard sha net w p shard port share in Pushed w (base_of p port) shard o.0 o.1
  unfolding push_shard
  push_shard-Pushed w p shard port share =
      let put = net.exchange w (text "PUT") url share shard in
      subst
        (λ url.
          let (r, w') = net.exchange w (text "PUT") url share shard in
          let o : Status × W = elim r [
            | no_reply ↦ (err (failed "put"), w')
            | reply code _ ↦
                if not (code == 201) && not (code == 200)
                then (err (failed "put"), w')
                else verify_remote sha net w' url share shard
          ] in
          Pushed w (base_of p port) shard o.0 o.1)
        (sym (shard_url-base p port (hash sha shard)))
        (go put.0 put.1
          (exchange-Grows w (base_of p port) (text "PUT") share shard shard (λ m. cc)))
    where
      url : Bytes
      url = base_of p port ++ (shards_prefix ++ hash sha shard)

      After : HttpReply → W → Status × W
      After r w' = elim r [
        | no_reply ↦ (err (failed "put"), w')
        | reply code _ ↦
            if not (code == 201) && not (code == 200)
            then (err (failed "put"), w')
            else verify_remote sha net w' url share shard
      ]

      go :
          (r : HttpReply) (w' : W)
          → Grows sha net mesh w w'
          → Pushed w (base_of p port) shard (After r w').0 (After r w').1
      go no_reply w' g = record { grows = g; landed = λ n. cc }
      go (reply code b) w' g = elim (Bool-cases (not (code == 201) && not (code == 200))) [
        | inl e ↦ simp e (record { grows = g; landed = λ n. cc })
        | inr e ↦
            let v = verify_remote-Pushed w' (base_of p port) share shard in
            simp e (record { grows = Grows-trans g v.grows; landed = v.landed })
      ]
