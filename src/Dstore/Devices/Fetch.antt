-- ===== src/Dstore/Devices/Fetch.antt =====
-- `fetchShard` of internal/dstore/dstore.go, from a device that has the shard.
use peertopeer.Prelude.{ℕ, ◌≡◌, refl, ◌≤◌, true, false, ◌++◌, arith, some, ok, length, [], ◌∷◌}
use peertopeer.Prelude.{Bool, ap, ◌∙◌, Result, err, if◌then◌else◌}
use peertopeer.Prelude.Text.{Bytes, text, equal, equal_refl, is_empty}
use peertopeer.Prelude.Dict.{lookup}
use peertopeer.AtomicFile.{Dir}
use peertopeer.Digest.{Sha256, hash, hash-valid}
use peertopeer.LocalStore
use peertopeer.LocalStore.{Env}
use peertopeer.Manifest.{ShardRef}
use peertopeer.ShardServer.{Response, full, shard, handle_get, shards_prefix}
use peertopeer.ShardServer.Content.{handle-get}
use peertopeer.Dstore.Transfer.{
  Net, reply, download_shard, downloaded, read_limited, fetch_shard, fetch_local,
}
use peertopeer.Dstore.Devices.{request, serve_at, IsMesh, IsReachable, OnDevice, Grows}
use peertopeer.Dstore.Devices.Push.{download_shard-Grows}

module _ (sha : Sha256) {W : Type 0} (net : Net W) (m : IsMesh sha net) (share : Bytes)
    (reachable : IsReachable sha net m share) where
  get-found_file :
      (content : Bytes) (fails : Bool) (d : Dir)
      → fails ≡ false
      → lookup (hash sha content) d ≡ some content
      → LocalStore.get sha fails (hash sha content) d ≡ ok content
  unfolding LocalStore.get
  get-found_file content fails d reads found =
      ground (arith, reads, found, hash-valid sha content, equal_refl (hash sha content))

  served :
      (w : W) (base content : Bytes) (env : Env)
      → env.read_fails ≡ false
      → lookup (hash sha content) (m.store w (m.device base)) ≡ some content
      → let site = m.site (m.device base) in
        (serve_at sha site env
          (request site (text "GET") (hash sha content) share [])
          (m.store w (m.device base))).0
        ≡ record { status = 200; answer = shard content }
  unfolding handle_get
  served w base content env reads found =
      let site = m.site (m.device base) in
      let h = hash sha content in
      let d = m.store w (m.device base) in
      let (caller, admitted) = reachable.admits (m.device base) h in
      let answer =
        handle-get sha site.options site.quota site.os site.arch env
          (request site (text "GET") h share []) d caller content admitted refl refl in
      ap (λ (o : Response × Dir). o.0) answer
      ∙ ground (arith, get-found_file content env.read_fails d reads found)

  answered :
      (w : W) (base content : Bytes)
      → lookup (hash sha content) (m.store w (m.device base)) ≡ some content
      → (net.exchange w (text "GET") (base ++ (shards_prefix ++ hash sha content)) share []).0
        ≡ reply 200 (full content)
  answered w base content found =
      let (env, reads, reaches) =
        reachable.answers w base (hash sha content) (hash-valid sha content) in
      reaches content (served w base content env reads found)

  -- What a download of a shard gives, and that no store has lost a file by it.
  pub record Got (w : W) (s : Bytes) (r : Result Bytes) (w' : W) : Type 0 where
    pub whole : r ≡ ok s
    pub grows : Grows sha net m w w'

  download_shard-Got :
      (w : W) (base content : Bytes) (max_bytes : ℕ)
      → lookup (hash sha content) (m.store w (m.device base)) ≡ some content
      → length content ≤ max_bytes
      → let url = base ++ (shards_prefix ++ hash sha content) in
        let o = download_shard net w url share max_bytes in Got w content o.0 o.1
  download_shard-Got w base content max_bytes found fits = record {
    whole =
        unfold download_shard in
        ap (downloaded (base ++ (shards_prefix ++ hash sha content)) max_bytes)
          (answered w base content found)
        ∙ unfold downloaded in unfold read_limited in ground arith;
    grows = download_shard-Grows sha net m w base share content max_bytes;
  }

  not_empty : (base s : Bytes) → is_empty (base ++ (shards_prefix ++ s)) ≡ false
  not_empty [] s = refl
  not_empty (c ∷ base) s = refl

  -- The same, for a reference.
  pub fetch_shard-Got :
      (w : W) (ref : ShardRef) (o : OnDevice sha net m w ref) (max_bytes : ℕ)
      (allow_local fails : Bool) (d : Dir)
      → length o.content ≤ max_bytes
      → let f = fetch_shard sha net allow_local fails d w ref share max_bytes in
        Got w o.content f.0 f.1
  unfolding fetch_shard
  fetch_shard-Got w ref o max_bytes allow_local fails d fits =
      let dl = download_shard-Got w o.base o.content max_bytes found fits in
      let whole : (download_shard net w ref.url share max_bytes).0 ≡ ok o.content =
        ap (λ u. (download_shard net w u share max_bytes).0) url ∙ dl.whole in
      let grows : Grows sha net m w (download_shard net w ref.url share max_bytes).1 =
        rw url dl.grows in
      let there : is_empty ref.url ≡ false =
        ap is_empty url ∙ not_empty o.base (hash sha o.content) in
      rw there (go _ _ whole grows)
    where
      url : ref.url ≡ o.base ++ (shards_prefix ++ hash sha o.content)
      url = rw o.same o.url

      found : lookup (hash sha o.content) (m.store w (m.device o.base)) ≡ some o.content
      found = rw o.same o.found

      After : Result Bytes → W → Result Bytes × W
      After r w' = elim r [
        | err _ ↦ (fetch_local sha net allow_local fails ref.hash d, w')
        | ok got ↦
            if equal (hash sha got) ref.hash
            then (ok got, w')
            else (fetch_local sha net allow_local fails ref.hash d, w')
      ]

      named : equal (hash sha o.content) ref.hash ≡ true
      named = rw o.same (equal_refl ref.hash)

      go :
          (r : Result Bytes) (w' : W)
          → r ≡ ok o.content
          → Grows sha net m w w'
          → Got w o.content (After r w').0 (After r w').1
      go r w' e g = rw (e, named) (record { whole = refl; grows = g })
