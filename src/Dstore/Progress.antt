-- ===== src/Dstore/Progress.antt =====
-- With devices that take what they are sent and a store without faults, the loop of `processFile`
-- comes to its end.
pub mod Loop
pub mod Success
use peertopeer.Prelude.{
  ℕ, zero, suc, ◌+◌, ◌≤◌, ◌<◌, ◌≡◌, ◌≢◌, refl, sym, ap, ◌∙◌, subst, Bool, true, false, ◌&&◌, not,
  arith, if◌then◌else◌,
}
use peertopeer.Prelude.{
  Option, none, some, List, [], ◌∷◌, ◌++◌, length, take, drop, length-take, length-drop, ltb, ◌==◌,
}
use peertopeer.Prelude.{Result, Status, ok, err, failed, ◌>>=◌, Bool-cases, inl, inr}
use peertopeer.Prelude.Text.{Bytes, text, equal, equal_iff, equal_refl}
use peertopeer.Prelude.Dict.{lookup, lookup-cons}
use peertopeer.AtomicFile.{Dir, Faults, temp_name, no_faults, write_new}
use peertopeer.AtomicFile.Publish.{Left-removed, write_new-clean, write_new-Attempted, Written-ok}
use peertopeer.LocalStore.Quota.{temp_name-not_valid}
use peertopeer.Digest.{Sha256, hash, valid_hash, hash-valid}
use peertopeer.LocalStore
use peertopeer.LocalStore.{Env, put, put_owned, store_new, record_owner}
use peertopeer.LocalStore.Intact.{IsIntact, put_owned-IsIntact}
use peertopeer.Manifest.{ShardRef, validate_shard_ref, validate_shard_refs}
use peertopeer.Peer.{Peer}
use peertopeer.ShardServer.{full, Body}
use peertopeer.Dstore.Transfer.{
  Net, HttpReply, reply, shard_url, push_shard, verify_remote, download_shard, downloaded,
  read_limited,
}
use peertopeer.Dstore.Process.{
  Config, Inputs, Run, store_shard, store_ref, after_push, place_shard, place_shards, make_ref,
  first_peer, other_peers, add_ref, push_port,
}

-- An operation on the store meets no fault, and its temporary name is none of a shard.
pub record IsCalm (env : Env) : Type 0 where
  pub lock : env.lock_fails ≡ false
  pub mkdir : env.mkdir_fails ≡ false
  pub read : env.read_fails ≡ false
  pub read_dir : env.read_dir_fails ≡ false
  pub faults : env.shard_faults ≡ no_faults

-- Devices take an upload, and give it back to the download that follows.
pub record IsReliable {W : Type 0} (net : Net W) : Type 0 where
  pub takes :
      (w : W) (url share body : Bytes)
      → (b : Body) × ((net.exchange w (text "PUT") url share body).0 ≡ reply 201 b)
  pub gives :
      (w : W) (url share body : Bytes)
      → let w' = (net.exchange w (text "PUT") url share body).1 in
        (net.exchange w' (text "GET") url share []).0 ≡ reply 200 (full body)

module _ (sha : Sha256) where
  -- The store is intact, and the temporary names are free.
  pub record Ready (x : Inputs) (d : Dir) : Type 0 where
    pub intact : IsIntact sha d
    pub free : (i : ℕ) → lookup (temp_name (x.env_at i).shard_tmp) d ≡ none

  module _ (x : Inputs) (calm : (i : ℕ) → IsCalm (x.env_at i)) (i : ℕ) (shard : Bytes) (d : Dir)
      (r : Ready x d) where
    abbrev h : Bytes
    h = hash sha shard

    not_tmp : (j : ℕ) → equal h (temp_name (x.env_at j).shard_tmp) ≡ false
    not_tmp j = elim (Bool-cases (equal h (temp_name (x.env_at j).shard_tmp))) [
      | inr e ↦ e
      | inl e ↦ cc (
        (equal_iff h (temp_name (x.env_at j).shard_tmp)).0 e,
        hash-valid sha shard,
        temp_name-not_valid (x.env_at j).shard_tmp,
      )
    ]

    tmp_not : (j : ℕ) → equal (temp_name (x.env_at j).shard_tmp) h ≡ false
    tmp_not j = ground (
      arith,
      not_tmp j,
      equal_iff h (temp_name (x.env_at j).shard_tmp),
      equal_iff (temp_name (x.env_at j).shard_tmp) h,
    )

    Ready-cons : (d' : Dir) → d' ≡ (h, shard) ∷ d → IsIntact sha d' → Ready x d'
    Ready-cons d' e i = record {
      intact = i;
      free = λ j. rw (e, lookup-cons) (ground (arith, not_tmp j, r.free j));
    }

    written :
        lookup h d ≡ none
        → let o =
            write_new (x.env_at i).shard_faults (temp_name (x.env_at i).shard_tmp) h shard d in
          (o.0 ≡ ok tt) × (o.1 ≡ (h, shard) ∷ d)
    written fresh =
        let e = x.env_at i in
        let done : (write_new e.shard_faults (temp_name e.shard_tmp) h shard d).0 ≡ ok tt =
          rw (calm i).faults
            (write_new-clean (temp_name e.shard_tmp) h shard d (r.free i) fresh (tmp_not i)) in
        let o = write_new-Attempted e.shard_faults (temp_name e.shard_tmp) h shard d in
        let p = Written-ok o.written done in
        let same = Left-removed o.left (rw (calm i).faults refl) in
        (done, ground (arith, p.result, p.written, same))

    stored : lookup h d ≡ none → store_new 0 (x.env_at i) h shard [] d ≡ (ok h, (h, shard) ∷ d)
    unfolding store_new record_owner
    stored fresh = let (done, result) = written fresh in simp ((calm i).read_dir, done, result) refl

    -- The store takes the shard.
    put-Ready : (d' : Dir) × (put sha 0 (x.env_at i) shard d ≡ (ok h, d')) × Ready x d'
    unfolding put put_owned
    put-Ready = go (lookup h d) refl
      where
        intact : (d' : Dir) → put sha 0 (x.env_at i) shard d ≡ (ok h, d') → IsIntact sha d'
        intact d' e =
            subst (λ (o : Result Bytes × Dir). IsIntact sha o.1) e
              (put_owned-IsIntact sha 0 (x.env_at i) shard [] d r.intact)

        go :
            (o : Option Bytes)
            → lookup h d ≡ o
            → (d' : Dir) × (put sha 0 (x.env_at i) shard d ≡ (ok h, d')) × Ready x d'
        go none l =
            let run : put sha 0 (x.env_at i) shard d ≡ (ok h, (h, shard) ∷ d) =
              simp ((calm i).lock, (calm i).mkdir, (calm i).read, hash-valid sha shard, l)
                (stored l) in
            ((h, shard) ∷ d, run, Ready-cons _ refl (intact _ run))
        go (some existing) l =
            let same : equal (hash sha existing) (hash sha shard) ≡ true =
              (equal_iff (hash sha existing) (hash sha shard)).1
                (r.intact.at_name h existing (hash-valid sha shard) l) in
            let run : put sha 0 (x.env_at i) shard d ≡ (ok h, d) =
              simp ((calm i).lock, (calm i).mkdir, (calm i).read, hash-valid sha shard, l, same)
                refl in
            (d, run, r)

module _ (sha : Sha256) (c : Config) {W : Type 0} (net : Net W) (x : Inputs)
    (calm : (i : ℕ) → IsCalm (x.env_at i)) (unlimited : c.quota_bytes ≡ 0)
    (reliable : IsReliable net) where
  verify_remote-ok :
      (w : W) (url share_id shard : Bytes)
      → (net.exchange w (text "GET") url share_id []).0 ≡ reply 200 (full shard)
      → (verify_remote sha net w url share_id shard).0 ≡ ok tt
  unfolding verify_remote download_shard downloaded read_limited
  verify_remote-ok w url share_id shard given =
      ap (λ r. (after (downloaded url (length shard) r)).0) given ∙ whole
    where
      w' : W
      w' = (net.exchange w (text "GET") url share_id []).1

      after : Result Bytes → Status × W
      after (err _) = (err (failed "verify remote shard"), w')
      after (ok got) =
          if equal (hash sha got) (hash sha shard)
          then (ok tt, w')
          else (err (failed "verify remote shard: hash mismatch"), w')

      whole : (after (downloaded url (length shard) (reply 200 (full shard)))).0 ≡ ok tt
      whole = ground (arith, equal_refl (hash sha shard))

  push_shard-ok :
      (w : W) (p : Peer) (shard port share_id : Bytes)
      → (push_shard sha net w p shard port share_id).0 ≡ ok tt
  unfolding push_shard
  push_shard-ok w p shard port share_id =
      let url = shard_url p port (hash sha shard) in
      let (b, taken) = reliable.takes w url share_id shard in
      ap (λ r. (after r).0) taken
      ∙ verify_remote-ok w' url share_id shard (reliable.gives w url share_id shard)
    where
      w' : W
      w' = (net.exchange w (text "PUT") (shard_url p port (hash sha shard)) share_id shard).1

      after : HttpReply → Status × W
      after HttpReply.no_reply = (err (failed "put"), w')
      after (reply code _) =
          if not (code == 201) && not (code == 200)
          then (err (failed "put"), w')
          else verify_remote sha net w' (shard_url p port (hash sha shard)) share_id shard

  -- The loop goes on with the store ready.
  record Placed (o : Result ShardRef × Run W) : Type 0 where
    ref : ShardRef
    made : o.0 ≡ ok ref
    valid : valid_hash ref.hash ≡ true
    ready : Ready sha x o.1.dir

  store_ref-Placed :
      (url peer_name shard : Bytes) (s : Run W)
      → Ready sha x s.dir
      → Placed (store_ref sha c net x url peer_name shard s)
  unfolding store_ref store_shard make_ref
  store_ref-Placed url peer_name shard s r =
      let (d', run, r') = put-Ready sha x calm s.puts shard s.dir r in
      let run' : put sha c.quota_bytes (x.env_at s.puts) shard s.dir ≡ (ok (hash sha shard), d') =
        rw unlimited run in
      subst (λ o. Placed (after o)) (sym run')
        (record {
          ref = make_ref sha c net url peer_name (hash sha shard);
          made = refl;
          valid = hash-valid sha shard;
          ready = r';
        })
    where
      after : Result Bytes × Dir → Result ShardRef × Run W
      after o =
          let stored : Status × Run W = (
            elim o.0 [ err _ ↦ err (failed "store shard") | ok _ ↦ ok tt ],
            record { world = s.world; dir = o.1; puts = s.puts + 1 },
          ) in
          (stored.0 >>= (λ _. ok (make_ref sha c net url peer_name (hash sha shard))), stored.1)

  place_shard-Placed :
      (p : Option Peer) (shard : Bytes) (s : Run W)
      → Ready sha x s.dir
      → Placed (place_shard sha c net x p shard s)
  unfolding place_shard after_push
  place_shard-Placed none shard s r = store_ref-Placed [] (text "local") shard s r
  place_shard-Placed (some p) shard s r =
      go _ _ (push_shard-ok s.world p shard (push_port sha c net p) c.policy.share_id)
    where
      go :
          (pushed : Status) (w : W)
          → pushed ≡ ok tt
          → Placed (after_push sha c net x p shard pushed (record s { world = w }))
      go (ok _) w e = store_ref-Placed _ _ shard _ r
      go (err _) w e = cc

  -- Each shard is placed.
  pub place_shards-ok :
      (shards : List Bytes) (peers : List Peer) (s : Run W)
      → Ready sha x s.dir
      → (refs : List ShardRef) × ((place_shards sha c net x shards peers s).0 ≡ ok refs)
        × (length refs ≡ length shards)
        × (validate_shard_refs refs ≡ ok tt)
        × Ready sha x (place_shards sha c net x shards peers s).1.dir
  unfolding place_shards validate_shard_refs validate_shard_ref
  place_shards-ok [] peers s r = ([], refl, refl, refl, r)
  place_shards-ok (shard ∷ shards) peers s r =
      let q = place_shard-Placed (first_peer peers) shard s r in
      let (refs, made, count, valid, ready) =
        place_shards-ok shards (other_peers peers)
          (place_shard sha c net x (first_peer peers) shard s).1 q.ready in
      go _ _ refs _ q.made made q.valid count valid ready
    where
      go :
          (p : Result ShardRef) (ref : ShardRef) (refs : List ShardRef)
          (rest : Result (List ShardRef) × Run W)
          → p ≡ ok ref
          → rest.0 ≡ ok refs
          → valid_hash ref.hash ≡ true
          → length refs ≡ length shards
          → validate_shard_refs refs ≡ ok tt
          → Ready sha x rest.1.dir
          → let o = add_ref p (place_shard sha c net x (first_peer peers) shard s).1 rest in
            (refs : List ShardRef) × (o.0 ≡ ok refs)
            × (length refs ≡ length (shard ∷ shards))
            × (validate_shard_refs refs ≡ ok tt)
            × Ready sha x o.1.dir
      go (err e) ref refs rest p q v count valid ready = cc
      go (ok ref) ref' refs rest p q v count valid ready =
          (ref ∷ refs, rw q refl, ap suc count, ground (arith, p, v, valid), ready)
