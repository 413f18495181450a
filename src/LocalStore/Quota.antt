-- ===== src/LocalStore/Quota.antt =====
-- The quota bounds what uploads store.
use peertopeer.Prelude.{ℕ, ◌+◌, ◌≤◌, ◌<◌, ◌≡◌, refl, true, false}
use peertopeer.Prelude.{[], ◌∷◌, arith, if◌then◌else◌, Result, Status, ok}
use peertopeer.Prelude.{length, length-append}
use peertopeer.Prelude.Text.{Bytes, text}
use peertopeer.Prelude.Dict.{erase}
use peertopeer.AtomicFile.{Dir, Faults, temp_name}
use peertopeer.AtomicFile.Publish.{Left, Published, Written}
use peertopeer.Digest.{Sha256, hash, hex_decode, valid_hash, hash-valid}
use peertopeer.LocalStore.{Env, owner_name, usage, put_owned, delete_owned}
use peertopeer.LocalStore.Cases.{Stored, PutOwned, put_owned-PutOwned}

-- The file of an owner does not count, since its name is no hash.
pub owner_name-not_valid : (h : Bytes) → valid_hash h ≡ true → valid_hash (owner_name h) ≡ false
unfolding valid_hash
owner_name-not_valid h e = ground (arith, length-append h (text ".writer"))

-- Neither does a temporary file.
pub temp_name-not_valid : (random : Bytes) → valid_hash (temp_name random) ≡ false
unfolding valid_hash hex_decode
temp_name-not_valid random = ground arith

usage-erase : (k : Bytes) (d : Dir) → usage (erase k d) ≤ usage d
unfolding usage erase
usage-erase k [] = omega arith
usage-erase k ((j, v) ∷ d) = ground (arith, usage-erase k d)

usage-Published :
    {path content : Bytes} {d d' : Dir}
    → Published path (ok content) d d'
    → usage d' ≡ (if valid_hash path then length content + usage d else usage d)
unfolding usage
usage-Published {path} {content} {d} p = rw p.result (ground (arith, p.written))

usage-Left :
    {f : Faults} {random : Bytes} {d d₀ : Dir} → Left f (temp_name random) d d₀ → usage d₀ ≡ usage d
unfolding usage
usage-Left (Left.removed e) = rw e refl
usage-Left {random} (Left.leftover content _ _ e) = rw (e, temp_name-not_valid random) refl

usage-Written :
    {f : Faults} {path content : Bytes} {d d' : Dir} {r : Status} (bound : ℕ)
    → Written f path (ok content) d r d'
    → usage d ≤ bound
    → (if valid_hash path then length content + usage d else usage d) ≤ bound
    → usage d' ≤ bound
usage-Written bound (Written.done _ p) h h' = omega (arith, usage-Published p)
usage-Written bound (Written.unsynced _ _ p) h h' = omega (arith, usage-Published p)
usage-Written bound (Written.unchanged _ e) h h' = rw e h

module _ (quota : ℕ) (env : Env) (h shard writer : Bytes) (d : Dir) (limited : 0 < quota)
    (valid : valid_hash h ≡ true) where
  usage-Stored :
      {r : Result Bytes} {d' : Dir}
      → Stored quota env h shard writer d r d'
      → usage d ≤ quota
      → usage d' ≤ quota
  usage-Stored (Stored.refused _ _ e) u = rw e u
  usage-Stored (Stored.unwritten _ l fits w _ _) u =
      let same = usage-Left l in usage-Written quota w (omega arith) (ground arith)
  usage-Stored (Stored.anonymous _ l fits p _ _) u = ground (arith, usage-Published p, usage-Left l)
  usage-Stored (Stored.owned _ _ _ l fits p l' q _) u = ground (
    arith,
    usage-Published p,
    usage-Published q,
    usage-Left l,
    usage-Left l',
    owner_name-not_valid h valid,
  )
  usage-Stored (Stored.unowned _ d₁ d₂ d₃ l fits p l' w _ _ e) u =
      let u₂ : usage d₂ ≤ quota = ground (arith, usage-Published p, usage-Left l, usage-Left l') in
      let u₃ : usage d₃ ≤ quota = usage-Written quota w u₂ (rw (owner_name-not_valid h valid) u₂) in
      rw e (ground (arith, usage-erase h d₃))

-- With a quota, a store that keeps to it still does after an upload, whether the upload succeeds
-- or fails and whichever system calls fail.
pub usage-put_owned :
    (sha : Sha256) (quota : ℕ) (env : Env) (shard writer : Bytes) (d : Dir)
    → 0 < quota
    → usage d ≤ quota
    → usage (put_owned sha quota env shard writer d).1 ≤ quota
usage-put_owned sha quota env shard writer d limited u =
    go (put_owned-PutOwned sha quota env shard writer d)
  where
    go :
        {r : Result Bytes} {d' : Dir}
        → PutOwned sha quota env shard writer d r d'
        → usage d' ≤ quota
    go (PutOwned.declined _ _ e) = rw e u
    go (PutOwned.present _ _ _ _ e) = rw e u
    go (PutOwned.absent n s) =
        usage-Stored quota env (hash sha shard) shard writer d limited (hash-valid sha shard) s u

-- A deletion never adds to the usage.
pub usage-delete_owned :
    (env : Env) (h writer : Bytes) (d : Dir) → usage (delete_owned env h writer d).1 ≤ usage d
unfolding delete_owned
usage-delete_owned env h writer d =
    ground (arith, usage-erase h d, usage-erase (owner_name h) (erase h d))
