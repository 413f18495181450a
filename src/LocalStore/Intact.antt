-- ===== src/LocalStore/Intact.antt =====
-- Every file that is named like a hash has that hash, after any operations.
use peertopeer.Prelude.{ℕ, ◌≡◌, refl, Bool, true, false, some, arith, if◌then◌else◌}
use peertopeer.Prelude.{Result, Status, ok}
use peertopeer.Prelude.Text.{Bytes, equal, equal_iff}
use peertopeer.Prelude.Dict.{lookup, erase, lookup-cons, lookup-erase}
use peertopeer.AtomicFile.{Dir, Faults, temp_name}
use peertopeer.AtomicFile.Publish.{Left, Published, Written}
use peertopeer.Digest.{Sha256, hash, valid_hash, hash-valid}
use peertopeer.LocalStore.{Env, owner_name, put_owned, delete_owned}
use peertopeer.LocalStore.Cases.{Stored, PutOwned, put_owned-PutOwned}
use peertopeer.LocalStore.Quota.{owner_name-not_valid, temp_name-not_valid}

-- A deletion touches the shard and the record of its owner alone.
pub delete_owned-keeps :
    (env : Env) (h writer k v : Bytes) (d : Dir)
    → equal h k ≡ false
    → equal (owner_name h) k ≡ false
    → lookup k d ≡ some v
    → lookup k (delete_owned env h writer d).1 ≡ some v
unfolding delete_owned
delete_owned-keeps env h writer k v d n₁ n₂ e =
    ground (arith, lookup-erase k h d, lookup-erase k (owner_name h) (erase h d))

module _ (sha : Sha256) where
  pub record IsIntact (d : Dir) : Type 0 where
    pub at_name :
        (h content : Bytes) → valid_hash h ≡ true → lookup h d ≡ some content → hash sha content ≡ h

  Published-IsIntact :
      {path content : Bytes} {d d' : Dir}
      → IsIntact d
      → (valid_hash path ≡ true → hash sha content ≡ path)
      → Published path (ok content) d d'
      → IsIntact d'
  Published-IsIntact {path} {content} {d} i new p = record {
    at_name = λ h c v.
        rw (p.result, lookup-cons)
          (λ e. ground (arith, p.written, i.at_name h c v, new, equal_iff path h));
  }

  Left-IsIntact :
      {f : Faults} {random : Bytes} {d d₀ : Dir}
      → IsIntact d
      → Left f (temp_name random) d d₀
      → IsIntact d₀
  Left-IsIntact i (Left.removed e) = rw e i
  Left-IsIntact {random} i (Left.leftover content _ _ e) = record {
    at_name = λ h c v.
        rw (e, lookup-cons)
          (λ found.
            ground
              (arith, i.at_name h c v, temp_name-not_valid random, equal_iff (temp_name random) h));
  }

  Written-IsIntact :
      {f : Faults} {path content : Bytes} {d d' : Dir} {r : Status}
      → IsIntact d
      → (valid_hash path ≡ true → hash sha content ≡ path)
      → Written f path (ok content) d r d'
      → IsIntact d'
  Written-IsIntact i new (Written.done _ p) = Published-IsIntact i new p
  Written-IsIntact i new (Written.unsynced _ _ p) = Published-IsIntact i new p
  Written-IsIntact i new (Written.unchanged _ e) = rw e i

  erase-IsIntact : {d : Dir} (k : Bytes) → IsIntact d → IsIntact (erase k d)
  erase-IsIntact {d} k i = record {
    at_name = λ h c v. rw lookup-erase (λ e. i.at_name h c v (ground arith));
  }

  -- An upload keeps the store intact, whether it succeeds or fails and whichever system calls fail.
  pub put_owned-IsIntact :
      (quota : ℕ) (env : Env) (shard writer : Bytes) (d : Dir)
      → IsIntact d
      → IsIntact (put_owned sha quota env shard writer d).1
  put_owned-IsIntact quota env shard writer d i =
      go (put_owned-PutOwned sha quota env shard writer d)
    where
      named :
          valid_hash (owner_name (hash sha shard)) ≡ true
          → hash sha writer ≡ owner_name (hash sha shard)
      named v = cc (v, owner_name-not_valid (hash sha shard) (hash-valid sha shard))

      go : {r : Result Bytes} {d' : Dir} → PutOwned sha quota env shard writer d r d' → IsIntact d'
      go (PutOwned.declined _ _ e) = rw e i
      go (PutOwned.present _ _ _ _ e) = rw e i
      go (PutOwned.absent n (Stored.refused _ _ e)) = rw e i
      go (PutOwned.absent n (Stored.unwritten _ l _ w _ _)) =
          Written-IsIntact (Left-IsIntact i l) (λ v. refl) w
      go (PutOwned.absent n (Stored.anonymous _ l _ p _ _)) =
          Published-IsIntact (Left-IsIntact i l) (λ v. refl) p
      go (PutOwned.absent n (Stored.owned _ _ _ l _ p l' q _)) =
          let i₁ = Published-IsIntact (Left-IsIntact i l) (λ v. refl) p in
          Published-IsIntact (Left-IsIntact i₁ l') named q
      go (PutOwned.absent n (Stored.unowned _ d₁ d₂ d₃ l _ p l' w _ _ e)) =
          let i₁ = Published-IsIntact (Left-IsIntact i l) (λ v. refl) p in
          let i₃ = Written-IsIntact (Left-IsIntact i₁ l') named w in
          rw e (undone d₃ i₃ env.remove_fails)
        where
          undone :
              (d₂ : Dir)
              → IsIntact d₂
              → (b : Bool) → IsIntact (if b then d₂ else erase (hash sha shard) d₂)
          undone d₂ i₂ true = i₂
          undone d₂ i₂ false = erase-IsIntact (hash sha shard) i₂

  -- So does a deletion.
  pub delete_owned-IsIntact :
      (env : Env) (h writer : Bytes) (d : Dir)
      → IsIntact d
      → IsIntact (delete_owned env h writer d).1
  unfolding delete_owned
  delete_owned-IsIntact env h writer d i = record {
    at_name = λ k c v e.
        ground
          (arith, lookup-erase k h d, lookup-erase k (owner_name h) (erase h d), i.at_name k c v);
  }
