-- ===== src/LocalStore/Integrity.antt =====
-- Shards are addressed by their content, and none is lost or replaced by an upload.
use peertopeer.Prelude.{ℕ, ◌≡◌, refl, Bool, false}
use peertopeer.Prelude.{none, some, arith}
use peertopeer.Prelude.{Result, ok}
use peertopeer.Prelude.Text.{Bytes, equal_iff, equal_refl}
use peertopeer.Prelude.Dict.{lookup, lookup-erase}
use peertopeer.AtomicFile.{Dir}
use peertopeer.AtomicFile.Publish.{Published-found, lookup-Left, lookup-Published, lookup-Written}
use peertopeer.Digest.{Sha256, hash, hash-valid}
use peertopeer.LocalStore.{Env, put_owned, get}
use peertopeer.LocalStore.Cases.{Stored, PutOwned, put_owned-PutOwned}

-- Data that a read returns has the hash that was asked for, whatever is in the directory.
pub get-hash :
    (sha : Sha256) (fails : Bool) (h content : Bytes) (d : Dir)
    → get sha fails h d ≡ ok content
    → hash sha content ≡ h
unfolding get
get-hash sha fails h content d e = ground (arith, equal_iff (hash sha content) h)

-- It is what the directory has under that name.
pub get-found :
    (sha : Sha256) (fails : Bool) (h content : Bytes) (d : Dir)
    → get sha fails h d ≡ ok content
    → lookup h d ≡ some content
unfolding get
get-found sha fails h content d e = ground arith

module _ (sha : Sha256) (quota : ℕ) (env : Env) (shard writer : Bytes) (d : Dir) where
  Stored-keeps :
      {r : Result Bytes} {d' : Dir} (k v : Bytes)
      → lookup (hash sha shard) d ≡ none
      → Stored quota env (hash sha shard) shard writer d r d'
      → lookup k d ≡ some v
      → lookup k d' ≡ some v
  Stored-keeps k v n (Stored.refused _ _ e) h = rw e h
  Stored-keeps k v n (Stored.unwritten _ l _ w _ _) h = lookup-Written w k v (lookup-Left l k v h)
  Stored-keeps k v n (Stored.anonymous _ l _ p _ _) h = lookup-Published p k v (lookup-Left l k v h)
  Stored-keeps k v n (Stored.owned _ _ _ l _ p l' q _) h =
      lookup-Published q k v (lookup-Left l' k v (lookup-Published p k v (lookup-Left l k v h)))
  Stored-keeps k v n (Stored.unowned _ d₁ d₂ d₃ l _ p l' w _ _ e) h =
      let k₁ = lookup-Published p k v (lookup-Left l k v h) in
      let k₃ = lookup-Written w k v (lookup-Left l' k v k₁) in
      rw e (ground (arith, k₃, lookup-erase k (hash sha shard) d₃, equal_iff (hash sha shard) k))

  -- An upload, whether it succeeds or fails and whichever system calls fail, keeps every file that
  -- the store already had, shards and owners alike.
  pub put_owned-keeps :
      (k v : Bytes)
      → lookup k d ≡ some v
      → lookup k (put_owned sha quota env shard writer d).1 ≡ some v
  put_owned-keeps k v h = go (put_owned-PutOwned sha quota env shard writer d)
    where
      go :
          {r : Result Bytes} {d' : Dir}
          → PutOwned sha quota env shard writer d r d'
          → lookup k d' ≡ some v
      go (PutOwned.declined _ _ e) = rw e h
      go (PutOwned.present _ _ _ _ e) = rw e h
      go (PutOwned.absent n s) = Stored-keeps k v n s h

  -- The file of the shard after an upload that succeeded.
  pub record Holds (r : Result Bytes) (d' : Dir) : Type 0 where
    pub content : Bytes
    pub same : hash sha content ≡ hash sha shard
    pub found : lookup (hash sha shard) d' ≡ some content

  pub put_owned-Holds :
      {r : Result Bytes} {d' : Dir} (h : Bytes)
      → PutOwned sha quota env shard writer d r d'
      → r ≡ ok h
      → (h ≡ hash sha shard) × Holds r d'
  put_owned-Holds h (PutOwned.declined _ e _) g = cc
  put_owned-Holds h (PutOwned.present c l s e e') g =
      (ground arith, record { content = c; same = s; found = rw e' l })
  put_owned-Holds h (PutOwned.absent n (Stored.refused _ e _)) g = cc
  put_owned-Holds h (PutOwned.absent n (Stored.unwritten _ _ _ _ _ e)) g = cc
  put_owned-Holds h (PutOwned.absent n (Stored.unowned _ _ _ _ _ _ _ _ _ _ e _)) g = cc
  put_owned-Holds h (PutOwned.absent n (Stored.anonymous _ _ _ p _ e)) g =
      (ground arith, record { content = shard; same = refl; found = Published-found p })
  put_owned-Holds h (PutOwned.absent n (Stored.owned _ _ _ _ _ p l q e)) g = (
    ground arith,
    record {
      content = shard;
      same = refl;
      found = lookup-Published q _ _ (lookup-Left l _ _ (Published-found p));
    },
  )

  -- After an upload that succeeded with the name `h`, a read of `h` returns the shard, as long as
  -- no other data has the shard's hash. The name is the shard's hash.
  pub get-put_owned :
      (h : Bytes)
      → ((s : Bytes) → hash sha s ≡ hash sha shard → s ≡ shard)
      → (put_owned sha quota env shard writer d).0 ≡ ok h
      → (h ≡ hash sha shard)
        × (get sha false h (put_owned sha quota env shard writer d).1 ≡ ok shard)
  unfolding get
  get-put_owned h unique e =
      let (name, holds) = put_owned-Holds h (put_owned-PutOwned sha quota env shard writer d) e in
      let content : holds.content ≡ shard = unique holds.content holds.same in
      (name, rw (name, hash-valid, holds.found, content, name, equal_refl))
