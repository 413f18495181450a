-- ===== src/LocalStore/Owners.antt =====
-- Who may delete a shard, and what failed calls leave behind.
use peertopeer.Prelude.{ℕ, ◌≡◌, ◌≢◌, true, false, ◌||◌, arith, if◌then◌else◌}
use peertopeer.Prelude.{none, some, Result, ok, err, Error, length, ap}
use peertopeer.Prelude.{length-append, Bool-cases, Option-cases, inl, inr, [], ◌⊎◌, ◌∙◌}
use peertopeer.Prelude.Text.{Bytes, text, equal, equal_iff, equal_refl, is_empty}
use peertopeer.Prelude.Dict.{lookup, erase, lookup-erase, erase-absent}
use peertopeer.AtomicFile.{Dir}
use peertopeer.AtomicFile.Publish.{Left-removed, Published, Written, lookup-Left, lookup-Published}
use peertopeer.Digest.{Sha256, hash, hash-valid}
use peertopeer.LocalStore.{Env, owner_name, put_owned, delete_owned}
use peertopeer.LocalStore.Cases.{Stored, PutOwned, put_owned-PutOwned}

owner_name-ne : (h : Bytes) → equal (owner_name h) h ≡ false
owner_name-ne h = elim (Bool-cases (equal (owner_name h) h)) [
  | inr e ↦ e
  | inl e ↦
      let same : length (owner_name h) ≡ length h = ap length ((equal_iff _ _).0 e) in
      absurd (omega (arith, length-append h (text ".writer")))
]

ne-owner_name : (h : Bytes) → equal h (owner_name h) ≡ false
ne-owner_name h = ground (arith, owner_name-ne h, equal_iff h (owner_name h), equal_refl h)

-- A deletion that succeeds was asked for by the recorded owner, a named one. It removes the shard and
-- the record of its owner, and no other file.
pub delete_owned-ok :
    (env : Env) (h writer : Bytes) (d : Dir)
    → (delete_owned env h writer d).0 ≡ ok tt
    → (lookup (owner_name h) d ≡ some writer)
      × (is_empty writer ≡ false)
      × ((k : Bytes)
          → lookup k (delete_owned env h writer d).1
            ≡ (if equal h k || equal (owner_name h) k then none else lookup k d))
unfolding delete_owned
delete_owned-ok env h writer d e = elim (Option-cases (lookup (owner_name h) d)) [
  | inl missing ↦ ground arith
  | inr (owner, found) ↦ (
    ground (arith, equal_iff owner writer),
    ground arith,
    λ k. ground (arith, lookup-erase k (owner_name h) (erase h d), lookup-erase k h d),
  )
]

-- Any other caller is refused, and the directory is as before: an anonymous one, and one that is
-- not the recorded owner.
pub delete_owned-stranger :
    (env : Env) (h writer owner : Bytes) (d : Dir)
    → lookup (owner_name h) d ≡ some owner
    → (writer ≡ []) ⊎ (owner ≢ writer)
    → ((delete_owned env h writer d).0 ≢ ok tt) × ((delete_owned env h writer d).1 ≡ d)
unfolding delete_owned
delete_owned-stranger env h writer owner d found other =
    (λ e. ground (arith, equal_iff owner writer), ground (arith, equal_iff owner writer))

module _ (sha : Sha256) (quota : ℕ) (env : Env) (shard writer : Bytes) (d : Dir) where
  -- An upload that fails leaves the directory as it was, if no opening or synchronisation of the
  -- directory and no removal of a temporary file fails, and the store can remove the shard again.
  pub put_owned-error :
      (e : Error)
      → (env.shard_faults.open_dir || env.shard_faults.sync_dir) ≡ false
      → (env.owner_faults.open_dir || env.owner_faults.sync_dir) ≡ false
      → env.shard_faults.remove ≡ false
      → env.owner_faults.remove ≡ false
      → env.remove_fails ≡ false
      → (put_owned sha quota env shard writer d).0 ≡ err e
      → (put_owned sha quota env shard writer d).1 ≡ d
  put_owned-error e synced owner_synced clean owner_clean removes failure =
      go (put_owned-PutOwned sha quota env shard writer d) failure
    where
      undo :
          (d₀ d₁ : Dir)
          → Published (hash sha shard) (ok shard) d₀ d₁
          → erase (hash sha shard) d₁ ≡ d₀
      undo d₀ d₁ p = rw p.result (
          unfold erase in
          ground (arith, equal_refl (hash sha shard), erase-absent (hash sha shard) d₀ p.fresh))

      go :
          {r : Result Bytes} {d' : Dir}
          → PutOwned sha quota env shard writer d r d'
          → r ≡ err e
          → d' ≡ d
      go (PutOwned.declined _ _ s) f = s
      go (PutOwned.present _ _ _ _ s) f = s
      go (PutOwned.absent n (Stored.refused _ _ s)) f = s
      go (PutOwned.absent n (Stored.anonymous _ _ _ _ _ x)) f = cc
      go (PutOwned.absent n (Stored.owned _ _ _ _ _ _ _ _ x)) f = cc
      go (PutOwned.absent n (Stored.unwritten _ _ _ (Written.done x _) y _)) f = absurd (y x)
      go (PutOwned.absent n (Stored.unwritten _ _ _ (Written.unsynced _ x _) _ _)) f = cc
      go (PutOwned.absent n (Stored.unwritten _ l _ (Written.unchanged _ s) _ _)) f =
          s ∙ Left-removed l clean
      go (PutOwned.absent n (Stored.unowned _ _ _ _ _ _ _ _ (Written.done x _) y _ s)) f =
          absurd (y x)
      go (PutOwned.absent n (Stored.unowned _ _ _ _ _ _ _ _ (Written.unsynced _ x _) _ _ s)) f = cc
      go (PutOwned.absent n (Stored.unowned d₀ d₁ _ _ l _ p l' (Written.unchanged _ x) _ _ s)) f =
          s ∙ simp (removes, x, Left-removed l' owner_clean) (undo d₀ d₁ p) ∙ Left-removed l clean

  -- Where the record of an owner stands without its shard, no named writer can upload the shard again.
  put_owned-orphan :
      (owner h : Bytes)
      → lookup (hash sha shard) d ≡ none
      → lookup (owner_name (hash sha shard)) d ≡ some owner
      → is_empty writer ≡ false
      → (put_owned sha quota env shard writer d).0 ≢ ok h
  put_owned-orphan owner h absent orphan named =
      go (put_owned-PutOwned sha quota env shard writer d)
    where
      go : {r : Result Bytes} {d' : Dir} → PutOwned sha quota env shard writer d r d' → r ≢ ok h
      go (PutOwned.declined _ x _) f = cc
      go (PutOwned.present _ x _ _ _) f = cc
      go (PutOwned.absent n (Stored.refused _ x _)) f = cc
      go (PutOwned.absent n (Stored.unwritten _ _ _ _ _ x)) f = cc
      go (PutOwned.absent n (Stored.unowned _ _ _ _ _ _ _ _ _ _ x _)) f = cc
      go (PutOwned.absent n (Stored.anonymous _ _ _ _ x _)) f = cc
      go (PutOwned.absent n (Stored.owned _ _ _ l _ p l' q _)) f =
          let o = owner_name (hash sha shard) in
          let kept = lookup-Published p o owner (lookup-Left l o owner orphan) in
          cc (lookup-Left l' o owner kept, q.fresh)

-- When a deletion removes a shard and then fails to remove the record of its owner, the shard is
-- gone, and no named writer can upload it again, whatever happens in the upload.
pub delete_owned-half :
    (sha : Sha256) (env later : Env) (quota : ℕ) (shard owner writer h : Bytes) (d : Dir)
    → lookup (owner_name (hash sha shard)) d ≡ some owner
    → is_empty owner ≡ false
    → (env.lock_fails || env.read_fails || env.remove_fails) ≡ false
    → env.remove_owner_fails ≡ true
    → is_empty writer ≡ false
    → (lookup (hash sha shard) (delete_owned env (hash sha shard) owner d).1 ≡ none)
      × ((put_owned sha quota later shard writer (delete_owned env (hash sha shard) owner d).1).0
          ≢ ok h)
delete_owned-half sha env later quota shard owner writer h d found known good bad named =
    (gone, put_owned-orphan sha quota later shard writer _ owner h gone kept named)
  where
    name : Bytes
    name = hash sha shard

    result : (delete_owned env name owner d).1 ≡ erase name d
    result = unfold delete_owned in ground (arith, hash-valid sha shard, equal_refl owner)

    gone : lookup name (delete_owned env name owner d).1 ≡ none
    gone = rw (result, lookup-erase, equal_refl)

    kept : lookup (owner_name name) (delete_owned env name owner d).1 ≡ some owner
    kept = rw (result, lookup-erase) (ground (arith, ne-owner_name name))
