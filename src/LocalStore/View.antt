-- ===== src/LocalStore/View.antt =====
-- The store as its clients see it, a map from names to shards, and what the operations do to it.
use peertopeer.Prelude.{
  ◌≡◌, refl, sym, ◌∙◌, Bool, true, false, ◌||◌, not, Option, none, some, arith, if◌then◌else◌,
  Result, Status, ok,
}
use peertopeer.Prelude.{ℕ, Bool-cases, inl, inr, Option-cases}
use peertopeer.Prelude.Text.{Bytes, equal, equal_iff, is_empty}
use peertopeer.Prelude.Dict.{lookup, erase, lookup-cons, lookup-erase}
use peertopeer.AtomicFile.{Dir, Faults, temp_name}
use peertopeer.AtomicFile.Publish.{Left, Published, Written}
use peertopeer.Digest.{Sha256, hash, valid_hash, hash-valid}
use peertopeer.LocalStore.{Env, owner_name, put_owned, delete_owned}
use peertopeer.LocalStore.Cases.{Stored, PutOwned, put_owned-PutOwned}
use peertopeer.LocalStore.Quota.{owner_name-not_valid, temp_name-not_valid}

-- A map from the names of shards to their contents.
abbrev pub View : Type 0
View = Bytes → Option Bytes

-- The files whose names are hashes.
unfoldable pub view : Dir → View
view d h = if valid_hash h then lookup h d else none

-- What a content-addressed store may do: nothing, add a shard under its hash where there is none, or
-- remove a shard.
pub data Step (sha : Sha256) (v v' : View) : Type 0 where
  same : ((h : Bytes) → v' h ≡ v h) → Step sha v v'
  added :
      (s : Bytes)
      → v (hash sha s) ≡ none
      → ((h : Bytes) → v' h ≡ (if equal (hash sha s) h then some s else v h))
      → Step sha v v'
  removed : (k : Bytes) → ((h : Bytes) → v' h ≡ (if equal k h then none else v h)) → Step sha v v'

-- What is left of a temporary file is no shard.
view-Left :
    {f : Faults} {random : Bytes} {d d₀ : Dir}
    → Left f (temp_name random) d d₀
    → (h : Bytes) → view d₀ h ≡ view d h
unfolding view
view-Left (Left.removed e) h = rw e refl
view-Left {random} (Left.leftover content _ _ e) h =
    rw (e, lookup-cons) (ground (arith, temp_name-not_valid random, equal_iff (temp_name random) h))

view-Published :
    {path content : Bytes} {d d' : Dir}
    → valid_hash path ≡ true
    → Published path (ok content) d d'
    → (h : Bytes) → view d' h ≡ (if equal path h then some content else view d h)
unfolding view
view-Published {path} {content} {d} valid p h =
    rw (p.result, lookup-cons) (ground (arith, p.written, equal_iff path h))

view-Published_owner :
    {path content : Bytes} {d d' : Dir}
    → valid_hash path ≡ false
    → Published path (ok content) d d'
    → (h : Bytes) → view d' h ≡ view d h
unfolding view
view-Published_owner {path} {content} {d} other p h =
    rw (p.result, lookup-cons) (ground (arith, p.written, equal_iff path h))

view-Written :
    {f : Faults} {path content : Bytes} {d d' : Dir} {r : Status}
    → valid_hash path ≡ false
    → Written f path (ok content) d r d'
    → (h : Bytes) → view d' h ≡ view d h
view-Written other (Written.done _ p) h = view-Published_owner other p h
view-Written other (Written.unsynced _ _ p) h = view-Published_owner other p h
view-Written other (Written.unchanged _ e) h = rw e refl

view-erase :
    (k : Bytes) (d : Dir) (h : Bytes) → view (erase k d) h ≡ (if equal k h then none else view d h)
unfolding view
view-erase k d h = rw lookup-erase (ground arith)

view-none : (h : Bytes) (d : Dir) → lookup h d ≡ none → view d h ≡ none
unfolding view
view-none h d e = ground arith

module _ (sha : Sha256) (quota : ℕ) (env : Env) (shard writer : Bytes) (d : Dir) where
  add :
      {d₀ d' : Dir}
      → ((h : Bytes) → view d₀ h ≡ view d h)
      → Published (hash sha shard) (ok shard) d₀ d'
      → Step sha (view d) (view d')
  add {d₀} l p =
      added shard (sym (l (hash sha shard)) ∙ view-none (hash sha shard) d₀ p.fresh)
        (λ h. view-Published (hash-valid sha shard) p h ∙ ground (arith, l h))

  -- The record of an owner is no shard, and an upload that is undone has added none.
  undone :
      {d₀ d₁ : Dir} (d₂ : Dir) (b : Bool)
      → ((h : Bytes) → view d₀ h ≡ view d h)
      → Published (hash sha shard) (ok shard) d₀ d₁
      → ((h : Bytes) → view d₂ h ≡ view d₁ h)
      → Step sha (view d) (view (if b then d₂ else erase (hash sha shard) d₂))
  undone {d₀} d₂ true l p e =
      added shard (sym (l (hash sha shard)) ∙ view-none (hash sha shard) d₀ p.fresh)
        (λ h. e h ∙ view-Published (hash-valid sha shard) p h ∙ ground (arith, l h))
  undone {d₀} {d₁} d₂ false l p e = same (λ h. ground (
    arith,
    view-erase (hash sha shard) d₂ h,
    e h,
    l h,
    view-Published (hash-valid sha shard) p h,
    view-none (hash sha shard) d₀ p.fresh,
    equal_iff (hash sha shard) h,
  ))

  -- An upload is a step of a content-addressed store, whether it succeeds or fails.
  pub put_owned-Step : Step sha (view d) (view (put_owned sha quota env shard writer d).1)
  put_owned-Step = go (put_owned-PutOwned sha quota env shard writer d)
    where
      owner : valid_hash (owner_name (hash sha shard)) ≡ false
      owner = owner_name-not_valid (hash sha shard) (hash-valid sha shard)

      go :
          {r : Result Bytes} {d' : Dir}
          → PutOwned sha quota env shard writer d r d'
          → Step sha (view d) (view d')
      go (PutOwned.declined _ _ e) = same (λ h. rw e refl)
      go (PutOwned.present _ _ _ _ e) = same (λ h. rw e refl)
      go (PutOwned.absent n (Stored.refused _ _ e)) = same (λ h. rw e refl)
      go (PutOwned.absent n (Stored.unwritten _ l _ (Written.done _ p) _ _)) = add (view-Left l) p
      go (PutOwned.absent n (Stored.unwritten _ l _ (Written.unsynced _ _ p) _ _)) =
          add (view-Left l) p
      go (PutOwned.absent n (Stored.unwritten _ l _ (Written.unchanged _ e) _ _)) =
          same (λ h. rw e (view-Left l h))
      go (PutOwned.absent n (Stored.anonymous _ l _ p _ _)) = add (view-Left l) p
      go (PutOwned.absent n (Stored.owned _ d₁ _ l _ p l' q _)) =
          undone _ true (view-Left l) p (λ h. view-Published_owner owner q h ∙ view-Left l' h)
      go (PutOwned.absent n (Stored.unowned _ d₁ _ d₃ l _ p l' w _ _ e)) = rw e (
          undone d₃ env.remove_fails (view-Left l) p (λ h. view-Written owner w h ∙ view-Left l' h))

hidden : (d : Dir) (h : Bytes) → valid_hash h ≡ false → view d h ≡ none
unfolding view
hidden d h e = ground arith

-- What a deletion may leave: the directory, without the shard, or without its owner either.
data Deleted (h : Bytes) (d d' : Dir) : Type 0 where
  kept : d' ≡ d → Deleted h d d'
  half : d' ≡ erase h d → Deleted h d d'
  whole : valid_hash h ≡ true → d' ≡ erase (owner_name h) (erase h d) → Deleted h d d'

delete_owned-Deleted :
    (env : Env) (h writer : Bytes) (d : Dir) → Deleted h d (delete_owned env h writer d).1
unfolding delete_owned
delete_owned-Deleted env h writer d =
    elim (Bool-cases (not (valid_hash h) || env.lock_fails || env.read_fails)) [
      | inl bad ↦ kept (ground arith)
      | inr good ↦ elim (Option-cases (lookup (owner_name h) d)) [
        | inl missing ↦ kept (ground arith)
        | inr (owner, found) ↦
            elim (Bool-cases (is_empty writer || not (equal owner writer) || env.remove_fails)) [
              | inl bad ↦ kept (ground arith)
              | inr removes ↦ elim (Bool-cases env.remove_owner_fails) [
                | inl e ↦ half (ground arith)
                | inr e ↦ whole (ground arith) (ground arith)
              ]
            ]
      ]
    ]

-- A deletion is a step, too.
pub delete_owned-Step :
    (sha : Sha256) (env : Env) (h writer : Bytes) (d : Dir)
    → Step sha (view d) (view (delete_owned env h writer d).1)
delete_owned-Step sha env h writer d = go (delete_owned-Deleted env h writer d)
  where
    go : {d' : Dir} → Deleted h d d' → Step sha (view d) (view d')
    go (kept e) = same (λ k. rw e refl)
    go (half e) = rw e (removed h (view-erase h d))
    go (whole valid e) = rw e (
        removed h (λ k.
          view-erase (owner_name h) (erase h d) k
          ∙ ground (arith, owner_hidden k (owner_name-not_valid h valid), view-erase h d k)))
      where
        owner_hidden :
            (k : Bytes)
            → valid_hash (owner_name h) ≡ false
            → equal (owner_name h) k ≡ true
            → view (erase h d) k ≡ none
        owner_hidden k other e =
            hidden (erase h d) k (rw (← (equal_iff (owner_name h) k).0 e) other)
