-- ===== src/LocalStore/Cases.antt =====
-- What an upload to the store may do, case by case.
use peertopeer.Prelude.{◌+◌, ◌≡◌, refl, ◌≢◌, inl, inr, true, false, ◌&&◌}
use peertopeer.Prelude.{ℕ, ltb, Bool-cases, Result-cases, Option, none, some}
use peertopeer.Prelude.{if◌then◌else◌, Result, Status, ok, err, Error, length}
use peertopeer.Prelude.Text.{Bytes, is_empty, equal, equal_iff}
use peertopeer.Prelude.Dict.{lookup, erase}
use peertopeer.AtomicFile.{Dir, temp_name, write_new}
use peertopeer.AtomicFile.Publish.{Left, Published, Written, write_new-Attempted, Written-ok}
use peertopeer.Digest.{Sha256, hash, hash-valid}
use peertopeer.LocalStore.{Env, fault, owner_name, usage, record_owner, store_new, put_owned}

-- The quota lets a shard in: there is no quota, or the shard fits beside what is there.
abbrev pub Fits : ℕ → Bytes → Dir → Type 0
Fits quota shard d = (ltb 0 quota && ltb quota (length shard + usage d)) ≡ false

module _ (quota : ℕ) (env : Env) (h shard writer : Bytes) (d : Dir) where
  -- What is left of the temporary file of the shard, and of the one of its owner.
  abbrev ShardLeft : Dir → Dir → Type 0
  ShardLeft = Left env.shard_faults (temp_name env.shard_tmp)

  abbrev OwnerLeft : Dir → Dir → Type 0
  OwnerLeft = Left env.owner_faults (temp_name env.owner_tmp)

  -- The store had no such shard.
  pub data Stored (r : Result Bytes) (d' : Dir) : Type 0 where
    refused : (e : Error) → r ≡ err e → d' ≡ d → Stored r d'
    unwritten :
        (d₀ : Dir) {s : Status}
        → ShardLeft d d₀
        → Fits quota shard d
        → Written env.shard_faults h (ok shard) d₀ s d'
        → s ≢ ok tt
        → r ≡ err (fault env "write shard")
        → Stored r d'
    anonymous :
        (d₀ : Dir)
        → ShardLeft d d₀
        → Fits quota shard d
        → Published h (ok shard) d₀ d'
        → is_empty writer ≡ true
        → r ≡ ok h
        → Stored r d'
    owned :
        (d₀ d₁ d₂ : Dir)
        → ShardLeft d d₀
        → Fits quota shard d
        → Published h (ok shard) d₀ d₁
        → OwnerLeft d₁ d₂
        → Published (owner_name h) (ok writer) d₂ d'
        → r ≡ ok h
        → Stored r d'
    unowned :
        (d₀ d₁ d₂ d₃ : Dir) {s : Status}
        → ShardLeft d d₀
        → Fits quota shard d
        → Published h (ok shard) d₀ d₁
        → OwnerLeft d₁ d₂
        → Written env.owner_faults (owner_name h) (ok writer) d₂ s d₃
        → s ≢ ok tt
        → r ≡ err (fault env "write shard owner")
        → d' ≡ (if env.remove_fails then d₃ else erase h d₃)
        → Stored r d'

  record_owner-Stored :
      (d₀ d₁ : Dir)
      → ShardLeft d d₀
      → Fits quota shard d
      → Published h (ok shard) d₀ d₁
      → let o = record_owner env h writer d₁ in Stored o.0 o.1
  unfolding record_owner
  record_owner-Stored d₀ d₁ left fits p = elim (Bool-cases (is_empty writer)) [
    | inl e ↦ simp e (anonymous d₀ left fits p e refl)
    | inr e ↦
        let w =
          write_new-Attempted env.owner_faults (temp_name env.owner_tmp) (owner_name h) writer d₁ in
        elim (Result-cases
          (write_new env.owner_faults (temp_name env.owner_tmp) (owner_name h) writer d₁).0) [
            | inl (_, good) ↦
                simp (e, good)
                  (owned d₀ d₁ w.base left fits p w.left (Written-ok w.written good) refl)
            | inr (x, bad) ↦
                simp (e, bad)
                  (unowned d₀ d₁ w.base _ left fits p w.left w.written (λ g. cc (g, bad)) refl refl)
          ]
  ]

  store_new-Stored : let o = store_new quota env h shard writer d in Stored o.0 o.1
  unfolding store_new
  store_new-Stored = elim (Bool-cases env.read_dir_fails) [
    | inl e ↦ simp e (refused _ refl refl)
    | inr e ↦ elim (Bool-cases (ltb 0 quota && ltb quota (length shard + usage d))) [
      | inl full ↦ simp (e, full) (refused _ refl refl)
      | inr fits ↦
          let w = write_new-Attempted env.shard_faults (temp_name env.shard_tmp) h shard d in
          elim (Result-cases (write_new env.shard_faults (temp_name env.shard_tmp) h shard d).0) [
            | inl (_, good) ↦
                simp (e, fits, good)
                  (record_owner-Stored w.base _ w.left fits (Written-ok w.written good))
            | inr (x, bad) ↦
                simp (e, fits, bad) (unwritten w.base w.left fits w.written (λ g. cc (g, bad)) refl)
          ]
    ]
  ]

module _ (sha : Sha256) (quota : ℕ) (env : Env) (shard writer : Bytes) (d : Dir) where
  pub data PutOwned (r : Result Bytes) (d' : Dir) : Type 0 where
    declined : (e : Error) → r ≡ err e → d' ≡ d → PutOwned r d'
    present :
        (content : Bytes)
        → lookup (hash sha shard) d ≡ some content
        → hash sha content ≡ hash sha shard
        → r ≡ ok (hash sha shard)
        → d' ≡ d
        → PutOwned r d'
    absent :
        lookup (hash sha shard) d ≡ none
        → Stored quota env (hash sha shard) shard writer d r d'
        → PutOwned r d'

  at_name :
      {o : Option Bytes}
      → lookup (hash sha shard) d ≡ o
      → env.lock_fails ≡ false
      → env.mkdir_fails ≡ false
      → env.read_fails ≡ false
      → let p = put_owned sha quota env shard writer d in PutOwned p.0 p.1
  unfolding put_owned
  at_name {o = none} l e₁ e₂ e₃ =
      simp (e₁, e₂, e₃, hash-valid, l)
        (absent l (store_new-Stored quota env (hash sha shard) shard writer d))
  at_name {o = some content} l e₁ e₂ e₃ =
      elim (Bool-cases (equal (hash sha content) (hash sha shard))) [
        | inl e ↦
            simp (e₁, e₂, e₃, hash-valid, l, e) (present content l ((equal_iff _ _).0 e) refl refl)
        | inr e ↦ simp (e₁, e₂, e₃, hash-valid, l, e) (declined _ refl refl)
      ]

  pub put_owned-PutOwned : let p = put_owned sha quota env shard writer d in PutOwned p.0 p.1
  unfolding put_owned
  put_owned-PutOwned = elim (Bool-cases env.lock_fails) [
    | inl e ↦ simp e (declined _ refl refl)
    | inr e₁ ↦ elim (Bool-cases env.mkdir_fails) [
      | inl e ↦ simp (e₁, e, hash-valid) (declined _ refl refl)
      | inr e₂ ↦ elim (Bool-cases env.read_fails) [
        | inl e ↦ simp (e₁, e₂, e, hash-valid) (declined _ refl refl)
        | inr e₃ ↦ at_name refl e₁ e₂ e₃
      ]
    ]
  ]
