-- ===== src/LocalStore/Locking.antt =====
-- The locks of internal/localstore/localstore.go and lock.go as a machine of threads in several
-- processes, in which an operation is the sequence of its system calls on the directory, with a write by
-- WriteNew, which publishes in one call, as one of them. The threads
-- of one process share the mutex of its `Store`; the advisory lock is one for all of them.
pub mod Programs
pub mod Machine
pub mod Exclusion
pub mod Linear
pub mod Progress
use peertopeer.Prelude.{ℕ, ◌+◌, Bool, true, false, ◌&&◌, ◌||◌, not, ◌≡◌, ◌≢◌, List, [], ◌∷◌}
use peertopeer.Prelude.{
  none, some, length, ltb, ◌==◌, if◌then◌else◌, Result, Status, ok, err, failed,
}
use peertopeer.Prelude.{invalid_hash, quota_exceeded, not_owner, not_exist}
use peertopeer.Prelude.Text.{Bytes, equal, is_empty}
use peertopeer.Prelude.Dict.{lookup, erase}
use peertopeer.AtomicFile.{Dir, temp_name, write_new}
use peertopeer.Digest.{Sha256, hash, valid_hash}
use peertopeer.LocalStore.{Env, fault, owner_name, usage, usage_locked, put_owned, delete_owned}

pub data Outcome : Type 0 where
  put_result : Result Bytes → Outcome
  delete_result : Status → Outcome
  usage_result : Result ℕ → Outcome

-- System calls in their order: what one does to the directory, and how it goes on from what it saw.
pub data Program : Type 0 where
  done : Outcome → Program
  act : (Dir → Dir) → (Dir → Program) → Program

-- A program that runs undisturbed.
unfoldable pub finish : Program → Dir → Outcome × Dir
finish (done o) d = (o, d)
finish (act f k) d = finish (k d) (f d)

look : (Dir → Program) → Program
look k = act (λ d. d) k

-- A call of an operation, with the system calls that fail in it.
pub data Op : Type 0 where
  put : Env → Bytes → Bytes → Op
  delete : Env → Bytes → Bytes → Op
  usage_of : Env → Op

abbrev pub lock_fails : Op → Bool
lock_fails (put env _ _) = env.lock_fails
lock_fails (delete env _ _) = env.lock_fails
lock_fails (usage_of env) = env.lock_fails

-- `DeleteOwned` looks at the hash before it locks.
abbrev pub locks : Op → Bool
locks (put _ _ _) = true
locks (delete _ h _) = valid_hash h
locks (usage_of _) = true

-- The error of an operation that gets no lock.
abbrev pub lock_error : Op → Outcome
lock_error (put env _ _) = put_result (err (fault env "lock"))
lock_error (delete env _ _) = delete_result (err (fault env "lock"))
lock_error (usage_of env) = usage_result (err (fault env "lock"))

after_owner : Env → Bytes → Status → Program
after_owner env h (ok _) = done (put_result (ok h))
after_owner env h (err _) =
    act (λ d. if env.remove_fails then d else erase h d)
      (λ _. done (put_result (err (fault env "write shard owner"))))

write_owner : Env → Bytes → Bytes → Status → Program
unfolding after_owner
write_owner env h writer (err _) = done (put_result (err (fault env "write shard")))
write_owner env h writer (ok _) =
    if is_empty writer
    then done (put_result (ok h))
    else act (λ d. (write_new env.owner_faults (temp_name env.owner_tmp) (owner_name h) writer d).1)
        (λ d.
          after_owner env h
            (write_new env.owner_faults (temp_name env.owner_tmp) (owner_name h) writer d).0)

-- From the reading of the directory on, where the store has no such shard yet.
write_shard : ℕ → Env → Bytes → Bytes → Bytes → Dir → Program
unfolding write_owner
write_shard quota env h shard writer d =
    if env.read_dir_fails
    then done (put_result (err (fault env "read directory")))
    else if ltb 0 quota && ltb quota (length shard + usage d)
    then done (put_result (err quota_exceeded))
    else act (λ d. (write_new env.shard_faults (temp_name env.shard_tmp) h shard d).1)
        (λ d.
          write_owner env h writer
            (write_new env.shard_faults (temp_name env.shard_tmp) h shard d).0)

remove_files : Env → Bytes → Program
remove_files env h =
    act (λ d. if env.remove_fails then d else erase h d)
      (λ _.
        if env.remove_fails
        then done (delete_result (err (failed "remove shard")))
        else act (λ d. if env.remove_owner_fails then d else erase (owner_name h) d)
            (λ _. done (
              delete_result
                (if env.remove_owner_fails then err (fault env "remove owner") else ok tt))))

module _ (sha : Sha256) (quota : ℕ) where
  -- `PutOwned` under the locks.
  unfoldable pub put_program : Env → Bytes → Bytes → Program
  unfolding look write_shard
  put_program env shard writer =
      let h = hash sha shard in
      if not (valid_hash h)
      then done (put_result (err invalid_hash))
      else if env.mkdir_fails
      then done (put_result (err (fault env "create store")))
      else look (λ d.
        if env.read_fails
        then done (put_result (err (failed "read existing shard")))
        else elim (lookup h d) [
          | some existing ↦
              if equal (hash sha existing) h
              then done (put_result (ok h))
              else done (put_result (err (failed "existing shard hash mismatch")))
          | none ↦ look (write_shard quota env h shard writer)
        ])

  -- `DeleteOwned` under the locks.
  unfoldable pub delete_program : Env → Bytes → Bytes → Program
  unfolding look remove_files
  delete_program env h writer = look (λ d.
      if env.read_fails
      then done (delete_result (err (failed "read owner")))
      else elim (lookup (owner_name h) d) [
        | none ↦ done (delete_result (err not_exist))
        | some owner ↦
            if is_empty writer || not (equal owner writer)
            then done (delete_result (err not_owner))
            else remove_files env h
      ])

  -- `usage`, under the locks of `Usage`.
  unfoldable pub usage_program : Env → Program
  unfolding look
  usage_program env = look (λ d. done (
      usage_result (if env.read_dir_fails then err (fault env "read directory") else ok (usage d))))

  unfoldable pub program : Op → Program
  program (put env shard writer) = put_program env shard writer
  program (delete env h writer) = delete_program env h writer
  program (usage_of env) = usage_program env

  -- The operations in one step.
  unfoldable pub perform : Op → Dir → Outcome × Dir
  perform (put env shard writer) d =
      let (r, d') = put_owned sha quota env shard writer d in (put_result r, d')
  perform (delete env h writer) d =
      let (r, d') = delete_owned env h writer d in (delete_result r, d')
  perform (usage_of env) d = (usage_result (usage_locked env d), d)
