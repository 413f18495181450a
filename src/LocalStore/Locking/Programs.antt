-- ===== src/LocalStore/Locking/Programs.antt =====
-- The operations as their system calls, and in one step.
use peertopeer.Prelude.{ℕ, ◌≡◌, true, false, arith}
use peertopeer.AtomicFile.{Dir}
use peertopeer.Digest.{Sha256}
use peertopeer.LocalStore.{
  put_owned, delete_owned, usage_locked, store_new, record_owner, remove_owned,
}
use peertopeer.LocalStore.Locking.{
  Op, put, delete, usage_of, locks, lock_fails, lock_error, program, perform, finish, put_program,
  delete_program, usage_program, look, write_shard, write_owner, after_owner, remove_files,
}

module _ (sha : Sha256) (quota : ℕ) where
  -- An operation whose lock fails changes nothing.
  pub perform-lock_error :
      (op : Op) (d : Dir)
      → lock_fails op ≡ true
      → locks op ≡ true
      → perform sha quota op d ≡ (lock_error op, d)
  unfolding perform put_owned delete_owned usage_locked
  perform-lock_error (put env shard writer) d e l = ground (arith, e)
  perform-lock_error (delete env h writer) d e l = ground (arith, e, l)
  perform-lock_error (usage_of env) d e l = ground (arith, e)

  pub finish-program :
      (op : Op) (d : Dir)
      → lock_fails op ≡ false
      → locks op ≡ true
      → finish (program sha quota op) d ≡ perform sha quota op d
  unfolding finish program perform put_program delete_program usage_program put_owned delete_owned
      usage_locked store_new record_owner remove_owned look write_shard write_owner after_owner
      remove_files
  finish-program (put env shard writer) d e l = ground (arith, e)
  finish-program (delete env h writer) d e l = ground (arith, e, l)
  finish-program (usage_of env) d e l = ground (arith, e)
