-- ===== src/LocalStore.antt =====
-- internal/localstore/localstore.go and lock.go: the shard store. Its directory holds a shard under
-- its hash, and the writer of a shard under the hash with `.writer` behind it. An operation is
-- one step here; Locking has the mutex and the advisory lock, and the system calls under them.
pub mod Cases
pub mod Integrity
pub mod Quota
pub mod Owners
pub mod Intact
pub mod View
pub mod Locking
use Prim.Native.String.{String}
use peertopeer.Prelude.{
  ℕ, ◌+◌, Bool, true, false, ◌&&◌, ◌||◌, not, Option, none, some, List, [], ◌∷◌,
}
use peertopeer.Prelude.{◌++◌, length, ltb, if◌then◌else◌, Result, Status, ok, err, Error, failed}
use peertopeer.Prelude.{invalid_hash, quota_exceeded, not_owner, not_exist}
use peertopeer.Prelude.Text.{Bytes, text, equal, is_empty}
use peertopeer.Prelude.Dict.{lookup, erase}
use peertopeer.AtomicFile.{Dir, Faults, temp_name, write_new}
use peertopeer.Digest.{Sha256, hash, valid_hash}

-- Which system calls of one operation fail, whether the error is `os.ErrNotExist`, and the random texts in its temporary names.
pub record Env : Type 0 where
  pub lock_fails : Bool
  pub mkdir_fails : Bool
  pub read_fails : Bool
  pub read_dir_fails : Bool
  pub shard_faults : Faults
  pub shard_tmp : Bytes
  pub owner_faults : Faults
  pub owner_tmp : Bytes
  pub remove_fails : Bool
  pub remove_owner_fails : Bool
  pub missing : Bool

-- The error of a system call, which says that a name is missing or something else. A missing file is no
-- error of the reads and of the first removal of a deletion.
unfoldable pub fault : Env → String → Error
fault env call = if env.missing then not_exist else failed call

abbrev pub owner_name : Bytes → Bytes
owner_name h = h ++ text ".writer"

-- `usage`: the sizes of the files whose names are hashes.
unfoldable pub usage : Dir → ℕ
usage [] = 0
usage ((name, content) ∷ d) =
    let rest = usage d in if valid_hash name then length content + rest else rest

-- `Usage`.
unfoldable pub usage_locked : Env → Dir → Result ℕ
unfolding usage
usage_locked env d =
    if env.lock_fails
    then err (fault env "lock")
    else if env.read_dir_fails
    then err (fault env "read directory")
    else ok (usage d)

-- The owner file is written after the shard; where that fails the shard is removed again, and
-- the error of that removal is discarded.
unfoldable pub record_owner : Env → Bytes → Bytes → Dir → Result Bytes × Dir
record_owner env h writer d =
    if is_empty writer
    then (ok h, d)
    else (let (r, d') =
          write_new env.owner_faults (temp_name env.owner_tmp) (owner_name h) writer d in
        elim r [
          | ok _ ↦ (ok h, d')
          | err _ ↦
              (err (fault env "write shard owner"), if env.remove_fails then d' else erase h d')
        ])

-- The store has no such shard yet. A quota of 0 is no quota; `len(shard) > quota - used` is over
-- signed numbers, and both sides have `used` added here.
unfoldable pub store_new : ℕ → Env → Bytes → Bytes → Bytes → Dir → Result Bytes × Dir
unfolding record_owner
store_new quota env h shard writer d =
    if env.read_dir_fails
    then (err (fault env "read directory"), d)
    else if ltb 0 quota && ltb quota (length shard + usage d)
    then (err quota_exceeded, d)
    else (let (r, d') = write_new env.shard_faults (temp_name env.shard_tmp) h shard d in
        elim r [
          | ok _ ↦ record_owner env h writer d'
          | err _ ↦ (err (fault env "write shard"), d')
        ])

module _ (sha : Sha256) where
  -- `PutOwned`.
  unfoldable pub put_owned : ℕ → Env → Bytes → Bytes → Dir → Result Bytes × Dir
  unfolding store_new
  put_owned quota env shard writer d =
      let h = hash sha shard in
      if env.lock_fails
      then (err (fault env "lock"), d)
      else if not (valid_hash h)
      then (err invalid_hash, d)
      else if env.mkdir_fails
      then (err (fault env "create store"), d)
      else if env.read_fails
      then (err (failed "read existing shard"), d)
      else elim (lookup h d) [
        | some existing ↦
            if equal (hash sha existing) h
            then (ok h, d)
            else (err (failed "existing shard hash mismatch"), d)
        | none ↦ store_new quota env h shard writer d
      ]

  -- `Put`.
  unfoldable pub put : ℕ → Env → Bytes → Dir → Result Bytes × Dir
  unfolding put_owned
  put quota env shard d = put_owned quota env shard [] d

  -- `Get`.
  unfoldable pub get : Bool → Bytes → Dir → Result Bytes
  get read_fails h d =
      if not (valid_hash h)
      then err invalid_hash
      else if read_fails
      then err (failed "read shard")
      else elim (lookup h d) [
        | none ↦ err not_exist
        | some content ↦
            if equal (hash sha content) h then ok content else err (failed "shard hash mismatch")
      ]

-- The two removals of `DeleteOwned`; the first may find no file.
unfoldable pub remove_owned : Env → Bytes → Dir → Status × Dir
remove_owned env h d =
    if env.remove_fails
    then (err (failed "remove shard"), d)
    else if env.remove_owner_fails
    then (err (fault env "remove owner"), erase h d)
    else (ok tt, erase (owner_name h) (erase h d))

-- `DeleteOwned`.
unfoldable pub delete_owned : Env → Bytes → Bytes → Dir → Status × Dir
unfolding remove_owned
delete_owned env h writer d =
    if not (valid_hash h)
    then (err invalid_hash, d)
    else if env.lock_fails
    then (err (fault env "lock"), d)
    else if env.read_fails
    then (err (failed "read owner"), d)
    else elim (lookup (owner_name h) d) [
      | none ↦ (err not_exist, d)
      | some owner ↦
          if is_empty writer || not (equal owner writer)
          then (err not_owner, d)
          else remove_owned env h d
    ]
