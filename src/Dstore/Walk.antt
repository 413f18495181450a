-- ===== src/Dstore/Walk.antt =====
-- `filepath.WalkDir` over a tree of files as it stands when each directory is read. The runs that the
-- program makes inside a walk write beside the file that they are at, or outside the tree, so that no
-- later reading of a directory meets what they wrote.
use peertopeer.Prelude.{ℕ, Bool, Option, none, some}
use peertopeer.Prelude.{Error, Result, ok, err}
use peertopeer.Prelude.Text.{Bytes}
use peertopeer.FilePath.{join_path}

-- What `Lstat` tells of a file: whether it is a regular one, its identity, its size and its time.
pub record FileInfo : Type 0 where
  pub regular : Bool
  pub id : ℕ
  pub size : ℕ
  pub mod_time : ℕ

mutual
  pub data Tree : Type 0 where
    file : FileInfo → Tree
    folder : Entries → Tree
    unreadable : Error → Tree

  -- The entries of a directory, in the order of their names.
  pub data Entries : Type 0 where
    end : Entries
    entry : Bytes → Tree → Entries → Entries

-- What the callback is called with: a file, a directory, or the error of reading one.
pub data Visit : Type 0 where
  at_file : FileInfo → Visit
  at_folder : Visit
  at_error : Error → Visit

-- What the callback answers: nil, `filepath.SkipDir`, or another error. The program's callbacks answer
-- `skip` only at a directory.
pub data Verdict : Type 0 where
  proceed skip : Verdict
  stop : Error → Verdict

abbrev pub ended : Verdict → Option Error
ended proceed = none
ended skip = none
ended (stop e) = some e

module _ {S : Type 0} (visit : Bytes → Bytes → Visit → S → Verdict × S) where
  -- The walk from a path, with the name of its entry. The first error ends it.
  unfoldable mutual
    pub walk : Bytes → Bytes → Tree → S → Option Error × S
    walk path name (file info) s = let (v, s') = visit path name (at_file info) s in (ended v, s')
    walk path name (unreadable e) s =
        let (v, s') = visit path name at_folder s in
        let (v', s'') = visit path name (at_error e) s' in
        elim v [ proceed ↦ (ended v', s'') | skip ↦ (none, s') | stop e' ↦ (some e', s') ]
    walk path name (folder entries) s =
        let (v, s') = visit path name at_folder s in
        elim v [
          | proceed ↦ walk_entries path entries s'
          | skip ↦ (none, s')
          | stop e ↦ (some e, s')
        ]

    pub walk_entries : Bytes → Entries → S → Option Error × S
    walk_entries path end s = (none, s)
    walk_entries path (entry name tree entries) s =
        let (e, s') = walk (join_path path name) name tree s in
        elim e [ none ↦ walk_entries path entries s' | some e ↦ (some e, s') ]

  -- The walk of a root; `Lstat` may fail on it.
  unfoldable pub walk_dir : Bytes → Bytes → Result Tree → S → Option Error × S
  walk_dir root name (err e) s = let (v, s') = visit root name (at_error e) s in (ended v, s')
  walk_dir root name (ok tree) s = walk root name tree s

  -- What every call of the callback keeps, the walk keeps.
  module _ {κ} (P : S → Type κ)
      (keep : (path name : Bytes) (v : Visit) (s : S) → P s → P (visit path name v s).1) where
    after_verdict :
        (v : Verdict) (o : Option Error × S) (s : S)
        → P o.1
        → P s
        → let o' : Option Error × S = elim v [
          | proceed ↦ o
          | skip ↦ (none, s)
          | stop e ↦ (some e, s)
        ] in
          P o'.1
    after_verdict proceed o s h g = h
    after_verdict skip o s h g = g
    after_verdict (stop e) o s h g = g

    after_entry :
        (e : Option Error) (o : Option Error × S) (s : S)
        → P o.1
        → P s
        → let o' : Option Error × S = elim e [ none ↦ o | some e ↦ (some e, s) ] in P o'.1
    after_entry none o s h g = h
    after_entry (some e) o s h g = g

    mutual
      unfolding walk walk_entries

      walk-keeps : (path name : Bytes) (tree : Tree) (s : S) → P s → P (walk path name tree s).1
      walk-keeps path name (file info) s h = keep path name (at_file info) s h
      walk-keeps path name (unreadable e) s h =
          let g = keep path name at_folder s h in
          after_verdict (visit path name at_folder s).0 _ _ (keep path name (at_error e) _ g) g
      walk-keeps path name (folder entries) s h =
          let g = keep path name at_folder s h in
          after_verdict (visit path name at_folder s).0 _ _ (walk_entries-keeps path entries _ g) g

      walk_entries-keeps :
          (path : Bytes) (entries : Entries) (s : S) → P s → P (walk_entries path entries s).1
      walk_entries-keeps path end s h = h
      walk_entries-keeps path (entry name tree entries) s h =
          let g = walk-keeps (join_path path name) name tree s h in
          after_entry (walk (join_path path name) name tree s).0 _ _
            (walk_entries-keeps path entries _ g) g

    pub walk_dir-keeps :
        (root name : Bytes) (tree : Result Tree) (s : S) → P s → P (walk_dir root name tree s).1
    unfolding walk_dir
    walk_dir-keeps root name (err e) s h = keep root name (at_error e) s h
    walk_dir-keeps root name (ok tree) s h = walk-keeps root name tree s h
