-- ===== src/Dstore/Paths/Laws.antt =====
-- What adding and restoring a tree do to the files that are there.
use mathlib.Core.List.{Memᴰ}
use mathlib.Core.List.Memᴰ
use peertopeer.Prelude.{◌≡◌, refl, sym, subst, Bool, true, ◌||◌, inl, inr, Bool-cases}
use peertopeer.Prelude.{Option, none, some, ◌++◌}
use peertopeer.Prelude.{Result, ok, err}
use peertopeer.Prelude.Text.{Bytes, has_suffix}
use peertopeer.Prelude.Dict.{lookup}
use peertopeer.Prelude.Split.{trim_suffix}
use peertopeer.FilePath.{rel, join_path, path_within}
use peertopeer.Manifest.Path.{base}
use peertopeer.AtomicFile.{Dir}
use peertopeer.Digest.{Sha256}
use peertopeer.Erasure.{ReedSolomon}
use peertopeer.CryptoFile.{Aead}
use peertopeer.Manifest.{Manifest, Json, marshal}
use peertopeer.Dstore.Placement.{Mesh}
use peertopeer.Dstore.Transfer.{Net}
use peertopeer.Dstore.Process.{Config, Inputs, Run}
use peertopeer.Dstore.Pipeline.{process_file, stub_extension}
use peertopeer.Dstore.Original.{process_file-keeps, process_file-stub_found}
use peertopeer.Dstore.Restore.{RestoreInputs}
use peertopeer.Dstore.Kept.{restore_file-keeps}
use peertopeer.Dstore.Walk.{
  FileInfo, Tree, Visit, at_file, at_folder, at_error, Verdict, walk_dir-keeps,
}
use peertopeer.Dstore.Paths.{
  Surroundings, ProcessResult, Added, is_dir, visit_entry, visit, added, add_file, add_entry,
  add_tree, add_resolved, add_path, Restored, restored_one, restore_entry, restore_directory,
}

module _ {S : Type 0} (y : Surroundings) (root target : Bytes)
    (at : Bytes → Bytes → FileInfo → S → Verdict × S) (P : S → Type 0)
    (keep : (path r : Bytes) (info : FileInfo) (s : S) → P s → P (at path r info s).1) where
  -- What the callback for files keeps, both walks keep.
  visit_entry-keeps :
      (v : Visit) (path : Bytes) (r : Option Bytes) (s : S)
      → P s
      → P (visit_entry y root target at v path r s).1
  unfolding visit_entry
  visit_entry-keeps (at_error e) path r s h = h
  visit_entry-keeps at_folder path none s h = h
  visit_entry-keeps (at_file info) path none s h = h
  visit_entry-keeps at_folder path (some r) s h = elim (Bool-cases (y.cancelled path at_folder)) [
    | inl e ↦ simp e h
    | inr e ↦ elim (Bool-cases (y.mkdir_fails (join_path target r))) [
      | inl f ↦ simp (e, f) h
      | inr f ↦ simp (e, f) h
    ]
  ]
  visit_entry-keeps (at_file info) path (some r) s h =
      elim (Bool-cases (y.cancelled path (at_file info))) [
        | inl e ↦ simp e h
        | inr e ↦ simp e (keep path r info s h)
      ]

  visit-keeps :
      (path name : Bytes) (v : Visit) (s : S) → P s → P (visit y root target at path name v s).1
  unfolding visit
  visit-keeps path name v s h = visit_entry-keeps v path (rel root path) s h

module _ (sha : Sha256) (c : Config) {W : Type 0} (net : Net W) (a : Aead) (rs : ReedSolomon)
    (json : Json) (inputs : Bytes → Inputs) (mesh : Bytes → Mesh) (y : Surroundings) where
  -- Every file is as it was, and each result names a stub that holds its manifest.
  pub record Kept (before : Dir) (s : Added W) : Type 0 where
    pub stays : (k v : Bytes) → lookup k before ≡ some v → lookup k s.files ≡ some v
    pub stubs :
        (q : ProcessResult)
        → Memᴰ q s.results
        → lookup q.stub_path s.files ≡ some (marshal json q.manifest)

  add_file-Kept :
      (before : Dir) (path stub : Bytes) (s : Added W)
      → Kept before s
      → Kept before (add_file sha c net a rs json inputs mesh y path stub s).1
  unfolding add_file added
  add_file-Kept before path stub s h =
      go
        (process_file sha (record c { keep_original = true }) net a rs (inputs path) json
          (mesh path) path stub s.run s.files)
        keeps found
    where
      c' : Config
      c' = record c { keep_original = true }

      o : Result Manifest × Run W × Dir
      o = process_file sha c' net a rs (inputs path) json (mesh path) path stub s.run s.files

      keeps : (k v : Bytes) → lookup k s.files ≡ some v → lookup k o.2 ≡ some v
      keeps k v f =
          process_file-keeps sha c' net a rs (inputs path) json path stub (mesh path) s.run s.files
            k v (inl refl) f

      found : (m : Manifest) → o.0 ≡ ok m → lookup stub o.2 ≡ some (marshal json m)
      found m f =
          process_file-stub_found sha c' net a rs (inputs path) json path stub (mesh path) s.run
            s.files m refl f

      go :
          (o : Result Manifest × Run W × Dir)
          → ((k v : Bytes) → lookup k s.files ≡ some v → lookup k o.2 ≡ some v)
          → ((m : Manifest) → o.0 ≡ ok m → lookup stub o.2 ≡ some (marshal json m))
          → Kept before (added sha c net a rs json inputs mesh y path stub s o).1
      go (err e, _, files) keeps found = record {
        stays = λ k v f. keeps k v (h.stays k v f);
        stubs = λ q mem. keeps q.stub_path _ (h.stubs q mem);
      }
      go (ok m, _, files) keeps found = record {
        stays = λ k v f. keeps k v (h.stays k v f);
        stubs = λ q mem. elim (Memᴰ.append_cases s.results mem) [
          | inl before ↦ keeps q.stub_path _ (h.stubs q before)
          | inr last ↦
              subst
                (λ (p : ProcessResult). lookup p.stub_path files ≡ some (marshal json p.manifest))
                (sym (Memᴰ.eq_of_singleton last)) (found m refl)
        ];
      }

  add_entry-Kept :
      (before : Dir) (target path r : Bytes) (info : FileInfo) (s : Added W)
      → Kept before s
      → Kept before (add_entry sha c net a rs json inputs mesh y target path r info s).1
  unfolding add_entry
  add_entry-Kept before target path r info s h = elim (Bool-cases info.regular) [
    | inl e ↦ simp e (add_file-Kept before path _ s h)
    | inr e ↦ simp e h
  ]

  add_tree-Kept :
      (before : Dir) (source name target : Bytes) (tree : Tree) (s : Added W)
      → Kept before s
      → Kept before (add_tree sha c net a rs json inputs mesh y source name target tree s).1
  unfolding add_tree
  add_tree-Kept before source name target tree s h = elim (Bool-cases (y.mkdir_fails target)) [
    | inl e ↦ simp e h
    | inr e ↦ simp e (
        walk_dir-keeps (visit y source target (add_entry sha c net a rs json inputs mesh y target))
          (Kept before) (visit-keeps y source target _ (Kept before) (add_entry-Kept before target))
          source name (ok tree) s h)
  ]

  add_resolved-Kept :
      (before : Dir) (source library : Bytes) (tree : Result Tree) (s : Added W)
      → Kept before s
      → Kept before (add_resolved sha c net a rs json inputs mesh y source library tree s).1
  unfolding add_resolved
  add_resolved-Kept before source library (err e) s h = h
  add_resolved-Kept before source library (ok tree) s h =
      let target = join_path library (base source) in
      elim (Bool-cases (path_within source library || path_within library source)) [
        | inl e ↦ rw e h
        | inr e ↦ elim (Bool-cases (is_dir tree)) [
          | inl f ↦ rw (e, f) (add_tree-Kept before source (base source) target tree s h)
          | inr f ↦ rw (e, f) (add_file-Kept before source (target ++ stub_extension) s h)
        ]
      ]

  -- Adding a tree or a file changes and removes no file that was there, wherever it fails, and each
  -- result that it returns, also beside an error, names a stub that holds the result's manifest.
  pub add_path-Kept :
      (source library : Result Bytes) (tree : Result Tree) (run : Run W) (files : Dir)
      → Kept files (add_path sha c net a rs json inputs mesh y source library tree run files).1
  unfolding add_path
  add_path-Kept (err e) library tree run files = record {
    stays = λ k v h. h;
    stubs = λ q mem. absurd (Memᴰ.not-nil mem);
  }
  add_path-Kept (ok source) (err e) tree run files = record {
    stays = λ k v h. h;
    stubs = λ q mem. absurd (Memᴰ.not-nil mem);
  }
  add_path-Kept (ok source) (ok library) tree run files =
      add_resolved-Kept files source library tree _
        (record { stays = λ k v h. h; stubs = λ q mem. absurd (Memᴰ.not-nil mem) })

module _ (sha : Sha256) {W : Type 0} (net : Net W) (a : Aead) (rs : ReedSolomon) (json : Json)
    (x : Bytes → RestoreInputs) (world : Bytes → W) (allow_local : Bool) (d : Dir)
    (y : Surroundings) where
  -- Every file is as it was.
  abbrev Stays : Dir → Restored → Type 0
  Stays before s = (k v : Bytes) → lookup k before ≡ some v → lookup k s.files ≡ some v

  restored_one-Stays :
      (before : Dir) (s : Restored) (o : Result Bytes × Dir)
      → ((k v : Bytes) → lookup k before ≡ some v → lookup k o.1 ≡ some v)
      → Stays before (restored_one sha net a rs json x world allow_local d y s o).1
  restored_one-Stays before s (err e, files) h = h
  restored_one-Stays before s (ok out, files) h = h

  restore_entry-Stays :
      (before : Dir) (output path r : Bytes) (info : FileInfo) (s : Restored)
      → Stays before s
      → Stays before
          (restore_entry sha net a rs json x world allow_local d y output path r info s).1
  unfolding restore_entry
  restore_entry-Stays before output path r info s h = elim (Bool-cases info.regular) [
    | inr e ↦ simp e h
    | inl e ↦ elim (Bool-cases (has_suffix path stub_extension)) [
      | inr f ↦ rw (e, f) h
      | inl f ↦
          rw (e, f)
            (restored_one-Stays before s _ (λ k v g.
              restore_file-keeps sha net a rs (x path) allow_local d k v json path
                (join_path output (trim_suffix r stub_extension)) (world path) s.files (h k v g)))
    ]
  ]

  restore_directory-Stays :
      (source output : Bytes) (tree : Result Tree) (files : Dir)
      → Stays files
          (restore_directory sha net a rs json x world allow_local d y source output tree files).1
  unfolding restore_directory
  restore_directory-Stays source output (err e) files = λ k v h. h
  restore_directory-Stays source output (ok tree) files =
      elim (Bool-cases (path_within source output || path_within output source)) [
        | inl e ↦ rw e (λ k v h. h)
        | inr e ↦ elim (Bool-cases (is_dir tree)) [
          | inr f ↦ rw (e, f) (λ k v h. h)
          | inl f ↦ elim (Bool-cases (y.mkdir_fails output)) [
            | inl g ↦ rw (e, f, g) (λ k v h. h)
            | inr g ↦
                rw (e, f, g)
                  (walk_dir-keeps
                    (visit y source output
                      (restore_entry sha net a rs json x world allow_local d y output))
                    (Stays files)
                    (visit-keeps y source output _ (Stays files) (restore_entry-Stays files output))
                    source (base source) (ok tree) _ (λ k v h. h))
          ]
        ]
      ]

  -- Restoring a tree changes and removes no file that was there, wherever it fails.
  pub restore_directory-keeps :
      (source output : Bytes) (tree : Result Tree) (files : Dir) (k v : Bytes)
      → lookup k files ≡ some v
      → let o =
          restore_directory sha net a rs json x world allow_local d y source output tree files in
        lookup k o.1.files ≡ some v
  restore_directory-keeps source output tree files =
      restore_directory-Stays source output tree files
