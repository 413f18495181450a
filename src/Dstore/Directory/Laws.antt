-- ===== src/Dstore/Directory/Laws.antt =====
-- What a scan keeps and what a watch processes.
use mathlib.Core.List.{Memᴰ}
use mathlib.Core.List.Memᴰ
use peertopeer.Prelude.{
  ◌≡◌, refl, sym, ap, subst, Bool, true, false, ◌||◌, not, ◌⊎◌, inl, inr, arith, if◌then◌else◌,
}
use peertopeer.Prelude.{Option, none, some, List, ◌∷◌, ◌++◌, Bool-cases}
use peertopeer.Prelude.{Error, Result, ok, err, failed}
use peertopeer.Prelude.Text.{Bytes, equal, equal_iff, is_empty, has_suffix, has_suffix-append}
use peertopeer.Prelude.Dict.{Dict, lookup}
use peertopeer.AtomicFile.{Dir, exists}
use peertopeer.Digest.{Sha256}
use peertopeer.Erasure.{ReedSolomon}
use peertopeer.CryptoFile.{Aead}
use peertopeer.Manifest.{Manifest, Json, marshal}
use peertopeer.Dstore.Transfer.{Net}
use peertopeer.Dstore.Process.{Config, Run}
use peertopeer.Dstore.Pipeline.{process_file, stub_extension}
use peertopeer.Dstore.Original.{process_file-keeps, process_file-original, process_file-stub}
use peertopeer.Dstore.Walk.{
  FileInfo, Tree, Visit, at_file, at_folder, at_error, Verdict, proceed, skip, stop, walk_dir-keeps,
}
use peertopeer.Dstore.Directory.{
  Around, Scan, unchanged, add_result, process_path, when_ready, hidden, visit_file, visit, fresh,
  closed, process_directory,
}

if_keeps {ℓ κ} :
    {A : Type ℓ} (P : A → Type κ) (b : Bool) {x y : A} → P x → P y → P (if b then x else y)
if_keeps P true h g = h
if_keeps P false h g = g

abbrev pub note : {W : Type 0} → Bytes → FileInfo → Scan W → Scan W
note path info s = record s { observed = (path, info) ∷ s.observed }

module _ (sha : Sha256) (c : Config) {W : Type 0} (net : Net W) (a : Aead) (rs : ReedSolomon)
    (json : Json) (x : Around) (origin : Bytes) where
  abbrev pub process : Bytes → Scan W → Scan W
  process = process_path sha c net a rs json x origin

  -- What one call of the callback does to the state.
  pub data Visited (previous : Option (Dict FileInfo)) (s : Scan W) : Scan W → Type 0 where
    idle : Visited previous s s
    observed : (path : Bytes) (info : FileInfo) → Visited previous s (note path info s)
    processed : (path : Bytes) → previous ≡ none → Visited previous s (process path s)
    processed_again :
        (path : Bytes) (info : FileInfo) (p : Dict FileInfo)
        → previous ≡ some p
        → unchanged (lookup path p) info ≡ true
        → Visited previous s (process path (note path info s))

  when_ready-Visited :
      (previous : Option (Dict FileInfo)) (path : Bytes) (info : FileInfo) (s : Scan W)
      → Visited previous s (when_ready sha c net a rs json x origin previous path info s)
  unfolding when_ready
  when_ready-Visited none path info s = processed path refl
  when_ready-Visited (some p) path info s = elim (Bool-cases (unchanged (lookup path p) info)) [
    | inl e ↦ simp e (processed_again path info p refl e)
    | inr e ↦ simp e (observed path info)
  ]

  visit_file-Visited :
      (previous : Option (Dict FileInfo)) (path name : Bytes) (info : FileInfo) (s : Scan W)
      → Visited previous s (visit_file sha c net a rs json x origin previous path name info s).1
  unfolding visit_file
  visit_file-Visited previous path name info s =
      go (hidden sha c net a rs json x origin path name || has_suffix name stub_extension)
        (x.info_fails path) info.regular (exists (path ++ stub_extension) s.files)
        (x.lstat_fails path)
    where
      go :
          (b₁ b₂ b₃ b₄ b₅ : Bool)
          → let o : Verdict × Scan W =
              if b₁
              then (proceed, s)
              else if b₂
              then (stop (failed "stat"), s)
              else if not b₃
              then (proceed, s)
              else if b₄
              then (proceed, s)
              else if b₅
              then (stop (failed "lstat"), s)
              else (proceed, when_ready sha c net a rs json x origin previous path info s) in
            Visited previous s o.1
      go true _ _ _ _ = idle
      go false true _ _ _ = idle
      go false false false _ _ = idle
      go false false true true _ = idle
      go false false true false true = idle
      go false false true false false = when_ready-Visited previous path info s

  visit-Visited :
      (previous : Option (Dict FileInfo)) (path name : Bytes) (v : Visit) (s : Scan W)
      → Visited previous s (visit sha c net a rs json x origin previous path name v s).1
  unfolding visit
  visit-Visited previous path name v s = elim (Bool-cases (x.cancelled path v)) [
    | inl e ↦ simp e idle
    | inr e ↦ simp e (go v)
  ]
    where
      go :
          (v : Visit)
          → let o : Verdict × Scan W = elim v [
            | at_error e ↦ (stop e, s)
            | at_folder ↦
                (if hidden sha c net a rs json x origin path name then skip else proceed, s)
            | at_file info ↦ visit_file sha c net a rs json x origin previous path name info s
          ] in
            Visited previous s o.1
      go (at_error e) = idle
      go at_folder = idle
      go (at_file info) = visit_file-Visited previous path name info s

  module _ {κ} (previous : Option (Dict FileInfo)) (P : Scan W → Type κ)
      (keep : (s s' : Scan W) → Visited previous s s' → P s → P s')
      (close : (s : Scan W) (es : List Error) → P s → P (record s { failures = es })) where
    -- What each call of the callback keeps holds at the end of a scan.
    pub process_directory-keeps :
        (name : Bytes) (tree : Result Tree) (run : Run W) (files : Dir)
        → P (fresh sha c net a rs json x origin run files)
        → P (process_directory sha c net a rs json x origin previous name tree run files)
    unfolding process_directory
    process_directory-keeps name tree run files h =
        if_keeps P (is_empty origin) (close (fresh sha c net a rs json x origin run files) _ h) (
          go _ (
            walk_dir-keeps (visit sha c net a rs json x origin previous) P
              (λ path name v s p. keep s _ (visit-Visited previous path name v s) p) origin name
              tree _ h))
      where
        go : (o : Option Error × Scan W) → P o.1 → P (closed sha c net a rs json x origin o)
        go (none, s) p = p
        go (some e, s) p = close s _ p

  -- A file's content is where it was, or it has been processed and its stub stands beside it.
  abbrev pub Safe : Bytes → Bytes → Dir → List (Bytes × Manifest) → Type 0
  Safe k v files results =
      (lookup k files ≡ some v)
      ⊎ ((m : Manifest) × Memᴰ (k, m) results
          × (lookup (k ++ stub_extension) files ≡ some (marshal json m)))

  add_result-files :
      (path : Bytes) (s : Scan W) (o : Result Manifest × Run W × Dir)
      → (add_result path s o).files ≡ o.2
  add_result-files path s (ok m, _, _) = refl
  add_result-files path s (err e, _, _) = refl

  add_result-Memᴰ :
      (path k : Bytes) (m : Manifest) (s : Scan W) (o : Result Manifest × Run W × Dir)
      → Memᴰ (k, m) s.results
      → Memᴰ (k, m) (add_result path s o).results
  add_result-Memᴰ path k m s (ok _, _, _) h = Memᴰ.append_left _ h
  add_result-Memᴰ path k m s (err e, _, _) h = h

  add_result-ok :
      (path : Bytes) (m : Manifest) (s : Scan W) (o : Result Manifest × Run W × Dir)
      → o.0 ≡ ok m
      → Memᴰ (path, m) (add_result path s o).results
  add_result-ok path m s (ok m', _, _) h =
      Memᴰ.append_right s.results (Memᴰ.head (ap (λ (q : Manifest). (path, q)) (ok_inj (sym h))))
    where
      ok_inj : {m m' : Manifest} → ok m ≡ ok m' → m ≡ m'
      ok_inj h = cc
  add_result-ok path m s (err e, _, _) h = cc

  process-Safe :
      (path k v : Bytes) (s : Scan W)
      → Safe k v s.files s.results
      → Safe k v (process path s).files (process path s).results
  unfolding process_path
  process-Safe path k v s safe =
      subst (λ d. Safe k v d (add_result path s o).results) (sym (add_result-files path s o))
        (go safe)
    where
      o : Result Manifest × Run W × Dir
      o =
          process_file sha c net a rs (x.inputs path) json (x.mesh path) path
            (path ++ stub_extension) s.run s.files

      other :
          (j w : Bytes) → equal path j ≡ false → lookup j s.files ≡ some w → lookup j o.2 ≡ some w
      other j w e h =
          process_file-keeps sha c net a rs (x.inputs path) json path _ (x.mesh path) s.run s.files
            j w (inr (λ f. ground (arith, e, f, equal_iff path j))) h

      original : lookup path s.files ≡ some v → Safe path v o.2 (add_result path s o).results
      original h =
          elim (process_file-original sha c net a rs (x.inputs path) json path
            (path ++ stub_extension) (x.mesh path) s.run s.files v h) [
              | inl kept ↦ inl kept
              | inr (m, done, stub, _) ↦ inr (m, add_result-ok path m s o done, stub)
            ]

      stub_stays :
          (m : Manifest)
          → lookup (k ++ stub_extension) s.files ≡ some (marshal json m)
          → lookup (k ++ stub_extension) o.2 ≡ some (marshal json m)
      stub_stays m h = elim (Bool-cases (equal path (k ++ stub_extension))) [
        | inl e ↦
            rw
              (process_file-stub sha c net a rs (x.inputs path) json path (path ++ stub_extension)
                (x.mesh path) s.run s.files
                (rw ((equal_iff path (k ++ stub_extension)).0 e)
                  (has_suffix-append k stub_extension)))
              h
        | inr e ↦ other (k ++ stub_extension) _ e h
      ]

      go : Safe k v s.files s.results → Safe k v o.2 (add_result path s o).results
      go (inl h) = elim (Bool-cases (equal path k)) [
        | inl e ↦
            let same = (equal_iff path k).0 e in
            subst (λ j. Safe j v o.2 (add_result path s o).results) same (original (rw same h))
        | inr e ↦ inl (other k v e h)
      ]
      go (inr (m, mem, h)) = inr (m, add_result-Memᴰ path k m s o mem, stub_stays m h)

  -- A scan loses no content: each file that was there is there still, or the scan returns the manifest
  -- of its upload, and the stub stands beside it with that manifest.
  pub process_directory-Safe :
      (previous : Option (Dict FileInfo)) (name : Bytes) (tree : Result Tree) (run : Run W)
      (files : Dir)
      → let s = process_directory sha c net a rs json x origin previous name tree run files in
        (k v : Bytes) → lookup k files ≡ some v → Safe k v s.files s.results
  process_directory-Safe previous name tree run files =
      process_directory-keeps previous
        (λ s. (k v : Bytes) → lookup k files ≡ some v → Safe k v s.files s.results) keep
        (λ s es h. h) name tree run files (λ k v h. inl h)
    where
      keep :
          (s s' : Scan W)
          → Visited previous s s'
          → ((k v : Bytes) → lookup k files ≡ some v → Safe k v s.files s.results)
          → (k v : Bytes) → lookup k files ≡ some v
          → Safe k v s'.files s'.results
      keep s _ idle p k v h = p k v h
      keep s _ (observed path info) p k v h = p k v h
      keep s _ (processed path _) p k v h = process-Safe path k v s (p k v h)
      keep s _ (processed_again path info _ _ _) p k v h =
          process-Safe path k v (note path info s) (p k v h)
