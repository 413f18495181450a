-- ===== src/Dstore/Progress/Success.antt =====
-- `processFile` succeeds where everything around it does its part.
use peertopeer.Prelude.{
  ℕ, zero, suc, ◌+◌, ◌*◌, ◌^◌, ◌≤◌, ◌<◌, ◌≡◌, refl, sym, ap, ◌∙◌, subst, true, false, arith,
  if◌then◌else◌,
}
use peertopeer.Prelude.{none, some, List, [], ◌∷◌, length, take, is_nil}
use peertopeer.Prelude.{Result, Status, ok, err, failed, Bool-cases, inl, inr, Result-cases}
use peertopeer.Prelude.Text.{Bytes, equal}
use peertopeer.Prelude.Dict.{lookup, erase}
use peertopeer.Prelude.Int.{ℤ, pos, ltb_ℤ, add64-pos}
use peertopeer.AtomicFile.{Dir, no_faults, write_new, exists}
use peertopeer.AtomicFile.Publish.{write_new-clean}
use peertopeer.Digest.{Sha256}
use peertopeer.Erasure.{ReedSolomon, new_layout}
use peertopeer.Erasure.Layouts.{layout, new_layout-layout, validate-layout}
use peertopeer.CryptoFile.{Aead}
use peertopeer.Manifest.{Manifest, Chunk, Json, marshal, check_chunks, new_chunked}
use peertopeer.Manifest.Path.{base}
use peertopeer.ShardServer.{full}
use peertopeer.Dstore.Placement.{Mesh}
use peertopeer.Dstore.Transfer.{Net}
use peertopeer.Dstore.Process.{Config, Inputs, Run}
use peertopeer.Dstore.Pipeline.{
  Prepared, prepare, conclude, replace_file, after_chunks, run_prepared, process_chunks,
  process_file, limited, piece_size,
}
use peertopeer.Dstore.Progress.{Ready}
use peertopeer.Dstore.Progress.Loop.{IsFair, Pieces, piece, end, process_chunks-Looped}

-- The run is not stopped behind the loop: the source is the same, and the stub can be written and the
-- original removed.
pub record EndsWell (x : Inputs) (stub_path : Bytes) (files : Dir) : Type 0 where
  pub id : Bytes
  pub named : x.file_id ≡ ok id
  pub same : x.same_at_end ≡ true
  pub goes_on : x.cancelled_at_end ≡ false
  pub faults : x.stub_faults ≡ no_faults
  pub tmp : lookup x.stub_tmp files ≡ none
  pub differs : equal x.stub_tmp stub_path ≡ false
  pub removes : x.remove_fails ≡ false

module _ (sha : Sha256) (c : Config) {W : Type 0} (net : Net W) (a : Aead) (rs : ReedSolomon)
    (x : Inputs) (k p : ℕ) (fair : IsFair sha c net a rs x k p) where
  check_chunks-ok :
      (key : Bytes) (peers : _) (key_ok : length key ≡ 32) (chunk_size : ℕ) (chunks : List Chunk)
      (left plain cipher : ℕ)
      → Pieces sha c net a rs x k p fair key peers key_ok chunk_size chunks left
      → chunk_size < 2 ^ 62
      → plain + left < 2 ^ 62
      → cipher + left + 16 * length chunks < 2 ^ 62
      → (sum : ℤ) × (check_chunks (layout k p) (pos chunk_size) chunks (pos plain) (pos cipher)
          ≡ ok (pos (plain + left), sum))
  unfolding check_chunks
  check_chunks-ok key peers key_ok chunk_size [] _ plain cipher end h₁ h₂ h₃ =
      (pos cipher, ap (λ n. ok (pos n, pos cipher)) (omega arith))
  check_chunks-ok key peers key_ok chunk_size (chunk ∷ chunks) _ plain cipher
        (piece n m fine le more) h₁ h₂ h₃ =
      let (sum, rest) =
        check_chunks-ok key peers key_ok chunk_size chunks m (plain + n) (cipher + (n + 16)) more h₁
          (omega (arith, h₂)) (omega (arith, h₃)) in
      let in_chunk : ltb_ℤ (pos chunk_size) (pos n) ≡ false = ground (arith, le) in
      let in_cipher : ltb_ℤ (pos (chunk_size + 16)) (pos (n + 16)) ≡ false = ground (arith, le) in
      (
        sum,
        simp
            (
              fine.plain,
              fine.cipher,
              fine.valid,
              add64-pos chunk_size 16 (omega (arith, h₁)),
              in_chunk,
              in_cipher,
              add64-pos plain n (omega (arith, h₂)),
              add64-pos cipher (n + 16) (omega (arith, h₃)),
            )
            (rest ∙ ap (λ t. ok (pos t, sum)) (omega arith)),
      )

  -- What the checks before the loop have found.
  record Checked (content : Bytes) (stub_path : Bytes) (files : Dir) (q : Prepared sha c net a rs x)
      : Type 0 where
    layout_of : q.layout ≡ layout k p
    positive : 1 ≤ q.chunk_size
    bounded : q.chunk_size ≤ 2 ^ 30
    limit : q.limit ≤ 2 ^ 40
    size : q.size ≡ length content
    fits : length content ≤ q.limit
    free : lookup stub_path files ≡ none

  piece_size_pos : 1 ≤ piece_size sha c net a rs x
  unfolding piece_size
  piece_size_pos = ground arith

  prepare-Checked :
      (mesh : Mesh) (path stub_path content : Bytes) (files : Dir) (q : Prepared sha c net a rs x)
      → c.data_shards ≡ pos k
      → c.parity_shards ≡ pos p
      → lookup path files ≡ some content
      → prepare sha c net a rs x mesh path stub_path files ≡ ok q
      → Checked content stub_path files q
  unfolding prepare exists
  prepare-Checked mesh path stub_path content files q dk dp there e =
      let made : new_layout c.data_shards c.parity_shards ≡ ok (layout k p) =
        rw (dk, dp) (new_layout-layout k p fair.geometry) in
      record {
        layout_of = ground (arith, made);
        positive = ground (arith, piece_size_pos);
        bounded = ground arith;
        limit = ground arith;
        size = ground (arith, there);
        fits = ground (arith, there);
        free = ground arith;
      }

  new_chunked-ok :
      (id name key : Bytes) (total chunk_size : ℕ) (chunks : List Chunk) (sum : ℤ)
      → length key ≡ 32
      → 1 ≤ chunk_size
      → is_nil chunks ≡ false
      → check_chunks (layout k p) (pos chunk_size) chunks (pos 0) (pos 0) ≡ ok (pos total, sum)
      → (m : Manifest) × (new_chunked (layout k p) id name (pos total) (pos chunk_size) key chunks
          ≡ ok m)
  unfolding new_chunked
  new_chunked-ok id name key total chunk_size chunks sum key_ok positive filled totals =
      elim (Result-cases
        (new_chunked (layout k p) id name (pos total) (pos chunk_size) key chunks)) [
          | inl found ↦ found
          | inr (e, bad) ↦ absurd (
              ground
                (arith, bad, validate-layout k p fair.geometry, key_ok, positive, filled, totals))
        ]

  -- The manifest is made.
  conclude-ok :
      (content path stub_path : Bytes) (files : Dir) (q : Prepared sha c net a rs x)
      (chunks : List Chunk)
      → Checked content stub_path files q
      → EndsWell x stub_path files
      → (key_ok : length q.key ≡ 32)
      → Pieces sha c net a rs x k p fair q.key q.peers key_ok q.chunk_size chunks (length content)
      → length chunks ≤ length content + 1
      → is_nil chunks ≡ false
      → (m : Manifest) × (conclude sha c net a rs x q path chunks (length content) ≡ ok m)
  unfolding conclude
  conclude-ok content path stub_path files q chunks ch e key_ok pieces count filled =
      let fits = ch.fits in
      let limit = ch.limit in
      let bounded = ch.bounded in
      let (sum, totals) =
        check_chunks-ok q.key q.peers key_ok q.chunk_size chunks (length content) 0 0 pieces
          (omega (arith, bounded)) (omega (arith, fits, limit))
          (omega (arith, fits, limit, count)) in
      let (m, made) =
        new_chunked-ok e.id (base path) q.key (length content) q.chunk_size chunks sum key_ok
          ch.positive filled (totals ∙ ap (λ t. ok (pos t, sum)) (omega arith)) in
      elim (Result-cases (conclude sha c net a rs x q path chunks (length content))) [
        | inl found ↦ found
        | inr (y, bad) ↦
            absurd (ground (arith, bad, made, ch.layout_of, e.named, e.same, ch.size, e.goes_on))
      ]

  replace_file-ok :
      (json : Json) (path stub_path content : Bytes) (files : Dir) (q : Prepared sha c net a rs x)
      (m : Manifest)
      → Checked content stub_path files q
      → EndsWell x stub_path files
      → (replace_file sha c net a rs x json path stub_path m files).0 ≡ ok m
  unfolding replace_file
  replace_file-ok json path stub_path content files q m ch e =
      let done : (write_new x.stub_faults x.stub_tmp stub_path (marshal json m) files).0 ≡ ok tt =
        rw e.faults
          (write_new-clean x.stub_tmp stub_path (marshal json m) files e.tmp ch.free e.differs) in
      go _ _ done
    where
      go :
          (r : Status) (files' : Dir)
          → r ≡ ok tt
          → let o : Result Manifest × Dir = elim r [
            | err _ ↦ (err (failed "write stub"), files')
            | ok _ ↦
                if c.keep_original
                then (ok m, files')
                else if x.remove_fails
                then (err (failed "remove original after stub write"), files')
                else (ok m, erase path files')
          ] in
            o.0 ≡ ok m
      go (err y) files' d = cc
      go (ok _) files' d = elim (Bool-cases c.keep_original) [
        | inl keep ↦ simp keep refl
        | inr drop ↦ simp (drop, e.removes) refl
      ]

  module _ (content : Bytes) (read : x.source ≡ full content) (json : Json) (path stub_path : Bytes)
      (s : Run W) (files : Dir) where
    take_all : (n : ℕ) (t : Bytes) → length t ≤ n → take n t ≡ t
    take_all zero [] h = refl
    take_all zero (b ∷ t) h = absurd (omega (arith, h))
    take_all (suc n) [] h = refl
    take_all (suc n) (b ∷ t) h = ap (◌∷◌ b) (take_all n t (omega (arith, h)))

    after_chunks-ok :
        (q : Prepared sha c net a rs x) (chunks : List Chunk) (m : Manifest)
        → Checked content stub_path files q
        → EndsWell x stub_path files
        → conclude sha c net a rs x q path chunks (length content) ≡ ok m
        → (r : Result (List Chunk × ℕ)) (s' : Run W) → r ≡ ok (chunks, length content)
        → (after_chunks sha c net a rs x json path stub_path files q r s').0 ≡ ok m
    unfolding after_chunks
    after_chunks-ok q chunks m ch e made r s' looped = go _ (rw looped made)
      where
        go :
            (t : Result Manifest)
            → t ≡ ok m
            → let o : Result Manifest × Run W × Dir = elim t [
              | err e ↦ (err e, s', files)
              | ok m ↦
                  let (r', files') = replace_file sha c net a rs x json path stub_path m files in
                  (r', s', files')
            ] in
              o.0 ≡ ok m
        go (err y) d = cc
        go (ok m') d = replace_file-ok json path stub_path content files q m' ch e ∙ d

    run_prepared-ok :
        (q : Prepared sha c net a rs x)
        → Checked content stub_path files q
        → EndsWell x stub_path files
        → length q.key ≡ 32
        → Ready sha x s.dir
        → (m : Manifest) × ((run_prepared sha c net a rs x json path stub_path s files q
              (content, false)).0
            ≡ ok m)
    unfolding run_prepared
    run_prepared-ok q ch e key_ok r =
        let g =
          process_chunks-Looped sha c net a rs x k p fair q.key q.peers key_ok q.limit q.chunk_size
            ch.positive (length content + 1) 0 content 0 s (omega arith)
            (let fits = ch.fits in omega (arith, fits)) r in
        let (m, made) =
          conclude-ok content path stub_path files q g.chunks ch e key_ok g.pieces g.count
            (g.some_ refl) in
        let looped : (process_chunks sha c net a rs x q.layout q.key q.peers q.limit q.chunk_size
              false (length content + 1) 0 content 0 s).0
            ≡ ok (g.chunks, length content) =
          rw ch.layout_of (g.made ∙ ap (λ n. ok (g.chunks, n)) (omega arith)) in
        (m, after_chunks-ok q g.chunks m ch e made _ _ looped)

    -- Where the checks before the loop pass, the run succeeds: the file is read in full and is the same
    -- at the end; the devices take and give back what they are sent; no operation on the store or on the
    -- stub fails, and there is no quota; the cipher and the Reed-Solomon library keep their laws; the
    -- key and the nonces have their sizes; and the context goes on.
    pub process_file-succeeds :
        (mesh : Mesh) (q : Prepared sha c net a rs x)
        → c.data_shards ≡ pos k
        → c.parity_shards ≡ pos p
        → lookup path files ≡ some content
        → prepare sha c net a rs x mesh path stub_path files ≡ ok q
        → length q.key ≡ 32
        → EndsWell x stub_path files
        → Ready sha x s.dir
        → (m : Manifest) × ((process_file sha c net a rs x json mesh path stub_path s files).0
            ≡ ok m)
    unfolding process_file limited
    process_file-succeeds mesh q dk dp there passed key_ok e r =
        let ch = prepare-Checked mesh path stub_path content files q dk dp there passed in
        let fits = ch.fits in
        let whole : limited q.limit x.source ≡ (content, false) =
          rw read (ap (λ t. (t, false)) (take_all (q.limit + 1) content (omega (arith, fits)))) in
        let (m, run) = run_prepared-ok q ch e key_ok r in (m, go _ passed (rw whole run))
      where
        After : Result (Prepared sha c net a rs x) → Result Manifest × Run W × Dir
        After (err e) = (err e, s, files)
        After (ok p) =
            run_prepared sha c net a rs x json path stub_path s files p (limited p.limit x.source)

        go :
            {m : Manifest} (t : Result (Prepared sha c net a rs x))
            → t ≡ ok q
            → (run_prepared sha c net a rs x json path stub_path s files q
                (limited q.limit x.source)).0
              ≡ ok m
            → (After t).0 ≡ ok m
        go {m} t d h = subst (λ u. (After u).0 ≡ ok m) (sym d) h
