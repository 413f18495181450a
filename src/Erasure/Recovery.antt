-- ===== src/Erasure/Recovery.antt =====
-- As many shards as the layout has data shards give the content back.
use peertopeer.Prelude.{sym, ◌∙◌, ℕ, suc, ◌+◌, ◌-◌, ◌/◌, ◌≤◌, ◌≡◌, ◌≢◌, ◌⊎◌, refl, ap}
use peertopeer.Prelude.{List, [], ◌∷◌, arith, length, All, ok}
use peertopeer.Prelude.Text.{Bytes}
use peertopeer.Erasure.{ReedSolomon, encode, decode}
use peertopeer.Erasure.Layouts.{layout, IsGeometry, validate-layout, total_shards-layout}

-- What arrived of some shards: at each place the shard, or nothing.
abbrev pub Survives : List Bytes → List Bytes → Type 0
Survives [] [] = Unit
Survives [] (s ∷ shards) = ⊥
Survives (g ∷ got) [] = ⊥
Survives (g ∷ got) (s ∷ shards) = ((g ≡ []) ⊎ (g ≡ s)) × Survives got shards

-- How many shards are there.
abbrev pub present : List Bytes → ℕ
present [] = 0
present ([] ∷ got) = present got
present ((_ ∷ _) ∷ got) = suc (present got)

pub Survives-length : (got shards : List Bytes) → Survives got shards → length got ≡ length shards
Survives-length [] [] h = refl
Survives-length [] (s ∷ shards) h = absurd h
Survives-length (g ∷ got) [] h = absurd h
Survives-length (g ∷ got) (s ∷ shards) h = ap suc (Survives-length got shards h.1)

-- The size of a shard: the content's size divided by the data shards, rounded up.
abbrev pub shard_size : ℕ → ℕ → ℕ
shard_size n k = (n + k - 1) / k

-- What the library documents of the shards that it makes of some content.
pub record Coded (rs : ReedSolomon) (k p : ℕ) (content : Bytes) : Type 0 where
  pub parts : List Bytes
  pub shards : List Bytes
  pub split-ok : rs.split k p content ≡ ok parts
  pub encode-ok : rs.encode k p parts ≡ ok shards
  pub count : length shards ≡ k + p
  pub sizes : All (λ s. length s ≡ shard_size (length content) k) shards
  pub recovers :
      (got : List Bytes)
      → Survives got shards
      → k ≤ present got
      → rs.reconstruct k p got ≡ ok shards
  pub joins : rs.join k p shards (length content) ≡ ok content

-- The library documents it of any content that is not empty.
pub record IsErasureCode (rs : ReedSolomon) (k p : ℕ) : Type 0 where
  pub new-ok : rs.new k p ≡ ok tt
  pub coded : (content : Bytes) → content ≢ [] → Coded rs k p content

module _ (rs : ReedSolomon) (k p : ℕ) (geometry : IsGeometry k p)
    (code : IsErasureCode rs k p) where
  pub encode-Coded :
      (content : Bytes) (c : Coded rs k p content) → encode rs (layout k p) content ≡ ok c.shards
  unfolding encode
  encode-Coded content c = simp (validate-layout k p geometry, code.new-ok, c.split-ok, c.encode-ok)

  pub decode-Coded :
      (content : Bytes) (c : Coded rs k p content) (got : List Bytes)
      → Survives got c.shards
      → k ≤ present got
      → decode rs (layout k p) got (length content) ≡ ok content
  unfolding decode
  decode-Coded content c got survives enough =
      simp
        (
          validate-layout k p geometry,
          Survives-length got c.shards survives,
          c.count,
          total_shards-layout k p geometry,
          code.new-ok,
          c.recovers got survives enough,
          c.joins,
        )
        (ground arith)

  -- For a valid layout and a library that keeps its laws,
  -- content that is not empty is encoded to as many shards as the layout has in all, each of the
  -- content's size divided by the data shards, rounded up.
  pub encode-succeeds :
      (content : Bytes)
      → content ≢ []
      → (shards : List Bytes) × (encode rs (layout k p) content ≡ ok shards)
        × (length shards ≡ k + p)
        × All (λ s. length s ≡ shard_size (length content) k) shards
  encode-succeeds content filled =
      let c = code.coded content filled in (c.shards, encode-Coded content c, c.count, c.sizes)

  -- For a valid layout and a library that keeps its laws,
  -- any of the shards of some content that is not empty, as many as there are data shards, decode to
  -- the content; the others may be missing.
  pub decode-encode :
      (content : Bytes) (shards got : List Bytes)
      → content ≢ []
      → encode rs (layout k p) content ≡ ok shards
      → Survives got shards
      → k ≤ present got
      → decode rs (layout k p) got (length content) ≡ ok content
  decode-encode content shards got filled e survives enough =
      let c = code.coded content filled in
      let same : c.shards ≡ shards = ok-injective (sym (encode-Coded content c) ∙ e) in
      decode-Coded content c got (rw same survives) enough
    where
      ok-injective : {a b : List Bytes} → ok a ≡ ok b → a ≡ b
      ok-injective h = ground arith
