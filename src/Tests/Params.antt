-- ===== src/Tests/Params.antt =====
-- Parameters of the model that satisfy the laws of the code they stand for, for the runs.
use peertopeer.Prelude.{ℕ, zero, suc, ◌≤◌, ◌<◌, ◌≡◌, ◌≢◌, refl, false, arith, Bool-cases}
use peertopeer.Prelude.{some, List, [], ◌∷◌, ◌++◌, length, drop, All, inl, inr, if◌then◌else◌}
use peertopeer.Prelude.{Error, Result, ok, err, failed, sym, ap, ◌∙◌}
use peertopeer.Prelude.Text.{Bytes, text, equal, equal_iff}
use peertopeer.Prelude.Dict.{lookup}
use peertopeer.AtomicFile.{no_faults}
use peertopeer.Digest.{Sha256, hash, hex_encode}
use peertopeer.LocalStore.{Env}
use peertopeer.Erasure.{ReedSolomon}
use peertopeer.Erasure.Recovery.{IsErasureCode, Survives, present}
use peertopeer.CryptoFile.{Aead, IsAead}
use peertopeer.Dstore.RoundTrip.Missing.{IsStrict}

abbrev pub repeat : ℕ → ℕ → Bytes
repeat zero b = []
repeat (suc n) b = b ∷ repeat n b

abbrev pub content : Bytes
content = text "hi"

-- The content behind a tag of zeros.
abbrev pub sealed : Bytes
sealed = repeat 16 0 ++ content

pub length-repeat : (n b : ℕ) → length (repeat n b) ≡ n
length-repeat zero b = refl
length-repeat (suc n) b = ap suc (length-repeat n b)

repeat-bytes : (n b : ℕ) → b < 256 → All (λ b. b < 256) (repeat n b)
repeat-bytes zero b h = tt
repeat-bytes (suc n) b h = (h, repeat-bytes n b h)

-- A digest that tells `sealed` from all other data.
abbrev pub sum : Bytes → Bytes
sum s = repeat 32 (if equal s sealed then 0 else 1)

pub sum-bytes : (s : Bytes) → All (λ b. b < 256) (sum s)
sum-bytes s = elim (Bool-cases (equal s sealed)) [
  | inl e ↦ rw e (repeat-bytes 32 0 (omega arith))
  | inr e ↦ rw e (repeat-bytes 32 1 (omega arith))
]

abbrev pub sha : Sha256
sha = record {
  sum = sum;
  length-sum = λ s. length-repeat 32 (if equal s sealed then 0 else 1);
  sum-bytes = sum-bytes;
}

abbrev pub name : Bytes
name = hash sha sealed

abbrev second : Bytes → ℕ
second (_ ∷ b ∷ _) = b
second _ = 0

apart : ◌≢◌ {A = ℕ} 49 48
apart = λ e. omega arith

pub hash-sealed : (t : Bytes) → hash sha t ≡ hash sha sealed → t ≡ sealed
unfolding hash hex_encode equal
hash-sealed t h = elim (Bool-cases (equal t sealed)) [
  | inl e ↦ (equal_iff t sealed).0 e
  | inr e ↦
      let other : hash sha t ≡ hex_encode (repeat 32 1) = rw e refl in
      absurd (apart (ap second (sym other ∙ h)))
]

-- Where `sealed` is the only shard, no other data has its hash.
pub unique_name :
    (h s t : Bytes) → lookup h ((name, sealed) ∷ []) ≡ some s → hash sha t ≡ hash sha s → t ≡ s
unique_name h s t found e =
    let same : sealed ≡ s = only found in hash-sealed t (e ∙ ap (hash sha) (sym same)) ∙ same
  where
    only : lookup h ((name, sealed) ∷ []) ≡ some s → sealed ≡ s
    only = unfold lookup in λ f. ground arith

-- Two copies.
abbrev copies : List Bytes → Result (List Bytes)
copies [] = err (failed "no data")
copies (s ∷ _) = ok (s ∷ s ∷ [])

-- The first shard that is there, twice.
abbrev repaired : List Bytes → Result (List Bytes)
repaired [] = err (failed "too few shards given")
repaired ([] ∷ shards) = repaired shards
repaired ((b ∷ s) ∷ shards) = ok ((b ∷ s) ∷ (b ∷ s) ∷ [])

abbrev joined : List Bytes → Result Bytes
joined [] = err (failed "no data")
joined (s ∷ _) = ok s

abbrev pub rs : ReedSolomon
rs = record {
  new = λ k p. ok tt;
  split = λ k p s. ok (s ∷ []);
  encode = λ k p shards. copies shards;
  reconstruct = λ k p shards. repaired shards;
  join = λ k p shards n. joined shards;
}

abbrev pub env : Env
env = record {
  lock_fails = false;
  mkdir_fails = false;
  read_fails = false;
  read_dir_fails = false;
  shard_faults = no_faults;
  shard_tmp = text ".shard-1";
  owner_faults = no_faults;
  owner_tmp = text ".owner-1";
  remove_fails = false;
  remove_owner_fails = false;
  missing = false;
}

pub code : IsErasureCode rs 1 1
code = record {
  new-ok = refl;
  coded = λ c filled. record {
    parts = c ∷ [];
    shards = c ∷ c ∷ [];
    split-ok = refl;
    encode-ok = refl;
    count = refl;
    sizes = (omega arith, (omega arith, tt));
    recovers = recovers c;
    joins = refl;
  };
}
  where
    recovers :
        (c : Bytes) (got : List Bytes)
        → Survives got (c ∷ c ∷ [])
        → 1 ≤ present got
        → repaired got ≡ ok (c ∷ c ∷ [])
    recovers c [] h n = absurd h
    recovers c (g ∷ []) h n = absurd h.1
    recovers c (g ∷ g' ∷ x ∷ got) h n = absurd h.1.1
    recovers c ([] ∷ [] ∷ []) h n = absurd (omega arith)
    recovers c ([] ∷ (b ∷ s) ∷ []) (_, (inl e, _)) n = cc
    recovers c ([] ∷ (b ∷ s) ∷ []) (_, (inr e, _)) n = rw e refl
    recovers c ((b ∷ s) ∷ g ∷ []) (inl e, _) n = cc
    recovers c ((b ∷ s) ∷ g ∷ []) (inr e, _) n = rw e refl

pub strict : IsStrict rs 1 1
strict = record { too_few = λ got n few. missing got few }
  where
    missing : (got : List Bytes) → present got < 1 → (e : Error) × (repaired got ≡ err e)
    missing [] few = (_, refl)
    missing ([] ∷ got) few = missing got few
    missing ((b ∷ s) ∷ got) few = absurd (omega arith)

-- A cipher that puts a tag of zeros before the text.
abbrev pub aead : Aead
aead = record { seal = λ key nonce s. repeat 16 0 ++ s; open_ = λ key nonce s. some (drop 16 s) }

pub aead_law : IsAead aead
aead_law = record { open-seal = λ key nonce s. refl; length-seal = λ key nonce s. omega arith }
