-- ===== src/NodeConfig/Valid.antt =====
-- Which configurations pass the checks.
use peertopeer.Prelude.{ℕ, ◌^◌, true, false, ◌&&◌, not, Option, none, some, arith, ◌≡◌, refl, ◌⊎◌}
use peertopeer.Prelude.{List, [], ◌∷◌, is_nil, All, Bool-cases, ok, ◌≤◌, inl, inr}
use peertopeer.Prelude.Text.{Bytes, text, equal, equal_iff}
use peertopeer.Prelude.Int.{ℤ, pos, negsuc, ltb_ℤ}
use peertopeer.FilePath.{contains}
use peertopeer.NodeConfig.{
  Config, atoi, in_port_range, is_blank, check_identity, check_limits, bad_member, check_members,
  check_apart, check_dirs, validate,
}

-- A number from one bound to another.
abbrev pub Between : ℕ → ℕ → ℤ → Type 0
Between lo hi (pos n) = (lo ≤ n) × (n ≤ hi)
Between lo hi (negsuc n) = ⊥

abbrev pub Positive : ℤ → Type 0
Positive (pos n) = 1 ≤ n
Positive (negsuc n) = ⊥

-- Neither directory holds the other.
abbrev pub Apart : Bytes → Bytes → Type 0
Apart a b = (contains a b ≡ false) × (contains b a ≡ false)

-- A configuration that a device can run with.
pub record IsValid (c : Config) : Type 0 where
  pub version : c.version ≡ pos 1
  pub name : is_blank c.name ≡ false
  pub share : is_blank c.share_id ≡ false
  pub role : (c.role ≡ text "storage") ⊎ (c.role ≡ text "client")
  pub port : (n : ℤ) × (atoi c.port ≡ some n) × Between 1 65535 n
  pub quota : Positive c.quota_bytes
  pub file_limit : Between 1 (2 ^ 40) c.max_file_bytes
  pub shard_limit : Between 1 (2 ^ 30) c.max_shard_bytes
  pub chunk : Between 0 (2 ^ 30) c.chunk_size
  pub members : (c.allow_mesh ≡ true) ⊎ (is_nil c.members ≡ false)
  pub each_member : All (λ m. bad_member m ≡ false) c.members
  pub dirs : All (λ d. is_blank d ≡ false) (c.origin_dir ∷ c.shard_dir ∷ c.library_dir ∷ [])
  pub shards_apart : Apart c.shard_dir c.origin_dir
  pub library_apart : Apart c.library_dir c.origin_dir
  pub library_shards_apart : Apart c.library_dir c.shard_dir

port-Between : (o : Option ℤ) → in_port_range o ≡ true → (n : ℤ) × (o ≡ some n) × Between 1 65535 n
port-Between none h = cc
port-Between (some (pos n)) h = (pos n, refl, (ground arith, ground arith))
port-Between (some (negsuc n)) h = cc

check_members-All :
    (members : List Bytes) → check_members members ≡ ok tt → All (λ m. bad_member m ≡ false) members
unfolding check_members
check_members-All [] h = tt
check_members-All (m ∷ members) h = (ground arith, check_members-All members (ground arith))

check_dirs_three :
    (a b c : Bytes)
    → check_dirs [] (a ∷ b ∷ c ∷ []) ≡ ok tt
    → All (λ d. is_blank d ≡ false) (a ∷ b ∷ c ∷ []) × Apart b a × Apart c a × Apart c b
unfolding check_dirs check_apart
check_dirs_three a b c h = (
  (ground arith, (ground arith, (ground arith, tt))),
  (ground arith, ground arith),
  (ground arith, ground arith),
  (ground arith, ground arith),
)

check_identity-ok :
    (c : Config)
    → check_identity c ≡ ok tt
    → (c.version ≡ pos 1)
      × (is_blank c.name ≡ false)
      × (is_blank c.share_id ≡ false)
      × ((c.role ≡ text "storage") ⊎ (c.role ≡ text "client"))
      × (in_port_range (atoi c.port) ≡ true)
unfolding check_identity
check_identity-ok c h = (
  ground arith,
  ground arith,
  ground arith,
  elim (Bool-cases (equal c.role (text "storage"))) [
    | inl e ↦ inl ((equal_iff c.role (text "storage")).0 e)
    | inr e ↦ inr ((equal_iff c.role (text "client")).0 (ground arith))
  ],
  ground arith,
)

ltb_ℤ-Between :
    (lo hi : ℕ) (z : ℤ) → ltb_ℤ z (pos lo) ≡ false → ltb_ℤ (pos hi) z ≡ false → Between lo hi z
ltb_ℤ-Between lo hi (pos n) h k = (ground arith, ground arith)
ltb_ℤ-Between lo hi (negsuc n) h k = cc

ltb_ℤ-Positive : (z : ℤ) → ltb_ℤ (pos 0) z ≡ true → Positive z
ltb_ℤ-Positive (pos n) h = ground arith
ltb_ℤ-Positive (negsuc n) h = cc

positive_below :
    (hi : ℕ) (z : ℤ) → ltb_ℤ (pos 0) z ≡ true → ltb_ℤ (pos hi) z ≡ false → Between 1 hi z
positive_below hi (pos n) h k = (ground arith, ground arith)
positive_below hi (negsuc n) h k = cc

check_limits-ok :
    (c : Config)
    → check_limits c ≡ ok tt
    → Positive c.quota_bytes
      × Between 1 (2 ^ 40) c.max_file_bytes
      × Between 1 (2 ^ 30) c.max_shard_bytes
      × Between 0 (2 ^ 30) c.chunk_size
unfolding check_limits
check_limits-ok c h = (
  ltb_ℤ-Positive c.quota_bytes (ground arith),
  positive_below (2 ^ 40) c.max_file_bytes (ground arith) (ground arith),
  positive_below (2 ^ 30) c.max_shard_bytes (ground arith) (ground arith),
  ltb_ℤ-Between 0 (2 ^ 30) c.chunk_size (ground arith) (ground arith),
)

Parts : Config → Type 0
Parts c =
    (check_identity c ≡ ok tt)
    × (check_limits c ≡ ok tt)
    × ((not c.allow_mesh && is_nil c.members) ≡ false)
    × (check_members c.members ≡ ok tt)
    × (check_dirs [] (c.origin_dir ∷ c.shard_dir ∷ c.library_dir ∷ []) ≡ ok tt)

validate-Parts : (c : Config) → validate c ≡ ok tt → Parts c
unfolding validate Parts
validate-Parts c h = (ground arith, ground arith, ground arith, ground arith, ground arith)

pub validate-IsValid : (c : Config) → validate c ≡ ok tt → IsValid c
unfolding Parts
validate-IsValid c h =
    let (i, l, m, ms, d) = validate-Parts c h in
    let (version, name, share, role, port) = check_identity-ok c i in
    let (quota, file, shard, chunk) = check_limits-ok c l in
    let (named, a₁, a₂, a₃) = check_dirs_three c.origin_dir c.shard_dir c.library_dir d in
    record {
      version = version;
      name = name;
      share = share;
      role = role;
      port = port-Between (atoi c.port) port;
      quota = quota;
      file_limit = file;
      shard_limit = shard;
      chunk = chunk;
      members = elim (Bool-cases c.allow_mesh) [ inl e ↦ inl e | inr e ↦ inr (ground arith) ];
      each_member = check_members-All c.members ms;
      dirs = named;
      shards_apart = a₁;
      library_apart = a₂;
      library_shards_apart = a₃;
    }
