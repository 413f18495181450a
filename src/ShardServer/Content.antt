-- ===== src/ShardServer/Content.antt =====
-- What is served is what was uploaded.
use peertopeer.Prelude.{ℕ, ◌≡◌, ◌≢◌, refl, false, ◌||◌, not, some, ap, sym}
use peertopeer.Prelude.Dict.{lookup}
use peertopeer.Prelude.{[], ◌∷◌, ◌++◌, arith, length, ◌==◌, ok}
use peertopeer.Prelude.{Result-cases, inl, inr, subst, ◌∙◌}
use peertopeer.Prelude.Text.{Bytes, text, equal, has_prefix, trim_prefix}
use peertopeer.Prelude.Text.{contains_any}
use peertopeer.AtomicFile.{Dir}
use peertopeer.Digest.{Sha256, hash, valid_hash, hash-valid, no_separator-hex_encode}
use peertopeer.LocalStore
use peertopeer.LocalStore.{Env}
use peertopeer.LocalStore.Integrity.{get-hash, get-found, get-put_owned, put_owned-keeps}
use peertopeer.ShardServer.{
  Options, Request, Response, full, shard, Admission, admitted, denied, admit, handle, handle_get,
  handle_shard, route, shards_prefix, store_error,
}
use peertopeer.ShardServer.Cases.{Handled, handle-Handled, admit-denied}

hash-shape :
    (sha : Sha256) (s : Bytes)
    → (not (length (hash sha s) == 64) || contains_any (hash sha s) (b'/' ∷ b'\\' ∷ [])) ≡ false
unfolding valid_hash
hash-shape sha s = rw plain (ground (arith, hash-valid sha s))
  where
    plain : contains_any (hash sha s) (b'/' ∷ b'\\' ∷ []) ≡ false
    plain = unfold hash in no_separator-hex_encode (sha.sum s) (sha.sum-bytes s)

module _ (sha : Sha256) (o : Options) (quota : ℕ) (os arch : Bytes) where
  -- An admitted caller that asks for a shard by its hash gets what the store reads.
  pub handle-get :
      (env : Env) (r : Request) (d : Dir) (caller s : Bytes)
      → admit o r ≡ admitted caller
      → r.method ≡ text "GET"
      → r.path ≡ shards_prefix ++ hash sha s
      → handle sha o quota os arch env r d ≡ (handle_get sha o quota env (hash sha s) d, d)
  unfolding handle route handle_shard equal has_prefix trim_prefix
  handle-get env r d caller s a m p = rw (a, handle) (rw (p, m) (simp (hash-shape sha s)))

  -- A reply of the status 200 with a shard is to a request for that shard's hash.
  pub handle-shard :
      (env : Env) (h s : Bytes) (d : Dir)
      → handle_get sha o quota env h d ≡ record { status = 200; answer = shard s }
      → hash sha s ≡ h
  unfolding handle_get store_error
  handle-shard env h s d e = elim (Result-cases (LocalStore.get sha env.read_fails h d)) [
    | inr (x, bad) ↦ ground arith
    | inl (c, good) ↦ get-hash sha env.read_fails h s d (ground arith)
  ]

  -- A request that is not a deletion keeps every file of the store.
  pub handle-keeps :
      (env : Env) (r : Request) (d : Dir) (k v : Bytes)
      → r.method ≢ text "DELETE"
      → lookup k d ≡ some v
      → lookup k (handle sha o quota os arch env r d).1 ≡ some v
  handle-keeps env r d k v n h = go (handle-Handled sha o quota env r d os arch)
    where
      go : {x : Response} {d' : Dir} → Handled sha o quota env r d x d' → lookup k d' ≡ some v
      go (Handled.answered _ _ e) = rw e h
      go (Handled.uploaded who s _ _ _ _ _ e _) = rw e (put_owned-keeps sha quota env s who d k v h)
      go (Handled.deleted _ _ _ m _ _ _ _ _) = absurd (n m)

  -- A request for a shard by its hash that gets the status 200 gets a file of the store, which has
  -- that hash.
  pub record Found (h : Bytes) (d : Dir) (x : Response) : Type 0 where
    pub content : Bytes
    pub answer : x.answer ≡ shard content
    pub found : lookup h d ≡ some content
    pub same : hash sha content ≡ h

  handle_get-Found :
      (env : Env) (h : Bytes) (d : Dir)
      → (handle_get sha o quota env h d).status ≡ 200
      → Found h d (handle_get sha o quota env h d)
  unfolding handle_get store_error
  handle_get-Found env h d e = elim (Result-cases (LocalStore.get sha env.read_fails h d)) [
    | inr (x, bad) ↦ ground arith
    | inl (c, good) ↦
        let seen = get-found sha env.read_fails h c d good in
        let named = get-hash sha env.read_fails h c d good in
        rw (good, handle_get) (record { content = c; answer = refl; found = seen; same = named })
  ]

  pub handle-Found :
      (env : Env) (r : Request) (d : Dir) (s : Bytes)
      → r.method ≡ text "GET"
      → r.path ≡ shards_prefix ++ hash sha s
      → (handle sha o quota os arch env r d).0.status ≡ 200
      → Found (hash sha s) d (handle sha o quota os arch env r d).0
  unfolding handle
  handle-Found env r d s m p e = go (admit o r) refl
    where
      go :
          (a : Admission)
          → admit o r ≡ a
          → Found (hash sha s) d (handle sha o quota os arch env r d).0
      go (denied x) f =
          let answer : handle sha o quota os arch env r d ≡ (x, d) = rw (f, handle) refl in
          let code = admit-denied sha o quota env r d x f in
          absurd (omega (arith, ap (λ y. y.0.status) answer))
      go (admitted caller) f =
          let answer = handle-get env r d caller s f m p in
          subst (λ y. Found (hash sha s) d y.0) (sym answer)
            (handle_get-Found env (hash sha s) d (ap (λ y. y.0.status) (sym answer) ∙ e))

  -- After an upload was answered with 201, an admitted caller that asks for the same path gets the
  -- body that was uploaded, if the read does not fail and no other data has the body's hash.
  pub get-put :
      (env later : Env) (r q : Request) (d : Dir) (s caller : Bytes)
      → r.body ≡ full s
      → (handle sha o quota os arch env r d).0.status ≡ 201
      → admit o q ≡ admitted caller
      → q.method ≡ text "GET"
      → q.path ≡ r.path
      → later.read_fails ≡ false
      → ((t : Bytes) → hash sha t ≡ hash sha s → t ≡ s)
      → (handle sha o quota os arch later q (handle sha o quota os arch env r d).1).0
        ≡ record { status = 200; answer = shard s }
  get-put env later r q d s caller body created a m p reads unique =
      go (handle-Handled sha o quota env r d os arch) created
    where
      read :
          (d' : Dir)
          → LocalStore.get sha false (hash sha s) d' ≡ ok s
          → q.path ≡ shards_prefix ++ hash sha s
          → (handle sha o quota os arch later q d').0 ≡ record { status = 200; answer = shard s }
      read d' g path =
          rw (handle-get later q d' caller s a m path)
            (unfold handle_get in ground (arith, reads, g))

      go :
          {x : Response} {d' : Dir}
          → Handled sha o quota env r d x d'
          → x.status ≡ 201
          → (handle sha o quota os arch later q d').0 ≡ record { status = 200; answer = shard s }
      go (Handled.answered n _ _) c = absurd (n c)
      go (Handled.deleted _ _ _ _ _ _ _ n _) c = absurd (n c)
      go (Handled.uploaded who t _ _ _ b path e stored) c =
          let same : t ≡ s = ground arith in
          let (h, good) = stored c in
          let good' : (LocalStore.put_owned sha quota env s who d).0 ≡ ok h =
            subst (λ x. (LocalStore.put_owned sha quota env x who d).0 ≡ ok h) same good in
          let (name, got) = get-put_owned sha quota env s who d h unique good' in
          rw (e, same) (read _ (rw (← name) got) (p ∙ path ∙ rw same))
