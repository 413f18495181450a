-- ===== src/ShardServer/Sequences.antt =====
-- What holds after any sequence of requests, from any callers and with any system calls failing.
use peertopeer.Prelude.{ℕ, ◌≤◌, ◌<◌, ◌≡◌, refl, ◌≢◌, inl, inr, true, false, some}
use peertopeer.Prelude.{List, [], ◌∷◌, ◌++◌, arith, All, Bool-cases, length, ap, sym, ◌∙◌, take}
use peertopeer.Prelude.Text.{Bytes, text, equal, equal_iff}
use peertopeer.Prelude.Dict.{lookup}
use peertopeer.AtomicFile.{Dir}
use peertopeer.Digest.{Sha256, valid_hash}
use peertopeer.LocalStore.{Env, owner_name, usage, put_owned, delete_owned}
use peertopeer.LocalStore.Integrity.{put_owned-keeps}
use peertopeer.LocalStore.Quota.{usage-put_owned, usage-delete_owned, owner_name-not_valid}
use peertopeer.LocalStore.Owners.{delete_owned-stranger}
use peertopeer.LocalStore.Intact.{
  IsIntact, put_owned-IsIntact, delete_owned-IsIntact, delete_owned-keeps,
}
use peertopeer.ShardServer.{Options, Request, Response, admitted, admit, handle}
use peertopeer.ShardServer.Cases.{Handled, handle-Handled}

module _ (sha : Sha256) (o : Options) (quota : ℕ) (os arch : Bytes) where
  -- The requests in the order in which the store's lock lets them in, each with what fails in it.
  unfoldable pub serve : List (Env × Request) → Dir → Dir
  serve [] d = d
  serve ((env, r) ∷ rest) d = serve rest (handle sha o quota os arch env r d).1

  module _ (P : Dir → Type 0) (Allowed : Request → Type 0)
      (put : (env : Env) (s caller : Bytes) (d : Dir)
        → P d
        → P (put_owned sha quota env s caller d).1)
      (delete : (env : Env) (r : Request) (h caller : Bytes) (d : Dir)
        → Allowed r
        → admit o r ≡ admitted caller
        → P d
        → P (delete_owned env h caller d).1) where
    serve_induction :
        (requests : List (Env × Request)) (d : Dir)
        → All (λ (x : Env × Request). Allowed x.1) requests
        → P d
        → P (serve requests d)
    unfolding serve
    serve_induction [] d a h = h
    serve_induction ((env, r) ∷ rest) d (a, more) h =
        serve_induction rest _ more (step (handle-Handled sha o quota env r d os arch))
      where
        step : {x : Response} {d' : Dir} → Handled sha o quota env r d x d' → P d'
        step (Handled.answered _ _ e) = rw e h
        step (Handled.uploaded caller s _ _ _ _ _ e _) = rw e (put env s caller d h)
        step (Handled.deleted caller k adm _ _ _ e _ _) = rw e (delete env r k caller d a adm h)

module _ (sha : Sha256) (o : Options) (quota : ℕ) (os arch : Bytes) where
  unrestricted : (requests : List (Env × Request)) → All (λ (x : Env × Request). Unit {0}) requests
  unrestricted [] = tt
  unrestricted (x ∷ requests) = (tt, unrestricted requests)

  -- A device that offers a quota, and keeps to it, does so after any requests.
  pub serve-quota :
      (requests : List (Env × Request)) (d : Dir)
      → 0 < quota
      → usage d ≤ quota
      → usage (serve sha o quota os arch requests d) ≤ quota
  serve-quota requests d limited u =
      serve_induction sha o quota os arch (λ d. usage d ≤ quota) (λ r. Unit {0})
        (λ env s caller d u. usage-put_owned sha quota env s caller d limited u)
        (λ env r h caller d _ _ u. omega (arith, usage-delete_owned env h caller d)) requests d
        (unrestricted requests) u

  -- In a store where every file named like a hash has that hash, it is so after any requests.
  pub serve-IsIntact :
      (requests : List (Env × Request)) (d : Dir)
      → IsIntact sha d
      → IsIntact sha (serve sha o quota os arch requests d)
  serve-IsIntact requests d i =
      serve_induction sha o quota os arch (IsIntact sha) (λ r. Unit {0})
        (λ env s caller d i. put_owned-IsIntact sha quota env s caller d i)
        (λ env r h caller d _ _ i. delete_owned-IsIntact sha env h caller d i) requests d
        (unrestricted requests) i

take-append : (s t : Bytes) → take (length s) (s ++ t) ≡ s
take-append [] t = refl
take-append (c ∷ s) t = rw (take-append s t)

owner_name-injective :
    (h k : Bytes) → valid_hash h ≡ true → valid_hash k ≡ true → owner_name k ≡ owner_name h → k ≡ h
unfolding valid_hash
owner_name-injective h k v w e =
    let same : length k ≡ length h = ground arith in
    sym (take-append k (text ".writer")) ∙ rw (e, same) (take-append h (text ".writer"))

delete_owned-invalid :
    (env : Env) (k writer : Bytes) (d : Dir)
    → valid_hash k ≡ false
    → (delete_owned env k writer d).1 ≡ d
unfolding delete_owned
delete_owned-invalid env k writer d v = ground arith

module _ (h content owner : Bytes) (valid : valid_hash h ≡ true) where
  -- The shard is there, with its owner.
  abbrev Owned : Dir → Type 0
  Owned d = (lookup h d ≡ some content) × (lookup (owner_name h) d ≡ some owner)

  different : (a b : Bytes) → valid_hash a ≡ true → valid_hash b ≡ false → equal a b ≡ false
  different a b v w = elim (Bool-cases (equal a b)) [
    | inr e ↦ e
    | inl e ↦ cc (v, w, ap valid_hash ((equal_iff a b).0 e))
  ]

  delete-Owned :
      (env : Env) (k caller : Bytes) (d : Dir)
      → owner ≢ caller
      → Owned d
      → Owned (delete_owned env k caller d).1
  delete-Owned env k caller d stranger (shard, record_) = elim (Bool-cases (valid_hash k)) [
    | inr bad ↦ rw (delete_owned-invalid env k caller d bad) (shard, record_)
    | inl good ↦ elim (Bool-cases (equal k h)) [
      | inl same ↦
          let key : k ≡ h = (equal_iff k h).0 same in
          let unchanged =
            (delete_owned-stranger env k caller owner d (rw key record_) (inr stranger)).1 in
          rw unchanged (shard, record_)
      | inr other ↦ (
        delete_owned-keeps env k caller h content d other
            (ground (
              arith,
              different h (owner_name k) valid (owner_name-not_valid k good),
              equal_iff (owner_name k) h,
              equal_iff h (owner_name k),
            ))
            shard,
        delete_owned-keeps env k caller (owner_name h) owner d
            (different k (owner_name h) good (owner_name-not_valid h valid))
            (ground (
              arith,
              owner_name-injective h k valid good,
              equal_iff (owner_name k) (owner_name h),
              equal_iff k h,
            ))
            record_,
      )
    ]
  ]

-- A shard that an owner uploaded stays in the store, with its content and the record of its owner,
-- after any requests none of which the mesh identifies as the owner's.
pub serve-Owned :
    (sha : Sha256) (o : Options) (quota : ℕ) (os arch h content owner : Bytes)
    (requests : List (Env × Request)) (d : Dir)
    → valid_hash h ≡ true
    → All (λ (x : Env × Request). admit o x.1 ≢ admitted owner) requests
    → (lookup h d ≡ some content) × (lookup (owner_name h) d ≡ some owner)
    → let d' = serve sha o quota os arch requests d in
      (lookup h d' ≡ some content) × (lookup (owner_name h) d' ≡ some owner)
serve-Owned sha o quota os arch h content owner requests d valid strangers kept =
    serve_induction sha o quota os arch (Owned h content owner valid)
      (λ r. admit o r ≢ admitted owner)
      (λ env s caller d (a, b). (
        put_owned-keeps sha quota env s caller d h content a,
        put_owned-keeps sha quota env s caller d (owner_name h) owner b,
      ))
      (λ env r k caller d n a x.
        delete-Owned h content owner valid env k caller d (λ e. n (a ∙ ap admitted (sym e))) x)
      requests d strangers kept
