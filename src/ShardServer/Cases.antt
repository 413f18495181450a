-- ===== src/ShardServer/Cases.antt =====
-- What the handler may do to the store, case by case.
use peertopeer.Prelude.{ℕ, ◌≡◌, refl, ◌≢◌, false, ◌&&◌, ◌||◌, not, Option, none, some}
use peertopeer.Prelude.{[], ◌∷◌, ◌++◌, arith, ltb, length, ◌==◌, inl, inr}
use peertopeer.Prelude.{Result, Status, ok, err, Error, Bool-cases, Result-cases}
use peertopeer.Prelude.Text.{Bytes, text, equal, equal_iff, has_prefix, trim_prefix, trim_prefix-eq}
use peertopeer.Prelude.Text.{contains_any}
use peertopeer.AtomicFile.{Dir}
use peertopeer.Digest.{Sha256, hash}
use peertopeer.LocalStore.{Env, put_owned, delete_owned}
use peertopeer.ShardServer.{
  Options, Request, Response, Body, full, broken, BodyRead, complete, too_large, unreadable,
  Admission, admit, admitted, denied, store_error, shards_prefix, read_body, shard_limit,
  store_body, handle_put, handle_delete, handle_get, handle_shard, route, handle, handle_info,
  http_error, nothing,
}
use peertopeer.Prelude.Int.{pos_part}

module _ (sha : Sha256) (o : Options) (quota : ℕ) (env : Env) (r : Request) (d : Dir) where
  pub data Handled (response : Response) (d' : Dir) : Type 0 where
    answered : response.status ≢ 201 → response.status ≢ 204 → d' ≡ d → Handled response d'
    uploaded :
        (caller s : Bytes)
        → admit o r ≡ admitted caller
        → r.method ≡ text "PUT"
        → o.read_only ≡ false
        → r.body ≡ full s
        → r.path ≡ shards_prefix ++ hash sha s
        → d' ≡ (put_owned sha quota env s caller d).1
        → (response.status ≡ 201 → (h : Bytes) × ((put_owned sha quota env s caller d).0 ≡ ok h))
        → Handled response d'
    deleted :
        (caller h : Bytes)
        → admit o r ≡ admitted caller
        → r.method ≡ text "DELETE"
        → o.identify ≢ none
        → r.path ≡ shards_prefix ++ h
        → d' ≡ (delete_owned env h caller d).1
        → response.status ≢ 201
        → (response.status ≡ 204 → (delete_owned env h caller d).0 ≡ ok tt)
        → Handled response d'

  store_error-status : (e : Error) → ((store_error e).status ≢ 201) × ((store_error e).status ≢ 204)
  unfolding store_error
  store_error-status e = ground arith

  module _ (caller h : Bytes) (a : admit o r ≡ admitted caller)
      (p : r.path ≡ shards_prefix ++ h) where
    store_body-Handled :
        (s : Bytes)
        → r.method ≡ text "PUT"
        → o.read_only ≡ false
        → r.body ≡ full s
        → let x = store_body sha o quota env caller h s d in Handled x.0 x.1
    unfolding store_body
    store_body-Handled s m w b = elim (Bool-cases (equal (hash sha s) h)) [
      | inr e ↦ rw e (answered (λ x. omega arith) (λ x. omega arith) refl)
      | inl e ↦
          let path : r.path ≡ shards_prefix ++ hash sha s =
            ground (arith, equal_iff (hash sha s) h) in
          elim (Result-cases (put_owned sha quota env s caller d).0) [
            | inl (n, good) ↦ rw (e, good) (uploaded caller s a m w b path refl (λ x. (n, good)))
            | inr (x, bad) ↦
                rw (e, bad)
                  (uploaded caller s a m w b path refl (λ y. absurd ((store_error-status x).0 y)))
          ]
    ]

    handle_put-Handled :
        (body : Body)
        → r.body ≡ body
        → r.method ≡ text "PUT"
        → let x = handle_put sha o quota env caller h body d in Handled x.0 x.1
    unfolding handle_put
    handle_put-Handled body b m = elim (Bool-cases o.read_only) [
      | inl e ↦ simp e (answered (λ x. omega arith) (λ x. omega arith) refl)
      | inr e ↦ simp e (read body b e)
    ]
      where
        limit : ℕ
        limit = pos_part (shard_limit o)

        Answers : BodyRead → Type 0
        Answers x =
            let y : Response × Dir = elim x [
              | unreadable ↦ (http_error 400 (text "read body"), d)
              | too_large ↦ (http_error 413 (text "shard exceeds size limit"), d)
              | complete s ↦ store_body sha o quota env caller h s d
            ] in
            Handled y.0 y.1

        read : (body : Body) → r.body ≡ body → o.read_only ≡ false → Answers (read_body limit body)
        read (full s) b w = elim (Bool-cases (ltb limit (length s))) [
          | inl e ↦ unfold read_body in simp e (answered (λ x. omega arith) (λ x. omega arith) refl)
          | inr e ↦ unfold read_body in simp e (store_body-Handled s m w b)
        ]
        read (broken s) b w = elim (Bool-cases (ltb limit (length s))) [
          | inl e ↦ unfold read_body in simp e (answered (λ x. omega arith) (λ x. omega arith) refl)
          | inr e ↦ unfold read_body in simp e (answered (λ x. omega arith) (λ x. omega arith) refl)
        ]

    handle_delete-Handled :
        r.method ≡ text "DELETE"
        → let x = handle_delete sha o quota env caller h d in Handled x.0 x.1
    unfolding handle_delete
    handle_delete-Handled m = go o.identify refl
      where
        reply : Status → Response × Dir
        reply x = elim x [
          | err e ↦ (store_error e, (delete_owned env h caller d).1)
          | ok _ ↦ (record { status = 204; answer = nothing }, (delete_owned env h caller d).1)
        ]

        known :
            o.identify ≢ none
            → (x : Status) → (delete_owned env h caller d).0 ≡ x
            → Handled (reply x).0 (reply x).1
        known i (ok n) e = deleted caller h a m i p refl (λ x. omega arith) (λ x. e)
        known i (err x) e =
            deleted caller h a m i p refl (store_error-status x).0
              (λ y. absurd ((store_error-status x).1 y))

        deletion : Response × Dir
        deletion = reply (delete_owned env h caller d).0

        go :
            (i : Option (Bytes → Result Bytes))
            → o.identify ≡ i
            → let x : Response × Dir = elim i [
              | none ↦ (http_error 403 (text "delete requires mesh identity"), d)
              | some _ ↦ deletion
            ] in
              Handled x.0 x.1
        go none e = answered (λ x. omega arith) (λ x. omega arith) refl
        go (some f) e = known (λ x. cc (x, e)) _ refl

    handle_get-status :
        ((handle_get sha o quota env h d).status ≢ 201)
        × ((handle_get sha o quota env h d).status ≢ 204)
    unfolding handle_get store_error
    handle_get-status = ground arith

    handle_shard-Handled : let x = handle_shard sha o quota env caller h r d in Handled x.0 x.1
    unfolding handle_shard
    handle_shard-Handled = elim (Bool-cases (equal r.method (text "GET"))) [
      | inl e ↦ simp e (answered handle_get-status.0 handle_get-status.1 refl)
      | inr e₁ ↦ elim (Bool-cases (equal r.method (text "PUT"))) [
        | inl e ↦ simp (e₁, e) (handle_put-Handled r.body refl ((equal_iff _ _).0 e))
        | inr e₂ ↦ elim (Bool-cases (equal r.method (text "DELETE"))) [
          | inl e ↦ simp (e₁, e₂, e) (handle_delete-Handled ((equal_iff _ _).0 e))
          | inr e ↦ simp (e₁, e₂, e) (answered (λ x. omega arith) (λ x. omega arith) refl)
        ]
      ]
    ]

  handle_info-status :
      (os arch : Bytes)
      → ((handle_info o quota os arch env d).status ≢ 201)
        × ((handle_info o quota os arch env d).status ≢ 204)
  unfolding handle_info
  handle_info-status os arch = ground arith

  route-Handled :
      (os arch caller : Bytes)
      → admit o r ≡ admitted caller
      → let x = route sha o quota os arch env caller r d in Handled x.0 x.1
  unfolding route
  route-Handled os arch caller a =
      elim (Bool-cases (equal r.path (text "/v1/info") && equal r.method (text "GET"))) [
        | inl e ↦
            simp e (answered (handle_info-status os arch).0 (handle_info-status os arch).1 refl)
        | inr e₁ ↦ elim (Bool-cases (has_prefix r.path shards_prefix)) [
          | inr e ↦ simp (e₁, e) (answered (λ x. omega arith) (λ x. omega arith) refl)
          | inl e₂ ↦
              let h = trim_prefix r.path shards_prefix in
              elim (Bool-cases (not (length h == 64) || contains_any h (b'/' ∷ b'\\' ∷ []))) [
                | inl e ↦ simp (e₁, e₂, e) (answered (λ x. omega arith) (λ x. omega arith) refl)
                | inr e ↦
                    simp (e₁, e₂, e)
                      (handle_shard-Handled caller h a (trim_prefix-eq r.path shards_prefix e₂))
              ]
        ]
      ]

  -- A denied caller gets the status 403.
  pub admit-denied : (response : Response) → admit o r ≡ denied response → response.status ≡ 403
  unfolding admit
  admit-denied response h = ground arith

  pub handle-Handled :
      (os arch : Bytes) → let x = handle sha o quota os arch env r d in Handled x.0 x.1
  unfolding handle
  handle-Handled os arch = go (admit o r) refl
    where
      go :
          (a : Admission)
          → admit o r ≡ a
          → let x : Response × Dir = elim a [
            | denied response ↦ (response, d)
            | admitted caller ↦ route sha o quota os arch env caller r d
          ] in
            Handled x.0 x.1
      go (denied response) e =
          let code = admit-denied response e in answered (λ x. omega arith) (λ x. omega arith) refl
      go (admitted caller) e = route-Handled os arch caller e
