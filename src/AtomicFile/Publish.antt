-- ===== src/AtomicFile/Publish.antt =====
-- What a write leaves in the directory, whichever system calls fail.
use peertopeer.Prelude.{◌≡◌, refl, ◌≢◌, inl, inr, true, false, ◌||◌, Bool-cases, Option-cases}
use peertopeer.Prelude.{none, some, ◌∷◌, arith, Result, Status, ok, err, Error}
use peertopeer.Prelude.Text.{Bytes, equal, equal_iff, equal_refl}
use peertopeer.Prelude.Dict.{lookup, erase, lookup-cons, erase-absent}
use peertopeer.AtomicFile.{
  Dir, Faults, exists, publish, fill, clean_up, write_new_from, write_new, no_faults,
}

exists-none : (k : Bytes) (d : Dir) → exists k d ≡ false → lookup k d ≡ none
unfolding exists
exists-none k d h = ground arith

-- What is left of the temporary file of a write: nothing, unless its removal fails.
pub data Left (f : Faults) (tmp : Bytes) (d d₀ : Dir) : Type 0 where
  removed : d₀ ≡ d → Left f tmp d d₀
  leftover :
      (content : Bytes)
      → f.remove ≡ true
      → lookup tmp d ≡ none
      → d₀ ≡ (tmp, content) ∷ d
      → Left f tmp d d₀

pub lookup-Left :
    {f : Faults} {tmp : Bytes} {d d₀ : Dir}
    → Left f tmp d d₀
    → (k v : Bytes) → lookup k d ≡ some v
    → lookup k d₀ ≡ some v
lookup-Left (removed e) k v h = rw e h
lookup-Left {tmp} (leftover content _ free e) k v h =
    rw (e, lookup-cons) (ground (arith, free, equal_iff tmp k))

-- Where the removal does not fail nothing is left.
pub Left-removed :
    {f : Faults} {tmp : Bytes} {d d₀ : Dir} → Left f tmp d d₀ → f.remove ≡ false → d₀ ≡ d
Left-removed (removed e) h = e
Left-removed (leftover _ fails _ _) h = cc

-- The callback's content is published under a name that was free, and nothing else changes.
pub record Published (path : Bytes) (output : Result Bytes) (d d' : Dir) : Type 0 where
  pub content : Bytes
  pub written : output ≡ ok content
  pub fresh : lookup path d ≡ none
  pub result : d' ≡ (path, content) ∷ d

-- The directory is as it was, or the file is published; a success publishes.
pub data Written (f : Faults) (path : Bytes) (output : Result Bytes) (d : Dir) (r : Status)
    (d' : Dir) : Type 0 where
  done : r ≡ ok tt → Published path output d d' → Written f path output d r d'
  unsynced :
      r ≢ ok tt
      → (f.open_dir || f.sync_dir) ≡ true
      → Published path output d d'
      → Written f path output d r d'
  unchanged : r ≢ ok tt → d' ≡ d → Written f path output d r d'

module _ (f : Faults) (tmp path : Bytes) (d : Dir) (free : lookup tmp d ≡ none) where
  erase-temporary : (content : Bytes) → erase tmp ((tmp, content) ∷ d) ≡ d
  unfolding erase
  erase-temporary content = rw (equal_refl tmp) (erase-absent tmp d free)

  erase-published :
      (content : Bytes)
      → equal path tmp ≡ false
      → erase tmp ((path, content) ∷ (tmp, content) ∷ d) ≡ (path, content) ∷ d
  unfolding erase
  erase-published content h = ground (arith, equal_refl tmp, erase-absent tmp d)

  linked_free :
      (content : Bytes)
      → exists path ((tmp, content) ∷ d) ≡ false
      → (equal path tmp ≡ false) × (lookup path d ≡ none)
  unfolding exists lookup
  linked_free content h = ground (arith, equal_iff path tmp, equal_iff tmp path)

  linked-fresh :
      (content : Bytes)
      → exists path ((tmp, content) ∷ d) ≡ false
      → lookup path ((tmp, content) ∷ d) ≡ none
  unfolding exists
  linked-fresh content h = ground arith

  -- The directory without the published file, and what the removal leaves in it.
  record Linked (content : Bytes) : Type 0 where
    base : Dir
    left : Left f tmp d base
    published :
        Published path (ok content) base (clean_up f tmp ((path, content) ∷ (tmp, content) ∷ d))

  linked : (content : Bytes) → exists path ((tmp, content) ∷ d) ≡ false → Linked content
  unfolding clean_up
  linked content h = elim (Bool-cases f.remove) [
    | inl r ↦ record {
      base = (tmp, content) ∷ d;
      left = leftover content r free refl;
      published = record {
        content = content;
        written = refl;
        fresh = linked-fresh content h;
        result = simp r refl;
      };
    }
    | inr r ↦
        let (differs, fresh) = linked_free content h in
        record {
          base = d;
          left = removed refl;
          published = record {
            content = content;
            written = refl;
            fresh = fresh;
            result = simp r (erase-published content differs);
          };
        }
  ]

  -- What the caller of `fill` sees, after the deferred removal of the temporary file.
  record Ends (output : Result Bytes) (o : Status × Dir) : Type 0 where
    base : Dir
    left : Left f tmp d base
    written : Written f path output base o.0 (clean_up f tmp o.1)

  Ends-unchanged :
      (output : Result Bytes) (content : Bytes) (e : Error)
      → Ends output (err e, (tmp, content) ∷ d)
  unfolding clean_up
  Ends-unchanged output content e = elim (Bool-cases f.remove) [
    | inl r ↦ record {
      base = (tmp, content) ∷ d;
      left = leftover content r free refl;
      written = unchanged (λ h. cc) (simp r refl);
    }
    | inr r ↦ record {
      base = d;
      left = removed refl;
      written = unchanged (λ h. cc) (simp r (erase-temporary content));
    }
  ]

  publish-Written :
      (content : Bytes) → Ends (ok content) (publish f path content ((tmp, content) ∷ d))
  unfolding publish
  publish-Written content = elim (Bool-cases (f.link || exists path ((tmp, content) ∷ d))) [
    | inl bad ↦ simp bad (Ends-unchanged _ content _)
    | inr good ↦
        let p = linked content (ground arith) in
        elim (Bool-cases f.open_dir) [
          | inl e ↦
              simp (good, e)
                (record {
                  base = p.base;
                  left = p.left;
                  written = unsynced (λ h. cc) (ground arith) p.published;
                })
          | inr e ↦ elim (Bool-cases f.sync_dir) [
            | inl e' ↦
                simp (good, e, e')
                  (record {
                    base = p.base;
                    left = p.left;
                    written = unsynced (λ h. cc) (ground arith) p.published;
                  })
            | inr e' ↦
                simp (good, e, e')
                  (record { base = p.base; left = p.left; written = done refl p.published })
          ]
        ]
  ]

  fill-Written : (output : Result Bytes) → Ends output (fill f tmp path output d)
  unfolding fill
  fill-Written (err e) = elim (Bool-cases f.chmod) [
    | inl c ↦ simp c (Ends-unchanged _ f.partial _)
    | inr c ↦ simp c (Ends-unchanged _ f.partial _)
  ]
  fill-Written (ok content) = elim (Bool-cases f.chmod) [
    | inl c ↦ simp c (Ends-unchanged _ f.partial _)
    | inr c ↦ elim (Bool-cases f.write) [
      | inl w ↦ simp (c, w) (Ends-unchanged _ f.partial _)
      | inr w ↦ elim (Bool-cases f.sync) [
        | inl s ↦ simp (c, w, s) (Ends-unchanged _ content _)
        | inr s ↦ elim (Bool-cases f.close) [
          | inl l ↦ simp (c, w, s, l) (Ends-unchanged _ content _)
          | inr l ↦ simp (c, w, s, l) (publish-Written content)
        ]
      ]
    ]
  ]

-- A write on `d` ends like one on `base`, which has `d` and what is left of the temporary file.
pub record Attempted (f : Faults) (tmp path : Bytes) (output : Result Bytes) (d : Dir) (r : Status)
    (d' : Dir) : Type 0 where
  pub base : Dir
  pub left : Left f tmp d base
  pub written : Written f path output base r d'

pub write_new_from-Attempted :
    (f : Faults) (tmp path : Bytes) (output : Result Bytes) (d : Dir)
    → let o = write_new_from f tmp path output d in Attempted f tmp path output d o.0 o.1
unfolding write_new_from
write_new_from-Attempted f tmp path output d = elim (Bool-cases (f.create || exists tmp d)) [
  | inl bad ↦ rw bad (record { base = d; left = removed refl; written = unchanged (λ h. cc) refl })
  | inr good ↦
      let w = fill-Written f tmp path d (exists-none tmp d (ground arith)) output in
      rw good (record { base = w.base; left = w.left; written = w.written })
]

pub lookup-Published :
    {path : Bytes} {output : Result Bytes} {d d' : Dir}
    → Published path output d d'
    → (k v : Bytes) → lookup k d ≡ some v
    → lookup k d' ≡ some v
lookup-Published {path} p k v h =
    rw (p.result, lookup-cons) (ground (arith, p.fresh, equal_iff path k))

-- A successful write publishes.
pub Written-ok :
    {f : Faults} {path : Bytes} {output : Result Bytes} {d d' : Dir} {r : Status}
    → Written f path output d r d'
    → r ≡ ok tt
    → Published path output d d'
Written-ok (done _ p) e = p
Written-ok (unsynced n _ _) e = absurd (n e)
Written-ok (unchanged n _) e = absurd (n e)

pub lookup-Written :
    {f : Faults} {path : Bytes} {output : Result Bytes} {d d' : Dir} {r : Status}
    → Written f path output d r d'
    → (k v : Bytes) → lookup k d ≡ some v
    → lookup k d' ≡ some v
lookup-Written {f} {path} {output} {d} (done _ p) k v h = lookup-Published p k v h
lookup-Written (unsynced _ _ p) k v h = lookup-Published p k v h
lookup-Written (unchanged _ e) k v h = rw e h

pub lookup-Attempted :
    {f : Faults} {tmp path : Bytes} {output : Result Bytes} {d d' : Dir} {r : Status}
    → Attempted f tmp path output d r d'
    → (k v : Bytes) → lookup k d ≡ some v
    → lookup k d' ≡ some v
lookup-Attempted o k v h = lookup-Written o.written k v (lookup-Left o.left k v h)

pub Published-found :
    {path content : Bytes} {d d' : Dir}
    → Published path (ok content) d d'
    → lookup path d' ≡ some content
Published-found {path} {content} p =
    rw (p.result, lookup-cons, equal_refl path) (ground (arith, p.written))

-- A success is there under its name, which was free.
pub Attempted-found :
    {f : Faults} {tmp path content : Bytes} {d d' : Dir} {r : Status}
    → Attempted f tmp path (ok content) d r d'
    → r ≡ ok tt
    → (lookup path d' ≡ some content) × (lookup path d ≡ none)
Attempted-found {path} {d} o e =
    let p = Written-ok o.written e in
    (
      Published-found p,
      elim (Option-cases (lookup path d)) [
        | inl free ↦ free
        | inr (old, found) ↦ cc (lookup-Left o.left path old found, p.fresh)
      ],
    )

Written-error :
    {f : Faults} {path : Bytes} {output : Result Bytes} {d d' : Dir} {r : Status}
    → Written f path output d r d'
    → (f.open_dir || f.sync_dir) ≡ false
    → r ≢ ok tt
    → d' ≡ d
Written-error (done e _) s n = absurd (n e)
Written-error (unsynced _ e _) s n = cc
Written-error (unchanged _ e) s n = e

module _ (f : Faults) (tmp path : Bytes) (output : Result Bytes) (d : Dir) where
  -- A file that is already in the directory keeps its content, whichever system calls fail.
  pub write_new_from-keeps :
      (k v : Bytes) → lookup k d ≡ some v → lookup k (write_new_from f tmp path output d).1 ≡ some v
  write_new_from-keeps = lookup-Attempted (write_new_from-Attempted f tmp path output d)

  -- A write that succeeds publishes the whole output of the callback under a name that was free;
  -- every other name is as before, but that the temporary file is left where its removal fails, under
  -- its own name, which was free.
  pub write_new_from-ok :
      (write_new_from f tmp path output d).0 ≡ ok tt
      → (base : Dir) × Left f tmp d base
        × Published path output base (write_new_from f tmp path output d).1
  write_new_from-ok h =
      let o = write_new_from-Attempted f tmp path output d in
      (o.base, o.left, Written-ok o.written h)

  -- A write that fails leaves the directory as it was, if neither the opening nor the synchronisation
  -- of the directory fails; but the temporary file is left where its removal fails, under its own name,
  -- which was free.
  pub write_new_from-error :
      (f.open_dir || f.sync_dir) ≡ false
      → (write_new_from f tmp path output d).0 ≢ ok tt
      → Left f tmp d (write_new_from f tmp path output d).1
  write_new_from-error synced h =
      let o = write_new_from-Attempted f tmp path output d in
      rw (Written-error o.written synced h) o.left

-- With no fault, a free temporary name and a free path, the write succeeds.
pub write_new-clean :
    (tmp path content : Bytes) (d : Dir)
    → lookup tmp d ≡ none
    → lookup path d ≡ none
    → equal tmp path ≡ false
    → (write_new no_faults tmp path content d).0 ≡ ok tt
unfolding write_new lookup
write_new-clean tmp path content d free fresh differs = ground arith

pub write_new-Attempted :
    (f : Faults) (tmp path content : Bytes) (d : Dir)
    → let o = write_new f tmp path content d in Attempted f tmp path (ok content) d o.0 o.1
unfolding write_new
write_new-Attempted f tmp path content d = write_new_from-Attempted f tmp path (ok content) d

-- Where the callback fails nothing is published, whichever system calls fail beside it.
pub write_new_from_refused :
    (f : Faults) (tmp path : Bytes) (e : Error) (d : Dir)
    → let o = write_new_from f tmp path (err e) d in (o.0 ≢ ok tt) × Left f tmp d o.1
write_new_from_refused f tmp path e d =
    let o = write_new_from-Attempted f tmp path (err e) d in
    let (n, same) = refused o.written in (n, rw same o.left)
  where
    nothing : {c : Bytes} → err e ≡ ok c → ⊥
    nothing h = cc

    refused :
        {base d' : Dir} {r : Status} → Written f path (err e) base r d' → (r ≢ ok tt) × (d' ≡ base)
    refused (done _ p) = absurd (nothing p.written)
    refused (unsynced _ _ p) = absurd (nothing p.written)
    refused (unchanged n h) = (n, h)
