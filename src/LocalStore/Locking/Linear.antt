-- ===== src/LocalStore/Locking/Linear.antt =====
-- The interleaved system calls of the threads, and whole operations.
use peertopeer.Prelude.{ℕ, false, ◌≡◌, refl, ◌≢◌, List, [], ◌∷◌, inl, inr, sym, ap, ◌∙◌, subst}
use peertopeer.AtomicFile.{Dir}
use peertopeer.Digest.{Sha256}
use peertopeer.LocalStore.Locking.{Op, Outcome, Program, done, act, perform, finish}
use peertopeer.LocalStore.Locking.Programs.{perform-lock_error, finish-program}
use peertopeer.LocalStore.Locking.Machine.{
  Phase, idle, has_mutex, inside, leaving, is_inside, set_phase, State, Step, mutex, flock,
  flock_fails, calls, unlock, mutex_unlock, Reach, starts, steps,
}
use peertopeer.LocalStore.Locking.Exclusion.{
  set_phase-cases, set_phase-same, no_mutex, Reach-Exclusive, Exclusive,
}

module _ (sha : Sha256) (quota : ℕ) (d₀ : Dir) where
  -- The operations of the list, run one at a time, the last of the list first, return what the list
  -- says and leave the directory.
  pub data History : List (Op × Outcome) → Dir → Type 0 where
    nothing_yet : History [] d₀
    then_one :
        {log : List (Op × Outcome)} {d : Dir} (op : Op) (o : Outcome) (d' : Dir)
        → perform sha quota op d ≡ (o, d')
        → History log d
        → History ((op, o) ∷ log) d'

  module _ (process : ℕ → ℕ) where
    -- What a thread between the locks will have done is what its operation does in one step.
    record Running (log : List (Op × Outcome)) (d : Dir) (op : Op) (p : Program) : Type 0 where
      before : Dir
      history : History log before
      agrees : finish p d ≡ perform sha quota op before

    record Linear (s : State) : Type 0 where
      settled : ((j : ℕ) → is_inside (s.phase j) ≡ false) → History s.log s.dir
      running : (i : ℕ) (op : Op) (p : Program) → s.phase i ≡ inside op p → Running s.log s.dir op p

    was_outside :
        (i : ℕ) (p : Phase) (phase : ℕ → Phase)
        → is_inside (phase i) ≡ false
        → ((j : ℕ) → is_inside (set_phase i p phase j) ≡ false)
        → (j : ℕ) → is_inside (phase j) ≡ false
    was_outside i p phase out all j = elim (set_phase-cases i j p phase) [
      | inl (e, _) ↦ rw e out
      | inr (_, e) ↦ sym (ap is_inside e) ∙ all j
    ]

    was_inside :
        (i k : ℕ) (p : Phase) (phase : ℕ → Phase) (op : Op) (q : Program)
        → is_inside p ≡ false
        → set_phase i p phase k ≡ inside op q
        → (k ≢ i) × (phase k ≡ inside op q)
    was_inside i k p phase op q out e = elim (set_phase-cases i k p phase) [
      | inl (_, f) ↦ let same : p ≡ inside op q = sym f ∙ e in cc (ap is_inside same, out)
      | inr (n, f) ↦ (n, sym f ∙ e)
    ]

    -- A thread that was outside and stays outside changes nothing for the others.
    outside-Linear :
        (s : State) (i : ℕ) (p : Phase)
        → is_inside p ≡ false
        → is_inside (s.phase i) ≡ false
        → Linear s
        → Linear (record s { phase = set_phase i p s.phase })
    outside-Linear s i p out was h = record {
      settled = λ all. h.settled (was_outside i p s.phase was all);
      running = λ k op q e. h.running k op q (was_inside i k p s.phase op q out e).1;
    }

    -- A thread that is inside is the only one of which there is something to say.
    inside-Linear :
        (i : ℕ) (op : Op) (p : Program) (phase : ℕ → Phase) (d : Dir) (log : List (Op × Outcome))
        → let s : State = record { phase = set_phase i (inside op p) phase; dir = d; log = log } in
          Exclusive sha quota process s → Running log d op p → Linear s
    inside-Linear i op p phase d log x r = record {
      settled = λ all. cc (ap is_inside (set_phase-same i (inside op p) phase), all i);
      running = λ k op' p' e.
          let here = set_phase-same i (inside op p) phase in
          let one : k ≡ i = x.of_all.same k i refl (ap is_inside e) (ap is_inside here) in
          let same : inside op p ≡ inside op' p' =
            sym here ∙ ap (set_phase i (inside op p) phase) (sym one) ∙ e in
          moved op op' p p' same r;
    }
      where
        moved :
            (op op' : Op) (p p' : Program)
            → inside op p ≡ inside op' p'
            → Running log d op p
            → Running log d op' p'
        moved op op' p p' e r = subst Of e r
          where
            Of : Phase → Type 0
            Of (inside op p) = Running log d op p
            Of idle = Unit
            Of (has_mutex op l) = Unit
            Of leaving = Unit

    Step-Linear :
        {s s' : State}
        → Step sha quota process s s'
        → Exclusive sha quota process s
        → Exclusive sha quota process s'
        → Linear s
        → Linear s'
    Step-Linear {s} (mutex i op l free) x x' h =
        outside-Linear s i _ refl (no_mutex (s.phase i) (free i refl)) h
    Step-Linear {s} (flock i op l e f free) x x' h =
        inside-Linear i op _ s.phase s.dir s.log x' (record {
          before = s.dir;
          history = h.settled free;
          agrees = finish-program sha quota op s.dir f l;
        })
    Step-Linear {s} (flock_fails i op l e f) x x' h = record {
      settled = λ all.
          then_one op _ s.dir (perform-lock_error sha quota op s.dir f l)
            (h.settled (was_outside i leaving s.phase (rw e refl) all));
      running = λ k op' p' g.
          let r = h.running k op' p' (was_inside i k leaving s.phase op' p' refl g).1 in
          record {
            before = r.before;
            history =
                then_one op _ r.before (perform-lock_error sha quota op r.before f l) r.history;
            agrees = r.agrees;
          };
    }
    Step-Linear {s} (calls i op f k e) x x' h =
        let r = h.running i op (act f k) e in
        inside-Linear i op (k s.dir) s.phase (f s.dir) s.log x'
          (record { before = r.before; history = r.history; agrees = unfold finish in r.agrees })
    Step-Linear {s} (unlock i op o e) x x' h = record {
      settled = λ _.
          let r = h.running i op (done o) e in
          then_one op o s.dir (sym r.agrees ∙ unfold finish in refl) r.history;
      running = λ k op' p' g.
          let (n, was) = was_inside i k leaving s.phase op' p' refl g in
          absurd (n (x.of_all.same k i refl (ap is_inside was) (ap is_inside e)));
    }
    Step-Linear {s} (mutex_unlock i e) x x' h = outside-Linear s i _ refl (rw e refl) h

    Reach-Linear : {s : State} → Reach sha quota process d₀ s → Linear s
    Reach-Linear starts = record { settled = λ _. nothing_yet; running = λ i op p e. cc }
    Reach-Linear (steps r st) =
        Step-Linear st (Reach-Exclusive sha quota process r)
          (Reach-Exclusive sha quota process (steps r st)) (Reach-Linear r)

    -- However the system calls of the threads and processes interleave: in a state that they reach,
    -- and in which no thread is between the advisory lock and its release, the operations that are
    -- through have returned what they return one after the other, each in one step, and the directory
    -- is what they leave so.
    pub Reach-History :
        (s : State)
        → Reach sha quota process d₀ s
        → ((j : ℕ) → is_inside (s.phase j) ≡ false)
        → History s.log s.dir
    Reach-History s r = (Reach-Linear r).settled
