-- ===== src/LocalStore/Locking/Progress.antt =====
-- The way of a thread to the end of its operation.
use peertopeer.Prelude.{ℕ, false, ◌≡◌, refl, ◌≢◌, ◌⊎◌, inl, inr, Bool-cases, sym, ap, ◌==◌, arith}
use peertopeer.Prelude.{◌∙◌}
use peertopeer.AtomicFile.{Dir}
use peertopeer.Digest.{Sha256}
use peertopeer.LocalStore.Locking.{Op, Program, done, act, program, lock_fails}
use peertopeer.LocalStore.Locking.Machine.{
  Phase, idle, has_mutex, inside, leaving, is_inside, set_phase, State, Step, mutex, flock,
  flock_fails, calls, unlock, mutex_unlock, Reach, starts, steps,
}
use peertopeer.LocalStore.Locking.Exclusion.{
  set_phase-cases, set_phase-same, no_mutex, Reach-Exclusive, Exclusive,
}

module _ (sha : Sha256) (quota : ℕ) (process : ℕ → ℕ) where
  -- Any number of steps.
  pub data Steps (s : State) : State → Type 0 where
    stay : Steps s s
    more : {s' s'' : State} → Steps s s' → Step sha quota process s' s'' → Steps s s''

  Steps-trans : {s s' s'' : State} → Steps s s' → Steps s' s'' → Steps s s''
  Steps-trans a stay = a
  Steps-trans a (more b st) = more (Steps-trans a b) st

  Reach-Steps :
      {d : Dir} {s s' : State}
      → Reach sha quota process d s
      → Steps s s'
      → Reach sha quota process d s'
  Reach-Steps r stay = r
  Reach-Steps r (more b st) = steps (Reach-Steps r b) st

  -- Steps after which a thread is in no operation; no other thread has moved.
  record Ends (i : ℕ) (s : State) : Type 0 where
    after : State
    taken : Steps s after
    ended : after.phase i ≡ idle
    others : (k : ℕ) → k ≢ i → after.phase k ≡ s.phase k

  set_phase-other :
      (i k : ℕ) (p : Phase) (phase : ℕ → Phase) → k ≢ i → set_phase i p phase k ≡ phase k
  set_phase-other i k p phase n = elim (set_phase-cases i k p phase) [
    | inl (e, _) ↦ absurd (n e)
    | inr (_, e) ↦ e
  ]

  -- A step of the thread, and then the rest of its steps.
  then_Ends :
      (i : ℕ) (p : Phase) (s s' : State)
      → s'.phase ≡ set_phase i p s.phase
      → Step sha quota process s s'
      → Ends i s'
      → Ends i s
  then_Ends i p s s' moved st e = record {
    after = e.after;
    taken = Steps-trans (more stay st) e.taken;
    ended = e.ended;
    others =
        λ k n. e.others k n ∙ ap (λ (f : ℕ → Phase). f k) moved ∙ set_phase-other i k p s.phase n;
  }

  leaving-Ends : (i : ℕ) (s : State) → s.phase i ≡ leaving → Ends i s
  leaving-Ends i s e = record {
    after = record s { phase = set_phase i idle s.phase };
    taken = more stay (mutex_unlock i e);
    ended = set_phase-same i idle s.phase;
    others = λ k n. set_phase-other i k idle s.phase n;
  }

  inside-Ends : (i : ℕ) (op : Op) (p : Program) (s : State) → s.phase i ≡ inside op p → Ends i s
  inside-Ends i op (done o) s e =
      then_Ends i leaving s _ refl (unlock i op o e)
        (leaving-Ends i _ (set_phase-same i leaving s.phase))
  inside-Ends i op (act f k) s e =
      then_Ends i (inside op (k s.dir)) s _ refl (calls i op f k e)
        (inside-Ends i op (k s.dir) _ (set_phase-same i (inside op (k s.dir)) s.phase))

  -- A thread between the advisory lock and its release, or none.
  abbrev Occupied : (ℕ → Phase) → Type 0
  Occupied phase =
      ((i : ℕ) × (op : Op) × (p : Program) × (phase i ≡ inside op p))
      ⊎ ((j : ℕ) → is_inside (phase j) ≡ false)

  outside-Occupied :
      (i : ℕ) (p : Phase) (phase : ℕ → Phase)
      → is_inside p ≡ false
      → is_inside (phase i) ≡ false
      → Occupied phase
      → Occupied (set_phase i p phase)
  outside-Occupied i p phase out was (inl (j, op, q, e)) = elim (set_phase-cases i j p phase) [
    | inl (f, _) ↦ cc (ap is_inside (ap phase (sym f) ∙ e), was)
    | inr (_, f) ↦ inl (j, op, q, f ∙ e)
  ]
  outside-Occupied i p phase out was (inr none_in) = inr (λ j. elim (set_phase-cases i j p phase) [
    | inl (_, f) ↦ ap is_inside f ∙ out
    | inr (_, f) ↦ ap is_inside f ∙ none_in j
  ])

  unlock-Occupied :
      (i : ℕ) (op : Op) (p : Program) (s : State)
      → Exclusive sha quota process s
      → s.phase i ≡ inside op p
      → (j : ℕ) → is_inside (set_phase i leaving s.phase j) ≡ false
  unlock-Occupied i op p s x e j = elim (set_phase-cases i j leaving s.phase) [
    | inl (_, f) ↦ ap is_inside f
    | inr (n, f) ↦ elim (Bool-cases (is_inside (s.phase j))) [
      | inl taken ↦ absurd (n (x.of_all.same j i refl taken (ap is_inside e)))
      | inr free ↦ ap is_inside f ∙ free
    ]
  ]

  Reach-Occupied : {d : Dir} {s : State} → Reach sha quota process d s → Occupied s.phase
  Reach-Occupied starts = inr (λ j. refl)
  Reach-Occupied (steps {s} r (mutex i op l free)) =
      outside-Occupied i _ s.phase refl (no_mutex (s.phase i) (free i refl)) (Reach-Occupied r)
  Reach-Occupied (steps {s} r (flock i op l e f free)) =
      inl (i, op, program sha quota op, set_phase-same i _ s.phase)
  Reach-Occupied (steps {s} r (flock_fails i op l e f)) =
      outside-Occupied i leaving s.phase refl (rw e refl) (Reach-Occupied r)
  Reach-Occupied (steps {s} r (calls i op f k e)) = inl (i, op, k s.dir, set_phase-same i _ s.phase)
  Reach-Occupied (steps {s} r (unlock i op o e)) =
      inr (unlock-Occupied i op (done o) s (Reach-Exclusive sha quota process r) e)
  Reach-Occupied (steps {s} r (mutex_unlock i e)) =
      outside-Occupied i idle s.phase refl (rw e refl) (Reach-Occupied r)

  -- A thread that has the mutex and finds the advisory lock free.
  flock-Ends :
      (i : ℕ) (op : Op) (l : _) (s : State)
      → s.phase i ≡ has_mutex op l
      → ((j : ℕ) → is_inside (s.phase j) ≡ false)
      → Ends i s
  flock-Ends i op l s e free = elim (Bool-cases (lock_fails op)) [
    | inl bad ↦
        then_Ends i leaving s _ refl (flock_fails i op l e bad)
          (leaving-Ends i _ (set_phase-same i leaving s.phase))
    | inr good ↦
        then_Ends i (inside op (program sha quota op)) s _ refl (flock i op l e good free)
          (inside-Ends i op (program sha quota op) _ (set_phase-same i _ s.phase))
  ]

  -- Where the thread with the advisory lock has come to its end, the lock is free.
  freed :
      (j : ℕ) (op : Op) (p : Program) (s : State)
      → Exclusive sha quota process s
      → s.phase j ≡ inside op p
      → (e : Ends j s) → (k : ℕ) → is_inside (e.after.phase k) ≡ false
  freed j op p s x in_ e k = elim (Bool-cases (k == j)) [
    | inl q ↦
        let same : k ≡ j = ground arith in
        ap (λ k. is_inside (e.after.phase k)) same ∙ ap is_inside e.ended
    | inr q ↦
        let n : k ≢ j = λ h. ground (arith, h) in
        elim (Bool-cases (is_inside (s.phase k))) [
          | inl taken ↦ absurd (n (x.of_all.same k j refl taken (ap is_inside in_)))
          | inr free ↦ ap is_inside (e.others k n) ∙ free
        ]
  ]

  -- Steps after which a thread is in no operation.
  pub record Freed (i : ℕ) (s : State) : Type 0 where
    pub after : State
    pub taken : Steps s after
    pub ended : after.phase i ≡ idle

  -- The thread that has the advisory lock goes first.
  waiting-Freed :
      {d : Dir} (i : ℕ) (op : Op) (l : _) (s : State)
      → Reach sha quota process d s
      → s.phase i ≡ has_mutex op l
      → Freed i s
  waiting-Freed i op l s r e = go (Reach-Occupied r)
    where
      go : Occupied s.phase → Freed i s
      go (inr free) =
          let f = flock-Ends i op l s e free in
          record { after = f.after; taken = f.taken; ended = f.ended }
      go (inl (j, op', p, e')) =
          let first = inside-Ends j op' p s e' in
          let n : i ≢ j = λ q. cc (e, e', ap s.phase q) in
          let f =
            flock-Ends i op l first.after (first.others i n ∙ e)
              (freed j op' p s (Reach-Exclusive sha quota process r) e' first) in
          record { after = f.after; taken = Steps-trans first.taken f.taken; ended = f.ended }

  -- From every state that the threads reach, each thread can come to the end of its operation by
  -- steps of the threads: no deadlock between the mutexes and the advisory lock.
  pub Reach-Freed : (d : Dir) (s : State) (i : ℕ) → Reach sha quota process d s → Freed i s
  Reach-Freed d s i r = go (s.phase i) refl
    where
      go : (p : Phase) → s.phase i ≡ p → Freed i s
      go idle e = record { after = s; taken = stay; ended = e }
      go (has_mutex op l) e = waiting-Freed i op l s r e
      go (inside op p) e =
          let f = inside-Ends i op p s e in
          record { after = f.after; taken = f.taken; ended = f.ended }
      go leaving e =
          let f = leaving-Ends i s e in record { after = f.after; taken = f.taken; ended = f.ended }
