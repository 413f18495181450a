-- ===== src/LocalStore/Locking/Exclusion.antt =====
-- The threads between the advisory lock of internal/localstore/lock.go and its release.
use peertopeer.Prelude.{ℕ, Bool, true, false, ◌≡◌, refl, ◌≢◌, ◌==◌, ◌⊎◌, inl, inr, Bool-cases}
use peertopeer.Prelude.{arith, ap, sym, ◌∙◌}
use peertopeer.AtomicFile.{Dir}
use peertopeer.Digest.{Sha256}
use peertopeer.LocalStore.Locking.Machine.{
  Phase, idle, has_mutex, inside, leaving, holds_mutex, is_inside, set_phase, State, Step, mutex,
  flock, flock_fails, calls, unlock, mutex_unlock, Reach, starts, steps,
}

pub set_phase-cases :
    (i j : ℕ) (p : Phase) (phase : ℕ → Phase)
    → ((j ≡ i) × (set_phase i p phase j ≡ p)) ⊎ ((j ≢ i) × (set_phase i p phase j ≡ phase j))
unfolding set_phase
set_phase-cases i j p phase = elim (Bool-cases (j == i)) [
  | inl e ↦ inl (ground arith, simp e refl)
  | inr e ↦ inr (λ q. ground (arith, q), simp e refl)
]

pub set_phase-same : (i : ℕ) (p : Phase) (phase : ℕ → Phase) → set_phase i p phase i ≡ p
set_phase-same i p phase = elim (set_phase-cases i i p phase) [
  | inl (_, e) ↦ e
  | inr (n, _) ↦ absurd (n refl)
]

-- The advisory lock is taken under the mutex.
pub no_mutex : (p : Phase) → holds_mutex p ≡ false → is_inside p ≡ false
no_mutex idle e = refl
no_mutex (has_mutex op l) e = refl
no_mutex (inside op p) e = e
no_mutex leaving e = refl

-- Of the threads with one key at most one passes the test.
module _ (test : Phase → Bool) (key : ℕ → ℕ) where
  pub record Alone (phase : ℕ → Phase) : Type 0 where
    pub same : (j k : ℕ) → key j ≡ key k → test (phase j) ≡ true → test (phase k) ≡ true → j ≡ k

  -- A thread that passed the test before may move on.
  Alone-stays :
      (i : ℕ) (p : Phase) (phase : ℕ → Phase)
      → (test p ≡ true → test (phase i) ≡ true)
      → Alone phase
      → Alone (set_phase i p phase)
  Alone-stays i p phase h a = record { same = λ j k q u v. a.same j k q (before j u) (before k v) }
    where
      before : (j : ℕ) → test (set_phase i p phase j) ≡ true → test (phase j) ≡ true
      before j u = elim (set_phase-cases i j p phase) [
        | inl (e, e') ↦ rw e (h (sym (ap test e') ∙ u))
        | inr (_, e') ↦ sym (ap test e') ∙ u
      ]

  -- A thread may come in where no thread with its key is.
  Alone-comes :
      (i : ℕ) (p : Phase) (phase : ℕ → Phase)
      → ((j : ℕ) → key j ≡ key i → test (phase j) ≡ false)
      → Alone phase
      → Alone (set_phase i p phase)
  Alone-comes i p phase free a = record {
    same = λ j k q u v. elim (set_phase-cases i j p phase) [
      | inl (e, _) ↦ elim (set_phase-cases i k p phase) [
        | inl (f, _) ↦ e ∙ sym f
        | inr (_, f) ↦
            let taken : test (phase k) ≡ true = sym (ap test f) ∙ v in
            cc (free k (sym q ∙ ap key e), taken)
      ]
      | inr (_, e) ↦ elim (set_phase-cases i k p phase) [
        | inl (f, _) ↦
            let taken : test (phase j) ≡ true = sym (ap test e) ∙ u in
            cc (free j (q ∙ ap key f), taken)
        | inr (_, f) ↦ a.same j k q (sym (ap test e) ∙ u) (sym (ap test f) ∙ v)
      ]
    ];
  }

module _ (sha : Sha256) (quota : ℕ) (process : ℕ → ℕ) where
  -- One thread of a process has its mutex, and one of all has the advisory lock.
  pub record Exclusive (s : State) : Type 0 where
    pub of_process : Alone holds_mutex process s.phase
    pub of_all : Alone is_inside (λ _. 0) s.phase

  Step-Exclusive : {s s' : State} → Step sha quota process s s' → Exclusive s → Exclusive s'
  Step-Exclusive {s} (mutex i op l free) x = record {
    of_process = Alone-comes holds_mutex process i _ s.phase free x.of_process;
    of_all = Alone-stays is_inside (λ _. 0) i _ s.phase (λ e. cc) x.of_all;
  }
  Step-Exclusive {s} (flock i op l e _ free) x = record {
    of_process = Alone-stays holds_mutex process i _ s.phase (λ _. rw e refl) x.of_process;
    of_all = Alone-comes is_inside (λ _. 0) i _ s.phase (λ j _. free j) x.of_all;
  }
  Step-Exclusive {s} (flock_fails i op l e _) x = record {
    of_process = Alone-stays holds_mutex process i _ s.phase (λ _. rw e refl) x.of_process;
    of_all = Alone-stays is_inside (λ _. 0) i _ s.phase (λ e. cc) x.of_all;
  }
  Step-Exclusive {s} (calls i op f k e) x = record {
    of_process = Alone-stays holds_mutex process i _ s.phase (λ _. rw e refl) x.of_process;
    of_all = Alone-stays is_inside (λ _. 0) i _ s.phase (λ _. rw e refl) x.of_all;
  }
  Step-Exclusive {s} (unlock i op o e) x = record {
    of_process = Alone-stays holds_mutex process i _ s.phase (λ _. rw e refl) x.of_process;
    of_all = Alone-stays is_inside (λ _. 0) i _ s.phase (λ e. cc) x.of_all;
  }
  Step-Exclusive {s} (mutex_unlock i e) x = record {
    of_process = Alone-stays holds_mutex process i _ s.phase (λ _. rw e refl) x.of_process;
    of_all = Alone-stays is_inside (λ _. 0) i _ s.phase (λ e. cc) x.of_all;
  }

  pub Reach-Exclusive : {d : Dir} {s : State} → Reach sha quota process d s → Exclusive s
  Reach-Exclusive starts = record {
    of_process = record { same = λ j k q u v. cc };
    of_all = record { same = λ j k q u v. cc };
  }
  Reach-Exclusive (steps r st) = Step-Exclusive st (Reach-Exclusive r)
