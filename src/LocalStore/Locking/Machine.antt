-- ===== src/LocalStore/Locking/Machine.antt =====
-- The steps of the threads: `s.mu.Lock()`, `s.lock()` of lock.go, the system calls of an operation,
-- and the deferred `unlock()` and `s.mu.Unlock()`.
use peertopeer.Prelude.{ℕ, Bool, true, false, ◌≡◌, List, [], ◌∷◌, ◌==◌, if◌then◌else◌}
use peertopeer.AtomicFile.{Dir}
use peertopeer.Digest.{Sha256}
use peertopeer.LocalStore.Locking.{
  Op, Outcome, Program, done, act, program, lock_fails, lock_error, locks,
}

-- Where a thread is: in no operation, with the mutex, with the advisory lock too, or with the mutex
-- alone again.
pub data Phase : Type 0 where
  idle : Phase
  has_mutex : (op : Op) → locks op ≡ true → Phase
  inside : Op → Program → Phase
  leaving : Phase

abbrev pub holds_mutex : Phase → Bool
holds_mutex idle = false
holds_mutex (has_mutex _ _) = true
holds_mutex (inside _ _) = true
holds_mutex leaving = true

abbrev pub is_inside : Phase → Bool
is_inside idle = false
is_inside (has_mutex _ _) = false
is_inside (inside _ _) = true
is_inside leaving = false

unfoldable pub set_phase : ℕ → Phase → (ℕ → Phase) → ℕ → Phase
set_phase i p phase j = if j == i then p else phase j

-- `log` lists the operations that are through with the directory, the last one first, with what
-- they return.
pub record State : Type 0 where
  pub phase : ℕ → Phase
  pub dir : Dir
  pub log : List (Op × Outcome)

abbrev pub start : Dir → State
start d = record { phase = λ _. idle; dir = d; log = [] }

-- The threads are numbers; `process` is the process of each. Other processes have their own
-- mutexes. A thread that waits for the mutex or the lock is where it was before, and can go on where
-- nobody has it: that is what `sync.Mutex` and `flock` with LOCK_EX document.
module _ (sha : Sha256) (quota : ℕ) (process : ℕ → ℕ) where
  pub data Step (s : State) : State → Type 0 where
    mutex :
        (i : ℕ) (op : Op) (l : locks op ≡ true)
        → ((j : ℕ) → process j ≡ process i → holds_mutex (s.phase j) ≡ false)
        → Step s (record s { phase = set_phase i (has_mutex op l) s.phase })
    flock :
        (i : ℕ) (op : Op) (l : locks op ≡ true)
        → s.phase i ≡ has_mutex op l
        → lock_fails op ≡ false
        → ((j : ℕ) → is_inside (s.phase j) ≡ false)
        → Step s (record s { phase = set_phase i (inside op (program sha quota op)) s.phase })
    flock_fails :
        (i : ℕ) (op : Op) (l : locks op ≡ true)
        → s.phase i ≡ has_mutex op l
        → lock_fails op ≡ true
        → Step s (record {
          phase = set_phase i leaving s.phase;
          dir = s.dir;
          log = (op, lock_error op) ∷ s.log;
        })
    calls :
        (i : ℕ) (op : Op) (f : Dir → Dir) (k : Dir → Program)
        → s.phase i ≡ inside op (act f k)
        → Step s (record {
          phase = set_phase i (inside op (k s.dir)) s.phase;
          dir = f s.dir;
          log = s.log;
        })
    unlock :
        (i : ℕ) (op : Op) (o : Outcome)
        → s.phase i ≡ inside op (done o)
        → Step s
            (record { phase = set_phase i leaving s.phase; dir = s.dir; log = (op, o) ∷ s.log })
    mutex_unlock :
        (i : ℕ) → s.phase i ≡ leaving → Step s (record s { phase = set_phase i idle s.phase })

  -- The states that the threads reach, by steps in any order.
  pub data Reach (d : Dir) : State → Type 0 where
    starts : Reach d (start d)
    steps : {s s' : State} → Reach d s → Step s s' → Reach d s'
