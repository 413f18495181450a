-- ===== src/Tests/Locking.antt =====
-- Two processes at the locks of one store, and a run of the server and the watcher.
use peertopeer.Prelude.{ℕ, ◌≡◌, refl, arith, false, [], ◌∷◌, ok}
use peertopeer.Prelude.Text.{equal}
use peertopeer.Prelude.Dict.{lookup}
use peertopeer.AtomicFile.{Dir, write_new}
use peertopeer.Digest.{hash, hex_encode, hex_decode, valid_hash}
use peertopeer.LocalStore.{usage}
use peertopeer.LocalStore.Locking.{
  Op, put, usage_of, put_result, Program, done, act, program, put_program,
}
use peertopeer.LocalStore.Locking.Machine.{
  Phase, idle, has_mutex, inside, leaving, is_inside, holds_mutex, set_phase, State, mutex, flock,
  calls, unlock, Reach, starts, steps,
}
use peertopeer.LocalStore.Locking.Linear.{History, Reach-History}
use peertopeer.LocalStore.Locking.Progress.{Freed, Reach-Freed}
use peertopeer.Tests.Params.{sha, sealed, name, env}

-- Each thread is a process.
abbrev process : ℕ → ℕ
process i = i

abbrev op : Op
op = put env sealed []

abbrev other : Op
other = usage_of env

abbrev first : Program → Dir → Dir
first (done o) d = d
first (act f k) d = f d

abbrev next : Program → Dir → Program
next (done o) d = done o
next (act f k) d = k d

abbrev p₀ : Program
p₀ = program sha 0 op

abbrev p₁ : Program
p₁ = next p₀ []

abbrev p₂ : Program
p₂ = next p₁ []

abbrev p₃ : Program
p₃ = next p₂ []

abbrev waiting : ℕ → Phase
waiting = set_phase 1 (has_mutex other refl) (set_phase 0 (has_mutex op refl) (λ _. idle))

abbrev stored : Dir
stored = (name, sealed) ∷ []

abbrev start_phase : ℕ → Phase
start_phase _ = idle

-- The first process is inside, and the second one has its mutex.
abbrev entered : State
entered = record { phase = set_phase 0 (inside op p₀) waiting; dir = []; log = [] }

reach_entered : Reach sha 0 process [] entered
unfolding set_phase
reach_entered =
    steps (steps (steps starts (mutex 0 op refl (λ j e. refl))) (mutex 1 other refl second_free))
      (flock 0 op refl refl refl nobody)
  where
    second_free :
        (j : ℕ) → j ≡ 1 → holds_mutex (set_phase 0 (has_mutex op refl) start_phase j) ≡ false
    second_free j e = rw e refl

    nobody : (j : ℕ) → is_inside (waiting j) ≡ false
    nobody j = ground arith

-- The first process has released the advisory lock, with the shard in the store.
abbrev released : State
released = record {
  phase = set_phase 0 leaving (
      set_phase 0 (inside op p₃)
        (set_phase 0 (inside op p₂) (set_phase 0 (inside op p₁) entered.phase)));
  dir = first p₂ (first p₁ (first p₀ []));
  log = (op, put_result (ok name)) ∷ [];
}

reach_released : Reach sha 0 process [] released
unfolding set_phase program put_program valid_hash hex_decode hash hex_encode lookup write_new usage
    equal
reach_released =
    steps
      (steps
        (steps (steps reach_entered (calls 0 op (first p₀) (next p₀) refl))
          (calls 0 op (first p₁) (next p₁) refl))
        (calls 0 op (first p₂) (next p₂) refl))
      (unlock 0 op (put_result (ok name)) refl)

Reach-History_example : History sha 0 [] ((op, put_result (ok name)) ∷ []) released.dir
unfolding set_phase
Reach-History_example = Reach-History sha 0 [] process released reach_released nobody
  where
    nobody : (j : ℕ) → is_inside (released.phase j) ≡ false
    nobody j = ground arith

-- The second process, which waits for the first one.
Reach-Freed_example : Freed sha 0 process 1 entered
Reach-Freed_example = Reach-Freed sha 0 process [] entered 1 reach_entered
