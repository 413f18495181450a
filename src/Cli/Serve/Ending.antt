-- ===== src/Cli/Serve/Ending.antt =====
-- That `serveAndWatch` of cmd/dstore/node.go comes to its end.
use peertopeer.Prelude.{
  ℕ, zero, suc, ◌+◌, ◌<◌, Bool, true, false, ◌||◌, ◌≡◌, refl, ◌⊎◌, inl, inr, not, arith, Status, ok,
  err, ap, subst,
}
use peertopeer.Cli.Serve.{
  Exit, Routine, running, returned, received, Caller, selecting, stopping, shutting_down,
  joining_server, joining_watcher, finished, ServeState, launched, start_serving, ServeStep,
  server_fails, server_stops, watcher_fails, watcher_stops, context_ends, selects_server,
  selects_watcher, selects_context, cancels, shuts_down, skips_server, receives_server,
  skips_watcher, receives_watcher, ServeSteps,
}
use peertopeer.Cli.Serve.Joined.{is_received, Sound, at, ServeStep-Sound, ServeSteps-Sound}

-- A step that is sure to come where it can: one of the caller's own, or the stop of a server that is
-- closed or of a watcher whose context is cancelled. A failure or a signal need never come.
abbrev pub IsSure : {s s' : ServeState} → ServeStep s s' → Type 0
IsSure (server_fails _ _) = ⊥
IsSure (server_stops _ _) = Unit
IsSure (watcher_fails _ _) = ⊥
IsSure (watcher_stops _ _) = Unit
IsSure (context_ends _) = ⊥
IsSure (selects_server _ _ _) = Unit
IsSure (selects_watcher _ _ _) = Unit
IsSure (selects_context _ _) = Unit
IsSure (cancels _ _ _ _) = Unit
IsSure (shuts_down _ _ _ _) = Unit
IsSure (skips_server _ _ _) = Unit
IsSure (receives_server _ _ _ _ _) = Unit
IsSure (skips_watcher _ _) = Unit
IsSure (receives_watcher _ _ _ _) = Unit

-- Every run ends: the caller has returned, or a sure step can be taken, and after any step that is
-- taken in its place the same holds.
pub data IsEnding : ServeState → Type 0 where
  over : {s : ServeState} (r : Status) → s.caller ≡ finished r → IsEnding s
  goes_on :
      {s s' : ServeState} (step : ServeStep s s')
      → IsSure step
      → ((s'' : ServeState) → ServeStep s s'' → IsEnding s'')
      → IsEnding s

abbrev pub has_returned : Routine → Bool
has_returned running = false
has_returned (returned _) = true
has_returned received = true

abbrev pub is_selecting : Caller → Bool
is_selecting selecting = true
is_selecting (stopping _ _ _) = false
is_selecting (shutting_down _ _ _) = false
is_selecting (joining_server _ _ _) = false
is_selecting (joining_watcher _ _) = false
is_selecting (finished _) = false

-- There is a reason to stop: the context is cancelled, the server or the watcher has returned, or the
-- caller has left the `select`.
abbrev pub has_cause : ServeState → Bool
has_cause s =
    not (is_selecting s.caller) || s.cancelled || has_returned s.server || has_returned s.watcher

caller_rank : Caller → ℕ
caller_rank selecting = 5
caller_rank (stopping _ _ _) = 4
caller_rank (shutting_down _ _ _) = 3
caller_rank (joining_server _ _ _) = 2
caller_rank (joining_watcher _ _) = 1
caller_rank (finished _) = 0

abbrev flag_rank : Bool → ℕ
flag_rank true = 0
flag_rank false = 1

abbrev rank : ServeState → ℕ
rank s =
    caller_rank s.caller
    + flag_rank (has_returned s.server)
    + flag_rank (has_returned s.watcher)
    + flag_rank s.cancelled

-- No run is longer than the rank of its first state.
ServeStep-rank : {s s' : ServeState} → ServeStep s s' → rank s' < rank s
unfolding caller_rank
ServeStep-rank {s} (server_fails e r) = rw r (omega arith)
ServeStep-rank {s} (server_stops r _) = rw r (omega arith)
ServeStep-rank {s} (watcher_fails e r) = rw r (omega arith)
ServeStep-rank {s} (watcher_stops r _) = rw r (omega arith)
ServeStep-rank {s} (context_ends c) = rw c (omega arith)
ServeStep-rank {s} (selects_server e c r) = rw (c, r) (omega arith)
ServeStep-rank {s} (selects_watcher e c r) = rw (c, r) (omega arith)
ServeStep-rank {s} (selects_context c k) = rw (c, k) (omega arith)
ServeStep-rank {s} (cancels e x y c) = rw c (omega arith)
ServeStep-rank {s} (shuts_down e x y c) = rw c (omega arith)
ServeStep-rank {s} (skips_server e y c) = rw c (omega arith)
ServeStep-rank {s} (receives_server e x y c r) = rw (c, r) (omega arith)
ServeStep-rank {s} (skips_watcher e c) = rw c (omega arith)
ServeStep-rank {s} (receives_watcher e x c r) = rw (c, r) (omega arith)

-- Every step makes or keeps a reason to stop.
ServeStep-has_cause : {s s' : ServeState} → ServeStep s s' → has_cause s' ≡ true
ServeStep-has_cause (server_fails e r) = ground arith
ServeStep-has_cause (server_stops r _) = ground arith
ServeStep-has_cause (watcher_fails e r) = ground arith
ServeStep-has_cause (watcher_stops r _) = ground arith
ServeStep-has_cause (context_ends c) = ground arith
ServeStep-has_cause (selects_server e c r) = refl
ServeStep-has_cause (selects_watcher e c r) = refl
ServeStep-has_cause (selects_context c k) = refl
ServeStep-has_cause (cancels e x y c) = refl
ServeStep-has_cause (shuts_down e x y c) = refl
ServeStep-has_cause (skips_server e y c) = refl
ServeStep-has_cause (receives_server e x y c r) = refl
ServeStep-has_cause (skips_watcher e c) = refl
ServeStep-has_cause (receives_watcher e x c r) = refl

record SureStep (s : ServeState) : Type 0 where
  next : ServeState
  step : ServeStep s next
  sure : IsSure step

-- Where no step is sure the caller has returned.
abbrev Goes : ServeState → Type 0
Goes s = ((r : Status) × (s.caller ≡ finished r)) ⊎ SureStep s

selecting-Goes : (s : ServeState) → s.caller ≡ selecting → Sound s → has_cause s ≡ true → SureStep s
selecting-Goes s c h cause = server s.server refl
  where
    watcher : (r : Routine) → s.server ≡ running → s.watcher ≡ r → SureStep s
    watcher running q w = record {
      next = _;
      step = selects_context c (ground (arith, c, q, w));
      sure = tt;
    }
    watcher (returned e) q w = record { next = _; step = selects_watcher e c w; sure = tt }
    watcher received q w = cc (ap is_received w, (at s c h).1)

    server : (r : Routine) → s.server ≡ r → SureStep s
    server running q = watcher s.watcher q refl
    server (returned e) q = record { next = _; step = selects_server e c q; sure = tt }
    server received q = cc (ap is_received q, (at s c h).0)

joining_server-Goes :
    (s : ServeState) (e : Exit) (x y : Bool)
    → s.caller ≡ joining_server e x y
    → Sound s
    → SureStep s
joining_server-Goes s e true y c h = record { next = _; step = skips_server e y c; sure = tt }
joining_server-Goes s e false y c h = go s.server refl
  where
    go : (r : Routine) → s.server ≡ r → SureStep s
    go running q =
        let (_, _, _, k) = at s c h in record { next = _; step = server_stops q k; sure = tt }
    go (returned x) q = record { next = _; step = receives_server e x y c q; sure = tt }
    go received q = cc (ap is_received q, (at s c h).0)

joining_watcher-Goes :
    (s : ServeState) (e : Exit) (y : Bool) → s.caller ≡ joining_watcher e y → Sound s → SureStep s
joining_watcher-Goes s e true c h = record { next = _; step = skips_watcher e c; sure = tt }
joining_watcher-Goes s e false c h = go s.watcher refl
  where
    go : (r : Routine) → s.watcher ≡ r → SureStep s
    go running q =
        let (_, _, k, _) = at s c h in record { next = _; step = watcher_stops q k; sure = tt }
    go (returned x) q = record { next = _; step = receives_watcher e x c q; sure = tt }
    go received q = cc (ap is_received q, (at s c h).1)

goes : (s : ServeState) (c : Caller) → s.caller ≡ c → Sound s → has_cause s ≡ true → Goes s
goes s selecting e h cause = inr (selecting-Goes s e h cause)
goes s (stopping x p q) e h cause = inr (record { next = _; step = cancels x p q e; sure = tt })
goes s (shutting_down x p q) e h cause =
    inr (record { next = _; step = shuts_down x p q e; sure = tt })
goes s (joining_server x p q) e h cause = inr (joining_server-Goes s x p q e h)
goes s (joining_watcher x q) e h cause = inr (joining_watcher-Goes s x q e h)
goes s (finished r) e h cause = inl (r, e)

Sound-IsEnding :
    (fuel : ℕ) (s : ServeState) → rank s < fuel → Sound s → has_cause s ≡ true → IsEnding s
Sound-IsEnding zero s low h cause = absurd (omega arith)
Sound-IsEnding (suc fuel) s low h cause = elim (goes s s.caller refl h cause) [
  | inl (r, e) ↦ over r e
  | inr g ↦ goes_on g.step g.sure (λ s' step.
      let less : rank s' < fuel = omega (arith, ServeStep-rank step) in
      Sound-IsEnding fuel s' less (ServeStep-Sound step h) (ServeStep-has_cause step))
]

-- From a state that `serveAndWatch` reaches after it listens, and in which there is a reason to stop,
-- every run ends with its return: as long as it has not returned, there is a step that is sure to come
-- without a failure or a signal, and every step that is taken leads nearer to the end.
pub ServeSteps-IsEnding :
    (listen : Status) (s₀ s : ServeState)
    → start_serving listen ≡ ok s₀
    → ServeSteps s₀ s
    → has_cause s ≡ true
    → IsEnding s
unfolding start_serving
ServeSteps-IsEnding (ok _) s₀ s e steps cause =
    Sound-IsEnding (suc (rank s)) s (omega arith)
      (ServeSteps-Sound (subst (λ t. ServeSteps t s) (started e) steps)) cause
  where
    started : ok launched ≡ ok s₀ → s₀ ≡ launched
    started h = cc
ServeSteps-IsEnding (err x) s₀ s e steps cause = cc
