-- ===== src/Cli/Serve/Joined.antt =====
-- The end of `serveAndWatch` of cmd/dstore/node.go, and of its goroutines.
use peertopeer.Prelude.{Bool, true, false, ◌≡◌, refl, Status, subst, ap}
use peertopeer.Cli.Serve.{
  Routine, running, returned, received, Caller, selecting, stopping, shutting_down, joining_server,
  joining_watcher, finished, ServeState, launched, ServeStep, server_fails, server_stops,
  watcher_fails, watcher_stops, context_ends, selects_server, selects_watcher, selects_context,
  cancels, shuts_down, skips_server, receives_server, skips_watcher, receives_watcher, ServeSteps,
  stay, more,
}

abbrev pub is_received : Routine → Bool
is_received running = false
is_received (returned _) = false
is_received received = true

-- The flags say which results were received, and the stages of the stop have been passed.
abbrev pub IsSound : Caller → Bool → Bool → Bool → Bool → Type 0
IsSound selecting server watcher cancelled closed = (server ≡ false) × (watcher ≡ false)
IsSound (stopping e x y) server watcher cancelled closed = (server ≡ x) × (watcher ≡ y)
IsSound (shutting_down e x y) server watcher cancelled closed =
    (server ≡ x) × (watcher ≡ y) × (cancelled ≡ true)
IsSound (joining_server e x y) server watcher cancelled closed =
    (server ≡ x) × (watcher ≡ y) × (cancelled ≡ true) × (closed ≡ true)
IsSound (joining_watcher e y) server watcher cancelled closed =
    (server ≡ true) × (watcher ≡ y) × (cancelled ≡ true) × (closed ≡ true)
IsSound (finished r) server watcher cancelled closed =
    (server ≡ true) × (watcher ≡ true) × (cancelled ≡ true) × (closed ≡ true)

abbrev pub Sound : ServeState → Type 0
Sound s = IsSound s.caller (is_received s.server) (is_received s.watcher) s.cancelled s.closed

cancelled-IsSound :
    (c : Caller) (server watcher cancelled closed : Bool)
    → IsSound c server watcher cancelled closed
    → IsSound c server watcher true closed
cancelled-IsSound selecting server watcher cancelled closed h = h
cancelled-IsSound (stopping e x y) server watcher cancelled closed h = h
cancelled-IsSound (shutting_down e x y) server watcher cancelled closed (a, b, _) = (a, b, refl)
cancelled-IsSound (joining_server e x y) server watcher cancelled closed (a, b, _, d) =
    (a, b, refl, d)
cancelled-IsSound (joining_watcher e y) server watcher cancelled closed (a, b, _, d) =
    (a, b, refl, d)
cancelled-IsSound (finished r) server watcher cancelled closed (a, b, _, d) = (a, b, refl, d)

-- What holds of a caller, read off where it stands.
pub at :
    {c : Caller} (s : ServeState)
    → s.caller ≡ c
    → Sound s
    → IsSound c (is_received s.server) (is_received s.watcher) s.cancelled s.closed
at s e h =
    subst (λ c. IsSound c (is_received s.server) (is_received s.watcher) s.cancelled s.closed) e h

pub ServeStep-Sound : {s s' : ServeState} → ServeStep s s' → Sound s → Sound s'
ServeStep-Sound {s} (server_fails e r) h =
    subst (λ b. IsSound s.caller b (is_received s.watcher) s.cancelled s.closed) (ap is_received r)
      h
ServeStep-Sound {s} (server_stops r _) h =
    subst (λ b. IsSound s.caller b (is_received s.watcher) s.cancelled s.closed) (ap is_received r)
      h
ServeStep-Sound {s} (watcher_fails e r) h =
    subst (λ b. IsSound s.caller (is_received s.server) b s.cancelled s.closed) (ap is_received r) h
ServeStep-Sound {s} (watcher_stops r _) h =
    subst (λ b. IsSound s.caller (is_received s.server) b s.cancelled s.closed) (ap is_received r) h
ServeStep-Sound {s} (context_ends _) h = cancelled-IsSound s.caller _ _ s.cancelled s.closed h
ServeStep-Sound {s} (selects_server e c r) h = (refl, (at s c h).1)
ServeStep-Sound {s} (selects_watcher e c r) h = ((at s c h).0, refl)
ServeStep-Sound {s} (selects_context c _) h = at s c h
ServeStep-Sound {s} (cancels e x y c) h = let (a, b) = at s c h in (a, b, refl)
ServeStep-Sound {s} (shuts_down e x y c) h = let (a, b, d) = at s c h in (a, b, d, refl)
ServeStep-Sound {s} (skips_server e y c) h = at s c h
ServeStep-Sound {s} (receives_server e x y c r) h = let (_, b, d, f) = at s c h in (refl, b, d, f)
ServeStep-Sound {s} (skips_watcher e c) h = at s c h
ServeStep-Sound {s} (receives_watcher e x c r) h = let (a, _, d, f) = at s c h in (a, refl, d, f)

pub ServeSteps-Sound : {s : ServeState} → ServeSteps launched s → Sound s
ServeSteps-Sound stay = (refl, refl)
ServeSteps-Sound (more r st) = ServeStep-Sound st (ServeSteps-Sound r)

received_iff : (r : Routine) → is_received r ≡ true → r ≡ received
received_iff running h = cc
received_iff (returned e) h = cc
received_iff received h = refl

-- When `serveAndWatch` returns, the server and the watcher have returned, and their results were
-- received; the context is cancelled, and the server is shut down or closed.
pub ServeSteps-finished :
    (s : ServeState) (r : Status)
    → ServeSteps launched s
    → s.caller ≡ finished r
    → (s.server ≡ received) × (s.watcher ≡ received) × (s.cancelled ≡ true) × (s.closed ≡ true)
ServeSteps-finished s r steps e =
    let (a, b, d, f) = at s e (ServeSteps-Sound steps) in
    (received_iff s.server a, received_iff s.watcher b, d, f)
