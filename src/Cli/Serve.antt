-- ===== src/Cli/Serve.antt =====
-- `serveAndWatch` of cmd/dstore/node.go as a machine of three routines: the caller, the server and the
-- watcher, which send what they return over channels that hold one value. The printing is left out.
pub mod Joined
pub mod Ending
use peertopeer.Prelude.{Bool, true, false, ◌≡◌, Error, Result, Status, ok, err, failed}

-- What `Serve` and `Watch` return: nil, the two errors that a stop makes, or another error.
pub data Exit : Type 0 where
  clean canceled server_closed : Exit
  other : Error → Exit

-- The `errors.Is` tests at the end.
unfoldable pub result_of : Exit → Status
result_of clean = ok tt
result_of canceled = ok tt
result_of server_closed = ok tt
result_of (other e) = err e

-- A goroutine that runs, one that has sent its result, and one whose result was received.
pub data Routine : Type 0 where
  running : Routine
  returned : Exit → Routine
  received : Routine

-- Where the caller is: at the `select`, before `cancel`, before `Shutdown`, before the two receives, and
-- at the end. The flags are `serverDone` and `watcherDone`.
pub data Caller : Type 0 where
  selecting : Caller
  stopping : Exit → Bool → Bool → Caller
  shutting_down : Exit → Bool → Bool → Caller
  joining_server : Exit → Bool → Bool → Caller
  joining_watcher : Exit → Bool → Caller
  finished : Status → Caller

-- `cancelled` is the state of the context, `closed` that of the server.
pub record ServeState : Type 0 where
  pub caller : Caller
  pub server : Routine
  pub watcher : Routine
  pub cancelled : Bool
  pub closed : Bool

abbrev pub launched : ServeState
launched = record {
  caller = selecting;
  server = running;
  watcher = running;
  cancelled = false;
  closed = false;
}

-- `net.Listen`, whose failure ends the run before anything is started.
unfoldable pub start_serving : Status → Result ServeState
start_serving (err _) = err (failed "listen")
start_serving (ok _) = ok launched

-- `Serve` and `Watch` may fail of themselves at any time; but that they stop, they do only where the
-- server is closed (`ErrServerClosed`), and where the context is cancelled (`ctx.Err()`, which `Watch`
-- asks for in each round). `Shutdown` has a time limit of its own, after which `Close` is called.
pub data ServeStep (s : ServeState) : ServeState → Type 0 where
  server_fails :
      (e : Error) → s.server ≡ running → ServeStep s (record s { server = returned (other e) })
  server_stops :
      s.server ≡ running
      → s.closed ≡ true
      → ServeStep s (record s { server = returned server_closed })
  watcher_fails :
      (e : Error) → s.watcher ≡ running → ServeStep s (record s { watcher = returned (other e) })
  watcher_stops :
      s.watcher ≡ running
      → s.cancelled ≡ true
      → ServeStep s (record s { watcher = returned canceled })
  context_ends : s.cancelled ≡ false → ServeStep s (record s { cancelled = true })
  selects_server :
      (e : Exit)
      → s.caller ≡ selecting
      → s.server ≡ returned e
      → ServeStep s (record s { caller = stopping e true false; server = received })
  selects_watcher :
      (e : Exit)
      → s.caller ≡ selecting
      → s.watcher ≡ returned e
      → ServeStep s (record s { caller = stopping e false true; watcher = received })
  selects_context :
      s.caller ≡ selecting
      → s.cancelled ≡ true
      → ServeStep s (record s { caller = stopping clean false false })
  cancels :
      (e : Exit) (server_done watcher_done : Bool)
      → s.caller ≡ stopping e server_done watcher_done
      → ServeStep s
          (record s { caller = shutting_down e server_done watcher_done; cancelled = true })
  shuts_down :
      (e : Exit) (server_done watcher_done : Bool)
      → s.caller ≡ shutting_down e server_done watcher_done
      → ServeStep s (record s { caller = joining_server e server_done watcher_done; closed = true })
  skips_server :
      (e : Exit) (watcher_done : Bool)
      → s.caller ≡ joining_server e true watcher_done
      → ServeStep s (record s { caller = joining_watcher e watcher_done })
  receives_server :
      (e x : Exit) (watcher_done : Bool)
      → s.caller ≡ joining_server e false watcher_done
      → s.server ≡ returned x
      → ServeStep s (record s { caller = joining_watcher e watcher_done; server = received })
  skips_watcher :
      (e : Exit)
      → s.caller ≡ joining_watcher e true
      → ServeStep s (record s { caller = finished (result_of e) })
  receives_watcher :
      (e x : Exit)
      → s.caller ≡ joining_watcher e false
      → s.watcher ≡ returned x
      → ServeStep s (record s { caller = finished (result_of e); watcher = received })

-- Any number of steps.
pub data ServeSteps (s : ServeState) : ServeState → Type 0 where
  stay : ServeSteps s s
  more : {s' s'' : ServeState} → ServeSteps s s' → ServeStep s' s'' → ServeSteps s s''
