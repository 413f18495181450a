-- ===== src/Tests/Serving.antt =====
-- A run of the server and the watcher that a signal ends.
use peertopeer.Prelude.{◌≡◌, refl, true, false, ok, failed}
use peertopeer.Cli.Serve.{
  running, received, clean, canceled, server_closed, other, finished, stopping, ServeState,
  launched, start_serving, ServeSteps, stay, more, server_stops, watcher_fails, watcher_stops,
  context_ends, selects_context, selects_watcher, cancels, shuts_down, receives_server,
  receives_watcher, result_of,
}
use peertopeer.Cli.Serve.Joined.{ServeSteps-finished}
use peertopeer.Cli.Serve.Ending.{IsEnding, ServeSteps-IsEnding}

abbrev ended : ServeState
ended = record {
  caller = finished (ok tt);
  server = received;
  watcher = received;
  cancelled = true;
  closed = true;
}

steps : ServeSteps launched ended
unfolding result_of
steps =
    more
      (more
        (more
          (more
            (more
              (more (more (more stay (context_ends refl)) (selects_context refl refl))
                (cancels clean false false refl))
              (watcher_stops refl refl))
            (shuts_down clean false false refl))
          (server_stops refl refl))
        (receives_server clean server_closed false refl refl))
      (receives_watcher clean canceled refl refl)

ServeSteps-finished_example :
    (ended.server ≡ received)
    × (ended.watcher ≡ received)
    × (ended.cancelled ≡ true)
    × (ended.closed ≡ true)
ServeSteps-finished_example = ServeSteps-finished ended (ok tt) steps refl

-- The watcher has failed first.
abbrev left : ServeState
left = record {
  caller = stopping (other (failed "watch")) false true;
  server = running;
  watcher = received;
  cancelled = false;
  closed = false;
}

ServeSteps-IsEnding_example : IsEnding left
unfolding start_serving
ServeSteps-IsEnding_example =
    ServeSteps-IsEnding (ok tt) launched left refl
      (more (more stay (watcher_fails (failed "watch") refl))
        (selects_watcher (other (failed "watch")) refl refl))
      refl
