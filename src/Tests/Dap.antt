-- ===== src/Tests/Dap.antt =====
-- A session of the debug adapter protocol, and its framing, at small inputs.
use break_pilot.Common.{
  ℕ, String, true, none, some, List, [], ◌∷◌, ◌++◌, ◌≡◌, refl, if◌then◌else◌, ℤ, Result, ok, throw,
  ◌==◌, nat_eq, string_eq, take, drop, ◌&&◌, not,
}
use break_pilot.Dap.Session
use break_pilot.Dap.Session.Runs
use break_pilot.Dap.Session.Runs.{perform_all-IsSound}
use break_pilot.Dap.Session.Order
use break_pilot.Dap.Session.Order.{perform_all-stops}
use break_pilot.Dap.Session.Fresh
use break_pilot.Dap.Session.Fresh.{fresh_outcome_after-capture}
use break_pilot.Dap.Wire
use break_pilot.Dap.Client
use break_pilot.Dap.Client.Chunks
use break_pilot.Dap.Client.Chunks.{on_data-append, on_data-IsDrained}
use break_pilot.Dap.Client.Delivery
use break_pilot.Dap.Client.Delivery.{feed-sent}
use break_pilot.Dap.Client.Promises
use break_pilot.Dap.Client.Calls
use break_pilot.Dap.Client.Calls.{perform_all-IsBalanced}
use break_pilot.Dap.Client.Timers
use break_pilot.Dap.Client.Timers.Runs as TimerRuns
use break_pilot.Dap.Client.Timers.Runs.{perform_all-timers}

abbrev hit : Session.StoppedEvent
hit = record {
  session_id = none;
  reason = some "breakpoint";
  thread_id = some (ℤ.pos 1);
  description = none;
  all_threads_stopped = some true;
}

abbrev session_calls : List Runs.Call
session_calls =
    Runs.initialized_event
    ∷ Runs.waiting_breakpoint
    ∷ Runs.stopped_event hit
    ∷ Runs.marking
    ∷ Runs.stopped_event hit
    ∷ Runs.waiting_fresh (record { stop_sequence = 2; terminal_sequence = 0 })
    ∷ Runs.waiting_times_out 0
    ∷ []

abbrev calls_after : List Runs.Call
calls_after = Runs.stopped_event hit ∷ Runs.continued_event ∷ []

perform_all-IsSound_example :
    Runs.IsSound
      (Runs.perform_all (Session.start_client "s") (session_calls ++ Runs.disposing ∷ []))
perform_all-IsSound_example = perform_all-IsSound "s" (session_calls ++ Runs.disposing ∷ [])

perform_all-stops_example :
    Order.handed (Runs.perform_all (Session.start_client "s") session_calls).settled
      ++ (Runs.perform_all (Session.start_client "s") session_calls).stopped_queue
    ≡ Order.stops "s" session_calls
perform_all-stops_example = perform_all-stops "s" session_calls refl

fresh_outcome_after-capture_example :
    Session.fresh_outcome_after
      (Session.capture_stop_boundary (Runs.perform_all (Session.start_client "s") session_calls))
      (Runs.perform_all (Runs.perform_all (Session.start_client "s") session_calls) calls_after)
    ≡ (if Fresh.ends calls_after
        then some Session.terminated
        else Fresh.last_stop "s" none calls_after)
fresh_outcome_after-capture_example =
    fresh_outcome_after-capture "s" session_calls calls_after refl refl

-- Three messages, written as one byte each; nobody listens to the third.
abbrev output : Client.Message ℕ
output = Client.event "output" (some 7)

abbrev answer : Client.Message ℕ
answer = Client.response 1 true none none

abbrev failure : Client.Message ℕ
failure = Client.event "error" none

abbrev parse : List ℕ → Result String (Client.Message ℕ)
parse (n ∷ []) = if n == 1 then ok output else if n == 2 then ok answer else ok failure
parse _ = throw "not JSON"

abbrev stringify : Client.Message ℕ → List ℕ
stringify (Client.response _ _ _ _) = 2 ∷ []
stringify (Client.event name _) = if name == "error" then 3 ∷ [] else 1 ∷ []
stringify (Client.other _) = 1 ∷ []

abbrev same : List ℕ → List ℕ
same bytes = bytes

abbrev asked : Client.Client ℕ
asked = (Client.request (λ seq command. seq ∷ []) none "threads" Client.start).0

abbrev messages : List (Client.Message ℕ)
messages = output ∷ answer ∷ failure ∷ output ∷ []

-- The first chunk ends within the first header.
abbrev chunks : List (List ℕ)
chunks = take 7 (Delivery.sent stringify messages) ∷ drop 7 (Delivery.sent stringify messages) ∷ []

feed-sent_example :
    Delivery.cleared (Client.feed same parse chunks asked)
    ≡ Delivery.cleared (Delivery.handle_all messages asked)
unfolding Wire.framed Client.request Client.start
feed-sent_example =
    feed-sent same parse stringify (λ xs a. refl) messages chunks asked refl
      (refl, (refl, (refl, (refl, tt)))) refl

on_data-append_example :
    Client.on_data same parse (Wire.framed (1 ∷ []) ++ Wire.framed (3 ∷ 4 ∷ [])) asked
    ≡ Chunks.followed same parse
        (Wire.framed (3 ∷ 4 ∷ []))
        (Client.on_data same parse (Wire.framed (1 ∷ [])) asked)
on_data-append_example =
    on_data-append same parse (Wire.framed (1 ∷ [])) (Wire.framed (3 ∷ 4 ∷ [])) asked

-- A message, and the first bytes of another.
on_data-IsDrained_example :
    Chunks.IsDrained same parse
      (Client.on_data same parse (Wire.framed (1 ∷ []) ++ (67 ∷ 111 ∷ [])) asked)
on_data-IsDrained_example =
    on_data-IsDrained same parse (Wire.framed (1 ∷ []) ++ (67 ∷ 111 ∷ [])) asked

abbrev client_calls : List (Calls.Call ℕ)
client_calls =
    Calls.requesting none "threads"
    ∷ Calls.requesting (some "EPIPE") "next"
    ∷ Calls.receiving (Wire.framed (2 ∷ []))
    ∷ Calls.timing_out 2
    ∷ Calls.exiting 1
    ∷ Calls.closing
    ∷ []

perform_all-IsBalanced_example :
    Promises.IsBalanced
      (Calls.requested 1 client_calls)
      (Calls.perform_all same parse (λ seq command. seq ∷ []) Client.start client_calls)
perform_all-IsBalanced_example =
    perform_all-IsBalanced same parse (λ seq command. seq ∷ []) client_calls

perform_all-timers_example :
    Timers.has 2
      (Calls.perform_all same parse (λ seq command. seq ∷ []) Client.start client_calls).timers
    ≡ (Timers.has 2 (
          Promises.numbers
            (Calls.perform_all same parse
              (λ seq command. seq ∷ [])
              Client.start
              client_calls).pending)
        && not (Timers.has 2 (TimerRuns.refused 1 client_calls)))
perform_all-timers_example = perform_all-timers same parse (λ seq command. seq ∷ []) client_calls 2
