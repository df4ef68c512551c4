-- ===== src/Dap/Session.antt =====
-- src/dap/DapSession.ts: what a session knows from the events of the debug adapter, and who waits
-- for it. A promise that is waited for is the number it was made with; what promises are settled
-- with is kept in order in `settled`.
pub mod Order
pub mod Fresh
pub mod Runs
use break_pilot.Common.{
  ℕ, ◌+◌, ℤ, String, Bool, true, false, not, Option, none, some, List, [], ◌∷◌, ◌++◌, map, ◌==◌,
  nat_eq, if◌then◌else◌, ltb, ◌&&◌, ◌||◌, ◌otherwise◌, or_else, Result, ok, throw, filter_by,
  any_of,
}

-- `StoppedEvent`: the declared fields; what else an adapter sends is passed on untouched.
pub record StoppedEvent : Type 0 where
  pub session_id : Option String
  pub reason : Option String
  pub thread_id : Option ℤ
  pub description : Option String
  pub all_threads_stopped : Option Bool

-- `FreshStopBoundary`
pub record Boundary : Type 0 where
  pub stop_sequence : ℕ
  pub terminal_sequence : ℕ

-- `FreshStopResult`
pub data FreshResult : Type 0 where
  stop : StoppedEvent → FreshResult
  terminated : FreshResult

-- An error that was thrown, the end of the session, or a wait that took too long.
pub data WaitError : Type 0 where
  start_failed : String → WaitError
  session_ended : String → WaitError
  timed_out : String → WaitError

pub data Settled : Type 0 where
  ready : ℕ → Settled
  stopped : ℕ → StoppedEvent → Settled
  fresh : ℕ → FreshResult → Settled
  rejected : ℕ → WaitError → Settled

-- `FreshStopWaiter`
pub record FreshWaiter : Type 0 where
  pub promise : ℕ
  pub boundary : Boundary

-- `ObservedStop`
pub record ObservedStop : Type 0 where
  pub sequence : ℕ
  pub event : StoppedEvent

-- The state of `DapSession` that its events and waits read. `listening` says whether the handlers
-- are attached to the client, `next_promise` numbers the promises.
pub record DapSession : Type 0 where
  pub session_id : String
  pub initialized : Bool
  pub initialized_waiters : List ℕ
  pub start_error : Option String
  pub stopped_queue : List StoppedEvent
  pub stopped_waiters : List ℕ
  pub fresh_stop_waiters : List FreshWaiter
  pub stop_sequence : ℕ
  pub terminal_sequence : ℕ
  pub latest_stopped : Option ObservedStop
  pub runtime_event_source_attached : Bool
  pub disposed : Bool
  pub paused : Bool
  pub thread_id : Option ℤ
  pub terminated : Bool
  pub listening : Bool
  pub next_promise : ℕ
  pub settled : List Settled

-- The constructor, and `startClient` with a client that starts.
unfoldable pub start_client : String → DapSession
start_client sid = record {
  session_id = sid;
  initialized = false;
  initialized_waiters = [];
  start_error = none;
  stopped_queue = [];
  stopped_waiters = [];
  fresh_stop_waiters = [];
  stop_sequence = 0;
  terminal_sequence = 0;
  latest_stopped = none;
  runtime_event_source_attached = true;
  disposed = false;
  paused = false;
  thread_id = none;
  terminated = false;
  listening = true;
  next_promise = 0;
  settled = [];
}

-- `isRunning`
unfoldable pub is_running : DapSession → Bool
is_running s = not s.paused && not s.terminated && not s.disposed

-- `markRunning`
unfoldable pub mark_running : DapSession → DapSession
mark_running s = record s { paused = false }

-- The handler of `initialized`.
unfoldable pub on_initialized : DapSession → DapSession
on_initialized s = record s {
  initialized = true;
  initialized_waiters = [];
  settled = s.settled ++ map ready s.initialized_waiters;
}

-- The waiters of a stop that was observed, or of an end, and those who wait on.
abbrev pub is_past_stop : ℕ → FreshWaiter → Bool
is_past_stop sequence w = ltb w.boundary.stop_sequence sequence

abbrev pub is_past_terminal : ℕ → FreshWaiter → Bool
is_past_terminal sequence w = ltb w.boundary.terminal_sequence sequence

abbrev pub still_waiting : (FreshWaiter → Bool) → List FreshWaiter → List FreshWaiter
still_waiting done ws = filter_by (λ w. not (done w)) ws

abbrev pub settled_fresh : FreshResult → (FreshWaiter → Bool) → List FreshWaiter → List Settled
settled_fresh r done ws = map (λ w. fresh w.promise r) (filter_by done ws)

-- `#resolveFreshStopWaiters`
unfoldable pub resolve_fresh_stop_waiters : ObservedStop → DapSession → DapSession
resolve_fresh_stop_waiters o s = record s {
  fresh_stop_waiters = still_waiting (is_past_stop o.sequence) s.fresh_stop_waiters;
  settled =
      s.settled ++ settled_fresh (stop o.event) (is_past_stop o.sequence) s.fresh_stop_waiters;
}

-- `#resolveFreshTerminalWaiters`
unfoldable pub resolve_fresh_terminal_waiters : ℕ → DapSession → DapSession
resolve_fresh_terminal_waiters n s = record s {
  fresh_stop_waiters = still_waiting (is_past_terminal n) s.fresh_stop_waiters;
  settled = s.settled ++ settled_fresh terminated (is_past_terminal n) s.fresh_stop_waiters;
}

-- The event that a session makes of the body of a stop.
abbrev pub stop_event : DapSession → StoppedEvent → StoppedEvent
stop_event s body = record body { session_id = or_else body.session_id (some s.session_id) }

-- Gives the event to the first waiter, or puts it into the queue.
abbrev pub deliver : StoppedEvent → List ℕ → DapSession → DapSession
deliver e [] s = record s { stopped_queue = s.stopped_queue ++ e ∷ [] }
deliver e (p ∷ ps) s = record s { stopped_waiters = ps; settled = s.settled ++ stopped p e ∷ [] }

-- The handler of `stopped`.
unfoldable pub on_stopped : StoppedEvent → DapSession → DapSession
unfolding resolve_fresh_stop_waiters
on_stopped body s =
    let event = stop_event s body in
    let observed : ObservedStop = record { sequence = s.stop_sequence + 1; event = event } in
    resolve_fresh_stop_waiters observed (
      deliver event s.stopped_waiters (record s {
        paused = true;
        thread_id = or_else body.thread_id s.thread_id;
        stop_sequence = s.stop_sequence + 1;
        latest_stopped = some observed;
      }))

-- The handler of `continued`.
unfoldable pub on_continued : DapSession → DapSession
on_continued s = record s { paused = false }

-- The handlers of `terminated`, `exited`, `exit` and `adapterError`, which differ in what they
-- emit only.
unfoldable pub on_terminal : DapSession → DapSession
unfolding resolve_fresh_terminal_waiters
on_terminal s = resolve_fresh_terminal_waiters (s.terminal_sequence + 1) (record s {
  paused = false;
  terminated = true;
  runtime_event_source_attached = false;
  terminal_sequence = s.terminal_sequence + 1;
})

-- `#sessionEndedError`
abbrev pub session_ended_error : DapSession → WaitError
session_ended_error s = elim s.start_error [
  | none ↦ session_ended s.session_id
  | some e ↦ start_failed e
]

-- `disposeClient`, but for the client that it closes.
unfoldable pub dispose_client : DapSession → DapSession
dispose_client s =
    let error = session_ended_error s in
    if s.disposed then s else record s {
      disposed = true;
      paused = false;
      runtime_event_source_attached = false;
      initialized_waiters = [];
      stopped_waiters = [];
      fresh_stop_waiters = [];
      stopped_queue = [];
      latest_stopped = none;
      listening = false;
      settled =
          s.settled
          ++ map (λ p. rejected p error) s.initialized_waiters
          ++ map (λ p. rejected p error) s.stopped_waiters
          ++ map (λ w. rejected w.promise error) s.fresh_stop_waiters;
    }

abbrev pub made_promise : DapSession → DapSession
made_promise s = record s { next_promise = s.next_promise + 1 }

-- `#waitForInitialized`: a promise that is settled at once, or one more waiter.
unfoldable pub wait_for_initialized : DapSession → DapSession
wait_for_initialized s =
    if s.initialized
    then record (made_promise s) { settled = s.settled ++ ready s.next_promise ∷ [] }
    else record (made_promise s) {
      initialized_waiters = s.initialized_waiters ++ s.next_promise ∷ [];
    }

-- `waitForBreakpoint` up to its `await`.
abbrev pub waited : List StoppedEvent → Option String → DapSession → DapSession
waited (e ∷ es) error s = record (made_promise s) {
  stopped_queue = es;
  settled = s.settled ++ stopped s.next_promise e ∷ [];
}
waited [] (some error) s = record (made_promise s) {
  settled = s.settled ++ rejected s.next_promise (start_failed error) ∷ [];
}
waited [] none s = record (made_promise s) {
  stopped_waiters = s.stopped_waiters ++ s.next_promise ∷ [];
}

unfoldable pub wait_for_breakpoint : DapSession → DapSession
wait_for_breakpoint s = waited s.stopped_queue s.start_error s

-- `Array.prototype.splice` of the first occurrence.
abbrev pub without_promise : ℕ → List ℕ → List ℕ
without_promise p [] = []
without_promise p (q ∷ qs) = let rest = without_promise p qs in if q == p then qs else q ∷ rest

abbrev pub has_promise : ℕ → List ℕ → Bool
has_promise p [] = false
has_promise p (q ∷ qs) = q == p || has_promise p qs

-- The `catch` of `waitForBreakpoint`, after its time is over.
abbrev pub given_up : List StoppedEvent → Option String → ℕ → DapSession → DapSession
given_up (e ∷ es) error p s = record s {
  stopped_queue = es;
  settled = s.settled ++ stopped p e ∷ [];
}
given_up [] (some error) p s = record s {
  settled = s.settled ++ rejected p (start_failed error) ∷ [];
}
given_up [] none p s = record s { settled = s.settled ++ rejected p (timed_out s.session_id) ∷ [] }

-- The timer of `waitForBreakpoint`; it is cleared once the promise is settled.
unfoldable pub wait_times_out : ℕ → DapSession → DapSession
wait_times_out p s =
    if has_promise p s.stopped_waiters
    then given_up s.stopped_queue s.start_error p
        (record s { stopped_waiters = without_promise p s.stopped_waiters })
    else s

-- `captureStopBoundary`
unfoldable pub capture_stop_boundary : DapSession → Boundary
capture_stop_boundary s = record {
  stop_sequence = s.stop_sequence;
  terminal_sequence = s.terminal_sequence;
}

abbrev pub newer_stop : ℕ → Option ObservedStop → Option FreshResult
newer_stop sequence none = none
newer_stop sequence (some o) = if ltb sequence o.sequence then some (stop o.event) else none

-- `#freshOutcomeAfter`
unfoldable pub fresh_outcome_after : Boundary → DapSession → Option FreshResult
fresh_outcome_after b s =
    if ltb b.terminal_sequence s.terminal_sequence
    then some terminated
    else newer_stop b.stop_sequence s.latest_stopped

abbrev pub without_waiter : ℕ → List FreshWaiter → List FreshWaiter
without_waiter p ws = filter_by (λ w. not (w.promise == p)) ws

-- `#resolveFreshStopWaiter` and `#rejectFreshStopWaiter`
abbrev pub settle_fresh : ℕ → Settled → DapSession → DapSession
settle_fresh p result s =
    if any_of (λ w. w.promise == p) s.fresh_stop_waiters
    then record s {
      fresh_stop_waiters = without_waiter p s.fresh_stop_waiters;
      settled = s.settled ++ result ∷ [];
    }
    else s

abbrev pub registered : Boundary → DapSession → DapSession
registered b s = record (made_promise s) {
  fresh_stop_waiters =
      s.fresh_stop_waiters ++ (record { promise = s.next_promise; boundary = b }) ∷ [];
}

-- `waitForStopOrTerminationAfter` up to its end: an outcome at once, an error, or one more waiter,
-- for which the outcome is read a second time.
unfoldable pub wait_for_stop_or_termination_after : Boundary → DapSession → DapSession
unfolding fresh_outcome_after
wait_for_stop_or_termination_after b s = elim (fresh_outcome_after b s) [
  | some r ↦ record (made_promise s) { settled = s.settled ++ fresh s.next_promise r ∷ [] }
  | none ↦
      if s.disposed
      then record (made_promise s) {
        settled = s.settled ++ rejected s.next_promise (session_ended_error s) ∷ [];
      }
      else elim (fresh_outcome_after b (registered b s)) [
        | none ↦ registered b s
        | some r ↦ settle_fresh s.next_promise (fresh s.next_promise r) (registered b s)
      ]
]

-- Its timer.
unfoldable pub fresh_wait_times_out : ℕ → DapSession → DapSession
fresh_wait_times_out p s = settle_fresh p (rejected p (timed_out s.session_id)) s

-- The start request fails; whether `startFailed` is emitted.
unfoldable pub start_request_fails : Bool → String → DapSession → DapSession × Bool
start_request_fails reported_ready error s =
    (record s { start_error = some error }, reported_ready && not s.disposed)
