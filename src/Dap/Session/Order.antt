-- ===== src/Dap/Session/Order.antt =====
-- src/dap/DapSession.ts: every stop is handed out once, in the order in which the stops came.
use break_pilot.Common.{
  ℕ, ◌+◌, String, Bool, true, false, Option, none, some, List, [], ◌∷◌, ◌++◌, map, ◌≡◌, refl, sym,
  ap, ◌∙◌, ◌==◌, nat_eq, if◌then◌else◌, or_else, any_of, ◌⊎◌, inl, inr, arith, Bool-cases,
  either_way, none_or_some,
}
use mathlib.Core.List.{append-nil, append_assoc}
use break_pilot.Dap.Session.{
  StoppedEvent, Boundary, FreshResult, Settled, WaitError, FreshWaiter, ObservedStop, DapSession,
  start_client, mark_running, on_initialized, settled_fresh, resolve_fresh_stop_waiters,
  resolve_fresh_terminal_waiters, on_stopped, deliver, stop_event, on_continued, on_terminal,
  wait_for_initialized, waited, wait_for_breakpoint, given_up, wait_times_out, without_promise,
  has_promise, fresh_outcome_after, settle_fresh, registered, is_past_stop, is_past_terminal,
  wait_for_stop_or_termination_after, fresh_wait_times_out, start_request_fails,
  session_ended_error,
}
use break_pilot.Dap.Session.Runs.{
  Call, initialized_event, continued_event, terminal_event, stopped_event, marking, disposing,
  waiting_initialized, waiting_breakpoint, waiting_times_out, waiting_fresh, fresh_times_out,
  start_failing, perform, perform_all, IsSound, perform-IsSound, start_client-IsSound,
}

-- The stops that `waitForBreakpoint` has returned, in order.
abbrev pub handed : List Settled → List StoppedEvent
handed [] = []
handed (Settled.stopped p e ∷ rest) = e ∷ handed rest
handed (Settled.ready p ∷ rest) = handed rest
handed (Settled.fresh p r ∷ rest) = handed rest
handed (Settled.rejected p e ∷ rest) = handed rest

handed-append : (xs ys : List Settled) → handed (xs ++ ys) ≡ handed xs ++ handed ys
handed-append [] ys = refl
handed-append (Settled.stopped p e ∷ xs) ys = ap (λ t. e ∷ t) (handed-append xs ys)
handed-append (Settled.ready p ∷ xs) ys = handed-append xs ys
handed-append (Settled.fresh p r ∷ xs) ys = handed-append xs ys
handed-append (Settled.rejected p e ∷ xs) ys = handed-append xs ys

-- The stops that come, with the session written into them.
abbrev pub stops : String → List Call → List StoppedEvent
stops sid [] = []
stops sid (stopped_event body ∷ cs) =
    record body { session_id = or_else body.session_id (some sid) } ∷ stops sid cs
stops sid (_ ∷ cs) = stops sid cs

abbrev pub never_disposed : List Call → Bool
never_disposed [] = true
never_disposed (disposing ∷ cs) = false
never_disposed (_ ∷ cs) = never_disposed cs

-- What was handed out, and then what is queued.
abbrev pub all_stops : DapSession → List StoppedEvent
all_stops s = handed s.settled ++ s.stopped_queue

-- A step adds the new stops at the end.
pub record Adds (new : List StoppedEvent) (s t : DapSession) : Type 0 where
  pub every : all_stops t ≡ all_stops s ++ new
  pub on : t.listening ≡ s.listening
  pub same : t.session_id ≡ s.session_id

-- What settles no stop adds none.
quiet_settled :
    (xs ys : List Settled) (q : List StoppedEvent)
    → handed ys ≡ []
    → handed (xs ++ ys) ++ q ≡ (handed xs ++ q) ++ []
quiet_settled xs ys q h =
    ap (λ t. t ++ q) (handed-append xs ys ∙ ap (λ t. handed xs ++ t) h ∙ append-nil (handed xs))
    ∙ sym (append-nil (handed xs ++ q))

-- A stop that is settled at once is the first of the queue.
taken :
    (xs : List Settled) (p : ℕ) (e : StoppedEvent) (es : List StoppedEvent)
    → handed (xs ++ Settled.stopped p e ∷ []) ++ es ≡ (handed xs ++ e ∷ es) ++ []
taken xs p e es =
    ap (λ t. t ++ es) (handed-append xs (Settled.stopped p e ∷ []))
    ∙ append_assoc (handed xs) (e ∷ []) es
    ∙ sym (append-nil (handed xs ++ e ∷ es))

handed-fresh :
    (r : FreshResult) (done : FreshWaiter → Bool) (ws : List FreshWaiter)
    → handed (settled_fresh r done ws) ≡ []
handed-fresh r done [] = refl
handed-fresh r done (w ∷ ws) = elim (Bool-cases (done w)) [
  | inl now ↦ rw now (handed-fresh r done ws)
  | inr later ↦ rw later (handed-fresh r done ws)
]

handed-ready : (ps : List ℕ) → handed (map Settled.ready ps) ≡ []
handed-ready [] = refl
handed-ready (p ∷ ps) = handed-ready ps

deliver-Adds :
    (o : ObservedStop) (ps : List ℕ) (s t : DapSession)
    → (s.stopped_queue ≡ []) ⊎ (ps ≡ [])
    → t.settled ≡ s.settled
    → t.stopped_queue ≡ s.stopped_queue
    → t.listening ≡ s.listening
    → t.session_id ≡ s.session_id
    → Adds (o.event ∷ []) s (resolve_fresh_stop_waiters o (deliver o.event ps t))
unfolding resolve_fresh_stop_waiters
deliver-Adds o [] s t side settled queue on same = record {
  every =
      ap (λ h. h ++ (t.stopped_queue ++ o.event ∷ []))
        (handed-append t.settled (
            settled_fresh (FreshResult.stop o.event) (is_past_stop o.sequence) t.fresh_stop_waiters)
          ∙ ap (λ h. handed t.settled ++ h)
              (handed-fresh (FreshResult.stop o.event) (is_past_stop o.sequence)
                t.fresh_stop_waiters)
          ∙ append-nil (handed t.settled)
          ∙ ap handed settled)
      ∙ ap (λ q. handed s.settled ++ (q ++ o.event ∷ [])) queue
      ∙ sym (append_assoc (handed s.settled) s.stopped_queue (o.event ∷ []));
  on = on;
  same = same;
}
deliver-Adds o (p ∷ ps) s t side settled queue on same =
    let nothing : s.stopped_queue ≡ [] = (ground (arith, side)) in
    let late : List Settled =
      settled_fresh (FreshResult.stop o.event) (is_past_stop o.sequence) t.fresh_stop_waiters in
    record {
      every =
          ap (λ h. h ++ t.stopped_queue)
            (handed-append (t.settled ++ Settled.stopped p o.event ∷ []) late
              ∙ ap (λ h. handed (t.settled ++ Settled.stopped p o.event ∷ []) ++ h)
                  (handed-fresh (FreshResult.stop o.event) (is_past_stop o.sequence)
                    t.fresh_stop_waiters)
              ∙ append-nil (handed (t.settled ++ Settled.stopped p o.event ∷ []))
              ∙ handed-append t.settled (Settled.stopped p o.event ∷ [])
              ∙ ap (λ h. handed h ++ o.event ∷ []) settled)
          ∙ ap (λ q. (handed s.settled ++ o.event ∷ []) ++ q) (queue ∙ nothing)
          ∙ append-nil (handed s.settled ++ o.event ∷ [])
          ∙ ap (λ h. h ++ o.event ∷ [])
              (sym (append-nil (handed s.settled)) ∙ ap (λ q. handed s.settled ++ q) (sym nothing));
      on = on;
      same = same;
    }

-- Nothing of the stops changes.
same-Adds : (s : DapSession) → Adds [] s s
same-Adds s = record { every = sym (append-nil (all_stops s)); on = refl; same = refl }

waited-Adds :
    (es : List StoppedEvent) (error : Option String) (s : DapSession)
    → s.stopped_queue ≡ es
    → Adds [] s (waited es error s)
waited-Adds (e ∷ es) error s q = record {
  every = taken s.settled s.next_promise e es ∙ ap (λ t. (handed s.settled ++ t) ++ []) (sym q);
  on = refl;
  same = refl;
}
waited-Adds [] (some error) s q = record {
  every =
      quiet_settled s.settled (Settled.rejected s.next_promise (WaitError.start_failed error) ∷ [])
        s.stopped_queue refl;
  on = refl;
  same = refl;
}
waited-Adds [] none s q = record { every = sym (append-nil (all_stops s)); on = refl; same = refl }

given_up-Adds :
    (es : List StoppedEvent) (error : Option String) (p : ℕ) (ps : List ℕ) (s : DapSession)
    → s.stopped_queue ≡ es
    → Adds [] s (given_up es error p (record s { stopped_waiters = ps }))
given_up-Adds (e ∷ es) error p ps s q = record {
  every = taken s.settled p e es ∙ ap (λ t. (handed s.settled ++ t) ++ []) (sym q);
  on = refl;
  same = refl;
}
given_up-Adds [] (some error) p ps s q = record {
  every =
      quiet_settled s.settled (Settled.rejected p (WaitError.start_failed error) ∷ [])
        s.stopped_queue refl;
  on = refl;
  same = refl;
}
given_up-Adds [] none p ps s q = record {
  every =
      quiet_settled s.settled (Settled.rejected p (WaitError.timed_out s.session_id) ∷ [])
        s.stopped_queue refl;
  on = refl;
  same = refl;
}

settle_fresh-Adds :
    (p : ℕ) (r : Settled) (s : DapSession) → handed (r ∷ []) ≡ [] → Adds [] s (settle_fresh p r s)
settle_fresh-Adds p r s quiet =
    either_way (Adds [] s) (any_of (λ w. w.promise == p) s.fresh_stop_waiters)
      (λ waits. record {
        every = quiet_settled s.settled (r ∷ []) s.stopped_queue quiet;
        on = refl;
        same = refl;
      })
      (λ settled. same-Adds s)

wait_fresh-Adds :
    (b : Boundary) (s : DapSession) → Adds [] s (wait_for_stop_or_termination_after b s)
unfolding wait_for_stop_or_termination_after
wait_fresh-Adds b s =
    none_or_some (Adds [] s) (fresh_outcome_after b s)
      (λ nothing.
        either_way (Adds [] s) s.disposed
          (λ ended. record {
            every =
                quiet_settled s.settled
                  (Settled.rejected s.next_promise (session_ended_error s) ∷ []) s.stopped_queue
                  refl;
            on = refl;
            same = refl;
          })
          (λ open_.
            none_or_some (Adds [] s) (fresh_outcome_after b (registered b s))
              (λ still. record { every = sym (append-nil (all_stops s)); on = refl; same = refl })
              (λ r raced.
                let added =
                  settle_fresh-Adds s.next_promise (Settled.fresh s.next_promise r) (registered b s)
                    refl in
                record { every = added.every; on = added.on; same = added.same })))
      (λ r seen. record {
        every = quiet_settled s.settled (Settled.fresh s.next_promise r ∷ []) s.stopped_queue refl;
        on = refl;
        same = refl;
      })

-- The stop of one call, if it is one.
abbrev stop_of : String → Call → List StoppedEvent
stop_of sid c = stops sid (c ∷ [])

when_on :
    (new : List StoppedEvent) (s t : DapSession)
    → s.listening ≡ true
    → Adds new s t
    → Adds new s (if s.listening then t else s)
when_on new s t on a =
    either_way (Adds new s) s.listening (λ yes_on. a) (λ off. absurd (ground (arith, on, off)))

pub perform-Adds :
    (s : DapSession) (c : Call)
    → IsSound s
    → s.listening ≡ true
    → never_disposed (c ∷ []) ≡ true
    → Adds (stop_of s.session_id c) s (perform s c)
unfolding perform on_initialized on_continued on_terminal on_stopped resolve_fresh_terminal_waiters
    mark_running wait_for_initialized wait_for_breakpoint wait_times_out fresh_wait_times_out
    start_request_fails
perform-Adds s initialized_event v on live = when_on [] s (on_initialized s) on (record {
  every =
      quiet_settled s.settled (map Settled.ready s.initialized_waiters) s.stopped_queue
        (handed-ready s.initialized_waiters);
  on = refl;
  same = refl;
})
perform-Adds s continued_event v on live =
    when_on [] s (on_continued s) on
      (record { every = sym (append-nil (all_stops s)); on = refl; same = refl })
perform-Adds s terminal_event v on live = when_on [] s (on_terminal s) on (record {
  every =
      quiet_settled s.settled
        (settled_fresh FreshResult.terminated (is_past_terminal (s.terminal_sequence + 1))
          s.fresh_stop_waiters)
        s.stopped_queue
        (handed-fresh FreshResult.terminated (is_past_terminal (s.terminal_sequence + 1))
          s.fresh_stop_waiters);
  on = refl;
  same = refl;
})
perform-Adds s (stopped_event body) v on live =
    let o : ObservedStop = record { sequence = s.stop_sequence + 1; event = stop_event s body } in
    let t : DapSession = record s {
      paused = true;
      thread_id = or_else body.thread_id s.thread_id;
      stop_sequence = s.stop_sequence + 1;
      latest_stopped = some o;
    } in
    when_on (o.event ∷ []) s (on_stopped body s) on
      (deliver-Adds o s.stopped_waiters s t v.one_side refl refl refl refl)
perform-Adds s marking v on live = record {
  every = sym (append-nil (all_stops s));
  on = refl;
  same = refl;
}
perform-Adds s disposing v on live = absurd (ground (arith, live))
perform-Adds s waiting_initialized v on live =
    either_way (Adds [] s) s.initialized
      (λ at_once. record {
        every = quiet_settled s.settled (Settled.ready s.next_promise ∷ []) s.stopped_queue refl;
        on = refl;
        same = refl;
      })
      (λ later. record { every = sym (append-nil (all_stops s)); on = refl; same = refl })
perform-Adds s waiting_breakpoint v on live = waited-Adds s.stopped_queue s.start_error s refl
perform-Adds s (waiting_times_out p) v on live =
    either_way (Adds [] s) (has_promise p s.stopped_waiters)
      (λ waits.
        given_up-Adds s.stopped_queue s.start_error p (without_promise p s.stopped_waiters) s refl)
      (λ settled. same-Adds s)
perform-Adds s (waiting_fresh b) v on live = wait_fresh-Adds b s
perform-Adds s (fresh_times_out p) v on live =
    settle_fresh-Adds p (Settled.rejected p (WaitError.timed_out s.session_id)) s refl
perform-Adds s (start_failing ready e) v on live = record {
  every = sym (append-nil (all_stops s));
  on = refl;
  same = refl;
}

stops-cons :
    (sid : String) (c : Call) (cs : List Call) → stops sid (c ∷ cs) ≡ stop_of sid c ++ stops sid cs
stops-cons sid (stopped_event body) cs = refl
stops-cons sid initialized_event cs = refl
stops-cons sid continued_event cs = refl
stops-cons sid terminal_event cs = refl
stops-cons sid marking cs = refl
stops-cons sid disposing cs = refl
stops-cons sid waiting_initialized cs = refl
stops-cons sid waiting_breakpoint cs = refl
stops-cons sid (waiting_times_out p) cs = refl
stops-cons sid (waiting_fresh b) cs = refl
stops-cons sid (fresh_times_out p) cs = refl
stops-cons sid (start_failing ready e) cs = refl

pub never_disposed-cons :
    (c : Call) (cs : List Call)
    → never_disposed (c ∷ cs) ≡ true
    → (never_disposed (c ∷ []) ≡ true) × (never_disposed cs ≡ true)
never_disposed-cons disposing cs h = absurd (ground (arith, h))
never_disposed-cons (stopped_event body) cs h = (refl, h)
never_disposed-cons initialized_event cs h = (refl, h)
never_disposed-cons continued_event cs h = (refl, h)
never_disposed-cons terminal_event cs h = (refl, h)
never_disposed-cons marking cs h = (refl, h)
never_disposed-cons waiting_initialized cs h = (refl, h)
never_disposed-cons waiting_breakpoint cs h = (refl, h)
never_disposed-cons (waiting_times_out p) cs h = (refl, h)
never_disposed-cons (waiting_fresh b) cs h = (refl, h)
never_disposed-cons (fresh_times_out p) cs h = (refl, h)
never_disposed-cons (start_failing ready e) cs h = (refl, h)

pub perform_all-Adds :
    (s : DapSession) (cs : List Call)
    → IsSound s
    → s.listening ≡ true
    → never_disposed cs ≡ true
    → Adds (stops s.session_id cs) s (perform_all s cs)
unfolding perform_all
perform_all-Adds s [] v on live = same-Adds s
perform_all-Adds s (c ∷ cs) v on live =
    let t : DapSession = perform s c in
    let split = never_disposed-cons c cs live in
    let step = perform-Adds s c v on split.0 in
    let rest = perform_all-Adds t cs (perform-IsSound s c v) (step.on ∙ on) split.1 in
    record {
      every =
          rest.every
          ∙ ap (λ h. h ++ stops t.session_id cs) step.every
          ∙ append_assoc (all_stops s) (stop_of s.session_id c) (stops t.session_id cs)
          ∙ ap (λ sid. all_stops s ++ (stop_of s.session_id c ++ stops sid cs)) step.same
          ∙ ap (λ h. all_stops s ++ h) (sym (stops-cons s.session_id c cs));
      on = rest.on ∙ step.on;
      same = rest.same ∙ step.same;
    }

-- After any events, waits and time-outs of a session that was started and is not disposed, the
-- stops that `waitForBreakpoint` has returned, in the order in which its promises were settled,
-- and then those that are queued are all the stops that came, in their order: none is lost and
-- none is handed out twice.
pub perform_all-stops :
    (sid : String) (cs : List Call)
    → never_disposed cs ≡ true
    → let s = perform_all (start_client sid) cs in
      handed s.settled ++ s.stopped_queue ≡ stops sid cs
unfolding start_client
perform_all-stops sid cs live =
    (perform_all-Adds (start_client sid) cs (start_client-IsSound sid) refl live).every
