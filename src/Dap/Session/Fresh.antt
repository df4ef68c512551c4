-- ===== src/Dap/Session/Fresh.antt =====
-- src/dap/DapSession.ts: what a wait after a boundary finds is what happened after that boundary.
use break_pilot.Common.{
  ℕ, ◌+◌, ◌≤◌, String, Bool, true, false, Option, none, some, List, [], ◌∷◌, ◌≡◌, refl, ap, ◌∙◌,
  ◌==◌, nat_eq, if◌then◌else◌, ltb, ◌||◌, or_else, any_of, inl, inr, arith, either_way,
  none_or_some, subst,
}
use break_pilot.Dap.Session.{
  StoppedEvent, Boundary, FreshResult, Settled, WaitError, ObservedStop, DapSession, start_client,
  mark_running, on_initialized, resolve_fresh_stop_waiters, resolve_fresh_terminal_waiters,
  on_stopped, deliver, stop_event, on_continued, on_terminal, dispose_client, wait_for_initialized,
  waited, wait_for_breakpoint, given_up, wait_times_out, without_promise, has_promise,
  fresh_outcome_after, newer_stop, settle_fresh, registered, wait_for_stop_or_termination_after,
  fresh_wait_times_out, start_request_fails,
}
use break_pilot.Dap.Session.Runs.{
  Call, initialized_event, continued_event, terminal_event, stopped_event, marking, disposing,
  waiting_initialized, waiting_breakpoint, waiting_times_out, waiting_fresh, fresh_times_out,
  start_failing, perform, perform_all, IsSound, perform-IsSound, perform_all-IsSound,
  start_client-IsSound,
}
use break_pilot.Dap.Session.{capture_stop_boundary}
use break_pilot.Dap.Session.Order.{
  never_disposed, never_disposed-cons, perform-Adds, perform_all-Adds,
}

-- Whether the calls have an end of the program or the transport, and their last stop.
abbrev pub ends : List Call → Bool
ends [] = false
ends (terminal_event ∷ cs) = true
ends (_ ∷ cs) = ends cs

abbrev pub last_stop : String → Option FreshResult → List Call → Option FreshResult
last_stop sid o [] = o
last_stop sid o (stopped_event body ∷ cs) =
    last_stop sid
      (some (FreshResult.stop (record body { session_id = or_else body.session_id (some sid) }))) cs
last_stop sid o (_ ∷ cs) = last_stop sid o cs

-- What a session counts of stops and ends is as before.
record Unseen (s t : DapSession) : Type 0 where
  terminal : t.terminal_sequence ≡ s.terminal_sequence
  stop : t.stop_sequence ≡ s.stop_sequence
  latest : t.latest_stopped ≡ s.latest_stopped
  on : t.listening ≡ s.listening
  same : t.session_id ≡ s.session_id

unseen : (s : DapSession) → Unseen s s
unseen s = record { terminal = refl; stop = refl; latest = refl; on = refl; same = refl }

waited-Unseen :
    (es : List StoppedEvent) (error : Option String) (s : DapSession) → Unseen s (waited es error s)
waited-Unseen (e ∷ es) error s = record {
  terminal = refl;
  stop = refl;
  latest = refl;
  on = refl;
  same = refl;
}
waited-Unseen [] (some error) s = record {
  terminal = refl;
  stop = refl;
  latest = refl;
  on = refl;
  same = refl;
}
waited-Unseen [] none s = record {
  terminal = refl;
  stop = refl;
  latest = refl;
  on = refl;
  same = refl;
}

given_up-Unseen :
    (es : List StoppedEvent) (error : Option String) (p : ℕ) (ps : List ℕ) (s : DapSession)
    → Unseen s (given_up es error p (record s { stopped_waiters = ps }))
given_up-Unseen (e ∷ es) error p ps s = record {
  terminal = refl;
  stop = refl;
  latest = refl;
  on = refl;
  same = refl;
}
given_up-Unseen [] (some error) p ps s = record {
  terminal = refl;
  stop = refl;
  latest = refl;
  on = refl;
  same = refl;
}
given_up-Unseen [] none p ps s = record {
  terminal = refl;
  stop = refl;
  latest = refl;
  on = refl;
  same = refl;
}

settle_fresh-Unseen : (p : ℕ) (r : Settled) (s : DapSession) → Unseen s (settle_fresh p r s)
settle_fresh-Unseen p r s =
    either_way (Unseen s) (any_of (λ w. w.promise == p) s.fresh_stop_waiters)
      (λ waits. record { terminal = refl; stop = refl; latest = refl; on = refl; same = refl })
      (λ settled. unseen s)

wait_fresh-Unseen :
    (b : Boundary) (s : DapSession) → Unseen s (wait_for_stop_or_termination_after b s)
unfolding wait_for_stop_or_termination_after
wait_fresh-Unseen b s =
    none_or_some (Unseen s) (fresh_outcome_after b s)
      (λ nothing.
        either_way (Unseen s) s.disposed
          (λ ended. record { terminal = refl; stop = refl; latest = refl; on = refl; same = refl })
          (λ open_.
            none_or_some (Unseen s) (fresh_outcome_after b (registered b s))
              (λ still. record {
                terminal = refl;
                stop = refl;
                latest = refl;
                on = refl;
                same = refl;
              })
              (λ r raced.
                let u =
                  settle_fresh-Unseen s.next_promise (Settled.fresh s.next_promise r)
                    (registered b s) in
                record {
                  terminal = u.terminal;
                  stop = u.stop;
                  latest = u.latest;
                  on = u.on;
                  same = u.same;
                })))
      (λ r seen. record { terminal = refl; stop = refl; latest = refl; on = refl; same = refl })

-- What has happened since a boundary.
record Since (b : Boundary) (ended : Bool) (last : Option FreshResult) (t : DapSession)
    : Type 0 where
  terminal : ltb b.terminal_sequence t.terminal_sequence ≡ ended
  not_ahead : b.terminal_sequence ≤ t.terminal_sequence
  latest : newer_stop b.stop_sequence t.latest_stopped ≡ last
  stop : b.stop_sequence ≤ t.stop_sequence

Unseen-Since :
    (b : Boundary) (ended : Bool) (last : Option FreshResult) (s t : DapSession)
    → Unseen s t
    → Since b ended last s
    → Since b ended last t
Unseen-Since b ended last s t u h = record {
  terminal = ap (ltb b.terminal_sequence) u.terminal ∙ h.terminal;
  not_ahead = omega (arith, u.terminal, h.not_ahead);
  latest = ap (newer_stop b.stop_sequence) u.latest ∙ h.latest;
  stop = omega (arith, u.stop, h.stop);
}

deliver_stop :
    (b : Boundary) (ended : Bool) (last : Option FreshResult) (o : ObservedStop) (ps : List ℕ)
    (s t : DapSession)
    → Since b ended last s
    → t.terminal_sequence ≡ s.terminal_sequence
    → t.stop_sequence ≡ s.stop_sequence + 1
    → t.latest_stopped ≡ some o
    → o.sequence ≡ s.stop_sequence + 1
    → Since b ended
        (some (FreshResult.stop o.event))
        (resolve_fresh_stop_waiters o (deliver o.event ps t))
unfolding resolve_fresh_stop_waiters
deliver_stop b ended last o ps s t h e n l m = go ps
  where
    newer : newer_stop b.stop_sequence t.latest_stopped ≡ some (FreshResult.stop o.event)
    newer =
        let later : ltb b.stop_sequence o.sequence ≡ true = (ground (arith, m, h.stop)) in
        rw l (rw later refl)

    go :
        (ps : List ℕ)
        → Since b ended
            (some (FreshResult.stop o.event))
            (resolve_fresh_stop_waiters o (deliver o.event ps t))
    go [] = record {
      terminal = ap (ltb b.terminal_sequence) e ∙ h.terminal;
      not_ahead = omega (arith, e, h.not_ahead);
      latest = newer;
      stop = omega (arith, n, h.stop);
    }
    go (p ∷ ps) = record {
      terminal = ap (ltb b.terminal_sequence) e ∙ h.terminal;
      not_ahead = omega (arith, e, h.not_ahead);
      latest = newer;
      stop = omega (arith, n, h.stop);
    }

-- After one call.
abbrev next_end : Bool → Call → Bool
next_end ended terminal_event = true
next_end ended c = ended

abbrev next_stop : String → Option FreshResult → Call → Option FreshResult
next_stop sid last c = last_stop sid last (c ∷ [])

when_on_Since :
    (b : Boundary) (ended : Bool) (last : Option FreshResult) (s t : DapSession)
    → s.listening ≡ true
    → Since b ended last t
    → Since b ended last (if s.listening then t else s)
when_on_Since b ended last s t on h =
    either_way (Since b ended last) s.listening (λ yes_on. h)
      (λ off. absurd (ground (arith, on, off)))

perform-Since :
    (b : Boundary) (ended : Bool) (last : Option FreshResult) (s : DapSession) (c : Call)
    → s.listening ≡ true
    → never_disposed (c ∷ []) ≡ true
    → Since b ended last s
    → Since b (next_end ended c) (next_stop s.session_id last c) (perform s c)
unfolding perform on_initialized on_continued on_terminal on_stopped resolve_fresh_terminal_waiters
    mark_running wait_for_initialized wait_for_breakpoint wait_times_out fresh_wait_times_out
    start_request_fails dispose_client
perform-Since b ended last s initialized_event on live h =
    when_on_Since b ended last s (on_initialized s) on
      (record { terminal = h.terminal; not_ahead = h.not_ahead; latest = h.latest; stop = h.stop })
perform-Since b ended last s continued_event on live h =
    when_on_Since b ended last s (on_continued s) on
      (record { terminal = h.terminal; not_ahead = h.not_ahead; latest = h.latest; stop = h.stop })
perform-Since b ended last s terminal_event on live h =
    when_on_Since b true last s (on_terminal s) on (record {
      terminal = ground (arith, h.not_ahead);
      not_ahead = omega (arith, h.not_ahead);
      latest = h.latest;
      stop = h.stop;
    })
perform-Since b ended last s (stopped_event body) on live h =
    let o : ObservedStop = record { sequence = s.stop_sequence + 1; event = stop_event s body } in
    let t : DapSession = record s {
      paused = true;
      thread_id = or_else body.thread_id s.thread_id;
      stop_sequence = s.stop_sequence + 1;
      latest_stopped = some o;
    } in
    when_on_Since b ended (some (FreshResult.stop o.event)) s (on_stopped body s) on
      (deliver_stop b ended last o s.stopped_waiters s t h refl refl refl refl)
perform-Since b ended last s marking on live h = record {
  terminal = h.terminal;
  not_ahead = h.not_ahead;
  latest = h.latest;
  stop = h.stop;
}
perform-Since b ended last s disposing on live h = absurd (ground (arith, live))
perform-Since b ended last s waiting_initialized on live h =
    either_way (Since b ended last) s.initialized
      (λ at_once. record {
        terminal = h.terminal;
        not_ahead = h.not_ahead;
        latest = h.latest;
        stop = h.stop;
      })
      (λ later. record {
        terminal = h.terminal;
        not_ahead = h.not_ahead;
        latest = h.latest;
        stop = h.stop;
      })
perform-Since b ended last s waiting_breakpoint on live h =
    Unseen-Since b ended last s (perform s waiting_breakpoint)
      (waited-Unseen s.stopped_queue s.start_error s) h
perform-Since b ended last s (waiting_times_out p) on live h =
    either_way (Since b ended last) (has_promise p s.stopped_waiters)
      (λ waits.
        Unseen-Since b ended last s
          (given_up s.stopped_queue s.start_error p
            (record s { stopped_waiters = without_promise p s.stopped_waiters }))
          (given_up-Unseen s.stopped_queue s.start_error p (without_promise p s.stopped_waiters) s)
          h)
      (λ settled. h)
perform-Since b ended last s (waiting_fresh c) on live h =
    Unseen-Since b ended last s (wait_for_stop_or_termination_after c s) (wait_fresh-Unseen c s) h
perform-Since b ended last s (fresh_times_out p) on live h =
    let r : Settled = Settled.rejected p (WaitError.timed_out s.session_id) in
    Unseen-Since b ended last s (settle_fresh p r s) (settle_fresh-Unseen p r s) h
perform-Since b ended last s (start_failing ready e) on live h = record {
  terminal = h.terminal;
  not_ahead = h.not_ahead;
  latest = h.latest;
  stop = h.stop;
}

last_stop-cons :
    (sid : String) (o : Option FreshResult) (c : Call) (cs : List Call)
    → last_stop sid o (c ∷ cs) ≡ last_stop sid (next_stop sid o c) cs
last_stop-cons sid o (stopped_event body) cs = refl
last_stop-cons sid o initialized_event cs = refl
last_stop-cons sid o continued_event cs = refl
last_stop-cons sid o terminal_event cs = refl
last_stop-cons sid o marking cs = refl
last_stop-cons sid o disposing cs = refl
last_stop-cons sid o waiting_initialized cs = refl
last_stop-cons sid o waiting_breakpoint cs = refl
last_stop-cons sid o (waiting_times_out p) cs = refl
last_stop-cons sid o (waiting_fresh b) cs = refl
last_stop-cons sid o (fresh_times_out p) cs = refl
last_stop-cons sid o (start_failing ready e) cs = refl

ends-cons :
    (ended : Bool) (c : Call) (cs : List Call)
    → (ended || ends (c ∷ cs)) ≡ (next_end ended c || ends cs)
ends-cons ended terminal_event cs = ground arith
ends-cons ended (stopped_event body) cs = refl
ends-cons ended initialized_event cs = refl
ends-cons ended continued_event cs = refl
ends-cons ended marking cs = refl
ends-cons ended disposing cs = refl
ends-cons ended waiting_initialized cs = refl
ends-cons ended waiting_breakpoint cs = refl
ends-cons ended (waiting_times_out p) cs = refl
ends-cons ended (waiting_fresh b) cs = refl
ends-cons ended (fresh_times_out p) cs = refl
ends-cons ended (start_failing ready e) cs = refl

perform_all-Since :
    (b : Boundary) (ended : Bool) (last : Option FreshResult) (s : DapSession) (cs : List Call)
    → IsSound s
    → s.listening ≡ true
    → never_disposed cs ≡ true
    → Since b ended last s
    → Since b (ended || ends cs) (last_stop s.session_id last cs) (perform_all s cs)
unfolding perform_all
perform_all-Since b ended last s [] v on live h = subst (λ e. Since b e last s) (ground arith) h
perform_all-Since b ended last s (c ∷ cs) v on live h =
    let t : DapSession = perform s c in
    let split = never_disposed-cons c cs live in
    let kept = perform-Adds s c v on split.0 in
    let rest =
      perform_all-Since b (next_end ended c) (next_stop s.session_id last c) t cs
        (perform-IsSound s c v) (kept.on ∙ on) split.1
        (perform-Since b ended last s c on split.0 h) in
    let known =
      subst
        (λ sid.
          Since b (next_end ended c || ends cs) (last_stop sid (next_stop s.session_id last c) cs)
            (perform_all t cs))
        kept.same rest in
    rw (ends-cons ended c cs, last_stop-cons s.session_id last c cs) known

-- Nothing has happened yet since the boundary that is captured now.
capture-Since : (s : DapSession) → IsSound s → Since (capture_stop_boundary s) false none s
unfolding capture_stop_boundary
capture-Since s v = record {
  terminal = ground arith;
  not_ahead = ground arith;
  latest = elim v.latest [
    | inl (nothing, why) ↦ rw nothing refl
    | inr (o, kept, counted) ↦ rw kept (ground (arith, counted))
  ];
  stop = ground arith;
}

started_listening : (sid : String) → (start_client sid).listening ≡ true
unfolding start_client
started_listening sid = refl

started_id : (sid : String) → (start_client sid).session_id ≡ sid
unfolding start_client
started_id sid = refl

-- In a session that was started and is not disposed, the outcome that is read for a boundary, after
-- any events, waits and time-outs since it was captured, is the end of the program or of the
-- transport if one came since then, else the last stop that came since then, and none if nothing
-- came: what happened before the boundary is never taken for it.
pub fresh_outcome_after-capture :
    (sid : String) (before after : List Call)
    → never_disposed before ≡ true
    → never_disposed after ≡ true
    → let s = perform_all (start_client sid) before in
      fresh_outcome_after (capture_stop_boundary s) (perform_all s after)
      ≡ (if ends after then some FreshResult.terminated else last_stop sid none after)
unfolding fresh_outcome_after
fresh_outcome_after-capture sid before after live live2 =
    let s : DapSession = perform_all (start_client sid) before in
    let b : Boundary = capture_stop_boundary s in
    let v : IsSound s = perform_all-IsSound sid before in
    let been =
      perform_all-Adds (start_client sid) before (start_client-IsSound sid) (started_listening sid)
        live in
    let h =
      perform_all-Since b false none s after v (been.on ∙ started_listening sid) live2
        (capture-Since s v) in
    let same : s.session_id ≡ sid = been.same ∙ started_id sid in
    ap
      (λ e.
        if e
        then some FreshResult.terminated
        else newer_stop b.stop_sequence (perform_all s after).latest_stopped)
      h.terminal
    ∙ ap (λ l. if ends after then some FreshResult.terminated else l) h.latest
    ∙ ap (λ i. if ends after then some FreshResult.terminated else last_stop i none after) same
