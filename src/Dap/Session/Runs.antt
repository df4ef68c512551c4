-- ===== src/Dap/Session/Runs.antt =====
-- src/dap/DapSession.ts: what holds of a session after any events and waits.
use break_pilot.Common.{
  ℕ, ◌+◌, ◌≤◌, String, Bool, true, false, not, Option, none, some, List, [], ◌∷◌, ◌≡◌, refl, sym,
  ◌∙◌, ◌==◌, nat_eq, if◌then◌else◌, or_else, filter_by, any_of, All, All-append, ◌⊎◌, inl, inr,
  arith, Bool-cases, either_way, none_or_some,
}
use break_pilot.Dap.Session.{
  StoppedEvent, Boundary, Settled, WaitError, FreshWaiter, ObservedStop, DapSession, start_client,
  mark_running, on_initialized, still_waiting, resolve_fresh_stop_waiters,
  resolve_fresh_terminal_waiters, on_stopped, deliver, stop_event, on_continued, on_terminal,
  dispose_client, wait_for_initialized, waited, wait_for_breakpoint, given_up, wait_times_out,
  without_promise, has_promise, fresh_outcome_after, settle_fresh, registered, is_past_stop,
  is_past_terminal, wait_for_stop_or_termination_after, fresh_wait_times_out, start_request_fails,
}

-- What happens to a session. The events of the client reach it while it listens.
pub data Call : Type 0 where
  initialized_event continued_event terminal_event : Call
  stopped_event : StoppedEvent → Call
  marking disposing : Call
  waiting_initialized waiting_breakpoint : Call
  waiting_times_out : ℕ → Call
  waiting_fresh : Boundary → Call
  fresh_times_out : ℕ → Call
  start_failing : Bool → String → Call

unfoldable pub perform : DapSession → Call → DapSession
perform s initialized_event = if s.listening then on_initialized s else s
perform s continued_event = if s.listening then on_continued s else s
perform s terminal_event = if s.listening then on_terminal s else s
perform s (stopped_event body) = if s.listening then on_stopped body s else s
perform s marking = mark_running s
perform s disposing = dispose_client s
perform s waiting_initialized = wait_for_initialized s
perform s waiting_breakpoint = wait_for_breakpoint s
perform s (waiting_times_out p) = wait_times_out p s
perform s (waiting_fresh b) = wait_for_stop_or_termination_after b s
perform s (fresh_times_out p) = fresh_wait_times_out p s
perform s (start_failing ready e) = (start_request_fails ready e s).0

unfoldable pub perform_all : DapSession → List Call → DapSession
unfolding perform
perform_all s [] = s
perform_all s (c ∷ cs) = perform_all (perform s c) cs

-- A waiter that no stop and no end has passed.
abbrev pub IsAhead : ℕ → ℕ → FreshWaiter → Type 0
IsAhead stops ends w = (stops ≤ w.boundary.stop_sequence) × (ends ≤ w.boundary.terminal_sequence)

-- No stop is queued while somebody waits for one; nobody waits for a fresh stop or an end that has
-- come; and the latest stop that is kept is the last one counted.
pub record IsSound (s : DapSession) : Type 0 where
  pub one_side : (s.stopped_queue ≡ []) ⊎ (s.stopped_waiters ≡ [])
  pub ahead : All (IsAhead s.stop_sequence s.terminal_sequence) s.fresh_stop_waiters
  pub latest :
      (s.latest_stopped ≡ none) × ((s.stop_sequence ≡ 0) ⊎ (s.disposed ≡ true))
      ⊎ ((o : ObservedStop) × (s.latest_stopped ≡ some o) × (o.sequence ≡ s.stop_sequence))
  pub silent : s.disposed ≡ not s.listening

module _ (stops ends : ℕ) where
  still-stop :
      (ws : List FreshWaiter)
      → All (IsAhead stops ends) ws
      → All (IsAhead (stops + 1) ends) (still_waiting (is_past_stop (stops + 1)) ws)
  still-stop [] a = tt
  still-stop (w ∷ ws) a = ground (arith, still-stop ws a.1)

  still-terminal :
      (ws : List FreshWaiter)
      → All (IsAhead stops ends) ws
      → All (IsAhead stops (ends + 1)) (still_waiting (is_past_terminal (ends + 1)) ws)
  still-terminal [] a = tt
  still-terminal (w ∷ ws) a = ground (arith, still-terminal ws a.1)

  filter-IsAhead :
      (keep : FreshWaiter → Bool) (ws : List FreshWaiter)
      → All (IsAhead stops ends) ws
      → All (IsAhead stops ends) (filter_by keep ws)
  filter-IsAhead keep [] a = tt
  filter-IsAhead keep (w ∷ ws) a = elim (Bool-cases (keep w)) [
    | inl stays ↦ rw stays (a.0, filter-IsAhead keep ws a.1)
    | inr goes ↦ rw goes (filter-IsAhead keep ws a.1)
  ]

pub start_client-IsSound : (sid : String) → IsSound (start_client sid)
unfolding start_client
start_client-IsSound sid = record {
  one_side = inl refl;
  ahead = tt;
  latest = inl (refl, inl refl);
  silent = refl;
}

deliver-IsSound :
    (o : ObservedStop) (ps : List ℕ) (s : DapSession) (stops : ℕ)
    → s.stopped_waiters ≡ ps
    → (s.stopped_queue ≡ []) ⊎ (ps ≡ [])
    → s.stop_sequence ≡ stops + 1
    → o.sequence ≡ stops + 1
    → s.latest_stopped ≡ some o
    → s.disposed ≡ not s.listening
    → All (IsAhead stops s.terminal_sequence) s.fresh_stop_waiters
    → IsSound (resolve_fresh_stop_waiters o (deliver o.event ps s))
unfolding resolve_fresh_stop_waiters
deliver-IsSound o [] s stops same side n m last silent ahead = record {
  one_side = inr same;
  ahead = rw (n, m) (still-stop stops s.terminal_sequence s.fresh_stop_waiters ahead);
  latest = inr (o, last, m ∙ sym n);
  silent = silent;
}
deliver-IsSound o (p ∷ ps) s stops same side n m last silent ahead = record {
  one_side = ground (arith, side);
  ahead = rw (n, m) (still-stop stops s.terminal_sequence s.fresh_stop_waiters ahead);
  latest = inr (o, last, m ∙ sym n);
  silent = silent;
}

on_stopped-IsSound :
    (body : StoppedEvent) (s : DapSession) → IsSound s → IsSound (on_stopped body s)
unfolding on_stopped
on_stopped-IsSound body s v =
    let o : ObservedStop = record { sequence = s.stop_sequence + 1; event = stop_event s body } in
    let t : DapSession = record s {
      paused = true;
      thread_id = or_else body.thread_id s.thread_id;
      stop_sequence = s.stop_sequence + 1;
      latest_stopped = some o;
    } in
    deliver-IsSound o s.stopped_waiters t s.stop_sequence refl v.one_side refl refl refl v.silent
      v.ahead

on_terminal-IsSound : (s : DapSession) → IsSound s → IsSound (on_terminal s)
unfolding on_terminal resolve_fresh_terminal_waiters
on_terminal-IsSound s v = record {
  one_side = v.one_side;
  ahead = still-terminal s.stop_sequence s.terminal_sequence s.fresh_stop_waiters v.ahead;
  latest = v.latest;
  silent = v.silent;
}

dispose_client-IsSound : (s : DapSession) → IsSound s → IsSound (dispose_client s)
unfolding dispose_client
dispose_client-IsSound s v =
    either_way IsSound s.disposed (λ already. v)
      (λ first. record {
        one_side = inl refl;
        ahead = tt;
        latest = inl (refl, inr refl);
        silent = refl;
      })

waited-IsSound :
    (es : List StoppedEvent) (error : Option String) (s : DapSession)
    → s.stopped_queue ≡ es
    → IsSound s
    → IsSound (waited es error s)
waited-IsSound (e ∷ es) error s same v = record {
  one_side = ground (arith, v.one_side, same);
  ahead = v.ahead;
  latest = v.latest;
  silent = v.silent;
}
waited-IsSound [] (some error) s same v = record {
  one_side = v.one_side;
  ahead = v.ahead;
  latest = v.latest;
  silent = v.silent;
}
waited-IsSound [] none s same v = record {
  one_side = inl same;
  ahead = v.ahead;
  latest = v.latest;
  silent = v.silent;
}

given_up-IsSound :
    (es : List StoppedEvent) (error : Option String) (p : ℕ) (s : DapSession)
    → s.stopped_queue ≡ es
    → IsSound s
    → IsSound (given_up es error p s)
given_up-IsSound (e ∷ es) error p s same v = record {
  one_side = ground (arith, v.one_side, same);
  ahead = v.ahead;
  latest = v.latest;
  silent = v.silent;
}
given_up-IsSound [] (some error) p s same v = record {
  one_side = v.one_side;
  ahead = v.ahead;
  latest = v.latest;
  silent = v.silent;
}
given_up-IsSound [] none p s same v = record {
  one_side = v.one_side;
  ahead = v.ahead;
  latest = v.latest;
  silent = v.silent;
}

wait_times_out-IsSound : (p : ℕ) (s : DapSession) → IsSound s → IsSound (wait_times_out p s)
unfolding wait_times_out
wait_times_out-IsSound p s v =
    let t : DapSession = record s { stopped_waiters = without_promise p s.stopped_waiters } in
    either_way IsSound (has_promise p s.stopped_waiters)
      (λ waits. given_up-IsSound s.stopped_queue s.start_error p t refl (record {
        one_side = fewer p s.stopped_queue s.stopped_waiters v.one_side;
        ahead = v.ahead;
        latest = v.latest;
        silent = v.silent;
      }))
      (λ settled. v)
  where
    fewer :
        (p : ℕ) (es : List StoppedEvent) (ps : List ℕ)
        → (es ≡ []) ⊎ (ps ≡ [])
        → (es ≡ []) ⊎ (without_promise p ps ≡ [])
    fewer p es [] h = inr refl
    fewer p es (q ∷ qs) h = ground (arith, h)

settle_fresh-IsSound :
    (p : ℕ) (r : Settled) (s : DapSession) → IsSound s → IsSound (settle_fresh p r s)
settle_fresh-IsSound p r s v =
    either_way IsSound (any_of (λ w. w.promise == p) s.fresh_stop_waiters)
      (λ waits. record {
        one_side = v.one_side;
        ahead =
            filter-IsAhead s.stop_sequence s.terminal_sequence (λ w. not (w.promise == p))
              s.fresh_stop_waiters v.ahead;
        latest = v.latest;
        silent = v.silent;
      })
      (λ settled. v)

-- Without a fresh outcome the boundary is not passed.
not_passed :
    (b : Boundary) (s : DapSession)
    → IsSound s
    → s.disposed ≡ false
    → fresh_outcome_after b s ≡ none
    → IsAhead s.stop_sequence s.terminal_sequence
        (record { promise = s.next_promise; boundary = b })
unfolding fresh_outcome_after
not_passed b s v open_ h = ground (arith, v.latest)

registered-IsSound :
    (b : Boundary) (s : DapSession)
    → IsSound s
    → s.disposed ≡ false
    → fresh_outcome_after b s ≡ none
    → IsSound (registered b s)
registered-IsSound b s v open_ h = record {
  one_side = v.one_side;
  ahead =
      All-append (IsAhead s.stop_sequence s.terminal_sequence) s.fresh_stop_waiters
        (record { promise = s.next_promise; boundary = b } ∷ []) v.ahead
        (not_passed b s v open_ h, tt);
  latest = v.latest;
  silent = v.silent;
}

wait_fresh-IsSound :
    (b : Boundary) (s : DapSession) → IsSound s → IsSound (wait_for_stop_or_termination_after b s)
unfolding wait_for_stop_or_termination_after
wait_fresh-IsSound b s v =
    none_or_some IsSound (fresh_outcome_after b s)
      (λ nothing.
        either_way IsSound s.disposed
          (λ ended. record {
            one_side = v.one_side;
            ahead = v.ahead;
            latest = v.latest;
            silent = v.silent;
          })
          (λ open_.
            none_or_some IsSound (fresh_outcome_after b (registered b s))
              (λ still. registered-IsSound b s v open_ nothing)
              (λ r raced.
                settle_fresh-IsSound s.next_promise (Settled.fresh s.next_promise r)
                  (registered b s) (registered-IsSound b s v open_ nothing))))
      (λ r seen. record {
        one_side = v.one_side;
        ahead = v.ahead;
        latest = v.latest;
        silent = v.silent;
      })

pub perform-IsSound : (s : DapSession) (c : Call) → IsSound s → IsSound (perform s c)
unfolding perform on_initialized on_continued mark_running wait_for_initialized wait_for_breakpoint
    fresh_wait_times_out start_request_fails
perform-IsSound s Call.initialized_event v =
    either_way IsSound s.listening
      (λ on. record {
        one_side = v.one_side;
        ahead = v.ahead;
        latest = v.latest;
        silent = v.silent;
      })
      (λ off. v)
perform-IsSound s Call.continued_event v =
    either_way IsSound s.listening
      (λ on. record {
        one_side = v.one_side;
        ahead = v.ahead;
        latest = v.latest;
        silent = v.silent;
      })
      (λ off. v)
perform-IsSound s Call.terminal_event v =
    either_way IsSound s.listening (λ on. on_terminal-IsSound s v) (λ off. v)
perform-IsSound s (stopped_event body) v =
    either_way IsSound s.listening (λ on. on_stopped-IsSound body s v) (λ off. v)
perform-IsSound s marking v = record {
  one_side = v.one_side;
  ahead = v.ahead;
  latest = v.latest;
  silent = v.silent;
}
perform-IsSound s disposing v = dispose_client-IsSound s v
perform-IsSound s waiting_initialized v =
    either_way IsSound s.initialized
      (λ at_once. record {
        one_side = v.one_side;
        ahead = v.ahead;
        latest = v.latest;
        silent = v.silent;
      })
      (λ later. record {
        one_side = v.one_side;
        ahead = v.ahead;
        latest = v.latest;
        silent = v.silent;
      })
perform-IsSound s waiting_breakpoint v = waited-IsSound s.stopped_queue s.start_error s refl v
perform-IsSound s (waiting_times_out p) v = wait_times_out-IsSound p s v
perform-IsSound s (waiting_fresh b) v = wait_fresh-IsSound b s v
perform-IsSound s (fresh_times_out p) v =
    settle_fresh-IsSound p (Settled.rejected p (WaitError.timed_out s.session_id)) s v
perform-IsSound s (start_failing ready e) v = record {
  one_side = v.one_side;
  ahead = v.ahead;
  latest = v.latest;
  silent = v.silent;
}

pub perform_all-IsSound_from :
    (s : DapSession) (cs : List Call) → IsSound s → IsSound (perform_all s cs)
unfolding perform_all
perform_all-IsSound_from s [] v = v
perform_all-IsSound_from s (c ∷ cs) v =
    perform_all-IsSound_from (perform s c) cs (perform-IsSound s c v)

-- After any events, waits, time-outs and a disposal of a session that was started, no stop is
-- queued while somebody waits for one, nobody waits for a fresh stop or an end that has come
-- since the boundary, the latest stop kept is the last one counted, and the session listens to
-- its client exactly until it is disposed.
pub perform_all-IsSound :
    (sid : String) (cs : List Call) → IsSound (perform_all (start_client sid) cs)
perform_all-IsSound sid cs =
    perform_all-IsSound_from (start_client sid) cs (start_client-IsSound sid)
