-- ===== src/Dap/Client/Timers/Runs.antt =====
-- src/dap/DapClient.ts: the timers of the requests after any calls.
use break_pilot.Common.{
  ℕ, ◌+◌, Bool, true, false, not, ◌&&◌, none, some, String, List, [], ◌∷◌, ◌++◌, ◌≡◌, refl, sym,
  subst, nat_eq, string_eq, Result, find_by, either_way,
}
use mathlib.Core.List.{append_assoc, append-nil}
use break_pilot.Dap.Client.{
  Message, Client, start, reject_all, on_stderr, on_error, on_exit, hear_errors, close, request,
  send_event, has_number, request_times_out, emit, adapter_error, error, transport_failed,
  client_closed,
}
use break_pilot.Dap.Client.Promises.{numbers}
use break_pilot.Dap.Client.Calls.{
  Call, requesting, sending, receiving, printing, failing, exiting, timing_out, hearing_errors,
  closing, perform, perform_all,
}
use break_pilot.Dap.Client.Timers.{
  has, Timed, IsTimed, reject_all-IsTimed, touched, on_data-IsTimed, issued-IsTimed,
  refused-IsTimed, skipped-IsTimed, heard-IsTimed, expired-IsTimed,
}

-- The numbers of the requests that the transport refused, if the next number is the first argument.
abbrev pub refused : {J : Type 0} → ℕ → List (Call J) → List ℕ
refused n [] = []
refused n (requesting none command ∷ cs) = refused (n + 1) cs
refused n (requesting (some e) command ∷ cs) = n ∷ refused (n + 1) cs
refused n (sending refusal name ∷ cs) = refused (n + 1) cs
refused n (_ ∷ cs) = refused n cs

abbrev has_request : {J : Type 0} → Call J → Bool
has_request (requesting refusal command) = true
has_request (sending refusal name) = true
has_request _ = false

module _ {J : Type 0} (text : List ℕ → List ℕ) (parse : List ℕ → Result String (Message J))
    (stringify : ℕ → String → List ℕ) where
  -- After a call, with the next number written in the way of the client.
  continued :
      (refusals : List ℕ) (next : ℕ) (t : Client J) (cs : List (Call J))
      → IsTimed refusals next t
      → (IsTimed refusals t.seq t
          → Timed (refusals ++ refused t.seq cs) (perform_all text parse stringify t cs))
      → Timed (refusals ++ refused next cs) (perform_all text parse stringify t cs)
  continued refusals next t cs v again =
      subst (λ k. Timed (refusals ++ refused k cs) (perform_all text parse stringify t cs)) v.number
        (again (subst (λ k. IsTimed refusals k t) (sym v.number) v))

  -- What a call that makes no request leaves.
  perform-IsTimed :
      (refusals : List ℕ) (s : Client J) (c : Call J)
      → IsTimed refusals s.seq s
      → has_request c ≡ false
      → IsTimed refusals s.seq (perform text parse stringify s c)
  unfolding perform on_stderr on_error on_exit hear_errors close request_times_out
  perform-IsTimed refusals s (requesting refusal command) v e = absurd (cc e)
  perform-IsTimed refusals s (sending refusal name) v e = absurd (cc e)
  perform-IsTimed refusals s (receiving chunk) v e =
      heard-IsTimed refusals s.seq s _ v (on_data-IsTimed refusals s.seq text parse chunk s v)
  perform-IsTimed refusals s (printing t) v e =
      heard-IsTimed refusals s.seq s (on_stderr t s) v
        (record { timed = v.timed; number = refl; unissued = v.unissued; unrefused = v.unrefused })
  perform-IsTimed refusals s (failing x) v e =
      let t = reject_all (transport_failed x) s in
      let w = reject_all-IsTimed refusals s.seq (transport_failed x) s v in
      heard-IsTimed refusals s.seq s (on_error x s) v (
        either_way (λ (u : Client J). IsTimed refusals s.seq (emit (adapter_error x) u))
          s.heard_errors
          (λ on. touched refusals s.seq t _ ((t.emitted ++ error x ∷ []) ++ adapter_error x ∷ []) w)
          (λ off. touched refusals s.seq t _ _ w))
  perform-IsTimed refusals s (exiting info) v e =
      heard-IsTimed refusals s.seq s (on_exit info s) v
        (touched refusals s.seq _ _ _ (reject_all-IsTimed refusals s.seq _ s v))
  perform-IsTimed refusals s (timing_out n) v e =
      either_way (IsTimed refusals s.seq) (has n s.timers)
        (λ runs. expired-IsTimed refusals s.seq n (find_by (has_number n) s.pending) s v)
        (λ over. v)
  perform-IsTimed refusals s (hearing_errors on) v e = record {
    timed = v.timed;
    number = refl;
    unissued = v.unissued;
    unrefused = v.unrefused;
  }
  perform-IsTimed refusals s closing v e =
      either_way (IsTimed refusals s.seq) s.closed (λ again. v)
        (λ first.
          let w = reject_all-IsTimed refusals s.seq client_closed s v in
          record { timed = w.timed; number = refl; unissued = w.unissued; unrefused = w.unrefused })

  perform_all-Timed :
      (refusals : List ℕ) (s : Client J) (cs : List (Call J))
      → IsTimed refusals s.seq s
      → Timed (refusals ++ refused s.seq cs) (perform_all text parse stringify s cs)
  unfolding perform_all perform request send_event
  perform_all-Timed refusals s [] v = subst (λ r. Timed r s) (sym (append-nil refusals)) v.timed
  perform_all-Timed refusals s (requesting none command ∷ cs) v =
      perform_all-Timed refusals _ cs (issued-IsTimed refusals command _ s v)
  perform_all-Timed refusals s (requesting (some e) command ∷ cs) v =
      subst
        (λ r.
          Timed r (perform_all text parse stringify (request stringify (some e) command s).0 cs))
        (append_assoc refusals (s.seq ∷ []) (refused (s.seq + 1) cs))
        (perform_all-Timed (refusals ++ s.seq ∷ []) _ cs (refused-IsTimed refusals command s v))
  perform_all-Timed refusals s (sending none name ∷ cs) v =
      perform_all-Timed refusals _ cs (skipped-IsTimed refusals _ s v)
  perform_all-Timed refusals s (sending (some e) name ∷ cs) v =
      perform_all-Timed refusals _ cs (skipped-IsTimed refusals _ s v)
  perform_all-Timed refusals s (receiving chunk ∷ cs) v =
      continued refusals s.seq (perform text parse stringify s (receiving chunk)) cs
        (perform-IsTimed refusals s (receiving chunk) v refl)
        (λ w. perform_all-Timed refusals _ cs w)
  perform_all-Timed refusals s (printing x ∷ cs) v =
      continued refusals s.seq (perform text parse stringify s (printing x)) cs
        (perform-IsTimed refusals s (printing x) v refl) (λ w. perform_all-Timed refusals _ cs w)
  perform_all-Timed refusals s (failing x ∷ cs) v =
      continued refusals s.seq (perform text parse stringify s (failing x)) cs
        (perform-IsTimed refusals s (failing x) v refl) (λ w. perform_all-Timed refusals _ cs w)
  perform_all-Timed refusals s (exiting x ∷ cs) v =
      continued refusals s.seq (perform text parse stringify s (exiting x)) cs
        (perform-IsTimed refusals s (exiting x) v refl) (λ w. perform_all-Timed refusals _ cs w)
  perform_all-Timed refusals s (timing_out n ∷ cs) v =
      continued refusals s.seq (perform text parse stringify s (timing_out n)) cs
        (perform-IsTimed refusals s (timing_out n) v refl) (λ w. perform_all-Timed refusals _ cs w)
  perform_all-Timed refusals s (hearing_errors on ∷ cs) v =
      continued refusals s.seq (perform text parse stringify s (hearing_errors on)) cs
        (perform-IsTimed refusals s (hearing_errors on) v refl)
        (λ w. perform_all-Timed refusals _ cs w)
  perform_all-Timed refusals s (closing ∷ cs) v =
      continued refusals s.seq (perform text parse stringify s closing) cs
        (perform-IsTimed refusals s closing v refl) (λ w. perform_all-Timed refusals _ cs w)

  -- After any calls of a client that was started, a timer runs for exactly the requests that are
  -- pending and whose bytes the transport took: a request that it refused, so that its caller has
  -- the error of the transport, has none, for as long as it is pending.
  pub perform_all-timers :
      (cs : List (Call J)) (n : ℕ)
      → has n (perform_all text parse stringify start cs).timers ≡ (
          has n (numbers (perform_all text parse stringify start cs).pending)
          && not (has n (refused 1 cs)))
  unfolding start
  perform_all-timers cs = perform_all-Timed [] start cs (record {
    timed = λ n. refl;
    number = refl;
    unissued = λ n above. refl;
    unrefused = λ n above. refl;
  })
