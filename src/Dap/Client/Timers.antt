-- ===== src/Dap/Client/Timers.antt =====
-- src/dap/DapClient.ts: which of the requests that wait for a response have a timer.
pub mod Runs
use break_pilot.Common.{
  ℕ, zero, suc, ◌+◌, ◌≤◌, Bool, true, false, not, ◌&&◌, ◌||◌, Option, none, some, String, List, [],
  ◌∷◌, ◌++◌, ◌≡◌, refl, sym, ap, ◌∙◌, subst, ◌==◌, nat_eq, string_eq, if◌then◌else◌, Result, ok,
  throw, arith, any_of, filter_by, find_by, either_way, length,
}
use mathlib.Core.List.{append_assoc, append-nil}
use break_pilot.Dap.Wire.{Frame, waiting, bad_header, payload, frame}
use break_pilot.Dap.Client.{
  Message, response, event, other, Pending, Client, ClientError, Reply, Emitted, start, reject_all,
  last_ten, on_stderr, on_error, on_exit, hear_errors, close, request, send_event, has_number,
  without, settle, expired, request_times_out, answered, any_event, emit, emit_named,
  handle_message, Round, idle, went, broke, Outcome, round_after, handled, round_of, round, drain,
  with_chunk, on_data, adapter_error, error, transport_failed, client_closed,
}
use break_pilot.Dap.Client.Promises.{numbers, numbers-append}
use break_pilot.Dap.Client.Chunks.{drain-next_round, next_round}
use break_pilot.Dap.Client.Calls.{
  Call, requesting, sending, receiving, printing, failing, exiting, timing_out, hearing_errors,
  closing, left_by, perform, perform_all,
}

abbrev pub has : ℕ → List ℕ → Bool
has n ms = any_of (λ m. m == n) ms

has-append : (n : ℕ) (xs ys : List ℕ) → has n (xs ++ ys) ≡ (has n xs || has n ys)
has-append n [] ys = refl
has-append n (x ∷ xs) ys = ground (arith, has-append n xs ys)

has-filter :
    (n m : ℕ) (xs : List ℕ) → has m (filter_by (λ x. not (x == n)) xs) ≡ (has m xs && not (m == n))
has-filter n m [] = refl
has-filter n m (x ∷ xs) = ground (arith, has-filter n m xs)

has-without :
    (n m : ℕ) (ps : List Pending)
    → has m (numbers (without n ps)) ≡ (has m (numbers ps) && not (m == n))
has-without n m [] = refl
has-without n m (p ∷ ps) = ground (arith, has-without n m ps)

-- Given the requests that the transport refused, a timer runs for the others that are pending.
abbrev pub Timed : {J : Type 0} → List ℕ → Client J → Type 0
Timed refusals s = (n : ℕ) → has n s.timers ≡ (has n (numbers s.pending) && not (has n refusals))

-- Moreover, no number is above the next one.
pub record IsTimed {J : Type 0} (refusals : List ℕ) (next : ℕ) (s : Client J) : Type 0 where
  pub timed : Timed refusals s
  pub number : s.seq ≡ next
  pub unissued : (n : ℕ) → next ≤ n → has n (numbers s.pending) ≡ false
  pub unrefused : (n : ℕ) → next ≤ n → has n refusals ≡ false

module _ {J : Type 0} (refusals : List ℕ) (next : ℕ) where
  pub settle-IsTimed :
      (n : ℕ) (r : Reply J) (s : Client J)
      → IsTimed refusals next s
      → IsTimed refusals next (settle n r s)
  settle-IsTimed n r s v = record {
    timed = λ m. ground (arith, has-filter n m s.timers, has-without n m s.pending, v.timed m);
    unissued = λ m above. ground (arith, has-without n m s.pending, v.unissued m above);
    number = v.number;
    unrefused = v.unrefused;
  }

  pub reject_all-IsTimed :
      (e : ClientError J) (s : Client J)
      → IsTimed refusals next s
      → IsTimed refusals next (reject_all e s)
  reject_all-IsTimed e s v = record {
    timed = λ n. refl;
    unissued = λ n above. refl;
    number = v.number;
    unrefused = v.unrefused;
  }

  -- The bytes that wait and what was emitted do not matter.
  pub touched :
      (s : Client J) (buffer : List ℕ) (emitted : List (Emitted J))
      → IsTimed refusals next s
      → IsTimed refusals next (record s { buffer = buffer; emitted = emitted })
  touched s buffer emitted v = record {
    timed = v.timed;
    unissued = v.unissued;
    number = v.number;
    unrefused = v.unrefused;
  }

  handle_message-IsTimed :
      (m : Message J) (s : Client J)
      → IsTimed refusals next s
      → IsTimed refusals next (handle_message m s).0
  unfolding handle_message
  handle_message-IsTimed (response n success text body) s v = go (find_by (has_number n) s.pending)
    where
      go : (o : Option Pending) → IsTimed refusals next (answered o n success text body s)
      go none = touched s _ _ v
      go (some q) = settle-IsTimed n _ s v
  handle_message-IsTimed (event name body) s v = go (name == "error" && not s.heard_errors)
    where
      go :
          (unheard : Bool)
          → IsTimed refusals next (emit_named unheard name body (emit (any_event name body) s)).0
      go true = touched s _ _ v
      go false = touched s _ _ v
  handle_message-IsTimed (other m) s v = touched s _ _ v

  module _ (text : List ℕ → List ℕ) (parse : List ℕ → Result String (Message J)) where
    abbrev KeepsTimed : Round J → Type 0
    KeepsTimed idle = Unit
    KeepsTimed (went t) = IsTimed refusals next t
    KeepsTimed (broke e t) = IsTimed refusals next t

    handled-IsTimed :
        (r : Result String (Message J)) (s : Client J)
        → IsTimed refusals next s
        → KeepsTimed (handled text parse r s)
    handled-IsTimed (throw e) s v = v
    handled-IsTimed (ok m) s v = go (handle_message m s) (handle_message-IsTimed m s v)
      where
        go :
            (x : Client J × Result String (Unit {0}))
            → IsTimed refusals next x.0
            → KeepsTimed (round_after x)
        go (t, throw e) w = w
        go (t, ok u) w = w

    round-IsTimed : (s : Client J) → IsTimed refusals next s → KeepsTimed (round text parse s)
    unfolding round
    round-IsTimed s v = go (frame text s.buffer)
      where
        go : (f : Frame) → KeepsTimed (round_of text parse f s)
        go waiting = tt
        go (bad_header header rest) = touched s _ _ v
        go (payload content rest) =
            handled-IsTimed (parse content) (record s { buffer = rest }) (touched s _ _ v)

    drain-IsTimed :
        (f : ℕ) (s r : Client J)
        → IsTimed refusals next s
        → IsTimed refusals next r
        → IsTimed refusals next (left_by (drain text parse f s) r)
    unfolding drain
    drain-IsTimed zero s r v w = w
    drain-IsTimed (suc f) s r v w =
        subst (λ o. IsTimed refusals next (left_by o r)) (sym (drain-next_round text parse f s))
          (go (λ t k. drain-IsTimed f t r k w) (round text parse s) (round-IsTimed s v))
      where
        go :
            ((t : Client J)
              → IsTimed refusals next t
              → IsTimed refusals next (left_by (drain text parse f t) r))
            → (x : Round J) → KeepsTimed x
            → IsTimed refusals next (left_by (next_round text parse f x s) r)
        go again idle k = v
        go again (went t) k = again t k
        go again (broke e t) k = k

    pub on_data-IsTimed :
        (c : List ℕ) (s : Client J)
        → IsTimed refusals next s
        → IsTimed refusals next (left_by (on_data text parse c s) s)
    unfolding on_data
    on_data-IsTimed c s v =
        drain-IsTimed (suc (length (s.buffer ++ c))) (with_chunk c s) s (touched s _ _ v) v

  pub heard-IsTimed :
      (s t : Client J)
      → IsTimed refusals next s
      → IsTimed refusals next t
      → IsTimed refusals next (if s.listening then t else s)
  heard-IsTimed s t v w = either_way (IsTimed refusals next) s.listening (λ on. w) (λ off. v)

  pub expired-IsTimed :
      (n : ℕ) (o : Option Pending) (s : Client J)
      → IsTimed refusals next s
      → IsTimed refusals next (expired n o s)
  expired-IsTimed n none s v = v
  expired-IsTimed n (some q) s v = settle-IsTimed n _ s v

module _ {J : Type 0} (refusals : List ℕ) where
  pub issued-IsTimed :
      (command : String) (written : List ℕ) (s : Client J)
      → IsTimed refusals s.seq s
      → IsTimed refusals (s.seq + 1) (record s {
        seq = s.seq + 1;
        pending = s.pending ++ record { seq = s.seq; command = command } ∷ [];
        timers = s.timers ++ s.seq ∷ [];
        written = written;
      })
  issued-IsTimed command written s v = record {
    timed = λ n. ground (
      arith,
      ap (has n) (numbers-append s.pending (record { seq = s.seq; command = command } ∷ [])),
      has-append n (numbers s.pending) (s.seq ∷ []),
      has-append n s.timers (s.seq ∷ []),
      v.timed n,
      v.unrefused n,
    );
    number = refl;
    unissued = λ n above. ground (
      arith,
      ap (has n) (numbers-append s.pending (record { seq = s.seq; command = command } ∷ [])),
      has-append n (numbers s.pending) (s.seq ∷ []),
      v.unissued n,
      above,
    );
    unrefused = λ n above. v.unrefused n (omega (arith, above));
  }

  pub refused-IsTimed :
      (command : String) (s : Client J)
      → IsTimed refusals s.seq s
      → IsTimed (refusals ++ s.seq ∷ []) (s.seq + 1) (record s {
        seq = s.seq + 1;
        pending = s.pending ++ record { seq = s.seq; command = command } ∷ [];
      })
  refused-IsTimed command s v = record {
    timed = λ n. ground (
      arith,
      ap (has n) (numbers-append s.pending (record { seq = s.seq; command = command } ∷ [])),
      has-append n (numbers s.pending) (s.seq ∷ []),
      has-append n refusals (s.seq ∷ []),
      v.timed n,
      v.unissued n,
    );
    number = refl;
    unissued = λ n above. ground (
      arith,
      ap (has n) (numbers-append s.pending (record { seq = s.seq; command = command } ∷ [])),
      has-append n (numbers s.pending) (s.seq ∷ []),
      v.unissued n,
      above,
    );
    unrefused = λ n above. ground (arith, has-append n refusals (s.seq ∷ []), v.unrefused n, above);
  }

  pub skipped-IsTimed :
      (written : List ℕ) (s : Client J)
      → IsTimed refusals s.seq s
      → IsTimed refusals (s.seq + 1) (record s { seq = s.seq + 1; written = written })
  skipped-IsTimed written s v = record {
    timed = v.timed;
    number = refl;
    unissued = λ n above. v.unissued n (omega (arith, above));
    unrefused = λ n above. v.unrefused n (omega (arith, above));
  }
