-- ===== src/Dap/Client/Calls.antt =====
-- src/dap/DapClient.ts: what holds of a client after any requests, bytes, time-outs and failures of
-- the transport.
use break_pilot.Common.{
  ℕ, zero, suc, ◌+◌, Option, none, some, String, Bool, true, false, List, [], ◌∷◌, ◌++◌, ◌≡◌, refl,
  sym, ap, ◌∙◌, subst, ◌==◌, nat_eq, if◌then◌else◌, Result, ok, throw, arith, find_by, any_of,
  either_way, length,
}
use mathlib.Core.List.{append_assoc, append-nil}
use break_pilot.Dap.Wire.{Frame, waiting, bad_header, payload, frame}
use break_pilot.Dap.Client.{
  Pending, Message, rejected, request_timed_out, adapter_exited, transport_failed, client_closed,
  Client, start, reject_all, last_ten, on_stderr, on_error, on_exit, close, request, send_event,
  has_number, settle, request_times_out, Round, idle, went, broke, Outcome, done, threw, unfinished,
  handled, round_of, round, drain, with_chunk, on_data, round_after, hear_errors, emit, error,
  adapter_error, expired, handle_message,
}
use break_pilot.Dap.Client.Promises.{
  occurs, numbers, IsBalanced, occurs-append, numbers-append, settle-IsBalanced,
  reject_all-IsBalanced, handle_message-IsBalanced, handle_message-seq,
}
use break_pilot.Dap.Client.Chunks.{drain-next_round, next_round}

-- What happens to a client. The transport reaches it while it listens; `refusal` is what the
-- transport throws, if it does not take the bytes.
pub data Call (J : Type 0) : Type 0 where
  requesting : (refusal : Option String) (command : String) → Call J
  sending : (refusal : Option String) (name : String) → Call J
  receiving : (chunk : List ℕ) → Call J
  printing : String → Call J
  failing : String → Call J
  exiting : J → Call J
  timing_out : ℕ → Call J
  hearing_errors : Bool → Call J
  closing : Call J

-- The client that `#onData` leaves behind.
abbrev pub left_by : {J : Type 0} → Outcome J → Client J → Client J
left_by (done t) s = t
left_by (threw e t) s = t
left_by unfinished s = s

-- The numbers of the requests, if the next number is the first argument.
abbrev pub requested : {J : Type 0} → ℕ → List (Call J) → List ℕ
requested n [] = []
requested n (requesting refusal command ∷ cs) = n ∷ requested (n + 1) cs
requested n (sending refusal name ∷ cs) = requested (n + 1) cs
requested n (_ ∷ cs) = requested n cs

module _ {J : Type 0} (text : List ℕ → List ℕ) (parse : List ℕ → Result String (Message J))
    (stringify : ℕ → String → List ℕ) where
  unfoldable pub perform : Client J → Call J → Client J
  perform s (requesting refusal command) = (request stringify refusal command s).0
  perform s (sending refusal name) = (send_event stringify refusal name s).0
  perform s (receiving chunk) = if s.listening then left_by (on_data text parse chunk s) s else s
  perform s (printing t) = if s.listening then on_stderr t s else s
  perform s (failing e) = if s.listening then on_error e s else s
  perform s (exiting info) = if s.listening then on_exit info s else s
  perform s (timing_out n) = request_times_out n s
  perform s (hearing_errors on) = hear_errors on s
  perform s closing = close s

  unfoldable pub perform_all : Client J → List (Call J) → Client J
  unfolding perform
  perform_all s [] = s
  perform_all s (c ∷ cs) = perform_all (perform s c) cs

  -- What one call issues, and the next number after it.
  abbrev issued_by : ℕ → Call J → List ℕ
  issued_by n c = requested n (c ∷ [])

  abbrev next_seq : ℕ → Call J → ℕ
  next_seq n (requesting refusal command) = n + 1
  next_seq n (sending refusal name) = n + 1
  next_seq n c = n

  requested-cons :
      (n : ℕ) (c : Call J) (cs : List (Call J))
      → requested n (c ∷ cs) ≡ issued_by n c ++ requested (next_seq n c) cs
  requested-cons n (requesting refusal command) cs = refl
  requested-cons n (sending refusal name) cs = refl
  requested-cons n (receiving chunk) cs = refl
  requested-cons n (printing t) cs = refl
  requested-cons n (failing e) cs = refl
  requested-cons n (exiting info) cs = refl
  requested-cons n (timing_out m) cs = refl
  requested-cons n (hearing_errors on) cs = refl
  requested-cons n closing cs = refl

  -- A step that issues `new` and goes on with a number.
  record Steps (issued : List ℕ) (seq : ℕ) (t : Client J) : Type 0 where
    balanced : IsBalanced issued t
    number : t.seq ≡ seq

  abbrev IsRight : List ℕ → ℕ → Round J → Type 0
  IsRight issued n idle = Unit
  IsRight issued n (went t) = Steps issued n t
  IsRight issued n (broke e t) = Steps issued n t

  handled-IsRight :
      (issued : List ℕ) (r : Result String (Message J)) (s : Client J)
      → IsBalanced issued s
      → IsRight issued s.seq (handled text parse r s)
  handled-IsRight issued (throw e) s v = record { balanced = v; number = refl }
  handled-IsRight issued (ok m) s v =
      go (handle_message m s) (handle_message-IsBalanced issued m s v) (handle_message-seq m s)
    where
      go :
          (x : Client J × Result String (Unit {0}))
          → IsBalanced issued x.0
          → x.0.seq ≡ s.seq
          → IsRight issued s.seq (round_after x)
      go (t, throw e) w n = record { balanced = w; number = n }
      go (t, ok u) w n = record { balanced = w; number = n }

  round_of-IsRight :
      (issued : List ℕ) (f : Frame) (s : Client J)
      → IsBalanced issued s
      → IsRight issued s.seq (round_of text parse f s)
  round_of-IsRight issued waiting s v = tt
  round_of-IsRight issued (bad_header header rest) s v = record {
    balanced = record { total = v.total; once = v.once; fresh = v.fresh };
    number = refl;
  }
  round_of-IsRight issued (payload content rest) s v =
      handled-IsRight issued (parse content) (record s { buffer = rest })
        (record { total = v.total; once = v.once; fresh = v.fresh })

  drain-Steps :
      (issued : List ℕ) (n f : ℕ) (s r : Client J)
      → Steps issued n s
      → Steps issued n r
      → Steps issued n (left_by (drain text parse f s) r)
  unfolding round drain
  drain-Steps issued n zero s r h k = k
  drain-Steps issued n (suc f) s r h k =
      subst (λ o. Steps issued n (left_by o r)) (sym (drain-next_round text parse f s))
        (go (λ t right. drain-Steps issued n f t r right k)
          (round_of text parse (frame text s.buffer) s)
          (subst (λ m. IsRight issued m (round_of text parse (frame text s.buffer) s)) h.number
            (round_of-IsRight issued (frame text s.buffer) s h.balanced)))
    where
      go :
          ((t : Client J) → Steps issued n t → Steps issued n (left_by (drain text parse f t) r))
          → (x : Round J) → IsRight issued n x
          → Steps issued n (left_by (next_round text parse f x s) r)
      go again idle right = h
      go again (went t) right = again t right
      go again (broke e t) right = right

  on_data-Steps :
      (issued : List ℕ) (c : List ℕ) (s : Client J)
      → IsBalanced issued s
      → Steps issued s.seq (left_by (on_data text parse c s) s)
  unfolding on_data
  on_data-Steps issued c s v =
      drain-Steps issued s.seq (suc (length (s.buffer ++ c))) (with_chunk c s) s
        (record {
          balanced = record { total = v.total; once = v.once; fresh = v.fresh };
          number = refl;
        })
        (record { balanced = v; number = refl })

  -- A new number is issued once.
  issue-Steps :
      (issued : List ℕ) (command : String) (timers written : List ℕ) (s : Client J)
      → IsBalanced issued s
      → Steps (issued ++ s.seq ∷ []) (s.seq + 1) (record s {
        seq = s.seq + 1;
        pending = s.pending ++ record { seq = s.seq; command = command } ∷ [];
        timers = timers;
        written = written;
      })
  issue-Steps issued command timers written s v = record {
    balanced = record {
      total = λ n. omega (
        arith,
        ap (occurs n) (numbers-append s.pending (record { seq = s.seq; command = command } ∷ [])),
        occurs-append n (numbers s.pending) (s.seq ∷ []),
        occurs-append n issued (s.seq ∷ []),
        v.total n,
      );
      once = λ n. ground (arith, occurs-append n issued (s.seq ∷ []), v.once n, v.fresh n);
      fresh = λ n above. ground (arith, occurs-append n issued (s.seq ∷ []), v.fresh n, above);
    };
    number = refl;
  }

  same-Steps :
      (issued : List ℕ) (n : ℕ) (t : Client J)
      → IsBalanced issued t
      → t.seq ≡ n
      → Steps (issued ++ []) n t
  same-Steps issued n t v e =
      subst (λ i. Steps i n t) (sym (append-nil issued)) (record { balanced = v; number = e })

  -- The handlers of the transport, which are attached or not.
  heard :
      (issued : List ℕ) (s t : Client J)
      → IsBalanced issued s
      → IsBalanced issued t
      → t.seq ≡ s.seq
      → Steps (issued ++ []) s.seq (if s.listening then t else s)
  heard issued s t v w e =
      either_way (Steps (issued ++ []) s.seq) s.listening (λ on. same-Steps issued s.seq t w e)
        (λ off. same-Steps issued s.seq s v refl)

  skipped :
      {written : List ℕ} (issued : List ℕ) (s : Client J)
      → IsBalanced issued s
      → IsBalanced issued (record s { seq = s.seq + 1; written = written })
  skipped issued s v = record {
    total = v.total;
    once = v.once;
    fresh = λ n above. v.fresh n (omega (arith, above));
  }

  expired-Steps :
      (issued : List ℕ) (n : ℕ) (o : Option Pending) (s : Client J)
      → find_by (has_number n) s.pending ≡ o
      → IsBalanced issued s
      → Steps (issued ++ []) s.seq (expired n o s)
  expired-Steps issued n none s gone v = same-Steps issued s.seq s v refl
  expired-Steps issued n (some q) s found v =
      same-Steps issued s.seq (settle n (rejected (request_timed_out q.command)) s)
        (settle-IsBalanced issued n (rejected (request_timed_out q.command)) q s found v) refl

  perform-Steps :
      (issued : List ℕ) (s : Client J) (c : Call J)
      → IsBalanced issued s
      → Steps (issued ++ issued_by s.seq c) (next_seq s.seq c) (perform s c)
  unfolding perform request send_event on_stderr on_error on_exit close request_times_out
      hear_errors
  perform-Steps issued s (requesting none command) v = issue-Steps issued command _ _ s v
  perform-Steps issued s (requesting (some e) command) v = issue-Steps issued command _ _ s v
  perform-Steps issued s (sending none name) v =
      same-Steps issued (s.seq + 1) _ (skipped issued s v) refl
  perform-Steps issued s (sending (some e) name) v =
      same-Steps issued (s.seq + 1) _ (skipped issued s v) refl
  perform-Steps issued s (receiving chunk) v =
      heard issued s (left_by (on_data text parse chunk s) s) v
        (on_data-Steps issued chunk s v).balanced (on_data-Steps issued chunk s v).number
  perform-Steps issued s (printing t) v =
      heard issued s (on_stderr t s) v (record { total = v.total; once = v.once; fresh = v.fresh })
        refl
  perform-Steps issued s (failing e) v =
      let t = reject_all (transport_failed e) s in
      let w = reject_all-IsBalanced issued (transport_failed e) s v in
      either_way
        (λ u. Steps (issued ++ []) s.seq (if s.listening then emit (adapter_error e) u else s))
        t.heard_errors
        (λ on.
          heard issued s (emit (adapter_error e) (emit (error e) t)) v
            (record { total = w.total; once = w.once; fresh = w.fresh }) refl)
        (λ off.
          heard issued s (emit (adapter_error e) t) v
            (record { total = w.total; once = w.once; fresh = w.fresh }) refl)
  perform-Steps issued s (exiting info) v =
      let w = reject_all-IsBalanced issued (adapter_exited info (last_ten s.stderr_texts)) s v in
      heard issued s (on_exit info s) v (record { total = w.total; once = w.once; fresh = w.fresh })
        refl
  perform-Steps issued s (timing_out n) v =
      either_way (Steps (issued ++ []) s.seq) (any_of (λ m. m == n) s.timers)
        (λ runs. expired-Steps issued n (find_by (has_number n) s.pending) s refl v)
        (λ over. same-Steps issued s.seq s v refl)
  perform-Steps issued s (hearing_errors on) v =
      same-Steps issued s.seq (hear_errors on s)
        (record { total = v.total; once = v.once; fresh = v.fresh }) refl
  perform-Steps issued s closing v =
      either_way (Steps (issued ++ []) s.seq) s.closed (λ again. same-Steps issued s.seq s v refl)
        (λ first.
          let w = reject_all-IsBalanced issued client_closed s v in
          same-Steps issued s.seq
            (record (reject_all client_closed s) { closed = true; listening = false })
            (record { total = w.total; once = w.once; fresh = w.fresh }) refl)

  perform_all-IsBalanced_from :
      (issued : List ℕ) (s : Client J) (cs : List (Call J))
      → IsBalanced issued s
      → IsBalanced (issued ++ requested s.seq cs) (perform_all s cs)
  unfolding perform_all
  perform_all-IsBalanced_from issued s [] v =
      subst (λ i. IsBalanced i s) (sym (append-nil issued)) v
  perform_all-IsBalanced_from issued s (c ∷ cs) v =
      let step = perform-Steps issued s c v in
      let t : Client J = perform s c in
      subst (λ i. IsBalanced i (perform_all t cs))
        (append_assoc issued (issued_by s.seq c) (requested t.seq cs)
          ∙ ap (λ n. issued ++ (issued_by s.seq c ++ requested n cs)) step.number
          ∙ ap (λ i. issued ++ i) (sym (requested-cons s.seq c cs)))
        (perform_all-IsBalanced_from (issued ++ issued_by s.seq c) t cs step.balanced)

  -- After any requests, events that are sent, chunks, failures of the transport, time-outs and
  -- closings of a client that was started, every request has its own number, and is either pending
  -- or settled once: its number occurs once among both, and no other number does.
  pub perform_all-IsBalanced :
      (cs : List (Call J)) → IsBalanced (requested 1 cs) (perform_all start cs)
  unfolding start
  perform_all-IsBalanced cs =
      perform_all-IsBalanced_from [] start cs
        (record { total = λ n. omega arith; once = λ n. omega arith; fresh = λ n above. refl })
