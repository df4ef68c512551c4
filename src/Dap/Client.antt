-- ===== src/Dap/Client.antt =====
-- src/dap/DapClient.ts: the requests that wait for a response, and the loop over the bytes that
-- have come. JSON values are a type `J`; `parse` is `JSON.parse` of a content with the reading of
-- the fields of a message, which may throw; the listeners of the client return,
-- and an event named "error" that nobody listens to is thrown, as Node.js says of its emitters.
pub mod Chunks
pub mod Promises
pub mod Timers
pub mod Calls
pub mod Delivery
use break_pilot.Common.{
  ℕ, zero, suc, ◌+◌, String, Bool, true, false, not, Option, none, some, List, [], ◌∷◌, ◌++◌, map,
  ◌==◌, nat_eq, if◌then◌else◌, ◌&&◌, Result, ok, throw, filter_by, any_of, find_by, length, drop,
  ◌-◌, string_eq,
}
use break_pilot.Dap.Wire.{Frame, waiting, bad_header, payload, frame, framed}

-- `DapMessage`, told apart as `#handleMessage` does; `none` is an absent field.
pub data Message (J : Type 0) : Type 0 where
  response : (request_seq : ℕ) (success : Bool) (text : Option String) (body : Option J) → Message J
  event : (name : String) (body : Option J) → Message J
  other : J → Message J

pub data ClientError (J : Type 0) : Type 0 where
  transport_failed : String → ClientError J
  adapter_exited : (info : J) (last_stderr : List String) → ClientError J
  client_closed : ClientError J
  request_failed : (command : String) (text : Option String) → ClientError J
  request_timed_out : (command : String) → ClientError J

-- How the promise of a request is settled; the absent body is the empty object.
pub data Reply (J : Type 0) : Type 0 where
  resolved : Option J → Reply J
  rejected : ClientError J → Reply J

pub data Emitted (J : Type 0) : Type 0 where
  stderr : String → Emitted J
  adapter_error : String → Emitted J
  exit : J → Emitted J
  protocol_error : (header : List ℕ) → Emitted J
  orphan_response : (request_seq : ℕ) → Emitted J
  error : String → Emitted J
  any_event : (name : String) (body : Option J) → Emitted J
  named_event : (name : String) (body : Option J) → Emitted J
  message : J → Emitted J

-- `PendingRequest`, under its number.
pub record Pending : Type 0 where
  pub seq : ℕ
  pub command : String

-- `timers` are the requests that `withTimeout` waits for, whose timer is set and not yet cleared;
-- `heard_errors` says whether the client has a listener for "error"; `settled` lists how the
-- promises of the requests ended.
pub record Client (J : Type 0) : Type 0 where
  pub seq : ℕ
  pub pending : List Pending
  pub buffer : List ℕ
  pub stderr_texts : List String
  pub listening : Bool
  pub closed : Bool
  pub heard_errors : Bool
  pub timers : List ℕ
  pub settled : List (ℕ × Reply J)
  pub emitted : List (Emitted J)
  pub written : List ℕ

-- The constructor, and `start` with a transport that starts.
unfoldable pub start : {J : Type 0} → Client J
start = record {
  seq = 1;
  pending = [];
  buffer = [];
  stderr_texts = [];
  listening = true;
  closed = false;
  heard_errors = false;
  timers = [];
  settled = [];
  emitted = [];
  written = [];
}

-- `slice(-10)`
abbrev pub last_ten : List String → List String
last_ten texts = drop (length texts - 10) texts

abbrev pub has_number : ℕ → Pending → Bool
has_number n q = q.seq == n

abbrev pub without : ℕ → List Pending → List Pending
without n ps = filter_by (λ q. not (has_number n q)) ps

-- `response.message || ...`
abbrev pub said : Option String → Option String
said none = none
said (some text) = if text == "" then none else some text

module _ {J : Type 0} where
  abbrev pub rejected_all : ClientError J → List Pending → List (ℕ × Reply J)
  rejected_all e ps = map (λ q. (q.seq, rejected e)) ps

  -- `for (const pending of this.pending.values()) pending.reject(error); this.pending.clear()`; the
  -- waits that end clear their timers.
  abbrev pub reject_all : ClientError J → Client J → Client J
  reject_all e s = record s {
    pending = [];
    timers = [];
    settled = s.settled ++ rejected_all e s.pending;
  }

  abbrev pub emit : Emitted J → Client J → Client J
  emit e s = record s { emitted = s.emitted ++ e ∷ [] }

  -- The handlers of the transport's `stderr`, `error` and `exit`.
  unfoldable pub on_stderr : String → Client J → Client J
  on_stderr text s = emit (stderr text) (record s { stderr_texts = s.stderr_texts ++ text ∷ [] })

  unfoldable pub on_error : String → Client J → Client J
  on_error e s =
      let t = reject_all (transport_failed e) s in
      emit (adapter_error e) (if t.heard_errors then emit (error e) t else t)

  -- A listener for "error" is added or the last one removed.
  unfoldable pub hear_errors : Bool → Client J → Client J
  hear_errors heard s = record s { heard_errors = heard }

  unfoldable pub on_exit : J → Client J → Client J
  on_exit info s = emit (exit info) (reject_all (adapter_exited info (last_ten s.stderr_texts)) s)

  -- `close`
  unfoldable pub close : Client J → Client J
  close s =
      if s.closed
      then s
      else record (reject_all client_closed s) { closed = true; listening = false }

  -- `#send`, with what the transport throws, if it does not take the bytes.
  abbrev pub send : Option String → List ℕ → Client J → Client J × Result String (Unit {0})
  send (some e) json s = (s, throw e)
  send none json s = (record s { written = s.written ++ framed json }, ok tt)

  -- The request is waited for with a timer, unless sending it threw.
  abbrev pub awaited : ℕ → Client J × Result String (Unit {0}) → Client J × Result String (Unit {0})
  awaited n (s, throw e) = (s, throw e)
  awaited n (s, ok u) = (record s { timers = s.timers ++ n ∷ [] }, ok u)

  -- `request` up to its `await`, with what it throws to its caller before that. `stringify` is
  -- `JSON.stringify` of the request with a number and a command.
  unfoldable pub request :
      (ℕ → String → List ℕ)
      → Option String
      → String
      → Client J
      → Client J × Result String (Unit {0})
  unfolding framed
  request stringify refusal command s = awaited s.seq (
      send refusal (stringify s.seq command) (record s {
        seq = s.seq + 1;
        pending = s.pending ++ record { seq = s.seq; command = command } ∷ [];
      }))

  -- `sendEvent`
  unfoldable pub send_event :
      (ℕ → String → List ℕ)
      → Option String
      → String
      → Client J
      → Client J × Result String (Unit {0})
  unfolding framed
  send_event stringify refusal name s =
      send refusal (stringify s.seq name) (record s { seq = s.seq + 1 })

  -- A pending request is settled and deleted; the wait for it ends and clears its timer.
  abbrev pub settle : ℕ → Reply J → Client J → Client J
  settle n r s = record s {
    pending = without n s.pending;
    timers = filter_by (λ m. not (m == n)) s.timers;
    settled = s.settled ++ (n, r) ∷ [];
  }

  abbrev pub expired : ℕ → Option Pending → Client J → Client J
  expired n none s = s
  expired n (some q) s = settle n (rejected (request_timed_out q.command)) s

  -- The timer of a request fires, if it runs.
  unfoldable pub request_times_out : ℕ → Client J → Client J
  request_times_out n s =
      if any_of (λ m. m == n) s.timers then expired n (find_by (has_number n) s.pending) s else s

  abbrev pub reply : Bool → Option String → Option J → String → Reply J
  reply true text body command = resolved body
  reply false text body command = rejected (request_failed command (said text))

  abbrev pub with_chunk : List ℕ → Client J → Client J
  with_chunk chunk s = record s { buffer = s.buffer ++ chunk }

  abbrev pub answered : Option Pending → ℕ → Bool → Option String → Option J → Client J → Client J
  answered none n success text body s = emit (orphan_response n) s
  answered (some q) n success text body s = settle n (reply success text body q.command) s

  -- `this.emit(name, body)`
  abbrev pub emit_named : Bool → String → Option J → Client J → Client J × Result String (Unit {0})
  emit_named true name body s = (s, throw "ERR_UNHANDLED_ERROR")
  emit_named false name body s = (emit (named_event name body) s, ok tt)

  -- `#handleMessage`, with what it throws.
  unfoldable pub handle_message : Message J → Client J → Client J × Result String (Unit {0})
  handle_message (response n success text body) s =
      (answered (find_by (has_number n) s.pending) n success text body s, ok tt)
  handle_message (event name body) s =
      emit_named (name == "error" && not s.heard_errors) name body (emit (any_event name body) s)
  handle_message (other m) s = (emit (message m) s, ok tt)

-- One round of the loop of `#onData`: nothing more to read, a frame that is handled, or an error
-- that leaves the loop.
pub data Round (J : Type 0) : Type 0 where
  idle : Round J
  went : Client J → Round J
  broke : String → Client J → Round J

-- How `#onData` ends. `unfinished` stands for fuel that is used up.
pub data Outcome (J : Type 0) : Type 0 where
  done : Client J → Outcome J
  threw : String → Client J → Outcome J
  unfinished : Outcome J

abbrev pub and_then : {J : Type 0} → Outcome J → (Client J → Outcome J) → Outcome J
and_then (done t) rest = rest t
and_then (threw e t) rest = threw e t
and_then unfinished rest = unfinished

abbrev pub round_after : {J : Type 0} → Client J × Result String (Unit {0}) → Round J
round_after (s, throw e) = broke e s
round_after (s, ok u) = went s

module _ {J : Type 0} (text : List ℕ → List ℕ) (parse : List ℕ → Result String (Message J)) where
  abbrev pub handled : Result String (Message J) → Client J → Round J
  handled (throw e) s = broke e s
  handled (ok m) s = round_after (handle_message m s)

  abbrev pub round_of : Frame → Client J → Round J
  round_of waiting s = idle
  round_of (bad_header header rest) s =
      went (record (emit (protocol_error header) s) { buffer = rest })
  round_of (payload content rest) s = handled (parse content) (record s { buffer = rest })

  unfoldable pub round : Client J → Round J
  unfolding handle_message frame
  round s = round_of (frame text s.buffer) s

  -- The loop of `#onData`.
  unfoldable pub drain : ℕ → Client J → Outcome J
  unfolding round
  drain zero s = unfinished
  drain (suc fuel) s = elim (round s) [
    | idle ↦ done s
    | went t ↦ drain fuel t
    | broke e t ↦ threw e t
  ]

  -- `#onData`
  unfoldable pub on_data : List ℕ → Client J → Outcome J
  unfolding drain
  on_data chunk s = let t = with_chunk chunk s in drain (suc (length t.buffer)) t

  -- The chunks of the transport, one after the other, until one throws.
  unfoldable pub feed : List (List ℕ) → Client J → Outcome J
  unfolding on_data
  feed [] s = done s
  feed (chunk ∷ chunks) s = and_then (on_data chunk s) (λ t. feed chunks t)
