-- ===== src/Dap/Client/Delivery.antt =====
-- src/dap/DapClient.ts: the messages that `#send` writes at one end are handled at the other, once
-- each and in their order, in whatever chunks their bytes arrive.
use break_pilot.Common.{
  ℕ, zero, suc, ◌<◌, String, List, [], ◌∷◌, ◌++◌, ◌≡◌, refl, sym, ap, ◌∙◌, Result, ok, throw,
  length, arith, All,
}
use mathlib.Core.List.{append-nil}
use break_pilot.Dap.Wire.{waiting, payload, frame, framed}
use break_pilot.Dap.Wire.Decimals.{frame-framed}
use break_pilot.Dap.Client.{
  Message, Client, handle_message, Outcome, done, threw, unfinished, handled, round_of, round,
  drain, on_data, feed, and_then, round_after,
}
use break_pilot.Dap.Client.Chunks.{
  followed, on_data-append, on_data-IsDrained, IsDrained, drain-next_round, next_round,
  handle_message-buffer,
}

abbrev pub joined : List (List ℕ) → List ℕ
joined [] = []
joined (c ∷ cs) = c ++ joined cs

abbrev pub outcome_after : {J : Type 0} → Client J × Result String (Unit {0}) → Outcome J
outcome_after (s, throw e) = threw e s
outcome_after (s, ok u) = done s

-- The messages handled in turn, up to one that throws.
abbrev pub handle_all : {J : Type 0} → List (Message J) → Client J → Outcome J
handle_all [] s = done s
handle_all (m ∷ ms) s = and_then (outcome_after (handle_message m s)) (λ t. handle_all ms t)

-- An outcome without the bytes that an error leaves behind.
abbrev pub cleared : {J : Type 0} → Outcome J → Outcome J
cleared (done t) = done t
cleared (threw e t) = threw e (record t { buffer = [] })
cleared unfinished = unfinished

-- The bytes of messages that `#send` writes.
abbrev pub sent : {J : Type 0} → (Message J → List ℕ) → List (Message J) → List ℕ
sent stringify [] = []
sent stringify (m ∷ ms) = framed (stringify m) ++ sent stringify ms

frame_nil : (text : List ℕ → List ℕ) → frame text [] ≡ waiting
unfolding frame
frame_nil text = refl

module _ {J : Type 0} (text : List ℕ → List ℕ) (parse : List ℕ → Result String (Message J)) where
  -- With no whole frame in the buffer the loop is left at once.
  drain_waiting :
      (f : ℕ) (s : Client J) → 0 < f → frame text s.buffer ≡ waiting → drain text parse f s ≡ done s
  unfolding round
  drain_waiting zero s h w = absurd (omega (arith, h))
  drain_waiting (suc f) s h w =
      drain-next_round text parse f s
      ∙ ap (λ r. next_round text parse f (round_of text parse r s) s) w

  -- A client that waits for bytes is not changed by none.
  on_data_nil : (s : Client J) → frame text s.buffer ≡ waiting → on_data text parse [] s ≡ done s
  unfolding on_data
  on_data_nil s w =
      ap (λ b. drain text parse (suc (length b)) (record s { buffer = b })) (append-nil s.buffer)
      ∙ drain_waiting (suc (length s.buffer)) s (omega arith) w

  feed-joined :
      (cs : List (List ℕ)) (s : Client J)
      → frame text s.buffer ≡ waiting
      → cleared (feed text parse cs s) ≡ cleared (on_data text parse (joined cs) s)
  unfolding feed
  feed-joined [] s w = ap cleared (sym (on_data_nil s w))
  feed-joined (c ∷ cs) s w =
      go (on_data text parse c s) (on_data-IsDrained text parse c s) (λ u w. feed-joined cs u w)
      ∙ sym (ap cleared (on_data-append text parse c (joined cs) s))
    where
      go :
          (o : Outcome J)
          → IsDrained text parse o
          → ((u : Client J)
              → frame text u.buffer ≡ waiting
              → cleared (feed text parse cs u) ≡ cleared (on_data text parse (joined cs) u))
          → cleared (and_then o (λ u. feed text parse cs u))
            ≡ cleared (followed text parse (joined cs) o)
      go (done u) w again = again u w
      go (threw x u) w again = refl
      go unfinished w again = absurd w

  -- One message that `#send` wrote.
  on_data-framed :
      (json : List ℕ) (m : Message J) (s : Client J)
      → frame text (framed json) ≡ payload json []
      → s.buffer ≡ []
      → parse json ≡ ok m
      → on_data text parse (framed json) s ≡ outcome_after (handle_message m s)
  unfolding on_data round framed
  on_data-framed json m s whole empty parsed =
      let t : Client J = record s { buffer = framed json } in
      ap
        (λ b.
          drain text parse (suc (length (b ++ framed json)))
            (record s { buffer = b ++ framed json }))
        empty
      ∙ drain-next_round text parse (length (framed json)) t
      ∙ ap (λ r. next_round text parse (length (framed json)) r t)
          (ap (λ f. round_of text parse f t) whole
            ∙ ap (λ r. handled text parse r (record s { buffer = [] })) parsed)
      ∙ left (handle_message m (record s { buffer = [] }))
          (handle_message-buffer m (record s { buffer = [] }))
      ∙ ap (λ b. outcome_after (handle_message m (record s { buffer = b }))) (sym empty)
    where
      framed_long : (json : List ℕ) → 0 < length (framed json)
      framed_long json = omega arith

      left :
          (x : Client J × Result String (Unit {0}))
          → x.0.buffer ≡ []
          → next_round text parse
              (length (framed json))
              (round_after x)
              (record s { buffer = framed json })
            ≡ outcome_after x
      left (u, throw e) none_left = refl
      left (u, ok v) none_left =
          drain_waiting (length (framed json)) u (framed_long json)
            (ap (frame text) none_left ∙ frame_nil text)

-- `JSON.stringify`, and what is known of the decoding of UTF-8.
module _ {J : Type 0} (text : List ℕ → List ℕ) (parse : List ℕ → Result String (Message J))
    (stringify : Message J → List ℕ)
    (ascii : (xs : List ℕ) → All (λ b. b < 128) xs → text xs ≡ xs) where
  on_data-sent :
      (ms : List (Message J)) (s : Client J)
      → s.buffer ≡ []
      → All (λ m. parse (stringify m) ≡ ok m) ms
      → cleared (on_data text parse (sent stringify ms) s) ≡ cleared (handle_all ms s)
  on_data-sent [] s empty read =
      ap cleared (on_data_nil text parse s (ap (frame text) empty ∙ frame_nil text))
  on_data-sent (m ∷ ms) s empty read =
      ap cleared (
        on_data-append text parse (framed (stringify m)) (sent stringify ms) s
        ∙ ap (followed text parse (sent stringify ms)) (
            on_data-framed text parse (stringify m) m s
              (ap (frame text) (sym (append-nil (framed (stringify m))))
                ∙ frame-framed text ascii (stringify m) [])
              empty read.0))
      ∙ go (handle_message m s) (handle_message-buffer m s ∙ empty)
          (λ t none_left. on_data-sent ms t none_left read.1)
    where
      go :
          (x : Client J × Result String (Unit {0}))
          → x.0.buffer ≡ []
          → ((t : Client J)
              → t.buffer ≡ []
              → cleared (on_data text parse (sent stringify ms) t) ≡ cleared (handle_all ms t))
          → cleared (followed text parse (sent stringify ms) (outcome_after x))
            ≡ cleared (and_then (outcome_after x) (λ t. handle_all ms t))
      go (t, throw e) none_left again = refl
      go (t, ok u) none_left again = again t none_left

  -- Messages that a peer sends, one frame each, are handled once each and in their order, in
  -- whatever chunks the bytes of all the frames arrive, by a client whose buffer is empty, until
  -- one of them throws (an event named "error" that nobody listens to does): then the same error
  -- leaves the client as handling them up to there does, but for the bytes that stay in its buffer.
  -- Given that JSON.parse reads what JSON.stringify wrote of these messages and that ASCII bytes
  -- are decoded to themselves.
  pub feed-sent :
      (ms : List (Message J)) (chunks : List (List ℕ)) (s : Client J)
      → s.buffer ≡ []
      → All (λ m. parse (stringify m) ≡ ok m) ms
      → joined chunks ≡ sent stringify ms
      → cleared (feed text parse chunks s) ≡ cleared (handle_all ms s)
  feed-sent ms chunks s empty read whole =
      feed-joined text parse chunks s (ap (frame text) empty ∙ frame_nil text)
      ∙ ap (λ b. cleared (on_data text parse b s)) whole
      ∙ on_data-sent ms s empty read
