-- ===== src/Dap/Client/Chunks.antt =====
-- src/dap/DapClient.ts: what `#onData` does depends on the bytes alone, not on the chunks in which
-- they come, and it reads what `#send` writes.
use break_pilot.Common.{
  ℕ, zero, suc, ◌+◌, ◌<◌, ◌==◌, ◌&&◌, Bool, true, false, not, string_eq, String, Option, none, some,
  List, ◌++◌, ◌≡◌, ◌≢◌, refl, sym, ap, ◌∙◌, subst, nat_eq, Result, ok, throw, length, length-append,
  arith, inl, inr, ◌⊎◌, find_by,
}
use mathlib.Core.List.{append_assoc}
use break_pilot.Dap.Wire.{Frame, waiting, bad_header, payload, frame}
use break_pilot.Dap.Wire.Growth.{with_more, frame-append, IsShorter, frame-IsShorter}
use break_pilot.Dap.Client.{
  Message, response, event, other, Client, handle_message, Round, idle, went, broke, Outcome, done,
  threw, unfinished, handled, round_of, round, drain, with_chunk, on_data, has_number, Pending,
  answered, any_event, emit, emit_named, round_after,
}

module _ {J : Type 0} where
  abbrev with_more_bytes :
      List ℕ → Client J × Result String (Unit {0}) → Client J × Result String (Unit {0})
  with_more_bytes c (s, r) = (with_chunk c s, r)

  -- A message does not look at the bytes that wait.
  handle_message-with_chunk :
      (m : Message J) (c : List ℕ) (s : Client J)
      → handle_message m (with_chunk c s) ≡ with_more_bytes c (handle_message m s)
  unfolding handle_message
  handle_message-with_chunk (response n success text body) c s =
      ap (λ t. (t, ok tt)) (go (find_by (has_number n) s.pending))
    where
      go :
          (o : Option Pending)
          → answered o n success text body (with_chunk c s)
            ≡ with_chunk c (answered o n success text body s)
      go none = refl
      go (some q) = refl
  handle_message-with_chunk (event name body) c s = go (name == "error" && not s.heard_errors)
    where
      go :
          (unheard : Bool)
          → emit_named unheard name body (emit (any_event name body) (with_chunk c s))
            ≡ with_more_bytes c (emit_named unheard name body (emit (any_event name body) s))
      go true = refl
      go false = refl
  handle_message-with_chunk (other m) c s = refl

  pub handle_message-buffer :
      (m : Message J) (s : Client J) → (handle_message m s).0.buffer ≡ s.buffer
  unfolding handle_message
  handle_message-buffer (response n success text body) s = go (find_by (has_number n) s.pending)
    where
      go : (o : Option Pending) → (answered o n success text body s).buffer ≡ s.buffer
      go none = refl
      go (some q) = refl
  handle_message-buffer (event name body) s = go (name == "error" && not s.heard_errors)
    where
      go :
          (unheard : Bool)
          → (emit_named unheard name body (emit (any_event name body) s)).0.buffer ≡ s.buffer
      go true = refl
      go false = refl
  handle_message-buffer (other m) s = refl

  -- The same round, with more bytes behind what it reads.
  abbrev longer : List ℕ → Round J → Round J
  longer c idle = idle
  longer c (went t) = went (with_chunk c t)
  longer c (broke e t) = broke e (with_chunk c t)

  -- A round leaves fewer bytes.
  abbrev IsLess : Client J → Round J → Type 0
  IsLess s idle = Unit
  IsLess s (went t) = length t.buffer < length s.buffer
  IsLess s (broke e t) = length t.buffer < length s.buffer

module _ {J : Type 0} (text : List ℕ → List ℕ) (parse : List ℕ → Result String (Message J)) where
  handled-longer :
      (r : Result String (Message J)) (c : List ℕ) (s : Client J)
      → handled text parse r (with_chunk c s) ≡ longer c (handled text parse r s)
  handled-longer (throw e) c s = refl
  handled-longer (ok m) c s =
      ap round_after (handle_message-with_chunk m c s) ∙ go (handle_message m s)
    where
      go :
          (x : Client J × Result String (Unit {0}))
          → round_after (with_more_bytes c x) ≡ longer c (round_after x)
      go (t, throw e) = refl
      go (t, ok u) = refl

  round_of-longer :
      (f : Frame) (c : List ℕ) (s : Client J)
      → (round_of text parse f s ≡ idle)
        ⊎ (round_of text parse (with_more c f) (with_chunk c s)
            ≡ longer c (round_of text parse f s))
  round_of-longer waiting c s = inl refl
  round_of-longer (bad_header h r) c s = inr refl
  round_of-longer (payload p r) c s = inr (handled-longer (parse p) c (record s { buffer = r }))

  round-longer :
      (c : List ℕ) (s : Client J)
      → (round text parse s ≡ idle)
        ⊎ (round text parse (with_chunk c s) ≡ longer c (round text parse s))
  unfolding round
  round-longer c s = elim (frame-append text s.buffer c) [
    | inl early ↦ inl (ap (λ f. round_of text parse f s) early)
    | inr grown ↦ elim (round_of-longer (frame text s.buffer) c s) [
      | inl early ↦ inl early
      | inr same ↦ inr (ap (λ f. round_of text parse f (with_chunk c s)) grown ∙ same)
    ]
  ]

  handled-IsLess :
      (r : Result String (Message J)) (s t : Client J)
      → length t.buffer < length s.buffer
      → IsLess s (handled text parse r t)
  handled-IsLess (throw e) s t h = h
  handled-IsLess (ok m) s t h = go (handle_message m t) (handle_message-buffer m t)
    where
      go :
          (x : Client J × Result String (Unit {0}))
          → x.0.buffer ≡ t.buffer
          → IsLess s (round_after x)
      go (u, throw e) same = omega (arith, h, ap length same)
      go (u, ok v) same = omega (arith, h, ap length same)

  round-IsLess : (s : Client J) → IsLess s (round text parse s)
  unfolding round
  round-IsLess s = go (frame text s.buffer) (frame-IsShorter text s.buffer)
    where
      go : (f : Frame) → IsShorter s.buffer f → IsLess s (round_of text parse f s)
      go waiting h = tt
      go (bad_header header rest) h = h
      go (payload p rest) h = handled-IsLess (parse p) s (record s { buffer = rest }) h

  abbrev pub next_round : ℕ → Round J → Client J → Outcome J
  next_round f idle s = done s
  next_round f (went t) s = drain text parse f t
  next_round f (broke e t) s = threw e t

  pub drain-next_round :
      (f : ℕ) (s : Client J) → drain text parse (suc f) s ≡ next_round f (round text parse s) s
  unfolding drain
  drain-next_round f s = go (round text parse s)
    where
      go :
          (r : Round J)
          → (elim r [ idle ↦ done s | went t ↦ drain text parse f t | broke e t ↦ threw e t ])
            ≡ next_round f r s
      go idle = refl
      go (went t) = refl
      go (broke e t) = refl

  -- Fuel above the number of bytes is never used up, and how much it is makes no difference.
  drain_enough :
      (f g : ℕ) (s : Client J)
      → length s.buffer < f
      → length s.buffer < g
      → drain text parse f s ≡ drain text parse g s
  drain_enough zero g s h k = absurd (omega (arith, h))
  drain_enough (suc f) zero s h k = absurd (omega (arith, k))
  drain_enough (suc f) (suc g) s h k =
      drain-next_round f s
      ∙ go (λ t less. drain_enough f g t (omega (arith, less, h)) (omega (arith, less, k)))
          (round text parse s) (round-IsLess s)
      ∙ sym (drain-next_round g s)
    where
      go :
          ((t : Client J)
            → length t.buffer < length s.buffer
            → drain text parse f t ≡ drain text parse g t)
          → (r : Round J) → IsLess s r
          → next_round f r s ≡ next_round g r s
      go again idle less = refl
      go again (went t) less = again t less
      go again (broke e t) less = refl

  -- How the loop goes on when more bytes come.
  abbrev pub followed : List ℕ → Outcome J → Outcome J
  followed c (done t) = on_data text parse c t
  followed c (threw e t) = threw e (with_chunk c t)
  followed c unfinished = unfinished

  -- What `on_data` does is what any fuel above the number of bytes does.
  on_data-drain :
      (g : ℕ) (c : List ℕ) (s : Client J)
      → length s.buffer + length c < g
      → drain text parse g (with_chunk c s) ≡ on_data text parse c s
  unfolding on_data
  on_data-drain g c s k =
      drain_enough g (suc (length (s.buffer ++ c))) (with_chunk c s)
        (omega (arith, k, length-append s.buffer c)) (omega arith)

  drain-with_chunk :
      (f g : ℕ) (c : List ℕ) (s : Client J)
      → length s.buffer < f
      → length s.buffer + length c < g
      → drain text parse g (with_chunk c s) ≡ followed c (drain text parse f s)
  drain-with_chunk zero g c s h k = absurd (omega (arith, h))
  drain-with_chunk (suc f) zero c s h k = absurd (omega (arith, k))
  drain-with_chunk (suc f) (suc g) c s h k =
      go (λ t less. drain-with_chunk f g c t (omega (arith, less, h)) (omega (arith, less, k)))
        (round text parse s) (round-IsLess s) refl
    where
      stay :
          round text parse s ≡ idle
          → drain text parse (suc g) (with_chunk c s) ≡ followed c (drain text parse (suc f) s)
      stay early =
          on_data-drain (suc g) c s (omega (arith, k))
          ∙ sym (ap (followed c) (drain-next_round f s ∙ ap (λ r. next_round f r s) early))

      go :
          ((t : Client J)
            → length t.buffer < length s.buffer
            → drain text parse g (with_chunk c t) ≡ followed c (drain text parse f t))
          → (r : Round J) → IsLess s r
          → round text parse s ≡ r
          → drain text parse (suc g) (with_chunk c s) ≡ followed c (drain text parse (suc f) s)
      go again idle less e = stay e
      go again (went t) less e = elim (round-longer c s) [
        | inl early ↦ absurd (cc (early, e))
        | inr same ↦
            drain-next_round g (with_chunk c s)
            ∙ ap (λ r. next_round g r (with_chunk c s)) (same ∙ ap (longer c) e)
            ∙ again t less
            ∙ sym (ap (followed c) (drain-next_round f s ∙ ap (λ r. next_round f r s) e))
      ]
      go again (broke x t) less e = elim (round-longer c s) [
        | inl early ↦ absurd (cc (early, e))
        | inr same ↦
            drain-next_round g (with_chunk c s)
            ∙ ap (λ r. next_round g r (with_chunk c s)) (same ∙ ap (longer c) e)
            ∙ sym (ap (followed c) (drain-next_round f s ∙ ap (λ r. next_round f r s) e))
      ]

  -- Receiving some bytes and then more does what receiving them at once does; where the loop is
  -- left by an error after the first, it is left by it with them all, and the others stay in the
  -- buffer.
  pub on_data-append :
      (c d : List ℕ) (s : Client J)
      → on_data text parse (c ++ d) s ≡ followed d (on_data text parse c s)
  unfolding on_data
  on_data-append c d s =
      ap (λ b. drain text parse (suc (length b)) (record s { buffer = b }))
        (sym (append_assoc s.buffer c d))
      ∙ drain-with_chunk (suc (length (s.buffer ++ c))) (suc (length (s.buffer ++ c ++ d))) d
          (with_chunk c s) (omega arith) (omega (arith, length-append (s.buffer ++ c) d))

  abbrev pub IsDrained : Outcome J → Type 0
  IsDrained (done t) = frame text t.buffer ≡ waiting
  IsDrained (threw e t) = Unit
  IsDrained unfinished = ⊥

  round_idle : (s : Client J) → round text parse s ≡ idle → frame text s.buffer ≡ waiting
  unfolding round
  round_idle s e = go (frame text s.buffer) e
    where
      go : (f : Frame) → round_of text parse f s ≡ idle → f ≡ waiting
      go waiting e = refl
      go (bad_header header rest) e = absurd (cc e)
      go (payload p rest) e = absurd (never (parse p) e)
        where
          never :
              (r : Result String (Message J))
              → handled text parse r (record s { buffer = rest }) ≢ idle
          never (throw x) e = cc e
          never (ok m) e = neither (handle_message m (record s { buffer = rest })) e
            where
              neither : (x : Client J × Result String (Unit {0})) → round_after x ≢ idle
              neither (t, throw x) e = cc e
              neither (t, ok u) e = cc e

  drain-IsDrained : (f : ℕ) (s : Client J) → length s.buffer < f → IsDrained (drain text parse f s)
  drain-IsDrained zero s h = absurd (omega (arith, h))
  drain-IsDrained (suc f) s h = subst IsDrained (sym (drain-next_round f s)) (
      go (λ t less. drain-IsDrained f t (omega (arith, less, h))) (round text parse s)
        (round-IsLess s) refl)
    where
      go :
          ((t : Client J) → length t.buffer < length s.buffer → IsDrained (drain text parse f t))
          → (r : Round J) → IsLess s r
          → round text parse s ≡ r
          → IsDrained (next_round f r s)
      go again idle less e = round_idle s e
      go again (went t) less e = again t less
      go again (broke x t) less e = tt

  -- The loop of `#onData` ends, with an error or with a buffer in which no whole frame is left,
  -- whatever the bytes are.
  pub on_data-IsDrained : (c : List ℕ) (s : Client J) → IsDrained (on_data text parse c s)
  unfolding on_data
  on_data-IsDrained c s =
      drain-IsDrained (suc (length (s.buffer ++ c))) (with_chunk c s) (omega arith)
