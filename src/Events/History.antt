-- ===== src/Events/History.antt =====
-- src/runtime/RuntimeEventBuffer.ts, `append`: what the buffer keeps of everything that was ever
-- appended to it.
use break_pilot.Common.{
  ℕ, ◌+◌, ◌-◌, ◌≤◌, String, Option, none, some, List, [], ◌∷◌, ◌++◌, ok, throw, length, drop, ltb,
  ◌≡◌, refl, ap, ◌∙◌, member, Number, string_eq, inl, inr, length-append, length-drop, drop-drop,
  drop_nil, drop-append, Bool-cases, arith, sym, ℤ,
}
use break_pilot.Events.{
  Event, EventInput, Buffer, create, normalized, append, read, shifted, copy_event, event_kinds,
}

-- The events have the numbers k + 1, k + 2 and so on.
abbrev pub Numbered : ℕ → List Event → Type 0
Numbered k [] = Unit
Numbered k (e ∷ es) = (e.sequence ≡ k + 1) × Numbered (k + 1) es

pub Numbered-append :
    (k : ℕ) (es : List Event) (e : Event)
    → Numbered k es
    → e.sequence ≡ k + length es + 1
    → Numbered k (es ++ e ∷ [])
Numbered-append k [] e h he = (omega (arith, he), tt)
Numbered-append k (x ∷ es) e h he = (h.0, Numbered-append (k + 1) es e h.1 (omega (arith, he)))

-- How many events of a log a buffer has dropped.
abbrev pub gone : Buffer → List Event → ℕ
gone b log = length log - b.capacity

-- The buffer keeps the newest events of the log, and the log is numbered from 1.
pub record Holds (log : List Event) (b : Buffer) : Type 0 where
  pub numbered : Numbered 0 log
  pub newest : b.events ≡ drop (length log - b.capacity) log
  pub next : b.next_sequence ≡ length log + 1
  pub roomy : 1 ≤ b.capacity

empty_Holds : (b : Buffer) → b.events ≡ [] → b.next_sequence ≡ 1 → 1 ≤ b.capacity → Holds [] b
empty_Holds b none_kept first roomy = record {
  numbered = tt;
  newest = none_kept ∙ sym (drop_nil (length {A = Event} [] - b.capacity));
  next = omega (arith, first);
  roomy = roomy;
}

pub create-Holds : (sid : String) (capacity : Option Number) → Holds [] (create sid capacity)
unfolding create
create-Holds sid none = empty_Holds (create sid none) refl refl (omega arith)
create-Holds sid (some (Number.integer (ℤ.pos n))) =
    empty_Holds (create sid (some (Number.integer (ℤ.pos n)))) refl refl (omega arith)
create-Holds sid (some (Number.integer (ℤ.negsuc n))) =
    empty_Holds (create sid (some (Number.integer (ℤ.negsuc n)))) refl refl (omega arith)
create-Holds sid (some (Number.fraction (ℤ.pos t) name)) =
    empty_Holds (create sid (some (Number.fraction (ℤ.pos t) name))) refl refl (omega arith)
create-Holds sid (some (Number.fraction (ℤ.negsuc t) name)) =
    empty_Holds (create sid (some (Number.fraction (ℤ.negsuc t) name))) refl refl (omega arith)
create-Holds sid (some Number.not_finite) =
    empty_Holds (create sid (some Number.not_finite)) refl refl (omega arith)

copy_event-sequence : (e : Event) → (copy_event e).sequence ≡ e.sequence
unfolding copy_event
copy_event-sequence e = refl

shifted-drop :
    (capacity : ℕ) (es : List Event)
    → length es ≤ capacity + 1
    → shifted capacity es ≡ drop (length es - capacity) es
shifted-drop capacity [] h = sym (drop_nil (length {A = Event} [] - capacity))
shifted-drop capacity (e ∷ es) h = elim (Bool-cases (ltb capacity (length (e ∷ es)))) [
  | inl over ↦
      let one : length (e ∷ es) - capacity ≡ 1 = (ground (arith, over, h)) in rw (over, one) refl
  | inr fits ↦
      let none_gone : length (e ∷ es) - capacity ≡ 0 = (ground (arith, fits)) in
      rw (fits, none_gone) refl
]

-- Adding at the end and shifting is what a buffer of the newest events does.
newest-append :
    (capacity : ℕ) (log : List Event) (e : Event)
    → shifted capacity (drop (length log - capacity) log ++ e ∷ [])
      ≡ drop (length (log ++ e ∷ []) - capacity) (log ++ e ∷ [])
newest-append capacity log e =
    let k : ℕ = length log - capacity in
    let kept : drop k log ++ e ∷ [] ≡ drop k (log ++ e ∷ []) =
      sym (drop-append k log (e ∷ []) (omega arith)) in
    let size : length (drop k (log ++ e ∷ [])) ≡ length (log ++ e ∷ []) - k =
      length-drop k (log ++ e ∷ []) in
    let total : length (log ++ e ∷ []) ≡ length log + 1 = length-append log (e ∷ []) in
    ap (shifted capacity) kept
    ∙ shifted-drop capacity (drop k (log ++ e ∷ [])) (omega (arith, size, total))
    ∙ drop-drop (length (drop k (log ++ e ∷ [])) - capacity) k (log ++ e ∷ [])
    ∙ ap (λ n. drop n (log ++ e ∷ []))
        (let goal : k + (length (drop k (log ++ e ∷ [])) - capacity)
              ≡ length (log ++ e ∷ []) - capacity =
            (omega (arith, size, total)) in
          goal)

-- A call of the buffer: an append at a time, or a read.
pub data Call : Type 0 where
  appending : String → EventInput → Call
  reading : Option ℕ → Option Number → Call

-- The buffer after a call, and all events accepted so far; an append that throws changes nothing.
unfoldable pub perform : Buffer → List Event → Call → Buffer × List Event
perform b log (appending now e) = elim (append b now e) [
  | ok (b', copy) ↦ (b', log ++ normalized b now e ∷ [])
  | throw kind ↦ (b, log)
]
perform b log (reading cursor limit) = ((read b cursor limit).0, log)

unfoldable pub perform_all : Buffer → List Event → List Call → Buffer × List Event
unfolding perform
perform_all b log [] = (b, log)
perform_all b log (c ∷ cs) = let next = perform b log c in perform_all next.0 next.1 cs

-- The buffer with an event added and the oldest one shifted out when there are too many.
abbrev pub grown : Buffer → Event → Buffer
grown b stored = record b {
  events = shifted b.capacity (b.events ++ stored ∷ []);
  next_sequence = b.next_sequence + 1;
}

pub grown-Holds :
    (b : Buffer) (log : List Event) (stored : Event)
    → Holds log b
    → stored.sequence ≡ b.next_sequence
    → Holds (log ++ stored ∷ []) (grown b stored)
grown-Holds b log stored h number = record {
  numbered = Numbered-append 0 log stored h.numbered (omega (arith, number, h.next));
  newest =
      ap (λ es. shifted b.capacity (es ++ stored ∷ [])) h.newest
      ∙ newest-append b.capacity log stored;
  next = omega (arith, h.next, length-append log (stored ∷ []));
  roomy = h.roomy;
}

perform-Holds :
    (b : Buffer) (log : List Event) (c : Call)
    → Holds log b
    → Holds (perform b log c).1 (perform b log c).0
unfolding perform read append normalized
perform-Holds b log (appending now e) h = elim (Bool-cases (member e.kind event_kinds)) [
  | inl known ↦ rw (known, append, perform) (grown-Holds b log (normalized b now e) h refl)
  | inr unknown ↦ rw (unknown, append, perform) h
]
perform-Holds b log (reading cursor limit) h = record {
  numbered = h.numbered;
  newest = h.newest;
  next = h.next;
  roomy = h.roomy;
}

pub perform_all-Holds_from :
    (b : Buffer) (log : List Event) (cs : List Call)
    → Holds log b
    → Holds (perform_all b log cs).1 (perform_all b log cs).0
unfolding perform_all
perform_all-Holds_from b log [] h = h
perform_all-Holds_from b log (c ∷ cs) h =
    let next = perform b log c in perform_all-Holds_from next.0 next.1 cs (perform-Holds b log c h)

-- After any calls on a new buffer, it keeps the newest events of all those that were accepted, as
-- many as its capacity, and these are numbered from 1 without a gap.
pub perform_all-Holds :
    (sid : String) (capacity : Option Number) (cs : List Call)
    → let reached = perform_all (create sid capacity) [] cs in Holds reached.1 reached.0
perform_all-Holds sid capacity cs =
    perform_all-Holds_from (create sid capacity) [] cs (create-Holds sid capacity)
