-- ===== src/Events/Paging.antt =====
-- src/runtime/RuntimeEventBuffer.ts, `read`: the page in terms of all events ever appended.
use break_pilot.Common.{
  ℕ, zero, suc, ◌+◌, ◌-◌, ◌≤◌, true, Option, none, some, List, [], ◌∷◌, ◌++◌, map, if◌then◌else◌,
  length, take, drop, ltb, ◌≡◌, refl, sym, ap, ◌∙◌, Number, max, any_of, filter_by, length-drop,
  length-map, map-append, take-take-drop, drop-drop, drop_nil, Bool-cases, arith, subst, ◌⊎◌, inl,
  inr, ◌otherwise◌, string_eq,
}
use break_pilot.Events.{
  Event, Buffer, read, copy_event, after, first_sequence, last_sequence, normalize_limit,
}
use break_pilot.Events.History.{Numbered, Holds, gone}

filter_after :
    (c k : ℕ) (es : List Event) → Numbered k es → filter_by (after c) es ≡ drop (c - k) es
filter_after c k [] h = sym (drop_nil (c - k))
filter_after c k (e ∷ es) h =
    let ih : filter_by (after c) es ≡ drop (c - (k + 1)) es = filter_after c (k + 1) es h.1 in
    elim (Bool-cases (ltb c e.sequence)) [
      | inl newer ↦
          let none_gone : c - k ≡ 0 = (ground (arith, newer, h.0)) in
          let none_later : c - (k + 1) ≡ 0 = (ground (arith, newer, h.0)) in
          rw (newer, ih, none_gone, none_later) refl
      | inr older ↦
          let one_more : c - k ≡ suc (c - (k + 1)) = (ground (arith, older, h.0)) in
          rw (older, ih, one_more) refl
    ]

any_after :
    (c k : ℕ) (es : List Event)
    → Numbered k es
    → k ≤ c
    → any_of (after c) es ≡ ltb c (k + length es)
any_after c k [] h below = ground (arith, below)
any_after c k (e ∷ es) h below = elim (Bool-cases (ltb c e.sequence)) [
  | inl newer ↦
      let also : ltb c (k + suc (length es)) ≡ true = (ground (arith, newer, h.0)) in
      rw (newer, also) refl
  | inr older ↦
      let ih : any_of (after c) es ≡ ltb c (k + 1 + length es) =
        any_after c (k + 1) es h.1 (ground (arith, older, h.0)) in
      let shift : k + 1 + length es ≡ k + suc (length es) = (omega arith) in
      rw (older, ih, shift) refl
]

Numbered-drop : (j k : ℕ) (es : List Event) → Numbered k es → Numbered (k + j) (drop j es)
Numbered-drop zero k es h = subst (λ n. Numbered n es) (let e : k ≡ k + 0 = (omega arith) in e) h
Numbered-drop (suc j) k [] h = tt
Numbered-drop (suc j) k (e ∷ es) h =
    subst (λ n. Numbered n (drop j es)) (let e : k + 1 + j ≡ k + suc j = (omega arith) in e)
      (Numbered-drop j (k + 1) es h.1)

Kept-cases : (es : List Event) → (es ≡ []) ⊎ ((e : Event) × (rest : List Event) × (es ≡ e ∷ rest))
Kept-cases [] = inl refl
Kept-cases (e ∷ es) = inr (e, es, refl)

Numbered-take : (n k : ℕ) (es : List Event) → Numbered k es → Numbered k (take n es)
Numbered-take zero k es h = tt
Numbered-take (suc n) k [] h = tt
Numbered-take (suc n) k (e ∷ es) h = (h.0, Numbered-take n (k + 1) es h.1)

last_some :
    (k : ℕ) (e : Event) (es : List Event)
    → Numbered k (e ∷ es)
    → last_sequence (map copy_event (e ∷ es)) ≡ some (k + length (e ∷ es))
unfolding copy_event
last_some k e [] h = ap some (let goal : e.sequence ≡ k + 1 = h.0 in goal)
last_some k e (f ∷ es) h =
    last_some (k + 1) f es h.1
    ∙ ap some
        (let shift : k + 1 + suc (length es) ≡ k + suc (suc (length es)) = (omega arith) in shift)

last_of :
    (k : ℕ) (es : List Event)
    → Numbered k es
    → last_sequence (map copy_event es) otherwise k ≡ k + length es
last_of k [] h = omega arith
last_of k (e ∷ es) h = ap (λ o. o otherwise k) (last_some k e es h)

Numbered-from : (n : ℕ) (log : List Event) → Numbered 0 log → Numbered n (drop n log)
Numbered-from n log h =
    subst (λ k. Numbered k (drop n log)) (let e : 0 + n ≡ n = (omega arith) in e)
      (Numbered-drop n 0 log h)

kept-Numbered : (log : List Event) (b : Buffer) → Holds log b → Numbered (gone b log) b.events
kept-Numbered log b h =
    subst (Numbered (gone b log)) (sym h.newest) (Numbered-from (gone b log) log h.numbered)

-- The oldest cursor, minus one, is the number of events that are gone.
oldest_lem :
    (log : List Event) (b : Buffer)
    → Holds log b
    → (first_sequence b.events otherwise b.next_sequence) - 1 ≡ gone b log
oldest_lem log b h = elim (Kept-cases b.events) [
  | inl nothing ↦
      let size : length b.events ≡ length log - gone b log =
        ap length h.newest ∙ length-drop (gone b log) log in
      let zero_size : length b.events ≡ 0 = ap length nothing in
      rw nothing (
        let goal : b.next_sequence - 1 ≡ gone b log =
          (omega (arith, size, zero_size, h.next, h.roomy)) in
        goal)
  | inr (e, es, some_kept) ↦
      let numbered : Numbered (gone b log) (e ∷ es) =
        subst (Numbered (gone b log)) some_kept (kept-Numbered log b h) in
      rw some_kept (let goal : e.sequence - 1 ≡ gone b log = (omega (arith, numbered.0)) in goal)
]

abbrev oldest : Buffer → ℕ
oldest b = first_sequence b.events otherwise b.next_sequence

-- The number of the event before the first one that a read returns, as the code computes it and
-- in terms of the log.
abbrev start : Buffer → Option ℕ → ℕ
start b cursor =
    let requested = cursor otherwise b.default_cursor in
    if ltb requested (oldest b - 1) then oldest b - 1 else requested

abbrev pub from : Buffer → Option ℕ → List Event → ℕ
from b cursor log = max (cursor otherwise b.default_cursor) (gone b log)

start_lem :
    (log : List Event) (b : Buffer) (cursor : Option ℕ)
    → Holds log b
    → start b cursor ≡ from b cursor log
start_lem log b cursor h = ground (arith, oldest_lem log b h)

-- The part of the log that a read returns.
abbrev pub part : Buffer → Option ℕ → Option Number → List Event → List Event
part b cursor limit log = take (normalize_limit limit) (drop (from b cursor log) log)

items_lem :
    (log : List Event) (b : Buffer) (cursor : Option ℕ) (limit : Option Number)
    → Holds log b
    → (read b cursor limit).1.items ≡ map copy_event (part b cursor limit log)
unfolding read
items_lem log b cursor limit h =
    let f : ℕ = from b cursor log in
    let kept : filter_by (after f) b.events ≡ drop f log =
      filter_after f (gone b log) b.events (kept-Numbered log b h)
      ∙ ap (drop (f - gone b log)) h.newest
      ∙ drop-drop (f - gone b log) (gone b log) log
      ∙ ap (λ n. drop n log) (let e : gone b log + (f - gone b log) ≡ f = (omega arith) in e) in
    ap (λ c. map copy_event (take (normalize_limit limit) (filter_by (after c) b.events)))
      (start_lem log b cursor h)
    ∙ ap (λ es. map copy_event (take (normalize_limit limit) es)) kept

next_lem :
    (log : List Event) (b : Buffer) (cursor : Option ℕ) (limit : Option Number)
    → Holds log b
    → (read b cursor limit).1.next_cursor ≡ from b cursor log + length (part b cursor limit log)
unfolding read
next_lem log b cursor limit h =
    ap (λ es. last_sequence es otherwise start b cursor) (items_lem log b cursor limit h)
    ∙ ap (λ c. last_sequence (map copy_event (part b cursor limit log)) otherwise c)
        (start_lem log b cursor h)
    ∙ last_of (from b cursor log) (part b cursor limit log) (
        Numbered-take (normalize_limit limit) (from b cursor log) (drop (from b cursor log) log)
          (Numbered-from (from b cursor log) log h.numbered))

more_lem :
    (log : List Event) (b : Buffer) (cursor : Option ℕ) (limit : Option Number)
    → Holds log b
    → (read b cursor limit).1.has_more ≡ ltb (read b cursor limit).1.next_cursor (length log)
unfolding read
more_lem log b cursor limit h =
    let c : ℕ = (read b cursor limit).1.next_cursor in
    let size : length b.events ≡ length log - gone b log =
      ap length h.newest ∙ length-drop (gone b log) log in
    any_after c (gone b log) b.events (kept-Numbered log b h)
      (omega (arith, next_lem log b cursor limit h))
    ∙ (ground (arith, size, next_lem log b cursor limit h))

-- For a buffer that keeps the newest events of a log, a read without or with a cursor returns
-- copies of the events of the log that come after the cursor and are not gone, the first
-- `normalize_limit limit` of them; the next cursor is the number of the last event before the
-- rest; it reports more exactly when the log goes on behind that cursor, reports the events
-- that were gone before the cursor reached them by their number, and keeps the buffer's events.
pub read-page :
    (log : List Event) (b : Buffer) (cursor : Option ℕ) (limit : Option Number)
    → Holds log b
    → let page = (read b cursor limit).1 in
      (page.items ≡ map copy_event (part b cursor limit log))
      × (page.next_cursor ≡ from b cursor log + length page.items)
      × (page.has_more ≡ ltb page.next_cursor (length log))
      × (page.dropped_count ≡ gone b log - (cursor otherwise b.default_cursor))
      × (page.overflowed ≡ ltb 0 page.dropped_count)
      × Holds log (read b cursor limit).0
unfolding read
read-page log b cursor limit h =
    let items = items_lem log b cursor limit h in
    (
      items,
      next_lem log b cursor limit h
          ∙ ap (λ n. from b cursor log + n)
              (sym (ap length items ∙ length-map copy_event (part b cursor limit log))),
      more_lem log b cursor limit h,
      (omega (arith, oldest_lem log b h)),
      (ground (arith, oldest_lem log b h)),
      record { numbered = h.numbered; newest = h.newest; next = h.next; roomy = h.roomy },
    )

-- Two reads in a row without a cursor, on a buffer that keeps the newest events of a log, return
-- together what one read of both sizes would: the second goes on where the first one ended, with
-- no event left out or returned twice.
pub read-read :
    (log : List Event) (b : Buffer) (l₁ l₂ : Option Number)
    → Holds log b
    → let first = read b none l₁ in
      let second = read first.0 none l₂ in
      first.1.items ++ second.1.items
      ≡ map copy_event (take (normalize_limit l₁ + normalize_limit l₂) (drop (from b none log) log))
unfolding read
read-read log b l₁ l₂ h =
    let f : ℕ = from b none log in
    let rest : List Event = drop f log in
    let part₁ : List Event = part b none l₁ log in
    let b₁ : Buffer = (read b none l₁).0 in
    let n₂ : ℕ = normalize_limit l₂ in
    let h₁ : Holds log b₁ = (read-page log b none l₁ h).5 in
    let goes_on : from b₁ none log ≡ f + length part₁ = (omega (arith, next_lem log b none l₁ h)) in
    let second : (read b₁ none l₂).1.items ≡ map copy_event (take n₂ (drop (length part₁) rest)) =
      items_lem log b₁ none l₂ h₁
      ∙ ap (λ es. map copy_event (take n₂ es))
          (ap (λ n. drop n log) goes_on ∙ sym (drop-drop (length part₁) f log)) in
    ap (λ es. es ++ (read b₁ none l₂).1.items) (items_lem log b none l₁ h)
    ∙ ap (λ es. map copy_event part₁ ++ es) second
    ∙ sym (map-append copy_event part₁ (take n₂ (drop (length part₁) rest)))
    ∙ ap (map copy_event) (take-take-drop (normalize_limit l₁) n₂ rest)
