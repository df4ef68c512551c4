-- ===== src/Handles/Pauses.antt =====
-- src/runtime/AgentHandleRegistry.ts: what a handle names, and for how long.
use break_pilot.Common.{
  ℕ, ◌+◌, ◌<◌, Option, none, some, [], ◌∷◌, ◌≡◌, refl, sym, ◌∙◌, ◌==◌, nat_eq, string_eq, option_eq,
  pair_eq, list_eq, ok, throw, arith, Bool-cases, Option-cases, ◌⊎◌, inl, inr, eq_of_beq, subst,
}
use break_pilot.Common.Dict
use break_pilot.Common.Dict.{
  Dict, AllEntries, put-AllEntries, get-AllEntries, get-put, get-put_self,
}
use break_pilot.Handles.{
  Handle, numbered, foreign, handle_eq, reference_eq, Target, TargetKey, target_key, SessionHandles,
  HandleError, stale, new_session, turned, issued, register_in,
}

-- The handle was made from a number before `n`.
abbrev pub Before : ℕ → Handle → Type 0
Before n (numbered k) = k < n
Before n (foreign text) = ⊥

Before-suc : (n : ℕ) (h : Handle) → Before n h → Before (n + 1) h
Before-suc n (numbered k) b = omega (arith, b)
Before-suc n (foreign text) b = b

-- Only made handles are recorded; the live ones were issued for the current pause; and what a
-- target's key leads to is a live handle of a target with that key.
pub record IsValid (s : SessionHandles) : Type 0 where
  pub made : AllEntries (λ h q. Before s.next_id h) s.issued_at
  pub live :
      (h : Handle) (t : Target) → Dict.get h s.active ≡ some t → Dict.get h s.issued_at ≡ s.pause_id
  pub keyed :
      (k : TargetKey) (h : Handle)
      → Dict.get k s.by_target ≡ some h
      → (t : Target) × (Dict.get h s.active ≡ some t) × (target_key t ≡ k)

pub new_session-IsValid : IsValid new_session
unfolding Dict.get
new_session-IsValid = record {
  made = tt;
  live = λ h t e. absurd (ground (arith, e));
  keyed = λ k h e. absurd (ground (arith, e));
}

pub turned-IsValid : (p : Option ℕ) (s : SessionHandles) → IsValid s → IsValid (turned p s)
unfolding Dict.get
turned-IsValid p s v = record {
  made = v.made;
  live = λ h t e. absurd (ground (arith, e));
  keyed = λ k h e. absurd (ground (arith, e));
}

-- A handle that is made anew has not been recorded before.
pub fresh_handle :
    (s : SessionHandles) → IsValid s → Dict.get (numbered s.next_id) s.issued_at ≡ none
fresh_handle s v = elim (Option-cases (Dict.get (numbered s.next_id) s.issued_at)) [
  | inl absent ↦ absent
  | inr (q, there) ↦
      let early : Before s.next_id (numbered s.next_id) =
        get-AllEntries (λ h q. Before s.next_id h) (numbered s.next_id) q s.issued_at v.made
          there in
      absurd (omega (arith, early))
]

All-weaken :
    (n : ℕ) (m : Dict Handle ℕ)
    → AllEntries (λ h q. Before n h) m
    → AllEntries (λ h q. Before (n + 1) h) m
All-weaken n [] a = tt
All-weaken n ((h, q) ∷ m) a = (Before-suc n h a.0, All-weaken n m a.1)

-- What is live stays so when another target gets a handle.
not_fresh :
    (p : ℕ) (t : Target) (s : SessionHandles) (h : Handle) (u : Target)
    → s.pause_id ≡ some p
    → IsValid s
    → Dict.get h s.active ≡ some u
    → Dict.get h (Dict.put (numbered s.next_id) t s.active) ≡ some u
not_fresh p t s h u current v there = elim (Bool-cases (numbered s.next_id == h)) [
  | inl same ↦
      let recorded : Dict.get h s.issued_at ≡ some p = v.live h u there ∙ current in
      let is_new : numbered s.next_id ≡ h = eq_of_beq (numbered s.next_id) h same in
      let absent : Dict.get h s.issued_at ≡ none =
        subst (λ j. Dict.get j s.issued_at ≡ none) is_new (fresh_handle s v) in
      absurd (ground (arith, recorded, absent))
  | inr other ↦ rw (get-put (numbered s.next_id) h t s.active, other) there
]

pub issued-IsValid :
    (p : ℕ) (t : Target) (s : SessionHandles)
    → s.pause_id ≡ some p
    → IsValid s
    → IsValid (issued p t s)
issued-IsValid p t s current v =
    let new : Handle = numbered s.next_id in
    record {
      made =
          put-AllEntries (λ h q. Before (s.next_id + 1) h) new p s.issued_at (omega arith)
            (All-weaken s.next_id s.issued_at v.made);
      live = λ h u e. elim (Bool-cases (new == h)) [
        | inl same ↦ rw (get-put new h p s.issued_at, same) (sym current)
        | inr other ↦
            let old : Dict.get h s.active ≡ some u = rw (get-put new h t s.active, other) at e in
            rw (get-put new h p s.issued_at, other) (v.live h u old)
      ];
      keyed = λ k h e. elim (Bool-cases (target_key t == k)) [
        | inl same ↦
            let is_new : new ≡ h = cc (rw (get-put (target_key t) k new s.by_target, same) at e) in
            (
              t,
              subst (λ j. Dict.get j (Dict.put new t s.active) ≡ some t) is_new
                  (get-put_self new t s.active),
              eq_of_beq (target_key t) k same,
            )
        | inr other ↦
            let old : Dict.get k s.by_target ≡ some h =
              rw (get-put (target_key t) k new s.by_target, other) at e in
            let was = v.keyed k h old in (was.0, not_fresh p t s h was.0 current v was.1, was.2)
      ];
    }

-- Registering throws, finds a handle, or makes one under the current pause.
pub register_in-cases :
    (p : ℕ) (t : Target) (s : SessionHandles)
    → ((e : HandleError) × (register_in p t s ≡ throw e))
      ⊎ (((h : Handle) × (register_in p t s ≡ ok (s, h)))
          ⊎ ((s.pause_id ≡ some p) × (register_in p t s ≡ ok (issued p t s, numbered s.next_id))))
unfolding register_in
register_in-cases p t s = elim (Bool-cases (s.pause_id == some p)) [
  | inl current ↦ elim (Option-cases (Dict.get (target_key t) s.by_target)) [
    | inl new ↦ inr (inr (eq_of_beq s.pause_id (some p) current, rw (current, new) refl))
    | inr (h, known) ↦ inr (inl (h, rw (current, known) refl))
  ]
  | inr other ↦ inl (stale none s.pause_id p, rw other refl)
]
