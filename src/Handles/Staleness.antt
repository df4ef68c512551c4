-- ===== src/Handles/Staleness.antt =====
-- src/runtime/AgentHandleRegistry.ts: a handle from an earlier pause is never taken for a new one.
use break_pilot.Common.{
  ℕ, String, false, Option, none, some, List, [], ◌∷◌, ◌≡◌, refl, ◌==◌, nat_eq, string_eq,
  option_eq, pair_eq, list_eq, throw, arith, Bool-cases, Option-cases, inl, inr, eq_of_beq, subst,
}
use break_pilot.Common.Dict
use break_pilot.Common.Dict.{
  Dict, AllEntries, put-AllEntries, get-AllEntries, get-put, get-put_self,
}
use break_pilot.Handles.{
  Handle, numbered, handle_eq, reference_eq, Target, SessionHandles, Registry, stale, state_of,
  turned, begin_pause, invalidate, issued, register, resolve_in, resolve,
}
use break_pilot.Handles.Pauses.{
  IsValid, new_session-IsValid, turned-IsValid, fresh_handle, register_in-cases, issued-IsValid,
}

-- The calls that change the registry, but for the one that forgets a session as a whole.
pub data Call : Type 0 where
  beginning : String → ℕ → Call
  invalidating : String → Call
  registering : String → ℕ → Target → Call

unfoldable pub perform : Registry → Call → Registry
perform r (beginning sid p) = begin_pause sid p r
perform r (invalidating sid) = invalidate sid r
perform r (registering sid p t) = (register sid p t r).0

unfoldable pub perform_all : Registry → List Call → Registry
unfolding perform
perform_all r [] = r
perform_all r (c ∷ cs) = perform_all (perform r c) cs

-- The pause that a handle of a session was issued for.
unfoldable pub issue : String → Handle → Registry → Option ℕ
issue sid h r = elim (Dict.get sid r) [ none ↦ none | some s ↦ Dict.get h s.issued_at ]

abbrev pub AllValid : Registry → Type 0
AllValid r = AllEntries (λ sid s. IsValid s) r

state_of-IsValid : (sid : String) (r : Registry) → AllValid r → IsValid (state_of sid r)
state_of-IsValid sid r v = elim (Option-cases (Dict.get sid r)) [
  | inl new ↦ rw new new_session-IsValid
  | inr (s, there) ↦ rw there (get-AllEntries (λ sid s. IsValid s) sid s r v there)
]

-- Every handle recorded in one state is recorded in the other, for the same pause.
abbrev Keeps : SessionHandles → SessionHandles → Type 0
Keeps s s' =
    (h : Handle) (q : ℕ) → Dict.get h s.issued_at ≡ some q → Dict.get h s'.issued_at ≡ some q

issue-put :
    (sid sid' : String) (h : Handle) (q : ℕ) (r : Registry) (s' : SessionHandles)
    → Keeps (state_of sid' r) s'
    → issue sid h r ≡ some q
    → issue sid h (Dict.put sid' s' r) ≡ some q
unfolding issue
issue-put sid sid' h q r s' keeps was = elim (Bool-cases (sid' == sid)) [
  | inl same ↦
      let e : sid' ≡ sid = eq_of_beq sid' sid same in
      elim (Option-cases (Dict.get sid r)) [
        | inl new ↦
            let fails : none ≡ some q = rw (issue, new) at was in absurd (ground (arith, fails))
        | inr (s, there) ↦
            let at_s : Dict.get h s.issued_at ≡ some q = rw (issue, there) at was in
            let there' : state_of sid' r ≡ s = rw (e, there) refl in
            rw (issue, get-put sid' sid s' r, same) (keeps h q (rw there' at_s))
      ]
  | inr other ↦ rw (issue, get-put sid' sid s' r, other) was
]

issued-Keeps : (p : ℕ) (t : Target) (s : SessionHandles) → IsValid s → Keeps s (issued p t s)
issued-Keeps p t s v h q there = elim (Bool-cases (numbered s.next_id == h)) [
  | inl same ↦
      let is_new : numbered s.next_id ≡ h = eq_of_beq (numbered s.next_id) h same in
      let absent : Dict.get h s.issued_at ≡ none =
        subst (λ j. Dict.get j s.issued_at ≡ none) is_new (fresh_handle s v) in
      absurd (ground (arith, there, absent))
  | inr other ↦ rw (get-put (numbered s.next_id) h p s.issued_at, other) there
]

perform-issue :
    (r : Registry) (c : Call) (sid : String) (h : Handle) (q : ℕ)
    → AllValid r
    → issue sid h r ≡ some q
    → issue sid h (perform r c) ≡ some q
unfolding perform begin_pause invalidate register
perform-issue r (beginning sid' p) sid h q v was =
    elim (Bool-cases ((state_of sid' r).pause_id == some p)) [
      | inl same ↦
          rw (perform, begin_pause, same)
            (issue-put sid sid' h q r (state_of sid' r) (λ j i e. e) was)
      | inr other ↦
          rw (perform, begin_pause, other)
            (issue-put sid sid' h q r (turned (some p) (state_of sid' r)) (λ j i e. e) was)
    ]
perform-issue r (invalidating sid') sid h q v was = elim (Option-cases (Dict.get sid' r)) [
  | inl new ↦ rw (perform, invalidate, new) was
  | inr (s, there) ↦
      rw (perform, invalidate, there)
        (issue-put sid sid' h q r (turned none s) (rw there (λ j i e. e)) was)
]
perform-issue r (registering sid' p t) sid h q v was =
    let s : SessionHandles = state_of sid' r in
    elim (register_in-cases p t s) [
      | inl (e, fails) ↦ rw (perform, register, fails) (issue-put sid sid' h q r s (λ j i e. e) was)
      | inr (inl (h₀, known)) ↦
          rw (perform, register, known) (issue-put sid sid' h q r s (λ j i e. e) was)
      | inr (inr (current, made)) ↦
          rw (perform, register, made)
            (issue-put sid sid' h q r (issued p t s)
              (issued-Keeps p t s (state_of-IsValid sid' r v)) was)
    ]

put-AllValid :
    (sid : String) (s : SessionHandles) (r : Registry)
    → IsValid s
    → AllValid r
    → AllValid (Dict.put sid s r)
put-AllValid sid s r good v = put-AllEntries (λ sid s. IsValid s) sid s r good v

perform-AllValid : (r : Registry) (c : Call) → AllValid r → AllValid (perform r c)
unfolding perform begin_pause invalidate register
perform-AllValid r (beginning sid p) v =
    let s : SessionHandles = state_of sid r in
    let good : IsValid s = state_of-IsValid sid r v in
    elim (Bool-cases (s.pause_id == some p)) [
      | inl same ↦ rw (perform, begin_pause, same) (put-AllValid sid s r good v)
      | inr other ↦
          rw (perform, begin_pause, other)
            (put-AllValid sid (turned (some p) s) r (turned-IsValid (some p) s good) v)
    ]
perform-AllValid r (invalidating sid) v = elim (Option-cases (Dict.get sid r)) [
  | inl new ↦ rw (perform, invalidate, new) v
  | inr (s, there) ↦
      rw (perform, invalidate, there)
        (put-AllValid sid (turned none s) r
          (turned-IsValid none s (get-AllEntries (λ sid s. IsValid s) sid s r v there)) v)
]
perform-AllValid r (registering sid p t) v =
    let s : SessionHandles = state_of sid r in
    let good : IsValid s = state_of-IsValid sid r v in
    elim (register_in-cases p t s) [
      | inl (e, fails) ↦ rw (perform, register, fails) (put-AllValid sid s r good v)
      | inr (inl (h₀, known)) ↦ rw (perform, register, known) (put-AllValid sid s r good v)
      | inr (inr (current, made)) ↦
          rw (perform, register, made)
            (put-AllValid sid (issued p t s) r (issued-IsValid p t s current good) v)
    ]

perform_all-issue :
    (r : Registry) (cs : List Call) (sid : String) (h : Handle) (q : ℕ)
    → AllValid r
    → issue sid h r ≡ some q
    → issue sid h (perform_all r cs) ≡ some q
unfolding perform_all
perform_all-issue r [] sid h q v was = was
perform_all-issue r (c ∷ cs) sid h q v was =
    perform_all-issue (perform r c) cs sid h q (perform-AllValid r c v)
      (perform-issue r c sid h q v was)

resolve-stale :
    (r : Registry) (sid : String) (h : Handle) (p q : ℕ)
    → issue sid h r ≡ some q
    → (q == p) ≡ false
    → resolve sid p h r ≡ throw (stale (some h) (some q) p)
unfolding resolve resolve_in issue
resolve-stale r sid h p q was apart = elim (Option-cases (Dict.get sid r)) [
  | inl new ↦ let fails : none ≡ some q = rw (issue, new) at was in absurd (ground (arith, fails))
  | inr (s, there) ↦
      let at_s : Dict.get h s.issued_at ≡ some q = rw (issue, there) at was in
      rw (resolve, there) (rw (resolve_in, at_s, apart) refl)
]

perform_all-AllValid : (r : Registry) (cs : List Call) → AllValid r → AllValid (perform_all r cs)
unfolding perform_all
perform_all-AllValid r [] v = v
perform_all-AllValid r (c ∷ cs) v = perform_all-AllValid (perform r c) cs (perform-AllValid r c v)

-- After any calls on a new registry that begin pauses, invalidate sessions and register targets,
-- a handle that is recorded as issued for one pause of a session is reported as stale under every
-- other pause, and this stays so after any further such calls, of whatever session: no later
-- pause gives the same handle to another target.
pub resolve-perform_all :
    (before later : List Call) (sid : String) (h : Handle) (p q : ℕ)
    → issue sid h (perform_all [] before) ≡ some q
    → (q == p) ≡ false
    → resolve sid p h (perform_all (perform_all [] before) later)
      ≡ throw (stale (some h) (some q) p)
resolve-perform_all before later sid h p q was apart =
    let r : Registry = perform_all [] before in
    resolve-stale (perform_all r later) sid h p q
      (perform_all-issue r later sid h q (perform_all-AllValid [] before tt) was) apart
