-- ===== src/Sessions/Locks.antt =====
-- src/sessions/SessionCoordinator.ts: at most one execution of a session at a time.
use break_pilot.Common.{
  String, Option, none, some, List, [], ◌∷◌, ◌≡◌, refl, ap, ◌∙◌, ◌==◌, string_eq, if◌then◌else◌,
  or_else, Result, ok, throw, Bool-cases, Option-cases, inl, inr, subst, eq_of_beq,
}
use break_pilot.Common.Dict
use break_pilot.Common.Dict.{Dict, get-put, get-remove, get-put_self}
use break_pilot.Sessions.{Locks, SessionError, execution_active, begin_execution, end_execution}

-- The events of executions: the start of an operation of a session, and the end of one.
pub data Call : Type 0 where
  beginning : String → String → Call
  ending : String → Call

abbrev settled : Locks → Result SessionError Locks → Locks
settled locks (ok locks') = locks'
settled locks (throw e) = locks

unfoldable pub perform : Locks → Call → Locks
perform locks (beginning sid operation) = settled locks (begin_execution sid operation locks)
perform locks (ending sid) = end_execution sid locks

unfoldable pub perform_all : Locks → List Call → Locks
unfolding perform
perform_all locks [] = locks
perform_all locks (c ∷ cs) = perform_all (perform locks c) cs

-- The operation of a session that runs after an event, from the one that ran before: the first
-- that began since the last end.
abbrev pub running_after : String → Option String → Call → Option String
running_after sid o (beginning sid' operation) =
    if sid' == sid then or_else o (some operation) else o
running_after sid o (ending sid') = if sid' == sid then none else o

abbrev pub running : String → Option String → List Call → Option String
running sid o [] = o
running sid o (c ∷ cs) = running sid (running_after sid o c) cs

begun :
    (sid' sid : String) (locks : Locks) (operation : String)
    → Dict.get sid' locks ≡ none
    → (if sid' == sid then some operation else Dict.get sid locks)
      ≡ (if sid' == sid then or_else (Dict.get sid locks) (some operation) else Dict.get sid locks)
begun sid' sid locks operation idle = elim (Bool-cases (sid' == sid)) [
  | inl same ↦
      let idle' : Dict.get sid locks ≡ none =
        subst (λ k. Dict.get k locks ≡ none) (eq_of_beq sid' sid same) idle in
      rw (same, idle') refl
  | inr other ↦ rw other refl
]

unbegun :
    (sid' sid : String) (locks : Locks) (operation active : String)
    → Dict.get sid' locks ≡ some active
    → Dict.get sid locks
      ≡ (if sid' == sid then or_else (Dict.get sid locks) (some operation) else Dict.get sid locks)
unbegun sid' sid locks operation active busy = elim (Bool-cases (sid' == sid)) [
  | inl same ↦
      let busy' : Dict.get sid locks ≡ some active =
        subst (λ k. Dict.get k locks ≡ some active) (eq_of_beq sid' sid same) busy in
      rw (same, busy') refl
  | inr other ↦ rw other refl
]

perform-get :
    (locks : Locks) (c : Call) (sid : String)
    → Dict.get sid (perform locks c) ≡ running_after sid (Dict.get sid locks) c
unfolding perform begin_execution end_execution Dict.has
perform-get locks (beginning sid' operation) sid = elim (Option-cases (Dict.get sid' locks)) [
  | inl idle ↦
      rw (begin_execution, Dict.has, idle)
        (get-put sid' sid operation locks ∙ begun sid' sid locks operation idle)
  | inr (active, busy) ↦
      rw (begin_execution, Dict.has, busy) (unbegun sid' sid locks operation active busy)
]
perform-get locks (ending sid') sid = get-remove sid' sid locks

perform_all-get :
    (locks : Locks) (cs : List Call) (sid : String)
    → Dict.get sid (perform_all locks cs) ≡ running sid (Dict.get sid locks) cs
unfolding perform_all
perform_all-get locks [] sid = refl
perform_all-get locks (c ∷ cs) sid =
    perform_all-get (perform locks c) cs sid ∙ ap (λ o. running sid o cs) (perform-get locks c sid)

-- What a start of an operation answers, when `o` runs.
abbrev pub answer : String → Option String → Result SessionError Unit
answer operation none = ok tt
answer operation (some active) = throw (execution_active operation (some active))

abbrev pub forget : Result SessionError Locks → Result SessionError Unit
forget (ok locks) = ok tt
forget (throw e) = throw e

begin_answer :
    (locks : Locks) (sid operation : String)
    → forget (begin_execution sid operation locks) ≡ answer operation (Dict.get sid locks)
unfolding begin_execution Dict.has
begin_answer locks sid operation = elim (Option-cases (Dict.get sid locks)) [
  | inl idle ↦ rw idle refl
  | inr (active, busy) ↦ rw busy refl
]

perform_all_new :
    (cs : List Call) (sid : String) → Dict.get sid (perform_all [] cs) ≡ running sid none cs
unfolding Dict.get
perform_all_new cs sid = perform_all-get [] cs sid

-- After any starts and ends of executions on a new coordinator, the start of an operation of a
-- session succeeds exactly when no operation of that session runs, that is none has begun since
-- its last end, and is otherwise thrown back with the operation that runs; the calls about other
-- sessions make no difference.
pub begin_execution-running :
    (cs : List Call) (sid operation : String)
    → forget (begin_execution sid operation (perform_all [] cs))
      ≡ answer operation (running sid none cs)
unfolding begin_execution Dict.has
begin_execution-running cs sid operation =
    begin_answer (perform_all [] cs) sid operation ∙ ap (answer operation) (perform_all_new cs sid)
