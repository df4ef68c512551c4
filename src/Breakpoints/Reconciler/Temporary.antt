-- ===== src/Breakpoints/Reconciler/Temporary.antt =====
-- src/sessions/BreakpointReconciler.ts: one action under a temporary breakpoint, which is removed
-- afterwards.
pub mod Cleanup
use break_pilot.Common.{
  String, Bool, true, false, Option, none, some, List, [], ◌∷◌, ◌++◌, Result, ok, throw,
  ◌otherwise◌, ℤ,
}
use break_pilot.Breakpoints.{Breakpoint, Nullable}
use break_pilot.Breakpoints.Manager
use break_pilot.Breakpoints.Manager.{
  Manager, Replacement, ReplaceError, list_for_source, replace_sources,
}
use break_pilot.Breakpoints.Evidence.{Thrown, uncoded, Reply, safe_cause_code}
use break_pilot.Breakpoints.Reconciler.{World, ids_of, send, sort_keys}

-- `TemporaryBreakpointRequest`
pub record Request : Type 0 where
  pub file_path : String
  pub line : ℤ
  pub column : Option ℤ

pub data TemporaryFailure : Type 0 where
  unsupported : TemporaryFailure
  refused primary : Thrown → TemporaryFailure
  not_installed : (affected_ids : List String) (cause_code : String) → TemporaryFailure
  cleanup_failed : (breakpoint_id : String) (affected_ids : List String) → TemporaryFailure
  not_kept : ReplaceError → TemporaryFailure
  without_evidence : TemporaryFailure

-- How far the `try` came: the records that the adapter acknowledged, the breakpoint that was
-- committed, and what the action returned.
pub record Attempt (T : Type 0) : Type 0 where
  pub applied : Option (List Breakpoint)
  pub committed : Option Breakpoint
  pub result : Result Thrown T

-- `TemporaryBreakpointTransaction`
pub record Transaction (T : Type 0) : Type 0 where
  pub result : T
  pub temporary_breakpoint : Breakpoint

-- `#newTemporaryBreakpoint`
abbrev pub new_temporary_breakpoint : String → String → Request → String → String → Breakpoint
new_temporary_breakpoint sid file request id now = record {
  id = id;
  session_id = sid;
  file = file;
  line = request.line;
  column = request.column;
  condition = Nullable.undefined;
  hit_condition = Nullable.undefined;
  log_message = Nullable.undefined;
  enabled = true;
  temporary = true;
  suspend_policy = none;
  is_log_message = none;
  is_log_stack = none;
  owner = "agent";
  verified = false;
  adapter_breakpoint_id = none;
  ide_breakpoint_id = none;
  message = none;
  created_at = now;
}

abbrev pub only : String → List Breakpoint → List Replacement
only file records = record { file_path = file; records = records } ∷ []

abbrev pub with_manager : {P : Type 0} → World P → Manager → World P
with_manager w m = record { provider = w.provider; manager = m }

-- What is thrown or returned once the original list is restored.
abbrev pub conclude :
    {T : Type 0} → List String → Attempt T → Result TemporaryFailure (Transaction T)
conclude affected a = elim a.result [
  | throw e ↦ elim a.committed [
    | some b ↦ throw (primary e)
    | none ↦ throw (not_installed affected (safe_cause_code e))
  ]
  | ok t ↦ elim a.committed [
    | some b ↦ ok (record { result = t; temporary_breakpoint = b })
    | none ↦ throw without_evidence
  ]
]

module _ {P T B : Type 0} (resolve : String → String) (boundary : P → B)
    (callback : World P → Breakpoint → B → World P × Result Thrown T) where
  abbrev pub run_callback : World P → List Breakpoint → Option Breakpoint → World P × Attempt T
  run_callback w records none =
      (w, record { applied = some records; committed = none; result = throw uncoded })
  run_callback w records (some b) =
      let (w', r) = callback w b (boundary w.provider) in
      (w', record { applied = some records; committed = some b; result = r })

  abbrev pub installed :
      World P
      → String
      → String
      → List Breakpoint
      → Result ReplaceError Manager
      → World P × Attempt T
  installed w sid id records (throw e) =
      (w, record { applied = some records; committed = none; result = throw uncoded })
  installed w sid id records (ok m) = run_callback (with_manager w m) records (Manager.get m sid id)

  abbrev pub acknowledged :
      World P → String → String → String → Result Thrown (List Breakpoint) → World P × Attempt T
  acknowledged w sid id file (throw e) =
      (w, record { applied = none; committed = none; result = throw e })
  acknowledged w sid id file (ok records) =
      installed w sid id records (replace_sources resolve sid (only file records) w.manager)

-- The `catch` of the second `try`: the local list keeps what may be left at the debugger.
abbrev pub kept_residue :
    {P T : Type 0}
    → World P
    → String
    → List String
    → Result ReplaceError Manager
    → World P × Result TemporaryFailure (Transaction T)
kept_residue w id affected (throw e) = (w, throw (not_kept e))
kept_residue w id affected (ok m) = (with_manager w m, throw (cleanup_failed id affected))

module _ {P T : Type 0} (resolve : String → String) where
  abbrev pub residue :
      World P
      → String
      → String
      → String
      → List Breakpoint
      → List String
      → Attempt T
      → World P × Result TemporaryFailure (Transaction T)
  residue w sid id file desired affected a =
      kept_residue w id affected
        (replace_sources resolve sid (only file (a.applied otherwise desired)) w.manager)

  abbrev pub reinstalled :
      World P
      → String
      → String
      → String
      → List Breakpoint
      → List String
      → Attempt T
      → Result ReplaceError Manager
      → World P × Result TemporaryFailure (Transaction T)
  reinstalled w sid id file desired affected a (throw e) = residue w sid id file desired affected a
  reinstalled w sid id file desired affected a (ok m) = (with_manager w m, conclude affected a)

  abbrev pub restored :
      World P
      → String
      → String
      → String
      → List Breakpoint
      → List String
      → Attempt T
      → Result Thrown (List Breakpoint)
      → World P × Result TemporaryFailure (Transaction T)
  restored w sid id file desired affected a (throw e) = residue w sid id file desired affected a
  restored w sid id file desired affected a (ok records) =
      reinstalled w sid id file desired affected a
        (replace_sources resolve sid (only file records) w.manager)

module _ {P T B : Type 0} (resolve : String → String) (before : String → String → Bool)
    (set_breakpoints : P → Manager → String → List Breakpoint → P × Manager × Reply)
    (boundary : P → B) (callback : World P → Breakpoint → B → World P × Result Thrown T) where
  -- The first `try`.
  unfoldable pub attempt :
      World P → String → String → String → List Breakpoint → World P × Attempt T
  unfolding send replace_sources
  attempt w sid id file desired =
      let (w', sent) = send set_breakpoints w file desired in
      acknowledged resolve boundary callback w' sid id file sent

  -- The second `try`.
  unfoldable pub clean_up :
      World P
      → String
      → String
      → String
      → List Breakpoint
      → List Breakpoint
      → List String
      → Attempt T
      → World P × Result TemporaryFailure (Transaction T)
  unfolding send replace_sources
  clean_up w sid id file original desired affected a =
      let (w', sent) = send set_breakpoints w file original in
      restored resolve w' sid id file desired affected a sent

  -- The body under the lock.
  unfoldable pub temporary_locked :
      (World P → Result Thrown (Unit {0}))
      → World P
      → String
      → String
      → Request
      → String
      → String
      → World P × Result TemporaryFailure (Transaction T)
  unfolding sort_keys attempt clean_up
  temporary_locked assert_can_apply w sid file request id now =
      let original = list_for_source resolve w.manager sid file in
      let desired = original ++ new_temporary_breakpoint sid file request id now ∷ [] in
      let affected = sort_keys before (ids_of original ++ id ∷ []) in
      elim (assert_can_apply w) [
        | throw e ↦ (w, throw (refused e))
        | ok _ ↦
            let (w', a) = attempt w sid id file desired in
            clean_up w' sid id file original desired affected a
      ]

  -- `withTemporaryBreakpoint`. `acquire` is the wait for the lock of the source; `supported` says
  -- whether the provider can capture a boundary.
  unfoldable pub with_temporary_breakpoint :
      Bool
      → (World P → List String → World P)
      → (World P → Result Thrown (Unit {0}))
      → World P
      → String
      → Request
      → String
      → String
      → World P × Result TemporaryFailure (Transaction T)
  unfolding temporary_locked
  with_temporary_breakpoint false acquire assert_can_apply w sid request id now =
      (w, throw unsupported)
  with_temporary_breakpoint true acquire assert_can_apply w sid request id now =
      let file = resolve request.file_path in
      temporary_locked assert_can_apply (acquire w (file ∷ [])) sid file request id now
