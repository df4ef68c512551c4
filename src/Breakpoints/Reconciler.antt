-- ===== src/Breakpoints/Reconciler.antt =====
-- src/sessions/BreakpointReconciler.ts: updating a breakpoint by replacing whole source lists, with
-- rollback. The runtime provider is a parameter: a call takes its state and the manager's to those
-- at the time when its promise settles, with what the promise settles to.
mod Sends
mod Ids
mod States
pub mod Local
pub mod Remote
pub mod InStep
pub mod Restored
pub mod Temporary
use break_pilot.Common.{
  ℕ, zero, suc, String, Bool, true, false, not, Option, none, some, List, [], ◌∷◌, ◌++◌, map, ◌==◌,
  if◌then◌else◌, string_eq, filter_by, any_of, all_of, member, Result, ok, throw, ◌&&◌, ◌||◌,
  ◌otherwise◌,
}
use mathlib.Core.List.{flat_map}
use break_pilot.Breakpoints.{Breakpoint}
use break_pilot.Breakpoints.Manager
use break_pilot.Breakpoints.Manager.{Manager, Replacement, list_for_source, replace_sources}
use break_pilot.Breakpoints.Evidence.{
  Thrown, uncoded, Reply, fulfilled, rejected, normalize_evidence, project_evidence,
  safe_cause_code,
}
use break_pilot.Breakpoints.Patch.{Patch, apply_patch, changed_fields}

pub record SourceState : Type 0 where
  pub file_path : String
  pub original : List Breakpoint
  pub desired : List Breakpoint

-- `BreakpointUpdateResult`; `relocated` is its operation.
pub record Updated : Type 0 where
  pub relocated : Bool
  pub breakpoint_id : String
  pub previous : Breakpoint
  pub current : Breakpoint
  pub changed : List String
  pub verified : Bool

pub data Failure : Type 0 where
  missing_breakpoint : String → Failure
  not_owned : String → String → Failure
  uninitialized still_moving : Failure
  update_failed : List String → String → Failure
  rollback_failed : List String → Failure

-- The state that a call of the provider moves on.
pub record World (P : Type 0) : Type 0 where
  pub provider : P
  pub manager : Manager

-- The order of `Array.prototype.sort` with `#compareSourceKeys`, by insertion.
module _ (before : String → String → Bool) where
  insert_key : String → List String → List String
  insert_key k [] = k ∷ []
  insert_key k (j ∷ js) = if before j k then j ∷ insert_key k js else k ∷ j ∷ js

  unfoldable pub sort_keys : List String → List String
  unfolding insert_key
  sort_keys [] = []
  sort_keys (k ∷ ks) = insert_key k (sort_keys ks)

-- `[...new Set(keys)]`
unfoldable pub unique : List String → List String → List String
unique seen [] = []
unique seen (k ∷ ks) = let rest = unique (k ∷ seen) ks in if member k seen then rest else k ∷ rest

abbrev pub ids_of : List Breakpoint → List String
ids_of [] = []
ids_of (b ∷ bs) = b.id ∷ ids_of bs

abbrev pub originals : List SourceState → List String
originals [] = []
originals (s ∷ ss) = ids_of s.original ++ originals ss

-- `#assertOwnerAllowed`
unfoldable pub assert_owner_allowed : Breakpoint → Option String → Result Failure (Unit {0})
assert_owner_allowed target requested =
    let owner = requested otherwise "agent" in
    if owner == "all" || target.owner == owner then ok tt else throw (not_owned target.owner owner)

abbrev pub replaced : Breakpoint → List Breakpoint → List Breakpoint
replaced requested bs = map (λ b. if b.id == requested.id then requested else b) bs

abbrev pub without : String → List Breakpoint → List Breakpoint
without id bs = filter_by (λ b. not (b.id == id)) bs

-- An answer is taken only with complete evidence, which is written into the list that was sent.
unfoldable pub judge : List Breakpoint → Reply → Result Thrown (List Breakpoint)
judge bs (rejected e) = throw e
judge bs (fulfilled r) = elim (normalize_evidence bs r) [
  | none ↦ throw uncoded
  | some ev ↦ ok (project_evidence bs ev)
]

abbrev pub applied : SourceState → List Breakpoint → Replacement
applied s records = record { file_path = s.file_path; records = records }

abbrev pub is_ok : {A : Type 0} → Result Thrown A → Bool
is_ok (ok a) = true
is_ok (throw e) = false

module _ {P : Type 0}
    (set_breakpoints : P → Manager → String → List Breakpoint → P × Manager × Reply) where
  -- One replacement of a source at the provider.
  unfoldable pub send :
      World P → String → List Breakpoint → World P × Result Thrown (List Breakpoint)
  unfolding judge
  send w file bs =
      let (p, m, reply) = set_breakpoints w.provider w.manager file bs in
      (record { provider = p; manager = m }, judge bs reply)

  -- The loop of `#updateLocked`: every affected source in turn, up to the first failure.
  unfoldable pub send_all : World P → List SourceState → World P × Result Thrown (List Replacement)
  unfolding send
  send_all w [] = (w, ok [])
  send_all w (s ∷ ss) =
      let (w', sent) = send w s.file_path s.desired in
      elim sent [
        | throw e ↦ (w', throw e)
        | ok records ↦
            let (w2, rest) = send_all w' ss in
            elim rest [ throw e ↦ (w2, throw e) | ok rs ↦ (w2, ok (applied s records ∷ rs)) ]
      ]

  -- `#restoreOriginalSources`: tries every source, and tells whether all were acknowledged.
  unfoldable pub restore : World P → List SourceState → World P × Bool
  unfolding send
  restore w [] = (w, true)
  restore w (s ∷ ss) =
      let (w', sent) = send w s.file_path s.original in
      let (w2, rest) = restore w' ss in (w2, is_ok sent && rest)

abbrev is_position : String → Bool
is_position f = f == "filePath" || f == "line" || f == "column"

abbrev pub outcome : Breakpoint → Breakpoint → Updated
outcome previous current =
    let changed = changed_fields previous current in
    record {
      relocated = any_of is_position changed;
      breakpoint_id = previous.id;
      previous = previous;
      current = current;
      changed = changed;
      verified = current.verified;
    }

abbrev pub unchanged : Breakpoint → Updated
unchanged target = record {
  relocated = false;
  breakpoint_id = target.id;
  previous = target;
  current = target;
  changed = [];
  verified = target.verified;
}

abbrev pub is_nil : List String → Bool
is_nil [] = true
is_nil (x ∷ xs) = false

abbrev pub same_sources : List String → List String → Bool
same_sources [] [] = true
same_sources (a ∷ as') (b ∷ bs) = a == b && same_sources as' bs
same_sources _ _ = false

module _ (resolve : String → String) where
  -- The list that the update wants for one of the affected sources.
  abbrev pub desired_list : Breakpoint → Breakpoint → String → List Breakpoint → List Breakpoint
  desired_list previous requested file original =
      let old = resolve previous.file in
      let new = resolve requested.file in
      if old == new
      then (if file == old then replaced requested original else original)
      else if file == old
      then without previous.id original
      else if file == new
      then without previous.id original ++ requested ∷ []
      else original

  unfoldable pub source_state : Manager → String → Breakpoint → Breakpoint → String → SourceState
  source_state m sid previous requested file =
      let original = list_for_source resolve m sid file in
      record {
        file_path = file;
        original = original;
        desired = desired_list previous requested file original;
      }

  -- `#sourceStates`
  unfoldable pub source_states :
      Manager → String → Breakpoint → Breakpoint → List String → Result Failure (List SourceState)
  unfolding source_state
  source_states m sid previous requested files =
      if member (resolve previous.file) files && member (resolve requested.file) files
      then ok (map (source_state m sid previous requested) files)
      else throw uninitialized

module _ (resolve : String → String) (before : String → String → Bool) where
  -- `#affectedSources`
  unfoldable pub affected_sources : Breakpoint → Patch → List String
  unfolding unique sort_keys
  affected_sources target patch =
      let old = resolve target.file in
      let new : String = elim patch.file_path [ none ↦ old | some p ↦ resolve p ] in
      sort_keys before (unique [] (old ∷ new ∷ []))

  -- `#affectedIds`
  unfoldable pub affected_ids : List SourceState → List String
  unfolding unique sort_keys
  affected_ids states = sort_keys before (unique [] (originals states))

  module _ {P : Type 0}
      (set_breakpoints : P → Manager → String → List Breakpoint → P × Manager × Reply) where
    -- The `catch` of `#updateLocked`.
    unfoldable pub recover : World P → List SourceState → Thrown → World P × Result Failure Updated
    unfolding restore
    recover w states cause =
        let (w', restored) = restore set_breakpoints w states in
        if restored
        then (w', throw (update_failed (affected_ids states) (safe_cause_code cause)))
        else (w', throw (rollback_failed (affected_ids states)))

    -- The end of the `try` of `#updateLocked`, once every source is acknowledged.
    unfoldable pub commit :
        World P
        → String
        → Breakpoint
        → List SourceState
        → List Replacement
        → World P × Result Failure Updated
    unfolding recover
    commit w sid previous states replacements =
        elim (replace_sources resolve sid replacements w.manager) [
          | throw e ↦ recover w states uncoded
          | ok m' ↦
              let w' : World P = record { provider = w.provider; manager = m' } in
              elim (Manager.get m' sid previous.id) [
                | none ↦ recover w' states uncoded
                | some current ↦ (w', ok (outcome previous current))
              ]
        ]

    unfoldable pub replace_all :
        World P → String → Breakpoint → List SourceState → World P × Result Failure Updated
    unfolding send_all commit
    replace_all w sid previous states =
        let (w', sent) = send_all set_breakpoints w states in
        elim sent [
          | throw e ↦ recover w' states e
          | ok replacements ↦ commit w' sid previous states replacements
        ]

    -- `#updateLocked`
    unfoldable pub update_locked :
        World P → String → Breakpoint → Patch → List String → World P × Result Failure Updated
    unfolding apply_patch source_states replace_all
    update_locked w sid target patch files =
        let (requested, changes) = apply_patch resolve target patch in
        if is_nil changes
        then (w, ok (unchanged target))
        else elim (source_states resolve w.manager sid target requested files) [
          | throw e ↦ (w, throw e)
          | ok states ↦ replace_all w sid target states
        ]

    abbrev pub owned_update :
        World P → String → Breakpoint → Patch → List String → World P × Result Failure Updated
    owned_update w sid target patch files = elim (assert_owner_allowed target patch.owner) [
      | throw e ↦ (w, throw e)
      | ok _ ↦ update_locked w sid target patch files
    ]

    -- `update`. `acquire` is the wait for the locks of the sources, in which other tasks may run;
    -- the loop begins again when the breakpoint has moved to other sources meanwhile. The fuel
    -- bounds the rounds.
    unfoldable pub update :
        (World P → List String → World P)
        → ℕ
        → World P
        → String
        → Patch
        → World P × Result Failure Updated
    unfolding assert_owner_allowed update_locked
    update acquire zero w sid patch = (w, throw still_moving)
    update acquire (suc fuel) w sid patch = elim (Manager.get w.manager sid patch.breakpoint_id) [
      | none ↦ (w, throw (missing_breakpoint patch.breakpoint_id))
      | some seen ↦
          let files = affected_sources seen patch in
          let w' = acquire w files in
          elim (Manager.get w'.manager sid patch.breakpoint_id) [
            | none ↦ (w', throw (missing_breakpoint patch.breakpoint_id))
            | some target ↦ elim (same_sources files (affected_sources target patch)) [
              | true ↦ owned_update w' sid target patch files
              | false ↦ update acquire fuel w' sid patch
            ]
          ]
    ]
