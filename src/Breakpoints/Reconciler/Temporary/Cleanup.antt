-- ===== src/Breakpoints/Reconciler/Temporary/Cleanup.antt =====
-- src/sessions/BreakpointReconciler.ts: what a temporary breakpoint leaves in the local list of its
-- source.
use break_pilot.Common.{
  String, Bool, true, Option, none, some, List, [], ◌∷◌, ◌++◌, map, ◌≡◌, ◌≢◌, refl, ap, ◌∙◌,
  string_eq, eq_refl, Result, ok, throw, ◌otherwise◌, if◌then◌else◌,
}
use break_pilot.Breakpoints.{Breakpoint}
use break_pilot.Breakpoints.Manager
use break_pilot.Breakpoints.Manager.{
  Manager, Replacement, ReplaceError, list_for_source, replace_sources, bucket,
}
use break_pilot.Breakpoints.Manager.Preflight.{stamp}
use break_pilot.Breakpoints.Manager.Replace.{replace_sources-list_for_source}
use break_pilot.Breakpoints.Manager.Invariant.{IsValid, replace_sources-IsValid}
use break_pilot.Breakpoints.Evidence.{Thrown, Reply}
use break_pilot.Breakpoints.Reconciler.{World, ids_of, send, sort_keys}
use break_pilot.Breakpoints.Reconciler.Sends.{ids_of-send}
use break_pilot.Breakpoints.Reconciler.Ids.{ids_of-stamp, ids_of-append}
use break_pilot.Breakpoints.Reconciler.Temporary.{
  Request, TemporaryFailure, unsupported, refused, primary, not_installed, cleanup_failed, not_kept,
  without_evidence, Attempt, Transaction, new_temporary_breakpoint, only, with_manager, conclude,
  run_callback, installed, acknowledged, attempt, kept_residue, residue, reinstalled, restored,
  clean_up, temporary_locked, with_temporary_breakpoint,
}

-- A failed cleanup leaves the temporary breakpoint behind the original ones, an early refusal
-- changes nothing, and in all other cases the source has the original breakpoints.
abbrev pub IsCleaned :
    {T : Type 0}
    → List String
    → String
    → Manager
    → List String
    → Manager
    → Result TemporaryFailure (Transaction T)
    → Type 0
IsCleaned original id m ids m' (throw unsupported) = m' ≡ m
IsCleaned original id m ids m' (throw (refused e)) = m' ≡ m
IsCleaned original id m ids m' (throw (not_kept e)) = Unit
IsCleaned original id m ids m' (throw (cleanup_failed i affected)) = ids ≡ original ++ id ∷ []
IsCleaned original id m ids m' (throw without_evidence) = ⊥
IsCleaned original id m ids m' (throw (primary e)) = ids ≡ original
IsCleaned original id m ids m' (throw (not_installed affected code)) = ids ≡ original
IsCleaned original id m ids m' (ok t) = ids ≡ original

-- What is known of the first `try`.
record IsSent {T : Type 0} (desired : List Breakpoint) (m : Manager) (a : Attempt T) : Type 0 where
  valid : IsValid m
  ids : ids_of (a.applied otherwise desired) ≡ ids_of desired
  evidence : (t : T) → a.result ≡ ok t → a.committed ≢ none

concluded :
    {T : Type 0} (original : List String) (id : String) (m m' : Manager)
    (ids affected : List String) (a : Attempt T)
    → ((t : T) → a.result ≡ ok t → a.committed ≢ none)
    → ids ≡ original
    → IsCleaned original id m ids m' (conclude affected a)
concluded {T = T} original id m m' ids affected a evidence same = go a.result a.committed evidence
  where
    go :
        (r : Result Thrown T) (c : Option Breakpoint)
        → ((t : T) → r ≡ ok t → c ≢ none)
        → IsCleaned original id m ids m'
            (conclude affected (record { applied = a.applied; committed = c; result = r }))
    go (throw e) (some b) evidence = same
    go (throw e) none evidence = same
    go (ok t) (some b) evidence = same
    go (ok t) none evidence = evidence t refl refl

module _ (resolve : String → String)
    (resolve_idem : (p : String) → resolve (resolve p) ≡ resolve p) where
  -- A list that is installed has the ids of the records.
  ids-only :
      (sid path : String) (records : List Breakpoint) (m m' : Manager)
      → IsValid m
      → replace_sources resolve sid (only (resolve path) records) m ≡ ok m'
      → ids_of (list_for_source resolve m' sid (resolve path)) ≡ ids_of records
  ids-only sid path records m m' v h =
      let file = resolve path in
      let known =
        (replace_sources-list_for_source resolve resolve_idem sid file (only file records) m m'
          ((v.tidy sid).distinct) h).0 in
      ap ids_of known
      ∙ ap
          (λ b. ids_of (
            (if b then some (map (stamp sid (resolve file)) records) else none)
            otherwise list_for_source resolve m sid file))
          (eq_refl (resolve file))
      ∙ ids_of-stamp sid (resolve file) records

  module _ {P T B : Type 0} (before : String → String → Bool)
      (set_breakpoints : P → Manager → String → List Breakpoint → P × Manager × Reply)
      (boundary : P → B) (callback : World P → Breakpoint → B → World P × Result Thrown T)
      (sending : (p : P) (m : Manager) (file : String) (bs : List Breakpoint)
        → IsValid m
        → IsValid (set_breakpoints p m file bs).1)
      (calling : (w : World P) (b : Breakpoint) (at : B)
        → IsValid w.manager
        → IsValid (callback w b at).0.manager) where
    send-IsValid :
        (w : World P) (file : String) (bs : List Breakpoint)
        → IsValid w.manager
        → IsValid (send set_breakpoints w file bs).0.manager
    unfolding send
    send-IsValid w file bs v = sending w.provider w.manager file bs v

    run_callback-IsSent :
        (w : World P) (records desired : List Breakpoint) (o : Option Breakpoint)
        → IsValid w.manager
        → ids_of records ≡ ids_of desired
        → let x = run_callback resolve boundary callback w records o in
          IsSent desired x.0.manager x.1
    run_callback-IsSent w records desired none v e = record {
      valid = v;
      ids = e;
      evidence = λ t h. absurd (cc h);
    }
    run_callback-IsSent w records desired (some b) v e = record {
      valid = calling w b (boundary w.provider) v;
      ids = e;
      evidence = λ t h lost. cc lost;
    }

    acknowledged-IsSent :
        (w : World P) (sid id file : String) (desired : List Breakpoint)
        (r : Result Thrown (List Breakpoint))
        → IsValid w.manager
        → ((records : List Breakpoint) → r ≡ ok records → ids_of records ≡ ids_of desired)
        → let x = acknowledged resolve boundary callback w sid id file r in
          IsSent desired x.0.manager x.1
    acknowledged-IsSent w sid id file desired (throw e) v sent = record {
      valid = v;
      ids = refl;
      evidence = λ t h. absurd (cc h);
    }
    acknowledged-IsSent w sid id file desired (ok records) v sent =
        go (replace_sources resolve sid (only file records) w.manager) refl
      where
        go :
            (r : Result ReplaceError Manager)
            → replace_sources resolve sid (only file records) w.manager ≡ r
            → let x = installed resolve boundary callback w sid id records r in
              IsSent desired x.0.manager x.1
        go (throw e) h = record {
          valid = v;
          ids = sent records refl;
          evidence = λ t h. absurd (cc h);
        }
        go (ok m) h =
            run_callback-IsSent (with_manager w m) records desired (Manager.get m sid id)
              (replace_sources-IsValid resolve sid (only file records) w.manager m h v)
              (sent records refl)

    -- The local list keeps the complete list that was wanted.
    residue-IsCleaned :
        (w : World P) (sid id path : String) (m : Manager) (original : List String)
        (desired : List Breakpoint) (affected : List String) (a : Attempt T)
        → IsValid w.manager
        → ids_of (a.applied otherwise desired) ≡ original ++ id ∷ []
        → let x = residue resolve w sid id (resolve path) desired affected a in
          IsCleaned original id m
            (ids_of (list_for_source resolve x.0.manager sid (resolve path)))
            x.0.manager
            x.1
    residue-IsCleaned w sid id path m original desired affected a v ids =
        go (replace_sources resolve sid (only (resolve path) records) w.manager) refl
      where
        records : List Breakpoint
        records = a.applied otherwise desired

        go :
            (r : Result ReplaceError Manager)
            → replace_sources resolve sid (only (resolve path) records) w.manager ≡ r
            → let x = kept_residue {T = T} w id affected r in
              IsCleaned original id m
                (ids_of (list_for_source resolve x.0.manager sid (resolve path)))
                x.0.manager
                x.1
        go (throw e) h = tt
        go (ok m2) h = ids-only sid path records w.manager m2 v h ∙ ids

    restored-IsCleaned :
        (w : World P) (sid id path : String) (m : Manager) (original desired : List Breakpoint)
        (affected : List String) (a : Attempt T) (r : Result Thrown (List Breakpoint))
        → IsValid w.manager
        → ((records : List Breakpoint) → r ≡ ok records → ids_of records ≡ ids_of original)
        → ids_of (a.applied otherwise desired) ≡ ids_of original ++ id ∷ []
        → ((t : T) → a.result ≡ ok t → a.committed ≢ none)
        → let x = restored resolve w sid id (resolve path) desired affected a r in
          IsCleaned
            (ids_of original)
            id
            m
            (ids_of (list_for_source resolve x.0.manager sid (resolve path)))
            x.0.manager
            x.1
    restored-IsCleaned w sid id path m original desired affected a (throw e) v sent ids evidence =
        residue-IsCleaned w sid id path m (ids_of original) desired affected a v ids
    restored-IsCleaned w sid id path m original desired affected a (ok records) v sent ids
          evidence =
        go (replace_sources resolve sid (only (resolve path) records) w.manager) refl
      where
        go :
            (r : Result ReplaceError Manager)
            → replace_sources resolve sid (only (resolve path) records) w.manager ≡ r
            → let x = reinstalled resolve w sid id (resolve path) desired affected a r in
              IsCleaned
                (ids_of original)
                id
                m
                (ids_of (list_for_source resolve x.0.manager sid (resolve path)))
                x.0.manager
                x.1
        go (throw e) h =
            residue-IsCleaned w sid id path m (ids_of original) desired affected a v ids
        go (ok m2) h =
            concluded (ids_of original) id m m2
              (ids_of (list_for_source resolve m2 sid (resolve path))) affected a evidence
              (ids-only sid path records w.manager m2 v h ∙ sent records refl)

    temporary_locked-IsCleaned :
        (assert_can_apply : World P → Result Thrown (Unit {0})) (w : World P) (sid path : String)
        (request : Request) (id now : String)
        → IsValid w.manager
        → let file = resolve path in
          let x =
            temporary_locked resolve before set_breakpoints boundary callback assert_can_apply w sid
              file request id now in
          IsCleaned
            (ids_of (list_for_source resolve w.manager sid file))
            id
            w.manager
            (ids_of (list_for_source resolve x.0.manager sid file))
            x.0.manager
            x.1
    unfolding temporary_locked attempt clean_up
    temporary_locked-IsCleaned assert_can_apply w sid path request id now v =
        go (assert_can_apply w)
      where
        file : String
        file = resolve path

        original : List Breakpoint
        original = list_for_source resolve w.manager sid file

        desired : List Breakpoint
        desired = original ++ new_temporary_breakpoint sid file request id now ∷ []

        affected : List String
        affected = sort_keys before (ids_of original ++ id ∷ [])

        w1 : World P
        w1 = (send set_breakpoints w file desired).0

        first : World P × Attempt T
        first =
            acknowledged resolve boundary callback w1 sid id file
              (send set_breakpoints w file desired).1

        tried : IsSent desired first.0.manager first.1
        tried =
            acknowledged-IsSent w1 sid id file desired (send set_breakpoints w file desired).1
              (send-IsValid w file desired v)
              (λ records h. ids_of-send set_breakpoints w file desired records h)

        go :
            (r : Result Thrown (Unit {0}))
            → let x : World P × Result TemporaryFailure (Transaction T) = elim r [
              | throw e ↦ (w, throw (refused e))
              | ok _ ↦
                  clean_up resolve before set_breakpoints boundary callback first.0 sid id file
                    original desired affected first.1
            ] in
              IsCleaned
                (ids_of original)
                id
                w.manager
                (ids_of (list_for_source resolve x.0.manager sid file))
                x.0.manager
                x.1
        go (throw e) = refl
        go (ok u) =
            restored-IsCleaned (send set_breakpoints first.0 file original).0 sid id path w.manager
              original desired affected first.1 (send set_breakpoints first.0 file original).1
              (send-IsValid first.0 file original tried.valid)
              (λ records h. ids_of-send set_breakpoints first.0 file original records h)
              (tried.ids
                ∙ ids_of-append original (new_temporary_breakpoint sid file request id now ∷ []))
              tried.evidence

    -- After an action under a temporary breakpoint, however it ended, the source lists the
    -- breakpoints that it listed when its lock was acquired, by their ids and in their order,
    -- unless the cleanup is reported as failed: then they are followed by the temporary one. An
    -- action that is refused at the start changes nothing, one that returns has had its breakpoint
    -- committed, and nothing is stated where the local lists themselves are rejected; for an
    -- idempotent path.resolve, a provider that can capture a boundary, and a wait, a provider and an
    -- action that keep the manager consistent.
    pub with_temporary_breakpoint-IsCleaned :
        (acquire : World P → List String → World P)
        (assert_can_apply : World P → Result Thrown (Unit {0})) (w : World P) (sid : String)
        (request : Request) (id now : String)
        → let file = resolve request.file_path in
          let locked = acquire w (file ∷ []) in
          IsValid locked.manager
          → let x =
              with_temporary_breakpoint resolve before set_breakpoints boundary callback true
                acquire assert_can_apply w sid request id now in
            IsCleaned
              (ids_of (list_for_source resolve locked.manager sid file))
              id
              locked.manager
              (ids_of (list_for_source resolve x.0.manager sid file))
              x.0.manager
              x.1
    unfolding with_temporary_breakpoint
    with_temporary_breakpoint-IsCleaned acquire assert_can_apply w sid request id now v =
        temporary_locked-IsCleaned assert_can_apply (acquire w (resolve request.file_path ∷ [])) sid
          request.file_path request id now v
