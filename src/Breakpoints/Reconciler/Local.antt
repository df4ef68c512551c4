-- ===== src/Breakpoints/Reconciler/Local.antt =====
-- src/sessions/BreakpointReconciler.ts: an update that fails leaves the local breakpoints as they
-- were.
use break_pilot.Common.{
  ℕ, zero, suc, String, Bool, true, false, not, Option, none, some, List, ◌≡◌, refl, sym, ◌∙◌,
  string_eq, member, throw, Result-cases, Option-cases, arith, Bool-cases, inl, inr, any_of, subst,
}
use break_pilot.Common.Dict
use break_pilot.Common.Dict.{Dict}
use break_pilot.Breakpoints.{Breakpoint}
use break_pilot.Breakpoints.Manager
use break_pilot.Breakpoints.Manager.{Manager, Replacement, replace_sources}
use break_pilot.Breakpoints.Manager.Invariant.{Belongs, IsValid}
use break_pilot.Breakpoints.Evidence.{Thrown, Reply, uncoded}
use break_pilot.Breakpoints.Patch.{Patch, apply_patch}
use break_pilot.Breakpoints.Reconciler.{
  World, SourceState, Failure, ids_of, source_states, send_all, restore, recover, commit,
  replace_all, update_locked, update, owned_update, assert_owner_allowed, affected_sources,
  same_sources, is_nil,
}
use break_pilot.Breakpoints.Reconciler.Sends.{
  Quiet, send_all-Answers, send_all-manager, restore-manager,
}
use break_pilot.Breakpoints.Reconciler.Ids.{
  mentions, replace_sources-get, source_states-member, Answers-mentions,
}

module _ (resolve : String → String) (before : String → String → Bool) where
  -- Whether a breakpoint that waits for the locks of some sources has moved to others.
  abbrev moved : Patch → List String → Option Breakpoint → Bool
  moved patch files none = false
  moved patch files (some target) =
      not (same_sources files (affected_sources resolve before target patch))

  -- Where the waits of an update for its locks lead to, given what a wait does: it waits for the
  -- sources of the breakpoint as it is, again and again while the breakpoint has moved meanwhile.
  unfoldable pub last_wait :
      {P : Type 0} → (World P → List String → World P) → String → Patch → ℕ → World P → World P
  last_wait acquire sid patch zero w = w
  last_wait acquire sid patch (suc fuel) w = elim (Manager.get w.manager sid patch.breakpoint_id) [
    | none ↦ w
    | some seen ↦
        let files = affected_sources resolve before seen patch in
        let w' = acquire w files in
        elim (moved patch files (Manager.get w'.manager sid patch.breakpoint_id)) [
          | false ↦ w'
          | true ↦ last_wait acquire sid patch fuel w'
        ]
  ]

module _ (resolve : String → String) (before : String → String → Bool) {P : Type 0}
    (set_breakpoints : P → Manager → String → List Breakpoint → P × Manager × Reply)
    (quiet : Quiet set_breakpoints) where
  pub recover-manager :
      (w : World P) (states : List SourceState) (cause : Thrown)
      → (recover resolve before set_breakpoints w states cause).0.manager ≡ w.manager
  unfolding recover
  recover-manager w states cause = elim (Bool-cases (restore set_breakpoints w states).1) [
    | inl restored ↦ rw (restored, recover) (restore-manager set_breakpoints quiet w states)
    | inr lost ↦ rw (lost, recover) (restore-manager set_breakpoints quiet w states)
  ]

  -- Once the sources are acknowledged, the breakpoint is found again after they are installed.
  commit-throw :
      (w : World P) (sid : String) (target : Breakpoint) (states : List SourceState)
      (rs : List Replacement) (f : Failure)
      → mentions target.id rs ≡ true
      → (commit resolve before set_breakpoints w sid target states rs).1 ≡ throw f
      → (commit resolve before set_breakpoints w sid target states rs).0.manager ≡ w.manager
  unfolding commit
  commit-throw w sid target states rs f there h =
      elim (Result-cases (replace_sources resolve sid rs w.manager)) [
        | inl (e, failed) ↦ rw (failed, commit) (recover-manager w states uncoded)
        | inr (m', went) ↦ elim (Option-cases (Manager.get m' sid target.id)) [
          | inl lost ↦ absurd (
              ground
                (arith, lost, replace_sources-get resolve sid target.id rs w.manager m' went there))
          | inr (current, found) ↦ absurd (ground (arith, went, found))
        ]
      ]

  replace_all-throw :
      (w : World P) (sid : String) (target : Breakpoint) (states : List SourceState) (f : Failure)
      → any_of (λ s. member target.id (ids_of s.desired)) states ≡ true
      → (replace_all resolve before set_breakpoints w sid target states).1 ≡ throw f
      → (replace_all resolve before set_breakpoints w sid target states).0.manager ≡ w.manager
  unfolding replace_all
  replace_all-throw w sid target states f there h =
      elim (Result-cases (send_all set_breakpoints w states).1) [
        | inl (e, failed) ↦
            rw (failed, replace_all)
              (recover-manager (send_all set_breakpoints w states).0 states e
                ∙ send_all-manager set_breakpoints quiet w states)
        | inr (rs, went) ↦
            let mentioned =
              Answers-mentions target.id states rs
                (send_all-Answers set_breakpoints w states rs went)
              ∙ there in
            let h' = (rw (went, replace_all) at h) in
            rw (went, replace_all)
              (commit-throw (send_all set_breakpoints w states).0 sid target states rs f mentioned
                  h'
                ∙ send_all-manager set_breakpoints quiet w states)
      ]

  module _ (resolve_idem : (p : String) → resolve (resolve p) ≡ resolve p) where
    pub update_locked-throw :
        (w : World P) (sid : String) (target : Breakpoint) (patch : Patch) (files : List String)
        (f : Failure)
        → IsValid w.manager
        → Manager.get w.manager sid target.id ≡ some target
        → (update_locked resolve before set_breakpoints w sid target patch files).1 ≡ throw f
        → (update_locked resolve before set_breakpoints w sid target patch files).0.manager
          ≡ w.manager
    unfolding update_locked
    update_locked-throw w sid target patch files f v found h =
        elim (Bool-cases (is_nil (apply_patch resolve target patch).1)) [
          | inl same ↦ rw (same, update_locked)
          | inr differs ↦
              elim (Result-cases (
                source_states resolve w.manager sid target (apply_patch resolve target patch).0
                  files)) [
                    | inl (e, failed) ↦ rw (differs, failed, update_locked)
                    | inr (states, went) ↦
                        rw (differs, went, update_locked)
                          (replace_all-throw w sid target states f
                            (source_states-member resolve resolve_idem w.manager sid target
                              (apply_patch resolve target patch).0 (v.tidy sid).placed found
                              (same_id target patch) files states went)
                            (rw (differs, went, update_locked) at h))
                  ]
        ]
      where
        same_id : (t : Breakpoint) (p : Patch) → (apply_patch resolve t p).0.id ≡ t.id
        same_id t p = refl

    -- A breakpoint is found under its own id.
    found_id :
        (m : Manager) (sid id : String) (b : Breakpoint)
        → IsValid m
        → Manager.get m sid id ≡ some b
        → b.id ≡ id
    unfolding Manager.get
    found_id m sid id b v h =
        (Dict.get-AllEntries (Belongs sid) id b (Manager.bucket m sid) (v.tidy sid).placed h).0

    -- Whatever the retries, an update that fails has left the breakpoints exactly as they were when
    -- its last wait for locks was over (or at its start, if it did not get to wait): the waits are
    -- those for the sources that the breakpoint and the patch had at each round, and go on while the
    -- breakpoint has moved to other sources meanwhile. (`path.resolve` of a resolved path is that
    -- path; no other task touches the manager while the provider works, and a wait keeps the
    -- manager consistent.)
    pub update-throw :
        (acquire : World P → List String → World P) (fuel : ℕ) (w : World P) (sid : String)
        (patch : Patch) (f : Failure)
        → ((v : World P) (files : List String)
            → IsValid v.manager
            → IsValid (acquire v files).manager)
        → IsValid w.manager
        → (update resolve before set_breakpoints acquire fuel w sid patch).1 ≡ throw f
        → (update resolve before set_breakpoints acquire fuel w sid patch).0.manager
          ≡ (last_wait resolve before acquire sid patch fuel w).manager
    unfolding update last_wait
    update-throw acquire zero w sid patch f keeps v h = refl
    update-throw acquire (suc fuel) w sid patch f keeps v h =
        elim (Option-cases (Manager.get w.manager sid patch.breakpoint_id)) [
          | inl gone ↦ rw (gone, update, last_wait)
          | inr (seen, known) ↦
              let files = affected_sources resolve before seen patch in
              let w' = acquire w files in
              let v' = keeps w files v in
              elim (Option-cases (Manager.get w'.manager sid patch.breakpoint_id)) [
                | inl gone ↦ rw (known, gone, moved, update, last_wait)
                | inr (target, found) ↦
                    elim (Bool-cases
                      (same_sources files (affected_sources resolve before target patch))) [
                        | inl same ↦ elim (Result-cases (assert_owner_allowed target patch.owner)) [
                          | inl (e, denied) ↦
                              rw
                                (known, found, same, denied, owned_update, moved, update, last_wait)
                          | inr (u, allowed) ↦
                              let h' =
                                (rw (known, found, same, allowed, owned_update, update) at h) in
                              let id =
                                found_id w'.manager sid patch.breakpoint_id target v' found in
                              rw
                                (
                                  known, found, same, allowed, owned_update, moved, update,
                                  last_wait,
                                )
                                (update_locked-throw w' sid target patch files f v'
                                  (subst (λ k. Manager.get w'.manager sid k ≡ some target) (sym id)
                                    found)
                                  h')
                        ]
                        | inr other ↦
                            rw (known, found, other, moved, update, last_wait)
                              (update-throw acquire fuel w' sid patch f keeps v'
                                (rw (known, found, other, update) at h))
                      ]
              ]
        ]
