-- ===== src/Breakpoints/Reconciler/Restored.antt =====
-- src/sessions/BreakpointReconciler.ts: what the rollback of an update gives back to the provider.
use break_pilot.Common.{
  String, Bool, true, some, List, ◌≡◌, refl, ◌∙◌, string_eq, member, throw, Result-cases,
  Option-cases, arith, Bool-cases, inl, inr, any_of, ◌&&◌,
}
use break_pilot.Breakpoints.{Breakpoint}
use break_pilot.Breakpoints.Manager
use break_pilot.Breakpoints.Manager.{Manager, Replacement, replace_sources, list_for_source}
use break_pilot.Breakpoints.Manager.Invariant.{IsValid}
use break_pilot.Breakpoints.Evidence.{Thrown, Reply, uncoded}
use break_pilot.Breakpoints.Patch.{Patch, apply_patch}
use break_pilot.Breakpoints.Reconciler.{
  World, SourceState, Failure, uninitialized, update_failed, ids_of, source_states, send_all,
  restore, recover, commit, replace_all, update_locked, is_nil,
}
use break_pilot.Breakpoints.Reconciler.Sends.{Quiet, send_all-Answers, send_all-manager}
use break_pilot.Breakpoints.Reconciler.Ids.{
  mentions, replace_sources-get, source_states-member, Answers-mentions,
}
use break_pilot.Breakpoints.Reconciler.Remote.{Honest, restore-remote}
use break_pilot.Breakpoints.Reconciler.States.{states_of, last_originals, source_states-eq}
use break_pilot.Breakpoints.Reconciler.Local.{update_locked-throw}

module _ (resolve : String → String) (before : String → String → Bool) {P : Type 0}
    (set_breakpoints : P → Manager → String → List Breakpoint → P × Manager × Reply)
    (remote : P → String → List Breakpoint) (sid : String) (quiet : Quiet set_breakpoints)
    (honest : Honest set_breakpoints remote) (w : World P) (target wanted : Breakpoint)
    (files : List String) (g : String) (inside : member g files ≡ true) (failed_ids : List String)
    (code : String) where
  abbrev states : List SourceState
  states = states_of resolve w.manager sid target wanted files

  recover-restored :
      (v : World P) (cause : Thrown)
      → v.manager ≡ w.manager
      → (recover resolve before set_breakpoints v states cause).1
        ≡ throw (update_failed failed_ids code)
      → remote (recover resolve before set_breakpoints v states cause).0.provider g
        ≡ list_for_source resolve w.manager sid g
  unfolding recover
  recover-restored v cause same h = elim (Bool-cases (restore set_breakpoints v states).1) [
    | inl restored ↦
        rw (restored, recover)
          (restore-remote set_breakpoints remote honest v states g restored
            ∙ last_originals resolve w.manager sid target wanted files g (remote v.provider g)
            ∙ rw inside refl)
    | inr lost ↦ absurd (ground (arith, lost))
  ]

  commit-restored :
      (v : World P) (rs : List Replacement)
      → v.manager ≡ w.manager
      → mentions target.id rs ≡ true
      → (commit resolve before set_breakpoints v sid target states rs).1
        ≡ throw (update_failed failed_ids code)
      → remote (commit resolve before set_breakpoints v sid target states rs).0.provider g
        ≡ list_for_source resolve w.manager sid g
  unfolding commit
  commit-restored v rs same there h =
      elim (Result-cases (replace_sources resolve sid rs v.manager)) [
        | inl (e, failed) ↦
            rw (failed, commit) (recover-restored v uncoded same (rw (failed, commit) at h))
        | inr (m', went) ↦ elim (Option-cases (Manager.get m' sid target.id)) [
          | inl lost ↦ absurd (
              ground
                (arith, lost, replace_sources-get resolve sid target.id rs v.manager m' went there))
          | inr (current, found) ↦ absurd (ground (arith, went, found))
        ]
      ]

  replace_all-restored :
      any_of (λ s. member target.id (ids_of s.desired)) states ≡ true
      → (replace_all resolve before set_breakpoints w sid target states).1
        ≡ throw (update_failed failed_ids code)
      → remote (replace_all resolve before set_breakpoints w sid target states).0.provider g
        ≡ list_for_source resolve w.manager sid g
  unfolding replace_all
  replace_all-restored there h =
      let v = (send_all set_breakpoints w states).0 in
      let same = send_all-manager set_breakpoints quiet w states in
      elim (Result-cases (send_all set_breakpoints w states).1) [
        | inl (e, failed) ↦
            rw (failed, replace_all) (recover-restored v e same (rw (failed, replace_all) at h))
        | inr (rs, went) ↦
            rw (went, replace_all)
              (commit-restored v rs same
                (Answers-mentions target.id states rs
                    (send_all-Answers set_breakpoints w states rs went)
                  ∙ there)
                (rw (went, replace_all) at h))
      ]

source_states-uninitialized :
    (resolve : String → String) (m : Manager) (sid : String) (target wanted : Breakpoint)
    (files : List String) (e : Failure)
    → source_states resolve m sid target wanted files ≡ throw e
    → uninitialized ≡ e
unfolding source_states
source_states-uninitialized resolve m sid target wanted files e h =
    elim (Bool-cases (member (resolve target.file) files && member (resolve wanted.file) files)) [
      | inl both ↦ absurd (ground (arith, both))
      | inr missing ↦ ground (arith, missing)
    ]

module _ (resolve : String → String) (before : String → String → Bool)
    (resolve_idem : (p : String) → resolve (resolve p) ≡ resolve p) {P : Type 0}
    (set_breakpoints : P → Manager → String → List Breakpoint → P × Manager × Reply)
    (remote : P → String → List Breakpoint) (sid : String) where
  -- An update that reports that it failed, and not that its rollback did, leaves the provider, for
  -- each of its sources, with exactly the list of breakpoints that the local store has, which is
  -- the one from before. (`path.resolve` of a resolved path is that path; no other task touches the
  -- manager while the provider works; what the provider acknowledges with complete evidence is
  -- what it then holds, and a call about one source does not touch another; the store is
  -- consistent and has the target.)
  pub update_locked-restored :
      (w : World P) (target : Breakpoint) (patch : Patch) (files : List String) (g : String)
      (failed_ids : List String) (code : String)
      → Quiet set_breakpoints
      → Honest set_breakpoints remote
      → IsValid w.manager
      → Manager.get w.manager sid target.id ≡ some target
      → member g files ≡ true
      → (update_locked resolve before set_breakpoints w sid target patch files).1
        ≡ throw (update_failed failed_ids code)
      → let v = (update_locked resolve before set_breakpoints w sid target patch files).0 in
        (remote v.provider g ≡ list_for_source resolve v.manager sid g) × (v.manager ≡ w.manager)
  unfolding update_locked
  update_locked-restored w target patch files g failed_ids code quiet honest valid found inside h =
      let kept =
        update_locked-throw resolve before set_breakpoints quiet resolve_idem w sid target patch
          files (update_failed failed_ids code) valid found h in
      (rw kept exact, kept)
    where
      wanted : Breakpoint
      wanted = (apply_patch resolve target patch).0

      exact :
          remote
            (update_locked resolve before set_breakpoints w sid target patch files).0.provider
            g
          ≡ list_for_source resolve w.manager sid g
      exact = elim (Bool-cases (is_nil (apply_patch resolve target patch).1)) [
        | inl same ↦ absurd (ground (arith, same))
        | inr differs ↦
            elim (Result-cases (source_states resolve w.manager sid target wanted files)) [
              | inl (e, failed) ↦ absurd (
                  let e2 : uninitialized ≡ e =
                    (source_states-uninitialized resolve w.manager sid target wanted files e
                      failed) in
                  ground (arith, differs, failed, e2))
              | inr (ss, went) ↦
                  let e = source_states-eq resolve w.manager sid target wanted files ss went in
                  let there =
                    source_states-member resolve resolve_idem w.manager sid target wanted
                      (valid.tidy sid).placed found refl files ss went in
                  rw (differs, went, update_locked)
                    (rw e (
                      replace_all-restored resolve before set_breakpoints remote sid quiet honest w
                        target wanted files g inside failed_ids code (rw e at there)
                        (rw e at (rw (differs, went, update_locked) at h))))
            ]
      ]
