-- ===== src/Breakpoints/Reconciler/InStep.antt =====
-- src/sessions/BreakpointReconciler.ts: the provider and the local store stay in step.
use break_pilot.Common.{
  String, Bool, true, false, some, List, [], ◌∷◌, ◌≡◌, ◌≢◌, refl, sym, ◌∙◌, ◌==◌, string_eq, member,
  All, ok, throw, Result-cases, Option-cases, arith, Bool-cases, inl, inr, any_of, subst,
}
use break_pilot.Breakpoints.{Breakpoint}
use break_pilot.Breakpoints.Manager
use break_pilot.Breakpoints.Manager.{Manager, Replacement, replace_sources, list_for_source}
use break_pilot.Breakpoints.Manager.Replace.{replace_sources-list_for_source}
use break_pilot.Breakpoints.Manager.Invariant.{IsValid}
use break_pilot.Breakpoints.Evidence.{Thrown, Reply, uncoded}
use break_pilot.Breakpoints.Patch.{Patch, apply_patch}
use break_pilot.Breakpoints.Reconciler.{
  World, SourceState, rollback_failed, ids_of, source_states, send_all, restore, recover, commit,
  replace_all, update_locked, is_nil, sort_keys, unique, affected_sources, affected_ids,
}
use break_pilot.Breakpoints.Reconciler.Sends.{
  Quiet, Answers, settings_of, send_all-Answers, send_all-manager, restore-manager,
}
use break_pilot.Breakpoints.Reconciler.Ids.{
  mentions, replace_sources-get, source_states-member, Answers-mentions,
}
use break_pilot.Breakpoints.Reconciler.Remote.{
  Honest, Distinct, last_list, last_list_absent, send_all-remote, send_all-remote_other,
  restore-remote,
}
use break_pilot.Breakpoints.Reconciler.States.{
  states_of, paths-states_of, last_originals, source_states-eq, requested-last_list,
}

module _ (resolve : String → String) (before : String → String → Bool) {P : Type 0}
    (set_breakpoints : P → Manager → String → List Breakpoint → P × Manager × Reply)
    (remote : P → String → List Breakpoint) (sid : String) where
  -- For every source the provider holds the breakpoints that the local store lists, in order, with
  -- the same settings.
  abbrev pub InStep : World P → Type 0
  InStep w =
      (g : String)
      → resolve g ≡ g
      → settings_of (remote w.provider g) ≡ settings_of (list_for_source resolve w.manager sid g)

  module _ (quiet : Quiet set_breakpoints) (honest : Honest set_breakpoints remote) (w : World P)
      (in_step : InStep w) (target wanted : Breakpoint) where
    abbrev states : List String → List SourceState
    states files = states_of resolve w.manager sid target wanted files

    -- From any point of the sending, a rollback that is acknowledged brings the sources back.
    recover-InStep :
        (files : List String) (v : World P) (cause : Thrown)
        → v.manager ≡ w.manager
        → ((g : String) → member g files ≡ false → remote v.provider g ≡ remote w.provider g)
        → ((ids : List String)
            → (recover resolve before set_breakpoints v (states files) cause).1
              ≢ throw (rollback_failed ids))
        → InStep (recover resolve before set_breakpoints v (states files) cause).0
    unfolding recover
    recover-InStep files v cause same kept fine =
        elim (Bool-cases (restore set_breakpoints v (states files)).1) [
          | inl restored ↦ λ g fixed.
              rw (restored, recover)
                (rw
                  (
                    restore-remote set_breakpoints remote honest v (states files) g restored,
                    restore-manager set_breakpoints quiet v (states files),
                    same,
                    last_originals resolve w.manager sid target wanted files g
                        (remote v.provider g),
                  )
                  (elim (Bool-cases (member g files)) [
                    | inl there ↦ rw there
                    | inr away ↦ rw (away, kept g away) (in_step g fixed)
                  ]))
          | inr lost ↦
              absurd (fine (affected_ids resolve before (states files)) (rw (lost, recover)))
        ]

    module _ (resolve_idem : (p : String) → resolve (resolve p) ≡ resolve p)
        (valid : IsValid w.manager) (files : List String)
        (resolved : All (λ f. resolve f ≡ f) files) (distinct : Distinct files) where
      -- All sources are acknowledged, and the local store follows.
      commit-InStep :
          (v : World P) (rs : List Replacement)
          → v.manager ≡ w.manager
          → ((g : String)
              → remote v.provider g
                ≡ last_list (λ s. s.desired) g (states files) (remote w.provider g))
          → Answers (states files) rs
          → mentions target.id rs ≡ true
          → ((ids : List String)
              → (commit resolve before set_breakpoints v sid target (states files) rs).1
                ≢ throw (rollback_failed ids))
          → InStep (commit resolve before set_breakpoints v sid target (states files) rs).0
      unfolding commit
      commit-InStep v rs same sent answers there fine =
          elim (Result-cases (replace_sources resolve sid rs v.manager)) [
            | inl (e, failed) ↦
                rw (failed, commit)
                  (recover-InStep files v uncoded same
                    (λ g away.
                      sent g
                      ∙ last_list_absent (λ s. s.desired) g (states files) (remote w.provider g)
                          (rw (paths-states_of resolve w.manager sid target wanted files) away))
                    (λ ids bad. fine ids (rw (failed, commit) bad)))
            | inr (m', went) ↦ elim (Option-cases (Manager.get m' sid target.id)) [
              | inl lost ↦ absurd (
                  ground (
                    arith,
                    lost,
                    replace_sources-get resolve sid target.id rs v.manager m' went there,
                  ))
              | inr (current, found) ↦
                  rw (went, found, commit) (λ g fixed. installed m' went g fixed)
            ]
          ]
        where
          installed :
              (m' : Manager)
              → replace_sources resolve sid rs v.manager ≡ ok m'
              → (g : String) → resolve g ≡ g
              → settings_of (remote v.provider g) ≡ settings_of (list_for_source resolve m' sid g)
          installed m' went g fixed =
              let went' : replace_sources resolve sid rs w.manager ≡ ok m' =
                (subst (λ x. replace_sources resolve sid rs x ≡ ok m') same went) in
              let local =
                replace_sources-list_for_source resolve resolve_idem sid g rs w.manager m'
                  (valid.tidy sid).distinct went' in
              let names = paths-states_of resolve w.manager sid target wanted files in
              let agree =
                requested-last_list resolve sid g (states files) rs
                  (list_for_source resolve w.manager sid g) (remote w.provider g)
                  (rw names resolved) (rw names distinct) answers (sym (in_step g fixed)) in
              rw (sent g, local.0, fixed) (sym agree)

      replace_all-InStep :
          any_of (λ s. member target.id (ids_of s.desired)) (states files) ≡ true
          → ((ids : List String)
              → (replace_all resolve before set_breakpoints w sid target (states files)).1
                ≢ throw (rollback_failed ids))
          → InStep (replace_all resolve before set_breakpoints w sid target (states files)).0
      unfolding replace_all
      replace_all-InStep there fine =
          let v = (send_all set_breakpoints w (states files)).0 in
          let same = send_all-manager set_breakpoints quiet w (states files) in
          elim (Result-cases (send_all set_breakpoints w (states files)).1) [
            | inl (e, failed) ↦
                rw (failed, replace_all)
                  (recover-InStep files v e same
                    (λ g away.
                      send_all-remote_other set_breakpoints remote honest w (states files) g
                        (rw (paths-states_of resolve w.manager sid target wanted files) away))
                    (λ ids bad. fine ids (rw (failed, replace_all) bad)))
            | inr (rs, went) ↦
                let answers = send_all-Answers set_breakpoints w (states files) rs went in
                rw (went, replace_all)
                  (commit-InStep v rs same
                    (λ g. send_all-remote set_breakpoints remote honest w (states files) rs g went)
                    answers (Answers-mentions target.id (states files) rs answers ∙ there)
                    (λ ids bad. fine ids (rw (went, replace_all) bad)))
          ]

-- The sources of an update are resolved paths and differ.
module _ (resolve : String → String) (before : String → String → Bool)
    (resolve_idem : (p : String) → resolve (resolve p) ≡ resolve p) where
  pair_lem :
      (old new : String)
      → resolve old ≡ old
      → resolve new ≡ new
      → All (λ f. resolve f ≡ f) (sort_keys before (unique [] (old ∷ new ∷ [])))
        × Distinct (sort_keys before (unique [] (old ∷ new ∷ [])))
  unfolding sort_keys unique
  pair_lem old new h k = elim (Bool-cases (old == new)) [
    | inl same ↦ rw same ((h, tt), (refl, tt))
    | inr apart ↦ elim (Bool-cases (before new old)) [
      | inl swap ↦
          rw (apart, swap)
            (
              (k, (h, tt)),
              (
                ground (arith, apart, string_eq.beq_iff old new, string_eq.beq_iff new old),
                (refl, tt),
              ),
            )
      | inr stay ↦
          rw (apart, stay)
            (
              (h, (k, tt)),
              (
                ground (arith, apart, string_eq.beq_iff old new, string_eq.beq_iff new old),
                (refl, tt),
              ),
            )
    ]
  ]

  affected_sources_lem :
      (target : Breakpoint) (patch : Patch)
      → All (λ f. resolve f ≡ f) (affected_sources resolve before target patch)
        × Distinct (affected_sources resolve before target patch)
  unfolding affected_sources
  affected_sources_lem target patch = elim (Option-cases patch.file_path) [
    | inl keep ↦
        rw keep
          (pair_lem (resolve target.file) (resolve target.file) (resolve_idem _) (resolve_idem _))
    | inr (p, move) ↦
        rw move (pair_lem (resolve target.file) (resolve p) (resolve_idem _) (resolve_idem p))
  ]

  module _ {P : Type 0}
      (set_breakpoints : P → Manager → String → List Breakpoint → P × Manager × Reply)
      (remote : P → String → List Breakpoint) (sid : String) where
    -- If the provider holds, for every source, the breakpoints that the local store lists, in order,
    -- then it does so after an update too, whether the update succeeds or fails, unless it reports
    -- that the rollback failed. The breakpoints of the two sides are compared in their id,
    -- condition, hit condition, log message, enabled and temporary flags, suspend policy, log
    -- flags, owner, IDE id and time of creation; not in what the adapter reports back (line, column,
    -- verification, message, its own id) nor in the session and file that installing stamps. (`path.resolve` of a resolved path is that path; no other task touches the
    -- manager while the provider works; what the provider acknowledges with complete evidence is
    -- what it then holds, and a call about one source does not touch another; the store is
    -- consistent and has the target.)
    pub update_locked-InStep :
        (w : World P) (target : Breakpoint) (patch : Patch)
        → Quiet set_breakpoints
        → Honest set_breakpoints remote
        → IsValid w.manager
        → Manager.get w.manager sid target.id ≡ some target
        → InStep resolve before set_breakpoints remote sid w
        → ((ids : List String)
            → (update_locked resolve before set_breakpoints w sid target patch
                (affected_sources resolve before target patch)).1
              ≢ throw (rollback_failed ids))
        → InStep resolve before set_breakpoints remote sid
            (update_locked resolve before set_breakpoints w sid target patch
              (affected_sources resolve before target patch)).0
    unfolding update_locked
    update_locked-InStep w target patch quiet honest valid found in_step fine =
        let files = affected_sources resolve before target patch in
        let wanted = (apply_patch resolve target patch).0 in
        elim (Bool-cases (is_nil (apply_patch resolve target patch).1)) [
          | inl same ↦ rw (same, update_locked) in_step
          | inr differs ↦
              elim (Result-cases (source_states resolve w.manager sid target wanted files)) [
                | inl (e, failed) ↦ rw (differs, failed, update_locked) in_step
                | inr (ss, went) ↦
                    let e = source_states-eq resolve w.manager sid target wanted files ss went in
                    let there =
                      source_states-member resolve resolve_idem w.manager sid target wanted
                        (valid.tidy sid).placed found refl files ss went in
                    rw (differs, went, update_locked)
                      (rw e (
                        replace_all-InStep resolve before set_breakpoints remote sid quiet honest w
                          in_step target wanted resolve_idem valid files
                          (affected_sources_lem target patch).0
                          (affected_sources_lem target patch).1 (rw e at there)
                          (λ ids bad. fine ids (rw (differs, went, update_locked) (rw e bad)))))
              ]
        ]
