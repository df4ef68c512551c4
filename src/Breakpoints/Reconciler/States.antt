-- ===== src/Breakpoints/Reconciler/States.antt =====
-- src/sessions/BreakpointReconciler.ts: the lists that an update sends and restores, by source.
use break_pilot.Common.{
  String, Bool, true, false, List, [], ◌∷◌, map, ◌≡◌, refl, sym, ap, ◌∙◌, ◌==◌, if◌then◌else◌,
  string_eq, member, All, ok, ◌&&◌, arith, Bool-cases, inl, inr, eq_of_beq, subst, ◌otherwise◌,
}
use break_pilot.Breakpoints.{Breakpoint}
use break_pilot.Breakpoints.Manager.{Manager, Replacement, list_for_source}
use break_pilot.Breakpoints.Manager.Replace.{requested}
use break_pilot.Breakpoints.Reconciler.{SourceState, source_state, source_states}
use break_pilot.Breakpoints.Reconciler.Sends.{Answers, settings_of}
use break_pilot.Breakpoints.Reconciler.Ids.{settings_of-stamp}
use break_pilot.Breakpoints.Reconciler.Remote.{Distinct, paths, last_list, last_list_absent}

module _ (resolve : String → String) (m : Manager) (sid : String) (target wanted : Breakpoint) where
  abbrev pub states_of : List String → List SourceState
  states_of files = map (source_state resolve m sid target wanted) files

  pub paths-states_of : (files : List String) → paths (states_of files) ≡ files
  unfolding source_state
  paths-states_of [] = refl
  paths-states_of (f ∷ fs) = ap (λ t. f ∷ t) (paths-states_of fs)

  -- The original lists of the states are the local ones.
  pub last_originals :
      (files : List String) (g : String) (d : List Breakpoint)
      → last_list (λ s. s.original) g (states_of files) d
        ≡ (if member g files then list_for_source resolve m sid g else d)
  unfolding last_list source_state
  last_originals [] g d = refl
  last_originals (f ∷ fs) g d =
      last_originals fs g (if f == g then list_for_source resolve m sid f else d)
      ∙ elim (Bool-cases (f == g)) [
        | inl same ↦ rw same (rw (eq_of_beq f g same) (either (member g fs)))
        | inr other ↦ rw other
      ]
    where
      either :
          (b : Bool)
          → (if b then list_for_source resolve m sid g else list_for_source resolve m sid g)
            ≡ list_for_source resolve m sid g
      either true = refl
      either false = refl

pub source_states-eq :
    (resolve : String → String) (m : Manager) (sid : String) (target wanted : Breakpoint)
    (files : List String) (ss : List SourceState)
    → source_states resolve m sid target wanted files ≡ ok ss
    → ss ≡ states_of resolve m sid target wanted files
unfolding source_states
source_states-eq resolve m sid target wanted files ss h =
    elim (Bool-cases (member (resolve target.file) files && member (resolve wanted.file) files)) [
      | inl both ↦ ground (arith, both)
      | inr missing ↦ absurd (ground (arith, missing))
    ]

-- What was asked of the local store, against what was sent.
pub requested-last_list :
    (resolve : String → String) (sid g : String) (ss : List SourceState) (rs : List Replacement)
    (d e : List Breakpoint)
    → All (λ f. resolve f ≡ f) (paths ss)
    → Distinct (paths ss)
    → Answers ss rs
    → settings_of d ≡ settings_of e
    → settings_of (requested resolve sid g rs otherwise d)
      ≡ settings_of (last_list (λ s. s.desired) g ss e)
unfolding last_list
requested-last_list resolve sid g [] [] d e n u a same = same
requested-last_list resolve sid g [] (r ∷ rs) d e n u a same = absurd a
requested-last_list resolve sid g (s ∷ ss) [] d e n u a same = absurd a
requested-last_list resolve sid g (s ∷ ss) (r ∷ rs) d e n u (file, ids, a) same =
    let path : resolve r.file_path ≡ s.file_path = (ap resolve file ∙ n.0) in
    elim (Bool-cases (s.file_path == g)) [
      | inl here ↦
          let gone : member g (paths ss) ≡ false =
            (subst (λ x. member x (paths ss) ≡ false) (eq_of_beq s.file_path g here) u.0) in
          rw (path, here)
            (settings_of-stamp sid g r.records
              ∙ ids
              ∙ ap settings_of (sym (last_list_absent (λ x. x.desired) g ss s.desired gone)))
      | inr other ↦ rw (path, other) (requested-last_list resolve sid g ss rs d e n.1 u.1 a same)
    ]
