-- ===== src/Breakpoints/Reconciler/Sends.antt =====
-- src/sessions/BreakpointReconciler.ts: what sending source lists to the provider yields.
use break_pilot.Common.{
  String, false, none, ℤ, sym, List, [], ◌∷◌, ◌≡◌, refl, ap, ◌∙◌, string_eq, ok, Result-cases,
  Option-cases, arith, inl, inr,
}
use break_pilot.Breakpoints.{Breakpoint, DapBreakpoint}
use break_pilot.Breakpoints.Manager.{Manager, Replacement}
use break_pilot.Breakpoints.Evidence.{
  Reply, fulfilled, rejected, normalize_evidence, project_evidence,
}
use break_pilot.Breakpoints.Reconciler.{
  World, SourceState, ids_of, judge, send, send_all, restore, applied,
}

-- A breakpoint up to what an acknowledgement writes into it (its line and column, whether it is
-- verified, the message and the adapter's id of it) and what installing it stamps on it (its
-- session and file).
abbrev pub settings : Breakpoint → Breakpoint
settings b = record b {
  session_id = "";
  file = "";
  line = ℤ.pos 0;
  column = none;
  verified = false;
  message = none;
  adapter_breakpoint_id = none;
}

abbrev pub settings_of : List Breakpoint → List Breakpoint
settings_of [] = []
settings_of (b ∷ bs) = settings b ∷ settings_of bs

ids_of-settings_of : (bs : List Breakpoint) → ids_of (settings_of bs) ≡ ids_of bs
ids_of-settings_of [] = refl
ids_of-settings_of (b ∷ bs) = ap (λ t. b.id ∷ t) (ids_of-settings_of bs)

-- Lists with the same settings have the same ids.
pub same_ids :
    (as' bs : List Breakpoint) → settings_of as' ≡ settings_of bs → ids_of as' ≡ ids_of bs
same_ids as' bs h = sym (ids_of-settings_of as') ∙ ap ids_of h ∙ ids_of-settings_of bs

settings_of-project_evidence :
    (bs : List Breakpoint) (ds : List DapBreakpoint)
    → settings_of (project_evidence bs ds) ≡ settings_of bs
unfolding project_evidence
settings_of-project_evidence [] ds = refl
settings_of-project_evidence (b ∷ bs) [] =
    ap (λ t. settings b ∷ t) (settings_of-project_evidence bs [])
settings_of-project_evidence (b ∷ bs) (d ∷ ds) =
    ap (λ t. settings b ∷ t) (settings_of-project_evidence bs ds)

-- The replacements carry the sources of the states, in order, with the settings that were sent.
abbrev pub Answers : List SourceState → List Replacement → Type 0
Answers [] [] = Unit
Answers [] (r ∷ rs) = ⊥
Answers (s ∷ ss) [] = ⊥
Answers (s ∷ ss) (r ∷ rs) =
    (r.file_path ≡ s.file_path) × (settings_of r.records ≡ settings_of s.desired) × Answers ss rs

judge_settings :
    (bs : List Breakpoint) (reply : Reply) (rs : List Breakpoint)
    → judge bs reply ≡ ok rs
    → settings_of rs ≡ settings_of bs
unfolding judge
judge_settings bs (rejected e) rs h = cc
judge_settings bs (fulfilled r) rs h = elim (Option-cases (normalize_evidence bs r)) [
  | inl bad ↦ absurd (ground (arith, bad))
  | inr (ev, good) ↦
      let same : rs ≡ project_evidence bs ev = (ground (arith, good)) in
      rw same (settings_of-project_evidence bs ev)
]

module _ {P : Type 0}
    (set_breakpoints : P → Manager → String → List Breakpoint → P × Manager × Reply) where
  -- No other task touches the manager while the provider works.
  abbrev pub Quiet : Type 0
  Quiet =
      (p : P) (m : Manager) (file : String) (bs : List Breakpoint)
      → (set_breakpoints p m file bs).1 ≡ m

  settings_of-send :
      (w : World P) (file : String) (bs rs : List Breakpoint)
      → (send set_breakpoints w file bs).1 ≡ ok rs
      → settings_of rs ≡ settings_of bs
  unfolding send
  settings_of-send w file bs rs h =
      judge_settings bs (set_breakpoints w.provider w.manager file bs).2 rs h

  pub ids_of-send :
      (w : World P) (file : String) (bs rs : List Breakpoint)
      → (send set_breakpoints w file bs).1 ≡ ok rs
      → ids_of rs ≡ ids_of bs
  ids_of-send w file bs rs h = same_ids rs bs (settings_of-send w file bs rs h)

  pub send_all-Answers :
      (w : World P) (ss : List SourceState) (rs : List Replacement)
      → (send_all set_breakpoints w ss).1 ≡ ok rs
      → Answers ss rs
  unfolding send_all
  send_all-Answers w [] rs h = let e : rs ≡ [] = cc in rw e tt
  send_all-Answers w (s ∷ ss) rs h =
      elim (Result-cases (send set_breakpoints w s.file_path s.desired).1) [
        | inl (e, failed) ↦ absurd (cc (rw (failed, send_all) at h))
        | inr (records, sent) ↦
            let h' = (rw (sent, send_all) at h) in
            elim (Result-cases
              (send_all set_breakpoints (send set_breakpoints w s.file_path s.desired).0 ss).1) [
                | inl (e, failed) ↦ absurd (cc (rw failed at h'))
                | inr (rest, on) ↦
                    let h2 = (rw on at h') in
                    let same : rs ≡ applied s records ∷ rest = (cc (h2)) in
                    rw same (
                      refl,
                      settings_of-send w s.file_path s.desired records sent,
                      send_all-Answers (send set_breakpoints w s.file_path s.desired).0 ss rest on,
                    )
              ]
      ]

  module _ (quiet : Quiet) where
    pub send_all-manager :
        (w : World P) (ss : List SourceState)
        → (send_all set_breakpoints w ss).0.manager ≡ w.manager
    unfolding send_all
    send_all-manager w [] = refl
    send_all-manager w (s ∷ ss) =
        elim (Result-cases (send set_breakpoints w s.file_path s.desired).1) [
          | inl (e, failed) ↦
              rw (failed, send_all) (quiet w.provider w.manager s.file_path s.desired)
          | inr (records, sent) ↦
              rw (sent, send_all)
                (elim (Result-cases
                  (send_all set_breakpoints (send set_breakpoints w s.file_path s.desired).0
                    ss).1) [
                      | inl (e, failed) ↦ rw failed (
                          send_all-manager (send set_breakpoints w s.file_path s.desired).0 ss
                          ∙ quiet w.provider w.manager s.file_path s.desired)
                      | inr (rest, went) ↦ rw went (
                          send_all-manager (send set_breakpoints w s.file_path s.desired).0 ss
                          ∙ quiet w.provider w.manager s.file_path s.desired)
                    ])
        ]

    pub restore-manager :
        (w : World P) (ss : List SourceState) → (restore set_breakpoints w ss).0.manager ≡ w.manager
    unfolding restore
    restore-manager w [] = refl
    restore-manager w (s ∷ ss) =
        restore-manager (send set_breakpoints w s.file_path s.original).0 ss
        ∙ quiet w.provider w.manager s.file_path s.original
