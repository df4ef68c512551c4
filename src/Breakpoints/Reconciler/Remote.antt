-- ===== src/Breakpoints/Reconciler/Remote.antt =====
-- src/sessions/BreakpointReconciler.ts: the provider's lists against the local ones.
use break_pilot.Common.{
  String, true, false, List, [], ◌∷◌, ◌≡◌, refl, ◌∙◌, ◌==◌, if◌then◌else◌, string_eq, member, ok,
  Result-cases, arith, Bool-cases, inl, inr, eq_of_beq, subst,
}
use break_pilot.Breakpoints.{Breakpoint}
use break_pilot.Breakpoints.Manager.{Manager, Replacement}
use break_pilot.Breakpoints.Evidence.{Reply}
use break_pilot.Breakpoints.Reconciler.{World, SourceState, judge, send, send_all, restore}

abbrev pub Distinct : List String → Type 0
Distinct [] = Unit
Distinct (f ∷ fs) = (member f fs ≡ false) × Distinct fs

abbrev pub paths : List SourceState → List String
paths [] = []
paths (s ∷ ss) = s.file_path ∷ paths ss

-- The last list of some kind among the states of a source.
unfoldable pub last_list :
    (SourceState → List Breakpoint) → String → List SourceState → List Breakpoint → List Breakpoint
last_list kind g [] d = d
last_list kind g (s ∷ ss) d = last_list kind g ss (if s.file_path == g then kind s else d)

pub last_list_absent :
    (kind : SourceState → List Breakpoint) (g : String) (ss : List SourceState)
    (d : List Breakpoint)
    → member g (paths ss) ≡ false
    → last_list kind g ss d ≡ d
unfolding last_list
last_list_absent kind g [] d h = refl
last_list_absent kind g (s ∷ ss) d h = elim (Bool-cases (s.file_path == g)) [
  | inl same ↦ absurd (ground (arith, same))
  | inr other ↦ rw other (last_list_absent kind g ss d (ground (arith, other)))
]

module _ {P : Type 0}
    (set_breakpoints : P → Manager → String → List Breakpoint → P × Manager × Reply) where
  -- What the provider holds: a list that it acknowledges with complete evidence is the one that it
  -- then holds for that source, and a call about one source does not touch another.
  pub record Honest (remote : P → String → List Breakpoint) : Type 0 where
    pub acked :
        (p : P) (m : Manager) (file : String) (bs rs : List Breakpoint)
        → judge bs (set_breakpoints p m file bs).2 ≡ ok rs
        → remote (set_breakpoints p m file bs).0 file ≡ bs
    pub others :
        (p : P) (m : Manager) (file : String) (bs : List Breakpoint) (g : String)
        → (file == g) ≡ false
        → remote (set_breakpoints p m file bs).0 g ≡ remote p g

  module _ (remote : P → String → List Breakpoint) (honest : Honest remote) where
    send-remote :
        (w : World P) (file : String) (bs rs : List Breakpoint) (g : String)
        → (send set_breakpoints w file bs).1 ≡ ok rs
        → remote (send set_breakpoints w file bs).0.provider g
          ≡ (if file == g then bs else remote w.provider g)
    unfolding send
    send-remote w file bs rs g h = elim (Bool-cases (file == g)) [
      | inl same ↦ rw same (
          subst (λ x. remote (set_breakpoints w.provider w.manager file bs).0 x ≡ bs)
            (eq_of_beq file g same) (honest.acked w.provider w.manager file bs rs h))
      | inr other ↦ rw other (honest.others w.provider w.manager file bs g other)
    ]

    send-remote_other :
        (w : World P) (file : String) (bs : List Breakpoint) (g : String)
        → (file == g) ≡ false
        → remote (send set_breakpoints w file bs).0.provider g ≡ remote w.provider g
    unfolding send
    send-remote_other w file bs g other = honest.others w.provider w.manager file bs g other

    pub send_all-remote :
        (w : World P) (ss : List SourceState) (rs : List Replacement) (g : String)
        → (send_all set_breakpoints w ss).1 ≡ ok rs
        → remote (send_all set_breakpoints w ss).0.provider g
          ≡ last_list (λ s. s.desired) g ss (remote w.provider g)
    unfolding send_all last_list
    send_all-remote w [] rs g h = refl
    send_all-remote w (s ∷ ss) rs g h =
        elim (Result-cases (send set_breakpoints w s.file_path s.desired).1) [
          | inl (e, failed) ↦ absurd (cc (rw (failed, send_all) at h))
          | inr (records, sent) ↦
              let h' = (rw (sent, send_all) at h) in
              let w' = (send set_breakpoints w s.file_path s.desired).0 in
              elim (Result-cases (send_all set_breakpoints w' ss).1) [
                | inl (e, failed) ↦ absurd (cc (rw failed at h'))
                | inr (rest, on) ↦
                    rw (sent, on, send_all)
                      (send_all-remote w' ss rest g on
                        ∙ rw (send-remote w s.file_path s.desired records g sent))
              ]
        ]

    pub send_all-remote_other :
        (w : World P) (ss : List SourceState) (g : String)
        → member g (paths ss) ≡ false
        → remote (send_all set_breakpoints w ss).0.provider g ≡ remote w.provider g
    unfolding send_all
    send_all-remote_other w [] g h = refl
    send_all-remote_other w (s ∷ ss) g h =
        let w' = (send set_breakpoints w s.file_path s.desired).0 in
        let away : (s.file_path == g) ≡ false = (ground arith) in
        let later : member g (paths ss) ≡ false = (ground arith) in
        let step = send-remote_other w s.file_path s.desired g away in
        elim (Result-cases (send set_breakpoints w s.file_path s.desired).1) [
          | inl (e, failed) ↦ rw (failed, send_all) step
          | inr (records, sent) ↦ elim (Result-cases (send_all set_breakpoints w' ss).1) [
            | inl (e, failed) ↦
                rw (sent, failed, send_all) (send_all-remote_other w' ss g later ∙ step)
            | inr (rest, on) ↦ rw (sent, on, send_all) (send_all-remote_other w' ss g later ∙ step)
          ]
        ]

    pub restore-remote :
        (w : World P) (ss : List SourceState) (g : String)
        → (restore set_breakpoints w ss).1 ≡ true
        → remote (restore set_breakpoints w ss).0.provider g
          ≡ last_list (λ s. s.original) g ss (remote w.provider g)
    unfolding restore last_list
    restore-remote w [] g h = refl
    restore-remote w (s ∷ ss) g h =
        let w' = (send set_breakpoints w s.file_path s.original).0 in
        elim (Result-cases (send set_breakpoints w s.file_path s.original).1) [
          | inl (e, failed) ↦ absurd (ground (arith, failed))
          | inr (records, sent) ↦
              restore-remote w' ss g (rw (sent, restore) at h)
              ∙ rw (send-remote w s.file_path s.original records g sent)
        ]
