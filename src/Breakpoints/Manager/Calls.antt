-- ===== src/Breakpoints/Manager/Calls.antt =====
-- src/sessions/BreakpointManager.ts: sequences of calls, and the consistency that they keep.
use break_pilot.Common.{String, List, [], ◌∷◌, Result, ok, throw, string_eq, inl, inr, Result-cases}
use break_pilot.Common.Dict
use break_pilot.Common.Dict.{Dict}
use break_pilot.Breakpoints.{BreakpointInput, DapBreakpoint}
use break_pilot.Breakpoints.Manager.{
  Manager, empty, Replacement, ReplaceError, bucket, add, update_verification, replace_sources,
  remove, clear,
}
use break_pilot.Breakpoints.Manager.Invariant.{
  IsTidy, IsValid, IsTidy-nil, add-IsValid, update_verification-IsValid, replace_sources-IsValid,
  remove-IsValid, clear-IsValid,
}

-- The calls that change the breakpoints of sessions. A call that throws leaves the store as it is.
pub data Call : Type 0 where
  adding : String → BreakpointInput → String → String → Call
  verifying : String → String → List DapBreakpoint → Call
  replacing : String → List Replacement → Call
  removing : String → String → Call
  clearing : String → Call

abbrev pub settled : Manager → Result ReplaceError Manager → Manager
settled m (ok m') = m'
settled m (throw e) = m

unfoldable pub perform : (String → String) → Manager → Call → Manager
perform resolve m (adding sid b fresh_id now) = (add resolve sid b fresh_id now m).0
perform resolve m (verifying sid file ds) = (update_verification resolve sid file ds m).0
perform resolve m (replacing sid rs) = settled m (replace_sources resolve sid rs m)
perform resolve m (removing sid id) = (remove sid id m).0
perform resolve m (clearing sid) = clear sid m

unfoldable pub perform_all : (String → String) → Manager → List Call → Manager
unfolding perform
perform_all resolve m [] = m
perform_all resolve m (c ∷ cs) = perform_all resolve (perform resolve m c) cs

perform-IsValid :
    (resolve : String → String) (m : Manager) (c : Call) → IsValid m → IsValid (perform resolve m c)
unfolding perform
perform-IsValid resolve m (adding sid b fresh_id now) v = add-IsValid resolve sid b fresh_id now m v
perform-IsValid resolve m (verifying sid file ds) v =
    update_verification-IsValid resolve sid file ds m v
perform-IsValid resolve m (replacing sid rs) v =
    elim (Result-cases (replace_sources resolve sid rs m)) [
      | inl (e, failed) ↦ rw failed v
      | inr (m', went) ↦ rw went (replace_sources-IsValid resolve sid rs m m' went v)
    ]
perform-IsValid resolve m (removing sid id) v = remove-IsValid sid id m v
perform-IsValid resolve m (clearing sid) v = clear-IsValid sid m v

pub perform_all-IsValid_from :
    (resolve : String → String) (m : Manager) (cs : List Call)
    → IsValid m
    → IsValid (perform_all resolve m cs)
unfolding perform_all
perform_all-IsValid_from resolve m [] v = v
perform_all-IsValid_from resolve m (c ∷ cs) v =
    perform_all-IsValid_from resolve (perform resolve m c) cs (perform-IsValid resolve m c v)

-- After any calls on an empty store, every breakpoint of a session stands under its own id and
-- carries that session, and no id stands twice in a session.
pub perform_all-IsValid :
    (resolve : String → String) (cs : List Call) → IsValid (perform_all resolve empty cs)
unfolding bucket Dict.get
perform_all-IsValid resolve cs =
    perform_all-IsValid_from resolve empty cs (record { tidy = λ sid. bucket_empty sid })
  where
    bucket_empty : (sid : String) → IsTidy sid (bucket empty sid)
    bucket_empty sid = IsTidy-nil sid
