-- ===== src/Tests/Remote.antt =====
-- A provider that stores what it is sent and acknowledges it, or refuses one source.
use break_pilot.Common.{
  ℕ, String, Bool, true, false, Option, none, some, List, [], ◌∷◌, map, ◌≡◌, refl, ap, ◌==◌,
  string_eq, Result, ok, throw, ◌otherwise◌, ◌&&◌, not, arith, Bool-cases, inl, inr, ◌≢◌, ℤ,
}
use break_pilot.Common.Dict
use break_pilot.Common.Dict.{Dict, get-put, get-put_self}
use break_pilot.Breakpoints.{Breakpoint, BreakpointInput, Nullable}
use break_pilot.Breakpoints.Manager
use break_pilot.Breakpoints.Manager.{Manager, empty, list_for_source, bucket}
use break_pilot.Breakpoints.Manager.Invariant.{IsValid}
use break_pilot.Breakpoints.Manager.Calls as ManagerCalls
use break_pilot.Breakpoints.Manager.Calls.{perform_all-IsValid}
use break_pilot.Breakpoints.Evidence as Evidence
use break_pilot.Breakpoints.Evidence.{Reply, Entry, Descriptor, fulfilled, array, plain}
use break_pilot.Breakpoints.Patch.{Patch}
use break_pilot.Breakpoints.Reconciler.{
  World, Failure, rollback_failed, affected_ids, update_locked, update, affected_sources, Updated,
}
use break_pilot.Breakpoints.Reconciler.{ids_of, judge}
use break_pilot.Breakpoints.Reconciler.Temporary
use break_pilot.Breakpoints.Reconciler.Temporary.Cleanup.{
  IsCleaned, with_temporary_breakpoint-IsCleaned,
}
use break_pilot.Breakpoints.Reconciler.Local.{last_wait, update-throw}
use break_pilot.Breakpoints.Reconciler.Remote.{Honest}
use break_pilot.Breakpoints.Reconciler.InStep.{InStep, update_locked-InStep}
use break_pilot.Breakpoints.Reconciler.Restored.{update_locked-restored}

abbrev Remotes : Type 0
Remotes = Dict String (List Breakpoint)

abbrev ack : Breakpoint → Option (Descriptor Entry)
ack b = some (record {
  enumerable = true;
  value = some (
      plain (
        record {
          name = some "verified";
          descriptor = record { enumerable = true; value = some (Evidence.boolean true) };
        }
        ∷ []));
})

unfoldable set_breakpoints :
    Remotes → Manager → String → List Breakpoint → Remotes × Manager × Reply
set_breakpoints p m file bs = (Dict.put file bs p, m, fulfilled (array (map ack bs)))

unfoldable remote : Remotes → String → List Breakpoint
remote p file = Dict.get file p otherwise []

honest : Honest set_breakpoints remote
unfolding set_breakpoints remote
honest = record {
  acked = λ p m file bs rs h. rw (get-put_self file bs p) refl;
  others = λ p m file bs g apart. rw (get-put file g bs p, apart) refl;
}

quiet :
    (p : Remotes) (m : Manager) (file : String) (bs : List Breakpoint)
    → (set_breakpoints p m file bs).1 ≡ m
unfolding set_breakpoints
quiet p m file bs = refl

abbrev same_path : String → String
same_path p = p

abbrev in_order : String → String → Bool
in_order a b = true

abbrev one : Breakpoint
one = record {
  id = "bp1";
  session_id = "s";
  file = "/a";
  line = ℤ.pos 3;
  column = none;
  condition = Nullable.undefined;
  hit_condition = Nullable.undefined;
  log_message = Nullable.undefined;
  enabled = true;
  temporary = false;
  suspend_policy = none;
  is_log_message = none;
  is_log_stack = none;
  owner = "agent";
  verified = false;
  adapter_breakpoint_id = none;
  ide_breakpoint_id = none;
  message = none;
  created_at = "now";
}

abbrev world : World Remotes
world = record {
  provider = ("/a", one ∷ []) ∷ [];
  manager = record { by_session = ("s", ("bp1", one) ∷ []) ∷ [] };
}

abbrev move : Patch
move = record {
  breakpoint_id = "bp1";
  file_path = some "/b";
  line = none;
  column = Nullable.undefined;
  condition = Nullable.undefined;
  hit_condition = Nullable.undefined;
  log_message = Nullable.undefined;
  enabled = none;
  owner = none;
}

abbrev input : BreakpointInput
input = record {
  id = some "bp1";
  file = "/a";
  line = ℤ.pos 3;
  column = none;
  condition = Nullable.undefined;
  hit_condition = Nullable.undefined;
  log_message = Nullable.undefined;
  enabled = none;
  temporary = none;
  suspend_policy = none;
  is_log_message = none;
  is_log_stack = none;
  owner = none;
}

world-IsValid : IsValid world.manager
unfolding ManagerCalls.perform_all Manager.add bucket Dict.get Dict.put
world-IsValid = perform_all-IsValid same_path (ManagerCalls.adding "s" input "bp9" "now" ∷ [])

world-InStep : InStep same_path in_order set_breakpoints remote "s" world
unfolding remote list_for_source bucket Dict.get
world-InStep =
    λ g fixed. elim (Bool-cases ("/a" == g)) [ inl same ↦ rw same refl | inr other ↦ rw other refl ]

abbrev has_failed : Result Failure Updated → Bool
has_failed (ok u) = false
has_failed (throw f) = true

moves_well :
    (ids : List String)
    → (update_locked same_path in_order set_breakpoints world "s" one move
        (affected_sources same_path in_order one move)).1
      ≢ throw (rollback_failed ids)
unfolding update_locked affected_sources set_breakpoints Manager.replace_sources list_for_source
    Manager.get bucket Dict.get Dict.put Dict.keep Dict.has Evidence.normalize_evidence
    Evidence.project_evidence
moves_well ids bad = let e : false ≡ true = ap has_failed bad in absurd (ground (arith, e))

update_locked-InStep_example :
    InStep same_path in_order set_breakpoints remote "s"
      (update_locked same_path in_order set_breakpoints world "s" one move
        (affected_sources same_path in_order one move)).0
unfolding Manager.get bucket Dict.get
update_locked-InStep_example =
    update_locked-InStep same_path in_order (λ p. refl) set_breakpoints remote "s" world one move
      quiet honest world-IsValid refl world-InStep moves_well

abbrev refusing : Remotes → Manager → String → List Breakpoint → Remotes × Manager × Reply
refusing p m file bs = (p, m, Evidence.rejected Evidence.uncoded)

-- In every wait another task has moved the breakpoint to "/c".
abbrev elsewhere : Manager
elsewhere = record { by_session = ("s", ("bp1", record one { file = "/c" }) ∷ []) ∷ [] }

abbrev acquire : World Remotes → List String → World Remotes
acquire w files = record w { manager = elsewhere }

elsewhere-IsValid : IsValid elsewhere
unfolding ManagerCalls.perform_all Manager.add bucket Dict.get Dict.put
elsewhere-IsValid =
    perform_all-IsValid same_path
      (ManagerCalls.adding "s" (record input { file = "/c" }) "bp9" "now" ∷ [])

update-throw_example :
    (update same_path in_order refusing acquire 3 world "s" move).0.manager
    ≡ (last_wait same_path in_order acquire "s" move 3 world).manager
unfolding update affected_sources list_for_source Manager.get bucket Dict.get Dict.put Dict.keep
    affected_ids
update-throw_example =
    update-throw same_path in_order refusing (λ p m file bs. refl) (λ p. refl) acquire 3 world "s"
      move (rollback_failed ("bp1" ∷ [])) (λ v files h. elsewhere-IsValid) world-IsValid refl

abbrev is_empty : List Breakpoint → Bool
is_empty [] = true
is_empty (b ∷ bs) = false

abbrev answer : Bool → Remotes → Manager → String → List Breakpoint → Remotes × Manager × Reply
answer true p m file bs = (p, m, Evidence.rejected Evidence.uncoded)
answer false p m file bs = (Dict.put file bs p, m, fulfilled (array (map ack bs)))

-- "/b" is refused, all else is stored and acknowledged.
unfoldable refusing_b : Remotes → Manager → String → List Breakpoint → Remotes × Manager × Reply
refusing_b p m file bs = answer (file == "/b" && not (is_empty bs)) p m file bs

answer-acked :
    (b : Bool) (p : Remotes) (m : Manager) (file : String) (bs rs : List Breakpoint)
    → judge bs (answer b p m file bs).2 ≡ ok rs
    → remote (answer b p m file bs).0 file ≡ bs
unfolding remote judge
answer-acked true p m file bs rs h = absurd (cc h)
answer-acked false p m file bs rs h = rw (get-put_self file bs p) refl

answer-others :
    (b : Bool) (p : Remotes) (m : Manager) (file : String) (bs : List Breakpoint) (g : String)
    → (file == g) ≡ false
    → remote (answer b p m file bs).0 g ≡ remote p g
unfolding remote
answer-others true p m file bs g apart = refl
answer-others false p m file bs g apart = rw (get-put file g bs p, apart) refl

refusing_b-Honest : Honest refusing_b remote
unfolding refusing_b
refusing_b-Honest = record {
  acked = λ p m file bs. answer-acked (file == "/b" && not (is_empty bs)) p m file bs;
  others = λ p m file bs. answer-others (file == "/b" && not (is_empty bs)) p m file bs;
}

refusing_b_quiet :
    (p : Remotes) (m : Manager) (file : String) (bs : List Breakpoint)
    → (refusing_b p m file bs).1 ≡ m
unfolding refusing_b
refusing_b_quiet p m file bs = go (file == "/b" && not (is_empty bs))
  where
    go : (b : Bool) → (answer b p m file bs).1 ≡ m
    go true = refl
    go false = refl

update_locked-restored_example :
    let v = (update_locked same_path in_order refusing_b world "s" one move ("/a" ∷ "/b" ∷ [])).0 in
    (remote v.provider "/a" ≡ list_for_source same_path v.manager "s" "/a")
    × (v.manager ≡ world.manager)
unfolding update_locked affected_sources refusing_b list_for_source Manager.get bucket Dict.get
    Dict.put Dict.keep Evidence.normalize_evidence Evidence.project_evidence affected_ids
    Evidence.safe_cause_code
update_locked-restored_example =
    update_locked-restored same_path in_order (λ p. refl) refusing_b remote "s" world one move
      ("/a" ∷ "/b" ∷ []) "/a" ("bp1" ∷ []) "PROVIDER_REPLACEMENT_FAILED" refusing_b_quiet
      refusing_b-Honest world-IsValid refl refl refl

abbrev stop_line : Temporary.Request
stop_line = record { file_path = "/a"; line = ℤ.pos 12; column = none }

-- The action reports a stop.
abbrev running : World Remotes → Breakpoint → ℕ → World Remotes × Result Evidence.Thrown ℕ
running w b at = (w, ok at)

abbrev ran : World Remotes × Result Temporary.TemporaryFailure (Temporary.Transaction ℕ)
ran =
    Temporary.with_temporary_breakpoint same_path in_order set_breakpoints (λ p. 3) running true
      (λ w files. w) (λ w. ok tt) world "s" stop_line "t1" "11:00"

with_temporary_breakpoint-IsCleaned_example :
    IsCleaned
      (ids_of (list_for_source same_path world.manager "s" "/a"))
      "t1"
      world.manager
      (ids_of (list_for_source same_path ran.0.manager "s" "/a"))
      ran.0.manager
      ran.1
unfolding set_breakpoints
with_temporary_breakpoint-IsCleaned_example =
    with_temporary_breakpoint-IsCleaned same_path (λ p. refl) in_order set_breakpoints (λ p. 3)
      running (λ p m file bs v. v) (λ w b at v. v) (λ w files. w) (λ w. ok tt) world "s" stop_line
      "t1" "11:00" world-IsValid
