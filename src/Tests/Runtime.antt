-- ===== src/Tests/Runtime.antt =====
-- The handles, the leases and the locks at small inputs.
use break_pilot.Common.{
  ◌-◌, String, true, none, some, List, [], ◌∷◌, ◌≡◌, refl, if◌then◌else◌, nat_eq, string_eq, ltb,
  throw, ℤ, suc,
}
use break_pilot.Common.Dict
use break_pilot.Handles
use break_pilot.Handles.Pauses.{IsValid as IsPauseValid}
use break_pilot.Handles.Staleness
use break_pilot.Handles.Staleness.{resolve-perform_all}
use break_pilot.Leases
use break_pilot.Leases.Shutdown
use break_pilot.Leases.Shutdown.{perform_all-IsIdle, sweep_expired-shutdown}
use break_pilot.Sessions
use break_pilot.Sessions.Locks
use break_pilot.Sessions.Locks.{begin_execution-running}

abbrev target : String → Handles.Target
target name = record {
  provider_ref = none;
  parent_ref = some (Handles.number (ℤ.pos 7));
  name = name;
  path = none;
  modifiable = none;
  mutation_mode = none;
}

abbrev paused : Handles.SessionHandles
paused = Handles.turned (some 1) Handles.new_session

abbrev registering_calls : List Staleness.Call
registering_calls = Staleness.beginning "s" 1 ∷ Staleness.registering "s" 1 (target "x") ∷ []

abbrev later_calls : List Staleness.Call
later_calls = Staleness.beginning "s" 2 ∷ Staleness.registering "s" 2 (target "y") ∷ []

resolve-perform_all_example :
    Handles.resolve "s" 2
      (Handles.numbered 1)
      (Staleness.perform_all (Staleness.perform_all [] registering_calls) later_calls)
    ≡ throw (Handles.stale (some (Handles.numbered 1)) (some 1) 2)
unfolding Staleness.perform_all Staleness.issue Handles.begin_pause Handles.register Dict.get
    Dict.put
resolve-perform_all_example =
    resolve-perform_all registering_calls later_calls "s" (Handles.numbered 1) 2 1 refl refl

abbrev client : Leases.Payload
client = record { client_id = some "c"; kind = some "mcp"; pid = none }

abbrev lease_calls : List Shutdown.Call
lease_calls =
    Shutdown.acquiring 100 "t" "made" client
    ∷ Shutdown.beating 9000 client
    ∷ Shutdown.ticking 30000
    ∷ Shutdown.firing
    ∷ []

perform_all-IsIdle_example :
    Shutdown.IsIdle (Shutdown.perform_all (Leases.create Leases.managed none none) lease_calls)
perform_all-IsIdle_example = perform_all-IsIdle Leases.managed none none lease_calls

abbrev new_leases : Leases.LeaseManager
new_leases = Leases.create Leases.managed none none

sweep_expired-shutdown_example :
    let after = Leases.sweep_expired 30000 true new_leases in
    (after.shutdown_pending ≡ Leases.is_empty after.leases)
    × ((c : String) (l : Leases.Lease)
        → Dict.get c new_leases.leases ≡ some l
        → Dict.get c after.leases
          ≡ (if ltb new_leases.ttl_ms (30000 - l.last_heartbeat_at) then none else some l))
    × ((Shutdown.perform after Shutdown.firing).inactive_calls ≡ (
        if Leases.is_empty after.leases
        then suc new_leases.inactive_calls
        else new_leases.inactive_calls))
unfolding Leases.create Shutdown.perform_all
sweep_expired-shutdown_example =
    sweep_expired-shutdown new_leases 30000 refl (perform_all-IsIdle Leases.managed none none [])

abbrev lock_calls : List Locks.Call
lock_calls = Locks.beginning "s" "continue" ∷ Locks.beginning "s" "step" ∷ []

begin_execution-running_example :
    Locks.forget (Sessions.begin_execution "s" "pause" (Locks.perform_all [] lock_calls))
    ≡ Locks.answer "pause" (Locks.running "s" none lock_calls)
begin_execution-running_example = begin_execution-running lock_calls "s" "pause"
