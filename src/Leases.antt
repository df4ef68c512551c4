-- ===== src/Leases.antt =====
-- src/http/ClientLeaseManager.ts: the leases of a daemon's clients, and its shutdown when there
-- are none left. The time is an argument, in milliseconds; a timer is whether it is set.
pub mod Shutdown
use break_pilot.Common.{
  ℕ, suc, ◌-◌, String, Bool, true, false, not, Option, none, some, List, [], ◌∷◌, ◌==◌, string_eq,
  if◌then◌else◌, ltb, leb, length, ◌otherwise◌, ◌&&◌, ◌||◌, Result, ok, throw,
}
use break_pilot.Common.Dict
use break_pilot.Common.Dict.{Dict}

pub data Lifecycle : Type 0 where
  managed persistent : Lifecycle

abbrev pub is_managed : Lifecycle → Bool
is_managed managed = true
is_managed persistent = false

-- `ClientLeasePayload`
pub record Payload : Type 0 where
  pub client_id : Option String
  pub kind : Option String
  pub pid : Option ℕ

-- `ClientLease`
pub record Lease : Type 0 where
  pub client_id : String
  pub kind : String
  pub pid : Option ℕ
  pub acquired_at : String
  pub last_heartbeat_at : ℕ

-- `inactive_calls` counts the calls of `onInactive`.
pub record LeaseManager : Type 0 where
  pub lifecycle : Lifecycle
  pub ttl_ms : ℕ
  pub shutdown_grace_ms : ℕ
  pub leases : Dict String Lease
  pub sweeping : Bool
  pub shutdown_pending : Bool
  pub inactive_calls : ℕ

-- The constructor.
unfoldable pub create : Lifecycle → Option ℕ → Option ℕ → LeaseManager
create lifecycle ttl_ms grace_ms = record {
  lifecycle = lifecycle;
  ttl_ms = ttl_ms otherwise 15000;
  shutdown_grace_ms = grace_ms otherwise 2000;
  leases = [];
  sweeping = true;
  shutdown_pending = false;
  inactive_calls = 0;
}

-- What `status` returns.
pub record Status : Type 0 where
  pub client_id : Option String
  pub lifecycle : Lifecycle
  pub active_clients : ℕ
  pub ttl_ms : ℕ

-- `cancelInactiveShutdown`
abbrev pub cancel_inactive_shutdown : LeaseManager → LeaseManager
cancel_inactive_shutdown m = record m { shutdown_pending = false }

abbrev pub is_empty : Dict String Lease → Bool
is_empty [] = true
is_empty (e ∷ es) = false

-- `scheduleInactiveShutdownIfNeeded`
unfoldable pub schedule_inactive_shutdown_if_needed : LeaseManager → LeaseManager
schedule_inactive_shutdown_if_needed m =
    if is_managed m.lifecycle && is_empty m.leases then record m { shutdown_pending = true } else m

-- The callback of the shutdown timer.
unfoldable pub shutdown_fires : LeaseManager → LeaseManager
shutdown_fires m =
    let fired = record m { shutdown_pending = false } in
    if is_empty m.leases then record fired { inactive_calls = suc m.inactive_calls } else fired

abbrev pub is_live : ℕ → ℕ → String → Lease → Bool
is_live now ttl client lease = not (ltb ttl (now - lease.last_heartbeat_at))

abbrev pub swept : ℕ → LeaseManager → LeaseManager
swept now m = record m { leases = Dict.keep (is_live now m.ttl_ms) m.leases }

-- `sweepExpired`
unfoldable pub sweep_expired : ℕ → Bool → LeaseManager → LeaseManager
unfolding schedule_inactive_shutdown_if_needed
sweep_expired now schedule m =
    if schedule then schedule_inactive_shutdown_if_needed (swept now m) else swept now m

-- `activeCount`
abbrev pub active_count : ℕ → LeaseManager → LeaseManager × ℕ
active_count now m = let m' = sweep_expired now false m in (m', length m'.leases)

-- `status`
unfoldable pub status : ℕ → Option String → LeaseManager → LeaseManager × Status
unfolding sweep_expired
status now client m =
    let counted = active_count now m in
    (
      counted.0,
      record {
        client_id = client;
        lifecycle = m.lifecycle;
        active_clients = counted.1;
        ttl_ms = m.ttl_ms;
      },
    )

-- `a || b` on a text that may be undefined.
abbrev pub or_text : Option String → String → String
or_text none other = other
or_text (some s) other = if s == "" then other else s

-- `acquire`; `made` is the identifier made from the time.
unfoldable pub acquire : ℕ → String → String → Payload → LeaseManager → LeaseManager × Status
unfolding status
acquire now now_text made payload m =
    let client = or_text payload.client_id made in
    let lease : Lease = record {
      client_id = client;
      kind = payload.kind otherwise "unknown";
      pid = payload.pid;
      acquired_at = now_text;
      last_heartbeat_at = now;
    } in
    let kept = cancel_inactive_shutdown m in
    status now (some client) (record kept { leases = Dict.put client lease kept.leases })

abbrev pub beaten : ℕ → String → Option Lease → LeaseManager → LeaseManager
beaten now client none m = m
beaten now client (some lease) m = record m {
  leases = Dict.put client (record lease { last_heartbeat_at = now }) m.leases;
}

-- `heartbeat`; an unknown client gets the number of the active ones.
unfoldable pub heartbeat : ℕ → Payload → LeaseManager → LeaseManager × Result ℕ Status
unfolding status
heartbeat now payload m =
    let client = or_text payload.client_id "" in
    if client == "" || not (Dict.has client m.leases)
    then (let counted = active_count now m in (counted.0, throw counted.1))
    else (let answered =
          status now (some client) (beaten now client (Dict.get client m.leases) m) in
        (answered.0, ok answered.1))

abbrev pub dropped : Option String → LeaseManager → LeaseManager
dropped none m = m
dropped (some client) m =
    if client == "" then m else record m { leases = Dict.remove client m.leases }

-- `release`
unfoldable pub release : ℕ → Payload → LeaseManager → LeaseManager × Status
unfolding status
release now payload m =
    status now payload.client_id
      (schedule_inactive_shutdown_if_needed (dropped payload.client_id m))

-- `stop`
unfoldable pub stop : LeaseManager → LeaseManager
stop m = record (cancel_inactive_shutdown m) { leases = []; sweeping = false }
