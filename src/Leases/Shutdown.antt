-- ===== src/Leases/Shutdown.antt =====
-- src/http/ClientLeaseManager.ts: a daemon waits for its shutdown only while it has no client.
use break_pilot.Common.{
  ℕ, suc, ◌-◌, String, Bool, true, false, not, Option, none, some, List, [], ◌∷◌, ◌≡◌, refl, ap,
  ◌∙◌, ◌==◌, string_eq, if◌then◌else◌, ltb, Bool-cases, inl, inr, arith, ◌&&◌, ◌||◌, ◌otherwise◌,
}
use break_pilot.Common.Dict
use break_pilot.Common.Dict.{
  Dict, IsDistinct, keep-IsDistinct, put-IsDistinct, remove-IsDistinct, get-keep,
}
use break_pilot.Leases.{
  Lifecycle, managed, is_managed, Payload, Lease, LeaseManager, create, is_empty, is_live, swept,
  sweep_expired, schedule_inactive_shutdown_if_needed, shutdown_fires, status, acquire, heartbeat,
  release, stop, beaten, dropped, or_text, cancel_inactive_shutdown,
}

-- What happens to a manager. The timer of the shutdown fires only if it is set.
pub data Call : Type 0 where
  acquiring : ℕ → String → String → Payload → Call
  beating : ℕ → Payload → Call
  releasing : ℕ → Payload → Call
  ticking : ℕ → Call
  firing : Call
  stopping : Call

unfoldable pub perform : LeaseManager → Call → LeaseManager
perform m (acquiring now text made payload) = (acquire now text made payload m).0
perform m (beating now payload) = (heartbeat now payload m).0
perform m (releasing now payload) = (release now payload m).0
perform m (ticking now) = sweep_expired now true m
perform m firing = if m.shutdown_pending then shutdown_fires m else m
perform m stopping = stop m

unfoldable pub perform_all : LeaseManager → List Call → LeaseManager
unfolding perform
perform_all m [] = m
perform_all m (c ∷ cs) = perform_all (perform m c) cs

-- No client is listed twice, and while the shutdown is pending no client has a lease.
pub record IsIdle (m : LeaseManager) : Type 0 where
  pub distinct : IsDistinct m.leases
  pub waiting : m.shutdown_pending ≡ true → m.leases ≡ []

emptied : (ls : Dict String Lease) → is_empty ls ≡ true → ls ≡ []
emptied [] h = refl
emptied (l ∷ ls) h = absurd (ground (arith, h))

swept-IsIdle : (now : ℕ) (m : LeaseManager) → IsIdle m → IsIdle (swept now m)
unfolding Dict.keep
swept-IsIdle now m v = record {
  distinct = keep-IsDistinct (is_live now m.ttl_ms) m.leases v.distinct;
  waiting = λ h. rw (v.waiting h) refl;
}

schedule-IsIdle : (m : LeaseManager) → IsIdle m → IsIdle (schedule_inactive_shutdown_if_needed m)
unfolding schedule_inactive_shutdown_if_needed
schedule-IsIdle m v = elim (Bool-cases (is_managed m.lifecycle && is_empty m.leases)) [
  | inl due ↦
      let no_lease : m.leases ≡ [] = emptied m.leases (ground (arith, due)) in
      rw due record { distinct = v.distinct; waiting = λ h. no_lease }
  | inr not_due ↦ rw not_due v
]

sweep_expired-IsIdle :
    (now : ℕ) (schedule : Bool) (m : LeaseManager)
    → IsIdle m
    → IsIdle (sweep_expired now schedule m)
unfolding sweep_expired
sweep_expired-IsIdle now true m v = schedule-IsIdle (swept now m) (swept-IsIdle now m v)
sweep_expired-IsIdle now false m v = swept-IsIdle now m v

beaten-IsIdle :
    (now : ℕ) (client : String) (l : Option Lease) (m : LeaseManager)
    → Dict.get client m.leases ≡ l
    → IsIdle m
    → IsIdle (beaten now client l m)
unfolding Dict.get
beaten-IsIdle now client none m e v = v
beaten-IsIdle now client (some l) m e v = record {
  distinct = put-IsDistinct client (record l { last_heartbeat_at = now }) m.leases v.distinct;
  waiting =
      λ h. let fails : none ≡ some l = rw (v.waiting h) at e in absurd (ground (arith, fails));
}

dropped-IsIdle : (client : Option String) (m : LeaseManager) → IsIdle m → IsIdle (dropped client m)
unfolding Dict.remove
dropped-IsIdle none m v = v
dropped-IsIdle (some client) m v = elim (Bool-cases (client == "")) [
  | inl blank ↦ rw blank v
  | inr named ↦ rw named record {
    distinct = remove-IsDistinct client m.leases v.distinct;
    waiting = λ h. rw (v.waiting h) refl;
  }
]

abbrev leased : String → Lease → LeaseManager → LeaseManager
leased client lease m = record (cancel_inactive_shutdown m) {
  leases = Dict.put client lease m.leases;
}

leased-IsIdle :
    (client : String) (lease : Lease) (m : LeaseManager) → IsIdle m → IsIdle (leased client lease m)
leased-IsIdle client lease m v = record {
  distinct = put-IsDistinct client lease m.leases v.distinct;
  waiting = λ h. absurd (ground (arith, h));
}

shutdown_fires-IsIdle : (m : LeaseManager) → IsIdle m → IsIdle (shutdown_fires m)
unfolding shutdown_fires
shutdown_fires-IsIdle m v = elim (Bool-cases (is_empty m.leases)) [
  | inl none_left ↦
      rw none_left record { distinct = v.distinct; waiting = λ h. absurd (ground (arith, h)) }
  | inr some_left ↦
      rw some_left record { distinct = v.distinct; waiting = λ h. absurd (ground (arith, h)) }
]

either-IsIdle :
    (b : Bool) (m m' : LeaseManager) → IsIdle m → IsIdle m' → IsIdle (if b then m else m')
either-IsIdle true m m' v v' = v
either-IsIdle false m m' v v' = v'

perform-IsIdle : (m : LeaseManager) (c : Call) → IsIdle m → IsIdle (perform m c)
unfolding perform acquire heartbeat release stop status shutdown_fires
perform-IsIdle m (acquiring now text made payload) v =
    let client : String = or_text payload.client_id made in
    let kind : String = payload.kind otherwise "unknown" in
    let lease : Lease = record {
      client_id = client;
      kind = kind;
      pid = payload.pid;
      acquired_at = text;
      last_heartbeat_at = now;
    } in
    swept-IsIdle now (leased client lease m) (leased-IsIdle client lease m v)
perform-IsIdle m (beating now payload) v =
    let client : String = or_text payload.client_id "" in
    elim (Bool-cases (client == "" || not (Dict.has client m.leases))) [
      | inl refused ↦ rw (perform, heartbeat, refused) (sweep_expired-IsIdle now false m v)
      | inr known ↦
          rw (perform, heartbeat, known)
            (sweep_expired-IsIdle now false (beaten now client (Dict.get client m.leases) m)
              (beaten-IsIdle now client (Dict.get client m.leases) m refl v))
    ]
perform-IsIdle m (releasing now payload) v =
    sweep_expired-IsIdle now false
      (schedule_inactive_shutdown_if_needed (dropped payload.client_id m))
      (schedule-IsIdle (dropped payload.client_id m) (dropped-IsIdle payload.client_id m v))
perform-IsIdle m (ticking now) v = sweep_expired-IsIdle now true m v
perform-IsIdle m firing v =
    either-IsIdle m.shutdown_pending (shutdown_fires m) m (shutdown_fires-IsIdle m v) v
perform-IsIdle m stopping v = record { distinct = tt; waiting = λ h. refl }

perform_all-IsIdle_from : (m : LeaseManager) (cs : List Call) → IsIdle m → IsIdle (perform_all m cs)
unfolding perform_all
perform_all-IsIdle_from m [] v = v
perform_all-IsIdle_from m (c ∷ cs) v =
    perform_all-IsIdle_from (perform m c) cs (perform-IsIdle m c v)

create-IsIdle : (l : Lifecycle) (ttl grace : Option ℕ) → IsIdle (create l ttl grace)
unfolding create
create-IsIdle l ttl grace = record { distinct = tt; waiting = λ h. refl }

-- After any calls and timer events on a new manager, no client is listed twice, and while the
-- shutdown is pending no client has a lease.
pub perform_all-IsIdle :
    (l : Lifecycle) (ttl grace : Option ℕ) (cs : List Call)
    → IsIdle (perform_all (create l ttl grace) cs)
perform_all-IsIdle l ttl grace cs =
    perform_all-IsIdle_from (create l ttl grace) cs (create-IsIdle l ttl grace)

kept_or_not :
    (b : Bool) (l : Lease) → (if not b then some l else none) ≡ (if b then none else some l)
kept_or_not true l = refl
kept_or_not false l = refl

-- The next call of the timer tells the daemon that it is inactive if it has no lease.
schedule_lem :
    (m : LeaseManager)
    → m.lifecycle ≡ managed
    → IsIdle m
    → let after = schedule_inactive_shutdown_if_needed m in
      (after.shutdown_pending ≡ is_empty after.leases)
      × (after.leases ≡ m.leases)
      × ((perform after firing).inactive_calls
          ≡ (if is_empty after.leases then suc m.inactive_calls else m.inactive_calls))
unfolding schedule_inactive_shutdown_if_needed perform shutdown_fires
schedule_lem m is_man v = elim (Bool-cases (is_empty m.leases)) [
  | inl none_left ↦ rw (is_man, none_left) (rw none_left (refl, refl, refl))
  | inr some_left ↦ elim (Bool-cases m.shutdown_pending) [
    | inl pending ↦
        let fails : true ≡ false = rw (v.waiting pending) at some_left in
        absurd (ground (arith, fails))
    | inr quiet ↦ rw (is_man, some_left, quiet) (rw some_left (refl, refl, refl))
  ]
]

-- For a managed daemon that is idle in the sense of `IsIdle`, a sweep of the timer leaves the
-- shutdown pending exactly when it leaves no lease; a client keeps its lease if its last
-- heartbeat is at most the time to live back, and loses it otherwise; and when the timer of the
-- shutdown fires after that sweep, the daemon is told that it is inactive exactly when no lease
-- is left.
pub sweep_expired-shutdown :
    (m : LeaseManager) (now : ℕ)
    → m.lifecycle ≡ managed
    → IsIdle m
    → let after = sweep_expired now true m in
      (after.shutdown_pending ≡ is_empty after.leases)
      × ((client : String) (l : Lease)
          → Dict.get client m.leases ≡ some l
          → Dict.get client after.leases
            ≡ (if ltb m.ttl_ms (now - l.last_heartbeat_at) then none else some l))
      × ((perform after firing).inactive_calls
          ≡ (if is_empty after.leases then suc m.inactive_calls else m.inactive_calls))
unfolding sweep_expired
sweep_expired-shutdown m now is_man v =
    let swept_now : LeaseManager = swept now m in
    let facts = schedule_lem swept_now is_man (swept-IsIdle now m v) in
    (
      facts.0,
      (λ client l there.
          ap (Dict.get client) facts.1
          ∙ get-keep (is_live now m.ttl_ms) client l m.leases v.distinct there
          ∙ kept_or_not (ltb m.ttl_ms (now - l.last_heartbeat_at)) l),
      facts.2,
    )
