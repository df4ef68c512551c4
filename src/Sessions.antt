-- ===== src/Sessions.antt =====
-- src/sessions/SessionStore.ts and src/sessions/SessionCoordinator.ts: the sessions by their
-- identifiers, who may control one, and the lock on execution. `C` stands for the capabilities
-- of a runtime provider, which are passed on as they are.
pub mod Locks
use break_pilot.Common.{
  String, Bool, true, false, Option, none, some, List, [], ◌∷◌, map, ◌==◌, string_eq, if◌then◌else◌,
  ◌otherwise◌, Result, ok, throw,
}
use break_pilot.Common.Dict
use break_pilot.Common.Dict.{Dict}

pub record Session (C : Type 0) : Type 0 where
  pub session_id : String
  pub language : String
  pub mode : String
  pub owner : String
  pub state : String
  pub created_at : String
  pub workspace_root : String
  pub provider_kind : String
  pub provider_capabilities : C
  pub ide_client_id : Option String
  pub ide_session_id : Option String

-- `SessionSummary`
pub record Summary (C : Type 0) : Type 0 where
  pub session_id : String
  pub language : String
  pub mode : String
  pub owner : String
  pub state : String
  pub created_at : String
  pub workspace_root : String
  pub provider_kind : String
  pub ide_client_id : Option String
  pub ide_session_id : Option String
  pub capabilities : C

abbrev pub Store : Type 0 → Type 0
Store C = Dict String (Session C)

pub data SessionError : Type 0 where
  session_not_found : String → SessionError
  owner_conflict : String → String → String → SessionError
  execution_active : String → Option String → SessionError

module _ {C : Type 0} where
  -- `SessionStore.add`
  unfoldable pub add : Session C → Store C → Store C
  add s store = Dict.put s.session_id s store

  abbrev pub or_not_found : String → Option (Session C) → Result SessionError (Session C)
  or_not_found sid none = throw (session_not_found sid)
  or_not_found sid (some s) = ok s

  -- `SessionStore.maybeGet`
  unfoldable pub maybe_get : String → Store C → Option (Session C)
  maybe_get sid store = Dict.get sid store

  -- `SessionStore.get`
  unfoldable pub get : String → Store C → Result SessionError (Session C)
  unfolding maybe_get
  get sid store = or_not_found sid (maybe_get sid store)

  -- `SessionStore.remove`
  unfoldable pub remove : String → Store C → Store C × Bool
  remove sid store = (Dict.remove sid store, Dict.has sid store)

  unfoldable pub summary : Session C → Summary C
  summary s = record {
    session_id = s.session_id;
    language = s.language;
    mode = s.mode;
    owner = s.owner;
    state = s.state;
    created_at = s.created_at;
    workspace_root = s.workspace_root;
    provider_kind = s.provider_kind;
    ide_client_id = s.ide_client_id;
    ide_session_id = s.ide_session_id;
    capabilities = s.provider_capabilities;
  }

  -- `SessionStore.list`
  unfoldable pub list : Store C → List (Summary C)
  list store = map summary (Dict.values store)

  -- `SessionCoordinator.assertCanControl`
  unfoldable pub assert_can_control :
      Session C → Option String → Option String → Result SessionError Unit
  assert_can_control s requester operation =
      let asking = requester otherwise "mcp" in
      if s.owner == "hybrid"
      then ok tt
      else if s.owner == asking
      then ok tt
      else throw (owner_conflict s.owner asking (operation otherwise "control"))

-- `executionLocks`: the operation that runs, by session.
abbrev pub Locks : Type 0
Locks = Dict String String

-- `SessionCoordinator.beginExecution`
unfoldable pub begin_execution : String → String → Locks → Result SessionError Locks
begin_execution sid operation locks =
    if Dict.has sid locks
    then throw (execution_active operation (Dict.get sid locks))
    else ok (Dict.put sid operation locks)

-- `SessionCoordinator.endExecution`
unfoldable pub end_execution : String → Locks → Locks
end_execution sid locks = Dict.remove sid locks
