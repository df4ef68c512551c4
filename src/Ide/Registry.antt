-- ===== src/Ide/Registry.antt =====
-- src/ide/IdeClientRegistry.ts: the clients of the IDE bridge, their debug sessions, and the
-- revision and the pause epoch of each session. Sockets and identifiers that are made are arguments.
use break_pilot.Common.{
  ℕ, String, Bool, true, not, Option, none, some, List, [], ◌∷◌, ◌==◌, nat_eq, string_eq, option_eq,
  option_beq, if◌then◌else◌, ◌&&◌, ◌||◌, ◌otherwise◌, or_else, Number, find_by, filter_by,
}
use break_pilot.Common.Dict.{Dict, get, put, remove, keep, values, is_some}
use break_pilot.Ide.{Features, Protocol, valid_version, negotiate_debugger_features}
use break_pilot.Ide.Records.{
  Client, Session, Registry, Patch, FeatureValue, feature_map, nonempty, session_key,
  stored_version,
}

-- The keys of the sessions of a client.
abbrev pub keys_of : {J : Type 0} → String → Dict String (Session J) → List String
keys_of client_id [] = []
keys_of client_id ((k, s) ∷ m) =
    let rest = keys_of client_id m in if s.client_id == client_id then k ∷ rest else rest

unfoldable pub remove_keys : {V : Type 0} → List String → Dict String V → Dict String V
unfolding remove
remove_keys [] m = m
remove_keys (k ∷ ks) m = remove_keys ks (remove k m)

-- The version of a patch is taken only if it is valid and the client has none.
abbrev pub patched_version : Option Number → Option Number → Option Number
patched_version current incoming =
    if is_some (valid_version current) || not (is_some (valid_version incoming))
    then current
    else stored_version (valid_version incoming)

abbrev pub patched_features : Option Features → Option FeatureValue → Option Features
patched_features current (some (feature_map features)) = some features
patched_features current _ = current

-- A filter that is absent or empty lets everything through.
abbrev pub passes : Option String → Option String → Bool
passes filter value = elim (nonempty filter) [ none ↦ true | some f ↦ option_beq value (some f) ]

module _ {J : Type 0} where
  -- `#removeClientSessions`
  unfoldable pub remove_client_sessions : String → Registry J → Registry J
  unfolding keep remove_keys
  remove_client_sessions client_id r =
      let gone = keys_of client_id r.sessions in
      record r {
        sessions = keep (λ k s. not (s.client_id == client_id)) r.sessions;
        session_revisions = remove_keys gone r.session_revisions;
        pause_epochs = remove_keys gone r.pause_epochs;
      }

  -- `add`, with the identifier that is given or made.
  unfoldable pub add :
      String
      → Option String
      → Option String
      → Option J
      → Protocol
      → String
      → Registry J
      → Registry J
  unfolding remove_client_sessions put
  add client_id ide workspace_root capabilities protocol now r =
      let cleared = remove_client_sessions client_id r in
      record cleared {
        clients =
            put client_id
              (record {
                client_id = client_id;
                ide = some (ide otherwise "unknown");
                workspace_root = workspace_root;
                capabilities = capabilities;
                protocol = record {
                  version = stored_version (valid_version protocol.version);
                  features = protocol.features;
                };
                connected_at = now;
                last_heartbeat_at = now;
              })
              cleared.clients;
      }

  -- `remove`
  unfoldable pub remove_client : String → Registry J → Registry J
  unfolding remove_client_sessions remove
  remove_client client_id r =
      remove_client_sessions client_id (record r { clients = remove client_id r.clients })

  abbrev pub patched : Patch J → Client J → Client J
  patched p c = record c {
    ide = p.ide otherwise c.ide;
    workspace_root = p.workspace_root otherwise c.workspace_root;
    capabilities = p.capabilities otherwise c.capabilities;
    protocol = record {
      version = patched_version c.protocol.version p.version;
      features = patched_features c.protocol.features p.features;
    };
    last_heartbeat_at = p.last_heartbeat_at otherwise c.last_heartbeat_at;
  }

  -- `#refreshNegotiatedFeatures`
  abbrev pub refreshed : String → Client J → Session J → Session J
  refreshed client_id c s =
      if s.client_id == client_id
      then record s { negotiated = negotiate_debugger_features c.protocol s.protocol }
      else s

  unfoldable pub refresh_negotiated_features :
      String → Client J → Dict String (Session J) → Dict String (Session J)
  unfolding negotiate_debugger_features
  refresh_negotiated_features client_id c [] = []
  refresh_negotiated_features client_id c ((k, s) ∷ m) =
      (k, refreshed client_id c s) ∷ refresh_negotiated_features client_id c m

  abbrev pub update_client : String → Patch J → Option (Client J) → Registry J → Registry J
  update_client client_id p none r = r
  update_client client_id p (some c) r = record r {
    clients = put client_id (patched p c) r.clients;
    sessions = refresh_negotiated_features client_id (patched p c) r.sessions;
  }

  -- `update`
  unfoldable pub update : Option String → Patch J → Registry J → Registry J
  unfolding put get refresh_negotiated_features
  update client_id p r = elim (nonempty client_id) [
    | none ↦ r
    | some cid ↦ update_client cid p (get cid r.clients) r
  ]

  -- `removeSession`
  unfoldable pub remove_session : Option String → Option String → Registry J → Registry J
  unfolding remove
  remove_session client_id ide_session_id r = elim (nonempty client_id) [
    | none ↦ r
    | some cid ↦ elim (nonempty ide_session_id) [
      | none ↦ r
      | some sid ↦ record r {
        sessions = remove (session_key cid sid) r.sessions;
        session_revisions = remove (session_key cid sid) r.session_revisions;
        pause_epochs = remove (session_key cid sid) r.pause_epochs;
      }
    ]
  ]

  -- `findSession`, for any client or for one.
  abbrev pub find_session : String → Option String → Registry J → Option (Session J)
  find_session sid client_id r = elim (nonempty client_id) [
    | some cid ↦ get (session_key cid sid) r.sessions
    | none ↦ find_by (λ s. s.ide_session_id == sid) (values r.sessions)
  ]

  abbrev pub revision_of : Option (Session J) → String → Registry J → ℕ
  revision_of none sid r = 0
  revision_of (some s) sid r = get (session_key s.client_id sid) r.session_revisions otherwise 0

  -- `getSessionRevision`
  unfoldable pub get_session_revision : Option String → Option String → Registry J → ℕ
  unfolding get
  get_session_revision ide_session_id client_id r = elim (nonempty ide_session_id) [
    | none ↦ 0
    | some sid ↦ elim (nonempty client_id) [
      | some cid ↦ get (session_key cid sid) r.session_revisions otherwise 0
      | none ↦ revision_of (find_session sid none r) sid r
    ]
  ]

  -- `getPauseEpoch`
  unfoldable pub get_pause_epoch : Option String → Option String → Registry J → Option ℕ
  unfolding get
  get_pause_epoch client_id ide_session_id r = elim (nonempty client_id) [
    | none ↦ none
    | some cid ↦ elim (nonempty ide_session_id) [
      | none ↦ none
      | some sid ↦ get (session_key cid sid) r.pause_epochs
    ]
  ]

  -- `listSessions`
  unfoldable pub list_sessions : Option String → Option String → Registry J → List (Session J)
  list_sessions client_id workspace_root r =
      filter_by (λ s. passes client_id (some s.client_id) && passes workspace_root s.workspace_root)
        (values r.sessions)

  abbrev pub first_of : List (Client J) → Option (Client J)
  first_of [] = none
  first_of (c ∷ cs) = some c

  abbrev pub client_of_session : Option String → Registry J → Option (Client J)
  client_of_session ide_session_id r = elim (nonempty ide_session_id) [
    | none ↦ none
    | some sid ↦ elim (find_session sid none r) [
      | none ↦ get "" r.clients
      | some s ↦ get s.client_id r.clients
    ]
  ]

  -- `findPrimaryClient`
  unfoldable pub find_primary_client :
      Option String → Option String → Registry J → Option (Client J)
  unfolding get
  find_primary_client workspace_root ide_session_id r =
      let clients = values r.clients in
      or_else (client_of_session ide_session_id r) (elim (nonempty workspace_root) [
        | none ↦ first_of clients
        | some root ↦
            or_else (find_by (λ c. option_beq c.workspace_root (some root)) clients)
              (first_of clients)
      ])
