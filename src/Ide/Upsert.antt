-- ===== src/Ide/Upsert.antt =====
-- src/ide/IdeClientRegistry.ts: `upsertSession`, which checks the protocol version and the pause
-- epoch of a message before it stores a session.
use break_pilot.Common.{
  ℕ, ◌+◌, String, Bool, true, false, not, Option, none, some, ◌==◌, nat_eq, string_eq, option_eq,
  option_beq, if◌then◌else◌, leb, ◌&&◌, ◌||◌, ◌otherwise◌, or_else, Number, is_finite, all_of,
}
use break_pilot.Common.Dict.{Dict, get, put, is_some}
use break_pilot.Dap.Wire.{codes, is_space}
use break_pilot.Ide.{
  Protocol, valid_version, session_version, is_debugger_protocol_v2, negotiate_debugger_features,
  merge_debugger_features,
}
use break_pilot.Ide.Records.{
  Scalar, text, number, boolean, Frame, fields, Stop, BridgeMessage, Client, Session, Registry,
  nonempty, session_key, stored_version,
}

-- `trim().length > 0`
abbrev pub is_blank : String → Bool
is_blank t = all_of is_space (codes t)

abbrev pub says : Option Scalar → Bool
says (some (text t)) = not (is_blank t)
says _ = false

abbrev pub names_thread : Option Scalar → Bool
names_thread (some (number n)) = is_finite n
names_thread (some (text t)) = not (is_blank t)
names_thread _ = false

abbrev pub is_boolean : Option Scalar → Bool
is_boolean (some (boolean b)) = true
is_boolean _ = false

-- The epoch of the message, in version 2, is there if the session pauses or has had an epoch,
-- and is above the one it has had.
abbrev pub is_later : Option ℕ → Option ℕ → Bool
is_later none incoming = true
is_later (some e) none = false
is_later (some e) (some n) = not (leb n e)

abbrev pub epoch_fits : Bool → String → Option ℕ → Option ℕ → Bool
epoch_fits v2 state existing incoming =
    not (v2 && state == "paused" && not (is_some incoming))
    && not (v2 && not (is_later existing incoming))

abbrev pub recorded : Bool → Option ℕ → String → Dict String ℕ → Dict String ℕ
recorded true (some n) key m = put key n m
recorded _ _ key m = m

module _ {J : Type 0} where
  -- `#meaningfulFrame`
  abbrev pub meaningful_frame : Option (Frame J) → Option (Frame J)
  meaningful_frame (some (fields true f)) = some (fields true f)
  meaningful_frame _ = none

  abbrev pub no_stop : Stop J
  no_stop = record {
    reason = none;
    thread_id = none;
    description = none;
    all_threads_stopped = none;
    top_frame = none;
  }

  -- `#stopDetails`
  unfoldable pub stop_details : BridgeMessage J → Option (Stop J)
  stop_details m =
      let raw = m.stopped otherwise no_stop in
      let details : Stop J = record {
        reason = or_else m.stop.reason raw.reason;
        thread_id = or_else m.stop.thread_id raw.thread_id;
        description = or_else m.stop.description raw.description;
        all_threads_stopped = or_else m.stop.all_threads_stopped raw.all_threads_stopped;
        top_frame = meaningful_frame (or_else m.stop.top_frame raw.top_frame);
      } in
      if says details.reason
        || says details.description
        || names_thread details.thread_id
        || is_some details.top_frame
        || is_boolean details.all_threads_stopped
      then some details
      else none

  -- `#mergeProtocol`
  abbrev pub merge_protocol : Option (Session J) → Protocol → Protocol
  merge_protocol none m = record {
    version = stored_version (valid_version m.version);
    features = merge_debugger_features none m.features;
  }
  merge_protocol (some s) m = record {
    version = s.protocol.version;
    features = merge_debugger_features s.protocol.features m.features;
  }

  -- The version of the message fits the session: valid in a new one, and the version that is in
  -- force in one that is there.
  abbrev pub version_fits : Client J → Option (Session J) → Option Number → Bool
  version_fits c existing none = true
  version_fits c none (some v) = is_some (valid_version (some v))
  version_fits c (some s) (some v) =
      option_beq (valid_version (some v)) (some (session_version c.protocol s.protocol))

  -- The session that is stored, field by field.
  abbrev pub old_stop : Option (Session J) → Option (Stop J)
  old_stop none = none
  old_stop (some s) = s.stopped

  abbrev pub old_thread : Option (Session J) → Option Scalar
  old_thread none = none
  old_thread (some s) = s.thread_id

  abbrev pub old_frame : Option (Session J) → Option (Frame J)
  old_frame none = none
  old_frame (some s) = s.top_frame

  abbrev pub old :
      Option (Session J)
      → Option String × Option String × Option String × Option Bool × Option J × Option String
  old none = (none, none, none, none, none, none)
  old (some s) =
      (s.workspace_root, s.name, some s.language, some s.active, s.capabilities, some s.started_at)

  abbrev pub frame_of_stop : Option (Stop J) → Option (Frame J)
  frame_of_stop none = none
  frame_of_stop (some d) = d.top_frame

  abbrev pub thread_of_stop : Option (Stop J) → Option Scalar
  thread_of_stop none = none
  thread_of_stop (some d) = d.thread_id

  abbrev pub session_of :
      String
      → String
      → Client J
      → Option (Session J)
      → Option ℕ
      → BridgeMessage J
      → String
      → String
      → Session J
  session_of client_id ide_session_id c existing epoch m state now =
      let paused = state == "paused" in
      let running = state == "running" in
      let details = stop_details m in
      let stopped =
        if paused then details else if running then none else or_else details (old_stop existing) in
      let frame = meaningful_frame (or_else m.stop.top_frame (frame_of_stop stopped)) in
      let protocol = merge_protocol existing m.protocol in
      record {
        ide_session_id = ide_session_id;
        client_id = client_id;
        workspace_root = or_else m.workspace_root (or_else (old existing).0 c.workspace_root);
        name = or_else m.name (old existing).1;
        language = or_else m.language (old existing).2 otherwise "idea";
        state = state;
        active = or_else m.active (old existing).3 otherwise true;
        thread_id =
            or_else (or_else m.stop.thread_id (thread_of_stop stopped))
              (if paused || running then none else old_thread existing);
        stopped = stopped;
        top_frame = or_else frame (if paused || running then none else old_frame existing);
        capabilities = or_else m.capabilities (old existing).4;
        protocol = protocol;
        negotiated = negotiate_debugger_features c.protocol protocol;
        pause_epoch = or_else (valid_version m.pause_epoch) epoch;
        started_at = or_else (old existing).5 m.started_at otherwise now;
        updated_at = now;
      }

  abbrev pub fits : Client J → Option (Session J) → Option ℕ → BridgeMessage J → String → Bool
  fits c existing epoch m state =
      version_fits c existing m.protocol.version
      && epoch_fits (is_debugger_protocol_v2 c.protocol (merge_protocol existing m.protocol)) state
          epoch (valid_version m.pause_epoch)

  abbrev pub upsert_as :
      String
      → String
      → Option (Client J)
      → BridgeMessage J
      → String
      → String
      → Registry J
      → Option (Session J) × Registry J
  upsert_as cid sid none m state now r = (none, r)
  upsert_as cid sid (some c) m state now r =
      let key = session_key cid sid in
      let existing = get key r.sessions in
      let epoch = get key r.pause_epochs in
      let v2 = is_debugger_protocol_v2 c.protocol (merge_protocol existing m.protocol) in
      let session = session_of cid sid c existing epoch m state now in
      if fits c existing epoch m state
      then (
        some session,
        record r {
          sessions = put key session r.sessions;
          pause_epochs = recorded v2 (valid_version m.pause_epoch) key r.pause_epochs;
          session_revisions =
              put key ((get key r.session_revisions otherwise 0) + 1) r.session_revisions;
        },
      )
      else (none, r)

  -- `upsertSession`
  unfoldable pub upsert_session :
      Option String
      → BridgeMessage J
      → String
      → String
      → Registry J
      → Option (Session J) × Registry J
  unfolding put get is_debugger_protocol_v2 negotiate_debugger_features merge_debugger_features
      stop_details
  upsert_session client_id m state now r = elim (nonempty client_id) [
    | none ↦ (none, r)
    | some cid ↦ elim (nonempty m.ide_session_id) [
      | none ↦ (none, r)
      | some sid ↦ upsert_as cid sid (get cid r.clients) m state now r
    ]
  ]
