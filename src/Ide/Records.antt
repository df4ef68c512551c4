-- ===== src/Ide/Records.antt =====
-- src/types/ide.ts and src/ide/IdeClientRegistry.ts: messages, clients and sessions of the IDE
-- bridge. JSON objects are a type `J`, of which the registry only asks whether they have a key.
use Prim.Native.String.{◌++◌ as join}
use break_pilot.Common.{
  ℕ, String, Bool, Option, none, some, [], ◌==◌, nat_eq, string_eq, option_eq, if◌then◌else◌,
  Number, integer, ℤ,
}
use break_pilot.Common.Dict.{Dict}
use break_pilot.Ide.{Feature, Features, Protocol}

-- A field of a message, as far as `typeof` tells it apart.
pub data Scalar : Type 0 where
  text : String → Scalar
  number : Number → Scalar
  boolean : Bool → Scalar
  other : Scalar

-- A frame: an object, whether it has a key, or another value.
pub data Frame (J : Type 0) : Type 0 where
  fields : (has_keys : Bool) (frame : J) → Frame J
  no_object : Frame J

-- The fields of a stop that the registry reads; `none` is undefined or null.
pub record Stop (J : Type 0) : Type 0 where
  pub reason : Option Scalar
  pub thread_id : Option Scalar
  pub description : Option Scalar
  pub all_threads_stopped : Option Scalar
  pub top_frame : Option (Frame J)

-- `BridgeMessage`, for the upsert of a session. `stopped` is none if it is no object.
pub record BridgeMessage (J : Type 0) : Type 0 where
  pub ide_session_id : Option String
  pub workspace_root : Option String
  pub name : Option String
  pub language : Option String
  pub active : Option Bool
  pub stop : Stop J
  pub stopped : Option (Stop J)
  pub capabilities : Option J
  pub protocol : Protocol
  pub pause_epoch : Option Number
  pub started_at : Option String

-- `IdeClientRecord`
pub record Client (J : Type 0) : Type 0 where
  pub client_id : String
  pub ide : Option String
  pub workspace_root : Option String
  pub capabilities : Option J
  pub protocol : Protocol
  pub connected_at : String
  pub last_heartbeat_at : String

-- `IdeDebugSessionInfo`
pub record Session (J : Type 0) : Type 0 where
  pub ide_session_id : String
  pub client_id : String
  pub workspace_root : Option String
  pub name : Option String
  pub language : String
  pub state : String
  pub active : Bool
  pub thread_id : Option Scalar
  pub stopped : Option (Stop J)
  pub top_frame : Option (Frame J)
  pub capabilities : Option J
  pub protocol : Protocol
  pub negotiated : Feature → Bool
  pub pause_epoch : Option ℕ
  pub started_at : String
  pub updated_at : String

pub record Registry (J : Type 0) : Type 0 where
  pub clients : Dict String (Client J)
  pub sessions : Dict String (Session J)
  pub session_revisions : Dict String ℕ
  pub pause_epochs : Dict String ℕ

-- The constructor.
abbrev pub new_registry : {J : Type 0} → Registry J
new_registry = record { clients = []; sessions = []; session_revisions = []; pause_epochs = [] }

-- The debugger features of a patch: a map of Booleans, or another value.
pub data FeatureValue : Type 0 where
  feature_map : Features → FeatureValue
  no_map : FeatureValue

-- The patches that the bridge server passes: `none` is a key that is absent.
pub record Patch (J : Type 0) : Type 0 where
  pub ide : Option (Option String)
  pub workspace_root : Option (Option String)
  pub capabilities : Option (Option J)
  pub version : Option Number
  pub features : Option FeatureValue
  pub last_heartbeat_at : Option String

-- What a falsy check lets through.
abbrev pub nonempty : Option String → Option String
nonempty none = none
nonempty (some t) = if t == "" then none else some t

-- `#sessionKey`
abbrev pub session_key : String → String → String
session_key client_id ide_session_id = join client_id (join ":" ide_session_id)

-- A stored version is the valid version that came.
abbrev pub stored_version : Option ℕ → Option Number
stored_version none = none
stored_version (some n) = some (integer (ℤ.pos n))
