-- ===== src/Ide.antt =====
-- src/ide/DebuggerFeatureNegotiation.ts: the features of the debugger protocol that a client and a
-- session agree on. Declared types are kept; a version that is no finite number is `not_finite`.
pub mod Records
pub mod Registry
pub mod Upsert
pub mod Epochs
pub mod Consistency
pub mod Calls
pub mod Merging
use break_pilot.Common.{
  ℕ, Bool, true, false, not, Option, none, some, ◌==◌, nat_eq, if◌then◌else◌, leb, ◌&&◌, ◌||◌,
  ◌otherwise◌, Number, integer, ℤ, is_safe_integer, option_beq, Eq, ◌≡◌, refl, ◌↔◌, arith,
}

pub data Feature : Type 0 where
  breakpoint_update event_stream stack_pagination variable_handles : Feature
  native_set_variable causal_debug_start : Feature

-- `DebuggerFeatureMap`
abbrev pub Features : Type 0
Features = Feature → Option Bool

-- `DebuggerProtocolInfo`
pub record Protocol : Type 0 where
  pub version : Option Number
  pub features : Option Features

-- `validDebuggerProtocolVersion`, and the same test for the epoch of a pause.
abbrev pub safe_natural : ℤ → Option ℕ
safe_natural (ℤ.pos n) = if is_safe_integer (ℤ.pos n) then some n else none
safe_natural (ℤ.negsuc n) = none

abbrev pub valid_version : Option Number → Option ℕ
valid_version (some (integer z)) = safe_natural z
valid_version _ = none

abbrev pub is_false : Option Bool → Bool
is_false (some false) = true
is_false _ = false

abbrev pub is_true : Option Bool → Bool
is_true (some true) = true
is_true _ = false

-- `features?.[feature]`
abbrev pub feature_of : Option Features → Feature → Option Bool
feature_of none f = none
feature_of (some features) f = features f

abbrev pub client_version : Protocol → ℕ
client_version client = valid_version client.version otherwise 0

abbrev pub session_version : Protocol → Protocol → ℕ
session_version client session = valid_version session.version otherwise client_version client

-- `isDebuggerProtocolV2`
unfoldable pub is_debugger_protocol_v2 : Protocol → Protocol → Bool
is_debugger_protocol_v2 client session =
    leb 2 (client_version client) && leb 2 (session_version client session)

-- `negotiateDebuggerFeatures`
unfoldable pub negotiate_debugger_features : Protocol → Protocol → Feature → Bool
negotiate_debugger_features client session f =
    leb 2 (client_version client)
    && leb 2 (session_version client session)
    && is_true (feature_of client.features f)
    && not (is_false (feature_of session.features f))

-- A feature that the session turns off stays off, whatever it sends later.
abbrev pub merged : Option Bool → Option Bool → Option Bool
merged (some false) incoming = some false
merged existing (some b) = some b
merged existing none = existing

-- `#mergeDebuggerFeatures`
unfoldable pub merge_debugger_features : Option Features → Option Features → Option Features
merge_debugger_features none incoming = incoming
merge_debugger_features (some existing) none = some existing
merge_debugger_features (some existing) (some incoming) =
    some (λ f. merged (existing f) (incoming f))
