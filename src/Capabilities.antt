-- ===== src/Capabilities.antt =====
-- src/runtime/ProviderCapabilities.ts: what a runtime provider can do, from the records that a
-- debug adapter or an IDE sends.
pub mod Merging
use break_pilot.Common.{
  String, Bool, true, false, Option, none, some, List, [], ◌∷◌, ◌++◌, ◌==◌, string_eq,
  if◌then◌else◌, ◌&&◌, or_else,
}
use break_pilot.Common.Dict
use break_pilot.Common.Dict.{Dict}

-- A property's value, as far as the code tells values apart.
pub data Value : Type 0 where
  undefined null other : Value
  flag : Bool → Value
  text : String → Value

-- The own properties of a record.
abbrev pub Capabilities : Type 0
Capabilities = Dict String Value

-- `=== true`
abbrev pub is_true : Value → Bool
is_true (flag b) = b
is_true _ = false

-- `enabled`: the first of the keys that is there decides.
unfoldable pub enabled : Capabilities → List String → Bool
enabled raw [] = false
enabled raw (key ∷ keys) =
    let rest = enabled raw keys in elim (Dict.get key raw) [ none ↦ rest | some v ↦ is_true v ]

-- The name that is kept, and its older names.
pub record Group : Type 0 where
  pub canonical : String
  pub aliases : List String

abbrev pub keys_of : Group → List String
keys_of g = g.canonical ∷ g.aliases

-- `ideCapabilityKeys`
abbrev pub ide_capability_keys : List Group
ide_capability_keys =
    record { canonical = "runToLine"; aliases = "supportsRunToLine" ∷ [] }
    ∷ record { canonical = "setVariable"; aliases = "supportsSetVariable" ∷ [] }
    ∷ record { canonical = "setVariableMode"; aliases = "setValueMode" ∷ [] }
    ∷ record {
      canonical = "conditionalBreakpoints";
      aliases = "supportsConditionalBreakpoints" ∷ [];
    }
    ∷ record {
      canonical = "hitConditionalBreakpoints";
      aliases = "supportsHitConditionalBreakpoints" ∷ [];
    }
    ∷ record { canonical = "tracepoints"; aliases = "logPoints" ∷ "supportsLogPoints" ∷ [] }
    ∷ []

-- `Object.assign`
unfoldable pub assign : Capabilities → Capabilities → Capabilities
assign merged [] = merged
assign merged ((key, v) ∷ layer) = assign (Dict.put key v merged) layer

-- The value under the first of the keys that the layer has.
unfoldable pub select : List String → Capabilities → Option Value
select [] layer = none
select (key ∷ keys) layer = or_else (Dict.get key layer) (select keys layer)

unfoldable pub remove_keys : List String → Capabilities → Capabilities
remove_keys [] merged = merged
remove_keys (key ∷ keys) merged = remove_keys keys (Dict.remove key merged)

unfoldable pub settle_group : Group → Capabilities → Capabilities → Capabilities
unfolding select remove_keys
settle_group g layer merged = elim (select (keys_of g) layer) [
  | none ↦ merged
  | some v ↦ Dict.put g.canonical v (remove_keys (keys_of g) merged)
]

unfoldable pub settle_groups : List Group → Capabilities → Capabilities → Capabilities
unfolding settle_group
settle_groups [] layer merged = merged
settle_groups (g ∷ gs) layer merged = settle_groups gs layer (settle_group g layer merged)

unfoldable pub merge_onto : Capabilities → List Capabilities → Capabilities
unfolding assign settle_groups
merge_onto merged [] = merged
merge_onto merged (layer ∷ layers) =
    merge_onto (settle_groups ide_capability_keys layer (assign merged layer)) layers

-- `mergeIdeCapabilityRecords`
unfoldable pub merge_ide_capability_records : List Capabilities → Capabilities
unfolding merge_onto
merge_ide_capability_records layers = merge_onto [] layers

pub data Level : Type 0 where
  native fallback snapshot evaluate_assignment unsupported : Level

-- `RuntimeProviderCapabilities`
pub record ProviderCapabilities : Type 0 where
  pub pause : Level
  pub stepping : Level
  pub run_to_line : Level
  pub variable_references : Level
  pub set_value : Level
  pub breakpoint_update : Level
  pub conditional_breakpoints : Level
  pub hit_conditional_breakpoints : Level
  pub tracepoints : Level
  pub event_drain : Level

abbrev pub native_if : Bool → Level
native_if b = if b then native else unsupported

-- `dapProviderCapabilities`, with the two options.
unfoldable pub dap_provider_capabilities : Capabilities → Bool → Bool → ProviderCapabilities
unfolding enabled
dap_provider_capabilities raw native_available fallback_available = record {
  pause = native;
  stepping = native;
  run_to_line =
      if native_available && enabled raw ("supportsGotoTargetsRequest" ∷ [])
      then native
      else (if fallback_available then fallback else unsupported);
  variable_references = native;
  set_value = native_if (enabled raw ("supportsSetVariable" ∷ []));
  breakpoint_update = fallback;
  conditional_breakpoints = native_if (enabled raw ("supportsConditionalBreakpoints" ∷ []));
  hit_conditional_breakpoints = native_if (enabled raw ("supportsHitConditionalBreakpoints" ∷ []));
  tracepoints = native_if (enabled raw ("supportsLogPoints" ∷ []));
  event_drain = unsupported;
}

-- `a ?? b` on two properties.
abbrev pub present : Option Value → Option Value
present (some undefined) = none
present (some null) = none
present o = o

abbrev pub is_evaluate : Option Value → Bool
is_evaluate (some (text s)) = s == "evaluateAssignment"
is_evaluate _ = false

-- `ideProviderCapabilities`
unfoldable pub ide_provider_capabilities : Capabilities → ProviderCapabilities
unfolding enabled
ide_provider_capabilities raw =
    let mode = or_else (present (Dict.get "setVariableMode" raw)) (Dict.get "setValueMode" raw) in
    record {
      pause = native_if (enabled raw ("debugCommands" ∷ []));
      stepping = native_if (enabled raw ("debugCommands" ∷ []));
      run_to_line = native_if (enabled raw ("runToLine" ∷ "supportsRunToLine" ∷ []));
      variable_references =
          if enabled raw ("variableHandles" ∷ [])
          then native
          else (if enabled raw ("variableSnapshot" ∷ []) then snapshot else unsupported);
      set_value =
          if enabled raw ("nativeSetVariable" ∷ [])
          then native
          else (if enabled raw ("setVariable" ∷ "supportsSetVariable" ∷ [])
              then (if is_evaluate mode then evaluate_assignment else native)
              else unsupported);
      breakpoint_update = if enabled raw ("breakpointUpdate" ∷ []) then fallback else unsupported;
      conditional_breakpoints =
          native_if
            (enabled raw ("conditionalBreakpoints" ∷ "supportsConditionalBreakpoints" ∷ []));
      hit_conditional_breakpoints =
          native_if
            (enabled raw ("hitConditionalBreakpoints" ∷ "supportsHitConditionalBreakpoints" ∷ []));
      tracepoints =
          native_if (enabled raw ("tracepoints" ∷ "logPoints" ∷ "supportsLogPoints" ∷ []));
      event_drain = native_if (enabled raw ("eventStream" ∷ []));
    }
