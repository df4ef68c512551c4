-- ===== src/Breakpoints/Patch.antt =====
-- src/sessions/BreakpointReconciler.ts: applying a patch to a breakpoint, and which fields of a
-- breakpoint differ from an earlier version of it.
use break_pilot.Common.{
  String, Bool, true, false, not, Option, none, some, List, [], ◌∷◌, ◌==◌, if◌then◌else◌, ℤ, int_eq,
  option_eq, string_eq, option_beq, filter_by, member,
}
use break_pilot.Breakpoints.{Breakpoint, Nullable, undefined, null, value, nullable_beq}

-- `BreakpointPatchRequest`; an `owner` that is left out means the agent.
pub record Patch : Type 0 where
  pub breakpoint_id : String
  pub file_path : Option String
  pub line : Option ℤ
  pub column : Nullable ℤ
  pub condition : Nullable String
  pub hit_condition : Nullable String
  pub log_message : Nullable String
  pub enabled : Option Bool
  pub owner : Option String

abbrev bool_beq : Bool → Bool → Bool
bool_beq true b = b
bool_beq false b = not b

-- `PATCH_FIELD_ORDER`
abbrev pub field_order : List String
field_order =
    "filePath" ∷ "line" ∷ "column" ∷ "condition" ∷ "hitCondition" ∷ "logMessage" ∷ "enabled" ∷ []

-- A field of the patch against the field of the breakpoint: the new value, and whether it differs.
abbrev change {ℓ} : {A : Type ℓ} → (A → A → Bool) → Option A → A → A × Bool
change same none current = (current, false)
change same (some v) current = if same v current then (current, false) else (v, true)

-- Null in the patch clears the field.
abbrev cleared_column : Nullable ℤ → Option (Option ℤ)
cleared_column undefined = none
cleared_column null = some none
cleared_column (value c) = some (some c)

abbrev cleared : Nullable String → Option (Nullable String)
cleared undefined = none
cleared null = some undefined
cleared (value s) = some (value s)

abbrev named : String → Bool → List String → List String
named field true fields = field ∷ fields
named field false fields = fields

module _ (resolve : String → String) where
  abbrev resolved : Option String → Option String
  resolved none = none
  resolved (some p) = some (resolve p)

  -- `#applyPatch`: the patched breakpoint and the fields that changed.
  unfoldable pub apply_patch : Breakpoint → Patch → Breakpoint × List String
  apply_patch target patch =
      let (file, file_changed) = change ◌==◌ (resolved patch.file_path) target.file in
      let (line, line_changed) = change ◌==◌ patch.line target.line in
      let (column, column_changed) =
        change option_beq (cleared_column patch.column) target.column in
      let (condition, condition_changed) =
        change nullable_beq (cleared patch.condition) target.condition in
      let (hit_condition, hit_changed) =
        change nullable_beq (cleared patch.hit_condition) target.hit_condition in
      let (log_message, log_changed) =
        change nullable_beq (cleared patch.log_message) target.log_message in
      let (enabled, enabled_changed) = change bool_beq patch.enabled target.enabled in
      let changed = named "filePath" file_changed (
        named "line" line_changed (
          named "column" column_changed (
            named "condition" condition_changed (
              named "hitCondition" hit_changed
                (named "logMessage" log_changed (named "enabled" enabled_changed [])))))) in
      (
        record target {
          file = file;
          line = line;
          column = column;
          condition = condition;
          hit_condition = hit_condition;
          log_message = log_message;
          enabled = enabled;
        },
        filter_by (λ f. member f changed) field_order,
      )

-- `#changedFields`
unfoldable pub changed_fields : Breakpoint → Breakpoint → List String
changed_fields previous current =
    let changed = named "filePath" (not (previous.file == current.file)) (
      named "line" (not (previous.line == current.line)) (
        named "column" (not (option_beq previous.column current.column)) (
          named "condition" (not (nullable_beq previous.condition current.condition)) (
            named "hitCondition" (not (nullable_beq previous.hit_condition current.hit_condition)) (
              named "logMessage" (not (nullable_beq previous.log_message current.log_message))
                (named "enabled" (not (bool_beq previous.enabled current.enabled)) [])))))) in
    filter_by (λ f. member f changed) field_order
