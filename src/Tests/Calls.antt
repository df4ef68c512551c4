-- ===== src/Tests/Calls.antt =====
-- The stores of breakpoints and the capabilities at small inputs.
use break_pilot.Common.{
  All, String, true, false, none, List, [], ◌∷◌, ◌≡◌, refl, nat_eq, string_eq, ◌otherwise◌, ℤ,
}
use break_pilot.Common.Dict
use break_pilot.Breakpoints.{Breakpoint, BreakpointInput, Nullable}
use break_pilot.Breakpoints.Manager.{
  Manager, Replacement, empty, bucket, replace_sources, list_for_source,
}
use break_pilot.Breakpoints.Manager.Replace.{
  requested, OtherSessionsKept, replace_sources-list_for_source,
}
use break_pilot.Breakpoints.Manager.Invariant.{IsValid}
use break_pilot.Breakpoints.Manager.Calls as ManagerCalls
use break_pilot.Breakpoints.Manager.Calls.{perform_all-IsValid}
use break_pilot.Breakpoints.Projects
use break_pilot.Breakpoints.Projects.Clients
use break_pilot.Breakpoints.Projects.Clients.{list_project-cleared}
use break_pilot.Capabilities

abbrev same_path : String → String
same_path p = p

abbrev input : BreakpointInput
input = record {
  id = none;
  file = "/a";
  line = ℤ.pos 3;
  column = none;
  condition = Nullable.undefined;
  hit_condition = Nullable.undefined;
  log_message = Nullable.undefined;
  enabled = none;
  temporary = none;
  suspend_policy = none;
  is_log_message = none;
  is_log_stack = none;
  owner = none;
}

abbrev calls : List ManagerCalls.Call
calls = ManagerCalls.adding "s" input "bp1" "now" ∷ ManagerCalls.removing "s" "bp2" ∷ []

perform_all-IsValid_example : IsValid (ManagerCalls.perform_all same_path empty calls)
perform_all-IsValid_example = perform_all-IsValid same_path calls

abbrev one : Breakpoint
one = record {
  id = "bp1";
  session_id = "s";
  file = "/b";
  line = ℤ.pos 3;
  column = none;
  condition = Nullable.undefined;
  hit_condition = Nullable.undefined;
  log_message = Nullable.undefined;
  enabled = true;
  temporary = false;
  suspend_policy = none;
  is_log_message = none;
  is_log_stack = none;
  owner = "agent";
  verified = false;
  adapter_breakpoint_id = none;
  ide_breakpoint_id = none;
  message = none;
  created_at = "now";
}

abbrev moved : Replacement
moved = record { file_path = "/b"; records = one ∷ [] }

abbrev after_replacing : Manager
after_replacing = record { by_session = ("s", ("bp1", one) ∷ []) ∷ [] }

replace_sources-list_for_source_example :
    (list_for_source same_path after_replacing "s" "/b" ≡ (
      requested same_path "s" "/b" (moved ∷ []) otherwise list_for_source same_path empty "s" "/b"))
    × OtherSessionsKept "s" empty after_replacing
unfolding replace_sources bucket Dict.get Dict.put Dict.keep Dict.has
replace_sources-list_for_source_example =
    replace_sources-list_for_source same_path (λ p. refl) "s" "/b" (moved ∷ []) empty
      after_replacing tt refl

abbrev project_calls : List Clients.Call
project_calls =
    Clients.adding
      (record {
        input = input;
        workspace_root = "/w";
        client_id = "ide1";
        ide = "idea";
        ide_session_id = none;
      })
      "bp1" "now"
    ∷ Clients.removing "bp9"
    ∷ []

abbrev no_filter : Projects.ProjectFilter
no_filter = record { workspace_root = none; client_id = none; ide = none; file = none }

list_project-cleared_example : All (Clients.IsOfOther "ide1") (
    Projects.list_project same_path no_filter
      (Projects.clear_project_for_client "ide1" (Clients.perform_all same_path [] project_calls)))
list_project-cleared_example = list_project-cleared same_path project_calls "ide1" no_filter

-- One record is listed until its client is cleared.
cleared_list :
    Projects.list_project same_path no_filter (Clients.perform_all same_path [] project_calls)
    ≡ Projects.new_project_record same_path
        (record {
          input = input;
          workspace_root = "/w";
          client_id = "ide1";
          ide = "idea";
          ide_session_id = none;
        })
        "bp1"
        "now"
      ∷ []
unfolding Clients.perform_all Projects.list_project Projects.add_project Projects.remove_project
    Dict.get Dict.put Dict.has
cleared_list = refl

abbrev layers : List Capabilities.Capabilities
layers =
    (("tracepoints", Capabilities.flag true) ∷ [])
    ∷ (("supportsLogPoints", Capabilities.flag false) ∷ ("logPoints", Capabilities.flag true) ∷ [])
    ∷ []

-- The older name `logPoints` of the last layer wins.
merged_tracepoints :
    Capabilities.enabled (Capabilities.merge_ide_capability_records layers) ("tracepoints" ∷ [])
    ≡ true
unfolding Capabilities.enabled Capabilities.merge_ide_capability_records Dict.get Dict.put
    Dict.remove
merged_tracepoints = refl
