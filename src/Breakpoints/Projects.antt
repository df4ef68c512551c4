-- ===== src/Breakpoints/Projects.antt =====
-- src/sessions/BreakpointManager.ts, the breakpoints of projects: kept by workspace and IDE client.
-- `resolve` is Node's `path.resolve`; ids and dates that the host makes up are arguments.
pub mod Clients
use Prim.Native.String
use break_pilot.Common.{
  String, Bool, true, false, not, Option, none, some, List, [], ◌∷◌, ◌++◌, map, ◌==◌, if◌then◌else◌,
  ℤ, filter_by, ◌&&◌, ◌||◌, ◌otherwise◌, or_else, string_eq, int_eq,
}
use break_pilot.Common.Dict
use break_pilot.Common.Dict.{Dict}
use break_pilot.Breakpoints.{BreakpointInput, AdapterId, Nullable}

-- `ProjectBreakpointInput`
pub record ProjectInput : Type 0 where
  pub input : BreakpointInput
  pub workspace_root : String
  pub client_id : String
  pub ide : String
  pub ide_session_id : Option String

-- `ProjectBreakpointRecord`
pub record ProjectBreakpoint : Type 0 where
  pub id : String
  pub workspace_root : String
  pub client_id : String
  pub ide : String
  pub ide_session_id : Option String
  pub file : String
  pub line : ℤ
  pub column : Option ℤ
  pub condition : Nullable String
  pub hit_condition : Nullable String
  pub log_message : Nullable String
  pub enabled : Bool
  pub temporary : Bool
  pub suspend_policy : Option String
  pub is_log_message : Option Bool
  pub is_log_stack : Option Bool
  pub owner : String
  pub verified : Bool
  pub adapter_breakpoint_id : Option AdapterId
  pub ide_breakpoint_id : Option String
  pub message : Option String
  pub created_at : String

-- `byProject`
abbrev pub Projects : Type 0
Projects = Dict String (Dict String ProjectBreakpoint)

-- A field that the patch has, be it undefined, replaces the field of the record.
pub record ProjectPatch : Type 0 where
  pub verified : Option Bool
  pub message : Option (Option String)
  pub adapter_breakpoint_id : Option (Option AdapterId)
  pub ide_breakpoint_id : Option (Option String)
  pub line : Option ℤ
  pub column : Option (Option ℤ)

-- `Object.assign` of the patch to a record.
abbrev pub assigned : ProjectPatch → ProjectBreakpoint → ProjectBreakpoint
assigned p b = record b {
  verified = p.verified otherwise b.verified;
  message = p.message otherwise b.message;
  adapter_breakpoint_id = p.adapter_breakpoint_id otherwise b.adapter_breakpoint_id;
  ide_breakpoint_id = p.ide_breakpoint_id otherwise b.ide_breakpoint_id;
  line = p.line otherwise b.line;
  column = p.column otherwise b.column;
}

-- `ProjectBreakpointFilter`
pub record ProjectFilter : Type 0 where
  pub workspace_root : Option String
  pub client_id : Option String
  pub ide : Option String
  pub file : Option String

-- `String.prototype.endsWith`
unfoldable pub ends_with : String → String → Bool
ends_with String.[] t = String.[] == t
ends_with (String.◌∷◌ c s) t = let rest = ends_with s t in String.◌∷◌ c s == t || rest

-- Column 0 counts as none.
abbrev pub truthy_column : Option ℤ → Option ℤ
truthy_column none = none
truthy_column (some z) = if z == ℤ.pos 0 then none else some z

abbrev pub client_suffix : String → String
client_suffix client = String.◌++◌ "\0" client

module _ (resolve : String → String) where
  -- `#projectKey`
  unfoldable pub project_key : String → String → String
  project_key root client = String.◌++◌ (resolve root) (client_suffix client)

  unfoldable pub new_project_record : ProjectInput → String → String → ProjectBreakpoint
  new_project_record p fresh_id now =
      let b = p.input in
      record {
        id = b.id otherwise fresh_id;
        workspace_root = resolve p.workspace_root;
        client_id = p.client_id;
        ide = p.ide;
        ide_session_id = p.ide_session_id;
        file = resolve b.file;
        line = b.line;
        column = truthy_column b.column;
        condition = b.condition;
        hit_condition = b.hit_condition;
        log_message = b.log_message;
        enabled = b.enabled otherwise true;
        temporary = b.temporary otherwise false;
        suspend_policy = b.suspend_policy;
        is_log_message = b.is_log_message;
        is_log_stack = b.is_log_stack;
        owner = b.owner otherwise "agent";
        verified = false;
        adapter_breakpoint_id = none;
        ide_breakpoint_id = none;
        message = none;
        created_at = now;
      }

  abbrev pub put_record : ProjectBreakpoint → Projects → Projects
  put_record r ps =
      let key = project_key r.workspace_root r.client_id in
      Dict.put key (Dict.put r.id r (Dict.get key ps otherwise [])) ps

  -- `addProject`
  unfoldable pub add_project :
      ProjectInput → String → String → Projects → Projects × ProjectBreakpoint
  unfolding new_project_record project_key
  add_project p fresh_id now ps = let r = new_project_record p fresh_id now in (put_record r ps, r)

-- Changes the first bucket that has the breakpoint.
abbrev pub change_first :
    String → (Dict String ProjectBreakpoint → Dict String ProjectBreakpoint) → Projects → Projects
change_first id f [] = []
change_first id f ((key, bs) ∷ ps) =
    let rest = change_first id f ps in if Dict.has id bs then (key, f bs) ∷ ps else (key, bs) ∷ rest

-- `findProject`
unfoldable pub find_project : String → Projects → Option ProjectBreakpoint
find_project id [] = none
find_project id ((key, bs) ∷ ps) = or_else (Dict.get id bs) (find_project id ps)

abbrev pub assign_in :
    String → ProjectPatch → Dict String ProjectBreakpoint → Dict String ProjectBreakpoint
assign_in id patch bs = elim (Dict.get id bs) [
  | none ↦ bs
  | some b ↦ Dict.put id (assigned patch b) bs
]

-- `updateProject`: the record in its map is changed, and the same record is returned.
unfoldable pub update_project :
    String → ProjectPatch → Projects → Projects × Option ProjectBreakpoint
unfolding find_project
update_project id patch ps =
    let ps' = change_first id (assign_in id patch) ps in (ps', find_project id ps')

-- `removeProject`
unfoldable pub remove_project : String → Projects → Projects × Bool
unfolding find_project
remove_project id ps = (change_first id (Dict.remove id) ps, Dict.is_some (find_project id ps))

-- `clearProjectForClient`
unfoldable pub clear_project_for_client : String → Projects → Projects
unfolding ends_with
clear_project_for_client client ps =
    Dict.keep (λ key bs. not (ends_with key (client_suffix client))) ps

abbrev pub all_records : Projects → List ProjectBreakpoint
all_records [] = []
all_records ((key, bs) ∷ ps) = Dict.values bs ++ all_records ps

-- A filter that is left out, or empty, lets everything through.
abbrev pub passes : Option String → String → Bool
passes none value = true
passes (some wanted) value = wanted == "" || value == wanted

abbrev pub passes_resolved : (String → String) → Option String → String → Bool
passes_resolved resolve none value = true
passes_resolved resolve (some wanted) value = wanted == "" || value == resolve wanted

module _ (resolve : String → String) where
  abbrev pub matches : ProjectFilter → ProjectBreakpoint → Bool
  matches f b =
      passes_resolved resolve f.workspace_root (resolve b.workspace_root)
      && passes f.client_id b.client_id
      && passes f.ide b.ide
      && passes_resolved resolve f.file (resolve b.file)

  -- `listProject`
  unfoldable pub list_project : ProjectFilter → Projects → List ProjectBreakpoint
  list_project f ps = filter_by (matches f) (all_records ps)
