-- ===== src/Breakpoints/Manager.antt =====
-- src/sessions/BreakpointManager.ts, the breakpoints of debug sessions. `resolve` is Node's
-- `path.resolve`; ids and dates that the host makes up are arguments.
pub mod Preflight
pub mod Replace
pub mod Invariant
pub mod Calls
use break_pilot.Common.{
  ℕ, String, Bool, true, false, not, Option, none, some, List, [], ◌∷◌, ◌++◌, map, ◌≡◌, Eq, ◌==◌,
  if◌then◌else◌, ℤ, filter_by, member, Result, ok, throw, ◌>>=◌, ◌>>◌, ◌otherwise◌, or_else,
  string_eq,
}
use break_pilot.Common.Dict
use break_pilot.Common.Dict.{Dict}
use mathlib.Core.Option
use break_pilot.Breakpoints.{BreakpointInput, Breakpoint, DapBreakpoint, AdapterId, number}

pub record Manager : Type 0 where
  pub by_session : Dict String (Dict String Breakpoint)

abbrev pub empty : Manager
empty = record { by_session = [] }

-- `this.bySession.get(sessionId)`, an absent bucket read as an empty one.
unfoldable pub bucket : Manager → String → Dict String Breakpoint
bucket m sid = Dict.get sid m.by_session otherwise []

-- The errors that `replaceSources` throws.
pub data ReplaceError : Type 0 where
  duplicate_source duplicate_id unselected_source : String → ReplaceError
  missing_id : ReplaceError

pub record Replacement : Type 0 where
  pub file_path : String
  pub records : List Breakpoint

-- The body of the loop of `updateVerification`.
abbrev pub verify_one : Option DapBreakpoint → Breakpoint → Breakpoint
verify_one none b = b
verify_one (some d) b = record b {
  verified = d.verified;
  message = d.message;
  adapter_breakpoint_id = Option.map number d.id;
  line = d.line otherwise b.line;
  column = or_else d.column b.column;
}

abbrev pub head_of : List DapBreakpoint → Option DapBreakpoint
head_of [] = none
head_of (d ∷ ds) = some d

abbrev pub rest_of : List DapBreakpoint → List DapBreakpoint
rest_of [] = []
rest_of (d ∷ ds) = ds

-- A session with no bucket has nothing to update.
abbrev pub replace_bucket :
    Manager → String → (Dict String Breakpoint → Dict String Breakpoint) → Manager
replace_bucket m sid f = elim (Dict.get sid m.by_session) [
  | none ↦ m
  | some bps ↦ record m { by_session = Dict.put sid (f bps) m.by_session }
]

-- `records.map(...)` of `#prepareSourceReplacements`, with the set of ids seen so far.
unfoldable pub prepare_records :
    String
    → String
    → List String
    → List Breakpoint
    → Result ReplaceError (List String × List Breakpoint)
prepare_records sid file ids [] = ok (ids, [])
prepare_records sid file ids (r ∷ rs) =
    let rest = prepare_records sid file (r.id ∷ ids) rs in
    if r.id == ""
    then throw missing_id
    else if member r.id ids
    then throw (duplicate_id r.id)
    else (do (ids', done) ← rest; ok (ids', record r { session_id = sid; file = file } ∷ done))

abbrev pub selected : List Replacement → List String
selected [] = []
selected (r ∷ rs) = r.file_path ∷ selected rs

abbrev pub all_records : List Replacement → List Breakpoint
all_records [] = []
all_records (r ∷ rs) = r.records ++ all_records rs

unfoldable pub put_records : List Breakpoint → Dict String Breakpoint → Dict String Breakpoint
put_records [] m = m
put_records (r ∷ rs) m = put_records rs (Dict.put r.id r m)

module _ (resolve : String → String) where
  unfoldable pub new_record : String → BreakpointInput → String → String → Breakpoint
  new_record sid b fresh_id now = record {
    id = b.id otherwise fresh_id;
    session_id = sid;
    file = resolve b.file;
    line = b.line;
    column = b.column;
    condition = b.condition;
    hit_condition = b.hit_condition;
    log_message = b.log_message;
    enabled = b.enabled otherwise true;
    temporary = b.temporary otherwise false;
    suspend_policy = b.suspend_policy;
    is_log_message = b.is_log_message;
    is_log_stack = b.is_log_stack;
    owner = b.owner otherwise "agent";
    verified = false;
    adapter_breakpoint_id = none;
    ide_breakpoint_id = none;
    message = none;
    created_at = now;
  }

  unfoldable pub add : String → BreakpointInput → String → String → Manager → Manager × Breakpoint
  unfolding new_record bucket
  add sid b fresh_id now m =
      let r = new_record sid b fresh_id now in
      (record m { by_session = Dict.put sid (Dict.put r.id r (bucket m sid)) m.by_session }, r)

  abbrev pub in_source : String → Breakpoint → Bool
  in_source file b = resolve b.file == resolve file

  unfoldable pub list_for_source : Manager → String → String → List Breakpoint
  unfolding bucket
  list_for_source m sid file = filter_by (in_source file) (Dict.values (bucket m sid))

  -- The n-th breakpoint of the source is paired with the n-th answer of the adapter.
  unfoldable pub verify_entries :
      String → List DapBreakpoint → Dict String Breakpoint → Dict String Breakpoint
  verify_entries file ds [] = []
  verify_entries file ds ((k, b) ∷ m) =
      (k, (if in_source file b then verify_one (head_of ds) b else b))
      ∷ verify_entries file (if in_source file b then rest_of ds else ds) m

  unfoldable pub update_verification :
      String → String → List DapBreakpoint → Manager → Manager × List Breakpoint
  unfolding verify_entries list_for_source
  update_verification sid file ds m =
      let m' = replace_bucket m sid (verify_entries file ds) in (m', list_for_source m' sid file)

  -- `#prepareSourceReplacements`
  unfoldable pub prepare :
      String → List String → List String → List Replacement → Result ReplaceError (List Replacement)
  unfolding prepare_records
  prepare sid sources ids [] = ok []
  prepare sid sources ids (r ∷ rs) =
      let file = resolve r.file_path in
      if member file sources then throw (duplicate_source file) else (do
        (ids', records) ← prepare_records sid file ids r.records
        done ← prepare sid (file ∷ sources) ids' rs
        ok (record { file_path = file; records = records } ∷ done))

  -- A record of the new lists may not carry the id of a breakpoint in a source that stays.
  unfoldable pub check_conflicts :
      List String → Dict String Breakpoint → List Breakpoint → Result ReplaceError (Unit {0})
  check_conflicts sources existing [] = ok tt
  check_conflicts sources existing (r ∷ rs) =
      let rest = check_conflicts sources existing rs in
      elim (Dict.get r.id existing) [
        | none ↦ rest
        | some c ↦ if member (resolve c.file) sources then rest else throw (unselected_source r.id)
      ]

  -- The map that `replaceSources` installs for the session.
  unfoldable pub final_session : List Replacement → Dict String Breakpoint → Dict String Breakpoint
  unfolding put_records
  final_session prepared existing =
      put_records (all_records prepared)
        (Dict.keep (λ _ b. not (member (resolve b.file) (selected prepared))) existing)

  abbrev pub install : Manager → String → List Replacement → Result ReplaceError Manager
  install m sid [] = ok m
  install m sid (p ∷ ps) = do
    check_conflicts (selected (p ∷ ps)) (bucket m sid) (all_records (p ∷ ps))
    ok (record m { by_session = Dict.put sid (final_session (p ∷ ps) (bucket m sid)) m.by_session })

  unfoldable pub replace_sources : String → List Replacement → Manager → Result ReplaceError Manager
  unfolding prepare check_conflicts final_session bucket
  replace_sources sid replacements m = do
    prepared ← prepare sid [] [] replacements
    install m sid prepared

  unfoldable pub replace_source :
      String → String → List Breakpoint → Manager → Result ReplaceError Manager
  unfolding replace_sources
  replace_source sid file records m =
      replace_sources sid (record { file_path = file; records = records } ∷ []) m

unfoldable pub remove : String → String → Manager → Manager × Bool
remove sid id m = elim (Dict.get sid m.by_session) [
  | none ↦ (m, false)
  | some bps ↦
      (record m { by_session = Dict.put sid (Dict.remove id bps) m.by_session }, Dict.has id bps)
]

unfoldable pub clear : String → Manager → Manager
clear sid m = record m { by_session = Dict.remove sid m.by_session }

unfoldable pub list : Manager → String → List Breakpoint
unfolding bucket
list m sid = Dict.values (bucket m sid)

unfoldable pub get : Manager → String → String → Option Breakpoint
unfolding bucket
get m sid id = Dict.get id (bucket m sid)
