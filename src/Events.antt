-- ===== src/Events.antt =====
-- src/runtime/RuntimeEventBuffer.ts: the bounded buffer of runtime events that an agent drains by
-- a cursor. Property values are JavaScript values as the code tells them apart.
pub mod History
pub mod Paging
pub mod Copies
use break_pilot.Common.{
  ℕ, suc, ◌+◌, ◌-◌, String, Bool, true, false, not, Option, none, some, List, [], ◌∷◌, ◌++◌, map,
  ◌==◌, if◌then◌else◌, string_eq, filter_by, any_of, member, Result, ok, throw, length, take, ltb,
  max, ◌otherwise◌, Number, is_finite, truncate_within, or_else,
}
use break_pilot.Common.Dict
use break_pilot.Common.Dict.{Dict}

-- A value with no parts; `other` is undefined, an object, a function and the like.
pub data Leaf : Type 0 where
  null other : Leaf
  text : String → Leaf
  flag : Bool → Leaf
  num : Number → Leaf

-- A value of a property; an accessor, and a hole of an array, count as `other`.
pub data JsValue : Type 0 where
  leaf : Leaf → JsValue
  array : List Leaf → JsValue

-- The own data properties of an object that is no array.
abbrev pub Properties : Type 0
Properties = Dict String JsValue

abbrev pub event_kinds : List String
event_kinds =
    "breakpoint" ∷ "breakpointError" ∷ "tracepoint" ∷ "output" ∷ "stopped" ∷ "continued" ∷ "thread"
    ∷ "process" ∷ "invalidated" ∷ "terminated" ∷ []

abbrev pub metadata_keys : List String
metadata_keys =
    "reason" ∷ "description" ∷ "exitCode" ∷ "processId" ∷ "threadName" ∷ "moduleName"
    ∷ "sourceReference" ∷ "allThreadsStopped" ∷ "restart" ∷ "hitBreakpointIds" ∷ "areas" ∷ []

-- `isJsonScalar`
abbrev pub is_json_scalar : Leaf → Bool
is_json_scalar other = false
is_json_scalar (num n) = is_finite n
is_json_scalar _ = true

-- `normalizeMetadataValue`: an array of more than 256 items is left out as a whole.
unfoldable pub normalize_metadata_value : JsValue → Option JsValue
normalize_metadata_value (leaf l) = if is_json_scalar l then some (leaf l) else none
normalize_metadata_value (array items) =
    if ltb 256 (length items) then none else some (array (filter_by is_json_scalar items))

abbrev pub own_value : Properties → String → JsValue
own_value props key = Dict.get key props otherwise leaf other

-- The loop of `normalizeRuntimeEventMetadata` over the keys.
unfoldable pub collect : List String → Properties → Properties
unfolding normalize_metadata_value
collect [] props = []
collect (key ∷ keys) props =
    let rest = collect keys props in
    elim (normalize_metadata_value (own_value props key)) [ none ↦ rest | some v ↦ (key, v) ∷ rest ]

abbrev pub non_empty : Properties → Option Properties
non_empty [] = none
non_empty (p ∷ ps) = some (p ∷ ps)

-- `normalizeRuntimeEventMetadata`; `none` is undefined, or a value that is no plain object.
unfoldable pub normalize_metadata : Option Properties → Option Properties
unfolding collect
normalize_metadata none = none
normalize_metadata (some props) = non_empty (collect metadata_keys props)

pub record Position : Type 0 where
  pub file_path : Option Leaf
  pub line : Option Number

abbrev pub as_path : JsValue → Option Leaf
as_path (leaf (text s)) = some (text s)
as_path (leaf (num n)) = if is_finite n then some (num n) else none
as_path _ = none

abbrev pub as_line : JsValue → Option Number
as_line (leaf (num n)) = if is_finite n then some n else none
as_line _ = none

abbrev pub position_of : Option Leaf → Option Number → Option Position
position_of none none = none
position_of file line = some (record { file_path = file; line = line })

-- `normalizePosition`
unfoldable pub normalize_position : Option Properties → Option Position
normalize_position none = none
normalize_position (some props) =
    position_of (or_else (as_path (own_value props "filePath")) (as_path (own_value props "file")))
      (as_line (own_value props "line"))

abbrev pub as_string : JsValue → Option String
as_string (leaf (text s)) = some s
as_string _ = none

-- `RuntimeEventInput`
pub record EventInput : Type 0 where
  pub kind : String
  pub breakpoint_id : JsValue
  pub thread_id : JsValue
  pub message : JsValue
  pub category : JsValue
  pub position : Option Properties
  pub metadata : Option Properties

-- `RuntimeEvent`
pub record Event : Type 0 where
  pub sequence : ℕ
  pub timestamp : String
  pub kind : String
  pub session_id : String
  pub breakpoint_id : Option String
  pub thread_id : Option Leaf
  pub message : Option String
  pub category : Option String
  pub position : Option Position
  pub metadata : Option Properties

-- `copyEvent`
unfoldable pub copy_event : Event → Event
unfolding normalize_metadata
copy_event e = record e { metadata = normalize_metadata e.metadata }

pub record Buffer : Type 0 where
  pub session_id : String
  pub capacity : ℕ
  pub events : List Event
  pub next_sequence : ℕ
  pub default_cursor : ℕ

abbrev pub default_capacity : ℕ
default_capacity = 256

-- The constructor of `RuntimeEventBuffer`; without a capacity the default holds.
unfoldable pub create : String → Option Number → Buffer
create sid capacity = record {
  session_id = sid;
  capacity = elim capacity [
    | none ↦ default_capacity
    | some n ↦ truncate_within default_capacity default_capacity n
  ];
  events = [];
  next_sequence = 1;
  default_cursor = 0;
}

-- `normalizeLimit`
unfoldable pub normalize_limit : Option Number → ℕ
normalize_limit none = 50
normalize_limit (some n) = truncate_within 256 1 n

-- The event that `append` stores.
unfoldable pub normalized : Buffer → String → EventInput → Event
unfolding normalize_position normalize_metadata
normalized b now e = record {
  sequence = b.next_sequence;
  timestamp = now;
  kind = e.kind;
  session_id = b.session_id;
  breakpoint_id = as_string e.breakpoint_id;
  thread_id = as_path e.thread_id;
  message = as_string e.message;
  category = as_string e.category;
  position = normalize_position e.position;
  metadata = normalize_metadata e.metadata;
}

-- `Array.prototype.shift`, when the list is too long.
abbrev pub shifted : ℕ → List Event → List Event
shifted capacity [] = []
shifted capacity (e ∷ es) = if ltb capacity (length (e ∷ es)) then es else e ∷ es

-- `append`: an event of a kind that is not supported is thrown back.
unfoldable pub append : Buffer → String → EventInput → Result String (Buffer × Event)
unfolding normalized copy_event
append b now e =
    let stored = normalized b now e in
    if member e.kind event_kinds
    then ok (
      record b {
        events = shifted b.capacity (b.events ++ stored ∷ []);
        next_sequence = b.next_sequence + 1;
      },
      copy_event stored,
    )
    else throw e.kind

pub record Page : Type 0 where
  pub items : List Event
  pub cursor : ℕ
  pub next_cursor : ℕ
  pub oldest_cursor : ℕ
  pub has_more : Bool
  pub overflowed : Bool
  pub dropped_count : ℕ
  pub supported_kinds : List String
  pub breakpoint_errors : List Event
  pub tracepoints : List Event

abbrev pub first_sequence : List Event → Option ℕ
first_sequence [] = none
first_sequence (e ∷ es) = some e.sequence

abbrev pub last_sequence : List Event → Option ℕ
last_sequence [] = none
last_sequence (e ∷ []) = some e.sequence
last_sequence (e ∷ f ∷ es) = last_sequence (f ∷ es)

abbrev pub after : ℕ → Event → Bool
after cursor e = ltb cursor e.sequence

-- `read`
unfoldable pub read : Buffer → Option ℕ → Option Number → Buffer × Page
unfolding normalize_limit copy_event
read b cursor limit =
    let requested = cursor otherwise b.default_cursor in
    let oldest = first_sequence b.events otherwise b.next_sequence in
    let overflowed = ltb requested (oldest - 1) in
    let effective = (if overflowed then oldest - 1 else requested) in
    let items =
      map copy_event (take (normalize_limit limit) (filter_by (after effective) b.events)) in
    let next = last_sequence items otherwise effective in
    (
      record b { default_cursor = elim cursor [ none ↦ next | some c ↦ b.default_cursor ] },
      record {
        items = items;
        cursor = requested;
        next_cursor = next;
        oldest_cursor = oldest;
        has_more = any_of (after next) b.events;
        overflowed = overflowed;
        dropped_count = oldest - 1 - requested;
        supported_kinds = event_kinds;
        breakpoint_errors = filter_by (λ e. e.kind == "breakpointError") items;
        tracepoints = filter_by (λ e. e.kind == "tracepoint") items;
      },
    )
