-- ===== src/Security.antt =====
-- src/security/SecurityPolicy.ts: what the policy of a project lets through. Expressions are lists
-- of UTF-16 code units. The suggestion in the error of a blocked expression is left out, and the
-- port of `assertHostPort` is the number that `Number` makes of it.
pub mod Limits
mod Matches
pub mod Found
pub mod Readonly
use break_pilot.Common.{
  ℕ, zero, suc, ◌+◌, ◌-◌, String, Bool, true, false, not, Option, none, some, List, [], ◌∷◌, ◌++◌,
  map, ◌==◌, nat_eq, string_eq, int_eq, list_eq, if◌then◌else◌, leb, ltb, ◌&&◌, ◌||◌, ◌otherwise◌,
  or_else, Number, integer, fraction, not_finite, ℤ, is_finite, any_of, all_of, filter_by, member,
  length, Result, ok, throw, min, max,
}
use break_pilot.Common.Dict.{is_some}
use break_pilot.Dap.Wire.{codes, strip, lower, is_space, skip_spaces}

-- `VariableLimits`; a limit may be any value, of which `Number` makes a number.
pub record VariableLimits : Type 0 where
  pub max_depth : Option Number
  pub max_items : Option Number
  pub max_string_length : Option Number
  pub redact_patterns : Option (List String)

-- The limits that are in force.
pub record RequiredLimits : Type 0 where
  pub max_depth : ℕ
  pub max_items : ℕ
  pub max_string_length : ℕ
  pub redact_patterns : List String

-- The fields of `BreakPilotPolicy` that are read here.
pub record Policy : Type 0 where
  pub allowed_hosts : List String
  pub allowed_ports : List ℤ
  pub forbid_production : Bool
  pub require_confirmation_for_unsafe : Bool
  pub variables : VariableLimits

pub data PolicyError : Type 0 where
  host_not_allowed : String → PolicyError
  port_not_allowed : Number → PolicyError
  production : (markers : List (List ℕ)) → PolicyError
  expression_required expression_too_long unsafe_unconfirmed readonly_blocked : PolicyError

abbrev pub has_port : Number → List ℤ → Bool
has_port (integer z) ports = member z ports
has_port _ ports = false

abbrev pub host_or_local : Option String → String
host_or_local none = "127.0.0.1"
host_or_local (some h) = if h == "" then "127.0.0.1" else h

-- `assertHostPort`
unfoldable pub assert_host_port : Policy → Option String → Number → Result PolicyError (Unit {0})
assert_host_port p host port =
    let h = host_or_local host in
    if not (member h p.allowed_hosts)
    then throw (host_not_allowed h)
    else if not (has_port port p.allowed_ports)
    then throw (port_not_allowed port)
    else ok tt

-- `includes` of a text.
abbrev pub includes : List ℕ → List ℕ → Bool
includes token [] = is_some (strip token [])
includes token (c ∷ cs) = is_some (strip token (c ∷ cs)) || includes token cs

abbrev pub marker_names : List String
marker_names = "NODE_ENV" ∷ "APP_ENV" ∷ "ENV" ∷ "RAILS_ENV" ∷ "SPRING_PROFILES_ACTIVE" ∷ []

-- The markers that are there and not empty, in lower case as far as "prod" is concerned.
abbrev pub markers_of : (String → Option (List ℕ)) → List String → List (List ℕ)
markers_of env [] = []
markers_of env (n ∷ ns) =
    let rest = markers_of env ns in
    elim (env n) [ none ↦ rest | some [] ↦ rest | some (c ∷ cs) ↦ map lower (c ∷ cs) ∷ rest ]

-- `assertNotProduction`, for the environment of the process and the one of the arguments.
unfoldable pub assert_not_production :
    Policy → (String → Option (List ℕ)) → (String → Option (List ℕ)) → Result PolicyError (Unit {0})
assert_not_production p process args =
    let markers = markers_of (λ n. or_else (args n) (process n)) marker_names in
    if not p.forbid_production
    then ok tt
    else if any_of (includes (codes "prod")) markers
    then throw (production markers)
    else ok tt

abbrev pub is_name_start : ℕ → Bool
is_name_start c = leb b'a' c && leb c b'z' || leb b'A' c && leb c b'Z' || c == 95 || c == 36

abbrev pub is_name_part : ℕ → Bool
is_name_part c = is_name_start c || leb b'0' c && leb c b'9'

abbrev pub is_no_paren : ℕ → Bool
is_no_paren c = not (c == 40) && not (c == 41)

-- The longest prefix of which every element passes, and the rest.
abbrev pub span : (ℕ → Bool) → List ℕ → List ℕ × List ℕ
span p [] = ([], [])
span p (c ∷ cs) = let rest = span p cs in if p c then (c ∷ rest.0, rest.1) else ([], c ∷ cs)

-- A match of `/([.]?)([a-zA-Z_$][\w$]*)\s*\(([^()]*)\)/`.
pub record CallMatch : Type 0 where
  pub dot : Bool
  pub name : List ℕ
  pub args : List ℕ

abbrev pub closed : Bool → List ℕ → List ℕ × List ℕ → Option (CallMatch × List ℕ)
closed dot name (args, []) = none
closed dot name (args, c ∷ rest) =
    if c == 41 then some (record { dot = dot; name = name; args = args }, rest) else none

abbrev pub opened : Bool → List ℕ → List ℕ → Option (CallMatch × List ℕ)
opened dot name [] = none
opened dot name (c ∷ cs) = if c == 40 then closed dot name (span is_no_paren cs) else none

abbrev pub call_at : Bool → List ℕ → Option (CallMatch × List ℕ)
call_at dot [] = none
call_at dot (c ∷ cs) =
    let (name, rest) = span is_name_part (c ∷ cs) in
    if is_name_start c then opened dot name (skip_spaces rest) else none

abbrev pub match_at : List ℕ → Option (CallMatch × List ℕ)
match_at [] = none
match_at (c ∷ cs) = if c == 46 then call_at true cs else call_at false (c ∷ cs)

-- `matchAll`; the number counts what is left of the last match.
unfoldable pub call_matches : ℕ → List ℕ → List CallMatch
call_matches n [] = []
call_matches (suc n) (c ∷ cs) = call_matches n cs
call_matches zero (c ∷ cs) =
    let next = call_matches zero cs in
    elim (match_at (c ∷ cs)) [
      | none ↦ next
      | some (m, rest) ↦ m ∷ call_matches (length cs - length rest) cs
    ]

abbrev pub blocked_member_names : List (List ℕ)
blocked_member_names = map codes (
    "add" ∷ "append" ∷ "clear" ∷ "close" ∷ "connect" ∷ "continue" ∷ "delete" ∷ "disconnect"
    ∷ "execute" ∷ "notify" ∷ "open" ∷ "put" ∷ "read" ∷ "remove" ∷ "resume" ∷ "run" ∷ "save" ∷ "send"
    ∷ "set" ∷ "sleep" ∷ "start" ∷ "stop" ∷ "update" ∷ "wait" ∷ "write" ∷ [])

abbrev pub is_allowed_call : CallMatch → Bool
is_allowed_call m = m.dot && all_of is_space m.args && not (member m.name blocked_member_names)

-- `readonlyCallCheck`
unfoldable pub readonly_call_check : List ℕ → Bool
unfolding call_matches
readonly_call_check text = all_of is_allowed_call (call_matches zero text)

abbrev pub unsafe_tokens : List (List ℕ)
unsafe_tokens =
    map codes
      ("=" ∷ "++" ∷ "--" ∷ "=>" ∷ "import " ∷ "require(" ∷ "new " ∷ "delete " ∷ "await " ∷ ";" ∷ [])

-- `assertEvaluate`
unfoldable pub assert_evaluate : Policy → List ℕ → String → Bool → Result PolicyError (Unit {0})
unfolding readonly_call_check
assert_evaluate p text mode ide_confirmation_available =
    if all_of is_space text
    then throw expression_required
    else if ltb 500 (length text)
    then throw expression_too_long
    else if mode == "unsafe"
    then (if p.require_confirmation_for_unsafe && not ide_confirmation_available
        then throw unsafe_unconfirmed
        else ok tt)
    else if mode == "readonly"
    then (if not (readonly_call_check text) || any_of (λ t. includes t text) unsafe_tokens
        then throw readonly_blocked
        else ok tt)
    else ok tt

-- `Math.max(minimum, Math.floor(n))` of a finite number, for a minimum that is not negative.
abbrev pub floored : ℕ → ℤ → ℕ
floored minimum (ℤ.pos n) = max minimum n
floored minimum (ℤ.negsuc n) = minimum

abbrev pub at_least : ℕ → Number → Option ℕ
at_least minimum (integer z) = some (floored minimum z)
at_least minimum (fraction z name) = some (floored minimum z)
at_least minimum not_finite = none

-- `boundedInteger`
unfoldable pub bounded_integer : Option Number → Number → ℕ → ℕ
bounded_integer value configured minimum =
    let maximum = at_least minimum configured otherwise minimum in
    elim value [
      | none ↦ maximum
      | some v ↦ elim (at_least minimum v) [ none ↦ maximum | some n ↦ min maximum n ]
    ]

abbrev pub configured : Option Number → ℕ → Number
configured limit standard = limit otherwise integer (ℤ.pos standard)

-- `variableLimits`
unfoldable pub variable_limits : Policy → VariableLimits → RequiredLimits
unfolding bounded_integer
variable_limits p o = record {
  max_depth = bounded_integer o.max_depth (configured p.variables.max_depth 3) 0;
  max_items = bounded_integer o.max_items (configured p.variables.max_items 50) 1;
  max_string_length =
      bounded_integer o.max_string_length (configured p.variables.max_string_length 2000) 1;
  redact_patterns = or_else o.redact_patterns p.variables.redact_patterns otherwise [];
}
