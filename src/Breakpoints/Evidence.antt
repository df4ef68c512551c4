-- ===== src/Breakpoints/Evidence.antt =====
-- src/sessions/BreakpointReconciler.ts: what a runtime provider answers to `setBreakpoints`, an
-- untrusted JavaScript value, and its normalisation into breakpoint evidence.
use Prim.Native.Char.{code}
use Prim.Native.String.{[], ◌∷◌}
use break_pilot.Common.{
  ℕ, String, Bool, true, false, Option, none, some, List, ◌==◌, if◌then◌else◌, ℤ, is_safe_integer,
  length, all_of, find_by, leb, ◌&&◌, ◌||◌, nat_eq, string_eq, ◌otherwise◌, or_else,
}
use break_pilot.Breakpoints.{Breakpoint, DapBreakpoint, number}

-- The value of a property, as far as the normalisation tells values apart.
pub data EvidenceValue : Type 0 where
  undefined other fraction : EvidenceValue
  boolean : Bool → EvidenceValue
  integer : ℤ → EvidenceValue
  string : String → EvidenceValue

-- A property descriptor; an accessor has no value.
pub record Descriptor {ℓ} (A : Type ℓ) : Type ℓ where
  pub enumerable : Bool
  pub value : Option A

-- A property whose key is a symbol has no name.
pub record Property : Type 0 where
  pub name : Option String
  pub descriptor : Descriptor EvidenceValue

-- `exotic` is an object whose prototype is neither `Object.prototype` nor null.
pub data Entry : Type 0 where
  primitive array proxy exotic : Entry
  plain : List Property → Entry

-- What the promise is fulfilled with; an array may have holes.
pub data Responses : Type 0 where
  not_array proxy_array : Responses
  array : List (Option (Descriptor Entry)) → Responses

-- What was thrown: an object with an own data property `code` that is a string, or anything else.
pub data Thrown : Type 0 where
  coded : String → Thrown
  uncoded : Thrown

pub data Reply : Type 0 where
  fulfilled : Responses → Reply
  rejected : Thrown → Reply

-- A throw inside the normalisation is caught and replaced by one error, so `none` stands for it.
infixl 5 ◌>>=◌ ◌>>◌
abbrev pub ◌>>=◌ : {A B : Type 0} → Option A → (A → Option B) → Option B
none >>= k = none
some a >>= k = k a

abbrev pub ◌>>◌ : {A B : Type 0} → Option A → Option B → Option B
m >> k = m >>= λ _. k

abbrev pub assert : Bool → Option (Unit {0})
assert true = some tt
assert false = none

-- The value behind a descriptor that is enumerable and no accessor.
abbrev pub safe_value : {A : Type 0} → Descriptor A → Option A
safe_value d = if d.enumerable then d.value else none

abbrev pub is_safe_property : Property → Bool
is_safe_property p = elim p.name [
  | none ↦ false
  | some n ↦ elim (safe_value p.descriptor) [ none ↦ false | some v ↦ true ]
]

abbrev pub has_name : String → Property → Bool
has_name key p = elim p.name [ none ↦ false | some n ↦ n == key ]

-- `#requiredEvidenceValue`
abbrev pub required_value : List Property → String → Option EvidenceValue
required_value props key = elim (find_by (has_name key) props) [
  | none ↦ none
  | some p ↦ safe_value p.descriptor
]

-- `#optionalEvidenceValue`
abbrev pub optional_value : List Property → String → Option EvidenceValue
optional_value props key = elim (find_by (has_name key) props) [
  | none ↦ some undefined
  | some p ↦ safe_value p.descriptor
]

abbrev pub as_boolean : EvidenceValue → Option Bool
as_boolean (boolean b) = some b
as_boolean _ = none

-- An optional safe integer.
abbrev pub as_integer : EvidenceValue → Option (Option ℤ)
as_integer undefined = some none
as_integer (integer n) = if is_safe_integer n then some (some n) else none
as_integer _ = none

abbrev pub as_string : EvidenceValue → Option (Option String)
as_string undefined = some none
as_string (string s) = some (some s)
as_string _ = none

-- `#normalizeAdapterEvidenceEntry`
unfoldable pub normalize_entry : Entry → Option DapBreakpoint
normalize_entry (plain props) = do
  assert (all_of is_safe_property props)
  v ← required_value props "verified"
  verified ← as_boolean v
  i ← optional_value props "id"
  id ← as_integer i
  m ← optional_value props "message"
  message ← as_string m
  l ← optional_value props "line"
  line ← as_integer l
  c ← optional_value props "column"
  column ← as_integer c
  some (record { id = id; verified = verified; message = message; line = line; column = column })
normalize_entry _ = none

unfoldable pub normalize_entries : List (Option (Descriptor Entry)) → Option (List DapBreakpoint)
unfolding normalize_entry
normalize_entries List.[] = some List.[]
normalize_entries (List.◌∷◌ none ds) = none
normalize_entries (List.◌∷◌ (some d) ds) =
    let rest = normalize_entries ds in
    do e ← safe_value d; n ← normalize_entry e; ns ← rest; some (List.◌∷◌ n ns)

-- `#normalizeAdapterEvidence`: one well-formed entry for each breakpoint that was sent.
unfoldable pub normalize_evidence : List Breakpoint → Responses → Option (List DapBreakpoint)
unfolding normalize_entries
normalize_evidence desired (array ds) =
    if length ds == length desired then normalize_entries ds else none
normalize_evidence desired _ = none

abbrev pub project_one : DapBreakpoint → Breakpoint → Breakpoint
project_one d b = record b {
  verified = d.verified;
  message = or_else d.message b.message;
  adapter_breakpoint_id = elim d.id [ none ↦ b.adapter_breakpoint_id | some n ↦ some (number n) ];
  line = d.line otherwise b.line;
  column = or_else d.column b.column;
}

-- `#projectAdapterEvidence`: what the adapter said, written into the breakpoints that were sent.
unfoldable pub project_evidence : List Breakpoint → List DapBreakpoint → List Breakpoint
project_evidence List.[] ds = List.[]
project_evidence (List.◌∷◌ b bs) List.[] = List.◌∷◌ b (project_evidence bs List.[])
project_evidence (List.◌∷◌ b bs) (List.◌∷◌ d ds) =
    List.◌∷◌ (project_one d b) (project_evidence bs ds)

-- The characters of /^[A-Z][A-Z0-9_:-]{0,127}$/.
abbrev is_upper : ℕ → Bool
is_upper c = leb b'A' c && leb c b'Z'

abbrev is_code_char : ℕ → Bool
is_code_char c = is_upper c || (leb b'0' c && leb c b'9') || c == b'_' || c == b':' || c == b'-'

-- At most so many characters, all of the class.
code_tail : ℕ → String → Bool
code_tail n [] = true
code_tail n (c ∷ s) =
    let rest = code_tail (elim n [ ℕ.zero ↦ 0 | ℕ.suc k ↦ k ]) s in
    if n == 0 then false else is_code_char (code c) && rest

abbrev is_code : String → Bool
is_code [] = false
is_code (c ∷ s) = is_upper (code c) && code_tail 127 s

-- `#safeCauseCode`
unfoldable pub safe_cause_code : Thrown → String
unfolding code_tail
safe_cause_code uncoded = "PROVIDER_REPLACEMENT_FAILED"
safe_cause_code (coded c) = if is_code c then c else "PROVIDER_REPLACEMENT_FAILED"
