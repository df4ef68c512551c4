-- ===== src/Handles.antt =====
-- src/runtime/AgentHandleRegistry.ts: names that an agent uses for runtime values, each good for
-- one pause of one session.
pub mod Pauses
pub mod Staleness
use break_pilot.Common.{
  ℕ, ◌+◌, String, Bool, true, false, Option, none, some, List, [], ◌≡◌, ◌==◌, ◌↔◌, if◌then◌else◌,
  nat_eq, string_eq, option_eq, pair_eq, list_eq, int_eq, ℤ, Eq, Result, ok, throw, ◌otherwise◌,
  arith, nat_beq_iff, int_beq_iff, ◌>>=◌, ◌||◌,
}
use break_pilot.Common.Dict
use break_pilot.Common.Dict.{Dict}

-- `RuntimeReference`
pub data Reference : Type 0 where
  number : ℤ → Reference
  name : String → Reference

abbrev pub reference_beq : Reference → Reference → Bool
reference_beq (number a) (number b) = a == b
reference_beq (name a) (name b) = a == b
reference_beq _ _ = false

pub reference_beq_iff : (a b : Reference) → (reference_beq a b ≡ true) ↔ (a ≡ b)
reference_beq_iff (number a) (number b) = ground (arith, int_beq_iff a b)
reference_beq_iff (number a) (name b) = ground arith
reference_beq_iff (name a) (number b) = ground arith
reference_beq_iff (name a) (name b) = ground (arith, string_eq.beq_iff a b)

instance abbrev pub reference_eq : Eq Reference
reference_eq = record { beq = reference_beq; beq_iff = reference_beq_iff }

pub data MutationMode : Type 0 where
  native evaluate_assignment : MutationMode

-- `AgentHandleTarget`
pub record Target : Type 0 where
  pub provider_ref : Option Reference
  pub parent_ref : Option Reference
  pub name : String
  pub path : Option (List String)
  pub modifiable : Option Bool
  pub mutation_mode : Option MutationMode

-- A handle: `numbered n` is the text of "v" and the digits of n, `foreign` any other text.
pub data Handle : Type 0 where
  numbered : ℕ → Handle
  foreign : String → Handle

abbrev pub handle_beq : Handle → Handle → Bool
handle_beq (numbered a) (numbered b) = a == b
handle_beq (foreign a) (foreign b) = a == b
handle_beq _ _ = false

pub handle_beq_iff : (a b : Handle) → (handle_beq a b ≡ true) ↔ (a ≡ b)
handle_beq_iff (numbered a) (numbered b) = ground (arith, nat_beq_iff a b)
handle_beq_iff (numbered a) (foreign b) = ground arith
handle_beq_iff (foreign a) (numbered b) = ground arith
handle_beq_iff (foreign a) (foreign b) = ground (arith, string_eq.beq_iff a b)

instance abbrev pub handle_eq : Eq Handle
handle_eq = record { beq = handle_beq; beq_iff = handle_beq_iff }

-- What `targetKey` writes as JSON, which tells apart any two of these.
abbrev pub TargetKey : Type 0
TargetKey = Option Reference × (Option Reference × (String × List String))

-- `targetKey`
unfoldable pub target_key : Target → TargetKey
target_key t = (t.provider_ref, (t.parent_ref, (t.name, t.path otherwise [])))

-- `SessionHandles`
pub record SessionHandles : Type 0 where
  pub pause_id : Option ℕ
  pub next_id : ℕ
  pub active : Dict Handle Target
  pub by_target : Dict TargetKey Handle
  pub issued_at : Dict Handle ℕ

abbrev pub Registry : Type 0
Registry = Dict String SessionHandles

pub data HandleError : Type 0 where
  stale : Option Handle → Option ℕ → ℕ → HandleError
  unknown : Handle → ℕ → HandleError

abbrev pub new_session : SessionHandles
new_session = record { pause_id = none; next_id = 1; active = []; by_target = []; issued_at = [] }

-- `#state`, but for the insertion, which its callers do with `Dict.put`.
abbrev pub state_of : String → Registry → SessionHandles
state_of sid r = Dict.get sid r otherwise new_session

abbrev pub turned : Option ℕ → SessionHandles → SessionHandles
turned pause_id s = record s { pause_id = pause_id; active = []; by_target = [] }

-- `beginPause`
unfoldable pub begin_pause : String → ℕ → Registry → Registry
begin_pause sid pause_id r =
    let s = state_of sid r in
    Dict.put sid (if s.pause_id == some pause_id then s else turned (some pause_id) s) r

-- `invalidate`
unfoldable pub invalidate : String → Registry → Registry
invalidate sid r = elim (Dict.get sid r) [ none ↦ r | some s ↦ Dict.put sid (turned none s) r ]

-- `clear`
unfoldable pub clear : String → Registry → Registry
clear sid r = Dict.remove sid r

-- `#assertCurrentPause`
abbrev pub assert_current_pause : SessionHandles → ℕ → Result HandleError (Option ℕ)
assert_current_pause s pause_id =
    if s.pause_id == some pause_id then ok s.pause_id else throw (stale none s.pause_id pause_id)

abbrev pub issued : ℕ → Target → SessionHandles → SessionHandles
issued pause_id target s =
    let handle = numbered s.next_id in
    record s {
      next_id = s.next_id + 1;
      active = Dict.put handle target s.active;
      by_target = Dict.put (target_key target) handle s.by_target;
      issued_at = Dict.put handle pause_id s.issued_at;
    }

-- The part of `register` that is about one session.
unfoldable pub register_in :
    ℕ → Target → SessionHandles → Result HandleError (SessionHandles × Handle)
unfolding target_key
register_in pause_id target s = assert_current_pause s pause_id >>= λ _.
    elim (Dict.get (target_key target) s.by_target) [
      | some handle ↦ ok (s, handle)
      | none ↦ ok (issued pause_id target s, numbered s.next_id)
    ]

-- `register`; when it throws, a session that is new is there all the same, with no handles.
unfoldable pub register : String → ℕ → Target → Registry → Registry × Result HandleError Handle
unfolding register_in
register sid pause_id target r = elim (register_in pause_id target (state_of sid r)) [
  | throw e ↦ (Dict.put sid (state_of sid r) r, throw e)
  | ok (s, handle) ↦ (Dict.put sid s r, ok handle)
]

abbrev pub found_target : Handle → ℕ → Option Target → Result HandleError Target
found_target handle pause_id none = throw (unknown handle pause_id)
found_target handle pause_id (some target) = ok target

-- The part of `resolve` about a session that is there.
unfoldable pub resolve_in : ℕ → Handle → SessionHandles → Result HandleError Target
resolve_in pause_id handle s =
    let issue = Dict.get handle s.issued_at in
    if issue == none || issue == some pause_id
    then if s.pause_id == some pause_id
      then found_target handle pause_id (Dict.get handle s.active)
      else throw (stale (some handle) issue pause_id)
    else throw (stale (some handle) issue pause_id)

-- `resolve`
unfoldable pub resolve : String → ℕ → Handle → Registry → Result HandleError Target
unfolding resolve_in
resolve sid pause_id handle r = elim (Dict.get sid r) [
  | none ↦ throw (stale (some handle) none pause_id)
  | some s ↦ resolve_in pause_id handle s
]
