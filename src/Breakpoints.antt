-- ===== src/Breakpoints.antt =====
-- src/types/sessions.ts and src/types/dap.ts: the breakpoint records that the manager, the
-- reconciler and the runtime providers exchange. A field that may be undefined is an `Option`.
pub mod Manager
pub mod Evidence
pub mod Patch
pub mod Reconciler
pub mod Projects
use break_pilot.Common.{
  ℕ, String, Bool, true, false, Option, none, some, ◌≡◌, ◌↔◌, arith, Eq, ◌==◌, ℤ, List,
}

-- A field declared `?: T | null`.
pub data Nullable {ℓ} (A : Type ℓ) : Type ℓ where
  undefined null : Nullable A
  value : A → Nullable A

module _ {ℓ} {A : Type ℓ} ⦃e : Eq A⦄ where
  abbrev pub nullable_beq : Nullable A → Nullable A → Bool
  nullable_beq undefined undefined = true
  nullable_beq null null = true
  nullable_beq (value a) (value b) = a == b
  nullable_beq _ _ = false

-- `BreakpointInput`
pub record BreakpointInput : Type 0 where
  pub id : Option String
  pub file : String
  pub line : ℤ
  pub column : Option ℤ
  pub condition : Nullable String
  pub hit_condition : Nullable String
  pub log_message : Nullable String
  pub enabled : Option Bool
  pub temporary : Option Bool
  pub suspend_policy : Option String
  pub is_log_message : Option Bool
  pub is_log_stack : Option Bool
  pub owner : Option String

-- `number | string`
pub data AdapterId : Type 0 where
  number : ℤ → AdapterId
  text : String → AdapterId

-- `BreakpointRecord`
pub record Breakpoint : Type 0 where
  pub id : String
  pub session_id : String
  pub file : String
  pub line : ℤ
  pub column : Option ℤ
  pub condition : Nullable String
  pub hit_condition : Nullable String
  pub log_message : Nullable String
  pub enabled : Bool
  pub temporary : Bool
  pub suspend_policy : Option String
  pub is_log_message : Option Bool
  pub is_log_stack : Option Bool
  pub owner : String
  pub verified : Bool
  pub adapter_breakpoint_id : Option AdapterId
  pub ide_breakpoint_id : Option String
  pub message : Option String
  pub created_at : String

-- `DapBreakpoint`: what an adapter says of one breakpoint.
pub record DapBreakpoint : Type 0 where
  pub id : Option ℤ
  pub verified : Bool
  pub message : Option String
  pub line : Option ℤ
  pub column : Option ℤ
