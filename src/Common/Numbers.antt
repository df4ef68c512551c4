-- ===== src/Common/Numbers.antt =====
-- JavaScript numbers as far as the program looks at them: the integers, and what is not one.
use Prim.Native.Nat.{ℕ, ◌^◌, ◌-◌, min, max}
use mathlib.Core.Path.{◌≡◌}
use mathlib.Core.Logic.{◌↔◌}
use mathlib.Core.Bool.{Bool, true, false}
use native.Mathlib.Omega.{arith}
use break_pilot.Common.Tests.{Eq, ◌==◌, leb, nat_eq, nat_beq_iff}

-- `negsuc n` is -(n + 1).
pub data ℤ : Type 0 where
  pos : ℕ → ℤ
  negsuc : ℕ → ℤ

abbrev pub int_beq : ℤ → ℤ → Bool
int_beq (pos a) (pos b) = a == b
int_beq (negsuc a) (negsuc b) = a == b
int_beq _ _ = false

pub int_beq_iff : (a b : ℤ) → (int_beq a b ≡ true) ↔ (a ≡ b)
int_beq_iff (pos a) (pos b) = ground (arith, nat_beq_iff a b)
int_beq_iff (pos a) (negsuc b) = ground arith
int_beq_iff (negsuc a) (pos b) = ground arith
int_beq_iff (negsuc a) (negsuc b) = ground (arith, nat_beq_iff a b)

instance abbrev pub int_eq : Eq ℤ
int_eq = record { beq = int_beq; beq_iff = int_beq_iff }

-- `Number.isSafeInteger` on an integer: its magnitude is at most 2 ^ 53 - 1.
abbrev pub is_safe_integer : ℤ → Bool
is_safe_integer (pos n) = leb n (2 ^ 53 - 1)
is_safe_integer (negsuc n) = leb n (2 ^ 53 - 2)

-- A JavaScript number. A fraction is its truncation with a name for what is cut off; NaN and the
-- infinities are not told apart.
pub data Number : Type 0 where
  integer : ℤ → Number
  fraction : ℤ → ℕ → Number
  not_finite : Number

-- `Number.isFinite`
abbrev pub is_finite : Number → Bool
is_finite not_finite = false
is_finite _ = true

abbrev pub at_least_one : ℤ → ℕ
at_least_one (pos n) = max 1 n
at_least_one (negsuc n) = 1

-- `Math.min(most, Math.max(1, Math.trunc(n)))` of a finite number, and a default for the others.
abbrev pub truncate_within : ℕ → ℕ → Number → ℕ
truncate_within most d (integer z) = min most (at_least_one z)
truncate_within most d (fraction t name) = min most (at_least_one t)
truncate_within most d not_finite = d
