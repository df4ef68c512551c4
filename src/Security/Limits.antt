-- ===== src/Security/Limits.antt =====
-- src/security/SecurityPolicy.ts: the limits on variables stay within the policy.
use break_pilot.Common.{
  ℕ, ◌≤◌, Option, none, some, ◌≡◌, refl, ap, Number, integer, fraction, not_finite, ℤ, arith,
  ◌otherwise◌, min,
}
use break_pilot.Security.{
  VariableLimits, RequiredLimits, Policy, floored, at_least, bounded_integer, configured,
  variable_limits,
}

-- What the policy alone allows.
abbrev pub most : Policy → RequiredLimits
most p = variable_limits p (record {
  max_depth = none;
  max_items = none;
  max_string_length = none;
  redact_patterns = none;
})

-- Asking for the limits that are in force.
abbrev pub asking : RequiredLimits → VariableLimits
asking l = record {
  max_depth = some (integer (ℤ.pos l.max_depth));
  max_items = some (integer (ℤ.pos l.max_items));
  max_string_length = some (integer (ℤ.pos l.max_string_length));
  redact_patterns = some l.redact_patterns;
}

floored_least : (minimum : ℕ) (z : ℤ) → minimum ≤ floored minimum z
floored_least minimum (ℤ.pos n) = ground arith
floored_least minimum (ℤ.negsuc n) = ground arith

at_least_least :
    (minimum : ℕ) (v : Number) (d : ℕ) → minimum ≤ d → minimum ≤ (at_least minimum v otherwise d)
at_least_least minimum (integer z) d h = floored_least minimum z
at_least_least minimum (fraction z name) d h = floored_least minimum z
at_least_least minimum not_finite d h = h

module _ (given : Number) (minimum : ℕ) where
  maximum : ℕ
  maximum = at_least minimum given otherwise minimum

  bounded : Option ℕ → ℕ
  bounded none = maximum
  bounded (some n) = min maximum n

  bounded_integer-bounded :
      (v : Number) → bounded_integer (some v) given minimum ≡ bounded (at_least minimum v)
  unfolding bounded_integer bounded maximum
  bounded_integer-bounded (integer z) = refl
  bounded_integer-bounded (fraction z name) = refl
  bounded_integer-bounded not_finite = refl

  bounded_integer-bounds :
      (v : Option Number)
      → (minimum ≤ bounded_integer v given minimum)
        × (bounded_integer v given minimum ≤ bounded_integer none given minimum)
  unfolding bounded_integer
  bounded_integer-bounds none = (at_least_least minimum given minimum (ground arith), ground arith)
  bounded_integer-bounds (some (integer z)) =
      let low = at_least_least minimum given minimum (ground arith) in
      let high = floored_least minimum z in (ground (arith, low, high), ground arith)
  bounded_integer-bounds (some (fraction z name)) =
      let low = at_least_least minimum given minimum (ground arith) in
      let high = floored_least minimum z in (ground (arith, low, high), ground arith)
  bounded_integer-bounds (some not_finite) =
      (at_least_least minimum given minimum (ground arith), ground arith)

  -- A number within the bounds is kept.
  bounded_integer_kept :
      (n : ℕ)
      → minimum ≤ n
      → n ≤ bounded_integer none given minimum
      → bounded_integer (some (integer (ℤ.pos n))) given minimum ≡ n
  unfolding bounded_integer
  bounded_integer_kept n low high = ground (arith, low, high)

-- Whatever is asked for, the limits on depth, items and text lie between 0, 1 and 1 and the limits
-- that the policy alone allows; and asking for the limits that are in force gives the same limits.
pub variable_limits-bounds :
    (p : Policy) (o : VariableLimits)
    → let l = variable_limits p o in
      let m = most p in
      (l.max_depth ≤ m.max_depth)
      × ((1 ≤ l.max_items) × (l.max_items ≤ m.max_items))
      × ((1 ≤ l.max_string_length) × (l.max_string_length ≤ m.max_string_length))
      × (variable_limits p (asking l) ≡ l)
unfolding variable_limits
variable_limits-bounds p o =
    let depth = bounded_integer-bounds (configured p.variables.max_depth 3) 0 o.max_depth in
    let items = bounded_integer-bounds (configured p.variables.max_items 50) 1 o.max_items in
    let text =
      bounded_integer-bounds (configured p.variables.max_string_length 2000) 1
        o.max_string_length in
    let l = variable_limits p o in
    (
      depth.1,
      items,
      text,
      ap
          (λ (q : ℕ × ℕ × ℕ). (record {
            max_depth = q.0;
            max_items = q.1;
            max_string_length = q.2;
            redact_patterns = l.redact_patterns;
          }))
          (cc (
            bounded_integer_kept (configured p.variables.max_depth 3) 0 l.max_depth depth.0 depth.1,
            bounded_integer_kept (configured p.variables.max_items 50) 1 l.max_items items.0
                items.1,
            bounded_integer_kept (configured p.variables.max_string_length 2000) 1
                l.max_string_length text.0 text.1,
          )),
    )
