-- ===== src/Tests/Security.antt =====
-- The security policy at small inputs.
use break_pilot.Common.{
  ◌≤◌, true, false, none, some, [], ◌∷◌, ◌≡◌, refl, integer, fraction, not_finite, ℤ, ok, throw,
  member, map, ◌++◌, ◌≢◌, list_eq, string_eq, nat_eq, all_of,
}
use break_pilot.Dap.Wire.{codes, is_space}
use break_pilot.Security
use break_pilot.Security.Limits
use break_pilot.Security.Limits.{variable_limits-bounds}
use break_pilot.Security.Readonly
use break_pilot.Security.Readonly.{assert_evaluate-call, assert_evaluate-forbidden}

abbrev policy : Security.Policy
policy = record {
  allowed_hosts = "127.0.0.1" ∷ [];
  allowed_ports = ℤ.pos 5005 ∷ [];
  forbid_production = true;
  require_confirmation_for_unsafe = true;
  variables = record {
    max_depth = some (integer (ℤ.pos 3));
    max_items = some (fraction (ℤ.pos 20) 1);
    max_string_length = none;
    redact_patterns = none;
  };
}

abbrev request : Security.VariableLimits
request = record {
  max_depth = some (integer (ℤ.negsuc 4));
  max_items = some (integer (ℤ.pos 1000));
  max_string_length = some not_finite;
  redact_patterns = none;
}

variable_limits-bounds_example :
    let l = Security.variable_limits policy request in
    let m = Limits.most policy in
    (l.max_depth ≤ m.max_depth)
    × ((1 ≤ l.max_items) × (l.max_items ≤ m.max_items))
    × ((1 ≤ l.max_string_length) × (l.max_string_length ≤ m.max_string_length))
    × (Security.variable_limits policy (Limits.asking l) ≡ l)
variable_limits-bounds_example = variable_limits-bounds policy request

-- The call in `user.name()`.
assert_evaluate-call_example :
    (true ≡ true)
    × (all_of is_space [] ≡ true)
    × (member (codes "name") (map codes Readonly.blocked_names) ≡ false)
unfolding Security.assert_evaluate
assert_evaluate-call_example =
    assert_evaluate-call policy false true (codes "user") 110 (codes "ame") [] [] []
      (record { starts = refl; parts = refl; blank = refl; plain = refl }) refl refl

assert_evaluate-forbidden_example :
    Security.assert_evaluate policy (codes "i" ++ (codes "++" ++ [])) "readonly" false ≢ ok tt
assert_evaluate-forbidden_example = assert_evaluate-forbidden policy false (codes "i") [] "++" refl

-- A call whose argument is itself a call is not found, so a name that is blocked passes.
nested_call_passes :
    Security.assert_evaluate policy (codes "list.add(user.name())") "readonly" false ≡ ok tt
unfolding Security.assert_evaluate
nested_call_passes = refl

plain_call_blocked :
    Security.assert_evaluate policy (codes "list.add(1)") "readonly" false
    ≡ throw Security.readonly_blocked
unfolding Security.assert_evaluate
plain_call_blocked = refl

indexed_call_passes :
    Security.assert_evaluate policy (codes "handlers[0](1)") "readonly" false ≡ ok tt
unfolding Security.assert_evaluate
indexed_call_passes = refl
