-- ===== src/Security/Readonly.antt =====
-- src/security/SecurityPolicy.ts: what an expression that may be evaluated in mode "readonly" is
-- like.
use break_pilot.Common.{
  ℕ, zero, Bool, true, false, not, some, String, List, [], ◌∷◌, ◌++◌, map, ◌≡◌, ◌≢◌, refl, ◌==◌,
  nat_eq, list_eq, string_eq, ◌&&◌, all_of, any_of, member, ok, arith, Bool-cases, inl, inr,
  eq_of_beq, eq_refl,
}
use break_pilot.Dap.Wire.{codes, is_space, strip}
use break_pilot.Security.{
  Policy, includes, call_matches, is_allowed_call, readonly_call_check, assert_evaluate,
  unsafe_tokens,
}
use break_pilot.Security.Matches.{is_apart}
use break_pilot.Security.Found.{IsCall, call_text, found-allowed}

-- The names of members that change something or wait.
abbrev pub blocked_names : List String
blocked_names =
    "add" ∷ "append" ∷ "clear" ∷ "close" ∷ "connect" ∷ "continue" ∷ "delete" ∷ "disconnect"
    ∷ "execute" ∷ "notify" ∷ "open" ∷ "put" ∷ "read" ∷ "remove" ∷ "resume" ∷ "run" ∷ "save" ∷ "send"
    ∷ "set" ∷ "sleep" ∷ "start" ∷ "stop" ∷ "update" ∷ "wait" ∷ "write" ∷ []

assert_evaluate-admitted :
    (p : Policy) (text : List ℕ) (confirmed : Bool)
    → assert_evaluate p text "readonly" confirmed ≡ ok tt
    → (all_of is_allowed_call (call_matches zero text) ≡ true)
      × (any_of (λ t. includes t text) unsafe_tokens ≡ false)
unfolding assert_evaluate readonly_call_check
assert_evaluate-admitted p text confirmed h = (ground (arith, h), ground (arith, h))

-- In an expression that may be evaluated in mode "readonly", every call of a name whose arguments
-- have no parenthesis, wherever it stands, is a call of a member, without arguments but spaces, and
-- its name is not one of those that are blocked. (Without a dot, the name does not go on to the
-- left and there is no dot before it.)
pub assert_evaluate-call :
    (p : Policy) (confirmed dot : Bool) (before : List ℕ) (first : ℕ)
    (name spaces args after : List ℕ)
    → IsCall first name spaces args
    → is_apart dot before ≡ true
    → assert_evaluate p (before ++ call_text dot first name spaces args after) "readonly" confirmed
      ≡ ok tt
    → (dot ≡ true)
      × (all_of is_space args ≡ true)
      × (member (first ∷ name) (map codes blocked_names) ≡ false)
assert_evaluate-call p confirmed dot before first name spaces args after call apart h =
    split dot (all_of is_space args) (member (first ∷ name) (map codes blocked_names)) (
      found-allowed first name spaces args after call dot before apart
        (assert_evaluate-admitted p (before ++ call_text dot first name spaces args after) confirmed
          h).0)
  where
    split : (a b c : Bool) → (a && b && not c) ≡ true → (a ≡ true) × (b ≡ true) × (c ≡ false)
    split true true false h = (refl, refl, refl)
    split true true true h = absurd (cc h)
    split true false c h = absurd (cc h)
    split false b c h = absurd (cc h)

strip-append : (t after : List ℕ) → strip t (t ++ after) ≡ some after
strip-append [] after = refl
strip-append (c ∷ t) after = rw (eq_refl c) (strip-append t after)

includes_between : (before t after : List ℕ) → includes t (before ++ (t ++ after)) ≡ true
includes_between [] [] [] = refl
includes_between [] [] (c ∷ after) = refl
includes_between [] (c ∷ t) after = rw (eq_refl c) (rw (strip-append t after) refl)
includes_between (b ∷ before) t after = ground (arith, includes_between before t after)

-- The signs and words that an expression must not have.
abbrev pub forbidden : List String
forbidden =
    "=" ∷ "++" ∷ "--" ∷ "=>" ∷ "import " ∷ "require(" ∷ "new " ∷ "delete " ∷ "await " ∷ ";" ∷ []

any_of-member :
    (t : String) (ts : List String) (text : List ℕ)
    → member t ts ≡ true
    → includes (codes t) text ≡ true
    → any_of (λ u. includes u text) (map codes ts) ≡ true
any_of-member t [] text h there = absurd (cc h)
any_of-member t (u ∷ ts) text h there = elim (Bool-cases (u == t)) [
  | inl same ↦ rw (eq_of_beq u t same) (rw there refl)
  | inr other ↦ ground (arith, other, any_of-member t ts text (rw other at h) there)
]

-- An expression that has one of the forbidden signs or words anywhere is not evaluated in mode
-- "readonly", whatever the policy.
pub assert_evaluate-forbidden :
    (p : Policy) (confirmed : Bool) (before after : List ℕ) (token : String)
    → member token forbidden ≡ true
    → assert_evaluate p (before ++ (codes token ++ after)) "readonly" confirmed ≢ ok tt
assert_evaluate-forbidden p confirmed before after token one admitted =
    let clean =
      (assert_evaluate-admitted p (before ++ (codes token ++ after)) confirmed admitted).1 in
    let found =
      any_of-member token forbidden (before ++ (codes token ++ after)) one
        (includes_between before (codes token) after) in
    cc (clean, found)
