-- ===== src/Security/Found.antt =====
-- src/security/SecurityPolicy.ts: a call in an expression, as `readonlyCallCheck` finds it.
use break_pilot.Common.{
  ℕ, zero, Bool, true, false, Option, none, some, List, [], ◌∷◌, ◌++◌, ◌≡◌, refl, ap, ◌∙◌, ◌==◌,
  nat_eq, list_eq, string_eq, if◌then◌else◌, all_of, arith, Bool-cases, inl, inr,
}
use break_pilot.Dap.Wire.{is_space, skip_spaces}
use break_pilot.Security.{
  is_name_start, is_name_part, is_no_paren, span, CallMatch, closed, opened, call_at, match_at,
  call_matches, is_allowed_call,
}
use break_pilot.Security.Matches.{is_apart, call_matches-found}

-- A call in an expression: a name behind a dot or not, spaces, and arguments in parentheses.
abbrev pub dotted : Bool → List ℕ → List ℕ
dotted true text = 46 ∷ text
dotted false text = text

abbrev pub call_text : Bool → ℕ → List ℕ → List ℕ → List ℕ → List ℕ → List ℕ
call_text dot first name spaces args after =
    dotted dot (first ∷ name ++ (spaces ++ 40 ∷ (args ++ 41 ∷ after)))

span_stops :
    (p : ℕ → Bool) (xs : List ℕ) (d : ℕ) (ys : List ℕ)
    → all_of p xs ≡ true
    → p d ≡ false
    → span p (xs ++ d ∷ ys) ≡ (xs, d ∷ ys)
span_stops p [] d ys h stop = rw stop
span_stops p (x ∷ xs) d ys h stop = elim (Bool-cases (p x)) [
  | inl part ↦ rw (part, span_stops p xs d ys (rw part at h) stop)
  | inr end ↦ absurd (ground (arith, h, end))
]

skip_spaces_all :
    (spaces : List ℕ) (ys : List ℕ)
    → all_of is_space spaces ≡ true
    → skip_spaces (spaces ++ 40 ∷ ys) ≡ 40 ∷ ys
skip_spaces_all [] ys h = refl
skip_spaces_all (x ∷ xs) ys h = elim (Bool-cases (is_space x)) [
  | inl part ↦ rw (part, skip_spaces_all xs ys (rw part at h))
  | inr end ↦ absurd (ground (arith, h, end))
]

no_name_part : (c : ℕ) → is_space c ≡ true → is_name_part c ≡ false
no_name_part c h = ground (arith, h)

space_no_paren : (c : ℕ) → is_space c ≡ true → is_no_paren c ≡ true
space_no_paren c h = ground (arith, h)

name_no_paren : (c : ℕ) → is_name_part c ≡ true → is_no_paren c ≡ true
name_no_paren c h = ground (arith, h)

start_no_space : (c : ℕ) → is_name_start c ≡ true → is_space c ≡ false
start_no_space c h = ground (arith, h)

start_no_dot : (c : ℕ) → is_name_start c ≡ true → (c == 46) ≡ false
start_no_dot c h = ground (arith, h)

-- What comes before the first parenthesis does not matter to it.
passed :
    (p : ℕ → Bool) (xs ys zs : List ℕ)
    → ((c : ℕ) → p c ≡ true → is_no_paren c ≡ true)
    → all_of p xs ≡ true
    → (span is_no_paren ys).1 ≡ zs
    → (span is_no_paren (xs ++ ys)).1 ≡ zs
passed p [] ys zs kind h e = e
passed p (x ∷ xs) ys zs kind h e = elim (Bool-cases (p x)) [
  | inl part ↦ rw (kind x part) (passed p xs ys zs kind (rw part at h) e)
  | inr end ↦ absurd (ground (arith, h, end))
]

name_end :
    (first : ℕ) (name spaces ys : List ℕ)
    → is_name_start first ≡ true
    → all_of is_name_part name ≡ true
    → all_of is_space spaces ≡ true
    → span is_name_part (first ∷ name ++ (spaces ++ 40 ∷ ys)) ≡ (first ∷ name, spaces ++ 40 ∷ ys)
name_end first name [] ys start parts blank =
    span_stops is_name_part (first ∷ name) 40 ys (rw start parts) refl
name_end first name (x ∷ spaces) ys start parts blank =
    span_stops is_name_part (first ∷ name) x (spaces ++ 40 ∷ ys) (rw start parts)
      (no_name_part x (ground (arith, blank)))

named :
    (dot : Bool) (c : ℕ) (cs : List ℕ) (x : List ℕ × List ℕ)
    → span is_name_part (c ∷ cs) ≡ x
    → is_name_start c ≡ true
    → call_at dot (c ∷ cs) ≡ opened dot x.0 (skip_spaces x.1)
named dot c cs x e start = ap go e ∙ rw start refl
  where
    go : List ℕ × List ℕ → Option (CallMatch × List ℕ)
    go (name, rest) = if is_name_start c then opened dot name (skip_spaces rest) else none

-- The name, the spaces and the arguments of a call.
pub record IsCall (first : ℕ) (name spaces args : List ℕ) : Type 0 where
  pub starts : is_name_start first ≡ true
  pub parts : all_of is_name_part name ≡ true
  pub blank : all_of is_space spaces ≡ true
  pub plain : all_of is_no_paren args ≡ true

module _ (first : ℕ) (name spaces args after : List ℕ) (call : IsCall first name spaces args) where
  abbrev here : Bool → CallMatch
  here dot = record { dot = dot; name = first ∷ name; args = args }

  call_at-text :
      (dot : Bool)
      → call_at dot (call_text false first name spaces args after) ≡ some (here dot, after)
  call_at-text dot =
      named dot first (name ++ (spaces ++ 40 ∷ (args ++ 41 ∷ after))) _
        (name_end first name spaces (args ++ 41 ∷ after) call.starts call.parts call.blank)
        call.starts
      ∙ ap (opened dot (first ∷ name)) (skip_spaces_all spaces (args ++ 41 ∷ after) call.blank)
      ∙ ap (closed dot (first ∷ name)) (span_stops is_no_paren args 41 after call.plain refl)

  match_at-text :
      (dot : Bool) → match_at (call_text dot first name spaces args after) ≡ some (here dot, after)
  match_at-text true = call_at-text true
  match_at-text false = rw (start_no_dot first call.starts) (call_at-text false)

  first_paren :
      (span is_no_paren (call_text false first name spaces args after)).1
      ≡ 40 ∷ (args ++ 41 ∷ after)
  first_paren =
      passed is_name_part (first ∷ name) (spaces ++ 40 ∷ (args ++ 41 ∷ after)) _ name_no_paren
        (rw call.starts call.parts)
        (passed is_space spaces (40 ∷ (args ++ 41 ∷ after)) _ space_no_paren call.blank refl)

  -- An expression whose calls are all allowed has no call but such ones.
  pub found-allowed :
      (dot : Bool) (before : List ℕ)
      → is_apart dot before ≡ true
      → all_of is_allowed_call
          (call_matches zero (before ++ call_text dot first name spaces args after))
        ≡ true
      → is_allowed_call (here dot) ≡ true
  found-allowed true before apart =
      call_matches-found true 46 (call_text false first name spaces args after) (args ++ 41 ∷ after)
        refl refl (λ own. refl) first_paren zero before (here true) after (omega arith) apart
        (match_at-text true)
  found-allowed false before apart =
      call_matches-found false first (name ++ (spaces ++ 40 ∷ (args ++ 41 ∷ after)))
        (args ++ 41 ∷ after) (start_no_space first call.starts)
        (name_no_paren first (rw call.starts refl)) (λ own. absurd (cc own)) first_paren zero before
        (here false) after (omega arith) apart (match_at-text false)
