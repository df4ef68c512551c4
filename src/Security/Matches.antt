-- ===== src/Security/Matches.antt =====
-- src/security/SecurityPolicy.ts: the calls that `matchAll` finds in an expression.
use break_pilot.Common.{
  ℕ, zero, suc, ◌-◌, ◌≤◌, Bool, true, false, not, Option, none, some, List, [], ◌∷◌, ◌++◌, ◌≡◌,
  refl, sym, subst, ◌==◌, nat_eq, ◌&&◌, ◌||◌, all_of, length, length-append, arith, Bool-cases,
  either_way, inl, inr,
}
use break_pilot.Dap.Wire.{is_space, skip_spaces}
use break_pilot.Security.{
  is_name_start, is_name_part, is_no_paren, span, CallMatch, closed, opened, call_at, match_at,
  call_matches, is_allowed_call,
}

-- A text that does not run on into a name or a dot, if what follows has no dot of its own.
abbrev pub is_apart : Bool → List ℕ → Bool
is_apart true before = true
is_apart false [] = true
is_apart false (c ∷ []) = not (is_name_part c || c == 46)
is_apart false (c ∷ d ∷ cs) = is_apart false (d ∷ cs)

is_apart-tail :
    (dot : Bool) (c : ℕ) (cs : List ℕ) → is_apart dot (c ∷ cs) ≡ true → is_apart dot cs ≡ true
is_apart-tail true c cs h = refl
is_apart-tail false c [] h = refl
is_apart-tail false c (d ∷ cs) h = h

is_apart-nil : (dot : Bool) → is_apart dot [] ≡ true
is_apart-nil true = refl
is_apart-nil false = refl

own_dot : (dot : Bool) (x : ℕ) → is_apart dot (x ∷ []) ≡ true → is_name_part x ≡ true → dot ≡ true
own_dot true x apart part = refl
own_dot false x apart part = absurd (ground (arith, apart, part))

own_dot_after : (dot : Bool) (x : ℕ) → is_apart dot (x ∷ []) ≡ true → (x == 46) ≡ true → dot ≡ true
own_dot_after true x apart point = refl
own_dot_after false x apart point = absurd (ground (arith, apart, point))

-- The matches from one of a position on.
abbrev after_match : Option (CallMatch × List ℕ) → List ℕ → List CallMatch
after_match none cs = call_matches zero cs
after_match (some (m, rest)) cs = m ∷ call_matches (length cs - length rest) cs

call_matches_step :
    (c : ℕ) (cs : List ℕ) → call_matches zero (c ∷ cs) ≡ after_match (match_at (c ∷ cs)) cs
unfolding call_matches
call_matches_step c cs = go (match_at (c ∷ cs))
  where
    go :
        (o : Option (CallMatch × List ℕ))
        → (elim o [
          | none ↦ call_matches zero cs
          | some (m, rest) ↦ m ∷ call_matches (length cs - length rest) cs
        ])
          ≡ after_match o cs
    go none = refl
    go (some (m, rest)) = refl

all_first :
    (m : CallMatch) (ms : List CallMatch)
    → all_of is_allowed_call (m ∷ ms) ≡ true
    → is_allowed_call m ≡ true
all_first m ms h = go (is_allowed_call m) h
  where
    go : (b : Bool) → (b && all_of is_allowed_call ms) ≡ true → b ≡ true
    go true h = refl
    go false h = h

all_rest :
    (m : CallMatch) (ms : List CallMatch)
    → all_of is_allowed_call (m ∷ ms) ≡ true
    → all_of is_allowed_call ms ≡ true
all_rest m ms h = go (is_allowed_call m) h
  where
    go : (b : Bool) → (b && all_of is_allowed_call ms) ≡ true → all_of is_allowed_call ms ≡ true
    go true h = h
    go false h = absurd (cc h)

-- A rest of the expression, which starts with neither space nor parenthesis, and with no character
-- of a name if it has a dot of its own; its first parenthesis is an opening one.
module _ (dot : Bool) (r : ℕ) (rs tail : List ℕ) (no_space : is_space r ≡ false)
    (no_paren : is_no_paren r ≡ true) (stops : dot ≡ true → is_name_part r ≡ false)
    (opens : (span is_no_paren (r ∷ rs)).1 ≡ 40 ∷ tail) where
  abbrev Ends : List ℕ → Type 0
  Ends s = (ys : List ℕ) × (s ≡ ys ++ r ∷ rs)

  abbrev Starts : List ℕ → Type 0
  Starts [] = dot ≡ true
  Starts (x ∷ xs) = Unit

  span-Ends :
      (xs : List ℕ) → is_apart dot xs ≡ true → Starts xs → Ends (span is_name_part (xs ++ r ∷ rs)).1
  span-Ends [] apart starts = rw (stops starts) ([], refl)
  span-Ends (x ∷ []) apart starts = elim (Bool-cases (is_name_part x)) [
    | inr end ↦ rw end (x ∷ [], refl)
    | inl part ↦ rw part (span-Ends [] (is_apart-nil dot) (own_dot dot x apart part))
  ]
  span-Ends (x ∷ y ∷ xs) apart starts = elim (Bool-cases (is_name_part x)) [
    | inr end ↦ rw end (x ∷ y ∷ xs, refl)
    | inl part ↦ rw part (span-Ends (y ∷ xs) (is_apart-tail dot x (y ∷ xs) apart) tt)
  ]

  skip_spaces-Ends : (ys : List ℕ) → Ends (skip_spaces (ys ++ r ∷ rs))
  skip_spaces-Ends [] = rw no_space ([], refl)
  skip_spaces-Ends (y ∷ ys) = elim (Bool-cases (is_space y)) [
    | inl part ↦ rw part (skip_spaces-Ends ys)
    | inr end ↦ rw end (y ∷ ys, refl)
  ]

  -- A match leaves the rest in place.
  abbrev Leaves : Option (CallMatch × List ℕ) → Type 0
  Leaves none = Unit
  Leaves (some (m, rest)) = length (r ∷ rs) ≤ length rest

  closed-Leaves :
      (d : Bool) (name args zs : List ℕ)
      → Leaves (closed d name (args, (span is_no_paren (zs ++ r ∷ rs)).1))
  closed-Leaves d name args [] = rw opens tt
  closed-Leaves d name args (z ∷ zs) = elim (Bool-cases (is_no_paren z)) [
    | inl part ↦ rw part (closed-Leaves d name args zs)
    | inr end ↦ rw end (elim (Bool-cases (z == 41)) [
      | inl close ↦ rw close (omega (arith, length-append zs (r ∷ rs)))
      | inr other ↦ rw other tt
    ])
  ]

  opened-Leaves : (d : Bool) (name s : List ℕ) → Ends s → Leaves (opened d name s)
  opened-Leaves d name s ([], e) = rw e (rw not_open tt)
    where
      not_open : (r == 40) ≡ false
      not_open = ground (arith, no_paren)
  opened-Leaves d name s (z ∷ zs, e) = rw e (elim (Bool-cases (z == 40)) [
    | inl open_ ↦ rw open_ (closed-Leaves d name (span is_no_paren (zs ++ r ∷ rs)).0 zs)
    | inr other ↦ rw other tt
  ])

  call_at-Leaves :
      (d : Bool) (xs : List ℕ)
      → is_apart dot xs ≡ true
      → Starts xs
      → Leaves (call_at d (xs ++ r ∷ rs))
  call_at-Leaves d [] apart starts = rw not_start tt
    where
      not_start : is_name_start r ≡ false
      not_start = ground (arith, stops starts)
  call_at-Leaves d (x ∷ xs) apart starts =
      either_way Leaves (is_name_start x) (λ start. named (span-Ends (x ∷ xs) apart tt))
        (λ other. tt)
    where
      named :
          Ends (span is_name_part (x ∷ xs ++ r ∷ rs)).1
          → Leaves (
              opened d
                (span is_name_part (x ∷ xs ++ r ∷ rs)).0
                (skip_spaces (span is_name_part (x ∷ xs ++ r ∷ rs)).1))
      named (ys, e) =
          opened-Leaves d _ (skip_spaces (span is_name_part (x ∷ xs ++ r ∷ rs)).1)
            (subst (λ t. Ends (skip_spaces t)) (sym e) (skip_spaces-Ends ys))

  begun : (x : ℕ) (xs : List ℕ) → is_apart dot (x ∷ xs) ≡ true → (x == 46) ≡ true → Starts xs
  begun x [] apart point = own_dot_after dot x apart point
  begun x (y ∷ ys) apart point = tt

  match_at-Leaves :
      (x : ℕ) (xs : List ℕ) → is_apart dot (x ∷ xs) ≡ true → Leaves (match_at (x ∷ xs ++ r ∷ rs))
  match_at-Leaves x xs apart = elim (Bool-cases (x == 46)) [
    | inr other ↦ rw other (call_at-Leaves false (x ∷ xs) apart tt)
    | inl point ↦
        rw point (call_at-Leaves true xs (is_apart-tail dot x xs apart) (begun x xs apart point))
  ]

  -- What is found from somewhere before the rest on includes the match at the rest.
  pub call_matches-found :
      (n : ℕ) (before : List ℕ) (m : CallMatch) (after : List ℕ)
      → n ≤ length before
      → is_apart dot before ≡ true
      → match_at (r ∷ rs) ≡ some (m, after)
      → all_of is_allowed_call (call_matches n (before ++ r ∷ rs)) ≡ true
      → is_allowed_call m ≡ true
  unfolding call_matches
  call_matches-found zero [] m after h apart here all =
      all_first m (call_matches (length rs - length after) rs) (
        subst (λ o. all_of is_allowed_call (after_match o rs) ≡ true) here
          (subst (λ l. all_of is_allowed_call l ≡ true) (call_matches_step r rs) all))
  call_matches-found (suc n) [] m after h apart here all = absurd (omega (arith, h))
  call_matches-found (suc n) (c ∷ cs) m after h apart here all =
      call_matches-found n cs m after (omega (arith, h)) (is_apart-tail dot c cs apart) here all
  call_matches-found zero (c ∷ cs) m after h apart here all =
      go (match_at (c ∷ cs ++ r ∷ rs)) (match_at-Leaves c cs apart)
        (subst (λ l. all_of is_allowed_call l ≡ true) (call_matches_step c (cs ++ r ∷ rs)) all)
        (λ n less rest.
          call_matches-found n cs m after less (is_apart-tail dot c cs apart) here rest)
    where
      go :
          (o : Option (CallMatch × List ℕ))
          → Leaves o
          → all_of is_allowed_call (after_match o (cs ++ r ∷ rs)) ≡ true
          → ((n : ℕ)
              → n ≤ length cs
              → all_of is_allowed_call (call_matches n (cs ++ r ∷ rs)) ≡ true
              → is_allowed_call m ≡ true)
          → is_allowed_call m ≡ true
      go none kept all again = again zero (omega arith) all
      go (some (k, rest)) kept all again =
          again (length (cs ++ r ∷ rs) - length rest)
            (omega (arith, kept, length-append cs (r ∷ rs)))
            (all_rest k (call_matches (length (cs ++ r ∷ rs) - length rest) (cs ++ r ∷ rs)) all)
