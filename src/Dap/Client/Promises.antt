-- ===== src/Dap/Client/Promises.antt =====
-- src/dap/DapClient.ts: every request that was made waits for its reply, or has had one.
use break_pilot.Common.{
  ℕ, suc, ◌+◌, ◌≤◌, String, Bool, Option, none, some, List, [], ◌∷◌, ◌++◌, map, ◌≡◌, refl, ap, ◌∙◌,
  ◌==◌, nat_eq, if◌then◌else◌, arith, ◌&&◌, true, false, not, string_eq, Bool-cases, inl, inr,
  find_by,
}
use break_pilot.Dap.Client.{
  Message, response, event, other, ClientError, Reply, Pending, Client, rejected_all, reject_all,
  has_number, without, settle, answered, any_event, emit, emit_named, handle_message,
}

-- How often a number occurs.
abbrev pub occurs : ℕ → List ℕ → ℕ
occurs n [] = 0
occurs n (m ∷ ms) = let rest = occurs n ms in if m == n then suc rest else rest

pub occurs-append : (n : ℕ) (xs ys : List ℕ) → occurs n (xs ++ ys) ≡ occurs n xs + occurs n ys
occurs-append n [] ys = omega arith
occurs-append n (x ∷ xs) ys = ground (arith, occurs-append n xs ys)

abbrev pub numbers : List Pending → List ℕ
numbers ps = map (λ q. q.seq) ps

abbrev pub replied : {J : Type 0} → List (ℕ × Reply J) → List ℕ
replied rs = map (λ r. r.0) rs

-- Every request of `issued` is pending or settled, once: each number occurs among both as often as
-- it was issued, which is at most once, and the next number is above all of them.
pub record IsBalanced {J : Type 0} (issued : List ℕ) (s : Client J) : Type 0 where
  pub total :
      (n : ℕ) → occurs n (numbers s.pending) + occurs n (replied s.settled) ≡ occurs n issued
  pub once : (n : ℕ) → occurs n issued ≤ 1
  pub fresh : (n : ℕ) → s.seq ≤ n → occurs n issued ≡ 0

occurs-without :
    (n m : ℕ) (ps : List Pending)
    → occurs m (numbers (without n ps)) ≡ (if m == n then 0 else occurs m (numbers ps))
occurs-without n m [] = ground arith
occurs-without n m (q ∷ ps) = ground (arith, occurs-without n m ps)

occurs_found :
    (n : ℕ) (q : Pending) (ps : List Pending)
    → find_by (has_number n) ps ≡ some q
    → 1 ≤ occurs n (numbers ps)
occurs_found n q [] h = absurd (ground (arith, h))
occurs_found n q (p ∷ ps) h = elim (Bool-cases (has_number n p)) [
  | inl here ↦ rw here (omega arith)
  | inr there ↦ rw there (occurs_found n q ps (rw there at h))
]

pub numbers-append : (xs ys : List Pending) → numbers (xs ++ ys) ≡ numbers xs ++ numbers ys
numbers-append [] ys = refl
numbers-append (x ∷ xs) ys = ap (λ t. x.seq ∷ t) (numbers-append xs ys)

module _ {J : Type 0} where
  replied-append : (xs ys : List (ℕ × Reply J)) → replied (xs ++ ys) ≡ replied xs ++ replied ys
  replied-append [] ys = refl
  replied-append (x ∷ xs) ys = ap (λ t. x.0 ∷ t) (replied-append xs ys)

  replied-rejected_all :
      (e : ClientError J) (ps : List Pending) → replied (rejected_all e ps) ≡ numbers ps
  replied-rejected_all e [] = refl
  replied-rejected_all e (p ∷ ps) = ap (λ t. p.seq ∷ t) (replied-rejected_all e ps)

  occurs-replied :
      (n : ℕ) (xs ys : List (ℕ × Reply J))
      → occurs n (replied (xs ++ ys)) ≡ occurs n (replied xs) + occurs n (replied ys)
  occurs-replied n xs ys =
      ap (occurs n) (replied-append xs ys) ∙ occurs-append n (replied xs) (replied ys)

  pub settle-IsBalanced :
      (issued : List ℕ) (n : ℕ) (r : Reply J) (q : Pending) (s : Client J)
      → find_by (has_number n) s.pending ≡ some q
      → IsBalanced issued s
      → IsBalanced issued (settle n r s)
  settle-IsBalanced issued n r q s found v = record {
    total = λ m.
        let there = occurs_found n q s.pending found in
        ground (
          arith,
          occurs-without n m s.pending,
          occurs-replied m s.settled ((n, r) ∷ []),
          v.total m,
          v.once m,
          there,
        );
    once = v.once;
    fresh = v.fresh;
  }

  pub reject_all-IsBalanced :
      (issued : List ℕ) (e : ClientError J) (s : Client J)
      → IsBalanced issued s
      → IsBalanced issued (reject_all e s)
  reject_all-IsBalanced issued e s v = record {
    total = λ n. omega (
      arith,
      occurs-replied n s.settled (rejected_all e s.pending),
      ap (occurs n) (replied-rejected_all e s.pending),
      v.total n,
    );
    once = v.once;
    fresh = v.fresh;
  }

  answered-IsBalanced :
      (issued : List ℕ) (o : Option Pending) (n : ℕ) (success : Bool) (text : Option String)
      (body : Option J) (s : Client J)
      → find_by (has_number n) s.pending ≡ o
      → IsBalanced issued s
      → IsBalanced issued (answered o n success text body s)
  answered-IsBalanced issued none n success text body s e v = record {
    total = v.total;
    once = v.once;
    fresh = v.fresh;
  }
  answered-IsBalanced issued (some q) n success text body s e v =
      settle-IsBalanced issued n _ q s e v

  pub handle_message-IsBalanced :
      (issued : List ℕ) (m : Message J) (s : Client J)
      → IsBalanced issued s
      → IsBalanced issued (handle_message m s).0
  unfolding handle_message
  handle_message-IsBalanced issued (response n success text body) s v =
      answered-IsBalanced issued (find_by (has_number n) s.pending) n success text body s refl v
  handle_message-IsBalanced issued (event name body) s v =
      go (name == "error" && not s.heard_errors)
    where
      go :
          (unheard : Bool)
          → IsBalanced issued (emit_named unheard name body (emit (any_event name body) s)).0
      go true = record { total = v.total; once = v.once; fresh = v.fresh }
      go false = record { total = v.total; once = v.once; fresh = v.fresh }
  handle_message-IsBalanced issued (other m) s v = record {
    total = v.total;
    once = v.once;
    fresh = v.fresh;
  }

  pub handle_message-seq : (m : Message J) (s : Client J) → (handle_message m s).0.seq ≡ s.seq
  unfolding handle_message
  handle_message-seq (response n success text body) s = go (find_by (has_number n) s.pending)
    where
      go : (o : Option Pending) → (answered o n success text body s).seq ≡ s.seq
      go none = refl
      go (some q) = refl
  handle_message-seq (event name body) s = go (name == "error" && not s.heard_errors)
    where
      go :
          (unheard : Bool)
          → (emit_named unheard name body (emit (any_event name body) s)).0.seq ≡ s.seq
      go true = refl
      go false = refl
  handle_message-seq (other m) s = refl
