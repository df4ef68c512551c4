-- ===== src/Dap/Wire/Decimals.antt =====
-- src/dap/DapClient.ts: `#onData` reads the frame that `#send` writes.
use break_pilot.Common.{
  ℕ, zero, suc, ◌+◌, ◌-◌, ◌*◌, ◌/◌, ◌%◌, ◌<◌, none, some, List, [], ◌∷◌, ◌++◌, ◌≡◌, refl, sym, ap,
  ◌∙◌, ◌==◌, nat_eq, ltb, length, take, drop, length-append, arith, Bool-cases, true, false, inl,
  inr, or_else, All, All-append, either_way, subst,
}
use mathlib.Core.List.{append_assoc}
use break_pilot.Dap.Wire.{
  strip, separator, split_header, with_first, cut_here, payload, content_of, content_length, frame,
  frame_of, codes, is_digit, is_space, skip_spaces, more_digits, read_digits, length_at, digits_on,
  decimal, header_of, framed,
}

-- Reading one more digit.
more_digits-snoc :
    (n d : ℕ) (xs : List ℕ)
    → All (λ x. is_digit x ≡ true) xs
    → is_digit d ≡ true
    → more_digits n (xs ++ d ∷ []) ≡ more_digits n xs * 10 + (d - 48)
more_digits-snoc n d [] a h = rw h refl
more_digits-snoc n d (x ∷ xs) a h = rw a.0 (more_digits-snoc (n * 10 + (x - 48)) d xs a.1 h)

digits_on_digits : (f n : ℕ) → All (λ x. is_digit x ≡ true) (digits_on f n)
digits_on_digits zero n = tt
digits_on_digits (suc f) n =
    either_way (All (λ x. is_digit x ≡ true)) (ltb n 10) (λ small. (ground (arith, small), tt))
      (λ large.
        All-append (λ x. is_digit x ≡ true) (digits_on f (n / 10)) ((48 + n % 10) ∷ [])
          (digits_on_digits f (n / 10)) (ground arith, tt))

more_digits-digits_on : (f n : ℕ) → n < f → more_digits 0 (digits_on f n) ≡ n
more_digits-digits_on zero n h = absurd (omega (arith, h))
more_digits-digits_on (suc f) n h = elim (Bool-cases (ltb n 10)) [
  | inl small ↦ rw small (ground (arith, small))
  | inr large ↦ rw large (
      more_digits-snoc 0 (48 + n % 10) (digits_on f (n / 10)) (digits_on_digits f (n / 10))
        (ground arith)
      ∙ (let e = more_digits-digits_on f (n / 10) (ground (arith, h, large)) in ground (arith, e)))
]

-- There is a first digit.
digits_on_first : (f n : ℕ) → n < f → (d : ℕ) × (ds : List ℕ) × (digits_on f n ≡ d ∷ ds)
digits_on_first zero n h = absurd (omega (arith, h))
digits_on_first (suc f) n h =
    either_way (λ xs. (d : ℕ) × (ds : List ℕ) × (xs ≡ d ∷ ds)) (ltb n 10)
      (λ small. (48 + n, [], refl))
      (λ large.
        let (d, ds, e) = digits_on_first f (n / 10) (ground (arith, h, large)) in
        (d, ds ++ (48 + n % 10) ∷ [], ap (λ t. t ++ (48 + n % 10) ∷ []) e))

read_digits-skip_spaces :
    (d : ℕ) (ds : List ℕ)
    → is_digit d ≡ true
    → read_digits (skip_spaces (d ∷ ds)) ≡ some (more_digits 0 (d ∷ ds))
read_digits-skip_spaces d ds h =
    let solid : is_space d ≡ false = (ground (arith, h)) in rw (solid, h) refl

read_digits-decimal : (n : ℕ) → read_digits (skip_spaces (decimal n)) ≡ some n
read_digits-decimal n =
    let (d, ds, e) = digits_on_first (suc n) n (omega arith) in
    let first : is_digit d ≡ true =
      (subst (All (λ x. is_digit x ≡ true)) e (digits_on_digits (suc n) n)).0 in
    ap (λ xs. read_digits (skip_spaces xs)) e
    ∙ read_digits-skip_spaces d ds first
    ∙ ap (λ xs. some (more_digits 0 xs)) (sym e)
    ∙ ap some (more_digits-digits_on (suc n) n (omega arith))

content_length_here :
    (c : ℕ) (cs : List ℕ) (n : ℕ) → length_at (c ∷ cs) ≡ some n → content_length (c ∷ cs) ≡ some n
content_length_here c cs n h = ap (λ o. or_else o (content_length cs)) h

content_length-header_of : (n : ℕ) → content_length (header_of n) ≡ some n
content_length-header_of n =
    content_length_here b'C' (codes "ontent-Length: " ++ decimal n) n (read_digits-decimal n)

-- A header without a carriage return ends at the first separator.
split_header-separator :
    (h r : List ℕ)
    → All (λ b. (b == 13) ≡ false) h
    → split_header (h ++ separator ++ r) ≡ some (h, r)
split_header-separator [] r a = refl
split_header-separator (b ∷ h) r a =
    ap (λ x. cut_here b x (split_header (h ++ separator ++ r)))
      (let e : strip separator (b ∷ h ++ separator ++ r) ≡ none = (rw a.0 refl) in e)
    ∙ ap (with_first b) (split_header-separator h r a.1)

-- The codes of a header are ASCII, and none is a carriage return.
abbrev pub IsPlain : ℕ → Type 0
IsPlain c = ((c == 13) ≡ false) × (c < 128)

digits-IsPlain : (xs : List ℕ) → All (λ x. is_digit x ≡ true) xs → All IsPlain xs
digits-IsPlain [] a = tt
digits-IsPlain (x ∷ xs) a =
    ((let h = a.0 in ground (arith, h), (let h = a.0 in ground (arith, h))), digits-IsPlain xs a.1)

header_of-IsPlain : (n : ℕ) → All IsPlain (header_of n)
header_of-IsPlain n =
    All-append IsPlain (codes "Content-Length: ") (decimal n) (ground arith)
      (digits-IsPlain (decimal n) (digits_on_digits (suc n) n))

no_return : (xs : List ℕ) → All IsPlain xs → All (λ b. (b == 13) ≡ false) xs
no_return [] a = tt
no_return (x ∷ xs) a = (a.0.0, no_return xs a.1)

pub ascii : (xs : List ℕ) → All IsPlain xs → All (λ b. b < 128) xs
ascii [] a = tt
ascii (x ∷ xs) a = (a.0.1, ascii xs a.1)

take_here : (xs ys : List ℕ) → take (length xs) (xs ++ ys) ≡ xs
take_here [] ys = refl
take_here (x ∷ xs) ys = ap (λ t. x ∷ t) (take_here xs ys)

drop_here : (xs ys : List ℕ) → drop (length xs) (xs ++ ys) ≡ ys
drop_here [] ys = refl
drop_here (x ∷ xs) ys = drop_here xs ys

content_of-append :
    (h json rest : List ℕ) → content_of (some (length json)) h (json ++ rest) ≡ payload json rest
content_of-append h json rest =
    let there : ltb (length (json ++ rest)) (length json) ≡ false =
      (ground (arith, length-append json rest)) in
    rw (there, take_here json rest, drop_here json rest) refl

-- The frame of a content that `#send` wrote, whatever follows it.
pub frame-framed :
    (text : List ℕ → List ℕ)
    → ((xs : List ℕ) → All (λ b. b < 128) xs → text xs ≡ xs)
    → (json rest : List ℕ) → frame text (framed json ++ rest) ≡ payload json rest
unfolding frame framed
frame-framed text plain json rest =
    let h : List ℕ = header_of (length json) in
    let written : framed json ++ rest ≡ h ++ separator ++ (json ++ rest) =
      (append_assoc (h ++ separator) json rest) in
    ap (λ b. frame_of text (split_header b)) written
    ∙ ap (frame_of text)
        (split_header-separator h (json ++ rest) (no_return h (header_of-IsPlain (length json))))
    ∙ ap (λ u. content_of (content_length u) h (json ++ rest))
        (plain h (ascii h (header_of-IsPlain (length json))))
    ∙ ap (λ o. content_of o h (json ++ rest)) (content_length-header_of (length json))
    ∙ content_of-append h json rest
