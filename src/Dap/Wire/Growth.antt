-- ===== src/Dap/Wire/Growth.antt =====
-- src/dap/DapClient.ts: what more bytes change in the first frame of a buffer.
use break_pilot.Common.{
  ℕ, zero, suc, ◌+◌, ◌≤◌, ◌<◌, Option, none, some, List, [], ◌∷◌, ◌++◌, ◌≡◌, refl, sym, ap, ◌∙◌,
  ◌⊎◌, inl, inr, ◌==◌, nat_eq, ltb, length, take, length-append, length-drop, drop-append, arith,
  Option-cases, Bool-cases, either_way, false,
}
use mathlib.Core.Path.{subst, subst₂}
use break_pilot.Dap.Wire.{
  strip, separator, split_header, with_first, cut_here, Frame, waiting, bad_header, payload,
  content_of, content_length, frame, frame_of,
}

abbrev more_after : List ℕ → Option (List ℕ) → Option (List ℕ)
more_after c none = none
more_after c (some r) = some (r ++ c)

strip-append : (p b c : List ℕ) → length p ≤ length b → strip p (b ++ c) ≡ more_after c (strip p b)
strip-append [] b c h = refl
strip-append (p ∷ ps) [] c h = absurd (omega (arith, h))
strip-append (p ∷ ps) (b ∷ bs) c h = elim (Bool-cases (b == p)) [
  | inl same ↦ rw same (strip-append ps bs c (omega (arith, h)))
  | inr other ↦ rw other refl
]

length-strip : (p b r : List ℕ) → strip p b ≡ some r → length b ≡ length p + length r
length-strip [] b r h = ground (arith, h)
length-strip (p ∷ ps) [] r h = absurd (ground (arith, h))
length-strip (p ∷ ps) (b ∷ bs) r h = elim (Bool-cases (b == p)) [
  | inl same ↦ (let e = length-strip ps bs r (rw same at h) in omega (arith, e))
  | inr other ↦ absurd (ground (arith, h, other))
]

-- A separator is at the front, or in the rest.
split_header_cases :
    (b : ℕ) (bs h r : List ℕ)
    → split_header (b ∷ bs) ≡ some (h, r)
    → ((strip separator (b ∷ bs) ≡ some r) × (h ≡ []))
      ⊎ ((g : List ℕ) × (strip separator (b ∷ bs) ≡ none)
          × (h ≡ b ∷ g)
          × (split_header bs ≡ some (g, r)))
split_header_cases b bs h r e = go (strip separator (b ∷ bs)) (split_header bs) refl refl e
  where
    go :
        (found : Option (List ℕ)) (later : Option (List ℕ × List ℕ))
        → strip separator (b ∷ bs) ≡ found
        → split_header bs ≡ later
        → cut_here b found later ≡ some (h, r)
        → ((strip separator (b ∷ bs) ≡ some r) × (h ≡ []))
          ⊎ ((g : List ℕ) × (strip separator (b ∷ bs) ≡ none)
              × (h ≡ b ∷ g)
              × (split_header bs ≡ some (g, r)))
    go (some after) later f l e = inl (cc (f, e), cc e)
    go none none f l e = absurd (cc e)
    go none (some (g, q)) f l e = inr (g, f, cc e, cc (l, e))

pub length-split_header :
    (b h r : List ℕ) → split_header b ≡ some (h, r) → length b ≡ length h + 4 + length r
length-split_header [] h r e = absurd (ground (arith, e))
length-split_header (b ∷ bs) h r e = elim (split_header_cases b bs h r e) [
  | inl (now, front) ↦ omega (arith, length-strip separator (b ∷ bs) r now, ap length front)
  | inr (g, later, more, found) ↦ omega (arith, length-split_header bs g r found, ap length more)
]

pub split_header-append :
    (b c h r : List ℕ) → split_header b ≡ some (h, r) → split_header (b ++ c) ≡ some (h, r ++ c)
split_header-append [] c h r e = absurd (ground (arith, e))
split_header-append (b ∷ bs) c h r e =
    let long : 4 ≤ length (b ∷ bs) = (omega (arith, length-split_header (b ∷ bs) h r e)) in
    let grown = strip-append separator (b ∷ bs) c long in
    elim (split_header_cases b bs h r e) [
      | inl (now, front) ↦
          ap (λ x. cut_here b x (split_header (bs ++ c))) (grown ∙ ap (more_after c) now)
          ∙ ap (λ g. some (g, r ++ c)) (sym front)
      | inr (g, later, more, found) ↦
          ap (λ x. cut_here b x (split_header (bs ++ c))) (grown ∙ ap (more_after c) later)
          ∙ ap (with_first b) (split_header-append bs c g r found)
          ∙ ap (λ g. some (g, r ++ c)) (sym more)
    ]

-- A frame that is not waited for, with more bytes behind it.
abbrev pub with_more : List ℕ → Frame → Frame
with_more c waiting = waiting
with_more c (bad_header h r) = bad_header h (r ++ c)
with_more c (payload p r) = payload p (r ++ c)

take-append : (n : ℕ) (a c : List ℕ) → n ≤ length a → take n (a ++ c) ≡ take n a
take-append zero a c h = refl
take-append (suc n) [] c h = absurd (omega (arith, h))
take-append (suc n) (x ∷ a) c h = ap (λ t. x ∷ t) (take-append n a c (omega (arith, h)))

-- A frame once there is part of every longer buffer.
content_of-append :
    (n : Option ℕ) (h a c : List ℕ)
    → (content_of n h a ≡ waiting) ⊎ (content_of n h (a ++ c) ≡ with_more c (content_of n h a))
content_of-append none h a c = inr refl
content_of-append (some n) h a c = elim (Bool-cases (ltb (length a) n)) [
  | inl short ↦ inl (rw short refl)
  | inr long ↦ inr (
      let there : n ≤ length a = (ground (arith, long)) in
      let still : ltb (length (a ++ c)) n ≡ false = (ground (arith, there, length-append a c)) in
      rw (still, long, take-append n a c there, drop-append n a c there) refl)
]

pub frame-append :
    (text : List ℕ → List ℕ) (b c : List ℕ)
    → (frame text b ≡ waiting) ⊎ (frame text (b ++ c) ≡ with_more c (frame text b))
unfolding frame
frame-append text b c = go (split_header b) refl
  where
    go :
        (cut : Option (List ℕ × List ℕ))
        → split_header b ≡ cut
        → (frame_of text (split_header b) ≡ waiting)
          ⊎ (frame_of text (split_header (b ++ c)) ≡ with_more c (frame_of text (split_header b)))
    go none e = inl (ap (frame_of text) e)
    go (some (h, r)) e =
        subst₂
          (λ x y. (frame_of text x ≡ waiting) ⊎ (frame_of text y ≡ with_more c (frame_of text x)))
          (sym e) (sym (split_header-append b c h r e))
          (content_of-append (content_length (text h)) h r c)

-- What is left of the buffer is shorter.
abbrev pub IsShorter : List ℕ → Frame → Type 0
IsShorter b waiting = Unit
IsShorter b (bad_header h r) = length r < length b
IsShorter b (payload p r) = length r < length b

pub frame-IsShorter : (text : List ℕ → List ℕ) (b : List ℕ) → IsShorter b (frame text b)
unfolding frame
frame-IsShorter text b = elim (Option-cases (split_header b)) [
  | inl nothing ↦ subst (λ x. IsShorter b (frame_of text x)) (sym nothing) tt
  | inr ((h, r), found) ↦
      subst (λ x. IsShorter b (frame_of text x)) (sym found)
        (go (content_length (text h)) h r (length-split_header b h r found))
]
  where
    go :
        (n : Option ℕ) (h r : List ℕ)
        → length b ≡ length h + 4 + length r
        → IsShorter b (content_of n h r)
    go none h r e = omega (arith, e)
    go (some n) h r e =
        either_way (IsShorter b) (ltb (length r) n) (λ short. tt)
          (λ long. omega (arith, e, length-drop n r))
