-- ===== src/Common/Results.antt =====
-- A computation that returns or throws.
use mathlib.Core.Path.{◌≡◌, refl}
use mathlib.Core.Logic.{◌⊎◌, inl, inr}

pub data Result {ℓ} (E A : Type ℓ) : Type ℓ where
  ok : A → Result E A
  throw : E → Result E A

pub Result-cases {ℓ} :
    {E A : Type ℓ} (r : Result E A) → ((e : E) × (r ≡ throw e)) ⊎ ((a : A) × (r ≡ ok a))
Result-cases (ok a) = inr (a, refl)
Result-cases (throw e) = inl (e, refl)

-- The rest of a `try` block, which a throw skips.
infixl 5 ◌>>=◌
abbrev pub ◌>>=◌ {ℓ} : {E A B : Type ℓ} → Result E A → (A → Result E B) → Result E B
throw thrown >>= rest = throw thrown
ok value >>= rest = rest value

pub >>=-eq-ok {ℓ} :
    {E A B : Type ℓ} {result : B} (tried : Result E A) (rest : A → Result E B)
    → (tried >>= rest) ≡ ok result
    → (value : A) × (tried ≡ ok value) × (rest value ≡ ok result)
>>=-eq-ok (throw thrown) rest fine = cc
>>=-eq-ok (ok value) rest fine = (value, refl, fine)

infixl 5 ◌>>◌
abbrev pub ◌>>◌ {ℓ} : {E A B : Type ℓ} → Result E A → Result E B → Result E B
first >> second = first >>= λ ignored. second
