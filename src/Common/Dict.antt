-- ===== src/Common/Dict.antt =====
-- A JavaScript `Map`: entries in the order of insertion. Setting a key that is there keeps its
-- place.
use mathlib.Core.Path.{◌≡◌, refl, sym, subst, subst₂}
use mathlib.Core.Logic.{inl, inr}
use mathlib.Core.Bool.{Bool, true, false}
use mathlib.Core.List.{List, [], ◌∷◌, ◌++◌}
use mathlib.Core.Option.{Option, none, some, some-injective}
use native.Mathlib.Omega.{arith}
use break_pilot.Common.Tests.{Eq, ◌==◌, if◌then◌else◌, eq_refl, eq_of_beq, Bool-cases}

abbrev pub Dict {ℓ κ} : Type ℓ → Type κ → Type (ℓ ⊔ κ)
Dict K V = List (K × V)

abbrev pub is_some {κ} : {V : Type κ} → Option V → Bool
is_some none = false
is_some (some v) = true

module _ {ℓ κ} {K : Type ℓ} {V : Type κ} where
  abbrev pub values : Dict K V → List V
  values [] = []
  values ((k, v) ∷ m) = v ∷ values m

  abbrev pub keys : Dict K V → List K
  keys [] = []
  keys ((k, v) ∷ m) = k ∷ keys m

  -- Deletes, in one pass, the entries that fail the test.
  unfoldable pub keep : (K → V → Bool) → Dict K V → Dict K V
  keep p [] = []
  keep p ((k, v) ∷ m) = let rest = keep p m in if p k v then (k, v) ∷ rest else rest

module _ {ℓ κ} {K : Type ℓ} {V : Type κ} ⦃e : Eq K⦄ where
  unfoldable pub get : K → Dict K V → Option V
  get k [] = none
  get k ((j, v) ∷ m) = if j == k then some v else get k m

  unfoldable pub has : K → Dict K V → Bool
  unfolding get
  has k m = is_some (get k m)

  unfoldable pub put : K → V → Dict K V → Dict K V
  put k v [] = (k, v) ∷ []
  put k v ((j, w) ∷ m) = if j == k then (j, v) ∷ m else (j, w) ∷ put k v m

  unfoldable pub remove : K → Dict K V → Dict K V
  remove k [] = []
  remove k ((j, w) ∷ m) = let rest = remove k m in if j == k then rest else (j, w) ∷ rest

  pub get-put :
      (k j : K) (v : V) (m : Dict K V) → get j (put k v m) ≡ (if k == j then some v else get j m)
  unfolding get put
  get-put k j v [] = refl
  get-put k j v ((i, w) ∷ m) =
      ground (arith, e.beq_iff k j, e.beq_iff i k, e.beq_iff i j, get-put k j v m)

  pub get-put_self : (k : K) (v : V) (m : Dict K V) → get k (put k v m) ≡ some v
  get-put_self k v m = simp (get-put, eq_refl)

  pub get-remove :
      (k j : K) (m : Dict K V) → get j (remove k m) ≡ (if k == j then none else get j m)
  unfolding get remove
  get-remove k j [] = ground arith
  get-remove k j ((i, w) ∷ m) =
      ground (arith, e.beq_iff k j, e.beq_iff i k, e.beq_iff i j, get-remove k j m)

  -- No key stands twice.
  abbrev pub IsDistinct : Dict K V → Type κ
  IsDistinct [] = Unit
  IsDistinct ((k, v) ∷ m) = (get k m ≡ none) × IsDistinct m

  pub put-IsDistinct : (k : K) (v : V) (m : Dict K V) → IsDistinct m → IsDistinct (put k v m)
  unfolding put get
  put-IsDistinct k v [] h = (refl, tt)
  put-IsDistinct k v ((j, w) ∷ m) h =
      ground (arith, put-IsDistinct k v m h.1, get-put k j v m, e.beq_iff k j, e.beq_iff j k)

  pub remove-IsDistinct : (k : K) (m : Dict K V) → IsDistinct m → IsDistinct (remove k m)
  unfolding remove
  remove-IsDistinct k [] h = tt
  remove-IsDistinct k ((j, w) ∷ m) h = ground (arith, remove-IsDistinct k m h.1, get-remove k j m)

  pub get-keep-none :
      (p : K → V → Bool) (k : K) (m : Dict K V) → get k m ≡ none → get k (keep p m) ≡ none
  unfolding keep get
  get-keep-none p k [] h = refl
  get-keep-none p k ((j, w) ∷ m) h = ground (arith, get-keep-none p k m)

  pub keep-IsDistinct : (p : K → V → Bool) (m : Dict K V) → IsDistinct m → IsDistinct (keep p m)
  unfolding keep
  keep-IsDistinct p [] h = tt
  keep-IsDistinct p ((j, w) ∷ m) h =
      ground (arith, keep-IsDistinct p m h.1, get-keep-none p j m h.0)

  pub get-keep :
      (p : K → V → Bool) (k : K) (v : V) (m : Dict K V)
      → IsDistinct m
      → get k m ≡ some v
      → get k (keep p m) ≡ (if p k v then some v else none)
  unfolding keep get
  get-keep p k v [] d h = cc
  get-keep p k v ((j, w) ∷ m) d h =
      ground (arith, get-keep p k v m d.1, get-keep-none p j m d.0, e.beq_iff j k)

  pub put_fresh : (k : K) (v : V) (m : Dict K V) → get k m ≡ none → put k v m ≡ m ++ (k, v) ∷ []
  unfolding get put
  put_fresh k v [] h = refl
  put_fresh k v ((j, w) ∷ m) h = ground (arith, put_fresh k v m)

-- A property of every entry.
module _ {ℓ κ μ} {K : Type ℓ} {V : Type κ} ⦃e : Eq K⦄ (P : K → V → Type μ) where
  abbrev pub AllEntries : Dict K V → Type μ
  AllEntries [] = Unit
  AllEntries ((k, v) ∷ m) = P k v × AllEntries m

  pub get-AllEntries : (k : K) (v : V) (m : Dict K V) → AllEntries m → get k m ≡ some v → P k v
  unfolding get
  get-AllEntries k v [] a h = cc
  get-AllEntries k v ((j, w) ∷ m) a h = elim (Bool-cases (j == k)) [
    | inl same ↦ subst₂ P (eq_of_beq j k same) (some-injective w v (rw (same, get) at h)) a.0
    | inr other ↦ get-AllEntries k v m a.1 (rw (other, get) at h)
  ]

  pub put-AllEntries :
      (k : K) (v : V) (m : Dict K V) → P k v → AllEntries m → AllEntries (put k v m)
  unfolding put
  put-AllEntries k v [] p a = (p, tt)
  put-AllEntries k v ((j, w) ∷ m) p a = elim (Bool-cases (j == k)) [
    | inl same ↦ rw same (subst (λ i. P i v) (sym (eq_of_beq j k same)) p, a.1)
    | inr other ↦ rw other (a.0, put-AllEntries k v m p a.1)
  ]

  pub remove-AllEntries : (k : K) (m : Dict K V) → AllEntries m → AllEntries (remove k m)
  unfolding remove
  remove-AllEntries k [] a = tt
  remove-AllEntries k ((j, w) ∷ m) a = elim (Bool-cases (j == k)) [
    | inl same ↦ rw same (remove-AllEntries k m a.1)
    | inr other ↦ rw other (a.0, remove-AllEntries k m a.1)
  ]

  pub keep-AllEntries : (p : K → V → Bool) (m : Dict K V) → AllEntries m → AllEntries (keep p m)
  unfolding keep
  keep-AllEntries p [] a = tt
  keep-AllEntries p ((j, w) ∷ m) a = elim (Bool-cases (p j w)) [
    | inl kept ↦ rw kept (a.0, keep-AllEntries p m a.1)
    | inr gone ↦ rw gone (keep-AllEntries p m a.1)
  ]
