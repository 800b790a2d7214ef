-- ===== src/Base/Arrays.antt =====
-- C arrays as lists: an access past the end is a fault.
use Prim.Native.Nat.{ℕ, zero, suc, ◌+◌, ◌≤◌, ◌<◌}
use mathlib.Core.Path.{◌≡◌, refl}
use mathlib.Core.List.{List, [], ◌∷◌}
use native.Mathlib.Omega.{arith}
use system_programming_and_d.Base.Tests.{◌==◌, if◌then◌else◌}
use system_programming_and_d.Base.Lists.{length, get_or, set}
use system_programming_and_d.Base.Outcomes.{Outcome, ok, fault, ◌>>=◌}

module _ {ℓ} {A : Type ℓ} where
  unfoldable pub load : List A → ℕ → Outcome A
  load [] i = fault
  load (x ∷ xs) zero = ok x
  load (x ∷ xs) (suc i) = load xs i

  unfoldable pub store : List A → ℕ → A → Outcome (List A)
  store [] i v = fault
  store (x ∷ xs) zero v = ok (v ∷ xs)
  store (x ∷ xs) (suc i) v = store xs i v >>= λ r. ok (x ∷ r)

  pub load-lt : (xs : List A) (i : ℕ) (d : A) → i < length xs → load xs i ≡ ok (get_or xs i d)
  unfolding load
  load-lt [] i d h = absurd (omega arith)
  load-lt (x ∷ xs) zero d h = refl
  load-lt (x ∷ xs) (suc i) d h = load-lt xs i d (omega arith)

  pub store-lt : (xs : List A) (i : ℕ) (v : A) → i < length xs → store xs i v ≡ ok (set xs i v)
  unfolding store
  store-lt [] i v h = absurd (omega arith)
  store-lt (x ∷ xs) zero v h = refl
  store-lt (x ∷ xs) (suc i) v h = rw (store-lt xs i v (omega arith))

  pub get_or-set :
      (xs : List A) (i j : ℕ) (v d : A)
      → i < length xs
      → get_or (set xs i v) j d ≡ (if i == j then v else get_or xs j d)
  get_or-set [] i j v d h = absurd (omega arith)
  get_or-set (x ∷ xs) zero zero v d h = refl
  get_or-set (x ∷ xs) zero (suc j) v d h = ground arith
  get_or-set (x ∷ xs) (suc i) zero v d h = ground arith
  get_or-set (x ∷ xs) (suc i) (suc j) v d h = ground (arith, get_or-set xs i j v d (omega arith))

  -- A weight summed over the first `n` elements.
  abbrev pub sum_first : (A → ℕ) → ℕ → List A → ℕ
  sum_first w zero xs = 0
  sum_first w (suc n) [] = 0
  sum_first w (suc n) (x ∷ xs) = w x + sum_first w n xs

  pub sum_first-set :
      (w : A → ℕ) (n : ℕ) (xs : List A) (i : ℕ) (v d : A)
      → i < n
      → i < length xs
      → sum_first w n (set xs i v) + w (get_or xs i d) ≡ sum_first w n xs + w v
  sum_first-set w zero xs i v d p h = absurd (omega arith)
  sum_first-set w (suc n) [] i v d p h = absurd (omega arith)
  sum_first-set w (suc n) (x ∷ xs) zero v d p h = omega arith
  sum_first-set w (suc n) (x ∷ xs) (suc i) v d p h =
      omega (arith, sum_first-set w n xs i v d (omega arith) (omega arith))

  pub sum_first-set_past :
      (w : A → ℕ) (n : ℕ) (xs : List A) (i : ℕ) (v : A)
      → n ≤ i
      → sum_first w n (set xs i v) ≡ sum_first w n xs
  sum_first-set_past w zero xs i v p = refl
  sum_first-set_past w (suc n) [] i v p = refl
  sum_first-set_past w (suc n) (x ∷ xs) zero v p = absurd (omega arith)
  sum_first-set_past w (suc n) (x ∷ xs) (suc i) v p =
      omega (arith, sum_first-set_past w n xs i v (omega arith))

  pub sum_first-suc :
      (w : A → ℕ) (n : ℕ) (xs : List A) (d : A)
      → n < length xs
      → sum_first w (suc n) xs ≡ sum_first w n xs + w (get_or xs n d)
  sum_first-suc w n [] d h = absurd (omega arith)
  sum_first-suc w zero (x ∷ xs) d h = omega arith
  sum_first-suc w (suc n) (x ∷ xs) d h = omega (arith, sum_first-suc w n xs d (omega arith))

  pub sum_first-get_or :
      (w : A → ℕ) (n : ℕ) (xs : List A) (i : ℕ) (d : A)
      → i < n
      → i < length xs
      → w (get_or xs i d) ≤ sum_first w n xs
  sum_first-get_or w zero xs i d p h = absurd (omega arith)
  sum_first-get_or w (suc n) [] i d p h = absurd (omega arith)
  sum_first-get_or w (suc n) (x ∷ xs) zero d p h = omega arith
  sum_first-get_or w (suc n) (x ∷ xs) (suc i) d p h =
      omega (arith, sum_first-get_or w n xs i d (omega arith) (omega arith))
