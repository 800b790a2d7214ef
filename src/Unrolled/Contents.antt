-- ===== src/Unrolled/Contents.antt =====
-- The sequence of elements that an unrolled list stands for, and when the list is in order.
use system_programming_and_d.Base.{
  ℕ, zero, suc, ◌+◌, ◌≤◌, ◌<◌, ◌≡◌, refl, ap, List, [], ◌∷◌, ◌++◌, Option, none, some, arith,
  get_elem?, length, All,
}
use system_programming_and_d.Unrolled.{Node, Unrolled}

module _ {A : Type 0} where
  abbrev pub values : List (Option A) → List A
  values [] = []
  values (none ∷ ss) = values ss
  values (some a ∷ ss) = a ∷ values ss

  abbrev pub contents : List (Node A) → List A
  contents [] = []
  contents (x ∷ xs) = values x.elements ++ contents xs

  -- The slots from `k` on are NULL.
  abbrev pub IsFree : ℕ → List (Option A) → Type 0
  IsFree k [] = Unit {0}
  IsFree zero (s ∷ ss) = (s ≡ none) × IsFree zero ss
  IsFree (suc k) (s ∷ ss) = IsFree k ss

  pub record Fits (n : ℕ) (x : Node A) : Type 0 where
    pub width : length x.elements ≡ n
    pub bound : x.capacity ≤ n
    pub free : IsFree x.capacity x.elements

  -- Every slot that was never written is NULL, and the counts are right.
  pub record IsOrdered (l : Unrolled A) : Type 0 where
    pub pos : 0 < l.n
    pub fit : All (Fits l.n) l.nodes
    pub linked : l.n_node ≡ length l.nodes
    pub counted : l.len ≡ length (contents l.nodes)

  -- The sequence without the element at an index.
  abbrev pub without_at : List A → ℕ → List A
  without_at [] i = []
  without_at (v ∷ vs) zero = vs
  without_at (v ∷ vs) (suc i) = v ∷ without_at vs i

  pub get_elem?-left :
      (vs ws : List A) (k : ℕ) → k < length vs → get_elem? (vs ++ ws) k ≡ get_elem? vs k
  get_elem?-left [] ws k h = absurd (omega arith)
  get_elem?-left (v ∷ vs) ws zero h = refl
  get_elem?-left (v ∷ vs) ws (suc k) h = get_elem?-left vs ws k (omega arith)

  pub get_elem?-right :
      (vs ws : List A) (k j : ℕ) → k ≡ length vs + j → get_elem? (vs ++ ws) k ≡ get_elem? ws j
  get_elem?-right [] ws k j h = let e : k ≡ j = omega arith in rw e
  get_elem?-right (v ∷ vs) ws zero j h = absurd (omega arith)
  get_elem?-right (v ∷ vs) ws (suc k) j h = get_elem?-right vs ws k j (omega arith)

  pub get_elem?-past : (vs : List A) (k : ℕ) → length vs ≤ k → get_elem? vs k ≡ none
  get_elem?-past [] k h = refl
  get_elem?-past (v ∷ vs) zero h = absurd (omega arith)
  get_elem?-past (v ∷ vs) (suc k) h = get_elem?-past vs k (omega arith)

  pub without_at-left :
      (vs ws : List A) (k : ℕ) → k < length vs → without_at (vs ++ ws) k ≡ without_at vs k ++ ws
  without_at-left [] ws k h = absurd (omega arith)
  without_at-left (v ∷ vs) ws zero h = refl
  without_at-left (v ∷ vs) ws (suc k) h =
      ap (λ (t : List A). v ∷ t) (without_at-left vs ws k (omega arith))

  pub without_at-right :
      (vs ws : List A) (k j : ℕ)
      → k ≡ length vs + j
      → without_at (vs ++ ws) k ≡ vs ++ without_at ws j
  without_at-right [] ws k j h = let e : k ≡ j = omega arith in rw e
  without_at-right (v ∷ vs) ws zero j h = absurd (omega arith)
  without_at-right (v ∷ vs) ws (suc k) j h =
      ap (λ (t : List A). v ∷ t) (without_at-right vs ws k j (omega arith))

  pub length-without_at :
      (vs : List A) (k : ℕ) → k < length vs → length (without_at vs k) + 1 ≡ length vs
  length-without_at [] k h = absurd (omega arith)
  length-without_at (v ∷ vs) zero h = omega arith
  length-without_at (v ∷ vs) (suc k) h = omega (arith, length-without_at vs k (omega arith))
