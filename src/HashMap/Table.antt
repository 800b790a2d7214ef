-- ===== src/HashMap/Table.antt =====
-- What a table means, and when it is in order.
use system_programming_and_d.Base.{
  ℕ, zero, suc, ◌+◌, ◌%◌, ◌≤◌, ◌<◌, ◌≡◌, ◌≢◌, refl, sym, ap, subst, ◌∙◌, true, List, [], ◌∷◌,
  Option, none, some, arith, ◌==◌, if◌then◌else◌, length, set, sum_of, All, ok, inl, inr,
  Bool-cases,
}
use system_programming_and_d.HashMap.{KeyOps, Bucket, HashMap, bucket_at}

abbrev pub or_else {ℓ} : {A : Type ℓ} → Option A → Option A → Option A
or_else none y = y
or_else (some x) y = some x

module _ {K : Type 0} (ops : KeyOps K) where
  pub cmp_congr_left : (a b c : K) → ops.cmp a b ≡ true → ops.cmp a c ≡ ops.cmp b c
  cmp_congr_left a b c e =
      ground (arith, e, ops.cmp_symm a b, ops.cmp_trans a b c, ops.cmp_trans b a c)

  pub cmp_congr_right : (a b c : K) → ops.cmp b c ≡ true → ops.cmp a b ≡ ops.cmp a c
  cmp_congr_right a b c e =
      ground (arith, e, ops.cmp_symm b c, ops.cmp_trans a b c, ops.cmp_trans a c b)

-- The bucket in which a key belongs.
abbrev pub home : {K : Type 0} → KeyOps K → K → ℕ → ℕ
home ops q n = ops.hash q % n

-- A key that compares equal has the same home.
pub home_congr :
    {K : Type 0} (ops : KeyOps K) (n : ℕ) (a b : K)
    → ops.cmp a b ≡ true
    → home ops a n ≡ home ops b n
home_congr ops n a b e = ap (λ (t : ℕ). t % n) (ops.hash-cmp a b e)

module _ {K V : Type 0} where
  -- The nodes of a bucket, none past the end.
  abbrev pub nodes_at : List (Bucket K V) → ℕ → List (K × V)
  nodes_at [] i = []
  nodes_at (b ∷ bs) zero = b.nodes
  nodes_at (b ∷ bs) (suc i) = nodes_at bs i

  pub bucket_at-lt :
      (bs : List (Bucket K V)) (i : ℕ)
      → i < length bs
      → (b : Bucket K V) × (bucket_at bs i ≡ ok b) × (nodes_at bs i ≡ b.nodes)
  unfolding bucket_at
  bucket_at-lt [] i h = absurd (omega arith)
  bucket_at-lt (b ∷ bs) zero h = (b, refl, refl)
  bucket_at-lt (b ∷ bs) (suc i) h = bucket_at-lt bs i (omega arith)

  pub nodes_at-eq :
      (bs : List (Bucket K V)) (i : ℕ) (b : Bucket K V)
      → bucket_at bs i ≡ ok b
      → nodes_at bs i ≡ b.nodes
  unfolding bucket_at
  nodes_at-eq [] i b e = cc
  nodes_at-eq (x ∷ bs) zero b e = ground arith
  nodes_at-eq (x ∷ bs) (suc i) b e = nodes_at-eq bs i b e

  pub sum_of-set :
      (w : Bucket K V → ℕ) (bs : List (Bucket K V)) (i : ℕ) (b c : Bucket K V)
      → bucket_at bs i ≡ ok b
      → sum_of w (set bs i c) + w b ≡ sum_of w bs + w c
  unfolding bucket_at
  sum_of-set w [] i b c e = cc
  sum_of-set w (x ∷ bs) zero b c e = let same : w x ≡ w b = ground arith in omega (arith, same)
  sum_of-set w (x ∷ bs) (suc i) b c e = omega (arith, sum_of-set w bs i b c e)

  pub nodes_at-set :
      (bs : List (Bucket K V)) (i j : ℕ) (c : Bucket K V)
      → i < length bs
      → nodes_at (set bs i c) j ≡ (if i == j then c.nodes else nodes_at bs j)
  nodes_at-set [] i j c h = absurd (omega arith)
  nodes_at-set (x ∷ bs) zero zero c h = refl
  nodes_at-set (x ∷ bs) zero (suc j) c h = ground arith
  nodes_at-set (x ∷ bs) (suc i) zero c h = ground arith
  nodes_at-set (x ∷ bs) (suc i) (suc j) c h = ground (arith, nodes_at-set bs i j c (omega arith))

  module _ (ops : KeyOps K) where
    abbrev pub matches : K → K × V → ℕ
    matches q e = if ops.cmp e.0 q then 1 else 0

    abbrev pub tally_in : K → Bucket K V → ℕ
    tally_in q b = sum_of (matches q) b.nodes

    -- How many entries of the table have the key.
    abbrev pub tally : K → List (Bucket K V) → ℕ
    tally q = sum_of (tally_in q)

    unfoldable pub find : K → List (K × V) → Option V
    find q [] = none
    find q (e ∷ es) = if ops.cmp e.0 q then some e.1 else find q es

    -- The abstract map of a table.
    abbrev pub view : List (Bucket K V) → ℕ → K → Option V
    view bs n q = find q (nodes_at bs (home ops q n))

    abbrev pub PlacedAt : ℕ → ℕ → List (K × V) → Type 0
    PlacedAt n i = All (λ e. home ops e.0 n ≡ i)

    -- The buckets from index `d` on: right counts, every entry in its home bucket.
    abbrev pub Placed : ℕ → ℕ → List (Bucket K V) → Type 0
    Placed n d [] = Unit {0}
    Placed n d (b ∷ bs) = (b.n_node ≡ length b.nodes) × PlacedAt n d b.nodes × Placed n (suc d) bs

    pub record IsTable (m : HashMap K V) : Type 0 where
      pub width : length m.buckets ≡ m.n_buckets
      pub pos : 0 < m.n_buckets
      pub placed : Placed m.n_buckets 0 m.buckets
      pub unique : (q : K) → tally q m.buckets ≤ 1
      pub counted : m.size ≡ sum_of (λ b. length b.nodes) m.buckets

    pub Placed-at :
        (n d i : ℕ) (bs : List (Bucket K V)) (b : Bucket K V)
        → Placed n d bs
        → bucket_at bs i ≡ ok b
        → (b.n_node ≡ length b.nodes) × PlacedAt n (d + i) b.nodes
    unfolding bucket_at
    Placed-at n d i [] b p e = cc
    Placed-at n d zero (x ∷ bs) b p e =
        let same : d + 0 ≡ d = omega arith in
        rw same (ok_same x b e (λ y. (y.n_node ≡ length y.nodes) × PlacedAt n d y.nodes) (p.0, p.1))
      where
        ok_same : (x b : Bucket K V) → ok x ≡ ok b → (P : Bucket K V → Type 0) → P x → P b
        ok_same x b e P h = subst P (cc) h
    Placed-at n d (suc i) (x ∷ bs) b p e =
        let same : d + suc i ≡ suc d + i = omega arith in rw same (Placed-at n (suc d) i bs b p.2 e)

    pub Placed-set :
        (n d i : ℕ) (bs : List (Bucket K V)) (c : Bucket K V)
        → Placed n d bs
        → c.n_node ≡ length c.nodes
        → PlacedAt n (d + i) c.nodes
        → Placed n d (set bs i c)
    Placed-set n d i [] c p e h = tt
    Placed-set n d zero (x ∷ bs) c p e h =
        let same : d + 0 ≡ d = omega arith in (e, rw same at h, p.2)
    Placed-set n d (suc i) (x ∷ bs) c p e h =
        let same : d + suc i ≡ suc d + i = omega arith in
        (p.0, p.1, Placed-set n (suc d) i bs c p.2 e (rw same at h))

    -- An entry with the key would stand in the key's home bucket.
    pub find_elsewhere :
        (n i : ℕ) (q : K) (es : List (K × V))
        → PlacedAt n i es
        → home ops q n ≢ i
        → (find q es ≡ none) × (sum_of (matches q) es ≡ 0)
    unfolding find
    find_elsewhere n i q [] p h = (refl, refl)
    find_elsewhere n i q (e ∷ es) p h =
        let (a, b) = find_elsewhere n i q es p.1 h in
        elim (Bool-cases (ops.cmp e.0 q)) [
          | inl same ↦ absurd (h (ap (λ (t : ℕ). t % n) (sym (ops.hash-cmp e.0 q same)) ∙ p.0))
          | inr other ↦ (rw other a, rw other (omega (arith, b)))
        ]

    -- A write to one bucket, seen in the abstract map.
    pub view-set :
        (n i : ℕ) (bs : List (Bucket K V)) (c : Bucket K V) (q : K)
        → i < length bs
        → view (set bs i c) n q ≡ (if i == home ops q n then find q c.nodes else view bs n q)
    view-set n i bs c q h =
        rw (nodes_at-set bs i (home ops q n) c h)
          (elim (Bool-cases (i == home ops q n)) [ inl same ↦ rw same | inr other ↦ rw other ])

    pub view-home :
        (n i : ℕ) (bs : List (Bucket K V)) (b : Bucket K V) (q : K)
        → bucket_at bs i ≡ ok b
        → i ≡ home ops q n
        → view bs n q ≡ find q b.nodes
    view-home n i bs b q at e = rw (← e, nodes_at-eq bs i b at)
