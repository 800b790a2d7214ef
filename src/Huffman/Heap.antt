-- ===== src/Huffman/Heap.antt =====
-- The array of trees: update_tree and get_mini_freq_node.
use system_programming_and_d.Base.{
  ℕ, zero, suc, ◌+◌, ◌-◌, ◌*◌, ◌≤◌, ◌<◌, ◌≡◌, ◌≢◌, refl, ap, ◌∙◌, ◌⊎◌, inl, inr, Bool, true, false,
  Bool-cases, List, arith, length, length-set, set, get_or, ltb, ◌==◌, if◌then◌else◌, ok, ◌>>=◌,
  Returns, Returns-bind, Returns-mono, load-lt, store-lt, get_or-set, sum_first, sum_first-set,
  sum_first-suc, sum_first-get_or,
}
use system_programming_and_d.Huffman.{
  Tree, nil, HuffTree, freq_at, smaller, exchange, update_tree_helper, update_tree,
  get_mini_freq_node,
}
use system_programming_and_d.Huffman.Trees.{flaws, frequency, freq_of-frequency}

-- The first `size` places hold trees without flaws.
pub record IsForest (t : HuffTree) : Type 0 where
  pub fits : t.size ≤ length t.nodes
  pub whole : sum_first flaws t.size t.nodes ≡ 0

abbrev pub tree_at : HuffTree → ℕ → Tree
tree_at t i = get_or t.nodes i nil

-- The same trees in the array, in another order.
pub record Rearranged (t t' : HuffTree) : Type 0 where
  pub size : t'.size ≡ t.size
  pub width : length t'.nodes ≡ length t.nodes
  pub sums : (w : Tree → ℕ) → sum_first w t.size t'.nodes ≡ sum_first w t.size t.nodes
  pub idle : t.size ≤ 1 → t'.nodes ≡ t.nodes

pub Rearranged-IsForest : (t t' : HuffTree) → Rearranged t t' → IsForest t → IsForest t'
Rearranged-IsForest t t' r h = record {
  fits = rw (r.size, r.width) h.fits;
  whole = rw r.size (r.sums flaws ∙ h.whole);
}

Rearranged-trans : (t u v : HuffTree) → Rearranged t u → Rearranged u v → Rearranged t v
Rearranged-trans t u v h k = record {
  size = k.size ∙ h.size;
  width = k.width ∙ h.width;
  sums = λ w. (rw h.size at (k.sums w)) ∙ h.sums w;
  idle = λ le. k.idle (omega (arith, h.size)) ∙ h.idle le;
}

module _ (t : HuffTree) (h : IsForest t) where
  pub tree_at-flaws : (i : ℕ) → i < t.size → flaws (tree_at t i) ≡ 0
  tree_at-flaws i lt = omega (
    arith,
    h.whole,
    h.fits,
    sum_first-get_or flaws t.size t.nodes i nil lt (omega (arith, h.fits)),
  )

  freq_at-frequency : (i : ℕ) → i < t.size → freq_at t i ≡ ok (frequency (tree_at t i))
  unfolding freq_at
  freq_at-frequency i lt = rw (
    load-lt t.nodes i nil (omega (arith, h.fits)),
    freq_of-frequency (tree_at t i) (tree_at-flaws i lt),
  )

  abbrev ChosenChild : ℕ → ℕ → ℕ → Type 0
  ChosenChild child minimum m = (m ≡ minimum) ⊎ ((m ≡ child) × (child < t.size))

  smaller-ChosenChild :
      (child minimum : ℕ)
      → (child < t.size → minimum < t.size)
      → Returns (ChosenChild child minimum) (smaller t child minimum)
  unfolding smaller
  smaller-ChosenChild child minimum inside = elim (Bool-cases (ltb child t.size)) [
    | inr past ↦ rw past (inl refl)
    | inl here ↦
        let lt : child < t.size = ground (arith, here) in
        rw (here, freq_at-frequency child lt, freq_at-frequency minimum (inside lt))
          (pick lt (ltb (frequency (tree_at t child)) (frequency (tree_at t minimum))))
  ]
    where
      pick : child < t.size → (b : Bool) → ChosenChild child minimum (if b then child else minimum)
      pick lt true = inr (refl, lt)
      pick lt false = inl refl

  exchange-Rearranged :
      (m i : ℕ) → m < t.size → i < t.size → m ≢ i → Returns (Rearranged t) (exchange t m i)
  unfolding exchange
  exchange-Rearranged m i hm hi apart =
      let lm : m < length t.nodes = omega (arith, h.fits) in
      let li : i < length t.nodes = omega (arith, h.fits) in
      let a = tree_at t m in
      let b = tree_at t i in
      let second : i < length (set t.nodes m b) = rw (length-set t.nodes m b) li in
      rw
        (
          load-lt t.nodes m nil lm,
          load-lt t.nodes i nil li,
          store-lt t.nodes m b lm,
          store-lt (set t.nodes m b) i a second,
        )
        (record {
          size = refl;
          width = length-set (set t.nodes m b) i a ∙ length-set t.nodes m b;
          sums = λ w.
              let kept : get_or (set t.nodes m b) i nil ≡ b =
                ground (arith, get_or-set t.nodes m i b nil lm) in
              omega (
                arith,
                sum_first-set w t.size t.nodes m b nil hm lm,
                sum_first-set w t.size (set t.nodes m b) i a nil hi second,
                ap w kept,
              );
          idle = λ le. absurd (omega (arith, m_ne_i apart));
        })
    where
      m_ne_i : m ≢ i → (m < i) ⊎ (i < m)
      m_ne_i ne = ground arith

pub update_tree_helper-Rearranged :
    (f : ℕ) (t : HuffTree) (i : ℕ)
    → IsForest t
    → i ≤ t.size
    → t.size < i + f
    → Returns (Rearranged t) (update_tree_helper f t (2 * i + 1) (2 * i + 2) i)
unfolding update_tree_helper
update_tree_helper-Rearranged zero t i h le enough = absurd (omega arith)
update_tree_helper-Rearranged (suc f) t i h le enough =
    Returns-bind (ChosenChild t h (2 * i + 2) i) (Rearranged t) (smaller t (2 * i + 2) i) _
      (smaller-ChosenChild t h (2 * i + 2) i (λ lt. omega arith))
      λ m c.
        Returns-bind (ChosenChild t h (2 * i + 1) m) (Rearranged t) (smaller t (2 * i + 1) m) _
          (smaller-ChosenChild t h (2 * i + 1) m (within m c))
          λ k d.
            go k (down m k c d)
              (λ u r. update_tree_helper-Rearranged f u k (Rearranged-IsForest t u r h))
  where
    within : (m : ℕ) → ChosenChild t h (2 * i + 2) i m → 2 * i + 1 < t.size → m < t.size
    within m (inl e) lt = omega arith
    within m (inr (e, lt')) lt = omega arith

    down :
        (m k : ℕ)
        → ChosenChild t h (2 * i + 2) i m
        → ChosenChild t h (2 * i + 1) m k
        → (k ≡ i) ⊎ ((i < k) × (k < t.size))
    down m k (inl e) (inl e') = inl (omega arith)
    down m k c (inr (e', lt)) = inr (omega arith, omega arith)
    down m k (inr (e, lt)) (inl e') = inr (omega arith, omega arith)

    go :
        (k : ℕ)
        → (k ≡ i) ⊎ ((i < k) × (k < t.size))
        → ((u : HuffTree)
            → Rearranged t u
            → k ≤ u.size
            → u.size < k + f
            → Returns (Rearranged u) (update_tree_helper f u (2 * k + 1) (2 * k + 2) k))
        → Returns (Rearranged t) (
            if k == i
            then ok t
            else (exchange t k i >>= λ u. update_tree_helper f u (2 * k + 1) (2 * k + 2) k))
    go k (inl e) again =
        let stop : (k == i) ≡ true = ground arith in
        rw stop (record { size = refl; width = refl; sums = λ w. refl; idle = λ z. refl })
    go k (inr (lt, inside)) again =
        let on : (k == i) ≡ false = ground arith in
        rw on (
          Returns-bind (Rearranged t) (Rearranged t) (exchange t k i) _
            (exchange-Rearranged t h k i inside (omega arith) (λ e. omega arith))
            λ u r.
              Returns-mono (Rearranged u) (Rearranged t)
                (update_tree_helper f u (2 * k + 1) (2 * k + 2) k)
                (again u r (omega (arith, r.size)) (omega (arith, r.size)))
                (λ v r'. Rearranged-trans t u v r r'))

-- A tree was taken from the array.
pub record TakenTree (t : HuffTree) (r : Tree × HuffTree) : Type 0 where
  pub forest : IsForest r.1
  pub whole : flaws r.0 ≡ 0
  pub size : r.1.size + 1 ≡ t.size
  pub width : length r.1.nodes ≡ length t.nodes
  pub stale : flaws (get_or r.1.nodes 0 nil) ≡ 0
  pub sums : (w : Tree → ℕ) → w r.0 + sum_first w r.1.size r.1.nodes ≡ sum_first w t.size t.nodes

-- Popping from an array of trees without flaws returns one of them and leaves the others.
pub get_mini_freq_node-TakenTree :
    (t : HuffTree) → IsForest t → 0 < t.size → Returns (TakenTree t) (get_mini_freq_node t)
unfolding get_mini_freq_node update_tree
get_mini_freq_node-TakenTree t h pos =
    let n = t.size - 1 in
    let count : t.size ≡ suc n = omega arith in
    let first : 0 < length t.nodes = omega (arith, h.fits) in
    let last_in : n < length t.nodes = omega (arith, h.fits) in
    let last = get_or t.nodes n nil in
    let u : HuffTree = record { size = n; nodes = set t.nodes 0 last } in
    let whole : flaws (tree_at t 0) ≡ 0 = tree_at-flaws t h 0 pos in
    let forest : IsForest u = record {
      fits = omega (arith, length-set t.nodes 0 last, h.fits);
      whole = omega (arith, sums_moved flaws n count, h.whole);
    } in
    rw (load-lt t.nodes 0 nil first, load-lt t.nodes n nil last_in, store-lt t.nodes 0 last first)
      (Returns-bind (Rearranged u) (TakenTree t) (update_tree_helper (n + 1) u 1 2 0) _
        (update_tree_helper-Rearranged (n + 1) u 0 forest (omega arith) (omega arith))
        λ v r. record {
          forest = Rearranged-IsForest u v r forest;
          whole = whole;
          size = omega (arith, r.size);
          width = r.width ∙ length-set t.nodes 0 last;
          stale = stale n v count forest r;
          sums = λ w. rw r.size (omega (arith, r.sums w, sums_moved w n count));
        })
  where
    sums_moved :
        (w : Tree → ℕ) (n : ℕ)
        → t.size ≡ suc n
        → w (tree_at t 0) + sum_first w n (set t.nodes 0 (get_or t.nodes n nil))
          ≡ sum_first w t.size t.nodes
    sums_moved w zero count =
        rw count (omega (arith, sum_first-suc w 0 t.nodes nil (omega (arith, h.fits))))
    sums_moved w (suc n) count =
        let top = sum_first-suc w (suc n) t.nodes nil (omega (arith, h.fits)) in
        let moved =
          sum_first-set w (suc n) t.nodes 0 (get_or t.nodes (suc n) nil) nil (omega arith)
            (omega (arith, h.fits)) in
        rw count (omega (arith, top, moved))

    stale :
        (n : ℕ) (v : HuffTree)
        → t.size ≡ suc n
        → IsForest (record { size = n; nodes = set t.nodes 0 (get_or t.nodes n nil) })
        → Rearranged (record { size = n; nodes = set t.nodes 0 (get_or t.nodes n nil) }) v
        → flaws (get_or v.nodes 0 nil) ≡ 0
    stale zero v count forest r =
        ap (λ (a : List Tree). flaws (get_or a 0 nil)) (r.idle (omega arith))
        ∙ ap flaws (get_or-set t.nodes 0 0 (get_or t.nodes 0 nil) nil (omega (arith, h.fits)))
        ∙ tree_at-flaws t h 0 (omega arith)
    stale (suc n) v count forest r =
        tree_at-flaws v (Rearranged-IsForest _ v r forest) 0 (omega (arith, r.size))
