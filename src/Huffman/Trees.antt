-- ===== src/Huffman/Trees.antt =====
-- Measures of a tree: its leaves, its depth, and whether every inner node has two children.
use system_programming_and_d.Base.{
  ℕ, suc, ◌+◌, ◌%◌, ◌^◌, ◌<◌, ◌≡◌, refl, arith, ltb, ◌==◌, if◌then◌else◌, ok,
}
use system_programming_and_d.Huffman.{Tree, nil, node, freq_of}

-- A weight of key and frequency summed over the leaves.
abbrev pub leaf_sum : (ℕ → ℕ → ℕ) → Tree → ℕ
leaf_sum w nil = 0
leaf_sum w (node k f nil nil) = w k f
leaf_sum w (node k f (node a b c d) nil) = leaf_sum w (node a b c d)
leaf_sum w (node k f nil (node a b c d)) = leaf_sum w (node a b c d)
leaf_sum w (node k f (node a b c d) (node a' b' c' d')) =
    leaf_sum w (node a b c d) + leaf_sum w (node a' b' c' d')

-- 0 for a tree in which every node has two children or none.
abbrev pub flaws : Tree → ℕ
flaws nil = 1
flaws (node k f nil nil) = 0
flaws (node k f (node a b c d) nil) = 1
flaws (node k f nil (node a b c d)) = 1
flaws (node k f (node a b c d) (node a' b' c' d')) = flaws (node a b c d) + flaws (node a' b' c' d')

abbrev pub max_of : ℕ → ℕ → ℕ
max_of a b = if ltb a b then b else a

abbrev pub depth : Tree → ℕ
depth nil = 0
depth (node k f nil nil) = 0
depth (node k f (node a b c d) nil) = suc (depth (node a b c d))
depth (node k f nil (node a b c d)) = suc (depth (node a b c d))
depth (node k f (node a b c d) (node a' b' c' d')) =
    suc (max_of (depth (node a b c d)) (depth (node a' b' c' d')))

abbrev pub frequency : Tree → ℕ
frequency nil = 0
frequency (node k f l r) = f

-- 0 for a tree whose root has the sum of the frequencies of its leaves, as a uint64_t.
abbrev pub misfit : Tree → ℕ
misfit t = if frequency t == leaf_sum (λ k f. f) t % 2 ^ 64 then 0 else 1

pub freq_of-frequency : (t : Tree) → flaws t ≡ 0 → freq_of t ≡ ok (frequency t)
unfolding freq_of
freq_of-frequency nil h = absurd (omega arith)
freq_of-frequency (node k f l r) h = refl

-- The new node over two trees.
pub leaf_sum-node :
    (w : ℕ → ℕ → ℕ) (k f : ℕ) (l r : Tree)
    → flaws l ≡ 0
    → flaws r ≡ 0
    → leaf_sum w (node k f l r) ≡ leaf_sum w l + leaf_sum w r
leaf_sum-node w k f nil r hl hr = absurd (omega arith)
leaf_sum-node w k f (node a b c d) nil hl hr = absurd (omega arith)
leaf_sum-node w k f (node a b c d) (node a' b' c' d') hl hr = refl

pub flaws-node : (k f : ℕ) (l r : Tree) → flaws l ≡ 0 → flaws r ≡ 0 → flaws (node k f l r) ≡ 0
flaws-node k f nil r hl hr = absurd (omega arith)
flaws-node k f (node a b c d) nil hl hr = absurd (omega arith)
flaws-node k f (node a b c d) (node a' b' c' d') hl hr = omega (arith, hl, hr)

pub misfit-node :
    (k : ℕ) (l r : Tree)
    → flaws l ≡ 0
    → flaws r ≡ 0
    → misfit l ≡ 0
    → misfit r ≡ 0
    → misfit (node k ((frequency l + frequency r) % 2 ^ 64) l r) ≡ 0
misfit-node k l r hl hr ml mr =
    ground
      (arith, ml, mr, leaf_sum-node (λ k f. f) k ((frequency l + frequency r) % 2 ^ 64) l r hl hr)

-- A tree with two children or none everywhere has more leaves than levels.
pub depth-lt : (t : Tree) → flaws t ≡ 0 → depth t < leaf_sum (λ k f. 1) t
depth-lt nil h = absurd (omega arith)
depth-lt (node k f nil nil) h = omega arith
depth-lt (node k f (node a b c d) nil) h = absurd (omega arith)
depth-lt (node k f nil (node a b c d)) h = absurd (omega arith)
depth-lt (node k f (node a b c d) (node a' b' c' d')) h =
    ground (arith, depth-lt (node a b c d), depth-lt (node a' b' c' d'))
