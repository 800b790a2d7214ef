-- ===== src/Huffman/Roots.antt =====
-- create_huffman_tree, from the arrays of keys and counts to the root.
use system_programming_and_d.Base.{
  ℕ, zero, suc, ◌+◌, ◌%◌, ◌^◌, ◌≤◌, ◌<◌, ◌≡◌, refl, sym, ap, ◌∙◌, List, [], ◌∷◌, map, arith, length,
  length-set, set, get_or, replicate, All, sum_of, Returns, Returns-bind, Returns-mono, load,
  load-lt, store-lt, get_or-set, sum_first, sum_first-set_past, sum_first-suc,
}
use system_programming_and_d.Huffman.{
  Tree, nil, node, HuffTree, FreqNode, dict_size, build, init_nodes, tree_init, create_huffman_tree,
}
use system_programming_and_d.Huffman.Trees.{flaws, frequency, misfit, leaf_sum, leaf_sum-node}
use system_programming_and_d.Huffman.Heap.{IsForest}
use system_programming_and_d.Huffman.Builds.{Merged, build-Merged}

-- What the arrays give from the index `i` on.
pairs_sum : (ℕ → ℕ → ℕ) → ℕ → ℕ → List ℕ → List ℕ → ℕ
pairs_sum w i zero ks fs = 0
pairs_sum w i (suc n) ks fs = w (get_or ks i 0) (get_or fs i 0) + pairs_sum w (i + 1) n ks fs

pairs_sum-cons :
    (w : ℕ → ℕ → ℕ) (n i k f : ℕ) (ks fs : List ℕ)
    → pairs_sum w (i + 1) n (k ∷ ks) (f ∷ fs) ≡ pairs_sum w i n ks fs
unfolding pairs_sum
pairs_sum-cons w zero i k f ks fs = refl
pairs_sum-cons w (suc n) i k f ks fs =
    let e : i + 1 ≡ suc i = omega arith in rw (pairs_sum-cons w n (i + 1) k f ks fs) (rw e refl)

pairs_sum-map :
    (w : ℕ → ℕ → ℕ) (ns : List FreqNode)
    → pairs_sum w 0 (length ns) (map (λ n. n.key) ns) (map (λ n. n.value) ns)
      ≡ sum_of (λ n. w n.key n.value) ns
unfolding pairs_sum
pairs_sum-map w [] = refl
pairs_sum-map w (n ∷ ns) = omega (
  arith,
  pairs_sum-cons w (length ns) 0 n.key n.value (map (λ n. n.key) ns) (map (λ n. n.value) ns),
  pairs_sum-map w ns,
)

abbrev single : (Tree → ℕ) → ℕ → ℕ → ℕ
single w k f = w (node k f nil nil)

init_nodes-sums :
    (ks fs : List ℕ) (left i : ℕ) (nodes : List Tree)
    → i + left ≤ length ks
    → i + left ≤ length fs
    → i + left ≤ length nodes
    → Returns
        (λ nodes'.
          (length nodes' ≡ length nodes)
          × ((w : Tree → ℕ)
              → sum_first w (i + left) nodes'
                ≡ sum_first w i nodes + pairs_sum (single w) i left ks fs))
        (init_nodes ks fs i left nodes)
unfolding init_nodes pairs_sum
init_nodes-sums ks fs zero i nodes hk hf hn =
    (refl, λ w. (let e : i + 0 ≡ i = omega arith in rw e (omega arith)))
init_nodes-sums ks fs (suc left) i nodes hk hf hn =
    let leaf = node (get_or ks i 0) (get_or fs i 0) nil nil in
    let inside : i < length nodes = omega arith in
    rw (load-lt ks i 0 (omega arith), load-lt fs i 0 (omega arith), store-lt nodes i leaf inside)
      (Returns-mono
        (λ nodes'.
          (length nodes' ≡ length (set nodes i leaf))
          × ((w : Tree → ℕ)
              → sum_first w (i + 1 + left) nodes'
                ≡ sum_first w (i + 1) (set nodes i leaf) + pairs_sum (single w) (i + 1) left ks fs))
        _ (init_nodes ks fs (i + 1) left (set nodes i leaf))
        (init_nodes-sums ks fs left (i + 1) (set nodes i leaf) (omega arith) (omega arith)
          (omega (arith, length-set nodes i leaf)))
        λ nodes' h. (
          h.0 ∙ length-set nodes i leaf,
          λ w.
              (let e : i + suc left ≡ i + 1 + left = omega arith in
                let e' : i + 1 ≡ suc i = omega arith in
                let own : get_or (set nodes i leaf) i nil ≡ leaf =
                  ground (arith, get_or-set nodes i i leaf nil inside) in
                let step : sum_first w (i + 1) (set nodes i leaf) ≡ sum_first w i nodes + w leaf =
                  rw e' (
                    omega (
                      arith,
                      sum_first-suc w i (set nodes i leaf) nil
                          (omega (arith, length-set nodes i leaf)),
                      sum_first-set_past w i nodes i leaf (omega arith),
                      ap w own,
                    )) in
                rw e (omega (arith, h.1 w, step))),
        ))

-- The tree that is built: every node has two children or none, its leaves are the symbols with
-- their frequencies, and the root has the sum of the frequencies as a uint64_t.
pub record BuiltOf (ns : List FreqNode) (root : Tree) : Type 0 where
  pub whole : flaws root ≡ 0
  pub leaves : (w : ℕ → ℕ → ℕ) → leaf_sum w root ≡ sum_of (λ n. w n.key n.value) ns
  pub total : frequency root ≡ sum_of (λ n. n.value) ns % 2 ^ 64

length-map : (g : FreqNode → ℕ) (ns : List FreqNode) → length (map g ns) ≡ length ns
length-map g [] = refl
length-map g (n ∷ ns) = ap suc (length-map g ns)

length-replicate_nil : (n : ℕ) → length (replicate n nil) ≡ n
length-replicate_nil zero = refl
length-replicate_nil (suc n) = omega (arith, length-replicate_nil n)

sum_of-zero :
    (B : ℕ) (w : ℕ → ℕ → ℕ) (ns : List FreqNode)
    → ((k f : ℕ) → f < B → w k f ≡ 0)
    → All (λ n. n.value < B) ns
    → sum_of (λ n. w n.key n.value) ns ≡ 0
sum_of-zero B w [] h small = refl
sum_of-zero B w (n ∷ ns) h small =
    omega (arith, h n.key n.value small.0, sum_of-zero B w ns h small.1)

misfit-leaf : (k f : ℕ) → f < 2 ^ 64 → misfit (node k f nil nil) ≡ 0
misfit-leaf k f lt = ground arith

-- The array of tree_init: a leaf for each symbol.
record Placed (ns : List FreqNode) (t : HuffTree) : Type 0 where
  pub size : t.size ≡ length ns
  pub forest : IsForest t
  pub sums : (w : Tree → ℕ) → sum_first w t.size t.nodes ≡ sum_of (λ n. single w n.key n.value) ns

module _ (ns : List FreqNode) where
  placed :
      (empty nodes : List Tree)
      → length ns ≤ length empty
      → All (λ n. n.value < 2 ^ 64) ns
      → length nodes ≡ length empty
      → ((w : Tree → ℕ)
          → sum_first w (0 + length ns) nodes
            ≡ 0 + pairs_sum (single w) 0 (length ns) (map (λ n. n.key) ns) (map (λ n. n.value) ns))
      → Placed ns (record { size = length ns; nodes = nodes })
  placed empty nodes room small width sums =
      let total : (w : Tree → ℕ)
          → sum_first w (length ns) nodes ≡ sum_of (λ n. single w n.key n.value) ns =
        λ w.
          (let e : 0 + length ns ≡ length ns = omega arith in
            omega (arith, rw e at (sums w), pairs_sum-map (single w) ns)) in
      record {
        size = refl;
        forest = record {
          fits = omega arith;
          whole = total flaws ∙ sum_of-zero (2 ^ 64) (single flaws) ns (λ k f lt. refl) small;
        };
        sums = total;
      }

  built :
      (t v : HuffTree)
      → All (λ n. n.value < 2 ^ 64) ns
      → Placed ns t
      → Merged t v
      → v.size ≡ 1
      → Returns (BuiltOf ns) (load v.nodes 0)
  built t v small p m one =
      let root = get_or v.nodes 0 nil in
      let only : (w : Tree → ℕ) → sum_first w v.size v.nodes ≡ w root = λ w.
        rw one (omega (arith, sum_first-suc w 0 v.nodes nil (omega (arith, one, m.forest.fits)))) in
      let whole : flaws root ≡ 0 = sym (only flaws) ∙ m.forest.whole in
      let leaves : (w : ℕ → ℕ → ℕ) → leaf_sum w root ≡ sum_of (λ n. w n.key n.value) ns = λ w.
        sym (only (leaf_sum w))
        ∙ m.keeps (leaf_sum w) (λ s l r hl hr. leaf_sum-node w 1 s l r hl hr)
        ∙ p.sums (leaf_sum w) in
      let fit : misfit root ≡ 0 =
        sym (only misfit)
        ∙ m.fits (p.sums misfit ∙ sum_of-zero (2 ^ 64) (single misfit) ns misfit-leaf small) in
      rw (load-lt v.nodes 0 nil (omega (arith, one, m.forest.fits)))
        (record { whole = whole; leaves = leaves; total = ground (arith, fit, leaves (λ k f. f)) })

-- For 1 to 256 symbols whose counts fit a uint64_t, create_huffman_tree ends without a fault, in a
-- tree where each symbol is a leaf with its own count, each inner node has two children, and the
-- root has the total count modulo 2^64.
pub create_huffman_tree-BuiltOf :
    (ns : List FreqNode)
    → 1 ≤ length ns
    → length ns ≤ dict_size
    → All (λ n. n.value < 2 ^ 64) ns
    → Returns
        (BuiltOf ns)
        (create_huffman_tree (map (λ n. n.key) ns) (map (λ n. n.value) ns) (length ns))
unfolding create_huffman_tree tree_init
create_huffman_tree-BuiltOf ns pos most small =
    let ks = map (λ (n : FreqNode). n.key) ns in
    let fs = map (λ (n : FreqNode). n.value) ns in
    let size = length ns in
    let empty = replicate dict_size nil in
    Returns-bind (Placed ns) (BuiltOf ns) (tree_init ks fs size) _
      (Returns-bind
        (λ nodes'.
          (length nodes' ≡ length empty)
          × ((w : Tree → ℕ)
              → sum_first w (0 + size) nodes'
                ≡ sum_first w 0 empty + pairs_sum (single w) 0 size ks fs))
        (Placed ns) (init_nodes ks fs 0 size empty) _
        (init_nodes-sums ks fs size 0 empty (omega (arith, length-map (λ n. n.key) ns))
          (omega (arith, length-map (λ n. n.value) ns))
          (omega (arith, most, length-replicate_nil dict_size)))
        (λ nodes' h.
          placed ns empty nodes' (omega (arith, most, length-replicate_nil dict_size)) small h.0
            h.1))
      λ t p.
        Returns-bind (λ v. Merged t v × (v.size ≡ 1)) (BuiltOf ns) (build size t) _
          (build-Merged size t (p.forest) (omega (arith, p.size)) (omega (arith, p.size)))
          λ v m. built ns t v small p m.0 m.1
