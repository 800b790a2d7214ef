-- ===== src/Huffman/Bitcodes.antt =====
-- generate_node_list and calculate_bitcode.
use mathlib.Core.List.{Permᴰ}
use system_programming_and_d.Base.{
  ℕ, zero, suc, ◌+◌, ◌^◌, ◌<◌, ◌≡◌, refl, sym, ap, ◌∙◌, List, [], ◌∷◌, map, arith, none, length,
  length-replicate, replicate, All, sum_of, ltb, ◌==◌, if◌then◌else◌, Returns, Returns-bind,
}
use system_programming_and_d.Huffman.{
  Tree, nil, node, FreqNode, dict_size, node_list_from, generate_node_list, create_huffman_tree,
  save_codes, calculate_bitcode,
}
use system_programming_and_d.Huffman.Trees.{flaws, leaf_sum, depth-lt}
use system_programming_and_d.Huffman.Bits.{bit_of-zeros, All-zeros}
use system_programming_and_d.Huffman.Roots.{BuiltOf, create_huffman_tree-BuiltOf}
use system_programming_and_d.Huffman.Codes.{follow, count_of}
use system_programming_and_d.Huffman.Paths.{node_at, IsBlank, HasCode, Encodable, Coding}
use system_programming_and_d.Huffman.Walks.{save_codes-Coding}

sum_of-Perm : (w : FreqNode → ℕ) {xs ys : List FreqNode} → Permᴰ xs ys → sum_of w xs ≡ sum_of w ys
sum_of-Perm w Permᴰ.nil = refl
sum_of-Perm w (Permᴰ.cons e d) = omega (arith, ap w e, sum_of-Perm w d)
sum_of-Perm w (Permᴰ.swap e e') = omega (arith, ap w e, ap w e')
sum_of-Perm w (Permᴰ.trans d d') = sum_of-Perm w d ∙ sum_of-Perm w d'

sum_of-one : (ns : List FreqNode) → sum_of (λ n. 1) ns ≡ length ns
sum_of-one [] = refl
sum_of-one (n ∷ ns) = omega (arith, sum_of-one ns)

-- The values that do not fit a uint64_t.
abbrev too_big : FreqNode → ℕ
too_big n = if ltb n.value (2 ^ 64) then 0 else 1

All-fits : (ns : List FreqNode) → sum_of too_big ns ≡ 0 → All (λ n. n.value < 2 ^ 64) ns
All-fits [] h = tt
All-fits (n ∷ ns) h = (ground arith, All-fits ns (ground arith))

abbrev has_key : ℕ → FreqNode → ℕ
has_key k n = if n.key == k then 1 else 0

length-node_list_from : (i : ℕ) (freq : List ℕ) → length (node_list_from i freq) ≡ length freq
unfolding node_list_from
length-node_list_from i [] = refl
length-node_list_from i (f ∷ freq) = ap suc (length-node_list_from (i + 1) freq)

node_list_from-fits :
    (i : ℕ) (freq : List ℕ)
    → All (λ f. f < 2 ^ 64) freq
    → sum_of too_big (node_list_from i freq) ≡ 0
unfolding node_list_from
node_list_from-fits i [] h = refl
node_list_from-fits i (f ∷ freq) h = ground (arith, h.0, node_list_from-fits (i + 1) freq h.1)

node_list_from-keys :
    (k i : ℕ) (freq : List ℕ)
    → sum_of (has_key k) (node_list_from i freq)
      ≡ (if ltb k i then 0 else if ltb k (i + length freq) then 1 else 0)
unfolding node_list_from
node_list_from-keys k i [] = ground arith
node_list_from-keys k i (f ∷ freq) = ground (arith, node_list_from-keys k (i + 1) freq)

node_list_from-IsBlank :
    (i j : ℕ) (freq : List ℕ) → j < length freq → IsBlank (node_at (node_list_from i freq) j)
unfolding node_list_from
node_list_from-IsBlank i j [] h = absurd (omega arith)
node_list_from-IsBlank i zero (f ∷ freq) h = record {
  width = length-replicate {A = ℕ} dict_size 0;
  range = All-zeros dict_size;
  zeros = bit_of-zeros dict_size;
}
node_list_from-IsBlank i (suc j) (f ∷ freq) h = node_list_from-IsBlank (i + 1) j freq (omega arith)

-- A tree for the symbols, and a path in it for each of them.
pub record Bitcodes (s : Tree × List FreqNode) : Type 0 where
  pub inner : follow s.0 [] ≡ none
  pub count : length s.1 ≡ 256
  pub codes : (k : ℕ) → k < 256 → HasCode s.0 k [] (node_at s.1 k)

inner-follow : (t : Tree) → flaws t ≡ 0 → 1 < leaf_sum (λ k f. 1) t → follow t [] ≡ none
unfolding follow
inner-follow nil h more = absurd (omega arith)
inner-follow (node k f nil nil) h more = absurd (omega arith)
inner-follow (node k f (node a b c d) r) h more = refl
inner-follow (node k f nil (node a b c d)) h more = refl

module _ (sort : List FreqNode → List FreqNode)
    (sort-Perm : (ns : List FreqNode) → Permᴰ (sort ns) ns) (freq : List ℕ)
    (width : length freq ≡ 256) (range : All (λ f. f < 2 ^ 64) freq) where
  abbrev fresh : List FreqNode
  fresh = node_list_from 0 freq

  built : Returns (BuiltOf (sort fresh)) (
      create_huffman_tree
        (map (λ n. n.key) (sort fresh))
        (map (λ n. n.value) (sort fresh))
        dict_size)
  built =
      let size : length (sort fresh) ≡ 256 =
        sym (sum_of-one (sort fresh))
        ∙ sum_of-Perm (λ n. 1) (sort-Perm fresh)
        ∙ sum_of-one fresh
        ∙ length-node_list_from 0 freq
        ∙ width in
      rw size at (
        create_huffman_tree-BuiltOf (sort fresh) (omega (arith, size)) (omega (arith, size)) (
          All-fits (sort fresh)
            (sum_of-Perm too_big (sort-Perm fresh) ∙ node_list_from-fits 0 freq range)))

  module _ (root : Tree) (b : BuiltOf (sort fresh) root) where
    leaves_of : (w : ℕ → ℕ → ℕ) → leaf_sum w root ≡ sum_of (λ n. w n.key n.value) fresh
    leaves_of w = b.leaves w ∙ sum_of-Perm (λ n. w n.key n.value) (sort-Perm fresh)

    all_leaves : leaf_sum (λ k f. 1) root ≡ 256
    all_leaves = leaves_of (λ k f. 1) ∙ sum_of-one fresh ∙ length-node_list_from 0 freq ∙ width

    keys : (k : ℕ) → count_of k root ≡ (if ltb k 256 then 1 else 0)
    keys k =
        ground
          (arith, leaves_of (λ a f. if a == k then 1 else 0), node_list_from-keys k 0 freq, width)

    root-Encodable : Encodable root [] (replicate dict_size 0) fresh
    root-Encodable = record {
      whole = b.whole;
      room = omega (arith, depth-lt root b.whole, all_leaves);
      width = length-replicate {A = ℕ} dict_size 0;
      binary = λ j. omega arith;
      along = λ j lt. absurd (omega arith);
      distinct = λ k. ground (arith, keys k);
      places = λ k pos. ground (arith, keys k, pos, length-node_list_from 0 freq, width);
      blanks = λ k pos. node_list_from-IsBlank 0 k freq (ground (arith, keys k, pos, width));
    }

  -- For 256 counts that fit a uint64_t, and any sort that only reorders, calculate_bitcode ends
  -- without a fault in a tree and a table that has, for each of the 256 symbols, the path to the
  -- symbol's leaf as its code.
  pub calculate_bitcode-Bitcodes :
      Returns Bitcodes (calculate_bitcode sort (generate_node_list freq))
  unfolding calculate_bitcode generate_node_list
  calculate_bitcode-Bitcodes =
      Returns-bind (BuiltOf (sort fresh)) _
        (create_huffman_tree (map (λ n. n.key) (sort fresh)) (map (λ n. n.value) (sort fresh))
          dict_size)
        _ built
        λ root b.
          Returns-bind (Coding root [] (replicate dict_size 0) fresh) _
            (save_codes root (replicate dict_size 0) 0 fresh) _
            (save_codes-Coding root [] (replicate dict_size 0) fresh 0 refl (root-Encodable root b))
            λ s c. record {
              inner = inner-follow root b.whole (omega (arith, all_leaves root b));
              count = c.count ∙ length-node_list_from 0 freq ∙ width;
              codes = λ k lt. c.codes k (ground (arith, keys root b k));
            }
