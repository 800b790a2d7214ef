-- ===== src/Huffman/Tests.antt =====
-- Runs of the code at small inputs, and the theorems at them.
use mathlib.Core.List.{Permᴰ}
use system_programming_and_d.Base.{
  ◌*◌, ◌+◌, ◌≤◌, ℕ, zero, suc, ◌^◌, ◌<◌, ◌≡◌, refl, Bool, true, false, List, [], ◌∷◌, map, arith,
  length, replicate, All, leb, if◌then◌else◌, ok, Returns,
}
use system_programming_and_d.Huffman.{
  Tree, nil, node, HuffTree, FreqNode, dict_size, get_mini_freq_node, insert_huff_tree,
  create_huffman_tree, generate_node_list, calculate_bitcode, encode_msg, compress, run_huffman,
}
use system_programming_and_d.Huffman.Heap.{IsForest, TakenTree, get_mini_freq_node-TakenTree}
use system_programming_and_d.Huffman.Inserts.{AddedTree, insert_huff_tree-AddedTree}
use system_programming_and_d.Huffman.Roots.{BuiltOf, create_huffman_tree-BuiltOf}
use system_programming_and_d.Huffman.Bitcodes.{Bitcodes, calculate_bitcode-Bitcodes}
use system_programming_and_d.Huffman.Codes.{bits_from}
use system_programming_and_d.Huffman.Messages.{payload, codes_of, encode_msg-payload}
use system_programming_and_d.Huffman.Program.{Answers, run_huffman-Answers}

-- A sort that stands for qsort.
abbrev insert_by_value : FreqNode → List FreqNode → List FreqNode
insert_by_value n [] = n ∷ []
insert_by_value n (m ∷ ns) =
    let rest = insert_by_value n ns in if leb n.value m.value then n ∷ m ∷ ns else m ∷ rest

abbrev sort_by_value : List FreqNode → List FreqNode
sort_by_value [] = []
sort_by_value (n ∷ ns) = insert_by_value n (sort_by_value ns)

Perm_self : (ns : List FreqNode) → Permᴰ ns ns
Perm_self [] = Permᴰ.nil
Perm_self (n ∷ ns) = Permᴰ.cons refl (Perm_self ns)

insert_by_value-Perm : (n : FreqNode) (ns : List FreqNode) → Permᴰ (insert_by_value n ns) (n ∷ ns)
insert_by_value-Perm n [] = Perm_self (n ∷ [])
insert_by_value-Perm n (m ∷ ns) = go (leb n.value m.value) (insert_by_value-Perm n ns)
  where
    go :
        (b : Bool)
        → Permᴰ (insert_by_value n ns) (n ∷ ns)
        → Permᴰ (if b then n ∷ m ∷ ns else m ∷ insert_by_value n ns) (n ∷ m ∷ ns)
    go true h = Perm_self (n ∷ m ∷ ns)
    go false h = Permᴰ.trans (Permᴰ.cons refl h) (Permᴰ.swap refl refl)

sort_by_value-Perm : (ns : List FreqNode) → Permᴰ (sort_by_value ns) ns
sort_by_value-Perm [] = Permᴰ.nil
sort_by_value-Perm (n ∷ ns) =
    Permᴰ.trans (insert_by_value-Perm n (sort_by_value ns))
      (Permᴰ.cons refl (sort_by_value-Perm ns))

abbrev leaf_of : ℕ → ℕ → Tree
leaf_of k f = node k f nil nil

-- Three symbols give two rounds; in the second the heavier tree comes out first, and goes right.
three_symbols :
    create_huffman_tree (97 ∷ 98 ∷ 99 ∷ []) (1 ∷ 2 ∷ 4 ∷ []) 3
    ≡ ok (node 1 7 (node 1 3 (leaf_of 98 2) (leaf_of 97 1)) (leaf_of 99 4))
unfolding create_huffman_tree
three_symbols = refl

abbrev heavy_root : HuffTree
heavy_root = record { size = 1; nodes = leaf_of 97 9 ∷ nil ∷ [] }

-- A lighter node stays behind the heavier root.
light_after_heavy :
    insert_huff_tree heavy_root (leaf_of 98 1) (leaf_of 99 2) 3
    ≡ ok (record { size = 2; nodes = leaf_of 97 9 ∷ node 1 3 (leaf_of 99 2) (leaf_of 98 1) ∷ [] })
unfolding insert_huff_tree
light_after_heavy = refl

heavy_root-IsForest : IsForest heavy_root
heavy_root-IsForest = record { fits = omega arith; whole = refl }

insert_huff_tree-AddedTree_example :
    Returns
      (AddedTree heavy_root (node 1 3 (leaf_of 99 2) (leaf_of 98 1)))
      (insert_huff_tree heavy_root (leaf_of 98 1) (leaf_of 99 2) 3)
insert_huff_tree-AddedTree_example =
    insert_huff_tree-AddedTree heavy_root (leaf_of 98 1) (leaf_of 99 2) 3 heavy_root-IsForest
      (omega arith) refl

abbrev two_trees : HuffTree
two_trees = record { size = 2; nodes = leaf_of 97 1 ∷ leaf_of 98 2 ∷ [] }

two_trees-IsForest : IsForest two_trees
two_trees-IsForest = record { fits = omega arith; whole = refl }

get_mini_freq_node-TakenTree_example : Returns (TakenTree two_trees) (get_mini_freq_node two_trees)
get_mini_freq_node-TakenTree_example =
    get_mini_freq_node-TakenTree two_trees two_trees-IsForest (omega arith)

abbrev counted : ℕ → ℕ → FreqNode
counted k f = record { key = k; value = f; bit_array = []; length = 0; n_padding = 0 }

abbrev two_symbols : List FreqNode
two_symbols = counted 97 1 ∷ counted 98 2 ∷ []

create_huffman_tree-BuiltOf_example : Returns (BuiltOf two_symbols) (
    create_huffman_tree
      (map (λ n. n.key) two_symbols)
      (map (λ n. n.value) two_symbols)
      (length two_symbols))
create_huffman_tree-BuiltOf_example =
    create_huffman_tree-BuiltOf two_symbols (omega arith) (omega arith)
      (omega arith, (omega arith, tt))

All-replicate_lt : (n f : ℕ) → f < 2 ^ 64 → All (λ x. x < 2 ^ 64) (replicate n f)
All-replicate_lt zero f lt = tt
All-replicate_lt (suc n) f lt = (lt, All-replicate_lt n f lt)

-- Every symbol once.
calculate_bitcode-Bitcodes_example :
    Returns Bitcodes (calculate_bitcode sort_by_value (generate_node_list (replicate dict_size 1)))
calculate_bitcode-Bitcodes_example =
    calculate_bitcode-Bitcodes sort_by_value sort_by_value-Perm (replicate dict_size 1) refl
      (All-replicate_lt dict_size 1 (omega arith))

-- The code 10 for the symbol 0, and 1 for the symbol 1.
abbrev short_table : List FreqNode
short_table =
    record { key = 0; value = 1; bit_array = 128 ∷ []; length = 2; n_padding = 6 }
    ∷ record { key = 1; value = 2; bit_array = 128 ∷ []; length = 1; n_padding = 7 }
    ∷ []

encode_msg-payload_example :
    Returns
      (λ out.
        (payload out ≡ codes_of short_table (0 ∷ 1 ∷ []))
        × (length out * 8 ≤ length (codes_of short_table (0 ∷ 1 ∷ [])) + 16))
      (encode_msg 170 short_table (0 ∷ 1 ∷ []))
unfolding codes_of bits_from
encode_msg-payload_example =
    encode_msg-payload 170 (omega arith) short_table (0 ∷ 1 ∷ [])
      (
        (omega arith, record { range = (omega arith, tt); fits = omega arith }),
        ((omega arith, record { range = (omega arith, tt); fits = omega arith }), tt),
      )
      (omega arith) (omega arith)

abbrev banana : List ℕ
banana = 98 ∷ 97 ∷ 110 ∷ 97 ∷ 110 ∷ 97 ∷ []

run_huffman-Answers_example :
    Returns (λ r. Answers banana r.0 compress r.1) (run_huffman sort_by_value 170 banana compress)
run_huffman-Answers_example =
    run_huffman-Answers sort_by_value sort_by_value-Perm banana
      (omega arith, (omega arith, (omega arith, (omega arith, (omega arith, (omega arith, tt))))))
      (omega arith) 170 compress (omega arith) tt
