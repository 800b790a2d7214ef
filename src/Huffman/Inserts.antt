-- ===== src/Huffman/Inserts.antt =====
-- insert_huff_tree: the walk up to the place of the new node.
use system_programming_and_d.Base.{
  ℕ, zero, suc, ◌+◌, ◌-◌, ◌/◌, ◌≤◌, ◌<◌, ◌≡◌, refl, ap, ◌∙◌, inl, inr, false, Bool-cases, List,
  arith, length, length-set, set, get_or, ltb, ◌==◌, Returns, Returns-bind, Returns-mono, load-lt,
  store-lt, get_or-set, sum_first, sum_first-set, sum_first-set_past, sum_first-suc,
  sum_first-get_or,
}
use system_programming_and_d.Huffman.{Tree, nil, node, HuffTree, find_place, insert_huff_tree}
use system_programming_and_d.Huffman.Trees.{flaws, frequency, freq_of-frequency}
use system_programming_and_d.Huffman.Heap.{IsForest, tree_at, tree_at-flaws}

-- The place `i` of `nodes` is free for a tree, over trees of the weight `base`.
abbrev IsHole : (n : ℕ) → ((Tree → ℕ) → ℕ) → ℕ × List Tree → Type 0
IsHole n base (i, nodes) =
    (i ≤ n)
    × (n < length nodes)
    × ((w : Tree → ℕ) (x : Tree) → sum_first w (suc n) (set nodes i x) ≡ base w + w x)

abbrev leaf : Tree
leaf = node 0 0 nil nil

hole-flaws :
    (n : ℕ) (base : (Tree → ℕ) → ℕ) (i q : ℕ) (nodes : List Tree)
    → IsHole n base (i, nodes)
    → base flaws ≡ 0
    → q < i
    → flaws (get_or nodes q nil) ≡ 0
hole-flaws n base i q nodes h whole lt =
    let le =
      sum_first-get_or flaws (suc n) (set nodes i leaf) q nil (omega (arith, h.0))
        (omega (arith, h.0, h.1, length-set nodes i leaf)) in
    let other : (i == q) ≡ false = ground arith in
    let kept : get_or (set nodes i leaf) q nil ≡ get_or nodes q nil =
      rw other at (get_or-set nodes i q leaf nil (omega (arith, h.0, h.1))) in
    omega (arith, le, h.2 flaws leaf, whole, ap flaws kept)

module _ (n : ℕ) (base : (Tree → ℕ) → ℕ) (i : ℕ) (nodes : List Tree)
    (h : IsHole n base (i, nodes)) where
  IsHole-stay : (v : Tree) → IsHole n base (i, set nodes i v)
  IsHole-stay v = (
    h.0,
    omega (arith, h.1, length-set nodes i v),
    λ w x.
        let inside : i < length (set nodes i v) = omega (arith, h.0, h.1, length-set nodes i v) in
        let old : get_or (set nodes i v) i nil ≡ v =
          ground (arith, get_or-set nodes i i v nil (omega (arith, h.0, h.1))) in
        omega (
          arith,
          sum_first-set w (suc n) (set nodes i v) i x nil (omega (arith, h.0)) inside,
          h.2 w v,
          ap w old,
        ),
  )

  -- The tree at an earlier place moves into the hole.
  IsHole-rise : (q : ℕ) → q < i → IsHole n base (q, set nodes i (get_or nodes q nil))
  IsHole-rise q lt =
      let v = get_or nodes q nil in
      let other : (i == q) ≡ false = ground arith in
      (
        omega (arith, h.0),
        omega (arith, h.1, length-set nodes i v),
        λ w x.
            let inside : q < length (set nodes i v) =
              omega (arith, h.0, h.1, length-set nodes i v) in
            let old : get_or (set nodes i v) q nil ≡ v =
              rw other at (get_or-set nodes i q v nil (omega (arith, h.0, h.1))) in
            omega (
              arith,
              sum_first-set w (suc n) (set nodes i v) q x nil (omega (arith, h.0)) inside,
              h.2 w v,
              ap w old,
            ),
      )

-- A place other than the first, and the first tree as it was.
abbrev KeepsRoot : ℕ → List Tree → ℕ × List Tree → Type 0
KeepsRoot i nodes r = 0 < i → (0 < r.0) × (get_or r.1 0 nil ≡ get_or nodes 0 nil)

KeepsRoot-store :
    (i : ℕ) (nodes : List Tree) (v : Tree)
    → i < length nodes
    → 0 < i
    → get_or (set nodes i v) 0 nil ≡ get_or nodes 0 nil
KeepsRoot-store i nodes v inside pos =
    let other : (i == 0) ≡ false = ground arith in rw other at (get_or-set nodes i 0 v nil inside)

find_place-IsHole :
    (f sum n i : ℕ) (base : (Tree → ℕ) → ℕ) (nodes : List Tree)
    → IsHole n base (i, nodes)
    → base flaws ≡ 0
    → flaws (get_or nodes ((i - 1) / 2) nil) ≡ 0
    → i < f
    → Returns
        (λ r. IsHole n base r × (length r.1 ≡ length nodes) × KeepsRoot i nodes r)
        (find_place f sum i (get_or nodes ((i - 1) / 2) nil) nodes)
unfolding find_place
find_place-IsHole zero sum n i base nodes h whole up fuel = absurd (omega arith)
find_place-IsHole (suc f) sum n i base nodes h whole up fuel =
    let parent = get_or nodes ((i - 1) / 2) nil in
    rw (freq_of-frequency parent up) (elim (Bool-cases (ltb sum (frequency parent))) [
      | inr settled ↦ rw settled (h, refl, λ pos. (pos, refl))
      | inl low ↦
          let inside : i < length nodes = omega (arith, h.0, h.1) in
          rw (low, store-lt nodes i parent inside)
            (elim (Bool-cases ((i - 1) / 2 == 0)) [
              | inl top ↦ rw top (
                IsHole-stay n base i nodes h parent,
                length-set nodes i parent,
                λ pos. (pos, KeepsRoot-store i nodes parent inside pos),
              )
              | inr more ↦
                  let q = (i - 1) / 2 in
                  let above : (q - 1) / 2 < q = ground (arith, more) in
                  let risen = IsHole-rise n base i nodes h q (ground (arith, more)) in
                  let nodes' = set nodes i parent in
                  rw (more, load-lt nodes' ((q - 1) / 2) nil (omega (arith, risen.0, risen.1)))
                    (Returns-mono
                      (λ r. IsHole n base r × (length r.1 ≡ length nodes') × KeepsRoot q nodes' r) _
                      (find_place f sum q (get_or nodes' ((q - 1) / 2) nil) nodes')
                      (find_place-IsHole f sum n q base nodes' risen whole
                        (hole-flaws n base q ((q - 1) / 2) nodes' risen whole above) (omega arith))
                      (λ r k. (
                        k.0,
                        k.1 ∙ length-set nodes i parent,
                        λ pos.
                            let m = k.2 (ground (arith, more)) in
                            (m.0, m.1 ∙ KeepsRoot-store i nodes parent inside pos),
                      )))
            ])
    ])

-- A tree was added to the array.
pub record AddedTree (t : HuffTree) (x : Tree) (t' : HuffTree) : Type 0 where
  pub size : t'.size ≡ t.size + 1
  pub width : length t'.nodes ≡ length t.nodes
  pub sums : (w : Tree → ℕ) → sum_first w t'.size t'.nodes ≡ sum_first w t.size t.nodes + w x
  pub root : 0 < t.size → tree_at t' 0 ≡ tree_at t 0

-- Inserting into an array of trees without flaws that has a free place, and that has such a tree in
-- its first place even where its size is 0, returns: it adds the new node over the two trees and
-- loses none, and leaves the first tree first, whatever the frequencies are.
pub insert_huff_tree-AddedTree :
    (t : HuffTree) (right left : Tree) (sum : ℕ)
    → IsForest t
    → t.size < length t.nodes
    → flaws (get_or t.nodes 0 nil) ≡ 0
    → Returns (AddedTree t (node 1 sum left right)) (insert_huff_tree t right left sum)
unfolding insert_huff_tree
insert_huff_tree-AddedTree t right left sum h room root =
    let n = t.size in
    let base = λ (w : Tree → ℕ). sum_first w n t.nodes in
    let hole : IsHole n base (n, t.nodes) = (omega arith, room, λ w x. start w x) in
    rw (load-lt t.nodes ((n - 1) / 2) nil (omega arith)) (
      Returns-bind (λ r. IsHole n base r × (length r.1 ≡ length t.nodes) × KeepsRoot n t.nodes r)
        (AddedTree t new) (find_place (n + 1) sum n (get_or t.nodes ((n - 1) / 2) nil) t.nodes) _
        (find_place-IsHole (n + 1) sum n n base t.nodes hole h.whole (parent n refl) (omega arith))
        λ r k. rw (store-lt r.1 r.0 new (omega (arith, k.0.0, k.0.1))) (record {
          size = refl;
          width = length-set r.1 r.0 new ∙ k.1;
          sums = λ w. (let e : n + 1 ≡ suc n = omega arith in rw e (k.0.2 w new));
          root = λ pos.
              KeepsRoot-store r.0 r.1 new (omega (arith, k.0.0, k.0.1)) (k.2 pos).0 ∙ (k.2 pos).1;
        }))
  where
    new : Tree
    new = node 1 sum left right

    start :
        (w : Tree → ℕ) (x : Tree)
        → sum_first w (suc t.size) (set t.nodes t.size x) ≡ sum_first w t.size t.nodes + w x
    start w x =
        let own : get_or (set t.nodes t.size x) t.size nil ≡ x =
          ground (arith, get_or-set t.nodes t.size t.size x nil room) in
        omega (
          arith,
          sum_first-suc w t.size (set t.nodes t.size x) nil
              (omega (arith, length-set t.nodes t.size x)),
          sum_first-set_past w t.size t.nodes t.size x (omega arith),
          ap w own,
        )

    parent : (n : ℕ) → t.size ≡ n → flaws (get_or t.nodes ((n - 1) / 2) nil) ≡ 0
    parent zero e = root
    parent (suc n) e = tree_at-flaws t h ((suc n - 1) / 2) (omega arith)
