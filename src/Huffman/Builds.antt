-- ===== src/Huffman/Builds.antt =====
-- create_huffman_tree: a round takes the two least trees and adds one over them.
use system_programming_and_d.Base.{
  ℕ, zero, suc, ◌+◌, ◌%◌, ◌^◌, ◌≤◌, ◌<◌, ◌≡◌, refl, ◌∙◌, inl, inr, Bool-cases, arith, length, ltb,
  Returns, Returns-bind, Returns-mono, sum_first,
}
use system_programming_and_d.Huffman.{
  Tree, node, HuffTree, get_mini_freq_node, insert_huff_tree, merge_least, build,
}
use system_programming_and_d.Huffman.Trees.{
  flaws, frequency, misfit, freq_of-frequency, flaws-node, misfit-node,
}
use system_programming_and_d.Huffman.Heap.{IsForest, TakenTree, get_mini_freq_node-TakenTree}
use system_programming_and_d.Huffman.Inserts.{AddedTree, insert_huff_tree-AddedTree}

-- A weight that a new node has from its two trees.
abbrev IsAdditive : (Tree → ℕ) → Type 0
IsAdditive w = (s : ℕ) (l r : Tree) → flaws l ≡ 0 → flaws r ≡ 0 → w (node 1 s l r) ≡ w l + w r

-- Fewer trees over the same leaves, with the right frequencies.
pub record Merged (t t' : HuffTree) : Type 0 where
  pub forest : IsForest t'
  pub width : length t'.nodes ≡ length t.nodes
  pub keeps :
      (w : Tree → ℕ) → IsAdditive w → sum_first w t'.size t'.nodes ≡ sum_first w t.size t.nodes
  pub fits : sum_first misfit t.size t.nodes ≡ 0 → sum_first misfit t'.size t'.nodes ≡ 0

Merged-trans : (t u v : HuffTree) → Merged t u → Merged u v → Merged t v
Merged-trans t u v h k = record {
  forest = k.forest;
  width = k.width ∙ h.width;
  keeps = λ w a. k.keeps w a ∙ h.keeps w a;
  fits = λ z. k.fits (h.fits z);
}

merge_least-Merged :
    (t : HuffTree)
    → IsForest t
    → 1 < t.size
    → Returns (λ t'. Merged t t' × (t'.size + 1 ≡ t.size)) (merge_least t)
unfolding merge_least
merge_least-Merged t h more =
    Returns-bind (TakenTree t) _ (get_mini_freq_node t) _
      (get_mini_freq_node-TakenTree t h (omega arith))
      λ a p.
        Returns-bind (TakenTree a.1) _ (get_mini_freq_node a.1) _
          (get_mini_freq_node-TakenTree a.1 p.forest (omega (arith, p.size)))
          λ b q.
            rw (freq_of-frequency b.0 q.whole, freq_of-frequency a.0 p.whole)
              (Returns-mono (AddedTree b.1 (new a b)) _
                (insert_huff_tree b.1 a.0 b.0 ((frequency b.0 + frequency a.0) % 2 ^ 64))
                (insert_huff_tree-AddedTree b.1 a.0 b.0 _ q.forest
                  (omega (arith, q.size, q.width, p.forest.fits)) q.stale)
                (λ u k. (merged a b u p q k, omega (arith, p.size, q.size, k.size))))
  where
    new : Tree × HuffTree → Tree × HuffTree → Tree
    new a b = node 1 ((frequency b.0 + frequency a.0) % 2 ^ 64) b.0 a.0

    merged :
        (a b : Tree × HuffTree) (u : HuffTree)
        → TakenTree t a
        → TakenTree a.1 b
        → AddedTree b.1 (new a b) u
        → Merged t u
    merged a b u p q k =
        let whole =
          flaws-node 1 ((frequency b.0 + frequency a.0) % 2 ^ 64) b.0 a.0 q.whole p.whole in
        record {
          forest = record {
            fits = omega (arith, k.size, k.width, q.size, q.width, p.forest.fits);
            whole = omega (arith, k.sums flaws, whole, q.forest.whole);
          };
          width = k.width ∙ q.width ∙ p.width;
          keeps = λ w ad. omega (
            arith,
            k.sums w,
            q.sums w,
            p.sums w,
            ad ((frequency b.0 + frequency a.0) % 2 ^ 64) b.0 a.0 q.whole p.whole,
          );
          fits = λ z.
              let la : misfit a.0 ≡ 0 = omega (arith, z, p.sums misfit) in
              let lb : misfit b.0 ≡ 0 = omega (arith, z, p.sums misfit, q.sums misfit) in
              omega (
                arith,
                z,
                p.sums misfit,
                q.sums misfit,
                k.sums misfit,
                misfit-node 1 b.0 a.0 q.whole p.whole lb la,
              );
        }

pub build-Merged :
    (f : ℕ) (t : HuffTree)
    → IsForest t
    → 0 < t.size
    → t.size ≤ f
    → Returns (λ t'. Merged t t' × (t'.size ≡ 1)) (build f t)
unfolding build
build-Merged zero t h pos fuel = absurd (omega arith)
build-Merged (suc f) t h pos fuel = elim (Bool-cases (ltb 1 t.size)) [
  | inr one ↦
      rw one (
        record { forest = h; width = refl; keeps = λ w a. refl; fits = λ z. z },
        ground (arith, one),
      )
  | inl more ↦ rw more (
      Returns-bind (λ u. Merged t u × (u.size + 1 ≡ t.size)) _ (merge_least t) _
        (merge_least-Merged t h (ground (arith, more)))
        λ u r.
          Returns-mono (λ v. Merged u v × (v.size ≡ 1)) _ (build f u)
            (build-Merged f u r.0.forest (ground (arith, more, r.1)) (omega (arith, r.1)))
            (λ v s. (Merged-trans t u v r.0 s.0, s.1)))
]
