-- ===== src/Huffman/Walks.antt =====
-- save_codes, by induction on the tree.
use mathlib.Core.List.{append-nil}
use system_programming_and_d.Base.{
  ℕ, ◌+◌, ◌-◌, ◌%◌, ◌<◌, ◌≡◌, refl, sym, subst, ◌∙◌, ◌⊎◌, inl, inr, true, false, Bool-cases, List,
  [], ◌∷◌, ◌++◌, arith, length, length-set, set, get_or, ltb, ◌==◌, if◌then◌else◌, Returns,
  Returns-bind, load-lt, store-lt, get_or-set,
}
use system_programming_and_d.Huffman.{
  Tree, nil, node, FreqNode, save_from, save_bit_array, save_leaf, save_codes,
}
use system_programming_and_d.Huffman.Trees.{flaws}
use system_programming_and_d.Huffman.Codes.{follow, blank, count_of, SavedBits, save_from-SavedBits}
use system_programming_and_d.Huffman.Paths.{
  node_at, IsBlank, HasCode, Coding, Encodable, bits_from-path, length-snoc, HasCode-right,
  HasCode-left, Encodable-child,
}

save_leaf-Coding :
    (c f : ℕ) (p arr : List ℕ) (nodes : List FreqNode) (top : ℕ)
    → top ≡ length p
    → Encodable (node c f nil nil) p arr nodes
    → Returns (λ n. Coding (node c f nil nil) p arr nodes (arr, n)) (save_leaf c arr top nodes)
unfolding save_leaf save_bit_array follow
save_leaf-Coding c f p arr nodes top e h =
    let own : 0 < count_of c (node c f nil nil) = ground arith in
    let here : c < length nodes = h.places c own in
    let n = node_at nodes c in
    let blank_n : IsBlank n = h.blanks c own in
    rw (load-lt nodes c blank here) (
      Returns-bind (SavedBits arr 0 (0 + top) n.bit_array) _ (save_from 0 top arr n.bit_array) _
        (save_from-SavedBits arr top 0 n.bit_array (omega (arith, h.width, h.room))
          (omega (arith, blank_n.width, h.room)) blank_n.range)
        λ bits w. rw (store-lt nodes c (saved n bits) here) (record {
          width = refl;
          along = λ j lt. refl;
          count = length-set nodes c (saved n bits);
          others = λ k z.
              (let other : (c == k) ≡ false = ground (arith, z) in
                rw other at (get_or-set nodes c k (saved n bits) blank here));
          codes = λ k pos.
              (let same : c ≡ k = ground (arith, pos) in
                let hit : (c == c) ≡ true = ground arith in
                let stored : node_at (set nodes c (saved n bits)) c ≡ saved n bits =
                  rw hit at (get_or-set nodes c c (saved n bits) blank here) in
                subst
                  (λ (y : ℕ).
                    HasCode (node c f nil nil) y p (node_at (set nodes c (saved n bits)) y))
                  same
                  (subst (HasCode (node c f nil nil) c p) (sym stored) (code n bits blank_n w)));
        }))
  where
    saved : FreqNode → List ℕ → FreqNode
    saved n bits = record n {
      length = top % 256;
      n_padding = (if 8 - top % 8 == 8 then 0 else 8 - top % 8);
      bit_array = bits;
    }

    code :
        (n : FreqNode) (bits : List ℕ)
        → IsBlank n
        → SavedBits arr 0 (0 + top) n.bit_array bits
        → HasCode (node c f nil nil) c p (saved n bits)
    code n bits z w =
        let short : top % 256 ≡ length p = omega (arith, e, h.room) in
        record {
          rest = [];
          leads = refl;
          bits = rw short (
              bits_from-path bits 0 p (λ j lt.
                let e' : 0 + j ≡ j = omega arith in
                rw e' (
                  w.reads j (omega arith) (omega (arith, e)) (z.zeros j)
                    (rw (h.along j lt) (h.binary j))
                  ∙ h.along j lt))
              ∙ sym (append-nil p));
          range = w.range;
          fits = omega (arith, short, w.width, z.width, h.room);
          short = omega (arith, short, h.room);
        }

-- Both children, one after the other.
module _ (c f : ℕ) (a b a' b' : ℕ) (x y x' y' : Tree) (p arr : List ℕ) (nodes : List FreqNode)
    (h : Encodable (node c f (node a b x y) (node a' b' x' y')) p arr nodes)
    (s : List ℕ × List FreqNode)
    (rs : Coding (node a' b' x' y') (p ++ 0 ∷ []) (set arr (length p) 0) nodes s) where
  abbrev left : Tree
  left = node a b x y

  abbrev right : Tree
  right = node a' b' x' y'

  early_same : (j : ℕ) → j < length p → get_or s.0 j 0 ≡ get_or arr j 0
  early_same j lt =
      let other : (length p == j) ≡ false = ground arith in
      rs.along j (omega (arith, length-snoc p 0))
      ∙ (rw other at (get_or-set arr (length p) j 0 0 (omega (arith, h.room, h.width))))

  Encodable-second : Encodable left (p ++ 1 ∷ []) (set s.0 (length p) 1) s.1
  Encodable-second =
      let first : Encodable left (p ++ 1 ∷ []) (set arr (length p) 1) nodes =
        Encodable-child (node c f left right) left p arr nodes 1 h (omega arith)
          (omega (arith, h.whole)) (ground arith) (λ k. omega arith) in
      let wide : length s.0 ≡ 256 = rs.width ∙ length-set arr (length p) 0 ∙ h.width in
      let alone : (k : ℕ) → 0 < count_of k left → node_at s.1 k ≡ node_at nodes k =
        λ k pos. rs.others k (omega (arith, h.distinct k)) in
      record {
        whole = first.whole;
        room = first.room;
        width = length-set s.0 (length p) 1 ∙ wide;
        binary = first.binary;
        along = λ j lt.
            (get_or-set s.0 (length p) j 1 0 (omega (arith, wide, h.room))
              ∙ same_bit j lt (Bool-cases (length p == j))
              ∙ sym (get_or-set arr (length p) j 1 0 (omega (arith, h.width, h.room)))
              ∙ first.along j lt);
        distinct = first.distinct;
        places = λ k pos. omega (arith, first.places k pos, rs.count);
        blanks = λ k pos. subst IsBlank (sym (alone k pos)) (first.blanks k pos);
      }
    where
      same_bit :
          (j : ℕ)
          → j < length (p ++ 1 ∷ [])
          → ((length p == j) ≡ true) ⊎ ((length p == j) ≡ false)
          → (if length p == j then 1 else get_or s.0 j 0)
            ≡ (if length p == j then 1 else get_or arr j 0)
      same_bit j lt (inl last) = rw last refl
      same_bit j lt (inr other) =
          rw other (early_same j (ground (arith, other, lt, length-snoc p 1)))

  Coding-both :
      (u : List ℕ × List FreqNode)
      → Coding left (p ++ 1 ∷ []) (set s.0 (length p) 1) s.1 u
      → Coding (node c f left right) p arr nodes u
  Coding-both u ls = record {
    width = ls.width ∙ length-set s.0 (length p) 1 ∙ rs.width ∙ length-set arr (length p) 0;
    along = λ j lt.
        (let other : (length p == j) ≡ false = ground arith in
          ls.along j (omega (arith, length-snoc p 1))
          ∙ (rw other at (
              get_or-set s.0 (length p) j 1 0
                (omega (arith, rs.width, length-set arr (length p) 0, h.width, h.room))))
          ∙ early_same j lt);
    count = ls.count ∙ rs.count;
    others = λ k z. ls.others k (omega (arith, z)) ∙ rs.others k (omega (arith, z));
    codes = λ k pos. elim (Bool-cases (ltb 0 (count_of k left))) [
      | inl l_has ↦
          HasCode-left c f left right k p (node_at u.1 k) (ls.codes k (ground (arith, l_has)))
      | inr l_no ↦
          let none_left : count_of k left ≡ 0 = ground (arith, l_no) in
          HasCode-right c f left right k p (node_at u.1 k) (
            subst (HasCode right k (p ++ 0 ∷ [])) (sym (ls.others k none_left))
              (rs.codes k (omega (arith, pos, none_left))))
    ];
  }

-- On a tree with distinct keys, over blank nodes, save_codes stores at the key of each leaf the
-- path to it, as bits and as a length, and leaves the other nodes as they are.
pub save_codes-Coding :
    (t : Tree) (p arr : List ℕ) (nodes : List FreqNode) (top : ℕ)
    → top ≡ length p
    → Encodable t p arr nodes
    → Returns (Coding t p arr nodes) (save_codes t arr top nodes)
unfolding save_codes
save_codes-Coding nil p arr nodes top e h = absurd (omega (arith, h.whole))
save_codes-Coding (node c f nil nil) p arr nodes top e h =
    Returns-bind (λ n. Coding (node c f nil nil) p arr nodes (arr, n)) _ (save_leaf c arr top nodes)
      _ (save_leaf-Coding c f p arr nodes top e h) (λ n k. k)
save_codes-Coding (node c f (node a b x y) nil) p arr nodes top e h =
    absurd (omega (arith, h.whole))
save_codes-Coding (node c f nil (node a b x y)) p arr nodes top e h =
    absurd (omega (arith, h.whole))
save_codes-Coding (node c f (node a b x y) (node a' b' x' y')) p arr nodes top e h =
    let left = node a b x y in
    let right = node a' b' x' y' in
    let t = node c f left right in
    let inside : top < length arr = omega (arith, e, h.width, h.room) in
    let whole : flaws left + flaws right ≡ 0 = h.whole in
    let hr : Encodable right (p ++ 0 ∷ []) (set arr (length p) 0) nodes =
      Encodable-child t right p arr nodes 0 h (omega arith) (omega arith) (ground arith)
        (λ k. omega arith) in
    rw (store-lt arr top 0 inside, e)
      (Returns-bind (Coding right (p ++ 0 ∷ []) (set arr (length p) 0) nodes) _
        (save_codes right (set arr (length p) 0) (length p + 1) nodes) _
        (save_codes-Coding (node a' b' x' y') (p ++ 0 ∷ []) (set arr (length p) 0) nodes
          (length p + 1) (sym (length-snoc p 0)) hr)
        λ s rs.
          let hl = Encodable-second c f a b a' b' x y x' y' p arr nodes h s rs in
          let inside' : length p < length s.0 =
            omega (arith, rs.width, length-set arr (length p) 0, h.width, h.room) in
          rw (store-lt s.0 (length p) 1 inside') (
            Returns-bind (Coding left (p ++ 1 ∷ []) (set s.0 (length p) 1) s.1) _
              (save_codes left (set s.0 (length p) 1) (length p + 1) s.1) _
              (save_codes-Coding (node a b x y) (p ++ 1 ∷ []) (set s.0 (length p) 1) s.1
                (length p + 1) (sym (length-snoc p 1)) hl)
              λ u ls. Coding-both c f a b a' b' x y x' y' p arr nodes h s rs u ls))
