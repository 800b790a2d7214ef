-- ===== src/Huffman/Paths.antt =====
-- save_codes: the code of a leaf, and what a tree needs to be given codes.
use mathlib.Core.List.{append_assoc}
use system_programming_and_d.Base.{
  ℕ, zero, suc, ◌+◌, ◌*◌, ◌≤◌, ◌<◌, ◌≡◌, refl, sym, subst, ◌∙◌, inl, inr, Bool-cases, List, [], ◌∷◌,
  ◌++◌, arith, some, length, length-set, length-append, set, get_or, All, ◌==◌, get_or-set,
}
use system_programming_and_d.Huffman.{Tree, node, FreqNode}
use system_programming_and_d.Huffman.Trees.{flaws, depth}
use system_programming_and_d.Huffman.Bits.{IsByte, bit_of}
use system_programming_and_d.Huffman.Codes.{follow, bits_from, blank, count_of}

abbrev pub node_at : List FreqNode → ℕ → FreqNode
node_at nodes k = get_or nodes k blank

-- A node whose bit array is as calloc leaves it.
pub record IsBlank (n : FreqNode) : Type 0 where
  pub width : length n.bit_array ≡ 256
  pub range : All IsByte n.bit_array
  pub zeros : (j : ℕ) → bit_of n.bit_array j ≡ 0

-- The node holds the path `p` and then the path in `t` to the leaf with the key `k`.
pub record HasCode (t : Tree) (k : ℕ) (p : List ℕ) (n : FreqNode) : Type 0 where
  pub rest : List ℕ
  pub leads : follow t rest ≡ some k
  pub bits : bits_from n.bit_array 0 n.length ≡ p ++ rest
  pub range : All IsByte n.bit_array
  pub fits : n.length ≤ length n.bit_array * 8
  pub short : n.length < 256

-- What save_codes does for the tree `t` after the path `p`.
pub record Coding (t : Tree) (p arr : List ℕ) (nodes : List FreqNode) (s : List ℕ × List FreqNode)
    : Type 0 where
  pub width : length s.0 ≡ length arr
  pub along : (j : ℕ) → j < length p → get_or s.0 j 0 ≡ get_or arr j 0
  pub count : length s.1 ≡ length nodes
  pub others : (k : ℕ) → count_of k t ≡ 0 → node_at s.1 k ≡ node_at nodes k
  pub codes : (k : ℕ) → 0 < count_of k t → HasCode t k p (node_at s.1 k)

-- What save_codes relies on: room for the path, distinct keys, and blank nodes for them.
pub record Encodable (t : Tree) (p arr : List ℕ) (nodes : List FreqNode) : Type 0 where
  pub whole : flaws t ≡ 0
  pub room : depth t + length p < 256
  pub width : length arr ≡ 256
  pub binary : (j : ℕ) → get_or p j 0 < 2
  pub along : (j : ℕ) → j < length p → get_or arr j 0 ≡ get_or p j 0
  pub distinct : (k : ℕ) → count_of k t < 2
  pub places : (k : ℕ) → 0 < count_of k t → k < length nodes
  pub blanks : (k : ℕ) → 0 < count_of k t → IsBlank (node_at nodes k)

pub bits_from-path :
    (bytes : List ℕ) (i : ℕ) (p : List ℕ)
    → ((j : ℕ) → j < length p → bit_of bytes (i + j) ≡ get_or p j 0)
    → bits_from bytes i (length p) ≡ p
unfolding bits_from
bits_from-path bytes i [] h = refl
bits_from-path bytes i (b ∷ p) h =
    let e : i + 0 ≡ i = omega arith in
    let first : bit_of bytes i ≡ b = (rw e at (h 0 (omega arith))) in
    rw (
      first,
      bits_from-path bytes (i + 1) p
          (λ j lt. let e' : i + 1 + j ≡ i + suc j = omega arith in rw e' (h (suc j) (omega arith))),
    )

get_or-append_early :
    (p : List ℕ) (b j : ℕ) → j < length p → get_or (p ++ b ∷ []) j 0 ≡ get_or p j 0
get_or-append_early [] b j h = absurd (omega arith)
get_or-append_early (x ∷ p) b zero h = refl
get_or-append_early (x ∷ p) b (suc j) h = get_or-append_early p b j (omega arith)

get_or-append_last : (p : List ℕ) (b : ℕ) → get_or (p ++ b ∷ []) (length p) 0 ≡ b
get_or-append_last [] b = refl
get_or-append_last (x ∷ p) b = get_or-append_last p b

get_or-append_small :
    (p : List ℕ) (b j : ℕ) → b < 2 → get_or p j 0 < 2 → get_or (p ++ b ∷ []) j 0 < 2
get_or-append_small [] b zero hb h = hb
get_or-append_small [] b (suc j) hb h = omega arith
get_or-append_small (x ∷ p) b zero hb h = h
get_or-append_small (x ∷ p) b (suc j) hb h = get_or-append_small p b j hb h

pub length-snoc : (p : List ℕ) (b : ℕ) → length (p ++ b ∷ []) ≡ length p + 1
length-snoc p b = length-append p (b ∷ [])

module _ (x f : ℕ) (l r : Tree) (k : ℕ) (p : List ℕ) (n : FreqNode) where
  pub HasCode-right : HasCode r k (p ++ 0 ∷ []) n → HasCode (node x f l r) k p n
  unfolding follow
  HasCode-right h = record {
    rest = 0 ∷ h.rest;
    leads = h.leads;
    bits = h.bits ∙ append_assoc p (0 ∷ []) h.rest;
    range = h.range;
    fits = h.fits;
    short = h.short;
  }

  pub HasCode-left : HasCode l k (p ++ 1 ∷ []) n → HasCode (node x f l r) k p n
  unfolding follow
  HasCode-left h = record {
    rest = 1 ∷ h.rest;
    leads = h.leads;
    bits = h.bits ∙ append_assoc p (1 ∷ []) h.rest;
    range = h.range;
    fits = h.fits;
    short = h.short;
  }

-- The step to a child: its bit goes to the place `length p`.
pub Encodable-child :
    (t child : Tree) (p arr : List ℕ) (nodes : List FreqNode) (b : ℕ)
    → Encodable t p arr nodes
    → b < 2
    → flaws child ≡ 0
    → depth child < depth t
    → ((k : ℕ) → count_of k child ≤ count_of k t)
    → Encodable child (p ++ b ∷ []) (set arr (length p) b) nodes
Encodable-child t child p arr nodes b h hb whole lower fewer = record {
  whole = whole;
  room = omega (arith, h.room, length-snoc p b);
  width = length-set arr (length p) b ∙ h.width;
  binary = λ j. get_or-append_small p b j hb (h.binary j);
  along = λ j lt. elim (Bool-cases (length p == j)) [
    | inl last ↦
        let e : length p ≡ j = ground (arith, last) in
        (rw last at (get_or-set arr (length p) j b 0 (omega (arith, h.room, h.width))))
        ∙ sym (subst (λ (y : ℕ). get_or (p ++ b ∷ []) y 0 ≡ b) e (get_or-append_last p b))
    | inr other ↦
        let lt' : j < length p = ground (arith, other, lt, length-snoc p b) in
        (rw other at (get_or-set arr (length p) j b 0 (omega (arith, h.room, h.width))))
        ∙ h.along j lt'
        ∙ sym (get_or-append_early p b j lt')
  ];
  distinct = λ k. omega (arith, h.distinct k, fewer k);
  places = λ k pos. h.places k (omega (arith, pos, fewer k));
  blanks = λ k pos. h.blanks k (omega (arith, pos, fewer k));
}
