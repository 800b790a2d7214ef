-- ===== src/Huffman/Codes.antt =====
-- save_bit_array, and the path to a leaf.
use system_programming_and_d.Base.{
  ℕ, zero, suc, ◌+◌, ◌*◌, ◌≤◌, ◌<◌, ◌≡◌, refl, subst, ◌∙◌, inl, inr, Bool-cases, List, [], ◌∷◌,
  arith, Option, none, some, length, get_or, All, ◌==◌, if◌then◌else◌, Returns, Returns-bind,
  Returns-mono, load-lt,
}
use system_programming_and_d.Huffman.{Tree, nil, node, FreqNode, set_bit, save_from}
use system_programming_and_d.Huffman.Trees.{leaf_sum}
use system_programming_and_d.Huffman.Bits.{IsByte, bit_of, Written, set_bit-Written}

-- The key of the leaf at the end of a path: 1 goes to the left, 0 to the right.
unfoldable pub follow : Tree → List ℕ → Option ℕ
follow nil p = none
follow (node k f nil nil) [] = some k
follow (node k f (node a b c d) r) [] = none
follow (node k f nil (node a b c d)) [] = none
follow (node k f l r) (b ∷ p) = if b == 1 then follow l p else follow r p

-- The bits of an array from `i` on, `n` of them.
unfoldable pub bits_from : List ℕ → ℕ → ℕ → List ℕ
bits_from bytes i zero = []
bits_from bytes i (suc n) = bit_of bytes i ∷ bits_from bytes (i + 1) n

abbrev pub blank : FreqNode
blank = record { key = 0; value = 0; bit_array = []; length = 0; n_padding = 0 }

-- The leaves with the key `k`.
abbrev pub count_of : ℕ → Tree → ℕ
count_of k t = leaf_sum (λ a f. if a == k then 1 else 0) t

-- The bits of `arr` up to `n` are in the bit array.
pub record SavedBits (arr : List ℕ) (i n : ℕ) (bits bits' : List ℕ) : Type 0 where
  pub width : length bits' ≡ length bits
  pub range : All IsByte bits'
  pub early : (j : ℕ) → j < i → bit_of bits' j ≡ bit_of bits j
  pub reads :
      (j : ℕ)
      → i ≤ j
      → j < n
      → bit_of bits j ≡ 0
      → get_or arr j 0 < 2
      → bit_of bits' j ≡ get_or arr j 0

SavedBits-skip :
    (arr : List ℕ) (i n : ℕ) (bits u v : List ℕ)
    → length u ≡ length bits
    → ((j : ℕ) → j < i → bit_of u j ≡ bit_of bits j)
    → ((j : ℕ) → i + 1 ≤ j → bit_of u j ≡ bit_of bits j)
    → (bit_of bits i ≡ 0 → get_or arr i 0 < 2 → bit_of u i ≡ get_or arr i 0)
    → SavedBits arr (i + 1) n u v
    → SavedBits arr i n bits v
SavedBits-skip arr i n bits u v w before after own h = record {
  width = h.width ∙ w;
  range = h.range;
  early = λ j lt. h.early j (omega arith) ∙ before j lt;
  reads = λ j le lt zero_bit small. elim (Bool-cases (i == j)) [
    | inl same ↦
        let e : i ≡ j = ground (arith, same) in
        h.early j (omega arith)
        ∙ subst (λ (x : ℕ). bit_of bits x ≡ 0 → get_or arr x 0 < 2 → bit_of u x ≡ get_or arr x 0) e
            own zero_bit small
    | inr other ↦
        let le' : i + 1 ≤ j = ground (arith, other) in
        h.reads j le' lt (after j le' ∙ zero_bit) small
  ];
}

pub save_from-SavedBits :
    (arr : List ℕ) (left i : ℕ) (bits : List ℕ)
    → i + left ≤ length arr
    → i + left ≤ length bits * 8
    → All IsByte bits
    → Returns (SavedBits arr i (i + left) bits) (save_from i left arr bits)
unfolding save_from
save_from-SavedBits arr zero i bits ha hb range = record {
  width = refl;
  range = range;
  early = λ j lt. refl;
  reads = λ j le lt z small. absurd (omega arith);
}
save_from-SavedBits arr (suc left) i bits ha hb range =
    let e : i + suc left ≡ i + 1 + left = omega arith in
    rw (load-lt arr i 0 (omega arith)) (elim (Bool-cases (get_or arr i 0 == 1)) [
      | inr low ↦ rw low (
          Returns-mono (SavedBits arr (i + 1) (i + 1 + left) bits) _
            (save_from (i + 1) left arr bits)
            (save_from-SavedBits arr left (i + 1) bits (omega arith) (omega arith) range)
            (λ v h. rw e (
              SavedBits-skip arr i (i + 1 + left) bits bits v refl (λ j lt. refl) (λ j le. refl)
                (λ z small. ground (arith, low)) h)))
      | inl high ↦ rw high (
          Returns-bind (Written bits i 1) _ (set_bit bits i) _
            (set_bit-Written bits i (omega arith) range)
            λ u w.
              Returns-mono (SavedBits arr (i + 1) (i + 1 + left) u) _ (save_from (i + 1) left arr u)
                (save_from-SavedBits arr left (i + 1) u (omega arith) (omega (arith, w.width))
                  w.range)
                (λ v h. rw e (
                  SavedBits-skip arr i (i + 1 + left) bits u v w.width
                    (λ j lt. ground (arith, w.reads j)) (λ j le. ground (arith, w.reads j))
                    (λ z small. ground (arith, w.reads i, high)) h)))
    ])
