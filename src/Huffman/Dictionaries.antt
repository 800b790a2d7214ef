-- ===== src/Huffman/Dictionaries.antt =====
-- A reader of the dictionary that create_dictionary writes.
use mathlib.Core.List.{append_assoc}
use system_programming_and_d.Base.{
  ℕ, zero, suc, ◌+◌, ◌*◌, ◌<◌, ◌≡◌, refl, ap, true, List, [], ◌∷◌, ◌++◌, map, length, All, ◌==◌,
}
use system_programming_and_d.Huffman.{FreqNode}
use system_programming_and_d.Huffman.Bits.{every, every-lt, test_bit, bit_of, equal_numbers}
use system_programming_and_d.Huffman.Codes.{bits_from}
use system_programming_and_d.Huffman.Encodes.{length-bits_from}
use system_programming_and_d.Huffman.Messages.{code_of, entries_of}

abbrev take : ℕ → List ℕ → List ℕ
take zero xs = []
take (suc n) [] = []
take (suc n) (x ∷ xs) = x ∷ take n xs

abbrev drop : ℕ → List ℕ → List ℕ
drop zero xs = xs
drop (suc n) [] = []
drop (suc n) (x ∷ xs) = drop n xs

take-append : (xs ys : List ℕ) → take (length xs) (xs ++ ys) ≡ xs
take-append [] ys = refl
take-append (x ∷ xs) ys = ap (λ (l : List ℕ). x ∷ l) (take-append xs ys)

drop-append : (xs ys : List ℕ) → drop (length xs) (xs ++ ys) ≡ ys
drop-append [] ys = refl
drop-append (x ∷ xs) ys = drop-append xs ys

-- The number of a list of bits, the highest first.
abbrev number_from : ℕ → List ℕ → ℕ
number_from acc [] = acc
number_from acc (b ∷ bits) = number_from (2 * acc + b) bits

-- For each entry, eight bits with the length, and then the code.
unfoldable pub read_entries : ℕ → List ℕ → List (List ℕ)
read_entries zero bits = []
read_entries (suc n) bits =
    let size = number_from 0 (take 8 bits) in
    let rest = drop 8 bits in take size rest ∷ read_entries n (drop size rest)

number_table :
    every 256 (λ x.
      number_from 0 (
        test_bit x 0
        ∷ test_bit x 1
        ∷ test_bit x 2
        ∷ test_bit x 3
        ∷ test_bit x 4
        ∷ test_bit x 5
        ∷ test_bit x 6
        ∷ test_bit x 7
        ∷ [])
      == x)
    ≡ true
unfolding every
number_table = refl

number-byte : (x : ℕ) → x < 256 → number_from 0 (bits_from (x ∷ []) 0 8) ≡ x
unfolding bits_from bit_of
number-byte x lt = equal_numbers _ _ (every-lt 256 _ x number_table lt)

-- Reading the entries gives the codes.
pub read_entries-entries_of :
    (nodes : List FreqNode)
    → All (λ n. n.length < 256) nodes
    → read_entries (length nodes) (entries_of nodes) ≡ map code_of nodes
unfolding read_entries entries_of
read_entries-entries_of [] small = refl
read_entries-entries_of (n ∷ nodes) small =
    let size = bits_from (n.length ∷ []) 0 8 in
    let rest = code_of n ++ entries_of nodes in
    let assoc : size ++ code_of n ++ entries_of nodes ≡ size ++ rest =
      append_assoc size (code_of n) (entries_of nodes) in
    let first : take 8 (size ++ rest) ≡ size =
      rw (length-bits_from (n.length ∷ []) 0 8) at (take-append size rest) in
    let later : drop 8 (size ++ rest) ≡ rest =
      rw (length-bits_from (n.length ∷ []) 0 8) at (drop-append size rest) in
    let code : take n.length rest ≡ code_of n =
      rw (length-bits_from n.bit_array 0 n.length) at
        (take-append (code_of n) (entries_of nodes)) in
    let more : drop n.length rest ≡ entries_of nodes =
      rw (length-bits_from n.bit_array 0 n.length) at
        (drop-append (code_of n) (entries_of nodes)) in
    rw
      (
        assoc,
        first,
        later,
        number-byte n.length small.0,
        code,
        more,
        read_entries-entries_of nodes small.1,
      )
      refl
