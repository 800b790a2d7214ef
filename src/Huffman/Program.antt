-- ===== src/Huffman/Program.antt =====
-- main: what each command gives for a file.
use mathlib.Core.List.{Permᴰ}
use system_programming_and_d.Base.{
  ℕ, zero, suc, ◌+◌, ◌*◌, ◌%◌, ◌^◌, ◌≤◌, ◌<◌, ◌≡◌, refl, ap, ◌∙◌, inl, inr, Bool-cases, List, [],
  ◌∷◌, map, arith, some, length, length-set, length-replicate, set, get_or, replicate, All, sum_of,
  ◌==◌, if◌then◌else◌, ok, Returns, Returns-bind, Returns-mono, load-lt, store-lt, get_or-set,
}
use system_programming_and_d.Huffman.{
  Tree, FreqNode, dict_size, calculate_frequency, generate_node_list, calculate_bitcode, encode_msg,
  create_dictionary, read_bits, get_bitcode, prepare, write_msg_to_file, Command, frequency,
  bitcode, compress, dictionary, run_command, run_huffman,
}
use system_programming_and_d.Huffman.Bits.{IsByte, get_bit-bit_of}
use system_programming_and_d.Huffman.Codes.{follow, bits_from, blank}
use system_programming_and_d.Huffman.Paths.{node_at, HasCode}
use system_programming_and_d.Huffman.Bitcodes.{Bitcodes, calculate_bitcode-Bitcodes}
use system_programming_and_d.Huffman.Messages.{
  IsCoded, code_of, codes_of, entries_of, payload, length-codes_of, encode_msg-payload,
  create_dictionary-payload,
}
use system_programming_and_d.Huffman.Encodes.{as_int-lt}
use system_programming_and_d.Huffman.Decodes.{decode, decode-codes_of}
use system_programming_and_d.Huffman.Dictionaries.{read_entries, read_entries-entries_of}

-- How often a byte occurs.
abbrev pub occurrences : ℕ → List ℕ → ℕ
occurrences k buffer = sum_of (λ b. if b == k then 1 else 0) buffer

-- The counts of a buffer, added to those that were there, on uint64_t.
pub record Counted (buffer freq freq' : List ℕ) : Type 0 where
  pub width : length freq' ≡ length freq
  pub range : All (λ f. f < 2 ^ 64) freq'
  pub counts :
      (k : ℕ)
      → k < length freq
      → get_or freq' k 0 ≡ (get_or freq k 0 + occurrences k buffer) % 2 ^ 64

All-set_count :
    (xs : List ℕ) (i v : ℕ)
    → All (λ f. f < 2 ^ 64) xs
    → v < 2 ^ 64
    → All (λ f. f < 2 ^ 64) (set xs i v)
All-set_count [] i v h lt = tt
All-set_count (x ∷ xs) zero v h lt = (lt, h.1)
All-set_count (x ∷ xs) (suc i) v h lt = (h.0, All-set_count xs i v h.1 lt)

All-get_count : (xs : List ℕ) (i : ℕ) → All (λ f. f < 2 ^ 64) xs → get_or xs i 0 < 2 ^ 64
All-get_count [] i h = omega arith
All-get_count (x ∷ xs) zero h = h.0
All-get_count (x ∷ xs) (suc i) h = All-get_count xs i h.1

-- The counts of calculate_frequency are the numbers of occurrences, modulo 2^64.
pub calculate_frequency-Counted :
    (buffer freq : List ℕ)
    → All (λ b. b < length freq) buffer
    → All (λ f. f < 2 ^ 64) freq
    → Returns (Counted buffer freq) (calculate_frequency buffer freq)
unfolding calculate_frequency
calculate_frequency-Counted [] freq inside range = record {
  width = refl;
  range = range;
  counts = λ k lt. omega (arith, All-get_count freq k range);
}
calculate_frequency-Counted (b ∷ buffer) freq inside range =
    let n = get_or freq b 0 in
    let freq' = set freq b ((n + 1) % 2 ^ 64) in
    rw (load-lt freq b 0 inside.0, store-lt freq b ((n + 1) % 2 ^ 64) inside.0)
      (Returns-mono (Counted buffer freq') _ (calculate_frequency buffer freq')
        (calculate_frequency-Counted buffer freq' (wide buffer inside.1)
          (All-set_count freq b ((n + 1) % 2 ^ 64) range (omega arith)))
        (λ v c. record {
          width = c.width ∙ length-set freq b ((n + 1) % 2 ^ 64);
          range = c.range;
          counts = λ k lt. elim (Bool-cases (b == k)) [
            | inl same ↦
                let e : b ≡ k = ground (arith, same) in
                let now = rw same at (get_or-set freq b k ((n + 1) % 2 ^ 64) 0 inside.0) in
                let old = ap (λ (j : ℕ). get_or freq j 0) e in
                rw same (
                  ground (
                    arith,
                    now,
                    old,
                    c.counts k (omega (arith, lt, length-set freq b ((n + 1) % 2 ^ 64))),
                  ))
            | inr other ↦
                let kept = rw other at (get_or-set freq b k ((n + 1) % 2 ^ 64) 0 inside.0) in
                rw other (
                  ground (
                    arith,
                    kept,
                    c.counts k (omega (arith, lt, length-set freq b ((n + 1) % 2 ^ 64))),
                  ))
          ];
        }))
  where
    wide :
        (rest : List ℕ)
        → All (λ x. x < length freq) rest
        → All (λ x. x < length (set freq b ((get_or freq b 0 + 1) % 2 ^ 64))) rest
    wide [] h = tt
    wide (x ∷ rest) h =
        (omega (arith, h.0, length-set freq b ((get_or freq b 0 + 1) % 2 ^ 64)), wide rest h.1)

get_or-zero : (n k : ℕ) → get_or (replicate n zero) k 0 ≡ 0
get_or-zero zero k = refl
get_or-zero (suc n) zero = refl
get_or-zero (suc n) (suc k) = get_or-zero n k

All-zero_count : (n : ℕ) → All (λ f. f < 2 ^ 64) (replicate n zero)
All-zero_count zero = tt
All-zero_count (suc n) = (omega arith, All-zero_count n)

-- What main has before it looks at the command.
pub record Prepared (buffer : List ℕ) (r : List ℕ × (Tree × List FreqNode)) : Type 0 where
  pub width : length r.0 ≡ 256
  pub counts : (k : ℕ) → k < 256 → get_or r.0 k 0 ≡ occurrences k buffer % 2 ^ 64
  pub codes : Bitcodes r.1

code-follow :
    (s : Tree × List FreqNode) (k : ℕ)
    → HasCode s.0 k [] (node_at s.1 k)
    → follow s.0 (code_of (node_at s.1 k)) ≡ some k
code-follow s k h = rw h.bits h.leads

module _ (r : List ℕ × (Tree × List FreqNode)) (codes : Bitcodes r.1) where
  buffer-IsCoded :
      (buffer : List ℕ)
      → All IsByte buffer
      → All (λ b. (b < length r.1.1) × IsCoded (get_or r.1.1 b blank)) buffer
  buffer-IsCoded [] bytes = tt
  buffer-IsCoded (b ∷ buffer) bytes =
      let h = codes.codes b bytes.0 in
      (
        (rw codes.count bytes.0, record { range = h.range; fits = h.fits }),
        buffer-IsCoded buffer bytes.1,
      )

  buffer-short :
      (buffer : List ℕ) → All IsByte buffer → All (λ b. (get_or r.1.1 b blank).length < 256) buffer
  buffer-short [] bytes = tt
  buffer-short (b ∷ buffer) bytes = ((codes.codes b bytes.0).short, buffer-short buffer bytes.1)

  buffer-paths :
      (buffer : List ℕ)
      → All IsByte buffer
      → All (λ b. follow r.1.0 (code_of (get_or r.1.1 b blank)) ≡ some b) buffer
  buffer-paths [] bytes = tt
  buffer-paths (b ∷ buffer) bytes =
      (code-follow r.1 b (codes.codes b bytes.0), buffer-paths buffer bytes.1)

  -- A predicate of every place of the table.
  every_node : (P : FreqNode → Type 0) → ((k : ℕ) → k < 256 → P (node_at r.1.1 k)) → All P r.1.1
  every_node P h = go r.1.1 (λ k lt. h k (omega (arith, codes.count)))
    where
      go : (ns : List FreqNode) → ((k : ℕ) → k < length ns → P (node_at ns k)) → All P ns
      go [] g = tt
      go (n ∷ ns) g = (g 0 (omega arith), go ns (λ k lt. g (suc k) (omega arith)))

read_bits-bits_from :
    (left i : ℕ) (bits : List ℕ)
    → All IsByte bits
    → i + left ≤ length bits * 8
    → read_bits i left bits ≡ ok (bits_from bits i left)
unfolding read_bits bits_from
read_bits-bits_from zero i bits range fits = refl
read_bits-bits_from (suc left) i bits range fits =
    rw
      (
        get_bit-bit_of bits i (omega arith) range,
        read_bits-bits_from left (i + 1) bits range (omega arith),
      )
      refl

get_or-map_code :
    (ns : List FreqNode) (k : ℕ)
    → k < length ns
    → get_or (map code_of ns) k [] ≡ code_of (node_at ns k)
get_or-map_code [] k lt = absurd (omega arith)
get_or-map_code (n ∷ ns) zero lt = refl
get_or-map_code (n ∷ ns) (suc k) lt = get_or-map_code ns k (omega arith)

-- The right output of a command, for a tree behind the codes: the number of occurrences, the path
-- to the symbol's leaf, a file that decodes to the buffer, or a file with the paths of all symbols.
abbrev pub Answers : List ℕ → Tree → Command → List ℕ → Type 0
Answers buffer root (frequency index) out = out ≡ occurrences index buffer % 2 ^ 64 ∷ []
Answers buffer root (bitcode index) out = follow root out ≡ some index
Answers buffer root compress out = decode root root (payload out) ≡ buffer
Answers buffer root dictionary out =
    (k : ℕ) → k < 256 → follow root (get_or (read_entries 256 (payload out)) k []) ≡ some k

-- The index of a command, where it has one, is a byte, as get_value makes sure.
abbrev pub IndexInRange : Command → Type 0
IndexInRange (frequency index) = index < 256
IndexInRange (bitcode index) = index < 256
IndexInRange compress = Unit {0}
IndexInRange dictionary = Unit {0}

module _ (garbage : ℕ) (small : garbage < 256) (buffer : List ℕ) (bytes : All IsByte buffer)
    (moderate : length buffer ≤ 2 ^ 23) (r : List ℕ × (Tree × List FreqNode))
    (p : Prepared buffer r) where
  run_command-Answers :
      (command : Command)
      → IndexInRange command
      → Returns (Answers buffer r.1.0 command) (run_command garbage buffer r.0 r.1.1 command)
  unfolding run_command get_bitcode write_msg_to_file
  run_command-Answers (frequency index) valid =
      rw (load-lt r.0 index 0 (omega (arith, p.width)), p.counts index valid) refl
  run_command-Answers (bitcode index) valid =
      let h = p.codes.codes index valid in
      let n = node_at r.1.1 index in
      rw
        (
          load-lt r.1.1 index blank (omega (arith, p.codes.count)),
          read_bits-bits_from n.length 0 n.bit_array h.range (omega (arith, h.fits)),
        )
        (code-follow r.1 index h)
  run_command-Answers compress valid =
      let size : length (codes_of r.1.1 buffer) + 16 < 2 ^ 31 =
        omega (arith, length-codes_of r.1.1 buffer (buffer-short r p.codes buffer bytes)) in
      Returns-bind
        (λ out.
          (payload out ≡ codes_of r.1.1 buffer)
          × (length out * 8 ≤ length (codes_of r.1.1 buffer) + 16))
        _ (encode_msg garbage r.1.1 buffer) _
        (encode_msg-payload garbage small r.1.1 buffer (buffer-IsCoded r p.codes buffer bytes)
          (omega arith) (omega (arith, size)))
        (λ out e. rw (as_int-lt (length out * 8) (omega (arith, e.1, size))) (
          ap (decode r.1.0 r.1.0) e.0
          ∙ decode-codes_of r.1.0 r.1.1 buffer p.codes.inner (buffer-paths r p.codes buffer bytes)))
  run_command-Answers dictionary valid =
      Returns-bind (λ out. (payload out ≡ entries_of r.1.1) × (length out < 2 ^ 20)) _
        (create_dictionary garbage r.1.1) _
        (create_dictionary-payload garbage small r.1.1
          (every_node r p.codes (λ n. IsCoded n × (n.length < 256))
            λ k lt.
              let h = p.codes.codes k lt in (record { range = h.range; fits = h.fits }, h.short))
          (omega (arith, p.codes.count)))
        (λ out e. rw (as_int-lt (length out * 8) (omega (arith, e.1))) λ k lt.
          let entries : read_entries 256 (entries_of r.1.1) ≡ map code_of r.1.1 =
            rw p.codes.count at (
              read_entries-entries_of r.1.1 (
                every_node r p.codes (λ n. n.length < 256)
                  (λ j lt'. (p.codes.codes j lt').short))) in
          rw (e.0, entries, get_or-map_code r.1.1 k (omega (arith, p.codes.count, lt)))
            (code-follow r.1 k (p.codes.codes k lt)))

module _ (sort : List FreqNode → List FreqNode)
    (sort-Perm : (ns : List FreqNode) → Permᴰ (sort ns) ns) (buffer : List ℕ)
    (bytes : All IsByte buffer) where
  -- For a file of bytes, the program has, before it looks at the command, the number of occurrences
  -- of each symbol modulo 2^64, and a code for each symbol.
  pub prepare-Prepared : Returns (Prepared buffer) (prepare sort buffer)
  unfolding prepare
  prepare-Prepared =
      let zeros = replicate dict_size zero in
      Returns-bind (Counted buffer zeros) _ (calculate_frequency buffer zeros) _
        (calculate_frequency-Counted buffer zeros (rw (length-replicate dict_size zero) bytes)
          (All-zero_count dict_size))
        λ freq c.
          let width : length freq ≡ 256 = c.width ∙ length-replicate dict_size zero in
          Returns-bind Bitcodes _ (calculate_bitcode sort (generate_node_list freq)) _
            (calculate_bitcode-Bitcodes sort sort-Perm freq width c.range)
            λ s b. record {
              width = width;
              counts = λ k lt.
                  omega
                    (arith, c.counts k (omega (arith, c.width, width)), get_or-zero dict_size k);
              codes = b;
            }

  -- Whatever fresh memory holds, and however the sort orders equal counts, the program ends without
  -- a fault or an overflow of an `int` on every file of at most 2^23 bytes and every valid command,
  -- and its output answers the command.
  pub run_huffman-Answers :
      (moderate : length buffer ≤ 2 ^ 23) (garbage : ℕ) (command : Command)
      → garbage < 256
      → IndexInRange command
      → Returns (λ r. Answers buffer r.0 command r.1) (run_huffman sort garbage buffer command)
  unfolding run_huffman
  run_huffman-Answers moderate garbage command small valid =
      Returns-bind (Prepared buffer) _ (prepare sort buffer) _ prepare-Prepared λ r p.
        Returns-bind (Answers buffer r.1.0 command) _ (run_command garbage buffer r.0 r.1.1 command)
          _ (run_command-Answers garbage small buffer bytes moderate r p command valid) λ out h. h
