-- ===== src/Huffman/Messages.antt =====
-- Whole messages of encode_msg and create_dictionary, as the reader of the format sees them.
use system_programming_and_d.Base.{
  ℕ, zero, suc, ◌+◌, ◌^◌, ◌-◌, ◌*◌, ◌≤◌, ◌<◌, ◌≡◌, refl, ◌∙◌, List, [], ◌∷◌, ◌++◌, arith, length,
  length-append, get_or, All, Returns, Returns-bind, Returns-mono, load-lt,
}
use system_programming_and_d.Huffman.{
  FreqNode, Message, clear_bit, put_bits, encode_bytes, clear_from, finish_message, encode_msg,
  dictionary_entries, create_dictionary,
}
use system_programming_and_d.Huffman.Bits.{
  IsByte, bit_of, bit_of-append, Written, clear_bit-Written,
}
use system_programming_and_d.Huffman.Codes.{bits_from, blank}
use system_programming_and_d.Huffman.Encodes.{
  IsMessage, bits_of, Extends, Extends-trans, Extends-none, put_bits-Extends, bits_from-same,
  length-bits_from, Extends-number, as_int-lt,
}

-- A node with a code inside its bit array.
pub record IsCoded (n : FreqNode) : Type 0 where
  pub range : All IsByte n.bit_array
  pub fits : n.length ≤ length n.bit_array * 8

abbrev pub code_of : FreqNode → List ℕ
code_of n = bits_from n.bit_array 0 n.length

-- The codes of the bytes, one after the other.
unfoldable pub codes_of : List FreqNode → List ℕ → List ℕ
codes_of nodes [] = []
codes_of nodes (b ∷ buffer) = code_of (get_or nodes b blank) ++ codes_of nodes buffer

-- The entries of a dictionary: the length in eight bits, and the code.
unfoldable pub entries_of : List FreqNode → List ℕ
entries_of [] = []
entries_of (n ∷ nodes) = bits_from (n.length ∷ []) 0 8 ++ code_of n ++ entries_of nodes

-- What a reader of the format does: the last byte is the number of bits to leave out before it.
unfoldable pub payload : List ℕ → List ℕ
payload out = bits_from out 0 ((length out - 1) * 8 - get_or out (length out - 1) 0)

-- The bits past the end of the message are cleared.
record Cleared (n : ℕ) (bytes bytes' : List ℕ) : Type 0 where
  pub width : length bytes' ≡ length bytes
  pub range : All IsByte bytes'
  pub same : (j : ℕ) → j < n → bit_of bytes' j ≡ bit_of bytes j

clear_from-Cleared :
    (left i : ℕ) (bytes : List ℕ)
    → All IsByte bytes
    → i + left ≤ length bytes * 8
    → Returns (Cleared i bytes) (clear_from i left bytes)
unfolding clear_from
clear_from-Cleared zero i bytes range fits = record {
  width = refl;
  range = range;
  same = λ j lt. refl;
}
clear_from-Cleared (suc left) i bytes range fits =
    Returns-bind (Written bytes i 0) _ (clear_bit bytes i) _
      (clear_bit-Written bytes i (omega arith) range)
      λ u w.
        Returns-mono (Cleared (i + 1) u) _ (clear_from (i + 1) left u)
          (clear_from-Cleared left (i + 1) u w.range (omega (arith, w.width)))
          (λ v h. record {
            width = h.width ∙ w.width;
            range = h.range;
            same = λ j lt. h.same j (omega arith) ∙ ground (arith, w.reads j);
          })

get_or-last : (xs : List ℕ) (v : ℕ) → get_or (xs ++ v ∷ []) (length xs) 0 ≡ v
get_or-last [] v = refl
get_or-last (x ∷ xs) v = get_or-last xs v

-- Finishing a message that has at most a byte free pads it so that a reader gets its bits.
pub finish_message-payload :
    (m : Message)
    → IsMessage m
    → m.number_bit + 8 < 2 ^ 31
    → Returns
        (λ out. (payload out ≡ bits_of m) × (length out * 8 ≤ m.number_bit + 16))
        (finish_message m)
unfolding finish_message payload
finish_message-payload m h small =
    let padding = length m.bytes * 8 - m.number_bit in
    rw (as_int-lt (length m.bytes * 8) (omega (arith, h.tight))) (
      Returns-bind (Cleared m.number_bit m.bytes) _ (clear_from m.number_bit padding m.bytes) _
        (clear_from-Cleared padding m.number_bit m.bytes h.range (omega (arith, h.fits)))
        λ bytes c.
          let len : length (bytes ++ padding ∷ []) - 1 ≡ length bytes =
            omega (arith, length-append bytes (padding ∷ [])) in
          let count : length bytes * 8 - padding ≡ m.number_bit = omega (arith, c.width, h.fits) in
          (
            rw (len, get_or-last bytes padding, count)
                (bits_from-same (bytes ++ padding ∷ []) m.bytes 0 m.number_bit (λ j le lt.
                  bit_of-append bytes (padding ∷ []) j (omega (arith, c.width, h.fits))
                  ∙ c.same j (omega arith))),
            omega (arith, length-append bytes (padding ∷ []), c.width, h.tight),
          ))

length-entries_of :
    (nodes : List FreqNode)
    → All (λ n. IsCoded n × (n.length < 256)) nodes
    → length (entries_of nodes) ≤ length nodes * 263
unfolding entries_of bits_from
length-entries_of [] coded = omega arith
length-entries_of (n ∷ nodes) coded = omega (
  arith,
  coded.0.1,
  length-append (bits_from (n.length ∷ []) 0 8) (code_of n ++ entries_of nodes),
  length-append (code_of n) (entries_of nodes),
  length-bits_from (n.length ∷ []) 0 8,
  length-bits_from n.bit_array 0 n.length,
  length-entries_of nodes coded.1,
)

-- Codes of fewer than 256 bits each.
pub length-codes_of :
    (nodes : List FreqNode) (buffer : List ℕ)
    → All (λ b. (get_or nodes b blank).length < 256) buffer
    → length (codes_of nodes buffer) ≤ length buffer * 255
unfolding codes_of
length-codes_of nodes [] short = omega arith
length-codes_of nodes (b ∷ buffer) short =
    let n = get_or nodes b blank in
    omega (
      arith,
      short.0,
      length-append (code_of n) (codes_of nodes buffer),
      length-bits_from n.bit_array 0 n.length,
      length-codes_of nodes buffer short.1,
    )

module _ (garbage : ℕ) (small : garbage < 256) where
  encode_bytes-Extends :
      (nodes : List FreqNode) (i : ℕ) (buffer : List ℕ) (m : Message)
      → IsMessage m
      → All (λ b. (b < length nodes) × IsCoded (get_or nodes b blank)) buffer
      → i + length buffer < 2 ^ 31
      → m.number_bit + length (codes_of nodes buffer) + 8 < 2 ^ 31
      → Returns (Extends m (codes_of nodes buffer)) (encode_bytes garbage nodes i buffer m)
  unfolding encode_bytes codes_of
  encode_bytes-Extends nodes i [] m h coded steps room = Extends-none m h
  encode_bytes-Extends nodes i (b ∷ buffer) m h coded steps room =
      let n = get_or nodes b blank in
      let more = length-append (code_of n) (codes_of nodes buffer) in
      let own = length-bits_from n.bit_array 0 n.length in
      rw (load-lt nodes b blank coded.0.0, as_int-lt (i + 1) (omega arith))
        (Returns-bind (Extends m (code_of n)) _ (put_bits garbage 0 n.length n.bit_array m) _
          (put_bits-Extends garbage small n.length 0 n.bit_array m h coded.0.1.range
            (omega (arith, coded.0.1.fits)) (omega (arith, more, own)))
          λ m' k.
            Returns-mono (Extends m' (codes_of nodes buffer)) _
              (encode_bytes garbage nodes (i + 1) buffer m')
              (encode_bytes-Extends nodes (i + 1) buffer m' k.message coded.1 (omega arith)
                (omega (arith, more, own, Extends-number m m' _ k)))
              (λ m'' k'. Extends-trans m m' m'' _ _ k k'))

  dictionary_entries-Extends :
      (nodes : List FreqNode) (m : Message)
      → IsMessage m
      → All (λ n. IsCoded n × (n.length < 256)) nodes
      → m.number_bit + length nodes * 263 + 8 < 2 ^ 31
      → Returns (Extends m (entries_of nodes)) (dictionary_entries garbage nodes m)
  unfolding dictionary_entries entries_of
  dictionary_entries-Extends [] m h coded room = Extends-none m h
  dictionary_entries-Extends (n ∷ nodes) m h coded room =
      let c = coded.0.0 in
      let short = coded.0.1 in
      Returns-bind (Extends m (bits_from (n.length ∷ []) 0 8)) _
        (put_bits garbage 0 8 (n.length ∷ []) m) _
        (put_bits-Extends garbage small 8 0 (n.length ∷ []) m h (coded.0.1, tt) (omega arith)
          (omega arith))
        λ m1 k1.
          let eight = length-bits_from (n.length ∷ []) 0 8 in
          Returns-bind (Extends m1 (code_of n)) _ (put_bits garbage 0 n.length n.bit_array m1) _
            (put_bits-Extends garbage small n.length 0 n.bit_array m1 k1.message c.range
              (omega (arith, c.fits)) (omega (arith, eight, Extends-number m m1 _ k1)))
            λ m2 k2.
              Returns-mono (Extends m2 (entries_of nodes)) _ (dictionary_entries garbage nodes m2)
                (dictionary_entries-Extends nodes m2 k2.message coded.1 (
                  omega (
                    arith,
                    short,
                    eight,
                    length-bits_from n.bit_array 0 n.length,
                    Extends-number m m1 _ k1,
                    Extends-number m1 m2 _ k2,
                  )))
                (λ m3 k3. Extends-trans m m2 m3 _ _ (Extends-trans m m1 m2 _ _ k1 k2) k3)

  -- Encoding a buffer of fewer than 2^31 bytes, all with codes, and with fewer than 2^31 - 8 bits of
  -- codes, ends without a fault or an overflow of an `int`, whatever fresh memory holds: a reader of
  -- the format gets the codes of the bytes in order, and at most two bytes more are written.
  pub encode_msg-payload :
      (nodes : List FreqNode) (buffer : List ℕ)
      → All (λ b. (b < length nodes) × IsCoded (get_or nodes b blank)) buffer
      → length buffer < 2 ^ 31
      → length (codes_of nodes buffer) + 8 < 2 ^ 31
      → Returns
          (λ out.
            (payload out ≡ codes_of nodes buffer)
            × (length out * 8 ≤ length (codes_of nodes buffer) + 16))
          (encode_msg garbage nodes buffer)
  unfolding encode_msg bits_from
  encode_msg-payload nodes buffer coded steps room =
      let m : Message = record { bytes = garbage ∷ []; number_bit = 0 } in
      Returns-bind (Extends m (codes_of nodes buffer)) _ (encode_bytes garbage nodes 0 buffer m) _
        (encode_bytes-Extends nodes 0 buffer m
          (record { range = (small, tt); fits = omega arith; tight = omega arith }) coded
          (omega arith) (omega arith))
        λ m' k.
          let total = Extends-number m m' (codes_of nodes buffer) k in
          Returns-mono (λ out. (payload out ≡ bits_of m') × (length out * 8 ≤ m'.number_bit + 16)) _
            (finish_message m') (finish_message-payload m' k.message (omega (arith, total)))
            (λ out e. (e.0 ∙ k.bits, omega (arith, e.1, total)))

  -- The dictionary of at most 256 nodes that all have codes of fewer than 256 bits ends without a
  -- fault, and a reader of the format gets, for each node in order, its length in eight bits and its
  -- code.
  pub create_dictionary-payload :
      (nodes : List FreqNode)
      → All (λ n. IsCoded n × (n.length < 256)) nodes
      → length nodes ≤ 256
      → Returns
          (λ out. (payload out ≡ entries_of nodes) × (length out < 2 ^ 20))
          (create_dictionary garbage nodes)
  unfolding create_dictionary bits_from
  create_dictionary-payload nodes coded few =
      let m : Message = record { bytes = 0 ∷ []; number_bit = 0 } in
      Returns-bind (Extends m (entries_of nodes)) _ (dictionary_entries garbage nodes m) _
        (dictionary_entries-Extends nodes m
          (record { range = (omega arith, tt); fits = omega arith; tight = omega arith }) coded
          (omega arith))
        λ m' k.
          let total = Extends-number m m' (entries_of nodes) k in
          let bits = length-entries_of nodes coded in
          Returns-mono (λ out. (payload out ≡ bits_of m') × (length out * 8 ≤ m'.number_bit + 16)) _
            (finish_message m') (finish_message-payload m' k.message (omega (arith, total, bits)))
            (λ out e. (e.0 ∙ k.bits, omega (arith, e.1, total, bits)))
