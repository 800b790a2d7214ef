-- ===== src/Huffman/Encodes.antt =====
-- encode_msg and create_dictionary: the bits that are written, in order, and the padding.
use mathlib.Core.List.{append_assoc, append-nil}
use system_programming_and_d.Base.{
  ℕ, zero, suc, ◌+◌, ◌^◌, ◌*◌, ◌≤◌, ◌<◌, ◌≡◌, refl, sym, ap, ◌∙◌, inl, inr, false, Bool-cases, List,
  [], ◌∷◌, ◌++◌, arith, length, length-append, All, All-append, ◌==◌, if◌then◌else◌, ok, Returns,
  Returns-bind, Returns-mono,
}
use system_programming_and_d.Huffman.{Message, set_bit, clear_bit, as_int, put_bit, put_bits}
use system_programming_and_d.Huffman.Bits.{
  IsByte, bit_of, bit_of-lt, bit_of-append, Written, set_bit-Written, clear_bit-Written,
  get_bit-bit_of,
}
use system_programming_and_d.Huffman.Codes.{bits_from}

-- At most a byte of the message is still free, and it has a byte.
pub record IsMessage (m : Message) : Type 0 where
  pub range : All IsByte m.bytes
  pub fits : m.number_bit ≤ length m.bytes * 8
  pub tight : length m.bytes * 8 ≤ m.number_bit + 8

-- The bits that are written.
abbrev pub bits_of : Message → List ℕ
bits_of m = bits_from m.bytes 0 m.number_bit

pub bits_from-same :
    (u v : List ℕ) (i n : ℕ)
    → ((j : ℕ) → i ≤ j → j < i + n → bit_of u j ≡ bit_of v j)
    → bits_from u i n ≡ bits_from v i n
unfolding bits_from
bits_from-same u v i zero h = refl
bits_from-same u v i (suc n) h =
    rw
      (
        h i (omega arith) (omega arith),
        bits_from-same u v (i + 1) n (λ j le lt. h j (omega arith) (omega arith)),
      )
      refl

pub bits_from-split :
    (u : List ℕ) (i n k : ℕ) → bits_from u i (n + k) ≡ bits_from u i n ++ bits_from u (i + n) k
unfolding bits_from
bits_from-split u i zero k =
    (let e : i + 0 ≡ i = omega arith in let e' : 0 + k ≡ k = omega arith in rw (e, e') refl)
bits_from-split u i (suc n) k =
    let e : suc n + k ≡ suc (n + k) = omega arith in
    let e' : i + suc n ≡ i + 1 + n = omega arith in
    rw (e, e') (ap (λ (r : List ℕ). bit_of u i ∷ r) (bits_from-split u (i + 1) n k))

pub length-bits_from : (u : List ℕ) (i n : ℕ) → length (bits_from u i n) ≡ n
unfolding bits_from
length-bits_from u i zero = refl
length-bits_from u i (suc n) = ap suc (length-bits_from u (i + 1) n)

-- The message goes on with the bits `more`.
pub record Extends (m : Message) (more : List ℕ) (m' : Message) : Type 0 where
  pub message : IsMessage m'
  pub bits : bits_of m' ≡ bits_of m ++ more

-- It has so many bits more.
pub Extends-number :
    (m m' : Message) (more : List ℕ)
    → Extends m more m'
    → m'.number_bit ≡ m.number_bit + length more
Extends-number m m' more h = omega (
  arith,
  ap length h.bits,
  length-append (bits_of m) more,
  length-bits_from m.bytes 0 m.number_bit,
  length-bits_from m'.bytes 0 m'.number_bit,
)

pub as_int-lt : (n : ℕ) → n < 2 ^ 31 → as_int n ≡ ok n
unfolding as_int
as_int-lt n h = ground arith

pub Extends-trans :
    (m m' m'' : Message) (xs ys : List ℕ)
    → Extends m xs m'
    → Extends m' ys m''
    → Extends m (xs ++ ys) m''
Extends-trans m m' m'' xs ys h k = record {
  message = k.message;
  bits = k.bits ∙ ap (λ (l : List ℕ). l ++ ys) h.bits ∙ append_assoc (bits_of m) xs ys;
}

pub Extends-none : (m : Message) → IsMessage m → Extends m [] m
Extends-none m h = record { message = h; bits = sym (append-nil (bits_of m)) }

abbrev grown : ℕ → Message → List ℕ
grown garbage m = if m.number_bit == length m.bytes * 8 then m.bytes ++ garbage ∷ [] else m.bytes

record Grown (m : Message) (bytes : List ℕ) : Type 0 where
  pub range : All IsByte bytes
  pub inside : m.number_bit < length bytes * 8
  pub tight : length bytes * 8 ≤ m.number_bit + 8
  pub same : (j : ℕ) → j < m.number_bit → bit_of bytes j ≡ bit_of m.bytes j

module _ (garbage : ℕ) (small : garbage < 256) where
  grown-Grown : (m : Message) → IsMessage m → Grown m (grown garbage m)
  grown-Grown m h = elim (Bool-cases (m.number_bit == length m.bytes * 8)) [
    | inr room ↦ rw room (record {
      range = h.range;
      inside = ground (arith, room, h.fits);
      tight = h.tight;
      same = λ j lt. refl;
    })
    | inl full ↦
        let e : m.number_bit ≡ length m.bytes * 8 = ground (arith, full) in
        rw full (record {
          range = All-append IsByte m.bytes (garbage ∷ []) h.range (small, tt);
          inside = omega (arith, e, length-append m.bytes (garbage ∷ []));
          tight = omega (arith, e, length-append m.bytes (garbage ∷ []));
          same = λ j lt. bit_of-append m.bytes (garbage ∷ []) j (omega (arith, e));
        })
  ]

  Written-Extends :
      (m : Message) (bytes bytes' : List ℕ) (b : ℕ)
      → Grown m bytes
      → Written bytes m.number_bit b bytes'
      → Extends m (b ∷ []) (record { bytes = bytes'; number_bit = m.number_bit + 1 })
  unfolding bits_from
  Written-Extends m bytes bytes' b g w = record {
    message = record {
      range = w.range;
      fits = omega (arith, w.width, g.inside);
      tight = omega (arith, w.width, g.tight);
    };
    bits =
        bits_from-split bytes' 0 m.number_bit 1
        ∙ (let e : 0 + m.number_bit ≡ m.number_bit = omega arith in
            let now : bit_of bytes' m.number_bit ≡ b = ground (arith, w.reads m.number_bit) in
            rw
              (
                e,
                now,
                bits_from-same bytes' m.bytes 0 m.number_bit (λ j le lt. kept j (omega arith)),
              )
              refl);
  }
    where
      kept : (j : ℕ) → j < m.number_bit → bit_of bytes' j ≡ bit_of m.bytes j
      kept j lt =
          (let other : (m.number_bit == j) ≡ false = ground arith in rw other at (w.reads j))
          ∙ g.same j lt

  put_bit-Extends :
      (m : Message) (b : ℕ)
      → IsMessage m
      → b < 2
      → m.number_bit + 8 < 2 ^ 31
      → Returns (Extends m (b ∷ [])) (put_bit garbage m b)
  unfolding put_bit
  put_bit-Extends m b h hb room =
      let g = grown-Grown m h in
      rw
        (
          as_int-lt (length m.bytes * 8) (omega (arith, h.tight)),
          as_int-lt (m.number_bit + 1) (omega arith),
        )
        elim (Bool-cases (b == 1)) [
          | inl one ↦
              let e : b ≡ 1 = ground (arith, one) in
              rw (one, e)
                (Returns-bind (Written (grown garbage m) m.number_bit 1) _
                  (set_bit (grown garbage m) m.number_bit) _
                  (set_bit-Written (grown garbage m) m.number_bit g.inside g.range)
                  λ bytes w. Written-Extends m (grown garbage m) bytes 1 g w)
          | inr low ↦
              let e : b ≡ 0 = ground (arith, low, hb) in
              rw (low, e)
                (Returns-bind (Written (grown garbage m) m.number_bit 0) _
                  (clear_bit (grown garbage m) m.number_bit) _
                  (clear_bit-Written (grown garbage m) m.number_bit g.inside g.range)
                  λ bytes w. Written-Extends m (grown garbage m) bytes 0 g w)
        ]

  -- The bits of an array are appended in order.
  pub put_bits-Extends :
      (left j : ℕ) (bits : List ℕ) (m : Message)
      → IsMessage m
      → All IsByte bits
      → j + left ≤ length bits * 8
      → m.number_bit + left + 8 < 2 ^ 31
      → Returns (Extends m (bits_from bits j left)) (put_bits garbage j left bits m)
  unfolding put_bits bits_from
  put_bits-Extends zero j bits m h range fits room = Extends-none m h
  put_bits-Extends (suc left) j bits m h range fits room =
      rw (get_bit-bit_of bits j (omega arith) range) (
        Returns-bind (Extends m (bit_of bits j ∷ [])) _ (put_bit garbage m (bit_of bits j)) _
          (put_bit-Extends m (bit_of bits j) h (bit_of-lt bits j) (omega arith))
          λ m' k.
            Returns-mono (Extends m' (bits_from bits (j + 1) left)) _
              (put_bits garbage (j + 1) left bits m')
              (put_bits-Extends left (j + 1) bits m' k.message range (omega arith)
                (omega (arith, Extends-number m m' _ k)))
              (λ m'' k'. Extends-trans m m' m'' _ _ k k'))
