-- ===== src/Huffman/Bits.antt =====
-- Bit arrays: set_bit, clear_bit and get_bit.
use Prim.Native.Nat.{bit_and, bit_or}
use system_programming_and_d.Base.{
  ℕ, zero, suc, ◌-◌, ◌*◌, ◌/◌, ◌%◌, ◌^◌, ◌<◌, ◌≡◌, refl, ◌∙◌, Bool, true, false, ◌&&◌, inl, inr,
  Bool-cases, List, [], ◌∷◌, ◌++◌, arith, length, length-set, set, get_or, replicate, All, ltb,
  ◌==◌, if◌then◌else◌, ok, Returns, load-lt, store-lt, get_or-set,
}
use system_programming_and_d.Huffman.{mask_of, set_bit, clear_bit, get_bit}

-- A test at every number below a bound, by evaluation.
unfoldable pub every : ℕ → (ℕ → Bool) → Bool
every zero p = true
every (suc n) p = p n && every n p

pub every-lt : (n : ℕ) (p : ℕ → Bool) (x : ℕ) → every n p ≡ true → x < n → p x ≡ true
unfolding every
every-lt zero p x h lt = absurd (omega arith)
every-lt (suc n) p x h lt = ground (arith, every-lt n p x)

abbrev pub test_bit : ℕ → ℕ → ℕ
test_bit x pos = if bit_and x (2 ^ (8 - pos - 1)) == 0 then 0 else 1

-- Setting and clearing one bit of a byte, and reading any.
abbrev set_agrees : ℕ → ℕ → ℕ → Bool
set_agrees x p q = test_bit (bit_or x (2 ^ (8 - p - 1))) q == (if p == q then 1 else test_bit x q)

abbrev clear_agrees : ℕ → ℕ → ℕ → Bool
clear_agrees x p q =
    test_bit (bit_and x (255 - 2 ^ (8 - p - 1))) q == (if p == q then 0 else test_bit x q)

set_table : every 256 (λ x. every 8 (λ p. every 8 (λ q. set_agrees x p q))) ≡ true
unfolding every
set_table = refl

clear_table : every 256 (λ x. every 8 (λ p. every 8 (λ q. clear_agrees x p q))) ≡ true
unfolding every
clear_table = refl

range_table :
    every 256 (λ x.
      every 8
        (λ p. ltb (bit_or x (2 ^ (8 - p - 1))) 256 && ltb (bit_and x (255 - 2 ^ (8 - p - 1))) 256))
    ≡ true
unfolding every
range_table = refl

pub equal_numbers : (a b : ℕ) → (a == b) ≡ true → a ≡ b
equal_numbers a b e = ground arith

set_then_test :
    (x p q : ℕ)
    → x < 256
    → p < 8
    → q < 8
    → test_bit (bit_or x (2 ^ (8 - p - 1))) q ≡ (if p == q then 1 else test_bit x q)
set_then_test x p q hx hp hq =
    equal_numbers _ _ (every-lt 8 _ q (every-lt 8 _ p (every-lt 256 _ x set_table hx) hp) hq)

clear_then_test :
    (x p q : ℕ)
    → x < 256
    → p < 8
    → q < 8
    → test_bit (bit_and x (255 - 2 ^ (8 - p - 1))) q ≡ (if p == q then 0 else test_bit x q)
clear_then_test x p q hx hp hq =
    equal_numbers _ _ (every-lt 8 _ q (every-lt 8 _ p (every-lt 256 _ x clear_table hx) hp) hq)

byte_range :
    (x p : ℕ)
    → x < 256
    → p < 8
    → (bit_or x (2 ^ (8 - p - 1)) < 256) × (bit_and x (255 - 2 ^ (8 - p - 1)) < 256)
byte_range x p hx hp =
    let both = every-lt 8 _ p (every-lt 256 _ x range_table hx) hp in
    (ground (arith, both), ground (arith, both))

abbrev pub IsByte : ℕ → Type 0
IsByte x = x < 256

-- The bit at an index, as a number.
unfoldable pub bit_of : List ℕ → ℕ → ℕ
bit_of bytes i = test_bit (get_or bytes (i / 8) 0) (i % 8)

abbrev zeros : ℕ → List ℕ
zeros n = replicate n 0

get_or-zeros : (n i : ℕ) → get_or (zeros n) i 0 ≡ 0
get_or-zeros zero i = refl
get_or-zeros (suc n) zero = refl
get_or-zeros (suc n) (suc i) = get_or-zeros n i

zero_table : every 8 (λ q. test_bit 0 q == 0) ≡ true
unfolding every
zero_table = refl

pub bit_of-zeros : (n j : ℕ) → bit_of (zeros n) j ≡ 0
unfolding bit_of
bit_of-zeros n j =
    rw (get_or-zeros n (j / 8)) (equal_numbers _ _ (every-lt 8 _ (j % 8) zero_table (omega arith)))

pub All-zeros : (n : ℕ) → All IsByte (zeros n)
All-zeros zero = tt
All-zeros (suc n) = (omega arith, All-zeros n)

pub bit_of-lt : (bytes : List ℕ) (i : ℕ) → bit_of bytes i < 2
unfolding bit_of
bit_of-lt bytes i = ground arith

pub get_or-append : (xs ys : List ℕ) (i : ℕ) → i < length xs → get_or (xs ++ ys) i 0 ≡ get_or xs i 0
get_or-append [] ys i h = absurd (omega arith)
get_or-append (x ∷ xs) ys zero h = refl
get_or-append (x ∷ xs) ys (suc i) h = get_or-append xs ys i (omega arith)

pub bit_of-append : (xs ys : List ℕ) (i : ℕ) → i < length xs * 8 → bit_of (xs ++ ys) i ≡ bit_of xs i
unfolding bit_of
bit_of-append xs ys i h = rw (get_or-append xs ys (i / 8) (omega arith)) refl

All-get_or : (bytes : List ℕ) (i : ℕ) → All IsByte bytes → get_or bytes i 0 < 256
All-get_or [] i h = omega arith
All-get_or (x ∷ bytes) zero h = h.0
All-get_or (x ∷ bytes) (suc i) h = All-get_or bytes i h.1

All-set : (bytes : List ℕ) (i v : ℕ) → All IsByte bytes → v < 256 → All IsByte (set bytes i v)
All-set [] i v h lt = tt
All-set (x ∷ bytes) zero v h lt = (lt, h.1)
All-set (x ∷ bytes) (suc i) v h lt = (h.0, All-set bytes i v h.1 lt)

-- One bit is written, and no other.
pub record Written (bytes : List ℕ) (i b : ℕ) (bytes' : List ℕ) : Type 0 where
  pub width : length bytes' ≡ length bytes
  pub range : All IsByte bytes'
  pub reads : (j : ℕ) → bit_of bytes' j ≡ (if i == j then b else bit_of bytes j)

module _ (bytes : List ℕ) (i : ℕ) (inside : i < length bytes * 8) (range : All IsByte bytes) where
  pub get_bit-bit_of : get_bit bytes i ≡ ok (bit_of bytes i)
  unfolding get_bit bit_of
  get_bit-bit_of = rw (load-lt bytes (i / 8) 0 (omega arith))

  write-Written :
      (b v : ℕ)
      → v < 256
      → ((q : ℕ)
          → q < 8
          → test_bit v q ≡ (if i % 8 == q then b else test_bit (get_or bytes (i / 8) 0) q))
      → Written bytes i b (set bytes (i / 8) v)
  unfolding bit_of
  write-Written b v lt agrees = record {
    width = length-set bytes (i / 8) v;
    range = All-set bytes (i / 8) v range lt;
    reads = λ j.
        rw (get_or-set bytes (i / 8) (j / 8) v 0 (omega arith))
          (elim (Bool-cases (i / 8 == j / 8)) [
            | inl same ↦
                let place : i / 8 ≡ j / 8 = equal_numbers _ _ same in
                let split : (i % 8 == j % 8) ≡ (i == j) = ground (arith, place) in
                rw same (agrees (j % 8) (omega arith) ∙ rw (split, place) refl)
            | inr other ↦ let apart : (i == j) ≡ false = ground (arith, other) in rw (other, apart)
          ]);
  }

  pub set_bit-Written : Returns (Written bytes i 1) (set_bit bytes i)
  unfolding set_bit
  set_bit-Written =
      let x = get_or bytes (i / 8) 0 in
      let hx = All-get_or bytes (i / 8) range in
      let pos : i % 8 < 8 = omega arith in
      rw
        (
          load-lt bytes (i / 8) 0 (omega arith),
          store-lt bytes (i / 8) (bit_or x (mask_of i)) (omega arith),
        )
        (write-Written 1 (bit_or x (mask_of i)) (byte_range x (i % 8) hx pos).0
          (λ q hq. set_then_test x (i % 8) q hx pos hq))

  pub clear_bit-Written : Returns (Written bytes i 0) (clear_bit bytes i)
  unfolding clear_bit
  clear_bit-Written =
      let x = get_or bytes (i / 8) 0 in
      let hx = All-get_or bytes (i / 8) range in
      let pos : i % 8 < 8 = omega arith in
      rw
        (
          load-lt bytes (i / 8) 0 (omega arith),
          store-lt bytes (i / 8) (bit_and x (255 - mask_of i)) (omega arith),
        )
        (write-Written 0 (bit_and x (255 - mask_of i)) (byte_range x (i % 8) hx pos).1
          (λ q hq. clear_then_test x (i % 8) q hx pos hq))
