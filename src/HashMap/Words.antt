-- ===== src/HashMap/Words.antt =====
-- The hash as an `int`, in expandIfNecessary.

use native.Mathlib.Nat.{add-mul-mod_self_left}
use system_programming_and_d.Base.{
  ℕ, ◌+◌, ◌-◌, ◌*◌, ◌/◌, ◌%◌, ◌^◌, ◌≡◌, sym, ap, ◌∙◌, inl, inr, arith, Bool-cases, ltb,
}
use system_programming_and_d.HashMap.{int_of, calculate_index}

-- For a number of buckets that divides 2^32, the index of a hash that went through an `int` is that
-- of the whole hash.
pub index_of_int : (n m h : ℕ) → n * m ≡ 2 ^ 32 → calculate_index n (int_of h) ≡ calculate_index n h
unfolding calculate_index int_of
index_of_int n m h e = elim (Bool-cases (ltb (h % 2 ^ 32) (2 ^ 31))) [
  | inl small ↦ rw small low_bits
  | inr negative ↦ rw negative (high_bits ∙ low_bits)
]
  where
    low_bits : h % 2 ^ 32 % n ≡ h % n
    low_bits =
        let whole : h % 2 ^ 32 + n * (m * (h / 2 ^ 32)) ≡ h =
          omega (arith, ap (λ (t : ℕ). t * (h / 2 ^ 32)) e) in
        sym (add-mul-mod_self_left (h % 2 ^ 32) n (m * (h / 2 ^ 32))) ∙ ap (λ (t : ℕ). t % n) whole

    high_bits : (2 ^ 64 - 2 ^ 32 + h % 2 ^ 32) % n ≡ h % 2 ^ 32 % n
    high_bits =
        let whole : h % 2 ^ 32 + n * (m * (2 ^ 32 - 1)) ≡ 2 ^ 64 - 2 ^ 32 + h % 2 ^ 32 =
          omega (arith, ap (λ (t : ℕ). t * (2 ^ 32 - 1)) e) in
        ap (λ (t : ℕ). t % n) (sym whole) ∙ add-mul-mod_self_left (h % 2 ^ 32) n (m * (2 ^ 32 - 1))
