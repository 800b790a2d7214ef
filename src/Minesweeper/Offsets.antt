-- ===== src/Minesweeper/Offsets.antt =====
-- Places on the grid and offsets into the array.
use native.Mathlib.Nat.{div-add-mod}
use system_programming_and_d.Base.{
  ℕ, ◌+◌, ◌-◌, ◌*◌, ◌/◌, ◌%◌, ◌<◌, ◌≡◌, ap, List, [], ◌∷◌, arith, length, All,
}
use system_programming_and_d.Minesweeper.{
  times_sizes, count_cells, offset_from, calculate_offset, split_offset, coords_of,
}

-- The loops from their start.
times_sizes-total : (total : ℕ) (ss : List ℕ) → times_sizes total ss ≡ total * times_sizes 1 ss
unfolding times_sizes
times_sizes-total total [] = omega arith
times_sizes-total total (s ∷ ss) = omega (
  arith,
  times_sizes-total (total * s) ss,
  ap (λ (t : ℕ). total * t) (times_sizes-total (1 * s) ss),
)

offset_from-cursor :
    (cursor : ℕ) (ss cs : List ℕ) → offset_from cursor ss cs ≡ cursor + offset_from 0 ss cs
unfolding offset_from
offset_from-cursor cursor [] cs = omega arith
offset_from-cursor cursor (s ∷ ss) [] = omega arith
offset_from-cursor cursor (s ∷ ss) (c ∷ cs) = omega (
  arith,
  offset_from-cursor (cursor + c * times_sizes 1 ss) ss cs,
  offset_from-cursor (0 + c * times_sizes 1 ss) ss cs,
)

abbrev pub IsPositive : ℕ → Type 0
IsPositive s = 0 < s

split_offset-lem :
    (ss : List ℕ) (o : ℕ)
    → All IsPositive ss
    → (split_offset ss o).1 * times_sizes 1 ss + offset_from 0 ss (split_offset ss o).0 ≡ o
unfolding split_offset offset_from times_sizes
split_offset-lem [] o h = omega arith
split_offset-lem (s ∷ ss) o h =
    whole (split_offset ss o).1 (split_offset ss o).0 (split_offset-lem ss o h.1)
  where
    whole :
        (q : ℕ) (cs : List ℕ)
        → q * times_sizes 1 ss + offset_from 0 ss cs ≡ o
        → q / s * times_sizes (1 * s) ss + offset_from (0 + q % s * times_sizes 1 ss) ss cs ≡ o
    whole q cs e = omega (
      arith,
      e,
      ap (λ (t : ℕ). q / s * t) (times_sizes-total (1 * s) ss),
      offset_from-cursor (0 + q % s * times_sizes 1 ss) ss cs,
      ap (λ (t : ℕ). t * times_sizes 1 ss) (div-add-mod q s),
    )

-- A place is inside the grid.
abbrev pub IsInside : List ℕ → List ℕ → Type 0
IsInside [] [] = Unit {0}
IsInside [] (c ∷ cs) = ⊥
IsInside (s ∷ ss) [] = ⊥
IsInside (s ∷ ss) (c ∷ cs) = (c < s) × IsInside ss cs

-- For at least one dimension and sizes that are not 0, the place that is computed for an offset has that offset.
pub calculate_offset-coords_of :
    (sizes : List ℕ) (o : ℕ)
    → 0 < length sizes
    → All IsPositive sizes
    → calculate_offset sizes (coords_of sizes o) ≡ o
unfolding calculate_offset coords_of offset_from
calculate_offset-coords_of [] o some_size h = absurd (omega arith)
calculate_offset-coords_of (s ∷ ss) o some_size h =
    let q = (split_offset ss o).1 in
    omega (
      arith,
      split_offset-lem ss o h.1,
      offset_from-cursor (0 + q * times_sizes 1 ss) ss (split_offset ss o).0,
    )

-- A place inside the grid has an offset inside the array.
pub calculate_offset-bound :
    (sizes coords : List ℕ)
    → IsInside sizes coords
    → calculate_offset sizes coords < count_cells sizes
unfolding calculate_offset count_cells offset_from times_sizes
calculate_offset-bound [] [] h = omega arith
calculate_offset-bound [] (c ∷ cs) h = absurd h
calculate_offset-bound (s ∷ ss) [] h = absurd h
calculate_offset-bound (s ∷ ss) (c ∷ cs) h =
    let p = times_sizes 1 ss in
    omega (
      arith,
      calculate_offset-bound ss cs h.1,
      times_sizes-total (1 * s) ss,
      offset_from-cursor (0 + c * p) ss cs,
      ap (λ (t : ℕ). t * p) (rest h.0),
    )
  where
    rest : c < s → c + 1 + (s - (c + 1)) ≡ s
    rest lt = omega arith
