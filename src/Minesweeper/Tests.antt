-- ===== src/Minesweeper/Tests.antt =====
-- Runs of the game.
use system_programming_and_d.Base.{
  ℕ, ◌<◌, ◌≡◌, refl, ◌⊎◌, List, [], ◌∷◌, arith, length, replicate, Outcome, ok, fault, ◌>>=◌, map,
}
use system_programming_and_d.Minesweeper.{
  Cell, times_sizes, count_cells, offset_from, calculate_offset, coords_of, check_mined, init_game,
  select_cell,
}
use system_programming_and_d.Minesweeper.Offsets.{
  calculate_offset-coords_of, calculate_offset-bound,
}
use system_programming_and_d.Minesweeper.Selects.{IsAmong, check_mined-IsAmong, select_cell-past}

abbrev grid : List ℕ
grid = 2 ∷ 3 ∷ 4 ∷ []

calculate_offset-coords_of_example : calculate_offset grid (coords_of grid 17) ≡ 17
calculate_offset-coords_of_example =
    calculate_offset-coords_of grid 17 (omega arith) (omega arith, (omega arith, (omega arith, tt)))

calculate_offset-bound_example : calculate_offset grid (1 ∷ 1 ∷ 1 ∷ []) < count_cells grid
calculate_offset-bound_example =
    calculate_offset-bound grid (1 ∷ 1 ∷ 1 ∷ []) (omega arith, (omega arith, (omega arith, tt)))

abbrev mines : List (List ℕ)
mines = (0 ∷ 0 ∷ []) ∷ (2 ∷ 1 ∷ []) ∷ []

check_mined-IsAmong_example :
    ((check_mined (2 ∷ 1 ∷ []) mines 2 ≡ 1) × IsAmong (2 ∷ 1 ∷ []) mines)
    ⊎ ((check_mined (2 ∷ 1 ∷ []) mines 2 ≡ 0) × (IsAmong (2 ∷ 1 ∷ []) mines → ⊥))
check_mined-IsAmong_example = check_mined-IsAmong (2 ∷ 1 ∷ []) mines 2 refl (refl, (refl, tt))

abbrev blank : Cell
blank = record { mined = 0; selected = 0; adjacent = []; coords = []; hint = 0 }

abbrev square : List ℕ
square = 3 ∷ 3 ∷ []

array_size : length (replicate 9 blank) ≡ count_cells square
unfolding count_cells times_sizes
array_size = refl

corner_offset : calculate_offset square (3 ∷ 0 ∷ []) ≡ count_cells square
unfolding calculate_offset offset_from count_cells times_sizes
corner_offset = refl

select_cell-past_example : select_cell 9 square (replicate 9 blank) (3 ∷ 0 ∷ []) ≡ fault
select_cell-past_example =
    select_cell-past 9 square (3 ∷ 0 ∷ []) (replicate 9 blank) array_size corner_offset

-- A mine in a corner of a square of three: selecting the opposite corner opens all other cells.
abbrev result : Outcome (ℕ × List ℕ)
result = init_game (replicate 9 blank) square ((0 ∷ 0 ∷ []) ∷ []) >>= λ g.
    select_cell 9 square g (2 ∷ 2 ∷ []) >>= λ r. ok (r.0, map (λ c. c.hint) r.1)

result_of_corner : result ≡ ok (2, 0 ∷ 1 ∷ 0 ∷ 1 ∷ 1 ∷ 0 ∷ 0 ∷ 0 ∷ 0 ∷ [])
unfolding init_game select_cell
result_of_corner = refl
