-- ===== src/Minesweeper.antt =====
-- ND-Minesweeper/minesweeper.{h,c}: the game on a grid of any number of dimensions. The game array
-- is the list of its cells, a cell pointer an index into it, and an access past its end a fault.
-- Coordinates and sizes are natural numbers that do not wrap. The list of a cell's adjacent cells
-- has `num_adjacent` as its length, and the loops over all cells run over the array.
pub mod Offsets
pub mod Selects
pub mod Tests
use system_programming_and_d.Base.{
  ℕ, zero, suc, ◌+◌, ◌-◌, ◌*◌, ◌/◌, ◌%◌, Bool, true, false, not, ◌&&◌, List, [], ◌∷◌, length, ltb,
  ◌==◌, if◌then◌else◌, Outcome, ok, exits, fault, ◌>>=◌,
}

-- struct cell
pub record Cell : Type 0 where
  pub mined : ℕ
  pub selected : ℕ
  pub adjacent : List ℕ
  pub coords : List ℕ
  pub hint : ℕ

-- A product that goes on from `total`.
unfoldable pub times_sizes : ℕ → List ℕ → ℕ
times_sizes total [] = total
times_sizes total (s ∷ ss) = times_sizes (total * s) ss

unfoldable pub count_cells : List ℕ → ℕ
unfolding times_sizes
count_cells sizes = times_sizes 1 sizes

-- Each coordinate, times the sizes of the dimensions behind it.
unfoldable pub offset_from : ℕ → List ℕ → List ℕ → ℕ
unfolding times_sizes
offset_from cursor [] coords = cursor
offset_from cursor (s ∷ ss) [] = cursor
offset_from cursor (s ∷ ss) (c ∷ cs) = offset_from (cursor + c * times_sizes 1 ss) ss cs

unfoldable pub calculate_offset : List ℕ → List ℕ → ℕ
unfolding offset_from
calculate_offset sizes coords = offset_from 0 sizes coords

unfoldable pub cell_at : List Cell → ℕ → Outcome Cell
cell_at [] i = fault
cell_at (c ∷ cs) zero = ok c
cell_at (c ∷ cs) (suc i) = cell_at cs i

unfoldable pub update : List Cell → ℕ → (Cell → Cell) → Outcome (List Cell)
update [] i f = fault
update (c ∷ cs) zero f = ok (f c ∷ cs)
update (c ∷ cs) (suc i) f = update cs i f >>= λ r. ok (c ∷ r)

unfoldable pub init_cells : List Cell → List ℕ → List ℕ → ℕ → Outcome (List Cell)
unfolding calculate_offset update
init_cells game sizes coords mined =
    update game (calculate_offset sizes coords)
      (λ c. record c { mined = mined; selected = 0; coords = coords })

-- In how many dimensions two places agree.
unfoldable pub agreements : List ℕ → List ℕ → ℕ
agreements [] ys = 0
agreements (x ∷ xs) [] = 0
agreements (x ∷ xs) (y ∷ ys) = (if x == y then 1 else 0) + agreements xs ys

unfoldable pub check_mined : List ℕ → List (List ℕ) → ℕ → ℕ
unfolding agreements
check_mined coor [] dim = 0
check_mined coor (m ∷ ms) dim =
    let rest = check_mined coor ms dim in if agreements m coor == dim then 1 else rest

abbrev pub distance : ℕ → ℕ → ℕ
distance a b = if ltb a b then b - a else a - b

-- The flags `close` and `itself`, and the test behind the loop.
unfoldable pub is_near : Bool → Bool → List ℕ → List ℕ → Bool
is_near close itself [] ys = close && not itself
is_near close itself (x ∷ xs) [] = close && not itself
is_near close itself (x ∷ xs) (y ∷ ys) =
    is_near (if ltb 1 (distance x y) then false else close)
      (if distance x y == 0 then itself else false) xs ys

-- The indices of the cells next to a place, from the index `i` on.
unfoldable pub collect_adjacent : ℕ → List Cell → List ℕ → List ℕ
unfolding is_near
collect_adjacent i [] coor = []
collect_adjacent i (c ∷ cs) coor =
    if is_near true true c.coords coor
    then i ∷ collect_adjacent (i + 1) cs coor
    else collect_adjacent (i + 1) cs coor

unfoldable pub search_adjacent : List Cell → ℕ → List ℕ → Outcome (List Cell)
unfolding collect_adjacent update
search_adjacent game index coor =
    let found = collect_adjacent 0 game coor in
    update game index (λ c. record c { adjacent = found })

-- So many rounds, from the cell `j` on.
unfoldable pub adjacent_from : ℕ → ℕ → List Cell → Outcome (List Cell)
unfolding cell_at search_adjacent
adjacent_from zero j game = ok game
adjacent_from (suc r) j game = do
  c ← cell_at game j
  game' ← search_adjacent game j c.coords
  adjacent_from r (j + 1) game'

unfoldable pub count_adjacent : List Cell → List ℕ → Outcome (List Cell)
unfolding adjacent_from count_cells
count_adjacent game sizes = adjacent_from (count_cells sizes) 0 game

-- Nothing calls it.
unfoldable pub check_all_adjacent_selected : List Cell → ℕ
check_all_adjacent_selected [] = 1
check_all_adjacent_selected (a ∷ cells) =
    if a.selected == 0 then 0 else check_all_adjacent_selected cells

unfoldable pub check_win : List Cell → ℕ
check_win [] = 1
check_win (c ∷ cs) = if not (c.selected == 1) && c.mined == 0 then 0 else check_win cs

unfoldable pub search_mined_adjacent : List Cell → List ℕ → Outcome ℕ
unfolding cell_at
search_mined_adjacent game [] = ok 0
search_mined_adjacent game (k ∷ ks) = do
  c ← cell_at game k
  hint ← search_mined_adjacent game ks
  ok ((if c.mined == 1 then 1 else 0) + hint)

-- The loop over the adjacent cells, with what selects from a cell's coordinates on.
unfoldable pub visit :
    (List Cell → List ℕ → Outcome (List Cell)) → List ℕ → List Cell → Outcome (List Cell)
unfolding cell_at update
visit select [] game = ok game
visit select (k ∷ ks) game = do
  a ← cell_at game k
  game' ←
      (if a.selected == 1
        then ok game
        else (update game k (λ c. record c { selected = 1 }) >>= λ g. select g a.coords))
  visit select ks game'

-- For at most so deep a recursion; `exits` is that it is not enough, the game itself never exits.
unfoldable pub select_recursion : ℕ → List ℕ → List Cell → List ℕ → Outcome (List Cell)
unfolding calculate_offset cell_at search_mined_adjacent update visit
select_recursion zero sizes game coords = exits 0
select_recursion (suc depth) sizes game coords = do
  let cursor = calculate_offset sizes coords
  c ← cell_at game cursor
  hint ← search_mined_adjacent game c.adjacent
  game' ← update game cursor (λ x. record x { hint = hint })
  (if ltb 0 hint
      then ok game'
      else visit (λ g cs. select_recursion depth sizes g cs) c.adjacent game')

unfoldable pub init_mined_cells : List Cell → List ℕ → List (List ℕ) → Outcome (List Cell)
unfolding init_cells
init_mined_cells game sizes [] = ok game
init_mined_cells game sizes (m ∷ ms) = do
  game' ← init_cells game sizes m 1
  init_mined_cells game' sizes ms

-- The loop from the last dimension on: the coordinates of the dimensions, and what is left of the
-- offset.
unfoldable pub split_offset : List ℕ → ℕ → List ℕ × ℕ
split_offset [] o = ([], o)
split_offset (s ∷ ss) o = let r = split_offset ss o in (r.1 % s ∷ r.0, r.1 / s)

unfoldable pub coords_of : List ℕ → ℕ → List ℕ
unfolding split_offset
coords_of [] o = []
coords_of (s ∷ ss) o = let r = split_offset ss o in r.1 ∷ r.0

-- So many rounds, from `cursor` on.
unfoldable pub unmined_from : ℕ → ℕ → List Cell → List ℕ → List (List ℕ) → Outcome (List Cell)
unfolding coords_of check_mined init_cells
unmined_from zero cursor game sizes mines = ok game
unmined_from (suc r) cursor game sizes mines = do
  let coords = coords_of sizes cursor
  game' ←
      (if check_mined coords mines (length sizes) == 0
        then init_cells game sizes coords 0
        else ok game)
  unmined_from r (cursor + 1) game' sizes mines

unfoldable pub init_unmined_cells : List Cell → List ℕ → List (List ℕ) → Outcome (List Cell)
unfolding unmined_from count_cells
init_unmined_cells game sizes mines = unmined_from (count_cells sizes) 0 game sizes mines

unfoldable pub init_game : List Cell → List ℕ → List (List ℕ) → Outcome (List Cell)
unfolding init_mined_cells init_unmined_cells count_adjacent
init_game game sizes mines = do
  game1 ← init_mined_cells game sizes mines
  game2 ← init_unmined_cells game1 sizes mines
  count_adjacent game2 sizes

-- What select_cell does with the cell that was selected.
unfoldable pub after_select : ℕ → List ℕ → List Cell → List ℕ → Cell → Outcome (ℕ × List Cell)
unfolding select_recursion check_win
after_select depth sizes game coords c = if c.mined == 1 then ok (1, game) else (do
  game' ← (if c.mined == 0 then select_recursion depth sizes game coords else ok game)
  ok (if check_win game' == 1 then 2 else 0, game'))

unfoldable pub select_cell : ℕ → List ℕ → List Cell → List ℕ → Outcome (ℕ × List Cell)
unfolding calculate_offset count_cells cell_at update after_select
select_cell depth sizes game coords =
    let cursor = calculate_offset sizes coords in
    if ltb (count_cells sizes) cursor then ok (0, game) else (do
      game' ← update game cursor (λ c. record c { selected = 1 })
      c ← cell_at game' cursor
      after_select depth sizes game' coords c)
