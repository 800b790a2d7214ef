-- ===== src/Minesweeper/Selects.antt =====
-- check_mined, and a selection past the array.
use system_programming_and_d.Base.{
  ℕ, zero, suc, ◌≤◌, ◌≡◌, ◌≢◌, refl, sym, ap, ◌∙◌, ◌⊎◌, inl, inr, false, Bool-cases, List, [], ◌∷◌,
  arith, ltb, ◌==◌, length, All, fault,
}
use system_programming_and_d.Minesweeper.{
  Cell, count_cells, calculate_offset, update, agreements, check_mined, select_cell,
}

-- The place is one of the list.
abbrev pub IsAmong : List ℕ → List (List ℕ) → Type 0
IsAmong coor [] = ⊥
IsAmong coor (m ∷ ms) = (m ≡ coor) ⊎ IsAmong coor ms

agreements_self : (xs : List ℕ) → agreements xs xs ≡ length xs
unfolding agreements
agreements_self [] = refl
agreements_self (x ∷ xs) = ground (arith, agreements_self xs)

agreements-bound : (xs ys : List ℕ) → agreements xs ys ≤ length xs
unfolding agreements
agreements-bound [] ys = omega arith
agreements-bound (x ∷ xs) [] = omega arith
agreements-bound (x ∷ xs) (y ∷ ys) = ground (arith, agreements-bound xs ys)

agreements-full : (xs ys : List ℕ) → length xs ≡ length ys → agreements xs ys ≡ length xs → xs ≡ ys
unfolding agreements
agreements-full [] [] e h = refl
agreements-full [] (y ∷ ys) e h = absurd (omega arith)
agreements-full (x ∷ xs) [] e h = absurd (omega arith)
agreements-full (x ∷ xs) (y ∷ ys) e h = elim (Bool-cases (x == y)) [
  | inl same ↦
      let head : x ≡ y = ground (arith, same) in
      let tail : xs ≡ ys = agreements-full xs ys (omega arith) (ground (arith, h, same)) in
      rw (head, tail)
  | inr other ↦ absurd (ground (arith, h, other, agreements-bound xs ys))
]

-- Where the place and all mines have as many coordinates as there are dimensions, check_mined
-- returns 1 for a place that is one of the mines, and 0 for any other.
pub check_mined-IsAmong :
    (coor : List ℕ) (mines : List (List ℕ)) (dim : ℕ)
    → length coor ≡ dim
    → All (λ m. length m ≡ dim) mines
    → ((check_mined coor mines dim ≡ 1) × IsAmong coor mines)
      ⊎ ((check_mined coor mines dim ≡ 0) × (IsAmong coor mines → ⊥))
unfolding check_mined
check_mined-IsAmong coor [] dim e h = inr (refl, λ a. a)
check_mined-IsAmong coor (m ∷ ms) dim e h = elim (Bool-cases (agreements m coor == dim)) [
  | inl all ↦
      let full : agreements m coor ≡ length m = ground (arith, all, h.0) in
      rw all (inl (refl, inl (agreements-full m coor (h.0 ∙ sym e) full)))
  | inr some_differ ↦ rw some_differ (later some_differ (check_mined-IsAmong coor ms dim e h.1))
]
  where
    differs : (agreements m coor == dim) ≡ false → m ≢ coor
    differs other same =
        let self : agreements m coor ≡ length m =
          ap (λ (t : List ℕ). agreements m t) (sym same) ∙ agreements_self m in
        ground (arith, other, self, h.0)

    later :
        (agreements m coor == dim) ≡ false
        → ((check_mined coor ms dim ≡ 1) × IsAmong coor ms)
          ⊎ ((check_mined coor ms dim ≡ 0) × (IsAmong coor ms → ⊥))
        → ((check_mined coor ms dim ≡ 1) × ((m ≡ coor) ⊎ IsAmong coor ms))
          ⊎ ((check_mined coor ms dim ≡ 0) × ((m ≡ coor) ⊎ IsAmong coor ms → ⊥))
    later other (inl r) = inl (r.0, inr r.1)
    later other (inr r) = inr (r.0, λ a. elim a [ inl s ↦ differs other s | inr t ↦ r.1 t ])

update-past :
    (game : List Cell) (i : ℕ) (f : Cell → Cell) → length game ≤ i → update game i f ≡ fault
unfolding update
update-past [] i f h = refl
update-past (c ∷ cs) zero f h = absurd (omega arith)
update-past (c ∷ cs) (suc i) f h = rw (update-past cs i f (omega arith))

-- The test for a place outside the grid lets the offset just past the array through, and the
-- selection writes there: a fault, where the array has the grid's cells.
pub select_cell-past :
    (depth : ℕ) (sizes coords : List ℕ) (game : List Cell)
    → length game ≡ count_cells sizes
    → calculate_offset sizes coords ≡ count_cells sizes
    → select_cell depth sizes game coords ≡ fault
unfolding select_cell
select_cell-past depth sizes coords game e at =
    let through : ltb (count_cells sizes) (calculate_offset sizes coords) ≡ false =
      ground (arith, at) in
    rw (
      through,
      update-past game (calculate_offset sizes coords) (λ c. record c { selected = 1 })
          (omega arith),
    )
