-- ===== src/Memory/Shape.antt =====
-- The shape of the block list: it tiles the memory, no two neighbours are both free, addresses
-- are distinct. The same is said of a cursor, looking back and looking ahead.
use system_programming_and_d.Base.{
  ℕ, ◌+◌, ◌≤◌, ◌≡◌, refl, sym, Bool, true, ◌||◌, List, [], ◌∷◌, arith, ◌==◌, if◌then◌else◌, sum_of,
}
use system_programming_and_d.Memory.{Block, Cursor, unwind, memory_size}

-- From offset `o`, behind a block with that flag, to the end of the memory.
abbrev pub Ahead : ℕ → Bool → List Block → Type 0
Ahead o f [] = o ≡ memory_size
Ahead o f (b ∷ bs) =
    (b.offset ≡ o) × ((f || b.allocated) ≡ true) × Ahead (b.offset + b.size) b.allocated bs

-- Up to offset `o`, before a block with that flag.
abbrev pub Behind : ℕ → Bool → List Block → Type 0
Behind o f [] = o ≡ 0
Behind o f (p ∷ ps) =
    (p.offset + p.size ≡ o) × ((p.allocated || f) ≡ true) × Behind p.offset p.allocated ps

-- The whole memory, no two free blocks side by side.
abbrev pub IsTiled : List Block → Type 0
IsTiled = Ahead 0 true

abbrev pub CursorFits : Cursor → Type 0
CursorFits c =
    Behind c.node.offset c.node.allocated c.before
    × Ahead (c.node.offset + c.node.size) c.node.allocated c.after

abbrev pub named : ℕ → Block → ℕ
named a b = if b.addr == a then 1 else 0

abbrev pub held_at : ℕ → Block → ℕ
held_at a b = if b.allocated then named a b else 0

-- How many allocated blocks have the address.
abbrev pub held : ℕ → List Block → ℕ
held a = sum_of (held_at a)

abbrev pub IsDistinct : List Block → Type 0
IsDistinct bs = (a : ℕ) → sum_of (named a) bs ≤ 1

pub record IsArena (bs : List Block) : Type 0 where
  pub tiled : IsTiled bs
  pub distinct : IsDistinct bs

pub sum_of-unwind :
    (w : Block → ℕ) (ps bs : List Block) → sum_of w (unwind ps bs) ≡ sum_of w ps + sum_of w bs
sum_of-unwind w [] bs = omega arith
sum_of-unwind w (p ∷ ps) bs = omega (arith, sum_of-unwind w ps (p ∷ bs))

pub held-le-named : (a : ℕ) (bs : List Block) → held a bs ≤ sum_of (named a) bs
held-le-named a [] = omega arith
held-le-named a (b ∷ bs) = ground (arith, held-le-named a bs)

-- A cursor that fits stands in a list that is tiled.
pub rebuild-IsTiled :
    (before : List Block) (b : Block) (after : List Block)
    → Behind b.offset b.allocated before
    → Ahead (b.offset + b.size) b.allocated after
    → IsTiled (unwind before (b ∷ after))
rebuild-IsTiled [] b after h k = (h, refl, k)
rebuild-IsTiled (p ∷ ps) b after h k = rebuild-IsTiled ps p (b ∷ after) h.2 (sym h.0, h.1, k)
