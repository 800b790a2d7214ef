-- ===== src/Memory/Walk.antt =====
-- The two walks along the `next` links: `seek` (reading a stored pointer) and `mem_chk`.
use system_programming_and_d.Base.{
  ℕ, ◌+◌, ◌≤◌, ◌<◌, ◌≡◌, refl, sym, ◌⊎◌, inl, inr, true, false, not, ◌&&◌, List, [], ◌∷◌, Option,
  none, some, arith, leb, ◌==◌, sum_of, Bool-cases,
}
use system_programming_and_d.Memory.{Block, Cursor, unwind, rebuild, seek, mem_chk}
use system_programming_and_d.Memory.Shape.{Ahead, Behind, IsTiled, CursorFits, named}

-- `c` is a node of the list that the walk stands in.
pub record Found (before bs : List Block) (c : Cursor) : Type 0 where
  pub same : rebuild c ≡ unwind before bs
  pub fits : CursorFits c

-- Before the first node of `bs`.
abbrev pub Stands : List Block → List Block → Type 0
Stands before [] = Unit {0}
Stands before (b ∷ bs) =
    Behind b.offset b.allocated before × Ahead (b.offset + b.size) b.allocated bs

pub Stands-start : (bs : List Block) → IsTiled bs → Stands [] bs
Stands-start [] h = tt
Stands-start (b ∷ bs) h = (h.0, h.2)

pub Stands-next :
    (before : List Block) (b : Block) (bs : List Block)
    → Stands before (b ∷ bs)
    → Stands (b ∷ before) bs
Stands-next before b [] h = tt
Stands-next before b (d ∷ bs) h = ((sym h.1.0, h.1.1, h.0), h.1.2)

-- No block serves a request of the size.
abbrev pub NoneServes : ℕ → List Block → Type 0
NoneServes size [] = Unit {0}
NoneServes size (b ∷ bs) = ((b.allocated ≡ true) ⊎ (b.size < size)) × NoneServes size bs

abbrev pub Checked : List Block → List Block → ℕ → Option Cursor → Type 0
Checked before bs size none = NoneServes size bs
Checked before bs size (some c) =
    Found before bs c × (c.node.allocated ≡ false) × (size ≤ c.node.size)

pub mem_chk-Checked :
    (before bs : List Block) (size : ℕ)
    → Stands before bs
    → Checked before bs size (mem_chk before bs size)
unfolding mem_chk
mem_chk-Checked before [] size h = tt
mem_chk-Checked before (b ∷ bs) size h = elim (Bool-cases (not b.allocated && leb size b.size)) [
  | inl hit ↦ rw hit (record { same = refl; fits = h }, ground arith, ground arith)
  | inr miss ↦ rw miss (
      Checked-skip (mem_chk (b ∷ before) bs size) (ground arith)
        (mem_chk-Checked (b ∷ before) bs size (Stands-next before b bs h)))
]
  where
    Checked-skip :
        (r : Option Cursor)
        → (b.allocated ≡ true) ⊎ (b.size < size)
        → Checked (b ∷ before) bs size r
        → Checked before (b ∷ bs) size r
    Checked-skip none bad k = (bad, k)
    Checked-skip (some c) bad k = (record { same = k.0.same; fits = k.0.fits }, k.1, k.2)

abbrev pub Sought : List Block → List Block → ℕ → Option Cursor → Type 0
Sought before bs a none = sum_of (named a) bs ≡ 0
Sought before bs a (some c) = Found before bs c × (c.node.addr ≡ a)

pub seek-Sought :
    (before bs : List Block) (a : ℕ) → Stands before bs → Sought before bs a (seek before bs a)
unfolding seek
seek-Sought before [] a h = refl
seek-Sought before (b ∷ bs) a h = elim (Bool-cases (b.addr == a)) [
  | inl hit ↦ rw hit (record { same = refl; fits = h }, ground arith)
  | inr miss ↦ rw miss (
      Sought-skip (seek (b ∷ before) bs a) (ground arith)
        (seek-Sought (b ∷ before) bs a (Stands-next before b bs h)))
]
  where
    Sought-skip :
        (r : Option Cursor)
        → named a b ≡ 0
        → Sought (b ∷ before) bs a r
        → Sought before (b ∷ bs) a r
    Sought-skip none other k = omega arith
    Sought-skip (some c) other k = (record { same = k.0.same; fits = k.0.fits }, k.1)
