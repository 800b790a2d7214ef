-- ===== src/Memory.antt =====
-- Mutli-Level Job Scheduling/Stage3/mab.{h,c}: first-fit allocation over a doubly linked list.
-- The list is the sequence of its nodes in link order, each with its address. A `MabPtr` that a
-- function works on is a `Cursor`: the node, the chain of its `prev` links and that of its `next`
-- links. A `MabPtr` that is stored elsewhere is an address, and `seek` follows it. What `malloc`
-- returns is an argument, and so is whether a node that `free` was given can still be used, as
-- memFree does; block sizes are not negative.
pub mod Shape
pub mod Walk
pub mod Alloc
pub mod Free
pub mod Exits
pub mod Tests
use system_programming_and_d.Base.{
  ℕ, zero, suc, ◌+◌, ◌-◌, Bool, true, false, not, ◌&&◌, List, [], ◌∷◌, Option, none, some, length,
  ltb, leb, ◌==◌, if◌then◌else◌, Outcome, ok, exits, fault, ◌>>=◌,
}

abbrev pub memory_size : ℕ
memory_size = 1024

-- struct mab, with its address; the links are the neighbours.
pub record Block : Type 0 where
  pub addr : ℕ
  pub offset : ℕ
  pub size : ℕ
  pub allocated : Bool

pub record Cursor : Type 0 where
  pub before : List Block
  pub node : Block
  pub after : List Block

-- The list that starts at the far end of the `prev` links.
abbrev pub unwind : List Block → List Block → List Block
unwind [] bs = bs
unwind (p ∷ ps) bs = unwind ps (p ∷ bs)

abbrev pub rebuild : Cursor → List Block
rebuild c = unwind c.before (c.node ∷ c.after)

-- The node at an address: what a stored pointer is read through.
unfoldable pub seek : List Block → List Block → ℕ → Option Cursor
seek before [] a = none
seek before (b ∷ bs) a =
    if b.addr == a
    then some (record { before = before; node = b; after = bs })
    else seek (b ∷ before) bs a

unfoldable pub mem_chk : List Block → List Block → ℕ → Option Cursor
mem_chk before [] size = none
mem_chk before (b ∷ bs) size =
    if not b.allocated && leb size b.size
    then some (record { before = before; node = b; after = bs })
    else mem_chk (b ∷ before) bs size

unfoldable pub mem_merge : Cursor → Cursor
mem_merge c = elim c.after [
  | [] ↦ c
  | n ∷ rest ↦ record c { node = record (c.node) { size = c.node.size + n.size }; after = rest }
]

abbrev pub split_off : ℕ → Block → ℕ → Block
split_off n b size = record {
  addr = n;
  offset = b.offset + size;
  size = b.size - size;
  allocated = b.allocated;
}

-- `none` inside `ok` is the NULL of a block that is too small.
unfoldable pub mem_split : Option ℕ → Cursor → ℕ → Outcome (Option Cursor)
mem_split malloc c size =
    if ltb size c.node.size
    then elim malloc [
      | none ↦ exits 127
      | some n ↦ ok (
          some (record c {
            node = record (c.node) { size = size };
            after = split_off n c.node size ∷ c.after;
          }))
    ]
    else if c.node.size == size
    then ok (some c)
    else ok none

-- The two assertions of memAlloc, and `m->allocated = 1`.
unfoldable pub mark : Option Cursor → ℕ → Outcome Cursor
mark none size = fault
mark (some c) size =
    if c.node.size == size
    then ok (record c { node = record (c.node) { allocated = true } })
    else fault

-- The part of memAlloc behind the test for NULL.
unfoldable pub carve : Option ℕ → Cursor → ℕ → Outcome Cursor
unfolding mem_split mark
carve malloc c size = do
  m ← (if ltb size c.node.size then mem_split malloc c size else ok (some c))
  mark m size

-- What memAlloc does with the result of memChk.
unfoldable pub serve : Option ℕ → List Block → ℕ → Option Cursor → Outcome (Option ℕ × List Block)
serve malloc arena size none = ok (none, arena)
serve malloc arena size (some c) = do d ← carve malloc c size; ok (some d.node.addr, rebuild d)

-- The chosen block's address, or NULL, and the list.
unfoldable pub mem_alloc :
    (List Block → Option ℕ) → List Block → ℕ → Outcome (Option ℕ × List Block)
unfolding mem_chk carve serve
mem_alloc malloc arena size = serve (malloc arena) arena size (mem_chk [] arena size)

abbrev pub next_is_free : Cursor → Bool
next_is_free c = elim c.after [ [] ↦ false | n ∷ rest ↦ not n.allocated ]

-- What `free` leaves of a node until the next `malloc`. Version 7 Unix documents that the
-- contents stay undisturbed (`intact`); in the C standard the node must not be used (`lost`).
pub data FreedNode : Type 0 where
  intact lost : FreedNode

-- `m->prev = ...; m = m->prev;` where memMerge has freed the node of `m`.
abbrev pub through_freed : FreedNode → Cursor → Outcome Cursor
through_freed intact d = ok d
through_freed lost d = fault

-- `if (m->prev != NULL && m->prev->allocated == 0)`: merge, which frees the node of `m`; its link is
-- written and read once more, and the earlier block is gone on with.
unfoldable pub merge_prev : FreedNode → Cursor → Outcome Cursor
unfolding mem_merge
merge_prev freed c = elim c.before [
  | [] ↦ ok c
  | p ∷ ps ↦
      if p.allocated
      then ok c
      else through_freed freed
          (mem_merge (record { before = ps; node = p; after = c.node ∷ c.after }))
]

-- `while (m->next && m->next->allocated == 0)`, for at most as many rounds as there are blocks.
unfoldable pub merge_while : ℕ → Cursor → Cursor
unfolding mem_merge
merge_while zero c = c
merge_while (suc f) c = let rest = merge_while f (mem_merge c) in if next_is_free c then rest else c

unfoldable pub mem_free_at : FreedNode → Cursor → Outcome Cursor
unfolding merge_prev merge_while
mem_free_at freed c = do
  m ← merge_prev freed (record c { node = record (c.node) { allocated = false } })
  ok (merge_while (length m.after) m)

unfoldable pub free_found : FreedNode → Option Cursor → Outcome (List Block)
unfolding mem_free_at
free_found freed none = fault
free_found freed (some c) = do m ← mem_free_at freed c; ok (rebuild m)

-- memFree of a stored pointer; one that is NULL or dangles is a fault.
unfoldable pub mem_free : FreedNode → List Block → Option ℕ → Outcome (List Block)
unfolding seek free_found
mem_free freed arena none = fault
mem_free freed arena (some a) = free_found freed (seek [] arena a)
