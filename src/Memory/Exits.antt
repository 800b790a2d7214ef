-- ===== src/Memory/Exits.antt =====
-- The allocator and the end of the process by `exit`.
use system_programming_and_d.Base.{
  ℕ, ◌≡◌, List, [], ◌∷◌, false, Option, none, some, ltb, ◌==◌, if◌then◌else◌, ok, fault, Returns,
  Stays, Stays-bind, Stays-if, Ensures-Returns,
}
use system_programming_and_d.Memory.{
  Block, Cursor, intact, merge_prev, mem_free_at, mem_chk, mem_split, mark, carve, serve, mem_alloc,
  seek, free_found, mem_free,
}
use system_programming_and_d.Memory.Shape.{IsArena}
use system_programming_and_d.Memory.Alloc.{IsFresh, Allocated, mem_alloc-Allocated}

-- `malloc` never returns NULL.
abbrev pub Succeeds : {A : Type 0} → (A → Option ℕ) → Type 0
Succeeds {A = A} malloc = (a : A) → (n : ℕ) × (malloc a ≡ some n)

mark-Stays : (m : Option Cursor) (size : ℕ) → Stays (mark m size)
unfolding mark
mark-Stays none size = tt
mark-Stays (some c) size = Stays-if (c.node.size == size) _ fault tt tt

mem_split-Stays : (n : ℕ) (c : Cursor) (size : ℕ) → Stays (mem_split (some n) c size)
unfolding mem_split
mem_split-Stays n c size =
    Stays-if (ltb size c.node.size) _ _ tt
      (Stays-if (c.node.size == size) (ok (some c)) (ok none) tt tt)

carve-Stays : (n : ℕ) (c : Cursor) (size : ℕ) → Stays (carve (some n) c size)
unfolding carve
carve-Stays n c size =
    Stays-bind (if ltb size c.node.size then mem_split (some n) c size else ok (some c)) _
      (Stays-if (ltb size c.node.size) _ _ (mem_split-Stays n c size) tt) (λ m. mark-Stays m size)

serve-Stays :
    (n : ℕ) (arena : List Block) (size : ℕ) (r : Option Cursor)
    → Stays (serve (some n) arena size r)
unfolding serve
serve-Stays n arena size none = tt
serve-Stays n arena size (some c) =
    Stays-bind (carve (some n) c size) _ (carve-Stays n c size) (λ d. tt)

pub mem_alloc-Stays :
    (malloc : List Block → Option ℕ) (arena : List Block) (size : ℕ)
    → Succeeds malloc
    → Stays (mem_alloc malloc arena size)
unfolding mem_alloc
mem_alloc-Stays malloc arena size h =
    let (n, e) = h arena in rw e (serve-Stays n arena size (mem_chk [] arena size))

merge_prev-Stays :
    (before : List Block) (b : Block) (after : List Block)
    → Stays (merge_prev intact (record { before = before; node = b; after = after }))
unfolding merge_prev
merge_prev-Stays [] b after = tt
merge_prev-Stays (p ∷ ps) b after = Stays-if p.allocated _ _ tt tt

free_found-Stays : (r : Option Cursor) → Stays (free_found intact r)
unfolding free_found mem_free_at
free_found-Stays none = tt
free_found-Stays (some c) =
    let start : Cursor = record c { node = record (c.node) { allocated = false } } in
    Stays-bind (mem_free_at intact c) _
      (Stays-bind (merge_prev intact start) _ (merge_prev-Stays c.before _ c.after) (λ m. tt))
      (λ d. tt)

pub mem_free-Stays : (arena : List Block) (m : Option ℕ) → Stays (mem_free intact arena m)
unfolding mem_free
mem_free-Stays arena none = tt
mem_free-Stays arena (some a) = free_found-Stays (seek [] arena a)

-- In a block list in order, with a `malloc` that never fails and returns no address in use,
-- memAlloc returns: a block of the size, with all other holdings kept and the list in order, or NULL
-- with the list as it was and no block that could serve the request.
pub mem_alloc-Returns :
    (malloc : List Block → Option ℕ) (arena : List Block) (size : ℕ)
    → IsFresh malloc
    → Succeeds malloc
    → IsArena arena
    → Returns (Allocated arena size) (mem_alloc malloc arena size)
mem_alloc-Returns malloc arena size fresh h i =
    Ensures-Returns (Allocated arena size) (mem_alloc malloc arena size)
      (mem_alloc-Allocated malloc arena size fresh i) (mem_alloc-Stays malloc arena size h)
