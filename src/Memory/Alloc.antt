-- ===== src/Memory/Alloc.antt =====
-- memAlloc: what a first-fit allocation does to the block list.
use system_programming_and_d.Base.{
  ℕ, ◌+◌, ◌-◌, ◌≤◌, ◌<◌, ◌≡◌, refl, ◌⊎◌, inl, inr, Bool, true, false, List, [], ◌∷◌, Option, none,
  some, arith, ◌==◌, if◌then◌else◌, sum_of, Ensures, Ensures-bind,
}
use system_programming_and_d.Memory.{
  Block, Cursor, rebuild, mem_chk, carve, serve, mem_alloc, split_off, memory_size,
}
use system_programming_and_d.Memory.Shape.{
  Ahead, Behind, IsTiled, IsArena, CursorFits, named, held, held_at, held-le-named, sum_of-unwind,
  rebuild-IsTiled,
}
use system_programming_and_d.Memory.Walk.{Found, NoneServes, Checked, mem_chk-Checked, Stands-start}

-- `malloc` returns no address that is in use.
abbrev pub IsFresh : (List Block → Option ℕ) → Type 0
IsFresh malloc = (bs : List Block) (n : ℕ) → malloc bs ≡ some n → sum_of (named n) bs ≡ 0

abbrev pub exact_fit : Cursor → ℕ → Cursor
exact_fit c size = record c { node = record (c.node) { size = size; allocated = true } }

abbrev pub split_fit : ℕ → Cursor → ℕ → Cursor
split_fit n c size = record c {
  node = record (c.node) { size = size; allocated = true };
  after = split_off n c.node size ∷ c.after;
}

abbrev pub Carved : Option ℕ → Cursor → ℕ → Cursor → Type 0
Carved malloc c size d =
    ((c.node.size ≡ size) × (d ≡ exact_fit c size))
    ⊎ ((n : ℕ) × (malloc ≡ some n) × (size < c.node.size) × (d ≡ split_fit n c size))

carve-Carved :
    (malloc : Option ℕ) (c : Cursor) (size : ℕ)
    → size ≤ c.node.size
    → Ensures (Carved malloc c size) (carve malloc c size)
unfolding carve
carve-Carved none c size h = ground arith
carve-Carved (some n) c size h = ground arith

-- The bytes that an allocated block at the address has.
abbrev pub granted_at : ℕ → Block → ℕ
granted_at a b = if b.allocated then if b.addr == a then b.size else 0 else 0

abbrev pub granted : ℕ → List Block → ℕ
granted a = sum_of (granted_at a)

-- A block of `size` at `a`, that was free or did not exist; all other holdings are as before.
pub record Grant (arena : List Block) (size a : ℕ) (r : List Block) : Type 0 where
  pub shape : IsArena r
  pub was_free : held a arena ≡ 0
  pub holds : (x : ℕ) → held x r ≡ held x arena + (if a == x then 1 else 0)
  pub sized : granted a r ≡ size

abbrev pub Allocated : List Block → ℕ → Option ℕ × List Block → Type 0
Allocated arena size (none, r) = (r ≡ arena) × NoneServes size arena
Allocated arena size (some a, r) = Grant arena size a r

Behind-true : (o : ℕ) (f : Bool) (ps : List Block) → Behind o f ps → Behind o true ps
Behind-true o f [] h = h
Behind-true o f (p ∷ ps) h = (h.0, ground arith, h.2)

Ahead-true : (o : ℕ) (f : Bool) (bs : List Block) → Ahead o f bs → Ahead o true bs
Ahead-true o f [] h = h
Ahead-true o f (b ∷ bs) h = (h.0, refl, h.2)

granted-zero : (a : ℕ) (bs : List Block) → sum_of (named a) bs ≡ 0 → granted a bs ≡ 0
granted-zero a [] h = refl
granted-zero a (b ∷ bs) h = ground (arith, granted-zero a bs)

module _ (c : Cursor) (fits : CursorFits c) (free : c.node.allocated ≡ false) (size : ℕ) where
  exact-IsTiled : c.node.size ≡ size → IsTiled (rebuild (exact_fit c size))
  exact-IsTiled e =
      rebuild-IsTiled c.before (exact_fit c size).node c.after (Behind-true _ _ c.before fits.0)
        (rw (← e) (Ahead-true _ c.node.allocated c.after fits.1))

  split-IsTiled : (n : ℕ) → size < c.node.size → IsTiled (rebuild (split_fit n c size))
  split-IsTiled n h =
      let d = split_fit n c size in
      let far : c.node.offset + size + (c.node.size - size) ≡ c.node.offset + c.node.size =
        omega arith in
      rebuild-IsTiled c.before d.node d.after (Behind-true _ _ c.before fits.0)
        (refl, refl, rw far fits.1)

  module _ (distinct : (a : ℕ) → sum_of (named a) (rebuild c) ≤ 1) where
    once : (a : ℕ) → sum_of (named a) c.before + (named a c.node + sum_of (named a) c.after) ≤ 1
    once a = rw (← sum_of-unwind (named a) c.before (c.node ∷ c.after)) (distinct a)

    absent : (sum_of (named c.node.addr) c.before ≡ 0) × (sum_of (named c.node.addr) c.after ≡ 0)
    absent = let o = once c.node.addr in (ground arith, ground arith)

    free_before : held c.node.addr (rebuild c) ≡ 0
    free_before = rw (sum_of-unwind (held_at c.node.addr)) (
        ground
          (arith, absent, held-le-named c.node.addr c.before, held-le-named c.node.addr c.after))

    exact-Grant :
        c.node.size ≡ size → Grant (rebuild c) size c.node.addr (rebuild (exact_fit c size))
    exact-Grant e = record {
      shape = record {
        tiled = exact-IsTiled e;
        distinct = λ a. rw (sum_of-unwind (named a)) (once a);
      };
      was_free = free_before;
      holds = λ x. rw (sum_of-unwind (held_at x), sum_of-unwind (held_at x)) (ground arith);
      sized = rw (sum_of-unwind (granted_at c.node.addr)) (
          ground (
            arith,
            granted-zero c.node.addr c.before absent.0,
            granted-zero c.node.addr c.after absent.1,
          ));
    }

    split-Grant :
        (n : ℕ)
        → size < c.node.size
        → sum_of (named n) (rebuild c) ≡ 0
        → Grant (rebuild c) size c.node.addr (rebuild (split_fit n c size))
    split-Grant n h new = record {
      shape = record {
        tiled = split-IsTiled n h;
        distinct = λ a. rw (sum_of-unwind (named a)) (ground (arith, once a, fresh));
      };
      was_free = free_before;
      holds = λ x. rw (sum_of-unwind (held_at x), sum_of-unwind (held_at x)) (ground arith);
      sized = rw (sum_of-unwind (granted_at c.node.addr)) (
          ground (
            arith,
            granted-zero c.node.addr c.before absent.0,
            granted-zero c.node.addr c.after absent.1,
          ));
    }
      where
        fresh : sum_of (named n) c.before + (named n c.node + sum_of (named n) c.after) ≡ 0
        fresh = rw (← sum_of-unwind (named n) c.before (c.node ∷ c.after)) new

-- In a block list in order, with a `malloc` that returns no address in use: a request is granted a
-- block of its size, all other holdings are kept and the list stays in order, or it is refused with
-- the list as it was and no block that could serve it; neither assertion fails.
pub mem_alloc-Allocated :
    (malloc : List Block → Option ℕ) (arena : List Block) (size : ℕ)
    → IsFresh malloc
    → IsArena arena
    → Ensures (Allocated arena size) (mem_alloc malloc arena size)
unfolding mem_alloc serve
mem_alloc-Allocated malloc arena size fresh h =
    go (mem_chk [] arena size) (mem_chk-Checked [] arena size (Stands-start arena h.tiled))
  where
    grant :
        (c d : Cursor)
        → Found [] arena c
        → c.node.allocated ≡ false
        → Carved (malloc arena) c size d
        → Grant arena size d.node.addr (rebuild d)
    grant c d f free (inl (e, same)) =
        rw (same, ← f.same) (exact-Grant c f.fits free size (rw f.same h.distinct) e)
    grant c d f free (inr (n, got, lt, same)) =
        rw (same, ← f.same)
          (split-Grant c f.fits free size (rw f.same h.distinct) n lt
            (rw f.same (fresh arena n got)))

    go :
        (r : Option Cursor)
        → Checked [] arena size r
        → Ensures (Allocated arena size) (serve (malloc arena) arena size r)
    go none k = (refl, k)
    go (some c) k =
        Ensures-bind (Carved (malloc arena) c size) (Allocated arena size)
          (carve (malloc arena) c size) _ (carve-Carved (malloc arena) c size k.2)
          (λ d q. grant c d k.0 k.1 q)

-- In a memory with nothing allocated a request within its size is always served.
pub fully_free :
    (size : ℕ) (arena : List Block)
    → IsTiled arena
    → ((x : ℕ) → held x arena ≡ 0)
    → size ≤ memory_size
    → ¬ NoneServes size arena
fully_free size [] t e le h = absurd (omega arith)
fully_free size (b ∷ []) t e le h = ground (arith, e b.addr)
fully_free size (b ∷ d ∷ bs) t e le h = ground (arith, e b.addr, e d.addr)
