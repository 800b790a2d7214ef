-- ===== src/Memory/Tests.antt =====
-- The block list at concrete inputs, and an allocator that meets the assumption on `malloc`.
use system_programming_and_d.Base.{
  Returns, ℕ, suc, ◌≤◌, ◌≡◌, refl, Bool, true, false, List, [], ◌∷◌, Option, none, some, arith,
  sum_of, ok, fault,
}
use system_programming_and_d.Memory.{Block, intact, lost, mem_alloc, mem_free}
use system_programming_and_d.Memory.Shape.{IsArena, named}
use system_programming_and_d.Memory.Exits.{mem_alloc-Returns}
use system_programming_and_d.Memory.Alloc.{IsFresh, Allocated}
use system_programming_and_d.Memory.Free.{Freed, FreeAnswers, follows_free, mem_free-Freed}

-- An address above all that are in use.
abbrev pub next_address : List Block → Option ℕ
next_address bs = some (suc (sum_of (λ b. b.addr) bs))

below_sum : (n : ℕ) (bs : List Block) → suc (sum_of (λ b. b.addr) bs) ≤ n → sum_of (named n) bs ≡ 0
below_sum n [] h = refl
below_sum n (b ∷ bs) h = ground (arith, below_sum n bs)

some_number : (m n : ℕ) → ◌≡◌ {A = Option ℕ} (some m) (some n) → m ≡ n
some_number m n e = cc

pub next_address-IsFresh : IsFresh next_address
next_address-IsFresh bs n e =
    below_sum n bs (omega (arith, some_number (suc (sum_of (λ b. b.addr) bs)) n e))

abbrev block : ℕ → ℕ → ℕ → Bool → Block
block a o s f = record { addr = a; offset = o; size = s; allocated = f }

-- 100 bytes taken, 24 free, 900 taken.
abbrev three : List Block
three = block 1 0 100 true ∷ block 2 100 24 false ∷ block 3 124 900 true ∷ []

three-IsArena : IsArena three
three-IsArena = record {
  tiled = (refl, refl, (refl, refl, (refl, refl, refl)));
  distinct = λ a. ground arith;
}

alloc_splits :
    mem_alloc next_address three 20
    ≡ ok (
      some 2,
      block 1 0 100 true ∷ block 2 100 20 true ∷ block 7 120 4 false ∷ block 3 124 900 true ∷ [],
    )
unfolding mem_alloc
alloc_splits = refl

alloc_refused : mem_alloc next_address three 25 ≡ ok (none, three)
unfolding mem_alloc
alloc_refused = refl

free_merges : mem_free intact three (some 3) ≡ ok (block 1 0 100 true ∷ block 2 100 924 false ∷ [])
unfolding mem_free
free_merges = refl

-- The block behind it is taken into account in the same way for either library.
free_first : mem_free lost three (some 1) ≡ ok (block 1 0 124 false ∷ block 3 124 900 true ∷ [])
unfolding mem_free
free_first = refl

free_dangling : mem_free intact three (some 9) ≡ fault
unfolding mem_free
free_dangling = refl

mem_alloc-Returns_example : Returns (Allocated three 20) (mem_alloc next_address three 20)
mem_alloc-Returns_example =
    mem_alloc-Returns next_address three 20 next_address-IsFresh (λ bs. (_, refl)) three-IsArena

mem_free-Freed_example :
    FreeAnswers lost (follows_free false three 3) (Freed three 3) (mem_free lost three (some 3))
mem_free-Freed_example = mem_free-Freed lost three 3 three-IsArena (omega arith)

mem_free_lost : mem_free lost three (some 3) ≡ fault
unfolding follows_free
mem_free_lost = mem_free-Freed lost three 3 three-IsArena (omega arith)
