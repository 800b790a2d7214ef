-- ===== src/Memory/Free.antt =====
-- memFree: freeing a block and merging it with its free neighbours.
use system_programming_and_d.Base.{
  Returns, Returns-bind, Returns-mono, Outcome, fault, not, ℕ, zero, suc, ◌+◌, ◌≤◌, ◌≡◌, refl, inl,
  inr, Bool, true, false, List, [], ◌∷◌, length, Option, none, some, arith, ◌==◌, if◌then◌else◌,
  sum_of, Bool-cases,
}
use system_programming_and_d.Memory.{
  Block, Cursor, FreedNode, intact, lost, rebuild, seek, mem_merge, merge_prev, merge_while,
  mem_free_at, free_found, mem_free,
}
use system_programming_and_d.Memory.Shape.{
  Ahead, Behind, IsArena, CursorFits, named, held, held_at, held-le-named, sum_of-unwind,
  rebuild-IsTiled,
}
use system_programming_and_d.Memory.Walk.{Sought, seek-Sought, Stands-start}

-- What stands round the node weighs the same for the holdings, and no address has been added.
pub record Keeps (c d : Cursor) : Type 0 where
  pub free : d.node.allocated ≡ false
  pub holdings : (x : ℕ) → held x d.before + held x d.after ≡ held x c.before + held x c.after
  pub names :
      (x : ℕ)
      → sum_of (named x) d.before + (named x d.node + sum_of (named x) d.after)
        ≤ sum_of (named x) c.before + (named x c.node + sum_of (named x) c.after)

Ahead-relax : (o : ℕ) (bs : List Block) → Ahead o false bs → Ahead o true bs
Ahead-relax o [] h = h
Ahead-relax o (b ∷ bs) h = (h.0, refl, h.2)

Behind-relax : (o : ℕ) (f : Bool) (ps : List Block) → Behind o f ps → Behind o true ps
Behind-relax o f [] h = h
Behind-relax o f (p ∷ ps) h = (h.0, ground arith, h.2)

merge_prev-Keeps :
    (before : List Block) (b : Block) (after : List Block)
    → b.allocated ≡ false
    → Behind b.offset true before
    → Ahead (b.offset + b.size) true after
    → let c : Cursor = record { before = before; node = b; after = after } in
      Returns
        (λ d.
          Keeps c d
          × Behind d.node.offset false d.before
          × Ahead (d.node.offset + d.node.size) true d.after)
        (merge_prev intact c)
unfolding merge_prev
merge_prev-Keeps [] b after free h k =
    (record { free = free; holdings = λ x. refl; names = λ x. omega arith }, h, k)
merge_prev-Keeps (p ∷ ps) b after free h k = elim (Bool-cases p.allocated) [
  | inl taken ↦ simp taken (
    record { free = free; holdings = λ x. refl; names = λ x. omega arith },
    (h.0, refl, rw taken at h.2),
    k,
  )
  | inr loose ↦
      let far : b.offset + b.size ≡ p.offset + (p.size + b.size) = omega (arith, h.0) in
      simp loose (
        record { free = refl; holdings = λ x. ground arith; names = λ x. ground arith },
        rw loose at h.2,
        rw far at k,
      )
]

merge_while-Keeps :
    (f : ℕ) (before : List Block) (b : Block) (after : List Block)
    → length after ≤ f
    → b.allocated ≡ false
    → Behind b.offset false before
    → Ahead (b.offset + b.size) true after
    → let c : Cursor = record { before = before; node = b; after = after } in
      let d = merge_while f c in
      Keeps c d
      × Behind d.node.offset false d.before
      × Ahead (d.node.offset + d.node.size) false d.after
unfolding merge_while mem_merge
merge_while-Keeps zero before b [] le free h k =
    (record { free = free; holdings = λ x. refl; names = λ x. omega arith }, h, k)
merge_while-Keeps zero before b (n ∷ rest) le free h k = absurd (omega arith)
merge_while-Keeps (suc f) before b [] le free h k =
    (record { free = free; holdings = λ x. refl; names = λ x. omega arith }, h, k)
merge_while-Keeps (suc f) before b (n ∷ rest) le free h k = elim (Bool-cases n.allocated) [
  | inl taken ↦ simp taken (
    record { free = free; holdings = λ x. refl; names = λ x. omega arith },
    h,
    (k.0, refl, rw taken at k.2),
  )
  | inr loose ↦
      let e : n.offset + n.size ≡ b.offset + (b.size + n.size) = omega (arith, k.0) in
      let open_end : Ahead (b.offset + (b.size + n.size)) true rest =
        rw (← e) (Ahead-relax _ rest (rw loose at k.2)) in
      let (keep, back, ahead) =
        merge_while-Keeps f before (record b { size = b.size + n.size }) rest (omega arith) free h
          open_end in
      simp loose (
        record {
          free = keep.free;
          holdings = λ x. ground (arith, keep.holdings x);
          names = λ x. ground (arith, keep.names x);
        },
        back,
        ahead,
      )
]

-- What freeing the allocated block at `a` does: that block's bytes are given back and no other
-- holding changes.
pub record Freed (arena : List Block) (a : ℕ) (r : List Block) : Type 0 where
  pub shape : IsArena r
  pub holds : (x : ℕ) → held x r + (if a == x then 1 else 0) ≡ held x arena

module _ (c : Cursor) (fits : CursorFits c) where
  start : Cursor
  start = record c { node = record (c.node) { allocated = false } }

  freed_shape :
      Returns
        (λ d.
          Keeps start d
          × Behind d.node.offset false d.before
          × Ahead (d.node.offset + d.node.size) false d.after)
        (mem_free_at intact c)
  unfolding mem_free_at start
  freed_shape =
      Returns-bind _ _ (merge_prev intact start) _
        (merge_prev-Keeps c.before start.node c.after refl (Behind-relax _ _ c.before fits.0)
          (Ahead-loosen _ c.node.allocated c.after fits.1))
        λ m (keep, back, ahead).
          let (keep', back', ahead') =
            merge_while-Keeps (length m.after) m.before m.node m.after (omega arith) keep.free back
              ahead in
          (
            record {
              free = keep'.free;
              holdings = λ x. omega (arith, keep'.holdings x, keep.holdings x);
              names = λ x. omega (arith, keep'.names x, keep.names x);
            },
            back',
            ahead',
          )
    where
      Ahead-loosen : (o : ℕ) (f : Bool) (bs : List Block) → Ahead o f bs → Ahead o true bs
      Ahead-loosen o f [] h = h
      Ahead-loosen o f (b ∷ bs) h = (h.0, refl, h.2)

  mem_free_at-Freed :
      ((a : ℕ) → sum_of (named a) (rebuild c) ≤ 1)
      → 1 ≤ held c.node.addr (rebuild c)
      → Returns (λ d. Freed (rebuild c) c.node.addr (rebuild d)) (mem_free_at intact c)
  unfolding start
  mem_free_at-Freed distinct owned =
      Returns-mono _ _ (mem_free_at intact c) freed_shape λ d (keep, back, ahead). record {
        shape = record {
          tiled = rebuild-IsTiled d.before d.node d.after (rw keep.free back) (rw keep.free ahead);
          distinct = λ a. rw (sum_of-unwind (named a)) (omega (arith, keep.names a, once a));
        };
        holds = λ x.
            rw (sum_of-unwind (held_at x), sum_of-unwind (held_at x))
              (ground (arith, keep.free, keep.holdings x, taken));
      }
    where
      once : (a : ℕ) → sum_of (named a) c.before + (named a c.node + sum_of (named a) c.after) ≤ 1
      once a = rw (← sum_of-unwind (named a) c.before (c.node ∷ c.after)) (distinct a)

      taken : c.node.allocated ≡ true
      taken =
          let o = sum_of-unwind (held_at c.node.addr) c.before (c.node ∷ c.after) in
          ground (
            arith,
            o,
            owned,
            once c.node.addr,
            held-le-named c.node.addr c.before,
            held-le-named c.node.addr c.after,
          )

-- Whether the block at `a` stands right behind a free one; `free` tells it of the block before.
unfoldable pub follows_free : Bool → List Block → ℕ → Bool
follows_free free [] a = false
follows_free free (b ∷ bs) a = if b.addr == a then free else follows_free (not b.allocated) bs a

-- A freed block is used only where it follows a free one and the library does not keep it.
abbrev pub FreeAnswers : FreedNode → Bool → (List Block → Type 0) → Outcome (List Block) → Type 0
FreeAnswers intact behind_free P r = Returns P r
FreeAnswers lost false P r = Returns P r
FreeAnswers lost true P r = r ≡ fault

abbrev prev_is_free : List Block → Bool
prev_is_free [] = false
prev_is_free (p ∷ ps) = not p.allocated

abbrev Follows : Bool → Option Cursor → Type 0
Follows f none = Unit {0}
Follows f (some c) = prev_is_free c.before ≡ f

seek-Follows :
    (before bs : List Block) (a : ℕ)
    → Follows (follows_free (prev_is_free before) bs a) (seek before bs a)
unfolding seek follows_free
seek-Follows before [] a = tt
seek-Follows before (b ∷ bs) a = elim (Bool-cases (b.addr == a)) [
  | inl hit ↦ simp hit refl
  | inr miss ↦ simp miss (seek-Follows (b ∷ before) bs a)
]

merge_prev_lost :
    (before : List Block) (b : Block) (after : List Block)
    → let c : Cursor = record { before = before; node = b; after = after } in
      merge_prev lost c ≡ (if prev_is_free before then fault else merge_prev intact c)
unfolding merge_prev
merge_prev_lost [] b after = refl
merge_prev_lost (p ∷ ps) b after = ground arith

free_found_lost :
    (c : Cursor)
    → free_found lost (some c)
      ≡ (if prev_is_free c.before then fault else free_found intact (some c))
unfolding free_found mem_free_at
free_found_lost c = elim (Bool-cases (prev_is_free c.before)) [
  | inl free ↦ rw (merge_prev_lost c.before _ c.after, free) refl
  | inr taken ↦ rw (merge_prev_lost c.before _ c.after, taken) refl
]

free_found-answers :
    (freed : FreedNode) (f : Bool) (c : Cursor) (P : List Block → Type 0)
    → prev_is_free c.before ≡ f
    → Returns P (free_found intact (some c))
    → FreeAnswers freed f P (free_found freed (some c))
free_found-answers intact f c P e h = h
free_found-answers lost false c P e h = rw (free_found_lost c, e) h
free_found-answers lost true c P e h = rw (free_found_lost c, e) refl

-- In a block list in order, freeing an address that an allocated block has: the list stays in order,
-- with no two free neighbours, and that holding alone is gone; but where the block follows a free
-- one and a freed node may not be used, the call faults.
pub mem_free-Freed :
    (freed : FreedNode) (arena : List Block) (a : ℕ)
    → IsArena arena
    → 1 ≤ held a arena
    → FreeAnswers freed (follows_free false arena a) (Freed arena a) (mem_free freed arena (some a))
unfolding mem_free free_found
mem_free-Freed freed arena a h owned =
    go (seek [] arena a) (seek-Sought [] arena a (Stands-start arena h.tiled))
      (seek-Follows [] arena a)
  where
    go :
        (r : Option Cursor)
        → Sought [] arena a r
        → Follows (follows_free false arena a) r
        → FreeAnswers freed (follows_free false arena a) (Freed arena a) (free_found freed r)
    go none absent follows = absurd (omega (arith, held-le-named a arena))
    go (some c) (f, here) follows = free_found-answers freed _ c (Freed arena a) follows (
        rw (← f.same, ← here)
          (Returns-bind _ _ (mem_free_at intact c) _
            (mem_free_at-Freed c f.fits (rw f.same h.distinct) (rw (f.same, here) owned)) λ d k. k))
