-- ===== src/Office/Fifo.antt =====
-- The order of the queue, and queue_free.
use system_programming_and_d.Base.{
  ℕ, zero, suc, ◌+◌, ◌-◌, ◌/◌, ◌≤◌, ◌<◌, ◌≡◌, refl, sym, ap, subst, ◌∙◌, true, false, inl, inr,
  Bool-cases, List, [], ◌∷◌, ◌++◌, Option, some, arith, length, length-append, ltb, ◌==◌, Outcome,
  ok, ◌>>=◌, Returns, Returns-mono,
}
use system_programming_and_d.Office.{
  Queue, pop_behind, pop_from, queue_pop_object, free_loop, queue_free,
}

module _ {A : Type 0} where
  pop_behind-last :
      (steps : ℕ) (p : A) (xs : List A) (x : A)
      → steps ≡ length xs
      → pop_behind steps p (xs ++ x ∷ []) ≡ ok (x, p ∷ xs)
  unfolding pop_behind
  pop_behind-last zero p [] x e = refl
  pop_behind-last zero p (y ∷ xs) x e = absurd (omega arith)
  pop_behind-last (suc n) p [] x e = absurd (omega arith)
  pop_behind-last (suc n) p (y ∷ xs) x e = rw (pop_behind-last n y xs x (omega arith))

  pop_from-last :
      (s : Queue A) (xs : List A) (x : A)
      → s.len ≡ length xs + 1
      → pop_from s (xs ++ x ∷ []) ≡ ok (some x, record { top = xs; len = length xs })
  unfolding pop_from
  pop_from-last s [] x e =
      let one : (s.len == 1) ≡ true = ground arith in
      let down : s.len - 1 ≡ 0 = omega arith in rw (one, down)
  pop_from-last s (y ∷ xs) x e =
      let more : (s.len == 1) ≡ false = ground arith in
      let down : s.len - 1 ≡ suc (length xs) = omega arith in
      rw (more, pop_behind-last (s.len - 2) y xs x (omega arith), down)

  -- A pop of a queue whose length is right takes the datum at the far end from `top`, the one that
  -- was pushed first, and leaves the others in their order and the length right.
  pub queue_pop_object-last :
      (s : Queue A) (xs : List A) (x : A)
      → s.top ≡ xs ++ x ∷ []
      → s.len ≡ length s.top
      → queue_pop_object (some s) ≡ ok (some x, some (record { top = xs; len = length xs }))
  unfolding queue_pop_object
  queue_pop_object-last s xs x e l =
      let count : s.len ≡ length xs + 1 =
        l ∙ ap (λ (t : List A). length t) e ∙ omega (arith, length-append xs (x ∷ [])) in
      ap (λ (t : List A). pop_from s t >>= λ r. ok (r.0, some r.1)) e
      ∙ ap (λ (t : Outcome (Option A × Queue A)). t >>= λ r. ok (r.0, some r.1))
          (pop_from-last s xs x count)

  -- Every list that is not empty has a last element.
  unsnoc : (y : A) (ys : List A) → (xs : List A) × (x : A) × (y ∷ ys ≡ xs ++ x ∷ [])
  unsnoc y [] = ([], y, refl)
  unsnoc y (z ∷ ys) = let (xs, x, e) = unsnoc z ys in (y ∷ xs, x, ap (λ (t : List A). y ∷ t) e)

  -- The queue that the loop leaves.
  record Left (i : ℕ) (s r : Queue A) : Type 0 where
    pub counted : r.len ≡ length r.top
    pub half : s.len ≤ i → r.len ≡ s.len
    pub less : i ≤ s.len → r.len ≡ (s.len + i) / 2

  free_loop-Left :
      (f i : ℕ) (s : Queue A)
      → s.len ≡ length s.top
      → s.len ≤ i + f
      → Returns (Left i s) (free_loop f i s)
  unfolding free_loop
  free_loop-Left zero i s e le = record { counted = e; half = λ z. refl; less = λ z. omega arith }
  free_loop-Left (suc f) i s e le = elim (Bool-cases (ltb i s.len)) [
    | inr done ↦
        rw done (record { counted = e; half = λ z. refl; less = λ z. ground (arith, done) })
    | inl more ↦ rw more (go (free_loop-Left f (i + 1)) s.top refl (ground (arith, more)))
  ]
    where
      step :
          ((s' : Queue A)
            → s'.len ≡ length s'.top
            → s'.len ≤ i + 1 + f
            → Returns (Left (i + 1) s') (free_loop f (i + 1) s'))
          → (xs : List A) → s.len ≡ length xs + 1
          → i < s.len
          → Returns (Left i s) (free_loop f (i + 1) (record { top = xs; len = length xs }))
      step again xs count lt =
          let s' : Queue A = record { top = xs; len = length xs } in
          Returns-mono (Left (i + 1) s') (Left i s) (free_loop f (i + 1) s')
            (again s' refl (omega arith))
            λ r h. record {
              counted = h.counted;
              half = λ z. absurd (omega arith);
              less = λ z. elim (Bool-cases (ltb i (length xs))) [
                | inl more ↦ ground (arith, more, count, h.less)
                | inr met ↦ ground (arith, met, count, h.half)
              ];
            }

      go :
          ((s' : Queue A)
            → s'.len ≡ length s'.top
            → s'.len ≤ i + 1 + f
            → Returns (Left (i + 1) s') (free_loop f (i + 1) s'))
          → (t : List A) → s.top ≡ t
          → i < s.len
          → Returns (Left i s) (pop_from s t >>= λ r. free_loop f (i + 1) r.1)
      go again [] same lt = absurd (omega (arith, e, ap (λ (u : List A). length u) same))
      go again (y ∷ ys) same lt =
          let (xs, x, split) = unsnoc y ys in
          let count : s.len ≡ length xs + 1 =
            e
            ∙ ap (λ (t : List A). length t) (same ∙ split)
            ∙ omega (arith, length-append xs (x ∷ [])) in
          let popped : pop_from s (y ∷ ys) ≡ ok (some x, record { top = xs; len = length xs }) =
            ap (λ (t : List A). pop_from s t) split ∙ pop_from-last s xs x count in
          subst
            (λ (m : Outcome (Option A × Queue A)).
              Returns (Left i s) (m >>= λ r. free_loop f (i + 1) r.1))
            (sym popped) (step again xs count lt)

  -- Freeing a queue whose length is right pops until the count of pops meets the length: half of
  -- the nodes are left, rounded down, and lost.
  pub queue_free-half :
      (s : Queue A) → s.len ≡ length s.top → Returns (λ r. length r.top ≡ s.len / 2) (queue_free s)
  unfolding queue_free
  queue_free-half s e =
      Returns-mono (Left 0 s) (λ r. length r.top ≡ s.len / 2) (free_loop s.len 0 s)
        (free_loop-Left s.len 0 s e (omega arith))
        λ r h. sym h.counted ∙ h.less (omega arith) ∙ ap (λ (t : ℕ). t / 2) (omega arith)
