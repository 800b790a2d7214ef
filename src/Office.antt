-- ===== src/Office.antt =====
-- Office/queue.{h,c} and Office/stack.{h,c}: linked lists of data pointers that the office's threads
-- share. A list is the sequence of its nodes' data from `top` on. `NULL` arguments are `none`; the
-- memory of the nodes, and printing, are outside the model.
pub mod Fifo
pub mod Tests
use system_programming_and_d.Base.{
  ℕ, zero, suc, ◌+◌, ◌-◌, Bool, true, false, List, [], ◌∷◌, Option, none, some, ltb, ◌==◌,
  if◌then◌else◌, Outcome, ok, fault, ◌>>=◌,
}

-- struct queue
pub record Queue (A : Type 0) : Type 0 where
  pub top : List A
  pub len : ℕ

-- struct stack
pub record Stack (A : Type 0) : Type 0 where
  pub top : List A
  pub len : ℕ

module _ {A : Type 0} where
  unfoldable pub queue_init : Queue A
  queue_init = record { top = []; len = 0 }

  unfoldable pub queue_push_copy : Option (Queue A) → Option A → ℕ → Option (Queue A)
  queue_push_copy none d nbytes = none
  queue_push_copy (some s) none nbytes = some s
  queue_push_copy (some s) (some d) zero = some s
  queue_push_copy (some s) (some d) (suc n) = some (record { top = d ∷ s.top; len = s.len + 1 })

  -- `steps` times `p = p->next`; then the node behind `p` is taken, with all that it is linked to.
  unfoldable pub pop_behind : ℕ → A → List A → Outcome (A × List A)
  pop_behind steps p [] = fault
  pop_behind zero p (last ∷ rest) = ok (last, p ∷ [])
  pop_behind (suc steps) p (q ∷ qs) = pop_behind steps q qs >>= λ r. ok (r.0, p ∷ r.1)

  unfoldable pub pop_from : Queue A → List A → Outcome (Option A × Queue A)
  unfolding pop_behind
  pop_from s [] = ok (none, s)
  pop_from s (p ∷ ps) =
      if s.len == 1
      then ok (some p, record { top = []; len = s.len - 1 })
      else (pop_behind (s.len - 2) p ps >>= λ r.
          ok (some r.0, record { top = r.1; len = s.len - 1 }))

  unfoldable pub queue_pop_object : Option (Queue A) → Outcome (Option A × Option (Queue A))
  unfolding pop_from
  queue_pop_object none = ok (none, none)
  queue_pop_object (some s) = pop_from s s.top >>= λ r. ok (r.0, some r.1)

  -- The loop of queue_free from `i` on, for at most so many rounds, and the queue that is left when
  -- `s` is freed.
  unfoldable pub free_loop : ℕ → ℕ → Queue A → Outcome (Queue A)
  unfolding pop_from
  free_loop zero i s = ok s
  free_loop (suc f) i s =
      let rest = pop_from s s.top >>= λ r. free_loop f (i + 1) r.1 in
      if ltb i s.len then rest else ok s

  -- Each round takes a node away, so there are at most `len` of them.
  unfoldable pub queue_free : Queue A → Outcome (Queue A)
  unfolding free_loop
  queue_free s = free_loop s.len 0 s

  unfoldable pub stack_init : Stack A
  stack_init = record { top = []; len = 0 }

  unfoldable pub stack_push_copy : Option (Stack A) → Option A → ℕ → Option (Stack A)
  stack_push_copy none d nbytes = none
  stack_push_copy (some s) none nbytes = some s
  stack_push_copy (some s) (some d) zero = some s
  stack_push_copy (some s) (some d) (suc n) = some (record s { top = d ∷ s.top })

  unfoldable pub pop_top : Stack A → List A → Option A × Stack A
  pop_top s [] = (none, s)
  pop_top s (d ∷ ds) = (some d, record s { top = ds })

  unfoldable pub stack_pop_object : Option (Stack A) → Option A × Option (Stack A)
  unfolding pop_top
  stack_pop_object none = (none, none)
  stack_pop_object (some s) = ((pop_top s s.top).0, some (pop_top s s.top).1)
