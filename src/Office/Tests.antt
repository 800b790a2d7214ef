-- ===== src/Office/Tests.antt =====
-- Runs of the office's queue and stack.
use system_programming_and_d.Base.{ℕ, ◌/◌, ◌≡◌, refl, [], ◌∷◌, some, length, ok, Returns}
use system_programming_and_d.Office.{
  Queue, Stack, queue_init, queue_push_copy, queue_pop_object, queue_free, stack_init,
  stack_push_copy, stack_pop_object, pop_top,
}
use system_programming_and_d.Office.Fifo.{queue_pop_object-last, queue_free-half}

abbrev waiting : Queue ℕ
waiting = record { top = 3 ∷ 2 ∷ 1 ∷ []; len = 3 }

pushed :
    queue_push_copy
      (queue_push_copy (queue_push_copy (some queue_init) (some 1) 8) (some 2) 8)
      (some 3)
      8
    ≡ some waiting
unfolding queue_init queue_push_copy
pushed = refl

queue_pop_object-last_example :
    queue_pop_object (some waiting) ≡ ok (some 1, some (record { top = 3 ∷ 2 ∷ []; len = 2 }))
queue_pop_object-last_example = queue_pop_object-last waiting (3 ∷ 2 ∷ []) 1 refl refl

queue_free-half_example : Returns (λ r. length r.top ≡ waiting.len / 2) (queue_free waiting)
queue_free-half_example = queue_free-half waiting refl

abbrev stacked : Stack ℕ
stacked = record { top = 2 ∷ 1 ∷ []; len = 0 }

stacked_lem :
    stack_push_copy (stack_push_copy (some stack_init) (some 1) 8) (some 2) 8 ≡ some stacked
unfolding stack_init stack_push_copy
stacked_lem = refl

unstacked : stack_pop_object (some stacked) ≡ (some 2, some (record { top = 1 ∷ []; len = 0 }))
unfolding stack_pop_object pop_top
unstacked = refl
