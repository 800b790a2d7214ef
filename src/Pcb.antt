-- ===== src/Pcb.antt =====
-- Mutli-Level Job Scheduling/Stage3/pcb.{h,c}: process control blocks and their queues. A queue is
-- the sequence of its nodes in link order. `fork` is an argument; signals, `waitpid` and the text
-- that is printed are outside the model. Times and sizes are not negative.
pub mod Queue
use system_programming_and_d.Base.{
  ℕ, Bool, true, false, List, [], ◌∷◌, Option, none, some, ltb, ◌==◌, if◌then◌else◌, Outcome, ok,
  exits, fault, ◌>>=◌,
}
use system_programming_and_d.Memory.{Block, Cursor, seek}

pub data Status : Type 0 where
  uninitialized initialized ready running suspended terminated : Status

-- struct pcb; `memoryblock` is an address, or NULL.
pub record Pcb : Type 0 where
  pub pid : ℕ
  pub arrivaltime : ℕ
  pub servicetime : ℕ
  pub priority : ℕ
  pub remainingcputime : ℕ
  pub mbytes : ℕ
  pub memoryblock : Option ℕ
  pub status : Status

abbrev pub create_null_pcb : Pcb
create_null_pcb = record {
  pid = 0;
  arrivaltime = 0;
  servicetime = 0;
  priority = 2;
  remainingcputime = 0;
  mbytes = 0;
  memoryblock = none;
  status = uninitialized;
}

-- `fork` is called for a process that has no pid yet; -1 ends the dispatcher.
unfoldable pub start_pcb : Option ℕ → Pcb → Outcome Pcb
start_pcb fork p =
    if p.pid == 0
    then elim fork [ none ↦ exits 1 | some n ↦ ok (record p { pid = n; status = running }) ]
    else ok (record p { status = running })

abbrev pub suspend_pcb : Pcb → Pcb
suspend_pcb p = record p { status = suspended }

abbrev pub terminate_pcb : Pcb → Pcb
terminate_pcb p = record p { status = terminated }

-- The numbers of the printed line; `p->memoryblock->offset` is read through the pointer.
unfoldable pub row : Pcb → Option Cursor → Outcome (List ℕ)
row p none = fault
row p (some c) =
    ok (p.pid ∷ p.arrivaltime ∷ p.priority ∷ p.remainingcputime ∷ c.node.offset ∷ p.mbytes ∷ [])

unfoldable pub print_at : List Block → Pcb → Option ℕ → Outcome (List ℕ)
unfolding row
print_at arena p none = fault
print_at arena p (some a) = row p (seek [] arena a)

unfoldable pub print_pcb : List Block → Pcb → Outcome (List ℕ)
unfolding print_at
print_pcb arena p = print_at arena p p.memoryblock

-- To the tail, `while (q->next) q = q->next`.
unfoldable pub enq_pcb : List Pcb → Pcb → List Pcb
enq_pcb [] p = p ∷ []
enq_pcb (q ∷ qs) p = q ∷ enq_pcb qs p

unfoldable pub enq_pcb_hd : List Pcb → Pcb → List Pcb
enq_pcb_hd q p = p ∷ q

unfoldable pub deq_pcb : List Pcb → Option (Pcb × List Pcb)
deq_pcb [] = none
deq_pcb (p ∷ q) = some (p, q)

-- The loop of findMaxRemainingTime, with the best node so far.
longest_from : Pcb → List Pcb → Pcb
longest_from res [] = res
longest_from res (q ∷ qs) =
    longest_from (if ltb res.remainingcputime q.remainingcputime then q else res) qs

unfoldable pub find_max_remaining_time : List Pcb → Option Pcb
unfolding longest_from
find_max_remaining_time [] = none
find_max_remaining_time (h ∷ q) = some (longest_from h (h ∷ q))

-- The loop of removeSpecificJob behind a node that is kept; at the end `assert(find == 1)` fails.
unfoldable pub remove_after : List Pcb → ℕ → Outcome (List Pcb)
remove_after [] pid = fault
remove_after (q ∷ qs) pid =
    let rest = remove_after qs pid >>= λ r. ok (q ∷ r) in if q.pid == pid then ok qs else rest

-- An empty queue is read through NULL.
unfoldable pub remove_specific_job : List Pcb → Pcb → Outcome (List Pcb)
unfolding remove_after
remove_specific_job [] target = fault
remove_specific_job (h ∷ q) target =
    if h.pid == target.pid then ok q else (remove_after q target.pid >>= λ r. ok (h ∷ r))
