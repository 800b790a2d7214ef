-- ===== src/Dispatcher.antt =====
-- Mutli-Level Job Scheduling/Stage3/mlq.{h,c}: the dispatcher with swapping. One pass of the main
-- loop is `one_round`, in the phases that the comments of the source number. `malloc`, `fork` and
-- what `free` leaves of a node are arguments. Times, sizes and the counters do not wrap; a job's time left is at least the quantum
-- wherever the source subtracts and goes on with the job, so the truncated difference is exact.
-- `sleep` and the printed averages are outside the model, their sums are in the state.
pub mod Invariant
pub mod Admit
pub mod Swap
pub mod Turn
pub mod Launch
pub mod Run
pub mod Freed
pub mod Oversize
pub mod Exits
pub mod Tests
use Prim.Native.Nat.{bit_and, bit_xor}
use system_programming_and_d.Base.{
  ℕ, zero, suc, ◌+◌, ◌-◌, ◌^◌, Bool, true, false, not, ◌&&◌, ◌||◌, List, [], ◌∷◌, Option, none,
  some, ltb, leb, ◌==◌, if◌then◌else◌, Outcome, ok, exits, fault, ◌>>=◌,
}
use system_programming_and_d.Memory.{Block, FreedNode, memory_size, mem_alloc, mem_free}
use system_programming_and_d.Pcb.{
  Pcb, Status, suspended, initialized, create_null_pcb, start_pcb, suspend_pcb, terminate_pcb,
  print_pcb, enq_pcb, enq_pcb_hd, deq_pcb, find_max_remaining_time, remove_specific_job,
}

-- The variables of main that a pass reads and writes.
pub record State : Type 0 where
  pub memory_blocks : List Block
  pub job_dispatch : List Pcb
  pub normal_dispatch : List Pcb
  pub rt_dispatch : List Pcb
  pub l0 : List Pcb
  pub l1 : List Pcb
  pub l2 : List Pcb
  pub swap : List Pcb
  pub current : Option Pcb
  pub timer : ℕ
  pub quantum : ℕ
  pub time_quantum : ℕ
  pub n_process : ℕ
  pub accumulated_arrival_times : ℕ
  pub accumulated_service_times : ℕ
  pub accumulated_finish_times : ℕ

abbrev pub is_empty {ℓ} : {A : Type ℓ} → List A → Bool
is_empty [] = true
is_empty (x ∷ xs) = false

abbrev pub is_null {ℓ} : {A : Type ℓ} → Option A → Bool
is_null none = true
is_null (some x) = false

-- `y ^ (-(x < y) & (x ^ y))` on 32-bit words: the mask is all ones or zero.
unfoldable pub min_int : ℕ → ℕ → ℕ
min_int x y = bit_xor y (bit_and (if ltb x y then 2 ^ 32 - 1 else 0) (bit_xor x y))

-- One line of the job file.
pub record Line : Type 0 where
  pub arrivaltime : ℕ
  pub servicetime : ℕ
  pub priority : ℕ
  pub mbytes : ℕ

-- What the `fscanf` of a round does: four numbers are converted; fewer are, and some text is
-- consumed or the end is met; or it stands before text that is no number, and consumes nothing.
pub data Scan : Type 0 where
  scanned : Line → Scan
  partial : Scan
  jammed : Scan

-- The loop that reads the file, given what `fscanf` does in turn until `feof` holds, for at most so
-- many rounds: `none` if the file is not read to its end.
unfoldable pub load_jobs : ℕ → List Scan → List Pcb → Option (List Pcb)
unfolding enq_pcb
load_jobs f [] q = some q
load_jobs zero (x ∷ file) q = none
load_jobs (suc f) (jammed ∷ file) q = load_jobs f (jammed ∷ file) q
load_jobs (suc f) (partial ∷ file) q = load_jobs f file q
load_jobs (suc f) (scanned l ∷ file) q = load_jobs f file (
    enq_pcb q (record create_null_pcb {
      arrivaltime = l.arrivaltime;
      servicetime = l.servicetime;
      priority = l.priority;
      mbytes = l.mbytes;
      remainingcputime = l.servicetime;
      status = initialized;
    }))

-- Steps 1 to 4, with the queue that was read from the file; `first` is the address of the block that
-- stands for the whole memory.
unfoldable pub init_state : ℕ → List Pcb → ℕ → State
init_state first jobs time_quantum = record {
  memory_blocks = record { addr = first; offset = 0; size = memory_size; allocated = false } ∷ [];
  job_dispatch = jobs;
  normal_dispatch = [];
  rt_dispatch = [];
  l0 = [];
  l1 = [];
  l2 = [];
  swap = [];
  current = none;
  timer = 0;
  quantum = 0;
  time_quantum = time_quantum;
  n_process = 0;
  accumulated_arrival_times = 0;
  accumulated_service_times = 0;
  accumulated_finish_times = 0;
}

-- The condition of the main loop.
unfoldable pub is_busy : State → Bool
is_busy s =
    not (is_null s.current)
    || not (is_empty s.l0)
    || not (is_empty s.l1)
    || not (is_empty s.l2)
    || not (is_empty s.normal_dispatch)
    || not (is_empty s.rt_dispatch)
    || not (is_empty s.job_dispatch)
    || not (is_empty s.swap)

-- ii. The arrived jobs, to the queue of their kind.
unfoldable pub unload_from : State → List Pcb → State
unfolding enq_pcb
unload_from s [] = record s { job_dispatch = [] }
unload_from s (j ∷ js) =
    let rest =
      unload_from
        (if j.priority == 0
          then record s { rt_dispatch = enq_pcb s.rt_dispatch j }
          else record s { normal_dispatch = enq_pcb s.normal_dispatch j })
        js in
    if leb j.arrivaltime s.timer then rest else record s { job_dispatch = j ∷ js }

unfoldable pub unload : State → State
unfolding unload_from
unload s = unload_from s s.job_dispatch

-- iii. The end of the running job. The Boolean is `check_job_addmission`.
unfoldable pub finish : FreedNode → State → Pcb → Outcome (State × Bool)
finish freed s p = do
  arena ← mem_free freed s.memory_blocks (terminate_pcb p).memoryblock
  ok (
    record s {
      memory_blocks = arena;
      current = none;
      n_process = s.n_process + 1;
      accumulated_service_times = s.accumulated_service_times + p.servicetime;
      accumulated_arrival_times = s.accumulated_arrival_times + p.arrivaltime;
      accumulated_finish_times = s.accumulated_finish_times + s.timer;
    },
    true,
  )

-- `remainingcputime - quantum <= 0`
unfoldable pub expire_of : FreedNode → State → Option Pcb → Outcome (State × Bool)
unfolding finish
expire_of freed s none = ok (s, false)
expire_of freed s (some p) =
    if leb p.remainingcputime s.quantum then finish freed s p else ok (s, false)

unfoldable pub expire : FreedNode → State → Outcome (State × Bool)
unfolding expire_of
expire freed s = expire_of freed s s.current

-- (memory, jobs not admitted, queue with the admitted ones)
abbrev pub Queues : Type 0
Queues = List Block × List Pcb × List Pcb

-- The body of an admission loop behind memAlloc: NULL is the `break`.
unfoldable pub admit_or_stop :
    (List Block → List Pcb → Outcome Queues)
    → Pcb
    → List Pcb
    → List Pcb
    → Option ℕ × List Block
    → Outcome Queues
admit_or_stop again j js level (none, arena) = ok (arena, j ∷ js, level)
admit_or_stop again j js level (some a, arena) =
    again arena (enq_pcb level (record j { memoryblock = some a }))

-- The admission loop of iv.a and vi.
unfoldable pub admit : (List Block → Option ℕ) → List Block → List Pcb → List Pcb → Outcome Queues
unfolding admit_or_stop
admit malloc arena [] level = ok (arena, [], level)
admit malloc arena (j ∷ js) level =
    mem_alloc malloc arena j.mbytes
    >>= admit_or_stop (λ arena' level'. admit malloc arena' js level') j js level

-- iv.a. Normal jobs are considered only while no real-time job waits.
unfoldable pub admit_normal : (List Block → Option ℕ) → State → Outcome State
unfolding admit
admit_normal malloc s =
    if is_empty s.rt_dispatch
    then (do
      (arena, left, level) ← admit malloc s.memory_blocks s.normal_dispatch s.l1
      ok (record s { memory_blocks = arena; normal_dispatch = left; l1 = level }))
    else ok s

-- vi. Real-time jobs into memory.
unfoldable pub admit_rt : (List Block → Option ℕ) → State → Outcome State
unfolding admit
admit_rt malloc s = do
  (arena, left, level) ← admit malloc s.memory_blocks s.rt_dispatch s.l0
  ok (record s { memory_blocks = arena; rt_dispatch = left; l0 = level })

-- What `longest_L2_job` points to: nothing, the running process, or a node of the level 2 queue.
pub data Victim : Type 0 where
  nobody : Victim
  runner : Victim
  queued : Pcb → Victim

abbrev pub runs_at_level2 : Option Pcb → Bool
runs_at_level2 none = false
runs_at_level2 (some p) = p.priority == 2

-- The running process, if it is of level 2 and has more time left than the one found.
unfoldable pub compare_with_runner : Option Pcb → Pcb → Victim
compare_with_runner none v = queued v
compare_with_runner (some p) v =
    if p.priority == 2 && ltb v.remainingcputime p.remainingcputime then runner else queued v

-- iv.b.C, for the level 2 queue and the running process; the assertion fails for NULL.
unfoldable pub pick_victim : List Pcb → Option Pcb → Outcome Victim
unfolding compare_with_runner
pick_victim [] current = ok (if runs_at_level2 current then runner else nobody)
pick_victim (q ∷ qs) current = elim (find_max_remaining_time (q ∷ qs)) [
  | none ↦ fault
  | some v ↦ ok (compare_with_runner current v)
]

-- iv.b.B and C, for the result of the trial.
unfoldable pub tried : FreedNode → State → Option ℕ × List Block → Outcome (State × Victim)
unfolding pick_victim
tried freed s (some a, arena) = do
  arena' ← mem_free freed arena (some a)
  ok (record s { memory_blocks = arena' }, nobody)
tried freed s (none, arena) = do
  v ← pick_victim s.l2 s.current
  ok (record s { memory_blocks = arena }, v)

-- iv.b. Memory for the first real-time job is tried, and given back at once.
unfoldable pub probe_for :
    FreedNode → (List Block → Option ℕ) → State → List Pcb → Outcome (State × Victim)
unfolding tried
probe_for freed malloc s [] = ok (s, nobody)
probe_for freed malloc s (j ∷ js) = mem_alloc malloc s.memory_blocks j.mbytes >>= tried freed s

unfoldable pub probe : FreedNode → (List Block → Option ℕ) → State → Outcome (State × Victim)
unfolding probe_for
probe freed malloc s = probe_for freed malloc s s.rt_dispatch

-- v.C to v.E: the chosen job goes to the swapped job queue, and its memory is freed.
unfoldable pub swap_away : FreedNode → State → Pcb → Outcome State
unfolding enq_pcb
swap_away freed s p = do
  let q = enq_pcb s.swap p
  arena ← mem_free freed s.memory_blocks p.memoryblock
  ok (record s { memory_blocks = arena; swap = q })

abbrev pub charge : State → Pcb → Pcb
charge s p = suspend_pcb (record p { remainingcputime = p.remainingcputime - s.quantum })

abbrev pub has_pid_of : Option Pcb → Pcb → Bool
has_pid_of none v = false
has_pid_of (some p) v = v.pid == p.pid

-- v.A. What is charged and suspended is what is queued.
unfoldable pub swap_runner : FreedNode → State → Option Pcb → Outcome State
unfolding swap_away
swap_runner freed s none = fault
swap_runner freed s (some p) = swap_away freed (record s { current = none }) (charge s p)

-- v. The test compares pids. `runner` is the running process itself, so it passes.
unfoldable pub swap_out : FreedNode → State → Victim → Outcome State
unfolding swap_away swap_runner
swap_out freed s nobody = ok s
swap_out freed s runner = swap_runner freed s s.current
swap_out freed s (queued v) =
    if has_pid_of s.current v
    then swap_away freed (record s { current = none }) v
    else (remove_specific_job s.l2 v >>= λ q. swap_away freed (record s { l2 = q }) v)

-- vii. The quantum is charged to the running process `p`, which stays or goes to level 2.
unfoldable pub demote : State → Pcb → Bool → State × Bool
unfolding enq_pcb enq_pcb_hd
demote s p check =
    let p' = record p { remainingcputime = p.remainingcputime - s.quantum } in
    if not (is_empty s.l0) || not (is_empty s.l1)
    then if p.priority == 1
      then (
        record s { current = none; l2 = enq_pcb s.l2 (record (suspend_pcb p') { priority = 2 }) },
        check,
      )
      else (record s { current = none; l2 = enq_pcb_hd s.l2 (suspend_pcb p') }, check)
    else if p.priority == 1
    then (
      record s { current = none; l2 = enq_pcb s.l2 (record (suspend_pcb p') { priority = 2 }) },
      true,
    )
    else (record s { current = some p' }, check)

unfoldable pub turn_of : State → Option Pcb → Bool → State × Bool
unfolding demote
turn_of s none check = (s, check)
turn_of s (some p) check = demote s p check

unfoldable pub turn : State → Bool → State × Bool
unfolding turn_of
turn s check = turn_of s s.current check

-- The assertion `m != NULL`, and the swapped job that runs again.
unfoldable pub swapped_in : State → Pcb → List Pcb → Option ℕ × List Block → Outcome State
swapped_in s p ps (none, arena) = fault
swapped_in s p ps (some a, arena) = ok (record s {
  memory_blocks = arena;
  swap = ps;
  current = some (record p { memoryblock = some a });
})

unfoldable pub swap_in_from : (List Block → Option ℕ) → State → List Pcb → Outcome State
unfolding swapped_in
swap_in_from malloc s [] = fault
swap_in_from malloc s (p ∷ ps) = mem_alloc malloc s.memory_blocks p.mbytes >>= swapped_in s p ps

-- viii.a, the last case: a swapped job comes back if no arrived job waits. If one does,
-- `current_process` stays NULL.
unfoldable pub swap_in : (List Block → Option ℕ) → State → Outcome State
unfolding swap_in_from
swap_in malloc s =
    if is_empty s.normal_dispatch && is_empty s.rt_dispatch
    then swap_in_from malloc s s.swap
    else ok s

-- viii.a. The head of the highest queue that is not empty.
unfoldable pub choose_l2 : (List Block → Option ℕ) → State → Option (Pcb × List Pcb) → Outcome State
unfolding swap_in
choose_l2 malloc s (some (p, q)) = ok (record s { current = some p; l2 = q })
choose_l2 malloc s none = swap_in malloc s

unfoldable pub choose_l1 : (List Block → Option ℕ) → State → Option (Pcb × List Pcb) → Outcome State
unfolding choose_l2 deq_pcb
choose_l1 malloc s (some (p, q)) = ok (record s { current = some p; l1 = q })
choose_l1 malloc s none = choose_l2 malloc s (deq_pcb s.l2)

unfoldable pub choose_l0 : (List Block → Option ℕ) → State → Option (Pcb × List Pcb) → Outcome State
unfolding choose_l1 deq_pcb
choose_l0 malloc s (some (p, q)) = ok (record s { current = some p; l0 = q })
choose_l0 malloc s none = choose_l1 malloc s (deq_pcb s.l1)

unfoldable pub choose : (List Block → Option ℕ) → State → Outcome State
unfolding choose_l0 deq_pcb
choose malloc s = choose_l0 malloc s (deq_pcb s.l0)

abbrev pub is_suspended : Status → Bool
is_suspended Status.suspended = true
is_suspended _ = false

-- viii.b and c. `current_process->status` of NULL is a fault.
unfoldable pub launch_of : (State → Option ℕ) → State → Option Pcb → Outcome State
unfolding start_pcb print_pcb
launch_of fork s none = fault
launch_of fork s (some p) = do
  line ← (if is_suspended p.status then print_pcb s.memory_blocks p else ok [])
  p' ← start_pcb (fork s) p
  ok (record s { current = some p' })

unfoldable pub launch : (State → Option ℕ) → State → Outcome State
unfolding launch_of
launch fork s = launch_of fork s s.current

-- viii.
unfoldable pub dispatch :
    (List Block → Option ℕ) → (State → Option ℕ) → State → Bool → Outcome State
unfolding choose launch
dispatch malloc fork s check =
    if not check
      && is_null s.current
      && (not (is_empty s.l0)
          || not (is_empty s.l1)
          || not (is_empty s.l2)
          || not (is_empty s.swap))
    then (choose malloc s >>= launch fork)
    else ok s

-- ix.
unfoldable pub next_quantum : State → ℕ
next_quantum s = elim s.current [
  | some p ↦
      if p.priority == 0
      then p.remainingcputime
      else if p.priority == 1
      then min_int s.time_quantum p.remainingcputime
      else 1
  | none ↦
      if not (is_empty s.job_dispatch)
        && is_empty s.normal_dispatch
        && is_empty s.rt_dispatch
        && is_empty s.l0
        && is_empty s.l1
        && is_empty s.l2
      then 1
      else 0
]

-- ix to xi.
unfoldable pub advance : State → State
unfolding next_quantum
advance s = let q = next_quantum s in record s { quantum = q; timer = s.timer + q }

-- One pass of the main loop.
unfoldable pub one_round :
    FreedNode → (List Block → Option ℕ) → (State → Option ℕ) → State → Outcome State
unfolding unload expire admit_normal probe swap_out admit_rt turn dispatch advance
one_round freed malloc fork s = do
  (s1, check) ← expire freed (unload s)
  s2 ← admit_normal malloc s1
  (s3, victim) ← probe freed malloc s2
  s4 ← swap_out freed s3 victim
  s5 ← admit_rt malloc s4
  let (s6, check') = turn s5 check
  s7 ← dispatch malloc fork s6 check'
  ok (advance s7)

-- The main loop, for at most so many passes.
unfoldable pub main_loop :
    FreedNode → ℕ → (List Block → Option ℕ) → (State → Option ℕ) → State → Outcome State
unfolding is_busy one_round
main_loop freed zero malloc fork s = ok s
main_loop freed (suc n) malloc fork s =
    let rest = one_round freed malloc fork s >>= λ t. main_loop freed n malloc fork t in
    if is_busy s then rest else ok s
