-- ===== src/Dispatcher/Tests.antt =====
-- The dispatcher at a concrete job file, and a `fork` that meets the assumption on it.
use system_programming_and_d.Base.{
  Returns, ℕ, suc, ◌≤◌, ◌≡◌, refl, List, [], ◌∷◌, Option, none, some, arith, sum_of, Outcome, ok,
  fault, ◌>>=◌, Ensures, if◌then◌else◌, inl, inr,
}
use system_programming_and_d.Memory.{FreedNode, intact, mem_alloc, mem_free}
use system_programming_and_d.Memory.Tests.{next_address, next_address-IsFresh}
use system_programming_and_d.Pcb.{
  Pcb, create_null_pcb, find_max_remaining_time, remove_specific_job,
}
use system_programming_and_d.Pcb.Queue.{
  Removed, remove_specific_job-Removed, Chosen, find_max_remaining_time-Chosen,
}
use system_programming_and_d.Dispatcher.{
  State, Scan, scanned, partial, jammed, load_jobs, init_state, main_loop, is_busy, min_int,
  one_round, pick_victim,
}
use system_programming_and_d.Dispatcher.Invariant.{Inv, Runs, weigh, everyone, started}
use system_programming_and_d.Dispatcher.Swap.{Best, pick_victim-Best}
use system_programming_and_d.Dispatcher.Launch.{IsFreshPid}
use system_programming_and_d.Dispatcher.Run.{
  Sound, one_round-Sound, init_state-Inv, FromFile, FileBooked, AfterFile,
}
use system_programming_and_d.Dispatcher.Exits.{main_loop-Returns}
use system_programming_and_d.Dispatcher.Oversize.{starve, one_round_starved}

abbrev next_pid : State → Option ℕ
next_pid s = some (suc (everyone (λ p. p.pid) s))

below_pids : (n : ℕ) (q : List Pcb) → suc (sum_of (λ p. p.pid) q) ≤ n → sum_of (started n) q ≡ 0
below_pids n [] h = refl
below_pids n (p ∷ q) h = ground (arith, below_pids n q)

below_runner : (n : ℕ) (c : Option Pcb) → suc (weigh (λ p. p.pid) c) ≤ n → weigh (started n) c ≡ 0
below_runner n none h = refl
below_runner n (some p) h = ground arith

some_pid : (m n : ℕ) → ◌≡◌ {A = Option ℕ} (some m) (some n) → m ≡ n
some_pid m n e = cc

next_pid-IsFreshPid : IsFreshPid next_pid
next_pid-IsFreshPid s n e =
    let e' = some_pid (suc (everyone (λ p. p.pid) s)) n e in
    (
      omega arith,
      omega (
        arith,
        below_runner n s.current (omega arith),
        below_pids n s.l0 (omega arith),
        below_pids n s.l1 (omega arith),
        below_pids n s.l2 (omega arith),
        below_pids n s.job_dispatch (omega arith),
        below_pids n s.normal_dispatch (omega arith),
        below_pids n s.rt_dispatch (omega arith),
        below_pids n s.swap (omega arith),
      ),
    )

abbrev job : ℕ → ℕ → ℕ → ℕ → Scan
job a v p m = scanned (record { arrivaltime = a; servicetime = v; priority = p; mbytes = m })

-- A long normal job is swapped out for a real-time job, and comes back.
abbrev file : List Scan
file = job 0 5 1 800 ∷ job 2 3 0 600 ∷ job 9 1 1 64 ∷ partial ∷ []

abbrev loaded : List Pcb
loaded = elim (load_jobs 4 file []) [ none ↦ [] | some jobs ↦ jobs ]

-- A line that is no number is never passed.
never_read : load_jobs 50 (job 0 5 1 800 ∷ jammed ∷ job 9 1 1 64 ∷ []) [] ≡ none
unfolding load_jobs
never_read = refl

abbrev summary : State → List ℕ
summary t =
    t.timer ∷ t.n_process ∷ t.accumulated_arrival_times ∷ t.accumulated_service_times
    ∷ t.accumulated_finish_times ∷ []

abbrev result : FreedNode → Outcome (List ℕ)
result freed = main_loop freed 60 next_address next_pid (init_state 0 loaded 2) >>= λ t.
    ok ((if is_busy t then 1 else 0) ∷ summary t)

result_lem : result intact ≡ ok (0 ∷ 10 ∷ 3 ∷ 11 ∷ 9 ∷ 24 ∷ [])
unfolding main_loop init_state load_jobs is_busy mem_alloc mem_free min_int find_max_remaining_time
    remove_specific_job
result_lem = refl

main_loop-Returns_example :
    AfterFile (Returns (λ t. Inv t × FileBooked file t)) intact next_address next_pid 0 file 2 60
main_loop-Returns_example =
    main_loop-Returns next_address next_pid (λ bs. (_, refl)) (λ s. (_, refl)) intact 0 file 2 60
      next_address-IsFresh next_pid-IsFreshPid (omega arith)

loaded-FromFile : FromFile file loaded
unfolding load_jobs
loaded-FromFile w = omega arith

abbrev fresh_start : State
fresh_start = init_state 0 loaded 2

fresh_start-Inv : Inv fresh_start
fresh_start-Inv = init_state-Inv 0 file loaded 2 (omega arith) loaded-FromFile

fresh_start-Runs : Runs fresh_start
unfolding init_state
fresh_start-Runs = refl

one_round-Sound_example :
    Ensures (Sound fresh_start) (one_round intact next_address next_pid fresh_start)
one_round-Sound_example =
    one_round-Sound next_address next_pid next_address-IsFresh next_pid-IsFreshPid intact
      fresh_start fresh_start-Inv fresh_start-Runs

abbrev proc : ℕ → ℕ → Pcb
proc pid time = record create_null_pcb { pid = pid; remainingcputime = time }

abbrev level2 : List Pcb
level2 = proc 4 7 ∷ proc 5 9 ∷ proc 6 2 ∷ []

pick_victim-Best_example :
    Returns (Best level2 (some (proc 8 3))) (pick_victim level2 (some (proc 8 3)))
pick_victim-Best_example = pick_victim-Best level2 (some (proc 8 3))

find_max_remaining_time-Chosen_example : Chosen level2 (find_max_remaining_time level2)
find_max_remaining_time-Chosen_example = find_max_remaining_time-Chosen level2

remove_specific_job-Removed_example :
    Returns (Removed level2 (proc 5 9)) (remove_specific_job level2 (proc 5 9))
remove_specific_job-Removed_example =
    remove_specific_job-Removed level2 (proc 5 9) (inr (inl refl)) (omega arith)

abbrev big_job : Pcb
big_job = record create_null_pcb { mbytes = 2000 }

one_round_starved_example :
    one_round intact next_address next_pid (starve fresh_start big_job [] (proc 4 1) []) ≡ fault
one_round_starved_example =
    one_round_starved intact next_address next_pid fresh_start big_job (proc 4 1) [] []
      fresh_start-Inv.shape.tiled (omega arith)
