-- ===== src/Dispatcher/Exits.antt =====
-- The dispatcher and the end of the process by `exit`.
use system_programming_and_d.Base.{
  ℕ, zero, suc, Bool, List, [], ◌∷◌, Option, none, some, leb, ◌==◌, not, ◌&&◌, ◌||◌, if◌then◌else◌,
  Outcome, ok, fault, Returns, Stays, Stays-bind, Stays-if, Ensures-Returns,
}
use system_programming_and_d.Memory.{Block, FreedNode, intact, Cursor, mem_alloc, mem_free, seek}
use system_programming_and_d.Memory.Alloc.{IsFresh}
use system_programming_and_d.Memory.Exits.{Succeeds, mem_alloc-Stays, mem_free-Stays}
use system_programming_and_d.Pcb.{
  Pcb, start_pcb, row, print_at, print_pcb, remove_after, remove_specific_job,
  find_max_remaining_time, deq_pcb,
}
use system_programming_and_d.Dispatcher.{
  State, Scan, init_state, is_empty, is_null, is_busy, unload, finish, expire_of, expire, Queues,
  admit_or_stop, admit, admit_normal, admit_rt, Victim, nobody, runner, queued, compare_with_runner,
  pick_victim, tried, probe_for, probe, swap_away, charge, has_pid_of, swap_runner, swap_out, turn,
  swapped_in, swap_in_from, swap_in, choose_l2, choose_l1, choose_l0, choose, is_suspended,
  launch_of, launch, dispatch, one_round, main_loop,
}
use system_programming_and_d.Dispatcher.Invariant.{Inv}
use system_programming_and_d.Dispatcher.Freed.{main_loop-Agrees, Unless, Unless-intro}
use system_programming_and_d.Dispatcher.Launch.{IsFreshPid}
use system_programming_and_d.Dispatcher.Run.{
  AllFit, FileBooked, AfterFile, main_loop-FileBooked_intact,
}

expire_of-Stays : (s : State) (c : Option Pcb) → Stays (expire_of intact s c)
unfolding expire_of finish
expire_of-Stays s none = tt
expire_of-Stays s (some p) =
    Stays-if (leb p.remainingcputime s.quantum) _ _
      (Stays-bind (mem_free intact s.memory_blocks p.memoryblock) _
        (mem_free-Stays s.memory_blocks p.memoryblock) (λ a. tt))
      tt

pick-Stays :
    (c r : Option Pcb)
    → Stays {A = Victim} (elim r [ none ↦ fault | some v ↦ ok (compare_with_runner c v) ])
pick-Stays c none = tt
pick-Stays c (some v) = tt

pick_victim-Stays : (l2 : List Pcb) (c : Option Pcb) → Stays (pick_victim l2 c)
unfolding pick_victim
pick_victim-Stays [] c = tt
pick_victim-Stays (q ∷ qs) c = pick-Stays c (find_max_remaining_time (q ∷ qs))

tried-Stays : (s : State) (r : Option ℕ × List Block) → Stays (tried intact s r)
unfolding tried
tried-Stays s (some a, arena) =
    Stays-bind (mem_free intact arena (some a)) _ (mem_free-Stays arena (some a)) (λ b. tt)
tried-Stays s (none, arena) =
    Stays-bind (pick_victim s.l2 s.current) _ (pick_victim-Stays s.l2 s.current) (λ b. tt)

swap_away-Stays : (s : State) (p : Pcb) → Stays (swap_away intact s p)
unfolding swap_away
swap_away-Stays s p =
    Stays-bind (mem_free intact s.memory_blocks p.memoryblock) _
      (mem_free-Stays s.memory_blocks p.memoryblock) (λ a. tt)

swap_runner-Stays : (s : State) (c : Option Pcb) → Stays (swap_runner intact s c)
unfolding swap_runner
swap_runner-Stays s none = tt
swap_runner-Stays s (some p) = swap_away-Stays _ (charge s p)

remove_after-Stays : (q : List Pcb) (pid : ℕ) → Stays (remove_after q pid)
unfolding remove_after
remove_after-Stays [] pid = tt
remove_after-Stays (q ∷ qs) pid =
    Stays-if (q.pid == pid) _ _ tt
      (Stays-bind (remove_after qs pid) _ (remove_after-Stays qs pid) (λ r. tt))

remove_specific_job-Stays : (q : List Pcb) (p : Pcb) → Stays (remove_specific_job q p)
unfolding remove_specific_job
remove_specific_job-Stays [] p = tt
remove_specific_job-Stays (h ∷ q) p =
    Stays-if (h.pid == p.pid) _ _ tt
      (Stays-bind (remove_after q p.pid) _ (remove_after-Stays q p.pid) (λ r. tt))

swap_out-Stays : (s : State) (v : Victim) → Stays (swap_out intact s v)
unfolding swap_out
swap_out-Stays s nobody = tt
swap_out-Stays s runner = swap_runner-Stays s s.current
swap_out-Stays s (queued v) = Stays-if (has_pid_of s.current v) _ _ (swap_away-Stays _ v) (
    Stays-bind (remove_specific_job s.l2 v) _ (remove_specific_job-Stays s.l2 v)
      (λ q. swap_away-Stays _ v))

swapped_in-Stays :
    (s : State) (p : Pcb) (ps : List Pcb) (r : Option ℕ × List Block) → Stays (swapped_in s p ps r)
unfolding swapped_in
swapped_in-Stays s p ps (none, arena) = tt
swapped_in-Stays s p ps (some a, arena) = tt

row-Stays : (p : Pcb) (r : Option Cursor) → Stays (row p r)
unfolding row
row-Stays p none = tt
row-Stays p (some c) = tt

print_at-Stays : (arena : List Block) (p : Pcb) (m : Option ℕ) → Stays (print_at arena p m)
unfolding print_at
print_at-Stays arena p none = tt
print_at-Stays arena p (some a) = row-Stays p (seek [] arena a)

module _ (malloc : List Block → Option ℕ) (fork : State → Option ℕ) (hm : Succeeds malloc)
    (hf : Succeeds fork) where
  admit_or_stop-Stays :
      (again : List Block → List Pcb → Outcome Queues) (j : Pcb) (js level : List Pcb)
      (r : Option ℕ × List Block)
      → ((arena : List Block) (l : List Pcb) → Stays (again arena l))
      → Stays (admit_or_stop again j js level r)
  unfolding admit_or_stop
  admit_or_stop-Stays again j js level (none, arena) h = tt
  admit_or_stop-Stays again j js level (some a, arena) h = h arena _

  admit-Stays : (arena : List Block) (q level : List Pcb) → Stays (admit malloc arena q level)
  unfolding admit
  admit-Stays arena [] level = tt
  admit-Stays arena (j ∷ js) level =
      Stays-bind (mem_alloc malloc arena j.mbytes) _ (mem_alloc-Stays malloc arena j.mbytes hm)
        (λ r. admit_or_stop-Stays _ j js level r (λ arena' l. admit-Stays arena' js l))

  admit_normal-Stays : (s : State) → Stays (admit_normal malloc s)
  unfolding admit_normal
  admit_normal-Stays s =
      Stays-if (is_empty s.rt_dispatch) _ _
        (Stays-bind (admit malloc s.memory_blocks s.normal_dispatch s.l1) _
          (admit-Stays s.memory_blocks s.normal_dispatch s.l1) (λ r. tt))
        tt

  admit_rt-Stays : (s : State) → Stays (admit_rt malloc s)
  unfolding admit_rt
  admit_rt-Stays s =
      Stays-bind (admit malloc s.memory_blocks s.rt_dispatch s.l0) _
        (admit-Stays s.memory_blocks s.rt_dispatch s.l0) (λ r. tt)

  probe_for-Stays : (s : State) (q : List Pcb) → Stays (probe_for intact malloc s q)
  unfolding probe_for
  probe_for-Stays s [] = tt
  probe_for-Stays s (j ∷ js) =
      Stays-bind (mem_alloc malloc s.memory_blocks j.mbytes) _
        (mem_alloc-Stays malloc s.memory_blocks j.mbytes hm) (tried-Stays s)

  swap_in_from-Stays : (s : State) (q : List Pcb) → Stays (swap_in_from malloc s q)
  unfolding swap_in_from
  swap_in_from-Stays s [] = tt
  swap_in_from-Stays s (p ∷ ps) =
      Stays-bind (mem_alloc malloc s.memory_blocks p.mbytes) _
        (mem_alloc-Stays malloc s.memory_blocks p.mbytes hm) (swapped_in-Stays s p ps)

  swap_in-Stays : (s : State) → Stays (swap_in malloc s)
  unfolding swap_in
  swap_in-Stays s =
      Stays-if (is_empty s.normal_dispatch && is_empty s.rt_dispatch) _ _
        (swap_in_from-Stays s s.swap) tt

  choose_l2-Stays : (s : State) (r : Option (Pcb × List Pcb)) → Stays (choose_l2 malloc s r)
  unfolding choose_l2
  choose_l2-Stays s none = swap_in-Stays s
  choose_l2-Stays s (some (p, q)) = tt

  choose_l1-Stays : (s : State) (r : Option (Pcb × List Pcb)) → Stays (choose_l1 malloc s r)
  unfolding choose_l1
  choose_l1-Stays s none = choose_l2-Stays s (deq_pcb s.l2)
  choose_l1-Stays s (some (p, q)) = tt

  choose_l0-Stays : (s : State) (r : Option (Pcb × List Pcb)) → Stays (choose_l0 malloc s r)
  unfolding choose_l0
  choose_l0-Stays s none = choose_l1-Stays s (deq_pcb s.l1)
  choose_l0-Stays s (some (p, q)) = tt

  start_pcb-Stays : (s : State) (p : Pcb) → Stays (start_pcb (fork s) p)
  unfolding start_pcb
  start_pcb-Stays s p = let (n, e) = hf s in rw e (Stays-if (p.pid == 0) _ _ tt tt)

  launch_of-Stays : (s : State) (c : Option Pcb) → Stays (launch_of fork s c)
  unfolding launch_of print_pcb
  launch_of-Stays s none = tt
  launch_of-Stays s (some p) =
      Stays-bind (if is_suspended p.status then print_at s.memory_blocks p p.memoryblock else ok [])
        _ (Stays-if (is_suspended p.status) _ _ (print_at-Stays s.memory_blocks p p.memoryblock) tt)
        λ line. Stays-bind (start_pcb (fork s) p) _ (start_pcb-Stays s p) (λ p'. tt)

  dispatch-Stays : (s : State) (check : Bool) → Stays (dispatch malloc fork s check)
  unfolding dispatch choose launch
  dispatch-Stays s check =
      Stays-if
        (not check
          && is_null s.current
          && (not (is_empty s.l0)
              || not (is_empty s.l1)
              || not (is_empty s.l2)
              || not (is_empty s.swap)))
        _ (ok s)
        (Stays-bind (choose_l0 malloc s (deq_pcb s.l0)) _ (choose_l0-Stays s (deq_pcb s.l0))
          (λ t. launch_of-Stays t t.current))
        tt

  one_round-Stays : (s : State) → Stays (one_round intact malloc fork s)
  unfolding one_round expire probe
  one_round-Stays s =
      Stays-bind (expire_of intact (unload s) (unload s).current) _
        (expire_of-Stays (unload s) (unload s).current)
        λ r1. Stays-bind (admit_normal malloc r1.0) _ (admit_normal-Stays r1.0) λ s2.
          Stays-bind (probe_for intact malloc s2 s2.rt_dispatch) _
            (probe_for-Stays s2 s2.rt_dispatch)
            λ r3. Stays-bind (swap_out intact r3.0 r3.1) _ (swap_out-Stays r3.0 r3.1) λ s4.
              Stays-bind (admit_rt malloc s4) _ (admit_rt-Stays s4) λ s5.
                Stays-bind (dispatch malloc fork (turn s5 r1.1).0 (turn s5 r1.1).1) _
                  (dispatch-Stays (turn s5 r1.1).0 (turn s5 r1.1).1) (λ s7. tt)

  main_loop-Stays : (n : ℕ) (s : State) → Stays (main_loop intact n malloc fork s)
  unfolding main_loop
  main_loop-Stays zero s = tt
  main_loop-Stays (suc n) s =
      Stays-if (is_busy s) _ _
        (Stays-bind (one_round intact malloc fork s) _ (one_round-Stays s) (main_loop-Stays n)) tt

  -- From a file that is read without getting stuck and whose jobs all fit into the memory, with a
  -- `malloc` and a `fork` that never fail and return nothing in use: the file is read to its end, and
  -- any number of passes is done. Each returns, the memory is in order and owned by the jobs in it,
  -- and finished and unfinished jobs make up the file. Where the C library does not leave a freed
  -- node intact until the next `malloc`, it is so or the run ends in a fault.
  pub main_loop-Returns :
      (freed : FreedNode) (first : ℕ) (file : List Scan) (time_quantum passes : ℕ)
      → IsFresh malloc
      → IsFreshPid fork
      → AllFit file
      → AfterFile
          (Unless freed (Returns (λ t. Inv t × FileBooked file t)))
          freed
          malloc
          fork
          first
          file
          time_quantum
          passes
  main_loop-Returns freed first file time_quantum passes fm ff fit =
      let (jobs, read, sound) =
        main_loop-FileBooked_intact malloc fork first file time_quantum passes fm ff fit in
      let s = init_state first jobs time_quantum in
      (
        jobs,
        read,
        Unless-intro freed (Returns (λ t. Inv t × FileBooked file t))
            (λ fr. main_loop fr passes malloc fork s) (main_loop-Agrees malloc fork passes s)
            (Ensures-Returns (λ t. Inv t × FileBooked file t)
              (main_loop intact passes malloc fork s) sound (main_loop-Stays passes s)),
      )
