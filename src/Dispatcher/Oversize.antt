-- ===== src/Dispatcher/Oversize.antt =====
-- A job that is larger than the memory, which the source does not reject.
use system_programming_and_d.Base.{
  ℕ, ◌+◌, ◌≤◌, ◌<◌, ◌≡◌, List, [], ◌∷◌, Option, none, arith, ok, fault, refl, Bool, true,
}
use system_programming_and_d.Memory.{Block, FreedNode, memory_size, mem_chk, serve, mem_alloc}
use system_programming_and_d.Memory.Shape.{Ahead, IsTiled}
use system_programming_and_d.Pcb.{Pcb, deq_pcb}
use system_programming_and_d.Dispatcher.{
  State, unload_from, unload, expire_of, expire, admit_or_stop, admit, admit_normal, probe_for,
  probe, swap_out, admit_rt, turn_of, turn, choose, choose_l0, choose_l1, choose_l2, swap_in,
  launch, launch_of, dispatch, one_round,
}

start-le : (o : ℕ) (f : Bool) (bs : List Block) → Ahead o f bs → o ≤ memory_size
start-le o f [] h = omega arith
start-le o f (b ∷ bs) h = omega (arith, start-le (b.offset + b.size) b.allocated bs h.2, h.0)

-- No block of a tiled memory is larger than the memory.
mem_chk_oversize :
    (before bs : List Block) (o : ℕ) (f : Bool) (size : ℕ)
    → Ahead o f bs
    → memory_size < size
    → mem_chk before bs size ≡ none
unfolding mem_chk
mem_chk_oversize before [] o f size h big = refl
mem_chk_oversize before (b ∷ bs) o f size h big = ground (
  arith,
  mem_chk_oversize (b ∷ before) bs (b.offset + b.size) b.allocated size h.2 big,
  start-le _ b.allocated bs h.2,
)

mem_alloc_oversize :
    (malloc : List Block → Option ℕ) (arena : List Block) (size : ℕ)
    → IsTiled arena
    → memory_size < size
    → mem_alloc malloc arena size ≡ ok (none, arena)
unfolding mem_alloc serve
mem_alloc_oversize malloc arena size h big = rw (mem_chk_oversize [] arena 0 true size h big)

-- Nothing runs or is ready, no job is still to arrive and no real-time job waits; the swapped job
-- `p` is left, and the arrived normal job `j` waits.
abbrev pub starve : State → Pcb → List Pcb → Pcb → List Pcb → State
starve s j js p ps = record s {
  job_dispatch = [];
  normal_dispatch = j ∷ js;
  rt_dispatch = [];
  l0 = [];
  l1 = [];
  l2 = [];
  swap = p ∷ ps;
  current = none;
}

-- In such a state, where the waiting job is larger than the memory and the blocks tile it, the pass
-- faults, whatever `free` leaves of a node: it reads `current_process->status` through NULL.
pub one_round_starved :
    (freed : FreedNode) (malloc : List Block → Option ℕ) (fork : State → Option ℕ) (s : State)
    (j p : Pcb) (js ps : List Pcb)
    → IsTiled s.memory_blocks
    → memory_size < j.mbytes
    → one_round freed malloc fork (starve s j js p ps) ≡ fault
unfolding one_round unload unload_from expire expire_of admit_normal admit admit_or_stop probe
    probe_for swap_out admit_rt turn turn_of dispatch choose choose_l0 choose_l1 choose_l2 deq_pcb
    swap_in launch launch_of
one_round_starved freed malloc fork s j p js ps h big =
    rw (mem_alloc_oversize malloc s.memory_blocks j.mbytes h big) refl
