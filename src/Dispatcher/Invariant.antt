-- ===== src/Dispatcher/Invariant.antt =====
-- The invariant of the dispatcher between and within passes: the memory's blocks are owned by the
-- jobs that are in memory, one each, and pids are distinct.
use system_programming_and_d.Base.{
  Returns, ℕ, ◌+◌, ◌≤◌, ◌≡◌, List, Option, none, some, arith, leb, ◌==◌, if◌then◌else◌, sum_of,
  Outcome, Ensures, ◌∙◌, refl,
}
use system_programming_and_d.Memory.{Block, intact, memory_size, mem_free}
use system_programming_and_d.Memory.Shape.{IsArena, held}
use system_programming_and_d.Memory.Free.{Freed, mem_free-Freed}
use system_programming_and_d.Pcb.{Pcb}
use system_programming_and_d.Dispatcher.{State}

abbrev pub weigh : (Pcb → ℕ) → Option Pcb → ℕ
weigh w none = 0
weigh w (some p) = w p

-- Over the jobs in memory: the running one and those of the three levels.
abbrev pub resident : (Pcb → ℕ) → State → ℕ
resident w s = weigh w s.current + sum_of w s.l0 + sum_of w s.l1 + sum_of w s.l2

-- Over all jobs that are not finished.
abbrev pub everyone : (Pcb → ℕ) → State → ℕ
everyone w s =
    resident w s
    + sum_of w s.job_dispatch
    + sum_of w s.normal_dispatch
    + sum_of w s.rt_dispatch
    + sum_of w s.swap

abbrev pub points_to : ℕ → Option ℕ → ℕ
points_to a none = 0
points_to a (some b) = if b == a then 1 else 0

abbrev pub owner : ℕ → Pcb → ℕ
owner a p = points_to a p.memoryblock

abbrev pub is_none_count : Option ℕ → ℕ
is_none_count none = 1
is_none_count (some a) = 0

abbrev pub unplaced : Pcb → ℕ
unplaced p = is_none_count p.memoryblock

abbrev pub oversize : Pcb → ℕ
oversize p = if leb p.mbytes memory_size then 0 else 1

abbrev pub unstarted : Pcb → ℕ
unstarted p = if p.pid == 0 then 1 else 0

abbrev pub started : ℕ → Pcb → ℕ
started x p = if p.pid == 0 then 0 else if p.pid == x then 1 else 0

pub record Inv (s : State) : Type 0 where
  pub shape : IsArena s.memory_blocks
  pub owned : (a : ℕ) → held a s.memory_blocks ≡ resident (owner a) s
  pub placed : resident unplaced s ≡ 0
  pub sized : everyone oversize s ≡ 0
  pub pids : (x : ℕ) → everyone (started x) s ≤ 1
  pub begun : sum_of unstarted s.l2 + sum_of unstarted s.swap ≡ 0

-- The running process has a pid.
abbrev pub Runs : State → Type 0
Runs s = weigh unstarted s.current ≡ 0

pub record GivenBack (rest : ℕ → ℕ) (r : List Block) : Type 0 where
  pub shape : IsArena r
  pub holds : (a : ℕ) → held a r ≡ rest a

-- Freeing the block of a job in memory.
pub mem_free-GivenBack :
    (arena : List Block) (p : Pcb) (rest : ℕ → ℕ)
    → IsArena arena
    → ((a : ℕ) → held a arena ≡ rest a + owner a p)
    → unplaced p ≡ 0
    → Ensures (GivenBack rest) (mem_free intact arena p.memoryblock)
mem_free-GivenBack arena p rest h owned placed = go p.memoryblock placed owned
  where
    self : (a : ℕ) → points_to a (some a) ≡ 1
    self a = ground arith

    weaken :
        (a : ℕ) (r : List Block)
        → ((x : ℕ) → held x arena ≡ rest x + points_to x (some a))
        → Freed arena a r
        → GivenBack rest r
    weaken a r o f = record { shape = f.shape; holds = λ x. ground (arith, f.holds x, o x) }

    lift :
        (a : ℕ) (m : Outcome (List Block))
        → ((x : ℕ) → held x arena ≡ rest x + points_to x (some a))
        → Returns (Freed arena a) m
        → Ensures (GivenBack rest) m
    lift a (Outcome.ok r) o f = weaken a r o f
    lift a (Outcome.exits c) o f = absurd f
    lift a Outcome.fault o f = f

    go :
        (m : Option ℕ)
        → is_none_count m ≡ 0
        → ((a : ℕ) → held a arena ≡ rest a + points_to a m)
        → Ensures (GivenBack rest) (mem_free intact arena m)
    go none e o = absurd (omega arith)
    go (some a) e o = lift a _ o (mem_free-Freed intact arena a h (omega (arith, o a, self a)))

-- A weight that reads only what a phase leaves alone, but for the pid that `fork` gives.
abbrev pub attr : (ℕ → ℕ → ℕ → ℕ → ℕ) → Pcb → ℕ
attr v p = v p.pid p.arrivaltime p.servicetime p.mbytes

-- No job is lost, made up or changed in these attributes, and nothing is booked.
pub record Keeps (s t : State) : Type 0 where
  pub jobs : (v : ℕ → ℕ → ℕ → ℕ → ℕ) → everyone (attr v) t ≡ everyone (attr v) s
  pub n_process : t.n_process ≡ s.n_process
  pub arrivals : t.accumulated_arrival_times ≡ s.accumulated_arrival_times
  pub services : t.accumulated_service_times ≡ s.accumulated_service_times

pub Keeps-refl : (s : State) → Keeps s s
Keeps-refl s = record { jobs = λ v. refl; n_process = refl; arrivals = refl; services = refl }

pub Keeps-trans : (s t u : State) → Keeps s t → Keeps t u → Keeps s u
Keeps-trans s t u h k = record {
  jobs = λ v. k.jobs v ∙ h.jobs v;
  n_process = k.n_process ∙ h.n_process;
  arrivals = k.arrivals ∙ h.arrivals;
  services = k.services ∙ h.services;
}

abbrev pub oversize_v : ℕ → ℕ → ℕ → ℕ → ℕ
oversize_v pid a v m = if leb m memory_size then 0 else 1

abbrev pub started_v : ℕ → ℕ → ℕ → ℕ → ℕ → ℕ
started_v x pid a v m = if pid == 0 then 0 else if pid == x then 1 else 0

-- The two parts of the invariant that a phase keeps because it keeps the jobs.
pub Keeps-sized : (s t : State) → Inv s → Keeps s t → everyone oversize t ≡ 0
Keeps-sized s t i k = k.jobs oversize_v ∙ i.sized

pub Keeps-pids : (s t : State) → Inv s → Keeps s t → (x : ℕ) → everyone (started x) t ≤ 1
Keeps-pids s t i k x = rw (k.jobs (started_v x)) (i.pids x)

-- What a phase does that neither ends a job nor starts one.
pub record Good (s t : State) : Type 0 where
  pub inv : Inv t
  pub keeps : Keeps s t

pub Good-refl : (s : State) → Inv s → Good s s
Good-refl s i = record { inv = i; keeps = Keeps-refl s }

pub Good-trans : (s t u : State) → Good s t → Good t u → Good s u
Good-trans s t u h k = record { inv = k.inv; keeps = Keeps-trans s t u h.keeps k.keeps }

-- The parts of the invariant that say more than `Keeps`.
pub Good-intro :
    (s t : State)
    → Inv s
    → Keeps s t
    → IsArena t.memory_blocks
    → ((a : ℕ) → held a t.memory_blocks ≡ resident (owner a) t)
    → resident unplaced t ≡ 0
    → sum_of unstarted t.l2 + sum_of unstarted t.swap ≡ 0
    → Good s t
Good-intro s t i k shape owned placed begun = record {
  inv = record {
    shape = shape;
    owned = owned;
    placed = placed;
    sized = Keeps-sized s t i k;
    pids = Keeps-pids s t i k;
    begun = begun;
  };
  keeps = k;
}

abbrev pub one : ℕ → ℕ → ℕ → ℕ → ℕ
one p a v m = 1

-- How many jobs are in memory.
abbrev pub residents : State → ℕ
residents = resident (attr one)

abbrev pub arrival_v : ℕ → ℕ → ℕ → ℕ → ℕ
arrival_v pid a v m = a

abbrev pub service_v : ℕ → ℕ → ℕ → ℕ → ℕ
service_v pid a v m = v

-- The books: what the counters say and what is still to come add up to the same.
pub record Booked (s t : State) : Type 0 where
  pub n_process : t.n_process + everyone (attr one) t ≡ s.n_process + everyone (attr one) s
  pub arrivals :
      t.accumulated_arrival_times + everyone (attr arrival_v) t
      ≡ s.accumulated_arrival_times + everyone (attr arrival_v) s
  pub services :
      t.accumulated_service_times + everyone (attr service_v) t
      ≡ s.accumulated_service_times + everyone (attr service_v) s

pub Keeps-Booked : (s t : State) → Keeps s t → Booked s t
Keeps-Booked s t k = record {
  n_process = omega (arith, k.n_process, k.jobs one);
  arrivals = omega (arith, k.arrivals, k.jobs arrival_v);
  services = omega (arith, k.services, k.jobs service_v);
}

pub Booked-trans : (s t u : State) → Booked s t → Booked t u → Booked s u
Booked-trans s t u h k = record {
  n_process = k.n_process ∙ h.n_process;
  arrivals = k.arrivals ∙ h.arrivals;
  services = k.services ∙ h.services;
}
