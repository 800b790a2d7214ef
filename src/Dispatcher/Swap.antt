-- ===== src/Dispatcher/Swap.antt =====
-- Phases iii, iv.b and v: the end of a job, the choice of the job to swap out, and swapping it out.
use system_programming_and_d.Base.{
  Returns, Returns-Ensures, ℕ, ◌+◌, ◌≤◌, ◌≡◌, ◌≢◌, List, [], ◌∷◌, Option, none, some, arith, ltb,
  leb, ◌&&◌, ◌==◌, sum_of, ◌⊎◌, inl, inr, ok, fault, Ensures, Ensures-bind, ap, ◌∙◌, refl, Bool,
  false, Bool-cases,
}
use system_programming_and_d.Memory.{Block, intact, mem_alloc, mem_free}
use system_programming_and_d.Memory.Shape.{IsArena, held}
use system_programming_and_d.Memory.Alloc.{IsFresh, Allocated, mem_alloc-Allocated}
use system_programming_and_d.Memory.Free.{Freed, mem_free-Freed}
use system_programming_and_d.Pcb.{Pcb, enq_pcb, find_max_remaining_time, remove_specific_job}
use system_programming_and_d.Pcb.Queue.{
  sum_of-enq_pcb, Within, Within-le, Longest, Chosen, find_max_remaining_time-Chosen, Removed,
  remove_specific_job-Removed, pid_of,
}
use system_programming_and_d.Dispatcher.{
  State, finish, expire_of, expire, Victim, nobody, runner, queued, runs_at_level2,
  compare_with_runner, pick_victim, tried, probe_for, probe, swap_away, charge, swap_runner,
  has_pid_of, swap_out, is_empty,
}
use system_programming_and_d.Dispatcher.Invariant.{
  Inv, Runs, Keeps-refl, Keeps-Booked, Booked, Good, Good-refl, Good-intro, resident, everyone,
  owner, unplaced, unstarted, started, attr, one, weigh, GivenBack, mem_free-GivenBack, arrival_v,
  service_v,
}

-- What iii does: the invariant holds, and an ended job is booked.
pub record AfterExpire (s t : State) : Type 0 where
  pub inv : Inv t
  pub runs : Runs t
  pub booked : Booked s t

finish-AfterExpire :
    (s : State) (p : Pcb)
    → Inv s
    → s.current ≡ some p
    → Ensures (λ r. AfterExpire s r.0) (finish intact s p)
unfolding finish
finish-AfterExpire s p i e =
    Ensures-bind (GivenBack others) (λ r. AfterExpire s r.0)
      (mem_free intact s.memory_blocks p.memoryblock) _
      (mem_free-GivenBack s.memory_blocks p others i.shape
        (λ a. omega (arith, i.owned a, current (owner a)))
        (omega (arith, i.placed, current unplaced)))
      λ r g. record {
        inv = record {
          shape = g.shape;
          owned = λ a. omega (arith, g.holds a);
          placed = omega (arith, i.placed);
          sized = omega (arith, i.sized);
          pids = λ x. omega (arith, i.pids x);
          begun = i.begun;
        };
        runs = refl;
        booked = record {
          n_process = omega (arith, current (attr one));
          arrivals = omega (arith, current (attr arrival_v));
          services = omega (arith, current (attr service_v));
        };
      }
  where
    others : ℕ → ℕ
    others a = sum_of (owner a) s.l0 + sum_of (owner a) s.l1 + sum_of (owner a) s.l2

    current : (w : Pcb → ℕ) → weigh w s.current ≡ w p
    current w = ap (weigh w) e

pub expire-AfterExpire :
    (s : State) → Inv s → Runs s → Ensures (λ r. AfterExpire s r.0) (expire intact s)
unfolding expire expire_of
expire-AfterExpire s i run = go s.current refl
  where
    same : AfterExpire s s
    same = record { inv = i; runs = run; booked = Keeps-Booked s s (Keeps-refl s) }

    go :
        (c : Option Pcb)
        → s.current ≡ c
        → Ensures (λ (r : State × Bool). AfterExpire s r.0) (expire_of intact s c)
    go none e = same
    go (some p) e = elim (Bool-cases (leb p.remainingcputime s.quantum)) [
      | inl over ↦ rw over (finish-AfterExpire s p i e)
      | inr not_yet ↦ rw not_yet same
    ]

-- A victim is a level 2 job, of the queue or running, that no level 2 job outlasts; nobody is
-- chosen only if there is none.
abbrev pub Best : List Pcb → Option Pcb → Victim → Type 0
Best l2 c nobody = (l2 ≡ []) × (runs_at_level2 c ≡ false)
Best l2 c runner = (p : Pcb) × (c ≡ some p) × (p.priority ≡ 2) × Longest p l2
Best l2 c (queued v) =
    Within v l2
    × Longest v l2
    × ((p : Pcb) → c ≡ some p → p.priority ≡ 2 → p.remainingcputime ≤ v.remainingcputime)

Longest-mono :
    (p r : Pcb) (q : List Pcb) → p.remainingcputime ≤ r.remainingcputime → Longest p q → Longest r q
Longest-mono p r [] le h = tt
Longest-mono p r (x ∷ q) le h = (omega arith, Longest-mono p r q le h.1)

compare_with_runner-Best :
    (l2 : List Pcb) (c : Option Pcb) (v : Pcb)
    → Within v l2
    → Longest v l2
    → Best l2 c (compare_with_runner c v)
unfolding compare_with_runner
compare_with_runner-Best l2 none v m h = (m, h, λ p e. cc)
compare_with_runner-Best l2 (some p) v m h =
    elim (Bool-cases (p.priority == 2 && ltb v.remainingcputime p.remainingcputime)) [
      | inl more ↦ rw more (p, refl, ground arith, Longest-mono v p l2 (ground arith) h)
      | inr less ↦ rw less (
        m,
        h,
        λ q e two.
            ground (arith, ap (weigh (λ x. x.priority)) e, ap (weigh (λ x. x.remainingcputime)) e),
      )
    ]

-- iv.b.C chooses a level 2 job, of the queue or running, that no level 2 job outlasts, and nobody
-- only if there is none; the assertion holds.
pub pick_victim-Best : (l2 : List Pcb) (c : Option Pcb) → Returns (Best l2 c) (pick_victim l2 c)
unfolding pick_victim
pick_victim-Best [] none = (refl, refl)
pick_victim-Best [] (some p) = elim (Bool-cases (p.priority == 2)) [
  | inl two ↦ rw two (p, refl, ground arith, tt)
  | inr other ↦ rw other (refl, other)
]
pick_victim-Best (q ∷ qs) c =
    go (find_max_remaining_time (q ∷ qs)) (find_max_remaining_time-Chosen (q ∷ qs))
  where
    go :
        (r : Option Pcb)
        → Chosen (q ∷ qs) r
        → Returns
            (Best (q ∷ qs) c)
            (elim r [ none ↦ fault | some v ↦ ok (compare_with_runner c v) ])
    go none k = cc
    go (some v) k = compare_with_runner-Best (q ∷ qs) c v k.0 k.1

-- What iv.b does: nothing changes but the order of addresses, and a victim is the best.
pub record AfterProbe (s : State) (r : State × Victim) : Type 0 where
  pub good : Good s r.0
  pub runner_kept : r.0.current ≡ s.current
  pub normal : r.0.normal_dispatch ≡ s.normal_dispatch
  pub rt : r.0.rt_dispatch ≡ s.rt_dispatch
  pub level : r.0.l2 ≡ s.l2
  pub best : (r.1 ≡ nobody) ⊎ Best s.l2 s.current r.1
  pub idle : s.rt_dispatch ≡ [] → (r.0 ≡ s) × (r.1 ≡ nobody)

module _ (s : State) (i : Inv s) where
  with_memory-Good :
      (r : List Block)
      → IsArena r
      → ((a : ℕ) → held a r ≡ held a s.memory_blocks)
      → Good s (record s { memory_blocks = r })
  with_memory-Good r h same =
      Good-intro s (record s { memory_blocks = r }) i
        (record { jobs = λ v. refl; n_process = refl; arrivals = refl; services = refl }) h
        (λ a. same a ∙ i.owned a) i.placed i.begun

  tried-AfterProbe :
      (size : ℕ) (r : Option ℕ × List Block)
      → is_empty s.rt_dispatch ≡ false
      → Allocated s.memory_blocks size r
      → Ensures (AfterProbe s) (tried intact s r)
  unfolding tried
  tried-AfterProbe size (some a, arena) waits g =
      Ensures-bind (Freed arena a) (AfterProbe s) (mem_free intact arena (some a)) _
        (Returns-Ensures (Freed arena a) (mem_free intact arena (some a))
          (mem_free-Freed intact arena a g.shape (ground (arith, g.holds a))))
        λ r f. record {
          good = with_memory-Good r f.shape (λ x. omega (arith, f.holds x, g.holds x));
          runner_kept = refl;
          normal = refl;
          rt = refl;
          level = refl;
          best = inl refl;
          idle = λ e. absurd (ground (arith, waits, e));
        }
  tried-AfterProbe size (none, arena) waits g =
      Ensures-bind (Best s.l2 s.current) (AfterProbe s) (pick_victim s.l2 s.current) _
        (Returns-Ensures (Best s.l2 s.current) (pick_victim s.l2 s.current)
          (pick_victim-Best s.l2 s.current))
        λ v b. record {
          good = with_memory-Good arena (rw g.0 i.shape) (λ x. rw g.0);
          runner_kept = refl;
          normal = refl;
          rt = refl;
          level = refl;
          best = inr b;
          idle = λ e. absurd (ground (arith, waits, e));
        }

  pub probe-AfterProbe :
      (malloc : List Block → Option ℕ)
      → IsFresh malloc
      → Ensures (AfterProbe s) (probe intact malloc s)
  unfolding probe probe_for
  probe-AfterProbe malloc fresh = go s.rt_dispatch refl
    where
      go : (q : List Pcb) → s.rt_dispatch ≡ q → Ensures (AfterProbe s) (probe_for intact malloc s q)
      go [] e = record {
        good = Good-refl s i;
        runner_kept = refl;
        normal = refl;
        rt = refl;
        level = refl;
        best = inl refl;
        idle = λ h. (refl, refl);
      }
      go (j ∷ js) e =
          Ensures-bind (Allocated s.memory_blocks j.mbytes) (AfterProbe s)
            (mem_alloc malloc s.memory_blocks j.mbytes) _
            (mem_alloc-Allocated malloc s.memory_blocks j.mbytes fresh i.shape)
            λ r g. tried-AfterProbe j.mbytes r (rw e) g

-- What v does: the jobs, their blocks and the arrived queues are as before.
pub record AfterSwap (s : State) (v : Victim) (t : State) : Type 0 where
  pub idle : v ≡ nobody → t ≡ s
  pub good : Good s t
  pub runs : Runs s → Runs t
  pub normal : t.normal_dispatch ≡ s.normal_dispatch
  pub rt : t.rt_dispatch ≡ s.rt_dispatch

-- `t` is `s` without the job that goes on as `q`, which has been taken out of its place in memory.
pub record Apart (s : State) (q : Pcb) (t : State) : Type 0 where
  pub same_memory : t.memory_blocks ≡ s.memory_blocks
  pub owned : (a : ℕ) → resident (owner a) t + owner a q ≡ resident (owner a) s
  pub placed : resident unplaced t + unplaced q ≡ resident unplaced s
  pub jobs : (v : ℕ → ℕ → ℕ → ℕ → ℕ) → everyone (attr v) t + attr v q ≡ everyone (attr v) s
  pub begun : sum_of unstarted t.l2 + sum_of unstarted t.swap + unstarted q ≡ 0
  pub n_process : t.n_process ≡ s.n_process
  pub arrivals : t.accumulated_arrival_times ≡ s.accumulated_arrival_times
  pub services : t.accumulated_service_times ≡ s.accumulated_service_times
  pub runs : Runs s → Runs t
  pub normal : t.normal_dispatch ≡ s.normal_dispatch
  pub rt : t.rt_dispatch ≡ s.rt_dispatch

swap_away-AfterSwap :
    (s t : State) (q : Pcb) (v : Victim)
    → (v ≡ nobody → ⊥)
    → Inv s
    → Apart s q t
    → Ensures (AfterSwap s v) (swap_away intact t q)
unfolding swap_away
swap_away-AfterSwap s t q v chosen i h =
    Ensures-bind (GivenBack (λ a. resident (owner a) t)) (AfterSwap s v)
      (mem_free intact t.memory_blocks q.memoryblock) _
      (mem_free-GivenBack t.memory_blocks q (λ a. resident (owner a) t) (rw h.same_memory i.shape)
        (λ a. rw h.same_memory (omega (arith, i.owned a, h.owned a)))
        (omega (arith, i.placed, h.placed)))
      λ r g.
        let u = record t { memory_blocks = r; swap = enq_pcb t.swap q } in
        record {
          idle = λ e. absurd (chosen e);
          good =
              Good-intro s u i
                (record {
                  jobs = λ v. omega (arith, h.jobs v, sum_of-enq_pcb (attr v) t.swap q);
                  n_process = h.n_process;
                  arrivals = h.arrivals;
                  services = h.services;
                })
                g.shape g.holds (omega (arith, i.placed, h.placed))
                (omega (arith, h.begun, sum_of-enq_pcb unstarted t.swap q));
          runs = h.runs;
          normal = h.normal;
          rt = h.rt;
        }

pid_of-le-started : (x : ℕ) (q : List Pcb) → x ≢ 0 → sum_of (pid_of x) q ≤ sum_of (started x) q
pid_of-le-started x [] h = omega arith
pid_of-le-started x (p ∷ q) h = ground (arith, pid_of-le-started x q h)

runner_differs :
    (c : Option Pcb) (v : Pcb) → v.pid ≢ 0 → weigh (started v.pid) c ≡ 0 → has_pid_of c v ≡ false
runner_differs none v h e = refl
runner_differs (some p) v h e = ground arith

module _ (s : State) (i : Inv s) where
  runner-Apart :
      (p : Pcb) → s.current ≡ some p → Runs s → Apart s (charge s p) (record s { current = none })
  runner-Apart p e run =
      let at = λ (w : Pcb → ℕ). ap (weigh w) e in
      record {
        same_memory = refl;
        owned = λ a. omega (arith, at (owner a));
        placed = omega (arith, at unplaced);
        jobs = λ v. omega (arith, at (attr v));
        begun = omega (arith, at unstarted, i.begun, run);
        n_process = refl;
        arrivals = refl;
        services = refl;
        runs = λ r. refl;
        normal = refl;
        rt = refl;
      }

  queued-Apart :
      (v : Pcb) (q : List Pcb) → Within v s.l2 → Removed s.l2 v q → Apart s v (record s { l2 = q })
  queued-Apart v q m h = record {
    same_memory = refl;
    owned = λ a. omega (arith, h.weighs (owner a));
    placed = omega (arith, h.weighs unplaced);
    jobs = λ f. omega (arith, h.weighs (attr f));
    begun = omega (arith, h.weighs unstarted, i.begun);
    n_process = refl;
    arrivals = refl;
    services = refl;
    runs = λ r. r;
    normal = refl;
    rt = refl;
  }

  -- A level 2 job has a pid, which no other job has.
  pid_once :
      (v : Pcb)
      → Within v s.l2
      → (sum_of (pid_of v.pid) s.l2 ≤ 1) × (has_pid_of s.current v ≡ false)
  pid_once v m =
      let nonzero : v.pid ≢ 0 = λ z. ground (arith, Within-le unstarted v s.l2 m, i.begun) in
      let here : 1 ≤ sum_of (pid_of v.pid) s.l2 =
        ground (arith, Within-le (pid_of v.pid) v s.l2 m) in
      let le = pid_of-le-started v.pid s.l2 nonzero in
      (
        omega (arith, le, i.pids v.pid),
        runner_differs s.current v nonzero (omega (arith, here, le, i.pids v.pid)),
      )

  -- The chosen job leaves its place; it is found, and its block is freed.
  pub swap_out-AfterSwap :
      (v : Victim)
      → Runs s
      → (v ≡ nobody) ⊎ Best s.l2 s.current v
      → Ensures (AfterSwap s v) (swap_out intact s v)
  unfolding swap_out swap_runner
  swap_out-AfterSwap nobody run b = record {
    idle = λ e. refl;
    good = Good-refl s i;
    runs = λ r. r;
    normal = refl;
    rt = refl;
  }
  swap_out-AfterSwap runner run (inl e) = cc
  swap_out-AfterSwap runner run (inr (p, e, two, long)) = go s.current e refl
    where
      go :
          (c : Option Pcb)
          → c ≡ some p
          → s.current ≡ c
          → Ensures (AfterSwap s runner) (swap_runner intact s c)
      go none e' same = cc
      go (some x) e' same =
          swap_away-AfterSwap s (record s { current = none }) (charge s x) runner (λ n. cc) i
            (runner-Apart x same run)
  swap_out-AfterSwap (queued v) run (inl e) = cc
  swap_out-AfterSwap (queued v) run (inr (m, long, over)) =
      let (once, other) = pid_once v m in
      rw other (
        Ensures-bind (Removed s.l2 v) (AfterSwap s (queued v)) (remove_specific_job s.l2 v) _
          (Returns-Ensures (Removed s.l2 v) (remove_specific_job s.l2 v)
            (remove_specific_job-Removed s.l2 v m once))
          λ q h.
            swap_away-AfterSwap s (record s { l2 = q }) v (queued v) (λ n. cc) i
              (queued-Apart v q m h))
