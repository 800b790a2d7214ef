-- ===== src/Dispatcher/Run.antt =====
-- A whole pass of the main loop, and the loop, through the invariant and the books.
use system_programming_and_d.Base.{
  ℕ, zero, suc, ◌+◌, ◌≤◌, ◌<◌, ◌≡◌, List, [], ◌∷◌, Option, none, some, arith, sum_of, ◌⊎◌, inl, inr,
  ok, ◌>>=◌, Outcome, length, Ensures, Ensures-bind, Ensures-mono, ap, ◌∙◌, refl, Bool, Bool-cases,
}
use system_programming_and_d.Memory.{Block, FreedNode, intact, memory_size}
use system_programming_and_d.Memory.Alloc.{IsFresh}
use system_programming_and_d.Pcb.{Pcb, Status, enq_pcb, create_null_pcb}
use system_programming_and_d.Pcb.Queue.{sum_of-enq_pcb}
use system_programming_and_d.Dispatcher.{
  State, Line, Scan, scanned, partial, jammed, Victim, load_jobs, init_state, is_busy, expire,
  unload, admit_normal, probe, swap_out, admit_rt, turn, dispatch, advance, one_round, main_loop,
}
use system_programming_and_d.Dispatcher.Invariant.{
  Inv, Runs, Keeps-Booked, Keeps-refl, Booked, Booked-trans, Good, everyone, attr, one, residents,
  oversize, started,
}
use system_programming_and_d.Dispatcher.Admit.{
  unload-Good, unload-current, AfterRt, admit_rt-AfterRt, AfterNormal, admit_normal-AfterNormal,
  Blocked,
}
use system_programming_and_d.Dispatcher.Swap.{
  AfterExpire, expire-AfterExpire, AfterProbe, probe-AfterProbe, AfterSwap, swap_out-AfterSwap,
}
use system_programming_and_d.Dispatcher.Turn.{Blocked-residents, AfterTurn, turn-AfterTurn}
use system_programming_and_d.Dispatcher.Freed.{one_round-Agrees, Unless, Unless-intro}
use system_programming_and_d.Dispatcher.Launch.{IsFreshPid, Calm, AfterLaunch, dispatch-AfterLaunch}

-- Between passes: the invariant, a running process with a pid, and the books of `s`.
pub record Sound (s t : State) : Type 0 where
  pub inv : Inv t
  pub runs : Runs t
  pub booked : Booked s t

Sound-Good : (s t u : State) → Sound s t → Good t u → Runs u → Sound s u
Sound-Good s t u h g r = record {
  inv = g.inv;
  runs = r;
  booked = Booked-trans s t u h.booked (Keeps-Booked t u g.keeps);
}

-- After vi no arrived job waits, or some job is in memory.
Calm-after_admission :
    (s2 s3 s4 s5 : State) (v : Victim)
    → Inv s2
    → (s2.rt_dispatch ≡ [] → Blocked s2.memory_blocks s2.normal_dispatch)
    → AfterProbe s2 (s3, v)
    → AfterSwap s3 v s4
    → AfterRt s4 s5
    → Calm s5
Calm-after_admission s2 s3 s4 s5 v i normal_stuck p w r =
    go s2.rt_dispatch refl
      (Blocked-residents s5 s5.rt_dispatch r.good.inv r.stuck (omega (arith, r.good.inv.sized)))
  where
    normal_same : s5.normal_dispatch ≡ s2.normal_dispatch
    normal_same = r.normal ∙ w.normal ∙ p.normal

    rt_same : s4.rt_dispatch ≡ s2.rt_dispatch
    rt_same = w.rt ∙ p.rt

    memory_same : s2.rt_dispatch ≡ [] → residents s4 ≡ residents s2
    memory_same e = let (a, b) = p.idle e in ap residents (w.idle b ∙ a)

    no_rt :
        s2.rt_dispatch ≡ []
        → (s5.rt_dispatch ≡ []) ⊎ (0 < residents s5)
        → (s2.normal_dispatch ≡ []) ⊎ (0 < residents s2)
        → Calm s5
    no_rt e (inr b) n = inr b
    no_rt e (inl a) (inl n) = inl (normal_same ∙ n, a)
    no_rt e (inl a) (inr b) = inr (omega (arith, memory_same e, r.grows))

    go : (q : List Pcb) → s2.rt_dispatch ≡ q → (s5.rt_dispatch ≡ []) ⊎ (0 < residents s5) → Calm s5
    go [] e h =
        no_rt e h
          (Blocked-residents s2 s2.normal_dispatch i (normal_stuck e) (omega (arith, i.sized)))
    go (j ∷ js) e (inr b) = inr b
    go (j ∷ js) e (inl a) = inr (
        omega (
          arith,
          r.moved,
          ap (sum_of (attr one)) a,
          ap (sum_of (attr one)) rt_same,
          ap (sum_of (attr one)) e,
        ))

Calm-AfterTurn : (s t : State) → Calm s → AfterTurn s t → Calm t
Calm-AfterTurn s t (inl (n, r)) h = inl (h.normal ∙ n, h.rt ∙ r)
Calm-AfterTurn s t (inr some_in) h = inr (omega (arith, h.residents_kept))

advance-Sound : (s t : State) → Sound s t → Sound s (advance t)
unfolding advance
advance-Sound s t h = record {
  inv = record {
    shape = h.inv.shape;
    owned = h.inv.owned;
    placed = h.inv.placed;
    sized = h.inv.sized;
    pids = h.inv.pids;
    begun = h.inv.begun;
  };
  runs = h.runs;
  booked = record {
    n_process = h.booked.n_process;
    arrivals = h.booked.arrivals;
    services = h.booked.services;
  };
}

module _ (malloc : List Block → Option ℕ) (fork : State → Option ℕ) (fm : IsFresh malloc)
    (ff : IsFreshPid fork) where
  -- From the swap to the end of the pass.
  later :
      (s s2 : State) (r3 : State × Victim) (check : Bool)
      → Sound s s2
      → (s2.rt_dispatch ≡ [] → Blocked s2.memory_blocks s2.normal_dispatch)
      → AfterProbe s2 r3
      → Ensures (Sound s) (do
        s4 ← swap_out intact r3.0 r3.1
        s5 ← admit_rt malloc s4
        let (s6, check') = turn s5 check
        s7 ← dispatch malloc fork s6 check'
        ok (advance s7))
  later s s2 r3 check h stuck h3 =
      let h3' = Sound-Good s s2 r3.0 h h3.good (rw h3.runner_kept h.runs) in
      Ensures-bind (AfterSwap r3.0 r3.1) (Sound s) (swap_out intact r3.0 r3.1) _
        (swap_out-AfterSwap r3.0 h3.good.inv r3.1 h3'.runs (rw (h3.level, h3.runner_kept) h3.best))
        λ s4 h4.
          let h4' = Sound-Good s r3.0 s4 h3' h4.good (h4.runs h3'.runs) in
          Ensures-bind (AfterRt s4) (Sound s) (admit_rt malloc s4) _
            (admit_rt-AfterRt malloc s4 fm h4.good.inv)
            λ s5 h5.
              let h5' = Sound-Good s s4 s5 h4' h5.good (rw h5.runner h4'.runs) in
              let t = turn-AfterTurn s5 h5.good.inv h5'.runs check in
              let calm = Calm-after_admission s2 r3.0 s4 s5 r3.1 h.inv stuck h3 h4 h5 in
              let s6 = (turn s5 check).0 in
              Ensures-bind (AfterLaunch s6) (Sound s) (dispatch malloc fork s6 (turn s5 check).1) _
                (dispatch-AfterLaunch malloc fork s6 (turn s5 check).1 fm ff t.good.inv t.runs
                  (Calm-AfterTurn s5 s6 calm t))
                λ s7 h7. advance-Sound s s7 (record {
                  inv = h7.inv;
                  runs = h7.runs;
                  booked =
                      Booked-trans s s6 s7 (Sound-Good s s5 s6 h5' t.good t.runs).booked h7.booked;
                })

  one_round-Sound_intact :
      (s : State) → Inv s → Runs s → Ensures (Sound s) (one_round intact malloc fork s)
  unfolding one_round
  one_round-Sound_intact s i run =
      let g0 = unload-Good s i in
      Ensures-bind (λ (r : State × Bool). AfterExpire (unload s) r.0) (Sound s)
        (expire intact (unload s)) _
        (expire-AfterExpire (unload s) g0.inv (rw (unload-current s) run))
        λ r1 h1.
          Ensures-bind (AfterNormal r1.0) (Sound s) (admit_normal malloc r1.0) _
            (admit_normal-AfterNormal malloc r1.0 fm h1.inv)
            λ s2 h2.
              Ensures-bind (AfterProbe s2) (Sound s) (probe intact malloc s2) _
                (probe-AfterProbe s2 h2.good.inv malloc fm)
                λ r3 h3.
                  later s s2 r3 r1.1
                    (record {
                      inv = h2.good.inv;
                      runs = rw h2.runner h1.runs;
                      booked = Booked-trans s (unload s) s2 (Keeps-Booked s (unload s) g0.keeps) (
                          Booked-trans (unload s) r1.0 s2 h1.booked
                            (Keeps-Booked r1.0 s2 h2.good.keeps));
                    })
                    (λ e. h2.stuck (rw (← h2.rt) e)) h3

  -- From a state in order, with a `malloc` and a `fork` that return nothing in use, a pass does not
  -- fault: every stored address that is read has its block and every assertion holds. It keeps the
  -- invariant and the books, and the running process has a pid. Where the C library does not leave a
  -- freed node intact until the next `malloc`, the pass does so or ends in a fault.
  pub one_round-Sound :
      (freed : FreedNode) (s : State)
      → Inv s
      → Runs s
      → Unless freed (Ensures (Sound s)) (one_round freed malloc fork s)
  one_round-Sound freed s i run =
      Unless-intro freed (Ensures (Sound s)) (λ fr. one_round fr malloc fork s)
        (one_round-Agrees malloc fork s) (one_round-Sound_intact s i run)

  pub main_loop-Sound :
      (n : ℕ) (s : State) → Inv s → Runs s → Ensures (Sound s) (main_loop intact n malloc fork s)
  unfolding main_loop
  main_loop-Sound zero s i run = record {
    inv = i;
    runs = run;
    booked = Keeps-Booked s s (Keeps-refl s);
  }
  main_loop-Sound (suc n) s i run = elim (Bool-cases (is_busy s)) [
    | inr done ↦ rw done (record { inv = i; runs = run; booked = Keeps-Booked s s (Keeps-refl s) })
    | inl busy ↦ rw busy (
        Ensures-bind (Sound s) (Sound s) (one_round intact malloc fork s) _
          (one_round-Sound_intact s i run)
          λ t h.
            Ensures-mono (Sound t) (Sound s) (main_loop intact n malloc fork t)
              (main_loop-Sound n t h.inv h.runs)
              λ u k. record {
                inv = k.inv;
                runs = k.runs;
                booked = Booked-trans s t u h.booked k.booked;
              })
  ]

abbrev line_of : Line → Pcb
line_of l = record create_null_pcb {
  arrivaltime = l.arrivaltime;
  servicetime = l.servicetime;
  priority = l.priority;
  mbytes = l.mbytes;
  remainingcputime = l.servicetime;
  status = Status.initialized;
}

-- The sum of a weight over the jobs of the file.
abbrev pub file_sum : (Line → ℕ) → List Scan → ℕ
file_sum w [] = 0
file_sum w (jammed ∷ file) = file_sum w file
file_sum w (partial ∷ file) = file_sum w file
file_sum w (scanned l ∷ file) = w l + file_sum w file

-- Every job fits into the memory, and the reading is never stuck.
abbrev pub AllFit : List Scan → Type 0
AllFit [] = Unit {0}
AllFit (jammed ∷ file) = ⊥
AllFit (partial ∷ file) = AllFit file
AllFit (scanned l ∷ file) = (l.mbytes ≤ memory_size) × AllFit file

-- The file is read to its end, with the weights of its jobs added to the queue's.
abbrev Loaded : List Scan → List Pcb → Option (List Pcb) → Type 0
Loaded file q none = ⊥
Loaded file q (some jobs) =
    (w : Pcb → ℕ) → sum_of w jobs ≡ sum_of w q + file_sum (λ l. w (line_of l)) file

load_jobs-Loaded :
    (f : ℕ) (file : List Scan) (q : List Pcb)
    → length file ≤ f
    → AllFit file
    → Loaded file q (load_jobs f file q)
unfolding load_jobs
load_jobs-Loaded f [] q enough fit = λ w. omega arith
load_jobs-Loaded zero (x ∷ file) q enough fit = absurd (omega arith)
load_jobs-Loaded (suc f) (jammed ∷ file) q enough fit = absurd fit
load_jobs-Loaded (suc f) (partial ∷ file) q enough fit = load_jobs-Loaded f file q (omega arith) fit
load_jobs-Loaded (suc f) (scanned l ∷ file) q enough fit =
    go (load_jobs f file (enq_pcb q (line_of l)))
      (load_jobs-Loaded f file (enq_pcb q (line_of l)) (omega arith) fit.1)
  where
    go :
        (r : Option (List Pcb))
        → Loaded file (enq_pcb q (line_of l)) r
        → Loaded (scanned l ∷ file) q r
    go none h = h
    go (some jobs) h = λ w. omega (arith, h w, sum_of-enq_pcb w q (line_of l))

AllFit-sum : (file : List Scan) → AllFit file → file_sum (λ l. oversize (line_of l)) file ≡ 0
AllFit-sum [] h = refl
AllFit-sum (jammed ∷ file) h = absurd h
AllFit-sum (partial ∷ file) h = AllFit-sum file h
AllFit-sum (scanned l ∷ file) h = ground (arith, AllFit-sum file h.1)

unstarted_sum : (x : ℕ) (file : List Scan) → file_sum (λ l. started x (line_of l)) file ≡ 0
unstarted_sum x [] = refl
unstarted_sum x (jammed ∷ file) = unstarted_sum x file
unstarted_sum x (partial ∷ file) = unstarted_sum x file
unstarted_sum x (scanned l ∷ file) = ground (arith, unstarted_sum x file)

-- The jobs of the file stand in the queue, all of them small and none of them started.
abbrev pub FromFile : List Scan → List Pcb → Type 0
FromFile file jobs = (w : Pcb → ℕ) → sum_of w jobs ≡ file_sum (λ l. w (line_of l)) file

pub load_jobs-FromFile :
    (file : List Scan)
    → AllFit file
    → (jobs : List Pcb) × (load_jobs (length file) file [] ≡ some jobs) × FromFile file jobs
load_jobs-FromFile file fit =
    go (load_jobs (length file) file []) (load_jobs-Loaded (length file) file [] (omega arith) fit)
  where
    go :
        (r : Option (List Pcb))
        → Loaded file [] r
        → (jobs : List Pcb) × (r ≡ some jobs) × FromFile file jobs
    go none h = absurd h
    go (some jobs) h = (jobs, refl, λ w. omega (arith, h w))

pub init_state-Inv :
    (first : ℕ) (file : List Scan) (jobs : List Pcb) (time_quantum : ℕ)
    → AllFit file
    → FromFile file jobs
    → Inv (init_state first jobs time_quantum)
unfolding init_state
init_state-Inv first file jobs time_quantum fit from = record {
  shape = record { tiled = (refl, refl, refl); distinct = λ a. ground arith };
  owned = λ a. ground arith;
  placed = refl;
  sized = omega (arith, from oversize, AllFit-sum file fit);
  pids = λ x. omega (arith, from (started x), unstarted_sum x file);
  begun = refl;
}

-- The books at a pass, against the job file.
pub record FileBooked (file : List Scan) (t : State) : Type 0 where
  pub n_process : t.n_process + everyone (attr one) t ≡ file_sum (λ l. 1) file
  pub arrivals :
      t.accumulated_arrival_times + everyone (λ p. p.arrivaltime) t
      ≡ file_sum (λ l. l.arrivaltime) file
  pub services :
      t.accumulated_service_times + everyone (λ p. p.servicetime) t
      ≡ file_sum (λ l. l.servicetime) file

-- The file is read to its end, and so many passes of the main loop follow.
abbrev pub AfterFile :
    (Outcome State → Type 0)
    → FreedNode
    → (List Block → Option ℕ)
    → (State → Option ℕ)
    → ℕ
    → List Scan
    → ℕ
    → ℕ
    → Type 0
AfterFile P freed malloc fork first file time_quantum passes =
    (jobs : List Pcb) × (load_jobs (length file) file [] ≡ some jobs)
    × P (main_loop freed passes malloc fork (init_state first jobs time_quantum))

pub main_loop-FileBooked_intact :
    (malloc : List Block → Option ℕ) (fork : State → Option ℕ) (first : ℕ) (file : List Scan)
    (time_quantum passes : ℕ)
    → IsFresh malloc
    → IsFreshPid fork
    → AllFit file
    → AfterFile
        (Ensures (λ t. Inv t × FileBooked file t))
        intact
        malloc
        fork
        first
        file
        time_quantum
        passes
unfolding init_state
main_loop-FileBooked_intact malloc fork first file time_quantum passes fm ff fit =
    let (jobs, read, from) = load_jobs-FromFile file fit in
    let s = init_state first jobs time_quantum in
    (
      jobs,
      read,
      Ensures-mono (Sound s) (λ t. Inv t × FileBooked file t)
          (main_loop intact passes malloc fork s)
          (main_loop-Sound malloc fork fm ff passes s
            (init_state-Inv first file jobs time_quantum fit from) refl)
          λ t h. (
            h.inv,
            record {
              n_process = omega (arith, h.booked.n_process, from (attr one));
              arrivals = omega (arith, h.booked.arrivals, from (λ p. p.arrivaltime));
              services = omega (arith, h.booked.services, from (λ p. p.servicetime));
            },
          ),
    )
