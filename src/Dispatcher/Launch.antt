-- ===== src/Dispatcher/Launch.antt =====
-- Phase viii: the choice of the next job and its start.
use system_programming_and_d.Base.{
  ℕ, ◌+◌, ◌≤◌, ◌<◌, ◌≡◌, ◌≢◌, List, [], ◌∷◌, Option, none, some, arith, ◌&&◌, ◌||◌, not, ◌==◌,
  if◌then◌else◌, sum_of, ◌⊎◌, inl, inr, ok, exits, Ensures, Ensures-bind, Ensures-mono, ap, refl,
  Bool, true, false, Bool-cases,
}
use system_programming_and_d.Memory.{Block, Cursor, mem_alloc, seek}
use system_programming_and_d.Memory.Shape.{IsArena, held, held-le-named}
use system_programming_and_d.Memory.Walk.{Sought, seek-Sought, Stands-start}
use system_programming_and_d.Memory.Alloc.{IsFresh, Allocated, mem_alloc-Allocated}
use system_programming_and_d.Pcb.{Pcb, Status, deq_pcb, start_pcb, row, print_at, print_pcb}
use system_programming_and_d.Dispatcher.{
  State, swapped_in, swap_in_from, swap_in, choose_l2, choose_l1, choose_l0, choose, launch_of,
  launch, is_suspended, dispatch, is_null, is_empty,
}
use system_programming_and_d.Dispatcher.Invariant.{
  Inv, Runs, Keeps-refl, Keeps-Booked, Booked, Booked-trans, points_to, is_none_count, Good,
  Good-intro, resident, everyone, owner, unplaced, oversize, unstarted, started, attr, one,
  residents, weigh, arrival_v, service_v,
}
use system_programming_and_d.Dispatcher.Turn.{fits_when_empty}

-- `fork` returns a pid that no process of the dispatcher has.
abbrev pub IsFreshPid : (State → Option ℕ) → Type 0
IsFreshPid fork = (s : State) (n : ℕ) → fork s ≡ some n → (0 < n) × (everyone (started n) s ≡ 0)

-- No arrived job waits for memory, or some job is in memory.
abbrev pub Calm : State → Type 0
Calm s = ((s.normal_dispatch ≡ []) × (s.rt_dispatch ≡ [])) ⊎ (0 < residents s)

-- What viii.a does: a process is chosen.
pub record AfterChoose (s t : State) : Type 0 where
  pub good : Good s t
  pub chosen : is_null t.current ≡ false

module _ (s : State) (i : Inv s) (idle : s.current ≡ none) where
  gone : (w : Pcb → ℕ) → weigh w s.current ≡ 0
  gone w = ap (weigh w) idle

  -- `t` has the process `p` running, which another queue of the memory had.
  AfterChoose-intro :
      (t : State) (p : Pcb)
      → t.current ≡ some p
      → t.memory_blocks ≡ s.memory_blocks
      → ((w : Pcb → ℕ) → resident w t ≡ resident w s)
      → ((w : Pcb → ℕ) → everyone w t ≡ everyone w s)
      → sum_of unstarted t.l2 + sum_of unstarted t.swap ≡ 0
      → t.n_process ≡ s.n_process
      → t.accumulated_arrival_times ≡ s.accumulated_arrival_times
      → t.accumulated_service_times ≡ s.accumulated_service_times
      → AfterChoose s t
  AfterChoose-intro t p e m r w b n a v = record {
    good =
        Good-intro s t i
          (record { jobs = λ f. w (attr f); n_process = n; arrivals = a; services = v })
          (rw m i.shape) (λ x. omega (arith, ap (held x) m, i.owned x, r (owner x)))
          (omega (arith, r unplaced, i.placed)) b;
    chosen = rw e;
  }

  choose_l2-AfterChoose :
      (p : Pcb) (q : List Pcb)
      → s.l2 ≡ p ∷ q
      → AfterChoose s (record s { current = some p; l2 = q })
  choose_l2-AfterChoose p q e =
      let at = λ (w : Pcb → ℕ). ap (sum_of w) e in
      AfterChoose-intro (record s { current = some p; l2 = q }) p refl refl
        (λ w. omega (arith, gone w, at w)) (λ w. omega (arith, gone w, at w))
        (omega (arith, i.begun, at unstarted)) refl refl refl

  choose_l1-AfterChoose :
      (p : Pcb) (q : List Pcb)
      → s.l1 ≡ p ∷ q
      → AfterChoose s (record s { current = some p; l1 = q })
  choose_l1-AfterChoose p q e =
      let at = λ (w : Pcb → ℕ). ap (sum_of w) e in
      AfterChoose-intro (record s { current = some p; l1 = q }) p refl refl
        (λ w. omega (arith, gone w, at w)) (λ w. omega (arith, gone w, at w)) i.begun refl refl refl

  choose_l0-AfterChoose :
      (p : Pcb) (q : List Pcb)
      → s.l0 ≡ p ∷ q
      → AfterChoose s (record s { current = some p; l0 = q })
  choose_l0-AfterChoose p q e =
      let at = λ (w : Pcb → ℕ). ap (sum_of w) e in
      AfterChoose-intro (record s { current = some p; l0 = q }) p refl refl
        (λ w. omega (arith, gone w, at w)) (λ w. omega (arith, gone w, at w)) i.begun refl refl refl

  swapped_in-AfterChoose :
      (p : Pcb) (ps : List Pcb) (r : Option ℕ × List Block)
      → s.swap ≡ p ∷ ps
      → residents s ≡ 0
      → Allocated s.memory_blocks p.mbytes r
      → Ensures (AfterChoose s) (swapped_in s p ps r)
  unfolding swapped_in
  swapped_in-AfterChoose p ps (none, arena) e none_in g =
      absurd (fits_when_empty s p i none_in (omega (arith, i.sized, ap (sum_of oversize) e)) g.1)
  swapped_in-AfterChoose p ps (some a, arena) e none_in g =
      let p' = record p { memoryblock = some a } in
      let at = λ (w : Pcb → ℕ). ap (sum_of w) e in
      record {
        good =
            Good-intro s _ i
              (record {
                jobs = λ v. omega (arith, gone (attr v), at (attr v));
                n_process = refl;
                arrivals = refl;
                services = refl;
              })
              g.shape (λ x. omega (arith, g.holds x, i.owned x, gone (owner x)))
              (omega (arith, i.placed)) (omega (arith, i.begun, at unstarted));
        chosen = refl;
      }

  module _ (malloc : List Block → Option ℕ) (fresh : IsFresh malloc) (calm : Calm s) where
    swap_in-AfterChoose :
        residents s ≡ 0 → is_empty s.swap ≡ false → Ensures (AfterChoose s) (swap_in malloc s)
    unfolding swap_in swap_in_from
    swap_in-AfterChoose none_in waits = rw quiet (go s.swap refl)
      where
        quiet : (is_empty s.normal_dispatch && is_empty s.rt_dispatch) ≡ true
        quiet = ground (arith, calm, none_in)

        go : (q : List Pcb) → s.swap ≡ q → Ensures (AfterChoose s) (swap_in_from malloc s q)
        go [] e = absurd (ground (arith, waits, e))
        go (p ∷ ps) e =
            Ensures-bind (Allocated s.memory_blocks p.mbytes) (AfterChoose s)
              (mem_alloc malloc s.memory_blocks p.mbytes) _
              (mem_alloc-Allocated malloc s.memory_blocks p.mbytes fresh i.shape)
              λ r g. swapped_in-AfterChoose p ps r e none_in g

    choose-AfterChoose :
        (not (is_empty s.l0) || not (is_empty s.l1) || not (is_empty s.l2) || not (is_empty s.swap))
          ≡ true
        → Ensures (AfterChoose s) (choose malloc s)
    unfolding choose choose_l0 choose_l1 choose_l2 deq_pcb
    choose-AfterChoose some_job = go0 s.l0 refl
      where
        go2 :
            (l : List Pcb)
            → s.l0 ≡ []
            → s.l1 ≡ []
            → s.l2 ≡ l
            → Ensures (AfterChoose s) (choose_l2 malloc s (deq_pcb l))
        go2 (p ∷ q) e0 e1 e2 = choose_l2-AfterChoose p q e2
        go2 [] e0 e1 e2 =
            swap_in-AfterChoose
              (omega (
                arith,
                gone (attr one),
                ap (sum_of (attr one)) e0,
                ap (sum_of (attr one)) e1,
                ap (sum_of (attr one)) e2,
              ))
              (ground (arith, some_job, e0, e1, e2))

        go1 :
            (l : List Pcb)
            → s.l0 ≡ []
            → s.l1 ≡ l
            → Ensures (AfterChoose s) (choose_l1 malloc s (deq_pcb l))
        go1 (p ∷ q) e0 e1 = choose_l1-AfterChoose p q e1
        go1 [] e0 e1 = go2 s.l2 e0 e1 refl

        go0 : (l : List Pcb) → s.l0 ≡ l → Ensures (AfterChoose s) (choose_l0 malloc s (deq_pcb l))
        go0 (p ∷ q) e0 = choose_l0-AfterChoose p q e0
        go0 [] e0 = go1 s.l1 e0 refl

-- What starting the chosen process does; only the pid can change among what is booked.
pub record AfterLaunch (s t : State) : Type 0 where
  pub inv : Inv t
  pub runs : Runs t
  pub booked : Booked s t

print_at_ok :
    (arena : List Block) (p : Pcb) (m : Option ℕ)
    → IsArena arena
    → ((a : ℕ) → points_to a m ≤ held a arena)
    → is_none_count m ≡ 0
    → Ensures (λ line. Unit {0}) (print_at arena p m)
unfolding print_at row
print_at_ok arena p none h owned placed = absurd (omega arith)
print_at_ok arena p (some a) h owned placed =
    go (seek [] arena a) (seek-Sought [] arena a (Stands-start arena h.tiled))
  where
    go : (r : Option Cursor) → Sought [] arena a r → Ensures (λ line. Unit {0}) (row p r)
    go none k = absurd (ground (arith, k, owned a, held-le-named a arena))
    go (some c) k = tt

start_pcb-AfterLaunch :
    (s : State) (p : Pcb) (fork : State → Option ℕ)
    → IsFreshPid fork
    → Inv s
    → s.current ≡ some p
    → Ensures (λ q. AfterLaunch s (record s { current = some q })) (start_pcb (fork s) p)
unfolding start_pcb
start_pcb-AfterLaunch s p fork fresh i e = elim (Bool-cases (p.pid == 0)) [
  | inl new ↦ rw new (forked (fork s) refl new)
  | inr old ↦ rw old (started_as p.pid (ground arith) λ x. omega (arith, i.pids x, at (started x)))
]
  where
    at : (w : Pcb → ℕ) → weigh w s.current ≡ w p
    at w = ap (weigh w) e

    started_as :
        (n : ℕ)
        → n ≢ 0
        → ((x : ℕ)
            → everyone
                (started x)
                (record s { current = some (record p { pid = n; status = Status.running }) })
              ≤ 1)
        → AfterLaunch s
            (record s { current = some (record p { pid = n; status = Status.running }) })
    started_as n nonzero pids = record {
      inv = record {
        shape = i.shape;
        owned = λ a. omega (arith, i.owned a, at (owner a));
        placed = omega (arith, i.placed, at unplaced);
        sized = omega (arith, i.sized, at oversize);
        pids = pids;
        begun = i.begun;
      };
      runs = ground arith;
      booked = record {
        n_process = omega (arith, at (attr one));
        arrivals = omega (arith, at (attr arrival_v));
        services = omega (arith, at (attr service_v));
      };
    }

    forked :
        (f : Option ℕ)
        → fork s ≡ f
        → (p.pid == 0) ≡ true
        → Ensures
            (λ q. AfterLaunch s (record s { current = some q }))
            (elim f [
              | none ↦ exits 1
              | some n ↦ ok (record p { pid = n; status = Status.running })
            ])
    forked none e' new = tt
    forked (some n) e' new =
        let (pos, none_has) = fresh s n e' in
        started_as n (omega arith) λ x. elim (Bool-cases (n == x)) [
          | inl same ↦
              let e'' : n ≡ x = ground (arith, same) in
              rw (← e'') (ground (arith, none_has, at (started n)))
          | inr other ↦ ground (arith, other, i.pids x, at (started x))
        ]

launch-AfterLaunch :
    (fork : State → Option ℕ) (s : State)
    → IsFreshPid fork
    → Inv s
    → is_null s.current ≡ false
    → Ensures (AfterLaunch s) (launch fork s)
unfolding launch launch_of print_pcb
launch-AfterLaunch fork s fresh i here = go s.current refl here
  where
    go :
        (c : Option Pcb)
        → s.current ≡ c
        → is_null c ≡ false
        → Ensures (AfterLaunch s) (launch_of fork s c)
    go none e h = cc
    go (some p) e h =
        let at = λ (w : Pcb → ℕ). ap (weigh w) e in
        Ensures-bind (λ (line : List ℕ). Unit {0}) (AfterLaunch s)
          (if is_suspended p.status then print_pcb s.memory_blocks p else ok []) _
          (printed p at (is_suspended p.status))
          λ line u.
            Ensures-bind (λ q. AfterLaunch s (record s { current = some q })) (AfterLaunch s)
              (start_pcb (fork s) p) _ (start_pcb-AfterLaunch s p fork fresh i e) (λ q l. l)
      where
        printed :
            (p : Pcb)
            → ((w : Pcb → ℕ) → weigh w s.current ≡ w p)
            → (b : Bool)
            → Ensures
                (λ (line : List ℕ). Unit {0})
                (if b then print_pcb s.memory_blocks p else ok [])
        printed p at true =
            print_at_ok s.memory_blocks p p.memoryblock i.shape
              (λ a. omega (arith, i.owned a, at (owner a))) (omega (arith, i.placed, at unplaced))
        printed p at false = tt

-- What viii does: no NULL is read, the assertion holds, and the running process has a pid.
pub dispatch-AfterLaunch :
    (malloc : List Block → Option ℕ) (fork : State → Option ℕ) (s : State) (check : Bool)
    → IsFresh malloc
    → IsFreshPid fork
    → Inv s
    → Runs s
    → Calm s
    → Ensures (AfterLaunch s) (dispatch malloc fork s check)
unfolding dispatch
dispatch-AfterLaunch malloc fork s check fm ff i run calm =
    elim (Bool-cases (not check && is_null s.current && some_job)) [
      | inr skip ↦
          rw skip (record { inv = i; runs = run; booked = Keeps-Booked s s (Keeps-refl s) })
      | inl go ↦ rw go (
          Ensures-bind (AfterChoose s) (AfterLaunch s) (choose malloc s) _
            (choose-AfterChoose s i (idle s.current (ground (arith, go))) malloc fm calm
              (ground (arith, go)))
            λ t c.
              Ensures-mono (AfterLaunch t) (AfterLaunch s) (launch fork t)
                (launch-AfterLaunch fork t ff c.good.inv c.chosen)
                λ u l. record {
                  inv = l.inv;
                  runs = l.runs;
                  booked = Booked-trans s t u (Keeps-Booked s t c.good.keeps) l.booked;
                })
    ]
  where
    some_job : Bool
    some_job =
        not (is_empty s.l0) || not (is_empty s.l1) || not (is_empty s.l2) || not (is_empty s.swap)

    idle : (c : Option Pcb) → is_null c ≡ true → c ≡ none
    idle none e = refl
    idle (some p) e = cc
