-- ===== src/Dispatcher/Turn.antt =====
-- Phases vii and viii: what becomes of the running job, and which job runs next.
use system_programming_and_d.Base.{
  ℕ, ◌+◌, ◌-◌, ◌<◌, ◌≡◌, List, [], ◌∷◌, Option, none, some, arith, ◌||◌, not, ◌==◌, if◌then◌else◌,
  sum_of, ◌⊎◌, inl, inr, ap, ◌∙◌, refl, Bool, Bool-cases,
}
use system_programming_and_d.Memory.Shape.{held}
use system_programming_and_d.Memory.Walk.{NoneServes}
use system_programming_and_d.Memory.Alloc.{fully_free}
use system_programming_and_d.Pcb.{Pcb, enq_pcb, enq_pcb_hd, suspend_pcb}
use system_programming_and_d.Pcb.Queue.{sum_of-enq_pcb}
use system_programming_and_d.Dispatcher.{State, demote, turn_of, turn, is_empty}
use system_programming_and_d.Dispatcher.Invariant.{
  Inv, Runs, Good, Good-refl, Good-intro, owner, unplaced, oversize, unstarted, attr, one,
  residents, weigh,
}
use system_programming_and_d.Dispatcher.Admit.{Blocked}

empty_of_count : (q : List Pcb) → sum_of (attr one) q ≡ 0 → q ≡ []
empty_of_count [] e = refl
empty_of_count (x ∷ q) e = absurd (omega arith)

zero_of_count : (w : Pcb → ℕ) (q : List Pcb) → sum_of (attr one) q ≡ 0 → sum_of w q ≡ 0
zero_of_count w [] e = refl
zero_of_count w (x ∷ q) e = absurd (omega arith)

zero_of_none : (w : Pcb → ℕ) (c : Option Pcb) → weigh (attr one) c ≡ 0 → weigh w c ≡ 0
zero_of_none w none e = refl
zero_of_none w (some p) e = absurd (omega arith)

-- With no job in memory nothing is allocated, and any job fits.
pub nothing_held : (s : State) → Inv s → residents s ≡ 0 → (a : ℕ) → held a s.memory_blocks ≡ 0
nothing_held s i e a = omega (
  arith,
  i.owned a,
  zero_of_none (owner a) s.current,
  zero_of_count (owner a) s.l0,
  zero_of_count (owner a) s.l1,
  zero_of_count (owner a) s.l2,
)

pub fits_when_empty :
    (s : State) (p : Pcb)
    → Inv s
    → residents s ≡ 0
    → oversize p ≡ 0
    → ¬ NoneServes p.mbytes s.memory_blocks
fits_when_empty s p i e small =
    fully_free p.mbytes s.memory_blocks i.shape.tiled (nothing_held s i e) (ground arith)

-- A queue whose head finds no memory is empty, or some job is in memory.
pub Blocked-residents :
    (s : State) (q : List Pcb)
    → Inv s
    → Blocked s.memory_blocks q
    → sum_of oversize q ≡ 0
    → (q ≡ []) ⊎ (0 < residents s)
Blocked-residents s [] i b small = inl refl
Blocked-residents s (j ∷ js) i b small = go (residents s) refl
  where
    go : (n : ℕ) → residents s ≡ n → (j ∷ js ≡ []) ⊎ (0 < residents s)
    go ℕ.zero e = absurd (fits_when_empty s j i e (omega arith) b)
    go (ℕ.suc n) e = inr (omega arith)

-- What vii does, besides keeping the invariant.
pub record AfterTurn (s t : State) : Type 0 where
  pub good : Good s t
  pub runs : Runs t
  pub normal : t.normal_dispatch ≡ s.normal_dispatch
  pub rt : t.rt_dispatch ≡ s.rt_dispatch
  pub residents_kept : residents t ≡ residents s

-- The same process, but for its level, its time left and its status.
record Same (p q : Pcb) : Type 0 where
  block : q.memoryblock ≡ p.memoryblock
  attrs : (v : ℕ → ℕ → ℕ → ℕ → ℕ) → attr v q ≡ attr v p

pid_v : ℕ → ℕ → ℕ → ℕ → ℕ
pid_v p a v m = if p == 0 then 1 else 0

module _ (s : State) (i : Inv s) (run : Runs s) (p q : Pcb) (e : s.current ≡ some p)
    (h : Same p q) where
  runner_weighs : (w : Pcb → ℕ) → weigh w s.current ≡ w p
  runner_weighs w = ap (weigh w) e

  owner_same : (a : ℕ) → owner a q ≡ weigh (owner a) s.current
  owner_same a = rw (e, owner, h.block)

  unplaced_same : unplaced q ≡ weigh unplaced s.current
  unplaced_same = rw (e, unplaced, h.block)

  attr_same : (v : ℕ → ℕ → ℕ → ℕ → ℕ) → attr v q ≡ weigh (attr v) s.current
  attr_same v = rw e (h.attrs v)

  has_pid : unstarted q ≡ 0
  unfolding pid_v
  has_pid = attr_same pid_v ∙ run

  level2_AfterTurn :
      (l2 : List Pcb)
      → ((w : Pcb → ℕ) → sum_of w l2 ≡ sum_of w s.l2 + w q)
      → AfterTurn s (record s { current = none; l2 = l2 })
  level2_AfterTurn l2 weighs = record {
    good =
        Good-intro s (record s { current = none; l2 = l2 }) i
          (record {
            jobs = λ v. omega (arith, weighs (attr v), attr_same v);
            n_process = refl;
            arrivals = refl;
            services = refl;
          })
          i.shape (λ a. omega (arith, i.owned a, weighs (owner a), owner_same a))
          (omega (arith, i.placed, weighs unplaced, unplaced_same))
          (omega (arith, i.begun, weighs unstarted, has_pid));
    runs = refl;
    normal = refl;
    rt = refl;
    residents_kept = omega (arith, weighs (attr one), attr_same one);
  }

  stays_AfterTurn : AfterTurn s (record s { current = some q })
  stays_AfterTurn = record {
    good =
        Good-intro s (record s { current = some q }) i
          (record {
            jobs = λ v. omega (arith, attr_same v);
            n_process = refl;
            arrivals = refl;
            services = refl;
          })
          i.shape (λ a. omega (arith, i.owned a, owner_same a))
          (omega (arith, i.placed, unplaced_same)) i.begun;
    runs = has_pid;
    normal = refl;
    rt = refl;
    residents_kept = omega (arith, attr_same one);
  }

module _ (s : State) (i : Inv s) (run : Runs s) where
  demote-AfterTurn :
      (p : Pcb) (check : Bool) → s.current ≡ some p → AfterTurn s (demote s p check).0
  unfolding demote enq_pcb_hd
  demote-AfterTurn p check e =
      let charged = record p { remainingcputime = p.remainingcputime - s.quantum } in
      let lowered = record (suspend_pcb charged) { priority = 2 } in
      elim (Bool-cases (not (is_empty s.l0) || not (is_empty s.l1))) [
        | inl waiting ↦ elim (Bool-cases (p.priority == 1)) [
          | inl first ↦
              rw (waiting, first) (to_tail lowered (record { block = refl; attrs = λ v. refl }))
          | inr other ↦
              rw (waiting, other)
                (to_head (suspend_pcb charged) (record { block = refl; attrs = λ v. refl }))
        ]
        | inr alone ↦ elim (Bool-cases (p.priority == 1)) [
          | inl first ↦
              rw (alone, first) (to_tail lowered (record { block = refl; attrs = λ v. refl }))
          | inr other ↦
              rw (alone, other)
                (stays_AfterTurn s i run p charged e (record { block = refl; attrs = λ v. refl }))
        ]
      ]
    where
      to_tail :
          (q : Pcb) → Same p q → AfterTurn s (record s { current = none; l2 = enq_pcb s.l2 q })
      to_tail q h = level2_AfterTurn s i run p q e h (enq_pcb s.l2 q) (λ w. sum_of-enq_pcb w s.l2 q)

      to_head : (q : Pcb) → Same p q → AfterTurn s (record s { current = none; l2 = q ∷ s.l2 })
      to_head q h = level2_AfterTurn s i run p q e h (q ∷ s.l2) (λ w. omega arith)

  pub turn-AfterTurn : (check : Bool) → AfterTurn s (turn s check).0
  unfolding turn turn_of
  turn-AfterTurn check = go s.current refl
    where
      go : (c : Option Pcb) → s.current ≡ c → AfterTurn s (turn_of s c check).0
      go none e = record {
        good = Good-refl s i;
        runs = run;
        normal = refl;
        rt = refl;
        residents_kept = refl;
      }
      go (some p) e = demote-AfterTurn p check e
