-- ===== src/Dispatcher/Admit.antt =====
-- Phases ii, iv.a and vi: arrived jobs are sorted by kind and admitted into memory.
use system_programming_and_d.Base.{
  ℕ, ◌+◌, ◌≤◌, ◌≡◌, List, [], ◌∷◌, Option, none, some, arith, leb, ◌==◌, if◌then◌else◌, sum_of, inl,
  inr, ok, ◌>>=◌, Ensures, Ensures-bind, Ensures-mono, refl, Bool-cases,
}
use system_programming_and_d.Memory.{Block, mem_alloc}
use system_programming_and_d.Memory.Shape.{IsArena, held}
use system_programming_and_d.Memory.Walk.{NoneServes}
use system_programming_and_d.Memory.Alloc.{IsFresh, Allocated, mem_alloc-Allocated}
use system_programming_and_d.Pcb.{Pcb, enq_pcb}
use system_programming_and_d.Pcb.Queue.{sum_of-enq_pcb}
use system_programming_and_d.Dispatcher.{
  State, unload_from, unload, admit_or_stop, admit, admit_normal, admit_rt, is_empty,
}
use system_programming_and_d.Dispatcher.Invariant.{
  Inv, Good, Good-refl, Good-intro, Good-trans, owner, unplaced, attr, one, residents, weigh,
}

-- Where an arrived job goes.
abbrev arrive : State → Pcb → State
arrive s j =
    if j.priority == 0
    then record s { rt_dispatch = enq_pcb s.rt_dispatch j }
    else record s { normal_dispatch = enq_pcb s.normal_dispatch j }

abbrev with_jobs : State → List Pcb → State
with_jobs s js = record s { job_dispatch = js }

arrive-Good :
    (s : State) (j : Pcb) (js : List Pcb)
    → Inv (with_jobs s (j ∷ js))
    → Good (with_jobs s (j ∷ js)) (with_jobs (arrive s j) js)
arrive-Good s j js i = elim (Bool-cases (j.priority == 0)) [
  | inl rt ↦ rw rt (
      Good-intro (with_jobs s (j ∷ js)) _ i
        (record {
          jobs = λ v. omega (arith, sum_of-enq_pcb (attr v) s.rt_dispatch j);
          n_process = refl;
          arrivals = refl;
          services = refl;
        })
        i.shape i.owned i.placed i.begun)
  | inr normal ↦ rw normal (
      Good-intro (with_jobs s (j ∷ js)) _ i
        (record {
          jobs = λ v. omega (arith, sum_of-enq_pcb (attr v) s.normal_dispatch j);
          n_process = refl;
          arrivals = refl;
          services = refl;
        })
        i.shape i.owned i.placed i.begun)
]

unload_from-Good :
    (s : State) (js : List Pcb) → Inv (with_jobs s js) → Good (with_jobs s js) (unload_from s js)
unfolding unload_from
unload_from-Good s [] i = Good-refl (with_jobs s []) i
unload_from-Good s (j ∷ js) i = elim (Bool-cases (leb j.arrivaltime s.timer)) [
  | inl here ↦
      let g = arrive-Good s j js i in
      rw here (
        Good-trans (with_jobs s (j ∷ js)) (with_jobs (arrive s j) js) (unload_from (arrive s j) js)
          g (unload_from-Good (arrive s j) js g.inv))
  | inr later ↦ rw later (Good-refl (with_jobs s (j ∷ js)) i)
]

pub unload-Good : (s : State) → Inv s → Good s (unload s)
unfolding unload
unload-Good s i = unload_from-Good s s.job_dispatch i

-- The job at the head of the queue cannot be served.
abbrev pub Blocked : List Block → List Pcb → Type 0
Blocked arena [] = Unit {0}
Blocked arena (j ∷ js) = NoneServes j.mbytes arena

-- The result of the admission loop, where `rest` owns the blocks that `level` does not.
pub record Admitted (rest : ℕ → ℕ) (js level : List Pcb) (r : List Block × List Pcb × List Pcb)
    : Type 0 where
  pub shape : IsArena r.0
  pub owned : (a : ℕ) → held a r.0 ≡ rest a + sum_of (owner a) r.2
  pub placed : sum_of unplaced r.2 ≡ 0
  pub jobs :
      (v : ℕ → ℕ → ℕ → ℕ → ℕ)
      → sum_of (attr v) r.1 + sum_of (attr v) r.2 ≡ sum_of (attr v) js + sum_of (attr v) level
  pub grows : (v : ℕ → ℕ → ℕ → ℕ → ℕ) → sum_of (attr v) level ≤ sum_of (attr v) r.2
  pub stuck : Blocked r.0 r.1

module _ (malloc : List Block → Option ℕ) (fresh : IsFresh malloc) (rest : ℕ → ℕ) where
  admit-Admitted :
      (arena : List Block) (js level : List Pcb)
      → IsArena arena
      → ((a : ℕ) → held a arena ≡ rest a + sum_of (owner a) level)
      → sum_of unplaced level ≡ 0
      → Ensures (Admitted rest js level) (admit malloc arena js level)
  unfolding admit
  admit-Admitted arena [] level h owned placed = record {
    shape = h;
    owned = owned;
    placed = placed;
    jobs = λ v. refl;
    grows = λ v. omega arith;
    stuck = tt;
  }
  admit-Admitted arena (j ∷ js) level h owned placed =
      Ensures-bind (Allocated arena j.mbytes) (Admitted rest (j ∷ js) level)
        (mem_alloc malloc arena j.mbytes) _ (mem_alloc-Allocated malloc arena j.mbytes fresh h)
        (next (λ arena' level' h' o p. admit-Admitted arena' js level' h' o p))
    where
      next :
          ((arena' : List Block) (level' : List Pcb)
            → IsArena arena'
            → ((a : ℕ) → held a arena' ≡ rest a + sum_of (owner a) level')
            → sum_of unplaced level' ≡ 0
            → Ensures (Admitted rest js level') (admit malloc arena' js level'))
          → (r : Option ℕ × List Block) → Allocated arena j.mbytes r
          → Ensures
              (Admitted rest (j ∷ js) level)
              (admit_or_stop (λ arena' level'. admit malloc arena' js level') j js level r)
      next again (none, r) g = record {
        shape = rw g.0 h;
        owned = rw g.0 owned;
        placed = placed;
        jobs = λ v. refl;
        grows = λ v. omega arith;
        stuck = rw g.0 g.1;
      }
      next again (some a, r) g =
          let j' = record j { memoryblock = some a } in
          Ensures-mono (Admitted rest js (enq_pcb level j')) (Admitted rest (j ∷ js) level)
            (admit malloc r js (enq_pcb level j'))
            (again r (enq_pcb level j') g.shape
              (λ x. omega (arith, g.holds x, owned x, sum_of-enq_pcb (owner x) level j'))
              (omega (arith, sum_of-enq_pcb unplaced level j')))
            (λ q k. record {
              shape = k.shape;
              owned = k.owned;
              placed = k.placed;
              jobs = λ v. omega (arith, k.jobs v, sum_of-enq_pcb (attr v) level j');
              grows = λ v. omega (arith, k.grows v, sum_of-enq_pcb (attr v) level j');
              stuck = k.stuck;
            })

-- What vi does, besides keeping the invariant.
pub record AfterRt (s t : State) : Type 0 where
  pub good : Good s t
  pub runner : t.current ≡ s.current
  pub normal : t.normal_dispatch ≡ s.normal_dispatch
  pub moved :
      sum_of (attr one) t.rt_dispatch + residents t ≡ sum_of (attr one) s.rt_dispatch + residents s
  pub grows : residents s ≤ residents t
  pub stuck : Blocked t.memory_blocks t.rt_dispatch

pub admit_rt-AfterRt :
    (malloc : List Block → Option ℕ) (s : State)
    → IsFresh malloc
    → Inv s
    → Ensures (AfterRt s) (admit_rt malloc s)
unfolding admit_rt
admit_rt-AfterRt malloc s fresh i =
    Ensures-bind (Admitted others s.rt_dispatch s.l0) (AfterRt s)
      (admit malloc s.memory_blocks s.rt_dispatch s.l0) _
      (admit-Admitted malloc fresh others s.memory_blocks s.rt_dispatch s.l0 i.shape
        (λ a. omega (arith, i.owned a)) (omega (arith, i.placed)))
      λ r k. record {
        good =
            Good-intro s _ i
              (record {
                jobs = λ v. omega (arith, k.jobs v);
                n_process = refl;
                arrivals = refl;
                services = refl;
              })
              k.shape (λ a. omega (arith, k.owned a)) (omega (arith, k.placed, i.placed)) i.begun;
        runner = refl;
        normal = refl;
        moved = omega (arith, k.jobs one);
        grows = omega (arith, k.grows one);
        stuck = k.stuck;
      }
  where
    others : ℕ → ℕ
    others a = weigh (owner a) s.current + sum_of (owner a) s.l1 + sum_of (owner a) s.l2

-- What iv.a does, besides keeping the invariant.
pub record AfterNormal (s t : State) : Type 0 where
  pub good : Good s t
  pub runner : t.current ≡ s.current
  pub rt : t.rt_dispatch ≡ s.rt_dispatch
  pub stuck : s.rt_dispatch ≡ [] → Blocked t.memory_blocks t.normal_dispatch

pub admit_normal-AfterNormal :
    (malloc : List Block → Option ℕ) (s : State)
    → IsFresh malloc
    → Inv s
    → Ensures (AfterNormal s) (admit_normal malloc s)
unfolding admit_normal
admit_normal-AfterNormal malloc s fresh i = elim (Bool-cases (is_empty s.rt_dispatch)) [
  | inl e ↦ rw e admitted
  | inr e ↦ rw e (record {
    good = Good-refl s i;
    runner = refl;
    rt = refl;
    stuck = λ h. absurd (ground (arith, e, h));
  })
]
  where
    others : ℕ → ℕ
    others a = weigh (owner a) s.current + sum_of (owner a) s.l0 + sum_of (owner a) s.l2

    admitted : Ensures (AfterNormal s) (do
      (arena, left, level) ← admit malloc s.memory_blocks s.normal_dispatch s.l1
      ok (record s { memory_blocks = arena; normal_dispatch = left; l1 = level }))
    admitted =
        (Ensures-bind (Admitted others s.normal_dispatch s.l1) (AfterNormal s)
          (admit malloc s.memory_blocks s.normal_dispatch s.l1) _
          (admit-Admitted malloc fresh others s.memory_blocks s.normal_dispatch s.l1 i.shape
            (λ a. omega (arith, i.owned a)) (omega (arith, i.placed)))
          λ r k. record {
            good =
                Good-intro s _ i
                  (record {
                    jobs = λ v. omega (arith, k.jobs v);
                    n_process = refl;
                    arrivals = refl;
                    services = refl;
                  })
                  k.shape (λ a. omega (arith, k.owned a)) (omega (arith, k.placed, i.placed))
                  i.begun;
            runner = refl;
            rt = refl;
            stuck = λ h. k.stuck;
          })

unload_from-current : (s : State) (js : List Pcb) → (unload_from s js).current ≡ s.current
unfolding unload_from
unload_from-current s [] = refl
unload_from-current s (j ∷ js) = ground (arith, unload_from-current (arrive s j) js)

pub unload-current : (s : State) → (unload s).current ≡ s.current
unfolding unload
unload-current s = unload_from-current s s.job_dispatch
