-- ===== src/Dispatcher/Freed.antt =====
-- The dispatcher where the C library does not leave a freed node intact: up to the fault it runs as
-- where the library does.
use system_programming_and_d.Base.{
  ℕ, zero, suc, ◌≡◌, refl, ◌⊎◌, inl, inr, Bool, true, false, List, [], ◌∷◌, Option, none, some, leb,
  if◌then◌else◌, Outcome, ok, exits, fault, ◌>>=◌,
}
use system_programming_and_d.Memory.{
  Block, Cursor, FreedNode, intact, lost, merge_prev, mem_free_at, seek, free_found, mem_free,
  mem_alloc,
}
use system_programming_and_d.Pcb.{Pcb, remove_specific_job}
use system_programming_and_d.Dispatcher.{
  State, Victim, nobody, runner, queued, is_busy, unload, finish, expire_of, expire, admit_normal,
  tried, probe_for, probe, swap_away, charge, has_pid_of, swap_runner, swap_out, one_round,
  main_loop,
}

-- The first outcome is a fault, or the second.
abbrev pub Agrees : {A : Type 0} → Outcome A → Outcome A → Type 0
Agrees r r' = (r ≡ fault) ⊎ (r ≡ r')

Agrees-bind :
    {A B : Type 0} (m m' : Outcome A) (f f' : A → Outcome B)
    → Agrees m m'
    → ((a : A) → Agrees (f a) (f' a))
    → Agrees (m >>= f) (m' >>= f')
Agrees-bind m m' f f' (inl e) h = inl (rw e refl)
Agrees-bind m (ok a) f f' (inr e) h = rw e (h a)
Agrees-bind m (exits c) f f' (inr e) h = inr (rw e refl)
Agrees-bind m fault f f' (inr e) h = inr (rw e refl)

Agrees-after :
    {A B : Type 0} (m : Outcome A) (f f' : A → Outcome B)
    → ((a : A) → Agrees (f a) (f' a))
    → Agrees (m >>= f) (m >>= f')
Agrees-after m f f' h = Agrees-bind m m f f' (inr refl) h

Agrees-then :
    {A B : Type 0} (m m' : Outcome A) (f : A → Outcome B)
    → Agrees m m'
    → Agrees (m >>= f) (m' >>= f)
Agrees-then m m' f h = Agrees-bind m m' f f h (λ a. inr refl)

Agrees-if :
    {A : Type 0} (t : Bool) (x x' y y' : Outcome A)
    → Agrees x x'
    → Agrees y y'
    → Agrees (if t then x else y) (if t then x' else y')
Agrees-if true x x' y y' h k = h
Agrees-if false x x' y y' h k = k

merge_prev-Agrees :
    (before : List Block) (b : Block) (after : List Block)
    → let c : Cursor = record { before = before; node = b; after = after } in
      Agrees (merge_prev lost c) (merge_prev intact c)
unfolding merge_prev
merge_prev-Agrees [] b after = inr refl
merge_prev-Agrees (p ∷ ps) b after = Agrees-if p.allocated _ _ _ _ (inr refl) (inl refl)

free_found-Agrees : (r : Option Cursor) → Agrees (free_found lost r) (free_found intact r)
unfolding free_found mem_free_at
free_found-Agrees none = inr refl
free_found-Agrees (some c) =
    let start : Cursor = record c { node = record (c.node) { allocated = false } } in
    Agrees-then (mem_free_at lost c) (mem_free_at intact c) _ (
      Agrees-then (merge_prev lost start) (merge_prev intact start) _
        (merge_prev-Agrees c.before _ c.after))

mem_free-Agrees :
    (arena : List Block) (m : Option ℕ) → Agrees (mem_free lost arena m) (mem_free intact arena m)
unfolding mem_free
mem_free-Agrees arena none = inr refl
mem_free-Agrees arena (some a) = free_found-Agrees (seek [] arena a)

expire_of-Agrees : (s : State) (c : Option Pcb) → Agrees (expire_of lost s c) (expire_of intact s c)
unfolding expire_of finish
expire_of-Agrees s none = inr refl
expire_of-Agrees s (some p) =
    Agrees-if (leb p.remainingcputime s.quantum) _ _ _ _
      (Agrees-then (mem_free lost s.memory_blocks p.memoryblock)
        (mem_free intact s.memory_blocks p.memoryblock) _
        (mem_free-Agrees s.memory_blocks p.memoryblock))
      (inr refl)

tried-Agrees : (s : State) (r : Option ℕ × List Block) → Agrees (tried lost s r) (tried intact s r)
unfolding tried
tried-Agrees s (some a, arena) =
    Agrees-then (mem_free lost arena (some a)) (mem_free intact arena (some a)) _
      (mem_free-Agrees arena (some a))
tried-Agrees s (none, arena) = inr refl

swap_away-Agrees : (s : State) (p : Pcb) → Agrees (swap_away lost s p) (swap_away intact s p)
unfolding swap_away
swap_away-Agrees s p =
    Agrees-then (mem_free lost s.memory_blocks p.memoryblock)
      (mem_free intact s.memory_blocks p.memoryblock) _
      (mem_free-Agrees s.memory_blocks p.memoryblock)

swap_runner-Agrees :
    (s : State) (c : Option Pcb) → Agrees (swap_runner lost s c) (swap_runner intact s c)
unfolding swap_runner
swap_runner-Agrees s none = inr refl
swap_runner-Agrees s (some p) = swap_away-Agrees _ (charge s p)

swap_out-Agrees : (s : State) (v : Victim) → Agrees (swap_out lost s v) (swap_out intact s v)
unfolding swap_out
swap_out-Agrees s nobody = inr refl
swap_out-Agrees s runner = swap_runner-Agrees s s.current
swap_out-Agrees s (queued v) =
    Agrees-if (has_pid_of s.current v) _ _ _ _ (swap_away-Agrees _ v)
      (Agrees-after (remove_specific_job s.l2 v) _ _ (λ q. swap_away-Agrees _ v))

module _ (malloc : List Block → Option ℕ) (fork : State → Option ℕ) where
  probe_for-Agrees :
      (s : State) (q : List Pcb) → Agrees (probe_for lost malloc s q) (probe_for intact malloc s q)
  unfolding probe_for
  probe_for-Agrees s [] = inr refl
  probe_for-Agrees s (j ∷ js) =
      Agrees-after (mem_alloc malloc s.memory_blocks j.mbytes) _ _ (tried-Agrees s)

  pub one_round-Agrees :
      (s : State) → Agrees (one_round lost malloc fork s) (one_round intact malloc fork s)
  unfolding one_round expire probe
  one_round-Agrees s =
      Agrees-bind (expire_of lost (unload s) (unload s).current)
        (expire_of intact (unload s) (unload s).current) _ _
        (expire_of-Agrees (unload s) (unload s).current)
        λ r1. Agrees-after (admit_normal malloc r1.0) _ _ λ s2.
          Agrees-bind (probe_for lost malloc s2 s2.rt_dispatch)
            (probe_for intact malloc s2 s2.rt_dispatch) _ _ (probe_for-Agrees s2 s2.rt_dispatch)
            λ r3.
              Agrees-then (swap_out lost r3.0 r3.1) (swap_out intact r3.0 r3.1) _
                (swap_out-Agrees r3.0 r3.1)

  pub main_loop-Agrees :
      (n : ℕ) (s : State)
      → Agrees (main_loop lost n malloc fork s) (main_loop intact n malloc fork s)
  unfolding main_loop
  main_loop-Agrees zero s = inr refl
  main_loop-Agrees (suc n) s =
      Agrees-if (is_busy s) _ _ _ _
        (Agrees-bind (one_round lost malloc fork s) (one_round intact malloc fork s) _ _
          (one_round-Agrees s) (main_loop-Agrees n))
        (inr refl)

-- A postcondition of a run; where a freed node is lost, the run may end in a fault instead.
abbrev pub Unless : {A : Type 0} → FreedNode → (Outcome A → Type 0) → Outcome A → Type 0
Unless intact Q r = Q r
Unless lost Q r = (r ≡ fault) ⊎ Q r

pub Unless-intro :
    {A : Type 0} (freed : FreedNode) (Q : Outcome A → Type 0) (r : FreedNode → Outcome A)
    → Agrees (r lost) (r intact)
    → Q (r intact)
    → Unless freed Q (r freed)
Unless-intro intact Q r a h = h
Unless-intro lost Q r (inl e) h = inl e
Unless-intro lost Q r (inr e) h = inr (rw e h)
