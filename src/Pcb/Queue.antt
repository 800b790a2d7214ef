-- ===== src/Pcb/Queue.antt =====
-- The laws of the process queues.
use system_programming_and_d.Base.{
  Returns, Returns-bind, ℕ, ◌+◌, ◌≤◌, ◌≡◌, refl, ap, ◌⊎◌, inl, inr, Bool, true, false, List, [],
  ◌∷◌, ◌++◌, Option, none, some, arith, ltb, ◌==◌, if◌then◌else◌, sum_of, All, Bool-cases,
}
use system_programming_and_d.Pcb.{
  Pcb, enq_pcb, longest_from, find_max_remaining_time, remove_after, remove_specific_job,
}

-- Enqueueing is at the tail.
pub enq_pcb-append : (q : List Pcb) (p : Pcb) → enq_pcb q p ≡ q ++ p ∷ []
unfolding enq_pcb
enq_pcb-append [] p = refl
enq_pcb-append (x ∷ q) p = rw (enq_pcb-append q p)

pub sum_of-enq_pcb :
    (w : Pcb → ℕ) (q : List Pcb) (p : Pcb) → sum_of w (enq_pcb q p) ≡ sum_of w q + w p
unfolding enq_pcb
sum_of-enq_pcb w [] p = omega arith
sum_of-enq_pcb w (x ∷ q) p = omega (arith, sum_of-enq_pcb w q p)

-- The process is a member of the queue: it counts for what it weighs.
abbrev pub Within : Pcb → List Pcb → Type 0
Within p [] = ⊥
Within p (q ∷ qs) = (q ≡ p) ⊎ Within p qs

abbrev pub Longest : Pcb → List Pcb → Type 0
Longest p qs = All (λ q. q.remainingcputime ≤ p.remainingcputime) qs

abbrev pub pid_of : ℕ → Pcb → ℕ
pid_of x p = if p.pid == x then 1 else 0

-- The queue without one entry: every weight falls by that of the entry.
pub record Removed (q : List Pcb) (p : Pcb) (r : List Pcb) : Type 0 where
  pub weighs : (w : Pcb → ℕ) → sum_of w r + w p ≡ sum_of w q

pub Within-le : (w : Pcb → ℕ) (p : Pcb) (q : List Pcb) → Within p q → w p ≤ sum_of w q
Within-le w p [] m = absurd m
Within-le w p (x ∷ q) (inl e) = rw e (omega arith)
Within-le w p (x ∷ q) (inr m) = omega (arith, Within-le w p q m)

pid_of_self : (p : Pcb) → pid_of p.pid p ≡ 1
pid_of_self p = ground arith

-- Where the pids are distinct the head with the target's pid is the target.
head_is_target :
    (x p : Pcb) (q : List Pcb)
    → Within p (x ∷ q)
    → sum_of (pid_of p.pid) (x ∷ q) ≤ 1
    → (x.pid == p.pid) ≡ true
    → x ≡ p
head_is_target x p q (inl e) once same = e
head_is_target x p q (inr m) once same =
    absurd (ground (arith, Within-le (pid_of p.pid) p q m, pid_of_self p))

rest_has_target :
    (x p : Pcb) (q : List Pcb) → Within p (x ∷ q) → (x.pid == p.pid) ≡ false → Within p q
rest_has_target x p q (inl e) other = absurd (ground (arith, ap (λ (y : Pcb). y.pid) e))
rest_has_target x p q (inr m) other = m

Removed-head : (x p : Pcb) (q : List Pcb) → x ≡ p → Removed (x ∷ q) p q
Removed-head x p q e = record { weighs = λ w. rw e (omega arith) }

Removed-cons : (x p : Pcb) (q r : List Pcb) → Removed q p r → Removed (x ∷ q) p (x ∷ r)
Removed-cons x p q r h = record { weighs = λ w. omega (arith, h.weighs w) }

remove_after-Removed :
    (q : List Pcb) (p : Pcb)
    → Within p q
    → sum_of (pid_of p.pid) q ≤ 1
    → Returns (Removed q p) (remove_after q p.pid)
unfolding remove_after
remove_after-Removed [] p m once = m
remove_after-Removed (x ∷ q) p m once = elim (Bool-cases (x.pid == p.pid)) [
  | inl same ↦ rw same (Removed-head x p q (head_is_target x p q m once same))
  | inr other ↦ rw other (
      Returns-bind (Removed q p) (Removed (x ∷ q) p) (remove_after q p.pid) _
        (remove_after-Removed q p (rest_has_target x p q m other) (omega arith))
        (λ r h. Removed-cons x p q r h))
]

-- A process of the queue, whose pid no other has there, is taken out and no other is; the assertion
-- holds.
pub remove_specific_job-Removed :
    (q : List Pcb) (p : Pcb)
    → Within p q
    → sum_of (pid_of p.pid) q ≤ 1
    → Returns (Removed q p) (remove_specific_job q p)
unfolding remove_specific_job
remove_specific_job-Removed [] p m once = m
remove_specific_job-Removed (x ∷ q) p m once = elim (Bool-cases (x.pid == p.pid)) [
  | inl same ↦ rw same (Removed-head x p q (head_is_target x p q m once same))
  | inr other ↦ rw other (
      Returns-bind (Removed q p) (Removed (x ∷ q) p) (remove_after q p.pid) _
        (remove_after-Removed q p (rest_has_target x p q m other) (omega arith))
        (λ r h. Removed-cons x p q r h))
]

abbrev LongestFrom : Pcb → List Pcb → Pcb → Type 0
LongestFrom res q r =
    ((res ≡ r) ⊎ Within r q) × (res.remainingcputime ≤ r.remainingcputime) × Longest r q

longest_from-lem : (res : Pcb) (q : List Pcb) → LongestFrom res q (longest_from res q)
unfolding longest_from
longest_from-lem res [] = (inl refl, omega arith, tt)
longest_from-lem res (x ∷ q) =
    go (ltb res.remainingcputime x.remainingcputime) refl (longest_from-lem x q)
      (longest_from-lem res q)
  where
    place : (r : Pcb) → (x ≡ r) ⊎ Within r q → (res ≡ r) ⊎ Within r (x ∷ q)
    place r m = inr m

    keep : (r : Pcb) → (res ≡ r) ⊎ Within r q → (res ≡ r) ⊎ Within r (x ∷ q)
    keep r (inl e) = inl e
    keep r (inr m) = inr (inr m)

    go :
        (t : Bool)
        → ltb res.remainingcputime x.remainingcputime ≡ t
        → LongestFrom x q (longest_from x q)
        → LongestFrom res q (longest_from res q)
        → LongestFrom res (x ∷ q) (longest_from (if t then x else res) q)
    go true e h k = (place _ h.0, ground (arith, h.1), (h.1, h.2))
    go false e h k = (keep _ k.0, k.1, (ground (arith, k.1), k.2))

abbrev pub Chosen : List Pcb → Option Pcb → Type 0
Chosen q none = q ≡ []
Chosen q (some p) = Within p q × Longest p q

-- The choice is a process of the queue that has as much time left as any; NULL is for an empty
-- queue alone.
pub find_max_remaining_time-Chosen : (q : List Pcb) → Chosen q (find_max_remaining_time q)
unfolding find_max_remaining_time
find_max_remaining_time-Chosen [] = refl
find_max_remaining_time-Chosen (h ∷ q) =
    let (place, at_least, rest) = longest_from-lem h (h ∷ q) in (settle _ place, rest)
  where
    settle : (r : Pcb) → (h ≡ r) ⊎ Within r (h ∷ q) → Within r (h ∷ q)
    settle r (inl e) = inl e
    settle r (inr m) = m
