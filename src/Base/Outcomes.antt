-- ===== src/Base/Outcomes.antt =====
-- What a C call can do: return, end the process by `exit`, or fault (a failed assertion, a NULL, a
-- dangling or a freed pointer that is used, or an `int` that overflows where the model checks it).
use Prim.Native.Nat.{ℕ}
use mathlib.Core.Bool.{Bool, true, false}
use system_programming_and_d.Base.Tests.{if◌then◌else◌}

pub data Outcome {ℓ} (A : Type ℓ) : Type ℓ where
  ok : A → Outcome A
  exits : ℕ → Outcome A
  fault : Outcome A

infixl 5 ◌>>=◌
abbrev pub ◌>>=◌ {ℓ κ} : {A : Type ℓ} {B : Type κ} → Outcome A → (A → Outcome B) → Outcome B
ok a >>= f = f a
exits c >>= f = exits c
fault >>= f = fault

-- No fault, and the predicate on what is returned.
abbrev pub Ensures : {A : Type 0} → (A → Type 0) → Outcome A → Type 0
Ensures P (ok a) = P a
Ensures P (exits c) = Unit {0}
Ensures P fault = ⊥

pub Ensures-bind :
    {A B : Type 0} (P : A → Type 0) (Q : B → Type 0) (m : Outcome A) (f : A → Outcome B)
    → Ensures P m
    → ((a : A) → P a → Ensures Q (f a))
    → Ensures Q (m >>= f)
Ensures-bind P Q (ok a) f h k = k a h
Ensures-bind P Q (exits c) f h k = tt
Ensures-bind P Q fault f h k = h

pub Ensures-mono :
    {A : Type 0} (P Q : A → Type 0) (m : Outcome A)
    → Ensures P m
    → ((a : A) → P a → Q a)
    → Ensures Q m
Ensures-mono P Q (ok a) h k = k a h
Ensures-mono P Q (exits c) h k = tt
Ensures-mono P Q fault h k = h

-- The call returns, with the predicate on what it returns.
abbrev pub Returns : {A : Type 0} → (A → Type 0) → Outcome A → Type 0
Returns P (ok a) = P a
Returns P (exits c) = ⊥
Returns P fault = ⊥

pub Returns-bind :
    {A B : Type 0} (P : A → Type 0) (Q : B → Type 0) (m : Outcome A) (f : A → Outcome B)
    → Returns P m
    → ((a : A) → P a → Returns Q (f a))
    → Returns Q (m >>= f)
Returns-bind P Q (ok a) f h k = k a h
Returns-bind P Q (exits c) f h k = h
Returns-bind P Q fault f h k = h

pub Returns-mono :
    {A : Type 0} (P Q : A → Type 0) (m : Outcome A)
    → Returns P m
    → ((a : A) → P a → Q a)
    → Returns Q m
Returns-mono P Q (ok a) h k = k a h
Returns-mono P Q (exits c) h k = h
Returns-mono P Q fault h k = h

pub Returns-Ensures : {A : Type 0} (P : A → Type 0) (m : Outcome A) → Returns P m → Ensures P m
Returns-Ensures P (ok a) h = h
Returns-Ensures P (exits c) h = tt
Returns-Ensures P fault h = h

-- The call does not end the process.
abbrev pub Stays : {A : Type 0} → Outcome A → Type 0
Stays (ok a) = Unit {0}
Stays (exits c) = ⊥
Stays fault = Unit {0}

pub Stays-bind :
    {A B : Type 0} (m : Outcome A) (f : A → Outcome B)
    → Stays m
    → ((a : A) → Stays (f a))
    → Stays (m >>= f)
Stays-bind (ok a) f h k = k a
Stays-bind (exits c) f h k = h
Stays-bind fault f h k = tt

pub Stays-if :
    {A : Type 0} (t : Bool) (x y : Outcome A) → Stays x → Stays y → Stays (if t then x else y)
Stays-if true x y h k = h
Stays-if false x y h k = k

pub Ensures-Returns :
    {A : Type 0} (P : A → Type 0) (m : Outcome A) → Ensures P m → Stays m → Returns P m
Ensures-Returns P (ok a) h k = h
Ensures-Returns P (exits c) h k = k
Ensures-Returns P fault h k = h
