-- ===== src/Unrolled.antt =====
-- Unrolled linked list/unrolled.{h,c}: a linked list of nodes that hold arrays of `n` slots. The
-- list is the sequence of its nodes in link order; a slot that is NULL is `none`. The locks, and the
-- memory that is freed, are outside the model.
pub mod Contents
pub mod Reads
pub mod Writes
pub mod Removes
pub mod Tests
use system_programming_and_d.Base.{
  ℕ, zero, suc, ◌+◌, ◌-◌, ◌^◌, Bool, true, false, List, [], ◌∷◌, Option, none, some, ltb, leb, ◌==◌,
  if◌then◌else◌, set, replicate, Outcome, ok, fault, ◌>>=◌,
}

-- struct node; `elements` has as many slots as the list's `n`.
pub record Node (A : Type 0) : Type 0 where
  pub elements : List (Option A)
  pub capacity : ℕ

-- struct unrolled_ll
pub record Unrolled (A : Type 0) : Type 0 where
  pub nodes : List (Node A)
  pub len : ℕ
  pub n_node : ℕ
  pub n : ℕ

-- What the search for the element `i` finds in a node: it, or how many elements were passed.
pub data Search (A : Type 0) : Type 0 where
  hit : A → Search A
  missed : ℕ → Search A

-- The same, with the slots after the element was taken out.
pub data Taken (A : Type 0) : Type 0 where
  taken : A → List (Option A) → Taken A
  passed : ℕ → Taken A

-- `n_node--` on a size_t
abbrev pub decr : ℕ → ℕ
decr zero = 2 ^ 64 - 1
decr (suc n) = n

module _ {A : Type 0} where
  unfoldable pub unrolled_ll_new : ℕ → Option (Unrolled A)
  unrolled_ll_new zero = none
  unrolled_ll_new (suc n) = some (record { nodes = []; len = 0; n_node = 0; n = suc n })

  -- A node with the element in its first slot.
  unfoldable pub create_new_node : ℕ → Option A → Node A
  create_new_node n e = record { elements = set (replicate n none) 0 e; capacity = 1 }

  unfoldable pub put_slot : Node A → Option A → Node A
  put_slot x e = record { elements = set x.elements x.capacity e; capacity = x.capacity + 1 }

  -- `steps` times `node = node->next`, and the write there; the Boolean is whether a node was
  -- created. It replaces what the node was linked to.
  unfoldable pub append_at : ℕ → ℕ → List (Node A) → Option A → Outcome (List (Node A) × Bool)
  unfolding put_slot create_new_node
  append_at n steps [] e = fault
  append_at n zero (x ∷ xs) e =
      if ltb x.capacity n
      then ok (put_slot x e ∷ xs, false)
      else ok (x ∷ create_new_node n e ∷ [], true)
  append_at n (suc steps) (x ∷ xs) e = append_at n steps xs e >>= λ r. ok (x ∷ r.0, r.1)

  unfoldable pub append_in : Unrolled A → List (Node A) → Option A → Outcome (Unrolled A)
  unfolding append_at create_new_node
  append_in l [] e = ok (record l { nodes = create_new_node l.n e ∷ []; len = 1; n_node = 1 })
  append_in l (x ∷ xs) e = do
    (ns, created) ← append_at l.n (l.n_node - 1) (x ∷ xs) e
    ok (record l {
      nodes = ns;
      len = l.len + 1;
      n_node = if created then l.n_node + 1 else l.n_node;
    })

  unfoldable pub unrolled_ll_append : Unrolled A → Option A → Outcome (Unrolled A)
  unfolding append_in
  unrolled_ll_append l e = append_in l l.nodes e

  -- The loop over a node's slots.
  unfoldable pub search_slots : ℕ → ℕ → List (Option A) → Search A
  search_slots pos i [] = missed pos
  search_slots pos i (none ∷ ss) = search_slots pos i ss
  search_slots pos i (some a ∷ ss) =
      let rest = search_slots (pos + 1) i ss in if pos == i then hit a else rest

  -- The loop over the nodes.
  unfoldable pub get_nodes : ℕ → ℕ → List (Node A) → Option A
  unfolding search_slots
  get_nodes pos i [] = none
  get_nodes pos i (x ∷ xs) = elim (search_slots pos i x.elements) [
    | hit a ↦ some a
    | missed p ↦ get_nodes p i xs
  ]

  unfoldable pub unrolled_ll_get : Unrolled A → ℕ → Option A
  unfolding get_nodes
  unrolled_ll_get l i = if leb l.len i then none else get_nodes 0 i l.nodes

  abbrev pub keep_slot : Option A → Taken A → Taken A
  keep_slot s (taken a ss) = taken a (s ∷ ss)
  keep_slot s (passed p) = passed p

  unfoldable pub take_slot : ℕ → ℕ → List (Option A) → Taken A
  take_slot pos i [] = passed pos
  take_slot pos i (none ∷ ss) = keep_slot none (take_slot pos i ss)
  take_slot pos i (some a ∷ ss) =
      let rest = keep_slot (some a) (take_slot (pos + 1) i ss) in
      if pos == i then taken a (none ∷ ss) else rest

  unfoldable pub is_vacant : List (Option A) → Bool
  is_vacant [] = true
  is_vacant (none ∷ ss) = is_vacant ss
  is_vacant (some a ∷ ss) = false

  -- What becomes of the node `x` with the slots `ss`; `len` has been counted down. The Boolean is
  -- `n_node--`. At the head `node_parent` is NULL.
  unfoldable pub drop_node :
      Bool → ℕ → Node A → List (Option A) → List (Node A) → Outcome (List (Node A) × Bool)
  unfolding is_vacant
  drop_node at_head len x ss xs =
      if is_vacant ss
      then if len == 0
        then ok (record x { elements = ss } ∷ xs, true)
        else if at_head
        then fault
        else ok (xs, true)
      else ok (record x { elements = ss } ∷ xs, false)

  abbrev pub keep_first :
      Node A → Option (A × List (Node A) × Bool) → Option (A × List (Node A) × Bool)
  keep_first x none = none
  keep_first x (some (a, ns, dropped)) = some (a, x ∷ ns, dropped)

  unfoldable pub remove_nodes :
      Bool → ℕ → ℕ → ℕ → List (Node A) → Outcome (Option (A × List (Node A) × Bool))
  unfolding take_slot drop_node
  remove_nodes at_head len pos i [] = ok none
  remove_nodes at_head len pos i (x ∷ xs) = elim (take_slot pos i x.elements) [
    | taken a ss ↦ drop_node at_head len x ss xs >>= λ r. ok (some (a, r.0, r.1))
    | passed p ↦ remove_nodes false len p i xs >>= λ r. ok (keep_first x r)
  ]

  abbrev pub removed : Unrolled A → Option (A × List (Node A) × Bool) → Option A × Unrolled A
  removed l none = (none, l)
  removed l (some (a, ns, dropped)) = (
    some a,
    record l { nodes = ns; len = l.len - 1; n_node = if dropped then decr l.n_node else l.n_node },
  )

  unfoldable pub unrolled_ll_remove : Unrolled A → ℕ → Outcome (Option A × Unrolled A)
  unfolding remove_nodes
  unrolled_ll_remove l i =
      if leb l.len i
      then ok (none, l)
      else (remove_nodes true (l.len - 1) 0 i l.nodes >>= λ r. ok (removed l r))
