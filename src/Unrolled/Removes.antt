-- ===== src/Unrolled/Removes.antt =====
-- unrolled_ll_remove, against the sequence.
use system_programming_and_d.Base.{
  ◌⊎◌, ℕ, zero, suc, ◌+◌, ◌-◌, ◌≤◌, ◌<◌, ◌≡◌, refl, sym, ap, ◌∙◌, Bool, true, false, inl, inr,
  Bool-cases, List, [], ◌∷◌, ◌++◌, Option, none, some, arith, get_elem?, length, length-append, All,
  leb, ◌==◌, if◌then◌else◌, Outcome, ok, fault, ◌>>=◌, Returns, Returns-bind,
}
use system_programming_and_d.Unrolled.{
  Node, Unrolled, Taken, taken, passed, keep_slot, take_slot, is_vacant, drop_node, keep_first,
  remove_nodes, removed, decr, unrolled_ll_remove,
}
use system_programming_and_d.Unrolled.Contents.{
  values, contents, IsFree, Fits, IsOrdered, get_elem?-left, get_elem?-right, get_elem?-past,
  without_at, without_at-left, without_at-right, length-without_at,
}

decr_suc : (n m : ℕ) → n ≡ m + 1 → decr n ≡ m
decr_suc zero m e = absurd (omega arith)
decr_suc (suc n) m e = omega arith

module _ {A : Type 0} where
  -- The `k`-th value of the slots is taken out of them, or all values are passed.
  record TakenOut (ss : List (Option A)) (k : ℕ) (a : A) (ss' : List (Option A)) : Type 0 where
    pub inside : k < length (values ss)
    pub value : get_elem? (values ss) k ≡ some a
    pub rest : values ss' ≡ without_at (values ss) k
    pub width : length ss' ≡ length ss
    pub free : (c : ℕ) → IsFree c ss → IsFree c ss'

  abbrev Takes : List (Option A) → ℕ → ℕ → Taken A → Type 0
  Takes ss k pos (taken a ss') = TakenOut ss k a ss'
  Takes ss k pos (passed p) = (length (values ss) ≤ k) × (p ≡ pos + length (values ss))

  clear-IsFree :
      (c : ℕ) (s : Option A) (ss : List (Option A)) → IsFree c (s ∷ ss) → IsFree c (none ∷ ss)
  clear-IsFree zero s ss h = (refl, h.1)
  clear-IsFree (suc c) s ss h = h

  keep-IsFree :
      (c : ℕ) (s : Option A) (ss ss' : List (Option A))
      → ((d : ℕ) → IsFree d ss → IsFree d ss')
      → IsFree c (s ∷ ss)
      → IsFree c (s ∷ ss')
  keep-IsFree zero s ss ss' k h = (h.0, k 0 h.1)
  keep-IsFree (suc c) s ss ss' k h = k c h

  skip_none-Takes :
      (ss : List (Option A)) (k pos : ℕ) (r : Taken A)
      → Takes ss k pos r
      → Takes (none ∷ ss) k pos (keep_slot none r)
  skip_none-Takes ss k pos (taken a ss') h = record {
    inside = h.inside;
    value = h.value;
    rest = h.rest;
    width = ap suc h.width;
    free = λ c. keep-IsFree c none ss ss' h.free;
  }
  skip_none-Takes ss k pos (passed p) h = h

  skip_some-Takes :
      (b : A) (ss : List (Option A)) (k pos : ℕ) (r : Taken A)
      → Takes ss k (pos + 1) r
      → Takes (some b ∷ ss) (suc k) pos (keep_slot (some b) r)
  skip_some-Takes b ss k pos (taken a ss') h = record {
    inside = omega (arith, h.inside);
    value = h.value;
    rest = ap (λ (t : List A). b ∷ t) h.rest;
    width = ap suc h.width;
    free = λ c. keep-IsFree c (some b) ss ss' h.free;
  }
  skip_some-Takes b ss k pos (passed p) h = (omega (arith, h.0), omega (arith, h.1))

  take_slot-Takes :
      (ss : List (Option A)) (pos i k : ℕ) → i ≡ pos + k → Takes ss k pos (take_slot pos i ss)
  unfolding take_slot
  take_slot-Takes [] pos i k e = (omega arith, omega arith)
  take_slot-Takes (none ∷ ss) pos i k e =
      skip_none-Takes ss k pos (take_slot pos i ss) (take_slot-Takes ss pos i k e)
  take_slot-Takes (some a ∷ ss) pos i zero e =
      let here : (pos == i) ≡ true = ground arith in
      rw here (record {
        inside = omega arith;
        value = refl;
        rest = refl;
        width = refl;
        free = λ c. clear-IsFree c (some a) ss;
      })
  take_slot-Takes (some a ∷ ss) pos i (suc k) e =
      let later : (pos == i) ≡ false = ground arith in
      rw later (
        skip_some-Takes a ss k pos (take_slot (pos + 1) i ss)
          (take_slot-Takes ss (pos + 1) i k (omega arith)))

  vacant-values : (ss : List (Option A)) → is_vacant ss ≡ true → values ss ≡ []
  unfolding is_vacant
  vacant-values [] h = refl
  vacant-values (none ∷ ss) h = vacant-values ss h
  vacant-values (some a ∷ ss) h = cc

  values-vacant : (ss : List (Option A)) → length (values ss) ≡ 0 → is_vacant ss ≡ true
  unfolding is_vacant
  values-vacant [] h = refl
  values-vacant (none ∷ ss) h = values-vacant ss h
  values-vacant (some a ∷ ss) h = absurd (omega arith)

  -- The element is not the only one of a head node while `len` others are left.
  abbrev pub Removable : Bool → ℕ → ℕ → List (Node A) → Type 0
  Removable at_head len k [] = Unit {0}
  Removable at_head len k (x ∷ xs) =
      at_head ≡ true → length (values x.elements) ≡ 1 → k ≡ 0 → len ≡ 0

  record Out (n len k : ℕ) (ns : List (Node A)) (a : A) (ns' : List (Node A)) (dropped : Bool)
      : Type 0 where
    pub value : get_elem? (contents ns) k ≡ some a
    pub rest : contents ns' ≡ without_at (contents ns) k
    pub fit : All (Fits n) ns'
    pub linked : 0 < len → length ns ≡ (if dropped then length ns' + 1 else length ns')

  abbrev TakesOut : ℕ → ℕ → ℕ → List (Node A) → Option (A × List (Node A) × Bool) → Type 0
  TakesOut n len k ns none = ⊥
  TakesOut n len k ns (some (a, ns', dropped)) = Out n len k ns a ns' dropped

  slots-Fits :
      (n k : ℕ) (x : Node A) (a : A) (ss : List (Option A))
      → Fits n x
      → TakenOut x.elements k a ss
      → Fits n (record x { elements = ss })
  slots-Fits n k x a ss h t = record {
    width = t.width ∙ h.width;
    bound = h.bound;
    free = t.free x.capacity h.free;
  }

  drop_node-Out :
      (at_head : Bool) (n len k : ℕ) (x : Node A) (xs : List (Node A)) (a : A)
      (ss : List (Option A))
      → All (Fits n) (x ∷ xs)
      → Removable at_head len k (x ∷ xs)
      → TakenOut x.elements k a ss
      → Returns (λ r. Out n len k (x ∷ xs) a r.0 r.1) (drop_node at_head len x ss xs)
  unfolding drop_node
  drop_node-Out at_head n len k x xs a ss h safe t = elim (Bool-cases (is_vacant ss)) [
    | inr filled ↦ rw filled (kept false (λ z. refl))
    | inl vacant ↦ elim (Bool-cases (len == 0)) [
      | inl last ↦ rw (vacant, last) (kept true (λ z. absurd (ground (arith, last, z))))
      | inr more ↦ rw (vacant, more) (unlinked vacant more at_head safe)
    ]
  ]
    where
      value : get_elem? (contents (x ∷ xs)) k ≡ some a
      value = get_elem?-left (values x.elements) (contents xs) k t.inside ∙ t.value

      rest : values ss ++ contents xs ≡ without_at (contents (x ∷ xs)) k
      rest =
          ap (λ (v : List A). v ++ contents xs) t.rest
          ∙ sym (without_at-left (values x.elements) (contents xs) k t.inside)

      kept :
          (dropped : Bool)
          → (0 < len → length (x ∷ xs) ≡ (if dropped then length (x ∷ xs) + 1 else length (x ∷ xs)))
          → Out n len k (x ∷ xs) a (record x { elements = ss } ∷ xs) dropped
      kept dropped l = record {
        value = value;
        rest = rest;
        fit = (slots-Fits n k x a ss h.0 t, h.1);
        linked = l;
      }

      unlinked :
          is_vacant ss ≡ true
          → (len == 0) ≡ false
          → (b : Bool) → Removable b len k (x ∷ xs)
          → Returns
              (λ (r : List (Node A) × Bool). Out n len k (x ∷ xs) a r.0 r.1)
              (if b then fault else ok (xs, true))
      unlinked vacant more true s =
          let one = length-without_at (values x.elements) k t.inside in
          let gone = ap (λ (v : List A). length v) (sym t.rest ∙ vacant-values ss vacant) in
          absurd (
            ground
              (arith, more, s refl (omega (arith, one, gone)) (omega (arith, one, gone, t.inside))))
      unlinked vacant more false s = record {
        value = value;
        rest = ap (λ (v : List A). v ++ contents xs) (sym (vacant-values ss vacant)) ∙ rest;
        fit = h.1;
        linked = λ z. omega arith;
      }

  remove_nodes-TakesOut :
      (at_head : Bool) (n len pos i k : ℕ) (ns : List (Node A))
      → i ≡ pos + k
      → k < length (contents ns)
      → All (Fits n) ns
      → Removable at_head len k ns
      → Returns (TakesOut n len k ns) (remove_nodes at_head len pos i ns)
  unfolding remove_nodes
  remove_nodes-TakesOut at_head n len pos i k [] e lt h safe = absurd (omega arith)
  remove_nodes-TakesOut at_head n len pos i k (x ∷ xs) e lt h safe =
      go (take_slot pos i x.elements) (take_slot-Takes x.elements pos i k e) (λ p e' lt'.
        remove_nodes-TakesOut false n len p i (k - length (values x.elements)) xs e' lt' h.1
          (later xs))
    where
      later : (ys : List (Node A)) → Removable false len (k - length (values x.elements)) ys
      later [] = tt
      later (y ∷ ys) = λ z. cc

      keep :
          length (values x.elements) ≤ k
          → (r : Option (A × List (Node A) × Bool))
          → TakesOut n len (k - length (values x.elements)) xs r
          → TakesOut n len k (x ∷ xs) (keep_first x r)
      keep le none o = o
      keep le (some (a, ns', dropped)) o = record {
        value =
            get_elem?-right (values x.elements) (contents xs) k (k - length (values x.elements))
              (omega arith)
            ∙ o.value;
        rest =
            ap (λ (v : List A). values x.elements ++ v) o.rest
            ∙ sym (
                without_at-right (values x.elements) (contents xs) k
                  (k - length (values x.elements)) (omega arith));
        fit = (h.0, o.fit);
        linked = λ z. ground (arith, o.linked z);
      }

      go :
          (r : Taken A)
          → Takes x.elements k pos r
          → ((p : ℕ)
              → i ≡ p + (k - length (values x.elements))
              → k - length (values x.elements) < length (contents xs)
              → Returns
                  (TakesOut n len (k - length (values x.elements)) xs)
                  (remove_nodes false len p i xs))
          → Returns (TakesOut n len k (x ∷ xs)) (elim r [
            | taken a ss ↦ drop_node at_head len x ss xs >>= λ r. ok (some (a, r.0, r.1))
            | passed p ↦ remove_nodes false len p i xs >>= λ r. ok (keep_first x r)
          ])
      go (taken a ss) t rest =
          Returns-bind (λ r. Out n len k (x ∷ xs) a r.0 r.1) _ (drop_node at_head len x ss xs) _
            (drop_node-Out at_head n len k x xs a ss h safe t) (λ r o. o)
      go (passed p) t rest =
          Returns-bind (TakesOut n len (k - length (values x.elements)) xs) _
            (remove_nodes false len p i xs) _
            (rest p (omega (arith, t.0, t.1))
              (omega (arith, t.0, length-append (values x.elements) (contents xs))))
            (keep t.0)

  without_at-past : (vs : List A) (k : ℕ) → length vs ≤ k → without_at vs k ≡ vs
  without_at-past [] k h = refl
  without_at-past (v ∷ vs) zero h = absurd (omega arith)
  without_at-past (v ∷ vs) (suc k) h =
      ap (λ (t : List A). v ∷ t) (without_at-past vs k (omega arith))

  -- The element that is returned, the sequence that is left, and whether the list is still in order.
  pub record TakenFrom (l : Unrolled A) (i : ℕ) (r : Option A × Unrolled A) : Type 0 where
    pub value : r.0 ≡ get_elem? (contents l.nodes) i
    pub rest : contents r.1.nodes ≡ without_at (contents l.nodes) i
    pub counted : r.1.len ≡ length (contents r.1.nodes)
    pub untouched : l.len ≤ i → r.1 ≡ l
    pub ordered : (1 < l.len) ⊎ (l.len ≤ i) → IsOrdered r.1

  -- Removing an index of a list in order returns the element there and leaves the others, or returns
  -- NULL past the end with the list as it was. `len` counts what is left, and the list stays in order
  -- unless its last element was taken. The condition is that the element is not the only one of a head node while others are
  -- left.
  pub unrolled_ll_remove-TakenFrom :
      (l : Unrolled A) (i : ℕ)
      → IsOrdered l
      → Removable true (l.len - 1) i l.nodes
      → Returns (TakenFrom l i) (unrolled_ll_remove l i)
  unfolding unrolled_ll_remove
  unrolled_ll_remove-TakenFrom l i h safe = elim (Bool-cases (leb l.len i)) [
    | inl past ↦
        let le : length (contents l.nodes) ≤ i = ground (arith, h.counted, past) in
        rw past (record {
          value = sym (get_elem?-past (contents l.nodes) i le);
          rest = sym (without_at-past (contents l.nodes) i le);
          counted = h.counted;
          untouched = λ z. refl;
          ordered = λ z. h;
        })
    | inr inside ↦
        let lt : i < length (contents l.nodes) = ground (arith, h.counted, inside) in
        rw inside (
          Returns-bind (TakesOut l.n (l.len - 1) i l.nodes) (TakenFrom l i)
            (remove_nodes true (l.len - 1) 0 i l.nodes) _
            (remove_nodes-TakesOut true l.n (l.len - 1) 0 i i l.nodes (omega arith) lt h.fit safe)
            (finish lt))
  ]
    where
      new_count :
          (d : Bool) (ns : List (Node A))
          → length l.nodes ≡ (if d then length ns + 1 else length ns)
          → (if d then decr l.n_node else l.n_node) ≡ length ns
      new_count true ns e = decr_suc l.n_node (length ns) (h.linked ∙ e)
      new_count false ns e = h.linked ∙ e

      more : (1 < l.len) ⊎ (l.len ≤ i) → i < length (contents l.nodes) → 0 < l.len - 1
      more (inl z) lt = omega arith
      more (inr z) lt = absurd (omega (arith, h.counted))

      finish :
          i < length (contents l.nodes)
          → (r : Option (A × List (Node A) × Bool)) → TakesOut l.n (l.len - 1) i l.nodes r
          → TakenFrom l i (removed l r)
      finish lt none o = absurd o
      finish lt (some (a, ns, d)) o =
          let counted : l.len - 1 ≡ length (contents ns) =
            rw o.rest (omega (arith, h.counted, length-without_at (contents l.nodes) i lt)) in
          record {
            value = sym o.value;
            rest = o.rest;
            counted = counted;
            untouched = λ z. absurd (omega (arith, h.counted, z));
            ordered = λ z. record {
              pos = h.pos;
              fit = o.fit;
              linked = new_count d ns (o.linked (more z lt));
              counted = counted;
            };
          }

  -- Otherwise, if the head node has one element and the list more, removing index 0 faults: the
  -- head's `node_parent` is NULL.
  pub unrolled_ll_remove_head :
      (l : Unrolled A) (x : Node A) (xs : List (Node A))
      → l.nodes ≡ x ∷ xs
      → length (values x.elements) ≡ 1
      → 1 < l.len
      → unrolled_ll_remove l 0 ≡ fault
  unfolding unrolled_ll_remove remove_nodes drop_node
  unrolled_ll_remove_head l x xs e one more =
      let inside : leb l.len 0 ≡ false = ground arith in
      rw (inside, e)
        (go _ (take_slot 0 0 x.elements) (take_slot-Takes x.elements 0 0 0 (omega arith)))
    where
      go :
          (f : Option (A × List (Node A) × Bool) → Outcome (Option A × Unrolled A)) (r : Taken A)
          → Takes x.elements 0 0 r
          → ((elim r [
            | taken a ss ↦ drop_node true (l.len - 1) x ss xs >>= λ r. ok (some (a, r.0, r.1))
            | passed p ↦ remove_nodes false (l.len - 1) p 0 xs >>= λ r. ok (keep_first x r)
          ])
              >>= f)
            ≡ fault
      go f (passed p) t = absurd (omega (arith, t.0, one))
      go f (taken a ss) t =
          let left : length (values ss) ≡ 0 =
            rw t.rest (omega (arith, one, length-without_at (values x.elements) 0 t.inside)) in
          let others : (l.len - 1 == 0) ≡ false = ground arith in
          rw (values-vacant ss left, others) refl
