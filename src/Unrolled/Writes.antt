-- ===== src/Unrolled/Writes.antt =====
-- unrolled_ll_append, against the sequence.
use system_programming_and_d.Base.{
  ℕ, zero, suc, ◌+◌, ◌-◌, ◌<◌, ◌≡◌, refl, sym, ap, ◌∙◌, Bool, inl, inr, Bool-cases, List, [], ◌∷◌,
  ◌++◌, Option, none, some, arith, length, length-append, length-set, set, replicate, All, ltb,
  if◌then◌else◌, Returns, Returns-bind,
}
use system_programming_and_d.Unrolled.{
  Node, Unrolled, create_new_node, put_slot, append_at, append_in, unrolled_ll_append,
}
use system_programming_and_d.Unrolled.Contents.{values, contents, IsFree, Fits, IsOrdered}

replicate-IsFree : (A : Type 0) (n : ℕ) → IsFree 0 (replicate {A = Option A} n none)
replicate-IsFree A zero = tt
replicate-IsFree A (suc n) = (refl, replicate-IsFree A n)

length-replicate : (A : Type 0) (n : ℕ) → length (replicate {A = Option A} n none) ≡ n
length-replicate A zero = refl
length-replicate A (suc n) = omega (arith, length-replicate A n)

module _ {A : Type 0} where
  append_assoc : (xs ys zs : List A) → (xs ++ ys) ++ zs ≡ xs ++ (ys ++ zs)
  append_assoc [] ys zs = refl
  append_assoc (x ∷ xs) ys zs = ap (λ (t : List A). x ∷ t) (append_assoc xs ys zs)

  append-nil : (xs : List A) → xs ++ [] ≡ xs
  append-nil [] = refl
  append-nil (x ∷ xs) = ap (λ (t : List A). x ∷ t) (append-nil xs)

  values-free : (ss : List (Option A)) → IsFree 0 ss → values ss ≡ []
  values-free [] h = refl
  values-free (none ∷ ss) h = values-free ss h.1
  values-free (some a ∷ ss) h = cc

  values-set :
      (ss : List (Option A)) (c : ℕ) (a : A)
      → IsFree c ss
      → c < length ss
      → values (set ss c (some a)) ≡ values ss ++ a ∷ []
  values-set [] c a h lt = absurd (omega arith)
  values-set (none ∷ ss) zero a h lt = rw (values-free ss h.1)
  values-set (some b ∷ ss) zero a h lt = cc
  values-set (none ∷ ss) (suc c) a h lt = values-set ss c a h (omega arith)
  values-set (some b ∷ ss) (suc c) a h lt =
      ap (λ (t : List A). b ∷ t) (values-set ss c a h (omega arith))

  set-IsFree :
      (ss : List (Option A)) (c : ℕ) (s : Option A) → IsFree c ss → IsFree (suc c) (set ss c s)
  set-IsFree [] c s h = tt
  set-IsFree (t ∷ ss) zero s h = h.1
  set-IsFree (t ∷ ss) (suc c) s h = set-IsFree ss c s h

  put_slot-Fits :
      (n : ℕ) (x : Node A) (a : A) → Fits n x → x.capacity < n → Fits n (put_slot x (some a))
  unfolding put_slot
  put_slot-Fits n x a h lt = record {
    width = length-set x.elements x.capacity (some a) ∙ h.width;
    bound = omega arith;
    free =
        let next : x.capacity + 1 ≡ suc x.capacity = omega arith in
        rw next (set-IsFree x.elements x.capacity (some a) h.free);
  }

  create_new_node-Fits : (n : ℕ) (a : A) → 0 < n → Fits n (create_new_node n (some a))
  unfolding create_new_node
  create_new_node-Fits zero a h = absurd (omega arith)
  create_new_node-Fits (suc n) a h = record {
    width = omega (arith, length-replicate A n);
    bound = omega arith;
    free = replicate-IsFree A n;
  }

  values-create_new_node :
      (n : ℕ) (a : A) → 0 < n → values (create_new_node n (some a)).elements ≡ a ∷ []
  unfolding create_new_node
  values-create_new_node zero a h = absurd (omega arith)
  values-create_new_node (suc n) a h =
      ap (λ (t : List A). a ∷ t) (values-free (replicate n none) (replicate-IsFree A n))

  record Appended (n : ℕ) (a : A) (ns : List (Node A)) (r : List (Node A) × Bool) : Type 0 where
    pub fit : All (Fits n) r.0
    pub reads : contents r.0 ≡ contents ns ++ a ∷ []
    pub linked : length r.0 ≡ (if r.1 then length ns + 1 else length ns)

  append_at-Appended :
      (n steps : ℕ) (ns : List (Node A)) (a : A)
      → 0 < n
      → All (Fits n) ns
      → steps + 1 ≡ length ns
      → Returns (Appended n a ns) (append_at n steps ns (some a))
  unfolding append_at put_slot
  append_at-Appended n steps [] a pos h e = absurd (omega arith)
  append_at-Appended n zero (x ∷ []) a pos h e = elim (Bool-cases (ltb x.capacity n)) [
    | inl room ↦
        let lt : x.capacity < n = ground (arith, room) in
        rw room
          (record { fit = (put_slot-Fits n x a h.0 lt, tt); reads = last_values lt; linked = refl })
    | inr full ↦ rw full (record {
      fit = (h.0, (create_new_node-Fits n a pos, tt));
      reads = rw (values-create_new_node n a pos, append-nil (values x.elements)) refl;
      linked = omega arith;
    })
  ]
    where
      last_values :
          x.capacity < n → contents (put_slot x (some a) ∷ []) ≡ (values x.elements ++ []) ++ a ∷ []
      last_values lt =
          append-nil (values (put_slot x (some a)).elements)
          ∙ values-set x.elements x.capacity a h.0.free (rw h.0.width lt)
          ∙ ap (λ (t : List A). t ++ a ∷ []) (sym (append-nil (values x.elements)))
  append_at-Appended n zero (x ∷ y ∷ xs) a pos h e = absurd (omega arith)
  append_at-Appended n (suc steps) (x ∷ xs) a pos h e =
      Returns-bind (Appended n a xs) (Appended n a (x ∷ xs)) (append_at n steps xs (some a)) _
        (append_at-Appended n steps xs a pos h.1 (omega arith))
        λ r k. record {
          fit = (h.0, k.fit);
          reads =
              ap (λ (t : List A). values x.elements ++ t) k.reads
              ∙ sym (append_assoc (values x.elements) (contents xs) (a ∷ []));
          linked = ground (arith, k.linked);
        }

  -- Appending an element to a list in order returns a list in order with the element behind the
  -- others.
  pub unrolled_ll_append-contents :
      (l : Unrolled A) (a : A)
      → IsOrdered l
      → Returns
          (λ l'. IsOrdered l' × (contents l'.nodes ≡ contents l.nodes ++ a ∷ []))
          (unrolled_ll_append l (some a))
  unfolding unrolled_ll_append append_in
  unrolled_ll_append-contents l a h = go l.nodes refl
    where
      last_step :
          {x : Node A} {xs : List (Node A)} → l.nodes ≡ x ∷ xs → l.n_node - 1 + 1 ≡ length (x ∷ xs)
      last_step e = omega (arith, h.linked, ap (λ (t : List (Node A)). length t) e)

      go :
          (ns : List (Node A))
          → l.nodes ≡ ns
          → Returns
              (λ l'. IsOrdered l' × (contents l'.nodes ≡ contents l.nodes ++ a ∷ []))
              (append_in l ns (some a))
      go [] e =
          let one : contents (create_new_node l.n (some a) ∷ []) ≡ a ∷ [] =
            rw (values-create_new_node l.n a h.pos) refl in
          (
            record {
              pos = h.pos;
              fit = (create_new_node-Fits l.n a h.pos, tt);
              linked = refl;
              counted = rw one refl;
            },
            one ∙ ap (λ (t : List (Node A)). contents t ++ a ∷ []) (sym e),
          )
      go (x ∷ xs) e =
          Returns-bind (Appended l.n a (x ∷ xs)) _ (append_at l.n (l.n_node - 1) (x ∷ xs) (some a))
            _ (append_at-Appended l.n (l.n_node - 1) (x ∷ xs) a h.pos (rw e at h.fit) (last_step e))
            λ r k.
              let linked : length r.0 ≡ (if r.1 then l.n_node + 1 else l.n_node) =
                rw (h.linked, e) k.linked in
              let grown : contents r.0 ≡ contents l.nodes ++ a ∷ [] = rw e k.reads in
              (
                record {
                  pos = h.pos;
                  fit = k.fit;
                  linked = sym linked;
                  counted =
                      rw grown
                        (omega (arith, h.counted, length-append (contents l.nodes) (a ∷ [])));
                },
                grown,
              )
