-- ===== src/Unrolled/Reads.antt =====
-- unrolled_ll_get, against the sequence.
use system_programming_and_d.Base.{
  ℕ, zero, suc, ◌+◌, ◌-◌, ◌≤◌, ◌<◌, ◌≡◌, refl, sym, ◌∙◌, true, false, inl, inr, Bool-cases, List,
  [], ◌∷◌, ◌++◌, Option, none, some, arith, get_elem?, length, leb, ◌==◌,
}
use system_programming_and_d.Unrolled.{
  Node, Unrolled, Search, hit, missed, search_slots, get_nodes, unrolled_ll_get,
}
use system_programming_and_d.Unrolled.Contents.{
  values, contents, IsOrdered, get_elem?-left, get_elem?-right, get_elem?-past,
}

module _ {A : Type 0} where
  -- What a search for the `k`-th value finds in the values of a node.
  abbrev Searched : List A → ℕ → ℕ → Search A → Type 0
  Searched vs k pos (hit a) = (k < length vs) × (get_elem? vs k ≡ some a)
  Searched vs k pos (missed p) = (length vs ≤ k) × (p ≡ pos + length vs)

  Searched-cons :
      (a : A) (vs : List A) (k pos : ℕ) (r : Search A)
      → Searched vs k (pos + 1) r
      → Searched (a ∷ vs) (suc k) pos r
  Searched-cons a vs k pos (hit b) h = (omega (arith, h.0), h.1)
  Searched-cons a vs k pos (missed p) h = (omega (arith, h.0), omega (arith, h.1))

  search_slots-Searched :
      (ss : List (Option A)) (pos i k : ℕ)
      → i ≡ pos + k
      → Searched (values ss) k pos (search_slots pos i ss)
  unfolding search_slots
  search_slots-Searched [] pos i k e = (omega arith, omega arith)
  search_slots-Searched (none ∷ ss) pos i k e = search_slots-Searched ss pos i k e
  search_slots-Searched (some a ∷ ss) pos i zero e =
      let here : (pos == i) ≡ true = ground arith in rw here (omega arith, refl)
  search_slots-Searched (some a ∷ ss) pos i (suc k) e =
      let later : (pos == i) ≡ false = ground arith in
      rw later (
        Searched-cons a (values ss) k pos (search_slots (pos + 1) i ss)
          (search_slots-Searched ss (pos + 1) i k (omega arith)))

  get_nodes-contents :
      (ns : List (Node A)) (pos i k : ℕ)
      → i ≡ pos + k
      → get_nodes pos i ns ≡ get_elem? (contents ns) k
  unfolding get_nodes
  get_nodes-contents [] pos i k e = refl
  get_nodes-contents (x ∷ xs) pos i k e =
      go (search_slots pos i x.elements) (search_slots-Searched x.elements pos i k e)
        (λ p e'. get_nodes-contents xs p i (k - length (values x.elements)) e')
    where
      go :
          (r : Search A)
          → Searched (values x.elements) k pos r
          → ((p : ℕ)
              → i ≡ p + (k - length (values x.elements))
              → get_nodes p i xs ≡ get_elem? (contents xs) (k - length (values x.elements)))
          → (elim r [ hit a ↦ some a | missed p ↦ get_nodes p i xs ])
            ≡ get_elem? (values x.elements ++ contents xs) k
      go (hit a) h rest = sym (get_elem?-left (values x.elements) (contents xs) k h.0 ∙ h.1)
      go (missed p) h rest =
          rest p (omega (arith, h.0, h.1))
          ∙ sym (
              get_elem?-right (values x.elements) (contents xs) k (k - length (values x.elements))
                (omega (arith, h.0)))

  -- On a list in order get returns the element at the index, NULL past the end.
  pub unrolled_ll_get-contents :
      (l : Unrolled A) (i : ℕ) → IsOrdered l → unrolled_ll_get l i ≡ get_elem? (contents l.nodes) i
  unfolding unrolled_ll_get
  unrolled_ll_get-contents l i h = elim (Bool-cases (leb l.len i)) [
    | inl past ↦ rw past (sym (get_elem?-past (contents l.nodes) i (ground (arith, h.counted))))
    | inr inside ↦ rw inside (get_nodes-contents l.nodes 0 i i (omega arith))
  ]
