-- ===== src/HashMap/Update.antt =====
-- One bucket's list of nodes: looking up, replacing and removing an entry.
use system_programming_and_d.Base.{
  ℕ, ◌+◌, ◌%◌, ◌≤◌, ◌≡◌, refl, sym, ap, ◌∙◌, true, false, List, [], ◌∷◌, ◌++◌, Option, none, some,
  arith, if◌then◌else◌, length, sum_of, Outcome, ok, exits, fault, inl, inr, Bool-cases, Returns,
  Returns-bind,
}
use system_programming_and_d.HashMap.{
  KeyOps, Destroyed, hash_map_get_entry_ref, keep_node, replace_entry, unlink, remove_node,
}
use system_programming_and_d.HashMap.Table.{
  matches, find, PlacedAt, or_else, cmp_congr_left, cmp_congr_right,
}

module _ {K V : Type 0} (ops : KeyOps K) where
  -- The nodes behind the first equal entry, and all but that entry.
  pub behind : K → List (K × V) → List (K × V)
  behind k [] = []
  behind k (n ∷ ns) = if ops.cmp n.0 k then ns else behind k ns

  unfoldable pub without : K → List (K × V) → List (K × V)
  without k [] = []
  without k (n ∷ ns) = if ops.cmp n.0 k then ns else n ∷ without k ns

  -- The entry for the key, and what is left without it.
  pub record Fetched (k : K) (ns : List (K × V)) (e : K × V) (tail : List (K × V)) : Type 0 where
    pub value : find ops k ns ≡ some e.1
    pub same : ops.cmp e.0 k ≡ true
    pub rest : tail ≡ behind k ns

  abbrev pub Fetches : K → List (K × V) → Option ((K × V) × List (K × V)) → Type 0
  Fetches k ns none = (find ops k ns ≡ none) × (sum_of (matches ops k) ns ≡ 0)
  Fetches k ns (some (e, tail)) = Fetched k ns e tail

  pub get_entry_ref-Fetches :
      (k : K) (ns : List (K × V))
      → Returns (Fetches k ns) (hash_map_get_entry_ref ops (length ns) ns k)
  unfolding hash_map_get_entry_ref find behind
  get_entry_ref-Fetches k [] = (refl, refl)
  get_entry_ref-Fetches k (n ∷ ns) = elim (Bool-cases (ops.cmp n.0 k)) [
    | inl hit ↦ rw hit (record { value = rw hit; same = hit; rest = rw hit })
    | inr miss ↦ rw miss (skip miss _ (get_entry_ref-Fetches k ns))
  ]
    where
      skip :
          ops.cmp n.0 k ≡ false
          → (r : Outcome (Option ((K × V) × List (K × V)))) → Returns (Fetches k ns) r
          → Returns (Fetches k (n ∷ ns)) r
      skip miss (exits c) h = h
      skip miss fault h = h
      skip miss (ok none) h = (rw miss h.0, rw miss (omega (arith, h.1)))
      skip miss (ok (some (e, tail))) h = record {
        value = rw miss h.value;
        same = h.same;
        rest = rw miss h.rest;
      }

  -- The node list has the value replaced for the key, and nothing else.
  pub record Replaced (k : K) (v : V) (ns ns' : List (K × V)) (d : List (Destroyed K V))
      : Type 0 where
    pub reads : (q : K) → find ops q ns' ≡ (if ops.cmp k q then some v else find ops q ns)
    pub width : length ns' ≡ length ns
    pub tallied : (q : K) → sum_of (matches ops q) ns' ≡ sum_of (matches ops q) ns
    pub places : (n i : ℕ) → PlacedAt ops n i ns → PlacedAt ops n i ns'

  abbrev pub Replaces : K → V → List (K × V) → Option (List (K × V) × List (Destroyed K V)) → Type 0
  Replaces k v ns none = (find ops k ns ≡ none) × (sum_of (matches ops k) ns ≡ 0)
  Replaces k v ns (some (ns', d)) = Replaced k v ns ns' d

  pub replace_entry-Replaces :
      (k : K) (v : V) (ns : List (K × V))
      → Returns (Replaces k v ns) (replace_entry ops (length ns) ns k v)
  unfolding replace_entry find
  replace_entry-Replaces k v [] = (refl, refl)
  replace_entry-Replaces k v (n ∷ ns) = elim (Bool-cases (ops.cmp n.0 k)) [
    | inl hit ↦ rw hit (record {
      reads = λ q. ground (arith, cmp_congr_left ops n.0 k q hit);
      width = refl;
      tallied = λ q. ground (arith, cmp_congr_left ops n.0 k q hit);
      places = λ m i h. (ap (λ (t : ℕ). t % m) (sym (ops.hash-cmp n.0 k hit)) ∙ h.0, h.1);
    })
    | inr miss ↦ rw miss (
        Returns-bind (Replaces k v ns) (Replaces k v (n ∷ ns))
          (replace_entry ops (length ns) ns k v) _ (replace_entry-Replaces k v ns) (keep miss))
  ]
    where
      keep :
          ops.cmp n.0 k ≡ false
          → (r : Option (List (K × V) × List (Destroyed K V))) → Replaces k v ns r
          → Replaces k v (n ∷ ns) (keep_node n r)
      keep miss none h = (rw miss h.0, rw miss (omega (arith, h.1)))
      keep miss (some (ns', d)) h = record {
        reads = λ q. ground (arith, h.reads q, miss, cmp_congr_right ops n.0 k q);
        width = omega (arith, h.width);
        tallied = λ q. omega (arith, h.tallied q);
        places = λ m i p. (p.0, h.places m i p.1);
      }

  unlink-without :
      (k : K) (n : K × V) (ns : List (K × V)) (v : V)
      → find ops k ns ≡ some v
      → unlink ops n ns k (behind k ns) ≡ ok (n ∷ without k ns)
  unfolding unlink find behind without
  unlink-without k n [] v e = cc
  unlink-without k n (x ∷ xs) v e = elim (Bool-cases (ops.cmp x.0 k)) [
    | inl hit ↦ rw hit
    | inr miss ↦ rw (miss, unlink-without k x xs v (rw miss at e))
  ]

  pub remove_node-without :
      (k : K) (ns : List (K × V)) (v : V)
      → find ops k ns ≡ some v
      → remove_node ops ns k (behind k ns) ≡ ok (without k ns)
  unfolding remove_node find behind without
  remove_node-without k [] v e = cc
  remove_node-without k (n ∷ ns) v e = elim (Bool-cases (ops.cmp n.0 k)) [
    | inl hit ↦ rw hit
    | inr miss ↦ rw (miss, unlink-without k n ns v (rw miss at e))
  ]

  pub find-untallied :
      (q : K) (ns : List (K × V)) → sum_of (matches ops q) ns ≡ 0 → find ops q ns ≡ none
  unfolding find
  find-untallied q [] h = refl
  find-untallied q (n ∷ ns) h = ground (arith, find-untallied q ns)

  pub matches_congr :
      (k q : K) (ns : List (K × V))
      → ops.cmp k q ≡ true
      → sum_of (matches ops k) ns ≡ sum_of (matches ops q) ns
  matches_congr k q [] e = refl
  matches_congr k q (n ∷ ns) e =
      ground (arith, matches_congr k q ns e, cmp_congr_right ops n.0 k q e)

  -- Where a key stands once, removing the first entry removes it.
  pub record Removed (k : K) (ns ns' : List (K × V)) : Type 0 where
    pub reads : (q : K) → find ops q ns' ≡ (if ops.cmp k q then none else find ops q ns)
    pub width : length ns' + 1 ≡ length ns
    pub tallied : (q : K) → sum_of (matches ops q) ns' ≤ sum_of (matches ops q) ns
    pub places : (n i : ℕ) → PlacedAt ops n i ns → PlacedAt ops n i ns'

  pub without-Removed :
      (k : K) (ns : List (K × V)) (v : V)
      → find ops k ns ≡ some v
      → sum_of (matches ops k) ns ≤ 1
      → Removed k ns (without k ns)
  unfolding find without
  without-Removed k [] v e once = cc
  without-Removed k (n ∷ ns) v e once = elim (Bool-cases (ops.cmp n.0 k)) [
    | inl hit ↦ rw hit (record {
      reads = λ q. ground (
        arith,
        hit,
        once,
        cmp_congr_left ops n.0 k q hit,
        find-untallied q ns,
        matches_congr k q ns,
      );
      width = omega arith;
      tallied = λ q. omega arith;
      places = λ m i p. p.1;
    })
    | inr miss ↦
        let h = without-Removed k ns v (rw miss at e) (omega (arith, once)) in
        rw miss (record {
          reads = λ q. ground (arith, h.reads q, miss, cmp_congr_right ops n.0 k q);
          width = omega (arith, h.width);
          tallied = λ q. omega (arith, h.tallied q);
          places = λ m i p. (p.0, h.places m i p.1);
        })
  ]

  -- A new entry at the tail.
  pub find-append :
      (q : K) (ns ms : List (K × V))
      → find ops q (ns ++ ms) ≡ or_else (find ops q ns) (find ops q ms)
  unfolding find
  find-append q [] ms = refl
  find-append q (n ∷ ns) ms = ground (arith, find-append q ns ms)
