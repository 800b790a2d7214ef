-- ===== src/HashMap/Expand.antt =====
-- expandIfNecessary: the doubled table against the table before.
use system_programming_and_d.Base.{
  ℕ, zero, suc, ◌+◌, ◌*◌, ◌^◌, ◌≤◌, ◌<◌, ◌≡◌, refl, sym, ap, ◌∙◌, List, [], ◌∷◌, Option, none, some,
  arith, leb, ◌/◌, ◌==◌, length, length-append, length-set, set, sum_of, sum_of-append, All-append,
  ok, inl, inr, Bool-cases, Returns, Returns-bind, Returns-mono,
}
use native.Mathlib.Nat.{mod-lt}
use system_programming_and_d.HashMap.{
  KeyOps, Bucket, HashMap, bucket_at, bucket_add_node, init_capacity, hash_map_new, init_buckets,
  move_nodes, move_buckets, expand_if_necessary, calculate_index, int_of,
}
use system_programming_and_d.HashMap.Words.{index_of_int}
use system_programming_and_d.HashMap.Table.{
  matches, tally_in, tally, find, home, view, Placed, IsTable, or_else, nodes_at, bucket_at-lt,
  sum_of-set, Placed-at, Placed-set, find_elsewhere, view-set, home_congr, view-home,
}
use system_programming_and_d.HashMap.Update.{find-append}

or_else_assoc {ℓ} :
    {A : Type ℓ} (x y z : Option A) → or_else (or_else x y) z ≡ or_else x (or_else y z)
or_else_assoc none y z = refl
or_else_assoc (some a) y z = refl

or_else-none {ℓ} : {A : Type ℓ} (x : Option A) → x ≡ or_else x none
or_else-none none = refl
or_else-none (some a) = refl

home_index :
    {K : Type 0} (ops : KeyOps K) (n p : ℕ)
    → n * p ≡ 2 ^ 32
    → (k : K) → calculate_index n (int_of (ops.hash k)) ≡ home ops k n
unfolding calculate_index
home_index ops n p power k = index_of_int n p (ops.hash k) power

empty-Placed :
    {K : Type 0} (V : Type 0) (ops : KeyOps K) (n d i k : ℕ)
    → Placed {V = V} ops n d (init_buckets i k)
unfolding init_buckets
empty-Placed V ops n d i zero = tt
empty-Placed V ops n d i (suc k) = (refl, tt, empty-Placed V ops n (suc d) (i + 1) k)

empty_view :
    {K : Type 0} (V : Type 0) (ops : KeyOps K) (j i k : ℕ) (q : K)
    → find {V = V} ops q (nodes_at (init_buckets i k) j) ≡ none
unfolding init_buckets find
empty_view V ops j i zero q = refl
empty_view V ops zero i (suc k) q = refl
empty_view V ops (suc j) i (suc k) q = empty_view V ops j (i + 1) k q

empty_tally :
    {K : Type 0} (V : Type 0) (ops : KeyOps K) (i k : ℕ) (q : K)
    → tally {V = V} ops q (init_buckets i k) ≡ 0
unfolding init_buckets
empty_tally V ops i zero q = refl
empty_tally V ops i (suc k) q = omega (arith, empty_tally V ops (i + 1) k q)

empty_width : (K V : Type 0) (i k : ℕ) → length (init_buckets {K = K} {V = V} i k) ≡ k
unfolding init_buckets
empty_width K V i zero = refl
empty_width K V i (suc k) = omega (arith, empty_width K V (i + 1) k)

empty_count :
    (K V : Type 0) (i k : ℕ) → sum_of (λ b. length b.nodes) (init_buckets {K = K} {V = V} i k) ≡ 0
unfolding init_buckets
empty_count K V i zero = refl
empty_count K V i (suc k) = omega (arith, empty_count K V (i + 1) k)

module _ {K V : Type 0} (ops : KeyOps K) where
  -- The entries of all the buckets in order, seen as a map.
  pub look : K → List (Bucket K V) → Option V
  look q [] = none
  look q (b ∷ bs) = or_else (find ops q b.nodes) (look q bs)

  -- In a table in order that map is the table's.
  look-elsewhere :
      (n d : ℕ) (bs : List (Bucket K V)) (q : K)
      → Placed ops n d bs
      → home ops q n < d
      → look q bs ≡ none
  unfolding look
  look-elsewhere n d [] q h lt = refl
  look-elsewhere n d (b ∷ bs) q h lt =
      let (a, z) = find_elsewhere ops n d q b.nodes h.1 (omega arith) in
      rw a (look-elsewhere n (suc d) bs q h.2 (omega arith))

  look-view :
      (n d j : ℕ) (bs : List (Bucket K V)) (q : K)
      → Placed ops n d bs
      → d + j ≡ home ops q n
      → look q bs ≡ find ops q (nodes_at bs j)
  unfolding look find
  look-view n d j [] q h e = refl
  look-view n d zero (b ∷ bs) q h e =
      rw (look-elsewhere n (suc d) bs q h.2 (omega arith)) (sym (or_else-none (find ops q b.nodes)))
  look-view n d (suc j) (b ∷ bs) q h e =
      let (a, z) = find_elsewhere ops n d q b.nodes h.1 (omega arith) in
      rw a (look-view n (suc d) j bs q h.2 (omega arith))

abbrev pub count_in : {K V : Type 0} → Bucket K V → ℕ
count_in b = length b.nodes

module _ {K V : Type 0} (ops : KeyOps K) (n p : ℕ) (pos : 0 < n) (power : n * p ≡ 2 ^ 32) where
  -- `new'` is `new` with the entries `es` added.
  pub record Moved (new new' : List (Bucket K V)) (es : K → Option V) (t : K → ℕ) (c : ℕ)
      : Type 0 where
    pub width : length new' ≡ length new
    pub placed : Placed ops n 0 new'
    pub tallied : (q : K) → tally ops q new' ≡ tally ops q new + t q
    pub counted : sum_of count_in new' ≡ sum_of count_in new + c
    pub reads : (q : K) → view ops new' n q ≡ or_else (view ops new n q) (es q)

  add_node-Moved :
      (new : List (Bucket K V)) (b : Bucket K V) (e : K × V)
      → length new ≡ n
      → Placed ops n 0 new
      → bucket_at new (home ops e.0 n) ≡ ok b
      → Moved new
          (set new (home ops e.0 n) (bucket_add_node b e.0 e.1))
          (λ q. find ops q (e ∷ []))
          (λ q. matches ops q e)
          1
  unfolding bucket_add_node find
  add_node-Moved new b e w h at =
      let i = home ops e.0 n in
      let c = bucket_add_node b e.0 e.1 in
      let (right, here) = Placed-at ops n 0 i new b h at in
      record {
        width = length-set new i c;
        placed =
            Placed-set ops n 0 i new c h (omega (arith, right, length-append b.nodes (e ∷ [])))
              (All-append (λ x. home ops x.0 n ≡ 0 + i) b.nodes (e ∷ []) here (omega arith, tt));
        tallied = λ q. omega (
          arith,
          sum_of-set (tally_in ops q) new i b c at,
          sum_of-append (matches ops q) b.nodes (e ∷ []),
        );
        counted = omega (arith, sum_of-set count_in new i b c at, length-append b.nodes (e ∷ []));
        reads = λ q.
            rw (view-set ops n i new c q (rw w (mod-lt (ops.hash e.0) pos)))
              (elim (Bool-cases (i == home ops q n)) [
                | inl same ↦
                    let e' : i ≡ home ops q n = ground (arith, same) in
                    rw same (
                      ground (
                        arith,
                        find-append ops q b.nodes (e ∷ []),
                        view-home ops n i new b q at e',
                      ))
                | inr other ↦ ground (arith, other, home_congr ops n e.0 q)
              ]);
      }

  Moved-trans :
      (a b c : List (Bucket K V)) (es fs : K → Option V) (t u : K → ℕ) (x y : ℕ)
      → Moved a b es t x
      → Moved b c fs u y
      → Moved a c (λ q. or_else (es q) (fs q)) (λ q. t q + u q) (x + y)
  Moved-trans a b c es fs t u x y h k = record {
    width = k.width ∙ h.width;
    placed = k.placed;
    tallied = λ q. omega (arith, h.tallied q, k.tallied q);
    counted = omega (arith, h.counted, k.counted);
    reads = λ q. rw (k.reads q, h.reads q) (or_else_assoc (view ops a n q) (es q) (fs q));
  }

  Moved-none : (new : List (Bucket K V)) → Placed ops n 0 new → Moved new new (λ q. none) (λ q. 0) 0
  Moved-none new h = record {
    width = refl;
    placed = h;
    tallied = λ q. omega arith;
    counted = omega arith;
    reads = λ q. or_else-none (view ops new n q);
  }

  find-cons :
      (q : K) (e : K × V) (es : List (K × V))
      → or_else (find ops q (e ∷ [])) (find ops q es) ≡ find ops q (e ∷ es)
  unfolding find
  find-cons q e es = ground arith

  abbrev tally_in_bucket : Bucket K V → K → ℕ
  tally_in_bucket b q = sum_of (matches ops q) b.nodes

  move_nodes-Moved :
      (new : List (Bucket K V)) (es : List (K × V))
      → length new ≡ n
      → Placed ops n 0 new
      → Returns
          (λ new'. Moved new new' (λ q. find ops q es) (λ q. sum_of (matches ops q) es) (length es))
          (move_nodes ops new n es)
  unfolding move_nodes find
  move_nodes-Moved new [] w h = Moved-none new h
  move_nodes-Moved new (e ∷ es) w h =
      let i = home ops e.0 n in
      let (b, at, same) = bucket_at-lt new i (rw w (mod-lt (ops.hash e.0) pos)) in
      let here = add_node-Moved new b e w h at in
      let new1 = set new i (bucket_add_node b e.0 e.1) in
      rw (home_index ops n p power e.0, at)
        (Returns-mono
          (λ new'.
            Moved new1 new' (λ q. find ops q es) (λ q. sum_of (matches ops q) es) (length es))
          _ (move_nodes ops new1 n es) (move_nodes-Moved new1 es (here.width ∙ w) here.placed)
          λ new' k.
            let both = Moved-trans new new1 new' _ _ _ _ 1 (length es) here k in
            record {
              width = both.width;
              placed = both.placed;
              tallied = both.tallied;
              counted = omega (arith, both.counted);
              reads = λ q. both.reads q ∙ ap (or_else (view ops new n q)) (find-cons q e es);
            })

  move_buckets-Moved :
      (new bs : List (Bucket K V))
      → length new ≡ n
      → Placed ops n 0 new
      → Returns
          (λ new'. Moved new new' (λ q. look ops q bs) (λ q. tally ops q bs) (sum_of count_in bs))
          (move_buckets ops new n bs)
  unfolding move_buckets look
  move_buckets-Moved new [] w h = Moved-none new h
  move_buckets-Moved new (b ∷ bs) w h =
      Returns-bind
        (λ new1. Moved new new1 (λ q. find ops q b.nodes) (tally_in_bucket b) (length b.nodes)) _
        (move_nodes ops new n b.nodes) _ (move_nodes-Moved new b.nodes w h)
        λ new1 here.
          Returns-mono
            (λ new'.
              Moved new1 new' (λ q. look ops q bs) (λ q. tally ops q bs) (sum_of count_in bs))
            _ (move_buckets ops new1 n bs) (move_buckets-Moved new1 bs (here.width ∙ w) here.placed)
            (λ new' k. Moved-trans new new1 new' _ _ _ _ _ _ here k)

module _ {K V : Type 0} where
  -- A new map is in order and empty.
  pub hash_map_new-IsTable :
      (ops : KeyOps K)
      → IsTable {V = V} ops hash_map_new
        × ((q : K) → view {V = V} ops hash_map_new.buckets init_capacity q ≡ none)
  unfolding hash_map_new
  hash_map_new-IsTable ops = (
    record {
      width = empty_width K V 0 init_capacity;
      pos = omega arith;
      placed = empty-Placed V ops init_capacity 0 0 init_capacity;
      unique = λ q. omega (arith, empty_tally V ops 0 init_capacity q);
      counted = sym (empty_count K V 0 init_capacity);
    },
    λ q. empty_view V ops (home ops q init_capacity) 0 init_capacity q,
  )

  -- The table after the size has been counted up: in order, with the same abstract map.
  pub record Expanded (ops : KeyOps K) (m m' : HashMap K V) : Type 0 where
    pub table : IsTable ops m'
    pub reads : (q : K) → view ops m'.buckets m'.n_buckets q ≡ view ops m.buckets m.n_buckets q
    pub load : m'.size ≤ m'.n_buckets * 3 / 4

  -- Where the counted table is in order, the uncounted one no fuller than three quarters, and the
  -- doubled number of buckets divides 2^32, the call returns a table in order that is no fuller than
  -- that and has the same abstract map.
  pub expand_if_necessary-Expanded :
      (ops : KeyOps K) (m : HashMap K V) (p : ℕ)
      → IsTable ops (record m { size = m.size + 1 })
      → m.size ≤ m.n_buckets * 3 / 4
      → m.n_buckets * 2 * p ≡ 2 ^ 32
      → Returns (Expanded ops m) (expand_if_necessary ops m)
  unfolding expand_if_necessary
  expand_if_necessary-Expanded ops m p h load power =
      let n = m.n_buckets in
      let start = init_buckets {K = K} {V = V} 0 (n * 2) in
      elim (Bool-cases (leb (m.size + 1) (n * 3 / 4))) [
        | inl room ↦ rw room (record { table = h; reads = λ q. refl; load = ground arith })
        | inr full ↦ rw full (
            Returns-bind
              (λ new.
                Moved ops (n * 2) p (omega (arith, h.pos)) power start new
                  (λ q. look ops q m.buckets) (λ q. tally ops q m.buckets)
                  (sum_of (λ b. length b.nodes) m.buckets))
              (Expanded ops m) (move_buckets ops start (n * 2) m.buckets) _
              (move_buckets-Moved ops (n * 2) p (omega (arith, h.pos)) power start m.buckets
                (empty_width K V 0 (n * 2)) (empty-Placed V ops (n * 2) 0 0 (n * 2)))
              λ new k. record {
                table = record {
                  width = k.width ∙ empty_width K V 0 (n * 2);
                  pos = omega (arith, h.pos);
                  placed = k.placed;
                  unique =
                      λ q. omega (arith, k.tallied q, h.unique q, empty_tally V ops 0 (n * 2) q);
                  counted = omega (arith, h.counted, k.counted, empty_count K V 0 (n * 2));
                };
                reads = λ q.
                    rw (k.reads q, empty_view V ops (home ops q (n * 2)) 0 (n * 2) q)
                      (look-view ops n 0 (home ops q n) m.buckets q h.placed (omega arith));
                load = omega (arith, h.pos);
              })
      ]
