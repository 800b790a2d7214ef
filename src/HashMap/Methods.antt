-- ===== src/HashMap/Methods.antt =====
-- get, put and remove, against the map that a table in order stands for.
use system_programming_and_d.Base.{
  ℕ, zero, suc, ◌+◌, ◌-◌, ◌*◌, ◌/◌, ◌^◌, ◌≤◌, ◌<◌, ◌≡◌, refl, sym, ap, ◌∙◌, true, List, [], ◌∷◌,
  ◌++◌, Option, none, some, arith, ◌==◌, if◌then◌else◌, length, length-append, length-set, set,
  sum_of, sum_of-append, All-append, Outcome, ok, exits, fault, inl, inr, Bool-cases, Returns,
  Returns-bind, ◌>>=◌,
}
use native.Mathlib.Nat.{mod-lt}
use system_programming_and_d.HashMap.{
  KeyOps, Bucket, HashMap, Destroyed, bucket_at, bucket_add_node, expand_if_necessary,
  calculate_index, value_of, hash_map_get_entry_ref, replace_entry, put_in, hash_map_put_entry_move,
  remove_in, hash_map_remove_entry, hash_map_get_value_ref,
}
use system_programming_and_d.HashMap.Table.{
  matches, tally_in, tally, find, home, view, Placed, IsTable, nodes_at, bucket_at-lt, nodes_at-eq,
  sum_of-set, find_elsewhere, Placed-at, Placed-set, view-set, home_congr, view-home,
}
use system_programming_and_d.HashMap.Update.{
  Fetches, get_entry_ref-Fetches, Replaced, Replaces, replace_entry-Replaces, without,
  remove_node-without, without-Removed, matches_congr, find-untallied,
}
use system_programming_and_d.HashMap.Expand.{Expanded, expand_if_necessary-Expanded, count_in}

module _ {K V : Type 0} (ops : KeyOps K) where
  -- A table in order that is no fuller than three quarters.
  pub record IsLoaded (m : HashMap K V) : Type 0 where
    pub table : IsTable ops m
    pub load : m.size ≤ m.n_buckets * 3 / 4

  home_bucket :
      (m : HashMap K V) (k : K)
      → IsTable ops m
      → (b : Bucket K V) × (bucket_at m.buckets (home ops k m.n_buckets) ≡ ok b)
        × (b.n_node ≡ length b.nodes)
        × (view ops m.buckets m.n_buckets k ≡ find ops k b.nodes)
        × (home ops k m.n_buckets < length m.buckets)
  home_bucket m k h =
      let i = home ops k m.n_buckets in
      let inside : i < length m.buckets = rw h.width (mod-lt (ops.hash k) h.pos) in
      let (b, at, same) = bucket_at-lt m.buckets i inside in
      let (right, here) = Placed-at ops m.n_buckets 0 i m.buckets b h.placed at in
      (b, at, right, view-home ops m.n_buckets i m.buckets b k at refl, inside)

  tally-at :
      (q : K) (bs : List (Bucket K V)) (i : ℕ) (b : Bucket K V)
      → bucket_at bs i ≡ ok b
      → sum_of (matches ops q) b.nodes ≤ tally ops q bs
  unfolding bucket_at
  tally-at q [] i b e = cc
  tally-at q (x ∷ bs) zero b e =
      let same : tally_in ops q x ≡ tally_in ops q b = ground arith in omega (arith, same)
  tally-at q (x ∷ bs) (suc i) b e = omega (arith, tally-at q bs i b e)

  -- What get returns for a fetched entry.
  value-fetched :
      (k : K) (ns : List (K × V)) (r : Option ((K × V) × List (K × V)))
      → Fetches ops k ns r
      → value_of r ≡ find ops k ns
  value-fetched k ns none h = sym h.0
  value-fetched k ns (some (e, tail)) h = sym h.value

  -- On a table in order get returns the value that the abstract map has for the key, NULL when it
  -- has none: the search never leaves the bucket's list.
  pub hash_map_get_value_ref-view :
      (m : HashMap K V) (k : K)
      → IsTable ops m
      → hash_map_get_value_ref ops m (some k) ≡ ok (view ops m.buckets m.n_buckets k)
  unfolding hash_map_get_value_ref calculate_index
  hash_map_get_value_ref-view m k h =
      let (b, at, right, reads, inside) = home_bucket m k h in
      rw (at, right, reads)
        (fetched b.nodes (hash_map_get_entry_ref ops (length b.nodes) b.nodes k)
          (get_entry_ref-Fetches ops k b.nodes))
    where
      fetched :
          (ns : List (K × V)) (r : Outcome (Option ((K × V) × List (K × V))))
          → Returns (Fetches ops k ns) r
          → (r >>= λ x. ok (value_of x)) ≡ ok (find ops k ns)
      fetched ns (ok r) f = ap ok (value-fetched k ns r f)
      fetched ns (exits c) f = absurd f
      fetched ns fault f = absurd f

  -- The map `m'` has the value `v` for the key and else what `m` has.
  pub record Put (m : HashMap K V) (k : K) (v : Option V) (m' : HashMap K V) : Type 0 where
    pub loaded : IsLoaded m'
    pub reads :
        (q : K)
        → view ops m'.buckets m'.n_buckets q
          ≡ (if ops.cmp k q then v else view ops m.buckets m.n_buckets q)

  -- One bucket's list of nodes is written.
  view-write :
      (m : HashMap K V) (k q : K) (b c : Bucket K V) (x : Option V)
      → IsTable ops m
      → bucket_at m.buckets (home ops k m.n_buckets) ≡ ok b
      → find ops q c.nodes ≡ (if ops.cmp k q then x else find ops q b.nodes)
      → view ops (set m.buckets (home ops k m.n_buckets) c) m.n_buckets q
        ≡ (if ops.cmp k q then x else view ops m.buckets m.n_buckets q)
  view-write m k q b c x h at e =
      let n = m.n_buckets in
      let i = home ops k n in
      rw (view-set ops n i m.buckets c q (rw h.width (mod-lt (ops.hash k) h.pos)))
        (elim (Bool-cases (i == home ops q n)) [
          | inl same ↦
              let e' : i ≡ home ops q n = ground (arith, same) in
              rw (same, view-home ops n i m.buckets b q at e') e
          | inr other ↦ ground (arith, other, home_congr ops n k q)
        ])

  Replaced-Put :
      (m : HashMap K V) (k : K) (v : V) (b : Bucket K V) (ns : List (K × V))
      (d : List (Destroyed K V))
      → IsLoaded m
      → bucket_at m.buckets (home ops k m.n_buckets) ≡ ok b
      → Replaced ops k v b.nodes ns d
      → Put m k
          (some v)
          (record m { buckets = set m.buckets (home ops k m.n_buckets) (record b { nodes = ns }) })
  Replaced-Put m k v b ns d l at r =
      let h = l.table in
      let i = home ops k m.n_buckets in
      let c = record b { nodes = ns } in
      let (right, here) = Placed-at ops m.n_buckets 0 i m.buckets b h.placed at in
      record {
        loaded = record {
          table = record {
            width = length-set m.buckets i c ∙ h.width;
            pos = h.pos;
            placed =
                Placed-set ops m.n_buckets 0 i m.buckets c h.placed (right ∙ sym r.width)
                  (r.places m.n_buckets (0 + i) here);
            unique = λ q.
                omega
                  (arith, h.unique q, r.tallied q, sum_of-set (tally_in ops q) m.buckets i b c at);
            counted = omega (arith, h.counted, r.width, sum_of-set count_in m.buckets i b c at);
          };
          load = l.load;
        };
        reads = λ q. view-write m k q b c (some v) h at (r.reads q);
      }

  find-single :
      (k q : K) (v : V) (ns : List (K × V))
      → find ops k ns ≡ none
      → find ops q (ns ++ (k, v) ∷ []) ≡ (if ops.cmp k q then some v else find ops q ns)
  unfolding find
  find-single k q v [] e = refl
  find-single k q v (n ∷ ns) e =
      ground
        (arith, find-single k q v ns, ops.cmp_symm k q, ops.cmp_symm n.0 k, ops.cmp_trans n.0 q k)

  -- The entries with a key all stand in the key's bucket.
  tally-elsewhere :
      (n d : ℕ) (bs : List (Bucket K V)) (q : K)
      → Placed ops n d bs
      → home ops q n < d
      → tally ops q bs ≡ 0
  tally-elsewhere n d [] q h lt = refl
  tally-elsewhere n d (b ∷ bs) q h lt =
      let (a, z) = find_elsewhere ops n d q b.nodes h.1 (omega arith) in
      omega (arith, z, tally-elsewhere n (suc d) bs q h.2 (omega arith))

  tally-home :
      (n d j : ℕ) (bs : List (Bucket K V)) (q : K)
      → Placed ops n d bs
      → d + j ≡ home ops q n
      → tally ops q bs ≡ sum_of (matches ops q) (nodes_at bs j)
  tally-home n d j [] q h e = refl
  tally-home n d zero (b ∷ bs) q h e =
      omega (arith, tally-elsewhere n (suc d) bs q h.2 (omega arith))
  tally-home n d (suc j) (b ∷ bs) q h e =
      let (a, z) = find_elsewhere ops n d q b.nodes h.1 (omega arith) in
      omega (arith, z, tally-home n (suc d) j bs q h.2 (omega arith))

  tally-bucket :
      (n : ℕ) (k q : K) (bs : List (Bucket K V)) (b : Bucket K V)
      → Placed ops n 0 bs
      → bucket_at bs (home ops k n) ≡ ok b
      → ops.cmp k q ≡ true
      → tally ops q bs ≡ sum_of (matches ops k) b.nodes
  tally-bucket n k q bs b h at same =
      let there : 0 + home ops k n ≡ home ops q n = omega (arith, home_congr ops n k q same) in
      tally-home n 0 (home ops k n) bs q h there
      ∙ rw (nodes_at-eq bs (home ops k n) b at) (sym (matches_congr ops k q b.nodes same))

  added-IsTable :
      (m : HashMap K V) (k : K) (v : V) (b : Bucket K V)
      → IsTable ops m
      → bucket_at m.buckets (home ops k m.n_buckets) ≡ ok b
      → sum_of (matches ops k) b.nodes ≡ 0
      → IsTable ops (record m {
        size = m.size + 1;
        buckets = set m.buckets (home ops k m.n_buckets) (bucket_add_node b k v);
      })
  unfolding bucket_add_node
  added-IsTable m k v b h at fresh =
      let i = home ops k m.n_buckets in
      let c = bucket_add_node b k v in
      let (right, here) = Placed-at ops m.n_buckets 0 i m.buckets b h.placed at in
      record {
        width = length-set m.buckets i c ∙ h.width;
        pos = h.pos;
        placed =
            Placed-set ops m.n_buckets 0 i m.buckets c h.placed
              (omega (arith, right, length-append b.nodes ((k, v) ∷ [])))
              (All-append (λ x. home ops x.0 m.n_buckets ≡ 0 + i) b.nodes ((k, v) ∷ []) here
                (omega arith, tt));
        unique = λ q.
            let more = sum_of-set (tally_in ops q) m.buckets i b c at in
            let one = sum_of-append (matches ops q) b.nodes ((k, v) ∷ []) in
            elim (Bool-cases (ops.cmp k q)) [
              | inl same ↦
                  let none_yet = tally-bucket m.n_buckets k q m.buckets b h.placed at same in
                  ground (arith, more, one, none_yet, fresh)
              | inr other ↦ ground (arith, more, one, other, h.unique q)
            ];
        counted = omega (
          arith,
          h.counted,
          sum_of-set count_in m.buckets i b c at,
          length-append b.nodes ((k, v) ∷ []),
        );
      }

  -- Put of a key and a value on a table in order that is no fuller than three quarters, whose
  -- doubled size divides 2^32: it returns, the table is in order and no fuller than that again, and
  -- the abstract map has the value under the keys equal to `k` and is else unchanged, whether
  -- the entry was replaced, added, or added and the table doubled.
  pub hash_map_put_entry_move-Put :
      (m : HashMap K V) (k : K) (v : V) (p : ℕ)
      → IsLoaded m
      → m.n_buckets * 2 * p ≡ 2 ^ 32
      → Returns (λ r. Put m k (some v) r.0) (hash_map_put_entry_move ops m (some k) (some v))
  unfolding hash_map_put_entry_move calculate_index put_in bucket_add_node
  hash_map_put_entry_move-Put m k v p l power =
      let (b, at, right, reads, inside) = home_bucket m k l.table in
      rw (at, right)
        (Returns-bind (Replaces ops k v b.nodes) (λ r. Put m k (some v) r.0)
          (replace_entry ops (length b.nodes) b.nodes k v) _
          (replace_entry-Replaces ops k v b.nodes) (finish b at))
    where
      finish :
          (b : Bucket K V)
          → bucket_at m.buckets (home ops k m.n_buckets) ≡ ok b
          → (r : Option (List (K × V) × List (Destroyed K V))) → Replaces ops k v b.nodes r
          → Returns (λ x. Put m k (some v) x.0) (put_in ops m (home ops k m.n_buckets) b k v r)
      finish b at (some (ns, d)) r = Replaced-Put m k v b ns d l at r
      finish b at none r =
          let i = home ops k m.n_buckets in
          let m1 = record m { buckets = set m.buckets i (bucket_add_node b k v) } in
          Returns-bind (Expanded ops m1) (λ x. Put m k (some v) x.0) (expand_if_necessary ops m1) _
            (expand_if_necessary-Expanded ops m1 p (added-IsTable m k v b l.table at r.1) l.load
              power)
            λ m' e. record {
              loaded = record { table = e.table; load = e.load };
              reads = λ q.
                  e.reads q
                  ∙ view-write m k q b (bucket_add_node b k v) (some v) l.table at
                      (find-single k q v b.nodes r.0);
            }

  view-absent :
      (m : HashMap K V) (k q : K) (b : Bucket K V)
      → bucket_at m.buckets (home ops k m.n_buckets) ≡ ok b
      → sum_of (matches ops k) b.nodes ≡ 0
      → view ops m.buckets m.n_buckets q
        ≡ (if ops.cmp k q then none else view ops m.buckets m.n_buckets q)
  view-absent m k q b at none_there = elim (Bool-cases (ops.cmp k q)) [
    | inl same ↦ rw same (
        view-home ops m.n_buckets (home ops k m.n_buckets) m.buckets b q at
          (home_congr ops m.n_buckets k q same)
        ∙ find-untallied ops q b.nodes (sym (matches_congr ops k q b.nodes same) ∙ none_there))
    | inr other ↦ rw other
  ]

  -- Remove of a key on such a table: it returns, the abstract map has no value under the keys
  -- equal to `k` and is else unchanged.
  pub hash_map_remove_entry-Put :
      (m : HashMap K V) (k : K)
      → IsLoaded m
      → Returns (λ r. Put m k none r.0) (hash_map_remove_entry ops m (some k))
  unfolding hash_map_remove_entry calculate_index remove_in
  hash_map_remove_entry-Put m k l =
      let (b, at, right, reads, inside) = home_bucket m k l.table in
      rw (at, right)
        (Returns-bind (Fetches ops k b.nodes) (λ r. Put m k none r.0)
          (hash_map_get_entry_ref ops (length b.nodes) b.nodes k) _
          (get_entry_ref-Fetches ops k b.nodes) (finish b at))
    where
      finish :
          (b : Bucket K V)
          → bucket_at m.buckets (home ops k m.n_buckets) ≡ ok b
          → (r : Option ((K × V) × List (K × V))) → Fetches ops k b.nodes r
          → Returns (λ x. Put m k none x.0) (remove_in ops m (home ops k m.n_buckets) b k r)
      finish b at none f = record { loaded = l; reads = λ q. view-absent m k q b at f.1 }
      finish b at (some (e, tail)) f =
          let h = l.table in
          let i = home ops k m.n_buckets in
          let ns = without ops k b.nodes in
          let c = record b { nodes = ns; n_node = b.n_node - 1 } in
          let (right, here) = Placed-at ops m.n_buckets 0 i m.buckets b h.placed at in
          let once = tally-at k m.buckets i b at in
          let r = without-Removed ops k b.nodes e.1 f.value (omega (arith, once, h.unique k)) in
          rw (f.rest, remove_node-without ops k b.nodes e.1 f.value)
            (record {
              loaded = record {
                table = record {
                  width = length-set m.buckets i c ∙ h.width;
                  pos = h.pos;
                  placed =
                      Placed-set ops m.n_buckets 0 i m.buckets c h.placed
                        (omega (arith, right, r.width)) (r.places m.n_buckets (0 + i) here);
                  unique = λ q. omega (
                    arith,
                    h.unique q,
                    r.tallied q,
                    sum_of-set (tally_in ops q) m.buckets i b c at,
                  );
                  counted =
                      omega (arith, h.counted, r.width, sum_of-set count_in m.buckets i b c at);
                };
                load = omega (arith, l.load);
              };
              reads = λ q. view-write m k q b c none h at (r.reads q);
            })
