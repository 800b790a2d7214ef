-- ===== src/HashMap.antt =====
-- Thread Safe HashMap/hashmap.{h,c}: a table of buckets, each a linked list, that doubles above a
-- load of three quarters. The calls are taken one at a time: locks, and the memory that is freed,
-- are outside the model. `cmp` and `hash` are the caller's, with what they are documented to do in
-- `KeyOps`. A bucket has its own count of nodes, by which the loops run: a count that is too large
-- reads past the list, which is a fault. `NULL` arguments are `none`.
pub mod Words
pub mod Table
pub mod Update
pub mod Expand
pub mod Methods
pub mod Destroys
pub mod Tests
use system_programming_and_d.Base.{
  ℕ, zero, suc, ◌+◌, ◌-◌, ◌*◌, ◌/◌, ◌%◌, ◌^◌, ◌≡◌, Bool, true, false, List, [], ◌∷◌, ◌++◌, Option,
  none, some, ltb, leb, if◌then◌else◌, get_elem?, set, Outcome, ok, fault, ◌>>=◌,
}

-- `cmp(a, b) == 1` is an equivalence that `hash` respects; `hash` is a size_t.
pub record KeyOps (K : Type 0) : Type 0 where
  pub cmp : K → K → Bool
  pub hash : K → ℕ
  pub cmp_refl : (a : K) → cmp a a ≡ true
  pub cmp_symm : (a b : K) → cmp a b ≡ cmp b a
  pub cmp_trans : (a b c : K) → cmp a b ≡ true → cmp b c ≡ true → cmp a c ≡ true
  pub hash-cmp : (a b : K) → cmp a b ≡ true → hash a ≡ hash b

abbrev pub init_capacity : ℕ
init_capacity = 32

-- struct node, in link order, and struct bucket
pub record Bucket (K V : Type 0) : Type 0 where
  pub hash : ℕ
  pub nodes : List (K × V)
  pub n_node : ℕ

pub record HashMap (K V : Type 0) : Type 0 where
  pub size : ℕ
  pub buckets : List (Bucket K V)
  pub n_buckets : ℕ

-- A call of a destructor of the caller.
pub data Destroyed (K V : Type 0) : Type 0 where
  key_destruct : K → Destroyed K V
  value_destruct : V → Destroyed K V
  value_destruct_key : K → Destroyed K V

unfoldable pub calculate_index : ℕ → ℕ → ℕ
calculate_index n_buckets hash = hash % n_buckets

-- `int hash = map->hash(k)`, passed on as a size_t: the low 32 bits with their sign extended.
unfoldable pub int_of : ℕ → ℕ
int_of h = let low = h % 2 ^ 32 in if ltb low (2 ^ 31) then low else 2 ^ 64 - 2 ^ 32 + low

module _ {K V : Type 0} where
  -- from index `i`, `n` buckets
  unfoldable pub init_buckets : ℕ → ℕ → List (Bucket K V)
  init_buckets i zero = []
  init_buckets i (suc n) = record { hash = i; nodes = []; n_node = 0 } ∷ init_buckets (i + 1) n

  -- With four functions that are not NULL.
  unfoldable pub hash_map_new : HashMap K V
  unfolding init_buckets
  hash_map_new = record {
    size = 0;
    buckets = init_buckets 0 init_capacity;
    n_buckets = init_capacity;
  }

  unfoldable pub bucket_add_node : Bucket K V → K → V → Bucket K V
  bucket_add_node b k v = record b { nodes = b.nodes ++ (k, v) ∷ []; n_node = b.n_node + 1 }

  -- `buckets[i]`
  unfoldable pub bucket_at : List (Bucket K V) → ℕ → Outcome (Bucket K V)
  bucket_at [] i = fault
  bucket_at (b ∷ bs) zero = ok b
  bucket_at (b ∷ bs) (suc i) = bucket_at bs i

  -- Which bucket a call works on.
  abbrev pub index_in : KeyOps K → HashMap K V → K → ℕ
  index_in ops m k = calculate_index m.n_buckets (ops.hash k)

  abbrev pub keep_node :
      K × V
      → Option (List (K × V) × List (Destroyed K V))
      → Option (List (K × V) × List (Destroyed K V))
  keep_node n none = none
  keep_node n (some (ns, d)) = some (n ∷ ns, d)

  abbrev pub value_of : Option ((K × V) × List (K × V)) → Option V
  value_of none = none
  value_of (some (e, tail)) = some e.1

  module _ (ops : KeyOps K) where
    -- The loop over `n_node` nodes: the first entry that compares equal, and the nodes behind it.
    unfoldable pub hash_map_get_entry_ref :
        ℕ → List (K × V) → K → Outcome (Option ((K × V) × List (K × V)))
    hash_map_get_entry_ref zero ns k = ok none
    hash_map_get_entry_ref (suc j) [] k = fault
    hash_map_get_entry_ref (suc j) (n ∷ ns) k =
        let rest = hash_map_get_entry_ref j ns k in
        if ops.cmp n.0 k then ok (some (n, ns)) else rest

    -- The loop of put: the nodes with the first equal entry replaced, and what was destroyed.
    unfoldable pub replace_entry :
        ℕ → List (K × V) → K → V → Outcome (Option (List (K × V) × List (Destroyed K V)))
    replace_entry zero ns k v = ok none
    replace_entry (suc j) [] k v = fault
    replace_entry (suc j) (n ∷ ns) k v =
        let rest = replace_entry j ns k v >>= λ r. ok (keep_node n r) in
        if ops.cmp n.0 k
        then ok (some ((k, v) ∷ ns, value_destruct n.1 ∷ value_destruct_key n.0 ∷ []))
        else rest

    -- The inner loop of the expansion: the nodes of one old bucket.
    unfoldable pub move_nodes : List (Bucket K V) → ℕ → List (K × V) → Outcome (List (Bucket K V))
    unfolding bucket_at bucket_add_node int_of calculate_index
    move_nodes new n [] = ok new
    move_nodes new n (e ∷ es) = do
      let index = calculate_index n (int_of (ops.hash e.0))
      b ← bucket_at new index
      move_nodes (set new index (bucket_add_node b e.0 e.1)) n es

    -- The outer loop.
    unfoldable pub move_buckets :
        List (Bucket K V) → ℕ → List (Bucket K V) → Outcome (List (Bucket K V))
    unfolding move_nodes
    move_buckets new n [] = ok new
    move_buckets new n (b ∷ bs) = move_nodes new n b.nodes >>= λ new'. move_buckets new' n bs

    unfoldable pub expand_if_necessary : HashMap K V → Outcome (HashMap K V)
    unfolding move_buckets init_buckets
    expand_if_necessary m =
        if leb (m.size + 1) (m.n_buckets * 3 / 4) then ok (record m { size = m.size + 1 }) else (do
          new ← move_buckets (init_buckets 0 (m.n_buckets * 2)) (m.n_buckets * 2) m.buckets
          ok (record { size = m.size + 1; buckets = new; n_buckets = m.n_buckets * 2 }))

    -- What put does behind its loop.
    unfoldable pub put_in :
        HashMap K V
        → ℕ
        → Bucket K V
        → K
        → V
        → Option (List (K × V) × List (Destroyed K V))
        → Outcome (HashMap K V × List (Destroyed K V))
    unfolding expand_if_necessary bucket_add_node
    put_in m i b k v (some (ns, d)) =
        ok (record m { buckets = set m.buckets i (record b { nodes = ns }) }, d)
    put_in m i b k v none = do
      m' ← expand_if_necessary (record m { buckets = set m.buckets i (bucket_add_node b k v) })
      ok (m', [])

    unfoldable pub hash_map_put_entry_move :
        HashMap K V → Option K → Option V → Outcome (HashMap K V × List (Destroyed K V))
    unfolding replace_entry put_in bucket_at calculate_index
    hash_map_put_entry_move m (some k) (some v) = do
      let i = index_in ops m k
      b ← bucket_at m.buckets i
      r ← replace_entry b.n_node b.nodes k v
      put_in m i b k v r
    hash_map_put_entry_move m _ _ = ok (m, [])

    -- The search for the node before the entry, behind the node `n`: its `next` is set to `tail`.
    unfoldable pub unlink : K × V → List (K × V) → K → List (K × V) → Outcome (List (K × V))
    unlink n [] k tail = fault
    unlink n (x ∷ xs) k tail =
        let rest = unlink x xs k tail >>= λ r. ok (n ∷ r) in
        if ops.cmp x.0 k then ok (n ∷ tail) else rest

    unfoldable pub remove_node : List (K × V) → K → List (K × V) → Outcome (List (K × V))
    unfolding unlink
    remove_node [] k tail = fault
    remove_node (n ∷ ns) k tail = if ops.cmp n.0 k then ok ns else unlink n ns k tail

    unfoldable pub remove_in :
        HashMap K V
        → ℕ
        → Bucket K V
        → K
        → Option ((K × V) × List (K × V))
        → Outcome (HashMap K V × List (Destroyed K V))
    unfolding remove_node
    remove_in m i b k none = ok (m, [])
    remove_in m i b k (some (e, tail)) = do
      ns ← remove_node b.nodes k tail
      ok (
        record m {
          size = m.size - 1;
          buckets = set m.buckets i (record b { nodes = ns; n_node = b.n_node - 1 });
        },
        key_destruct e.0 ∷ value_destruct e.1 ∷ [],
      )

    unfoldable pub hash_map_remove_entry :
        HashMap K V → Option K → Outcome (HashMap K V × List (Destroyed K V))
    unfolding hash_map_get_entry_ref remove_in bucket_at calculate_index
    hash_map_remove_entry m none = ok (m, [])
    hash_map_remove_entry m (some k) = do
      let i = index_in ops m k
      b ← bucket_at m.buckets i
      r ← hash_map_get_entry_ref b.n_node b.nodes k
      remove_in m i b k r

    -- The loop of get is that of hash_map_get_entry_ref.
    unfoldable pub hash_map_get_value_ref : HashMap K V → Option K → Outcome (Option V)
    unfolding hash_map_get_entry_ref bucket_at calculate_index
    hash_map_get_value_ref m none = ok none
    hash_map_get_value_ref m (some k) = do
      b ← bucket_at m.buckets (index_in ops m k)
      r ← hash_map_get_entry_ref b.n_node b.nodes k
      ok (value_of r)

    -- The destructor calls of hash_map_destroy, bucket by bucket.
    unfoldable pub node_list_destroy : List (K × V) → List (Destroyed K V)
    node_list_destroy [] = []
    node_list_destroy (e ∷ es) = key_destruct e.0 ∷ value_destruct e.1 ∷ node_list_destroy es

    unfoldable pub hash_map_destroy : List (Bucket K V) → List (Destroyed K V)
    unfolding node_list_destroy
    hash_map_destroy [] = []
    hash_map_destroy (b ∷ bs) =
        (if ltb 0 b.n_node then node_list_destroy b.nodes else []) ++ hash_map_destroy bs
