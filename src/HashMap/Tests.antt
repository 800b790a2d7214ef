-- ===== src/HashMap/Tests.antt =====
-- Runs of the hash map: numbers as keys, their own hashes.
use system_programming_and_d.Base.{
  ℕ, ◌^◌, ◌≡◌, refl, [], ◌∷◌, ◌++◌, none, some, arith, ◌==◌, ◌-◌, ok, Returns,
}
use system_programming_and_d.HashMap.{
  KeyOps, HashMap, hash_map_new, init_buckets, hash_map_put_entry_move, hash_map_remove_entry,
  hash_map_get_value_ref, hash_map_get_entry_ref, bucket_add_node, bucket_at, replace_entry, put_in,
  expand_if_necessary, calculate_index, int_of,
}
use system_programming_and_d.HashMap.Table.{view, IsTable}
use system_programming_and_d.HashMap.Words.{index_of_int}
use system_programming_and_d.HashMap.Expand.{
  Expanded, hash_map_new-IsTable, expand_if_necessary-Expanded,
}
use system_programming_and_d.HashMap.Methods.{
  IsLoaded, Put, hash_map_put_entry_move-Put, hash_map_remove_entry-Put,
  hash_map_get_value_ref-view,
}

abbrev numbers : KeyOps ℕ
numbers = record {
  cmp = ◌==◌;
  hash = λ a. a;
  cmp_refl = λ a. ground arith;
  cmp_symm = λ a b. ground arith;
  cmp_trans = λ a b c e f. ground arith;
  hash-cmp = λ a b e. ground arith;
}

abbrev empty : HashMap ℕ ℕ
empty = hash_map_new

empty-IsLoaded : IsLoaded numbers empty
unfolding hash_map_new
empty-IsLoaded = record { table = (hash_map_new-IsTable numbers).0; load = omega arith }

-- Key 37 goes to bucket 5 of 32.
abbrev one_entry : HashMap ℕ ℕ
one_entry = record {
  size = 1;
  buckets =
      init_buckets 0 5 ++ record { hash = 5; nodes = (37, 7) ∷ []; n_node = 1 } ∷ init_buckets 6 26;
  n_buckets = 32;
}

one_entry-Put : Put numbers empty 37 (some 7) one_entry
unfolding hash_map_put_entry_move replace_entry put_in expand_if_necessary bucket_at bucket_add_node
    calculate_index hash_map_new init_buckets
one_entry-Put = hash_map_put_entry_move-Put numbers empty 37 7 (2 ^ 26) empty-IsLoaded (omega arith)

-- The witnesses of the theorems on the hash map.
hash_map_put_entry_move-Put_example :
    Returns
      (λ r. Put numbers one_entry 69 (some 8) r.0)
      (hash_map_put_entry_move numbers one_entry (some 69) (some 8))
hash_map_put_entry_move-Put_example =
    hash_map_put_entry_move-Put numbers one_entry 69 8 (2 ^ 26) one_entry-Put.loaded (omega arith)

hash_map_remove_entry-Put_example :
    Returns
      (λ r. Put numbers one_entry 37 none r.0)
      (hash_map_remove_entry numbers one_entry (some 37))
hash_map_remove_entry-Put_example =
    hash_map_remove_entry-Put numbers one_entry 37 one_entry-Put.loaded

hash_map_get_value_ref-view_example :
    hash_map_get_value_ref numbers one_entry (some 37) ≡ ok (view numbers one_entry.buckets 32 37)
hash_map_get_value_ref-view_example =
    hash_map_get_value_ref-view numbers one_entry 37 one_entry-Put.loaded.table

-- One bucket with its entry before it is counted: the table is doubled.
abbrev tiny : HashMap ℕ ℕ
tiny = record {
  size = 0;
  buckets = record { hash = 0; nodes = (37, 7) ∷ []; n_node = 1 } ∷ [];
  n_buckets = 1;
}

tiny-IsTable : IsTable numbers (record tiny { size = 1 })
tiny-IsTable = record {
  width = refl;
  pos = omega arith;
  placed = (refl, (refl, tt), tt);
  unique = λ q. ground arith;
  counted = refl;
}

expand_if_necessary-Expanded_example :
    Returns (Expanded numbers tiny) (expand_if_necessary numbers tiny)
expand_if_necessary-Expanded_example =
    expand_if_necessary-Expanded numbers tiny (2 ^ 31) tiny-IsTable (omega arith) (omega arith)

index_of_int_example : calculate_index 64 (int_of (2 ^ 33 - 5)) ≡ calculate_index 64 (2 ^ 33 - 5)
index_of_int_example = index_of_int 64 (2 ^ 26) (2 ^ 33 - 5) (omega arith)

-- The value is found, by a run.
found : hash_map_get_value_ref numbers one_entry (some 37) ≡ ok (some 7)
unfolding hash_map_get_value_ref hash_map_get_entry_ref bucket_at calculate_index init_buckets
found = refl
