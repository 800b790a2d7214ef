-- ===== src/HashMap/Destroys.antt =====
-- hash_map_destroy: what is passed to the destructors.
use system_programming_and_d.Base.{List, [], ◌∷◌, ◌++◌}
use system_programming_and_d.HashMap.{
  Bucket, HashMap, Destroyed, key_destruct, value_destruct, value_destruct_key,
}

-- The entries of all buckets.
abbrev pub entries : {K V : Type 0} → List (Bucket K V) → List (K × V)
entries [] = []
entries (b ∷ bs) = b.nodes ++ entries bs

-- What the destructor of keys gets, and that of values.
abbrev pub keys_of : {K V : Type 0} → List (Destroyed K V) → List K
keys_of [] = []
keys_of (key_destruct k ∷ ds) = k ∷ keys_of ds
keys_of (value_destruct v ∷ ds) = keys_of ds
keys_of (value_destruct_key k ∷ ds) = keys_of ds

abbrev pub values_of : {K V : Type 0} → List (Destroyed K V) → List V
values_of [] = []
values_of (key_destruct k ∷ ds) = values_of ds
values_of (value_destruct v ∷ ds) = v ∷ values_of ds
values_of (value_destruct_key k ∷ ds) = values_of ds
