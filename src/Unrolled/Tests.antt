-- ===== src/Unrolled/Tests.antt =====
-- Runs of the unrolled list.
use system_programming_and_d.Base.{
  ℕ, ◌≡◌, refl, [], ◌∷◌, ◌++◌, none, some, arith, get_elem?, ok, fault, ◌>>=◌, Returns,
}
use system_programming_and_d.Unrolled.{
  Unrolled, unrolled_ll_append, unrolled_ll_get, unrolled_ll_remove, append_in, append_at, put_slot,
  create_new_node,
}
use system_programming_and_d.Unrolled.Contents.{contents, IsOrdered}
use system_programming_and_d.Unrolled.Reads.{unrolled_ll_get-contents}
use system_programming_and_d.Unrolled.Writes.{unrolled_ll_append-contents}
use system_programming_and_d.Unrolled.Removes.{
  TakenFrom, unrolled_ll_remove-TakenFrom, unrolled_ll_remove_head,
}

abbrev three : Unrolled ℕ
three = record {
  nodes =
      record { elements = some 4 ∷ some 5 ∷ []; capacity = 2 }
      ∷ record { elements = some 6 ∷ none ∷ []; capacity = 1 }
      ∷ [];
  len = 3;
  n_node = 2;
  n = 2;
}

three-IsOrdered : IsOrdered three
three-IsOrdered = record {
  pos = omega arith;
  fit = (
    record { width = refl; bound = omega arith; free = tt },
    (record { width = refl; bound = omega arith; free = (refl, tt) }, tt),
  );
  linked = refl;
  counted = refl;
}

unrolled_ll_get-contents_example : unrolled_ll_get three 2 ≡ get_elem? (contents three.nodes) 2
unrolled_ll_get-contents_example = unrolled_ll_get-contents three 2 three-IsOrdered

unrolled_ll_append-contents_example :
    Returns
      (λ l'. IsOrdered l' × (contents l'.nodes ≡ contents three.nodes ++ 7 ∷ []))
      (unrolled_ll_append three (some 7))
unrolled_ll_append-contents_example = unrolled_ll_append-contents three 7 three-IsOrdered

unrolled_ll_remove-TakenFrom_example : Returns (TakenFrom three 2) (unrolled_ll_remove three 2)
unrolled_ll_remove-TakenFrom_example =
    unrolled_ll_remove-TakenFrom three 2 three-IsOrdered (λ a b c. absurd (omega arith))

abbrev two : Unrolled ℕ
two = record {
  nodes =
      record { elements = some 4 ∷ []; capacity = 1 }
      ∷ record { elements = some 5 ∷ []; capacity = 1 }
      ∷ [];
  len = 2;
  n_node = 2;
  n = 1;
}

unrolled_ll_remove_head_example : unrolled_ll_remove two 0 ≡ fault
unrolled_ll_remove_head_example = unrolled_ll_remove_head two _ _ refl refl (omega arith)

-- After the only element of the only node was removed, the second of two appends replaces the node
-- of the first.
abbrev emptied : Unrolled ℕ
emptied = record {
  nodes = record { elements = none ∷ []; capacity = 1 } ∷ [];
  len = 0;
  n_node = 0;
  n = 1;
}

forgotten :
    (unrolled_ll_append emptied (some 8) >>= λ l.
    unrolled_ll_append l (some 9) >>= λ m. ok (contents m.nodes))
    ≡ ok (9 ∷ [])
unfolding unrolled_ll_append append_in append_at put_slot create_new_node
forgotten = refl
