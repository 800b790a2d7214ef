-- ===== src/Svc/Names.antt =====
-- check_valid_branch_name, and the range of the number in a commit's id.
use mathlib.Core.Logic.{◌↔◌}
use system_programming_and_d.Base.{
  ℕ, zero, suc, ◌%◌, ◌^◌, ◌≤◌, ◌<◌, ◌≡◌, ◌≢◌, refl, ◌⊎◌, inl, inr, Bool, true, false, ◌||◌,
  Bool-cases, List, [], ◌∷◌, ◌++◌, All, All-append, arith, length, ◌==◌, if◌then◌else◌,
}
use system_programming_and_d.Svc.{
  pos, negsuc, SvcFile, Commit, sum_array, sum_id_file_name, greater, strlwr, settle_name,
  sort_names, sort_array_of_string, sort_changed_files, paths_of, sum_changes, commit_number,
}
use system_programming_and_d.Svc.Branches.{isdigit, isalnum, check_valid_branch_name}

-- a-z, A-Z, 0-9, _, / and -
abbrev pub IsNameChar : ℕ → Type 0
IsNameChar c =
    ((97 ≤ c) × (c ≤ 122))
    ⊎ (((65 ≤ c) × (c ≤ 90)) ⊎ (((48 ≤ c) × (c ≤ 57)) ⊎ ((c ≡ 95) ⊎ ((c ≡ 47) ⊎ (c ≡ 45)))))

abbrev passes : ℕ → Bool
passes c = isdigit c || (isalnum c || c == 95 || c == 47 || c == 45)

nil_name : check_valid_branch_name [] ≡ pos 0
unfolding check_valid_branch_name
nil_name = refl

check_valid_branch_name-cons :
    (c : ℕ) (name : List ℕ)
    → check_valid_branch_name (c ∷ name)
      ≡ (if passes c then check_valid_branch_name name else negsuc 0)
unfolding check_valid_branch_name
check_valid_branch_name-cons c name = ground arith

passes-IsNameChar : (c : ℕ) → passes c ≡ true → IsNameChar c
passes-IsNameChar c h = ground arith

IsNameChar-passes : (c : ℕ) → IsNameChar c → passes c ≡ true
IsNameChar-passes c h = ground arith

negsuc_pos : {m n : ℕ} → negsuc m ≢ pos n
negsuc_pos e = cc

-- A branch name is accepted exactly if all its characters are letters, digits, _, / or -; the empty
-- name is.
pub check_valid_branch_name-IsNameChar :
    (name : List ℕ) → (check_valid_branch_name name ≡ pos 0) ↔ All IsNameChar name
check_valid_branch_name-IsNameChar name = (sound name, complete name)
  where
    sound : (xs : List ℕ) → check_valid_branch_name xs ≡ pos 0 → All IsNameChar xs
    sound [] h = tt
    sound (c ∷ xs) h = elim (Bool-cases (passes c)) [
      | inl good ↦
          (passes-IsNameChar c good, sound xs (rw (check_valid_branch_name-cons c xs, good) at h))
      | inr bad ↦ absurd (negsuc_pos (rw (check_valid_branch_name-cons c xs, bad) at h))
    ]

    complete : (xs : List ℕ) → All IsNameChar xs → check_valid_branch_name xs ≡ pos 0
    complete [] h = nil_name
    complete (c ∷ xs) h =
        rw (check_valid_branch_name-cons c xs, IsNameChar-passes c h.0) (complete xs h.1)

abbrev IsNonempty : List ℕ → Type 0
IsNonempty p = 0 < length p

abbrev pub HasNonemptyPath : SvcFile → Type 0
HasNonemptyPath f = IsNonempty f.file_path

settle_name-IsNonempty :
    (x : List ℕ) (ys : List (List ℕ))
    → IsNonempty x
    → All IsNonempty ys
    → IsNonempty (settle_name x ys).0 × All IsNonempty (settle_name x ys).1
unfolding settle_name
settle_name-IsNonempty x [] hx hys = (hx, tt)
settle_name-IsNonempty x (y ∷ ys) hx hys =
    pick (greater (strlwr x) (strlwr y)) (settle_name-IsNonempty y ys hys.0 hys.1)
      (settle_name-IsNonempty x ys hx hys.1)
  where
    pick :
        (b : Bool)
        → IsNonempty (settle_name y ys).0 × All IsNonempty (settle_name y ys).1
        → IsNonempty (settle_name x ys).0 × All IsNonempty (settle_name x ys).1
        → (let r : List ℕ × List (List ℕ) =
              if b
              then ((settle_name y ys).0, x ∷ (settle_name y ys).1)
              else ((settle_name x ys).0, y ∷ (settle_name x ys).1) in
            IsNonempty r.0 × All IsNonempty r.1)
    pick true h k = (h.0, (hx, h.1))
    pick false h k = (k.0, (hys.0, k.1))

sort_names-IsNonempty :
    (n : ℕ) (xs : List (List ℕ)) → All IsNonempty xs → All IsNonempty (sort_names n xs)
unfolding sort_names
sort_names-IsNonempty zero xs h = h
sort_names-IsNonempty (suc n) [] h = tt
sort_names-IsNonempty (suc n) (x ∷ xs) h =
    let r = settle_name-IsNonempty x xs h.0 h.1 in (r.0, sort_names-IsNonempty n _ r.1)

sum_id_file_name-bound :
    (name : List ℕ) (id : ℕ) → IsNonempty name → sum_id_file_name id name ≤ 15485863
unfolding sum_id_file_name
sum_id_file_name-bound [] id h = absurd (omega arith)
sum_id_file_name-bound (b ∷ []) id h = omega arith
sum_id_file_name-bound (b ∷ c ∷ name) id h = sum_id_file_name-bound (c ∷ name) _ (omega arith)

sum_changes-bound :
    (c : Commit) (names : List (List ℕ)) (id : ℕ)
    → All IsNonempty names
    → id ≤ 15485863
    → sum_changes id c names ≤ 15485863
unfolding sum_changes
sum_changes-bound c [] id h le = le
sum_changes-bound c (name ∷ names) id h le =
    sum_changes-bound c names _ h.1 (sum_id_file_name-bound name _ h.0)

paths_of-IsNonempty : (fs : List SvcFile) → All HasNonemptyPath fs → All IsNonempty (paths_of fs)
paths_of-IsNonempty [] h = tt
paths_of-IsNonempty (f ∷ fs) h = (h.0, paths_of-IsNonempty fs h.1)

-- The number of a commit whose changed files have paths that are not empty is below 2^24, so that
-- its id has six hexadecimal digits.
pub commit_number-bound :
    (message : List ℕ) (c : Commit)
    → All HasNonemptyPath c.added_files
    → All HasNonemptyPath c.removed_files
    → All HasNonemptyPath c.modified_files
    → commit_number message c < 2 ^ 24
unfolding commit_number sort_changed_files sort_array_of_string
commit_number-bound message c ha hr hm =
    let names = paths_of c.added_files ++ paths_of c.removed_files ++ paths_of c.modified_files in
    let filled : All IsNonempty names =
      All-append IsNonempty (paths_of c.added_files ++ paths_of c.removed_files)
        (paths_of c.modified_files)
        (All-append IsNonempty (paths_of c.added_files) (paths_of c.removed_files)
          (paths_of-IsNonempty c.added_files ha) (paths_of-IsNonempty c.removed_files hr))
        (paths_of-IsNonempty c.modified_files hm) in
    omega (
      arith,
      sum_changes-bound c (sort_names (length names) names) (sum_array message % 1000)
          (sort_names-IsNonempty (length names) names filled) (omega arith),
    )
