-- ===== src/Svc/Tracks.antt =====
-- svc_add and svc_rm: the file that is tracked.
use system_programming_and_d.Base.{
  ℕ, ◌<◌, ◌≡◌, refl, ap, inl, inr, Bool, true, false, not, ◌&&◌, Bool-cases, List, [], ◌∷◌, Option,
  none, some, arith, ◌==◌, length, length-set, set, load-lt, store-lt, Returns,
}
use system_programming_and_d.Svc.{
  ℤ, negsuc, same, Disk, SvcFile, Branch, BranchList, exists, hash_path,
}
use system_programming_and_d.Svc.Commits.{
  add_in, add_file_to_brnach, with_files, get_current_branch_ptr, svc_add,
}
use system_programming_and_d.Svc.Settles.{current, no_branch, current-set}

pub same_self : (xs : List ℕ) → same xs xs ≡ true
unfolding same
same_self [] = refl
same_self (x ∷ xs) = let e : (x == x) ≡ true = ground arith in rw (e, same_self xs) refl

-- The files after svc_add.
abbrev files_after : Disk → List ℕ → List SvcFile → List SvcFile
files_after disk name files = (add_file_to_brnach disk name (add_in disk name files)).1

-- The loop of svc_add finds the file tracked, and changes nothing.
abbrev FoundIn : Disk → List ℕ → List SvcFile → Type 0
FoundIn disk name files = add_in disk name files ≡ (some (negsuc 1), files)

conjunct : (a b : Bool) → (a && b) ≡ true → a ≡ true
conjunct true b e = refl
conjunct false b e = e

add_file_to_brnach-cons :
    (disk : Disk) (name : List ℕ) (f : SvcFile) (o : Option ℤ) (l : List SvcFile)
    → (add_file_to_brnach disk name (o, f ∷ l)).1 ≡ f ∷ (add_file_to_brnach disk name (o, l)).1
add_file_to_brnach-cons disk name f none l = refl
add_file_to_brnach-cons disk name f (some z) l = refl

module _ (disk : Disk) (name : List ℕ) (f : SvcFile) (files : List SvcFile) where
  add_in_tracked :
      (same f.file_path name && f.added && not f.removed) ≡ true → FoundIn disk name (f ∷ files)
  unfolding add_in
  add_in_tracked e = rw e refl

  add_in_lost :
      (same f.file_path name && f.added && not f.removed) ≡ false
      → (same f.file_path name && not f.added) ≡ true
      → add_in disk name (f ∷ files) ≡ (
        some (hash_path disk name),
        (record f {
          hash_code = hash_path disk name;
          added = true;
          staged = true;
          removed = false;
          modified = false;
        })
            ∷ files,
      )
  unfolding add_in
  add_in_lost e e' = rw (e, e') refl

  add_in_away :
      (same f.file_path name && f.added && not f.removed) ≡ false
      → (same f.file_path name && not f.added) ≡ false
      → add_in disk name (f ∷ files) ≡ ((add_in disk name files).0, f ∷ (add_in disk name files).1)
  unfolding add_in
  add_in_away e e' = rw (e, e') refl

FoundIn-cons :
    (disk : Disk) (name : List ℕ) (f : SvcFile) (files : List SvcFile)
    → FoundIn disk name (files_after disk name files)
    → FoundIn disk name (files_after disk name (f ∷ files))
FoundIn-cons disk name f files h =
    elim (Bool-cases (same f.file_path name && f.added && not f.removed)) [
      | inl tracked ↦ let e = add_in_tracked disk name f files tracked in rw (e, files_after) e
      | inr other ↦ elim (Bool-cases (same f.file_path name && not f.added)) [
        | inl lost ↦
            let hit : same f.file_path name ≡ true =
              conjunct (same f.file_path name) (not f.added) lost in
            rw (add_in_lost disk name f files other lost, files_after)
              (add_in_tracked disk name _ files (rw hit refl))
        | inr away ↦
            let r = add_in disk name files in
            rw
              (
                add_in_away disk name f files other away,
                files_after,
                add_file_to_brnach-cons disk name f r.0 r.1,
                add_in_away disk name f (files_after disk name files) other away,
                h,
              )
              refl
      ]
    ]

files_after-FoundIn :
    (disk : Disk) (name : List ℕ) (files : List SvcFile)
    → FoundIn disk name (files_after disk name files)
unfolding add_in
files_after-FoundIn disk name [] = rw (same_self name) refl
files_after-FoundIn disk name (f ∷ files) =
    FoundIn-cons disk name f files (files_after-FoundIn disk name files)

-- Adding a file that exists returns, and adding it again gives -2 and changes no file of the branch.
pub svc_add-again :
    (s : BranchList) (name : List ℕ)
    → s.current_position < length s.branch_list
    → exists (s.disk name) ≡ true
    → Returns
        (λ r.
          Returns
            (λ r'. (r'.0 ≡ negsuc 1) × ((current r'.1).files ≡ (current r.1).files))
            (svc_add r.1 (some name)))
        (svc_add s (some name))
unfolding svc_add get_current_branch_ptr with_files
svc_add-again s name inside there =
    let b = current s in
    let b' : Branch = record b { files = files_after s.disk name b.files } in
    let branches = set s.branch_list s.current_position b' in
    let inside' : s.current_position < length branches =
      rw (length-set s.branch_list s.current_position b') inside in
    rw
      (
        load-lt s.branch_list s.current_position no_branch inside,
        there,
        store-lt s.branch_list s.current_position b' inside,
        load-lt branches s.current_position no_branch inside',
        there,
        current-set s.branch_list s.current_position b' inside,
        files_after-FoundIn s.disk name b.files,
      )
      (rw (store-lt branches s.current_position b' inside')
        (refl, ap (λ (x : Branch). x.files) (current-set branches s.current_position b' inside')))
