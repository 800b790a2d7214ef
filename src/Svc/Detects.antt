-- ===== src/Svc/Detects.antt =====
-- dectected_changes_in_f: what it lists to be copied, and a second look at the files.
use system_programming_and_d.Base.{
  ℕ, ◌≡◌, refl, sym, ap, inl, inr, Bool, true, false, Bool-cases, List, [], ◌∷◌, All, All-append,
  none, some, Option-cases, arith,
}
use system_programming_and_d.Svc.{
  ℤ, pos, negsuc, same_int, Disk, SvcFile, Commit, hash_path, hash_opened, exists,
}
use system_programming_and_d.Svc.Commits.{detect_file, dectected_changes_in_f}

same_int_self : (z : ℤ) → same_int z z ≡ true
same_int_self (pos n) = ground arith
same_int_self (negsuc n) = ground arith

pub same_int-eq : (a b : ℤ) → same_int a b ≡ true → a ≡ b
same_int-eq (pos m) (pos n) h = ap pos (ground arith)
same_int-eq (pos m) (negsuc n) h = absurd (cc)
same_int-eq (negsuc m) (pos n) h = absurd (cc)
same_int-eq (negsuc m) (negsuc n) h = ap negsuc (ground arith)

abbrev pub file_with : ℤ → List ℕ → Bool → Bool → Bool → Bool → SvcFile
file_with h p a st rm md = record {
  hash_code = h;
  file_path = p;
  added = a;
  staged = st;
  removed = rm;
  modified = md;
}

module _ (disk disk' : Disk) (h : ℤ) (p : List ℕ) (md : Bool) (c c' : Commit)
    (same_file : disk' p ≡ disk p) where
  missing_again :
      (a st rm : Bool)
      → disk p ≡ none
      → (detect_file disk' (detect_file disk (file_with h p a st rm md) c).0 c').2 ≡ false
  unfolding detect_file
  missing_again true true rm e = rw (e, same_file, e) refl
  missing_again true false rm e = rw (e, same_file, e) refl
  missing_again false true rm e = rw (e, same_file, e) refl
  missing_again false false rm e = rw (e, same_file, e) refl

  present_again :
      (a st rm : Bool) (content : List ℕ)
      → disk p ≡ some content
      → (detect_file disk' (detect_file disk (file_with h p a st rm md) c).0 c').2 ≡ false
  unfolding detect_file hash_path
  present_again true true true content e = rw (e, same_file, e) refl
  present_again true true false content e =
      rw (e, same_file, e, same_int_self (hash_opened p (some content))) refl
  present_again true false true content e = rw (e, same_file, e) refl
  present_again true false false content e =
      elim (Bool-cases (same_int (hash_opened p (some content)) h)) [
        | inl same ↦ rw (e, same, same_file, e, same) refl
        | inr other ↦ rw (e, other, same_file, e, same_int_self (hash_opened p (some content))) refl
      ]
  present_again false true true content e = rw (e, same_file, e) refl
  present_again false true false content e = rw (e, same_file, e) refl
  present_again false false true content e = rw (e, same_file, e) refl
  present_again false false false content e = rw (e, same_file, e) refl

-- The file is there, its path is as wanted, and the entry has its hash.
abbrev pub IsThere : Disk → (List ℕ → Type 0) → SvcFile → Type 0
IsThere disk Q f =
    (exists (disk f.file_path) ≡ true) × Q f.file_path × (f.hash_code ≡ hash_path disk f.file_path)

-- The files that a commit copies.
pub record ListsThere (disk : Disk) (Q : List ℕ → Type 0) (c : Commit) : Type 0 where
  pub tracked : All (IsThere disk Q) c.tracked_files
  pub added : All (IsThere disk Q) c.added_files
  pub modified : All (IsThere disk Q) c.modified_files

-- A round keeps the path, and lists for copying what exists.
abbrev RoundThere : Disk → (List ℕ → Type 0) → List ℕ → SvcFile × Commit × Bool → Type 0
RoundThere disk Q p r = (r.0.file_path ≡ p) × ListsThere disk Q r.1

module _ (disk : Disk) (Q : List ℕ → Type 0) (h : ℤ) (p : List ℕ) (md : Bool) (c : Commit)
    (lists : ListsThere disk Q c) where
  missing-RoundThere :
      (a st rm : Bool)
      → disk p ≡ none
      → RoundThere disk Q p (detect_file disk (file_with h p a st rm md) c)
  unfolding detect_file
  missing-RoundThere true true rm e =
      rw e
        (refl, record { tracked = lists.tracked; added = lists.added; modified = lists.modified })
  missing-RoundThere true false rm e =
      rw e
        (refl, record { tracked = lists.tracked; added = lists.added; modified = lists.modified })
  missing-RoundThere false true rm e =
      rw e
        (refl, record { tracked = lists.tracked; added = lists.added; modified = lists.modified })
  missing-RoundThere false false rm e =
      rw e
        (refl, record { tracked = lists.tracked; added = lists.added; modified = lists.modified })

  present-RoundThere :
      (a st rm : Bool) (content : List ℕ)
      → Q p
      → disk p ≡ some content
      → RoundThere disk Q p (detect_file disk (file_with h p a st rm md) c)
  unfolding detect_file
  present-RoundThere true true rm content q e =
      let here : exists (disk p) ≡ true = ap exists e in
      rw e (
        refl,
        record {
          tracked = lists.tracked;
          added =
              All-append (IsThere disk Q) c.added_files (_ ∷ []) lists.added ((here, q, refl), tt);
          modified = lists.modified;
        },
      )
  present-RoundThere true false true content q e =
      rw e
        (refl, record { tracked = lists.tracked; added = lists.added; modified = lists.modified })
  present-RoundThere true false false content q e =
      let here : exists (disk p) ≡ true = ap exists e in
      rw e (elim (Bool-cases (same_int (hash_path disk p) h)) [
        | inl same ↦ rw same (
          refl,
          record {
            tracked =
                All-append (IsThere disk Q) c.tracked_files (_ ∷ []) lists.tracked
                  ((here, q, sym (same_int-eq (hash_path disk p) h same)), tt);
            added = lists.added;
            modified = lists.modified;
          },
        )
        | inr other ↦ rw other (
          refl,
          record {
            tracked = lists.tracked;
            added = lists.added;
            modified =
                All-append (IsThere disk Q) c.modified_files (_ ∷ []) lists.modified
                  ((here, q, refl), tt);
          },
        )
      ])
  present-RoundThere false st true content q e =
      rw e
        (refl, record { tracked = lists.tracked; added = lists.added; modified = lists.modified })
  present-RoundThere false st false content q e = rw e (refl, lists)

detect_file-again :
    (disk disk' : Disk) (f : SvcFile) (c c' : Commit)
    → disk' f.file_path ≡ disk f.file_path
    → (detect_file disk' (detect_file disk f c).0 c').2 ≡ false
detect_file-again disk disk' f c c' agree = elim (Option-cases (disk f.file_path)) [
  | inl e ↦
      missing_again disk disk' f.hash_code f.file_path f.modified c c' agree f.added f.staged
        f.removed e
  | inr (content, e) ↦
      present_again disk disk' f.hash_code f.file_path f.modified c c' agree f.added f.staged
        f.removed content e
]

detect_file-RoundThere :
    (disk : Disk) (Q : List ℕ → Type 0) (f : SvcFile) (c : Commit)
    → ListsThere disk Q c
    → Q f.file_path
    → RoundThere disk Q f.file_path (detect_file disk f c)
detect_file-RoundThere disk Q f c lists q = elim (Option-cases (disk f.file_path)) [
  | inl e ↦
      missing-RoundThere disk Q f.hash_code f.file_path f.modified c lists f.added f.staged
        f.removed e
  | inr (content, e) ↦
      present-RoundThere disk Q f.hash_code f.file_path f.modified c lists f.added f.staged
        f.removed content q e
]

-- Once its changes are in a commit, a list of files has none, whatever commit is begun, while the
-- files on disk stay as they are.
pub dectected_changes_in_f-again :
    (disk disk' : Disk) (files : List SvcFile) (c c' : Commit)
    → All (λ f. disk' f.file_path ≡ disk f.file_path) files
    → (dectected_changes_in_f disk' (dectected_changes_in_f disk files c).0 c').2 ≡ false
unfolding dectected_changes_in_f
dectected_changes_in_f-again disk disk' [] c c' agree = refl
dectected_changes_in_f-again disk disk' (f ∷ files) c c' agree =
    rw
      (
        detect_file-again disk disk' f c c' agree.0,
        dectected_changes_in_f-again disk disk' files (detect_file disk f c).1
            (detect_file disk' (detect_file disk f c).0 c').1 agree.1,
      )
      refl

-- What a commit lists to be copied exists.
pub dectected_changes_in_f-ListsThere :
    (disk : Disk) (Q : List ℕ → Type 0) (files : List SvcFile) (c : Commit)
    → ListsThere disk Q c
    → All (λ f. Q f.file_path) files
    → ListsThere disk Q (dectected_changes_in_f disk files c).1
unfolding dectected_changes_in_f
dectected_changes_in_f-ListsThere disk Q [] c lists q = lists
dectected_changes_in_f-ListsThere disk Q (f ∷ files) c lists q =
    dectected_changes_in_f-ListsThere disk Q files (detect_file disk f c).1
      (detect_file-RoundThere disk Q f c lists q.0).1 q.1
