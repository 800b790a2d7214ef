-- ===== src/Svc/Lists.antt =====
-- dectected_changes_in_f against a description of which file goes into which list of the commit.
use mathlib.Core.List.{append_assoc, append-nil}
use system_programming_and_d.Base.{
  ℕ, ◌≡◌, refl, sym, ◌∙◌, inl, inr, Bool, true, false, not, ◌&&◌, ◌||◌, Bool-cases, List, [], ◌∷◌,
  ◌++◌, none, some, Option-cases, if◌then◌else◌,
}
use system_programming_and_d.Svc.{ℤ, same_int, Disk, SvcFile, Commit, hash_path, exists}
use system_programming_and_d.Svc.Commits.{detect_file, dectected_changes_in_f}
use system_programming_and_d.Svc.Detects.{file_with}

abbrev there : Disk → SvcFile → Bool
there disk f = exists (disk f.file_path)

-- A file that was added since the last commit.
abbrev pub is_new : Disk → SvcFile → Bool
is_new disk f = there disk f && f.added && f.staged

-- A tracked file of the last commit.
abbrev is_old : Disk → SvcFile → Bool
is_old disk f = there disk f && f.added && not f.staged && not f.removed

abbrev pub is_unchanged : Disk → SvcFile → Bool
is_unchanged disk f = is_old disk f && same_int (hash_path disk f.file_path) f.hash_code

abbrev pub is_changed : Disk → SvcFile → Bool
is_changed disk f = is_old disk f && not (same_int (hash_path disk f.file_path) f.hash_code)

-- A file of the last commit that is gone, or that svc_rm took away.
abbrev pub is_gone : Disk → SvcFile → Bool
is_gone disk f =
    not (there disk f) && f.added && not f.staged || there disk f && not f.added && f.removed

abbrev rehashed : Disk → SvcFile → SvcFile
rehashed disk f = record f { hash_code = hash_path disk f.file_path }

abbrev pub unstaged : Disk → SvcFile → SvcFile
unstaged disk f = record f { hash_code = hash_path disk f.file_path; staged = false }

abbrev pub untracked : Disk → SvcFile → SvcFile
untracked disk f = record f {
  hash_code = hash_path disk f.file_path;
  added = false;
  staged = false;
  removed = false;
  modified = false;
}

-- The files that pass a test, as they are listed.
abbrev pub select : (SvcFile → Bool) → (SvcFile → SvcFile) → List SvcFile → List SvcFile
select test as_listed [] = []
select test as_listed (f ∷ files) =
    let rest = select test as_listed files in if test f then as_listed f ∷ rest else rest

abbrev pub any_file : (SvcFile → Bool) → List SvcFile → Bool
any_file test [] = false
any_file test (f ∷ files) = test f || any_file test files

abbrev pub has_change : Disk → SvcFile → Bool
has_change disk f = is_new disk f || is_changed disk f || is_gone disk f

-- The lists of the commit get the files that belong there, in order, and a change is found exactly
-- if there is one.
pub record Listed (disk : Disk) (files : List SvcFile) (c : Commit) (r : Commit × Bool)
    : Type 0 where
  pub added : r.0.added_files ≡ c.added_files ++ select (is_new disk) (unstaged disk) files
  pub removed : r.0.removed_files ≡ c.removed_files ++ select (is_gone disk) (untracked disk) files
  pub modified :
      r.0.modified_files ≡ c.modified_files ++ select (is_changed disk) (rehashed disk) files
  pub tracked : r.0.tracked_files ≡ c.tracked_files ++ select (is_unchanged disk) (λ f. f) files
  pub found : r.1 ≡ any_file (has_change disk) files

-- The same of one file, before a rest.
record ListedFile (disk : Disk) (f : SvcFile) (new gone changed unchanged : Bool) (c : Commit)
    (r : Commit × Bool) : Type 0 where
  pub added :
      (rest : List SvcFile)
      → r.0.added_files ++ rest ≡ c.added_files ++ (if new then unstaged disk f ∷ rest else rest)
  pub removed :
      (rest : List SvcFile)
      → r.0.removed_files ++ rest
        ≡ c.removed_files ++ (if gone then untracked disk f ∷ rest else rest)
  pub modified :
      (rest : List SvcFile)
      → r.0.modified_files ++ rest
        ≡ c.modified_files ++ (if changed then rehashed disk f ∷ rest else rest)
  pub tracked :
      (rest : List SvcFile)
      → r.0.tracked_files ++ rest ≡ c.tracked_files ++ (if unchanged then f ∷ rest else rest)
  pub found : r.1 ≡ (new || changed || gone)

abbrev ListedRound : Disk → SvcFile → Commit → Commit × Bool → Type 0
ListedRound disk f c r =
    ListedFile disk f (is_new disk f) (is_gone disk f) (is_changed disk f) (is_unchanged disk f) c r

module _ (disk : Disk) (h : ℤ) (p : List ℕ) (md : Bool) (c : Commit) where
  abbrev round_of : Bool → Bool → Bool → Commit × Bool
  unfolding detect_file
  round_of a st rm = (
    (detect_file disk (file_with h p a st rm md) c).1,
    (detect_file disk (file_with h p a st rm md) c).2,
  )

  missing-ListedFile :
      (a st rm : Bool)
      → disk p ≡ none
      → ListedRound disk (file_with h p a st rm md) c (round_of a st rm)
  unfolding detect_file round_of
  missing-ListedFile true false rm e = rw e (record {
    added = λ rest. refl;
    removed = λ rest. append_assoc c.removed_files (_ ∷ []) rest;
    modified = λ rest. refl;
    tracked = λ rest. refl;
    found = refl;
  })
  missing-ListedFile true true rm e = rw e (record {
    added = λ rest. refl;
    removed = λ rest. refl;
    modified = λ rest. refl;
    tracked = λ rest. refl;
    found = refl;
  })
  missing-ListedFile false true rm e = rw e (record {
    added = λ rest. refl;
    removed = λ rest. refl;
    modified = λ rest. refl;
    tracked = λ rest. refl;
    found = refl;
  })
  missing-ListedFile false false rm e = rw e (record {
    added = λ rest. refl;
    removed = λ rest. refl;
    modified = λ rest. refl;
    tracked = λ rest. refl;
    found = refl;
  })

  present-ListedFile :
      (a st rm : Bool) (content : List ℕ)
      → disk p ≡ some content
      → ListedRound disk (file_with h p a st rm md) c (round_of a st rm)
  unfolding detect_file round_of
  present-ListedFile true true rm content e = rw e (record {
    added = λ rest. append_assoc c.added_files (_ ∷ []) rest;
    removed = λ rest. refl;
    modified = λ rest. refl;
    tracked = λ rest. refl;
    found = refl;
  })
  present-ListedFile true false true content e = rw e (record {
    added = λ rest. refl;
    removed = λ rest. refl;
    modified = λ rest. refl;
    tracked = λ rest. refl;
    found = refl;
  })
  present-ListedFile true false false content e =
      elim (Bool-cases (same_int (hash_path disk p) h)) [
        | inl same ↦
            rw (e, same)
              (record {
                added = λ rest. refl;
                removed = λ rest. refl;
                modified = λ rest. refl;
                tracked = λ rest. append_assoc c.tracked_files (_ ∷ []) rest;
                found = refl;
              })
        | inr other ↦
            rw (e, other)
              (record {
                added = λ rest. refl;
                removed = λ rest. refl;
                modified = λ rest. append_assoc c.modified_files (_ ∷ []) rest;
                tracked = λ rest. refl;
                found = refl;
              })
      ]
  present-ListedFile false st true content e = rw e (record {
    added = λ rest. refl;
    removed = λ rest. append_assoc c.removed_files (_ ∷ []) rest;
    modified = λ rest. refl;
    tracked = λ rest. refl;
    found = refl;
  })
  present-ListedFile false st false content e = rw e (record {
    added = λ rest. refl;
    removed = λ rest. refl;
    modified = λ rest. refl;
    tracked = λ rest. refl;
    found = refl;
  })

detect_file-ListedFile :
    (disk : Disk) (f : SvcFile) (c : Commit)
    → ListedRound disk f c ((detect_file disk f c).1, (detect_file disk f c).2)
unfolding round_of
detect_file-ListedFile disk f c = elim (Option-cases (disk f.file_path)) [
  | inl e ↦
      missing-ListedFile disk f.hash_code f.file_path f.modified c f.added f.staged f.removed e
  | inr (content, e) ↦
      present-ListedFile disk f.hash_code f.file_path f.modified c f.added f.staged f.removed
        content e
]

-- dectected_changes_in_f lists the new files, the gone files, the changed files and the unchanged
-- ones, each in the list of its kind and in their order, and finds a change exactly if there is one.
pub dectected_changes_in_f-Listed :
    (disk : Disk) (files : List SvcFile) (c : Commit)
    → Listed disk files c
        ((dectected_changes_in_f disk files c).1, (dectected_changes_in_f disk files c).2)
unfolding dectected_changes_in_f
dectected_changes_in_f-Listed disk [] c = record {
  added = sym (append-nil c.added_files);
  removed = sym (append-nil c.removed_files);
  modified = sym (append-nil c.modified_files);
  tracked = sym (append-nil c.tracked_files);
  found = refl;
}
dectected_changes_in_f-Listed disk (f ∷ files) c =
    let one = detect_file-ListedFile disk f c in
    let rest = dectected_changes_in_f-Listed disk files (detect_file disk f c).1 in
    record {
      added = rest.added ∙ one.added (select (is_new disk) (unstaged disk) files);
      removed = rest.removed ∙ one.removed (select (is_gone disk) (untracked disk) files);
      modified = rest.modified ∙ one.modified (select (is_changed disk) (rehashed disk) files);
      tracked = rest.tracked ∙ one.tracked (select (is_unchanged disk) (λ x. x) files);
      found = rw (one.found, rest.found) refl;
    }
