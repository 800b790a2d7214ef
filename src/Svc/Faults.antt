-- ===== src/Svc/Faults.antt =====
-- get_prev_commits on a first commit that only removes a file.
use system_programming_and_d.Base.{
  ℕ, true, false, ◌≡◌, ◌≢◌, refl, List, [], ◌∷◌, Option, none, some, Outcome, fault, ◌>>=◌, Returns,
}
use system_programming_and_d.Svc.{
  hash_path, hash_opened, commit_number, SvcFile, Disk, Commit, BranchList, svc_init,
}
use system_programming_and_d.Svc.Commits.{empty_commit, svc_add, svc_rm, svc_commit}
use system_programming_and_d.Svc.Branches.{get_commit, get_prev_commits}
use system_programming_and_d.Svc.Tracks.{same_self}

-- A file is added and removed, and that is committed.
abbrev pub commit_removal :
    (ℕ → List ℕ) → Option (List ℕ) → Disk → List ℕ → List ℕ → Outcome (Option (List ℕ) × BranchList)
unfolding svc_add svc_rm svc_commit
commit_removal hex dir disk name message = do
  (hash, s) ← svc_add (svc_init disk) (some name)
  (last_hash, s') ← svc_rm s (some name)
  svc_commit hex dir s' (some message)

-- The file after svc_rm.
abbrev removed_file : List ℕ → List ℕ → SvcFile
unfolding hash_path
removed_file name content = record {
  hash_code = hash_opened name (some content);
  file_path = name;
  added = false;
  staged = false;
  removed = true;
  modified = false;
}

-- The commit that takes it away.
abbrev removal_commit : List ℕ → List ℕ → Commit
unfolding removed_file
removal_commit name content = record empty_commit {
  removed_files = record (removed_file name content) { removed = false } ∷ [];
  n_parent_commit = 1;
}

not_none : {c : Commit} → some c ≢ none
not_none e = cc

-- In a new system, adding a file that exists, removing it and committing gives a commit that
-- get_commit finds, and get_prev_commits reads a parent of it through NULL.
pub get_prev_commits-fault :
    (hex : ℕ → List ℕ) (dir : Option (List ℕ)) (disk : Disk) (name message content : List ℕ)
    → disk name ≡ some content
    → Returns
        (λ r. Returns (λ c. (c ≢ none) × (get_prev_commits c ≡ fault)) (get_commit r.1 r.0))
        (commit_removal hex dir disk name message)
unfolding removal_commit commit_removal get_commit get_prev_commits
get_prev_commits-fault hex none disk name message content e =
    rw
      (
        e,
        same_self name,
        e,
        e,
        e,
        same_self (hex (commit_number message (removal_commit name content))),
      )
      (not_none, refl)
get_prev_commits-fault hex (some d) disk name message content e =
    rw
      (
        e,
        same_self name,
        e,
        e,
        e,
        same_self (hex (commit_number message (removal_commit name content))),
      )
      (not_none, refl)
