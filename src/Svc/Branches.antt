-- ===== src/Svc/Branches.antt =====
-- svc_branch, svc_checkout, svc_reset, and what gives back commits and branches.
use system_programming_and_d.Base.{
  ℕ, zero, suc, ◌+◌, ◌-◌, Bool, true, false, not, ◌&&◌, ◌||◌, List, [], ◌∷◌, ◌++◌, Option, none,
  some, leb, ◌==◌, if◌then◌else◌, Outcome, ok, fault, ◌>>=◌, load, store,
}
use system_programming_and_d.Svc.{
  ℤ, pos, negsuc, same_int, same, Disk, SvcFile, Commit, Branch, BranchList, hash_path,
}
use system_programming_and_d.Svc.Commits.{
  get_file_name, copy_file_content, path_in, get_current_branch_ptr,
}

-- The first `n` commits of the history are searched: the index of the one with the id.
unfoldable pub search_commits : List ℕ → ℕ → ℕ → List Commit → Outcome (Option ℕ)
unfolding same
search_commits id zero j cs = ok none
search_commits id (suc n) j [] = fault
search_commits id (suc n) j (c ∷ cs) =
    let rest = search_commits id n (j + 1) cs in if same c.commit_id id then ok (some j) else rest

unfoldable pub commit_at : List Commit → Option ℕ → Outcome (Option Commit)
unfolding load
commit_at cs none = ok none
commit_at cs (some j) = load cs j >>= λ c. ok (some c)

unfoldable pub get_commit : BranchList → Option (List ℕ) → Outcome (Option Commit)
unfolding get_current_branch_ptr search_commits commit_at
get_commit s none = ok none
get_commit s (some id) = do
  b ← get_current_branch_ptr s
  j ← search_commits id b.n_commit 0 b.commit_histroy
  commit_at b.commit_histroy j

-- The ids of the first `n` parents; there is no parent behind a NULL.
unfoldable pub read_parents : ℕ → List (List ℕ) → Outcome (List (List ℕ))
read_parents zero parents = ok []
read_parents (suc n) [] = fault
read_parents (suc n) (p ∷ parents) = read_parents n parents >>= λ ids. ok (p ∷ ids)

-- NULL is the empty list here; n_prev is its length.
unfoldable pub get_prev_commits : Option Commit → Outcome (List (List ℕ))
unfolding read_parents
get_prev_commits none = ok []
get_prev_commits (some c) = read_parents c.n_parent_commit c.parent_commit

abbrev pub isdigit : ℕ → Bool
isdigit c = leb 48 c && leb c 57

abbrev pub isalnum : ℕ → Bool
isalnum c = isdigit c || leb 65 c && leb c 90 || leb 97 c && leb c 122

-- 0 for the numbers 0 to 9, which the source compares with the character, and else -1.
abbrev pub check_valid_digit : ℕ → ℤ
check_valid_digit d = if leb d 9 then pos 0 else negsuc 0

-- The character after the last is NUL, and ends the loop.
unfoldable pub check_valid_branch_name : List ℕ → ℤ
check_valid_branch_name [] = pos 0
check_valid_branch_name (c ∷ name) =
    let rest = check_valid_branch_name name in
    if isdigit c
    then (if not (same_int (check_valid_digit c) (pos 0)) then rest else negsuc 0)
    else if isalnum c || c == 95 || c == 47 || c == 45
    then rest
    else negsuc 0

-- -1 if a file is staged
unfoldable pub check_uncommitted_changes : List SvcFile → ℤ
check_uncommitted_changes [] = pos 0
check_uncommitted_changes (f ∷ files) =
    let rest = check_uncommitted_changes files in if f.staged then negsuc 0 else rest

-- The index of the branch with the name, from `i` on.
unfoldable pub find_branch : List ℕ → ℕ → List Branch → Option ℕ
unfolding same
find_branch name i [] = none
find_branch name i (b ∷ branches) =
    let rest = find_branch name (i + 1) branches in if same b.branch_name name then some i else rest

abbrev pub is_some : Option ℕ → Bool
is_some none = false
is_some (some i) = true

-- The new branch has the files of the current one, and its last commit alone.
unfoldable pub create_new_branch : BranchList → List ℕ → Outcome BranchList
unfolding get_current_branch_ptr load
create_new_branch s name = do
  b ← get_current_branch_ptr s
  last ← (if b.n_commit == 0 then fault else load b.commit_histroy (b.n_commit - 1))
  let new : Branch = record {
    branch_name = name;
    files = b.files;
    commit_histroy = last ∷ [];
    n_commit = 1;
  }
  ok (record s { branch_list = s.branch_list ++ new ∷ [] })

abbrev pub is_negative : ℤ → Bool
is_negative (pos n) = false
is_negative (negsuc n) = true

unfoldable pub svc_branch : BranchList → Option (List ℕ) → Outcome (ℤ × BranchList)
unfolding check_valid_branch_name find_branch get_current_branch_ptr check_uncommitted_changes
    create_new_branch
svc_branch s none = ok (negsuc 0, s)
svc_branch s (some name) =
    let made = create_new_branch s name >>= λ s'. ok (pos 0, s') in
    let checked = get_current_branch_ptr s >>= λ b.
    if is_negative (check_uncommitted_changes b.files) then ok (negsuc 2, s) else made in
    if is_negative (check_valid_branch_name name)
    then ok (negsuc 0, s)
    else if is_some (find_branch name 0 s.branch_list)
    then ok (negsuc 1, s)
    else checked

-- A NULL directory name cannot be copied.
unfoldable pub source_path : Option (List ℕ) → List ℕ → Outcome (List ℕ)
unfolding get_file_name
source_path none path = fault
source_path (some dir) path = path_in dir (get_file_name path)

-- The content of the file is copied back where the hash has changed, and else the entry.
unfoldable pub restore_file :
    (List ℕ → Bool) → Option (List ℕ) → SvcFile → SvcFile × Disk → Outcome (SvcFile × Disk)
unfolding hash_path copy_file_content source_path
restore_file opens dir cf (file, disk) =
    let restored = source_path dir file.file_path >>= λ src.
    copy_file_content opens disk file.file_path src >>= λ disk'. ok (file, disk') in
    if same_int (hash_path disk file.file_path) cf.hash_code
    then ok (
      record file {
        added = cf.added;
        staged = cf.staged;
        removed = cf.removed;
        modified = cf.modified;
        hash_code = hash_path disk file.file_path;
      },
      disk,
    )
    else restored

-- The loop over one of the lists of a commit: whether the file was found.
unfoldable pub search_list :
    (List ℕ → Bool)
    → Option (List ℕ)
    → List SvcFile
    → Bool × SvcFile × Disk
    → Outcome (Bool × SvcFile × Disk)
unfolding same restore_file
search_list opens dir [] (found, file, disk) = ok (found, file, disk)
search_list opens dir (cf ∷ files) (found, file, disk) =
    let hit = restore_file opens dir cf (file, disk) >>= λ r.
    search_list opens dir files (true, r.0, r.1) in
    let miss = search_list opens dir files (found, file, disk) in
    if same cf.file_path file.file_path then hit else miss

unfoldable pub search_commit_tracked_files :
    (List ℕ → Bool) → Commit → SvcFile × Disk → Outcome (Bool × SvcFile × Disk)
unfolding search_list
search_commit_tracked_files opens c (file, disk) =
    search_list opens c.dir_name c.added_files (false, file, disk)
    >>= search_list opens c.dir_name c.modified_files
    >>= search_list opens c.dir_name c.tracked_files

abbrev pub untracked_unless : Bool → SvcFile → SvcFile
untracked_unless true file = file
untracked_unless false file = record file {
  added = false;
  staged = false;
  modified = false;
  removed = true;
}

-- The loop of undo_file_changes.
unfoldable pub undo_files :
    (List ℕ → Bool) → Commit → List SvcFile → Disk → Outcome (List SvcFile × Disk)
unfolding search_commit_tracked_files hash_path
undo_files opens c [] disk = ok ([], disk)
undo_files opens c (file ∷ files) disk = do
  (found, file', disk') ← search_commit_tracked_files opens c (file, disk)
  (files', disk'') ← undo_files opens c files disk'
  ok (
    untracked_unless found (record file' { hash_code = hash_path disk' file'.file_path }) ∷ files',
    disk'',
  )

unfoldable pub undo_file_changes : (List ℕ → Bool) → BranchList → Commit → Outcome BranchList
unfolding get_current_branch_ptr undo_files store
undo_file_changes opens s c = do
  b ← get_current_branch_ptr s
  (files, disk) ← undo_files opens c b.files s.disk
  branches ← store s.branch_list s.current_position (record b { files = files })
  ok (record s { branch_list = branches; disk = disk })

-- The branch gets a number of commits.
unfoldable pub set_n_commit : ℕ → ℕ → List Branch → Outcome (List Branch)
unfolding load store
set_n_commit i n branches = load branches i >>= λ b. store branches i (record b { n_commit = n })

-- clean_commit_history shortens the branch where the commit was found and the current branch.
unfoldable pub clean_commit_history : BranchList → ℕ → ℕ → Outcome BranchList
unfolding set_n_commit
clean_commit_history s i j = do
  found ← set_n_commit i (j + 1) s.branch_list
  branches ← set_n_commit s.current_position (j + 1) found
  ok (record s { branch_list = branches })

-- The branch and the place of the commit with the id.
unfoldable pub search_branches : List ℕ → ℕ → List Branch → Outcome (Option (ℕ × ℕ))
unfolding search_commits
search_branches id i [] = ok none
search_branches id i (b ∷ branches) = search_commits id b.n_commit 0 b.commit_histroy >>= λ r.
    elim r [ none ↦ search_branches id (i + 1) branches | some j ↦ ok (some (i, j)) ]

unfoldable pub reset_to : (List ℕ → Bool) → BranchList → Option (ℕ × ℕ) → Outcome (ℤ × BranchList)
unfolding load undo_file_changes clean_commit_history
reset_to opens s none = ok (negsuc 1, s)
reset_to opens s (some (i, j)) = do
  b ← load s.branch_list i
  c ← load b.commit_histroy j
  s' ← undo_file_changes opens s c
  s'' ← clean_commit_history s' i j
  ok (pos 0, s'')

unfoldable pub svc_reset : (List ℕ → Bool) → BranchList → Option (List ℕ) → Outcome (ℤ × BranchList)
unfolding search_branches reset_to
svc_reset opens s none = ok (negsuc 0, s)
svc_reset opens s (some id) = search_branches id 0 s.branch_list >>= reset_to opens s

-- The branch at `i` becomes the active one, and the files those of its last commit.
unfoldable pub activate : (List ℕ → Bool) → BranchList → ℕ → Outcome (ℤ × BranchList)
unfolding load undo_file_changes
activate opens s i = do
  b ← load s.branch_list i
  last ← (if b.n_commit == 0 then fault else load b.commit_histroy (b.n_commit - 1))
  s' ← undo_file_changes opens (record s { current_position = i }) last
  ok (pos 0, s')

unfoldable pub checkout_to : (List ℕ → Bool) → BranchList → Option ℕ → Outcome (ℤ × BranchList)
unfolding get_current_branch_ptr check_uncommitted_changes activate
checkout_to opens s none = ok (negsuc 0, s)
checkout_to opens s (some i) =
    let made = activate opens s i in
    get_current_branch_ptr s >>= λ b.
    if is_negative (check_uncommitted_changes b.files) then ok (negsuc 1, s) else made

unfoldable pub svc_checkout :
    (List ℕ → Bool) → BranchList → Option (List ℕ) → Outcome (ℤ × BranchList)
unfolding find_branch checkout_to
svc_checkout opens s none = ok (negsuc 0, s)
svc_checkout opens s (some name) = checkout_to opens s (find_branch name 0 s.branch_list)

unfoldable pub list_branches : List Branch → List (List ℕ)
list_branches [] = []
list_branches (b ∷ branches) = b.branch_name ∷ list_branches branches
