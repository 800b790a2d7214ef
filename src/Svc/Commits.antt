-- ===== src/Svc/Commits.antt =====
-- svc_commit, svc_add and svc_rm, and the copies of the tracked files that a commit keeps.
use system_programming_and_d.Base.{
  ℕ, zero, suc, ◌+◌, ◌-◌, Bool, true, false, not, ◌&&◌, ◌||◌, List, [], ◌∷◌, ◌++◌, Option, none,
  some, leb, ◌==◌, if◌then◌else◌, Outcome, ok, exits, fault, ◌>>=◌, load, store,
}
use system_programming_and_d.Svc.{
  ℤ, negsuc, same_int, same, Disk, write_file, SvcFile, Commit, Branch, BranchList, hash_path,
  exists, commit_number,
}

-- The file is gone, by hand or by svc_rm: it is no more tracked, and the commit lists it. The
-- parent is set to NULL in every case.
unfoldable pub add_removed_file_to_commit : Disk → SvcFile → Commit → SvcFile × Commit
add_removed_file_to_commit disk file c =
    let file' : SvcFile = record file {
      removed = false;
      added = false;
      staged = false;
      modified = false;
      hash_code = hash_path disk file.file_path;
    } in
    (
      file',
      record c {
        removed_files = c.removed_files ++ file' ∷ [];
        n_parent_commit = 1;
        parent_commit = [];
      },
    )

unfoldable pub update_modified_files : Disk → SvcFile → Commit → SvcFile × Commit × Bool
update_modified_files disk file c =
    let hash2 = hash_path disk file.file_path in
    let file' : SvcFile = record file { hash_code = hash2 } in
    if same_int hash2 file.hash_code
    then (file, record c { tracked_files = c.tracked_files ++ file ∷ [] }, false)
    else (
      file',
      record c {
        modified_files = c.modified_files ++ file' ∷ [];
        modified_old_hash = c.modified_old_hash ++ file.hash_code ∷ [];
      },
      true,
    )

abbrev pub then_valid : SvcFile × Commit → SvcFile × Commit × Bool
then_valid (file, c) = (file, c, true)

-- check_manually_removed_file for a file that cannot be opened
unfoldable pub remove_missing : Disk → SvcFile → Commit → SvcFile × Commit × Bool
unfolding add_removed_file_to_commit
remove_missing disk file c =
    if not file.staged && file.added
    then then_valid (add_removed_file_to_commit disk file c)
    else (record file { staged = false; added = false; removed = false }, c, false)

-- A round of dectected_changes_in_f: the file, the commit, and whether a change was found.
unfoldable pub detect_file : Disk → SvcFile → Commit → SvcFile × Commit × Bool
unfolding remove_missing update_modified_files add_removed_file_to_commit
detect_file disk file c =
    let new_file : SvcFile = record file {
      hash_code = hash_path disk file.file_path;
      staged = false;
    } in
    if not (exists (disk file.file_path))
    then remove_missing disk file c
    else if file.added && file.staged
    then (new_file, record c { added_files = c.added_files ++ new_file ∷ [] }, true)
    else if file.added && not file.staged && not file.removed
    then update_modified_files disk file c
    else if not file.added && file.removed
    then then_valid (add_removed_file_to_commit disk file c)
    else (file, c, false)

unfoldable pub dectected_changes_in_f : Disk → List SvcFile → Commit → List SvcFile × Commit × Bool
unfolding detect_file
dectected_changes_in_f disk [] c = ([], c, false)
dectected_changes_in_f disk (file ∷ files) c =
    let r = detect_file disk file c in
    let rest = dectected_changes_in_f disk files r.1 in (r.0 ∷ rest.0, rest.1, r.2 || rest.2)

-- The last token between slashes, NULL if there is none.
unfoldable pub last_token : List ℕ → Option (List ℕ) → List ℕ → Option (List ℕ)
last_token [] last [] = last
last_token (t ∷ token) last [] = some (t ∷ token)
last_token [] last (c ∷ path) =
    if c == 47 then last_token [] last path else last_token (c ∷ []) last path
last_token (t ∷ token) last (c ∷ path) =
    if c == 47
    then last_token [] (some (t ∷ token)) path
    else last_token (t ∷ token ++ c ∷ []) last path

unfoldable pub get_file_name : List ℕ → Option (List ℕ)
unfolding last_token
get_file_name path = last_token [] none path

-- `fgetc` into a char: the byte 255 is taken for the end of the file.
unfoldable pub until_end : List ℕ → List ℕ
until_end [] = []
until_end (b ∷ content) = let rest = until_end content in if b == 255 then [] else b ∷ rest

unfoldable pub copied_from : Disk → List ℕ → Option (List ℕ) → Disk
unfolding until_end write_file
copied_from disk dest none = disk
copied_from disk dest (some content) = write_file disk dest (until_end content)

-- Whether `fopen` for writing opens a path is `opens`: it does not where the directory is gone. The
-- target is opened, and emptied, before the source is read.
unfoldable pub copy_file_content : (List ℕ → Bool) → Disk → List ℕ → List ℕ → Outcome Disk
unfolding copied_from write_file
copy_file_content opens disk dest src =
    let opened = write_file disk dest [] in
    if exists (disk src)
    then if opens dest then ok (copied_from opened dest (opened src)) else exits 1
    else exits 1

-- `dir/name`; a NULL name cannot be appended.
abbrev pub path_in : List ℕ → Option (List ℕ) → Outcome (List ℕ)
path_in dir none = fault
path_in dir (some name) = ok (dir ++ 47 ∷ name)

-- A path in the directory that `mkdtemp` has made for the commit opens for writing.
abbrev pub in_temp_dir : List ℕ → Bool
in_temp_dir path = true

unfoldable pub copy_file : Disk → List ℕ → List ℕ → Outcome Disk
unfolding get_file_name copy_file_content
copy_file disk dir src =
    path_in dir (get_file_name src) >>= λ dest. copy_file_content in_temp_dir disk dest src

unfoldable pub copy_files : List ℕ → List SvcFile → Disk → Outcome Disk
unfolding copy_file
copy_files dir [] disk = ok disk
copy_files dir (f ∷ files) disk = copy_file disk dir f.file_path >>= copy_files dir files

unfoldable pub store_tracked_f : Disk → List ℕ → Commit → Outcome Disk
unfolding copy_files
store_tracked_f disk dir c =
    copy_files dir c.tracked_files disk
    >>= copy_files dir c.added_files
    >>= copy_files dir c.modified_files

-- The directory is mkdtemp's, `none` if it fails.
unfoldable pub store_in_temp_dir : Option (List ℕ) → Disk → Commit → Outcome (Commit × Disk)
unfolding store_tracked_f
store_in_temp_dir none disk c = ok (c, disk)
store_in_temp_dir (some dir) disk c =
    store_tracked_f disk dir c >>= λ disk'. ok (record c { dir_name = some dir }, disk')

-- The commit is written behind the first `n`, as after realloc.
unfoldable pub append_at : ℕ → List Commit → Commit → Outcome (List Commit)
append_at zero cs c = ok (c ∷ [])
append_at (suc n) [] c = fault
append_at (suc n) (d ∷ cs) c = append_at n cs c >>= λ r. ok (d ∷ r)

-- The last commit of the branch becomes the parent, if there is one.
unfoldable pub with_parent : Branch → Commit → Outcome Commit
unfolding load
with_parent b c =
    if leb 1 b.n_commit
    then (load b.commit_histroy (b.n_commit - 1) >>= λ p.
        ok (record c { n_parent_commit = 1; parent_commit = p.commit_id ∷ [] }))
    else ok c

unfoldable pub add_parent : BranchList → Branch → Commit → Outcome BranchList
unfolding with_parent append_at store
add_parent s b c = do
  c' ← with_parent b c
  history ← append_at b.n_commit b.commit_histroy c'
  branches ←
      store s.branch_list s.current_position
        (record b { commit_histroy = history; n_commit = b.n_commit + 1 })
  ok (record s { branch_list = branches; commit_list = s.commit_list ++ c' ∷ [] })

abbrev pub empty_commit : Commit
empty_commit = record {
  commit_id = [];
  message = [];
  added_files = [];
  removed_files = [];
  modified_files = [];
  modified_old_hash = [];
  tracked_files = [];
  dir_name = none;
  parent_commit = [];
  n_parent_commit = 0;
}

unfoldable pub get_current_branch_ptr : BranchList → Outcome Branch
unfolding load
get_current_branch_ptr s = load s.branch_list s.current_position

-- A commit with changes: `hex` is sprintf's "%06x", and `dir` what mkdtemp returns.
unfoldable pub finish_commit :
    (ℕ → List ℕ)
    → Option (List ℕ)
    → BranchList
    → Branch
    → List ℕ
    → Commit
    → Outcome (Option (List ℕ) × BranchList)
unfolding commit_number store_in_temp_dir add_parent
finish_commit hex dir s b message c = do
  let id = hex (commit_number message c)
  (c', disk) ← store_in_temp_dir dir s.disk (record c { message = message; commit_id = id })
  s' ← add_parent (record s { disk = disk }) b c'
  ok (some id, s')

abbrev pub is_nil : List SvcFile → Bool
is_nil [] = true
is_nil (f ∷ files) = false

unfoldable pub commit_or_stop :
    (ℕ → List ℕ)
    → Option (List ℕ)
    → BranchList
    → Branch
    → List ℕ
    → List SvcFile × Commit × Bool
    → Outcome (Option (List ℕ) × BranchList)
unfolding finish_commit store
commit_or_stop hex dir s b message (files, c, false) = do
  branches ← store s.branch_list s.current_position (record b { files = files })
  ok (none, record s { branch_list = branches })
commit_or_stop hex dir s b message (files, c, true) =
    finish_commit hex dir s (record b { files = files }) message c

unfoldable pub svc_commit :
    (ℕ → List ℕ)
    → Option (List ℕ)
    → BranchList
    → Option (List ℕ)
    → Outcome (Option (List ℕ) × BranchList)
unfolding get_current_branch_ptr dectected_changes_in_f commit_or_stop
svc_commit hex dir s none = ok (none, s)
svc_commit hex dir s (some message) = do
  b ← get_current_branch_ptr s
  let made = commit_or_stop hex dir s b message (dectected_changes_in_f s.disk b.files empty_commit)
  (if is_nil b.files then ok (none, s) else made)

-- The loop of svc_add: the result where the file is in the list, and the files.
unfoldable pub add_in : Disk → List ℕ → List SvcFile → Option ℤ × List SvcFile
unfolding same hash_path
add_in disk name [] = (none, [])
add_in disk name (f ∷ files) =
    let hash = hash_path disk name in
    let rest = add_in disk name files in
    if same f.file_path name && f.added && not f.removed
    then (some (negsuc 1), f ∷ files)
    else if same f.file_path name && not f.added
    then (
      some hash,
      (record f {
        hash_code = hash;
        added = true;
        staged = true;
        removed = false;
        modified = false;
      })
          ∷ files,
    )
    else (rest.0, f ∷ rest.1)

abbrev pub new_file_of : Disk → List ℕ → SvcFile
new_file_of disk name = record {
  hash_code = hash_path disk name;
  file_path = name;
  added = true;
  staged = true;
  removed = false;
  modified = false;
}

-- add_file_to_brnach where the loop has not found the file
abbrev pub add_file_to_brnach : Disk → List ℕ → Option ℤ × List SvcFile → ℤ × List SvcFile
add_file_to_brnach disk name (some result, files) = (result, files)
add_file_to_brnach disk name (none, files) =
    (hash_path disk name, files ++ new_file_of disk name ∷ [])

-- The branch at the current position gets other files.
unfoldable pub with_files : BranchList → Branch → List SvcFile → Outcome BranchList
unfolding store
with_files s b files =
    store s.branch_list s.current_position (record b { files = files }) >>= λ branches.
    ok (record s { branch_list = branches })

unfoldable pub svc_add : BranchList → Option (List ℕ) → Outcome (ℤ × BranchList)
unfolding get_current_branch_ptr add_in with_files
svc_add s none = ok (negsuc 0, s)
svc_add s (some name) = do
  b ← get_current_branch_ptr s
  let r = add_file_to_brnach s.disk name (add_in s.disk name b.files)
  let done = with_files s b r.1 >>= λ s'. ok (r.0, s')
  (if exists (s.disk name) then done else ok (negsuc 2, s))

-- The loop of svc_rm.
unfoldable pub rm_in : List ℕ → List SvcFile → ℤ × List SvcFile
unfolding same
rm_in name [] = (negsuc 1, [])
rm_in name (f ∷ files) =
    let rest = rm_in name files in
    if same f.file_path name && f.added && not f.removed
    then (f.hash_code, (record f { added = false; removed = true; staged = false }) ∷ files)
    else (rest.0, f ∷ rest.1)

unfoldable pub svc_rm : BranchList → Option (List ℕ) → Outcome (ℤ × BranchList)
unfolding get_current_branch_ptr rm_in with_files
svc_rm s none = ok (negsuc 0, s)
svc_rm s (some name) = do
  b ← get_current_branch_ptr s
  let r = rm_in name b.files
  let done = with_files s b r.1 >>= λ s'. ok (r.0, s')
  (if exists (s.disk name) then done else ok (negsuc 1, s))
