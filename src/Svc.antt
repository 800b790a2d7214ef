-- ===== src/Svc.antt =====
-- Simple Version Control/svc.{h,c} and file_processor.c, but for merging and printing. A string is
-- the list of its bytes without the NUL, `none` is NULL, the files on disk are a function of the
-- path, a file that exists can be read, and whether a path that is copied back can be opened for
-- writing is an argument. The structs are copied by value, as in the source,
-- where only the names are shared. A commit keeps the ids of its parents.
pub mod Commits
pub mod Branches
pub mod Names
pub mod Detects
pub mod Copies
pub mod Settles
pub mod Lists
pub mod Tracks
pub mod Restores
pub mod Undoes
pub mod Saves
pub mod Heads
pub mod Faults
pub mod Tests
use system_programming_and_d.Base.{
  ℕ, zero, suc, ◌+◌, ◌-◌, ◌*◌, ◌%◌, Bool, true, false, not, ◌&&◌, ◌||◌, List, [], ◌∷◌, ◌++◌, Option,
  none, some, length, ltb, leb, ◌==◌, if◌then◌else◌, Outcome, ok, exits, fault, ◌>>=◌,
}

pub data ℤ : Type 0 where
  pos : ℕ → ℤ
  negsuc : ℕ → ℤ

abbrev pub same_int : ℤ → ℤ → Bool
same_int (pos m) (pos n) = m == n
same_int (pos m) (negsuc n) = false
same_int (negsuc m) (pos n) = false
same_int (negsuc m) (negsuc n) = m == n

-- `strcmp(a, b) == 0`
unfoldable pub same : List ℕ → List ℕ → Bool
same [] [] = true
same [] (y ∷ ys) = false
same (x ∷ xs) [] = false
same (x ∷ xs) (y ∷ ys) = x == y && same xs ys

-- `strcmp(a, b) > 0`
unfoldable pub greater : List ℕ → List ℕ → Bool
greater [] ys = false
greater (x ∷ xs) [] = true
greater (x ∷ xs) (y ∷ ys) = ltb y x || x == y && greater xs ys

abbrev pub Disk : Type 0
Disk = List ℕ → Option (List ℕ)

unfoldable pub write_file : Disk → List ℕ → List ℕ → Disk
unfolding same
write_file disk path bytes p = if same p path then some bytes else disk p

-- struct svc_file
pub record SvcFile : Type 0 where
  pub hash_code : ℤ
  pub file_path : List ℕ
  pub added : Bool
  pub staged : Bool
  pub removed : Bool
  pub modified : Bool

-- struct commit
pub record Commit : Type 0 where
  pub commit_id : List ℕ
  pub message : List ℕ
  pub added_files : List SvcFile
  pub removed_files : List SvcFile
  pub modified_files : List SvcFile
  pub modified_old_hash : List ℤ
  pub tracked_files : List SvcFile
  pub dir_name : Option (List ℕ)
  pub parent_commit : List (List ℕ)
  pub n_parent_commit : ℕ

-- struct svc_branch
pub record Branch : Type 0 where
  pub branch_name : List ℕ
  pub files : List SvcFile
  pub commit_histroy : List Commit
  pub n_commit : ℕ

-- struct svc_branch_list, and the disk
pub record BranchList : Type 0 where
  pub branch_list : List Branch
  pub current_position : ℕ
  pub commit_list : List Commit
  pub disk : Disk

-- "master"
abbrev pub master : List ℕ
master = 109 ∷ 97 ∷ 115 ∷ 116 ∷ 101 ∷ 114 ∷ []

abbrev pub svc_init : Disk → BranchList
svc_init disk = record {
  branch_list = record { branch_name = master; files = []; commit_histroy = []; n_commit = 0 } ∷ [];
  current_position = 0;
  commit_list = [];
  disk = disk;
}

unfoldable pub sum_array : List ℕ → ℕ
sum_array [] = 0
sum_array (b ∷ arr) = b + sum_array arr

unfoldable pub hash_content : ℕ → List ℕ → ℕ
hash_content hash [] = hash
hash_content hash (b ∷ content) = hash_content ((hash + b) % 2000000000) content

unfoldable pub hash_opened : List ℕ → Option (List ℕ) → ℤ
unfolding sum_array hash_content
hash_opened path none = negsuc 1
hash_opened path (some content) = pos (hash_content (sum_array path % 1000) content)

-- hash_file of a path: -2 for a file that does not exist
unfoldable pub hash_path : Disk → List ℕ → ℤ
unfolding hash_opened
hash_path disk path = hash_opened path (disk path)

unfoldable pub hash_file : Disk → Option (List ℕ) → ℤ
unfolding hash_path
hash_file disk none = negsuc 0
hash_file disk (some path) = hash_path disk path

abbrev pub exists : Option (List ℕ) → Bool
exists none = false
exists (some content) = true

unfoldable pub has_path : List ℕ → List SvcFile → Bool
unfolding same
has_path name [] = false
has_path name (f ∷ files) = same f.file_path name || has_path name files

pub data Match : Type 0 where
  is_added : Match
  is_removed : Match
  is_modified : Match
  no_match : Match

unfoldable pub match_file_name : List ℕ → Commit → Match
unfolding has_path
match_file_name name c =
    if has_path name c.added_files
    then is_added
    else if has_path name c.removed_files
    then is_removed
    else if has_path name c.modified_files
    then is_modified
    else no_match

unfoldable pub sum_id_file_name : ℕ → List ℕ → ℕ
sum_id_file_name id [] = id
sum_id_file_name id (b ∷ arr) = sum_id_file_name (id * (b % 37) % 15485863 + 1) arr

-- `tolower`
abbrev pub tolower : ℕ → ℕ
tolower c = if leb 65 c && leb c 90 then c + 32 else c

unfoldable pub strlwr : List ℕ → List ℕ
strlwr [] = []
strlwr (c ∷ str) = tolower c ∷ strlwr str

-- The inner loop: the name of the place i, and the names behind it.
unfoldable pub settle_name : List ℕ → List (List ℕ) → List ℕ × List (List ℕ)
unfolding greater strlwr
settle_name x [] = (x, [])
settle_name x (y ∷ ys) =
    let swapped = settle_name y ys in
    let kept = settle_name x ys in
    if greater (strlwr x) (strlwr y) then (swapped.0, x ∷ swapped.1) else (kept.0, y ∷ kept.1)

-- The outer loop, with a round for each name.
unfoldable pub sort_names : ℕ → List (List ℕ) → List (List ℕ)
unfolding settle_name
sort_names zero str = str
sort_names (suc n) [] = []
sort_names (suc n) (x ∷ str) = let r = settle_name x str in r.0 ∷ sort_names n r.1

unfoldable pub sort_array_of_string : List (List ℕ) → List (List ℕ)
unfolding sort_names
sort_array_of_string str = sort_names (length str) str

abbrev pub paths_of : List SvcFile → List (List ℕ)
paths_of [] = []
paths_of (f ∷ files) = f.file_path ∷ paths_of files

unfoldable pub sort_changed_files : Commit → List (List ℕ)
unfolding sort_array_of_string
sort_changed_files c =
    sort_array_of_string
      (paths_of c.added_files ++ paths_of c.removed_files ++ paths_of c.modified_files)

abbrev pub change_number : Match → ℕ
change_number is_added = 376591
change_number is_removed = 85973
change_number is_modified = 9573681
change_number no_match = 9573681

unfoldable pub sum_changes : ℕ → Commit → List (List ℕ) → ℕ
unfolding match_file_name sum_id_file_name
sum_changes id c [] = id
sum_changes id c (name ∷ names) =
    sum_changes (sum_id_file_name (id + change_number (match_file_name name c)) name) c names

-- The number that is printed in hexadecimal.
unfoldable pub commit_number : List ℕ → Commit → ℕ
unfolding sum_array sum_changes sort_changed_files
commit_number message c = sum_changes (sum_array message % 1000) c (sort_changed_files c)
