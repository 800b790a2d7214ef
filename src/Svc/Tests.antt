-- ===== src/Svc/Tests.antt =====
-- Runs of the code at small inputs, and the theorems at them.
use mathlib.Core.Logic.{◌↔◌}
use system_programming_and_d.Base.{
  Bool, ℕ, ◌^◌, ◌≡◌, ◌≢◌, ◌<◌, refl, sym, ◌∙◌, ◌⊎◌, subst, ◌++◌, List, [], ◌∷◌, true, false, All,
  arith, Option, none, some, if◌then◌else◌, fault, Returns,
}
use system_programming_and_d.Svc.{
  ℤ, pos, negsuc, same, Disk, SvcFile, Commit, BranchList, svc_init, hash_file, commit_number,
  sort_array_of_string,
}
use system_programming_and_d.Svc.Commits.{
  dectected_changes_in_f, empty_commit, svc_commit, svc_add, get_file_name, until_end,
}
use system_programming_and_d.Svc.Branches.{check_valid_branch_name, get_commit, get_prev_commits}
use system_programming_and_d.Svc.Names.{
  IsNameChar, check_valid_branch_name-IsNameChar, commit_number-bound,
}
use system_programming_and_d.Svc.Copies.{Copyable}
use system_programming_and_d.Svc.Settles.{IsSystem, current, svc_commit-again}
use system_programming_and_d.Svc.Saves.{Separate}
use system_programming_and_d.Svc.Heads.{SavedCommit, svc_commit-SavedCommit}
use system_programming_and_d.Svc.Lists.{Listed, dectected_changes_in_f-Listed}
use system_programming_and_d.Svc.Tracks.{svc_add-again}
use system_programming_and_d.Svc.Faults.{commit_removal, get_prev_commits-fault}

-- "a.c"
abbrev source : List ℕ
source = 97 ∷ 46 ∷ 99 ∷ []

-- "/tmp/x"
abbrev temp : List ℕ
temp = 47 ∷ 116 ∷ 109 ∷ 112 ∷ 47 ∷ 120 ∷ []

-- A disk with that one file.
abbrev one_file : Disk
unfolding same
one_file path = if same path source then some (104 ∷ 105 ∷ []) else none

abbrev new_source : SvcFile
new_source = record {
  hash_code = pos 450;
  file_path = source;
  added = true;
  staged = true;
  removed = false;
  modified = false;
}

abbrev old_source : SvcFile
old_source = record new_source { staged = false }

-- 97 + 46 + 99 of the name, and 104 + 105 of the content.
hash_of_source : hash_file one_file (some source) ≡ pos 451
unfolding one_file hash_file
hash_of_source = refl

name_of_temp : get_file_name temp ≡ some (120 ∷ [])
unfolding get_file_name
name_of_temp = refl

sorted_names :
    sort_array_of_string ((98 ∷ []) ∷ (65 ∷ []) ∷ (97 ∷ 98 ∷ []) ∷ [])
    ≡ (65 ∷ []) ∷ (97 ∷ 98 ∷ []) ∷ (98 ∷ []) ∷ []
unfolding sort_array_of_string
sorted_names = refl

abbrev one_system : BranchList
one_system = record {
  branch_list =
      record { branch_name = 109 ∷ []; files = new_source ∷ []; commit_histroy = []; n_commit = 0 }
      ∷ [];
  current_position = 0;
  commit_list = [];
  disk = one_file;
}

abbrev given : Option (List ℕ) → List ℕ
given none = temp
given (some d) = d

source-Copyable : Copyable (some temp) source
unfolding get_file_name same
source-Copyable = record {
  name = source;
  named = refl;
  outside =
      λ d e n. subst (λ (o : Option (List ℕ)). same source (given o ++ 47 ∷ n) ≡ false) e refl;
}

one_system-IsSystem : IsSystem (some temp) one_system
one_system-IsSystem = record {
  inside = omega arith;
  commits = omega arith;
  paths = (source-Copyable, tt);
}

svc_commit-again_example :
    Returns
      (λ r. Returns (λ r'. r'.0 ≡ none) (svc_commit (λ n. 48 ∷ []) none r.1 (some (109 ∷ []))))
      (svc_commit (λ n. 48 ∷ []) (some temp) one_system (some (109 ∷ [])))
svc_commit-again_example =
    svc_commit-again (λ n. 48 ∷ []) (some temp) one_system one_system-IsSystem (109 ∷ []) none
      (some (109 ∷ []))

dectected_changes_in_f-Listed_example :
    Listed one_file (new_source ∷ old_source ∷ []) empty_commit (
      (dectected_changes_in_f one_file (new_source ∷ old_source ∷ []) empty_commit).1,
      (dectected_changes_in_f one_file (new_source ∷ old_source ∷ []) empty_commit).2,
    )
dectected_changes_in_f-Listed_example =
    dectected_changes_in_f-Listed one_file (new_source ∷ old_source ∷ []) empty_commit

svc_add-again_example :
    Returns
      (λ r.
        Returns
          (λ r'. (r'.0 ≡ negsuc 1) × ((current r'.1).files ≡ (current r.1).files))
          (svc_add r.1 (some source)))
      (svc_add (svc_init one_file) (some source))
unfolding one_file
svc_add-again_example = svc_add-again (svc_init one_file) source (omega arith) refl

-- "v1/b_2"
abbrev good_name : List ℕ
good_name = 118 ∷ 49 ∷ 47 ∷ 98 ∷ 95 ∷ 50 ∷ []

check_valid_branch_name-IsNameChar_example :
    (check_valid_branch_name good_name ≡ pos 0) ↔ All IsNameChar good_name
check_valid_branch_name-IsNameChar_example = check_valid_branch_name-IsNameChar good_name

abbrev listed_commit : Commit
listed_commit = record empty_commit {
  added_files = new_source ∷ [];
  modified_files = old_source ∷ [];
}

commit_number-bound_example : commit_number (104 ∷ 105 ∷ []) listed_commit < 2 ^ 24
commit_number-bound_example =
    commit_number-bound (104 ∷ 105 ∷ []) listed_commit (omega arith, tt) tt (omega arith, tt)

get_prev_commits-fault_example :
    Returns
      (λ r. Returns (λ c. (c ≢ none) × (get_prev_commits c ≡ fault)) (get_commit r.1 r.0))
      (commit_removal (λ n. 48 ∷ []) none one_file source (109 ∷ []))
unfolding one_file
get_prev_commits-fault_example =
    get_prev_commits-fault (λ n. 48 ∷ []) none one_file source (109 ∷ []) (104 ∷ 105 ∷ []) refl

-- "/tmp/x/a.c"
abbrev copy_path : List ℕ
copy_path = temp ++ 47 ∷ source

-- The file was changed since its copy was made.
abbrev changed_disk : Disk
unfolding same
changed_disk path =
    if same path source
    then some (104 ∷ 106 ∷ [])
    else if same path copy_path
    then some (104 ∷ 105 ∷ [])
    else none

abbrev kept_source : SvcFile
kept_source = record old_source { hash_code = pos 451 }

abbrev kept_commit : Commit
kept_commit = record empty_commit { added_files = kept_source ∷ []; dir_name = some temp }

abbrev wanted_hash : List ℕ → ℤ
wanted_hash path = pos 451

abbrev changed_system : BranchList
changed_system = record {
  branch_list =
      record {
        branch_name = 109 ∷ [];
        files = kept_source ∷ [];
        commit_histroy = kept_commit ∷ [];
        n_commit = 1;
      }
      ∷ [];
  current_position = 0;
  commit_list = kept_commit ∷ [];
  disk = changed_disk;
}

-- Only the directory of that file is there.
abbrev only_source : List ℕ → Bool
only_source path = same path source

-- The path of that one file.
abbrev IsSource : List ℕ → Type 0
IsSource path = path ≡ source

abbrev content_of : Option (List ℕ) → List ℕ
content_of none = []
content_of (some content) = content

IsSource-Separate : Separate temp one_file IsSource
unfolding same one_file until_end
IsSource-Separate = record {
  copyable = λ p e. subst (Copyable (some temp)) (sym e) source-Copyable;
  outside = λ p e n. subst (λ (x : List ℕ). same (temp ++ 47 ∷ n) x ≡ false) (sym e) refl;
  apart = λ p q n e e' named named'. e ∙ sym e';
  clean = λ p content e h.
      subst (λ (o : Option (List ℕ)). until_end (content_of o) ≡ content_of o)
        (subst (λ (x : List ℕ). one_file x ≡ some content) e h) refl;
}

svc_commit-SavedCommit_example :
    Returns
      (λ r. (r.0 ≡ none) ⊎ SavedCommit temp one_file r.1)
      (svc_commit (λ n. 48 ∷ []) (some temp) one_system (some (109 ∷ [])))
svc_commit-SavedCommit_example =
    svc_commit-SavedCommit (λ n. 48 ∷ []) temp one_system IsSource IsSource-Separate (omega arith)
      (omega arith) (refl, tt) (109 ∷ [])
