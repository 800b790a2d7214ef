-- ===== src/Svc/Copies.antt =====
-- store_in_temp_dir: which files the copies leave alone.
use system_programming_and_d.Base.{
  ℕ, ◌≡◌, refl, ap, ◌∙◌, true, false, List, [], ◌∷◌, ◌++◌, All, Option, none, some, ◌>>=◌, Returns,
  Returns-bind,
}
use system_programming_and_d.Svc.{same, Disk, write_file, SvcFile, Commit, exists}
use system_programming_and_d.Svc.Commits.{
  get_file_name, until_end, copied_from, copy_file_content, copy_file, copy_files, store_tracked_f,
  store_in_temp_dir,
}
use system_programming_and_d.Svc.Detects.{IsThere, ListsThere}

-- A path with a last token that is not in the directory.
pub record Copyable (dir : Option (List ℕ)) (path : List ℕ) : Type 0 where
  pub name : List ℕ
  pub named : get_file_name path ≡ some name
  pub outside : (d : List ℕ) → dir ≡ some d → (n : List ℕ) → same path (d ++ 47 ∷ n) ≡ false

-- Other files than those of the directory are as before, and none is gone.
pub record Beside (d : List ℕ) (disk disk' : Disk) : Type 0 where
  pub keeps : (p : List ℕ) → ((n : List ℕ) → same p (d ++ 47 ∷ n) ≡ false) → disk' p ≡ disk p

pub Beside-trans : (d : List ℕ) (x y z : Disk) → Beside d x y → Beside d y z → Beside d x z
Beside-trans d x y z h k = record { keeps = λ p out. k.keeps p out ∙ h.keeps p out }

pub write_file-Beside :
    (d n : List ℕ) (disk : Disk) (bytes : List ℕ)
    → Beside d disk (write_file disk (d ++ 47 ∷ n) bytes)
unfolding write_file
write_file-Beside d n disk bytes = record { keeps = λ p out. rw (out n) refl }

pub copied_from-Beside :
    (d n : List ℕ) (disk : Disk) (source : Option (List ℕ))
    → Beside d disk (copied_from disk (d ++ 47 ∷ n) source)
unfolding copied_from
copied_from-Beside d n disk none = record { keeps = λ p out. refl }
copied_from-Beside d n disk (some content) = write_file-Beside d n disk (until_end content)

copy_file-Beside :
    (d : List ℕ) (disk : Disk) (path : List ℕ)
    → Copyable (some d) path
    → exists (disk path) ≡ true
    → Returns (Beside d disk) (copy_file disk d path)
unfolding copy_file copy_file_content
copy_file-Beside d disk path h there =
    let opened = write_file disk (d ++ 47 ∷ h.name) [] in
    rw (h.named, there)
      (Beside-trans d disk opened (copied_from opened (d ++ 47 ∷ h.name) (opened path))
        (write_file-Beside d h.name disk []) (copied_from-Beside d h.name opened (opened path)))

copy_files-Beside :
    (d : List ℕ) (disk : Disk) (files : List SvcFile) (now : Disk)
    → All (IsThere disk (Copyable (some d))) files
    → Beside d disk now
    → Returns (Beside d disk) (copy_files d files now)
unfolding copy_files
copy_files-Beside d disk [] now there b = b
copy_files-Beside d disk (f ∷ files) now there b =
    Returns-bind (Beside d now) _ (copy_file now d f.file_path) _
      (copy_file-Beside d now f.file_path there.0.1
        (ap exists (b.keeps f.file_path (there.0.1.outside d refl)) ∙ there.0.0))
      λ next k. copy_files-Beside d disk files next there.1 (Beside-trans d disk now next b k)

-- The copies leave the files that can be copied as they are.
abbrev pub Untouched : Option (List ℕ) → Disk → Commit × Disk → Type 0
Untouched dir disk r = (p : List ℕ) → Copyable dir p → r.1 p ≡ disk p

pub store_in_temp_dir-Untouched :
    (dir : Option (List ℕ)) (disk : Disk) (c : Commit)
    → ListsThere disk (Copyable dir) c
    → Returns (Untouched dir disk) (store_in_temp_dir dir disk c)
unfolding store_in_temp_dir store_tracked_f
store_in_temp_dir-Untouched none disk c lists = λ p h. refl
store_in_temp_dir-Untouched (some d) disk c lists =
    Returns-bind (Beside d disk) (Untouched (some d) disk) (store_tracked_f disk d c) _
      (Returns-bind (Beside d disk) _
        (copy_files d c.tracked_files disk >>= copy_files d c.added_files) _
        (Returns-bind (Beside d disk) _ (copy_files d c.tracked_files disk) _
          (copy_files-Beside d disk c.tracked_files disk lists.tracked
            (record { keeps = λ p out. refl }))
          λ x b. copy_files-Beside d disk c.added_files x lists.added b)
        λ x b. copy_files-Beside d disk c.modified_files x lists.modified b)
      λ now b p h. b.keeps p (h.outside d refl)
