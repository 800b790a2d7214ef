-- ===== src/Svc/Undoes.antt =====
-- undo_file_changes: all files of the branch.
use system_programming_and_d.Base.{ℕ, ◌≡◌, ◌⊎◌, false, List, [], ◌∷◌, All}
use system_programming_and_d.Svc.{ℤ, same, Disk, SvcFile, Commit, hash_path}
use system_programming_and_d.Svc.Restores.{tracks}

-- The files have different paths.
unfoldable pub Apart : List SvcFile → Type 0
Apart [] = Unit {0}
Apart (f ∷ files) =
    All (λ g. (same g.file_path f.file_path ≡ false) × (same f.file_path g.file_path ≡ false)) files
    × Apart files

-- Each file that the commit tracks has the wanted hash, and no other file of the disk has changed.
pub record Undone (d : List ℕ) (wanted : List ℕ → ℤ) (c : Commit) (files : List SvcFile)
    (disk disk' : Disk) : Type 0 where
  pub restored :
      All
        (λ f.
          (tracks d wanted c f.file_path ≡ false)
          ⊎ (hash_path disk' f.file_path ≡ wanted f.file_path))
        files
  pub others : (p : List ℕ) → All (λ f. same p f.file_path ≡ false) files → disk' p ≡ disk p
