-- ===== src/Svc/Restores.antt =====
-- restore_file, and the search of the lists of a commit.
use system_programming_and_d.Base.{
  ℕ, ◌≡◌, ◌≢◌, refl, sym, ap, subst, ◌∙◌, inl, inr, Bool, true, false, ◌||◌, Bool-cases, List, [],
  ◌∷◌, ◌++◌, All, some, arith, ◌==◌, ◌>>=◌, Returns, Returns-bind, Returns-mono,
}
use system_programming_and_d.Svc.{
  ℤ, same_int, same, Disk, write_file, SvcFile, Commit, exists, hash_path, hash_opened, has_path,
}
use system_programming_and_d.Svc.Detects.{same_int-eq}
use system_programming_and_d.Svc.Commits.{get_file_name, until_end, copied_from, copy_file_content}
use system_programming_and_d.Svc.Branches.{
  source_path, restore_file, search_list, search_commit_tracked_files,
}
use system_programming_and_d.Svc.Tracks.{same_self}

pub same-eq : (xs ys : List ℕ) → same xs ys ≡ true → xs ≡ ys
unfolding same
same-eq [] [] h = refl
same-eq [] (y ∷ ys) h = cc
same-eq (x ∷ xs) [] h = cc
same-eq (x ∷ xs) (y ∷ ys) h = elim (Bool-cases (x == y)) [
  | inl e ↦ let heads : x ≡ y = ground (arith, e) in rw (heads, same-eq xs ys (rw e at h)) refl
  | inr e ↦ absurd (false_true (rw e at h))
]
  where
    false_true : false ≢ true
    false_true t = cc

-- The directory has a copy of the file, and the hash of the copy is the one that is wanted.
pub record SavedCopy (d : List ℕ) (wanted : List ℕ → ℤ) (disk : Disk) (path : List ℕ) : Type 0 where
  pub name : List ℕ
  pub content : List ℕ
  pub named : get_file_name path ≡ some name
  pub stored : disk (d ++ 47 ∷ name) ≡ some content
  pub right : hash_opened path (some (until_end content)) ≡ wanted path
  pub outside : (n : List ℕ) → same (d ++ 47 ∷ n) path ≡ false

-- No other file than the one at `path` has changed.
abbrev pub OnlyAt : List ℕ → Disk → Disk → Type 0
OnlyAt path disk disk' = (p : List ℕ) → same p path ≡ false → disk' p ≡ disk p

pub SavedCopy-OnlyAt :
    (d : List ℕ) (wanted : List ℕ → ℤ) (disk disk' : Disk) (path path' : List ℕ)
    → SavedCopy d wanted disk path
    → ((n : List ℕ) → same (d ++ 47 ∷ n) path' ≡ false)
    → OnlyAt path' disk disk'
    → SavedCopy d wanted disk' path
SavedCopy-OnlyAt d wanted disk disk' path path' h out only = record {
  name = h.name;
  content = h.content;
  named = h.named;
  stored = only (d ++ 47 ∷ h.name) (out h.name) ∙ h.stored;
  right = h.right;
  outside = h.outside;
}

pub unwritten :
    (disk : Disk) (p path bytes : List ℕ)
    → same p path ≡ false
    → write_file disk path bytes p ≡ disk p
unfolding write_file
unwritten disk p path bytes e = rw e refl

pub written : (disk : Disk) (path bytes : List ℕ) → write_file disk path bytes path ≡ some bytes
unfolding write_file
written disk path bytes = rw (same_self path) refl

-- The entry and the disk after one file was looked at.
pub record Restored (wanted : List ℕ → ℤ) (path : List ℕ) (disk : Disk) (found : Bool)
    (file : SvcFile) (disk' : Disk) : Type 0 where
  pub same_path : file.file_path ≡ path
  pub only : OnlyAt path disk disk'
  pub hash : found ≡ true → hash_path disk' path ≡ wanted path

module _ (d : List ℕ) (wanted : List ℕ → ℤ) where
  restore_file-Restored :
      (opens : List ℕ → Bool) (cf file : SvcFile) (disk : Disk)
      → opens file.file_path ≡ true
      → SavedCopy d wanted disk file.file_path
      → cf.hash_code ≡ wanted file.file_path
      → Returns
          (λ r. Restored wanted file.file_path disk true r.0 r.1)
          (restore_file opens (some d) cf (file, disk))
  unfolding restore_file source_path copy_file_content copied_from hash_path
  restore_file-Restored opens cf file disk writable h e =
      elim (Bool-cases (same_int (hash_path disk file.file_path) cf.hash_code)) [
        | inl equal ↦ rw equal (record {
          same_path = refl;
          only = λ p n. refl;
          hash = λ t. same_int-eq (hash_path disk file.file_path) cf.hash_code equal ∙ e;
        })
        | inr other ↦
            let path = file.file_path in
            let src = d ++ 47 ∷ h.name in
            let opened = write_file disk path [] in
            let there : exists (disk src) ≡ true = ap exists h.stored in
            let reads : opened src ≡ some h.content =
              unwritten disk src path [] (h.outside h.name) ∙ h.stored in
            rw (other, h.named, there, writable, reads)
              (record {
                same_path = refl;
                only = λ p n.
                    unwritten opened p path (until_end h.content) n ∙ unwritten disk p path [] n;
                hash = λ t.
                    ap (hash_opened path) (written opened path (until_end h.content)) ∙ h.right;
              })
      ]

  -- The entries of a list have the wanted hashes.
  abbrev pub Recorded : List SvcFile → Type 0
  Recorded files = All (λ cf. cf.hash_code ≡ wanted cf.file_path) files

  Restored-then :
      (path : List ℕ) (disk0 disk disk' : Disk) (found : Bool) (file file' : SvcFile)
      → Restored wanted path disk0 found file disk
      → Restored wanted file.file_path disk true file' disk'
      → Restored wanted path disk0 true file' disk'
  Restored-then path disk0 disk disk' found file file' h k = record {
    same_path = k.same_path ∙ h.same_path;
    only = λ p n. k.only p (ap (same p) h.same_path ∙ n) ∙ h.only p n;
    hash = λ t. subst (λ (x : List ℕ). hash_path disk' x ≡ wanted x) h.same_path (k.hash t);
  }

  search_list-Restored :
      (opens : List ℕ → Bool) (files : List SvcFile) (path : List ℕ) (disk0 disk : Disk)
      (found : Bool) (file : SvcFile)
      → opens path ≡ true
      → SavedCopy d wanted disk0 path
      → Recorded files
      → Restored wanted path disk0 found file disk
      → Returns
          (λ r. Restored wanted path disk0 r.0 r.1 r.2 × (r.0 ≡ (found || has_path path files)))
          (search_list opens (some d) files (found, file, disk))
  unfolding search_list has_path
  search_list-Restored opens [] path disk0 disk found file writable saved rec h =
      (h, or_false found)
    where
      or_false : (b : Bool) → b ≡ (b || false)
      or_false true = refl
      or_false false = refl
  search_list-Restored opens (cf ∷ files) path disk0 disk found file writable saved rec h =
      elim (Bool-cases (same cf.file_path file.file_path)) [
        | inl hit ↦
            let here : SavedCopy d wanted disk file.file_path =
              subst (SavedCopy d wanted disk) (sym h.same_path)
                (SavedCopy-OnlyAt d wanted disk0 disk path path saved saved.outside h.only) in
            let e : cf.hash_code ≡ wanted file.file_path =
              rec.0 ∙ ap wanted (same-eq cf.file_path file.file_path hit) in
            let hit' : same cf.file_path path ≡ true =
              ap (same cf.file_path) (sym h.same_path) ∙ hit in
            rw (hit, hit')
              (Returns-bind (λ r. Restored wanted file.file_path disk true r.0 r.1) _
                (restore_file opens (some d) cf (file, disk)) _
                (restore_file-Restored opens cf file disk (ap opens h.same_path ∙ writable) here e)
                λ r k.
                  Returns-mono
                    (λ r'.
                      Restored wanted path disk0 r'.0 r'.1 r'.2
                      × (r'.0 ≡ (true || has_path path files)))
                    _ (search_list opens (some d) files (true, r.0, r.1))
                    (search_list-Restored opens files path disk0 r.1 true r.0 writable saved rec.1
                      (Restored-then path disk0 disk r.1 found file r.0 h k))
                    (λ r' m. (m.0, m.1 ∙ or_true found)))
        | inr miss ↦
            let miss' : same cf.file_path path ≡ false =
              ap (same cf.file_path) (sym h.same_path) ∙ miss in
            rw (miss, miss')
              (search_list-Restored opens files path disk0 disk found file writable saved rec.1 h)
      ]
    where
      or_true : (b : Bool) → true ≡ (b || true)
      or_true true = refl
      or_true false = refl

  -- The entries of a commit that are searched have the wanted hashes.
  pub record RecordedIn (c : Commit) : Type 0 where
    pub added : Recorded c.added_files
    pub modified : Recorded c.modified_files
    pub tracked : Recorded c.tracked_files
    pub dir : c.dir_name ≡ some d

  abbrev pub tracks : Commit → List ℕ → Bool
  tracks c path =
      has_path path c.added_files || has_path path c.modified_files || has_path path c.tracked_files

  pub search_commit_tracked_files-Restored :
      (opens : List ℕ → Bool) (c : Commit) (file : SvcFile) (disk : Disk)
      → opens file.file_path ≡ true
      → SavedCopy d wanted disk file.file_path
      → RecordedIn c
      → Returns
          (λ r. Restored wanted file.file_path disk r.0 r.1 r.2 × (r.0 ≡ tracks c file.file_path))
          (search_commit_tracked_files opens c (file, disk))
  unfolding search_commit_tracked_files
  search_commit_tracked_files-Restored opens c file disk writable saved rec =
      let path = file.file_path in
      let a = has_path path c.added_files in
      let m = has_path path c.modified_files in
      rw rec.dir (
        Returns-bind (λ r. Restored wanted path disk r.0 r.1 r.2 × (r.0 ≡ (a || m))) _
          (search_list opens (some d) c.added_files (false, file, disk)
            >>= search_list opens (some d) c.modified_files)
          _
          (Returns-bind (λ r. Restored wanted path disk r.0 r.1 r.2 × (r.0 ≡ (false || a))) _
            (search_list opens (some d) c.added_files (false, file, disk)) _
            (search_list-Restored opens c.added_files path disk disk false file writable saved
              rec.added (record { same_path = refl; only = λ p n. refl; hash = λ t. absurd (cc) }))
            λ r h.
              Returns-mono (λ r'. Restored wanted path disk r'.0 r'.1 r'.2 × (r'.0 ≡ (r.0 || m))) _
                (search_list opens (some d) c.modified_files r)
                (search_list-Restored opens c.modified_files path disk r.2 r.0 r.1 writable saved
                  rec.modified h.0)
                (λ r' k. (k.0, k.1 ∙ ap (λ (b : Bool). b || m) h.1)))
          λ r h.
            Returns-mono
              (λ r'.
                Restored wanted path disk r'.0 r'.1 r'.2
                × (r'.0 ≡ (r.0 || has_path path c.tracked_files)))
              _ (search_list opens (some d) c.tracked_files r)
              (search_list-Restored opens c.tracked_files path disk r.2 r.0 r.1 writable saved
                rec.tracked h.0)
              (λ r' k. (k.0, k.1 ∙ ap (λ (b : Bool). b || has_path path c.tracked_files) h.1)))
