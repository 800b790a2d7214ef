-- ===== src/Svc/Heads.antt =====
-- svc_commit: the commit at the head of the branch, and its copies.
use system_programming_and_d.Base.{
  ℕ, zero, suc, ◌+◌, ◌-◌, ◌≤◌, ◌<◌, ◌≡◌, refl, sym, ap, subst, ◌∙◌, ◌⊎◌, inl, inr, Bool, true,
  false, Bool-cases, List, [], ◌∷◌, All, none, some, arith, leb, if◌then◌else◌, length, load,
  load-lt, store-lt, Outcome, ok, Returns, Returns-bind, Returns-mono,
}
use system_programming_and_d.Svc.{
  Disk, SvcFile, Commit, Branch, BranchList, hash_path, hash_opened, commit_number,
}
use system_programming_and_d.Svc.Commits.{
  dectected_changes_in_f, until_end, store_tracked_f, store_in_temp_dir, append_at, with_parent,
  add_parent, empty_commit, get_current_branch_ptr, finish_commit, is_nil, commit_or_stop,
  svc_commit,
}
use system_programming_and_d.Svc.Detects.{IsThere, ListsThere, dectected_changes_in_f-ListsThere}
use system_programming_and_d.Svc.Settles.{current, no_branch, current-set}
use system_programming_and_d.Svc.Restores.{SavedCopy, RecordedIn, Recorded}
use system_programming_and_d.Svc.Saves.{Separate, Copied, AllCopied, store_tracked_f-AllCopied}

-- The same files and directory.
record SameLists (c c' : Commit) : Type 0 where
  pub tracked : c'.tracked_files ≡ c.tracked_files
  pub added : c'.added_files ≡ c.added_files
  pub modified : c'.modified_files ≡ c.modified_files
  pub dir : c'.dir_name ≡ c.dir_name

with_parent-SameLists :
    (b : Branch) (c : Commit)
    → b.n_commit ≤ length b.commit_histroy
    → Returns (SameLists c) (with_parent b c)
unfolding with_parent
with_parent-SameLists b c h = elim (Bool-cases (leb 1 b.n_commit)) [
  | inr first ↦ rw first (record { tracked = refl; added = refl; modified = refl; dir = refl })
  | inl later ↦
      rw (later, load-lt b.commit_histroy (b.n_commit - 1) empty_commit (ground (arith, later)))
        (record { tracked = refl; added = refl; modified = refl; dir = refl })
]

append_at-load :
    (n : ℕ) (cs : List Commit) (c : Commit)
    → n ≤ length cs
    → Returns (λ r. load r n ≡ ok c) (append_at n cs c)
unfolding append_at load
append_at-load zero cs c h = refl
append_at-load (suc n) [] c h = absurd (omega arith)
append_at-load (suc n) (d ∷ cs) c h =
    Returns-bind (λ r. load r n ≡ ok c) _ (append_at n cs c) _ (append_at-load n cs c (omega arith))
      λ r e. e

-- The last commit of the active branch.
abbrev pub last_commit : BranchList → Outcome Commit
unfolding load
last_commit s = load (current s).commit_histroy ((current s).n_commit - 1)

record Headed (c : Commit) (disk : Disk) (s : BranchList) : Type 0 where
  pub head : Commit
  pub at_end : last_commit s ≡ ok head
  pub lists : SameLists c head
  pub files : s.disk ≡ disk

add_parent-Headed :
    (s : BranchList) (b : Branch) (c : Commit)
    → s.current_position < length s.branch_list
    → b.n_commit ≤ length b.commit_histroy
    → Returns (Headed c s.disk) (add_parent s b c)
unfolding add_parent last_commit
add_parent-Headed s b c inside commits =
    Returns-bind (SameLists c) _ (with_parent b c) _ (with_parent-SameLists b c commits)
      λ c' same_lists.
        Returns-bind (λ r. load r b.n_commit ≡ ok c') _ (append_at b.n_commit b.commit_histroy c') _
          (append_at-load b.n_commit b.commit_histroy c' commits)
          λ history e.
            let b' : Branch = record b { commit_histroy = history; n_commit = b.n_commit + 1 } in
            let back : b.n_commit + 1 - 1 ≡ b.n_commit = omega arith in
            rw (store-lt s.branch_list s.current_position b' inside) (record {
              head = c';
              at_end = rw (current-set s.branch_list s.current_position b' inside) (rw back e);
              lists = same_lists;
              files = refl;
            })

-- The last commit has the hashes that its files had on `disk`, and copies with these hashes.
pub record SavedCommit (d : List ℕ) (disk : Disk) (s : BranchList) : Type 0 where
  pub head : Commit
  pub at_end : last_commit s ≡ ok head
  pub recorded : RecordedIn d (hash_path disk) head
  pub tracked : All (λ f. SavedCopy d (hash_path disk) s.disk f.file_path) head.tracked_files
  pub added : All (λ f. SavedCopy d (hash_path disk) s.disk f.file_path) head.added_files
  pub modified : All (λ f. SavedCopy d (hash_path disk) s.disk f.file_path) head.modified_files

module _ (d : List ℕ) (disk : Disk) (Q : List ℕ → Type 0) (sep : Separate d disk Q) where
  Copied-SavedCopy :
      (now : Disk) (p : List ℕ) → Q p → Copied d disk now p → SavedCopy d (hash_path disk) now p
  unfolding hash_path
  Copied-SavedCopy now p wanted k =
      let clean = sep.clean p k.content wanted k.source in
      record {
        name = k.name;
        content = until_end k.content;
        named = k.named;
        stored = k.stored;
        right =
            ap (λ (x : List ℕ). hash_opened p (some (until_end x))) clean
            ∙ ap (λ (x : List ℕ). hash_opened p (some x)) clean
            ∙ ap (hash_opened p) (sym k.source);
        outside = sep.outside p wanted;
      }

  All-saved :
      (now : Disk) (files : List SvcFile)
      → All (IsThere disk Q) files
      → All (λ f. Copied d disk now f.file_path) files
      → All (λ f. SavedCopy d (hash_path disk) now f.file_path) files
  All-saved now [] there h = tt
  All-saved now (f ∷ files) there h =
      (Copied-SavedCopy now f.file_path there.0.1 h.0, All-saved now files there.1 h.1)

  All-Recorded :
      (files : List SvcFile) → All (IsThere disk Q) files → Recorded d (hash_path disk) files
  All-Recorded [] there = tt
  All-Recorded (f ∷ files) there = (there.0.2, All-Recorded files there.1)

  Headed-SavedCommit :
      (c : Commit) (now : Disk) (s : BranchList)
      → ListsThere disk Q c
      → c.dir_name ≡ some d
      → AllCopied d disk Q sep c now
      → Headed c now s
      → SavedCommit d disk s
  Headed-SavedCommit c now s lists dir copies h =
      let saved : List SvcFile → Type 0 =
        λ files. All (λ f. SavedCopy d (hash_path disk) s.disk f.file_path) files in
      let on_now : (files : List SvcFile)
          → All (λ f. SavedCopy d (hash_path disk) now f.file_path) files
          → saved files =
        λ files.
          subst (λ (x : Disk). All (λ f. SavedCopy d (hash_path disk) x f.file_path) files)
            (sym h.files) in
      record {
        head = h.head;
        at_end = h.at_end;
        recorded = record {
          added =
              subst (Recorded d (hash_path disk)) (sym h.lists.added)
                (All-Recorded c.added_files lists.added);
          modified =
              subst (Recorded d (hash_path disk)) (sym h.lists.modified)
                (All-Recorded c.modified_files lists.modified);
          tracked =
              subst (Recorded d (hash_path disk)) (sym h.lists.tracked)
                (All-Recorded c.tracked_files lists.tracked);
          dir = h.lists.dir ∙ dir;
        };
        tracked =
            subst saved (sym h.lists.tracked)
              (on_now c.tracked_files (All-saved now c.tracked_files lists.tracked copies.tracked));
        added =
            subst saved (sym h.lists.added)
              (on_now c.added_files (All-saved now c.added_files lists.added copies.added));
        modified = subst saved (sym h.lists.modified) (
            on_now c.modified_files
              (All-saved now c.modified_files lists.modified copies.modified));
      }

module _ (hex : ℕ → List ℕ) (d : List ℕ) (s : BranchList) (Q : List ℕ → Type 0)
    (sep : Separate d s.disk Q) (inside : s.current_position < length s.branch_list)
    (commits : (current s).n_commit ≤ length (current s).commit_histroy)
    (paths : All (λ f. Q f.file_path) (current s).files) where
  abbrev detected : List SvcFile × Commit × Bool
  detected = dectected_changes_in_f s.disk (current s).files empty_commit

  finish_commit-SavedCommit :
      (b : Branch) (message : List ℕ)
      → b.n_commit ≤ length b.commit_histroy
      → Returns (λ r. SavedCommit d s.disk r.1) (finish_commit hex (some d) s b message detected.1)
  unfolding finish_commit store_in_temp_dir
  finish_commit-SavedCommit b message fits =
      let id = hex (commit_number message detected.1) in
      let c : Commit = record detected.1 { message = message; commit_id = id } in
      let found : ListsThere s.disk Q detected.1 =
        dectected_changes_in_f-ListsThere s.disk Q (current s).files empty_commit
          (record { tracked = tt; added = tt; modified = tt }) paths in
      let lists : ListsThere s.disk Q c = record {
        tracked = found.tracked;
        added = found.added;
        modified = found.modified;
      } in
      let c' : Commit = record c { dir_name = some d } in
      let lists' : ListsThere s.disk Q c' = record {
        tracked = found.tracked;
        added = found.added;
        modified = found.modified;
      } in
      Returns-bind (λ x. (x.0 ≡ c') × AllCopied d s.disk Q sep c' x.1) _
        (store_in_temp_dir (some d) s.disk c) _
        (Returns-bind (AllCopied d s.disk Q sep c) _ (store_tracked_f s.disk d c) _
          (store_tracked_f-AllCopied d s.disk Q sep c lists)
          λ now k. (
            refl,
            record {
              beside = k.beside;
              tracked = k.tracked;
              added = k.added;
              modified = k.modified;
            },
          ))
        λ x k.
          let s1 : BranchList = record s { disk = x.1 } in
          Returns-bind (Headed c' x.1) _ (add_parent s1 b x.0) _
            (subst (λ (y : Commit). Returns (Headed c' x.1) (add_parent s1 b y)) (sym k.0)
              (add_parent-Headed s1 b c' inside fits))
            λ s' h. Headed-SavedCommit d s.disk Q sep c' x.1 s' lists' refl k.1 h

  commit_or_stop-SavedCommit :
      (message : List ℕ) (r : List SvcFile × Commit × Bool)
      → r ≡ detected
      → Returns
          (λ r'. (r'.0 ≡ none) ⊎ SavedCommit d s.disk r'.1)
          (commit_or_stop hex (some d) s (current s) message r)
  unfolding commit_or_stop
  commit_or_stop-SavedCommit message (files, c, false) e =
      rw (store-lt s.branch_list s.current_position (record (current s) { files = files }) inside)
        (inl refl)
  commit_or_stop-SavedCommit message (files, c, true) e =
      let b : Branch = record (current s) { files = files } in
      subst
        (λ (x : Commit).
          Returns (λ r'. (r'.0 ≡ none) ⊎ SavedCommit d s.disk r'.1)
            (finish_commit hex (some d) s b message x))
        (sym (ap (λ (t : List SvcFile × Commit × Bool). t.1) e))
        (Returns-mono (λ r'. SavedCommit d s.disk r'.1) _
          (finish_commit hex (some d) s b message detected.1)
          (finish_commit-SavedCommit b message commits) (λ r' h. inr h))

  -- Where the active branch is in order and its files have separate places for their copies,
  -- svc_commit with a message returns, and gives NULL or leaves at the head of the branch a commit
  -- with the hash that each file it tracks had, and a copy of the file with that hash.
  pub svc_commit-SavedCommit :
      (message : List ℕ)
      → Returns
          (λ r. (r.0 ≡ none) ⊎ SavedCommit d s.disk r.1)
          (svc_commit hex (some d) s (some message))
  unfolding svc_commit get_current_branch_ptr
  svc_commit-SavedCommit message =
      rw (load-lt s.branch_list s.current_position no_branch inside)
        (pick (is_nil (current s).files))
    where
      pick :
          (b : Bool)
          → Returns
              (λ r. (r.0 ≡ none) ⊎ SavedCommit d s.disk r.1)
              (if b
                then ok (none, s)
                else commit_or_stop hex (some d) s (current s) message detected)
      pick true = inl refl
      pick false = commit_or_stop-SavedCommit message detected refl
