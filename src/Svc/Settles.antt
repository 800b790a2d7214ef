-- ===== src/Svc/Settles.antt =====
-- svc_commit: the new commit in the branch, and the state after it.
use system_programming_and_d.Base.{
  ℕ, zero, suc, ◌+◌, ◌-◌, ◌≤◌, ◌<◌, ◌≡◌, refl, sym, ap, subst, ◌∙◌, inl, inr, Bool, true, false,
  Bool-cases, List, [], ◌∷◌, All, Option, none, some, arith, leb, if◌then◌else◌, length, length-set,
  set, get_or, get_or-set, load-lt, store-lt, ok, Returns, Returns-bind, Returns-mono,
}
use system_programming_and_d.Svc.{Disk, SvcFile, Commit, Branch, BranchList, commit_number}
use system_programming_and_d.Svc.Commits.{
  dectected_changes_in_f, store_in_temp_dir, append_at, with_parent, add_parent, empty_commit,
  get_current_branch_ptr, finish_commit, is_nil, commit_or_stop, svc_commit,
}
use system_programming_and_d.Svc.Detects.{
  ListsThere, dectected_changes_in_f-again, dectected_changes_in_f-ListsThere,
}
use system_programming_and_d.Svc.Copies.{Copyable, Untouched, store_in_temp_dir-Untouched}

append_at-Returns :
    (n : ℕ) (cs : List Commit) (c : Commit)
    → n ≤ length cs
    → Returns (λ r. length r ≡ suc n) (append_at n cs c)
unfolding append_at
append_at-Returns zero cs c h = refl
append_at-Returns (suc n) [] c h = absurd (omega arith)
append_at-Returns (suc n) (d ∷ cs) c h =
    Returns-bind (λ r. length r ≡ suc n) _ (append_at n cs c) _
      (append_at-Returns n cs c (omega arith)) λ r e. ap suc e

abbrev pub no_branch : Branch
no_branch = record { branch_name = []; files = []; commit_histroy = []; n_commit = 0 }

abbrev no_commit : Commit
no_commit = empty_commit

abbrev pub current : BranchList → Branch
current s = get_or s.branch_list s.current_position no_branch

-- The active branch exists and has its commits, and its files can be copied to the directory.
pub record IsSystem (dir : Option (List ℕ)) (s : BranchList) : Type 0 where
  pub inside : s.current_position < length s.branch_list
  pub commits : (current s).n_commit ≤ length (current s).commit_histroy
  pub paths : All (λ f. Copyable dir f.file_path) (current s).files

-- The active branch exists and has no change to commit.
pub record Settled (s : BranchList) : Type 0 where
  pub inside : s.current_position < length s.branch_list
  pub nothing : (c : Commit) → (dectected_changes_in_f s.disk (current s).files c).2 ≡ false

with_parent-Returns :
    (b : Branch) (c : Commit)
    → b.n_commit ≤ length b.commit_histroy
    → Returns (λ c'. Unit {0}) (with_parent b c)
unfolding with_parent
with_parent-Returns b c h = elim (Bool-cases (leb 1 b.n_commit)) [
  | inr first ↦ rw first tt
  | inl later ↦
      rw (later, load-lt b.commit_histroy (b.n_commit - 1) no_commit (ground (arith, later))) tt
]

-- The current branch after one with other files is stored.
pub current-set :
    (branches : List Branch) (i : ℕ) (b : Branch)
    → i < length branches
    → get_or (set branches i b) i no_branch ≡ b
current-set branches i b h = ground (arith, get_or-set branches i i b no_branch h)

add_parent-Returns :
    (s : BranchList) (b : Branch) (c : Commit)
    → s.current_position < length s.branch_list
    → b.n_commit ≤ length b.commit_histroy
    → Returns
        (λ s'.
          (s'.current_position < length s'.branch_list)
          × ((current s').files ≡ b.files)
          × (s'.disk ≡ s.disk))
        (add_parent s b c)
unfolding add_parent
add_parent-Returns s b c inside commits =
    Returns-bind (λ c'. Unit {0}) _ (with_parent b c) _ (with_parent-Returns b c commits)
      λ c' done.
        Returns-bind (λ r. length r ≡ suc b.n_commit) _ (append_at b.n_commit b.commit_histroy c') _
          (append_at-Returns b.n_commit b.commit_histroy c' commits)
          λ history e.
            let b' : Branch = record b { commit_histroy = history; n_commit = b.n_commit + 1 } in
            rw (store-lt s.branch_list s.current_position b' inside) (
              omega (arith, length-set s.branch_list s.current_position b', inside),
              ap (λ (x : Branch). x.files) (current-set s.branch_list s.current_position b' inside),
              refl,
            )

module _ (hex : ℕ → List ℕ) (dir : Option (List ℕ)) (s : BranchList) (h : IsSystem dir s) where
  abbrev detected : List SvcFile × Commit × Bool
  detected = dectected_changes_in_f s.disk (current s).files empty_commit

  agreeing :
      (disk' : Disk)
      → ((p : List ℕ) → Copyable dir p → disk' p ≡ s.disk p)
      → (files : List SvcFile) → All (λ f. Copyable dir f.file_path) files
      → All (λ f. disk' f.file_path ≡ s.disk f.file_path) files
  agreeing disk' same_files [] ok_paths = tt
  agreeing disk' same_files (f ∷ files) ok_paths =
      (same_files f.file_path ok_paths.0, agreeing disk' same_files files ok_paths.1)

  -- What was detected leaves nothing, on a disk whose files are as they were.
  Settled-files :
      (s' : BranchList)
      → s'.current_position < length s'.branch_list
      → (current s').files ≡ detected.0
      → ((p : List ℕ) → Copyable dir p → s'.disk p ≡ s.disk p)
      → Settled s'
  Settled-files s' inside files same_files = record {
    inside = inside;
    nothing = λ c.
        ap (λ (fs : List SvcFile). (dectected_changes_in_f s'.disk fs c).2) files
        ∙ dectected_changes_in_f-again s.disk s'.disk (current s).files empty_commit c
            (agreeing s'.disk same_files (current s).files h.paths);
  }

  finish_commit-Settled :
      (b : Branch) (message : List ℕ)
      → b.files ≡ detected.0
      → b.n_commit ≤ length b.commit_histroy
      → Returns (λ r. Settled r.1) (finish_commit hex dir s b message detected.1)
  unfolding finish_commit
  finish_commit-Settled b message files commits =
      let id = hex (commit_number message detected.1) in
      let c : Commit = record detected.1 { message = message; commit_id = id } in
      let found : ListsThere s.disk (Copyable dir) detected.1 =
        dectected_changes_in_f-ListsThere s.disk (Copyable dir) (current s).files empty_commit
          (record { tracked = tt; added = tt; modified = tt }) h.paths in
      let lists : ListsThere s.disk (Copyable dir) c = record {
        tracked = found.tracked;
        added = found.added;
        modified = found.modified;
      } in
      Returns-bind (Untouched dir s.disk) _ (store_in_temp_dir dir s.disk c) _
        (store_in_temp_dir-Untouched dir s.disk c lists)
        λ x untouched.
          let s1 : BranchList = record s { disk = x.1 } in
          Returns-bind
            (λ s'.
              (s'.current_position < length s'.branch_list)
              × ((current s').files ≡ b.files)
              × (s'.disk ≡ x.1))
            _ (add_parent s1 b x.0) _ (add_parent-Returns s1 b x.0 h.inside commits)
            λ s' k.
              Settled-files s' k.0 (k.1 ∙ files)
                (λ p ok_p. ap (λ (d : Disk). d p) k.2 ∙ untouched p ok_p)

  no_files :
      (c : Commit)
      → (current s).files ≡ []
      → (dectected_changes_in_f s.disk (current s).files c).2 ≡ false
  unfolding dectected_changes_in_f
  no_files c e = ap (λ (fs : List SvcFile). (dectected_changes_in_f s.disk fs c).2) e

  commit_or_stop-Settled :
      (message : List ℕ) (r : List SvcFile × Commit × Bool)
      → r ≡ detected
      → Returns (λ r'. Settled r'.1) (commit_or_stop hex dir s (current s) message r)
  unfolding commit_or_stop
  commit_or_stop-Settled message (files, c, false) e =
      let b : Branch = record (current s) { files = files } in
      rw (store-lt s.branch_list s.current_position b h.inside) (
        Settled-files (record s { branch_list = set s.branch_list s.current_position b })
          (omega (arith, length-set s.branch_list s.current_position b, h.inside))
          (ap (λ (x : Branch). x.files) (current-set s.branch_list s.current_position b h.inside)
            ∙ ap (λ (t : List SvcFile × Commit × Bool). t.0) e)
          (λ p ok_p. refl))
  commit_or_stop-Settled message (files, c, true) e =
      let b : Branch = record (current s) { files = files } in
      subst (λ (x : Commit). Returns (λ r'. Settled r'.1) (finish_commit hex dir s b message x))
        (sym (ap (λ (t : List SvcFile × Commit × Bool). t.1) e))
        (finish_commit-Settled b message (ap (λ (t : List SvcFile × Commit × Bool). t.0) e)
          h.commits)

  -- Where the active branch is in order and its files can be copied, svc_commit with a message
  -- returns, and leaves the active branch with no change to commit.
  pub svc_commit-Settled :
      (message : List ℕ) → Returns (λ r. Settled r.1) (svc_commit hex dir s (some message))
  unfolding svc_commit get_current_branch_ptr
  svc_commit-Settled message =
      rw (load-lt s.branch_list s.current_position no_branch h.inside) (pick (current s).files refl)
    where
      pick :
          (fs : List SvcFile)
          → (current s).files ≡ fs
          → Returns
              (λ r. Settled r.1)
              (if is_nil fs
                then ok (none, s)
                else commit_or_stop hex dir s (current s) message detected)
      pick [] e = record { inside = h.inside; nothing = λ c. no_files c e }
      pick (f ∷ fs) e = commit_or_stop-Settled message detected refl

-- svc_commit without a change to commit gives NULL.
pub Settled-svc_commit :
    (hex : ℕ → List ℕ) (dir : Option (List ℕ)) (s : BranchList) (message : Option (List ℕ))
    → Settled s
    → Returns (λ r. r.0 ≡ none) (svc_commit hex dir s message)
unfolding svc_commit get_current_branch_ptr commit_or_stop
Settled-svc_commit hex dir s none h = refl
Settled-svc_commit hex dir s (some message) h =
    rw (load-lt s.branch_list s.current_position no_branch h.inside) (
      pick (is_nil (current s).files) (dectected_changes_in_f s.disk (current s).files empty_commit)
        (h.nothing empty_commit))
  where
    pick :
        (b : Bool) (r : List SvcFile × Commit × Bool)
        → r.2 ≡ false
        → Returns
            (λ x. x.0 ≡ none)
            (if b then ok (none, s) else commit_or_stop hex dir s (current s) message r)
    pick true r e = refl
    pick false r e = rw e (
        rw (store-lt s.branch_list s.current_position (record (current s) { files = r.0 }) h.inside)
          refl)

-- Where the active branch is in order and its files can be copied, svc_commit with a message
-- returns, and another svc_commit right after it returns NULL.
pub svc_commit-again :
    (hex : ℕ → List ℕ) (dir : Option (List ℕ)) (s : BranchList)
    → IsSystem dir s
    → (message : List ℕ) (dir' : Option (List ℕ)) (message' : Option (List ℕ))
    → Returns
        (λ r. Returns (λ r'. r'.0 ≡ none) (svc_commit hex dir' r.1 message'))
        (svc_commit hex dir s (some message))
svc_commit-again hex dir s h message dir' message' =
    Returns-mono (λ r. Settled r.1) _ (svc_commit hex dir s (some message))
      (svc_commit-Settled hex dir s h message) λ r k. Settled-svc_commit hex dir' r.1 message' k
