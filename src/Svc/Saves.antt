-- ===== src/Svc/Saves.antt =====
-- store_in_temp_dir: the copies that a commit keeps.
use system_programming_and_d.Base.{
  ℕ, ◌≡◌, ◌≢◌, refl, sym, ap, subst, ◌∙◌, inl, inr, true, false, Bool-cases, List, [], ◌∷◌, ◌++◌,
  All, some, Option-cases, arith, ◌==◌, ◌>>=◌, Returns, Returns-bind, Returns-mono,
}
use system_programming_and_d.Svc.{same, Disk, write_file, SvcFile, Commit, exists}
use system_programming_and_d.Svc.Commits.{
  get_file_name, until_end, copied_from, copy_file_content, copy_file, copy_files, store_tracked_f,
}
use system_programming_and_d.Svc.Detects.{IsThere, ListsThere}
use system_programming_and_d.Svc.Copies.{Copyable, Beside, Beside-trans, write_file-Beside}
use system_programming_and_d.Svc.Restores.{same-eq, unwritten, written}

-- The paths of the files: each can be copied to the directory `d`, whose files are none of them, no
-- two have the same path for their copies, and none of them holds a byte 255.
pub record Separate (d : List ℕ) (disk : Disk) (Q : List ℕ → Type 0) : Type 0 where
  pub copyable : (p : List ℕ) → Q p → Copyable (some d) p
  pub outside : (p : List ℕ) → Q p → (n : List ℕ) → same (d ++ 47 ∷ n) p ≡ false
  pub apart :
      (p q n : List ℕ) → Q p → Q q → get_file_name p ≡ some n → get_file_name q ≡ some n → p ≡ q
  pub clean : (p content : List ℕ) → Q p → disk p ≡ some content → until_end content ≡ content

-- The copy of the file at `p` is in the directory.
pub record Copied (d : List ℕ) (disk now : Disk) (p : List ℕ) : Type 0 where
  pub name : List ℕ
  pub content : List ℕ
  pub named : get_file_name p ≡ some name
  pub source : disk p ≡ some content
  pub stored : now (d ++ 47 ∷ name) ≡ some (until_end content)

cancel : (d x y : List ℕ) → same (d ++ x) (d ++ y) ≡ true → same x y ≡ true
unfolding same
cancel [] x y h = h
cancel (c ∷ d) x y h = let e : (c == c) ≡ true = ground arith in cancel d x y (rw e at h)

module _ (d : List ℕ) (disk : Disk) (Q : List ℕ → Type 0) (sep : Separate d disk Q) where
  -- Later copies keep it.
  abbrev KeepsCopies : Disk → Disk → Type 0
  KeepsCopies now next = (p : List ℕ) → Q p → Copied d disk now p → Copied d disk next p

  copy_file-Copied :
      (now : Disk) (q : List ℕ)
      → Q q
      → exists (disk q) ≡ true
      → Beside d disk now
      → Returns
          (λ next. Beside d disk next × Copied d disk next q × KeepsCopies now next)
          (copy_file now d q)
  unfolding copy_file copy_file_content
  copy_file-Copied now q wanted there b = elim (Option-cases (disk q)) [
    | inl e ↦ absurd (false_true (sym (ap exists e) ∙ there))
    | inr (content, e) ↦
        let c = sep.copyable q wanted in
        let dest = d ++ 47 ∷ c.name in
        let opened = write_file now dest [] in
        let reads : now q ≡ some content = b.keeps q (c.outside d refl) ∙ e in
        let open_reads : opened q ≡ some content =
          unwritten now q dest [] (c.outside d refl c.name) ∙ reads in
        rw (c.named, ap exists reads, open_reads) (done content e)
  ]
    where
      false_true : false ≢ true
      false_true t = cc

      done :
          (content : List ℕ)
          → disk q ≡ some content
          → (let next =
                copied_from
                  (write_file now (d ++ 47 ∷ (sep.copyable q wanted).name) [])
                  (d ++ 47 ∷ (sep.copyable q wanted).name)
                  (some content) in
              Beside d disk next × Copied d disk next q × KeepsCopies now next)
      done content e =
          let c = sep.copyable q wanted in
          let dest = d ++ 47 ∷ c.name in
          let opened = write_file now dest [] in
          let next = write_file opened dest (until_end content) in
          let here : Copied d disk next q = record {
            name = c.name;
            content = content;
            named = c.named;
            source = e;
            stored = written opened dest (until_end content);
          } in
          (
            Beside-trans d disk now next b (
                Beside-trans d now opened next (write_file-Beside d c.name now [])
                  (write_file-Beside d c.name opened (until_end content))),
            here,
            λ p wanted_p k. elim (Bool-cases (same (d ++ 47 ∷ k.name) dest)) [
              | inl clash ↦
                  let names : k.name ≡ c.name =
                    same-eq k.name c.name (
                      cancel (47 ∷ []) k.name c.name
                        (cancel d (47 ∷ k.name) (47 ∷ c.name) clash)) in
                  let paths : p ≡ q =
                    sep.apart p q c.name wanted_p wanted (k.named ∙ ap some names) c.named in
                  subst (Copied d disk next) (sym paths) here
              | inr other ↦ record {
                name = k.name;
                content = k.content;
                named = k.named;
                source = k.source;
                stored =
                    unwritten opened (d ++ 47 ∷ k.name) dest (until_end content) other
                    ∙ unwritten now (d ++ 47 ∷ k.name) dest [] other
                    ∙ k.stored;
              }
            ],
          )

  copy_files-Copied :
      (files : List SvcFile) (now : Disk)
      → All (IsThere disk Q) files
      → Beside d disk now
      → Returns
          (λ next.
            Beside d disk next
            × All (λ f. Copied d disk next f.file_path) files
            × KeepsCopies now next)
          (copy_files d files now)
  unfolding copy_files
  copy_files-Copied [] now there b = (b, tt, λ p wanted k. k)
  copy_files-Copied (f ∷ files) now there b =
      Returns-bind (λ x. Beside d disk x × Copied d disk x f.file_path × KeepsCopies now x) _
        (copy_file now d f.file_path) _ (copy_file-Copied now f.file_path there.0.1 there.0.0 b)
        λ x h.
          Returns-mono
            (λ next.
              Beside d disk next
              × All (λ g. Copied d disk next g.file_path) files
              × KeepsCopies x next)
            _ (copy_files d files x) (copy_files-Copied files x there.1 h.0)
            (λ next k. (
              k.0,
              (k.2 f.file_path there.0.1 h.1, k.1),
              λ p wanted m. k.2 p wanted (h.2 p wanted m),
            ))

  -- The copies of the three lists of a commit.
  pub record AllCopied (c : Commit) (now : Disk) : Type 0 where
    pub beside : Beside d disk now
    pub tracked : All (λ f. Copied d disk now f.file_path) c.tracked_files
    pub added : All (λ f. Copied d disk now f.file_path) c.added_files
    pub modified : All (λ f. Copied d disk now f.file_path) c.modified_files

  kept_copies :
      (files : List SvcFile) (now next : Disk)
      → All (IsThere disk Q) files
      → KeepsCopies now next
      → All (λ f. Copied d disk now f.file_path) files
      → All (λ f. Copied d disk next f.file_path) files
  kept_copies [] now next there keeps h = tt
  kept_copies (f ∷ files) now next there keeps h =
      (keeps f.file_path there.0.1 h.0, kept_copies files now next there.1 keeps h.1)

  pub store_tracked_f-AllCopied :
      (c : Commit) → ListsThere disk Q c → Returns (AllCopied c) (store_tracked_f disk d c)
  unfolding store_tracked_f
  store_tracked_f-AllCopied c lists =
      Returns-bind
        (λ y.
          Beside d disk y
          × All (λ f. Copied d disk y f.file_path) c.tracked_files
          × All (λ f. Copied d disk y f.file_path) c.added_files)
        _ (copy_files d c.tracked_files disk >>= copy_files d c.added_files) _
        (Returns-bind
          (λ x.
            Beside d disk x
            × All (λ f. Copied d disk x f.file_path) c.tracked_files
            × KeepsCopies disk x)
          _ (copy_files d c.tracked_files disk) _
          (copy_files-Copied c.tracked_files disk lists.tracked (record { keeps = λ p out. refl }))
          λ x h.
            Returns-mono
              (λ y.
                Beside d disk y
                × All (λ f. Copied d disk y f.file_path) c.added_files
                × KeepsCopies x y)
              _ (copy_files d c.added_files x) (copy_files-Copied c.added_files x lists.added h.0)
              (λ y k. (k.0, kept_copies c.tracked_files x y lists.tracked k.2 h.1, k.1)))
        λ y h.
          Returns-mono
            (λ z.
              Beside d disk z
              × All (λ f. Copied d disk z f.file_path) c.modified_files
              × KeepsCopies y z)
            _ (copy_files d c.modified_files y)
            (copy_files-Copied c.modified_files y lists.modified h.0)
            (λ z k. record {
              beside = k.0;
              tracked = kept_copies c.tracked_files y z lists.tracked k.2 h.1;
              added = kept_copies c.added_files y z lists.added k.2 h.2;
              modified = k.1;
            })
