-- ===== src/Disk/Calls.antt =====
-- What each call does to the file at a path that it may leave alone.
use nexguard_sentinel.Prelude.{
  ℕ, false, Option, none, some, nats_eq, ◌≡◌, refl, arith, ap, ◌∙◌, Bool-cases, inl, inr,
}
use nexguard_sentinel.Python.Exec.{modify}
use nexguard_sentinel.Python.Text.{Text}
use nexguard_sentinel.Disk.{
  Disk, FilePath, File, same_path, lookup, remove, read_file, stat_dir, unlink, replace,
  replace_with, make_dir, alter, change, or_missing, dir_gid, has_dir,
}
use nexguard_sentinel.Disk.Laws.{lookup-remove, lookup-put}
use nexguard_sentinel.Disk.Post.{Split, Post, syscall-Post}

-- `q` is looked up as `old`.
abbrev pub Holds : FilePath → Option File → Disk → Type 0
Holds q old s = lookup q s.files ≡ old

-- The files are those of `s`.
abbrev pub SameFiles : Disk → Disk → Type 0
SameFiles s t = t.files ≡ s.files

or_missing-Post :
    {A : Type 0} (o : Option A) (s t : Disk)
    → SameFiles s t
    → Split (λ a u. (o ≡ some a) × SameFiles s u) (SameFiles s) (or_missing o) t
or_missing-Post none s t e = e
or_missing-Post (some a) s t e = (refl, e)

module _ (s t : Disk) (same : SameFiles s t) where
  -- Reading a file tells its contents.
  pub read_file-Post :
      (p : FilePath)
      → Post (read_file p) t (λ f u. (lookup p s.files ≡ some f) × SameFiles s u) (SameFiles s)
  unfolding read_file
  read_file-Post p =
      syscall-Post (λ u. (or_missing (lookup p u.files), u)) t
        (λ f u. (lookup p s.files ≡ some f) × SameFiles s u) (SameFiles s) (λ u e. e ∙ same)
        (λ u e _. simp (e ∙ same) (or_missing-Post (lookup p s.files) s u (e ∙ same)))

  some_gid-Post :
      (o : Option ℕ) (u : Disk)
      → SameFiles s u
      → Split (λ (_ : ℕ). SameFiles s) (SameFiles s) (or_missing o) u
  some_gid-Post none u e = e
  some_gid-Post (some _) u e = e

  pub stat_dir-Post : (d : Text) → Post (stat_dir d) t (λ _. SameFiles s) (SameFiles s)
  unfolding stat_dir
  stat_dir-Post d =
      syscall-Post (λ u. (or_missing (dir_gid d u.dirs), u)) t (λ _. SameFiles s) (SameFiles s)
        (λ u e. e ∙ same) (λ u e _. some_gid-Post (dir_gid d u.dirs) u (e ∙ same))

  pub make_dir-Post : (d : Text) → Post (make_dir d) t (λ _. SameFiles s) (SameFiles s)
  unfolding make_dir
  make_dir-Post d =
      syscall-Post _ t (λ _. SameFiles s) (SameFiles s) (λ u e. e ∙ same)
        (λ u e _. elim (Bool-cases (has_dir (dir_gid d u.dirs))) [
          | inl y ↦ rw y (e ∙ same)
          | inr n ↦ rw n (e ∙ same)
        ])

module _ (q : FilePath) (old : Option File) (p : FilePath) (other : same_path p q ≡ false) where
  -- Removing another file.
  pub unlink-Post : (s : Disk) → Holds q old s → Post (unlink p) s (λ _. Holds q old) (Holds q old)
  unfolding unlink
  unlink-Post s h =
      syscall-Post (modify (λ (t : Disk). record t { files = remove p t.files })) s
        (λ _. Holds q old) (Holds q old) (λ t e. ap (lookup q) e ∙ h)
        (λ t e _. lookup-remove p q t.files ∙ rw other (ap (lookup q) e ∙ h))

  change-Post :
      (f : File → File) (o : Option File) (file : File) (t : Disk)
      → o ≡ some file
      → Holds q old t
      → Post
          (change p f o)
          t
          (λ _ u. (lookup p u.files ≡ some (f file)) × Holds q old u)
          (Holds q old)
  change-Post f none file t e h = h
  change-Post f (some file') file t e h = (
    lookup-put p p (f file') t.files ∙ ground arith,
    lookup-put p q (f file') t.files ∙ rw other h,
  )

  -- Writing to another file that is there.
  pub alter-Post :
      (f : File → File) (file : File) (s : Disk)
      → lookup p s.files ≡ some file
      → Holds q old s
      → Post (alter p f) s (λ _ t. (lookup p t.files ≡ some (f file)) × Holds q old t) (Holds q old)
  unfolding alter
  alter-Post f file s there h =
      syscall-Post (λ t. change p f (lookup p t.files) t) s _ (Holds q old)
        (λ t e. ap (lookup q) e ∙ h)
        (λ t e _.
          change-Post f (lookup p t.files) file t (ap (lookup p) e ∙ there) (ap (lookup q) e ∙ h))

  replace_with-Post :
      (o : Option File) (file : File) (t : Disk)
      → o ≡ some file
      → Holds q old t
      → Post (replace_with p q o) t (λ _. Holds q (some file)) (Holds q old)
  replace_with-Post none file t e h = h
  replace_with-Post (some file') file t e h = lookup-put q q file' (remove p t.files) ∙ ground arith

  -- Replacing the file at `q` by another file that is there, or not replacing it.
  pub replace-Post :
      (file : File) (s : Disk)
      → lookup p s.files ≡ some file
      → Holds q old s
      → Post (replace p q) s (λ _. Holds q (some file)) (Holds q old)
  unfolding replace
  replace-Post file s there h =
      syscall-Post (λ t. replace_with p q (lookup p t.files) t) s _ (Holds q old)
        (λ t e. ap (lookup q) e ∙ h)
        (λ t e _.
          replace_with-Post (lookup p t.files) file t (ap (lookup p) e ∙ there)
            (ap (lookup q) e ∙ h))
