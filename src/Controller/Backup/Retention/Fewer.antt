-- ===== src/Controller/Backup/Retention/Fewer.antt =====
-- The calls that add no backup to a directory.
use nexguard_sentinel.Prelude.{
  ◌+◌, ◌≤◌, Bool, true, false, ◌&&◌, Option, none, some, List, [], ◌∷◌, ◌++◌, ◌==◌, nat_eq, nats_eq,
  if◌then◌else◌, ◌≡◌, refl, ap, ◌∙◌, arith, Bool-cases, inl, inr,
}
use nexguard_sentinel.Python.Exec.{Exec, ◌>>◌}
use nexguard_sentinel.Python.Text.{Text, codes}
use nexguard_sentinel.Disk.{
  FilePath, File, Disk, same_path, lookup, remove, put, syscall, read_file, or_missing, stat_dir,
  replace, replace_with, alter, change, is_free, dir_gid,
}
use nexguard_sentinel.Disk.Post.{Split, Post, syscall-Post}
use nexguard_sentinel.Controller.Backup.{
  checksum_path_for, is_backup_name, has_prefix, names_in, complete,
}
use nexguard_sentinel.Controller.Backup.Fresh.{Whatever}
use nexguard_sentinel.Controller.Backup.Written.{begins}
use nexguard_sentinel.Controller.Backup.Retention.Counting.{count_if, listed, listed-remove}

and_false : (b : Bool) → (b && false) ≡ false
and_false true = refl
and_false false = refl

g_begins : (n : Text) → is_backup_name n ≡ true → begins b'g' (n ++ codes ".sha256") ≡ true
unfolding is_backup_name has_prefix
g_begins [] h = absurd (ground arith)
g_begins (c ∷ n) h = ground arith

g_named : (n : Text) → begins b'g' n ≡ false → is_backup_name n ≡ false
unfolding is_backup_name has_prefix
g_named [] h = refl
g_named (c ∷ n) h = ground arith

module _ (d : Text) where
  -- A path with such a name is neither a backup nor the checksum file of one.
  dull_differs :
      (p : FilePath) (n : Text)
      → begins b'g' p.name ≡ false
      → is_backup_name n ≡ true
      → same_path p (checksum_path_for (record { parent = d; name = n })) ≡ false
  unfolding checksum_path_for
  dull_differs p n h k = elim (Bool-cases (p.name == n ++ codes ".sha256")) [
    | inl y ↦
        let e : p.name ≡ n ++ codes ".sha256" = ground arith in
        let t = ap (begins b'g') e ∙ g_begins n k in absurd (ground arith)
    | inr f ↦ rw f (ground arith)
  ]

  complete-dull :
      (q : Text → Bool) (p : FilePath) (f : File) (files all : List (FilePath × File))
      → begins b'g' p.name ≡ false
      → count_if q (complete d ((p, f) ∷ all) (names_in d files))
        ≡ count_if q (complete d all (names_in d files))
  unfolding count_if complete names_in lookup
  complete-dull q p f [] all h = refl
  complete-dull q p f ((path, g) ∷ files) all h =
      let rest = complete-dull q p f files all h in
      elim (Bool-cases (path.parent == d && is_backup_name path.name)) [
        | inl y ↦
            let differs = dull_differs p path.name h (ground arith) in
            rw (y, differs)
              (elim (Bool-cases (
                is_free
                  (lookup (checksum_path_for (record { parent = d; name = path.name })) all))) [
                    | inl a ↦ rw a rest
                    | inr b ↦ rw b (ap (λ x. (if q path.name then 1 else 0) + x) rest)
                  ])
        | inr n ↦ rw n rest
      ]

  pub listed-cons :
      (q : Text → Bool) (p : FilePath) (f : File) (files : List (FilePath × File))
      → begins b'g' p.name ≡ false
      → count_if q (listed d ((p, f) ∷ files)) ≡ count_if q (listed d files)
  unfolding names_in
  listed-cons q p f files h =
      rw (g_named p.name h, and_false (p.parent == d)) (complete-dull q p f files files h)

  listed-put :
      (q : Text → Bool) (p : FilePath) (f : File) (files : List (FilePath × File))
      → begins b'g' p.name ≡ false
      → count_if q (listed d (put p f files)) ≤ count_if q (listed d files)
  listed-put q p f files h =
      let e = listed-cons q p f (remove p files) h in
      let l = listed-remove d q p files in omega arith

  -- `t` lists no more names than `s`.
  pub record Less (s t : Disk) : Type 0 where
    pub same_dirs : t.dirs ≡ s.dirs
    pub fewer : (q : Text → Bool) → count_if q (listed d t.files) ≤ count_if q (listed d s.files)

  pub Less-same : (s t : Disk) → t.files ≡ s.files → t.dirs ≡ s.dirs → Less s t
  Less-same s t e g = record {
    same_dirs = g;
    fewer = λ q. let x = ap (λ files. count_if q (listed d files)) e in omega arith;
  }

  pub Less-then : (s t u : Disk) → Less s t → Less t u → Less s u
  Less-then s t u a b = record {
    same_dirs = b.same_dirs ∙ a.same_dirs;
    fewer = λ q. let x = a.fewer q in let y = b.fewer q in omega arith;
  }

  -- A call that may fail before the rest.
  pub syscall-Less :
      {A : Type 0} (k : Exec Disk A) (s : Disk) (Q : A → Disk → Type 0)
      → ((t : Disk) → Less s t → Post k t Q Whatever)
      → Post (syscall >> k) s Q Whatever
  syscall-Less k s Q h = syscall-Post k s Q Whatever (λ t e. tt) (λ t e g. h t (Less-same s t e g))

  change-Less :
      (p : FilePath) (f : File → File) (o : Option File) (s t : Disk)
      → begins b'g' p.name ≡ false
      → Less s t
      → Post (change p f o) t (λ _ u. Less s u) Whatever
  change-Less p f none s t h l = tt
  change-Less p f (some file) s t h l =
      Less-then s t _ l
        (record { same_dirs = refl; fewer = λ q. listed-put q p (f file) t.files h })

  pub alter-Less :
      (p : FilePath) (f : File → File) (s t : Disk)
      → begins b'g' p.name ≡ false
      → Less s t
      → Post (alter p f) t (λ _ u. Less s u) Whatever
  unfolding alter
  alter-Less p f s t h l =
      syscall-Less _ t _ (λ u m. change-Less p f (lookup p u.files) s u h (Less-then s t u l m))

  replace_with-Less :
      (p target : FilePath) (o : Option File) (s t : Disk)
      → begins b'g' target.name ≡ false
      → Less s t
      → Post (replace_with p target o) t (λ _ u. Less s u) Whatever
  replace_with-Less p target none s t h l = tt
  replace_with-Less p target (some f) s t h l = Less-then s t _ l (record {
    same_dirs = refl;
    fewer = λ q.
        let a = listed-put q target f (remove p t.files) h in
        let b = listed-remove d q p t.files in omega arith;
  })

  pub replace-Less :
      (p target : FilePath) (s t : Disk)
      → begins b'g' target.name ≡ false
      → Less s t
      → Post (replace p target) t (λ _ u. Less s u) Whatever
  unfolding replace
  replace-Less p target s t h l =
      syscall-Less _ t _
        (λ u m. replace_with-Less p target (lookup p u.files) s u h (Less-then s t u l m))

  read_over :
      {A : Type 0} (o : Option A) (s t : Disk)
      → Less s t
      → Split (λ (_ : A) u. Less s u) Whatever (or_missing o) t
  read_over none s t l = tt
  read_over (some a) s t l = l

  pub read_file-Less :
      (p : FilePath) (s t : Disk) → Less s t → Post (read_file p) t (λ _ u. Less s u) Whatever
  unfolding read_file
  read_file-Less p s t l =
      syscall-Less _ t _ (λ u m. read_over (lookup p u.files) s u (Less-then s t u l m))

  pub stat_dir-Less :
      (e : Text) (s t : Disk) → Less s t → Post (stat_dir e) t (λ _ u. Less s u) Whatever
  unfolding stat_dir
  stat_dir-Less e s t l =
      syscall-Less _ t _ (λ u m. read_over (dir_gid e u.dirs) s u (Less-then s t u l m))
