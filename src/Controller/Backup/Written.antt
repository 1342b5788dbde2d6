-- ===== src/Controller/Backup/Written.antt =====
-- What `_write_backup_pair` leaves, if it returns: a backup and its checksum file.
pub mod Reread
use nexguard_sentinel.Prelude.{
  ℕ, ◌<◌, Bool, true, false, Option, none, some, List, [], ◌∷◌, ◌++◌, length, ◌==◌, nat_eq, nats_eq,
  ◌≡◌, sym, ap, ◌∙◌, arith, Bool-cases, inl, inr,
}
use nexguard_sentinel.Python.Exec.{Result, ok, err, ◌>>◌}
use nexguard_sentinel.Python.Text.{Text, codes}
use nexguard_sentinel.Disk.{
  Bytes, FilePath, File, Disk, same_path, lookup, remove, replace, replace_with, read_file, syscall,
}
use nexguard_sentinel.Disk.Laws.{lookup-remove, lookup-put}
use nexguard_sentinel.Disk.Post.{Split, Post, Post-then, Post-bind, on_error-Post, syscall-Post}
use nexguard_sentinel.Disk.Calls.{SameFiles}
use nexguard_sentinel.Controller.Backup.{
  checksum_path_for, temp_stem, is_backup_name, has_prefix, verify_backup, read_pair,
}
use nexguard_sentinel.Controller.Backup.Create.{write_temp_file, replace_pair, write_backup_pair}
use nexguard_sentinel.Controller.Backup.Fresh.{Whatever, anyhow, Temp, write_temp_file-Temp}
use nexguard_sentinel.Controller.Backup.Digest.{IsHexdigest, ascii_line, strip_line, matches_digest}

-- The name of a backup does not begin with a dot, which the name of a temporary file does.
abbrev pub begins : ℕ → Text → Bool
begins c [] = false
begins c (d ∷ s) = c == d

pub temp-differs :
    (target q : FilePath) (contents : Bytes) (s t : Disk) (p : FilePath)
    → begins b'.' q.name ≡ false
    → Temp (temp_stem target) contents s p t
    → same_path p q ≡ false
temp-differs target q contents s t p h m = elim (Bool-cases (p.name == q.name)) [
  | inl y ↦
      let e : p.name ≡ q.name = ground arith in
      absurd (dotted target.name m.token m.suffix q.name (sym m.named ∙ e) h)
  | inr n ↦ rw n (ground arith)
]
  where
    dotted :
        (n token suffix q : Text)
        → b'.' ∷ (n ++ codes ".") ++ token ++ suffix ≡ q
        → begins b'.' q ≡ false
        → ⊥
    dotted n token suffix q e h = let f : begins b'.' q ≡ true = rw (← e) (ground arith) in cc

-- What a replacement leaves, if it returns.
pub record Moved (source target : FilePath) (f : File) (t u : Disk) : Type 0 where
  pub there : lookup target u.files ≡ some f
  pub others :
      (q : FilePath)
      → same_path target q ≡ false
      → same_path source q ≡ false
      → lookup q u.files ≡ lookup q t.files

module _ (source target : FilePath) (f : File) (t : Disk) where
  replace_with-Moved :
      (o : Option File) (u : Disk)
      → o ≡ some f
      → SameFiles t u
      → Post (replace_with source target o) u (λ _ v. Moved source target f t v) Whatever
  replace_with-Moved none u e same = tt
  replace_with-Moved (some g) u e same = record {
    there = lookup-put target target g (remove source u.files) ∙ ground arith;
    others = λ q a b.
        lookup-put target q g (remove source u.files)
        ∙ rw a (lookup-remove source q u.files ∙ rw b (ap (lookup q) same));
  }

  pub replace-Moved :
      lookup source t.files ≡ some f
      → Post (replace source target) t (λ _ v. Moved source target f t v) Whatever
  unfolding replace
  replace-Moved there =
      syscall-Post (λ u. replace_with source target (lookup source u.files) u) t _ Whatever
        (λ u e. tt)
        (λ u e _. replace_with-Moved (lookup source u.files) u (ap (lookup source) e ∙ there) e)

-- The backup and its checksum file are there, with these contents.
pub record Pair (backup : FilePath) (contents checksum : Bytes) (t : Disk) : Type 0 where
  pub file : File
  pub file_there : lookup backup t.files ≡ some file
  pub file_holds : file.contents ≡ contents
  pub sum : File
  pub sum_there : lookup (checksum_path_for backup) t.files ≡ some sum
  pub sum_holds : sum.contents ≡ checksum

longer : (n : Text) → length n < length (n ++ codes ".sha256")
longer [] = ground arith
longer (c ∷ n) = let h = longer n in ground arith

same_path_sym : (p q : FilePath) → same_path p q ≡ false → same_path q p ≡ false
same_path_sym p q h = ground arith

checksum-differs : (p : FilePath) → same_path p (checksum_path_for p) ≡ false
unfolding checksum_path_for
checksum-differs p = elim (Bool-cases (p.name == p.name ++ codes ".sha256")) [
  | inl y ↦
      let e : p.name ≡ p.name ++ codes ".sha256" = ground arith in
      let l = ap length e in let m = longer p.name in absurd (omega arith)
  | inr n ↦ rw n (ground arith)
]

fresh-differs :
    (p q : FilePath) (f : File) (files : List (FilePath × File))
    → lookup p files ≡ none
    → lookup q files ≡ some f
    → same_path p q ≡ false
fresh-differs p q f files a b = elim (Bool-cases (same_path p q)) [
  | inl y ↦
      let parent : p.parent ≡ q.parent = ground arith in
      let name : p.name ≡ q.name = ground arith in
      let e : p ≡ q = cc in
      let c : none ≡ some f = sym a ∙ ap (λ x. lookup x files) e ∙ b in absurd cc
  | inr n ↦ n
]

-- Neither the name of a backup nor that of its checksum file begins with a dot.
pub undotted :
    (n : Text)
    → is_backup_name n ≡ true
    → (begins b'.' n ≡ false) × (begins b'.' (n ++ codes ".sha256") ≡ false)
unfolding is_backup_name has_prefix
undotted [] h = absurd (ground arith)
undotted (c ∷ n) h = (ground arith, ground arith)

module _ (backup : FilePath) (contents checksum : Bytes) (plain : begins b'.' backup.name ≡ false)
    (plain_sum : begins b'.' (checksum_path_for backup).name ≡ false) where
  abbrev pub cs : FilePath
  cs = checksum_path_for backup

  abbrev pub IsPair : Unit {0} → Disk → Type 0
  IsPair _ = Pair backup contents checksum

  module _ (b c : FilePath) (s t u : Disk) (m : Temp (temp_stem backup) contents s b t)
      (n : Temp (temp_stem cs) checksum t c u) where
    c-differs : same_path c b ≡ false
    c-differs = fresh-differs c b m.has.file t.files n.fresh m.has.there

    after_both :
        (v w : Disk)
        → Moved c cs n.has.file u v
        → Moved b backup m.has.file v w
        → Pair backup contents checksum w
    after_both v w x y = record {
      file = m.has.file;
      file_there = y.there;
      file_holds = m.has.holds;
      sum = n.has.file;
      sum_there =
          y.others cs (checksum-differs backup) (temp-differs backup cs contents s t b plain_sum m)
          ∙ x.there;
      sum_holds = n.has.holds;
    }

    -- The temporary file of the backup is still there after the first replacement.
    backup_waits : (v : Disk) → Moved c cs n.has.file u v → lookup b v.files ≡ some m.has.file
    backup_waits v x =
        x.others b (same_path_sym b cs (temp-differs backup cs contents s t b plain_sum m))
          c-differs
        ∙ n.has.others b c-differs
        ∙ m.has.there

    replace_pair-Pair : Post (replace_pair backup b c) u IsPair Whatever
    unfolding replace_pair
    replace_pair-Pair =
        on_error-Post IsPair Whatever Whatever (replace c cs >> replace b backup) _ u
          (Post-bind (λ _ v. Moved c cs n.has.file u v) IsPair Whatever (replace c cs) _ u
            (replace-Moved c cs n.has.file u n.has.there)
            (λ _ v x.
              Post-then (λ _ w. Moved b backup m.has.file v w) IsPair Whatever (replace b backup) v
                (replace-Moved b backup m.has.file v (backup_waits v x))
                (λ _ w y. after_both v w x y)))
          (λ v _. anyhow _ _)

  pub write_backup_pair-Pair :
      (s : Disk) → Post (write_backup_pair backup contents checksum) s IsPair Whatever
  unfolding write_backup_pair
  write_backup_pair-Pair s =
      Post-bind (λ b t. Temp (temp_stem backup) contents s b t) IsPair Whatever
        (write_temp_file backup contents) _ s (write_temp_file-Temp backup contents s)
        (λ b t m.
          Post-bind (λ c u. Temp (temp_stem cs) checksum t c u) IsPair Whatever
            (write_temp_file cs checksum) _ t (write_temp_file-Temp cs checksum t)
            (λ c u n. replace_pair-Pair b c s t u m n))
