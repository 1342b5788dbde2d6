-- ===== src/Controller/Backup/Fresh.antt =====
-- What `write_temp_file` leaves, if it returns: a new file with its contents, beside the others.
use nexguard_sentinel.Prelude.{
  false, Option, none, some, List, [], ◌∷◌, ◌++◌, nat_eq, nats_eq, ◌≡◌, refl, sym, ap, ◌∙◌, arith,
  Bool-cases, Option-cases, inl, inr,
}
use nexguard_sentinel.Python.Exec.{Result, ok, err, pure, on_error}
use nexguard_sentinel.Python.Text.{Text, codes}
use nexguard_sentinel.Disk.{
  Bytes, FilePath, File, Disk, same_path, lookup, mkstemp, dir_gid, has_dir, pick, create_picked,
  alter, change, write, chmod, stat_dir, unlink,
}
use nexguard_sentinel.Disk.Laws.{lookup-put}
use nexguard_sentinel.Disk.Post.{
  Split, Post, Post-then, Post-bind, Post-weaken, on_error-Post, syscall-Post,
}
use nexguard_sentinel.Disk.Calls.{SameFiles, stat_dir-Post}
use nexguard_sentinel.Controller.Backup.{temp_stem}
use nexguard_sentinel.Controller.Backup.Create.{fill_temp_file, write_temp_file}

-- Nothing is said of a method that raises.
abbrev pub Whatever : Disk → Type 0
Whatever _ = Unit

pub anyhow : {A : Type 0} (r : Result A) (t : Disk) → Split {A = A} (λ _ _. Unit {0}) Whatever r t
anyhow (ok a) t = tt
anyhow (err e) t = tt

-- The file at `p` has these contents, and the other files are those of `s`.
pub record Has (p : FilePath) (contents : Bytes) (s t : Disk) : Type 0 where
  pub file : File
  pub there : lookup p t.files ≡ some file
  pub holds : file.contents ≡ contents
  pub others : (q : FilePath) → same_path p q ≡ false → lookup q t.files ≡ lookup q s.files

Has-same :
    (p : FilePath) (contents : Bytes) (s t u : Disk)
    → u.files ≡ t.files
    → Has p contents s t
    → Has p contents s u
Has-same p contents s t u e h = record {
  file = h.file;
  there = ap (lookup p) e ∙ h.there;
  holds = h.holds;
  others = λ q d. ap (lookup q) e ∙ h.others q d;
}

module _ (p : FilePath) (old new : Bytes) (f : File → File) (s : Disk)
    (changes : (file : File) → file.contents ≡ old → (f file).contents ≡ new) where
  change-Has :
      (o : Option File) (t : Disk)
      → lookup p t.files ≡ o
      → Has p old s t
      → Post (change p f o) t (λ _ u. Has p new s u) Whatever
  change-Has none t e h = tt
  change-Has (some file) t e h = record {
    file = f file;
    there = lookup-put p p (f file) t.files ∙ ground arith;
    holds = changes file (let a = h.there in let b = h.holds in ground arith);
    others = λ q d. lookup-put p q (f file) t.files ∙ rw d (h.others q d);
  }

  alter-Has : (t : Disk) → Has p old s t → Post (alter p f) t (λ _ u. Has p new s u) Whatever
  unfolding alter
  alter-Has t h =
      syscall-Post (λ u. change p f (lookup p u.files) u) t (λ _ u. Has p new s u) Whatever
        (λ u e. tt) (λ u e _. change-Has (lookup p u.files) u refl (Has-same p old s t u e h))

module _ (p target : FilePath) (contents : Bytes) (s : Disk) where
  -- The writes to the temporary file.
  fill_temp_file-Has :
      (old : Bytes) (t : Disk)
      → Has p old s t
      → Post (fill_temp_file p target contents) t (λ _ u. Has p contents s u) Whatever
  unfolding fill_temp_file
  fill_temp_file-Has old t h =
      Post-bind (λ _ u. Has p contents s u) _ Whatever (write p contents) _ t
        (alter-Has p old contents (λ f. record f { contents = contents }) s (λ _ _. refl) t h)
        (λ _ u i.
          syscall-Post _ u _ Whatever (λ v e. tt)
            (λ v e _.
              Post-bind (λ _ w. Has p contents s w) _ Whatever (chmod p 0o640) _ v
                (alter-Has p contents contents (λ f. record f { mode = 0o640 }) s (λ _ e. e) v
                  (Has-same p contents s u v e i))
                (λ _ w j.
                  Post-bind (λ _ x. SameFiles w x) _ Whatever (stat_dir target.parent) _ w
                    (Post-weaken (λ _. SameFiles w) (SameFiles w) Whatever (stat_dir target.parent)
                      w (stat_dir-Post w w refl target.parent) (λ _ _. tt))
                    (λ gid x k.
                      alter-Has p contents contents (λ f. record f { gid = gid }) s (λ _ e. e) x
                        (Has-same p contents s w x k j)))))

-- A temporary file that was made: it is a new one.
pub record Temp (stem : FilePath) (contents : Bytes) (s : Disk) (p : FilePath) (t : Disk)
    : Type 0 where
  pub fresh : lookup p s.files ≡ none
  pub token : Text
  pub suffix : Text
  pub named : p.name ≡ stem.name ++ token ++ suffix
  pub has : Has p contents s t

abbrev path_or : FilePath → Option (FilePath × List Text) → FilePath
path_or q none = q
path_or q (some (p, _)) = p

pub pick-fresh :
    (stem : FilePath) (suffix : Text) (tokens : List Text) (files : List (FilePath × File))
    (p : FilePath) (left : List Text)
    → pick stem suffix tokens files ≡ some (p, left)
    → (lookup p files ≡ none) × ((token : Text) × (p.name ≡ stem.name ++ token ++ suffix))
unfolding pick
pick-fresh stem suffix [] files p left e = absurd (ground arith)
pick-fresh stem suffix (t ∷ tokens) files p left e =
    let q : FilePath = record { parent = stem.parent; name = stem.name ++ t ++ suffix } in
    elim (Option-cases (lookup q files)) [
      | inl free ↦
          let found : some (q, tokens) ≡ some (p, left) = rw free at e in
          let same : q ≡ p = ap (λ (o : Option (FilePath × List Text)). path_or q o) found in
          (rw (← same) free, (t, ap (λ (x : FilePath). x.name) (sym same)))
      | inr (f, taken) ↦ pick-fresh stem suffix tokens files p left (rw taken at e)
    ]

module _ (stem : FilePath) (suffix : Text) (s : Disk) where
  create_picked-Temp :
      (o : Option (FilePath × List Text)) (t : Disk)
      → ((p : FilePath) (left : List Text)
          → o ≡ some (p, left)
          → (lookup p t.files ≡ none) × ((token : Text) × (p.name ≡ stem.name ++ token ++ suffix)))
      → SameFiles s t
      → Post (create_picked o) t (λ p u. Temp stem [] s p u) Whatever
  unfolding lookup
  create_picked-Temp none t i e = tt
  create_picked-Temp (some (p, left)) t i e =
      let (free, (token, named)) = i p left refl in
      record {
        fresh = ap (lookup p) (sym e) ∙ free;
        token = token;
        suffix = suffix;
        named = named;
        has = record {
          file = record { contents = []; mode = 0o600; gid = t.group };
          there = ground arith;
          holds = refl;
          others = λ q d. rw d (ap (lookup q) e);
        };
      }

  mkstemp-Temp :
      (t : Disk) → SameFiles s t → Post (mkstemp stem suffix) t (λ p u. Temp stem [] s p u) Whatever
  unfolding mkstemp
  mkstemp-Temp t same =
      syscall-Post _ t (λ p u. Temp stem [] s p u) Whatever (λ u e. tt)
        (λ u e _. elim (Bool-cases (has_dir (dir_gid stem.parent u.dirs))) [
          | inl y ↦ rw y (
              create_picked-Temp (pick stem suffix u.tokens u.files) u
                (pick-fresh stem suffix u.tokens u.files) (e ∙ same))
          | inr n ↦ rw n tt
        ])

-- The temporary file has its contents.
pub write_temp_file-Temp :
    (target : FilePath) (contents : Bytes) (s : Disk)
    → Post
        (write_temp_file target contents)
        s
        (λ p t. Temp (temp_stem target) contents s p t)
        Whatever
unfolding write_temp_file
write_temp_file-Temp target contents s =
    Post-bind (λ p t. Temp (temp_stem target) [] s p t) _ Whatever
      (mkstemp (temp_stem target) (codes ".tmp")) _ s
      (mkstemp-Temp (temp_stem target) (codes ".tmp") s s refl)
      (λ p t m.
        Post-bind (λ _ u. Temp (temp_stem target) contents s p u) _ Whatever
          (on_error (fill_temp_file p target contents) (unlink p)) (λ _. pure p) t
          (on_error-Post _ Whatever Whatever (fill_temp_file p target contents) (unlink p) t
            (Post-then (λ _ u. Has p contents s u) _ Whatever (fill_temp_file p target contents) t
              (fill_temp_file-Has p target contents s [] t m.has)
              (λ _ u h. record {
                fresh = m.fresh;
                token = m.token;
                suffix = m.suffix;
                named = m.named;
                has = h;
              }))
            (λ u _. anyhow _ _))
          (λ _ u h. h))
