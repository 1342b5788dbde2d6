-- ===== src/Controller/Backup/Restore.antt =====
-- `restore_backup` on every disk, with every pattern of failing calls.
use nexguard_sentinel.Prelude.{ℕ, true, not, Option, some, nats_eq, ◌≡◌, refl, ap, ◌∙◌, arith}
use nexguard_sentinel.Python.Exec.{
  Exception, Result, ok, err, value_error, Exec, ◌>>=◌, ◌>>◌, on_error, refuse_if,
}
use nexguard_sentinel.Python.Text.{Text, codes}
use nexguard_sentinel.Disk.{
  Bytes, FilePath, File, Disk, lookup, read_file, make_dir, mkstemp, unlink, write, fsync, chmod,
  chown, replace,
}
use nexguard_sentinel.Disk.Post.{
  Split, Post, Post-then, Post-bind, Post-weaken, on_error-Post, refuse_if-Post, syscall-Post,
}
use nexguard_sentinel.Disk.Calls.{
  Holds, SameFiles, read_file-Post, make_dir-Post, unlink-Post, alter-Post, replace-Post,
}
use nexguard_sentinel.Disk.Temporary.{Made, mkstemp-Post}
use nexguard_sentinel.Controller.Backup.{
  temp_stem, verify_backup, target_attributes, fill_and_replace, restore_backup,
}
use nexguard_sentinel.Controller.Backup.Attributes.{
  temp-differs, Attributes, Chosen, attributes-Post,
}
use nexguard_sentinel.Controller.Backup.Verified.{Verified, verify_backup-Post}

module _ (sha256 : Bytes → Text) (config : FilePath) (s : Disk) where
  abbrev old : Option File
  old = lookup config s.files

  abbrev Kept : Disk → Type 0
  Kept = Holds config old

  abbrev written : Bytes → ℕ → ℕ → File
  written contents mode gid = record { contents = contents; mode = mode; gid = gid }

  module _ (p : FilePath) (contents : Bytes) (mode gid : ℕ) where
    abbrev Filled : Unit {0} → Disk → Type 0
    Filled _ = Holds config (some (written contents mode gid))

    -- The temporary file, and the configuration as it was.
    abbrev Beside : File → Unit {0} → Disk → Type 0
    Beside f _ t = (lookup p t.files ≡ some f) × Kept t

    fill_and_replace-Post :
        (t : Disk)
        → Made config old (temp_stem config) (codes ".tmp") (temp-differs config) p t
        → Post (fill_and_replace sha256 p config contents mode gid) t Filled Kept
    unfolding fill_and_replace
    fill_and_replace-Post t m =
        Post-bind (Beside (record m.file { contents = contents })) Filled Kept (write p contents)
          (λ _. fsync >> (chmod p mode >> (chown p gid >> replace p config))) t
          (alter-Post config old p m.differs _ m.file t m.there m.holds)
          (λ _ u h.
            syscall-Post (chmod p mode >> (chown p gid >> replace p config)) u Filled Kept
              (λ v e. ap (lookup config) e ∙ h.1)
              (λ v e _.
                Post-bind (Beside (record m.file { contents = contents; mode = mode })) Filled Kept
                  (chmod p mode) (λ _. chown p gid >> replace p config) v
                  (alter-Post config old p m.differs _ _ v (ap (lookup p) e ∙ h.0)
                    (ap (lookup config) e ∙ h.1))
                  (λ _ w i.
                    Post-bind (Beside (written contents mode gid)) Filled Kept (chown p gid)
                      (λ _. replace p config) w (alter-Post config old p m.differs _ _ w i.0 i.1)
                      (λ _ x j.
                        replace-Post config old p m.differs (written contents mode gid) x j.0
                          j.1))))

  module _ (backup : FilePath) where
    -- What the restoration puts at the configuration's path.
    pub record Restored (t : Disk) : Type 0 where
      pub verified : Verified sha256 backup s.files
      pub mode : ℕ
      pub gid : ℕ
      pub attributes : Attributes old (mode, gid)
      pub now_there : lookup config t.files ≡ some (written verified.file.contents mode gid)

    abbrev Done : Unit {0} → Disk → Type 0
    Done _ = Restored

    module _ (f : File) (a : ℕ × ℕ) where
      abbrev fill_temp : FilePath → Exec Disk (Unit {0})
      fill_temp p = on_error (fill_and_replace sha256 p config f.contents a.0 a.1) (unlink p)

      abbrev IsMade : FilePath → Disk → Type 0
      IsMade = Made config old (temp_stem config) (codes ".tmp") (temp-differs config)

      -- The temporary file is filled and replaces the configuration, or it is removed.
      fill_temp-Post :
          (p : FilePath) (u : Disk)
          → Verified sha256 backup s.files
          → lookup backup s.files ≡ some f
          → Attributes old a
          → IsMade p u
          → Post (fill_temp p) u Done Kept
      fill_temp-Post p u v l c m =
          on_error-Post Done Kept Kept (fill_and_replace sha256 p config f.contents a.0 a.1)
            (unlink p) u
            (Post-then (Filled p f.contents a.0 a.1) Done Kept
              (fill_and_replace sha256 p config f.contents a.0 a.1) u
              (fill_and_replace-Post p f.contents a.0 a.1 u m)
              (λ _ t h. record {
                verified = v;
                mode = a.0;
                gid = a.1;
                attributes = c;
                now_there = h ∙ same_contents v l;
              }))
            (λ w h. unlink-Post config old p m.differs w h)
        where
          same_contents :
              (v : Verified sha256 backup s.files)
              → lookup backup s.files ≡ some f
              → some (written f.contents a.0 a.1) ≡ some (written v.file.contents a.0 a.1)
          same_contents v l =
              let there = v.there in
              let e : f ≡ v.file = ground arith in
              ap (λ (g : File). some (written g.contents a.0 a.1)) e

      replace_by-Post :
          (t : Disk)
          → Verified sha256 backup s.files
          → lookup backup s.files ≡ some f
          → Chosen sha256 config s old a t
          → Post (mkstemp (temp_stem config) (codes ".tmp") >>= fill_temp) t Done Kept
      replace_by-Post t v l c =
          Post-bind IsMade Done Kept (mkstemp (temp_stem config) (codes ".tmp")) fill_temp t
            (mkstemp-Post config old (temp_stem config) (codes ".tmp") (temp-differs config) t
              (ap (lookup config) c.0))
            (λ p u m. fill_temp-Post p u v l c.1 m)

    unsame : (t : Disk) → SameFiles s t → Kept t
    unsame t same = ap (lookup config) same

    abbrev after_read : File → Exec Disk (Unit {0})
    after_read f =
        make_dir config.parent
        >> (target_attributes sha256 config >>= λ a.
            mkstemp (temp_stem config) (codes ".tmp") >>= fill_temp f a)

    after_read-Post :
        (f : File) (t : Disk)
        → Verified sha256 backup s.files
        → lookup backup s.files ≡ some f
        → SameFiles s t
        → Post (after_read f) t Done Kept
    after_read-Post f t v l same =
        Post-bind (λ _. SameFiles s) Done Kept (make_dir config.parent)
          (λ _. target_attributes sha256 config >>= λ a.
            mkstemp (temp_stem config) (codes ".tmp") >>= fill_temp f a)
          t
          (Post-weaken (λ _. SameFiles s) (SameFiles s) Kept (make_dir config.parent) t
            (make_dir-Post s t same config.parent) unsame)
          (λ _ u e.
            Post-bind (Chosen sha256 config s old) Done Kept (target_attributes sha256 config)
              (λ a. mkstemp (temp_stem config) (codes ".tmp") >>= fill_temp f a) u
              (Post-weaken (Chosen sha256 config s old) (SameFiles s) Kept
                (target_attributes sha256 config) u (attributes-Post sha256 config s old u refl e)
                unsame)
              (λ a w c. replace_by-Post f a w v l c))

    restore_backup-Post : Post (restore_backup sha256 backup config) s Done Kept
    unfolding restore_backup
    restore_backup-Post =
        Post-bind (λ b t. SameFiles s t × (b ≡ true → Verified sha256 backup s.files)) Done Kept
          (verify_backup sha256 backup)
          (λ valid.
            refuse_if (not valid) (value_error "backup_checksum_invalid")
            >> (read_file backup >>= after_read))
          s
          (Post-weaken _ (SameFiles s) Kept (verify_backup sha256 backup) s
            (verify_backup-Post sha256 backup s s refl) unsame)
          (λ valid t h.
            refuse_if-Post (not valid) (value_error "backup_checksum_invalid")
              (read_file backup >>= after_read) t Done Kept (unsame t h.0)
              (λ is_valid.
                Post-bind (λ f u. (lookup backup s.files ≡ some f) × SameFiles s u) Done Kept
                  (read_file backup) after_read t
                  (Post-weaken _ (SameFiles s) Kept (read_file backup) t
                    (read_file-Post s t h.0 backup) unsame)
                  (λ f u i. after_read-Post f u (h.1 (ground arith)) i.0 i.1)))

    -- What a restoration may come to.
    pub data Restoration (r : Result (Unit {0})) (t : Disk) : Type 0 where
      done : r ≡ ok tt → Restored t → Restoration r t
      undone : (e : Exception) → r ≡ err e → lookup config t.files ≡ old → Restoration r t

    Restoration-of_Split :
        (r : Result (Unit {0})) (t : Disk) → Split Done Kept r t → Restoration r t
    Restoration-of_Split (ok _) t h = done refl h
    Restoration-of_Split (err e) t h = undone e refl h

-- On every disk and whichever calls fail, `restore_backup` is atomic for the configuration. Either
-- it returns: then the backup's checksum file held the digest of the backup, and the configuration
-- has the contents of the backup, with the mode and the group of the file it replaces, or with the
-- mode 0o664 if there was none. Or it raises, and the configuration is as it was.
pub restore_backup-Restoration :
    (sha256 : Bytes → Text) (config : FilePath) (s : Disk) (backup : FilePath)
    → Restoration sha256 config s backup
        (restore_backup sha256 backup config s).0
        (restore_backup sha256 backup config s).1
restore_backup-Restoration sha256 config s backup =
    Restoration-of_Split sha256 config s backup _ _ (restore_backup-Post sha256 config s backup)
