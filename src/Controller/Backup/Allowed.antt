-- ===== src/Controller/Backup/Allowed.antt =====
-- When `create_backup` writes anything.
use nexguard_sentinel.Prelude.{
  String, Bool, true, false, not, Option, none, some, ℤ, ◌≡◌, refl, arith, ◌⊎◌, inl, inr,
}
use nexguard_sentinel.Python.Exec.{
  Exception, Result, ok, err, value_error, library_error, Exec, ◌>>=◌, ◌>>◌, pure, raise, lift,
  handle, refuse_if, is_read_error,
}
use nexguard_sentinel.Python.Text.{Text}
use nexguard_sentinel.Disk.{Bytes, FilePath, File, Disk, lookup, read_file}
use nexguard_sentinel.Disk.Post.{Split, Post, Post-bind, Post-weaken, handle-Post, refuse_if-Post}
use nexguard_sentinel.Disk.Calls.{SameFiles, read_file-Post}
use nexguard_sentinel.Controller.Config.{Libraries, check_config_text}
use nexguard_sentinel.Controller.Backup.{decoded}
use nexguard_sentinel.Controller.Backup.Create.{Manifest, read_source, is_below_one, create_backup}

module _ (manifest_json : Manifest → Bytes) (sha256 : Bytes → Text) (L : Libraries)
    (config : FilePath) (d : Text) (gateway_healthy : Bool) (timestamp generated_at : Text)
    (retention : ℤ) (s : Disk) where
  -- The gateway is healthy, the retention is at least one, and the configuration is a readable text
  -- that passes the check.
  pub record Allowed : Type 0 where
    pub healthy : gateway_healthy ≡ true
    pub retains : is_below_one retention ≡ false
    pub file : File
    pub there : lookup config s.files ≡ some file
    pub text : Text
    pub is_utf8 : L.utf8 file.contents ≡ some text
    pub reason : String
    pub checked : check_config_text L text ≡ ok (true, reason)

  abbrev Stopped : Disk → Type 0
  Stopped t = SameFiles s t ⊎ Allowed

  Split-allowed :
      {A : Type 0} (r : Result A) (u : Disk) → Allowed → Split (λ (_ : A) _. Allowed) Stopped r u
  Split-allowed (ok _) u a = a
  Split-allowed (err e) u a = inr a

  -- The source that was read.
  abbrev IsSource : Bytes × Text → Disk → Type 0
  IsSource x t =
      SameFiles s t
      × ((f : File) × (lookup config s.files ≡ some f) × (L.utf8 f.contents ≡ some x.1))

  abbrev decode : File → Exec Disk (Bytes × Text)
  decode f = lift (decoded (L.utf8 f.contents)) >>= λ text. pure (f.contents, text)

  decode-Post :
      (f : File) (o : Option Text) (t : Disk)
      → lookup config s.files ≡ some f
      → L.utf8 f.contents ≡ o
      → SameFiles s t
      → Post (lift (decoded o) >>= λ text. pure (f.contents, text)) t IsSource (SameFiles s)
  decode-Post f none t l e same = same
  decode-Post f (some x) t l e same = (same, (f, l, e))

  abbrev source : Exec Disk (Bytes × Text)
  source =
      handle (read_source manifest_json sha256 L config) is_read_error
        (λ _. raise (library_error "BackupValidationError"))

  source-Post : Post source s IsSource (SameFiles s)
  source-Post =
      handle-Post IsSource (SameFiles s) (SameFiles s) (read_source manifest_json sha256 L config)
        is_read_error (λ _. raise (library_error "BackupValidationError")) s
        (Post-bind (λ f u. (lookup config s.files ≡ some f) × SameFiles s u) IsSource (SameFiles s)
          (read_file config) decode s (read_file-Post s s refl config)
          (λ f t h. decode-Post f (L.utf8 f.contents) t h.0 refl h.1))
        (λ t e. e) (λ x t e. e)

  -- The rest of the method, once the configuration has been read.
  module _ (rest : Bytes × Text → Exec Disk FilePath) where
    abbrev checking : Bytes × Text → Exec Disk FilePath
    checking x = lift (check_config_text L x.1) >>= λ valid.
        refuse_if (not valid.0) (library_error "BackupValidationError") >> rest x

    checked-Post :
        (x : Bytes × Text) (r : Result (Bool × String)) (t : Disk)
        → gateway_healthy ≡ true
        → is_below_one retention ≡ false
        → check_config_text L x.1 ≡ r
        → IsSource x t
        → Post
            (lift r >>= λ valid.
              refuse_if (not valid.0) (library_error "BackupValidationError") >> rest x)
            t
            (λ _ _. Allowed)
            Stopped
    checked-Post x (err e) t healthy retains c h = inl h.0
    checked-Post x (ok (false, reason)) t healthy retains c h = inl h.0
    checked-Post x (ok (true, reason)) t healthy retains c (same, (f, l, u)) =
        Split-allowed (rest x t).0 (rest x t).1 (record {
          healthy = healthy;
          retains = retains;
          file = f;
          there = l;
          text = x.1;
          is_utf8 = u;
          reason = reason;
          checked = c;
        })

    guarded-Post :
        Post
          (refuse_if (not gateway_healthy) (library_error "BackupStateError")
            >> (refuse_if
                  (is_below_one retention)
                  (value_error "retention_count must be at least 1")
                >> (source >>= checking)))
          s
          (λ _ _. Allowed)
          Stopped
    guarded-Post =
        refuse_if-Post (not gateway_healthy) (library_error "BackupStateError") _ s (λ _ _. Allowed)
          Stopped (inl refl)
          (λ healthy.
            refuse_if-Post (is_below_one retention)
              (value_error "retention_count must be at least 1") (source >>= checking) s
              (λ _ _. Allowed) Stopped (inl refl)
              (λ retains.
                Post-bind IsSource (λ _ _. Allowed) Stopped source checking s
                  (Post-weaken IsSource (SameFiles s) Stopped source s source-Post (λ t e. inl e))
                  (λ x t h.
                    checked-Post x (check_config_text L x.1) t (ground arith) retains refl h)))

  abbrev created : Exec Disk FilePath
  created =
      create_backup manifest_json sha256 L config d gateway_healthy timestamp generated_at retention

  create_backup-Post : Post created s (λ _ _. Allowed) Stopped
  unfolding create_backup
  create_backup-Post = guarded-Post _

  cases-of_Split :
      (r : Result FilePath) (t : Disk)
      → Split (λ (_ : FilePath) _. Allowed) Stopped r t
      → (((e : Exception) × (r ≡ err e)) × SameFiles s t) ⊎ Allowed
  cases-of_Split (ok p) t h = inr h
  cases-of_Split (err e) t (inl same) = inl ((e, refl), same)
  cases-of_Split (err e) t (inr a) = inr a

  -- On every disk and whichever calls fail, `create_backup` raises with no file changed, or the
  -- gateway is healthy, the retention is at least one, and the configuration is a readable text
  -- that passes the check.
  pub create_backup-Allowed :
      (((e : Exception) × ((created s).0 ≡ err e)) × SameFiles s (created s).1) ⊎ Allowed
  create_backup-Allowed = cases-of_Split (created s).0 (created s).1 create_backup-Post
