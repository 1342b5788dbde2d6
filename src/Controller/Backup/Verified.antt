-- ===== src/Controller/Backup/Verified.antt =====
-- What `verify_backup` has read when it accepts a backup.
use nexguard_sentinel.Prelude.{true, Option, none, some, List, ◌≡◌, refl, arith}
use nexguard_sentinel.Python.Exec.{Exec, ◌>>=◌, pure, lift, handle, is_read_error}
use nexguard_sentinel.Python.Text.{Text, strip}
use nexguard_sentinel.Disk.{Bytes, FilePath, File, Disk, lookup, read_file}
use nexguard_sentinel.Disk.Post.{Split, Post, Post-bind, handle-Post}
use nexguard_sentinel.Disk.Calls.{SameFiles, read_file-Post}
use nexguard_sentinel.Controller.Backup.{
  checksum_path_for, ascii, decoded, read_pair, matches, verify_backup,
}

module _ (sha256 : Bytes → Text) (p : FilePath) where
  -- The checksum file and the backup among the files, with a digest that is that of the backup.
  pub record Verified (files : List (FilePath × File)) : Type 0 where
    pub checksum : File
    pub checksum_there : lookup (checksum_path_for p) files ≡ some checksum
    pub expected : Text
    pub is_ascii : ascii checksum.contents ≡ some expected
    pub file : File
    pub there : lookup p files ≡ some file
    pub digest_matches : matches sha256 (some (strip expected, file.contents)) ≡ true

  module _ (s : Disk) where
    abbrev Read : Option (Text × Bytes) → Disk → Type 0
    Read o t = SameFiles s t × (matches sha256 o ≡ true → Verified s.files)

    decoded-Post :
        (c : File) (o : Option Text) (t : Disk)
        → ascii c.contents ≡ o
        → SameFiles s t
        → Split
            (λ (e : Text) u. (ascii c.contents ≡ some e) × SameFiles s u)
            (SameFiles s)
            (decoded o)
            t
    decoded-Post c none t e h = h
    decoded-Post c (some x) t e h = (e, h)

    abbrev decoding : File → Exec Disk Text
    decoding c = lift (decoded (ascii c.contents))

    abbrev contents_of : Text → File → Exec Disk (Option (Text × Bytes))
    contents_of e f = pure (some (strip e, f.contents))

    abbrev reading : Text → Exec Disk (Option (Text × Bytes))
    reading e = read_file p >>= contents_of e

    read_pair-Post : (t : Disk) → SameFiles s t → Post (read_pair sha256 p) t Read (SameFiles s)
    unfolding read_pair
    read_pair-Post t same =
        Post-bind (λ c u. (lookup (checksum_path_for p) s.files ≡ some c) × SameFiles s u) Read
          (SameFiles s) (read_file (checksum_path_for p)) (λ c. decoding c >>= reading) t
          (read_file-Post s t same (checksum_path_for p))
          (λ c u h.
            Post-bind (λ e v. (ascii c.contents ≡ some e) × SameFiles s v) Read (SameFiles s)
              (decoding c) reading u (decoded-Post c (ascii c.contents) u refl h.1)
              (λ e v i.
                Post-bind (λ f w. (lookup p s.files ≡ some f) × SameFiles s w) Read (SameFiles s)
                  (read_file p) (contents_of e) v (read_file-Post s v i.1 p)
                  (λ f w j. (
                    j.1,
                    λ m. record {
                      checksum = c;
                      checksum_there = h.0;
                      expected = e;
                      is_ascii = i.0;
                      file = f;
                      there = j.0;
                      digest_matches = m;
                    },
                  ))))

    -- The files are as before, and `True` is returned for a verified backup only.
    pub verify_backup-Post :
        (t : Disk)
        → SameFiles s t
        → Post
            (verify_backup sha256 p)
            t
            (λ b u. SameFiles s u × (b ≡ true → Verified s.files))
            (SameFiles s)
    unfolding verify_backup matches
    verify_backup-Post t same =
        Post-bind Read (λ b u. SameFiles s u × (b ≡ true → Verified s.files)) (SameFiles s)
          (handle (read_pair sha256 p) is_read_error (λ _. pure none))
          (λ o. pure (matches sha256 o)) t
          (handle-Post Read (SameFiles s) (SameFiles s) (read_pair sha256 p) is_read_error
            (λ _. pure none) t (read_pair-Post t same) (λ u e. e)
            (λ x u e. (e, λ m. absurd (ground arith))))
          (λ o u h. h)
