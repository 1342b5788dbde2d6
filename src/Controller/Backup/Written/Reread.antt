-- ===== src/Controller/Backup/Written/Reread.antt =====
-- A pair of files that was written is one that `verify_backup` accepts.
use nexguard_sentinel.Prelude.{true, [], ◌++◌, nat_eq, nats_eq, ◌≡◌, ap}
use nexguard_sentinel.Python.Exec.{Result, ok, err}
use nexguard_sentinel.Python.Text.{Text, codes}
use nexguard_sentinel.Disk.{Bytes, FilePath, Disk, read_file, syscall}
use nexguard_sentinel.Disk.Post.{Split}
use nexguard_sentinel.Controller.Backup.{
  checksum_path_for, is_backup_name, verify_backup, read_pair,
}
use nexguard_sentinel.Controller.Backup.Create.{write_backup_pair}
use nexguard_sentinel.Controller.Backup.Fresh.{Whatever}
use nexguard_sentinel.Controller.Backup.Digest.{IsHexdigest, ascii_line, strip_line, matches_digest}
use nexguard_sentinel.Controller.Backup.Written.{undotted, Pair, write_backup_pair-Pair}

module _ (sha256 : Bytes → Text) (D : IsHexdigest sha256) (backup : FilePath)
    (contents : Bytes) where
  -- The disk, on which no call fails from here on.
  abbrev pub calm : Disk → Disk
  calm t = record t { faults = [] }

  abbrev pub line : Text
  line = sha256 contents ++ codes "\n"

  pub Pair-verified :
      (t : Disk) → Pair backup contents line t → (verify_backup sha256 backup (calm t)).0 ≡ ok true
  unfolding verify_backup read_pair read_file syscall
  Pair-verified t k =
      rw
        (
          k.sum_there,
          k.sum_holds,
          ascii_line (sha256 contents) (D.hex contents),
          k.file_there,
          k.file_holds,
          strip_line (sha256 contents) (D.hex contents),
        )
        (ap ok (matches_digest sha256 D contents))

  returned :
      (r : Result (Unit {0})) (t : Disk)
      → Split (λ (_ : Unit {0}) u. Pair backup contents line u) Whatever r t
      → r ≡ ok tt
      → Pair backup contents line t
  returned (ok _) t k h = k
  returned (err e) t k h = cc

  -- If SHA-256 gives 64 lower-case hexadecimal digits, and the pair of a backup, with the name of
  -- one, and of its checksum file, with the digest and a newline, has been written, then
  -- `verify_backup` accepts the backup, as long as no call of the operating system fails in it.
  pub write_backup_pair-verify_backup :
      (s : Disk)
      → is_backup_name backup.name ≡ true
      → (write_backup_pair backup contents line s).0 ≡ ok tt
      → (verify_backup sha256 backup (calm (write_backup_pair backup contents line s).1)).0
        ≡ ok true
  unfolding checksum_path_for
  write_backup_pair-verify_backup s named h =
      let (plain, plain_sum) = undotted backup.name named in
      Pair-verified _
        (returned _ _ (write_backup_pair-Pair backup contents line plain plain_sum s) h)
