-- ===== src/Controller/Backup/Listing.antt =====
-- What `list_backups` returns, whichever of its calls fail.
use nexguard_sentinel.Prelude.{
  Bool, true, false, List, [], ◌∷◌, ◌≡◌, refl, ◌∙◌, Bool-cases, inl, inr,
}
use nexguard_sentinel.Python.Exec.{Result, ok, err, continue, handled, is_os_error, gets, pure}
use nexguard_sentinel.Python.Text.{Text}
use nexguard_sentinel.Disk.{Disk, fault, syscall, dir_gid, has_dir}
use nexguard_sentinel.Disk.Post.{Split, Post, syscall-Post}
use nexguard_sentinel.Disk.Calls.{SameFiles}
use nexguard_sentinel.Controller.Backup.{backup_names, scan_backups, list_backups}

module _ (d : Text) where
  -- The names of the complete backups, or none where the directory is not there or was not read.
  pub data Listed (names : List Text) (t : Disk) : Type 0 where
    read : names ≡ backup_names d t → Listed names t
    unread : names ≡ [] → Listed names t

  abbrev pub Listing : Disk → List Text → Disk → Type 0
  Listing s names t = Listed names t × SameFiles s t × (t.dirs ≡ s.dirs)

  abbrev scanned : Result (Unit {0}) × Disk → Result (List Text) × Disk
  scanned p =
      let (r, t) = continue p.0 (λ _. gets (backup_names d)) p.1 in
      handled r t is_os_error (λ _. pure [])

  scanned-Listing :
      (faults : List Bool) (s : Disk) (E : Disk → Type 0)
      → Split (Listing s) E (scanned (fault faults s)).0 (scanned (fault faults s)).1
  scanned-Listing [] s E = (read refl, refl, refl)
  scanned-Listing (true ∷ faults) s E = (unread refl, refl, refl)
  scanned-Listing (false ∷ faults) s E = (read refl, refl, refl)

  pub scan_backups-Listing : (s : Disk) (E : Disk → Type 0) → Post (scan_backups d) s (Listing s) E
  unfolding scan_backups syscall
  scan_backups-Listing s E = scanned-Listing s.faults s E

  Split-moved :
      (E : Disk → Type 0) (s t : Disk)
      → SameFiles s t
      → t.dirs ≡ s.dirs
      → (r : Result (List Text)) (u : Disk) → Split (Listing t) E r u
      → Split (Listing s) E r u
  Split-moved E s t f g (ok names) u (l, h, k) = (l, h ∙ f, k ∙ g)
  Split-moved E s t f g (err x) u h = h

  pub list_backups-Listing :
      (s : Disk) (E : Disk → Type 0)
      → ((t : Disk) → SameFiles s t → E t)
      → Post (list_backups d) s (Listing s) E
  unfolding list_backups
  list_backups-Listing s E raised = syscall-Post _ s (Listing s) E raised (λ t f g.
      elim (Bool-cases (has_dir (dir_gid d t.dirs))) [
        | inl y ↦ rw y (
            Split-moved E s t f g (scan_backups d t).0 (scan_backups d t).1
              (scan_backups-Listing t E))
        | inr n ↦ rw n (unread refl, f, g)
      ])
