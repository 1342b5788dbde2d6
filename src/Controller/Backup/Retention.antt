-- ===== src/Controller/Backup/Retention.antt =====
-- How many complete backups `create_backup` leaves, over `_prune_backups` and `_write_manifest`.
pub mod Counting
pub mod Fewer
pub mod Removal
pub mod Unlisted
use nexguard_sentinel.Prelude.{
  ℕ, String, zero, suc, ◌+◌, ◌≤◌, ◌<◌, Bool, true, false, not, ◌&&◌, ◌||◌, List, [], ◌∷◌, length,
  contains, ◌==◌, nats_eq, ◌≡◌, refl, ap, ◌∙◌, arith, Bool-cases, inl, inr, ℤ, pos, negsuc,
}
use nexguard_sentinel.Python.Exec.{
  Exception, Result, ok, err, library_error, handle, is_read_error, raise, lift, refuse_if, Exec,
  ◌>>=◌, ◌>>◌, pure, modify,
}
use nexguard_sentinel.Python.Text.{Text}
use nexguard_sentinel.Disk.{
  Bytes, FilePath, Disk, syscall, make_dir, remove, unlink, dir_gid, has_dir,
}
use nexguard_sentinel.Disk.Post.{Split, Post, Post-bind, Post-then, syscall-Post, refuse_if-Post}
use nexguard_sentinel.Disk.Calls.{SameFiles}
use nexguard_sentinel.Controller.Config.{Libraries, check_config_text}
use nexguard_sentinel.Controller.Backup.{
  checksum_path_for, sort_names, complete, names_in, backup_names, scan_backups, list_backups,
}
use nexguard_sentinel.Controller.Backup.Fresh.{Whatever, anyhow}
use nexguard_sentinel.Controller.Backup.Leaves.{LeavesFrom, after_keeping, after_refusal}
use nexguard_sentinel.Python.Gives.{lift-Keeps}
use nexguard_sentinel.Controller.Backup.Quiet.{
  IsQuiet, fault-IsQuiet, make_dir-Keeps, handle-Keeps, write_backup_pair-Keeps, read_source-Keeps,
}
use nexguard_sentinel.Controller.Backup.Create.{
  Manifest, all_but_last, remove_backups, prune_backups, is_below_one, kept_count, write_manifest,
  write_backup_pair, read_source, create_backup,
}
use nexguard_sentinel.Controller.Backup.Retention.Removal.{Gone, remove_backups-Gone}
use nexguard_sentinel.Controller.Backup.Retention.Fewer.{Less}
use nexguard_sentinel.Controller.Backup.Retention.Unlisted.{write_manifest-Less}
use nexguard_sentinel.Controller.Backup.Retention.Counting.{
  count_if, count_if-all_but_last, Covers, Covers-same, count_if-sort_names, count_if-true, listed,
  listed-remove, listed-remove_backup, count_if-same,
}

module _ (d : Text) where
  -- The names that `list_backups` returns are those of the disk that it leaves, if no call fails.
  list_backups-names :
      (s : Disk)
      → IsQuiet s
      → Post (list_backups d) s (λ names t. (names ≡ backup_names d t) × SameFiles s t) Whatever
  unfolding list_backups scan_backups syscall backup_names
  list_backups-names s q =
      let (t, e, files, dirs, r) = fault-IsQuiet s.faults s refl q in
      let (u, f, files', dirs', _) = fault-IsQuiet t.faults t refl r in
      rw e (elim (Bool-cases (has_dir (dir_gid d t.dirs))) [
        | inl y ↦ rw (y, f) (refl, files' ∙ files)
        | inr n ↦ rw n (rw n refl, files)
      ])

  AtMost : ℕ → Disk → Type 0
  AtMost k t = length (backup_names d t) ≤ k

  names-AtMost : (t : Disk) → length (backup_names d t) ≤ count_if (λ _. true) (listed d t.files)
  unfolding backup_names
  names-AtMost t =
      let sorted = count_if-sort_names (λ _. true) (listed d t.files) in
      let whole = count_if-true (sort_names (listed d t.files)) in
      elim (Bool-cases (has_dir (dir_gid d t.dirs))) [
        | inl y ↦ rw y (omega arith)
        | inr n ↦ rw n (ground arith)
      ]

  AtMost-of_no_dir : (k : ℕ) (t : Disk) → has_dir (dir_gid d t.dirs) ≡ false → AtMost k t
  unfolding AtMost backup_names
  AtMost-of_no_dir k t h = rw h (ground arith)

  sorted_names :
      (t : Disk)
      → has_dir (dir_gid d t.dirs) ≡ true
      → backup_names d t ≡ sort_names (listed d t.files)
  unfolding backup_names
  sorted_names t h = rw h refl

  pruned-AtMost :
      (k : ℕ) (names : List Text) (t u : Disk)
      → names ≡ backup_names d t
      → Gone d (all_but_last k names) t tt u
      → AtMost k u
  unfolding AtMost
  pruned-AtMost k names t u e (dirs, g) = elim (Bool-cases (has_dir (dir_gid d t.dirs))) [
    | inl y ↦
        let gone = all_but_last k names in
        let q : Text → Bool = λ n. not (contains gone n) in
        let less = g (λ _. true) in
        let kept = count_if-all_but_last k gone names (Covers-same gone) in
        let same = ap (count_if q) (e ∙ sorted_names t y) in
        let sorted = count_if-sort_names q (listed d t.files) in
        let names = names-AtMost u in omega arith
    | inr n ↦ AtMost-of_no_dir k u (ap (λ x. has_dir (dir_gid d x)) dirs ∙ n)
  ]

  prune_backups-Post :
      (k : ℕ) (s : Disk)
      → IsQuiet s
      → Post (prune_backups d (suc k)) s (λ _ t. AtMost (suc k) t) Whatever
  unfolding prune_backups
  prune_backups-Post k s q =
      Post-bind (λ names t. (names ≡ backup_names d t) × SameFiles s t) _ Whatever (list_backups d)
        _ s (list_backups-names s q)
        (λ names t e.
          Post-then (Gone d (all_but_last (suc k) names) t) (λ _ u. AtMost (suc k) u) Whatever
            (remove_backups d (all_but_last (suc k) names)) t
            (remove_backups-Gone d (all_but_last (suc k) names) t)
            (λ _ u g. pruned-AtMost (suc k) names t u e.0 g))

  Less-AtMost : (k : ℕ) (s t : Disk) → AtMost k s → Less d s t → AtMost k t
  unfolding AtMost
  Less-AtMost k s t a l = elim (Bool-cases (has_dir (dir_gid d s.dirs))) [
    | inl y ↦
        let fewer = l.fewer (λ _. true) in
        let names = names-AtMost t in
        let sorted = count_if-sort_names (λ _. true) (listed d s.files) in
        let whole = count_if-true (sort_names (listed d s.files)) in
        let same = ap length (sorted_names s y) in omega arith
    | inr n ↦ AtMost-of_no_dir k t (ap (λ x. has_dir (dir_gid d x)) l.same_dirs ∙ n)
  ]

  prune_kept-Post :
      (retention : ℤ) (s : Disk)
      → IsQuiet s
      → is_below_one retention ≡ false
      → Post
          (prune_backups d (kept_count retention))
          s
          (λ _ t. AtMost (kept_count retention) t)
          Whatever
  prune_kept-Post (negsuc n) s q h = cc
  prune_kept-Post (pos zero) s q h = absurd (ground arith)
  prune_kept-Post (pos (suc k)) s q h = prune_backups-Post k s q

  module _ (manifest_json : Manifest → Bytes) (sha256 : Bytes → Text) (L : Libraries)
      (config : FilePath) (timestamp generated_at : Text) (retention : ℤ) where
    abbrev Bounded : Disk → Type 0
    Bounded = AtMost (kept_count retention)

    -- From the pruning to the end.
    pruned-Leaves :
        (backup : FilePath)
        → is_below_one retention ≡ false
        → LeavesFrom IsQuiet
            (prune_backups d (kept_count retention)
              >> (write_manifest manifest_json d generated_at >> pure backup))
            (λ _ t. Bounded t)
    pruned-Leaves backup h = record {
      leaves = λ w quiet.
          Post-bind (λ _ x. Bounded x) (λ _ x. Bounded x) Whatever
            (prune_backups d (kept_count retention))
            (λ _. write_manifest manifest_json d generated_at >> pure backup) w
            (prune_kept-Post retention w quiet h)
            (λ _ x a.
              Post-bind (λ _ y. Less d x y) (λ _ y. Bounded y) Whatever
                (write_manifest manifest_json d generated_at) (λ _. pure backup) x
                (write_manifest-Less d manifest_json generated_at x)
                (λ _ y l. Less-AtMost (kept_count retention) x y a l));
    }

    create_backup-Leaves :
        (healthy : Bool)
        → LeavesFrom IsQuiet
            (create_backup manifest_json sha256 L config d healthy timestamp generated_at retention)
            (λ _ t. Bounded t)
    unfolding create_backup
    create_backup-Leaves healthy = after_refusal (not healthy) _ (λ _.
        after_refusal (is_below_one retention) _ (λ h.
          after_keeping
            (handle-Keeps is_read_error (read_source-Keeps manifest_json sha256 L config)
              (λ e. record { keeps = λ s q. q }))
            (λ source. after_keeping (lift-Keeps (check_config_text L source.1)) (λ valid.
              after_refusal (not valid.0) _ (λ _.
                after_keeping (make_dir-Keeps d)
                  (λ _. after_keeping (write_backup_pair-Keeps _ _ _) (λ _. pruned-Leaves _ h)))))))

    returned :
        {A : Type 0} (k : ℕ) (r : Result A) (t : Disk) (a : A)
        → Split (λ (_ : A) u. AtMost k u) Whatever r t
        → r ≡ ok a
        → AtMost k t
    returned k (ok _) t a h e = h
    returned k (err x) t a h e = cc

    -- If `create_backup` returns on a disk of which no call fails, then the directory holds no more
    -- complete backups than `retention_count`, whatever was in it before.
    pub create_backup-bounded :
        (healthy : Bool) (s : Disk) (p : FilePath)
        → IsQuiet s
        → (create_backup manifest_json sha256 L config d healthy timestamp generated_at retention
            s).0
          ≡ ok p
        → length (
            backup_names d
              (create_backup manifest_json sha256 L config d healthy timestamp generated_at
                retention s).1)
          ≤ kept_count retention
    unfolding AtMost
    create_backup-bounded healthy s p quiet h =
        returned (kept_count retention) _ _ p ((create_backup-Leaves healthy).leaves s quiet) h
