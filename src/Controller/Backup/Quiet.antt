-- ===== src/Controller/Backup/Quiet.antt =====
-- A disk of which no call fails: what a backup is made of keeps it so, up to the pruning.
use nexguard_sentinel.Prelude.{
  Bool, true, false, Option, none, some, List, [], ◌∷◌, ◌≡◌, refl, arith, Bool-cases, inl, inr,
  nats_eq,
}
use nexguard_sentinel.Python.Exec.{
  Exception, Result, ok, err, Exec, continue, handled, handle, cleaned, on_error, raise, ◌>>◌,
}
use nexguard_sentinel.Python.Gives.{Keeps, bind-Keeps, lift-Keeps, pure-Keeps}
use nexguard_sentinel.Python.Text.{Text}
use nexguard_sentinel.Disk.{
  Bytes, FilePath, File, Disk, fault, syscall, lookup, dir_gid, has_dir, read_file, stat_dir,
  unlink, replace, replace_with, make_dir, mkstemp, create_picked, pick, alter, change, is_free,
}
use nexguard_sentinel.Controller.Config.{Libraries}
use nexguard_sentinel.Controller.Backup.{checksum_path_for, decoded}
use nexguard_sentinel.Controller.Backup.Create.{
  Manifest, fill_temp_file, write_temp_file, drop_orphan, replace_pair, write_backup_pair,
  read_source,
}

-- No call that is to come fails.
unfoldable pub is_failing : List Bool → Bool
is_failing [] = false
is_failing (true ∷ faults) = true
is_failing (false ∷ faults) = is_failing faults

abbrev pub IsQuiet : Disk → Type 0
IsQuiet s = is_failing s.faults ≡ false

-- A call succeeds, and leaves the files and the directories as they were.
pub fault-IsQuiet :
    (faults : List Bool) (s : Disk)
    → s.faults ≡ faults
    → is_failing faults ≡ false
    → (t : Disk) × (fault faults s ≡ (ok tt, t))
      × (t.files ≡ s.files)
      × (t.dirs ≡ s.dirs)
      × IsQuiet t
unfolding is_failing
fault-IsQuiet [] s e h = (s, refl, refl, refl, rw e refl)
fault-IsQuiet (true ∷ faults) s e h = cc
fault-IsQuiet (false ∷ faults) s e h = (record s { faults = faults }, refl, refl, refl, h)

syscall-Keeps : Keeps IsQuiet syscall
unfolding syscall
syscall-Keeps = record {
  keeps = λ s q. let (t, e, _, _, h) = fault-IsQuiet s.faults s refl q in rw e h;
}

-- A call, and then what changes no fault.
called :
    {A : Type 0} (k : Exec Disk A)
    → ((s : Disk) → (k s).1.faults ≡ s.faults)
    → Keeps IsQuiet (syscall >> k)
called k h = bind-Keeps syscall-Keeps (λ _. record { keeps = λ s q. rw (h s) q })

read_file-Keeps : (p : FilePath) → Keeps IsQuiet (read_file p)
unfolding read_file
read_file-Keeps p = called _ (λ s. refl)

stat_dir-Keeps : (d : Text) → Keeps IsQuiet (stat_dir d)
unfolding stat_dir
stat_dir-Keeps d = called _ (λ s. refl)

unlink-Keeps : (p : FilePath) → Keeps IsQuiet (unlink p)
unfolding unlink
unlink-Keeps p = called _ (λ s. refl)

replaced-faults :
    (a b : FilePath) (o : Option File) (s : Disk) → (replace_with a b o s).1.faults ≡ s.faults
replaced-faults a b none s = refl
replaced-faults a b (some f) s = refl

replace-Keeps : (a b : FilePath) → Keeps IsQuiet (replace a b)
unfolding replace
replace-Keeps a b = called _ (λ s. replaced-faults a b (lookup a s.files) s)

changed-faults :
    (p : FilePath) (f : File → File) (o : Option File) (s : Disk)
    → (change p f o s).1.faults ≡ s.faults
changed-faults p f none s = refl
changed-faults p f (some g) s = refl

alter-Keeps : (p : FilePath) (f : File → File) → Keeps IsQuiet (alter p f)
unfolding alter
alter-Keeps p f = called _ (λ s. changed-faults p f (lookup p s.files) s)

pub make_dir-Keeps : (d : Text) → Keeps IsQuiet (make_dir d)
unfolding make_dir
make_dir-Keeps d = called _ (λ s. ground arith)

picked-faults :
    (o : Option (FilePath × List Text)) (s : Disk) → (create_picked o s).1.faults ≡ s.faults
picked-faults none s = refl
picked-faults (some p) s = refl

mkstemp-Keeps : (stem : FilePath) (suffix : Text) → Keeps IsQuiet (mkstemp stem suffix)
unfolding mkstemp
mkstemp-Keeps stem suffix = called _ (λ s.
    elim (Bool-cases (has_dir (dir_gid stem.parent s.dirs))) [
      | inl y ↦ rw y (picked-faults (pick stem suffix s.tokens s.files) s)
      | inr n ↦ rw n refl
    ])

continued-IsQuiet :
    (A : Type 0) (r : Result (Unit {0})) (e : Exception) (s : Disk)
    → IsQuiet s
    → IsQuiet (continue r (λ _. raise {A = A} e) s).1
continued-IsQuiet A (ok u) e s q = q
continued-IsQuiet A (err x) e s q = q

module _ {A : Type 0} where
  handled-IsQuiet :
      (r : Result A) (s : Disk) (p : Exception → Bool) (h : Exception → Exec Disk A)
      → IsQuiet s
      → ((e : Exception) → Keeps IsQuiet (h e))
      → IsQuiet (handled r s p h).1
  handled-IsQuiet (ok a) s p h q k = q
  handled-IsQuiet (err e) s p h q k = elim (Bool-cases (p e)) [
    | inl y ↦ rw y ((k e).keeps s q)
    | inr n ↦ rw n q
  ]

  pub handle-Keeps :
      {m : Exec Disk A} (p : Exception → Bool) {h : Exception → Exec Disk A}
      → Keeps IsQuiet m
      → ((e : Exception) → Keeps IsQuiet (h e))
      → Keeps IsQuiet (handle m p h)
  handle-Keeps {m} p {h} k l = record {
    keeps = λ s q. handled-IsQuiet (m s).0 (m s).1 p h (k.keeps s q) l;
  }

  cleaned-IsQuiet :
      (r : Result A) (s : Disk) (cleanup : Exec Disk (Unit {0}))
      → IsQuiet s
      → Keeps IsQuiet cleanup
      → IsQuiet (cleaned r s cleanup).1
  cleaned-IsQuiet (ok a) s cleanup q k = q
  cleaned-IsQuiet (err e) s cleanup q k =
      continued-IsQuiet A (cleanup s).0 e (cleanup s).1 (k.keeps s q)

  on_error-Keeps :
      {m : Exec Disk A} {cleanup : Exec Disk (Unit {0})}
      → Keeps IsQuiet m
      → Keeps IsQuiet cleanup
      → Keeps IsQuiet (on_error m cleanup)
  on_error-Keeps {m} {cleanup} k l = record {
    keeps = λ s q. cleaned-IsQuiet (m s).0 (m s).1 cleanup (k.keeps s q) l;
  }

fill_temp_file-Keeps :
    (temp target : FilePath) (contents : Bytes)
    → Keeps IsQuiet (fill_temp_file temp target contents)
unfolding fill_temp_file
fill_temp_file-Keeps temp target contents = bind-Keeps (alter-Keeps temp _) (λ _.
    bind-Keeps syscall-Keeps (λ _.
      bind-Keeps (alter-Keeps temp _)
        (λ _. bind-Keeps (stat_dir-Keeps target.parent) (λ gid. alter-Keeps temp _))))

write_temp_file-Keeps :
    (target : FilePath) (contents : Bytes) → Keeps IsQuiet (write_temp_file target contents)
unfolding write_temp_file
write_temp_file-Keeps target contents = bind-Keeps (mkstemp-Keeps _ _) (λ temp.
    bind-Keeps (on_error-Keeps (fill_temp_file-Keeps temp target contents) (unlink-Keeps temp))
      (λ _. pure-Keeps))

drop_orphan-Keeps : (backup : FilePath) → Keeps IsQuiet (drop_orphan backup)
drop_orphan-Keeps backup = bind-Keeps syscall-Keeps (λ _. record {
  keeps = λ s q. elim (Bool-cases (is_free (lookup backup s.files))) [
    | inl y ↦ rw y ((unlink-Keeps (checksum_path_for backup)).keeps s q)
    | inr n ↦ rw n q
  ];
})

pub write_backup_pair-Keeps :
    (backup : FilePath) (contents checksum : Bytes)
    → Keeps IsQuiet (write_backup_pair backup contents checksum)
unfolding write_backup_pair replace_pair
write_backup_pair-Keeps backup contents checksum =
    bind-Keeps (write_temp_file-Keeps backup contents) (λ backup_temp.
      bind-Keeps (write_temp_file-Keeps (checksum_path_for backup) checksum) (λ checksum_temp.
        on_error-Keeps
          (bind-Keeps (replace-Keeps checksum_temp (checksum_path_for backup))
            (λ _. replace-Keeps backup_temp backup))
          (bind-Keeps (unlink-Keeps backup_temp)
            (λ _. bind-Keeps (unlink-Keeps checksum_temp) (λ _. drop_orphan-Keeps backup)))))

pub read_source-Keeps :
    (manifest_json : Manifest → Bytes) (sha256 : Bytes → Text) (L : Libraries) (config : FilePath)
    → Keeps IsQuiet (read_source manifest_json sha256 L config)
read_source-Keeps manifest_json sha256 L config =
    bind-Keeps (read_file-Keeps config)
      (λ file. bind-Keeps (lift-Keeps (decoded (L.utf8 file.contents))) (λ text. pure-Keeps))
