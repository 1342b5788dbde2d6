-- ===== src/Disk.antt =====
-- The files that the controller reads and writes: the calls of `os`, `pathlib` and `tempfile` that
-- it makes, on a table of files. Any call may fail: `faults` says of each of the next calls whether
-- it raises `OSError`, so a statement about every disk is one about every pattern of failures.
pub mod Laws
pub mod Post
pub mod Calls
pub mod Temporary
use nexguard_sentinel.Prelude.{
  ℕ, Bool, true, false, ◌&&◌, Option, none, some, List, [], ◌∷◌, ◌++◌, ◌==◌, nat_eq, nats_eq, Eq,
  if◌then◌else◌,
}
use nexguard_sentinel.Python.Exec.{
  Exception, Result, ok, err, os_error, file_not_found_error, Exec, pure, raise, lift, gets, modify,
  ◌>>=◌, ◌>>◌,
}
use nexguard_sentinel.Python.Text.{Text}

abbrev pub Bytes : Type 0
Bytes = List ℕ

-- A path as its parent and its last part.
pub record FilePath : Type 0 where
  pub parent : Text
  pub name : Text

abbrev pub same_path : FilePath → FilePath → Bool
same_path a b = a.parent == b.parent && a.name == b.name

pub record File : Type 0 where
  pub contents : Bytes
  pub mode : ℕ
  pub gid : ℕ

pub record Disk : Type 0 where
  pub files : List (FilePath × File)
  -- the directories with their groups
  pub dirs : List (Text × ℕ)
  -- the group of the process
  pub group : ℕ
  pub faults : List Bool
  -- the random parts of the next temporary names
  pub tokens : List Text

unfoldable pub lookup : FilePath → List (FilePath × File) → Option File
lookup p [] = none
lookup p ((q, f) ∷ files) = if same_path q p then some f else lookup p files

unfoldable pub remove : FilePath → List (FilePath × File) → List (FilePath × File)
remove p [] = []
remove p ((q, f) ∷ files) =
    let rest = remove p files in if same_path q p then rest else (q, f) ∷ rest

abbrev pub put : FilePath → File → List (FilePath × File) → List (FilePath × File)
put p f files = (p, f) ∷ remove p files

unfoldable pub dir_gid : Text → List (Text × ℕ) → Option ℕ
dir_gid d [] = none
dir_gid d ((e, gid) ∷ dirs) = if e == d then some gid else dir_gid d dirs

-- A call of the operating system, which may fail before it does anything.
abbrev pub fault : List Bool → Disk → Result (Unit {0}) × Disk
fault [] s = (ok tt, s)
fault (true ∷ faults) s = (err (os_error "the call failed"), record s { faults = faults })
fault (false ∷ faults) s = (ok tt, record s { faults = faults })

unfoldable pub syscall : Exec Disk (Unit {0})
syscall s = fault s.faults s

abbrev pub or_missing {ℓ} : {A : Type ℓ} → Option A → Result A
or_missing none = err file_not_found_error
or_missing (some a) = ok a

-- path.read_bytes(), path.stat()
unfoldable pub read_file : FilePath → Exec Disk File
read_file p = do syscall; λ s. (or_missing (lookup p s.files), s)

-- path.parent.stat().st_gid
unfoldable pub stat_dir : Text → Exec Disk ℕ
stat_dir d = do syscall; λ s. (or_missing (dir_gid d s.dirs), s)

-- path.unlink(missing_ok=True)
unfoldable pub unlink : FilePath → Exec Disk (Unit {0})
unlink p = do syscall; modify (λ s. record s { files = remove p s.files })

abbrev pub replace_with : FilePath → FilePath → Option File → Exec Disk (Unit {0})
replace_with source target none = raise file_not_found_error
replace_with source target (some f) =
    modify (λ s. record s { files = put target f (remove source s.files) })

-- os.replace(source, target)
unfoldable pub replace : FilePath → FilePath → Exec Disk (Unit {0})
replace source target = do syscall; λ s. replace_with source target (lookup source s.files) s

abbrev pub has_dir : Option ℕ → Bool
has_dir none = false
has_dir (some _) = true

-- path.mkdir(parents=True, exist_ok=True)
unfoldable pub make_dir : Text → Exec Disk (Unit {0})
make_dir d = do
  syscall
  modify (λ s. if has_dir (dir_gid d s.dirs) then s else record s { dirs = (d, s.group) ∷ s.dirs })

abbrev pub is_free : Option File → Bool
is_free none = true
is_free (some _) = false

-- The first name with a random part that no file has, and the parts that are left.
unfoldable pub pick :
    FilePath → Text → List Text → List (FilePath × File) → Option (FilePath × List Text)
pick stem suffix [] files = none
pick stem suffix (t ∷ tokens) files =
    let later = pick stem suffix tokens files in
    let p : FilePath = record { parent = stem.parent; name = stem.name ++ t ++ suffix } in
    if is_free (lookup p files) then some (p, tokens) else later

abbrev pub create_picked : Option (FilePath × List Text) → Exec Disk FilePath
create_picked none s = (err (os_error "No usable temporary file name found"), s)
create_picked (some (p, tokens)) s = (
  ok p,
  record s {
    files = (p, record { contents = []; mode = 0o600; gid = s.group }) ∷ s.files;
    tokens = tokens;
  },
)

-- tempfile.mkstemp(dir=stem.parent, prefix=stem.name, suffix=suffix)
unfoldable pub mkstemp : FilePath → Text → Exec Disk FilePath
mkstemp stem suffix = do
  syscall
  λ s.
      if has_dir (dir_gid stem.parent s.dirs)
      then create_picked (pick stem suffix s.tokens s.files) s
      else (err file_not_found_error, s)

abbrev pub emptied : ℕ → ℕ → Option File → File
emptied mode gid none = record { contents = []; mode = mode; gid = gid }
emptied mode gid (some f) = record f { contents = [] }

-- open(p, "w"), which empties the file or makes one with the mode that the process gives
unfoldable pub open_file : FilePath → ℕ → Exec Disk (Unit {0})
open_file p mode = do
  syscall
  λ s.
      if has_dir (dir_gid p.parent s.dirs)
      then (ok tt, record s { files = put p (emptied mode s.group (lookup p s.files)) s.files })
      else (err file_not_found_error, s)

abbrev pub change : FilePath → (File → File) → Option File → Exec Disk (Unit {0})
change p f none = raise file_not_found_error
change p f (some file) = modify (λ s. record s { files = put p (f file) s.files })

-- A write to a file that is there: its contents, its mode or its group.
unfoldable pub alter : FilePath → (File → File) → Exec Disk (Unit {0})
alter p f = do syscall; λ s. change p f (lookup p s.files) s

abbrev pub write : FilePath → Bytes → Exec Disk (Unit {0})
write p contents = alter p (λ f. record f { contents = contents })

abbrev pub chmod : FilePath → ℕ → Exec Disk (Unit {0})
chmod p mode = alter p (λ f. record f { mode = mode })

abbrev pub chown : FilePath → ℕ → Exec Disk (Unit {0})
chown p gid = alter p (λ f. record f { gid = gid })

-- os.fsync of an open file
abbrev pub fsync : Exec Disk (Unit {0})
fsync = syscall
