-- ===== src/Python/Pathlib.antt =====
-- `pathlib.Path` of a text, on POSIX: its parent and its name.
use nexguard_sentinel.Prelude.{List, [], ◌∷◌, ◌++◌, ◌||◌, ◌==◌, nat_eq, nats_eq, if◌then◌else◌}
use nexguard_sentinel.Python.Text.{Text, codes}
use nexguard_sentinel.Python.Words.{split, join}
use nexguard_sentinel.Disk.{FilePath}

-- Two slashes in front are kept, any other number of them is one.
abbrev pub root : Text → Text
root [] = []
root (a ∷ []) = if a == b'/' then codes "/" else []
root (a ∷ b ∷ []) = if a == b'/' then if b == b'/' then codes "//" else codes "/" else []
root (a ∷ b ∷ c ∷ _) =
    if a == b'/'
    then if b == b'/' then if c == b'/' then codes "/" else codes "//" else codes "/"
    else []

-- Empty parts and `.` are dropped, `..` is not.
unfoldable pub parts : List Text → List Text
parts [] = []
parts (part ∷ more) =
    let rest = parts more in if part == [] || part == codes "." then rest else part ∷ rest

-- `str` of the path with this root and these parts
unfoldable pub path_text : Text → List Text → Text
path_text [] [] = codes "."
path_text r ps = r ++ join b'/' ps

abbrev pub but_last : List Text → List Text
but_last [] = []
but_last (part ∷ []) = []
but_last (part ∷ more ∷ rest) = part ∷ but_last (more ∷ rest)

abbrev pub last_part : List Text → Text
last_part [] = []
last_part (part ∷ []) = part
last_part (part ∷ more ∷ rest) = last_part (more ∷ rest)

-- The text of `Path(s)`
unfoldable pub dir_path : Text → Text
unfolding split parts path_text
dir_path s = path_text (root s) (parts (split b'/' s))

-- `Path(s)`, as its parent and its name
unfoldable pub file_path : Text → FilePath
unfolding split parts path_text
file_path s = record {
  parent = path_text (root s) (but_last (parts (split b'/' s)));
  name = last_part (parts (split b'/' s));
}
