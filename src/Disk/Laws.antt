-- ===== src/Disk/Laws.antt =====
-- What the calls do to the file at a path.
use nexguard_sentinel.Prelude.{none, some, List, [], ◌∷◌, nats_eq, if◌then◌else◌, ◌≡◌, arith}
use nexguard_sentinel.Disk.{FilePath, File, same_path, lookup, remove, put}

pub lookup-remove :
    (p q : FilePath) (files : List (FilePath × File))
    → lookup q (remove p files) ≡ (if same_path p q then none else lookup q files)
unfolding lookup remove
lookup-remove p q [] = ground arith
lookup-remove p q ((r, f) ∷ files) = ground (arith, lookup-remove p q files)

pub lookup-put :
    (p q : FilePath) (f : File) (files : List (FilePath × File))
    → lookup q (put p f files) ≡ (if same_path p q then some f else lookup q files)
unfolding lookup
lookup-put p q f files = ground (arith, lookup-remove p q files)
