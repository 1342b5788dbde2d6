-- ===== src/Controller/Backup/Attributes.antt =====
-- The temporary file of a restoration, and the mode and the group that the configuration gets.
use nexguard_sentinel.Prelude.{
  ℕ, Bool, true, false, Option, none, some, List, [], ◌∷◌, ◌++◌, nats_eq, ◌≡◌, refl, ap, ◌∙◌, arith,
  length, length-append,
}
use nexguard_sentinel.Python.Exec.{◌>>=◌, pure}
use nexguard_sentinel.Python.Text.{Text, codes}
use nexguard_sentinel.Disk.{
  Bytes, FilePath, File, Disk, same_path, lookup, read_file, stat_dir, syscall,
}
use nexguard_sentinel.Disk.Post.{Post, Post-bind, handle-Post}
use nexguard_sentinel.Disk.Calls.{SameFiles, read_file-Post, stat_dir-Post}
use nexguard_sentinel.Disk.Temporary.{IsTemp, longer-differs}
use nexguard_sentinel.Controller.Backup.{temp_stem, is_missing, target_attributes}

-- The name of a temporary file is longer than that of its target.
pub temp-differs :
    (config p : FilePath) → IsTemp (temp_stem config) (codes ".tmp") p → same_path p config ≡ false
temp-differs config p i =
    let l = length-append config.name (codes ".") in
    let m = length-append ((temp_stem config).name ++ i.token) (codes ".tmp") in
    let n = length-append (temp_stem config).name i.token in
    let e = ap length i.chosen in
    let d = longer-differs p.name config.name (omega arith) in ground arith

-- The mode and the group of the file before, or the mode of a new file.
abbrev pub Attributes : Option File → ℕ × ℕ → Type 0
Attributes none a = a.0 ≡ 0o664
Attributes (some f) a = a ≡ (f.mode, f.gid)

module _ (sha256 : Bytes → Text) (config : FilePath) (s : Disk) where
  abbrev pub Chosen : Option File → ℕ × ℕ → Disk → Type 0
  Chosen o a t = SameFiles s t × Attributes o a

  kept_attributes-Post :
      (f : File) (faults : List Bool) (t : Disk)
      → lookup config t.files ≡ some f
      → t.faults ≡ faults
      → SameFiles s t
      → Post (target_attributes sha256 config) t (Chosen (some f)) (SameFiles s)
  unfolding target_attributes read_file syscall
  kept_attributes-Post f [] t l e same = ground arith
  kept_attributes-Post f (true ∷ faults) t l e same = ground arith
  kept_attributes-Post f (false ∷ faults) t l e same = ground arith

  new_attributes-Post :
      (t : Disk)
      → lookup config s.files ≡ none
      → SameFiles s t
      → Post (target_attributes sha256 config) t (Chosen none) (SameFiles s)
  unfolding target_attributes
  new_attributes-Post t l same =
      handle-Post (Chosen none) (SameFiles s) (SameFiles s)
        (read_file config >>= λ f. pure (f.mode, f.gid)) (λ e. is_missing e)
        (λ _. stat_dir config.parent >>= λ gid. pure (0o664, gid)) t
        (Post-bind (λ f u. (lookup config s.files ≡ some f) × SameFiles s u) (Chosen none)
          (SameFiles s) (read_file config) (λ f. pure (f.mode, f.gid)) t
          (read_file-Post s t same config) (λ f u h. absurd (ground arith)))
        (λ u e. e)
        (λ x u e.
          Post-bind (λ _. SameFiles s) (Chosen none) (SameFiles s) (stat_dir config.parent)
            (λ gid. pure (0o664, gid)) u (stat_dir-Post s u e config.parent) (λ gid v i. (i, refl)))

  pub attributes-Post :
      (o : Option File) (t : Disk)
      → lookup config s.files ≡ o
      → SameFiles s t
      → Post (target_attributes sha256 config) t (Chosen o) (SameFiles s)
  attributes-Post none t l same = new_attributes-Post t l same
  attributes-Post (some f) t l same =
      kept_attributes-Post f t.faults t (ap (lookup config) same ∙ l) refl same
