-- ===== src/Contracts/Artifacts.antt =====
-- The artifacts under contracts/out that a deployment reads, as files on its disk.
use nexguard_sentinel.Prelude.{
  String, Bool, true, false, not, Option, none, some, List, [], ◌∷◌, ◌++◌, ◌≡◌, refl, ap, ◌∙◌,
  subst, arith, Bool-cases, inl, inr,
}
use nexguard_sentinel.Python.Exec.{Result, ok, Exec, continue, runtime_error}
use nexguard_sentinel.Python.Gives.{
  Gives, Keeps, Holds, bind-Holds, lift-Holds, refuse_if-Holds, any-Holds, map-Holds,
}
use nexguard_sentinel.Python.Text.{Text, codes, starts_with_0x}
use nexguard_sentinel.Disk.{FilePath, File, Disk, lookup, or_missing, fault, syscall, read_file}
use nexguard_sentinel.Controller.Backup.{decoded}
use nexguard_sentinel.Store.Intake.Outcomes.{Result-cases}
use nexguard_sentinel.Contracts.Web3.{Web3}
use nexguard_sentinel.Contracts.Deploy.{
  Session, Printed, on_world, on_disk, print, load_artifact, artifact_path, is_file, code_of,
  valid_bytecode,
}

abbrev pub Files : Type 0
Files = List (FilePath × File)

abbrev pub DiskHas : Files → Disk → Type 0
DiskHas files d = d.files ≡ files

or_missing-some : (o : Option File) (f : File) → or_missing o ≡ ok f → o ≡ some f
or_missing-some none f h = cc
or_missing-some (some g) f h = ground arith

decoded-some : (o : Option Text) (t : Text) → decoded o ≡ ok t → o ≡ some t
decoded-some none t h = cc
decoded-some (some u) t h = ground arith

module _ (p : FilePath) where
  -- The read that follows a call.
  abbrev read_after : Result (Unit {0}) × Disk → Result File × Disk
  read_after r = continue r.0 (λ _ t. (or_missing (lookup p t.files), t)) r.1

  read_after-found :
      (faults : List Bool) (s : Disk) (f : File)
      → (read_after (fault faults s)).0 ≡ ok f
      → lookup p s.files ≡ some f
  read_after-found [] s f h = or_missing-some (lookup p s.files) f h
  read_after-found (true ∷ faults) s f h = cc
  read_after-found (false ∷ faults) s f h = or_missing-some (lookup p s.files) f h

  read_after-files :
      (faults : List Bool) (s : Disk) → (read_after (fault faults s)).1.files ≡ s.files
  read_after-files [] s = refl
  read_after-files (true ∷ faults) s = refl
  read_after-files (false ∷ faults) s = refl

  read_file-Holds :
      (files : Files) → Holds (DiskHas files) (read_file p) (λ f. lookup p files ≡ some f)
  unfolding read_file syscall
  read_file-Holds files = record {
    gives = λ s i f h. rw (← i) (read_after-found s.faults s f h);
    keeps = λ s i. read_after-files s.faults s ∙ i;
  }

module _ (W : Web3) (files : Files) where
  -- The file under contracts/out that has the contract's name, parsed.
  pub record Artifact (name : String) (artifact : W.Json) : Type 0 where
    pub file : File
    pub there :
        lookup
          (record {
            parent = codes "contracts/out/" ++ codes name ++ codes ".sol";
            name = codes name ++ codes ".json";
          })
          files
        ≡ some file
    pub text : Text
    pub decodes : W.utf8 file.contents ≡ some text
    pub parses : W.loads text ≡ ok artifact

  is_file-Keeps : (p : FilePath) → Keeps (DiskHas files) (is_file W p)
  is_file-Keeps p = record { keeps = λ s i. i }

  pub load_artifact-Holds :
      (name : String) → Holds (DiskHas files) (load_artifact W name) (Artifact name)
  unfolding load_artifact
  load_artifact-Holds name =
      bind-Holds (any-Holds (is_file-Keeps (artifact_path W name))) (λ there _.
        bind-Holds
          (refuse_if-Holds (not there)
            (runtime_error "Missing …; run `cd contracts && forge build` first"))
          (λ _ _. bind-Holds (read_file-Holds (artifact_path W name) files) (λ file found.
            bind-Holds (lift-Holds (decoded (W.utf8 file.contents))) (λ text d.
              map-Holds (lift-Holds (W.loads text)) (λ artifact parsed. record {
                file = file;
                there = found;
                text = text;
                decodes = decoded-some (W.utf8 file.contents) text d;
                parses = parsed;
              })))))

  -- The disk of the session has these files.
  abbrev pub HasFiles : Session W → Type 0
  HasFiles s = s.disk.files ≡ files

  pub on_disk-Holds :
      {A : Type 0} {m : Exec Disk A} {Q : A → Type 0}
      → Holds (DiskHas files) m Q
      → Holds HasFiles (on_disk W m) Q
  on_disk-Holds g = record {
    gives = λ s i a h. g.gives s.disk i a h;
    keeps = λ s i. g.keeps s.disk i;
  }

  pub on_world-Keeps : {A : Type 0} (m : Exec W.World A) → Keeps HasFiles (on_world W m)
  on_world-Keeps m = record { keeps = λ s i. i }

  pub on_world-Holds :
      {A : Type 0} {m : Exec W.World A} {Q : A → Type 0}
      → Gives m Q
      → Holds HasFiles (on_world W m) Q
  on_world-Holds g = record { gives = λ s i a h. g.gives s.world a h; keeps = λ s i. i }

  pub print-Keeps : (line : Printed W) → Keeps HasFiles (print W line)
  unfolding print
  print-Keeps line = record { keeps = λ s i. i }

module _ (W : Web3) where
  valid_bytecode-some :
      (o : Option Text) (t : Text)
      → valid_bytecode W o ≡ ok t
      → (o ≡ some t) × (starts_with_0x t ≡ true)
  valid_bytecode-some none t h = cc
  valid_bytecode-some (some u) t h = elim (Bool-cases (starts_with_0x u)) [
    | inl y ↦ let e : u ≡ t = ground arith in (ap some e, rw (← e) y)
    | inr n ↦ absurd (ground arith)
  ]

  abbrev pub OfArtifact : W.Json → W.Abi × Text → Type 0
  OfArtifact artifact code =
      (W.abi artifact ≡ ok code.0)
      × (W.bytecode artifact ≡ ok (some code.1))
      × (starts_with_0x code.1 ≡ true)

  -- The ABI and the bytecode of an artifact.
  pub code_of-OfArtifact :
      (artifact : W.Json) (code : W.Abi × Text)
      → code_of W artifact ≡ ok code
      → OfArtifact artifact code
  code_of-OfArtifact artifact code h = elim (Result-cases (W.bytecode artifact)) [
    | inl (x, e) ↦ absurd (ground arith)
    | inr (o, e) ↦ elim (Result-cases (valid_bytecode W o)) [
      | inl (x, k) ↦ absurd (ground arith)
      | inr (t, k) ↦ elim (Result-cases (W.abi artifact)) [
        | inl (x, l) ↦ absurd (ground arith)
        | inr (abi, l) ↦
            let all : code_of W artifact ≡ ok (abi, t) = ground arith in
            let same : (abi, t) ≡ code = cc (all, h) in
            let (some_t, zero_x) = valid_bytecode-some o t k in
            subst (OfArtifact artifact) same (l, e ∙ ap ok some_t, zero_x)
      ]
    ]
  ]
