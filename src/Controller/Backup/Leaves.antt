-- ===== src/Controller/Backup/Leaves.antt =====
-- What a method of the disk leaves, if it returns, from whatever disk.
use nexguard_sentinel.Prelude.{Bool, false, ◌≡◌}
use nexguard_sentinel.Python.Exec.{Exception, Result, ok, err, refuse_if, Exec, ◌>>=◌, ◌>>◌}
use nexguard_sentinel.Python.Gives.{Keeps}
use nexguard_sentinel.Disk.{Disk}
use nexguard_sentinel.Disk.Post.{Split, Post, Post-bind, refuse_if-Post}
use nexguard_sentinel.Controller.Backup.Fresh.{Whatever, anyhow}

-- A record, so that a proof follows a `do` block with no term written.
pub record Leaves {A : Type 0} (m : Exec Disk A) (Q : A → Disk → Type 0) : Type 0 where
  pub leaves : (s : Disk) → Post m s Q Whatever

-- A part of which nothing is said.
pub after_any :
    {A B : Type 0} (m : Exec Disk A) {f : A → Exec Disk B} {Q : B → Disk → Type 0}
    → ((a : A) → Leaves (f a) Q)
    → Leaves (m >>= f) Q
after_any m {f = f} {Q = Q} h = record {
  leaves = λ s.
      Post-bind (λ _ _. Unit {0}) Q Whatever m f s (anyhow (m s).0 (m s).1)
        (λ a t _. (h a).leaves t);
}

pub after_refuse :
    {A : Type 0} (test : Bool) (e : Exception) {k : Exec Disk A} {Q : A → Disk → Type 0}
    → (test ≡ false → Leaves k Q)
    → Leaves (refuse_if test e >> k) Q
after_refuse test e {k = k} {Q = Q} h = record {
  leaves = λ s. refuse_if-Post test e k s Q Whatever tt (λ x. (h x).leaves s);
}

-- What a method leaves, if it returns, from the disks that an invariant holds of.
pub record LeavesFrom {A : Type 0} (I : Disk → Type 0) (m : Exec Disk A) (Q : A → Disk → Type 0)
    : Type 0 where
  pub leaves : (s : Disk) → I s → Post m s Q Whatever

keeps-Post :
    {A : Type 0} (I : Disk → Type 0) (r : Result A) (t : Disk)
    → I t
    → Split (λ (_ : A) u. I u) Whatever r t
keeps-Post I (ok a) t i = i
keeps-Post I (err e) t i = tt

-- A part that keeps the invariant.
pub after_keeping :
    {A B : Type 0} {I : Disk → Type 0} {m : Exec Disk A} {f : A → Exec Disk B}
    {Q : B → Disk → Type 0}
    → Keeps I m
    → ((a : A) → LeavesFrom I (f a) Q)
    → LeavesFrom I (m >>= f) Q
after_keeping {I = I} {m = m} {f = f} {Q = Q} k h = record {
  leaves = λ s i.
      Post-bind (λ _ u. I u) Q Whatever m f s (keeps-Post I (m s).0 (m s).1 (k.keeps s i))
        (λ a t j. (h a).leaves t j);
}

pub after_refusal :
    {A : Type 0} {I : Disk → Type 0} (test : Bool) (e : Exception) {k : Exec Disk A}
    {Q : A → Disk → Type 0}
    → (test ≡ false → LeavesFrom I k Q)
    → LeavesFrom I (refuse_if test e >> k) Q
after_refusal test e {k = k} {Q = Q} h = record {
  leaves = λ s i. refuse_if-Post test e k s Q Whatever tt (λ x. (h x).leaves s i);
}
