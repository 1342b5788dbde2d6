-- ===== src/Controller/Application/Stop.antt =====
-- What becomes of the notifications' tasks when the application ends.
use nexguard_sentinel.Prelude.{
  ℕ, ◌<◌, Bool, true, false, ◌||◌, List, [], ◌∷◌, ◌++◌, ◌==◌, nat_eq, contains, ◌≡◌, refl, arith,
  Bool-cases, inl, inr, ◌⊎◌,
}
use nexguard_sentinel.Python.Exec.{Exception, ok, err}
use nexguard_sentinel.Controller.Application.{
  Tasks, notify, discard, finish_task, close, TaskEvent, notified, finished, tasks_after,
  MonitorTask, looping, failed, stop,
}

contains-discard :
    (i j : ℕ) (js : List ℕ) → contains (discard i js) j || j == i ≡ contains js j || j == i
contains-discard i j [] = refl
contains-discard i j (k ∷ js) = ground (arith, contains-discard i j js)

contains-append_left :
    (js ks : List ℕ) (i : ℕ) → contains js i ≡ true → contains (js ++ ks) i ≡ true
contains-append_left [] ks i h = absurd (ground arith)
contains-append_left (j ∷ js) ks i h = ground (arith, contains-append_left js ks i)

-- A task that was created is pending or has ended.
Accounted : Tasks → Type 0
Accounted t = (i : ℕ) → i < t.created → contains t.pending i || contains t.done i ≡ true

notify-Accounted : (configured : Bool) (t : Tasks) → Accounted t → Accounted (notify configured t)
unfolding Accounted notify
notify-Accounted true t h i l = elim (Bool-cases (i == t.created)) [
  | inl y ↦ rw y refl
  | inr n ↦ rw n (h i (ground arith))
]
notify-Accounted false t h i l = h i l

finish_task-Accounted : (j : ℕ) (t : Tasks) → Accounted t → Accounted (finish_task j t)
unfolding Accounted finish_task
finish_task-Accounted j t h i l = ground (arith, contains-discard j i t.pending, h i l)

tasks_after-Accounted : (events : List TaskEvent) → Accounted (tasks_after events)
unfolding tasks_after Accounted
tasks_after-Accounted [] i l = absurd (ground arith)
tasks_after-Accounted (notified configured ∷ earlier) i l =
    notify-Accounted configured (tasks_after earlier) (tasks_after-Accounted earlier) i l
tasks_after-Accounted (finished j ∷ earlier) i l =
    finish_task-Accounted j (tasks_after earlier) (tasks_after-Accounted earlier) i l

-- Whatever notifications were sent and have ended while the application ran: if it stops while the
-- supervision loop is running, then no task is left pending, and each one that was created has ended
-- by itself or has been cancelled. If the loop has failed, then its exception is raised, and the
-- tasks are left as they are.
pub stop-Accounted :
    (events : List TaskEvent) (m : MonitorTask)
    → ((m ≡ looping)
        × ((stop m (tasks_after events)).0 ≡ ok tt)
        × ((stop m (tasks_after events)).1.pending ≡ [])
        × ((i : ℕ)
            → i < (tasks_after events).created
            → contains (stop m (tasks_after events)).1.cancelled i
                || contains (tasks_after events).done i
              ≡ true))
      ⊎ ((e : Exception) × (m ≡ failed e)
          × (stop m (tasks_after events) ≡ (err e, tasks_after events)))
unfolding stop close Accounted
stop-Accounted events looping = inl (
  refl,
  refl,
  refl,
  λ i l. ground (
    arith,
    tasks_after-Accounted events i l,
    contains-append_left (tasks_after events).pending (tasks_after events).cancelled i,
  ),
)
stop-Accounted events (failed e) = inr (e, refl, refl)
