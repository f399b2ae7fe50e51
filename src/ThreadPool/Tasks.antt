-- ===== src/ThreadPool/Tasks.antt =====
-- No task is lost or run twice.
use mathlib.Core.List.{Perm, perm_middle}
use mathlib.Core.List.Perm
use zt_http.Common.{ℕ, ◌≡◌, refl, subst, ℤ, List, [], ◌∷◌, ◌++◌, if_cases, Holds}
use zt_http.ThreadPool.{
  ThreadPool, Worker, at_loop, waiting, woken, finished, running, thread_pool, start_up, take_task,
  behind_wait, enter_loop, run_thread, enqueue, wait_pool, re_start, end_pool, push_task, wake_all,
  Step, enqueues, pushes, broadcasts, waits, re_starts, ends, thread, Reach, here, next,
}

-- The tasks begun and those still in the list are the tasks accepted.
abbrev pub IsBalanced : ThreadPool → Type 0
IsBalanced p = Perm p.accepted (p.started ++ p.tasks)

take_task-IsBalanced :
    (p : ThreadPool) (ts : List ℕ)
    → p.tasks ≡ ts
    → IsBalanced p
    → Holds (λ r. IsBalanced r.0) (take_task p ts)
unfolding take_task
take_task-IsBalanced p [] e b = tt
take_task-IsBalanced p (t ∷ ts) e b =
    Perm.trans (subst (λ l. Perm p.accepted (p.started ++ l)) e b) (perm_middle p.started ts)

behind_wait-IsBalanced :
    (p : ThreadPool) → IsBalanced p → Holds (λ r. IsBalanced r.0) (behind_wait p)
unfolding behind_wait
behind_wait-IsBalanced p b =
    if_cases (Holds (λ r. IsBalanced r.0)) p.is_cancelled _ _ b
      (take_task-IsBalanced p p.tasks refl b)

enter_loop-IsBalanced :
    (p : ThreadPool) (ts : List ℕ) → IsBalanced p → Holds (λ r. IsBalanced r.0) (enter_loop p ts)
unfolding enter_loop
enter_loop-IsBalanced p [] b = b
enter_loop-IsBalanced p (_ ∷ _) b = behind_wait-IsBalanced p b

run_thread-IsBalanced :
    (p : ThreadPool) (w : Worker) → IsBalanced p → Holds (λ r. IsBalanced r.0) (run_thread p w)
unfolding run_thread
run_thread-IsBalanced p at_loop b =
    if_cases (Holds (λ r. IsBalanced r.0)) p.is_cancelled _ _ b (enter_loop-IsBalanced p p.tasks b)
run_thread-IsBalanced p waiting b = b
run_thread-IsBalanced p woken b = behind_wait-IsBalanced p b
run_thread-IsBalanced p (running t) b = b
run_thread-IsBalanced p finished b = b

Step-IsBalanced : {p q : ThreadPool} → Step p q → IsBalanced p → IsBalanced q
unfolding enqueue push_task wake_all wait_pool re_start end_pool
Step-IsBalanced {p} (enqueues t) b =
    if_cases (λ (r : ThreadPool × ℤ). IsBalanced r.0) p.is_waited _ _ b
      (Perm.trans (Perm.cons t b) (Perm.symm (perm_middle p.started p.tasks)))
Step-IsBalanced {p} (pushes t) b =
    Perm.trans (Perm.cons t b) (Perm.symm (perm_middle p.started p.tasks))
Step-IsBalanced broadcasts b = b
Step-IsBalanced waits b = b
Step-IsBalanced {p} re_starts b =
    if_cases (λ (r : ThreadPool × ℤ). IsBalanced r.0) p.is_cancelled _ _ b b
Step-IsBalanced (ends e) b = b
Step-IsBalanced {p} (thread before after w w' q split run) b =
    subst (Holds (λ r. IsBalanced r.0)) run
      (run_thread-IsBalanced (record p { workers = before ++ after }) w b)

-- In every history of a new pool the tasks that were begun and those still in the list are, as
-- often, the tasks that were accepted: none is lost, none is begun twice.
pub Reach-IsBalanced : (n : ℕ) {q : ThreadPool} → Reach (start_up (thread_pool n)) q → IsBalanced q
unfolding start_up thread_pool
Reach-IsBalanced n here = Perm.refl []
Reach-IsBalanced n (next r s) = Step-IsBalanced s (Reach-IsBalanced n r)
