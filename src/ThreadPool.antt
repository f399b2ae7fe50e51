-- ===== src/ThreadPool.antt =====
-- pthread_poolv1.h and pthread_poolv1.cpp: a pool of threads that take tasks from a shared list.
-- What a thread does under the mutex is one step; a broadcast wakes every waiting thread, and a
-- waiting thread may wake by itself. The prefix of a source list that is its back stands in front.
pub mod Tasks
pub mod Races
pub mod Progress
use zt_http.Common.{
  ℕ, zero, suc, ◌+◌, ◌-◌, ◌%◌, ◌^◌, ◌≡◌, Bool, true, false, not, ◌&&◌, ℤ, pos, negsuc, Option, none,
  some, List, [], ◌∷◌, ◌++◌, length, get_or, ltb, ◌==◌, if◌then◌else◌, undefined, Outcome, ok,
  fault,
}

-- Where a worker thread is: at the test of its loop, in `pthread_cond_wait`, woken and about to go on
-- behind it, in a task, or returned.
pub data Worker : Type 0 where
  at_loop waiting woken finished : Worker
  running : ℕ → Worker

-- `accepted` and `started` are not in the source: the tasks that `enqueue` took and that threads
-- began, last first.
pub record ThreadPool : Type 0 where
  pub threads : List ℕ
  pub size : ℕ
  pub tasks : List ℕ
  pub is_waited : Bool
  pub is_cancelled : Bool
  pub workers : List Worker
  pub accepted : List ℕ
  pub started : List ℕ

unfoldable pub zeros : ℕ → List ℕ
zeros zero = []
zeros (suc n) = 0 ∷ zeros n

unfoldable pub at_loops : ℕ → List Worker
at_loops zero = []
at_loops (suc n) = at_loop ∷ at_loops n

-- The constructor: `threads(threadsNumber)` holds zeros.
unfoldable pub thread_pool : ℕ → ThreadPool
unfolding zeros
thread_pool n = record {
  threads = zeros n;
  size = n;
  tasks = [];
  is_waited = false;
  is_cancelled = false;
  workers = [];
  accepted = [];
  started = [];
}

-- `startUp`: a thread for each entry of `threads`. The loop variable is a copy, so the identifiers
-- that `pthread_create` writes are lost.
unfoldable pub start_up : ThreadPool → ThreadPool
unfolding at_loops
start_up p = record p { workers = p.workers ++ at_loops (length p.threads) }

-- `pthread_cond_broadcast`.
unfoldable pub broadcast : List Worker → List Worker
broadcast [] = []
broadcast (waiting ∷ ws) = woken ∷ broadcast ws
broadcast (w ∷ ws) = w ∷ broadcast ws

-- `tasks.back()` and `pop_back()`; the back of an empty list is undefined.
take_task : ThreadPool → List ℕ → Outcome (ThreadPool × Worker)
take_task p [] = fault undefined
take_task p (t ∷ ts) = ok (record p { tasks = ts; started = t ∷ p.started }, running t)

-- `runThread` behind the wait, with the mutex held.
pub behind_wait : ThreadPool → Outcome (ThreadPool × Worker)
unfolding take_task broadcast
behind_wait p =
    if p.is_cancelled
    then ok (record p { workers = broadcast p.workers }, finished)
    else take_task p p.tasks

enter_loop : ThreadPool → List ℕ → Outcome (ThreadPool × Worker)
unfolding behind_wait
enter_loop p [] = ok (p, waiting)
enter_loop p (_ ∷ _) = behind_wait p

-- The next step of a thread of `runThread`: the test and the lock, the rest behind the wait, or the
-- return from `task->run()`.
unfoldable pub run_thread : ThreadPool → Worker → Outcome (ThreadPool × Worker)
unfolding enter_loop
run_thread p at_loop = if p.is_cancelled then ok (p, finished) else enter_loop p p.tasks
run_thread p waiting = ok (p, woken)
run_thread p woken = behind_wait p
run_thread p (running t) = ok (p, at_loop)
run_thread p finished = ok (p, finished)

-- What `enqueue` does under the mutex.
unfoldable pub push_task : ThreadPool → ℕ → ThreadPool
push_task p t = record p { tasks = t ∷ p.tasks; accepted = t ∷ p.accepted }

-- `pthread_cond_broadcast(&cond)`.
unfoldable pub wake_all : ThreadPool → ThreadPool
unfolding broadcast
wake_all p = record p { workers = broadcast p.workers }

-- `enqueue`, with no other thread in between: the pool and the result.
unfoldable pub enqueue : ThreadPool → ℕ → ThreadPool × ℤ
unfolding push_task wake_all
enqueue p t = if p.is_waited then (p, negsuc 0) else (wake_all (push_task p t), pos 0)

-- `waitPool` marks the pool, and returns once it has seen no task; `none`: it still waits.
unfoldable pub wait_pool : ThreadPool → ThreadPool × Option ℤ
wait_pool p =
    let p' = record p { is_waited = true } in
    (p', elim p.tasks [ [] ↦ some (pos 0) | _ ∷ _ ↦ none ])

-- `reStart`.
unfoldable pub re_start : ThreadPool → ThreadPool × ℤ
re_start p = if p.is_cancelled then (p, negsuc 0) else (record p { is_waited = false }, pos 0)

-- `endPool`, where its `waitPool` has seen no task. It destroys the mutex and the condition variable five
-- seconds later, which is left out.
unfoldable pub end_pool : ThreadPool → ThreadPool
unfolding broadcast
end_pool p = record p { is_waited = true; is_cancelled = true; workers = broadcast p.workers }

-- `getPthread`: `idx % _size`, with `idx` converted to `unsigned`; an empty vector has no element.
unfoldable pub get_pthread : ThreadPool → ℤ → Outcome ℕ
get_pthread p idx =
    let i : ℕ = elim idx [ pos n ↦ n % 2 ^ 32 | negsuc n ↦ (2 ^ 32 - 1) - n % 2 ^ 32 ] in
    if ltb (i % p.size) (length p.threads) && not (p.size == 0)
    then ok (get_or p.threads (i % p.size) 0)
    else fault undefined

-- What can happen to a pool: a call by its owner; the push or the broadcast of an `enqueue` in another
-- thread, which made its test some time before; or a step of the thread behind `before`.
pub data Step (p : ThreadPool) : ThreadPool → Type 0 where
  enqueues : (t : ℕ) → Step p (enqueue p t).0
  pushes : (t : ℕ) → Step p (push_task p t)
  broadcasts : Step p (wake_all p)
  waits : Step p (wait_pool p).0
  re_starts : Step p (re_start p).0
  ends : p.tasks ≡ [] → Step p (end_pool p)
  thread :
      (before after : List Worker) (w w' : Worker) (q : ThreadPool)
      → p.workers ≡ before ++ w ∷ after
      → run_thread (record p { workers = before ++ after }) w ≡ ok (q, w')
      → Step p (record q { workers = w' ∷ q.workers })

pub data Reach (p : ThreadPool) : ThreadPool → Type 0 where
  here : Reach p p
  next : {q q' : ThreadPool} → Reach p q → Step q q' → Reach p q'
