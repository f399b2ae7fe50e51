-- ===== src/Tests/Pools.antt =====
-- The thread pool at concrete states.
use zt_http.Common.{◌≡◌, refl, false, pos, [], ◌∷◌, undefined, ok, fault}
use zt_http.ThreadPool.{
  ThreadPool, waiting, woken, running, thread_pool, start_up, broadcast, enqueue, run_thread, Step,
  here, next, enqueues,
}
use zt_http.ThreadPool.Tasks.{IsBalanced, Reach-IsBalanced}
use zt_http.ThreadPool.Races.{broadcast_race}
use zt_http.ThreadPool.Progress.{enqueue_wakes}

Reach-IsBalanced_example : IsBalanced (enqueue (start_up (thread_pool 2)) 5).0
Reach-IsBalanced_example = Reach-IsBalanced 2 (next here (enqueues 5))

abbrev idle_pool : ThreadPool
idle_pool = record {
  threads = 0 ∷ 0 ∷ [];
  size = 2;
  tasks = [];
  is_waited = false;
  is_cancelled = false;
  workers = waiting ∷ waiting ∷ [];
  accepted = [];
  started = [];
}

broadcast_race_example :
    (q : ThreadPool) × ((enqueue idle_pool 5).0.workers ≡ woken ∷ woken ∷ [])
    × (run_thread (enqueue idle_pool 5).0 woken ≡ ok (q, running 5))
    × (run_thread q woken ≡ fault undefined)
broadcast_race_example = broadcast_race idle_pool 5 refl refl refl refl

-- The thread in front begins the task, the other is awake as well.
enqueue_wakes_example :
    (q : ThreadPool) × ((enqueue idle_pool 5).1 ≡ pos 0)
    × Step (enqueue idle_pool 5).0 q
    × (q.workers ≡ running 5 ∷ woken ∷ [])
    × (q.started ≡ 5 ∷ [])
    × (q.tasks ≡ [])
unfolding broadcast
enqueue_wakes_example = enqueue_wakes idle_pool 5 [] (waiting ∷ []) refl refl refl
