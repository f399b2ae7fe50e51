-- ===== src/ThreadPool/Races.antt =====
-- What a broadcast does to threads that wait with an `if` and not in a loop.
use zt_http.Common.{ℕ, ◌≡◌, false, [], ◌∷◌, arith, undefined, ok, fault}
use zt_http.ThreadPool.{ThreadPool, waiting, woken, running, broadcast, run_thread, enqueue}

-- One task for two waiting threads: the broadcast wakes both, the first begins the task, and the
-- second takes the back of an empty list.
pub broadcast_race :
    (p : ThreadPool) (t : ℕ)
    → p.workers ≡ waiting ∷ waiting ∷ []
    → p.tasks ≡ []
    → p.is_waited ≡ false
    → p.is_cancelled ≡ false
    → (q : ThreadPool) × ((enqueue p t).0.workers ≡ woken ∷ woken ∷ [])
      × (run_thread (enqueue p t).0 woken ≡ ok (q, running t))
      × (run_thread q woken ≡ fault undefined)
unfolding enqueue run_thread
broadcast_race p t two none_there open_pool on = (
  record p {
    tasks = [];
    accepted = t ∷ p.accepted;
    workers = broadcast p.workers;
    started = t ∷ p.started;
  },
  ground arith,
  ground arith,
  ground arith,
)
