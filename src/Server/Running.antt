-- ===== src/Server/Running.antt =====
-- The threads of the pool that `start_server` starts, and the tasks of its reactors.
use zt_http.Common.{
  ℕ, zero, suc, ◌+◌, ◌≡◌, refl, sym, ap, ◌∙◌, subst, Bool, false, ℤ, pos, negsuc, List, [], ◌∷◌,
  ◌++◌, append-nil, arith, length, if◌then◌else◌,
}
use zt_http.Server.Start.{start_pool, enqueue_each}
use zt_http.ThreadPool.{
  ThreadPool, Worker, at_loop, running, at_loops, thread_pool, start_up, enqueue, Reach, here, next,
  Step, thread, broadcast, zeros,
}
use zt_http.ThreadPool.Progress.{takes, Reach-trans}

-- A thread in the task of each of the reactors from `i` on.
abbrev each_running : ℕ → ℕ → List Worker
each_running zero i = []
each_running (suc left) i = running i ∷ each_running left (suc i)

abbrev numbered : ℕ → ℕ → List ℕ → List ℕ
numbered zero i ts = ts
numbered (suc left) i ts = numbered left (suc i) (i ∷ ts)

abbrev runs : List ℕ → List Worker → List Worker
runs [] ws = ws
runs (t ∷ ts) ws = runs ts (running t ∷ ws)

length-numbered : (left i : ℕ) (ts : List ℕ) → length (numbered left i ts) ≡ left + length ts
length-numbered zero i ts = omega arith
length-numbered (suc left) i ts = omega (arith, length-numbered left (suc i) (i ∷ ts))

runs-numbered :
    (left i : ℕ) (ts : List ℕ) (ws : List Worker)
    → runs (numbered left i ts) ws ≡ runs ts (each_running left i ++ ws)
runs-numbered zero i ts ws = refl
runs-numbered (suc left) i ts ws = runs-numbered left (suc i) (i ∷ ts) ws

-- The pool accepts tasks, and no thread waits.
enqueue_quiet :
    (p : ThreadPool) (i : ℕ)
    → p.is_waited ≡ false
    → broadcast p.workers ≡ p.workers
    → (enqueue p i).0 ≡ record p { tasks = i ∷ p.tasks; accepted = i ∷ p.accepted }
unfolding enqueue
enqueue_quiet p i open_pool quiet =
    let more : List Worker → ThreadPool =
      λ ws. record p { tasks = i ∷ p.tasks; accepted = i ∷ p.accepted; workers = ws } in
    let closed : ThreadPool × ℤ = (p, negsuc 0) in
    let opened : ThreadPool × ℤ = (more (broadcast p.workers), pos 0) in
    let tested : Bool → ThreadPool × ℤ = λ b. if b then closed else opened in
    ap (λ b. (tested b).0) open_pool ∙ ap more quiet

enqueue_each-numbered :
    (left i : ℕ) (p : ThreadPool)
    → p.is_waited ≡ false
    → broadcast p.workers ≡ p.workers
    → enqueue_each left i p
      ≡ record p { tasks = numbered left i p.tasks; accepted = numbered left i p.accepted }
unfolding enqueue_each
enqueue_each-numbered zero i p open_pool quiet = refl
enqueue_each-numbered (suc left) i p open_pool quiet =
    let q : ThreadPool = record p { tasks = i ∷ p.tasks; accepted = i ∷ p.accepted } in
    ap (enqueue_each left (suc i)) (enqueue_quiet p i open_pool quiet)
    ∙ enqueue_each-numbered left (suc i) q open_pool quiet

broadcast-at_loops : (n : ℕ) → broadcast (at_loops n) ≡ at_loops n
unfolding broadcast at_loops
broadcast-at_loops zero = refl
broadcast-at_loops (suc n) = ap (λ ws. at_loop ∷ ws) (broadcast-at_loops n)

-- Every thread takes a task, the back of the list first.
all_take :
    (ts : List ℕ) (p : ThreadPool) (busy : List Worker)
    → p.workers ≡ busy ++ at_loops (length ts)
    → p.is_cancelled ≡ false
    → p.tasks ≡ ts
    → (q : ThreadPool) × Reach p q × (q.workers ≡ runs ts busy) × (q.tasks ≡ [])
unfolding at_loops
all_take [] p busy place on held = (p, here, place ∙ append-nil busy, held)
all_take (t ∷ ts) p busy place on held =
    let others = busy ++ at_loops (length ts) in
    let q : ThreadPool = record p { workers = others; tasks = ts; started = t ∷ p.started } in
    let p' : ThreadPool = record q { workers = running t ∷ others } in
    let step : Step p p' =
      thread busy (at_loops (length ts)) at_loop (running t) q place
        (takes (record p { workers = others }) at_loop t ts tt on held) in
    let (last, reach, taken, empty) = all_take ts p' (running t ∷ busy) refl on refl in
    (last, Reach-trans (next here step) reach, taken, empty)

length-zeros : (n : ℕ) → length (zeros n) ≡ n
unfolding zeros
length-zeros zero = refl
length-zeros (suc n) = ap suc (length-zeros n)

-- For any number of reactors the pool that is set up, with as many threads, can come to a state in
-- which every reactor's task runs in a thread of its own, and no task is left.
pub start_pool_runs :
    (count : ℕ)
    → (q : ThreadPool) × Reach (start_pool count) q
      × (q.workers ≡ each_running count 0)
      × (q.tasks ≡ [])
unfolding start_pool start_up thread_pool
start_pool_runs count =
    let p = start_up (thread_pool count) in
    let same : start_pool count
        ≡ record p { tasks = numbered count 0 []; accepted = numbered count 0 [] } =
      enqueue_each-numbered count 0 p refl (broadcast-at_loops (length (zeros count))) in
    let ts = numbered count 0 [] in
    let counted : length ts ≡ count = omega (arith, length-numbered count 0 []) in
    let (q, reach, taken, empty) =
      all_take ts (record p { tasks = ts; accepted = ts }) []
        (ap at_loops (length-zeros count ∙ sym counted)) refl refl in
    (
      q,
      subst (λ x. Reach x q) (sym same) reach,
      taken ∙ runs-numbered count 0 [] [] ∙ append-nil (each_running count 0),
      empty,
    )
