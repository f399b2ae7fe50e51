-- ===== src/ThreadPool/Progress.antt =====
-- What the next step of a thread does.
use zt_http.Common.{
  ℕ, ◌≡◌, refl, sym, ap, ◌∙◌, subst, false, pos, negsuc, List, [], ◌∷◌, ◌++◌, arith, if◌then◌else◌,
  ok,
}
use zt_http.ThreadPool.{
  ThreadPool, Worker, at_loop, waiting, woken, finished, running, broadcast, run_thread, enqueue,
  Step, thread, Reach, here, next,
}

pub Reach-trans : {p q r : ThreadPool} → Reach p q → Reach q r → Reach p r
Reach-trans a here = a
Reach-trans a (next b s) = next (Reach-trans a b) s

abbrev TakesAt : Worker → Type 0
TakesAt at_loop = Unit
TakesAt woken = Unit
TakesAt _ = ⊥

pub takes :
    (p : ThreadPool) (w : Worker) (t : ℕ) (ts : List ℕ)
    → TakesAt w
    → p.is_cancelled ≡ false
    → p.tasks ≡ t ∷ ts
    → run_thread p w ≡ ok (record p { tasks = ts; started = t ∷ p.started }, running t)
unfolding run_thread
takes p at_loop t ts h on held = ground arith
takes p woken t ts h on held = ground arith
takes p waiting t ts h on held = absurd h
takes p finished t ts h on held = absurd h
takes p (running _) t ts h on held = absurd h

broadcast-append :
    (before after : List Worker) → broadcast (before ++ after) ≡ broadcast before ++ broadcast after
unfolding broadcast
broadcast-append [] after = refl
broadcast-append (waiting ∷ ws) after = ap (λ l. woken ∷ l) (broadcast-append ws after)
broadcast-append (at_loop ∷ ws) after = ap (λ l. at_loop ∷ l) (broadcast-append ws after)
broadcast-append (woken ∷ ws) after = ap (λ l. woken ∷ l) (broadcast-append ws after)
broadcast-append (finished ∷ ws) after = ap (λ l. finished ∷ l) (broadcast-append ws after)
broadcast-append (running t ∷ ws) after = ap (λ l. running t ∷ l) (broadcast-append ws after)

-- A task is put into a pool that is neither waited for nor ended, while a thread waits: the one next
-- step of that thread, whichever of those waiting it is, begins that task, ahead of the tasks that
-- were in the list before, which stay.
pub enqueue_wakes :
    (p : ThreadPool) (t : ℕ) (before after : List Worker)
    → p.is_waited ≡ false
    → p.is_cancelled ≡ false
    → p.workers ≡ before ++ waiting ∷ after
    → (q : ThreadPool) × ((enqueue p t).1 ≡ pos 0)
      × Step (enqueue p t).0 q
      × (q.workers ≡ running t ∷ broadcast before ++ broadcast after)
      × (q.started ≡ t ∷ p.started)
      × (q.tasks ≡ p.tasks)
unfolding enqueue broadcast
enqueue_wakes p t before after taken on place =
    let others = broadcast before ++ broadcast after in
    let put : ThreadPool = record p {
      tasks = t ∷ p.tasks;
      accepted = t ∷ p.accepted;
      workers = broadcast p.workers;
    } in
    let rest : ThreadPool = record put { workers = others } in
    let q : ThreadPool = record rest { tasks = p.tasks; started = t ∷ p.started } in
    let begins : Step put (record q { workers = running t ∷ others }) =
      thread (broadcast before) (broadcast after) woken (running t) q
        (ap broadcast place ∙ broadcast-append before (waiting ∷ after))
        (takes rest woken t p.tasks tt on refl) in
    let same : enqueue p t ≡ (put, pos 0) =
      ap (λ b. if b then (p, negsuc 0) else (put, pos 0)) taken in
    (
      record q { workers = running t ∷ others },
      ap (λ x. x.1) same,
      subst (λ x. Step x.0 (record q { workers = running t ∷ others })) (sym same) begins,
      refl,
      refl,
      refl,
    )
