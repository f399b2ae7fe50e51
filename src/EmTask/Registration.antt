-- ===== src/EmTask/Registration.antt =====
-- What `EMTask::registerEvents` makes of the wait queue.
use zt_http.Common.{
  ℕ, zero, suc, ◌≡◌, refl, sym, ap, ◌∙◌, subst, ◌≢◌, true, ℤ, pos, negsuc, pred_ℤ, is_nonzero,
  Option, some, List, [], ◌∷◌, length, ok,
}
use zt_http.Multiplexer.{Handler, Object, epoll_handler, World, remove_handler}
use zt_http.Multiplexer.Entries.{entry, register_handler_lem, remove_handler_refused}
use zt_http.EmTask.{register_each, register_events}

-- The objects in the queue `ps` are the live handlers `hs`.
abbrev pub Queued : (ℕ → Option Object) → List ℕ → List Handler → Type 0
Queued live [] [] = Unit
Queued live [] (_ ∷ _) = ⊥
Queued live (_ ∷ _) [] = ⊥
Queued live (p ∷ ps) (h ∷ hs) = (live p ≡ some (epoll_handler h)) × Queued live ps hs

abbrev pub NoFd : ℕ → List Handler → Type 0
NoFd fd [] = Unit
NoFd fd (h ∷ hs) = (h.fd ≢ fd) × NoFd fd hs

-- They are for different descriptors.
abbrev pub DistinctFds : List Handler → Type 0
DistinctFds [] = Unit
DistinctFds (h ∷ hs) = NoFd h.fd hs × DistinctFds hs

-- Each of them has an entry in reactor `r`.
abbrev pub Entered : World → ℕ → List ℕ → List Handler → Type 0
Entered w r (p ∷ ps) (h ∷ hs) = (entry w r h.fd ≡ some (h.events, some p)) × Entered w r ps hs
Entered w r _ _ = Unit

-- `--register_flag`, as often as said.
abbrev pub decremented : ℕ → ℤ → ℤ
decremented zero z = z
decremented (suc n) z = decremented n (pred_ℤ z)

Queued-eq :
    (f g : ℕ → Option Object) (ps : List ℕ) (hs : List Handler)
    → g ≡ f
    → Queued f ps hs
    → Queued g ps hs
Queued-eq f g ps hs e = subst (λ live. Queued live ps hs) (sym e)

-- One registration after another: the queue is emptied, each handler has its entry, the entries of
-- other descriptors stay, and the flag goes down by the length of the queue.
register_each_lem :
    (ps : List ℕ) (hs : List Handler) (w : World) (r : ℕ)
    → Queued w.handlers ps hs
    → DistinctFds hs
    → (w' : World) × (register_each w r ps ≡ ok w')
      × (w'.wait_queue ≡ [])
      × (w'.register_flag ≡ decremented (length ps) w.register_flag)
      × Entered w' r ps hs
      × ((fd : ℕ) → NoFd fd hs → entry w' r fd ≡ entry w r fd)
unfolding register_each
register_each_lem [] [] w r q d = (record w { wait_queue = [] }, refl, refl, refl, tt, λ fd n. refl)
register_each_lem [] (h ∷ hs) w r q d = absurd q
register_each_lem (p ∷ ps) [] w r q d = absurd q
register_each_lem (p ∷ ps) (h ∷ hs) w r (live, q) (fresh, d) =
    let (w1, run, entered, others, _, same_handlers, same_flag) =
      register_handler_lem w r p h live in
    let w1' : World = record w1 { register_flag = pred_ℤ w1.register_flag } in
    let (w2, rest, empty, flag, all, kept) =
      register_each_lem ps hs w1' r (Queued-eq w.handlers w1.handlers ps hs same_handlers q) d in
    (
      w2,
      rw run rest,
      empty,
      flag ∙ ap (λ z. decremented (length ps) (pred_ℤ z)) same_flag,
      (kept h.fd fresh ∙ entered, all),
      λ fd n. kept fd n.1 ∙ others fd n.0,
    )

-- Over a queue of live handlers for different descriptors `registerEvents` ends: the queue is empty,
-- each handler has its entry in this reactor, whichever reactor the handler names, and the flag has
-- gone down by the length of the queue.
pub register_events_lem :
    (hs : List Handler) (w : World) (r : ℕ)
    → Queued w.handlers w.wait_queue hs
    → DistinctFds hs
    → (w' : World) × (register_events w r ≡ ok w')
      × (w'.wait_queue ≡ [])
      × (w'.register_flag ≡ decremented (length w.wait_queue) w.register_flag)
      × Entered w' r w.wait_queue hs
unfolding register_events
register_events_lem hs w r q d =
    let (w', run, empty, flag, all, _) = register_each_lem w.wait_queue hs w r q d in
    (w', run, empty, flag, all)

-- A queue of one.
pub register_events_one :
    (w : World) (r p : ℕ) (h : Handler)
    → w.wait_queue ≡ p ∷ []
    → w.handlers p ≡ some (epoll_handler h)
    → (w' : World) × (register_events w r ≡ ok w')
      × (entry w' r h.fd ≡ some (h.events, some p))
      × (w'.handlers ≡ w.handlers)
      × (w'.register_flag ≡ pred_ℤ w.register_flag)
unfolding register_events register_each
register_events_one w r p h one live =
    let (w1, run, entered, _, _, same_handlers, same_flag) = register_handler_lem w r p h live in
    (
      record w1 { wait_queue = []; register_flag = pred_ℤ w1.register_flag },
      ap (register_each w r) one ∙ rw run refl,
      entered,
      same_handlers,
      ap pred_ℤ same_flag,
    )

decremented-negsuc : (n k : ℕ) → is_nonzero (decremented n (negsuc k)) ≡ true
decremented-negsuc zero k = refl
decremented-negsuc (suc n) k = decremented-negsuc n (suc k)

decremented_nonzero : (n k : ℕ) → n ≢ k → is_nonzero (decremented n (pos k)) ≡ true
decremented_nonzero zero zero ne = absurd (ne refl)
decremented_nonzero zero (suc k) ne = refl
decremented_nonzero (suc n) zero ne = decremented-negsuc n 0
decremented_nonzero (suc n) (suc k) ne = decremented_nonzero n k (λ e. ne (ap suc e))

-- The flag counts signals and the queue connections. If `k` signals were seen while the queue holds
-- another number of connections, as when signals merge, then `registerEvents` ends, and as long as the
-- flag stays as it leaves it, whatever else changes, every removal from any reactor is refused.
pub merged_signals_block :
    (hs : List Handler) (w : World) (r k : ℕ)
    → Queued w.handlers w.wait_queue hs
    → DistinctFds hs
    → w.register_flag ≡ pos k
    → length w.wait_queue ≢ k
    → (w' : World) × (register_events w r ≡ ok w')
      × ((later : World)
          → later.register_flag ≡ w'.register_flag
          → (r' p : ℕ) → remove_handler later r' p ≡ ok (later, negsuc 0))
merged_signals_block hs w r k q d counted ne =
    let (w', run, _, flag, _) = register_events_lem hs w r q d in
    let due : is_nonzero w'.register_flag ≡ true =
      ap is_nonzero (flag ∙ ap (decremented (length w.wait_queue)) counted)
      ∙ decremented_nonzero (length w.wait_queue) k ne in
    (w', run, λ later same r' p. remove_handler_refused later r' p (ap is_nonzero same ∙ due))
