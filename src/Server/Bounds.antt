-- ===== src/Server/Bounds.antt =====
-- The bound on the wait queue.
use zt_http.Common.{
  ℕ, ◌≤◌, ◌≡◌, refl, sym, subst, inl, inr, pred_ℤ, none, some, List, [], ◌∷◌, arith, length, ◌==◌,
  Bool-cases, Holds, bind-Holds,
}
use zt_http.Multiplexer.{World, register_handler}
use zt_http.Multiplexer.Queue.{SameCounts, quit_if_asked-SameCounts, note_waited-SameCounts}
use zt_http.EmTask.{register_each, register_events}
use zt_http.EmTask.Queue.{handle_ready-SameCounts}
use zt_http.Server.{
  Server, backlog_queue, enqueue_and_wait, accept_round, signal_handle, sigint, sigusr1, sigusr2,
  other_signal, Step, accepting, signalled, quitting, waited, registering, handling, clearing,
  counting, Reach, start, next,
}

abbrev pub IsBounded : Server → Type 0
IsBounded s = length s.world.wait_queue ≤ backlog_queue

enqueue_and_wait-length :
    (w : World) (p : ℕ)
    → length w.wait_queue ≤ backlog_queue
    → length (enqueue_and_wait w p).0.wait_queue ≤ backlog_queue
unfolding enqueue_and_wait
enqueue_and_wait-length w p h = elim (Bool-cases (length w.wait_queue == backlog_queue)) [
  | inl full ↦ rw full h
  | inr room ↦ rw room (ground (arith, h))
]

register_each-empties :
    (w : World) (r : ℕ) (ps : List ℕ) → Holds (λ w'. w'.wait_queue ≡ []) (register_each w r ps)
unfolding register_each
register_each-empties w r [] = refl
register_each-empties w r (p ∷ ps) =
    bind-Holds (λ w'. w'.wait_queue ≡ []) (register_handler w r p) _
      λ x. register_each-empties (record x.0 { register_flag = pred_ℤ x.0.register_flag }) r ps

same_bound : (q q' : List ℕ) → q' ≡ q → length q ≤ backlog_queue → length q' ≤ backlog_queue
same_bound q q' same h = subst (λ l. length l ≤ backlog_queue) (sym same) h

Step-IsBounded : (s t : Server) → Step s t → IsBounded s → IsBounded t
unfolding accept_round signal_handle register_events
Step-IsBounded _ _ (accepting s none) h = h
Step-IsBounded _ _ (accepting s (some c)) h = enqueue_and_wait-length _ s.next_object h
Step-IsBounded _ _ (signalled s sigint) h = h
Step-IsBounded _ _ (signalled s sigusr1) h = h
Step-IsBounded _ _ (signalled s sigusr2) h = h
Step-IsBounded _ _ (signalled s other_signal) h = h
Step-IsBounded _ _ (quitting s r) h =
    same_bound s.world.wait_queue _ (quit_if_asked-SameCounts s.world r).0 h
Step-IsBounded _ _ (waited s r a) h =
    same_bound s.world.wait_queue _ (note_waited-SameCounts s.world r a).0 h
Step-IsBounded _ _ (registering s r w ran) h =
    same_bound [] w.wait_queue
      (subst (Holds (λ w'. w'.wait_queue ≡ [])) ran
        (register_each-empties s.world r s.world.wait_queue))
      (omega arith)
Step-IsBounded _ _ (handling s fs io r e w ran) h =
    same_bound s.world.wait_queue w.wait_queue
      (subst (Holds (SameCounts s.world)) ran (handle_ready-SameCounts fs io s.world r e)).0 h
Step-IsBounded _ _ (clearing s r) h = h
Step-IsBounded _ _ (counting s flag quit) h = h

-- However the accepting thread, the signal thread and the reactors take turns, the wait queue never
-- holds more than 32 connections if it did not at the start.
pub Reach-IsBounded : (s t : Server) → IsBounded s → Reach s t → IsBounded t
Reach-IsBounded s _ h start = h
Reach-IsBounded s _ h (next t u before step) =
    Step-IsBounded t u step (Reach-IsBounded s t h before)
