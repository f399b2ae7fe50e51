-- ===== src/Multiplexer/Queue.antt =====
-- What the operations of a reactor do to the wait queue and to the count of due registrations.
use zt_http.Common.{
  ℕ, ◌≡◌, refl, ◌∙◌, pos, negsuc, is_nonzero, if_cases, ok, ◌>>=◌, Holds, bind-Holds,
}
use zt_http.Common.{option_cases}
use zt_http.Common.Map.{lookup}
use zt_http.Multiplexer.{
  Object, epoll_handler, other_handler, World, deref, remove_handler, remove_object, drop_handler,
  Waited, wait_failed, ready, note_waited, select, quit_if_asked, quit_and_rst, epoll_update,
  register_handler, register_object,
}

-- Both are as before.
abbrev pub SameCounts : World → World → Type 0
SameCounts w w' = (w'.wait_queue ≡ w.wait_queue) × (w'.register_flag ≡ w.register_flag)

register_object-SameCounts :
    (w : World) (r p : ℕ) (o : Object) → Holds (λ x. SameCounts w x.0) (register_object w r p o)
unfolding register_object epoll_update
register_object-SameCounts w r p other_handler = (refl, refl)
register_object-SameCounts w r p (epoll_handler h) = (refl, refl)

pub register_handler-SameCounts :
    (w : World) (r p : ℕ) → Holds (λ x. SameCounts w x.0) (register_handler w r p)
unfolding register_handler
register_handler-SameCounts w r p =
    bind-Holds (λ x. SameCounts w x.0) (deref (w.handlers p)) _ (register_object-SameCounts w r p)

remove_object-SameCounts :
    (w : World) (r p : ℕ) (o : Object) → Holds (λ x. SameCounts w x.0) (remove_object w r p o)
unfolding remove_object drop_handler epoll_update
remove_object-SameCounts w r p other_handler = (refl, refl)
remove_object-SameCounts w r p (epoll_handler h) =
    option_cases (Holds (λ x. SameCounts w x.0)) (lookup h.fd (w.reactors r).fds) (ok (w, pos 0))
      (λ e. drop_handler w r p h >>= λ w'. ok (w', pos 0)) (refl, refl) λ e. tt

pub remove_handler-SameCounts :
    (w : World) (r p : ℕ) → Holds (λ x. SameCounts w x.0) (remove_handler w r p)
unfolding remove_handler
remove_handler-SameCounts w r p =
    if_cases (Holds (λ x. SameCounts w x.0)) (is_nonzero w.register_flag) (ok (w, negsuc 0))
      (deref (w.handlers p) >>= remove_object w r p) (refl, refl)
      (bind-Holds _ (deref (w.handlers p)) (remove_object w r p) (remove_object-SameCounts w r p))

pub quit_if_asked-SameCounts : (w : World) (r : ℕ) → SameCounts w (quit_if_asked w r)
unfolding quit_and_rst
quit_if_asked-SameCounts w r =
    if_cases (SameCounts w) (is_nonzero w.quit_wait_flag) (quit_and_rst w r) w (refl, refl)
      (refl, refl)

pub note_waited-SameCounts : (w : World) (r : ℕ) (a : Waited) → SameCounts w (note_waited w r a)
unfolding note_waited
note_waited-SameCounts w r wait_failed = (refl, refl)
note_waited-SameCounts w r (ready evs) = (refl, refl)

pub select-SameCounts : (w : World) (r : ℕ) (a : Waited) → SameCounts w (select w r a).0
unfolding select
select-SameCounts w r a =
    let (queue, flag) = quit_if_asked-SameCounts w r in
    let (queue', flag') = note_waited-SameCounts (quit_if_asked w r) r a in
    (queue' ∙ queue, flag' ∙ flag)
