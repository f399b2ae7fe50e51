-- ===== src/Server/Life.antt =====
-- The life of one connection, from `accept` to its first event.
use zt_http.Common.{
  ℕ, ◌+◌, ◌%◌, ◌≡◌, refl, ap, ◌∙◌, true, false, pos, succ_ℤ, pred_ℤ, some, [], ◌∷◌, length, ◌==◌,
  undefined, ok, fault,
}
use zt_http.Common.Map.{update, update_self}
use zt_http.Http.{FileSystem}
use zt_http.Tcp.Fresh.{FitsRequest}
use zt_http.Multiplexer.{Handler, epoll_handler, World}
use zt_http.Multiplexer.Entries.{entry}
use zt_http.EventHandler.{Io, has_event, epoll_err, epoll_hup}
use zt_http.EventHandler.Fresh.{handle_event_fresh}
use zt_http.EmTask.{register_events, handle_ready}
use zt_http.EmTask.Registration.{register_events_one}
use zt_http.Server.{
  Server, accepted, accepted_events, accept_round, enqueue_and_wait, signal_handle, sigusr1,
}

first_event :
    (fs : FileSystem) (io : ℕ → Io) (w : World) (r p q fd port events : ℕ) (e : ℕ)
    → w.handlers p ≡ some (epoll_handler (accepted q fd port))
    → entry w r fd ≡ some (e, some p)
    → has_event events epoll_err ≡ false
    → has_event events epoll_hup ≡ false
    → FitsRequest (io fd).received
    → handle_ready fs io w r (fd, events) ≡ fault undefined
unfolding handle_ready
first_event fs io w r p q fd port events e live found no_err no_hup fits =
    let h : Handler = record (accepted q fd port) { rdy_events = events } in
    let w' : World = record w { handlers = update w.handlers p (some (epoll_handler h)) } in
    rw found (
      rw live (
        handle_event_fresh fs (io fd) w' p h fd port refl
          (update_self w.handlers p (some (epoll_handler h))) no_err no_hup fits))

enqueue_empty :
    (w : World) (p : ℕ)
    → w.wait_queue ≡ []
    → enqueue_and_wait w p ≡ (record w { wait_queue = p ∷ [] }, true)
unfolding enqueue_and_wait
enqueue_empty w p empty =
    let room : (length w.wait_queue == 32) ≡ false = ap (λ q. length q == 32) empty in
    rw room (ap (λ q. (record w { wait_queue = p ∷ q }, true)) empty)

-- The process once the connection waits and its signal was taken.
abbrev waiting_world : Server → ℕ → ℕ → World
waiting_world s fd port = record s.world {
  handlers =
      update s.world.handlers s.next_object
        (some (epoll_handler (accepted ((s.reactor_select + 1) % 2) fd port)));
  wait_queue = s.next_object ∷ [];
  register_flag = succ_ℤ s.world.register_flag;
}

accepted_waits :
    (s : Server) (fd port : ℕ)
    → s.world.wait_queue ≡ []
    → (signal_handle (accept_round s (some (fd, port))) sigusr1).world ≡ waiting_world s fd port
unfolding accept_round signal_handle
accepted_waits s fd port empty =
    let w : World = record s.world {
      handlers =
          update s.world.handlers s.next_object
            (some (epoll_handler (accepted ((s.reactor_select + 1) % 2) fd port)));
    } in
    ap (λ x. record x.0 { register_flag = succ_ℤ x.0.register_flag })
      (enqueue_empty w s.next_object empty)

-- From an empty queue and no registration due: a connection is accepted, the signal thread takes its
-- signal, and a reactor registers it, with an entry for its descriptor and no registration due again.
-- Its first event then, unless it is an error or a hang-up, is undefined behaviour, whatever the
-- kernel answers: each operation of the socket tests a callback that its constructor left
-- indeterminate.
pub first_event_undefined :
    (s : Server) (fd port r : ℕ) (fs : FileSystem) (io : ℕ → Io) (events : ℕ)
    → s.world.wait_queue ≡ []
    → s.world.register_flag ≡ pos 0
    → has_event events epoll_err ≡ false
    → has_event events epoll_hup ≡ false
    → FitsRequest (io fd).received
    → (w : World) × (register_events
          (signal_handle (accept_round s (some (fd, port))) sigusr1).world
          r
        ≡ ok w)
      × (entry w r fd ≡ some (accepted_events, some s.next_object))
      × (w.register_flag ≡ pos 0)
      × (handle_ready fs io w r (fd, events) ≡ fault undefined)
first_event_undefined s fd port r fs io events empty idle no_err no_hup fits =
    let p = s.next_object in
    let q = (s.reactor_select + 1) % 2 in
    let live = update_self s.world.handlers p (some (epoll_handler (accepted q fd port))) in
    let (w, run, entered, same, flag) =
      register_events_one (waiting_world s fd port) r p (accepted q fd port) refl live in
    (
      w,
      ap (λ x. register_events x r) (accepted_waits s fd port empty) ∙ run,
      entered,
      flag ∙ ap (λ z. pred_ℤ (succ_ℤ z)) idle,
      first_event fs io w r p q fd port events accepted_events (ap (λ f. f p) same ∙ live) entered
          no_err no_hup fits,
    )
