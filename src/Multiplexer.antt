-- ===== src/Multiplexer.antt =====
-- ztHttp/ztHttp/EventManager.h and EventManager.cpp: the state that reactors, handlers and the
-- server share, and class `EpollMultiplexer`, to which `Reactor` delegates. Objects are known by
-- their addresses; a reactor by the number of its multiplexer. A function here is a call that no
-- other thread interrupts; Server says where others come in between. What `epoll_wait` answers is an argument, and what is asked of the kernel is recorded.
pub mod Entries
pub mod Queue
pub mod Sound
pub mod Below
use zt_http.Common.{
  ℕ, suc, ◌+◌, ℤ, pos, negsuc, pred_ℤ, is_nonzero, Option, none, some, List, [], ◌∷◌, ◌++◌,
  if◌then◌else◌, undefined, Outcome, ok, fault, ◌>>=◌,
}
use zt_http.Common.Map.{lookup, insert, erase, update}
use zt_http.Tcp.{TcpSocket, Call}

-- Class `EpollEventHandler`. `rdy_events` and, in the constructor without a socket, the pointer
-- to the socket are left indeterminate.
pub record Handler : Type 0 where
  pub fd : ℕ
  pub events : ℕ
  pub rdy_events : ℕ
  pub reactor : ℕ
  pub tcp : Option TcpSocket

-- The constructor with a socket.
abbrev pub epoll_event_handler : ℕ → ℕ → ℕ → TcpSocket → Handler
epoll_event_handler fd events reactor tcp = record {
  fd = fd;
  events = events;
  rdy_events = 0;
  reactor = reactor;
  tcp = some tcp;
}

-- The constructor without one: its socket is a local variable that hides the member.
abbrev epoll_event_handler_alone : ℕ → ℕ → ℕ → Handler
epoll_event_handler_alone fd events reactor = record {
  fd = fd;
  events = events;
  rdy_events = 0;
  reactor = reactor;
  tcp = none;
}

-- What a pointer to an `EventHandlerAbstractClass` leads to.
pub data Object : Type 0 where
  epoll_handler : Handler → Object
  other_handler : Object

-- `_fds` and `rdy`.
pub record Multiplexer : Type 0 where
  pub fds : List (ℕ × (ℕ × Option ℕ))
  pub rdy : List (ℕ × ℕ)

-- The constructor of `EpollMultiplexer`.
abbrev pub epoll_multiplexer : Multiplexer
epoll_multiplexer = record { fds = []; rdy = [] }

pub data Op : Type 0 where
  ctl_add ctl_mod ctl_del : Op

pub data SysCall : Type 0 where
  epoll_ctl : ℕ → Op → ℕ → ℕ → SysCall
  socket_call : Call → SysCall
  linger_reset close_fd : ℕ → SysCall
  kill_usr2 pause : SysCall

-- `handlers` is the store of live objects; `wait_queue` has its last element in front.
pub record World : Type 0 where
  pub reactors : ℕ → Multiplexer
  pub handlers : ℕ → Option Object
  pub wait_queue : List ℕ
  pub register_flag : ℤ
  pub quit_wait_flag : ℤ
  pub calls : List SysCall

abbrev pub put_fds : World → ℕ → List (ℕ × (ℕ × Option ℕ)) → World
put_fds w r m = record w { reactors = update w.reactors r (record (w.reactors r) { fds = m }) }

abbrev log : World → SysCall → World
log w c = record w { calls = w.calls ++ c ∷ [] }

-- A pointer is dereferenced: the object must live.
abbrev pub deref : Option Object → Outcome Object
deref none = fault undefined
deref (some o) = ok o

-- `_fds[fd]`, which enters a null handler with no events if there is none.
pub at_fd : List (ℕ × (ℕ × Option ℕ)) → ℕ → ℕ × Option ℕ
at_fd m fd = elim (lookup fd m) [ none ↦ (0, none) | some e ↦ e ]

-- `epollUpdate`.
unfoldable pub epoll_update : World → ℕ → ℕ → Op → World
unfolding at_fd
epoll_update w r fd op =
    let m = (w.reactors r).fds in
    let entry = at_fd m fd in log (put_fds w r (insert fd entry m)) (epoll_ctl r op fd entry.0)

register_object : World → ℕ → ℕ → Object → Outcome (World × ℤ)
unfolding epoll_update
register_object w r p other_handler = ok (w, negsuc 0)
register_object w r p (epoll_handler h) =
    let m = (w.reactors r).fds in
    let w' = put_fds w r (insert h.fd (h.events, some p) m) in
    let op : Op = elim (lookup h.fd m) [ none ↦ ctl_add | some _ ↦ ctl_mod ] in
    ok (epoll_update w' r h.fd op, pos 0)

-- `register_handler` of reactor `r`, for the handler at address `p`.
unfoldable pub register_handler : World → ℕ → ℕ → Outcome (World × ℤ)
unfolding register_object
register_handler w r p = deref (w.handlers p) >>= register_object w r p

-- `delete p_handler`. The pointer's class has pure virtual functions, so the object is of a derived one,
-- and no virtual destructor: whatever the object is, its deletion is undefined behaviour.
delete_object : World → Object → Outcome World
delete_object w (epoll_handler h) = fault undefined
delete_object w other_handler = fault undefined

-- `_fds.erase(fd)`, `epollUpdate`, `delete p_handler`.
drop_handler : World → ℕ → ℕ → Handler → Outcome World
unfolding epoll_update delete_object
drop_handler w r p h =
    let w' = epoll_update (put_fds w r (erase h.fd (w.reactors r).fds)) r h.fd ctl_del in
    delete_object w' (epoll_handler h)

remove_object : World → ℕ → ℕ → Object → Outcome (World × ℤ)
unfolding drop_handler
remove_object w r p other_handler = ok (w, negsuc 0)
remove_object w r p (epoll_handler h) = elim (lookup h.fd (w.reactors r).fds) [
  | none ↦ ok (w, pos 0)
  | some _ ↦ drop_handler w r p h >>= λ w'. ok (w', pos 0)
]

-- `remove_handler`; it refuses while registrations are due.
unfoldable pub remove_handler : World → ℕ → ℕ → Outcome (World × ℤ)
unfolding remove_object
remove_handler w r p =
    if is_nonzero w.register_flag
    then ok (w, negsuc 0)
    else deref (w.handlers p) >>= remove_object w r p

close_all : List (ℕ × (ℕ × Option ℕ)) → List SysCall
close_all [] = []
close_all ((fd, _) ∷ m) = linger_reset fd ∷ close_fd fd ∷ close_all m

-- `quit_and_rst`: every connection is reset, both maps are emptied, and the last reactor to do so
-- wakes the signal thread. `pause` comes back after a signal.
unfoldable pub quit_and_rst : World → ℕ → World
unfolding close_all
quit_and_rst w r =
    let flag = pred_ℤ w.quit_wait_flag in
    let killed = if is_nonzero flag then [] else kill_usr2 ∷ [] in
    record w {
      reactors = update w.reactors r (record { fds = []; rdy = [] });
      quit_wait_flag = flag;
      calls = w.calls ++ close_all (w.reactors r).fds ++ killed ++ pause ∷ [];
    }

abbrev pub quit_if_asked : World → ℕ → World
quit_if_asked w r = if is_nonzero w.quit_wait_flag then quit_and_rst w r else w

-- What one `epoll_wait` answers: an error, or the ready descriptors with their events.
pub data Waited : Type 0 where
  wait_failed : Waited
  ready : List (ℕ × ℕ) → Waited

-- `rdy[ev.data.fd] = ev.events` for each event.
note_ready : List (ℕ × ℕ) → List (ℕ × ℕ) → List (ℕ × ℕ)
note_ready [] rdy = rdy
note_ready ((fd, events) ∷ evs) rdy = note_ready evs (insert fd events rdy)

count_events : List (ℕ × ℕ) → ℕ
count_events [] = 0
count_events (_ ∷ evs) = suc (count_events evs)

-- What follows `epoll_wait`, and the result: the number of events, or -1.
unfoldable pub note_waited : World → ℕ → Waited → World
unfolding note_ready
note_waited w r wait_failed = w
note_waited w r (ready evs) =
    let m = w.reactors r in
    record w { reactors = update w.reactors r (record m { rdy = note_ready evs m.rdy }) }

wait_result : Waited → ℤ
unfolding count_events
wait_result wait_failed = negsuc 0
wait_result (ready evs) = pos (count_events evs)

-- `select`.
unfoldable pub select : World → ℕ → Waited → World × ℤ
unfolding note_waited wait_result
select w r a = (note_waited (quit_if_asked w r) r a, wait_result a)
