-- ===== src/Server.antt =====
-- httpMPtest.cpp: the loop that accepts connections, and the queue in which they wait for a reactor;
-- ztHttp/ztHttp/zcsIO.cpp: the thread that takes the signals. What `accept` answers is an argument.

pub mod Bounds
pub mod Bursts
pub mod Life
pub mod SendCall
pub mod Start
pub mod Running
pub mod Safe
use zt_http.Common.{
  ℕ, suc, ◌+◌, ◌%◌, ◌≡◌, Bool, true, false, ◌||◌, ℤ, pos, succ_ℤ, Option, none, some, ◌∷◌, length,
  ◌==◌, if◌then◌else◌, ok,
}
use zt_http.Common.Map.{update}
use zt_http.Http.{FileSystem}
use zt_http.Tcp.{tcp_socket}
use zt_http.Multiplexer.{
  Handler, epoll_event_handler, epoll_handler, World, Waited, quit_if_asked, note_waited,
}
use zt_http.EventHandler.{Io}
use zt_http.EmTask.{register_events, handle_ready, clear_rdy}

-- `BACKLOG_Queue`.
abbrev pub backlog_queue : ℕ
backlog_queue = 32

-- The process: what the threads share, `reactor_select` of the accepting thread, the address that
-- the next object gets, and which signals are pending for the signal thread. A signal that is
-- pending already is not counted again.
pub record Server : Type 0 where
  pub world : World
  pub reactor_select : ℕ
  pub next_object : ℕ
  pub usr1_pending : Bool
  pub running : Bool

-- `enqueue_and_wait`: whether `pthread_kill(signal_handle_thread, SIGUSR1)` follows. A connection
-- that finds the queue full is dropped, and its handler and socket stay.
unfoldable pub enqueue_and_wait : World → ℕ → World × Bool
enqueue_and_wait w p =
    if length w.wait_queue == backlog_queue
    then (w, false)
    else (record w { wait_queue = p ∷ w.wait_queue }, true)

-- `EPOLLOUT|EPOLLRDHUP`.
abbrev pub accepted_events : ℕ
accepted_events = 0x2004

abbrev pub accepted : ℕ → ℕ → ℕ → Handler
accepted r fd port = epoll_event_handler fd accepted_events r (tcp_socket fd port)

-- A round of the loop of `start_server`: `accept` fails, or gives a descriptor; the port is what
-- `getsockname` tells. There are two reactors.
unfoldable pub accept_round : Server → Option (ℕ × ℕ) → Server
unfolding enqueue_and_wait
accept_round s none = record s { reactor_select = (s.reactor_select + 1) % 2 }
accept_round s (some (fd, port)) =
    let r = (s.reactor_select + 1) % 2 in
    let p = s.next_object in
    let w = record s.world {
      handlers = update s.world.handlers p (some (epoll_handler (accepted r fd port)));
    } in
    let (w', signalled) = enqueue_and_wait w p in
    record s {
      world = w';
      reactor_select = r;
      next_object = suc p;
      usr1_pending = s.usr1_pending || signalled;
    }

pub data Signal : Type 0 where
  sigint sigusr1 sigusr2 other_signal : Signal

-- A round of `signal_handle`, for the signal that `sigwait` gives.
unfoldable pub signal_handle : Server → Signal → Server
signal_handle s sigint = record s { world = record s.world { quit_wait_flag = pos 2 } }
signal_handle s sigusr1 = record s {
  world = record s.world { register_flag = succ_ℤ s.world.register_flag };
  usr1_pending = false;
}
signal_handle s sigusr2 = record s { running = false }
signal_handle s other_signal = s

-- The threads take turns: the accepting thread, the signal thread, and the threads of the reactors, each
-- of which can be interrupted between the parts of a round of `EMTask::run`. What a reactor does next,
-- and to which descriptor, is left open, and so is what the threads' `++` and `--` of the two
-- unprotected flags leave in them. A removal that returns changes nothing, so these orders have all that
-- can come of one before which other threads act: `counting` makes it refuse, they act, and go on.
pub data Step : Server → Server → Type 0 where
  accepting : (s : Server) (c : Option (ℕ × ℕ)) → Step s (accept_round s c)
  signalled : (s : Server) (signal : Signal) → Step s (signal_handle s signal)
  quitting : (s : Server) (r : ℕ) → Step s (record s { world = quit_if_asked s.world r })
  waited : (s : Server) (r : ℕ) (a : Waited) → Step s (record s { world = note_waited s.world r a })
  registering :
      (s : Server) (r : ℕ) (w : World)
      → register_events s.world r ≡ ok w
      → Step s (record s { world = w })
  handling :
      (s : Server) (fs : FileSystem) (io : ℕ → Io) (r : ℕ) (e : ℕ × ℕ) (w : World)
      → handle_ready fs io s.world r e ≡ ok w
      → Step s (record s { world = w })
  clearing : (s : Server) (r : ℕ) → Step s (record s { world = clear_rdy s.world r })
  counting :
      (s : Server) (flag quit : ℤ)
      → Step s (record s { world = record s.world { register_flag = flag; quit_wait_flag = quit } })

pub data Reach (s : Server) : Server → Type 0 where
  start : Reach s s
  next : (t u : Server) → Reach s t → Step t u → Reach s u
