-- ===== src/EmTask.antt =====
-- ztHttp/ztHttp/EventManager.cpp: `EpollMultiplexer::handle_events`, and class `EMTask`, which
-- runs a reactor in a thread.
pub mod Registration
pub mod Ready
pub mod Queue
pub mod Sound
pub mod Foreign
use zt_http.Common.{
  ℕ, pred_ℤ, is_nonzero, Option, none, some, List, [], ◌∷◌, if◌then◌else◌, undefined, Outcome, ok,
  fault, ◌>>=◌,
}
use zt_http.Common.Map.{lookup, update}
use zt_http.Http.{FileSystem}
use zt_http.Multiplexer.{
  Object, epoll_handler, other_handler, World, deref, quit_if_asked, register_handler, Waited,
  select,
}
use zt_http.EventHandler.{Io, handle_event}

-- `setRdyEvents`.
set_rdy_events : Object → ℕ → Outcome Object
set_rdy_events (epoll_handler h) events = ok (epoll_handler (record h { rdy_events = events }))
set_rdy_events other_handler events = fault undefined

-- A ready descriptor that is not in `_fds` leads to the end iterator, and one with a null handler
-- to a null pointer.
find_handler : Option (ℕ × Option ℕ) → Outcome ℕ
find_handler none = fault undefined
find_handler (some (_, none)) = fault undefined
find_handler (some (_, some p)) = ok p

-- One round of the loop in `handle_events`.
unfoldable pub handle_ready : FileSystem → (ℕ → Io) → World → ℕ → ℕ × ℕ → Outcome World
unfolding find_handler set_rdy_events
handle_ready fs io w r (fd, events) = do
  p ← find_handler (lookup fd (w.reactors r).fds)
  o ← deref (w.handlers p)
  o' ← set_rdy_events o events
  handle_event fs (io fd) (record w { handlers = update w.handlers p (some o') }) p

pub handle_each : FileSystem → (ℕ → Io) → World → ℕ → List (ℕ × ℕ) → Outcome World
handle_each fs io w r [] = ok w
handle_each fs io w r (e ∷ es) = do w' ← handle_ready fs io w r e; handle_each fs io w' r es

-- `rdy.erase(rdy.begin(), rdy.end())`.
abbrev pub clear_rdy : World → ℕ → World
clear_rdy w r = record w { reactors = update w.reactors r (record (w.reactors r) { rdy = [] }) }

-- `handle_events`.
unfoldable pub handle_events : FileSystem → (ℕ → Io) → World → ℕ → Outcome World
unfolding handle_each
handle_events fs io w r = do
  let w0 = quit_if_asked w r
  w' ← handle_each fs io w0 r (w0.reactors r).rdy
  ok (clear_rdy w' r)

-- The loop of `registerEvents` over the queue, last element first.
unfoldable pub register_each : World → ℕ → List ℕ → Outcome World
register_each w r [] = ok (record w { wait_queue = [] })
register_each w r (p ∷ ps) = do
  (w', _) ← register_handler w r p
  register_each (record w' { register_flag = pred_ℤ w'.register_flag }) r ps

-- `EMTask::registerEvents`.
unfoldable pub register_events : World → ℕ → Outcome World
unfolding register_each
register_events w r = register_each w r w.wait_queue

-- One round of `EMTask::run`, which never leaves its loop. `others` is what the other threads do to the
-- shared state while `select` waits. `quit_reactor` does nothing.
unfoldable pub run_round :
    FileSystem → (ℕ → Io) → Waited → (World → World) → World → ℕ → Outcome World
run_round fs io waited others w r = do
  let w1 = others (select w r waited).0
  w2 ← if is_nonzero w1.register_flag then register_events w1 r else ok w1
  handle_events fs io w2 r
