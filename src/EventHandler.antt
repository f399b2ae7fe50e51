-- ===== src/EventHandler.antt =====
-- `EpollEventHandler::handle_event` of ztHttp/ztHttp/EventManager.cpp. Every branch ends in
-- `remove_handler(this)`.
pub mod Removal
pub mod Fresh
pub mod Hangup
use zt_http.Common.{
  ℕ, Bool, true, false, not, ◌&&◌, ◌||◌, bit_and, ℤ, pos, negsuc, none, some, List, ◌++◌, map,
  Bytes, ◌==◌, if◌then◌else◌, undefined, Outcome, ok, fault, ◌>>=◌,
}
use zt_http.Common.Map.{update}
use zt_http.Buffer.{null}
use zt_http.Http.{FileSystem}
use zt_http.Tcp.{TcpSocket, Call, Sent, Received}
use zt_http.Tcp
use zt_http.Multiplexer.{
  Handler, Object, epoll_handler, other_handler, World, socket_call, deref, remove_handler,
}

-- What the kernel answers while a handler runs, and what the arrays of `Http::write` hold.
pub record Io : Type 0 where
  pub received : Received
  pub sent : Sent
  pub stack : Bytes
  pub stack' : Bytes

abbrev pub epoll_in : ℕ
epoll_in = 1

abbrev pub epoll_out : ℕ
epoll_out = 4

abbrev pub epoll_err : ℕ
epoll_err = 8

abbrev pub epoll_hup : ℕ
epoll_hup = 16

-- `events & bit`.
unfoldable pub has_event : ℕ → ℕ → Bool
has_event events bit = not (bit_and events bit == 0)

is_minus_one : ℤ → Bool
is_minus_one (pos n) = false
is_minus_one (negsuc n) = n == 0

-- The object of class `EpollEventHandler` that a method runs on.
as_handler : Object → Outcome Handler
as_handler (epoll_handler h) = ok h
as_handler other_handler = fault undefined

-- The socket's new state, kept in the handler at `p`, and its calls.
pub store : World → ℕ → Handler → TcpSocket → List Call → World
store w p h s calls = record w {
  handlers = update w.handlers p (some (epoll_handler (record h { tcp = some s })));
  calls = w.calls ++ map socket_call calls;
}

pub socket_of : Handler → Outcome TcpSocket
socket_of h = elim h.tcp [ none ↦ fault undefined | some s ↦ ok s ]

-- `handle_read` or `handle_write`, if its event is there: whether the connection is gone.
attempt :
    Bool
    → (TcpSocket → Outcome (TcpSocket × List Call × ℤ))
    → World
    → ℕ
    → Handler
    → Outcome (World × Handler × Bool)
unfolding socket_of store is_minus_one
attempt false use_socket w p h = ok (w, h, false)
attempt true use_socket w p h = do
  s ← socket_of h
  (s', calls, siz) ← use_socket s
  ok (store w p h s' calls, record h { tcp = some s' }, is_minus_one siz && not s'.is_connected)

-- `_p_reactor->remove_handler(this)`.
unfoldable pub remove_this : World → ℕ → Handler → Outcome World
remove_this w p h = do (w', _) ← remove_handler w h.reactor p; ok w'

-- `_p_tcp->disConnected()`, and the removal.
disconnect : World → ℕ → Handler → Outcome World
unfolding socket_of store remove_this
disconnect w p h = do
  s ← socket_of h
  (s', calls) ← Tcp.dis_connected s
  remove_this (store w p h s' calls) p h

after_write : ℕ → World × Handler × Bool → Outcome World
unfolding disconnect
after_write p (w, h, gone) = if gone then remove_this w p h else disconnect w p h

after_read : FileSystem → Io → ℕ → World × Handler × Bool → Outcome World
unfolding attempt after_write
after_read fs io p (w, h, gone) =
    if gone
    then remove_this w p h
    else attempt (has_event h.rdy_events epoll_out) (Tcp.write fs io.stack io.stack' io.sent null) w
        p h
      >>= after_write p

handle_with : FileSystem → Io → World → ℕ → Handler → Outcome World
unfolding after_read
handle_with fs io w p h =
    if has_event h.rdy_events epoll_err || has_event h.rdy_events epoll_hup
    then remove_this w p h
    else attempt (has_event h.rdy_events epoll_in) (Tcp.read io.received) w p h
      >>= after_read fs io p

-- `handle_event` of the handler at `p`.
unfoldable pub handle_event : FileSystem → Io → World → ℕ → Outcome World
unfolding handle_with as_handler
handle_event fs io w p = do o ← deref (w.handlers p); h ← as_handler o; handle_with fs io w p h
