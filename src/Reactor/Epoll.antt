-- ===== src/Reactor/Epoll.antt =====
-- `EpollMultiplexer` as the multiplexer of a reactor.
use zt_http.Common.{ℕ, pred_ℤ, []}
use zt_http.Http.{FileSystem}
use zt_http.Multiplexer
use zt_http.Multiplexer.{World, Waited}
use zt_http.EventHandler.{Io}
use zt_http.EmTask
use zt_http.Reactor.{EventMultiplexer, Reactor, Globals, register_handler, handle_events, select}

-- The one of reactor `r`, with what the kernel answers while it runs.
abbrev epoll : FileSystem → (ℕ → Io) → Waited → ℕ → EventMultiplexer World
epoll fs io waited r = record {
  on_events = λ w. EmTask.handle_events fs io w r;
  on_register = λ w p. Multiplexer.register_handler w r p;
  on_remove = λ w p. Multiplexer.remove_handler w r p;
  on_select = λ w. Multiplexer.select w r waited;
}

abbrev pub reactor : FileSystem → (ℕ → Io) → Waited → ℕ → Reactor World
reactor fs io waited r = record { em = epoll fs io waited r }

abbrev globals : Globals World
globals = record {
  wait_queue = λ w. w.wait_queue;
  register_flag = λ w. w.register_flag;
  clear_queue = λ w. record w { wait_queue = [] };
  lower_flag = λ w. record w { register_flag = pred_ℤ w.register_flag };
}
