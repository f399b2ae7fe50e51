-- ===== src/Server/Start.antt =====
-- What `start_server` of httpMPtest.cpp does before its loop. `count` is its `_count`, which is 2;
-- the reactors, and the `EMTask` of each, are known by their numbers.
use zt_http.Common.{ℕ, zero, suc, true, false, ℤ, pos, none, List, [], ◌∷◌, arith}
use zt_http.Server.{Server, Reach, Signal, sigint, sigusr1, sigusr2}
use zt_http.Server.Bounds.{IsBounded, Reach-IsBounded}
use zt_http.Multiplexer.{epoll_multiplexer}
use zt_http.Sockets.{Answers, SockCall}
use zt_http.Sockets
use zt_http.ThreadPool.{ThreadPool, thread_pool, start_up, enqueue}

-- The globals and the objects that the accepting thread has made.
pub record Process : Type 0 where
  pub server : Server
  pub pool : ThreadPool
  pub masked : List Signal
  pub handled : List Signal
  pub listening : ℤ
  pub port : ℕ
  pub asked : List SockCall

-- `for(int i=0; i<_count; ++i) tp.enqueue(EMTaskss[i])`, with `left` tasks still to come.
unfoldable pub enqueue_each : ℕ → ℕ → ThreadPool → ThreadPool
enqueue_each zero i p = p
enqueue_each (suc left) i p = enqueue_each left (suc i) (enqueue p i).0

-- The pool with its threads and a task for each reactor.
unfoldable pub start_pool : ℕ → ThreadPool
unfolding enqueue_each
start_pool count = enqueue_each count 0 (start_up (thread_pool count))

-- The shared state as the globals are initialised: nothing is registered, and the queue is empty.
-- `next_object` is the address that the first handler gets.
abbrev first_server : ℕ → Server
first_server next_object = record {
  world = record {
    reactors = λ r. epoll_multiplexer;
    handlers = λ p. none;
    wait_queue = [];
    register_flag = pos 0;
    quit_wait_flag = pos 0;
    calls = [];
  };
  reactor_select = 0;
  next_object = next_object;
  usr1_pending = false;
  running = true;
}

-- The set-up, with the answers of the kernel, what `s_name` of `start_up` happens to hold, and the
-- address of the first handler. The signals of the mask get the handler `sig_tran`; nothing blocks
-- them.
unfoldable pub start_server : Answers → ℕ → ℕ → Process
unfolding start_pool
start_server a stack next_object =
    let signals : List Signal = sigint ∷ sigusr1 ∷ sigusr2 ∷ [] in
    let (asked, fd, port) = Sockets.start_up a stack 0 in
    record {
      server = first_server next_object;
      pool = start_pool 2;
      masked = signals;
      handled = signals;
      listening = fd;
      port = port;
      asked = asked;
    }

-- From the set-up on, however the threads take turns, the wait queue never holds more than 32
-- connections.
pub start_server-IsBounded :
    (a : Answers) (stack next_object : ℕ) (s : Server)
    → Reach (start_server a stack next_object).server s
    → IsBounded s
unfolding start_server
start_server-IsBounded a stack next_object s reach =
    Reach-IsBounded (start_server a stack next_object).server s (omega arith) reach
