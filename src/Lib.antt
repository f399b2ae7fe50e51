-- ===== src/Lib.antt =====
-- A verification library for ztHttp, an HTTP server in C++: a chunked buffer, sockets, a reactor over
-- epoll, a pool of threads, and the answering of requests.
--
-- The parts and the files that model them (paths from the repository's root):
--
-- - Common holds shared names, lists and Boolean tests over the native numbers, `std::map` (Common/Map),
--   and `Outcome`, how a call ends: with a value, or with a fault (undefined behaviour, an aborted
--   process, an exception of `vector::at`, an endless loop).
-- - Buffer models class `IOBuffer` of IOBuffer.h and ztHttp/ztHttp/IOBuffer.cpp. `append_data`, `append`,
--   `pull_down`, `consume` are `append(const T*, unsigned)`, `append(IOBufferAbstractClass*)`,
--   `pullDown`, `consume`. Proofs in Buffer/Stream, Buffer/Cycle, Buffer/Refinement, Buffer/Single,
--   Buffer/Overflow; Buffer/Abstraction says when two buffers are alike for every client.
-- - CText models `isspace`, `strcasecmp`, NUL-terminated strings, `fgets` and `feof`.
-- - Request models the scan of the request line, which ztHttp/ztHttp/tcp.cpp and ztHttp/ztHttp/simHttp.cpp
--   write alike.
-- - Http models class `Http` of ztHttp/ztHttp/tcp.h and tcp.cpp. It reads a request out of an `IOBuffer`
--   and appends an answer to another. The file system is a parameter; the uninitialised arrays of
--   the source are arguments (`stack`). Http/Answer, Http/Cat and Http/Serve hold the proofs.
-- - Tcp models class `TcpSocket`, which owns two buffers and an `Http`. What `send` and `recv` answer is
--   an argument, and the calls of the kernel are part of the result. Proofs in Tcp/Write, Tcp/Fields,
--   Tcp/Status, Tcp/Fresh and Tcp/Reading.
-- - Multiplexer models the state that reactors, handlers and the server share (`World`), and class
--   `EpollMultiplexer` of ztHttp/ztHttp/EventManager.h and EventManager.cpp, to which `Reactor`
--   delegates. Objects have addresses, so a handler can be registered with one reactor and name
--   another. The deletion of a handler goes through a class with no virtual destructor, and is a fault.
--   Proofs in Multiplexer/Entries.
-- - EventHandler models `EpollEventHandler::handle_event`, over Tcp and Multiplexer. Proofs in
--   EventHandler/Removal, EventHandler/Fresh and EventHandler/Hangup.
-- - EmTask models `EpollMultiplexer::handle_events` and class `EMTask`. Proofs in
--   EmTask/Registration, EmTask/Ready and EmTask/Foreign.
-- - Reactor models class `EventMultiplexerAbstractClass` as a record of operations, class `Reactor`,
--   which hands its calls on to one, and `EMTask` over any of them. Reactor/Rounds has the laws that
--   `EMTask` relies on, Reactor/Epoll fills them for `EpollMultiplexer`.
-- - Server models httpMPtest.cpp, the accept loop (`accept_round`) and the queue of connections that
--   wait for a reactor (`enqueue_and_wait`), and the signal thread of ztHttp/ztHttp/zcsIO.cpp
--   (`signal_handle`), with the threads taking turns (`Step`, `Reach`), those of the reactors between
--   the parts of a round. Server/Start is the set-up of
--   `start_server`, Server/SendCall is `sendCallFunc`. Proofs in Server/Bounds, Server/Bursts,
--   Server/Life, Server/Running, Server/Safe, Multiplexer/Queue, Multiplexer/Sound, Multiplexer/Below,
--   EmTask/Queue and EmTask/Sound.
-- - Signals models `file_flg_set` and `z_signal` of ztHttp/ztHttp/zcsIO.cpp.
-- - Sockets models the making of listening sockets: `startup` of simHttp.cpp, `start_up` of
--   httpMPtest.cpp and class `TcpListeningSocket` of tcp.cpp. Proofs in Sockets/Ports.
-- - ThreadPool models pthread_poolv1.h and pthread_poolv1.cpp, with the threads as a step relation
--   (`Step`, `Reach`). Proofs in ThreadPool/Tasks, ThreadPool/Races and ThreadPool/Progress.
-- - SimHttp models ztHttp/ztHttp/simHttp.cpp, the server with a thread for each connection:
--   `get_line` and the discarding of headers; SimHttp/Replies the fixed answers, SimHttp/Cgi
--   `execute_cgi` with the kernel as a parameter, SimHttp/Accept `serve_file` and `accept_request`,
--   SimHttp/Threads the loop of `main11`, whose threads share the variable `client_sock`.
--   SimHttp/Respond is an abstract description of what a client of it is to be sent, and SimHttp/Site
--   the loop with its threads answering their clients.
--   Proofs in SimHttp/Lines, SimHttp/Discard, SimHttp/Sends, SimHttp/Shown, SimHttp/RequestLine,
--   SimHttp/Requests, SimHttp/Scripts, SimHttp/Outputs, SimHttp/Gets, SimHttp/Bodies,
--   SimHttp/Numbers, SimHttp/Lengths, SimHttp/Posts, SimHttp/Feeds, SimHttp/Forms, SimHttp/Cases,
--   SimHttp/Unknown, SimHttp/Loops, SimHttp/Ending, SimHttp/Onwards and SimHttp/Effects, those on
--   the request line in Request/Parse and Request/Paths.
-- - FirstReactor models Event.h and Event.cpp, a reactor from before EventManager.h, and Libevent the
--   server over libevent of ztHttp/ztHttp/httpParse.cpp, whose text myhttp.c repeats: the handler of
--   requests, and in Libevent/Main the signals, the options and `main`, over recorded calls. Proofs in
--   FirstReactor/Removal, Libevent/Handler and Libevent/Settings.
-- - ReverseVowels models `reverseVowels` of ztHttp/ztHttp/test2.cpp, an exercise beside the server.
--   Proofs in ReverseVowels/Rearranged, ReverseVowels/Vowels, ReverseVowels/Reversed and
--   ReverseVowels/Whole.
-- - Tests holds runs at concrete inputs, and the properties at inputs that meet their hypotheses.
--
-- Bounds and fuel: `unsigned` sizes wrap at 2 ^ 32 and `int` lengths end at 2 ^ 31. The loop of
-- `Http::cat` has one unit of fuel more than the file has bytes, and each round reads a byte. The
-- loops that discard headers in tcp.cpp have two units, since `Http::get_line` reports 0 bytes;
-- those of simHttp.cpp have two more than there are bytes to receive.
-- `reverse_vowels` makes nine swaps, as the source does.
--
-- Not modelled: data races as such, so a read of `_fds` outside its lock, as `remove_handler` makes
-- one, sees what some order of the steps gives, and the flags that several threads count without a lock
-- may hold anything; logging, byte orders, the signal handler `sig_tran` that passes a signal on to the
-- signal thread, partial sends in simHttp.cpp, what libevent does, and the scratch programs. A file that
-- can be opened is one of which no read fails: in the source `while(!feof(...))` never ends where one
-- does. What a script prints is an argument of what it is given: pipes that are full, and scripts that
-- wait for the end of their input, which the source closes too late, are left out. So is what is
-- done to a pool once `endPool` has destroyed its mutex.
pub mod Common
pub mod Buffer
pub mod CText
pub mod Request
pub mod Http
pub mod Tcp
pub mod Multiplexer
pub mod EventHandler
pub mod EmTask
pub mod Reactor
pub mod ThreadPool
pub mod Tests
pub mod SimHttp
pub mod Server
pub mod Sockets
pub mod FirstReactor
pub mod Libevent
pub mod ReverseVowels
pub mod Signals
