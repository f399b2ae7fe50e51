-- ===== src/Sockets.antt =====
-- The set-up of listening sockets, in ztHttp/ztHttp/simHttp.cpp (`startup`), httpMPtest.cpp
-- (`start_up`) and ztHttp/ztHttp/tcp.cpp (`TcpListeningSocket`). What the kernel answers is an
-- argument, and what it is asked is part of the result. Byte orders are left out.
pub mod Ports
use zt_http.Common.{
  ℕ, zero, suc, ◌+◌, ◌-◌, ◌*◌, ◌/◌, ◌%◌, ◌^◌, ◌≤◌, ◌<◌, min, max, ◌≡◌, refl, sym, ap, ◌∙◌, subst,
  fun_ext, ◌≢◌, ◌↔◌, ◌⊎◌, inl, inr, Bool, true, false, not, ◌&&◌, ◌||◌, bit_and, bit_or, ℤ, pos,
  negsuc, succ_ℤ, pred_ℤ, is_nonzero, Option, none, some, List, [], ◌∷◌, ◌++◌, map, append-nil,
  append_assoc, arith, Bytes, codes, length, get_or, set, take, drop, length-append, length-take,
  length-drop, take-append-drop, take_all, drop_all, take-append, drop-append, length-set, ltb, leb,
  ◌==◌, if◌then◌else◌, ==_iff, Bool-cases, Option-cases, if_cases, Fault, undefined, aborted,
  out_of_range, endless, Outcome, ok, fault, ◌>>=◌,
}
use zt_http.Tcp.{TcpSocket, tcp_socket}

-- What the kernel is asked; a descriptor is -1 where `socket` failed.
pub data SockCall : Type 0 where
  socket : SockCall
  bind : ℤ → ℕ → SockCall
  listen : ℤ → ℕ → SockCall
  getsockname : ℤ → ℕ → SockCall
  setsockopt : ℤ → ℕ → ℕ → SockCall
  accept : ℤ → SockCall
  close : ℤ → SockCall

-- What it answers: the descriptor of `socket`, whether `bind`, `listen` and `getsockname` succeed,
-- the port that it chooses for a socket with none, and the descriptor and port of `accept`.
pub record Answers : Type 0 where
  pub fd : Option ℕ
  pub binds : Bool
  pub listens : Bool
  pub names : Bool
  pub chosen_port : ℕ
  pub client : Option (ℕ × ℕ)

abbrev pub fd_of : Option ℕ → ℤ
fd_of none = negsuc 0
fd_of (some n) = pos n

-- The size of `struct sockaddr_in`.
abbrev pub name_size : ℕ
name_size = 16

-- The port that a bound socket has.
abbrev pub bound_port : Answers → ℕ → ℕ
bound_port a port = if port == 0 then a.chosen_port else port

listening : Answers → ℤ → ℕ → List SockCall → Outcome (List SockCall × ℤ × ℕ)
listening a fd port calls =
    if a.listens then ok (calls ++ listen fd 5 ∷ [], fd, port) else fault aborted

naming : Answers → ℤ → ℕ → List SockCall → Outcome (List SockCall × ℤ × ℕ)
unfolding listening
naming a fd port calls =
    if port == 0
    then (if a.names
        then listening a fd a.chosen_port (calls ++ getsockname fd name_size ∷ [])
        else fault aborted)
    else listening a fd port calls

-- `startup` of simHttp.cpp, which ends the process where a call fails: the calls, the socket and the
-- port afterwards.
unfoldable pub startup : Answers → ℕ → Outcome (List SockCall × ℤ × ℕ)
unfolding naming
startup a port = elim a.fd [
  | none ↦ fault aborted
  | some n ↦
      if a.binds then naming a (pos n) port (socket ∷ bind (pos n) port ∷ []) else fault aborted
]

abbrev so_reuseaddr : ℕ
so_reuseaddr = 2

abbrev so_keepalive : ℕ
so_keepalive = 9

-- `start_up` of httpMPtest.cpp, which logs a failed call and goes on. A port of 0 is not bound.
-- `getsockname` is given the length 0 and writes nothing, so the port is read from the uninitialised
-- `s_name`, which holds `stack`; an option is given as one byte.
unfoldable pub start_up : Answers → ℕ → ℕ → List SockCall × ℤ × ℕ
start_up a stack port =
    let fd = fd_of a.fd in
    let binding : List SockCall = if port == 0 then [] else bind fd port ∷ [] in
    let name : List SockCall = if port == 0 then getsockname fd 0 ∷ [] else [] in
    (
      socket
          ∷ (binding
              ++ listen fd 128
                ∷ (name ++ setsockopt fd so_reuseaddr 1 ∷ setsockopt fd so_keepalive 1 ∷ [])),
      fd,
      if port == 0 then stack else port,
    )

-- Class `TcpListeningSocket`.
pub record TcpListeningSocket : Type 0 where
  pub fd_sock : ℤ
  pub port : ℕ

-- The constructor: every failure is passed over, and the port stays what was given.
unfoldable pub tcp_listening_socket : Answers → ℕ → TcpListeningSocket × List SockCall
tcp_listening_socket a port =
    let fd = fd_of a.fd in
    (record { fd_sock = fd; port = port }, socket ∷ bind fd port ∷ listen fd 128 ∷ [])

-- The destructor.
unfoldable pub end_listening : TcpListeningSocket → List SockCall
end_listening l = close l.fd_sock ∷ []

-- `TcpListeningSocket::accept`; `none` is the null pointer.
unfoldable pub accept_tcp : Answers → TcpListeningSocket → Option TcpSocket × List SockCall
accept_tcp a l = elim a.client [
  | none ↦ (none, accept l.fd_sock ∷ [])
  | some (fd, port) ↦ (some (tcp_socket fd port), accept l.fd_sock ∷ [])
]
