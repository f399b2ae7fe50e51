-- ===== src/Tcp.antt =====
-- class `TcpSocket` of ztHttp/ztHttp/tcp.h and ztHttp/ztHttp/tcp.cpp: a connected socket with its
-- two buffers, its callbacks and its `Http` object. What the kernel answers is an argument.
pub mod Status
pub mod Write
pub mod Fresh
pub mod Fields
pub mod Reading
use zt_http.Common.{
  ℕ, zero, suc, Bool, true, false, bit_and, ℤ, pos, negsuc, Option, none, some, List, [], ◌∷◌,
  Bytes, length, take, ltb, ◌==◌, if◌then◌else◌, undefined, Outcome, ok, fault, ◌>>=◌,
}
use zt_http.CText.{has_nul}
use zt_http.Buffer.{IoBuffer, Chunk, io_buffer, empty, io_buffer_of, append, pull_down, consume}
use zt_http.Http.{Http, FileSystem}
use zt_http.Http

-- A callback pointer. The constructor leaves it indeterminate, and then it may not be tested.
pub data Slot {ℓ} (A : Type ℓ) : Type ℓ where
  indeterminate nothing : Slot A
  callback : A → Slot A

-- What a socket asks of the kernel, in order.
pub data Call : Type 0 where
  send : ℕ → Bytes → Call
  shutdown_wr : ℕ → Call
  close : ℕ → Call

pub record TcpSocket : Type 0 where
  pub fd : ℕ
  pub port : ℕ
  pub send_call : Slot (IoBuffer → IoBuffer × Chunk)
  pub recv_call : Slot (IoBuffer → IoBuffer)
  pub dis_conn_call : Slot (Unit {0})
  pub recv_buffer : IoBuffer
  pub send_buffer : IoBuffer
  pub max_recv_size : ℕ
  pub max_send_size : ℕ
  pub is_connected : Bool
  pub status : ℕ
  pub http : Http

abbrev pub tcp_rd_closed : ℕ
tcp_rd_closed = 1

abbrev pub tcp_wr_closed : ℕ
tcp_wr_closed = 2

-- The constructor; `port` is what `getsockname` tells.
unfoldable pub tcp_socket : ℕ → ℕ → TcpSocket
tcp_socket fd port = record {
  fd = fd;
  port = port;
  send_call = indeterminate;
  recv_call = indeterminate;
  dis_conn_call = indeterminate;
  recv_buffer = empty;
  send_buffer = empty;
  max_recv_size = 1024;
  max_send_size = 1024;
  is_connected = true;
  status = 0;
  http = record { in_buffer = [] };
}

-- `setSendCallBack`; the result is whether the new callback is one.
unfoldable pub set_send_call_back :
    TcpSocket → Option (IoBuffer → IoBuffer × Chunk) → TcpSocket × Bool
set_send_call_back s none = (record s { send_call = nothing }, false)
set_send_call_back s (some f) = (record s { send_call = callback f }, true)

unfoldable pub set_recv_call_back : TcpSocket → Option (IoBuffer → IoBuffer) → TcpSocket × Bool
set_recv_call_back s none = (record s { recv_call = nothing }, false)
set_recv_call_back s (some f) = (record s { recv_call = callback f }, true)

-- `setDisConnectedCallBack`, for a callback or the null pointer.
unfoldable pub set_dis_connected_call_back : TcpSocket → Bool → TcpSocket × Bool
set_dis_connected_call_back s false = (record s { dis_conn_call = nothing }, false)
set_dis_connected_call_back s true = (record s { dis_conn_call = callback tt }, true)

-- What one `send` and one `recv` answer.
pub data Sent : Type 0 where
  send_failed : Sent
  sent : ℕ → Sent

pub data Received : Type 0 where
  recv_failed : Received
  received : Bytes → Received

-- `if(_sendCall) _sendBuffer.append(_sendCall(&_sendBuffer))`.
run_send_call : Slot (IoBuffer → IoBuffer × Chunk) → IoBuffer → Outcome IoBuffer
run_send_call indeterminate b = fault undefined
run_send_call nothing b = ok b
run_send_call (callback f) b = let (b', chunk) = f b in append b' chunk

run_recv_call : Slot (IoBuffer → IoBuffer) → IoBuffer → Outcome IoBuffer
run_recv_call indeterminate b = fault undefined
run_recv_call nothing b = ok b
run_recv_call (callback f) b = ok (f b)

-- `if(!_sendBuffer.size()) shutdown(_fd_sock, SHUT_WR), _status &= TCP_WR_CLOSED`.
pub close_if_empty : TcpSocket → IoBuffer → ℕ → TcpSocket × List Call
close_if_empty s b mark =
    if b.size == 0
    then (record s { status = bit_and s.status mark }, shutdown_wr s.fd ∷ [])
    else (s, [])

-- The end of `write`, where the result is 0.
write_none : TcpSocket → Outcome (TcpSocket × List Call × ℤ)
unfolding close_if_empty
write_none s =
    let (s', calls) = close_if_empty s s.send_buffer tcp_wr_closed in ok (s', calls, pos 0)

-- What follows `::send`.
after_send : TcpSocket → Sent → Outcome (TcpSocket × List Call × ℤ)
unfolding write_none
after_send s send_failed = write_none s
after_send s (sent zero) = write_none s
after_send s (sent (suc n)) = do
  (b, consumed) ← consume s.send_buffer (suc n)
  let s' = record s { send_buffer = b }
  let (s'', calls) = close_if_empty s' b tcp_wr_closed
  if consumed then ok (s'', calls, pos (suc n)) else write_none s'

-- `std::cout<<wb`, which reads up to a NUL: a null pointer, or a chunk with no NUL in it, is undefined.
print_string : Option Bytes → Outcome (Unit {0})
print_string none = fault undefined
print_string (some c) = if has_nul c then ok tt else fault undefined

-- The bytes that `::send` is given: `sz` bytes from the pointer, null only for none.
handed : Option Bytes → ℕ → Bytes
handed none sz = []
handed (some c) sz = take sz c

-- `TcpSocket::write`: the calls that it made and its result. `stack` and `stack'` are the
-- uninitialised arrays of `Http::write`.
unfoldable pub write :
    FileSystem → Bytes → Bytes → Sent → Chunk → TcpSocket → Outcome (TcpSocket × List Call × ℤ)
unfolding run_send_call after_send handed print_string
write fs stack stack' answer chunk s = elim s.is_connected [
  | false ↦ ok (s, [], negsuc 0)
  | true ↦ do
    b1 ← append s.send_buffer chunk
    b2 ← run_send_call s.send_call b1
    (b3, _) ← Http.write s.http fs stack stack' b2
    let sz = if ltb s.max_send_size b3.size then s.max_send_size else b3.size
    (b4, wb) ← pull_down b3 sz
    _ ← print_string wb
    (s', calls, siz) ← after_send (record s { send_buffer = b4; send_call = nothing }) answer
    ok (s', send s.fd (handed wb sz) ∷ calls, siz)
]

-- `_recvBuffer.append(new IOBuffer(rc, siz))` where `recv` gave bytes.
recv_into : Received → IoBuffer → Outcome IoBuffer
recv_into recv_failed b = ok b
recv_into (received []) b = ok b
recv_into (received (c ∷ cs)) b = do
  e ← io_buffer_of (c ∷ cs) (length (c ∷ cs))
  append b (io_buffer e)

recv_result : Received → ℤ
recv_result recv_failed = negsuc 0
recv_result (received bytes) = pos (length bytes)

-- `TcpSocket::read`. `recv` gives at most `max_recv_size` bytes.
unfoldable pub read : Received → TcpSocket → Outcome (TcpSocket × List Call × ℤ)
unfolding recv_into run_recv_call close_if_empty recv_result
read answer s = elim s.is_connected [
  | false ↦ ok (s, [], negsuc 0)
  | true ↦ do
    b1 ← recv_into answer s.recv_buffer
    b2 ← run_recv_call s.recv_call b1
    let (s', calls) = close_if_empty (record s { recv_call = nothing }) b2 tcp_rd_closed
    (h, b3, _) ← Http.read s.http b2
    ok (record s' { recv_buffer = b3; http = h }, calls, recv_result answer)
]

-- `disConnected`: the socket is closed. The callback is given no argument.
unfoldable pub dis_connected : TcpSocket → Outcome (TcpSocket × List Call)
dis_connected s = elim s.dis_conn_call [
  | indeterminate ↦ fault undefined
  | _ ↦ ok (record s { is_connected = false }, close s.fd ∷ [])
]
