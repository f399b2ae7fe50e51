-- ===== src/Tcp/Fresh.antt =====
-- A socket as its constructor leaves it: the callbacks are indeterminate, and every operation tests
-- one of them.
use zt_http.Common.{ℕ, ◌≤◌, ◌≡◌, refl, ap, ◌∙◌, [], ◌∷◌, arith, Bytes, length, undefined, ok, fault}
use zt_http.Buffer.{IoBuffer, null, empty, append}
use zt_http.Buffer.Stream.{IsValid, append_data_all, append_lem}
use zt_http.Http.{FileSystem}
use zt_http.Tcp.{
  Received, recv_failed, received, Sent, tcp_socket, recv_into, run_recv_call, run_send_call, read,
  write, dis_connected,
}

-- `recv` gives no more than it was asked for.
abbrev pub FitsRequest : Received → Type 0
FitsRequest recv_failed = Unit
FitsRequest (received bytes) = length bytes ≤ 1024

empty-IsValid : IsValid empty
empty-IsValid = record { counts = refl; fits = omega arith }

recv_into-empty :
    (answer : Received) → FitsRequest answer → (b : IoBuffer) × (recv_into answer empty ≡ ok b)
unfolding recv_into
recv_into-empty recv_failed h = (empty, refl)
recv_into-empty (received []) h = (empty, refl)
recv_into-empty (received (c ∷ cs)) h =
    let bytes : Bytes = c ∷ cs in
    let (e, run, held, v) = append_data_all empty bytes empty-IsValid (omega (arith, h)) in
    let size : e.size ≡ length bytes = v.counts ∙ ap length held in
    let (b, run', _, _) = append_lem empty e empty-IsValid v (omega (arith, h, size)) in
    (b, rw run run')

pub read_fresh :
    (answer : Received) (fd port : ℕ)
    → FitsRequest answer
    → read answer (tcp_socket fd port) ≡ fault undefined
unfolding read tcp_socket run_recv_call
read_fresh answer fd port h = let (b, run) = recv_into-empty answer h in rw run refl

pub write_fresh :
    (fs : FileSystem) (stack stack' : Bytes) (answer : Sent) (fd port : ℕ)
    → write fs stack stack' answer null (tcp_socket fd port) ≡ fault undefined
unfolding write tcp_socket run_send_call append
write_fresh fs stack stack' answer fd port = refl

pub dis_connected_fresh : (fd port : ℕ) → dis_connected (tcp_socket fd port) ≡ fault undefined
unfolding dis_connected tcp_socket
dis_connected_fresh fd port = refl
