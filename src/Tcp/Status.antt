-- ===== src/Tcp/Status.antt =====
-- The marks of a half-closed connection in `_status`.
use zt_http.Common.{
  ℕ, ◌≡◌, refl, ap, ◌∙◌, inl, inr, bit_and, ℤ, List, Bytes, ◌==◌, Bool-cases, Holds, bind-Holds,
}
use zt_http.Tcp.Fields.{write-Holds}
use zt_http.Buffer.{IoBuffer, Chunk}
use zt_http.Http.{FileSystem}
use zt_http.Http
use zt_http.Tcp.{
  TcpSocket, Call, Sent, Received, write, read, close_if_empty, tcp_wr_closed, tcp_rd_closed,
  recv_into, run_recv_call, nothing,
}

abbrev Normal : TcpSocket × List Call × ℤ → Type 0
Normal r = r.0.status ≡ 0

close_if_empty-status :
    (s : TcpSocket) (b : IoBuffer) (mark : ℕ)
    → s.status ≡ 0
    → bit_and 0 mark ≡ 0
    → (close_if_empty s b mark).0.status ≡ 0
unfolding close_if_empty
close_if_empty-status s b mark e z = elim (Bool-cases (b.size == 0)) [
  | inl h ↦ rw h (ap (λ n. bit_and n mark) e ∙ z)
  | inr h ↦ rw h e
]

-- `&=` never sets a mark: a socket whose status is normal keeps it so through every write,
-- whatever `send` answers and also where its buffer is emptied and the socket shut down.
write-status :
    (fs : FileSystem) (stack stack' : Bytes) (answer : Sent) (chunk : Chunk) (s : TcpSocket)
    → s.status ≡ 0
    → Holds (λ r. r.0.status ≡ 0) (write fs stack stack' answer chunk s)
write-status =
    write-Holds (λ s. s.status ≡ 0) (λ s b e. e) (λ s e. e)
      λ s e. ap (λ n. bit_and n tcp_wr_closed) e

-- The same of every read.
read-status :
    (answer : Received) (s : TcpSocket) → s.status ≡ 0 → Holds (λ r. r.0.status ≡ 0) (read answer s)
unfolding read
read-status answer s e = elim (Bool-cases s.is_connected) [
  | inl up ↦
      rw (up, read)
        (bind-Holds Normal (recv_into answer s.recv_buffer) _ λ b1.
          bind-Holds Normal (run_recv_call s.recv_call b1) _ λ b2.
            bind-Holds Normal (Http.read s.http b2) _ λ b3.
              close_if_empty-status (record s { recv_call = nothing }) b2 tcp_rd_closed e refl)
  | inr down ↦ rw (down, read) e
]
