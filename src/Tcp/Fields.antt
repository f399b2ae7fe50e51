-- ===== src/Tcp/Fields.antt =====
-- What `write` leaves of a socket: its rules for any property that the changes it makes keep.
use zt_http.Common.{
  ℕ, zero, suc, inl, inr, Bool, true, false, bit_and, ℤ, pos, List, Bytes, ◌==◌, if◌then◌else◌,
  Bool-cases, ok, Holds, bind-Holds, bind-Holds_of,
}
use zt_http.Buffer.{IoBuffer, Chunk, append, pull_down, consume}
use zt_http.Http.{FileSystem}
use zt_http.Http
use zt_http.Tcp.{
  TcpSocket, Call, Sent, send_failed, sent, write, after_send, write_none, close_if_empty,
  tcp_wr_closed, print_string, run_send_call, nothing,
}

module _ {ℓ} (P : TcpSocket → Type ℓ)
    (buffered : (s : TcpSocket) (b : IoBuffer) → P s → P (record s { send_buffer = b }))
    (called : (s : TcpSocket) → P s → P (record s { send_call = nothing }))
    (marked : (s : TcpSocket)
      → P s
      → P (record s { status = bit_and s.status tcp_wr_closed })) where
  abbrev First : TcpSocket × List Call × ℤ → Type ℓ
  First r = P r.0

  close_if_empty-First :
      (s : TcpSocket) (b : IoBuffer) → P s → P (close_if_empty s b tcp_wr_closed).0
  unfolding close_if_empty
  close_if_empty-First s b h = elim (Bool-cases (b.size == 0)) [
    | inl e ↦ rw e (marked s h)
    | inr e ↦ rw e h
  ]

  write_none-First : (s : TcpSocket) → P s → Holds First (write_none s)
  unfolding write_none
  write_none-First s h = close_if_empty-First s s.send_buffer h

  if_consumed :
      (s : TcpSocket) (b : IoBuffer) (n : ℕ) (consumed : Bool)
      → P s
      → Holds First (
          let (s', calls) = close_if_empty s b tcp_wr_closed in
          if consumed then ok (s', calls, pos n) else write_none s)
  if_consumed s b n true h = close_if_empty-First s b h
  if_consumed s b n false h = write_none-First s h

  after_send-First : (s : TcpSocket) (answer : Sent) → P s → Holds First (after_send s answer)
  unfolding after_send
  after_send-First s send_failed h = write_none-First s h
  after_send-First s (sent zero) h = write_none-First s h
  after_send-First s (sent (suc n)) h =
      bind-Holds First (consume s.send_buffer (suc n)) _
        λ r. if_consumed (record s { send_buffer = r.0 }) r.0 (suc n) r.1 (buffered s r.0 h)

  -- What holds of a socket, and goes on to hold when the send buffer, the callback or the status
  -- changes, holds of it after a write.
  pub write-Holds :
      (fs : FileSystem) (stack stack' : Bytes) (answer : Sent) (chunk : Chunk) (s : TcpSocket)
      → P s
      → Holds (λ r. P r.0) (write fs stack stack' answer chunk s)
  unfolding write
  write-Holds fs stack stack' answer chunk s h = elim (Bool-cases s.is_connected) [
    | inl up ↦
        rw (up, write)
          (bind-Holds First (append s.send_buffer chunk) _ λ b1.
            bind-Holds First (run_send_call s.send_call b1) _ λ b2.
              bind-Holds First (Http.write s.http fs stack stack' b2) _ λ b3.
                bind-Holds First (pull_down b3.0 _) _ λ b4.
                  bind-Holds First (print_string b4.1) _ λ printed.
                    bind-Holds_of First First
                      (after_send (record s { send_buffer = b4.0; send_call = nothing }) answer) _
                      (after_send-First (record s { send_buffer = b4.0; send_call = nothing })
                        answer (called (record s { send_buffer = b4.0 }) (buffered s b4.0 h)))
                      λ r k. k)
    | inr down ↦ rw (down, write) h
  ]
