-- ===== src/Tcp/Write.antt =====
-- What `TcpSocket::write` sends.
use zt_http.Common.{
  ℕ, suc, ◌+◌, ◌^◌, ◌≤◌, ◌<◌, ◌≡◌, refl, sym, ap, ◌∙◌, subst, inl, inr, true, ℤ, pos, negsuc,
  Option, some, List, [], ◌∷◌, ◌++◌, arith, Bytes, length, take, drop, length-append, take_all,
  take-append, ltb, ◌==◌, if◌then◌else◌, Bool-cases, undefined, ok, fault,
}
use zt_http.Buffer.{IoBuffer, null, append, pull_down, consume}
use zt_http.Buffer.Stream.{contents, joined, IsValid}
use zt_http.CText.{has_nul}
use zt_http.CText.Lines.{NoNul, NoNul-append, NoNul-concat, NoNul-has_nul, has_nul-take}
use zt_http.Buffer.Cycle.{pull_down_lem, consume_lem}
use zt_http.Http
use zt_http.Http.{FileSystem, unimplemented_text}
use zt_http.Http.Answer.{write-unimplemented}
use zt_http.Tcp.{
  TcpSocket, Call, Sent, sent, send, shutdown_wr, write, after_send, close_if_empty, nothing,
  handed, print_string, run_send_call, tcp_wr_closed,
}

abbrev smaller : ℕ → ℕ → ℕ
smaller k len = if ltb k len then k else len

take-smaller : (k : ℕ) (out : Bytes) → take (smaller k (length out)) out ≡ take k out
take-smaller k out = elim (Bool-cases (ltb k (length out))) [
  | inl h ↦ rw h refl
  | inr h ↦ rw h (take_all (length out) out (omega arith) ∙ sym (take_all k out (ground arith)))
]

abbrev shutdown_calls : ℕ → IoBuffer → List Call
shutdown_calls fd b = if b.size == 0 then shutdown_wr fd ∷ [] else []

close_if_empty_lem :
    (s : TcpSocket) (b : IoBuffer) (mark : ℕ)
    → ((close_if_empty s b mark).0.send_buffer ≡ s.send_buffer)
      × ((close_if_empty s b mark).1 ≡ shutdown_calls s.fd b)
unfolding close_if_empty
close_if_empty_lem s b mark = elim (Bool-cases (b.size == 0)) [
  | inl h ↦ (rw h refl, rw h refl)
  | inr h ↦ (rw h refl, rw h refl)
]

after_send_lem :
    (s : TcpSocket) (k : ℕ) (b : IoBuffer)
    → consume s.send_buffer (suc k) ≡ ok (b, true)
    → (s' : TcpSocket) × (after_send s (sent (suc k)) ≡ ok (s', shutdown_calls s.fd b, pos (suc k)))
      × (s'.send_buffer ≡ b)
unfolding after_send
after_send_lem s k b run =
    let s1 : TcpSocket = record s { send_buffer = b } in
    let (kept, calls) = close_if_empty_lem s1 b tcp_wr_closed in
    (
      (close_if_empty s1 b tcp_wr_closed).0,
      rw run (ap (λ c. ok ((close_if_empty s1 b tcp_wr_closed).0, c, pos (suc k))) calls),
      kept,
    )

-- The pull of what may be sent, `send`'s answer, and what stays.
flush :
    (s : TcpSocket) (b : IoBuffer) (k : ℕ)
    → IsValid b
    → has_nul (take s.max_send_size (contents b)) ≡ true
    → suc k ≤ s.max_send_size
    → suc k ≤ b.size
    → let sz = smaller s.max_send_size b.size in
      (b' : IoBuffer) × (wb : Option Bytes) × (s' : TcpSocket) × (pull_down b sz ≡ ok (b', wb))
      × (print_string wb ≡ ok tt)
      × (handed wb sz ≡ take s.max_send_size (contents b))
      × (after_send (record s { send_buffer = b'; send_call = nothing }) (sent (suc k))
          ≡ ok (s', shutdown_calls s.fd s'.send_buffer, pos (suc k)))
      × (contents s'.send_buffer ≡ drop (suc k) (contents b))
      × IsValid s'.send_buffer
unfolding handed print_string
flush s b k v ends within held =
    let sz = smaller s.max_send_size b.size in
    let (c, cs, pulled, same, enough, v') = pull_down_lem b sz v (ground arith) (ground arith) in
    let b1 : IoBuffer = record b { chunks = c ∷ cs } in
    let (b2, consumed, left, v2) =
      consume_lem b1 (suc k) c cs refl v' (ground arith) (ground arith) in
    let (s', run, kept) =
      after_send_lem (record s { send_buffer = b1; send_call = nothing }) k b2 consumed in
    let front : take sz c ≡ take s.max_send_size (contents b) =
      sym (take-append sz c (joined cs) enough)
      ∙ ap (take sz) same
      ∙ ap (λ n. take (smaller s.max_send_size n) (contents b)) v.counts
      ∙ take-smaller s.max_send_size (contents b) in
    (
      b1,
      some c,
      s',
      pulled,
      rw (has_nul-take sz c (ap has_nul front ∙ ends)) refl,
      front,
      run ∙ ap (λ l. ok (s', shutdown_calls s.fd l, pos (suc k))) (sym kept),
      ap contents kept ∙ left ∙ ap (drop (suc k)) same,
      subst IsValid (sym kept) v2,
    )

write_run :
    (fs : FileSystem) (stack stack' : Bytes) (answer : Sent) (s : TcpSocket) (b b' : IoBuffer)
    (r : ℤ) (wb : Option Bytes) (out : TcpSocket × List Call × ℤ)
    → s.is_connected ≡ true
    → s.send_call ≡ nothing
    → Http.write s.http fs stack stack' s.send_buffer ≡ ok (b, r)
    → pull_down b (smaller s.max_send_size b.size) ≡ ok (b', wb)
    → print_string wb ≡ ok tt
    → after_send (record s { send_buffer = b'; send_call = nothing }) answer ≡ ok out
    → write fs stack stack' answer null s
      ≡ ok (out.0, send s.fd (handed wb (smaller s.max_send_size b.size)) ∷ out.1, out.2)
unfolding write append run_send_call
write_run fs stack stack' answer s b b' r wb out up quiet answered pulled printed run =
    rw (up, write) (rw (quiet, run_send_call) (rw answered (rw pulled (rw printed (rw run refl)))))

-- With a connection, no send callback, a valid buffer with room for the answer, two bytes at least in the
-- array of `Http::write`, a NUL among the first `_maxSendSize` of the bytes that were still to be sent
-- and that answer behind them, and a `send` that takes one byte at least and no more than it is given: the
-- socket writes that answer behind them, hands the first `_maxSendSize` bytes of both to `send`, keeps all but the bytes that `send`
-- took, returns their number, and shuts the socket for writing exactly when nothing is left.
pub write-sends :
    (fs : FileSystem) (stack stack' : Bytes) (k : ℕ) (s : TcpSocket)
    → s.is_connected ≡ true
    → s.send_call ≡ nothing
    → IsValid s.send_buffer
    → s.send_buffer.size + length unimplemented_text < 2 ^ 31
    → 2 ≤ length stack
    → has_nul (take s.max_send_size (contents s.send_buffer ++ unimplemented_text)) ≡ true
    → suc k ≤ s.max_send_size
    → suc k ≤ s.send_buffer.size + length unimplemented_text
    → (s' : TcpSocket) × (write fs stack stack' (sent (suc k)) null s
        ≡ ok (
          s',
          send s.fd (take s.max_send_size (contents s.send_buffer ++ unimplemented_text))
              ∷ (if s'.send_buffer.size == 0 then shutdown_wr s.fd ∷ [] else []),
          pos (suc k),
        ))
      × (contents s'.send_buffer ≡ drop (suc k) (contents s.send_buffer ++ unimplemented_text))
      × IsValid s'.send_buffer
write-sends fs stack stack' k s up quiet v fits room ends within held =
    let (b, answered, text, v1) =
      write-unimplemented s.http fs stack stack' s.send_buffer v fits room in
    let size_eq =
      v1.counts ∙ ap length text ∙ length-append (contents s.send_buffer) unimplemented_text in
    let (b', wb, s', pulled, printed, first, run, left, v') =
      flush s b k v1 (ap (λ l. has_nul (take s.max_send_size l)) text ∙ ends) within
        (omega (arith, size_eq, v.counts)) in
    (
      s',
      write_run fs stack stack' (sent (suc k)) s b b' (negsuc 0) wb
            (s', shutdown_calls s.fd s'.send_buffer, pos (suc k)) up quiet answered pulled printed
            run
          ∙ ap (λ l. ok (s', send s.fd l ∷ shutdown_calls s.fd s'.send_buffer, pos (suc k)))
              (first ∙ ap (take s.max_send_size) text),
      left ∙ ap (drop (suc k)) text,
      v',
    )

write_unterminated :
    (fs : FileSystem) (stack stack' : Bytes) (answer : Sent) (s : TcpSocket) (b b' : IoBuffer)
    (r : ℤ) (wb : Option Bytes)
    → s.is_connected ≡ true
    → s.send_call ≡ nothing
    → Http.write s.http fs stack stack' s.send_buffer ≡ ok (b, r)
    → pull_down b (smaller s.max_send_size b.size) ≡ ok (b', wb)
    → print_string wb ≡ fault undefined
    → write fs stack stack' answer null s ≡ fault undefined
unfolding write append run_send_call
write_unterminated fs stack stack' answer s b b' r wb up quiet answered pulled printed =
    rw (up, write) (rw (quiet, run_send_call) (rw answered (rw pulled (rw printed refl))))

NoNul-text : NoNul unimplemented_text
NoNul-text = omega arith

-- With a connection, no send callback, a valid buffer with room for the answer and no NUL among what is
-- still to be sent, two bytes at least in the array of `Http::write`, and `_maxSendSize` not 0: whatever was read of a request, whatever files there are and whatever `send`
-- would answer, `TcpSocket::write` is undefined behaviour before it sends anything, since it prints the
-- chunk as a string, and nothing in the chunk ends it.
pub write-undefined :
    (fs : FileSystem) (stack stack' : Bytes) (answer : Sent) (s : TcpSocket)
    → s.is_connected ≡ true
    → s.send_call ≡ nothing
    → IsValid s.send_buffer
    → s.send_buffer.size + length unimplemented_text < 2 ^ 31
    → 2 ≤ length stack
    → NoNul (contents s.send_buffer)
    → 0 < s.max_send_size
    → write fs stack stack' answer null s ≡ fault undefined
unfolding print_string
write-undefined fs stack stack' answer s up quiet v fits room clean some_room =
    let (b, answered, text, v1) =
      write-unimplemented s.http fs stack stack' s.send_buffer v fits room in
    let size_eq =
      v1.counts ∙ ap length text ∙ length-append (contents s.send_buffer) unimplemented_text in
    let held : 0 < b.size = omega (arith, size_eq, v.counts) in
    let (c, cs, pulled, same, enough, _) =
      pull_down_lem b (smaller s.max_send_size b.size) v1 (ground (arith, held, some_room))
        (ground arith) in
    let whole : NoNul (c ++ joined cs) =
      subst NoNul (sym (same ∙ text))
        (NoNul-concat (contents s.send_buffer) unimplemented_text clean NoNul-text) in
    write_unterminated fs stack stack' answer s b (record b { chunks = c ∷ cs }) (negsuc 0) (some c)
      up quiet answered pulled (rw (NoNul-has_nul c (NoNul-append c (joined cs) whole).0) refl)
