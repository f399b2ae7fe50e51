-- ===== src/EventHandler/Removal.antt =====
-- How a handler leaves its reactor once it has handled its events.
use zt_http.Common.{
  ℕ, ◌≡◌, refl, sym, ap, ◌∙◌, subst, ◌≢◌, inl, inr, Bool, true, false, ◌||◌, ℤ, some, List,
  Bool-cases, Option-cases, Outcome, ◌>>=◌, Holds, bind-Holds, bind-Holds_of,
}
use zt_http.Common.Map.{update_self, update_ne}
use zt_http.Buffer.{null}
use zt_http.Http.{FileSystem}
use zt_http.Tcp.{TcpSocket, Call}
use zt_http.Tcp
use zt_http.Multiplexer.{Handler, epoll_handler, other_handler, World, deref}
use zt_http.Multiplexer.Queue.{SameCounts, remove_handler-SameCounts}
use zt_http.EventHandler.{
  Io, handle_event, handle_with, attempt, store, socket_of, remove_this, disconnect, after_write,
  after_read, as_handler, has_event, epoll_in, epoll_out, epoll_err, epoll_hup,
}

-- The handler still lives at `p`; the other handlers, the reactors and the flag have not changed.
pub record Keeps (w : World) (p : ℕ) (h : Handler) (w1 : World) (h1 : Handler) : Type 0 where
  pub lives : w1.handlers p ≡ some (epoll_handler h1)
  pub reactors : w1.reactors ≡ w.reactors
  pub flag : w1.register_flag ≡ w.register_flag
  pub fd : h1.fd ≡ h.fd
  pub reactor : h1.reactor ≡ h.reactor
  pub queue : w1.wait_queue ≡ w.wait_queue
  pub others : (q : ℕ) → p ≢ q → w1.handlers q ≡ w.handlers q

store-Keeps :
    (w w1 : World) (p : ℕ) (h h1 : Handler) (s : TcpSocket) (calls : List Call)
    → Keeps w p h w1 h1
    → Keeps w p h (store w1 p h1 s calls) (record h1 { tcp = some s })
unfolding store
store-Keeps w w1 p h h1 s calls k = record {
  lives = update_self w1.handlers p (some (epoll_handler (record h1 { tcp = some s })));
  reactors = k.reactors;
  flag = k.flag;
  fd = k.fd;
  reactor = k.reactor;
  queue = k.queue;
  others = λ q ne. update_ne w1.handlers p q _ ne ∙ k.others q ne;
}

module _ (w : World) (p : ℕ) (h : Handler) where
  attempt-Keeps :
      (b : Bool) (use_socket : TcpSocket → Outcome (TcpSocket × List Call × ℤ)) (w1 : World)
      (h1 : Handler)
      → Keeps w p h w1 h1
      → Holds (λ r. Keeps w p h r.0 r.1) (attempt b use_socket w1 p h1)
  unfolding attempt
  attempt-Keeps false use_socket w1 h1 k = k
  attempt-Keeps true use_socket w1 h1 k =
      bind-Holds (λ r. Keeps w p h r.0 r.1) (socket_of h1) _
        λ s.
          bind-Holds (λ r. Keeps w p h r.0 r.1) (use_socket s) _
            λ r. store-Keeps w w1 p h h1 r.0 r.1 k

  module _ {ℓ} (P : World → Type ℓ)
      (removed : (w1 : World) (h1 : Handler)
        → Keeps w p h w1 h1
        → Holds P (remove_this w1 p h1)) where
    disconnect-Holds :
        (w1 : World) (h1 : Handler) → Keeps w p h w1 h1 → Holds P (disconnect w1 p h1)
    unfolding disconnect
    disconnect-Holds w1 h1 k = bind-Holds P (socket_of h1) _ λ s.
        bind-Holds P (Tcp.dis_connected s) _ λ r. removed _ _ (store-Keeps w w1 p h h1 r.0 r.1 k)

    after_write-Holds :
        (gone : Bool) (w1 : World) (h1 : Handler)
        → Keeps w p h w1 h1
        → Holds P (after_write p (w1, h1, gone))
    unfolding after_write
    after_write-Holds true w1 h1 k = removed w1 h1 k
    after_write-Holds false w1 h1 k = disconnect-Holds w1 h1 k

    after_read-Holds :
        (fs : FileSystem) (io : Io) (gone : Bool) (w1 : World) (h1 : Handler)
        → Keeps w p h w1 h1
        → Holds P (after_read fs io p (w1, h1, gone))
    unfolding after_read
    after_read-Holds fs io true w1 h1 k = removed w1 h1 k
    after_read-Holds fs io false w1 h1 k =
        bind-Holds_of (λ r. Keeps w p h r.0 r.1) P
          (attempt (has_event h1.rdy_events epoll_out)
            (Tcp.write fs io.stack io.stack' io.sent null) w1 p h1)
          (after_write p) (attempt-Keeps _ _ w1 h1 k) λ r k'. after_write-Holds r.2 r.0 r.1 k'

    -- Every branch of `handle_event` ends in the removal of the handler.
    pub handle_event-Holds :
        (fs : FileSystem) (io : Io)
        → w.handlers p ≡ some (epoll_handler h)
        → Holds P (handle_event fs io w p)
    unfolding handle_event
    handle_event-Holds fs io live =
        let k : Keeps w p h w h = record {
          lives = live;
          reactors = refl;
          flag = refl;
          fd = refl;
          reactor = refl;
          queue = refl;
          others = λ q ne. refl;
        } in
        subst (Holds P)
          (ap (λ o. deref o >>= λ x. as_handler x >>= handle_with fs io w p) (sym live))
          (elim (Bool-cases
            (has_event h.rdy_events epoll_err || has_event h.rdy_events epoll_hup)) [
              | inl bad ↦ rw bad (removed w h k)
              | inr good ↦ rw good (
                  bind-Holds_of (λ r. Keeps w p h r.0 r.1) P
                    (attempt (has_event h.rdy_events epoll_in) (Tcp.read io.received) w p h)
                    (after_read fs io p) (attempt-Keeps _ _ w h k)
                    λ r k'. after_read-Holds fs io r.2 r.0 r.1 k')
            ])

-- Handling events leaves the wait queue and the count of due registrations alone.
pub handle_event-SameCounts :
    (fs : FileSystem) (io : Io) (w : World) (p : ℕ) → Holds (SameCounts w) (handle_event fs io w p)
unfolding handle_event remove_this
handle_event-SameCounts fs io w p = elim (Option-cases (w.handlers p)) [
  | inl gone ↦ rw gone tt
  | inr (other_handler, other) ↦ rw other tt
  | inr (epoll_handler h, live) ↦
      handle_event-Holds w p h (SameCounts w)
        (λ w1 h1 k.
          bind-Holds_of (λ r. SameCounts w1 r.0) (SameCounts w) _ _
            (remove_handler-SameCounts w1 h1.reactor p)
            (λ r same. (same.0 ∙ k.queue, same.1 ∙ k.flag)))
        fs io live
]
