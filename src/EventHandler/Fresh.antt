-- ===== src/EventHandler/Fresh.antt =====
-- The first event of a handler whose socket is as its constructor left it.
use zt_http.Common.{
  ℕ, ◌≡◌, refl, ap, ◌∙◌, inl, inr, false, some, Bool-cases, undefined, fault, ◌>>=◌,
}
use zt_http.Http.{FileSystem}
use zt_http.Tcp.{tcp_socket}
use zt_http.Tcp.Fresh.{FitsRequest, read_fresh, write_fresh, dis_connected_fresh}
use zt_http.Multiplexer.{Handler, epoll_handler, World, deref}
use zt_http.EventHandler.{
  Io, handle_event, handle_with, attempt, socket_of, disconnect, after_write, after_read,
  as_handler, has_event, epoll_in, epoll_out, epoll_err, epoll_hup,
}

module _ (fs : FileSystem) (io : Io) (w : World) (p : ℕ) (h : Handler) (fd port : ℕ)
    (fresh : h.tcp ≡ some (tcp_socket fd port)) where
  disconnect_fresh : disconnect w p h ≡ fault undefined
  unfolding disconnect socket_of
  disconnect_fresh = rw fresh (rw (dis_connected_fresh fd port) refl)

  after_read_fresh : after_read fs io p (w, h, false) ≡ fault undefined
  unfolding after_read attempt after_write socket_of
  after_read_fresh = elim (Bool-cases (has_event h.rdy_events epoll_out)) [
    | inl out ↦ rw (out, fresh) (rw (write_fresh fs io.stack io.stack' io.sent fd port) refl)
    | inr none_out ↦ rw none_out disconnect_fresh
  ]

  pub handle_event_fresh :
      w.handlers p ≡ some (epoll_handler h)
      → has_event h.rdy_events epoll_err ≡ false
      → has_event h.rdy_events epoll_hup ≡ false
      → FitsRequest io.received
      → handle_event fs io w p ≡ fault undefined
  unfolding handle_event handle_with attempt socket_of as_handler
  handle_event_fresh live no_err no_hup fits =
      ap (λ o. deref o >>= λ x. as_handler x >>= handle_with fs io w p) live
      ∙ elim (Bool-cases (has_event h.rdy_events epoll_in)) [
        | inl ready ↦
            rw (no_err, no_hup, ready) (rw fresh (rw (read_fresh io.received fd port fits) refl))
        | inr none_in ↦ rw (no_err, no_hup, none_in) after_read_fresh
      ]
