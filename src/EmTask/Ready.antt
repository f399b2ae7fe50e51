-- ===== src/EmTask/Ready.antt =====
-- What `handle_events` makes of the ready descriptors.
use zt_http.Common.{
  ℕ, ◌≡◌, refl, ap, ◌⊎◌, inl, inr, none, some, [], undefined, fault, Holds, bind-Holds,
}
use zt_http.Common.Map.{update_self}
use zt_http.Http.{FileSystem}
use zt_http.Multiplexer.{World, quit_if_asked}
use zt_http.Multiplexer.Entries.{entry}
use zt_http.EventHandler.{Io}
use zt_http.EmTask.{handle_ready, handle_each, handle_events}

-- Whenever `handle_events` returns, no descriptor is noted as ready.
handle_events-clears :
    (fs : FileSystem) (io : ℕ → Io) (w : World) (r : ℕ)
    → Holds (λ w'. (w'.reactors r).rdy ≡ []) (handle_events fs io w r)
unfolding handle_events
handle_events-clears fs io w r =
    let w0 = quit_if_asked w r in
    bind-Holds (λ w'. (w'.reactors r).rdy ≡ []) (handle_each fs io w0 r (w0.reactors r).rdy) _
      λ w'. ap (λ m. m.rdy) (update_self w'.reactors r _)

-- A ready descriptor without an entry, or whose entry has a null handler, is a fault: the check for
-- it logs and goes on.
handle_ready_stale :
    (fs : FileSystem) (io : ℕ → Io) (w : World) (r fd events : ℕ)
    → (entry w r fd ≡ none) ⊎ ((n : ℕ) × (entry w r fd ≡ some (n, none)))
    → handle_ready fs io w r (fd, events) ≡ fault undefined
unfolding handle_ready
handle_ready_stale fs io w r fd events (inl e) = rw e refl
handle_ready_stale fs io w r fd events (inr (n, e)) = rw e refl
