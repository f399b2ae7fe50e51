-- ===== src/EventHandler/Hangup.antt =====
-- An error or a hang-up.
use zt_http.Common.{
  ℕ, ◌≡◌, refl, ap, ◌∙◌, inl, inr, true, ◌||◌, is_nonzero, none, some, if◌then◌else◌, Bool-cases,
  Option-cases, undefined, Outcome, ok, fault, ◌>>=◌,
}
use zt_http.Http.{FileSystem}
use zt_http.Multiplexer.{Handler, epoll_handler, World, deref}
use zt_http.Multiplexer.Entries.{
  entry, remove_handler_refused, remove_handler_missing, remove_handler_undefined,
}
use zt_http.EventHandler.{
  Io, handle_event, handle_with, remove_this, as_handler, has_event, epoll_err, epoll_hup,
}

-- It leads to the removal of the handler, whatever other events there are.
handle_event_bad :
    (fs : FileSystem) (io : Io) (w : World) (p : ℕ) (h : Handler)
    → w.handlers p ≡ some (epoll_handler h)
    → (has_event h.rdy_events epoll_err || has_event h.rdy_events epoll_hup) ≡ true
    → handle_event fs io w p ≡ remove_this w p h
unfolding handle_event handle_with as_handler
handle_event_bad fs io w p h live bad =
    ap (λ o. deref o >>= λ x. as_handler x >>= handle_with fs io w p) live ∙ rw bad refl

-- What becomes of the state: nothing changes, or the deletion is undefined.
abbrev pub removal_of : World → Handler → Outcome World
removal_of w h =
    if is_nonzero w.register_flag
    then ok w
    else elim (entry w h.reactor h.fd) [ none ↦ ok w | some _ ↦ fault undefined ]

remove_this_lem :
    (w : World) (p : ℕ) (h : Handler)
    → w.handlers p ≡ some (epoll_handler h)
    → remove_this w p h ≡ removal_of w h
unfolding remove_this
remove_this_lem w p h live = elim (Bool-cases (is_nonzero w.register_flag)) [
  | inl due ↦ rw (remove_handler_refused w h.reactor p due) (rw due refl)
  | inr idle ↦ elim (Option-cases (entry w h.reactor h.fd)) [
    | inl missing ↦
        let (z, run) = remove_handler_missing w h.reactor p h live missing in
        rw run (rw idle (rw missing refl))
    | inr (e, found) ↦
        rw (remove_handler_undefined w h.reactor p h e idle live found) (rw idle (rw found refl))
  ]
]

pub handle_event_hangup :
    (fs : FileSystem) (io : Io) (w : World) (p : ℕ) (h : Handler)
    → w.handlers p ≡ some (epoll_handler h)
    → (has_event h.rdy_events epoll_err || has_event h.rdy_events epoll_hup) ≡ true
    → handle_event fs io w p ≡ removal_of w h
handle_event_hangup fs io w p h live bad =
    handle_event_bad fs io w p h live bad ∙ remove_this_lem w p h live
