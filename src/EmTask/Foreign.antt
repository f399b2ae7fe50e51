-- ===== src/EmTask/Foreign.antt =====
-- A handler that another reactor than its own has registered, while its connection hangs up.
use zt_http.Common.{
  ℕ, ◌≡◌, refl, ◌∙◌, ◌≢◌, inl, inr, true, ◌||◌, is_nonzero, none, some, List, [], ◌∷◌, map,
  Bool-cases, ok,
}
use zt_http.Common.Map.{update, update_self}
use zt_http.Http.{FileSystem}
use zt_http.Multiplexer.{Handler, epoll_handler, World}
use zt_http.Multiplexer.Entries.{entry}
use zt_http.EventHandler.{Io, has_event, epoll_err, epoll_hup}
use zt_http.EventHandler.Hangup.{handle_event_hangup, removal_of}
use zt_http.EmTask.{handle_ready, handle_each}

-- The handler with the events noted, and the state then.
abbrev noted : Handler → ℕ → Handler
noted h events = record h { rdy_events = events }

abbrev noting : World → ℕ → Handler → ℕ → World
noting w p h events = record w {
  handlers = update w.handlers p (some (epoll_handler (noted h events)));
}

removal_of_missing :
    (w : World) (h : Handler) → entry w h.reactor h.fd ≡ none → removal_of w h ≡ ok w
removal_of_missing w h missing = elim (Bool-cases (is_nonzero w.register_flag)) [
  | inl due ↦ rw due refl
  | inr idle ↦ rw idle (rw missing refl)
]

handle_ready_foreign :
    (fs : FileSystem) (io : ℕ → Io) (w : World) (r events e p : ℕ) (h : Handler)
    → entry w r h.fd ≡ some (e, some p)
    → w.handlers p ≡ some (epoll_handler h)
    → entry w h.reactor h.fd ≡ none
    → (has_event events epoll_err || has_event events epoll_hup) ≡ true
    → handle_ready fs io w r (h.fd, events) ≡ ok (noting w p h events)
unfolding handle_ready
handle_ready_foreign fs io w r events e p h found live missing bad =
    let same =
      handle_event_hangup fs (io h.fd) (noting w p h events) p (noted h events)
        (update_self w.handlers p (some (epoll_handler (noted h events)))) bad
      ∙ removal_of_missing (noting w p h events) (noted h events) missing in
    rw found (rw live same)

-- Each of the events says that there is an error or a hang-up.
abbrev AllBad : List ℕ → Type 0
AllBad [] = Unit
AllBad (v ∷ vs) = ((has_event v epoll_err || has_event v epoll_hup) ≡ true) × AllBad vs

abbrev events_of : ℕ → List ℕ → List (ℕ × ℕ)
events_of fd vs = map (λ v. (fd, v)) vs

-- Reactor `r` has registered a live handler whose own reactor has no entry for its descriptor, as when
-- another reactor than the one that it names empties the wait queue. However often its connection
-- has an error or hangs up: handling it in `r` ends each time, the handler lives, every reactor keeps
-- its entries, and nothing is asked of the kernel, so the descriptor is neither closed nor taken out
-- of epoll.
pub foreign_hangups_ignored :
    (fs : FileSystem) (io : ℕ → Io) (r e p : ℕ) (vs : List ℕ) (w : World) (h : Handler)
    → entry w r h.fd ≡ some (e, some p)
    → w.handlers p ≡ some (epoll_handler h)
    → entry w h.reactor h.fd ≡ none
    → AllBad vs
    → (w' : World) × (handle_each fs io w r (events_of h.fd vs) ≡ ok w')
      × (w'.handlers p ≢ none)
      × (w'.reactors ≡ w.reactors)
      × (w'.calls ≡ w.calls)
unfolding handle_each
foreign_hangups_ignored fs io r e p [] w h found live missing bad =
    (w, refl, λ none_there. cc (live, none_there), refl, refl)
foreign_hangups_ignored fs io r e p (v ∷ vs) w h found live missing (bad, more) =
    let (w', rest, lives, same, asked) =
      foreign_hangups_ignored fs io r e p vs (noting w p h v) (noted h v) found
        (update_self w.handlers p (some (epoll_handler (noted h v)))) missing more in
    (
      w',
      rw (handle_ready_foreign fs io w r v e p h found live missing bad) rest,
      lives,
      same,
      asked,
    )
