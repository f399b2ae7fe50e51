-- ===== src/EmTask/Queue.antt =====
-- The wait queue and the count of due registrations, while events are handled.
use zt_http.Common.{ℕ, refl, ◌∙◌, some, List, [], ◌∷◌, Outcome, Holds, bind-Holds, bind-Holds_of}
use zt_http.Common.{weaken-Holds}
use zt_http.Common.Map.{lookup, update}
use zt_http.Http.{FileSystem}
use zt_http.Multiplexer.{World, quit_if_asked, deref}
use zt_http.Multiplexer.Queue.{SameCounts, quit_if_asked-SameCounts}
use zt_http.EventHandler.{Io}
use zt_http.EventHandler.Removal.{handle_event-SameCounts}
use zt_http.EmTask.{find_handler, set_rdy_events, handle_ready, handle_each, handle_events}

-- What is as before, and goes on to be as before.
and_then :
    (w w1 : World) (o : Outcome World)
    → SameCounts w w1
    → Holds (SameCounts w1) o
    → Holds (SameCounts w) o
and_then w w1 o (queue, flag) =
    weaken-Holds (SameCounts w1) (SameCounts w) o λ w2 same. (same.0 ∙ queue, same.1 ∙ flag)

pub handle_ready-SameCounts :
    (fs : FileSystem) (io : ℕ → Io) (w : World) (r : ℕ) (e : ℕ × ℕ)
    → Holds (SameCounts w) (handle_ready fs io w r e)
unfolding handle_ready
handle_ready-SameCounts fs io w r (fd, events) =
    bind-Holds (SameCounts w) (find_handler (lookup fd (w.reactors r).fds)) _ λ p.
      bind-Holds (SameCounts w) (deref (w.handlers p)) _ λ o.
        bind-Holds (SameCounts w) (set_rdy_events o events) _ λ o'.
          handle_event-SameCounts fs (io fd) (record w { handlers = update w.handlers p (some o') })
            p

handle_each-SameCounts :
    (fs : FileSystem) (io : ℕ → Io) (w : World) (r : ℕ) (es : List (ℕ × ℕ))
    → Holds (SameCounts w) (handle_each fs io w r es)
unfolding handle_each
handle_each-SameCounts fs io w r [] = (refl, refl)
handle_each-SameCounts fs io w r (e ∷ es) =
    bind-Holds_of (SameCounts w) (SameCounts w) (handle_ready fs io w r e)
      (λ w'. handle_each fs io w' r es) (handle_ready-SameCounts fs io w r e)
      λ w1 same.
        and_then w w1 (handle_each fs io w1 r es) same (handle_each-SameCounts fs io w1 r es)

pub handle_events-SameCounts :
    (fs : FileSystem) (io : ℕ → Io) (w : World) (r : ℕ)
    → Holds (SameCounts w) (handle_events fs io w r)
unfolding handle_events
handle_events-SameCounts fs io w r =
    let w0 = quit_if_asked w r in
    bind-Holds_of (SameCounts w) (SameCounts w) (handle_each fs io w0 r (w0.reactors r).rdy) _
      (and_then w w0 (handle_each fs io w0 r (w0.reactors r).rdy) (quit_if_asked-SameCounts w r)
        (handle_each-SameCounts fs io w0 r (w0.reactors r).rdy))
      λ w1 same. same
