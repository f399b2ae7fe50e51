-- ===== src/EmTask/Sound.antt =====
-- Queued handlers over a round of a reactor's thread, and their registration.
use zt_http.Common.{
  ℕ, ◌≡◌, refl, sym, ap, ◌∙◌, subst, inl, inr, pred_ℤ, Option, none, some, List, [], ◌∷◌,
  Option-cases, ok, Holds, bind-Holds, bind-Holds_of,
}
use zt_http.Common.Map.{lookup, update, update_ne}
use zt_http.Http.{FileSystem}
use zt_http.Multiplexer.{Handler, epoll_handler, other_handler, World, remove_handler, deref}
use zt_http.Multiplexer.Below.{EntriesBelow, register_handler-EntriesBelow}
use zt_http.Multiplexer.Entries.{register_handler_lem}
use zt_http.Multiplexer.Sound.{Live, Apart, AllBelow, Sound, Live-others, remove_handler-Sound}
use zt_http.EventHandler.{Io, handle_event, remove_this}
use zt_http.EventHandler.Removal.{Keeps, handle_event-Holds}
use zt_http.EmTask.{find_handler, set_rdy_events, handle_ready, register_each, register_events}

Keeps-Sound :
    (n : ℕ) (ps : List ℕ) (w w1 : World) (p : ℕ) (h h1 : Handler)
    → Apart p ps
    → Sound n ps w
    → Keeps w p h w1 h1
    → Sound n ps w1
Keeps-Sound n ps w w1 p h h1 apart s k = record {
  live = Live-others w.handlers w1.handlers p ps apart k.others s.live;
  apart =
      λ r fd e q found. s.apart r fd e q (ap (λ f. lookup fd (f r).fds) (sym k.reactors) ∙ found);
  queue = k.queue ∙ s.queue;
  below = s.below;
}

handle_event-Sound :
    (n : ℕ) (ps : List ℕ) (fs : FileSystem) (io : Io) (w : World) (p : ℕ)
    → Apart p ps
    → Sound n ps w
    → Holds (Sound n ps) (handle_event fs io w p)
unfolding handle_event remove_this
handle_event-Sound n ps fs io w p apart s = elim (Option-cases (w.handlers p)) [
  | inl gone ↦ rw gone tt
  | inr (other_handler, other) ↦ rw other tt
  | inr (epoll_handler h, live) ↦
      handle_event-Holds w p h (Sound n ps)
        (λ w1 h1 k.
          bind-Holds_of (λ x. Sound n ps x.0) (Sound n ps) (remove_handler w1 h1.reactor p) _
            (remove_handler-Sound n ps w1 h1.reactor p (Keeps-Sound n ps w w1 p h h1 apart s k))
            λ x sound. sound)
        fs io live
]

find_handler-Holds :
    (P : ℕ → Type 0) (o : Option (ℕ × Option ℕ))
    → ((e p : ℕ) → o ≡ some (e, some p) → P p)
    → Holds P (find_handler o)
unfolding find_handler
find_handler-Holds P none h = tt
find_handler-Holds P (some (e, none)) h = tt
find_handler-Holds P (some (e, some p)) h = h e p refl

pub handle_ready-Sound :
    (n : ℕ) (ps : List ℕ) (fs : FileSystem) (io : ℕ → Io) (w : World) (r : ℕ) (e : ℕ × ℕ)
    → Sound n ps w
    → Holds (Sound n ps) (handle_ready fs io w r e)
unfolding handle_ready
handle_ready-Sound n ps fs io w r (fd, events) s =
    bind-Holds_of (λ p. Apart p ps) (Sound n ps) (find_handler (lookup fd (w.reactors r).fds)) _
      (find_handler-Holds (λ p. Apart p ps) (lookup fd (w.reactors r).fds)
        λ e p found. (s.apart r fd e p found).0)
      λ p apart. bind-Holds (Sound n ps) (deref (w.handlers p)) _ λ o.
        bind-Holds (Sound n ps) (set_rdy_events o events) _ λ o'.
          handle_event-Sound n ps fs (io fd) (record w { handlers = update w.handlers p (some o') })
            p apart
            (record {
              live =
                  Live-others w.handlers (update w.handlers p (some o')) p ps apart
                    (λ q ne. update_ne w.handlers p q (some o') ne) s.live;
              apart = s.apart;
              queue = s.queue;
              below = s.below;
            })

-- Over live handlers the loop of `registerEvents` ends.
register_each-Sound :
    (n : ℕ) (ps : List ℕ) (w : World) (r : ℕ)
    → Live w.handlers ps
    → AllBelow n ps
    → EntriesBelow n w
    → (w' : World) × (register_each w r ps ≡ ok w') × Sound n [] w'
unfolding register_each
register_each-Sound n [] w r live below b = (
  record w { wait_queue = [] },
  refl,
  record {
    live = tt;
    apart = λ r' fd e q found. (tt, b r' fd e q found);
    queue = refl;
    below = tt;
  },
)
register_each-Sound n (p ∷ ps) w r ((h, lives), live) (fits, below) b =
    let (w1, run, _, _, _, same, _) = register_handler_lem w r p h lives in
    let b1 : EntriesBelow n w1 =
      subst (Holds (λ x. EntriesBelow n x.0)) run (register_handler-EntriesBelow n w r p fits b) in
    let (w2, rest, s) =
      register_each-Sound n ps (record w1 { register_flag = pred_ℤ w1.register_flag }) r
        (subst (λ f. Live f ps) (sym same) live) below b1 in
    (w2, rw run rest, s)

-- Whatever queue holds, it is registered without a fault, and is empty afterwards.
pub register_events-Sound :
    (n : ℕ) (ps : List ℕ) (w : World) (r : ℕ)
    → Sound n ps w
    → (w' : World) × (register_events w r ≡ ok w') × Sound n [] w'
unfolding register_events
register_events-Sound n ps w r s =
    let (w', run, s') =
      register_each-Sound n ps w r s.live s.below λ r' fd e q found. (s.apart r' fd e q found).1 in
    (w', ap (register_each w r) s.queue ∙ run, s')
