-- ===== src/Server/Safe.antt =====
-- What the accepting thread, the signal thread and the reactors together keep.
use zt_http.Common.{
  ℕ, suc, ◌+◌, ◌%◌, ◌≡◌, refl, sym, ap, ◌∙◌, subst, ◌≢◌, inl, inr, ℤ, Option, none, some, List, [],
  ◌∷◌, arith, length, ◌==◌, Bool-cases, ok, Holds,
}
use zt_http.Common.Map.{update, update_self, update_ne}
use zt_http.Multiplexer.{Handler, Object, epoll_handler, World}
use zt_http.Multiplexer.Sound.{
  Live, AllBelow, Sound, Sound-reactor, quit_if_asked-Sound, note_waited-Sound,
}
use zt_http.EmTask.{register_events, clear_rdy}
use zt_http.EmTask.Sound.{handle_ready-Sound, register_events-Sound}
use zt_http.Server.{
  Server, backlog_queue, enqueue_and_wait, accept_round, accepted, signal_handle, sigint, sigusr1,
  sigusr2, other_signal, Step, accepting, signalled, quitting, waited, registering, handling,
  clearing, counting, Reach, start, next,
}
use zt_http.Server.Bursts.{AllBelow-suc}
use zt_http.Server.Start.{start_server}
use zt_http.Multiplexer.Sound.{none_is_not_some}
use zt_http.Common.Map.{lookup}
use zt_http.Sockets.{Answers}

-- The queue is sound for the addresses given out so far.
abbrev SoundServer : Server → Type 0
SoundServer s = (ps : List ℕ) × Sound s.next_object ps s.world

-- A new handler at `n` leaves those below as they are.
Live-new :
    (f : ℕ → Option Object) (n : ℕ) (o : Option Object) (ps : List ℕ)
    → AllBelow n ps
    → Live f ps
    → Live (update f n o) ps
Live-new f n o [] below live = tt
Live-new f n o (p ∷ ps) (fits, below) ((h, lives), live) =
    let ne : n ≢ p = λ e. omega arith in
    ((h, update_ne f n p o ne ∙ lives), Live-new f n o ps below live)

-- The connection waits.
Sound-queued :
    (n : ℕ) (ps : List ℕ) (w : World) (h : Handler)
    → Sound n ps w
    → Sound (suc n) (n ∷ ps) (record w {
      handlers = update w.handlers n (some (epoll_handler h));
      wait_queue = n ∷ w.wait_queue;
    })
Sound-queued n ps w h s = record {
  live = (
    (h, update_self w.handlers n (some (epoll_handler h))),
    Live-new w.handlers n (some (epoll_handler h)) ps s.below s.live,
  );
  apart = λ r fd e q found.
      let (apart, fits) = s.apart r fd e q found in
      let ne : q ≢ n = λ same. omega arith in ((ne, apart), omega arith);
  queue = ap (λ l. n ∷ l) s.queue;
  below = (omega arith, AllBelow-suc n ps s.below);
}

-- The connection is dropped, and its handler stays.
Sound-dropped :
    (n : ℕ) (ps : List ℕ) (w : World) (h : Handler)
    → Sound n ps w
    → Sound (suc n) ps (record w { handlers = update w.handlers n (some (epoll_handler h)) })
Sound-dropped n ps w h s = record {
  live = Live-new w.handlers n (some (epoll_handler h)) ps s.below s.live;
  apart = λ r fd e q found. let (apart, fits) = s.apart r fd e q found in (apart, omega arith);
  queue = s.queue;
  below = AllBelow-suc n ps s.below;
}

enqueue_and_wait-Sound :
    (n : ℕ) (ps : List ℕ) (w : World) (h : Handler)
    → Sound n ps w
    → (ps' : List ℕ) × Sound
        (suc n)
        ps'
        (enqueue_and_wait
          (record w { handlers = update w.handlers n (some (epoll_handler h)) })
          n).0
unfolding enqueue_and_wait
enqueue_and_wait-Sound n ps w h s = elim (Bool-cases (length w.wait_queue == backlog_queue)) [
  | inl full ↦ rw full (ps, Sound-dropped n ps w h s)
  | inr room ↦ rw room (n ∷ ps, Sound-queued n ps w h s)
]

flagged :
    (n : ℕ) (ps : List ℕ) (w : World) (flag quit : ℤ)
    → Sound n ps w
    → Sound n ps (record w { register_flag = flag; quit_wait_flag = quit })
flagged n ps w flag quit v = record {
  live = v.live;
  apart = v.apart;
  queue = v.queue;
  below = v.below;
}

Step-SoundServer : (s t : Server) → Step s t → SoundServer s → SoundServer t
unfolding accept_round signal_handle
Step-SoundServer _ _ (accepting s none) v = v
Step-SoundServer _ _ (accepting s (some (fd, port))) (ps, v) =
    enqueue_and_wait-Sound s.next_object ps s.world (accepted ((s.reactor_select + 1) % 2) fd port)
      v
Step-SoundServer _ _ (signalled s sigint) (ps, v) = (ps, flagged s.next_object ps s.world _ _ v)
Step-SoundServer _ _ (signalled s sigusr1) (ps, v) = (ps, flagged s.next_object ps s.world _ _ v)
Step-SoundServer _ _ (signalled s sigusr2) v = v
Step-SoundServer _ _ (signalled s other_signal) v = v
Step-SoundServer _ _ (quitting s r) (ps, v) = (ps, quit_if_asked-Sound s.next_object ps s.world r v)
Step-SoundServer _ _ (waited s r a) (ps, v) = (ps, note_waited-Sound s.next_object ps s.world r a v)
Step-SoundServer _ _ (registering s r w ran) (ps, v) =
    let (w', run, v') = register_events-Sound s.next_object ps s.world r v in
    ([], subst (Holds (Sound s.next_object [])) (sym run ∙ ran) v')
Step-SoundServer _ _ (handling s fs io r e w ran) (ps, v) = (
  ps,
  subst (Holds (Sound s.next_object ps)) ran
      (handle_ready-Sound s.next_object ps fs io s.world r e v),
)
Step-SoundServer _ _ (clearing s r) (ps, v) = (
  ps,
  Sound-reactor s.next_object ps s.world (clear_rdy s.world r) r _ v refl refl refl
      λ fd e q found. found,
)
Step-SoundServer _ _ (counting s flag quit) (ps, v) =
    (ps, flagged s.next_object ps s.world flag quit v)

Reach-SoundServer : (s t : Server) → SoundServer s → Reach s t → SoundServer t
Reach-SoundServer s _ v start = v
Reach-SoundServer s _ v (next t u before step) =
    Step-SoundServer t u step (Reach-SoundServer s t v before)

start_server-SoundServer :
    (a : Answers) (stack next_object : ℕ) → SoundServer (start_server a stack next_object).server
unfolding start_server lookup
start_server-SoundServer a stack next_object = (
  [],
  record {
    live = tt;
    apart = λ r fd e q found. absurd (none_is_not_some (e, some q) found);
    queue = refl;
    below = tt;
  },
)

-- From the set-up on, in whatever order the threads accept connections, take signals, and quit, note
-- what is ready, register, handle single events and clear what is ready for their reactors, whatever
-- the kernel answers, and whatever the unprotected flags come to hold: `registerEvents`, called by any
-- reactor, ends without a fault and leaves the wait queue empty.
pub registration_is_safe :
    (a : Answers) (stack next_object : ℕ) (s : Server) (r : ℕ)
    → Reach (start_server a stack next_object).server s
    → (w : World) × (register_events s.world r ≡ ok w) × (w.wait_queue ≡ [])
registration_is_safe a stack next_object s r reach =
    let (ps, v) =
      Reach-SoundServer (start_server a stack next_object).server s
        (start_server-SoundServer a stack next_object) reach in
    let (w, run, v') = register_events-Sound s.next_object ps s.world r v in (w, run, v'.queue)
