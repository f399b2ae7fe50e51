-- ===== src/Tests/Servers.antt =====
-- The server with two reactors, from its start.
use zt_http.Common.{
  ℕ, ◌≡◌, refl, true, false, pos, negsuc, none, some, [], ◌∷◌, arith, codes, undefined, ok, fault,
}
use zt_http.Multiplexer.{World, remove_handler}
use zt_http.EmTask.{register_events}
use zt_http.Server.{
  Server, accept_round, signal_handle, sigusr1, Reach, start, next, accepting, signalled,
}
use zt_http.Http.{FileSystem}
use zt_http.Tcp.{received, sent}
use zt_http.EventHandler.{Io, has_event}
use zt_http.EmTask.{handle_ready}
use zt_http.Multiplexer.Entries.{entry}
use zt_http.Server.{accepted_events}
use zt_http.Server.Life.{first_event_undefined}
use zt_http.Server.Bursts.{accept_all, burst_blocks}

abbrev started : Server
started = record {
  world = record {
    reactors = λ r. record { fds = []; rdy = [] };
    handlers = λ p. none;
    wait_queue = [];
    register_flag = pos 0;
    quit_wait_flag = pos 0;
    calls = [];
  };
  reactor_select = 0;
  next_object = 100;
  usr1_pending = false;
  running = true;
}

one_accepted : Reach started (signal_handle (accept_round started (some (7, 80))) sigusr1)
one_accepted =
    next _ _ (next _ _ start (accepting started (some (7, 80))))
      (signalled (accept_round started (some (7, 80))) sigusr1)

burst_blocks_example :
    (w' : World) × (register_events
        (signal_handle (accept_all started ((7, 80) ∷ (8, 80) ∷ [])) sigusr1).world
        0
      ≡ ok w')
    × ((later : World)
        → later.register_flag ≡ w'.register_flag
        → (r' p : ℕ) → remove_handler later r' p ≡ ok (later, negsuc 0))
burst_blocks_example =
    burst_blocks started ((7, 80) ∷ (8, 80) ∷ []) 0 refl refl
      (tt, λ r. ((ground arith, tt), λ r'. tt)) (omega arith) (omega arith)

abbrev no_file : FileSystem
no_file = record { stat = λ path. none; contents_of = λ path. none }

abbrev io : ℕ → Io
io fd = record { received = received (codes "GET /"); sent = sent 0; stack = []; stack' = [] }

-- The kernel reports that the new socket can be written to.
first_event_undefined_example :
    (w : World) × (register_events
        (signal_handle (accept_round started (some (7, 80))) sigusr1).world
        0
      ≡ ok w)
    × (entry w 0 7 ≡ some (accepted_events, some 100))
    × (w.register_flag ≡ pos 0)
    × (handle_ready no_file io w 0 (7, 4) ≡ fault undefined)
unfolding has_event
first_event_undefined_example =
    first_event_undefined started 7 80 0 no_file io 4 refl refl refl refl (omega arith)
