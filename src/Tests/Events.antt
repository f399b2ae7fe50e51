-- ===== src/Tests/Events.antt =====
-- Reactors and handlers at a concrete state.
use zt_http.Common.{
  ℕ, zero, suc, ◌+◌, ◌-◌, ◌*◌, ◌/◌, ◌%◌, ◌^◌, ◌≤◌, ◌<◌, min, max, ◌≡◌, refl, sym, ap, ◌∙◌, subst,
  fun_ext, ◌≢◌, ◌↔◌, inl, inr, Bool, true, false, not, ◌&&◌, ◌||◌, bit_and, bit_or, ℤ, pos, negsuc,
  succ_ℤ, pred_ℤ, Option, none, some, List, [], ◌∷◌, ◌++◌, map, append-nil, append_assoc, arith,
  Bytes, codes, length, get_or, set, take, drop, length-append, length-take, length-drop,
  take-append-drop, take_all, drop_all, take-append, drop-append, length-set, ltb, leb, ◌==◌,
  if◌then◌else◌, ==_iff, Bool-cases, Option-cases, if_cases, Fault, aborted, out_of_range, endless,
  Outcome, ok, ◌>>=◌, bind-Holds, bind-Holds_of,
}
use zt_http.Multiplexer.{Handler, epoll_handler, World, remove_handler}
use zt_http.EventHandler.{Io, has_event}
use zt_http.EmTask.{register_events, handle_each}
use zt_http.EmTask.Foreign.{foreign_hangups_ignored}
use zt_http.EmTask.Registration.{Entered, register_events_lem, merged_signals_block}
use zt_http.Buffer.{empty}
use zt_http.Http.{FileSystem}
use zt_http.Tcp.{TcpSocket, sent, received, nothing}

abbrev site : FileSystem
site = record { stat = λ path. none; contents_of = λ path. none }

abbrev socket : TcpSocket
socket = record {
  fd = 7;
  port = 80;
  send_call = nothing;
  recv_call = nothing;
  dis_conn_call = nothing;
  recv_buffer = empty;
  send_buffer = empty;
  max_recv_size = 1024;
  max_send_size = 1024;
  is_connected = true;
  status = 0;
  http = record { in_buffer = [] };
}

-- Ready for writing, and made for reactor 0.
abbrev handler : ℕ → Handler
handler fd = record { fd = fd; events = 0x2004; rdy_events = 4; reactor = 0; tcp = some socket }

abbrev io : Io
io = record { received = received []; sent = sent 206; stack = 1 ∷ 2 ∷ []; stack' = 1 ∷ 2 ∷ [] }

-- Handlers 1 and 3 for descriptor 7, handler 2 for descriptor 8; descriptor 7 is in reactor `r`.
abbrev world : ℕ → World
world r = record {
  reactors = λ i.
      if i == r
      then record { fds = (7, (0x2004, some 1)) ∷ []; rdy = (7, 4) ∷ [] }
      else record { fds = []; rdy = [] };
  handlers = λ p.
      if p == 1 || p == 3
      then some (epoll_handler (handler 7))
      else if p == 2
      then some (epoll_handler (handler 8))
      else none;
  wait_queue = 2 ∷ 3 ∷ [];
  register_flag = pos 0;
  quit_wait_flag = pos 0;
  calls = [];
}

abbrev due : ℕ → World
due flag = record (world 0) { register_flag = pos flag }

-- Handler 1 hangs up, with no registration due.
abbrev hung_up : Handler
hung_up = record (handler 7) { rdy_events = 16 }

abbrev hanging : World
hanging = record (world 0) { handlers = λ p. some (epoll_handler hung_up) }

register_events_lem_example :
    (w' : World) × (register_events (due 2) 1 ≡ ok w')
    × (w'.wait_queue ≡ [])
    × (w'.register_flag ≡ pos 0)
    × Entered w' 1 (2 ∷ 3 ∷ []) (handler 8 ∷ handler 7 ∷ [])
register_events_lem_example =
    register_events_lem (handler 8 ∷ handler 7 ∷ []) (due 2) 1 (refl, (refl, tt))
      ((omega arith, tt), (tt, tt))

merged_signals_block_example :
    (w' : World) × (register_events (due 1) 1 ≡ ok w')
    × ((later : World)
        → later.register_flag ≡ w'.register_flag
        → (r' p : ℕ) → remove_handler later r' p ≡ ok (later, negsuc 0))
merged_signals_block_example =
    merged_signals_block (handler 8 ∷ handler 7 ∷ []) (due 1) 1 1 (refl, (refl, tt))
      ((omega arith, tt), (tt, tt)) refl (omega arith)

-- While reactor 1 waits, the signal thread counts one signal more.
abbrev one_more : World → World
one_more w = record w { register_flag = succ_ℤ w.register_flag }

-- Reactor 1 has the handler that names reactor 0, and its connection hangs up twice.
foreign_hangups_ignored_example :
    (w' : World) × (handle_each site (λ fd. io) (world 1) 1 ((7, 16) ∷ (7, 24) ∷ []) ≡ ok w')
    × (w'.handlers 1 ≢ none)
    × (w'.reactors ≡ (world 1).reactors)
    × (w'.calls ≡ [])
unfolding zt_http.Common.Map.lookup has_event
foreign_hangups_ignored_example =
    foreign_hangups_ignored site (λ fd. io) 1 0x2004 1 (16 ∷ 24 ∷ []) (world 1) (handler 7) refl
      refl refl (refl, (refl, tt))
