-- ===== src/Tests/Samples.antt =====
-- The first reactor, the server over libevent and the set-up of the reactor server, at concrete inputs.
use zt_http.Common.{
  ℕ, zero, suc, Bytes, ◌≡◌, refl, inl, true, false, pos, none, some, [], ◌∷◌, ◌++◌, map, arith,
  codes, undefined, ok, fault,
}
use zt_http.ReverseVowels.Vowels.{vowels}
use zt_http.ReverseVowels.Rearranged.{IsRearranged}
use zt_http.ReverseVowels.Whole.{reverse_vowels_reverses}
use zt_http.ReverseVowels.{reverse_vowels, swap_vowels, scan_up, scan_down}
use zt_http.Libevent.Main.{
  read_options, port_number, as_daemon, default_options, Surroundings, main11, signal, fork,
  event_init, help, print_help, evhttp_start, evhttp_set_timeout, evhttp_set_gencb, event_dispatch,
  evhttp_free, handled_signals, signal_handler, event_loopbreak, sigint,
}
use zt_http.Libevent.Settings.{port, daemon, given, main11_serves, main11_helps}
use zt_http.Buffer.{IoBuffer, null}
use zt_http.Buffer.Stream.{contents, IsValid}
use zt_http.Server.SendCall.{send_call_func, send_call_func_lem}
use zt_http.FirstReactor.{Reactor, first_reactor, register_handler, remove_handler}
use zt_http.FirstReactor.Removal.{remove_handler-register_handler}
use zt_http.Libevent.{Received, reply, httpd_handler}
use zt_http.Libevent.Handler.{report, missing_text_undefined, httpd_handler_reports}
use zt_http.Server.{start, next, accepting, accept_round}
use zt_http.Server.Bounds.{IsBounded}
use zt_http.Server.Running.{start_pool_runs}
use zt_http.Multiplexer.{World}
use zt_http.EmTask.{register_events}
use zt_http.Server.Safe.{registration_is_safe}
use zt_http.Server.Start.{start_pool, start_server, start_server-IsBounded}
use zt_http.Sockets.{Answers}
use zt_http.Signals.{getfl, setfl, file_flg_set}
use zt_http.SimHttp.Cgi.{atoi, digits_value}
use zt_http.CText.{is_space}
use zt_http.ThreadPool.{ThreadPool, running}
use zt_http.ThreadPool

abbrev two_waiting : Reactor
two_waiting = record first_reactor { waited_queue = 4 ∷ 5 ∷ [] }

remove_handler-register_handler_example :
    remove_handler (register_handler two_waiting 4).0 4 ≡ fault undefined
remove_handler-register_handler_example = remove_handler-register_handler two_waiting 4

-- A request with `q=1&s=1` and a body with a NUL in it, and one with no query and no body.
abbrev asked : Received
asked = record {
  uri = codes "/?q=1&s=1";
  decoded_uri = codes "/?q=1&s=1";
  find_header = λ key. some (codes "1");
  post_data = some (codes "body" ++ 0 ∷ codes "rest");
}

abbrev plain : Received
plain = record {
  uri = codes "/";
  decoded_uri = codes "/";
  find_header = λ key. none;
  post_data = none;
}

missing_text_undefined_example : httpd_handler plain ≡ fault undefined
missing_text_undefined_example = missing_text_undefined plain (inl refl)

httpd_handler_reports_example :
    httpd_handler asked ≡ ok (reply (report asked (codes "1") (codes "1") (codes "body")))
httpd_handler_reports_example =
    httpd_handler_reports asked (codes "1") (codes "1") (codes "body") (codes "rest") refl refl refl
      (omega arith, omega arith, omega arith, omega arith, omega arith) (omega arith) (omega arith)
      (omega arith) (omega arith) (omega arith) (omega arith)

-- The last port counts.
two_ports :
    read_options
      (port_number (codes "80") ∷ as_daemon ∷ port_number (codes "81") ∷ [])
      default_options
    ≡ ok (some (record default_options { httpd_option_port = pos 81; httpd_option_daemon = 1 }))
unfolding read_options atoi digits_value is_space
two_ports = refl

start_pool_runs_example :
    (q : ThreadPool) × ThreadPool.Reach (start_pool 2) q
    × (q.workers ≡ running 0 ∷ running 1 ∷ [])
    × (q.tasks ≡ [])
start_pool_runs_example = start_pool_runs 2

abbrev answers : Answers
answers = record {
  fd = some 3;
  binds = true;
  listens = true;
  names = true;
  chosen_port = 40000;
  client = some (4, 50000);
}

start_server-IsBounded_example :
    IsBounded (accept_round (start_server answers 7 100).server (some (4, 50000)))
start_server-IsBounded_example =
    start_server-IsBounded answers 7 100 _
      (next _ _ start (accepting (start_server answers 7 100).server (some (4, 50000))))

registration_is_safe_example :
    (w : World) × (register_events
        (accept_round (start_server answers 7 100).server (some (4, 50000))).world
        1
      ≡ ok w)
    × (w.wait_queue ≡ [])
registration_is_safe_example =
    registration_is_safe answers 7 100 _ 1
      (next _ _ start (accepting (start_server answers 7 100).server (some (4, 50000))))

-- A flag is set, and cleared again.
flag_on : file_flg_set (some 2) 3 0x800 true ≡ getfl 3 ∷ setfl 3 0x802 ∷ []
unfolding file_flg_set
flag_on = refl

flag_off : file_flg_set (some 0x802) 3 0x800 false ≡ getfl 3 ∷ setfl 3 2 ∷ []
unfolding file_flg_set
flag_off = refl

abbrev child : Surroundings
child = record { pid = pos 0; starts = λ address n. true }

-- Two ports, the second of which counts, and is none.
main11_serves_example :
    main11 child (map given (port 80 ∷ daemon ∷ port 70000 ∷ []))
    ≡ ok (
      map signal handled_signals
          ++ fork
            ∷ event_init
            ∷ evhttp_start (codes "0.0.0.0") 4464
            ∷ evhttp_set_timeout (pos 120)
            ∷ evhttp_set_gencb
            ∷ event_dispatch
            ∷ evhttp_free
            ∷ [],
      0,
    )
main11_serves_example =
    main11_serves child (port 80 ∷ daemon ∷ port 70000 ∷ []) (omega arith, (omega arith, tt))
      (λ e. refl) refl

-- The signals that are handled break the loop.
interrupted : signal_handler sigint ≡ event_loopbreak ∷ []
unfolding signal_handler
interrupted = refl

-- Nine swaps, with which a longer string is not done.
nine_swaps : reverse_vowels (codes "aaaaaaaaaaeeeeeeeeee") ≡ codes "eeeeeeeeeaeaaaaaaaaa"
unfolding reverse_vowels swap_vowels scan_up scan_down
nine_swaps = refl

reverse_vowels_reverses_example :
    (vowels (reverse_vowels (codes "hello")) ≡ codes "oe")
    × IsRearranged (codes "hello") (reverse_vowels (codes "hello"))
reverse_vowels_reverses_example = reverse_vowels_reverses (codes "hello") (omega arith)

main11_helps_example :
    main11 child (map given (port 80 ∷ daemon ∷ []) ++ help ∷ as_daemon ∷ [])
    ≡ ok (map signal handled_signals ++ print_help ∷ [], 0)
main11_helps_example = main11_helps child (port 80 ∷ daemon ∷ []) (as_daemon ∷ []) (omega arith, tt)

-- What the array happens to hold.
filled : ℕ → Bytes
filled zero = []
filled (suc n) = 9 ∷ filled n

-- A buffer with one byte.
abbrev one_byte : IoBuffer
one_byte = record { chunks = (7 ∷ []) ∷ []; size = 1 }

send_call_func_lem_example :
    (b' : IoBuffer) × (send_call_func (filled 2048) (some one_byte) ≡ ok (some b', null))
    × (contents b' ≡ 7 ∷ codes "</BODY></HTML>\r\n" ++ 0 ∷ [])
    × IsValid b'
send_call_func_lem_example =
    send_call_func_lem (filled 2048) one_byte (record { counts = refl; fits = omega arith })
      (omega arith)
