-- ===== src/Libevent/Main.antt =====
-- ztHttp/ztHttp/httpParse.cpp and myhttp.c, the program around the handler: the two files differ in the
-- name of `main` only. What is asked of libevent and of the kernel is recorded in order.
use zt_http.Common.{
  ℕ, zero, suc, ◌-◌, ◌%◌, ◌^◌, Bool, ◌||◌, ℤ, pos, negsuc, Option, none, some, List, [], ◌∷◌, ◌++◌,
  map, Bytes, codes, ◌==◌, if◌then◌else◌, undefined, Outcome, ok, fault, ◌>>=◌,
}
use zt_http.SimHttp.Cgi.{atoi}

-- An option as `getopt` gives it, with its argument.
pub data Given : Type 0 where
  listen_on port_number timeout_after : Bytes → Given
  as_daemon help : Given

pub record Options : Type 0 where
  pub httpd_option_listen : Bytes
  pub httpd_option_port : ℤ
  pub httpd_option_daemon : ℕ
  pub httpd_option_timeout : ℤ

abbrev pub default_options : Options
default_options = record {
  httpd_option_listen = codes "0.0.0.0";
  httpd_option_port = pos 8080;
  httpd_option_daemon = 0;
  httpd_option_timeout = pos 120;
}

-- The loop over the options; `none` where `-h` or an unknown option ends it.
unfoldable pub read_options : List Given → Options → Outcome (Option Options)
read_options [] o = ok (some o)
read_options (listen_on address ∷ gs) o =
    read_options gs (record o { httpd_option_listen = address })
read_options (port_number text ∷ gs) o =
    atoi text >>= λ n. read_options gs (record o { httpd_option_port = n })
read_options (as_daemon ∷ gs) o = read_options gs (record o { httpd_option_daemon = 1 })
read_options (timeout_after text ∷ gs) o =
    atoi text >>= λ n. read_options gs (record o { httpd_option_timeout = n })
read_options (help ∷ gs) o = ok none

-- What the program asks for.
pub data Call : Type 0 where
  signal : ℕ → Call
  print_help print_fork_failed fork event_init event_dispatch event_loopbreak evhttp_free : Call
  evhttp_set_gencb : Call
  evhttp_start : Bytes → ℕ → Call
  evhttp_set_timeout : ℤ → Call

abbrev sighup : ℕ
sighup = 1

abbrev pub sigint : ℕ
sigint = 2

abbrev sigquit : ℕ
sigquit = 3

abbrev sigterm : ℕ
sigterm = 15

-- `signal_handler`.
unfoldable pub signal_handler : ℕ → List Call
signal_handler sig =
    if sig == sigterm || (sig == sighup || (sig == sigquit || sig == sigint))
    then event_loopbreak ∷ []
    else []

-- The signals that the program handles.
abbrev pub handled_signals : List ℕ
handled_signals = sighup ∷ sigterm ∷ sigint ∷ sigquit ∷ []

-- What `fork` returns, and whether `evhttp_start` gives a server for an address and a port.
pub record Surroundings : Type 0 where
  pub pid : ℤ
  pub starts : Bytes → ℕ → Bool

-- The parameter of `evhttp_start` is a `u_short`, to which the `int` is converted.
unfoldable pub to_u_short : ℤ → ℕ
to_u_short (pos n) = n % 2 ^ 16
to_u_short (negsuc n) = (2 ^ 16 - 1) - n % 2 ^ 16

-- From `event_init` on, with the calls made before. `evhttp_start` may answer a null pointer, which the
-- next call is given.
unfoldable pub serve : Surroundings → Options → List Call → Outcome (List Call × ℕ)
unfolding to_u_short
serve around o calls =
    let port = to_u_short o.httpd_option_port in
    let started = evhttp_start o.httpd_option_listen port in
    if around.starts o.httpd_option_listen port
    then ok (
      calls
          ++ event_init
            ∷ started
            ∷ evhttp_set_timeout o.httpd_option_timeout
            ∷ evhttp_set_gencb
            ∷ event_dispatch
            ∷ evhttp_free
            ∷ [],
      0,
    )
    else fault undefined

-- `if (httpd_option_daemon) ...`, and the rest.
unfoldable pub run_with : Surroundings → Options → List Call → Outcome (List Call × ℕ)
unfolding serve
run_with around o calls =
    if o.httpd_option_daemon == 0 then serve around o calls else elim around.pid [
      | negsuc _ ↦ ok (calls ++ fork ∷ print_fork_failed ∷ [], 1)
      | pos zero ↦ serve around o (calls ++ fork ∷ [])
      | pos (suc _) ↦ ok (calls ++ fork ∷ [], 0)
    ]

-- `main`, called `main11` in httpParse.cpp: its calls, and the status of the process. It goes on from
-- `event_dispatch` when a signal breaks the loop.
unfoldable pub main11 : Surroundings → List Given → Outcome (List Call × ℕ)
unfolding read_options run_with
main11 around given = do
  read ← read_options given default_options
  let calls = map signal handled_signals
  elim read [ none ↦ ok (calls ++ print_help ∷ [], 0) | some o ↦ run_with around o calls ]
