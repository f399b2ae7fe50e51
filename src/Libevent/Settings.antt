-- ===== src/Libevent/Settings.antt =====
-- What the server over libevent does with its options.
use zt_http.Common.{
  ℕ, ◌%◌, ◌^◌, ◌<◌, ◌≡◌, refl, sym, ap, ◌∙◌, Bool, true, false, pos, List, [], ◌∷◌, ◌++◌, map,
  append-nil, Bytes, codes, if◌then◌else◌, ok,
}
use zt_http.SimHttp.Cgi.{decimal}
use zt_http.SimHttp.Numbers.{atoi-decimal_end}
use zt_http.Libevent.Main.{
  Given, listen_on, port_number, timeout_after, as_daemon, help, Options, default_options,
  read_options, Call, signal, print_help, fork, event_init, evhttp_start, evhttp_set_timeout,
  evhttp_set_gencb, event_dispatch, evhttp_free, handled_signals, Surroundings, serve, run_with,
  main11,
}

-- A setting, and the option that asks for it, its number in decimal digits.
pub data Setting : Type 0 where
  listen : Bytes → Setting
  port : ℕ → Setting
  timeout : ℕ → Setting
  daemon : Setting

abbrev pub given : Setting → Given
given (listen address) = listen_on address
given (port n) = port_number (decimal (pos n))
given (timeout n) = timeout_after (decimal (pos n))
given daemon = as_daemon

-- The numbers fit an `int`.
abbrev AreInts : List Setting → Type 0
AreInts [] = Unit
AreInts (port n ∷ ss) = (n < 2 ^ 31) × AreInts ss
AreInts (timeout n ∷ ss) = (n < 2 ^ 31) × AreInts ss
AreInts (listen address ∷ ss) = AreInts ss
AreInts (daemon ∷ ss) = AreInts ss

-- The settings of one kind, and the last of them.
abbrev addresses : List Setting → List Bytes
addresses [] = []
addresses (listen address ∷ ss) = address ∷ addresses ss
addresses (port n ∷ ss) = addresses ss
addresses (timeout n ∷ ss) = addresses ss
addresses (daemon ∷ ss) = addresses ss

abbrev ports : List Setting → List ℕ
ports [] = []
ports (listen address ∷ ss) = ports ss
ports (port n ∷ ss) = n ∷ ports ss
ports (timeout n ∷ ss) = ports ss
ports (daemon ∷ ss) = ports ss

abbrev timeouts : List Setting → List ℕ
timeouts [] = []
timeouts (listen address ∷ ss) = timeouts ss
timeouts (port n ∷ ss) = timeouts ss
timeouts (timeout n ∷ ss) = n ∷ timeouts ss
timeouts (daemon ∷ ss) = timeouts ss

abbrev has_daemon : List Setting → Bool
has_daemon [] = false
has_daemon (listen address ∷ ss) = has_daemon ss
has_daemon (port n ∷ ss) = has_daemon ss
has_daemon (timeout n ∷ ss) = has_daemon ss
has_daemon (daemon ∷ ss) = true

abbrev last_or {ℓ} : {A : Type ℓ} → A → List A → A
last_or a [] = a
last_or a (b ∷ bs) = last_or b bs

-- The options that settings come to, over those that hold without them.
abbrev chosen : List Setting → Bytes → ℕ → ℕ → ℕ → Options
chosen ss address n d seconds = record {
  httpd_option_listen = last_or address (addresses ss);
  httpd_option_port = pos (last_or n (ports ss));
  httpd_option_daemon = if has_daemon ss then 1 else d;
  httpd_option_timeout = pos (last_or seconds (timeouts ss));
}

set_daemon : (b : Bool) → ◌≡◌ {A = ℕ} (if b then 1 else 1) 1
set_daemon true = refl
set_daemon false = refl

read_settings :
    (ss : List Setting) (more : List Given) (address : Bytes) (n d seconds : ℕ)
    → AreInts ss
    → read_options (map given ss ++ more) (chosen [] address n d seconds)
      ≡ read_options more (chosen ss address n d seconds)
unfolding read_options
read_settings [] more address n d seconds ints = refl
read_settings (listen address' ∷ ss) more address n d seconds ints =
    read_settings ss more address' n d seconds ints
read_settings (port n' ∷ ss) more address n d seconds ints =
    rw (atoi-decimal_end n' ints.0) (read_settings ss more address n' d seconds ints.1)
read_settings (timeout seconds' ∷ ss) more address n d seconds ints =
    rw (atoi-decimal_end seconds' ints.0) (read_settings ss more address n d seconds' ints.1)
read_settings (daemon ∷ ss) more address n d seconds ints =
    read_settings ss more address n 1 seconds ints
    ∙ ap
        (λ d'.
          read_options more (record (chosen ss address n 0 seconds) { httpd_option_daemon = d' }))
        (set_daemon (has_daemon ss))

-- The calls of a server that was asked for these settings.
abbrev pub serving : List Setting → List Call
serving ss =
    event_init
    ∷ evhttp_start (last_or (codes "0.0.0.0") (addresses ss)) (last_or 8080 (ports ss) % 2 ^ 16)
    ∷ evhttp_set_timeout (pos (last_or 120 (timeouts ss)))
    ∷ evhttp_set_gencb
    ∷ event_dispatch
    ∷ evhttp_free
    ∷ []

default_chosen : List Setting → Options
default_chosen ss = chosen ss (codes "0.0.0.0") 8080 0 120

run_chosen :
    (around : Surroundings) (ss : List Setting) (calls : List Call) (b : Bool)
    → has_daemon ss ≡ b
    → (b ≡ true → around.pid ≡ pos 0)
    → around.starts (last_or (codes "0.0.0.0") (addresses ss)) (last_or 8080 (ports ss) % 2 ^ 16)
      ≡ true
    → run_with around (default_chosen ss) calls
      ≡ ok (calls ++ (if b then fork ∷ [] else []) ++ serving ss, 0)
unfolding run_with serve default_chosen
run_chosen around ss calls true e child starts = rw e (rw (child refl) (rw starts refl))
run_chosen around ss calls false e child starts =
    rw e (rw starts (ap (λ l. ok (l ++ serving ss, 0)) (sym (append-nil calls))))

-- Any settings on the command line, in any order and repeated, whose numbers fit an `int`; where `fork`
-- is called, this is the process that it leaves running; and `evhttp_start` gives a server. Then `main`
-- handles the four signals, forks if and only if `-d` was given, starts the server with the last
-- address and the last port, or 0.0.0.0 and 8080 where none was given, a port of 65536 or more less the
-- multiple of 65536 in it, and with the last time limit, or 120, runs the loop, and in the end frees the
-- server and returns 0.
pub main11_serves :
    (around : Surroundings) (ss : List Setting)
    → AreInts ss
    → (has_daemon ss ≡ true → around.pid ≡ pos 0)
    → around.starts (last_or (codes "0.0.0.0") (addresses ss)) (last_or 8080 (ports ss) % 2 ^ 16)
      ≡ true
    → main11 around (map given ss)
      ≡ ok
          (map signal handled_signals ++ (if has_daemon ss then fork ∷ [] else []) ++ serving ss, 0)
unfolding main11 default_chosen read_options
main11_serves around ss ints child starts =
    let read =
      ap (λ l. read_options l default_options) (sym (append-nil (map given ss)))
      ∙ read_settings ss [] (codes "0.0.0.0") 8080 0 120 ints in
    rw read (run_chosen around ss (map signal handled_signals) (has_daemon ss) refl child starts)

-- Where `-h` or an unknown option comes behind settings whose numbers fit an `int`: `main` prints the
-- help and ends with 0, whatever options follow, with no fork and nothing asked of libevent.
pub main11_helps :
    (around : Surroundings) (ss : List Setting) (more : List Given)
    → AreInts ss
    → main11 around (map given ss ++ help ∷ more)
      ≡ ok (map signal handled_signals ++ print_help ∷ [], 0)
unfolding main11 read_options
main11_helps around ss more ints =
    rw (read_settings ss (help ∷ more) (codes "0.0.0.0") 8080 0 120 ints) refl
