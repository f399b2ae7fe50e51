-- ===== src/Tests/Sites.antt =====
-- Whole requests of a small site.
use zt_http.Common.{
  ℕ, ◌≡◌, refl, true, false, Option, none, some, List, [], ◌∷◌, ◌++◌, arith, Bytes, codes, ◌==◌,
  if◌then◌else◌, ok,
}
use zt_http.CText.{is_space, str_eq, str_case_eq, to_lower, c_str}
use zt_http.SimHttp.Shown.{shown}
use zt_http.Buffer.Stream.{joined}
use zt_http.Request.{ends_with_slash}
use zt_http.SimHttp.{Connection}
use zt_http.SimHttp.Replies.{headers_texts, not_found_texts}
use zt_http.SimHttp.Cgi.{Kernel, status_text, decimal, digits, atoi, digits_value}
use zt_http.SimHttp.Scripts.{environment}
use zt_http.SimHttp.Respond.{IsGet, IsPost, respond, respond_post}
use zt_http.SimHttp.Gets.{accept_request-respond}
use zt_http.SimHttp.Threads.{Acceptor, acceptor, turns, in_batches}
use zt_http.SimHttp.Site.{Client, gets, posts, Asks, Answered, one_by_one, serve_each, site_answers}
use zt_http.SimHttp.Forms.{accept_request-respond_post}
use zt_http.SimHttp.Accept.{accept_request}
use zt_http.Tests.Sockets.{stack, host}

abbrev page : Bytes
page = codes "<p>hi</p>\n"

-- A page, a script, and a directory that has an index.
abbrev mode_of : Bytes → Option ℕ
mode_of path =
    if str_eq path (codes "htdocs/page")
    then some 0o100644
    else if str_eq path (codes "htdocs/script")
    then some 0o100755
    else if str_eq path (codes "htdocs/docs")
    then some 0o040644
    else none

abbrev file_of : Bytes → Option Bytes
file_of path =
    if str_eq path (codes "htdocs/page")
    then some page
    else if str_eq path (codes "htdocs/docs/index.html")
    then some page
    else none

abbrev site : Kernel
site = record {
  files = record { stat = mode_of; contents_of = file_of };
  pipe_output = true;
  pipe_input = true;
  forks = true;
  run = λ path env input. joined env ++ input;
}

abbrev asks : Bytes → Connection
asks word = record {
  input = codes "GET " ++ word ++ codes " HTTP/1.0\r\nHost: a\r\n\r\nmore";
  output = [];
  closed = false;
}

asks-IsGet : IsGet (asks (codes "/docs")) (codes "/docs") none host (codes "more")
unfolding is_space
asks-IsGet = record {
  version = codes "HTTP/1.0";
  held = refl;
  whole_version = ground arith;
  short_version = omega arith;
  plain = ground arith;
  nul = ground arith;
  unasked = ground arith;
  some_word = omega arith;
  short = omega arith;
  headers = ground arith;
}

respond_missing : respond site (codes "/none") none ≡ ok (joined not_found_texts)
unfolding respond ends_with_slash str_eq
respond_missing = refl

respond_script :
    respond site (codes "/script") none ≡ ok (status_text ++ status_text ++ joined (environment []))
unfolding respond ends_with_slash str_eq
respond_script = refl

respond_asked :
    respond site (codes "/page") (some (codes "a"))
    ≡ ok (status_text ++ status_text ++ joined (environment (codes "a")))
unfolding respond ends_with_slash str_eq
respond_asked = refl

accept_request-respond_example :
    accept_request site stack (asks (codes "/docs"))
    ≡ ok (record { input = codes "more"; output = joined headers_texts ++ page; closed = true })
unfolding respond ends_with_slash str_eq shown c_str
accept_request-respond_example =
    accept_request-respond site stack (asks (codes "/docs")) (codes "/docs") none host
      (codes "more") asks-IsGet

abbrev nine : List Bytes
nine = codes "Content-Length: 9" ∷ []

abbrev form : Connection
form = record {
  input = codes "POST /page HTTP/1.1\r\nContent-Length: 9\r\n\r\na=1&b=2";
  output = [];
  closed = false;
}

form-IsPost : IsPost form (codes "/page") nine (codes "a=1&b=2")
unfolding is_space
form-IsPost = record {
  version = codes "HTTP/1.1";
  held = refl;
  whole_version = ground arith;
  short_version = omega arith;
  plain = ground arith;
  nul = ground arith;
  some_url = omega arith;
  short = omega arith;
  headers = ground arith;
  no_nuls = ground arith;
}

accept_request-respond_post_example :
    accept_request site stack form
    ≡ ok (record {
      input = [];
      output = status_text ++ status_text ++ codes "REQUEST_METHOD=POSTCONTENT_LENGTH=9a=1&b=222";
      closed = true;
    })
unfolding respond_post ends_with_slash str_eq str_case_eq to_lower is_space atoi digits_value
    decimal digits
accept_request-respond_post_example =
    accept_request-respond_post site stack form (codes "/page") nine (codes "a=1&b=2") form-IsPost

-- Descriptor 4 asks for the directory, every other one posts a form.
abbrev clients : ℕ → Connection
clients fd = if fd == 4 then asks (codes "/docs") else form

abbrev two_clients : List Client
two_clients =
    (record { fd = 4; left = codes "more"; reply = joined headers_texts ++ page })
    ∷ (record {
      fd = 5;
      left = [];
      reply = status_text ++ status_text ++ codes "REQUEST_METHOD=POSTCONTENT_LENGTH=9a=1&b=222";
    })
    ∷ []

two_clients-Asks : Asks site (λ fd. stack) clients two_clients
unfolding shown c_str respond respond_post ends_with_slash str_eq str_case_eq to_lower is_space atoi
    digits_value decimal digits
two_clients-Asks = (
  gets (codes "/docs") none host asks-IsGet refl,
  (posts (codes "/page") nine (codes "a=1&b=2") form-IsPost refl, tt),
)

site_answers_example :
    (s : Acceptor) × (after : ℕ → Connection) × (turns
        (in_batches (one_by_one two_clients))
        acceptor
      ≡ some s)
    × (serve_each site (λ fd. stack) s.serving clients ≡ ok after)
    × Answered clients after two_clients
    × (after 6 ≡ clients 6)
site_answers_example =
    site_answers site (λ fd. stack) two_clients clients 6 (ground arith) two_clients-Asks
      (ground arith)
