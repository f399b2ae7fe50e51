-- ===== src/Tests/Sockets.antt =====
-- Connections of the server with a thread for each, at concrete requests.
use zt_http.Common.{
  ℕ, zero, suc, ◌<◌, ◌≡◌, refl, true, false, some, List, [], ◌∷◌, ◌++◌, arith, Bytes, codes, length,
  ok, Holds,
}
use zt_http.SimHttp.Effects.{Served, closes, accept_request-Served}
use zt_http.SimHttp.Cgi.{Kernel}
use zt_http.SimHttp.Unknown.{accept_unknown}
use zt_http.SimHttp.Replies.{unimplemented_texts}
use zt_http.SimHttp.{Connection, get_line, store_text}
use zt_http.Request.Paths.{parse_request-make_path}
use zt_http.Request.Parse.{NoSpace, parse_get_query}
use zt_http.Request.{parse_request, make_path, in_path}
use zt_http.CText.{is_space, fgets}
use zt_http.CText.Lines.{NoNul}
use zt_http.Buffer.Stream.{joined}
use zt_http.SimHttp.Lines.{one_newline, get_line-fgets}
use zt_http.SimHttp.Accept.{Stack, accept_request}

abbrev filled : ℕ → Bytes
filled zero = []
filled (suc n) = b'x' ∷ filled n

abbrev hello : Bytes
hello = codes "<p>hi</p>\n"

-- One plain file, whatever its name; the scripts print their environment.
abbrev kernel : Kernel
kernel = record {
  files = record { stat = λ path. some 0; contents_of = λ path. some hello };
  pipe_output = true;
  pipe_input = true;
  forks = true;
  run = λ path env input. joined env ++ input;
}

abbrev pub stack : Stack
stack = record { buf = []; callee_buf = []; reply_buf = []; c = 0 }

abbrev pub host : List Bytes
host = codes "Host: a" ∷ []

abbrev asks : Bytes → Connection
asks word = record {
  input = codes "GET " ++ word ++ codes " HTTP/1.0\r\nHost: a\r\n\r\nmore";
  output = [];
  closed = false;
}

filled-NoSpace : (n : ℕ) → NoSpace (filled n)
unfolding is_space
filled-NoSpace zero = tt
filled-NoSpace (suc n) = (refl, filled-NoSpace n)

filled-NoNul : (n : ℕ) → NoNul (filled n)
filled-NoNul zero = tt
filled-NoNul (suc n) = (omega arith, filled-NoNul n)

query-NoSpace : (n : ℕ) → NoSpace (codes "/c?" ++ filled n)
unfolding is_space
query-NoSpace n = (refl, (refl, (refl, filled-NoSpace n)))

query-NoNul : (n : ℕ) → NoNul (codes "/c?" ++ filled n)
query-NoNul n = (omega arith, (omega arith, (omega arith, filled-NoNul n)))

get_line-fgets_example :
    (line unread : Bytes) × (get_line (asks (codes "/hi")) [] 1024
      ≡ (record (asks (codes "/hi")) { input = unread }, store_text line [], length line))
    × (line ≡ (fgets 1024 (one_newline false (asks (codes "/hi")).input)).0)
    × (one_newline false unread
        ≡ (fgets 1024 (one_newline false (asks (codes "/hi")).input)).1.rest)
    × (length line < 1024)
get_line-fgets_example = get_line-fgets (asks (codes "/hi")) [] 1024 (omega arith)

parse_get_query_example :
    parse_request (codes "GET /c?x " ++ codes "HTTP/1.0") 16
    ≡ some (record {
      method = codes "GET";
      url = codes "/c";
      query_string = some (codes "x");
      cgi = true;
    })
parse_get_query_example =
    parse_get_query (codes "/c") (codes "x") (codes "HTTP/1.0") 16 (query-NoSpace 1) (query-NoNul 1)
      (ground arith) (omega arith) (omega arith)

parse_request-make_path_example :
    (path : Bytes) × (make_path (codes "/c") ≡ ok path)
    × (in_path (path ++ codes "/index.html") ≡ ok (path ++ codes "/index.html"))
parse_request-make_path_example =
    parse_request-make_path (codes "GET /c?x " ++ codes "HTTP/1.0") 16
      (record {
        method = codes "GET";
        url = codes "/c";
        query_string = some (codes "x");
        cgi = true;
      })
      parse_get_query_example

abbrev puts : Connection
puts = record { input = codes "PUT /hi HTTP/1.0\r\nHost: a\r\n\r\n"; output = []; closed = false }

accept_unknown_example :
    accept_request kernel stack puts
    ≡ ok (record {
      input = codes "Host: a\r\n\r\n";
      output = joined unimplemented_texts;
      closed = false;
    })
unfolding is_space zt_http.CText.str_case_eq zt_http.CText.str_eq zt_http.CText.to_lower
accept_unknown_example =
    accept_unknown kernel stack puts (codes "PUT") (codes "/hi HTTP/1.0") (codes "Host: a\r\n\r\n")
      refl (ground arith) (omega arith) (ground arith) (omega arith) (omega arith) refl refl

accept_request-Served_example :
    let (_, line, count) = get_line puts [] 1024 in
    Holds (Served puts (closes (parse_request line count))) (accept_request kernel stack puts)
accept_request-Served_example = accept_request-Served kernel stack puts
