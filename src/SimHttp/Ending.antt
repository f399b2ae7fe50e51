-- ===== src/SimHttp/Ending.antt =====
-- Whether the answering of a request ends.
use zt_http.Common.{
  ℕ, suc, not, ◌||◌, ℤ, negsuc, Option, none, some, ◌++◌, arith, Bytes, codes, length, set, ltb,
  undefined, Outcome, fault,
}
use zt_http.CText.{str_case_eq, fgets}
use zt_http.Http.{is_directory}
use zt_http.Request.{ends_with_slash, Request, make_path, in_path, parse_request}
use zt_http.SimHttp.{Connection, receive_line, get_line, rounds, store_text}
use zt_http.SimHttp.Accept.{
  Stack, send_file, serve_file, answer_path, answer, answer_request, accept_request, is_executable,
}
use zt_http.SimHttp.Cgi.{
  Kernel, in_env, child_environment, run_script, start_script, get_script, post_script, execute_cgi,
  is_unset, decimal,
}
use zt_http.SimHttp.Replies.{cat, headers}
use zt_http.SimHttp.Loops.{
  Ends, bind-Ends, if-Ends, discard-Ends, post_headers-Ends, line_within, still_left, next_left,
  cat_loop-Ends,
}

in_env-Ends : (text : Bytes) → Ends (in_env text)
unfolding in_env
in_env-Ends text = if-Ends (ltb (length text) 255) _ _ tt tt

query_env-Ends :
    (query : Option Bytes)
    → Ends (elim query as (λ x. Outcome Bytes) [
      | none ↦ fault undefined
      | some q ↦ in_env (codes "QUERY_STRING=" ++ q)
    ])
query_env-Ends none = tt
query_env-Ends (some q) = in_env-Ends (codes "QUERY_STRING=" ++ q)

child_environment-Ends :
    (method : Bytes) (query : Option Bytes) (n : ℤ) → Ends (child_environment method query n)
unfolding child_environment
child_environment-Ends method query n =
    bind-Ends _ _ (in_env-Ends (codes "REQUEST_METHOD=" ++ method)) λ env.
      bind-Ends _ _
        (if-Ends (str_case_eq method (codes "GET")) _ _ (query_env-Ends query)
          (in_env-Ends (codes "CONTENT_LENGTH=" ++ decimal n)))
        λ second. tt

start_script-Ends :
    (k : Kernel) (c : ℕ) (path method : Bytes) (query : Option Bytes) (n : ℤ) (s : Connection)
    → Ends (start_script k c path method query n s)
unfolding start_script run_script
start_script-Ends k c path method query n s = if-Ends (not k.pipe_output) _ _ tt (
    if-Ends (not k.pipe_input) _ _ tt (
      if-Ends (not k.forks) _ _ tt
        (bind-Ends _ _ (child_environment-Ends method query n) λ env. tt)))

get_script-Ends :
    (k : Kernel) (buf : Bytes) (c : ℕ) (path method : Bytes) (query : Option Bytes) (s : Connection)
    → Ends (get_script k buf c path method query s)
unfolding get_script
get_script-Ends k buf c path method query s =
    bind-Ends _ _ (discard-Ends s (buf, 1))
      λ r. start_script-Ends k c path method query (negsuc 0) r.0

post_script-Ends :
    (k : Kernel) (buf stack' : Bytes) (c : ℕ) (path method : Bytes) (query : Option Bytes)
    (s : Connection)
    → Ends (post_script k buf stack' c path method query s)
unfolding post_script get_line
post_script-Ends k buf stack' c path method query s =
    let (line, unread) = receive_line 1023 s.input in
    bind-Ends _ _
      (post_headers-Ends (rounds s) unread s.output s.closed (store_text line buf) (length line)
        (negsuc 0)
        (still_left (length s.input) (rounds s) (omega arith) (length unread)
          (line_within 1022 s.input)))
      λ r. if-Ends (is_unset r.1) _ _ tt (start_script-Ends k c path method query r.1 r.0)

execute_cgi-Ends :
    (k : Kernel) (stack stack' : Bytes) (c : ℕ) (path method : Bytes) (query : Option Bytes)
    (s : Connection)
    → Ends (execute_cgi k stack stack' c path method query s)
unfolding execute_cgi
execute_cgi-Ends k stack stack' c path method query s =
    let buf = set (set stack 0 b'A') 1 0 in
    if-Ends (str_case_eq method (codes "GET")) _ _ (get_script-Ends k buf c path method query s) (
      if-Ends (str_case_eq method (codes "POST")) _ _
        (post_script-Ends k buf stack' c path method query s)
        (start_script-Ends k c path method query (negsuc 0) s))

send_file-Ends : (file : Option Bytes) (s : Connection) → Ends (send_file file s)
unfolding send_file cat
send_file-Ends none s = tt
send_file-Ends (some file) s =
    cat_loop-Ends (suc (length file)) (fgets 1024 file).0 (fgets 1024 file).1 (headers s)
      (next_left (suc (length file)) file (omega arith))

serve_file-Ends :
    (k : Kernel) (stack filename : Bytes) (s : Connection) → Ends (serve_file k stack filename s)
unfolding serve_file
serve_file-Ends k stack filename s =
    bind-Ends _ _ (discard-Ends s (set (set stack 0 b'A') 1 0, 1))
      λ r. send_file-Ends (k.files.contents_of filename) r.0

in_path-Ends : (path : Bytes) → Ends (in_path path)
unfolding in_path
in_path-Ends path = if-Ends (ltb (length path) 512) _ _ tt tt

make_path-Ends : (url : Bytes) → Ends (make_path url)
unfolding make_path
make_path-Ends url =
    bind-Ends _ _ (in_path-Ends (codes "htdocs" ++ url))
      λ path. if-Ends (ends_with_slash path) _ _ (in_path-Ends (path ++ codes "index.html")) tt

answer-Ends :
    (k : Kernel) (stack : Stack) (r : Request) (line : Bytes × ℕ) (path : Bytes) (found : Option ℕ)
    (s : Connection)
    → Ends (answer k stack r line path found s)
unfolding answer answer_path
answer-Ends k stack r line path none s = bind-Ends _ _ (discard-Ends s line) λ r. tt
answer-Ends k stack r line path (some mode) s =
    bind-Ends _ _ (if-Ends (is_directory mode) _ _ (in_path-Ends (path ++ codes "/index.html")) tt)
      λ path'.
        if-Ends (not (r.cgi || is_executable mode)) _ _ (serve_file-Ends k stack.callee_buf path' s)
          (execute_cgi-Ends k stack.callee_buf stack.reply_buf stack.c path' r.method r.query_string
            s)

answer_request-Ends :
    (k : Kernel) (stack : Stack) (line : Bytes × ℕ) (request : Option Request) (s : Connection)
    → Ends (answer_request k stack line request s)
unfolding answer_request
answer_request-Ends k stack line none s = tt
answer_request-Ends k stack line (some r) s =
    bind-Ends _ _ (make_path-Ends r.url)
      λ path. bind-Ends _ _ (answer-Ends k stack r line path (k.files.stat path) s) λ s'. tt

-- Whatever a client sends before it shuts down its side, where no read of a file fails and the script
-- comes to its end: the rounds allowed to each loop of `accept_request` are enough.
pub accept_request-Ends :
    (k : Kernel) (stack : Stack) (s : Connection) → Ends (accept_request k stack s)
unfolding accept_request
accept_request-Ends k stack s =
    let (s', buf, numchars) = get_line s stack.buf 1024 in
    answer_request-Ends k stack (buf, numchars) (parse_request buf numchars) s'
