-- ===== src/SimHttp/Effects.antt =====
-- What the answering of any request does to its socket.
use zt_http.Common.{
  ℕ, zero, suc, ◌≡◌, refl, Bool, true, false, not, ◌&&◌, ◌||◌, ℤ, negsuc, Option, none, some, [],
  ◌++◌, Bytes, codes, length, set, drop, ltb, if◌then◌else◌, if_cases, ok, ◌>>=◌, Holds, bind-Holds,
  bind-Holds_of,
}
use zt_http.CText.{str_eq, c_str, str_case_eq, fgets}
use zt_http.Http.{is_directory}
use zt_http.Request.{Request, make_path, in_path, parse_request}
use zt_http.SimHttp.{Connection, send, get_line, discard, rounds}
use zt_http.SimHttp.Accept.{
  Stack, send_file, serve_file, answer_path, answer, answer_request, accept_request, is_executable,
}
use zt_http.SimHttp.Cgi.{
  Kernel, atoi, post_headers, child_environment, run_script, start_script, get_script, post_script,
  execute_cgi, is_unset, feed, times, status_text,
}
use zt_http.SimHttp.Onwards.{
  Onwards, no_step, Suffix, sending, receiving, sending_each, sending_arrays, feed_suffix,
  get_line-Onwards, discard-Onwards, cat_loop-Onwards,
}
use zt_http.SimHttp.Replies.{
  cat, headers, headers_texts, not_found, not_found_texts, unimplemented, unimplemented_texts,
  cannot_execute, cannot_execute_texts, bad_request, bad_request_texts,
}

post_headers-Onwards :
    (fuel : ℕ) (s0 s : Connection) (buf : Bytes) (count : ℕ) (n : ℤ)
    → Onwards s0 s
    → Holds (λ r. Onwards s0 r.0) (post_headers fuel s (buf, count) n)
unfolding post_headers
post_headers-Onwards zero s0 s buf count n o = tt
post_headers-Onwards (suc fuel) s0 s buf count n o =
    let cut = set buf 15 0 in
    let (s', line, count') = get_line s cut 1024 in
    let length' =
      if str_case_eq (c_str cut) (codes "Content-Length:")
      then atoi (c_str (drop 16 cut))
      else ok n in
    if_cases (Holds (λ r. Onwards s0 r.0)) (ltb 0 count && not (str_eq (codes "\n") (c_str buf)))
      (length' >>= λ m. post_headers fuel s' (line, count') m) (ok (s, n))
      (bind-Holds (λ r. Onwards s0 r.0) length' _
        λ m. post_headers-Onwards fuel s0 s' line count' m (get_line-Onwards s0 s cut 1024 o))
      o

module _ (k : Kernel) (s0 : Connection) where
  run_script-Onwards :
      (c : ℕ) (path method : Bytes) (query : Option Bytes) (n : ℤ) (s : Connection)
      → Onwards s0 s
      → Holds (Onwards s0) (run_script k c path method query n s)
  unfolding run_script
  run_script-Onwards c path method query n s o =
      let parent = send (send s status_text) status_text in
      let o' = sending s0 (send s status_text) (sending s0 s o status_text) status_text in
      let fed : Bytes × Bytes =
        if str_case_eq method (codes "POST")
        then feed (times n) c parent.input
        else ([], parent.input) in
      let (bytes, e) =
        if_cases (Suffix parent.input) (str_case_eq method (codes "POST"))
          (feed (times n) c parent.input) ([], parent.input) (feed_suffix (times n) c parent.input)
          ([], refl) in
      bind-Holds (Onwards s0) (child_environment method query n) _ λ env.
        sending s0 (record parent { input = fed.1 }) (receiving s0 parent o' bytes fed.1 e)
          (k.run path env fed.0)

  start_script-Onwards :
      (c : ℕ) (path method : Bytes) (query : Option Bytes) (n : ℤ) (s : Connection)
      → Onwards s0 s
      → Holds (Onwards s0) (start_script k c path method query n s)
  unfolding start_script cannot_execute
  start_script-Onwards c path method query n s o =
      let refused : Onwards s0 (cannot_execute s) = sending_each cannot_execute_texts s0 s o in
      if_cases (Holds (Onwards s0)) (not k.pipe_output) _ _ refused (
        if_cases (Holds (Onwards s0)) (not k.pipe_input) _ _ refused (
          if_cases (Holds (Onwards s0)) (not k.forks) _ _ refused
            (run_script-Onwards c path method query n s o)))

  execute_cgi-Onwards :
      (stack stack' : Bytes) (c : ℕ) (path method : Bytes) (query : Option Bytes) (s : Connection)
      → Onwards s0 s
      → Holds (Onwards s0) (execute_cgi k stack stack' c path method query s)
  unfolding execute_cgi get_script post_script bad_request
  execute_cgi-Onwards stack stack' c path method query s o =
      let buf = set (set stack 0 b'A') 1 0 in
      let (s', line, count) = get_line s buf 1024 in
      if_cases (Holds (Onwards s0)) (str_case_eq method (codes "GET")) _ _
        (bind-Holds_of (λ r. Onwards s0 r.0) (Onwards s0) (discard (rounds s) s (buf, 1)) _
          (discard-Onwards (rounds s) s0 s (buf, 1) o)
          λ r o'. start_script-Onwards c path method query (negsuc 0) r.0 o')
        (if_cases (Holds (Onwards s0)) (str_case_eq method (codes "POST")) _ _
          (bind-Holds_of (λ r. Onwards s0 r.0) (Onwards s0)
            (post_headers (rounds s) s' (line, count) (negsuc 0)) _
            (post_headers-Onwards (rounds s) s0 s' line count (negsuc 0)
              (get_line-Onwards s0 s buf 1024 o))
            λ r o'.
              if_cases (Holds (Onwards s0)) (is_unset r.1) _ _
                (sending_arrays bad_request_texts stack' s0 r.0 o')
                (start_script-Onwards c path method query r.1 r.0 o'))
          (start_script-Onwards c path method query (negsuc 0) s o))

  send_file-Onwards :
      (file : Option Bytes) (s : Connection) → Onwards s0 s → Holds (Onwards s0) (send_file file s)
  unfolding send_file cat headers
  send_file-Onwards none s o = tt
  send_file-Onwards (some file) s o =
      cat_loop-Onwards (suc (length file)) (fgets 1024 file).0 (fgets 1024 file).1 s0 (headers s)
        (sending_each headers_texts s0 s o)

  serve_file-Onwards :
      (stack filename : Bytes) (s : Connection)
      → Onwards s0 s
      → Holds (Onwards s0) (serve_file k stack filename s)
  unfolding serve_file
  serve_file-Onwards stack filename s o =
      let line : Bytes × ℕ = (set (set stack 0 b'A') 1 0, 1) in
      bind-Holds_of (λ r. Onwards s0 r.0) (Onwards s0) (discard (rounds s) s line) _
        (discard-Onwards (rounds s) s0 s line o)
        λ r o'. send_file-Onwards (k.files.contents_of filename) r.0 o'

  answer-Onwards :
      (stack : Stack) (r : Request) (line : Bytes × ℕ) (path : Bytes) (found : Option ℕ)
      (s : Connection)
      → Onwards s0 s
      → Holds (Onwards s0) (answer k stack r line path found s)
  unfolding answer answer_path not_found
  answer-Onwards stack r line path none s o =
      bind-Holds_of (λ x. Onwards s0 x.0) (Onwards s0) (discard (rounds s) s line) _
        (discard-Onwards (rounds s) s0 s line o) λ x o'. sending_each not_found_texts s0 x.0 o'
  answer-Onwards stack r line path (some mode) s o =
      bind-Holds (Onwards s0)
        (if is_directory mode then in_path (path ++ codes "/index.html") else ok path) _
        λ path'.
          if_cases (Holds (Onwards s0)) (not (r.cgi || is_executable mode)) _ _
            (serve_file-Onwards stack.callee_buf path' s o)
            (execute_cgi-Onwards stack.callee_buf stack.reply_buf stack.c path' r.method
              r.query_string s o)

-- Whether the socket is closed in the end.
abbrev pub closes : Option Request → Bool
closes none = false
closes (some r) = true

-- What a request comes to for its socket: bytes are sent behind those sent before, some of the bytes
-- to receive were received, from their front, and the socket is closed, or as before.
pub record Served (s : Connection) (closing : Bool) (c : Connection) : Type 0 where
  pub sent : Bytes
  pub output : c.output ≡ s.output ++ sent
  pub received : Bytes
  pub input : s.input ≡ received ++ c.input
  pub closed : c.closed ≡ (closing || s.closed)

answer_request-Served :
    (k : Kernel) (stack : Stack) (line : Bytes × ℕ) (r : Option Request) (s s' : Connection)
    → Onwards s s'
    → Holds (Served s (closes r)) (answer_request k stack line r s')
unfolding answer_request unimplemented
answer_request-Served k stack line none s s' o =
    let done = sending_each unimplemented_texts s s' o in
    record {
      sent = done.sent;
      output = done.output;
      received = done.received;
      input = done.input;
      closed = done.closed;
    }
answer_request-Served k stack line (some r) s s' o =
    bind-Holds (Served s true) (make_path r.url) _ λ path.
      bind-Holds_of (Onwards s) (Served s true) (answer k stack r line path (k.files.stat path) s')
        _ (answer-Onwards k s stack r line path (k.files.stat path) s' o)
        λ c done. record {
          sent = done.sent;
          output = done.output;
          received = done.received;
          input = done.input;
          closed = refl;
        }

-- Any request at all, and whatever the files, the kernel and the uninitialised memory hold: where
-- `accept_request` returns, it has taken nothing back that was sent and has received the input in its
-- order; it has closed the socket if the request line gave a request, a GET or a POST, and only then.
pub accept_request-Served :
    (k : Kernel) (stack : Stack) (s : Connection)
    → let (_, line, count) = get_line s stack.buf 1024 in
      Holds (Served s (closes (parse_request line count))) (accept_request k stack s)
unfolding accept_request
accept_request-Served k stack s =
    let (s', line, count) = get_line s stack.buf 1024 in
    answer_request-Served k stack (line, count) (parse_request line count) s s'
      (get_line-Onwards s s stack.buf 1024 (no_step s))
