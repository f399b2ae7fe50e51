-- ===== src/SimHttp/Accept.antt =====
-- `serve_file` and `accept_request` of ztHttp/ztHttp/simHttp.cpp.
use zt_http.Common.{
  ℕ, Bool, true, not, ◌||◌, bit_and, Option, none, some, ◌++◌, Bytes, codes, set, ◌==◌,
  if◌then◌else◌, undefined, Outcome, ok, fault, ◌>>=◌,
}
use zt_http.Http.{is_directory}
use zt_http.Request.{Request, parse_request, make_path, in_path}
use zt_http.SimHttp.{Connection, get_line, discard, rounds}
use zt_http.SimHttp.Replies.{not_found, headers, cat, unimplemented}
use zt_http.SimHttp.Cgi.{Kernel, execute_cgi}

-- What the uninitialised locals of one request hold: `buf` of `accept_request`, of `serve_file` or
-- `execute_cgi`, of `bad_request`; and `c` of `execute_cgi`.
pub record Stack : Type 0 where
  pub buf : Bytes
  pub callee_buf : Bytes
  pub reply_buf : Bytes
  pub c : ℕ

-- `fclose(resource)` of a null pointer is undefined.
unfoldable pub send_file : Option Bytes → Connection → Outcome Connection
send_file none s = let answered = not_found s in fault undefined
send_file (some file) s = cat file (headers s)

-- `serve_file`.
unfoldable pub serve_file : Kernel → Bytes → Bytes → Connection → Outcome Connection
unfolding send_file
serve_file k stack filename s = do
  (s', _, _) ← discard (rounds s) s (set (set stack 0 b'A') 1 0, 1)
  send_file (k.files.contents_of filename) s'

-- `st.st_mode & S_IXUSR`, `S_IXGRP` or `S_IXOTH`.
abbrev pub is_executable : ℕ → Bool
is_executable mode =
    not (bit_and mode 0o100 == 0) || not (bit_and mode 0o010 == 0) || not (bit_and mode 0o001 == 0)

-- The answer to a request whose path exists, with mode bits `mode`.
unfoldable pub answer_path : Kernel → Stack → Request → Bytes → ℕ → Connection → Outcome Connection
unfolding in_path
answer_path k stack r path mode s = do
  path' ← if is_directory mode then in_path (path ++ codes "/index.html") else ok path
  if not (r.cgi || is_executable mode)
      then serve_file k stack.callee_buf path' s
      else execute_cgi k stack.callee_buf stack.reply_buf stack.c path' r.method r.query_string s

unfoldable pub answer :
    Kernel → Stack → Request → Bytes × ℕ → Bytes → Option ℕ → Connection → Outcome Connection
unfolding answer_path
answer k stack r line path none s = do (s', _, _) ← discard (rounds s) s line; ok (not_found s')
answer k stack r line path (some mode) s = answer_path k stack r path mode s

-- What follows the request line: the socket is closed unless the method is unknown.
unfoldable pub answer_request :
    Kernel → Stack → Bytes × ℕ → Option Request → Connection → Outcome Connection
unfolding answer
answer_request k stack line none s = ok (unimplemented s)
answer_request k stack line (some r) s = do
  path ← make_path r.url
  s' ← answer k stack r line path (k.files.stat path) s
  ok (record s' { closed = true })

-- `accept_request`.
unfoldable pub accept_request : Kernel → Stack → Connection → Outcome Connection
unfolding answer_request
accept_request k stack s =
    let (s', buf, numchars) = get_line s stack.buf 1024 in
    answer_request k stack (buf, numchars) (parse_request buf numchars) s'
