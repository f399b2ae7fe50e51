-- ===== src/Http.antt =====
-- class `Http` of ztHttp/ztHttp/tcp.h and ztHttp/ztHttp/tcp.cpp: the request that was read, and
-- the answer that goes into a socket's send buffer. A buffer argument is an `IOBuffer`; the branch
-- for another class prints a line and does nothing else.
pub mod Answer
pub mod Cat
pub mod Serve
use zt_http.Common.{
  ℕ, zero, suc, ◌+◌, ◌-◌, ◌/◌, ◌<◌, Bool, not, ◌&&◌, bit_and, ℤ, pos, negsuc, Option, none, some,
  [], ◌∷◌, ◌++◌, Bytes, codes, length, set, take, ltb, ◌==◌, if◌then◌else◌, undefined, endless,
  Outcome, ok, fault, ◌>>=◌,
}
use zt_http.CText.{c_str, str_eq, str_case_eq, fgets, File}
use zt_http.Buffer.{IoBuffer, append_data, pull_down, consume}
use zt_http.Request.{Request, parse_request, make_path, in_path}

pub record Http : Type 0 where
  pub in_buffer : Bytes

-- The file system: `stat` gives the mode bits, `fopen` and reading to the end give the bytes. No read of
-- a file that can be opened fails.
pub record FileSystem : Type 0 where
  pub stat : Bytes → Option ℕ
  pub contents_of : Bytes → Option Bytes

-- `append(msg, strlen(msg))`.
abbrev append_text : IoBuffer → Bytes → Outcome IoBuffer
append_text b msg = append_data b 1 msg (length msg)

-- `vector<char> tmp(sta, sta + size)`; a null pointer with size 0 is an empty range.
copy_out : Option Bytes → ℕ → Outcome Bytes
copy_out none size = if size == 0 then ok [] else fault undefined
copy_out (some c) size = if ltb (length c) size then fault undefined else ok (take size c)

-- `Http::read`: the buffer's bytes become the request; the result is their number.
unfoldable pub read : Http → IoBuffer → Outcome (Http × IoBuffer × ℕ)
unfolding copy_out
read h buf = do
  (buf', sta) ← pull_down buf buf.size
  tmp ← copy_out sta buf'.size
  (buf'', _) ← consume buf' buf'.size
  ok (record { in_buffer = tmp }, buf'', length tmp)

-- The loop of `Http::get_line`, over the bytes from `iter` on. It moves `iter` and not `i`.
pub get_line_loop : Bytes → Bytes → ℕ → ℕ → Bytes
get_line_loop [] buf i size = buf
get_line_loop (c ∷ cs) buf i size =
    if ltb i size && not (c == b'\n') then get_line_loop cs (set buf i c) i size else buf

-- `Http::get_line`: the array afterwards and the result. No byte of `_in_buffer` is taken away.
unfoldable pub get_line : Http → Bytes → ℕ → Bytes × ℕ
unfolding get_line_loop
get_line h buf size =
    let i : ℕ = 0 in
    let buf' = get_line_loop h.in_buffer buf i size in (set buf' (i + 1) 0, i + 1 - 1)

abbrev pub unimplemented_text : Bytes
unimplemented_text =
    codes "HTTP/1.0 200 OK\r\nServer: jdbhttpd/0.1.0\r\nContent-Type:         text/html\r\n\r\n"
    ++ codes "<HTML><HEAD><TITLE>Method Not Implemented\r\n</TITLE></HEAD>\r\n<BODY>"
    ++ codes "         <P>HTTP request method not supported.\r\n</BODY></HTML>\r\n"

-- `Http::unimplemented`.
unfoldable pub unimplemented : IoBuffer → Outcome IoBuffer
unimplemented b = append_text b unimplemented_text

abbrev pub not_found_text : Bytes
not_found_text =
    codes "HTTP/1.0 200 OK\r\nServer: jdbhttpd/0.1.0\r\nContent-Type: text/html\r\n        \r\n"
    ++ codes "<HTML><TITLE>Not Found</TITLE>\r\n<BODY><P>The server could not fulfill\r\n        "
    ++ codes "your request because the resource specified\r\nis unavailable or nonexistent.\r\n"
    ++ codes "</BODY></HTML>\r\n"

-- `Http::not_found`.
unfoldable pub not_found : IoBuffer → Outcome IoBuffer
not_found b = append_text b not_found_text

abbrev pub headers_text : Bytes
headers_text = codes "HTTP/1.0 200 OK\r\nServer: jdbhttpd/0.1.0\r\nContent-Type: text/html\r\n\r\n"

-- `Http::headers`.
unfoldable pub headers : IoBuffer → Outcome IoBuffer
headers b = append_text b headers_text

-- The loop of `Http::cat`: `line` was read last. The second `fgets` is given the size of a pointer.
unfoldable pub cat_loop : ℕ → Bytes × File → IoBuffer → Outcome IoBuffer
cat_loop zero (line, f) b = fault endless
cat_loop (suc fuel) (line, f) b =
    let more = append_text b (c_str line) >>= cat_loop fuel (fgets 8 f.rest) in
    if f.at_eof then ok b else more

-- `Http::cat`, on a file of these bytes. Each round reads one byte at least.
unfoldable pub cat : Bytes → IoBuffer → Outcome IoBuffer
cat file b = cat_loop (suc (length file)) (fgets 1024 file) b

-- `while ((numchars > 0) && strcmp("\n", buf)) numchars = get_line(buf, sizeof(buf))`.
pub discard : ℕ → Http → Bytes × ℕ → Outcome (Bytes × ℕ)
discard zero h (buf, numchars) = fault endless
discard (suc fuel) h (buf, numchars) =
    let more = discard fuel h (get_line h buf 1024) in
    if ltb 0 numchars && not (str_eq (codes "\n") (c_str buf)) then more else ok (buf, numchars)

-- `fclose(resource)` closes a file that was opened; a null pointer is undefined.
send_file : Option Bytes → IoBuffer → Outcome IoBuffer
send_file none b = do b' ← not_found b; fault undefined
send_file (some file) b = do b' ← headers b; cat file b'

-- `Http::serve_file`; `stack` is what its uninitialised `buf` holds.
unfoldable pub serve_file : Http → FileSystem → Bytes → Bytes → IoBuffer → Outcome IoBuffer
unfolding send_file
serve_file h fs stack filename b = do
  _ ← discard 2 h (set (set stack 0 b'A') 1 0, 1)
  send_file (fs.contents_of filename) b

abbrev pub is_directory : ℕ → Bool
is_directory mode = bit_and mode 0o170000 == 0o040000

-- The answer to a request whose path exists, with mode bits `mode`. The branches on `cgi` agree.
answer_path : Http → FileSystem → Bytes → Bytes → ℕ → IoBuffer → Outcome IoBuffer
answer_path h fs stack path mode b = do
  path' ← if is_directory mode then in_path (path ++ codes "/index.html") else ok path
  serve_file h fs stack path' b

answer : Http → FileSystem → Bytes → Bytes × ℕ → Bytes → Option ℕ → IoBuffer → Outcome IoBuffer
answer h fs stack line path none b = do _ ← discard 2 h line; not_found b
answer h fs stack line path (some mode) b = answer_path h fs stack path mode b

answer_request :
    Http → FileSystem → Bytes → Bytes × ℕ → Option Request → IoBuffer → Outcome (IoBuffer × ℤ)
answer_request h fs stack line none b = do b' ← unimplemented b; ok (b', negsuc 0)
answer_request h fs stack line (some r) b = do
  path ← make_path r.url
  b' ← answer h fs stack line path (fs.stat path) b
  ok (b', pos 1)

-- `Http::write`: the answer is appended to the buffer. `stack` is what the uninitialised `buf` of
-- `write` holds, `stack'` that of `serve_file`.
unfoldable pub write : Http → FileSystem → Bytes → Bytes → IoBuffer → Outcome (IoBuffer × ℤ)
unfolding answer_request answer answer_path in_path
write h fs stack stack' b =
    let (buf, numchars) = get_line h stack 1024 in
    answer_request h fs stack' (buf, numchars) (parse_request buf numchars) b
