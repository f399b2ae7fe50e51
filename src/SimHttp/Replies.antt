-- ===== src/SimHttp/Replies.antt =====
-- The replies of ztHttp/ztHttp/simHttp.cpp that do not depend on the request, and the sending of a
-- file.
use zt_http.Common.{
  ℕ, zero, suc, List, [], ◌∷◌, Bytes, codes, length, if◌then◌else◌, endless, Outcome, ok, fault,
}
use zt_http.CText.{c_str, fgets, File}
use zt_http.SimHttp.{Connection, send, send_each, store_text}

abbrev server_string : Bytes
server_string = codes "Server: jdbhttpd/0.1.0\r\n"

abbrev content_type : Bytes
content_type = codes "Content-Type: text/html\r\n"

abbrev pub headers_texts : List Bytes
headers_texts = codes "HTTP/1.0 200 OK\r\n" ∷ server_string ∷ content_type ∷ codes "\r\n" ∷ []

-- `headers`.
unfoldable pub headers : Connection → Connection
headers s = send_each s headers_texts

abbrev pub not_found_texts : List Bytes
not_found_texts =
    codes "HTTP/1.0 404 NOT FOUND\r\n"
    ∷ server_string
    ∷ content_type
    ∷ codes "\r\n"
    ∷ codes "<HTML><TITLE>Not Found</TITLE>\r\n"
    ∷ codes "<BODY><P>The server could not fulfill\r\n"
    ∷ codes "your request because the resource specified\r\n"
    ∷ codes "is unavailable or nonexistent.\r\n"
    ∷ codes "</BODY></HTML>\r\n"
    ∷ []

-- `not_found`.
unfoldable pub not_found : Connection → Connection
not_found s = send_each s not_found_texts

abbrev pub unimplemented_texts : List Bytes
unimplemented_texts =
    codes "HTTP/1.0 501 Method Not Implemented\r\n"
    ∷ server_string
    ∷ content_type
    ∷ codes "\r\n"
    ∷ codes "<HTML><HEAD><TITLE>Method Not Implemented\r\n"
    ∷ codes "</TITLE></HEAD>\r\n"
    ∷ codes "<BODY><P>HTTP request method not supported.\r\n"
    ∷ codes "</BODY></HTML>\r\n"
    ∷ []

-- `unimplemented`.
unfoldable pub unimplemented : Connection → Connection
unimplemented s = send_each s unimplemented_texts

abbrev pub cannot_execute_texts : List Bytes
cannot_execute_texts =
    codes "HTTP/1.0 500 Internal Server Error\r\n"
    ∷ codes "Content-type: text/html\r\n"
    ∷ codes "\r\n"
    ∷ codes "<P>Error prohibited CGI execution.\r\n"
    ∷ []

-- `cannot_execute`.
unfoldable pub cannot_execute : Connection → Connection
cannot_execute s = send_each s cannot_execute_texts

-- `sprintf(buf, text); send(client, buf, sizeof(buf), 0)`, again and again: all of the array goes.
unfoldable pub send_arrays : Connection → Bytes → List Bytes → Connection
send_arrays s buf [] = s
send_arrays s buf (text ∷ texts) =
    let buf' = store_text text buf in send_arrays (send s buf') buf' texts

abbrev pub bad_request_texts : List Bytes
bad_request_texts =
    codes "HTTP/1.0 400 BAD REQUEST\r\n"
    ∷ codes "Content-type: text/html\r\n"
    ∷ codes "\r\n"
    ∷ codes "<P>Your browser sent a bad request, "
    ∷ codes "such as a POST without a Content-Length.\r\n"
    ∷ []

-- `bad_request`; `stack` is what its uninitialised `buf` holds.
unfoldable pub bad_request : Bytes → Connection → Connection
unfolding send_arrays
bad_request stack s = send_arrays s stack bad_request_texts

-- The loop of `cat`: `line` was read last.
unfoldable pub cat_loop : ℕ → Bytes × File → Connection → Outcome Connection
cat_loop zero (line, f) s = fault endless
cat_loop (suc fuel) (line, f) s =
    let more = cat_loop fuel (fgets 1024 f.rest) (send s (c_str line)) in
    if f.at_eof then ok s else more

-- `cat`, on a file of these bytes. Each round reads one byte at least.
unfoldable pub cat : Bytes → Connection → Outcome Connection
unfolding cat_loop
cat file s = cat_loop (suc (length file)) (fgets 1024 file) s
