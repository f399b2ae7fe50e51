-- ===== src/SimHttp.antt =====
-- ztHttp/ztHttp/simHttp.cpp: the server with a thread for each connection. Here the socket, and the
-- reading of lines from it; `buf` is the array of 1024 bytes that the callers share.
pub mod Replies
pub mod Lines
pub mod Discard
pub mod Sends
pub mod Shown
pub mod RequestLine
pub mod Requests
pub mod Scripts
pub mod Respond
pub mod Outputs
pub mod Gets
pub mod Feeds
pub mod Forms
pub mod Cases
pub mod Site
pub mod Unknown
pub mod Bodies
pub mod Numbers
pub mod Lengths
pub mod Posts
pub mod Threads
pub mod Loops
pub mod Ending
pub mod Onwards
pub mod Effects
pub mod Cgi
pub mod Accept
use zt_http.Common.{
  ℕ, zero, suc, ◌+◌, ◌-◌, Bool, not, ◌&&◌, List, [], ◌∷◌, ◌++◌, Bytes, codes, length, drop, ltb,
  ◌==◌, if◌then◌else◌, endless, Outcome, ok, fault,
}
use zt_http.CText.{str_eq, c_str}

-- A connected socket: the bytes that the peer sends before it shuts down its side, the bytes given
-- to `send`, and whether `close` was called.
pub record Connection : Type 0 where
  pub input : Bytes
  pub output : Bytes
  pub closed : Bool

-- `send(client, buf, len, 0)`.
abbrev pub send : Connection → Bytes → Connection
send s bytes = record s { output = s.output ++ bytes }

-- What is sent piece by piece.
abbrev pub send_each : Connection → List Bytes → Connection
send_each s [] = s
send_each s (text ∷ texts) = send_each (send s text) texts

-- `sprintf(buf, text)`: the text and a NUL, at the start of the array.
abbrev pub store_text : Bytes → Bytes → Bytes
store_text text buf = text ++ 0 ∷ drop (length text + 1) buf

-- The byte to store and what is unread behind it, where `c` was received: CR LF and CR are LF.
unfoldable pub newline_of : ℕ → Bytes → ℕ × Bytes
newline_of c [] = if c == b'\r' then (b'\n', []) else (c, [])
newline_of c (d ∷ cs) =
    if c == b'\r' then (if d == b'\n' then (d, cs) else (b'\n', d ∷ cs)) else (c, d ∷ cs)

-- The loop of `get_line`, with `room` for the rounds that `i < size - 1` leaves: what it stores and
-- what is unread. At the end of the input `recv` returns 0, and `c` becomes a newline.
unfoldable pub receive_line : ℕ → Bytes → Bytes × Bytes
unfolding newline_of
receive_line zero cs = ([], cs)
receive_line (suc room) [] = ([], [])
receive_line (suc room) (c ∷ cs) =
    let (d, unread) = newline_of c cs in
    let (line, left) = receive_line room unread in
    if d == b'\n' then (d ∷ [], unread) else (d ∷ line, left)

-- `get_line`: the socket and the array afterwards, and the result.
unfoldable pub get_line : Connection → Bytes → ℕ → Connection × Bytes × ℕ
unfolding receive_line
get_line s buf size =
    let (line, unread) = receive_line (size - 1) s.input in
    (record s { input = unread }, store_text line buf, length line)

-- `while ((numchars > 0) && strcmp("\n", buf)) numchars = get_line(client, buf, sizeof(buf))`.
unfoldable pub discard : ℕ → Connection → Bytes × ℕ → Outcome (Connection × Bytes × ℕ)
unfolding get_line
discard zero s (buf, numchars) = fault endless
discard (suc fuel) s (buf, numchars) =
    let (s', line, count) = get_line s buf 1024 in
    let more = discard fuel s' (line, count) in
    if ltb 0 numchars && not (str_eq (codes "\n") (c_str buf)) then more else ok (s, buf, numchars)

-- Rounds enough for `discard`: each but the last receives a byte.
abbrev pub rounds : Connection → ℕ
rounds s = suc (suc (length s.input))
