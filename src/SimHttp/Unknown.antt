-- ===== src/SimHttp/Unknown.antt =====
-- Requests with a method that is not served.
use zt_http.Common.{
  ◌+◌, ◌≤◌, ◌<◌, ◌≡◌, ap, ◌∙◌, false, [], ◌∷◌, ◌++◌, append_assoc, arith, Bytes, codes, length,
  drop, ok,
}
use zt_http.CText.{str_case_eq}
use zt_http.CText.Lines.{NoNul}
use zt_http.Buffer.Stream.{joined}
use zt_http.Request.Parse.{NoSpace, parse_unknown}
use zt_http.SimHttp.{Connection}
use zt_http.SimHttp.Replies.{unimplemented, unimplemented_texts}
use zt_http.SimHttp.Discard.{NoBreak, get_line_crlf}
use zt_http.SimHttp.RequestLine.{NoBreak-append, NoSpace-NoBreak}
use zt_http.SimHttp.Sends.{send_each_lem}
use zt_http.SimHttp.Cgi.{Kernel}
use zt_http.SimHttp.Accept.{Stack, answer_request, accept_request}

unimplemented_lem :
    (s : Connection)
    → unimplemented s ≡ record s { output = s.output ++ joined unimplemented_texts }
unfolding unimplemented
unimplemented_lem s = send_each_lem s unimplemented_texts

stored_line :
    (word line junk : Bytes)
    → ((word ++ b' ' ∷ line) ++ b'\n' ∷ []) ++ junk ≡ word ++ b' ' ∷ (line ++ b'\n' ∷ junk)
stored_line word line junk =
    append_assoc (word ++ b' ' ∷ line) (b'\n' ∷ []) junk
    ∙ append_assoc word (b' ' ∷ line) (b'\n' ∷ junk)

-- A request line whose first word is neither GET nor POST, in any case of the letters, is answered
-- by 501. The line is all that is read of the request, and the socket is not closed.
pub accept_unknown :
    (k : Kernel) (stack : Stack) (s : Connection) (word line rest : Bytes)
    → s.input ≡ (word ++ b' ' ∷ line) ++ b'\r' ∷ b'\n' ∷ rest
    → NoSpace word
    → NoNul word
    → NoBreak line
    → length word ≤ 254
    → length (word ++ b' ' ∷ line) < 1023
    → str_case_eq word (codes "GET") ≡ false
    → str_case_eq word (codes "POST") ≡ false
    → accept_request k stack s
      ≡ ok (record s { input = rest; output = s.output ++ joined unimplemented_texts })
unfolding accept_request answer_request
accept_unknown k stack s word line rest held plain nul unbroken short fits no_get no_post =
    let text : Bytes = word ++ b' ' ∷ line in
    let whole : NoBreak text =
      NoBreak-append word (b' ' ∷ line) (NoSpace-NoBreak word plain)
        ((ground arith), (ground arith), unbroken) in
    let junk : Bytes = 0 ∷ drop (length (text ++ b'\n' ∷ []) + 1) stack.buf in
    rw (get_line_crlf s stack.buf text rest held whole fits) (
      rw (stored_line word line junk) (
        rw
          (parse_unknown word (line ++ b'\n' ∷ junk) (length (text ++ b'\n' ∷ [])) plain nul short
            no_get no_post)
          (ap ok (unimplemented_lem (record s { input = rest })))))
