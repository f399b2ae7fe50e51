-- ===== src/SimHttp/Gets.antt =====
-- Every well-formed GET of simHttp.cpp, against what its client ought to be sent.
use zt_http.Common.{
  ℕ, ◌+◌, ◌≤◌, ◌<◌, ◌≡◌, refl, sym, inl, inr, true, Option, none, some, List, ◌∷◌, ◌++◌, arith,
  Bytes, codes, length, length-append, Bool-cases, Outcome, ok, fault, ◌>>=◌,
}
use zt_http.CText.Lines.{NoNul}
use zt_http.Request.{parse_request, make_path, ends_with_slash}
use zt_http.Request.Parse.{NoSpace, NoQuery, parse_get, parse_get_query}
use zt_http.Request.Paths.{in_path_lem}
use zt_http.SimHttp.{Connection, rounds, store_text}
use zt_http.SimHttp.Discard.{AreHeaders, block, discard-block}
use zt_http.CText.{is_space}
use zt_http.SimHttp.RequestLine.{
  whole_line, stored_line, length-whole_line, request_line, blank_line_behind,
}
use zt_http.SimHttp.Requests.{rounds_enough, not_found_lem}
use zt_http.SimHttp.Cgi.{Kernel}
use zt_http.SimHttp.Accept.{Stack, answer, answer_request, accept_request}
use zt_http.SimHttp.Respond.{word_of, path_of, path_output, respond, IsGet}
use zt_http.SimHttp.Outputs.{got, sent, answer-path_output}

got_url : (url : Bytes) (query : Option Bytes) → (got url query).url ≡ url
unfolding got
got_url url none = refl
got_url url (some query) = refl

parse_word :
    (url : Bytes) (query : Option Bytes) (rest : Bytes) (n : ℕ)
    → NoSpace (word_of url query)
    → NoNul (word_of url query)
    → NoQuery url
    → 0 < length (word_of url query)
    → length (word_of url query) ≤ 254
    → 4 + length (word_of url query) ≤ n
    → parse_request (codes "GET " ++ word_of url query ++ b' ' ∷ rest) n ≡ some (got url query)
unfolding got
parse_word url none rest n plain nul unasked some_word short in_line =
    parse_get url rest n plain nul unasked some_word short in_line
parse_word url (some query) rest n plain nul unasked some_word short in_line =
    parse_get_query url query rest n plain nul unasked short in_line

pub make_path_of : (url : Bytes) → length url ≤ 254 → make_path url ≡ ok (path_of url)
unfolding make_path
make_path_of url h =
    let path = codes "htdocs" ++ url in
    let size : length path ≡ 6 + length url = length-append (codes "htdocs") url in
    let longer : length (path ++ codes "index.html") ≡ length path + 10 =
      length-append path (codes "index.html") in
    elim (Bool-cases (ends_with_slash path)) [
      | inl slash ↦ rw (in_path_lem path (omega arith)) (rw slash (in_path_lem _ (omega arith)))
      | inr plain ↦ rw (in_path_lem path (omega arith)) (rw plain refl)
    ]

pub path_of-length : (url : Bytes) → length url ≤ 254 → length (path_of url) ≤ 270
path_of-length url h = ground (
  arith,
  length-append (codes "htdocs") url,
  length-append (codes "htdocs" ++ url) (codes "index.html"),
)

url-length : (url : Bytes) (query : Option Bytes) → length url ≤ length (word_of url query)
url-length url none = omega arith
url-length url (some query) = omega (arith, length-append url (b'?' ∷ query))

method_plain : NoSpace (codes "GET")
unfolding is_space
method_plain = ground arith

-- What the request line leaves is answered as `path_output` says.
answer-output :
    (k : Kernel) (stack : Stack) (s : Connection) (url path : Bytes) (query : Option Bytes)
    (texts : List Bytes) (version body buf : Bytes) (mode : Option ℕ)
    → AreHeaders texts
    → s.input ≡ block texts ++ body
    → length path ≤ 270
    → answer k stack
        (got url query)
        (
          store_text (whole_line (codes "GET") (word_of url query) version) buf,
          length (whole_line (codes "GET") (word_of url query) version),
        )
        path
        mode
        s
      ≡ sent s body (path_output k path query mode)
unfolding answer
answer-output k stack s url path query texts version body buf none h held short =
    let word = word_of url query in
    let line = whole_line (codes "GET") word version in
    let (buf', run) =
      discard-block (rounds s) texts s (store_text line buf) (length line) body
        (rounds_enough texts body s held) h held
        (blank_line_behind b'G' (codes "ET") word version buf (omega arith) (ground arith)) in
    rw run (rw (not_found_lem (record s { input = body })) refl)
answer-output k stack s url path query texts version body buf (some mode) h held short =
    answer-path_output k stack s texts body h held url path query mode short

then_closed :
    (output : Outcome Bytes) (s : Connection) (body : Bytes)
    → (sent s body output >>= λ s'. ok (record s' { closed = true }))
      ≡ (output >>= λ out. ok (record { input = body; output = s.output ++ out; closed = true }))
then_closed (ok out) s body = refl
then_closed (fault e) s body = refl

-- Every GET of a URL, with a query behind it or without, of at most 254 bytes together and with
-- no white space or NUL among them, with any version of at most 700 bytes, any headers of 1 to
-- 1022 bytes, with no CR or LF in these, and any body behind them: the client is sent what
-- `respond` says and the socket is closed, with the headers read and the body not; where
-- `respond` is undefined, so is the request. `respond` is: 404 for a path that does not exist;
-- index.html for a directory; a script where a query was given or the mode has an execute bit;
-- else the headers and the file, and undefined where it cannot be opened. Of a file each line, or
-- piece of 1023 bytes of a longer one, is sent up to its first NUL, and what is behind the last
-- of them is not. For a script `respond` is: 500 where a pipe or the fork fails; the status line
-- twice and what the script prints for a query of at most 241 bytes; undefined for a longer one.
pub accept_request-respond :
    (k : Kernel) (stack : Stack) (s : Connection) (url : Bytes) (query : Option Bytes)
    → (texts : List Bytes) (body : Bytes) → IsGet s url query texts body
    → accept_request k stack s ≡ (
        respond k url query >>= λ out.
        ok (record { input = body; output = s.output ++ out; closed = true }))
unfolding accept_request answer_request respond
accept_request-respond k stack s url query texts body g =
    let word = word_of url query in
    let s' : Connection = record s { input = block texts ++ body } in
    let path = path_of url in
    let url_short : length url ≤ 254 = omega (arith, url-length url query, g.short) in
    let (tail, stored) = stored_line (codes "GET") word g.version stack.buf in
    let size = length-whole_line (codes "GET") word g.version in
    let parsed =
      parse_word url query tail (length (whole_line (codes "GET") word g.version)) g.plain g.nul
        g.unasked g.some_word g.short (omega (arith, size)) in
    let answered =
      answer-output k stack s' url path query texts g.version body stack.buf (k.files.stat path)
        g.headers refl (path_of-length url url_short) in
    rw
      (request_line s stack.buf (codes "GET") word g.version (block texts ++ body) g.held
        method_plain g.plain g.whole_version (omega (arith, g.short, g.short_version)))
      (rw (rw (sym stored) at parsed) (
        rw (got_url url query, make_path_of url url_short, answered)
          (then_closed (respond k url query) s' body)))
