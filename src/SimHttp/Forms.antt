-- ===== src/SimHttp/Forms.antt =====
-- Every well-formed POST of simHttp.cpp, against what its client ought to be sent.
use zt_http.Common.{
  ℕ, ◌≤◌, ◌≡◌, refl, sym, ◌∙◌, inl, inr, true, ℤ, negsuc, Option, none, some, List, ◌++◌, arith,
  Bytes, codes, length, length-append, Bool-cases, Outcome, ok, fault, ◌>>=◌,
}
use zt_http.Http.{is_directory}
use zt_http.Request.{Request, in_path}
use zt_http.Request.Parse.{NoSpace, parse_post}
use zt_http.Request.Paths.{in_path_lem}
use zt_http.SimHttp.{Connection, rounds, store_text}
use zt_http.SimHttp.Discard.{AreHeaders, block, discard-block}
use zt_http.SimHttp.Requests.{rounds_enough, not_found_lem}
use zt_http.SimHttp.Cgi.{Kernel, execute_cgi}
use zt_http.SimHttp.Lengths.{NoNuls, content_length}
use zt_http.SimHttp.Posts.{execute_post, by_length}
use zt_http.CText.{is_space}
use zt_http.SimHttp.RequestLine.{
  whole_line, stored_line, length-whole_line, request_line, blank_line_behind,
}
use zt_http.SimHttp.Accept.{Stack, answer_path, answer, answer_request, accept_request}
use zt_http.SimHttp.Respond.{index_of, path_of, form_output, posted_output, respond_post, IsPost}
use zt_http.SimHttp.Gets.{make_path_of, path_of-length}
use zt_http.SimHttp.Feeds.{after, form-output}

posted : Bytes → Request
posted url = record { method = codes "POST"; url = url; query_string = none; cgi = true }

abbrev sent : Connection → Outcome (Bytes × Bytes) → Outcome Connection
sent s output = output >>= λ r. ok (after s r)

bind_sized :
    (sized : Outcome ℤ) (f : ℤ → Outcome Connection) (s : Connection) (g : ℤ → Bytes × Bytes)
    → ((n : ℤ) → f n ≡ ok (after s (g n)))
    → (sized >>= f) ≡ sent s (sized >>= λ n. ok (g n))
bind_sized (ok n) f s g h = h n
bind_sized (fault e) f s g h = refl

executes :
    (k : Kernel) (stack : Stack) (s : Connection) (path : Bytes) (texts : List Bytes) (body : Bytes)
    → AreHeaders texts
    → NoNuls texts
    → s.input ≡ block texts ++ body
    → execute_cgi k stack.callee_buf stack.reply_buf stack.c path (codes "POST") none s
      ≡ sent s (content_length (negsuc 0) texts >>= λ n. ok (form_output k stack path body n))
executes k stack s path texts body h nul held =
    execute_post k stack path none s texts body h nul held
    ∙ bind_sized (content_length (negsuc 0) texts)
        (by_length k stack path none (record s { input = body })) s (form_output k stack path body)
        (λ n. form-output k stack path none (record s { input = body }) n)

method_plain : NoSpace (codes "POST")
unfolding is_space
method_plain = ground arith

answer-posted :
    (k : Kernel) (stack : Stack) (s : Connection) (url path : Bytes) (texts : List Bytes)
    (version body buf : Bytes) (mode : Option ℕ)
    → AreHeaders texts
    → NoNuls texts
    → s.input ≡ block texts ++ body
    → length path ≤ 270
    → answer k stack
        (posted url)
        (
          store_text (whole_line (codes "POST") url version) buf,
          length (whole_line (codes "POST") url version),
        )
        path
        mode
        s
      ≡ sent s (posted_output k stack path texts body mode)
unfolding answer answer_path posted
answer-posted k stack s url path texts version body buf none h nul held short =
    let line = whole_line (codes "POST") url version in
    let (buf', run) =
      discard-block (rounds s) texts s (store_text line buf) (length line) body
        (rounds_enough texts body s held) h held
        (blank_line_behind b'P' (codes "OST") url version buf (omega arith) (ground arith)) in
    rw run (rw (not_found_lem (record s { input = body })) refl)
answer-posted k stack s url path texts version body buf (some mode) h nul held short =
    let index : in_path (index_of path) ≡ ok (index_of path) =
      in_path_lem (index_of path) (omega (arith, length-append path (codes "/index.html"))) in
    elim (Bool-cases (is_directory mode)) [
      | inl directory ↦
          rw (directory, index) (executes k stack s (index_of path) texts body h nul held)
      | inr file ↦ rw file (executes k stack s path texts body h nul held)
    ]

then_closed :
    (output : Outcome (Bytes × Bytes)) (s : Connection)
    → (sent s output >>= λ c. ok (record c { closed = true }))
      ≡ (output >>= λ r. ok (record { input = r.0; output = s.output ++ r.1; closed = true }))
then_closed (ok r) s = refl
then_closed (fault e) s = refl

-- Every POST of a URL of 1 to 254 bytes with no white space or NUL among them, with any version
-- of at most 700 bytes, any headers of 1 to 1022 bytes with no NUL in them, with no CR or LF in
-- these, and any body behind them: the client is sent, and the body is read, as `respond_post`
-- says, and the socket is closed; where `respond_post` is undefined, so is the request.
-- `respond_post` is: 404 for a path that does not exist; else the script, or the index.html of a
-- directory, is run with the length of the last Content-Length header, and the client is sent the
-- status line twice and what it prints. The script gets that many bytes of the body, with the
-- last byte of a short body again and again, or none for a length below -1. Where a pipe or the
-- fork fails it is 500, with the body unread; with no such header, or the length -1, nothing is
-- run and five whole arrays are sent; a length out of the range of `int` is undefined.
pub accept_request-respond_post :
    (k : Kernel) (stack : Stack) (s : Connection) (url : Bytes) (texts : List Bytes) (body : Bytes)
    → IsPost s url texts body
    → accept_request k stack s ≡ (
        respond_post k stack url texts body >>= λ r.
        ok (record { input = r.0; output = s.output ++ r.1; closed = true }))
unfolding accept_request answer_request respond_post posted
accept_request-respond_post k stack s url texts body p =
    let line : Bytes = whole_line (codes "POST") url p.version in
    let size = length-whole_line (codes "POST") url p.version in
    let (tail, stored) = stored_line (codes "POST") url p.version stack.buf in
    let parsed =
      parse_post url tail (length line) p.plain p.nul p.some_url p.short (omega (arith, size)) in
    let s' : Connection = record s { input = block texts ++ body } in
    let path = path_of url in
    let answered =
      answer-posted k stack s' url path texts p.version body stack.buf (k.files.stat path) p.headers
        p.no_nuls refl (path_of-length url p.short) in
    rw
      (request_line s stack.buf (codes "POST") url p.version (block texts ++ body) p.held
        method_plain p.plain p.whole_version (omega (arith, p.short, p.short_version)))
      (rw (rw (sym stored) at parsed) (
        rw (make_path_of url p.short, answered)
          (then_closed (respond_post k stack url texts body) s')))
