-- ===== src/SimHttp/Outputs.antt =====
-- What follows the request line of a GET whose path exists.
use zt_http.Common.{
  ℕ, ◌≤◌, ◌≡◌, refl, ap, ◌∙◌, inl, inr, true, false, not, ◌||◌, negsuc, Option, none, some, List,
  [], ◌++◌, append_assoc, arith, Bytes, codes, length, length-append, leb, if◌then◌else◌,
  Bool-cases, Option-cases, undefined, Outcome, ok, fault, ◌>>=◌,
}
use zt_http.Buffer.Stream.{joined}
use zt_http.Http.{is_directory}
use zt_http.Request.{Request, in_path}
use zt_http.Request.Paths.{in_path_lem}
use zt_http.SimHttp.{Connection}
use zt_http.SimHttp.Replies.{headers_texts}
use zt_http.SimHttp.Discard.{AreHeaders, block}
use zt_http.SimHttp.Requests.{serve_file_sends, discard_headers}
use zt_http.SimHttp.Cgi.{Kernel, status_text, execute_cgi}
use zt_http.SimHttp.Scripts.{
  can_run, can_run-Works, environment, environment_fits, environment_over, script_runs,
  script_fails,
}
use zt_http.SimHttp.Accept.{Stack, serve_file, send_file, is_executable, answer_path}
use zt_http.SimHttp.Shown.{shown}
use zt_http.SimHttp.Respond.{index_of, script_output, file_output, found_output, path_output}

unfoldable pub got : Bytes → Option Bytes → Request
got url none = record { method = codes "GET"; url = url; query_string = some []; cgi = false }
got url (some query) = record {
  method = codes "GET";
  url = url;
  query_string = some query;
  cgi = true;
}

abbrev behind : Connection → Bytes → Bytes → Connection
behind s body out = record s { input = body; output = s.output ++ out }

abbrev pub sent : Connection → Bytes → Outcome Bytes → Outcome Connection
sent s body output = output >>= λ out. ok (behind s body out)

module _ (k : Kernel) (stack : Stack) (s : Connection) (texts : List Bytes) (body : Bytes)
    (h : AreHeaders texts) (held : s.input ≡ block texts ++ body) where
  execute-script_output :
      (path query : Bytes)
      → execute_cgi k stack.callee_buf stack.reply_buf stack.c path (codes "GET") (some query) s
        ≡ sent s body (script_output k path query)
  execute-script_output path query =
      let out = k.run path (environment query) [] in
      elim (Bool-cases (can_run k)) [
        | inr fails ↦ rw fails (
            script_fails k stack.callee_buf stack.reply_buf stack.c path (some query) s texts body h
              held fails)
        | inl can ↦
            let works = can_run-Works k can in
            elim (Bool-cases (leb (length query) 241)) [
              | inl fits ↦
                  rw (can, fits)
                    (script_runs k stack.callee_buf stack.reply_buf stack.c path query s texts body
                        (ok (environment query)) works h held
                        (environment_fits query (negsuc 0) (ground (arith, fits)))
                      ∙ ap (λ o. ok (record s { input = body; output = o }))
                          (append_assoc (s.output ++ status_text) status_text out
                            ∙ append_assoc s.output status_text (status_text ++ out)))
              | inr over ↦
                  rw (can, over)
                    (script_runs k stack.callee_buf stack.reply_buf stack.c path query s texts body
                      (fault undefined) works h held
                      (environment_over query (negsuc 0) (ground (arith, over))))
            ]
      ]

  serve_none :
      (path : Bytes)
      → k.files.contents_of path ≡ none
      → serve_file k stack.callee_buf path s ≡ fault undefined
  unfolding serve_file send_file
  serve_none path missing =
      let (buf', run) = discard_headers stack.callee_buf s texts body h held in
      rw (run, missing) refl

  serve-file_output :
      (path : Bytes)
      → serve_file k stack.callee_buf path s ≡ sent s body (file_output (k.files.contents_of path))
  serve-file_output path = elim (Option-cases (k.files.contents_of path)) [
    | inl missing ↦ rw missing (serve_none path missing)
    | inr (file, found) ↦ rw found (
        serve_file_sends k stack.callee_buf path s texts body file h held found
        ∙ ap (λ o. ok (record s { input = body; output = o }))
            (append_assoc s.output (joined headers_texts) (shown 1023 [] file)))
  ]

  executes :
      (url path : Bytes) (mode : ℕ) (query : Option Bytes)
      → (if not ((got url query).cgi || is_executable mode)
          then serve_file k stack.callee_buf path s
          else execute_cgi k stack.callee_buf stack.reply_buf stack.c path
              (got url query).method
              (got url query).query_string
              s)
        ≡ sent s body (found_output k path (is_executable mode) query)
  unfolding got
  executes url path mode none = elim (Bool-cases (is_executable mode)) [
    | inl executable ↦ rw executable (execute-script_output path [])
    | inr plain ↦ rw plain (serve-file_output path)
  ]
  executes url path mode (some query) = execute-script_output path query

  pub answer-path_output :
      (url path : Bytes) (query : Option Bytes) (mode : ℕ)
      → length path ≤ 270
      → answer_path k stack (got url query) path mode s
        ≡ sent s body (path_output k path query (some mode))
  unfolding answer_path got
  answer-path_output url path query mode short =
      let index : in_path (index_of path) ≡ ok (index_of path) =
        in_path_lem (index_of path) (omega (arith, length-append path (codes "/index.html"))) in
      elim (Bool-cases (is_directory mode)) [
        | inl directory ↦ rw (directory, index) (executes url (index_of path) mode query)
        | inr file ↦ rw file (executes url path mode query)
      ]
