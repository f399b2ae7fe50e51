-- ===== src/SimHttp/Cases.antt =====
-- Requests of simHttp.cpp by what they meet: no file, a file, a script, a directory, a form.
use zt_http.Common.{
  ℕ, ◌+◌, ◌-◌, ◌*◌, ◌≤◌, ◌≡◌, refl, sym, ap, ◌∙◌, true, false, pos, negsuc, Option, none, some,
  List, [], ◌++◌, append-nil, arith, Bytes, length, take, drop, take_all, leb, undefined, ok, fault,
}
use zt_http.Common.{repeated}
use zt_http.Buffer.Stream.{joined}
use zt_http.Http.{is_directory}
use zt_http.SimHttp.{Connection}
use zt_http.SimHttp.Replies.{headers_texts, not_found_texts, bad_request_texts}
use zt_http.SimHttp.Cgi.{Kernel, status_text}
use zt_http.SimHttp.Scripts.{can_run, environment}
use zt_http.SimHttp.Bodies.{last_of}
use zt_http.SimHttp.Lengths.{content_length}
use zt_http.SimHttp.Accept.{Stack, is_executable, accept_request}
use zt_http.CText.Lines.{NoNul}
use zt_http.SimHttp.Sends.{EndsLine, bad_request-length}
use zt_http.SimHttp.Shown.{shown_text}
use zt_http.SimHttp.Respond.{
  index_of, path_of, printed, arrays, fed, respond, respond_post, IsGet, IsPost,
}
use zt_http.SimHttp.Feeds.{bad_request-arrays}
use zt_http.SimHttp.Gets.{accept_request-respond}
use zt_http.SimHttp.Forms.{accept_request-respond_post}

abbrev answered : Connection → Bytes → Bytes → Connection
answered s body out = record { input = body; output = s.output ++ out; closed = true }

module _ (k : Kernel) (stack : Stack) (s : Connection) (url : Bytes) (texts : List Bytes)
    (body : Bytes) where
  -- A GET of what does not exist.
  pub accept_missing :
      (query : Option Bytes)
      → IsGet s url query texts body
      → k.files.stat (path_of url) ≡ none
      → accept_request k stack s ≡ ok (answered s body (joined not_found_texts))
  unfolding respond
  accept_missing query g missing =
      accept_request-respond k stack s url query texts body g ∙ rw missing refl

  -- A GET of a plain file with no NUL that ends in a newline.
  pub accept_file :
      (mode : ℕ) (file : Bytes)
      → IsGet s url none texts body
      → k.files.stat (path_of url) ≡ some mode
      → is_directory mode ≡ false
      → is_executable mode ≡ false
      → k.files.contents_of (path_of url) ≡ some file
      → NoNul file
      → EndsLine file
      → accept_request k stack s ≡ ok (answered s body (joined headers_texts ++ file))
  unfolding respond
  accept_file mode file g there plain unexecutable found nul ends =
      accept_request-respond k stack s url none texts body g
      ∙ rw (there, plain, unexecutable, found, shown_text file nul ends) refl

  -- A GET with a query, of a path that is no directory.
  pub accept_script_replies :
      (mode : ℕ) (query : Bytes)
      → IsGet s url (some query) texts body
      → k.files.stat (path_of url) ≡ some mode
      → is_directory mode ≡ false
      → can_run k ≡ true
      → leb (length query) 241 ≡ true
      → accept_request k stack s
        ≡ ok (
            answered s body
              (status_text ++ status_text ++ k.run (path_of url) (environment query) []))
  unfolding respond
  accept_script_replies mode query g there plain can fits =
      accept_request-respond k stack s url (some query) texts body g
      ∙ rw (there, plain, can, fits) refl

  -- The same with a longer query.
  pub accept_script_overruns :
      (mode : ℕ) (query : Bytes)
      → IsGet s url (some query) texts body
      → k.files.stat (path_of url) ≡ some mode
      → is_directory mode ≡ false
      → can_run k ≡ true
      → leb (length query) 241 ≡ false
      → accept_request k stack s ≡ fault undefined
  unfolding respond
  accept_script_overruns mode query g there plain can over =
      accept_request-respond k stack s url (some query) texts body g
      ∙ rw (there, plain, can, over) refl

  -- A GET of a directory that has an execute bit.
  pub accept_directory_runs :
      (mode : ℕ)
      → IsGet s url none texts body
      → k.files.stat (path_of url) ≡ some mode
      → is_directory mode ≡ true
      → is_executable mode ≡ true
      → can_run k ≡ true
      → accept_request k stack s
        ≡ ok (
            answered s body
              (status_text ++ status_text ++ k.run (index_of (path_of url)) (environment []) []))
  unfolding respond
  accept_directory_runs mode g there directory executable can =
      accept_request-respond k stack s url none texts body g
      ∙ rw (there, directory, executable, can) refl

  -- A POST of a path that is no directory, by the length that its headers give.
  pub accept_post_replies :
      (mode n : ℕ)
      → IsPost s url texts body
      → k.files.stat (path_of url) ≡ some mode
      → is_directory mode ≡ false
      → content_length (negsuc 0) texts ≡ ok (pos n)
      → can_run k ≡ true
      → accept_request k stack s
        ≡ ok (answered s (drop n body) (printed k (path_of url) (pos n) (fed n stack.c body)))
  unfolding respond_post
  accept_post_replies mode n p there plain sized can =
      accept_request-respond_post k stack s url texts body p ∙ rw (there, plain, sized, can) refl

  -- A POST of a path that is no directory, with no length in its headers.
  pub accept_post_unsized :
      (mode : ℕ)
      → IsPost s url texts body
      → k.files.stat (path_of url) ≡ some mode
      → is_directory mode ≡ false
      → content_length (negsuc 0) texts ≡ ok (negsuc 0)
      → accept_request k stack s ≡ ok (answered s body (arrays stack.reply_buf bad_request_texts))
  unfolding respond_post
  accept_post_unsized mode p there plain unsized =
      accept_request-respond_post k stack s url texts body p ∙ rw (there, plain, unsized) refl

-- What the script gets is the body cut, where it is long enough,
fed_enough : (n c : ℕ) (body : Bytes) → n ≤ length body → fed n c body ≡ take n body
fed_enough n c body h =
    let none_missing : n - length body ≡ 0 = omega arith in
    rw none_missing (append-nil (take n body))

-- and else the body with its last byte again and again.
fed_short :
    (missing c : ℕ) (body : Bytes)
    → fed (length body + missing) c body ≡ body ++ repeated missing (last_of c body)
fed_short missing c body =
    let rest : length body + missing - length body ≡ missing = omega arith in
    rw (rest, take_all (length body + missing) body (omega arith)) refl

-- The answer to a POST without a length is five whole arrays.
pub arrays-length :
    (buf : Bytes) → length buf ≡ 1024 → length (arrays buf bad_request_texts) ≡ 5 * 1024
arrays-length buf h =
    let s : Connection = record { input = []; output = []; closed = false } in
    ap (λ c. length c.output) (sym (bad_request-arrays buf s)) ∙ bad_request-length buf s h
