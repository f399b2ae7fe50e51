-- ===== src/SimHttp/Feeds.antt =====
-- What a POST makes of its length: the script that is started, or the answer that there is none.
use zt_http.Common.{
  ℕ, zero, suc, ◌-◌, ◌≤◌, ◌≡◌, refl, sym, ap, ◌∙◌, inl, inr, false, ℤ, pos, negsuc, Option, List,
  [], ◌∷◌, ◌++◌, append-nil, append_assoc, arith, Bytes, codes, length, drop, length-append, ◌==◌,
  Bool-cases, ok,
}
use zt_http.CText.{str_case_eq}
use zt_http.SimHttp.{Connection, store_text, send}
use zt_http.SimHttp.Replies.{bad_request, send_arrays, bad_request_texts}
use zt_http.SimHttp.Cgi.{
  Kernel, status_text, feed, decimal, child_environment, start_script, run_script,
}
use zt_http.SimHttp.Scripts.{Works, in_env_lem, can_run, can_run-Works, start_script_fails}
use zt_http.SimHttp.Bodies.{digits-length, feed_short}
use zt_http.SimHttp.Posts.{by_length}
use zt_http.SimHttp.Accept.{Stack}
use zt_http.SimHttp.Respond.{printed, fed, form_environment, arrays, form_output}

feed-fed : (n c : ℕ) (body : Bytes) → feed n c body ≡ (fed n c body, drop n body)
unfolding feed
feed-fed zero c [] = refl
feed-fed (suc n) c [] = feed_short (suc n) (suc n - 0) c [] (omega arith)
feed-fed zero c (d ∷ body) =
    let none_missing : 0 - suc (length body) ≡ 0 = omega arith in rw none_missing refl
feed-fed (suc n) c (d ∷ body) =
    let missing : suc n - suc (length body) ≡ n - length body = omega arith in
    rw missing (ap (λ r. (d ∷ r.0, r.1)) (feed-fed n d body))

decimal-length : (n : ℤ) → length (decimal n) ≤ 11
unfolding decimal
decimal-length (pos n) = omega (arith, digits-length 10 n)
decimal-length (negsuc n) = omega (arith, digits-length 10 (suc n))

form_environment_fits :
    (query : Option Bytes) (n : ℤ)
    → child_environment (codes "POST") query n ≡ ok (form_environment n)
unfolding child_environment str_case_eq
form_environment_fits query n =
    rw
      (in_env_lem (codes "CONTENT_LENGTH=" ++ decimal n)
        (omega (arith, length-append (codes "CONTENT_LENGTH=") (decimal n), decimal-length n)))
      refl

send_arrays_lem :
    (s : Connection) (buf : Bytes) (texts : List Bytes)
    → send_arrays s buf texts ≡ record s { output = s.output ++ arrays buf texts }
unfolding send_arrays
send_arrays_lem s buf [] = ap (λ o. record s { output = o }) (sym (append-nil s.output))
send_arrays_lem s buf (text ∷ texts) =
    let buf' = store_text text buf in
    send_arrays_lem (send s buf') buf' texts
    ∙ ap (λ o. record s { output = o }) (append_assoc s.output buf' (arrays buf' texts))

pub bad_request-arrays :
    (stack : Bytes) (s : Connection)
    → bad_request stack s ≡ record s { output = s.output ++ arrays stack bad_request_texts }
unfolding bad_request
bad_request-arrays stack s = send_arrays_lem s stack bad_request_texts

-- The connection once this is left of the body, and this is sent.
abbrev pub after : Connection → Bytes × Bytes → Connection
after s (body, out) = record s { input = body; output = s.output ++ out }

relayed :
    (s : Connection) (body printed : Bytes)
    → ok (record s { input = body; output = ((s.output ++ status_text) ++ status_text) ++ printed })
      ≡ ok (after s (body, status_text ++ status_text ++ printed))
relayed s body printed =
    ap (λ o. ok (record s { input = body; output = o }))
      (append_assoc (s.output ++ status_text) status_text printed
        ∙ append_assoc s.output status_text (status_text ++ printed))

script_prints :
    (k : Kernel) (c n : ℕ) (path : Bytes) (query : Option Bytes) (s : Connection)
    → Works k
    → start_script k c path (codes "POST") query (pos n) s
      ≡ ok (after s (drop n s.input, printed k path (pos n) (fed n c s.input)))
unfolding start_script run_script str_case_eq
script_prints k c n path query s works =
    rw (works.output, works.input, works.forks, form_environment_fits query (pos n))
      (rw (feed-fed n c s.input)
        (relayed s (drop n s.input) (k.run path (form_environment (pos n)) (fed n c s.input))))

-- A length below -1 feeds the script nothing.
script_prints_none :
    (k : Kernel) (c n : ℕ) (path : Bytes) (query : Option Bytes) (s : Connection)
    → Works k
    → start_script k c path (codes "POST") query (negsuc (suc n)) s
      ≡ ok (after s (s.input, printed k path (negsuc (suc n)) []))
unfolding start_script run_script str_case_eq
script_prints_none k c n path query s works =
    rw (works.output, works.input, works.forks, form_environment_fits query (negsuc (suc n)))
      (relayed s s.input (k.run path (form_environment (negsuc (suc n))) []))

pub form-output :
    (k : Kernel) (stack : Stack) (path : Bytes) (query : Option Bytes) (s : Connection) (n : ℤ)
    → by_length k stack path query s n ≡ ok (after s (form_output k stack path s.input n))
unfolding by_length
form-output k stack path query s (pos n) = elim (Bool-cases (can_run k)) [
  | inl can ↦ rw can (script_prints k stack.c n path query s (can_run-Works k can))
  | inr fails ↦ rw fails (start_script_fails k stack.c path (codes "POST") query (pos n) s fails)
]
form-output k stack path query s (negsuc zero) = ap ok (bad_request-arrays stack.reply_buf s)
form-output k stack path query s (negsuc (suc n)) =
    let given : (suc n == 0) ≡ false = ground arith in
    let below = negsuc (suc n) in
    elim (Bool-cases (can_run k)) [
      | inl can ↦
          rw (given, can) (script_prints_none k stack.c n path query s (can_run-Works k can))
      | inr fails ↦
          rw (given, fails) (start_script_fails k stack.c path (codes "POST") query below s fails)
    ]
