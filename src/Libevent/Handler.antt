-- ===== src/Libevent/Handler.antt =====
-- When the handler answers.
use zt_http.Common.{
  ◌+◌, ◌*◌, ◌≤◌, ◌<◌, ◌≡◌, refl, ap, ◌⊎◌, inl, inr, false, Option, none, some, [], ◌∷◌, ◌++◌, arith,
  Bytes, codes, length, length-append, if_cases, undefined, Outcome, ok, fault, ◌>>=◌,
}
use zt_http.CText.{c_str, has_nul}
use zt_http.CText.Lines.{NoNul, c_str_lem, c_str-nul, has_nul-nul}
use zt_http.Libevent.{
  Received, Reply, tmp_size, output_size, add_line, httpd_handler, reply, q_line, s_line, post_line,
}

abbrev line : Bytes → Bytes → Bytes
line label text = label ++ text ++ codes "\n"

length-line : (label text : Bytes) → length (line label text) ≡ length label + length text + 1
length-line label text =
    let whole = length-append (label ++ text) (codes "\n") in
    let front : length (label ++ text) ≡ length label + length text = length-append label text in
    omega arith

-- A text of which `%s` reads `t`.
add_line_fits :
    (label text t output : Bytes)
    → c_str text ≡ t
    → length label + length t + 1 < tmp_size
    → length output + (length label + length t + 1) < output_size
    → add_line label (some text) output ≡ ok (output ++ line label t)
unfolding add_line
add_line_fits label text t output same small room =
    rw same (ground (arith, length-line label t, length-append output (line label t), small, room))

-- The body, up to its NUL.
post_line_fits :
    (req : Received) (post rest output : Bytes)
    → req.post_data ≡ some (post ++ 0 ∷ rest)
    → NoNul post
    → length post ≤ 1012
    → length output + (length post + 11) < output_size
    → post_line req output ≡ ok (reply (output ++ line (codes "post_data=") post))
post_line_fits req post rest output has_body ends small room =
    rw (has_body, has_nul-nul post rest)
      (rw
        (add_line_fits (codes "post_data=") (post ++ 0 ∷ rest) post output
          (c_str-nul post rest ends) (omega arith) (omega arith))
        refl)

add_line_undefined :
    (label output : Bytes) (text : Option Bytes) (rest : Bytes → Outcome Reply)
    → ((b : Bytes) → rest b ≡ fault undefined)
    → (add_line label text output >>= rest) ≡ fault undefined
unfolding add_line
add_line_undefined label output none rest h = refl
add_line_undefined label output (some text) rest h =
    if_cases (λ m. (m >>= rest) ≡ fault undefined) _ (fault undefined)
      (ok (output ++ line label (c_str text))) refl (h (output ++ line label (c_str text)))

-- The report of the six lines.
abbrev pub report : Received → Bytes → Bytes → Bytes → Bytes
report req q s post =
    ((((line (codes "uri=") req.uri ++ line (codes "uri=") req.uri)
          ++ line (codes "decoded_uri=") req.decoded_uri)
        ++ line (codes "q=") q)
      ++ line (codes "s=") s)
    ++ line (codes "post_data=") post

-- Whether the handler lacks a text that it prints.
abbrev Lacks : Received → Type 0
Lacks req =
    (req.find_header (codes "q") ≡ none)
    ⊎ ((req.find_header (codes "s") ≡ none)
        ⊎ ((req.post_data ≡ none)
            ⊎ ((body : Bytes) × (req.post_data ≡ some body) × (has_nul body ≡ false))))

body_undefined :
    (req : Received)
    → (req.post_data ≡ none)
      ⊎ ((body : Bytes) × (req.post_data ≡ some body) × (has_nul body ≡ false))
    → (b : Bytes) → post_line req b ≡ fault undefined
unfolding add_line
body_undefined req (inl no_body) b = rw no_body refl
body_undefined req (inr (body, has, open_ended)) b = rw has (rw open_ended refl)

q_line_undefined : (req : Received) → Lacks req → (b : Bytes) → q_line req b ≡ fault undefined
unfolding add_line
q_line_undefined req (inl no_q) b = ap (λ o. add_line (codes "q=") o b >>= s_line req) no_q
q_line_undefined req (inr (inl no_s)) b =
    add_line_undefined (codes "q=") b (req.find_header (codes "q")) (s_line req)
      λ b'. ap (λ o. add_line (codes "s=") o b' >>= post_line req) no_s
q_line_undefined req (inr (inr no_body)) b =
    add_line_undefined (codes "q=") b (req.find_header (codes "q")) (s_line req) λ b1.
      add_line_undefined (codes "s=") b1 (req.find_header (codes "s")) (post_line req)
        (body_undefined req no_body)

-- A request with no parameter `q`, with no parameter `s`, with no body, or with a body that has no NUL
-- byte, makes the handler undefined, whatever else it has.
pub missing_text_undefined : (req : Received) → Lacks req → httpd_handler req ≡ fault undefined
unfolding httpd_handler
missing_text_undefined req missing =
    add_line_undefined (codes "uri=") [] (some req.uri)
      (λ once. add_line (codes "uri=") (some req.uri) once >>= λ twice.
        add_line (codes "decoded_uri=") (some req.decoded_uri) twice >>= q_line req)
      λ once.
        add_line_undefined (codes "uri=") once (some req.uri)
          (λ twice. add_line (codes "decoded_uri=") (some req.decoded_uri) twice >>= q_line req)
          λ twice.
            add_line_undefined (codes "decoded_uri=") twice (some req.decoded_uri) (q_line req)
              (q_line_undefined req missing)

-- A request that has all the texts, the first NUL of the body behind `post` and none in the others, none
-- of the texts too long for `tmp` and all of them not too long for `output`, is answered by the report
-- of them: the URI twice, the decoded URI, the parameters, and of the body `post` alone.
pub httpd_handler_reports :
    (req : Received) (q s post rest : Bytes)
    → req.find_header (codes "q") ≡ some q
    → req.find_header (codes "s") ≡ some s
    → req.post_data ≡ some (post ++ 0 ∷ rest)
    → NoNul req.uri × NoNul req.decoded_uri × NoNul q × NoNul s × NoNul post
    → length req.uri ≤ 1018
    → length req.decoded_uri ≤ 1010
    → length q ≤ 1020
    → length s ≤ 1020
    → length post ≤ 1012
    → 2 * length req.uri + length req.decoded_uri + length q + length s + length post ≤ 2007
    → httpd_handler req ≡ ok (reply (report req q s post))
unfolding httpd_handler
httpd_handler_reports req q s post rest has_q has_s has_body (nu, nd, nq, ns, np) u d lq ls lp all =
    let once = line (codes "uri=") req.uri in
    let once_length = length-line (codes "uri=") req.uri in
    let twice_length = length-append once once in
    let twice = once ++ once in
    let third = line (codes "decoded_uri=") req.decoded_uri in
    let third_length = length-line (codes "decoded_uri=") req.decoded_uri in
    let decoded_length = length-append twice third in
    let q_length = length-line (codes "q=") q in
    let with_q_length = length-append (twice ++ third) (line (codes "q=") q) in
    let with_q = (twice ++ third) ++ line (codes "q=") q in
    let s_length = length-line (codes "s=") s in
    let with_s_length = length-append with_q (line (codes "s=") s) in
    let of_uri = c_str_lem req.uri nu in
    let of_decoded = c_str_lem req.decoded_uri nd in
    rw
      (
        add_line_fits (codes "uri=") req.uri req.uri [] of_uri (omega arith) (omega arith),
        add_line_fits (codes "uri=") req.uri req.uri once of_uri (omega arith) (omega arith),
        add_line_fits (codes "decoded_uri=") req.decoded_uri req.decoded_uri twice of_decoded
            (omega arith) (omega arith),
        has_q,
        add_line_fits (codes "q=") q q (twice ++ third) (c_str_lem q nq) (omega arith)
            (omega arith),
        has_s,
        add_line_fits (codes "s=") s s with_q (c_str_lem s ns) (omega arith) (omega arith),
      )
      (post_line_fits req post rest (with_q ++ line (codes "s=") s) has_body np lp (omega arith))
