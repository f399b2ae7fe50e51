-- ===== src/Request/Parse.antt =====
-- The parsing of a well-formed request line.
use zt_http.Common.{
  ℕ, zero, suc, ◌+◌, ◌-◌, ◌≤◌, ◌<◌, ◌≡◌, refl, ap, ◌∙◌, ◌≢◌, true, false, Option, none, some, [],
  ◌∷◌, ◌++◌, arith, Bytes, codes, length, length-append,
}
use zt_http.CText.{is_space, c_str, str_case_eq}
use zt_http.CText.Lines.{NoNul, c_str_lem}
use zt_http.Request.{
  Request, parse_request, scan_url, scan_method, skip_spaces, split_query, url_of, with_query,
}

abbrev pub NoSpace : Bytes → Type 0
NoSpace [] = Unit
NoSpace (c ∷ cs) = (is_space c ≡ false) × NoSpace cs

abbrev pub NoQuery : Bytes → Type 0
NoQuery [] = Unit
NoQuery (c ∷ cs) = (c ≢ b'?') × NoQuery cs

scan_url_word :
    (room left : ℕ) (word rest : Bytes)
    → NoSpace word
    → length word ≤ room
    → length word ≤ left
    → scan_url room left (word ++ b' ' ∷ rest) ≡ word
unfolding scan_url is_space
scan_url_word zero left [] rest n fits in_line = refl
scan_url_word (suc room) zero [] rest n fits in_line = refl
scan_url_word (suc room) (suc left) [] rest n fits in_line = refl
scan_url_word zero left (c ∷ word) rest n fits in_line = absurd (omega arith)
scan_url_word (suc room) zero (c ∷ word) rest n fits in_line = absurd (omega arith)
scan_url_word (suc room) (suc left) (c ∷ word) rest n fits in_line =
    rw n.0 (ap (λ w. c ∷ w) (scan_url_word room left word rest n.1 (omega arith) (omega arith)))

skip_one :
    (left c : ℕ) (rest : Bytes)
    → is_space c ≡ false
    → skip_spaces (suc (suc left)) (b' ' ∷ c ∷ rest) ≡ (suc left, c ∷ rest)
unfolding skip_spaces is_space
skip_one left c rest n = rw n refl

split_query_plain : (cs : Bytes) → NoQuery cs → split_query cs ≡ (cs, none)
unfolding split_query
split_query_plain [] n = refl
split_query_plain (c ∷ cs) n = rw (split_query_plain cs n.1) (ground (arith, n.0))

split_query_asked :
    (cs query : Bytes) → NoQuery cs → split_query (cs ++ b'?' ∷ query) ≡ (cs, some query)
unfolding split_query
split_query_asked [] query n = refl
split_query_asked (c ∷ cs) query n = rw (split_query_asked cs query n.1) (ground (arith, n.0))

scanned_word :
    (word rest : Bytes) (left : ℕ)
    → NoSpace word
    → NoNul word
    → 0 < length word
    → length word ≤ 254
    → length word < left
    → c_str (
        scan_url 254
          (skip_spaces left (b' ' ∷ word ++ b' ' ∷ rest)).0
          (skip_spaces left (b' ' ∷ word ++ b' ' ∷ rest)).1)
      ≡ word
scanned_word [] rest left plain nul some_word short in_line = absurd (omega arith)
scanned_word (c ∷ cs) rest zero plain nul some_word short in_line = absurd (omega arith)
scanned_word (c ∷ cs) rest (suc zero) plain nul some_word short in_line = absurd (omega arith)
scanned_word (c ∷ cs) rest (suc (suc left)) plain nul some_word short in_line =
    rw (skip_one left c (cs ++ b' ' ∷ rest) plain.0) (
      ap c_str (scan_url_word 254 (suc left) (c ∷ cs) rest plain short (omega arith))
      ∙ c_str_lem (c ∷ cs) nul)

got : Bytes → Option Request
unfolding url_of
got word =
    let (url, query_string, asked) = url_of true word in
    some (record { method = codes "GET"; url = url; query_string = query_string; cgi = asked })

-- What GET makes of a line whose second word, of these bytes, stands between blanks.
parse_get_word :
    (word rest : Bytes) (n : ℕ)
    → NoSpace word
    → NoNul word
    → 0 < length word
    → length word ≤ 254
    → 4 + length word ≤ n
    → parse_request (codes "GET " ++ word ++ b' ' ∷ rest) n
      ≡ some (record {
        method = codes "GET";
        url = (url_of true word).0;
        query_string = (url_of true word).1;
        cgi = (url_of true word).2;
      })
unfolding parse_request scan_method c_str str_case_eq is_space got
parse_get_word word rest n plain nul some_word short in_line =
    ap got (scanned_word word rest (n - 3) plain nul some_word short (omega arith))

-- A GET of a URL without `?`.
pub parse_get :
    (url rest : Bytes) (n : ℕ)
    → NoSpace url
    → NoNul url
    → NoQuery url
    → 0 < length url
    → length url ≤ 254
    → 4 + length url ≤ n
    → parse_request (codes "GET " ++ url ++ b' ' ∷ rest) n
      ≡ some (record { method = codes "GET"; url = url; query_string = some []; cgi = false })
unfolding url_of with_query got
parse_get url rest n s z q some_word short in_line =
    rw (split_query_plain url q) at (parse_get_word url rest n s z some_word short in_line)

-- A GET of a URL with a query behind it.
pub parse_get_query :
    (url query rest : Bytes) (n : ℕ)
    → NoSpace (url ++ b'?' ∷ query)
    → NoNul (url ++ b'?' ∷ query)
    → NoQuery url
    → length (url ++ b'?' ∷ query) ≤ 254
    → 4 + length (url ++ b'?' ∷ query) ≤ n
    → parse_request (codes "GET " ++ (url ++ b'?' ∷ query) ++ b' ' ∷ rest) n
      ≡ some (record { method = codes "GET"; url = url; query_string = some query; cgi = true })
unfolding url_of with_query got
parse_get_query url query rest n s z q short in_line =
    let some_word : 0 < length (url ++ b'?' ∷ query) =
      omega (arith, length-append url (b'?' ∷ query)) in
    rw (split_query_asked url query q) at
      (parse_get_word (url ++ b'?' ∷ query) rest n s z some_word short in_line)

scan_method_word :
    (room : ℕ) (word rest : Bytes)
    → NoSpace word
    → length word ≤ room
    → scan_method room (word ++ b' ' ∷ rest) ≡ word
unfolding scan_method is_space
scan_method_word zero [] rest n fits = refl
scan_method_word (suc room) [] rest n fits = refl
scan_method_word zero (c ∷ word) rest n fits = absurd (omega arith)
scan_method_word (suc room) (c ∷ word) rest n fits =
    rw n.0 (ap (λ w. c ∷ w) (scan_method_word room word rest n.1 (omega arith)))

-- Another first word than GET and POST, in any case of the letters, is no request.
pub parse_unknown :
    (word rest : Bytes) (n : ℕ)
    → NoSpace word
    → NoNul word
    → length word ≤ 254
    → str_case_eq word (codes "GET") ≡ false
    → str_case_eq word (codes "POST") ≡ false
    → parse_request (word ++ b' ' ∷ rest) n ≡ none
unfolding parse_request
parse_unknown word rest n plain nul short no_get no_post =
    let read : c_str (scan_method 254 (word ++ b' ' ∷ rest)) ≡ word =
      ap c_str (scan_method_word 254 word rest plain short) ∙ c_str_lem word nul in
    rw read (rw (no_get, no_post) refl)

posted : Bytes → Option Request
posted url = some (record { method = codes "POST"; url = url; query_string = none; cgi = true })

-- A POST; the query stays in the URL.
pub parse_post :
    (url rest : Bytes) (n : ℕ)
    → NoSpace url
    → NoNul url
    → 0 < length url
    → length url ≤ 254
    → 5 + length url ≤ n
    → parse_request (codes "POST " ++ url ++ b' ' ∷ rest) n
      ≡ some (record { method = codes "POST"; url = url; query_string = none; cgi = true })
unfolding parse_request scan_method c_str str_case_eq is_space url_of posted
parse_post url rest n plain nul some_url short in_line =
    ap posted (scanned_word url rest (n - 4) plain nul some_url short (omega arith))
