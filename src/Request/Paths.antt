-- ===== src/Request/Paths.antt =====
-- The path of every request that is parsed fits into its array.
use zt_http.Common.{
  ℕ, zero, suc, ◌+◌, ◌-◌, ◌≤◌, ◌<◌, ◌≡◌, refl, subst, inl, inr, Bool, true, false, not, ◌&&◌,
  Option, none, some, [], ◌∷◌, ◌++◌, arith, Bytes, codes, length, drop, length-append, Bool-cases,
  if_cases, ok,
}
use zt_http.CText.{c_str, str_case_eq}
use zt_http.Request.{
  Request, parse_request, make_path, in_path, scan_url, scan_method, skip_spaces, split_query,
  url_of, with_query, ends_with_slash,
}

scan_url-length : (room left : ℕ) (cs : Bytes) → length (scan_url room left cs) ≤ room
unfolding scan_url
scan_url-length zero left cs = omega arith
scan_url-length (suc room) zero cs = omega arith
scan_url-length (suc room) (suc left) [] = omega arith
scan_url-length (suc room) (suc left) (c ∷ cs) = ground (arith, scan_url-length room left cs)

c_str-length : (cs : Bytes) → length (c_str cs) ≤ length cs
unfolding c_str
c_str-length [] = omega arith
c_str-length (c ∷ cs) = ground (arith, c_str-length cs)

split_query-length : (cs : Bytes) → length (split_query cs).0 ≤ length cs
unfolding split_query
split_query-length [] = omega arith
split_query-length (c ∷ cs) = ground (arith, split_query-length cs)

with_query-url : (before : Bytes) (query : Option Bytes) → (with_query before query).0 ≡ before
unfolding with_query
with_query-url before none = refl
with_query-url before (some query) = refl

url_of-length : (is_get : Bool) (cs : Bytes) → length (url_of is_get cs).0 ≤ length cs
unfolding url_of
url_of-length true cs =
    let (before, query) = split_query cs in rw (with_query-url before query) (split_query-length cs)
url_of-length false cs = omega arith

pub in_path_lem : (p : Bytes) → length p < 512 → in_path p ≡ ok p
unfolding in_path
in_path_lem p h = ground arith

make_path_lem :
    (url : Bytes)
    → length url ≤ 254
    → (path : Bytes) × (make_path url ≡ ok path) × (length path ≤ 270)
unfolding make_path
make_path_lem url h =
    let path = codes "htdocs" ++ url in
    let size : length path ≡ 6 + length url = length-append (codes "htdocs") url in
    let longer : length (path ++ codes "index.html") ≡ length path + 10 =
      length-append path (codes "index.html") in
    elim (Bool-cases (ends_with_slash path)) [
      | inl slash ↦ (
        path ++ codes "index.html",
        rw (in_path_lem path (omega arith)) (rw slash (in_path_lem _ (omega arith))),
        omega arith,
      )
      | inr plain ↦ (path, rw (in_path_lem path (omega arith)) (rw plain refl), omega arith)
    ]

abbrev url_length : Option Request → ℕ
url_length none = 0
url_length (some r) = length r.url

parse_request-url_length : (buf : Bytes) (n : ℕ) → url_length (parse_request buf n) ≤ 254
unfolding parse_request
parse_request-url_length buf n =
    let raw = scan_method 254 buf in
    let is_get = str_case_eq (c_str raw) (codes "GET") in
    let is_post = str_case_eq (c_str raw) (codes "POST") in
    let (left, line) = skip_spaces (n - length raw) (drop (length raw) buf) in
    let scanned = scan_url 254 left line in
    if_cases (λ r. url_length r ≤ 254) (not is_get && not is_post) _ _ (omega arith)
      (omega (
        arith,
        scan_url-length 254 left line,
        c_str-length scanned,
        url_of-length is_get (c_str scanned),
      ))

-- The path made of any request line that is parsed, whatever the array holds, fits into the 512
-- bytes of `path`, and so does it with `/index.html` behind it.
pub parse_request-make_path :
    (buf : Bytes) (numchars : ℕ) (r : Request)
    → parse_request buf numchars ≡ some r
    → (path : Bytes) × (make_path r.url ≡ ok path)
      × (in_path (path ++ codes "/index.html") ≡ ok (path ++ codes "/index.html"))
parse_request-make_path buf numchars r parsed =
    let short : length r.url ≤ 254 =
      subst (λ o. url_length o ≤ 254) parsed (parse_request-url_length buf numchars) in
    let (path, made, size) = make_path_lem r.url short in
    (
      path,
      made,
      in_path_lem (path ++ codes "/index.html")
          (omega (arith, length-append path (codes "/index.html"))),
    )
