-- ===== src/Request.antt =====
-- The scan of a request line, which ztHttp/ztHttp/tcp.cpp (`Http::write`) and
-- ztHttp/ztHttp/simHttp.cpp (`accept_request`) share: method, URL, query, path.

pub mod Parse
pub mod Paths
use zt_http.Common.{
  ℕ, zero, suc, ◌-◌, Bool, true, false, not, ◌&&◌, ◌||◌, Option, none, some, [], ◌∷◌, ◌++◌, Bytes,
  codes, length, drop, ltb, ◌==◌, if◌then◌else◌, undefined, Outcome, ok, fault, ◌>>=◌,
}
use zt_http.CText.{is_space, c_str, str_case_eq}

-- `while (!ISspace(buf[i]) && (i < sizeof(method) - 1)) method[i] = buf[i]`, with `room` for the
-- rounds left; the result is what `method` holds before its NUL is written.
unfoldable pub scan_method : ℕ → Bytes → Bytes
scan_method zero cs = []
scan_method (suc room) [] = []
scan_method (suc room) (c ∷ cs) = if is_space c then [] else c ∷ scan_method room cs

-- `while (ISspace(buf[j]) && (j < numchars)) j++`: `left` is `numchars - j`. The result is what is
-- left then, and the line from `j` on.
unfoldable pub skip_spaces : ℕ → Bytes → ℕ × Bytes
skip_spaces zero cs = (0, cs)
skip_spaces (suc left) [] = (suc left, [])
skip_spaces (suc left) (c ∷ cs) = if is_space c then skip_spaces left cs else (suc left, c ∷ cs)

-- `while (!ISspace(buf[j]) && (i < sizeof(url) - 1) && (j < numchars)) url[i] = buf[j]`.
unfoldable pub scan_url : ℕ → ℕ → Bytes → Bytes
scan_url zero left cs = []
scan_url (suc room) zero cs = []
scan_url (suc room) (suc left) [] = []
scan_url (suc room) (suc left) (c ∷ cs) = if is_space c then [] else c ∷ scan_url room left cs

-- The search for `?`: the string before it, and what stands behind it if there is one.
unfoldable pub split_query : Bytes → Bytes × Option Bytes
split_query [] = ([], none)
split_query (c ∷ cs) =
    let (before, query) = split_query cs in if c == b'?' then ([], some cs) else (c ∷ before, query)

-- `path[strlen(path) - 1] == '/'`.
unfoldable pub ends_with_slash : Bytes → Bool
ends_with_slash [] = false
ends_with_slash (c ∷ []) = c == b'/'
ends_with_slash (c ∷ d ∷ cs) = ends_with_slash (d ∷ cs)

-- What is stored in `char path[512]` must leave room for the NUL.
unfoldable pub in_path : Bytes → Outcome Bytes
in_path p = if ltb (length p) 512 then ok p else fault undefined

-- `sprintf(path, "htdocs%s", url)`, and `index.html` behind a final slash.
unfoldable pub make_path : Bytes → Outcome Bytes
unfolding in_path ends_with_slash
make_path url = do
  path ← in_path (codes "htdocs" ++ url)
  if ends_with_slash path then in_path (path ++ codes "index.html") else ok path

-- The request line once it is read into `buf`, `numchars` bytes of it.
pub record Request : Type 0 where
  pub method : Bytes
  pub url : Bytes
  pub query_string : Option Bytes
  pub cgi : Bool

-- What the search leaves in `query_string`, never a null pointer, and in `cgi`.
with_query : Bytes → Option Bytes → Bytes × Option Bytes × Bool
with_query before none = (before, some [], false)
with_query before (some query) = (before, some query, true)

-- For GET the query is cut off the URL, and makes it a CGI request.
url_of : Bool → Bytes → Bytes × Option Bytes × Bool
unfolding split_query with_query
url_of true url = let (before, query) = split_query url in with_query before query
url_of false url = (url, none, false)

-- `none`: neither GET nor POST.
unfoldable pub parse_request : Bytes → ℕ → Option Request
unfolding scan_method skip_spaces scan_url url_of str_case_eq c_str
parse_request buf numchars =
    let raw = scan_method 254 buf in
    let method = c_str raw in
    let is_get = str_case_eq method (codes "GET") in
    let is_post = str_case_eq method (codes "POST") in
    let (left, line) = skip_spaces (numchars - length raw) (drop (length raw) buf) in
    let (url, query_string, asked) = url_of is_get (c_str (scan_url 254 left line)) in
    if not is_get && not is_post
    then none
    else some
        (record { method = method; url = url; query_string = query_string; cgi = is_post || asked })
