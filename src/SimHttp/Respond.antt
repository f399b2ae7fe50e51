-- ===== src/SimHttp/Respond.antt =====
-- What simHttp.cpp sends the client of a request that is well formed, without its buffers and loops.
use zt_http.Common.{
  ℕ, zero, suc, ◌-◌, ◌≤◌, ◌<◌, ◌≡◌, Bool, ℤ, pos, negsuc, Option, none, some, List, [], ◌∷◌, ◌++◌,
  Bytes, codes, length, take, drop, leb, if◌then◌else◌, undefined, Outcome, ok, fault, ◌>>=◌,
}
use zt_http.Common.{repeated}
use zt_http.CText.Lines.{NoNul}
use zt_http.Buffer.Stream.{joined}
use zt_http.Http.{is_directory}
use zt_http.Request.{ends_with_slash}
use zt_http.Request.Parse.{NoSpace, NoQuery}
use zt_http.SimHttp.{Connection, store_text}
use zt_http.SimHttp.Replies.{
  cannot_execute_texts, headers_texts, not_found_texts, bad_request_texts,
}
use zt_http.SimHttp.Shown.{shown}
use zt_http.SimHttp.Discard.{AreHeaders, block, NoBreak}
use zt_http.SimHttp.RequestLine.{line_text}
use zt_http.SimHttp.Cgi.{Kernel, status_text, decimal}
use zt_http.SimHttp.Scripts.{can_run, environment}
use zt_http.SimHttp.Bodies.{last_of}
use zt_http.SimHttp.Lengths.{NoNuls, content_length}
use zt_http.SimHttp.Accept.{Stack, is_executable}

-- The second word of the request line: a URL, and a query behind it if there is one.
abbrev pub word_of : Bytes → Option Bytes → Bytes
word_of url none = url
word_of url (some query) = url ++ b'?' ∷ query

abbrev pub path_of : Bytes → Bytes
path_of url =
    let path = codes "htdocs" ++ url in
    if ends_with_slash path then path ++ codes "index.html" else path

abbrev pub index_of : Bytes → Bytes
index_of path = path ++ codes "/index.html"

abbrev pub script_output : Kernel → Bytes → Bytes → Outcome Bytes
script_output k path query =
    if can_run k
    then (if leb (length query) 241
        then ok (status_text ++ status_text ++ k.run path (environment query) [])
        else fault undefined)
    else ok (joined cannot_execute_texts)

abbrev pub file_output : Option Bytes → Outcome Bytes
file_output none = fault undefined
file_output (some file) = ok (joined headers_texts ++ shown 1023 [] file)

-- What a path that exists sends: a script whenever a query was given or the mode has an execute bit,
-- else the file.
abbrev pub found_output : Kernel → Bytes → Bool → Option Bytes → Outcome Bytes
found_output k path executable none =
    if executable then script_output k path [] else file_output (k.files.contents_of path)
found_output k path executable (some query) = script_output k path query

abbrev pub path_output : Kernel → Bytes → Option Bytes → Option ℕ → Outcome Bytes
path_output k path query none = ok (joined not_found_texts)
path_output k path query (some mode) =
    found_output k (if is_directory mode then index_of path else path) (is_executable mode) query

-- What the client of a GET is sent: nothing of the connection, of the stack or of the headers behind
-- the request line goes into it.
unfoldable pub respond : Kernel → Bytes → Option Bytes → Outcome Bytes
respond k url query = path_output k (path_of url) query (k.files.stat (path_of url))

-- A GET that is well formed.
pub record IsGet (s : Connection) (url : Bytes) (query : Option Bytes) (texts : List Bytes)
    (body : Bytes) : Type 0 where
  pub version : Bytes
  pub held :
      s.input
      ≡ line_text (codes "GET") (word_of url query) version ++ b'\r' ∷ b'\n' ∷ (block texts ++ body)
  pub whole_version : NoBreak version
  pub short_version : length version ≤ 700
  pub plain : NoSpace (word_of url query)
  pub nul : NoNul (word_of url query)
  pub unasked : NoQuery url
  pub some_word : 0 < length (word_of url query)
  pub short : length (word_of url query) ≤ 254
  pub headers : AreHeaders texts

-- What a script gets on its standard input for a length of `n`: the body, cut or with its last byte
-- again and again; `c` stands in for the last byte of no body.
abbrev pub fed : ℕ → ℕ → Bytes → Bytes
fed n c body = take n body ++ repeated (n - length body) (last_of c body)

abbrev pub form_environment : ℤ → List Bytes
form_environment n = codes "REQUEST_METHOD=POST" ∷ (codes "CONTENT_LENGTH=" ++ decimal n) ∷ []

-- An array that is sent whole with each text stored in it.
abbrev pub arrays : Bytes → List Bytes → Bytes
arrays buf [] = []
arrays buf (text ∷ texts) = let buf' = store_text text buf in buf' ++ arrays buf' texts

-- What a script prints behind the status lines.
abbrev pub printed : Kernel → Bytes → ℤ → Bytes → Bytes
printed k path n input = status_text ++ status_text ++ k.run path (form_environment n) input

-- By the length in the headers of a POST: what is left of the body, and what the client is sent.
abbrev pub form_output : Kernel → Stack → Bytes → Bytes → ℤ → Bytes × Bytes
form_output k stack path body (pos n) =
    if can_run k
    then (drop n body, printed k path (pos n) (fed n stack.c body))
    else (body, joined cannot_execute_texts)
form_output k stack path body (negsuc zero) = (body, arrays stack.reply_buf bad_request_texts)
form_output k stack path body (negsuc (suc n)) =
    if can_run k
    then (body, printed k path (negsuc (suc n)) [])
    else (body, joined cannot_execute_texts)

abbrev pub posted_output :
    Kernel → Stack → Bytes → List Bytes → Bytes → Option ℕ → Outcome (Bytes × Bytes)
posted_output k stack path texts body none = ok (body, joined not_found_texts)
posted_output k stack path texts body (some mode) = do
  n ← content_length (negsuc 0) texts
  ok (form_output k stack (if is_directory mode then index_of path else path) body n)

-- What is left of the body of a POST and what its client is sent. Of the stack only what the C++
-- sends uninitialised goes into it.
unfoldable pub respond_post : Kernel → Stack → Bytes → List Bytes → Bytes → Outcome (Bytes × Bytes)
respond_post k stack url texts body =
    posted_output k stack (path_of url) texts body (k.files.stat (path_of url))

-- A POST that is well formed.
pub record IsPost (s : Connection) (url : Bytes) (texts : List Bytes) (body : Bytes) : Type 0 where
  pub version : Bytes
  pub held : s.input ≡ line_text (codes "POST") url version ++ b'\r' ∷ b'\n' ∷ (block texts ++ body)
  pub whole_version : NoBreak version
  pub short_version : length version ≤ 700
  pub plain : NoSpace url
  pub nul : NoNul url
  pub some_url : 0 < length url
  pub short : length url ≤ 254
  pub headers : AreHeaders texts
  pub no_nuls : NoNuls texts
