-- ===== src/SimHttp/Cgi.antt =====
-- `execute_cgi` of ztHttp/ztHttp/simHttp.cpp: the headers, the pipes and the processes, the
-- environment of the script, the relay of its output.
use zt_http.Common.{
  ℕ, zero, suc, ◌+◌, ◌-◌, ◌*◌, ◌/◌, ◌%◌, ◌^◌, Bool, false, not, ◌&&◌, ℤ, pos, negsuc, Option, none,
  some, List, [], ◌∷◌, ◌++◌, Bytes, codes, length, set, drop, ltb, leb, ◌==◌, if◌then◌else◌,
  undefined, endless, Outcome, ok, fault, ◌>>=◌,
}
use zt_http.CText.{c_str, str_eq, str_case_eq, is_space}
use zt_http.Http.{FileSystem}
use zt_http.SimHttp.{Connection, send, get_line, discard, rounds}
use zt_http.SimHttp.Replies.{bad_request, cannot_execute}

-- What the kernel answers: `stat` and `fopen`; whether each `pipe` and the `fork` succeed; and what
-- the program at a path prints before it ends, in an environment and on a standard input. A program
-- that waits for the end of its input, which the source keeps open until the program has ended, is none
-- of these.
pub record Kernel : Type 0 where
  pub files : FileSystem
  pub pipe_output : Bool
  pub pipe_input : Bool
  pub forks : Bool
  pub run : Bytes → List Bytes → Bytes → Bytes

-- The value of the digits at the start of a string.
unfoldable pub digits_value : ℕ → Bytes → ℕ
digits_value n [] = n
digits_value n (c ∷ cs) =
    if leb b'0' c && leb c b'9' then digits_value (n * 10 + (c - b'0')) cs else n

negate : ℕ → ℤ
negate zero = pos 0
negate (suc n) = negsuc n

-- `atoi` of the C library; a number out of the range of `int` is undefined.
unfoldable pub atoi : Bytes → Outcome ℤ
unfolding digits_value negate
atoi [] = ok (pos 0)
atoi (c ∷ cs) =
    let signed = digits_value 0 cs in
    let plain = digits_value 0 (c ∷ cs) in
    let skipped = atoi cs in
    if is_space c
    then skipped
    else if c == b'-'
    then (if leb signed (2 ^ 31) then ok (negate signed) else fault undefined)
    else if c == b'+'
    then (if ltb signed (2 ^ 31) then ok (pos signed) else fault undefined)
    else (if ltb plain (2 ^ 31) then ok (pos plain) else fault undefined)

-- The decimal digits of a number, at most `fuel` of them.
unfoldable pub digits : ℕ → ℕ → Bytes
digits zero n = []
digits (suc fuel) n =
    let before = digits fuel (n / 10) in
    let last = b'0' + n % 10 in if ltb n 10 then last ∷ [] else before ++ last ∷ []

-- `%d`: an `int` has ten digits at most.
unfoldable pub decimal : ℤ → Bytes
unfolding digits
decimal (pos n) = digits 10 n
decimal (negsuc n) = b'-' ∷ digits 10 (suc n)

abbrev pub is_unset : ℤ → Bool
is_unset (pos n) = false
is_unset (negsuc n) = n == 0

-- The loop over the headers of a POST: `Content-Length:` in the first 15 bytes of a line sets the
-- length from byte 16 on.
unfoldable pub post_headers : ℕ → Connection → Bytes × ℕ → ℤ → Outcome (Connection × ℤ)
post_headers zero s (buf, numchars) content_length = fault endless
post_headers (suc fuel) s (buf, numchars) content_length =
    let cut = set buf 15 0 in
    let (s', line, count) = get_line s cut 1024 in
    let length' =
      if str_case_eq (c_str cut) (codes "Content-Length:")
      then atoi (c_str (drop 16 cut))
      else ok content_length in
    let more = length' >>= λ n. post_headers fuel s' (line, count) n in
    if ltb 0 numchars && not (str_eq (codes "\n") (c_str buf)) then more else ok (s, content_length)

-- `sprintf` into one of the arrays of 255 bytes.
unfoldable pub in_env : Bytes → Outcome Bytes
in_env text = if ltb (length text) 255 then ok text else fault undefined

-- The environment that the child process sets up; `%s` of a null pointer is undefined.
unfoldable pub child_environment : Bytes → Option Bytes → ℤ → Outcome (List Bytes)
unfolding in_env
child_environment method query content_length = do
  meth_env ← in_env (codes "REQUEST_METHOD=" ++ method)
  second ←
      if str_case_eq method (codes "GET")
      then elim query [ none ↦ fault undefined | some q ↦ in_env (codes "QUERY_STRING=" ++ q) ]
      else in_env (codes "CONTENT_LENGTH=" ++ decimal content_length)
  ok (meth_env ∷ second ∷ [])

-- `recv(client, &c, 1, 0); write(cgi_input[1], &c, 1)`, this many times: what the script gets, and
-- what is unread. When nothing is received `c` stays what it was.
unfoldable pub feed : ℕ → ℕ → Bytes → Bytes × Bytes
feed zero c unread = ([], unread)
feed (suc n) c [] = let (body, unread) = feed n c [] in (c ∷ body, unread)
feed (suc n) c (d ∷ cs) = let (body, unread) = feed n d cs in (d ∷ body, unread)

abbrev pub times : ℤ → ℕ
times (pos n) = n
times (negsuc n) = 0

abbrev pub status_text : Bytes
status_text = codes "HTTP/1.0 200 OK\r\n"

-- Behind the `fork` both processes send the status line, before the child becomes the script. The
-- parent feeds it the body of a POST, and relays what it prints.
unfoldable pub run_script :
    Kernel → ℕ → Bytes → Bytes → Option Bytes → ℤ → Connection → Outcome Connection
unfolding child_environment feed
run_script k c path method query content_length s = do
  env ← child_environment method query content_length
  let parent = send (send s status_text) status_text
  let (body, unread) =
      if str_case_eq method (codes "POST")
      then feed (times content_length) c parent.input
      else ([], parent.input)
  ok (send (record parent { input = unread }) (k.run path env body))

unfoldable pub start_script :
    Kernel → ℕ → Bytes → Bytes → Option Bytes → ℤ → Connection → Outcome Connection
unfolding run_script
start_script k c path method query content_length s =
    if not k.pipe_output
    then ok (cannot_execute s)
    else if not k.pipe_input
    then ok (cannot_execute s)
    else if not k.forks
    then ok (cannot_execute s)
    else run_script k c path method query content_length s

-- The branch for GET.
unfoldable pub get_script :
    Kernel → Bytes → ℕ → Bytes → Bytes → Option Bytes → Connection → Outcome Connection
unfolding start_script
get_script k buf c path method query s = do
  (s', _, _) ← discard (rounds s) s (buf, 1)
  start_script k c path method query (negsuc 0) s'

-- The branch for POST.
unfoldable pub post_script :
    Kernel → Bytes → Bytes → ℕ → Bytes → Bytes → Option Bytes → Connection → Outcome Connection
unfolding post_headers start_script
post_script k buf stack' c path method query s = do
  let (s', line, count) = get_line s buf 1024
  (s'', content_length) ← post_headers (rounds s) s' (line, count) (negsuc 0)
  if is_unset content_length
      then ok (bad_request stack' s'')
      else start_script k c path method query content_length s''

-- `execute_cgi`. `stack` is what its uninitialised `buf` holds, `stack'` that of `bad_request`, and
-- `c` what its uninitialised `c` holds.
unfoldable pub execute_cgi :
    Kernel → Bytes → Bytes → ℕ → Bytes → Bytes → Option Bytes → Connection → Outcome Connection
unfolding get_script post_script start_script
execute_cgi k stack stack' c path method query s =
    let buf = set (set stack 0 b'A') 1 0 in
    if str_case_eq method (codes "GET")
    then get_script k buf c path method query s
    else if str_case_eq method (codes "POST")
    then post_script k buf stack' c path method query s
    else start_script k c path method query (negsuc 0) s
