-- ===== src/SimHttp/Posts.antt =====
-- The headers of a POST, and what follows by the length that they give.
use zt_http.Common.{
  ◌≡◌, refl, ℤ, negsuc, Option, List, ◌++◌, arith, Bytes, codes, set, if◌then◌else◌, Outcome, ok,
  fault, ◌>>=◌,
}
use zt_http.SimHttp.{Connection, rounds}
use zt_http.SimHttp.Discard.{AreHeaders, block}
use zt_http.SimHttp.Cgi.{Kernel, start_script, post_script, execute_cgi, is_unset}
use zt_http.SimHttp.Accept.{Stack}
use zt_http.CText.{str_case_eq}
use zt_http.SimHttp.Replies.{bad_request}
use zt_http.SimHttp.Requests.{rounds_enough}
use zt_http.SimHttp.Lengths.{NoNuls, content_length, read_on, read_on-content_length}

-- What `execute_cgi` does for a POST once its headers are read, by the length that they give.
unfoldable pub by_length :
    Kernel → Stack → Bytes → Option Bytes → Connection → ℤ → Outcome Connection
by_length k stack path query s n =
    if is_unset n
    then ok (bad_request stack.reply_buf s)
    else start_script k stack.c path (codes "POST") query n s

sized_once :
    (sized : Outcome ℤ) (s : Connection) (f : Connection → ℤ → Outcome Connection)
    → (◌>>=◌ {A = Connection × ℤ} (sized >>= λ n. ok (s, n)) (λ r. f r.0 r.1)) ≡ (sized >>= f s)
sized_once (ok n) s f = refl
sized_once (fault e) s f = refl

pub execute_post :
    (k : Kernel) (stack : Stack) (path : Bytes) (query : Option Bytes) (s : Connection)
    → (texts : List Bytes) (body : Bytes) → AreHeaders texts
    → NoNuls texts
    → s.input ≡ block texts ++ body
    → execute_cgi k stack.callee_buf stack.reply_buf stack.c path (codes "POST") query s ≡ (
        content_length (negsuc 0) texts
        >>= by_length k stack path query (record s { input = body }))
unfolding execute_cgi post_script by_length str_case_eq
execute_post k stack path query s texts body h nul held =
    let buf = set (set stack.callee_buf 0 b'A') 1 0 in
    let read : read_on (rounds s) s buf (negsuc 0)
        ≡ (content_length (negsuc 0) texts >>= λ m. ok (record s { input = body }, m)) =
      read_on-content_length (rounds s) texts s buf (negsuc 0) body
        (omega (arith, rounds_enough texts body s held)) h nul held in
    rw read (
      sized_once (content_length (negsuc 0) texts) (record s { input = body })
        (λ c n. by_length k stack path query c n))
