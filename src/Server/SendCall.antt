-- ===== src/Server/SendCall.antt =====
-- `sendCallFunc` of httpMPtest.cpp, a callback for `TcpSocket::setSendCallBack`.
use zt_http.Common.{
  ◌+◌, ◌≤◌, ◌<◌, ◌≡◌, refl, ap, ◌∙◌, Option, none, some, List, [], ◌∷◌, ◌++◌, arith, Bytes, codes,
  length, take, Outcome, ok, ◌>>=◌,
}
use zt_http.Buffer.{IoBuffer, Chunk, null, append_data, u32_mod}
use zt_http.Buffer.Stream.{IsValid, contents, append_data_lem}
use zt_http.CText.{c_str}
use zt_http.SimHttp.{store_text}

-- The texts that are copied into `data`, each to its start.
abbrev copied_texts : List Bytes
copied_texts =
    codes "HTTP/1.0 200 OK\r\n"
    ∷ codes "Server: jdbhttpd/0.1.0\r\n"
    ∷ codes "Content-Type: text/html\r\n"
    ∷ codes "\r\n"
    ∷ codes "<HTML><TITLE>Not Found</TITLE>\r\n"
    ∷ codes "<BODY><P>The server could not fulfill\r\n"
    ∷ codes "your request because the resource specified\r\n"
    ∷ codes "is unavailable or nonexistent.\r\n"
    ∷ codes "</BODY></HTML>\r\n"
    ∷ []

copy_each : List Bytes → Bytes → Bytes
copy_each [] array = array
copy_each (text ∷ texts) array = copy_each texts (store_text text array)

-- `sendCallFunc(buf)`; `stack` is the uninitialised array of 2048
-- bytes, and `none` an object of another class, for
-- which a line is printed. It returns the null pointer.
unfoldable pub send_call_func : Bytes → Option IoBuffer → Outcome (Option IoBuffer × Chunk)
unfolding copy_each
send_call_func stack none = ok (none, null)
send_call_func stack (some b) = do
  let array = copy_each copied_texts stack
  b' ← append_data b 1 array (length (c_str array) + 1)
  ok (some b', null)

-- Whatever the array holds: `sendCallFunc` appends the last of its nine texts and the NUL behind it to a
-- valid buffer with room for these 17 bytes, nothing of the eight texts before, and returns the null
-- pointer.
pub send_call_func_lem :
    (stack : Bytes) (b : IoBuffer)
    → IsValid b
    → b.size + 17 < u32_mod
    → (b' : IoBuffer) × (send_call_func stack (some b) ≡ ok (some b', null))
      × (contents b' ≡ contents b ++ (codes "</BODY></HTML>\r\n" ++ 0 ∷ []))
      × IsValid b'
unfolding send_call_func c_str
send_call_func_lem stack b v fits =
    let bytes = copy_each copied_texts stack in
    let inside : 17 ≤ length bytes = omega arith in
    let last : take 17 bytes ≡ codes "</BODY></HTML>\r\n" ++ 0 ∷ [] = refl in
    let (b', run, held, v') = append_data_lem b bytes 17 v inside (omega arith) fits in
    (b', rw run refl, held ∙ ap (λ l. contents b ++ l) last, v')
