-- ===== src/Libevent.antt =====
-- ztHttp/ztHttp/httpParse.cpp, a server over libevent: its handler of requests. What
-- libevent answers is an argument. Texts but that of the input buffer are without the NUL that ends
-- them; `none` is a null pointer.
pub mod Handler
pub mod Main
pub mod Settings
use zt_http.Common.{
  ℕ, zero, suc, ◌+◌, ◌-◌, ◌*◌, ◌/◌, ◌%◌, ◌^◌, ◌≤◌, ◌<◌, min, max, ◌≡◌, refl, sym, ap, ◌∙◌, subst,
  fun_ext, ◌≢◌, ◌↔◌, ◌⊎◌, inl, inr, Bool, true, false, not, ◌&&◌, ◌||◌, bit_and, bit_or, ℤ, pos,
  negsuc, succ_ℤ, pred_ℤ, is_nonzero, Option, none, some, List, [], ◌∷◌, ◌++◌, map, append-nil,
  append_assoc, arith, Bytes, codes, length, get_or, set, take, drop, length-append, length-take,
  length-drop, take-append-drop, take_all, drop_all, take-append, drop-append, length-set, ltb, leb,
  ◌==◌, if◌then◌else◌, ==_iff, Bool-cases, Option-cases, if_cases, Fault, undefined, aborted,
  out_of_range, endless, Outcome, ok, fault, ◌>>=◌, Holds, bind-Holds, bind-Holds_of,
}
use zt_http.CText.{c_str, has_nul}

-- What libevent gives for a request: the URI, the same decoded, the values of the parameters of the
-- query, and the bytes of the input buffer, which libevent does not end by a NUL.
pub record Received : Type 0 where
  pub uri : Bytes
  pub decoded_uri : Bytes
  pub find_header : Bytes → Option Bytes
  pub post_data : Option Bytes

-- What is handed to libevent.
pub record Reply : Type 0 where
  pub headers : List (Bytes × Bytes)
  pub code : ℕ
  pub reason : Bytes
  pub body : Bytes

-- The sizes of the arrays `tmp` and `output`.
abbrev pub tmp_size : ℕ
tmp_size = 1024

abbrev pub output_size : ℕ
output_size = 2048

-- `sprintf(tmp, "label=%s\n", text)` and `strcat(output, tmp)`: the text in `output` afterwards. `%s`
-- reads up to a NUL. A null text, and a text that with its NUL does not fit its array, is undefined behaviour.
unfoldable pub add_line : Bytes → Option Bytes → Bytes → Outcome Bytes
add_line label none output = fault undefined
add_line label (some text) output =
    let tmp = label ++ c_str text ++ codes "\n" in
    if leb tmp_size (length tmp) || leb output_size (length (output ++ tmp))
    then fault undefined
    else ok (output ++ tmp)

abbrev pub reply : Bytes → Reply
reply output = record {
  headers =
      (codes "Server", codes "myhttpd v 0.0.1")
      ∷ (codes "Content-Type", codes "text/plain; charset=UTF-8")
      ∷ (codes "Connection", codes "close")
      ∷ [];
  code = 200;
  reason = codes "OK";
  body = codes "It works!\n" ++ output ++ codes "\n";
}

-- `EVBUFFER_DATA` as a string: nothing ends the bytes of the buffer but a NUL among them.
abbrev pub body_text : Option Bytes → Outcome (Option Bytes)
body_text none = ok none
body_text (some bytes) = if has_nul bytes then ok (some bytes) else fault undefined

-- The last line and the answer, and what stands before them.
abbrev pub post_line : Received → Bytes → Outcome Reply
post_line req output = do
  text ← body_text req.post_data
  all ← add_line (codes "post_data=") text output
  ok (reply all)

abbrev pub s_line : Received → Bytes → Outcome Reply
s_line req output = add_line (codes "s=") (req.find_header (codes "s")) output >>= post_line req

abbrev pub q_line : Received → Bytes → Outcome Reply
q_line req output = add_line (codes "q=") (req.find_header (codes "q")) output >>= s_line req

-- `httpd_handler`.
unfoldable pub httpd_handler : Received → Outcome Reply
unfolding add_line
httpd_handler req = do
  once ← add_line (codes "uri=") (some req.uri) []
  twice ← add_line (codes "uri=") (some req.uri) once
  decoded ← add_line (codes "decoded_uri=") (some req.decoded_uri) twice
  q_line req decoded
