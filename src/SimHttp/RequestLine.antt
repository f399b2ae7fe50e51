-- ===== src/SimHttp/RequestLine.antt =====
-- The request line as `accept_request` of simHttp.cpp reads it: a method, a word, and a version.
use zt_http.Common.{
  ℕ, ◌+◌, ◌≤◌, ◌<◌, ◌≡◌, ap, ◌∙◌, ◌≢◌, true, not, ◌&&◌, [], ◌∷◌, ◌++◌, append_assoc, arith, Bytes,
  codes, length, drop, length-append, ltb,
}
use zt_http.CText.{is_space, str_eq, c_str}
use zt_http.Request.Parse.{NoSpace}
use zt_http.SimHttp.{Connection, get_line, store_text}
use zt_http.SimHttp.Discard.{NoBreak, get_line_crlf}

pub NoBreak-append : (xs ys : Bytes) → NoBreak xs → NoBreak ys → NoBreak (xs ++ ys)
NoBreak-append [] ys h k = k
NoBreak-append (x ∷ xs) ys h k = (h.0, h.1, NoBreak-append xs ys h.2 k)

pub NoSpace-NoBreak : (xs : Bytes) → NoSpace xs → NoBreak xs
unfolding is_space
NoSpace-NoBreak [] h = tt
NoSpace-NoBreak (x ∷ xs) h = (ground (arith, h.0), ground (arith, h.0), NoSpace-NoBreak xs h.1)

-- The line without its end.
abbrev pub line_text : Bytes → Bytes → Bytes → Bytes
line_text method word version = method ++ b' ' ∷ (word ++ b' ' ∷ version)

-- The line as it is stored.
abbrev pub whole_line : Bytes → Bytes → Bytes → Bytes
whole_line method word version = line_text method word version ++ b'\n' ∷ []

length-line_text :
    (method word version : Bytes)
    → length (line_text method word version) ≡ length method + length word + length version + 2
length-line_text method word version = omega (
  arith,
  length-append method (b' ' ∷ (word ++ b' ' ∷ version)),
  length-append word (b' ' ∷ version),
)

pub length-whole_line :
    (method word version : Bytes)
    → length (whole_line method word version) ≡ length method + length word + length version + 3
length-whole_line method word version = omega (
  arith,
  length-append (line_text method word version) (b'\n' ∷ []),
  length-line_text method word version,
)

-- What is stored stands as the parser wants it.
pub stored_line :
    (method word version buf : Bytes)
    → (tail : Bytes) × (store_text (whole_line method word version) buf
        ≡ method ++ b' ' ∷ (word ++ b' ' ∷ tail))
stored_line method word version buf =
    let end : Bytes = b'\n' ∷ [] in
    let rest = 0 ∷ drop (length (whole_line method word version) + 1) buf in
    let behind : Bytes = b' ' ∷ (word ++ b' ' ∷ version) in
    (
      version ++ (end ++ rest),
      append_assoc (method ++ behind) end rest
          ∙ append_assoc method behind (end ++ rest)
          ∙ ap (λ l. method ++ b' ' ∷ l) (append_assoc word (b' ' ∷ version) (end ++ rest)),
    )

-- The line is read, and what is behind it is unread.
pub request_line :
    (s : Connection) (buf method word version rest : Bytes)
    → s.input ≡ line_text method word version ++ b'\r' ∷ b'\n' ∷ rest
    → NoSpace method
    → NoSpace word
    → NoBreak version
    → length method + length word + length version ≤ 1000
    → get_line s buf 1024 ≡ (
      record s { input = rest },
      store_text (whole_line method word version) buf,
      length (whole_line method word version),
    )
request_line s buf method word version rest held m w v short =
    let blank : NoBreak (b' ' ∷ []) = ground arith in
    get_line_crlf s buf (line_text method word version) rest held
      (NoBreak-append method (b' ' ∷ (word ++ b' ' ∷ version)) (NoSpace-NoBreak method m) (
        blank.0,
        blank.1,
        NoBreak-append word (b' ' ∷ version) (NoSpace-NoBreak word w) (blank.0, blank.1, v),
      ))
      (omega (arith, length-line_text method word version))

-- It is not the blank line that ends the headers.
pub blank_line_behind :
    (c : ℕ) (method word version buf : Bytes)
    → 0 < c
    → c ≢ b'\n'
    → (ltb 0 (length (whole_line (c ∷ method) word version))
        && not
            (str_eq (codes "\n") (c_str (store_text (whole_line (c ∷ method) word version) buf))))
      ≡ true
unfolding str_eq c_str
blank_line_behind c method word version buf some_char no_end = ground (arith, some_char, no_end)
