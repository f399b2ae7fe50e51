-- ===== src/SimHttp/Discard.antt =====
-- Reading and discarding the headers of a request.
use zt_http.Common.{
  ap, ℕ, zero, suc, ◌+◌, ◌≤◌, ◌<◌, ◌≡◌, refl, ◌∙◌, ◌≢◌, inl, inr, Bool, true, not, ◌&&◌, List, [],
  ◌∷◌, ◌++◌, append_assoc, arith, Bytes, codes, length, ltb, Bool-cases, ok,
}
use zt_http.CText.{str_eq, c_str}
use zt_http.SimHttp.{Connection, newline_of, receive_line, get_line, discard, store_text}

pub receive_line_shrinks :
    (room c : ℕ) (cs : Bytes) → length (receive_line (suc room) (c ∷ cs)).1 ≤ length cs
unfolding receive_line newline_of
receive_line_shrinks zero c [] = ground arith
receive_line_shrinks zero c (d ∷ cs) = ground arith
receive_line_shrinks (suc room) c [] = ground arith
receive_line_shrinks (suc room) c (d ∷ []) = ground (arith, receive_line_shrinks room d [])
receive_line_shrinks (suc room) c (d ∷ e ∷ cs) =
    ground (arith, receive_line_shrinks room d (e ∷ cs), receive_line_shrinks room e cs)

pub still_enough :
    (room c fuel : ℕ) (cs : Bytes)
    → length (c ∷ cs) + 2 ≤ suc fuel
    → length (receive_line (suc room) (c ∷ cs)).1 + 2 ≤ fuel
still_enough room c fuel cs h = omega (arith, receive_line_shrinks room c cs)

-- With two rounds more than bytes to receive, the loop ends.
pub discard_ends :
    (fuel : ℕ) (input output : Bytes) (closed : Bool) (buf : Bytes) (n : ℕ)
    → length input + 2 ≤ fuel
    → (r : Connection × Bytes × ℕ) × (discard fuel
          (record { input = input; output = output; closed = closed })
          (buf, n)
        ≡ ok r)
unfolding discard get_line
discard_ends zero input output closed buf n enough = absurd (omega arith)
discard_ends (suc zero) input output closed buf n enough = absurd (omega arith)
discard_ends (suc (suc fuel)) [] output closed buf n enough =
    let s : Connection = record { input = []; output = output; closed = closed } in
    elim (Bool-cases (ltb 0 n && not (str_eq (codes "\n") (c_str buf)))) [
      | inl more ↦ ((s, store_text [] buf, 0), rw more refl)
      | inr done ↦ ((s, buf, n), rw done refl)
    ]
discard_ends (suc (suc fuel)) (c ∷ cs) output closed buf n enough =
    let s : Connection = record { input = c ∷ cs; output = output; closed = closed } in
    elim (Bool-cases (ltb 0 n && not (str_eq (codes "\n") (c_str buf)))) [
      | inl more ↦
          let (line, unread) = receive_line 1023 (c ∷ cs) in
          let (r, run) =
            discard_ends (suc fuel) unread output closed (store_text line buf) (length line)
              (still_enough 1022 c (suc fuel) cs enough) in
          (r, rw more run)
      | inr done ↦ ((s, buf, n), rw done refl)
    ]

abbrev pub NoBreak : Bytes → Type 0
NoBreak [] = Unit
NoBreak (c ∷ cs) = (c ≢ b'\r') × (c ≢ b'\n') × NoBreak cs

newline_of_plain : (c : ℕ) (cs : Bytes) → c ≢ b'\r' → newline_of c cs ≡ (c, cs)
unfolding newline_of
newline_of_plain c [] ne = ground arith
newline_of_plain c (d ∷ cs) ne = ground arith

receive_line_crlf :
    (room : ℕ) (text rest : Bytes)
    → NoBreak text
    → length text < room
    → receive_line room (text ++ b'\r' ∷ b'\n' ∷ rest) ≡ (text ++ b'\n' ∷ [], rest)
unfolding receive_line newline_of
receive_line_crlf zero text rest n h = absurd (omega arith)
receive_line_crlf (suc room) [] rest n h = refl
receive_line_crlf (suc room) (c ∷ text) rest n h =
    rw
      (
        newline_of_plain c (text ++ b'\r' ∷ b'\n' ∷ rest) n.0,
        receive_line_crlf room text rest n.2 (omega arith),
      )
      (ground (arith, n.1))

-- A line that ends in CR LF is read whole.
pub get_line_crlf :
    (s : Connection) (buf text rest : Bytes)
    → s.input ≡ text ++ b'\r' ∷ b'\n' ∷ rest
    → NoBreak text
    → length text < 1023
    → get_line s buf 1024 ≡ (
      record s { input = rest },
      store_text (text ++ b'\n' ∷ []) buf,
      length (text ++ b'\n' ∷ []),
    )
unfolding get_line
get_line_crlf s buf text rest held whole fits =
    ap (λ r. (record s { input = r.1 }, store_text r.0 buf, length r.0))
      (ap (receive_line 1023) held ∙ receive_line_crlf 1023 text rest whole fits)

-- A header, as the loop sees it: not empty, short enough for the array, with no newline in it.
abbrev IsHeader : Bytes → Type 0
IsHeader text = (0 < length text) × (length text < 1023) × NoBreak text

abbrev pub AreHeaders : List Bytes → Type 0
AreHeaders [] = Unit
AreHeaders (text ∷ texts) = IsHeader text × AreHeaders texts

-- The headers, each with its CR LF, and the blank line behind them.
abbrev pub block : List Bytes → Bytes
block [] = codes "\r\n"
block (text ∷ texts) = text ++ b'\r' ∷ b'\n' ∷ block texts

discard_line :
    (fuel : ℕ) (s : Connection) (buf : Bytes) (n : ℕ) (text rest : Bytes)
    → s.input ≡ text ++ b'\r' ∷ b'\n' ∷ rest
    → NoBreak text
    → length text < 1023
    → (ltb 0 n && not (str_eq (codes "\n") (c_str buf))) ≡ true
    → discard (suc fuel) s (buf, n)
      ≡ discard fuel
          (record s { input = rest })
          (store_text (text ++ b'\n' ∷ []) buf, length (text ++ b'\n' ∷ []))
unfolding discard get_line
discard_line fuel s buf n text rest held nb short go =
    rw (go, held, receive_line_crlf 1023 text rest nb short) refl

pub header_goes_on :
    (c : ℕ) (cs buf : Bytes)
    → c ≢ b'\n'
    → (ltb 0 (length (c ∷ cs ++ b'\n' ∷ []))
        && not (str_eq (codes "\n") (c_str (store_text (c ∷ cs ++ b'\n' ∷ []) buf))))
      ≡ true
unfolding str_eq c_str
header_goes_on c cs buf ne = ground arith

-- From a line that is not blank on, the loop takes the headers and the blank line behind them, and
-- leaves what follows.
pub discard-block :
    (fuel : ℕ) (texts : List Bytes) (s : Connection) (buf : Bytes) (n : ℕ) (body : Bytes)
    → length texts + 1 < fuel
    → AreHeaders texts
    → s.input ≡ block texts ++ body
    → (ltb 0 n && not (str_eq (codes "\n") (c_str buf))) ≡ true
    → (buf' : Bytes) × (discard fuel s (buf, n) ≡ ok (record s { input = body }, buf', 1))
unfolding discard str_eq c_str
discard-block zero texts s buf n body enough h held go = absurd (omega arith)
discard-block (suc zero) texts s buf n body enough h held go = absurd (omega arith)
discard-block (suc (suc fuel)) [] s buf n body enough h held go =
    (store_text (b'\n' ∷ []) buf, discard_line (suc fuel) s buf n [] body held tt (omega arith) go)
discard-block (suc (suc fuel)) ([] ∷ texts) s buf n body enough h held go =
    absurd (omega (arith, h.0.0))
discard-block (suc (suc fuel)) ((c ∷ cs) ∷ texts) s buf n body enough h held go =
    let text : Bytes = c ∷ cs in
    let rest = block texts ++ body in
    let apart = append_assoc text (b'\r' ∷ b'\n' ∷ block texts) body in
    let (buf', run) =
      discard-block (suc fuel) texts (record s { input = rest })
        (store_text (text ++ b'\n' ∷ []) buf) (length (text ++ b'\n' ∷ [])) body (omega arith) h.1
        refl (header_goes_on c cs buf h.0.2.1) in
    (buf', discard_line (suc fuel) s buf n text rest (held ∙ apart) h.0.2 h.0.1 go ∙ run)
