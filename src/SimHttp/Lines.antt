-- ===== src/SimHttp/Lines.antt =====
-- `get_line` against `fgets`: what it reads is a line of the input in which every CR LF and CR is LF.
use zt_http.Common.{
  ℕ, zero, suc, ◌-◌, ◌≤◌, ◌<◌, ◌≡◌, refl, ap, inl, inr, Bool, true, false, ◌&&◌, [], ◌∷◌, arith,
  Bytes, length, ◌==◌, if◌then◌else◌, Bool-cases,
}
use zt_http.CText.{fgets_line, fgets}
use zt_http.SimHttp.{Connection, newline_of, receive_line, get_line, store_text}

-- The input with one kind of newline; the flag tells that a CR came before.
unfoldable pub one_newline : Bool → Bytes → Bytes
one_newline after [] = []
one_newline after (c ∷ cs) =
    if after && c == b'\n'
    then one_newline false cs
    else if c == b'\r'
    then b'\n' ∷ one_newline true cs
    else c ∷ one_newline false cs

newline_of-one_newline :
    (c : ℕ) (cs : Bytes)
    → one_newline false (c ∷ cs) ≡ (newline_of c cs).0 ∷ one_newline false (newline_of c cs).1
unfolding one_newline newline_of
newline_of-one_newline c [] = ground arith
newline_of-one_newline c (d ∷ cs) = ground arith

-- One call stores the line that `fgets` would read from the input with its newlines made LF, and
-- leaves the rest of it.
receive_line-fgets_line :
    (room : ℕ) (cs : Bytes)
    → ((receive_line room cs).0 ≡ (fgets_line room (one_newline false cs)).0)
      × (one_newline false (receive_line room cs).1
          ≡ (fgets_line room (one_newline false cs)).1.rest)
unfolding receive_line fgets_line one_newline
receive_line-fgets_line zero cs = (refl, refl)
receive_line-fgets_line (suc room) [] = (refl, refl)
receive_line-fgets_line (suc room) (c ∷ cs) =
    let (same, left) = receive_line-fgets_line room (newline_of c cs).1 in
    rw (newline_of-one_newline c cs) (elim (Bool-cases ((newline_of c cs).0 == b'\n')) [
      | inl end ↦ rw end (refl, refl)
      | inr more ↦ rw more (ap (λ l. (newline_of c cs).0 ∷ l) same, left)
    ])

receive_line-length : (room : ℕ) (cs : Bytes) → length (receive_line room cs).0 ≤ room
unfolding receive_line
receive_line-length zero cs = omega arith
receive_line-length (suc room) [] = omega arith
receive_line-length (suc room) (c ∷ cs) =
    ground (arith, receive_line-length room (newline_of c cs).1)

-- `get_line` into an array of the given size stores a string and its NUL within the array, and its
-- result is the string's length. The string is the line that `fgets` would read with that size from
-- the input in which every CR LF and every CR is LF; what is unread afterwards, with its newlines
-- made LF, is what `fgets` would leave.
pub get_line-fgets :
    (s : Connection) (buf : Bytes) (size : ℕ)
    → 0 < size
    → (line unread : Bytes) × (get_line s buf size
        ≡ (record s { input = unread }, store_text line buf, length line))
      × (line ≡ (fgets size (one_newline false s.input)).0)
      × (one_newline false unread ≡ (fgets size (one_newline false s.input)).1.rest)
      × (length line < size)
unfolding get_line fgets
get_line-fgets s buf size room =
    let (same, left) = receive_line-fgets_line (size - 1) s.input in
    let short = receive_line-length (size - 1) s.input in
    (
      (receive_line (size - 1) s.input).0,
      (receive_line (size - 1) s.input).1,
      refl,
      same,
      left,
      omega arith,
    )
