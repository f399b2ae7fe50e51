-- ===== src/SimHttp/Sends.antt =====
-- What the replies and `cat` add to the output.
use zt_http.Common.{
  ℕ, zero, suc, ◌+◌, ◌*◌, ◌<◌, ◌≡◌, refl, sym, ap, ◌∙◌, subst, ◌⊎◌, inl, inr, true, List, [], ◌∷◌,
  ◌++◌, append-nil, append_assoc, arith, Bytes, length, drop, length-append, length-drop, ok,
}
use zt_http.CText.{fgets_line, fgets, File}
use zt_http.CText.Lines.{
  NoNewline, NoNul, Piece, fgets_line-append, fgets_line-Piece, NoNul-append, c_str_lem,
}
use zt_http.Buffer.Stream.{joined}
use zt_http.SimHttp.{Connection, send, send_each, store_text}
use zt_http.SimHttp.Replies.{cat_loop, cat, bad_request, send_arrays, bad_request_texts}

pub send_each_lem :
    (s : Connection) (texts : List Bytes)
    → send_each s texts ≡ record s { output = s.output ++ joined texts }
send_each_lem s [] = ap (λ o. record s { output = o }) (sym (append-nil s.output))
send_each_lem s (text ∷ texts) =
    send_each_lem (send s text) texts
    ∙ ap (λ o. record s { output = o }) (append_assoc s.output text (joined texts))

-- No bytes, or the last one is a newline.
abbrev pub EndsLine : Bytes → Type 0
EndsLine [] = Unit
EndsLine (c ∷ []) = c ≡ b'\n'
EndsLine (c ∷ d ∷ cs) = EndsLine (d ∷ cs)

EndsLine-append : (xs ys : Bytes) → EndsLine (xs ++ ys) → EndsLine ys
EndsLine-append [] ys h = h
EndsLine-append (x ∷ xs) [] h = tt
EndsLine-append (x ∷ []) (y ∷ ys) h = h
EndsLine-append (x ∷ x' ∷ xs) (y ∷ ys) h = EndsLine-append (x' ∷ xs) (y ∷ ys) h

cons_not_nil : (x : ℕ) (xs : Bytes) → x ∷ xs ≡ [] → ⊥
cons_not_nil x xs e = cc

nothing_left : (xs : Bytes) → NoNewline xs → EndsLine (xs ++ []) → xs ≡ []
nothing_left [] n h = refl
nothing_left (x ∷ []) n h = absurd (n.0 h)
nothing_left (x ∷ y ∷ xs) n h = absurd (cons_not_nil y xs (nothing_left (y ∷ xs) n.1 h))

abbrev pub Enough : ℕ → Bytes × File → Type 0
Enough fuel (line, f) = (0 < fuel) × ((f.at_eof ≡ true) ⊎ (length f.rest + 1 < fuel))

pub Enough-next :
    (fuel room : ℕ) (cs : Bytes) → length cs < fuel → Enough fuel (fgets_line (suc room) cs)
Enough-next fuel room cs h = grind (
  arith,
  fgets_line-Piece (suc room) cs,
  ap length (fgets_line-append (suc room) cs),
  length-append,
)

cat_loop_whole :
    (fuel room : ℕ) (r : Bytes × File) (s : Connection)
    → Piece room r
    → Enough fuel r
    → NoNul (r.0 ++ r.1.rest)
    → EndsLine (r.0 ++ r.1.rest)
    → cat_loop fuel r s ≡ ok (record s { output = s.output ++ (r.0 ++ r.1.rest) })
unfolding cat_loop fgets
cat_loop_whole zero room (line, f) s p enough n e = absurd (omega (arith, enough.0))
cat_loop_whole (suc fuel) room (line, f) s (inl (end, none_left, nl, len)) enough n e =
    let nothing = nothing_left line nl (subst (λ rest. EndsLine (line ++ rest)) none_left e) in
    rw (end, none_left, nothing)
      (ap (λ o. ok (record s { output = o })) (sym (append-nil s.output)))
cat_loop_whole (suc fuel) room (line, f) s (inr (more, _)) enough n e =
    let (first, later) = NoNul-append line f.rest n in
    let same = fgets_line-append 1023 f.rest in
    let ih =
      cat_loop_whole fuel 1023 (fgets_line 1023 f.rest) (send s line) (fgets_line-Piece 1023 f.rest)
        (Enough-next fuel 1022 f.rest (ground (arith, enough.1))) (rw same later)
        (rw same (EndsLine-append line f.rest e)) in
    rw (more, c_str_lem line first)
      (ih ∙ ap (λ o. ok (record s { output = o })) (rw same (append_assoc s.output line f.rest)))

-- A file with no NUL byte whose last line ends in a newline is sent whole.
pub cat_sends :
    (file : Bytes) (s : Connection)
    → NoNul file
    → EndsLine file
    → cat file s ≡ ok (record s { output = s.output ++ file })
unfolding cat fgets
cat_sends file s n e =
    let same = fgets_line-append 1023 file in
    cat_loop_whole (suc (length file)) 1023 (fgets_line 1023 file) s (fgets_line-Piece 1023 file)
      (Enough-next (suc (length file)) 1022 file (omega arith)) (rw same n) (rw same e)
    ∙ ap (λ o. ok (record s { output = s.output ++ o })) same

store_text-length :
    (text buf : Bytes) → length text < length buf → length (store_text text buf) ≡ length buf
store_text-length text buf h =
    omega (
      arith,
      length-append text (0 ∷ drop (length text + 1) buf),
      length-drop (length text + 1) buf,
    )

abbrev AllShorter : List Bytes → ℕ → Type 0
AllShorter [] n = Unit
AllShorter (text ∷ texts) n = (length text < n) × AllShorter texts n

send_arrays-length :
    (s : Connection) (buf : Bytes) (texts : List Bytes)
    → AllShorter texts (length buf)
    → length (send_arrays s buf texts).output ≡ length s.output + length texts * length buf
unfolding send_arrays
send_arrays-length s buf [] h = omega arith
send_arrays-length s buf (text ∷ texts) h =
    let stored = store_text-length text buf h.0 in
    let ih =
      send_arrays-length (send s (store_text text buf)) (store_text text buf) texts
        (rw stored h.1) in
    rw stored at ih
    ∙ ap (λ n. n + length texts * length buf)
        (length-append s.output (store_text text buf) ∙ ap (λ n. length s.output + n) stored)
    ∙ omega arith

-- A bad request is answered by five whole arrays, whatever they hold behind the text.
pub bad_request-length :
    (stack : Bytes) (s : Connection)
    → length stack ≡ 1024
    → length (bad_request stack s).output ≡ length s.output + 5 * 1024
unfolding bad_request
bad_request-length stack s h =
    rw h at (send_arrays-length s stack bad_request_texts (rw h (omega arith)))

send_arrays-input :
    (s : Connection) (buf : Bytes) (texts : List Bytes) → (send_arrays s buf texts).input ≡ s.input
unfolding send_arrays
send_arrays-input s buf [] = refl
send_arrays-input s buf (text ∷ texts) =
    send_arrays-input (send s (store_text text buf)) (store_text text buf) texts

bad_request-input : (stack : Bytes) (s : Connection) → (bad_request stack s).input ≡ s.input
unfolding bad_request
bad_request-input stack s = send_arrays-input s stack bad_request_texts
