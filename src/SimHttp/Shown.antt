-- ===== src/SimHttp/Shown.antt =====
-- What `cat` of simHttp.cpp sends of a file.
use zt_http.Common.{
  ℕ, zero, suc, ◌≡◌, refl, sym, ap, ◌∙◌, inl, inr, false, ◌||◌, [], ◌∷◌, ◌++◌, append-nil,
  append_assoc, arith, Bytes, length, ◌==◌, if◌then◌else◌, Bool-cases, Outcome, ok, fault,
}
use zt_http.CText.{c_str, fgets_line, fgets, File}
use zt_http.CText.Lines.{Piece, fgets_line-Piece, NoNul}
use zt_http.SimHttp.{Connection, send}
use zt_http.SimHttp.Replies.{cat_loop, cat}
use zt_http.SimHttp.Sends.{Enough, Enough-next, EndsLine, cat_sends}

-- A piece of a file ends in a newline, or at 1023 bytes; it is sent up to its first NUL. The bytes
-- behind the last end of a piece are left out. `room` is how many bytes the piece can still take.
unfoldable pub shown : ℕ → Bytes → Bytes → Bytes
shown zero piece cs = []
shown (suc room) piece [] = []
shown (suc room) piece (c ∷ cs) =
    let whole = piece ++ c ∷ [] in
    let next = shown 1023 [] cs in
    let more = shown room whole cs in if c == b'\n' || room == 0 then c_str whole ++ next else more

-- What follows once this was read.
abbrev from_piece : Bytes → Bytes × File → Bytes
from_piece piece (line, f) = if f.at_eof then [] else c_str (piece ++ line) ++ shown 1023 [] f.rest

shown-fgets_line :
    (room : ℕ) (piece cs : Bytes)
    → shown (suc room) piece cs ≡ from_piece piece (fgets_line (suc room) cs)
unfolding shown fgets_line
shown-fgets_line room piece [] = refl
shown-fgets_line zero piece (c ∷ cs) = elim (Bool-cases (c == b'\n')) [
  | inl end ↦ rw end refl
  | inr more ↦ rw more refl
]
shown-fgets_line (suc room) piece (c ∷ cs) = elim (Bool-cases (c == b'\n')) [
  | inl end ↦ rw end refl
  | inr more ↦
      let left : (suc room == 0) ≡ false = ground arith in
      let (line, f) = fgets_line (suc room) cs in
      rw (more, left)
        (shown-fgets_line room (piece ++ c ∷ []) cs
          ∙ ap (λ w. if f.at_eof then [] else c_str w ++ shown 1023 [] f.rest)
              (append_assoc piece (c ∷ []) line))
]

cat_loop_shows :
    (fuel room : ℕ) (r : Bytes × File) (s : Connection)
    → Piece room r
    → Enough fuel r
    → cat_loop fuel r s ≡ ok (record s { output = s.output ++ from_piece [] r })
unfolding cat_loop fgets
cat_loop_shows zero room (line, f) s p enough = absurd (omega (arith, enough.0))
cat_loop_shows (suc fuel) room (line, f) s (inl (end, _, _, _)) enough =
    rw end (ap (λ o. ok (record s { output = o })) (sym (append-nil s.output)))
cat_loop_shows (suc fuel) room (line, f) s (inr (more, _)) enough =
    let ih =
      cat_loop_shows fuel 1023 (fgets_line 1023 f.rest) (send s (c_str line))
        (fgets_line-Piece 1023 f.rest) (Enough-next fuel 1022 f.rest (ground (arith, enough.1))) in
    rw more (
      ih
      ∙ ap (λ o. ok (record s { output = (s.output ++ c_str line) ++ o }))
          (sym (shown-fgets_line 1022 [] f.rest))
      ∙ ap (λ o. ok (record s { output = o }))
          (append_assoc s.output (c_str line) (shown 1023 [] f.rest)))

-- Any file.
pub cat_shows :
    (file : Bytes) (s : Connection)
    → cat file s ≡ ok (record s { output = s.output ++ shown 1023 [] file })
unfolding cat fgets
cat_shows file s =
    cat_loop_shows (suc (length file)) 1023 (fgets_line 1023 file) s (fgets_line-Piece 1023 file)
      (Enough-next (suc (length file)) 1022 file (omega arith))
    ∙ ap (λ o. ok (record s { output = s.output ++ o })) (sym (shown-fgets_line 1022 [] file))

output_of : Outcome Connection → Bytes
output_of (ok s) = s.output
output_of (fault e) = []

-- A text is sent whole.
pub shown_text : (file : Bytes) → NoNul file → EndsLine file → shown 1023 [] file ≡ file
unfolding output_of
shown_text file nul ends =
    let s : Connection = record { input = []; output = []; closed = false } in
    ap output_of (sym (cat_shows file s) ∙ cat_sends file s nul ends)
