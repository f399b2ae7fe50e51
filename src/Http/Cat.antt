-- ===== src/Http/Cat.antt =====
-- What `Http::cat` sends of a file, and what it leaves out.
use zt_http.Common.{
  ℕ, zero, suc, ◌+◌, ◌^◌, ◌≤◌, ◌<◌, ◌≡◌, refl, sym, ap, ◌∙◌, subst, ◌⊎◌, inl, inr, true, [], ◌∷◌,
  ◌++◌, append-nil, append_assoc, subst, arith, Bytes, length, length-append, ok,
}
use zt_http.CText.{fgets_line, fgets, File}
use zt_http.CText.Lines.{
  NoNewline, NoNul, Piece, fgets_line-append, fgets_line-Piece, NoNul-append, c_str_lem,
}
use zt_http.Buffer.{IoBuffer}
use zt_http.Buffer.Stream.{contents, IsValid, append_data_all}
use zt_http.Http.{cat_loop, cat}

-- What `cat` has delivered when it stops: everything but a last piece with no newline.
pub record Delivers (b b' : IoBuffer) (bytes : Bytes) : Type 0 where
  pub lost : Bytes
  pub split : contents b' ++ lost ≡ contents b ++ bytes
  pub no_newline : NoNewline lost
  pub short : length lost < 1023
  pub valid : IsValid b'

-- Fuel for a file of which `rest` is unread.
abbrev Enough : ℕ → Bytes × File → Type 0
Enough fuel (line, f) = (0 < fuel) × ((f.at_eof ≡ true) ⊎ (length f.rest + 1 < fuel))

Enough-next : (fuel : ℕ) (cs : Bytes) → length cs < fuel → Enough fuel (fgets_line 7 cs)
Enough-next fuel cs h =
    grind (arith, fgets_line-Piece 7 cs, ap length (fgets_line-append 7 cs), length-append)

cat_loop-Delivers :
    (fuel room : ℕ) (r : Bytes × File) (b : IoBuffer)
    → room ≤ 1023
    → Piece room r
    → Enough fuel r
    → NoNul (r.0 ++ r.1.rest)
    → IsValid b
    → b.size + length (r.0 ++ r.1.rest) < 2 ^ 31
    → (b' : IoBuffer) × (cat_loop fuel r b ≡ ok b') × Delivers b b' (r.0 ++ r.1.rest)
unfolding cat_loop fgets
cat_loop-Delivers zero room (line, f) b small p enough n v fits = absurd (omega (arith, enough.0))
cat_loop-Delivers (suc fuel) room (line, f) b small (inl (e, r, nl, len)) enough n v fits = (
  b,
  rw e refl,
  record {
    lost = line;
    split = rw r (ap (λ l. contents b ++ l) (sym (append-nil line)));
    no_newline = nl;
    short = omega arith;
    valid = v;
  },
)
cat_loop-Delivers (suc fuel) room (line, f) b small (inr (e, _)) enough n v fits =
    let total = length-append line f.rest in
    let (first, later) = NoNul-append line f.rest n in
    let (b1, run, held, v1) = append_data_all b line v (omega arith) in
    let same = fgets_line-append 7 f.rest in
    let sized : b1.size ≡ b.size + length line =
      v1.counts ∙ ap length held ∙ omega (arith, length-append (contents b) line, v.counts) in
    let (b2, run', d) =
      cat_loop-Delivers fuel 7 (fgets_line 7 f.rest) b1 (omega arith) (fgets_line-Piece 7 f.rest)
        (Enough-next fuel f.rest (ground (arith, enough.1))) (rw same later) v1
        (rw same (omega arith)) in
    (
      b2,
      rw (e, c_str_lem line first) (rw run run'),
      record {
        lost = d.lost;
        split = d.split ∙ rw (same, held) (append_assoc (contents b) line f.rest);
        no_newline = d.no_newline;
        short = d.short;
        valid = d.valid;
      },
    )

-- A file with no NUL byte, and of which, as of every file here, no read fails: `cat` appends it except
-- for a last piece with no newline in it, of at most 1022 bytes.
pub cat-Delivers :
    (file : Bytes) (b : IoBuffer)
    → NoNul file
    → IsValid b
    → b.size + length file < 2 ^ 31
    → (b' : IoBuffer) × (cat file b ≡ ok b') × Delivers b b' file
unfolding cat fgets
cat-Delivers file b n v fits =
    let same = fgets_line-append 1023 file in
    let (b', run, d) =
      cat_loop-Delivers (suc (length file)) 1023 (fgets_line 1023 file) b (omega arith)
        (fgets_line-Piece 1023 file)
        (grind (arith, fgets_line-Piece 1023 file, ap length same, length-append)) (rw same n) v
        (rw same fits) in
    (b', run, rw same at d)

not-NoNewline-concat : (ys : Bytes) → NoNewline (ys ++ b'\n' ∷ []) → ⊥
not-NoNewline-concat [] h = h.0 refl
not-NoNewline-concat (y ∷ ys) h = not-NoNewline-concat ys h.1

append-eq_nil : (xs ys : Bytes) → xs ++ ys ≡ [] → ys ≡ []
append-eq_nil [] ys e = e
append-eq_nil (x ∷ xs) ys e = cc

nothing_lost : (xs lost ys : Bytes) → NoNewline lost → xs ++ lost ≡ ys ++ b'\n' ∷ [] → lost ≡ []
nothing_lost [] lost ys n e = absurd (not-NoNewline-concat ys (subst NoNewline e n))
nothing_lost (x ∷ xs) lost [] n e = append-eq_nil xs lost (cc)
nothing_lost (x ∷ xs) lost (y ∷ ys) n e = nothing_lost xs lost ys n (cc)

-- A file with no NUL byte that ends in a newline is appended whole.
pub cat_whole :
    (body : Bytes) (b : IoBuffer)
    → NoNul (body ++ b'\n' ∷ [])
    → IsValid b
    → b.size + length (body ++ b'\n' ∷ []) < 2 ^ 31
    → (b' : IoBuffer) × (cat (body ++ b'\n' ∷ []) b ≡ ok b')
      × (contents b' ≡ contents b ++ (body ++ b'\n' ∷ []))
      × IsValid b'
cat_whole body b n v fits =
    let (b', run, d) = cat-Delivers (body ++ b'\n' ∷ []) b n v fits in
    let whole =
      nothing_lost (contents b') d.lost (contents b ++ body) d.no_newline
        (d.split ∙ sym (append_assoc (contents b) body (b'\n' ∷ []))) in
    (
      b',
      run,
      sym (append-nil (contents b')) ∙ ap (λ l. contents b' ++ l) (sym whole) ∙ d.split,
      d.valid,
    )
