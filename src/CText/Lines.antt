-- ===== src/CText/Lines.antt =====
-- What one `fgets` takes from a file.
use zt_http.Common.{
  ℕ, zero, suc, ◌<◌, ◌≡◌, refl, ◌≢◌, ◌⊎◌, inl, inr, true, false, [], ◌∷◌, ◌++◌, arith, Bytes,
  length, take, ◌==◌, Bool-cases,
}
use zt_http.CText.{c_str, has_nul, fgets_line, File}

abbrev pub NoNewline : Bytes → Type 0
NoNewline [] = Unit
NoNewline (c ∷ cs) = (c ≢ b'\n') × NoNewline cs

abbrev pub NoNul : Bytes → Type 0
NoNul [] = Unit
NoNul (c ∷ cs) = (0 < c) × NoNul cs

-- The end was met, on a last piece with no newline; or a piece of one byte at least was read.
abbrev pub Piece : ℕ → Bytes × File → Type 0
Piece room (line, f) =
    ((f.at_eof ≡ true) × (f.rest ≡ []) × NoNewline line × (length line < room))
    ⊎ ((f.at_eof ≡ false) × ((room ≡ 0) ⊎ (0 < length line)))

pub fgets_line-append :
    (room : ℕ) (cs : Bytes) → (fgets_line room cs).0 ++ (fgets_line room cs).1.rest ≡ cs
unfolding fgets_line
fgets_line-append zero cs = refl
fgets_line-append (suc room) [] = refl
fgets_line-append (suc room) (c ∷ cs) = ground (arith, fgets_line-append room cs)

pub fgets_line-Piece : (room : ℕ) (cs : Bytes) → Piece room (fgets_line room cs)
unfolding fgets_line
fgets_line-Piece zero cs = inr (refl, inl refl)
fgets_line-Piece (suc room) [] = inl (refl, refl, tt, omega arith)
fgets_line-Piece (suc room) (c ∷ cs) = elim (Bool-cases (c == b'\n')) [
  | inl end ↦ rw end (inr (refl, inr (omega arith)))
  | inr more ↦ elim (fgets_line-Piece room cs) [
    | inl (e, r, n, l) ↦ rw more (inl (e, r, (ground arith, n), omega arith))
    | inr (e, _) ↦ rw more (inr (e, inr (omega arith)))
  ]
]

pub NoNul-append : (xs ys : Bytes) → NoNul (xs ++ ys) → NoNul xs × NoNul ys
NoNul-append [] ys h = (tt, h)
NoNul-append (x ∷ xs) ys h = let (a, b) = NoNul-append xs ys h.1 in ((h.0, a), b)

pub c_str_lem : (cs : Bytes) → NoNul cs → c_str cs ≡ cs
unfolding c_str
c_str_lem [] h = refl
c_str_lem (c ∷ cs) h = ground (arith, c_str_lem cs h.1)

pub has_nul-take : (n : ℕ) (c : Bytes) → has_nul (take n c) ≡ true → has_nul c ≡ true
unfolding has_nul
has_nul-take zero c h = cc
has_nul-take (suc n) [] h = h
has_nul-take (suc n) (x ∷ c) h = elim (Bool-cases (x == 0)) [
  | inl e ↦ rw e refl
  | inr e ↦ rw e (has_nul-take n c (rw e at h))
]

pub NoNul-has_nul : (c : Bytes) → NoNul c → has_nul c ≡ false
unfolding has_nul
NoNul-has_nul [] h = refl
NoNul-has_nul (x ∷ c) h =
    let e : (x == 0) ≡ false = ground (arith, h.0) in rw e (NoNul-has_nul c h.1)

pub NoNul-concat : (xs ys : Bytes) → NoNul xs → NoNul ys → NoNul (xs ++ ys)
NoNul-concat [] ys h k = k
NoNul-concat (x ∷ xs) ys h k = (h.0, NoNul-concat xs ys h.1 k)

-- Behind a NUL nothing is read.
pub c_str-nul : (cs rest : Bytes) → NoNul cs → c_str (cs ++ 0 ∷ rest) ≡ cs
unfolding c_str
c_str-nul [] rest h = refl
c_str-nul (c ∷ cs) rest h = ground (arith, c_str-nul cs rest h.1)

pub has_nul-nul : (cs rest : Bytes) → has_nul (cs ++ 0 ∷ rest) ≡ true
unfolding has_nul
has_nul-nul [] rest = refl
has_nul-nul (c ∷ cs) rest = ground (arith, has_nul-nul cs rest)
