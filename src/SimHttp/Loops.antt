-- ===== src/SimHttp/Loops.antt =====
-- The loops of simHttp.cpp, and the rounds that the model allows to each.
use zt_http.Common.{
  ℕ, zero, suc, ◌+◌, ◌^◌, ◌≤◌, ◌<◌, ◌≡◌, refl, sym, ◌∙◌, subst, ◌≢◌, ◌⊎◌, inl, inr, Bool, true,
  false, not, ◌&&◌, ℤ, [], ◌∷◌, arith, Bytes, codes, length, set, drop, ltb, leb, ◌==◌,
  if◌then◌else◌, Bool-cases, undefined, aborted, out_of_range, endless, Outcome, ok, fault, ◌>>=◌,
}
use zt_http.CText.{str_eq, c_str, str_case_eq, fgets, fgets_line, File, is_space}
use zt_http.SimHttp.{send, Connection, receive_line, get_line, discard, rounds, store_text}
use zt_http.SimHttp.Cgi.{atoi, post_headers, digits_value}
use zt_http.SimHttp.Discard.{receive_line_shrinks, discard_ends, still_enough}
use zt_http.SimHttp.Replies.{cat_loop}

-- The loops do not run out of their rounds.
abbrev pub Ends {ℓ} : {A : Type ℓ} → Outcome A → Type 0
Ends (ok a) = Unit
Ends (fault endless) = ⊥
Ends (fault _) = Unit

pub bind-Ends {ℓ κ} :
    {A : Type ℓ} {B : Type κ} (m : Outcome A) (f : A → Outcome B)
    → Ends m
    → ((a : A) → Ends (f a))
    → Ends (m >>= f)
bind-Ends (ok a) f h k = k a
bind-Ends (fault endless) f h k = h
bind-Ends (fault undefined) f h k = tt
bind-Ends (fault aborted) f h k = tt
bind-Ends (fault out_of_range) f h k = tt

pub if-Ends {ℓ} :
    {A : Type ℓ} (b : Bool) (x y : Outcome A) → Ends x → Ends y → Ends (if b then x else y)
if-Ends true x y h k = h
if-Ends false x y h k = k

pub discard-Ends : (s : Connection) (line : Bytes × ℕ) → Ends (discard (rounds s) s line)
discard-Ends s line =
    let (r, run) = discard_ends (rounds s) s.input s.output s.closed line.0 line.1 (omega arith) in
    subst Ends (sym run) tt

atoi-Ends : (text : Bytes) → Ends (atoi text)
unfolding atoi
atoi-Ends [] = tt
atoi-Ends (c ∷ cs) = if-Ends (is_space c) _ _ (atoi-Ends cs) (
    if-Ends (c == b'-') _ _ (if-Ends (leb (digits_value 0 cs) (2 ^ 31)) _ _ tt tt) (
      if-Ends (c == b'+') _ _ (if-Ends (ltb (digits_value 0 cs) (2 ^ 31)) _ _ tt tt)
        (if-Ends (ltb (digits_value 0 (c ∷ cs)) (2 ^ 31)) _ _ tt tt)))

header-Ends :
    (cut : Bytes) (n : ℤ)
    → Ends (
        if str_case_eq (c_str cut) (codes "Content-Length:")
        then atoi (c_str (drop 16 cut))
        else ok n)
header-Ends cut n =
    if-Ends (str_case_eq (c_str cut) (codes "Content-Length:")) _ _
      (atoi-Ends (c_str (drop 16 cut))) tt

pub post_headers-Ends :
    (fuel : ℕ) (input output : Bytes) (closed : Bool) (buf : Bytes) (count : ℕ) (n : ℤ)
    → length input + 2 ≤ fuel
    → Ends (
        post_headers fuel
          (record { input = input; output = output; closed = closed })
          (buf, count)
          n)
unfolding post_headers get_line
post_headers-Ends zero input output closed buf count n enough = absurd (omega arith)
post_headers-Ends (suc zero) input output closed buf count n enough = absurd (omega arith)
post_headers-Ends (suc (suc fuel)) [] output closed buf count n enough =
    if-Ends (ltb 0 count && not (str_eq (codes "\n") (c_str buf))) _ _
      (bind-Ends _ _ (header-Ends (set buf 15 0) n) λ m. tt) tt
post_headers-Ends (suc (suc fuel)) (c ∷ cs) output closed buf count n enough =
    let (line, unread) = receive_line 1023 (c ∷ cs) in
    if-Ends (ltb 0 count && not (str_eq (codes "\n") (c_str buf))) _ _
      (bind-Ends _ _ (header-Ends (set buf 15 0) n) λ m.
        post_headers-Ends (suc fuel) unread output closed (store_text line (set buf 15 0))
          (length line) m (still_enough 1022 c (suc fuel) cs enough))
      tt

pub line_within : (room : ℕ) (cs : Bytes) → length (receive_line (suc room) cs).1 ≤ length cs
unfolding receive_line
line_within room [] = omega arith
line_within room (c ∷ cs) = omega (arith, receive_line_shrinks room c cs)

pub still_left : (n fuel : ℕ) → n + 2 ≤ fuel → (m : ℕ) → m ≤ n → m + 2 ≤ fuel
still_left n fuel h m k = omega arith

fgets_within :
    (room c : ℕ) (cs : Bytes) → length (fgets_line (suc room) (c ∷ cs)).1.rest ≤ length cs
unfolding fgets_line
fgets_within zero c cs = ground arith
fgets_within (suc room) c [] = ground arith
fgets_within (suc room) c (d ∷ cs) = ground (arith, fgets_within room d cs)

-- The end of the file was met, or a round is left for each byte and two more.
abbrev HasRounds : ℕ → File → Type 0
HasRounds fuel f = ((f.at_eof ≡ true) × (0 < fuel)) ⊎ (length f.rest + 1 < fuel)

left_behind :
    (room fuel : ℕ) (cs : Bytes)
    → length cs + 1 < suc fuel
    → HasRounds fuel (fgets_line (suc room) cs).1
unfolding fgets_line
left_behind room fuel [] h = inl (refl, omega arith)
left_behind room fuel (c ∷ cs) h = inr (omega (arith, fgets_within room c cs))

pub next_left :
    (fuel : ℕ) (cs : Bytes) → length cs + 1 < suc fuel → HasRounds fuel (fgets 1024 cs).1
unfolding fgets
next_left fuel cs h = left_behind 1022 fuel cs h

true-ne-false : true ≢ false
true-ne-false e = cc

room_left : (fuel : ℕ) (f : File) → f.at_eof ≡ false → HasRounds fuel f → length f.rest + 1 < fuel
room_left fuel f more (inl (met, _)) = absurd (true-ne-false (sym met ∙ more))
room_left fuel f more (inr room) = room

some_left : (fuel : ℕ) (f : File) → HasRounds fuel f → 0 < fuel
some_left fuel f (inl (_, room)) = room
some_left fuel f (inr room) = omega arith

pub cat_loop-Ends :
    (fuel : ℕ) (line : Bytes) (f : File) (s : Connection)
    → HasRounds fuel f
    → Ends (cat_loop fuel (line, f) s)
unfolding cat_loop
cat_loop-Ends zero line f s left = absurd (omega (arith, some_left zero f left))
cat_loop-Ends (suc fuel) line f s left = elim (Bool-cases f.at_eof) [
  | inl met ↦ rw met tt
  | inr more ↦
      let next = fgets 1024 f.rest in
      rw more (
        cat_loop-Ends fuel next.0 next.1 (send s (c_str line))
          (next_left fuel f.rest (room_left (suc fuel) f more left)))
]
