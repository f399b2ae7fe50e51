-- ===== src/SimHttp/Bodies.antt =====
-- What a script gets of the body of a POST.
use zt_http.Common.{
  ℕ, zero, suc, ◌+◌, ◌/◌, ◌%◌, ◌≤◌, ◌≡◌, refl, ap, ◌∙◌, [], ◌∷◌, ◌++◌, arith, Bytes, length,
  length-append, ltb, if_cases,
}
use zt_http.Common.{repeated}
use zt_http.SimHttp.Cgi.{digits, feed}

pub digits-length : (fuel n : ℕ) → length (digits fuel n) ≤ fuel
unfolding digits
digits-length zero n = omega arith
digits-length (suc fuel) n =
    let last = b'0' + n % 10 in
    if_cases (λ d. length d ≤ suc fuel) (ltb n 10) (last ∷ []) (digits fuel (n / 10) ++ last ∷ [])
      (omega arith)
      (omega (arith, length-append (digits fuel (n / 10)) (last ∷ []), digits-length fuel (n / 10)))

-- What a variable holds that had `c`, once these were received into it one by one.
abbrev pub last_of : ℕ → Bytes → ℕ
last_of c [] = c
last_of c (d ∷ bytes) = last_of d bytes

feed_nothing : (n c : ℕ) → feed n c [] ≡ (repeated n c, [])
unfolding feed
feed_nothing zero c = refl
feed_nothing (suc n) c = ap (λ r. (c ∷ r.0, r.1)) (feed_nothing n c)

pub feed_short :
    (n k c : ℕ) (bytes : Bytes)
    → n ≡ length bytes + k
    → feed n c bytes ≡ (bytes ++ repeated k (last_of c bytes), [])
unfolding feed
feed_short n k c [] e =
    let same : n ≡ k = omega arith in feed_nothing n c ∙ ap (λ m. (repeated m c, [])) same
feed_short zero k c (d ∷ bytes) e = absurd (omega arith)
feed_short (suc n) k c (d ∷ bytes) e =
    ap (λ r. (d ∷ r.0, r.1)) (feed_short n k d bytes (omega arith))
