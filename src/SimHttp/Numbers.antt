-- ===== src/SimHttp/Numbers.antt =====
-- `%d` and `atoi` against one another.
use zt_http.Common.{
  ℕ, zero, suc, ◌+◌, ◌-◌, ◌*◌, ◌/◌, ◌%◌, ◌^◌, ◌≤◌, ◌<◌, ◌≡◌, refl, sym, ap, ◌∙◌, inl, inr, true,
  pos, [], ◌∷◌, ◌++◌, append-nil, arith, Bytes, length, length-append, ltb, Bool-cases, if_cases,
  ok,
}
use zt_http.CText.{is_space}
use zt_http.SimHttp.Cgi.{digits_value, atoi, digits, decimal}

-- Ten to the power of a number of digits.
abbrev ten_to : ℕ → ℕ
ten_to zero = 1
ten_to (suc n) = 10 * ten_to n

abbrev AreDigits : Bytes → Type 0
AreDigits [] = Unit
AreDigits (c ∷ cs) = (b'0' ≤ c) × (c ≤ b'9') × AreDigits cs

AreDigits-append : (xs ys : Bytes) → AreDigits xs → AreDigits ys → AreDigits (xs ++ ys)
AreDigits-append [] ys h k = k
AreDigits-append (x ∷ xs) ys h k = (h.0, h.1, AreDigits-append xs ys h.2 k)

last_digit : (n : ℕ) → AreDigits ((b'0' + n % 10) ∷ [])
last_digit n = omega arith

digits-AreDigits : (fuel n : ℕ) → AreDigits (digits fuel n)
unfolding digits
digits-AreDigits zero n = tt
digits-AreDigits (suc fuel) n =
    if_cases AreDigits (ltb n 10) ((b'0' + n % 10) ∷ []) _ (last_digit n) (
      AreDigits-append (digits fuel (n / 10)) ((b'0' + n % 10) ∷ [])
        (digits-AreDigits fuel (n / 10)) (last_digit n))

digits_value-append :
    (acc : ℕ) (xs ys : Bytes)
    → AreDigits xs
    → digits_value acc (xs ++ ys) ≡ digits_value (digits_value acc xs) ys
unfolding digits_value
digits_value-append acc [] ys h = refl
digits_value-append acc (x ∷ xs) ys h =
    ground (arith, h.0, h.1, digits_value-append (acc * 10 + (x - 48)) xs ys h.2)

digits_value_one : (acc n : ℕ) → digits_value acc ((b'0' + n % 10) ∷ []) ≡ acc * 10 + n % 10
unfolding digits_value
digits_value_one acc n = ground arith

digits_small : (fuel n : ℕ) → ltb n 10 ≡ true → digits_value 0 (digits (suc fuel) n) ≡ n
unfolding digits
digits_small fuel n small = rw small (digits_value_one 0 n ∙ ground arith)

digits_value-digits :
    (fuel n : ℕ) → n < ten_to (suc fuel) → digits_value 0 (digits (suc fuel) n) ≡ n
unfolding digits
digits_value-digits zero n h = digits_small zero n (ground arith)
digits_value-digits (suc fuel) n h = elim (Bool-cases (ltb n 10)) [
  | inl small ↦ digits_small (suc fuel) n small
  | inr large ↦
      let last = (b'0' + n % 10) ∷ [] in
      rw large (
        digits_value-append 0 (digits (suc fuel) (n / 10)) last
          (digits-AreDigits (suc fuel) (n / 10))
        ∙ ap (λ a. digits_value a last) (digits_value-digits fuel (n / 10) (omega arith))
        ∙ digits_value_one (n / 10) n
        ∙ omega arith)
]

-- A string that begins with a digit is read as its digits say.
atoi_digits :
    (c : ℕ) (cs : Bytes)
    → b'0' ≤ c
    → c ≤ b'9'
    → digits_value 0 (c ∷ cs) < 2 ^ 31
    → atoi (c ∷ cs) ≡ ok (pos (digits_value 0 (c ∷ cs)))
unfolding atoi is_space
atoi_digits c cs low high fits = ground arith

atoi_append :
    (ds rest : Bytes) (n : ℕ)
    → AreDigits ds
    → 0 < length ds
    → digits_value 0 (ds ++ rest) ≡ n
    → n < 2 ^ 31
    → atoi (ds ++ rest) ≡ ok (pos n)
atoi_append [] rest n h some_digit value fits = absurd (omega arith)
atoi_append (c ∷ cs) rest n h some_digit value fits =
    atoi_digits c (cs ++ rest) h.0 h.1 (omega (arith, value)) ∙ ap (λ v. ok (pos v)) value

some_digit : (fuel n : ℕ) → 0 < length (digits (suc fuel) n)
unfolding digits
some_digit fuel n =
    if_cases (λ d. 0 < length d) (ltb n 10) ((b'0' + n % 10) ∷ [])
      (digits fuel (n / 10) ++ (b'0' + n % 10) ∷ []) (omega arith)
      (omega (arith, length-append (digits fuel (n / 10)) ((b'0' + n % 10) ∷ [])))

stops : (n c : ℕ) (rest : Bytes) → c < b'0' → digits_value n (c ∷ rest) ≡ n
unfolding digits_value
stops n c rest h = ground arith

-- What `%d` prints of an `int` that is not negative, `atoi` reads back, whatever smaller character
-- than a digit comes next.
atoi-decimal :
    (n c : ℕ) (rest : Bytes)
    → n < 2 ^ 31
    → c < b'0'
    → atoi (decimal (pos n) ++ c ∷ rest) ≡ ok (pos n)
unfolding decimal
atoi-decimal n c rest fits ends =
    atoi_append (digits 10 n) (c ∷ rest) n (digits-AreDigits 10 n) (some_digit 9 n)
      (digits_value-append 0 (digits 10 n) (c ∷ rest) (digits-AreDigits 10 n)
        ∙ stops (digits_value 0 (digits 10 n)) c rest ends
        ∙ digits_value-digits 9 n (omega arith))
      fits

-- The same of a string that ends there.
pub atoi-decimal_end : (n : ℕ) → n < 2 ^ 31 → atoi (decimal (pos n)) ≡ ok (pos n)
unfolding decimal
atoi-decimal_end n fits =
    ap atoi (sym (append-nil (digits 10 n)))
    ∙ atoi_append (digits 10 n) [] n (digits-AreDigits 10 n) (some_digit 9 n)
        (ap (digits_value 0) (append-nil (digits 10 n)) ∙ digits_value-digits 9 n (omega arith))
        fits
