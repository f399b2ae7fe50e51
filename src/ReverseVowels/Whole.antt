-- ===== src/ReverseVowels/Whole.antt =====
-- `reverse_vowels` against the reversal of a list.
use zt_http.Common.{
  ℕ, zero, suc, ◌+◌, ◌-◌, ◌*◌, ◌≤◌, ◌≡◌, refl, sym, ap, ◌∙◌, inl, inr, true, [], ◌∷◌, ◌++◌,
  append-nil, append_assoc, arith, Bytes, length, length-append, leb, Bool-cases,
}
use zt_http.ReverseVowels.{is_vowel, swap_vowels, reverse_vowels}
use mathlib.Core.List.{reverse}
use zt_http.ReverseVowels.Rearranged.{IsRearranged, reverse_vowels-IsRearranged}
use zt_http.ReverseVowels.Vowels.{
  vowels, NoVowels, vowels-append, vowels-NoVowels, vowels_first, no_first, first, First-of,
  no_last, last, last_of,
}
use zt_http.ReverseVowels.Reversed.{
  turned, unchanged, one_vowel, two_vowels, no_vowels, outer_vowels, turned_outer,
}

-- A part with one vowel.
one_counted :
    (xs m ys : Bytes) (n : ℕ) (u : Bytes) (a : ℕ) (rest : Bytes)
    → NoVowels u
    → is_vowel a ≡ true
    → NoVowels rest
    → m ≡ u ++ a ∷ rest
    → vowels (swap_vowels n (xs ++ (m ++ ys)) (length xs) (length xs + length m - 1))
      ≡ turned xs m ys
one_counted xs m ys n u a rest h vowel h' e =
    let s = (xs ++ u) ++ a ∷ (rest ++ ys) in
    let shape : xs ++ (m ++ ys) ≡ s =
      ap (λ l. xs ++ (l ++ ys)) e
      ∙ ap (λ l. xs ++ l) (append_assoc u (a ∷ rest) ys)
      ∙ sym (append_assoc xs u (a ∷ (rest ++ ys))) in
    let ed : length xs + length m - 1 ≡ length (xs ++ u) + length rest =
      omega (arith, ap length e, length-append u (a ∷ rest), length-append xs u) in
    let one : vowels m ≡ a ∷ [] =
      ap vowels e
      ∙ vowels-append u (a ∷ rest)
      ∙ ap (λ l. l ++ vowels (a ∷ rest)) (vowels-NoVowels u h)
      ∙ vowels_first a rest vowel
      ∙ ap (λ l. a ∷ l) (vowels-NoVowels rest h') in
    ap (λ l. vowels (swap_vowels n l (length xs) (length xs + length m - 1))) shape
    ∙ ap (λ d. vowels (swap_vowels n s (length xs) d)) ed
    ∙ ap vowels (one_vowel n xs u a rest ys h vowel h' ∙ sym shape)
    ∙ unchanged xs m ys (omega (arith, ap length one))

-- So many swaps turn the vowels of `m`, and leave those before and behind it.
abbrev IsTurned : ℕ → Bytes → Bytes → Bytes → Type 0
IsTurned n xs m ys =
    vowels (swap_vowels n (xs ++ (m ++ ys)) (length xs) (length xs + length m - 1)) ≡ turned xs m ys

-- A part with two vowels or more, where one swap less turns what is between them.
many_counted :
    (n : ℕ) (xs m ys u : Bytes) (a : ℕ) (k : Bytes) (b : ℕ) (t : Bytes)
    → NoVowels u
    → is_vowel a ≡ true
    → is_vowel b ≡ true
    → NoVowels t
    → m ≡ u ++ a ∷ (k ++ b ∷ t)
    → IsTurned n ((xs ++ u) ++ b ∷ []) k (a ∷ (t ++ ys))
    → IsTurned (suc n) xs m ys
many_counted n xs m ys u a k b t h vowel vowel' h' e between =
    let p = xs ++ u in
    let q = p ++ a ∷ k in
    let z = t ++ ys in
    let s = p ++ a ∷ (k ++ b ∷ z) in
    let s' = p ++ b ∷ (k ++ a ∷ z) in
    let p' = p ++ b ∷ [] in
    let shape : xs ++ (m ++ ys) ≡ s =
      ap (λ l. xs ++ (l ++ ys)) e
      ∙ ap (λ l. xs ++ l) (append_assoc u (a ∷ (k ++ b ∷ t)) ys)
      ∙ ap (λ l. xs ++ (u ++ a ∷ l)) (append_assoc k (b ∷ t) ys)
      ∙ sym (append_assoc xs u (a ∷ (k ++ b ∷ z))) in
    let sizes : length m ≡ length u + (1 + (length k + (1 + length t))) =
      omega (arith, ap length e, length-append u (a ∷ (k ++ b ∷ t)), length-append k (b ∷ t)) in
    let ed : length xs + length m - 1 ≡ length q + length t =
      omega (arith, sizes, length-append xs u, length-append p (a ∷ k)) in
    let sta : length p + 1 ≡ length p' = omega (arith, length-append p (b ∷ [])) in
    let ed' : length q - 1 ≡ length p' + length k - 1 =
      omega (arith, length-append p (a ∷ k), length-append p (b ∷ [])) in
    ap (λ l. vowels (swap_vowels (suc n) l (length xs) (length xs + length m - 1))) shape
    ∙ ap (λ d. vowels (swap_vowels (suc n) s (length xs) d)) ed
    ∙ ap vowels (two_vowels n xs u a k b t ys h vowel vowel' h')
    ∙ ap (λ d. vowels (swap_vowels n s' d (length q - 1))) sta
    ∙ ap (λ d. vowels (swap_vowels n s' (length p') d)) ed'
    ∙ ap (λ l. vowels (swap_vowels n l (length p') (length p' + length k - 1)))
        (sym (append_assoc p (b ∷ []) (k ++ a ∷ z)))
    ∙ between
    ∙ turned_outer xs u a k b t ys h vowel vowel' h'
    ∙ ap (λ l. turned xs l ys) (sym e)

-- What is left to do where there are two vowels or more.
counted :
    (n : ℕ) (xs m ys : Bytes)
    → ((u : Bytes) (a : ℕ) (k : Bytes) (b : ℕ) (t : Bytes)
        → NoVowels u
        → is_vowel a ≡ true
        → is_vowel b ≡ true
        → NoVowels t
        → m ≡ u ++ a ∷ (k ++ b ∷ t)
        → IsTurned n xs m ys)
    → IsTurned n xs m ys
counted n xs m ys many = elim (First-of m) [
  | no_first h ↦
      ap vowels (no_vowels n xs m ys h)
      ∙ unchanged xs m ys (omega (arith, ap length (vowels-NoVowels m h)))
  | first u a rest h vowel e ↦ elim (last_of rest) [
    | no_last h' ↦ one_counted xs m ys n u a rest h vowel h' e
    | last k b t h' vowel' e' ↦ many u a k b t h vowel vowel' h' (e ∙ ap (λ l. u ++ a ∷ l) e')
  ]
]

between_fewer :
    (m u : Bytes) (a : ℕ) (k : Bytes) (b : ℕ) (t : Bytes)
    → NoVowels u
    → is_vowel a ≡ true
    → is_vowel b ≡ true
    → NoVowels t
    → m ≡ u ++ a ∷ (k ++ b ∷ t)
    → length (vowels m) ≡ length (vowels k) + 2
between_fewer m u a k b t h vowel vowel' h' e =
    let all = ap vowels e ∙ outer_vowels u a k b t h vowel vowel' h' in
    omega (arith, ap length all, length-append (vowels k) (b ∷ []))

swap_vowels_turns : (n : ℕ) (xs m ys : Bytes) → length (vowels m) ≤ 2 * n + 1 → IsTurned n xs m ys
swap_vowels_turns zero xs m ys few = counted zero xs m ys λ u a k b t h vowel vowel' h' e.
    absurd (omega (arith, few, between_fewer m u a k b t h vowel vowel' h' e))
swap_vowels_turns (suc n) xs m ys few = counted (suc n) xs m ys λ u a k b t h vowel vowel' h' e.
    many_counted n xs m ys u a k b t h vowel vowel' h' e (
      swap_vowels_turns n ((xs ++ u) ++ b ∷ []) k (a ∷ (t ++ ys))
        (omega (arith, few, between_fewer m u a k b t h vowel vowel' h' e)))

short_string : (s : Bytes) → length s ≤ 1 → vowels s ≡ reverse (vowels s)
short_string [] h = refl
short_string (c ∷ []) h = elim (Bool-cases (is_vowel c)) [
  | inl vowel ↦ rw vowel refl
  | inr other ↦ rw other refl
]
short_string (c ∷ d ∷ s) h = absurd (omega arith)

reversed_or_short :
    (s : Bytes) → length (vowels s) ≤ 19 → vowels (reverse_vowels s) ≡ reverse (vowels s)
unfolding reverse_vowels
reversed_or_short s few = elim (Bool-cases (leb (length s) 1)) [
  | inl short ↦ rw short (short_string s (ground (arith, short)))
  | inr long ↦
      let size : length s - 1 ≡ 0 + length s - 1 = omega arith in
      rw long (
        ap (λ l. vowels (swap_vowels 9 l 0 (length s - 1))) (sym (append-nil s))
        ∙ ap (λ d. vowels (swap_vowels 9 (s ++ []) 0 d)) size
        ∙ swap_vowels_turns 9 [] s [] few
        ∙ append-nil (reverse (vowels s)))
]

-- A string of at most 19 vowels: in the result the vowels stand the other way round at the places of the
-- vowels, and every other byte stands where it was.
pub reverse_vowels_reverses :
    (s : Bytes)
    → length (vowels s) ≤ 19
    → (vowels (reverse_vowels s) ≡ reverse (vowels s)) × IsRearranged s (reverse_vowels s)
reverse_vowels_reverses s few = (reversed_or_short s few, reverse_vowels-IsRearranged s)
