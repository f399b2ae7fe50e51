-- ===== src/ReverseVowels/Reversed.antt =====
-- What `reverse_vowels` does to the vowels of a string.
use zt_http.Common.{
  ℕ, zero, suc, ◌+◌, ◌-◌, ◌≤◌, ◌<◌, ◌≡◌, refl, sym, ap, ◌∙◌, inl, inr, true, false, ◌||◌, [], ◌∷◌,
  ◌++◌, append-nil, append_assoc, arith, Bytes, length, get_or, length-append, leb, Bool-cases,
}
use mathlib.Core.List.{reverse, reverse-cons, reverse-append}
use zt_http.ReverseVowels.{is_vowel, scan_up, scan_down, swap_vowels}
use zt_http.ReverseVowels.Rearranged.{scan_up_lem}
use zt_http.ReverseVowels.Vowels.{
  vowels, NoVowels, vowels-append, vowels-NoVowels, vowels_first, swap_lem, scan_up_first,
  scan_down_last, get_or-NoVowels,
}

reverse_short : (l : Bytes) → length l ≤ 1 → reverse l ≡ l
reverse_short [] h = refl
reverse_short (x ∷ []) h = refl
reverse_short (x ∷ y ∷ l) h = absurd (omega arith)

-- The vowels with those of `m` the other way round.
abbrev pub turned : Bytes → Bytes → Bytes → Bytes
turned xs m ys = vowels xs ++ (reverse (vowels m) ++ vowels ys)

pub unchanged :
    (xs m ys : Bytes) → length (vowels m) ≤ 1 → vowels (xs ++ (m ++ ys)) ≡ turned xs m ys
unchanged xs m ys short =
    vowels-append xs (m ++ ys)
    ∙ ap (λ l. vowels xs ++ l) (vowels-append m ys)
    ∙ ap (λ l. vowels xs ++ (l ++ vowels ys)) (sym (reverse_short (vowels m) short))

-- One vowel is left alone.
pub one_vowel :
    (n : ℕ) (xs u : Bytes) (a : ℕ) (rest ys : Bytes)
    → NoVowels u
    → is_vowel a ≡ true
    → NoVowels rest
    → let s = (xs ++ u) ++ a ∷ (rest ++ ys) in
      swap_vowels n s (length xs) (length (xs ++ u) + length rest) ≡ s
unfolding swap_vowels
one_vowel zero xs u a rest ys h vowel h' = refl
one_vowel (suc n) xs u a rest ys h vowel h' =
    let s = (xs ++ u) ++ a ∷ (rest ++ ys) in
    let up =
      scan_up_first xs u a (rest ++ ys) (length s - 1 - length xs) h vowel
        (omega (arith, length-append (xs ++ u) (a ∷ (rest ++ ys)), length-append xs u)) in
    let down = scan_down_last (xs ++ u) a rest ys h' vowel in
    let met : (leb (length (xs ++ u) + length rest) (length (xs ++ u))
          || leb (length (xs ++ u)) (length (xs ++ u)))
        ≡ true =
      ground arith in
    rw (up, down) (rw met refl)

-- Of two vowels or more the outermost are exchanged.
pub two_vowels :
    (n : ℕ) (xs u : Bytes) (a : ℕ) (k : Bytes) (b : ℕ) (t ys : Bytes)
    → NoVowels u
    → is_vowel a ≡ true
    → is_vowel b ≡ true
    → NoVowels t
    → let p = xs ++ u in
      let q = p ++ a ∷ k in
      swap_vowels (suc n) (p ++ a ∷ (k ++ b ∷ (t ++ ys))) (length xs) (length q + length t)
      ≡ swap_vowels n (p ++ b ∷ (k ++ a ∷ (t ++ ys))) (length p + 1) (length q - 1)
unfolding swap_vowels
two_vowels n xs u a k b t ys h vowel vowel' h' =
    let p = xs ++ u in
    let q = p ++ a ∷ k in
    let z = t ++ ys in
    let s = p ++ a ∷ (k ++ b ∷ z) in
    let ed = length q + length t in
    let up =
      scan_up_first xs u a (k ++ b ∷ z) (length s - 1 - length xs) h vowel
        (omega (arith, length-append p (a ∷ (k ++ b ∷ z)), length-append xs u)) in
    let down : scan_down s ed ≡ length q =
      ap (λ l. scan_down l ed) (sym (append_assoc p (a ∷ k) (b ∷ z)))
      ∙ scan_down_last q b t ys h' vowel' in
    let apart : (leb ed (length p) || leb (length q) (length p)) ≡ false =
      ground (arith, length-append p (a ∷ k)) in
    rw (up, down)
      (rw apart (ap (λ l. swap_vowels n l (length p + 1) (length q - 1)) (swap_lem p a k b z)))

-- Where there is none the scans meet.
pub no_vowels :
    (n : ℕ) (xs m ys : Bytes)
    → NoVowels m
    → let s = xs ++ (m ++ ys) in swap_vowels n s (length xs) (length xs + length m - 1) ≡ s
unfolding swap_vowels
no_vowels zero xs m ys h = refl
no_vowels (suc n) xs m ys h =
    let s = xs ++ (m ++ ys) in
    let ed = length xs + length m - 1 in
    let left = length s - 1 - length xs in
    let i = scan_up s (length xs) left in
    let (above, _, found) = scan_up_lem s (length xs) left in
    elim (Bool-cases (leb ed i)) [
      | inl met ↦ rw met refl
      | inr apart ↦
          let early : i < ed = ground (arith, apart) in
          let place : length xs + (i - length xs) ≡ i = omega (arith, above) in
          let vowel : is_vowel (get_or s i 0) ≡ true =
            found (omega (arith, early, length-append xs (m ++ ys), length-append m ys)) in
          let other : is_vowel (get_or s i 0) ≡ false =
            ap (λ j. is_vowel (get_or s j 0)) (sym place)
            ∙ get_or-NoVowels xs m ys (i - length xs) h (omega (arith, early, above)) in
          absurd (cc (vowel, other))
    ]

-- The vowels of a string with a first and a last one.
pub outer_vowels :
    (u : Bytes) (a : ℕ) (k : Bytes) (b : ℕ) (t : Bytes)
    → NoVowels u
    → is_vowel a ≡ true
    → is_vowel b ≡ true
    → NoVowels t
    → vowels (u ++ a ∷ (k ++ b ∷ t)) ≡ a ∷ (vowels k ++ b ∷ [])
outer_vowels u a k b t h vowel vowel' h' =
    vowels-append u (a ∷ (k ++ b ∷ t))
    ∙ ap (λ l. l ++ vowels (a ∷ (k ++ b ∷ t))) (vowels-NoVowels u h)
    ∙ vowels_first a (k ++ b ∷ t) vowel
    ∙ ap (λ l. a ∷ l) (vowels-append k (b ∷ t))
    ∙ ap (λ l. a ∷ (vowels k ++ l)) (vowels_first b t vowel')
    ∙ ap (λ l. a ∷ (vowels k ++ b ∷ l)) (vowels-NoVowels t h')

reverse_outer :
    (a : ℕ) (l : Bytes) (b : ℕ) → reverse (a ∷ (l ++ b ∷ [])) ≡ b ∷ (reverse l ++ a ∷ [])
reverse_outer a l b =
    reverse-cons a (l ++ b ∷ []) ∙ ap (λ r. r ++ a ∷ []) (reverse-append l (b ∷ []))

-- The outermost vowels are exchanged, and those between them turned.
pub turned_outer :
    (xs u : Bytes) (a : ℕ) (k : Bytes) (b : ℕ) (t ys : Bytes)
    → NoVowels u
    → is_vowel a ≡ true
    → is_vowel b ≡ true
    → NoVowels t
    → turned ((xs ++ u) ++ b ∷ []) k (a ∷ (t ++ ys)) ≡ turned xs (u ++ a ∷ (k ++ b ∷ t)) ys
turned_outer xs u a k b t ys h vowel vowel' h' =
    let front : vowels ((xs ++ u) ++ b ∷ []) ≡ vowels xs ++ b ∷ [] =
      vowels-append (xs ++ u) (b ∷ [])
      ∙ ap (λ l. l ++ vowels (b ∷ []))
          (vowels-append xs u
            ∙ ap (λ l. vowels xs ++ l) (vowels-NoVowels u h)
            ∙ append-nil (vowels xs))
      ∙ ap (λ l. vowels xs ++ l) (vowels_first b [] vowel') in
    let back : vowels (a ∷ (t ++ ys)) ≡ a ∷ vowels ys =
      vowels_first a (t ++ ys) vowel
      ∙ ap (λ l. a ∷ l) (vowels-append t ys ∙ ap (λ l. l ++ vowels ys) (vowels-NoVowels t h')) in
    let rv = reverse (vowels k) in
    ap (λ l. l ++ (rv ++ vowels (a ∷ (t ++ ys)))) front
    ∙ ap (λ l. (vowels xs ++ b ∷ []) ++ (rv ++ l)) back
    ∙ append_assoc (vowels xs) (b ∷ []) (rv ++ a ∷ vowels ys)
    ∙ ap (λ l. vowels xs ++ b ∷ l) (sym (append_assoc rv (a ∷ []) (vowels ys)))
    ∙ ap (λ l. vowels xs ++ (l ++ vowels ys))
        (sym (ap reverse (outer_vowels u a k b t h vowel vowel' h') ∙ reverse_outer a (vowels k) b))
