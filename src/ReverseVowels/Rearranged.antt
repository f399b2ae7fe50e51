-- ===== src/ReverseVowels/Rearranged.antt =====
-- What `reverse_vowels` keeps.
use zt_http.Common.{
  ℕ, zero, suc, ◌+◌, ◌-◌, ◌≤◌, ◌<◌, ◌≡◌, refl, sym, ap, ◌∙◌, ◌≢◌, inl, inr, true, false, ◌||◌, [],
  ◌∷◌, arith, Bytes, length, get_or, set, length-set, leb, ◌==◌, if◌then◌else◌, Bool-cases,
}
use zt_http.ReverseVowels.{is_vowel, scan_up, scan_down, swap, swap_vowels, reverse_vowels}

-- How often a byte is in a string.
abbrev pub count : ℕ → Bytes → ℕ
count x [] = 0
count x (c ∷ cs) = (if x == c then 1 else 0) + count x cs

-- The same length, the same bytes, each as often, and every byte that is no vowel in its place.
pub record IsRearranged (s r : Bytes) : Type 0 where
  pub size : length r ≡ length s
  pub bytes : (x : ℕ) → count x r ≡ count x s
  pub fixed : (i : ℕ) → is_vowel (get_or s i 0) ≡ false → get_or r i 0 ≡ get_or s i 0

count-set :
    (x v i : ℕ) (s : Bytes)
    → i < length s
    → count x (set s i v) + (if x == get_or s i 0 then 1 else 0)
      ≡ count x s + (if x == v then 1 else 0)
count-set x v i [] h = absurd (omega arith)
count-set x v zero (c ∷ cs) h = omega arith
count-set x v (suc i) (c ∷ cs) h = omega (arith, count-set x v i cs (omega arith))

get_or-set_ne : (s : Bytes) (i j v : ℕ) → i ≢ j → get_or (set s i v) j 0 ≡ get_or s j 0
get_or-set_ne [] i j v ne = refl
get_or-set_ne (c ∷ cs) zero zero v ne = absurd (ne refl)
get_or-set_ne (c ∷ cs) zero (suc j) v ne = refl
get_or-set_ne (c ∷ cs) (suc i) zero v ne = refl
get_or-set_ne (c ∷ cs) (suc i) (suc j) v ne = get_or-set_ne cs i j v (λ e. ne (ap suc e))

module _ (s : Bytes) (i j : ℕ) (apart : i < j) (inside : j < length s) where
  swap-length : length (swap s i j) ≡ length s
  swap-length = length-set (set s i (get_or s j 0)) j (get_or s i 0) ∙ length-set s i (get_or s j 0)

  swap-count : (x : ℕ) → count x (swap s i j) ≡ count x s
  swap-count x =
      let a = get_or s i 0 in
      let b = get_or s j 0 in
      let s1 = set s i b in
      let size : length s1 ≡ length s = length-set s i b in
      let same : get_or s1 j 0 ≡ b = get_or-set_ne s i j b (omega arith) in
      let one : count x s1 + (if x == a then 1 else 0) ≡ count x s + (if x == b then 1 else 0) =
        count-set x b i s (omega arith) in
      let two : count x (swap s i j) + (if x == b then 1 else 0)
          ≡ count x s1 + (if x == a then 1 else 0) =
        ap (λ c. count x (swap s i j) + (if x == c then 1 else 0)) (sym same)
        ∙ count-set x a j s1 (omega (arith, size)) in
      omega (arith, one, two)

  swap-elsewhere : (k : ℕ) → i ≢ k → j ≢ k → get_or (swap s i j) k 0 ≡ get_or s k 0
  swap-elsewhere k ne ne' =
      get_or-set_ne (set s i (get_or s j 0)) j k _ ne' ∙ get_or-set_ne s i k _ ne

-- Where the first scan stops.
pub scan_up_lem :
    (s : Bytes) (sta left : ℕ)
    → (sta ≤ scan_up s sta left)
      × (scan_up s sta left ≤ sta + left)
      × (scan_up s sta left < sta + left → is_vowel (get_or s (scan_up s sta left) 0) ≡ true)
unfolding scan_up
scan_up_lem s sta zero = (omega arith, omega arith, λ h. absurd (omega (arith, h)))
scan_up_lem s sta (suc left) = elim (Bool-cases (is_vowel (get_or s sta 0))) [
  | inl vowel ↦ rw vowel (omega arith, omega arith, λ h. vowel)
  | inr other ↦
      let (above, below, found) = scan_up_lem s (sta + 1) left in
      rw other (omega (arith, above), omega (arith, below), λ h. found (omega (arith, h)))
]

scan_down_lem :
    (s : Bytes) (ed : ℕ)
    → (scan_down s ed ≤ ed) × (0 < scan_down s ed → is_vowel (get_or s (scan_down s ed) 0) ≡ true)
unfolding scan_down
scan_down_lem s zero = (omega arith, λ h. absurd (omega (arith, h)))
scan_down_lem s (suc ed) = elim (Bool-cases (is_vowel (get_or s (suc ed) 0))) [
  | inl vowel ↦ rw vowel (omega arith, λ h. vowel)
  | inr other ↦ let (below, found) = scan_down_lem s ed in rw other (omega (arith, below), found)
]

kept-IsRearranged : (s : Bytes) → IsRearranged s s
kept-IsRearranged s = record { size = refl; bytes = λ x. refl; fixed = λ i h. refl }

not_there :
    (s : Bytes) (i k : ℕ) → is_vowel (get_or s i 0) ≡ true → is_vowel (get_or s k 0) ≡ false → i ≢ k
not_there s i k vowel other e = cc (sym vowel ∙ ap (λ n. is_vowel (get_or s n 0)) e ∙ other)

swap-IsRearranged :
    (s : Bytes) (i j : ℕ)
    → i < j
    → j < length s
    → is_vowel (get_or s i 0) ≡ true
    → is_vowel (get_or s j 0) ≡ true
    → IsRearranged s (swap s i j)
swap-IsRearranged s i j apart inside vowel vowel' = record {
  size = swap-length s i j apart inside;
  bytes = swap-count s i j apart inside;
  fixed = λ k other.
      swap-elsewhere s i j apart inside k (not_there s i k vowel other)
        (not_there s j k vowel' other);
}

further-IsRearranged : (s t r : Bytes) → IsRearranged s t → IsRearranged t r → IsRearranged s r
further-IsRearranged s t r a b = record {
  size = b.size ∙ a.size;
  bytes = λ x. b.bytes x ∙ a.bytes x;
  fixed = λ i other. b.fixed i (ap is_vowel (a.fixed i other) ∙ other) ∙ a.fixed i other;
}

swap_vowels-IsRearranged :
    (swaps : ℕ) (s : Bytes) (sta ed : ℕ)
    → sta < length s
    → ed < length s
    → IsRearranged s (swap_vowels swaps s sta ed)
unfolding swap_vowels
swap_vowels-IsRearranged zero s sta ed low high = kept-IsRearranged s
swap_vowels-IsRearranged (suc swaps) s sta ed low high =
    let left = length s - 1 - sta in
    let i = scan_up s sta left in
    let j = scan_down s ed in
    let (above, below, found) = scan_up_lem s sta left in
    let (under, found') = scan_down_lem s ed in
    elim (Bool-cases (leb ed i || leb j i)) [
      | inl met ↦ rw met (kept-IsRearranged s)
      | inr apart ↦
          let before : i < j = ground (arith, apart) in
          let early : i < ed = ground (arith, apart) in
          let swapped =
            swap-IsRearranged s i j before (omega (arith, under, high))
              (found (omega (arith, early, high, low))) (found' (omega (arith, before))) in
          rw apart (
            further-IsRearranged s (swap s i j) _ swapped (
              swap_vowels-IsRearranged swaps (swap s i j) (i + 1) (j - 1)
                (omega (arith, swapped.size, before, under, high))
                (omega (arith, swapped.size, before, under, high))))
    ]

-- Whatever the string: the result has its length, the same bytes, each as often, and every byte that is
-- no vowel where it was.
pub reverse_vowels-IsRearranged : (s : Bytes) → IsRearranged s (reverse_vowels s)
unfolding reverse_vowels
reverse_vowels-IsRearranged s = elim (Bool-cases (leb (length s) 1)) [
  | inl short ↦ rw short (kept-IsRearranged s)
  | inr long ↦
      rw long (
        swap_vowels-IsRearranged 9 s 0 (length s - 1) (ground (arith, long)) (ground (arith, long)))
]
