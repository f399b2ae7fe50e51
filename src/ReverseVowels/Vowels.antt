-- ===== src/ReverseVowels/Vowels.antt =====
-- Vowels, and where the scans meet them.
use zt_http.Common.{
  ℕ, zero, suc, ◌+◌, ◌-◌, ◌≤◌, ◌<◌, ◌≡◌, refl, sym, ap, ◌∙◌, inl, inr, true, false, [], ◌∷◌, ◌++◌,
  append_assoc, arith, Bytes, length, get_or, set, length-append, if◌then◌else◌, Bool-cases,
}
use zt_http.ReverseVowels.{is_vowel, scan_up, scan_down, swap}

-- The vowels of a string, in their order.
abbrev pub vowels : Bytes → Bytes
vowels [] = []
vowels (c ∷ cs) = if is_vowel c then c ∷ vowels cs else vowels cs

abbrev pub NoVowels : Bytes → Type 0
NoVowels [] = Unit
NoVowels (c ∷ cs) = (is_vowel c ≡ false) × NoVowels cs

pub vowels-append : (xs ys : Bytes) → vowels (xs ++ ys) ≡ vowels xs ++ vowels ys
vowels-append [] ys = refl
vowels-append (c ∷ cs) ys = elim (Bool-cases (is_vowel c)) [
  | inl vowel ↦ rw vowel (ap (λ l. c ∷ l) (vowels-append cs ys))
  | inr other ↦ rw other (vowels-append cs ys)
]

pub vowels-NoVowels : (xs : Bytes) → NoVowels xs → vowels xs ≡ []
vowels-NoVowels [] h = refl
vowels-NoVowels (c ∷ cs) (other, h) = rw other (vowels-NoVowels cs h)

pub vowels_first : (a : ℕ) (cs : Bytes) → is_vowel a ≡ true → vowels (a ∷ cs) ≡ a ∷ vowels cs
vowels_first a cs vowel = rw vowel refl

-- A string has no vowel, or a first one.
pub data First (m : Bytes) : Type 0 where
  no_first : NoVowels m → First m
  first :
      (u : Bytes) (a : ℕ) (rest : Bytes)
      → NoVowels u
      → is_vowel a ≡ true
      → m ≡ u ++ a ∷ rest
      → First m

pub First-of : (m : Bytes) → First m
First-of [] = no_first tt
First-of (c ∷ cs) = elim (Bool-cases (is_vowel c)) [
  | inl vowel ↦ first [] c cs tt vowel refl
  | inr other ↦ elim (First-of cs) [
    | no_first h ↦ no_first (other, h)
    | first u a rest h vowel e ↦ first (c ∷ u) a rest (other, h) vowel (ap (λ l. c ∷ l) e)
  ]
]

-- And a last one.
pub data Last (m : Bytes) : Type 0 where
  no_last : NoVowels m → Last m
  last : (k : Bytes) (b : ℕ) (t : Bytes) → NoVowels t → is_vowel b ≡ true → m ≡ k ++ b ∷ t → Last m

pub last_of : (m : Bytes) → Last m
last_of [] = no_last tt
last_of (c ∷ cs) = elim (last_of cs) [
  | last k b t h vowel e ↦ last (c ∷ k) b t h vowel (ap (λ l. c ∷ l) e)
  | no_last h ↦ elim (Bool-cases (is_vowel c)) [
    | inl vowel ↦ last [] c cs h vowel refl
    | inr other ↦ no_last (other, h)
  ]
]

-- What stands in a string behind a part of it.
get_or_behind : (p : Bytes) (c : ℕ) (z : Bytes) → get_or (p ++ c ∷ z) (length p) 0 ≡ c
get_or_behind [] c z = refl
get_or_behind (x ∷ p) c z = get_or_behind p c z

set_behind : (p : Bytes) (c : ℕ) (z : Bytes) (v : ℕ) → set (p ++ c ∷ z) (length p) v ≡ p ++ v ∷ z
set_behind [] c z v = refl
set_behind (x ∷ p) c z v = ap (λ l. x ∷ l) (set_behind p c z v)

-- No vowel in a part, so none at its places.
pub get_or-NoVowels :
    (p u z : Bytes) (j : ℕ)
    → NoVowels u
    → j < length u
    → is_vowel (get_or (p ++ (u ++ z)) (length p + j) 0) ≡ false
get_or-NoVowels [] (c ∷ u) z zero h inside = h.0
get_or-NoVowels [] (c ∷ u) z (suc j) h inside =
    let e : 0 + suc j ≡ suc (0 + j) = omega arith in
    ap (λ i. is_vowel (get_or (c ∷ (u ++ z)) i 0)) e ∙ get_or-NoVowels [] u z j h.1 (omega arith)
get_or-NoVowels [] [] z j h inside = absurd (omega arith)
get_or-NoVowels (x ∷ p) u z j h inside =
    let e : length (x ∷ p) + j ≡ suc (length p + j) = omega arith in
    ap (λ i. is_vowel (get_or (x ∷ (p ++ (u ++ z))) i 0)) e ∙ get_or-NoVowels p u z j h inside

scan_up_past :
    (s : Bytes) (sta n left : ℕ)
    → ((j : ℕ) → j < n → is_vowel (get_or s (sta + j) 0) ≡ false)
    → scan_up s sta (n + left) ≡ scan_up s (sta + n) left
unfolding scan_up
scan_up_past s sta zero left none_there =
    let e : 0 + left ≡ left = omega arith in
    let e' : sta ≡ sta + 0 = omega arith in ap (scan_up s sta) e ∙ ap (λ i. scan_up s i left) e'
scan_up_past s sta (suc n) left none_there =
    let e : suc n + left ≡ suc (n + left) = omega arith in
    let first : sta ≡ sta + 0 = omega arith in
    let whole : sta + 1 + n ≡ sta + suc n = omega arith in
    let next : (j : ℕ) → sta + 1 + j ≡ sta + suc j = λ j. omega arith in
    let here : is_vowel (get_or s sta 0) ≡ false =
      ap (λ i. is_vowel (get_or s i 0)) first ∙ none_there 0 (omega arith) in
    ap (scan_up s sta) e
    ∙ rw here (
        scan_up_past s (sta + 1) n left
          (λ j h. ap (λ i. is_vowel (get_or s i 0)) (next j) ∙ none_there (suc j) (omega arith))
        ∙ ap (λ i. scan_up s i left) whole)

scan_up_stops :
    (s : Bytes) (sta left : ℕ) → is_vowel (get_or s sta 0) ≡ true → scan_up s sta left ≡ sta
unfolding scan_up
scan_up_stops s sta zero vowel = refl
scan_up_stops s sta (suc left) vowel = rw vowel refl

scan_down_past :
    (s : Bytes) (i n : ℕ)
    → ((j : ℕ) → j < n → is_vowel (get_or s (suc i + j) 0) ≡ false)
    → scan_down s (i + n) ≡ scan_down s i
unfolding scan_down
scan_down_past s i zero none_there = let e : i + 0 ≡ i = omega arith in ap (scan_down s) e
scan_down_past s i (suc n) none_there =
    let e : i + suc n ≡ suc (i + n) = omega arith in
    let last : suc (i + n) ≡ suc i + n = omega arith in
    let here : is_vowel (get_or s (suc (i + n)) 0) ≡ false =
      ap (λ j. is_vowel (get_or s j 0)) last ∙ none_there n (omega arith) in
    ap (scan_down s) e ∙ rw here (scan_down_past s i n λ j h. none_there j (omega arith))

scan_down_stops : (s : Bytes) (i : ℕ) → is_vowel (get_or s i 0) ≡ true → scan_down s i ≡ i
unfolding scan_down
scan_down_stops s zero vowel = refl
scan_down_stops s (suc i) vowel = rw vowel refl

-- Two bytes exchanged.
pub swap_lem :
    (p : Bytes) (a : ℕ) (k : Bytes) (b : ℕ) (z : Bytes)
    → swap (p ++ a ∷ (k ++ b ∷ z)) (length p) (length (p ++ a ∷ k)) ≡ p ++ b ∷ (k ++ a ∷ z)
swap_lem p a k b z =
    let s = p ++ a ∷ (k ++ b ∷ z) in
    let j = length (p ++ a ∷ k) in
    let same : length (p ++ b ∷ k) ≡ j =
      omega (arith, length-append p (b ∷ k), length-append p (a ∷ k)) in
    let second : get_or s j 0 ≡ b =
      ap (λ l. get_or l j 0) (sym (append_assoc p (a ∷ k) (b ∷ z)))
      ∙ get_or_behind (p ++ a ∷ k) b z in
    let s1 = p ++ b ∷ (k ++ b ∷ z) in
    let one : set s (length p) (get_or s j 0) ≡ s1 =
      ap (set s (length p)) second ∙ set_behind p a (k ++ b ∷ z) b in
    ap (λ l. set l j (get_or s (length p) 0)) one
    ∙ ap (set s1 j) (get_or_behind p a (k ++ b ∷ z))
    ∙ ap (λ l. set l j a) (sym (append_assoc p (b ∷ k) (b ∷ z)))
    ∙ ap (λ i. set ((p ++ b ∷ k) ++ b ∷ z) i a) (sym same)
    ∙ set_behind (p ++ b ∷ k) b z a
    ∙ append_assoc p (b ∷ k) (a ∷ z)

-- The first vowel behind `xs`, and the last before the end of `t`.
pub scan_up_first :
    (xs u : Bytes) (a : ℕ) (z : Bytes) (left : ℕ)
    → NoVowels u
    → is_vowel a ≡ true
    → length u ≤ left
    → scan_up ((xs ++ u) ++ a ∷ z) (length xs) left ≡ length (xs ++ u)
scan_up_first xs u a z left h vowel enough =
    let s = (xs ++ u) ++ a ∷ z in
    let e : left ≡ length u + (left - length u) = omega arith in
    ap (scan_up s (length xs)) e
    ∙ scan_up_past s (length xs) (length u) (left - length u) (λ j inside.
      ap (λ l. is_vowel (get_or l (length xs + j) 0)) (append_assoc xs u (a ∷ z))
      ∙ get_or-NoVowels xs u (a ∷ z) j h inside)
    ∙ ap (λ i. scan_up s i (left - length u)) (sym (length-append xs u))
    ∙ scan_up_stops s (length (xs ++ u)) (left - length u)
        (ap is_vowel (get_or_behind (xs ++ u) a z) ∙ vowel)

pub scan_down_last :
    (q : Bytes) (b : ℕ) (t ys : Bytes)
    → NoVowels t
    → is_vowel b ≡ true
    → scan_down (q ++ b ∷ (t ++ ys)) (length q + length t) ≡ length q
scan_down_last q b t ys h vowel =
    let s = q ++ b ∷ (t ++ ys) in
    let place : (j : ℕ) → suc (length q) + j ≡ length (q ++ b ∷ []) + j =
      λ j. omega (arith, length-append q (b ∷ [])) in
    scan_down_past s (length q) (length t) (λ j inside.
      ap (λ i. is_vowel (get_or s i 0)) (place j)
      ∙ ap (λ l. is_vowel (get_or l (length (q ++ b ∷ []) + j) 0))
          (sym (append_assoc q (b ∷ []) (t ++ ys)))
      ∙ get_or-NoVowels (q ++ b ∷ []) t ys j h inside)
    ∙ scan_down_stops s (length q) (ap is_vowel (get_or_behind q b (t ++ ys)) ∙ vowel)
