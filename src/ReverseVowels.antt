-- ===== src/ReverseVowels.antt =====
-- `Solution::reverseVowels` of ztHttp/ztHttp/test2.cpp, an exercise beside the server. The bytes that are
-- printed meanwhile are left out.
pub mod Rearranged
pub mod Vowels
pub mod Reversed
pub mod Whole
use zt_http.Common.{
  ℕ, zero, suc, ◌+◌, ◌-◌, ◌*◌, ◌/◌, ◌%◌, ◌^◌, ◌≤◌, ◌<◌, min, max, ◌≡◌, refl, sym, ap, ◌∙◌, subst,
  fun_ext, ◌≢◌, ◌↔◌, ◌⊎◌, inl, inr, Bool, true, false, not, ◌&&◌, ◌||◌, bit_and, bit_or, ℤ, pos,
  negsuc, succ_ℤ, pred_ℤ, is_nonzero, Option, none, some, List, [], ◌∷◌, ◌++◌, map, append-nil,
  append_assoc, arith, Bytes, codes, length, get_or, set, take, drop, length-append, length-take,
  length-drop, take-append-drop, take_all, drop_all, take-append, drop-append, length-set, ltb, leb,
  ◌==◌, if◌then◌else◌, ==_iff, Bool-cases, Option-cases, if_cases, Fault, undefined, aborted,
  out_of_range, endless, Outcome, ok, fault, ◌>>=◌, Holds, bind-Holds, bind-Holds_of,
}

-- `_vowels.find(c) != string::npos`.
abbrev pub is_vowel : ℕ → Bool
is_vowel c =
    c == b'a'
    || c == b'e'
    || c == b'i'
    || c == b'o'
    || c == b'u'
    || c == b'A'
    || c == b'E'
    || c == b'I'
    || c == b'O'
    || c == b'U'

-- `while(_vowels.find(s[sta])==string::npos && sta< siz-1)++sta;`, with `left` more characters.
unfoldable pub scan_up : Bytes → ℕ → ℕ → ℕ
scan_up s sta zero = sta
scan_up s sta (suc left) =
    let further = scan_up s (sta + 1) left in if is_vowel (get_or s sta 0) then sta else further

-- `while(_vowels.find(s[ed])==string::npos && ed>0)--ed;`.
unfoldable pub scan_down : Bytes → ℕ → ℕ
scan_down s zero = 0
scan_down s (suc ed) =
    let further = scan_down s ed in if is_vowel (get_or s (suc ed) 0) then suc ed else further

-- `swap(s[i], s[j])`.
abbrev pub swap : Bytes → ℕ → ℕ → Bytes
swap s i j = set (set s i (get_or s j 0)) j (get_or s i 0)

-- The loop, with so many swaps before `count` is 10.
unfoldable pub swap_vowels : ℕ → Bytes → ℕ → ℕ → Bytes
unfolding scan_up scan_down
swap_vowels zero s sta ed = s
swap_vowels (suc swaps) s sta ed =
    let sta' = scan_up s sta (length s - 1 - sta) in
    let ed' = scan_down s ed in
    let more = swap_vowels swaps (swap s sta' ed') (sta' + 1) (ed' - 1) in
    if leb ed sta' || leb ed' sta' then s else more

-- `reverseVowels`.
unfoldable pub reverse_vowels : Bytes → Bytes
unfolding swap_vowels
reverse_vowels s = if leb (length s) 1 then s else swap_vowels 9 s 0 (length s - 1)
