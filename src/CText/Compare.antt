-- ===== src/CText/Compare.antt =====
-- Laws of the comparison of strings without regard to case.
use zt_http.Common.{
  ℕ, suc, ◌<◌, ◌≡◌, refl, sym, ap, ◌∙◌, inl, inr, true, false, [], ◌∷◌, map, arith, Bytes, length,
  Bool-cases,
}
use zt_http.CText.{str_eq, str_case_eq, to_lower}

str_eq-length : (a b : Bytes) → str_eq a b ≡ true → length a ≡ length b
unfolding str_eq
str_eq-length [] [] h = refl
str_eq-length [] (b ∷ bs) h = cc
str_eq-length (a ∷ as') [] h = cc
str_eq-length (a ∷ as') (b ∷ bs) h = ground (arith, str_eq-length as' bs)

length-map : (f : ℕ → ℕ) (xs : Bytes) → length (map f xs) ≡ length xs
length-map f [] = refl
length-map f (x ∷ xs) = ap suc (length-map f xs)

str_case_eq-length : (a b : Bytes) → str_case_eq a b ≡ true → length a ≡ length b
unfolding str_case_eq
str_case_eq-length a b h =
    sym (length-map to_lower a)
    ∙ str_eq-length (map to_lower a) (map to_lower b) h
    ∙ length-map to_lower b

pub shorter_differs : (a b : Bytes) → length a < length b → str_case_eq a b ≡ false
shorter_differs a b h = elim (Bool-cases (str_case_eq a b)) [
  | inl same ↦ absurd (omega (arith, str_case_eq-length a b same))
  | inr differ ↦ differ
]
