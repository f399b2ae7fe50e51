-- ===== src/SimHttp/Lengths.antt =====
-- What the loop of `execute_cgi` over the headers of a POST takes for the content length.
use zt_http.Common.{
  ℕ, zero, suc, ◌+◌, ◌≤◌, ◌<◌, ◌≡◌, refl, sym, ap, ◌∙◌, ◌≢◌, inl, inr, true, false, ℤ, List, [],
  ◌∷◌, ◌++◌, map, append_assoc, arith, Bytes, codes, length, set, take, drop, length-append,
  length-take, take_all, take-append, drop-append, ltb, if◌then◌else◌, Bool-cases, Outcome, ok,
  fault, ◌>>=◌,
}
use zt_http.SimHttp.{Connection, get_line}
use zt_http.SimHttp.Cgi.{atoi, post_headers}
use zt_http.SimHttp.Discard.{AreHeaders, block, get_line_crlf, header_goes_on}
use zt_http.CText.Compare.{shorter_differs}
use mathlib.Core.List.{map-append}
use zt_http.CText.{c_str, str_eq, str_case_eq, to_lower}
use zt_http.CText.Lines.{NoNul}

abbrev label : Bytes
label = codes "Content-Length:"

-- The length after a header, where it was `n` before.
abbrev header_length : ℤ → Bytes → Outcome ℤ
header_length n text =
    if str_case_eq (take 15 text) label then atoi (drop 16 (text ++ b'\n' ∷ [])) else ok n

-- The length after these headers: the last one that is labelled counts.
abbrev pub content_length : ℤ → List Bytes → Outcome ℤ
content_length n [] = ok n
content_length n (text ∷ texts) = header_length n text >>= λ m. content_length m texts

abbrev pub NoNuls : List Bytes → Type 0
NoNuls [] = Unit
NoNuls (text ∷ texts) = NoNul text × NoNuls texts

c_str-append : (xs rest : Bytes) → NoNul xs → c_str (xs ++ 0 ∷ rest) ≡ xs
unfolding c_str
c_str-append [] rest h = refl
c_str-append (x ∷ xs) rest h = ground (arith, h.0, c_str-append xs rest h.1)

c_str-set_beyond :
    (xs rest : Bytes) (i : ℕ) → NoNul xs → length xs ≤ i → c_str (set (xs ++ 0 ∷ rest) i 0) ≡ xs
unfolding c_str
c_str-set_beyond [] rest zero n h = refl
c_str-set_beyond [] rest (suc i) n h = refl
c_str-set_beyond (x ∷ xs) rest zero n h = absurd (omega arith)
c_str-set_beyond (x ∷ xs) rest (suc i) n h =
    ground (arith, n.0, c_str-set_beyond xs rest i n.1 (omega arith))

c_str-set_within :
    (xs rest : Bytes) (i : ℕ) → NoNul xs → i < length xs → c_str (set (xs ++ rest) i 0) ≡ take i xs
unfolding c_str
c_str-set_within [] rest i n h = absurd (omega arith)
c_str-set_within (x ∷ xs) rest zero n h = refl
c_str-set_within (x ∷ xs) rest (suc i) n h =
    ground (arith, n.0, c_str-set_within xs rest i n.1 (omega arith))

drop-set : (i v : ℕ) (xs : Bytes) → drop (suc i) (set xs i v) ≡ drop (suc i) xs
drop-set i v [] = refl
drop-set zero v (x ∷ xs) = refl
drop-set (suc i) v (x ∷ xs) = drop-set i v xs

NoNul-drop : (i : ℕ) (xs : Bytes) → NoNul xs → NoNul (drop i xs)
NoNul-drop zero xs h = h
NoNul-drop (suc i) [] h = tt
NoNul-drop (suc i) (x ∷ xs) h = NoNul-drop i xs h.1

NoNul-line : (xs : Bytes) → NoNul xs → NoNul (xs ++ b'\n' ∷ [])
NoNul-line [] h = (omega arith, tt)
NoNul-line (x ∷ xs) h = (h.0, NoNul-line xs h.1)

str_eq-last : (xs ys : Bytes) (a b : ℕ) → a ≢ b → str_eq (xs ++ a ∷ []) (ys ++ b ∷ []) ≡ false
unfolding str_eq
str_eq-last [] [] a b ne = ground arith
str_eq-last [] (y ∷ []) a b ne = ground arith
str_eq-last [] (y ∷ z ∷ ys) a b ne = ground arith
str_eq-last (x ∷ []) [] a b ne = ground arith
str_eq-last (x ∷ z ∷ xs) [] a b ne = ground arith
str_eq-last (x ∷ xs) (y ∷ ys) a b ne = ground (arith, str_eq-last xs ys a b ne)

-- The line as the array holds it once byte 15 is a NUL.
abbrev cut_line : Bytes → Bytes → Bytes
cut_line text junk = set ((text ++ b'\n' ∷ []) ++ 0 ∷ junk) 15 0

short_test : (text : Bytes) → str_case_eq (text ++ b'\n' ∷ []) label ≡ false
unfolding str_case_eq to_lower
short_test text =
    rw (map-append to_lower text (b'\n' ∷ []))
      (str_eq-last (map to_lower text) (codes "content-length") b'\n' b':' (omega arith))

cut_test :
    (text junk : Bytes)
    → NoNul text
    → str_case_eq (c_str (cut_line text junk)) label ≡ str_case_eq (take 15 text) label
cut_test text junk nul =
    let whole : length (text ++ b'\n' ∷ []) ≡ length text + 1 = length-append text (b'\n' ∷ []) in
    elim (Bool-cases (ltb (length text) 15)) [
      | inl short ↦
          let below : length text < 15 = ground (arith, short) in
          rw (c_str-set_beyond (text ++ b'\n' ∷ []) junk 15 (NoNul-line text nul) (omega arith)) (
            rw (take_all 15 text (omega arith))
              (short_test text ∙ sym (shorter_differs text label below)))
      | inr long ↦
          let above : 15 ≤ length text = ground (arith, long) in
          ap (λ l. str_case_eq l label)
            (c_str-set_within (text ++ b'\n' ∷ []) (0 ∷ junk) 15 (NoNul-line text nul) (omega arith)
              ∙ take-append 15 text (b'\n' ∷ []) above)
    ]

cut_rest :
    (text junk : Bytes)
    → NoNul text
    → 15 ≤ length text
    → c_str (drop 16 (cut_line text junk)) ≡ drop 16 (text ++ b'\n' ∷ [])
cut_rest text junk nul long =
    let line : Bytes = text ++ b'\n' ∷ [] in
    let whole : length line ≡ length text + 1 = length-append text (b'\n' ∷ []) in
    ap c_str (drop-set 15 0 (line ++ 0 ∷ junk) ∙ drop-append 16 line (0 ∷ junk) (omega arith))
    ∙ c_str-append (drop 16 line) junk (NoNul-drop 16 line (NoNul-line text nul))

true-ne-false : true ≢ false
true-ne-false e = cc

labelled_long : (text : Bytes) → str_case_eq (take 15 text) label ≡ true → 15 ≤ length text
labelled_long text labelled = elim (Bool-cases (ltb (length text) 15)) [
  | inl short ↦
      let taken : length (take 15 text) < 15 = ground (arith, short, length-take 15 text) in
      absurd (true-ne-false (sym labelled ∙ shorter_differs (take 15 text) label taken))
  | inr long ↦ ground (arith, long)
]

-- What a round of the loop makes of the line that was read.
round_length :
    (n : ℤ) (text junk : Bytes)
    → NoNul text
    → (if str_case_eq (c_str (cut_line text junk)) label
        then atoi (c_str (drop 16 (cut_line text junk)))
        else ok n)
      ≡ header_length n text
round_length n text junk nul = elim (Bool-cases (str_case_eq (take 15 text) label)) [
  | inl labelled ↦
      let long : 15 ≤ length text = labelled_long text labelled in
      rw (cut_test text junk nul) (rw labelled (ap atoi (cut_rest text junk nul long)))
  | inr other ↦ rw (cut_test text junk nul) (rw other refl)
]

bind_chain {ℓ κ μ} :
    {A : Type ℓ} {B : Type κ} {C : Type μ} (o : Outcome A) (f : A → Outcome C) (g : A → Outcome B)
    (h : B → Outcome C)
    → ((a : A) → f a ≡ (g a >>= h))
    → (o >>= f) ≡ (o >>= g >>= h)
bind_chain (ok a) f g h same = same a
bind_chain (fault e) f g h same = refl

-- The next line is read, and the loop goes on.
abbrev pub read_on : ℕ → Connection → Bytes → ℤ → Outcome (Connection × ℤ)
read_on fuel s buf n =
    let (s', line, count) = get_line s buf 1024 in post_headers fuel s' (line, count) n

-- Over a block of headers the loop ends behind the blank line, with the length that the headers give.
pub read_on-content_length :
    (fuel : ℕ) (texts : List Bytes) (s : Connection) (buf : Bytes) (n : ℤ) (body : Bytes)
    → length texts < fuel
    → AreHeaders texts
    → NoNuls texts
    → s.input ≡ block texts ++ body
    → read_on fuel s buf n ≡ (content_length n texts >>= λ m. ok (record s { input = body }, m))
unfolding post_headers str_eq c_str
read_on-content_length zero texts s buf n body enough h nul held = absurd (omega arith)
read_on-content_length (suc fuel) [] s buf n body enough h nul held =
    ap (λ r. post_headers (suc fuel) r.0 (r.1, r.2) n)
      (get_line_crlf s buf [] body held tt (omega arith))
read_on-content_length (suc fuel) ([] ∷ texts) s buf n body enough h nul held =
    absurd (omega (arith, h.0.0))
read_on-content_length (suc fuel) ((c ∷ cs) ∷ texts) s buf n body enough h nul held =
    let text : Bytes = c ∷ cs in
    let rest = block texts ++ body in
    let s' : Connection = record s { input = rest } in
    let line : Bytes = text ++ b'\n' ∷ [] in
    let junk = drop (length line + 1) buf in
    let apart = append_assoc text (b'\r' ∷ b'\n' ∷ block texts) body in
    ap (λ r. post_headers (suc fuel) r.0 (r.1, r.2) n)
      (get_line_crlf s buf text rest (held ∙ apart) h.0.2 h.0.1)
    ∙ rw (header_goes_on c cs buf h.0.2.1, round_length n text junk nul.0)
        (bind_chain (header_length n text) (λ m. read_on fuel s' (cut_line text junk) m)
          (λ m. content_length m texts) (λ m. ok (record s { input = body }, m))
          λ m.
            read_on-content_length fuel texts s' (cut_line text junk) m body (omega arith) h.1 nul.1
              refl)
