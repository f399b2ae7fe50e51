-- ===== src/CText.antt =====
-- What the sources use of the C library on characters, strings and files: `isspace`,
-- `strcasecmp`, strings that end at a NUL, `fgets` and `feof`.
pub mod Compare
pub mod Lines
use zt_http.Common.{
  ℕ, zero, suc, ◌+◌, ◌-◌, Bool, true, false, ◌&&◌, ◌||◌, [], ◌∷◌, map, Bytes, leb, ◌==◌,
  if◌then◌else◌,
}

-- `isspace`: blank, and the characters from tab to carriage return.
unfoldable pub is_space : ℕ → Bool
is_space c = c == b' ' || (leb 9 c && leb c 13)

unfoldable pub to_lower : ℕ → ℕ
to_lower c = if leb b'A' c && leb c b'Z' then c + 32 else c

-- The string at the start of an array: its bytes up to the first NUL.
unfoldable pub c_str : Bytes → Bytes
c_str [] = []
c_str (c ∷ cs) = if c == 0 then [] else c ∷ c_str cs

-- Whether a NUL ends the string that starts an array of these bytes.
unfoldable pub has_nul : Bytes → Bool
has_nul [] = false
has_nul (c ∷ cs) = c == 0 || has_nul cs

-- `strcmp(a, b) == 0` and `strcasecmp(a, b) == 0`.
unfoldable pub str_eq : Bytes → Bytes → Bool
str_eq [] [] = true
str_eq (a ∷ as') (b ∷ bs) = a == b && str_eq as' bs
str_eq _ _ = false

unfoldable pub str_case_eq : Bytes → Bytes → Bool
unfolding str_eq to_lower
str_case_eq a b = str_eq (map to_lower a) (map to_lower b)

-- An open file: what is still to be read, and the end-of-file mark.
pub record File : Type 0 where
  pub rest : Bytes
  pub at_eof : Bool

-- One `fgets`: the characters stored before the NUL (none: it returned a null pointer).
unfoldable pub fgets_line : ℕ → Bytes → Bytes × File
fgets_line zero cs = ([], record { rest = cs; at_eof = false })
fgets_line (suc room) [] = ([], record { rest = []; at_eof = true })
fgets_line (suc room) (c ∷ cs) =
    let (line, f) = fgets_line room cs in
    if c == b'\n' then (c ∷ [], record { rest = cs; at_eof = false }) else (c ∷ line, f)

-- `fgets(buf, size, file)` stores at most `size - 1` characters.
unfoldable pub fgets : ℕ → Bytes → Bytes × File
unfolding fgets_line
fgets size rest = fgets_line (size - 1) rest
