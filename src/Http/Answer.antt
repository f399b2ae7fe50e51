-- ===== src/Http/Answer.antt =====
-- What `Http::write` answers.
use zt_http.Common.{
  ℕ, ◌+◌, ◌^◌, ◌≤◌, ◌<◌, ◌≡◌, refl, negsuc, none, [], ◌∷◌, ◌++◌, arith, Bytes, codes, length, ◌==◌,
  if◌then◌else◌, ok,
}
use zt_http.CText.{is_space, c_str}
use zt_http.CText.Compare.{shorter_differs}
use zt_http.Buffer.{IoBuffer}
use zt_http.Buffer.Stream.{contents, IsValid, append_data_all}
use zt_http.Request.{parse_request, scan_method}
use zt_http.Http.{
  Http, FileSystem, get_line, get_line_loop, unimplemented, unimplemented_text, write,
}

-- The last byte before the first newline, or `d` if there is none.
abbrev last_of_line : ℕ → Bytes → ℕ
last_of_line d [] = d
last_of_line d (c ∷ cs) = if c == b'\n' then d else last_of_line c cs

get_line_loop_lem :
    (cs : Bytes) (c d : ℕ) (rest : Bytes)
    → get_line_loop cs (c ∷ d ∷ rest) 0 1024 ≡ last_of_line c cs ∷ d ∷ rest
unfolding get_line_loop
get_line_loop_lem [] c d rest = refl
get_line_loop_lem (x ∷ cs) c d rest = ground (arith, get_line_loop_lem cs x d rest)

-- Whatever was read, `get_line` reports 0 bytes and leaves a string of one byte at most: the last
-- byte of the first line.
pub get_line_lem :
    (h : Http) (c d : ℕ) (rest : Bytes)
    → get_line h (c ∷ d ∷ rest) 1024 ≡ (last_of_line c h.in_buffer ∷ 0 ∷ rest, 0)
unfolding get_line
get_line_lem h c d rest = rw (get_line_loop_lem h.in_buffer c d rest)

one_byte_method : (x : ℕ) (rest : Bytes) → length (c_str (scan_method 254 (x ∷ 0 ∷ rest))) ≤ 1
unfolding scan_method c_str is_space
one_byte_method x rest = ground arith

parse_one_byte : (x : ℕ) (rest : Bytes) → parse_request (x ∷ 0 ∷ rest) 0 ≡ none
unfolding parse_request
parse_one_byte x rest =
    let m = c_str (scan_method 254 (x ∷ 0 ∷ rest)) in
    let short : length m ≤ 1 = one_byte_method x rest in
    rw
      (
        shorter_differs m (codes "GET") (omega arith),
        shorter_differs m (codes "POST") (omega arith),
      )
      refl

-- Whatever was read of a request and whatever files there are: where the array of `write` has two bytes
-- at least and the answer fits into a valid buffer, `Http::write` appends the answer for an unknown
-- method and nothing else, and its result is -1.
pub write-unimplemented :
    (h : Http) (fs : FileSystem) (stack stack' : Bytes) (b : IoBuffer)
    → IsValid b
    → b.size + length unimplemented_text < 2 ^ 31
    → 2 ≤ length stack
    → (b' : IoBuffer) × (write h fs stack stack' b ≡ ok (b', negsuc 0))
      × (contents b' ≡ contents b ++ unimplemented_text)
      × IsValid b'
unfolding write unimplemented
write-unimplemented h fs [] stack' b v small room = absurd (omega arith)
write-unimplemented h fs (c ∷ []) stack' b v small room = absurd (omega arith)
write-unimplemented h fs (c ∷ d ∷ rest) stack' b v small room =
    let (b', run, held, v') = append_data_all b unimplemented_text v small in
    (
      b',
      rw (get_line_lem h c d rest, parse_one_byte (last_of_line c h.in_buffer) rest) (rw run refl),
      held,
      v',
    )
