-- ===== src/Http/Serve.antt =====
-- Reading a request out of a buffer, and the answer for a file.
use zt_http.Common.{
  ℕ, ◌+◌, ◌^◌, ◌≤◌, ◌<◌, ◌≡◌, refl, ap, ◌∙◌, inl, inr, false, not, ◌&&◌, none, some, [], ◌∷◌, ◌++◌,
  arith, Bytes, codes, length, take, length-append, take_all, drop_all, ltb, Bool-cases, undefined,
  ok, fault,
}
use zt_http.CText.{str_eq, c_str}
use zt_http.CText.Lines.{NoNul}
use zt_http.Buffer.{IoBuffer, pull_down, consume, empty}
use zt_http.Buffer.Stream.{contents, IsValid, append_data_all}
use zt_http.Buffer.Cycle.{pull_down-consume}
use zt_http.Http.{
  Http, FileSystem, read, copy_out, get_line, discard, send_file, serve_file, not_found,
  not_found_text, headers, headers_text,
}
use zt_http.Http.Answer.{get_line_lem}
use zt_http.Http.Cat.{cat_whole}

-- Reading from a valid buffer that is not empty takes all its bytes: they are the request, and the
-- result is their number.
read-contents :
    (h : Http) (b : IoBuffer)
    → IsValid b
    → 0 < b.size
    → (b' : IoBuffer) × (read h b ≡ ok (record { in_buffer = contents b }, b', length (contents b)))
      × (contents b' ≡ [])
      × IsValid b'
unfolding read copy_out
read-contents h b v ne =
    let (b1, b2, c, pulled, same, size_eq, enough, first, consumed, left, v2) =
      pull_down-consume b b.size v ne (omega arith) in
    let whole : take b.size c ≡ contents b =
      first ∙ take_all b.size (contents b) (omega (arith, v.counts)) in
    let reached : ltb (length c) b.size ≡ false = ground arith in
    (
      b2,
      rw pulled (rw (size_eq, reached, whole) (rw consumed refl)),
      left ∙ drop_all b.size (contents b) (omega (arith, v.counts)),
      v2,
    )

-- An empty buffer without chunks, which is what the end of a stream leaves, is a fault: `consume`
-- dereferences the end iterator.
read-empty : (h : Http) → read h empty ≡ fault undefined
unfolding read copy_out pull_down consume
read-empty h = refl

discard_ends :
    (h : Http) (c d : ℕ) (rest : Bytes) (n : ℕ)
    → (r : Bytes × ℕ) × (discard 2 h (c ∷ d ∷ rest, n) ≡ ok r)
unfolding discard
discard_ends h c d rest n =
    elim (Bool-cases (ltb 0 n && not (str_eq (codes "\n") (c_str (c ∷ d ∷ rest))))) [
      | inl more ↦
          (((get_line h (c ∷ d ∷ rest) 1024).0, 0), rw more (rw (get_line_lem h c d rest) refl))
      | inr done ↦ ((c ∷ d ∷ rest, n), rw done refl)
    ]

-- A file that cannot be opened is answered by a fault: `fclose` is given the null pointer.
serve_file_missing :
    (h : Http) (fs : FileSystem) (stack filename : Bytes) (b : IoBuffer)
    → fs.contents_of filename ≡ none
    → 2 ≤ length stack
    → IsValid b
    → b.size + length not_found_text < 2 ^ 31
    → serve_file h fs stack filename b ≡ fault undefined
unfolding serve_file not_found
serve_file_missing h fs [] filename b missing room v fits = absurd (omega arith)
serve_file_missing h fs (c ∷ []) filename b missing room v fits = absurd (omega arith)
serve_file_missing h fs (c ∷ d ∷ rest) filename b missing room v fits =
    let (_, ended) = discard_ends h b'A' 0 rest 1 in
    let (_, told, _, _) = append_data_all b not_found_text v fits in
    rw (ended, missing) (unfold send_file in rw told refl)

-- A file that ends in a newline and holds no NUL byte is answered by the headers and the file.
pub serve_file_whole :
    (h : Http) (fs : FileSystem) (stack filename body : Bytes) (b : IoBuffer)
    → fs.contents_of filename ≡ some (body ++ b'\n' ∷ [])
    → NoNul (body ++ b'\n' ∷ [])
    → 2 ≤ length stack
    → IsValid b
    → b.size + length headers_text + length (body ++ b'\n' ∷ []) < 2 ^ 31
    → (b' : IoBuffer) × (serve_file h fs stack filename b ≡ ok b')
      × (contents b' ≡ contents b ++ headers_text ++ (body ++ b'\n' ∷ []))
      × IsValid b'
unfolding serve_file headers
serve_file_whole h fs [] filename body b found n room v fits = absurd (omega arith)
serve_file_whole h fs (c ∷ []) filename body b found n room v fits = absurd (omega arith)
serve_file_whole h fs (c ∷ d ∷ rest) filename body b found n room v fits =
    let (_, ended) = discard_ends h b'A' 0 rest 1 in
    let (b1, told, held, v1) = append_data_all b headers_text v (omega arith) in
    let (b2, sent, held', v2) = cat_whole body b1 n v1 (
      omega
        (arith, v1.counts, v.counts, ap length held, length-append (contents b) headers_text)) in
    (b2, rw (ended, found) (unfold send_file in rw told sent), held' ∙ rw held refl, v2)
