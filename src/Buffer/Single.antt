-- ===== src/Buffer/Single.antt =====
-- A buffer of one chunk, filled and emptied again.
use zt_http.Common.{
  ℕ, ◌+◌, ◌-◌, ◌*◌, ◌%◌, ◌^◌, ◌<◌, ◌≡◌, refl, ap, true, false, some, [], ◌∷◌, arith, Bytes, length,
  take_all, ltb, ◌==◌, undefined, ok, fault,
}
use zt_http.Buffer.{
  IoBuffer, io_buffer, empty, u32_mod, append_data, append, pull_down, consume, gather, pull_chunks,
  front, consume_from,
}

abbrev pub single : Bytes → IoBuffer
single bytes = record { chunks = bytes ∷ []; size = length bytes }

pub append_data-single :
    (bytes : Bytes)
    → length bytes < 2 ^ 31
    → append_data empty 1 bytes (length bytes) ≡ ok (single bytes)
unfolding append_data
append_data-single bytes small =
    let whole : 1 * length bytes % u32_mod ≡ length bytes = omega arith in
    let size : (0 + length bytes) % u32_mod ≡ length bytes = omega arith in
    ground (arith, whole, size, take_all (length bytes) bytes (omega arith))

pub append-single :
    (bytes : Bytes)
    → length bytes < 2 ^ 31
    → append empty (io_buffer (single bytes)) ≡ ok (single bytes)
unfolding append
append-single bytes small =
    let size : (0 + length bytes) % u32_mod ≡ length bytes = omega arith in
    ap (λ n. ok (record { chunks = bytes ∷ []; size = n })) size

pub pull_down-single :
    (c : ℕ) (cs : Bytes)
    → pull_down (single (c ∷ cs)) (length (c ∷ cs)) ≡ ok (single (c ∷ cs), some (c ∷ cs))
unfolding pull_down pull_chunks gather front
pull_down-single c cs =
    let fits : ltb (length (c ∷ cs)) (length (c ∷ cs)) ≡ false = ground arith in
    let some_byte : (length (c ∷ cs) == 0) ≡ false = ground arith in rw (fits, some_byte) refl

pub consume-single :
    (c : ℕ) (cs : Bytes)
    → length (c ∷ cs) < 2 ^ 31
    → consume (single (c ∷ cs)) (length (c ∷ cs)) ≡ ok (empty, true)
unfolding consume consume_from
consume-single c cs small =
    let n = length (c ∷ cs) in
    let fits : ltb n n ≡ false = ground arith in
    let some_byte : (n == 0) ≡ false = ground arith in
    let all : (n == n) ≡ true = ground arith in
    let left : (n + u32_mod - n) % u32_mod ≡ 0 = omega arith in rw (fits, some_byte, all, left) refl

pub consume-empty : (n : ℕ) → consume empty n ≡ fault undefined
unfolding consume consume_from
consume-empty n = refl
