-- ===== src/Buffer/Overflow.antt =====
-- `append` where the sizes of two `IOBuffer`s pass the range of `unsigned`.
use zt_http.Common.{ℕ, ◌+◌, ◌%◌, ◌≤◌, ◌<◌, ◌≡◌, refl, none, ◌++◌, arith, length, ok}
use zt_http.Buffer.{IoBuffer, io_buffer, append, pull_down, u32_mod}
use zt_http.Buffer.Stream.{contents, IsValid, joined-append, length-joined-append}
use zt_http.Buffer.Cycle.{pull_down_null}

-- A buffer is appended whose bytes and those held are 2 ^ 32 or more together: all bytes are held, in
-- order, but `_size` is 2 ^ 32 too small, and a read of more bytes than that is refused, as if the
-- bytes were not there.
pub append_wraps :
    (b e : IoBuffer) (num : ℕ)
    → IsValid b
    → IsValid e
    → u32_mod ≤ b.size + e.size
    → b.size + e.size < u32_mod + num
    → (b' : IoBuffer) × (append b (io_buffer e) ≡ ok b')
      × (contents b' ≡ contents b ++ contents e)
      × (length (contents b') ≡ b'.size + u32_mod)
      × (pull_down b' num ≡ ok (b', none))
unfolding append
append_wraps b e num v w over beyond =
    let wrapped : (b.size + e.size) % u32_mod + u32_mod ≡ b.size + e.size =
      omega (arith, v.fits, w.fits) in
    let b' : IoBuffer = record {
      chunks = b.chunks ++ e.chunks;
      size = (b.size + e.size) % u32_mod;
    } in
    (
      b',
      refl,
      joined-append b.chunks e.chunks,
      omega (arith, v.counts, w.counts, length-joined-append b.chunks e.chunks, wrapped),
      pull_down_null b' num (ground (arith, wrapped)),
    )
