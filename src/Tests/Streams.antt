-- ===== src/Tests/Streams.antt =====
-- IOBuffer at concrete inputs; the first run is the unit test of ztHttp/ztHttp/IOBuffer.cpp.
use zt_http.Common.{
  ℕ, zero, suc, ◌+◌, ◌^◌, ◌≡◌, refl, ap, ◌↔◌, Bool, true, false, ◌&&◌, none, List, [], ◌∷◌, ◌++◌,
  append-nil, arith, Bytes, codes, length, ◌==◌, Outcome, ok, ◌>>=◌,
}
use zt_http.Common.{repeated}
use zt_http.Buffer.Abstraction.{Alike, Alike-iff_contents}
use zt_http.Buffer.Overflow.{append_wraps}
use zt_http.Buffer.{
  IoBuffer, u32_mod, io_buffer, io_buffer_of, append_data, append, pull_down, consume,
}
use zt_http.Buffer.Stream.{contents, IsValid}
use zt_http.Buffer.Cycle.{consume_refused}
use zt_http.Buffer.Refinement.{Use, put, get, run_client, run_stream, run_client-run_stream}

abbrev two_chunks : IoBuffer
two_chunks = record { chunks = codes "test1" ∷ codes "test2" ∷ []; size = 10 }

-- TEST(IOBuffer_test, test_all): whether its assertions hold.
abbrev test_all : Outcome Bool
test_all = do
  bf ← io_buffer_of (codes "test1") 5
  e ← io_buffer_of (codes "test2") 5
  bf1 ← append bf (io_buffer e)
  bf2 ← append_data bf1 1 (codes "test3" ++ 0 ∷ []) 6
  (bf3, _) ← pull_down bf2 6
  (bf4, _) ← consume bf3 6
  ok (bf.size == 5 && bf2.size == 16 && bf4.size == 10)

test_all_passes : test_all ≡ ok true
unfolding append_data append pull_down consume
test_all_passes = refl

two_chunks-IsValid : IsValid two_chunks
two_chunks-IsValid = record { counts = refl; fits = omega arith }

abbrev uses : List Use
uses = put (codes "abc") ∷ get 12 ∷ get 20 ∷ get 1 ∷ []

run_client-run_stream_example :
    (b' : IoBuffer) × (run_client two_chunks uses
      ≡ ok (b', (run_stream (contents two_chunks) uses).1))
    × (contents b' ≡ (run_stream (contents two_chunks) uses).0)
    × IsValid b'
run_client-run_stream_example =
    run_client-run_stream uses two_chunks two_chunks-IsValid (omega arith)

six_of_five_refused : consume two_chunks 6 ≡ ok (two_chunks, false)
six_of_five_refused =
    consume_refused two_chunks 6 (codes "test1") (codes "test2" ∷ []) refl (omega arith)

abbrev one_chunk : IoBuffer
one_chunk = record { chunks = [] ∷ codes "test1test2" ∷ []; size = 10 }

one_chunk-IsValid : IsValid one_chunk
one_chunk-IsValid = record { counts = refl; fits = omega arith }

Alike-iff_contents_example : Alike two_chunks one_chunk ↔ (contents two_chunks ≡ contents one_chunk)
Alike-iff_contents_example =
    Alike-iff_contents two_chunks one_chunk two_chunks-IsValid one_chunk-IsValid (omega arith)
      (omega arith)

xs_of : ℕ → Bytes
xs_of n = repeated n b'x'

length-xs_of : (n : ℕ) → length (xs_of n) ≡ n
unfolding xs_of
length-xs_of zero = refl
length-xs_of (suc n) = omega (arith, length-xs_of n)

-- Two gibibytes.
huge : IoBuffer
huge = record { chunks = xs_of (2 ^ 31) ∷ []; size = 2 ^ 31 }

huge-IsValid : IsValid huge
unfolding huge
huge-IsValid = record {
  counts = omega (arith, length-xs_of (2 ^ 31), ap length (append-nil (xs_of (2 ^ 31))));
  fits = omega arith;
}

huge-size : huge.size ≡ 2 ^ 31
unfolding huge
huge-size = refl

append_wraps_example :
    (b' : IoBuffer) × (append huge (io_buffer huge) ≡ ok b')
    × (contents b' ≡ contents huge ++ contents huge)
    × (length (contents b') ≡ b'.size + u32_mod)
    × (pull_down b' 1 ≡ ok (b', none))
append_wraps_example =
    append_wraps huge huge 1 huge-IsValid huge-IsValid (omega (arith, huge-size))
      (omega (arith, huge-size))
