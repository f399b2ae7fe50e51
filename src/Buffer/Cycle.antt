-- ===== src/Buffer/Cycle.antt =====
-- The cycle that IOBuffer.h prescribes: ask for the size, make the first bytes contiguous with
-- `pullDown`, use them, take them away with `consume`.
use zt_http.Common.{
  ℕ, ◌+◌, ◌-◌, ◌%◌, ◌≤◌, ◌<◌, ◌≡◌, refl, sym, ap, ◌∙◌, ◌⊎◌, inl, inr, true, false, none, some, List,
  [], ◌∷◌, ◌++◌, arith, Bytes, length, take, drop, length-append, length-drop, drop_all,
  take-append, drop-append, ◌==◌, Bool-cases, ok,
}
use zt_http.Buffer.{IoBuffer, front, pull_chunks, pull_down, consume_from, consume, u32_mod}
use zt_http.Buffer.Stream.{contents, joined, IsValid, gather_lem}

front-cons :
    (b : IoBuffer) (c : Bytes) (cs : List Bytes)
    → 0 < length c
    → front b (c ∷ cs) ≡ ok (record b { chunks = c ∷ cs }, some c)
unfolding front
front-cons b [] cs h = elim h [ ]
front-cons b (x ∷ c) cs h = refl

pull_chunks_lem :
    (b : IoBuffer) (num : ℕ) (chunks : List Bytes)
    → 0 < num
    → num ≤ length (joined chunks)
    → (c : Bytes) × (cs : List Bytes) × (pull_chunks b num chunks
        ≡ ok (record b { chunks = c ∷ cs }, some c))
      × (c ++ joined cs ≡ joined chunks)
      × (num ≤ length c)
unfolding pull_chunks
pull_chunks_lem b num [] pos h = absurd (omega arith)
pull_chunks_lem b num (first ∷ rest) pos h =
    let (c, cs, run, same, enough, grown) = gather_lem num (length first) first rest refl h in
    (c, cs, rw run (front-cons b c cs (omega arith)), same, enough)

-- A pull of 1 to `size()` bytes succeeds: the pointer is to a first chunk of at least `num` bytes,
-- the stream and its size stay, and so does validity.
pub pull_down_lem :
    (b : IoBuffer) (num : ℕ)
    → IsValid b
    → 0 < num
    → num ≤ b.size
    → (c : Bytes) × (cs : List Bytes) × (pull_down b num
        ≡ ok (record b { chunks = c ∷ cs }, some c))
      × (c ++ joined cs ≡ contents b)
      × (num ≤ length c)
      × IsValid (record b { chunks = c ∷ cs })
unfolding pull_down
pull_down_lem b num v pos h =
    let (c, cs, run, same, enough) = pull_chunks_lem b num b.chunks pos (omega (arith, v.counts)) in
    (
      c,
      cs,
      ground (arith, run),
      same,
      enough,
      record { counts = v.counts ∙ sym (ap length same); fits = v.fits },
    )

-- With more than the buffer holds, or from an empty buffer, the result is a null pointer.
pub pull_down_null :
    (b : IoBuffer) (num : ℕ) → (b.size < num) ⊎ (b.size ≡ 0) → pull_down b num ≡ ok (b, none)
unfolding pull_down
pull_down_null b num h = ground arith

consume_from_lem :
    (b : IoBuffer) (num : ℕ) (c : Bytes) (cs : List Bytes)
    → b.size ≡ length c + length (joined cs)
    → b.size < u32_mod
    → 0 < length c
    → num ≤ length c
    → (b' : IoBuffer) × (consume_from b num (c ∷ cs) ≡ ok (b', true))
      × (contents b' ≡ drop num (c ++ joined cs))
      × (b'.size ≡ b.size - num)
unfolding consume_from
consume_from_lem b num c cs e fits pos h = elim (Bool-cases (length c == num)) [
  | inl all ↦ (
    record { chunks = cs; size = b.size - num },
    ground (arith, left),
    sym (
        drop-append num c (joined cs) h ∙ ap (λ l. l ++ joined cs) (drop_all num c (ground arith))),
    refl,
  )
  | inr some_left ↦ (
    record { chunks = drop num c ∷ cs; size = b.size - num },
    ground (arith, left),
    sym (drop-append num c (joined cs) h),
    refl,
  )
]
  where
    left : (b.size + u32_mod - num) % u32_mod ≡ b.size - num
    left = omega arith

-- `consume` takes `num` bytes off the stream where the first chunk, not an empty one, holds them.
pub consume_lem :
    (b : IoBuffer) (num : ℕ) (c : Bytes) (cs : List Bytes)
    → b.chunks ≡ c ∷ cs
    → IsValid b
    → 0 < length c
    → num ≤ length c
    → (b' : IoBuffer) × (consume b num ≡ ok (b', true))
      × (contents b' ≡ drop num (contents b))
      × IsValid b'
unfolding consume
consume_lem b num c cs e v pos h =
    let whole : contents b ≡ c ++ joined cs = ap joined e in
    let size_eq : b.size ≡ length c + length (joined cs) =
      v.counts ∙ ap length whole ∙ length-append c (joined cs) in
    let (b', run, left, count) = consume_from_lem b num c cs size_eq v.fits pos h in
    (
      b',
      ap (consume_from b num) e ∙ run,
      left ∙ ap (drop num) (sym whole),
      record {
        counts =
            count
            ∙ omega (
              arith,
              v.counts,
              ap length whole,
              ap length left,
              length-drop num (c ++ joined cs),
            );
        fits = omega (arith, v.fits, count);
      },
    )

-- Without the pull, `consume` refuses more bytes than the first chunk holds, and changes nothing.
pub consume_refused :
    (b : IoBuffer) (num : ℕ) (c : Bytes) (cs : List Bytes)
    → b.chunks ≡ c ∷ cs
    → length c < num
    → consume b num ≡ ok (b, false)
unfolding consume consume_from
consume_refused b num c cs e h = ap (consume_from b num) e ∙ ground arith

-- One cycle: with 1 to `size()` bytes asked for, both calls succeed, the pointer gives the first
-- bytes of the stream, and exactly these bytes leave it.
pub pull_down-consume :
    (b : IoBuffer) (num : ℕ)
    → IsValid b
    → 0 < num
    → num ≤ b.size
    → (b' b'' : IoBuffer) × (c : Bytes) × (pull_down b num ≡ ok (b', some c))
      × (contents b' ≡ contents b)
      × (b'.size ≡ b.size)
      × (num ≤ length c)
      × (take num c ≡ take num (contents b))
      × (consume b' num ≡ ok (b'', true))
      × (contents b'' ≡ drop num (contents b))
      × IsValid b''
pull_down-consume b num v pos h =
    let (c, cs, pulled, same, enough, v') = pull_down_lem b num v pos h in
    let (b'', consumed, left, v'') =
      consume_lem (record b { chunks = c ∷ cs }) num c cs refl v' (omega arith) enough in
    (
      record b { chunks = c ∷ cs },
      b'',
      c,
      pulled,
      same,
      refl,
      enough,
      sym (take-append num c (joined cs) enough) ∙ ap (take num) same,
      consumed,
      left ∙ ap (drop num) same,
      v'',
    )
