-- ===== src/Buffer/Stream.antt =====
-- What `IOBuffer` promises: a stream of bytes, whatever chunks hold it.
use zt_http.Common.{
  ℕ, ◌+◌, ◌*◌, ◌%◌, ◌^◌, ◌≤◌, ◌<◌, ◌≡◌, refl, sym, ap, ◌∙◌, inl, inr, List, [], ◌∷◌, ◌++◌, Bytes,
  length, take, ltb, Bool-cases, ok, append_assoc, append-nil, length-append, length-take, take_all,
  arith,
}
use zt_http.Buffer.{IoBuffer, io_buffer, append_data, append, gather, u32_mod}

-- All bytes of the chunks, in order.
abbrev pub joined : List Bytes → Bytes
joined [] = []
joined (c ∷ cs) = c ++ joined cs

abbrev pub contents : IoBuffer → Bytes
contents b = joined b.chunks

-- `_size` is the number of bytes held. It fits an `unsigned`.
pub record IsValid (b : IoBuffer) : Type 0 where
  pub counts : b.size ≡ length (contents b)
  pub fits : b.size < u32_mod

pub joined-append : (xs ys : List Bytes) → joined (xs ++ ys) ≡ joined xs ++ joined ys
joined-append [] ys = refl
joined-append (x ∷ xs) ys =
    ap (◌++◌ x) (joined-append xs ys) ∙ sym (append_assoc x (joined xs) (joined ys))

pub length-joined-append :
    (xs ys : List Bytes) → length (joined (xs ++ ys)) ≡ length (joined xs) + length (joined ys)
length-joined-append xs ys = ap length (joined-append xs ys) ∙ length-append (joined xs) (joined ys)

-- Bytes that fit are copied behind the stream, and the buffer stays well formed.
pub append_data_lem :
    (b : IoBuffer) (memory : Bytes) (num : ℕ)
    → IsValid b
    → num ≤ length memory
    → num < 2 ^ 31
    → b.size + num < u32_mod
    → (b' : IoBuffer) × (append_data b 1 memory num ≡ ok b')
      × (contents b' ≡ contents b ++ take num memory)
      × IsValid b'
unfolding append_data
append_data_lem b memory num v inside small fits =
    let last = take num memory ∷ [] in
    let e : 1 * num % u32_mod ≡ num = omega arith in
    let e2 : (b.size + num) % u32_mod ≡ b.size + num = omega arith in
    (
      record { chunks = b.chunks ++ last; size = b.size + num },
      ground (arith, e, e2),
      joined-append b.chunks last ∙ ap (◌++◌ (contents b)) (append-nil (take num memory)),
      record {
        counts = omega (
          arith,
          v.counts,
          length-joined-append b.chunks last,
          ap length (append-nil (take num memory)),
          length-take num memory,
        );
        fits = fits;
      },
    )

-- Another buffer's bytes are copied behind the stream.
pub append_lem :
    (b e : IoBuffer)
    → IsValid b
    → IsValid e
    → b.size + e.size < u32_mod
    → (b' : IoBuffer) × (append b (io_buffer e) ≡ ok b')
      × (contents b' ≡ contents b ++ contents e)
      × IsValid b'
unfolding append
append_lem b e v w fits =
    let sum : (b.size + e.size) % u32_mod ≡ b.size + e.size = omega arith in
    (
      record { chunks = b.chunks ++ e.chunks; size = b.size + e.size },
      ground (arith, sum),
      joined-append b.chunks e.chunks,
      record {
        counts = omega (arith, v.counts, w.counts, length-joined-append b.chunks e.chunks);
        fits = fits;
      },
    )

-- The loop ends with a first chunk of `num` bytes at least, and moves no byte.
pub gather_lem :
    (num len : ℕ) (first : Bytes) (rest : List Bytes)
    → len ≡ length first
    → num ≤ length (first ++ joined rest)
    → (c : Bytes) × (cs : List Bytes) × (gather num len first rest ≡ ok (c ∷ cs))
      × (c ++ joined cs ≡ first ++ joined rest)
      × (num ≤ length c)
      × (length first ≤ length c)
unfolding gather
gather_lem num len first [] e h = (
  first,
  [],
  ground (arith, ap length (append-nil first)),
  refl,
  omega (arith, ap length (append-nil first)),
  omega arith,
)
gather_lem num len first (next ∷ rest) e h = elim (Bool-cases (ltb len num)) [
  | inl short ↦
      let (c, cs, run, same, enough, grown) =
        gather_lem num (len + length next) (first ++ next) rest
          (omega (arith, length-append first next))
          (omega (arith, h, ap length (append_assoc first next (joined rest)))) in
      (
        c,
        cs,
        rw short run,
        same ∙ append_assoc first next (joined rest),
        enough,
        omega (arith, length-append first next),
      )
  | inr long ↦ (first, next ∷ rest, rw long refl, refl, ground arith, omega arith)
]

-- The same for all bytes of an array.
pub append_data_all :
    (b : IoBuffer) (bytes : Bytes)
    → IsValid b
    → b.size + length bytes < 2 ^ 31
    → (b' : IoBuffer) × (append_data b 1 bytes (length bytes) ≡ ok b')
      × (contents b' ≡ contents b ++ bytes)
      × IsValid b'
append_data_all b bytes v fits =
    let (b', run, held, v') =
      append_data_lem b bytes (length bytes) v (omega arith) (omega arith) (omega arith) in
    (b', run, held ∙ ap (◌++◌ (contents b)) (take_all (length bytes) bytes (omega arith)), v')
