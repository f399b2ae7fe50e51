-- ===== src/Buffer/Refinement.antt =====
-- A client that writes, and reads by the cycle of IOBuffer.h, cannot tell an `IOBuffer` from a
-- plain stream of bytes.
use zt_http.Common.{
  ℕ, ◌+◌, ◌^◌, ◌≤◌, ◌<◌, ◌≡◌, refl, ap, ◌∙◌, inl, inr, ◌||◌, Option, none, some, List, [], ◌∷◌,
  ◌++◌, arith, Bytes, length, take, drop, length-append, length-drop, ltb, ◌==◌, if◌then◌else◌,
  Bool-cases, Outcome, ok, ◌>>=◌,
}
use zt_http.Buffer.{IoBuffer, append_data, pull_down, consume}
use zt_http.Buffer.Stream.{contents, IsValid, append_data_all}
use zt_http.Buffer.Cycle.{pull_down_null, pull_down-consume}

pub data Use : Type 0 where
  put : Bytes → Use
  get : ℕ → Use

-- What `get` does once it has the pointer.
abbrev take_from : IoBuffer → ℕ → Option Bytes → Outcome (IoBuffer × Option Bytes)
take_from b num none = ok (b, none)
take_from b num (some c) = do (b', _) ← consume b num; ok (b', some (take num c))

pub client : IoBuffer → Use → Outcome (IoBuffer × Option Bytes)
client b (put bytes) = do b' ← append_data b 1 bytes (length bytes); ok (b', none)
client b (get num) = do (b', p) ← pull_down b num; take_from b' num p

-- The same on a stream.
unfoldable pub stream : Bytes → Use → Bytes × Option Bytes
stream s (put bytes) = (s ++ bytes, none)
stream s (get num) =
    if ltb (length s) num || length s == 0 then (s, none) else (drop num s, some (take num s))

pub run_client : IoBuffer → List Use → Outcome (IoBuffer × List (Option Bytes))
unfolding client
run_client b [] = ok (b, [])
run_client b (u ∷ us) = do
  (b', seen) ← client b u
  (b'', later) ← run_client b' us
  ok (b'', seen ∷ later)

unfoldable pub run_stream : Bytes → List Use → Bytes × List (Option Bytes)
unfolding stream
run_stream s [] = (s, [])
run_stream s (u ∷ us) =
    let (s', seen) = stream s u in let (s'', later) = run_stream s' us in (s'', seen ∷ later)

-- Reads ask for a byte at least, and all writes together keep the stream below 2 ^ 31 bytes.
abbrev pub Fits : ℕ → List Use → Type 0
Fits held [] = held < 2 ^ 31
Fits held (put bytes ∷ us) = Fits (held + length bytes) us
Fits held (get num ∷ us) = (0 < num) × Fits held us

Fits-bound : (held : ℕ) (us : List Use) → Fits held us → held < 2 ^ 31
Fits-bound held [] h = h
Fits-bound held (put bytes ∷ us) h = omega (arith, Fits-bound (held + length bytes) us h)
Fits-bound held (get num ∷ us) h = Fits-bound held us h.1

Fits-mono : (m n : ℕ) (us : List Use) → m ≤ n → Fits n us → Fits m us
Fits-mono m n [] h f = omega arith
Fits-mono m n (put bytes ∷ us) h f =
    Fits-mono (m + length bytes) (n + length bytes) us (omega arith) f
Fits-mono m n (get num ∷ us) h f = (f.0, Fits-mono m n us h f.1)

-- One use of a valid buffer is the same use of its stream.
client-stream :
    (b : IoBuffer) (u : Use) (us : List Use)
    → IsValid b
    → Fits (length (contents b)) (u ∷ us)
    → (b' : IoBuffer) × (client b u ≡ ok (b', (stream (contents b) u).1))
      × (contents b' ≡ (stream (contents b) u).0)
      × IsValid b'
      × Fits (length (contents b')) us
unfolding client stream
client-stream b (put bytes) us v f =
    let bound = Fits-bound (length (contents b) + length bytes) us f in
    let (b', run, held, v') = append_data_all b bytes v (omega (arith, v.counts)) in
    (
      b',
      rw run refl,
      held,
      v',
      Fits-mono _ _ us (omega (arith, ap length held, length-append (contents b) bytes)) f,
    )
client-stream b (get num) us v f =
    elim (Bool-cases (ltb (length (contents b)) num || length (contents b) == 0)) [
      | inl refused ↦ (
        b,
        rw (refused, pull_down_null b num (ground (arith, v.counts))) refl,
        rw refused refl,
        v,
        f.1,
      )
      | inr served ↦
          let (b', b'', c, pulled, same, _, _, first, consumed, left, v') =
            pull_down-consume b num v f.0 (ground (arith, v.counts)) in
          (
            b'',
            rw (served, pulled) (rw (consumed, first) refl),
            rw served left,
            v',
            Fits-mono _ _ us (omega (arith, ap length left, length-drop num (contents b))) f.1,
          )
    ]

-- From any valid buffer, a whole history of writes and reads sees what a stream would show, meets
-- no fault, and leaves what the stream holds.
pub run_client-run_stream :
    (us : List Use) (b : IoBuffer)
    → IsValid b
    → Fits (length (contents b)) us
    → (b' : IoBuffer) × (run_client b us ≡ ok (b', (run_stream (contents b) us).1))
      × (contents b' ≡ (run_stream (contents b) us).0)
      × IsValid b'
unfolding run_client run_stream
run_client-run_stream [] b v f = (b, refl, refl, v)
run_client-run_stream (u ∷ us) b v f =
    let (b', seen, held, v', f') = client-stream b u us v f in
    let (b'', later, left, v'') = run_client-run_stream us b' v' f' in
    (
      b'',
      rw seen (rw later (ap (λ s. ok (b'', (stream (contents b) u).1 ∷ (run_stream s us).1)) held)),
      left ∙ ap (λ s. (run_stream s us).0) held,
      v'',
    )
