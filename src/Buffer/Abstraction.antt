-- ===== src/Buffer/Abstraction.antt =====
-- `IOBuffer` up to what its clients can see.
use zt_http.Common.{
  ℕ, ◌^◌, ◌≤◌, ◌<◌, ◌≡◌, refl, sym, ap, ◌∙◌, ◌↔◌, inl, inr, true, false, ◌||◌, Option, none, some,
  List, [], ◌∷◌, arith, Bytes, length, take_all, ltb, ◌==◌, Bool-cases, Outcome, ok, fault, ◌>>=◌,
}
use zt_http.Buffer.{IoBuffer}
use zt_http.Buffer.Stream.{contents, IsValid}
use zt_http.Buffer.Refinement.{
  Use, get, run_client, run_stream, stream, Fits, run_client-run_stream,
}

-- What a history of writes and reads shows its client.
unfoldable pub observe : IoBuffer → List Use → Outcome (List (Option Bytes))
observe b us = do (b', seen) ← run_client b us; ok seen

-- No history tells the two buffers apart.
abbrev pub Alike : IoBuffer → IoBuffer → Type 0
Alike b e =
    (us : List Use)
    → Fits (length (contents b)) us
    → Fits (length (contents e)) us
    → observe b us ≡ observe e us

observe_lem :
    (b : IoBuffer) (us : List Use)
    → IsValid b
    → Fits (length (contents b)) us
    → observe b us ≡ ok (run_stream (contents b) us).1
unfolding observe
observe_lem b us v f = let (b', run, _, _) = run_client-run_stream us b v f in rw run refl

first_seen : Outcome (List (Option Bytes)) → Option Bytes
first_seen (ok (o ∷ os)) = o
first_seen (ok []) = none
first_seen (fault e) = none

-- One read shows alike buffers' streams alike.
read-Alike :
    (b e : IoBuffer) (n : ℕ)
    → IsValid b
    → IsValid e
    → length (contents b) < 2 ^ 31
    → length (contents e) < 2 ^ 31
    → 0 < n
    → Alike b e
    → (stream (contents b) (get n)).1 ≡ (stream (contents e) (get n)).1
unfolding run_stream first_seen
read-Alike b e n v w small small' some_byte alike =
    let us : List Use = get n ∷ [] in
    ap first_seen (
      sym (observe_lem b us v (some_byte, small))
      ∙ alike us (some_byte, small) (some_byte, small')
      ∙ observe_lem e us w (some_byte, small'))

shown_all : (s : Bytes) → 0 < length s → (stream s (get (length s))).1 ≡ some s
unfolding stream
shown_all s h =
    let served : (ltb (length s) (length s) || length s == 0) ≡ false = ground arith in
    rw served (ap some (take_all (length s) s (omega arith)))

shown_none : (s : Bytes) (n : ℕ) → length s < n → (stream s (get n)).1 ≡ none
unfolding stream
shown_none s n h =
    let refused : (ltb (length s) n || length s == 0) ≡ true = ground arith in rw refused refl

not_none : (t : Bytes) → some t ≡ none → ⊥
not_none t e = cc

some_of : Bytes → Option Bytes → Bytes
some_of s none = s
some_of s (some t) = t

no_shorter :
    (s t : Bytes)
    → ((n : ℕ) → 0 < n → (stream s (get n)).1 ≡ (stream t (get n)).1)
    → length t ≤ length s
no_shorter s t same = elim (Bool-cases (ltb (length s) (length t))) [
  | inl less ↦ absurd (
      not_none t (
        sym (shown_all t (ground (arith, less)))
        ∙ sym (same (length t) (ground (arith, less)))
        ∙ shown_none s (length t) (ground (arith, less))))
  | inr enough ↦ ground (arith, enough)
]

nil_of_length : (s : Bytes) → length s ≡ 0 → s ≡ []
nil_of_length [] h = refl
nil_of_length (c ∷ s) h = absurd (omega arith)

-- Streams that every read shows alike are equal.
streams_alike :
    (s t : Bytes) → ((n : ℕ) → 0 < n → (stream s (get n)).1 ≡ (stream t (get n)).1) → s ≡ t
unfolding some_of
streams_alike s t same =
    let size : length s ≡ length t =
      omega (arith, no_shorter s t same, no_shorter t s (λ n h. sym (same n h))) in
    elim (Bool-cases (ltb 0 (length s))) [
      | inl some_byte ↦
          let some_s : 0 < length s = ground (arith, some_byte) in
          ap (some_of s) (
            sym (shown_all s some_s)
            ∙ same (length s) some_s
            ∙ ap (λ n. (stream t (get n)).1) size
            ∙ shown_all t (omega arith))
      | inr nothing ↦
          nil_of_length s (ground (arith, nothing))
          ∙ sym (nil_of_length t (ground (arith, nothing)))
    ]

-- Two well-formed buffers of fewer than 2 ^ 31 bytes each: no history of writes and reads that keeps
-- both below 2 ^ 31 bytes, and reads a byte at least each time, shows a client a difference between
-- them, just when the chunks of both hold the same bytes one after the other.
pub Alike-iff_contents :
    (b e : IoBuffer)
    → IsValid b
    → IsValid e
    → length (contents b) < 2 ^ 31
    → length (contents e) < 2 ^ 31
    → Alike b e ↔ (contents b ≡ contents e)
Alike-iff_contents b e v w small small' = (
  λ alike.
      streams_alike (contents b) (contents e) (λ n h. read-Alike b e n v w small small' h alike),
  λ same us f f'.
      observe_lem b us v f ∙ ap (λ s. ok (run_stream s us).1) same ∙ sym (observe_lem e us w f'),
)
