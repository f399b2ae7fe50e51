-- ===== src/Tcp/Reading.antt =====
-- What `TcpSocket::read` makes of what comes in, piece by piece.
use zt_http.Common.{
  ℕ, ◌^◌, ◌≤◌, ◌<◌, ◌≡◌, refl, true, false, pos, List, [], ◌∷◌, ◌++◌, arith, Bytes, length, take,
  take_all, ltb, ◌==◌, undefined, Outcome, ok, fault, ◌>>=◌,
}
use zt_http.Buffer.{empty, pull_down}
use zt_http.Buffer.Single.{
  single, append_data-single, append-single, pull_down-single, consume-single, consume-empty,
}
use zt_http.Http
use zt_http.Http.{Http}
use zt_http.Tcp.{
  TcpSocket, recv_failed, received, nothing, read, recv_into, run_recv_call, recv_result,
  close_if_empty,
}

-- A connected socket with no callback for reading and nothing in its buffer, the other fields any.
abbrev pub reading : TcpSocket → TcpSocket
reading s = record s { is_connected = true; recv_call = nothing; recv_buffer = empty }

-- A piece that one `recv` gives.
abbrev IsPiece : Bytes → Type 0
IsPiece bytes = (0 < length bytes) × (length bytes ≤ 1024)

abbrev ArePieces : List Bytes → Type 0
ArePieces [] = Unit
ArePieces (piece ∷ pieces) = IsPiece piece × ArePieces pieces

recv_into-single :
    (c : ℕ) (cs : Bytes)
    → length (c ∷ cs) < 2 ^ 31
    → recv_into (received (c ∷ cs)) empty ≡ ok (single (c ∷ cs))
unfolding recv_into
recv_into-single c cs small = rw (append_data-single (c ∷ cs) small) (append-single (c ∷ cs) small)

Http-read-single :
    (h : Http) (c : ℕ) (cs : Bytes)
    → length (c ∷ cs) < 2 ^ 31
    → Http.read h (single (c ∷ cs)) ≡ ok (record { in_buffer = c ∷ cs }, empty, length (c ∷ cs))
unfolding Http.read
Http-read-single h c cs small =
    let fits : ltb (length (c ∷ cs)) (length (c ∷ cs)) ≡ false = ground arith in
    let whole : take (length cs) cs ≡ cs = take_all (length cs) cs (omega arith) in
    rw (pull_down-single c cs) (rw (fits, whole, consume-single c cs small) refl)

-- The request is now these bytes.
abbrev asked : TcpSocket → Bytes → TcpSocket
asked s bytes = record s { http = record { in_buffer = bytes } }

read_piece :
    (s : TcpSocket) (c : ℕ) (cs : Bytes)
    → length (c ∷ cs) < 2 ^ 31
    → read (received (c ∷ cs)) (reading s)
      ≡ ok (reading (asked s (c ∷ cs)), [], pos (length (c ∷ cs)))
unfolding read run_recv_call recv_result close_if_empty
read_piece s c cs small =
    let some_byte : (length (c ∷ cs) == 0) ≡ false = ground arith in
    rw (recv_into-single c cs small) (rw (some_byte, Http-read-single s.http c cs small) refl)

Http-read-empty : (h : Http) → Http.read h empty ≡ fault undefined
unfolding Http.read pull_down
Http-read-empty h = rw (consume-empty 0) refl

read_failed : (s : TcpSocket) → read recv_failed (reading s) ≡ fault undefined
unfolding read run_recv_call recv_into
read_failed s = rw (Http-read-empty s.http) refl

read_end : (s : TcpSocket) → read (received []) (reading s) ≡ fault undefined
unfolding read run_recv_call recv_into
read_end s = rw (Http-read-empty s.http) refl

-- One `recv` after another.
abbrev pub read_each : List Bytes → TcpSocket → Outcome TcpSocket
read_each [] s = ok s
read_each (piece ∷ pieces) s = read (received piece) s >>= λ r. read_each pieces r.0

-- A connected socket with no callback for reading and nothing in its buffer reads a request that comes
-- in pieces, one after another, each of 1 to 1024 bytes: every read succeeds, the request that `Http`
-- holds in the end is the last piece alone, and the read that comes next is undefined behaviour if it
-- fails or meets the end of the stream.
pub read_pieces_last :
    (pieces : List Bytes) (last : Bytes) (s : TcpSocket)
    → ArePieces pieces
    → IsPiece last
    → (s' : TcpSocket) × (read_each (pieces ++ last ∷ []) (reading s) ≡ ok s')
      × (s'.http.in_buffer ≡ last)
      × (read recv_failed s' ≡ fault undefined)
      × (read (received []) s' ≡ fault undefined)
read_pieces_last [] [] s are (some_byte, _) = absurd (omega arith)
read_pieces_last [] (c ∷ cs) s are (_, fits) =
    let s' = asked s (c ∷ cs) in
    (reading s', rw (read_piece s c cs (omega arith)) refl, refl, read_failed s', read_end s')
read_pieces_last ([] ∷ pieces) last s ((some_byte, _), are) whole = absurd (omega arith)
read_pieces_last ((c ∷ cs) ∷ pieces) last s ((_, fits), are) whole =
    let (s', run, request, failed, ended) =
      read_pieces_last pieces last (asked s (c ∷ cs)) are whole in
    (s', rw (read_piece s c cs (omega arith)) run, request, failed, ended)
