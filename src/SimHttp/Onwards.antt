-- ===== src/SimHttp/Onwards.antt =====
-- What the steps of a request add to the output of a socket, and take from its input.
use zt_http.Common.{
  ℕ, zero, suc, ◌-◌, ◌≡◌, refl, sym, ap, ◌∙◌, not, ◌&&◌, List, [], ◌∷◌, ◌++◌, append-nil,
  append_assoc, Bytes, codes, ltb, ◌==◌, if◌then◌else◌, if_cases, ok, Holds,
}
use zt_http.CText.{str_eq, c_str, fgets, File}
use zt_http.SimHttp.{
  Connection, send, send_each, newline_of, receive_line, get_line, discard, store_text,
}
use zt_http.SimHttp.Cgi.{feed}
use zt_http.SimHttp.Replies.{send_arrays, cat_loop}

-- From `s` on, some bytes were sent behind those sent before, some of the bytes to receive were
-- received, and the socket was not closed.
pub record Onwards (s c : Connection) : Type 0 where
  pub sent : Bytes
  pub output : c.output ≡ s.output ++ sent
  pub received : Bytes
  pub input : s.input ≡ received ++ c.input
  pub closed : c.closed ≡ s.closed

pub no_step : (s : Connection) → Onwards s s
no_step s = record {
  sent = [];
  output = sym (append-nil s.output);
  received = [];
  input = refl;
  closed = refl;
}

module _ (s0 s : Connection) (o : Onwards s0 s) where
  pub sending : (text : Bytes) → Onwards s0 (send s text)
  sending text = record {
    sent = o.sent ++ text;
    output = ap (λ l. l ++ text) o.output ∙ append_assoc s0.output o.sent text;
    received = o.received;
    input = o.input;
    closed = o.closed;
  }

  pub receiving :
      (bytes left : Bytes) → s.input ≡ bytes ++ left → Onwards s0 (record s { input = left })
  receiving bytes left e = record {
    sent = o.sent;
    output = o.output;
    received = o.received ++ bytes;
    input = o.input ∙ ap (λ l. o.received ++ l) e ∙ sym (append_assoc o.received bytes left);
    closed = o.closed;
  }

pub sending_each :
    (texts : List Bytes) (s0 s : Connection) → Onwards s0 s → Onwards s0 (send_each s texts)
sending_each [] s0 s o = o
sending_each (text ∷ texts) s0 s o = sending_each texts s0 (send s text) (sending s0 s o text)

pub sending_arrays :
    (texts : List Bytes) (buf : Bytes) (s0 s : Connection)
    → Onwards s0 s
    → Onwards s0 (send_arrays s buf texts)
unfolding send_arrays
sending_arrays [] buf s0 s o = o
sending_arrays (text ∷ texts) buf s0 s o =
    sending_arrays texts (store_text text buf) s0 (send s (store_text text buf))
      (sending s0 s o (store_text text buf))

-- The bytes before what is left of `cs`.
abbrev pub Suffix : {A : Type 0} → Bytes → A × Bytes → Type 0
Suffix cs r = (bytes : Bytes) × (cs ≡ bytes ++ r.1)

newline_suffix : (c : ℕ) (cs : Bytes) → Suffix cs (newline_of c cs)
unfolding newline_of
newline_suffix c [] = if_cases (Suffix []) (c == b'\r') (b'\n', []) (c, []) ([], refl) ([], refl)
newline_suffix c (d ∷ cs) =
    if_cases (Suffix (d ∷ cs)) (c == b'\r') (if d == b'\n' then (d, cs) else (b'\n', d ∷ cs))
      (c, d ∷ cs)
      (if_cases (Suffix (d ∷ cs)) (d == b'\n') (d, cs) (b'\n', d ∷ cs) (d ∷ [], refl) ([], refl))
      ([], refl)

line_suffix : (room : ℕ) (cs : Bytes) → Suffix cs (receive_line room cs)
unfolding receive_line
line_suffix zero cs = ([], refl)
line_suffix (suc room) [] = ([], refl)
line_suffix (suc room) (c ∷ cs) =
    let (d, unread) = newline_of c cs in
    let (line, left) = receive_line room unread in
    let (bytes, e) = newline_suffix c cs in
    let (more, e') = line_suffix room unread in
    if_cases (Suffix (c ∷ cs)) (d == b'\n') (d ∷ [], unread) (d ∷ line, left)
      (c ∷ bytes, ap (λ l. c ∷ l) e)
      (
        c ∷ (bytes ++ more),
        ap (λ l. c ∷ l) (e ∙ ap (λ l. bytes ++ l) e' ∙ sym (append_assoc bytes more left)),
      )

pub feed_suffix : (n c : ℕ) (cs : Bytes) → Suffix cs (feed n c cs)
unfolding feed
feed_suffix zero c cs = ([], refl)
feed_suffix (suc n) c [] = feed_suffix n c []
feed_suffix (suc n) c (d ∷ cs) =
    let (bytes, e) = feed_suffix n d cs in (d ∷ bytes, ap (λ l. d ∷ l) e)

-- A round of `get_line`.
pub get_line-Onwards :
    (s0 s : Connection) (buf : Bytes) (size : ℕ) → Onwards s0 s → Onwards s0 (get_line s buf size).0
unfolding get_line
get_line-Onwards s0 s buf size o =
    let (bytes, e) = line_suffix (size - 1) s.input in receiving s0 s o bytes _ e

pub discard-Onwards :
    (fuel : ℕ) (s0 s : Connection) (line : Bytes × ℕ)
    → Onwards s0 s
    → Holds (λ r. Onwards s0 r.0) (discard fuel s line)
unfolding discard
discard-Onwards zero s0 s (buf, n) o = tt
discard-Onwards (suc fuel) s0 s (buf, n) o =
    let (s', line, count) = get_line s buf 1024 in
    if_cases (Holds (λ r. Onwards s0 r.0)) (ltb 0 n && not (str_eq (codes "\n") (c_str buf)))
      (discard fuel s' (line, count)) (ok (s, buf, n))
      (discard-Onwards fuel s0 s' (line, count) (get_line-Onwards s0 s buf 1024 o)) o

pub cat_loop-Onwards :
    (fuel : ℕ) (line : Bytes) (f : File) (s0 s : Connection)
    → Onwards s0 s
    → Holds (Onwards s0) (cat_loop fuel (line, f) s)
unfolding cat_loop
cat_loop-Onwards zero line f s0 s o = tt
cat_loop-Onwards (suc fuel) line f s0 s o =
    let next = fgets 1024 f.rest in
    let s' = send s (c_str line) in
    if_cases (Holds (Onwards s0)) f.at_eof (ok s) (cat_loop fuel next s') o
      (cat_loop-Onwards fuel next.0 next.1 s0 s' (sending s0 s o (c_str line)))
