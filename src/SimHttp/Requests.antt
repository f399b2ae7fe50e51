-- ===== src/SimHttp/Requests.antt =====
-- What of a request stands behind its request line, and the file that is sent for it.
use zt_http.Common.{
  ◌+◌, ◌<◌, ◌≡◌, refl, ap, ◌∙◌, true, not, ◌&&◌, some, List, [], ◌∷◌, ◌++◌, arith, Bytes, codes,
  length, set, length-append, ltb, ok,
}
use zt_http.CText.{str_eq, c_str}
use zt_http.Buffer.Stream.{joined}
use zt_http.SimHttp.{Connection, discard, rounds}
use zt_http.SimHttp.Replies.{headers, headers_texts, not_found, not_found_texts, cat}
use zt_http.SimHttp.Discard.{AreHeaders, block, discard-block}
use zt_http.SimHttp.Sends.{send_each_lem}
use zt_http.SimHttp.Shown.{shown, cat_shows}
use zt_http.SimHttp.Cgi.{Kernel}
use zt_http.SimHttp.Accept.{serve_file, send_file}

length-block : (texts : List Bytes) → length texts + 1 < length (block texts)
length-block [] = omega arith
length-block (text ∷ texts) =
    omega (arith, length-block texts, length-append text (b'\r' ∷ b'\n' ∷ block texts))

pub rounds_enough :
    (texts : List Bytes) (body : Bytes) (s : Connection)
    → s.input ≡ block texts ++ body
    → length texts + 1 < rounds s
rounds_enough texts body s held =
    omega (arith, ap length held, length-append (block texts) body, length-block texts)

starts_unfinished :
    (stack : Bytes)
    → (ltb 0 1 && not (str_eq (codes "\n") (c_str (set (set stack 0 b'A') 1 0)))) ≡ true
unfolding str_eq c_str
starts_unfinished [] = refl
starts_unfinished (x ∷ []) = refl
starts_unfinished (x ∷ y ∷ stack) = refl

pub discard_headers :
    (stack : Bytes) (s : Connection) (texts : List Bytes) (body : Bytes)
    → AreHeaders texts
    → s.input ≡ block texts ++ body
    → (buf' : Bytes) × (discard (rounds s) s (set (set stack 0 b'A') 1 0, 1)
        ≡ ok (record s { input = body }, buf', 1))
discard_headers stack s texts body h held =
    discard-block (rounds s) texts s (set (set stack 0 b'A') 1 0) 1 body
      (rounds_enough texts body s held) h held (starts_unfinished stack)

pub serve_file_sends :
    (k : Kernel) (stack filename : Bytes) (s : Connection) (texts : List Bytes) (body file : Bytes)
    → AreHeaders texts
    → s.input ≡ block texts ++ body
    → k.files.contents_of filename ≡ some file
    → serve_file k stack filename s
      ≡ ok (record s {
        input = body;
        output = (s.output ++ joined headers_texts) ++ shown 1023 [] file;
      })
unfolding serve_file send_file headers
serve_file_sends k stack filename s texts body file h held found =
    let (buf', run) = discard_headers stack s texts body h held in
    rw (run, found)
      (ap (cat file) (send_each_lem (record s { input = body }) headers_texts)
        ∙ cat_shows file (record s { input = body; output = s.output ++ joined headers_texts }))

pub not_found_lem :
    (s : Connection) → not_found s ≡ record s { output = s.output ++ joined not_found_texts }
unfolding not_found
not_found_lem s = send_each_lem s not_found_texts
