-- ===== src/Tests/Answers.antt =====
-- Answers at concrete requests and files.
use zt_http.Common.{
  ◌≡◌, refl, true, pos, negsuc, none, some, [], ◌∷◌, ◌++◌, arith, Bytes, codes, length, ◌==◌,
  if◌then◌else◌, undefined, ok, fault,
}
use zt_http.Tcp.{recv_failed, read}
use zt_http.Tcp.Reading.{reading, read_each, read_pieces_last}
use zt_http.Buffer.{IoBuffer, empty, null}
use zt_http.Buffer.Stream.{contents, IsValid}
use zt_http.Http
use zt_http.Http.{Http, FileSystem, unimplemented_text, headers_text, cat, serve_file}
use zt_http.Http.Answer.{write-unimplemented}
use zt_http.Http.Cat.{cat-Delivers, Delivers}
use zt_http.Http.Serve.{serve_file_whole}
use zt_http.Tcp
use zt_http.Tcp.{TcpSocket, Sent, sent, received, send, shutdown_wr, tcp_socket, nothing}
use zt_http.CText.{has_nul}
use zt_http.Tcp.Write.{write-sends, write-undefined}

abbrev site : FileSystem
site = record {
  stat = λ path. some 0;
  contents_of = λ path. if length path == 9 then some (codes "<p>hi</p>\n") else none;
}

abbrev get_index : Http
get_index = record { in_buffer = codes "GET / HTTP/1.0\r\n\r\n" }

abbrev garbage : Bytes
garbage = 7 ∷ 7 ∷ 7 ∷ []

empty-IsValid : IsValid empty
empty-IsValid = record { counts = refl; fits = omega arith }

write-unimplemented_example :
    (b' : IoBuffer) × (Http.write get_index site garbage garbage empty ≡ ok (b', negsuc 0))
    × (contents b' ≡ unimplemented_text)
    × IsValid b'
write-unimplemented_example =
    write-unimplemented get_index site garbage garbage empty empty-IsValid (omega arith)
      (omega arith)

cat-Delivers_example :
    (b' : IoBuffer) × (cat (codes "ab\ncd") empty ≡ ok b') × Delivers empty b' (codes "ab\ncd")
cat-Delivers_example = cat-Delivers (codes "ab\ncd") empty (omega arith) empty-IsValid (omega arith)

abbrev arrived : IoBuffer
arrived = record { chunks = codes "GET /" ∷ codes " HTTP" ∷ []; size = 10 }

serve_file_whole_example :
    (b' : IoBuffer) × (serve_file get_index site garbage (codes "htdocs/hi") empty ≡ ok b')
    × (contents b' ≡ headers_text ++ codes "<p>hi</p>\n")
    × IsValid b'
serve_file_whole_example =
    serve_file_whole get_index site garbage (codes "htdocs/hi") (codes "<p>hi</p>") empty refl
      (omega arith) (omega arith) empty-IsValid (omega arith)

abbrev connected : TcpSocket
connected = record {
  fd = 7;
  port = 80;
  send_call = nothing;
  recv_call = nothing;
  dis_conn_call = nothing;
  recv_buffer = empty;
  send_buffer = empty;
  max_recv_size = 1024;
  max_send_size = 1024;
  is_connected = true;
  status = 0;
  http = get_index;
}

-- A NUL is still to be sent in front of the answer.
abbrev ended : TcpSocket
ended = record connected { send_buffer = record { chunks = (0 ∷ []) ∷ []; size = 1 } }

write-sends_example :
    (s' : TcpSocket) × (Tcp.write site garbage garbage (sent 207) null ended
      ≡ ok (
        s',
        send 7 (0 ∷ unimplemented_text)
            ∷ (if s'.send_buffer.size == 0 then shutdown_wr 7 ∷ [] else []),
        pos 207,
      ))
    × (contents s'.send_buffer ≡ [])
    × IsValid s'.send_buffer
unfolding has_nul
write-sends_example =
    write-sends site garbage garbage 206 ended refl refl
      (record { counts = refl; fits = omega arith }) (omega arith) (omega arith) refl (omega arith)
      (omega arith)

write-undefined_example : Tcp.write site garbage garbage (sent 206) null connected ≡ fault undefined
write-undefined_example =
    write-undefined site garbage garbage (sent 206) connected refl refl empty-IsValid (omega arith)
      (omega arith) tt (omega arith)

read_pieces_last_example :
    (s' : TcpSocket) × (read_each
        (codes "GET / HTTP/1.0\r\n" ∷ codes "\r\n" ∷ [])
        (reading connected)
      ≡ ok s')
    × (s'.http.in_buffer ≡ codes "\r\n")
    × (read recv_failed s' ≡ fault undefined)
    × (read (received []) s' ≡ fault undefined)
read_pieces_last_example =
    read_pieces_last (codes "GET / HTTP/1.0\r\n" ∷ []) (codes "\r\n") connected
      ((omega arith, omega arith), tt) (omega arith, omega arith)
