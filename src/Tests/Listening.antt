-- ===== src/Tests/Listening.antt =====
-- Listening sockets and the accept loop of simHttp, at concrete answers of the kernel.
use zt_http.Common.{◌≡◌, refl, true, pos, some, List, [], ◌∷◌, ok}
use zt_http.Sockets.{SockCall, socket, bind, listen, getsockname, Answers, startup}
use zt_http.SimHttp.Threads.{
  Acceptor, Batch, acceptor, turns, in_batches, batches_share_client_sock,
}

abbrev answers : Answers
answers = record {
  fd = some 3;
  binds = true;
  listens = true;
  names = true;
  chosen_port = 40000;
  client = some (4, 50000);
}

abbrev asked : List SockCall
asked = socket ∷ bind (pos 3) 0 ∷ getsockname (pos 3) 16 ∷ listen (pos 3) 5 ∷ []

started : startup answers 0 ≡ ok (asked, pos 3, 40000)
unfolding startup
started = refl

-- Two connections before their threads begin, and then one.
abbrev arrivals : List Batch
arrivals = (4 ∷ [], 5) ∷ ([], 6) ∷ []

batches_share_client_sock_example :
    (s : Acceptor) × (turns (in_batches arrivals) acceptor ≡ some s)
    × (s.serving ≡ 5 ∷ 5 ∷ 6 ∷ [])
    × (s.unstarted ≡ 0)
batches_share_client_sock_example = batches_share_client_sock arrivals
