-- ===== src/SimHttp/Threads.antt =====
-- The loop of `main11` in ztHttp/ztHttp/simHttp.cpp: each thread is given the address of the one
-- variable `client_sock`, and reads it when it begins. A step is an `accept` with the
-- `pthread_create` behind it, which both succeed, or a thread that begins.
use zt_http.Common.{
  ℕ, zero, suc, ◌+◌, ◌≡◌, refl, sym, ap, ◌∙◌, ℤ, pos, negsuc, Option, none, some, List, [], ◌∷◌,
  ◌++◌, map, append-nil, append_assoc, arith, length,
}
use zt_http.Common.{repeated}

-- `client_sock`, the number of threads that have not begun, and the descriptors that those that have
-- begun serve.
pub record Acceptor : Type 0 where
  pub client_sock : ℤ
  pub unstarted : ℕ
  pub serving : List ℕ

pub data Turn : Type 0 where
  accepts : ℕ → Turn
  begins : Turn

-- As `main11` enters the loop.
abbrev pub acceptor : Acceptor
acceptor = record { client_sock = negsuc 0; unstarted = 0; serving = [] }

-- One step; `none` where no thread is left to begin, or where it reads no descriptor.
unfoldable pub turn : Turn → Acceptor → Option Acceptor
turn (accepts fd) s = some (record s { client_sock = pos fd; unstarted = s.unstarted + 1 })
turn begins s = elim s.unstarted [
  | zero ↦ none
  | suc n ↦ elim s.client_sock [
    | pos fd ↦ some (record s { unstarted = n; serving = s.serving ++ fd ∷ [] })
    | negsuc k ↦ none
  ]
]

unfoldable pub turns : List Turn → Acceptor → Option Acceptor
unfolding turn
turns [] s = some s
turns (t ∷ ts) s = elim (turn t s) [ none ↦ none | some s' ↦ turns ts s' ]

-- Connections that arrive before any of their threads begins, the last one apart.
abbrev pub Batch : Type 0
Batch = List ℕ × ℕ

-- Each connection of a batch is accepted, and then all its threads begin; and so on.
abbrev pub in_batches : List Batch → List Turn
in_batches [] = []
in_batches ((fds, fd) ∷ batches) =
    map accepts fds ++ accepts fd ∷ (repeated (suc (length fds)) begins ++ in_batches batches)

-- For each connection of a batch the last descriptor of it.
abbrev pub last_of_each : List Batch → List ℕ
last_of_each [] = []
last_of_each ((fds, fd) ∷ batches) = repeated (suc (length fds)) fd ++ last_of_each batches

accepts_first :
    (fds : List ℕ) (fd : ℕ) (rest : List Turn) (c : ℤ) (n : ℕ) (served : List ℕ)
    → turns
        (map accepts fds ++ accepts fd ∷ rest)
        (record { client_sock = c; unstarted = n; serving = served })
      ≡ turns rest
          (record { client_sock = pos fd; unstarted = n + suc (length fds); serving = served })
unfolding turns
accepts_first [] fd rest c n served = refl
accepts_first (d ∷ ds) fd rest c n served =
    accepts_first ds fd rest (pos d) (n + 1) served
    ∙ ap (λ m. turns rest (record { client_sock = pos fd; unstarted = m; serving = served }))
        (omega arith)

begins_then :
    (n fd : ℕ) (rest : List Turn) (served : List ℕ)
    → turns
        (repeated n begins ++ rest)
        (record { client_sock = pos fd; unstarted = n; serving = served })
      ≡ turns rest
          (record { client_sock = pos fd; unstarted = 0; serving = served ++ repeated n fd })
unfolding turns
begins_then zero fd rest served =
    ap (λ l. turns rest (record { client_sock = pos fd; unstarted = 0; serving = l }))
      (sym (append-nil served))
begins_then (suc n) fd rest served =
    begins_then n fd rest (served ++ fd ∷ [])
    ∙ ap (λ l. turns rest (record { client_sock = pos fd; unstarted = 0; serving = l }))
        (append_assoc served (fd ∷ []) (repeated n fd))

batches_from :
    (batches : List Batch) (c : ℤ) (served : List ℕ)
    → (s : Acceptor) × (turns
          (in_batches batches)
          (record { client_sock = c; unstarted = 0; serving = served })
        ≡ some s)
      × (s.serving ≡ served ++ last_of_each batches)
      × (s.unstarted ≡ 0)
unfolding turns
batches_from [] c served = (_, refl, sym (append-nil served), refl)
batches_from ((fds, fd) ∷ batches) c served =
    let k = suc (length fds) in
    let (s, run, all, none_left) = batches_from batches (pos fd) (served ++ repeated k fd) in
    let counted : 0 + k ≡ k = omega arith in
    (
      s,
      accepts_first fds fd (repeated k begins ++ in_batches batches) c 0 served
          ∙ ap
              (λ m.
                turns (repeated k begins ++ in_batches batches)
                  (record { client_sock = pos fd; unstarted = m; serving = served }))
              counted
          ∙ begins_then k fd (in_batches batches) served
          ∙ run,
      all ∙ append_assoc served (repeated k fd) (last_of_each batches),
      none_left,
    )

-- Connections come in batches, each of which is accepted before the first of its threads begins:
-- each thread of a batch serves the descriptor of the batch's last connection, and the others of the
-- batch are served by none. So each connection has its thread where every batch has one connection.
pub batches_share_client_sock :
    (batches : List Batch)
    → (s : Acceptor) × (turns (in_batches batches) acceptor ≡ some s)
      × (s.serving ≡ last_of_each batches)
      × (s.unstarted ≡ 0)
batches_share_client_sock batches = batches_from batches (negsuc 0) []
