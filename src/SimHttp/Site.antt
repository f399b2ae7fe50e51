-- ===== src/SimHttp/Site.antt =====
-- `main11` of ztHttp/ztHttp/simHttp.cpp with its threads: the loop that accepts connections, and
-- `accept_request` on the connection whose descriptor a thread has read.
use zt_http.Common.{
  ℕ, ◌≡◌, refl, sym, ap, ◌∙◌, subst, ◌≢◌, true, Option, some, List, [], ◌∷◌, ◌++◌, map, Bytes,
  Outcome, ok, ◌>>=◌,
}
use zt_http.Common.Map.{update, update_self, update_ne}
use zt_http.SimHttp.{Connection}
use zt_http.SimHttp.Cgi.{Kernel}
use zt_http.SimHttp.Accept.{Stack, accept_request}
use zt_http.SimHttp.Respond.{respond, respond_post, IsGet, IsPost}
use zt_http.SimHttp.Forms.{accept_request-respond_post}
use zt_http.SimHttp.Gets.{accept_request-respond}
use zt_http.SimHttp.Threads.{
  Acceptor, acceptor, turns, in_batches, Batch, last_of_each, batches_share_client_sock,
}

-- The threads that have begun, each from the first to the last of its steps; no two connections
-- share anything.
unfoldable pub serve_each :
    Kernel → (ℕ → Stack) → List ℕ → (ℕ → Connection) → Outcome (ℕ → Connection)
serve_each k stacks [] clients = ok clients
serve_each k stacks (fd ∷ fds) clients = do
  c ← accept_request k (stacks fd) (clients fd)
  serve_each k stacks fds (update clients fd c)

-- A client by its descriptor, what is left of its request, and what it is to be sent.
pub record Client : Type 0 where
  pub fd : ℕ
  pub left : Bytes
  pub reply : Bytes

-- The client's connection holds a well-formed request, and this is the answer to it.
pub data Wants (k : Kernel) (stack : Stack) (s : Connection) (c : Client) : Type 0 where
  gets :
      (url : Bytes) (query : Option Bytes) (texts : List Bytes)
      → IsGet s url query texts c.left
      → respond k url query ≡ ok c.reply
      → Wants k stack s c
  posts :
      (url : Bytes) (texts : List Bytes) (body : Bytes)
      → IsPost s url texts body
      → respond_post k stack url texts body ≡ ok (c.left, c.reply)
      → Wants k stack s c

abbrev NotIn : ℕ → List Client → Type 0
NotIn fd [] = Unit
NotIn fd (c ∷ cs) = (fd ≢ c.fd) × NotIn fd cs

-- Descriptors that are open at the same time differ.
abbrev pub Apart : List Client → Type 0
Apart [] = Unit
Apart (c ∷ cs) = NotIn c.fd cs × Apart cs

abbrev pub Asks : Kernel → (ℕ → Stack) → (ℕ → Connection) → List Client → Type 0
Asks k stacks clients [] = Unit
Asks k stacks clients (c ∷ cs) = Wants k (stacks c.fd) (clients c.fd) c × Asks k stacks clients cs

abbrev pub Answered : (ℕ → Connection) → (ℕ → Connection) → List Client → Type 0
Answered clients after [] = Unit
Answered clients after (c ∷ cs) =
    (after c.fd
      ≡ record { input = c.left; output = (clients c.fd).output ++ c.reply; closed = true })
    × Answered clients after cs

abbrev pub fd_of : Client → ℕ
fd_of c = c.fd

-- One thread for each connection before the next is accepted.
abbrev pub one_by_one : List Client → List Batch
one_by_one cs = map (λ c. ([], c.fd)) cs

last_of_each-one_by_one : (cs : List Client) → last_of_each (one_by_one cs) ≡ map fd_of cs
last_of_each-one_by_one [] = refl
last_of_each-one_by_one (c ∷ cs) = ap (λ l. c.fd ∷ l) (last_of_each-one_by_one cs)

-- What the others ask and are sent does not change with a connection that is not among them.
Asks-update :
    (k : Kernel) (stacks : ℕ → Stack) (clients : ℕ → Connection) (fd : ℕ) (x : Connection)
    → (cs : List Client) → NotIn fd cs
    → Asks k stacks clients cs
    → Asks k stacks (update clients fd x) cs
Asks-update k stacks clients fd x [] apart asks = tt
Asks-update k stacks clients fd x (c ∷ cs) apart asks =
    let same = sym (update_ne clients fd c.fd x apart.0) in
    (
      subst (λ s. Wants k (stacks c.fd) s c) same asks.0,
      Asks-update k stacks clients fd x cs apart.1 asks.1,
    )

Answered-update :
    (clients after : ℕ → Connection) (fd : ℕ) (x : Connection) (cs : List Client)
    → NotIn fd cs
    → Answered (update clients fd x) after cs
    → Answered clients after cs
Answered-update clients after fd x [] apart answered = tt
Answered-update clients after fd x (c ∷ cs) apart answered = (
  answered.0
      ∙ ap (λ s. record { input = c.left; output = s.output ++ c.reply; closed = true })
          (update_ne clients fd c.fd x apart.0),
  Answered-update clients after fd x cs apart.1 answered.1,
)

accept_request-Wants :
    (k : Kernel) (stack : Stack) (s : Connection) (c : Client)
    → Wants k stack s c
    → accept_request k stack s
      ≡ ok (record { input = c.left; output = s.output ++ c.reply; closed = true })
accept_request-Wants k stack s c (gets url query texts g answer) =
    accept_request-respond k stack s url query texts c.left g ∙ rw answer refl
accept_request-Wants k stack s c (posts url texts body p answer) =
    accept_request-respond_post k stack s url texts body p ∙ rw answer refl

module _ (k : Kernel) (stacks : ℕ → Stack) where
  -- The connections of all these clients are served, and no other changes.
  serve_each-Answered :
      (cs : List Client) (clients : ℕ → Connection)
      → Apart cs
      → Asks k stacks clients cs
      → (after : ℕ → Connection) × (serve_each k stacks (map fd_of cs) clients ≡ ok after)
        × Answered clients after cs
        × ((fd : ℕ) → NotIn fd cs → after fd ≡ clients fd)
  unfolding serve_each
  serve_each-Answered [] clients apart asks = (clients, refl, tt, λ fd h. refl)
  serve_each-Answered (c ∷ cs) clients apart asks =
      let served : Connection = record {
        input = c.left;
        output = (clients c.fd).output ++ c.reply;
        closed = true;
      } in
      let clients' = update clients c.fd served in
      let (after, run, answered, others) =
        serve_each-Answered cs clients' apart.1
          (Asks-update k stacks clients c.fd served cs apart.0 asks.1) in
      (
        after,
        rw (accept_request-Wants k (stacks c.fd) (clients c.fd) c asks.0) run,
        (
          others c.fd apart.0 ∙ update_self clients c.fd served,
          Answered-update clients after c.fd served cs apart.0 answered,
        ),
        λ fd h. others fd h.1 ∙ update_ne clients c.fd fd served (λ e. h.0 (sym e)),
      )

  -- Clients with descriptors that differ each ask by a well-formed GET or POST that `respond` or
  -- `respond_post` answers, and each thread reads its descriptor before the next connection is
  -- accepted. From its start on `main11` then begins a thread for each, and when each has run to its
  -- end its client has been sent the answer and no more, its socket is closed with as much left unread
  -- as the description says, and any other connection is as it was.
  pub site_answers :
      (cs : List Client) (clients : ℕ → Connection) (other : ℕ)
      → Apart cs
      → Asks k stacks clients cs
      → NotIn other cs
      → (s : Acceptor) × (after : ℕ → Connection) × (turns (in_batches (one_by_one cs)) acceptor
          ≡ some s)
        × (serve_each k stacks s.serving clients ≡ ok after)
        × Answered clients after cs
        × (after other ≡ clients other)
  site_answers cs clients other apart asks elsewhere =
      let (s, run, serving, _) = batches_share_client_sock (one_by_one cs) in
      let (after, served, answered, others) = serve_each-Answered cs clients apart asks in
      (
        s,
        after,
        run,
        ap (λ fds. serve_each k stacks fds clients) (serving ∙ last_of_each-one_by_one cs) ∙ served,
        answered,
        others other elsewhere,
      )
