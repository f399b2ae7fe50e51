-- ===== src/Server/Bursts.antt =====
-- Connections that arrive before the signal thread takes its signal.
use zt_http.Common.{
  ℕ, suc, ◌+◌, ◌%◌, ◌≤◌, ◌<◌, ◌≡◌, ap, ◌∙◌, subst, ◌≢◌, false, ℤ, pos, negsuc, succ_ℤ, Option, some,
  List, [], ◌∷◌, arith, length, ◌==◌, ok,
}
use zt_http.Common.Map.{update, update_self, update_ne}
use zt_http.Multiplexer.Sound.{AllBelow}
use zt_http.Multiplexer.{Handler, Object, World, remove_handler}
use zt_http.EmTask.{register_events}
use zt_http.EmTask.Registration.{Queued, NoFd, DistinctFds, merged_signals_block}
use zt_http.Server.{
  Server, backlog_queue, enqueue_and_wait, accepted, accept_round, signal_handle, sigusr1,
}

-- Connections accepted one after another.
unfoldable pub accept_all : Server → List (ℕ × ℕ) → Server
accept_all s [] = s
accept_all s (c ∷ cs) = accept_all (accept_round s (some c)) cs

-- The descriptors differ from those of the handlers, and from one another.
abbrev NewFds : List (ℕ × ℕ) → List Handler → Type 0
NewFds [] hs = Unit
NewFds ((fd, port) ∷ cs) hs = NoFd fd hs × ((r : ℕ) → NewFds cs (accepted r fd port ∷ hs))

pub AllBelow-suc : (n : ℕ) (ps : List ℕ) → AllBelow n ps → AllBelow (suc n) ps
AllBelow-suc n [] h = tt
AllBelow-suc n (p ∷ ps) h = (omega (arith, h.0), AllBelow-suc n ps h.1)

Queued-update :
    (live : ℕ → Option Object) (n : ℕ) (o : Option Object) (ps : List ℕ) (hs : List Handler)
    → AllBelow n ps
    → Queued live ps hs
    → Queued (update live n o) ps hs
Queued-update live n o [] [] b q = tt
Queued-update live n o [] (h ∷ hs) b q = absurd q
Queued-update live n o (p ∷ ps) [] b q = absurd q
Queued-update live n o (p ∷ ps) (h ∷ hs) b q =
    (update_ne live n p o (λ e. omega (arith, b.0, e)) ∙ q.0, Queued-update live n o ps hs b.1 q.1)

-- What waits: live handlers below the next address, for different descriptors.
record Waits (s : Server) (hs : List Handler) (n : ℕ) (flag : ℤ) : Type 0 where
  queued : Queued s.world.handlers s.world.wait_queue hs
  below : AllBelow s.next_object s.world.wait_queue
  distinct : DistinctFds hs
  count : length s.world.wait_queue ≡ n
  flagged : s.world.register_flag ≡ flag

accept_round-Waits :
    (s : Server) (fd port n : ℕ) (flag : ℤ) (hs : List Handler)
    → Waits s hs n flag
    → NoFd fd hs
    → n < backlog_queue
    → Waits
        (accept_round s (some (fd, port)))
        (accepted ((s.reactor_select + 1) % 2) fd port ∷ hs)
        (suc n)
        flag
unfolding accept_round enqueue_and_wait
accept_round-Waits s fd port n flag hs v new room =
    let more : (length s.world.wait_queue == backlog_queue) ≡ false =
      ground (arith, v.count, room) in
    rw more (record {
      queued = (
        update_self s.world.handlers s.next_object _,
        Queued-update s.world.handlers s.next_object _ s.world.wait_queue hs v.below v.queued,
      );
      below = (omega arith, AllBelow-suc s.next_object s.world.wait_queue v.below);
      distinct = (new, v.distinct);
      count = ap suc v.count;
      flagged = v.flagged;
    })

accept_all-Waits :
    (cs : List (ℕ × ℕ)) (s : Server) (n : ℕ) (flag : ℤ) (hs : List Handler)
    → Waits s hs n flag
    → NewFds cs hs
    → n + length cs ≤ backlog_queue
    → (hs' : List Handler) × Waits (accept_all s cs) hs' (n + length cs) flag
unfolding accept_all
accept_all-Waits [] s n flag hs v new fits = (hs, subst (λ k. Waits s hs k flag) (omega arith) v)
accept_all-Waits ((fd, port) ∷ cs) s n flag hs v new fits =
    let (hs', v') =
      accept_all-Waits cs (accept_round s (some (fd, port))) (suc n) flag _
        (accept_round-Waits s fd port n flag hs v new.0 (omega arith)) (new.1 _) (omega arith) in
    (hs', subst (λ k. Waits (accept_all s ((fd, port) ∷ cs)) hs' k flag) (omega arith) v')

-- From an empty queue and no registration due: when another number of connections than one, 32 at
-- most, arrives before the signal thread takes its one pending signal, then a reactor registers them,
-- and as long as the flag stays as that leaves it, every removal from any reactor is refused.
pub burst_blocks :
    (s : Server) (cs : List (ℕ × ℕ)) (r : ℕ)
    → s.world.wait_queue ≡ []
    → s.world.register_flag ≡ pos 0
    → NewFds cs []
    → length cs ≤ 32
    → length cs ≢ 1
    → (w' : World) × (register_events (signal_handle (accept_all s cs) sigusr1).world r ≡ ok w')
      × ((later : World)
          → later.register_flag ≡ w'.register_flag
          → (r' p : ℕ) → remove_handler later r' p ≡ ok (later, negsuc 0))
unfolding signal_handle
burst_blocks s cs r empty idle new fits many =
    let nothing_waits : Waits s [] 0 (pos 0) = record {
      queued = rw empty tt;
      below = rw empty tt;
      distinct = tt;
      count = ap length empty;
      flagged = idle;
    } in
    let (hs, v) = accept_all-Waits cs s 0 (pos 0) [] nothing_waits new (omega arith) in
    merged_signals_block hs (signal_handle (accept_all s cs) sigusr1).world r 1 v.queued v.distinct
      (ap succ_ℤ v.flagged) (λ e. many (omega (arith, v.count, e)))
