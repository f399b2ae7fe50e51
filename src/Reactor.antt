-- ===== src/Reactor.antt =====
-- ztHttp/ztHttp/EventManager.h and ztHttp/ztHttp/EventManager.cpp: class `EventMultiplexerAbstractClass`,
-- class `Reactor`, which hands its calls on to one, and class `EMTask` over any of them. `S` is the
-- state that they share.
pub mod Rounds
pub mod Epoll
use zt_http.Common.{
  ℕ, zero, suc, ◌+◌, ◌-◌, ◌*◌, ◌/◌, ◌%◌, ◌^◌, ◌≤◌, ◌<◌, min, max, ◌≡◌, refl, sym, ap, ◌∙◌, subst,
  fun_ext, ◌≢◌, ◌↔◌, ◌⊎◌, inl, inr, Bool, true, false, not, ◌&&◌, ◌||◌, bit_and, bit_or, ℤ, pos,
  negsuc, succ_ℤ, pred_ℤ, is_nonzero, Option, none, some, List, [], ◌∷◌, ◌++◌, map, append-nil,
  append_assoc, arith, Bytes, codes, length, get_or, set, take, drop, length-append, length-take,
  length-drop, take-append-drop, take_all, drop_all, take-append, drop-append, length-set, ltb, leb,
  ◌==◌, if◌then◌else◌, ==_iff, Bool-cases, Option-cases, if_cases, Fault, undefined, aborted,
  out_of_range, endless, Outcome, ok, fault, ◌>>=◌, Holds, bind-Holds, bind-Holds_of,
}

-- The virtual functions.
pub record EventMultiplexer (S : Type 0) : Type 0 where
  pub on_events : S → Outcome S
  pub on_register : S → ℕ → Outcome (S × ℤ)
  pub on_remove : S → ℕ → Outcome (S × ℤ)
  pub on_select : S → S × ℤ

-- `Reactor`: the multiplexer that it was given.
pub record Reactor (S : Type 0) : Type 0 where
  pub em : EventMultiplexer S

-- The globals `p_wait_queue` and `register_flag`; `clear_queue` and `lower_flag` are the state after
-- `p_wait_queue->clear()` and after `--register_flag`.
pub record Globals (S : Type 0) : Type 0 where
  pub wait_queue : S → List ℕ
  pub register_flag : S → ℤ
  pub clear_queue : S → S
  pub lower_flag : S → S

module _ {S : Type 0} (r : Reactor S) where
  unfoldable pub handle_events : S → Outcome S
  handle_events s = r.em.on_events s

  unfoldable pub register_handler : S → ℕ → Outcome (S × ℤ)
  register_handler s p = r.em.on_register s p

  unfoldable pub remove_handler : S → ℕ → Outcome (S × ℤ)
  remove_handler s p = r.em.on_remove s p

  unfoldable pub select : S → S × ℤ
  select s = r.em.on_select s

  module _ (g : Globals S) where
    -- The loop of `registerEvents` over the queue, last element first.
    unfoldable pub register_each : S → List ℕ → Outcome S
    unfolding register_handler
    register_each s [] = ok (g.clear_queue s)
    register_each s (p ∷ ps) = do (s', _) ← register_handler s p; register_each (g.lower_flag s') ps

    -- A round of `EMTask::run`, which never leaves its loop. `others` is what the other threads do to
    -- the shared state while `select` waits. `quit_reactor` does nothing.
    unfoldable pub run_round : (S → S) → S → Outcome S
    unfolding register_each handle_events select
    run_round others s = do
      let s1 = others (select s).0
      s2 ← if is_nonzero (g.register_flag s1) then register_each s1 (g.wait_queue s1) else ok s1
      handle_events s2
