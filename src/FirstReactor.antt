-- ===== src/FirstReactor.antt =====
-- Event.h and Event.cpp: the first reactor. A handler is known by its address, and what its
-- `handle_event` returns is an argument.
pub mod Removal
use zt_http.Common.{
  ℕ, zero, suc, ◌+◌, ◌-◌, ◌*◌, ◌/◌, ◌%◌, ◌^◌, ◌≤◌, ◌<◌, min, max, ◌≡◌, refl, sym, ap, ◌∙◌, subst,
  fun_ext, ◌≢◌, ◌↔◌, ◌⊎◌, inl, inr, Bool, true, false, not, ◌&&◌, ◌||◌, bit_and, bit_or, ℤ, pos,
  negsuc, succ_ℤ, pred_ℤ, is_nonzero, Option, none, some, List, [], ◌∷◌, ◌++◌, map, append-nil,
  append_assoc, arith, Bytes, codes, length, get_or, set, take, drop, length-append, length-take,
  length-drop, take-append-drop, take_all, drop_all, take-append, drop-append, length-set, ltb, leb,
  ◌==◌, if◌then◌else◌, ==_iff, Bool-cases, Option-cases, if_cases, Fault, undefined, aborted,
  out_of_range, endless, Outcome, ok, fault, ◌>>=◌,
}

-- The two queues, and the handlers whose `handle_event` was called.
pub record Reactor : Type 0 where
  pub waited_queue : List ℕ
  pub selected_queue : List ℕ
  pub handled : List ℕ

abbrev pub first_reactor : Reactor
first_reactor = record { waited_queue = []; selected_queue = []; handled = [] }

unfoldable pub register_handler : Reactor → ℕ → Reactor × ℤ
register_handler r p = (record r { waited_queue = r.waited_queue ++ p ∷ [] }, pos 0)

-- The loop of `remove_handler`: `erase(iter)` makes `iter` invalid, and the loop then compares and
-- increments it.
remove_from : ℕ → List ℕ → Outcome ℤ
remove_from p [] = ok (pos 1)
remove_from p (h ∷ hs) = let rest = remove_from p hs in if h == p then fault undefined else rest

unfoldable pub remove_handler : Reactor → ℕ → Outcome (Reactor × ℤ)
unfolding remove_from
remove_handler r p = remove_from p r.waited_queue >>= λ n. ok (r, n)

-- The loop of `handle_events`, with `err`.
handle_each : (ℕ → ℤ) → ℤ → List ℕ → ℤ
handle_each returns err [] = err
handle_each returns err (h ∷ hs) =
    handle_each returns (if is_nonzero (returns h) then pos 1 else err) hs

unfoldable pub handle_events : (ℕ → ℤ) → Reactor → Reactor × ℤ
unfolding handle_each
handle_events returns r = (
  record r { handled = r.handled ++ r.selected_queue },
  if is_nonzero (handle_each returns (pos 0) r.selected_queue) then pos 1 else pos 0,
)

-- The end of a function that returns an `int`, with no `return`: undefined behaviour, whatever it did.
no_return : Reactor → Outcome Reactor
no_return r = fault undefined

-- `HttpEventMultiplex::select`.
unfoldable pub select : (ℕ → ℤ) → Reactor → Outcome Reactor
unfolding handle_events no_return
select returns r =
    let r' = record r { selected_queue = r.selected_queue ++ r.waited_queue } in
    no_return (handle_events returns r').0

-- The first `n` rounds of `HttpTasks::testSelect`.
unfoldable pub test_select : (ℕ → ℤ) → ℕ → Reactor → Outcome Reactor
unfolding select
test_select returns zero r = ok r
test_select returns (suc n) r = select returns r >>= test_select returns n
