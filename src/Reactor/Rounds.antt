-- ===== src/Reactor/Rounds.antt =====
-- What a round of `EMTask` does to the wait queue and the flag over any multiplexer.
use zt_http.Common.{
  ℕ, suc, ◌≡◌, refl, ap, ◌∙◌, inl, inr, ℤ, pred_ℤ, is_nonzero, List, [], ◌∷◌, length, if◌then◌else◌,
  Bool-cases, ok, Holds, bind-Holds_of,
}
use zt_http.Common.{weaken-Holds}
use zt_http.EmTask.Registration.{decremented}
use zt_http.Common.{weaken-Holds}
use zt_http.Reactor.{
  EventMultiplexer, Reactor, Globals, handle_events, register_handler, select, register_each,
  run_round,
}

-- The state has the same queue and the same flag.
abbrev Agrees : {S : Type 0} → Globals S → S → S → Type 0
Agrees g s s' = (g.wait_queue s' ≡ g.wait_queue s) × (g.register_flag s' ≡ g.register_flag s)

-- The two assignments do what they say, and nothing to the other global.
pub record AreGlobals {S : Type 0} (g : Globals S) : Type 0 where
  pub cleared : (s : S) → g.wait_queue (g.clear_queue s) ≡ []
  pub cleared_flag : (s : S) → g.register_flag (g.clear_queue s) ≡ g.register_flag s
  pub lowered : (s : S) → g.register_flag (g.lower_flag s) ≡ pred_ℤ (g.register_flag s)

-- What `EMTask` relies on: a multiplexer leaves both globals alone.
pub record IsMultiplexer {S : Type 0} (g : Globals S) (em : EventMultiplexer S) : Type 0 where
  pub events : (s : S) → Holds (Agrees g s) (em.on_events s)
  pub registers : (s : S) (p : ℕ) → Holds (λ x. Agrees g s x.0) (em.on_register s p)
  pub removes : (s : S) (p : ℕ) → Holds (λ x. Agrees g s x.0) (em.on_remove s p)
  pub selects : (s : S) → Agrees g s (em.on_select s).0

-- The queue and the flag after the registrations, where they are due, and else as they were.
abbrev pub queue_after : ℤ → List ℕ → List ℕ
queue_after flag queue = if is_nonzero flag then [] else queue

abbrev pub flag_after : ℤ → List ℕ → ℤ
flag_after flag queue = if is_nonzero flag then decremented (length queue) flag else flag

abbrev Counted : {S : Type 0} → Globals S → S → S → Type 0
Counted g s s' =
    (g.wait_queue s' ≡ queue_after (g.register_flag s) (g.wait_queue s))
    × (g.register_flag s' ≡ flag_after (g.register_flag s) (g.wait_queue s))

module _ {S : Type 0} (g : Globals S) (are : AreGlobals g) (r : Reactor S)
    (is : IsMultiplexer g r.em) where
  abbrev Done : S → ℕ → S → Type 0
  Done s n s' = (g.wait_queue s' ≡ []) × (g.register_flag s' ≡ decremented n (g.register_flag s))

  register_each-Done : (ps : List ℕ) (s : S) → Holds (Done s (length ps)) (register_each r g s ps)
  unfolding register_each register_handler
  register_each-Done [] s = (are.cleared s, are.cleared_flag s)
  register_each-Done (p ∷ ps) s =
      bind-Holds_of (λ x. Agrees g s x.0) (Done s (suc (length ps))) (register_handler r s p) _
        (is.registers s p)
        λ x same.
          weaken-Holds (Done (g.lower_flag x.0) (length ps)) (Done s (suc (length ps)))
            (register_each r g (g.lower_flag x.0) ps)
            (λ s' done.
              (done.0, done.1 ∙ ap (decremented (length ps)) (are.lowered x.0 ∙ ap pred_ℤ same.1)))
            (register_each-Done ps (g.lower_flag x.0))

  registered-Counted :
      (s : S)
      → Holds
          (Counted g s)
          (if is_nonzero (g.register_flag s) then register_each r g s (g.wait_queue s) else ok s)
  registered-Counted s = elim (Bool-cases (is_nonzero (g.register_flag s))) [
    | inl due ↦ rw due (
        weaken-Holds (Done s (length (g.wait_queue s))) (Counted g s)
          (register_each r g s (g.wait_queue s)) (λ s' done. rw due done)
          (register_each-Done (g.wait_queue s) s))
    | inr idle ↦ rw idle (rw idle refl, rw idle refl)
  ]

  pub run_round-Counted :
      (others : S → S) (s : S) → Holds (Counted g (others (select r s).0)) (run_round r g others s)
  unfolding run_round handle_events
  run_round-Counted others s =
      let s1 = others (select r s).0 in
      bind-Holds_of (Counted g s1) (Counted g s1) _ _ (registered-Counted s1) λ s2 counted.
        weaken-Holds (Agrees g s2) (Counted g s1) (handle_events r s2)
          (λ s3 same. (same.0 ∙ counted.0, same.1 ∙ counted.1)) (is.events s2)
