-- ===== src/Signals.antt =====
-- `file_flg_set` and `z_signal` of ztHttp/ztHttp/zcsIO.cpp. What `fcntl` and `sigaction` answer is an
-- argument. An `int` of flags is its 32 bits.
use zt_http.Common.{
  ℕ, ◌-◌, ◌^◌, ◌≡◌, ap, ◌∙◌, ◌≢◌, Bool, true, false, bit_and, bit_or, Option, none, some, List, [],
  ◌∷◌, arith, ◌==◌, if◌then◌else◌,
}
use zt_http.Common.Map.{update, update_self, update_ne}

-- Calls of `fcntl` with F_GETFL and F_SETFL.
pub data FcntlCall : Type 0 where
  getfl : ℕ → FcntlCall
  setfl : ℕ → ℕ → FcntlCall

-- The bits of `~flags`.
abbrev complement : ℕ → ℕ
complement flags = (2 ^ 32 - 1) - flags

-- `file_flg_set`, where `val` is what F_GETFL gives. After a failure it goes on with -1.
unfoldable pub file_flg_set : Option ℕ → ℕ → ℕ → Bool → List FcntlCall
file_flg_set val fd flags turn_on =
    let old : ℕ = elim val [ none ↦ 2 ^ 32 - 1 | some v ↦ v ] in
    let new = if turn_on then bit_or old flags else bit_and old (complement flags) in
    getfl fd ∷ setfl fd new ∷ []

abbrev sigalrm : ℕ
sigalrm = 14

-- What the platform defines: SA_INTERRUPT, and no SA_RESTGART.
abbrev sa_interrupt : ℕ
sa_interrupt = 0x20000000

-- How a signal is handled: the address of the function, and the flags.
pub record Action : Type 0 where
  pub handler : ℕ
  pub flags : ℕ

-- `z_signal`: the actions of all signals afterwards, and the old handler; `none` is SIG_ERR.
unfoldable pub z_signal : Bool → (ℕ → Action) → ℕ → ℕ → (ℕ → Action) × Option ℕ
z_signal accepted actions signo p_func =
    let flags = if signo == sigalrm then sa_interrupt else 0 in
    if accepted
    then (
      update actions signo (record { handler = p_func; flags = flags }),
      some (actions signo).handler,
    )
    else (actions, none)

-- A second call gives back what the first one put there, and the other signals are as they were; no
-- signal but SIGALRM has a flag, SA_RESTART included.
z_signal_twice :
    (actions : ℕ → Action) (signo f g : ℕ)
    → signo ≢ sigalrm
    → let (after, _) = z_signal true actions signo f in
      ((z_signal true after signo g).1 ≡ some f)
      × ((after signo).flags ≡ 0)
      × ((other : ℕ) → signo ≢ other → after other ≡ actions other)
unfolding z_signal
z_signal_twice actions signo f g ne =
    let plain : (signo == sigalrm) ≡ false = ground (arith, ne) in
    let set_to : Action = record {
      handler = f;
      flags = if signo == sigalrm then sa_interrupt else 0;
    } in
    let there = update_self actions signo set_to in
    (
      ap (λ x. some x.handler) there,
      ap (λ x. x.flags) there ∙ ap (λ b. if b then sa_interrupt else 0) plain,
      λ other apart. update_ne actions signo other set_to apart,
    )
