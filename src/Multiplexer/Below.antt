-- ===== src/Multiplexer/Below.antt =====
-- The addresses of the handlers that entries name, and the registration of one more.
use zt_http.Common.{
  ℕ, ◌<◌, ◌≡◌, refl, sym, ap, ◌∙◌, subst, inl, inr, Option, none, some, List, ◌==◌, if◌then◌else◌,
  Bool-cases, Holds, bind-Holds,
}
use zt_http.Common.Map.{lookup, insert, update, lookup-insert}
use zt_http.Multiplexer.{
  ctl_add, ctl_mod, Op, register_object, register_handler, deref, Op, put_fds, deref, Object,
  epoll_handler, other_handler, World, deref, put_fds, Multiplexer, epoll_update,
}
use zt_http.Multiplexer.Entries.{entry}
use zt_http.Multiplexer.Sound.{updated, insert_fewer}

-- Where the handlers that entries name stand.
abbrev pub EntriesBelow : ℕ → World → Type 0
EntriesBelow n w = (r fd e q : ℕ) → entry w r fd ≡ some (e, some q) → q < n

EntriesBelow-reactor :
    (n : ℕ) (w w' : World) (r : ℕ) (m : Multiplexer)
    → EntriesBelow n w
    → w'.reactors ≡ update w.reactors r m
    → ((fd e q : ℕ) → lookup fd m.fds ≡ some (e, some q) → q < n)
    → EntriesBelow n w'
EntriesBelow-reactor n w w' r m b changed fits r' fd e q found =
    elim (updated w.reactors r r' fd m (some (e, some q))
      (ap (λ f. lookup fd (f r').fds) (sym changed) ∙ found)) [
        | inl (is_r, there) ↦ fits fd e q there
        | inr elsewhere ↦ b r' fd e q elsewhere
      ]

entered_below :
    (n p events : ℕ) (m : List (ℕ × (ℕ × Option ℕ))) (fd asked e q : ℕ)
    → p < n
    → ((j e' q' : ℕ) → lookup j m ≡ some (e', some q') → q' < n)
    → lookup asked (insert fd (events, some p) m) ≡ some (e, some q)
    → q < n
entered_below n p events m fd asked e q fits old found = elim (Bool-cases (fd == asked)) [
  | inl same ↦
      let stored : some (events, some p) ≡ some (e, some q) =
        sym (
          lookup-insert fd asked (events, some p) m
          ∙ ap (λ b. if b then some (events, some p) else lookup asked m) same)
        ∙ found in
      let is_q : p ≡ q =
        ap (λ o. elim o [ none ↦ p | some v ↦ elim v.1 [ none ↦ p | some x ↦ x ] ]) stored in
      subst (λ x. x < n) is_q fits
  | inr other ↦ old asked e q (
      sym (
        lookup-insert fd asked (events, some p) m
        ∙ ap (λ b. if b then some (events, some p) else lookup asked m) other)
      ∙ found)
]

-- The registration of a live handler below `n`.
pub register_handler-EntriesBelow :
    (n : ℕ) (w : World) (r p : ℕ)
    → p < n
    → EntriesBelow n w
    → Holds (λ x. EntriesBelow n x.0) (register_handler w r p)
unfolding register_handler register_object epoll_update
register_handler-EntriesBelow n w r p fits b =
    bind-Holds (λ x. EntriesBelow n x.0) (deref (w.handlers p)) (register_object w r p)
      λ o. entered o
  where
    entered : (o : Object) → Holds (λ x. EntriesBelow n x.0) (register_object w r p o)
    entered other_handler = b
    entered (epoll_handler h) =
        let m = (w.reactors r).fds in
        let w1 : World = put_fds w r (insert h.fd (h.events, some p) m) in
        let op : Op = elim (lookup h.fd m) [ none ↦ ctl_add | some _ ↦ ctl_mod ] in
        let b1 : EntriesBelow n w1 = EntriesBelow-reactor n w w1 r _ b refl λ fd e q found.
          entered_below n p h.events m h.fd fd e q fits (λ j e' q' there. b r j e' q' there)
            found in
        EntriesBelow-reactor n w1 (epoll_update w1 r h.fd op) r _ b1 refl
          λ fd e q found. b1 r fd e q (insert_fewer (w1.reactors r).fds h.fd fd e q found)
