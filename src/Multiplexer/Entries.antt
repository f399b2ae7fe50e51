-- ===== src/Multiplexer/Entries.antt =====
-- What registering and removing a handler do to `_fds`, and what they ask of the kernel.
use zt_http.Common.{
  ℕ, ◌≡◌, refl, ap, ◌∙◌, ◌≢◌, inl, inr, true, false, ℤ, pos, negsuc, is_nonzero, Option, none, some,
  List, [], ◌∷◌, ◌++◌, arith, ◌==◌, if◌then◌else◌, Bool-cases, undefined, ok, fault, ◌>>=◌,
}
use zt_http.Common.Map.{lookup, insert, lookup-insert_self, lookup-insert_ne, update_self}
use zt_http.Multiplexer.{
  Handler, epoll_handler, World, epoll_ctl, Op, ctl_add, ctl_mod, put_fds, at_fd, epoll_update,
  register_handler, remove_object, remove_handler, drop_handler, deref,
}

-- The entry of a descriptor in reactor `r`.
abbrev pub entry : World → ℕ → ℕ → Option (ℕ × Option ℕ)
entry w r fd = lookup fd (w.reactors r).fds

erased {ℓ} : {A : Type ℓ} (k j : ℕ) (o : Option A) → k ≡ j → (if k == j then none else o) ≡ none
erased k j o e = ground arith

kept {ℓ} : {A : Type ℓ} (k j : ℕ) (o : Option A) → k ≢ j → (if k == j then none else o) ≡ o
kept k j o ne = ground arith

entry-put_fds :
    (w : World) (r j : ℕ) (m : List (ℕ × (ℕ × Option ℕ))) → entry (put_fds w r m) r j ≡ lookup j m
entry-put_fds w r j m = ap (λ x. lookup j x.fds) (update_self w.reactors r _)

pub at_fd_lem :
    (m : List (ℕ × (ℕ × Option ℕ))) (fd : ℕ) (o : Option (ℕ × Option ℕ))
    → lookup fd m ≡ o
    → at_fd m fd ≡ elim o [ none ↦ (0, none) | some e ↦ e ]
unfolding at_fd
at_fd_lem m fd o e = ap (λ x. elim x [ none ↦ (0, none) | some y ↦ y ]) e

-- After `epollUpdate` the descriptor has an entry in any case, and the kernel was told its events.
epoll_update_lem :
    (w : World) (r fd : ℕ) (op : Op) (o : Option (ℕ × Option ℕ))
    → entry w r fd ≡ o
    → let e : ℕ × Option ℕ = elim o [ none ↦ (0, none) | some x ↦ x ] in
      (entry (epoll_update w r fd op) r fd ≡ some e)
      × ((j : ℕ) → fd ≢ j → entry (epoll_update w r fd op) r j ≡ entry w r j)
      × ((epoll_update w r fd op).calls ≡ w.calls ++ epoll_ctl r op fd e.0 ∷ [])
unfolding epoll_update
epoll_update_lem w r fd op o found =
    let m = (w.reactors r).fds in
    let is_e = at_fd_lem m fd o found in
    (
      entry-put_fds w r fd _ ∙ lookup-insert_self fd (at_fd m fd) m ∙ ap some is_e,
      λ j ne. entry-put_fds w r j _ ∙ lookup-insert_ne fd j (at_fd m fd) m ne,
      ap (λ e. w.calls ++ epoll_ctl r op fd e.0 ∷ []) is_e,
    )

-- A registered handler has an entry with its events, the other entries stay, and `epoll_ctl` is
-- asked to add the descriptor if it had no entry, and else to modify it.
pub register_handler_lem :
    (w : World) (r p : ℕ) (h : Handler)
    → w.handlers p ≡ some (epoll_handler h)
    → (w' : World) × (register_handler w r p ≡ ok (w', pos 0))
      × (entry w' r h.fd ≡ some (h.events, some p))
      × ((j : ℕ) → h.fd ≢ j → entry w' r j ≡ entry w r j)
      × (w'.calls
          ≡ w.calls
            ++ epoll_ctl r
                (elim (entry w r h.fd) [ none ↦ ctl_add | some _ ↦ ctl_mod ])
                h.fd
                h.events
              ∷ [])
      × (w'.handlers ≡ w.handlers)
      × (w'.register_flag ≡ w.register_flag)
unfolding register_handler
register_handler_lem w r p h live =
    let m = (w.reactors r).fds in
    let w1 : World = put_fds w r (insert h.fd (h.events, some p) m) in
    let op : Op = elim (entry w r h.fd) [ none ↦ ctl_add | some _ ↦ ctl_mod ] in
    let found = entry-put_fds w r h.fd _ ∙ lookup-insert_self h.fd (h.events, some p) m in
    let (mine, others, asked) = epoll_update_lem w1 r h.fd op (some (h.events, some p)) found in
    (
      epoll_update w1 r h.fd op,
      rw live refl,
      mine,
      λ j ne. others j ne ∙ entry-put_fds w r j _ ∙ lookup-insert_ne h.fd j _ m ne,
      asked,
      refl,
      refl,
    )

-- Where no registration is due, and the handler's descriptor has an entry: the removal is undefined.
pub remove_handler_undefined :
    (w : World) (r p : ℕ) (h : Handler) (e : ℕ × Option ℕ)
    → is_nonzero w.register_flag ≡ false
    → w.handlers p ≡ some (epoll_handler h)
    → entry w r h.fd ≡ some e
    → remove_handler w r p ≡ fault undefined
unfolding remove_handler drop_handler
remove_handler_undefined w r p h e idle live found = rw idle (
    ap (λ o. deref o >>= remove_object w r p) live
    ∙ ap
        (λ o. elim o [
          | none ↦ ok (w, pos 0)
          | some _ ↦ drop_handler w r p h >>= λ w'. ok (w', pos 0)
        ])
        found)

-- While registrations are due, `remove_handler` refuses, and changes nothing.
pub remove_handler_refused :
    (w : World) (r p : ℕ)
    → is_nonzero w.register_flag ≡ true
    → remove_handler w r p ≡ ok (w, negsuc 0)
unfolding remove_handler
remove_handler_refused w r p due = rw due refl

-- A handler without an entry in this reactor is not removed, and nothing changes.
pub remove_handler_missing :
    (w : World) (r p : ℕ) (h : Handler)
    → w.handlers p ≡ some (epoll_handler h)
    → entry w r h.fd ≡ none
    → (z : ℤ) × (remove_handler w r p ≡ ok (w, z))
unfolding remove_handler
remove_handler_missing w r p h live missing = elim (Bool-cases (is_nonzero w.register_flag)) [
  | inl due ↦ (negsuc 0, rw due refl)
  | inr idle ↦ (
    pos 0,
    rw idle (
        ap (λ o. deref o >>= remove_object w r p) live
        ∙ ap
            (λ o. elim o [
              | none ↦ ok (w, pos 0)
              | some _ ↦ drop_handler w r p h >>= λ w'. ok (w', pos 0)
            ])
            missing),
  )
]
