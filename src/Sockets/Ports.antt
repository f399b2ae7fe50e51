-- ===== src/Sockets/Ports.antt =====
-- Which port a listening socket has, and which one its maker reports.
use zt_http.Common.{
  ℕ, ◌≡◌, refl, subst, inl, inr, ℤ, pos, List, [], ◌∷◌, ◌++◌, ◌==◌, Bool-cases, Option-cases, ok,
  Holds,
}
use zt_http.Sockets.{
  SockCall, socket, bind, listen, getsockname, Answers, bound_port, startup, naming, listening,
  name_size,
}

-- Whether the socket is bound and then listens, in this order.
abbrev BindsAndListens : List SockCall → ℤ → ℕ → Type 0
BindsAndListens calls fd port =
    (middle : List SockCall) × (calls ≡ socket ∷ bind fd port ∷ (middle ++ listen fd 5 ∷ []))

abbrev Reports : Answers → ℕ → List SockCall × ℤ × ℕ → Type 0
Reports a port (calls, fd, reported) =
    BindsAndListens calls fd port × (reported ≡ bound_port a port)

listening-Reports :
    (a : Answers) (fd : ℤ) (port bound : ℕ) (middle : List SockCall)
    → bound ≡ bound_port a port
    → Holds (Reports a port) (listening a fd bound (socket ∷ bind fd port ∷ middle))
unfolding listening
listening-Reports a fd port bound middle e = elim (Bool-cases a.listens) [
  | inl h ↦ rw h ((middle, refl), e)
  | inr h ↦ rw h tt
]

naming-Reports :
    (a : Answers) (fd : ℤ) (port : ℕ)
    → Holds (Reports a port) (naming a fd port (socket ∷ bind fd port ∷ []))
unfolding naming
naming-Reports a fd port = elim (Bool-cases (port == 0)) [
  | inl h ↦ elim (Bool-cases a.names) [
    | inl named ↦
        rw (h, named)
          (listening-Reports a fd port a.chosen_port (getsockname fd name_size ∷ []) (rw h refl))
    | inr unnamed ↦ rw (h, unnamed) tt
  ]
  | inr h ↦ rw h (listening-Reports a fd port port [] (rw h refl))
]

startup-Reports : (a : Answers) (port : ℕ) → Holds (Reports a port) (startup a port)
unfolding startup
startup-Reports a port = elim (Option-cases a.fd) [
  | inl e ↦ rw e tt
  | inr (n, e) ↦ elim (Bool-cases a.binds) [
    | inl h ↦ rw (e, h) (naming-Reports a (pos n) port)
    | inr h ↦ rw (e, h) tt
  ]
]

-- Where `startup` returns, its socket was bound to the given port and then set to listen, and the
-- port that it reports is the one that the socket has: the given one, or the kernel's choice for 0.
startup_reports :
    (a : Answers) (port : ℕ) (calls : List SockCall) (fd : ℤ) (reported : ℕ)
    → startup a port ≡ ok (calls, fd, reported)
    → BindsAndListens calls fd port × (reported ≡ bound_port a port)
startup_reports a port calls fd reported run =
    subst (Holds (Reports a port)) run (startup-Reports a port)
