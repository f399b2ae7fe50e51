-- ===== src/Multiplexer/Sound.antt =====
-- The live handlers of the wait queue, for which no reactor has an entry yet, over the operations of a
-- reactor.
use zt_http.Common.{
  ℕ, ◌<◌, ◌≡◌, refl, sym, ap, ◌∙◌, subst, ◌≢◌, ◌⊎◌, inl, inr, pos, negsuc, is_nonzero, Option, none,
  some, List, [], ◌∷◌, arith, ◌==◌, if◌then◌else◌, Bool-cases, Option-cases, if_cases, ok, ◌>>=◌,
  Holds, bind-Holds,
}
use zt_http.Common.{option_cases}
use zt_http.Common.Map.{lookup, insert, update, update_self, update_ne, lookup-insert}
use zt_http.Multiplexer.{
  deref, at_fd, remove_handler, remove_object, drop_handler, deref, Handler, Object, epoll_handler,
  other_handler, World, deref, remove_handler, remove_object, drop_handler, at_fd, Multiplexer,
  Waited, wait_failed, ready, note_waited, quit_if_asked, quit_and_rst,
}
use zt_http.Multiplexer.Entries.{at_fd_lem, entry}

abbrev pub Live : (ℕ → Option Object) → List ℕ → Type 0
Live live [] = Unit
Live live (p ∷ ps) = ((h : Handler) × (live p ≡ some (epoll_handler h))) × Live live ps

-- None of them is at `q`.
abbrev pub Apart : ℕ → List ℕ → Type 0
Apart q [] = Unit
Apart q (p ∷ ps) = (q ≢ p) × Apart q ps

abbrev pub AllBelow : ℕ → List ℕ → Type 0
AllBelow n [] = Unit
AllBelow n (p ∷ ps) = (p < n) × AllBelow n ps

-- The queue is `ps`, its handlers live, and the handlers of all entries are others; the addresses
-- of both are below `n`.
pub record Sound (n : ℕ) (ps : List ℕ) (w : World) : Type 0 where
  pub live : Live w.handlers ps
  pub apart : (r fd e q : ℕ) → entry w r fd ≡ some (e, some q) → Apart q ps × (q < n)
  pub queue : w.wait_queue ≡ ps
  pub below : AllBelow n ps

pub Live-others :
    (f g : ℕ → Option Object) (q : ℕ) (ps : List ℕ)
    → Apart q ps
    → ((p : ℕ) → q ≢ p → g p ≡ f p)
    → Live f ps
    → Live g ps
Live-others f g q [] apart same live = tt
Live-others f g q (p ∷ ps) (ne, apart) same ((h, lives), rest) =
    ((h, same p ne ∙ lives), Live-others f g q ps apart same rest)

-- A change of the reactors that brings no handler into an entry.
Sound-fewer :
    (n : ℕ) (ps : List ℕ) (w w' : World)
    → Sound n ps w
    → w'.handlers ≡ w.handlers
    → w'.wait_queue ≡ w.wait_queue
    → ((r fd e q : ℕ) → entry w' r fd ≡ some (e, some q) → entry w r fd ≡ some (e, some q))
    → Sound n ps w'
Sound-fewer n ps w w' s same queue fewer = record {
  live = subst (λ f. Live f ps) (sym same) s.live;
  apart = λ r fd e q found. s.apart r fd e q (fewer r fd e q found);
  queue = queue ∙ s.queue;
  below = s.below;
}

pub updated :
    (f : ℕ → Multiplexer) (r r' fd : ℕ) (m : Multiplexer) (v : Option (ℕ × Option ℕ))
    → lookup fd (update f r m r').fds ≡ v
    → ((r ≡ r') × (lookup fd m.fds ≡ v)) ⊎ (lookup fd (f r').fds ≡ v)
updated f r r' fd m v found = elim (Bool-cases (r == r')) [
  | inl is_r ↦
      let same : r ≡ r' = ground (arith, is_r) in
      inl (
        same,
        sym (ap (λ x. lookup fd x.fds) (ap (update f r m) (sym same) ∙ update_self f r m)) ∙ found,
      )
  | inr other ↦
      let ne : r ≢ r' = ground (arith, other) in
      inr (sym (ap (λ x. lookup fd x.fds) (update_ne f r r' m ne)) ∙ found)
]

-- One reactor gets other entries, none of them with a handler that it had not there.
pub Sound-reactor :
    (n : ℕ) (ps : List ℕ) (w w' : World) (r : ℕ) (m : Multiplexer)
    → Sound n ps w
    → w'.handlers ≡ w.handlers
    → w'.wait_queue ≡ w.wait_queue
    → w'.reactors ≡ update w.reactors r m
    → ((fd e q : ℕ) → lookup fd m.fds ≡ some (e, some q) → entry w r fd ≡ some (e, some q))
    → Sound n ps w'
Sound-reactor n ps w w' r m s same queue changed fewer = Sound-fewer n ps w w' s same queue each
  where
    each : (r' fd e q : ℕ) → entry w' r' fd ≡ some (e, some q) → entry w r' fd ≡ some (e, some q)
    each r' fd e q found =
        elim (updated w.reactors r r' fd m (some (e, some q))
          (ap (λ f. lookup fd (f r').fds) (sym changed) ∙ found)) [
            | inl (is_r, there) ↦
                subst (λ x. entry w x fd ≡ some (e, some q)) is_r (fewer fd e q there)
            | inr elsewhere ↦ elsewhere
          ]

pub none_is_not_some {ℓ} : {A : Type ℓ} (a : A) → none ≢ some a
none_is_not_some a e = cc

pub quit_if_asked-Sound :
    (n : ℕ) (ps : List ℕ) (w : World) (r : ℕ) → Sound n ps w → Sound n ps (quit_if_asked w r)
unfolding quit_and_rst lookup
quit_if_asked-Sound n ps w r s =
    if_cases (Sound n ps) (is_nonzero w.quit_wait_flag) (quit_and_rst w r) w
      (Sound-reactor n ps w (quit_and_rst w r) r (record { fds = []; rdy = [] }) s refl refl refl
        λ fd e q found. absurd (none_is_not_some (e, some q) found))
      s

pub note_waited-Sound :
    (n : ℕ) (ps : List ℕ) (w : World) (r : ℕ) (a : Waited)
    → Sound n ps w
    → Sound n ps (note_waited w r a)
unfolding note_waited
note_waited-Sound n ps w r wait_failed s = s
note_waited-Sound n ps w r (ready evs) s =
    Sound-reactor n ps w (note_waited w r (ready evs)) r _ s refl refl refl λ fd e q found. found

abbrev null_entry : ℕ × Option ℕ
null_entry = (0, none)

null_is_not_some : (v : ℕ × Option ℕ) (q : ℕ) → null_entry ≡ v → v.1 ≢ some q
null_is_not_some v q same there = none_is_not_some q (ap (λ x. x.1) same ∙ there)

at_fd_there :
    (m : List (ℕ × (ℕ × Option ℕ))) (fd e q : ℕ)
    → at_fd m fd ≡ (e, some q)
    → lookup fd m ≡ some (e, some q)
at_fd_there m fd e q same = elim (Option-cases (lookup fd m)) [
  | inl gone ↦ absurd (null_is_not_some (e, some q) q (sym (at_fd_lem m fd none gone) ∙ same) refl)
  | inr (v, there) ↦ there ∙ ap some (sym (at_fd_lem m fd (some v) there) ∙ same)
]

pub insert_fewer :
    (m : List (ℕ × (ℕ × Option ℕ))) (fd asked e q : ℕ)
    → lookup asked (insert fd (at_fd m fd) m) ≡ some (e, some q)
    → lookup asked m ≡ some (e, some q)
insert_fewer m fd asked e q found = elim (Bool-cases (fd == asked)) [
  | inl same ↦
      let is_fd : fd ≡ asked = ground (arith, same) in
      let stored : some (at_fd m fd) ≡ some (e, some q) =
        sym (
          lookup-insert fd asked (at_fd m fd) m
          ∙ ap (λ b. if b then some (at_fd m fd) else lookup asked m) same)
        ∙ found in
      let there =
        at_fd_there m fd e q (ap (λ o. elim o [ none ↦ null_entry | some v ↦ v ]) stored) in
      subst (λ j. lookup j m ≡ some (e, some q)) is_fd there
  | inr other ↦
      sym (
        lookup-insert fd asked (at_fd m fd) m
        ∙ ap (λ b. if b then some (at_fd m fd) else lookup asked m) other)
      ∙ found
]

-- `remove_handler`, where it returns.
pub remove_handler-Sound :
    (n : ℕ) (ps : List ℕ) (w : World) (r p : ℕ)
    → Sound n ps w
    → Holds (λ x. Sound n ps x.0) (remove_handler w r p)
unfolding remove_handler remove_object drop_handler
remove_handler-Sound n ps w r p s =
    if_cases (Holds (λ x. Sound n ps x.0)) (is_nonzero w.register_flag) (ok (w, negsuc 0))
      (deref (w.handlers p) >>= remove_object w r p) s
      (bind-Holds (λ x. Sound n ps x.0) (deref (w.handlers p)) (remove_object w r p) λ o. removed o)
  where
    removed : (o : Object) → Holds (λ x. Sound n ps x.0) (remove_object w r p o)
    removed other_handler = s
    removed (epoll_handler h) =
        option_cases (Holds (λ x. Sound n ps x.0)) (lookup h.fd (w.reactors r).fds) (ok (w, pos 0))
          (λ e. drop_handler w r p h >>= λ w'. ok (w', pos 0)) s λ e. tt
