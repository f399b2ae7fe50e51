-- ===== src/FirstReactor/Removal.antt =====
-- What a removal comes to.
use zt_http.Common.{ℕ, ◌≡◌, refl, List, [], ◌∷◌, ◌++◌, arith, undefined, fault}
use zt_http.FirstReactor.{Reactor, register_handler, remove_from, remove_handler}

remove_from_end : (p : ℕ) (hs : List ℕ) → remove_from p (hs ++ p ∷ []) ≡ fault undefined
unfolding remove_from
remove_from_end p [] = ground arith
remove_from_end p (h ∷ hs) = ground (arith, remove_from_end p hs)

-- The removal of a handler that was registered is undefined behaviour, whatever else is registered.
pub remove_handler-register_handler :
    (r : Reactor) (p : ℕ) → remove_handler (register_handler r p).0 p ≡ fault undefined
unfolding remove_handler register_handler
remove_handler-register_handler r p = rw (remove_from_end p r.waited_queue) refl
