-- ===== src/Common/Map.antt =====
-- `std::map` with file descriptors for keys: pairs in ascending order of the keys.
use zt_http.Common.{
  ℕ, ◌≡◌, refl, ◌≢◌, Option, none, some, List, [], ◌∷◌, arith, ltb, ◌==◌, if◌then◌else◌,
}

-- `erase(fd)`; the keys of a map differ.
unfoldable pub erase {ℓ} : {V : Type ℓ} → ℕ → List (ℕ × V) → List (ℕ × V)
erase fd [] = []
erase fd ((first, value) ∷ entries) =
    let kept = erase fd entries in if first == fd then kept else (first, value) ∷ kept

-- `find(fd)`.
unfoldable pub lookup {ℓ} : {V : Type ℓ} → ℕ → List (ℕ × V) → Option V
lookup fd [] = none
lookup fd ((first, value) ∷ entries) = if first == fd then some value else lookup fd entries

-- `m[fd] = value`.
unfoldable pub insert {ℓ} : {V : Type ℓ} → ℕ → V → List (ℕ × V) → List (ℕ × V)
insert fd value [] = (fd, value) ∷ []
insert fd value ((first, old) ∷ entries) =
    if first == fd
    then (fd, value) ∷ entries
    else if ltb fd first
    then (fd, value) ∷ (first, old) ∷ entries
    else (first, old) ∷ insert fd value entries

module _ {ℓ} {V : Type ℓ} where
  pub lookup-erase :
      (fd asked : ℕ) (entries : List (ℕ × V))
      → lookup asked (erase fd entries) ≡ (if fd == asked then none else lookup asked entries)
  unfolding erase lookup
  lookup-erase fd asked [] = ground arith
  lookup-erase fd asked ((first, old) ∷ entries) = ground (arith, lookup-erase fd asked entries)

  pub lookup-insert :
      (fd asked : ℕ) (value : V) (entries : List (ℕ × V))
      → lookup asked (insert fd value entries)
        ≡ (if fd == asked then some value else lookup asked entries)
  unfolding insert lookup
  lookup-insert fd asked value [] = refl
  lookup-insert fd asked value ((first, old) ∷ entries) =
      ground (arith, lookup-insert fd asked value entries)

  pub lookup-insert_self :
      (fd : ℕ) (value : V) (entries : List (ℕ × V))
      → lookup fd (insert fd value entries) ≡ some value
  lookup-insert_self fd value entries = ground (arith, lookup-insert fd fd value entries)

  pub lookup-insert_ne :
      (fd asked : ℕ) (value : V) (entries : List (ℕ × V))
      → fd ≢ asked
      → lookup asked (insert fd value entries) ≡ lookup asked entries
  lookup-insert_ne fd asked value entries ne = ground (arith, lookup-insert fd asked value entries)

-- A store of objects by address.
unfoldable pub update {ℓ} : {V : Type ℓ} → (ℕ → V) → ℕ → V → ℕ → V
update f p v q = if p == q then v else f q

pub update_self {ℓ} : {V : Type ℓ} (f : ℕ → V) (p : ℕ) (v : V) → update f p v p ≡ v
unfolding update
update_self f p v = ground arith

pub update_ne {ℓ} : {V : Type ℓ} (f : ℕ → V) (p q : ℕ) (v : V) → p ≢ q → update f p v q ≡ f q
unfolding update
update_ne f p q v ne = ground arith
