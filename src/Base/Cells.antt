-- ===== src/Base/Cells.antt =====
-- The cells of a list, which `get_elem?` reads and `set` writes.
use Prim.Native.Nat.{ℕ, zero, suc, ◌<◌}
use mathlib.Core.Path.{◌≡◌, refl, ap}
use mathlib.Core.List.{List, [], ◌∷◌, map}
use mathlib.Core.Option.{Option, none, some}
use native.Mathlib.Omega.{arith}
use vtafarm_api.Base.Tests.{◌==◌, if◌then◌else◌}
use vtafarm_api.Base.Lists.{length, get_elem?, set}

module _ {A : Type 0} where
  pub length-set : (xs : List A) (i : ℕ) (v : A) → length (set xs i v) ≡ length xs
  length-set [] i v = refl
  length-set (x ∷ xs) zero v = refl
  length-set (x ∷ xs) (suc i) v = ap suc (length-set xs i v)

  -- The cell that is written, where it is there.
  abbrev pub replace : A → Option A → Option A
  replace v none = none
  replace v (some w) = some v

  pub get_elem?-set :
      (xs : List A) (i j : ℕ) (v : A)
      → get_elem? (set xs i v) j ≡ (if i == j then replace v (get_elem? xs j) else get_elem? xs j)
  get_elem?-set [] i j v = ground arith
  get_elem?-set (x ∷ xs) zero zero v = refl
  get_elem?-set (x ∷ xs) zero (suc j) v = ground arith
  get_elem?-set (x ∷ xs) (suc i) zero v = ground arith
  get_elem?-set (x ∷ xs) (suc i) (suc j) v = ground (arith, get_elem?-set xs i j v)

  pub list_ext : (xs ys : List A) → ((i : ℕ) → get_elem? xs i ≡ get_elem? ys i) → xs ≡ ys
  list_ext [] [] h = refl
  list_ext [] (y ∷ ys) h = cc (h 0)
  list_ext (x ∷ xs) [] h = cc (h 0)
  list_ext (x ∷ xs) (y ∷ ys) h = cc (h 0, list_ext xs ys (λ i. h (suc i)))

  pub get_elem?-beyond : (xs : List A) (i : ℕ) → ¬ (i < length xs) → get_elem? xs i ≡ none
  get_elem?-beyond [] i h = refl
  get_elem?-beyond (x ∷ xs) zero h = absurd (h (omega arith))
  get_elem?-beyond (x ∷ xs) (suc i) h = get_elem?-beyond xs i (λ p. h (omega (arith, p)))

module _ {A B : Type 0} where
  pub length-map : (f : A → B) (xs : List A) → length (map f xs) ≡ length xs
  length-map f [] = refl
  length-map f (x ∷ xs) = ap suc (length-map f xs)

  pub get_elem?-map-some :
      (f : A → B) (xs : List A) (i : ℕ) (x : A)
      → get_elem? xs i ≡ some x
      → get_elem? (map f xs) i ≡ some (f x)
  get_elem?-map-some f [] i x e = cc
  get_elem?-map-some f (y ∷ xs) zero x e = cc
  get_elem?-map-some f (y ∷ xs) (suc i) x e = get_elem?-map-some f xs i x e

  -- Lists of one length have the same cells.
  pub get_elem?-none :
      (xs : List A) (ys : List B) (i : ℕ)
      → length xs ≡ length ys
      → get_elem? xs i ≡ none
      → get_elem? ys i ≡ none
  get_elem?-none [] [] i same e = refl
  get_elem?-none [] (y ∷ ys) i same e = absurd (omega (arith, same))
  get_elem?-none (x ∷ xs) [] i same e = refl
  get_elem?-none (x ∷ xs) (y ∷ ys) zero same e = cc
  get_elem?-none (x ∷ xs) (y ∷ ys) (suc i) same e = get_elem?-none xs ys i (omega (arith, same)) e

  pub get_elem?-some :
      (xs : List A) (ys : List B) (i : ℕ) (x : A)
      → length xs ≡ length ys
      → get_elem? xs i ≡ some x
      → (y : B) × (get_elem? ys i ≡ some y)
  get_elem?-some [] ys i x same e = cc
  get_elem?-some (x' ∷ xs) [] i x same e = absurd (omega (arith, same))
  get_elem?-some (x' ∷ xs) (y ∷ ys) zero x same e = (y, refl)
  get_elem?-some (x' ∷ xs) (y ∷ ys) (suc i) x same e =
      get_elem?-some xs ys i x (omega (arith, same)) e
