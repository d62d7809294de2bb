-- ===== src/Capacity/Totals.antt =====
-- Sums over the nodes or the disks of internal/capacity/capacity.go, and how the replacement of
-- one element changes them.
use vtafarm_api.Base.{
  ℕ, zero, suc, ◌+◌, List, [], ◌∷◌, ◌++◌, some, ◌≡◌, ◌≢◌, ap, refl, arith, get_elem?, set, length,
}

module _ {A : Type 0} where
  unfoldable pub total : (A → ℕ) → List A → ℕ
  total f [] = 0
  total f (x ∷ xs) = f x + total f xs

  pub total-set :
      (f : A → ℕ) (xs : List A) (i : ℕ) (a b : A) (n : ℕ)
      → get_elem? xs i ≡ some a
      → f a ≡ f b + n
      → total f xs ≡ total f (set xs i b) + n
  unfolding total
  total-set f [] i a b n e same = cc
  total-set f (x ∷ xs) zero a b n e same = ground (arith, same)
  total-set f (x ∷ xs) (suc i) a b n e same = ground (arith, total-set f xs i a b n e same)

  pub get_elem?-append :
      (xs ys : List A) (i : ℕ) (a : A) → get_elem? xs i ≡ some a → get_elem? (xs ++ ys) i ≡ some a
  get_elem?-append [] ys i a e = cc
  get_elem?-append (x ∷ xs) ys zero a e = e
  get_elem?-append (x ∷ xs) ys (suc i) a e = get_elem?-append xs ys i a e

  pub get_elem?-length : (xs : List A) (a : A) → get_elem? (xs ++ a ∷ []) (length xs) ≡ some a
  get_elem?-length [] a = refl
  get_elem?-length (x ∷ xs) a = get_elem?-length xs a

  pub append_snoc : (xs : List A) (a : A) (ys : List A) → (xs ++ a ∷ []) ++ ys ≡ xs ++ a ∷ ys
  append_snoc [] a ys = refl
  append_snoc (x ∷ xs) a ys = simp (append_snoc xs a ys)

  pub length_snoc : (xs : List A) (a : A) → length (xs ++ a ∷ []) ≡ suc (length xs)
  length_snoc [] a = refl
  length_snoc (x ∷ xs) a = simp (length_snoc xs a)

  pub get_elem?-set_other :
      (xs : List A) (i j : ℕ) (a : A) → i ≢ j → get_elem? (set xs i a) j ≡ get_elem? xs j
  get_elem?-set_other [] i j a ne = refl
  get_elem?-set_other (x ∷ xs) zero zero a ne = ground (arith, ne refl)
  get_elem?-set_other (x ∷ xs) zero (suc j) a ne = refl
  get_elem?-set_other (x ∷ xs) (suc i) zero a ne = refl
  get_elem?-set_other (x ∷ xs) (suc i) (suc j) a ne =
      get_elem?-set_other xs i j a (λ e. ne (ap suc e))
