-- ===== src/Tags/Sorting.antt =====
-- internal/ghcr/client.go: sort.SliceStable, as an insertion sort, and what it keeps.
use vtafarm_api.Base.{
  ℕ, ◌+◌, Bool, true, false, List, [], ◌∷◌, ltb, ◌==◌, count, select, if◌then◌else◌, All, All-imp,
  ◌≡◌, refl, arith, Bool-cases, inl, inr,
}

module _ {A : Type 0} (less : A → A → Bool) where
  unfoldable pub insert_stable : A → List A → List A
  insert_stable x [] = x ∷ []
  insert_stable x (y ∷ ys) =
      let rest = insert_stable x ys in if less y x then y ∷ rest else x ∷ y ∷ ys

  unfoldable pub sort_stable : List A → List A
  unfolding insert_stable
  sort_stable [] = []
  sort_stable (x ∷ xs) = insert_stable x (sort_stable xs)

  count-insert_stable :
      (p : A → Bool) (x : A) (ys : List A)
      → count p (insert_stable x ys) ≡ (if p x then 1 else 0) + count p ys
  unfolding insert_stable count
  count-insert_stable p x [] = ground arith
  count-insert_stable p x (y ∷ ys) = ground (arith, count-insert_stable p x ys)

  -- Nothing is lost and nothing comes twice.
  pub count-sort_stable : (p : A → Bool) (xs : List A) → count p (sort_stable xs) ≡ count p xs
  unfolding sort_stable count
  count-sort_stable p [] = refl
  count-sort_stable p (x ∷ xs) =
      ground (arith, count-insert_stable p x (sort_stable xs), count-sort_stable p xs)

-- No element comes before an earlier one.
abbrev pub IsSorted : {A : Type 0} → (A → A → Bool) → List A → Type 0
IsSorted less [] = Unit
IsSorted less (x ∷ xs) = All (λ y. less y x ≡ false) xs × IsSorted less xs

-- What makes `less` the strict part of a total order up to ties.
pub record IsOrder {A : Type 0} (less : A → A → Bool) : Type 0 where
  pub asymmetric : (x y : A) → less y x ≡ true → less x y ≡ false
  pub transitive : (x y z : A) → less y x ≡ false → less z y ≡ false → less z x ≡ false

module _ {A : Type 0} (less : A → A → Bool) where
  All-insert_stable :
      (P : A → Type 0) (x : A) (ys : List A) → P x → All P ys → All P (insert_stable less x ys)
  unfolding insert_stable
  All-insert_stable P x [] h k = (h, tt)
  All-insert_stable P x (y ∷ ys) h k = elim (Bool-cases (less y x)) [
    | inl e ↦ rw e (k.0, All-insert_stable P x ys h k.1)
    | inr e ↦ rw e (h, k)
  ]

  insert_stable-IsSorted :
      IsOrder less
      → (x : A) (ys : List A) → IsSorted less ys
      → IsSorted less (insert_stable less x ys)
  unfolding insert_stable
  insert_stable-IsSorted o x [] h = (tt, tt)
  insert_stable-IsSorted o x (y ∷ ys) h = elim (Bool-cases (less y x)) [
    | inl e ↦ rw e (
      All-insert_stable (λ z. less z y ≡ false) x ys (o.asymmetric x y e) h.0,
      insert_stable-IsSorted o x ys h.1,
    )
    | inr e ↦ rw e (
      (
        e,
        All-imp (λ z. less z y ≡ false) (λ z. less z x ≡ false) ys (λ z k. o.transitive x y z e k)
            h.0,
      ),
      h,
    )
  ]

  pub sort_stable-IsSorted : IsOrder less → (xs : List A) → IsSorted less (sort_stable less xs)
  unfolding sort_stable
  sort_stable-IsSorted o [] = tt
  sort_stable-IsSorted o (x ∷ xs) =
      insert_stable-IsSorted o x (sort_stable less xs) (sort_stable-IsSorted o xs)

module _ {A : Type 0} (rank : A → ℕ) where
  abbrev pub by_rank : A → A → Bool
  by_rank x y = ltb (rank x) (rank y)

  pub by_rank-IsOrder : IsOrder by_rank
  by_rank-IsOrder = record {
    asymmetric = λ x y h. ground arith;
    transitive = λ x y z h k. ground arith;
  }

  select-insert_stable :
      (k : ℕ) (x : A) (ys : List A)
      → select (λ z. rank z == k) (insert_stable by_rank x ys) ≡ select (λ z. rank z == k) (x ∷ ys)
  unfolding insert_stable select
  select-insert_stable k x [] = refl
  select-insert_stable k x (y ∷ ys) = ground (arith, select-insert_stable k x ys)

  -- What has one rank keeps its order.
  pub select-sort_stable :
      (k : ℕ) (xs : List A)
      → select (λ z. rank z == k) (sort_stable by_rank xs) ≡ select (λ z. rank z == k) xs
  unfolding sort_stable select
  select-sort_stable k [] = refl
  select-sort_stable k (x ∷ xs) =
      ground (arith, select-insert_stable k x (sort_stable by_rank xs), select-sort_stable k xs)
