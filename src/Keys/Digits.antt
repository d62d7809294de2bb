-- ===== src/Keys/Digits.antt =====
-- internal/didresolver/didkey.go: the digits of a number and the number of the digits.
use vtafarm_api.Base.{
  ℕ, zero, suc, ◌+◌, ◌*◌, ◌<◌, ◌≤◌, List, [], ◌∷◌, ◌++◌, All, ◌==◌, ◌≡◌, refl, sym, ap, ◌∙◌, arith,
  Bool-cases, inl, inr,
}
use Prim.Native.Nat.{◌/◌, ◌%◌}
use mathlib.Core.Path.{subst}
use mathlib.Core.List.{append_assoc, append-nil}
use vtafarm_api.Keys.Base58.{reverse, low_digits, number, for_leading}

-- What division by the base does.
pub record IsBase (base : ℕ) : Type 0 where
  pub positive : 0 < base
  pub div_lem : (a d : ℕ) → d < base → (a * base + d) / base ≡ a
  pub mod_lem : (a d : ℕ) → d < base → (a * base + d) % base ≡ d
  pub smaller : (n : ℕ) → 0 < n → n / base < n
  pub whole : (n : ℕ) → n / base * base + n % base ≡ n
  pub digit : (n : ℕ) → n % base < base

pub IsBase-58 : IsBase 58
IsBase-58 = record {
  positive = omega arith;
  div_lem = λ a d h. omega (arith, h);
  mod_lem = λ a d h. omega (arith, h);
  smaller = λ n h. omega (arith, h);
  whole = λ n. omega arith;
  digit = λ n. omega arith;
}

pub IsBase-256 : IsBase 256
IsBase-256 = record {
  positive = omega arith;
  div_lem = λ a d h. omega (arith, h);
  mod_lem = λ a d h. omega (arith, h);
  smaller = λ n h. omega (arith, h);
  whole = λ n. omega arith;
  digit = λ n. omega arith;
}

abbrev pub high_digits : ℕ → ℕ → List ℕ
high_digits base n = reverse (low_digits base n n)

module _ (base : ℕ) (b : IsBase base) where
  -- More fuel than the number changes nothing.
  fuel_enough : (f g n : ℕ) → n ≤ f → n ≤ g → low_digits base f n ≡ low_digits base g n
  unfolding low_digits
  fuel_enough zero zero n p q = refl
  fuel_enough zero (suc g) n p q = ground (arith, p)
  fuel_enough (suc f) zero n p q = ground (arith, q)
  fuel_enough (suc f) (suc g) n p q = elim (Bool-cases (n == 0)) [
    | inl e ↦ ground (arith, e)
    | inr e ↦ ground (
      arith,
      e,
      fuel_enough f g (n / base) (omega (arith, p, b.smaller n (ground (arith, e))))
          (omega (arith, q, b.smaller n (ground (arith, e)))),
    )
  ]

  low_digits-step :
      (n : ℕ) → 0 < n → low_digits base n n ≡ n % base ∷ low_digits base (n / base) (n / base)
  unfolding low_digits
  low_digits-step zero p = absurd (omega (arith, p))
  low_digits-step (suc n) p = ground (
    arith,
    fuel_enough n (suc n / base) (suc n / base) (omega (arith, b.smaller (suc n) p)) (omega arith),
  )

  high_digits-step :
      (a d : ℕ)
      → d < base
      → 0 < a * base + d
      → high_digits base (a * base + d) ≡ high_digits base a ++ d ∷ []
  high_digits-step a d lt p =
      rw (low_digits-step (a * base + d) p, b.div_lem a d lt, b.mod_lem a d lt) refl

  number_positive : (n d : ℕ) → 0 < n → 0 < n * base + d
  number_positive zero d p = absurd (omega (arith, p))
  number_positive (suc n) d p = ground (arith, b.positive)

  from_zero : (d : ℕ) → 0 * base + d ≡ d
  from_zero d = omega arith

  low_digits_zero : low_digits base 0 0 ≡ []
  unfolding low_digits
  low_digits_zero = refl

  number-more :
      (n : ℕ) (ds : List ℕ)
      → 0 < n
      → All (λ d. d < base) ds
      → high_digits base (number base n ds) ≡ high_digits base n ++ ds
  unfolding number
  number-more n [] p h = sym (append-nil (high_digits base n))
  number-more n (d ∷ ds) p h =
      let pos : 0 < n * base + d = number_positive n d p in
      number-more (n * base + d) ds pos h.1
      ∙ ap (λ xs. xs ++ ds) (high_digits-step n d h.0 pos)
      ∙ append_assoc (high_digits base n) (d ∷ []) ds

  after_zeros :
      (d : ℕ) (ds : List ℕ)
      → All (λ d. d < base) (suc d ∷ ds)
      → high_digits base (number base (0 * base + suc d) ds) ≡ suc d ∷ ds
  after_zeros d ds h =
      ap (λ n. high_digits base (number base n ds)) (from_zero (suc d))
      ∙ number-more (suc d) ds (omega arith) h.1
      ∙ ap (λ n. high_digits base n ++ ds) (sym (from_zero (suc d)))
      ∙ ap (λ xs. xs ++ ds) (high_digits-step 0 (suc d) h.0 (omega arith))
      ∙ ap (λ xs. (reverse xs ++ suc d ∷ []) ++ ds) low_digits_zero

  -- The digits of the number of a list are the list without its leading zeros.
  pub digits-number :
      (ds : List ℕ)
      → All (λ d. d < base) ds
      → for_leading 0 0 ds ++ high_digits base (number base 0 ds) ≡ ds
  unfolding number for_leading
  digits-number [] h = rw low_digits_zero refl
  digits-number (zero ∷ ds) h =
      ap (λ n. 0 ∷ (for_leading 0 0 ds ++ high_digits base (number base n ds))) (from_zero 0)
      ∙ ap (λ xs. 0 ∷ xs) (digits-number ds h.1)
  digits-number (suc d ∷ ds) h = ground (arith, after_zeros d ds h)

  number-append :
      (n : ℕ) (ds : List ℕ) (d : ℕ) → number base n (ds ++ d ∷ []) ≡ number base n ds * base + d
  unfolding number
  number-append n [] d = refl
  number-append n (x ∷ ds) d = number-append (n * base + x) ds d

  -- The number of the digits of a number is the number.
  number-low_digits : (f n : ℕ) → n ≤ f → number base 0 (reverse (low_digits base f n)) ≡ n
  unfolding low_digits number
  number-low_digits zero n p = omega (arith, p)
  number-low_digits (suc f) n p = elim (Bool-cases (n == 0)) [
    | inl e ↦ ground (arith, e)
    | inr e ↦
        let ih =
          number-low_digits f (n / base) (omega (arith, p, b.smaller n (ground (arith, e)))) in
        let split = number-append 0 (reverse (low_digits base f (n / base))) (n % base) in
        ground (arith, e, ih, split, b.whole n)
  ]

  pub number-digits : (n : ℕ) → number base 0 (high_digits base n) ≡ n
  number-digits n = number-low_digits n n (omega arith)

  pub low_digits-digit : (f n : ℕ) → All (λ d. d < base) (low_digits base f n)
  unfolding low_digits
  low_digits-digit zero n = tt
  low_digits-digit (suc f) n = elim (Bool-cases (n == 0)) [
    | inl e ↦
        let here : [] ≡ low_digits base (suc f) n = ground (arith, e) in
        subst (All (λ d. d < base)) here tt
    | inr e ↦
        let here : n % base ∷ low_digits base f (n / base) ≡ low_digits base (suc f) n =
          ground (arith, e) in
        subst (All (λ d. d < base)) here (b.digit n, low_digits-digit f (n / base))
  ]
