-- ===== src/Pool/Identifiers.antt =====
-- internal/pool/store.go: generateUniqueIDs, which draws random identifiers until it has as many
-- different ones as it wants. The source answers the draw at each position with a value or an error.
use vtafarm_api.Base.{
  ℕ, zero, suc, ◌+◌, ◌*◌, ◌≤◌, ◌<◌, String, Bool, true, false, List, [], ◌∷◌, Option, none, some,
  str_eq, leb, any, length, ◌≡◌, is_some, ◌⊎◌, refl, sym, arith, Bool-cases, Option-cases, inl, inr,
}
use mathlib.Core.Path.{subst}
use vtafarm_api.Store.{Error, random_failed, pool_exhausted}

abbrev pub Source : Type 0
Source = ℕ → Option String

-- The identifiers drawn, all that were generated, and the position of the next draw.
pub record Drawn : Type 0 where
  pub names : List String
  pub generated : List String
  pub position : ℕ

unfoldable pub is_generated : String → List String → Bool
is_generated v generated = any (λ w. str_eq w v) generated

abbrev pub keep : String → Error ⊎ Drawn → Error ⊎ Drawn
keep v (inl e) = inl e
keep v (inr d) = inr (record d { names = v ∷ d.names })

-- The loop, with the draws and the identifiers that are left.
unfoldable pub generate_loop : Source → ℕ → ℕ → List String → ℕ → Error ⊎ Drawn
unfolding is_generated
generate_loop source draws zero generated at =
    inr (record { names = []; generated = generated; position = at })
generate_loop source zero (suc need) generated at = inl pool_exhausted
generate_loop source (suc draws) (suc need) generated at = elim (source at) [
  | none ↦ inl random_failed
  | some v ↦ elim (is_generated v generated) [
    | true ↦ generate_loop source draws (suc need) generated (suc at)
    | false ↦ keep v (generate_loop source draws need (v ∷ generated) (suc at))
  ]
]

-- generateUniqueIDs
unfoldable pub generate_unique_ids : Source → ℕ → List String → ℕ → Error ⊎ Drawn
unfolding generate_loop
generate_unique_ids source count generated at =
    generate_loop source (count * 20 + 100) count generated at

-- The description of the source: how many values that were not generated before the draws have,
-- each counted once.
unfoldable pub new_values : Source → ℕ → List String → ℕ → ℕ
unfolding is_generated
new_values source zero generated at = 0
new_values source (suc draws) generated at = elim (source at) [
  | none ↦ new_values source draws generated (suc at)
  | some v ↦ elim (is_generated v generated) [
    | true ↦ new_values source draws generated (suc at)
    | false ↦ suc (new_values source draws (v ∷ generated) (suc at))
  ]
]

-- The source fails at none of the draws.
abbrev pub NeverFails : Source → ℕ → ℕ → Type 0
NeverFails source zero at = Unit
NeverFails source (suc draws) at = (is_some (source at) ≡ true) × NeverFails source draws (suc at)

-- No identifier stands twice, and none was generated before.
abbrev pub IsNew : List String → List String → Type 0
IsNew generated [] = Unit
IsNew generated (v ∷ names) = (is_generated v generated ≡ false) × IsNew (v ∷ generated) names

abbrev pub AreDrawn : ℕ → List String → ℕ → Error ⊎ Drawn → Type 0
AreDrawn need generated last (inl e) = ⊥
AreDrawn need generated last (inr d) =
    (length d.names ≡ need) × IsNew generated d.names × (d.position ≤ last)

pub generate_none :
    (source : Source) (draws : ℕ) (generated : List String) (at : ℕ)
    → generate_loop source draws 0 generated at
      ≡ inr (record { names = []; generated = generated; position = at })
unfolding generate_loop
generate_none source zero generated at = refl
generate_none source (suc draws) generated at = refl

keep-AreDrawn :
    (v : String) (need : ℕ) (generated : List String) (last : ℕ) (r : Error ⊎ Drawn)
    → is_generated v generated ≡ false
    → AreDrawn need (v ∷ generated) last r
    → AreDrawn (suc need) generated last (keep v r)
keep-AreDrawn v need generated last (inl e) new h = h
keep-AreDrawn v need generated last (inr d) new (size, fresh, end) =
    (omega (arith, size), (new, fresh), end)

module _ (source : Source) where
  -- A draw without an error gives a value.
  draw : (draws at : ℕ) → NeverFails source (suc draws) at → (v : String) × (source at ≡ some v)
  draw draws at works = elim (Option-cases (source at)) [
    | inl e ↦ ground (arith, e, works.0)
    | inr (v, e) ↦ (v, e)
  ]

  enough :
      (draws need : ℕ) (generated : List String) (at last : ℕ)
      → NeverFails source draws at
      → at + draws ≤ last
      → need ≤ new_values source draws generated at
      → AreDrawn need generated last (generate_loop source draws need generated at)
  unfolding new_values generate_loop
  enough draws zero generated at last works le h =
      subst (AreDrawn 0 generated last) (sym (generate_none source draws generated at))
        (refl, tt, omega (arith, le))
  enough zero (suc need) generated at last works le h = absurd (omega (arith, h))
  enough (suc draws) (suc need) generated at last works le h =
      let (v, e) = draw draws at works in
      elim (Bool-cases (is_generated v generated)) [
        | inl old ↦
            let here : generate_loop source draws (suc need) generated (suc at)
                ≡ generate_loop source (suc draws) (suc need) generated at =
              ground (arith, e, old) in
            subst (AreDrawn (suc need) generated last) here (
              enough draws (suc need) generated (suc at) last works.1 (omega (arith, le))
                (ground (arith, h, e, old)))
        | inr new ↦
            let here : keep v (generate_loop source draws need (v ∷ generated) (suc at))
                ≡ generate_loop source (suc draws) (suc need) generated at =
              ground (arith, e, new) in
            subst (AreDrawn (suc need) generated last) here (
              keep-AreDrawn v need generated last _ new (
                enough draws need (v ∷ generated) (suc at) last works.1 (omega (arith, le))
                  (ground (arith, h, e, new))))
      ]

  short :
      (draws need : ℕ) (generated : List String) (at : ℕ)
      → NeverFails source draws at
      → new_values source draws generated at < need
      → generate_loop source draws need generated at ≡ inl pool_exhausted
  unfolding new_values generate_loop
  short draws zero generated at works h = absurd (omega (arith, h))
  short zero (suc need) generated at works h = refl
  short (suc draws) (suc need) generated at works h =
      let (v, e) = draw draws at works in
      elim (Bool-cases (is_generated v generated)) [
        | inl old ↦
            let ih =
              short draws (suc need) generated (suc at) works.1 (ground (arith, h, e, old)) in
            ground (arith, e, old, ih)
        | inr new ↦
            let ih =
              short draws need (v ∷ generated) (suc at) works.1 (ground (arith, h, e, new)) in
            ground (arith, e, new, ih)
      ]

-- The answer, where there are enough new values among the draws, and where there are not.
abbrev pub Answers : ℕ → List String → ℕ → Bool → Error ⊎ Drawn → Type 0
Answers count generated last true r = AreDrawn count generated last r
Answers count generated last false r = r ≡ inl pool_exhausted

-- Modelling internal/pool/store.go: where the random source fails at none of its first
-- count * 20 + 100 draws, generateUniqueIDs draws at most so often; it gives exactly the wanted
-- count of identifiers, all different and none generated before, if that many new values are among
-- these draws, and otherwise ends with the error that the source has too many duplicates.
pub generate_unique_ids-AreDrawn :
    (source : Source) (count : ℕ) (generated : List String) (at : ℕ)
    → NeverFails source (count * 20 + 100) at
    → Answers count generated
        (at + (count * 20 + 100))
        (leb count (new_values source (count * 20 + 100) generated at))
        (generate_unique_ids source count generated at)
unfolding generate_unique_ids
generate_unique_ids-AreDrawn source count generated at works =
    let draws = count * 20 + 100 in
    elim (Bool-cases (leb count (new_values source draws generated at))) [
      | inl e ↦ rw e (
          enough source draws count generated at (at + draws) works (omega arith)
            (ground (arith, e)))
      | inr e ↦ rw e (short source draws count generated at works (ground (arith, e)))
    ]
