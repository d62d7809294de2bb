-- ===== src/Capacity/Replicas.antt =====
-- internal/capacity/capacity.go: the disks that placeVolume chooses for the replicas of a volume.
use vtafarm_api.Base.{
  ℕ, zero, suc, ◌+◌, ◌-◌, ◌*◌, ◌≤◌, false, not, ◌&&◌, List, [], ◌∷◌, ◌++◌, Option, none, some, leb,
  ltb, ◌==◌, ◌≡◌, refl, sym, ◌∙◌, arith, All, All-append, get_elem?, set, length, Option-cases,
  Bool-cases, inl, inr,
}
use mathlib.Core.Path.{subst}
use mathlib.Core.Option.{some-injective}
use mathlib.Core.List.{append-nil}
use vtafarm_api.Capacity.Totals.{
  get_elem?-append, get_elem?-length, get_elem?-set_other, append_snoc, length_snoc, total,
  total-set,
}
use vtafarm_api.Capacity.Placement.{
  DiskFree, contains, better_disk, best_disk, choose_disks, take_disk, take_disks, place_volume,
}

-- No index is chosen twice.
abbrev pub Distinct : List ℕ → Type 0
Distinct [] = Unit
Distinct (i ∷ is) = (contains is i ≡ false) × Distinct is

-- The disk at the index has the bytes.
abbrev pub HasSpace : List DiskFree → ℕ → ℕ → Type 0
HasSpace disks bytes i = (d : DiskFree) × (get_elem? disks i ≡ some d) × (bytes ≤ d)

contains-snoc :
    (xs : List ℕ) (i j : ℕ)
    → contains xs j ≡ false
    → (j == i) ≡ false
    → contains (xs ++ i ∷ []) j ≡ false
unfolding contains
contains-snoc [] i j h ne = ground (arith, ne)
contains-snoc (x ∷ xs) i j h ne = ground (arith, contains-snoc xs i j, ne)

Distinct-snoc :
    (xs : List ℕ) (i : ℕ) → Distinct xs → contains xs i ≡ false → Distinct (xs ++ i ∷ [])
unfolding contains
Distinct-snoc [] i h new = (refl, tt)
Distinct-snoc (x ∷ xs) i (h, hs) new =
    (contains-snoc xs i x h (ground (arith, new)), Distinct-snoc xs i hs (ground (arith, new)))

module _ (bytes : ℕ) (chosen : List ℕ) where
  -- What the loop over the disks promises of the disk it finds.
  abbrev Found : List DiskFree → Option (ℕ × DiskFree) → Type 0
  Found disks none = Unit
  Found disks (some (i, d)) =
      (get_elem? disks i ≡ some d) × (bytes ≤ d) × (contains chosen i ≡ false)

  better_disk-Found :
      (disks : List DiskFree) (d : DiskFree) (best : Option (ℕ × DiskFree))
      → Found disks best
      → Found (disks ++ d ∷ []) (better_disk bytes chosen (length disks) d best)
  unfolding better_disk
  better_disk-Found disks d none h =
      elim (Bool-cases (leb bytes d && not (contains chosen (length disks)))) [
        | inl e ↦ rw e (get_elem?-length disks d, ground (arith, e), ground (arith, e))
        | inr e ↦ rw e tt
      ]
  better_disk-Found disks d (some (j, b)) (at, fits, new) =
      elim (Bool-cases (leb bytes d && not (contains chosen (length disks)) && ltb b d)) [
        | inl e ↦ rw e (get_elem?-length disks d, ground (arith, e), ground (arith, e))
        | inr e ↦ rw e (get_elem?-append disks (d ∷ []) j b at, fits, new)
      ]

  best_disk-Found :
      (disks rest : List DiskFree) (best : Option (ℕ × DiskFree))
      → Found disks best
      → Found (disks ++ rest) (best_disk bytes chosen (length disks) best rest)
  unfolding best_disk
  best_disk-Found disks [] best h = rw (append-nil disks) h
  best_disk-Found disks (d ∷ rest) best h =
      let next = better_disk bytes chosen (length disks) d best in
      subst (λ ds. Found ds (best_disk bytes chosen (suc (length disks)) next rest))
        (append_snoc disks d rest)
        (subst (λ k. Found ((disks ++ d ∷ []) ++ rest) (best_disk bytes chosen k next rest))
          (length_snoc disks d)
          (best_disk-Found (disks ++ d ∷ []) rest next (better_disk-Found disks d best h)))

-- Distinct disks with space.
abbrev pub Choice : List DiskFree → ℕ → ℕ → List ℕ → Type 0
Choice disks bytes replicas chosen =
    (length chosen ≡ replicas) × Distinct chosen × All (HasSpace disks bytes) chosen

plus_suc : (k n : ℕ) → suc k + n ≡ k + suc n
plus_suc k n = omega arith

zero_plus : (n : ℕ) → 0 + n ≡ n
zero_plus n = omega arith

plus_zero : (n : ℕ) → n + 0 ≡ n
plus_zero n = omega arith

module _ (disks : List DiskFree) (bytes : ℕ) where
  choose_disks-Choice :
      (k n : ℕ) (chosen result : List ℕ)
      → Choice disks bytes n chosen
      → choose_disks bytes disks k chosen ≡ some result
      → Choice disks bytes (k + n) result
  unfolding choose_disks
  choose_disks-Choice zero n chosen result h e =
      rw (zero_plus n) (subst (Choice disks bytes n) (some-injective _ _ e) h)
  choose_disks-Choice (suc k) n chosen result (len, distinct, space) e =
      elim (Option-cases (best_disk bytes chosen 0 none disks)) [
        | inl none_left ↦ ground (arith, none_left, e)
        | inr ((i, d), found) ↦
            let (at, fits, new) =
              subst (Found bytes chosen disks) found
                (best_disk-Found bytes chosen [] disks none tt) in
            rw (plus_suc k n) (
              choose_disks-Choice k (suc n) (chosen ++ i ∷ []) result
                (
                  ground (arith, length_snoc chosen i, len),
                  Distinct-snoc chosen i distinct new,
                  All-append _ chosen (i ∷ []) space ((d, at, fits), tt),
                )
                (ground (arith, found, e)))
      ]

take_disk-some :
    (disks : List DiskFree) (bytes i : ℕ) (d : DiskFree)
    → get_elem? disks i ≡ some d
    → take_disk disks bytes i ≡ set disks i (d - bytes)
take_disk-some disks bytes i d e = ground (arith, e)

take_disk-none :
    (disks : List DiskFree) (bytes i : ℕ)
    → get_elem? disks i ≡ none
    → take_disk disks bytes i ≡ disks
take_disk-none disks bytes i e = ground (arith, e)

HasSpace-take_disk :
    (disks : List DiskFree) (bytes i j : ℕ)
    → (i == j) ≡ false
    → HasSpace disks bytes j
    → HasSpace (take_disk disks bytes i) bytes j
HasSpace-take_disk disks bytes i j ne (d, at, fits) = elim (Option-cases (get_elem? disks i)) [
  | inl e ↦ rw (take_disk-none disks bytes i e) (d, at, fits)
  | inr (c, e) ↦
      rw (take_disk-some disks bytes i c e)
        (d, get_elem?-set_other disks i j (c - bytes) (λ same. ground (arith, ne, same)) ∙ at, fits)
]

HasSpace-all :
    (disks : List DiskFree) (bytes i : ℕ) (is : List ℕ)
    → contains is i ≡ false
    → All (HasSpace disks bytes) is
    → All (HasSpace (take_disk disks bytes i) bytes) is
unfolding contains
HasSpace-all disks bytes i [] new space = tt
HasSpace-all disks bytes i (j ∷ js) new (s, space) = (
  HasSpace-take_disk disks bytes i j (ground (arith, new)) s,
  HasSpace-all disks bytes i js (ground (arith, new)) space,
)

take_disks-total :
    (disks : List DiskFree) (bytes : ℕ) (chosen : List ℕ)
    → Distinct chosen
    → All (HasSpace disks bytes) chosen
    → total (λ d. d) disks ≡ total (λ d. d) (take_disks disks bytes chosen) + length chosen * bytes
unfolding take_disks
take_disks-total disks bytes [] distinct space = omega arith
take_disks-total disks bytes (i ∷ is) (new, distinct) ((d, at, fits), space) =
    let rest =
      take_disks-total (take_disk disks bytes i) bytes is distinct
        (HasSpace-all disks bytes i is new space) in
    let first : total (λ n. n) disks ≡ total (λ n. n) (take_disk disks bytes i) + bytes =
      rw (take_disk-some disks bytes i d at)
        (total-set (λ n. n) disks i d (d - bytes) bytes at (omega (arith, fits))) in
    omega (arith, first, rest)

-- Modelling internal/capacity/capacity.go: where placeVolume succeeds for a number of replicas,
-- that many disks are chosen, all different, each of which had the bytes; the bytes are taken from
-- each of them, and so the disks together lose the bytes once for each replica.
pub place_volume_distinct :
    (disks left : List DiskFree) (bytes replicas : ℕ)
    → place_volume disks bytes replicas ≡ some left
    → ((chosen : List ℕ) × Choice disks bytes replicas chosen
        × (left ≡ take_disks disks bytes chosen))
      × (total (λ d. d) disks ≡ total (λ d. d) left + replicas * bytes)
unfolding place_volume
place_volume_distinct disks left bytes replicas e =
    elim (Option-cases (choose_disks bytes disks replicas [])) [
      | inl stuck ↦ ground (arith, stuck, e)
      | inr (chosen, found) ↦
          let (len, distinct, space) =
            subst (λ n. Choice disks bytes n chosen) (plus_zero replicas)
              (choose_disks-Choice disks bytes replicas 0 [] chosen (refl, tt, tt) found) in
          let same : left ≡ take_disks disks bytes chosen = ground (arith, found, e) in
          (
            (chosen, (len, distinct, space), same),
            rw (same, sym len) (take_disks-total disks bytes chosen distinct space),
          )
    ]
