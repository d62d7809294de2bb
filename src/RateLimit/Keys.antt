-- ===== src/RateLimit/Keys.antt =====
-- internal/middleware/ratelimit.go: the map of hits, whose keys are all different, and what a
-- request and the sweep do to its entries.
use vtafarm_api.Base.{
  ℕ, String, Bool, true, false, ◌||◌, List, [], ◌∷◌, str_eq, eq_iff, leb, select, length, ◌≡◌, refl,
  sym, arith, Bool-cases, inl, inr,
}
use mathlib.Core.Path.{subst}
use vtafarm_api.RateLimit.Window.{Hits, lookup, store, recent, sweep}

unfoldable pub has_key : String → Hits → Bool
has_key ip [] = false
has_key ip (e ∷ es) = str_eq e.key ip || has_key ip es

abbrev pub HasUniqueKeys : Hits → Type 0
HasUniqueKeys [] = Unit
HasUniqueKeys (e ∷ es) = (has_key e.key es ≡ false) × HasUniqueKeys es

pub str_refl : (s : String) → str_eq s s ≡ true
str_refl s = (eq_iff s s).1 refl

pub str_apart : (a b c : String) → str_eq a b ≡ true → str_eq b c ≡ false → str_eq a c ≡ false
str_apart a b c e h = subst (λ x. str_eq x c ≡ false) (sym ((eq_iff a b).0 e)) h

str_apart_sym : (a b : String) → str_eq a b ≡ false → str_eq b a ≡ false
str_apart_sym a b h = elim (Bool-cases (str_eq b a)) [
  | inl e ↦ ground (arith, h, subst (λ x. str_eq a x ≡ true) (sym ((eq_iff b a).0 e)) (str_refl a))
  | inr e ↦ e
]

pub lookup-store :
    (ip : String) (times : List ℕ) (hits : Hits) → lookup ip (store ip times hits) ≡ times
unfolding lookup store
lookup-store ip times [] = ground (arith, str_refl ip)
lookup-store ip times (e ∷ es) = ground (arith, str_refl ip, lookup-store ip times es)

pub lookup-store_other :
    (ip other : String) (times : List ℕ) (hits : Hits)
    → str_eq ip other ≡ false
    → lookup other (store ip times hits) ≡ lookup other hits
unfolding lookup store
lookup-store_other ip other times [] h = ground (arith, h)
lookup-store_other ip other times (e ∷ es) h =
    ground (arith, h, str_apart e.key ip other, lookup-store_other ip other times es h)

has_key-store :
    (ip k : String) (times : List ℕ) (hits : Hits)
    → str_eq ip k ≡ false
    → has_key k hits ≡ false
    → has_key k (store ip times hits) ≡ false
unfolding has_key store
has_key-store ip k times [] ne h = ground (arith, ne)
has_key-store ip k times (e ∷ es) ne h = ground (arith, ne, has_key-store ip k times es ne)

pub store-HasUniqueKeys :
    (ip : String) (times : List ℕ) (hits : Hits)
    → HasUniqueKeys hits
    → HasUniqueKeys (store ip times hits)
unfolding has_key store
store-HasUniqueKeys ip times [] h = (refl, tt)
store-HasUniqueKeys ip times (e ∷ es) (new, h) = elim (Bool-cases (str_eq e.key ip)) [
  | inl same ↦ rw same (subst (λ k. has_key k es ≡ false) ((eq_iff e.key ip).0 same) new, h)
  | inr apart ↦ rw apart (
    has_key-store ip e.key times es (str_apart_sym e.key ip apart) new,
    store-HasUniqueKeys ip times es h,
  )
]

has_key-sweep :
    (window now : ℕ) (k : String) (hits : Hits)
    → has_key k hits ≡ false
    → has_key k (sweep window now hits) ≡ false
unfolding has_key sweep
has_key-sweep window now k [] h = refl
has_key-sweep window now k (e ∷ es) h = ground (arith, has_key-sweep window now k es)

pub sweep-HasUniqueKeys :
    (window now : ℕ) (hits : Hits) → HasUniqueKeys hits → HasUniqueKeys (sweep window now hits)
unfolding sweep
sweep-HasUniqueKeys window now [] h = tt
sweep-HasUniqueKeys window now (e ∷ es) (new, h) =
    elim (Bool-cases (leb (length (recent window now e.times)) 0)) [
      | inl gone ↦ rw gone (sweep-HasUniqueKeys window now es h)
      | inr live ↦
          rw live (has_key-sweep window now e.key es new, sweep-HasUniqueKeys window now es h)
    ]

lookup_missing : (ip : String) (hits : Hits) → has_key ip hits ≡ false → lookup ip hits ≡ []
unfolding lookup has_key
lookup_missing ip [] h = refl
lookup_missing ip (e ∷ es) h = ground (arith, lookup_missing ip es)

empty_of_length : {A : Type 0} (xs : List A) → leb (length xs) 0 ≡ true → xs ≡ []
empty_of_length [] h = refl
empty_of_length (x ∷ xs) h = ground (arith, h)

-- The sweep keeps what is recent, and nothing else.
pub lookup-sweep :
    (window now : ℕ) (ip : String) (hits : Hits)
    → HasUniqueKeys hits
    → lookup ip (sweep window now hits) ≡ recent window now (lookup ip hits)
unfolding lookup sweep recent select
lookup-sweep window now ip [] h = refl
lookup-sweep window now ip (e ∷ es) (new, h) =
    let rest = lookup-sweep window now ip es h in
    elim (Bool-cases (str_eq e.key ip)) [
      | inl same ↦
          let missing =
            lookup_missing ip es
              (subst (λ k. has_key k es ≡ false) ((eq_iff e.key ip).0 same) new) in
          ground (arith, rest, same, missing, empty_of_length (recent window now e.times))
      | inr apart ↦ ground (arith, rest, apart)
    ]
