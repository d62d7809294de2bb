-- ===== src/RateLimit/Answers.antt =====
-- internal/middleware/ratelimit.go: the handler against a description that remembers every request
-- that was let through and counts those in the window.
use vtafarm_api.Base.{
  ℕ, ◌+◌, ◌-◌, ◌≤◌, String, Bool, true, false, ◌&&◌, List, [], ◌∷◌, ◌++◌, str_eq, eq_iff, ltb, leb,
  select, count, if◌then◌else◌, length, ◌≡◌, refl, ap, ◌∙◌, arith, Bool-cases, inl, inr,
}
use mathlib.Core.Path.{subst}
use vtafarm_api.RateLimit.Keys.{
  HasUniqueKeys, store-HasUniqueKeys, sweep-HasUniqueKeys, lookup-store, lookup-store_other,
  lookup-sweep, str_refl,
}
use vtafarm_api.RateLimit.Window.{
  Hits, lookup, store, is_recent, recent, sweep_size, maybe_sweep, request, Request, serve,
}

-- The request is the address's, and in the window that ends at the time.
abbrev pub is_within : ℕ → String → ℕ → Request → Bool
is_within window ip t r = str_eq r.address ip && leb r.at t && ltb (t - r.at) window

-- The description: a request is let through if fewer than `most` were within its window.
abbrev pub allows : ℕ → ℕ → Request → List Request → Bool
allows most window r log = ltb (count (is_within window r.address r.at) log) most

unfoldable pub allow : ℕ → ℕ → List Request → List Request → List Bool
allow most window [] log = []
allow most window (r ∷ rs) log =
    let through = allows most window r log in
    through ∷ allow most window rs (if through then r ∷ log else log)

-- The times do not go back.
abbrev pub IsOrdered : ℕ → List Request → Type 0
IsOrdered now [] = Unit
IsOrdered now (r ∷ rs) = (now ≤ r.at) × IsOrdered r.at rs

-- A time that is in a window is in the windows that ended since.
recent_later :
    (window now t : ℕ) (times : List ℕ)
    → now ≤ t
    → count (is_recent window t) (recent window now times) ≡ count (is_recent window t) times
unfolding recent select count
recent_later window now t [] le = refl
recent_later window now t (x ∷ times) le = ground (arith, recent_later window now t times le, le)

length-recent :
    (window now : ℕ) (times : List ℕ)
    → length (recent window now times) ≡ count (is_recent window now) times
unfolding recent select count
length-recent window now [] = refl
length-recent window now (x ∷ times) = ground (arith, length-recent window now times)

count-snoc :
    (window t now : ℕ) (times : List ℕ)
    → count (is_recent window t) (times ++ now ∷ [])
      ≡ count (is_recent window t) times + (if is_recent window t now then 1 else 0)
unfolding count
count-snoc window t now [] = ground arith
count-snoc window t now (x ∷ times) = ground (arith, count-snoc window t now times)

-- The map and the log agree on every address and every window from now on.
pub record Agrees (window now : ℕ) (hits : Hits) (log : List Request) : Type 0 where
  pub keys : HasUniqueKeys hits
  pub same :
      (ip : String) (t : ℕ)
      → now ≤ t
      → count (is_recent window t) (lookup ip hits) ≡ count (is_within window ip t) log

module _ (window now : ℕ) (hits : Hits) (log : List Request) (agrees : Agrees window now hits log)
    (r : Request) (order : now ≤ r.at) where
  Agrees-refuse :
      Agrees window r.at (store r.address (recent window r.at (lookup r.address hits)) hits) log
  Agrees-refuse = record {
    keys = store-HasUniqueKeys r.address _ hits agrees.keys;
    same = λ ip t le. elim (Bool-cases (str_eq r.address ip)) [
      | inl e ↦
          let here : r.address ≡ ip = (eq_iff r.address ip).0 e in
          subst
            (λ a.
              count (is_recent window t)
                (lookup a (store r.address (recent window r.at (lookup r.address hits)) hits))
              ≡ count (is_within window a t) log)
            here
            (rw
              (
                lookup-store r.address (recent window r.at (lookup r.address hits)) hits,
                recent_later window r.at t (lookup r.address hits) le,
              )
              (agrees.same r.address t (omega (arith, le, order))))
      | inr e ↦
          rw (lookup-store_other r.address ip (recent window r.at (lookup r.address hits)) hits e)
            (agrees.same ip t (omega (arith, le, order)))
    ];
  }

  abbrev accepted : Hits
  accepted = store r.address (recent window r.at (lookup r.address hits) ++ r.at ∷ []) hits

  Agrees-accept : Agrees window r.at accepted (r ∷ log)
  unfolding count
  Agrees-accept = record {
    keys = store-HasUniqueKeys r.address _ hits agrees.keys;
    same = λ ip t le. elim (Bool-cases (str_eq r.address ip)) [
      | inl e ↦
          let here : r.address ≡ ip = (eq_iff r.address ip).0 e in
          subst
            (λ a.
              count (is_recent window t) (lookup a accepted)
              ≡ count (is_within window a t) (r ∷ log))
            here
            (rw
              (lookup-store r.address (recent window r.at (lookup r.address hits) ++ r.at ∷ [])
                hits)
              (ground (
                arith,
                count-snoc window t r.at (recent window r.at (lookup r.address hits)),
                recent_later window r.at t (lookup r.address hits) le,
                agrees.same r.address t (omega (arith, le, order)),
                str_refl r.address,
                le,
              )))
      | inr e ↦
          rw
            (lookup-store_other r.address ip
              (recent window r.at (lookup r.address hits) ++ r.at ∷ []) hits e)
            (ground (arith, e, agrees.same ip t (omega (arith, le, order))))
    ];
  }

-- The sweep is not seen.
Agrees-sweep :
    (window now : ℕ) (hits : Hits) (log : List Request)
    → Agrees window now hits log
    → Agrees window now (maybe_sweep window now hits) log
Agrees-sweep window now hits log agrees = elim (Bool-cases (ltb sweep_size (length hits))) [
  | inl e ↦ rw e (record {
    keys = sweep-HasUniqueKeys window now hits agrees.keys;
    same = λ ip t le.
        rw
          (
            lookup-sweep window now ip hits agrees.keys,
            recent_later window now t (lookup ip hits) le,
          )
          (agrees.same ip t le);
  })
  | inr e ↦ rw e agrees
]

-- One request: the answer is the description's, and the map and the log agree afterwards.
pub request-Agrees :
    (most window now : ℕ) (hits : Hits) (log : List Request) (r : Request)
    → Agrees window now hits log
    → now ≤ r.at
    → ((request most window r.at r.address hits).0 ≡ allows most window r log)
      × Agrees window r.at
          (request most window r.at r.address hits).1
          (if allows most window r log then r ∷ log else log)
unfolding request
request-Agrees most window now hits log r agrees order =
    let times = recent window r.at (lookup r.address hits) in
    let counted : length times ≡ count (is_within window r.address r.at) log =
      length-recent window r.at (lookup r.address hits) ∙ agrees.same r.address r.at order in
    elim (Bool-cases (allows most window r log)) [
      | inl e ↦
          let free : leb most (length times) ≡ false = ground (arith, counted, e) in
          rw (free, e)
            (
              refl,
              Agrees-sweep window r.at _ (r ∷ log)
                  (Agrees-accept window now hits log agrees r order),
            )
      | inr e ↦
          let full : leb most (length times) ≡ true = ground (arith, counted, e) in
          rw (full, e) (refl, Agrees-refuse window now hits log agrees r order)
    ]

serve-Agrees :
    (most window now : ℕ) (rs : List Request) (hits : Hits) (log : List Request)
    → Agrees window now hits log
    → IsOrdered now rs
    → serve most window rs hits ≡ allow most window rs log
unfolding serve allow
serve-Agrees most window now [] hits log agrees order = refl
serve-Agrees most window now (r ∷ rs) hits log agrees (le, order) =
    let (same, next) = request-Agrees most window now hits log r agrees le in
    rw same (
      ap (λ bs. allows most window r log ∷ bs)
        (serve-Agrees most window r.at rs (request most window r.at r.address hits).1 _ next order))

pub Agrees-start : (window : ℕ) → Agrees window 0 [] []
unfolding lookup count
Agrees-start window = record { keys = tt; same = λ ip t le. refl }

-- Modelling internal/middleware/ratelimit.go: for requests whose times do not go back, the handler,
-- which keeps only recent times and sweeps its map once it holds more than 4096 addresses, answers
-- as the description that remembers every request it let through and lets one through just where
-- fewer than `most` of the same address are within the window.
pub serve-allow :
    (most window : ℕ) (rs : List Request)
    → IsOrdered 0 rs
    → serve most window rs [] ≡ allow most window rs []
serve-allow most window rs order = serve-Agrees most window 0 rs [] [] (Agrees-start window) order
