-- ===== src/RateLimit/Bound.antt =====
-- internal/middleware/ratelimit.go: no window holds more requests of an address than the limit.
use vtafarm_api.Base.{
  ℕ, ◌+◌, ◌<◌, ◌≤◌, String, true, List, [], ◌∷◌, str_eq, eq_iff, leb, All, All-imp, count,
  if◌then◌else◌, ◌≡◌, refl, arith, Bool-cases, ◌⊎◌, inl, inr,
}
use mathlib.Core.Path.{subst}
use vtafarm_api.RateLimit.Window.{Hits, request, Request, let_through}
use vtafarm_api.RateLimit.Answers.{
  is_within, allows, IsOrdered, Agrees, Agrees-start, request-Agrees,
}

le_or_lt : (m n : ℕ) → (m ≤ n) ⊎ (n < m)
le_or_lt m n = elim (Bool-cases (leb m n)) [
  | inl e ↦ inl (ground (arith, e))
  | inr e ↦ inr (ground (arith, e))
]

-- A window that ends before all requests holds none.
count-let_through :
    (most window now t : ℕ) (ip : String) (rs : List Request) (hits : Hits)
    → IsOrdered now rs
    → t < now
    → count (is_within window ip t) (let_through most window rs hits) ≡ 0
unfolding let_through count
count-let_through most window now t ip [] hits order lt = refl
count-let_through most window now t ip (r ∷ rs) hits (le, order) lt = ground (
  arith,
  count-let_through most window r.at t ip rs (request most window r.at r.address hits).1 order
      (omega (arith, le, lt)),
  le,
  lt,
)

-- A later window holds no more of what came before.
count-later :
    (window now t : ℕ) (ip : String) (log : List Request)
    → now ≤ t
    → All (λ r. r.at ≤ now) log
    → count (is_within window ip t) log ≤ count (is_within window ip now) log
unfolding count
count-later window now t ip [] le old = omega arith
count-later window now t ip (r ∷ log) le (h, old) =
    ground (arith, count-later window now t ip log le old, h, le)

-- An accepted request takes no window past the limit.
count-accept :
    (most window t : ℕ) (ip : String) (r : Request) (log : List Request)
    → allows most window r log ≡ true
    → All (λ q. q.at ≤ r.at) log
    → count (is_within window ip t) log ≤ most
    → r.at ≤ t
    → count (is_within window ip t) (r ∷ log) ≤ most
unfolding count
count-accept most window t ip r log free old bound le = elim (Bool-cases (str_eq r.address ip)) [
  | inl e ↦
      let fewer : count (is_within window ip r.at) log < most =
        subst (λ a. count (is_within window a r.at) log < most) ((eq_iff r.address ip).0 e)
          (ground (arith, free)) in
      ground (arith, count-later window r.at t ip log le old, fewer, bound)
  | inr e ↦ ground (arith, e, bound)
]

-- The requests of the log that are in one window, together with those that are let through.
let_through-bound :
    (most window now t : ℕ) (ip : String) (rs : List Request) (hits : Hits) (log : List Request)
    → Agrees window now hits log
    → All (λ r. r.at ≤ now) log
    → count (is_within window ip t) log ≤ most
    → IsOrdered now rs
    → now ≤ t
    → count (is_within window ip t) log
        + count (is_within window ip t) (let_through most window rs hits)
      ≤ most
unfolding let_through count
let_through-bound most window now t ip [] hits log agrees old bound order le = omega (arith, bound)
let_through-bound most window now t ip (r ∷ rs) hits log agrees old bound (ahead, order) le =
    let (same, next) = request-Agrees most window now hits log r agrees ahead in
    let hits' = (request most window r.at r.address hits).1 in
    let older : All (λ q. q.at ≤ r.at) log = All-imp _ _ log (λ q h. omega (arith, h, ahead)) old in
    elim (le_or_lt r.at t) [
      | inl reached ↦ elim (Bool-cases (allows most window r log)) [
        | inl free ↦
            let rest =
              let_through-bound most window r.at t ip rs hits' (r ∷ log)
                (subst (λ b. Agrees window r.at hits' (if b then r ∷ log else log)) free next)
                (omega arith, older) (count-accept most window t ip r log free older bound reached)
                order reached in
            ground (arith, rest, same, free)
        | inr full ↦
            let rest =
              let_through-bound most window r.at t ip rs hits' log
                (subst (λ b. Agrees window r.at hits' (if b then r ∷ log else log)) full next) older
                bound order reached in
            ground (arith, rest, same, full)
      ]
      | inr later ↦
          let none_yet =
            count-let_through most window r.at t ip (r ∷ rs) hits (omega arith, order) later in
          omega (arith, bound, none_yet)
    ]

-- Modelling internal/middleware/ratelimit.go: for requests whose times do not go back, starting from
-- the empty map, any limit, any window length and any moment at which a window ends, the window
-- holds at most `most` requests of one address that were let through.
pub let_through_at_most :
    (most window t : ℕ) (ip : String) (rs : List Request)
    → IsOrdered 0 rs
    → count (is_within window ip t) (let_through most window rs []) ≤ most
unfolding count
let_through_at_most most window t ip rs order =
    let all =
      let_through-bound most window 0 t ip rs [] [] (Agrees-start window) tt (omega arith) order
        (omega arith) in
    omega (arith, all)
