-- ===== src/RateLimit/Examples.antt =====
-- Runs of the handler of internal/middleware/ratelimit.go.
use vtafarm_api.Base.{◌≤◌, true, false, List, [], ◌∷◌, count, select, ◌≡◌, refl, arith}
use vtafarm_api.RateLimit.Window.{
  Request, lookup, store, recent, sweep, request, serve, let_through,
}
use vtafarm_api.RateLimit.Answers.{is_within, allow, serve-allow}
use vtafarm_api.RateLimit.Bound.{let_through_at_most}

abbrev requests : List Request
requests =
    record { address = "a"; at = 1 }
    ∷ record { address = "a"; at = 2 }
    ∷ record { address = "b"; at = 3 }
    ∷ record { address = "a"; at = 4 }
    ∷ record { address = "a"; at = 11 }
    ∷ []

serve-allow_example : serve 2 10 requests [] ≡ allow 2 10 requests []
serve-allow_example =
    serve-allow 2 10 requests
      (omega arith, (omega arith, (omega arith, (omega arith, (omega arith, tt)))))

let_through_at_most_example : count (is_within 10 "a" 11) (let_through 2 10 requests []) ≤ 2
let_through_at_most_example =
    let_through_at_most 2 10 11 "a" requests
      (omega arith, (omega arith, (omega arith, (omega arith, (omega arith, tt)))))

-- The third request of an address within ten is refused, and one is let through once the first is ten old.
answers : serve 2 10 requests [] ≡ true ∷ true ∷ true ∷ false ∷ true ∷ []
unfolding serve request lookup store recent sweep select
answers = refl
