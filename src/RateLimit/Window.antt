-- ===== src/RateLimit/Window.antt =====
-- internal/middleware/ratelimit.go: the handler that RateLimit returns. The map of hits is an
-- association list with one entry for each address, and the mutex makes each call one step. Times
-- come from one clock, so now.Sub(t) is `now - t` for the times that are stored.
use vtafarm_api.Base.{
  ℕ, ◌-◌, String, Bool, true, false, List, [], ◌∷◌, ◌++◌, str_eq, ltb, leb, select, if◌then◌else◌,
  length,
}

pub record Entry : Type 0 where
  pub key : String
  pub times : List ℕ

abbrev pub Hits : Type 0
Hits = List Entry

-- hits[ip], which is empty for a missing key
unfoldable pub lookup : String → Hits → List ℕ
lookup ip [] = []
lookup ip (e ∷ es) = if str_eq e.key ip then e.times else lookup ip es

-- hits[ip] = times
unfoldable pub store : String → List ℕ → Hits → Hits
store ip times [] = record { key = ip; times = times } ∷ []
store ip times (e ∷ es) =
    let rest = store ip times es in
    if str_eq e.key ip then record { key = ip; times = times } ∷ es else e ∷ rest

abbrev pub is_recent : ℕ → ℕ → ℕ → Bool
is_recent window now t = ltb (now - t) window

unfoldable pub recent : ℕ → ℕ → List ℕ → List ℕ
recent window now times = select (is_recent window now) times

-- The sweep drops the times that have passed, and the entries that are then empty.
unfoldable pub sweep : ℕ → ℕ → Hits → Hits
unfolding recent
sweep window now [] = []
sweep window now (e ∷ es) =
    let rest = sweep window now es in
    let live = recent window now e.times in
    if leb (length live) 0 then rest else record { key = e.key; times = live } ∷ rest

abbrev pub sweep_size : ℕ
sweep_size = 4096

abbrev pub maybe_sweep : ℕ → ℕ → Hits → Hits
maybe_sweep window now hits = if ltb sweep_size (length hits) then sweep window now hits else hits

-- One request: whether it is let through, and the map afterwards.
unfoldable pub request : ℕ → ℕ → ℕ → String → Hits → Bool × Hits
unfolding lookup store sweep recent
request most window now ip hits =
    let times = recent window now (lookup ip hits) in
    if leb most (length times)
    then (false, store ip times hits)
    else (true, maybe_sweep window now (store ip (times ++ now ∷ []) hits))

pub record Request : Type 0 where
  pub address : String
  pub at : ℕ

-- The answers to requests that come one after another.
unfoldable pub serve : ℕ → ℕ → List Request → Hits → List Bool
unfolding request
serve most window [] hits = []
serve most window (r ∷ rs) hits =
    let (through, hits') = request most window r.at r.address hits in
    through ∷ serve most window rs hits'

-- The requests that are let through.
unfoldable pub let_through : ℕ → ℕ → List Request → Hits → List Request
unfolding request
let_through most window [] hits = []
let_through most window (r ∷ rs) hits =
    let (through, hits') = request most window r.at r.address hits in
    let rest = let_through most window rs hits' in if through then r ∷ rest else rest
