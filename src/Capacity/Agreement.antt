-- ===== src/Capacity/Agreement.antt =====
-- internal/capacity/capacity.go: what ReserveMode and EstimateMode have to do with one another.
use vtafarm_api.Base.{
  ℕ, zero, suc, ◌≤◌, Bool, true, false, List, leb, ltb, ◌≡◌, arith, if◌then◌else◌,
}
use vtafarm_api.Capacity.Placement.{Mode, NodeFree, DiskFree, Headroom, Placement, place_session}
use vtafarm_api.Capacity.Estimates.{
  simulate_from, simulate, estimate_mode, reserve_from, reserve_mode, max_sessions, at_least_one,
}

module _ (mode : Mode) (replicas : ℕ) (known : Bool) where
  simulate_from-bound : (left : ℕ) (h : Headroom) → simulate_from left mode replicas known h ≤ left
  unfolding simulate_from
  simulate_from-bound zero h = omega arith
  simulate_from-bound (suc left) h =
      ground (arith, simulate_from-bound left (place_session mode replicas known h).1)

  -- As many sessions are reserved as are counted.
  reserve_from-simulate_from :
      (k left : ℕ) (h : Headroom)
      → k ≤ left
      → (reserve_from k mode replicas known h).0 ≡ leb k (simulate_from left mode replicas known h)
  unfolding reserve_from simulate_from
  reserve_from-simulate_from zero left h le = ground arith
  reserve_from-simulate_from (suc k) zero h le = ground (arith, le)
  reserve_from-simulate_from (suc k) (suc left) h le =
      ground (arith, reserve_from-simulate_from k left (place_session mode replicas known h).1)

-- A reservation with its two early returns, against a count.
reserve_tests :
    (count most estimated : ℕ) (h : Headroom) (placed : Placement)
    → estimated ≤ most
    → (count ≤ most → placed.0 ≡ leb count estimated)
    → (if leb count 0 then (true, h) else if ltb most count then (false, h) else placed).0
      ≡ leb count estimated
reserve_tests count most estimated h placed le same = ground arith

-- Modelling internal/capacity/capacity.go: ReserveMode succeeds in reserving a number of sessions,
-- on any headroom, exactly where EstimateMode, given the same headroom, counts at least as many.
pub reserve_estimated :
    (mode : Mode) (count : ℕ) (nodes : List NodeFree) (disks : List DiskFree) (replicas : ℕ)
    (known : Bool)
    → (reserve_mode mode count nodes disks replicas known).0
      ≡ leb count (estimate_mode mode nodes disks replicas known).count
unfolding reserve_mode estimate_mode simulate
reserve_estimated mode count nodes disks replicas known =
    let h : Headroom = record { nodes = nodes; disks = disks } in
    let n : ℕ = at_least_one replicas in
    reserve_tests count max_sessions (simulate_from max_sessions mode n known h) h
      (reserve_from count mode n known h) (simulate_from-bound mode n known max_sessions h)
      (λ le. reserve_from-simulate_from mode n known count max_sessions h le)
