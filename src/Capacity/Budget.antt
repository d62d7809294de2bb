-- ===== src/Capacity/Budget.antt =====
-- internal/capacity/capacity.go: no session is counted whose request is not there. The memory that
-- the counted sessions take together is at most the memory of the nodes.
use vtafarm_api.Base.{
  ℕ, zero, suc, ◌+◌, ◌*◌, ◌≤◌, Bool, true, false, List, [], ◌∷◌, some, ◌≡◌, refl, arith, Bool-cases,
  Option-cases, inl, inr,
}
use mathlib.Core.Path.{subst}
use vtafarm_api.Capacity.Totals.{total, total-set}
use vtafarm_api.Capacity.Placement.{
  Component, Mode, NodeFree, DiskFree, Headroom, take_from, place_pod, place_storage,
  place_component, place_components, place_session,
}
use vtafarm_api.Capacity.Estimates.{
  simulate_from, simulate, estimate_mode, max_sessions, at_least_one,
}
use vtafarm_api.Capacity.WorstFit.{WorstFits, place_pod_fits}

abbrev pub node_memory : NodeFree → ℕ
node_memory n = n.mem_bytes

abbrev pub pod_memory : Component → ℕ
pod_memory c = c.mem_bytes

place_pod-memory :
    (comp : Component) (nodes left : List NodeFree)
    → place_pod nodes comp ≡ some left
    → total node_memory nodes ≡ total node_memory left + comp.mem_bytes
place_pod-memory comp nodes left e =
    let (i, n, (at, fits, most), same) =
      subst (WorstFits comp nodes) e (place_pod_fits comp nodes) in
    rw same
      (total-set node_memory nodes i n (take_from comp n) comp.mem_bytes at (ground (arith, fits)))

place_storage-nodes :
    (comp : Component) (replicas : ℕ) (known : Bool) (h : Headroom)
    → (place_storage comp replicas known h).1.nodes ≡ h.nodes
unfolding place_storage
place_storage-nodes comp replicas known h = ground arith

module _ (replicas : ℕ) (known : Bool) where
  place_component-memory :
      (comp : Component) (h : Headroom)
      → (place_component comp replicas known h).0 ≡ true
      → total node_memory h.nodes
        ≡ total node_memory (place_component comp replicas known h).1.nodes + comp.mem_bytes
  unfolding place_component
  place_component-memory comp h t = elim (Option-cases (place_pod h.nodes comp)) [
    | inl e ↦ ground (arith, e, t)
    | inr (left, e) ↦ ground (
      arith,
      e,
      place_storage-nodes comp replicas known (record h { nodes = left }),
      place_pod-memory comp h.nodes left e,
    )
  ]

  place_components-memory :
      (comps : List Component) (h : Headroom)
      → (place_components comps replicas known h).0 ≡ true
      → total node_memory h.nodes
        ≡ total node_memory (place_components comps replicas known h).1.nodes
          + total pod_memory comps
  unfolding place_components total
  place_components-memory [] h t = omega arith
  place_components-memory (c ∷ cs) h t =
      let next = (place_component c replicas known h).1 in
      elim (Bool-cases (place_component c replicas known h).0) [
        | inl e ↦
            ground (arith, place_component-memory c h e, place_components-memory cs next, e, t)
        | inr e ↦ ground (arith, e, t)
      ]

  simulate_from-suc :
      (mode : Mode) (left : ℕ) (h : Headroom)
      → (place_session mode replicas known h).0 ≡ true
      → simulate_from (suc left) mode replicas known h
        ≡ suc (simulate_from left mode replicas known (place_session mode replicas known h).1)
  unfolding simulate_from
  simulate_from-suc mode left h e = ground arith

  simulate_from_stop :
      (mode : Mode) (left : ℕ) (h : Headroom)
      → (place_session mode replicas known h).0 ≡ false
      → simulate_from (suc left) mode replicas known h ≡ 0
  unfolding simulate_from
  simulate_from_stop mode left h e = ground arith

  simulate_from_zero : (mode : Mode) (h : Headroom) → simulate_from 0 mode replicas known h ≡ 0
  unfolding simulate_from
  simulate_from_zero mode h = refl

  simulate_from-memory :
      (mode : Mode) (left : ℕ) (h : Headroom)
      → simulate_from left mode replicas known h * total pod_memory mode.components
        ≤ total node_memory h.nodes
  unfolding place_session
  simulate_from-memory mode zero h = rw (simulate_from_zero mode h) (omega arith)
  simulate_from-memory mode (suc left) h =
      let next = (place_session mode replicas known h).1 in
      elim (Bool-cases (place_session mode replicas known h).0) [
        | inl e ↦ rw (simulate_from-suc mode left h e) (
            omega (
              arith,
              place_components-memory mode.components h e,
              simulate_from-memory mode left next,
            ))
        | inr e ↦ rw (simulate_from_stop mode left h e) (omega arith)
      ]

-- Modelling internal/capacity/capacity.go: for any mode, headroom and replicas, the sessions that
-- EstimateMode counts need together no more memory than the nodes have together.
pub estimate_within_memory :
    (mode : Mode) (nodes : List NodeFree) (disks : List DiskFree) (replicas : ℕ) (known : Bool)
    → (estimate_mode mode nodes disks replicas known).count * total pod_memory mode.components
      ≤ total node_memory nodes
unfolding estimate_mode simulate
estimate_within_memory mode nodes disks replicas known =
    simulate_from-memory (at_least_one replicas) known mode max_sessions
      (record { nodes = nodes; disks = disks })
