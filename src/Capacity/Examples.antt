-- ===== src/Capacity/Examples.antt =====
-- Runs of the placement of internal/capacity/capacity.go.
use vtafarm_api.Base.{ℕ, ◌+◌, ◌*◌, ◌≤◌, true, false, List, [], ◌∷◌, leb, ◌≡◌, refl}
use vtafarm_api.Capacity.Placement.{
  Component, Mode, NodeFree, DiskFree, place_pod, place_volume, choose_disks, best_disk,
  better_disk, contains, take_disks, best_node, better_node, place_storage, place_component,
  place_components, place_session,
}
use vtafarm_api.Capacity.Estimates.{
  Estimate, simulate, simulate_from, resource_only, limiting_resource, estimate_mode, reserve_mode,
}
use vtafarm_api.Capacity.Totals.{total}
use vtafarm_api.Capacity.Agreement.{reserve_estimated}
use vtafarm_api.Capacity.WorstFit.{WorstFits, place_pod_fits}
use vtafarm_api.Capacity.Budget.{node_memory, pod_memory, estimate_within_memory}
use vtafarm_api.Capacity.Replicas.{Choice, place_volume_distinct}

abbrev pod : Component
pod = record { name = "vta"; cpu_millis = 500; mem_bytes = 200; storage_bytes = 100 }

abbrev mode : Mode
mode = record { name = "vta_only"; components = pod ∷ [] }

abbrev node : ℕ → ℕ → NodeFree
node cpu mem = record { cpu_millis = cpu; mem_bytes = mem }

abbrev nodes : List NodeFree
nodes = node 1000 500 ∷ node 2000 900 ∷ node 100 5000 ∷ []

abbrev disks : List DiskFree
disks = 150 ∷ 300 ∷ 100 ∷ 50 ∷ []

reserve_estimated_example :
    (reserve_mode mode 2 nodes disks 2 true).0 ≡ leb 2 (estimate_mode mode nodes disks 2 true).count
reserve_estimated_example = reserve_estimated mode 2 nodes disks 2 true

place_pod_fits_example : WorstFits pod nodes (place_pod nodes pod)
place_pod_fits_example = place_pod_fits pod nodes

estimate_within_memory_example :
    (estimate_mode mode nodes disks 2 true).count * total pod_memory mode.components
    ≤ total node_memory nodes
estimate_within_memory_example = estimate_within_memory mode nodes disks 2 true

place_volume_distinct_example :
    ((chosen : List ℕ) × Choice disks 100 2 chosen
      × ((50 ∷ 200 ∷ 100 ∷ 50 ∷ []) ≡ take_disks disks 100 chosen))
    × (total (λ d. d) disks ≡ total (λ d. d) (50 ∷ 200 ∷ 100 ∷ 50 ∷ []) + 2 * 100)
unfolding place_volume choose_disks best_disk better_disk contains take_disks total
place_volume_distinct_example = place_volume_distinct disks (50 ∷ 200 ∷ 100 ∷ 50 ∷ []) 100 2 refl

-- With the processors on one node and the memory on another no session fits, and yet each resource
-- by itself has room for two.
abbrev fragmented : Estimate
fragmented = estimate_mode mode (node 1000 0 ∷ node 0 400 ∷ []) [] 1 false

no_session_fits : (fragmented.count ≡ 0) × (fragmented.by_cpu ≡ 2) × (fragmented.by_memory ≡ 2)
unfolding estimate_mode simulate simulate_from resource_only limiting_resource place_session
    place_components place_component place_storage place_pod best_node better_node
no_session_fits = (refl, refl, refl)
