-- ===== src/Capacity/Estimates.antt =====
-- internal/capacity/capacity.go: PlanningHeadroom, simulate, EstimateMode, ReserveMode,
-- perResourceCounts, resourceOnly and limitingResource.
use vtafarm_api.Base.{
  ℕ, zero, suc, ◌-◌, Bool, true, false, List, [], map, Option, none, some, ltb, leb, if◌then◌else◌,
  max,
}
use vtafarm_api.Capacity.Placement.{
  Component, Mode, NodeFree, DiskFree, Headroom, Placement, place_session,
}

-- PlanningHeadroom
unfoldable pub planning_headroom : ℕ → ℕ → ℕ → ℕ
planning_headroom allocatable requested used =
    if leb allocatable 0 then 0 else allocatable - max requested used

pub data Resource : Type 0 where
  cpu memory storage : Resource

-- ByStorage is -1, here `none`, where the storage is not known.
pub record Estimate : Type 0 where
  pub count : ℕ
  pub by_cpu : ℕ
  pub by_memory : ℕ
  pub by_storage : Option ℕ
  pub limiting_resource : Resource

abbrev pub max_sessions : ℕ
max_sessions = 100_000

-- The loop of simulate, with the sessions that may still be placed.
unfoldable pub simulate_from : ℕ → Mode → ℕ → Bool → Headroom → ℕ
unfolding place_session
simulate_from zero mode replicas storage_known h = 0
simulate_from (suc left) mode replicas storage_known h =
    let (fits, h') = place_session mode replicas storage_known h in
    elim fits [ true ↦ suc (simulate_from left mode replicas storage_known h') | false ↦ 0 ]

-- simulate
unfoldable pub simulate : Mode → List NodeFree → List DiskFree → ℕ → Bool → ℕ
unfolding simulate_from
simulate mode nodes disks replicas storage_known =
    simulate_from max_sessions mode replicas storage_known (record { nodes = nodes; disks = disks })

-- resourceOnly, and its three arguments
unfoldable pub resource_only : Mode → (Component → Component) → Mode
resource_only mode keep = record mode { components = map keep mode.components }

abbrev pub cpu_only : Component → Component
cpu_only c = record c { mem_bytes = 0; storage_bytes = 0 }

abbrev pub mem_only : Component → Component
mem_only c = record c { cpu_millis = 0; storage_bytes = 0 }

abbrev pub storage_only : Component → Component
storage_only c = record c { cpu_millis = 0; mem_bytes = 0 }

-- limitingResource
unfoldable pub limiting_resource : ℕ → ℕ → Option ℕ → Resource
limiting_resource by_cpu by_memory by_storage =
    let name : Resource = if ltb by_memory by_cpu then memory else cpu in
    let least : ℕ = if ltb by_memory by_cpu then by_memory else by_cpu in
    elim by_storage [ none ↦ name | some n ↦ if ltb n least then storage else name ]

abbrev pub at_least_one : ℕ → ℕ
at_least_one replicas = if ltb replicas 1 then 1 else replicas

-- EstimateMode, with perResourceCounts
unfoldable pub estimate_mode : Mode → List NodeFree → List DiskFree → ℕ → Bool → Estimate
unfolding simulate resource_only limiting_resource
estimate_mode mode nodes disks replicas storage_known =
    let n : ℕ = at_least_one replicas in
    let by_cpu : ℕ = simulate (resource_only mode cpu_only) nodes [] n false in
    let by_memory : ℕ = simulate (resource_only mode mem_only) nodes [] n false in
    let by_storage : Option ℕ =
      if storage_known
      then some (simulate (resource_only mode storage_only) nodes disks n true)
      else none in
    record {
      count = simulate mode nodes disks n storage_known;
      by_cpu = by_cpu;
      by_memory = by_memory;
      by_storage = by_storage;
      limiting_resource = limiting_resource by_cpu by_memory by_storage;
    }

-- The loop of ReserveMode.
unfoldable pub reserve_from : ℕ → Mode → ℕ → Bool → Headroom → Placement
unfolding place_session
reserve_from zero mode replicas storage_known h = (true, h)
reserve_from (suc k) mode replicas storage_known h =
    let (fits, h') = place_session mode replicas storage_known h in
    elim fits [ true ↦ reserve_from k mode replicas storage_known h' | false ↦ (false, h') ]

-- ReserveMode
unfoldable pub reserve_mode : Mode → ℕ → List NodeFree → List DiskFree → ℕ → Bool → Placement
unfolding reserve_from
reserve_mode mode count nodes disks replicas storage_known =
    let h : Headroom = record { nodes = nodes; disks = disks } in
    if leb count 0
    then (true, h)
    else if ltb max_sessions count
    then (false, h)
    else reserve_from count mode (at_least_one replicas) storage_known h
