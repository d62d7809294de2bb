-- ===== src/Capacity/Placement.antt =====
-- internal/capacity/capacity.go: placePod, placeVolume and placeSession. Amounts are numbers: a
-- headroom is never negative (PlanningHeadroom), and a placement takes only what is there, so no
-- int64 subtraction goes below zero. The slices that the Go code changes in place are returned.
use vtafarm_api.Base.{
  ℕ, zero, suc, ◌-◌, String, Bool, true, false, not, ◌&&◌, ◌||◌, List, [], ◌∷◌, ◌++◌, Option, none,
  some, ltb, leb, ◌==◌, if◌then◌else◌, get_elem?, set,
}

pub record Component : Type 0 where
  pub name : String
  pub cpu_millis : ℕ
  pub mem_bytes : ℕ
  pub storage_bytes : ℕ

pub record Mode : Type 0 where
  pub name : String
  pub components : List Component

pub record NodeFree : Type 0 where
  pub cpu_millis : ℕ
  pub mem_bytes : ℕ

-- A DiskFree has one field, its bytes.
abbrev pub DiskFree : Type 0
DiskFree = ℕ

-- The node has room for the pod.
abbrev pub has_room : Component → NodeFree → Bool
has_room comp n = leb comp.cpu_millis n.cpu_millis && leb comp.mem_bytes n.mem_bytes

-- The body of the loop over the nodes: `best` is the index and the node of the best so far.
unfoldable pub better_node :
    Component → ℕ → NodeFree → Option (ℕ × NodeFree) → Option (ℕ × NodeFree)
better_node comp i n none = if has_room comp n then some (i, n) else none
better_node comp i n (some (j, m)) =
    if has_room comp n && ltb m.mem_bytes n.mem_bytes then some (i, n) else some (j, m)

unfoldable pub best_node :
    Component → ℕ → Option (ℕ × NodeFree) → List NodeFree → Option (ℕ × NodeFree)
unfolding better_node
best_node comp i best [] = best
best_node comp i best (n ∷ ns) = best_node comp (suc i) (better_node comp i n best) ns

abbrev pub take_from : Component → NodeFree → NodeFree
take_from comp n = record n {
  cpu_millis = n.cpu_millis - comp.cpu_millis;
  mem_bytes = n.mem_bytes - comp.mem_bytes;
}

-- placePod; `none` for false, where no node is changed.
unfoldable pub place_pod : List NodeFree → Component → Option (List NodeFree)
unfolding best_node
place_pod nodes comp = elim (best_node comp 0 none nodes) [
  | none ↦ none
  | some (i, n) ↦ some (set nodes i (take_from comp n))
]

unfoldable pub contains : List ℕ → ℕ → Bool
contains [] i = false
contains (j ∷ js) i = i == j || contains js i

-- The body of the inner loop of placeVolume.
unfoldable pub better_disk :
    ℕ → List ℕ → ℕ → DiskFree → Option (ℕ × DiskFree) → Option (ℕ × DiskFree)
better_disk bytes chosen i d none =
    if leb bytes d && not (contains chosen i) then some (i, d) else none
better_disk bytes chosen i d (some (j, b)) =
    if leb bytes d && not (contains chosen i) && ltb b d then some (i, d) else some (j, b)

unfoldable pub best_disk :
    ℕ → List ℕ → ℕ → Option (ℕ × DiskFree) → List DiskFree → Option (ℕ × DiskFree)
unfolding better_disk contains
best_disk bytes chosen i best [] = best
best_disk bytes chosen i best (d ∷ ds) =
    best_disk bytes chosen (suc i) (better_disk bytes chosen i d best) ds

-- The outer loop, which chooses one disk for each replica.
unfoldable pub choose_disks : ℕ → List DiskFree → ℕ → List ℕ → Option (List ℕ)
unfolding best_disk
choose_disks bytes disks zero chosen = some chosen
choose_disks bytes disks (suc k) chosen = elim (best_disk bytes chosen 0 none disks) [
  | none ↦ none
  | some (i, d) ↦ choose_disks bytes disks k (chosen ++ i ∷ [])
]

abbrev pub take_disk : List DiskFree → ℕ → ℕ → List DiskFree
take_disk disks bytes i = elim (get_elem? disks i) [
  | none ↦ disks
  | some d ↦ set disks i (d - bytes)
]

unfoldable pub take_disks : List DiskFree → ℕ → List ℕ → List DiskFree
take_disks disks bytes [] = disks
take_disks disks bytes (i ∷ is) = take_disks (take_disk disks bytes i) bytes is

-- placeVolume; `none` for false, where no disk is changed.
unfoldable pub place_volume : List DiskFree → ℕ → ℕ → Option (List DiskFree)
unfolding choose_disks take_disks
place_volume disks bytes replicas = elim (choose_disks bytes disks replicas []) [
  | none ↦ none
  | some chosen ↦ some (take_disks disks bytes chosen)
]

-- The headroom slices.
pub record Headroom : Type 0 where
  pub nodes : List NodeFree
  pub disks : List DiskFree

-- Whether all components fit, and the headroom that is left: a partial placement is not undone.
abbrev pub Placement : Type 0
Placement = Bool × Headroom

-- The volume of a component, if it has one and storage is known.
unfoldable pub place_storage : Component → ℕ → Bool → Headroom → Placement
unfolding place_volume
place_storage comp replicas storage_known h =
    if storage_known && ltb 0 comp.storage_bytes
    then elim (place_volume h.disks comp.storage_bytes replicas) [
      | none ↦ (false, h)
      | some disks ↦ (true, record h { disks = disks })
    ]
    else (true, h)

unfoldable pub place_component : Component → ℕ → Bool → Headroom → Placement
unfolding place_pod place_storage
place_component comp replicas storage_known h = elim (place_pod h.nodes comp) [
  | none ↦ (false, h)
  | some nodes ↦ place_storage comp replicas storage_known (record h { nodes = nodes })
]

-- The loop of placeSession over the components.
unfoldable pub place_components : List Component → ℕ → Bool → Headroom → Placement
unfolding place_component
place_components [] replicas storage_known h = (true, h)
place_components (comp ∷ comps) replicas storage_known h =
    let (fits, h') = place_component comp replicas storage_known h in
    elim fits [ true ↦ place_components comps replicas storage_known h' | false ↦ (false, h') ]

-- placeSession
unfoldable pub place_session : Mode → ℕ → Bool → Headroom → Placement
unfolding place_components
place_session mode replicas storage_known h =
    place_components mode.components replicas storage_known h
