-- ===== src/Capacity.antt =====
-- internal/capacity/capacity.go: how many more sessions the cluster can hold, by placing them one
-- after another on the nodes and disks that have room.
pub mod Placement
pub mod Estimates
pub mod Agreement
pub mod Totals
pub mod WorstFit
pub mod Budget
pub mod Replicas
mod Examples
