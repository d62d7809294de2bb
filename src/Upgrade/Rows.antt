-- ===== src/Upgrade/Rows.antt =====
-- internal/model/upgrade.go: the rows of an upgrade batch, and the columns of a setup session that
-- an upgrade reads or writes. The requests to Kubernetes are kept in the order they are made.
use vtafarm_api.Base.{
  ℕ, String, Bool, true, false, List, Option, none, some, str_eq, if◌then◌else◌, ◌==◌, find, ◌&&◌,
}
use vtafarm_api.Store.{Mode, DomainType}

pub data BatchStatus : Type 0 where
  running paused completed cancelled : BatchStatus

pub data TaskStatus : Type 0 where
  pending running succeeded failed skipped rolling_back rolled_back rollback_failed : TaskStatus

pub record UpgradeBatch : Type 0 where
  pub id : ℕ
  pub concurrency : ℕ
  pub status : BatchStatus

pub record UpgradeTask : Type 0 where
  pub id : ℕ
  pub batch_id : ℕ
  pub session_id : ℕ
  pub component : String
  pub from_image : String
  pub to_image : String
  pub status : TaskStatus
  pub error_msg : String

pub data Component : Type 0 where
  vta mediator dids trust_registry vtc : Component

-- The switch over the names of the components; `none` is its default.
unfoldable pub component_named : String → Option Component
component_named name =
    if str_eq name "vta"
    then some vta
    else if str_eq name "mediator"
    then some mediator
    else if str_eq name "dids"
    then some dids
    else if str_eq name "trust-registry"
    then some trust_registry
    else if str_eq name "vtc"
    then some vtc
    else none

pub record Session : Type 0 where
  pub id : ℕ
  pub user_id : ℕ
  pub mode : Mode
  pub domain_type : DomainType
  pub trust_registry_state : String
  pub vta_image : String
  pub mediator_image : String
  pub dids_image : String
  pub trust_registry_image : String
  pub vtc_image : String

-- The update of the column UpgradeImageColumn(component).
abbrev pub set_image : Component → String → Session → Session
set_image vta image s = record s { vta_image = image }
set_image mediator image s = record s { mediator_image = image }
set_image dids image s = record s { dids_image = image }
set_image trust_registry image s = record s { trust_registry_image = image }
set_image vtc image s = record s { vtc_image = image }

-- The column itself.
abbrev pub image_of : Component → Session → String
image_of vta s = s.vta_image
image_of mediator s = s.mediator_image
image_of dids s = s.dids_image
image_of trust_registry s = s.trust_registry_image
image_of vtc s = s.vtc_image

-- ComponentImage
unfoldable pub component_image : Session → String → String
unfolding component_named
component_image s name = elim (component_named name) [
  | none ↦ ""
  | some c ↦ elim c [
    | trust_registry ↦ if str_eq s.trust_registry_state "active" then s.trust_registry_image else ""
    | c' ↦ image_of c' s
  ]
]

-- The names vta-<id> and fs-<id>-<component>.
pub data Deployment : Type 0 where
  vta_name : ℕ → Deployment
  fs_name : ℕ → Component → Deployment

-- A call of SetDeploymentImage, in the namespace of a user.
pub record Patch : Type 0 where
  pub user_id : ℕ
  pub deployment : Deployment
  pub image : String

pub record State : Type 0 where
  pub batches : List UpgradeBatch
  pub tasks : List UpgradeTask
  pub sessions : List Session
  pub default_vta_image : String
  pub patches : List Patch

abbrev pub is_running : BatchStatus → Bool
is_running running = true
is_running paused = false
is_running completed = false
is_running cancelled = false

abbrev pub is_task : ℕ → UpgradeTask → Bool
is_task id t = t.id == id

abbrev pub is_batch : ℕ → UpgradeBatch → Bool
is_batch id b = b.id == id

abbrev pub is_running_batch : ℕ → UpgradeBatch → Bool
is_running_batch id b = b.id == id && is_running b.status

abbrev pub find_session : ℕ → State → Option Session
find_session id st = find (λ s. s.id == id) st.sessions
