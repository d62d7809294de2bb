-- ===== src/Store/Rows.antt =====
-- The rows: internal/model/setup_session.go, mobile_connection.go, wallet_login.go, pool.go,
-- trust_task_execution.go, user.go.
use vtafarm_api.Base.{ℕ, String, Bool, true, false, List, Option}

-- The statuses of a setup session that the modelled code names; `other` is any further stage.
pub data SessionStatus : Type 0 where
  pool_creating pool_publishing pool_prepared pool_waiting : SessionStatus
  vta_setup_running vta_setup_complete awaiting_admin_did : SessionStatus
  provisioning step_import_admin_did deploy_vta : SessionStatus
  step_vtc_setup_key step_vtc_acl_grant step_vtc_setup deploy_vtc : SessionStatus
  running failed deleting : SessionStatus
  other : String → SessionStatus

pub data Mode : Type 0 where
  vta_only full_stack : Mode

pub data DomainType : Type 0 where
  managed custom platform : DomainType

pub record SetupSession : Type 0 where
  pub id : ℕ
  pub user_id : ℕ
  pub status : SessionStatus
  pub failed_stage : String
  pub error_msg : String
  pub mode : Mode
  pub vta_name : String
  pub vta_image : String
  pub vta_did : String
  pub admin_did : String
  pub updated_at : ℕ

abbrev pub is_full_stack : SetupSession → Bool
is_full_stack s = elim s.mode [ full_stack ↦ true | vta_only ↦ false ]

pub data Operation : Type 0 where
  provision_vta grant_acl : Operation

-- The statuses of a claim since migration 41. Migration 44 settled the older ones.
pub data ClaimStatus : Type 0 where
  open_ claimed confirmed provisioning : ClaimStatus
  released rejected lapsed cancelled expired failed : ClaimStatus

pub record MobileConnection : Type 0 where
  pub id : ℕ
  pub session_id : ℕ
  pub vta_did : String
  pub operation : Operation
  pub admin_did : String
  pub status : ClaimStatus
  pub claim_handle : Option String
  pub claimant_digest : Option String
  pub created_at : ℕ
  pub expires_at : ℕ
  pub confirm_by : Option ℕ
  pub claimed_at : Option ℕ
  pub confirmed_at : Option ℕ
  pub released_at : Option ℕ
  pub redeem_poll : Option (String × ℕ)
  pub provision_error : String
  pub public_access_digest : Option String

pub record WalletLoginBinding : Type 0 where
  pub user_id : ℕ
  pub login_did : String
  pub source_session_id : ℕ
  pub source_claim_id : ℕ
  pub created_at : ℕ
  pub revoked_at : Option ℕ

pub record TrustTaskExecution : Type 0 where
  pub document_id : String
  pub document_digest : String
  pub completed : Bool
  pub response_bytes : Option String
  pub retain_until : ℕ
  pub lease_expires_at : ℕ
  pub created_at : ℕ
  pub updated_at : ℕ

pub data Purpose : Type 0 where
  admin_station public_signup : Purpose

pub record PoolBatch : Type 0 where
  pub id : ℕ
  pub created_by : ℕ
  pub label : String
  pub purpose : Purpose
  pub requested_count : ℕ
  pub vta_image : String
  pub idempotency_key : String
  pub request_digest : String
  pub public_signup_enabled_at : Option ℕ
  pub cleanup_requested_at : Option ℕ

pub record PoolSession : Type 0 where
  pub session_id : ℕ
  pub batch_id : ℕ

pub record PoolBatchAddition : Type 0 where
  pub batch_id : ℕ
  pub created_by : ℕ
  pub requested_count : ℕ
  pub idempotency_key : String
  pub request_digest : String

pub record User : Type 0 where
  pub id : ℕ
  pub unique_id : String
  pub email : Option String
  pub fullstack_access : Bool
  pub passkeys : ℕ

pub record WorkloadResource : Type 0 where
  pub setup_session_id : ℕ
  pub memory_request : String
  pub memory_limit : String

pub record Db : Type 0 where
  pub sessions : List SetupSession
  pub connections : List MobileConnection
  pub bindings : List WalletLoginBinding
  pub executions : List TrustTaskExecution
  pub batches : List PoolBatch
  pub members : List PoolSession
  pub additions : List PoolBatchAddition
  pub users : List User
  pub resources : List WorkloadResource
