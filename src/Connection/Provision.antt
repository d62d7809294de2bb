-- ===== src/Connection/Provision.antt =====
-- internal/connection/store.go: beginProvision, StartProvisioning, MarkReleased, MarkFailed and
-- Reconcile, which take a confirmed reservation to its end.
use vtafarm_api.Base.{
  ℕ, String, Bool, not, ◌&&◌, ◌||◌, List, [], ◌∷◌, ◌++◌, none, some, str_eq, ltb, ◌==◌,
  if◌then◌else◌, find, is_none, is_some, any,
}
use vtafarm_api.Store.{
  SetupSession, is_full_stack, SessionStatus, Operation, provision_vta, grant_acl, ClaimStatus,
  MobileConnection, WalletLoginBinding, Tx, ◌>>=◌, ◌>>◌, check, return, throw, transaction,
  conflict, write,
}
use vtafarm_api.Connection.Rules.{
  is_open, is_claimed, is_confirmed, is_provisioning, is_released, is_provision_vta,
  is_pool_waiting, is_running, lock_session, load_connection, update_connection, update_connections,
  update_session, lapse, withdraw, same_text,
}
use vtafarm_api.Connection.Claim.{is_before}

abbrev pub provision_status : SetupSession → SessionStatus
provision_status s =
    if is_full_stack s then SessionStatus.step_import_admin_did else SessionStatus.provisioning

abbrev pub admit_admin : String → SessionStatus → ℕ → SetupSession → SetupSession
admit_admin did status now s = record s { admin_did = did; status = status; updated_at = now }

-- beginProvision
unfoldable pub begin_provision : SetupSession → String → ℕ → Tx (Unit {0})
begin_provision s did now = update_session s.id (admit_admin did (provision_status s) now)

-- The `switch` on the operation.
unfoldable pub start_operation : ℕ → SetupSession → MobileConnection → Operation → Tx (Unit {0})
unfolding begin_provision
start_operation now s r provision_vta =
    if is_pool_waiting s.status && is_none r.confirmed_at
    then throw conflict
    else begin_provision s r.admin_did now
start_operation now s r grant_acl =
    if is_running s.status && str_eq s.vta_did r.vta_did then return tt else throw conflict

abbrev pub set_status : ClaimStatus → MobileConnection → MobileConnection
set_status st c = record c { status = st }

-- From a confirmed row on; any other is refused.
unfoldable pub start_confirmed : ℕ → SetupSession → MobileConnection → Tx MobileConnection
unfolding start_operation
start_confirmed now s r = do
  check (is_confirmed r.status) conflict
  start_operation now s r r.operation
  update_connection r.id (set_status ClaimStatus.provisioning)
  return (set_status ClaimStatus.provisioning r)

unfoldable pub start_provisioning_body : ℕ → ℕ → Tx MobileConnection
unfolding lock_session start_confirmed find
start_provisioning_body now id = do
  candidate ← load_connection id
  s ← lock_session candidate.session_id
  r ← load_connection id
  if is_provisioning r.status || is_released r.status then return r else start_confirmed now s r

-- StartProvisioning
unfoldable pub start_provisioning : ℕ → ℕ → Tx MobileConnection
unfolding start_provisioning_body
start_provisioning now id = transaction (start_provisioning_body now id)

-- The unique constraints of wallet_login_bindings.
abbrev pub same_binding : WalletLoginBinding → WalletLoginBinding → Bool
same_binding a b =
    a.user_id == b.user_id && str_eq a.login_did b.login_did
    || a.source_claim_id == b.source_claim_id

-- INSERT … ON CONFLICT DO NOTHING
unfoldable pub add_binding : WalletLoginBinding → List WalletLoginBinding → List WalletLoginBinding
add_binding b bs = if any (same_binding b) bs then bs else bs ++ (b ∷ [])

-- The administrator DID of the row is the one that the wallet claimed with.
unfoldable pub proves_claimant : (String → String) → MobileConnection → Bool
proves_claimant digest r =
    not (str_eq r.admin_did "") && same_text (some (digest r.admin_did)) r.claimant_digest

abbrev pub release_at : ℕ → MobileConnection → MobileConnection
release_at now c = record c { status = ClaimStatus.released; released_at = some now }

abbrev pub binding_of : ℕ → SetupSession → MobileConnection → WalletLoginBinding
binding_of now s r = record {
  user_id = s.user_id;
  login_did = r.admin_did;
  source_session_id = s.id;
  source_claim_id = r.id;
  created_at = now;
  revoked_at = none;
}

-- The claimant's DID becomes a login of the session's user.
unfoldable pub bind_login : (String → String) → ℕ → MobileConnection → Tx (Unit {0})
unfolding lock_session add_binding
bind_login digest now r = do
  s ← lock_session r.session_id
  write λ db. record db { bindings = add_binding (binding_of now s r) db.bindings }

unfoldable pub release_provisioning : (String → String) → ℕ → MobileConnection → Tx (Unit {0})
unfolding bind_login proves_claimant
release_provisioning digest now r = do
  check (is_provisioning r.status) conflict
  update_connection r.id (release_at now)
  if proves_claimant digest r then bind_login digest now r else return tt

unfoldable pub mark_released_body : (String → String) → ℕ → ℕ → Tx (Unit {0})
unfolding release_provisioning find
mark_released_body digest now id = do
  r ← load_connection id
  if is_released r.status then return tt else release_provisioning digest now r

-- MarkReleased
unfoldable pub mark_released : (String → String) → ℕ → ℕ → Tx (Unit {0})
unfolding mark_released_body
mark_released digest now id = transaction (mark_released_body digest now id)

-- MarkFailed
unfoldable pub mark_failed : ℕ → String → Tx (Unit {0})
mark_failed id reason =
    update_connections
      (λ c.
        c.id == id
        && not (is_provision_vta c.operation)
        && (is_confirmed c.status || is_provisioning c.status))
      (λ c. record c { status = ClaimStatus.failed; provision_error = reason })

-- The two statements of Reconcile that expire a row.
unfoldable pub expire_open : ℕ → MobileConnection → Tx (Unit {0})
expire_open now r =
    if is_open r.status && not (ltb now r.expires_at)
    then update_connections (λ c. c.id == r.id && is_open c.status) lapse
    else return tt

unfoldable pub expire_claimed : ℕ → MobileConnection → Tx (Unit {0})
expire_claimed now r =
    if is_claimed r.status && is_some r.confirm_by && not (is_before now r.confirm_by)
    then update_connections (λ c. c.id == r.id && is_claimed c.status) (withdraw ClaimStatus.lapsed)
    else return tt

-- The setup pipeline has finished the provisioning that this row asked for.
unfoldable pub is_provisioned : MobileConnection → SetupSession → Bool
is_provisioned r s =
    is_provisioning r.status
    && is_provision_vta r.operation
    && is_running s.status
    && str_eq s.admin_did r.admin_did
    && str_eq s.vta_did r.vta_did

-- Reconcile of a row and a session that were read before; `later` is the clock of MarkReleased.
unfoldable pub reconcile :
    (String → String) → ℕ → ℕ → MobileConnection → SetupSession → Tx (Unit {0})
unfolding expire_open expire_claimed is_provisioned mark_released
reconcile digest now later r s = do
  expire_open now r
  expire_claimed now r
  if is_provisioned r s then mark_released digest later r.id else return tt
