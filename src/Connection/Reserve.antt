-- ===== src/Connection/Reserve.antt =====
-- internal/connection/store.go: Change, ChangePool and change, which create, refresh and cancel a
-- reservation. The uuid, the random handle and the clock are arguments.
use vtafarm_api.Base.{
  ℕ, ◌+◌, ◌-◌, ◌*◌, String, Bool, true, false, not, ◌&&◌, Option, none, some, ltb, ◌==◌,
  if◌then◌else◌,
}
use vtafarm_api.Store.{
  SetupSession, Operation, ClaimStatus, MobileConnection, Tx, ◌>>=◌, ◌>>◌, check, or_fail, return,
  throw, transaction, conflict, cooldown,
}
use vtafarm_api.Connection.Rules.{
  second, qr_lifetime, is_pool_waiting, is_open, is_provision_vta, operation_for, final_status,
  lock_session, current, create_connection, update_connection, lapse, withdraw,
}

pub data Action : Type 0 where
  create refresh cancel : Action

-- What uuid.NewString and newHandle return.
pub record Fresh : Type 0 where
  pub uuid : ℕ
  pub handle : String

abbrev pub is_create : Action → Bool
is_create create = true
is_create _ = false

-- expectedID != "" && (current == nil || current.ID != expectedID), negated
abbrev pub expected_is : Option ℕ → Option MobileConnection → Bool
expected_is none cur = true
expected_is (some id) none = false
expected_is (some id) (some c) = c.id == id

-- The branch of "cancel".
unfoldable pub cancel_current : Option MobileConnection → Tx MobileConnection
cancel_current none = throw conflict
cancel_current (some c) =
    if is_open c.status
    then (do
      update_connection c.id (withdraw ClaimStatus.lapsed)
      return (withdraw ClaimStatus.lapsed c))
    else throw conflict

-- The `switch` on the current row: it refuses, it returns the row that is still open, or it makes
-- room for a new row.
unfoldable pub settle_status :
    ClaimStatus → ℕ → Action → MobileConnection → Tx (Option MobileConnection)
settle_status ClaimStatus.claimed now action c = throw conflict
settle_status ClaimStatus.confirmed now action c = throw conflict
settle_status ClaimStatus.provisioning now action c = throw conflict
settle_status ClaimStatus.open_ now action c =
    if ltb now c.expires_at && is_create action
    then return (some c)
    else if ltb (now - c.created_at) (5 * second)
    then throw cooldown
    else (do update_connection c.id lapse; return none)
settle_status st now action c =
    if not (final_status st)
    then throw conflict
    else if ltb (now - c.created_at) (5 * second)
    then throw cooldown
    else return none

unfoldable pub settle_current : ℕ → Action → Option MobileConnection → Tx (Option MobileConnection)
unfolding settle_status
settle_current now action none = return none
settle_current now action (some c) = settle_status c.status now action c

unfoldable pub new_reservation : ℕ → Fresh → SetupSession → Operation → MobileConnection
new_reservation now fresh s operation = record {
  id = fresh.uuid;
  session_id = s.id;
  vta_did = s.vta_did;
  operation = operation;
  admin_did = "";
  status = ClaimStatus.open_;
  claim_handle = some fresh.handle;
  claimant_digest = none;
  created_at = now;
  expires_at = now + qr_lifetime;
  confirm_by = none;
  claimed_at = none;
  confirmed_at = none;
  released_at = none;
  redeem_poll = none;
  provision_error = "";
  public_access_digest = none;
}

-- isPool != pooled || isPool && operation != OperationProvisionVTA, negated
unfoldable pub pool_agrees : Bool → SetupSession → Operation → Bool
pool_agrees pooled s operation =
    if is_pool_waiting s.status then pooled && is_provision_vta operation else not pooled

-- What follows the branch of "cancel".
unfoldable pub reserve :
    ℕ → Fresh → Action → Bool → SetupSession → Option MobileConnection → Tx MobileConnection
unfolding settle_current create_connection
reserve now fresh action pooled s cur = do
  operation ← or_fail (operation_for s s.vta_did) conflict
  check (pool_agrees pooled s operation) conflict
  settled ← settle_current now action cur
  elim settled [
    | some c ↦ return c
    | none ↦ create_connection (new_reservation now fresh s operation)
  ]

unfoldable pub act :
    ℕ → Fresh → Action → Bool → SetupSession → Option MobileConnection → Tx MobileConnection
act now fresh cancel pooled s cur = cancel_current cur
act now fresh action pooled s cur = reserve now fresh action pooled s cur

unfoldable pub change_body : ℕ → Fresh → ℕ → Action → Option ℕ → Bool → Tx MobileConnection
unfolding lock_session current
change_body now fresh session_id action expected pooled = do
  s ← lock_session session_id
  cur ← current session_id
  check (expected_is expected cur) conflict
  act now fresh action pooled s cur

-- change
unfoldable pub change : ℕ → Fresh → ℕ → Action → Option ℕ → Bool → Tx MobileConnection
unfolding change_body
change now fresh session_id action expected pooled =
    transaction (change_body now fresh session_id action expected pooled)

-- Change and ChangePool
abbrev pub change_owner : ℕ → Fresh → ℕ → Action → Option ℕ → Tx MobileConnection
change_owner now fresh session_id action expected =
    change now fresh session_id action expected false

abbrev pub change_pool : ℕ → Fresh → ℕ → Tx MobileConnection
change_pool now fresh session_id = change now fresh session_id create none true
