-- ===== src/Connection/Claim.antt =====
-- internal/connection/store.go: Claim, ClaimAndRecord, Confirm and Reject. ValidateAdminDID and
-- ClaimantDigest (the did:key resolver and SHA-256) are arguments.
use vtafarm_api.Base.{
  ℕ, ◌+◌, String, Bool, true, false, not, ◌&&◌, ◌||◌, Option, none, some, str_eq, ltb, ◌==◌,
  if◌then◌else◌, find, any, update_where,
}
use vtafarm_api.Store.{
  Operation, ClaimStatus, MobileConnection, TrustTaskExecution, Tx, ok, err, ◌>>=◌, ◌>>◌, check,
  or_fail, return, throw, transaction, conflict, expired, invalid_did, already_claimed,
  replay_inactive, invalid_input, record_not_found,
}
use vtafarm_api.Connection.Rules.{
  confirmation_lifetime, is_claimed, operation_for, lock_session, update_connection, lapse,
  withdraw, same_text,
}

-- A handle's row: First(&row, "claim_handle = ?", handle).
unfoldable pub find_handle : String → Tx MobileConnection
find_handle handle db =
    or_fail (find (λ c. same_text c.claim_handle (some handle)) db.connections) record_not_found db

-- The row of a request and its session: First(&row, "id = ? AND session_id = ?", …).
unfoldable pub find_request : ℕ → ℕ → Tx MobileConnection
find_request session_id id db =
    or_fail (find (λ c. c.id == id && c.session_id == session_id) db.connections) record_not_found
      db

unfoldable pub require_open : ClaimStatus → Tx (Unit {0})
require_open ClaimStatus.open_ = return tt
require_open ClaimStatus.claimed = throw already_claimed
require_open ClaimStatus.confirmed = throw already_claimed
require_open ClaimStatus.provisioning = throw already_claimed
require_open ClaimStatus.released = throw already_claimed
require_open _ = throw expired

-- A handle past its expiry is written as lapsed, and the claim fails.
unfoldable pub require_unexpired : ℕ → MobileConnection → Tx (Unit {0})
require_unexpired now r =
    if ltb now r.expires_at then return tt else (do update_connection r.id lapse; throw expired)

unfoldable pub claimed_by :
    (String → String) → ℕ → Operation → String → MobileConnection → MobileConnection
claimed_by digest now operation did c = record c {
  status = ClaimStatus.claimed;
  operation = operation;
  admin_did = did;
  claimant_digest = some (digest did);
  claimed_at = some now;
  confirm_by = some (now + confirmation_lifetime);
  confirmed_at = none;
}

abbrev pub is_executing : String → TrustTaskExecution → Bool
is_executing document_id e = str_eq e.document_id document_id && not e.completed

abbrev pub complete : String → ℕ → TrustTaskExecution → TrustTaskExecution
complete response now e = record e {
  completed = true;
  response_bytes = some response;
  updated_at = now;
}

-- The replay execution row is completed in the same transaction, if a document is given.
unfoldable pub record_reply : ℕ → Option (String × String) → Tx (Unit {0})
record_reply now none db = ok tt db
record_reply now (some (document_id, response)) db =
    if any (is_executing document_id) db.executions
    then ok tt (record db {
      executions = update_where (is_executing document_id) (complete response now) db.executions;
    })
    else err replay_inactive db

unfoldable pub claim_body :
    (String → String) → ℕ → String → String → Option (String × String) → Tx MobileConnection
unfolding find_handle lock_session require_open require_unexpired record_reply claimed_by
claim_body digest now handle did reply = do
  candidate ← find_handle handle
  s ← lock_session candidate.session_id
  r ← find_handle handle
  require_open r.status
  require_unexpired now r
  operation ← or_fail (operation_for s r.vta_did) conflict
  update_connection r.id (claimed_by digest now operation did)
  record_reply now reply
  return (claimed_by digest now operation did r)

-- claim
unfoldable pub claim :
    (String → Option String)
    → (String → String)
    → ℕ
    → String
    → String
    → Option (String × String)
    → Tx MobileConnection
unfolding claim_body
claim validate digest now handle value reply = do
  did ← or_fail (validate value) invalid_did
  transaction (claim_body digest now handle did reply)

-- Claim
abbrev pub claim_only :
    (String → Option String) → (String → String) → ℕ → String → String → Tx MobileConnection
claim_only validate digest now handle value = claim validate digest now handle value none

-- ClaimAndRecord; the response is signed already.
unfoldable pub claim_and_record :
    (String → Option String)
    → (String → String)
    → ℕ
    → String
    → String
    → String
    → String
    → Tx MobileConnection
unfolding claim
claim_and_record validate digest now handle value document_id response = do
  check (not (str_eq document_id "" || str_eq response "")) invalid_input
  claim validate digest now handle value (some (document_id, response))

-- t != nil && now.Before(*t)
abbrev pub is_before : ℕ → Option ℕ → Bool
is_before now none = false
is_before now (some t) = ltb now t

abbrev pub confirm_at : ℕ → MobileConnection → MobileConnection
confirm_at now c = record c { status = ClaimStatus.confirmed; confirmed_at = some now }

-- A claim past its deadline is written as lapsed, and the confirmation fails.
unfoldable pub confirm_body : ℕ → ℕ → ℕ → Tx MobileConnection
unfolding lock_session find_request
confirm_body now session_id id = do
  lock_session session_id
  r ← find_request session_id id
  if is_claimed r.status && is_before now r.confirm_by
      then (do update_connection r.id (confirm_at now); return (confirm_at now r))
      else if is_claimed r.status
      then (do update_connection r.id (withdraw ClaimStatus.lapsed); throw expired)
      else throw expired

-- Confirm
unfoldable pub confirm : ℕ → ℕ → ℕ → Tx MobileConnection
unfolding confirm_body
confirm now session_id id = transaction (confirm_body now session_id id)

unfoldable pub reject_body : ℕ → ℕ → ℕ → Tx MobileConnection
unfolding lock_session find_request
reject_body now session_id id = do
  lock_session session_id
  r ← find_request session_id id
  check (is_claimed r.status) conflict
  if is_before now r.confirm_by
      then (do
        update_connection r.id (withdraw ClaimStatus.rejected)
        return (withdraw ClaimStatus.rejected r))
      else (do update_connection r.id (withdraw ClaimStatus.lapsed); throw expired)

-- Reject
unfoldable pub reject : ℕ → ℕ → ℕ → Tx MobileConnection
unfolding reject_body
reject now session_id id = transaction (reject_body now session_id id)
