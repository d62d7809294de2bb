-- ===== src/Connection/Settle.antt =====
-- internal/connection/store.go: AcceptManual, CancelPending, Stop and the lease on redeem polls.
use vtafarm_api.Base.{
  ℕ, ◌+◌, String, Bool, true, false, not, ◌&&◌, ◌||◌, Option, none, some, str_eq, leb, ◌==◌,
  if◌then◌else◌, any, update_where,
}
use vtafarm_api.Store.{
  SessionStatus, ClaimStatus, MobileConnection, Tx, ok, err, ◌>>=◌, ◌>>◌, check, or_fail,
  transaction, conflict, invalid_did, invalid_input,
}
use vtafarm_api.Connection.Rules.{
  is_open, is_claimed, is_confirmed, is_provisioning, is_pool_waiting, ready, lock_session, current,
  update_connections, update_session, lapse, withdraw, resumable_provision_status,
}
use vtafarm_api.Connection.Provision.{begin_provision}

-- The current row waits for the owner or is being provisioned.
abbrev pub is_engaged : Option MobileConnection → Bool
is_engaged none = false
is_engaged (some c) = is_claimed c.status || is_confirmed c.status || is_provisioning c.status

abbrev pub lapse_open : ℕ → Tx (Unit {0})
lapse_open session_id =
    update_connections (λ c. c.session_id == session_id && is_open c.status) lapse

unfoldable pub accept_manual_body : ℕ → ℕ → String → Bool → Tx (Unit {0})
unfolding lock_session current begin_provision ready
accept_manual_body now session_id did resume = do
  s ← lock_session session_id
  check (not (is_pool_waiting s.status)) conflict
  cur ← current session_id
  check (not (is_engaged cur)) conflict
  if not (str_eq s.admin_did "")
      then check (str_eq s.admin_did did && resume && resumable_provision_status s.status) conflict
      else (do check (ready s) conflict; begin_provision s did now; lapse_open s.id)

-- AcceptManual
unfoldable pub accept_manual : (String → Option String) → ℕ → ℕ → String → Bool → Tx (Unit {0})
unfolding accept_manual_body
accept_manual validate now session_id value resume = do
  did ← or_fail (validate value) invalid_did
  transaction (accept_manual_body now session_id did resume)

unfoldable pub cancel_pending_body : ℕ → Tx (Unit {0})
unfolding lock_session
cancel_pending_body session_id = do lock_session session_id; lapse_open session_id

-- CancelPending
unfoldable pub cancel_pending : ℕ → Tx (Unit {0})
unfolding cancel_pending_body
cancel_pending session_id = transaction (cancel_pending_body session_id)

unfoldable pub stop_body : ℕ → Tx (Unit {0})
unfolding lock_session
stop_body session_id = do
  s ← lock_session session_id
  update_session s.id (λ s. record s { status = SessionStatus.deleting })
  update_connections (λ c. c.session_id == session_id && (is_open c.status || is_claimed c.status))
      (withdraw ClaimStatus.lapsed)
  update_connections
      (λ c. c.session_id == session_id && (is_confirmed c.status || is_provisioning c.status))
      (withdraw ClaimStatus.cancelled)

-- Stop
unfoldable pub stop : ℕ → Tx (Unit {0})
unfolding stop_body
stop session_id = transaction (stop_body session_id)

-- redeem_poll_until IS NULL OR redeem_poll_until <= ?
abbrev pub is_poll_free : ℕ → Option (String × ℕ) → Bool
is_poll_free now none = true
is_poll_free now (some (id, until)) = leb until now

unfoldable pub may_poll : ℕ → ℕ → MobileConnection → Bool
may_poll now id c =
    c.id == id
    && (is_claimed c.status || is_confirmed c.status || is_provisioning c.status)
    && is_poll_free now c.redeem_poll

abbrev pub hold_poll : String → ℕ → MobileConnection → MobileConnection
hold_poll poll_id until c = record c { redeem_poll = some (poll_id, until) }

-- AcquireRedeemPoll; the answer is whether a row was updated.
unfoldable pub acquire_redeem_poll : ℕ → ℕ → String → ℕ → Tx Bool
unfolding may_poll
acquire_redeem_poll now id poll_id lease db =
    if str_eq poll_id "" || lease == 0
    then err invalid_input db
    else ok (any (may_poll now id) db.connections) (record db {
      connections = update_where (may_poll now id) (hold_poll poll_id (now + lease)) db.connections;
    })

abbrev pub holds_poll : String → Option (String × ℕ) → Bool
holds_poll poll_id none = false
holds_poll poll_id (some (id, until)) = str_eq id poll_id

-- ReleaseRedeemPoll
unfoldable pub release_redeem_poll : ℕ → String → Tx (Unit {0})
release_redeem_poll id poll_id =
    update_connections (λ c. c.id == id && holds_poll poll_id c.redeem_poll)
      (λ c. record c { redeem_poll = none })
