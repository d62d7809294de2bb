-- ===== src/Connection/Rules.antt =====
-- internal/connection/store.go: the predicates, the row queries and the updates that the
-- operations share.
use vtafarm_api.Base.{
  ℕ, ◌*◌, String, Bool, true, false, ◌&&◌, ◌||◌, List, [], ◌∷◌, ◌++◌, Option, none, some, str_eq,
  ltb, ◌==◌, if◌then◌else◌, find, any, update_where,
}
use vtafarm_api.Store.{
  SessionStatus, SetupSession, is_full_stack, Operation, provision_vta, grant_acl, ClaimStatus,
  MobileConnection, Db, Tx, ok, err, record_not_found, duplicate_key, or_fail, write,
}

abbrev pub second : ℕ
second = 1_000_000_000

abbrev pub qr_lifetime : ℕ
qr_lifetime = 5 * 60 * second

abbrev pub confirmation_lifetime : ℕ
confirmation_lifetime = 5 * 60 * second

abbrev pub is_awaiting_admin_did : SessionStatus → Bool
is_awaiting_admin_did SessionStatus.awaiting_admin_did = true
is_awaiting_admin_did _ = false

abbrev pub is_pool_waiting : SessionStatus → Bool
is_pool_waiting SessionStatus.pool_waiting = true
is_pool_waiting _ = false

abbrev pub is_vta_setup_complete : SessionStatus → Bool
is_vta_setup_complete SessionStatus.vta_setup_complete = true
is_vta_setup_complete _ = false

abbrev pub is_running : SessionStatus → Bool
is_running SessionStatus.running = true
is_running _ = false

abbrev pub is_failed : SessionStatus → Bool
is_failed SessionStatus.failed = true
is_failed _ = false

abbrev pub is_open : ClaimStatus → Bool
is_open ClaimStatus.open_ = true
is_open _ = false

abbrev pub is_claimed : ClaimStatus → Bool
is_claimed ClaimStatus.claimed = true
is_claimed _ = false

abbrev pub is_confirmed : ClaimStatus → Bool
is_confirmed ClaimStatus.confirmed = true
is_confirmed _ = false

abbrev pub is_provisioning : ClaimStatus → Bool
is_provisioning ClaimStatus.provisioning = true
is_provisioning _ = false

abbrev pub is_released : ClaimStatus → Bool
is_released ClaimStatus.released = true
is_released _ = false

abbrev pub is_provision_vta : Operation → Bool
is_provision_vta provision_vta = true
is_provision_vta grant_acl = false

-- Ready: the session waits for its first administrator.
unfoldable pub ready : SetupSession → Bool
ready s =
    if is_full_stack s
    then is_awaiting_admin_did s.status
    else is_vta_setup_complete s.status || is_pool_waiting s.status

-- operationFor: the `switch` in order, `none` for ErrConflict.
unfoldable pub operation_for : SetupSession → String → Option Operation
unfolding ready
operation_for s vta_did =
    if ready s && str_eq s.admin_did "" && str_eq s.vta_did vta_did
    then some provision_vta
    else if is_running s.status && str_eq s.vta_did vta_did
    then some grant_acl
    else none

-- finalStatus
abbrev pub final_status : ClaimStatus → Bool
final_status ClaimStatus.released = true
final_status ClaimStatus.rejected = true
final_status ClaimStatus.lapsed = true
final_status ClaimStatus.cancelled = true
final_status ClaimStatus.expired = true
final_status ClaimStatus.failed = true
final_status _ = false

-- ResumableProvisionStatus
abbrev pub resumable_provision_status : SessionStatus → Bool
resumable_provision_status SessionStatus.provisioning = true
resumable_provision_status SessionStatus.step_import_admin_did = true
resumable_provision_status SessionStatus.deploy_vta = true
resumable_provision_status SessionStatus.step_vtc_setup_key = true
resumable_provision_status SessionStatus.step_vtc_acl_grant = true
resumable_provision_status SessionStatus.step_vtc_setup = true
resumable_provision_status SessionStatus.deploy_vtc = true
resumable_provision_status _ = false

-- lockSession: SELECT … FOR UPDATE by primary key.
unfoldable pub lock_session : ℕ → Tx SetupSession
lock_session id db = or_fail (find (λ s. s.id == id) db.sessions) record_not_found db

-- The order of `ORDER BY created_at DESC, id DESC`.
unfoldable pub newer : MobileConnection → MobileConnection → Bool
newer a b = ltb b.created_at a.created_at || a.created_at == b.created_at && ltb b.id a.id

unfoldable pub pick : MobileConnection → Option MobileConnection → Option MobileConnection
unfolding newer
pick c none = some c
pick c (some d) = if newer d c then some d else some c

-- The first row of a session in that order.
unfoldable pub latest : ℕ → List MobileConnection → Option MobileConnection
unfolding pick
latest session_id [] = none
latest session_id (c ∷ cs) =
    let rest = latest session_id cs in if c.session_id == session_id then pick c rest else rest

-- Current: `none` for the nil that it returns when the session has no reservation.
unfoldable pub current : ℕ → Tx (Option MobileConnection)
unfolding latest
current session_id db = ok (latest session_id db.connections) db

-- The statuses under the unique index mobile_connections_active_session of migration 41.
abbrev pub is_active : ClaimStatus → Bool
is_active ClaimStatus.open_ = true
is_active ClaimStatus.claimed = true
is_active ClaimStatus.confirmed = true
is_active ClaimStatus.provisioning = true
is_active _ = false

abbrev pub same_text : Option String → Option String → Bool
same_text (some a) (some b) = str_eq a b
same_text _ _ = false

-- Two rows that the primary key and the unique indexes of the table do not allow together.
unfoldable pub clashes : MobileConnection → MobileConnection → Bool
clashes r c =
    c.id == r.id
    || same_text c.claim_handle r.claim_handle
    || is_active c.status && is_active r.status && c.session_id == r.session_id

-- tx.Create of a reservation.
unfoldable pub create_connection : MobileConnection → Tx MobileConnection
unfolding clashes any
create_connection r db =
    if any (clashes r) db.connections
    then err duplicate_key db
    else ok r (record db { connections = db.connections ++ (r ∷ []) })

-- UPDATE mobile_connections SET … WHERE …
abbrev pub update_connections :
    (MobileConnection → Bool) → (MobileConnection → MobileConnection) → Tx (Unit {0})
update_connections p f = write (λ db. record db { connections = update_where p f db.connections })

abbrev pub update_connection : ℕ → (MobileConnection → MobileConnection) → Tx (Unit {0})
update_connection id = update_connections (λ c. c.id == id)

-- UPDATE setup_sessions SET … WHERE id = …
abbrev pub update_session : ℕ → (SetupSession → SetupSession) → Tx (Unit {0})
update_session id f =
    write (λ db. record db { sessions = update_where (λ s. s.id == id) f db.sessions })

-- {"status": "lapsed"} and {"status": "lapsed", "admin_did": ""}
abbrev pub lapse : MobileConnection → MobileConnection
lapse c = record c { status = ClaimStatus.lapsed }

abbrev pub withdraw : ClaimStatus → MobileConnection → MobileConnection
withdraw st c = record c { status = st; admin_did = "" }

abbrev pub find_connection : ℕ → Db → Option MobileConnection
find_connection id db = find (λ c. c.id == id) db.connections

-- First(&row, "id = ?", id)
abbrev pub load_connection : ℕ → Tx MobileConnection
load_connection id db = or_fail (find_connection id db) record_not_found db
