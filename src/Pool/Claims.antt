-- ===== src/Pool/Claims.antt =====
-- internal/pool/store.go: Reserve, ReservePublic, SetPublicSignup, Confirm, Reject, RetryActivation
-- and RetryBuild. Every one of them runs under one transaction lock, so they follow one another.
use vtafarm_api.Base.{
  ℕ, String, Bool, true, false, not, ◌&&◌, ◌||◌, List, [], ◌∷◌, ◌++◌, map, Option, none, some,
  str_eq, ltb, leb, ◌==◌, if◌then◌else◌, find, any, select, is_some, is_none,
}
use vtafarm_api.Store.{
  SetupSession, SessionStatus, ClaimStatus, MobileConnection, PoolBatch, Db, Tx, Error, Outcome, ok,
  err, ◌>>=◌, ◌>>◌, or_fail, record_not_found, check, return, throw, transaction, conflict,
  cooldown, pool_conflict, pool_empty, pool_public_disabled, invalid_input,
}
use vtafarm_api.Connection.Rules.{
  is_failed, is_confirmed, is_provisioning, is_released, is_provision_vta, same_text,
  update_connection, update_session, find_connection, lock_session, newer,
}
use vtafarm_api.Connection.Reserve.{Fresh, cancel, change_pool, change_owner}
use vtafarm_api.Connection.Claim.{confirm, reject}
use vtafarm_api.Connection.Provision.{start_provisioning}
use vtafarm_api.Pool.Rows.{
  order_by, by_session_id, is_session, is_member_of, find_batch, update_batch, is_public_signup,
  has_live_claim, is_unclaimed,
}

-- A candidate that meanwhile cannot be reserved is passed over, any other error ends the search.
-- The failed call has rolled back to its savepoint.
unfoldable pub or_next : Outcome MobileConnection → Tx MobileConnection → Outcome MobileConnection
or_next (ok c d) next = ok c d
or_next (err conflict d) next = next d
or_next (err cooldown d) next = next d
or_next (err e d) next = err e d

-- The body of the loop over the candidates: the session is read again before it is reserved.
unfoldable pub try_candidate : (ℕ → ℕ) → Fresh → ℕ → Tx MobileConnection → Tx MobileConnection
unfolding or_next is_unclaimed
try_candidate clock fresh id next db = elim (find (λ s. s.id == id) db.sessions) [
  | none ↦ next db
  | some s ↦ if is_unclaimed s then or_next (change_pool (clock id) fresh s.id db) next else next db
]

unfoldable pub reserve_first : (ℕ → ℕ) → Fresh → List SetupSession → Tx MobileConnection
unfolding try_candidate
reserve_first clock fresh [] = throw pool_empty
reserve_first clock fresh (s ∷ ss) = try_candidate clock fresh s.id (reserve_first clock fresh ss)

unfoldable pub is_candidate : ℕ → Db → ℕ → SetupSession → Bool
unfolding is_unclaimed
is_candidate now db batch_id s =
    is_member_of db batch_id s.id && is_unclaimed s && not (has_live_claim now db s.id)

unfoldable pub candidates : ℕ → Db → ℕ → List SetupSession
unfolding is_candidate select order_by
candidates now db batch_id =
    order_by by_session_id (select (is_candidate now db batch_id) db.sessions)

-- Reserve; `now` is the clock of the query, `clock` that of each call of ChangePool.
unfoldable pub reserve : ℕ → (ℕ → ℕ) → Fresh → ℕ → Tx MobileConnection
unfolding reserve_first candidates
reserve now clock fresh batch_id =
    transaction (λ db. reserve_first clock fresh (candidates now db batch_id) db)

-- The batches from which the public may be served.
abbrev pub is_enabled : PoolBatch → Bool
is_enabled b = is_public_signup b.purpose && is_some b.public_signup_enabled_at

-- pb.public_signup_enabled_at, pb.id, s.id
unfoldable pub before_public : (PoolBatch × SetupSession) → (PoolBatch × SetupSession) → Bool
before_public (b, s) (c, t) = elim b.public_signup_enabled_at [
  | none ↦ false
  | some x ↦ elim c.public_signup_enabled_at [
    | none ↦ true
    | some y ↦ ltb x y || x == y && (ltb b.id c.id || b.id == c.id && leb s.id t.id)
  ]
]

-- The join of the enabled batches with their free sessions.
unfoldable pub public_pairs : ℕ → Db → List PoolBatch → List (PoolBatch × SetupSession)
unfolding is_candidate select
public_pairs now db [] = []
public_pairs now db (b ∷ bs) =
    let rest = public_pairs now db bs in
    if is_enabled b
    then map (λ s. (b, s)) (select (is_candidate now db b.id) db.sessions) ++ rest
    else rest

unfoldable pub public_candidates : ℕ → Db → List SetupSession
unfolding before_public public_pairs order_by
public_candidates now db = map (λ p. p.1) (order_by before_public (public_pairs now db db.batches))

abbrev pub grant_access : String → MobileConnection → MobileConnection
grant_access digest c = record c { public_access_digest = some digest }

-- The search for a free session, under the digest of the browser's capability.
unfoldable pub reserve_new : ℕ → (ℕ → ℕ) → Fresh → String → Tx (MobileConnection × Bool)
unfolding reserve_first public_candidates
reserve_new now clock fresh digest = do
  (λ db. check (any is_enabled db.batches) pool_public_disabled db)
  c ← λ db. reserve_first clock fresh (public_candidates now db) db
  update_connection c.id (grant_access digest)
  return (grant_access digest c, true)

unfoldable pub reserve_public_body : ℕ → (ℕ → ℕ) → Fresh → String → Tx (MobileConnection × Bool)
unfolding reserve_new
reserve_public_body now clock fresh digest db =
    elim (find (λ c. same_text c.public_access_digest (some digest)) db.connections) [
      | some c ↦ ok (c, false) db
      | none ↦ reserve_new now clock fresh digest db
    ]

-- ReservePublic; `long_enough` is whether the digest has 32 bytes.
unfoldable pub reserve_public : ℕ → (ℕ → ℕ) → Fresh → Bool → String → Tx (MobileConnection × Bool)
unfolding reserve_public_body
reserve_public now clock fresh long_enough digest = do
  check long_enough invalid_input
  transaction (reserve_public_body now clock fresh digest)

abbrev pub enable_at : Option ℕ → PoolBatch → PoolBatch
enable_at t b = record b { public_signup_enabled_at = t }

-- SetPublicSignup
unfoldable pub set_public_signup_body : ℕ → ℕ → Bool → Tx PoolBatch
set_public_signup_body now batch_id enabled = do
  b ← find_batch batch_id
  check (is_public_signup b.purpose && is_none b.cleanup_requested_at) pool_conflict
  if enabled && is_some b.public_signup_enabled_at then return b else (do
    update_batch b.id (enable_at (if enabled then some now else none))
    return (enable_at (if enabled then some now else none) b))

unfoldable pub set_public_signup : ℕ → ℕ → Bool → Tx PoolBatch
unfolding set_public_signup_body find
set_public_signup now batch_id enabled = transaction (set_public_signup_body now batch_id enabled)

-- A confirmation that failed since the row had been confirmed before is answered with the row.
unfoldable pub already_confirmed : ℕ → Error → Tx MobileConnection
already_confirmed id e db = elim (find_connection id db) [
  | none ↦ err e db
  | some c ↦
      if is_confirmed c.status || is_provisioning c.status || is_released c.status
      then ok c db
      else err e db
]

unfoldable pub after_confirm : ℕ → ℕ → Outcome MobileConnection → Outcome MobileConnection
unfolding already_confirmed find
after_confirm later id (ok c d) = start_provisioning later c.id d
after_confirm later id (err e d) = already_confirmed id e d

unfoldable pub confirm_body : ℕ → ℕ → ℕ → Tx MobileConnection
unfolding after_confirm is_session
confirm_body now later id db = elim (find_connection id db) [
  | none ↦ err record_not_found db
  | some candidate ↦
      if is_session db candidate.session_id
      then after_confirm later id (confirm now candidate.session_id id db)
      else err pool_conflict db
]

-- Confirm; `later` is the clock of StartProvisioning.
unfoldable pub confirm_claim : ℕ → ℕ → ℕ → Tx MobileConnection
unfolding confirm_body
confirm_claim now later id = transaction (confirm_body now later id)

unfoldable pub reject_status : ClaimStatus → ℕ → Fresh → ℕ → ℕ → Tx MobileConnection
reject_status ClaimStatus.open_ now fresh session_id id =
    change_owner now fresh session_id cancel (some id)
reject_status ClaimStatus.claimed now fresh session_id id = reject now session_id id
reject_status _ now fresh session_id id = throw pool_conflict

unfoldable pub reject_body : ℕ → Fresh → ℕ → Tx MobileConnection
unfolding reject_status is_session find
reject_body now fresh id db = elim (find_connection id db) [
  | none ↦ err record_not_found db
  | some candidate ↦
      if is_session db candidate.session_id
      then reject_status candidate.status now fresh candidate.session_id id db
      else err pool_conflict db
]

-- Reject
unfoldable pub reject_claim : ℕ → Fresh → ℕ → Tx MobileConnection
unfolding reject_body
reject_claim now fresh id = transaction (reject_body now fresh id)

abbrev pub resume : SessionStatus → SetupSession → SetupSession
resume status s = record s { status = status; error_msg = ""; failed_stage = "" }

-- The confirmed claim of the session's administrator.
unfoldable pub is_confirmed_claim : SetupSession → MobileConnection → Bool
is_confirmed_claim s c =
    c.session_id == s.id
    && is_provision_vta c.operation
    && str_eq c.admin_did s.admin_did
    && is_some c.confirmed_at
    && (is_confirmed c.status || is_provisioning c.status)

unfoldable pub retry_activation_body : ℕ → Tx (Unit {0})
unfolding lock_session is_confirmed_claim select order_by newer find is_session
retry_activation_body session_id = do
  (λ db. check (is_session db session_id) pool_conflict db)
  s ← lock_session session_id
  check (is_failed s.status && not (str_eq s.admin_did "")) pool_conflict
  claim ←
      λ db. or_fail (find (is_confirmed_claim s) (order_by newer db.connections)) pool_conflict db
  update_session s.id (resume SessionStatus.provisioning)
  update_connection claim.id (λ c. record c { provision_error = "" })

-- RetryActivation
unfoldable pub retry_activation : ℕ → Tx (Unit {0})
unfolding retry_activation_body
retry_activation session_id = transaction (retry_activation_body session_id)

unfoldable pub retry_build_body : ℕ → Tx (Unit {0})
unfolding lock_session any is_session
retry_build_body session_id = do
  (λ db. check (is_session db session_id) pool_conflict db)
  s ← lock_session session_id
  check (is_failed s.status && str_eq s.admin_did "") pool_conflict
  (λ db.
      check (not (any (λ c. c.session_id == session_id && is_some c.confirmed_at) db.connections))
        pool_conflict db)
  update_session s.id (resume SessionStatus.pool_creating)

-- RetryBuild
unfoldable pub retry_build : ℕ → Tx (Unit {0})
unfolding retry_build_body
retry_build session_id = transaction (retry_build_body session_id)
