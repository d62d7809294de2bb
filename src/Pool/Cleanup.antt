-- ===== src/Pool/Cleanup.antt =====
-- internal/pool/store.go: QueueCleanup, QueueBatchCleanup, queueCleanupBulk, FinalizeBatchCleanup
-- and FinalizeEmptyBatchCleanups.
use vtafarm_api.Base.{
  ℕ, Bool, false, not, ◌&&◌, ◌||◌, List, [], ◌∷◌, map, Option, none, some, str_eq, leb, ◌==◌,
  if◌then◌else◌, find, any, select, count, update_where, delete_where, is_some, is_none, length,
}
use vtafarm_api.Store.{
  SetupSession, SessionStatus, ClaimStatus, MobileConnection, PoolBatch, PoolSession, User, Db, Tx,
  ok, ◌>>=◌, ◌>>◌, write, check, return, transaction, pool_conflict,
}
use vtafarm_api.Connection.Rules.{
  is_failed, is_pool_waiting, is_open, is_claimed, is_confirmed, is_provisioning, is_released,
  update_connections, lapse, withdraw,
}
use vtafarm_api.Pool.Rows.{order_by, find_batch, update_batch}

-- x IN (…)
unfoldable pub is_in : ℕ → List ℕ → Bool
is_in x [] = false
is_in x (y ∷ ys) = x == y || is_in x ys

-- The comparison of neighbours in the sorted list.
unfoldable pub has_repeat : List ℕ → Bool
has_repeat [] = false
has_repeat (x ∷ []) = false
has_repeat (x ∷ y ∷ ys) = x == y || has_repeat (y ∷ ys)

-- A session that may be torn down: unclaimed, and waiting or failed.
unfoldable pub is_removable : SetupSession → Bool
is_removable s = str_eq s.admin_did "" && (is_pool_waiting s.status || is_failed s.status)

-- A user who has not signed up: no address, no access to full stacks and no passkey.
unfoldable pub is_anonymous : User → Bool
is_anonymous u = is_none u.email && not u.fullstack_access && u.passkeys == 0

-- A claim that protects its session.
unfoldable pub is_protecting : MobileConnection → Bool
is_protecting c =
    is_some c.confirmed_at
    || is_open c.status
    || is_claimed c.status
    || is_confirmed c.status
    || is_provisioning c.status
    || is_released c.status

unfoldable pub expire_open_in : ℕ → List ℕ → Tx (Unit {0})
expire_open_in now ids =
    update_connections (λ c. is_in c.session_id ids && is_open c.status && leb c.expires_at now)
      lapse

-- confirm_by <= now; a NULL is no match.
abbrev pub is_due : ℕ → Option ℕ → Bool
is_due now none = false
is_due now (some t) = leb t now

unfoldable pub expire_claimed_in : ℕ → List ℕ → Tx (Unit {0})
expire_claimed_in now ids =
    update_connections
      (λ c. is_in c.session_id ids && is_claimed c.status && is_due now c.confirm_by)
      (withdraw ClaimStatus.lapsed)

abbrev pub mark_deleting : List ℕ → List SetupSession → List SetupSession
mark_deleting ids =
    update_where (λ s. is_in s.id ids) (λ s. record s { status = SessionStatus.deleting })

abbrev pub all_are {ℓ} : {A : Type ℓ} → (A → Bool) → List A → Bool
all_are p xs = not (any (λ x. not (p x)) xs)

-- The checks on the memberships, the sessions and their users.
unfoldable pub may_clean : Db → List ℕ → Bool
may_clean db ids =
    let sessions = select (λ (s : SetupSession). is_in s.id ids) db.sessions in
    let users =
      select (λ (u : User). is_in u.id (map (λ (s : SetupSession). s.user_id) sessions)) db.users in
    count (λ (m : PoolSession). is_in m.session_id ids) db.members == length ids
    && length sessions == length ids
    && all_are is_removable sessions
    && length users == length sessions
    && all_are is_anonymous users

unfoldable pub protects : List ℕ → MobileConnection → Bool
unfolding is_protecting
protects ids c = is_in c.session_id ids && is_protecting c

-- queueCleanupBulk
unfoldable pub queue_cleanup_bulk : ℕ → List ℕ → Tx (Unit {0})
unfolding expire_open_in expire_claimed_in
queue_cleanup_bulk now ids = do
  (λ db. check (may_clean db ids) pool_conflict db)
  expire_open_in now ids
  expire_claimed_in now ids
  (λ db. check (not (any (protects ids) db.connections)) pool_conflict db)
  write (λ db. record db { sessions = mark_deleting ids db.sessions })

-- QueueCleanup
unfoldable pub queue_cleanup : ℕ → List ℕ → Tx (Unit {0})
queue_cleanup now ids = do
  check (not (length ids == 0) && not (has_repeat (order_by leb ids))) pool_conflict
  transaction (queue_cleanup_bulk now (order_by leb ids))

unfoldable pub member_ids : Db → ℕ → List ℕ
member_ids db batch_id = order_by leb (
    map (λ (m : PoolSession). m.session_id)
      (select (λ (m : PoolSession). m.batch_id == batch_id) db.members))

-- A batch without members is deleted at once, any other when its last member is gone.
unfoldable pub clean_members : ℕ → PoolBatch → List ℕ → Tx (Unit {0})
clean_members now b [] =
    write (λ db. record db { batches = delete_where (λ (x : PoolBatch). x.id == b.id) db.batches })
clean_members now b (id ∷ ids) = do
  queue_cleanup_bulk now (id ∷ ids)
  update_batch b.id (λ x. record x { cleanup_requested_at = some now })

unfoldable pub clean_batch : ℕ → PoolBatch → List ℕ → Tx (List ℕ)
unfolding clean_members
clean_batch now b ids =
    if is_some b.cleanup_requested_at then return ids else (do clean_members now b ids; return ids)

unfoldable pub queue_batch_cleanup_body : ℕ → ℕ → Tx (List ℕ)
unfolding clean_batch member_ids find
queue_batch_cleanup_body now batch_id = do
  b ← find_batch batch_id
  ids ← λ db. ok (member_ids db batch_id) db
  clean_batch now b ids

-- QueueBatchCleanup
unfoldable pub queue_batch_cleanup : ℕ → ℕ → Tx (List ℕ)
unfolding queue_batch_cleanup_body
queue_batch_cleanup now batch_id = transaction (queue_batch_cleanup_body now batch_id)

-- A batch whose cleanup was requested and whose last member is gone.
unfoldable pub is_drained : Db → PoolBatch → Bool
is_drained db b =
    is_some b.cleanup_requested_at && not (any (λ (m : PoolSession). m.batch_id == b.id) db.members)

-- FinalizeBatchCleanup and FinalizeEmptyBatchCleanups
unfoldable pub finalize_batch_cleanup : ℕ → Tx (Unit {0})
unfolding is_drained
finalize_batch_cleanup batch_id db = ok tt (record db {
  batches = delete_where (λ (b : PoolBatch). b.id == batch_id && is_drained db b) db.batches;
})

unfoldable pub finalize_empty_batch_cleanups : Tx (Unit {0})
unfolding is_drained
finalize_empty_batch_cleanups db =
    ok tt (record db { batches = delete_where (is_drained db) db.batches })
