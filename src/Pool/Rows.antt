-- ===== src/Pool/Rows.antt =====
-- internal/pool/store.go: the queries and predicates that the operations share.
use vtafarm_api.Base.{
  ℕ, ◌+◌, Bool, true, false, not, ◌&&◌, ◌||◌, List, [], ◌∷◌, str_eq, ltb, leb, ◌==◌, if◌then◌else◌,
  find, any, count, update_where,
}
use vtafarm_api.Store.{
  SetupSession, MobileConnection, Purpose, admin_station, public_signup, PoolBatch, PoolSession, Db,
  Tx, or_fail, record_not_found, write,
}
use vtafarm_api.Connection.Rules.{
  is_running, is_pool_waiting, is_open, is_claimed, is_confirmed, is_provisioning,
}
use vtafarm_api.Connection.Claim.{is_before}

-- ORDER BY: an insertion sort by a test that puts the first argument before the second.
module _ {ℓ} {A : Type ℓ} (before : A → A → Bool) where
  unfoldable pub insert_sorted : A → List A → List A
  insert_sorted x [] = x ∷ []
  insert_sorted x (y ∷ ys) =
      let rest = insert_sorted x ys in if before x y then x ∷ y ∷ ys else y ∷ rest

  unfoldable pub order_by : List A → List A
  unfolding insert_sorted
  order_by [] = []
  order_by (x ∷ xs) = insert_sorted x (order_by xs)

abbrev pub by_session_id : SetupSession → SetupSession → Bool
by_session_id a b = leb a.id b.id

-- IsSession; session_id is the primary key of pool_sessions.
unfoldable pub is_session : Db → ℕ → Bool
is_session db session_id = any (λ (m : PoolSession). m.session_id == session_id) db.members

unfoldable pub is_member_of : Db → ℕ → ℕ → Bool
is_member_of db batch_id session_id =
    any (λ (m : PoolSession). m.session_id == session_id && m.batch_id == batch_id) db.members

-- The rows of pool_sessions JOIN setup_sessions WHERE status <> 'running', counted.
unfoldable pub count_join : List SetupSession → List PoolSession → ℕ
count_join sessions [] = 0
count_join sessions (m ∷ ms) =
    count (λ (s : SetupSession). s.id == m.session_id && not (is_running s.status)) sessions
    + count_join sessions ms

-- nonRunningSessionCount
unfoldable pub non_running_session_count : Db → ℕ
unfolding count_join
non_running_session_count db = count_join db.sessions db.members

abbrev pub find_batch : ℕ → Tx PoolBatch
find_batch id db = or_fail (find (λ (b : PoolBatch). b.id == id) db.batches) record_not_found db

abbrev pub update_batch : ℕ → (PoolBatch → PoolBatch) → Tx (Unit {0})
update_batch id f =
    write (λ db. record db { batches = update_where (λ (b : PoolBatch). b.id == id) f db.batches })

abbrev pub is_public_signup : Purpose → Bool
is_public_signup public_signup = true
is_public_signup admin_station = false

-- A claim that still holds its session: the NOT EXISTS of the two queries for candidates.
unfoldable pub is_live : ℕ → MobileConnection → Bool
is_live now c =
    is_open c.status && ltb now c.expires_at
    || is_claimed c.status && is_before now c.confirm_by
    || is_confirmed c.status
    || is_provisioning c.status

unfoldable pub has_live_claim : ℕ → Db → ℕ → Bool
has_live_claim now db session_id =
    any (λ c. c.session_id == session_id && is_live now c) db.connections

-- A session that waits in the inventory and has no administrator.
unfoldable pub is_unclaimed : SetupSession → Bool
is_unclaimed s = is_pool_waiting s.status && str_eq s.admin_did ""
