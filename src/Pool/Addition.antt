-- ===== src/Pool/Addition.antt =====
-- internal/pool/store.go: lookupAddition and AddInventory, which appends sessions to a batch.
use vtafarm_api.Base.{
  ℕ, ◌+◌, String, Bool, true, false, not, ◌&&◌, [], ◌∷◌, ◌++◌, str_eq, leb, ◌==◌, is_some, find,
  any,
}
use vtafarm_api.Store.{
  SetupSession, PoolBatch, PoolBatchAddition, Tx, ok, err, ◌>>=◌, ◌>>◌, or_fail, record_not_found,
  check, return, write, transaction, duplicate_key, pool_conflict, pool_invalid, pool_capacity,
}
use vtafarm_api.Pool.Rows.{non_running_session_count, find_batch, update_batch}
use vtafarm_api.Pool.Filling.{Surroundings, fill_batch}
use vtafarm_api.Pool.Admission.{AdmissionResult, available, is_valid_request}

-- Addition
pub record Addition : Type 0 where
  pub admin_id : ℕ
  pub batch_id : ℕ
  pub key : String
  pub digest : String
  pub count : ℕ
  pub capacity : ℕ
  pub session : SetupSession
  pub memory_request : String
  pub memory_limit : String

abbrev pub is_addition_of : ℕ → String → PoolBatchAddition → Bool
is_addition_of admin_id key a = a.created_by == admin_id && str_eq a.idempotency_key key

-- lookupAddition
unfoldable pub lookup_addition : ℕ → String → String → ℕ → Tx PoolBatchAddition
lookup_addition admin_id key digest batch_id db =
    (or_fail (find (is_addition_of admin_id key) db.additions) record_not_found >>= λ a.
    check (str_eq a.request_digest digest && a.batch_id == batch_id) pool_conflict >> return a)
      db

-- Create of the row, which its unique index refuses where the key is taken.
abbrev pub create_addition : Addition → Tx (Unit {0})
create_addition input db =
    (check (not (any (is_addition_of input.admin_id input.key) db.additions)) duplicate_key
        >> write (λ db. record db {
          additions =
              db.additions
              ++ record {
                batch_id = input.batch_id;
                created_by = input.admin_id;
                requested_count = input.count;
                idempotency_key = input.key;
                request_digest = input.digest;
              }
                ∷ [];
        }))
      db

abbrev pub with_count : ℕ → PoolBatch → PoolBatch
with_count count b = record b { requested_count = b.requested_count + count }

-- The addition itself, to the batch that is read first.
unfoldable pub append_inventory : Surroundings → Addition → PoolBatch → Tx AdmissionResult
unfolding fill_batch non_running_session_count
append_inventory env input batch =
    check (not (is_some batch.cleanup_requested_at)) pool_conflict
    >> check (not (str_eq batch.vta_image "") && str_eq batch.vta_image input.session.vta_image)
        pool_conflict
    >> (λ db.
        (check (leb input.count (available input.capacity db))
              (pool_capacity (available input.capacity db))
            >> create_addition input
            >> (fill_batch env batch.id input.count input.session input.memory_request
                  input.memory_limit
                >>= λ sessions.
                    update_batch input.batch_id (with_count input.count)
                    >> return (record {
                      batch = with_count input.count batch;
                      sessions = sessions;
                      created = true;
                    })))
          db)

-- What a repeated request answers: the batch as it is now.
abbrev pub current_batch : ℕ → Tx AdmissionResult
current_batch batch_id = find_batch batch_id >>= λ batch.
    return (record { batch = batch; sessions = []; created = false })

unfoldable pub add_inventory_body : Surroundings → Addition → Tx AdmissionResult
unfolding lookup_addition append_inventory
add_inventory_body env input db =
    elim (lookup_addition input.admin_id input.key input.digest input.batch_id db) [
      | ok a db' ↦ current_batch input.batch_id db'
      | err e db' ↦ elim e [
        | record_not_found ↦ (find_batch input.batch_id >>= append_inventory env input) db'
        | other ↦ err other db'
      ]
    ]

-- AddInventory
unfoldable pub add_inventory : Surroundings → Addition → Tx AdmissionResult
unfolding add_inventory_body
add_inventory env input =
    check (not (input.batch_id == 0) && is_valid_request input.count input.key input.session)
      pool_invalid
    >> transaction (add_inventory_body env input)
