-- ===== src/Pool/Admission.antt =====
-- internal/pool/store.go: LookupBatch and Admit, which creates a batch with its sessions in one
-- transaction. A capacity is not negative here.
use vtafarm_api.Base.{
  ℕ, ◌-◌, String, Bool, true, false, not, ◌&&◌, ◌||◌, List, [], ◌∷◌, ◌++◌, Option, none, some,
  str_eq, ltb, leb, ◌==◌, if◌then◌else◌, find, any,
}
use Prim.Native.String.{len}
use vtafarm_api.Store.{
  Error, Outcome, SetupSession, PoolBatch, Purpose, admin_station, public_signup, Db, Tx, ok, err,
  ◌>>=◌, ◌>>◌, or_fail, record_not_found, check, return, transaction, pool_conflict, pool_invalid,
  pool_capacity,
}
use vtafarm_api.Pool.Rows.{non_running_session_count, is_public_signup}
use vtafarm_api.Pool.Filling.{Surroundings, above, fill_batch}

-- Admission; its purpose is a text, which may be empty.
pub record Admission : Type 0 where
  pub admin_id : ℕ
  pub key : String
  pub digest : String
  pub label : String
  pub purpose : String
  pub count : ℕ
  pub capacity : ℕ
  pub session : SetupSession
  pub memory_request : String
  pub memory_limit : String

-- AdmissionResult and AdditionResult
pub record AdmissionResult : Type 0 where
  pub batch : PoolBatch
  pub sessions : List SetupSession
  pub created : Bool

abbrev pub is_batch_of : ℕ → String → PoolBatch → Bool
is_batch_of admin_id key b = b.created_by == admin_id && str_eq b.idempotency_key key

-- LookupBatch
unfoldable pub lookup_batch : ℕ → String → String → Tx PoolBatch
lookup_batch admin_id key digest db =
    (or_fail (find (is_batch_of admin_id key) db.batches) record_not_found >>= λ batch.
    check (str_eq batch.request_digest digest) pool_conflict >> return batch)
      db

abbrev pub available : ℕ → Db → ℕ
available capacity db = capacity - non_running_session_count db

abbrev pub new_batch : ℕ → Admission → Purpose → Db → PoolBatch
new_batch now input purpose db = record {
  id = above (λ (b : PoolBatch). b.id) db.batches;
  created_by = input.admin_id;
  label = input.label;
  purpose = purpose;
  requested_count = input.count;
  vta_image = input.session.vta_image;
  idempotency_key = input.key;
  request_digest = input.digest;
  public_signup_enabled_at = if is_public_signup purpose then some now else none;
  cleanup_requested_at = none;
}

abbrev pub is_not_found : Error → Bool
is_not_found record_not_found = true
is_not_found other = false

-- Where no row was inserted: the batch of an earlier request, or what is available.
abbrev pub or_capacity : ℕ → Outcome PoolBatch → Outcome (PoolBatch × Bool)
or_capacity capacity (ok batch db) = ok (batch, false) db
or_capacity capacity (err e db) =
    if is_not_found e then err (pool_capacity (available capacity db)) db else err e db

unfoldable pub previous_batch : Admission → Tx (PoolBatch × Bool)
previous_batch input db =
    or_capacity input.capacity (lookup_batch input.admin_id input.key input.digest db)

-- admitBatchRow
unfoldable pub admit_batch_row : ℕ → Admission → Purpose → Tx (PoolBatch × Bool)
admit_batch_row now input purpose db =
    if leb input.count (available input.capacity db)
      && not (any (is_batch_of input.admin_id input.key) db.batches)
    then (let batch = new_batch now input purpose db in
        ok (batch, true) (record db { batches = db.batches ++ batch ∷ [] }))
    else previous_batch input db

-- The purpose of a request; an empty text is the default.
abbrev pub purpose_of : String → Option Purpose
purpose_of text =
    if str_eq text "" || str_eq text "admin_station"
    then some admin_station
    else if str_eq text "public_signup"
    then some public_signup
    else none

-- The checks that Admit and AddInventory share.
abbrev pub is_valid_request : ℕ → String → SetupSession → Bool
is_valid_request count key session =
    not (ltb count 1)
    && not (str_eq key "")
    && not (ltb 128 (len key))
    && not (str_eq session.vta_image "")

abbrev pub admit_created : Surroundings → Admission → PoolBatch × Bool → Tx AdmissionResult
admit_created env input (batch, false) =
    return (record { batch = batch; sessions = []; created = false })
admit_created env input (batch, true) =
    fill_batch env batch.id input.count input.session input.memory_request input.memory_limit
    >>= λ sessions. return (record { batch = batch; sessions = sessions; created = true })

-- Admit
unfoldable pub admit : Surroundings → Admission → Tx AdmissionResult
admit env input =
    check (is_valid_request input.count input.key input.session) pool_invalid
    >> (or_fail (purpose_of input.purpose) pool_invalid >>= λ purpose.
        transaction (admit_batch_row env.now input purpose >>= admit_created env input))
