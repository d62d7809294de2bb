-- ===== src/Store/Monad.antt =====
-- Transactions: a computation over the database that may fail. The state is kept beside the error,
-- since a failing statement does not undo the ones before it; `transaction` does.
use vtafarm_api.Base.{ℕ, Bool, true, false, Option, none, some}
use vtafarm_api.Store.Rows.{Db}

-- The errors that the modelled packages return. `record_not_found` is gorm.ErrRecordNotFound,
-- `duplicate_key` a violated unique index; those of internal/pool begin with `pool_`.
pub data Error : Type 0 where
  record_not_found duplicate_key : Error
  conflict expired invalid_did cooldown already_claimed : Error
  replay_inactive invalid_input : Error
  pool_conflict pool_empty pool_public_disabled pool_invalid pool_exhausted random_failed : Error
  pool_capacity : ℕ → Error

pub data Outcome {ℓ} (A : Type ℓ) : Type ℓ where
  ok : A → Db → Outcome A
  err : Error → Db → Outcome A

abbrev pub Tx : Type 0 → Type 0
Tx A = Db → Outcome A

infixl 5 ◌>>=◌ ◌>>◌
abbrev pub ◌>>=◌ : {A B : Type 0} → Tx A → (A → Tx B) → Tx B
◌>>=◌ m f db = elim (m db) [ ok a db' ↦ f a db' | err e db' ↦ err e db' ]

abbrev pub ◌>>◌ : {A B : Type 0} → Tx A → Tx B → Tx B
◌>>◌ m k db = elim (m db) [ ok a db' ↦ k db' | err e db' ↦ err e db' ]

abbrev pub return : {A : Type 0} → A → Tx A
return a db = ok a db

abbrev pub throw : {A : Type 0} → Error → Tx A
throw e db = err e db

abbrev pub check : Bool → Error → Tx (Unit {0})
check true e db = ok tt db
check false e db = err e db

-- A query for one row: First and Take of gorm.
abbrev pub or_fail : {A : Type 0} → Option A → Error → Tx A
or_fail none e db = err e db
or_fail (some a) e db = ok a db

abbrev pub write : (Db → Db) → Tx (Unit {0})
write f db = ok tt (f db)

-- The database after an operation.
abbrev pub after : {A : Type 0} → Outcome A → Db
after (ok a db) = db
after (err e db) = db

-- gorm's Transaction: an error rolls everything back. A nested call is a savepoint, which rolls
-- back to where it began.
abbrev pub transaction : {A : Type 0} → Tx A → Tx A
transaction m db = elim (m db) [ ok a db' ↦ ok a db' | err e db' ↦ err e db ]
