-- ===== src/Pool/Repeated.antt =====
-- internal/pool/store.go: a repeated request of Admit answers with the batch of the first one and
-- changes nothing.
use vtafarm_api.Base.{
  ℕ, String, Bool, true, false, not, ◌&&◌, List, [], ◌∷◌, ◌++◌, some, str_eq, eq_iff, leb,
  if◌then◌else◌, find, any, ◌≡◌, refl, sym, ap, ◌∙◌, arith, Bool-cases, Option-cases, inl, inr,
  any-false, find-none, find-append_none,
}
use mathlib.Core.Path.{subst}
use vtafarm_api.RateLimit.Keys.{str_refl}
use vtafarm_api.Store.{PoolBatch, Purpose, Db, Outcome, ok, err, pool_conflict}
use vtafarm_api.Pool.Filling.{Surroundings, fill_batch}
use vtafarm_api.Pool.Frame.{Outcome-cases, fill_batch-KeepsBatches}
use vtafarm_api.Pool.Admission.{
  Admission, AdmissionResult, is_batch_of, is_not_found, or_capacity, lookup_batch, available,
  new_batch, previous_batch, admit_batch_row, purpose_of, is_valid_request, admit_created, admit,
}

-- The batch of a request is found in the table.
abbrev pub IsFound : ℕ → String → String → PoolBatch → Db → Type 0
IsFound admin_id key digest batch db =
    (find (is_batch_of admin_id key) db.batches ≡ some batch) × (batch.request_digest ≡ digest)

lookup_batch-IsFound :
    (admin_id : ℕ) (key digest : String) (db : Db) (batch : PoolBatch) (db' : Db)
    → lookup_batch admin_id key digest db ≡ ok batch db'
    → IsFound admin_id key digest batch db × (db' ≡ db)
unfolding lookup_batch
lookup_batch-IsFound admin_id key digest db batch db' h =
    elim (Option-cases (find (is_batch_of admin_id key) db.batches)) [
      | inl e ↦ ground (arith, h, e)
      | inr (b, e) ↦ elim (Bool-cases (str_eq b.request_digest digest)) [
        | inl t ↦ ground (arith, h, e, t, eq_iff b.request_digest digest)
        | inr t ↦ ground (arith, h, e, t)
      ]
    ]

new_batch-IsFound :
    (now : ℕ) (input : Admission) (purpose : Purpose) (db : Db)
    → any (is_batch_of input.admin_id input.key) db.batches ≡ false
    → IsFound input.admin_id input.key input.digest
        (new_batch now input purpose db)
        (record db { batches = db.batches ++ new_batch now input purpose db ∷ [] })
unfolding find
new_batch-IsFound now input purpose db h =
    let none_yet =
      find-none (is_batch_of input.admin_id input.key) db.batches
        (any-false (is_batch_of input.admin_id input.key) db.batches h) in
    (
      find-append_none (is_batch_of input.admin_id input.key) db.batches
            (new_batch now input purpose db ∷ []) none_yet
          ∙ ground (arith, str_refl input.key),
      refl,
    )

-- What the row of a batch says of it: it is found, and nothing is written for an earlier one.
abbrev pub Admitted : Admission → Db → PoolBatch × Bool → Db → Type 0
Admitted input db (batch, true) db' = IsFound input.admin_id input.key input.digest batch db'
Admitted input db (batch, false) db' =
    IsFound input.admin_id input.key input.digest batch db' × (db' ≡ db)

or_capacity-ok :
    (capacity : ℕ) (o : Outcome PoolBatch) (b : PoolBatch) (created : Bool) (db' : Db)
    → or_capacity capacity o ≡ ok (b, created) db'
    → (o ≡ ok b db') × (created ≡ false)
or_capacity-ok capacity (ok x d) b created db' h = ground (arith, h)
or_capacity-ok capacity (err e d) b created db' h = elim (Bool-cases (is_not_found e)) [
  | inl t ↦ ground (arith, h, t)
  | inr t ↦ ground (arith, h, t)
]

previous_batch-Admitted :
    (input : Admission) (db : Db) (b : PoolBatch) (created : Bool) (db' : Db)
    → previous_batch input db ≡ ok (b, created) db'
    → Admitted input db (b, created) db'
unfolding previous_batch
previous_batch-Admitted input db b true db' h =
    let (_, wrong) =
      or_capacity-ok input.capacity (lookup_batch input.admin_id input.key input.digest db) b true
        db' h in
    cc wrong
previous_batch-Admitted input db b false db' h =
    let (here, _) =
      or_capacity-ok input.capacity (lookup_batch input.admin_id input.key input.digest db) b false
        db' h in
    let (found, same) = lookup_batch-IsFound input.admin_id input.key input.digest db b db' here in
    (subst (IsFound input.admin_id input.key input.digest b) (sym same) found, same)

pub previous_batch-created :
    (input : Admission) (db : Db) (b : PoolBatch) (created : Bool) (db' : Db)
    → previous_batch input db ≡ ok (b, created) db'
    → created ≡ false
unfolding previous_batch
previous_batch-created input db b created db' h =
    (or_capacity-ok input.capacity (lookup_batch input.admin_id input.key input.digest db) b created
      db' h).1

pub admit_batch_row-Admitted :
    (now : ℕ) (input : Admission) (purpose : Purpose) (db : Db) (b : PoolBatch) (created : Bool)
    (db' : Db)
    → admit_batch_row now input purpose db ≡ ok (b, created) db'
    → Admitted input db (b, created) db'
unfolding admit_batch_row
admit_batch_row-Admitted now input purpose db b created db' h =
    elim (Bool-cases (
      leb input.count (available input.capacity db)
      && not (any (is_batch_of input.admin_id input.key) db.batches))) [
        | inl t ↦ inserted (ground (arith, t)) b created db' (ground (arith, t, h))
        | inr t ↦ previous_batch-Admitted input db b created db' (ground (arith, t, h))
      ]
  where
    inserted :
        any (is_batch_of input.admin_id input.key) db.batches ≡ false
        → (x : PoolBatch) (c : Bool) (d : Db)
        → ◌≡◌ {A = Outcome (PoolBatch × Bool)}
            (ok
              (new_batch now input purpose db, true)
              (record db { batches = db.batches ++ new_batch now input purpose db ∷ [] }))
            (ok (x, c) d)
        → Admitted input db (x, c) d
    inserted new x true d e = ground (arith, e, new_batch-IsFound now input purpose db new)
    inserted new x false d e = ground (arith, e)

admit_created-IsFound :
    (env : Surroundings) (input : Admission) (b : PoolBatch) (created : Bool) (d : Db)
    (r : AdmissionResult) (db' : Db)
    → IsFound input.admin_id input.key input.digest b d
    → admit_created env input (b, created) d ≡ ok r db'
    → IsFound input.admin_id input.key input.digest r.batch db'
admit_created-IsFound env input b false d r db' found h = ground (arith, found, h)
admit_created-IsFound env input b true d r db' found h =
    elim (Outcome-cases
      (fill_batch env b.id input.count input.session input.memory_request input.memory_limit d)) [
        | inl (e, x, k) ↦ ground (arith, h, k)
        | inr (ss, x, k) ↦
            let same =
              fill_batch-KeepsBatches env b.id input.count input.session input.memory_request
                input.memory_limit d ss x k in
            ground (arith, found, h, k, same)
      ]

Admitted-IsFound :
    (input : Admission) (db : Db) (b : PoolBatch) (created : Bool) (db' : Db)
    → Admitted input db (b, created) db'
    → IsFound input.admin_id input.key input.digest b db'
Admitted-IsFound input db b true db' h = h
Admitted-IsFound input db b false db' h = h.0

-- The batch of a request that succeeded is found afterwards.
pub admit-IsFound :
    (env : Surroundings) (input : Admission) (db : Db) (r : AdmissionResult) (db' : Db)
    → admit env input db ≡ ok r db'
    → IsFound input.admin_id input.key input.digest r.batch db'
unfolding admit
admit-IsFound env input db r db' h = elim (Option-cases (purpose_of input.purpose)) [
  | inl p ↦ ground (arith, h, p)
  | inr (purpose, p) ↦ elim (Outcome-cases (admit_batch_row env.now input purpose db)) [
    | inl (e, d, x) ↦ ground (arith, h, p, x)
    | inr ((b, created), d, x) ↦ elim (Outcome-cases (admit_created env input (b, created) d)) [
      | inl (e, d', y) ↦ ground (arith, h, p, x, y)
      | inr (r', d', y) ↦
          let found =
            admit_created-IsFound env input b created d r' d'
              (Admitted-IsFound input db b created d
                (admit_batch_row-Admitted env.now input purpose db b created d x))
              y in
          ground (arith, h, p, x, y, found)
    ]
  ]
]

any-find : {A : Type 0} (p : A → Bool) (xs : List A) (a : A) → find p xs ≡ some a → any p xs ≡ true
unfolding any find
any-find p [] a h = cc h
any-find p (x ∷ xs) a h = ground (arith, any-find p xs a)

-- A batch that is found answers a valid request with its key: as it is for the same digest, with a
-- conflict for another one.
admit-again :
    (env : Surroundings) (input : Admission) (purpose : Purpose) (db : Db) (batch : PoolBatch)
    → is_valid_request input.count input.key input.session ≡ true
    → purpose_of input.purpose ≡ some purpose
    → find (is_batch_of input.admin_id input.key) db.batches ≡ some batch
    → admit env input db ≡ (
        if str_eq batch.request_digest input.digest
        then ok (record { batch = batch; sessions = []; created = false }) db
        else err pool_conflict db)
unfolding admit admit_batch_row previous_batch lookup_batch
admit-again env input purpose db batch valid p found =
    let taken = any-find (is_batch_of input.admin_id input.key) db.batches batch found in
    elim (Bool-cases (str_eq batch.request_digest input.digest)) [
      | inl t ↦ ground (arith, valid, p, found, taken, t)
      | inr t ↦ ground (arith, valid, p, found, taken, t)
    ]

-- Modelling internal/pool/store.go: after Admit succeeded, by inserting the batch or by finding it,
-- a valid request of the same administrator with the same key, whatever else it asks for, changes
-- nothing: with the same digest it succeeds with that batch, no sessions and no creation, with
-- another digest it fails with ErrConflict.
pub admit_repeated :
    (env env' : Surroundings) (input input' : Admission) (purpose : Purpose) (db : Db)
    (r : AdmissionResult) (db' : Db)
    → admit env input db ≡ ok r db'
    → is_valid_request input'.count input'.key input'.session ≡ true
    → purpose_of input'.purpose ≡ some purpose
    → input'.admin_id ≡ input.admin_id
    → input'.key ≡ input.key
    → admit env' input' db' ≡ (
        if str_eq input.digest input'.digest
        then ok (record { batch = r.batch; sessions = []; created = false }) db'
        else err pool_conflict db')
admit_repeated env env' input input' purpose db r db' h valid p admin key =
    let (found, digest) = admit-IsFound env input db r db' h in
    let here : find (is_batch_of input'.admin_id input'.key) db'.batches ≡ some r.batch =
      rw (admin, key) found in
    admit-again env' input' purpose db' r.batch valid p here
    ∙ ap
        (λ d.
          if str_eq d input'.digest
          then ok (record { batch = r.batch; sessions = []; created = false }) db'
          else err pool_conflict db')
        digest
