-- ===== src/Connection/Duplicate.antt =====
-- `change` of internal/connection/store.go against the unique indexes of the table: it makes room
-- for the reservation that it creates.
use vtafarm_api.Base.{
  ℕ, ◌-◌, ◌*◌, ◌≡◌, refl, ◌∙◌, sym, ap, Bool, true, false, ◌&&◌, List, [], ◌∷◌, Option, none, some,
  arith, find, ◌==◌, All, All-imp, All-map₂, if◌then◌else◌, Option-cases, Bool-cases, inl, inr, ltb,
  update_where, when, any_of_All, find_holds, ==→eq, ==_refl,
}
use mathlib.Core.Path.{subst}
use mathlib.Core.Option.{some-injective}
use vtafarm_api.Store.{
  ClaimStatus, Operation, SetupSession, MobileConnection, Db, Tx, Outcome, ok, err, Error,
  duplicate_key, transaction, throw, return, cooldown,
}
use vtafarm_api.Connection.Rules.{
  second, is_active, same_text, lapse, latest, clashes, create_connection, operation_for,
}
use vtafarm_api.Connection.Reserve.{
  Action, cancel, is_create, Fresh, act, change, reserve, cancel_current, settle_current,
  settle_status, new_reservation, pool_agrees, expected_is,
}
use vtafarm_api.Connection.Table.{by_id, IsTidy, IsValid}

abbrev pub is_duplicate_key : Error → Bool
is_duplicate_key duplicate_key = true
is_duplicate_key _ = false

abbrev pub is_duplicate : {A : Type 0} → Outcome A → Bool
is_duplicate (ok a d) = false
is_duplicate (err e d) = is_duplicate_key e

-- The uuid and the handle that were drawn are in no row.
abbrev pub IsFresh : Fresh → List MobileConnection → Type 0
IsFresh fresh cs =
    All
      (λ c. ((c.id == fresh.uuid) ≡ false) × (same_text c.claim_handle (some fresh.handle) ≡ false))
      cs

-- No row of the session is active.
abbrev IsIdle : ℕ → List MobileConnection → Type 0
IsIdle session_id cs = All (λ c. c.session_id ≡ session_id → is_active c.status ≡ false) cs

module _ (session_id : ℕ) (cs : List MobileConnection) (t : IsTidy cs) where
  IsIdle-none : latest session_id cs ≡ none → IsIdle session_id cs
  IsIdle-none n =
      All-imp
        (λ c. c.session_id ≡ session_id → is_active c.status ≡ true → latest session_id cs ≡ some c)
        (λ c. c.session_id ≡ session_id → is_active c.status ≡ false) cs
        (λ c k e. elim (Bool-cases (is_active c.status)) [ inl a ↦ cc (k e a, n) | inr a ↦ a ])
        (t session_id)

  IsIdle-final :
      (r : MobileConnection)
      → latest session_id cs ≡ some r
      → is_active r.status ≡ false
      → IsIdle session_id cs
  IsIdle-final r n h =
      All-imp
        (λ c. c.session_id ≡ session_id → is_active c.status ≡ true → latest session_id cs ≡ some c)
        (λ c. c.session_id ≡ session_id → is_active c.status ≡ false) cs
        (λ c k e. elim (Bool-cases (is_active c.status)) [
          | inl a ↦ absurd (
              cc (
                a,
                h,
                ap (λ (x : MobileConnection). is_active x.status)
                    (some-injective c r (sym (k e a) ∙ n)),
              ))
          | inr a ↦ a
        ])
        (t session_id)

  IsIdle-lapsed :
      (r : MobileConnection)
      → latest session_id cs ≡ some r
      → IsIdle session_id (update_where (by_id r.id) lapse cs)
  IsIdle-lapsed r n =
      All-map₂
        (λ c. c.session_id ≡ session_id → is_active c.status ≡ true → latest session_id cs ≡ some c)
        (λ c. c.session_id ≡ session_id → is_active c.status ≡ true → latest session_id cs ≡ some c)
        (λ c. c.session_id ≡ session_id → is_active c.status ≡ false) (when (by_id r.id) lapse) cs
        one (t session_id) (t session_id)
    where
      one :
          (c : MobileConnection)
          → (c.session_id ≡ session_id → is_active c.status ≡ true → latest session_id cs ≡ some c)
          → (c.session_id ≡ session_id → is_active c.status ≡ true → latest session_id cs ≡ some c)
          → (when (by_id r.id) lapse c).session_id ≡ session_id
          → is_active (when (by_id r.id) lapse c).status ≡ false
      one c k _ e = elim (Bool-cases (by_id r.id c)) [
        | inl b ↦ rw b refl
        | inr b ↦ elim (Bool-cases (is_active c.status)) [
          | inl a ↦ absurd (
              cc (
                b,
                ==_refl r.id,
                ap (λ (x : MobileConnection). by_id r.id x)
                    (some-injective c r (sym (k (rw b at e) a) ∙ n)),
              ))
          | inr a ↦ rw b a
        ]
      ]

module _ (now : ℕ) (fresh : Fresh) (action : Action) where
  lapsed-IsFresh :
      (id : ℕ) (cs : List MobileConnection)
      → IsFresh fresh cs
      → IsFresh fresh (update_where (by_id id) lapse cs)
  lapsed-IsFresh id [] h = tt
  lapsed-IsFresh id (c ∷ cs) h = ((ground arith, ground arith), lapsed-IsFresh id cs h.1)

  -- Where `settle_current` makes room: for a row with a fresh id and a fresh handle.
  abbrev HasRoom : ℕ → Outcome (Option MobileConnection) → Type 0
  HasRoom session_id (err e d) = is_duplicate_key e ≡ false
  HasRoom session_id (ok (some c) d) = Unit
  HasRoom session_id (ok none d) = IsIdle session_id d.connections × IsFresh fresh d.connections

  settle_final-HasRoom :
      (session_id : ℕ) (db : Db) (c : MobileConnection)
      → IsIdle session_id db.connections
      → IsFresh fresh db.connections
      → HasRoom session_id
          ((if ltb (now - c.created_at) (5 * second) then throw cooldown else return none) db)
  settle_final-HasRoom session_id db c i f =
      elim (Bool-cases (ltb (now - c.created_at) (5 * second))) [
        | inl h ↦ rw h refl
        | inr h ↦ rw h (i, f)
      ]

  settle_open-HasRoom :
      (session_id : ℕ) (db : Db) (c : MobileConnection)
      → IsTidy db.connections
      → IsFresh fresh db.connections
      → latest session_id db.connections ≡ some c
      → HasRoom session_id (settle_status ClaimStatus.open_ now action c db)
  unfolding settle_status
  settle_open-HasRoom session_id db c t f e =
      elim (Bool-cases (ltb now c.expires_at && is_create action)) [
        | inl h ↦ rw h tt
        | inr h ↦ elim (Bool-cases (ltb (now - c.created_at) (5 * second))) [
          | inl k ↦ rw (h, k) refl
          | inr k ↦
              rw (h, k)
                (
                  IsIdle-lapsed session_id db.connections t c e,
                  lapsed-IsFresh c.id db.connections f,
                )
        ]
      ]

  settle_status-HasRoom :
      (session_id : ℕ) (db : Db) (c : MobileConnection)
      → IsTidy db.connections
      → IsFresh fresh db.connections
      → latest session_id db.connections ≡ some c
      → (st : ClaimStatus) → c.status ≡ st
      → HasRoom session_id (settle_status st now action c db)
  unfolding settle_status
  settle_status-HasRoom session_id db c t f e ClaimStatus.open_ h =
      settle_open-HasRoom session_id db c t f e
  settle_status-HasRoom session_id db c t f e ClaimStatus.claimed h = refl
  settle_status-HasRoom session_id db c t f e ClaimStatus.confirmed h = refl
  settle_status-HasRoom session_id db c t f e ClaimStatus.provisioning h = refl
  settle_status-HasRoom session_id db c t f e _ h =
      settle_final-HasRoom session_id db c
        (IsIdle-final session_id db.connections t c e (ap is_active h)) f

  settle-HasRoom :
      (session_id : ℕ) (db : Db) (o : Option MobileConnection)
      → IsTidy db.connections
      → IsFresh fresh db.connections
      → latest session_id db.connections ≡ o
      → HasRoom session_id (settle_current now action o db)
  unfolding settle_current
  settle-HasRoom session_id db none t f e = (IsIdle-none session_id db.connections t e, f)
  settle-HasRoom session_id db (some c) t f e =
      settle_status-HasRoom session_id db c t f e c.status refl

  -- A row with a fresh id and handle fits a table without an active row of its session.
  fits :
      (s : SetupSession) (operation : Operation) (c : MobileConnection)
      → (c.session_id ≡ s.id → is_active c.status ≡ false)
      → (c.id == fresh.uuid) ≡ false
      → same_text c.claim_handle (some fresh.handle) ≡ false
      → clashes (new_reservation now fresh s operation) c ≡ false
  unfolding clashes new_reservation
  fits s operation c i f g = elim (Bool-cases (c.session_id == s.id)) [
    | inl e ↦ rw (f, g, i (==→eq c.session_id s.id e)) refl
    | inr e ↦ ground arith
  ]

  create_fresh :
      (s : SetupSession) (operation : Operation) (d : Db)
      → IsIdle s.id d.connections
      → IsFresh fresh d.connections
      → is_duplicate (create_connection (new_reservation now fresh s operation) d) ≡ false
  unfolding create_connection
  create_fresh s operation d i f =
      rw
        (
          any_of_All (clashes (new_reservation now fresh s operation)) d.connections
              (all d.connections i f),
          create_connection,
        )
        refl
    where
      all :
          (cs : List MobileConnection)
          → IsIdle s.id cs
          → IsFresh fresh cs
          → All (λ c. clashes (new_reservation now fresh s operation) c ≡ false) cs
      all [] i f = tt
      all (c ∷ cs) i f = (fits s operation c i.0 f.0.0 f.0.1, all cs i.1 f.1)

  finish :
      (s : SetupSession) (operation : Operation) (o : Outcome (Option MobileConnection))
      → HasRoom s.id o
      → is_duplicate (elim o [
        | ok settled d ↦
            (elim settled as (λ x. Tx MobileConnection) [
              | some c ↦ return c
              | none ↦ create_connection (new_reservation now fresh s operation)
            ])
              d
        | err e d ↦ err e d
      ])
        ≡ false
  finish s operation (err e d) h = h
  finish s operation (ok (some c) d) h = refl
  finish s operation (ok none d) h = create_fresh s operation d h.0 h.1

  reserve_fresh :
      (pooled : Bool) (s : SetupSession) (db : Db)
      → IsTidy db.connections
      → IsFresh fresh db.connections
      → is_duplicate (reserve now fresh action pooled s (latest s.id db.connections) db) ≡ false
  unfolding reserve
  reserve_fresh pooled s db t f = elim (Option-cases (operation_for s s.vta_did)) [
    | inl e ↦ rw e refl
    | inr (operation, e) ↦ elim (Bool-cases (pool_agrees pooled s operation)) [
      | inr h ↦ rw (e, h) refl
      | inl h ↦
          rw (e, h)
            (finish s operation (settle_current now action (latest s.id db.connections) db)
              (settle-HasRoom s.id db (latest s.id db.connections) t f refl))
    ]
  ]

cancel_fresh : (o : Option MobileConnection) (db : Db) → is_duplicate (cancel_current o db) ≡ false
unfolding cancel_current
cancel_fresh none db = refl
cancel_fresh (some c) db = ground arith

act_fresh :
    (now : ℕ) (fresh : Fresh) (action : Action) (pooled : Bool) (s : SetupSession) (db : Db)
    → IsTidy db.connections
    → IsFresh fresh db.connections
    → is_duplicate (act now fresh action pooled s (latest s.id db.connections) db) ≡ false
unfolding act
act_fresh now fresh cancel pooled s db t f = cancel_fresh (latest s.id db.connections) db
act_fresh now fresh action pooled s db t f = reserve_fresh now fresh action pooled s db t f

transaction_duplicate :
    {A : Type 0} (db : Db) (o : Outcome A)
    → is_duplicate o ≡ false
    → is_duplicate (elim o as (λ x. Outcome A) [ ok a d ↦ ok a d | err e d ↦ err e db ]) ≡ false
transaction_duplicate db (ok a d) h = refl
transaction_duplicate db (err e d) h = h

-- In a valid table, creating, refreshing or cancelling a reservation with a fresh uuid and a fresh
-- handle never violates a unique index.
pub change_no_duplicate :
    (now : ℕ) (fresh : Fresh) (session_id : ℕ) (action : Action) (expected : Option ℕ)
    (pooled : Bool) (db : Db)
    → IsValid db.connections
    → IsFresh fresh db.connections
    → is_duplicate (change now fresh session_id action expected pooled db) ≡ false
unfolding change
change_no_duplicate now fresh session_id action expected pooled db v f =
    elim (Option-cases (find (λ s. s.id == session_id) db.sessions)) [
      | inl e ↦ ground arith
      | inr (s, e) ↦ elim (Bool-cases (expected_is expected (latest session_id db.connections))) [
        | inr h ↦ ground arith
        | inl h ↦
            ap is_duplicate (at s e h)
            ∙ transaction_duplicate db
                (act now fresh action pooled s (latest session_id db.connections) db)
                (subst
                  (λ k.
                    is_duplicate (act now fresh action pooled s (latest k db.connections) db)
                    ≡ false)
                  (==→eq s.id session_id (find_holds _ db.sessions s e))
                  (act_fresh now fresh action pooled s db v.tidy f))
      ]
    ]
  where
    at :
        (s : SetupSession)
        → find (λ s. s.id == session_id) db.sessions ≡ some s
        → expected_is expected (latest session_id db.connections) ≡ true
        → change now fresh session_id action expected pooled db
          ≡ transaction (act now fresh action pooled s (latest session_id db.connections)) db
    at s e h = ground arith
