-- ===== src/Connection/Change.antt =====
-- `change` of internal/connection/store.go: what it does to the table, that a new reservation never
-- meets another active one of its session, and that the table stays valid.
use vtafarm_api.Base.{
  ℕ, ◌-◌, ◌*◌, ◌<◌, ◌≡◌, refl, ◌∙◌, sym, ap, Bool, true, false, ◌&&◌, List, [], ◌∷◌, ◌++◌, Option,
  none, some, arith, inl, inr, find, find_holds, ==→eq, ◌==◌, when, if◌then◌else◌, update_where,
  Option-cases, Bool-cases, ltb, All, All-imp, All-map, any, any-false,
}
use mathlib.Core.Path.{subst}
use mathlib.Core.Option.{some-injective}
use vtafarm_api.Store.{
  ClaimStatus, SetupSession, Operation, MobileConnection, Db, Tx, ok, err, Outcome, transaction,
  throw, return, cooldown,
}
use vtafarm_api.Connection.Rules.{
  second, is_open, is_active, lapse, withdraw, latest, newer, clashes, operation_for,
  create_connection,
}
use vtafarm_api.Connection.Reserve.{
  Action, cancel, is_create, Fresh, act, change, reserve, cancel_current, settle_current,
  settle_status, new_reservation, pool_agrees, expected_is,
}
use vtafarm_api.Connection.Lifecycle.{Moves, IsStamped}
use vtafarm_api.Connection.Moves.{lapse-Moves, withdraw_open-Moves}
use vtafarm_api.Connection.Table.{by_id, Evolves-append}
use vtafarm_api.Connection.Valid.{IsNewest, append-IsValid, latest-All}
use vtafarm_api.Connection.Grows.{
  table, Grows, Grows-refl, Grows-trans, Grows-eq, Grows-by_id, transaction-Grows,
}

-- All rows of a session are older than a time.
abbrev IsOlder : ℕ → ℕ → List MobileConnection → Type 0
IsOlder now session_id cs = All (λ c. c.session_id ≡ session_id → c.created_at < now) cs

-- The table once the way is free for a new row, and the way there.
abbrev Settled : ℕ → ℕ → List MobileConnection → List MobileConnection → Type 0
Settled now session_id cs ds = Grows cs ds × IsOlder now session_id ds

IsOlder-latest :
    (now session_id : ℕ) (cs : List MobileConnection)
    → ((m : MobileConnection) → latest session_id cs ≡ some m → m.created_at < now)
    → IsOlder now session_id cs
unfolding latest
IsOlder-latest now session_id [] h = tt
IsOlder-latest now session_id (c ∷ cs) h = (head, IsOlder-latest now session_id cs tail)
  where
    tail : (d : MobileConnection) → latest session_id cs ≡ some d → d.created_at < now
    tail d e = ground (arith, h c, h d)

    head : c.session_id ≡ session_id → c.created_at < now
    head e = elim (Option-cases (latest session_id cs)) [
      | inl n ↦ ground (arith, h c)
      | inr (d, n) ↦ ground (arith, h c, h d)
    ]

new-IsStamped :
    (now : ℕ) (fresh : Fresh) (s : SetupSession) (operation : Operation)
    → IsStamped (new_reservation now fresh s operation)
unfolding new_reservation
new-IsStamped now fresh s operation = ground arith

IsNewest-new :
    (now : ℕ) (fresh : Fresh) (s : SetupSession) (operation : Operation)
    (cs : List MobileConnection)
    → IsOlder now s.id cs
    → IsNewest (new_reservation now fresh s operation) cs
unfolding new_reservation newer
IsNewest-new now fresh s operation cs h =
    All-imp (λ c. c.session_id ≡ s.id → c.created_at < now)
      (λ c. c.session_id ≡ s.id → newer (new_reservation now fresh s operation) c ≡ true) cs
      (λ c k e. ground (arith, k e)) h

insert-Grows :
    (now : ℕ) (fresh : Fresh) (s : SetupSession) (operation : Operation)
    (cs : List MobileConnection)
    → IsOlder now s.id cs
    → any (clashes (new_reservation now fresh s operation)) cs ≡ false
    → Grows cs (cs ++ new_reservation now fresh s operation ∷ [])
insert-Grows now fresh s operation cs h a v = (
  append-IsValid r cs active (new-IsStamped now fresh s operation) (any-false (clashes r) cs a)
      (IsNewest-new now fresh s operation cs h) v,
  Evolves-append cs r status,
)
  where
    r : MobileConnection
    r = new_reservation now fresh s operation

    status : r.status ≡ ClaimStatus.open_
    status = unfold new_reservation in refl

    active : is_active r.status ≡ true
    active = unfold new_reservation in refl

create-Grows :
    (now : ℕ) (fresh : Fresh) (s : SetupSession) (operation : Operation) (d : Db)
    → IsOlder now s.id d.connections
    → Grows d.connections (table (create_connection (new_reservation now fresh s operation) d))
unfolding create_connection
create-Grows now fresh s operation d h =
    elim (Bool-cases (any (clashes (new_reservation now fresh s operation)) d.connections)) [
      | inl e ↦ rw (e, create_connection) (Grows-refl d.connections)
      | inr e ↦ rw (e, create_connection) (insert-Grows now fresh s operation d.connections h e)
    ]

-- What the `switch` on the current row leaves: a refusal, the row that is still open, or a table to
-- which a new row of the session can be added.
abbrev IsSettled : ℕ → ℕ → Db → Outcome (Option MobileConnection) → Type 0
IsSettled now session_id db (err e d) = d.connections ≡ db.connections
IsSettled now session_id db (ok (some c) d) = d.connections ≡ db.connections
IsSettled now session_id db (ok none d) =
    Grows db.connections d.connections × IsOlder now session_id d.connections

older :
    (now session_id : ℕ) (cs : List MobileConnection) (c : MobileConnection)
    → latest session_id cs ≡ some c
    → c.created_at < now
    → IsOlder now session_id cs
older now session_id cs c e h =
    IsOlder-latest now session_id cs
      (λ m k. subst (λ x. x.created_at < now) (some-injective c m (sym e ∙ k)) h)

lapsed-IsOlder :
    (now session_id id : ℕ) (cs : List MobileConnection)
    → IsOlder now session_id cs
    → IsOlder now session_id (update_where (by_id id) lapse cs)
lapsed-IsOlder now session_id id cs h =
    All-map (λ c. c.session_id ≡ session_id → c.created_at < now)
      (λ c. c.session_id ≡ session_id → c.created_at < now) (when (by_id id) lapse) cs
      (λ c k. ground arith) h

Grows-latest :
    (f : MobileConnection → MobileConnection) (session_id : ℕ) (cs : List MobileConnection)
    (r : MobileConnection)
    → latest session_id cs ≡ some r
    → Moves r (f r)
    → Grows cs (update_where (by_id r.id) f cs)
Grows-latest f session_id cs r e m v =
    Grows-by_id (by_id r.id) f cs r
      (latest-All (λ c. find (by_id c.id) cs ≡ some c) session_id cs r v.unique e) m v

-- The row is old enough for another: it stays, if it is final.
wait_over :
    (now session_id : ℕ) (db : Db) (c : MobileConnection)
    → latest session_id db.connections ≡ some c
    → IsSettled now session_id db
        ((if ltb (now - c.created_at) (5 * second) then throw cooldown else return none) db)
wait_over now session_id db c e = elim (Bool-cases (ltb (now - c.created_at) (5 * second))) [
  | inl h ↦ rw h refl
  | inr h ↦ rw h (Grows-refl db.connections, older now session_id db.connections c e (ground arith))
]

-- The row is still open, and is written as lapsed.
settle_open-IsSettled :
    (now : ℕ) (action : Action) (session_id : ℕ) (db : Db) (c : MobileConnection)
    → latest session_id db.connections ≡ some c
    → is_open c.status ≡ true
    → IsSettled now session_id db (settle_status ClaimStatus.open_ now action c db)
unfolding settle_status
settle_open-IsSettled now action session_id db c e o =
    elim (Bool-cases (ltb now c.expires_at && is_create action)) [
      | inl h ↦ rw h refl
      | inr h ↦ elim (Bool-cases (ltb (now - c.created_at) (5 * second))) [
        | inl k ↦ rw (h, k) refl
        | inr k ↦
            rw (h, k)
              (
                Grows-latest lapse session_id db.connections c e (lapse-Moves c o),
                lapsed-IsOlder now session_id c.id db.connections
                    (older now session_id db.connections c e (ground arith)),
              )
      ]
    ]

settle_status-IsSettled :
    (now : ℕ) (action : Action) (session_id : ℕ) (db : Db) (c : MobileConnection)
    → latest session_id db.connections ≡ some c
    → (st : ClaimStatus) → c.status ≡ st
    → IsSettled now session_id db (settle_status st now action c db)
unfolding settle_status
settle_status-IsSettled now action session_id db c e ClaimStatus.open_ h =
    settle_open-IsSettled now action session_id db c e (ap is_open h)
settle_status-IsSettled now action session_id db c e ClaimStatus.claimed h = refl
settle_status-IsSettled now action session_id db c e ClaimStatus.confirmed h = refl
settle_status-IsSettled now action session_id db c e ClaimStatus.provisioning h = refl
settle_status-IsSettled now action session_id db c e _ h = wait_over now session_id db c e

settle-IsSettled :
    (now : ℕ) (action : Action) (session_id : ℕ) (db : Db) (o : Option MobileConnection)
    → latest session_id db.connections ≡ o
    → IsSettled now session_id db (settle_current now action o db)
unfolding settle_current
settle-IsSettled now action session_id db none e =
    (Grows-refl db.connections, IsOlder-latest now session_id db.connections (λ m k. cc))
settle-IsSettled now action session_id db (some c) e =
    settle_status-IsSettled now action session_id db c e c.status refl

-- The rest of the reservation: the row that is still open is returned, or a row is added.
finish_settled :
    (now : ℕ) (fresh : Fresh) (s : SetupSession) (operation : Operation) (db : Db)
    (o : Outcome (Option MobileConnection))
    → IsSettled now s.id db o
    → Grows db.connections (
        table (elim o [
          | ok settled d ↦
              (elim settled as (λ x. Tx MobileConnection) [
                | some c ↦ return c
                | none ↦ create_connection (new_reservation now fresh s operation)
              ])
                d
          | err e d ↦ err e d
        ]))
finish_settled now fresh s operation db (err e d) h = Grows-eq _ _ _ h (Grows-refl db.connections)
finish_settled now fresh s operation db (ok (some c) d) h =
    Grows-eq _ _ _ h (Grows-refl db.connections)
finish_settled now fresh s operation db (ok none d) h =
    Grows-trans db.connections d.connections _ h.0 (create-Grows now fresh s operation d h.1)

reserve-Grows :
    (now : ℕ) (fresh : Fresh) (action : Action) (pooled : Bool) (s : SetupSession) (db : Db)
    → Grows db.connections
        (table (reserve now fresh action pooled s (latest s.id db.connections) db))
unfolding reserve
reserve-Grows now fresh action pooled s db = elim (Option-cases (operation_for s s.vta_did)) [
  | inl e ↦ rw e (Grows-refl db.connections)
  | inr (operation, e) ↦ elim (Bool-cases (pool_agrees pooled s operation)) [
    | inr h ↦ rw (e, h) (Grows-refl db.connections)
    | inl h ↦
        rw (e, h)
          (finish_settled now fresh s operation db
            (settle_current now action (latest s.id db.connections) db)
            (settle-IsSettled now action s.id db (latest s.id db.connections) refl))
  ]
]

cancel-Grows :
    (session_id : ℕ) (db : Db) (o : Option MobileConnection)
    → latest session_id db.connections ≡ o
    → Grows db.connections (table (cancel_current o db))
unfolding cancel_current
cancel-Grows session_id db none e = Grows-refl db.connections
cancel-Grows session_id db (some c) e = elim (Bool-cases (is_open c.status)) [
  | inl o ↦ rw o (
      Grows-latest (withdraw ClaimStatus.lapsed) session_id db.connections c e
        (withdraw_open-Moves c o))
  | inr o ↦ rw o (Grows-refl db.connections)
]

act-Grows :
    (now : ℕ) (fresh : Fresh) (action : Action) (pooled : Bool) (s : SetupSession) (db : Db)
    → Grows db.connections (table (act now fresh action pooled s (latest s.id db.connections) db))
unfolding act
act-Grows now fresh cancel pooled s db = cancel-Grows s.id db (latest s.id db.connections) refl
act-Grows now fresh action pooled s db = reserve-Grows now fresh action pooled s db

pub change-Grows :
    (now : ℕ) (fresh : Fresh) (session_id : ℕ) (action : Action) (expected : Option ℕ)
    (pooled : Bool) (db : Db)
    → Grows db.connections (table (change now fresh session_id action expected pooled db))
unfolding change
change-Grows now fresh session_id action expected pooled db =
    elim (Option-cases (find (λ s. s.id == session_id) db.sessions)) [
      | inl e ↦ Grows-eq _ db.connections _ (ground arith) (Grows-refl db.connections)
      | inr (s, e) ↦ elim (Bool-cases (expected_is expected (latest session_id db.connections))) [
        | inr h ↦ Grows-eq _ db.connections _ (ground arith) (Grows-refl db.connections)
        | inl h ↦
            Grows-eq _
              (table
                (transaction (act now fresh action pooled s (latest session_id db.connections)) db))
              _ (ground arith)
              (transaction-Grows db
                (act now fresh action pooled s (latest session_id db.connections) db)
                (subst
                  (λ k.
                    Grows db.connections
                      (table (act now fresh action pooled s (latest k db.connections) db)))
                  (==→eq s.id session_id (find_holds _ db.sessions s e))
                  (act-Grows now fresh action pooled s db)))
      ]
    ]
