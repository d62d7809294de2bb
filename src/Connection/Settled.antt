-- ===== src/Connection/Settled.antt =====
-- The operations of internal/connection/store.go that end reservations, or renew the lease on
-- their redeem polls, keep the table valid and move its rows along the lifecycle.
use vtafarm_api.Base.{
  ℕ, ◌≡◌, refl, String, Bool, true, false, not, ◌&&◌, ◌||◌, List, Option, some, arith, ◌⊎◌, inl,
  inr, find, ◌==◌, ◌+◌, str_eq, if◌then◌else◌, update_where, Option-cases, Bool-cases, is_some, ltb,
}
use vtafarm_api.Store.{ClaimStatus, SetupSession, MobileConnection, Db, ◌>>◌, return}
use vtafarm_api.Connection.Rules.{
  is_open, is_claimed, is_confirmed, is_provisioning, lapse, withdraw,
}
use vtafarm_api.Connection.Claim.{is_before}
use vtafarm_api.Connection.Provision.{
  mark_released, mark_failed, expire_open, expire_claimed, is_provisioned, reconcile,
}
use vtafarm_api.Connection.Settle.{
  accept_manual, cancel_pending, stop, acquire_redeem_poll, release_redeem_poll, hold_poll,
  may_poll,
}
use vtafarm_api.Connection.Moves.{
  lapse-Moves, withdraw_open-Moves, withdraw_claimed-Moves, cancel_confirmed-Moves,
  cancel_provisioning-Moves, fail_confirmed-Moves, fail_provisioning-Moves, hold_poll-Moves,
  free_poll-Moves,
}
use vtafarm_api.Connection.Grows.{
  table, then-Grows, Grows, Grows-refl, Grows-trans, Grows-eq, Grows-where,
}
use vtafarm_api.Connection.Steps.{mark_released-Grows}

and_left : (a b : Bool) → (a && b) ≡ true → a ≡ true
and_left a b h = ground arith

and_right : (a b : Bool) → (a && b) ≡ true → b ≡ true
and_right a b h = ground arith

or_cases : (a b : Bool) → (a || b) ≡ true → (a ≡ true) ⊎ (b ≡ true)
or_cases true b h = inl refl
or_cases false b h = inr h

pub mark_failed-Grows :
    (id : ℕ) (reason : String) (db : Db) → Grows db.connections (table (mark_failed id reason db))
unfolding mark_failed
mark_failed-Grows id reason db = Grows-where _ _ db.connections λ c h.
    elim (or_cases _ _ (and_right _ _ h)) [
      | inl s ↦ fail_confirmed-Moves c reason s
      | inr s ↦ fail_provisioning-Moves c reason s
    ]

expire_open-Grows :
    (now : ℕ) (r : MobileConnection) (db : Db) → Grows db.connections (table (expire_open now r db))
unfolding expire_open
expire_open-Grows now r db = elim (Bool-cases (is_open r.status && not (ltb now r.expires_at))) [
  | inl e ↦
      rw (e, expire_open) (Grows-where _ _ db.connections λ c h. lapse-Moves c (and_right _ _ h))
  | inr e ↦ rw (e, expire_open) (Grows-refl db.connections)
]

expire_claimed-Grows :
    (now : ℕ) (r : MobileConnection) (db : Db)
    → Grows db.connections (table (expire_claimed now r db))
unfolding expire_claimed
expire_claimed-Grows now r db =
    elim (Bool-cases
      (is_claimed r.status && is_some r.confirm_by && not (is_before now r.confirm_by))) [
        | inl e ↦
            rw (e, expire_claimed)
              (Grows-where _ _ db.connections λ c h. withdraw_claimed-Moves c (and_right _ _ h))
        | inr e ↦ rw (e, expire_claimed) (Grows-refl db.connections)
      ]

release_if-Grows :
    (digest : String → String) (later id : ℕ) (b : Bool) (db : Db)
    → Grows db.connections (table ((if b then mark_released digest later id else return tt) db))
release_if-Grows digest later id true db = mark_released-Grows digest later id db
release_if-Grows digest later id false db = Grows-refl db.connections

pub reconcile-Grows :
    (digest : String → String) (now later : ℕ) (r : MobileConnection) (s : SetupSession) (db : Db)
    → Grows db.connections (table (reconcile digest now later r s db))
unfolding reconcile
reconcile-Grows digest now later r s db =
    then-Grows db.connections (expire_open now r db)
      (expire_claimed now r
        >> (if is_provisioned r s then mark_released digest later r.id else return tt))
      (expire_open-Grows now r db)
      λ d.
        then-Grows d.connections (expire_claimed now r d)
          (if is_provisioned r s then mark_released digest later r.id else return tt)
          (expire_claimed-Grows now r d) (release_if-Grows digest later r.id (is_provisioned r s))

lapse_open-Grows :
    (session_id : ℕ) (cs : List MobileConnection)
    → Grows cs (update_where (λ c. c.session_id == session_id && is_open c.status) lapse cs)
lapse_open-Grows session_id cs = Grows-where _ _ cs λ c h. lapse-Moves c (and_right _ _ h)

manual_cases :
    (validate : String → Option String) (now session_id : ℕ) (value : String) (resume : Bool)
    (db : Db)
    → (table (accept_manual validate now session_id value resume db) ≡ db.connections)
      ⊎ ((s : SetupSession) × (find (λ s. s.id == session_id) db.sessions ≡ some s)
          × (table (accept_manual validate now session_id value resume db)
              ≡ update_where (λ c. c.session_id == s.id && is_open c.status) lapse db.connections))
unfolding accept_manual
manual_cases validate now session_id value resume db = ground arith

pub accept_manual-Grows :
    (validate : String → Option String) (now session_id : ℕ) (value : String) (resume : Bool)
    (db : Db)
    → Grows db.connections (table (accept_manual validate now session_id value resume db))
accept_manual-Grows validate now session_id value resume db =
    elim (manual_cases validate now session_id value resume db) [
      | inl e ↦ Grows-eq _ _ _ e (Grows-refl db.connections)
      | inr (s, _, e) ↦ Grows-eq _ _ _ e (lapse_open-Grows s.id db.connections)
    ]

pub cancel_pending-Grows :
    (session_id : ℕ) (db : Db) → Grows db.connections (table (cancel_pending session_id db))
unfolding cancel_pending
cancel_pending-Grows session_id db =
    elim (Option-cases (find (λ s. s.id == session_id) db.sessions)) [
      | inl e ↦ Grows-eq _ _ _ (ground arith) (Grows-refl db.connections)
      | inr (s, e) ↦ Grows-eq _ _ _ (ground arith) (lapse_open-Grows session_id db.connections)
    ]

-- The two updates of Stop.
abbrev lapse_waiting : ℕ → List MobileConnection → List MobileConnection
lapse_waiting session_id =
    update_where (λ c. c.session_id == session_id && (is_open c.status || is_claimed c.status))
      (withdraw ClaimStatus.lapsed)

abbrev cancel_started : ℕ → List MobileConnection → List MobileConnection
cancel_started session_id =
    update_where
      (λ c. c.session_id == session_id && (is_confirmed c.status || is_provisioning c.status))
      (withdraw ClaimStatus.cancelled)

lapse_waiting-Grows :
    (session_id : ℕ) (cs : List MobileConnection) → Grows cs (lapse_waiting session_id cs)
lapse_waiting-Grows session_id cs = Grows-where _ _ cs λ c h.
    elim (or_cases _ _ (and_right _ _ h)) [
      | inl s ↦ withdraw_open-Moves c s
      | inr s ↦ withdraw_claimed-Moves c s
    ]

cancel_started-Grows :
    (session_id : ℕ) (cs : List MobileConnection) → Grows cs (cancel_started session_id cs)
cancel_started-Grows session_id cs = Grows-where _ _ cs λ c h.
    elim (or_cases _ _ (and_right _ _ h)) [
      | inl s ↦ cancel_confirmed-Moves c s
      | inr s ↦ cancel_provisioning-Moves c s
    ]

pub stop-Grows : (session_id : ℕ) (db : Db) → Grows db.connections (table (stop session_id db))
unfolding stop
stop-Grows session_id db = elim (Option-cases (find (λ s. s.id == session_id) db.sessions)) [
  | inl e ↦ Grows-eq _ _ _ (ground arith) (Grows-refl db.connections)
  | inr (s, e) ↦
      Grows-eq db.connections (cancel_started session_id (lapse_waiting session_id db.connections))
        _ (ground arith)
        (Grows-trans db.connections (lapse_waiting session_id db.connections) _
          (lapse_waiting-Grows session_id db.connections) (cancel_started-Grows session_id _))
]

pub acquire_redeem_poll-Grows :
    (now id : ℕ) (poll_id : String) (lease : ℕ) (db : Db)
    → Grows db.connections (table (acquire_redeem_poll now id poll_id lease db))
unfolding acquire_redeem_poll
acquire_redeem_poll-Grows now id poll_id lease db =
    elim (Bool-cases (str_eq poll_id "" || lease == 0)) [
      | inl e ↦ Grows-eq _ _ _ (ground arith) (Grows-refl db.connections)
      | inr e ↦ Grows-eq _ _ _ (ground arith) (
          Grows-where (may_poll now id) (hold_poll poll_id (now + lease)) db.connections
            λ c h. hold_poll-Moves c poll_id (now + lease))
    ]

pub release_redeem_poll-Grows :
    (id : ℕ) (poll_id : String) (db : Db)
    → Grows db.connections (table (release_redeem_poll id poll_id db))
unfolding release_redeem_poll
release_redeem_poll-Grows id poll_id db = Grows-where _ _ db.connections λ c h. free_poll-Moves c
