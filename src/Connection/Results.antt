-- ===== src/Connection/Results.antt =====
-- What the single operations of internal/connection/store.go return and write.
use vtafarm_api.Base.{
  ℕ, ◌≡◌, true, false, ◌&&◌, some, arith, find, ◌==◌, Option-cases, inl, inr, ◌⊎◌, update_where,
}
use vtafarm_api.Store.{provision_vta, SetupSession, MobileConnection, Db, err, expired, after}
use vtafarm_api.Connection.Rules.{is_claimed, is_confirmed}
use vtafarm_api.Connection.Claim.{confirm, reject, is_before}
use vtafarm_api.Connection.Provision.{start_provisioning, admit_admin, provision_status}

-- A claimed reservation of a session that is there, past its deadline or without one: Confirm and
-- Reject fail as expired, and since the transaction is rolled back the row stays claimed, with its
-- administrator DID.
pub confirmation_expired :
    (now session_id id : ℕ) (db : Db) (r : MobileConnection) (s : SetupSession)
    → find (λ s. s.id == session_id) db.sessions ≡ some s
    → find (λ c. c.id == id && c.session_id == session_id) db.connections ≡ some r
    → is_claimed r.status ≡ true
    → is_before now r.confirm_by ≡ false
    → (confirm now session_id id db ≡ err expired db)
      × (reject now session_id id db ≡ err expired db)
unfolding confirm reject
confirmation_expired now session_id id db r s g f c h = (ground arith, ground arith)

start_read :
    (now id : ℕ) (db : Db) (r : MobileConnection) (s : SetupSession)
    → find (λ c. c.id == id) db.connections ≡ some r
    → find (λ s. s.id == r.session_id) db.sessions ≡ some s
    → ((after (start_provisioning now id db)).sessions ≡ db.sessions)
      ⊎ ((is_confirmed r.status ≡ true)
          × (r.operation ≡ provision_vta)
          × ((after (start_provisioning now id db)).sessions
              ≡ update_where
                  (λ x. x.id == s.id)
                  (admit_admin r.admin_did (provision_status s) now)
                  db.sessions))
unfolding start_provisioning
start_read now id db r s f g = ground arith

-- StartProvisioning writes to the setup sessions only for a confirmed reservation that is to
-- provision the VTA: the session of the reservation gets its administrator DID and the status that
-- resumes the setup.
pub start_provisioning_sessions :
    (now id : ℕ) (db : Db)
    → ((after (start_provisioning now id db)).sessions ≡ db.sessions)
      ⊎ ((r : MobileConnection) × (s : SetupSession) × (find (λ c. c.id == id) db.connections
            ≡ some r)
          × (find (λ s. s.id == r.session_id) db.sessions ≡ some s)
          × (is_confirmed r.status ≡ true)
          × (r.operation ≡ provision_vta)
          × ((after (start_provisioning now id db)).sessions
              ≡ update_where
                  (λ x. x.id == s.id)
                  (admit_admin r.admin_did (provision_status s) now)
                  db.sessions))
unfolding start_provisioning
start_provisioning_sessions now id db =
    elim (Option-cases (find (λ c. c.id == id) db.connections)) [
      | inl f ↦ inl (ground arith)
      | inr (r, f) ↦ elim (Option-cases (find (λ s. s.id == r.session_id) db.sessions)) [
        | inl g ↦ inl (ground arith)
        | inr (s, g) ↦ elim (start_read now id db r s f g) [
          | inl e ↦ inl e
          | inr e ↦ inr (r, s, f, g, e.0, e.1, e.2)
        ]
      ]
    ]
