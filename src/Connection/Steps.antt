-- ===== src/Connection/Steps.antt =====
-- What each operation of internal/connection/store.go but `change` does to the table: the cases of
-- its result, and from them that the table stays valid and its rows move along the lifecycle.
use vtafarm_api.Base.{
  ℕ, ◌≡◌, String, true, ◌&&◌, Option, none, some, arith, ◌⊎◌, inl, inr, find, ◌==◌, update_where,
  Option-cases,
}
use vtafarm_api.Store.{ClaimStatus, Operation, SetupSession, MobileConnection, Db}
use vtafarm_api.Connection.Rules.{
  is_open, is_claimed, is_confirmed, is_provisioning, same_text, withdraw, operation_for,
}
use vtafarm_api.Connection.Claim.{claim, confirm, confirm_at, reject, claimed_by}
use vtafarm_api.Connection.Provision.{start_provisioning, set_status, mark_released, release_at}
use vtafarm_api.Connection.Moves.{
  reject-Moves, claimed_by-Moves, confirm_at-Moves, start-Moves, release_at-Moves,
}
use vtafarm_api.Connection.Table.{by_id}
use vtafarm_api.Connection.Grows.{table, Grows, Grows-refl, Grows-eq, Grows-by_id}

confirm_cases :
    (now session_id id : ℕ) (db : Db)
    → (table (confirm now session_id id db) ≡ db.connections)
      ⊎ ((r : MobileConnection) × (find
              (λ c. c.id == id && c.session_id == session_id)
              db.connections
            ≡ some r)
          × (is_claimed r.status ≡ true)
          × (table (confirm now session_id id db)
              ≡ update_where (by_id r.id) (confirm_at now) db.connections))
unfolding confirm
confirm_cases now session_id id db = ground arith

pub confirm-Grows :
    (now session_id id : ℕ) (db : Db) → Grows db.connections (table (confirm now session_id id db))
confirm-Grows now session_id id db = elim (confirm_cases now session_id id db) [
  | inl e ↦ Grows-eq _ _ _ e (Grows-refl db.connections)
  | inr (r, f, s, e) ↦
      Grows-eq _ _ _ e (Grows-by_id _ _ db.connections r f (confirm_at-Moves r now s))
]

reject_cases :
    (now session_id id : ℕ) (db : Db)
    → (table (reject now session_id id db) ≡ db.connections)
      ⊎ ((r : MobileConnection) × (find
              (λ c. c.id == id && c.session_id == session_id)
              db.connections
            ≡ some r)
          × (is_claimed r.status ≡ true)
          × (table (reject now session_id id db)
              ≡ update_where (by_id r.id) (withdraw ClaimStatus.rejected) db.connections))
unfolding reject
reject_cases now session_id id db = ground arith

pub reject-Grows :
    (now session_id id : ℕ) (db : Db) → Grows db.connections (table (reject now session_id id db))
reject-Grows now session_id id db = elim (reject_cases now session_id id db) [
  | inl e ↦ Grows-eq _ _ _ e (Grows-refl db.connections)
  | inr (r, f, s, e) ↦ Grows-eq _ _ _ e (Grows-by_id _ _ db.connections r f (reject-Moves r s))
]

start_cases :
    (now id : ℕ) (db : Db)
    → (table (start_provisioning now id db) ≡ db.connections)
      ⊎ ((r : MobileConnection) × (find (λ c. c.id == id) db.connections ≡ some r)
          × (is_confirmed r.status ≡ true)
          × (table (start_provisioning now id db)
              ≡ update_where (by_id r.id) (set_status ClaimStatus.provisioning) db.connections))
unfolding start_provisioning
start_cases now id db = ground arith

pub start_provisioning-Grows :
    (now id : ℕ) (db : Db) → Grows db.connections (table (start_provisioning now id db))
start_provisioning-Grows now id db = elim (start_cases now id db) [
  | inl e ↦ Grows-eq _ _ _ e (Grows-refl db.connections)
  | inr (r, f, s, e) ↦ Grows-eq _ _ _ e (Grows-by_id _ _ db.connections r f (start-Moves r s))
]

released_cases :
    (digest : String → String) (now id : ℕ) (db : Db)
    → (table (mark_released digest now id db) ≡ db.connections)
      ⊎ ((r : MobileConnection) × (find (λ c. c.id == id) db.connections ≡ some r)
          × (is_provisioning r.status ≡ true)
          × (table (mark_released digest now id db)
              ≡ update_where (by_id r.id) (release_at now) db.connections))
unfolding mark_released
released_cases digest now id db = ground arith

pub mark_released-Grows :
    (digest : String → String) (now id : ℕ) (db : Db)
    → Grows db.connections (table (mark_released digest now id db))
mark_released-Grows digest now id db = elim (released_cases digest now id db) [
  | inl e ↦ Grows-eq _ _ _ e (Grows-refl db.connections)
  | inr (r, f, s, e) ↦
      Grows-eq _ _ _ e (Grows-by_id _ _ db.connections r f (release_at-Moves r now s))
]

module _ (validate : String → Option String) (digest : String → String) (now : ℕ)
    (handle value : String) where
  -- The result of a claim, with all that it read.
  abbrev ClaimedBy :
      Option (String × String) → Db → MobileConnection → SetupSession → Operation → String → Type 0
  ClaimedBy reply db r s operation did =
      (is_open r.status ≡ true)
      × (table (claim validate digest now handle value reply db)
          ≡ update_where (by_id r.id) (claimed_by digest now operation did) db.connections)

  claim_read :
      (reply : Option (String × String)) (db : Db) (r : MobileConnection) (s : SetupSession)
      (operation : Operation) (did : String)
      → validate value ≡ some did
      → find (λ c. same_text c.claim_handle (some handle)) db.connections ≡ some r
      → find (λ s. s.id == r.session_id) db.sessions ≡ some s
      → operation_for s r.vta_did ≡ some operation
      → (table (claim validate digest now handle value reply db) ≡ db.connections)
        ⊎ ClaimedBy reply db r s operation did
  unfolding claim
  claim_read none db r s operation did v f g o = ground arith
  claim_read (some (document_id, response)) db r s operation did v f g o = ground arith

  claim_refused :
      (reply : Option (String × String)) (db : Db) (did : String) (r : MobileConnection)
      (s : SetupSession)
      → validate value ≡ some did
      → find (λ c. same_text c.claim_handle (some handle)) db.connections ≡ some r
      → find (λ s. s.id == r.session_id) db.sessions ≡ some s
      → operation_for s r.vta_did ≡ none
      → table (claim validate digest now handle value reply db) ≡ db.connections
  unfolding claim
  claim_refused reply db did r s v f g o = ground arith

  claim_cases :
      (reply : Option (String × String)) (db : Db)
      → (table (claim validate digest now handle value reply db) ≡ db.connections)
        ⊎ ((r : MobileConnection) × (s : SetupSession) × (operation : Operation) × (did : String)
            × (find (λ c. same_text c.claim_handle (some handle)) db.connections ≡ some r)
            × ClaimedBy reply db r s operation did)
  unfolding claim
  claim_cases reply db = elim (Option-cases (validate value)) [
    | inl v ↦ inl (ground arith)
    | inr (did, v) ↦
        elim (Option-cases (find (λ c. same_text c.claim_handle (some handle)) db.connections)) [
          | inl f ↦ inl (ground arith)
          | inr (r, f) ↦ elim (Option-cases (find (λ s. s.id == r.session_id) db.sessions)) [
            | inl g ↦ inl (ground arith)
            | inr (s, g) ↦ elim (Option-cases (operation_for s r.vta_did)) [
              | inl o ↦ inl (claim_refused reply db did r s v f g o)
              | inr (operation, o) ↦ elim (claim_read reply db r s operation did v f g o) [
                | inl e ↦ inl e
                | inr e ↦ inr (r, s, operation, did, f, e)
              ]
            ]
          ]
        ]
  ]

  pub claim-Grows :
      (reply : Option (String × String)) (db : Db)
      → Grows db.connections (table (claim validate digest now handle value reply db))
  claim-Grows reply db = elim (claim_cases reply db) [
    | inl e ↦ Grows-eq _ _ _ e (Grows-refl db.connections)
    | inr (r, _, operation, did, f, (s, e)) ↦
        Grows-eq _ _ _ e
          (Grows-by_id _ _ db.connections r f (claimed_by-Moves r digest now operation did s))
  ]
