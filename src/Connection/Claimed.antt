-- ===== src/Connection/Claimed.antt =====
-- internal/connection/store.go: when Claim and ClaimAndRecord succeed, and what they then write.
use vtafarm_api.Base.{
  ℕ, ◌+◌, ◌<◌, ◌≡◌, refl, sym, ◌∙◌, String, Bool, not, ◌&&◌, true, false, ◌⊎◌, ◌↔◌, List, Option,
  none, some, arith, find, any, ltb, ◌==◌, str_eq, Option-cases, Bool-cases, inl, inr, update_where,
}
use vtafarm_api.Store.{
  Operation, ClaimStatus, SetupSession, MobileConnection, TrustTaskExecution, Db, Error, ok, err,
}
use vtafarm_api.Connection.Rules.{operation_for, same_text}
use vtafarm_api.Connection.Claim.{require_open, claim, claim_only, claim_and_record, claimed_by}

-- A row as the claimant holds it: claimed by its DID, to be confirmed within five minutes.
abbrev pub held : (String → String) → ℕ → Operation → String → MobileConnection → MobileConnection
held digest now operation did c = record c {
  status = ClaimStatus.claimed;
  operation = operation;
  admin_did = did;
  claimant_digest = some (digest did);
  claimed_at = some now;
  confirm_by = some (now + 300_000_000_000);
  confirmed_at = none;
}

abbrev pub is_running_for : String → TrustTaskExecution → Bool
is_running_for document_id e = str_eq e.document_id document_id && not e.completed

-- A document with a response to record is one whose execution is running; it is completed.
abbrev pub MayAnswer : Option (String × String) → List TrustTaskExecution → Type 0
MayAnswer none es = Unit
MayAnswer (some (document_id, response)) es = any (is_running_for document_id) es ≡ true

abbrev pub answered :
    Option (String × String) → ℕ → List TrustTaskExecution → List TrustTaskExecution
answered none now es = es
answered (some (document_id, response)) now es =
    update_where (is_running_for document_id)
      (λ e. record e { completed = true; response_bytes = some response; updated_at = now }) es

-- A claim of `value` under a handle that returns `c` and leaves `d`: the value is a DID, the handle is
-- that of an open reservation before its expiry, whose session is there and admits an operation, and
-- the response, if there is one, belongs to a running execution; the reservation is then held.
abbrev pub IsClaim :
    (String → Option String)
    → (String → String)
    → ℕ
    → String
    → String
    → Option (String × String)
    → Db
    → MobileConnection
    → Db
    → Type 0
IsClaim validate digest now handle value reply db c d =
    (did : String) × (r : MobileConnection) × (s : SetupSession) × (operation : Operation)
    × (validate value ≡ some did)
    × (find (λ x. same_text x.claim_handle (some handle)) db.connections ≡ some r)
    × (r.status ≡ ClaimStatus.open_)
    × (now < r.expires_at)
    × (find (λ x. x.id == r.session_id) db.sessions ≡ some s)
    × (operation_for s r.vta_did ≡ some operation)
    × MayAnswer reply db.executions
    × (c ≡ held digest now operation did r)
    × (d ≡ record db {
      connections = update_where (λ x. x.id == r.id) (held digest now operation did) db.connections;
      executions = answered reply now db.executions;
    })

require_open-cases :
    (status : ClaimStatus)
    → (status ≡ ClaimStatus.open_) ⊎ ((e : Error) × ((db : Db) → require_open status db ≡ err e db))
unfolding require_open
require_open-cases ClaimStatus.open_ = inl refl
require_open-cases ClaimStatus.claimed = inr (_, λ db. refl)
require_open-cases ClaimStatus.confirmed = inr (_, λ db. refl)
require_open-cases ClaimStatus.provisioning = inr (_, λ db. refl)
require_open-cases ClaimStatus.released = inr (_, λ db. refl)
require_open-cases ClaimStatus.rejected = inr (_, λ db. refl)
require_open-cases ClaimStatus.lapsed = inr (_, λ db. refl)
require_open-cases ClaimStatus.cancelled = inr (_, λ db. refl)
require_open-cases ClaimStatus.expired = inr (_, λ db. refl)
require_open-cases ClaimStatus.failed = inr (_, λ db. refl)

module _ (validate : String → Option String) (digest : String → String) (now : ℕ)
    (handle value : String) (db : Db) where
  -- With every guard met, the claim succeeds.
  claim-held :
      (reply : Option (String × String)) (did : String) (r : MobileConnection) (s : SetupSession)
      (operation : Operation)
      → validate value ≡ some did
      → find (λ x. same_text x.claim_handle (some handle)) db.connections ≡ some r
      → r.status ≡ ClaimStatus.open_
      → now < r.expires_at
      → find (λ x. x.id == r.session_id) db.sessions ≡ some s
      → operation_for s r.vta_did ≡ some operation
      → MayAnswer reply db.executions
      → claim validate digest now handle value reply db
        ≡ ok (held digest now operation did r) (record db {
          connections =
              update_where (λ x. x.id == r.id) (held digest now operation did) db.connections;
          executions = answered reply now db.executions;
        })
  unfolding claim claimed_by
  claim-held none did r s operation v f o e g p m = ground arith
  claim-held (some (document_id, response)) did r s operation v f o e g p m = ground arith

  -- A claim with a guard that is not met fails.
  claim_refused :
      (reply : Option (String × String)) (c : MobileConnection) (d : Db)
      → claim validate digest now handle value reply db ≡ ok c d
      → (did : String) × (r : MobileConnection) × (s : SetupSession) × (operation : Operation)
        × (validate value ≡ some did)
        × (find (λ x. same_text x.claim_handle (some handle)) db.connections ≡ some r)
        × (r.status ≡ ClaimStatus.open_)
        × (now < r.expires_at)
        × (find (λ x. x.id == r.session_id) db.sessions ≡ some s)
        × (operation_for s r.vta_did ≡ some operation)
  unfolding claim
  claim_refused reply c d h = elim (Option-cases (validate value)) [
    | inl v ↦ ground (arith, v, h)
    | inr (did, v) ↦
        elim (Option-cases (find (λ x. same_text x.claim_handle (some handle)) db.connections)) [
          | inl f ↦ ground (arith, v, f, h)
          | inr (r, f) ↦ elim (Option-cases (find (λ x. x.id == r.session_id) db.sessions)) [
            | inl g ↦ ground (arith, v, f, g, h)
            | inr (s, g) ↦ elim (require_open-cases r.status) [
              | inr (e, shut) ↦ ground (arith, v, f, g, shut db, h)
              | inl o ↦ elim (Bool-cases (ltb now r.expires_at)) [
                | inr late ↦ ground (arith, v, f, g, o, late, h)
                | inl early ↦ elim (Option-cases (operation_for s r.vta_did)) [
                  | inl p ↦ ground (arith, v, f, g, o, early, p, h)
                  | inr (operation, p) ↦
                      (did, r, s, operation, v, f, o, ground (arith, early), g, p)
                ]
              ]
            ]
          ]
        ]
  ]

  claim_answers :
      (reply : Option (String × String)) (did : String) (r : MobileConnection) (s : SetupSession)
      (operation : Operation) (c : MobileConnection) (d : Db)
      → validate value ≡ some did
      → find (λ x. same_text x.claim_handle (some handle)) db.connections ≡ some r
      → r.status ≡ ClaimStatus.open_
      → now < r.expires_at
      → find (λ x. x.id == r.session_id) db.sessions ≡ some s
      → operation_for s r.vta_did ≡ some operation
      → claim validate digest now handle value reply db ≡ ok c d
      → MayAnswer reply db.executions
  unfolding claim claimed_by
  claim_answers none did r s operation c d v f o e g p h = tt
  claim_answers (some (document_id, response)) did r s operation c d v f o e g p h =
      elim (Bool-cases (any (is_running_for document_id) db.executions)) [
        | inl m ↦ m
        | inr m ↦ ground arith
      ]

  pub claim-IsClaim :
      (reply : Option (String × String)) (c : MobileConnection) (d : Db)
      → claim validate digest now handle value reply db ≡ ok c d
      → IsClaim validate digest now handle value reply db c d
  claim-IsClaim reply c d h =
      let (did, r, s, operation, v, f, o, e, g, p) = claim_refused reply c d h in
      let m = claim_answers reply did r s operation c d v f o e g p h in
      let same = sym h ∙ claim-held reply did r s operation v f o e g p m in
      (did, r, s, operation, v, f, o, e, g, p, m, cc, cc)

  pub IsClaim-claim :
      (reply : Option (String × String)) (c : MobileConnection) (d : Db)
      → IsClaim validate digest now handle value reply db c d
      → claim validate digest now handle value reply db ≡ ok c d
  IsClaim-claim reply c d (did, r, s, operation, v, f, o, e, g, p, m, same, left) =
      claim-held reply did r s operation v f o e g p m ∙ rw (same, left) refl

  claim_and_record-eq :
      (document_id response : String)
      → str_eq document_id "" ≡ false
      → str_eq response "" ≡ false
      → claim_and_record validate digest now handle value document_id response db
        ≡ claim validate digest now handle value (some (document_id, response)) db
  unfolding claim_and_record
  claim_and_record-eq document_id response a b = ground (arith, a, b)

  claim_and_record_named :
      (document_id response : String) (c : MobileConnection) (d : Db)
      → claim_and_record validate digest now handle value document_id response db ≡ ok c d
      → (str_eq document_id "" ≡ false) × (str_eq response "" ≡ false)
  unfolding claim_and_record
  claim_and_record_named document_id response c d h = ground arith

-- Claim succeeds exactly if the value validates as a DID, the handle is that of an open reservation
-- before its expiry, and the reservation's session is there and admits an operation; ClaimAndRecord
-- needs a document and a response as well, and a running execution of the document. Either then
-- returns and stores the reservation as claimed by that DID for that operation, to be confirmed within
-- five minutes, ClaimAndRecord completes the execution with the response, and nothing else changes.
pub claims_held :
    (validate : String → Option String) (digest : String → String) (now : ℕ)
    (handle value document_id response : String) (db : Db) (c : MobileConnection) (d : Db)
    → ((claim_only validate digest now handle value db ≡ ok c d)
        ↔ IsClaim validate digest now handle value none db c d)
      × ((claim_and_record validate digest now handle value document_id response db ≡ ok c d) ↔ (
          (str_eq document_id "" ≡ false)
          × (str_eq response "" ≡ false)
          × IsClaim validate digest now handle value (some (document_id, response)) db c d))
claims_held validate digest now handle value document_id response db c d =
    let reply = some (document_id, response) in
    (
      (
        claim-IsClaim validate digest now handle value db none c d,
        IsClaim-claim validate digest now handle value db none c d,
      ),
      (
        λ h.
            let (a, b) =
              claim_and_record_named validate digest now handle value db document_id response c d
                h in
            let same =
              claim_and_record-eq validate digest now handle value db document_id response a b in
            (a, b, claim-IsClaim validate digest now handle value db reply c d (sym same ∙ h)),
        λ p.
            claim_and_record-eq validate digest now handle value db document_id response p.0 p.1
            ∙ IsClaim-claim validate digest now handle value db reply c d p.2,
      ),
    )
