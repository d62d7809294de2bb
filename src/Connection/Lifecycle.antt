-- ===== src/Connection/Lifecycle.antt =====
-- The lifecycle of a reservation as a step relation, and the relation between a row and what an
-- operation makes of it. It speaks of the statuses of internal/model/mobile_connection.go.
use vtafarm_api.Base.{◌≡◌, refl, ◌∙◌, ap, true, false, is_some}
use vtafarm_api.Store.{ClaimStatus, MobileConnection}
use vtafarm_api.Connection.Rules.{
  is_active, final_status, is_claimed, is_confirmed, is_provisioning, is_released,
}

infix 40 ◌⟶◌ ◌⟶*◌
-- The edges of the lifecycle.
pub data ◌⟶◌ : ClaimStatus → ClaimStatus → Type 0 where
  claim : ClaimStatus.open_ ⟶ ClaimStatus.claimed
  confirm : ClaimStatus.claimed ⟶ ClaimStatus.confirmed
  start : ClaimStatus.confirmed ⟶ ClaimStatus.provisioning
  release : ClaimStatus.provisioning ⟶ ClaimStatus.released
  reject : ClaimStatus.claimed ⟶ ClaimStatus.rejected
  lapse_open : ClaimStatus.open_ ⟶ ClaimStatus.lapsed
  lapse_claimed : ClaimStatus.claimed ⟶ ClaimStatus.lapsed
  cancel_confirmed : ClaimStatus.confirmed ⟶ ClaimStatus.cancelled
  cancel_provisioning : ClaimStatus.provisioning ⟶ ClaimStatus.cancelled
  fail_confirmed : ClaimStatus.confirmed ⟶ ClaimStatus.failed
  fail_provisioning : ClaimStatus.provisioning ⟶ ClaimStatus.failed

pub data ◌⟶*◌ (s : ClaimStatus) : ClaimStatus → Type 0 where
  here : s ⟶* s
  step : {t u : ClaimStatus} → s ⟶* t → t ⟶ u → s ⟶* u

pub ⟶*-trans : {s t u : ClaimStatus} → s ⟶* t → t ⟶* u → s ⟶* u
⟶*-trans p here = p
⟶*-trans p (step q e) = step (⟶*-trans p q) e

-- No edge leads into the active statuses from outside, and none leaves a final status.
⟶-active : {s t : ClaimStatus} → s ⟶ t → is_active t ≡ true → is_active s ≡ true
⟶-active claim h = refl
⟶-active confirm h = refl
⟶-active start h = refl
⟶-active release h = refl
⟶-active reject h = refl
⟶-active lapse_open h = refl
⟶-active lapse_claimed h = refl
⟶-active cancel_confirmed h = refl
⟶-active cancel_provisioning h = refl
⟶-active fail_confirmed h = refl
⟶-active fail_provisioning h = refl

pub ⟶*-active : {s t : ClaimStatus} → s ⟶* t → is_active t ≡ true → is_active s ≡ true
⟶*-active here h = h
⟶*-active (step p e) h = ⟶*-active p (⟶-active e h)

⟶-final : {s t : ClaimStatus} → s ⟶ t → final_status s ≡ false
⟶-final claim = refl
⟶-final confirm = refl
⟶-final start = refl
⟶-final release = refl
⟶-final reject = refl
⟶-final lapse_open = refl
⟶-final lapse_claimed = refl
⟶-final cancel_confirmed = refl
⟶-final cancel_provisioning = refl
⟶-final fail_confirmed = refl
⟶-final fail_provisioning = refl

pub ⟶*-final : {s t : ClaimStatus} → s ⟶* t → final_status s ≡ true → t ≡ s
⟶*-final here h = refl
⟶*-final (step p e) h = absurd (cc (h, ⟶-final e, ap final_status (⟶*-final p h)))

-- The timestamps that go with a status: the check constraint
-- mobile_connections_claim_timestamps_check of migration 41, and beyond it that a row which is
-- provisioned or released was confirmed.
pub record IsStamped (c : MobileConnection) : Type 0 where
  pub claimed :
      is_claimed c.status ≡ true → (is_some c.claimed_at ≡ true) × (is_some c.confirm_by ≡ true)
  pub confirmed : is_confirmed c.status ≡ true → is_some c.confirmed_at ≡ true
  pub provisioning : is_provisioning c.status ≡ true → is_some c.confirmed_at ≡ true
  pub released :
      is_released c.status ≡ true → (is_some c.confirmed_at ≡ true) × (is_some c.released_at ≡ true)

-- What an operation may make of a row.
pub record Moves (c d : MobileConnection) : Type 0 where
  pub id : d.id ≡ c.id
  pub session_id : d.session_id ≡ c.session_id
  pub created_at : d.created_at ≡ c.created_at
  pub claim_handle : d.claim_handle ≡ c.claim_handle
  pub status : c.status ⟶* d.status
  pub stamped : IsStamped c → IsStamped d

pub Moves-refl : (c : MobileConnection) → Moves c c
Moves-refl c = record {
  id = refl;
  session_id = refl;
  created_at = refl;
  claim_handle = refl;
  status = here;
  stamped = λ h. h;
}

pub Moves-trans : {c d e : MobileConnection} → Moves c d → Moves d e → Moves c e
Moves-trans p q = record {
  id = q.id ∙ p.id;
  session_id = q.session_id ∙ p.session_id;
  created_at = q.created_at ∙ p.created_at;
  claim_handle = q.claim_handle ∙ p.claim_handle;
  status = ⟶*-trans p.status q.status;
  stamped = λ h. q.stamped (p.stamped h);
}
