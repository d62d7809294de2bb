-- ===== src/Connection/Moves.antt =====
-- The single-row changes of the operations of internal/connection/store.go move a row along the
-- lifecycle and keep its timestamps in order.
use vtafarm_api.Base.{ℕ, ◌≡◌, refl, String, Bool, true, not, ◌&&◌, none, arith}
use vtafarm_api.Store.{ClaimStatus, Operation, MobileConnection}
use vtafarm_api.Connection.Rules.{
  is_open, is_claimed, is_confirmed, is_provisioning, is_released, final_status, lapse, withdraw,
}
use vtafarm_api.Connection.Claim.{confirm_at, claimed_by}
use vtafarm_api.Connection.Provision.{set_status, release_at}
use vtafarm_api.Connection.Settle.{hold_poll}
use vtafarm_api.Connection.Lifecycle.{◌⟶◌, ◌⟶*◌, here, step, Moves, IsStamped}
use vtafarm_api.Connection.Lifecycle

edge : {s t : ClaimStatus} → s ⟶ t → s ⟶* t
edge e = step here e

abbrev is_retired : ClaimStatus → Bool
is_retired s = final_status s && not (is_released s)

-- A row that only changes its status and columns without a constraint.
plain-Moves :
    (c d : MobileConnection)
    → d.id ≡ c.id
    → d.session_id ≡ c.session_id
    → d.created_at ≡ c.created_at
    → d.claim_handle ≡ c.claim_handle
    → c.status ⟶* d.status
    → (IsStamped c → IsStamped d)
    → Moves c d
plain-Moves c d i s t h p k = record {
  id = i;
  session_id = s;
  created_at = t;
  claim_handle = h;
  status = p;
  stamped = k;
}

retired-IsStamped : (d : MobileConnection) → is_retired d.status ≡ true → IsStamped d
retired-IsStamped d h = ground arith

retire-Moves :
    (c d : MobileConnection)
    → d.id ≡ c.id
    → d.session_id ≡ c.session_id
    → d.created_at ≡ c.created_at
    → d.claim_handle ≡ c.claim_handle
    → is_retired d.status ≡ true
    → c.status ⟶* d.status
    → Moves c d
retire-Moves c d i s t h r p = plain-Moves c d i s t h p (λ _. retired-IsStamped d r)

from_open : (s : ClaimStatus) → is_open s ≡ true → s ≡ ClaimStatus.open_
from_open s h = ground arith

from_claimed : (s : ClaimStatus) → is_claimed s ≡ true → s ≡ ClaimStatus.claimed
from_claimed s h = ground arith

from_confirmed : (s : ClaimStatus) → is_confirmed s ≡ true → s ≡ ClaimStatus.confirmed
from_confirmed s h = ground arith

from_provisioning : (s : ClaimStatus) → is_provisioning s ≡ true → s ≡ ClaimStatus.provisioning
from_provisioning s h = ground arith

module _ (c : MobileConnection) where
  pub lapse-Moves : is_open c.status ≡ true → Moves c (lapse c)
  lapse-Moves h =
      retire-Moves c (lapse c) refl refl refl refl refl
        (simp (from_open c.status h) (edge Lifecycle.lapse_open))

  pub withdraw_open-Moves : is_open c.status ≡ true → Moves c (withdraw ClaimStatus.lapsed c)
  withdraw_open-Moves h =
      retire-Moves c (withdraw ClaimStatus.lapsed c) refl refl refl refl refl
        (simp (from_open c.status h) (edge Lifecycle.lapse_open))

  pub withdraw_claimed-Moves : is_claimed c.status ≡ true → Moves c (withdraw ClaimStatus.lapsed c)
  withdraw_claimed-Moves h =
      retire-Moves c (withdraw ClaimStatus.lapsed c) refl refl refl refl refl
        (simp (from_claimed c.status h) (edge Lifecycle.lapse_claimed))

  pub reject-Moves : is_claimed c.status ≡ true → Moves c (withdraw ClaimStatus.rejected c)
  reject-Moves h =
      retire-Moves c (withdraw ClaimStatus.rejected c) refl refl refl refl refl
        (simp (from_claimed c.status h) (edge Lifecycle.reject))

  pub cancel_confirmed-Moves :
      is_confirmed c.status ≡ true → Moves c (withdraw ClaimStatus.cancelled c)
  cancel_confirmed-Moves h =
      retire-Moves c (withdraw ClaimStatus.cancelled c) refl refl refl refl refl
        (simp (from_confirmed c.status h) (edge Lifecycle.cancel_confirmed))

  pub cancel_provisioning-Moves :
      is_provisioning c.status ≡ true → Moves c (withdraw ClaimStatus.cancelled c)
  cancel_provisioning-Moves h =
      retire-Moves c (withdraw ClaimStatus.cancelled c) refl refl refl refl refl
        (simp (from_provisioning c.status h) (edge Lifecycle.cancel_provisioning))

  pub fail_confirmed-Moves :
      (reason : String)
      → is_confirmed c.status ≡ true
      → Moves c (record c { status = ClaimStatus.failed; provision_error = reason })
  fail_confirmed-Moves reason h =
      retire-Moves c _ refl refl refl refl refl
        (simp (from_confirmed c.status h) (edge Lifecycle.fail_confirmed))

  pub fail_provisioning-Moves :
      (reason : String)
      → is_provisioning c.status ≡ true
      → Moves c (record c { status = ClaimStatus.failed; provision_error = reason })
  fail_provisioning-Moves reason h =
      retire-Moves c _ refl refl refl refl refl
        (simp (from_provisioning c.status h) (edge Lifecycle.fail_provisioning))

  pub claimed_by-Moves :
      (digest : String → String) (now : ℕ) (operation : Operation) (did : String)
      → is_open c.status ≡ true
      → Moves c (claimed_by digest now operation did c)
  unfolding claimed_by
  claimed_by-Moves digest now operation did h =
      plain-Moves c (claimed_by digest now operation did c) refl refl refl refl
        (simp (from_open c.status h) (edge Lifecycle.claim)) (λ s. ground arith)

  pub confirm_at-Moves : (now : ℕ) → is_claimed c.status ≡ true → Moves c (confirm_at now c)
  confirm_at-Moves now h =
      plain-Moves c (confirm_at now c) refl refl refl refl
        (simp (from_claimed c.status h) (edge Lifecycle.confirm)) (λ s. ground arith)

  pub start-Moves : is_confirmed c.status ≡ true → Moves c (set_status ClaimStatus.provisioning c)
  start-Moves h =
      plain-Moves c (set_status ClaimStatus.provisioning c) refl refl refl refl
        (simp (from_confirmed c.status h) (edge Lifecycle.start))
        (λ s. ground (arith, s.confirmed h))

  pub release_at-Moves : (now : ℕ) → is_provisioning c.status ≡ true → Moves c (release_at now c)
  release_at-Moves now h =
      plain-Moves c (release_at now c) refl refl refl refl
        (simp (from_provisioning c.status h) (edge Lifecycle.release))
        (λ s. ground (arith, s.provisioning h))

  pub hold_poll-Moves : (poll_id : String) (until : ℕ) → Moves c (hold_poll poll_id until c)
  hold_poll-Moves poll_id until =
      plain-Moves c (hold_poll poll_id until c) refl refl refl refl here (λ s. ground arith)

  pub free_poll-Moves : Moves c (record c { redeem_poll = none })
  free_poll-Moves = plain-Moves c _ refl refl refl refl here (λ s. ground arith)
