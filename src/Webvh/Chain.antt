-- ===== src/Webvh/Chain.antt =====
-- internal/webvh/log.go: what holds of an entry that the loop of validateLog accepts.
use vtafarm_api.Base.{ℕ, suc, true, false, Option, is_some, ◌≡◌, arith, inr}
use vtafarm_api.Keys.DidKey.{same_bytes}
use vtafarm_api.Webvh.Json.{Text}
use vtafarm_api.Webvh.Params.{Crypto, ParameterState, apply_parameters}
use vtafarm_api.Webvh.Entry.{LogEntry}
use vtafarm_api.Webvh.Log.{
  is_scid_of, is_later, authorized_keys, proof_key_authorized, verify_entry_proof,
  verify_entry_hash, check_origin, check_entry,
}

-- The conditions that an accepted entry meets.
pub record IsStep (crypto : Crypto) (scid : Text) (index : ℕ) (previous : Option LogEntry)
    (before : ParameterState) (entry : LogEntry) (next : ParameterState) : Type 0 where
  pub version : entry.version ≡ suc index
  pub names_scid : is_scid_of crypto scid entry.state_id ≡ true
  pub later : is_later crypto previous entry ≡ true
  pub alive : before.deactivated ≡ false
  pub applied : apply_parameters crypto entry.parameters before (is_some previous) ≡ inr next
  pub keeps_scid : same_bytes next.scid scid ≡ true
  pub authorized :
      proof_key_authorized entry.proof.verification_method
        (authorized_keys crypto previous before next)
      ≡ true
  pub proved : verify_entry_proof crypto entry ≡ inr tt
  pub hashed : verify_entry_hash crypto entry previous ≡ inr tt
  pub origin : check_origin crypto previous next entry ≡ inr tt

pub check_entry-IsStep :
    (crypto : Crypto) (scid : Text) (index : ℕ) (previous : Option LogEntry)
    (before : ParameterState) (entry : LogEntry) (next : ParameterState)
    → check_entry crypto scid index previous before entry ≡ inr next
    → IsStep crypto scid index previous before entry next
unfolding check_entry
check_entry-IsStep crypto scid index previous before entry next h = ground (arith, h)
