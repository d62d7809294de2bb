-- ===== src/Wallet/Examples.antt =====
-- Runs of internal/walletauth/store.go: one released reservation, and one login request.
use vtafarm_api.Base.{
  String, true, false, List, [], ◌∷◌, none, some, eq_iff, ◌==◌, find, any, is_some, ◌≡◌, refl,
  arith, All,
}
use vtafarm_api.Store.{
  SessionStatus, vta_only, provision_vta, SetupSession, ClaimStatus, MobileConnection,
  WalletLoginBinding, Db,
}
use vtafarm_api.Connection.Provision.{same_binding, binding_of}
use vtafarm_api.Wallet.Bindings.{
  Logins, is_source, materialize_released_claims, active_bindings, revoke_binding,
}
use vtafarm_api.Wallet.Polls.{
  RequestState, WalletLoginRequest, Call, acquires, releases, acquire, calls, left, is_won,
}
use vtafarm_api.Wallet.Revoked.{materialize_all, revoked_for_good}
use vtafarm_api.Wallet.Materialized.{materialized_exactly}
use vtafarm_api.Wallet.Exclusive.{exclusive_poll}

abbrev agent : SetupSession
agent = record {
  id = 7;
  user_id = 3;
  status = SessionStatus.running;
  failed_stage = "";
  error_msg = "";
  mode = vta_only;
  vta_name = "main";
  vta_image = "vta:1";
  vta_did = "did:webvh:x";
  admin_did = "did:key:z6MkA";
  updated_at = 0;
}

abbrev released_row : MobileConnection
released_row = record {
  id = 1;
  session_id = 7;
  vta_did = "did:webvh:x";
  operation = provision_vta;
  admin_did = "did:key:z6MkA";
  status = ClaimStatus.released;
  claim_handle = some "h1";
  claimant_digest = some "did:key:z6MkA";
  created_at = 10;
  expires_at = 310;
  confirm_by = some 320;
  claimed_at = some 20;
  confirmed_at = some 25;
  released_at = some 40;
  redeem_poll = none;
  provision_error = "";
  public_access_digest = none;
}

abbrev binding : WalletLoginBinding
binding = binding_of 40 agent released_row

abbrev with_bindings : List WalletLoginBinding → Db
with_bindings bs = record {
  sessions = agent ∷ [];
  connections = released_row ∷ [];
  bindings = bs;
  executions = [];
  batches = [];
  members = [];
  additions = [];
  users = [];
  resources = [];
}

abbrev same : String → String
same s = s

abbrev logins : Logins
logins = record {
  db = with_bindings (binding ∷ []);
  sessions = record { id = 1; binding = 1; expires_at = 900; revoked_at = none } ∷ [];
}

revoked_for_good_example :
    (l' : Logins) × (revoke_binding 50 3 1 logins ≡ some l')
    × All (λ s. (s.binding == 1) ≡ true → is_some s.revoked_at ≡ true) l'.sessions
    × All
        (λ x. (x.user_id == 3) ≡ false)
        (active_bindings same "did:key:z6MkA" (materialize_all same ("did:key:z6MkA" ∷ []) l'.db)).0
unfolding find
revoked_for_good_example =
    revoked_for_good same ("did:key:z6MkA" ∷ []) 50 3 1 logins binding refl ((λ h. refl), tt)

materialized_exactly_example :
    All
      (λ b. b.login_did ≡ "did:key:z6MkA")
      (materialize_released_claims same "did:key:z6MkA" (with_bindings [])).bindings
    × (any
          (same_binding binding)
          (materialize_released_claims same "did:key:z6MkA" (with_bindings [])).bindings
        ≡ true)
unfolding find is_source
materialized_exactly_example =
    materialized_exactly same "did:key:z6MkA" (with_bindings [])
      (λ b. b.login_did ≡ "did:key:z6MkA") (λ c. true) released_row agent tt
      (λ c s e t. (eq_iff c.admin_did "did:key:z6MkA").0 (ground (arith, t))) refl refl refl

abbrev login : WalletLoginRequest
login = record { request_id = "r1"; state = RequestState.claimed; redeem_poll = none }

abbrev held : WalletLoginRequest
held = record { request_id = "r1"; state = RequestState.claimed; redeem_poll = some ("p1", 40) }

abbrev other_calls : List Call
other_calls = acquires 15 "r1" "p2" 100 ∷ releases "r1" "p3" ∷ []

exclusive_poll_example :
    (is_won (acquire 39 "r1" "p4" 30 (calls other_calls (held ∷ []))) ≡ false)
    × (left
          (calls other_calls (held ∷ []))
          (acquire 39 "r1" "p4" 30 (calls other_calls (held ∷ [])))
        ≡ calls other_calls (held ∷ []))
unfolding acquire any
exclusive_poll_example =
    exclusive_poll 10 "r1" "p1" 30 (login ∷ []) (held ∷ []) login other_calls 39 "p4" 30
      ((λ e. refl), tt) refl (omega arith, (refl, tt)) (omega arith)

-- A poll whose lease has run out gives way.
next_poll : is_won (acquire 40 "r1" "p2" 30 (held ∷ [])) ≡ true
unfolding acquire any
next_poll = refl
