-- ===== src/Connection/Examples.antt =====
-- The theorems on internal/connection/store.go at concrete tables: one session that waits for its
-- administrator, and one claimed reservation.
use vtafarm_api.Base.{
  ◌≡◌, refl, String, true, false, List, [], ◌∷◌, Option, none, some, arith, find, ◌==◌, ◌⊎◌, any,
  is_some, str_eq, update_where, ◌*◌,
}
use vtafarm_api.Store.{
  SessionStatus, vta_only, provision_vta, SetupSession, ClaimStatus, MobileConnection,
  TrustTaskExecution, Db, err, expired, after,
}
use vtafarm_api.Connection.Rules.{second, is_confirmed, latest, operation_for, ready}
use vtafarm_api.Connection.Reserve.{create, change}
use vtafarm_api.Connection.Claim.{claim_and_record, claim, confirm, reject, claimed_by}
use vtafarm_api.Connection.Provision.{start_provisioning, admit_admin, provision_status}
use vtafarm_api.Connection.Lifecycle.{◌⟶*◌, IsStamped}
use vtafarm_api.Connection.Table.{by_id, IsValid}
use vtafarm_api.Connection.History.{
  Command, confirms, starts, stops, step, run, run-IsValid, run_follows, final_kept, one_active,
  provisioned_confirmed,
}
use vtafarm_api.Connection.Claimed.{IsClaim, claims_held}
use vtafarm_api.Connection.Results.{confirmation_expired, start_provisioning_sessions}
use vtafarm_api.Connection.Duplicate.{is_duplicate, change_no_duplicate}

abbrev waiting : SetupSession
waiting = record {
  id = 7;
  user_id = 3;
  status = SessionStatus.vta_setup_complete;
  failed_stage = "";
  error_msg = "";
  mode = vta_only;
  vta_name = "main";
  vta_image = "vta:1";
  vta_did = "did:webvh:x";
  admin_did = "";
  updated_at = 0;
}

abbrev claimed_row : MobileConnection
claimed_row = record {
  id = 1;
  session_id = 7;
  vta_did = "did:webvh:x";
  operation = provision_vta;
  admin_did = "did:key:z6MkA";
  status = ClaimStatus.claimed;
  claim_handle = some "h1";
  claimant_digest = some "d";
  created_at = 10;
  expires_at = 300_000_000_010;
  confirm_by = some 300_000_000_020;
  claimed_at = some 20;
  confirmed_at = none;
  released_at = none;
  redeem_poll = none;
  provision_error = "";
  public_access_digest = none;
}

abbrev released_row : MobileConnection
released_row = record claimed_row {
  status = ClaimStatus.released;
  confirmed_at = some 30;
  released_at = some 40;
}

abbrev open_row : MobileConnection
open_row = record claimed_row {
  status = ClaimStatus.open_;
  admin_did = "";
  claimant_digest = none;
  confirm_by = none;
  claimed_at = none;
}

abbrev with_rows : List MobileConnection → Db
with_rows cs = record {
  sessions = waiting ∷ [];
  connections = cs;
  bindings = [];
  executions = [];
  batches = [];
  members = [];
  additions = [];
  users = [];
  resources = [];
}

abbrev accept_all : String → Option String
accept_all s = some s

abbrev same : String → String
same s = s

one_row-IsValid : (c : MobileConnection) → IsStamped c → IsValid (c ∷ [])
unfolding latest find
one_row-IsValid c st = record {
  unique = (ground arith, tt);
  tidy = λ k. ((λ e a. ground arith), tt);
  stamped = (st, tt);
}

claimed_row-IsStamped : IsStamped claimed_row
claimed_row-IsStamped = ground arith

released_row-IsStamped : IsStamped released_row
released_row-IsStamped = ground arith

claimed_table-IsValid : IsValid (claimed_row ∷ [])
claimed_table-IsValid = one_row-IsValid claimed_row claimed_row-IsStamped

released_table-IsValid : IsValid (released_row ∷ [])
released_table-IsValid = one_row-IsValid released_row released_row-IsStamped

-- The owner confirms in time, and the provisioning starts.
abbrev confirmation : List Command
confirmation = confirms 25 7 1 ∷ starts 26 1 ∷ []

abbrev confirmed_row : MobileConnection
confirmed_row = record claimed_row { status = ClaimStatus.provisioning; confirmed_at = some 25 }

confirmation-run :
    find (by_id 1) (run accept_all same confirmation (with_rows (claimed_row ∷ []))).connections
    ≡ some confirmed_row
unfolding run step confirm start_provisioning find
confirmation-run = refl

run-IsValid_example :
    IsValid (run accept_all same confirmation (with_rows (claimed_row ∷ []))).connections
run-IsValid_example =
    run-IsValid accept_all same confirmation (with_rows (claimed_row ∷ [])) claimed_table-IsValid

run_follows_example :
    (d : MobileConnection) × (find
        (by_id 1)
        (run accept_all same confirmation (with_rows (claimed_row ∷ []))).connections
      ≡ some d)
    × (d.session_id ≡ 7)
    × (d.created_at ≡ 10)
    × (d.claim_handle ≡ some "h1")
    × (ClaimStatus.claimed ⟶* d.status)
unfolding find
run_follows_example =
    run_follows accept_all same confirmation (with_rows (claimed_row ∷ [])) 1 claimed_row
      claimed_table-IsValid refl

final_kept_example :
    (d : MobileConnection) × (find
        (by_id 1)
        (run accept_all same (stops 7 ∷ []) (with_rows (released_row ∷ []))).connections
      ≡ some d)
    × (d.status ≡ ClaimStatus.released)
unfolding find
final_kept_example =
    final_kept accept_all same (stops 7 ∷ []) (with_rows (released_row ∷ [])) 1 released_row
      released_table-IsValid refl refl

one_active_example : confirmed_row ≡ confirmed_row
one_active_example =
    one_active accept_all same confirmation (with_rows (claimed_row ∷ [])) (by_id 1) (by_id 1)
      confirmed_row confirmed_row claimed_table-IsValid confirmation-run confirmation-run refl refl
      refl

provisioned_confirmed_example : is_some confirmed_row.confirmed_at ≡ true
provisioned_confirmed_example =
    provisioned_confirmed accept_all same confirmation (with_rows (claimed_row ∷ [])) (by_id 1)
      confirmed_row claimed_table-IsValid confirmation-run refl

-- The session is free: its only reservation was released long ago.
change_no_duplicate_example :
    is_duplicate (
      change
        (20 * second)
        (record { uuid = 2; handle = "h2" })
        7
        create
        none
        false
        (with_rows (released_row ∷ [])))
    ≡ false
change_no_duplicate_example =
    change_no_duplicate (20 * second) (record { uuid = 2; handle = "h2" }) 7 create none false
      (with_rows (released_row ∷ [])) released_table-IsValid ((refl, refl), tt)

abbrev claimed_again : MobileConnection
claimed_again = record claimed_row {
  admin_did = "did:key:z6MkB";
  claimant_digest = some "did:key:z6MkB";
  claimed_at = some 50;
  confirm_by = some 300_000_000_050;
}

abbrev execution : TrustTaskExecution
execution = record {
  document_id = "doc";
  document_digest = "digest";
  completed = false;
  response_bytes = none;
  retain_until = 900;
  lease_expires_at = 90;
  created_at = 40;
  updated_at = 40;
}

abbrev executing : Db
executing = record (with_rows (open_row ∷ [])) { executions = execution ∷ [] }

abbrev replied : Db
replied = record (with_rows (claimed_again ∷ [])) {
  executions =
      record execution { completed = true; response_bytes = some "signed"; updated_at = 50 } ∷ [];
}

claims_held_example :
    (str_eq "doc" "" ≡ false)
    × (str_eq "signed" "" ≡ false)
    × IsClaim accept_all same 50 "h1" "did:key:z6MkB"
        (some ("doc", "signed"))
        executing
        claimed_again
        replied
unfolding claim_and_record claim find ready operation_for any claimed_by
claims_held_example =
    (claims_held accept_all same 50 "h1" "did:key:z6MkB" "doc" "signed" executing claimed_again
        replied).1.0
      refl

confirmation_expired_example :
    (confirm 300_000_000_020 7 1 (with_rows (claimed_row ∷ []))
      ≡ err expired (with_rows (claimed_row ∷ [])))
    × (reject 300_000_000_020 7 1 (with_rows (claimed_row ∷ []))
        ≡ err expired (with_rows (claimed_row ∷ [])))
unfolding find
confirmation_expired_example =
    confirmation_expired 300_000_000_020 7 1 (with_rows (claimed_row ∷ [])) claimed_row waiting refl
      refl refl refl

abbrev owner_confirmed : MobileConnection
owner_confirmed = record claimed_row { status = ClaimStatus.confirmed; confirmed_at = some 25 }

start_provisioning_sessions_example :
    ((after (start_provisioning 26 1 (with_rows (owner_confirmed ∷ [])))).sessions
      ≡ (with_rows (owner_confirmed ∷ [])).sessions)
    ⊎ ((r : MobileConnection) × (s : SetupSession) × (find
            (λ c. c.id == 1)
            (with_rows (owner_confirmed ∷ [])).connections
          ≡ some r)
        × (find (λ s. s.id == r.session_id) (with_rows (owner_confirmed ∷ [])).sessions ≡ some s)
        × (is_confirmed r.status ≡ true)
        × (r.operation ≡ provision_vta)
        × ((after (start_provisioning 26 1 (with_rows (owner_confirmed ∷ [])))).sessions
            ≡ update_where
                (λ x. x.id == s.id)
                (admit_admin r.admin_did (provision_status s) 26)
                (with_rows (owner_confirmed ∷ [])).sessions))
start_provisioning_sessions_example =
    start_provisioning_sessions 26 1 (with_rows (owner_confirmed ∷ []))
