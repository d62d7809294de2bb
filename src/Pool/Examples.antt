-- ===== src/Pool/Examples.antt =====
-- Runs of the inventory of internal/pool/store.go.
use vtafarm_api.Base.{
  ℕ, ◌≡◌, refl, map, ◌==◌, update_where, true, false, List, [], ◌∷◌, none, some, find, any, All,
  select, count,
}
use vtafarm_api.Store.{
  SessionStatus, vta_only, provision_vta, SetupSession, ClaimStatus, MobileConnection, PoolBatch,
  Purpose, Db, Outcome, ok, err, pool_conflict, after,
}
use vtafarm_api.Connection.Rules.{
  ready, operation_for, latest, current, lock_session, clashes, create_connection, newer, pick,
}
use vtafarm_api.Connection.Reserve.{
  Fresh, change, change_body, act, settle_current, new_reservation, pool_agrees,
}
use vtafarm_api.Pool.Rows.{
  order_by, insert_sorted, is_session, is_member_of, is_live, has_live_claim, is_unclaimed,
}
use vtafarm_api.Pool.Claims.{
  or_next, try_candidate, reserve_first, is_candidate, candidates, reserve,
}
use vtafarm_api.Pool.Cleanup.{
  is_in, has_repeat, is_removable, is_anonymous, is_protecting, mark_deleting, may_clean, protects,
  expire_open_in, expire_claimed_in, queue_cleanup, queue_cleanup_bulk, queue_batch_cleanup,
  member_ids,
}
use vtafarm_api.Pool.Worker.{Jobs, run_one, prepare_and_build, then_build, record_build_error}
use vtafarm_api.Pool.Noted.{left_by, IsNoted}
use vtafarm_api.Pool.Teardown.{run_one-IsNoted}
use vtafarm_api.Pool.Reserved.{Grants, reserve_ok}
use vtafarm_api.Pool.Protected.{
  was_confirmed, confirmed_protected, batch_protected, queue_cleanup_ok,
}

abbrev waiting : ℕ → SetupSession
waiting id = record {
  id = id;
  user_id = id;
  status = SessionStatus.pool_waiting;
  failed_stage = "";
  error_msg = "";
  mode = vta_only;
  vta_name = "main";
  vta_image = "vta:1";
  vta_did = "did:webvh:x";
  admin_did = "";
  updated_at = 0;
}

abbrev batch : PoolBatch
batch = record {
  id = 4;
  created_by = 1;
  label = "spring";
  purpose = Purpose.admin_station;
  requested_count = 2;
  vta_image = "vta:1";
  idempotency_key = "k";
  request_digest = "r";
  public_signup_enabled_at = none;
  cleanup_requested_at = none;
}

-- An activation that failed.
abbrev failed_claim : MobileConnection
failed_claim = record {
  id = 1;
  session_id = 7;
  vta_did = "did:webvh:x";
  operation = provision_vta;
  admin_did = "did:key:z6MkA";
  status = ClaimStatus.failed;
  claim_handle = some "h1";
  claimant_digest = some "d";
  created_at = 10;
  expires_at = 310;
  confirm_by = some 320;
  claimed_at = some 20;
  confirmed_at = some 25;
  released_at = none;
  redeem_poll = none;
  provision_error = "timeout";
  public_access_digest = none;
}

abbrev inventory : List MobileConnection → Db
inventory cs = record {
  sessions = waiting 7 ∷ waiting 8 ∷ [];
  connections = cs;
  bindings = [];
  executions = [];
  batches = batch ∷ [];
  members = record { session_id = 7; batch_id = 4 } ∷ record { session_id = 8; batch_id = 4 } ∷ [];
  additions = [];
  users =
      record { id = 8; unique_id = "u8"; email = none; fullstack_access = false; passkeys = 0 }
      ∷ [];
  resources = [];
}

confirmed_protected_example :
    queue_cleanup 400 (7 ∷ 8 ∷ []) (inventory (failed_claim ∷ []))
    ≡ err pool_conflict (inventory (failed_claim ∷ []))
unfolding any was_confirmed is_in
confirmed_protected_example =
    confirmed_protected 400 (7 ∷ 8 ∷ []) (inventory (failed_claim ∷ [])) refl

batch_protected_example :
    queue_batch_cleanup 400 4 (inventory (failed_claim ∷ []))
    ≡ err pool_conflict (inventory (failed_claim ∷ []))
unfolding any was_confirmed is_in find member_ids order_by insert_sorted select
batch_protected_example = batch_protected 400 4 (inventory (failed_claim ∷ [])) batch refl refl refl

abbrev granted : Outcome MobileConnection → MobileConnection
granted (ok c d) = c
granted (err e d) = failed_claim

abbrev new_one : Fresh
new_one = record { uuid = 5; handle = "h5" }

abbrev reservation : Outcome MobileConnection
reservation = reserve 400 (λ id. 400) new_one 4 (inventory (failed_claim ∷ []))

reserve_ok_example :
    Grants
      (inventory (failed_claim ∷ []))
      (λ id.
        (is_member_of (inventory (failed_claim ∷ [])) 4 id ≡ true)
        × (has_live_claim 400 (inventory (failed_claim ∷ [])) id ≡ false))
      (granted reservation)
unfolding reserve reserve_first try_candidate or_next candidates is_candidate is_unclaimed
    has_live_claim is_live is_member_of is_session any find select order_by insert_sorted change
    change_body act settle_current new_reservation pool_agrees operation_for ready latest current
    lock_session clashes create_connection newer pick vtafarm_api.Connection.Reserve.reserve
reserve_ok_example =
    reserve_ok 400 (λ id. 400) new_one 4 (inventory (failed_claim ∷ [])) (after reservation)
      (granted reservation) refl

abbrev cleaned : Db
cleaned = after (queue_cleanup 400 (8 ∷ []) (inventory (failed_claim ∷ [])))

queue_cleanup_ok_example :
    All
      (λ s. is_in s.id (8 ∷ []) ≡ true → is_removable s ≡ true)
      (inventory (failed_claim ∷ [])).sessions
    × (any (was_confirmed (8 ∷ [])) (inventory (failed_claim ∷ [])).connections ≡ false)
    × (cleaned.sessions ≡ mark_deleting (8 ∷ []) (inventory (failed_claim ∷ [])).sessions)
    × (cleaned.members ≡ (inventory (failed_claim ∷ [])).members)
unfolding queue_cleanup queue_cleanup_bulk has_repeat is_in may_clean is_removable is_protecting
    protects expire_open_in expire_claimed_in order_by insert_sorted any find select is_session
    is_anonymous count
queue_cleanup_ok_example =
    queue_cleanup_ok 400 (8 ∷ []) (inventory (failed_claim ∷ [])) cleaned refl

-- The deletion of a session is requested while it is built, and then the build fails.
abbrev failing : Jobs
failing = record {
  prepare = some (λ id db. (db, none));
  build = some (λ id db. (
    record db {
      sessions =
          update_where (λ (s : SetupSession). s.id == id)
            (λ s. record s { status = SessionStatus.deleting }) db.sessions;
    },
    some "image not found",
  ));
  cleanup = none;
}

abbrev building : Db
building = record (inventory []) {
  sessions = record (waiting 8) { status = SessionStatus.pool_creating } ∷ [];
}

still_deleting :
    map (λ (s : SetupSession). s.status) (run_one failing true false 8 building).sessions
    ≡ SessionStatus.deleting ∷ []
unfolding run_one prepare_and_build then_build record_build_error find
still_deleting = refl

run_one-IsNoted_example :
    IsNoted 8 (left_by failing true false 8 building) (run_one failing true false 8 building)
run_one-IsNoted_example = run_one-IsNoted failing true false 8 building
