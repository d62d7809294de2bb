-- ===== src/Pool/Requests.antt =====
-- internal/pool/store.go: requests for batches on an empty database, and the theorems at them.
use vtafarm_api.Base.{
  ℕ, zero, suc, ◌≤◌, false, [], some, str_eq, leb, ◌==◌, if◌then◌else◌, any, find, ◌≡◌, refl, arith,
  count, select,
}
use vtafarm_api.Store.{
  SetupSession, pool_creating, vta_only, admin_station, Db, Outcome, ok, err, pool_conflict,
  pool_capacity, after,
}
use vtafarm_api.Pool.Rows.{non_running_session_count}
use vtafarm_api.Pool.Identifiers.{
  Source, Answers, NeverFails, new_values, generate_unique_ids, generate_unique_ids-AreDrawn,
}
use vtafarm_api.Pool.Filling.{Surroundings, fill_batch}
use vtafarm_api.Pool.Admission.{
  Admission, AdmissionResult, new_batch, lookup_batch, previous_batch, admit_batch_row, admit,
}
use vtafarm_api.Pool.Addition.{Addition, add_inventory}
use vtafarm_api.Pool.Repeated.{admit_repeated}
use vtafarm_api.Pool.Bounded.{IsConsistent}
use vtafarm_api.Pool.Fits.{admit-Fits}

abbrev empty : Db
empty = record {
  sessions = [];
  connections = [];
  bindings = [];
  executions = [];
  batches = [];
  members = [];
  additions = [];
  users = [];
  resources = [];
}

-- A source that repeats its first value once.
abbrev source : Source
source n = if leb n 1 then some "first" else if n == 2 then some "second" else some "third"

abbrev env : Surroundings
env = record { now = 5; new_account_id = source; new_vta_name = source }

abbrev template : SetupSession
template = record {
  id = 0;
  user_id = 0;
  status = pool_creating;
  failed_stage = "";
  error_msg = "";
  mode = vta_only;
  vta_name = "";
  vta_image = "vta:1";
  vta_did = "";
  admin_did = "";
  updated_at = 0;
}

abbrev request : Admission
request = record {
  admin_id = 1;
  key = "k";
  digest = "d";
  label = "stock";
  purpose = "";
  count = 2;
  capacity = 3;
  session = template;
  memory_request = "";
  memory_limit = "";
}

program : Unit {0}
unfolding admit admit_batch_row previous_batch lookup_batch fill_batch non_running_session_count any
    find count select
program = tt

-- The first batch, and the database with it.
abbrev answer : Outcome AdmissionResult
answer = admit env request empty

abbrev stocked : Db
stocked = after answer

abbrev result : AdmissionResult
result = elim answer [
  | ok r db ↦ r
  | err e db ↦ record {
    batch = new_batch 0 request admin_station empty;
    sessions = [];
    created = false;
  }
]

admitted : admit env request empty ≡ ok result stocked
unfolding program
admitted = refl

two_made : non_running_session_count stocked ≡ 2
unfolding program
two_made = refl

-- A second request with another key does not fit: one session does.
no_room : admit env (record request { key = "other" }) stocked ≡ err (pool_capacity 1) stocked
unfolding program
no_room = refl

abbrev more : Addition
more = record {
  admin_id = 1;
  batch_id = 1;
  key = "m";
  digest = "e";
  count = 1;
  capacity = 3;
  session = template;
  memory_request = "";
  memory_limit = "";
}

-- An addition draws the third name, since the others are taken.
one_added : non_running_session_count (after (add_inventory env more stocked)) ≡ 3
unfolding program add_inventory
one_added = refl

consistent : IsConsistent empty
unfolding count
consistent = record { different = λ id. omega arith; members_below = tt }

admit-Fits_example : non_running_session_count stocked ≤ 3
unfolding program
admit-Fits_example = admit-Fits env request empty result stocked consistent admitted

admit_repeated_example : admit env (record request { count = 7; digest = "x" }) stocked ≡ (
    if str_eq "d" "x"
    then ok (record { batch = result.batch; sessions = []; created = false }) stocked
    else err pool_conflict stocked)
admit_repeated_example =
    admit_repeated env env request (record request { count = 7; digest = "x" }) admin_station empty
      result stocked admitted refl refl refl refl

works : (draws at : ℕ) → NeverFails source draws at
works zero at = tt
works (suc draws) at = (ground arith, works draws (suc at))

generate_unique_ids-AreDrawn_example :
    Answers 2 [] 140 (leb 2 (new_values source 140 [] 0)) (generate_unique_ids source 2 [] 0)
generate_unique_ids-AreDrawn_example = generate_unique_ids-AreDrawn source 2 [] 0 (works 140 0)
