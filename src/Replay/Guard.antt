-- ===== src/Replay/Guard.antt =====
-- internal/trusttask/replay.go: Claim, RecordResponse and Release, on the table of executions, in
-- which document_id is the primary key. The guard is configured: its database is there and its
-- lease is positive.
use vtafarm_api.Base.{
  ℕ, ◌+◌, String, Bool, true, false, not, ◌&&◌, List, [], ◌∷◌, ◌++◌, Option, none, some, str_eq,
  leb, find, any, update_where, delete_where, if◌then◌else◌,
}
use vtafarm_api.Store.{TrustTaskExecution}
use vtafarm_api.Connection.Claim.{is_executing, complete}

-- trusttasks.ReplayVerdict: its kind, with InFlight and PriorResponse for a duplicate.
pub data Verdict : Type 0 where
  fresh conflicting : Verdict
  duplicate : Bool → Option String → Verdict

abbrev pub is_fresh : Verdict → Bool
is_fresh fresh = true
is_fresh conflicting = false
is_fresh (duplicate in_flight prior) = false

abbrev pub Table : Type 0
Table = List TrustTaskExecution

abbrev pub has_id : String → TrustTaskExecution → Bool
has_id id e = str_eq e.document_id id

abbrev pub new_execution : ℕ → String → String → ℕ → ℕ → TrustTaskExecution
new_execution lease id digest retain_until now = record {
  document_id = id;
  document_digest = digest;
  completed = false;
  response_bytes = none;
  retain_until = retain_until;
  lease_expires_at = now + lease;
  created_at = now;
  updated_at = now;
}

abbrev pub restart : ℕ → String → ℕ → ℕ → TrustTaskExecution → TrustTaskExecution
restart lease digest retain_until now e = record e {
  document_digest = digest;
  completed = false;
  response_bytes = none;
  retain_until = retain_until;
  lease_expires_at = now + lease;
  created_at = now;
  updated_at = now;
}

abbrev pub extend : ℕ → ℕ → TrustTaskExecution → TrustTaskExecution
extend lease now e = record e { lease_expires_at = now + lease; updated_at = now }

-- An empty response is no response: len(existing.ResponseBytes) != 0.
abbrev pub prior_response : Option String → Option String
prior_response none = none
prior_response (some text) = if str_eq text "" then none else some text

-- Claim
unfoldable pub claim : ℕ → String → String → ℕ → ℕ → Table → Verdict × Table
claim lease id digest retain_until now rows = elim (find (has_id id) rows) [
  | none ↦ (fresh, rows ++ new_execution lease id digest retain_until now ∷ [])
  | some e ↦
      if leb e.retain_until now
      then (fresh, update_where (has_id id) (restart lease digest retain_until now) rows)
      else if not (str_eq e.document_digest digest)
      then (conflicting, rows)
      else if not e.completed && leb e.lease_expires_at now
      then (fresh, update_where (has_id id) (extend lease now) rows)
      else (duplicate (not e.completed) (prior_response e.response_bytes), rows)
]

-- RecordResponse; `none` where the execution is not active.
unfoldable pub record_response : String → String → ℕ → Table → Option Table
record_response id response now rows =
    if any (is_executing id) rows
    then some (update_where (is_executing id) (complete response now) rows)
    else none

abbrev pub is_releasable : String → String → TrustTaskExecution → Bool
is_releasable id digest e =
    str_eq e.document_id id && str_eq e.document_digest digest && not e.completed

-- Release
unfoldable pub release : String → String → Table → Table
release id digest rows = delete_where (is_releasable id digest) rows

-- One call of the guard, and a history of calls.
pub data Call : Type 0 where
  claims : String → String → ℕ → ℕ → Call
  records : String → String → ℕ → Call
  releases : String → String → Call

unfoldable pub call : ℕ → Call → Table → Table
unfolding claim record_response release
call lease (claims id digest retain_until now) rows =
    (claim lease id digest retain_until now rows).1
call lease (records id response now) rows = elim (record_response id response now rows) [
  | none ↦ rows
  | some rows' ↦ rows'
]
call lease (releases id digest) rows = release id digest rows

unfoldable pub calls : ℕ → List Call → Table → Table
unfolding call
calls lease [] rows = rows
calls lease (c ∷ cs) rows = calls lease cs (call lease c rows)
