-- ===== src/Replay/Examples.antt =====
-- Runs of the guard of internal/trusttask/replay.go.
use vtafarm_api.Base.{true, false, List, [], ◌∷◌, some, find, ◌≡◌, refl, arith}
use vtafarm_api.Store.{TrustTaskExecution}
use vtafarm_api.Replay.Guard.{
  duplicate, is_fresh, Table, new_execution, prior_response, claim, record_response, Call, claims,
  records, releases, calls,
}
use vtafarm_api.Replay.Final.{recorded_answer}
use vtafarm_api.Replay.Lease.{single_execution}

abbrev document : TrustTaskExecution
document = new_execution 30 "doc" "d1" 1000 10

abbrev more_calls : List Call
more_calls =
    claims "other" "d7" 900 12
    ∷ records "other" "a" 13
    ∷ releases "other" "d7"
    ∷ claims "doc" "d2" 900 20
    ∷ []

recorded_answer_example :
    (rows' : Table) × (record_response "doc" "answer" 11 (document ∷ []) ≡ some rows')
    × (claim 30 "doc" "d1" 500 999 (calls 30 more_calls rows')
        ≡ (duplicate false (prior_response (some "answer")), calls 30 more_calls rows'))
unfolding find
recorded_answer_example =
    recorded_answer 30 "doc" "answer" 11 (document ∷ []) document more_calls 500 999 refl refl
      (omega arith, (tt, (tt, (omega arith, tt)))) (omega arith)

single_execution_example :
    is_fresh (claim 30 "doc" "d1" 500 39 (calls 30 more_calls (claim 30 "doc" "d1" 1000 10 []).1)).0
    ≡ false
unfolding claim find
single_execution_example =
    single_execution 30 40 "doc" "d1" 1000 10 [] document more_calls "d1" 500 39 refl refl
      (omega arith) (omega arith) (omega arith, (tt, (refl, (omega arith, tt)))) (omega arith)

-- A document whose lease has run out, and one that may be forgotten, are fresh again.
lease_over : is_fresh (claim 30 "doc" "d1" 1000 40 (document ∷ [])).0 ≡ true
unfolding claim find
lease_over = refl

forgotten : is_fresh (claim 30 "doc" "d9" 3000 1000 (document ∷ [])).0 ≡ true
unfolding claim find
forgotten = refl
