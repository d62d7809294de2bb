-- ===== src/Replay/Final.antt =====
-- internal/trusttask/replay.go: what the calls of the guard do to a row, and that a recorded
-- response is final until the document may be forgotten.
use vtafarm_api.Base.{
  ℕ, ◌<◌, String, Bool, true, false, not, ◌&&◌, List, [], ◌∷◌, some, eq_iff, leb, find, find_holds,
  find-append_some, any, update_where, delete_where, when, select, ◌≡◌, refl, sym, ap, ◌∙◌, arith,
  All, Bool-cases, inl, inr,
}
use mathlib.Core.Path.{subst}
use mathlib.Core.Option.{some-injective}
use vtafarm_api.Store.{TrustTaskExecution}
use vtafarm_api.Connection.Claim.{is_executing, complete}
use vtafarm_api.Replay.Guard.{
  duplicate, Table, has_id, new_execution, restart, extend, prior_response, claim, record_response,
  is_releasable, release, Call, claims, records, releases, call, calls,
}

abbrev pub Holds : String → TrustTaskExecution → Table → Type 0
Holds id e rows = find (has_id id) rows ≡ some e

-- A row that the query finds is found again after an update that keeps the ids, as it is then.
pub find-update_where :
    (id : String) (p : TrustTaskExecution → Bool) (f : TrustTaskExecution → TrustTaskExecution)
    (rows : Table) (e : TrustTaskExecution)
    → ((x : TrustTaskExecution) → (f x).document_id ≡ x.document_id)
    → Holds id e rows
    → Holds id (when p f e) (update_where p f rows)
unfolding find
find-update_where id p f [] e keep h = cc
find-update_where id p f (x ∷ rows) e keep h =
    let same : has_id id (when p f x) ≡ has_id id x = elim (Bool-cases (p x)) [
      | inl t ↦ ground (arith, t, keep x)
      | inr t ↦ ground (arith, t)
    ] in
    elim (Bool-cases (has_id id x)) [
      | inl t ↦
          rw (same, t) (ap (λ r. some (when p f r)) (some-injective x e (ground (arith, t, h))))
      | inr t ↦ ground (arith, same, t, find-update_where id p f rows e keep)
    ]

-- A row that the query finds, and that is not deleted, is found after the deletion.
pub find-delete_where :
    (id : String) (p : TrustTaskExecution → Bool) (rows : Table) (e : TrustTaskExecution)
    → p e ≡ false
    → Holds id e rows
    → Holds id e (delete_where p rows)
unfolding find select
find-delete_where id p [] e stays h = cc
find-delete_where id p (x ∷ rows) e stays h = elim (Bool-cases (has_id id x)) [
  | inl t ↦
      let same : x ≡ e = some-injective x e (ground (arith, t, h)) in ground (arith, t, same, stays)
  | inr t ↦ elim (Bool-cases (p x)) [
    | inl gone ↦ ground (arith, t, gone, find-delete_where id p rows e stays)
    | inr left ↦ ground (arith, t, left, find-delete_where id p rows e stays)
  ]
]

-- Two ids of one row are one.
pub one_id :
    (id id' : String) (rows : Table) (e : TrustTaskExecution)
    → Holds id e rows
    → has_id id' e ≡ true
    → id' ≡ id
one_id id id' rows e h same =
    sym ((eq_iff e.document_id id').0 same)
    ∙ (eq_iff e.document_id id).0 (find_holds (has_id id) rows e h)

-- A claim of another document leaves a row as it is.
pub claim_other :
    (lease : ℕ) (id id' digest : String) (retain now : ℕ) (rows : Table) (e : TrustTaskExecution)
    → Holds id e rows
    → has_id id' e ≡ false
    → Holds id e (claim lease id' digest retain now rows).1
unfolding claim
claim_other lease id id' digest retain now rows e h other =
    let again =
      find-update_where id (has_id id') (restart lease digest retain now) rows e (λ x. refl) h in
    let longer = find-update_where id (has_id id') (extend lease now) rows e (λ x. refl) h in
    let added =
      find-append_some (has_id id) rows (new_execution lease id' digest retain now ∷ []) e h in
    ground (arith, again, longer, added, h, other)

-- A claim of the row's own document changes nothing while the row is neither forgotten nor free.
pub claim_same :
    (lease : ℕ) (id digest : String) (retain now : ℕ) (rows : Table) (e : TrustTaskExecution)
    → Holds id e rows
    → now < e.retain_until
    → (not e.completed && leb e.lease_expires_at now) ≡ false
    → (claim lease id digest retain now rows).1 ≡ rows
unfolding claim
claim_same lease id digest retain now rows e h early busy = ground (arith, h, early, busy)

-- The claims of the history come before a time.
abbrev pub IsEarly : ℕ → Call → Type 0
IsEarly limit (claims id digest retain now) = now < limit
IsEarly limit (records id response now) = Unit
IsEarly limit (releases id digest) = Unit

module _ (lease : ℕ) (id : String) (e : TrustTaskExecution) (done : e.completed ≡ true) where
  call-completed :
      (c : Call) (rows : Table)
      → IsEarly e.retain_until c
      → Holds id e rows
      → Holds id e (call lease c rows)
  unfolding call record_response release
  call-completed (claims id' digest retain now) rows early h = elim (Bool-cases (has_id id' e)) [
    | inl same ↦
        let own : Holds id' e rows =
          subst (λ i. Holds i e rows) (sym (one_id id id' rows e h same)) h in
        rw (claim_same lease id' digest retain now rows e own early (ground (arith, done))) h
    | inr other ↦ claim_other lease id id' digest retain now rows e h other
  ]
  call-completed (records id' response now) rows early h =
      let kept =
        find-update_where id (is_executing id') (complete response now) rows e (λ x. refl) h in
      ground (arith, kept, done, h)
  call-completed (releases id' digest) rows early h =
      find-delete_where id (is_releasable id' digest) rows e (ground (arith, done)) h

  pub calls-completed :
      (cs : List Call) (rows : Table)
      → All (IsEarly e.retain_until) cs
      → Holds id e rows
      → Holds id e (calls lease cs rows)
  unfolding calls
  calls-completed [] rows early h = h
  calls-completed (c ∷ cs) rows early h =
      calls-completed cs (call lease c rows) early.1 (call-completed c rows early.0 h)

any_executing :
    (id : String) (rows : Table) (e : TrustTaskExecution)
    → Holds id e rows
    → e.completed ≡ false
    → any (is_executing id) rows ≡ true
unfolding find any
any_executing id [] e h running = cc
any_executing id (x ∷ rows) e h running = ground (arith, any_executing id rows e, h, running)

record_response-Holds :
    (id response : String) (now : ℕ) (rows : Table) (e : TrustTaskExecution)
    → Holds id e rows
    → e.completed ≡ false
    → (rows' : Table) × (record_response id response now rows ≡ some rows')
      × Holds id (complete response now e) rows'
unfolding record_response
record_response-Holds id response now rows e h running =
    let here : is_executing id e ≡ true =
      ground (arith, running, find_holds (has_id id) rows e h) in
    let kept =
      find-update_where id (is_executing id) (complete response now) rows e (λ x. refl) h in
    (
      update_where (is_executing id) (complete response now) rows,
      ground (arith, any_executing id rows e h running),
      ground (arith, kept, here),
    )

-- Modelling internal/trusttask/replay.go: where the row of a document is executing, RecordResponse
-- succeeds; after it, and after any further calls of the guard whose claims come before the row's
-- retain_until (releases and further responses for the same document included), a claim of the
-- document that comes before retain_until finds a duplicate that is not in flight, with the
-- response that was recorded (none where it is empty), and changes nothing.
pub recorded_answer :
    (lease : ℕ) (id response : String) (now : ℕ) (rows : Table) (e : TrustTaskExecution)
    (cs : List Call) (retain at : ℕ)
    → Holds id e rows
    → e.completed ≡ false
    → All (IsEarly e.retain_until) cs
    → at < e.retain_until
    → (rows' : Table) × (record_response id response now rows ≡ some rows')
      × (claim lease id e.document_digest retain at (calls lease cs rows')
          ≡ (duplicate false (prior_response (some response)), calls lease cs rows'))
unfolding claim
recorded_answer lease id response now rows e cs retain at h running early before =
    let (rows', recorded, held) = record_response-Holds id response now rows e h running in
    let after = calls-completed lease id (complete response now e) refl cs rows' early held in
    (
      rows',
      recorded,
      ground (arith, after, before, (eq_iff e.document_digest e.document_digest).1 refl),
    )
