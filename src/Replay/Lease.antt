-- ===== src/Replay/Lease.antt =====
-- internal/trusttask/replay.go: while an execution's lease runs, nobody else executes the document.
use vtafarm_api.Base.{
  ℕ, ◌+◌, ◌<◌, ◌≤◌, String, true, false, not, List, [], ◌∷◌, str_eq, eq_iff, leb, find, find_holds,
  find-append_none, any, ◌≡◌, refl, sym, ◌∙◌, arith, All, Bool-cases, Option-cases, inl, inr,
}
use mathlib.Core.Path.{subst}
use mathlib.Core.Option.{some-injective}
use vtafarm_api.Store.{TrustTaskExecution}
use vtafarm_api.Connection.Claim.{is_executing, complete}
use vtafarm_api.Replay.Guard.{
  is_fresh, Table, has_id, new_execution, restart, extend, claim, record_response, is_releasable,
  release, Call, claims, records, releases, call, calls,
}
use vtafarm_api.Replay.Final.{
  Holds, find-update_where, find-delete_where, one_id, claim_other, claim_same,
}

-- The document's row may not be claimed afresh before the time.
abbrev pub Busy : ℕ → String → Table → Type 0
Busy limit id rows =
    (e : TrustTaskExecution) × Holds id e rows
    × (limit ≤ e.retain_until)
    × ((not e.completed) ≡ true → limit ≤ e.lease_expires_at)

-- The call is no claim at or after the time, and no release of the document.
abbrev pub Leaves : ℕ → String → Call → Type 0
Leaves limit id (claims id' digest retain now) = now < limit
Leaves limit id (records id' response now) = Unit
Leaves limit id (releases id' digest) = str_eq id id' ≡ false

module _ (lease limit : ℕ) (id : String) where
  call-Busy :
      (c : Call) (rows : Table)
      → Leaves limit id c
      → Busy limit id rows
      → Busy limit id (call lease c rows)
  unfolding call record_response release
  call-Busy (claims id' digest retain now) rows early (e, h, kept, leased) =
      elim (Bool-cases (has_id id' e)) [
        | inl same ↦
            let own : Holds id' e rows =
              subst (λ i. Holds i e rows) (sym (one_id id id' rows e h same)) h in
            rw
              (claim_same lease id' digest retain now rows e own (omega (arith, early, kept))
                (ground (arith, early, leased)))
              (e, h, kept, leased)
        | inr other ↦ (e, claim_other lease id id' digest retain now rows e h other, kept, leased)
      ]
  call-Busy (records id' response now) rows early (e, h, kept, leased) =
      let done =
        find-update_where id (is_executing id') (complete response now) rows e (λ x. refl) h in
      elim (Bool-cases (any (is_executing id') rows)) [
        | inl some_row ↦ elim (Bool-cases (is_executing id' e)) [
          | inl here ↦ (
            complete response now e,
            ground (arith, some_row, done, here),
            kept,
            (λ t. ground (arith, t)),
          )
          | inr other ↦ (e, ground (arith, some_row, done, other), kept, leased)
        ]
        | inr no_row ↦ (e, ground (arith, no_row, h), kept, leased)
      ]
  call-Busy (releases id' digest) rows apart (e, h, kept, leased) =
      let own = (eq_iff e.document_id id).0 (find_holds (has_id id) rows e h) in
      (
        e,
        find-delete_where id (is_releasable id' digest) rows e
            (ground (arith, subst (λ i. str_eq i id' ≡ false) (sym own) apart)) h,
        kept,
        leased,
      )

  calls-Busy :
      (cs : List Call) (rows : Table)
      → All (Leaves limit id) cs
      → Busy limit id rows
      → Busy limit id (calls lease cs rows)
  unfolding calls
  calls-Busy [] rows early h = h
  calls-Busy (c ∷ cs) rows early h =
      calls-Busy cs (call lease c rows) early.1 (call-Busy c rows early.0 h)

  Busy-claim :
      (digest : String) (retain at : ℕ) (rows : Table)
      → at < limit
      → Busy limit id rows
      → is_fresh (claim lease id digest retain at rows).0 ≡ false
  unfolding claim
  Busy-claim digest retain at rows early (e, h, kept, leased) =
      ground (arith, h, kept, leased, early)

-- An execution that has just begun.
abbrev IsStarted : ℕ → ℕ → TrustTaskExecution → Type 0
IsStarted lease now e = (e.completed ≡ false) × (e.lease_expires_at ≡ now + lease)

-- What a fresh verdict leaves in the table.
fresh_claim :
    (lease : ℕ) (id digest : String) (retain now : ℕ) (rows : Table)
    → is_fresh (claim lease id digest retain now rows).0 ≡ true
    → (e : TrustTaskExecution) × Holds id e (claim lease id digest retain now rows).1
      × IsStarted lease now e
unfolding claim find
fresh_claim lease id digest retain now rows t = elim (Option-cases (find (has_id id) rows)) [
  | inl e ↦
      let new = new_execution lease id digest retain now in
      let self : str_eq id id ≡ true = (eq_iff id id).1 refl in
      (new, ground (arith, e, self, find-append_none (has_id id) rows (new ∷ []) e), (refl, refl))
  | inr (e, h) ↦
      let own = find_holds (has_id id) rows e h in
      let again =
        find-update_where id (has_id id) (restart lease digest retain now) rows e (λ x. refl) h in
      let longer = find-update_where id (has_id id) (extend lease now) rows e (λ x. refl) h in
      elim (Bool-cases (leb e.retain_until now)) [
        | inl over ↦
            (restart lease digest retain now e, ground (arith, h, own, again, over), (refl, refl))
        | inr kept ↦ (
          extend lease now e,
          ground (arith, h, own, longer, kept, t),
          (ground (arith, h, kept, t), refl),
        )
      ]
]

-- Modelling internal/trusttask/replay.go: a document that a claim finds fresh is executed once.
-- Take a limit up to which the claim's lease runs and the row that the claim leaves is kept. After
-- any further calls of the guard that are no claims from the limit on and do not release the
-- document, responses recorded for it included, no claim of the document before the limit is
-- fresh, whatever its digest.
pub single_execution :
    (lease limit : ℕ) (id digest : String) (retain now : ℕ) (rows : Table) (e : TrustTaskExecution)
    (cs : List Call) (digest' : String) (retain' at : ℕ)
    → is_fresh (claim lease id digest retain now rows).0 ≡ true
    → Holds id e (claim lease id digest retain now rows).1
    → limit ≤ e.retain_until
    → limit ≤ now + lease
    → All (Leaves limit id) cs
    → at < limit
    → is_fresh
        (claim lease id digest' retain' at
          (calls lease cs (claim lease id digest retain now rows).1)).0
      ≡ false
single_execution lease limit id digest retain now rows e cs digest' retain' at t h kept leased early
      before =
    let after = (claim lease id digest retain now rows).1 in
    let (x, held, started) = fresh_claim lease id digest retain now rows t in
    let same : x ≡ e = some-injective x e (sym held ∙ h) in
    let (running, ends) = subst (IsStarted lease now) same started in
    Busy-claim lease limit id digest' retain' at (calls lease cs after) before
      (calls-Busy lease limit id cs after early (e, h, kept, (λ r. omega (arith, leased, ends))))
