-- ===== src/Connection/History.antt =====
-- Any sequence of the operations of internal/connection/store.go, as the handlers, the wallets and
-- the recovery loop issue them. The row locks make the operations of one session a sequence.
use vtafarm_api.Base.{
  ℕ, ◌≡◌, refl, ◌∙◌, sym, String, Bool, true, List, [], ◌∷◌, Option, some, arith, find, ◌==◌,
  is_some, find-All, Bool-cases, inl, inr, ◌||◌,
}
use mathlib.Core.Path.{subst}
use mathlib.Core.Option.{some-injective}
use vtafarm_api.Store.{SetupSession, MobileConnection, Db, after}
use vtafarm_api.Connection.Rules.{is_active, final_status, is_provisioning, is_released, latest}
use vtafarm_api.Connection.Reserve.{Action, Fresh, change}
use vtafarm_api.Connection.Claim.{claim, confirm, reject}
use vtafarm_api.Connection.Provision.{start_provisioning, mark_released, mark_failed, reconcile}
use vtafarm_api.Connection.Settle.{
  accept_manual, cancel_pending, stop, acquire_redeem_poll, release_redeem_poll,
}
use vtafarm_api.Connection.Lifecycle.{◌⟶*◌, Moves, IsStamped, ⟶*-final}
use vtafarm_api.Connection.Table.{by_id, IsValid, Evolves}
use vtafarm_api.Connection.Grows.{Grows, Grows-refl, Grows-trans}
use vtafarm_api.Connection.Steps.{
  confirm-Grows, reject-Grows, start_provisioning-Grows, mark_released-Grows, claim-Grows,
}
use vtafarm_api.Connection.Settled.{
  mark_failed-Grows, reconcile-Grows, accept_manual-Grows, cancel_pending-Grows, stop-Grows,
  acquire_redeem_poll-Grows, release_redeem_poll-Grows,
}
use vtafarm_api.Connection.Change.{change-Grows}

-- One call, with the clock that it reads and what it draws at random.
pub data Command : Type 0 where
  changes : ℕ → Fresh → ℕ → Action → Option ℕ → Bool → Command
  claims : ℕ → String → String → Option (String × String) → Command
  confirms rejects : ℕ → ℕ → ℕ → Command
  starts releases : ℕ → ℕ → Command
  fails : ℕ → String → Command
  reconciles : ℕ → ℕ → MobileConnection → SetupSession → Command
  accepts : ℕ → ℕ → String → Bool → Command
  cancels stops : ℕ → Command
  acquires : ℕ → ℕ → String → ℕ → Command
  frees : ℕ → String → Command

module _ (validate : String → Option String) (digest : String → String) where
  unfoldable pub step : Command → Db → Db
  step (changes now fresh session_id action expected pooled) db =
      after (change now fresh session_id action expected pooled db)
  step (claims now handle value reply) db = after (claim validate digest now handle value reply db)
  step (confirms now session_id id) db = after (confirm now session_id id db)
  step (rejects now session_id id) db = after (reject now session_id id db)
  step (starts now id) db = after (start_provisioning now id db)
  step (releases now id) db = after (mark_released digest now id db)
  step (fails id reason) db = after (mark_failed id reason db)
  step (reconciles now later r s) db = after (reconcile digest now later r s db)
  step (accepts now session_id value resume) db =
      after (accept_manual validate now session_id value resume db)
  step (cancels session_id) db = after (cancel_pending session_id db)
  step (stops session_id) db = after (stop session_id db)
  step (acquires now id poll_id lease) db = after (acquire_redeem_poll now id poll_id lease db)
  step (frees id poll_id) db = after (release_redeem_poll id poll_id db)

  unfoldable pub run : List Command → Db → Db
  run [] db = db
  run (c ∷ cs) db = run cs (step c db)

  step-Grows : (c : Command) (db : Db) → Grows db.connections (step c db).connections
  unfolding step
  step-Grows (changes now fresh session_id action expected pooled) db =
      change-Grows now fresh session_id action expected pooled db
  step-Grows (claims now handle value reply) db =
      claim-Grows validate digest now handle value reply db
  step-Grows (confirms now session_id id) db = confirm-Grows now session_id id db
  step-Grows (rejects now session_id id) db = reject-Grows now session_id id db
  step-Grows (starts now id) db = start_provisioning-Grows now id db
  step-Grows (releases now id) db = mark_released-Grows digest now id db
  step-Grows (fails id reason) db = mark_failed-Grows id reason db
  step-Grows (reconciles now later r s) db = reconcile-Grows digest now later r s db
  step-Grows (accepts now session_id value resume) db =
      accept_manual-Grows validate now session_id value resume db
  step-Grows (cancels session_id) db = cancel_pending-Grows session_id db
  step-Grows (stops session_id) db = stop-Grows session_id db
  step-Grows (acquires now id poll_id lease) db = acquire_redeem_poll-Grows now id poll_id lease db
  step-Grows (frees id poll_id) db = release_redeem_poll-Grows id poll_id db

  run-Grows : (cs : List Command) (db : Db) → Grows db.connections (run cs db).connections
  unfolding run
  run-Grows [] db = Grows-refl db.connections
  run-Grows (c ∷ cs) db =
      Grows-trans db.connections (step c db).connections (run cs (step c db)).connections
        (step-Grows c db) (run-Grows cs (step c db))

  -- From a valid table, any sequence of operations leads to a valid table: reservation ids stay
  -- unique, an active reservation is the current one of its session, and the timestamps that a
  -- status requires are there.
  pub run-IsValid :
      (cs : List Command) (db : Db) → IsValid db.connections → IsValid (run cs db).connections
  run-IsValid cs db v = (run-Grows cs db v).0

find-Evolves :
    (id : ℕ) (cs ds : List MobileConnection) (c : MobileConnection)
    → Evolves cs ds
    → find (by_id id) cs ≡ some c
    → (d : MobileConnection) × (find (by_id id) ds ≡ some d) × Moves c d
unfolding find
find-Evolves id [] ds c e f = cc
find-Evolves id (x ∷ cs) [] c e f = absurd e
find-Evolves id (x ∷ cs) (y ∷ ds) c e f = elim (Bool-cases (x.id == id)) [
  | inl h ↦
      (y, ground (arith, e.0.id), subst (λ k. Moves k y) (some-injective x c (ground arith)) e.0)
  | inr h ↦
      let (d, g, m) = find-Evolves id cs ds c e.1 (ground arith) in (d, ground (arith, e.0.id), m)
]

module _ (validate : String → Option String) (digest : String → String) (cs : List Command)
    (db : Db) where
  -- From a valid table, a reservation that is in the table stays in it under any sequence of
  -- operations: its session, its creation time and its handle do not change, and its status
  -- follows the lifecycle.
  pub run_follows :
      (id : ℕ) (c : MobileConnection)
      → IsValid db.connections
      → find (by_id id) db.connections ≡ some c
      → (d : MobileConnection) × (find (by_id id) (run validate digest cs db).connections ≡ some d)
        × (d.session_id ≡ c.session_id)
        × (d.created_at ≡ c.created_at)
        × (d.claim_handle ≡ c.claim_handle)
        × (c.status ⟶* d.status)
  run_follows id c v f =
      let (d, g, m) = find-Evolves id db.connections _ c (run-Grows validate digest cs db v).1 f in
      (d, g, m.session_id, m.created_at, m.claim_handle, m.status)

  -- From a valid table, a released, rejected, lapsed, cancelled, expired or failed reservation is
  -- never revived: no sequence of operations changes its status.
  pub final_kept :
      (id : ℕ) (c : MobileConnection)
      → IsValid db.connections
      → find (by_id id) db.connections ≡ some c
      → final_status c.status ≡ true
      → (d : MobileConnection) × (find (by_id id) (run validate digest cs db).connections ≡ some d)
        × (d.status ≡ c.status)
  final_kept id c v f h =
      let (d, g, m) = find-Evolves id db.connections _ c (run-Grows validate digest cs db v).1 f in
      (d, g, ⟶*-final m.status h)

  -- From a valid table, after any sequence of operations, two rows that queries find, that belong to
  -- one session and are open, claimed, confirmed or provisioning are one row.
  pub one_active :
      (p q : MobileConnection → Bool) (c d : MobileConnection)
      → IsValid db.connections
      → find p (run validate digest cs db).connections ≡ some c
      → find q (run validate digest cs db).connections ≡ some d
      → c.session_id ≡ d.session_id
      → is_active c.status ≡ true
      → is_active d.status ≡ true
      → c ≡ d
  one_active p q c d v f g e a b =
      some-injective c d (sym (current c p f e a) ∙ current d q g refl b)
    where
      table : List MobileConnection
      table = (run validate digest cs db).connections

      current :
          (x : MobileConnection) (p : MobileConnection → Bool)
          → find p table ≡ some x
          → x.session_id ≡ d.session_id
          → is_active x.status ≡ true
          → latest d.session_id table ≡ some x
      current x p h =
          find-All
            (λ x.
              x.session_id ≡ d.session_id
              → is_active x.status ≡ true
              → latest d.session_id table ≡ some x)
            p table x ((run-IsValid validate digest cs db v).tidy d.session_id) h

  -- From a valid table, after any sequence of operations, a reservation that a query finds and that
  -- is provisioning or released was confirmed: it carries the time of its confirmation.
  pub provisioned_confirmed :
      (p : MobileConnection → Bool) (c : MobileConnection)
      → IsValid db.connections
      → find p (run validate digest cs db).connections ≡ some c
      → (is_provisioning c.status || is_released c.status) ≡ true
      → is_some c.confirmed_at ≡ true
  provisioned_confirmed p c v f h =
      let s : IsStamped c =
        find-All IsStamped p _ c (run-IsValid validate digest cs db v).stamped f in
      ground (arith, s.provisioning, s.released)
