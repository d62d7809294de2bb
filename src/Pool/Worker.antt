-- ===== src/Pool/Worker.antt =====
-- internal/pool/runner.go: what one worker does with a session of its queue. The functions that
-- prepare, build and clean up a VTA act on Kubernetes and are arguments.
use vtafarm_api.Base.{
  ℕ, String, Bool, true, false, not, List, [], ◌∷◌, map, Option, none, some, ◌==◌, if◌then◌else◌,
  find, select, update_where, ◌&&◌, leb, any, zero, suc,
}
use vtafarm_api.Store.{SetupSession, SessionStatus, PoolSession, Db}
use vtafarm_api.Pool.Rows.{order_by}

abbrev pub is_deleting : SessionStatus → Bool
is_deleting SessionStatus.deleting = true
is_deleting _ = false

-- The statuses that the worker leaves alone.
abbrev pub is_settled : SessionStatus → Bool
is_settled SessionStatus.pool_waiting = true
is_settled SessionStatus.running = true
is_settled SessionStatus.failed = true
is_settled _ = false

-- prepare, build and cleanup: the database they leave and, if they fail, the error's text. An absent
-- function is a worker that is not configured.
pub record Jobs : Type 0 where
  pub prepare : Option (ℕ → Db → Db × Option String)
  pub build : Option (ℕ → Db → Db × Option String)
  pub cleanup : Option (ℕ → Db → Db × Option String)

-- recordBuildError
unfoldable pub record_build_error : ℕ → String → Db → Db
record_build_error id message db = record db {
  sessions =
      update_where (λ (s : SetupSession). s.id == id && not (is_deleting s.status))
        (λ s. record s { status = SessionStatus.failed; error_msg = message }) db.sessions;
}

-- recordCleanupError
unfoldable pub record_cleanup_error : ℕ → String → Db → Db
record_cleanup_error id message db = record db {
  sessions =
      update_where (λ (s : SetupSession). s.id == id && is_deleting s.status)
        (λ s. record s { error_msg = message }) db.sessions;
}

-- `stopped` is ctx.Err() != nil: the process is shutting down, and the error is not recorded.
abbrev pub recorded : (ℕ → String → Db → Db) → Bool → ℕ → Db × Option String → Db
recorded note stopped id (db, none) = db
recorded note stopped id (db, some message) = if stopped then db else note id message db

unfoldable pub clean : Jobs → Bool → ℕ → Db → Db
unfolding record_cleanup_error
clean jobs stopped id db = elim jobs.cleanup [
  | none ↦ db
  | some cleanup ↦ recorded record_cleanup_error stopped id (cleanup id db)
]

-- Build runs only after Prepare has succeeded.
unfoldable pub then_build : (ℕ → Db → Db × Option String) → Bool → ℕ → Db × Option String → Db
unfolding record_build_error
then_build build stopped id (db, none) = recorded record_build_error stopped id (build id db)
then_build build stopped id (db, some message) =
    if stopped then db else record_build_error id message db

unfoldable pub prepare_and_build : Jobs → Bool → ℕ → Db → Db
unfolding then_build record_build_error
prepare_and_build jobs stopped id db = elim jobs.prepare [
  | none ↦ record_build_error id "pool worker is not configured" db
  | some prepare ↦ elim jobs.build [
    | none ↦ record_build_error id "pool worker is not configured" db
    | some build ↦ then_build build stopped id (prepare id db)
  ]
]

-- runOne, once the advisory lock of the session is held (`locked`).
unfoldable pub run_one : Jobs → Bool → Bool → ℕ → Db → Db
unfolding clean prepare_and_build
run_one jobs locked stopped id db =
    if not locked then db else elim (find (λ (s : SetupSession). s.id == id) db.sessions) [
      | none ↦ db
      | some s ↦
          if is_deleting s.status
          then clean jobs stopped id db
          else if is_settled s.status
          then db
          else prepare_and_build jobs stopped id db
    ]

-- The statuses of the sessions that reconcile hands to the queue.
abbrev pub is_unfinished : SessionStatus → Bool
is_unfinished SessionStatus.pool_creating = true
is_unfinished SessionStatus.vta_setup_running = true
is_unfinished SessionStatus.pool_publishing = true
is_unfinished SessionStatus.pool_prepared = true
is_unfinished SessionStatus.deleting = true
is_unfinished _ = false

unfoldable pub take : ℕ → List ℕ → List ℕ
take zero xs = []
take (suc n) [] = []
take (suc n) (x ∷ xs) = x ∷ take n xs

unfoldable pub has_unfinished : Db → PoolSession → Bool
has_unfinished db m =
    any (λ (s : SetupSession). s.id == m.session_id && is_unfinished s.status) db.sessions

-- The session ids of the query of reconcile.
unfoldable pub reconcile_ids : Db → List ℕ
unfolding has_unfinished order_by select take
reconcile_ids db =
    take 500 (
      order_by leb
        (map (λ (m : PoolSession). m.session_id) (select (has_unfinished db) db.members)))
