-- ===== src/Pool/Teardown.antt =====
-- internal/pool/runner.go: what a run of the worker writes, measured against `Noted`.
use vtafarm_api.Base.{
  ℕ, String, Bool, true, false, not, ◌&&◌, List, [], ◌∷◌, Option, none, some, ◌==◌, find,
  update_where, ◌≡◌, refl, sym, arith, Bool-cases, Option-cases, inl, inr,
}
use mathlib.Core.Path.{subst}
use vtafarm_api.Store.{SetupSession, SessionStatus, Db}
use vtafarm_api.Pool.Worker.{
  is_deleting, is_settled, Jobs, record_build_error, record_cleanup_error, recorded, clean,
  then_build, prepare_and_build, run_one,
}
use vtafarm_api.Pool.Noted.{
  Left, Ended, ended, cleaned, built, prepared, left_by, Noted, AllNoted, IsNoted,
}

module _ (x : ℕ) where
  all_unchanged : (ss : List SetupSession) → AllNoted x Ended.well ss ss
  all_unchanged [] = tt
  all_unchanged (s ∷ ss) = (Noted.unchanged s, all_unchanged ss)

  well-IsNoted : (db : Db) → IsNoted x (db, Ended.well) db
  well-IsNoted db = (refl, all_unchanged db.sessions)

  build_noted :
      (message : String) (ss : List SetupSession)
      → AllNoted x (Ended.build_error message) ss (
          update_where
            (λ (s : SetupSession). s.id == x && not (is_deleting s.status))
            (λ s. record s { status = SessionStatus.failed; error_msg = message })
            ss)
  build_noted message [] = tt
  build_noted message (s ∷ ss) = elim (Bool-cases (s.id == x)) [
    | inr e ↦ rw e (Noted.of_others (Ended.build_error message) s e, build_noted message ss)
    | inl e ↦ elim (Bool-cases (is_deleting s.status)) [
      | inl d ↦ rw (e, d) (Noted.deleted_meanwhile s message d, build_noted message ss)
      | inr d ↦ rw (e, d) (Noted.build_failed s message e d, build_noted message ss)
    ]
  ]

  cleanup_noted :
      (message : String) (ss : List SetupSession)
      → AllNoted x (Ended.cleanup_error message) ss (
          update_where
            (λ (s : SetupSession). s.id == x && is_deleting s.status)
            (λ s. record s { error_msg = message })
            ss)
  cleanup_noted message [] = tt
  cleanup_noted message (s ∷ ss) = elim (Bool-cases (s.id == x)) [
    | inr e ↦ rw e (Noted.of_others (Ended.cleanup_error message) s e, cleanup_noted message ss)
    | inl e ↦ elim (Bool-cases (is_deleting s.status)) [
      | inl d ↦ rw (e, d) (Noted.cleanup_failed s message e d, cleanup_noted message ss)
      | inr d ↦ rw (e, d) (Noted.no_more_deleted s message d, cleanup_noted message ss)
    ]
  ]

  build_error-IsNoted :
      (db : Db) (message : String)
      → IsNoted x (db, Ended.build_error message) (record_build_error x message db)
  unfolding record_build_error
  build_error-IsNoted db message = (refl, build_noted message db.sessions)

  build-IsNoted :
      (stopped : Bool) (o : Db × Option String)
      → IsNoted x (ended Ended.build_error stopped o) (recorded record_build_error stopped x o)
  build-IsNoted stopped (db, none) = well-IsNoted db
  build-IsNoted true (db, some message) = well-IsNoted db
  build-IsNoted false (db, some message) = build_error-IsNoted db message

  cleanup-IsNoted :
      (stopped : Bool) (o : Db × Option String)
      → IsNoted x (ended Ended.cleanup_error stopped o) (recorded record_cleanup_error stopped x o)
  unfolding record_cleanup_error
  cleanup-IsNoted stopped (db, none) = well-IsNoted db
  cleanup-IsNoted true (db, some message) = well-IsNoted db
  cleanup-IsNoted false (db, some message) = (refl, cleanup_noted message db.sessions)

  clean-IsNoted :
      (jobs : Jobs) (cleanup : Option (ℕ → Db → Db × Option String)) (stopped : Bool) (db : Db)
      → jobs.cleanup ≡ cleanup
      → IsNoted x (cleaned cleanup stopped x db) (clean jobs stopped x db)
  unfolding clean
  clean-IsNoted jobs none stopped db e = rw e (well-IsNoted db)
  clean-IsNoted jobs (some job) stopped db e = rw e (cleanup-IsNoted stopped (job x db))

  then_build-IsNoted :
      (build : ℕ → Db → Db × Option String) (stopped : Bool) (o : Db × Option String)
      → IsNoted x (built build stopped x o) (then_build build stopped x o)
  unfolding then_build
  then_build-IsNoted build stopped (db, none) = build-IsNoted stopped (build x db)
  then_build-IsNoted build true (db, some message) = well-IsNoted db
  then_build-IsNoted build false (db, some message) = build_error-IsNoted db message

  prepare-IsNoted :
      (jobs : Jobs) (prepare build : Option (ℕ → Db → Db × Option String)) (stopped : Bool)
      (db : Db)
      → jobs.prepare ≡ prepare
      → jobs.build ≡ build
      → IsNoted x (prepared prepare build stopped x db) (prepare_and_build jobs stopped x db)
  unfolding prepare_and_build
  prepare-IsNoted jobs none build stopped db e f =
      rw e (build_error-IsNoted db "pool worker is not configured")
  prepare-IsNoted jobs (some prepare) none stopped db e f =
      rw (e, f) (build_error-IsNoted db "pool worker is not configured")
  prepare-IsNoted jobs (some prepare) (some build) stopped db e f =
      rw (e, f) (then_build-IsNoted build stopped (prepare x db))

module _ (jobs : Jobs) (stopped : Bool) (x : ℕ) (db : Db) where
  is_noted :
      (left : Left) (d : Db)
      → left_by jobs true stopped x db ≡ left
      → run_one jobs true stopped x db ≡ d
      → IsNoted x left d
      → IsNoted x (left_by jobs true stopped x db) (run_one jobs true stopped x db)
  is_noted left d e f h =
      subst (λ l. IsNoted x l (run_one jobs true stopped x db)) (sym e)
        (subst (IsNoted x left) (sym f) h)

  run_gone :
      find (λ (s : SetupSession). s.id == x) db.sessions ≡ none
      → IsNoted x (left_by jobs true stopped x db) (run_one jobs true stopped x db)
  unfolding run_one left_by
  run_gone e =
      is_noted (db, Ended.well) db (ground (arith, e)) (ground (arith, e)) (well-IsNoted x db)

  run_there :
      (s : SetupSession)
      → find (λ (s : SetupSession). s.id == x) db.sessions ≡ some s
      → IsNoted x (left_by jobs true stopped x db) (run_one jobs true stopped x db)
  unfolding run_one left_by
  run_there s e = elim (Bool-cases (is_deleting s.status)) [
    | inl d ↦
        is_noted (cleaned jobs.cleanup stopped x db) (clean jobs stopped x db)
          (ground (arith, e, d)) (ground (arith, e, d))
          (clean-IsNoted x jobs jobs.cleanup stopped db refl)
    | inr d ↦ elim (Bool-cases (is_settled s.status)) [
      | inl k ↦
          is_noted (db, Ended.well) db (ground (arith, e, d, k)) (ground (arith, e, d, k))
            (well-IsNoted x db)
      | inr k ↦
          is_noted (prepared jobs.prepare jobs.build stopped x db)
            (prepare_and_build jobs stopped x db) (ground (arith, e, d, k))
            (ground (arith, e, d, k))
            (prepare-IsNoted x jobs jobs.prepare jobs.build stopped db refl refl)
    ]
  ]

-- Modelling internal/pool/runner.go: whatever the jobs of a run of the worker do, the run leaves the
-- database as they left it, but for its own session after an error. If that session is then being torn
-- down, also because this was requested during a build that fails, it keeps its status: the error of a
-- cleanup is noted at it, and that of a build is dropped. If it is not, a build's error makes it failed,
-- with the error's text. Errors of jobs that end as the process shuts down are not noted.
pub run_one-IsNoted :
    (jobs : Jobs) (locked stopped : Bool) (x : ℕ) (db : Db)
    → IsNoted x (left_by jobs locked stopped x db) (run_one jobs locked stopped x db)
unfolding run_one left_by
run_one-IsNoted jobs false stopped x db = well-IsNoted x db
run_one-IsNoted jobs true stopped x db =
    elim (Option-cases (find (λ (s : SetupSession). s.id == x) db.sessions)) [
      | inl e ↦ run_gone jobs stopped x db e
      | inr (s, e) ↦ run_there jobs stopped x db s e
    ]
