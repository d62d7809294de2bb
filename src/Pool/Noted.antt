-- ===== src/Pool/Noted.antt =====
-- internal/pool/runner.go: what a run of the worker may write beside the work of its jobs. A job may
-- leave any database: the deletion of its session may be requested while it runs.
use vtafarm_api.Base.{
  ℕ, String, Bool, true, false, List, [], ◌∷◌, Option, none, some, ◌==◌, find, if◌then◌else◌, ◌≡◌,
}
use vtafarm_api.Store.{SetupSession, SessionStatus, Db}
use vtafarm_api.Pool.Worker.{is_deleting, is_settled, Jobs}

-- How the jobs of a run end: well, or with an error of the cleanup or of the build. The text of an
-- error is dropped once the process is shutting down.
pub data Ended : Type 0 where
  well : Ended
  cleanup_error build_error : String → Ended

abbrev pub Left : Type 0
Left = Db × Ended

abbrev pub ended : (String → Ended) → Bool → Db × Option String → Left
ended error stopped (db, none) = (db, Ended.well)
ended error true (db, some message) = (db, Ended.well)
ended error false (db, some message) = (db, error message)

abbrev pub cleaned : Option (ℕ → Db → Db × Option String) → Bool → ℕ → Db → Left
cleaned none stopped x db = (db, Ended.well)
cleaned (some cleanup) stopped x db = ended Ended.cleanup_error stopped (cleanup x db)

abbrev pub built : (ℕ → Db → Db × Option String) → Bool → ℕ → Db × Option String → Left
built build stopped x (db, none) = ended Ended.build_error stopped (build x db)
built build stopped x (db, some message) = ended Ended.build_error stopped (db, some message)

abbrev pub prepared :
    Option (ℕ → Db → Db × Option String)
    → Option (ℕ → Db → Db × Option String)
    → Bool
    → ℕ
    → Db
    → Left
prepared none build stopped x db = (db, Ended.build_error "pool worker is not configured")
prepared (some prepare) none stopped x db = (db, Ended.build_error "pool worker is not configured")
prepared (some prepare) (some build) stopped x db = built build stopped x (prepare x db)

-- The database that the jobs leave, and how they end.
unfoldable pub left_by : Jobs → Bool → Bool → ℕ → Db → Left
left_by jobs false stopped x db = (db, Ended.well)
left_by jobs true stopped x db = elim (find (λ (s : SetupSession). s.id == x) db.sessions) [
  | none ↦ (db, Ended.well)
  | some s ↦
      if is_deleting s.status
      then cleaned jobs.cleanup stopped x db
      else if is_settled s.status
      then (db, Ended.well)
      else prepared jobs.prepare jobs.build stopped x db
]

-- How a run on session `x` may write a session, by how its jobs ended. A session that is being torn
-- down keeps its status.
pub data Noted (x : ℕ) : Ended → SetupSession → SetupSession → Type 0 where
  unchanged : (s : SetupSession) → Noted x Ended.well s s
  of_others : (e : Ended) (s : SetupSession) → (s.id == x) ≡ false → Noted x e s s
  cleanup_failed :
      (s : SetupSession) (message : String)
      → (s.id == x) ≡ true
      → is_deleting s.status ≡ true
      → Noted x (Ended.cleanup_error message) s (record s { error_msg = message })
  no_more_deleted :
      (s : SetupSession) (message : String)
      → is_deleting s.status ≡ false
      → Noted x (Ended.cleanup_error message) s s
  build_failed :
      (s : SetupSession) (message : String)
      → (s.id == x) ≡ true
      → is_deleting s.status ≡ false
      → Noted x
          (Ended.build_error message)
          s
          (record s { status = SessionStatus.failed; error_msg = message })
  deleted_meanwhile :
      (s : SetupSession) (message : String)
      → is_deleting s.status ≡ true
      → Noted x (Ended.build_error message) s s

abbrev pub AllNoted : ℕ → Ended → List SetupSession → List SetupSession → Type 0
AllNoted x e [] [] = Unit
AllNoted x e (s ∷ ss) (t ∷ ts) = Noted x e s t × AllNoted x e ss ts
AllNoted x e [] (t ∷ ts) = ⊥
AllNoted x e (s ∷ ss) [] = ⊥

-- Nothing but the sessions is written, and each of them as noted.
abbrev pub IsNoted : ℕ → Left → Db → Type 0
IsNoted x (db, e) after =
    (after ≡ record db { sessions = after.sessions }) × AllNoted x e db.sessions after.sessions
