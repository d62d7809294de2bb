-- ===== src/Upgrade/Effects.antt =====
-- internal/upgrade/runner.go: how a run of a task may end.
use vtafarm_api.Base.{
  ℕ, String, false, none, some, str_eq, find, ◌≡◌, refl, ◌⊎◌, arith, Bool-cases, Option-cases, inl,
  inr,
}
use vtafarm_api.Upgrade.Rows.{
  TaskStatus, UpgradeTask, Component, Session, State, is_task, find_session,
}
use vtafarm_api.Upgrade.Task.{
  Answers, wait_for_rollout, set_task, pause, patch, record_image, record_successful_upgrade,
  restore, rollback_task, roll_out, run_session, run_task, ◌◇◌,
}

-- The state once the target image has been requested.
abbrev pub requested : UpgradeTask → Session → Component → State → State
requested t s c st = patch s c t.to_image (set_task t.id TaskStatus.running "" st)

-- The image was requested, became ready and was recorded.
abbrev pub IsReady : Answers → Type 0
IsReady a = (a.patched ≡ none) × (wait_for_rollout a.rollout "" ≡ none) × (a.recorded ≡ none)

abbrev pub finished : UpgradeTask → Session → Component → State → State
finished t s c st =
    set_task t.id TaskStatus.succeeded "" (record_successful_upgrade s t c (requested t s c st))

pub roll_out-cases :
    (a : Answers) (id : ℕ) (t : UpgradeTask) (s : Session) (c : Component) (st : State)
    → (roll_out a id t s c st ≡ st)
      ⊎ (((cause : String) × (roll_out a id t s c st
              ≡ rollback_task a id t s c cause (requested t s c st)))
          ⊎ (IsReady a × (roll_out a id t s c st ≡ finished t s c st)))
unfolding roll_out
roll_out-cases a id t s c st = elim (Option-cases a.started) [
  | inr (message, e) ↦ inl (rw e refl)
  | inl started ↦ elim (Option-cases a.patched) [
    | inr (message, e) ↦ inr (inl ("patch deployment: " ◇ message, rw (started, e) refl))
    | inl patched ↦ elim (Option-cases (wait_for_rollout a.rollout "")) [
      | inr (message, e) ↦ inr (inl (message, rw (started, patched, e) refl))
      | inl ready ↦ elim (Option-cases a.recorded) [
        | inr (message, e) ↦
            inr (inl ("record new image: " ◇ message, rw (started, patched, ready, e) refl))
        | inl recorded ↦
            inr (inr ((patched, ready, recorded), rw (started, patched, ready, recorded) refl))
      ]
    ]
  ]
]

-- A rollback that is not saved changes nothing; one that is saved goes on to restore the image.
pub rollback_unsaved :
    (a : Answers) (id : ℕ) (t : UpgradeTask) (s : Session) (c : Component) (cause message : String)
    (st : State)
    → a.rollback_saved ≡ some message
    → rollback_task a id t s c cause st ≡ st
unfolding rollback_task
rollback_unsaved a id t s c cause message st e = rw e refl

pub rollback_begun :
    (a : Answers) (id : ℕ) (t : UpgradeTask) (s : Session) (c : Component) (cause : String)
    (st : State)
    → a.rollback_saved ≡ none
    → rollback_task a id t s c cause st
      ≡ restore a t s c cause (pause id (set_task t.id TaskStatus.rolling_back cause st))
unfolding rollback_task
rollback_begun a id t s c cause st e = rw e refl

-- The previous image was requested, became ready and was recorded.
abbrev pub IsRestored : Answers → UpgradeTask → Type 0
IsRestored a t =
    (str_eq t.from_image "" ≡ false)
    × (a.restored ≡ none)
    × (wait_for_rollout a.restore_rollout "" ≡ none)
    × (a.restore_recorded ≡ none)

-- A rollback sets the task's status, and requests at most the previous image.
pub restore-cases :
    (a : Answers) (t : UpgradeTask) (s : Session) (c : Component) (cause : String) (st : State)
    → ((message : String) × (restore a t s c cause st
          ≡ set_task t.id TaskStatus.rollback_failed message st))
      ⊎ (((message : String) × (restore a t s c cause st
              ≡ set_task t.id TaskStatus.rollback_failed message (patch s c t.from_image st)))
          ⊎ (IsRestored a t
              × (message : String) × (restore a t s c cause st
                  ≡ set_task t.id TaskStatus.rolled_back message
                      (record_image t.session_id c t.from_image (patch s c t.from_image st)))))
unfolding restore
restore-cases a t s c cause st = elim (Bool-cases (str_eq t.from_image "")) [
  | inl e ↦ inl (cause ◇ "; rollback failed: previous image is missing", rw e refl)
  | inr named ↦ elim (Option-cases a.restored) [
    | inr (message, e) ↦ inr (inl (cause ◇ "; rollback failed: " ◇ message, rw (named, e) refl))
    | inl asked ↦ elim (Option-cases (wait_for_rollout a.restore_rollout "")) [
      | inr (message, e) ↦
          inr (inl (cause ◇ "; rollback failed: " ◇ message, rw (named, asked, e) refl))
      | inl ready ↦ elim (Option-cases a.restore_recorded) [
        | inr (message, e) ↦ inr (
            inl (
              cause ◇ "; previous image is ready but recording it failed: " ◇ message,
              rw (named, asked, ready, e) refl,
            ))
        | inl recorded ↦ inr (
            inr (
              (named, asked, ready, recorded),
              cause ◇ "; rolled back to " ◇ t.from_image ◇ " and confirmed ready",
              rw (named, asked, ready, recorded) refl,
            ))
      ]
    ]
  ]
]

module _ (a : Answers) (id task_id : ℕ) (st : State) (t : UpgradeTask)
    (here : find (is_task task_id) st.tasks ≡ some t) where
  pub run_task_gone :
      find_session t.session_id st ≡ none
      → run_task a id task_id st ≡ set_task t.id TaskStatus.skipped "session no longer exists" st
  unfolding run_task
  run_task_gone e = ground (arith, here, e)

  pub run_task_there :
      (s : Session)
      → find_session t.session_id st ≡ some s
      → run_task a id task_id st ≡ run_session a id t s st
  unfolding run_task
  run_task_there s e = ground (arith, here, e)
