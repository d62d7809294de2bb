-- ===== src/Upgrade/FailFast.antt =====
-- internal/upgrade/runner.go: a task that fails stops its batch.
use vtafarm_api.Base.{
  ℕ, String, Bool, true, false, List, [], ◌∷◌, none, some, str_eq, ==→eq, find, find_holds,
  update_where, ◌≡◌, refl, sym, ap, arith, All, Bool-cases, Option-cases, inl, inr,
}
use mathlib.Core.Path.{subst}
use vtafarm_api.Upgrade.Rows.{
  BatchStatus, TaskStatus, UpgradeBatch, UpgradeTask, Component, component_named, Session, State,
  is_task, is_running_batch, find_session,
}
use vtafarm_api.Upgrade.Task.{
  Answers, set_task, pause, fail_task, record_successful_upgrade, restore, rollback_task, roll_out,
  is_rolling_back, may_start, run_found, run_session, run_task,
}
use vtafarm_api.Upgrade.Effects.{
  requested, finished, roll_out-cases, rollback_unsaved, run_task_gone, run_task_there,
}
use vtafarm_api.Upgrade.Run.{is_pending, is_running_in, is_batch_running, run_tasks}

-- The task has failed, or its image is or was taken back.
abbrev pub is_failure : TaskStatus → Bool
is_failure TaskStatus.failed = true
is_failure TaskStatus.rolling_back = true
is_failure TaskStatus.rolled_back = true
is_failure TaskStatus.rollback_failed = true
is_failure TaskStatus.pending = false
is_failure TaskStatus.running = false
is_failure TaskStatus.succeeded = false
is_failure TaskStatus.skipped = false

unfoldable pub has_failed : ℕ → State → Bool
has_failed id st = elim (find (is_task id) st.tasks) [ none ↦ false | some t ↦ is_failure t.status ]

pause_stops :
    (id : ℕ) (bs : List UpgradeBatch)
    → is_running_in id
        (update_where (is_running_batch id) (λ b. record b { status = BatchStatus.paused }) bs)
      ≡ false
unfolding is_running_in find
pause_stops id [] = refl
pause_stops id (b ∷ bs) = ground (arith, pause_stops id bs)

pub find-set_task :
    (id : ℕ) (status : TaskStatus) (message : String) (ts : List UpgradeTask) (t : UpgradeTask)
    → find (is_task id) ts ≡ some t
    → find
        (is_task id)
        (update_where (is_task id) (λ x. record x { status = status; error_msg = message }) ts)
      ≡ some (record t { status = status; error_msg = message })
unfolding find
find-set_task id status message [] t e = cc
find-set_task id status message (x ∷ ts) t e = ground (arith, find-set_task id status message ts t)

restore_batches :
    (a : Answers) (t : UpgradeTask) (s : Session) (c : Component) (cause : String) (st : State)
    → (restore a t s c cause st).batches ≡ st.batches
unfolding restore
restore_batches a t s c cause st = ground arith

-- A rollback that is saved pauses the batch.
rollback_stops :
    (a : Answers) (id : ℕ) (t : UpgradeTask) (s : Session) (c : Component) (cause : String)
    (st : State)
    → a.rollback_saved ≡ none
    → is_batch_running id (rollback_task a id t s c cause st) ≡ false
unfolding rollback_task
rollback_stops a id t s c cause st e =
    let start : State = pause id (set_task t.id TaskStatus.rolling_back cause st) in
    rw (e, ap (λ bs. is_running_in id bs) (restore_batches a t s c cause start))
      (pause_stops id st.batches)

finished_tasks :
    (t : UpgradeTask) (s : Session) (c : Component) (st : State)
    → (finished t s c st).tasks ≡ (set_task t.id TaskStatus.succeeded "" (requested t s c st)).tasks
unfolding record_successful_upgrade
finished_tasks t s c st = ground arith

start_status : (x : TaskStatus) → may_start x ≡ true → is_rolling_back x ≡ false
start_status x e = ground arith

start_clean : (x : TaskStatus) → may_start x ≡ true → is_failure x ≡ false
start_clean x e = ground arith

-- The failure of a run shows in a paused batch.
abbrev Stops : ℕ → ℕ → State → Type 0
Stops id task_id st = has_failed task_id st ≡ true → is_batch_running id st ≡ false

module _ (a : Answers) (id : ℕ) (t : UpgradeTask) (s : Session) (c : Component) where
  rollback-Stops :
      (cause : String) (st : State)
      → has_failed t.id st ≡ false
      → Stops id t.id (rollback_task a id t s c cause st)
  rollback-Stops cause st clean failed = elim (Option-cases a.rollback_saved) [
    | inl e ↦ rollback_stops a id t s c cause st e
    | inr (message, e) ↦
        let same = rollback_unsaved a id t s c cause message st e in
        ground (arith, subst (λ x. has_failed t.id x ≡ true) same failed, clean)
  ]

  -- The task is there, and has not failed.
  roll_out-Stops :
      (st : State)
      → find (is_task t.id) st.tasks ≡ some t
      → is_failure t.status ≡ false
      → Stops id t.id (roll_out a id t s c st)
  unfolding has_failed
  roll_out-Stops st here clean failed =
      let marked = find-set_task t.id TaskStatus.running "" st.tasks t here in
      elim (roll_out-cases a id t s c st) [
        | inl same ↦ ground (arith, subst (λ x. has_failed t.id x ≡ true) same failed, here, clean)
        | inr (inl (cause, same)) ↦ rw same (
            rollback-Stops cause (requested t s c st) (ground (arith, marked))
              (subst (λ x. has_failed t.id x ≡ true) same failed))
        | inr (inr (ready, same)) ↦
            let done =
              find-set_task t.id TaskStatus.succeeded "" (requested t s c st).tasks
                (record t { status = TaskStatus.running; error_msg = "" }) marked in
            ground (
              arith,
              finished_tasks t s c st,
              subst (λ x. has_failed t.id x ≡ true) same failed,
              done,
            )
      ]

  pub run_found_start :
      (st : State)
      → may_start t.status ≡ true
      → (str_eq t.from_image "") ≡ false
      → run_found a id t s c st ≡ roll_out a id t s c st
  unfolding run_found
  run_found_start st starts named = rw (start_status t.status starts, starts, named) refl

  pub run_found_unnamed :
      (st : State)
      → may_start t.status ≡ true
      → (str_eq t.from_image "") ≡ true
      → run_found a id t s c st
        ≡ fail_task id t.id "previous image is missing; refusing upgrade without a rollback target"
            st
  unfolding run_found
  run_found_unnamed st starts unnamed = rw (start_status t.status starts, starts, unnamed) refl

  run_found-Stops :
      (st : State)
      → find (is_task t.id) st.tasks ≡ some t
      → may_start t.status ≡ true
      → Stops id t.id (run_found a id t s c st)
  run_found-Stops st here starts = elim (Bool-cases (str_eq t.from_image "")) [
    | inl e ↦
        subst (Stops id t.id) (sym (run_found_unnamed st starts e))
          (λ failed. pause_stops id st.batches)
    | inr named ↦
        subst (Stops id t.id) (sym (run_found_start st starts named))
          (roll_out-Stops st here (start_clean t.status starts))
  ]

module _ (a : Answers) (id : ℕ) (t : UpgradeTask) where
  run_session-Stops :
      (s : Session) (st : State)
      → find (is_task t.id) st.tasks ≡ some t
      → may_start t.status ≡ true
      → Stops id t.id (run_session a id t s st)
  unfolding run_session
  run_session-Stops s st here starts =
      elim (Bool-cases (str_eq s.trust_registry_state "enabling")) [
        | inl e ↦ rw e (λ failed. pause_stops id st.batches)
        | inr settled ↦ elim (Option-cases (component_named t.component)) [
          | inl e ↦ rw (settled, e) (λ failed. pause_stops id st.batches)
          | inr (c, e) ↦ rw (settled, e) (run_found-Stops a id t s c st here starts)
        ]
      ]

-- A task that has not run yet fails, or has its image taken back, only with its batch stopped.
run_task-Stops :
    (a : Answers) (id task_id : ℕ) (st : State) (t : UpgradeTask)
    → find (is_task task_id) st.tasks ≡ some t
    → may_start t.status ≡ true
    → Stops id task_id (run_task a id task_id st)
unfolding has_failed
run_task-Stops a id task_id st t here starts =
    let same : t.id ≡ task_id = ==→eq t.id task_id (find_holds (is_task task_id) st.tasks t here) in
    let own : find (is_task t.id) st.tasks ≡ some t =
      subst (λ i. find (is_task i) st.tasks ≡ some t) (sym same) here in
    subst (λ i. Stops id i (run_task a id task_id st)) same
      (elim (Option-cases (find_session t.session_id st)) [
        | inl e ↦ subst (Stops id t.id) (sym (run_task_gone a id task_id st t here e)) (λ failed.
            ground (
              arith,
              failed,
              find-set_task t.id TaskStatus.skipped "session no longer exists" st.tasks t own,
            ))
        | inr (s, e) ↦
            subst (Stops id t.id) (sym (run_task_there a id task_id st t here s e))
              (run_session-Stops a id t s st own starts)
      ])

-- A batch that is not running starts no pending task.
idle :
    (answers : ℕ → Answers) (id : ℕ) (ts : List UpgradeTask) (st : State)
    → is_batch_running id st ≡ false
    → All (λ t. is_pending t.status ≡ true) ts
    → run_tasks answers id ts st ≡ st
unfolding run_tasks
idle answers id [] st stopped pending = refl
idle answers id (t ∷ ts) st stopped (p, ps) = rw (p, stopped) (idle answers id ts st stopped ps)

-- Modelling internal/upgrade/runner.go, one task at a time: where a task that was pending or
-- running has failed after its run, was rolled back, or is to be, whatever Kubernetes and the
-- database answered, its batch is not running any more, and of the pending tasks that follow none
-- is started: the loop over them changes neither a row nor a Deployment.
pub fail_fast :
    (answers : ℕ → Answers) (id task_id : ℕ) (st : State) (t : UpgradeTask)
    (rest : List UpgradeTask)
    → find (is_task task_id) st.tasks ≡ some t
    → may_start t.status ≡ true
    → has_failed task_id (run_task (answers task_id) id task_id st) ≡ true
    → All (λ u. is_pending u.status ≡ true) rest
    → (is_batch_running id (run_task (answers task_id) id task_id st) ≡ false)
      × (run_tasks answers id rest (run_task (answers task_id) id task_id st)
          ≡ run_task (answers task_id) id task_id st)
fail_fast answers id task_id st t rest here starts failed pending =
    let stopped = run_task-Stops (answers task_id) id task_id st t here starts failed in
    (stopped, idle answers id rest (run_task (answers task_id) id task_id st) stopped pending)
