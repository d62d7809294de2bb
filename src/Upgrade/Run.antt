-- ===== src/Upgrade/Run.antt =====
-- internal/upgrade/runner.go: run and finalize, with one task at a time (the default concurrency).
-- The answers that a task meets are given for each task. The rows of the tasks stand in the order
-- of their ids.
use vtafarm_api.Base.{
  ℕ, Bool, true, false, not, ◌&&◌, ◌||◌, List, [], ◌∷◌, ◌++◌, none, some, if◌then◌else◌, ◌==◌, find,
  any, select, update_where,
}
use vtafarm_api.Upgrade.Rows.{
  BatchStatus, TaskStatus, UpgradeBatch, UpgradeTask, State, is_running, is_batch, is_running_batch,
}
use vtafarm_api.Upgrade.Task.{Answers, run_task, is_rolling_back, may_start}

abbrev pub is_pending : TaskStatus → Bool
is_pending TaskStatus.pending = true
is_pending _ = false

-- batchStatus(id) == running
unfoldable pub is_running_in : ℕ → List UpgradeBatch → Bool
is_running_in id bs = elim (find (is_batch id) bs) [ none ↦ false | some b ↦ is_running b.status ]

abbrev pub is_batch_running : ℕ → State → Bool
is_batch_running id st = is_running_in id st.batches

-- The loop of run over the snapshot.
unfoldable pub run_tasks : (ℕ → Answers) → ℕ → List UpgradeTask → State → State
unfolding is_running_in
run_tasks answers batch_id [] st = st
run_tasks answers batch_id (t ∷ ts) st =
    let next : State =
      if is_pending t.status && not (is_batch_running batch_id st)
      then st
      else run_task (answers t.id) batch_id t.id st in
    run_tasks answers batch_id ts next

abbrev pub is_unfinished : TaskStatus → Bool
is_unfinished s = may_start s || is_rolling_back s

abbrev pub has_work : ℕ → UpgradeTask → Bool
has_work batch_id t = t.batch_id == batch_id && is_unfinished t.status

-- finalize
unfoldable pub finalize : ℕ → State → State
finalize batch_id st = if any (has_work batch_id) st.tasks then st else record st {
  batches =
      update_where (is_running_batch batch_id) (λ b. record b { status = BatchStatus.completed })
        st.batches;
}

-- The work of a batch: what is being rolled back, then what was running, then what is pending.
abbrev pub snapshot : ℕ → State → List UpgradeTask
snapshot batch_id st =
    select (λ t. t.batch_id == batch_id && is_rolling_back t.status) st.tasks
    ++ select (λ t. t.batch_id == batch_id && (may_start t.status && not (is_pending t.status)))
        st.tasks
    ++ select (λ t. t.batch_id == batch_id && is_pending t.status) st.tasks

-- run
unfoldable pub run : (ℕ → Answers) → ℕ → State → State
unfolding run_tasks finalize
run answers batch_id st = elim (find (is_batch batch_id) st.batches) [
  | none ↦ st
  | some b ↦ finalize batch_id (run_tasks answers batch_id (snapshot batch_id st) st)
]
