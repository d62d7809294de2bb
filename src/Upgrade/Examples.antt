-- ===== src/Upgrade/Examples.antt =====
-- Runs of the batches of internal/upgrade/runner.go.
use vtafarm_api.Base.{ℕ, true, false, [], ◌∷◌, none, find, ◌≡◌, refl}
use vtafarm_api.Store.{Mode, DomainType}
use vtafarm_api.Upgrade.Rows.{BatchStatus, TaskStatus, UpgradeTask, Session, State, component_named}
use vtafarm_api.Upgrade.Task.{
  Answers, Poll, wait_for_rollout, run_task, run_session, run_found, roll_out, rollback_task,
  restore, record_successful_upgrade,
}
use vtafarm_api.Upgrade.Run.{is_batch_running, run_tasks}
use vtafarm_api.Upgrade.FailFast.{has_failed, fail_fast}
use vtafarm_api.Upgrade.Success.{has_succeeded, Upgraded, success_recorded}
use vtafarm_api.Upgrade.Resume.{AddsOnly, rolling_back_restores}

abbrev task : ℕ → TaskStatus → UpgradeTask
task id status = record {
  id = id;
  batch_id = 1;
  session_id = id;
  component = "vta";
  from_image = "vta:1";
  to_image = "vta:2";
  status = status;
  error_msg = "";
}

abbrev session : ℕ → Session
session id = record {
  id = id;
  user_id = 7;
  mode = Mode.vta_only;
  domain_type = DomainType.managed;
  trust_registry_state = "";
  vta_image = "vta:1";
  mediator_image = "";
  dids_image = "";
  trust_registry_image = "";
  vtc_image = "";
}

abbrev state : TaskStatus → State
state status = record {
  batches = record { id = 1; concurrency = 1; status = BatchStatus.running } ∷ [];
  tasks = task 1 status ∷ task 2 TaskStatus.pending ∷ [];
  sessions = session 1 ∷ session 2 ∷ [];
  default_vta_image = "vta:1";
  patches = [];
}

abbrev ready : Poll
ready = Poll.reached (record { ready = true; reason = ""; crash_loop_restarts = 0 })

abbrev crashed : Poll
crashed =
    Poll.reached (record { ready = false; reason = "CrashLoopBackOff"; crash_loop_restarts = 3 })

-- The new image crashes, and the previous one comes back.
abbrev crash : ℕ → Answers
crash id = record {
  started = none;
  patched = none;
  rollout = crashed ∷ [];
  recorded = none;
  rollback_saved = none;
  restored = none;
  restore_rollout = ready ∷ [];
  restore_recorded = none;
}

fail_fast_example :
    (is_batch_running 1 (run_task (crash 1) 1 1 (state TaskStatus.pending)) ≡ false)
    × (run_tasks crash 1
          (task 2 TaskStatus.pending ∷ [])
          (run_task (crash 1) 1 1 (state TaskStatus.pending))
        ≡ run_task (crash 1) 1 1 (state TaskStatus.pending))
unfolding find has_failed run_task run_session run_found roll_out rollback_task restore
    wait_for_rollout component_named
fail_fast_example =
    fail_fast crash 1 1 (state TaskStatus.pending) (task 1 TaskStatus.pending)
      (task 2 TaskStatus.pending ∷ []) refl refl refl (refl, tt)

rolling_back_restores_example :
    AddsOnly "vta:1"
      (state TaskStatus.rolling_back)
      (run_task (crash 1) 1 1 (state TaskStatus.rolling_back))
unfolding find
rolling_back_restores_example =
    rolling_back_restores (crash 1) 1 1 (state TaskStatus.rolling_back)
      (task 1 TaskStatus.rolling_back) refl refl

-- The new image comes up.
abbrev smooth : Answers
smooth = record (crash 1) { rollout = ready ∷ [] }

success_recorded_example :
    Upgraded smooth
      (task 1 TaskStatus.pending)
      (state TaskStatus.pending)
      (run_task smooth 1 1 (state TaskStatus.pending))
unfolding find has_succeeded run_task run_session run_found roll_out wait_for_rollout
    component_named record_successful_upgrade
success_recorded_example =
    success_recorded smooth 1 1 (state TaskStatus.pending) (task 1 TaskStatus.pending) refl refl
      refl
