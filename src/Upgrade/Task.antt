-- ===== src/Upgrade/Task.antt =====
-- internal/upgrade/runner.go: runTask, rollbackTask, failTask, setTask, recordSuccessfulUpgrade,
-- waitForRollout and deploymentName. What Kubernetes and the database answer is given for each run
-- of a task. The writes whose errors the code only logs are taken to succeed.
use vtafarm_api.Base.{
  ℕ, String, Bool, true, false, not, List, [], ◌∷◌, ◌++◌, Option, none, some, str_eq, if◌then◌else◌,
  leb, ◌==◌, find, update_where,
}
use Prim.Native.String.{◌++◌ as text_append}
use vtafarm_api.Store.{Mode, DomainType}
use vtafarm_api.Upgrade.Rows.{
  BatchStatus, TaskStatus, UpgradeTask, Component, component_named, Session, set_image, Deployment,
  vta_name, fs_name, State, is_task, is_running_batch, find_session,
}

infixr 5 ◌◇◌
-- The concatenation of texts.
abbrev pub ◌◇◌ : String → String → String
s ◇ t = text_append s t

-- k8s.RolloutStatus
pub record RolloutStatus : Type 0 where
  pub ready : Bool
  pub reason : String
  pub crash_loop_restarts : ℕ

pub data Poll : Type 0 where
  unreachable : String → Poll
  reached : RolloutStatus → Poll

-- What a run of a task meets; an error is its message.
pub record Answers : Type 0 where
  pub started : Option String
  pub patched : Option String
  pub rollout : List Poll
  pub recorded : Option String
  pub rollback_saved : Option String
  pub restored : Option String
  pub restore_rollout : List Poll
  pub restore_recorded : Option String

-- waitForRollout: the polls up to the timeout, and the last reason; `none` where the rollout is ready.
unfoldable pub wait_for_rollout : List Poll → String → Option String
wait_for_rollout [] last_reason = some ("timed out waiting for rollout: " ◇ last_reason)
wait_for_rollout (unreachable message ∷ polls) last_reason = wait_for_rollout polls message
wait_for_rollout (reached s ∷ polls) last_reason =
    let rest = wait_for_rollout polls (if str_eq s.reason "" then last_reason else s.reason) in
    if leb 3 s.crash_loop_restarts
    then some ("rollout failed: " ◇ s.reason)
    else if s.ready
    then none
    else rest

-- setTask
abbrev pub set_task : ℕ → TaskStatus → String → State → State
set_task id status message st = record st {
  tasks =
      update_where (is_task id) (λ t. record t { status = status; error_msg = message }) st.tasks;
}

-- The update that pauses a running batch.
abbrev pub pause : ℕ → State → State
pause id st = record st {
  batches =
      update_where (is_running_batch id) (λ b. record b { status = BatchStatus.paused }) st.batches;
}

-- failTask
abbrev pub fail_task : ℕ → ℕ → String → State → State
fail_task batch_id id message st = pause batch_id (set_task id TaskStatus.failed message st)

-- deploymentName, for a component that is known
abbrev pub deployment_name : Session → Component → Deployment
deployment_name s Component.vta = elim s.mode [
  | Mode.vta_only ↦ vta_name s.id
  | Mode.full_stack ↦ fs_name s.id Component.vta
]
deployment_name s Component.mediator = fs_name s.id Component.mediator
deployment_name s Component.dids = fs_name s.id Component.dids
deployment_name s Component.trust_registry = fs_name s.id Component.trust_registry
deployment_name s Component.vtc = fs_name s.id Component.vtc

-- k8s.SetDeploymentImage
abbrev pub patch : Session → Component → String → State → State
patch s c image st = record st {
  patches =
      st.patches
      ++ record { user_id = s.user_id; deployment = deployment_name s c; image = image } ∷ [];
}

abbrev pub record_image : ℕ → Component → String → State → State
record_image session_id c image st = record st {
  sessions = update_where (λ s. s.id == session_id) (set_image c image) st.sessions;
}

abbrev pub is_platform_vta : Session → Component → Bool
is_platform_vta s Component.vta = elim s.domain_type [
  | DomainType.platform ↦ true
  | DomainType.managed ↦ false
  | DomainType.custom ↦ false
]
is_platform_vta s Component.mediator = false
is_platform_vta s Component.dids = false
is_platform_vta s Component.trust_registry = false
is_platform_vta s Component.vtc = false

-- recordSuccessfulUpgrade; its transaction writes all or nothing.
unfoldable pub record_successful_upgrade : Session → UpgradeTask → Component → State → State
record_successful_upgrade s t c st =
    let st' : State = record_image s.id c t.to_image st in
    if is_platform_vta s c then record st' { default_vta_image = t.to_image } else st'

-- The rest of rollbackTask, once the direction is saved.
unfoldable pub restore : Answers → UpgradeTask → Session → Component → String → State → State
unfolding wait_for_rollout
restore a t s c cause st =
    if str_eq t.from_image ""
    then set_task t.id TaskStatus.rollback_failed
        (cause ◇ "; rollback failed: previous image is missing") st
    else let st' : State = patch s c t.from_image st in
      elim a.restored [
        | some message ↦
            set_task t.id TaskStatus.rollback_failed (cause ◇ "; rollback failed: " ◇ message) st'
        | none ↦ elim (wait_for_rollout a.restore_rollout "") [
          | some message ↦
              set_task t.id TaskStatus.rollback_failed (cause ◇ "; rollback failed: " ◇ message) st'
          | none ↦ elim a.restore_recorded [
            | some message ↦
                set_task t.id TaskStatus.rollback_failed
                  (cause ◇ "; previous image is ready but recording it failed: " ◇ message) st'
            | none ↦
                set_task t.id TaskStatus.rolled_back
                  (cause ◇ "; rolled back to " ◇ t.from_image ◇ " and confirmed ready")
                  (record_image t.session_id c t.from_image st')
          ]
        ]
      ]

-- rollbackTask
unfoldable pub rollback_task :
    Answers → ℕ → UpgradeTask → Session → Component → String → State → State
unfolding restore
rollback_task a batch_id t s c cause st = elim a.rollback_saved [
  | some message ↦ st
  | none ↦ restore a t s c cause (pause batch_id (set_task t.id TaskStatus.rolling_back cause st))
]

-- runTask from the point where the task is marked as running
unfoldable pub roll_out : Answers → ℕ → UpgradeTask → Session → Component → State → State
unfolding rollback_task record_successful_upgrade wait_for_rollout
roll_out a batch_id t s c st = elim a.started [
  | some message ↦ st
  | none ↦
      let st' : State = patch s c t.to_image (set_task t.id TaskStatus.running "" st) in
      elim a.patched [
        | some message ↦ rollback_task a batch_id t s c ("patch deployment: " ◇ message) st'
        | none ↦ elim (wait_for_rollout a.rollout "") [
          | some message ↦ rollback_task a batch_id t s c message st'
          | none ↦ elim a.recorded [
            | some message ↦ rollback_task a batch_id t s c ("record new image: " ◇ message) st'
            | none ↦ set_task t.id TaskStatus.succeeded "" (record_successful_upgrade s t c st')
          ]
        ]
      ]
]

abbrev pub is_rolling_back : TaskStatus → Bool
is_rolling_back TaskStatus.rolling_back = true
is_rolling_back _ = false

abbrev pub may_start : TaskStatus → Bool
may_start TaskStatus.pending = true
may_start TaskStatus.running = true
may_start _ = false

-- runTask, for a task and a session that are there and a component that is known
unfoldable pub run_found : Answers → ℕ → UpgradeTask → Session → Component → State → State
unfolding rollback_task roll_out
run_found a batch_id t s c st =
    if is_rolling_back t.status
    then rollback_task a batch_id t s c t.error_msg st
    else if not (may_start t.status)
    then st
    else if str_eq t.from_image ""
    then fail_task batch_id t.id
        "previous image is missing; refusing upgrade without a rollback target" st
    else roll_out a batch_id t s c st

unfoldable pub run_session : Answers → ℕ → UpgradeTask → Session → State → State
unfolding run_found
run_session a batch_id t s st =
    if str_eq s.trust_registry_state "enabling"
    then fail_task batch_id t.id "Trust Registry enablement is in progress" st
    else elim (component_named t.component) [
      | none ↦ fail_task batch_id t.id ("unknown component " ◇ t.component) st
      | some c ↦ run_found a batch_id t s c st
    ]

-- runTask
unfoldable pub run_task : Answers → ℕ → ℕ → State → State
unfolding run_session
run_task a batch_id task_id st = elim (find (is_task task_id) st.tasks) [
  | none ↦ st
  | some t ↦ elim (find_session t.session_id st) [
    | none ↦ set_task t.id TaskStatus.skipped "session no longer exists" st
    | some s ↦ run_session a batch_id t s st
  ]
]
