-- ===== src/Upgrade/Success.antt =====
-- internal/upgrade/runner.go: what is recorded for a task that succeeds.
use vtafarm_api.Base.{
  ℕ, ◌<◌, ◌++◌, leb, All, if◌then◌else◌, String, Bool, true, false, List, [], ◌∷◌, none, some,
  str_eq, ◌==◌, ==→eq, find, find_holds, update_where, ◌≡◌, refl, sym, ap, ◌∙◌, arith, Bool-cases,
  Option-cases, inl, inr,
}
use mathlib.Core.Path.{subst}
use mathlib.Core.Option.{some-injective}
use vtafarm_api.Upgrade.Rows.{
  TaskStatus, UpgradeTask, Component, component_named, Session, set_image, State, is_task,
  find_session,
}
use vtafarm_api.Upgrade.Task.{
  Answers, Poll, RolloutStatus, wait_for_rollout, deployment_name, set_task, pause, fail_task,
  patch, record_image, is_platform_vta, record_successful_upgrade, restore, rollback_task, roll_out,
  may_start, run_found, run_session, run_task, ◌◇◌,
}
use vtafarm_api.Upgrade.Effects.{
  requested, finished, roll_out-cases, restore-cases, rollback_begun, rollback_unsaved,
  run_task_gone, run_task_there,
}
use vtafarm_api.Upgrade.Resume.{enabling_fails, unknown_fails}
use vtafarm_api.Upgrade.FailFast.{find-set_task, run_found_start, run_found_unnamed}

abbrev pub is_success : TaskStatus → Bool
is_success TaskStatus.succeeded = true
is_success _ = false

unfoldable pub has_succeeded : ℕ → State → Bool
has_succeeded id st = elim (find (is_task id) st.tasks) [
  | none ↦ false
  | some t ↦ is_success t.status
]

-- A task that was just given a status has it.
set_task-has_succeeded :
    (id : ℕ) (status : TaskStatus) (message : String) (st : State) (t : UpgradeTask)
    → find (is_task id) st.tasks ≡ some t
    → has_succeeded id (set_task id status message st) ≡ is_success status
unfolding has_succeeded
set_task-has_succeeded id status message st t here =
    ground (arith, find-set_task id status message st.tasks t here)

not_both : (b : Bool) → b ≡ true → b ≡ false → ⊥
not_both b h k = cc

start_no_success : (x : TaskStatus) → may_start x ≡ true → is_success x ≡ false
start_no_success x e = ground arith

-- The answer to a poll shows no crash loop.
abbrev pub IsUp : Poll → Type 0
IsUp (Poll.unreachable message) = Unit
IsUp (Poll.reached status) = status.crash_loop_restarts < 3

-- Some poll was told that the rollout is ready, and no poll until then met a crash loop.
abbrev pub ReportedReady : List Poll → Type 0
ReportedReady polls =
    (before : List Poll) × (status : RolloutStatus) × (rest : List Poll) × (polls
      ≡ before ++ Poll.reached status ∷ rest)
    × All IsUp before
    × (status.crash_loop_restarts < 3)
    × (status.ready ≡ true)

wait_for_rollout-ReportedReady :
    (polls : List Poll) (reason : String)
    → wait_for_rollout polls reason ≡ none
    → ReportedReady polls
unfolding wait_for_rollout
wait_for_rollout-ReportedReady [] reason h = cc
wait_for_rollout-ReportedReady (Poll.unreachable message ∷ polls) reason h =
    let (before, status, rest, e, up, low, ready) =
      wait_for_rollout-ReportedReady polls message h in
    (Poll.unreachable message ∷ before, status, rest, rw e refl, (tt, up), low, ready)
wait_for_rollout-ReportedReady (Poll.reached s ∷ polls) reason h =
    elim (Bool-cases (leb 3 s.crash_loop_restarts)) [
      | inl c ↦ ground (arith, c, h)
      | inr c ↦
          let low : s.crash_loop_restarts < 3 = ground (arith, c) in
          elim (Bool-cases s.ready) [
            | inl r ↦ ([], s, polls, refl, tt, low, r)
            | inr r ↦
                let (before, status, rest, e, up, low', ready) =
                  wait_for_rollout-ReportedReady polls
                    (if str_eq s.reason "" then reason else s.reason) (ground (arith, c, r, h)) in
                (Poll.reached s ∷ before, status, rest, rw e refl, (low, up), low', ready)
          ]
    ]

-- The one request to Kubernetes: the image, for the session's deployment of the component.
abbrev pub Requested : String → Session → Component → State → State → Type 0
Requested image s c before after =
    after.patches
    ≡ before.patches
      ++ record { user_id = s.user_id; deployment = deployment_name s c; image = image } ∷ []

-- The task's image is recorded for its session, and as the default where the session is the platform's VTA.
abbrev pub Recorded : UpgradeTask → Session → Component → State → Type 0
Recorded t s c st =
    (find_session s.id st ≡ some (set_image c t.to_image s))
    × (is_platform_vta s c ≡ true → st.default_vta_image ≡ t.to_image)

set_image_id : (c : Component) (image : String) (s : Session) → (set_image c image s).id ≡ s.id
set_image_id Component.vta image s = refl
set_image_id Component.mediator image s = refl
set_image_id Component.dids image s = refl
set_image_id Component.trust_registry image s = refl
set_image_id Component.vtc image s = refl

find-set_image :
    (id : ℕ) (c : Component) (image : String) (ss : List Session) (s : Session)
    → find (λ (x : Session). x.id == id) ss ≡ some s
    → find (λ (x : Session). x.id == id) (update_where (λ x. x.id == id) (set_image c image) ss)
      ≡ some (set_image c image s)
unfolding find
find-set_image id c image [] s e = cc
find-set_image id c image (x ∷ ss) s e = elim (Bool-cases (x.id == id)) [
  | inl h ↦
      let same : x ≡ s = some-injective x s (ground (arith, h, e)) in
      let kept : ((set_image c image x).id == id) ≡ true = rw (set_image_id c image x) h in
      rw (h, kept) (ap (λ y. some (set_image c image y)) same)
  | inr h ↦ rw (h, h) (find-set_image id c image ss s (ground (arith, h, e)))
]

finished-Recorded :
    (t : UpgradeTask) (s : Session) (c : Component) (st : State)
    → find_session s.id st ≡ some s
    → Recorded t s c (finished t s c st)
unfolding record_successful_upgrade
finished-Recorded t s c st here =
    let image = find-set_image s.id c t.to_image st.sessions s here in
    elim (Bool-cases (is_platform_vta s c)) [
      | inl e ↦ rw e (image, (λ k. refl))
      | inr e ↦ rw e (image, (λ k. ground (arith, e, k)))
    ]

finished-Requested :
    (t : UpgradeTask) (s : Session) (c : Component) (st : State)
    → Requested t.to_image s c st (finished t s c st)
unfolding record_successful_upgrade
finished-Requested t s c st = elim (Bool-cases (is_platform_vta s c)) [
  | inl e ↦ rw e refl
  | inr e ↦ rw e refl
]

-- Kubernetes took the target image and reported it ready, and it is recorded.
abbrev pub Done : Answers → UpgradeTask → Session → Component → State → State → Type 0
Done a t s c before after =
    Requested t.to_image s c before after
    × (a.patched ≡ none)
    × ReportedReady a.rollout
    × Recorded t s c after

module _ (a : Answers) (id : ℕ) (t : UpgradeTask) (s : Session) (c : Component) where
  restore_fails :
      (cause : String) (st : State) (u : UpgradeTask)
      → find (is_task t.id) st.tasks ≡ some u
      → has_succeeded t.id (restore a t s c cause st) ≡ false
  restore_fails cause st u here = elim (restore-cases a t s c cause st) [
    | inl (message, e) ↦
        ap (has_succeeded t.id) e
        ∙ set_task-has_succeeded t.id TaskStatus.rollback_failed message st u here
    | inr (inl (message, e)) ↦
        ap (has_succeeded t.id) e
        ∙ set_task-has_succeeded t.id TaskStatus.rollback_failed message (patch s c t.from_image st)
            u here
    | inr (inr (restored, message, e)) ↦
        ap (has_succeeded t.id) e
        ∙ set_task-has_succeeded t.id TaskStatus.rolled_back message
            (record_image t.session_id c t.from_image (patch s c t.from_image st)) u here
  ]

  rollback_fails :
      (cause : String) (st : State) (u : UpgradeTask)
      → find (is_task t.id) st.tasks ≡ some u
      → is_success u.status ≡ false
      → has_succeeded t.id (rollback_task a id t s c cause st) ≡ false
  unfolding has_succeeded
  rollback_fails cause st u here clean = elim (Option-cases a.rollback_saved) [
    | inl e ↦
        let start : State = pause id (set_task t.id TaskStatus.rolling_back cause st) in
        ap (has_succeeded t.id) (rollback_begun a id t s c cause st e)
        ∙ restore_fails cause start
            (record u { status = TaskStatus.rolling_back; error_msg = cause })
            (find-set_task t.id TaskStatus.rolling_back cause st.tasks u here)
    | inr (message, e) ↦
        ap (has_succeeded t.id) (rollback_unsaved a id t s c cause message st e)
        ∙ ground (arith, here, clean)
  ]

  -- A rollout that ends in success was requested and ready, and is recorded.
  roll_out-Done :
      (st : State)
      → find (is_task t.id) st.tasks ≡ some t
      → may_start t.status ≡ true
      → find_session s.id st ≡ some s
      → has_succeeded t.id (roll_out a id t s c st) ≡ true
      → Done a t s c st (roll_out a id t s c st)
  unfolding has_succeeded
  roll_out-Done st here starts found won =
      let clean = start_no_success t.status starts in
      elim (roll_out-cases a id t s c st) [
        | inl e ↦ absurd (
            not_both (has_succeeded t.id (roll_out a id t s c st)) won
              (ap (has_succeeded t.id) e ∙ ground (arith, here, clean)))
        | inr (inl (cause, e)) ↦ absurd (
            not_both (has_succeeded t.id (roll_out a id t s c st)) won (
              ap (has_succeeded t.id) e
              ∙ rollback_fails cause (requested t s c st)
                  (record t { status = TaskStatus.running; error_msg = "" })
                  (find-set_task t.id TaskStatus.running "" st.tasks t here) refl))
        | inr (inr (ready, e)) ↦ subst (Done a t s c st) (sym e) (
          finished-Requested t s c st,
          ready.0,
          wait_for_rollout-ReportedReady a.rollout "" ready.1,
          finished-Recorded t s c st found,
        )
      ]

-- The session and the component of the task, with what was done for them.
abbrev pub Upgraded : Answers → UpgradeTask → State → State → Type 0
Upgraded a t before after =
    (s : Session) × (c : Component) × (find_session t.session_id before ≡ some s)
    × (component_named t.component ≡ some c)
    × Done a t s c before after

module _ (a : Answers) (id : ℕ) (t : UpgradeTask) (st : State)
    (here : find (is_task t.id) st.tasks ≡ some t) (starts : may_start t.status ≡ true) where
  fail_no_success :
      (message : String) → has_succeeded t.id (fail_task id t.id message st) ≡ true → ⊥
  unfolding has_succeeded
  fail_no_success message won =
      not_both (has_succeeded t.id (fail_task id t.id message st)) won
        (set_task-has_succeeded t.id TaskStatus.failed message st t here)

  run_found-Done :
      (s : Session) (c : Component)
      → find_session s.id st ≡ some s
      → has_succeeded t.id (run_found a id t s c st) ≡ true
      → Done a t s c st (run_found a id t s c st)
  run_found-Done s c found won = elim (Bool-cases (str_eq t.from_image "")) [
    | inl e ↦ absurd (
        fail_no_success "previous image is missing; refusing upgrade without a rollback target"
          (sym (ap (has_succeeded t.id) (run_found_unnamed a id t s c st starts e)) ∙ won))
    | inr e ↦
        let same = run_found_start a id t s c st starts e in
        subst (Done a t s c st) (sym same)
          (roll_out-Done a id t s c st here starts found (sym (ap (has_succeeded t.id) same) ∙ won))
  ]

  goes_on :
      (s : Session)
      → str_eq s.trust_registry_state "enabling" ≡ false
      → (c : Component) → component_named t.component ≡ some c
      → run_session a id t s st ≡ run_found a id t s c st
  unfolding run_session
  goes_on s settled c e = rw (settled, e) refl

  run_session-Upgraded :
      (s : Session)
      → find_session t.session_id st ≡ some s
      → has_succeeded t.id (run_session a id t s st) ≡ true
      → Upgraded a t st (run_session a id t s st)
  run_session-Upgraded s found won =
      let own : s.id ≡ t.session_id =
        ==→eq s.id t.session_id
          (find_holds (λ (x : Session). x.id == t.session_id) st.sessions s found) in
      let self : find_session s.id st ≡ some s =
        subst (λ i. find_session i st ≡ some s) (sym own) found in
      elim (Bool-cases (str_eq s.trust_registry_state "enabling")) [
        | inl e ↦ absurd (
            fail_no_success "Trust Registry enablement is in progress"
              (sym (ap (has_succeeded t.id) (enabling_fails a id t s e st)) ∙ won))
        | inr settled ↦ elim (Option-cases (component_named t.component)) [
          | inl e ↦ absurd (
              fail_no_success ("unknown component " ◇ t.component)
                (sym (ap (has_succeeded t.id) (unknown_fails a id t s settled e st)) ∙ won))
          | inr (c, e) ↦
              let same = goes_on s settled c e in
              (
                s,
                c,
                found,
                e,
                subst (Done a t s c st) (sym same)
                    (run_found-Done s c self (sym (ap (has_succeeded t.id) same) ∙ won)),
              )
        ]
      ]

-- Modelling internal/upgrade/runner.go: where the run of a task that was pending or running leaves it
-- succeeded, its session is there; the run made one request to Kubernetes, for the target image in the
-- deployment of the session and the component, which was taken; some poll was told that the rollout is
-- ready, with no crash loop met until then; and the target image is recorded as the session's image of the component and, where the session is the
-- platform's VTA, as the default image for users.
pub success_recorded :
    (a : Answers) (id task_id : ℕ) (st : State) (t : UpgradeTask)
    → find (is_task task_id) st.tasks ≡ some t
    → may_start t.status ≡ true
    → has_succeeded task_id (run_task a id task_id st) ≡ true
    → Upgraded a t st (run_task a id task_id st)
success_recorded a id task_id st t here starts won =
    let same : t.id ≡ task_id = ==→eq t.id task_id (find_holds (is_task task_id) st.tasks t here) in
    let own : find (is_task t.id) st.tasks ≡ some t =
      subst (λ i. find (is_task i) st.tasks ≡ some t) (sym same) here in
    let won' : has_succeeded t.id (run_task a id task_id st) ≡ true =
      subst (λ i. has_succeeded i (run_task a id task_id st) ≡ true) (sym same) won in
    elim (Option-cases (find_session t.session_id st)) [
      | inl e ↦ absurd (
          not_both (has_succeeded t.id (run_task a id task_id st)) won' (
            ap (has_succeeded t.id) (run_task_gone a id task_id st t here e)
            ∙ set_task-has_succeeded t.id TaskStatus.skipped "session no longer exists" st t own))
      | inr (s, e) ↦
          let read = run_task_there a id task_id st t here s e in
          subst (Upgraded a t st) (sym read) (
            run_session-Upgraded a id t st own starts s e
              (sym (ap (has_succeeded t.id) read) ∙ won'))
    ]
