-- ===== src/Upgrade/Resume.antt =====
-- internal/upgrade/runner.go: a task that was being rolled back when the process stopped.
use vtafarm_api.Base.{
  ℕ, String, true, false, List, [], ◌∷◌, ◌++◌, none, some, str_eq, find, ◌≡◌, refl, sym, ap, ◌∙◌,
  All, Bool-cases, Option-cases, inl, inr,
}
use mathlib.Core.Path.{subst}
use mathlib.Core.List.{append-nil}
use vtafarm_api.Upgrade.Rows.{
  TaskStatus, UpgradeTask, Component, component_named, Session, Patch, State, is_task, find_session,
}
use vtafarm_api.Upgrade.Task.{
  Answers, ◌◇◌, fail_task, set_task, pause, restore, rollback_task, run_found, run_session,
  run_task, is_rolling_back, deployment_name,
}
use vtafarm_api.Upgrade.Effects.{
  restore-cases, rollback_begun, rollback_unsaved, run_task_gone, run_task_there,
}

-- What is requested on top of the earlier requests has the image.
abbrev pub AddsOnly : String → State → State → Type 0
AddsOnly image before after =
    (added : List Patch) × (after.patches ≡ before.patches ++ added)
    × All (λ p. p.image ≡ image) added

AddsOnly-none :
    (image : String) (st after : State) → after.patches ≡ st.patches → AddsOnly image st after
AddsOnly-none image st after e = ([], e ∙ sym (append-nil st.patches), tt)

module _ (a : Answers) (id : ℕ) (t : UpgradeTask) (s : Session) where
  restore-AddsOnly :
      (c : Component) (cause : String) (st : State)
      → AddsOnly t.from_image st (restore a t s c cause st)
  restore-AddsOnly c cause st =
      let p : Patch = record {
        user_id = s.user_id;
        deployment = deployment_name s c;
        image = t.from_image;
      } in
      elim (restore-cases a t s c cause st) [
        | inl (message, e) ↦
            AddsOnly-none t.from_image st (restore a t s c cause st) (ap (λ x. x.patches) e)
        | inr (inl (message, e)) ↦ (p ∷ [], ap (λ x. x.patches) e, (refl, tt))
        | inr (inr (restored, message, e)) ↦ (p ∷ [], ap (λ x. x.patches) e, (refl, tt))
      ]

  rollback-AddsOnly :
      (c : Component) (cause : String) (st : State)
      → AddsOnly t.from_image st (rollback_task a id t s c cause st)
  rollback-AddsOnly c cause st = elim (Option-cases a.rollback_saved) [
    | inl e ↦
        subst (AddsOnly t.from_image st) (sym (rollback_begun a id t s c cause st e))
          (restore-AddsOnly c cause (pause id (set_task t.id TaskStatus.rolling_back cause st)))
    | inr (message, e) ↦
        AddsOnly-none t.from_image st (rollback_task a id t s c cause st)
          (ap (λ x. x.patches) (rollback_unsaved a id t s c cause message st e))
  ]

  pub enabling_fails :
      str_eq s.trust_registry_state "enabling" ≡ true
      → (st : State)
      → run_session a id t s st ≡ fail_task id t.id "Trust Registry enablement is in progress" st
  unfolding run_session
  enabling_fails e st = rw e refl

  pub unknown_fails :
      str_eq s.trust_registry_state "enabling" ≡ false
      → component_named t.component ≡ none
      → (st : State)
      → run_session a id t s st ≡ fail_task id t.id ("unknown component " ◇ t.component) st
  unfolding run_session
  unknown_fails settled e st = rw (settled, e) refl

  goes_back :
      str_eq s.trust_registry_state "enabling" ≡ false
      → (c : Component) → component_named t.component ≡ some c
      → is_rolling_back t.status ≡ true
      → (st : State) → run_session a id t s st ≡ rollback_task a id t s c t.error_msg st
  unfolding run_session run_found
  goes_back settled c e back st = rw (settled, e, back) refl

  run_session-AddsOnly :
      (st : State)
      → is_rolling_back t.status ≡ true
      → AddsOnly t.from_image st (run_session a id t s st)
  run_session-AddsOnly st back = elim (Bool-cases (str_eq s.trust_registry_state "enabling")) [
    | inl e ↦
        AddsOnly-none t.from_image st (run_session a id t s st)
          (ap (λ x. x.patches) (enabling_fails e st))
    | inr settled ↦ elim (Option-cases (component_named t.component)) [
      | inl e ↦
          AddsOnly-none t.from_image st (run_session a id t s st)
            (ap (λ x. x.patches) (unknown_fails settled e st))
      | inr (c, e) ↦
          subst (AddsOnly t.from_image st) (sym (goes_back settled c e back st))
            (rollback-AddsOnly c t.error_msg st)
    ]
  ]

-- Modelling internal/upgrade/runner.go: a run of a task whose row says that it is being rolled back
-- requests of Kubernetes no image but the task's previous one, whatever Kubernetes and the database
-- answer; so a restart never applies the target image again.
pub rolling_back_restores :
    (a : Answers) (id task_id : ℕ) (st : State) (t : UpgradeTask)
    → find (is_task task_id) st.tasks ≡ some t
    → is_rolling_back t.status ≡ true
    → AddsOnly t.from_image st (run_task a id task_id st)
rolling_back_restores a id task_id st t here back =
    elim (Option-cases (find_session t.session_id st)) [
      | inl e ↦
          AddsOnly-none t.from_image st (run_task a id task_id st)
            (ap (λ x. x.patches) (run_task_gone a id task_id st t here e))
      | inr (s, e) ↦
          subst (AddsOnly t.from_image st) (sym (run_task_there a id task_id st t here s e))
            (run_session-AddsOnly a id t s st back)
    ]
