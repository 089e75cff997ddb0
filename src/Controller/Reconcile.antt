-- ===== src/Controller/Reconcile.antt =====
-- controller/controller.go `Reconcile` and `reconcileRollback`: one action or one phase advance of
-- a group. The state of the group is read once, as the code does.
use solace_broker_autoscale.Control.Snapshot.{
  descriptor_eq, destination_eq, kind_eq, phase_eq, queue_eq, resource_eq, transition_eq,
}
use solace_broker_autoscale.Controller.Commands.{
  all_acknowledged, commands_issued, fresh_at, readiness_fresh, record_issued_commands,
}
use solace_broker_autoscale.Controller.Drain.{drain_complete}
use solace_broker_autoscale.Controller.Phases.{
  Error, Phase, activate, commit, drain, fence_failed, ingress_failed, pause, phase_deadline,
  prepare, publish_failed, readiness_stale, role_eq, transition_not_found, transition_phase_eq,
  unfence_failed, unknown_phase, unknown_phase_error, verify_failed,
}
use solace_broker_autoscale.Controller.Spec.{broker_eq, requirement_eq}
use solace_broker_autoscale.Controller.State.{
  GroupState, Options, PersistentState, complete_state, enter_phase,
}
use solace_broker_autoscale.Controller.Update.{get_group, save_membership, update_group}
use solace_broker_autoscale.Controller.World.{
  Env, Reply, control_update, deliver, fence_request, reply, target_ingress_request,
}
use solace_broker_autoscale.Prelude.{
  Bool, Option, Result, bool_eq, err, fails, false, if◌then◌else◌, list_eq, ltb, nat_eq, none, not,
  ok, option_eq, some, true, ℕ, ◌&&◌, ◌==◌, ◌||◌,
}
use solace_broker_autoscale.Text.{Bytes, UrlParser, bytes}

module _ (parse : UrlParser) (o : Options) (env : Env) (group : Bytes) where
  unfoldable pub publish :
      GroupState → Phase → Bool → PersistentState → PersistentState × Option Error
  publish g phase rollback p =
      let update = control_update g phase rollback in
      let (p', e) = save_membership parse env.membership_saved update.snapshot p in
      elim e [
        | some failure ↦ (p', some failure)
        | none ↦ (deliver env.delivered p', fails (not (env.publish update)) publish_failed)
      ]

  -- What `ensureCommandIntent` returns of an update.
  unfoldable pub reread :
      PersistentState × Option Error → PersistentState × Result Error (GroupState × Bool)
  reread (p, some e) = (p, err e)
  reread (p, none) = elim (get_group group p) [
    | none ↦ (p, err transition_not_found)
    | some g ↦ (p, ok (g, true))
  ]

  unfoldable pub ensure_command_intent :
      Phase → GroupState → PersistentState → PersistentState × Result Error (GroupState × Bool)
  ensure_command_intent phase g p =
      if commands_issued g phase
      then (p, ok (g, false))
      else reread
          (update_group group o.history_limit env.intent_saved (record_issued_commands phase) p)

  -- `return true, c.updateGroup(...)`.
  unfoldable pub change : (GroupState → GroupState) → PersistentState → Reply
  change update p =
      let (p', e) = update_group group o.history_limit env.change_saved update p in reply p' true e

  unfoldable pub enter : Phase → GroupState → GroupState
  enter phase = enter_phase phase env.entry_now (o.phase_timeout group)

  abbrev pub after_publish :
      Bool → (GroupState → GroupState) → PersistentState × Option Error → Reply
  after_publish changed mark (p, some e) = reply p changed (some e)
  after_publish changed mark (p, none) = change mark p

  abbrev pub after_intent :
      Phase → (GroupState → GroupState) → PersistentState × Result Error (GroupState × Bool) → Reply
  after_intent phase mark (p, err e) = reply p false (some e)
  after_intent phase mark (p, ok (g, intent)) = after_publish intent mark (publish g phase false p)

  -- Issue the commands of a phase, publish it and mark it published.
  unfoldable pub announce : Phase → (GroupState → GroupState) → GroupState → PersistentState → Reply
  announce phase mark g p = after_intent phase mark (ensure_command_intent phase g p)

  abbrev pub is_fresh_proof : Bool → ℕ → Bool
  is_fresh_proof holds observed_at =
      holds && not (observed_at == 0) && fresh_at env.verify_now o.fence_freshness observed_at

  unfoldable pub reconcile_prepare : GroupState → PersistentState → Reply
  reconcile_prepare g p =
      if not g.prepare_published
      then announce prepare (λ s. record s { prepare_published = true }) g p
      else if all_acknowledged g prepare
      then change (enter pause) p
      else reply p false none

  unfoldable pub apply_fence : GroupState → PersistentState → Reply
  apply_fence g p =
      if not g.fenced
      then (if env.fence (fence_request g (bytes "fence"))
          then change (λ s. record s { fenced = true }) p
          else reply p false (some fence_failed))
      else change (enter drain) p

  abbrev pub fence_reread : PersistentState × Result Error (GroupState × Bool) → Reply
  fence_reread (p, err e) = reply p false (some e)
  fence_reread (p, ok (g, found)) = apply_fence g p

  -- The attempt is durable before any broker is touched.
  unfoldable pub attempt_fence : GroupState → PersistentState → Reply
  attempt_fence g p =
      if g.fence_attempted
      then apply_fence g p
      else fence_reread (
          reread (
            update_group group o.history_limit env.attempt_saved
              (λ s. record s { fence_attempted = true }) p))

  unfoldable pub reconcile_pause : GroupState → PersistentState → Reply
  reconcile_pause g p =
      if not g.pause_published
      then announce pause (λ s. record s { pause_published = true }) g p
      else if not (all_acknowledged g pause)
      then reply p false none
      else attempt_fence g p

  unfoldable pub enter_commit : ℕ → GroupState → GroupState
  enter_commit verified s = enter commit (record s { fence_verified_at = some verified })

  unfoldable pub verify_drain : GroupState → PersistentState → Reply
  verify_drain g p =
      if not (all_acknowledged g drain)
        || not (readiness_fresh g env.readiness_now o.readiness_freshness)
      then reply p false (some readiness_stale)
      else elim (env.verify_fence (fence_request g (bytes "verify-fence"))) [
        | none ↦ reply p false (some verify_failed)
        | some status ↦
            if is_fresh_proof status.fenced status.observed_at
            then change (enter_commit status.observed_at) p
            else reply p false (some readiness_stale)
      ]

  unfoldable pub reconcile_drain : GroupState → PersistentState → Reply
  reconcile_drain g p =
      if not g.drain_published
      then announce drain (λ s. record s { drain_published = true }) g p
      else if drain_complete g env.drain_now (o.telemetry_freshness g.spec.group)
      then verify_drain g p
      else reply p false none

  unfoldable pub mark_committed : ℕ → GroupState → GroupState
  mark_committed verified s = record s {
    fence_attempted = true;
    fenced = true;
    fence_verified_at = some verified;
    commit_published = true;
  }

  unfoldable pub publish_commit : GroupState → PersistentState → Reply
  publish_commit g p = elim (env.verify_fence (fence_request g (bytes "commit-verify-fence"))) [
    | none ↦ reply p false (some verify_failed)
    | some status ↦
        if is_fresh_proof status.fenced status.observed_at
        then after_publish false (mark_committed status.observed_at) (publish g commit false p)
        else reply p false (some readiness_stale)
  ]

  unfoldable pub reconcile_commit : GroupState → PersistentState → Reply
  reconcile_commit g p =
      if not g.commit_published then publish_commit g p else change (enter activate) p

  unfoldable pub mark_verified : ℕ → GroupState → GroupState
  mark_verified verified s = record s {
    target_ingress_verified = true;
    target_ingress_verified_at = some verified;
  }

  unfoldable pub mark_activated : ℕ → GroupState → GroupState
  mark_activated verified s = record s {
    target_ingress_verified_at = some verified;
    activate_published = true;
  }

  -- A fresh proof of the target ingress, then the step that rests on it.
  unfoldable pub with_ingress_proof : Bytes → (ℕ → Reply) → GroupState → PersistentState → Reply
  with_ingress_proof action next g p = elim (env.verify_ingress (target_ingress_request g action)) [
    | none ↦ reply p false (some verify_failed)
    | some status ↦
        if is_fresh_proof status.enabled status.observed_at
        then next status.observed_at
        else reply p false (some readiness_stale)
  ]

  unfoldable pub reconcile_activate : GroupState → PersistentState → Reply
  reconcile_activate g p =
      if not g.target_ingress_enabled
      then (if env.enable_ingress (target_ingress_request g (bytes "enable-target-ingress"))
          then change (λ s. record s { target_ingress_enabled = true }) p
          else reply p false (some ingress_failed))
      else if not g.target_ingress_verified
      then with_ingress_proof (bytes "verify-target-ingress") (λ at. change (mark_verified at) p) g
          p
      else if not g.activate_published
      then with_ingress_proof (bytes "activate-verify-target-ingress")
          (λ at. announce activate (mark_activated at) g p) g p
      else if all_acknowledged g activate
      then change (complete_state env.entry_now) p
      else reply p false none

  unfoldable pub reconcile_rollback : GroupState → PersistentState → Reply
  reconcile_rollback g p =
      if (g.fence_attempted || g.fenced) && not g.unfenced
      then (if env.unfence (fence_request g (bytes "unfence"))
          then change (λ s. record s { unfenced = true }) p
          else reply p false (some unfence_failed))
      else if not g.rollback_published
      then after_publish false (λ s. record s { rollback_published = true })
          (publish g activate true p)
      else change (complete_state env.entry_now) p

  abbrev pub reconcile_phase : Phase → GroupState → PersistentState → Reply
  reconcile_phase prepare g p = reconcile_prepare g p
  reconcile_phase pause g p = reconcile_pause g p
  reconcile_phase drain g p = reconcile_drain g p
  reconcile_phase commit g p = reconcile_commit g p
  reconcile_phase activate g p = reconcile_activate g p
  reconcile_phase (unknown_phase text) g p = reply p false (some unknown_phase_error)

  abbrev pub deadline_passed : GroupState → Bool
  deadline_passed g =
      not (g.phase_deadline == 0)
      && ltb g.phase_deadline env.deadline_now
      && not (g.phase == commit)
      && not (g.phase == activate)

  unfoldable pub reconcile : PersistentState → Reply
  reconcile p = elim (get_group group p) [
    | none ↦ reply p false (some transition_not_found)
    | some g ↦
        if g.completed
        then reply p false none
        else if g.rolling_back
        then reconcile_rollback g p
        else if deadline_passed g
        then reply p false (some phase_deadline)
        else reconcile_phase g.phase g p
  ]
