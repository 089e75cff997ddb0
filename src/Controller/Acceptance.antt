-- ===== src/Controller/Acceptance.antt =====
-- The order in which clients accept the snapshots of one transition (controller/controller.go
-- `controlSnapshot`, control/reconciler.go `compareSnapshots`).
use solace_broker_autoscale.Control.Snapshot.{Phase as ControlPhase}
use solace_broker_autoscale.Control.Compare.{advance, stale}
use solace_broker_autoscale.Control.Compare.{compare_snapshots}
use solace_broker_autoscale.Control.Validate.{conflicting_update}
use solace_broker_autoscale.Controller.Handover.{validate-Checked}
use solace_broker_autoscale.Controller.Phases.{
  Phase, activate, commit, drain, pause, prepare, unknown_phase,
}
use solace_broker_autoscale.Controller.Publication.{
  control_snapshot, forward_snapshot, transition_of, validate,
}
use solace_broker_autoscale.Controller.Spec.{TransitionSpec}
use solace_broker_autoscale.Controller.Steps.{
  activate_allowed, commit_allowed, commit_to_active, skip_to_commit, source_allowed,
  source_to_source, target_to_rollback, to_rollback, to_target,
}
use solace_broker_autoscale.Prelude.{
  arith, bool_eq, err, false, if◌then◌else◌, inl, inr, list_eq, ltb, nat_eq, none, ok, option_eq,
  refl, true, u64_max, ℕ, ◌<◌, ◌≡◌, ◌≤◌, ◌⊎◌,
}
use solace_broker_autoscale.Text.{UrlParser}

-- The order of the phases in a transition.
abbrev pub transition_rank : Phase → ℕ
transition_rank prepare = 1
transition_rank pause = 2
transition_rank drain = 3
transition_rank commit = 4
transition_rank activate = 5
transition_rank (unknown_phase text) = 0

transition_rank-le : (p : Phase) → transition_rank p ≤ 5
transition_rank-le prepare = omega arith
transition_rank-le pause = omega arith
transition_rank-le drain = omega arith
transition_rank-le commit = omega arith
transition_rank-le activate = omega arith
transition_rank-le (unknown_phase text) = omega arith

module _ (parse : UrlParser) where
  -- For a valid specification whose source epoch is a 64-bit word, a client that holds the snapshot
  -- of one phase takes that of any later phase as an advance, where a snapshot of COMMIT is met in
  -- DRAIN.
  pub later_phase_accepted :
      (s : TransitionSpec) (p q : Phase)
      → s.from_epoch ≤ u64_max
      → validate parse s ≡ none
      → 0 < transition_rank p
      → transition_rank p < transition_rank q
      → (q ≡ commit → p ≡ drain)
      → compare_snapshots (control_snapshot s p false) (control_snapshot s q false) ≡ ok advance
  unfolding control_snapshot forward_snapshot
  later_phase_accepted s prepare pause w v k h d =
      let c = validate-Checked parse s w v in
      source_to_source s ControlPhase.prepare ControlPhase.paused 0 1 (omega arith) (omega arith)
        (source_allowed s ControlPhase.prepare ControlPhase.paused 0 1 (omega arith) (omega arith))
        c.revision_room c.revision_positive
  later_phase_accepted s prepare drain w v k h d =
      let c = validate-Checked parse s w v in
      source_to_source s ControlPhase.prepare ControlPhase.drain 0 2 (omega arith) (omega arith)
        (source_allowed s ControlPhase.prepare ControlPhase.drain 0 2 (omega arith) (omega arith))
        c.revision_room c.revision_positive
  later_phase_accepted s prepare commit w v k h d = cc (d refl)
  later_phase_accepted s prepare activate w v k h d =
      let c = validate-Checked parse s w v in
      to_target s c.revision_room c.revision_positive c.next_epoch ControlPhase.prepare
        ControlPhase.active 0 4 none (omega arith) (omega arith)
        (activate_allowed s ControlPhase.prepare 0 (λ e. cc) c.next_epoch)
  later_phase_accepted s pause drain w v k h d =
      let c = validate-Checked parse s w v in
      source_to_source s ControlPhase.paused ControlPhase.drain 1 2 (omega arith) (omega arith)
        (source_allowed s ControlPhase.paused ControlPhase.drain 1 2 (omega arith) (omega arith))
        c.revision_room c.revision_positive
  later_phase_accepted s pause commit w v k h d = cc (d refl)
  later_phase_accepted s pause activate w v k h d =
      let c = validate-Checked parse s w v in
      to_target s c.revision_room c.revision_positive c.next_epoch ControlPhase.paused
        ControlPhase.active 1 4 none (omega arith) (omega arith)
        (activate_allowed s ControlPhase.paused 1 (λ e. cc) c.next_epoch)
  later_phase_accepted s drain commit w v k h d =
      let c = validate-Checked parse s w v in
      to_target s c.revision_room c.revision_positive c.next_epoch ControlPhase.drain
        ControlPhase.committed 2 3 (transition_of s) (omega arith) (omega arith) (commit_allowed s)
  later_phase_accepted s drain activate w v k h d =
      let c = validate-Checked parse s w v in
      to_target s c.revision_room c.revision_positive c.next_epoch ControlPhase.drain
        ControlPhase.active 2 4 none (omega arith) (omega arith)
        (activate_allowed s ControlPhase.drain 2 (λ e. cc) c.next_epoch)
  later_phase_accepted s commit activate w v k h d =
      let c = validate-Checked parse s w v in
      commit_to_active s c.revision_room c.revision_positive c.next_epoch
  later_phase_accepted s p q w v k h d = absurd (omega (arith, transition_rank-le q))

  -- For a valid specification whose source epoch is a 64-bit word, a client that holds the snapshot
  -- of PREPARE or PAUSE refuses that of COMMIT as a conflict.
  pub skipped_drain_conflicts :
      (s : TransitionSpec) (p : Phase)
      → s.from_epoch ≤ u64_max
      → validate parse s ≡ none
      → (p ≡ prepare) ⊎ (p ≡ pause)
      → compare_snapshots (control_snapshot s p false) (control_snapshot s commit false)
        ≡ err conflicting_update
  unfolding control_snapshot forward_snapshot
  skipped_drain_conflicts s p w v (inl e) =
      let c = validate-Checked parse s w v in
      rw e (
        skip_to_commit s c.revision_room c.revision_positive c.next_epoch ControlPhase.prepare 0
          (omega arith) (λ e. cc))
  skipped_drain_conflicts s p w v (inr e) =
      let c = validate-Checked parse s w v in
      rw e (
        skip_to_commit s c.revision_room c.revision_positive c.next_epoch ControlPhase.paused 1
          (omega arith) (λ e. cc))

  -- For a valid specification whose source epoch is a 64-bit word, a client takes the rollback as an
  -- advance from each phase before COMMIT, and as stale from COMMIT and from ACTIVATE.
  pub rollback_outcome :
      (s : TransitionSpec) (p : Phase)
      → s.from_epoch ≤ u64_max
      → validate parse s ≡ none
      → 0 < transition_rank p
      → compare_snapshots (control_snapshot s p false) (control_snapshot s p true)
        ≡ ok (if ltb (transition_rank p) (transition_rank commit) then advance else stale)
  unfolding control_snapshot forward_snapshot
  rollback_outcome s prepare w v k =
      let c = validate-Checked parse s w v in
      to_rollback s c.revision_room c.revision_positive c.next_epoch ControlPhase.prepare 0
        (omega arith) (λ e. cc)
  rollback_outcome s pause w v k =
      let c = validate-Checked parse s w v in
      to_rollback s c.revision_room c.revision_positive c.next_epoch ControlPhase.paused 1
        (omega arith) (λ e. cc)
  rollback_outcome s drain w v k =
      let c = validate-Checked parse s w v in
      to_rollback s c.revision_room c.revision_positive c.next_epoch ControlPhase.drain 2
        (omega arith) (λ e. cc)
  rollback_outcome s commit w v k =
      let c = validate-Checked parse s w v in
      target_to_rollback s c.revision_room c.revision_positive c.next_epoch ControlPhase.committed 3
        (transition_of s) (omega arith)
  rollback_outcome s activate w v k =
      let c = validate-Checked parse s w v in
      target_to_rollback s c.revision_room c.revision_positive c.next_epoch ControlPhase.active 4
        none (omega arith)
  rollback_outcome s (unknown_phase text) w v k = absurd (omega arith)
