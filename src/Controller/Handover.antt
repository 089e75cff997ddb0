-- ===== src/Controller/Handover.antt =====
-- The snapshots of one transition (controller/controller.go `controlSnapshot`) as the clients see
-- them: `Validate` accepts each, and `compareSnapshots` (control) accepts each in its place.
use solace_broker_autoscale.Control.Snapshot.{Phase as ControlPhase}
use solace_broker_autoscale.Control.Validate.{validate as validate_snapshot}
use solace_broker_autoscale.Controller.Publication.{
  control_snapshot, forward_snapshot, source_snapshot, validate,
}
use solace_broker_autoscale.Controller.Spec.{TransitionSpec}
use solace_broker_autoscale.Prelude.{
  arith, bool_eq, false, is_empty, list_eq, nat_eq, none, option_eq, u64_max, ◌+◌, ◌<◌, ◌≡◌, ◌≤◌,
}
use solace_broker_autoscale.Text.{UrlParser}
use solace_broker_autoscale.Control.Snapshot.{Membership, Transition}
use solace_broker_autoscale.Control.Valid.{ValidFields, validate-split}
use solace_broker_autoscale.Control.Validate.{
  check_brokers, check_descriptors, validate_broker_descriptors, validate_membership,
  validate_resources, validate_transition,
}
use solace_broker_autoscale.Controller.Publication.{
  blank_snapshot, membership, target_snapshot, transition_of,
}
use solace_broker_autoscale.Prelude.{Option, [], true, ℕ}
use solace_broker_autoscale.Control.Valid.{validate-join}
use solace_broker_autoscale.Controller.Phases.{
  Phase, activate, commit, drain, pause, prepare, unknown_phase, valid_requirement_phase,
}
use solace_broker_autoscale.Controller.Publication.{rollback_snapshot}
use solace_broker_autoscale.Prelude.{Bool, refl}

module _ (parse : UrlParser) where
  -- What `TransitionSpec.Validate` establishes, with epochs that are 64-bit words.
  pub record Checked (s : TransitionSpec) : Type 0 where
    pub next_epoch : s.to_epoch ≡ s.from_epoch + 1
    pub revision_positive : 0 < s.revision
    pub revision_room : s.revision + 5 ≤ u64_max
    pub targets : is_empty s.proposed ≡ false
    pub first_valid : validate_snapshot parse (source_snapshot s ControlPhase.prepare 0) ≡ none

  pub validate-Checked :
      (s : TransitionSpec) → s.from_epoch ≤ u64_max → validate parse s ≡ none → Checked s
  unfolding validate control_snapshot forward_snapshot
  validate-Checked s w h = ground arith

  module _ (s : TransitionSpec) (c : Checked s) where
    fields : ValidFields parse (source_snapshot s ControlPhase.prepare 0)
    fields = (validate-split parse (source_snapshot s ControlPhase.prepare 0) c.first_valid).0

    proposal :
        validate_transition parse (source_snapshot s ControlPhase.prepare 0) (transition_of s)
        ≡ none
    unfolding source_snapshot blank_snapshot
    proposal = (validate-split parse (source_snapshot s ControlPhase.prepare 0) c.first_valid).1

    source_fields :
        (phase : ControlPhase) (offset : ℕ)
        → offset ≤ 5
        → ValidFields parse (source_snapshot s phase offset)
    unfolding source_snapshot blank_snapshot
    source_fields phase offset h =
        let f = fields in
        record {
          version_known = f.version_known;
          namespace_fine = f.namespace_fine;
          library_fine = f.library_fine;
          group_fine = f.group_fine;
          revision_positive = ground arith;
          epoch_positive = f.epoch_positive;
          contract_fine = f.contract_fine;
          algorithm_fine = f.algorithm_fine;
          current_fine = f.current_fine;
          proposed_fine = f.proposed_fine;
          current_brokers_fine = f.current_brokers_fine;
          proposed_brokers_fine = f.proposed_brokers_fine;
          queue_fine = f.queue_fine;
          queue_durable = f.queue_durable;
          topic_destination = f.topic_destination;
          destination_fine = f.destination_fine;
          resources_fine = f.resources_fine;
        }

    nothing_proposed :
        (validate_membership parse [] false ≡ none)
        × (validate_broker_descriptors parse [] [] false ≡ none)
    unfolding validate_membership check_brokers validate_broker_descriptors check_descriptors
    nothing_proposed = ground arith

    required_membership :
        (m : Membership)
        → is_empty m ≡ false
        → validate_membership parse m false ≡ none
        → validate_membership parse m true ≡ none
    unfolding validate_membership
    required_membership m h v = ground arith

    membership-nonempty : is_empty (membership s.proposed) ≡ false
    membership-nonempty = ground (arith, c.targets)

    proposed_resources_valid :
        validate_resources parse s.proposed_resources s.to_epoch (membership s.proposed) ≡ none
    unfolding source_snapshot blank_snapshot
    proposed_resources_valid = ground (arith, proposal)

    target_fields :
        (phase : ControlPhase) (offset : ℕ) (transition : Option Transition)
        → offset ≤ 5
        → ValidFields parse (target_snapshot s phase offset transition)
    unfolding target_snapshot source_snapshot blank_snapshot
    target_fields phase offset transition h =
        let f = fields in
        record {
          version_known = f.version_known;
          namespace_fine = f.namespace_fine;
          library_fine = f.library_fine;
          group_fine = f.group_fine;
          revision_positive = ground arith;
          epoch_positive = omega (arith, c.next_epoch);
          contract_fine = f.contract_fine;
          algorithm_fine = f.algorithm_fine;
          current_fine =
              required_membership (membership s.proposed) membership-nonempty f.proposed_fine;
          proposed_fine = nothing_proposed.0;
          current_brokers_fine = rw (membership-nonempty) at (f.proposed_brokers_fine);
          proposed_brokers_fine = nothing_proposed.1;
          queue_fine = f.queue_fine;
          queue_durable = f.queue_durable;
          topic_destination = f.topic_destination;
          destination_fine = f.destination_fine;
          resources_fine = proposed_resources_valid;
        }

    rollback_fields : ValidFields parse (rollback_snapshot s)
    unfolding rollback_snapshot source_snapshot blank_snapshot
    rollback_fields =
        let f = fields in
        record {
          version_known = f.version_known;
          namespace_fine = f.namespace_fine;
          library_fine = f.library_fine;
          group_fine = f.group_fine;
          revision_positive = ground arith;
          epoch_positive = f.epoch_positive;
          contract_fine = f.contract_fine;
          algorithm_fine = f.algorithm_fine;
          current_fine = f.current_fine;
          proposed_fine = nothing_proposed.0;
          current_brokers_fine = f.current_brokers_fine;
          proposed_brokers_fine = nothing_proposed.1;
          queue_fine = f.queue_fine;
          queue_durable = f.queue_durable;
          topic_destination = f.topic_destination;
          destination_fine = f.destination_fine;
          resources_fine = f.resources_fine;
        }

    paused_valid : validate_snapshot parse (source_snapshot s ControlPhase.paused 1) ≡ none
    unfolding source_snapshot blank_snapshot
    paused_valid =
        validate-join parse (source_snapshot s ControlPhase.paused 1)
          (source_fields ControlPhase.paused 1 (omega arith)) proposal

    drain_valid : validate_snapshot parse (source_snapshot s ControlPhase.drain 2) ≡ none
    unfolding source_snapshot blank_snapshot
    drain_valid =
        validate-join parse (source_snapshot s ControlPhase.drain 2)
          (source_fields ControlPhase.drain 2 (omega arith)) proposal

    committed_valid :
        validate_snapshot parse (target_snapshot s ControlPhase.committed 3 (transition_of s))
        ≡ none
    unfolding target_snapshot source_snapshot blank_snapshot
    committed_valid =
        validate-join parse (target_snapshot s ControlPhase.committed 3 (transition_of s))
          (target_fields ControlPhase.committed 3 (transition_of s) (omega arith))
          (ground (arith, proposal, c.next_epoch))

    active_valid : validate_snapshot parse (target_snapshot s ControlPhase.active 4 none) ≡ none
    unfolding target_snapshot blank_snapshot
    active_valid =
        validate-join parse (target_snapshot s ControlPhase.active 4 none)
          (target_fields ControlPhase.active 4 none (omega arith)) refl

    rollback_valid : validate_snapshot parse (rollback_snapshot s) ≡ none
    unfolding rollback_snapshot blank_snapshot
    rollback_valid = validate-join parse (rollback_snapshot s) rollback_fields refl

  -- For a specification that passes `TransitionSpec.Validate` and whose source epoch is a 64-bit
  -- word, the snapshot of each of the five phases, forward or rolling back, passes the validation of
  -- the clients.
  pub control_snapshot-valid :
      (s : TransitionSpec) (phase : Phase) (rollback : Bool)
      → s.from_epoch ≤ u64_max
      → validate parse s ≡ none
      → valid_requirement_phase phase ≡ true
      → validate_snapshot parse (control_snapshot s phase rollback) ≡ none
  unfolding control_snapshot forward_snapshot
  control_snapshot-valid s phase true w h p = rollback_valid s (validate-Checked s w h)
  control_snapshot-valid s prepare false w h p = (validate-Checked s w h).first_valid
  control_snapshot-valid s pause false w h p = paused_valid s (validate-Checked s w h)
  control_snapshot-valid s drain false w h p = drain_valid s (validate-Checked s w h)
  control_snapshot-valid s commit false w h p = committed_valid s (validate-Checked s w h)
  control_snapshot-valid s activate false w h p = active_valid s (validate-Checked s w h)
  control_snapshot-valid s (unknown_phase text) false w h p = cc
