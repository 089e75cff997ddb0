-- ===== src/Controller/Publication.antt =====
-- The snapshot that each phase publishes (controller/controller.go `controlSnapshot`), and
-- `TransitionSpec.Validate` (controller/types.go), which checks the first of them.
use solace_broker_autoscale.Control.Snapshot.{Phase as ControlPhase}
use solace_broker_autoscale.Control.Validate.{validate as validate_snapshot}
use solace_broker_autoscale.Control.Snapshot.{
  Membership, MembershipSnapshot, Transition, descriptor_eq, destination_eq, kind_eq, phase_eq,
  queue_eq, resource_eq, topic, transition_eq,
}
use solace_broker_autoscale.Control.Validate.{snapshot_version}
use solace_broker_autoscale.Controller.Phases.{
  Error, Phase, activate, bad_destination, bad_epochs, bad_queue, bad_revision, bad_snapshot,
  commit, drain, missing_contract, missing_identity, missing_membership, missing_requirements,
  pause, prepare, role_eq, transition_phase_eq, unknown_phase,
}
use solace_broker_autoscale.Controller.Spec.{
  Broker, ParticipantRequirement, TransitionSpec, broker_eq, normalized_role_requirements,
  requirement_eq, validate_brokers,
}
use solace_broker_autoscale.Prelude.{entry}
use solace_broker_autoscale.Prelude.{
  Bool, List, Map, Option, Result, [], bool_eq, err, fails, false, if◌then◌else◌, is_empty, list_eq,
  ltb, map, nat_eq, none, not, ok, option_eq, some, u64, u64_max, ℕ, ◌&&◌, ◌+◌, ◌-◌, ◌==◌, ◌||◌,
  ◌∷◌, ◌▸◌,
}
use solace_broker_autoscale.Text.{UrlParser}

abbrev pub membership : List Broker → Membership
membership = map (λ b. b.id)

abbrev pub revision_for : ℕ → ℕ → ℕ
revision_for base offset = u64 ((if base == 0 then 1 else base) + offset)

-- What every snapshot of the transition shares; the rest has Go's zero values.
unfoldable pub blank_snapshot : TransitionSpec → MembershipSnapshot
blank_snapshot s = record {
  version = snapshot_version;
  namespace = s.namespace;
  library_version = s.library_version;
  scaling_group = s.group;
  revision = 0;
  epoch = 0;
  phase = ControlPhase.unknown [];
  hash_contract = s.hash_contract;
  algorithm = s.algorithm;
  current_membership = [];
  proposed_membership = [];
  current_brokers = [];
  proposed_brokers = [];
  transition = none;
  queue = s.queue;
  destination = s.destination;
  current_resources = [];
  proposed_resources = [];
}

abbrev pub transition_of : TransitionSpec → Option Transition
transition_of s = some (record { id = s.id; from_epoch = s.from_epoch; to_epoch = s.to_epoch })

-- PREPARE, PAUSE and DRAIN: the source is current and the target is proposed.
unfoldable pub source_snapshot : TransitionSpec → ControlPhase → ℕ → MembershipSnapshot
source_snapshot s phase offset =
    let blank = blank_snapshot s in
    record blank {
      revision = revision_for s.revision offset;
      epoch = s.from_epoch;
      phase = phase;
      current_membership = membership s.current;
      proposed_membership = membership s.proposed;
      current_brokers = s.current_brokers;
      proposed_brokers = s.proposed_brokers;
      current_resources = s.current_resources;
      proposed_resources = s.proposed_resources;
      transition = transition_of s;
    }

-- COMMIT and ACTIVATE: the target is current.
unfoldable pub target_snapshot :
    TransitionSpec → ControlPhase → ℕ → Option Transition → MembershipSnapshot
target_snapshot s phase offset transition =
    let blank = blank_snapshot s in
    record blank {
      revision = revision_for s.revision offset;
      epoch = s.to_epoch;
      phase = phase;
      current_membership = membership s.proposed;
      current_brokers = s.proposed_brokers;
      current_resources = s.proposed_resources;
      transition = transition;
    }

unfoldable pub rollback_snapshot : TransitionSpec → MembershipSnapshot
rollback_snapshot s =
    let blank = blank_snapshot s in
    record blank {
      revision = revision_for s.revision 5;
      epoch = s.from_epoch;
      phase = ControlPhase.active;
      current_membership = membership s.current;
      current_brokers = s.current_brokers;
      current_resources = s.current_resources;
    }

unfoldable pub forward_snapshot : TransitionSpec → Phase → MembershipSnapshot
forward_snapshot s prepare = source_snapshot s ControlPhase.prepare 0
forward_snapshot s pause = source_snapshot s ControlPhase.paused 1
forward_snapshot s drain = source_snapshot s ControlPhase.drain 2
forward_snapshot s commit = target_snapshot s ControlPhase.committed 3 (transition_of s)
forward_snapshot s activate = target_snapshot s ControlPhase.active 4 none
forward_snapshot s (unknown_phase text) = blank_snapshot s

unfoldable pub control_snapshot : TransitionSpec → Phase → Bool → MembershipSnapshot
control_snapshot s phase rollback =
    if rollback then rollback_snapshot s else forward_snapshot s phase

abbrev pub has_requirements : Map Phase (List ParticipantRequirement) → Bool
has_requirements m =
    not (is_empty (entry prepare m))
    && not (is_empty (entry pause m))
    && not (is_empty (entry drain m))
    && not (is_empty (entry activate m))

abbrev pub check_requirements :
    Result Error (Map Phase (List ParticipantRequirement)) → Option Error
check_requirements (err e) = some e
check_requirements (ok m) = fails (not (has_requirements m)) missing_requirements

module _ (parse : UrlParser) where
  abbrev pub check_snapshot : MembershipSnapshot → Option Error
  check_snapshot s = elim (validate_snapshot parse s) [ none ↦ none | some e ↦ some bad_snapshot ]

  -- `TransitionSpec.Validate`.
  unfoldable pub validate : TransitionSpec → Option Error
  validate s =
      fails (is_empty s.id || is_empty s.group) missing_identity
      ▸ fails (not (s.to_epoch == u64 (s.from_epoch + 1)) || s.from_epoch == u64_max) bad_epochs
      ▸ fails (s.revision == 0 || ltb (u64_max - 5) s.revision) bad_revision
      ▸ fails (is_empty s.hash_contract || is_empty s.algorithm) missing_contract
      ▸ fails (is_empty s.queue.name || not s.queue.durable) bad_queue
      ▸ fails (is_empty s.destination.name || not (s.destination.kind == topic)) bad_destination
      ▸ fails (is_empty s.current || is_empty s.proposed) missing_membership
      ▸ check_requirements (normalized_role_requirements s)
      ▸ validate_brokers (s.current ∷ s.proposed ∷ [])
      ▸ check_snapshot (control_snapshot s prepare false)
