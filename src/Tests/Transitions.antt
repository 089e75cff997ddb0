-- ===== src/Tests/Transitions.antt =====
-- The theorems on transitions (controller) at inputs that meet their hypotheses.
use solace_broker_autoscale.Controller.Phases.{Error}
use solace_broker_autoscale.Control.Snapshot.{MembershipSnapshot}
use solace_broker_autoscale.Control.Validate.{validate as validate_snapshot}
use solace_broker_autoscale.Control.Compare.{advance, stale}
use solace_broker_autoscale.Controller.Phases.{prepare}
use solace_broker_autoscale.Controller.Publication.{validate}
use solace_broker_autoscale.Control.Compare.{compare_snapshots}
use solace_broker_autoscale.Control.Snapshot.{BrokerDescriptor, EpochResourceIdentity, topic}
use solace_broker_autoscale.Control.Validate.{
  check_brokers, check_coverage, check_descriptors, check_resource, conflicting_update,
  has_credentials, is_amqp_endpoint, resource_key, scan_resources, tally_resource,
  validate_broker_descriptors, validate_fields, validate_identifier, validate_membership,
  validate_name_component, validate_resources,
}
use solace_broker_autoscale.Controller.Acceptance.{
  later_phase_accepted, rollback_outcome, skipped_drain_conflicts,
}
use solace_broker_autoscale.Controller.Handover.{control_snapshot-valid}
use solace_broker_autoscale.Controller.Phases.{activate, commit, pause}
use solace_broker_autoscale.Controller.Publication.{
  blank_snapshot, control_snapshot, forward_snapshot, source_snapshot,
}
use solace_broker_autoscale.Controller.Spec.{
  Broker, TransitionSpec, check_broker_set, check_participants, check_phases, collect_requirements,
  legacy_requirements, normalized_role_requirements, untyped_entries, validate_brokers,
}
use solace_broker_autoscale.Prelude.{
  [], arith, bool_eq, err, false, inr, list_eq, nat_eq, none, ok, option_eq, refl, some, true, ℕ,
  ◌++◌, ◌∷◌, ◌≡◌,
}
use solace_broker_autoscale.Text.{
  Bytes, UrlParser, bytes, decode, decode_byte, first_byte, next_byte, runes,
}
use solace_broker_autoscale.Controller.Start.{
  control_snapshot-transition_spec_from_snapshot, spec_of, transition_spec_from_snapshot,
}
use solace_broker_autoscale.Prelude.{Result, pair_eq}
use solace_broker_autoscale.Prelude.{int_eq, pos}

-- A parser that reads every text as one AMQP address without credentials.
abbrev pub any_url : UrlParser
any_url text = some (record {
  scheme = bytes "amqp";
  host = bytes "h";
  has_user = false;
  path = [];
  raw_query = [];
  fragment = [];
})

abbrev broker_a : Broker
broker_a = record { id = bytes "a"; destination = bytes "t" }

abbrev broker_b : Broker
broker_b = record { id = bytes "b"; destination = bytes "t" }

abbrev resource_at : ℕ → Bytes → EpochResourceIdentity
resource_at epoch id = record {
  epoch = epoch;
  broker_id = id;
  consumer_set = bytes "c";
  queue_name = bytes "q" ++ id;
  ingress_topic = bytes "t";
}

abbrev descriptor_at : Bytes → BrokerDescriptor
descriptor_at id = record { id = id; endpoint = bytes "amqp://h" }

-- A transition that adds the broker b.
abbrev pub grow : TransitionSpec
grow = record {
  id = bytes "t1";
  namespace = [];
  library_version = [];
  group = bytes "g";
  revision = 7;
  from_epoch = 3;
  to_epoch = 4;
  current = broker_a ∷ [];
  proposed = broker_a ∷ broker_b ∷ [];
  current_brokers = descriptor_at (bytes "a") ∷ [];
  proposed_brokers = descriptor_at (bytes "a") ∷ descriptor_at (bytes "b") ∷ [];
  queue = record { name = bytes "q"; durable = true };
  destination = record { kind = topic; name = bytes "t" };
  current_resources = resource_at 3 (bytes "a") ∷ [];
  proposed_resources = resource_at 4 (bytes "a") ∷ resource_at 4 (bytes "b") ∷ [];
  hash_contract = bytes "h1";
  algorithm = bytes "r1";
  drain_grace = pos 5;
  required_participants = bytes "p" ∷ [];
  participant_requirements = [];
  role_requirements = [];
}

grow-valid : validate any_url grow ≡ none
unfolding validate normalized_role_requirements collect_requirements legacy_requirements
    untyped_entries check_phases check_participants validate_brokers check_broker_set
    control_snapshot forward_snapshot source_snapshot blank_snapshot validate_snapshot
    validate_fields validate_identifier validate_name_component validate_membership check_brokers
    validate_broker_descriptors check_descriptors is_amqp_endpoint validate_resources scan_resources
    check_resource tally_resource resource_key check_coverage has_credentials runes decode
    decode_byte first_byte next_byte
grow-valid = refl

control_snapshot-valid_example :
    validate_snapshot any_url (control_snapshot grow commit false) ≡ none
control_snapshot-valid_example =
    control_snapshot-valid any_url grow commit false (omega arith) grow-valid refl

later_phase_accepted_example :
    compare_snapshots (control_snapshot grow prepare false) (control_snapshot grow activate false)
    ≡ ok advance
later_phase_accepted_example =
    later_phase_accepted any_url grow prepare activate (omega arith) grow-valid (omega arith)
      (omega arith) (λ e. cc)

skipped_drain_conflicts_example :
    compare_snapshots (control_snapshot grow pause false) (control_snapshot grow commit false)
    ≡ err conflicting_update
skipped_drain_conflicts_example =
    skipped_drain_conflicts any_url grow pause (omega arith) grow-valid (inr refl)

rollback_outcome_example :
    compare_snapshots (control_snapshot grow commit false) (control_snapshot grow commit true)
    ≡ ok stale
rollback_outcome_example =
    rollback_outcome any_url grow commit (omega arith) grow-valid (omega arith)

-- The snapshot that opens the transition, and the specification that is read from it.
abbrev opening : MembershipSnapshot
opening = control_snapshot grow prepare false

abbrev reread : Result Error TransitionSpec
reread = transition_spec_from_snapshot any_url opening (bytes "p" ∷ [])

abbrev read_spec : Result Error TransitionSpec → TransitionSpec
read_spec (ok spec) = spec
read_spec (err e) = grow

reads : reread ≡ ok (read_spec reread)
unfolding transition_spec_from_snapshot spec_of validate normalized_role_requirements
    collect_requirements legacy_requirements untyped_entries check_phases check_participants
    validate_brokers check_broker_set control_snapshot forward_snapshot source_snapshot
    blank_snapshot validate_snapshot validate_fields validate_identifier validate_name_component
    validate_membership check_brokers validate_broker_descriptors check_descriptors is_amqp_endpoint
    validate_resources scan_resources check_resource tally_resource resource_key check_coverage
    has_credentials runes decode decode_byte first_byte next_byte
reads = refl

control_snapshot-transition_spec_from_snapshot_example :
    control_snapshot (read_spec reread) prepare false ≡ opening
control_snapshot-transition_spec_from_snapshot_example =
    control_snapshot-transition_spec_from_snapshot any_url opening (bytes "p" ∷ [])
      (read_spec reread) reads
