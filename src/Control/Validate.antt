-- ===== src/Control/Validate.antt =====
-- control/snapshot.go: what `MembershipSnapshot.Validate` refuses. The text of an error is left
-- out: a constructor of `Error` stands for each message of this package.
use solace_broker_autoscale.Control.Snapshot.{
  BrokerDescriptor, EpochResourceIdentity, Membership, MembershipSnapshot, descriptor_eq,
  destination_eq, kind_eq, phase_eq, queue_eq, resource_eq, transition_eq,
}
use solace_broker_autoscale.Prelude.{
  Bool, List, Map, Option, Result, [], add_key, all, any, bool_eq, contains, err, fails, false,
  if◌then◌else◌, insert, is_empty, length, list_eq, lookup, ltb, nat_eq, none, not, ok, option_eq,
  or_fail, some, true, ℕ, ◌&&◌, ◌++◌, ◌||◌, ◌∷◌, ◌▸◌,
}
use solace_broker_autoscale.Text.{Bytes, UrlParser, bytes, is_control, runes, within}
use solace_broker_autoscale.Prelude.{◌==◌, ◌>>=◌}
use solace_broker_autoscale.Control.Snapshot.{
  Phase, Transition, active, committed, drain, paused, prepare, topic, unknown,
}
use solace_broker_autoscale.Prelude.{u64, u64_max, ◌+◌}

pub data Error : Type 0 where
  unsupported_version zero_revision zero_epoch : Error
  bad_identifier control_character url_credentials bad_name_component : Error
  empty_membership membership_too_large duplicate_broker : Error
  undescribed_broker unexpected_brokers unknown_broker bad_endpoint : Error
  not_durable not_topic : Error
  no_resources wrong_epoch foreign_resource duplicate_resource duplicate_queue : Error
  uncovered_broker missing_consumer_set : Error
  active_with_proposal bad_committed bad_committed_epoch : Error
  no_proposal unchanged_proposal no_transition bad_from_epoch bad_to_epoch : Error
  unsupported_phase : Error
  not_subscribed snapshot_required stale_update conflicting_update already_started : Error
  version_changed group_changed baseline_finished nil_dereference : Error

abbrev pub snapshot_version : ℕ
snapshot_version = 3

abbrev pub max_identifier_bytes : ℕ
max_identifier_bytes = 1024

abbrev pub max_membership_size : ℕ
max_membership_size = 65536

abbrev runes_of : Bytes → List ℕ
runes_of v = elim (runes v) [ none ↦ [] | some rs ↦ rs ]

abbrev is_valid_string : Bytes → Bool
is_valid_string v = elim (runes v) [ none ↦ false | some rs ↦ true ]

abbrev is_name_rune : ℕ → Bool
is_name_rune r = within b'a' b'z' r || within b'0' b'9' r || r == b'-' || r == b'_' || r == b'.'

module _ (parse : UrlParser) where
  unfoldable pub has_credentials : Bytes → Bool
  has_credentials v = elim (parse v) [
    | none ↦ false
    | some url ↦ not (is_empty url.scheme) && url.has_user
  ]

  unfoldable pub validate_identifier : Bytes → Option Error
  validate_identifier v =
      fails
        (is_empty v
          || ltb max_identifier_bytes (length v)
          || not (is_valid_string v)
          || contains v 0)
        bad_identifier
      ▸ fails (any is_control (runes_of v)) control_character
      ▸ fails (has_credentials v) url_credentials

  unfoldable pub validate_name_component : Bytes → Option Error
  validate_name_component v =
      validate_identifier v
      ▸ fails (any (λ r. not (is_name_rune r)) (runes_of v)) bad_name_component

  -- The loop over the brokers, with the set `seen`.
  unfoldable pub check_brokers : List Bytes → Membership → Option Error
  check_brokers seen [] = none
  check_brokers seen (broker ∷ rest) =
      validate_identifier broker
      ▸ fails (contains seen broker) duplicate_broker
      ▸ check_brokers (broker ∷ seen) rest

  unfoldable pub validate_membership : Membership → Bool → Option Error
  validate_membership membership required =
      fails (required && is_empty membership) empty_membership
      ▸ fails (ltb max_membership_size (length membership)) membership_too_large
      ▸ check_brokers [] membership

  unfoldable pub is_amqp_endpoint : Bytes → Bool
  is_amqp_endpoint endpoint = elim (parse endpoint) [
    | none ↦ false
    | some url ↦
        not (is_empty url.host)
        && not url.has_user
        && (is_empty url.path || url.path == bytes "/")
        && is_empty url.raw_query
        && is_empty url.fragment
        && (url.scheme == bytes "amqp"
            || url.scheme == bytes "amqps"
            || url.scheme == bytes "amqp+ssl")
  ]

  unfoldable pub check_descriptors : Membership → List Bytes → List BrokerDescriptor → Option Error
  check_descriptors members seen [] = none
  check_descriptors members seen (descriptor ∷ rest) =
      validate_identifier descriptor.id
      ▸ fails (not (contains members descriptor.id)) unknown_broker
      ▸ fails (contains seen descriptor.id) duplicate_broker
      ▸ fails (not (is_amqp_endpoint descriptor.endpoint)) bad_endpoint
      ▸ check_descriptors members (descriptor.id ∷ seen) rest

  unfoldable pub validate_broker_descriptors :
      List BrokerDescriptor → Membership → Bool → Option Error
  validate_broker_descriptors descriptors membership required =
      fails (required && not (length descriptors == length membership)) undescribed_broker
      ▸ fails (not required && not (is_empty descriptors)) unexpected_brokers
      ▸ check_descriptors membership [] descriptors

-- `MembershipSnapshot.BrokerEndpoint`.
unfoldable pub endpoint_of : Bytes → List BrokerDescriptor → Option Bytes
endpoint_of id [] = none
endpoint_of id (descriptor ∷ rest) =
    if descriptor.id == id then some descriptor.endpoint else endpoint_of id rest

unfoldable pub broker_endpoint : MembershipSnapshot → Bytes → Bool → Option Bytes
broker_endpoint s id proposed =
    endpoint_of id (if proposed then s.proposed_brokers else s.current_brokers)

-- The maps that `validateResources` fills.
pub record Tally : Type 0 where
  pub seen : List Bytes
  pub queues : List Bytes
  pub consumer_sets : List Bytes
  pub broker_sets : Map Bytes (List Bytes)

abbrev pub no_tally : Tally
no_tally = record { seen = []; queues = []; consumer_sets = []; broker_sets = [] }

unfoldable pub resource_key : EpochResourceIdentity → Bytes
resource_key r = r.broker_id ++ 0 ∷ r.consumer_set

abbrev pub sets_of : Bytes → Map Bytes (List Bytes) → List Bytes
sets_of broker m = elim (lookup broker m) [ none ↦ [] | some sets ↦ sets ]

unfoldable pub tally_resource : Tally → EpochResourceIdentity → Tally
tally_resource t r = record {
  seen = resource_key r ∷ t.seen;
  queues = r.queue_name ∷ t.queues;
  consumer_sets = add_key r.consumer_set t.consumer_sets;
  broker_sets =
      insert r.broker_id (add_key r.consumer_set (sets_of r.broker_id t.broker_sets)) t.broker_sets;
}

module _ (parse : UrlParser) where
  unfoldable pub check_resource : ℕ → Membership → Tally → EpochResourceIdentity → Option Error
  check_resource epoch membership t r =
      fails (not (r.epoch == epoch)) wrong_epoch
      ▸ validate_name_component parse r.broker_id
      ▸ fails (not (contains membership r.broker_id)) foreign_resource
      ▸ validate_name_component parse r.consumer_set
      ▸ validate_identifier parse r.queue_name
      ▸ validate_identifier parse r.ingress_topic
      ▸ fails (contains t.seen (resource_key r)) duplicate_resource
      ▸ fails (contains t.queues r.queue_name) duplicate_queue

  unfoldable pub scan_resources :
      ℕ → Membership → Tally → List EpochResourceIdentity → Result Error Tally
  scan_resources epoch membership t [] = ok t
  scan_resources epoch membership t (r ∷ rest) =
      or_fail (check_resource epoch membership t r) (tally_resource t r) >>= λ t'.
      scan_resources epoch membership t' rest

  unfoldable pub check_coverage : Tally → Membership → Option Error
  check_coverage t [] = none
  check_coverage t (broker ∷ rest) =
      let sets = sets_of broker t.broker_sets in
      fails (not (length sets == length t.consumer_sets)) uncovered_broker
      ▸ fails (not (all (contains sets) t.consumer_sets)) missing_consumer_set
      ▸ check_coverage t rest

  unfoldable pub validate_resources : List EpochResourceIdentity → ℕ → Membership → Option Error
  validate_resources resources epoch membership =
      fails (is_empty resources) no_resources
      ▸ elim (scan_resources epoch membership no_tally resources) [
        | err e ↦ some e
        | ok t ↦ check_coverage t membership
      ]

module _ (parse : UrlParser) where
  -- The checks above the `switch` on the phase.
  unfoldable pub validate_fields : MembershipSnapshot → Option Error
  validate_fields s =
      fails (not (s.version == snapshot_version)) unsupported_version
      ▸ (if is_empty s.namespace then none else validate_name_component parse s.namespace)
      ▸ (if is_empty s.library_version then none else validate_identifier parse s.library_version)
      ▸ validate_identifier parse s.scaling_group
      ▸ fails (s.revision == 0) zero_revision
      ▸ fails (s.epoch == 0) zero_epoch
      ▸ validate_identifier parse s.hash_contract
      ▸ validate_identifier parse s.algorithm
      ▸ validate_membership parse s.current_membership true
      ▸ validate_membership parse s.proposed_membership false
      ▸ validate_broker_descriptors parse s.current_brokers s.current_membership true
      ▸ validate_broker_descriptors parse s.proposed_brokers s.proposed_membership
          (not (is_empty s.proposed_membership))
      ▸ validate_identifier parse s.queue.name
      ▸ fails (not s.queue.durable) not_durable
      ▸ fails (not (s.destination.kind == topic)) not_topic
      ▸ validate_identifier parse s.destination.name
      ▸ validate_resources parse s.current_resources s.epoch s.current_membership

  abbrev pub validate_active : MembershipSnapshot → Option Transition → Option Error
  validate_active s none =
      fails
        (not (is_empty s.proposed_membership)
          || not (is_empty s.proposed_resources)
          || not (is_empty s.proposed_brokers))
        active_with_proposal
  validate_active s (some t) = some active_with_proposal

  abbrev pub validate_committed : MembershipSnapshot → Option Transition → Option Error
  validate_committed s none = some bad_committed
  validate_committed s (some t) =
      fails (not (is_empty s.proposed_membership) || not (is_empty s.proposed_resources))
        bad_committed
      ▸ validate_identifier parse t.id
      ▸ fails
          (t.from_epoch == u64_max
            || not (t.to_epoch == u64 (t.from_epoch + 1))
            || not (s.epoch == t.to_epoch))
          bad_committed_epoch

  abbrev pub validate_transition : MembershipSnapshot → Option Transition → Option Error
  validate_transition s none =
      fails (is_empty s.proposed_membership) no_proposal
      ▸ fails (s.current_membership == s.proposed_membership) unchanged_proposal
      ▸ some no_transition
  validate_transition s (some t) =
      fails (is_empty s.proposed_membership) no_proposal
      ▸ validate_resources parse s.proposed_resources t.to_epoch s.proposed_membership
      ▸ fails (s.current_membership == s.proposed_membership) unchanged_proposal
      ▸ validate_identifier parse t.id
      ▸ fails (not (t.from_epoch == s.epoch)) bad_from_epoch
      ▸ fails (s.epoch == u64_max || not (t.to_epoch == u64 (s.epoch + 1))) bad_to_epoch

  abbrev pub validate_phase : MembershipSnapshot → Phase → Option Error
  validate_phase s active = validate_active s s.transition
  validate_phase s committed = validate_committed s s.transition
  validate_phase s (unknown text) = some unsupported_phase
  validate_phase s prepare = validate_transition s s.transition
  validate_phase s paused = validate_transition s s.transition
  validate_phase s drain = validate_transition s s.transition

  unfoldable pub validate : MembershipSnapshot → Option Error
  validate s = validate_fields s ▸ validate_phase s s.phase
