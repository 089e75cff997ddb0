-- ===== src/Control/Valid.antt =====
-- What `MembershipSnapshot.Validate` (control/snapshot.go) accepts, field by field.
use solace_broker_autoscale.Control.Snapshot.{
  MembershipSnapshot, descriptor_eq, destination_eq, kind_eq, phase_eq, queue_eq, resource_eq,
  topic, transition_eq,
}
use solace_broker_autoscale.Control.Validate.{
  snapshot_version, validate, validate_broker_descriptors, validate_fields, validate_identifier,
  validate_membership, validate_name_component, validate_resources,
}
use solace_broker_autoscale.Prelude.{
  ==_iff, arith, bool_eq, false, if◌then◌else◌, is_empty, list_eq, nat_eq, none, not, option_eq,
  true, ▸-none, ◌<◌, ◌≡◌,
}
use solace_broker_autoscale.Text.{Bytes, UrlParser}
use solace_broker_autoscale.Control.Validate.{validate_phase}

module _ (parse : UrlParser) where
  pub record ValidFields (s : MembershipSnapshot) : Type 0 where
    pub version_known : s.version ≡ snapshot_version
    pub namespace_fine :
        (if is_empty s.namespace then none else validate_name_component parse s.namespace) ≡ none
    pub library_fine :
        (if is_empty s.library_version then none else validate_identifier parse s.library_version)
        ≡ none
    pub group_fine : validate_identifier parse s.scaling_group ≡ none
    pub revision_positive : 0 < s.revision
    pub epoch_positive : 0 < s.epoch
    pub contract_fine : validate_identifier parse s.hash_contract ≡ none
    pub algorithm_fine : validate_identifier parse s.algorithm ≡ none
    pub current_fine : validate_membership parse s.current_membership true ≡ none
    pub proposed_fine : validate_membership parse s.proposed_membership false ≡ none
    pub current_brokers_fine :
        validate_broker_descriptors parse s.current_brokers s.current_membership true ≡ none
    pub proposed_brokers_fine :
        validate_broker_descriptors parse s.proposed_brokers s.proposed_membership
          (not (is_empty s.proposed_membership))
        ≡ none
    pub queue_fine : validate_identifier parse s.queue.name ≡ none
    pub queue_durable : s.queue.durable ≡ true
    pub topic_destination : s.destination.kind ≡ topic
    pub destination_fine : validate_identifier parse s.destination.name ≡ none
    pub resources_fine :
        validate_resources parse s.current_resources s.epoch s.current_membership ≡ none

  pub validate_fields-ValidFields :
      (s : MembershipSnapshot) → validate_fields parse s ≡ none → ValidFields s
  unfolding validate_fields
  validate_fields-ValidFields s h = ground (arith, ==_iff s.destination.kind topic)

  pub ValidFields-validate_fields :
      (s : MembershipSnapshot) → ValidFields s → validate_fields parse s ≡ none
  unfolding validate_fields
  ValidFields-validate_fields s v = ground (arith, ==_iff s.destination.kind topic)

  pub validate-split :
      (s : MembershipSnapshot)
      → validate parse s ≡ none
      → ValidFields s × (validate_phase parse s s.phase ≡ none)
  unfolding validate
  validate-split s h =
      let (fields, phase) = (▸-none (validate_fields parse s) _).0 h in
      (validate_fields-ValidFields s fields, phase)

  pub validate-join :
      (s : MembershipSnapshot)
      → ValidFields s
      → validate_phase parse s s.phase ≡ none
      → validate parse s ≡ none
  unfolding validate
  validate-join s v p = (▸-none (validate_fields parse s) _).1 (ValidFields-validate_fields s v, p)

  pub validate_identifier-nonempty :
      (v : Bytes) → validate_identifier parse v ≡ none → is_empty v ≡ false
  unfolding validate_identifier
  validate_identifier-nonempty v h = ground arith
