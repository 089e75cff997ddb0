-- ===== src/Controller/Spec.antt =====
-- controller/types.go: the input of a transition and the requirements on its participants.
use solace_broker_autoscale.Control.Snapshot.{
  BrokerDescriptor, DestinationInfo, EpochResourceIdentity, QueueInfo, descriptor_eq,
  destination_eq, kind_eq, phase_eq, queue_eq, resource_eq, transition_eq,
}
use solace_broker_autoscale.Controller.Phases.{
  ParticipantRole, activate, bad_broker, duplicate_participant, empty_participant, forbidden_role,
  is_known_role, pause, role_allowed_for_phase, role_eq, transition_phase_eq, unsupported_role,
  untyped, valid_requirement_phase,
}
use solace_broker_autoscale.Prelude.{
  entry, ==_iff, Bool, Eq, List, Map, Option, Result, [], arith, bool_eq, contains, fails,
  if◌then◌else◌, is_empty, list_eq, map, nat_eq, none, not, ok, option_eq, or_fail, some, true, ℕ,
  ◌&&◌, ◌==◌, ◌>>=◌, ◌||◌, ◌↔◌, ◌∷◌, ◌≡◌, ◌▸◌,
}
use solace_broker_autoscale.Text.{Bytes}
use solace_broker_autoscale.Controller.Phases.{
  Error, Phase, drain, duplicate_broker, prepare, unsupported_phase,
}
use solace_broker_autoscale.Prelude.{int_eq, pair_eq, ℤ}

pub record Broker : Type 0 where
  pub id : Bytes
  pub destination : Bytes

abbrev pub broker_beq : Broker → Broker → Bool
broker_beq a b = a.id == b.id && a.destination == b.destination

pub broker_beq_iff : (a b : Broker) → (broker_beq a b ≡ true) ↔ (a ≡ b)
broker_beq_iff a b = (
  λ h. ground (arith, ==_iff a.id b.id, ==_iff a.destination b.destination),
  λ h. ground (arith, ==_iff a.id b.id, ==_iff a.destination b.destination),
)

instance abbrev pub broker_eq : Eq Broker
broker_eq = record { beq = broker_beq; beq_iff = broker_beq_iff }

pub record ParticipantRequirement : Type 0 where
  pub participant : Bytes
  pub role : ParticipantRole

abbrev pub requirement_beq : ParticipantRequirement → ParticipantRequirement → Bool
requirement_beq a b = a.participant == b.participant && a.role == b.role

pub requirement_beq_iff : (a b : ParticipantRequirement) → (requirement_beq a b ≡ true) ↔ (a ≡ b)
requirement_beq_iff a b = (
  λ h. ground (arith, ==_iff a.participant b.participant, ==_iff a.role b.role),
  λ h. ground (arith, ==_iff a.participant b.participant, ==_iff a.role b.role),
)

instance abbrev pub requirement_eq : Eq ParticipantRequirement
requirement_eq = record { beq = requirement_beq; beq_iff = requirement_beq_iff }

-- Durations are natural numbers of nanoseconds.
pub record TransitionSpec : Type 0 where
  pub id : Bytes
  pub namespace : Bytes
  pub library_version : Bytes
  pub group : Bytes
  pub revision : ℕ
  pub from_epoch : ℕ
  pub to_epoch : ℕ
  pub current : List Broker
  pub proposed : List Broker
  pub current_brokers : List BrokerDescriptor
  pub proposed_brokers : List BrokerDescriptor
  pub queue : QueueInfo
  pub destination : DestinationInfo
  pub current_resources : List EpochResourceIdentity
  pub proposed_resources : List EpochResourceIdentity
  pub hash_contract : Bytes
  pub algorithm : Bytes
  pub drain_grace : ℤ
  pub required_participants : List Bytes
  pub participant_requirements : Map Phase (List Bytes)
  pub role_requirements : Map Phase (List ParticipantRequirement)

abbrev pub untyped_requirement : Bytes → ParticipantRequirement
untyped_requirement p = record { participant = p; role = untyped }

abbrev pub all_phases_valid {ℓ} : {V : Type ℓ} → Map Phase V → Bool
all_phases_valid [] = true
all_phases_valid ((phase, v) ∷ m) = valid_requirement_phase phase && all_phases_valid m

-- `legacy[phase]` of a specification that has no typed requirement.
unfoldable pub legacy_requirements : TransitionSpec → Map Phase (List Bytes)
legacy_requirements s =
    if is_empty s.participant_requirements
    then ((prepare, s.required_participants)
        ∷ (pause, s.required_participants)
        ∷ (drain, s.required_participants)
        ∷ (activate, s.required_participants)
        ∷ [])
    else s.participant_requirements

-- A phase with no participant gets no entry, since `append` is not reached.
unfoldable pub untyped_entries : Map Phase (List Bytes) → Map Phase (List ParticipantRequirement)
untyped_entries [] = []
untyped_entries ((phase, []) ∷ m) = untyped_entries m
untyped_entries ((phase, p ∷ ps) ∷ m) =
    (phase, map untyped_requirement (p ∷ ps)) ∷ untyped_entries m

unfoldable pub collect_requirements :
    TransitionSpec → Result Error (Map Phase (List ParticipantRequirement))
collect_requirements s =
    if not (is_empty s.role_requirements)
    then or_fail (fails (not (all_phases_valid s.role_requirements)) unsupported_phase)
        s.role_requirements
    else or_fail (fails (not (all_phases_valid (legacy_requirements s))) unsupported_phase)
        (untyped_entries (legacy_requirements s))

abbrev pub check_role : Phase → ParticipantRole → Option Error
check_role phase role =
    if role == untyped
    then none
    else (fails (not (is_known_role role)) unsupported_role
        ▸ fails (not (role_allowed_for_phase role phase)) forbidden_role)

unfoldable pub check_participants : Phase → List Bytes → List ParticipantRequirement → Option Error
check_participants phase seen [] = none
check_participants phase seen (r ∷ rest) =
    fails (is_empty r.participant) empty_participant
    ▸ fails (contains seen r.participant) duplicate_participant
    ▸ check_role phase r.role
    ▸ check_participants phase (r.participant ∷ seen) rest

unfoldable pub check_phases : Map Phase (List ParticipantRequirement) → Option Error
check_phases [] = none
check_phases ((phase, requirements) ∷ m) = check_participants phase [] requirements ▸ check_phases m

unfoldable pub normalized_role_requirements :
    TransitionSpec → Result Error (Map Phase (List ParticipantRequirement))
normalized_role_requirements s = collect_requirements s >>= λ m. or_fail (check_phases m) m

abbrev pub participants_of : List ParticipantRequirement → List Bytes
participants_of = map (λ r. r.participant)

abbrev pub participants_by_phase : Map Phase (List ParticipantRequirement) → Map Phase (List Bytes)
participants_by_phase [] = []
participants_by_phase ((phase, rs) ∷ m) = (phase, participants_of rs) ∷ participants_by_phase m

unfoldable pub normalized_requirements : TransitionSpec → Result Error (Map Phase (List Bytes))
normalized_requirements s = normalized_role_requirements s >>= λ m. ok (participants_by_phase m)

unfoldable pub find_participant :
    Bytes → List ParticipantRequirement → Option ParticipantRequirement
find_participant participant [] = none
find_participant participant (r ∷ rest) =
    if r.participant == participant then some r else find_participant participant rest

unfoldable pub requirement_for : TransitionSpec → Phase → Bytes → Option ParticipantRequirement
requirement_for s phase participant = find_participant participant (entry phase s.role_requirements)

unfoldable pub check_broker_set : List Bytes → List Broker → Option Error
check_broker_set seen [] = none
check_broker_set seen (b ∷ rest) =
    fails (is_empty b.id || is_empty b.destination) bad_broker
    ▸ fails (contains seen b.id) duplicate_broker
    ▸ check_broker_set (b.id ∷ seen) rest

unfoldable pub validate_brokers : List (List Broker) → Option Error
validate_brokers [] = none
validate_brokers (brokers ∷ sets) = check_broker_set [] brokers ▸ validate_brokers sets
