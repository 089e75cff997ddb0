-- ===== src/Control/Snapshot.antt =====
-- control/snapshot.go: the data of a membership snapshot, and its equality tests.
use solace_broker_autoscale.Prelude.{
  ℕ, ◌≡◌, ◌↔◌, Bool, true, false, ◌&&◌, Option, List, arith, Eq, ◌==◌, ==_iff, nat_eq, bool_eq,
  list_eq, option_eq,
}
use solace_broker_autoscale.Text.{Bytes}

-- `Phase` is a Go string: `unknown` stands for every other text.
pub data Phase : Type 0 where
  active prepare paused drain committed : Phase
  unknown : Bytes → Phase

pub data DestinationKind : Type 0 where
  topic queue : DestinationKind
  unknown_kind : Bytes → DestinationKind

abbrev pub Membership : Type 0
Membership = List Bytes

pub record Transition : Type 0 where
  pub id : Bytes
  pub from_epoch : ℕ
  pub to_epoch : ℕ

pub record QueueInfo : Type 0 where
  pub name : Bytes
  pub durable : Bool

pub record DestinationInfo : Type 0 where
  pub kind : DestinationKind
  pub name : Bytes

pub record BrokerDescriptor : Type 0 where
  pub id : Bytes
  pub endpoint : Bytes

pub record EpochResourceIdentity : Type 0 where
  pub epoch : ℕ
  pub broker_id : Bytes
  pub consumer_set : Bytes
  pub queue_name : Bytes
  pub ingress_topic : Bytes

pub record MembershipSnapshot : Type 0 where
  pub version : ℕ
  pub namespace : Bytes
  pub library_version : Bytes
  pub scaling_group : Bytes
  pub revision : ℕ
  pub epoch : ℕ
  pub phase : Phase
  pub hash_contract : Bytes
  pub algorithm : Bytes
  pub current_membership : Membership
  pub proposed_membership : Membership
  pub current_brokers : List BrokerDescriptor
  pub proposed_brokers : List BrokerDescriptor
  pub transition : Option Transition
  pub queue : QueueInfo
  pub destination : DestinationInfo
  pub current_resources : List EpochResourceIdentity
  pub proposed_resources : List EpochResourceIdentity

abbrev pub phase_beq : Phase → Phase → Bool
phase_beq active active = true
phase_beq prepare prepare = true
phase_beq paused paused = true
phase_beq drain drain = true
phase_beq committed committed = true
phase_beq (unknown a) (unknown b) = a == b
phase_beq _ _ = false

pub phase_beq_iff : (a b : Phase) → (phase_beq a b ≡ true) ↔ (a ≡ b)
phase_beq_iff (unknown a) (unknown b) =
    (λ h. ground (arith, ==_iff a b), λ h. ground (arith, ==_iff a b))
phase_beq_iff a b = (λ h. ground arith, λ h. ground arith)

instance abbrev pub phase_eq : Eq Phase
phase_eq = record { beq = phase_beq; beq_iff = phase_beq_iff }

abbrev pub kind_beq : DestinationKind → DestinationKind → Bool
kind_beq topic topic = true
kind_beq queue queue = true
kind_beq (unknown_kind a) (unknown_kind b) = a == b
kind_beq _ _ = false

pub kind_beq_iff : (a b : DestinationKind) → (kind_beq a b ≡ true) ↔ (a ≡ b)
kind_beq_iff (unknown_kind a) (unknown_kind b) =
    (λ h. ground (arith, ==_iff a b), λ h. ground (arith, ==_iff a b))
kind_beq_iff a b = (λ h. ground arith, λ h. ground arith)

instance abbrev pub kind_eq : Eq DestinationKind
kind_eq = record { beq = kind_beq; beq_iff = kind_beq_iff }

abbrev pub transition_beq : Transition → Transition → Bool
transition_beq a b = a.id == b.id && a.from_epoch == b.from_epoch && a.to_epoch == b.to_epoch

pub transition_beq_iff : (a b : Transition) → (transition_beq a b ≡ true) ↔ (a ≡ b)
transition_beq_iff a b =
    (λ h. ground (arith, ==_iff a.id b.id), λ h. ground (arith, ==_iff a.id b.id))

instance abbrev pub transition_eq : Eq Transition
transition_eq = record { beq = transition_beq; beq_iff = transition_beq_iff }

abbrev pub queue_beq : QueueInfo → QueueInfo → Bool
queue_beq a b = a.name == b.name && a.durable == b.durable

pub queue_beq_iff : (a b : QueueInfo) → (queue_beq a b ≡ true) ↔ (a ≡ b)
queue_beq_iff a b =
    (λ h. ground (arith, ==_iff a.name b.name), λ h. ground (arith, ==_iff a.name b.name))

instance abbrev pub queue_eq : Eq QueueInfo
queue_eq = record { beq = queue_beq; beq_iff = queue_beq_iff }

abbrev pub destination_beq : DestinationInfo → DestinationInfo → Bool
destination_beq a b = a.kind == b.kind && a.name == b.name

pub destination_beq_iff : (a b : DestinationInfo) → (destination_beq a b ≡ true) ↔ (a ≡ b)
destination_beq_iff a b = (
  λ h. ground (arith, ==_iff a.kind b.kind, ==_iff a.name b.name),
  λ h. ground (arith, ==_iff a.kind b.kind, ==_iff a.name b.name),
)

instance abbrev pub destination_eq : Eq DestinationInfo
destination_eq = record { beq = destination_beq; beq_iff = destination_beq_iff }

abbrev pub descriptor_beq : BrokerDescriptor → BrokerDescriptor → Bool
descriptor_beq a b = a.id == b.id && a.endpoint == b.endpoint

pub descriptor_beq_iff : (a b : BrokerDescriptor) → (descriptor_beq a b ≡ true) ↔ (a ≡ b)
descriptor_beq_iff a b = (
  λ h. ground (arith, ==_iff a.id b.id, ==_iff a.endpoint b.endpoint),
  λ h. ground (arith, ==_iff a.id b.id, ==_iff a.endpoint b.endpoint),
)

instance abbrev pub descriptor_eq : Eq BrokerDescriptor
descriptor_eq = record { beq = descriptor_beq; beq_iff = descriptor_beq_iff }

abbrev pub resource_beq : EpochResourceIdentity → EpochResourceIdentity → Bool
resource_beq a b =
    a.epoch == b.epoch
    && a.broker_id == b.broker_id
    && a.consumer_set == b.consumer_set
    && a.queue_name == b.queue_name
    && a.ingress_topic == b.ingress_topic

pub resource_beq_iff : (a b : EpochResourceIdentity) → (resource_beq a b ≡ true) ↔ (a ≡ b)
resource_beq_iff a b = (
  λ h. ground (
    arith,
    ==_iff a.broker_id b.broker_id,
    ==_iff a.consumer_set b.consumer_set,
    ==_iff a.queue_name b.queue_name,
    ==_iff a.ingress_topic b.ingress_topic,
  ),
  λ h. ground (
    arith,
    ==_iff a.broker_id b.broker_id,
    ==_iff a.consumer_set b.consumer_set,
    ==_iff a.queue_name b.queue_name,
    ==_iff a.ingress_topic b.ingress_topic,
  ),
)

instance abbrev pub resource_eq : Eq EpochResourceIdentity
resource_eq = record { beq = resource_beq; beq_iff = resource_beq_iff }
