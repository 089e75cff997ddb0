-- ===== src/Control/Succession.antt =====
-- The protocol that `validateAdvance` (control/reconciler.go) holds an update to, as a relation of
-- the installed snapshot and the update.
use solace_broker_autoscale.Control.Compare.{phase_rank}
use solace_broker_autoscale.Control.Snapshot.{
  MembershipSnapshot, Phase, Transition, active, committed, descriptor_eq, destination_eq, drain,
  kind_eq, phase_eq, prepare, queue_eq, resource_eq, transition_eq,
}
use solace_broker_autoscale.Prelude.{bool_eq, list_eq, nat_eq, option_eq, some, ◌<◌, ◌≡◌, ◌≢◌, ◌≤◌}
use solace_broker_autoscale.Controller.Phases.{role_eq, transition_phase_eq}
use solace_broker_autoscale.Controller.Spec.{broker_eq, requirement_eq}
use solace_broker_autoscale.Prelude.{pair_eq}

-- The update routes as the installed snapshot does.
pub record RoutesAlike (l r : MembershipSnapshot) : Type 0 where
  pub namespace_kept : l.namespace ≡ r.namespace
  pub library_kept : l.library_version ≡ r.library_version
  pub hash_kept : l.hash_contract ≡ r.hash_contract
  pub algorithm_kept : l.algorithm ≡ r.algorithm
  pub queue_kept : l.queue ≡ r.queue
  pub destination_kept : l.destination ≡ r.destination

abbrev pub KeepsCurrent : MembershipSnapshot → MembershipSnapshot → Type 0
KeepsCurrent l r =
    (r.current_membership ≡ l.current_membership) × (r.current_resources ≡ l.current_resources)

abbrev pub KeepsProposed : MembershipSnapshot → MembershipSnapshot → Type 0
KeepsProposed l r =
    (r.proposed_membership ≡ l.proposed_membership) × (r.proposed_resources ≡ l.proposed_resources)

-- What was proposed becomes what is current.
abbrev pub Promotes : MembershipSnapshot → MembershipSnapshot → Type 0
Promotes l r =
    (r.current_membership ≡ l.proposed_membership) × (r.current_resources ≡ l.proposed_resources)

-- A phase in which a transition has not been committed, or one that is no phase of the protocol.
abbrev pub IsOpen : Phase → Type 0
IsOpen p = (p ≢ active) × (p ≢ committed)

-- The moves of a client from one snapshot to the next.
pub data Succeeds (l r : MembershipSnapshot) : Type 0 where
  serve_on :
      l.phase ≡ active → r.phase ≡ active → (r.epoch ≡ l.epoch → KeepsCurrent l r) → Succeeds l r
  start : l.phase ≡ active → r.phase ≡ prepare → r.epoch ≡ l.epoch → KeepsCurrent l r → Succeeds l r
  proceed :
      (t : Transition)
      → IsOpen l.phase
      → IsOpen r.phase
      → phase_rank l.phase ≤ phase_rank r.phase
      → l.transition ≡ some t
      → r.transition ≡ some t
      → r.epoch ≡ l.epoch
      → KeepsCurrent l r
      → KeepsProposed l r
      → Succeeds l r
  commit :
      (t : Transition)
      → l.phase ≡ drain
      → r.phase ≡ committed
      → l.transition ≡ some t
      → r.transition ≡ some t
      → r.epoch ≡ t.to_epoch
      → Promotes l r
      → Succeeds l r
  activate :
      (t : Transition)
      → l.phase ≢ active
      → r.phase ≡ active
      → l.transition ≡ some t
      → r.epoch ≢ l.epoch
      → r.epoch ≡ t.to_epoch
      → Promotes l r
      → Succeeds l r
  roll_back :
      (t : Transition)
      → l.phase ≢ active
      → r.phase ≡ active
      → l.transition ≡ some t
      → r.epoch ≡ l.epoch
      → KeepsCurrent l r
      → Succeeds l r

-- The installed snapshot gives way to the update.
pub record GivesWay (l r : MembershipSnapshot) : Type 0 where
  pub version_same : l.version ≡ r.version
  pub group_same : l.scaling_group ≡ r.scaling_group
  pub revision_grows : l.revision < r.revision
  pub epoch_kept : l.epoch ≤ r.epoch
  pub alike : RoutesAlike l r
  pub move : Succeeds l r
