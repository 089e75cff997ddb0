-- ===== src/Control/Compare.antt =====
-- control/snapshot.go `snapshotsEqual` and control/reconciler.go `compareSnapshots`: the order of
-- two snapshots of one scaling group, and which snapshot may follow which.
use solace_broker_autoscale.Control.Snapshot.{
  MembershipSnapshot, Phase, Transition, active, committed, descriptor_eq, destination_eq, drain,
  kind_eq, paused, phase_eq, prepare, queue_eq, resource_eq, transition_eq,
}
use solace_broker_autoscale.Control.Validate.{
  Error, conflicting_update, group_changed, stale_update, version_changed,
}
use solace_broker_autoscale.Prelude.{
  Bool, Option, Result, bool_eq, err, fails, false, if◌then◌else◌, list_eq, ltb, nat_eq, none, not,
  ok, option_eq, or_fail, some, true, ℕ, ◌&&◌, ◌==◌, ◌||◌, ◌▸◌,
}
use solace_broker_autoscale.Prelude.{[], conj, ◌∷◌}
use solace_broker_autoscale.Prelude.{List}

abbrev pub field_tests : MembershipSnapshot → MembershipSnapshot → List Bool
field_tests l r =
    (l.version == r.version)
    ∷ (l.namespace == r.namespace)
    ∷ (l.library_version == r.library_version)
    ∷ (l.scaling_group == r.scaling_group)
    ∷ (l.revision == r.revision)
    ∷ (l.epoch == r.epoch)
    ∷ (l.phase == r.phase)
    ∷ (l.hash_contract == r.hash_contract)
    ∷ (l.algorithm == r.algorithm)
    ∷ (l.current_membership == r.current_membership)
    ∷ (l.proposed_membership == r.proposed_membership)
    ∷ (l.queue == r.queue)
    ∷ (l.destination == r.destination)
    ∷ (l.current_brokers == r.current_brokers)
    ∷ (l.proposed_brokers == r.proposed_brokers)
    ∷ (l.current_resources == r.current_resources)
    ∷ (l.proposed_resources == r.proposed_resources)
    ∷ (l.transition == r.transition)
    ∷ []

unfoldable pub snapshots_equal : MembershipSnapshot → MembershipSnapshot → Bool
snapshots_equal l r = conj (field_tests l r)

-- The integer of `compareSnapshots`: -1, 0 and 1.
pub data Comparison : Type 0 where
  advance replay stale : Comparison

unfoldable pub validate_routing_compatibility :
    MembershipSnapshot → MembershipSnapshot → Option Error
validate_routing_compatibility l r =
    fails (not (l.namespace == r.namespace)) conflicting_update
    ▸ fails (not (l.library_version == r.library_version)) conflicting_update
    ▸ fails (not (l.hash_contract == r.hash_contract)) conflicting_update
    ▸ fails (not (l.algorithm == r.algorithm)) conflicting_update
    ▸ fails (not (l.queue == r.queue)) conflicting_update
    ▸ fails (not (l.destination == r.destination)) conflicting_update

unfoldable pub same_current : MembershipSnapshot → MembershipSnapshot → Bool
same_current l r =
    r.current_membership == l.current_membership && r.current_resources == l.current_resources

-- The current state on the right is what the left one proposed.
unfoldable pub adopts_proposal : MembershipSnapshot → MembershipSnapshot → Bool
adopts_proposal l r =
    r.current_membership == l.proposed_membership && r.current_resources == l.proposed_resources

-- `left.Transition == nil || right.Transition == nil || *left.Transition != *right.Transition`
-- is the negation of this.
abbrev pub same_transition : Option Transition → Option Transition → Bool
same_transition (some a) (some b) = a == b
same_transition _ _ = false

abbrev pub targets_epoch : Option Transition → ℕ → Bool
targets_epoch none epoch = false
targets_epoch (some t) epoch = epoch == t.to_epoch

abbrev pub phase_rank : Phase → ℕ
phase_rank prepare = 1
phase_rank paused = 2
phase_rank drain = 3
phase_rank _ = 0

abbrev is_none {ℓ} : {A : Type ℓ} → Option A → Bool
is_none none = true
is_none (some a) = false

unfoldable pub advance_to_active : MembershipSnapshot → MembershipSnapshot → Option Error
advance_to_active l r =
    if l.phase == active
    then fails (r.epoch == l.epoch && not (same_current l r)) conflicting_update
    else (fails (is_none l.transition) conflicting_update
        ▸ (if r.epoch == l.epoch
            then fails (not (same_current l r)) conflicting_update
            else fails (not (targets_epoch l.transition r.epoch) || not (adopts_proposal l r))
                conflicting_update))

unfoldable pub advance_to_committed : MembershipSnapshot → MembershipSnapshot → Option Error
advance_to_committed l r =
    fails
      (not (l.phase == drain)
        || not (same_transition l.transition r.transition)
        || not (targets_epoch l.transition r.epoch)
        || not (adopts_proposal l r))
      conflicting_update

-- PREPARE, PAUSED and DRAIN on the right.
unfoldable pub advance_transition : MembershipSnapshot → MembershipSnapshot → Option Error
advance_transition l r =
    if l.phase == committed
    then some conflicting_update
    else if l.phase == active
    then fails (not (r.phase == prepare) || not (r.epoch == l.epoch) || not (same_current l r))
        conflicting_update
    else (fails
          (not (same_transition l.transition r.transition)
            || not (r.epoch == l.epoch)
            || not (same_current l r)
            || not (r.proposed_membership == l.proposed_membership)
            || not (r.proposed_resources == l.proposed_resources))
          conflicting_update
        ▸ fails (ltb (phase_rank r.phase) (phase_rank l.phase)) stale_update)

unfoldable pub validate_advance : MembershipSnapshot → MembershipSnapshot → Option Error
validate_advance l r =
    validate_routing_compatibility l r
    ▸ (if r.phase == active
        then advance_to_active l r
        else if r.phase == committed
        then advance_to_committed l r
        else advance_transition l r)

unfoldable pub compare_snapshots : MembershipSnapshot → MembershipSnapshot → Result Error Comparison
compare_snapshots l r =
    if not (l.version == r.version)
    then err version_changed
    else if not (l.scaling_group == r.scaling_group)
    then err group_changed
    else if r.revision == l.revision
    then (if snapshots_equal l r then ok replay else err conflicting_update)
    else if ltb r.revision l.revision
    then (if ltb l.epoch r.epoch then err conflicting_update else ok stale)
    else if ltb r.epoch l.epoch
    then ok stale
    else or_fail (validate_advance l r) advance
