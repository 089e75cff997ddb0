-- ===== src/Controller/Steps.antt =====
-- One snapshot of a transition after another (controller/controller.go `controlSnapshot`), by the
-- comparison of control/reconciler.go.
use solace_broker_autoscale.Control.Snapshot.{Phase as ControlPhase}
use solace_broker_autoscale.Control.Compare.{advance}
use solace_broker_autoscale.Control.Compare.{
  advance_transition, compare_snapshots, same_current, validate_advance,
  validate_routing_compatibility,
}
use solace_broker_autoscale.Control.Order.{compare-advance_guards}
use solace_broker_autoscale.Control.Snapshot.{
  descriptor_eq, destination_eq, kind_eq, phase_eq, queue_eq, resource_eq, transition_eq,
}
use solace_broker_autoscale.Controller.Phases.{role_eq, transition_phase_eq}
use solace_broker_autoscale.Controller.Publication.{blank_snapshot, membership, source_snapshot}
use solace_broker_autoscale.Controller.Spec.{TransitionSpec, broker_eq, requirement_eq}
use solace_broker_autoscale.Prelude.{
  ==_refl, arith, bool_eq, list_eq, nat_eq, none, ok, option_eq, refl, u64_max, ℕ, ◌+◌, ◌<◌, ◌≡◌,
  ◌≤◌,
}
use solace_broker_autoscale.Control.Compare.{
  adopts_proposal, advance_to_active, advance_to_committed, phase_rank,
}
use solace_broker_autoscale.Control.Validate.{conflicting_update}
use solace_broker_autoscale.Controller.Publication.{
  rollback_snapshot, target_snapshot, transition_of,
}
use solace_broker_autoscale.Prelude.{==_iff, some, true, ◌==◌, ◌≢◌}
use solace_broker_autoscale.Control.Compare.{stale}
use solace_broker_autoscale.Control.Snapshot.{Transition}
use solace_broker_autoscale.Prelude.{Option, err}

module _ (s : TransitionSpec) where
  -- Go's `==` of each field with itself.
  record Reflexive : Type 0 where
    namespace_same : s.namespace == s.namespace ≡ true
    library_same : s.library_version == s.library_version ≡ true
    contract_same : s.hash_contract == s.hash_contract ≡ true
    algorithm_same : s.algorithm == s.algorithm ≡ true
    queue_same : s.queue == s.queue ≡ true
    destination_same : s.destination == s.destination ≡ true
    current_same : membership s.current == membership s.current ≡ true
    proposed_same : membership s.proposed == membership s.proposed ≡ true
    current_resources_same : s.current_resources == s.current_resources ≡ true
    proposed_resources_same : s.proposed_resources == s.proposed_resources ≡ true
    id_same : s.id == s.id ≡ true
    from_same : s.from_epoch == s.from_epoch ≡ true
    to_same : s.to_epoch == s.to_epoch ≡ true

  reflexive : Reflexive
  reflexive = record {
    namespace_same = ==_refl s.namespace;
    library_same = ==_refl s.library_version;
    contract_same = ==_refl s.hash_contract;
    algorithm_same = ==_refl s.algorithm;
    queue_same = ==_refl s.queue;
    destination_same = ==_refl s.destination;
    current_same = ==_refl (membership s.current);
    proposed_same = ==_refl (membership s.proposed);
    current_resources_same = ==_refl s.current_resources;
    proposed_resources_same = ==_refl s.proposed_resources;
    id_same = ==_refl s.id;
    from_same = ==_refl s.from_epoch;
    to_same = ==_refl s.to_epoch;
  }

  pub source_to_source :
      (p q : ControlPhase) (i j : ℕ)
      → i < j
      → j ≤ 5
      → validate_advance (source_snapshot s p i) (source_snapshot s q j) ≡ none
      → s.revision + 5 ≤ u64_max
      → 0 < s.revision
      → compare_snapshots (source_snapshot s p i) (source_snapshot s q j) ≡ ok advance
  unfolding source_snapshot blank_snapshot
  source_to_source p q i j ij j5 a room pos =
      (compare-advance_guards (source_snapshot s p i) (source_snapshot s q j)).1 (record {
        version_kept = refl;
        group_kept = refl;
        revision_grows = ground arith;
        epoch_kept = omega arith;
        allowed = a;
      })

  pub source_allowed :
      (p q : ControlPhase) (i j : ℕ)
      → 0 < phase_rank p
      → phase_rank p ≤ phase_rank q
      → validate_advance (source_snapshot s p i) (source_snapshot s q j) ≡ none
  unfolding source_snapshot blank_snapshot validate_advance validate_routing_compatibility
      advance_transition same_current
  source_allowed p q i j h k = ground (arith, reflexive)

  pub commit_allowed :
      validate_advance
        (source_snapshot s ControlPhase.drain 2)
        (target_snapshot s ControlPhase.committed 3 (transition_of s))
      ≡ none
  unfolding source_snapshot target_snapshot blank_snapshot validate_advance
      validate_routing_compatibility advance_to_committed adopts_proposal
  commit_allowed = ground (arith, reflexive)

  commit_refused :
      (p : ControlPhase) (i : ℕ)
      → p ≢ ControlPhase.drain
      → validate_advance
          (source_snapshot s p i)
          (target_snapshot s ControlPhase.committed 3 (transition_of s))
        ≡ some conflicting_update
  unfolding source_snapshot target_snapshot blank_snapshot validate_advance
      validate_routing_compatibility advance_to_committed adopts_proposal
  commit_refused p i h = ground (arith, reflexive, ==_iff p ControlPhase.drain)

  pub activate_allowed :
      (p : ControlPhase) (i : ℕ)
      → p ≢ ControlPhase.active
      → s.to_epoch ≡ s.from_epoch + 1
      → validate_advance (source_snapshot s p i) (target_snapshot s ControlPhase.active 4 none)
        ≡ none
  unfolding source_snapshot target_snapshot blank_snapshot validate_advance
      validate_routing_compatibility advance_to_active same_current adopts_proposal
  activate_allowed p i h e = ground (arith, reflexive, ==_iff p ControlPhase.active)

  committed_to_active :
      validate_advance
        (target_snapshot s ControlPhase.committed 3 (transition_of s))
        (target_snapshot s ControlPhase.active 4 none)
      ≡ none
  unfolding target_snapshot blank_snapshot validate_advance validate_routing_compatibility
      advance_to_active same_current adopts_proposal
  committed_to_active = ground (arith, reflexive)

  rollback_allowed :
      (p : ControlPhase) (i : ℕ)
      → p ≢ ControlPhase.active
      → validate_advance (source_snapshot s p i) (rollback_snapshot s) ≡ none
  unfolding source_snapshot rollback_snapshot blank_snapshot validate_advance
      validate_routing_compatibility advance_to_active same_current adopts_proposal
  rollback_allowed p i h = ground (arith, reflexive, ==_iff p ControlPhase.active)

  module _ (room : s.revision + 5 ≤ u64_max) (pos : 0 < s.revision)
      (next : s.to_epoch ≡ s.from_epoch + 1) where
    pub to_target :
        (p q : ControlPhase) (i j : ℕ) (t : Option Transition)
        → i < j
        → j ≤ 5
        → validate_advance (source_snapshot s p i) (target_snapshot s q j t) ≡ none
        → compare_snapshots (source_snapshot s p i) (target_snapshot s q j t) ≡ ok advance
    unfolding source_snapshot target_snapshot blank_snapshot
    to_target p q i j t ij j5 a =
        (compare-advance_guards (source_snapshot s p i) (target_snapshot s q j t)).1 (record {
          version_kept = refl;
          group_kept = refl;
          revision_grows = ground arith;
          epoch_kept = omega (arith, next);
          allowed = a;
        })

    pub commit_to_active :
        compare_snapshots
          (target_snapshot s ControlPhase.committed 3 (transition_of s))
          (target_snapshot s ControlPhase.active 4 none)
        ≡ ok advance
    unfolding target_snapshot blank_snapshot
    commit_to_active =
        (compare-advance_guards (target_snapshot s ControlPhase.committed 3 (transition_of s))
            (target_snapshot s ControlPhase.active 4 none)).1
          (record {
            version_kept = refl;
            group_kept = refl;
            revision_grows = ground arith;
            epoch_kept = omega arith;
            allowed = committed_to_active;
          })

    pub to_rollback :
        (p : ControlPhase) (i : ℕ)
        → i < 5
        → p ≢ ControlPhase.active
        → compare_snapshots (source_snapshot s p i) (rollback_snapshot s) ≡ ok advance
    unfolding source_snapshot rollback_snapshot blank_snapshot
    to_rollback p i h np =
        (compare-advance_guards (source_snapshot s p i) (rollback_snapshot s)).1 (record {
          version_kept = refl;
          group_kept = refl;
          revision_grows = ground arith;
          epoch_kept = omega arith;
          allowed = rollback_allowed p i np;
        })

    pub target_to_rollback :
        (p : ControlPhase) (i : ℕ) (t : Option Transition)
        → i < 5
        → compare_snapshots (target_snapshot s p i t) (rollback_snapshot s) ≡ ok stale
    unfolding compare_snapshots target_snapshot rollback_snapshot blank_snapshot
    target_to_rollback p i t h = ground (arith, ==_refl s.group)

    pub skip_to_commit :
        (p : ControlPhase) (i : ℕ)
        → i < 3
        → p ≢ ControlPhase.drain
        → compare_snapshots
            (source_snapshot s p i)
            (target_snapshot s ControlPhase.committed 3 (transition_of s))
          ≡ err conflicting_update
    unfolding compare_snapshots source_snapshot target_snapshot blank_snapshot
    skip_to_commit p i h np = ground (arith, ==_refl s.group, commit_refused p i np)
