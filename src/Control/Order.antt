-- ===== src/Control/Order.antt =====
-- The order that `compareSnapshots` (control/reconciler.go) puts on snapshots.
use solace_broker_autoscale.Control.Compare.{
  advance, compare_snapshots, replay, snapshots_equal, stale, validate_advance,
}
use solace_broker_autoscale.Control.Snapshot.{MembershipSnapshot}
use solace_broker_autoscale.Prelude.{
  ==_iff, ==_refl, arith, bool_eq, list_eq, nat_eq, none, ok, option_eq, true, ◌<◌, ◌↔◌, ◌≡◌, ◌≤◌,
}
use solace_broker_autoscale.Control.Snapshot.{
  descriptor_eq, destination_eq, kind_eq, phase_eq, queue_eq, resource_eq, transition_eq,
}
use solace_broker_autoscale.Prelude.{All-of_conj}
use solace_broker_autoscale.Control.Compare.{field_tests}

snapshots_equal_refl : (s : MembershipSnapshot) → snapshots_equal s s ≡ true
unfolding snapshots_equal
snapshots_equal_refl s = simp (
  ==_refl s.version,
  ==_refl s.namespace,
  ==_refl s.library_version,
  ==_refl s.scaling_group,
  ==_refl s.revision,
  ==_refl s.epoch,
  ==_refl s.phase,
  ==_refl s.hash_contract,
  ==_refl s.algorithm,
  ==_refl s.current_membership,
  ==_refl s.proposed_membership,
  ==_refl s.queue,
  ==_refl s.destination,
  ==_refl s.current_brokers,
  ==_refl s.proposed_brokers,
  ==_refl s.current_resources,
  ==_refl s.proposed_resources,
  ==_refl s.transition,
)

eq_of_snapshots_equal : (l r : MembershipSnapshot) → snapshots_equal l r ≡ true → l ≡ r
unfolding snapshots_equal
eq_of_snapshots_equal l r h =
    let q = All-of_conj (field_tests l r) h in
    λ i. record {
      version = (==_iff l.version r.version).0 q.0 i;
      namespace = (==_iff l.namespace r.namespace).0 q.1.0 i;
      library_version = (==_iff l.library_version r.library_version).0 q.1.1.0 i;
      scaling_group = (==_iff l.scaling_group r.scaling_group).0 q.1.1.1.0 i;
      revision = (==_iff l.revision r.revision).0 q.1.1.1.1.0 i;
      epoch = (==_iff l.epoch r.epoch).0 q.1.1.1.1.1.0 i;
      phase = (==_iff l.phase r.phase).0 q.1.1.1.1.1.1.0 i;
      hash_contract = (==_iff l.hash_contract r.hash_contract).0 q.1.1.1.1.1.1.1.0 i;
      algorithm = (==_iff l.algorithm r.algorithm).0 q.1.1.1.1.1.1.1.1.0 i;
      current_membership =
          (==_iff l.current_membership r.current_membership).0 q.1.1.1.1.1.1.1.1.1.0 i;
      proposed_membership =
          (==_iff l.proposed_membership r.proposed_membership).0 q.1.1.1.1.1.1.1.1.1.1.0 i;
      queue = (==_iff l.queue r.queue).0 q.1.1.1.1.1.1.1.1.1.1.1.0 i;
      destination = (==_iff l.destination r.destination).0 q.1.1.1.1.1.1.1.1.1.1.1.1.0 i;
      current_brokers =
          (==_iff l.current_brokers r.current_brokers).0 q.1.1.1.1.1.1.1.1.1.1.1.1.1.0 i;
      proposed_brokers =
          (==_iff l.proposed_brokers r.proposed_brokers).0 q.1.1.1.1.1.1.1.1.1.1.1.1.1.1.0 i;
      current_resources =
          (==_iff l.current_resources r.current_resources).0 q.1.1.1.1.1.1.1.1.1.1.1.1.1.1.1.0 i;
      proposed_resources =
          (==_iff l.proposed_resources r.proposed_resources).0 q.1.1.1.1.1.1.1.1.1.1.1.1.1.1.1.1.0
            i;
      transition = (==_iff l.transition r.transition).0 q.1.1.1.1.1.1.1.1.1.1.1.1.1.1.1.1.1.0 i;
    }

pub compare_refl : (s : MembershipSnapshot) → compare_snapshots s s ≡ ok replay
unfolding compare_snapshots
compare_refl s = ground (arith, snapshots_equal_refl s, ==_refl s.scaling_group)

-- An exact replay is the same snapshot, in every field.
pub compare-replay_iff : (l r : MembershipSnapshot) → (compare_snapshots l r ≡ ok replay) ↔ (l ≡ r)
unfolding compare_snapshots
compare-replay_iff l r = (λ h. eq_of_snapshots_equal l r (ground arith), λ h. rw h (compare_refl r))

pub record Advances (l r : MembershipSnapshot) : Type 0 where
  pub version_kept : l.version ≡ r.version
  pub group_kept : l.scaling_group ≡ r.scaling_group
  pub revision_grows : l.revision < r.revision
  pub epoch_kept : l.epoch ≤ r.epoch
  pub allowed : validate_advance l r ≡ none

-- `compareSnapshots` reports an advance exactly when version and group are kept, the revision
-- grows, the epoch does not fall, and `validateAdvance` allows the step.
pub compare-advance_guards :
    (l r : MembershipSnapshot) → (compare_snapshots l r ≡ ok advance) ↔ Advances l r
unfolding compare_snapshots
compare-advance_guards l r = (
  λ h. ground (arith, ==_iff l.scaling_group r.scaling_group),
  λ h. ground (arith, ==_iff l.scaling_group r.scaling_group),
)

-- Where `compareSnapshots` reports an advance from one snapshot to another, it reports the first as
-- stale against the second.
pub compare-flip :
    (l r : MembershipSnapshot)
    → compare_snapshots l r ≡ ok advance
    → compare_snapshots r l ≡ ok stale
unfolding compare_snapshots
compare-flip l r h =
    ground (arith, ==_iff l.scaling_group r.scaling_group, ==_iff r.scaling_group l.scaling_group)
