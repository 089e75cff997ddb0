-- ===== src/Controller/Start.antt =====
-- controller/controller.go `TransitionSpecFromSnapshot`: the specification of a transition that a
-- PREPARE snapshot describes. The specification beside an error is not read.
use solace_broker_autoscale.Control.Snapshot.{Phase as ControlPhase}
use solace_broker_autoscale.Control.Validate.{validate as validate_snapshot}
use solace_broker_autoscale.Control.Validate.{validate_resources}
use solace_broker_autoscale.Controller.Publication.{validate}
use solace_broker_autoscale.Controller.Phases.{Error, missing_identity, bad_epochs, bad_revision}
use solace_broker_autoscale.Controller.Spec.{Broker}
use solace_broker_autoscale.Control.Snapshot.{Membership, MembershipSnapshot, Transition}
use solace_broker_autoscale.Control.Validate.{snapshot_version}
use solace_broker_autoscale.Controller.Phases.{activate, drain, not_prepare, pause, prepare}
use solace_broker_autoscale.Controller.Publication.{
  blank_snapshot, check_snapshot, control_snapshot, forward_snapshot, membership, revision_for,
  source_snapshot,
}
use solace_broker_autoscale.Controller.Spec.{TransitionSpec}
use solace_broker_autoscale.Prelude.{
  List, Option, Result, [], ap, bool_eq, err, false, guarded, list_eq, map, nat_eq, none, option_eq,
  or_fail, pair_eq, refl, some, ◌∷◌, ◌≡◌,
}
use solace_broker_autoscale.Text.{Bytes, UrlParser}
use solace_broker_autoscale.Control.Validate.{validate_phase, validate_transition}
use solace_broker_autoscale.Prelude.{Option-cases, inl, inr, ok, sym}
use solace_broker_autoscale.Control.Snapshot.{
  descriptor_eq, destination_eq, kind_eq, phase_eq, queue_eq, resource_eq, transition_eq,
}
use solace_broker_autoscale.Control.Valid.{validate-split}
use solace_broker_autoscale.Control.Validate.{
  bad_from_epoch, no_proposal, unchanged_proposal, validate_identifier,
}
use solace_broker_autoscale.Controller.Phases.{role_eq, transition_phase_eq}
use solace_broker_autoscale.Controller.Spec.{broker_eq, requirement_eq}
use solace_broker_autoscale.Prelude.{
  ==_iff, arith, fails, fails-none, guarded-ok, is_empty, ltb, not, or_fail-ok, u64, u64_max, ℕ,
  ▸-none, ◌+◌, ◌-◌, ◌==◌, ◌||◌, ◌∙◌,
}
use solace_broker_autoscale.Prelude.{int_eq, pos}

abbrev pub brokers_at : Bytes → Membership → List Broker
brokers_at destination = map (λ id. record { id = id; destination = destination })

unfoldable pub spec_of : MembershipSnapshot → Transition → List Bytes → TransitionSpec
spec_of s t participants = record {
  id = t.id;
  namespace = s.namespace;
  library_version = s.library_version;
  group = s.scaling_group;
  revision = s.revision;
  from_epoch = t.from_epoch;
  to_epoch = t.to_epoch;
  current = brokers_at s.destination.name s.current_membership;
  proposed = brokers_at s.destination.name s.proposed_membership;
  current_brokers = s.current_brokers;
  proposed_brokers = s.proposed_brokers;
  queue = s.queue;
  destination = s.destination;
  current_resources = s.current_resources;
  proposed_resources = s.proposed_resources;
  hash_contract = s.hash_contract;
  algorithm = s.algorithm;
  drain_grace = pos 0;
  required_participants = participants;
  participant_requirements =
      (prepare, participants)
      ∷ (pause, participants)
      ∷ (drain, participants)
      ∷ (activate, participants)
      ∷ [];
  role_requirements = [];
}

module _ (parse : UrlParser) where
  abbrev pub checked_spec : TransitionSpec → Result Error TransitionSpec
  checked_spec spec = or_fail (validate parse spec) spec

  abbrev pub from_transition :
      MembershipSnapshot → List Bytes → Option Transition → Result Error TransitionSpec
  from_transition s participants none = err not_prepare
  from_transition s participants (some t) = checked_spec (spec_of s t participants)

  abbrev pub from_phase :
      MembershipSnapshot → List Bytes → ControlPhase → Result Error TransitionSpec
  from_phase s participants ControlPhase.prepare = from_transition s participants s.transition
  from_phase s participants ControlPhase.paused = err not_prepare
  from_phase s participants ControlPhase.drain = err not_prepare
  from_phase s participants ControlPhase.committed = err not_prepare
  from_phase s participants ControlPhase.active = err not_prepare
  from_phase s participants (ControlPhase.unknown text) = err not_prepare

  -- `TransitionSpecFromSnapshot`.
  unfoldable pub transition_spec_from_snapshot :
      MembershipSnapshot → List Bytes → Result Error TransitionSpec
  transition_spec_from_snapshot s participants =
      guarded (check_snapshot parse s) (from_phase s participants s.phase)

  membership-brokers_at : (d : Bytes) (ids : Membership) → membership (brokers_at d ids) ≡ ids
  membership-brokers_at d [] = refl
  membership-brokers_at d (id ∷ ids) = ap (λ rest. id ∷ rest) (membership-brokers_at d ids)

  check_snapshot-none :
      (s : MembershipSnapshot) → check_snapshot parse s ≡ none → validate_snapshot parse s ≡ none
  check_snapshot-none s h = elim (Option-cases (validate_snapshot parse s)) [
    | inl fine ↦ fine
    | inr (e, bad) ↦ cc
  ]

  -- The fields of a PREPARE snapshot that the specification determines.
  published-same :
      (s : MembershipSnapshot) (t : Transition) (participants : List Bytes)
      → s.version ≡ snapshot_version
      → s.transition ≡ some t
      → s.phase ≡ ControlPhase.prepare
      → s.epoch ≡ t.from_epoch
      → revision_for s.revision 0 ≡ s.revision
      → control_snapshot (spec_of s t participants) prepare false ≡ s
  unfolding control_snapshot forward_snapshot source_snapshot blank_snapshot spec_of
  published-same s t participants v tr ph ep re i = record s {
    version = sym v i;
    revision = re i;
    epoch = sym ep i;
    phase = sym ph i;
    current_membership = membership-brokers_at s.destination.name s.current_membership i;
    proposed_membership = membership-brokers_at s.destination.name s.proposed_membership i;
    transition = sym tr i;
  }

  small_revision : (n : ℕ) → (n == 0 || ltb (u64_max - 5) n) ≡ false → revision_for n 0 ≡ n
  small_revision n h = ground arith

  revision-kept :
      (s : MembershipSnapshot) (t : Transition) (participants : List Bytes)
      → validate parse (spec_of s t participants) ≡ none
      → revision_for s.revision 0 ≡ s.revision
  unfolding validate spec_of
  revision-kept s t participants h =
      let (identity, after_identity) =
        (▸-none (fails (is_empty t.id || is_empty s.scaling_group) missing_identity) _).0 h in
      let (epochs, after_epochs) =
        (▸-none
            (fails (not (t.to_epoch == u64 (t.from_epoch + 1)) || t.from_epoch == u64_max)
              bad_epochs)
            _).0
          after_identity in
      let (revision, rest) =
        (▸-none (fails (s.revision == 0 || ltb (u64_max - 5) s.revision) bad_revision) _).0
          after_epochs in
      small_revision s.revision ((fails-none _ bad_revision).0 revision)

  from_epoch-same :
      (s : MembershipSnapshot) (t : Transition)
      → validate_transition parse s (some t) ≡ none
      → s.epoch ≡ t.from_epoch
  from_epoch-same s t h =
      let (_, a) = (▸-none (fails (is_empty s.proposed_membership) no_proposal) _).0 h in
      let (_, b) =
        (▸-none (validate_resources parse s.proposed_resources t.to_epoch s.proposed_membership)
            _).0
          a in
      let (_, c) =
        (▸-none (fails (s.current_membership == s.proposed_membership) unchanged_proposal) _).0 b in
      let (_, d) = (▸-none (validate_identifier parse t.id) _).0 c in
      let (same, _) = (▸-none (fails (not (t.from_epoch == s.epoch)) bad_from_epoch) _).0 d in
      ground (arith, (fails-none _ bad_from_epoch).0 same, ==_iff t.from_epoch s.epoch)

  from_transition-same :
      (s : MembershipSnapshot) (participants : List Bytes) (spec : TransitionSpec)
      (o : Option Transition)
      → s.version ≡ snapshot_version
      → s.phase ≡ ControlPhase.prepare
      → s.transition ≡ o
      → validate_transition parse s o ≡ none
      → from_transition s participants o ≡ ok spec
      → control_snapshot spec prepare false ≡ s
  from_transition-same s participants spec none v ph tr h e = cc
  from_transition-same s participants spec (some t) v ph tr h e =
      let (valid, same) = or_fail-ok (validate parse (spec_of s t participants)) _ spec e in
      ap (λ x. control_snapshot x prepare false) (sym same)
      ∙ published-same s t participants v tr ph (from_epoch-same s t h)
          (revision-kept s t participants valid)

  from_phase-same :
      (s : MembershipSnapshot) (participants : List Bytes) (spec : TransitionSpec)
      (phase : ControlPhase)
      → s.version ≡ snapshot_version
      → s.phase ≡ phase
      → validate_phase parse s phase ≡ none
      → from_phase s participants phase ≡ ok spec
      → control_snapshot spec prepare false ≡ s
  from_phase-same s participants spec ControlPhase.prepare v ph h e =
      from_transition-same s participants spec s.transition v ph refl h e
  from_phase-same s participants spec ControlPhase.paused v ph h e = cc
  from_phase-same s participants spec ControlPhase.drain v ph h e = cc
  from_phase-same s participants spec ControlPhase.committed v ph h e = cc
  from_phase-same s participants spec ControlPhase.active v ph h e = cc
  from_phase-same s participants spec (ControlPhase.unknown text) v ph h e = cc

  -- The specification that is read from a snapshot publishes this snapshot in PREPARE.
  pub control_snapshot-transition_spec_from_snapshot :
      (s : MembershipSnapshot) (participants : List Bytes) (spec : TransitionSpec)
      → transition_spec_from_snapshot s participants ≡ ok spec
      → control_snapshot spec prepare false ≡ s
  unfolding transition_spec_from_snapshot
  control_snapshot-transition_spec_from_snapshot s participants spec h =
      let (checked, read) = guarded-ok (check_snapshot parse s) _ spec h in
      let (fields, phase) = validate-split parse s (check_snapshot-none s checked) in
      from_phase-same s participants spec s.phase fields.version_known refl phase read
