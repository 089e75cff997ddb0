-- ===== src/Controller/Commands.antt =====
-- controller/controller.go: operation and command identities, and what was issued and acknowledged.
use solace_broker_autoscale.Control.Snapshot.{
  descriptor_eq, destination_eq, kind_eq, phase_eq, queue_eq, resource_eq, transition_eq,
}
use solace_broker_autoscale.Controller.Phases.{
  Phase, activate, commit, drain, pause, phase_text, prepare, role_eq, role_text,
  transition_phase_eq, unknown_phase, untyped,
}
use solace_broker_autoscale.Controller.Spec.{
  ParticipantRequirement, TransitionSpec, broker_eq, requirement_eq,
}
use solace_broker_autoscale.Prelude.{entry}
use solace_broker_autoscale.Controller.State.{GroupState, phase_map}
use solace_broker_autoscale.Prelude.{
  Bool, List, Map, Option, [], all, any, bool_eq, false, if◌then◌else◌, insert, leb, length,
  list_eq, lookup, ltb, nat_eq, none, not, option_eq, some, true, ℕ, ◌&&◌, ◌++◌, ◌-◌, ◌==◌, ◌||◌,
  ◌∷◌,
}
use solace_broker_autoscale.Text.{Bytes, bytes}

abbrev slash : Bytes
slash = bytes "/"

unfoldable pub operation_id : TransitionSpec → Bytes → Bool → Bytes
operation_id s action rollback =
    s.group
    ++ slash
    ++ s.id
    ++ slash
    ++ (if rollback then bytes "rollback" else bytes "forward")
    ++ slash
    ++ action

unfoldable pub command_id : TransitionSpec → Phase → ParticipantRequirement → Bytes
command_id s phase r =
    operation_id s
      (bytes "command/" ++ phase_text phase ++ slash ++ role_text r.role ++ slash ++ r.participant)
      false

unfoldable pub commands_for : TransitionSpec → Phase → List ParticipantRequirement → Map Bytes Bytes
commands_for s phase [] = []
commands_for s phase (r ∷ rest) =
    insert r.participant (command_id s phase r) (commands_for s phase rest)

-- `expectedCommandIDs(spec)[phase]`.
unfoldable pub expected_command_ids : TransitionSpec → Phase → Map Bytes Bytes
expected_command_ids s phase = commands_for s phase (entry phase s.role_requirements)

abbrev agrees_with : Map Bytes Bytes → Bytes × Bytes → Bool
agrees_with m (k, v) = elim (lookup k m) [ none ↦ false | some w ↦ v == w ]

-- `maps.Equal`.
unfoldable pub maps_equal : Map Bytes Bytes → Map Bytes Bytes → Bool
maps_equal a b = length a == length b && all (agrees_with b) a

unfoldable pub commands_issued : GroupState → Phase → Bool
commands_issued s phase =
    let expected = expected_command_ids s.spec phase in
    ltb 0 (length expected) && maps_equal (phase_map phase s.issued_command_ids) expected

unfoldable pub record_issued_commands : Phase → GroupState → GroupState
record_issued_commands phase s = record s {
  issued_command_ids = insert phase (expected_command_ids s.spec phase) s.issued_command_ids;
}

abbrev pub phase_published : GroupState → Phase → Bool
phase_published s prepare = s.prepare_published
phase_published s pause = s.pause_published
phase_published s drain = s.drain_published
phase_published s commit = s.commit_published
phase_published s activate = s.activate_published
phase_published s (unknown_phase text) = false

abbrev has_key {ℓ} : {V : Type ℓ} → Map Bytes V → Bytes → Bool
has_key m k = elim (lookup k m) [ none ↦ false | some v ↦ true ]

unfoldable pub all_acknowledged : GroupState → Phase → Bool
all_acknowledged s phase =
    all (has_key (phase_map phase s.acknowledgements)) (entry phase s.spec.participant_requirements)

abbrev is_typed : ParticipantRequirement → Bool
is_typed r = not (r.role == untyped)

abbrev any_typed : Map Phase (List ParticipantRequirement) → Bool
any_typed [] = false
any_typed ((phase, rs) ∷ m) = any is_typed rs || any_typed m

unfoldable pub has_typed_requirements : TransitionSpec → Bool
has_typed_requirements s = any_typed s.role_requirements

-- `!observedAt.After(now) && now.Sub(observedAt) <= freshness`.
abbrev pub fresh_at : ℕ → ℕ → ℕ → Bool
fresh_at now freshness observed_at = leb observed_at now && leb (now - observed_at) freshness

abbrev is_fresh : ℕ → ℕ → ℕ → Option ℕ → Bool
is_fresh now freshness from none = false
is_fresh now freshness from (some t) = leb from t && fresh_at now freshness t

-- Readiness of one participant: a fresh DRAIN acknowledgement or, where no requirement is typed, a
-- fresh PREPARE acknowledgement.
unfoldable pub participant_ready : GroupState → ℕ → ℕ → Bytes → Bool
participant_ready s now freshness participant =
    is_fresh now freshness s.phase_entered_at
      (lookup participant (phase_map drain s.acknowledgements))
    || (not (has_typed_requirements s.spec)
        && is_fresh now freshness 0 (lookup participant (phase_map prepare s.acknowledgements)))

unfoldable pub readiness_fresh : GroupState → ℕ → ℕ → Bool
readiness_fresh s now freshness =
    all (participant_ready s now freshness) (entry drain s.spec.participant_requirements)
