-- ===== src/Controller/Phases.antt =====
-- controller/types.go: the phases of a transition, the roles of its participants (control/messages.go)
-- and the errors of the package.
use solace_broker_autoscale.Control.Snapshot.{
  descriptor_eq, destination_eq, kind_eq, phase_eq, queue_eq, resource_eq, transition_eq,
}
use solace_broker_autoscale.Prelude.{
  ==_iff, Bool, Eq, [], arith, bool_eq, false, list_eq, nat_eq, option_eq, true, ◌==◌, ◌||◌, ◌↔◌,
  ◌≡◌,
}
use solace_broker_autoscale.Text.{Bytes, bytes}

-- `Phase` is a Go string: `unknown_phase` stands for every other text.
pub data Phase : Type 0 where
  prepare pause drain commit activate : Phase
  unknown_phase : Bytes → Phase

abbrev pub phase_text : Phase → Bytes
phase_text prepare = bytes "PREPARE"
phase_text pause = bytes "PAUSE"
phase_text drain = bytes "DRAIN"
phase_text commit = bytes "COMMIT"
phase_text activate = bytes "ACTIVATE"
phase_text (unknown_phase text) = text

abbrev pub phase_beq : Phase → Phase → Bool
phase_beq prepare prepare = true
phase_beq pause pause = true
phase_beq drain drain = true
phase_beq commit commit = true
phase_beq activate activate = true
phase_beq (unknown_phase a) (unknown_phase b) = a == b
phase_beq _ _ = false

pub phase_beq_iff : (a b : Phase) → (phase_beq a b ≡ true) ↔ (a ≡ b)
phase_beq_iff (unknown_phase a) (unknown_phase b) =
    (λ h. ground (arith, ==_iff a b), λ h. ground (arith, ==_iff a b))
phase_beq_iff a b = (λ h. ground arith, λ h. ground arith)

instance abbrev pub transition_phase_eq : Eq Phase
transition_phase_eq = record { beq = phase_beq; beq_iff = phase_beq_iff }

-- `untyped` is the empty role of a legacy requirement, `unknown_role` any other text.
pub data ParticipantRole : Type 0 where
  publisher subscriber broker observer untyped : ParticipantRole
  unknown_role : Bytes → ParticipantRole

abbrev pub role_text : ParticipantRole → Bytes
role_text publisher = bytes "publisher"
role_text subscriber = bytes "subscriber"
role_text broker = bytes "broker"
role_text observer = bytes "observer"
role_text untyped = []
role_text (unknown_role text) = text

abbrev pub role_beq : ParticipantRole → ParticipantRole → Bool
role_beq publisher publisher = true
role_beq subscriber subscriber = true
role_beq broker broker = true
role_beq observer observer = true
role_beq untyped untyped = true
role_beq (unknown_role a) (unknown_role b) = a == b
role_beq _ _ = false

pub role_beq_iff : (a b : ParticipantRole) → (role_beq a b ≡ true) ↔ (a ≡ b)
role_beq_iff (unknown_role a) (unknown_role b) =
    (λ h. ground (arith, ==_iff a b), λ h. ground (arith, ==_iff a b))
role_beq_iff a b = (λ h. ground arith, λ h. ground arith)

instance abbrev pub role_eq : Eq ParticipantRole
role_eq = record { beq = role_beq; beq_iff = role_beq_iff }

-- `ParticipantRole.Validate`.
abbrev pub is_known_role : ParticipantRole → Bool
is_known_role untyped = false
is_known_role (unknown_role text) = false
is_known_role _ = true

abbrev pub valid_requirement_phase : Phase → Bool
valid_requirement_phase (unknown_phase text) = false
valid_requirement_phase _ = true

abbrev pub role_allowed_for_phase : ParticipantRole → Phase → Bool
role_allowed_for_phase publisher phase = phase == pause || phase == activate
role_allowed_for_phase subscriber phase = phase == prepare || phase == drain || phase == activate
role_allowed_for_phase broker phase = valid_requirement_phase phase
role_allowed_for_phase _ phase = false

pub data Error : Type 0 where
  transition_in_progress transition_not_found stale_message unknown_participant : Error
  commit_reached rollback_unproven phase_deadline readiness_stale : Error
  missing_identity bad_epochs bad_revision missing_contract bad_queue bad_destination : Error
  missing_membership missing_requirements unsupported_phase empty_participant : Error
  duplicate_participant unsupported_role forbidden_role bad_broker duplicate_broker : Error
  not_prepare bad_snapshot : Error
  membership_regressed membership_conflict : Error
  save_failed publish_failed fence_failed unfence_failed verify_failed ingress_failed : Error
  unknown_phase_error : Error
