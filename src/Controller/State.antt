-- ===== src/Controller/State.antt =====
-- controller/controller.go and controller/types.go: the durable state. A `time.Time` is a natural
-- number of nanoseconds and 0 is the zero time. Each map is an association list.
use solace_broker_autoscale.Control.Snapshot.{
  MembershipSnapshot, descriptor_eq, destination_eq, kind_eq, phase_eq, queue_eq, resource_eq,
  transition_eq,
}
use solace_broker_autoscale.Controller.Phases.{ParticipantRole, Phase, role_eq, transition_phase_eq}
use solace_broker_autoscale.Controller.Spec.{TransitionSpec, broker_eq, requirement_eq}
use solace_broker_autoscale.Prelude.{
  Bool, List, Map, Option, [], bool_eq, conj, list_eq, lookup, nat_eq, none, option_eq, some, true,
  ℕ, ◌&&◌, ◌++◌, ◌+◌, ◌==◌, ◌∷◌,
}
use solace_broker_autoscale.Text.{Bytes}

pub record Count : Type 0 where
  pub known : Bool
  pub value : ℕ

pub record Telemetry : Type 0 where
  pub message_id : Bytes
  pub namespace : Bytes
  pub group : Bytes
  pub transition_id : Bytes
  pub epoch : ℕ
  pub participant : Bytes
  pub role : ParticipantRole
  pub source_broker : Bytes
  pub source_queue : Bytes
  pub observed_at : ℕ
  pub queued : Count
  pub stored : Count
  pub unacked : Count

abbrev pub is_zero : Count → Bool
is_zero c = c.known && c.value == 0

unfoldable pub is_known_zero : Telemetry → Bool
is_known_zero t = is_zero t.queued && is_zero t.stored && is_zero t.unacked

abbrev pub count_beq : Count → Count → Bool
count_beq a b = a.known == b.known && a.value == b.value

-- `telemetryEqual`: Go's `==` on the struct.
unfoldable pub telemetry_equal : Telemetry → Telemetry → Bool
telemetry_equal a b = conj (
    (a.message_id == b.message_id)
    ∷ (a.namespace == b.namespace)
    ∷ (a.group == b.group)
    ∷ (a.transition_id == b.transition_id)
    ∷ (a.epoch == b.epoch)
    ∷ (a.participant == b.participant)
    ∷ (a.role == b.role)
    ∷ (a.source_broker == b.source_broker)
    ∷ (a.source_queue == b.source_queue)
    ∷ (a.observed_at == b.observed_at)
    ∷ count_beq a.queued b.queued
    ∷ count_beq a.stored b.stored
    ∷ count_beq a.unacked b.unacked
    ∷ [])

pub record Acknowledgement : Type 0 where
  pub command_id : Bytes
  pub namespace : Bytes
  pub group : Bytes
  pub transition_id : Bytes
  pub epoch : ℕ
  pub phase : Phase
  pub participant : Bytes
  pub authenticated_participant : Bytes
  pub role : ParticipantRole
  pub observed_at : ℕ

pub record PhaseEvent : Type 0 where
  pub phase : Phase
  pub entered_at : ℕ
  pub exited_at : Option ℕ

pub data Outcome : Type 0 where
  outcome_committed outcome_rolled_back : Outcome

pub record TransitionRecord : Type 0 where
  pub transition_id : Bytes
  pub from_epoch : ℕ
  pub to_epoch : ℕ
  pub started_at : ℕ
  pub completed_at : ℕ
  pub outcome : Outcome
  pub phases : List PhaseEvent

pub record DrainSourceEvidence : Type 0 where
  pub broker : Bytes
  pub queue : Bytes
  pub message_id : Bytes
  pub zero_since : ℕ
  pub observed_at : ℕ

pub record CleanupEvidence : Type 0 where
  pub transition_id : Bytes
  pub source_epoch : ℕ
  pub target_epoch : ℕ
  pub zero_since : ℕ
  pub drain_observed_at : ℕ
  pub fence_verified_at : ℕ
  pub committed_at : ℕ
  pub old_epoch_fenced : Bool
  pub sources : List DrainSourceEvidence

pub record GroupState : Type 0 where
  pub spec : TransitionSpec
  pub phase : Phase
  pub acknowledgements : Map Phase (Map Bytes ℕ)
  pub issued_command_ids : Map Phase (Map Bytes Bytes)
  pub latest_telemetry_by_source : Map Bytes Telemetry
  pub zero_since_by_source : Map Bytes ℕ
  pub telemetry_messages : Map Bytes Telemetry
  pub prepare_published : Bool
  pub fence_attempted : Bool
  pub fenced : Bool
  pub pause_published : Bool
  pub drain_published : Bool
  pub commit_published : Bool
  pub target_ingress_enabled : Bool
  pub target_ingress_verified : Bool
  pub activate_published : Bool
  pub latest_telemetry : Option Telemetry
  pub zero_since : Option ℕ
  pub rolling_back : Bool
  pub rollback_published : Bool
  pub unfenced : Bool
  pub completed : Bool
  pub started_at : ℕ
  pub phase_entered_at : ℕ
  pub phase_deadline : ℕ
  pub completed_at : Option ℕ
  pub phase_history : List PhaseEvent
  pub fence_verified_at : Option ℕ
  pub target_ingress_verified_at : Option ℕ
  pub cleanup_recorded : Bool

pub record PersistentState : Type 0 where
  pub membership : Map Bytes MembershipSnapshot
  pub groups : Map Bytes GroupState
  pub history : Map Bytes (List TransitionRecord)
  pub cleanup_evidence : Map Bytes (List CleanupEvidence)

pub record RollbackProof : Type 0 where
  pub transition_id : Bytes
  pub source_membership_intact : Bool
  pub proposed_not_activated : Bool
  pub fence_reversible : Bool

-- `Options` with its defaults applied. `telemetry_freshness` and `phase_timeout` are the values for
-- the group at hand.
pub record Options : Type 0 where
  pub telemetry_freshness : Bytes → ℕ
  pub readiness_freshness : ℕ
  pub fence_freshness : ℕ
  pub zero_grace : Bytes → ℕ
  pub phase_timeout : Bytes → ℕ
  pub history_limit : ℕ

-- The entry of a phase in the acknowledgements or the issued commands; a missing one is empty.
abbrev pub phase_map {ℓ} : {V : Type ℓ} → Phase → Map Phase (Map Bytes V) → Map Bytes V
phase_map phase m = elim (lookup phase m) [ none ↦ [] | some vs ↦ vs ]

abbrev close_last : ℕ → List PhaseEvent → List PhaseEvent
close_last now [] = []
close_last now (e ∷ []) = elim e.exited_at [
  | none ↦ record e { exited_at = some now } ∷ []
  | some t ↦ e ∷ []
]
close_last now (e ∷ f ∷ rest) = e ∷ close_last now (f ∷ rest)

unfoldable pub enter_phase : Phase → ℕ → ℕ → GroupState → GroupState
enter_phase phase now timeout s = record s {
  phase_history =
      close_last now s.phase_history
      ++ record { phase = phase; entered_at = now; exited_at = none } ∷ [];
  phase = phase;
  phase_entered_at = now;
  phase_deadline = now + timeout;
}

unfoldable pub complete_state : ℕ → GroupState → GroupState
complete_state now s = record s {
  completed = true;
  completed_at = some now;
  phase_deadline = 0;
  phase_history = close_last now s.phase_history;
}
