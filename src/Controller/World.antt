-- ===== src/Controller/World.antt =====
-- controller/types.go: what the controller asks of the brokers, the publisher, the store and the
-- clock. `Env` holds their answers for one call of `Reconcile`, one for each place of the code that
-- asks: any answers at all, save for a store, which keeps what it was given when a save succeeds.
use solace_broker_autoscale.Controller.Commands.{operation_id}
use solace_broker_autoscale.Control.Snapshot.{MembershipSnapshot}
use solace_broker_autoscale.Controller.Operations.{acknowledge}
use solace_broker_autoscale.Controller.Phases.{Error, Phase, phase_text}
use solace_broker_autoscale.Controller.Publication.{control_snapshot}
use solace_broker_autoscale.Controller.Spec.{Broker}
use solace_broker_autoscale.Controller.State.{
  Acknowledgement, GroupState, PersistentState, phase_map,
}
use solace_broker_autoscale.Prelude.{
  Bool, List, Map, Option, [], bool_eq, false, if◌then◌else◌, list_eq, nat_eq, option_eq, ℕ, ◌∷◌,
}
use solace_broker_autoscale.Text.{Bytes}

pub record FenceRequest : Type 0 where
  pub operation_id : Bytes
  pub group : Bytes
  pub transition_id : Bytes
  pub epoch : ℕ
  pub brokers : List Broker

pub record FenceStatus : Type 0 where
  pub fenced : Bool
  pub observed_at : ℕ

pub record IngressStatus : Type 0 where
  pub enabled : Bool
  pub observed_at : ℕ

pub record ControlUpdate : Type 0 where
  pub operation_id : Bytes
  pub group : Bytes
  pub transition_id : Bytes
  pub from_epoch : ℕ
  pub to_epoch : ℕ
  pub phase : Phase
  pub current : List Broker
  pub proposed : List Broker
  pub rollback : Bool
  pub snapshot : MembershipSnapshot
  pub issued_command_ids : Map Bytes Bytes

-- An acknowledgement that arrives while an update is published, with the clock and the answer of
-- the store that it meets.
pub record Delivery : Type 0 where
  pub ack : Acknowledgement
  pub now : ℕ
  pub saved : Bool

pub record Env : Type 0 where
  pub deadline_now : ℕ
  pub drain_now : ℕ
  pub readiness_now : ℕ
  pub verify_now : ℕ
  pub entry_now : ℕ
  pub intent_saved : Bool
  pub membership_saved : Bool
  pub attempt_saved : Bool
  pub change_saved : Bool
  pub fence : FenceRequest → Bool
  pub unfence : FenceRequest → Bool
  pub enable_ingress : FenceRequest → Bool
  pub verify_fence : FenceRequest → Option FenceStatus
  pub verify_ingress : FenceRequest → Option IngressStatus
  pub publish : ControlUpdate → Bool
  pub delivered : List Delivery

-- `(bool, error)` with the state that is left.
pub record Reply : Type 0 where
  pub state : PersistentState
  pub changed : Bool
  pub error : Option Error

abbrev pub reply : PersistentState → Bool → Option Error → Reply
reply p changed error = record { state = p; changed = changed; error = error }

unfoldable pub fence_request : GroupState → Bytes → FenceRequest
fence_request g action = record {
  operation_id = operation_id g.spec action false;
  group = g.spec.group;
  transition_id = g.spec.id;
  epoch = g.spec.from_epoch;
  brokers = g.spec.current;
}

unfoldable pub target_ingress_request : GroupState → Bytes → FenceRequest
target_ingress_request g action = record {
  operation_id = operation_id g.spec action false;
  group = g.spec.group;
  transition_id = g.spec.id;
  epoch = g.spec.to_epoch;
  brokers = g.spec.proposed;
}

unfoldable pub control_update : GroupState → Phase → Bool → ControlUpdate
control_update g phase rollback = record {
  operation_id = operation_id g.spec (phase_text phase) rollback;
  group = g.spec.group;
  transition_id = g.spec.id;
  from_epoch = g.spec.from_epoch;
  to_epoch = if rollback then g.spec.from_epoch else g.spec.to_epoch;
  phase = phase;
  current = g.spec.current;
  proposed = if rollback then g.spec.current else g.spec.proposed;
  rollback = rollback;
  snapshot = control_snapshot g.spec phase rollback;
  issued_command_ids = phase_map phase g.issued_command_ids;
}

unfoldable pub deliver : List Delivery → PersistentState → PersistentState
deliver [] p = p
deliver (d ∷ ds) p = deliver ds (acknowledge d.now d.saved d.ack p).0
