-- ===== src/Policy/Types.antt =====
-- policy/types.go: samples, capacity profiles, brokers and groups. A `float64` is a value of any type
-- with the operations that the code uses on it; an instant is a number of nanoseconds, 0 the zero
-- time, and the time between two instants does not saturate.
use solace_broker_autoscale.Prelude.{
  Bool, List, Map, Option, add64, bool_eq, contains, length, list_eq, nat_eq, option_eq, pair_eq,
  pos, ℕ, ℤ, ◌&&◌,
}
use solace_broker_autoscale.Text.{Bytes}

pub record Floats (V : Type 0) : Type 0 where
  pub zero : V
  pub one : V
  pub hundred : V
  pub infinity : V
  pub is_nan : V → Bool
  pub is_inf : V → Bool
  pub less : V → V → Bool
  pub equal : V → V → Bool
  pub add : V → V → V
  pub sub : V → V → V
  pub div : V → V → V
  pub max : V → V → V

pub data Error : Type 0 where
  unknown_with_value bad_metric no_capture_time incomplete_sample bad_observation : Error
  duplicate_sample incomplete_profile bad_limits duplicate_profile profile_not_found : Error
  incomplete_broker duplicate_broker duplicate_eligible_group : Error
  bad_counts bad_headroom bad_durations : Error
  no_group_id negative_active future_transition membership_too_large unknown_broker : Error
  repeated_broker bad_choice choice_without_evidence : Error
  no_evaluation_time future_capture duplicate_group profile_mismatch unknown_group : Error
  missing_group bad_options not_monotonic future_evaluation no_last_evaluation bad_window : Error

pub record Metric (V : Type 0) : Type 0 where
  pub known : Bool
  pub value : V

pub record Resources (V : Type 0) : Type 0 where
  pub ingress : Metric V
  pub egress : Metric V
  pub spool : Metric V
  pub connections : Metric V

pub record Backlog (V : Type 0) : Type 0 where
  pub queued : Metric V
  pub unacked : Metric V

pub record BrokerSample (V : Type 0) : Type 0 where
  pub broker_id : Bytes
  pub service_class : Bytes
  pub broker_version : Bytes
  pub observed_at : ℕ
  pub resources : Resources V

pub record GroupSample (V : Type 0) : Type 0 where
  pub group_id : Bytes
  pub broker_id : Bytes
  pub observed_at : ℕ
  pub resources : Resources V
  pub backlog : Backlog V

pub record TelemetrySnapshot (V : Type 0) : Type 0 where
  pub captured_at : ℕ
  pub brokers : List (BrokerSample V)
  pub groups : List (GroupSample V)

pub record CapacityLimits (V : Type 0) : Type 0 where
  pub ingress : V
  pub egress : V
  pub spool : V
  pub connections : V

pub record CapacityProfile (V : Type 0) : Type 0 where
  pub service_class : Bytes
  pub broker_version : Bytes
  pub limits : CapacityLimits V

abbrev pub ProfileCatalog : Type 0 → Type 0
ProfileCatalog V = Map (Bytes × Bytes) (CapacityProfile V)

pub record Broker : Type 0 where
  pub id : Bytes
  pub service_class : Bytes
  pub broker_version : Bytes
  pub ready : Bool
  pub eligible_groups : List Bytes

unfoldable pub eligible_for : Broker → Bytes → Bool
eligible_for b group = b.ready && contains b.eligible_groups group

pub record GroupPolicy (V : Type 0) : Type 0 where
  pub minimum_brokers : ℤ
  pub maximum_brokers : ℤ
  pub warm_brokers : ℤ
  pub headroom_percent : V
  pub pressure_window : ℤ
  pub telemetry_max_age : ℤ
  pub cooldown : ℤ
  pub max_concurrent_changes : ℤ

unfoldable pub floor : {V : Type 0} → GroupPolicy V → ℤ
floor p = add64 p.minimum_brokers p.warm_brokers

pub record ScaleInChoice : Type 0 where
  pub broker_id : Bytes
  pub safe : Bool
  pub evidence : Bytes

pub record GroupState (V : Type 0) : Type 0 where
  pub id : Bytes
  pub membership : List Bytes
  pub policy : GroupPolicy V
  pub active_transitions : ℤ
  pub last_transition_at : ℕ
  pub scale_in_choice : Option ScaleInChoice

abbrev pub count : {A : Type 0} → List A → ℤ
count xs = pos (length xs)

abbrev pub all_known : {V : Type 0} → Resources V → Bool
all_known r = r.ingress.known && r.egress.known && r.spool.known && r.connections.known

abbrev pub backlog_known : {V : Type 0} → Backlog V → Bool
backlog_known b = b.queued.known && b.unacked.known
