-- ===== src/Policy/Advice.antt =====
-- policy/engine.go: the recommendation for one group.
use solace_broker_autoscale.Prelude.{Bool}
use solace_broker_autoscale.Policy.Assess.{
  GroupAssessment, GroupIssue, PressureKind, TelemetryState, broker_saturation, downstream_backlog,
  pressure_unset, state_known, state_stale, state_unknown, state_unset,
}
use solace_broker_autoscale.Policy.Types.{
  Broker, GroupState, ScaleInChoice, count, eligible_for, floor,
}
use solace_broker_autoscale.Prelude.{
  List, Option, [], bool_eq, contains, difference, false, if◌then◌else◌, leb_ℤ, list_eq, ltb_ℤ,
  nat_eq, none, not, option_eq, pair_eq, pos, some, sort_by, true, ℕ, ◌&&◌, ◌++◌, ◌==◌, ◌||◌, ◌∷◌,
}
use solace_broker_autoscale.Text.{Bytes, bytes_lt}
use solace_broker_autoscale.Policy.Assess.{pressure_none, pressure_unknown}

pub data Action : Type 0 where
  action_none scale_out_group scale_in_group : Action

pub data Reason : Type 0 where
  stale_telemetry unknown_telemetry : List GroupIssue → Reason
  group_limit already_in_transition cooldown_active below_floor not_sustained : Reason
  maximum_under_pressure sustained backlog_only at_floor no_choice choice_not_safe : Reason
  would_violate_floor proven_safe maximum_reached no_ready_broker global_limit : Reason

pub record Recommendation : Type 0 where
  pub group_id : Bytes
  pub action : Action
  pub broker_id : Bytes
  pub current_membership : List Bytes
  pub proposed_membership : List Bytes
  pub pressure : PressureKind
  pub telemetry : TelemetryState
  pub reason : Reason
  pub evidence : Bytes

unfoldable pub remove_broker : List Bytes → Bytes → List Bytes
remove_broker [] id = []
remove_broker (m ∷ rest) id = let kept = remove_broker rest id in if m == id then kept else m ∷ kept

-- The names that `scaleOut` collects before it sorts them.
unfoldable pub eligible_brokers : List Bytes → Bytes → List Broker → List Bytes
eligible_brokers membership group [] = []
eligible_brokers membership group (b ∷ rest) =
    let more = eligible_brokers membership group rest in
    if not (contains membership b.id) && eligible_for b group then b.id ∷ more else more

module _ {V : Type 0} where
  -- The fields that every recommendation for the group starts from.
  abbrev pub refuse : GroupState V → GroupAssessment V → Reason → Recommendation
  refuse g a reason = record {
    group_id = g.id;
    action = action_none;
    broker_id = [];
    current_membership = g.membership;
    proposed_membership = [];
    pressure = a.pressure;
    telemetry = a.state;
    reason = reason;
    evidence = [];
  }

  abbrev pub refusal : GroupState V → GroupAssessment V → Reason → Recommendation × Bool
  refusal g a reason = (refuse g a reason, false)

  abbrev pub first_eligible :
      GroupState V → GroupAssessment V → Reason → List Bytes → Recommendation × Bool
  first_eligible g a reason [] = refusal g a no_ready_broker
  first_eligible g a reason (id ∷ rest) = (
    record (refuse g a reason) {
      action = scale_out_group;
      broker_id = id;
      proposed_membership = g.membership ++ id ∷ [];
    },
    true,
  )

  unfoldable pub scale_out :
      GroupState V → GroupAssessment V → List Broker → Reason → Recommendation × Bool
  scale_out g a inventory reason =
      if leb_ℤ g.policy.maximum_brokers (count g.membership)
      then refusal g a maximum_reached
      else first_eligible g a reason
          (sort_by bytes_lt (eligible_brokers g.membership g.id inventory))

  abbrev pub scale_in_to :
      GroupState V → GroupAssessment V → ScaleInChoice → List Bytes → Recommendation × Bool
  scale_in_to g a c proposed =
      if ltb_ℤ (count proposed) (floor g.policy) then refusal g a would_violate_floor else (
        record (refuse g a proven_safe) {
          action = scale_in_group;
          broker_id = c.broker_id;
          proposed_membership = proposed;
          evidence = c.evidence;
        },
        true,
      )

  abbrev pub scale_in_by :
      GroupState V → GroupAssessment V → Option ScaleInChoice → Recommendation × Bool
  scale_in_by g a none = refusal g a no_choice
  scale_in_by g a (some c) =
      if not c.safe
      then refusal g a choice_not_safe
      else scale_in_to g a c (remove_broker g.membership c.broker_id)

  -- What follows the switch on the pressure.
  unfoldable pub scale_in : GroupState V → GroupAssessment V → Recommendation × Bool
  scale_in g a =
      if leb_ℤ (count g.membership) (floor g.policy)
      then refusal g a at_floor
      else scale_in_by g a g.scale_in_choice

  -- The case `PressureBrokerSaturation`.
  unfoldable pub under_pressure :
      ℕ → GroupState V → GroupAssessment V → List Broker → ℕ → Recommendation × Bool
  under_pressure now g a inventory since =
      if since == 0 || ltb_ℤ (difference now since) g.policy.pressure_window
      then refusal g a not_sustained
      else if leb_ℤ g.policy.maximum_brokers (count g.membership)
      then refusal g a maximum_under_pressure
      else scale_out g a inventory sustained

  -- The switch on the pressure.
  unfoldable pub by_pressure :
      ℕ → GroupState V → GroupAssessment V → List Broker → ℕ → PressureKind → Recommendation × Bool
  by_pressure now g a inventory since broker_saturation = under_pressure now g a inventory since
  by_pressure now g a inventory since downstream_backlog = refusal g a backlog_only
  by_pressure now g a inventory since pressure_none = scale_in g a
  by_pressure now g a inventory since pressure_unknown = scale_in g a
  by_pressure now g a inventory since pressure_unset = scale_in g a

  -- The rest of `recommend`, once the telemetry is known.
  unfoldable pub recommend_known :
      ℕ → GroupState V → GroupAssessment V → List Broker → ℕ → Recommendation × Bool
  recommend_known now g a inventory since =
      if leb_ℤ g.policy.max_concurrent_changes g.active_transitions
      then refusal g a group_limit
      else if ltb_ℤ (pos 0) g.active_transitions
      then refusal g a already_in_transition
      else if not (g.last_transition_at == 0)
          && ltb_ℤ (difference now g.last_transition_at) g.policy.cooldown
      then refusal g a cooldown_active
      else if ltb_ℤ (count g.membership) (floor g.policy)
      then scale_out g a inventory below_floor
      else by_pressure now g a inventory since a.pressure

  abbrev pub by_state :
      ℕ
      → GroupState V
      → GroupAssessment V
      → List Broker
      → ℕ
      → TelemetryState
      → Recommendation × Bool
  by_state now g a inventory since state_known = recommend_known now g a inventory since
  by_state now g a inventory since state_stale = refusal g a (stale_telemetry a.reason)
  by_state now g a inventory since state_unknown = refusal g a (unknown_telemetry a.reason)
  by_state now g a inventory since state_unset = refusal g a (unknown_telemetry a.reason)

  -- `recommend`.
  unfoldable pub recommend :
      ℕ → GroupState V → GroupAssessment V → List Broker → ℕ → Recommendation × Bool
  recommend now g a inventory since = by_state now g a inventory since a.state
