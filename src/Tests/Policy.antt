-- ===== src/Tests/Policy.antt =====
-- The theorems on the scaling policy at inputs that meet their hypotheses.
use solace_broker_autoscale.Policy.Types.{eligible_for, floor}
use solace_broker_autoscale.Policy.Checks.{
  validate_metric, validate_resources, validate_backlog, check_broker_samples, check_group_samples,
  validate_snapshot, validate_limits, add_profiles, new_profile_catalog, validate_policy,
  saturation_threshold, lookup_profile, check_members, validate_group, adjacent_duplicate,
  add_brokers, validate_inventory,
}
use solace_broker_autoscale.Policy.Assess.{
  shortest_age, max_telemetry_age_for_broker, find_group, add_resources, utilization,
  max_utilization, utilization_across, peak, limits_of, scan_group_row, scan_groups,
  conclude_broker, assess_sampled_broker, assess_broker,
}
use solace_broker_autoscale.Policy.Aggregate.{
  ready_warm, broker_assessment, scan_member_row, scan_member, scan_members, pressure_of,
  conclude_group, assess_group, check_groups, assess_brokers, add_memberships, memberships_of,
  check_broker_rows, check_group_rows, index_brokers, index_groups, context_of, assess_all,
  check_cycle, check_inputs, aggregate,
}
use solace_broker_autoscale.Policy.Advice.{
  remove_broker, eligible_brokers, scale_out, scale_in, under_pressure, by_pressure,
  recommend_known, recommend,
}
use solace_broker_autoscale.Policy.Engine.{
  new_engine, state, check_windows, check_state, restore_state, has_new_pressure_observation,
  subtract_active, group_assessment, update_group_assessment, is_fresh, step_window, step_windows,
  recommend_in, decide, update_all, decide_cycle, evaluate,
}
use solace_broker_autoscale.Policy.Types.{Error, GroupState, Broker}
use solace_broker_autoscale.Prelude.{insert_by, sort_by, add64, sub64}
use solace_broker_autoscale.Control.Snapshot.{
  descriptor_eq, destination_eq, kind_eq, phase_eq, queue_eq, resource_eq, transition_eq,
}
use solace_broker_autoscale.Controller.Phases.{role_eq, transition_phase_eq}
use solace_broker_autoscale.Controller.Spec.{broker_eq, requirement_eq}
use solace_broker_autoscale.Policy.Advice.{Recommendation}
use solace_broker_autoscale.Policy.Engine.{Decision, Engine}
use solace_broker_autoscale.Policy.Types.{
  BrokerSample, CapacityProfile, Floats, GroupSample, Metric, Resources, TelemetrySnapshot,
}
use solace_broker_autoscale.Prelude.{
  List, Result, [], bool_eq, err, false, if◌then◌else◌, list_eq, ltb, map, nat_eq, none, ok,
  option_eq, pair_eq, pos, refl, true, ℕ, ◌*◌, ◌+◌, ◌-◌, ◌/◌, ◌==◌, ◌∷◌, ◌≡◌,
}
use solace_broker_autoscale.Text.{Bytes, bytes}
use solace_broker_autoscale.Policy.Aggregate.{Aggregation}
use solace_broker_autoscale.Policy.Assess.{Context, state_known}
use solace_broker_autoscale.Policy.Budget.{active_sum}
use solace_broker_autoscale.Policy.Decisions.{
  Warranted, evaluate-Warranted, evaluate-bound, evaluate-check_windows, evaluate-restore_state,
  evaluate-window,
}
use solace_broker_autoscale.Policy.Telemetry.{Reading, assess_group-Reading}
use solace_broker_autoscale.Policy.Windows.{is_pressed, new_window}
use solace_broker_autoscale.Prelude.{All, Memᴰ, arith, is_empty, length, lookup, some, ◌≤◌}

-- Numbers in thousandths stand for `float64`.
abbrev thousandths : Floats ℕ
thousandths = record {
  zero = 0;
  one = 1000;
  hundred = 100000;
  infinity = 1000000000000;
  is_nan = λ v. false;
  is_inf = λ v. 1000000000000 == v;
  less = ltb;
  equal = λ a b. a == b;
  add = λ a b. a + b;
  sub = λ a b. a - b;
  div = λ a b. a * 1000 / b;
  max = λ a b. if ltb a b then b else a;
}

abbrev measured : ℕ → Metric ℕ
measured v = record { known = true; value = v }

abbrev load : ℕ → Resources ℕ
load v = record {
  ingress = measured v;
  egress = measured v;
  spool = measured v;
  connections = measured v;
}

abbrev large : CapacityProfile ℕ
large = record {
  service_class = bytes "c";
  broker_version = bytes "v";
  limits = record { ingress = 100; egress = 100; spool = 100; connections = 100 };
}

abbrev broker_named : Bytes → Broker
broker_named id = record {
  id = id;
  service_class = bytes "c";
  broker_version = bytes "v";
  ready = true;
  eligible_groups = bytes "g" ∷ [];
}

abbrev sample_of : Bytes → BrokerSample ℕ
sample_of id = record {
  broker_id = id;
  service_class = bytes "c";
  broker_version = bytes "v";
  observed_at = 15;
  resources = load 95;
}

abbrev row_of : Bytes → GroupSample ℕ
row_of id = record {
  group_id = bytes "g";
  broker_id = id;
  observed_at = 16;
  resources = load 40;
  backlog = record { queued = measured 3; unacked = measured 0 };
}

abbrev telemetry : TelemetrySnapshot ℕ
telemetry = record {
  captured_at = 18;
  brokers = sample_of (bytes "a") ∷ [];
  groups = row_of (bytes "a") ∷ [];
}

abbrev scaling_group : GroupState ℕ
scaling_group = record {
  id = bytes "g";
  membership = bytes "a" ∷ [];
  policy = record {
    minimum_brokers = pos 1;
    maximum_brokers = pos 3;
    warm_brokers = pos 0;
    headroom_percent = 20000;
    pressure_window = pos 10;
    telemetry_max_age = pos 8;
    cooldown = pos 5;
    max_concurrent_changes = pos 1;
  };
  active_transitions = pos 0;
  last_transition_at = 2;
  scale_in_choice = none;
}

abbrev brokers : List Broker
brokers = broker_named (bytes "b") ∷ broker_named (bytes "a") ∷ []

-- The group has been under pressure since 5, and the last cycle was at 12.
abbrev engine : Engine ℕ
engine = record {
  catalog = ((bytes "c", bytes "v"), large) ∷ [];
  limit = pos 2;
  pressure = (bytes "g", 5) ∷ [];
  last_at = 12;
}

abbrev no_decision : Decision ℕ
no_decision = record {
  at = 0;
  aggregation = record { captured_at = 0; brokers = []; groups = [] };
  groups = [];
  transitions = [];
}

abbrev decision_of : Result Error (Decision ℕ) → Decision ℕ
decision_of (ok d) = d
decision_of (err e) = no_decision

abbrev cycle : Engine ℕ × Result Error (Decision ℕ)
cycle = evaluate thousandths engine 20 telemetry brokers (scaling_group ∷ [])

grown :
    map (λ (r : Recommendation). r.proposed_membership) (decision_of cycle.1).transitions
    ≡ (bytes "a" ∷ bytes "b" ∷ []) ∷ []
unfolding eligible_for floor validate_metric validate_resources validate_backlog
    check_broker_samples check_group_samples validate_snapshot validate_limits add_profiles
    new_profile_catalog validate_policy saturation_threshold lookup_profile check_members
    validate_group adjacent_duplicate add_brokers validate_inventory shortest_age
    max_telemetry_age_for_broker find_group add_resources utilization max_utilization
    utilization_across peak limits_of scan_group_row scan_groups conclude_broker
    assess_sampled_broker assess_broker ready_warm broker_assessment scan_member_row scan_member
    scan_members pressure_of conclude_group assess_group check_groups assess_brokers add_memberships
    memberships_of check_broker_rows check_group_rows index_brokers index_groups context_of
    assess_all check_cycle check_inputs aggregate new_engine state check_windows check_state
    restore_state remove_broker eligible_brokers scale_out scale_in under_pressure by_pressure
    recommend_known recommend has_new_pressure_observation subtract_active group_assessment
    update_group_assessment is_fresh step_window step_windows recommend_in decide update_all
    decide_cycle evaluate insert_by sort_by add64 sub64
grown = refl

done : cycle ≡ (cycle.0, ok (decision_of cycle.1))
unfolding eligible_for floor validate_metric validate_resources validate_backlog
    check_broker_samples check_group_samples validate_snapshot validate_limits add_profiles
    new_profile_catalog validate_policy saturation_threshold lookup_profile check_members
    validate_group adjacent_duplicate add_brokers validate_inventory shortest_age
    max_telemetry_age_for_broker find_group add_resources utilization max_utilization
    utilization_across peak limits_of scan_group_row scan_groups conclude_broker
    assess_sampled_broker assess_broker ready_warm broker_assessment scan_member_row scan_member
    scan_members pressure_of conclude_group assess_group check_groups assess_brokers add_memberships
    memberships_of check_broker_rows check_group_rows index_brokers index_groups context_of
    assess_all check_cycle check_inputs aggregate new_engine state check_windows check_state
    restore_state remove_broker eligible_brokers scale_out scale_in under_pressure by_pressure
    recommend_known recommend has_new_pressure_observation subtract_active group_assessment
    update_group_assessment is_fresh step_window step_windows recommend_in decide update_all
    decide_cycle evaluate insert_by sort_by add64 sub64
done = refl

abbrev aggregation_of : Result Error (Aggregation ℕ) → Aggregation ℕ
aggregation_of (ok r) = r
aggregation_of (err e) = no_decision.aggregation

abbrev measured_cycle : Result Error (Aggregation ℕ)
measured_cycle = aggregate thousandths 20 telemetry engine.catalog brokers (scaling_group ∷ [])

known : measured_cycle ≡ ok (aggregation_of measured_cycle)
unfolding eligible_for floor validate_metric validate_resources validate_backlog
    check_broker_samples check_group_samples validate_snapshot validate_limits add_profiles
    new_profile_catalog validate_policy saturation_threshold lookup_profile check_members
    validate_group adjacent_duplicate add_brokers validate_inventory shortest_age
    max_telemetry_age_for_broker find_group add_resources utilization max_utilization
    utilization_across peak limits_of scan_group_row scan_groups conclude_broker
    assess_sampled_broker assess_broker ready_warm broker_assessment scan_member_row scan_member
    scan_members pressure_of conclude_group assess_group check_groups assess_brokers add_memberships
    memberships_of check_broker_rows check_group_rows index_brokers index_groups context_of
    assess_all check_cycle check_inputs aggregate new_engine state check_windows check_state
    restore_state remove_broker eligible_brokers scale_out scale_in under_pressure by_pressure
    recommend_known recommend has_new_pressure_observation subtract_active group_assessment
    update_group_assessment is_fresh step_window step_windows recommend_in decide update_all
    decide_cycle evaluate insert_by sort_by add64 sub64
known = refl

evaluate-bound_example :
    length (decision_of cycle.1).transitions ≤ 2 - active_sum (scaling_group ∷ [])
evaluate-bound_example =
    evaluate-bound thousandths engine cycle.0 20 telemetry brokers (scaling_group ∷ [])
      (decision_of cycle.1) done 2 refl (omega arith) (omega arith)

evaluate-Warranted_example :
    All
      (Warranted thousandths 20
        (aggregation_of measured_cycle)
        brokers
        cycle.0.pressure
        (scaling_group ∷ []))
      (decision_of cycle.1).transitions
evaluate-Warranted_example =
    evaluate-Warranted thousandths engine cycle.0 20 telemetry brokers (scaling_group ∷ [])
      (decision_of cycle.1) done (aggregation_of measured_cycle) known

evaluate-window_example :
    lookup (bytes "g") cycle.0.pressure
    ≡ new_window 20
        (is_pressed thousandths 20 12 (aggregation_of measured_cycle) scaling_group)
        (some 5)
evaluate-window_example =
    evaluate-window thousandths engine cycle.0 20 telemetry brokers (scaling_group ∷ [])
      (decision_of cycle.1) done (aggregation_of measured_cycle) known scaling_group
      (Memᴰ.head refl)

evaluate-check_windows_example : check_windows cycle.0.last_at cycle.0.pressure ≡ none
unfolding check_windows
evaluate-check_windows_example =
    evaluate-check_windows thousandths engine cycle.0 20 telemetry brokers (scaling_group ∷ [])
      (decision_of cycle.1) done refl

-- An engine that has just been made.
abbrev fresh_engine : Engine ℕ
fresh_engine = record { catalog = engine.catalog; limit = pos 2; pressure = []; last_at = 0 }

evaluate-restore_state_example :
    restore_state fresh_engine (state cycle.0) 30
    ≡ (record fresh_engine { pressure = cycle.0.pressure; last_at = cycle.0.last_at }, none)
unfolding check_windows
evaluate-restore_state_example =
    evaluate-restore_state thousandths engine cycle.0 20 telemetry brokers (scaling_group ∷ [])
      (decision_of cycle.1) done fresh_engine 30 refl (omega arith)

abbrev context : Context ℕ
context =
    context_of 20 telemetry engine.catalog
      ((bytes "a", broker_named (bytes "a")) ∷ (bytes "b", broker_named (bytes "b")) ∷ [])
      (scaling_group ∷ [])

assessed_known :
    (assess_group thousandths context (aggregation_of measured_cycle).brokers scaling_group).state
    ≡ state_known
unfolding eligible_for floor validate_metric validate_resources validate_backlog
    check_broker_samples check_group_samples validate_snapshot validate_limits add_profiles
    new_profile_catalog validate_policy saturation_threshold lookup_profile check_members
    validate_group adjacent_duplicate add_brokers validate_inventory shortest_age
    max_telemetry_age_for_broker find_group add_resources utilization max_utilization
    utilization_across peak limits_of scan_group_row scan_groups conclude_broker
    assess_sampled_broker assess_broker ready_warm broker_assessment scan_member_row scan_member
    scan_members pressure_of conclude_group assess_group check_groups assess_brokers add_memberships
    memberships_of check_broker_rows check_group_rows index_brokers index_groups context_of
    assess_all check_cycle check_inputs aggregate new_engine state check_windows check_state
    restore_state remove_broker eligible_brokers scale_out scale_in under_pressure by_pressure
    recommend_known recommend has_new_pressure_observation subtract_active group_assessment
    update_group_assessment is_fresh step_window step_windows recommend_in decide update_all
    decide_cycle evaluate insert_by sort_by add64 sub64
assessed_known = refl

assess_group-Reading_example :
    (is_empty scaling_group.membership ≡ false)
    × All
        (Reading thousandths context (aggregation_of measured_cycle).brokers scaling_group)
        scaling_group.membership
assess_group-Reading_example =
    assess_group-Reading thousandths context (aggregation_of measured_cycle).brokers scaling_group
      assessed_known

-- The sum of the minimum and of a huge number of warm brokers wraps around and passes the check.
huge_warm_count_passes :
    validate_policy thousandths
      (record scaling_group.policy { warm_brokers = pos 9223372036854775807 })
    ≡ none
unfolding validate_policy floor add64
huge_warm_count_passes = refl

-- A group with an empty name may stand twice among the eligible groups of a broker.
empty_name_repeats :
    validate_inventory engine.catalog
      (record (broker_named (bytes "a")) { eligible_groups = [] ∷ [] ∷ [] } ∷ [])
    ≡ ok ((bytes "a", record (broker_named (bytes "a")) { eligible_groups = [] ∷ [] ∷ [] }) ∷ [])
unfolding validate_inventory add_brokers lookup_profile adjacent_duplicate insert_by sort_by
empty_name_repeats = refl
