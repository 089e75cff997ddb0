-- ===== src/Policy/Aggregate.antt =====
-- policy/aggregate.go: the assessment of a group, and `Aggregate`.
use solace_broker_autoscale.Prelude.{Bool}
use solace_broker_autoscale.Policy.Assess.{
  BrokerAssessment, Context, GroupAssessment, GroupIssue, GroupScan, PressureKind, TelemetryState,
  add_resources, assess_broker, backlog_unknown, broker_saturation, downstream_backlog,
  known_resources, limits_of, max_utilization, no_load, no_members, of_broker, older_than, peak,
  pressure_none, pressure_unknown, row_late, row_missing, row_unknown, state_known, state_stale,
  state_unknown, state_unset, utilization_across, when,
}
use solace_broker_autoscale.Policy.Checks.{
  saturation_threshold, validate_group, validate_inventory, validate_snapshot,
}
use solace_broker_autoscale.Policy.Types.{
  Broker, BrokerSample, Error, Floats, GroupSample, GroupState, ProfileCatalog, TelemetrySnapshot,
  all_known, backlog_known, duplicate_group, eligible_for, future_capture, missing_group,
  no_evaluation_time, profile_mismatch, unknown_broker, unknown_group,
}
use solace_broker_autoscale.Prelude.{
  List, Map, Option, Result, [], bool_eq, contains, entry, err, fails, if◌then◌else◌, insert,
  is_empty, list_eq, lookup, ltb, ltb_ℤ, map, nat_eq, none, not, ok, option_eq, or_fail, pair_eq,
  pos, some, sort_by, sub64, suc, ℕ, ℤ, ◌&&◌, ◌++◌, ◌==◌, ◌>>=◌, ◌||◌, ◌∷◌, ◌▸◌,
}
use solace_broker_autoscale.Text.{Bytes, bytes_lt}
use solace_broker_autoscale.Policy.Checks.{has_name}

pub record Aggregation (V : Type 0) : Type 0 where
  pub captured_at : ℕ
  pub brokers : List (BrokerAssessment V)
  pub groups : List (GroupAssessment V)

abbrev pub clamp : ℤ → ℤ
clamp a = if ltb_ℤ (pos 0) a then a else pos 0

-- `ReadyWarmBrokers`: the brokers that the group could take.
unfoldable pub ready_warm : List Bytes → Bytes → Map Bytes Broker → ℕ
ready_warm membership group [] = 0
ready_warm membership group ((id, b) ∷ rest) =
    let more = ready_warm membership group rest in
    if not (contains membership b.id) && eligible_for b group then suc more else more

-- The two cases of the switch on a broker's state.
abbrev pub stale_issue : TelemetryState → GroupIssue → List GroupIssue
stale_issue state_stale x = x ∷ []
stale_issue state_known x = []
stale_issue state_unknown x = []
stale_issue state_unset x = []

abbrev pub unknown_issue : TelemetryState → GroupIssue → List GroupIssue
unknown_issue state_unknown x = x ∷ []
unknown_issue state_known x = []
unknown_issue state_stale x = []
unknown_issue state_unset x = []

module _ {V : Type 0} (N : Floats V) where
  -- A broker that has no assessment: the zero value, under the name asked for.
  abbrev pub unset_broker : Bytes → BrokerAssessment V
  unset_broker id = record {
    broker_id = id;
    state = state_unset;
    reason = [];
    observed_at = 0;
    broker_utilization = no_load N;
    grouped_utilization = no_load N;
    shared_utilization = no_load N;
    contributing_groups = [];
  }

  unfoldable pub broker_assessment : List (BrokerAssessment V) → Bytes → BrokerAssessment V
  broker_assessment [] id = unset_broker id
  broker_assessment (a ∷ rest) id = if a.broker_id == id then a else broker_assessment rest id

  -- The row of the group on one of its brokers.
  unfoldable pub scan_member_row :
      Context V → GroupState V → Bytes → Option (GroupSample V) → GroupScan V → GroupScan V
  scan_member_row c g id none a = record a { unknown = a.unknown ++ row_missing id ∷ [] }
  scan_member_row c g id (some row) a = record a {
    stale =
        a.stale ++ when (older_than c.now g.policy.telemetry_max_age row.observed_at) (row_late id);
    unknown =
        a.unknown
        ++ when (not (all_known row.resources)) (row_unknown id)
        ++ when (not (backlog_known row.backlog)) (backlog_unknown id);
    demand =
        if all_known row.resources
        then add_resources N a.demand (known_resources N row.resources)
        else a.demand;
    queued =
        if backlog_known row.backlog then N.add a.queued row.backlog.queued.value else a.queued;
    unacked =
        if backlog_known row.backlog then N.add a.unacked row.backlog.unacked.value else a.unacked;
  }

  unfoldable pub scan_member :
      Context V → List (BrokerAssessment V) → GroupState V → Bytes → GroupScan V → GroupScan V
  scan_member c assessed g id a =
      let b = broker_assessment assessed id in
      scan_member_row c g id (lookup (g.id, id) c.group_samples) (record a {
        stale = a.stale ++ stale_issue b.state (of_broker id b.reason);
        unknown = a.unknown ++ unknown_issue b.state (of_broker id b.reason);
        shared = max_utilization N a.shared b.shared_utilization;
        capacity = add_resources N a.capacity (limits_of N c id);
      })

  unfoldable pub scan_members :
      Context V → List (BrokerAssessment V) → GroupState V → List Bytes → GroupScan V → GroupScan V
  scan_members c assessed g [] a = a
  scan_members c assessed g (id ∷ rest) a =
      scan_members c assessed g rest (scan_member c assessed g id a)

  abbrev pub first_scan : GroupState V → GroupScan V
  first_scan g = record {
    shared = no_load N;
    demand = no_load N;
    capacity = no_load N;
    queued = N.zero;
    unacked = N.zero;
    stale = [];
    unknown = when (is_empty g.membership) no_members;
  }

  -- `x >= y` is `y < x || x == y`, also on NaN.
  unfoldable pub pressure_of : GroupState V → GroupScan V → PressureKind
  pressure_of g a =
      if N.less (saturation_threshold N g.policy) (peak N a.shared)
        || N.equal (peak N a.shared) (saturation_threshold N g.policy)
      then broker_saturation
      else if N.less N.zero a.queued || N.less N.zero a.unacked
      then downstream_backlog
      else pressure_none

  unfoldable pub conclude_group : Context V → GroupState V → GroupScan V → GroupAssessment V
  conclude_group c g a =
      let ready = ready_warm g.membership g.id c.brokers in
      let base : GroupAssessment V = record {
        group_id = g.id;
        state = state_known;
        reason = [];
        pressure = pressure_none;
        workload_utilization = no_load N;
        shared_utilization = a.shared;
        queued = a.queued;
        unacked = a.unacked;
        ready_warm_brokers = ready;
        warm_broker_shortfall = clamp (sub64 g.policy.warm_brokers (pos ready));
        sustained_since = 0;
      } in
      if not (is_empty a.stale)
      then record base { state = state_stale; pressure = pressure_unknown; reason = a.stale }
      else if not (is_empty a.unknown)
      then record base { state = state_unknown; pressure = pressure_unknown; reason = a.unknown }
      else record base {
        workload_utilization = utilization_across N a.demand a.capacity;
        pressure = pressure_of g a;
      }

  unfoldable pub assess_group :
      Context V → List (BrokerAssessment V) → GroupState V → GroupAssessment V
  assess_group c assessed g =
      conclude_group c g (scan_members c assessed g g.membership (first_scan g))

  -- The loop over the groups, with `seenGroups`.
  unfoldable pub check_groups :
      ℕ → Map Bytes Broker → List Bytes → List (GroupState V) → Option Error
  check_groups now brokers seen [] = none
  check_groups now brokers seen (g ∷ rest) =
      fails (contains seen g.id) duplicate_group
      ▸ validate_group N now brokers g
      ▸ check_groups now brokers (g.id ∷ seen) rest

  unfoldable pub assess_brokers : Context V → List Bytes → Result Error (List (BrokerAssessment V))
  assess_brokers c [] = ok []
  assess_brokers c (id ∷ rest) = elim (assess_broker N c id) [
    | none ↦ err missing_group
    | some a ↦ assess_brokers c rest >>= (λ more. ok (a ∷ more))
  ]

abbrev add_member : Bytes → Map Bytes (List Bytes) → Bytes → Map Bytes (List Bytes)
add_member group m id = insert id (entry id m ++ group ∷ []) m

unfoldable pub add_memberships :
    Bytes → List Bytes → Map Bytes (List Bytes) → Map Bytes (List Bytes)
add_memberships group [] m = m
add_memberships group (id ∷ rest) m = add_memberships group rest (add_member group m id)

unfoldable pub memberships_of :
    {V : Type 0} → List (GroupState V) → Map Bytes (List Bytes) → Map Bytes (List Bytes)
memberships_of [] m = m
memberships_of (g ∷ rest) m = memberships_of rest (add_memberships g.id g.membership m)

abbrev sorted_entry : Bytes × List Bytes → Bytes × List Bytes
sorted_entry (id, groups) = (id, sort_by bytes_lt groups)

abbrev pub key_of : {W : Type 0} → Bytes × W → Bytes
key_of (k, w) = k

module _ {V : Type 0} where
  unfoldable pub check_broker_rows : Map Bytes Broker → List (BrokerSample V) → Option Error
  check_broker_rows brokers [] = none
  check_broker_rows brokers (s ∷ rest) = elim (lookup s.broker_id brokers) [
    | none ↦ some unknown_broker
    | some b ↦
        fails
          (not (s.service_class == b.service_class) || not (s.broker_version == b.broker_version))
          profile_mismatch
        ▸ check_broker_rows brokers rest
  ]

  unfoldable pub check_group_rows :
      Map Bytes Broker → List Bytes → List (GroupSample V) → Option Error
  check_group_rows brokers groups [] = none
  check_group_rows brokers groups (s ∷ rest) =
      fails (not (contains groups s.group_id)) unknown_group
      ▸ fails (not (has_name brokers s.broker_id)) unknown_broker
      ▸ check_group_rows brokers groups rest

  abbrev pub group_ids : List (GroupState V) → List Bytes
  group_ids = map (λ g. g.id)

  abbrev pub by_id : GroupState V → GroupState V → Bool
  by_id g h = bytes_lt g.id h.id

  unfoldable pub index_brokers : List (BrokerSample V) → Map Bytes (BrokerSample V)
  index_brokers rows = map (λ s. (s.broker_id, s)) rows

  unfoldable pub index_groups : List (GroupSample V) → Map (Bytes × Bytes) (GroupSample V)
  index_groups rows = map (λ s. ((s.group_id, s.broker_id), s)) rows

  -- The groups and the brokers' names in the order of their ids. The keys of the samples are distinct.
  unfoldable pub context_of :
      ℕ
      → TelemetrySnapshot V
      → ProfileCatalog V
      → Map Bytes Broker
      → List (GroupState V)
      → Context V
  context_of now snapshot catalog brokers groups = record {
    now = now;
    catalog = catalog;
    brokers = brokers;
    groups = groups;
    broker_samples = index_brokers snapshot.brokers;
    group_samples = index_groups snapshot.groups;
    memberships = map sorted_entry (memberships_of groups []);
  }

module _ {V : Type 0} (N : Floats V) where
  unfoldable pub assess_all : ℕ → Context V → Result Error (Aggregation V)
  assess_all captured c =
      assess_brokers N c (sort_by bytes_lt (map key_of c.brokers)) >>= (λ assessed. ok (record {
        captured_at = captured;
        brokers = assessed;
        groups = map (assess_group N c assessed) (sort_by by_id c.groups);
      }))

  -- The checks before the inventory is read, and those with the brokers at hand.
  unfoldable pub check_cycle : ℕ → TelemetrySnapshot V → Option Error
  check_cycle now snapshot =
      fails (now == 0) no_evaluation_time
      ▸ fails (ltb now snapshot.captured_at) future_capture
      ▸ validate_snapshot N snapshot

  unfoldable pub check_inputs :
      ℕ → TelemetrySnapshot V → List (GroupState V) → Map Bytes Broker → Option Error
  check_inputs now snapshot groups brokers =
      check_groups N now brokers [] groups
      ▸ check_broker_rows brokers snapshot.brokers
      ▸ check_group_rows brokers (group_ids groups) snapshot.groups

  -- `Aggregate`.
  unfoldable pub aggregate :
      ℕ
      → TelemetrySnapshot V
      → ProfileCatalog V
      → List Broker
      → List (GroupState V)
      → Result Error (Aggregation V)
  aggregate now snapshot catalog inventory groups =
      or_fail (check_cycle now snapshot) inventory
      >>= validate_inventory catalog
      >>= (λ brokers. or_fail (check_inputs now snapshot groups brokers) brokers)
      >>= (λ brokers.
          assess_all snapshot.captured_at (context_of now snapshot catalog brokers groups))
